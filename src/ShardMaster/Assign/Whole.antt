-- ===== src/ShardMaster/Assign/Whole.antt =====
-- navieAssign (src/shardmaster/server.go) as a whole: it returns, with balanced groups.
use mit_raft.Base.{
  ℕ, suc, ◌+◌, ◌*◌, ◌≤◌, ◌<◌, ◌≡◌, refl, sym, ap, subst, ◌∙◌, true, false, List, [], ◌∷◌, ◌++◌,
  length, length-append, set, ◌==◌, insert, nat_key, Bool-cases, inl, inr, arith, ==→eq, Returns,
  returned, Returns-bind, Returns-and, Returns-mono,
}
use mit_raft.ShardMaster.State.{n_shards, shards_of, cut}
use mit_raft.ShardMaster.Assign.{Work, total, give_all, even_out, assign_work}
use mit_raft.ShardMaster.Assign.Rounds.{length-cut, List-cases, trim-more}
use mit_raft.ShardMaster.Assign.Buckets.{has, size, Bucket-head, or_right}
use mit_raft.ShardMaster.Assign.Balance.{
  IsLess, IsPlus, Sorted, SortedWork, plus_even, less_full, less_part,
}
use mit_raft.ShardMaster.Assign.Loops.{Balanced, balanced, give-Sorted, even_out-Sorted}
use mit_raft.ShardMaster.Assign.Totals.{total-lt, size-keyed, total-insert_there}
use mit_raft.ShardMaster.Assign.Spread.{
  AreShards, Marks, Known, Table-insert, Known-insert, Marks-insert, AreShards-cut, last-AreShards,
}
use mit_raft.ShardMaster.Assign.Trimming.{Ready, Trimmed, trim-Trimmed}
use mit_raft.ShardMaster.Assign.Giving.{
  store-ok, has_head, has_tail, Known-tail, Ready-given, Given, give-Given,
}

abbrev Sound : ℕ → ℕ → ℕ → Work → Type 0
Sound share n k w = Given share n k w × SortedWork share w × (w.more ≡ [])

give_all-Sound :
    (share n : ℕ) (l : List ℕ) (w : Work)
    → n_shards < n * (share + 1)
    → Sound share n (length l) w
    → AreShards l
    → Returns (Sound share n 0) (give_all share l w)
unfolding give_all
give_all-Sound share n [] w bound ((r, e), v, more) low = returned (
  (
    record {
      table = r.table;
      room = r.room;
      sum = r.sum;
      less_known = r.less_known;
      pluses = r.pluses;
    },
    record { known = e.known; evens = e.evens },
  ),
  v,
  more,
)
give_all-Sound share n (shard ∷ l) w bound (g, v, more) low =
    Returns-bind
      (Returns-and
        (give-Given share n (length l) shard w v g bound more (low shard (has_head shard l)))
        (give-Sorted share shard w v))
      λ s (h, (u, same)).
        give_all-Sound share n l s bound (h, u, same ∙ more)
          λ x q. low x (or_right (shard == x) (has x l) q)

-- While a group has too few shards, another one has one too many.
some_plus :
    (share n poor : ℕ) (rest : List ℕ) (w : Work)
    → SortedWork share w
    → Ready share n 0 w
    → n * share ≤ n_shards
    → w.more ≡ []
    → w.plus ≡ []
    → w.less ≡ poor ∷ rest
    → ⊥
some_plus share n poor rest w v r bound more plus less =
    let m = w.g2shard in
    let s = subst (λ b. Sorted share b w.even w.plus w.more m) less v in
    let few = Bucket-head (IsLess share) poor rest m s.less_ok in
    let known : Known (poor ∷ rest) m = subst (λ b. Known b m) less r.less_known in
    let small =
      total-lt share poor m r.table.distinct
        (λ g key. elim (v.covers g key) [
          | inl a ↦ omega (arith, v.less_ok.1 g a)
          | inr (inl b) ↦ let out : has g w.more ≡ false = rw more refl in absurd cc
          | inr (inr (inl d)) ↦ omega (arith, d)
          | inr (inr (inr d)) ↦
              let inside = r.pluses g key d in
              let out : has g w.plus ≡ false = rw plus refl in absurd cc
        ])
        (known poor (has_head poor rest)) few in
    let groups = ap (λ t. t * share) r.table.groups in omega (arith, small, groups, bound, r.sum)

-- The group with one too many gives one up.
Ready-taken :
    (share n rich : ℕ) (others : List ℕ) (w : Work)
    → Ready share n 0 w
    → w.plus ≡ rich ∷ others
    → size rich w.g2shard ≡ share + 1
    → Ready share n 1 (record w {
      g2shard = insert rich (cut (shards_of rich w.g2shard)) w.g2shard;
      plus = others;
    })
Ready-taken share n rich others w r eq one =
    let m = w.g2shard in
    let k = cut (shards_of rich m) in
    let shorter : suc (length k) ≡ size rich m =
      length-cut (shards_of rich m) (omega (arith, one)) in
    let key = size-keyed rich m (omega (arith, one)) in
    record {
      table =
          Table-insert n rich k m r.table key (AreShards-cut (shards_of rich m) (r.table.low rich));
      room = r.room;
      sum = omega (arith, total-insert_there rich k m key, shorter, r.sum);
      less_known = Known-insert rich w.less k m r.less_known;
      pluses =
          Marks-insert (share + 1) rich (rich ∷ others) others k m
            (subst (λ b. Marks (share + 1) b m) eq r.pluses)
            (λ full. absurd (omega (arith, full, shorter, one)))
            (λ g ne h. has_tail rich g others ne h);
    }

even_out-Ready :
    (share n : ℕ) (plus : List ℕ) (w : Work)
    → w.plus ≡ plus
    → SortedWork share w
    → Ready share n 0 w
    → n * share ≤ n_shards
    → w.more ≡ []
    → Returns (Ready share n 0) (even_out share plus w)
unfolding even_out
even_out-Ready share n [] w eq v r bound more = elim (List-cases w.less) [
  | inl e ↦ rw (even_out, e) (returned r)
  | inr (poor, rest, e) ↦ absurd (some_plus share n poor rest w v r bound more eq e)
]
even_out-Ready share n (rich ∷ others) w eq v r bound more = elim (List-cases w.less) [
  | inl e ↦ rw (even_out, e) (returned r)
  | inr (poor, rest, e) ↦
      let m = w.g2shard in
      let s = subst (λ b. Sorted share w.less w.even b w.more m) eq v in
      let t = subst (λ b. Sorted share b w.even (rich ∷ others) w.more m) e s in
      let one = Bucket-head (IsPlus share) rich others m t.plus_ok in
      let old = shards_of rich m in
      let cutting = insert rich (cut old) m in
      let (shard, found, low) = last-AreShards old (omega (arith, one)) (r.table.low rich) in
      let taken = Ready-taken share n rich others w r eq one in
      let down : length (cut old) ≡ share =
        omega (arith, length-cut old (omega (arith, one)), one) in
      let u = plus_even share rich (cut old) (poor ∷ rest) w.even others w.more m t down in
      let few = Bucket-head (IsLess share) poor rest cutting u.less_ok in
      let known : Known (poor ∷ rest) cutting = subst (λ b. Known b cutting) e taken.less_known in
      let key = known poor (has_head poor rest) in
      let l = shards_of poor cutting ++ shard ∷ [] in
      let size_l : length l ≡ size poor cutting + 1 =
        length-append (shards_of poor cutting) (shard ∷ []) in
      let room : shard < length w.shards = omega (arith, low, r.room) in
      let poorer : (b : List ℕ) → size poor cutting + 1 ≡ share + 1 → has poor b ≡ true =
        λ b full. absurd (omega (arith, full, few)) in
      let w1 = record w { g2shard = cutting; plus = others } in
      rw (even_out, e, found, store-ok w.shards shard poor room)
        (elim (Bool-cases (length l == share)) [
          | inl q ↦ rw q (
              even_out-Ready share n others
                (record w1 {
                  shards = set w.shards shard poor;
                  g2shard = insert poor l cutting;
                  less = rest;
                })
                refl
                (less_full share poor l rest w.even others w.more cutting u
                  (==→eq (length l) share q))
                (Ready-given share n 0 poor shard rest others w1 taken key low
                  (Known-tail poor rest cutting known) (poorer others) (λ g h. h) w.even
                  w.to_assign)
                bound more)
          | inr q ↦
              let part : length l < share = ground (arith, few, size_l, q) in
              rw q (
                even_out-Ready share n others
                  (record w1 { shards = set w.shards shard poor; g2shard = insert poor l cutting })
                  refl
                  (subst (λ b. Sorted share b w.even others w.more (insert poor l cutting)) (sym e)
                    (less_part share poor l rest w.even others w.more cutting u part))
                  (Ready-given share n 0 poor shard w.less others w1 taken key low taken.less_known
                    (poorer others) (λ g h. h) w.even w.to_assign)
                  bound more)
        ])
]

pub assign_work-Returns :
    (share n : ℕ) (w : Work)
    → n * share ≤ n_shards
    → n_shards < n * (share + 1)
    → SortedWork share w
    → Trimmed share n w
    → Returns (λ r. Ready share n 0 r × Balanced share r.g2shard) (assign_work share w)
unfolding assign_work
assign_work-Returns share n w under over v t =
    Returns-bind
      (Returns-and (trim-Trimmed (suc (total w.g2shard)) share n w v t) (trim-more share w))
      λ a ((va, (ra, ea, la)), done).
        Returns-bind (give_all-Sound share n a.to_assign a over ((ra, ea), va, done) la)
          λ b ((rb, eb), vb, more).
            Returns-mono
              (λ c (rc, ((vc, same), less)). (rc, balanced share c vc less (same ∙ more)))
              (Returns-and (even_out-Ready share n b.plus b refl vb rb under more)
                (even_out-Sorted share b.plus b refl vb))
