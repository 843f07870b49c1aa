-- ===== src/ShardMaster/Assign/Giving.antt =====
-- The second and the third loop of navieAssign (src/shardmaster/server.go) do not panic.
use mit_raft.Base.{
  ℕ, suc, ◌+◌, ◌*◌, ◌<◌, ◌≡◌, refl, sym, ap, subst, ◌∙◌, true, false, List, [], ◌∷◌, ◌++◌, length,
  length-append, length-set, set, lt→ltb, ◌==◌, insert, nat_key, Bool-cases, inl, inr, arith,
  ==_refl, ok, Returns, returned,
}
use mit_raft.Raft.Snapshot.{store}
use mit_raft.ShardMaster.State.{n_shards, shards_of}
use mit_raft.ShardMaster.Assign.{Work, give}
use mit_raft.ShardMaster.Assign.Rounds.{List-cases}
use mit_raft.ShardMaster.Assign.Buckets.{
  has, size, keyed, Bucket-head, or_cases, or_right, has-append, keyed-insert,
}
use mit_raft.ShardMaster.Assign.Balance.{IsLess, IsEven, Sorted, SortedWork}
use mit_raft.ShardMaster.Assign.Classify.{now_in, still_in}
use mit_raft.ShardMaster.Assign.Totals.{le-total, total-insert_there}
use mit_raft.ShardMaster.Assign.Spread.{
  Marks, Known, Table-insert, Known-insert, Marks-insert, AreShards-more,
}
use mit_raft.ShardMaster.Assign.Trimming.{Ready, Evens}

pub store-ok : (l : List ℕ) (i v : ℕ) → i < length l → store l i v ≡ ok (set l i v)
unfolding store
store-ok l i v h = rw (store, lt→ltb i (length l) h)

pub has_head : (gid : ℕ) (l : List ℕ) → has gid (gid ∷ l) ≡ true
has_head gid l = rw (==_refl gid)

pub has_tail :
    (gid g : ℕ) (l : List ℕ) → (gid == g) ≡ false → has g (gid ∷ l) ≡ true → has g l ≡ true
has_tail gid g l e h = elim (or_cases (gid == g) (has g l) h) [ inl b ↦ absurd cc | inr b ↦ b ]

pub Known-tail : (gid : ℕ) (l : List ℕ) (m : List (ℕ × List ℕ)) → Known (gid ∷ l) m → Known l m
Known-tail gid l m known g h = known g (or_right (gid == g) (has g l) h)

-- The group that is written to joins the list.
Known-more :
    (gid : ℕ) (b k : List ℕ) (m : List (ℕ × List ℕ))
    → Known b m
    → Known (b ++ gid ∷ []) (insert gid k m)
Known-more gid b k m known g h =
    elim (or_cases (has g b) (gid == g) (sym (has-append g gid b) ∙ h)) [
      | inl e ↦ Known-insert gid b k m known g e
      | inr e ↦ rw (keyed-insert gid g k m, e)
    ]

-- One more shard for a group.
pub Ready-given :
    (share n j gid shard : ℕ) (less plus : List ℕ) (w : Work)
    → Ready share n (suc j) w
    → keyed gid w.g2shard ≡ true
    → shard < n_shards
    → Known less w.g2shard
    → (size gid w.g2shard + 1 ≡ share + 1 → has gid plus ≡ true)
    → ((g : ℕ) → has g w.plus ≡ true → has g plus ≡ true)
    → (even to_assign : List ℕ)
    → Ready share n j (record w {
      shards = set w.shards shard gid;
      g2shard = insert gid (shards_of gid w.g2shard ++ shard ∷ []) w.g2shard;
      less = less;
      plus = plus;
      even = even;
      to_assign = to_assign;
    })
Ready-given share n j gid shard less plus w r key low known here others even to_assign =
    let m = w.g2shard in
    let k = shards_of gid m ++ shard ∷ [] in
    let longer : length k ≡ size gid m + 1 = length-append (shards_of gid m) (shard ∷ []) in
    record {
      table =
          Table-insert n gid k m r.table key
            (AreShards-more (shards_of gid m) shard (r.table.low gid) low);
      room = length-set w.shards shard gid ∙ r.room;
      sum = omega (arith, total-insert_there gid k m key, longer, r.sum);
      less_known = Known-insert gid less k m known;
      pluses =
          Marks-insert (share + 1) gid w.plus plus k m r.pluses (λ full. here (sym longer ∙ full))
            (λ g ne h. others g h);
    }

-- If a shard is left, then some group has not more than its part.
some_even :
    (share n j : ℕ) (w : Work)
    → SortedWork share w
    → Ready share n (suc j) w
    → Evens share w
    → n_shards < n * (share + 1)
    → w.more ≡ []
    → w.less ≡ []
    → w.even ≡ []
    → ⊥
some_even share n j w v r e bound more less even =
    let full = le-total (share + 1) w.g2shard r.table.distinct λ g key. elim (v.covers g key) [
      | inl a ↦ let out : has g w.less ≡ false = rw less refl in absurd cc
      | inr (inl b) ↦ let out : has g w.more ≡ false = rw more refl in absurd cc
      | inr (inr (inl d)) ↦
          let inside = e.evens g key d in let out : has g w.even ≡ false = rw even refl in absurd cc
      | inr (inr (inr d)) ↦ omega (arith, d)
    ] in
    let groups = ap (λ t. t * (share + 1)) r.table.groups in
    omega (arith, full, groups, bound, r.sum)

abbrev pub Given : ℕ → ℕ → ℕ → Work → Type 0
Given share n k w = Ready share n k w × Evens share w

pub give-Given :
    (share n j shard : ℕ) (w : Work)
    → SortedWork share w
    → Given share n (suc j) w
    → n_shards < n * (share + 1)
    → w.more ≡ []
    → shard < n_shards
    → Returns (Given share n j) (give share shard w)
unfolding give
give-Given share n j shard w v (r, e) bound more low =
    let m = w.g2shard in
    let fits : shard < length w.shards = omega (arith, low, r.room) in
    elim (List-cases w.less) [
      | inr (gid, rest, eq) ↦
          let s = subst (λ b. Sorted share b w.even w.plus w.more m) eq v in
          let few = Bucket-head (IsLess share) gid rest m s.less_ok in
          let known : Known (gid ∷ rest) m = subst (λ b. Known b m) eq r.less_known in
          let key = known gid (has_head gid rest) in
          let k = shards_of gid m ++ shard ∷ [] in
          let longer : length k ≡ size gid m + 1 = length-append (shards_of gid m) (shard ∷ []) in
          let not_plus : (b : List ℕ) → size gid m + 1 ≡ share + 1 → has gid b ≡ true =
            λ b full. absurd (omega (arith, full, few)) in
          rw (give, eq, store-ok w.shards shard gid fits)
            (elim (Bool-cases (length k == share)) [
              | inl q ↦ rw q (
                  returned (
                    Ready-given share n j gid shard rest w.plus w r key low
                        (Known-tail gid rest m known) (not_plus w.plus) (λ g h. h)
                        (w.even ++ gid ∷ []) w.to_assign,
                    record {
                      known = Known-more gid w.even k m e.known;
                      evens =
                          Marks-insert share gid w.even (w.even ++ gid ∷ []) k m e.evens
                            (λ full. now_in gid w.even) (λ g ne h. still_in gid g w.even h);
                    },
                  ))
              | inr q ↦ rw q (
                  returned (
                    Ready-given share n j gid shard w.less w.plus w r key low r.less_known
                        (not_plus w.plus) (λ g h. h) w.even w.to_assign,
                    record {
                      known = Known-insert gid w.even k m e.known;
                      evens =
                          Marks-insert share gid w.even w.even k m e.evens
                            (λ full. absurd (ground (arith, full, q))) (λ g ne h. h);
                    },
                  ))
            ])
      | inl none_less ↦ elim (List-cases w.even) [
        | inl none_even ↦ absurd (some_even share n j w v r e bound more none_less none_even)
        | inr (gid, rest, eq) ↦
            let s = subst (λ b. Sorted share w.less b w.plus w.more m) eq v in
            let part = Bucket-head (IsEven share) gid rest m s.even_ok in
            let known : Known (gid ∷ rest) m = subst (λ b. Known b m) eq e.known in
            let key = known gid (has_head gid rest) in
            let k = shards_of gid m ++ shard ∷ [] in
            let longer : length k ≡ size gid m + 1 = length-append (shards_of gid m) (shard ∷ []) in
            let marks : Marks share (gid ∷ rest) m = subst (λ b. Marks share b m) eq e.evens in
            rw (give, none_less, eq, store-ok w.shards shard gid fits)
              (returned (
                Ready-given share n j gid shard w.less (w.plus ++ gid ∷ []) w r key low r.less_known
                    (λ full. now_in gid w.plus) (λ g h. still_in gid g w.plus h) rest w.to_assign,
                record {
                  known = Known-insert gid rest k m (Known-tail gid rest m known);
                  evens =
                      Marks-insert share gid (gid ∷ rest) rest k m marks
                        (λ full. absurd (omega (arith, full, longer, part)))
                        (λ g ne h. has_tail gid g rest ne h);
                },
              ))
      ]
    ]
