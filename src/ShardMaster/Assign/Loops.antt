-- ===== src/ShardMaster/Assign/Loops.antt =====
-- The three loops of navieAssign (src/shardmaster/server.go), one after the other.
use mit_raft.Base.{
  ℕ, zero, suc, ◌+◌, ◌<◌, ◌≡◌, ◌⊎◌, refl, sym, ap, subst, ◌∙◌, true, false, List, [], ◌∷◌, ◌++◌,
  length, length-append, ◌==◌, insert, nat_key, Bool-cases, inl, inr, arith, ==→eq, Ensures, value,
  panics, Ensures-mono, Ensures-bind, Ensures-and, Ensures-after, Ensures-after_eq,
}
use mit_raft.Raft.Snapshot.{store}
use mit_raft.ShardMaster.State.{shards_of, last, cut}
use mit_raft.ShardMaster.Assign.{Work, trim_one, trim, total, give, give_all, even_out, assign_work}
use mit_raft.ShardMaster.Assign.Rounds.{last_nonempty, length-cut, List-cases, trim-more}
use mit_raft.ShardMaster.Assign.Buckets.{has, size, keyed, Bucket-head}
use mit_raft.ShardMaster.Assign.Balance.{
  IsLess, IsEven, IsPlus, IsMore, Sorted, SortedWork, less_part, less_full, less_even, even_plus,
  plus_even, more_part, more_plus,
}

pub trim_one-Sorted :
    (share gid : ℕ) (rest : List ℕ) (w : Work)
    → w.more ≡ gid ∷ rest
    → SortedWork share w
    → Ensures (SortedWork share) (trim_one share gid rest w)
unfolding trim_one
trim_one-Sorted share gid rest w eq v =
    let s = subst (λ b. Sorted share w.less w.even w.plus b w.g2shard) eq v in
    let n = Bucket-head (IsMore share) gid rest w.g2shard s.more_ok in
    let l = shards_of gid w.g2shard in
    Ensures-after_eq (last l) λ shard found.
      let size_cut = length-cut l (last_nonempty l shard found) in
      elim (Bool-cases (length (cut l) == share + 1)) [
        | inl e ↦ rw e (
            value (
              more_plus share gid (cut l) w.less w.even w.plus rest w.g2shard s
                (==→eq (length (cut l)) (share + 1) e)))
        | inr e ↦
            let high : share + 1 < length (cut l) = ground (arith, n, size_cut) in
            rw e (
              value (
                subst (λ b. Sorted share w.less w.even w.plus b (insert gid (cut l) w.g2shard))
                  (sym eq)
                  (more_part share gid (cut l) w.less w.even w.plus rest w.g2shard s high)))
      ]

pub trim-Sorted :
    (n share : ℕ) (w : Work) → SortedWork share w → Ensures (SortedWork share) (trim n share w)
unfolding trim
trim-Sorted zero share w v = value v
trim-Sorted (suc n) share w v = elim (List-cases w.more) [
  | inl e ↦ rw (trim, e) (value v)
  | inr (gid, rest, e) ↦
      rw (trim, e)
        (Ensures-bind (trim_one-Sorted share gid rest w e v) λ s t. trim-Sorted n share s t)
]

-- The work has the same list of groups with too many shards.
abbrev pub Onwards : ℕ → Work → Work → Type 0
Onwards share w r = SortedWork share r × (r.more ≡ w.more)

pub give-Sorted :
    (share shard : ℕ) (w : Work)
    → SortedWork share w
    → Ensures (Onwards share w) (give share shard w)
unfolding give
give-Sorted share shard w v = elim (List-cases w.less) [
  | inr (gid, rest, eq) ↦
      let s = subst (λ b. Sorted share b w.even w.plus w.more w.g2shard) eq v in
      let n = Bucket-head (IsLess share) gid rest w.g2shard s.less_ok in
      let l = shards_of gid w.g2shard ++ shard ∷ [] in
      let size_l : length l ≡ length (shards_of gid w.g2shard) + 1 =
        length-append (shards_of gid w.g2shard) (shard ∷ []) in
      rw (give, eq)
        (Ensures-after (store w.shards shard gid) λ shards. elim (Bool-cases (length l == share)) [
          | inl e ↦ rw e (
              value (
                less_even share gid l rest w.even w.plus w.more w.g2shard s
                    (==→eq (length l) share e),
                refl,
              ))
          | inr e ↦
              let low : length l < share = ground (arith, n, size_l) in
              rw e (
                value (
                  subst (λ b. Sorted share b w.even w.plus w.more (insert gid l w.g2shard)) (sym eq)
                      (less_part share gid l rest w.even w.plus w.more w.g2shard s low),
                  refl,
                ))
        ])
  | inl none_less ↦ elim (List-cases w.even) [
    | inl none_even ↦ rw (give, none_less, none_even) panics
    | inr (gid, rest, eq) ↦
        let s = subst (λ b. Sorted share w.less b w.plus w.more w.g2shard) eq v in
        let n = Bucket-head (IsEven share) gid rest w.g2shard s.even_ok in
        let l = shards_of gid w.g2shard ++ shard ∷ [] in
        let size_l : length l ≡ share + 1 =
          length-append (shards_of gid w.g2shard) (shard ∷ []) ∙ ap (λ t. t + 1) n in
        rw (give, none_less, eq)
          (Ensures-after (store w.shards shard gid) λ shards.
            value (even_plus share gid l w.less rest w.plus w.more w.g2shard s size_l, refl))
  ]
]

pub give_all-Sorted :
    (share : ℕ) (l : List ℕ) (w : Work)
    → SortedWork share w
    → Ensures (Onwards share w) (give_all share l w)
unfolding give_all
give_all-Sorted share [] w v = value (v, refl)
give_all-Sorted share (shard ∷ l) w v =
    Ensures-bind (give-Sorted share shard w v)
      λ s (t, same). Ensures-mono (λ r (u, also). (u, also ∙ same)) (give_all-Sorted share l s t)

pub even_out-Sorted :
    (share : ℕ) (plus : List ℕ) (w : Work)
    → w.plus ≡ plus
    → SortedWork share w
    → Ensures (λ r. Onwards share w r × (r.less ≡ [])) (even_out share plus w)
unfolding even_out
even_out-Sorted share [] w eq v = elim (List-cases w.less) [
  | inl e ↦ rw (even_out, e) (value ((v, refl), e))
  | inr (poor, rest, e) ↦ rw (even_out, e) panics
]
even_out-Sorted share (rich ∷ others) w eq v = elim (List-cases w.less) [
  | inl e ↦ rw (even_out, e) (value ((v, refl), e))
  | inr (poor, rest, e) ↦
      let s = subst (λ b. Sorted share w.less w.even b w.more w.g2shard) eq v in
      let t = subst (λ b. Sorted share b w.even (rich ∷ others) w.more w.g2shard) e s in
      let high = Bucket-head (IsPlus share) rich others w.g2shard t.plus_ok in
      let old = shards_of rich w.g2shard in
      let cutting = insert rich (cut old) w.g2shard in
      rw (even_out, e)
        (Ensures-after_eq (last old) λ shard found.
          let down : length (cut old) ≡ share =
            omega (arith, length-cut old (last_nonempty old shard found), high) in
          let u =
            plus_even share rich (cut old) (poor ∷ rest) w.even others w.more w.g2shard t down in
          let n = Bucket-head (IsLess share) poor rest cutting u.less_ok in
          let l = shards_of poor cutting ++ shard ∷ [] in
          let size_l : length l ≡ length (shards_of poor cutting) + 1 =
            length-append (shards_of poor cutting) (shard ∷ []) in
          Ensures-after (store w.shards shard poor) λ shards.
            elim (Bool-cases (length l == share)) [
              | inl q ↦ rw q (
                  even_out-Sorted share others
                    (record w {
                      shards = shards;
                      g2shard = insert poor l cutting;
                      plus = others;
                      less = rest;
                    })
                    refl
                    (less_full share poor l rest w.even others w.more cutting u
                      (==→eq (length l) share q)))
              | inr q ↦
                  let low : length l < share = ground (arith, n, size_l) in
                  rw q (
                    even_out-Sorted share others
                      (record w { shards = shards; g2shard = insert poor l cutting; plus = others })
                      refl
                      (subst (λ b. Sorted share b w.even others w.more (insert poor l cutting))
                        (sym e) (less_part share poor l rest w.even others w.more cutting u low)))
            ])
]

-- Every group has its part of the shards, or one more.
abbrev pub Balanced : ℕ → List (ℕ × List ℕ) → Type 0
Balanced share m = (g : ℕ) → keyed g m ≡ true → (size g m ≡ share) ⊎ (size g m ≡ share + 1)

pub balanced :
    (share : ℕ) (w : Work)
    → SortedWork share w
    → w.less ≡ []
    → w.more ≡ []
    → Balanced share w.g2shard
balanced share w v less more g key = elim (v.covers g key) [
  | inl a ↦ let none_left : has g w.less ≡ false = rw less refl in absurd cc
  | inr (inl b) ↦ let none_left : has g w.more ≡ false = rw more refl in absurd cc
  | inr (inr (inl d)) ↦ inl d
  | inr (inr (inr d)) ↦ inr d
]

pub assign_work-Balanced :
    (share : ℕ) (w : Work)
    → SortedWork share w
    → Ensures (λ r. Balanced share r.g2shard) (assign_work share w)
unfolding assign_work
assign_work-Balanced share w v =
    Ensures-bind (Ensures-and (trim-Sorted (suc (total w.g2shard)) share w v) (trim-more share w))
      λ s (t, done). Ensures-bind (give_all-Sorted share s.to_assign s t) λ u (x, same).
        Ensures-mono (λ r ((y, more), less). balanced share r y less (more ∙ same ∙ done))
          (even_out-Sorted share u.plus u refl x)
