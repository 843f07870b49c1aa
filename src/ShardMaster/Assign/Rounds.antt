-- ===== src/ShardMaster/Assign/Rounds.antt =====
-- The rounds of the first loop of navieAssign (src/shardmaster/server.go).
use mit_raft.Base.{
  ℕ, ◌⊎◌, zero, suc, ◌+◌, ◌-◌, ◌<◌, ◌≡◌, refl, List, [], ◌∷◌, some, length, length-take, ◌==◌, find,
  insert, nat_key, ok, Ensures, value, Ensures-bind, Ensures-after_eq, Bool-cases, Option-cases,
  inl, inr, arith,
}
use mit_raft.ShardMaster.State.{shards_of, last, cut}
use mit_raft.ShardMaster.Assign.{Work, trim_one, trim, total}

pub total-insert :
    (gid : ℕ) (k l : List ℕ) (m : List (ℕ × List ℕ))
    → find gid m ≡ some l
    → total (insert gid k m) + length l ≡ total m + length k
unfolding find insert
total-insert gid k l [] h = absurd cc
total-insert gid k l ((a, x) ∷ m) h = elim (Bool-cases (a == gid)) [
  | inl e ↦
      let here : some x ≡ some l = rw (find, e) at h in
      let same : length x ≡ length l = cc in rw e (omega (arith, same))
  | inr e ↦
      let later : find gid m ≡ some l = rw (find, e) at h in
      rw e (omega (arith, total-insert gid k l m later))
]

total-insert_shards :
    (gid : ℕ) (k : List ℕ) (m : List (ℕ × List ℕ))
    → 0 < length (shards_of gid m)
    → total (insert gid k m) + length (shards_of gid m) ≡ total m + length k
total-insert_shards gid k m h = elim (Option-cases (find gid m)) [
  | inl e ↦
      let empty : length (shards_of gid m) ≡ 0 = rw (shards_of, e) in absurd (omega (arith, empty))
  | inr (l, e) ↦ rw (shards_of, e) (total-insert gid k l m e)
]

pub last_nonempty : (l : List ℕ) (s : ℕ) → last l ≡ ok s → 0 < length l
unfolding last
last_nonempty [] s h = absurd cc
last_nonempty (x ∷ l) s h = omega arith

pub length-cut : (l : List ℕ) → 0 < length l → suc (length (cut l)) ≡ length l
unfolding cut
length-cut l h = omega (arith, length-take (length l - 1) l)

trim_one-total :
    (share gid : ℕ) (rest : List ℕ) (w : Work)
    → Ensures (λ r. suc (total r.g2shard) ≡ total w.g2shard) (trim_one share gid rest w)
unfolding trim_one
trim_one-total share gid rest w =
    let l = shards_of gid w.g2shard in
    Ensures-after_eq (last l) λ shard found.
      let some_left = last_nonempty l shard found in
      let less : suc (total (insert gid (cut l) w.g2shard)) ≡ total w.g2shard =
        omega
          (arith, total-insert_shards gid (cut l) w.g2shard some_left, length-cut l some_left) in
      elim (Bool-cases (length (cut l) == share + 1)) [
        | inl e ↦ rw e (value less)
        | inr e ↦ rw e (value less)
      ]

pub List-cases : (l : List ℕ) → (l ≡ []) ⊎ ((x : ℕ) × (k : List ℕ) × (l ≡ x ∷ k))
List-cases [] = inl refl
List-cases (x ∷ k) = inr (x, k, refl)

pub trim-rounds :
    (n share : ℕ) (w : Work) → total w.g2shard < n → Ensures (λ r. r.more ≡ []) (trim n share w)
unfolding trim
trim-rounds zero share w h = absurd (omega arith)
trim-rounds (suc n) share w h = elim (List-cases w.more) [
  | inl e ↦ rw (trim, e) (value e)
  | inr (gid, rest, e) ↦
      rw (trim, e)
        (Ensures-bind (trim_one-total share gid rest w)
          λ s less. trim-rounds n share s (omega (arith, less, h)))
]

-- With a round for each shard of the groups, the list is empty at the end if nothing panics.
pub trim-more :
    (share : ℕ) (w : Work) → Ensures (λ r. r.more ≡ []) (trim (suc (total w.g2shard)) share w)
trim-more share w = trim-rounds (suc (total w.g2shard)) share w (omega arith)
