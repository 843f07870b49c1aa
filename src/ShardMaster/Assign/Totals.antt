-- ===== src/ShardMaster/Assign/Totals.antt =====
-- The number of all shards of the groups in navieAssign (src/shardmaster/server.go), and what
-- writing to one group does to it.
use native.Mathlib.Nat.{div-add-mod, mod-lt}
use mit_raft.Base.{
  ℕ, suc, ◌+◌, ◌*◌, ◌/◌, ◌≤◌, ◌<◌, ◌≡◌, refl, sym, ap, ◌∙◌, true, false, List, [], ◌∷◌, some,
  length, ◌==◌, find, insert, nat_key, Bool-cases, Option-cases, inl, inr, arith, ==→eq, ==_refl,
}
use mit_raft.ShardMaster.State.{n_shards, shards_of}
use mit_raft.ShardMaster.Assign.{total}
use mit_raft.ShardMaster.Assign.Rounds.{total-insert}
use mit_raft.ShardMaster.Assign.Buckets.{has, size, keyed, Nodup}
use mit_raft.ShardMaster.Assign.Classify.{keys, keyed-has}

-- What the later pairs say of their groups, the whole map says too.
tail_says :
    (g x : ℕ) (l : List ℕ) (m : List (ℕ × List ℕ))
    → has g (keys m) ≡ false
    → keyed x m ≡ true
    → (size x ((g, l) ∷ m) ≡ size x m) × (keyed x ((g, l) ∷ m) ≡ true)
unfolding find
tail_says g x l m out key = elim (Bool-cases (g == x)) [
  | inl e ↦
      let same : g ≡ x = ==→eq g x e in
      let inside : has g (keys m) ≡ true = rw same (keyed-has x m key) in absurd cc
  | inr e ↦ (rw (shards_of, e), rw (keyed, e) key)
]

head_says :
    (g : ℕ) (l : List ℕ) (m : List (ℕ × List ℕ))
    → (size g ((g, l) ∷ m) ≡ length l) × (keyed g ((g, l) ∷ m) ≡ true)
unfolding find
head_says g l m = (rw (shards_of, ==_refl g), rw (keyed, ==_refl g))

pub le-total :
    (b : ℕ) (m : List (ℕ × List ℕ))
    → Nodup (keys m)
    → ((g : ℕ) → keyed g m ≡ true → b ≤ size g m)
    → length m * b ≤ total m
le-total b [] d low = omega arith
le-total b ((g, l) ∷ m) (out, d) low =
    let (first, key) = head_says g l m in
    let rest =
      le-total b m d
        λ x h. let (same, there) = tail_says g x l m out h in omega (arith, same, low x there) in
    omega (arith, first, low g key, rest)

pub total-le :
    (b : ℕ) (m : List (ℕ × List ℕ))
    → Nodup (keys m)
    → ((g : ℕ) → keyed g m ≡ true → size g m ≤ b)
    → total m ≤ length m * b
total-le b [] d high = omega arith
total-le b ((g, l) ∷ m) (out, d) high =
    let (first, key) = head_says g l m in
    let rest =
      total-le b m d
        λ x h. let (same, there) = tail_says g x l m out h in omega (arith, same, high x there) in
    omega (arith, first, high g key, rest)

-- One of the groups has less than the bound.
pub total-lt :
    (b p : ℕ) (m : List (ℕ × List ℕ))
    → Nodup (keys m)
    → ((g : ℕ) → keyed g m ≡ true → size g m ≤ b)
    → keyed p m ≡ true
    → size p m < b
    → total m < length m * b
unfolding find
total-lt b p [] d high key poor = absurd cc
total-lt b p ((g, l) ∷ m) (out, d) high key poor =
    let (first, here) = head_says g l m in
    let later : (x : ℕ) → keyed x m ≡ true → size x m ≤ b =
      λ x h. let (same, there) = tail_says g x l m out h in omega (arith, same, high x there) in
    elim (Bool-cases (g == p)) [
      | inl e ↦
          let same : g ≡ p = ==→eq g p e in
          let few : length l < b = rw (shards_of, e) at poor in
          omega (arith, few, total-le b m d later)
      | inr e ↦
          let there : keyed p m ≡ true = rw (keyed, e) at key in
          let (same, k) = tail_says g p l m out there in
          let few : size p m < b = omega (arith, same, poor) in
          omega (arith, first, high g here, total-lt b p m d later there few)
    ]

-- The shards go into the groups, and would not fill them with one more each.
pub share_bounds :
    (n : ℕ) → 0 < n → (n * (n_shards / n) ≤ n_shards) × (n_shards < n * (n_shards / n + 1))
share_bounds n h =
    let whole = div-add-mod n_shards n in
    let rest = mod-lt n_shards h in (omega (arith, whole), omega (arith, whole, rest))

pub keyed-some :
    (g : ℕ) (m : List (ℕ × List ℕ)) → keyed g m ≡ true → find g m ≡ some (shards_of g m)
keyed-some g m h = elim (Option-cases (find g m)) [
  | inl e ↦ let bad : keyed g m ≡ false = rw (keyed, e) in absurd cc
  | inr (l, e) ↦ rw (shards_of, e)
]

pub size-keyed : (g : ℕ) (m : List (ℕ × List ℕ)) → 0 < size g m → keyed g m ≡ true
size-keyed g m h = elim (Option-cases (find g m)) [
  | inl e ↦ let empty : size g m ≡ 0 = rw (shards_of, e) in absurd (omega (arith, empty))
  | inr (l, e) ↦ rw (keyed, e)
]

pub total-insert_there :
    (g : ℕ) (k : List ℕ) (m : List (ℕ × List ℕ))
    → keyed g m ≡ true
    → total (insert g k m) + size g m ≡ total m + length k
total-insert_there g k m h = total-insert g k (shards_of g m) m (keyed-some g m h)

pub keys-insert :
    (g : ℕ) (k : List ℕ) (m : List (ℕ × List ℕ)) → keyed g m ≡ true → keys (insert g k m) ≡ keys m
unfolding find insert
keys-insert g k [] h = absurd cc
keys-insert g k ((x, l) ∷ m) h = elim (Bool-cases (x == g)) [
  | inl e ↦ rw (e, ==→eq x g e)
  | inr e ↦
      let there : keyed g m ≡ true = rw (keyed, e) at h in
      rw e (ap (λ t. x ∷ t) (keys-insert g k m there))
]

length-keys : (m : List (ℕ × List ℕ)) → length (keys m) ≡ length m
length-keys [] = refl
length-keys (x ∷ m) = ap suc (length-keys m)

pub length-insert_there :
    (g : ℕ) (k : List ℕ) (m : List (ℕ × List ℕ))
    → keyed g m ≡ true
    → length (insert g k m) ≡ length m
length-insert_there g k m h =
    sym (length-keys (insert g k m)) ∙ ap length (keys-insert g k m h) ∙ length-keys m
