-- ===== src/Base/Sets.antt =====
-- Go's `map[int]struct{}`: lists of the numbers that are keys, each of them once.
use Prim.Native.Nat.{ℕ, suc}
use mathlib.Core.Path.{◌≡◌, refl, ap, ◌∙◌}
use mathlib.Core.Logic.{inl, inr}
use mathlib.Core.Bool.{Bool, true, false}
use mathlib.Core.List.{List, [], ◌∷◌}
use native.Mathlib.Omega.{arith}
use mit_raft.Base.Tests.{◌==◌, if◌then◌else◌, Bool-cases}
use mit_raft.Base.Lists.{length}
use mit_raft.Base.Maps.{
  insert, delete, present, nat_key, ==→eq, ==_refl, present-insert, present-delete,
}

-- `_, ok := set[n]`
unfoldable pub member : ℕ → List ℕ → Bool
member n [] = false
member n (x ∷ l) = if x == n then true else member n l

unfoldable pub Unique : List ℕ → Type 0
Unique [] = Unit
Unique (x ∷ l) = (member x l ≡ false) × Unique l

-- The numbers of a set that are not keys of a map.
unfoldable pub missing {ℓ} : {V : Type ℓ} → List ℕ → List (ℕ × V) → List ℕ
missing [] m = []
missing (x ∷ l) m = let rest = missing l m in if present x m then rest else x ∷ rest

member-other : (x y : ℕ) (l : List ℕ) → member x l ≡ true → member y l ≡ false → (x == y) ≡ false
member-other x y l h k = elim (Bool-cases (x == y)) [
  | inl e ↦
      let eq : x ≡ y = ==→eq x y e in
      let same : member x l ≡ member y l = ap (λ t. member t l) eq in absurd cc
  | inr e ↦ e
]

module _ {ℓ} {V : Type ℓ} where
  -- Only the keys count.
  pub missing_ext :
      (l : List ℕ) (m n : List (ℕ × V))
      → ((x : ℕ) → member x l ≡ true → present x m ≡ present x n)
      → missing l m ≡ missing l n
  unfolding missing member
  missing_ext [] m n h = refl
  missing_ext (x ∷ l) m n h =
      let tail : missing l m ≡ missing l n = missing_ext l m n λ y e.
        h y (elim (Bool-cases (x == y)) [ inl same ↦ rw same | inr other ↦ rw (other, e) ]) in
      let head : present x m ≡ present x n = h x (rw (==_refl x)) in rw (head, tail)

  pub missing-delete :
      (s : ℕ) (l : List ℕ) (m : List (ℕ × V))
      → member s l ≡ false
      → missing l (delete s m) ≡ missing l m
  missing-delete s l m out = missing_ext l (delete s m) m λ x e.
      let other : (s == x) ≡ false =
        let back : (x == s) ≡ false = member-other x s l e out in ground arith in
      present-delete s x m ∙ (rw other)

  pub missing-insert :
      (s : ℕ) (v : V) (l : List ℕ) (m : List (ℕ × V))
      → Unique l
      → member s l ≡ true
      → present s m ≡ false
      → suc (length (missing l (insert s v m))) ≡ length (missing l m)
  unfolding missing member Unique
  missing-insert s v [] m u h new = absurd cc
  missing-insert s v (x ∷ l) m (first, u) h new = elim (Bool-cases (x == s)) [
    | inl e ↦
        let eq : x ≡ s = ==→eq x s e in
        let out : member s l ≡ false = rw eq at first in
        let same : missing l (insert s v m) ≡ missing l m = missing_ext l (insert s v m) m λ y k.
          present-insert s y v m
          ∙ (let other : (s == y) ≡ false =
                let back : (y == s) ≡ false = member-other y s l k out in ground arith in
              rw other) in
        rw (eq, present-insert s s v m, ==_refl s, new, same)
    | inr e ↦
        let there : member s l ≡ true = rw e at h in
        let other : (s == x) ≡ false = ground arith in
        let ih : suc (length (missing l (insert s v m))) ≡ length (missing l m) =
          missing-insert s v l m u there new in
        rw (present-insert s x v m, other)
          (elim (Bool-cases (present x m)) [ inl p ↦ rw (p, ih) | inr p ↦ rw (p, ih) ])
  ]

  pub missing-present :
      (l : List ℕ) (m : List (ℕ × V))
      → ((x : ℕ) → member x l ≡ true → present x m ≡ true)
      → missing l m ≡ []
  unfolding missing member
  missing-present [] m h = refl
  missing-present (x ∷ l) m h =
      let tail : missing l m ≡ [] = missing-present l m λ y e.
        h y (elim (Bool-cases (x == y)) [ inl same ↦ rw same | inr other ↦ rw (other, e) ]) in
      let head : present x m ≡ true = h x (rw (==_refl x)) in rw (head, tail)

  pub missing-empty :
      (l : List ℕ) (m : List (ℕ × V)) (s : ℕ)
      → missing l m ≡ []
      → member s l ≡ true
      → present s m ≡ true
  unfolding missing member
  missing-empty [] m s e h = absurd cc
  missing-empty (x ∷ l) m s e h = elim (Bool-cases (present x m)) [
    | inl p ↦ elim (Bool-cases (x == s)) [
      | inl same ↦ let eq : x ≡ s = ==→eq x s same in rw (← eq) p
      | inr other ↦
          let tail : missing l m ≡ [] = rw (missing, p) at e in
          let inside : member s l ≡ true = rw (member, other) at h in
          missing-empty l m s tail inside
    ]
    | inr p ↦ let bad : x ∷ missing l m ≡ [] = rw (missing, p) at e in absurd cc
  ]
