-- ===== src/Base/Majority.antt =====
-- Sets of numbers below a bound: two sets that have more than half of them share one.
use Prim.Native.Nat.{ℕ, zero, suc, ◌+◌, ◌/◌, ◌≤◌, ◌<◌}
use mathlib.Core.Path.{◌≡◌, refl, sym, ap, ◌∙◌}
use mathlib.Core.Logic.{◌⊎◌, inl, inr}
use mathlib.Core.Bool.{true, false, ◌||◌}
use mathlib.Core.List.{List, [], ◌∷◌, ◌++◌}
use native.Mathlib.Omega.{arith}
use mit_raft.Base.Tests.{◌==◌, if◌then◌else◌, Bool-cases}
use mit_raft.Base.Lists.{length, length-append}
use mit_raft.Base.Maps.{==→eq, ==_refl}
use mit_raft.Base.Sets.{member, Unique}

-- All occurrences go.
unfoldable pub remove : ℕ → List ℕ → List ℕ
remove x [] = []
remove x (y ∷ l) = let rest = remove x l in if y == x then rest else y ∷ rest

-- The numbers below `n`.
unfoldable pub below : ℕ → List ℕ
below zero = []
below (suc n) = n ∷ below n

pub member-remove :
    (x y : ℕ) (l : List ℕ) → member y (remove x l) ≡ (if x == y then false else member y l)
unfolding member remove
member-remove x y [] = ground arith
member-remove x y (z ∷ l) =
    let rest = member-remove x y l in
    elim (Bool-cases (z == x)) [
      | inl e ↦ let same : z ≡ x = ==→eq z x e in rw (remove, e, rest, same) (ground arith)
      | inr e ↦ elim (Bool-cases (z == y)) [
        | inl p ↦ ground (arith, rest)
        | inr p ↦ ground (arith, rest)
      ]
    ]

pub length-remove : (x : ℕ) (l : List ℕ) → Unique l → length l ≤ length (remove x l) + 1
unfolding remove Unique member
length-remove x [] u = omega arith
length-remove x (y ∷ l) (new, u) = elim (Bool-cases (y == x)) [
  | inl e ↦
      let same : y ≡ x = ==→eq y x e in
      let kept : length (remove x l) ≡ length l = length-remove_absent x l (rw (← same) new) in
      rw (remove, e) (omega (arith, kept))
  | inr e ↦ rw (remove, e) (omega (arith, length-remove x l u))
]
  where
    length-remove_absent :
        (z : ℕ) (k : List ℕ) → member z k ≡ false → length (remove z k) ≡ length k
    length-remove_absent z [] h = refl
    length-remove_absent z (w ∷ k) h = elim (Bool-cases (w == z)) [
      | inl e ↦ let bad : member z (w ∷ k) ≡ true = rw (member, e) refl in absurd cc
      | inr e ↦
          let rest : member z k ≡ false = rw (member, e) at h in
          rw (remove, e) (ap suc (length-remove_absent z k rest))
    ]

pub remove-Unique : (x : ℕ) (l : List ℕ) → Unique l → Unique (remove x l)
unfolding remove Unique
remove-Unique x [] u = tt
remove-Unique x (y ∷ l) (new, u) = elim (Bool-cases (y == x)) [
  | inl e ↦ rw (remove, e) (remove-Unique x l u)
  | inr e ↦
      let fresh : member y (remove x l) ≡ false = member-remove x y l ∙ (ground (arith, new)) in
      rw (remove, e) (fresh, remove-Unique x l u)
]

pub length-Unique :
    (n : ℕ) (l : List ℕ) → Unique l → ((v : ℕ) → member v l ≡ true → v < n) → length l ≤ n
unfolding Unique member
length-Unique n [] u low = omega arith
length-Unique zero (x ∷ l) u low = absurd (omega (arith, low x (rw (==_refl x))))
length-Unique (suc n) (x ∷ l) u low =
    let less = length-remove n (x ∷ l) u in
    let rest = length-Unique n (remove n (x ∷ l)) (remove-Unique n (x ∷ l) u) λ v h.
      let part : (if n == v then false else member v (x ∷ l)) ≡ true =
        sym (member-remove n v (x ∷ l)) ∙ h in
      let other : (n == v) ≡ false = ground (arith, part) in
      let inside : member v (x ∷ l) ≡ true = rw other at part in
      ground (arith, low v inside, other) in
    omega (arith, less, rest)

pub member-below : (n v : ℕ) → member v (below n) ≡ true → v < n
unfolding member below
member-below zero v h = absurd cc
member-below (suc n) v h = elim (Bool-cases (n == v)) [
  | inl e ↦ let same : n ≡ v = ==→eq n v e in omega (arith, same)
  | inr e ↦
      let rest : member v (below n) ≡ true = rw (member, e) at h in
      omega (arith, member-below n v rest)
]

member-append : (v : ℕ) (l k : List ℕ) → member v (l ++ k) ≡ (member v l || member v k)
unfolding member
member-append v [] k = refl
member-append v (x ∷ l) k = elim (Bool-cases (x == v)) [
  | inl e ↦ rw e
  | inr e ↦ rw e (member-append v l k)
]

append-Unique :
    (l k : List ℕ)
    → Unique l
    → Unique k
    → ((v : ℕ) → member v l ≡ true → member v k ≡ false)
    → Unique (l ++ k)
unfolding Unique member
append-Unique [] k u w apart = w
append-Unique (x ∷ l) k (new, u) w apart = (
  member-append x l k ∙ (rw (new, apart x (rw (==_refl x)))),
  append-Unique l k u w
      λ v h. apart v (elim (Bool-cases (x == v)) [ inl e ↦ rw e | inr e ↦ rw (e, h) ]),
)

-- Either the sets share a number, or they do not.
shared :
    (l k : List ℕ)
    → ((v : ℕ) × (member v l ≡ true) × (member v k ≡ true))
      ⊎ ((v : ℕ) → member v l ≡ true → member v k ≡ false)
unfolding member
shared [] k = inr λ v h. absurd cc
shared (x ∷ l) k = elim (Bool-cases (member x k)) [
  | inl e ↦ inl (x, rw (==_refl x), e)
  | inr e ↦ elim (shared l k) [
    | inl (v, h, there) ↦ inl (v, ground (arith, h), there)
    | inr apart ↦ inr λ v h. elim (Bool-cases (x == v)) [
      | inl p ↦ let same : x ≡ v = ==→eq x v p in rw (← same) e
      | inr p ↦ apart v (rw (member, p) at h)
    ]
  ]
]

pub Unique-shared :
    (n : ℕ) (l k : List ℕ)
    → Unique l
    → Unique k
    → ((v : ℕ) → member v l ≡ true → v < n)
    → ((v : ℕ) → member v k ≡ true → v < n)
    → n / 2 < length l
    → n / 2 < length k
    → (v : ℕ) × (member v l ≡ true) × (member v k ≡ true)
Unique-shared n l k u w low low' most most' = elim (shared l k) [
  | inl found ↦ found
  | inr apart ↦
      let size = length-Unique n (l ++ k) (append-Unique l k u w apart) λ v h.
        elim (Bool-cases (member v l)) [
          | inl e ↦ low v e
          | inr e ↦
              let rest : member v k ≡ true =
                let both : (member v l || member v k) ≡ true = sym (member-append v l k) ∙ h in
                rw e at both in
              low' v rest
        ] in
      absurd (omega (arith, size, length-append l k, most, most'))
]
