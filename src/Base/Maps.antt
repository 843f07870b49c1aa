-- ===== src/Base/Maps.antt =====
-- Go's maps: lists of pairs of a key and a value, in which the first pair of a key counts. The
-- order of the list is the order in which Go's `range` may visit the keys.
use Prim.Native.Nat.{ℕ}
use Prim.Native.String.append
use Prim.Native.String.{String, ◌++◌}
use mathlib.Core.Path.{◌≡◌, refl}
use mathlib.Core.Logic.{inl, inr}
use mathlib.Core.Bool.{Bool, true, false}
use mathlib.Core.Option.{Option, none, some}
use mathlib.Core.List.{List, [], ◌∷◌}
use native.Mathlib.Omega.{arith}
use text.Mathlib.Text
use text.Mathlib.TextEquality.{eq_iff}
use text.Mathlib.TextPositions.{eq_refl}
use mit_raft.Base.Int.{ℤ, ◌==ℤ◌, ==ℤ→eq, ==ℤ_refl}
use mit_raft.Base.Tests.{if◌then◌else◌, ◌==◌, Bool-cases, Option-cases}

-- A type of keys, with Go's `==`.
pub record Key {ℓ} (K : Type ℓ) : Type ℓ where
  pub same : K → K → Bool
  pub same→eq : (a b : K) → same a b ≡ true → a ≡ b
  pub same_refl : (a : K) → same a a ≡ true

pub ==→eq : (a b : ℕ) → (a == b) ≡ true → a ≡ b
==→eq a b h = ground arith

pub ==_refl : (a : ℕ) → (a == a) ≡ true
==_refl a = ground arith

instance abbrev pub nat_key : Key ℕ
nat_key = record { same = λ a b. a == b; same→eq = ==→eq; same_refl = ==_refl }

instance abbrev pub string_key : Key String
string_key = record {
  same = λ s t. Text.◌==◌ s t;
  same→eq = λ s t. (eq_iff s t).0;
  same_refl = eq_refl;
}

instance abbrev pub int_key : Key ℤ
int_key = record { same = λ a b. a ==ℤ b; same→eq = ==ℤ→eq; same_refl = ==ℤ_refl }

-- `s + t`
abbrev pub append_text : String → String → String
append_text s t = s ++ t

pub append_text_empty : (s : String) → append_text "" s ≡ s
append_text_empty = append.nil

-- `s == t`
abbrev pub same_text : String → String → Bool
same_text s t = Text.◌==◌ s t

module _ {ℓ κ} {K : Type ℓ} {V : Type κ} ⦃key : Key K⦄ where
  -- `v, ok := m[k]`
  unfoldable pub find : K → List (K × V) → Option V
  find k [] = none
  find k ((a, v) ∷ m) = if key.same a k then some v else find k m

  -- `m[k] = v`
  unfoldable pub insert : K → V → List (K × V) → List (K × V)
  insert k v [] = (k, v) ∷ []
  insert k v ((a, w) ∷ m) = if key.same a k then (k, v) ∷ m else (a, w) ∷ insert k v m

  -- `delete(m, k)`
  unfoldable pub delete : K → List (K × V) → List (K × V)
  delete k [] = []
  delete k ((a, v) ∷ m) = let rest = delete k m in if key.same a k then rest else (a, v) ∷ rest

  pub find-insert : (k : K) (v : V) (m : List (K × V)) → find k (insert k v m) ≡ some v
  unfolding find insert
  find-insert k v [] = rw (key.same_refl k)
  find-insert k v ((a, w) ∷ m) = elim (Bool-cases (key.same a k)) [
    | inl e ↦ rw (e, key.same_refl k)
    | inr e ↦ rw (e, e) (find-insert k v m)
  ]

  pub find-insert_other :
      (k j : K) (v : V) (m : List (K × V)) → key.same k j ≡ false → find j (insert k v m) ≡ find j m
  unfolding find insert
  find-insert_other k j v [] h = rw h
  find-insert_other k j v ((a, w) ∷ m) h = elim (Bool-cases (key.same a k)) [
    | inl e ↦ let eq : a ≡ k = key.same→eq a k e in rw (e, h, eq, h)
    | inr e ↦ elim (Bool-cases (key.same a j)) [
      | inl f ↦ rw (e, f)
      | inr f ↦ rw (e, f) (find-insert_other k j v m h)
    ]
  ]

  pub find-delete : (k : K) (m : List (K × V)) → find k (delete k m) ≡ none
  unfolding find delete
  find-delete k [] = refl
  find-delete k ((a, v) ∷ m) = elim (Bool-cases (key.same a k)) [
    | inl e ↦ rw e (find-delete k m)
    | inr e ↦ rw (e, e) (find-delete k m)
  ]

  pub find-insert_if :
      (k j : K) (v : V) (m : List (K × V))
      → find j (insert k v m) ≡ (if key.same k j then some v else find j m)
  find-insert_if k j v m = elim (Bool-cases (key.same k j)) [
    | inl e ↦ let eq : k ≡ j = key.same→eq k j e in rw (e, ← eq) (find-insert k v m)
    | inr e ↦ rw e (find-insert_other k j v m e)
  ]

  pub find-delete_other :
      (k j : K) (m : List (K × V)) → key.same k j ≡ false → find j (delete k m) ≡ find j m
  unfolding find delete
  find-delete_other k j [] h = refl
  find-delete_other k j ((a, v) ∷ m) h = elim (Bool-cases (key.same a k)) [
    | inl e ↦ let eq : a ≡ k = key.same→eq a k e in rw (e, eq, h) (find-delete_other k j m h)
    | inr e ↦ elim (Bool-cases (key.same a j)) [
      | inl f ↦ rw (e, f)
      | inr f ↦ rw (e, f) (find-delete_other k j m h)
    ]
  ]

  pub find-delete_if :
      (k j : K) (m : List (K × V)) → find j (delete k m) ≡ (if key.same k j then none else find j m)
  find-delete_if k j m = elim (Bool-cases (key.same k j)) [
    | inl e ↦ let eq : k ≡ j = key.same→eq k j e in rw (e, ← eq) (find-delete k m)
    | inr e ↦ rw e (find-delete_other k j m e)
  ]

  -- `_, ok := m[k]`
  unfoldable pub present : K → List (K × V) → Bool
  unfolding find
  present k m = elim (find k m) [ none ↦ false | some v ↦ true ]

  pub present-some : (k : K) (m : List (K × V)) → present k m ≡ true → (v : V) × (find k m ≡ some v)
  unfolding present
  present-some k m h = elim (Option-cases (find k m)) [
    | inl e ↦ let bad : false ≡ true = rw (present, e) at h in absurd cc
    | inr (v, e) ↦ (v, e)
  ]

  pub present-none : (k : K) (m : List (K × V)) → present k m ≡ false → find k m ≡ none
  unfolding present
  present-none k m h = elim (Option-cases (find k m)) [
    | inl e ↦ e
    | inr (v, e) ↦ let bad : true ≡ false = rw (present, e) at h in absurd cc
  ]

  pub present-of_some : (k : K) (m : List (K × V)) {v : V} → find k m ≡ some v → present k m ≡ true
  unfolding present
  present-of_some k m e = rw (present, e)

  pub present-of_none : (k : K) (m : List (K × V)) → find k m ≡ none → present k m ≡ false
  unfolding present
  present-of_none k m e = rw (present, e)

  pub present-insert :
      (k j : K) (v : V) (m : List (K × V))
      → present j (insert k v m) ≡ (if key.same k j then true else present j m)
  unfolding present
  present-insert k j v m =
      rw (present, find-insert_if k j v m)
        (elim (Bool-cases (key.same k j)) [ inl e ↦ rw e | inr e ↦ rw e ])

  pub present-delete :
      (k j : K) (m : List (K × V))
      → present j (delete k m) ≡ (if key.same k j then false else present j m)
  unfolding present
  present-delete k j m =
      rw (present, find-delete_if k j m)
        (elim (Bool-cases (key.same k j)) [ inl e ↦ rw e | inr e ↦ rw e ])
