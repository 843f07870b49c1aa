-- ===== src/Base/Outcome.antt =====
-- How a call of Go code ends: with a value, or with a run-time panic.
use mathlib.Core.Path.{◌≡◌, refl, subst}
use mathlib.Core.Bool.{Bool, true, false}
use mathlib.Core.Option.{Option, none, some}
use mit_raft.Base.Tests.{if◌then◌else◌}

pub data Run {ℓ} (A : Type ℓ) : Type ℓ where
  ok : A → Run A
  panic : Run A

infixl 5 ◌>>=◌
abbrev pub ◌>>=◌ {ℓ κ} : {A : Type ℓ} {B : Type κ} → Run A → (A → Run B) → Run B
ok a >>= f = f a
panic >>= f = panic

abbrev pub or_panic {ℓ} : {A : Type ℓ} → Option A → Run A
or_panic (some a) = ok a
or_panic none = panic

-- The call returns, with a value that satisfies `P`.
pub data Returns {ℓ κ} {A : Type ℓ} (P : A → Type κ) : Run A → Type (ℓ ⊔ κ) where
  returned : {a : A} → P a → Returns P (ok a)

module _ {ℓ κ} {A : Type ℓ} {P : A → Type κ} where
  pub Returns-value : {r : Run A} → Returns P r → (a : A) × (r ≡ ok a) × P a
  Returns-value (returned {a} p) = (a, refl, p)

  pub Returns-of : {r : Run A} (a : A) → r ≡ ok a → P a → Returns P r
  Returns-of a e p = rw e (returned p)

  pub Returns-mono {κ'} :
      {Q : A → Type κ'} {r : Run A} → ((a : A) → P a → Q a) → Returns P r → Returns Q r
  Returns-mono f (returned p) = returned (f _ p)

  -- Only the branch that is taken has to return.
  pub Returns-if :
      {yes no : Run A} (test : Bool)
      → (test ≡ true → Returns P yes)
      → (test ≡ false → Returns P no)
      → Returns P (if test then yes else no)
  Returns-if true taken other = taken refl
  Returns-if false taken other = other refl

  pub Returns-bind {ι μ} :
      {C : Type ι} {first : Run A} {next : A → Run C} {R : C → Type μ}
      → Returns P first
      → ((result : A) → P result → Returns R (next result))
      → Returns R (first >>= next)
  Returns-bind (returned {a} holds) continue = continue a holds

-- If the call returns, its value satisfies `P`: for what does not depend on the absence of panics.
pub data Ensures {ℓ κ} {A : Type ℓ} (P : A → Type κ) : Run A → Type (ℓ ⊔ κ) where
  value : {a : A} → P a → Ensures P (ok a)
  panics : Ensures P panic

module _ {ℓ κ} {A : Type ℓ} {P : A → Type κ} where
  pub Ensures-ok : {r : Run A} (a : A) → Ensures P r → r ≡ ok a → P a
  Ensures-ok a (value {a = b} p) e = let same : b ≡ a = cc in subst P same p
  Ensures-ok a panics e = cc

  pub Ensures-mono {κ'} :
      {Q : A → Type κ'} {r : Run A} → ((a : A) → P a → Q a) → Ensures P r → Ensures Q r
  Ensures-mono f (value p) = value (f _ p)
  Ensures-mono f panics = panics

  pub Ensures-all : ((a : A) → P a) → (r : Run A) → Ensures P r
  Ensures-all f (ok a) = value (f a)
  Ensures-all f panic = panics

  pub Ensures-bind {ℓ' κ'} :
      {B : Type ℓ'} {Q : B → Type κ'} {r : Run A} {f : A → Run B}
      → Ensures P r
      → ((a : A) → P a → Ensures Q (f a))
      → Ensures Q (r >>= f)
  Ensures-bind (value p) k = k _ p
  Ensures-bind panics k = panics

  pub Ensures-after {ℓ'} :
      {B : Type ℓ'} (r : Run B) {f : B → Run A} → ((b : B) → Ensures P (f b)) → Ensures P (r >>= f)
  Ensures-after (ok b) k = k b
  Ensures-after panic k = panics

  pub Ensures-if :
      {x y : Run A} (b : Bool)
      → (b ≡ true → Ensures P x)
      → (b ≡ false → Ensures P y)
      → Ensures P (if b then x else y)
  Ensures-if true p q = p refl
  Ensures-if false p q = q refl

  -- The same, with the value's equation.
  pub Ensures-after_eq {ℓ'} :
      {B : Type ℓ'} (r : Run B) {f : B → Run A}
      → ((b : B) → r ≡ ok b → Ensures P (f b))
      → Ensures P (r >>= f)
  Ensures-after_eq (ok b) k = k b refl
  Ensures-after_eq panic k = panics

pub Ensures-and {ℓ κ κ'} :
    {A : Type ℓ} {P : A → Type κ} {Q : A → Type κ'} {r : Run A}
    → Ensures P r
    → Ensures Q r
    → Ensures (λ a. P a × Q a) r
Ensures-and (value p) e = value (p, Ensures-ok _ e refl)
Ensures-and panics e = panics

-- What a call returns, and what holds of it if it returns.
pub Returns-and {ℓ κ κ'} :
    {A : Type ℓ} {P : A → Type κ} {Q : A → Type κ'} {r : Run A}
    → Returns P r
    → Ensures Q r
    → Returns (λ a. P a × Q a) r
Returns-and (returned p) e = returned (p, Ensures-ok _ e refl)

pub Returns-ok {ℓ κ} :
    {A : Type ℓ} {P : A → Type κ} {r : Run A} (a : A) → Returns P r → r ≡ ok a → P a
Returns-ok {P} a (returned {a = b} p) e = let same : b ≡ a = cc in subst P same p

-- Two calls that both return, with related values, or both panic.
pub data Both {ℓ κ} {A : Type ℓ} (R : A → A → Type κ) : Run A → Run A → Type (ℓ ⊔ κ) where
  both : {a b : A} → R a b → Both R (ok a) (ok b)
  neither : Both R panic panic

pub Both-bind {ℓ κ μ ν} :
    {A : Type ℓ} {C : Type μ} {R : A → A → Type κ} {Q : C → C → Type ν} {r s : Run A}
    {f g : A → Run C}
    → Both R r s
    → ((a b : A) → R a b → Both Q (f a) (g b))
    → Both Q (r >>= f) (s >>= g)
Both-bind (both h) k = k _ _ h
Both-bind neither k = neither

Both-alike {ℓ μ ν} :
    {A : Type ℓ} {C : Type μ} {Q : C → C → Type ν} {f g : A → Run C} (r : Run A)
    → ((a : A) → Both Q (f a) (g a))
    → Both Q (r >>= f) (r >>= g)
Both-alike (ok a) k = k a
Both-alike panic k = neither

pub Both-after {ℓ μ ν} :
    {A : Type ℓ} {C : Type μ} {Q : C → C → Type ν} {r s : Run A} {f g : A → Run C}
    → r ≡ s
    → ((a : A) → Both Q (f a) (g a))
    → Both Q (r >>= f) (s >>= g)
Both-after {Q} {r} {f} {g} e k = subst (λ t. Both Q (r >>= f) (t >>= g)) e (Both-alike r k)
