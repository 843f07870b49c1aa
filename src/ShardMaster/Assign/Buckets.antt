-- ===== src/ShardMaster/Assign/Buckets.antt =====
-- The lists of `groupMap` in navieAssign (src/shardmaster/server.go), by the numbers of shards of
-- their groups.
use mit_raft.Base.{
  ℕ, ◌≡◌, ◌⊎◌, refl, sym, ap, subst, ◌∙◌, Bool, true, false, ◌||◌, List, [], ◌∷◌, ◌++◌, none, some,
  length, ◌==◌, if◌then◌else◌, find, insert, find-insert_if, nat_key, Bool-cases, inl, inr, arith,
  ==→eq, ==_refl,
}
use mit_raft.ShardMaster.State.{shards_of}

abbrev pub has : ℕ → List ℕ → Bool
has g [] = false
has g (x ∷ l) = x == g || has g l

abbrev pub size : ℕ → List (ℕ × List ℕ) → ℕ
size g m = length (shards_of g m)

abbrev pub keyed : ℕ → List (ℕ × List ℕ) → Bool
keyed g m = elim (find g m) [ none ↦ false | some l ↦ true ]

abbrev pub Nodup : List ℕ → Type 0
Nodup [] = Unit
Nodup (x ∷ l) = (has x l ≡ false) × Nodup l

-- The groups of the list `b` are different, and the number of shards of each satisfies `P`.
abbrev pub Bucket : (ℕ → Type 0) → List ℕ → List (ℕ × List ℕ) → Type 0
Bucket P b m = Nodup b × ((g : ℕ) → has g b ≡ true → P (size g m))

pub size-insert :
    (gid g : ℕ) (k : List ℕ) (m : List (ℕ × List ℕ))
    → size g (insert gid k m) ≡ (if gid == g then length k else size g m)
size-insert gid g k m =
    rw (shards_of, find-insert_if gid g k m)
      (elim (Bool-cases (gid == g)) [ inl e ↦ rw e | inr e ↦ rw e ])

pub size-insert_same :
    (gid : ℕ) (k : List ℕ) (m : List (ℕ × List ℕ)) → size gid (insert gid k m) ≡ length k
size-insert_same gid k m = size-insert gid gid k m ∙ rw (==_refl gid)

pub size-insert_other :
    (gid g : ℕ) (k : List ℕ) (m : List (ℕ × List ℕ))
    → (gid == g) ≡ false
    → size g (insert gid k m) ≡ size g m
size-insert_other gid g k m h = size-insert gid g k m ∙ rw h

pub keyed-insert :
    (gid g : ℕ) (k : List ℕ) (m : List (ℕ × List ℕ))
    → keyed g (insert gid k m) ≡ (if gid == g then true else keyed g m)
keyed-insert gid g k m =
    rw (keyed, find-insert_if gid g k m)
      (elim (Bool-cases (gid == g)) [ inl e ↦ rw e | inr e ↦ rw e ])

pub has_other : (gid g : ℕ) (b : List ℕ) → has gid b ≡ false → has g b ≡ true → (gid == g) ≡ false
has_other gid g b h k = elim (Bool-cases (gid == g)) [
  | inl e ↦
      let same : gid ≡ g = ==→eq gid g e in absurd (let bad : has g b ≡ false = rw (← same) h in cc)
  | inr e ↦ e
]

or_false : (a : Bool) → (a || false) ≡ a
or_false true = refl
or_false false = refl

or_assoc : (a b c : Bool) → (a || (b || c)) ≡ ((a || b) || c)
or_assoc true b c = refl
or_assoc false b c = refl

pub or_cases : (a b : Bool) → (a || b) ≡ true → (a ≡ true) ⊎ (b ≡ true)
or_cases true b h = inl refl
or_cases false b h = inr h

pub or_none : (a b : Bool) → (a || b) ≡ false → (a ≡ false) × (b ≡ false)
or_none true b h = absurd cc
or_none false b h = (refl, h)

pub or_right : (a b : Bool) → b ≡ true → (a || b) ≡ true
or_right true b h = refl
or_right false b h = h

pub has-append : (g x : ℕ) (b : List ℕ) → has g (b ++ x ∷ []) ≡ (has g b || x == g)
has-append g x [] = or_false (x == g)
has-append g x (y ∷ b) =
    ap (λ t. y == g || t) (has-append g x b) ∙ or_assoc (y == g) (has g b) (x == g)

pub Nodup-append : (x : ℕ) (b : List ℕ) → Nodup b → has x b ≡ false → Nodup (b ++ x ∷ [])
Nodup-append x [] d h = (refl, tt)
Nodup-append x (y ∷ b) (out, d) h =
    let (ne, rest) = or_none (y == x) (has x b) h in
    (
      has-append y x b ∙ (let turned : (x == y) ≡ false = ground arith in rw (out, turned)),
      Nodup-append x b d rest,
    )

module _ (P : ℕ → Type 0) where
  at_head :
      (gid g : ℕ) (k : List ℕ) (m : List (ℕ × List ℕ))
      → P (length k)
      → (gid == g) ≡ true
      → P (size g (insert gid k m))
  at_head gid g k m p e = subst P (sym (size-insert gid g k m ∙ rw e)) p

  pub Bucket-absent :
      (gid : ℕ) (b : List ℕ) (m : List (ℕ × List ℕ))
      → Bucket P b m
      → (P (size gid m) → ⊥)
      → has gid b ≡ false
  Bucket-absent gid b m (d, s) n = elim (Bool-cases (has gid b)) [
    | inl e ↦ absurd (n (s gid e))
    | inr e ↦ e
  ]

  kept :
      (gid : ℕ) (b : List ℕ) (k : List ℕ) (m : List (ℕ × List ℕ))
      → has gid b ≡ false
      → ((g : ℕ) → has g b ≡ true → P (size g m))
      → (g : ℕ) → has g b ≡ true
      → P (size g (insert gid k m))
  kept gid b k m out s g h =
      subst P (sym (size-insert_other gid g k m (has_other gid g b out h))) (s g h)

  pub Bucket-keep :
      (gid : ℕ) (b k : List ℕ) (m : List (ℕ × List ℕ))
      → (P (size gid m) → ⊥)
      → Bucket P b m
      → Bucket P b (insert gid k m)
  Bucket-keep gid b k m n v = (v.0, kept gid b k m (Bucket-absent gid b m v n) v.1)

  pub Bucket-tail :
      (gid : ℕ) (b k : List ℕ) (m : List (ℕ × List ℕ))
      → Bucket P (gid ∷ b) m
      → Bucket P b (insert gid k m)
  Bucket-tail gid b k m ((out, d), s) =
      (d, kept gid b k m out (λ g h. s g (or_right (gid == g) (has g b) h)))

  pub Bucket-head :
      (gid : ℕ) (b : List ℕ) (m : List (ℕ × List ℕ)) → Bucket P (gid ∷ b) m → P (size gid m)
  Bucket-head gid b m (d, s) = s gid (rw (==_refl gid))

  pub Bucket-stay :
      (gid : ℕ) (b k : List ℕ) (m : List (ℕ × List ℕ))
      → P (length k)
      → Bucket P (gid ∷ b) m
      → Bucket P (gid ∷ b) (insert gid k m)
  Bucket-stay gid b k m p ((out, d), s) = (
    (out, d),
    λ g h. elim (or_cases (gid == g) (has g b) h) [
      | inl e ↦ at_head gid g k m p e
      | inr e ↦ kept gid b k m out (λ j q. s j (or_right (gid == j) (has j b) q)) g e
    ],
  )

  pub Bucket-add :
      (gid : ℕ) (b k : List ℕ) (m : List (ℕ × List ℕ))
      → (P (size gid m) → ⊥)
      → P (length k)
      → Bucket P b m
      → Bucket P (b ++ gid ∷ []) (insert gid k m)
  Bucket-add gid b k m n p v =
      let out = Bucket-absent gid b m v n in
      (
        Nodup-append gid b v.0 out,
        λ g h. elim (or_cases (has g b) (gid == g) (sym (has-append g gid b) ∙ h)) [
          | inl e ↦ kept gid b k m out v.1 g e
          | inr e ↦ at_head gid g k m p e
        ],
      )
