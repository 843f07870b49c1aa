-- ===== src/ShardMaster/Assign/Balance.antt =====
-- The three loops of navieAssign (src/shardmaster/server.go) over its lists of groups.
use mit_raft.Base.{
  ℕ, ◌+◌, ◌<◌, ◌≡◌, ◌⊎◌, sym, subst, ◌∙◌, true, false, List, [], ◌∷◌, ◌++◌, length, ◌==◌, insert,
  nat_key, Bool-cases, inl, inr, arith, ==→eq, ==_refl,
}
use mit_raft.ShardMaster.Assign.{Work}
use mit_raft.ShardMaster.Assign.Buckets.{
  has, size, keyed, Bucket, size-insert_same, size-insert_other, keyed-insert, or_cases,
  Bucket-keep, Bucket-tail, Bucket-head, Bucket-stay, Bucket-add,
}

abbrev pub IsLess : ℕ → ℕ → Type 0
IsLess share n = n < share

abbrev pub IsEven : ℕ → ℕ → Type 0
IsEven share n = n ≡ share

abbrev pub IsPlus : ℕ → ℕ → Type 0
IsPlus share n = n ≡ share + 1

abbrev pub IsMore : ℕ → ℕ → Type 0
IsMore share n = share + 1 < n

-- Every group is in one of the two lists, or has its part of the shards.
abbrev pub Covers : ℕ → List ℕ → List ℕ → List (ℕ × List ℕ) → Type 0
Covers share less more m =
    (g : ℕ)
    → keyed g m ≡ true
    → (has g less ≡ true) ⊎ (has g more ≡ true) ⊎ (size g m ≡ share) ⊎ (size g m ≡ share + 1)

pub record Sorted (share : ℕ) (less even plus more : List ℕ) (m : List (ℕ × List ℕ)) : Type 0 where
  pub less_ok : Bucket (IsLess share) less m
  pub even_ok : Bucket (IsEven share) even m
  pub plus_ok : Bucket (IsPlus share) plus m
  pub more_ok : Bucket (IsMore share) more m
  pub covers : Covers share less more m

abbrev pub SortedWork : ℕ → Work → Type 0
SortedWork share w = Sorted share w.less w.even w.plus w.more w.g2shard

Covers-insert :
    (share gid : ℕ) (k less more less' more' : List ℕ) (m : List (ℕ × List ℕ))
    → Covers share less more m
    → (has gid less' ≡ true) ⊎ (has gid more' ≡ true) ⊎ (length k ≡ share) ⊎ (length k ≡ share + 1)
    → ((g : ℕ) → (gid == g) ≡ false → has g less ≡ true → has g less' ≡ true)
    → ((g : ℕ) → (gid == g) ≡ false → has g more ≡ true → has g more' ≡ true)
    → Covers share less' more' (insert gid k m)
Covers-insert share gid k less more less' more' m c now f h g key = elim (Bool-cases (gid == g)) [
  | inl e ↦
      let same : gid ≡ g = ==→eq gid g e in
      let s = size-insert_same gid k m in
      subst
        (λ j.
          (has j less' ≡ true)
          ⊎ (has j more' ≡ true)
          ⊎ (size j (insert gid k m) ≡ share)
          ⊎ (size j (insert gid k m) ≡ share + 1))
        same
        (elim now [
          | inl a ↦ inl a
          | inr (inl b) ↦ inr (inl b)
          | inr (inr (inl d)) ↦ inr (inr (inl (s ∙ d)))
          | inr (inr (inr d)) ↦ inr (inr (inr (s ∙ d)))
        ])
  | inr e ↦
      let s = size-insert_other gid g k m e in
      let before : keyed g m ≡ true = sym (keyed-insert gid g k m ∙ rw e) ∙ key in
      elim (c g before) [
        | inl a ↦ inl (f g e a)
        | inr (inl b) ↦ inr (inl (h g e b))
        | inr (inr (inl d)) ↦ inr (inr (inl (s ∙ d)))
        | inr (inr (inr d)) ↦ inr (inr (inr (s ∙ d)))
      ]
]

has_tail : (gid g : ℕ) (l : List ℕ) → (gid == g) ≡ false → has g (gid ∷ l) ≡ true → has g l ≡ true
has_tail gid g l e h = elim (or_cases (gid == g) (has g l) h) [ inl b ↦ absurd cc | inr b ↦ b ]

has_head : (gid : ℕ) (l : List ℕ) → has gid (gid ∷ l) ≡ true
has_head gid l = rw (==_refl gid)

-- A group of `less` gets shards, and still has too few.
pub less_part :
    (share gid : ℕ) (k rest even plus more : List ℕ) (m : List (ℕ × List ℕ))
    → Sorted share (gid ∷ rest) even plus more m
    → length k < share
    → Sorted share (gid ∷ rest) even plus more (insert gid k m)
less_part share gid k rest even plus more m v low =
    let n = Bucket-head (IsLess share) gid rest m v.less_ok in
    record {
      less_ok = Bucket-stay (IsLess share) gid rest k m low v.less_ok;
      even_ok = Bucket-keep (IsEven share) gid even k m (λ p. omega (arith, n, p)) v.even_ok;
      plus_ok = Bucket-keep (IsPlus share) gid plus k m (λ p. omega (arith, n, p)) v.plus_ok;
      more_ok = Bucket-keep (IsMore share) gid more k m (λ p. omega (arith, n, p)) v.more_ok;
      covers =
          Covers-insert share gid k (gid ∷ rest) more (gid ∷ rest) more m v.covers
            (inl (has_head gid rest)) (λ g e a. a) (λ g e a. a);
    }

-- A group of `less` gets its part, and leaves the list.
pub less_full :
    (share gid : ℕ) (k rest even plus more : List ℕ) (m : List (ℕ × List ℕ))
    → Sorted share (gid ∷ rest) even plus more m
    → length k ≡ share
    → Sorted share rest even plus more (insert gid k m)
less_full share gid k rest even plus more m v full =
    let n = Bucket-head (IsLess share) gid rest m v.less_ok in
    record {
      less_ok = Bucket-tail (IsLess share) gid rest k m v.less_ok;
      even_ok = Bucket-keep (IsEven share) gid even k m (λ p. omega (arith, n, p)) v.even_ok;
      plus_ok = Bucket-keep (IsPlus share) gid plus k m (λ p. omega (arith, n, p)) v.plus_ok;
      more_ok = Bucket-keep (IsMore share) gid more k m (λ p. omega (arith, n, p)) v.more_ok;
      covers =
          Covers-insert share gid k (gid ∷ rest) more rest more m v.covers (inr (inr (inl full)))
            (λ g e a. has_tail gid g rest e a) (λ g e a. a);
    }

pub less_even :
    (share gid : ℕ) (k rest even plus more : List ℕ) (m : List (ℕ × List ℕ))
    → Sorted share (gid ∷ rest) even plus more m
    → length k ≡ share
    → Sorted share rest (even ++ gid ∷ []) plus more (insert gid k m)
less_even share gid k rest even plus more m v full =
    let n = Bucket-head (IsLess share) gid rest m v.less_ok in
    let w = less_full share gid k rest even plus more m v full in
    record {
      less_ok = w.less_ok;
      even_ok = Bucket-add (IsEven share) gid even k m (λ p. omega (arith, n, p)) full v.even_ok;
      plus_ok = w.plus_ok;
      more_ok = w.more_ok;
      covers = w.covers;
    }

pub even_plus :
    (share gid : ℕ) (k less rest plus more : List ℕ) (m : List (ℕ × List ℕ))
    → Sorted share less (gid ∷ rest) plus more m
    → length k ≡ share + 1
    → Sorted share less rest (plus ++ gid ∷ []) more (insert gid k m)
even_plus share gid k less rest plus more m v up =
    let n = Bucket-head (IsEven share) gid rest m v.even_ok in
    record {
      less_ok = Bucket-keep (IsLess share) gid less k m (λ p. omega (arith, n, p)) v.less_ok;
      even_ok = Bucket-tail (IsEven share) gid rest k m v.even_ok;
      plus_ok = Bucket-add (IsPlus share) gid plus k m (λ p. omega (arith, n, p)) up v.plus_ok;
      more_ok = Bucket-keep (IsMore share) gid more k m (λ p. omega (arith, n, p)) v.more_ok;
      covers =
          Covers-insert share gid k less more less more m v.covers (inr (inr (inr up))) (λ g e a. a)
            (λ g e a. a);
    }

pub plus_even :
    (share gid : ℕ) (k less even rest more : List ℕ) (m : List (ℕ × List ℕ))
    → Sorted share less even (gid ∷ rest) more m
    → length k ≡ share
    → Sorted share less even rest more (insert gid k m)
plus_even share gid k less even rest more m v down =
    let n = Bucket-head (IsPlus share) gid rest m v.plus_ok in
    record {
      less_ok = Bucket-keep (IsLess share) gid less k m (λ p. omega (arith, n, p)) v.less_ok;
      even_ok = Bucket-keep (IsEven share) gid even k m (λ p. omega (arith, n, p)) v.even_ok;
      plus_ok = Bucket-tail (IsPlus share) gid rest k m v.plus_ok;
      more_ok = Bucket-keep (IsMore share) gid more k m (λ p. omega (arith, n, p)) v.more_ok;
      covers =
          Covers-insert share gid k less more less more m v.covers (inr (inr (inl down)))
            (λ g e a. a) (λ g e a. a);
    }

pub more_part :
    (share gid : ℕ) (k less even plus rest : List ℕ) (m : List (ℕ × List ℕ))
    → Sorted share less even plus (gid ∷ rest) m
    → share + 1 < length k
    → Sorted share less even plus (gid ∷ rest) (insert gid k m)
more_part share gid k less even plus rest m v high =
    let n = Bucket-head (IsMore share) gid rest m v.more_ok in
    record {
      less_ok = Bucket-keep (IsLess share) gid less k m (λ p. omega (arith, n, p)) v.less_ok;
      even_ok = Bucket-keep (IsEven share) gid even k m (λ p. omega (arith, n, p)) v.even_ok;
      plus_ok = Bucket-keep (IsPlus share) gid plus k m (λ p. omega (arith, n, p)) v.plus_ok;
      more_ok = Bucket-stay (IsMore share) gid rest k m high v.more_ok;
      covers =
          Covers-insert share gid k less (gid ∷ rest) less (gid ∷ rest) m v.covers
            (inr (inl (has_head gid rest))) (λ g e a. a) (λ g e a. a);
    }

pub more_plus :
    (share gid : ℕ) (k less even plus rest : List ℕ) (m : List (ℕ × List ℕ))
    → Sorted share less even plus (gid ∷ rest) m
    → length k ≡ share + 1
    → Sorted share less even (plus ++ gid ∷ []) rest (insert gid k m)
more_plus share gid k less even plus rest m v down =
    let n = Bucket-head (IsMore share) gid rest m v.more_ok in
    record {
      less_ok = Bucket-keep (IsLess share) gid less k m (λ p. omega (arith, n, p)) v.less_ok;
      even_ok = Bucket-keep (IsEven share) gid even k m (λ p. omega (arith, n, p)) v.even_ok;
      plus_ok = Bucket-add (IsPlus share) gid plus k m (λ p. omega (arith, n, p)) down v.plus_ok;
      more_ok = Bucket-tail (IsMore share) gid rest k m v.more_ok;
      covers =
          Covers-insert share gid k less (gid ∷ rest) less rest m v.covers (inr (inr (inr down)))
            (λ g e a. a) (λ g e a. has_tail gid g rest e a);
    }
