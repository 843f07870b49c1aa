-- ===== src/ShardMaster/Assign/Spread.antt =====
-- The work of navieAssign (src/shardmaster/server.go) as it goes on: where the shards are, and which
-- groups its lists hold.
use mit_raft.Base.{
  ℕ, zero, suc, ◌-◌, ◌<◌, ok, take, ◌≡◌, refl, sym, subst, ◌∙◌, true, false, List, [], ◌∷◌, ◌++◌,
  length, ◌==◌, find-insert_if, insert, nat_key, Bool-cases, inl, inr, arith, ==→eq, ==_refl,
}
use mit_raft.ShardMaster.State.{n_shards, shards_of, last, cut}
use mit_raft.ShardMaster.Assign.Buckets.{
  has, size, keyed, Nodup, size-insert_same, size-insert_other, keyed-insert, or_cases, or_right,
}
use mit_raft.ShardMaster.Assign.Classify.{keys}
use mit_raft.ShardMaster.Assign.Totals.{keys-insert, length-insert_there}

abbrev pub AreShards : List ℕ → Type 0
AreShards l = (x : ℕ) → has x l ≡ true → x < n_shards

-- Different groups, `n` of them, with shards of the array.
pub record Table (n : ℕ) (m : List (ℕ × List ℕ)) : Type 0 where
  pub distinct : Nodup (keys m)
  pub groups : length m ≡ n
  pub low : (g : ℕ) → AreShards (shards_of g m)

-- The list `b` holds every group with `v` shards.
abbrev pub Marks : ℕ → List ℕ → List (ℕ × List ℕ) → Type 0
Marks v b m = (g : ℕ) → keyed g m ≡ true → size g m ≡ v → has g b ≡ true

abbrev pub Known : List ℕ → List (ℕ × List ℕ) → Type 0
Known b m = (g : ℕ) → has g b ≡ true → keyed g m ≡ true

pub Table-insert :
    (n gid : ℕ) (k : List ℕ) (m : List (ℕ × List ℕ))
    → Table n m
    → keyed gid m ≡ true
    → AreShards k
    → Table n (insert gid k m)
Table-insert n gid k m t key low = record {
  distinct = rw (keys-insert gid k m key) t.distinct;
  groups = length-insert_there gid k m key ∙ t.groups;
  low = λ g. elim (Bool-cases (gid == g)) [
    | inl e ↦ rw (shards_of, find-insert_if gid g k m, e) low
    | inr e ↦ rw (shards_of, find-insert_if gid g k m, e) (t.low g)
  ];
}

pub Known-insert :
    (gid : ℕ) (b k : List ℕ) (m : List (ℕ × List ℕ)) → Known b m → Known b (insert gid k m)
Known-insert gid b k m known g h = elim (Bool-cases (gid == g)) [
  | inl e ↦ rw (keyed-insert gid g k m, e)
  | inr e ↦ rw (keyed-insert gid g k m, e) (known g h)
]

pub Marks-insert :
    (v gid : ℕ) (b c k : List ℕ) (m : List (ℕ × List ℕ))
    → Marks v b m
    → (length k ≡ v → has gid c ≡ true)
    → ((g : ℕ) → (gid == g) ≡ false → has g b ≡ true → has g c ≡ true)
    → Marks v c (insert gid k m)
Marks-insert v gid b c k m marks here others g key is = elim (Bool-cases (gid == g)) [
  | inl e ↦
      let same : gid ≡ g = ==→eq gid g e in
      let full : length k ≡ v =
        sym (size-insert_same gid k m) ∙ (subst (λ j. size j (insert gid k m) ≡ v) (sym same) is) in
      subst (λ j. has j c ≡ true) same (here full)
  | inr e ↦
      let before : keyed g m ≡ true = sym (keyed-insert gid g k m ∙ rw e) ∙ key in
      let old : size g m ≡ v = sym (size-insert_other gid g k m e) ∙ is in
      others g e (marks g before old)
]

pub AreShards-more :
    (l : List ℕ) (shard : ℕ) → AreShards l → shard < n_shards → AreShards (l ++ shard ∷ [])
AreShards-more [] shard a h x e = elim (Bool-cases (shard == x)) [
  | inl p ↦ rw (← ==→eq shard x p) h
  | inr p ↦ let out : has x (shard ∷ []) ≡ false = rw p in absurd cc
]
AreShards-more (y ∷ l) shard a h x e = elim (or_cases (y == x) (has x (l ++ shard ∷ [])) e) [
  | inl p ↦ a x (rw p)
  | inr p ↦ AreShards-more l shard (λ z q. a z (or_right (y == z) (has z l) q)) h x p
]

pub AreShards-cut : (l : List ℕ) → AreShards l → AreShards (cut l)
unfolding cut
AreShards-cut l a x h = a x (has-take (length l - 1) l x h)
  where
    has-take : (n : ℕ) (k : List ℕ) (z : ℕ) → has z (take n k) ≡ true → has z k ≡ true
    has-take zero k z q = absurd cc
    has-take (suc n) [] z q = q
    has-take (suc n) (y ∷ k) z q = elim (or_cases (y == z) (has z (take n k)) q) [
      | inl e ↦ rw e
      | inr e ↦ or_right (y == z) (has z k) (has-take n k z e)
    ]

-- The last shard of a group that has some.
pub last-AreShards :
    (l : List ℕ)
    → 0 < length l
    → AreShards l
    → (shard : ℕ) × (last l ≡ ok shard) × (shard < n_shards)
unfolding last
last-AreShards [] h a = absurd (omega arith)
last-AreShards (x ∷ []) h a = (x, refl, a x (rw (==_refl x)))
last-AreShards (x ∷ y ∷ l) h a =
    last-AreShards (y ∷ l) (omega arith) λ z q. a z (or_right (x == z) (has z (y ∷ l)) q)
