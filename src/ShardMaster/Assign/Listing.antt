-- ===== src/ShardMaster/Assign/Listing.antt =====
-- The lists of navieAssign (src/shardmaster/server.go) after the loop over the groups.
use mit_raft.Base.{
  ℕ, ◌+◌, ◌<◌, ◌≡◌, ◌⊎◌, refl, sym, subst, ◌∙◌, true, List, [], ◌∷◌, ◌++◌, length, ◌==◌, ◌||◌,
  nat_key, find, Bool-cases, inl, inr, arith, ==→eq, ==_refl,
}
use mit_raft.ShardMaster.Assign.{Work, unassigned, classify}
use mit_raft.ShardMaster.Assign.Buckets.{has, size, keyed, or_cases, or_right, has-append}
use mit_raft.ShardMaster.Assign.Classify.{keys, Pairs, now_in, still_in, sort_group-cases}
use mit_raft.ShardMaster.Assign.Spread.{Known}

-- The groups that have been looked at are in the lists; those of `rest` are to come.
pub record Listed (share : ℕ) (rest : List ℕ) (m : List (ℕ × List ℕ)) (w : Work) : Type 0 where
  pub table : w.g2shard ≡ m
  pub less_known : Known w.less m
  pub even_known : Known w.even m
  pub evens :
      (g : ℕ) → keyed g m ≡ true → size g m ≡ share → (has g rest ≡ true) ⊎ (has g w.even ≡ true)
  pub pluses :
      (g : ℕ)
      → keyed g m ≡ true
      → size g m ≡ share + 1
      → (has g rest ≡ true) ⊎ (has g w.plus ≡ true)

-- A group whose size is not `v` is not missed in the list of those with `v` shards.
skipped :
    (v gid : ℕ) (rest b : List ℕ) (m : List (ℕ × List ℕ))
    → (size gid m ≡ v → ⊥)
    → ((g : ℕ) → keyed g m ≡ true → size g m ≡ v → (has g (gid ∷ rest) ≡ true) ⊎ (has g b ≡ true))
    → (g : ℕ) → keyed g m ≡ true
    → size g m ≡ v
    → (has g rest ≡ true) ⊎ (has g b ≡ true)
skipped v gid rest b m differs marks g key is = elim (marks g key is) [
  | inl a ↦ elim (or_cases (gid == g) (has g rest) a) [
    | inl e ↦ absurd (differs (subst (λ j. size j m ≡ v) (sym (==→eq gid g e)) is))
    | inr e ↦ inl e
  ]
  | inr a ↦ inr a
]

added :
    (v gid : ℕ) (rest b : List ℕ) (m : List (ℕ × List ℕ))
    → ((g : ℕ) → keyed g m ≡ true → size g m ≡ v → (has g (gid ∷ rest) ≡ true) ⊎ (has g b ≡ true))
    → (g : ℕ) → keyed g m ≡ true
    → size g m ≡ v
    → (has g rest ≡ true) ⊎ (has g (b ++ gid ∷ []) ≡ true)
added v gid rest b m marks g key is = elim (marks g key is) [
  | inl a ↦ elim (or_cases (gid == g) (has g rest) a) [
    | inl e ↦ inr (subst (λ j. has j (b ++ gid ∷ []) ≡ true) (==→eq gid g e) (now_in gid b))
    | inr e ↦ inl e
  ]
  | inr a ↦ inr (still_in gid g b a)
]

Known-add :
    (gid : ℕ) (b : List ℕ) (m : List (ℕ × List ℕ))
    → keyed gid m ≡ true
    → Known b m
    → Known (b ++ gid ∷ []) m
Known-add gid b m key known g h =
    elim (or_cases (has g b) (gid == g) (sym (has-append g gid b) ∙ h)) [
      | inl e ↦ known g e
      | inr e ↦ subst (λ j. keyed j m ≡ true) (==→eq gid g e) key
    ]

-- Every group of the first map is one of the second.
abbrev pub AllKeyed : List (ℕ × List ℕ) → List (ℕ × List ℕ) → Type 0
AllKeyed groups m = (g : ℕ) → has g (keys groups) ≡ true → keyed g m ≡ true

pub classify-Listed :
    (share : ℕ) (groups m : List (ℕ × List ℕ)) (w : Work)
    → Pairs groups m
    → AllKeyed groups m
    → Listed share (keys groups) m w
    → Listed share [] m (classify share groups w)
unfolding classify
classify-Listed share [] m w p a v = v
classify-Listed share ((gid, l) ∷ groups) m w (same, p) a v =
    let key = a gid (rw (==_refl gid)) in
    let later : AllKeyed groups m = λ g h. a g (or_right (gid == g) (has g (keys groups)) h) in
    let r = keys groups in
    sort_group-cases (λ s. Listed share [] m (classify share groups s)) share gid (length l) w
      (λ n.
        classify-Listed share groups m (record w { even = w.even ++ gid ∷ [] }) p later
          (record {
            table = v.table;
            less_known = v.less_known;
            even_known = Known-add gid w.even m key v.even_known;
            evens = added share gid r w.even m v.evens;
            pluses = skipped (share + 1) gid r w.plus m (λ q. omega (arith, q, same, n)) v.pluses;
          }))
      (λ n.
        classify-Listed share groups m (record w { plus = w.plus ++ gid ∷ [] }) p later
          (record {
            table = v.table;
            less_known = v.less_known;
            even_known = v.even_known;
            evens = skipped share gid r w.even m (λ q. omega (arith, q, same, n)) v.evens;
            pluses = added (share + 1) gid r w.plus m v.pluses;
          }))
      (λ n.
        classify-Listed share groups m (record w { less = w.less ++ gid ∷ [] }) p later
          (record {
            table = v.table;
            less_known = Known-add gid w.less m key v.less_known;
            even_known = v.even_known;
            evens = skipped share gid r w.even m (λ q. omega (arith, q, same, n)) v.evens;
            pluses = skipped (share + 1) gid r w.plus m (λ q. omega (arith, q, same, n)) v.pluses;
          }))
      (λ n.
        classify-Listed share groups m (record w { more = w.more ++ gid ∷ [] }) p later
          (record {
            table = v.table;
            less_known = v.less_known;
            even_known = v.even_known;
            evens = skipped share gid r w.even m (λ q. omega (arith, q, same, n)) v.evens;
            pluses = skipped (share + 1) gid r w.plus m (λ q. omega (arith, q, same, n)) v.pluses;
          }))

pub classify_frame :
    (share : ℕ) (groups : List (ℕ × List ℕ)) (w : Work)
    → ((classify share groups w).shards ≡ w.shards)
      × ((classify share groups w).g2shard ≡ w.g2shard)
      × ((classify share groups w).to_assign ≡ w.to_assign)
unfolding classify
classify_frame share [] w = (refl, refl, refl)
classify_frame share ((gid, l) ∷ groups) w =
    sort_group-cases
      (λ s.
        ((classify share groups s).shards ≡ w.shards)
        × ((classify share groups s).g2shard ≡ w.g2shard)
        × ((classify share groups s).to_assign ≡ w.to_assign))
      share gid (length l) w
      (λ n. classify_frame share groups (record w { even = w.even ++ gid ∷ [] }))
      (λ n. classify_frame share groups (record w { plus = w.plus ++ gid ∷ [] }))
      (λ n. classify_frame share groups (record w { less = w.less ++ gid ∷ [] }))
      (λ n. classify_frame share groups (record w { more = w.more ++ gid ∷ [] }))

pub has-keyed : (m : List (ℕ × List ℕ)) → AllKeyed m m
unfolding find
has-keyed [] g h = absurd cc
has-keyed ((x, l) ∷ m) g h = elim (Bool-cases (x == g)) [
  | inl e ↦ rw (keyed, e)
  | inr e ↦ let there : has g (keys m) ≡ true = rw e at h in rw (keyed, e) (has-keyed m g there)
]

pub unassigned-lt :
    (i : ℕ) (shards : List ℕ) (x : ℕ) → has x (unassigned i shards) ≡ true → x < i + length shards
unassigned-lt i [] x h = absurd cc
unassigned-lt i (gid ∷ shards) x h = elim (Bool-cases (gid == 0)) [
  | inl e ↦
      let parts : (i == x || has x (unassigned (i + 1) shards)) ≡ true = rw e at h in
      elim (or_cases (i == x) (has x (unassigned (i + 1) shards)) parts) [
        | inl p ↦ let same : i ≡ x = ==→eq i x p in omega (arith, same)
        | inr p ↦ omega (arith, unassigned-lt (i + 1) shards x p)
      ]
  | inr e ↦
      let rest : has x (unassigned (i + 1) shards) ≡ true = rw e at h in
      omega (arith, unassigned-lt (i + 1) shards x rest)
]
