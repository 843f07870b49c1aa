-- ===== src/ShardMaster/Assign/Classify.antt =====
-- The loop of navieAssign (src/shardmaster/server.go) that sorts the groups, and the whole.
use mit_raft.Base.{
  ℕ, ◌+◌, ◌/◌, ◌<◌, ◌≡◌, ◌⊎◌, refl, sym, subst, ◌∙◌, true, false, List, [], ◌∷◌, ◌++◌, length, ltb,
  ◌==◌, find, Bool-cases, inl, inr, arith, ==→eq, ==_refl, nat_key, Ensures, value, Ensures-bind,
  Ensures-after, Ensures-if,
}
use mit_raft.ShardMaster.State.{n_shards, ShardMaster, shards_of, get_last_cfg, set_last_cfg}
use mit_raft.ShardMaster.Assign.{Work, sort_group, classify, navie_assign, unassigned}
use mit_raft.ShardMaster.Assign.Buckets.{
  has, size, keyed, Nodup, Bucket, or_cases, or_none, or_right, has-append, has_other, Nodup-append,
}
use mit_raft.ShardMaster.Assign.Balance.{IsLess, IsEven, IsPlus, IsMore, SortedWork}
use mit_raft.ShardMaster.Assign.Loops.{Balanced, assign_work-Balanced}

abbrev pub keys : List (ℕ × List ℕ) → List ℕ
keys [] = []
keys ((g, l) ∷ m) = g ∷ keys m

-- The pairs of the first map are what the second one gives.
abbrev pub Pairs : List (ℕ × List ℕ) → List (ℕ × List ℕ) → Type 0
Pairs [] m = Unit
Pairs ((g, l) ∷ groups) m = (size g m ≡ length l) × Pairs groups m

abbrev Share : ℕ → List ℕ → List ℕ → List (ℕ × List ℕ) → ℕ → Type 0
Share share less more m g =
    (has g less ≡ true) ⊎ (has g more ≡ true) ⊎ (size g m ≡ share) ⊎ (size g m ≡ share + 1)

-- The groups up to here are sorted; those of `rest` are in no list yet.
record Sorting (share : ℕ) (rest : List ℕ) (less even plus more : List ℕ) (m : List (ℕ × List ℕ))
    : Type 0 where
  nodup : Nodup rest
  fresh :
      (g : ℕ)
      → has g rest ≡ true
      → (has g less ≡ false) × (has g even ≡ false) × (has g plus ≡ false) × (has g more ≡ false)
  less_ok : Bucket (IsLess share) less m
  even_ok : Bucket (IsEven share) even m
  plus_ok : Bucket (IsPlus share) plus m
  more_ok : Bucket (IsMore share) more m
  cover : (g : ℕ) → keyed g m ≡ true → (has g rest ≡ true) ⊎ Share share less more m g

push :
    (P : ℕ → Type 0) (gid : ℕ) (b : List ℕ) (m : List (ℕ × List ℕ))
    → has gid b ≡ false
    → P (size gid m)
    → Bucket P b m
    → Bucket P (b ++ gid ∷ []) m
push P gid b m out p (d, s) = (
  Nodup-append gid b d out,
  λ g h. elim (or_cases (has g b) (gid == g) (sym (has-append g gid b) ∙ h)) [
    | inl e ↦ s g e
    | inr e ↦ subst (λ j. P (size j m)) (==→eq gid g e) p
  ],
)

still_out :
    (gid g : ℕ) (b : List ℕ) → (gid == g) ≡ false → has g b ≡ false → has g (b ++ gid ∷ []) ≡ false
still_out gid g b ne out = has-append g gid b ∙ rw (out, ne)

pub still_in : (gid g : ℕ) (b : List ℕ) → has g b ≡ true → has g (b ++ gid ∷ []) ≡ true
still_in gid g b h = has-append g gid b ∙ rw h

pub now_in : (gid : ℕ) (b : List ℕ) → has gid (b ++ gid ∷ []) ≡ true
now_in gid b = has-append gid gid b ∙ or_right (has gid b) (gid == gid) (==_refl gid)

head_in : (gid : ℕ) (l : List ℕ) → has gid (gid ∷ l) ≡ true
head_in gid l = rw (==_refl gid)

cover_step :
    (share gid : ℕ) (rest less more less' more' : List ℕ) (m : List (ℕ × List ℕ))
    → ((g : ℕ) → keyed g m ≡ true → (has g (gid ∷ rest) ≡ true) ⊎ Share share less more m g)
    → Share share less' more' m gid
    → ((g : ℕ) → has g less ≡ true → has g less' ≡ true)
    → ((g : ℕ) → has g more ≡ true → has g more' ≡ true)
    → (g : ℕ) → keyed g m ≡ true
    → (has g rest ≡ true) ⊎ Share share less' more' m g
cover_step share gid rest less more less' more' m c now f h g key = elim (c g key) [
  | inl a ↦ elim (or_cases (gid == g) (has g rest) a) [
    | inl e ↦ inr (subst (λ j. Share share less' more' m j) (==→eq gid g e) now)
    | inr e ↦ inl e
  ]
  | inr (inl a) ↦ inr (inl (f g a))
  | inr (inr (inl b)) ↦ inr (inr (inl (h g b)))
  | inr (inr (inr d)) ↦ inr (inr (inr d))
]

module _ (share gid : ℕ) (rest less even plus more : List ℕ) (m : List (ℕ × List ℕ)) where
  other :
      Sorting share (gid ∷ rest) less even plus more m
      → (g : ℕ) → has g rest ≡ true
      → (gid == g) ≡ false
  other v g h = has_other gid g rest v.nodup.0 h

  to_less :
      IsLess share (size gid m)
      → Sorting share (gid ∷ rest) less even plus more m
      → Sorting share rest (less ++ gid ∷ []) even plus more m
  to_less p v = record {
    nodup = v.nodup.1;
    fresh = λ g h.
        let (a, b, c, d) = v.fresh g (or_right (gid == g) (has g rest) h) in
        (still_out gid g less (other v g h) a, b, c, d);
    less_ok = push (IsLess share) gid less m (v.fresh gid (head_in gid rest)).0 p v.less_ok;
    even_ok = v.even_ok;
    plus_ok = v.plus_ok;
    more_ok = v.more_ok;
    cover =
        cover_step share gid rest less more (less ++ gid ∷ []) more m v.cover
          (inl (now_in gid less)) (λ g h. still_in gid g less h) (λ g h. h);
  }

  to_even :
      IsEven share (size gid m)
      → Sorting share (gid ∷ rest) less even plus more m
      → Sorting share rest less (even ++ gid ∷ []) plus more m
  to_even p v = record {
    nodup = v.nodup.1;
    fresh = λ g h.
        let (a, b, c, d) = v.fresh g (or_right (gid == g) (has g rest) h) in
        (a, still_out gid g even (other v g h) b, c, d);
    less_ok = v.less_ok;
    even_ok = push (IsEven share) gid even m (v.fresh gid (head_in gid rest)).1 p v.even_ok;
    plus_ok = v.plus_ok;
    more_ok = v.more_ok;
    cover =
        cover_step share gid rest less more less more m v.cover (inr (inr (inl p))) (λ g h. h)
          (λ g h. h);
  }

  to_plus :
      IsPlus share (size gid m)
      → Sorting share (gid ∷ rest) less even plus more m
      → Sorting share rest less even (plus ++ gid ∷ []) more m
  to_plus p v = record {
    nodup = v.nodup.1;
    fresh = λ g h.
        let (a, b, c, d) = v.fresh g (or_right (gid == g) (has g rest) h) in
        (a, b, still_out gid g plus (other v g h) c, d);
    less_ok = v.less_ok;
    even_ok = v.even_ok;
    plus_ok = push (IsPlus share) gid plus m (v.fresh gid (head_in gid rest)).2 p v.plus_ok;
    more_ok = v.more_ok;
    cover =
        cover_step share gid rest less more less more m v.cover (inr (inr (inr p))) (λ g h. h)
          (λ g h. h);
  }

  to_more :
      IsMore share (size gid m)
      → Sorting share (gid ∷ rest) less even plus more m
      → Sorting share rest less even plus (more ++ gid ∷ []) m
  to_more p v = record {
    nodup = v.nodup.1;
    fresh = λ g h.
        let (a, b, c, d) = v.fresh g (or_right (gid == g) (has g rest) h) in
        (a, b, c, still_out gid g more (other v g h) d);
    less_ok = v.less_ok;
    even_ok = v.even_ok;
    plus_ok = v.plus_ok;
    more_ok = push (IsMore share) gid more m (v.fresh gid (head_in gid rest)).3 p v.more_ok;
    cover =
        cover_step share gid rest less more less (more ++ gid ∷ []) m v.cover
          (inr (inl (now_in gid more))) (λ g h. h) (λ g h. still_in gid g more h);
  }

pub sort_group-cases :
    (P : Work → Type 0) (share gid n : ℕ) (w : Work)
    → (n ≡ share → P (record w { even = w.even ++ gid ∷ [] }))
    → (n ≡ share + 1 → P (record w { plus = w.plus ++ gid ∷ [] }))
    → (n < share → P (record w { less = w.less ++ gid ∷ [] }))
    → (share + 1 < n → P (record w { more = w.more ++ gid ∷ [] }))
    → P (sort_group share gid n w)
unfolding sort_group
sort_group-cases P share gid n w a b c d = elim (Bool-cases (n == share)) [
  | inl e ↦ rw (sort_group, e) (a (==→eq n share e))
  | inr e ↦ elim (Bool-cases (n == share + 1)) [
    | inl f ↦ rw (sort_group, e, f) (b (==→eq n (share + 1) f))
    | inr f ↦ elim (Bool-cases (ltb n share)) [
      | inl h ↦ rw (sort_group, e, f, h) (c (ground arith))
      | inr h ↦ rw (sort_group, e, f, h) (d (ground arith))
    ]
  ]
]

classify-Sorted :
    (share : ℕ) (groups : List (ℕ × List ℕ)) (w : Work)
    → Pairs groups w.g2shard
    → Sorting share (keys groups) w.less w.even w.plus w.more w.g2shard
    → SortedWork share (classify share groups w)
unfolding classify
classify-Sorted share [] w p v = record {
  less_ok = v.less_ok;
  even_ok = v.even_ok;
  plus_ok = v.plus_ok;
  more_ok = v.more_ok;
  covers = λ g key. elim (v.cover g key) [ inl a ↦ absurd cc | inr b ↦ b ];
}
classify-Sorted share ((gid, l) ∷ groups) w (same, p) v =
    let r = keys groups in
    let m = w.g2shard in
    sort_group-cases (λ s. SortedWork share (classify share groups s)) share gid (length l) w
      (λ n.
        classify-Sorted share groups (record w { even = w.even ++ gid ∷ [] }) p
          (to_even share gid r w.less w.even w.plus w.more m (same ∙ n) v))
      (λ n.
        classify-Sorted share groups (record w { plus = w.plus ++ gid ∷ [] }) p
          (to_plus share gid r w.less w.even w.plus w.more m (same ∙ n) v))
      (λ n.
        classify-Sorted share groups (record w { less = w.less ++ gid ∷ [] }) p
          (to_less share gid r w.less w.even w.plus w.more m (omega (arith, same, n)) v))
      (λ n.
        classify-Sorted share groups (record w { more = w.more ++ gid ∷ [] }) p
          (to_more share gid r w.less w.even w.plus w.more m (omega (arith, same, n)) v))

-- A map with different keys gives its own pairs.
Pairs-below :
    (x : ℕ) (k : List ℕ) (groups m : List (ℕ × List ℕ))
    → has x (keys groups) ≡ false
    → Pairs groups m
    → Pairs groups ((x, k) ∷ m)
unfolding find
Pairs-below x k [] m out p = tt
Pairs-below x k ((g, l) ∷ groups) m out (same, p) =
    let (ne, others) = or_none (g == x) (has x (keys groups)) out in
    let turned : (x == g) ≡ false = ground arith in
    (rw (shards_of, turned) same, Pairs-below x k groups m others p)

pub own-Pairs : (m : List (ℕ × List ℕ)) → Nodup (keys m) → Pairs m m
unfolding find
own-Pairs [] d = tt
own-Pairs ((g, l) ∷ m) (out, d) =
    (rw (shards_of, ==_refl g), Pairs-below g l m m out (own-Pairs m d))

pub keyed-has : (g : ℕ) (m : List (ℕ × List ℕ)) → keyed g m ≡ true → has g (keys m) ≡ true
unfolding find
keyed-has g [] h = absurd cc
keyed-has g ((x, l) ∷ m) h = elim (Bool-cases (x == g)) [
  | inl e ↦ rw e
  | inr e ↦ rw e (keyed-has g m (rw (keyed, e) at h))
]

pub empty_keyed : (g : ℕ) (m : List (ℕ × List ℕ)) → (length m == 0) ≡ true → keyed g m ≡ false
unfolding find
empty_keyed g [] h = refl
empty_keyed g (x ∷ m) h = absurd (ground arith)

-- The work before the loop over the groups.
abbrev pub first_work : List ℕ → List (ℕ × List ℕ) → Work
first_work shards m = record {
  shards = shards;
  g2shard = m;
  less = [];
  even = [];
  plus = [];
  more = [];
  to_assign = unassigned 0 shards;
}

pub first_work-SortedWork :
    (share : ℕ) (shards : List ℕ) (m : List (ℕ × List ℕ))
    → Nodup (keys m)
    → SortedWork share (classify share m (first_work shards m))
first_work-SortedWork share shards m d =
    classify-Sorted share m (first_work shards m) (own-Pairs m d) (record {
      nodup = d;
      fresh = λ g h. (refl, refl, refl, refl);
      less_ok = (tt, λ g h. absurd cc);
      even_ok = (tt, λ g h. absurd cc);
      plus_ok = (tt, λ g h. absurd cc);
      more_ok = (tt, λ g h. absurd cc);
      cover = λ g key. inl (keyed-has g m key);
    })

-- If the groups of the map g2shard are different, then navieAssign, if it does not panic, leaves
-- every group with the number of shards divided by the number of groups, rounded down, or with one
-- shard more.
pub navie_assign-Balanced :
    (sm : ShardMaster)
    → Nodup (keys sm.g2shard)
    → Ensures (λ s. Balanced (n_shards / length sm.g2shard) s.g2shard) (navie_assign sm)
unfolding navie_assign get_last_cfg set_last_cfg
navie_assign-Balanced sm d =
    Ensures-if (length sm.g2shard == 0)
      (λ e. value (λ g key. let gone = empty_keyed g sm.g2shard e in absurd cc))
      λ e. Ensures-after (get_last_cfg sm) λ config.
        Ensures-bind
          (assign_work-Balanced (n_shards / length sm.g2shard) _
            (first_work-SortedWork (n_shards / length sm.g2shard) config.shards sm.g2shard d))
          λ w b. value b
