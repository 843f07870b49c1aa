-- ===== src/ShardMaster/History.antt =====
-- src/shardmaster/server.go: the numbers of the configurations, and what a command leaves of the
-- earlier ones.
pub mod Queries
pub mod Twice
use Prim.Native.String.{String}
use mit_raft.Base.{
  ℕ, suc, ◌+◌, ◌-◌, ◌≤◌, ◌<◌, ◌≡◌, refl, sym, ap, ◌∙◌, Bool, true, false, pos, minus_one, List, [],
  ◌∷◌, ◌++◌, ◌||◌, some, length, get_elem?, set, length-append, length-set, ==→eq, get_elem?-set,
  get_elem?-lt, get_elem?-some, ltb, get_elem?-append_left, get_elem?-append_right, ◌==◌, find,
  insert, delete, Run, ok, ◌>>=◌, or_panic, Ensures, value, Ensures-ok, Ensures-mono, Ensures-bind,
  Ensures-after, Ensures-after_eq, Ensures-if, arith, Bool-cases, Option-cases, inl, inr, nat_key,
  ltb_ℤ, ◌==ℤ◌,
}
use mit_raft.Raft.Snapshot.{store}
use mit_raft.ShardMaster.State.{
  Config, Op, Operation, join, leave, move, query, ShardMaster, last, get_last_cfg, set_last_cfg,
  add_config,
}
use mit_raft.ShardMaster.Assign.{navie_assign, assign_work}
use mit_raft.ShardMaster.Server.{
  join_groups, release, leave_groups, reassign, apply_join, apply_leave, apply_move,
  apply_operation, apply_op, query_config,
}

-- The configuration at position `i` has number `i`, and there is one.
pub record Numbered (l : List Config) : Type 0 where
  pub nonempty : 0 < length l
  pub nums : (i : ℕ) (c : Config) → get_elem? l i ≡ some c → c.num ≡ i

-- Only the last configuration of `k` differs from that of `l`, and not in its number.
pub record Kept (l k : List Config) : Type 0 where
  pub size : length k ≡ length l
  pub same : (i : ℕ) → i < length l - 1 → get_elem? k i ≡ get_elem? l i
  pub num :
      (i : ℕ) (c : Config)
      → get_elem? k i ≡ some c
      → (d : Config) × (get_elem? l i ≡ some d) × (c.num ≡ d.num)

-- The configurations of `l` are the first ones of `k`.
abbrev pub Extends : List Config → List Config → Type 0
Extends l k = (length l ≤ length k) × ((i : ℕ) → i < length l → get_elem? k i ≡ get_elem? l i)

Kept-refl : (l : List Config) → Kept l l
Kept-refl l = record { size = refl; same = λ i h. refl; num = λ i c h. (c, h, refl) }

Kept-trans : (l k m : List Config) → Kept l k → Kept k m → Kept l m
Kept-trans l k m a b = record {
  size = b.size ∙ a.size;
  same = λ i h. b.same i (omega (arith, a.size)) ∙ a.same i h;
  num = λ i c h.
      let (d, at_d, same_d) = b.num i c h in
      let (e, at_e, same_e) = a.num i d at_d in (e, at_e, same_d ∙ same_e);
}

last_elem :
    (l : List Config) (c : Config)
    → last l ≡ ok c
    → (0 < length l) × (get_elem? l (length l - 1) ≡ some c)
unfolding last
last_elem [] c h = absurd cc
last_elem (x ∷ []) c h = (omega arith, let same : x ≡ c = cc in ap some same)
last_elem (x ∷ y ∷ l) c h =
    let (size, found) = last_elem (y ∷ l) c h in
    let place : length (x ∷ y ∷ l) - 1 ≡ suc (length (y ∷ l) - 1) = omega arith in
    (omega arith, rw place found)

last_found :
    (l : List Config)
    → 0 < length l
    → (c : Config) × (last l ≡ ok c) × (get_elem? l (length l - 1) ≡ some c)
unfolding last
last_found [] h = absurd (omega arith)
last_found (x ∷ []) h = (x, refl, refl)
last_found (x ∷ y ∷ l) h =
    let (c, is_last, found) = last_found (y ∷ l) (omega arith) in
    let place : length (x ∷ y ∷ l) - 1 ≡ suc (length (y ∷ l) - 1) = omega arith in
    (c, is_last, rw place found)

set-last-Kept :
    (l : List Config) (old cfg : Config)
    → last l ≡ ok old
    → cfg.num ≡ old.num
    → Kept l (set l (length l - 1) cfg)
set-last-Kept l old cfg h same_num =
    let (size, found) = last_elem l old h in
    record {
      size = length-set l (length l - 1) cfg;
      same = λ i low.
          let other : (length l - 1 == i) ≡ false = ground arith in
          get_elem?-set l (length l - 1) i cfg (omega arith) ∙ rw other;
      num = λ i c at_c. elim (Bool-cases (length l - 1 == i)) [
        | inl e ↦
            let place : length l - 1 ≡ i = ==→eq (length l - 1) i e in
            let set_there : get_elem? (set l (length l - 1) cfg) i ≡ some cfg =
              get_elem?-set l (length l - 1) i cfg (omega arith) ∙ rw e in
            let is_cfg : c ≡ cfg = cc in
            (old, rw (← place) found, ap (λ x. x.num) is_cfg ∙ same_num)
        | inr e ↦
            let set_there : get_elem? (set l (length l - 1) cfg) i ≡ get_elem? l i =
              get_elem?-set l (length l - 1) i cfg (omega arith) ∙ rw e in
            (c, sym set_there ∙ at_c, refl)
      ];
    }

navie_assign-Kept : (sm : ShardMaster) → Ensures (λ s. Kept sm.configs s.configs) (navie_assign sm)
unfolding navie_assign get_last_cfg set_last_cfg
navie_assign-Kept sm =
    Ensures-if (length sm.g2shard == 0) (λ e. value (Kept-refl sm.configs))
      λ e. Ensures-after_eq (last sm.configs) λ config found. Ensures-after (assign_work _ _) λ w.
        value (set-last-Kept sm.configs config (record config { shards = w.shards }) found refl)

reassign-Kept :
    (r : Bool × Config × List (ℕ × List ℕ)) (sm : ShardMaster) (old : Config)
    → last sm.configs ≡ ok old
    → r.1.num ≡ old.num
    → Ensures (λ s. Kept sm.configs s.configs) (reassign r sm)
unfolding reassign set_last_cfg
reassign-Kept (need, cfg, m) sm old found same =
    let kept = set-last-Kept sm.configs old cfg found same in
    Ensures-if need
      (λ e.
        Ensures-mono
          (λ s k.
            Kept-trans sm.configs (set sm.configs (length sm.configs - 1) cfg) s.configs kept k)
          (navie_assign-Kept (set_last_cfg cfg (record sm { g2shard = m }))))
      (λ e. value kept)

join_groups-num :
    (l : List (ℕ × List String)) (need : Bool) (cfg : Config) (m : List (ℕ × List ℕ))
    → (join_groups l (need, cfg, m)).1.num ≡ cfg.num
unfolding join_groups
join_groups-num [] need cfg m = refl
join_groups-num ((gid, servers) ∷ l) need cfg m = elim (Option-cases (find gid m)) [
  | inl e ↦
      rw (join_groups, e)
        (join_groups-num l true (record cfg { groups = insert gid servers cfg.groups })
          (insert gid [] m))
  | inr (x, e) ↦ rw (join_groups, e) (join_groups-num l need cfg m)
]

leave_groups-num :
    (l : List ℕ) (need : Bool) (cfg : Config) (m : List (ℕ × List ℕ))
    → Ensures (λ r. r.1.num ≡ cfg.num) (leave_groups l (need, cfg, m))
unfolding leave_groups
leave_groups-num [] need cfg m = value refl
leave_groups-num (gid ∷ l) need cfg m = elim (Option-cases (find gid m)) [
  | inl e ↦ rw (leave_groups, e) (leave_groups-num l need cfg m)
  | inr (x, e) ↦
      rw (leave_groups, e)
        (Ensures-after (release x cfg.shards) λ shards.
          leave_groups-num l true (record cfg { shards = shards; groups = delete gid cfg.groups })
            (delete gid m))
]

apply_join-Kept :
    (op : Op) (sm : ShardMaster) → Ensures (λ s. Kept sm.configs s.configs) (apply_join op sm)
unfolding apply_join get_last_cfg
apply_join-Kept op sm = Ensures-after_eq (last sm.configs) λ cfg found.
    reassign-Kept (join_groups op.servers (false, cfg, sm.g2shard)) sm cfg found
      (join_groups-num op.servers false cfg sm.g2shard)

apply_leave-Kept :
    (op : Op) (sm : ShardMaster) → Ensures (λ s. Kept sm.configs s.configs) (apply_leave op sm)
unfolding apply_leave get_last_cfg
apply_leave-Kept op sm = Ensures-after_eq (last sm.configs) λ cfg found.
    Ensures-bind (leave_groups-num op.gids false cfg sm.g2shard)
      λ r same. reassign-Kept r sm cfg found same

apply_move-Kept :
    (op : Op) (sm : ShardMaster) → Ensures (λ s. Kept sm.configs s.configs) (apply_move op sm)
unfolding apply_move get_last_cfg set_last_cfg
apply_move-Kept op sm = Ensures-after_eq (last sm.configs) λ cfg found.
    Ensures-after (or_panic (get_elem? cfg.shards op.shard)) λ old.
      Ensures-after (or_panic (get_elem? op.gids 0)) λ gid.
        Ensures-after (store cfg.shards op.shard gid)
          λ shards. value (set-last-Kept sm.configs cfg (record cfg { shards = shards }) found refl)

-- A configuration more, with the next number, and the rest kept.
abbrev pub Grown : List Config → List Config → Type 0
Grown l k = (new : Config) × (new.num ≡ length l) × Kept (l ++ new ∷ []) k

add_config-Grown :
    (sm : ShardMaster)
    → Numbered sm.configs
    → Ensures
        (λ s. (new : Config) × (new.num ≡ length sm.configs) × (s.configs ≡ sm.configs ++ new ∷ []))
        (add_config sm)
unfolding add_config get_last_cfg
add_config-Grown sm n = Ensures-after_eq (last sm.configs) λ old found.
    let (size, at_old) = last_elem sm.configs old found in
    let num = n.nums (length sm.configs - 1) old at_old in
    value (record old { num = old.num + 1 }, omega (arith, num, size), refl)

Grown-Numbered : (l k : List Config) → Numbered l → Grown l k → Numbered k
Grown-Numbered l k n (new, num, kept) = record {
  nonempty = omega (arith, kept.size, length-append l (new ∷ []));
  nums = λ i c at_c.
      let (d, at_d, same) = kept.num i c at_c in
      let inside : i < length l + 1 =
        let size : length (l ++ new ∷ []) ≡ length l + 1 = length-append l (new ∷ []) in
        omega (arith, get_elem?-lt (l ++ new ∷ []) i at_d, size) in
      same ∙ elim (Bool-cases (ltb i (length l))) [
        | inl old ↦ n.nums i d (sym (get_elem?-append_left l (new ∷ []) i (ground arith)) ∙ at_d)
        | inr e ↦
            let place : length l + 0 ≡ i = ground arith in
            let at_new : get_elem? (l ++ new ∷ []) i ≡ some new =
              rw (← place) (get_elem?-append_right l (new ∷ []) 0) in
            let is_new : d ≡ new = cc in
            ap (λ x. x.num) is_new ∙ num ∙ (let end : length l ≡ i = omega (arith, place) in end)
      ];
}

Grown-Extends : (l k : List Config) → Grown l k → Extends l k
Grown-Extends l k (new, num, kept) =
    let size : length (l ++ new ∷ []) ≡ length l + 1 = length-append l (new ∷ []) in
    (
      omega (arith, kept.size, size),
      λ i h. kept.same i (omega (arith, size)) ∙ get_elem?-append_left l (new ∷ []) i h,
    )
