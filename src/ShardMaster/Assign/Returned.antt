-- ===== src/ShardMaster/Assign/Returned.antt =====
-- navieAssign (src/shardmaster/server.go) returns.
use mit_raft.Base.{
  ◌≤◌, suc, true, false, [], Returns-mono, Returns-and, ℕ, ◌+◌, ◌/◌, ◌<◌, ◌≡◌, refl, List, length,
  ◌==◌, nat_key, inl, inr, arith, ok, Returns, returned, Returns-bind, Returns-if,
}
use mit_raft.ShardMaster.State.{
  n_shards, Config, ShardMaster, shards_of, get_last_cfg, set_last_cfg,
}
use mit_raft.ShardMaster.Assign.{Work, trim, unassigned, classify, total, navie_assign}
use mit_raft.ShardMaster.Assign.Rounds.{trim-rounds}
use mit_raft.ShardMaster.Assign.Balance.{SortedWork}
use mit_raft.ShardMaster.Assign.Buckets.{Nodup, has, size, keyed}
use mit_raft.ShardMaster.Assign.Loops.{Balanced}
use mit_raft.ShardMaster.Assign.Classify.{
  keys, own-Pairs, keyed-has, empty_keyed, first_work, first_work-SortedWork,
}
use mit_raft.ShardMaster.Assign.Totals.{share_bounds}
use mit_raft.ShardMaster.Assign.Spread.{AreShards}
use mit_raft.ShardMaster.Assign.Trimming.{Trimmed, trim-Trimmed}
use mit_raft.ShardMaster.Assign.Whole.{assign_work-Returns}
use mit_raft.ShardMaster.Assign.Listing.{classify-Listed, classify_frame, has-keyed, unassigned-lt}

-- The array and the map hold each shard together: the shards of the groups, and those that the
-- array gives to nobody, are as many as there are.
pub record Placed (shards : List ℕ) (m : List (ℕ × List ℕ)) : Type 0 where
  pub distinct : Nodup (keys m)
  pub room : length shards ≡ n_shards
  pub low : (g : ℕ) → AreShards (shards_of g m)
  pub all : total m + length (unassigned 0 shards) ≡ n_shards

classify-Trimmed :
    (share : ℕ) (shards : List ℕ) (m : List (ℕ × List ℕ))
    → Placed shards m
    → Trimmed share (length m) (classify share m (first_work shards m))
classify-Trimmed share shards m p =
    let w = classify share m (first_work shards m) in
    let (same_shards, same_map, same_left) = classify_frame share m (first_work shards m) in
    let listed =
      classify-Listed share m m (first_work shards m) (own-Pairs m p.distinct) (has-keyed m)
        (record {
          table = refl;
          less_known = λ g h. absurd cc;
          even_known = λ g h. absurd cc;
          evens = λ g key is. inl (keyed-has g m key);
          pluses = λ g key is. inl (keyed-has g m key);
        }) in
    (
      record {
        table = rw same_map (record { distinct = p.distinct; groups = refl; low = p.low });
        room = rw same_shards p.room;
        sum = rw (same_map, same_left) p.all;
        less_known = rw same_map listed.less_known;
        pluses =
            rw same_map λ g key is. elim (listed.pluses g key is) [ inl a ↦ absurd cc | inr b ↦ b ];
      },
      record {
        known = rw same_map listed.even_known;
        evens =
            rw same_map λ g key is. elim (listed.evens g key is) [ inl a ↦ absurd cc | inr b ↦ b ];
      },
      rw same_left λ x h. omega (arith, unassigned-lt 0 shards x h, p.room),
    )

-- No group is on the list of those with too many shards, none has two shards more than its share,
-- and what the groups have and what is to be given are all the shards.
abbrev pub Capped : ℕ → Work → Type 0
Capped share r =
    (r.more ≡ [])
    × ((g : ℕ) → keyed g r.g2shard ≡ true → size g r.g2shard ≤ share + 1)
    × (total r.g2shard + length r.to_assign ≡ n_shards)

capped :
    (share n : ℕ) (r : Work) → SortedWork share r → Trimmed share n r → r.more ≡ [] → Capped share r
capped share n r v t more = (
  more,
  λ g key. elim (v.covers g key) [
    | inl a ↦ omega (arith, v.less_ok.1 g a)
    | inr (inl b) ↦ let none_left : has g r.more ≡ false = rw more refl in absurd cc
    | inr (inr (inl d)) ↦ omega (arith, d)
    | inr (inr (inr d)) ↦ omega (arith, d)
  ],
  t.0.sum,
)

-- If the groups of a map are different and have only shards of an array of 10, and their shards
-- and those that the array gives to nobody are 10 together, then the first loop of navieAssign, on
-- the lists that the groups are put into, with at most as many rounds as the groups have shards,
-- does not panic and empties the list of groups with too many shards; no group then has more than
-- its part and one shard, and the shards of the groups and those that are to be given are 10
-- together.
pub trim-Capped :
    (share : ℕ) (shards : List ℕ) (m : List (ℕ × List ℕ))
    → Placed shards m
    → Returns (Capped share) (trim (suc (total m)) share (classify share m (first_work shards m)))
trim-Capped share shards m p =
    let w = classify share m (first_work shards m) in
    let (same_shards, same_map, same_left) = classify_frame share m (first_work shards m) in
    let enough : total w.g2shard ≡ total m = rw same_map refl in
    Returns-mono (λ r ((v, t), more). capped share (length m) r v t more)
      (Returns-and
        (trim-Trimmed (suc (total m)) share (length m) w
          (first_work-SortedWork share shards m p.distinct) (classify-Trimmed share shards m p))
        (trim-rounds (suc (total m)) share w (omega (arith, enough))))

abbrev pub Level : ShardMaster → ShardMaster → Type 0
Level sm s =
    Balanced (n_shards / length sm.g2shard) s.g2shard
    × (0 < length sm.g2shard → total s.g2shard ≡ n_shards)

-- If the groups of the map g2shard are different, the last configuration has an entry for each of
-- the 10 shards, the groups have only shards of the array, and their shards and those that the
-- array gives to nobody are 10 together, then navieAssign returns without a panic; every group
-- then has the number of shards divided by the number of groups, rounded down, or one shard more,
-- and, if there is a group, the groups have 10 shards together.
pub navie_assign-Level :
    (sm : ShardMaster) (config : Config)
    → get_last_cfg sm ≡ ok config
    → Placed config.shards sm.g2shard
    → Returns (Level sm) (navie_assign sm)
unfolding navie_assign set_last_cfg
navie_assign-Level sm config found p =
    let m = sm.g2shard in
    let share = n_shards / length m in
    Returns-if (length m == 0)
      (λ e. returned (
        (λ g key. let gone = empty_keyed g m e in absurd cc),
        λ some. absurd (ground (arith, e, some)),
      ))
      λ e.
        let some : 0 < length m = ground (arith, e) in
        let (under, over) = share_bounds (length m) some in
        rw found (
          Returns-bind
            (assign_work-Returns share (length m) (classify share m (first_work config.shards m))
              under over (first_work-SortedWork share config.shards m p.distinct)
              (classify-Trimmed share config.shards m p))
            λ r (ready, level). returned (level, λ q. omega (arith, ready.sum)))
