-- ===== src/ShardMaster/Assign.antt =====
-- src/shardmaster/server.go: navieAssign, its three loops and the state that they share.
pub mod Rounds
pub mod Buckets
pub mod Balance
pub mod Loops
pub mod Classify
pub mod Totals
pub mod Spread
pub mod Trimming
pub mod Giving
pub mod Whole
pub mod Listing
pub mod Returned
use mit_raft.Base.{
  ℕ, zero, suc, ◌+◌, ◌/◌, List, [], ◌∷◌, ◌++◌, length, ltb, ◌==◌, if◌then◌else◌, insert, nat_key,
  Run, ok, panic, ◌>>=◌,
}
use mit_raft.Raft.Snapshot.{store}
use mit_raft.ShardMaster.State.{
  n_shards, ShardMaster, shards_of, last, cut, get_last_cfg, set_last_cfg,
}

-- `config.Shards`, `sm.g2shard`, the four lists of `groupMap`, and `shardToAssign`.
pub record Work : Type 0 where
  pub shards : List ℕ
  pub g2shard : List (ℕ × List ℕ)
  pub less : List ℕ
  pub even : List ℕ
  pub plus : List ℕ
  pub more : List ℕ
  pub to_assign : List ℕ

-- The shards without a group, from shard `i` on.
abbrev pub unassigned : ℕ → List ℕ → List ℕ
unassigned i [] = []
unassigned i (gid ∷ shards) =
    let rest = unassigned (i + 1) shards in if gid == 0 then i ∷ rest else rest

-- The `switch` on the number of shards of a group.
unfoldable pub sort_group : ℕ → ℕ → ℕ → Work → Work
sort_group share gid n w =
    if n == share
    then record w { even = w.even ++ gid ∷ [] }
    else if n == share + 1
    then record w { plus = w.plus ++ gid ∷ [] }
    else if ltb n share
    then record w { less = w.less ++ gid ∷ [] }
    else record w { more = w.more ++ gid ∷ [] }

-- The loop over the groups, which sorts them by the number of their shards.
unfoldable pub classify : ℕ → List (ℕ × List ℕ) → Work → Work
unfolding sort_group
classify share [] w = w
classify share ((gid, l) ∷ groups) w = classify share groups (sort_group share gid (length l) w)

-- One round of the loop over `groupMap[tmore]`, of which `gid` is the head and `rest` the tail.
unfoldable pub trim_one : ℕ → ℕ → List ℕ → Work → Run Work
trim_one share gid rest w = do
  shard ← last (shards_of gid w.g2shard)
  let kept = cut (shards_of gid w.g2shard)
  let trimmed = record w {
    g2shard = insert gid kept w.g2shard;
    to_assign = w.to_assign ++ shard ∷ [];
  }
  ok (
      if length kept == share + 1
      then record trimmed { plus = w.plus ++ gid ∷ []; more = rest }
      else trimmed)

-- The loop, for at most as many rounds as the fuel says.
unfoldable pub trim : ℕ → ℕ → Work → Run Work
trim zero share w = ok w
trim (suc n) share w = elim w.more [
  | [] ↦ ok w
  | gid ∷ rest ↦ trim_one share gid rest w >>= trim n share
]

-- One round of the loop over `shardToAssign`.
unfoldable pub give : ℕ → ℕ → Work → Run Work
give share shard w = elim w.less [
  | gid ∷ rest ↦ do
    shards ← store w.shards shard gid
    let l = shards_of gid w.g2shard ++ shard ∷ []
    let given = record w { shards = shards; g2shard = insert gid l w.g2shard }
    ok (
        if length l == share
        then record given { even = w.even ++ gid ∷ []; less = rest }
        else given)
  | [] ↦ elim w.even [
    | [] ↦ panic
    | gid ∷ rest ↦ do
      shards ← store w.shards shard gid
      ok (record w {
        shards = shards;
        g2shard = insert gid (shards_of gid w.g2shard ++ shard ∷ []) w.g2shard;
        even = rest;
        plus = w.plus ++ gid ∷ [];
      })
  ]
]

unfoldable pub give_all : ℕ → List ℕ → Work → Run Work
give_all share [] w = ok (record w { to_assign = [] })
give_all share (shard ∷ l) w = give share shard w >>= give_all share l

-- The loop that moves one shard of each of the groups of `plus`, in their order, to a group of
-- `less`, while there is one.
unfoldable pub even_out : ℕ → List ℕ → Work → Run Work
even_out share [] w = elim w.less [ [] ↦ ok w | _ ↦ panic ]
even_out share (rich ∷ others) w = elim w.less [
  | [] ↦ ok w
  | poor ∷ rest ↦ do
    shard ← last (shards_of rich w.g2shard)
    let cutting = insert rich (cut (shards_of rich w.g2shard)) w.g2shard
    shards ← store w.shards shard poor
    let l = shards_of poor cutting ++ shard ∷ []
    let moved = record w { shards = shards; g2shard = insert poor l cutting; plus = others }
    even_out share others (if length l == share then record moved { less = rest } else moved)
]

-- The number of all the shards of the groups, one of which each round of `trim` takes.
abbrev pub total : List (ℕ × List ℕ) → ℕ
total [] = 0
total ((gid, l) ∷ m) = length l + total m

unfoldable pub assign_work : ℕ → Work → Run Work
assign_work share w = do
  trimmed ← trim (suc (total w.g2shard)) share w
  given ← give_all share trimmed.to_assign trimmed
  even_out share given.plus given

unfoldable pub navie_assign : ShardMaster → Run ShardMaster
navie_assign sm = if length sm.g2shard == 0 then ok sm else do
  config ← get_last_cfg sm
  let share = n_shards / length sm.g2shard
  w ← assign_work share (
      classify share sm.g2shard (record {
        shards = config.shards;
        g2shard = sm.g2shard;
        less = [];
        even = [];
        plus = [];
        more = [];
        to_assign = unassigned 0 config.shards;
      }))
  ok (set_last_cfg (record config { shards = w.shards }) (record sm { g2shard = w.g2shard }))
