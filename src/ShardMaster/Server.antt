-- ===== src/ShardMaster/Server.antt =====
-- src/shardmaster/server.go: the commands that `run` applies, and the answer of Query.
use Prim.Native.String.{String}
use mit_raft.Base.{
  ℕ, Bool, true, false, ◌||◌, ℤ, pos, minus_one, pos_part, ltb_ℤ, ◌==ℤ◌, List, [], ◌∷◌, ◌++◌,
  Option, none, some, ◌==◌, get_elem?, if◌then◌else◌, find, insert, delete, nat_key, Run, ok, panic,
  ◌>>=◌, or_panic,
}
use mit_raft.Raft.Snapshot.{store}
use mit_raft.ShardMaster.State.{
  Config, Op, Operation, join, leave, move, query, ShardMaster, executed, shards_of, get_last_cfg,
  set_last_cfg, add_config,
}
use mit_raft.ShardMaster.Assign.{navie_assign}

-- The loop of join over `op.Servers`; the flag is `needToAssign`.
unfoldable pub join_groups :
    List (ℕ × List String) → Bool × Config × List (ℕ × List ℕ) → Bool × Config × List (ℕ × List ℕ)
join_groups [] s = s
join_groups ((gid, servers) ∷ l) (need, cfg, m) = elim (find gid m) [
  | some _ ↦ join_groups l (need, cfg, m)
  | none ↦
      join_groups l (true, record cfg { groups = insert gid servers cfg.groups }, insert gid [] m)
]

-- `for _, shard := range … { lastConfig.Shards[shard] = 0 }`
unfoldable pub release : List ℕ → List ℕ → Run (List ℕ)
release [] shards = ok shards
release (shard ∷ l) shards = store shards shard 0 >>= release l

-- The loop of leave over `op.GIDs`.
unfoldable pub leave_groups :
    List ℕ → Bool × Config × List (ℕ × List ℕ) → Run (Bool × Config × List (ℕ × List ℕ))
leave_groups [] s = ok s
leave_groups (gid ∷ gids) (need, cfg, m) = elim (find gid m) [
  | none ↦ leave_groups gids (need, cfg, m)
  | some l ↦ do
    shards ← release l cfg.shards
    leave_groups gids
        (true, record cfg { shards = shards; groups = delete gid cfg.groups }, delete gid m)
]

-- The first occurrence of a shard goes.
unfoldable pub drop_shard : ℕ → List ℕ → List ℕ
drop_shard shard [] = []
drop_shard shard (x ∷ l) = let rest = drop_shard shard l in if x == shard then l else x ∷ rest

-- The loop of move writes to the map only if it finds the shard.
unfoldable pub remove_shard : ℕ → ℕ → List (ℕ × List ℕ) → List (ℕ × List ℕ)
remove_shard gid shard m = elim (find gid m) [
  | none ↦ m
  | some l ↦ insert gid (drop_shard shard l) m
]

-- `if needToAssign { sm.navieAssign() }`, after the last configuration and the map are written.
unfoldable pub reassign : Bool × Config × List (ℕ × List ℕ) → ShardMaster → Run ShardMaster
unfolding set_last_cfg navie_assign
reassign (need, cfg, m) sm =
    let written = set_last_cfg cfg (record sm { g2shard = m }) in
    if need then navie_assign written else ok written

-- The command, by its operation; `sm` has the new configuration of addConfig.
unfoldable pub apply_join : Op → ShardMaster → Run ShardMaster
unfolding reassign join_groups
apply_join op sm = do
  cfg ← get_last_cfg sm
  reassign (join_groups op.servers (false, cfg, sm.g2shard)) sm

unfoldable pub apply_leave : Op → ShardMaster → Run ShardMaster
unfolding reassign
apply_leave op sm = do
  cfg ← get_last_cfg sm
  left ← leave_groups op.gids (false, cfg, sm.g2shard)
  reassign left sm

unfoldable pub apply_move : Op → ShardMaster → Run ShardMaster
unfolding set_last_cfg remove_shard
apply_move op sm = do
  cfg ← get_last_cfg sm
  old ← or_panic (get_elem? cfg.shards op.shard)
  gid ← or_panic (get_elem? op.gids 0)
  shards ← store cfg.shards op.shard gid
  let m = remove_shard old op.shard sm.g2shard
  ok (
      set_last_cfg (record cfg { shards = shards })
        (record sm { g2shard = insert gid (shards_of gid m ++ op.shard ∷ []) m }))

unfoldable pub apply_operation : Operation → Op → ShardMaster → Run ShardMaster
apply_operation join op sm = add_config sm >>= apply_join op
apply_operation leave op sm = add_config sm >>= apply_leave op
apply_operation move op sm = add_config sm >>= apply_move op
apply_operation query op sm = ok sm

-- `switch op.Operation`
unfoldable pub apply_op : Op → ShardMaster → Run ShardMaster
unfolding apply_operation
apply_op op sm = apply_operation op.operation op sm

-- One round of run, without the notification; `none` if it keeps the lock, as it does for a
-- command that clerkLog has.
unfoldable pub run_op : Op → ShardMaster → Run (Option ShardMaster)
run_op op sm =
    if executed op.clerk op.cmd_index sm then ok none else (do sm' ← apply_op op sm; ok (some sm'))

-- The configuration that Query replies with, once its command has been applied.
unfoldable pub query_config : ℤ → ShardMaster → Run Config
query_config num sm = do
  cfg ← get_last_cfg sm
  if num ==ℤ minus_one || ltb_ℤ (pos cfg.num) num
      then ok cfg
      else (if ltb_ℤ num (pos 0) then panic else or_panic (get_elem? sm.configs (pos_part num)))
