-- ===== src/ShardKv/Apply.antt =====
-- src/shardkv/server.go: parseCfg, and what the loop `run` does with a command.
use Prim.Native.String.{String}
use mit_raft.Base.{
  ℕ, suc, ◌+◌, Bool, true, false, not, ◌&&◌, ◌||◌, pos, pred_ℤ, List, [], ◌∷◌, none, some, length,
  ltb, ◌==◌, if◌then◌else◌, find, insert, delete, member, missing, Key, nat_key, int_key,
  string_key, append_text, Run, ok, panic, ◌>>=◌,
}
use mit_raft.ShardKv.State.{
  Kind, request, new_config, new_shard, new_send, new_leader, Method, put, append, get, nothing, Op,
  ShardKv, have_shard, shard_in_db, executed,
}

-- `for shard, gid := range kv.cfg.Shards { if gid == kv.gid { … } }`, from position `s` on
unfoldable pub owned : ℕ → ℕ → List ℕ → List ℕ
owned gid s [] = []
owned gid s (g ∷ gs) = let rest = owned gid (suc s) gs in if g == gid then s ∷ rest else rest

-- The shards in the database that are not in the set.
unfoldable pub surplus {ℓ} : {V : Type ℓ} → List ℕ → List (ℕ × V) → List ℕ
surplus shards [] = []
surplus shards ((s, v) ∷ m) =
    let rest = surplus shards m in if member s shards then rest else s ∷ rest

-- copyDB and copyCL: every pair of the first map is written into the second, the last one first;
-- the keys of a map of Go are different.
unfoldable pub copy_map {ℓ κ} :
    {K : Type ℓ} {V : Type κ} ⦃key : Key K⦄ → List (K × V) → List (K × V) → List (K × V)
copy_map [] des = des
copy_map ((k, v) ∷ src) des = insert k v (copy_map src des)

-- `for shard, _ := range kv.shards { m[shard] = make(…) }`
unfoldable pub init_all {ℓ} : {A : Type ℓ} → List ℕ → List (ℕ × List A) → List (ℕ × List A)
init_all [] m = m
init_all (s ∷ shards) m = init_all shards (insert s [] m)

-- `m[shard][key] = value`: to write to a nil map is a panic.
unfoldable pub put_inner {ℓ κ} :
    {K : Type ℓ} {V : Type κ} ⦃key : Key K⦄
    → ℕ
    → K
    → V
    → List (ℕ × List (K × V))
    → Run (List (ℕ × List (K × V)))
put_inner shard k v m = elim (find shard m) [
  | none ↦ panic
  | some l ↦ ok (insert shard (insert k v l) m)
]

-- `switch op.Operation`
unfoldable pub write :
    Method → Op → List (ℕ × List (String × String)) → Run (List (ℕ × List (String × String)))
unfolding put_inner
write put op db = put_inner op.shard op.key op.value db
write append op db = elim (find op.shard db) [
  | none ↦ panic
  | some l ↦ elim (find op.key l) [
    | some v ↦ put_inner op.shard op.key (append_text v op.value) db
    | none ↦ put_inner op.shard op.key op.value db
  ]
]
write get op db = ok db
write nothing op db = ok db

module _ {B : Type 0} where
  unfoldable pub need_shard : ShardKv B → List ℕ
  need_shard kv = missing kv.shards kv.kv_db

  unfoldable pub parse_cfg : ShardKv B → ShardKv B
  parse_cfg kv =
      let held = owned kv.gid 0 kv.cfg.shards in
      let sends = surplus held kv.kv_db in
      record kv {
        shards = held;
        shard_to_send = sends;
        wait_until_move_done = pos (length sends + length (missing held kv.kv_db));
      }

  -- The cases of `switch op.Type`, with `msgToChan` and the new state.
  unfoldable pub apply_send : Op → ShardKv B → Bool × ShardKv B
  apply_send op kv =
      if not (have_shard op.shard kv) && shard_in_db op.shard kv
      then (
        true,
        record kv {
          kv_db = delete op.shard kv.kv_db;
          clerk_log = delete op.shard kv.clerk_log;
          wait_until_move_done = pred_ℤ kv.wait_until_move_done;
        },
      )
      else (true, kv)

  -- The first configuration gives every shard of the group an empty database.
  unfoldable pub initialize : ShardKv B → ShardKv B
  unfolding init_all
  initialize kv = record kv {
    wait_until_move_done = pos 0;
    kv_db = init_all kv.shards kv.kv_db;
    clerk_log = init_all kv.shards kv.clerk_log;
  }

  unfoldable pub apply_config : Op → ShardKv B → Bool × ShardKv B
  unfolding parse_cfg initialize
  apply_config op kv =
      if ltb kv.cfg.num op.new_config.num
      then (
        true,
        let kv' = parse_cfg (record kv { cfg = op.new_config }) in
            if op.new_config.num == 1 then initialize kv' else kv',
      )
      else (true, kv)

  unfoldable pub apply_shard : Op → ShardKv B → Bool × ShardKv B
  unfolding copy_map
  apply_shard op kv =
      if not (have_shard op.shard kv)
      then (false, kv)
      else if not (shard_in_db op.shard kv)
      then (
        true,
        record kv {
          kv_db = insert op.shard (copy_map op.new_shards.shard_db []) kv.kv_db;
          clerk_log = insert op.shard (copy_map op.new_shards.clerk_log []) kv.clerk_log;
          wait_until_move_done = pred_ℤ kv.wait_until_move_done;
        },
      )
      else (true, kv)

  unfoldable pub execute : Op → ShardKv B → Run (ShardKv B)
  unfolding put_inner write
  execute op kv = do
    log ← put_inner op.shard op.clerk op.cmd_index kv.clerk_log
    db ← write op.operation op kv.kv_db
    ok (record kv { clerk_log = log; kv_db = db })

  unfoldable pub apply_request : Op → ShardKv B → Run (Bool × ShardKv B)
  unfolding execute
  apply_request op kv =
      if executed op kv
      then ok (true, kv)
      else if not (have_shard op.shard kv) || not (shard_in_db op.shard kv)
      then ok (false, kv)
      else (do kv' ← execute op kv; ok (true, kv'))

  unfoldable pub apply_kind : Kind → Op → ShardKv B → Run (Bool × ShardKv B)
  unfolding apply_send apply_config apply_shard apply_request
  apply_kind new_send op kv = ok (apply_send op kv)
  apply_kind new_config op kv = ok (apply_config op kv)
  apply_kind new_shard op kv = ok (apply_shard op kv)
  apply_kind request op kv = apply_request op kv
  apply_kind new_leader op kv = ok (true, kv)

  unfoldable pub apply_op : Op → ShardKv B → Run (Bool × ShardKv B)
  unfolding apply_kind
  apply_op op kv = apply_kind op.kind op kv

  -- The commands of a list, in their order.
  unfoldable pub apply_ops : List Op → ShardKv B → Run (ShardKv B)
  unfolding apply_op
  apply_ops [] kv = ok kv
  apply_ops (op ∷ ops) kv = do (answer, kv') ← apply_op op kv; apply_ops ops kv'
