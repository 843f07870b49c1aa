-- ===== src/ShardKv/Invariant/Steps.antt =====
-- src/shardkv/server.go: the invariant of a server along the commands that it applies.
use Prim.Native.String.{String}
use mit_raft.Base.{
  ℕ, ◌≡◌, sym, ◌∙◌, true, ℤ, List, [], ◌∷◌, ◌⊎◌, inl, inr, insert, present, member, nat_key,
  int_key, string_key, Returns, returned, Returns-if, Returns-bind, Bool-cases,
}
use mit_raft.ShardKv.State.{
  Kind, request, new_config, new_shard, new_send, new_leader, Op, ShardKv, have_shard, shard_in_db,
  executed,
}
use mit_raft.ShardKv.Apply.{execute, apply_request, apply_kind, apply_op, apply_ops}
use mit_raft.ShardKv.Counting.{insert-Distinct}
use mit_raft.ShardKv.Writes.{insert_agree, overwrite_present, put_inner-Returns, write-Returns}
use mit_raft.ShardKv.Invariant.{
  Inv, not_fresh_held, written-counted, apply_send-Inv, apply_config-Inv, apply_shard-Inv,
}

module _ {B : Type 0} where
  written-Inv :
      (op : Op) (kv : ShardKv B)
      → Inv kv
      → member op.shard kv.shards ≡ true
      → present op.shard kv.kv_db ≡ true
      → (log : List (ℕ × List (ℤ × ℤ))) (log' : List (ℤ × ℤ))
      → log ≡ insert op.shard log' kv.clerk_log
      → (db : List (ℕ × List (String × String)))
      → (db ≡ kv.kv_db) ⊎ ((l : List (String × String)) × (db ≡ insert op.shard l kv.kv_db))
      → Inv (record kv { clerk_log = log; kv_db = db })
  written-Inv op kv inv in_set there log log' logs' db (inl same) =
      let logged_there : present op.shard kv.clerk_log ≡ true = sym (inv.logs op.shard) ∙ there in
      record {
        held = inv.held;
        keys = rw same inv.keys;
        logs = λ s.
            rw (same, logs')
              (inv.logs s ∙ sym (overwrite_present op.shard s log' kv.clerk_log logged_there));
        counted = rw same inv.counted;
        fresh = λ z. not_fresh_held kv inv op.shard in_set z;
      }
  written-Inv op kv inv in_set there log log' logs' db (inr (l, same)) = record {
    held = inv.held;
    keys = rw same (insert-Distinct op.shard l kv.kv_db inv.keys);
    logs =
        λ s. rw (same, logs') (insert_agree op.shard s kv.kv_db kv.clerk_log l log' (inv.logs s));
    counted = rw same (written-counted kv inv op.shard l in_set there);
    fresh = λ z. not_fresh_held kv inv op.shard in_set z;
  }

  execute-Inv :
      (op : Op) (kv : ShardKv B)
      → Inv kv
      → member op.shard kv.shards ≡ true
      → present op.shard kv.kv_db ≡ true
      → Returns Inv (execute op kv)
  unfolding execute
  execute-Inv op kv inv in_set there =
      let logged_there : present op.shard kv.clerk_log ≡ true = sym (inv.logs op.shard) ∙ there in
      Returns-bind (put_inner-Returns op.shard op.clerk op.cmd_index kv.clerk_log logged_there)
        λ log (log', logs').
          Returns-bind (write-Returns op.operation op kv.kv_db there)
            λ db change. returned (written-Inv op kv inv in_set there log log' logs' db change)

  apply_request-Inv :
      (op : Op) (kv : ShardKv B) → Inv kv → Returns (λ result. Inv result.1) (apply_request op kv)
  unfolding apply_request have_shard shard_in_db
  apply_request-Inv op kv inv =
      Returns-if (executed op kv) (λ e. returned inv)
        λ e. elim (Bool-cases (member op.shard kv.shards)) [
          | inr out ↦ rw out (returned inv)
          | inl in_set ↦ elim (Bool-cases (present op.shard kv.kv_db)) [
            | inr out ↦ rw (in_set, out) (returned inv)
            | inl there ↦
                rw (in_set, there)
                  (Returns-bind (execute-Inv op kv inv in_set there) λ kv' inv'. returned inv')
          ]
        ]

  apply_kind-Inv :
      (kind : Kind) (op : Op) (kv : ShardKv B)
      → Inv kv
      → Returns (λ result. Inv result.1) (apply_kind kind op kv)
  unfolding apply_kind
  apply_kind-Inv new_send op kv inv = returned (apply_send-Inv op kv inv)
  apply_kind-Inv new_config op kv inv = returned (apply_config-Inv op kv inv)
  apply_kind-Inv new_shard op kv inv = returned (apply_shard-Inv op kv inv)
  apply_kind-Inv request op kv inv = apply_request-Inv op kv inv
  apply_kind-Inv new_leader op kv inv = returned inv

  pub apply_op-Inv :
      (op : Op) (kv : ShardKv B) → Inv kv → Returns (λ result. Inv result.1) (apply_op op kv)
  unfolding apply_op
  apply_op-Inv op kv inv = apply_kind-Inv op.kind op kv inv

  -- Any list of commands, applied to a server that satisfies the invariant, runs without a panic and
  -- ends with the invariant.
  pub apply_ops-Inv : (ops : List Op) (kv : ShardKv B) → Inv kv → Returns Inv (apply_ops ops kv)
  unfolding apply_ops
  apply_ops-Inv [] kv inv = returned inv
  apply_ops-Inv (op ∷ ops) kv inv =
      Returns-bind (apply_op-Inv op kv inv) λ result inv'. apply_ops-Inv ops result.1 inv'
