-- ===== src/ShardKv/Settled/Stays.antt =====
-- src/shardkv/server.go: a server whose waitUntilMoveDone is 0, until the next configuration.
use mit_raft.Base.{
  ℕ, ◌≤◌, ◌≡◌, refl, ◌∙◌, true, false, not, ◌||◌, pos, List, [], ◌∷◌, ltb, inl, inr, nat_key,
  int_key, Returns-and, Ensures, value, Ensures-after, Ensures-if, Ensures-bind, Returns, returned,
  Returns-bind, Returns-mono, arith, Bool-cases,
}
use mit_raft.ShardKv.State.{
  Kind, request, new_config, new_shard, new_send, new_leader, Op, executed, ShardKv, have_shard,
  shard_in_db,
}
use mit_raft.ShardKv.Apply.{
  apply_send, apply_shard, apply_config, put_inner, write, execute, apply_request, apply_kind,
  apply_op, apply_ops,
}
use mit_raft.ShardKv.Invariant.{Inv}
use mit_raft.ShardKv.Invariant.Steps.{apply_op-Inv}
use mit_raft.ShardKv.Settled.{Settled, zero-Settled}

-- A command that is no later configuration than the server's.
unfoldable pub Timely : ℕ → Kind → Op → Type 0
Timely num new_config op = op.new_config.num ≤ num
Timely num request op = Unit
Timely num new_shard op = Unit
Timely num new_send op = Unit
Timely num new_leader op = Unit

unfoldable pub AllTimely : ℕ → List Op → Type 0
unfolding Timely
AllTimely num [] = Unit
AllTimely num (op ∷ ops) = Timely num op.kind op × AllTimely num ops

module _ {B : Type 0} where
  -- Nothing that is held, or that has to move, is another.
  pub record Still (kv kv' : ShardKv B) : Type 0 where
    pub cfg : kv'.cfg ≡ kv.cfg
    pub shards : kv'.shards ≡ kv.shards
    pub wait : kv'.wait_until_move_done ≡ kv.wait_until_move_done

  Still-refl : (kv : ShardKv B) → Still kv kv
  Still-refl kv = record { cfg = refl; shards = refl; wait = refl }

  Still-trans : {a b c : ShardKv B} → Still a b → Still b c → Still a c
  Still-trans p q = record {
    cfg = q.cfg ∙ p.cfg;
    shards = q.shards ∙ p.shards;
    wait = q.wait ∙ p.wait;
  }

  module _ (op : Op) (kv : ShardKv B) (settled : Settled kv) where
    apply_send-Still : Still kv (apply_send op kv).1
    unfolding apply_send Settled
    apply_send-Still = elim (Bool-cases (have_shard op.shard kv)) [
      | inl e ↦ rw e (Still-refl kv)
      | inr e ↦
          let out : shard_in_db op.shard kv ≡ false = settled op.shard ∙ e in
          rw (e, out) (Still-refl kv)
    ]

    apply_shard-Still : Still kv (apply_shard op kv).1
    unfolding apply_shard Settled
    apply_shard-Still = elim (Bool-cases (have_shard op.shard kv)) [
      | inr e ↦ rw e (Still-refl kv)
      | inl e ↦
          let there : shard_in_db op.shard kv ≡ true = settled op.shard ∙ e in
          rw (e, there) (Still-refl kv)
    ]

  apply_config-Still :
      (op : Op) (kv : ShardKv B) → op.new_config.num ≤ kv.cfg.num → Still kv (apply_config op kv).1
  unfolding apply_config
  apply_config-Still op kv old =
      let e : ltb kv.cfg.num op.new_config.num ≡ false = ground arith in rw e (Still-refl kv)

  execute-Still : (op : Op) (kv : ShardKv B) → Ensures (Still kv) (execute op kv)
  unfolding execute
  execute-Still op kv = Ensures-after (put_inner op.shard op.clerk op.cmd_index kv.clerk_log) λ log.
      Ensures-after (write op.operation op kv.kv_db)
        λ db. value (record { cfg = refl; shards = refl; wait = refl })

  apply_request-Still :
      (op : Op) (kv : ShardKv B) → Ensures (λ r. Still kv r.1) (apply_request op kv)
  unfolding apply_request
  apply_request-Still op kv =
      Ensures-if (executed op kv) (λ e. value (Still-refl kv))
        λ e.
          Ensures-if (not (have_shard op.shard kv) || not (shard_in_db op.shard kv))
            (λ f. value (Still-refl kv))
            λ f. Ensures-bind (execute-Still op kv) λ kv' still. value still

  apply_kind-Still :
      (kind : Kind) (op : Op) (kv : ShardKv B)
      → Settled kv
      → Timely kv.cfg.num kind op
      → Ensures (λ r. Still kv r.1) (apply_kind kind op kv)
  unfolding apply_kind Timely
  apply_kind-Still new_send op kv settled t = value (apply_send-Still op kv settled)
  apply_kind-Still new_config op kv settled t = value (apply_config-Still op kv t)
  apply_kind-Still new_shard op kv settled t = value (apply_shard-Still op kv settled)
  apply_kind-Still request op kv settled t = apply_request-Still op kv
  apply_kind-Still new_leader op kv settled t = value (Still-refl kv)

  -- Commands that are applied to a server with the invariant whose waitUntilMoveDone is 0, none of
  -- them a newer configuration, run without a panic and leave the configuration, the set of shards
  -- and waitUntilMoveDone as they were, and the shards in the database the shards of the group.
  pub apply_ops-Settled :
      (ops : List Op) (kv : ShardKv B)
      → Inv kv
      → kv.wait_until_move_done ≡ pos 0
      → AllTimely kv.cfg.num ops
      → Returns (λ kv'. Still kv kv' × Settled kv') (apply_ops ops kv)
  unfolding apply_ops AllTimely apply_op
  apply_ops-Settled [] kv inv e t = returned (Still-refl kv, zero-Settled kv inv e)
  apply_ops-Settled (op ∷ ops) kv inv e (t, ts) =
      Returns-bind
        (Returns-and (apply_op-Inv op kv inv)
          (apply_kind-Still op.kind op kv (zero-Settled kv inv e) t))
        λ r (inv', still).
          let later : AllTimely r.1.cfg.num ops = rw still.cfg ts in
          Returns-mono (λ kv' (still', settled). (Still-trans still still', settled))
            (apply_ops-Settled ops r.1 inv' (still.wait ∙ e) later)
