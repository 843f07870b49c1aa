-- ===== src/ShardKv/Replicas.antt =====
-- src/shardkv/server.go: the part of a server that is the same at every replica of a group.
use mit_raft.Base.{
  ◌+◌, ◌≡◌, refl, ap, Bool, not, ◌&&◌, ◌||◌, pos, pred_ℤ, List, [], ◌∷◌, length, ltb, ◌==◌, inl,
  inr, insert, delete, present, member, missing, nat_key, int_key, string_key, Both, both,
  Both-bind, Both-after, Bool-cases,
}
use mit_raft.ShardKv.State.{
  Kind, request, new_config, new_shard, new_send, new_leader, Op, ShardKv, inner, logged,
  have_shard, shard_in_db, executed,
}
use mit_raft.ShardKv.Apply.{
  owned, surplus, copy_map, put_inner, write, init_all, parse_cfg, apply_send, initialize,
  apply_config, apply_shard, execute, apply_request, apply_kind, apply_op, apply_ops,
}

module _ {B : Type 0} where
  -- The same group, data, executed commands, configuration, shards and number of moves to come.
  pub record Same (a b : ShardKv B) : Type 0 where
    pub gid : a.gid ≡ b.gid
    pub db : a.kv_db ≡ b.kv_db
    pub log : a.clerk_log ≡ b.clerk_log
    pub cfg : a.cfg ≡ b.cfg
    pub shards : a.shards ≡ b.shards
    pub wait : a.wait_until_move_done ≡ b.wait_until_move_done

  -- The same answer and the same replicated part.
  abbrev pub SameResult : Bool × ShardKv B → Bool × ShardKv B → Type 0
  SameResult r t = (r.0 ≡ t.0) × Same r.1 t.1

  module _ (op : Op) (a b : ShardKv B) (s : Same a b) where
    same_have : have_shard op.shard a ≡ have_shard op.shard b
    unfolding have_shard
    same_have = ap (member op.shard) s.shards

    same_in_db : shard_in_db op.shard a ≡ shard_in_db op.shard b
    unfolding shard_in_db
    same_in_db = ap (present op.shard) s.db

    same_executed : executed op a ≡ executed op b
    unfolding executed
    same_executed = ap (λ m. logged op.clerk op.cmd_index (inner op.shard m)) s.log

    send-Same : SameResult (apply_send op a) (apply_send op b)
    unfolding apply_send
    send-Same =
        rw (same_have, same_in_db)
          (elim (Bool-cases (not (have_shard op.shard b) && shard_in_db op.shard b)) [
            | inr e ↦ rw e (refl, s)
            | inl e ↦ rw e (
              refl,
              record {
                gid = s.gid;
                db = ap (delete op.shard) s.db;
                log = ap (delete op.shard) s.log;
                cfg = s.cfg;
                shards = s.shards;
                wait = ap pred_ℤ s.wait;
              },
            )
          ])

    shard-Same : SameResult (apply_shard op a) (apply_shard op b)
    unfolding apply_shard
    shard-Same =
        rw (same_have, same_in_db)
          (elim (Bool-cases (have_shard op.shard b)) [
            | inr e ↦ rw e (refl, s)
            | inl e ↦ elim (Bool-cases (shard_in_db op.shard b)) [
              | inl f ↦ rw (e, f) (refl, s)
              | inr f ↦
                  rw (e, f)
                    (
                      refl,
                      record {
                        gid = s.gid;
                        db = ap (insert op.shard (copy_map op.new_shards.shard_db [])) s.db;
                        log = ap (insert op.shard (copy_map op.new_shards.clerk_log [])) s.log;
                        cfg = s.cfg;
                        shards = s.shards;
                        wait = ap pred_ℤ s.wait;
                      },
                    )
            ]
          ])

    execute-Same : Both Same (execute op a) (execute op b)
    unfolding execute
    execute-Same = Both-after (ap (put_inner op.shard op.clerk op.cmd_index) s.log) λ log.
        Both-after (ap (write op.operation op) s.db) λ db. both (record {
          gid = s.gid;
          db = refl;
          log = refl;
          cfg = s.cfg;
          shards = s.shards;
          wait = s.wait;
        })

    request-Same : Both SameResult (apply_request op a) (apply_request op b)
    unfolding apply_request
    request-Same =
        rw (same_executed, same_have, same_in_db)
          (elim (Bool-cases (executed op b)) [
            | inl e ↦ rw e (both (refl, s))
            | inr e ↦
                elim (Bool-cases (not (have_shard op.shard b) || not (shard_in_db op.shard b))) [
                  | inl f ↦ rw (e, f) (both (refl, s))
                  | inr f ↦ rw (e, f) (Both-bind execute-Same λ c d t. both (refl, t))
                ]
          ])

  parse_cfg-Same : (a b : ShardKv B) → Same a b → Same (parse_cfg a) (parse_cfg b)
  unfolding parse_cfg
  parse_cfg-Same a b s = record {
    gid = s.gid;
    db = s.db;
    log = s.log;
    cfg = s.cfg;
    shards = λ i. owned (s.gid i) 0 (s.cfg i).shards;
    wait = λ i.
        let held = owned (s.gid i) 0 (s.cfg i).shards in
        pos (length (surplus held (s.db i)) + length (missing held (s.db i)));
  }

  initialize-Same : (a b : ShardKv B) → Same a b → Same (initialize a) (initialize b)
  unfolding initialize
  initialize-Same a b s = record {
    gid = s.gid;
    db = λ i. init_all (s.shards i) (s.db i);
    log = λ i. init_all (s.shards i) (s.log i);
    cfg = s.cfg;
    shards = s.shards;
    wait = refl;
  }

  config-Same :
      (op : Op) (a b : ShardKv B) → Same a b → SameResult (apply_config op a) (apply_config op b)
  unfolding apply_config
  config-Same op a b s =
      let num : a.cfg.num ≡ b.cfg.num = λ i. (s.cfg i).num in
      let newer : ltb a.cfg.num op.new_config.num ≡ ltb b.cfg.num op.new_config.num =
        ap (λ n. ltb n op.new_config.num) num in
      let a' : ShardKv B = record a { cfg = op.new_config } in
      let b' : ShardKv B = record b { cfg = op.new_config } in
      let start : Same a' b' = record {
        gid = s.gid;
        db = s.db;
        log = s.log;
        cfg = refl;
        shards = s.shards;
        wait = s.wait;
      } in
      let parsed : Same (parse_cfg a') (parse_cfg b') = parse_cfg-Same a' b' start in
      rw newer (elim (Bool-cases (ltb b.cfg.num op.new_config.num)) [
        | inr e ↦ rw e (refl, s)
        | inl e ↦ elim (Bool-cases (op.new_config.num == 1)) [
          | inr f ↦ rw (e, f) (refl, parsed)
          | inl f ↦ rw (e, f) (refl, initialize-Same (parse_cfg a') (parse_cfg b') parsed)
        ]
      ])

  kind-Same :
      (kind : Kind) (op : Op) (a b : ShardKv B)
      → Same a b
      → Both SameResult (apply_kind kind op a) (apply_kind kind op b)
  unfolding apply_kind
  kind-Same new_send op a b s = both (send-Same op a b s)
  kind-Same new_config op a b s = both (config-Same op a b s)
  kind-Same new_shard op a b s = both (shard-Same op a b s)
  kind-Same request op a b s = request-Same op a b s
  kind-Same new_leader op a b s = both (refl, s)

  -- If two servers of a group have the same data, clerk logs, configuration, shards and
  -- waitUntilMoveDone, then after the same commands they have the same again, or both panic,
  -- whatever the leader, the lists of shards to send, the channels and the peers.
  pub apply_ops-Same :
      (ops : List Op) (a b : ShardKv B) → Same a b → Both Same (apply_ops ops a) (apply_ops ops b)
  unfolding apply_ops apply_op
  apply_ops-Same [] a b s = both s
  apply_ops-Same (op ∷ ops) a b s =
      Both-bind (kind-Same op.kind op a b s) λ r t (answer, same). apply_ops-Same ops r.1 t.1 same
