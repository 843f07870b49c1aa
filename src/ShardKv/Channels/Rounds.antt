-- ===== src/ShardKv/Channels/Rounds.antt =====
-- src/shardkv/server.go: runs of a server, in any interleaving of executeOp, run and closeCh.
use mit_raft.Base.{
  ℕ, ◌+◌, ◌≡◌, refl, ◌∙◌, Bool, true, not, ◌&&◌, ◌||◌, List, some, set, get_elem?, ltb, ◌==◌, inl,
  inr, find, nat_key, int_key, Ensures, value, Ensures-if, Ensures-bind, Ensures-after, Returns,
  returned, Returns-bind, Returns-and, arith, Option-cases, Bool-cases,
}
use mit_raft.ShardKv.State.{
  Kind, request, new_config, new_shard, new_send, new_leader, Op, MsgInCh, Chan, ShardKv,
  have_shard, shard_in_db, executed,
}
use mit_raft.ShardKv.Apply.{
  put_inner, write, parse_cfg, apply_send, initialize, apply_config, apply_shard, execute,
  apply_request, apply_kind, apply_op,
}
use mit_raft.ShardKv.Run.{notify}
use mit_raft.Raft.Persister.{Codec}
use mit_raft.Raft.State.{Raft, Command, Payload, ApplyMsg}
use mit_raft.ShardKv.State.{Snapshot}
use mit_raft.ShardKv.Run.{went_on, check_state, answered, run_round}
use mit_raft.ShardKv.Invariant.{Inv}
use mit_raft.ShardKv.Invariant.Steps.{apply_op-Inv}
use mit_raft.ShardKv.Channels.{Clear, Clear-suc, Clear-sent}

module _ {B : Type 0} where
  -- The two servers have the same channels and are of the same group.
  abbrev SameChans : ShardKv B → ShardKv B → Type 0
  SameChans kv kv' = (kv'.msg_ch ≡ kv.msg_ch) × (kv'.chans ≡ kv.chans) × (kv'.gid ≡ kv.gid)

  send-SameChans : (op : Op) (kv : ShardKv B) → SameChans kv (apply_send op kv).1
  unfolding apply_send
  send-SameChans op kv =
      elim (Bool-cases (not (have_shard op.shard kv) && shard_in_db op.shard kv)) [
        | inl e ↦ rw e (refl, refl, refl)
        | inr e ↦ rw e (refl, refl, refl)
      ]

  config-SameChans : (op : Op) (kv : ShardKv B) → SameChans kv (apply_config op kv).1
  unfolding apply_config parse_cfg initialize
  config-SameChans op kv = elim (Bool-cases (ltb kv.cfg.num op.new_config.num)) [
    | inr e ↦ rw e (refl, refl, refl)
    | inl e ↦ elim (Bool-cases (op.new_config.num == 1)) [
      | inl f ↦ rw (e, f) (refl, refl, refl)
      | inr f ↦ rw (e, f) (refl, refl, refl)
    ]
  ]

  shard-SameChans : (op : Op) (kv : ShardKv B) → SameChans kv (apply_shard op kv).1
  unfolding apply_shard
  shard-SameChans op kv = elim (Bool-cases (have_shard op.shard kv)) [
    | inr e ↦ rw e (refl, refl, refl)
    | inl e ↦ elim (Bool-cases (shard_in_db op.shard kv)) [
      | inl f ↦ rw (e, f) (refl, refl, refl)
      | inr f ↦ rw (e, f) (refl, refl, refl)
    ]
  ]

  request-SameChans :
      (op : Op) (kv : ShardKv B) → Ensures (λ r. SameChans kv r.1) (apply_request op kv)
  unfolding apply_request execute
  request-SameChans op kv =
      Ensures-if (executed op kv) (λ e. value (refl, refl, refl))
        λ e.
          Ensures-if (not (have_shard op.shard kv) || not (shard_in_db op.shard kv))
            (λ f. value (refl, refl, refl))
            λ f.
              Ensures-bind {P = SameChans kv}
                (Ensures-after (put_inner op.shard op.clerk op.cmd_index kv.clerk_log) λ log.
                  Ensures-after (write op.operation op kv.kv_db) λ db. value (refl, refl, refl))
                λ kv' same. value same

  kind-SameChans :
      (kind : Kind) (op : Op) (kv : ShardKv B)
      → Ensures (λ r. SameChans kv r.1) (apply_kind kind op kv)
  unfolding apply_kind
  kind-SameChans new_send op kv = value (send-SameChans op kv)
  kind-SameChans new_config op kv = value (config-SameChans op kv)
  kind-SameChans new_shard op kv = value (shard-SameChans op kv)
  kind-SameChans request op kv = request-SameChans op kv
  kind-SameChans new_leader op kv = value (refl, refl, refl)

  applied-SameChans : (op : Op) (kv : ShardKv B) → Ensures (λ r. SameChans kv r.1) (apply_op op kv)
  unfolding apply_op
  applied-SameChans op kv = kind-SameChans op.kind op kv

  pub channels_only :
      (kv : ShardKv B)
      → Inv kv
      → (msg_ch : List (ℕ × ℕ)) (chans : List Chan)
      → Inv (record kv { msg_ch = msg_ch; chans = chans })
  channels_only kv inv msg_ch chans = record {
    held = inv.held;
    keys = inv.keys;
    logs = inv.logs;
    counted = inv.counted;
    fresh = inv.fresh;
  }

  pub leader_only : (kv : ShardKv B) → Inv kv → (b : Bool) → Inv (record kv { leader = b })
  leader_only kv inv b = record {
    held = inv.held;
    keys = inv.keys;
    logs = inv.logs;
    counted = inv.counted;
    fresh = inv.fresh;
  }

  pub rf_only : (kv : ShardKv B) → Inv kv → (rf : Raft Op B) → Inv (record kv { rf = rf })
  rf_only kv inv rf = record {
    held = inv.held;
    keys = inv.keys;
    logs = inv.logs;
    counted = inv.counted;
    fresh = inv.fresh;
  }

  -- The next index of a command is `n`, and the group is `g`.
  abbrev pub Ready : ℕ → ℕ → ShardKv B → Type 0
  Ready g n kv = Inv kv × Clear n kv.msg_ch kv.chans × (kv.gid ≡ g)

  notify-Ready :
      (g n : ℕ) (m : MsgInCh) (kv : ShardKv B)
      → Ready g n kv
      → Returns (λ o. (kv' : ShardKv B) × (o ≡ some kv') × Ready g (n + 1) kv') (notify n m kv)
  unfolding notify
  notify-Ready g n m kv (inv, clear, group) = elim (Option-cases (find n kv.msg_ch)) [
    | inl e ↦
        rw (notify, e) (returned (kv, refl, (inv, Clear-suc n kv.msg_ch kv.chans clear, group)))
    | inr (ch, e) ↦
        let empty : get_elem? kv.chans ch ≡ some Chan.vacant = clear.vacant n ch e (omega arith) in
        rw (notify, e, empty)
          (returned (
            record kv { chans = set kv.chans ch (Chan.holding m) },
            refl,
            (
              channels_only kv inv kv.msg_ch (set kv.chans ch (Chan.holding m)),
              Clear-sent n kv.msg_ch kv.chans clear ch (Chan.holding m) e,
              group,
            ),
          ))
  ]

  module _ ⦃snap : Codec Snapshot B⦄ where
    -- A round of run with the command of the next index, in a server with the invariant whose
    -- channels from that index on are empty and open and are different for different indices, does
    -- not panic and does not wait in its send; it goes on, with the snapshot of checkState if one
    -- is due, and the same holds for the index after it.
    pub run_round-Ready :
        (g n : ℕ) (op : Op) (msg : ApplyMsg Op B) (kv : ShardKv B)
        → Ready g n kv
        → msg.command_valid ≡ true
        → msg.payload ≡ Payload.command (Command.cmd op)
        → msg.command_index ≡ n
        → Returns
            (λ r.
              (kv' : ShardKv B) × (r ≡ went_on kv' (check_state n msg.commit_term kv'))
              × Ready g (n + 1) kv')
            (run_round msg kv)
    unfolding run_round answered
    run_round-Ready g n op msg kv (inv, clear, group) valid payload at =
        rw (valid, payload, at)
          (Returns-bind (Returns-and (apply_op-Inv op kv inv) (applied-SameChans op kv))
            λ r (inv', (same_ch, same_chans, same_group)).
              let clear' : Clear n r.1.msg_ch r.1.chans = rw (same_ch, same_chans) clear in
              Returns-bind
                (notify-Ready g n (record { is_ok = r.0; op = op }) r.1
                  (inv', clear', same_group ∙ group))
                λ o (kv', e, ready). rw e (returned (kv', refl, ready)))
