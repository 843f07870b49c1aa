-- ===== src/ShardKv/Events/Reachable.antt =====
-- src/shardkv/server.go: the states that a server can come to.
use mit_raft.Base.{
  ℕ, ◌+◌, ◌≡◌, refl, sym, ap, ◌∙◌, subst, ◌≢◌, returned, Returns-bind, false, ℤ, Option, some,
  nat_key, ok, Ensures, value, Ensures-bind, Ensures-after, Ensures-ok, Returns-ok, Returns,
}
use mit_raft.Raft.Persister.{Codec, Persister}
use mit_raft.Raft.State.{Payload, ApplyMsg}
use mit_raft.Raft.Role.{Saved}
use mit_raft.Raft.Node.{start}
use mit_raft.Raft.Node as Node
use mit_raft.ShardKv.State.{Op, Snapshot, ShardKv}
use mit_raft.ShardKv.Apply.{parse_cfg}
use mit_raft.ShardKv.Server.{convert_to_leader}
use mit_raft.ShardKv.Run.{
  encode_snapshot, decoded_snapshot, run_round, submit, snapshot_taken, start_server,
}
use mit_raft.ShardKv.Invariant.{Inv}
use mit_raft.ShardKv.Restore.{decoded_snapshot-Same}
use mit_raft.ShardKv.Channels.{Clear}
use mit_raft.ShardKv.Channels.Rounds.{Ready, leader_only, rf_only, run_round-Ready}
use mit_raft.ShardKv.Restore.{with_data_of, decode-encode, start_server-Same}
use mit_raft.Raft.Snapshot.{take_snapshot}
use mit_raft.ShardKv.Events.{
  Event, submits, converts, leads, registers, receives, closes, applies, snaps, peer, step, Quiet,
  IsCommand, Reach, started, moved, applied, overtaken, restarted,
}
use mit_raft.ShardKv.Events.Keeps.{
  no_channels, fresh-Ready, register-Ready, receive-Ready, close_ch-Ready, new_leader_done-Ready,
}

module _ {B : Type 0} where
  module _ ⦃gob : Codec (Saved Op) B⦄ ⦃snap : Codec Snapshot B⦄ where
    -- Whatever the event gives, it gives a server that is ready.
    abbrev StaysReady : ℕ → ℕ → Option (ShardKv B) → Type 0
    StaysReady g n o = (kv : ShardKv B) → o ≡ some kv → Ready g n kv

    same_server : (g n : ℕ) (kv : ShardKv B) → Ready g n kv → StaysReady g n (some kv)
    same_server g n kv ready kv' e = let same : kv ≡ kv' = cc in subst (Ready g n) same ready

    step-Ready :
        (g n : ℕ) (e : Event B) (kv : ShardKv B)
        → Ready g n kv
        → Quiet e
        → Ensures (StaysReady g n) (step e kv)
    unfolding step submit convert_to_leader snapshot_taken
    step-Ready g n (submits op) kv (inv, clear, group) q =
        value (same_server g n _ (rf_only kv inv _, clear, group))
    step-Ready g n (converts b) kv (inv, clear, group) q =
        value (same_server g n _ (leader_only kv inv b, clear, group))
    step-Ready g n (leads result) kv ready q =
        value (same_server g n _ (new_leader_done-Ready g n result kv ready))
    step-Ready g n (registers index is_leader) kv ready q =
        value (same_server g n _ (register-Ready g n index is_leader kv ready))
    step-Ready g n (receives ch) kv ready q =
        value (same_server g n _ (receive-Ready g n ch kv ready))
    step-Ready g n (closes index) kv ready q =
        Ensures-bind (close_ch-Ready g n index kv ready)
          λ kv' ready'. value (same_server g n kv' ready')
    step-Ready g n (applies msg) kv ready q = elim q [ ]
    step-Ready g n (snaps raw index term) kv (inv, clear, group) q =
        Ensures-bind {P = Ready g n}
          (Ensures-after (take_snapshot raw index term kv.rf)
            λ rf. value (rf_only kv inv rf, clear, group))
          λ kv' ready. value (same_server g n kv' ready)
    step-Ready g n (peer e) kv (inv, clear, group) q =
        Ensures-after (Node.step kv.rf e)
          λ rf. value (same_server g n _ (rf_only kv inv rf, clear, group))

    command-Ready :
        (g n : ℕ) (msg : ApplyMsg Op B) (kv kv' : ShardKv B)
        → Ready g n kv
        → IsCommand n msg
        → step (applies msg) kv ≡ ok (some kv')
        → Ready g (n + 1) kv'
    unfolding step
    command-Ready g n msg kv kv' ready c e =
        let round : Returns (StaysReady g (n + 1)) (step (applies msg) kv) =
          Returns-bind (run_round-Ready g n c.op msg kv ready c.valid c.payload c.at)
            λ r (next, same, ready'). rw same (returned (same_server g (n + 1) next ready')) in
        Returns-ok (some kv') round e kv' refl

    overtaken-Ready :
        (g n : ℕ) (kv from : ShardKv B)
        → Ready g n kv
        → Inv from
        → from.gid ≡ g
        → Ready g n (parse_cfg (decoded_snapshot (encode_snapshot from) kv))
    unfolding parse_cfg
    overtaken-Ready g n kv from (inv, clear, group) inv_from group_from =
        let inv' : Inv (parse_cfg (decoded_snapshot (encode_snapshot from) kv)) =
          (decoded_snapshot-Same from kv inv_from (group ∙ sym group_from)).1 in
        let same : decoded_snapshot (encode_snapshot from) kv ≡ with_data_of from kv =
          decode-encode from kv in
        (
          inv',
          subst (λ (t : ShardKv B). Clear n t.msg_ch t.chans) (sym same) clear,
          ap (λ (t : ShardKv B). t.gid) same ∙ group,
        )

    snapshot-Ready :
        (g n : ℕ) (msg : ApplyMsg Op B) (kv from kv' : ShardKv B)
        → Ready g n kv
        → Inv from
        → from.gid ≡ g
        → msg.command_valid ≡ false
        → msg.payload ≡ Payload.snapshot (encode_snapshot from)
        → step (applies msg) kv ≡ ok (some kv')
        → Ready g n kv'
    unfolding step run_round
    snapshot-Ready g n msg kv from kv' (inv, clear, group) inv_from group_from snapshot payload e =
        let round : Ensures (StaysReady g n) (step (applies msg) kv) =
          rw (snapshot, payload)
            (value (
              same_server g n _
                (overtaken-Ready g n kv from (inv, clear, group) inv_from group_from))) in
        Ensures-ok (some kv') round e kv' refl

    restarted-Ready :
        (g n peers me : ℕ) (ps : Persister B) (max_raft_state : ℤ) (from kv : ShardKv B)
        → Inv from
        → from.gid ≡ g
        → ps.snapshot ≡ encode_snapshot from
        → start_server peers me ps max_raft_state g ≡ ok kv
        → Ready g n kv
    restarted-Ready g n peers me ps max_raft_state from kv inv group stored run =
        let run' : start_server peers me ps max_raft_state from.gid ≡ ok kv =
          ap (start_server peers me ps max_raft_state) group ∙ run in
        let (same, inv', no_ch, no_chans) =
          Ensures-ok kv (start_server-Same peers me ps max_raft_state from inv stored) run' in
        (inv', rw (no_ch, no_chans) (no_channels n), same.gid ∙ group)

    -- In a group whose number is not 0, every server that can come about, from a new server or a
    -- restart with a snapshot of such a server, by any events, by commands with consecutive
    -- indices and by snapshots of such servers, satisfies the invariant: the shards are those that
    -- the configuration gives the group, the same shards have a database and a clerk log, no shard
    -- stands twice in the database, waitUntilMoveDone counts the shards that have to leave or to
    -- come, and with configuration 0 there are no shards and no data. Its channels for the
    -- commands to come are empty and open, different indices have different channels, and its
    -- group is the given one.
    pub Reach-Ready : (g n : ℕ) (kv : ShardKv B) → g ≢ 0 → Reach g n kv → Ready g n kv
    Reach-Ready g _ _ nonzero (started me rf max_raft_state) =
        fresh-Ready g me rf max_raft_state nonzero
    Reach-Ready g n kv' nonzero (moved {kv} e reach quiet run) =
        Ensures-ok (some kv') (step-Ready g n e kv (Reach-Ready g n kv nonzero reach) quiet) run kv'
          refl
    Reach-Ready g _ kv' nonzero (applied {n} {kv} msg reach command run) =
        command-Ready g n msg kv kv' (Reach-Ready g n kv nonzero reach) command run
    Reach-Ready g n kv' nonzero (overtaken {m} {kv} {from} msg reach source snapshot payload run) =
        let (inv, clear, group) = Reach-Ready g m from nonzero source in
        snapshot-Ready g n msg kv from kv' (Reach-Ready g n kv nonzero reach) inv group snapshot
          payload run
    Reach-Ready g n kv nonzero (restarted {m} {from} peers me ps max_raft_state source stored run) =
        let (inv, clear, group) = Reach-Ready g m from nonzero source in
        restarted-Ready g n peers me ps max_raft_state from kv inv group stored run
