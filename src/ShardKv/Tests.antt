-- ===== src/ShardKv/Tests.antt =====
-- Concrete servers of src/shardkv, and the theorems at them.
mod Faulty
use Prim.Native.String.{String}
use mit_raft.Base.{
  ℕ, suc, ◌+◌, ◌≡◌, ◌≢◌, ◌↔◌, refl, Bool, true, false, pos, minus_one, suc_ℤ, pred_ℤ, List, [], ◌∷◌,
  Option, none, some, Run, ok, panic, ◌>>=◌, Returns, Returns-ok, Ensures, Both, arith, find,
  insert, delete, present, member, missing, nat_key, string_key, int_key,
}
use mit_raft.Raft.Persister.{Codec, Persister}
use mit_raft.Raft.State.{follower, Command, Payload, ApplyMsg}
use mit_raft.Raft.Role.{Saved}
use mit_raft.Raft.Node.{fresh}
use mit_raft.ShardMaster.State.{Config}
use mit_raft.ShardKv.State.{
  Method, put, append, request, Op, NewShards, no_config, no_shards, Snapshot, ShardKv,
  PushShardArgs, GetArgs, GetReply, Chan, MsgInCh, have_shard, shard_in_db, executed, inner, or_nil,
  logged, get_op, config_op, leader_op, send_op, shard_op, open_ch, no_error,
}
use mit_raft.ShardKv.Apply.{
  owned, surplus, init_all, put_inner, write, copy_map, parse_cfg, initialize, apply_send,
  apply_config, apply_shard, apply_request, execute, apply_kind, apply_op, apply_ops,
}
use mit_raft.ShardKv.Server.{register, close_ch, finish, get_finish, message}
use mit_raft.ShardKv.Run.{
  fresh_server, encode_snapshot, start_server, run_round, went_on, check_state, notify,
}
use mit_raft.ShardKv.Migration.{offers, stops, push_args, send_shard, push_shard}
use mit_raft.ShardKv.Clerk.{Clerk, make_clerk, get, key2shard, get_verdict, accepted, try_group}
use mit_raft.ShardKv.Invariant.{Inv}
use mit_raft.ShardKv.Invariant.Steps.{apply_op-Inv}
use mit_raft.ShardKv.Settled.{Settled}
use mit_raft.ShardKv.Settled.Reached.{Reach-Settled}
use mit_raft.ShardKv.Settled.Stays.{Still, AllTimely, apply_ops-Settled}
use mit_raft.ShardKv.Handoff.{Moved, send_shard-Moved}
use mit_raft.ShardKv.Once.{AllKeep}
use mit_raft.ShardKv.Once.Again.{apply_op_again}
use mit_raft.ShardKv.Replicas.{Same, apply_ops-Same}
use mit_raft.ShardKv.Restore.{start_server-Same}
use mit_raft.ShardKv.Channels.Rounds.{Ready, run_round-Ready}
use mit_raft.ShardKv.Events.{Reach, started, moved, applied, registers, applies, step}
use mit_raft.ShardKv.Events.Reachable.{Reach-Ready}
use mit_raft.ShardKv.Faults.{get_after_send, late_send, stale_shard, close_ch_again}
use mit_raft.ShardKv.Calls.{get-Returns, get-answer, at_once, after}

-- What is stored: a snapshot of the service, or the state of the peer.
pub data Byte : Type 0 where
  of_service : Snapshot → Byte
  of_peer : Saved Op → Byte

abbrev snapshot_of : List Byte → Option Snapshot
snapshot_of [] = none
snapshot_of (of_service s ∷ l) = some s
snapshot_of (of_peer s ∷ l) = none

abbrev saved_of : List Byte → Option (Saved Op)
saved_of [] = none
saved_of (of_service s ∷ l) = none
saved_of (of_peer s ∷ l) = some s

nonempty {ℓ} : {A : Type ℓ} (a : A) → a ∷ [] ≢ []
nonempty a h = cc

instance abbrev service_codec : Codec Snapshot Byte
service_codec = record {
  encode = λ s. of_service s ∷ [];
  decode = snapshot_of;
  decode-encode = λ s. refl;
  encode_nonempty = λ s h. nonempty (of_service s) h;
}

instance abbrev peer_codec : Codec (Saved Op) Byte
peer_codec = record {
  encode = λ s. of_peer s ∷ [];
  decode = saved_of;
  decode-encode = λ s. refl;
  encode_nonempty = λ s h. nonempty (of_peer s) h;
}

-- Two shards; the second configuration moves the first one from group 1 to group 2.
abbrev first_config : Config
first_config = record { num = 1; shards = 1 ∷ 1 ∷ []; groups = (1, "a" ∷ []) ∷ (2, "b" ∷ []) ∷ [] }

abbrev second_config : Config
second_config = record { num = 2; shards = 2 ∷ 1 ∷ []; groups = (1, "a" ∷ []) ∷ (2, "b" ∷ []) ∷ [] }

abbrev new_server : ℕ → ShardKv Byte
new_server gid =
    fresh_server 0 (fresh 3 0 (record { raft_state = []; snapshot = [] })) minus_one gid

abbrev add : Op
add = record {
  kind = request;
  shard = 0;
  operation = append;
  key = "x";
  value = "1";
  clerk = pos 7;
  cmd_index = pos 1;
  new_config = no_config;
  new_shards = no_shards;
}

nonzero : (n : ℕ) → suc n ≢ 0
nonzero n e = absurd (omega arith)

new_server-Ready : Ready 1 1 (new_server 1)
new_server-Ready = Reach-Ready 1 1 (new_server 1) (nonzero 0) (started 0 _ minus_one)

abbrev after_first : ShardKv Byte
after_first = record (new_server 1) {
  cfg = first_config;
  shards = 0 ∷ 1 ∷ [];
  kv_db = (0, []) ∷ (1, []) ∷ [];
  clerk_log = (0, []) ∷ (1, []) ∷ [];
}

first_applied : apply_op (config_op first_config) (new_server 1) ≡ ok (true, after_first)
unfolding apply_op parse_cfg initialize owned surplus missing present find insert init_all member
first_applied = refl

abbrev config_msg : ApplyMsg Op Byte
config_msg = record {
  command_valid = true;
  payload = Payload.command (Command.cmd (config_op first_config));
  command_index = 1;
  commit_term = pos 1;
  role = follower;
}

abbrev waiting : ShardKv Byte
waiting = record (new_server 1) { msg_ch = (1, 0) ∷ []; chans = Chan.vacant ∷ [] }

abbrev pub told : ShardKv Byte
told = record after_first {
  msg_ch = (1, 0) ∷ [];
  chans = Chan.holding (record { is_ok = true; op = config_op first_config }) ∷ [];
}

registered : step (registers 1 true) (new_server 1) ≡ ok (some waiting)
unfolding step open_ch insert
registered = refl

round_done : step (applies config_msg) waiting ≡ ok (some told)
unfolding step apply_op parse_cfg initialize owned surplus missing present find insert init_all
    member run_round notify check_state
round_done = refl

told-Reach : Reach 1 2 told
told-Reach =
    applied config_msg (moved (registers 1 true) (started 0 _ minus_one) tt registered)
      (record { op = config_op first_config; valid = refl; payload = refl; at = refl }) round_done

Reach-Ready_example : Ready 1 2 told
Reach-Ready_example = Reach-Ready 1 2 told (nonzero 0) told-Reach

run_round-Ready_example :
    Returns
      (λ r. (kv' : ShardKv Byte) × (r ≡ went_on kv' (check_state 1 (pos 1) kv')) × Ready 1 2 kv')
      (run_round config_msg (new_server 1))
run_round-Ready_example =
    run_round-Ready 1 1 (config_op first_config) config_msg (new_server 1) new_server-Ready refl
      refl refl

after_first-Inv : Inv after_first
after_first-Inv =
    Returns-ok (true, after_first)
      (apply_op-Inv (config_op first_config) (new_server 1) new_server-Ready.0) first_applied

Reach-Settled_example : (told.wait_until_move_done ≡ pos 0) ↔ Settled told
Reach-Settled_example = Reach-Settled 1 2 told (nonzero 0) told-Reach

apply_ops-Settled_example :
    Returns
      (λ kv'. Still after_first kv' × Settled kv')
      (apply_ops (add ∷ send_op 0 ∷ config_op first_config ∷ []) after_first)
unfolding AllTimely
apply_ops-Settled_example =
    apply_ops-Settled (add ∷ send_op 0 ∷ config_op first_config ∷ []) after_first after_first-Inv
      refl (tt, (tt, (omega arith, tt)))

abbrev after_add : ShardKv Byte
after_add = record after_first {
  kv_db = (0, ("x", "1") ∷ []) ∷ (1, []) ∷ [];
  clerk_log = (0, (pos 7, pos 1) ∷ []) ∷ (1, []) ∷ [];
}

added : apply_op add after_first ≡ ok (true, after_add)
unfolding apply_op executed logged have_shard shard_in_db member present find insert execute
    put_inner write
added = refl

apply_op_again_example :
    Returns
      (λ last. apply_op add last ≡ ok (true, last))
      (apply_ops (config_op second_config ∷ send_op 1 ∷ []) after_add)
unfolding AllKeep
apply_op_again_example =
    apply_op_again add (config_op second_config ∷ send_op 1 ∷ []) after_first after_add
      after_first-Inv refl added (tt, (refl, tt))

-- Group 1 as the leader sees it in the second configuration, with the first shard to send.
abbrev pub sender : ShardKv Byte
sender = record after_add {
  cfg = second_config;
  shards = 1 ∷ [];
  shard_to_send = 0 ∷ [];
  leader = true;
  wait_until_move_done = pos 1;
}

abbrev pub receiver : ShardKv Byte
receiver = record (new_server 2) {
  cfg = second_config;
  shards = 0 ∷ [];
  leader = true;
  wait_until_move_done = pos 1;
}

send_shard-Moved_example :
    Returns
      (λ r.
        (r.0 ≡ true)
        × Moved 0 sender r.1 receiver
        × ((q : Op)
            → q.kind ≡ request
            → q.shard ≡ 0
            → executed q sender ≡ true
            → apply_op q r.1 ≡ ok (true, r.1)))
      (apply_op (shard_op (push_args 0 2 sender)) receiver)
unfolding send_shard shard_in_db present find have_shard member
send_shard-Moved_example =
    send_shard-Moved 0 2 (push_args 0 2 sender) ("b" ∷ []) sender receiver refl refl refl

sender-Same : Same (record sender { leader = false; shard_to_send = [] }) sender
sender-Same = record { gid = refl; db = refl; log = refl; cfg = refl; shards = refl; wait = refl }

apply_ops-Same_example :
    Both Same
      (apply_ops (add ∷ send_op 0 ∷ []) (record sender { leader = false; shard_to_send = [] }))
      (apply_ops (add ∷ send_op 0 ∷ []) sender)
apply_ops-Same_example =
    apply_ops-Same (add ∷ send_op 0 ∷ []) (record sender { leader = false; shard_to_send = [] })
      sender sender-Same

start_server-Same_example :
    Ensures
      (λ kv. Same kv after_first × Inv kv × (kv.msg_ch ≡ []) × (kv.chans ≡ []))
      (start_server 3 0
        (record { raft_state = []; snapshot = encode_snapshot after_first })
        minus_one
        1)
start_server-Same_example =
    start_server-Same 3 0 (record { raft_state = []; snapshot = encode_snapshot after_first })
      minus_one after_first after_first-Inv refl
