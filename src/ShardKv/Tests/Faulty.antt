-- ===== src/ShardKv/Tests/Faulty.antt =====
-- The theorems about late commands, and those about the clerk of src/shardkv, at concrete inputs.
use mit_raft.Base.{
  ℕ, ◌≡◌, refl, true, false, pos, suc_ℤ, [], ◌∷◌, Option, some, ok, panic, ◌>>=◌, Returns, arith,
  find, present, member, nat_key, string_key, int_key,
}
use mit_raft.ShardMaster.State.{Config}
use mit_raft.ShardKv.State.{
  PushShardArgs, GetArgs, GetReply, have_shard, shard_in_db, inner, get_op, send_op, shard_op,
  no_error,
}
use mit_raft.ShardKv.Apply.{copy_map, apply_send, apply_shard}
use mit_raft.ShardKv.Server.{close_ch, finish, get_finish, message}
use mit_raft.ShardKv.Migration.{stops, send_shard, push_shard}
use mit_raft.ShardKv.Clerk.{make_clerk, get, key2shard, get_verdict, accepted, try_group}
use mit_raft.ShardKv.Faults.{get_after_send, late_send, stale_shard, close_ch_again}
use mit_raft.ShardKv.Calls.{get-Returns, get-answer, at_once, after}
use mit_raft.ShardKv.Tests.{sender, receiver, told}

abbrev get_x : GetArgs
get_x = record { key = "x"; clerk = pos 7; cmd_index = pos 2; shard = 0 }

get_after_send_example :
    get_verdict (
      some (
        get_finish get_x
          (finish (get_op get_x) (message (record { is_ok = true; op = get_op get_x })))
          (apply_send (send_op 0) sender).1))
    ≡ accepted ""
unfolding have_shard member
get_after_send_example = get_after_send get_x sender refl

late_send_example :
    (shard_in_db 0 (apply_send (send_op 0) sender).1 ≡ false)
    × ((cfg : ℕ) → send_shard 0 cfg (apply_send (send_op 0) sender).1 ≡ ok stops)
unfolding have_shard member
late_send_example = late_send 0 sender refl

abbrev old_push : PushShardArgs
old_push = record { cfg_num = 1; shard = 0; shard_db = []; clerk_log = []; gid = 3 }

abbrev new_push : PushShardArgs
new_push = record {
  cfg_num = 2;
  shard = 0;
  shard_db = ("x", "1") ∷ [];
  clerk_log = (pos 7, pos 1) ∷ [];
  gid = 1;
}

stale_shard_example :
    let kv' = (apply_shard (shard_op old_push) receiver).1 in
    (inner 0 kv'.kv_db ≡ copy_map old_push.shard_db [])
    × (push_shard new_push kv' ≡ some (record { wrong_leader = false }))
unfolding have_shard shard_in_db member present find
stale_shard_example = stale_shard old_push new_push receiver refl refl refl refl refl

close_ch_again_example : (close_ch 1 told >>= close_ch 1) ≡ panic
close_ch_again_example = close_ch_again 1 told

abbrev wide : Config
wide = record {
  num = 1;
  shards = 1 ∷ 1 ∷ 1 ∷ 1 ∷ 1 ∷ 1 ∷ 1 ∷ 1 ∷ 1 ∷ 1 ∷ [];
  groups = (1, "a" ∷ "b" ∷ []) ∷ [];
}

abbrev not_leader : Option GetReply
not_leader = some (record { wrong_leader = true; err = ""; value = "" })

abbrev found : Option GetReply
found = some (record { wrong_leader = false; err = no_error; value = "1" })

get-Returns_example :
    Returns
      (λ r. Unit {0})
      (get "x" (([], wide) ∷ (not_leader ∷ found ∷ [], wide) ∷ []) (make_clerk 7))
unfolding make_clerk
get-Returns_example =
    get-Returns "x" (([], wide) ∷ (not_leader ∷ found ∷ [], wide) ∷ []) (make_clerk 7) refl
      (refl, (refl, tt))

get-answer_example :
    get "x" (([], wide) ∷ (not_leader ∷ found ∷ [], wide) ∷ []) (make_clerk 7)
    ≡ ok (some ("1", record (make_clerk 7) { config = wide; cmd_index = pos 1 }))
unfolding make_clerk suc_ℤ key2shard try_group find get_verdict
get-answer_example =
    get-answer "x" (make_clerk 7) (([], wide) ∷ []) wide wide [] 1 ("a" ∷ "b" ∷ [])
      (not_leader ∷ []) [] found "1" (after [] refl at_once) refl refl (refl, tt) (omega arith) refl
