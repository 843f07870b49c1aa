-- ===== src/KvRaft/Tests.antt =====
-- Concrete servers of src/kvraft, and the theorems at them.
use mit_raft.Base.{
  ◌%◌, ◌≡◌, ◌≢◌, refl, true, false, pos, minus_one, List, [], ◌∷◌, Option, none, some, ok, Returns,
  arith, find, insert, nat_key, string_key,
}
use mit_raft.Raft.Persister.{Codec}
use mit_raft.Raft.State.{follower, Command, Payload, ApplyMsg}
use mit_raft.Raft.Node.{fresh}
use mit_raft.KvRaft.State.{Op, GetReply, Snapshot, KvServer, executed, open_ch}
use mit_raft.KvRaft.Server.{
  write, execute, encode_snapshot, load_snapshot, time_out, close_ch, receive_new_msg, blocked,
}
use mit_raft.KvRaft.Clerk.{Clerk, get_loop, get_loop-append, get_result}
use mit_raft.KvRaft.Once.{execute_all, meaning, firsts, find-execute_all}
use mit_raft.KvRaft.Once.Snapshots.{Same, execute_all-load_snapshot}
use mit_raft.KvRaft.Channels.{
  Answered, Shut, close_ch_twice, receive_new_msg-Answered, receive_new_msg_blocked,
}

abbrev first : List Snapshot → Option Snapshot
first [] = none
first (s ∷ l) = some s

nonempty : (s : Snapshot) → s ∷ [] ≢ []
nonempty s h = cc

-- A codec whose only byte is the snapshot itself.
instance abbrev whole : Codec Snapshot Snapshot
whole = record {
  encode = λ s. s ∷ [];
  decode = first;
  decode-encode = λ s. refl;
  encode_nonempty = λ s h. nonempty s h;
}

abbrev put : Op
put = record { method = "Put"; key = "x"; value = "1"; clerk = 7; index = 1 }

abbrev add : Op
add = record { method = "Append"; key = "x"; value = "2"; clerk = 7; index = 2 }

abbrev server : KvServer Snapshot
server = record {
  me = 0;
  rf = fresh 3 0 (record { raft_state = []; snapshot = [] });
  max_raft_state = minus_one;
  clerk_log = [];
  kv_db = [];
  msg_ch = [];
  chans = [];
}

-- The append is in the log twice, and counts once.
twice : find "x" (execute_all (put ∷ add ∷ add ∷ []) server).kv_db ≡ some "12"
unfolding execute_all execute executed write find insert
twice = refl

find-execute_all_example :
    find "x" (execute_all (put ∷ add ∷ add ∷ []) server).kv_db
    ≡ meaning "x" (find "x" server.kv_db) (firsts [] (put ∷ add ∷ add ∷ []))
find-execute_all_example = find-execute_all (put ∷ add ∷ add ∷ []) server "x" refl

abbrev restarted : KvServer Snapshot
restarted = record server {
  rf =
      fresh 3 0
        (record { raft_state = []; snapshot = encode_snapshot (execute_all (put ∷ []) server) });
}

execute_all-load_snapshot_example :
    Same (execute_all (add ∷ []) (load_snapshot restarted)) (execute_all (put ∷ add ∷ []) server)
execute_all-load_snapshot_example =
    execute_all-load_snapshot (put ∷ []) (add ∷ []) server restarted refl

abbrev msg : ApplyMsg Op Snapshot
msg = record {
  command_valid = true;
  payload = Payload.command (Command.cmd put);
  command_index = 1;
  commit_term = pos 3;
  role = follower;
}

receive_new_msg-Answered_example :
    Returns
      (λ r. Answered msg put (open_ch 1 server).0 server r)
      (receive_new_msg msg (open_ch 1 server).1)
receive_new_msg-Answered_example = receive_new_msg-Answered msg put server (refl, refl)

receive_new_msg_blocked_example :
    receive_new_msg msg (time_out (open_ch 1 server).0 (open_ch 1 server).1) ≡ ok blocked
receive_new_msg_blocked_example = receive_new_msg_blocked msg put server (refl, refl)

close_ch_twice_example : Returns (Shut 5 server) (close_ch 5 (open_ch 5 (open_ch 5 server).1).1)
close_ch_twice_example = close_ch_twice 5 server

abbrev clerk : Clerk
clerk = record { servers = 3; leader = 1; me = 7; cmd_index = 4 }

abbrev reply : GetReply
reply = record { wrong_leader = false; err = "OK"; value = "12" }

abbrev refusal : GetReply
refusal = record { wrong_leader = true; err = "ErrNoKey"; value = "" }

get_loop-append_example :
    get_loop 1 (none ∷ some refusal ∷ some reply ∷ []) clerk
    ≡ some (get_result (some reply), record clerk { leader = 3 % 3 })
get_loop-append_example =
    get_loop-append (none ∷ some refusal ∷ []) reply [] 1 clerk (refl, (refl, tt)) refl
      (omega arith)
