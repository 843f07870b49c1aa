-- ===== src/ShardMaster/Tests.antt =====
-- Concrete runs of src/shardmaster/server.go, and the theorems at them.
use mit_raft.Base.{
  Returns, ◌<◌, ◌==◌, Bool-cases, inl, inr, ℕ, ◌≡◌, refl, List, [], ◌∷◌, some, Run, ok, Ensures,
  length, get_elem?, replicate, arith, panic, ap, sym, zero, suc, find, insert, delete, true, false,
  none, ◌++◌, ◌>>=◌, pos,
}
use mit_raft.Raft.Snapshot.{store}
use mit_raft.Raft.State.{follower, Command, Payload, ApplyMsg}
use mit_raft.Raft.Node.{fresh}
use mit_raft.ShardMaster.Channels.{Server, QueryReply, zero_config, open_ch, run_round}
use mit_raft.ShardMaster.Lost.{Answered, run_round_other}
use mit_raft.ShardMaster.Clerk.{Clerk, query, try_servers, query-answer}
use mit_raft.ShardMaster.History.Twice.{Longer, run_again, run_op-run_again}
use mit_raft.ShardMaster.State.{
  join_op, leave_op, Config, Op, ShardMaster, start_server, executed, shards_of, add_config,
  get_last_cfg, set_last_cfg, last, cut,
}
use mit_raft.ShardMaster.Assign.{
  sort_group, navie_assign, assign_work, classify, trim, trim_one, give, give_all, even_out,
}
use mit_raft.ShardMaster.Server.{
  join_groups, release, leave_groups, reassign, apply_join, apply_leave, apply_operation, apply_op,
  run_op, query_config,
}
use mit_raft.ShardMaster.Assign.Buckets.{has}
use mit_raft.ShardMaster.Assign.Spread.{AreShards}
use mit_raft.ShardMaster.Assign.Returned.{Placed, Level, Capped, trim-Capped, navie_assign-Level}
use mit_raft.ShardMaster.Assign.Classify.{first_work}
use mit_raft.ShardMaster.History.{Numbered}
use mit_raft.ShardMaster.History.Queries.{
  Continues, apply_ops, apply_op-Continues, query_config-apply_ops,
}

abbrev join_both : Op
join_both = join_op ((1, "a" ∷ []) ∷ (2, "b" ∷ []) ∷ []) 7 1

abbrev join_third : Op
join_third = join_op ((3, "c" ∷ []) ∷ []) 7 2

abbrev leave_first : Op
leave_first = leave_op (1 ∷ []) 7 3

abbrev initial : ShardMaster
initial = start_server 0

initial-Numbered : Numbered initial.configs
initial-Numbered = record { nonempty = omega arith; nums = nums }
  where
    nums : (i : ℕ) (c : Config) → get_elem? initial.configs i ≡ some c → c.num ≡ i
    nums zero c h =
        let same : record { num = 0; shards = replicate 10 0; groups = [] } ≡ c = cc in
        ap (λ x. x.num) (sym same)
    nums (suc i) c h = absurd cc

abbrev sizes_of : Run ShardMaster → List ℕ
sizes_of (ok sm) = sizes sm.g2shard
  where
    sizes : List (ℕ × List ℕ) → List ℕ
    sizes [] = []
    sizes ((gid, l) ∷ m) = length l ∷ sizes m
sizes_of panic = []

-- Two groups share the ten shards, and then three.
spread :
    (sizes_of (apply_ops (join_both ∷ []) initial) ≡ 5 ∷ 5 ∷ [])
    × (sizes_of (apply_ops (join_both ∷ join_third ∷ []) initial) ≡ 3 ∷ 4 ∷ 3 ∷ [])
    × (sizes_of (apply_ops (join_both ∷ join_third ∷ leave_first ∷ []) initial) ≡ 5 ∷ 5 ∷ [])
unfolding apply_ops apply_op apply_operation apply_join apply_leave reassign join_groups
    leave_groups release navie_assign assign_work classify sort_group trim trim_one give give_all
    even_out add_config get_last_cfg set_last_cfg last cut store find insert delete
spread = (refl, refl, refl)

abbrev joined : ShardMaster
joined = record initial {
  configs =
      record { num = 0; shards = replicate 10 0; groups = [] }
      ∷ record {
        num = 1;
        shards = 1 ∷ 1 ∷ 1 ∷ 1 ∷ 1 ∷ 2 ∷ 2 ∷ 2 ∷ 2 ∷ 2 ∷ [];
        groups = (1, "a" ∷ []) ∷ (2, "b" ∷ []) ∷ [];
      }
      ∷ [];
  g2shard = (1, 0 ∷ 1 ∷ 2 ∷ 3 ∷ 4 ∷ []) ∷ (2, 5 ∷ 6 ∷ 7 ∷ 8 ∷ 9 ∷ []) ∷ [];
}

apply_op-Continues_example :
    Ensures (λ s. Continues initial.configs s.configs) (apply_op join_both initial)
apply_op-Continues_example = apply_op-Continues join_both initial initial-Numbered

query_config-apply_ops_example :
    (c : Config) × (c.num ≡ 0)
    × (query_config (pos 0) initial ≡ ok c)
    × (query_config (pos 0) joined ≡ ok c)
unfolding apply_ops apply_op apply_operation apply_join apply_leave reassign join_groups
    leave_groups release navie_assign assign_work classify sort_group trim trim_one give give_all
    even_out add_config get_last_cfg set_last_cfg last cut store find insert delete
query_config-apply_ops_example =
    query_config-apply_ops (join_both ∷ []) 0 initial joined initial-Numbered (omega arith) refl

-- The second of two groups has just joined.
abbrev uneven : ShardMaster
uneven = record joined { g2shard = (1, 0 ∷ 1 ∷ 2 ∷ 3 ∷ 4 ∷ 5 ∷ 6 ∷ 7 ∷ 8 ∷ 9 ∷ []) ∷ (2, []) ∷ [] }

uneven-Placed : Placed (1 ∷ 1 ∷ 1 ∷ 1 ∷ 1 ∷ 2 ∷ 2 ∷ 2 ∷ 2 ∷ 2 ∷ []) uneven.g2shard
unfolding find
uneven-Placed = record { distinct = (refl, (refl, tt)); room = refl; low = low; all = refl }
  where
    digits : (x : ℕ) → has x (0 ∷ 1 ∷ 2 ∷ 3 ∷ 4 ∷ 5 ∷ 6 ∷ 7 ∷ 8 ∷ 9 ∷ []) ≡ true → x < 10
    digits x h = ground arith

    low : (g : ℕ) → AreShards (shards_of g uneven.g2shard)
    low g = elim (Bool-cases (1 == g)) [
      | inl e ↦ rw (shards_of, e) digits
      | inr e ↦ elim (Bool-cases (2 == g)) [
        | inl f ↦ rw (shards_of, e, f) λ x h. absurd cc
        | inr f ↦ rw (shards_of, e, f) λ x h. absurd cc
      ]
    ]

abbrev newest_config : Config
newest_config = record {
  num = 1;
  shards = 1 ∷ 1 ∷ 1 ∷ 1 ∷ 1 ∷ 2 ∷ 2 ∷ 2 ∷ 2 ∷ 2 ∷ [];
  groups = (1, "a" ∷ []) ∷ (2, "b" ∷ []) ∷ [];
}

trim-Capped_example : Returns (Capped 5) (
    trim 11 5 (
      classify 5 uneven.g2shard
        (first_work (1 ∷ 1 ∷ 1 ∷ 1 ∷ 1 ∷ 2 ∷ 2 ∷ 2 ∷ 2 ∷ 2 ∷ []) uneven.g2shard)))
trim-Capped_example =
    trim-Capped 5 (1 ∷ 1 ∷ 1 ∷ 1 ∷ 1 ∷ 2 ∷ 2 ∷ 2 ∷ 2 ∷ 2 ∷ []) uneven.g2shard uneven-Placed

navie_assign-Level_example : Returns (Level uneven) (navie_assign uneven)
unfolding get_last_cfg last
navie_assign-Level_example = navie_assign-Level uneven newest_config refl uneven-Placed

run_op-run_again_example :
    Ensures (Longer 2 initial) (run_op join_both initial >>= run_again join_both)
unfolding executed find
run_op-run_again_example = run_op-run_again join_both initial tt initial-Numbered refl

abbrev server : Server ℕ
server = record {
  master = initial;
  rf = fresh 3 0 (record { raft_state = []; snapshot = [] });
  msg_ch = [];
  chans = [];
}

abbrev first_msg : ApplyMsg Op ℕ
first_msg = record {
  command_valid = true;
  payload = Payload.command (Command.cmd join_both);
  command_index = 4;
  commit_term = pos 2;
  role = follower;
}

run_round_other_example :
    Ensures (Answered (open_ch 4 server).0) (run_round first_msg (open_ch 4 server).1)
unfolding executed find
run_round_other_example = run_round_other 4 join_both first_msg server refl refl refl

abbrev not_leader : QueryReply
not_leader = record { wrong_leader = true; config = zero_config }

abbrev newest : QueryReply
newest = record { wrong_leader = false; config = record zero_config { num = 3 } }

abbrev clerk : Clerk
clerk = record { servers = 2; me = 7; cmd_index = 4 }

query-answer_example :
    (query ((none ∷ some not_leader ∷ []) ∷ ((none ∷ []) ++ some newest ∷ []) ∷ []) clerk).0
    ≡ some newest.config
unfolding try_servers
query-answer_example =
    query-answer clerk ((none ∷ some not_leader ∷ []) ∷ []) (none ∷ []) [] newest [] (refl, tt)
      (refl, tt) (omega arith) refl
