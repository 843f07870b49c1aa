-- ===== src/ShardMaster/Clerk.antt =====
-- src/shardmaster/client.go: the clerk. Each round of its loops calls all servers in turn; the
-- outcomes come as one list for each round, `none` for a call without a reply.
use Prim.Native.String.{String}
use mit_raft.Base.{
  ℕ, zero, suc, ◌+◌, ◌≡◌, ◌<◌, false, not, ℤ, List, [], ◌∷◌, ◌++◌, length, Option, none, some,
  if◌then◌else◌, arith,
}
use mit_raft.ShardMaster.State.{Config}
use mit_raft.ShardMaster.Channels.{JoinArgs, LeaveArgs, MoveArgs, QueryArgs, Reply, QueryReply}

-- `servers` is their number.
pub record Clerk : Type 0 where
  pub servers : ℕ
  pub me : ℕ
  pub cmd_index : ℕ

-- `me` is what nrand has drawn.
unfoldable pub make_clerk : ℕ → ℕ → Clerk
make_clerk servers me = record { servers = servers; me = me; cmd_index = 0 }

abbrev pub next_command : Clerk → Clerk
next_command ck = record ck { cmd_index = ck.cmd_index + 1 }

unfoldable pub join_args : List (ℕ × List String) → Clerk → JoinArgs
join_args servers ck = record { servers = servers; clerk = ck.me; index = ck.cmd_index + 1 }

unfoldable pub leave_args : List ℕ → Clerk → LeaveArgs
leave_args gids ck = record { gids = gids; clerk = ck.me; index = ck.cmd_index + 1 }

unfoldable pub move_args : ℕ → ℕ → Clerk → MoveArgs
move_args shard gid ck = record {
  shard = shard;
  gid = gid;
  clerk = ck.me;
  index = ck.cmd_index + 1;
}

unfoldable pub query_args : ℤ → Clerk → QueryArgs
query_args num ck = record { num = num; clerk = ck.me; index = ck.cmd_index + 1 }

-- `ok && reply.WrongLeader == false`, with what the call returns
abbrev pub reply_result : Option Reply → Option (Unit {0})
reply_result none = none
reply_result (some r) = if not r.wrong_leader then some tt else none

abbrev pub query_result : Option QueryReply → Option Config
query_result none = none
query_result (some r) = if not r.wrong_leader then some r.config else none

-- A round: the servers give a result, or none of them does, or one has yet to answer.
pub data Round (A : Type 0) : Type 0 where
  got : A → Round A
  no_luck calling : Round A

module _ {R A : Type 0} (result : Option R → Option A) where
  -- `for _, srv := range ck.servers`, with the number of servers that are left
  unfoldable pub try_servers : ℕ → List (Option R) → Round A
  try_servers zero answers = no_luck
  try_servers (suc n) [] = calling
  try_servers (suc n) (a ∷ answers) = elim (result a) [
    | some v ↦ got v
    | none ↦ try_servers n answers
  ]

  -- The loop of each method; `none` is a clerk that is still calling.
  unfoldable pub call_loop : ℕ → List (List (Option R)) → Option A
  unfolding try_servers
  call_loop servers [] = none
  call_loop servers (answers ∷ l) =
      let rest = call_loop servers l in
      elim (try_servers servers answers) [ got v ↦ some v | no_luck ↦ rest | calling ↦ none ]

-- The methods; Join, Leave and Move differ in their arguments only.
unfoldable pub query : List (List (Option QueryReply)) → Clerk → Option Config × Clerk
unfolding call_loop
query answers ck = (call_loop query_result ck.servers answers, next_command ck)

unfoldable pub command : List (List (Option Reply)) → Clerk → Option (Unit {0}) × Clerk
unfolding call_loop
command answers ck = (call_loop reply_result ck.servers answers, next_command ck)

-- All servers are called, and none gives a result.
abbrev pub Barren : {R A : Type 0} → (Option R → Option A) → ℕ → List (List (Option R)) → Type 0
Barren result servers [] = Unit
Barren result servers (answers ∷ l) =
    (try_servers result servers answers ≡ no_luck) × Barren result servers l

abbrev pub AllNone : {R A : Type 0} → (Option R → Option A) → List (Option R) → Type 0
AllNone result [] = Unit
AllNone result (a ∷ answers) = (result a ≡ none) × AllNone result answers

module _ {R A : Type 0} (result : Option R → Option A) where
  try_servers-append :
      (n : ℕ) (fails : List (Option R)) (a : Option R) (rest : List (Option R)) (v : A)
      → AllNone result fails
      → length fails < n
      → result a ≡ some v
      → try_servers result n (fails ++ a ∷ rest) ≡ got v
  unfolding try_servers
  try_servers-append zero fails a rest v failed low good = absurd (omega arith)
  try_servers-append (suc n) [] a rest v failed low good = rw good
  try_servers-append (suc n) (b ∷ fails) a rest v (bad, failed) low good =
      rw bad (try_servers-append n fails a rest v failed (omega arith) good)

  call_loop-append :
      (servers : ℕ) (bad : List (List (Option R))) (answers : List (Option R))
      (l : List (List (Option R))) (v : A)
      → Barren result servers bad
      → try_servers result servers answers ≡ got v
      → call_loop result servers (bad ++ answers ∷ l) ≡ some v
  unfolding call_loop
  call_loop-append servers [] answers l v barren good = rw (call_loop, good) (λ i. some v)
  call_loop-append servers (b ∷ bad) answers l v (first, barren) good =
      rw (call_loop, first) (call_loop-append servers bad answers l v barren good)

-- When in some rounds all servers are called and none gives a configuration, and in the next round
-- fewer servers than there are fail before one answers as the leader, then Query of the clerk ends
-- with the configuration of that answer.
pub query-answer :
    (ck : Clerk) (bad : List (List (Option QueryReply))) (fails rest : List (Option QueryReply))
    (r : QueryReply) (l : List (List (Option QueryReply)))
    → Barren query_result ck.servers bad
    → AllNone query_result fails
    → length fails < ck.servers
    → r.wrong_leader ≡ false
    → (query (bad ++ (fails ++ some r ∷ rest) ∷ l) ck).0 ≡ some r.config
unfolding query
query-answer ck bad fails rest r l barren failed low right =
    let taken : query_result (some r) ≡ some r.config = rw right in
    call_loop-append query_result ck.servers bad (fails ++ some r ∷ rest) l r.config barren
      (try_servers-append query_result ck.servers fails (some r) rest r.config failed low taken)
