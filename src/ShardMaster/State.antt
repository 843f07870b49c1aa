-- ===== src/ShardMaster/State.antt =====
-- src/shardmaster/common.go and server.go: configurations, commands and the state of a
-- ShardMaster. The order of a map's pairs is the order in which Go's `range` visits them.
use Prim.Native.String.{String}
use mit_raft.Base.{
  ℕ, ◌+◌, ◌-◌, Bool, false, ℤ, pos, List, [], ◌∷◌, ◌++◌, none, some, length, set, take, replicate,
  leb, find, nat_key, Run, ok, panic, ◌>>=◌,
}

-- `NShards`
abbrev pub n_shards : ℕ
n_shards = 10

-- `shards` is the array from shards to groups; group 0 is none.
pub record Config : Type 0 where
  pub num : ℕ
  pub shards : List ℕ
  pub groups : List (ℕ × List String)

pub data Operation : Type 0 where
  join leave move query : Operation

pub record Op : Type 0 where
  pub clerk : ℕ
  pub cmd_index : ℕ
  pub operation : Operation
  pub servers : List (ℕ × List String)
  pub gids : List ℕ
  pub shard : ℕ
  pub query_num : ℤ

-- The commands that the handlers Join, Leave, Move and Query make of their arguments.
abbrev pub join_op : List (ℕ × List String) → ℕ → ℕ → Op
join_op servers clerk index = record {
  clerk = clerk;
  cmd_index = index;
  operation = join;
  servers = servers;
  gids = [];
  shard = 0;
  query_num = pos 0;
}

abbrev pub leave_op : List ℕ → ℕ → ℕ → Op
leave_op gids clerk index = record {
  clerk = clerk;
  cmd_index = index;
  operation = leave;
  servers = [];
  gids = gids;
  shard = 0;
  query_num = pos 0;
}

abbrev pub move_op : ℕ → ℕ → ℕ → ℕ → Op
move_op shard gid clerk index = record {
  clerk = clerk;
  cmd_index = index;
  operation = move;
  servers = [];
  gids = gid ∷ [];
  shard = shard;
  query_num = pos 0;
}

abbrev pub query_op : ℤ → ℕ → ℕ → Op
query_op num clerk index = record {
  clerk = clerk;
  cmd_index = index;
  operation = query;
  servers = [];
  gids = [];
  shard = 0;
  query_num = num;
}

pub record ShardMaster : Type 0 where
  pub me : ℕ
  pub configs : List Config
  pub g2shard : List (ℕ × List ℕ)
  pub clerk_log : List (ℕ × ℕ)

-- The state that StartServer makes.
abbrev pub start_server : ℕ → ShardMaster
start_server me = record {
  me = me;
  configs = record { num = 0; shards = replicate n_shards 0; groups = [] } ∷ [];
  g2shard = [];
  clerk_log = [];
}

-- `ind, ok := sm.clerkLog[clerk]; ok && ind >= index`
unfoldable pub executed : ℕ → ℕ → ShardMaster → Bool
executed clerk index sm = elim (find clerk sm.clerk_log) [ none ↦ false | some ind ↦ leb index ind ]

-- `sm.g2shard[gid]`, which is nil for a missing group
abbrev pub shards_of : ℕ → List (ℕ × List ℕ) → List ℕ
shards_of gid m = elim (find gid m) [ none ↦ [] | some l ↦ l ]

-- `l[len(l)-1]`
unfoldable pub last {ℓ} : {A : Type ℓ} → List A → Run A
last [] = panic
last (x ∷ []) = ok x
last (x ∷ y ∷ l) = last (y ∷ l)

-- `l[:len(l)-1]`, after `last` has not panicked
unfoldable pub cut {ℓ} : {A : Type ℓ} → List A → List A
cut l = take (length l - 1) l

unfoldable pub get_last_cfg : ShardMaster → Run Config
unfolding last
get_last_cfg sm = last sm.configs

-- What is written through the pointer that getLastCfg returns.
unfoldable pub set_last_cfg : Config → ShardMaster → ShardMaster
set_last_cfg cfg sm = record sm { configs = set sm.configs (length sm.configs - 1) cfg }

unfoldable pub add_config : ShardMaster → Run ShardMaster
unfolding get_last_cfg
add_config sm = do
  old ← get_last_cfg sm
  ok (record sm { configs = sm.configs ++ record old { num = old.num + 1 } ∷ [] })
