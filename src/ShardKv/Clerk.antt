-- ===== src/ShardKv/Clerk.antt =====
-- src/shardkv/client.go: the clerk. The outcomes of its calls come as lists, `none` for a call
-- without a reply; a loop that comes to the end of its list is still calling.
use Prim.Native.Char.{code}
use Prim.Native.String.{String}
use mit_raft.Base.{
  ℕ, ◌+◌, ◌/◌, ◌%◌, not, ◌&&◌, ◌||◌, ℤ, pos, suc_ℤ, List, [], ◌∷◌, Option, none, some, get_elem?,
  ltb, if◌then◌else◌, find, nat_key, same_text, Run, ok, ◌>>=◌, or_panic,
}
use mit_raft.ShardMaster.State.{Config, n_shards}
use mit_raft.ShardKv.State.{
  GetArgs, GetReply, PutAppendArgs, PutAppendReply, no_config, no_error, err_no_key,
  err_wrong_group,
}

-- The first byte of a character in UTF-8.
unfoldable pub lead_byte : ℕ → ℕ
lead_byte c =
    if ltb c 0x80
    then c
    else if ltb c 0x800
    then 0xc0 + c / 0x40
    else if ltb c 0x1_0000
    then 0xe0 + c / 0x1000
    else 0xf0 + c / 0x4_0000

-- `if len(key) > 0 { shard = int(key[0]) }`
unfoldable pub first_byte : String → ℕ
unfolding lead_byte
first_byte String.[] = 0
first_byte (String.◌∷◌ c s) = lead_byte (code c)

unfoldable pub key2shard : String → ℕ
unfolding first_byte
key2shard key = first_byte key % n_shards

-- `me` is what nrand has drawn.
pub record Clerk : Type 0 where
  pub config : Config
  pub me : ℕ
  pub cmd_index : ℤ

unfoldable pub make_clerk : ℕ → Clerk
make_clerk me = record { config = no_config; me = me; cmd_index = pos 0 }

unfoldable pub get_args : String → Clerk → GetArgs
unfolding key2shard
get_args key ck = record {
  key = key;
  clerk = pos ck.me;
  cmd_index = suc_ℤ ck.cmd_index;
  shard = key2shard key;
}

unfoldable pub put_append_args : String → String → String → Clerk → PutAppendArgs
unfolding key2shard
put_append_args key value op ck = record {
  key = key;
  value = value;
  op = op;
  clerk = pos ck.me;
  cmd_index = suc_ℤ ck.cmd_index;
  shard = key2shard key;
}

-- What a reply means to the clerk: the end, the next configuration, or the next server.
pub data Verdict (A : Type 0) : Type 0 where
  accepted : A → Verdict A
  wrong_group try_next : Verdict A

unfoldable pub get_verdict : Option GetReply → Verdict String
get_verdict none = try_next
get_verdict (some r) =
    if not r.wrong_leader && (same_text r.err no_error || same_text r.err err_no_key)
    then accepted r.value
    else if same_text r.err err_wrong_group
    then wrong_group
    else try_next

unfoldable pub put_append_verdict : Option PutAppendReply → Verdict (Unit {0})
put_append_verdict none = try_next
put_append_verdict (some r) =
    if not r.wrong_leader && same_text r.err no_error
    then accepted tt
    else if same_text r.err err_wrong_group
    then wrong_group
    else try_next

-- How the loop over the servers of a group ends.
pub data Tried (A : Type 0) : Type 0 where
  got : A → Tried A
  no_luck calling : Tried A

module _ {R A : Type 0} (verdict : Option R → Verdict A) where
  unfoldable pub try_servers : List String → List (Option R) → Tried A
  try_servers [] answers = no_luck
  try_servers (server ∷ servers) [] = calling
  try_servers (server ∷ servers) (a ∷ answers) = elim (verdict a) [
    | accepted v ↦ got v
    | wrong_group ↦ no_luck
    | try_next ↦ try_servers servers answers
  ]

  -- One round: the servers of the shard's group in the clerk's configuration.
  unfoldable pub try_group : ℕ → Config → List (Option R) → Run (Tried A)
  unfolding try_servers
  try_group shard cfg answers = do
    gid ← or_panic (get_elem? cfg.shards shard)
    ok (elim (find gid cfg.groups) [ none ↦ no_luck | some servers ↦ try_servers servers answers ])

  -- The loop of Get and of PutAppend, over rounds of answers, each with the configuration that the
  -- shardmaster gives after it; `none` is a clerk that is still calling.
  unfoldable pub rounds : ℕ → List (List (Option R) × Config) → Clerk → Run (Option (A × Clerk))
  unfolding try_group
  rounds shard [] ck = ok none
  rounds shard ((answers, cfg) ∷ l) ck =
      let rest = rounds shard l (record ck { config = cfg }) in
      do
        tried ← try_group shard ck.config answers
        elim tried [ got v ↦ ok (some (v, ck)) | no_luck ↦ rest | calling ↦ ok none ]

unfoldable pub get :
    String → List (List (Option GetReply) × Config) → Clerk → Run (Option (String × Clerk))
unfolding rounds get_verdict key2shard
get key answers ck =
    rounds get_verdict (key2shard key) answers (record ck { cmd_index = suc_ℤ ck.cmd_index })

unfoldable pub put_append :
    String → List (List (Option PutAppendReply) × Config) → Clerk → Run (Option (Unit {0} × Clerk))
unfolding rounds put_append_verdict key2shard
put_append key answers ck =
    rounds put_append_verdict (key2shard key) answers (record ck { cmd_index = suc_ℤ ck.cmd_index })
