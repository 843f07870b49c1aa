-- ===== src/ShardKv/Calls.antt =====
-- src/shardkv/client.go: the clerk's loops.
use Prim.Native.String.{String}
use mit_raft.Base.{
  ℕ, ◌<◌, ◌≡◌, List, [], ◌∷◌, ◌++◌, Option, none, some, length, get_elem?, get_elem?-some, find,
  nat_key, Run, ok, Returns, returned, Returns-bind, suc_ℤ, arith,
}
use mit_raft.ShardMaster.State.{Config, n_shards}
use mit_raft.ShardKv.State.{GetReply}
use mit_raft.ShardKv.Clerk.{
  key2shard, Clerk, Verdict, accepted, try_next, Tried, got, no_luck, calling, try_servers,
  try_group, rounds, get_verdict, get,
}

-- Every shard of the configuration has an entry.
abbrev pub IsWhole : Config → Type 0
IsWhole cfg = length cfg.shards ≡ n_shards

abbrev pub AllWhole {ℓ} : {A : Type ℓ} → List (A × Config) → Type 0
AllWhole [] = Unit
AllWhole ((answers, cfg) ∷ l) = IsWhole cfg × AllWhole l

key2shard-lt : (key : String) → key2shard key < n_shards
unfolding key2shard
key2shard-lt key = omega arith

after_tried :
    {A : Type 0} (t : Tried A) (ck : Clerk) {rest : Run (Option (A × Clerk))}
    → Returns (λ r. Unit {0}) rest
    → Returns {A = Option (A × Clerk)}
        (λ r. Unit {0})
        (elim t [ got v ↦ ok (some (v, ck)) | no_luck ↦ rest | calling ↦ ok none ])
after_tried (got v) ck h = returned tt
after_tried no_luck ck h = h
after_tried calling ck h = returned tt

module _ {R A : Type 0} (verdict : Option R → Verdict A) where
  try_group-Returns :
      (shard : ℕ) (cfg : Config) (answers : List (Option R))
      → shard < n_shards
      → IsWhole cfg
      → Returns (λ t. Unit {0}) (try_group verdict shard cfg answers)
  unfolding try_group
  try_group-Returns shard cfg answers low whole =
      let (gid, e) = get_elem?-some cfg.shards shard (omega (arith, whole)) in rw e (returned tt)

  rounds-Returns :
      (shard : ℕ) (l : List (List (Option R) × Config)) (ck : Clerk)
      → shard < n_shards
      → IsWhole ck.config
      → AllWhole l
      → Returns (λ r. Unit {0}) (rounds verdict shard l ck)
  unfolding rounds
  rounds-Returns shard [] ck low whole all = returned tt
  rounds-Returns shard ((answers, cfg) ∷ l) ck low whole (next, all) =
      Returns-bind (try_group-Returns shard ck.config answers low whole)
        λ t _. after_tried t ck (rounds-Returns shard l (record ck { config = cfg }) low next all)

  -- The rounds all fail, from the first configuration to the last.
  pub data Unlucky (shard : ℕ) : Config → List (List (Option R) × Config) → Config → Type 0 where
    at_once : {cfg : Config} → Unlucky shard cfg [] cfg
    after :
        {cfg next last : Config} {l : List (List (Option R) × Config)} (answers : List (Option R))
        → try_group verdict shard cfg answers ≡ ok no_luck
        → Unlucky shard next l last
        → Unlucky shard cfg ((answers, next) ∷ l) last

  abbrev pub AllNext : List (Option R) → Type 0
  AllNext [] = Unit
  AllNext (a ∷ answers) = (verdict a ≡ try_next) × AllNext answers

  try_servers-append :
      (servers : List String) (fails : List (Option R)) (a : Option R) (rest : List (Option R))
      (v : A)
      → AllNext fails
      → length fails < length servers
      → verdict a ≡ accepted v
      → try_servers verdict servers (fails ++ a ∷ rest) ≡ got v
  unfolding try_servers
  try_servers-append [] fails a rest v failed low good = absurd (omega arith)
  try_servers-append (s ∷ servers) [] a rest v failed low good = rw good
  try_servers-append (s ∷ servers) (b ∷ fails) a rest v (bad, failed) low good =
      rw bad (try_servers-append servers fails a rest v failed (omega arith) good)

  rounds-append :
      (shard : ℕ) (ck : Clerk) (bad : List (List (Option R) × Config)) (cfg next : Config)
      (l : List (List (Option R) × Config)) (answers : List (Option R)) (v : A)
      → Unlucky shard ck.config bad cfg
      → try_group verdict shard cfg answers ≡ ok (got v)
      → rounds verdict shard (bad ++ (answers, next) ∷ l) ck
        ≡ ok (some (v, record ck { config = cfg }))
  unfolding rounds
  rounds-append shard ck _ _ next l answers v at_once good = rw good
  rounds-append shard ck _ cfg next l answers v
        (after {next = first} {l = bad} tried failed unlucky) good =
      rw failed
        (rounds-append shard (record ck { config = first }) bad cfg next l answers v unlucky good)

-- If the clerk's configuration and all configurations that the shardmaster answers with have an
-- entry for each of the 10 shards, then Get with any key never indexes the array of shards out of
-- its range: it does not panic.
pub get-Returns :
    (key : String) (answers : List (List (Option GetReply) × Config)) (ck : Clerk)
    → IsWhole ck.config
    → AllWhole answers
    → Returns (λ r. Unit {0}) (get key answers ck)
unfolding get
get-Returns key answers ck whole all =
    rounds-Returns get_verdict (key2shard key) answers
      (record ck { cmd_index = suc_ℤ ck.cmd_index }) (key2shard-lt key) whole all

-- When the rounds of a clerk's Get fail up to a configuration that gives the key's shard to a
-- group of that configuration, and fewer servers than the group has ask the clerk to try the next
-- one, and the next answer is one that the clerk accepts, then Get ends with the value of that
-- answer, and the clerk keeps that configuration.
pub get-answer :
    (key : String) (ck : Clerk) (bad : List (List (Option GetReply) × Config)) (cfg next : Config)
    (l : List (List (Option GetReply) × Config)) (gid : ℕ) (servers : List String)
    (fails rest : List (Option GetReply)) (a : Option GetReply) (v : String)
    → Unlucky get_verdict (key2shard key) ck.config bad cfg
    → get_elem? cfg.shards (key2shard key) ≡ some gid
    → find gid cfg.groups ≡ some servers
    → AllNext get_verdict fails
    → length fails < length servers
    → get_verdict a ≡ accepted v
    → get key (bad ++ (fails ++ a ∷ rest, next) ∷ l) ck
      ≡ ok (some (v, record ck { config = cfg; cmd_index = suc_ℤ ck.cmd_index }))
unfolding get try_group
get-answer key ck bad cfg next l gid servers fails rest a v unlucky owner group failed low good =
    let tried : try_group get_verdict (key2shard key) cfg (fails ++ a ∷ rest) ≡ ok (got v) =
      rw (owner, group, try_servers-append get_verdict servers fails a rest v failed low good) in
    rounds-append get_verdict (key2shard key) (record ck { cmd_index = suc_ℤ ck.cmd_index }) bad cfg
      next l (fails ++ a ∷ rest) v unlucky tried
