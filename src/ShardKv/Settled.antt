-- ===== src/ShardKv/Settled.antt =====
-- src/shardkv/server.go: what it means that waitUntilMoveDone is 0.
pub mod Stays
pub mod Reached
use Prim.Native.String.{String}
use mit_raft.Base.{
  ℕ, ◌+◌, ◌≤◌, ◌≡◌, ◌↔◌, refl, sym, ap, ◌∙◌, Bool, true, false, not, ◌&&◌, ◌||◌, ℤ, pos, List, [],
  ◌∷◌, length, ltb, ◌==◌, if◌then◌else◌, inl, inr, find, insert, delete, present, member, missing,
  nat_key, int_key, Returns-and, Run, ok, Ensures, value, Ensures-after, Ensures-if, Ensures-bind,
  Ensures-ok, Returns-value, Returns, returned, Returns-bind, Returns-mono, arith, Bool-cases,
  missing-empty, missing-present,
}
use mit_raft.ShardKv.State.{
  Kind, request, new_config, new_shard, new_send, new_leader, Op, executed, ShardKv, have_shard,
  shard_in_db,
}
use mit_raft.ShardKv.Apply.{
  surplus, apply_send, apply_shard, apply_config, put_inner, write, execute, apply_request,
  apply_kind, apply_op, apply_ops,
}
use mit_raft.ShardKv.Counting.{surplus-held, surplus-none}
use mit_raft.ShardKv.Invariant.{Inv, moves}
use mit_raft.ShardKv.Invariant.Steps.{apply_op-Inv}

length_zero {ℓ} : {A : Type ℓ} (l : List A) → length l ≡ 0 → l ≡ []
length_zero [] e = refl
length_zero (x ∷ l) e = absurd (omega arith)

pos-injective : (n : ℕ) → pos n ≡ pos 0 → n ≡ 0
pos-injective n e = ground arith

both_ways : (a b : Bool) → (a ≡ true → b ≡ true) → (b ≡ true → a ≡ true) → a ≡ b
both_ways true b f g = sym (f refl)
both_ways false true f g = g refl
both_ways false false f g = refl

moves_zero :
    (held : List ℕ) (db : List (ℕ × List (String × String)))
    → moves held db ≡ pos 0
    → (surplus held db ≡ []) × (missing held db ≡ [])
moves_zero held db e =
    let sum : length (surplus held db) + length (missing held db) ≡ 0 = pos-injective _ e in
    (length_zero (surplus held db) (omega arith), length_zero (missing held db) (omega arith))

module _ {B : Type 0} where
  -- The database has the shards of the group, and no other.
  unfoldable pub Settled : ShardKv B → Type 0
  unfolding have_shard shard_in_db
  Settled kv = (s : ℕ) → shard_in_db s kv ≡ have_shard s kv

  pub zero-Settled : (kv : ShardKv B) → Inv kv → kv.wait_until_move_done ≡ pos 0 → Settled kv
  unfolding Settled have_shard shard_in_db
  zero-Settled kv inv e s =
      let (no_surplus, no_missing) = moves_zero kv.shards kv.kv_db (sym inv.counted ∙ e) in
      both_ways _ _ (surplus-held kv.shards kv.kv_db no_surplus s)
        (missing-empty kv.shards kv.kv_db s no_missing)

  pub Settled-zero : (kv : ShardKv B) → Inv kv → Settled kv → kv.wait_until_move_done ≡ pos 0
  unfolding Settled have_shard shard_in_db
  Settled-zero kv inv all =
      let no_surplus : surplus kv.shards kv.kv_db ≡ [] =
        surplus-none kv.shards kv.kv_db λ s h. sym (all s) ∙ h in
      let no_missing : missing kv.shards kv.kv_db ≡ [] =
        missing-present kv.shards kv.kv_db λ s h. all s ∙ h in
      inv.counted ∙ (rw (no_surplus, no_missing))
