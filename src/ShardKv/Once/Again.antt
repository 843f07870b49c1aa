-- ===== src/ShardKv/Once/Again.antt =====
-- src/shardkv/server.go: the same request, before and after other commands.
use mit_raft.Base.{
  ◌≡◌, refl, sym, ap, ◌∙◌, true, not, ◌||◌, List, [], ◌∷◌, Returns-ok, Ensures-ok, nat_key, int_key,
  ok, Returns, returned, Returns-bind, Returns-and, Returns-mono, Ensures, value, Ensures-if,
  Ensures-bind,
}
use mit_raft.ShardKv.State.{
  Kind, request, new_config, new_shard, new_send, new_leader, Op, ShardKv, have_shard, shard_in_db,
  executed,
}
use mit_raft.ShardKv.Apply.{apply_request, apply_kind, apply_op, apply_ops}
use mit_raft.ShardKv.Invariant.{Inv}
use mit_raft.ShardKv.Invariant.Steps.{apply_op-Inv}
use mit_raft.ShardKv.Once.{
  Known, KeepsShard, AllKeep, send-Known, shard-Known, config-Known, request-Known, execute-answers,
}

module _ {B : Type 0} where
  kind-Known :
      (kind : Kind) (q op : Op) (kv : ShardKv B)
      → Inv kv
      → Known q kv.clerk_log
      → KeepsShard q.shard kind op
      → Ensures (λ r. Known q r.1.clerk_log) (apply_kind kind op kv)
  unfolding apply_kind KeepsShard
  kind-Known new_send q op kv inv known keeps = value (send-Known q op kv inv known keeps)
  kind-Known new_config q op kv inv known keeps = value (config-Known q op kv inv known)
  kind-Known new_shard q op kv inv known keeps = value (shard-Known q op kv inv known)
  kind-Known request q op kv inv known keeps = request-Known q op kv inv known
  kind-Known new_leader q op kv inv known keeps = value known

  ops-Known :
      (q : Op) (ops : List Op) (kv : ShardKv B)
      → Inv kv
      → Known q kv.clerk_log
      → AllKeep q.shard ops
      → Returns (λ kv'. Known q kv'.clerk_log) (apply_ops ops kv)
  unfolding apply_ops AllKeep apply_op
  ops-Known q [] kv inv known keeps = returned known
  ops-Known q (op ∷ ops) kv inv known (keeps, rest) =
      Returns-bind
        (Returns-and (apply_op-Inv op kv inv) (kind-Known op.kind q op kv inv known keeps))
        λ r (inv', known'). ops-Known q ops r.1 inv' known' rest

  answered-Known :
      (q : Op) (kv : ShardKv B)
      → Ensures (λ r. r.0 ≡ true → Known q r.1.clerk_log) (apply_request q kv)
  unfolding apply_request executed
  answered-Known q kv =
      Ensures-if (executed q kv) (λ e. value (λ _. e))
        λ new.
          Ensures-if (not (have_shard q.shard kv) || not (shard_in_db q.shard kv))
            (λ f. value (λ bad. absurd cc))
            λ f. Ensures-bind (execute-answers q kv) λ kv' known. value (λ _. known)

  again : (q : Op) (kv : ShardKv B) → Known q kv.clerk_log → apply_request q kv ≡ ok (true, kv)
  unfolding apply_request executed
  again q kv known = let e : executed q kv ≡ true = known in rw e

  -- If a request is applied to a server with the invariant and answered without an error, then
  -- after any commands none of which is a newSend of its shard, applying the same request again
  -- changes nothing and is answered without an error; and those commands run without a panic.
  pub apply_op_again :
      (q : Op) (ops : List Op) (kv kv' : ShardKv B)
      → Inv kv
      → q.kind ≡ request
      → apply_op q kv ≡ ok (true, kv')
      → AllKeep q.shard ops
      → Returns (λ last. apply_op q last ≡ ok (true, last)) (apply_ops ops kv')
  unfolding apply_op apply_kind
  apply_op_again q ops kv kv' inv kind answer keeps =
      let as_request : apply_request q kv ≡ ok (true, kv') =
        ap (λ k. apply_kind k q kv) (sym kind) ∙ answer in
      let inv' : Inv kv' = Returns-ok (true, kv') (apply_op-Inv q kv inv) answer in
      let known : Known q kv'.clerk_log =
        Ensures-ok (true, kv') (answered-Known q kv) as_request refl in
      Returns-mono (λ last done. ap (λ k. apply_kind k q last) kind ∙ again q last done)
        (ops-Known q ops kv' inv' known keeps)
