-- ===== src/ShardKv/Handoff.antt =====
-- src/shardkv/server.go: a shard on its way from sendShard of one group to the database of another.
use Prim.Native.String.{String}
use mit_raft.Base.{
  ℕ, ◌≡◌, refl, ap, ◌∙◌, true, false, not, ◌||◌, ℤ, List, [], ◌∷◌, get_elem?, ltb, ◌==◌, inl, inr,
  find, insert, Key, nat_key, int_key, string_key, find-insert_if, present-insert, ok, panic,
  Returns, returned, Bool-cases, Option-cases, ==_refl,
}
use mit_raft.ShardKv.State.{
  request, Op, PushShardArgs, ShardKv, or_nil, inner, logged, have_shard, shard_in_db, executed,
  shard_op,
}
use mit_raft.ShardKv.Apply.{copy_map, apply_shard, apply_request, apply_kind, apply_op}
use mit_raft.ShardKv.Migration.{stops, sleeps, offers, push_args, send_shard}

find-copy_map {ℓ κ} :
    {K : Type ℓ} {V : Type κ} ⦃key : Key K⦄ (k : K) (m : List (K × V))
    → find k (copy_map m []) ≡ find k m
unfolding copy_map find
find-copy_map k [] = refl
find-copy_map ⦃key⦄ k ((a, v) ∷ m) =
    find-insert_if a k v (copy_map m [])
    ∙ (elim (Bool-cases (key.same a k)) [ inl e ↦ rw e | inr e ↦ rw (e, find-copy_map k m) ])

inner-insert {ℓ} :
    {A : Type ℓ} (s : ℕ) (l : List A) (m : List (ℕ × List A)) → inner s (insert s l m) ≡ l
inner-insert s l m = ap or_nil (find-insert_if s s l m) ∙ (rw (==_refl s))

inner-insert_other {ℓ} :
    {A : Type ℓ} (s t : ℕ) (l : List A) (m : List (ℕ × List A))
    → (s == t) ≡ false
    → inner t (insert s l m) ≡ inner t m
inner-insert_other s t l m e = ap or_nil (find-insert_if s t l m) ∙ (rw e)

same_logged :
    (clerk index : ℤ) (l m : List (ℤ × ℤ))
    → find clerk l ≡ find clerk m
    → logged clerk index l ≡ logged clerk index m
unfolding logged
same_logged clerk index l m e = rw (logged, e)

module _ {B : Type 0} where
  -- The second server has the first one's shard, and of the others what the third one has.
  pub record Moved (shard : ℕ) (from to before : ShardKv B) : Type 0 where
    pub there : shard_in_db shard to ≡ true
    pub db : (key : String) → find key (inner shard to.kv_db) ≡ find key (inner shard from.kv_db)
    pub log :
        (clerk : ℤ)
        → find clerk (inner shard to.clerk_log) ≡ find clerk (inner shard from.clerk_log)
    pub others :
        (s : ℕ)
        → (shard == s) ≡ false
        → (inner s to.kv_db ≡ inner s before.kv_db)
          × (inner s to.clerk_log ≡ inner s before.clerk_log)

  offered :
      (shard cfg : ℕ) (args : PushShardArgs) (servers : List String) (kv : ShardKv B)
      → send_shard shard cfg kv ≡ ok (offers args servers)
      → args ≡ push_args shard cfg kv
  unfolding send_shard
  offered shard cfg args servers kv h =
      elim (Bool-cases (not kv.leader || not (shard_in_db shard kv) || ltb cfg kv.cfg.num)) [
        | inl e ↦
            let bad : ok stops ≡ ok (offers args servers) = rw (send_shard, e) at h in absurd cc
        | inr e ↦ elim (Option-cases (get_elem? kv.cfg.shards shard)) [
          | inl f ↦
              let bad : panic ≡ ok (offers args servers) = rw (send_shard, e, f) at h in absurd cc
          | inr (gid, f) ↦ elim (Option-cases (find gid kv.cfg.groups)) [
            | inl g ↦
                let bad : ok sleeps ≡ ok (offers args servers) = rw (send_shard, e, f, g) at h in
                absurd cc
            | inr (list, g) ↦
                let good : ok (offers (push_args shard cfg kv) list) ≡ ok (offers args servers) =
                  rw (send_shard, e, f, g) at h in
                cc
          ]
        ]
      ]

  module _ (shard cfg : ℕ) (args : PushShardArgs) (servers : List String)
      (from to : ShardKv B) where
    received-Moved :
        args ≡ push_args shard cfg from
        → have_shard shard to ≡ true
        → shard_in_db shard to ≡ false
        → Moved shard from (apply_shard (shard_op args) to).1 to
    unfolding apply_shard push_args shard_in_db
    received-Moved same held new =
        let sent : List (String × String) = copy_map (inner shard from.kv_db) [] in
        let sent_log : List (ℤ × ℤ) = copy_map (inner shard from.clerk_log) [] in
        rw (same, held, new)
          (record {
            there = rw (present-insert shard shard (copy_map sent []) to.kv_db, ==_refl shard);
            db = λ key.
                ap (find key) (inner-insert shard (copy_map sent []) to.kv_db)
                ∙ find-copy_map key sent
                ∙ find-copy_map key (inner shard from.kv_db);
            log = λ clerk.
                ap (find clerk) (inner-insert shard (copy_map sent_log []) to.clerk_log)
                ∙ find-copy_map clerk sent_log
                ∙ find-copy_map clerk (inner shard from.clerk_log);
            others = λ s e. (
              inner-insert_other shard s (copy_map sent []) to.kv_db e,
              inner-insert_other shard s (copy_map sent_log []) to.clerk_log e,
            );
          })

    received_true :
        args ≡ push_args shard cfg from
        → have_shard shard to ≡ true
        → (apply_shard (shard_op args) to).0 ≡ true
    unfolding apply_shard push_args
    received_true same held =
        rw (same, held) (elim (Bool-cases (shard_in_db shard to)) [ inl e ↦ rw e | inr e ↦ rw e ])

  -- A request of the shard that the first server has executed is known to the second.
  known :
      (shard : ℕ) (from to before : ShardKv B) (q : Op)
      → Moved shard from to before
      → q.shard ≡ shard
      → executed q from ≡ true
      → apply_request q to ≡ ok (true, to)
  unfolding apply_request executed
  known shard from to before q moved same done =
      let at_first : logged q.clerk q.cmd_index (inner shard from.clerk_log) ≡ true =
        rw same at done in
      let e : logged q.clerk q.cmd_index (inner q.shard to.clerk_log) ≡ true =
        rw same (same_logged q.clerk q.cmd_index _ _ (moved.log q.clerk) ∙ at_first) in
      rw (executed, e)

  -- When sendShard of one server offers a shard, and the command that PushShard makes of the offer
  -- is applied in a server that has been given the shard and does not have it, then the command is
  -- answered without an error; the second server has the data and the clerk log of the first one
  -- for that shard, and of the other shards what it had; and a request of the shard that the first
  -- server has executed changes nothing there and is answered without an error.
  pub send_shard-Moved :
      (shard cfg : ℕ) (args : PushShardArgs) (servers : List String) (from to : ShardKv B)
      → send_shard shard cfg from ≡ ok (offers args servers)
      → have_shard shard to ≡ true
      → shard_in_db shard to ≡ false
      → Returns
          (λ r.
            (r.0 ≡ true)
            × Moved shard from r.1 to
            × ((q : Op)
                → q.kind ≡ request
                → q.shard ≡ shard
                → executed q from ≡ true
                → apply_op q r.1 ≡ ok (true, r.1)))
          (apply_op (shard_op args) to)
  unfolding apply_op apply_kind
  send_shard-Moved shard cfg args servers from to sent held new =
      let same : args ≡ push_args shard cfg from = offered shard cfg args servers from sent in
      let moved : Moved shard from (apply_shard (shard_op args) to).1 to =
        received-Moved shard cfg args servers from to same held new in
      returned (
        received_true shard cfg args servers from to same held,
        moved,
        λ q kind at done.
            ap (λ k. apply_kind k q (apply_shard (shard_op args) to).1) kind
            ∙ known shard from _ to q moved at done,
      )
