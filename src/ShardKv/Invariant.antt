-- ===== src/ShardKv/Invariant.antt =====
-- src/shardkv/server.go: what holds of a server between two commands.
pub mod Steps
use Prim.Native.String.{String}
use mit_raft.Base.{
  ℕ, ◌≢◌, zero, suc, ◌+◌, ◌<◌, ◌≡◌, refl, sym, ap, subst, ◌∙◌, Bool, true, false, not, ◌&&◌, ◌||◌,
  ℤ, pos, pred_ℤ-suc, pred_ℤ, List, [], ◌∷◌, none, some, length, ltb, ltb→lt, append_text, ◌⊎◌,
  ◌==◌, if◌then◌else◌, inl, inr, find, insert, delete, present, member, missing, Unique, nat_key,
  int_key, string_key, Run, ok, ◌>>=◌, Returns, returned, Returns-if, Returns-of, Returns-bind,
  arith, Bool-cases, Option-cases, ==→eq, ==_refl, present-insert, present-delete, present-some,
  present-of_some, missing-delete, missing-insert, missing-present, missing_ext,
}
use mit_raft.ShardKv.State.{
  Kind, request, new_config, new_shard, new_send, new_leader, Method, put, append, get, nothing, Op,
  ShardKv, have_shard, shard_in_db, executed,
}
use mit_raft.ShardKv.Apply.{
  owned, surplus, copy_map, init_all, put_inner, write, parse_cfg, apply_send, initialize,
  apply_config, apply_shard, execute, apply_request, apply_kind, apply_op, apply_ops,
}
use mit_raft.ShardKv.Counting.{
  Distinct, owned-Unique, insert-Distinct, delete-Distinct, surplus-delete, surplus-insert,
  present-init_all, init_all-Distinct, surplus-init_all,
}
use mit_raft.ShardKv.Writes.{
  pred_counted, delete_agree, insert_agree, overwrite_present, not_empty, some_member, surplus_nil,
  put_inner-Returns, write-Returns,
}

-- How many shards have to leave or to come.
abbrev pub moves {ℓ} : {V : Type ℓ} → List ℕ → List (ℕ × V) → ℤ
moves held db = pos (length (surplus held db) + length (missing held db))

module _ {B : Type 0} where
  pub record Inv (kv : ShardKv B) : Type 0 where
    pub held : kv.shards ≡ owned kv.gid 0 kv.cfg.shards
    pub keys : Distinct kv.kv_db
    pub logs : (s : ℕ) → present s kv.kv_db ≡ present s kv.clerk_log
    pub counted : kv.wait_until_move_done ≡ moves kv.shards kv.kv_db
    pub fresh : kv.cfg.num ≡ 0 → (kv.shards ≡ []) × (kv.kv_db ≡ [])

  pub parse_cfg-Inv :
      (kv : ShardKv B)
      → Distinct kv.kv_db
      → ((s : ℕ) → present s kv.kv_db ≡ present s kv.clerk_log)
      → (kv.cfg.num ≡ 0 → (owned kv.gid 0 kv.cfg.shards ≡ []) × (kv.kv_db ≡ []))
      → Inv (parse_cfg kv)
  unfolding parse_cfg
  parse_cfg-Inv kv keys logs fresh = record {
    held = refl;
    keys = keys;
    logs = logs;
    counted = refl;
    fresh = fresh;
  }

  pub parse_cfg-num : (kv : ShardKv B) → (parse_cfg kv).cfg.num ≡ kv.cfg.num
  unfolding parse_cfg
  parse_cfg-num kv = refl

  pub parse_cfg-kv_db : (kv : ShardKv B) → (parse_cfg kv).kv_db ≡ kv.kv_db
  unfolding parse_cfg
  parse_cfg-kv_db kv = refl

  pub Inv-Unique : {kv : ShardKv B} → Inv kv → Unique kv.shards
  Inv-Unique {kv} inv = rw inv.held (owned-Unique kv.gid 0 kv.cfg.shards)

  module _ (kv : ShardKv B) (inv : Inv kv) (s : ℕ) where
    sent-counted :
        member s kv.shards ≡ false
        → present s kv.kv_db ≡ true
        → pred_ℤ kv.wait_until_move_done ≡ moves kv.shards (delete s kv.kv_db)
    sent-counted out there =
        let less : suc (length (surplus kv.shards (delete s kv.kv_db)))
            ≡ length (surplus kv.shards kv.kv_db) =
          surplus-delete kv.shards s kv.kv_db inv.keys there out in
        let same : missing kv.shards (delete s kv.kv_db) ≡ missing kv.shards kv.kv_db =
          missing-delete s kv.shards kv.kv_db out in
        pred_counted kv.wait_until_move_done _ _ inv.counted (rw same (omega (arith, less)))

    came-counted :
        (db : List (String × String))
        → member s kv.shards ≡ true
        → present s kv.kv_db ≡ false
        → pred_ℤ kv.wait_until_move_done ≡ moves kv.shards (insert s db kv.kv_db)
    came-counted db held new =
        let less : suc (length (missing kv.shards (insert s db kv.kv_db)))
            ≡ length (missing kv.shards kv.kv_db) =
          missing-insert s db kv.shards kv.kv_db (Inv-Unique inv) held new in
        let same : surplus kv.shards (insert s db kv.kv_db) ≡ surplus kv.shards kv.kv_db =
          surplus-insert kv.shards s db kv.kv_db held in
        pred_counted kv.wait_until_move_done _ _ inv.counted (rw same (omega (arith, less)))

    -- To write into a shard that is held and in the database moves nothing.
    pub written-counted :
        (db : List (String × String))
        → member s kv.shards ≡ true
        → present s kv.kv_db ≡ true
        → kv.wait_until_move_done ≡ moves kv.shards (insert s db kv.kv_db)
    written-counted db held there =
        let same : surplus kv.shards (insert s db kv.kv_db) ≡ surplus kv.shards kv.kv_db =
          surplus-insert kv.shards s db kv.kv_db held in
        let as_before : missing kv.shards (insert s db kv.kv_db) ≡ missing kv.shards kv.kv_db =
          missing_ext kv.shards (insert s db kv.kv_db) kv.kv_db λ x e.
            present-insert s x db kv.kv_db ∙ (elim (Bool-cases (s == x)) [
              | inl q ↦ let eq : s ≡ x = ==→eq s x q in rw (q, ← eq, there)
              | inr q ↦ rw q
            ]) in
        rw (same, as_before) inv.counted

    not_fresh_in_db {ℓ} : {A : Type ℓ} → present s kv.kv_db ≡ true → kv.cfg.num ≡ 0 → A
    not_fresh_in_db there zero_num = absurd (not_empty s kv.kv_db there (inv.fresh zero_num).1)

    pub not_fresh_held {ℓ} : {A : Type ℓ} → member s kv.shards ≡ true → kv.cfg.num ≡ 0 → A
    not_fresh_held held zero_num = absurd (some_member s kv.shards held (inv.fresh zero_num).0)

  pub apply_send-Inv : (op : Op) (kv : ShardKv B) → Inv kv → Inv (apply_send op kv).1
  unfolding apply_send have_shard shard_in_db
  apply_send-Inv op kv inv = elim (Bool-cases (member op.shard kv.shards)) [
    | inl e ↦ rw e inv
    | inr out ↦ elim (Bool-cases (present op.shard kv.kv_db)) [
      | inr e ↦ rw (out, e) inv
      | inl there ↦
          let gone : (s : ℕ)
              → present s (delete op.shard kv.kv_db) ≡ present s (delete op.shard kv.clerk_log) =
            λ s. delete_agree op.shard s kv.kv_db kv.clerk_log (inv.logs s) in
          rw (out, there)
            (record {
              held = inv.held;
              keys = delete-Distinct op.shard kv.kv_db inv.keys;
              logs = gone;
              counted = sent-counted kv inv op.shard out there;
              fresh = λ z. not_fresh_in_db kv inv op.shard there z;
            })
    ]
  ]

  pub apply_shard-Inv : (op : Op) (kv : ShardKv B) → Inv kv → Inv (apply_shard op kv).1
  unfolding apply_shard have_shard shard_in_db
  apply_shard-Inv op kv inv = elim (Bool-cases (member op.shard kv.shards)) [
    | inr e ↦ rw e inv
    | inl in_set ↦ elim (Bool-cases (present op.shard kv.kv_db)) [
      | inl e ↦ rw (in_set, e) inv
      | inr new ↦
          let db : List (String × String) = copy_map op.new_shards.shard_db [] in
          let log : List (ℤ × ℤ) = copy_map op.new_shards.clerk_log [] in
          let came : (s : ℕ)
              → present s (insert op.shard db kv.kv_db)
                ≡ present s (insert op.shard log kv.clerk_log) =
            λ s. insert_agree op.shard s kv.kv_db kv.clerk_log db log (inv.logs s) in
          rw (in_set, new)
            (record {
              held = inv.held;
              keys = insert-Distinct op.shard db kv.kv_db inv.keys;
              logs = came;
              counted = came-counted kv inv op.shard db in_set new;
              fresh = λ z. not_fresh_held kv inv op.shard in_set z;
            })
    ]
  ]

  init-counted :
      (kv : ShardKv B) → kv.kv_db ≡ [] → pos 0 ≡ moves kv.shards (init_all kv.shards kv.kv_db)
  init-counted kv none_there =
      let none_out : surplus kv.shards (init_all kv.shards kv.kv_db) ≡ [] =
        surplus-init_all kv.shards kv.shards kv.kv_db (λ x e. e)
        ∙ (rw none_there (surplus_nil (List (String × String)) kv.shards)) in
      let none_in : missing kv.shards (init_all kv.shards kv.kv_db) ≡ [] =
        missing-present kv.shards (init_all kv.shards kv.kv_db)
          λ x e. present-init_all kv.shards kv.kv_db x ∙ (rw e) in
      rw (none_out, none_in)

  initialize-Inv : (kv : ShardKv B) → Inv kv → kv.cfg.num ≡ 1 → kv.kv_db ≡ [] → Inv (initialize kv)
  unfolding initialize
  initialize-Inv kv inv one_num none_there = record {
    held = inv.held;
    keys = init_all-Distinct kv.shards kv.kv_db inv.keys;
    logs = λ s.
        present-init_all kv.shards kv.kv_db s
        ∙ (rw (present-init_all kv.shards kv.clerk_log s, inv.logs s));
    counted = init-counted kv none_there;
    fresh = λ z. absurd (omega arith);
  }

  pub apply_config-Inv : (op : Op) (kv : ShardKv B) → Inv kv → Inv (apply_config op kv).1
  unfolding apply_config
  apply_config-Inv op kv inv = elim (Bool-cases (ltb kv.cfg.num op.new_config.num)) [
    | inr e ↦ rw e inv
    | inl newer ↦
        let up : kv.cfg.num < op.new_config.num = ltb→lt _ _ newer in
        let parsed : Inv (parse_cfg (record kv { cfg = op.new_config })) =
          parse_cfg-Inv (record kv { cfg = op.new_config }) inv.keys inv.logs
            (λ z. absurd (omega arith)) in
        elim (Bool-cases (op.new_config.num == 1)) [
          | inr e ↦ rw (newer, e) parsed
          | inl e ↦
              let one_num : (parse_cfg (record kv { cfg = op.new_config })).cfg.num ≡ 1 =
                parse_cfg-num (record kv { cfg = op.new_config }) ∙ ==→eq op.new_config.num 1 e in
              let nil : (parse_cfg (record kv { cfg = op.new_config })).kv_db ≡ [] =
                parse_cfg-kv_db (record kv { cfg = op.new_config })
                ∙ (inv.fresh (omega (arith, ==→eq op.new_config.num 1 e))).1 in
              rw (newer, e)
                (initialize-Inv (parse_cfg (record kv { cfg = op.new_config })) parsed one_num nil)
        ]
  ]
