-- ===== src/ShardKv/Restore.antt =====
-- src/shardkv/server.go: snapshots, and servers that start from one.
use mit_raft.Base.{
  ℕ, ◌≡◌, ◌≢◌, refl, sym, ap, ◌∙◌, false, ℤ, List, [], ◌∷◌, length, ◌==◌, if◌then◌else◌, inl, inr,
  nat_key, Ensures, value, Ensures-after, Ensures-bind, arith, Option-cases, Bool-cases,
}
use mit_raft.Raft.Persister.{Codec, Persister, read_snapshot, snapshot_size, read_raft_state}
use mit_raft.Raft.State.{Raft, Command}
use mit_raft.Raft.Role.{Saved}
use mit_raft.Raft.Node.{fresh, read_persist, make}
use mit_raft.Raft.Snapshot.{store}
use mit_raft.ShardKv.State.{Op, Snapshot, ShardKv}
use mit_raft.ShardKv.Apply.{owned, parse_cfg}
use mit_raft.ShardKv.Run.{
  fresh_server, encode_snapshot, decoded_snapshot, load_snapshot, start_server,
}
use mit_raft.ShardKv.Invariant.{Inv, moves, parse_cfg-Inv}
use mit_raft.ShardKv.Replicas.{Same}

nonempty_test {ℓ} : {A : Type ℓ} (l : List A) → l ≢ [] → (length l == 0) ≡ false
nonempty_test [] h = absurd (h refl)
nonempty_test (x ∷ l) h = ground arith

module _ {B : Type 0} where
  -- The server with the data of another one.
  abbrev pub with_data_of : ShardKv B → ShardKv B → ShardKv B
  with_data_of from to = record to {
    kv_db = from.kv_db;
    clerk_log = from.clerk_log;
    cfg = from.cfg;
  }

  parsed_shards :
      (from to : ShardKv B)
      → (parse_cfg (with_data_of from to)).shards ≡ owned to.gid 0 from.cfg.shards
  unfolding parse_cfg
  parsed_shards from to = refl

  parsed_wait :
      (from to : ShardKv B)
      → (parse_cfg (with_data_of from to)).wait_until_move_done
        ≡ moves (owned to.gid 0 from.cfg.shards) from.kv_db
  unfolding parse_cfg
  parsed_wait from to = refl

  parsed_Same :
      (from to : ShardKv B)
      → to.gid ≡ from.gid
      → (parse_cfg (with_data_of from to)).shards ≡ from.shards
      → (parse_cfg (with_data_of from to)).wait_until_move_done ≡ from.wait_until_move_done
      → Same (parse_cfg (with_data_of from to)) from
  unfolding parse_cfg
  parsed_Same from to group held recounted = record {
    gid = group;
    db = refl;
    log = refl;
    cfg = refl;
    shards = held;
    wait = recounted;
  }

  parsed-Same :
      (from to : ShardKv B)
      → Inv from
      → to.gid ≡ from.gid
      → Same (parse_cfg (with_data_of from to)) from × Inv (parse_cfg (with_data_of from to))
  parsed-Same from to inv group =
      let held : (parse_cfg (with_data_of from to)).shards ≡ from.shards =
        parsed_shards from to ∙ ap (λ g. owned g 0 from.cfg.shards) group ∙ sym inv.held in
      let recounted : (parse_cfg (with_data_of from to)).wait_until_move_done
          ≡ from.wait_until_move_done =
        parsed_wait from to
        ∙ ap (λ l. moves l from.kv_db) (ap (λ g. owned g 0 from.cfg.shards) group ∙ sym inv.held)
        ∙ sym inv.counted in
      (
        parsed_Same from to group held recounted,
        parse_cfg-Inv (with_data_of from to) inv.keys inv.logs λ z. (
          ap (λ g. owned g 0 from.cfg.shards) group ∙ sym inv.held ∙ (inv.fresh z).0,
          (inv.fresh z).1,
        ),
      )

  module _ ⦃snap : Codec Snapshot B⦄ where
    pub decode-encode :
        (from to : ShardKv B) → decoded_snapshot (encode_snapshot from) to ≡ with_data_of from to
    unfolding decoded_snapshot encode_snapshot
    decode-encode from to =
        rw
          (
            decoded_snapshot,
            snap.decode-encode
                (record { db = from.kv_db; clerks = from.clerk_log; cfg = from.cfg }),
          )
          refl

    encoding_size : (kv : ShardKv B) → (length (encode_snapshot kv) == 0) ≡ false
    unfolding encode_snapshot
    encoding_size kv = nonempty_test _ (snap.encode_nonempty _)

    -- A snapshot of a server with the invariant, taken over by a server of the same group.
    pub decoded_snapshot-Same :
        (from to : ShardKv B)
        → Inv from
        → to.gid ≡ from.gid
        → Same (parse_cfg (decoded_snapshot (encode_snapshot from) to)) from
          × Inv (parse_cfg (decoded_snapshot (encode_snapshot from) to))
    decoded_snapshot-Same from to inv group =
        rw (decode-encode from to) (parsed-Same from to inv group)

    load-encode :
        (from to : ShardKv B)
        → to.rf.persister.snapshot ≡ encode_snapshot from
        → load_snapshot to ≡ with_data_of from to
    unfolding load_snapshot read_snapshot
    load-encode from to stored =
        ap (λ (bytes : List B). if length bytes == 0 then to else decoded_snapshot bytes to) stored
        ∙ (rw (encoding_size from) (decode-encode from to))

  module _ ⦃gob : Codec (Saved Op) B⦄ where
    read_persist-persister :
        (bytes : List B) (rf : Raft Op B) → (read_persist bytes rf).persister ≡ rf.persister
    unfolding read_persist
    read_persist-persister bytes rf = elim (Bool-cases (length bytes == 0)) [
      | inl e ↦ rw e
      | inr e ↦ elim (Option-cases (gob.decode bytes)) [
        | inl f ↦ rw (e, read_persist, f)
        | inr (s, f) ↦ rw (e, read_persist, f)
      ]
    ]

    make-persister :
        (peers me : ℕ) (ps : Persister B)
        → Ensures (λ rf. rf.persister ≡ ps) (make {C = Op} peers me ps)
    unfolding make
    make-persister peers me ps =
        let rf : Raft Op B = read_persist (read_raft_state ps) (fresh peers me ps) in
        Ensures-after
          (store rf.logs 0 (record {
            term = rf.last_included_term;
            index = rf.last_included_index;
            command = Command.placeholder;
          }))
          λ logs. value (read_persist-persister (read_raft_state ps) (fresh peers me ps))

    module _ ⦃snap : Codec Snapshot B⦄ where
      -- StartServer with a snapshot that a server of the same group with the invariant has encoded
      -- ends, if it does not panic, with that server's data, clerk logs, configuration, shards and
      -- waitUntilMoveDone, with the invariant, and without channels.
      pub start_server-Same :
          (peers me : ℕ) (ps : Persister B) (max_raft_state : ℤ) (from : ShardKv B)
          → Inv from
          → ps.snapshot ≡ encode_snapshot from
          → Ensures
              (λ kv. Same kv from × Inv kv × (kv.msg_ch ≡ []) × (kv.chans ≡ []))
              (start_server peers me ps max_raft_state from.gid)
      unfolding start_server snapshot_size parse_cfg
      start_server-Same peers me ps max_raft_state from inv stored =
          Ensures-bind (make-persister peers me ps) λ rf same.
            let there : rf.persister.snapshot ≡ encode_snapshot from =
              ap (λ p. p.snapshot) same ∙ stored in
            let loaded : load_snapshot (fresh_server me rf max_raft_state from.gid)
                ≡ with_data_of from (fresh_server me rf max_raft_state from.gid) =
              load-encode from (fresh_server me rf max_raft_state from.gid) there in
            let test : (length rf.persister.snapshot == 0) ≡ false =
              ap (λ (bytes : List B). length bytes == 0) there ∙ encoding_size from in
            rw (loaded, test)
              (let (same', inv') =
                  parsed-Same from (fresh_server me rf max_raft_state from.gid) inv refl in
                value (same', inv', refl, refl))
