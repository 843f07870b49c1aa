-- ===== src/KvRaft/Once/Snapshots.antt =====
-- Commands before and after a snapshot (src/kvraft/server.go: encodeSnapshot, loadSnapshot).
use mit_raft.Base.{
  ◌≡◌, refl, ap, List, [], ◌∷◌, ◌++◌, insert, nat_key, string_key, Bool-cases, inl, inr,
}
use mit_raft.Raft.Persister.{Codec, read_snapshot}
use mit_raft.KvRaft.State.{Op, Snapshot, KvServer, executed}
use mit_raft.KvRaft.Server.{write, execute, encode_snapshot, decoded_snapshot, load_snapshot}
use mit_raft.KvRaft.Once.{nonempty_test, execute_all}

module _ {B : Type 0} where
  -- The two servers have the same data and have executed the same commands.
  abbrev pub Same : KvServer B → KvServer B → Type 0
  Same a b = (a.kv_db ≡ b.kv_db) × (a.clerk_log ≡ b.clerk_log)

  execute-Same : (op : Op) (a b : KvServer B) → Same a b → Same (execute op a) (execute op b)
  unfolding execute executed
  execute-Same op a b (db, log) =
      let done : executed op.clerk op.index a ≡ executed op.clerk op.index b =
        rw (executed, log) refl in
      elim (Bool-cases (executed op.clerk op.index b)) [
        | inl e ↦ rw (done, e) (db, log)
        | inr e ↦ rw (done, e) (ap (write op) db, ap (insert op.clerk op.index) log)
      ]

  execute_all-Same :
      (ops : List Op) (a b : KvServer B) → Same a b → Same (execute_all ops a) (execute_all ops b)
  unfolding execute_all
  execute_all-Same [] a b s = s
  execute_all-Same (op ∷ ops) a b s =
      execute_all-Same ops (execute op a) (execute op b) (execute-Same op a b s)

  execute_all-append :
      (ops later : List Op) (kv : KvServer B)
      → execute_all (ops ++ later) kv ≡ execute_all later (execute_all ops kv)
  unfolding execute_all
  execute_all-append [] later kv = refl
  execute_all-append (op ∷ ops) later kv = execute_all-append ops later (execute op kv)

  module _ ⦃snap : Codec Snapshot B⦄ where
    load-encode :
        (a b : KvServer B) → a.rf.persister.snapshot ≡ encode_snapshot b → Same (load_snapshot a) b
    unfolding load_snapshot encode_snapshot decoded_snapshot read_snapshot
    load-encode a b stored =
        let s : Snapshot = record { db = b.kv_db; clerks = b.clerk_log } in
        rw
          (
            stored,
            nonempty_test (snap.encode s) (snap.encode_nonempty s),
            decoded_snapshot,
            snap.decode-encode s,
          )
          (refl, refl)

    -- A server that starts with a snapshot taken after some commands and executes later commands
    -- has the data and the record of executed commands of a server that executes all of them.
    pub execute_all-load_snapshot :
        (ops later : List Op) (kv new : KvServer B)
        → new.rf.persister.snapshot ≡ encode_snapshot (execute_all ops kv)
        → Same (execute_all later (load_snapshot new)) (execute_all (ops ++ later) kv)
    execute_all-load_snapshot ops later kv new stored = rw (execute_all-append ops later kv) (
        execute_all-Same later (load_snapshot new) (execute_all ops kv)
          (load-encode new (execute_all ops kv) stored))
