-- ===== src/Raft/Invariant/Snapshots.antt =====
-- The invariant over TakeSnapshot, InstallSnapshot and Make (src/raft/raft.go).
use mit_raft.Base.{
  ℕ, ◌+◌, ◌-◌, ◌≤◌, ◌<◌, ◌≡◌, refl, ◌||◌, ℤ, ltb_ℤ, leb, List, ok, Returns, returned, Returns-bind,
  Returns-if, Returns-mono, length, drop, length-drop, arith, max,
}
use mit_raft.Raft.Persister.{Codec}
use mit_raft.Raft.State.{Entries, ApplyMsg, Raft, slice_from, get_last_log_index}
use mit_raft.Raft.Role.{Saved, persist_state_and_snapshot}
use mit_raft.Raft.Snapshot.{
  InstallSnapshotArgs, snapshot_logs, take_snapshot, install, install_snapshot,
}
use mit_raft.Raft.Node.{make}
use mit_raft.Raft.Durable.{persist_state_and_snapshot-Durable, make-Returns}
use mit_raft.Raft.Invariant.{Shape, Inv, adopt_term-Inv, adopt_term_shape, heard}

module _ {ℓ} {C B : Type ℓ} where
  -- A suffix of the log that starts at a stored index.
  pub slice_from_returns :
      (rf : Raft C B) (i : ℕ)
      → rf.last_included_index ≤ i
      → i < rf.last_included_index + length rf.logs
      → (l : List (Entries C)) × (slice_from rf i ≡ ok l)
        × (length l ≡ rf.last_included_index + length rf.logs - i)
        × (l ≡ drop (i - rf.last_included_index) rf.logs)
  unfolding slice_from
  slice_from_returns rf i low high = (
    drop (i - rf.last_included_index) rf.logs,
    ground arith,
    omega (arith, length-drop (i - rf.last_included_index) rf.logs),
    refl,
  )

  -- What InstallSnapshot keeps reaches as far as the log did, and covers the snapshot's index.
  snapshot_logs-Returns :
      (args : InstallSnapshotArgs B) (rf : Raft C B)
      → 0 < length rf.logs
      → rf.last_included_index ≤ args.last_included_index
      → Returns
          (λ l.
            (0 < length l)
            × (rf.last_included_index + length rf.logs ≤ args.last_included_index + length l))
          (snapshot_logs args rf)
  unfolding snapshot_logs get_last_log_index
  snapshot_logs-Returns args rf h low =
      Returns-if (leb args.last_included_index (get_last_log_index rf))
        (λ inside.
          let high : args.last_included_index < rf.last_included_index + length rf.logs =
            ground arith in
          let (l, cut, size, same) = slice_from_returns rf args.last_included_index low high in
          rw cut (returned (omega (arith, size), omega (arith, size))))
        (λ beyond. returned (omega arith, ground arith))

  module _ ⦃gob : Codec (Saved C) B⦄ where
    pub persisted-Inv :
        (rf : Raft C B) (data' : List B) → Shape rf → Inv (persist_state_and_snapshot rf data')
    unfolding persist_state_and_snapshot
    persisted-Inv rf data' s = record {
      shape = ground arith;
      durable = persist_state_and_snapshot-Durable rf data' s.nonempty;
    }

    pub take_snapshot-Inv :
        (raw : List B) (applied_id : ℕ) (term : ℤ) (rf : Raft C B)
        → Inv rf
        → applied_id ≤ rf.commit_index
        → Returns Inv (take_snapshot raw applied_id term rf)
    unfolding take_snapshot
    take_snapshot-Inv raw applied_id term rf i h =
        Returns-if (leb applied_id rf.last_included_index) (λ old. returned i)
          λ new.
            let low : rf.last_included_index ≤ applied_id = ground arith in
            let high : applied_id < rf.last_included_index + length rf.logs =
              omega (arith, i.shape.committed) in
            let (l, cut, size, same) = slice_from_returns rf applied_id low high in
            rw cut (
              returned (
                persisted-Inv
                  (record rf {
                    logs = l;
                    last_included_term = term;
                    last_included_index = applied_id;
                  })
                  raw (ground (arith, i.shape, size))))

    install-Inv :
        (args : InstallSnapshotArgs B) (rf : Raft C B)
        → Inv rf
        → rf.last_included_index < args.last_included_index
        → Returns Inv (install args rf)
    unfolding install
    install-Inv args rf i h =
        Returns-bind (snapshot_logs-Returns args rf i.shape.nonempty (omega arith)) λ l s.
          returned (reframed (persisted-Inv (trimmed l) args.snapshot (ground (arith, i.shape, s))))
      where
        trimmed : List (Entries C) → Raft C B
        trimmed l = record rf {
          logs = l;
          last_included_index = args.last_included_index;
          last_included_term = args.last_included_term;
          last_applied = max args.last_included_index rf.last_applied;
          commit_index = max args.last_included_index rf.commit_index;
        }

        reframed :
            {r : Raft C B} {ch : List (ApplyMsg C B)} → Inv r → Inv (record r { apply_ch = ch })
        reframed v = record { shape = ground (arith, v.shape); durable = v.durable }

    pub install_snapshot-Inv :
        (args : InstallSnapshotArgs B) (rf : Raft C B)
        → Inv rf
        → Returns (λ r. Inv r.1) (install_snapshot args rf)
    unfolding install_snapshot
    install_snapshot-Inv args rf i =
        Returns-if
          (ltb_ℤ args.term rf.current_term || leb args.last_included_index rf.last_included_index)
          (λ stale. returned i)
          λ new.
            let v = adopt_term-Inv args.term rf i in
            Returns-bind
              (install-Inv args (heard args.term rf)
                (record { shape = ground (arith, v.shape); durable = v.durable })
                (ground (arith, adopt_term_shape args.term rf)))
              λ rf' w. returned w

    pub make-Inv :
        (rf : Raft C B)
        → Inv rf
        → Returns (λ (r : Raft C B). Inv r) (make rf.peers rf.me rf.persister)
    make-Inv rf i =
        Returns-mono
          (λ r (agrees, nonempty, head, commit, applied, store, peers, nexts, matches). record {
            shape = omega arith;
            durable = rw store agrees;
          })
          (make-Returns rf.peers rf.me rf.persister i.durable.nonempty)
