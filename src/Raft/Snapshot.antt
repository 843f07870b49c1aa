-- ===== src/Raft/Snapshot.antt =====
-- src/raft/raft.go: TakeSnapshot, InstallSnapshot and sendSnapshot.
use mit_raft.Base.{
  ℕ, ◌||◌, true, false, not, ℤ, pos, ◌+◌, ltb_ℤ, leb, List, [], ◌∷◌, ◌++◌, Run, ok, panic, ◌>>=◌,
  length, ltb, set, max, if◌then◌else◌,
}
use mit_raft.Raft.Persister.{Codec, read_snapshot}
use mit_raft.Raft.State.{
  leader, Command, Entries, Payload, ApplyMsg, Raft, get_last_log_index, slice_from, check_state,
}
use mit_raft.Raft.Role.{Saved, persist_state_and_snapshot, adopt_term}

pub record InstallSnapshotArgs {ℓ} (B : Type ℓ) : Type ℓ where
  pub term : ℤ
  pub leader_id : ℕ
  pub last_included_index : ℕ
  pub last_included_term : ℤ
  pub snapshot : List B

pub record InstallSnapshotReply : Type 0 where
  pub term : ℤ

-- `rf.nextIndex[server] = …` panics out of range.
unfoldable pub store {ℓ} : {A : Type ℓ} → List A → ℕ → A → Run (List A)
store a i v = if ltb i (length a) then ok (set a i v) else panic

module _ {ℓ} {C B : Type ℓ} where
  -- The log that InstallSnapshot keeps.
  unfoldable pub snapshot_logs : InstallSnapshotArgs B → Raft C B → Run (List (Entries C))
  snapshot_logs args rf =
      if leb args.last_included_index (get_last_log_index rf)
      then slice_from rf args.last_included_index
      else ok (
          record {
            term = args.last_included_term;
            index = args.last_included_index;
            command = Command.placeholder;
          }
          ∷ [])

  -- The arguments that sendSnapshot builds while it holds the lock.
  unfoldable pub send_snapshot : Raft C B → InstallSnapshotArgs B
  unfolding read_snapshot
  send_snapshot rf = record {
    term = rf.current_term;
    leader_id = rf.me;
    last_included_index = rf.last_included_index;
    last_included_term = rf.last_included_term;
    snapshot = read_snapshot rf.persister;
  }

  module _ ⦃gob : Codec (Saved C) B⦄ where
    unfoldable pub take_snapshot : List B → ℕ → ℤ → Raft C B → Run (Raft C B)
    unfolding persist_state_and_snapshot
    take_snapshot raw applied_id term rf =
        if leb applied_id rf.last_included_index then ok rf else do
          kept ← slice_from rf applied_id
          ok (
              persist_state_and_snapshot
                (record rf {
                  logs = kept;
                  last_included_term = term;
                  last_included_index = applied_id;
                })
                raw)

    -- The snapshot is not stale, and `rf` has adopted its term.
    unfoldable pub install : InstallSnapshotArgs B → Raft C B → Run (Raft C B)
    unfolding persist_state_and_snapshot
    install args rf = do
      kept ← snapshot_logs args rf
      let trimmed = record rf {
        logs = kept;
        last_included_index = args.last_included_index;
        last_included_term = args.last_included_term;
        last_applied = max args.last_included_index rf.last_applied;
        commit_index = max args.last_included_index rf.commit_index;
      }
      let stored = persist_state_and_snapshot trimmed args.snapshot
      let msg : ApplyMsg C B = record {
        command_valid = false;
        payload = Payload.snapshot args.snapshot;
        command_index = args.last_included_index;
        commit_term = args.last_included_term;
        role = rf.role;
      }
      ok (record stored { apply_ch = rf.apply_ch ++ msg ∷ [] })

    unfoldable pub install_snapshot :
        InstallSnapshotArgs B → Raft C B → Run (InstallSnapshotReply × Raft C B)
    unfolding install adopt_term
    install_snapshot args rf =
        if ltb_ℤ args.term rf.current_term || leb args.last_included_index rf.last_included_index
        then ok (record { term = rf.current_term }, rf)
        else do
          rf' ← install args (record (adopt_term args.term rf) { append_ch = true })
          ok (record { term = rf.current_term }, rf')

    -- The part of sendSnapshot after the reply has come.
    unfoldable pub snapshot_reply :
        InstallSnapshotArgs B → ℕ → InstallSnapshotReply → Raft C B → Run (Raft C B)
    unfolding adopt_term
    snapshot_reply arg server reply rf =
        if ltb_ℤ rf.current_term reply.term
        then ok (adopt_term reply.term rf)
        else if not (check_state rf leader arg.term)
        then ok rf
        else do
          next ← store rf.next_index server (pos (arg.last_included_index + 1))
          matched ← store rf.match_index server arg.last_included_index
          ok (record rf { next_index = next; match_index = matched })
