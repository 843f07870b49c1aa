-- ===== src/Raft/Broadcast.antt =====
-- src/raft/raft.go: broadcastEntries. One `Broadcast` is one call of it: what its goroutines, one
-- for each other peer, share. A goroutine takes `prepare_append` and `append_reply` in turn, each
-- under the lock, and repeats while `append_reply` says so.
pub mod Backoff
use mit_raft.Base.{
  ℕ, zero, suc, ◌+◌, ◌-◌, ◌/◌, Bool, true, false, not, ◌&&◌, ◌||◌, ℤ, pos, minus_one, pos_part,
  ltb_ℤ, leb_ℤ, ◌==ℤ◌, ltb, leb, ◌==◌, Option, none, some, List, Run, ok, ◌>>=◌, or_panic, length,
  get_elem?, if◌then◌else◌,
}
use mit_raft.Raft.Persister.{Codec}
use mit_raft.Raft.State.{leader, follower, Entries, Raft, add_idx, load, slice_from, check_state}
use mit_raft.Raft.Role.{Saved, convert_role_to, apply_logs}
use mit_raft.Raft.Append.{AppendEntriesArgs, AppendEntriesReply}
use mit_raft.Raft.Snapshot.{InstallSnapshotArgs, send_snapshot, store}

pub record Broadcast : Type 0 where
  pub cur_term : ℤ
  pub commit_flag : Bool
  pub commit_num : ℕ

pub data Outbound {ℓ} (C B : Type ℓ) : Type ℓ where
  stop : Outbound C B
  snapshot : InstallSnapshotArgs B → Outbound C B
  append : AppendEntriesArgs C → Outbound C B

-- The loop that looks for the last entry of the conflicting term, from position `k` in `logs`
-- down to position 1.
unfoldable pub last_of_term {ℓ} : {C : Type ℓ} → List (Entries C) → ℤ → ℕ → Run (Option ℕ)
last_of_term logs t zero = ok none
last_of_term logs t (suc k) = do
  e ← or_panic (get_elem? logs (suc k))
  if e.term ==ℤ t then ok (some (suc k)) else last_of_term logs t k

module _ {ℓ} {C B : Type ℓ} where
  unfoldable pub broadcast_entries : Raft C B → Broadcast
  broadcast_entries rf = record { cur_term = rf.current_term; commit_flag = true; commit_num = 1 }

  -- Called on a `next` above `last_included_index`, so that it is positive.
  unfoldable pub entries_from : Broadcast → ℕ → Raft C B → Run (AppendEntriesArgs C)
  entries_from bc next rf = do
    prev ← load rf (next - 1)
    es ← slice_from rf next
    ok (record {
      term = bc.cur_term;
      leader_id = rf.me;
      prev_log_index = next - 1;
      prev_log_term = prev.term;
      entries = es;
      leader_commit = rf.commit_index;
    })

  unfoldable pub prepare_append : Broadcast → ℕ → Raft C B → Run (Outbound C B)
  unfolding entries_from
  prepare_append bc server rf = if not (check_state rf leader bc.cur_term) then ok stop else do
    next ← or_panic (get_elem? rf.next_index server)
    if leb_ℤ next (pos rf.last_included_index)
        then ok (snapshot (send_snapshot rf))
        else (do args ← entries_from bc (pos_part next) rf; ok (append args))

  -- Nothing is searched if the hint does not lie above `last_included_index`.
  search_back : AppendEntriesReply → Raft C B → Run (Option ℕ)
  search_back reply rf =
      if leb_ℤ reply.conflict_index (pos rf.last_included_index)
      then ok none
      else last_of_term rf.logs reply.conflict_term
          (pos_part reply.conflict_index - rf.last_included_index)

  resume_at : Option ℕ → Raft C B → ℤ
  resume_at (some p) rf = pos (add_idx rf p + 1)
  resume_at none rf =
      if rf.last_included_index == 0 then pos (add_idx rf 1) else pos rf.last_included_index

  -- Where the leader goes back to, from a reply that names a conflict.
  unfoldable pub back_off : AppendEntriesReply → Raft C B → Run ℤ
  unfolding search_back resume_at
  back_off reply rf =
      if reply.conflict_term ==ℤ minus_one
      then ok reply.conflict_index
      else do found ← search_back reply rf; ok (resume_at found rf)

  -- `matchIndex` and `nextIndex` after the peer has stored everything up to `cur`.
  unfoldable pub record_match : ℕ → ℕ → Raft C B → Run (Raft C B)
  record_match server cur rf = do
    old ← or_panic (get_elem? rf.match_index server)
    if ltb cur old then ok rf else do
      matched ← store rf.match_index server cur
      next ← store rf.next_index server (pos (cur + 1))
      ok (record rf { match_index = matched; next_index = next })

  unfoldable pub count_commit : Broadcast → ℕ → Raft C B → Run (Broadcast × Raft C B × Bool)
  count_commit bc cur rf =
      let num = bc.commit_num + 1 in
      if bc.commit_flag && ltb (rf.peers / 2) num
      then (do
        rf' ← apply_logs (record rf { commit_index = cur })
        ok (record bc { commit_num = num; commit_flag = false }, rf', false))
      else ok (record bc { commit_num = num }, rf, false)

  unfoldable pub append_success :
      Broadcast → ℕ → AppendEntriesArgs C → Raft C B → Run (Broadcast × Raft C B × Bool)
  unfolding count_commit record_match
  append_success bc server args rf =
      let cur = args.prev_log_index + length args.entries in
      if ltb cur rf.commit_index
      then ok (bc, rf, false)
      else do rf' ← record_match server cur rf; count_commit bc cur rf'

  module _ ⦃gob : Codec (Saved C) B⦄ where
    -- The flag of the result is whether the goroutine goes round its loop again.
    unfoldable pub append_reply :
        Broadcast
        → ℕ
        → AppendEntriesArgs C
        → AppendEntriesReply
        → Raft C B
        → Run (Broadcast × Raft C B × Bool)
    unfolding convert_role_to append_success back_off
    append_reply bc server args reply rf =
        if ltb_ℤ bc.cur_term reply.term
        then ok (bc, convert_role_to follower (record rf { current_term = reply.term }), false)
        else if not (check_state rf leader bc.cur_term) || length args.entries == 0
        then ok (bc, rf, false)
        else if reply.success
        then append_success bc server args rf
        else do
          hint ← back_off reply rf
          next ← store rf.next_index server hint
          ok (bc, record rf { next_index = next }, true)
