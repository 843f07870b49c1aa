-- ===== src/Raft/Append.antt =====
-- src/raft/raft.go: AppendEntries, the follower's side of replication.
pub mod Match
use mit_raft.Base.{
  ℕ, zero, suc, ◌+◌, ◌-◌, Bool, true, false, ℤ, pos, minus_one, ltb_ℤ, ◌==ℤ◌, ltb, ◌==◌, List, [],
  ◌∷◌, ◌++◌, none, some, Run, ok, panic, ◌>>=◌, or_panic, length, get_elem?, take, if◌then◌else◌,
  min,
}
use mit_raft.Raft.Persister.{Codec}
use mit_raft.Raft.State.{Entries, Raft, add_idx, sub_idx, get_last_log_index, load}
use mit_raft.Raft.Role.{Saved, persist, adopt_term, apply_logs}

pub record AppendEntriesArgs {ℓ} (C : Type ℓ) : Type ℓ where
  pub term : ℤ
  pub leader_id : ℕ
  pub prev_log_index : ℕ
  pub prev_log_term : ℤ
  pub entries : List (Entries C)
  pub leader_commit : ℕ

pub record AppendEntriesReply : Type 0 where
  pub term : ℤ
  pub success : Bool
  pub conflict_index : ℤ
  pub conflict_term : ℤ

abbrev pub rejection : ℤ → ℤ → ℤ → AppendEntriesReply
rejection t index conflict = record {
  term = t;
  success = false;
  conflict_index = index;
  conflict_term = conflict;
}

-- The loop that looks for the first entry of the conflicting term, from position `k` in `logs`
-- down to position 1; `hint` is `reply.ConflictIndex` so far.
unfoldable pub first_of_term {ℓ} : {C : Type ℓ} → List (Entries C) → ℕ → ℤ → ℕ → ℤ → Run ℤ
first_of_term logs base t zero hint = ok hint
first_of_term logs base t (suc k) hint = do
  e ← or_panic (get_elem? logs (suc k))
  if e.term ==ℤ t then first_of_term logs base t k (pos (suc k + base)) else ok hint

-- The loop over `args.Entries`, of which the head belongs at position `ind`: the first entry that
-- differs in its term, or that is missing, is written with all that follow it.
unfoldable pub merge {ℓ} : {C : Type ℓ} → List (Entries C) → ℕ → List (Entries C) → List (Entries C)
merge logs ind [] = logs
merge logs ind (e ∷ es) = elim (get_elem? logs ind) [
  | none ↦ logs ++ e ∷ es
  | some x ↦ if x.term ==ℤ e.term then merge logs (ind + 1) es else take ind logs ++ e ∷ es
]

module _ {ℓ} {C B : Type ℓ} where
  -- The last part: `if args.LeaderCommit > rf.commitIndex { … }`
  unfoldable pub advance_commit : ℕ → Raft C B → Run (Raft C B)
  advance_commit leader_commit rf =
      if ltb rf.commit_index leader_commit
      then apply_logs
          (record rf { commit_index = min leader_commit (add_idx rf (length rf.logs - 1)) })
      else ok rf

  module _ ⦃gob : Codec (Saved C) B⦄ where
    -- The entry at `prev_log_index` matches.
    unfoldable pub accept : AppendEntriesArgs C → Raft C B → Run (AppendEntriesReply × Raft C B)
    unfolding persist
    accept args rf = do
      let agreed = record rf { current_term = args.term }
      let merged = record agreed {
        logs = merge rf.logs (sub_idx rf (args.prev_log_index + 1)) args.entries;
      }
      let stored = if length args.entries == 0 then merged else persist merged
      rf' ← advance_commit args.leader_commit stored
      ok (
        record {
          term = rf.current_term;
          success = true;
          conflict_index = minus_one;
          conflict_term = minus_one;
        },
        rf',
      )

    -- `args.term` is not behind the term of the peer, which has adopted it.
    unfoldable pub append_current :
        AppendEntriesArgs C → Raft C B → Run (AppendEntriesReply × Raft C B)
    unfolding accept
    append_current args rf =
        if ltb (get_last_log_index rf) args.prev_log_index
        then ok (rejection rf.current_term (pos (get_last_log_index rf + 1)) minus_one, rf)
        else if ltb args.prev_log_index rf.last_included_index
        then ok (rejection rf.current_term (pos (rf.last_included_index + 1)) minus_one, rf)
        else do
          e ← load rf args.prev_log_index
          if e.term ==ℤ args.prev_log_term then accept args rf else do
            hint ←
                first_of_term rf.logs rf.last_included_index e.term (sub_idx rf args.prev_log_index)
                  minus_one
            ok (rejection rf.current_term hint e.term, rf)

    unfoldable pub append_entries :
        AppendEntriesArgs C → Raft C B → Run (AppendEntriesReply × Raft C B)
    unfolding append_current adopt_term
    append_entries args rf =
        if ltb_ℤ args.term rf.current_term
        then ok (rejection rf.current_term minus_one minus_one, rf)
        else append_current args (record (adopt_term args.term rf) { append_ch = true })
