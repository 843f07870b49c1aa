-- ===== src/Raft/Vote.antt =====
-- src/raft/raft.go: RequestVote.
use mit_raft.Base.{
  ℕ, Bool, true, ◌&&◌, ◌||◌, ℤ, pos, ltb_ℤ, leb, ◌==ℤ◌, Run, ok, ◌>>=◌, if◌then◌else◌,
}
use mit_raft.Raft.Persister.{Codec}
use mit_raft.Raft.State.{Raft, voted_null, get_last_log_index, get_last_log_term}
use mit_raft.Raft.Role.{Saved, persist, adopt_term}

pub record RequestVoteArgs : Type 0 where
  pub term : ℤ
  pub candidate_id : ℕ
  pub last_log_index : ℕ
  pub last_log_term : ℤ

pub record RequestVoteReply : Type 0 where
  pub term : ℤ
  pub vote_granted : Bool

module _ {ℓ} {C B : Type ℓ} where
  -- `newerEntries`, for a peer whose last entry has term `t`
  abbrev pub newer_entries : RequestVoteArgs → ℤ → Raft C B → Bool
  newer_entries args t rf =
      ltb_ℤ t args.last_log_term
      || (args.last_log_term ==ℤ t && leb (get_last_log_index rf) args.last_log_index)

  abbrev pub vote_or_not : RequestVoteArgs → Raft C B → Bool
  vote_or_not args rf = rf.voted_for ==ℤ voted_null || rf.voted_for ==ℤ pos args.candidate_id

  module _ ⦃gob : Codec (Saved C) B⦄ where
    unfoldable pub grant_vote : RequestVoteArgs → Raft C B → Raft C B
    unfolding persist
    grant_vote args rf = persist (record rf { voted_for = pos args.candidate_id; vote_ch = true })

    -- The reply has the term from before the request's is adopted.
    unfoldable pub request_vote : RequestVoteArgs → Raft C B → Run (RequestVoteReply × Raft C B)
    unfolding adopt_term grant_vote
    request_vote args rf = do
      let rf' = adopt_term args.term rf
      t ← get_last_log_term rf'
      let granted = newer_entries args t rf' && vote_or_not args rf'
      ok (
        record { term = rf.current_term; vote_granted = granted },
        if granted then grant_vote args rf' else rf',
      )
