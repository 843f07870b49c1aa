-- ===== src/Raft/Faults.antt =====
-- Messages that meet a missing test in the handlers of src/raft/raft.go.
use mit_raft.Base.{
  ℕ, ◌≡◌, refl, true, false, ℤ, pos, ltb_ℤ, ◌<ℤ◌, ok, Returns, returned, Returns-if, arith,
  Bool-cases, inl, inr,
}
use mit_raft.Raft.Persister.{Codec}
use mit_raft.Raft.State.{follower, Raft, voted_null, get_last_log_index, get_last_log_term}
use mit_raft.Raft.Role.{Saved, convert_role_to}
use mit_raft.Raft.Vote.{RequestVoteArgs, RequestVoteReply, newer_entries, grant_vote, request_vote}
use mit_raft.Raft.Append.{AppendEntriesArgs, AppendEntriesReply}
use mit_raft.Raft.Election.{Election, vote_reply}
use mit_raft.Raft.Broadcast.{Broadcast, append_reply}

module _ {ℓ} {C B : Type ℓ} ⦃gob : Codec (Saved C) B⦄ where
  -- A request of a term that is not later than the peer's, with the vote at hand.
  grants :
      (args : RequestVoteArgs) (rf : Raft C B) (t : ℤ)
      → ltb_ℤ rf.current_term args.term ≡ false
      → rf.voted_for ≡ voted_null
      → get_last_log_term rf ≡ ok t
      → newer_entries args t rf ≡ true
      → request_vote args rf
        ≡ ok (record { term = rf.current_term; vote_granted = true }, grant_vote args rf)
  unfolding request_vote
  grants args rf t current free last newer = rw (current, last, newer, free)

  -- A peer that gets a vote reply of a later term grants, in its own unchanged term, a vote to any
  -- candidate of that term with a log as new, whoever it has voted for.
  pub votes_twice :
      (el : Election) (reply : RequestVoteReply) (args : RequestVoteArgs) (rf : Raft C B) (t : ℤ)
      → rf.current_term <ℤ reply.term
      → args.term ≡ rf.current_term
      → get_last_log_term rf ≡ ok t
      → newer_entries args t rf ≡ true
      → Returns
          (λ r.
            (r.0.vote_granted ≡ true)
            × (r.1.current_term ≡ rf.current_term)
            × (r.1.voted_for ≡ pos args.candidate_id))
          (request_vote args (vote_reply el reply rf).1)
  unfolding vote_reply convert_role_to grant_vote get_last_log_term get_last_log_index
  votes_twice el reply args rf t later same last newer =
      elim (Bool-cases (ltb_ℤ rf.current_term reply.term)) [
        | inl e ↦
            rw
              (
                e,
                grants args (convert_role_to follower rf) t (rw same (ground arith)) refl last
                    newer,
              )
              (returned (refl, refl, refl))
        | inr e ↦ absurd (ground arith)
      ]

  -- A reply whose term lies after the broadcast's and before the peer's takes the peer back to
  -- that term, as a follower without a vote.
  pub term_goes_back :
      (bc : Broadcast) (server : ℕ) (args : AppendEntriesArgs C) (reply : AppendEntriesReply)
      (rf : Raft C B)
      → bc.cur_term <ℤ reply.term
      → reply.term <ℤ rf.current_term
      → Returns
          (λ r.
            (r.1.current_term ≡ reply.term)
            × (r.1.current_term <ℤ rf.current_term)
            × (r.1.voted_for ≡ voted_null)
            × (r.1.role ≡ follower))
          (append_reply bc server args reply rf)
  unfolding append_reply
  term_goes_back bc server args reply rf newer older =
      Returns-if (ltb_ℤ bc.cur_term reply.term) (λ e. returned (refl, older, refl, refl))
        (λ e. absurd (ground arith))

  -- A vote request of a term before the peer's is granted when the peer has not voted and the
  -- candidate's log is as new; the vote of the present term is spent.
  pub stale_request_granted :
      (args : RequestVoteArgs) (rf : Raft C B) (t : ℤ)
      → args.term <ℤ rf.current_term
      → rf.voted_for ≡ voted_null
      → get_last_log_term rf ≡ ok t
      → newer_entries args t rf ≡ true
      → Returns
          (λ r.
            (r.0.vote_granted ≡ true)
            × (args.term <ℤ r.0.term)
            × (r.1.current_term ≡ rf.current_term)
            × (r.1.voted_for ≡ pos args.candidate_id))
          (request_vote args rf)
  unfolding grant_vote
  stale_request_granted args rf t stale free last newer =
      rw (grants args rf t (ground arith) free last newer) (returned (refl, stale, refl, refl))
