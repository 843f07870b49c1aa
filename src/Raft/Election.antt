-- ===== src/Raft/Election.antt =====
-- src/raft/raft.go: the election timer of Make's loop, and leaderElection. One `Election` is one
-- call of leaderElection, whose replies come in any order, at most one from each other peer.
use mit_raft.Base.{
  ℕ, ◌+◌, ◌/◌, Bool, true, false, not, ◌&&◌, ltb_ℤ, ltb, Run, ok, ◌>>=◌, if◌then◌else◌,
}
use mit_raft.Raft.Persister.{Codec}
use mit_raft.Raft.State.{
  leader, candidate, follower, Raft, get_last_log_index, get_last_log_term, check_state,
}
use mit_raft.Raft.Role.{Saved, convert_role_to}
use mit_raft.Raft.Vote.{RequestVoteArgs, RequestVoteReply}

pub record Election : Type 0 where
  pub request : RequestVoteArgs
  pub vote_cnt : ℕ
  pub vote_flag : Bool

module _ {ℓ} {C B : Type ℓ} where
  -- The request that every other peer is sent, and the vote for itself.
  unfoldable pub leader_election : Raft C B → Run Election
  leader_election rf = do
    t ← get_last_log_term rf
    ok (record {
      request = record {
        term = rf.current_term;
        candidate_id = rf.me;
        last_log_index = get_last_log_index rf;
        last_log_term = t;
      };
      vote_cnt = 1;
      vote_flag = true;
    })

  -- The test before each follower is sent the request; the call of leaderElection ends if it fails.
  unfoldable pub may_send : Election → Raft C B → Bool
  may_send el rf = check_state rf candidate el.request.term

  module _ ⦃gob : Codec (Saved C) B⦄ where
    -- `case <-time.After(eTimeout)` of the loop in Make
    unfoldable pub election_timeout : Raft C B → Raft C B
    unfolding convert_role_to
    election_timeout rf = convert_role_to candidate rf

    -- A granted vote of the election's own term.
    unfoldable pub count_vote : Election → Raft C B → Election × Raft C B
    unfolding convert_role_to
    count_vote el rf =
        let cnt = el.vote_cnt + 1 in
        if el.vote_flag && ltb (rf.peers / 2) cnt
        then (
          record el { vote_cnt = cnt; vote_flag = false },
          record (convert_role_to leader rf) { leader_ch = true },
        )
        else (record el { vote_cnt = cnt }, rf)

    -- The goroutine's part after `sendRequestVote` has returned true.
    unfoldable pub vote_reply : Election → RequestVoteReply → Raft C B → Election × Raft C B
    unfolding convert_role_to count_vote
    vote_reply el reply rf =
        if ltb_ℤ rf.current_term reply.term
        then (el, convert_role_to follower rf)
        else if not (check_state rf candidate el.request.term)
        then (el, rf)
        else if reply.vote_granted
        then count_vote el rf
        else (el, rf)
