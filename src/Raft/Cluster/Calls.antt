-- ===== src/Raft/Cluster/Calls.antt =====
-- src/raft/raft.go, for elections: what RequestVote grants, how leaderElection starts, and what a
-- reply does to it.
use mit_raft.Base.{
  ◌+◌, ◌/◌, ◌<◌, ◌≡◌, refl, ◌⊎◌, inl, inr, true, false, ◌&&◌, ℤ, pos, ltb_ℤ, ltb, ◌≤ℤ◌, ==ℤ→eq,
  eq_of_parts, Ensures, value, Ensures-after, arith, Bool-cases,
}
use mit_raft.Raft.Persister.{Codec}
use mit_raft.Raft.State.{
  Role, Raft, leader, candidate, follower, role_eq, check_state, get_last_log_term,
}
use mit_raft.Raft.Role.{Saved, persist, convert_role_to, adopt_term}
use mit_raft.Raft.Vote.{
  RequestVoteArgs, RequestVoteReply, newer_entries, vote_or_not, grant_vote, request_vote,
}
use mit_raft.Raft.Election.{Election, leader_election, count_vote, vote_reply}

role_eq→eq : (a b : Role) → role_eq a b ≡ true → a ≡ b
role_eq→eq leader leader h = refl
role_eq→eq candidate candidate h = refl
role_eq→eq follower follower h = refl
role_eq→eq leader candidate h = absurd cc
role_eq→eq leader follower h = absurd cc
role_eq→eq candidate leader h = absurd cc
role_eq→eq candidate follower h = absurd cc
role_eq→eq follower leader h = absurd cc
role_eq→eq follower candidate h = absurd cc

module _ {ℓ} {C B : Type ℓ} where
  pub check_state-eq :
      (rf : Raft C B) (role : Role) (t : ℤ)
      → check_state rf role t ≡ true
      → (rf.role ≡ role) × (rf.current_term ≡ t)
  unfolding check_state
  check_state-eq rf role t h =
      (role_eq→eq rf.role role (ground (arith, h)), ==ℤ→eq rf.current_term t (ground (arith, h)))

  -- The reply has the term from before; if it grants the vote, and the request is not behind, then
  -- the peer has voted for the candidate in the request's term.
  abbrev pub Granted : RequestVoteArgs → Raft C B → RequestVoteReply × Raft C B → Type 0
  Granted args s (reply, t) =
      (reply.term ≡ s.current_term)
      × (reply.vote_granted ≡ true
          → s.current_term ≤ℤ args.term
          → (t.current_term ≡ args.term) × (t.voted_for ≡ pos args.candidate_id))

  pub leader_election-first :
      (rf : Raft C B)
      → Ensures (λ el. (el.request.candidate_id ≡ rf.me) × (el.vote_cnt ≡ 1)) (leader_election rf)
  unfolding leader_election
  leader_election-first rf = Ensures-after (get_last_log_term rf) λ t. value (refl, refl)

  -- A candidate that has become leader.
  abbrev pub Promoted : Raft C B → Raft C B → Type 0
  Promoted s t =
      (t.current_term ≡ s.current_term)
      × (t.voted_for ≡ s.voted_for)
      × (t.me ≡ s.me)
      × (t.peers ≡ s.peers)
      × (t.role ≡ leader)

  -- A reply with a vote that counts.
  pub record Scored (el : Election) (s : Raft C B) (after : Election × Raft C B) : Type ℓ where
    pub role : s.role ≡ candidate
    pub current : s.current_term ≡ el.request.term
    pub request : after.0.request ≡ el.request
    pub count : after.0.vote_cnt ≡ el.vote_cnt + 1
    pub result : (after.1 ≡ s) ⊎ (Promoted s after.1 × (s.peers / 2 < el.vote_cnt + 1))

  module _ ⦃gob : Codec (Saved C) B⦄ where
    adopt_term_current :
        (t : ℤ) (rf : Raft C B) → rf.current_term ≤ℤ t → (adopt_term t rf).current_term ≡ t
    unfolding adopt_term convert_role_to persist
    adopt_term_current t rf h = ground (arith, eq_of_parts rf.current_term t)

    pub request_vote-Granted :
        (args : RequestVoteArgs) (s : Raft C B) → Ensures (Granted args s) (request_vote args s)
    unfolding request_vote grant_vote persist
    request_vote-Granted args s =
        let met = adopt_term args.term s in
        Ensures-after (get_last_log_term met) λ t.
          elim (Bool-cases (newer_entries args t met && vote_or_not args met)) [
            | inl e ↦ rw e (value (refl, λ g h. (adopt_term_current args.term s h, refl)))
            | inr e ↦ rw e (value (refl, λ g h. absurd cc))
          ]

    count_vote-Scored :
        (el : Election) (s : Raft C B)
        → s.role ≡ candidate
        → s.current_term ≡ el.request.term
        → Scored el s (count_vote el s)
    unfolding count_vote convert_role_to persist
    count_vote-Scored el s role current =
        elim (Bool-cases (el.vote_flag && ltb (s.peers / 2) (el.vote_cnt + 1))) [
          | inl e ↦ rw e (record {
            role = role;
            current = current;
            request = refl;
            count = refl;
            result = inr ((refl, refl, refl, refl, refl), ground (arith, e));
          })
          | inr e ↦ rw e (record {
            role = role;
            current = current;
            request = refl;
            count = refl;
            result = inl refl;
          })
        ]

    pub vote_reply-cases :
        (el : Election) (reply : RequestVoteReply) (s : Raft C B)
        → reply.term ≤ℤ s.current_term
        → (vote_reply el reply s ≡ (el, s))
          ⊎ ((reply.vote_granted ≡ true) × Scored el s (vote_reply el reply s))
    unfolding vote_reply
    vote_reply-cases el reply s timely =
        let now : ltb_ℤ s.current_term reply.term ≡ false = ground arith in
        elim (Bool-cases (check_state s candidate el.request.term)) [
          | inl e ↦ elim (Bool-cases reply.vote_granted) [
            | inl g ↦
                let (role, current) = check_state-eq s candidate el.request.term e in
                inr (g, rw (now, e, g) (count_vote-Scored el s role current))
            | inr g ↦ inl (rw (now, e, g))
          ]
          | inr e ↦ inl (rw (now, e))
        ]
