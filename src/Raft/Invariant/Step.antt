-- ===== src/Raft/Invariant/Step.antt =====
-- The invariant over every event and run of events (src/raft/raft.go).
use mit_raft.Base.{
  ℕ, ◌+◌, ◌≡◌, refl, ◌&&◌, true, ℤ, pos, [], ◌∷◌, ◌++◌, Run, ok, Returns, returned, Returns-bind,
  length, length-append, length-replicate, arith, Bool-cases, inl, inr,
}
use mit_raft.Raft.Persister.{Codec, make_persister, read_raft_state}
use mit_raft.Raft.Snapshot.{store}
use mit_raft.Raft.State.{leader, candidate, follower, Command, Entries, Raft, role_eq}
use mit_raft.Raft.Role.{Saved, adopt_term, convert_role_to}
use mit_raft.Raft.Vote.{
  RequestVoteArgs, RequestVoteReply, newer_entries, vote_or_not, grant_vote, request_vote,
}
use mit_raft.Raft.Election.{Election, count_vote, vote_reply}
use mit_raft.Raft.Node.{
  Wake, appended, voted, leading, timed_out, Event, appends, votes, installs, starts, wakes, kills,
  vote_replies, append_replies, snapshot_replies, takes, restarts, kill, start, wake, step, make,
  read_persist,
}
use mit_raft.Raft.Deliver.{last_log_term_returns}
use mit_raft.Raft.Durable.{stored}
use mit_raft.Raft.Invariant.{Shape, Inv, Genuine, persist-Inv, convert_role_to-Inv, adopt_term-Inv}
use mit_raft.Raft.Invariant.Append.{append_entries-Inv}
use mit_raft.Raft.Invariant.Leader.{append_reply-Inv, snapshot_reply-Inv}
use mit_raft.Raft.Invariant.Snapshots.{take_snapshot-Inv, install_snapshot-Inv, make-Inv}

module _ {ℓ} {C B : Type ℓ} ⦃gob : Codec (Saved C) B⦄ where
  grant_vote-Inv : (args : RequestVoteArgs) (rf : Raft C B) → Inv rf → Inv (grant_vote args rf)
  unfolding grant_vote
  grant_vote-Inv args rf i =
      persist-Inv (record rf { voted_for = pos args.candidate_id; vote_ch = true })
        (ground (arith, i.shape))

  request_vote-Inv :
      (args : RequestVoteArgs) (rf : Raft C B)
      → Inv rf
      → Returns (λ r. Inv r.1) (request_vote args rf)
  unfolding request_vote
  request_vote-Inv args rf i =
      let v = adopt_term-Inv args.term rf i in
      let (e, found) = last_log_term_returns (adopt_term args.term rf) v.shape.nonempty in
      rw found
        (elim (Bool-cases (
          newer_entries args e.term (adopt_term args.term rf)
          && vote_or_not args (adopt_term args.term rf))) [
            | inl granted ↦ rw granted (returned (grant_vote-Inv args _ v))
            | inr refused ↦ rw refused (returned v)
          ])

  vote_reply-Inv :
      (el : Election) (reply : RequestVoteReply) (rf : Raft C B)
      → Inv rf
      → Inv (vote_reply el reply rf).1
  unfolding vote_reply count_vote
  vote_reply-Inv el reply rf i =
      let v = convert_role_to-Inv leader rf i.shape in
      let elected : Inv (record (convert_role_to leader rf) { leader_ch = true }) = record {
        shape = ground (arith, v.shape);
        durable = v.durable;
      } in
      ground (arith, i, elected, convert_role_to-Inv follower rf i.shape)

  start-Inv : (c : C) (rf : Raft C B) → Inv rf → Inv (start c rf).1
  unfolding start
  start-Inv c rf i = elim (Bool-cases (role_eq rf.role leader)) [
    | inl e ↦ rw e (persist-Inv (record rf { logs = rf.logs ++ entry ∷ [] }) shape)
    | inr e ↦ rw e i
  ]
    where
      entry : Entries C
      entry = record {
        term = rf.current_term;
        index = length rf.logs + rf.last_included_index;
        command = Command.cmd c;
      }

      shape : Shape (record rf { logs = rf.logs ++ entry ∷ [] })
      shape = ground (arith, i.shape, length-append rf.logs (entry ∷ []))

  wake-Inv : (w : Wake) (rf : Raft C B) → Inv rf → Inv (wake w rf)
  unfolding wake
  wake-Inv appended rf i = record { shape = ground (arith, i.shape); durable = i.durable }
  wake-Inv voted rf i = record { shape = ground (arith, i.shape); durable = i.durable }
  wake-Inv leading rf i = record { shape = ground (arith, i.shape); durable = i.durable }
  wake-Inv timed_out rf i = convert_role_to-Inv candidate rf i.shape

  kill-Inv : (rf : Raft C B) → Inv rf → Inv (kill rf)
  unfolding kill
  kill-Inv rf i = record { shape = ground (arith, i.shape); durable = i.durable }

  -- Every event at a peer whose invariant holds (log not empty, everything committed applied,
  -- commit index between snapshot and end of log, stored state equal to the state in memory) runs
  -- without a panic and ends with the invariant, if the event is genuine: AppendEntries does not
  -- contradict committed entries, and replies and snapshots are about the peer's own log.
  pub step-Inv :
      (rf : Raft C B) (e : Event C B) → Inv rf → Genuine rf e → Returns (λ r. Inv r) (step rf e)
  unfolding step
  step-Inv rf (appends args) i g = Returns-bind (append_entries-Inv args rf i g) λ r v. returned v
  step-Inv rf (votes args) i g = Returns-bind (request_vote-Inv args rf i) λ r v. returned v
  step-Inv rf (installs args) i g = Returns-bind (install_snapshot-Inv args rf i) λ r v. returned v
  step-Inv rf (starts c) i g = returned (start-Inv c rf i)
  step-Inv rf (wakes w) i g = returned (wake-Inv w rf i)
  step-Inv rf kills i g = returned (kill-Inv rf i)
  step-Inv rf (vote_replies el reply) i g = returned (vote_reply-Inv el reply rf i)
  step-Inv rf (append_replies bc server args reply) i g =
      Returns-bind (append_reply-Inv bc server args reply rf i g) λ r v. returned v
  step-Inv rf (snapshot_replies arg server reply) i g = snapshot_reply-Inv arg server reply rf i g.0
  step-Inv rf (takes raw applied_id term) i g = take_snapshot-Inv raw applied_id term rf i g.0
  step-Inv rf restarts i g = make-Inv rf i

  -- The states that a peer goes through, from `rf` on, by genuine events.
  pub data Reach (rf : Raft C B) : Raft C B → Type ℓ where
    here : Reach rf rf
    next :
        {s t : Raft C B} (e : Event C B) → Reach rf s → Genuine s e → step s e ≡ ok t → Reach rf t

  Returns-ok : {r : Run (Raft C B)} (t : Raft C B) → Returns (λ s. Inv s) r → r ≡ ok t → Inv t
  Returns-ok t (returned {a} v) e = let same : a ≡ t = cc in rw same at v

  -- A good state stays good.
  pub Reach-Inv : {rf s : Raft C B} → Inv rf → Reach rf s → Inv s
  Reach-Inv i here = i
  Reach-Inv i (next {s} {t} e r g h) = Returns-ok t (step-Inv s e (Reach-Inv i r) g) h

  -- A peer that starts with empty storage is in a good state.
  pub make_empty-Inv :
      (peers me : ℕ) → Returns (λ (rf : Raft C B). Inv rf) (make peers me make_persister)
  unfolding make read_persist read_raft_state store make_persister stored
  make_empty-Inv peers me = returned (record {
    shape =
        ground (arith, length-replicate {A = ℤ} peers (pos 0), length-replicate {A = ℕ} peers 0);
    durable = record {
      terms = refl;
      votes = refl;
      tails = refl;
      nonempty = omega arith;
      indices = refl;
      included = refl;
    };
  })
