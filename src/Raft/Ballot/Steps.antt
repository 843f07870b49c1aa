-- ===== src/Raft/Ballot/Steps.antt =====
-- Every event of a peer (src/raft/raft.go), and its term and vote.
use mit_raft.Base.{
  ◌≡◌, refl, inl, inr, lt-suc_ℤ, ok, Ensures, value, Ensures-ok, Ensures-mono, Ensures-bind,
}
use mit_raft.Raft.Persister.{Codec}
use mit_raft.Raft.State.{Raft}
use mit_raft.Raft.Role.{Saved}
use mit_raft.Raft.Node.{
  Wake, appended, voted, leading, timed_out, Event, appends, votes, installs, starts, wakes, kills,
  vote_replies, append_replies, snapshot_replies, takes, restarts, kill, wake, step,
}
use mit_raft.Raft.Invariant.Step.{Reach, Reach-Inv}
use mit_raft.Raft.Invariant.{Inv, Genuine}
use mit_raft.Raft.Ballot.{Later, Later-trans, Steady, IsTimely}
use mit_raft.Raft.Ballot.Handlers.{
  append_entries-Steady, request_vote-Steady, install_snapshot-Steady, take_snapshot-Steady,
  snapshot_reply-Steady, append_reply-Steady, vote_reply-Later, start-Steady, make-Steady,
}

module _ {ℓ} {C B : Type ℓ} ⦃gob : Codec (Saved C) B⦄ where
  -- The events that make neither a candidate nor a leader.
  abbrev pub IsPassive : Event C B → Type 0
  IsPassive (vote_replies el reply) = ⊥
  IsPassive (wakes timed_out) = ⊥
  IsPassive _ = Unit

  wake-Steady : (w : Wake) (rf : Raft C B) → IsPassive (wakes w) → Steady rf (wake w rf)
  unfolding wake
  wake-Steady appended rf p = (inr (refl, inr refl), (refl, refl, inr (refl, refl)))
  wake-Steady voted rf p = (inr (refl, inr refl), (refl, refl, inr (refl, refl)))
  wake-Steady leading rf p = (inr (refl, inr refl), (refl, refl, inr (refl, refl)))
  wake-Steady timed_out rf p = absurd p

  pub step-Steady :
      (rf : Raft C B) (e : Event C B)
      → IsPassive e
      → Inv rf
      → IsTimely rf e
      → Ensures (Steady rf) (step rf e)
  unfolding step kill
  step-Steady rf (appends args) p i t = Ensures-bind (append_entries-Steady args rf) λ r s. value s
  step-Steady rf (votes args) p i t = Ensures-bind (request_vote-Steady args rf) λ r s. value s
  step-Steady rf (installs args) p i t =
      Ensures-bind (install_snapshot-Steady args rf) λ r s. value s
  step-Steady rf (starts c) p i t = value (start-Steady c rf)
  step-Steady rf (wakes w) p i t = value (wake-Steady w rf p)
  step-Steady rf kills p i t = value (inr (refl, inr refl), (refl, refl, inr (refl, refl)))
  step-Steady rf (vote_replies el reply) p i t = absurd p
  step-Steady rf (append_replies bc server args reply) p i t =
      Ensures-bind (append_reply-Steady bc server args reply rf t) λ r s. value s
  step-Steady rf (snapshot_replies arg server reply) p i t =
      snapshot_reply-Steady arg server reply rf
  step-Steady rf (takes raw applied_id term) p i t = take_snapshot-Steady raw applied_id term rf
  step-Steady rf restarts p i t = make-Steady rf i

  passive-Later :
      (rf : Raft C B) (e : Event C B)
      → IsPassive e
      → Inv rf
      → IsTimely rf e
      → Ensures (Later rf) (step rf e)
  passive-Later rf e p i t = Ensures-mono (λ r s. s.0) (step-Steady rf e p i t)

  wake-Later : (w : Wake) (rf : Raft C B) → Later rf (wake w rf)
  unfolding wake
  wake-Later appended rf = inr (refl, inr refl)
  wake-Later voted rf = inr (refl, inr refl)
  wake-Later leading rf = inr (refl, inr refl)
  wake-Later timed_out rf = inl (lt-suc_ℤ rf.current_term)

  pub step-Later :
      (rf : Raft C B) (e : Event C B) → Inv rf → IsTimely rf e → Ensures (Later rf) (step rf e)
  unfolding step
  step-Later rf (wakes w) i t = value (wake-Later w rf)
  step-Later rf (vote_replies el reply) i t = value (vote_reply-Later el reply rf t)
  step-Later rf (appends args) i t = passive-Later rf (appends args) tt i t
  step-Later rf (votes args) i t = passive-Later rf (votes args) tt i t
  step-Later rf (installs args) i t = passive-Later rf (installs args) tt i t
  step-Later rf (starts c) i t = passive-Later rf (starts c) tt i t
  step-Later rf kills i t = passive-Later rf kills tt i t
  step-Later rf (append_replies bc server args reply) i t =
      passive-Later rf (append_replies bc server args reply) tt i t
  step-Later rf (snapshot_replies arg server reply) i t =
      passive-Later rf (snapshot_replies arg server reply) tt i t
  step-Later rf (takes raw applied_id term) i t =
      passive-Later rf (takes raw applied_id term) tt i t
  step-Later rf restarts i t = passive-Later rf restarts tt i t

  -- The states that a peer goes through by genuine and timely events.
  pub data Timely (rf : Raft C B) : Raft C B → Type ℓ where
    here : Timely rf rf
    next :
        {s t : Raft C B} (e : Event C B)
        → Timely rf s
        → Genuine s e
        → IsTimely s e
        → step s e ≡ ok t
        → Timely rf t

  Timely-Reach : {rf s : Raft C B} → Timely rf s → Reach rf s
  Timely-Reach here = Reach.here
  Timely-Reach (next e r g t h) = Reach.next e (Timely-Reach r) g h

  -- From a peer whose invariant holds, after any sequence of genuine events, crashes included, in
  -- which no vote reply has a later term than the peer and no AppendEntries reply has a term
  -- between the broadcast's and the peer's, the peer's term has not gone back, and in the same
  -- term a vote that was given is still the same.
  pub Timely-Later : {rf s : Raft C B} → Inv rf → Timely rf s → Later rf s
  Timely-Later {rf} i here = inr (refl, inr refl)
  Timely-Later {rf} i (next {s} {t} e r g timely h) =
      Later-trans rf s t (Timely-Later i r)
        (Ensures-ok t (step-Later s e (Reach-Inv i (Timely-Reach r)) timely) h)
