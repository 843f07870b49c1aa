-- ===== src/Raft/Ballot/Handlers.antt =====
-- The handlers of src/raft/raft.go and the ends of its calls, with the peer's term, vote and role.
use mit_raft.Base.{
  ℕ, ◌+◌, ◌≡◌, ◌&&◌, true, Bool-cases, Option-cases, [], ◌∷◌, refl, sym, ◌∙◌, inl, inr, ◌||◌, not,
  ℤ, pos, minus_one, List, ltb_ℤ, ◌≤ℤ◌, ◌==ℤ◌, ltb, leb, ◌==◌, Ensures, value, Ensures-ok,
  Ensures-mono, Ensures-bind, Ensures-after, Ensures-if, Returns-value, length, arith, ==ℤ→eq,
  if◌then◌else◌,
}
use mit_raft.Raft.Persister.{Codec, read_raft_state}
use mit_raft.Raft.State.{
  leader, follower, role_eq, Raft, sub_idx, slice_from, check_state, load, get_last_log_index,
  get_last_log_term,
}
use mit_raft.Raft.Role.{Saved, persist, convert_role_to, adopt_term}
use mit_raft.Raft.Vote.{
  RequestVoteArgs, RequestVoteReply, newer_entries, vote_or_not, grant_vote, request_vote,
}
use mit_raft.Raft.Append.{
  AppendEntriesArgs, AppendEntriesReply, first_of_term, merge, accept, append_current,
  append_entries,
}
use mit_raft.Raft.Election.{Election, count_vote, vote_reply}
use mit_raft.Raft.Broadcast.{Broadcast, back_off, append_reply}
use mit_raft.Raft.Snapshot.{
  InstallSnapshotArgs, InstallSnapshotReply, snapshot_logs, take_snapshot, install,
  install_snapshot, snapshot_reply, store,
}
use mit_raft.Raft.Node.{append_replies, start, fresh, read_persist, make}
use mit_raft.Raft.Durable.{make-Returns}
use mit_raft.Raft.Invariant.{Inv, heard, adopt_term_lem}
use mit_raft.Raft.Ballot.{
  Unmoved, Later, Steady, Steady-trans, Unmoved-Steady, IsTimely, advance_commit-Unmoved,
  append_success-Unmoved,
}

module _ {ℓ} {C B : Type ℓ} ⦃gob : Codec (Saved C) B⦄ where
  adopt_term-Steady : (t : ℤ) (rf : Raft C B) → Steady rf (adopt_term t rf)
  unfolding adopt_term convert_role_to persist
  adopt_term-Steady t rf = ground arith

  -- A request's term is adopted, and then nothing more happens to the peer.
  heard-Steady : (t : ℤ) (rf r : Raft C B) → Unmoved (heard t rf) r → Steady rf r
  heard-Steady t rf r s =
      Steady-trans rf (heard t rf) r (adopt_term-Steady t rf) (Unmoved-Steady (heard t rf) r s)

  pub grant_vote-Steady :
      (args : RequestVoteArgs) (rf : Raft C B)
      → vote_or_not args rf ≡ true
      → Steady rf (grant_vote args rf)
  unfolding grant_vote persist
  grant_vote-Steady args rf free = ground (arith, ==ℤ→eq rf.voted_for)

  pub request_vote-Steady :
      (args : RequestVoteArgs) (rf : Raft C B) → Ensures (λ r. Steady rf r.1) (request_vote args rf)
  unfolding request_vote
  request_vote-Steady args rf =
      let met = adopt_term args.term rf in
      Ensures-after (get_last_log_term met) λ t.
        elim (Bool-cases (newer_entries args t met && vote_or_not args met)) [
          | inl e ↦ rw e (
              value (
                Steady-trans rf met (grant_vote args met) (adopt_term-Steady args.term rf)
                  (grant_vote-Steady args met (ground arith))))
          | inr e ↦ rw e (value (adopt_term-Steady args.term rf))
        ]

  accept-Unmoved :
      (args : AppendEntriesArgs C) (rf : Raft C B)
      → rf.current_term ≡ args.term
      → Ensures (λ r. Unmoved rf r.1) (accept args rf)
  unfolding accept
  accept-Unmoved args rf same =
      let merged = record rf {
        current_term = args.term;
        logs = merge rf.logs (sub_idx rf (args.prev_log_index + 1)) args.entries;
      } in
      let stored = if length args.entries == 0 then merged else persist merged in
      Ensures-bind (advance_commit-Unmoved args.leader_commit stored)
        λ r s. value (ground (arith, s, same))

  append_current-Unmoved :
      (args : AppendEntriesArgs C) (rf : Raft C B)
      → rf.current_term ≡ args.term
      → Ensures (λ r. Unmoved rf r.1) (append_current args rf)
  unfolding append_current
  append_current-Unmoved args rf same =
      Ensures-if (ltb (get_last_log_index rf) args.prev_log_index)
        (λ short. value (refl, refl, refl, refl, refl))
        λ long.
          Ensures-if (ltb args.prev_log_index rf.last_included_index)
            (λ old. value (refl, refl, refl, refl, refl))
            λ new. Ensures-after (load rf args.prev_log_index) λ e.
              Ensures-if (e.term ==ℤ args.prev_log_term) (λ eq. accept-Unmoved args rf same)
                λ ne.
                  Ensures-after
                    (first_of_term rf.logs rf.last_included_index e.term
                      (sub_idx rf args.prev_log_index) minus_one)
                    λ h. value (refl, refl, refl, refl, refl)

  same-Steady : (rf : Raft C B) → Steady rf rf
  same-Steady rf = Unmoved-Steady rf rf (refl, refl, refl, refl, refl)

  pub append_entries-Steady :
      (args : AppendEntriesArgs C) (rf : Raft C B)
      → Ensures (λ r. Steady rf r.1) (append_entries args rf)
  unfolding append_entries
  append_entries-Steady args rf =
      Ensures-if (ltb_ℤ args.term rf.current_term) (λ stale. value (same-Steady rf))
        λ current.
          Ensures-mono (λ r s. heard-Steady args.term rf r.1 s)
            (append_current-Unmoved args (heard args.term rf) (adopt_term_lem args.term rf current))

  pub vote_reply-Later :
      (el : Election) (reply : RequestVoteReply) (rf : Raft C B)
      → reply.term ≤ℤ rf.current_term
      → Later rf (vote_reply el reply rf).1
  unfolding vote_reply count_vote
  vote_reply-Later el reply rf h = ground arith

  pub append_reply-Steady :
      (bc : Broadcast) (server : ℕ) (args : AppendEntriesArgs C) (reply : AppendEntriesReply)
      (rf : Raft C B)
      → IsTimely rf (append_replies bc server args reply)
      → Ensures (λ r. Steady rf r.1) (append_reply bc server args reply rf)
  unfolding append_reply convert_role_to persist
  append_reply-Steady bc server args reply rf timely =
      Ensures-if (ltb_ℤ bc.cur_term reply.term)
        (λ newer. value (inl (timely (ground arith)), (refl, refl, inl refl)))
        λ current.
          Ensures-if (not (check_state rf leader bc.cur_term) || length args.entries == 0)
            (λ stale. value (same-Steady rf))
            λ live.
              Ensures-if reply.success
                (λ done.
                  Ensures-mono (λ r s. Unmoved-Steady rf r.1 s)
                    (append_success-Unmoved bc server args rf))
                λ failed. Ensures-after (back_off reply rf) λ h.
                  Ensures-after (store rf.next_index server h)
                    λ n. value (inr (refl, inr refl), (refl, refl, inr (refl, refl)))

  pub install_snapshot-Steady :
      (args : InstallSnapshotArgs B) (rf : Raft C B)
      → Ensures (λ r. Steady rf r.1) (install_snapshot args rf)
  unfolding install_snapshot install
  install_snapshot-Steady args rf =
      Ensures-if
        (ltb_ℤ args.term rf.current_term || leb args.last_included_index rf.last_included_index)
        (λ stale. value (same-Steady rf))
        λ new.
          Ensures-bind {P = λ r. Unmoved (heard args.term rf) r}
            (Ensures-after (snapshot_logs args (heard args.term rf))
              λ l. value (refl, refl, refl, refl, refl))
            λ r s. value (heard-Steady args.term rf r s)

  pub take_snapshot-Steady :
      (raw : List B) (applied_id : ℕ) (term : ℤ) (rf : Raft C B)
      → Ensures (Steady rf) (take_snapshot raw applied_id term rf)
  unfolding take_snapshot
  take_snapshot-Steady raw applied_id term rf =
      Ensures-if (leb applied_id rf.last_included_index) (λ old. value (same-Steady rf))
        λ new.
          Ensures-after (slice_from rf applied_id)
            λ l. value (inr (refl, inr refl), (refl, refl, inr (refl, refl)))

  pub snapshot_reply-Steady :
      (arg : InstallSnapshotArgs B) (server : ℕ) (reply : InstallSnapshotReply) (rf : Raft C B)
      → Ensures (Steady rf) (snapshot_reply arg server reply rf)
  unfolding snapshot_reply
  snapshot_reply-Steady arg server reply rf =
      Ensures-if (ltb_ℤ rf.current_term reply.term)
        (λ newer. value (adopt_term-Steady reply.term rf))
        λ current.
          Ensures-if (not (check_state rf leader arg.term)) (λ stale. value (same-Steady rf))
            λ live.
              Ensures-after (store rf.next_index server (pos (arg.last_included_index + 1))) λ n.
                Ensures-after (store rf.match_index server arg.last_included_index)
                  λ m. value (inr (refl, inr refl), (refl, refl, inr (refl, refl)))

  read_persist-Office :
      (bytes : List B) (rf : Raft C B)
      → ((read_persist bytes rf).me ≡ rf.me)
        × ((read_persist bytes rf).peers ≡ rf.peers)
        × ((read_persist bytes rf).role ≡ rf.role)
  unfolding read_persist
  read_persist-Office [] rf = (refl, refl, refl)
  read_persist-Office (b ∷ bytes) rf = elim (Option-cases (gob.decode (b ∷ bytes))) [
    | inl e ↦ ground arith
    | inr (s, e) ↦ ground arith
  ]

  pub make-Office :
      (rf : Raft C B)
      → Ensures
          (λ (r : Raft C B). (r.me ≡ rf.me) × (r.peers ≡ rf.peers) × (r.role ≡ follower))
          (make {C = C} rf.peers rf.me rf.persister)
  unfolding make
  make-Office rf = Ensures-after (store _ 0 _) λ l.
      value (read_persist-Office (read_raft_state rf.persister) (fresh rf.peers rf.me rf.persister))

  pub make-Steady :
      (rf : Raft C B) → Inv rf → Ensures (Steady rf) (make rf.peers rf.me rf.persister)
  make-Steady rf i =
      let (r, e, restarted) =
        Returns-value (make-Returns rf.peers rf.me rf.persister i.durable.nonempty) in
      let agrees = restarted.0 in
      let (m, p, o) = Ensures-ok r (make-Office rf) e in
      rw e (
        value (
          inr (sym agrees.terms ∙ i.durable.terms, inr (sym agrees.votes ∙ i.durable.votes)),
          (m, p, inl o),
        ))

  pub start-Steady : (c : C) (rf : Raft C B) → Steady rf (start c rf).1
  unfolding start persist
  start-Steady c rf = elim (Bool-cases (role_eq rf.role leader)) [
    | inl e ↦ rw e (inr (refl, inr refl), (refl, refl, inr (refl, refl)))
    | inr e ↦ rw e (same-Steady rf)
  ]
