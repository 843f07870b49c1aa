-- ===== src/Raft/Delivery/Steps.antt =====
-- Every event of a peer (src/raft/raft.go), and what it sends on the apply channel.
use mathlib.Core.List.{append-nil}
use mit_raft.Base.{
  ℕ, ◌+◌, ◌≤◌, ◌<◌, ◌≡◌, refl, sym, ◌∙◌, inr, ◌||◌, not, ℤ, pos, minus_one, List, [], ◌∷◌, ltb_ℤ,
  ◌==ℤ◌, ltb, leb, ◌==◌, Ensures, value, Ensures-mono, Ensures-bind, Ensures-after, Ensures-if,
  Returns, Returns-value, Returns-of, Ensures-ok, length, arith,
}
use mit_raft.Raft.Persister.{Codec, save_state_and_snapshot}
use mit_raft.Raft.State.{
  leader, Raft, sub_idx, slice_from, check_state, load, get_last_log_index, get_last_log_term,
}
use mit_raft.Raft.Role.{Saved, persist, adopt_term, convert_role_to, persist_state_and_snapshot}
use mit_raft.Raft.Vote.{RequestVoteArgs, RequestVoteReply, request_vote}
use mit_raft.Raft.Append.{
  AppendEntriesArgs, AppendEntriesReply, first_of_term, accept, append_current, append_entries,
}
use mit_raft.Raft.Election.{Election, count_vote, vote_reply}
use mit_raft.Raft.Broadcast.{Broadcast, back_off, append_reply}
use mit_raft.Raft.Snapshot.{
  InstallSnapshotArgs, InstallSnapshotReply, snapshot_logs, take_snapshot, install,
  install_snapshot, snapshot_reply, store,
}
use mit_raft.Raft.Node.{
  Wake, appended, voted, leading, timed_out, Event, appends, votes, installs, starts, wakes, kills,
  vote_replies, append_replies, snapshot_replies, takes, restarts, kill, start, wake, step,
}
use mit_raft.Raft.Invariant.{
  Inv, Genuine, Consistent, adopt_term_shape, adopt_term_lem, adopt_term-Inv, heard, load-heard,
}
use mit_raft.Raft.Invariant.Step.{step-Inv}
use mit_raft.Raft.Invariant.Append.{after_merge, after_merge-Inv}
use mit_raft.Raft.Delivery.{
  Told, Forward, Quiet, quiet, silent, Quiet-before, advance_commit-Told, append_success-Told,
}

module _ {ℓ} {C B : Type ℓ} ⦃gob : Codec (Saved C) B⦄ where
  pub adopt_term-Quiet : (t : ℤ) (rf : Raft C B) → Quiet rf (adopt_term t rf)
  adopt_term-Quiet t rf = let s = adopt_term_shape t rf in (s.4, s.3)

  request_vote-Quiet :
      (args : RequestVoteArgs) (rf : Raft C B) → Ensures (λ r. Quiet rf r.1) (request_vote args rf)
  unfolding request_vote adopt_term
  request_vote-Quiet args rf =
      Ensures-after (get_last_log_term (adopt_term args.term rf)) λ t. value (ground arith)

  accept-Told :
      (args : AppendEntriesArgs C) (rf : Raft C B)
      → Inv rf
      → rf.current_term ≡ args.term
      → rf.last_included_index ≤ args.prev_log_index
      → args.prev_log_index < rf.last_included_index + length rf.logs
      → Consistent args rf
      → Ensures (λ r. Told rf r.1) (accept args rf)
  unfolding accept persist
  accept-Told args rf i same low high c =
      let s = after_merge args rf in
      let v = after_merge-Inv args rf i same low high c in
      let still : Quiet rf s = ground arith in
      Ensures-bind
        (advance_commit-Told args.leader_commit s (omega (arith, v.shape.applied))
          v.shape.committed)
        λ r t. value (Quiet-before rf s r still t)

  append_current-Told :
      (args : AppendEntriesArgs C) (rf : Raft C B)
      → Inv rf
      → rf.current_term ≡ args.term
      → Consistent args rf
      → Ensures (λ r. Told rf r.1) (append_current args rf)
  unfolding append_current get_last_log_index
  append_current-Told args rf i same c =
      Ensures-if (ltb (get_last_log_index rf) args.prev_log_index) (λ short. value (silent rf))
        λ long.
          Ensures-if (ltb args.prev_log_index rf.last_included_index) (λ old. value (silent rf))
            λ new.
              let low : rf.last_included_index ≤ args.prev_log_index = ground arith in
              let high : args.prev_log_index < rf.last_included_index + length rf.logs =
                ground (arith, i.shape.nonempty) in
              Ensures-after (load rf args.prev_log_index) λ e.
                Ensures-if (e.term ==ℤ args.prev_log_term)
                  (λ eq. accept-Told args rf i same low high c)
                  λ ne.
                    Ensures-after
                      (first_of_term rf.logs rf.last_included_index e.term
                        (sub_idx rf args.prev_log_index) minus_one)
                      λ h. value (silent rf)

  append_entries-Told :
      (args : AppendEntriesArgs C) (rf : Raft C B)
      → Inv rf
      → Consistent args rf
      → Ensures (λ r. Told rf r.1) (append_entries args rf)
  unfolding append_entries
  append_entries-Told args rf i c =
      Ensures-if (ltb_ℤ args.term rf.current_term) (λ stale. value (silent rf))
        λ current.
          let v = adopt_term-Inv args.term rf i in
          Ensures-mono
            (λ r t. Quiet-before rf (heard args.term rf) r.1 (adopt_term-Quiet args.term rf) t)
            (append_current-Told args (heard args.term rf)
              (record { shape = ground (arith, v.shape); durable = v.durable })
              (adopt_term_lem args.term rf current)
              (λ k e x p q b.
                c k e x p (sym (load-heard args.term rf _) ∙ q)
                  (omega (arith, adopt_term_shape args.term rf))))

  vote_reply-Quiet :
      (el : Election) (reply : RequestVoteReply) (rf : Raft C B)
      → Quiet rf (vote_reply el reply rf).1
  unfolding vote_reply count_vote
  vote_reply-Quiet el reply rf = ground arith

  append_reply-Told :
      (bc : Broadcast) (server : ℕ) (args : AppendEntriesArgs C) (reply : AppendEntriesReply)
      (rf : Raft C B)
      → rf.last_applied ≤ rf.commit_index
      → Ensures (λ r. Told rf r.1) (append_reply bc server args reply rf)
  unfolding append_reply convert_role_to persist
  append_reply-Told bc server args reply rf low =
      Ensures-if (ltb_ℤ bc.cur_term reply.term)
        (λ newer. value ([], sym (append-nil rf.apply_ch), (refl, tt)))
        λ current.
          Ensures-if (not (check_state rf leader bc.cur_term) || length args.entries == 0)
            (λ stale. value (silent rf))
            λ live.
              Ensures-if reply.success (λ done. append_success-Told bc server args rf low)
                λ failed. Ensures-after (back_off reply rf) λ h.
                  Ensures-after (store rf.next_index server h)
                    λ n. value ([], sym (append-nil rf.apply_ch), (refl, tt))

  install_snapshot-Told :
      (args : InstallSnapshotArgs B) (rf : Raft C B)
      → rf.last_applied ≤ args.last_included_index
      → Ensures (λ r. Told rf r.1) (install_snapshot args rf)
  unfolding install_snapshot install persist_state_and_snapshot save_state_and_snapshot
  install_snapshot-Told args rf ahead =
      Ensures-if
        (ltb_ℤ args.term rf.current_term || leb args.last_included_index rf.last_included_index)
        (λ stale. value (silent rf))
        λ new.
          Ensures-bind {P = λ r. Told (heard args.term rf) r}
            (Ensures-after (snapshot_logs args (heard args.term rf)) λ l. value (
              _ ∷ [],
              refl,
              (
                inr (record {
                  valid = refl;
                  ahead = omega (arith, adopt_term_shape args.term rf, ahead);
                  at = refl;
                  content = refl;
                }),
                (omega (arith, adopt_term_shape args.term rf, ahead), tt),
              ),
            ))
            λ r t. value (Quiet-before rf (heard args.term rf) r (adopt_term-Quiet args.term rf) t)

  snapshot_reply-Told :
      (arg : InstallSnapshotArgs B) (server : ℕ) (reply : InstallSnapshotReply) (rf : Raft C B)
      → Ensures (Told rf) (snapshot_reply arg server reply rf)
  unfolding snapshot_reply
  snapshot_reply-Told arg server reply rf =
      Ensures-if (ltb_ℤ rf.current_term reply.term)
        (λ newer. value (quiet rf (adopt_term reply.term rf) (adopt_term-Quiet reply.term rf)))
        λ current.
          Ensures-if (not (check_state rf leader arg.term)) (λ stale. value (silent rf))
            λ live.
              Ensures-after (store rf.next_index server (pos (arg.last_included_index + 1))) λ n.
                Ensures-after (store rf.match_index server arg.last_included_index)
                  λ m. value ([], sym (append-nil rf.apply_ch), (refl, tt))

  take_snapshot-Told :
      (raw : List B) (applied_id : ℕ) (term : ℤ) (rf : Raft C B)
      → Ensures (Told rf) (take_snapshot raw applied_id term rf)
  unfolding take_snapshot persist_state_and_snapshot
  take_snapshot-Told raw applied_id term rf =
      Ensures-if (leb applied_id rf.last_included_index) (λ old. value (silent rf))
        λ new.
          Ensures-after (slice_from rf applied_id)
            λ l. value ([], sym (append-nil rf.apply_ch), (refl, tt))

  start-Quiet : (c : C) (rf : Raft C B) → Quiet rf (start c rf).1
  unfolding start
  start-Quiet c rf = ground arith

  wake-Quiet : (w : Wake) (rf : Raft C B) → Quiet rf (wake w rf)
  unfolding wake
  wake-Quiet appended rf = (refl, refl)
  wake-Quiet voted rf = (refl, refl)
  wake-Quiet leading rf = (refl, refl)
  wake-Quiet timed_out rf = (refl, refl)

  step-Ensures :
      (rf : Raft C B) (e : Event C B)
      → Inv rf
      → Genuine rf e
      → Forward rf e
      → Ensures (Told rf) (step rf e)
  unfolding step kill
  step-Ensures rf (appends args) i g f =
      Ensures-bind (append_entries-Told args rf i g) λ r t. value t
  step-Ensures rf (votes args) i g f =
      Ensures-bind (request_vote-Quiet args rf) λ r q. value (quiet rf r.1 q)
  step-Ensures rf (installs args) i g f =
      Ensures-bind (install_snapshot-Told args rf f.0) λ r t. value t
  step-Ensures rf (starts c) i g f = value (quiet rf (start c rf).1 (start-Quiet c rf))
  step-Ensures rf (wakes w) i g f = value (quiet rf (wake w rf) (wake-Quiet w rf))
  step-Ensures rf kills i g f = value ([], sym (append-nil rf.apply_ch), (refl, tt))
  step-Ensures rf (vote_replies el reply) i g f =
      value (quiet rf (vote_reply el reply rf).1 (vote_reply-Quiet el reply rf))
  step-Ensures rf (append_replies bc server args reply) i g f =
      Ensures-bind (append_reply-Told bc server args reply rf (omega (arith, i.shape.applied)))
        λ r t. value t
  step-Ensures rf (snapshot_replies arg server reply) i g f =
      snapshot_reply-Told arg server reply rf
  step-Ensures rf (takes raw applied_id term) i g f = take_snapshot-Told raw applied_id term rf
  step-Ensures rf restarts i g f = absurd f

  -- A genuine event at a peer whose invariant holds, other than a restart and than a snapshot from
  -- behind what has been applied, returns; what it sends on the apply channel is, from what had
  -- been applied on, the command of the log's entry at each next index, with the peer's term, or
  -- the snapshot that the peer has stored now, with its index, which is not behind, up to what has
  -- been applied now.
  pub step-Told :
      (rf : Raft C B) (e : Event C B)
      → Inv rf
      → Genuine rf e
      → Forward rf e
      → Returns (Told rf) (step rf e)
  step-Told rf e i g f =
      let (r, ran, v) = Returns-value (step-Inv rf e i g) in
      Returns-of r ran (Ensures-ok r (step-Ensures rf e i g f) ran)
