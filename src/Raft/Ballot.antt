-- ===== src/Raft/Ballot.antt =====
-- Terms and votes (src/raft/raft.go): what a peer promises when it votes, over all its events.
pub mod Handlers
pub mod Steps
use mit_raft.Base.{
  ℕ, ◌+◌, ◌-◌, ◌/◌, get_elem?, or_panic, ◌≡◌, refl, sym, ◌∙◌, ◌⊎◌, inl, inr, ◌||◌, ◌&&◌, not, ℤ,
  pos, minus_one, List, lt-suc_ℤ, ltb_ℤ, ◌<ℤ◌, ◌≤ℤ◌, ◌==ℤ◌, ltb, leb, ◌==◌, ok, Ensures, value,
  Ensures-ok, Ensures-mono, Ensures-bind, Ensures-after, Ensures-if, Returns-value, length, arith,
  ==ℤ→eq, if◌then◌else◌,
}
use mit_raft.Raft.Persister.{Codec}
use mit_raft.Raft.State.{
  leader, Raft, sub_idx, slice_from, voted_null, check_state, load, get_last_log_index,
  get_last_log_term, follower,
}
use mit_raft.Raft.Role.{Saved, persist, adopt_term, deliver, apply_logs}
use mit_raft.Raft.Vote.{RequestVoteArgs, RequestVoteReply, request_vote}
use mit_raft.Raft.Append.{
  AppendEntriesArgs, AppendEntriesReply, advance_commit, first_of_term, merge, accept,
  append_current, append_entries,
}
use mit_raft.Raft.Election.{Election, count_vote, vote_reply}
use mit_raft.Raft.Broadcast.{
  Broadcast, back_off, record_match, count_commit, append_success, append_reply,
}
use mit_raft.Raft.Snapshot.{
  InstallSnapshotArgs, InstallSnapshotReply, snapshot_logs, take_snapshot, install,
  install_snapshot, snapshot_reply, store,
}
use mit_raft.Raft.Node.{
  Wake, appended, voted, leading, timed_out, Event, appends, votes, installs, starts, wakes, kills,
  vote_replies, append_replies, snapshot_replies, takes, restarts, kill, start, wake, make, step,
}
use mit_raft.Raft.Durable.{make-Returns}
use mit_raft.Raft.Invariant.Step.{Reach, Reach-Inv}
use mit_raft.Raft.Invariant.{Inv, Genuine, heard, adopt_term_lem}

module _ {ℓ} {C B : Type ℓ} where
  -- Of what an election is about, nothing has changed.
  abbrev pub Unmoved : Raft C B → Raft C B → Type 0
  Unmoved rf r =
      (r.current_term ≡ rf.current_term)
      × (r.voted_for ≡ rf.voted_for)
      × (r.role ≡ rf.role)
      × (r.me ≡ rf.me)
      × (r.peers ≡ rf.peers)

  pub Unmoved-trans : (a b c : Raft C B) → Unmoved a b → Unmoved b c → Unmoved a c
  Unmoved-trans a b c (t, v, r, m, p) (t', v', r', m', p') =
      (t' ∙ t, v' ∙ v, r' ∙ r, m' ∙ m, p' ∙ p)

  -- A later term, or the same term with the vote, once given, unchanged.
  abbrev pub Later : Raft C B → Raft C B → Type 0
  Later rf r =
      (rf.current_term <ℤ r.current_term)
      ⊎ ((r.current_term ≡ rf.current_term)
          × ((rf.voted_for ≡ voted_null) ⊎ (r.voted_for ≡ rf.voted_for)))

  pub Later-trans : (a b c : Raft C B) → Later a b → Later b c → Later a c
  Later-trans a b c p q = ground arith

  -- The same peer, in the same role of the same term or a follower.
  abbrev pub Office : Raft C B → Raft C B → Type 0
  Office rf r =
      (r.me ≡ rf.me)
      × (r.peers ≡ rf.peers)
      × ((r.role ≡ follower) ⊎ ((r.role ≡ rf.role) × (r.current_term ≡ rf.current_term)))

  pub Office-trans : (a b c : Raft C B) → Office a b → Office b c → Office a c
  Office-trans a b c (m, p, inl o) (m', p', inl o') = (m' ∙ m, p' ∙ p, inl o')
  Office-trans a b c (m, p, inr o) (m', p', inl o') = (m' ∙ m, p' ∙ p, inl o')
  Office-trans a b c (m, p, inl o) (m', p', inr o') = (m' ∙ m, p' ∙ p, inl (o'.0 ∙ o))
  Office-trans a b c (m, p, inr (o, t)) (m', p', inr (o', t')) =
      (m' ∙ m, p' ∙ p, inr (o' ∙ o, t' ∙ t))

  abbrev pub Steady : Raft C B → Raft C B → Type 0
  Steady rf r = Later rf r × Office rf r

  pub Steady-trans : (a b c : Raft C B) → Steady a b → Steady b c → Steady a c
  Steady-trans a b c (l, o) (l', o') = (Later-trans a b c l l', Office-trans a b c o o')

  pub Unmoved-Steady : (rf r : Raft C B) → Unmoved rf r → Steady rf r
  Unmoved-Steady rf r (t, v, o, m, p) = (inr (t, inr v), (m, p, inr (o, t)))

  -- The replies after which the code breaks the promise: a vote reply of a later term, and an
  -- AppendEntries reply of a term that is later than the broadcast's and not than the peer's.
  abbrev pub IsTimely : Raft C B → Event C B → Type 0
  IsTimely rf (vote_replies el reply) = reply.term ≤ℤ rf.current_term
  IsTimely rf (append_replies bc server args reply) =
      bc.cur_term <ℤ reply.term → rf.current_term <ℤ reply.term
  IsTimely rf _ = Unit

  apply_logs-Unmoved : (rf : Raft C B) → Ensures (Unmoved rf) (apply_logs rf)
  unfolding apply_logs
  apply_logs-Unmoved rf =
      Ensures-after (deliver (rf.commit_index - rf.last_applied) (rf.last_applied + 1) rf)
        λ ms. Ensures-after (load rf rf.commit_index) λ e. value (refl, refl, refl, refl, refl)

  advance_commit-Unmoved : (n : ℕ) (rf : Raft C B) → Ensures (Unmoved rf) (advance_commit n rf)
  unfolding advance_commit
  advance_commit-Unmoved n rf =
      Ensures-if (ltb rf.commit_index n) (λ up. apply_logs-Unmoved _)
        (λ down. value (refl, refl, refl, refl, refl))

  append_success-Unmoved :
      (bc : Broadcast) (server : ℕ) (args : AppendEntriesArgs C) (rf : Raft C B)
      → Ensures (λ r. Unmoved rf r.1) (append_success bc server args rf)
  unfolding append_success record_match count_commit
  append_success-Unmoved bc server args rf =
      let cur = args.prev_log_index + length args.entries in
      Ensures-if (ltb cur rf.commit_index) (λ old. value (refl, refl, refl, refl, refl))
        λ new.
          Ensures-bind {P = Unmoved rf}
            (Ensures-after (or_panic (get_elem? rf.match_index server)) λ old.
              Ensures-if (ltb cur old) (λ late. value (refl, refl, refl, refl, refl))
                (λ more. Ensures-after (store rf.match_index server cur) λ m.
                  Ensures-after (store rf.next_index server (pos (cur + 1)))
                    λ n. value (refl, refl, refl, refl, refl)))
            λ r s.
              Ensures-if (bc.commit_flag && ltb (r.peers / 2) (bc.commit_num + 1))
                (λ most.
                  Ensures-bind (apply_logs-Unmoved _) λ r' s'. value (Unmoved-trans rf r r' s s'))
                (λ few. value s)
