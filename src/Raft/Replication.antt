-- ===== src/Raft/Replication.antt =====
-- What a follower's log is after AppendEntries (src/raft/raft.go), on success and on failure.
use mit_raft.Base.{
  ℕ, ◌+◌, ◌-◌, ◌≤◌, ◌<◌, ◌≡◌, refl, sym, ◌∙◌, ◌⊎◌, inl, inr, true, false, minus_one, ltb_ℤ, ◌==ℤ◌,
  ==ℤ→eq, ltb, ◌==◌, some, ok, Ensures, value, Ensures-mono, Ensures-bind, Ensures-after,
  Ensures-if, length, get_elem?, arith, Bool-cases, min, if◌then◌else◌,
}
use mit_raft.Raft.Persister.{Codec}
use mit_raft.Raft.State.{Entries, Raft, add_idx, sub_idx, load, get_last_log_index}
use mit_raft.Raft.Role.{Saved, persist, deliver, apply_logs}
use mit_raft.Raft.Append.{
  AppendEntriesArgs, AppendEntriesReply, first_of_term, merge, advance_commit, accept,
  append_current, append_entries,
}
use mit_raft.Raft.Append.Match.{Coherent, merge_below, merge-FollowsBy, length-merge}
use mit_raft.Raft.Deliver.{load_returns}
use mit_raft.Raft.Invariant.{adopt_term_lem, adopt_term_shape, heard, load-heard}

module _ {ℓ} {C B : Type ℓ} where
  -- The log and the indices of `r` are those of `rf`, but that the commit index may have grown to
  -- the leader's or to the end of the log.
  abbrev pub Committed : ℕ → Raft C B → Raft C B → Type ℓ
  Committed n rf r =
      (r.logs ≡ rf.logs)
      × (r.last_included_index ≡ rf.last_included_index)
      × (r.current_term ≡ rf.current_term)
      × (rf.commit_index < n → r.commit_index ≡ min n (length rf.logs - 1 + rf.last_included_index))
      × (n ≤ rf.commit_index → r.commit_index ≡ rf.commit_index)

  advance_commit-Committed :
      (n : ℕ) (rf : Raft C B) → Ensures (Committed n rf) (advance_commit n rf)
  unfolding advance_commit apply_logs
  advance_commit-Committed n rf = elim (Bool-cases (ltb rf.commit_index n)) [
    | inl up ↦
        let m = min n (add_idx rf (length rf.logs - 1)) in
        rw up (
          Ensures-after
            (deliver (m - rf.last_applied) (rf.last_applied + 1) (record rf { commit_index = m }))
            λ ms.
              Ensures-after (load (record rf { commit_index = m }) m)
                λ e. value (refl, refl, refl, (λ h. refl), (λ h. absurd (ground arith))))
    | inr down ↦ rw down (value (refl, refl, refl, (λ h. absurd (ground arith)), (λ h. refl)))
  ]

  -- The leader's entries match the log at `prev_log_index`, and `r` has them after it.
  pub record Replicated (args : AppendEntriesArgs C) (rf r : Raft C B) : Type ℓ where
    pub terms : r.current_term ≡ args.term
    pub matched :
        (x : Entries C) × (load rf args.prev_log_index ≡ ok x) × (x.term ≡ args.prev_log_term)
    pub kept : (i : ℕ) → i ≤ args.prev_log_index → load r i ≡ load rf i
    pub stored :
        (k : ℕ) (e : Entries C)
        → get_elem? args.entries k ≡ some e
        → load r (args.prev_log_index + 1 + k) ≡ ok e
    pub committed :
        (rf.commit_index ≤ args.leader_commit → r.commit_index ≤ args.leader_commit)
        × (args.leader_commit ≤ args.prev_log_index + length args.entries
            → rf.commit_index ≤ args.leader_commit
            → r.commit_index ≡ args.leader_commit)

  -- Nothing that a client can see has changed.
  abbrev pub Refused : Raft C B → Raft C B → Type ℓ
  Refused rf r =
      (r.logs ≡ rf.logs) × (r.commit_index ≡ rf.commit_index) × (r.apply_ch ≡ rf.apply_ch)

  abbrev pub Outcome : AppendEntriesArgs C → Raft C B → AppendEntriesReply × Raft C B → Type ℓ
  Outcome args rf r =
      ((r.0.success ≡ true) × Replicated args rf r.1) ⊎ ((r.0.success ≡ false) × Refused rf r.1)

  -- Log Matching between the follower's log and the entries.
  abbrev pub Matching : AppendEntriesArgs C → Raft C B → Type ℓ
  Matching args rf =
      Coherent (λ x e. x ≡ e) rf.logs (args.prev_log_index + 1 - rf.last_included_index)
        args.entries

  module _ ⦃gob : Codec (Saved C) B⦄ where
    load_of :
        (r s : Raft C B) (i : ℕ)
        → r.last_included_index ≡ s.last_included_index
        → get_elem? r.logs (i - s.last_included_index)
          ≡ get_elem? s.logs (i - s.last_included_index)
        → load r i ≡ load s i
    unfolding load
    load_of r s i base same = rw (base, same)

    load_at :
        (r : Raft C B) (i j : ℕ) (e : Entries C)
        → j + r.last_included_index ≡ i
        → get_elem? r.logs j ≡ some e
        → load r i ≡ ok e
    unfolding load
    load_at r i j e place there =
        let at_j : i - r.last_included_index ≡ j = omega arith in
        let stored_at : ltb i r.last_included_index ≡ false = ground arith in
        rw (stored_at, at_j, there)

    accept-Replicated :
        (args : AppendEntriesArgs C) (rf : Raft C B) (x : Entries C)
        → rf.last_included_index ≤ args.prev_log_index
        → args.prev_log_index < rf.last_included_index + length rf.logs
        → load rf args.prev_log_index ≡ ok x
        → x.term ≡ args.prev_log_term
        → Matching args rf
        → Ensures (λ r. (r.0.success ≡ true) × Replicated args rf r.1) (accept args rf)
    unfolding accept
    accept-Replicated args rf x low high found same m =
        Ensures-bind (advance_commit-Committed args.leader_commit stored')
          λ r c. value (refl, outcome r (ground (arith, c)))
      where
        ind : ℕ
        ind = args.prev_log_index + 1 - rf.last_included_index

        merged : Raft C B
        merged = record rf { current_term = args.term; logs = merge rf.logs ind args.entries }

        stored' : Raft C B
        stored' = if length args.entries == 0 then merged else persist merged

        top : ind ≤ length rf.logs
        top = omega arith

        long : ind + length args.entries ≤ length (merge rf.logs ind args.entries)
        long = length-merge rf.logs ind args.entries top

        outcome : (r : Raft C B) → Committed args.leader_commit merged r → Replicated args rf r
        outcome r (logs, base, term, up, down) = record {
          terms = term;
          matched = (x, found, same);
          kept = λ i h.
              load_of r rf i base
                (rw logs (merge_below rf.logs ind args.entries _ top (omega arith)));
          stored = λ k e q.
              let (y, there, y_is_e) =
                merge-FollowsBy (λ x e. x ≡ e) (λ e. refl) rf.logs ind args.entries top m k e q in
              load_at r (args.prev_log_index + 1 + k) (ind + k) e (omega (arith, base))
                (rw (logs, there, y_is_e));
          committed = (λ h. ground (arith, up, down), λ h h'. ground (arith, up, down, long));
        }

    append_current-Outcome :
        (args : AppendEntriesArgs C) (rf : Raft C B)
        → rf.current_term ≡ args.term
        → 0 < length rf.logs
        → Matching args rf
        → Ensures (Outcome args rf) (append_current args rf)
    unfolding append_current get_last_log_index
    append_current-Outcome args rf same nonempty m =
        Ensures-if (ltb (get_last_log_index rf) args.prev_log_index)
          (λ short. value (inr (refl, (refl, refl, refl))))
          λ long.
            Ensures-if (ltb args.prev_log_index rf.last_included_index)
              (λ old. value (inr (refl, (refl, refl, refl))))
              λ new.
                let low : rf.last_included_index ≤ args.prev_log_index = ground arith in
                let high : args.prev_log_index < rf.last_included_index + length rf.logs =
                  ground arith in
                let (x, found) = load_returns rf args.prev_log_index low high in
                rw found (
                  Ensures-if (x.term ==ℤ args.prev_log_term)
                    (λ eq.
                      Ensures-mono (λ r s. inl s)
                        (accept-Replicated args rf x low high found (==ℤ→eq _ _ eq) m))
                    λ ne.
                      Ensures-after
                        (first_of_term rf.logs rf.last_included_index x.term
                          (sub_idx rf args.prev_log_index) minus_one)
                        λ h. value (inr (refl, (refl, refl, refl))))

    Outcome-heard :
        (args : AppendEntriesArgs C) (rf : Raft C B) (r : AppendEntriesReply × Raft C B)
        → Outcome args (heard args.term rf) r
        → Outcome args rf r
    Outcome-heard args rf r (inl (done, v)) = inl (
      done,
      record {
        terms = v.terms;
        matched = (
          v.matched.0,
          sym (load-heard args.term rf args.prev_log_index) ∙ v.matched.1,
          v.matched.2,
        );
        kept = λ i h. v.kept i h ∙ load-heard args.term rf i;
        stored = v.stored;
        committed = ground (arith, v.committed, adopt_term_shape args.term rf);
      },
    )
    Outcome-heard args rf r (inr (failed, (logs, commit, sent))) =
        let same = adopt_term_shape args.term rf in
        inr (failed, (logs ∙ same.0, commit ∙ same.1, sent ∙ same.4))

    -- AppendEntries on a follower whose log is not empty and satisfies Log Matching with the
    -- entries: if it returns, then either it succeeds and the entries stand in the log after the
    -- matching one, with all up to it kept, the term of the request, and a commit index that is
    -- not past the leader's if it was not before and is the leader's if the entries reach that
    -- far, or it fails and the log, the commit index and the deliveries are unchanged.
    pub append_entries-Outcome :
        (args : AppendEntriesArgs C) (rf : Raft C B)
        → 0 < length rf.logs
        → Matching args rf
        → Ensures (Outcome args rf) (append_entries args rf)
    unfolding append_entries
    append_entries-Outcome args rf nonempty m =
        Ensures-if (ltb_ℤ args.term rf.current_term)
          (λ stale. value (inr (refl, (refl, refl, refl))))
          λ current.
            Ensures-mono (λ r o. Outcome-heard args rf r o)
              (append_current-Outcome args (heard args.term rf)
                (adopt_term_lem args.term rf current)
                (ground (arith, adopt_term_shape args.term rf))
                (rw (adopt_term_shape args.term rf).0 (rw (adopt_term_shape args.term rf).2 m)))
