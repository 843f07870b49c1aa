-- ===== src/Raft/Invariant/Append.antt =====
-- The invariant over AppendEntries (src/raft/raft.go).
use mit_raft.Base.{
  ℕ, minus_one, suc, ◌+◌, ◌-◌, ◌≤◌, ◌<◌, ◌≡◌, refl, sym, ◌∙◌, ℤ, ltb_ℤ, ◌==ℤ◌, List, ok, pos,
  Returns, returned, Returns-bind, Returns-if, length, get_elem?-some, ltb, ◌==◌, arith, Bool-cases,
  inl, inr, zero, if◌then◌else◌, min,
}
use mit_raft.Raft.Persister.{Codec}
use mit_raft.Raft.State.{Entries, Raft, load, get_last_log_index, add_idx}
use mit_raft.Raft.Role.{Saved, persist}
use mit_raft.Raft.Append.{
  AppendEntriesArgs, first_of_term, merge, advance_commit, accept, append_current, append_entries,
}
use mit_raft.Raft.Append.Match.{merge_keeps, merge_empty}
use mit_raft.Raft.Deliver.{load_returns, apply_logs_returns}
use mit_raft.Raft.Invariant.{
  Shape, Inv, Consistent, persist-Inv, adopt_term-Inv, adopt_term_lem, adopt_term_shape, heard,
  load-heard,
}

pub first_of_term_returns {ℓ} :
    {C : Type ℓ} (logs : List (Entries C)) (base : ℕ) (t : ℤ) (k : ℕ) (hint : ℤ)
    → k < length logs
    → (h : ℤ) × (first_of_term logs base t k hint ≡ ok h)
unfolding first_of_term
first_of_term_returns logs base t zero hint lt = (hint, refl)
first_of_term_returns logs base t (suc k) hint lt =
    let (e, q) = get_elem?-some logs (suc k) lt in
    let (h, found) = first_of_term_returns logs base t k (pos (suc k + base)) (omega arith) in
    elim (Bool-cases (e.term ==ℤ t)) [
      | inl same ↦ (h, rw (q, same) found)
      | inr differs ↦ (hint, rw (q, differs))
    ]

module _ {ℓ} {C B : Type ℓ} ⦃gob : Codec (Saved C) B⦄ where
  advance_commit-Inv : (n : ℕ) (rf : Raft C B) → Inv rf → Returns Inv (advance_commit n rf)
  unfolding advance_commit
  advance_commit-Inv n rf i =
      Returns-if (ltb rf.commit_index n)
        (λ up.
          let (ms, sent, told, size) =
            apply_logs_returns
              (record rf { commit_index = min n (add_idx rf (length rf.logs - 1)) })
              (ground (arith, i.shape)) (ground (arith, i.shape)) (ground (arith, i.shape)) in
          rw sent (returned (record { shape = ground (arith, i.shape); durable = i.durable })))
        (λ down. returned i)

  abbrev pub merged_log : AppendEntriesArgs C → Raft C B → Raft C B
  merged_log args rf = record rf {
    current_term = args.term;
    logs = merge rf.logs (args.prev_log_index + 1 - rf.last_included_index) args.entries;
  }

  -- The peer after the merge of the entries, and before the commit index moves.
  abbrev pub after_merge : AppendEntriesArgs C → Raft C B → Raft C B
  after_merge args rf =
      if length args.entries == 0 then merged_log args rf else persist (merged_log args rf)

  pub after_merge-Inv :
      (args : AppendEntriesArgs C) (rf : Raft C B)
      → Inv rf
      → rf.current_term ≡ args.term
      → rf.last_included_index ≤ args.prev_log_index
      → args.prev_log_index < rf.last_included_index + length rf.logs
      → Consistent args rf
      → Inv (after_merge args rf)
  unfolding load
  after_merge-Inv args rf i same low high c = elim (Bool-cases (length args.entries == 0)) [
    | inl z ↦ rw z (unchanged (ground arith))
    | inr n ↦ rw n (persist-Inv merged shape)
  ]
    where
      ind : ℕ
      ind = args.prev_log_index + 1 - rf.last_included_index

      grown : rf.commit_index - rf.last_included_index < length (merge rf.logs ind args.entries)
      grown =
          merge_keeps rf.logs ind (rf.commit_index - rf.last_included_index) args.entries
            (omega (arith, i.shape.committed, i.shape.included))
            (λ k x e p q b.
              let place : args.prev_log_index + 1 + k - rf.last_included_index ≡ ind + k =
                omega arith in
              c k e x q (ground (arith, p, place)) (omega (arith, i.shape.included)))

      merged : Raft C B
      merged = merged_log args rf

      shape : Shape merged
      shape = ground (arith, grown, i.shape)

      unchanged : length args.entries ≡ 0 → Inv merged
      unchanged h = record {
        shape = shape;
        durable = record {
          terms = i.durable.terms ∙ same;
          votes = i.durable.votes;
          tails = rw (merge_empty rf.logs ind args.entries h) i.durable.tails;
          nonempty = i.durable.nonempty;
          indices = i.durable.indices;
          included = i.durable.included;
        };
      }

  accept-Inv :
      (args : AppendEntriesArgs C) (rf : Raft C B)
      → Inv rf
      → rf.current_term ≡ args.term
      → rf.last_included_index ≤ args.prev_log_index
      → args.prev_log_index < rf.last_included_index + length rf.logs
      → Consistent args rf
      → Returns (λ r. Inv r.1) (accept args rf)
  unfolding accept
  accept-Inv args rf i same low high c =
      Returns-bind
        (advance_commit-Inv args.leader_commit (after_merge args rf)
          (after_merge-Inv args rf i same low high c))
        λ rf' v. returned v

  append_current-Inv :
      (args : AppendEntriesArgs C) (rf : Raft C B)
      → Inv rf
      → rf.current_term ≡ args.term
      → Consistent args rf
      → Returns (λ r. Inv r.1) (append_current args rf)
  unfolding append_current get_last_log_index
  append_current-Inv args rf i same c =
      Returns-if (ltb (get_last_log_index rf) args.prev_log_index) (λ short. returned i)
        λ long.
          Returns-if (ltb args.prev_log_index rf.last_included_index) (λ old. returned i)
            λ new.
              let low : rf.last_included_index ≤ args.prev_log_index = ground arith in
              let high : args.prev_log_index < rf.last_included_index + length rf.logs =
                ground (arith, i.shape.nonempty) in
              let (e, found) = load_returns rf args.prev_log_index low high in
              let (h, hint) =
                first_of_term_returns rf.logs rf.last_included_index e.term
                  (args.prev_log_index - rf.last_included_index) minus_one (omega arith) in
              rw found (
                Returns-if (e.term ==ℤ args.prev_log_term)
                  (λ eq. accept-Inv args rf i same low high c) (λ ne. rw hint (returned i)))

  -- AppendEntries never panics on entries that contradict nothing committed here.
  pub append_entries-Inv :
      (args : AppendEntriesArgs C) (rf : Raft C B)
      → Inv rf
      → Consistent args rf
      → Returns (λ r. Inv r.1) (append_entries args rf)
  unfolding append_entries
  append_entries-Inv args rf i c =
      Returns-if (ltb_ℤ args.term rf.current_term) (λ stale. returned i)
        λ current.
          let v = adopt_term-Inv args.term rf i in
          append_current-Inv args (heard args.term rf)
            (record { shape = ground (arith, v.shape); durable = v.durable })
            (adopt_term_lem args.term rf current)
            (λ k e x p q b.
              c k e x p (sym (load-heard args.term rf _) ∙ q)
                (omega (arith, adopt_term_shape args.term rf)))
