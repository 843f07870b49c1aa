-- ===== src/Raft/Broadcast/Backoff.antt =====
-- How a leader goes back after a refusal (src/raft/raft.go): the conflict hints of AppendEntries
-- against their use in broadcastEntries.
use mit_raft.Base.{
  ℕ, zero, suc, ◌+◌, ◌-◌, ◌≤◌, ◌<◌, ◌≡◌, refl, sym, ◌∙◌, ◌⊎◌, inl, inr, true, false, ℤ, pos,
  pos_part, minus_one, leb_ℤ, ◌<ℤ◌, ◌≤ℤ◌, ◌==ℤ◌, ==ℤ→eq, ==ℤ_refl, ltb, List, Option, none, some,
  ok, or_panic, Ensures, value, panics, Ensures-ok, Ensures-mono, Ensures-bind, Ensures-after,
  Ensures-after_eq, Ensures-if, get_elem?, arith, dec_lt, leb_ℤ, Bool-cases, Option-cases,
}
use mit_raft.Raft.Persister.{Codec}
use mit_raft.Raft.State.{Entries, Raft, sub_idx, load, slice_from, get_last_log_index}
use mit_raft.Raft.Role.{Saved}
use mit_raft.Raft.Append.{
  AppendEntriesArgs, AppendEntriesReply, first_of_term, advance_commit, accept, append_current,
}
use mit_raft.Raft.Broadcast.{Broadcast, last_of_term, back_off, entries_from}

module _ {ℓ} {C : Type ℓ} where
  first_of_term-le :
      (logs : List (Entries C)) (base : ℕ) (t : ℤ) (k : ℕ) (hint : ℤ) (top : ℕ)
      → hint ≤ℤ pos top
      → k + base ≤ top
      → Ensures (λ h. h ≤ℤ pos top) (first_of_term logs base t k hint)
  unfolding first_of_term
  first_of_term-le logs base t zero hint top low b = value low
  first_of_term-le logs base t (suc k) hint top low b =
      Ensures-after (or_panic (get_elem? logs (suc k))) λ e.
        Ensures-if (e.term ==ℤ t)
          (λ same.
            first_of_term-le logs base t k (pos (suc k + base)) top (omega arith) (omega arith))
          (λ differs. value low)

  -- A position that is found lies in the searched part and has the term.
  abbrev Found : List (Entries C) → ℤ → ℕ → Option ℕ → Type ℓ
  Found logs t k none = Unit
  Found logs t k (some p) =
      (0 < p) × (p ≤ k) × ((e : Entries C) × (get_elem? logs p ≡ some e) × (e.term ≡ t))

  Found-suc :
      (logs : List (Entries C)) (t : ℤ) (k : ℕ) (o : Option ℕ)
      → Found logs t k o
      → Found logs t (suc k) o
  Found-suc logs t k none f = tt
  Found-suc logs t k (some p) f = (f.0, omega arith, f.2)

  last_of_term-Found :
      (logs : List (Entries C)) (t : ℤ) (k : ℕ) → Ensures (Found logs t k) (last_of_term logs t k)
  unfolding last_of_term
  last_of_term-Found logs t zero = value tt
  last_of_term-Found logs t (suc k) = elim (Option-cases (get_elem? logs (suc k))) [
    | inl q ↦ rw (q, or_panic) panics
    | inr (e, q) ↦ rw q (elim (Bool-cases (e.term ==ℤ t)) [
      | inl same ↦ rw same (value (omega arith, omega arith, (e, q, ==ℤ→eq _ _ same)))
      | inr differs ↦ rw differs (Ensures-mono (Found-suc logs t k) (last_of_term-Found logs t k))
    ])
  ]

module _ {ℓ} {C B : Type ℓ} where
  -- What the leader's request says of its own log.
  abbrev Head : ℕ → Raft C B → AppendEntriesArgs C → Type ℓ
  Head next lead args =
      (args.prev_log_index ≡ next - 1)
      × ((p : Entries C) × (load lead (next - 1) ≡ ok p) × (args.prev_log_term ≡ p.term))

  entries_from-Head :
      (bc : Broadcast) (next : ℕ) (lead : Raft C B)
      → Ensures (Head next lead) (entries_from bc next lead)
  unfolding entries_from
  entries_from-Head bc next lead =
      Ensures-after_eq (load lead (next - 1))
        λ p found. Ensures-after (slice_from lead next) λ es. value (refl, (p, found, refl))

  back_off_plain :
      (reply : AppendEntriesReply) (lead : Raft C B) (h : ℤ)
      → reply.conflict_term ≡ minus_one
      → back_off reply lead ≡ ok h
      → h ≡ reply.conflict_index
  unfolding back_off
  back_off_plain reply lead h e again = ground arith

  -- The leader's entry at `prev` does not have the term that the hint is about.
  module _ (reply : AppendEntriesReply) (lead : Raft C B) (prev : ℕ) (p : Entries C)
      (low : lead.last_included_index ≤ prev) (found : load lead prev ≡ ok p)
      (hint : reply.conflict_index ≤ℤ pos prev) (differs : p.term ≡ reply.conflict_term → ⊥) where
    Found-earlier :
        (q : ℕ)
        → leb_ℤ reply.conflict_index (pos lead.last_included_index) ≡ false
        → Found lead.logs reply.conflict_term
            (pos_part reply.conflict_index - lead.last_included_index)
            (some q)
        → q + lead.last_included_index < prev
    unfolding load
    Found-earlier q above (some', below, (e, there, same)) =
        elim (dec_lt (q + lead.last_included_index) prev) [
          | yes lt ↦ lt
          | no ge ↦
              let here : q ≡ prev - lead.last_included_index = ground arith in
              let same_entry : e ≡ p = ground (arith, there, here) in
              absurd (differs (rw same_entry at same))
        ]

    back_off_retreats : Ensures (λ h. (h <ℤ pos (prev + 1)) ⊎ (prev ≡ 0)) (back_off reply lead)
    unfolding back_off
    back_off_retreats =
        Ensures-if (reply.conflict_term ==ℤ minus_one) (λ e. value (inl (omega arith)))
          λ e. elim (Bool-cases (leb_ℤ reply.conflict_index (pos lead.last_included_index))) [
            | inl none' ↦ rw none' (value (ground arith))
            | inr above ↦ rw above (
                Ensures-bind
                  (last_of_term-Found lead.logs reply.conflict_term
                    (pos_part reply.conflict_index - lead.last_included_index))
                  elim [
                    | none ↦ λ f. value (ground arith)
                    | some q ↦ λ f. value (inl (omega (arith, Found-earlier q above f)))
                  ])
          ]

  -- The three ways in which a follower of the leader's term refuses.
  abbrev pub Refusal : AppendEntriesArgs C → Raft C B → AppendEntriesReply → Type ℓ
  Refusal args rf reply =
      ((reply.conflict_term ≡ minus_one) × (reply.conflict_index ≤ℤ pos args.prev_log_index))
      ⊎ ((args.prev_log_index < rf.last_included_index)
          × (reply.conflict_term ≡ minus_one)
          × (reply.conflict_index ≡ pos (rf.last_included_index + 1)))
      ⊎ ((e : Entries C) × (load rf args.prev_log_index ≡ ok e)
          × ((e.term ==ℤ args.prev_log_term) ≡ false)
          × (reply.conflict_term ≡ e.term)
          × (reply.conflict_index ≤ℤ pos args.prev_log_index))

  module _ ⦃gob : Codec (Saved C) B⦄ where
    accept-success :
        (args : AppendEntriesArgs C) (rf : Raft C B)
        → Ensures (λ r. r.0.success ≡ true) (accept args rf)
    unfolding accept
    accept-success args rf = Ensures-after (advance_commit args.leader_commit _) λ r. value refl

    append_current-Refusal :
        (args : AppendEntriesArgs C) (rf : Raft C B)
        → Ensures (λ r. r.0.success ≡ false → Refusal args rf r.0) (append_current args rf)
    unfolding append_current get_last_log_index
    append_current-Refusal args rf =
        Ensures-if (ltb (get_last_log_index rf) args.prev_log_index)
          (λ short. value (λ f. inl (refl, ground arith)))
          λ long.
            Ensures-if (ltb args.prev_log_index rf.last_included_index)
              (λ old. value (λ f. inr (inl (ground arith, refl, refl))))
              λ new. Ensures-after_eq (load rf args.prev_log_index) λ e found.
                Ensures-if (e.term ==ℤ args.prev_log_term)
                  (λ eq. Ensures-mono (λ r done failed. absurd (cc)) (accept-success args rf))
                  λ ne.
                    Ensures-bind
                      (first_of_term-le rf.logs rf.last_included_index e.term
                        (sub_idx rf args.prev_log_index) minus_one args.prev_log_index (omega arith)
                        (ground arith))
                      λ h low. value (λ f. inr (inr (e, found, ne, refl, low)))

    -- After a follower refuses entries sent from nextIndex, which lies after the snapshot, the
    -- leader's new nextIndex is smaller, or the follower has already put the previous entry into a
    -- snapshot and asks for the entry after it, or nextIndex was 1.
    pub back_off-lt :
        (bc : Broadcast) (next : ℕ) (lead rf : Raft C B) (args : AppendEntriesArgs C)
        (r : AppendEntriesReply × Raft C B) (h : ℤ)
        → lead.last_included_index < next
        → entries_from bc next lead ≡ ok args
        → append_current args rf ≡ ok r
        → r.0.success ≡ false
        → back_off r.0 lead ≡ ok h
        → (h <ℤ pos next)
          ⊎ ((args.prev_log_index < rf.last_included_index)
              × (h ≡ pos (rf.last_included_index + 1)))
          ⊎ (next ≡ 1)
    back_off-lt bc next lead rf args r h low sent answered failed again =
        let (start, (p, found, same)) = Ensures-ok args (entries_from-Head bc next lead) sent in
        let refused = Ensures-ok r (append_current-Refusal args rf) answered failed in
        elim refused [
          | inl (plain, hint) ↦
              let hinted = back_off_plain r.0 lead h plain again in inl (rw hinted (omega arith))
          | inr (inl (covered, plain, hint)) ↦
              inr (inl (covered, back_off_plain r.0 lead h plain again ∙ hint))
          | inr (inr (e, there, ne, conflict, hint)) ↦
              let differs : p.term ≡ r.0.conflict_term → ⊥ = λ q.
                let both : e.term ≡ args.prev_log_term = sym (same ∙ q ∙ conflict) in
                let eq : (e.term ==ℤ args.prev_log_term) ≡ true =
                  rw both (==ℤ_refl args.prev_log_term) in
                cc in
              ground (
                arith,
                Ensures-ok h
                    (back_off_retreats r.0 lead (next - 1) p (omega arith) found (rw start at hint)
                      differs)
                    again,
              )
        ]
