-- ===== src/Raft/Recovery.antt =====
-- A crash and a restart (src/raft/raft.go: persist, Make, TakeSnapshot), over the invariant.
use mit_raft.Base.{
  ℕ, ◌+◌, ◌-◌, ◌≤◌, ◌<◌, ◌≡◌, refl, sym, ◌∙◌, ℤ, leb, List, ok, ◌>>=◌, Returns, returned,
  Returns-bind, Returns-mono, drop, get_elem?-drop, arith, ltb, false,
}
use mit_raft.Raft.Persister.{Codec}
use mit_raft.Raft.State.{Entries, Raft, load}
use mit_raft.Raft.Role.{Saved, delivery}
use mit_raft.Raft.Node.{restarts, step}
use mit_raft.Raft.Snapshot.{take_snapshot}
use mit_raft.Raft.Durable.{make-Returns, head_entry}
use mit_raft.Raft.Invariant.{Inv}
use mit_raft.Raft.Invariant.Snapshots.{slice_from_returns, persisted-Inv}

module _ {ℓ} {C B : Type ℓ} ⦃gob : Codec (Saved C) B⦄ where
  -- What the restarted peer `r` has of the peer `rf` that crashed.
  pub record Recovered (rf r : Raft C B) : Type ℓ where
    pub terms : r.current_term ≡ rf.current_term
    pub votes : r.voted_for ≡ rf.voted_for
    pub base : r.last_included_index ≡ rf.last_included_index
    pub entries : (i : ℕ) → rf.last_included_index < i → load r i ≡ load rf i
    pub commits : (r.commit_index ≡ rf.last_included_index) × (r.commit_index ≤ rf.commit_index)

  load_tail :
      (r rf : Raft C B) (i : ℕ)
      → r.last_included_index ≡ rf.last_included_index
      → drop 1 r.logs ≡ drop 1 rf.logs
      → rf.last_included_index < i
      → load r i ≡ load rf i
  unfolding load
  load_tail r rf i base tails h =
      let place : i - rf.last_included_index ≡ 1 + (i - rf.last_included_index - 1) = omega arith in
      rw (base, place, ← get_elem?-drop 1 r.logs, ← get_elem?-drop 1 rf.logs, tails)

  -- A snapshot that is taken gives its index and its term to the state.
  taken :
      (rf : Raft C B) (raw : List B) (i : ℕ) (term : ℤ)
      → Inv rf
      → rf.last_included_index < i
      → i ≤ rf.commit_index
      → Returns
          (λ s. Inv s × (s.last_included_index ≡ i) × (s.last_included_term ≡ term))
          (take_snapshot raw i term rf)
  unfolding take_snapshot
  taken rf raw i term v low high =
      let (l, cut, size, same) =
        slice_from_returns rf i (omega arith) (omega (arith, v.shape.committed)) in
      let old : leb i rf.last_included_index ≡ false = ground arith in
      rw (old, cut)
        (returned (
          persisted-Inv (record rf { logs = l; last_included_term = term; last_included_index = i })
              raw (ground (arith, v.shape, size)),
          refl,
          refl,
        ))

  -- A peer that crashes in a state with the invariant restarts without a panic, with its term, its
  -- vote, its snapshot index and every log entry after the snapshot, and with the snapshot index
  -- as its commit index.
  pub restart-Recovered :
      (rf : Raft C B) → Inv rf → Returns (λ r. Recovered rf r) (step rf restarts)
  unfolding step
  restart-Recovered rf i =
      Returns-mono
        (λ r s.
          let agrees = s.0 in
          let d = i.durable in
          let base = sym agrees.indices ∙ d.indices in
          record {
            terms = sym agrees.terms ∙ d.terms;
            votes = sym agrees.votes ∙ d.votes;
            base = base;
            entries = λ j h. load_tail r rf j base (sym agrees.tails ∙ d.tails) h;
            commits = (s.3 ∙ base, omega (arith, i.shape.included, s.3, base));
          })
        (make-Returns rf.peers rf.me rf.persister i.durable.nonempty)

  -- TakeSnapshot, called at a committed index after the last snapshot with the term of the
  -- ApplyMsg, followed by a restart, leaves the delivering peer's current term at the snapshot's
  -- index, whatever the term of the entry was.
  pub snapshot_term_lost :
      (rf : Raft C B) (raw : List B) (i : ℕ) (e : Entries C)
      → Inv rf
      → rf.last_included_index < i
      → i ≤ rf.commit_index
      → load rf i ≡ ok e
      → Returns
          (λ r. (x : Entries C) × (load r i ≡ ok x) × (x.term ≡ rf.current_term))
          (take_snapshot raw i (delivery rf i e).commit_term rf >>= λ s. step s restarts)
  unfolding step load
  snapshot_term_lost rf raw i e v low high found =
      Returns-bind (taken rf raw i rf.current_term v low high) λ s (w, index, term).
        Returns-mono
          (λ r t.
            let base : r.last_included_index ≡ i = sym t.0.indices ∙ w.durable.indices ∙ index in
            let head : r.last_included_term ≡ rf.current_term =
              sym t.0.included ∙ w.durable.included ∙ term in
            let place : i - r.last_included_index ≡ 0 = omega arith in
            let inside : ltb i r.last_included_index ≡ false = ground arith in
            (head_entry r, rw (inside, place, t.2), head))
          (make-Returns s.peers s.me s.persister w.durable.nonempty)
