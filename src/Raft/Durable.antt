-- ===== src/Raft/Durable.antt =====
-- What survives a crash: the persistent state against the state of the running peer
-- (src/raft/raft.go: persist, readPersist, Make).
use mit_raft.Base.{
  ℕ, ◌<◌, ◌≡◌, ◌≢◌, refl, sym, inl, inr, Option-cases, length-replicate, minus_one, pos, List, [],
  ◌∷◌, none, some, ok, Returns, returned, length, get_elem?, drop, arith,
}
use mit_raft.Raft.Persister.{Persister, Codec, save_raft_state, read_raft_state}
use mit_raft.Raft.State.{voted_null, Command, Entries, Raft}
use mit_raft.Raft.Role.{Saved, saved, persist, persist_state_and_snapshot}
use mit_raft.Raft.Node.{fresh, read_persist, make}
use mit_raft.Raft.Snapshot.{store}

module _ {ℓ} {C : Type ℓ} where
  -- The same state up to the entry at the head of the log, which Make writes anew.
  pub record Agrees (s t : Saved C) : Type ℓ where
    pub terms : s.term ≡ t.term
    pub votes : s.voted_for ≡ t.voted_for
    pub tails : drop 1 s.logs ≡ drop 1 t.logs
    pub nonempty : 0 < length s.logs
    pub indices : s.last_included_index ≡ t.last_included_index
    pub included : s.last_included_term ≡ t.last_included_term

  pub Agrees-refl : (s : Saved C) → 0 < length s.logs → Agrees s s
  Agrees-refl s h = record {
    terms = refl;
    votes = refl;
    tails = refl;
    nonempty = h;
    indices = refl;
    included = refl;
  }

  -- The state of a peer that has never stored anything.
  abbrev pub initial : Saved C
  initial = record {
    term = minus_one;
    voted_for = voted_null;
    logs = record { term = pos 0; index = 0; command = Command.placeholder } ∷ [];
    last_included_index = 0;
    last_included_term = minus_one;
  }

  -- `rf.logs[0] = …`
  rewrite_head :
      (logs : List (Entries C)) (e : Entries C)
      → 0 < length logs
      → (l : List (Entries C)) × (store logs 0 e ≡ ok l)
        × (drop 1 l ≡ drop 1 logs)
        × (0 < length l)
        × (get_elem? l 0 ≡ some e)
  unfolding store
  rewrite_head [] e h = absurd (omega arith)
  rewrite_head (x ∷ l) e h = (e ∷ l, ground arith, refl, omega arith, refl)

module _ {ℓ} {C B : Type ℓ} ⦃gob : Codec (Saved C) B⦄ where
  -- The state that the stored bytes stand for.
  unfoldable pub stored : List B → Saved C
  stored [] = initial
  stored (b ∷ bytes) = elim (gob.decode (b ∷ bytes)) [ none ↦ initial | some s ↦ s ]

  -- A crash now would lose nothing that the peer has promised.
  abbrev pub Durable : Raft C B → Type ℓ
  Durable rf = Agrees (stored rf.persister.raft_state) (saved rf)

  stored-decode :
      (bytes : List B) (s : Saved C) → bytes ≢ [] → gob.decode bytes ≡ some s → stored bytes ≡ s
  unfolding stored
  stored-decode [] s h e = absurd (h refl)
  stored-decode (b ∷ bytes) s h e = rw (e, stored)

  stored-encode : (bytes : List B) (s : Saved C) → bytes ≡ gob.encode s → stored bytes ≡ s
  stored-encode bytes s e =
      rw e (stored-decode (gob.encode s) s (gob.encode_nonempty s) (gob.decode-encode s))

  pub persist-Durable : (rf : Raft C B) → 0 < length rf.logs → Durable (persist rf)
  unfolding persist save_raft_state
  persist-Durable rf h = rw (stored-encode _ (saved rf) refl) (Agrees-refl (saved rf) h)

  pub persist_state_and_snapshot-Durable :
      (rf : Raft C B) (data' : List B)
      → 0 < length rf.logs
      → Durable (persist_state_and_snapshot rf data')
  unfolding persist_state_and_snapshot
  persist_state_and_snapshot-Durable rf data' h =
      rw (stored-encode _ (saved rf) refl) (Agrees-refl (saved rf) h)

  -- What Make writes into `logs[0]`.
  abbrev pub head_entry : Raft C B → Entries C
  head_entry rf = record {
    term = rf.last_included_term;
    index = rf.last_included_index;
    command = Command.placeholder;
  }

  abbrev pub Restarted : ℕ → Persister B → Raft C B → Type ℓ
  Restarted peers ps rf =
      Agrees (stored ps.raft_state) (saved rf)
      × (0 < length rf.logs)
      × (get_elem? rf.logs 0 ≡ some (head_entry rf))
      × (rf.commit_index ≡ rf.last_included_index)
      × (rf.last_applied ≡ rf.last_included_index)
      × (rf.persister ≡ ps)
      × (rf.peers ≡ peers)
      × (length rf.next_index ≡ peers)
      × (length rf.match_index ≡ peers)

  read_persist-stored :
      (bytes : List B) (peers me : ℕ) (ps : Persister B)
      → read_persist bytes (fresh peers me ps) ≡ record (fresh peers me ps) {
        current_term = (stored bytes).term;
        voted_for = (stored bytes).voted_for;
        logs = (stored bytes).logs;
        last_included_index = (stored bytes).last_included_index;
        last_included_term = (stored bytes).last_included_term;
        last_applied = (stored bytes).last_included_index;
        commit_index = (stored bytes).last_included_index;
      }
  unfolding read_persist stored
  read_persist-stored [] peers me ps = refl
  read_persist-stored (b ∷ bytes) peers me ps = elim (Option-cases (gob.decode (b ∷ bytes))) [
    | inl e ↦ ground arith
    | inr (s, e) ↦ ground arith
  ]

  -- Make starts from what is stored, and applies nothing anew.
  pub make-Returns :
      (peers me : ℕ) (ps : Persister B)
      → 0 < length (stored ps.raft_state).logs
      → Returns (Restarted peers ps) (make peers me ps)
  unfolding make read_raft_state
  make-Returns peers me ps h =
      let s = stored ps.raft_state in
      let head : Entries C = record {
        term = s.last_included_term;
        index = s.last_included_index;
        command = Command.placeholder;
      } in
      let (l, done, tails, nonempty, head_is) = rewrite_head s.logs head h in
      rw (read_persist-stored ps.raft_state peers me ps, done)
        (returned (
          record {
            terms = refl;
            votes = refl;
            tails = sym tails;
            nonempty = h;
            indices = refl;
            included = refl;
          },
          nonempty,
          head_is,
          refl,
          refl,
          refl,
          refl,
          length-replicate peers (pos 0),
          length-replicate peers 0,
        ))
