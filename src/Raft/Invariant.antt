-- ===== src/Raft/Invariant.antt =====
-- The invariant of one peer (src/raft/raft.go), and what an event owes to the rest of the system.
pub mod Append
pub mod Leader
pub mod Snapshots
pub mod Step
use mit_raft.Base.{
  ℕ, ◌+◌, ◌≤◌, ◌<◌, ◌≡◌, true, false, eq_of_parts, ℤ, pos, suc_ℤ, pos_part, ltb_ℤ, some, ok, length,
  get_elem?, arith, Bool-cases, inl, inr,
}
use mit_raft.Raft.Persister.{Codec}
use mit_raft.Raft.State.{Role, leader, candidate, follower, voted_null, Entries, Raft, load}
use mit_raft.Raft.Role.{
  Saved, persist, adopt_term, convert_role_to, fill_others, length-fill_others,
}
use mit_raft.Raft.Append.{AppendEntriesArgs}
use mit_raft.Raft.Node.{Event, appends, append_replies, snapshot_replies, takes, votes}
use mit_raft.Raft.Durable.{Durable, persist-Durable}

-- The log is never empty, everything committed has been applied, and the commit index lies
-- between the snapshot and the end of the log.
pub record Shape {ℓ} {C B : Type ℓ} (rf : Raft C B) : Type 0 where
  pub nonempty : 0 < length rf.logs
  pub applied : rf.last_applied ≡ rf.commit_index
  pub included : rf.last_included_index ≤ rf.commit_index
  pub committed : rf.commit_index < rf.last_included_index + length rf.logs
  pub nexts : length rf.next_index ≡ rf.peers
  pub matches : length rf.match_index ≡ rf.peers

module _ {ℓ} {C B : Type ℓ} where
  -- The entries do not contradict an entry that is committed here.
  abbrev pub Consistent : AppendEntriesArgs C → Raft C B → Type ℓ
  Consistent args rf =
      (k : ℕ) (e x : Entries C)
      → get_elem? args.entries k ≡ some e
      → load rf (args.prev_log_index + 1 + k) ≡ ok x
      → args.prev_log_index + 1 + k ≤ rf.commit_index
      → x.term ≡ e.term

  -- What the code relies on: Raft's own safety for AppendEntries, a peer's index in its range,
  -- replies that answer what was sent, and snapshots of what has been applied.
  abbrev pub Genuine : Raft C B → Event C B → Type ℓ
  Genuine rf (appends args) = Consistent args rf
  Genuine rf (append_replies bc server args reply) =
      (server < rf.peers)
      × (reply.success ≡ true
          → args.prev_log_index + length args.entries < rf.last_included_index + length rf.logs)
      × (pos_part reply.conflict_index < rf.last_included_index + length rf.logs)
      × Unit
  Genuine rf (snapshot_replies arg server reply) = (server < rf.peers) × Unit
  Genuine rf (takes raw applied_id term) = (applied_id ≤ rf.commit_index) × Unit
  Genuine rf _ = Unit

  module _ ⦃gob : Codec (Saved C) B⦄ where
    pub record Inv (rf : Raft C B) : Type ℓ where
      pub shape : Shape rf
      pub durable : Durable rf

    pub persist-Inv : (rf : Raft C B) → Shape rf → Inv (persist rf)
    unfolding persist
    persist-Inv rf s = record { shape = ground arith; durable = persist-Durable rf s.nonempty }

    pub convert_role_to-Inv : (r : Role) (rf : Raft C B) → Shape rf → Inv (convert_role_to r rf)
    unfolding convert_role_to
    convert_role_to-Inv leader rf s =
        persist-Inv
          (record rf {
            role = leader;
            next_index =
                fill_others rf.me (pos (length rf.logs + rf.last_included_index)) 0 rf.next_index;
            match_index = fill_others rf.me 0 0 rf.match_index;
          })
          (record {
            nonempty = s.nonempty;
            applied = s.applied;
            included = s.included;
            committed = s.committed;
            nexts = rw length-fill_others s.nexts;
            matches = rw length-fill_others s.matches;
          })
    convert_role_to-Inv candidate rf s =
        persist-Inv
          (record rf {
            current_term = suc_ℤ rf.current_term;
            voted_for = pos rf.me;
            role = candidate;
          })
          (ground arith)
    convert_role_to-Inv follower rf s =
        persist-Inv (record rf { voted_for = voted_null; role = follower }) (ground arith)

    pub adopt_term-Inv : (t : ℤ) (rf : Raft C B) → Inv rf → Inv (adopt_term t rf)
    unfolding adopt_term
    adopt_term-Inv t rf i = elim (Bool-cases (ltb_ℤ rf.current_term t)) [
      | inl e ↦ rw e (convert_role_to-Inv follower (record rf { current_term = t }) (ground arith))
      | inr e ↦ rw e i
    ]

    -- The peer has the term of a request that is not stale.
    pub adopt_term_lem :
        (t : ℤ) (rf : Raft C B)
        → ltb_ℤ t rf.current_term ≡ false
        → (adopt_term t rf).current_term ≡ t
    unfolding adopt_term
    adopt_term_lem t rf h = ground (arith, eq_of_parts rf.current_term t)

    -- Adopting a term leaves the log and the indices alone.
    pub adopt_term_shape :
        (t : ℤ) (rf : Raft C B)
        → ((adopt_term t rf).logs ≡ rf.logs)
          × ((adopt_term t rf).commit_index ≡ rf.commit_index)
          × ((adopt_term t rf).last_included_index ≡ rf.last_included_index)
          × ((adopt_term t rf).last_applied ≡ rf.last_applied)
          × ((adopt_term t rf).apply_ch ≡ rf.apply_ch)
    unfolding adopt_term
    adopt_term_shape t rf = ground arith

    -- The peer that goes on with a request: its term is adopted, and the timer is restarted.
    abbrev pub heard : ℤ → Raft C B → Raft C B
    heard t rf = record (adopt_term t rf) { append_ch = true }

    pub load-heard : (t : ℤ) (rf : Raft C B) (i : ℕ) → load (heard t rf) i ≡ load rf i
    unfolding adopt_term load
    load-heard t rf i = ground arith
