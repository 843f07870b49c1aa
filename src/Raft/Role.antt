-- ===== src/Raft/Role.antt =====
-- Changes of role, persistence and the delivery of committed entries (src/raft/raft.go:
-- persist, convertRoleTo, dropAndSet, applyLogs).
use mit_raft.Base.{
  ℕ, zero, suc, ◌+◌, ◌-◌, ◌≡◌, refl, ap, true, ℤ, pos, suc_ℤ, ltb_ℤ, List, [], ◌∷◌, ◌++◌, Run, ok,
  ◌>>=◌, length, ◌==◌, if◌then◌else◌,
}
use mit_raft.Raft.Persister.{Codec, save_raft_state, save_state_and_snapshot}
use mit_raft.Raft.State.{
  Role, leader, candidate, follower, Entries, Payload, ApplyMsg, Raft, voted_null, load,
}

-- The five values that are encoded into the persistent state, in this order.
pub record Saved {ℓ} (C : Type ℓ) : Type ℓ where
  pub term : ℤ
  pub voted_for : ℤ
  pub logs : List (Entries C)
  pub last_included_index : ℕ
  pub last_included_term : ℤ

-- `for i := 0; i < len(rf.peers); i++ { if i != rf.me { a[i] = v } }`, from `i`
pub fill_others {ℓ} : {A : Type ℓ} → ℕ → A → ℕ → List A → List A
fill_others me v i [] = []
fill_others me v i (x ∷ a) = (if i == me then x else v) ∷ fill_others me v (i + 1) a

pub length-fill_others {ℓ} :
    {A : Type ℓ} (me : ℕ) (v : A) (i : ℕ) (a : List A) → length (fill_others me v i a) ≡ length a
unfolding fill_others
length-fill_others me v i [] = refl
length-fill_others me v i (x ∷ a) = ap suc (length-fill_others me v (i + 1) a)

module _ {ℓ} {C B : Type ℓ} where
  abbrev pub saved : Raft C B → Saved C
  saved rf = record {
    term = rf.current_term;
    voted_for = rf.voted_for;
    logs = rf.logs;
    last_included_index = rf.last_included_index;
    last_included_term = rf.last_included_term;
  }

  abbrev pub delivery : Raft C B → ℕ → Entries C → ApplyMsg C B
  delivery rf i e = record {
    command_valid = true;
    payload = Payload.command e.command;
    command_index = i;
    commit_term = rf.current_term;
    role = rf.role;
  }

  -- The loop of applyLogs: the messages for `n` entries from index `i` on.
  unfoldable pub deliver : ℕ → ℕ → Raft C B → Run (List (ApplyMsg C B))
  deliver zero i rf = ok []
  deliver (suc n) i rf = do e ← load rf i; rest ← deliver n (i + 1) rf; ok (delivery rf i e ∷ rest)

  -- The log line after the loop reads the entry at `commit_index`.
  unfoldable pub apply_logs : Raft C B → Run (Raft C B)
  apply_logs rf = do
    msgs ← deliver (rf.commit_index - rf.last_applied) (rf.last_applied + 1) rf
    logged ← load rf rf.commit_index
    ok (record rf { apply_ch = rf.apply_ch ++ msgs; last_applied = rf.commit_index })

  module _ ⦃gob : Codec (Saved C) B⦄ where
    unfoldable pub persist : Raft C B → Raft C B
    unfolding save_raft_state
    persist rf = record rf { persister = save_raft_state rf.persister (gob.encode (saved rf)) }

    unfoldable pub persist_state_and_snapshot : Raft C B → List B → Raft C B
    unfolding save_state_and_snapshot
    persist_state_and_snapshot rf snapshot = record rf {
      persister = save_state_and_snapshot rf.persister (gob.encode (saved rf)) snapshot;
    }

    unfoldable pub convert_role_to : Role → Raft C B → Raft C B
    unfolding persist
    convert_role_to leader rf = persist (record rf {
      role = leader;
      next_index =
          fill_others rf.me (pos (length rf.logs + rf.last_included_index)) 0 rf.next_index;
      match_index = fill_others rf.me 0 0 rf.match_index;
    })
    convert_role_to candidate rf = persist (record rf {
      current_term = suc_ℤ rf.current_term;
      voted_for = pos rf.me;
      role = candidate;
    })
    convert_role_to follower rf = persist (record rf { voted_for = voted_null; role = follower })

    -- `if t > rf.currentTerm { rf.currentTerm = t; rf.convertRoleTo(Follower) }`
    unfoldable pub adopt_term : ℤ → Raft C B → Raft C B
    unfolding convert_role_to
    adopt_term t rf =
        if ltb_ℤ rf.current_term t
        then convert_role_to follower (record rf { current_term = t })
        else rf
