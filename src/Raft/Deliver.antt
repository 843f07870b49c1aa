-- ===== src/Raft/Deliver.antt =====
-- What applyLogs sends on the channel (src/raft/raft.go).
use mit_raft.Base.{
  ℕ, zero, suc, ◌+◌, ◌-◌, ◌≤◌, ◌<◌, ◌≡◌, refl, List, [], ◌∷◌, ◌++◌, ok, length, get_elem?-some,
  arith,
}
use mit_raft.Raft.State.{Entries, ApplyMsg, Raft, load, get_last_log_term}
use mit_raft.Raft.Role.{delivery, deliver, apply_logs}

module _ {ℓ} {C B : Type ℓ} where
  -- The entry at log index `i` is `e`.
  abbrev pub Holds : Raft C B → ℕ → Entries C → Type ℓ
  Holds rf i e = load rf i ≡ ok e

  -- `ms` carries the commands of the log from index `i` on, one for each index, without a gap.
  abbrev pub Delivers : Raft C B → ℕ → List (ApplyMsg C B) → Type ℓ
  Delivers rf i [] = Unit
  Delivers rf i (m ∷ ms) =
      ((e : Entries C) × Holds rf i e × (m ≡ delivery rf i e)) × Delivers rf (i + 1) ms

  pub load_returns :
      (rf : Raft C B) (i : ℕ)
      → rf.last_included_index ≤ i
      → i < rf.last_included_index + length rf.logs
      → (e : Entries C) × (load rf i ≡ ok e)
  unfolding load
  load_returns rf i low high =
      let (e, found) = get_elem?-some rf.logs (i - rf.last_included_index) (omega arith) in
      (e, ground arith)

  pub last_log_term_returns :
      (rf : Raft C B) → 0 < length rf.logs → (e : Entries C) × (get_last_log_term rf ≡ ok e.term)
  unfolding get_last_log_term
  last_log_term_returns rf h =
      let (e, found) = get_elem?-some rf.logs (length rf.logs - 1) (omega arith) in
      (e, ground arith)

  pub deliver_returns :
      (n i : ℕ) (rf : Raft C B)
      → rf.last_included_index ≤ i
      → i + n ≤ rf.last_included_index + length rf.logs
      → (ms : List (ApplyMsg C B)) × (deliver n i rf ≡ ok ms) × Delivers rf i ms × (length ms ≡ n)
  unfolding deliver
  deliver_returns zero i rf low high = ([], refl, tt, refl)
  deliver_returns (suc n) i rf low high =
      let (e, found) = load_returns rf i low (omega arith) in
      let (ms, sent, told, size) = deliver_returns n (i + 1) rf (omega arith) (omega arith) in
      (delivery rf i e ∷ ms, rw (found, sent), ((e, found, refl), told), omega (arith, size))

  -- The state after applyLogs, given the messages.
  abbrev pub applied : Raft C B → List (ApplyMsg C B) → Raft C B
  applied rf ms = record rf { apply_ch = rf.apply_ch ++ ms; last_applied = rf.commit_index }

  pub apply_logs_returns :
      (rf : Raft C B)
      → rf.last_included_index ≤ rf.last_applied
      → rf.last_applied ≤ rf.commit_index
      → rf.commit_index < rf.last_included_index + length rf.logs
      → (ms : List (ApplyMsg C B)) × (apply_logs rf ≡ ok (applied rf ms))
        × Delivers rf (rf.last_applied + 1) ms
        × (length ms ≡ rf.commit_index - rf.last_applied)
  unfolding apply_logs
  apply_logs_returns rf low mid high =
      let (e, found) = load_returns rf rf.commit_index (omega arith) high in
      let (ms, sent, told, size) =
        deliver_returns (rf.commit_index - rf.last_applied) (rf.last_applied + 1) rf (omega arith)
          (omega arith) in
      (ms, rw (sent, found), told, size)
