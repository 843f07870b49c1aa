-- ===== src/Raft/Delivery.antt =====
-- What a peer sends on its apply channel (src/raft/raft.go: applyLogs, InstallSnapshot).
pub mod Steps
pub mod Rewind
use mathlib.Core.List.{append-nil}
use mit_raft.Base.{
  ℕ, subst, zero, suc, ◌+◌, ◌-◌, ◌/◌, ◌≤◌, ◌<◌, get_elem?, or_panic, ◌≡◌, refl, sym, ap, ◌∙◌, ◌⊎◌,
  inl, inr, ◌||◌, ◌&&◌, not, ℤ, pos, minus_one, List, [], ◌∷◌, ◌++◌, true, false, ltb_ℤ, ◌==ℤ◌, ltb,
  leb, ◌==◌, Run, ok, ◌>>=◌, Ensures, value, min, max, Ensures-mono, Ensures-bind, Ensures-after,
  Ensures-after_eq, Ensures-if, Returns, returned, Returns-value, Returns-of, Ensures-ok,
  Returns-bind, Returns-if, ◌≤ℤ◌, length, arith, if◌then◌else◌,
}
use mit_raft.Raft.Persister.{Codec}
use mit_raft.Raft.State.{
  leader, Entries, Payload, ApplyMsg, Raft, add_idx, sub_idx, slice_from, check_state, load,
  get_last_log_index, get_last_log_term,
}
use mit_raft.Raft.Role.{
  Saved, persist, adopt_term, deliver, apply_logs, convert_role_to, persist_state_and_snapshot,
}
use mit_raft.Raft.Vote.{RequestVoteArgs, RequestVoteReply, request_vote, grant_vote}
use mit_raft.Raft.Append.{
  AppendEntriesArgs, AppendEntriesReply, advance_commit, first_of_term, merge, accept,
  append_current, append_entries,
}
use mit_raft.Raft.Election.{Election, count_vote, vote_reply}
use mit_raft.Raft.Broadcast.{
  Broadcast, back_off, record_match, count_commit, append_success, append_reply,
}
use mit_raft.Raft.Snapshot.{
  InstallSnapshotArgs, InstallSnapshotReply, snapshot_logs, take_snapshot, install,
  install_snapshot, snapshot_reply, store,
}
use mit_raft.Raft.Node.{
  Wake, appended, voted, leading, timed_out, Event, appends, votes, installs, starts, wakes, kills,
  vote_replies, append_replies, snapshot_replies, takes, restarts, kill, start, wake, step,
}
use mit_raft.Raft.Invariant.{
  Inv, Genuine, Consistent, adopt_term_shape, adopt_term_lem, adopt_term-Inv, heard, load-heard,
}
use mit_raft.Raft.Invariant.Step.{step-Inv}
use mit_raft.Raft.Invariant.Snapshots.{install_snapshot-Inv}
use mit_raft.Raft.Invariant.Append.{after_merge, after_merge-Inv}

module _ {ℓ} {C B : Type ℓ} where
  -- The message is the command of the entry at the index after `a` in the log of `r`, with the
  -- term of `r`.
  pub record IsNext (r : Raft C B) (a : ℕ) (m : ApplyMsg C B) : Type ℓ where
    pub valid : m.command_valid ≡ true
    pub at : m.command_index ≡ a + 1
    pub entry : Entries C
    pub found : load r (a + 1) ≡ ok entry
    pub content : m.payload ≡ Payload.command entry.command
    pub term : m.commit_term ≡ r.current_term

  -- The message is the snapshot that `r` has stored, of its index, which is not before `a`.
  pub record IsStored (r : Raft C B) (a : ℕ) (m : ApplyMsg C B) : Type ℓ where
    pub valid : m.command_valid ≡ false
    pub ahead : a ≤ m.command_index
    pub at : m.command_index ≡ r.last_included_index
    pub content : m.payload ≡ Payload.snapshot r.persister.snapshot

  -- From a state machine that has applied everything up to `a`, the messages lead to `b`.
  abbrev pub Advances : Raft C B → ℕ → List (ApplyMsg C B) → ℕ → Type ℓ
  Advances r a [] b = (a ≡ b) × Unit
  Advances r a (m ∷ ms) b = (IsNext r a m ⊎ IsStored r a m) × Advances r m.command_index ms b

  -- What `r` has sent after `rf` leads from what `rf` had applied to what `r` has applied.
  abbrev pub Told : Raft C B → Raft C B → Type ℓ
  Told rf r =
      (ms : List (ApplyMsg C B)) × (r.apply_ch ≡ rf.apply_ch ++ ms)
      × Advances r rf.last_applied ms r.last_applied

  -- A snapshot that comes is not behind what has been applied, and the channel is not a new one.
  abbrev pub Forward : Raft C B → Event C B → Type 0
  Forward rf (installs args) = (rf.last_applied ≤ args.last_included_index) × Unit
  Forward rf restarts = ⊥
  Forward rf _ = Unit

  abbrev Quiet : Raft C B → Raft C B → Type ℓ
  Quiet rf r = (r.apply_ch ≡ rf.apply_ch) × (r.last_applied ≡ rf.last_applied)

  quiet : (rf r : Raft C B) → Quiet rf r → Told rf r
  quiet rf r (ch, done) = ([], ch ∙ sym (append-nil rf.apply_ch), (sym done, tt))

  silent : (rf : Raft C B) → Told rf rf
  silent rf = quiet rf rf (refl, refl)

  Quiet-before : (rf s r : Raft C B) → Quiet rf s → Told s r → Told rf r
  Quiet-before rf s r (ch, done) (ms, sent, steps) =
      (ms, sent ∙ ap (λ l. l ++ ms) ch, subst (λ a. Advances r a ms r.last_applied) done steps)

  -- The entries and the term are the same.
  abbrev SameLog : Raft C B → Raft C B → Type ℓ
  SameLog rf r = ((j : ℕ) → load r j ≡ load rf j) × (r.current_term ≡ rf.current_term)

  deliver-Advances :
      (n i : ℕ) (rf : Raft C B)
      → Ensures
          (λ ms. (r : Raft C B) → SameLog rf r → Advances r i ms (i + n))
          (deliver n (i + 1) rf)
  unfolding deliver
  deliver-Advances zero i rf = value (λ r (log, same). (omega arith, tt))
  deliver-Advances (suc n) i rf = Ensures-after_eq (load rf (i + 1)) λ e found.
      Ensures-bind (deliver-Advances n (i + 1) rf) λ ms steps. value (λ r (log, same). (
        inl (record {
          valid = refl;
          at = refl;
          entry = e;
          found = log (i + 1) ∙ found;
          content = refl;
          term = sym same;
        }),
        subst (λ b. Advances r (i + 1) ms b) (let sum : i + 1 + n ≡ i + suc n = omega arith in sum)
            (steps r (log, same)),
      ))

  apply_logs-Told :
      (rf : Raft C B) → rf.last_applied ≤ rf.commit_index → Ensures (Told rf) (apply_logs rf)
  unfolding apply_logs load
  apply_logs-Told rf low =
      let after : List (ApplyMsg C B) → Raft C B =
        λ ms. record rf { apply_ch = rf.apply_ch ++ ms; last_applied = rf.commit_index } in
      Ensures-bind (deliver-Advances (rf.commit_index - rf.last_applied) rf.last_applied rf)
        λ ms steps. Ensures-after (load rf rf.commit_index) λ e. value (
          ms,
          refl,
          subst (λ b. Advances (after ms) rf.last_applied ms b)
              (let same : rf.last_applied + (rf.commit_index - rf.last_applied) ≡ rf.commit_index =
                  omega arith in
                same)
              (steps (after ms) ((λ j. refl), refl)),
        )

  advance_commit-Told :
      (n : ℕ) (rf : Raft C B)
      → rf.last_applied ≤ rf.commit_index
      → rf.commit_index < rf.last_included_index + length rf.logs
      → Ensures (Told rf) (advance_commit n rf)
  unfolding advance_commit
  advance_commit-Told n rf low high =
      Ensures-if (ltb rf.commit_index n)
        (λ up.
          apply_logs-Told (record rf { commit_index = min n (add_idx rf (length rf.logs - 1)) })
            (ground arith))
        (λ down. value (silent rf))

  append_success-Told :
      (bc : Broadcast) (server : ℕ) (args : AppendEntriesArgs C) (rf : Raft C B)
      → rf.last_applied ≤ rf.commit_index
      → Ensures (λ r. Told rf r.1) (append_success bc server args rf)
  unfolding append_success record_match count_commit
  append_success-Told bc server args rf low =
      let cur = args.prev_log_index + length args.entries in
      Ensures-if (ltb cur rf.commit_index) (λ old. value (silent rf))
        λ new.
          Ensures-bind {P = Quiet rf}
            (Ensures-after (or_panic (get_elem? rf.match_index server)) λ old.
              Ensures-if (ltb cur old) (λ late. value (refl, refl))
                (λ more. Ensures-after (store rf.match_index server cur) λ m.
                  Ensures-after (store rf.next_index server (pos (cur + 1)))
                    λ n. value (refl, refl)))
            λ r s.
              Ensures-if (bc.commit_flag && ltb (r.peers / 2) (bc.commit_num + 1))
                (λ most.
                  Ensures-bind
                    (apply_logs-Told (record r { commit_index = cur }) (ground (arith, s.1)))
                    λ r' t. value (Quiet-before rf r r' s t))
                (λ few. value (quiet rf r s))
