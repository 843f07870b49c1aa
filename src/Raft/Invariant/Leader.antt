-- ===== src/Raft/Invariant/Leader.antt =====
-- The invariant over the replies that a leader gets (src/raft/raft.go).
use mit_raft.Base.{
  ℕ, zero, suc, ◌+◌, ◌-◌, ◌/◌, ◌≤◌, ◌<◌, ◌≡◌, refl, ap, ◌||◌, ◌&&◌, not, ℤ, pos, pos_part, ltb_ℤ,
  leb_ℤ, ◌==ℤ◌, minus_one, ltb, List, Option, none, some, ok, Returns, returned, Returns-bind,
  Returns-if, length, set, length-set, get_elem?-some, arith, Bool-cases, inl, inr, ◌==◌,
}
use mit_raft.Raft.Persister.{Codec}
use mit_raft.Raft.State.{leader, follower, Entries, Raft, check_state}
use mit_raft.Raft.Role.{Saved}
use mit_raft.Raft.Append.{AppendEntriesArgs, AppendEntriesReply}
use mit_raft.Raft.Snapshot.{InstallSnapshotArgs, InstallSnapshotReply, store, snapshot_reply}
use mit_raft.Raft.Broadcast.{
  Broadcast, last_of_term, back_off, record_match, count_commit, append_success, append_reply,
}
use mit_raft.Raft.Deliver.{apply_logs_returns}
use mit_raft.Raft.Node.{append_replies}
use mit_raft.Raft.Invariant.{Inv, Genuine, convert_role_to-Inv, adopt_term-Inv}

pub store-Returns {ℓ} :
    {A : Type ℓ} (a : List A) (i : ℕ) (v : A)
    → i < length a
    → Returns (λ b. (b ≡ set a i v) × (length b ≡ length a)) (store a i v)
unfolding store
store-Returns a i v h =
    Returns-if (ltb i (length a)) (λ e. returned (refl, length-set a i v))
      (λ e. absurd (ground arith))

pub last_of_term_returns {ℓ} :
    {C : Type ℓ} (logs : List (Entries C)) (t : ℤ) (k : ℕ)
    → k < length logs
    → (o : Option ℕ) × (last_of_term logs t k ≡ ok o)
unfolding last_of_term
last_of_term_returns logs t zero h = (none, refl)
last_of_term_returns logs t (suc k) h =
    let (e, q) = get_elem?-some logs (suc k) h in
    let (o, found) = last_of_term_returns logs t k (omega arith) in
    elim (Bool-cases (e.term ==ℤ t)) [
      | inl same ↦ (some (suc k), rw (q, same))
      | inr differs ↦ (o, rw (q, differs) found)
    ]

module _ {ℓ} {C B : Type ℓ} where
  back_off-Returns :
      (reply : AppendEntriesReply) (rf : Raft C B)
      → 0 < length rf.logs
      → pos_part reply.conflict_index < rf.last_included_index + length rf.logs
      → Returns (λ _. Unit {0}) (back_off reply rf)
  unfolding back_off
  back_off-Returns reply rf h low =
      Returns-if (reply.conflict_term ==ℤ minus_one) (λ e. returned tt)
        λ e.
          Returns-bind {P = λ _. Unit {0}}
            (Returns-if (leb_ℤ reply.conflict_index (pos rf.last_included_index)) (λ e. returned tt)
              λ e.
                let (o, found) =
                  last_of_term_returns rf.logs reply.conflict_term
                    (pos_part reply.conflict_index - rf.last_included_index) (omega arith) in
                rw found (returned tt))
            λ o u. returned tt

  module _ ⦃gob : Codec (Saved C) B⦄ where
    record_match-Inv :
        (server cur : ℕ) (rf : Raft C B)
        → Inv rf
        → server < rf.peers
        → Returns
            (λ r.
              Inv r
              × (r.commit_index ≡ rf.commit_index)
              × (r.logs ≡ rf.logs)
              × (r.last_included_index ≡ rf.last_included_index))
            (record_match server cur rf)
    unfolding record_match
    record_match-Inv server cur rf i h =
        let (old, found) = get_elem?-some rf.match_index server (omega (arith, i.shape.matches)) in
        rw found (
          Returns-if (ltb cur old) (λ late. returned (i, refl, refl, refl))
            λ new.
              Returns-bind
                (store-Returns rf.match_index server cur (omega (arith, i.shape.matches)))
                λ m sm.
                  Returns-bind
                    (store-Returns rf.next_index server (pos (cur + 1))
                      (omega (arith, i.shape.nexts)))
                    λ n sn. returned (
                      record { shape = ground (arith, i.shape, sm.1, sn.1); durable = i.durable },
                      refl,
                      refl,
                      refl,
                    ))

    count_commit-Inv :
        (bc : Broadcast) (cur : ℕ) (rf : Raft C B)
        → Inv rf
        → rf.commit_index ≤ cur
        → cur < rf.last_included_index + length rf.logs
        → Returns (λ r. Inv r.1) (count_commit bc cur rf)
    unfolding count_commit
    count_commit-Inv bc cur rf i low high =
        Returns-if (bc.commit_flag && ltb (rf.peers / 2) (bc.commit_num + 1))
          (λ most.
            let (ms, sent, told, size) =
              apply_logs_returns (record rf { commit_index = cur }) (ground (arith, i.shape))
                (ground (arith, i.shape)) high in
            rw sent (returned (record { shape = ground (arith, i.shape); durable = i.durable })))
          (λ few. returned i)

    append_success-Inv :
        (bc : Broadcast) (server : ℕ) (args : AppendEntriesArgs C) (rf : Raft C B)
        → Inv rf
        → server < rf.peers
        → args.prev_log_index + length args.entries < rf.last_included_index + length rf.logs
        → Returns (λ r. Inv r.1) (append_success bc server args rf)
    unfolding append_success
    append_success-Inv bc server args rf i h high =
        let cur = args.prev_log_index + length args.entries in
        Returns-if (ltb cur rf.commit_index) (λ old. returned i)
          λ new. Returns-bind (record_match-Inv server cur rf i h) λ r (v, commit, logs, base).
            count_commit-Inv bc cur r v (ground arith) (ground (arith, ap length logs))

    pub append_reply-Inv :
        (bc : Broadcast) (server : ℕ) (args : AppendEntriesArgs C) (reply : AppendEntriesReply)
        (rf : Raft C B)
        → Inv rf
        → Genuine rf (append_replies bc server args reply)
        → Returns (λ r. Inv r.1) (append_reply bc server args reply rf)
    unfolding append_reply
    append_reply-Inv bc server args reply rf i (h, acked, hint, _) =
        Returns-if (ltb_ℤ bc.cur_term reply.term)
          (λ newer. returned (
            convert_role_to-Inv follower (record rf { current_term = reply.term })
              (ground (arith, i.shape))))
          λ current.
            Returns-if (not (check_state rf leader bc.cur_term) || length args.entries == 0)
              (λ stale. returned i)
              λ live.
                Returns-if reply.success
                  (λ yes'. append_success-Inv bc server args rf i h (acked yes'))
                  λ no'. Returns-bind (back_off-Returns reply rf i.shape.nonempty hint) λ b u.
                    Returns-bind
                      (store-Returns rf.next_index server b (omega (arith, i.shape.nexts)))
                      λ n s.
                        returned
                          (record { shape = ground (arith, i.shape, s.1); durable = i.durable })

    pub snapshot_reply-Inv :
        (arg : InstallSnapshotArgs B) (server : ℕ) (reply : InstallSnapshotReply) (rf : Raft C B)
        → Inv rf
        → server < rf.peers
        → Returns Inv (snapshot_reply arg server reply rf)
    unfolding snapshot_reply
    snapshot_reply-Inv arg server reply rf i h =
        Returns-if (ltb_ℤ rf.current_term reply.term)
          (λ newer. returned (adopt_term-Inv reply.term rf i))
          λ current.
            Returns-if (not (check_state rf leader arg.term)) (λ stale. returned i)
              λ live.
                Returns-bind
                  (store-Returns rf.next_index server (pos (arg.last_included_index + 1))
                    (omega (arith, i.shape.nexts)))
                  λ n sn.
                    Returns-bind
                      (store-Returns rf.match_index server arg.last_included_index
                        (omega (arith, i.shape.matches)))
                      λ m sm. returned (record {
                        shape = ground (arith, i.shape, sm.1, sn.1);
                        durable = i.durable;
                      })
