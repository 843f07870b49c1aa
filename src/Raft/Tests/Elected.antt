-- ===== src/Raft/Tests/Elected.antt =====
-- Three peers of src/raft/raft.go, of which one is elected, and the theorem at them.
use mit_raft.Base.{
  arith, suc_ℤ, ℕ, zero, suc, ◌≡◌, refl, true, pos, minus_one, [], ◌∷◌, some, get_elem?, remove,
  below, member, Returns-ok,
}
use mit_raft.Raft.Persister.{make_persister, read_raft_state, save_raft_state}
use mit_raft.Raft.State.{follower, Raft, check_state, get_last_log_term, get_last_log_index}
use mit_raft.Raft.Role.{Saved, persist, convert_role_to, adopt_term}
use mit_raft.Raft.Vote.{RequestVoteArgs, RequestVoteReply, grant_vote, request_vote}
use mit_raft.Raft.Election.{
  Election, election_timeout, leader_election, may_send, count_vote, vote_reply,
}
use mit_raft.Raft.Snapshot.{store}
use mit_raft.Raft.Node.{fresh, read_persist, make, wakes, timed_out, wake, step}
use mit_raft.Raft.Invariant.{Inv}
use mit_raft.Raft.Invariant.Step.{make_empty-Inv}
use mit_raft.Raft.Cluster.{
  Cluster, Running, Initial, acts, elects, sends, answers, counts, Reached, here, next,
}
use mit_raft.Raft.Cluster.Safety.{Reached-leader}
use mit_raft.Raft.Tests.{whole, head}

abbrev started : ℕ → Raft ℕ (Saved ℕ)
started i = record (fresh 3 i make_persister) { logs = head ∷ [] }

started-Inv : (i : ℕ) → Inv (started i)
unfolding make read_persist read_raft_state store make_persister
started-Inv i = Returns-ok (started i) (make_empty-Inv 3 i) refl

abbrev idle : Cluster ℕ (Saved ℕ)
idle = record { nodes = started 0 ∷ started 1 ∷ started 2 ∷ []; elections = []; letters = [] }

idle-Initial : Initial idle
idle-Initial = record { peers = peers; idle = refl; quiet = refl }
  where
    peers :
        (i : ℕ) (rf : Raft ℕ (Saved ℕ))
        → get_elem? idle.nodes i ≡ some rf
        → Inv rf × (rf.me ≡ i) × (rf.peers ≡ 3) × (rf.role ≡ follower)
    peers zero rf h =
        let same : started 0 ≡ rf = cc in rw (← same) (started-Inv 0, refl, refl, refl)
    peers (suc zero) rf h =
        let same : started 1 ≡ rf = cc in rw (← same) (started-Inv 1, refl, refl, refl)
    peers (suc (suc zero)) rf h =
        let same : started 2 ≡ rf = cc in rw (← same) (started-Inv 2, refl, refl, refl)
    peers (suc (suc (suc i))) rf h = absurd cc

abbrev request : RequestVoteArgs
request = record { term = pos 0; candidate_id = 0; last_log_index = 0; last_log_term = minus_one }

abbrev election : Election
election = record { request = request; vote_cnt = 1; vote_flag = true }

abbrev call : Running
call = record { owner = 0; election = election; sent = []; waiting = remove 0 (below 3) }

abbrev reply : RequestVoteReply
reply = record { term = minus_one; vote_granted = true }

abbrev running : Raft ℕ (Saved ℕ)
running = wake timed_out (started 0)

abbrev voter : Raft ℕ (Saved ℕ)
voter = grant_vote request (adopt_term (pos 0) (started 1))

abbrev elected : Cluster ℕ (Saved ℕ)
elected = record {
  nodes = (vote_reply election reply running).1 ∷ voter ∷ started 2 ∷ [];
  elections =
      record call {
        election = (vote_reply election reply running).0;
        sent = 1 ∷ [];
        waiting = remove 1 call.waiting;
      }
      ∷ [];
  letters = record { call = 0; voter = 1; reply = reply } ∷ [];
}

-- The first peer times out, and the second one votes for it.
idle-elected : Reached idle elected
unfolding wake election_timeout convert_role_to persist step leader_election get_last_log_term
    get_last_log_index may_send check_state request_vote adopt_term grant_vote vote_reply count_vote
    remove below member suc_ℤ make_persister save_raft_state
idle-elected =
    next
      (next
        (next
          (next
            (next here (acts 0 {s = started 0} {t = running} (wakes timed_out) tt refl tt tt refl))
            (elects 0 {s = running} {el = election} refl refl))
          (sends 0 1 {r = call} {s = running} refl refl refl refl))
        (answers 0 1 {r = record call { sent = 1 ∷ [] }} {s = started 1} {t = voter} {reply = reply}
          refl refl refl refl))
      (counts 0 {l = record { call = 0; voter = 1; reply = reply }}
        {r = record call { sent = 1 ∷ [] }} {s = running} refl refl refl refl (omega arith))

Reached-leader_example : ◌≡◌ {A = ℕ} 0 0
unfolding vote_reply count_vote wake election_timeout convert_role_to persist check_state suc_ℤ
Reached-leader_example =
    Reached-leader idle elected 0 0 (vote_reply election reply running).1
      (vote_reply election reply running).1 idle-Initial idle-elected refl refl refl refl refl
