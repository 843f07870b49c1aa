-- ===== src/Raft/Node.antt =====
-- src/raft/raft.go: Make, Start, Kill and the loop of one peer, and `step`, which joins all that
-- a peer does under its lock into one function of an event.
use mit_raft.Base.{
  ℕ, ◌+◌, Bool, true, false, ℤ, pos, minus_one, List, [], ◌∷◌, ◌++◌, Run, ok, ◌>>=◌, length,
  replicate, none, some, ◌==◌, if◌then◌else◌,
}
use mit_raft.Raft.Persister.{Persister, Codec, read_raft_state}
use mit_raft.Raft.State.{leader, follower, Command, Raft, voted_null, role_eq}
use mit_raft.Raft.Role.{Saved, persist}
use mit_raft.Raft.Vote.{RequestVoteArgs, RequestVoteReply, request_vote}
use mit_raft.Raft.Append.{AppendEntriesArgs, AppendEntriesReply, append_entries}
use mit_raft.Raft.Election.{Election, election_timeout, vote_reply}
use mit_raft.Raft.Broadcast.{Broadcast, append_reply}
use mit_raft.Raft.Snapshot.{
  InstallSnapshotArgs, InstallSnapshotReply, take_snapshot, install_snapshot, snapshot_reply, store,
}

-- What wakes the loop of a follower or a candidate; `leading` wakes a candidate only.
pub data Wake : Type 0 where
  appended voted leading timed_out : Wake

pub data Event {ℓ} (C B : Type ℓ) : Type ℓ where
  appends : AppendEntriesArgs C → Event C B
  votes : RequestVoteArgs → Event C B
  installs : InstallSnapshotArgs B → Event C B
  starts : C → Event C B
  wakes : Wake → Event C B
  kills : Event C B
  vote_replies : Election → RequestVoteReply → Event C B
  append_replies : Broadcast → ℕ → AppendEntriesArgs C → AppendEntriesReply → Event C B
  snapshot_replies : InstallSnapshotArgs B → ℕ → InstallSnapshotReply → Event C B
  takes : List B → ℕ → ℤ → Event C B
  restarts : Event C B

module _ {ℓ} {C B : Type ℓ} where
  -- The peer before it reads its persistent state; `entry` is the zero value in `logs[0]`.
  abbrev pub fresh : ℕ → ℕ → Persister B → Raft C B
  fresh peers me ps = record {
    peers = peers;
    persister = ps;
    me = me;
    role = follower;
    current_term = minus_one;
    voted_for = voted_null;
    logs = record { term = pos 0; index = 0; command = Command.placeholder } ∷ [];
    commit_index = 0;
    last_applied = 0;
    next_index = replicate peers (pos 0);
    match_index = replicate peers 0;
    append_ch = false;
    vote_ch = false;
    exit_ch = false;
    leader_ch = false;
    apply_ch = [];
    last_included_index = 0;
    last_included_term = minus_one;
  }

  unfoldable pub kill : Raft C B → Raft C B
  kill rf = record rf { exit_ch = true }

  module _ ⦃gob : Codec (Saved C) B⦄ where
    unfoldable pub read_persist : List B → Raft C B → Raft C B
    read_persist bytes rf = if length bytes == 0 then rf else elim (gob.decode bytes) [
      | none ↦ rf
      | some s ↦ record rf {
        current_term = s.term;
        voted_for = s.voted_for;
        logs = s.logs;
        last_included_index = s.last_included_index;
        last_included_term = s.last_included_term;
        last_applied = s.last_included_index;
        commit_index = s.last_included_index;
      }
    ]

    unfoldable pub make : ℕ → ℕ → Persister B → Run (Raft C B)
    unfolding read_persist read_raft_state
    make peers me ps = do
      let rf : Raft C B = read_persist (read_raft_state ps) (fresh peers me ps)
      logs ← store rf.logs 0 (record {
        term = rf.last_included_term;
        index = rf.last_included_index;
        command = Command.placeholder;
      })
      ok (record rf { logs = logs })

    -- The index and the term for the command, and whether this peer takes it.
    unfoldable pub start : C → Raft C B → (ℤ × ℤ × Bool) × Raft C B
    unfolding persist
    start c rf =
        if role_eq rf.role leader
        then (
          (pos (length rf.logs + rf.last_included_index), rf.current_term, true),
          persist (record rf {
            logs =
                rf.logs
                ++ record {
                  term = rf.current_term;
                  index = length rf.logs + rf.last_included_index;
                  command = Command.cmd c;
                }
                  ∷ [];
          }),
        )
        else ((minus_one, rf.current_term, false), rf)

    unfoldable pub wake : Wake → Raft C B → Raft C B
    unfolding election_timeout
    wake appended rf = record rf { append_ch = false }
    wake voted rf = record rf { vote_ch = false }
    wake leading rf = record rf { leader_ch = false }
    wake timed_out rf = election_timeout rf

    unfoldable pub step : Raft C B → Event C B → Run (Raft C B)
    step rf (appends args) = do (reply, rf') ← append_entries args rf; ok rf'
    step rf (votes args) = do (reply, rf') ← request_vote args rf; ok rf'
    step rf (installs args) = do (reply, rf') ← install_snapshot args rf; ok rf'
    step rf (starts c) = ok (start c rf).1
    step rf (wakes w) = ok (wake w rf)
    step rf kills = ok (kill rf)
    step rf (vote_replies el reply) = ok (vote_reply el reply rf).1
    step rf (append_replies bc server args reply) = do
      (bc', rf', again) ← append_reply bc server args reply rf
      ok rf'
    step rf (snapshot_replies arg server reply) = snapshot_reply arg server reply rf
    step rf (takes raw applied_id term) = take_snapshot raw applied_id term rf
    step rf restarts = make rf.peers rf.me rf.persister

    -- A run of events, in the order in which the peer takes its lock for them.
    unfoldable pub run : Raft C B → List (Event C B) → Run (Raft C B)
    run rf [] = ok rf
    run rf (e ∷ es) = do rf' ← step rf e; run rf' es
