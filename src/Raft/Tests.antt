-- ===== src/Raft/Tests.antt =====
-- Concrete peers of src/raft/raft.go, and the theorems at them.
mod Elected
use mit_raft.Base.{
  ℕ, ◌>>=◌, zero, suc, ◌≢◌, ◌+◌, ◌<◌, ◌≡◌, refl, true, false, ℤ, pos, minus_one, List, [], ◌∷◌,
  none, some, ok, Returns, Ensures, get_elem?, arith, ◌<ℤ◌, ◌⊎◌, Option,
}
use mit_raft.Raft.Persister.{Codec, make_persister}
use mit_raft.Raft.State.{
  leader, follower, Command, Entries, Raft, voted_null, load, slice_from, get_last_log_term,
  get_last_log_index,
}
use mit_raft.Raft.Role.{Saved, persist, delivery}
use mit_raft.Raft.Vote.{RequestVoteArgs, request_vote}
use mit_raft.Raft.Append.{
  first_of_term, AppendEntriesArgs, merge, append_current, append_entries, rejection,
}
use mit_raft.Raft.Append.Match.{merge-merge}
use mit_raft.Raft.Election.{Election, vote_reply}
use mit_raft.Raft.Broadcast.{last_of_term, Broadcast, append_reply, back_off, entries_from}
use mit_raft.Raft.Broadcast.Backoff.{back_off-lt}
use mit_raft.Raft.Snapshot.{InstallSnapshotArgs, take_snapshot, install_snapshot}
use mit_raft.Raft.Delivery.{Told}
use mit_raft.Raft.Delivery.Steps.{step-Told}
use mit_raft.Raft.Delivery.Rewind.{Rewound, snapshot_rewinds}
use mit_raft.Raft.Node.{step, appends, votes, restarts}
use mit_raft.Raft.Invariant.{Inv, persist-Inv}
use mit_raft.Raft.Invariant.Step.{step-Inv}
use mit_raft.Raft.Replication.{Outcome, append_entries-Outcome}
use mit_raft.Raft.Ballot.{Later}
use mit_raft.Raft.Ballot.Steps.{Timely, Timely-Later}
use mit_raft.Raft.Recovery.{Recovered, restart-Recovered, snapshot_term_lost}
use mit_raft.Raft.Faults.{votes_twice, term_goes_back, stale_request_granted}

-- A codec whose only byte is the value itself.
abbrev first : List (Saved ℕ) → Option (Saved ℕ)
first [] = none
first (s ∷ l) = some s

nonempty : (s : Saved ℕ) → s ∷ [] ≢ []
nonempty s h = cc

instance abbrev whole : Codec (Saved ℕ) (Saved ℕ)
whole = record {
  encode = λ s. s ∷ [];
  decode = first;
  decode-encode = λ s. refl;
  encode_nonempty = λ s h. nonempty s h;
}

abbrev head : Entries ℕ
head = record { term = minus_one; index = 0; command = Command.placeholder }

abbrev entry : ℤ → ℕ → ℕ → Entries ℕ
entry t i c = record { term = t; index = i; command = Command.cmd c }

-- A follower of term 2 that has voted for nobody, with two entries, one of them committed.
abbrev bare : Raft ℕ (Saved ℕ)
bare = record {
  peers = 3;
  persister = make_persister;
  me = 0;
  role = follower;
  current_term = pos 2;
  voted_for = voted_null;
  logs = head ∷ entry (pos 1) 1 7 ∷ entry (pos 1) 2 8 ∷ [];
  commit_index = 1;
  last_applied = 1;
  next_index = pos 0 ∷ pos 0 ∷ pos 0 ∷ [];
  match_index = 0 ∷ 0 ∷ 0 ∷ [];
  append_ch = false;
  vote_ch = false;
  exit_ch = false;
  leader_ch = false;
  apply_ch = [];
  last_included_index = 0;
  last_included_term = minus_one;
}

abbrev peer : Raft ℕ (Saved ℕ)
peer = persist bare

peer-Inv : Inv peer
peer-Inv = persist-Inv bare (record {
  nonempty = omega arith;
  applied = refl;
  included = omega arith;
  committed = omega arith;
  nexts = refl;
  matches = refl;
})

abbrev request : RequestVoteArgs
request = record { term = pos 2; candidate_id = 1; last_log_index = 2; last_log_term = pos 1 }

abbrev later_request : RequestVoteArgs
later_request = record request { term = pos 3 }

abbrev stale_request : RequestVoteArgs
stale_request = record request { term = pos 1 }

-- The leader of term 2 has replaced the second entry, and has committed it.
abbrev appending : AppendEntriesArgs ℕ
appending = record {
  term = pos 2;
  leader_id = 1;
  prev_log_index = 1;
  prev_log_term = pos 1;
  entries = entry (pos 2) 2 9 ∷ [];
  leader_commit = 2;
}

step-Inv_example : Returns (λ r. Inv r) (step peer (appends appending))
unfolding persist
step-Inv_example = step-Inv peer (appends appending) peer-Inv (λ k e x p q h. absurd (omega arith))

Timely-Later_example : Later peer (
    persist (record (persist (record peer { current_term = pos 3; role = follower })) {
      voted_for = pos 1;
      vote_ch = true;
    }))
unfolding step request_vote persist get_last_log_term get_last_log_index
Timely-Later_example =
    Timely-Later peer-Inv (Timely.next (votes later_request) Timely.here tt tt refl)

apart :
    (k : ℕ) (x e : Entries ℕ)
    → get_elem? peer.logs (2 + k) ≡ some x
    → get_elem? appending.entries k ≡ some e
    → x.term ≡ e.term
    → x ≡ e
unfolding persist
apart zero x e p q t = cc
apart (suc k) x e p q t = cc

append_entries-Outcome_example : Ensures (Outcome appending peer) (append_entries appending peer)
unfolding persist
append_entries-Outcome_example = append_entries-Outcome appending peer (omega arith) apart

restart-Recovered_example : Returns (λ r. Recovered peer r) (step peer restarts)
restart-Recovered_example = restart-Recovered peer peer-Inv

merge-merge_example :
    merge (merge peer.logs 2 appending.entries) 2 appending.entries
    ≡ merge peer.logs 2 appending.entries
unfolding persist
merge-merge_example = merge-merge peer.logs 2 appending.entries (omega arith)

abbrev election : Election
election = record { request = request; vote_cnt = 1; vote_flag = true }

votes_twice_example :
    Returns
      (λ r.
        (r.0.vote_granted ≡ true)
        × (r.1.current_term ≡ peer.current_term)
        × (r.1.voted_for ≡ pos request.candidate_id))
      (request_vote request
        (vote_reply election (record { term = pos 3; vote_granted = false }) peer).1)
unfolding get_last_log_term persist get_last_log_index
votes_twice_example =
    votes_twice election (record { term = pos 3; vote_granted = false }) request peer (pos 1)
      (omega arith) refl refl refl

abbrev broadcast : Broadcast
broadcast = record { cur_term = pos 0; commit_flag = true; commit_num = 1 }

term_goes_back_example :
    Returns
      (λ r.
        (r.1.current_term ≡ pos 1)
        × (r.1.current_term <ℤ peer.current_term)
        × (r.1.voted_for ≡ voted_null)
        × (r.1.role ≡ follower))
      (append_reply broadcast 1 appending (rejection (pos 1) minus_one minus_one) peer)
unfolding persist
term_goes_back_example =
    term_goes_back broadcast 1 appending (rejection (pos 1) minus_one minus_one) peer (omega arith)
      (omega arith)

stale_request_granted_example :
    Returns
      (λ r.
        (r.0.vote_granted ≡ true)
        × (stale_request.term <ℤ r.0.term)
        × (r.1.current_term ≡ peer.current_term)
        × (r.1.voted_for ≡ pos stale_request.candidate_id))
      (request_vote stale_request peer)
unfolding get_last_log_term persist get_last_log_index
stale_request_granted_example =
    stale_request_granted stale_request peer (pos 1) (omega arith) refl refl refl

-- A peer that has committed the second entry too.
abbrev done : Raft ℕ (Saved ℕ)
done = persist (record bare { commit_index = 2; last_applied = 2 })

done-Inv : Inv done
done-Inv =
    persist-Inv (record bare { commit_index = 2; last_applied = 2 })
      (record {
        nonempty = omega arith;
        applied = refl;
        included = omega arith;
        committed = omega arith;
        nexts = refl;
        matches = refl;
      })

snapshot_term_lost_example :
    Returns
      (λ r. (x : Entries ℕ) × (load r 2 ≡ ok x) × (x.term ≡ pos 2))
      (take_snapshot [] 2 (delivery done 2 (entry (pos 1) 2 8)).commit_term done >>= λ s.
        step s restarts)
unfolding load persist
snapshot_term_lost_example =
    snapshot_term_lost done [] 2 (entry (pos 1) 2 8) done-Inv (omega arith) (omega arith) refl

-- A leader whose log has an entry of term 2 where the follower's has none.
abbrev ahead : Raft ℕ (Saved ℕ)
ahead = record bare {
  role = leader;
  logs = head ∷ entry (pos 1) 1 7 ∷ entry (pos 2) 2 9 ∷ entry (pos 2) 3 4 ∷ [];
}

abbrev probing : AppendEntriesArgs ℕ
probing = record {
  term = pos 2;
  leader_id = 0;
  prev_log_index = 2;
  prev_log_term = pos 2;
  entries = entry (pos 2) 3 4 ∷ [];
  leader_commit = 1;
}

back_off-lt_example : (pos 2 <ℤ pos 3) ⊎ ((2 < 0) × (pos 2 ≡ pos 1)) ⊎ (◌≡◌ {A = ℕ} 3 1)
unfolding entries_from append_current back_off load persist get_last_log_index slice_from
    first_of_term last_of_term
back_off-lt_example =
    back_off-lt (record broadcast { cur_term = pos 2 }) 3 ahead peer probing
      (rejection (pos 2) (pos 1) (pos 1), peer) (pos 2) (omega arith) refl refl refl refl

step-Told_example : Returns (λ r. Told peer r) (step peer (appends appending))
unfolding persist
step-Told_example =
    step-Told peer (appends appending) peer-Inv (λ k e x p q h. absurd (omega arith)) tt

-- A snapshot of the first entry, for a peer that has applied two.
abbrev behind : InstallSnapshotArgs (Saved ℕ)
behind = record {
  term = pos 2;
  leader_id = 1;
  last_included_index = 1;
  last_included_term = pos 1;
  snapshot = [];
}

snapshot_rewinds_example : Returns (λ r. Rewound behind done r.1) (install_snapshot behind done)
unfolding persist
snapshot_rewinds_example =
    snapshot_rewinds behind done done-Inv (omega arith) (omega arith) (omega arith)
