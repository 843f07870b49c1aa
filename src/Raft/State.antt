-- ===== src/Raft/State.antt =====
-- The state of one peer (src/raft/raft.go: types, and the index helpers).
-- Terms, votes and the conflict hints of a reply are integers, since -1 occurs; log indices are
-- natural, and `next_index` an integer, since a hint is written into it.
use mit_raft.Base.{
  ℕ, ◌+◌, ◌-◌, Bool, true, ◌&&◌, ◌||◌, ℤ, List, none, Run, panic, ◌>>=◌, ok, or_panic, length,
  get_elem?, drop, ltb, ◌==◌, ◌==ℤ◌, if◌then◌else◌, minus_one,
}
use mit_raft.Raft.Persister.{Persister}

pub data Role : Type 0 where
  leader candidate follower : Role

-- A client's command, or the -1 that stands at the head of the log.
pub data Command {ℓ} (C : Type ℓ) : Type ℓ where
  placeholder : Command C
  cmd : C → Command C

pub record Entries {ℓ} (C : Type ℓ) : Type ℓ where
  pub term : ℤ
  pub index : ℕ
  pub command : Command C

-- The two kinds of content that an ApplyMsg carries; `command_valid` tells them apart.
pub data Payload {ℓ} (C B : Type ℓ) : Type ℓ where
  command : Command C → Payload C B
  snapshot : List B → Payload C B

pub record ApplyMsg {ℓ} (C B : Type ℓ) : Type ℓ where
  pub command_valid : Bool
  pub payload : Payload C B
  pub command_index : ℕ
  pub commit_term : ℤ
  pub role : Role

-- `peers` is the number of peers. A channel of capacity 1 is whether it is full; `apply_ch` is
-- what has been sent on it, oldest first.
pub record Raft {ℓ} (C B : Type ℓ) : Type ℓ where
  pub peers : ℕ
  pub persister : Persister B
  pub me : ℕ
  pub role : Role
  pub current_term : ℤ
  pub voted_for : ℤ
  pub logs : List (Entries C)
  pub commit_index : ℕ
  pub last_applied : ℕ
  pub next_index : List ℤ
  pub match_index : List ℕ
  pub append_ch : Bool
  pub vote_ch : Bool
  pub exit_ch : Bool
  pub leader_ch : Bool
  pub apply_ch : List (ApplyMsg C B)
  pub last_included_index : ℕ
  pub last_included_term : ℤ

abbrev pub voted_null : ℤ
voted_null = minus_one

abbrev pub role_eq : Role → Role → Bool
role_eq leader leader = true
role_eq candidate candidate = true
role_eq follower follower = true
role_eq _ _ = Bool.false

module _ {ℓ} {C B : Type ℓ} where
  abbrev pub add_idx : Raft C B → ℕ → ℕ
  add_idx rf i = i + rf.last_included_index

  -- Used only on `last_included_index ≤ i`: `load` and `slice_from` panic below it.
  abbrev pub sub_idx : Raft C B → ℕ → ℕ
  sub_idx rf i = i - rf.last_included_index

  -- On an empty log, which the invariant excludes, Go gives `lastIncludedIndex - 1`.
  unfoldable pub get_last_log_index : Raft C B → ℕ
  get_last_log_index rf = add_idx rf (length rf.logs - 1)

  -- `rf.logs[rf.subIdx(i)]`
  unfoldable pub load : Raft C B → ℕ → Run (Entries C)
  load rf i =
      if ltb i rf.last_included_index then panic else or_panic (get_elem? rf.logs (sub_idx rf i))

  -- `rf.logs[rf.subIdx(i):]`
  unfoldable pub slice_from : Raft C B → ℕ → Run (List (Entries C))
  slice_from rf i =
      if ltb i rf.last_included_index || ltb (length rf.logs) (sub_idx rf i)
      then panic
      else ok (drop (sub_idx rf i) rf.logs)

  -- `rf.logs[len(rf.logs)-1].Term`
  unfoldable pub get_last_log_term : Raft C B → Run ℤ
  get_last_log_term rf = do
    e ← or_panic (if length rf.logs == 0 then none else get_elem? rf.logs (length rf.logs - 1))
    ok e.term

  unfoldable pub check_state : Raft C B → Role → ℤ → Bool
  check_state rf role term = role_eq rf.role role && rf.current_term ==ℤ term

  unfoldable pub get_state : Raft C B → ℤ × Bool
  get_state rf = (rf.current_term, role_eq rf.role leader)
