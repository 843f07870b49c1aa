-- ===== src/ShardMaster/History/Twice.antt =====
-- src/shardmaster/server.go: run on a command that the log has twice.
use mit_raft.Base.{
  ℕ, ◌+◌, ◌≡◌, refl, ap, ◌∙◌, Bool, false, List, Option, none, some, length, length-append,
  get_elem?, ◌==◌, Run, ok, ◌>>=◌, or_panic, Ensures, value, Ensures-mono, Ensures-and,
  Ensures-bind, Ensures-after, Ensures-if, arith, nat_key, [], ◌∷◌, ◌++◌,
}
use mit_raft.Raft.Snapshot.{store}
use mit_raft.ShardMaster.State.{
  Config, Op, Operation, join, leave, move, query, ShardMaster, executed, get_last_cfg,
  set_last_cfg, add_config,
}
use mit_raft.ShardMaster.Assign.{navie_assign, assign_work}
use mit_raft.ShardMaster.Server.{
  join_groups, leave_groups, reassign, apply_join, apply_leave, apply_move, apply_operation,
  apply_op, run_op,
}
use mit_raft.ShardMaster.History.{
  Numbered, Kept, apply_join-Kept, apply_leave-Kept, apply_move-Kept, Grown, add_config-Grown,
  Grown-Numbered,
}

-- Every command but a query makes a configuration.
abbrev pub IsChange : Operation → Type 0
IsChange join = Unit
IsChange leave = Unit
IsChange move = Unit
IsChange query = ⊥

SameLog : ShardMaster → ShardMaster → Type 0
SameLog sm s = s.clerk_log ≡ sm.clerk_log

navie_assign-log : (sm : ShardMaster) → Ensures (SameLog sm) (navie_assign sm)
unfolding navie_assign set_last_cfg SameLog
navie_assign-log sm =
    Ensures-if (length sm.g2shard == 0) (λ e. value refl)
      λ e. Ensures-after (get_last_cfg sm) λ config. Ensures-after (assign_work _ _) λ w. value refl

reassign-log :
    (r : Bool × Config × List (ℕ × List ℕ)) (sm : ShardMaster)
    → Ensures (SameLog sm) (reassign r sm)
unfolding reassign set_last_cfg SameLog
reassign-log (need, cfg, m) sm =
    Ensures-if need (λ e. navie_assign-log (set_last_cfg cfg (record sm { g2shard = m })))
      (λ e. value refl)

apply_join-log : (op : Op) (sm : ShardMaster) → Ensures (SameLog sm) (apply_join op sm)
unfolding apply_join
apply_join-log op sm =
    Ensures-after (get_last_cfg sm)
      λ cfg. reassign-log (join_groups op.servers (false, cfg, sm.g2shard)) sm

apply_leave-log : (op : Op) (sm : ShardMaster) → Ensures (SameLog sm) (apply_leave op sm)
unfolding apply_leave
apply_leave-log op sm =
    Ensures-after (get_last_cfg sm)
      λ cfg. Ensures-after (leave_groups op.gids (false, cfg, sm.g2shard)) λ r. reassign-log r sm

apply_move-log : (op : Op) (sm : ShardMaster) → Ensures (SameLog sm) (apply_move op sm)
unfolding apply_move set_last_cfg SameLog
apply_move-log op sm = Ensures-after (get_last_cfg sm) λ cfg.
    Ensures-after (or_panic (get_elem? cfg.shards op.shard)) λ old.
      Ensures-after (or_panic (get_elem? op.gids 0))
        λ gid. Ensures-after (store cfg.shards op.shard gid) λ shards. value refl

-- A configuration more, and clerkLog as it was.
abbrev pub OneMore : ShardMaster → ShardMaster → Type 0
OneMore sm s =
    Numbered s.configs × (length s.configs ≡ length sm.configs + 1) × (s.clerk_log ≡ sm.clerk_log)

add_config-log : (sm : ShardMaster) → Ensures (SameLog sm) (add_config sm)
unfolding add_config SameLog
add_config-log sm = Ensures-after (get_last_cfg sm) λ old. value refl

change :
    (f : ShardMaster → Run ShardMaster) (sm : ShardMaster)
    → ((s : ShardMaster) → Ensures (λ t. Kept s.configs t.configs) (f s))
    → ((s : ShardMaster) → Ensures (SameLog s) (f s))
    → Numbered sm.configs
    → Ensures (OneMore sm) (add_config sm >>= f)
unfolding SameLog
change f sm kept logs n =
    Ensures-bind (Ensures-and (add_config-Grown sm n) (add_config-log sm))
      λ s ((new, num, grown), log).
        Ensures-mono
          (λ t (k, l).
            let g : Grown sm.configs t.configs = (new, num, rw (← grown) k) in
            let size : length (sm.configs ++ new ∷ []) ≡ length sm.configs + 1 =
              length-append sm.configs (new ∷ []) in
            (Grown-Numbered sm.configs t.configs n g, k.size ∙ ap length grown ∙ size, l ∙ log))
          (Ensures-and (kept s) (logs s))

apply_operation-OneMore :
    (o : Operation) (op : Op) (sm : ShardMaster)
    → IsChange o
    → Numbered sm.configs
    → Ensures (OneMore sm) (apply_operation o op sm)
unfolding apply_operation
apply_operation-OneMore join op sm c n =
    change (apply_join op) sm (apply_join-Kept op) (apply_join-log op) n
apply_operation-OneMore leave op sm c n =
    change (apply_leave op) sm (apply_leave-Kept op) (apply_leave-log op) n
apply_operation-OneMore move op sm c n =
    change (apply_move op) sm (apply_move-Kept op) (apply_move-log op) n
apply_operation-OneMore query op sm c n = absurd c

-- The next round of run, if the one before has not kept the lock.
abbrev pub run_again : Op → Option ShardMaster → Run (Option ShardMaster)
run_again op none = ok none
run_again op (some s) = run_op op s

-- What has not kept the lock, with so many configurations more than before.
abbrev pub Longer : ℕ → ShardMaster → Option ShardMaster → Type 0
Longer n sm none = ⊥
Longer n sm (some s) =
    Numbered s.configs × (length s.configs ≡ length sm.configs + n) × (s.clerk_log ≡ sm.clerk_log)

apply_op-OneMore :
    (op : Op) (sm : ShardMaster)
    → IsChange op.operation
    → Numbered sm.configs
    → Ensures (OneMore sm) (apply_op op sm)
unfolding apply_op
apply_op-OneMore op sm c n = apply_operation-OneMore op.operation op sm c n

run_op-Longer :
    (op : Op) (sm : ShardMaster)
    → IsChange op.operation
    → Numbered sm.configs
    → executed op.clerk op.cmd_index sm ≡ false
    → Ensures (Longer 1 sm) (run_op op sm)
unfolding run_op
run_op-Longer op sm c n new =
    rw new (Ensures-bind (apply_op-OneMore op sm c n) λ s more. value more)

executed-log :
    (clerk index : ℕ) (sm s : ShardMaster)
    → s.clerk_log ≡ sm.clerk_log
    → executed clerk index s ≡ executed clerk index sm
unfolding executed
executed-log clerk index sm s e = rw e

one_more :
    (s sm : ShardMaster) (o : Option ShardMaster)
    → length s.configs ≡ length sm.configs + 1
    → s.clerk_log ≡ sm.clerk_log
    → Longer 1 s o
    → Longer 2 sm o
one_more s sm none size log h = h
one_more s sm (some t) size log (k, size', log') = (k, omega (arith, size, size'), log' ∙ log)

run_again-Longer :
    (op : Op) (sm : ShardMaster) (o : Option ShardMaster)
    → IsChange op.operation
    → executed op.clerk op.cmd_index sm ≡ false
    → Longer 1 sm o
    → Ensures (Longer 2 sm) (run_again op o)
run_again-Longer op sm none c new h = absurd h
run_again-Longer op sm (some s) c new (m, size, log) =
    Ensures-mono (λ o. one_more s sm o size log)
      (run_op-Longer op s c m (executed-log op.clerk op.cmd_index sm s log ∙ new))

-- When run gets a join, leave or move twice in a row that clerkLog does not hold at first, in a
-- state whose configurations are numbered by their positions, then it does not keep the lock, and
-- the command makes a configuration each time, with clerkLog as it was, if nothing panics.
pub run_op-run_again :
    (op : Op) (sm : ShardMaster)
    → IsChange op.operation
    → Numbered sm.configs
    → executed op.clerk op.cmd_index sm ≡ false
    → Ensures (Longer 2 sm) (run_op op sm >>= run_again op)
run_op-run_again op sm c n new =
    Ensures-bind (run_op-Longer op sm c n new) λ o h. run_again-Longer op sm o c new h
