-- ===== src/ShardMaster/History/Queries.antt =====
-- What a Query is answered, over the commands of src/shardmaster/server.go.
use mit_raft.Base.{
  ℕ, ◌-◌, ◌<◌, ◌≡◌, refl, ◌∙◌, false, pos, minus_one, List, [], ◌∷◌, ◌||◌, some, length, get_elem?,
  get_elem?-lt, get_elem?-some, Run, ok, ◌>>=◌, Ensures, value, Ensures-ok, Ensures-mono,
  Ensures-bind, arith, nat_key, ltb_ℤ, ◌==ℤ◌,
}
use mit_raft.ShardMaster.State.{
  Config, Op, Operation, join, leave, move, query, ShardMaster, get_last_cfg, add_config,
}
use mit_raft.ShardMaster.Server.{
  apply_join, apply_leave, apply_move, apply_operation, apply_op, query_config,
}
use mit_raft.ShardMaster.History.{
  Numbered, Kept, Extends, last_found, apply_join-Kept, apply_leave-Kept, apply_move-Kept, Grown,
  add_config-Grown, Grown-Numbered, Grown-Extends,
}

-- What a command leaves: the earlier configurations, and at most one more.
abbrev pub Continues : List Config → List Config → Type 0
Continues l k = Numbered k × Extends l k

grow :
    (f : ShardMaster → Run ShardMaster) (sm : ShardMaster)
    → ((s : ShardMaster) → Ensures (λ t. Kept s.configs t.configs) (f s))
    → Numbered sm.configs
    → Ensures (λ s. Continues sm.configs s.configs) (add_config sm >>= f)
grow f sm kept n = Ensures-bind (add_config-Grown sm n) λ s (new, num, grown).
    Ensures-mono
      (λ t k.
        let g : Grown sm.configs t.configs = (new, num, rw (← grown) k) in
        (Grown-Numbered sm.configs t.configs n g, Grown-Extends sm.configs t.configs g))
      (kept s)

apply_operation-Continues :
    (o : Operation) (op : Op) (sm : ShardMaster)
    → Numbered sm.configs
    → Ensures (λ s. Continues sm.configs s.configs) (apply_operation o op sm)
unfolding apply_operation
apply_operation-Continues join op sm n = grow (apply_join op) sm (apply_join-Kept op) n
apply_operation-Continues leave op sm n = grow (apply_leave op) sm (apply_leave-Kept op) n
apply_operation-Continues move op sm n = grow (apply_move op) sm (apply_move-Kept op) n
apply_operation-Continues query op sm n = value (n, (omega arith, λ i h. refl))

-- A command on a state whose configurations are numbered by their positions leaves, if it does not
-- panic, a state in which they still are, and in which all earlier configurations are unchanged.
pub apply_op-Continues :
    (op : Op) (sm : ShardMaster)
    → Numbered sm.configs
    → Ensures (λ s. Continues sm.configs s.configs) (apply_op op sm)
unfolding apply_op
apply_op-Continues op sm n = apply_operation-Continues op.operation op sm n

-- The commands of a log, in their order.
unfoldable pub apply_ops : List Op → ShardMaster → Run ShardMaster
apply_ops [] sm = ok sm
apply_ops (op ∷ ops) sm = apply_op op sm >>= apply_ops ops

apply_ops-Continues :
    (ops : List Op) (sm : ShardMaster)
    → Numbered sm.configs
    → Ensures (λ s. Continues sm.configs s.configs) (apply_ops ops sm)
unfolding apply_ops
apply_ops-Continues [] sm n = value (n, (omega arith, λ i h. refl))
apply_ops-Continues (op ∷ ops) sm n =
    Ensures-bind (apply_op-Continues op sm n) λ s (m, (size, same)).
      Ensures-mono
        (λ t (o, (size', same')).
          (o, (omega arith, λ i h. same' i (omega (arith, size)) ∙ same i h)))
        (apply_ops-Continues ops s m)

query_known :
    (sm : ShardMaster) (i : ℕ) (c : Config)
    → Numbered sm.configs
    → get_elem? sm.configs i ≡ some c
    → query_config (pos i) sm ≡ ok c
unfolding query_config get_last_cfg
query_known sm i c n h =
    let (cfg, found, at_cfg) = last_found sm.configs n.nonempty in
    let num = n.nums (length sm.configs - 1) cfg at_cfg in
    let old : (pos i ==ℤ minus_one || ltb_ℤ (pos cfg.num) (pos i)) ≡ false =
      ground (arith, get_elem?-lt sm.configs i h, num) in
    let below : ltb_ℤ (pos i) (pos 0) ≡ false = ground arith in rw (found, old, below, h)

-- In a state whose configurations are numbered by their positions, a Query of the number of an
-- existing configuration is answered with a configuration of that number, and with the same one
-- after any further commands that run without a panic.
pub query_config-apply_ops :
    (ops : List Op) (i : ℕ) (sm s : ShardMaster)
    → Numbered sm.configs
    → i < length sm.configs
    → apply_ops ops sm ≡ ok s
    → (c : Config) × (c.num ≡ i)
      × (query_config (pos i) sm ≡ ok c)
      × (query_config (pos i) s ≡ ok c)
query_config-apply_ops ops i sm s n low ran =
    let (m, (size, same)) = Ensures-ok s (apply_ops-Continues ops sm n) ran in
    let (c, found) = get_elem?-some sm.configs i low in
    (c, n.nums i c found, query_known sm i c n found, query_known s i c m (same i low ∙ found))
