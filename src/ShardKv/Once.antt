-- ===== src/ShardKv/Once.antt =====
-- src/shardkv/server.go: a request that is in the log more than once.
pub mod Again
use Prim.Native.String.{String}
use mit_raft.Base.{
  ℕ, ◌≡◌, refl, sym, ap, ◌∙◌, Bool, true, false, not, ◌&&◌, ◌||◌, ℤ, leb_ℤ, List, [], ◌∷◌, Option,
  none, some, ltb, ◌==◌, if◌then◌else◌, inl, inr, find, insert, delete, present, present-none,
  ltb→lt, ◌==ℤ◌, ==ℤ→eq, ==ℤ_refl, Returns-ok, Ensures-ok, Key, nat_key, int_key, find-insert_if,
  find-delete_if, Run, ok, ◌>>=◌, Returns, returned, Returns-bind, Returns-and, Returns-mono,
  Ensures, value, panics, Ensures-if, Ensures-bind, Ensures-after, Bool-cases, Option-cases,
  ==_refl, ==→eq, arith,
}
use mit_raft.ShardKv.State.{
  Kind, request, new_config, new_shard, new_send, new_leader, Op, ShardKv, or_nil, inner, logged,
  have_shard, shard_in_db, executed,
}
use mit_raft.ShardKv.Apply.{
  copy_map, put_inner, write, init_all, parse_cfg, apply_send, initialize, apply_config,
  apply_shard, execute, apply_request, apply_kind, apply_op, apply_ops,
}
use mit_raft.ShardKv.Invariant.{Inv}
use mit_raft.ShardKv.Invariant.Steps.{apply_op-Inv}

-- The log of the shard says that the command is executed.
abbrev pub Known : Op → List (ℕ × List (ℤ × ℤ)) → Type 0
Known q m = logged q.clerk q.cmd_index (inner q.shard m) ≡ true

logged-insert :
    (clerk index c i : ℤ) (l : List (ℤ × ℤ))
    → logged c i l ≡ false
    → logged clerk index l ≡ true
    → logged clerk index (insert c i l) ≡ true
unfolding logged
logged-insert clerk index c i l new done = elim (Bool-cases (c ==ℤ clerk)) [
  | inr e ↦
      rw (logged, find-insert_if c clerk i l, e) (let t : logged clerk index l ≡ true = done in t)
  | inl e ↦
      let eq : c ≡ clerk = ==ℤ→eq c clerk e in
      rw (logged, find-insert_if c clerk i l, e)
        (elim (Option-cases (find clerk l)) [
          | inl f ↦ let bad : false ≡ true = rw (logged, f) at done in absurd cc
          | inr (old, f) ↦
              let low : leb_ℤ index old ≡ true = rw (logged, f) at done in
              let g : find c l ≡ some old = rw eq f in
              let high : leb_ℤ i old ≡ false = rw (logged, g) at new in ground arith
        ])
]

logged_again : (c i : ℤ) (l : List (ℤ × ℤ)) → logged c i (insert c i l) ≡ true
unfolding logged
logged_again c i l = rw (logged, find-insert_if c c i l, ==ℤ_refl c) (ground arith)

logged_nil : (c i : ℤ) → logged c i [] ≡ false
unfolding logged find
logged_nil c i = refl

Known-insert :
    (q : Op) (s : ℕ) (l : List (ℤ × ℤ)) (m : List (ℕ × List (ℤ × ℤ)))
    → Known q m
    → ((s == q.shard) ≡ true → logged q.clerk q.cmd_index l ≡ true)
    → Known q (insert s l m)
Known-insert q s l m known at_shard =
    let step : inner q.shard (insert s l m)
        ≡ or_nil (if s == q.shard then some l else find q.shard m) =
      ap or_nil (find-insert_if s q.shard l m) in
    ap (logged q.clerk q.cmd_index) step
    ∙ (elim (Bool-cases (s == q.shard)) [ inl e ↦ rw e (at_shard e) | inr e ↦ rw e known ])

Known-delete :
    (q : Op) (s : ℕ) (m : List (ℕ × List (ℤ × ℤ)))
    → Known q m
    → (s == q.shard) ≡ false
    → Known q (delete s m)
Known-delete q s m known other =
    let step : inner q.shard (delete s m) ≡ or_nil (if s == q.shard then none else find q.shard m) =
      ap or_nil (find-delete_if s q.shard m) in
    ap (logged q.clerk q.cmd_index) step ∙ (rw other known)

present_nil : (s : ℕ) → present {V = List (String × String)} s [] ≡ false
unfolding present find
present_nil s = refl

put_inner-log :
    (s : ℕ) (k v : ℤ) (m : List (ℕ × List (ℤ × ℤ)))
    → Ensures (λ m'. m' ≡ insert s (insert k v (inner s m)) m) (put_inner s k v m)
unfolding put_inner
put_inner-log s k v m = elim (Option-cases (find s m)) [
  | inl e ↦ rw (put_inner, e) panics
  | inr (l, e) ↦ rw (put_inner, e) (value refl)
]

absent-Known {ℓ} :
    {A : Type ℓ} (q : Op) (m : List (ℕ × List (ℤ × ℤ))) → present q.shard m ≡ false → Known q m → A
absent-Known q m out known =
    let gone : inner q.shard m ≡ [] = ap or_nil (present-none q.shard m out) in
    let no_log : logged q.clerk q.cmd_index (inner q.shard m) ≡ false =
      ap (logged q.clerk q.cmd_index) gone ∙ logged_nil q.clerk q.cmd_index in
    absurd cc

-- No newSend of the shard.
unfoldable pub KeepsShard : ℕ → Kind → Op → Type 0
KeepsShard s new_send op = (op.shard == s) ≡ false
KeepsShard s new_config op = Unit
KeepsShard s request op = Unit
KeepsShard s new_shard op = Unit
KeepsShard s new_leader op = Unit

unfoldable pub AllKeep : ℕ → List Op → Type 0
unfolding KeepsShard
AllKeep s [] = Unit
AllKeep s (op ∷ ops) = KeepsShard s op.kind op × AllKeep s ops

module _ {B : Type 0} where
  module _ (q op : Op) (kv : ShardKv B) (inv : Inv kv) (known : Known q kv.clerk_log) where
    pub send-Known : (op.shard == q.shard) ≡ false → Known q (apply_send op kv).1.clerk_log
    unfolding apply_send
    send-Known other = elim (Bool-cases (not (have_shard op.shard kv) && shard_in_db op.shard kv)) [
      | inr e ↦ rw e known
      | inl e ↦ rw e (Known-delete q op.shard kv.clerk_log known other)
    ]

    pub shard-Known : Known q (apply_shard op kv).1.clerk_log
    unfolding apply_shard shard_in_db
    shard-Known = elim (Bool-cases (have_shard op.shard kv)) [
      | inr e ↦ rw e known
      | inl e ↦ elim (Bool-cases (present op.shard kv.kv_db)) [
        | inl there ↦ rw (e, there) known
        | inr new ↦
            rw (e, new)
              (Known-insert q op.shard (copy_map op.new_shards.clerk_log []) kv.clerk_log known
                λ same.
                  let eq : op.shard ≡ q.shard = ==→eq op.shard q.shard same in
                  let out : present q.shard kv.clerk_log ≡ false =
                    sym (inv.logs q.shard) ∙ (rw (← eq) new) in
                  absent-Known q kv.clerk_log out known)
      ]
    ]

    not_first {ℓ} : {A : Type ℓ} → kv.cfg.num ≡ 0 → A
    not_first z =
        let out : present q.shard kv.clerk_log ≡ false =
          sym (inv.logs q.shard) ∙ (rw ((inv.fresh z).1) (present_nil q.shard)) in
        absent-Known q kv.clerk_log out known

    pub config-Known : Known q (apply_config op kv).1.clerk_log
    unfolding apply_config parse_cfg initialize
    config-Known = elim (Bool-cases (ltb kv.cfg.num op.new_config.num)) [
      | inr e ↦ rw e known
      | inl newer ↦ elim (Bool-cases (op.new_config.num == 1)) [
        | inr e ↦ rw (newer, e) known
        | inl e ↦
            not_first (
              omega (arith, ltb→lt kv.cfg.num op.new_config.num newer, ==→eq op.new_config.num 1 e))
      ]
    ]

    execute-Known : executed op kv ≡ false → Ensures (λ kv'. Known q kv'.clerk_log) (execute op kv)
    unfolding execute executed
    execute-Known new =
        Ensures-bind (put_inner-log op.shard op.clerk op.cmd_index kv.clerk_log) λ log same.
          Ensures-after (write op.operation op kv.kv_db) λ db. value (
            rw same (
              Known-insert q op.shard (insert op.clerk op.cmd_index (inner op.shard kv.clerk_log))
                kv.clerk_log known
                λ at_shard.
                  (let eq : op.shard ≡ q.shard = ==→eq op.shard q.shard at_shard in
                    let there : logged q.clerk q.cmd_index (inner op.shard kv.clerk_log) ≡ true =
                      rw eq known in
                    logged-insert q.clerk q.cmd_index op.clerk op.cmd_index
                      (inner op.shard kv.clerk_log) new there)))

    pub request-Known : Ensures (λ r. Known q r.1.clerk_log) (apply_request op kv)
    unfolding apply_request executed
    request-Known =
        Ensures-if (executed op kv) (λ e. value known)
          λ new.
            Ensures-if (not (have_shard op.shard kv) || not (shard_in_db op.shard kv))
              (λ f. value known) λ f. Ensures-bind (execute-Known new) λ kv' known'. value known'

  pub execute-answers :
      (q : Op) (kv : ShardKv B) → Ensures (λ kv'. Known q kv'.clerk_log) (execute q kv)
  unfolding execute
  execute-answers q kv =
      Ensures-bind (put_inner-log q.shard q.clerk q.cmd_index kv.clerk_log) λ log same.
        Ensures-after (write q.operation q kv.kv_db) λ db. value (
          rw same (
            ap (logged q.clerk q.cmd_index)
              (ap or_nil (find-insert_if q.shard q.shard _ kv.clerk_log) ∙ (rw (==_refl q.shard)))
            ∙ logged_again q.clerk q.cmd_index (inner q.shard kv.clerk_log)))
