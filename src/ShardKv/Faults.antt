-- ===== src/ShardKv/Faults.antt =====
-- src/shardkv/server.go: commands of an earlier configuration, answers after a shard has left, and
-- channels with the same index.
use mit_raft.Base.{
  ℕ, ◌≡◌, refl, sym, ap, ◌∙◌, Bool, true, false, [], none, some, set, ltb, get_elem?, inl, inr,
  find, insert, delete, present, nat_key, int_key, string_key, find-insert, find-delete,
  present-none, present-of_none, present-of_some, member, pred_ℤ, ok, panic, ◌>>=◌, Bool-cases,
  Option-cases, ==_refl, ==ℤ_refl, arith,
}
use mit_raft.ShardKv.State.{
  Op, GetArgs, Chan, PushShardArgs, ShardKv, or_nil, inner, have_shard, shard_in_db, get_op,
  shard_op, send_op,
}
use mit_raft.ShardKv.Apply.{copy_map, apply_send, apply_shard}
use mit_raft.ShardKv.Server.{message, kind_number, equal, finish, get_finish, close_ch}
use mit_raft.ShardKv.Migration.{stops, push_shard, send_shard}
use mit_raft.ShardKv.Clerk.{get_verdict, accepted}

equal_refl : (op : Op) → equal op op ≡ true
unfolding equal
equal_refl op =
    rw (==_refl (kind_number op.kind), ==_refl op.shard, ==ℤ_refl op.clerk, ==ℤ_refl op.cmd_index)

finished : (op : Op) → finish op (message (record { is_ok = true; op = op })) ≡ (false, false)
unfolding finish
finished op = rw (equal_refl op)

module _ {B : Type 0} where
  -- The state after a newSend of the shard, if the shard has to leave and is in the database.
  abbrev sent : ℕ → ShardKv B → ShardKv B
  sent shard kv = (apply_send (send_op shard) kv).1

  send_deletes :
      (shard : ℕ) (kv : ShardKv B)
      → have_shard shard kv ≡ false
      → shard_in_db shard kv ≡ true
      → apply_send (send_op shard) kv ≡ (
        true,
        record kv {
          kv_db = delete shard kv.kv_db;
          clerk_log = delete shard kv.clerk_log;
          wait_until_move_done = pred_ℤ kv.wait_until_move_done;
        },
      )
  unfolding apply_send
  send_deletes shard kv out there = rw (out, there)

  send_skips :
      (shard : ℕ) (kv : ShardKv B)
      → shard_in_db shard kv ≡ false
      → apply_send (send_op shard) kv ≡ (true, kv)
  unfolding apply_send
  send_skips shard kv gone = elim (Bool-cases (have_shard shard kv)) [
    | inl e ↦ rw e
    | inr e ↦ rw (e, gone)
  ]

  -- Whether it had the shard or not, the server has it no more.
  sent_out :
      (shard : ℕ) (kv : ShardKv B)
      → have_shard shard kv ≡ false
      → find shard (sent shard kv).kv_db ≡ none
  unfolding shard_in_db
  sent_out shard kv out = elim (Bool-cases (present shard kv.kv_db)) [
    | inl e ↦
        ap (λ (r : Bool × ShardKv B). find shard r.1.kv_db) (send_deletes shard kv out e)
        ∙ find-delete shard kv.kv_db
    | inr e ↦
        ap (λ (r : Bool × ShardKv B). find shard r.1.kv_db) (send_skips shard kv e)
        ∙ present-none shard kv.kv_db e
  ]

  get_missing :
      (args : GetArgs) (kv : ShardKv B)
      → find args.shard kv.kv_db ≡ none
      → get_verdict (some (get_finish args (false, false) kv)) ≡ accepted ""
  unfolding get_finish get_verdict find
  get_missing args kv gone =
      let empty : find args.key (inner args.shard kv.kv_db) ≡ none =
        ap (λ t. find args.key (or_nil t)) gone in
      rw (get_finish, empty)

  -- When the command of a Get has been applied without an error, and a newSend of its shard is
  -- applied before the handler takes the lock again, at a server that does not have the shard any
  -- more, the reply is one that the clerk accepts, with the empty value.
  pub get_after_send :
      (args : GetArgs) (kv : ShardKv B)
      → have_shard args.shard kv ≡ false
      → get_verdict (
          some (
            get_finish args
              (finish (get_op args) (message (record { is_ok = true; op = get_op args })))
              (sent args.shard kv)))
        ≡ accepted ""
  get_after_send args kv out =
      ap (λ r. get_verdict (some (get_finish args r (sent args.shard kv)))) (finished (get_op args))
      ∙ get_missing args (sent args.shard kv) (sent_out args.shard kv out)

  -- After a newSend of a shard that the group does not have by its present configuration,
  -- whichever configuration the command was made in, the shard is not in the database, and
  -- sendShard of it stops without offering it to anyone.
  pub late_send :
      (shard : ℕ) (kv : ShardKv B)
      → have_shard shard kv ≡ false
      → (shard_in_db shard (sent shard kv) ≡ false)
        × ((cfg : ℕ) → send_shard shard cfg (sent shard kv) ≡ ok stops)
  unfolding shard_in_db send_shard
  late_send shard kv out =
      let gone : present shard (sent shard kv).kv_db ≡ false =
        present-of_none shard (sent shard kv).kv_db (sent_out shard kv out) in
      (
        gone,
        λ cfg. rw gone (elim (Bool-cases (sent shard kv).leader) [ inl e ↦ rw e | inr e ↦ rw e ]),
      )

  shard_inserts :
      (old : PushShardArgs) (kv : ShardKv B)
      → have_shard old.shard kv ≡ true
      → shard_in_db old.shard kv ≡ false
      → apply_shard (shard_op old) kv ≡ (
        true,
        record kv {
          kv_db = insert old.shard (copy_map old.shard_db []) kv.kv_db;
          clerk_log = insert old.shard (copy_map old.clerk_log []) kv.clerk_log;
          wait_until_move_done = pred_ℤ kv.wait_until_move_done;
        },
      )
  unfolding apply_shard
  shard_inserts old kv held new = rw (held, new)

  push_known :
      (args : PushShardArgs) (kv : ShardKv B)
      → have_shard args.shard kv ≡ true
      → shard_in_db args.shard kv ≡ true
      → kv.leader ≡ true
      → args.cfg_num ≡ kv.cfg.num
      → push_shard args kv ≡ some (record { wrong_leader = false })
  unfolding push_shard have_shard shard_in_db
  push_known args kv held there leads num =
      let low : ltb args.cfg_num kv.cfg.num ≡ false = ground arith in
      let high : ltb kv.cfg.num args.cfg_num ≡ false = ground arith in
      rw (leads, low, high, held, there)

  stored :
      (old args : PushShardArgs) (kv kv' : ShardKv B)
      → kv' ≡ record kv {
        kv_db = insert old.shard (copy_map old.shard_db []) kv.kv_db;
        clerk_log = insert old.shard (copy_map old.clerk_log []) kv.clerk_log;
        wait_until_move_done = pred_ℤ kv.wait_until_move_done;
      }
      → have_shard old.shard kv ≡ true
      → kv.leader ≡ true
      → args.shard ≡ old.shard
      → args.cfg_num ≡ kv.cfg.num
      → (inner old.shard kv'.kv_db ≡ copy_map old.shard_db [])
        × (push_shard args kv' ≡ some (record { wrong_leader = false }))
  unfolding have_shard shard_in_db
  stored old args kv kv' e held leads same num = (
    ap (λ (t : ShardKv B). inner old.shard t.kv_db) e
        ∙ ap or_nil (find-insert old.shard (copy_map old.shard_db []) kv.kv_db),
    push_known args kv'
        (ap (λ (t : ShardKv B). member args.shard t.shards) e
          ∙ (ap (λ s. member s kv.shards) same ∙ held))
        (ap (λ (t : ShardKv B). present args.shard t.kv_db) e
          ∙ ap (λ s. present s (insert old.shard (copy_map old.shard_db []) kv.kv_db)) same
          ∙ present-of_some old.shard _ (find-insert old.shard (copy_map old.shard_db []) kv.kv_db))
        (ap (λ (t : ShardKv B). t.leader) e ∙ leads)
        (num ∙ sym (ap (λ (t : ShardKv B). t.cfg.num) e)),
  )

  -- When a server that is the leader has been given a shard and waits for it, a newShard command
  -- with the data of any configuration, an earlier one included, fills the shard with that data;
  -- and PushShard with data of the present configuration is then answered with success without
  -- executing anything.
  pub stale_shard :
      (old args : PushShardArgs) (kv : ShardKv B)
      → have_shard old.shard kv ≡ true
      → shard_in_db old.shard kv ≡ false
      → kv.leader ≡ true
      → args.shard ≡ old.shard
      → args.cfg_num ≡ kv.cfg.num
      → let kv' = (apply_shard (shard_op old) kv).1 in
        (inner old.shard kv'.kv_db ≡ copy_map old.shard_db [])
        × (push_shard args kv' ≡ some (record { wrong_leader = false }))
  stale_shard old args kv held new leads same num =
      stored old args kv (apply_shard (shard_op old) kv).1
        (ap (λ (r : Bool × ShardKv B). r.1) (shard_inserts old kv held new)) held leads same num

  close_missing :
      (index : ℕ) (kv : ShardKv B) → find index kv.msg_ch ≡ none → close_ch index kv ≡ panic
  unfolding close_ch
  close_missing index kv e = rw (close_ch, e)

  -- Two calls of closeCh in a row with the same index, such as two handlers of the same index
  -- make, end in a panic, whatever the state.
  pub close_ch_again : (index : ℕ) (kv : ShardKv B) → (close_ch index kv >>= close_ch index) ≡ panic
  unfolding close_ch
  close_ch_again index kv = elim (Option-cases (find index kv.msg_ch)) [
    | inl e ↦ rw (close_ch, e)
    | inr (ch, e) ↦ elim (Option-cases (get_elem? kv.chans ch)) [
      | inl f ↦ rw (close_ch, e, f)
      | inr (c, f) ↦ rw (close_ch, e, f) (closed_by c ch)
    ]
  ]
    where
      closed_by :
          (c : Chan) (ch : ℕ)
          → ((elim c [
            | Chan.closed ↦ panic
            | _ ↦
                ok (record kv {
                  msg_ch = delete index kv.msg_ch;
                  chans = set kv.chans ch Chan.closed;
                })
          ])
              >>= close_ch index)
            ≡ panic
      closed_by Chan.closed ch = refl
      closed_by Chan.vacant ch = close_missing index _ (find-delete index kv.msg_ch)
      closed_by (Chan.holding m) ch = close_missing index _ (find-delete index kv.msg_ch)
