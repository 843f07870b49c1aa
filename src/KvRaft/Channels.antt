-- ===== src/KvRaft/Channels.antt =====
-- src/kvraft/server.go: the channels between the handlers and the loop receiveNewMsg.
use mit_raft.Base.{
  ◌++◌, ℕ, ◌≡◌, refl, ap, ◌∙◌, true, ℤ, List, [], ◌∷◌, none, some, length, get_elem?, get_elem?-set,
  get_elem?-more, length-append, ◌==◌, ◌<◌, ◌+◌, false, get_elem?-last, set, find, delete,
  find-insert, find-delete, nat_key, string_key, ok, panic, Returns, returned, zero, suc,
  Bool-cases, inl, inr, arith,
}
use mit_raft.Raft.Persister.{Codec}
use mit_raft.Raft.State.{Command, Payload, ApplyMsg}
use mit_raft.KvRaft.State.{Op, Snapshot, Chan, KvServer, executed, open_ch}
use mit_raft.KvRaft.Server.{
  Received, went_on, blocked, execute, notify, message, time_out, close_ch, receive_new_msg,
}

chan_set :
    (l : List Chan) (i : ℕ) (c d : Chan) → get_elem? l i ≡ some d → get_elem? (set l i c) i ≡ some c
chan_set [] i c d h = absurd cc
chan_set (x ∷ l) zero c d h = refl
chan_set (x ∷ l) (suc i) c d h = chan_set l i c d h

module _ {B : Type 0} where
  -- A message that carries a command.
  abbrev pub Carries : ApplyMsg Op B → Op → Type 0
  Carries msg op = (msg.command_valid ≡ true) × (msg.payload ≡ Payload.command (Command.cmd op))

  -- Executing a command leaves the channels alone.
  execute_channels :
      (op : Op) (kv : KvServer B)
      → ((execute op kv).msg_ch ≡ kv.msg_ch) × ((execute op kv).chans ≡ kv.chans)
  unfolding execute
  execute_channels op kv = ground arith

  execute-executed : (op : Op) (kv : KvServer B) → executed op.clerk op.index (execute op kv) ≡ true
  unfolding execute executed
  execute-executed op kv = elim (Bool-cases (executed op.clerk op.index kv)) [
    | inl e ↦ rw (e, e)
    | inr e ↦ rw (e, executed, find-insert op.clerk op.index kv.clerk_log) (ground arith)
  ]

  close_open :
      (index ch : ℕ) (kv : KvServer B)
      → find index kv.msg_ch ≡ some ch
      → get_elem? kv.chans ch ≡ some Chan.reading
      → close_ch index kv
        ≡ ok (record kv { msg_ch = delete index kv.msg_ch; chans = set kv.chans ch Chan.closed })
  unfolding close_ch
  close_open index ch kv there reads = rw (close_ch, there, reads)

  close_missing :
      (index : ℕ) (kv : KvServer B) → find index kv.msg_ch ≡ none → close_ch index kv ≡ panic
  unfolding close_ch
  close_missing index kv gone = rw (close_ch, gone)

  opened_find :
      (index : ℕ) (kv : KvServer B)
      → find index (open_ch index kv).1.msg_ch ≡ some (open_ch index kv).0
  unfolding open_ch
  opened_find index kv = find-insert index (length kv.chans) kv.msg_ch

  opened_chan :
      (index : ℕ) (kv : KvServer B)
      → get_elem? (open_ch index kv).1.chans (open_ch index kv).0 ≡ some Chan.reading
  unfolding open_ch
  opened_chan index kv = get_elem?-last kv.chans Chan.reading

  -- The channel of the second of two handlers is closed, that of the first one is not, and to close
  -- the channel at their index now is a panic.
  abbrev pub Shut : ℕ → KvServer B → KvServer B → Type 0
  Shut index kv r =
      (get_elem? r.chans (open_ch index (open_ch index kv).1).0 ≡ some Chan.closed)
      × (get_elem? r.chans (open_ch index kv).0 ≡ some Chan.reading)
      × (close_ch index r ≡ panic)

  first_kept :
      (index : ℕ) (kv : KvServer B)
      → get_elem?
          (set
            (open_ch index (open_ch index kv).1).1.chans
            (open_ch index (open_ch index kv).1).0
            Chan.closed)
          (open_ch index kv).0
        ≡ some Chan.reading
  unfolding open_ch
  first_kept index kv =
      let one = kv.chans ++ Chan.reading ∷ [] in
      let size : length one ≡ length kv.chans + 1 = length-append kv.chans (Chan.reading ∷ []) in
      let apart : (length one == length kv.chans) ≡ false = ground (arith, size) in
      let inside : length one < length (one ++ Chan.reading ∷ []) =
        omega (arith, length-append one (Chan.reading ∷ [])) in
      get_elem?-set (one ++ Chan.reading ∷ []) (length one) (length kv.chans) Chan.closed inside
      ∙ (rw apart (
          get_elem?-more one (Chan.reading ∷ []) (length kv.chans) Chan.reading
            (get_elem?-last kv.chans Chan.reading)))

  -- When two handlers register a channel at the same index, then the first call of closeCh at it
  -- closes the channel of the second handler and leaves that of the first one open, and the second
  -- call is a panic.
  pub close_ch_twice :
      (index : ℕ) (kv : KvServer B)
      → Returns (Shut index kv) (close_ch index (open_ch index (open_ch index kv).1).1)
  close_ch_twice index kv =
      let both = open_ch index (open_ch index kv).1 in
      let there = opened_chan index (open_ch index kv).1 in
      rw (close_open index both.0 both.1 (opened_find index (open_ch index kv).1) there) (
        returned (
          chan_set both.1.chans both.0 Chan.closed Chan.reading there,
          first_kept index kv,
          close_missing index
              (record both.1 {
                msg_ch = delete index both.1.msg_ch;
                chans = set both.1.chans both.0 Chan.closed;
              })
              (find-delete index both.1.msg_ch),
        ))

  left_chan :
      (ch : ℕ) (kv : KvServer B)
      → get_elem? kv.chans ch ≡ some Chan.reading
      → (get_elem? (time_out ch kv).chans ch ≡ some Chan.left)
        × ((time_out ch kv).msg_ch ≡ kv.msg_ch)
  unfolding time_out
  left_chan ch kv h = rw (time_out, h) (chan_set kv.chans ch Chan.left Chan.reading h, refl)

  notify_left :
      (index ch : ℕ) (term : ℤ) (kv : KvServer B)
      → find index kv.msg_ch ≡ some ch
      → get_elem? kv.chans ch ≡ some Chan.left
      → notify index term kv ≡ ok none
  unfolding notify
  notify_left index ch term kv there gone = rw (notify, there, gone)

  notify_reading :
      (index ch : ℕ) (term : ℤ) (kv : KvServer B)
      → find index kv.msg_ch ≡ some ch
      → get_elem? kv.chans ch ≡ some Chan.reading
      → notify index term kv ≡ ok (some (record kv { chans = set kv.chans ch (Chan.taken term) }))
  unfolding notify
  notify_reading index ch term kv there reads = rw (notify, there, reads)

  execute_opened :
      (op : Op) (index : ℕ) (kv : KvServer B)
      → (execute op (open_ch index kv).1).kv_db ≡ (execute op kv).kv_db
  unfolding execute open_ch executed
  execute_opened op index kv = ground arith

  executed_chans :
      (c i : ℕ) (kv : KvServer B) (l : List Chan)
      → executed c i (record kv { chans = l }) ≡ executed c i kv
  unfolding executed
  executed_chans c i kv l = refl

  message-taken :
      (ch : ℕ) (t : ℤ) (kv : KvServer B)
      → get_elem? kv.chans ch ≡ some Chan.reading
      → message ch (record kv { chans = set kv.chans ch (Chan.taken t) }) ≡ some t
  unfolding message
  message-taken ch t kv h = rw (message, chan_set kv.chans ch (Chan.taken t) Chan.reading h)

  module _ ⦃snap : Codec Snapshot B⦄ where
    -- The result of the loop on a message, with the command executed.
    abbrev pub Answered : ApplyMsg Op B → Op → ℕ → KvServer B → Received B → Type 0
    Answered msg op ch kv (went_on r due) =
        (r.kv_db ≡ (execute op kv).kv_db)
        × (executed op.clerk op.index r ≡ true)
        × (message ch r ≡ some msg.commit_term)
    Answered msg op ch kv blocked = ⊥

    -- When a handler has registered its channel at the index of a message with a command,
    -- receiveNewMsg returns, without blocking, with the data that executing the command gives, the
    -- command recorded as executed, and the message's term in the handler's channel.
    pub receive_new_msg-Answered :
        (msg : ApplyMsg Op B) (op : Op) (kv : KvServer B)
        → Carries msg op
        → Returns
            (λ r. Answered msg op (open_ch msg.command_index kv).0 kv r)
            (receive_new_msg msg (open_ch msg.command_index kv).1)
    unfolding receive_new_msg message
    receive_new_msg-Answered msg op kv (valid, carried) =
        let w = open_ch msg.command_index kv in
        let (maps, chans) = execute_channels op w.1 in
        let reads = ap (λ l. get_elem? l w.0) chans ∙ opened_chan msg.command_index kv in
        rw
          (
            valid,
            carried,
            notify_reading msg.command_index w.0 msg.commit_term (execute op w.1)
                (ap (find msg.command_index) maps ∙ opened_find msg.command_index kv) reads,
          )
          (returned (
            execute_opened op msg.command_index kv,
            executed_chans op.clerk op.index (execute op w.1)
                  (set (execute op w.1).chans w.0 (Chan.taken msg.commit_term))
                ∙ execute-executed op w.1,
            message-taken w.0 msg.commit_term (execute op w.1) reads,
          ))

    -- If the handler that registered at the index of a message with a command has left its select
    -- after the timeout and has not yet closed its channel, receiveNewMsg blocks on the send, with
    -- the server's lock held.
    pub receive_new_msg_blocked :
        (msg : ApplyMsg Op B) (op : Op) (kv : KvServer B)
        → Carries msg op
        → (let (ch, waiting) = open_ch msg.command_index kv in
            receive_new_msg msg (time_out ch waiting) ≡ ok blocked)
    unfolding receive_new_msg
    receive_new_msg_blocked msg op kv (valid, carried) =
        let w = open_ch msg.command_index kv in
        let gone = time_out w.0 w.1 in
        let (at_left, same_map) = left_chan w.0 w.1 (opened_chan msg.command_index kv) in
        let (maps, chans) = execute_channels op gone in
        rw (
          valid,
          carried,
          notify_left msg.command_index w.0 msg.commit_term (execute op gone)
              (ap (find msg.command_index) (maps ∙ same_map) ∙ opened_find msg.command_index kv)
              (ap (λ l. get_elem? l w.0) chans ∙ at_left),
        )
