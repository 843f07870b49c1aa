-- ===== src/ShardKv/Channels.antt =====
-- src/shardkv/server.go: the channels between executeOp and run.
pub mod Rounds
use Prim.Native.String.{String}
use mit_raft.Base.{
  ◌⊎◌, ℕ, suc, ◌+◌, ◌≤◌, ◌<◌, ◌≡◌, refl, sym, ap, subst, ◌∙◌, Bool, true, false, not, ◌&&◌, ◌||◌, ℤ,
  List, [], ◌∷◌, ◌++◌, Option, none, some, length, set, get_elem?, ltb, ◌==◌, if◌then◌else◌, inl,
  inr, find, insert, delete, nat_key, int_key, Run, ok, ◌>>=◌, Ensures, value, panics, Ensures-if,
  Ensures-bind, Ensures-after, Returns, returned, Returns-bind, Returns-and, Returns-mono, arith,
  Option-cases, Bool-cases, find-insert_if, find-delete_if, length-set, length-append,
  get_elem?-set, get_elem?-append_left, get_elem?-append_right, ==→eq, ==_refl,
}
use mit_raft.ShardKv.State.{
  Kind, request, new_config, new_shard, new_send, new_leader, Op, MsgInCh, Chan, ShardKv,
  have_shard, shard_in_db, executed, open_ch,
}
use mit_raft.ShardKv.Apply.{
  put_inner, write, parse_cfg, apply_send, initialize, apply_config, apply_shard, execute,
  apply_request, apply_kind, apply_op,
}
use mit_raft.ShardKv.Server.{register, receive, close_ch}
use mit_raft.ShardKv.Run.{notify}

-- The channels of the indices from `n` on are empty and open, and no two indices share one.
pub record Clear (n : ℕ) (msg_ch : List (ℕ × ℕ)) (chans : List Chan) : Type 0 where
  pub vacant :
      (index ch : ℕ)
      → find index msg_ch ≡ some ch
      → n ≤ index
      → get_elem? chans ch ≡ some Chan.vacant
  pub apart : (i j ch : ℕ) → find i msg_ch ≡ some ch → find j msg_ch ≡ some ch → i ≡ j
  pub made : (i ch : ℕ) → find i msg_ch ≡ some ch → ch < length chans

last_vacant : (l : List Chan) → get_elem? (l ++ Chan.vacant ∷ []) (length l) ≡ some Chan.vacant
last_vacant [] = refl
last_vacant (c ∷ l) = last_vacant l

module _ (n : ℕ) (msg_ch : List (ℕ × ℕ)) (chans : List Chan) (clear : Clear n msg_ch chans) where
  pub Clear-suc : Clear (n + 1) msg_ch chans
  Clear-suc = record {
    vacant = λ index ch e h. clear.vacant index ch e (omega arith);
    apart = clear.apart;
    made = clear.made;
  }

  -- A message has been put into the channel of the index `n`.
  pub Clear-sent :
      (ch : ℕ) (c : Chan) → find n msg_ch ≡ some ch → Clear (n + 1) msg_ch (set chans ch c)
  Clear-sent ch c at_n = record {
    vacant = λ index ch' e h.
        let other : (ch == ch') ≡ false = elim (Bool-cases (ch == ch')) [
          | inr q ↦ q
          | inl q ↦
              let eq : ch ≡ ch' = ==→eq ch ch' q in
              let same : n ≡ index = clear.apart n index ch' (rw (← eq) at_n) e in
              absurd (omega arith)
        ] in
        get_elem?-set chans ch ch' c (clear.made n ch at_n)
        ∙ (rw other (clear.vacant index ch' e (omega arith)));
    apart = clear.apart;
    made = λ i ch' e. rw (length-set chans ch c) (clear.made i ch' e);
  }

  -- A message has been taken out of a channel.
  pub Clear-taken : (ch : ℕ) → ch < length chans → Clear n msg_ch (set chans ch Chan.vacant)
  Clear-taken ch low = record {
    vacant = λ index ch' e h.
        get_elem?-set chans ch ch' Chan.vacant low ∙ (elim (Bool-cases (ch == ch')) [
          | inl q ↦ rw q
          | inr q ↦ rw q (clear.vacant index ch' e h)
        ]);
    apart = clear.apart;
    made = λ i ch' e. rw (length-set chans ch Chan.vacant) (clear.made i ch' e);
  }

  pub Clear-closed :
      (index ch : ℕ)
      → find index msg_ch ≡ some ch
      → Clear n (delete index msg_ch) (set chans ch Chan.closed)
  Clear-closed index ch at_index = record {
    vacant = λ i ch' e h.
        let (old, other) = kept index i ch' e in
        let apart_ch : (ch == ch') ≡ false = elim (Bool-cases (ch == ch')) [
          | inr q ↦ q
          | inl q ↦
              let eq : ch ≡ ch' = ==→eq ch ch' q in
              let same : index ≡ i = clear.apart index i ch' (rw (← eq) at_index) old in
              let bad : (index == i) ≡ true = ground arith in absurd cc
        ] in
        get_elem?-set chans ch ch' Chan.closed (clear.made index ch at_index)
        ∙ (rw apart_ch (clear.vacant i ch' old h));
    apart = λ i j ch' e f. clear.apart i j ch' (kept index i ch' e).0 (kept index j ch' f).0;
    made =
        λ i ch' e. rw (length-set chans ch Chan.closed) (clear.made i ch' (kept index i ch' e).0);
  }
    where
      kept :
          (index i ch' : ℕ)
          → find i (delete index msg_ch) ≡ some ch'
          → (find i msg_ch ≡ some ch') × ((index == i) ≡ false)
      kept index i ch' e = elim (Bool-cases (index == i)) [
        | inl q ↦
            let gone : find i (delete index msg_ch) ≡ none =
              find-delete_if index i msg_ch ∙ (rw q) in
            absurd cc
        | inr q ↦ (sym (find-delete_if index i msg_ch ∙ (rw q)) ∙ e, q)
      ]

  pub Clear-opened :
      (index : ℕ) → Clear n (insert index (length chans) msg_ch) (chans ++ Chan.vacant ∷ [])
  Clear-opened index = record {
    vacant = λ i ch e h. elim (opened index i ch e) [
      | inl (same, new) ↦ rw new (last_vacant chans)
      | inr old ↦
          get_elem?-append_left chans (Chan.vacant ∷ []) ch (clear.made i ch old)
          ∙ clear.vacant i ch old h
    ];
    apart = λ i j ch e f. elim (opened index i ch e) [
      | inl (i_new, ch_new) ↦ elim (opened index j ch f) [
        | inl (j_new, _) ↦ i_new ∙ sym j_new
        | inr old ↦ let low : ch < length chans = clear.made j ch old in absurd (omega arith)
      ]
      | inr old ↦ elim (opened index j ch f) [
        | inl (j_new, ch_new) ↦
            let low : ch < length chans = clear.made i ch old in absurd (omega arith)
        | inr j_old ↦ clear.apart i j ch old j_old
      ]
    ];
    made = λ i ch e.
        let longer : length (chans ++ Chan.vacant ∷ []) ≡ length chans + 1 =
          length-append chans (Chan.vacant ∷ []) in
        elim (opened index i ch e) [
          | inl (same, new) ↦ omega (arith, longer, new)
          | inr old ↦ omega (arith, longer, clear.made i ch old)
        ];
  }
    where
      opened :
          (index i ch : ℕ)
          → find i (insert index (length chans) msg_ch) ≡ some ch
          → ((i ≡ index) × (ch ≡ length chans)) ⊎ (find i msg_ch ≡ some ch)
      opened index i ch e = elim (Bool-cases (index == i)) [
        | inl q ↦
            let at : find i (insert index (length chans) msg_ch) ≡ some (length chans) =
              find-insert_if index i (length chans) msg_ch ∙ (rw q) in
            let same : index ≡ i = ==→eq index i q in
            let new : some ch ≡ some (length chans) = sym e ∙ at in inl (sym same, cc)
        | inr q ↦ inr (sym (find-insert_if index i (length chans) msg_ch ∙ (rw q)) ∙ e)
      ]
