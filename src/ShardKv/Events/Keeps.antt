-- ===== src/ShardKv/Events/Keeps.antt =====
-- src/shardkv/server.go: the parts of executeOp and convertToLeader, and the channels.
use mit_raft.Base.{
  ℕ, ◌≡◌, refl, sym, ◌∙◌, ◌==◌, ◌≢◌, suc, zero, replicate, present, missing, Bool, true, false,
  ◌||◌, ℤ, [], some, set, get_elem?, get_elem?-lt, inl, inr, find, delete, nat_key, ok, panic,
  Ensures, value, panics, Bool-cases, Option-cases, arith,
}
use mit_raft.Raft.State.{Raft}
use mit_raft.ShardKv.State.{Op, Chan, ShardKv, open_ch}
use mit_raft.ShardKv.Apply.{parse_cfg}
use mit_raft.ShardKv.Server.{new_leader_done, register, receive, close_ch}
use mit_raft.ShardKv.Run.{fresh_server}
use mit_raft.ShardKv.Invariant.{parse_cfg-Inv}
use mit_raft.ShardKv.Channels.{Clear, Clear-taken, Clear-closed, Clear-opened}
use mit_raft.ShardKv.Channels.Rounds.{Ready, channels_only, leader_only}
use mit_raft.ShardMaster.State.{n_shards}
use mit_raft.ShardKv.Counting.{Distinct}
use mit_raft.ShardKv.Apply.{owned, surplus}

no_owner : (g s k : ℕ) → g ≢ 0 → owned g s (replicate k 0) ≡ []
unfolding owned
no_owner g s zero nonzero = refl
no_owner g s (suc k) nonzero =
    let other : (0 == g) ≡ false = ground arith in rw (other, no_owner g (suc s) k nonzero)

pub no_channels : (n : ℕ) → Clear n [] []
unfolding find
no_channels n = record {
  vacant = λ index ch e h. absurd cc;
  apart = λ i j ch e f. absurd cc;
  made = λ i ch e. absurd cc;
}

module _ {B : Type 0} where
  pub register-Ready :
      (g n index : ℕ) (is_leader : Bool) (kv : ShardKv B)
      → Ready g n kv
      → Ready g n (register index is_leader kv).1
  unfolding register open_ch
  register-Ready g n index true kv (inv, clear, group) =
      (channels_only kv inv _ _, Clear-opened n kv.msg_ch kv.chans clear index, group)
  register-Ready g n index false kv ready = ready

  pub receive-Ready : (g n ch : ℕ) (kv : ShardKv B) → Ready g n kv → Ready g n (receive ch kv).1
  unfolding receive
  receive-Ready g n ch kv (inv, clear, group) = elim (Option-cases (get_elem? kv.chans ch)) [
    | inl e ↦ rw (receive, e) (inv, clear, group)
    | inr (c, e) ↦ received_from g n ch kv (inv, clear, group) c e
  ]
    where
      received_from :
          (g n ch : ℕ) (kv : ShardKv B)
          → Ready g n kv
          → (c : Chan) → get_elem? kv.chans ch ≡ some c
          → Ready g n (receive ch kv).1
      received_from g n ch kv ready Chan.vacant e = rw (receive, e) ready
      received_from g n ch kv ready Chan.closed e = rw (receive, e) ready
      received_from g n ch kv (inv, clear, group) (Chan.holding m) e =
          rw (receive, e)
            (
              channels_only kv inv kv.msg_ch (set kv.chans ch Chan.vacant),
              Clear-taken n kv.msg_ch kv.chans clear ch (get_elem?-lt kv.chans ch e),
              group,
            )

  pub close_ch-Ready :
      (g n index : ℕ) (kv : ShardKv B) → Ready g n kv → Ensures (Ready g n) (close_ch index kv)
  unfolding close_ch
  close_ch-Ready g n index kv (inv, clear, group) = elim (Option-cases (find index kv.msg_ch)) [
    | inl e ↦ rw (close_ch, e) panics
    | inr (ch, e) ↦ elim (Option-cases (get_elem? kv.chans ch)) [
      | inl f ↦ rw (close_ch, e, f) panics
      | inr (c, f) ↦ rw (close_ch, e, f) (closed_by c ch e)
    ]
  ]
    where
      closed_by :
          (c : Chan) (ch : ℕ)
          → find index kv.msg_ch ≡ some ch
          → Ensures (Ready g n) (elim c [
            | Chan.closed ↦ panic
            | _ ↦
                ok (record kv {
                  msg_ch = delete index kv.msg_ch;
                  chans = set kv.chans ch Chan.closed;
                })
          ])
      closed_by Chan.closed ch e = panics
      closed_by Chan.vacant ch e = value (
        channels_only kv inv (delete index kv.msg_ch) (set kv.chans ch Chan.closed),
        Clear-closed n kv.msg_ch kv.chans clear index ch e,
        group,
      )
      closed_by (Chan.holding m) ch e = value (
        channels_only kv inv (delete index kv.msg_ch) (set kv.chans ch Chan.closed),
        Clear-closed n kv.msg_ch kv.chans clear index ch e,
        group,
      )

  parse_cfg-Ready : (g n : ℕ) (kv : ShardKv B) → Ready g n kv → Ready g n (parse_cfg kv)
  unfolding parse_cfg
  parse_cfg-Ready g n kv (inv, clear, group) = (
    parse_cfg-Inv kv inv.keys inv.logs (λ z. (sym inv.held ∙ (inv.fresh z).0, (inv.fresh z).1)),
    clear,
    group,
  )

  pub new_leader_done-Ready :
      (g n : ℕ) (result : Bool × Bool) (kv : ShardKv B)
      → Ready g n kv
      → Ready g n (new_leader_done result kv).1
  unfolding new_leader_done
  new_leader_done-Ready g n (wrong_leader, wrong_group) kv (inv, clear, group) =
      elim (Bool-cases (wrong_leader || wrong_group)) [
        | inl e ↦ rw e (leader_only kv inv false, clear, group)
        | inr e ↦ rw e (parse_cfg-Ready g n kv (inv, clear, group))
      ]

  pub fresh-Ready :
      (g me : ℕ) (rf : Raft Op B) (max_raft_state : ℤ)
      → g ≢ 0
      → Ready g 1 (fresh_server me rf max_raft_state g)
  unfolding Distinct surplus missing present find
  fresh-Ready g me rf max_raft_state nonzero = (
    record {
      held = sym (no_owner g 0 n_shards nonzero);
      keys = tt;
      logs = λ s. refl;
      counted = refl;
      fresh = λ z. (refl, refl);
    },
    no_channels 1,
    refl,
  )
