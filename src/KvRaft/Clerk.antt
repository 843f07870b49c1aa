-- ===== src/KvRaft/Clerk.antt =====
-- src/kvraft/client.go: the clerk. The outcomes of its calls come as a list, `none` for a call
-- without a reply; a loop that comes to the end of the list is still calling.
use Prim.Native.String.{String}
use native.Mathlib.Nat.{mod-add-mod, mod-eq_of_lt, mod-lt}
use mit_raft.Base.{
  ap, ◌∙◌, ℕ, suc, ◌+◌, ◌%◌, ◌<◌, ◌≡◌, Bool, false, not, ◌&&◌, List, [], ◌∷◌, ◌++◌, Option, none,
  some, length, same_text, if◌then◌else◌, arith,
}
use mit_raft.KvRaft.State.{PutAppendArgs, PutAppendReply, GetArgs, GetReply, no_error, err_no_key}

-- `servers` is their number.
pub record Clerk : Type 0 where
  pub servers : ℕ
  pub leader : ℕ
  pub me : ℕ
  pub cmd_index : ℕ

-- `me` is what nrand has drawn.
unfoldable pub make_clerk : ℕ → ℕ → Clerk
make_clerk servers me = record { servers = servers; leader = 0; me = me; cmd_index = 0 }

-- `ok && !reply.WrongLeader`
abbrev pub get_accepted : Option GetReply → Bool
get_accepted none = false
get_accepted (some r) = not r.wrong_leader

abbrev pub put_accepted : Option PutAppendReply → Bool
put_accepted none = false
put_accepted (some r) = not r.wrong_leader && same_text r.err no_error

-- What Get returns for a reply, which it compares with ErrNoKey.
abbrev pub get_result : Option GetReply → String
get_result none = ""
get_result (some r) = if same_text r.value err_no_key then "" else r.value

-- The loops of Get and PutAppend, from the server `leader` on.
unfoldable pub get_loop : ℕ → List (Option GetReply) → Clerk → Option (String × Clerk)
get_loop leader [] ck = none
get_loop leader (a ∷ answers) ck =
    let rest = get_loop ((leader + 1) % ck.servers) answers ck in
    if get_accepted a then some (get_result a, record ck { leader = leader }) else rest

unfoldable pub put_append_loop : ℕ → List (Option PutAppendReply) → Clerk → Option Clerk
put_append_loop leader [] ck = none
put_append_loop leader (a ∷ answers) ck =
    let rest = put_append_loop ((leader + 1) % ck.servers) answers ck in
    if put_accepted a then some (record ck { leader = leader }) else rest

-- The request of a call of Get, and the call.
unfoldable pub get_args : String → Clerk → GetArgs
get_args key ck = record { key = key; clerk_id = ck.me; cmd_index = ck.cmd_index + 1 }

unfoldable pub get : List (Option GetReply) → Clerk → Option (String × Clerk)
get answers ck = get_loop ck.leader answers (record ck { cmd_index = ck.cmd_index + 1 })

unfoldable pub put_append_args : String → String → String → Clerk → PutAppendArgs
put_append_args key value op ck = record {
  key = key;
  value = value;
  op = op;
  clerk_id = ck.me;
  cmd_index = ck.cmd_index + 1;
}

unfoldable pub put_append : List (Option PutAppendReply) → Clerk → Option Clerk
put_append answers ck =
    put_append_loop ck.leader answers (record ck { cmd_index = ck.cmd_index + 1 })

-- No call of the list is answered by a leader.
abbrev pub AllFailed : List (Option GetReply) → Type 0
AllFailed [] = Unit
AllFailed (a ∷ answers) = (get_accepted a ≡ false) × AllFailed answers

mod_step : (l n s : ℕ) → ((l + 1) % s + n) % s ≡ (l + suc n) % s
mod_step l n s =
    mod-add-mod (l + 1) s n
    ∙ ap (λ t. t % s) (let same : l + 1 + n ≡ l + suc n = omega arith in same)

-- When a number of calls fail and the next one is answered by a leader, the loop of the clerk's
-- Get ends with that reply, and remembers the server that lies as many places after the first one,
-- in cyclic order, as calls failed.
pub get_loop-append :
    (fails : List (Option GetReply)) (r : GetReply) (rest : List (Option GetReply)) (leader : ℕ)
    (ck : Clerk)
    → AllFailed fails
    → r.wrong_leader ≡ false
    → leader < ck.servers
    → get_loop leader (fails ++ some r ∷ rest) ck
      ≡ some (get_result (some r), record ck { leader = (leader + length fails) % ck.servers })
unfolding get_loop
get_loop-append [] r rest leader ck failed good low =
    let same : (leader + 0) % ck.servers ≡ leader =
      let plain : leader + 0 ≡ leader = omega arith in rw plain (mod-eq_of_lt low) in
    rw (good, same)
get_loop-append (a ∷ fails) r rest leader ck (bad, failed) good low = rw (
  bad,
  get_loop-append fails r rest ((leader + 1) % ck.servers) ck failed good
      (mod-lt (leader + 1) (omega arith)),
  mod_step leader (length fails) ck.servers,
)
