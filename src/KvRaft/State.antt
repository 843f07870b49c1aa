-- ===== src/KvRaft/State.antt =====
-- src/kvraft/server.go and common.go: the state of a KVServer, its requests and its channels.
use Prim.Native.String.{String}
use mit_raft.Base.{
  ℕ, Bool, false, ℤ, List, [], ◌∷◌, ◌++◌, none, some, length, leb, find, insert, nat_key,
}
use mit_raft.Raft.State.{Raft}

-- The number of a clerk is not negative: nrand draws it from 0 on.
pub record Op : Type 0 where
  pub method : String
  pub key : String
  pub value : String
  pub clerk : ℕ
  pub index : ℕ

pub record PutAppendArgs : Type 0 where
  pub key : String
  pub value : String
  pub op : String
  pub clerk_id : ℕ
  pub cmd_index : ℕ

pub record PutAppendReply : Type 0 where
  pub wrong_leader : Bool
  pub err : String

pub record GetArgs : Type 0 where
  pub key : String
  pub clerk_id : ℕ
  pub cmd_index : ℕ

pub record GetReply : Type 0 where
  pub wrong_leader : Bool
  pub err : String
  pub value : String

abbrev pub no_error : String
no_error = "OK"

abbrev pub err_no_key : String
err_no_key = "ErrNoKey"

-- An unbuffered channel with the handler that made it: the handler stands in its `select`, has
-- taken a term, or has left after its timeout; or the channel is closed.
pub data Chan : Type 0 where
  reading : Chan
  taken : ℤ → Chan
  left closed : Chan

-- The content of a snapshot.
pub record Snapshot : Type 0 where
  pub db : List (String × String)
  pub clerks : List (ℕ × ℕ)

-- `msg_ch` gives the channel of an index as a position in `chans`, which has every channel that
-- was made. The field `persister` of the program is the persister of `rf`.
pub record KvServer (B : Type 0) : Type 0 where
  pub me : ℕ
  pub rf : Raft Op B
  pub max_raft_state : ℤ
  pub clerk_log : List (ℕ × ℕ)
  pub kv_db : List (String × String)
  pub msg_ch : List (ℕ × ℕ)
  pub chans : List Chan

module _ {B : Type 0} where
  -- `ind, ok := kv.clerkLog[clerk]; ok && ind >= index`
  unfoldable pub executed : ℕ → ℕ → KvServer B → Bool
  executed clerk index kv = elim (find clerk kv.clerk_log) [
    | none ↦ false
    | some ind ↦ leb index ind
  ]

  -- `ch := make(chan int); kv.msgCh[index] = ch`
  unfoldable pub open_ch : ℕ → KvServer B → ℕ × KvServer B
  open_ch index kv = (
    length kv.chans,
    record kv {
      msg_ch = insert index (length kv.chans) kv.msg_ch;
      chans = kv.chans ++ Chan.reading ∷ [];
    },
  )
