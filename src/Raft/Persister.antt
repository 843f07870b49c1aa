-- ===== src/Raft/Persister.antt =====
-- src/raft/persister.go: the stable storage of one peer, and what Raft keeps in it.
-- A stored byte slice is a list over an abstract type of bytes; a nil slice is the empty list.
use mit_raft.Base.{ℕ, ◌≡◌, ◌≢◌, List, [], Option, some, length}

pub record Persister {ℓ} (B : Type ℓ) : Type ℓ where
  pub raft_state : List B
  pub snapshot : List B

-- `encoding/gob`, which labgob wraps: what is encoded is decoded, and takes some bytes.
pub record Codec {ℓ κ} (A : Type ℓ) (B : Type κ) : Type (ℓ ⊔ κ) where
  pub encode : A → List B
  pub decode : List B → Option A
  pub decode-encode : (a : A) → decode (encode a) ≡ some a
  pub encode_nonempty : (a : A) → encode a ≢ []

module _ {ℓ} {B : Type ℓ} where
  unfoldable pub make_persister : Persister B
  make_persister = record { raft_state = []; snapshot = [] }

  pub copy : Persister B → Persister B
  copy ps = record { raft_state = ps.raft_state; snapshot = ps.snapshot }

  unfoldable pub save_raft_state : Persister B → List B → Persister B
  save_raft_state ps state = record ps { raft_state = state }

  unfoldable pub read_raft_state : Persister B → List B
  read_raft_state ps = ps.raft_state

  unfoldable pub raft_state_size : Persister B → ℕ
  raft_state_size ps = length ps.raft_state

  unfoldable pub save_state_and_snapshot : Persister B → List B → List B → Persister B
  save_state_and_snapshot ps state snapshot = record { raft_state = state; snapshot = snapshot }

  unfoldable pub read_snapshot : Persister B → List B
  read_snapshot ps = ps.snapshot

  unfoldable pub snapshot_size : Persister B → ℕ
  snapshot_size ps = length ps.snapshot
