-- ===== src/KvRaft/Once.antt =====
-- src/kvraft/server.go: repeated commands in receiveNewMsg.
pub mod Snapshots
use Prim.Native.String.{String}
use mit_raft.Base.{
  ℕ, ◌≢◌, ◌≡◌, refl, sym, ap, ◌∙◌, Bool, true, false, ◌||◌, ◌&&◌, List, [], ◌∷◌, ◌++◌, Option, some,
  length, leb, ◌==◌, if◌then◌else◌, find, insert, find-insert_if, nat_key, string_key, append_text,
  append_text_empty, same_text, arith, Bool-cases, Option-cases, inl, inr, ==→eq,
}
use mit_raft.Raft.Persister.{Codec, read_snapshot}
use mit_raft.KvRaft.State.{Op, Snapshot, KvServer, executed}
use mit_raft.KvRaft.Server.{
  write, execute, encode_snapshot, decoded_snapshot, load_snapshot, value_or_empty,
}

-- A command of the same clerk with this number or a later one has come before.
abbrev pub seen : ℕ → ℕ → List Op → Bool
seen clerk index [] = false
seen clerk index (op ∷ ops) = op.clerk == clerk && leb index op.index || seen clerk index ops

-- The commands that are not repetitions, after those of `earlier`.
abbrev pub firsts : List Op → List Op → List Op
firsts earlier [] = []
firsts earlier (op ∷ ops) =
    let rest = firsts (op ∷ earlier) ops in
    if seen op.clerk op.index earlier then rest else op ∷ rest

-- What one command does to the value of a key.
abbrev pub after : String → Option String → Op → Option String
after k v op =
    if same_text op.key k
    then (if same_text op.method "Put"
        then some op.value
        else if same_text op.method "Append"
        then some (append_text (value_or_empty v) op.value)
        else v)
    else v

-- The value of a key after a list of commands, each of which counts.
abbrev pub meaning : String → Option String → List Op → Option String
meaning k v [] = v
meaning k v (op ∷ ops) = meaning k (after k v op) ops

find_same :
    (db : List (String × String)) (j k : String) → same_text j k ≡ true → find k db ≡ find j db
find_same db j k h = ap (λ t. find t db) (sym (string_key.same→eq j k h))

write-after :
    (op : Op) (db : List (String × String)) (k : String)
    → find k (write op db) ≡ after k (find k db) op
unfolding write
write-after op db k = elim (Bool-cases (same_text op.method "Put")) [
  | inl put ↦ rw (put, find-insert_if op.key k op.value db)
  | inr e ↦ elim (Bool-cases (same_text op.method "Append")) [
    | inl append ↦ elim (Option-cases (find op.key db)) [
      | inl missing ↦
          rw (e, append, missing, find-insert_if op.key k op.value db)
            (elim (Bool-cases (same_text op.key k)) [
              | inl q ↦ rw (q, find_same db op.key k q, missing, append_text_empty op.value)
              | inr q ↦ rw q
            ])
      | inr (v, there) ↦
          rw (e, append, there, find-insert_if op.key k (append_text v op.value) db)
            (elim (Bool-cases (same_text op.key k)) [
              | inl q ↦ rw (q, find_same db op.key k q, there)
              | inr q ↦ rw q
            ])
    ]
    | inr other ↦
        rw (e, other) (elim (Bool-cases (same_text op.key k)) [ inl q ↦ rw q | inr q ↦ rw q ])
  ]
]

nonempty_test {ℓ} : {A : Type ℓ} (l : List A) → l ≢ [] → (length l == 0) ≡ false
nonempty_test [] h = absurd (h refl)
nonempty_test (x ∷ l) h = ground arith

and_true : (a b : Bool) → (a && b) ≡ true → (a ≡ true) × (b ≡ true)
and_true true true h = (refl, refl)
and_true true false h = absurd cc
and_true false b h = absurd cc

module _ {B : Type 0} where
  -- The loop on the commands of a list, in their order.
  unfoldable pub execute_all : List Op → KvServer B → KvServer B
  execute_all [] kv = kv
  execute_all (op ∷ ops) kv = execute_all ops (execute op kv)

  executed_below :
      (c i n : ℕ) (kv : KvServer B)
      → executed c n kv ≡ true
      → leb i n ≡ true
      → executed c i kv ≡ true
  unfolding executed
  executed_below c i n kv h low = elim (Option-cases (find c kv.clerk_log)) [
    | inl e ↦ let bad : false ≡ true = rw (executed, e) at h in absurd cc
    | inr (ind, e) ↦
        let top : leb n ind ≡ true = rw (executed, e) at h in rw (executed, e) (ground arith)
  ]

  not_executed_above :
      (c i n : ℕ) (kv : KvServer B)
      → executed c n kv ≡ false
      → leb i n ≡ false
      → executed c i kv ≡ false
  not_executed_above c i n kv h high = elim (Bool-cases (executed c i kv)) [
    | inl e ↦
        let below : executed c n kv ≡ true = executed_below c n i kv e (ground arith) in absurd cc
    | inr e ↦ e
  ]

  executed-insert :
      (op : Op) (db : List (String × String)) (kv : KvServer B) (c i : ℕ)
      → executed c i (record kv { clerk_log = insert op.clerk op.index kv.clerk_log; kv_db = db })
        ≡ (if op.clerk == c then leb i op.index else executed c i kv)
  unfolding executed
  executed-insert op db kv c i =
      rw (executed, find-insert_if op.clerk c op.index kv.clerk_log)
        (elim (Bool-cases (op.clerk == c)) [ inl e ↦ rw e | inr e ↦ rw e ])

  seen_again :
      (earlier : List Op) (op : Op) (kv : KvServer B) (c i : ℕ)
      → executed c i kv ≡ seen c i earlier
      → executed op.clerk op.index kv ≡ true
      → executed c i kv ≡ seen c i (op ∷ earlier)
  seen_again earlier op kv c i same e = elim (Bool-cases (op.clerk == c && leb i op.index)) [
    | inr other ↦ rw other same
    | inl mine ↦
        let (eq, low) = and_true (op.clerk == c) (leb i op.index) mine in
        let clerk : op.clerk ≡ c = ==→eq op.clerk c eq in
        rw mine (executed_below c i op.index kv (rw (← clerk) e) low)
  ]

  seen_now :
      (earlier : List Op) (op : Op) (kv : KvServer B) (c i : ℕ)
      → executed c i kv ≡ seen c i earlier
      → executed op.clerk op.index kv ≡ false
      → (if op.clerk == c then leb i op.index else executed c i kv) ≡ seen c i (op ∷ earlier)
  seen_now earlier op kv c i same e = elim (Bool-cases (op.clerk == c)) [
    | inr other ↦ rw (other, same)
    | inl mine ↦ elim (Bool-cases (leb i op.index)) [
      | inl low ↦ rw (mine, low)
      | inr high ↦
          let clerk : op.clerk ≡ c = ==→eq op.clerk c mine in
          rw (mine, high, ← same) (sym (not_executed_above c i op.index kv (rw (← clerk) e) high))
    ]
  ]

  executed_step :
      (earlier : List Op) (op : Op) (kv : KvServer B)
      → ((c i : ℕ) → executed c i kv ≡ seen c i earlier)
      → (c i : ℕ) → executed c i (execute op kv) ≡ seen c i (op ∷ earlier)
  unfolding execute
  executed_step earlier op kv same c i = elim (Bool-cases (executed op.clerk op.index kv)) [
    | inl e ↦ rw e (seen_again earlier op kv c i (same c i) e)
    | inr e ↦
        rw (e, executed-insert op (write op kv.kv_db) kv c i)
          (seen_now earlier op kv c i (same c i) e)
  ]

  execute_value :
      (op : Op) (kv : KvServer B) (k : String)
      → find k (execute op kv).kv_db
        ≡ (if executed op.clerk op.index kv then find k kv.kv_db else after k (find k kv.kv_db) op)
  unfolding execute
  execute_value op kv k = elim (Bool-cases (executed op.clerk op.index kv)) [
    | inl e ↦ rw e
    | inr e ↦ rw e (write-after op kv.kv_db k)
  ]

  -- Whatever is repeated in the log: the value of a key is that of the commands without repetitions.
  executed-firsts :
      (ops earlier : List Op) (kv : KvServer B) (k : String)
      → ((c i : ℕ) → executed c i kv ≡ seen c i earlier)
      → find k (execute_all ops kv).kv_db ≡ meaning k (find k kv.kv_db) (firsts earlier ops)
  unfolding execute_all
  executed-firsts [] earlier kv k same = refl
  executed-firsts (op ∷ ops) earlier kv k same =
      executed-firsts ops (op ∷ earlier) (execute op kv) k (executed_step earlier op kv same)
      ∙ rw (execute_value op kv k, same op.clerk op.index)
          (elim (Bool-cases (seen op.clerk op.index earlier)) [ inl e ↦ rw e | inr e ↦ rw e ])

  -- From a server that has executed nothing, the value of every key after any sequence of commands
  -- is the value that the sequence has when each repetition of a clerk's command (the same number
  -- or an earlier one than some command of that clerk before it) is left out and every other
  -- command counts.
  pub find-execute_all :
      (ops : List Op) (kv : KvServer B) (k : String)
      → kv.clerk_log ≡ []
      → find k (execute_all ops kv).kv_db ≡ meaning k (find k kv.kv_db) (firsts [] ops)
  unfolding executed find
  find-execute_all ops kv k new = executed-firsts ops [] kv k (λ c i. rw (executed, new) refl)
