-- ===== src/ShardKv/Writes.antt =====
-- src/shardkv/server.go: writes to the maps of a server, and their keys.
use Prim.Native.String.{String}
use mit_raft.Base.{
  ℕ, ◌≢◌, suc, ◌≡◌, refl, ◌∙◌, true, ℤ, pos, pred_ℤ-suc, pred_ℤ, List, [], ◌∷◌, append_text, ◌⊎◌,
  ◌==◌, inl, inr, find, insert, delete, present, member, nat_key, int_key, string_key, Returns,
  returned, Returns-mono, Key, Bool-cases, Option-cases, ==→eq, present-insert, present-delete,
  present-some,
}
use mit_raft.ShardKv.State.{Method, put, append, get, nothing, Op}
use mit_raft.ShardKv.Apply.{surplus, put_inner, write}

pub pred_counted : (w : ℤ) (n m : ℕ) → w ≡ pos m → suc n ≡ m → pred_ℤ w ≡ pos n
pred_counted w n m e h = rw (e, ← h) (pred_ℤ-suc n)

module _ {ℓ κ} {V : Type ℓ} {W : Type κ} (k s : ℕ) (m : List (ℕ × V)) (n : List (ℕ × W)) where
  pub delete_agree : present s m ≡ present s n → present s (delete k m) ≡ present s (delete k n)
  delete_agree h = rw (present-delete k s m, present-delete k s n, h)

  pub insert_agree :
      (v : V) (w : W)
      → present s m ≡ present s n
      → present s (insert k v m) ≡ present s (insert k w n)
  insert_agree v w h = rw (present-insert k s v m, present-insert k s w n, h)

pub overwrite_present {ℓ} :
    {V : Type ℓ} (k s : ℕ) (v : V) (m : List (ℕ × V))
    → present k m ≡ true
    → present s (insert k v m) ≡ present s m
overwrite_present k s v m there = present-insert k s v m ∙ (elim (Bool-cases (k == s)) [
  | inl q ↦ let eq : k ≡ s = ==→eq k s q in rw (q, ← eq, there)
  | inr q ↦ rw q
])

pub not_empty {ℓ} : {V : Type ℓ} (s : ℕ) (m : List (ℕ × V)) → present s m ≡ true → m ≢ []
unfolding present find
not_empty s [] h e = absurd cc
not_empty s (x ∷ m) h e = absurd cc

pub some_member : (s : ℕ) (l : List ℕ) → member s l ≡ true → l ≢ []
unfolding member
some_member s [] h e = absurd cc
some_member s (x ∷ l) h e = absurd cc

pub surplus_nil {ℓ} : (V : Type ℓ) (l : List ℕ) → surplus {V = V} l [] ≡ []
unfolding surplus
surplus_nil V l = refl

-- A write into the map of a shard that is there returns, and changes that shard only.
pub put_inner-Returns {ℓ κ} :
    {K : Type ℓ} {V : Type κ} ⦃key : Key K⦄ (s : ℕ) (k : K) (v : V) (m : List (ℕ × List (K × V)))
    → present s m ≡ true
    → Returns (λ m'. (l : List (K × V)) × (m' ≡ insert s l m)) (put_inner s k v m)
unfolding put_inner
put_inner-Returns s k v m h =
    let (l, e) = present-some s m h in rw (put_inner, e) (returned (insert k v l, refl))

pub write-Returns :
    (method : Method) (op : Op) (db : List (ℕ × List (String × String)))
    → present op.shard db ≡ true
    → Returns
        (λ db'. (db' ≡ db) ⊎ ((l : List (String × String)) × (db' ≡ insert op.shard l db)))
        (write method op db)
unfolding write
write-Returns put op db h =
    Returns-mono (λ db' p. inr p) (put_inner-Returns op.shard op.key op.value db h)
write-Returns append op db h =
    let (l, e) = present-some op.shard db h in
    rw (write, e)
      (elim (Option-cases (find op.key l)) [
        | inl f ↦
            rw f (Returns-mono (λ db' p. inr p) (put_inner-Returns op.shard op.key op.value db h))
        | inr (v, f) ↦ rw f (
            Returns-mono (λ db' p. inr p)
              (put_inner-Returns op.shard op.key (append_text v op.value) db h))
      ])
write-Returns get op db h = returned (inl refl)
write-Returns nothing op db h = returned (inl refl)
