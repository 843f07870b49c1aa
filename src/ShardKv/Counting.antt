-- ===== src/ShardKv/Counting.antt =====
-- src/shardkv/server.go: the shards that parseCfg counts.
use mit_raft.Base.{
  ◌∙◌, ℕ, suc, ◌<◌, ◌≡◌, refl, true, false, ◌||◌, List, [], ◌∷◌, length, ◌==◌, arith, Bool-cases,
  inl, inr, find, insert, delete, present, member, Unique, nat_key, ==→eq, ==_refl, present-insert,
  present-delete,
}
use mit_raft.ShardKv.Apply.{owned, surplus, init_all}

-- No key stands twice.
unfoldable pub Distinct {ℓ} : {V : Type ℓ} → List (ℕ × V) → Type ℓ
Distinct [] = Unit
Distinct ((s, v) ∷ m) = (present s m ≡ false) × Distinct m

member-owned : (gid s : ℕ) (l : List ℕ) (x : ℕ) → x < s → member x (owned gid s l) ≡ false
unfolding member owned
member-owned gid s [] x h = refl
member-owned gid s (g ∷ l) x h =
    let ih : member x (owned gid (suc s) l) ≡ false = member-owned gid (suc s) l x (omega arith) in
    let other : (s == x) ≡ false = ground arith in
    elim (Bool-cases (g == gid)) [ inl e ↦ rw (e, other, ih) | inr e ↦ rw (e, ih) ]

pub owned-Unique : (gid s : ℕ) (l : List ℕ) → Unique (owned gid s l)
unfolding owned Unique
owned-Unique gid s [] = tt
owned-Unique gid s (g ∷ l) = elim (Bool-cases (g == gid)) [
  | inl e ↦ rw e (member-owned gid (suc s) l s (omega arith), owned-Unique gid (suc s) l)
  | inr e ↦ rw e (owned-Unique gid (suc s) l)
]

module _ {ℓ} {V : Type ℓ} where
  pub insert-Distinct : (s : ℕ) (v : V) (m : List (ℕ × V)) → Distinct m → Distinct (insert s v m)
  unfolding insert Distinct present find
  insert-Distinct s v [] d = (refl, tt)
  insert-Distinct s v ((t, w) ∷ m) (first, d) = elim (Bool-cases (t == s)) [
    | inl e ↦
        let eq : t ≡ s = ==→eq t s e in
        let out : present s m ≡ false = rw eq at first in rw e (out, d)
    | inr e ↦
        let other : (s == t) ≡ false = ground arith in
        rw e (present-insert s t v m ∙ (rw (other, first)), insert-Distinct s v m d)
  ]

  absent-delete : (s : ℕ) (m : List (ℕ × V)) → present s m ≡ false → delete s m ≡ m
  unfolding delete present find
  absent-delete s [] h = refl
  absent-delete s ((t, w) ∷ m) h = elim (Bool-cases (t == s)) [
    | inl e ↦ let bad : true ≡ false = rw (present, find, e) at h in absurd cc
    | inr e ↦
        let out : present s m ≡ false = rw (present, find, e) at h in
        let ih : delete s m ≡ m = absent-delete s m out in rw (e, ih)
  ]

  present-delete_absent :
      (s t : ℕ) (m : List (ℕ × V)) → present t m ≡ false → present t (delete s m) ≡ false
  present-delete_absent s t m h =
      present-delete s t m ∙ (elim (Bool-cases (s == t)) [ inl e ↦ rw e | inr e ↦ rw (e, h) ])

  pub delete-Distinct : (s : ℕ) (m : List (ℕ × V)) → Distinct m → Distinct (delete s m)
  unfolding delete Distinct
  delete-Distinct s [] d = tt
  delete-Distinct s ((t, w) ∷ m) (first, d) = elim (Bool-cases (t == s)) [
    | inl e ↦ rw e (delete-Distinct s m d)
    | inr e ↦ rw e (present-delete_absent s t m first, delete-Distinct s m d)
  ]

  pub surplus-delete :
      (shards : List ℕ) (s : ℕ) (m : List (ℕ × V))
      → Distinct m
      → present s m ≡ true
      → member s shards ≡ false
      → suc (length (surplus shards (delete s m))) ≡ length (surplus shards m)
  unfolding surplus delete Distinct present find
  surplus-delete shards s [] d h out = absurd cc
  surplus-delete shards s ((t, w) ∷ m) (first, d) h out = elim (Bool-cases (t == s)) [
    | inl e ↦
        let eq : t ≡ s = ==→eq t s e in
        let gone : present s m ≡ false = rw eq at first in
        let same : delete s m ≡ m = absent-delete s m gone in
        let free : member t shards ≡ false = rw eq out in rw (e, free, same)
    | inr e ↦
        let there : present s m ≡ true = rw (present, find, e) at h in
        let ih : suc (length (surplus shards (delete s m))) ≡ length (surplus shards m) =
          surplus-delete shards s m d there out in
        rw e (elim (Bool-cases (member t shards)) [ inl p ↦ rw (p, ih) | inr p ↦ rw (p, ih) ])
  ]

  -- To write a shard that is held adds none to send.
  pub surplus-insert :
      (shards : List ℕ) (s : ℕ) (v : V) (m : List (ℕ × V))
      → member s shards ≡ true
      → surplus shards (insert s v m) ≡ surplus shards m
  unfolding surplus insert
  surplus-insert shards s v [] h = rw h
  surplus-insert shards s v ((t, w) ∷ m) h = elim (Bool-cases (t == s)) [
    | inl e ↦
        let eq : t ≡ s = ==→eq t s e in
        let held : member t shards ≡ true = rw eq h in rw (e, h, held)
    | inr e ↦
        let ih : surplus shards (insert s v m) ≡ surplus shards m = surplus-insert shards s v m h in
        rw (e, ih)
  ]

  pub surplus-held :
      (shards : List ℕ) (m : List (ℕ × V))
      → surplus shards m ≡ []
      → (s : ℕ) → present s m ≡ true
      → member s shards ≡ true
  unfolding surplus present find
  surplus-held shards [] e s h = absurd cc
  surplus-held shards ((t, w) ∷ m) e s h = elim (Bool-cases (member t shards)) [
    | inl p ↦ elim (Bool-cases (t == s)) [
      | inl same ↦ let eq : t ≡ s = ==→eq t s same in rw (← eq) p
      | inr other ↦
          let tail : surplus shards m ≡ [] = rw (surplus, p) at e in
          let there : present s m ≡ true = rw (present, find, other) at h in
          surplus-held shards m tail s there
    ]
    | inr p ↦ let bad : t ∷ surplus shards m ≡ [] = rw (surplus, p) at e in absurd cc
  ]

  pub surplus-none :
      (shards : List ℕ) (m : List (ℕ × V))
      → ((s : ℕ) → present s m ≡ true → member s shards ≡ true)
      → surplus shards m ≡ []
  unfolding surplus present find
  surplus-none shards [] h = refl
  surplus-none shards ((t, w) ∷ m) h =
      let held : member t shards ≡ true = h t (rw (present, find, ==_refl t)) in
      let tail : surplus shards m ≡ [] = surplus-none shards m λ s e.
        h s (elim (Bool-cases (t == s)) [
          | inl p ↦ rw (present, find, p)
          | inr p ↦ rw (present, find, p) e
        ]) in
      rw (held, tail)

module _ {ℓ} {A : Type ℓ} where
  pub present-init_all :
      (l : List ℕ) (m : List (ℕ × List A)) (x : ℕ)
      → present x (init_all l m) ≡ (member x l || present x m)
  unfolding init_all member
  present-init_all [] m x = refl
  present-init_all (s ∷ l) m x =
      present-init_all l (insert s [] m) x
      ∙ rw (present-insert s x [] m) (elim (Bool-cases (s == x)) [
        | inl e ↦ rw e (elim (Bool-cases (member x l)) [ inl p ↦ rw p | inr p ↦ rw p ])
        | inr e ↦ rw e
      ])

  pub init_all-Distinct :
      (l : List ℕ) (m : List (ℕ × List A)) → Distinct m → Distinct (init_all l m)
  unfolding init_all
  init_all-Distinct [] m d = d
  init_all-Distinct (s ∷ l) m d = init_all-Distinct l (insert s [] m) (insert-Distinct s [] m d)

  pub surplus-init_all :
      (shards l : List ℕ) (m : List (ℕ × List A))
      → ((x : ℕ) → member x l ≡ true → member x shards ≡ true)
      → surplus shards (init_all l m) ≡ surplus shards m
  unfolding init_all member
  surplus-init_all shards [] m h = refl
  surplus-init_all shards (s ∷ l) m h =
      surplus-init_all shards l (insert s [] m)
        (λ x e. h x (elim (Bool-cases (s == x)) [ inl same ↦ rw same | inr other ↦ rw (other, e) ]))
      ∙ surplus-insert shards s [] m (h s (rw (==_refl s)))
