-- ===== src/Raft/Append/Match.antt =====
-- The loop of AppendEntries over the leader's entries (src/raft/raft.go), as a function on logs.
use mit_raft.Base.{
  ℕ, zero, suc, ◌+◌, ◌≤◌, ◌<◌, ◌≡◌, refl, sym, ap, ◌∙◌, false, ◌==ℤ◌, List, [], ◌∷◌, ◌++◌, none,
  some, length, get_elem?, take, length-append, length-take, get_elem?-append_left,
  get_elem?-append_right, get_elem?-take, get_elem?-lt, get_elem?-some, dec_lt, ==ℤ→eq, ==ℤ_refl,
  Bool-cases, Option-cases, inl, inr, arith,
}
use mathlib.Core.Bool.{false≢true}
use mit_raft.Raft.State.{Entries}
use mit_raft.Raft.Append.{merge}

module _ {ℓ} {C : Type ℓ} where
  -- From position `ind` on, the log has an entry related by `P` to each of `es`.
  abbrev pub FollowsBy {κ} :
      (Entries C → Entries C → Type κ) → List (Entries C) → ℕ → List (Entries C) → Type (ℓ ⊔ κ)
  FollowsBy P logs ind es =
      (k : ℕ) (e : Entries C)
      → get_elem? es k ≡ some e
      → (x : Entries C) × (get_elem? logs (ind + k) ≡ some x) × P x e

  -- An entry of the same term for each of `es`.
  abbrev pub Follows : List (Entries C) → ℕ → List (Entries C) → Type ℓ
  Follows = FollowsBy (λ x e. x.term ≡ e.term)

  -- Where a log and the entries have the same term at the same place, they are related by `P`.
  abbrev pub Coherent {κ} :
      (Entries C → Entries C → Type κ) → List (Entries C) → ℕ → List (Entries C) → Type (ℓ ⊔ κ)
  Coherent P logs ind es =
      (k : ℕ) (x e : Entries C)
      → get_elem? logs (ind + k) ≡ some x
      → get_elem? es k ≡ some e
      → x.term ≡ e.term
      → P x e

  -- How `merge` goes on at one entry.
  pub merge_cases {κ} :
      (P : List (Entries C) → Type κ) (logs : List (Entries C)) (ind : ℕ) (e : Entries C)
      (es : List (Entries C))
      → (get_elem? logs ind ≡ none → P (logs ++ e ∷ es))
      → ((x : Entries C)
          → get_elem? logs ind ≡ some x
          → x.term ≡ e.term
          → P (merge logs (ind + 1) es))
      → ((x : Entries C)
          → get_elem? logs ind ≡ some x
          → (x.term ==ℤ e.term) ≡ false
          → P (take ind logs ++ e ∷ es))
      → P (merge logs ind (e ∷ es))
  unfolding merge
  merge_cases P logs ind e es missing same differs = elim (Option-cases (get_elem? logs ind)) [
    | inl q ↦ rw (q, merge) (missing q)
    | inr (x, q) ↦ elim (Bool-cases (x.term ==ℤ e.term)) [
      | inl t ↦ rw (q, merge, t) (same x q (==ℤ→eq _ _ t))
      | inr t ↦ rw (q, merge, t) (differs x q t)
    ]
  ]

  shift :
      (logs : List (Entries C)) (i k : ℕ) → get_elem? logs (i + 1 + k) ≡ get_elem? logs (i + suc k)
  shift logs i k = ap (get_elem? logs) (omega arith)

  -- What was in the log before `ind` stays.
  pub merge_below :
      (logs : List (Entries C)) (ind : ℕ) (es : List (Entries C)) (i : ℕ)
      → ind ≤ length logs
      → i < ind
      → get_elem? (merge logs ind es) i ≡ get_elem? logs i
  unfolding merge
  merge_below logs ind [] i h lt = refl
  merge_below logs ind (e ∷ es) i h lt =
      merge_cases (λ l. get_elem? l i ≡ get_elem? logs i) logs ind e es
        (λ q. get_elem?-append_left logs _ i (omega arith))
        (λ x q t.
          merge_below logs (ind + 1) es i (omega (arith, get_elem?-lt logs ind q)) (omega arith))
        (λ x q t.
          get_elem?-append_left (take ind logs) _ i (omega (arith, length-take ind logs))
          ∙ get_elem?-take ind logs i lt)

  append-FollowsBy {κ} :
      (P : Entries C → Entries C → Type κ) (refl' : (e : Entries C) → P e e) (l : List (Entries C))
      (es : List (Entries C)) (ind : ℕ)
      → length l ≡ ind
      → FollowsBy P (l ++ es) ind es
  append-FollowsBy P refl' l es ind h k e q =
      (e, rw (← h) (get_elem?-append_right l es k ∙ q), refl' e)

  -- After the loop the log has, at the place of each entry, a related one.
  pub merge-FollowsBy {κ} :
      (P : Entries C → Entries C → Type κ)
      → ((e : Entries C) → P e e)
      → (logs : List (Entries C)) (ind : ℕ) (es : List (Entries C)) → ind ≤ length logs
      → Coherent P logs ind es
      → FollowsBy P (merge logs ind es) ind es
  merge-FollowsBy P refl' logs ind [] h c = λ k e q. cc
  merge-FollowsBy P refl' logs ind (a ∷ es) h c =
      merge_cases (λ l. FollowsBy P l ind (a ∷ es)) logs ind a es
        (λ q. append-FollowsBy P refl' logs (a ∷ es) ind (omega (arith, end q)))
        (λ x q t. same x q t (
          merge-FollowsBy P refl' logs (ind + 1) es (omega (arith, get_elem?-lt logs ind q))
            (λ k y e r s. c (suc k) y e (sym (shift logs ind k) ∙ r) s)))
        (λ x q t.
          append-FollowsBy P refl' (take ind logs) (a ∷ es) ind
            (omega (arith, length-take ind logs)))
    where
      end : get_elem? logs ind ≡ none → length logs ≤ ind
      end q = elim (dec_lt ind (length logs)) [
        | yes lt ↦ let (x, p) = get_elem?-some logs ind lt in absurd (cc)
        | no ge ↦ omega arith
      ]

      same :
          (x : Entries C)
          → get_elem? logs ind ≡ some x
          → x.term ≡ a.term
          → FollowsBy P (merge logs (ind + 1) es) (ind + 1) es
          → FollowsBy P (merge logs (ind + 1) es) ind (a ∷ es)
      same x q t rest zero e r =
          let here : ind + 0 ≡ ind = omega arith in
          let first : a ≡ e = cc in
          (
            x,
            rw here (
                merge_below logs (ind + 1) es ind (omega (arith, get_elem?-lt logs ind q))
                  (omega arith)
                ∙ q),
            rw first at (c zero x a (rw here q) refl t),
          )
      same x q t rest (suc k) e r =
          let (y, found, related) = rest k e r in
          (y, sym (shift (merge logs (ind + 1) es) ind k) ∙ found, related)

  -- A log that follows the entries is left as it is.
  pub merge_of_Follows :
      (logs : List (Entries C)) (ind : ℕ) (es : List (Entries C))
      → Follows logs ind es
      → merge logs ind es ≡ logs
  unfolding merge
  merge_of_Follows logs ind [] f = refl
  merge_of_Follows logs ind (e ∷ es) f =
      merge_cases (λ l. l ≡ logs) logs ind e es (λ q. absurd (let (x, p, t) = first in cc))
        (λ x q t.
          merge_of_Follows logs (ind + 1) es
            (λ k a r. let (y, p, s) = f (suc k) a r in (y, shift logs ind k ∙ p, s)))
        (λ x q t.
          let (y, p, s) = first in
          let same : y ≡ x = cc in
          let agree : x.term ≡ e.term = rw same at s in
          absurd (false≢true (sym t ∙ rw agree (==ℤ_refl e.term))))
    where
      first : (x : Entries C) × (get_elem? logs ind ≡ some x) × (x.term ≡ e.term)
      first =
          let (x, p, s) = f 0 e refl in
          let here : ind + 0 ≡ ind = omega arith in (x, rw here at p, s)

  -- The log ends no earlier than the entries.
  pub length-merge :
      (logs : List (Entries C)) (ind : ℕ) (es : List (Entries C))
      → ind ≤ length logs
      → ind + length es ≤ length (merge logs ind es)
  unfolding merge
  length-merge logs ind [] h = omega arith
  length-merge logs ind (e ∷ es) h =
      merge_cases (λ l. ind + suc (length es) ≤ length l) logs ind e es
        (λ q. omega (arith, length-append logs (e ∷ es)))
        (λ x q t.
          omega (arith, length-merge logs (ind + 1) es (omega (arith, get_elem?-lt logs ind q))))
        (λ x q t. omega (arith, length-append (take ind logs) (e ∷ es), length-take ind logs))

  -- A position up to which the entries contradict nothing stays in the log.
  pub merge_keeps :
      (logs : List (Entries C)) (ind c : ℕ) (es : List (Entries C))
      → c < length logs
      → ((k : ℕ) (x e : Entries C)
          → get_elem? logs (ind + k) ≡ some x
          → get_elem? es k ≡ some e
          → ind + k ≤ c
          → x.term ≡ e.term)
      → c < length (merge logs ind es)
  unfolding merge
  merge_keeps logs ind c [] h f = h
  merge_keeps logs ind c (e ∷ es) h f =
      merge_cases (λ l. c < length l) logs ind e es
        (λ q. omega (arith, length-append logs (e ∷ es)))
        (λ x q t.
          merge_keeps logs (ind + 1) c es h
            (λ k y a r s b. f (suc k) y a (sym (shift logs ind k) ∙ r) s (omega arith)))
        (λ x q t.
          let later : c < ind = elim (dec_lt c ind) [
            | yes p ↦ p
            | no p ↦
                let here : ind + 0 ≡ ind = omega arith in
                let agree : x.term ≡ e.term = f 0 x e (rw here q) refl (omega arith) in
                absurd (false≢true (sym t ∙ rw agree (==ℤ_refl e.term)))
          ] in
          omega (
            arith,
            length-append (take ind logs) (e ∷ es),
            length-take ind logs,
            get_elem?-lt logs ind q,
          ))

  -- The loop of AppendEntries that merges entries into the log is idempotent, so a request
  -- delivered twice leaves the log of the first delivery, at a position not past the end of the
  -- log.
  pub merge-merge :
      (logs : List (Entries C)) (ind : ℕ) (es : List (Entries C))
      → ind ≤ length logs
      → merge (merge logs ind es) ind es ≡ merge logs ind es
  merge-merge logs ind es h =
      merge_of_Follows (merge logs ind es) ind es
        (merge-FollowsBy (λ x e. x.term ≡ e.term) (λ e. refl) logs ind es h (λ k x e p q t. t))

  pub merge_empty :
      (logs : List (Entries C)) (ind : ℕ) (es : List (Entries C))
      → length es ≡ 0
      → merge logs ind es ≡ logs
  unfolding merge
  merge_empty logs ind [] h = refl
  merge_empty logs ind (e ∷ es) h = absurd (omega arith)
