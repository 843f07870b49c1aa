-- ===== src/Raft/Cluster/Acts.antt =====
-- The peers of src/raft/raft.go together: the book of votes after a peer's own event.
use mit_raft.Base.{
  ℕ, ◌≡◌, refl, sym, ap, subst, ◌∙◌, ◌⊎◌, inl, inr, false, ◌&&◌, ℤ, pos, suc_ℤ, lt-suc_ℤ, ◌==ℤ◌,
  ◌==◌, some, length, get_elem?, set, arith, ==→eq, ==_refl, ==ℤ→eq, ==ℤ_refl, Bool-cases, ok,
  Returns-ok, Ensures-ok,
}
use mit_raft.Raft.Persister.{Codec}
use mit_raft.Raft.State.{Raft}
use mit_raft.Raft.Role.{Saved, persist, convert_role_to}
use mit_raft.Raft.Election.{election_timeout}
use mit_raft.Raft.Node.{
  appended, voted, leading, timed_out, Event, appends, votes, installs, starts, wakes, kills,
  vote_replies, append_replies, snapshot_replies, takes, restarts, wake, step,
}
use mit_raft.Raft.Invariant.{Inv, Genuine}
use mit_raft.Raft.Invariant.Step.{step-Inv}
use mit_raft.Raft.Ballot.{Later, IsTimely}
use mit_raft.Raft.Ballot.Steps.{IsPassive, step-Steady}
use mit_raft.Raft.Cluster.{Cluster, IsOwn}
use mit_raft.Raft.Cluster.Books.{
  Book, cast, Grows, Keeps, NodeGood, Good, Good-set, Steady-NodeGood,
}

pub Grows-refl : (book : Book) → Grows book book
Grows-refl book v t c h = h

pub cast-other :
    (j : ℕ) (t : ℤ) (c : ℕ) (book : Book) (v : ℕ) (u : ℤ)
    → (v == j) ≡ false
    → cast j t c book v u ≡ book v u
cast-other j t c book v u h = rw h

pub cast-there : (j : ℕ) (t : ℤ) (c : ℕ) (book : Book) → cast j t c book j t ≡ some c
cast-there j t c book = rw (==_refl j, ==ℤ_refl t)

-- A vote goes into the book, if no other one of the peer in the term is there.
pub cast-Grows :
    (j : ℕ) (t : ℤ) (c : ℕ) (book : Book)
    → ((d : ℕ) → book j t ≡ some d → d ≡ c)
    → Grows book (cast j t c book)
cast-Grows j t c book only v u d h = elim (Bool-cases (v == j && u ==ℤ t)) [
  | inl e ↦
      let at : v ≡ j = ==→eq v j (ground (arith, e)) in
      let when : u ≡ t = ==ℤ→eq u t (ground (arith, e)) in
      let same : d ≡ c = only d (rw (← at, ← when) h) in rw (e, same)
  | inr e ↦ rw (e, h)
]

module _ {ℓ} {C B : Type ℓ} ⦃gob : Codec (Saved C) B⦄ where
  -- The vote is the peer's own one, in its present term.
  pub cast-Keeps :
      (book : Book) (i : ℕ) (s t : Raft C B) (term : ℤ) (c : ℕ)
      → Keeps book i s
      → Later s t
      → t.current_term ≡ term
      → t.voted_for ≡ pos c
      → Keeps (cast i term c book) i t
  cast-Keeps book i s t term c keeps later now vote u d h =
      elim (Bool-cases (i == i && u ==ℤ term)) [
        | inl e ↦
            let when : u ≡ term = ==ℤ→eq u term (ground (arith, e)) in
            let same : some c ≡ some d = rw e at h in
            let is : c ≡ d = cc in inr (when ∙ sym now, vote ∙ ap pos is)
        | inr e ↦ let old : book i u ≡ some d = rw e at h in ground (arith, keeps u d old, later)
      ]

  pub cast-only :
      (book : Book) (i : ℕ) (s t : Raft C B) (term : ℤ) (c : ℕ)
      → Keeps book i s
      → Later s t
      → t.current_term ≡ term
      → t.voted_for ≡ pos c
      → (d : ℕ) → book i term ≡ some d
      → d ≡ c
  cast-only book i s t term c keeps later now vote d h = ground (arith, keeps term d h, later)

  -- What a move leaves: the same book, or one with one vote more.
  abbrev pub After : Cluster C B → Type ℓ
  After cl = (b : Book) × Good b cl

  pub step-inv : (s t : Raft C B) (e : Event C B) → Inv s → Genuine s e → step s e ≡ ok t → Inv t
  step-inv s t e i g h = Returns-ok t (step-Inv s e i g) h

  candidate-NodeGood :
      (book : Book) (n i : ℕ) (s : Raft C B)
      → NodeGood book n i s
      → Inv (wake timed_out s)
      → NodeGood (cast i (suc_ℤ s.current_term) i book) n i (wake timed_out s)
  unfolding wake election_timeout convert_role_to persist
  candidate-NodeGood book n i s g inv = record {
    inv = inv;
    me = g.me;
    peers = g.peers;
    keeps =
        cast-Keeps book i s (wake timed_out s) (suc_ℤ s.current_term) i g.keeps
          (inl (lt-suc_ℤ s.current_term)) refl (ap pos g.me);
    runs = inr (cast-there i (suc_ℤ s.current_term) i book);
    wins = λ h. absurd cc;
  }

  new_term :
      (book : Book) (i : ℕ) (s : Raft C B)
      → Keeps book i s
      → (d : ℕ) → book i (suc_ℤ s.current_term) ≡ some d
      → d ≡ i
  new_term book i s keeps d h =
      ground (arith, keeps (suc_ℤ s.current_term) d h, lt-suc_ℤ s.current_term)

  timed_out-After :
      (book : Book) (cl : Cluster C B) (i : ℕ) (s : Raft C B)
      → Good book cl
      → get_elem? cl.nodes i ≡ some s
      → After (record cl { nodes = set cl.nodes i (wake timed_out s) })
  unfolding step
  timed_out-After book cl i s g at =
      let node = g.nodes i s at in
      let term = suc_ℤ s.current_term in
      (
        cast i term i book,
        Good-set book (cast i term i book) cl i s (wake timed_out s) g
            (cast-Grows i term i book (new_term book i s node.keeps)) (cast-other i term i book) at
            (candidate-NodeGood book (length cl.nodes) i s node
              (step-inv s (wake timed_out s) (wakes timed_out) node.inv tt refl)),
      )

  passive-After :
      (book : Book) (cl : Cluster C B) (i : ℕ) (s t : Raft C B) (e : Event C B)
      → Good book cl
      → get_elem? cl.nodes i ≡ some s
      → IsPassive e
      → Genuine s e
      → IsTimely s e
      → step s e ≡ ok t
      → After (record cl { nodes = set cl.nodes i t })
  passive-After book cl i s t e g at passive genuine timely h =
      let node = g.nodes i s at in
      (
        book,
        Good-set book book cl i s t g (Grows-refl book) (λ v u other. refl) at
            (Steady-NodeGood book (length cl.nodes) i s t node (step-inv s t e node.inv genuine h)
              (Ensures-ok t (step-Steady s e passive node.inv timely) h)),
      )

  own_cases : (e : Event C B) → IsOwn e → IsPassive e ⊎ (e ≡ wakes timed_out)
  own_cases (wakes timed_out) own = inr refl
  own_cases (wakes appended) own = inl tt
  own_cases (wakes voted) own = inl tt
  own_cases (wakes leading) own = inl tt
  own_cases (votes args) own = absurd own
  own_cases (vote_replies el reply) own = absurd own
  own_cases (appends args) own = inl tt
  own_cases (installs args) own = inl tt
  own_cases (starts c) own = inl tt
  own_cases kills own = inl tt
  own_cases (append_replies bc server args reply) own = inl tt
  own_cases (snapshot_replies arg server reply) own = inl tt
  own_cases (takes raw applied_id term) own = inl tt
  own_cases restarts own = inl tt

  pub acts-After :
      (book : Book) (cl : Cluster C B) (i : ℕ) (s t : Raft C B) (e : Event C B)
      → Good book cl
      → IsOwn e
      → get_elem? cl.nodes i ≡ some s
      → Genuine s e
      → IsTimely s e
      → step s e ≡ ok t
      → After (record cl { nodes = set cl.nodes i t })
  unfolding step
  acts-After book cl i s t e g own at genuine timely h = elim (own_cases e own) [
    | inl passive ↦ passive-After book cl i s t e g at passive genuine timely h
    | inr late ↦
        let ran : step s (wakes timed_out) ≡ ok t = rw late at h in
        let same : wake timed_out s ≡ t = cc in
        subst (λ r. After (record cl { nodes = set cl.nodes i r })) same
          (timed_out-After book cl i s g at)
  ]
