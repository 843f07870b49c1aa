-- ===== src/Raft/Cluster/Books.antt =====
-- The peers of src/raft/raft.go together: who has voted for whom, as a book of all votes, and what
-- it has to do with the peers, the running elections and the replies on the network.
use mit_raft.Base.{
  ℕ, ◌+◌, ◌/◌, ◌<◌, ◌≡◌, sym, ◌∙◌, ◌⊎◌, inl, inr, true, false, ◌&&◌, ℤ, pos, ◌≤ℤ◌, ◌<ℤ◌, ◌==ℤ◌,
  ◌==◌, List, Option, some, length, length-set, get_elem?, set, get_elem?-set_cases, member, Unique,
  arith, if◌then◌else◌,
}
use mit_raft.Raft.Persister.{Codec}
use mit_raft.Raft.State.{Raft, leader, follower}
use mit_raft.Raft.Role.{Saved}
use mit_raft.Raft.Invariant.{Inv}
use mit_raft.Raft.Ballot.{Steady}
use mit_raft.Raft.Cluster.{Running, Letter, Cluster}

-- The candidate, if any, that a peer has voted for in a term.
abbrev pub Book : Type 0
Book = ℕ → ℤ → Option ℕ

abbrev pub cast : ℕ → ℤ → ℕ → Book → Book
cast j t c book v u = if v == j && u ==ℤ t then some c else book v u

abbrev pub Grows : Book → Book → Type 0
Grows a b = (v : ℕ) (t : ℤ) (c : ℕ) → a v t ≡ some c → b v t ≡ some c

-- More than half of the `n` peers have voted for `i`.
pub record Chosen (book : Book) (n i : ℕ) (t : ℤ) : Type 0 where
  pub voters : List ℕ
  pub distinct : Unique voters
  pub voted : (v : ℕ) → member v voters ≡ true → (v < n) × (book v t ≡ some i)
  pub most : n / 2 < length voters

-- Of a running election: who has been counted, beside the candidate itself.
pub record Counted (book : Book) (n : ℕ) (r : Running) : Type 0 where
  pub candidate : r.election.request.candidate_id ≡ r.owner
  pub voters : List ℕ
  pub distinct : Unique voters
  pub voted :
      (v : ℕ)
      → member v voters ≡ true
      → (v < n) × (book v r.election.request.term ≡ some r.owner) × (member v r.waiting ≡ false)
  pub others : (v : ℕ) → member v r.waiting ≡ true → (v < n) × ((r.owner == v) ≡ false)
  pub count : r.election.vote_cnt ≡ length voters + 1
  pub self : member r.owner voters ≡ false

-- A reply that counts in its election is a vote.
abbrev pub Mailed : Book → List Running → Letter → Type 0
Mailed book elections l =
    (r : Running) × (get_elem? elections l.call ≡ some r)
    × (l.reply.vote_granted ≡ true
        → l.reply.term ≤ℤ r.election.request.term
        → book l.voter r.election.request.term ≡ some r.owner)

Chosen-Grows : (a b : Book) (n i : ℕ) (t : ℤ) → Grows a b → Chosen a n i t → Chosen b n i t
Chosen-Grows a b n i t grows c = record {
  voters = c.voters;
  distinct = c.distinct;
  voted = λ v h. let (low, vote) = c.voted v h in (low, grows v t i vote);
  most = c.most;
}

pub Counted-Grows : (a b : Book) (n : ℕ) (r : Running) → Grows a b → Counted a n r → Counted b n r
Counted-Grows a b n r grows c = record {
  candidate = c.candidate;
  voters = c.voters;
  distinct = c.distinct;
  voted = λ v h.
      let (low, vote, out) = c.voted v h in
      (low, grows v r.election.request.term r.owner vote, out);
  others = c.others;
  count = c.count;
  self = c.self;
}

Mailed-Grows :
    (a b : Book) (es : List Running) (l : Letter) → Grows a b → Mailed a es l → Mailed b es l
Mailed-Grows a b es l grows (r, at, vote) =
    (r, at, λ g h. grows l.voter r.election.request.term r.owner (vote g h))

module _ {ℓ} {C B : Type ℓ} ⦃gob : Codec (Saved C) B⦄ where
  -- The votes of the peer `i`, by the book and in its state.
  abbrev pub Keeps : Book → ℕ → Raft C B → Type 0
  Keeps book i rf =
      (t : ℤ) (c : ℕ)
      → book i t ≡ some c
      → (t <ℤ rf.current_term) ⊎ ((t ≡ rf.current_term) × (rf.voted_for ≡ pos c))

  pub record NodeGood (book : Book) (n i : ℕ) (rf : Raft C B) : Type ℓ where
    pub inv : Inv rf
    pub me : rf.me ≡ i
    pub peers : rf.peers ≡ n
    pub keeps : Keeps book i rf
    pub runs : (rf.role ≡ follower) ⊎ (book i rf.current_term ≡ some i)
    pub wins : rf.role ≡ leader → Chosen book n i rf.current_term

  pub record Good (book : Book) (cl : Cluster C B) : Type ℓ where
    pub nodes :
        (i : ℕ) (rf : Raft C B)
        → get_elem? cl.nodes i ≡ some rf
        → NodeGood book (length cl.nodes) i rf
    pub calls :
        (k : ℕ) (r : Running) → get_elem? cl.elections k ≡ some r → Counted book (length cl.nodes) r
    pub mail : (m : ℕ) (l : Letter) → get_elem? cl.letters m ≡ some l → Mailed book cl.elections l

  -- A bigger book, in which the peer's own page is still right.
  pub NodeGood-Grows :
      (a b : Book) (n i : ℕ) (rf : Raft C B)
      → Grows a b
      → NodeGood a n i rf
      → Keeps b i rf
      → NodeGood b n i rf
  NodeGood-Grows a b n i rf grows g keeps = record {
    inv = g.inv;
    me = g.me;
    peers = g.peers;
    keeps = keeps;
    runs = elim g.runs [ inl f ↦ inl f | inr v ↦ inr (grows i rf.current_term i v) ];
    wins = λ h. Chosen-Grows a b n i rf.current_term grows (g.wins h);
  }

  -- One peer changes, and only its own page of the book.
  pub Good-set :
      (a b : Book) (cl : Cluster C B) (j : ℕ) (s t : Raft C B)
      → Good a cl
      → Grows a b
      → ((v : ℕ) (u : ℤ) → (v == j) ≡ false → b v u ≡ a v u)
      → get_elem? cl.nodes j ≡ some s
      → NodeGood b (length cl.nodes) j t
      → Good b (record cl { nodes = set cl.nodes j t })
  Good-set a b cl j s t g grows same at good =
      let size : length (set cl.nodes j t) ≡ length cl.nodes = length-set cl.nodes j t in
      record {
        nodes = λ i rf h. rw size (elim (get_elem?-set_cases cl.nodes j i t s rf at h) [
          | inl (place, is) ↦ rw (← place, ← is) good
          | inr (other, found) ↦
              let node = g.nodes i rf found in
              NodeGood-Grows a b (length cl.nodes) i rf grows node
                (λ u c k. node.keeps u c (sym (same i u other) ∙ k))
        ]);
        calls = λ k r h. rw size (Counted-Grows a b (length cl.nodes) r grows (g.calls k r h));
        mail = λ m l h. Mailed-Grows a b cl.elections l grows (g.mail m l h);
      }

  -- A peer that stays in its role, or becomes a follower, with the same book.
  pub Steady-NodeGood :
      (book : Book) (n i : ℕ) (s t : Raft C B)
      → NodeGood book n i s
      → Inv t
      → Steady s t
      → NodeGood book n i t
  Steady-NodeGood book n i s t g inv (later, (same_me, same_peers, role)) = record {
    inv = inv;
    me = same_me ∙ g.me;
    peers = same_peers ∙ g.peers;
    keeps = λ u c h. ground (arith, g.keeps u c h, later);
    runs = elim role [
      | inl f ↦ inl f
      | inr (r, u) ↦ elim g.runs [ inl f ↦ inl (r ∙ f) | inr v ↦ inr (rw u v) ]
    ];
    wins = λ h. elim role [ inl f ↦ absurd cc | inr (r, u) ↦ rw u (g.wins (sym r ∙ h)) ];
  }
