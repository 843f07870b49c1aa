-- ===== src/Raft/Cluster/Votes.antt =====
-- The peers of src/raft/raft.go together: the book of votes after a RequestVote.
use mit_raft.Base.{
  ℕ, leb_ℤ, ◌≡◌, refl, ap, ◌∙◌, inl, inr, true, ◌&&◌, pos, ◌≤ℤ◌, [], ◌∷◌, ◌++◌, some, length,
  get_elem?, set, get_elem?-last_cases, arith, Bool-cases, ok, Ensures-ok,
}
use mit_raft.Raft.Persister.{Codec}
use mit_raft.Raft.State.{Raft}
use mit_raft.Raft.Role.{Saved}
use mit_raft.Raft.Vote.{RequestVoteReply, request_vote}
use mit_raft.Raft.Node.{votes, step}
use mit_raft.Raft.Ballot.{Later}
use mit_raft.Raft.Ballot.Handlers.{request_vote-Steady}
use mit_raft.Raft.Cluster.{Running, Letter, Cluster}
use mit_raft.Raft.Cluster.Books.{
  Book, cast, Mailed, NodeGood, Good, Good-set, Steady-NodeGood, NodeGood-Grows,
}
use mit_raft.Raft.Cluster.Acts.{
  After, Grows-refl, cast-other, cast-there, cast-Grows, cast-Keeps, cast-only, step-inv,
}
use mit_raft.Raft.Cluster.Calls.{request_vote-Granted}

module _ {ℓ} {C B : Type ℓ} ⦃gob : Codec (Saved C) B⦄ where
  -- A reply is put on the network.
  mail-more :
      (book : Book) (cl : Cluster C B) (l : Letter)
      → Good book cl
      → Mailed book cl.elections l
      → Good book (record cl { letters = cl.letters ++ l ∷ [] })
  mail-more book cl l g fits = record {
    nodes = g.nodes;
    calls = g.calls;
    mail = λ m k h. elim (get_elem?-last_cases cl.letters m l k h) [
      | inl old ↦ g.mail m k old
      | inr same ↦ rw (← same) fits
    ];
  }

  refused-After :
      (book : Book) (cl : Cluster C B) (k j : ℕ) (r : Running) (s t : Raft C B)
      (reply : RequestVoteReply)
      → Good book cl
      → get_elem? cl.elections k ≡ some r
      → get_elem? cl.nodes j ≡ some s
      → NodeGood book (length cl.nodes) j t
      → (reply.vote_granted ≡ true → reply.term ≤ℤ r.election.request.term → ⊥)
      → After (record cl {
        nodes = set cl.nodes j t;
        letters = cl.letters ++ record { call = k; voter = j; reply = reply } ∷ [];
      })
  refused-After book cl k j r s t reply g call at node never = (
    book,
    mail-more book (record cl { nodes = set cl.nodes j t }) _
        (Good-set book book cl j s t g (Grows-refl book) (λ v u other. refl) at node)
        (r, call, λ granted now. absurd (never granted now)),
  )

  granted-After :
      (book : Book) (cl : Cluster C B) (k j : ℕ) (r : Running) (s t : Raft C B)
      (reply : RequestVoteReply)
      → Good book cl
      → get_elem? cl.elections k ≡ some r
      → get_elem? cl.nodes j ≡ some s
      → NodeGood book (length cl.nodes) j t
      → Later s t
      → t.current_term ≡ r.election.request.term
      → t.voted_for ≡ pos r.owner
      → After (record cl {
        nodes = set cl.nodes j t;
        letters = cl.letters ++ record { call = k; voter = j; reply = reply } ∷ [];
      })
  granted-After book cl k j r s t reply g call at node later now vote =
      let term = r.election.request.term in
      let next = cast j term r.owner book in
      let keeps = (g.nodes j s at).keeps in
      let grows =
        cast-Grows j term r.owner book (cast-only book j s t term r.owner keeps later now vote) in
      (
        next,
        mail-more next (record cl { nodes = set cl.nodes j t }) _
            (Good-set book next cl j s t g grows (cast-other j term r.owner book) at (
              NodeGood-Grows book next (length cl.nodes) j t grows node
                (cast-Keeps book j s t term r.owner keeps later now vote)))
            (r, call, λ granted timely. cast-there j term r.owner book),
      )

  pub answers-After :
      (book : Book) (cl : Cluster C B) (k j : ℕ) (r : Running) (s t : Raft C B)
      (reply : RequestVoteReply)
      → Good book cl
      → get_elem? cl.elections k ≡ some r
      → get_elem? cl.nodes j ≡ some s
      → request_vote r.election.request s ≡ ok (reply, t)
      → After (record cl {
        nodes = set cl.nodes j t;
        letters = cl.letters ++ record { call = k; voter = j; reply = reply } ∷ [];
      })
  unfolding step
  answers-After book cl k j r s t reply g call at h =
      let request = r.election.request in
      let node = g.nodes j s at in
      let steady = Ensures-ok (reply, t) (request_vote-Steady request s) h in
      let (from, vote) = Ensures-ok (reply, t) (request_vote-Granted request s) h in
      let candidate = (g.calls k r call).candidate in
      let ran : step s (votes request) ≡ ok t = rw h refl in
      let inv = step-inv s t (votes request) node.inv tt ran in
      let good = Steady-NodeGood book (length cl.nodes) j s t node inv steady in
      elim (Bool-cases (reply.vote_granted && leb_ℤ s.current_term request.term)) [
        | inl e ↦
            let (now, given) = vote (ground (arith, e)) (ground (arith, e)) in
            granted-After book cl k j r s t reply g call at good steady.0 now
              (given ∙ ap pos candidate)
        | inr e ↦
            refused-After book cl k j r s t reply g call at good
              λ granted now. ground (arith, e, from)
      ]
