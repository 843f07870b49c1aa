-- ===== src/Raft/Cluster/Counts.antt =====
-- The peers of src/raft/raft.go together: the book of votes while elections run and replies are
-- counted.
use mit_raft.Base.{
  ℕ, ◌/◌, ◌<◌, ◌≡◌, refl, sym, ap, subst, ◌∙◌, inl, inr, true, false, ◌≤ℤ◌, ◌==◌, [], ◌∷◌, ◌++◌,
  some, length, get_elem?, set, get_elem?-set_cases, get_elem?-last_cases, get_elem?-more,
  get_elem?-lt, member, remove, below, member-remove, member-below, Unique, arith, ok, Ensures-ok,
}
use mit_raft.Raft.Persister.{Codec}
use mit_raft.Raft.State.{Raft, candidate}
use mit_raft.Raft.Role.{Saved}
use mit_raft.Raft.Election.{Election, leader_election, vote_reply}
use mit_raft.Raft.Node.{vote_replies, step}
use mit_raft.Raft.Invariant.{Inv}
use mit_raft.Raft.Cluster.{Running, Letter, Cluster}
use mit_raft.Raft.Cluster.Books.{Book, Counted, NodeGood, Good, Good-set}
use mit_raft.Raft.Cluster.Acts.{After, Grows-refl, step-inv}
use mit_raft.Raft.Cluster.Calls.{leader_election-first, Scored, Promoted, vote_reply-cases}
use mit_raft.Raft.Cluster.Tally.{
  Alike, set-Alike, Mailed-Alike, Counted-fewer, Counted-one, Counted-Chosen,
}

module _ {ℓ} {C B : Type ℓ} ⦃gob : Codec (Saved C) B⦄ where
  -- Only the election `k` changes.
  Good-call :
      (book : Book) (cl : Cluster C B) (k : ℕ) (r q : Running)
      → Good book cl
      → get_elem? cl.elections k ≡ some r
      → Alike r q
      → Counted book (length cl.nodes) q
      → Good book (record cl { elections = set cl.elections k q })
  Good-call book cl k r q g at alike counted = record {
    nodes = g.nodes;
    calls = λ m x h. elim (get_elem?-set_cases cl.elections k m q r x at h) [
      | inl (place, is) ↦ rw (← is) counted
      | inr (other, old) ↦ g.calls m x old
    ];
    mail = λ m l h.
        Mailed-Alike book cl.elections (set cl.elections k q) l
          (set-Alike cl.elections k r q at alike) (g.mail m l h);
  }

  pub sends-After :
      (book : Book) (cl : Cluster C B) (k j : ℕ) (r : Running)
      → Good book cl
      → get_elem? cl.elections k ≡ some r
      → After (record cl { elections = set cl.elections k (record r { sent = j ∷ r.sent }) })
  unfolding Alike
  sends-After book cl k j r g at =
      let c = g.calls k r at in
      (
        book,
        Good-call book cl k r (record r { sent = j ∷ r.sent }) g at (refl, refl)
            (record {
              candidate = c.candidate;
              voters = c.voters;
              distinct = c.distinct;
              voted = c.voted;
              others = c.others;
              count = c.count;
              self = c.self;
            }),
      )

  Good-started :
      (book : Book) (cl : Cluster C B) (r : Running)
      → Good book cl
      → Counted book (length cl.nodes) r
      → Good book (record cl { elections = cl.elections ++ r ∷ [] })
  unfolding Alike
  Good-started book cl r g counted = record {
    nodes = g.nodes;
    calls = λ k x h. elim (get_elem?-last_cases cl.elections k r x h) [
      | inl old ↦ g.calls k x old
      | inr same ↦ rw (← same) counted
    ];
    mail = λ m l h.
        Mailed-Alike book cl.elections (cl.elections ++ r ∷ []) l
          (λ k x at. (x, get_elem?-more cl.elections (r ∷ []) k x at, (refl, refl))) (g.mail m l h);
  }

  pub elects-After :
      (book : Book) (cl : Cluster C B) (i : ℕ) (s : Raft C B) (el : Election)
      → Good book cl
      → get_elem? cl.nodes i ≡ some s
      → leader_election s ≡ ok el
      → After (record cl {
        elections =
            cl.elections
            ++ record { owner = i; election = el; sent = []; waiting = remove i (below s.peers) }
              ∷ [];
      })
  unfolding Unique member
  elects-After book cl i s el g at h =
      let node = g.nodes i s at in
      let (named, one) = Ensures-ok el (leader_election-first s) h in
      (
        book,
        Good-started book cl _ g (record {
          candidate = named ∙ node.me;
          voters = [];
          distinct = tt;
          voted = λ v bad. absurd cc;
          others = λ v inside.
              let part = sym (member-remove i v (below s.peers)) ∙ inside in
              let other : (i == v) ≡ false = ground (arith, part) in
              let low : member v (below s.peers) ≡ true = rw other at part in
              (rw (← node.peers) (member-below s.peers v low), other);
          count = one;
          self = refl;
        }),
      )

  -- The candidate has more than half of the votes.
  Promoted-NodeGood :
      (book : Book) (n : ℕ) (q : Running) (s t : Raft C B)
      → NodeGood book n q.owner s
      → Inv t
      → Counted book n q
      → q.owner < n
      → s.role ≡ candidate
      → s.current_term ≡ q.election.request.term
      → Promoted s t
      → n / 2 < q.election.vote_cnt
      → NodeGood book n q.owner t
  Promoted-NodeGood book n q s t g inv c low role current p most =
      let (term, same_vote, me, peers, lead) = p in
      let self : book q.owner s.current_term ≡ some q.owner = elim g.runs [
        | inl f ↦ absurd cc
        | inr own ↦ own
      ] in
      record {
        inv = inv;
        me = me ∙ g.me;
        peers = peers ∙ g.peers;
        keeps = λ u d h. rw (term, same_vote) (g.keeps u d h);
        runs = inr (rw term self);
        wins = λ h. rw (term, current) (Counted-Chosen book n q c low (rw (← current) self) most);
      }

  mailed_vote :
      (book : Book) (cl : Cluster C B) (m : ℕ) (l : Letter) (r : Running)
      → Good book cl
      → get_elem? cl.letters m ≡ some l
      → get_elem? cl.elections l.call ≡ some r
      → l.reply.vote_granted ≡ true
      → l.reply.term ≤ℤ r.election.request.term
      → book l.voter r.election.request.term ≡ some r.owner
  mailed_vote book cl m l r g mailed call granted =
      let (x, at, vote) = g.mail m l mailed in
      let same : x ≡ r = cc in
      subst
        (λ y.
          l.reply.term ≤ℤ y.election.request.term
          → book l.voter y.election.request.term ≡ some y.owner)
        same (vote granted)

  Scored-NodeGood :
      (book : Book) (n : ℕ) (el : Election) (q : Running) (s t : Raft C B)
      → NodeGood book n q.owner s
      → Inv t
      → Counted book n q
      → q.owner < n
      → Scored el s (q.election, t)
      → NodeGood book n q.owner t
  Scored-NodeGood book n el q s t g inv c low scored = elim scored.result [
    | inl same ↦ rw same g
    | inr (p, most) ↦
        Promoted-NodeGood book n q s t g inv c low scored.role
          (scored.current ∙ ap (λ x. x.term) (sym scored.request)) p
          (rw (scored.count, ← g.peers) most)
  ]

  pub counts-After :
      (book : Book) (cl : Cluster C B) (m : ℕ) (l : Letter) (r : Running) (s : Raft C B)
      → Good book cl
      → get_elem? cl.letters m ≡ some l
      → get_elem? cl.elections l.call ≡ some r
      → member l.voter r.waiting ≡ true
      → get_elem? cl.nodes r.owner ≡ some s
      → l.reply.term ≤ℤ s.current_term
      → After (record cl {
        nodes = set cl.nodes r.owner (vote_reply r.election l.reply s).1;
        elections = set cl.elections l.call (record r {
          election = (vote_reply r.election l.reply s).0;
          waiting = remove l.voter r.waiting;
        });
      })
  unfolding Alike step
  counts-After book cl m l r s g mailed call waits at timely =
      let node = g.nodes r.owner s at in
      let c = g.calls l.call r call in
      let n = length cl.nodes in
      let after = vote_reply r.election l.reply s in
      let inv = step-inv s after.1 (vote_replies r.election l.reply) node.inv tt refl in
      elim (vote_reply-cases r.election l.reply s timely) [
        | inl same ↦
            let q = record r { waiting = remove l.voter r.waiting } in
            rw same (
              book,
              Good-set book book (record cl { elections = set cl.elections l.call q }) r.owner s s
                  (Good-call book cl l.call r q g call (refl, refl)
                    (Counted-fewer book n l.voter r c))
                  (Grows-refl book) (λ v u other. refl) at node,
            )
        | inr (granted, scored) ↦
            let q = record r { election = after.0; waiting = remove l.voter r.waiting } in
            let vote =
              mailed_vote book cl m l r g mailed call granted
                (subst (λ t. l.reply.term ≤ℤ t) scored.current timely) in
            let counted =
              Counted-one book n l.voter r after.0 c waits vote scored.request scored.count in
            (
              book,
              Good-set book book (record cl { elections = set cl.elections l.call q }) r.owner s
                  after.1 (Good-call book cl l.call r q g call (refl, scored.request) counted)
                  (Grows-refl book) (λ v u other. refl) at
                  (Scored-NodeGood book n r.election q s after.1 node inv counted
                    (get_elem?-lt cl.nodes r.owner at) scored),
            )
      ]
