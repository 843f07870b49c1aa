-- ===== src/Raft/Cluster/Tally.antt =====
-- Running elections (leaderElection of src/raft/raft.go) as votes come in.
use mit_raft.Base.{
  ℕ, ◌+◌, ◌/◌, ◌<◌, ◌≡◌, refl, sym, ◌∙◌, inl, inr, true, false, ◌==◌, List, ◌∷◌, some, get_elem?,
  set, get_elem?-lt, get_elem?-set, member, remove, member-remove, Unique, arith, ==→eq, ==_refl,
  Bool-cases,
}
use mit_raft.Raft.Election.{Election}
use mit_raft.Raft.Cluster.{Running, Letter}
use mit_raft.Raft.Cluster.Books.{Book, Chosen, Counted, Mailed}

-- A running election is replaced by one with the same owner and request.
unfoldable pub Alike : Running → Running → Type 0
Alike r q = (q.owner ≡ r.owner) × (q.election.request ≡ r.election.request)

pub set-Alike :
    (es : List Running) (k : ℕ) (r q : Running)
    → get_elem? es k ≡ some r
    → Alike r q
    → (m : ℕ) (x : Running) → get_elem? es m ≡ some x
    → (y : Running) × (get_elem? (set es k q) m ≡ some y) × Alike x y
unfolding Alike
set-Alike es k r q at alike m x h = elim (Bool-cases (k == m)) [
  | inl e ↦
      let place : k ≡ m = ==→eq k m e in
      let found : get_elem? es m ≡ some r = rw (← place) at in
      let same : r ≡ x = cc in
      (q, get_elem?-set es k m q (get_elem?-lt es k at) ∙ (rw e), rw (← same) alike)
  | inr e ↦ (x, get_elem?-set es k m q (get_elem?-lt es k at) ∙ (rw (e, h)), (refl, refl))
]

pub Mailed-Alike :
    (book : Book) (es fs : List Running) (l : Letter)
    → ((m : ℕ) (x : Running)
        → get_elem? es m ≡ some x
        → (y : Running) × (get_elem? fs m ≡ some y) × Alike x y)
    → Mailed book es l
    → Mailed book fs l
unfolding Alike
Mailed-Alike book es fs l kept (r, at, vote) =
    let (q, there, (owner, request)) = kept l.call r at in
    (q, there, λ granted timely. rw (owner, request) (vote granted (rw (← request) timely)))

-- After a reply: its voter does not count again, and the rest is as before.
pub Counted-fewer :
    (book : Book) (n v : ℕ) (r : Running)
    → Counted book n r
    → Counted book n (record r { waiting = remove v r.waiting })
Counted-fewer book n v r c = record {
  candidate = c.candidate;
  voters = c.voters;
  distinct = c.distinct;
  voted = λ w h.
      let (low, vote, out) = c.voted w h in
      (low, vote, member-remove v w r.waiting ∙ (ground (arith, out)));
  others =
      λ w h. let part = sym (member-remove v w r.waiting) ∙ h in c.others w (ground (arith, part));
  count = c.count;
  self = c.self;
}

-- A vote is counted.
pub Counted-one :
    (book : Book) (n v : ℕ) (r : Running) (el : Election)
    → Counted book n r
    → member v r.waiting ≡ true
    → book v r.election.request.term ≡ some r.owner
    → el.request ≡ r.election.request
    → el.vote_cnt ≡ r.election.vote_cnt + 1
    → Counted book n (record r { election = el; waiting = remove v r.waiting })
unfolding Unique member
Counted-one book n v r el c waits vote request count =
    let (low, other) = c.others v waits in
    let new : member v c.voters ≡ false = elim (Bool-cases (member v c.voters)) [
      | inl e ↦ let (l, b, out) = c.voted v e in absurd cc
      | inr e ↦ e
    ] in
    record {
      candidate = rw request c.candidate;
      voters = v ∷ c.voters;
      distinct = (new, c.distinct);
      voted = λ w h. rw request (elim (Bool-cases (v == w)) [
        | inl e ↦
            let same : v ≡ w = ==→eq v w e in
            rw (← same) (low, vote, member-remove v v r.waiting ∙ (rw (==_refl v)))
        | inr e ↦
            let inside : member w c.voters ≡ true = rw (member, e) at h in
            let (l, b, out) = c.voted w inside in
            (l, b, member-remove v w r.waiting ∙ (rw (e, out)))
      ]);
      others = λ w h.
          let part = sym (member-remove v w r.waiting) ∙ h in c.others w (ground (arith, part));
      count = omega (arith, count, c.count);
      self = ground (arith, other, c.self);
    }

pub Counted-Chosen :
    (book : Book) (n : ℕ) (q : Running)
    → Counted book n q
    → q.owner < n
    → book q.owner q.election.request.term ≡ some q.owner
    → n / 2 < q.election.vote_cnt
    → Chosen book n q.owner q.election.request.term
unfolding Unique member
Counted-Chosen book n q c low self most = record {
  voters = q.owner ∷ c.voters;
  distinct = (c.self, c.distinct);
  voted = λ v h. elim (Bool-cases (q.owner == v)) [
    | inl e ↦ let same : q.owner ≡ v = ==→eq q.owner v e in rw (← same) (low, self)
    | inr e ↦
        let inside : member v c.voters ≡ true = rw (member, e) at h in
        let (l, b, out) = c.voted v inside in (l, b)
  ];
  most = omega (arith, most, c.count);
}
