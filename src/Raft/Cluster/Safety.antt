-- ===== src/Raft/Cluster/Safety.antt =====
-- The peers of src/raft/raft.go together: one leader in a term.
use mit_raft.Base.{ℤ, ℕ, ◌≡◌, inl, some, none, length, get_elem?, Unique-shared}
use mit_raft.Raft.Persister.{Codec}
use mit_raft.Raft.State.{Raft, leader}
use mit_raft.Raft.Role.{Saved}
use mit_raft.Raft.Cluster.{
  Cluster, Initial, Move, acts, elects, sends, answers, counts, Reached, here, next,
}
use mit_raft.Raft.Cluster.Books.{Book, Chosen, Good}
use mit_raft.Raft.Cluster.Acts.{After, acts-After}
use mit_raft.Raft.Cluster.Votes.{answers-After}
use mit_raft.Raft.Cluster.Counts.{elects-After, sends-After, counts-After}

-- Two majorities share a voter, who has one vote.
Chosen-unique : (book : Book) (n i j : ℕ) (t : ℤ) → Chosen book n i t → Chosen book n j t → i ≡ j
Chosen-unique book n i j t c d =
    let (v, first, second) =
      Unique-shared n c.voters d.voters c.distinct d.distinct (λ v h. (c.voted v h).0)
        (λ v h. (d.voted v h).0) c.most d.most in
    let (l, a) = c.voted v first in let (k, b) = d.voted v second in cc

module _ {ℓ} {C B : Type ℓ} ⦃gob : Codec (Saved C) B⦄ where
  Initial-Good : (cl : Cluster C B) → Initial cl → After cl
  Initial-Good cl i = (
    λ v t. none,
    record {
      nodes = λ k rf h.
          let (inv, me, peers, role) = i.peers k rf h in
          record {
            inv = inv;
            me = me;
            peers = peers;
            keeps = λ t c bad. absurd cc;
            runs = inl role;
            wins = λ lead. absurd cc;
          };
      calls = λ k r h. absurd cc;
      mail = λ m l h. absurd cc;
    },
  )

  Move-Good : (book : Book) (cl after : Cluster C B) → Good book cl → Move cl after → After after
  Move-Good book cl after g (acts i {s} {t} e own at genuine timely h) =
      acts-After book cl i s t e g own at genuine timely h
  Move-Good book cl after g (elects i {s} {el} at h) = elects-After book cl i s el g at h
  Move-Good book cl after g (sends k j {r} at there may waits) = sends-After book cl k j r g at
  Move-Good book cl after g (answers k j {r} {s} {t} {reply} call sent at h) =
      answers-After book cl k j r s t reply g call at h
  Move-Good book cl after g (counts m {l} {r} {s} mailed call waits at timely) =
      counts-After book cl m l r s g mailed call waits at timely

  Reached-Good : (first cl : Cluster C B) → Initial first → Reached first cl → After cl
  Reached-Good first cl i here = Initial-Good first i
  Reached-Good first cl i (next {cl = before} r m) =
      let (book, g) = Reached-Good first before i r in Move-Good book before cl g m

  -- Peers start with the invariant, as followers, each with its own place as its number and with
  -- their number as the number of peers, and with nothing on the network. Whatever they do from
  -- there, with genuine events, restarts, late, lost and reordered requests and replies, as long
  -- as no vote reply that a peer takes has a later term than the peer, no AppendEntries reply has
  -- a term between the broadcast's and the peer's, and no two replies of one voter are taken in
  -- one election: two peers that are leaders in the same term are the same peer.
  pub Reached-leader :
      (first cl : Cluster C B) (i j : ℕ) (s t : Raft C B)
      → Initial first
      → Reached first cl
      → get_elem? cl.nodes i ≡ some s
      → get_elem? cl.nodes j ≡ some t
      → s.role ≡ leader
      → t.role ≡ leader
      → s.current_term ≡ t.current_term
      → i ≡ j
  Reached-leader first cl i j s t initial reached at at' lead lead' same =
      let (book, g) = Reached-Good first cl initial reached in
      let won = (g.nodes i s at).wins lead in
      let won' = (g.nodes j t at').wins lead' in
      Chosen-unique book (length cl.nodes) i j t.current_term (rw same at won) won'
