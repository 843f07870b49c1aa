-- ===== src/Raft/Cluster.antt =====
-- The peers of src/raft/raft.go together: elections, with the requests and the replies on the
-- network between the calls of leaderElection and the handlers RequestVote.
pub mod Books
pub mod Calls
pub mod Acts
pub mod Votes
pub mod Tally
pub mod Counts
pub mod Safety
use mit_raft.Base.{
  ℕ, ◌≡◌, true, ◌≤ℤ◌, List, [], ◌∷◌, ◌++◌, some, get_elem?, set, member, remove, below, length, ok,
}
use mit_raft.Raft.Persister.{Codec}
use mit_raft.Raft.State.{Raft, follower}
use mit_raft.Raft.Role.{Saved}
use mit_raft.Raft.Vote.{RequestVoteReply, request_vote}
use mit_raft.Raft.Election.{Election, leader_election, may_send, vote_reply}
use mit_raft.Raft.Node.{Event, votes, vote_replies, step}
use mit_raft.Raft.Invariant.{Inv, Genuine}
use mit_raft.Raft.Ballot.{IsTimely}

-- One call of leaderElection by the peer `owner`: the followers that have been sent the request,
-- and those whose goroutine has not taken a reply.
pub record Running : Type 0 where
  pub owner : ℕ
  pub election : Election
  pub sent : List ℕ
  pub waiting : List ℕ

-- The reply of `voter` in the election with the number `call`.
pub record Letter : Type 0 where
  pub call : ℕ
  pub voter : ℕ
  pub reply : RequestVoteReply

-- A letter stays on the network; it may come late, or never.
pub record Cluster {ℓ} (C B : Type ℓ) : Type ℓ where
  pub nodes : List (Raft C B)
  pub elections : List Running
  pub letters : List Letter

module _ {ℓ} {C B : Type ℓ} where
  -- Peers that have just been made, and nothing on the network.
  pub record Initial ⦃gob : Codec (Saved C) B⦄ (cl : Cluster C B) : Type ℓ where
    pub peers :
        (i : ℕ) (rf : Raft C B)
        → get_elem? cl.nodes i ≡ some rf
        → Inv rf × (rf.me ≡ i) × (rf.peers ≡ length cl.nodes) × (rf.role ≡ follower)
    pub idle : cl.elections ≡ []
    pub quiet : cl.letters ≡ []

  -- What a peer does by itself or on other messages than those of an election.
  abbrev pub IsOwn : Event C B → Type 0
  IsOwn (votes args) = ⊥
  IsOwn (vote_replies el reply) = ⊥
  IsOwn _ = Unit

  module _ ⦃gob : Codec (Saved C) B⦄ where
    -- A peer's own event; a call of leaderElection starts; it sends its request to a follower; the
    -- follower handles it; the goroutine of the call takes the reply, if no reply has come from
    -- that follower yet. The replies are timely.
    pub data Move (cl : Cluster C B) : Cluster C B → Type ℓ where
      acts :
          (i : ℕ) {s t : Raft C B} (e : Event C B)
          → IsOwn e
          → get_elem? cl.nodes i ≡ some s
          → Genuine s e
          → IsTimely s e
          → step s e ≡ ok t
          → Move cl (record cl { nodes = set cl.nodes i t })
      elects :
          (i : ℕ) {s : Raft C B} {el : Election}
          → get_elem? cl.nodes i ≡ some s
          → leader_election s ≡ ok el
          → Move cl (record cl {
            elections =
                cl.elections
                ++ record {
                  owner = i;
                  election = el;
                  sent = [];
                  waiting = remove i (below s.peers);
                }
                  ∷ [];
          })
      sends :
          (k j : ℕ) {r : Running} {s : Raft C B}
          → get_elem? cl.elections k ≡ some r
          → get_elem? cl.nodes r.owner ≡ some s
          → may_send r.election s ≡ true
          → member j r.waiting ≡ true
          → Move cl (record cl { elections = set cl.elections k (record r { sent = j ∷ r.sent }) })
      answers :
          (k j : ℕ) {r : Running} {s t : Raft C B} {reply : RequestVoteReply}
          → get_elem? cl.elections k ≡ some r
          → member j r.sent ≡ true
          → get_elem? cl.nodes j ≡ some s
          → request_vote r.election.request s ≡ ok (reply, t)
          → Move cl (record cl {
            nodes = set cl.nodes j t;
            letters = cl.letters ++ record { call = k; voter = j; reply = reply } ∷ [];
          })
      counts :
          (m : ℕ) {l : Letter} {r : Running} {s : Raft C B}
          → get_elem? cl.letters m ≡ some l
          → get_elem? cl.elections l.call ≡ some r
          → member l.voter r.waiting ≡ true
          → get_elem? cl.nodes r.owner ≡ some s
          → l.reply.term ≤ℤ s.current_term
          → Move cl (record cl {
            nodes = set cl.nodes r.owner (vote_reply r.election l.reply s).1;
            elections = set cl.elections l.call (record r {
              election = (vote_reply r.election l.reply s).0;
              waiting = remove l.voter r.waiting;
            });
          })

    -- What a cluster can come to.
    pub data Reached (first : Cluster C B) : Cluster C B → Type ℓ where
      here : Reached first first
      next : {cl after : Cluster C B} → Reached first cl → Move cl after → Reached first after
