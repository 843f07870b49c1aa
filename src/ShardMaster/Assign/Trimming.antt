-- ===== src/ShardMaster/Assign/Trimming.antt =====
-- The first loop of navieAssign (src/shardmaster/server.go) does not panic.
use mit_raft.Base.{
  ℕ, zero, suc, ◌+◌, ◌<◌, ◌≡◌, subst, true, List, [], ◌∷◌, ◌++◌, length, length-append, ◌==◌,
  insert, nat_key, Bool-cases, inl, inr, arith, Returns, returned, Returns-bind, Returns-and,
}
use mit_raft.ShardMaster.State.{n_shards, shards_of, cut}
use mit_raft.ShardMaster.Assign.{Work, trim_one, trim, total}
use mit_raft.ShardMaster.Assign.Rounds.{length-cut, List-cases}
use mit_raft.ShardMaster.Assign.Buckets.{has, size, Bucket-head}
use mit_raft.ShardMaster.Assign.Balance.{IsMore, Sorted, SortedWork}
use mit_raft.ShardMaster.Assign.Loops.{trim_one-Sorted}
use mit_raft.ShardMaster.Assign.Classify.{now_in, still_in}
use mit_raft.ShardMaster.Assign.Totals.{size-keyed, total-insert_there}
use mit_raft.ShardMaster.Assign.Spread.{
  AreShards, Table, Marks, Known, Table-insert, Known-insert, Marks-insert, AreShards-more,
  AreShards-cut, last-AreShards,
}

-- `n` groups, and `k` shards that are still to be given to one.
pub record Ready (share n k : ℕ) (w : Work) : Type 0 where
  pub table : Table n w.g2shard
  pub room : length w.shards ≡ n_shards
  pub sum : total w.g2shard + k ≡ n_shards
  pub less_known : Known w.less w.g2shard
  pub pluses : Marks (share + 1) w.plus w.g2shard

-- The list of the groups with their part, which the last loop does not keep.
pub record Evens (share : ℕ) (w : Work) : Type 0 where
  pub known : Known w.even w.g2shard
  pub evens : Marks share w.even w.g2shard

abbrev pub Trimmed : ℕ → ℕ → Work → Type 0
Trimmed share n w = Ready share n (length w.to_assign) w × Evens share w × AreShards w.to_assign

-- What the round leaves, with the list `plus` of the round.
trimmed :
    (share n gid shard : ℕ) (plus more : List ℕ) (w : Work)
    → Trimmed share n w
    → share + 1 < size gid w.g2shard
    → shard < n_shards
    → (length (cut (shards_of gid w.g2shard)) ≡ share + 1 → has gid plus ≡ true)
    → ((g : ℕ) → has g w.plus ≡ true → has g plus ≡ true)
    → Trimmed share n (record w {
      g2shard = insert gid (cut (shards_of gid w.g2shard)) w.g2shard;
      to_assign = w.to_assign ++ shard ∷ [];
      plus = plus;
      more = more;
    })
trimmed share n gid shard plus more w (r, e, a) high low here others =
    let m = w.g2shard in
    let k = cut (shards_of gid m) in
    let shorter : suc (length k) ≡ size gid m =
      length-cut (shards_of gid m) (omega (arith, high)) in
    let key = size-keyed gid m (omega (arith, high)) in
    (
      record {
        table =
            Table-insert n gid k m r.table key (AreShards-cut (shards_of gid m) (r.table.low gid));
        room = r.room;
        sum = omega (
          arith,
          total-insert_there gid k m key,
          shorter,
          r.sum,
          length-append w.to_assign (shard ∷ []),
        );
        less_known = Known-insert gid w.less k m r.less_known;
        pluses = Marks-insert (share + 1) gid w.plus plus k m r.pluses here (λ g ne h. others g h);
      },
      record {
        known = Known-insert gid w.even k m e.known;
        evens =
            Marks-insert share gid w.even w.even k m e.evens
              (λ full. absurd (omega (arith, full, shorter, high))) (λ g ne h. h);
      },
      AreShards-more w.to_assign shard a low,
    )

trim_one-Trimmed :
    (share n gid : ℕ) (rest : List ℕ) (w : Work)
    → w.more ≡ gid ∷ rest
    → SortedWork share w
    → Trimmed share n w
    → Returns (Trimmed share n) (trim_one share gid rest w)
unfolding trim_one
trim_one-Trimmed share n gid rest w eq v t =
    let s = subst (λ b. Sorted share w.less w.even w.plus b w.g2shard) eq v in
    let high = Bucket-head (IsMore share) gid rest w.g2shard s.more_ok in
    let l = shards_of gid w.g2shard in
    let (shard, found, low) = last-AreShards l (omega (arith, high)) (t.0.table.low gid) in
    rw found (elim (Bool-cases (length (cut l) == share + 1)) [
      | inl e ↦ rw e (
          returned (
            trimmed share n gid shard (w.plus ++ gid ∷ []) rest w t high low
              (λ full. now_in gid w.plus) (λ g h. still_in gid g w.plus h)))
      | inr e ↦ rw e (
          returned (
            trimmed share n gid shard w.plus w.more w t high low
              (λ full. absurd (ground (arith, full, e))) (λ g h. h)))
    ])

pub trim-Trimmed :
    (fuel share n : ℕ) (w : Work)
    → SortedWork share w
    → Trimmed share n w
    → Returns (λ r. SortedWork share r × Trimmed share n r) (trim fuel share w)
unfolding trim
trim-Trimmed zero share n w v t = returned (v, t)
trim-Trimmed (suc fuel) share n w v t = elim (List-cases w.more) [
  | inl e ↦ rw (trim, e) (returned (v, t))
  | inr (gid, rest, e) ↦
      rw (trim, e)
        (Returns-bind
          (Returns-and (trim_one-Trimmed share n gid rest w e v t)
            (trim_one-Sorted share gid rest w e v))
          λ r (u, x). trim-Trimmed fuel share n r x u)
]
