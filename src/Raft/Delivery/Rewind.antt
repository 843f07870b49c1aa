-- ===== src/Raft/Delivery/Rewind.antt =====
-- A snapshot from behind in InstallSnapshot (src/raft/raft.go).
use mit_raft.Base.{
  ◌<◌, ◌≡◌, refl, ap, ◌∙◌, ◌||◌, [], ◌∷◌, ◌++◌, false, ltb_ℤ, leb, Ensures, value, Ensures-bind,
  Ensures-after, Ensures-if, Returns, Returns-value, Returns-of, Ensures-ok, ◌≤ℤ◌, arith,
}
use mit_raft.Raft.Persister.{Codec}
use mit_raft.Raft.State.{Payload, ApplyMsg, Raft}
use mit_raft.Raft.Role.{Saved, persist_state_and_snapshot}
use mit_raft.Raft.Snapshot.{InstallSnapshotArgs, snapshot_logs, install, install_snapshot}
use mit_raft.Raft.Invariant.{Inv, adopt_term_shape, heard}
use mit_raft.Raft.Invariant.Snapshots.{install_snapshot-Inv}
use mit_raft.Raft.Delivery.{Quiet}
use mit_raft.Raft.Delivery.Steps.{adopt_term-Quiet}

module _ {ℓ} {C B : Type ℓ} ⦃gob : Codec (Saved C) B⦄ where
  -- The peer has sent the request's snapshot, of an index before what it has applied.
  abbrev pub Rewound : InstallSnapshotArgs B → Raft C B → Raft C B → Type ℓ
  Rewound args rf r =
      (r.last_applied ≡ rf.last_applied)
      × ((m : ApplyMsg C B) × (r.apply_ch ≡ rf.apply_ch ++ m ∷ [])
          × (m.command_valid ≡ false)
          × (m.payload ≡ Payload.snapshot args.snapshot)
          × (m.command_index ≡ args.last_included_index)
          × (m.command_index < rf.last_applied))

  Rewound-before :
      (args : InstallSnapshotArgs B) (rf s r : Raft C B)
      → Quiet rf s
      → Rewound args s r
      → Rewound args rf r
  Rewound-before args rf s r (ch, done) (still, (m, sent, snap, what, at, behind)) = (
    still ∙ done,
    (m, sent ∙ ap (λ ms. ms ++ m ∷ []) ch, snap, what, at, omega (arith, behind, done)),
  )

  install_snapshot-Rewound :
      (args : InstallSnapshotArgs B) (rf : Raft C B)
      → rf.current_term ≤ℤ args.term
      → rf.last_included_index < args.last_included_index
      → args.last_included_index < rf.last_applied
      → Ensures (λ r. Rewound args rf r.1) (install_snapshot args rf)
  unfolding install_snapshot install persist_state_and_snapshot
  install_snapshot-Rewound args rf current newer behind =
      let same = adopt_term_shape args.term rf in
      Ensures-if
        (ltb_ℤ args.term rf.current_term || leb args.last_included_index rf.last_included_index)
        (λ stale. absurd (ground arith))
        λ new.
          Ensures-bind {P = λ r. Rewound args (heard args.term rf) r}
            (Ensures-after (snapshot_logs args (heard args.term rf)) λ l. value (
              omega (arith, same, behind),
              (_, refl, refl, refl, refl, omega (arith, same, behind)),
            ))
            λ r t.
              value
                (Rewound-before args rf (heard args.term rf) r (adopt_term-Quiet args.term rf) t)

  -- InstallSnapshot, at a peer whose invariant holds, of a term not before the peer's and of an
  -- index after the last snapshot and before what has been applied, sends the snapshot of the
  -- request, with its index, after what it had sent before, and leaves lastApplied as it is.
  pub snapshot_rewinds :
      (args : InstallSnapshotArgs B) (rf : Raft C B)
      → Inv rf
      → rf.current_term ≤ℤ args.term
      → rf.last_included_index < args.last_included_index
      → args.last_included_index < rf.last_applied
      → Returns (λ r. Rewound args rf r.1) (install_snapshot args rf)
  snapshot_rewinds args rf i current newer behind =
      let (r, ran, v) = Returns-value (install_snapshot-Inv args rf i) in
      Returns-of r ran (Ensures-ok r (install_snapshot-Rewound args rf current newer behind) ran)
