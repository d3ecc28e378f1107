-- ===== src/Raft/Snapshot/Installation.antt =====
-- The InstallSnapshot handler: what a peer has after it has taken a snapshot from the leader.
use distribution_system.Prelude.{
  ℕ, ◌-◌, ◌≡◌, none, some, List, [], ◌∷◌, ◌++◌, drop, max, ltb, if◌then◌else◌,
}
use distribution_system.Raft.Types.{
  Raft, LogEntry, InstallSnapshotArgs, send_message, apply_snapshot,
}
use distribution_system.Raft.Storage.{Gob, saved}
use distribution_system.Raft.Snapshot.Compaction.{entry_at}

module _ {C : Type 0} where
  -- The peer has an entry of the snapshot's term at the snapshot's index.
  abbrev pub HasLast : InstallSnapshotArgs → Raft C → Type 0
  HasLast args rf =
      (e : LogEntry C) × (entry_at rf args.last_included_index ≡ some e)
      × (e.term ≡ args.last_included_term)

  abbrev pub guard_only : ℕ → List (LogEntry C)
  guard_only term = record { command = none; term = term } ∷ []

  -- What follows the snapshot is kept if the log has its last entry, and dropped otherwise.
  pub data Kept (args : InstallSnapshotArgs) (rf : Raft C) (logs : List (LogEntry C)) : Type 0 where
    kept :
        HasLast args rf
        → logs ≡ drop (args.last_included_index - rf.snapshotted_index) rf.logs
        → Kept args rf logs
    dropped : ¬ HasLast args rf → logs ≡ guard_only args.last_included_term → Kept args rf logs

  -- What the peer has after it has taken the snapshot; it passes the snapshot on to its service unless
  -- it has applied more.
  pub record Installed (gob : Gob C) (args : InstallSnapshotArgs) (rf rf' : Raft C)
      (logs : List (LogEntry C)) : Type 0 where
    pub logs_eq : rf'.logs ≡ logs
    pub snapshotted_index : rf'.snapshotted_index ≡ args.last_included_index
    pub commit_index : rf'.commit_index ≡ max args.last_included_index rf.commit_index
    pub last_applied : rf'.last_applied ≡ max args.last_included_index rf.last_applied
    pub raftstate : rf'.persister.raftstate ≡ some (gob.encode (saved rf'))
    pub snapshot : rf'.persister.snapshot ≡ args.snapshot
    pub tasks : rf'.tasks ≡ (
        if ltb args.last_included_index rf.last_applied
        then rf.tasks
        else rf.tasks ++ send_message (apply_snapshot args.snapshot args.last_included_index) ∷ [])

  -- What `adopt_term` leaves alone.
  record SameRest (rf later : Raft C) : Type 0 where
    logs : later.logs ≡ rf.logs
    snapshotted_index : later.snapshotted_index ≡ rf.snapshotted_index
    commit_index : later.commit_index ≡ rf.commit_index
    last_applied : later.last_applied ≡ rf.last_applied
    tasks : later.tasks ≡ rf.tasks
