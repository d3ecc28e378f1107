-- ===== src/Raft/Append/AtSnapshot.antt =====
-- AppendEntries at or before the follower's snapshot: the log is cut to its guard and replaced.
use distribution_system.Prelude.{
  ◌+◌, ◌-◌, ◌≤◌, ◌<◌, ◌≡◌, refl, List, ◌++◌, done, arith, length, take, drop, length-drop, le→leb,
  le→ltb, lt→ltb, length-append, length-take,
}
use distribution_system.Raft.Types.{Raft, LogEntry, AppendEntriesArgs}
use distribution_system.Raft.Storage.{Gob, persist}
use distribution_system.Raft.Append.{accepted, append_at_snapshot, append_checked, append_entries}
use distribution_system.Raft.Append.Replication.{SameLog, joined, joined-SameLog, joined-term}

module _ {C : Type 0} where
  -- The request starts at or before the follower's snapshot and reaches behind it.
  pub record Overlaps (args : AppendEntriesArgs C) (rf : Raft C) : Type 0 where
    pub term : rf.current_term ≤ args.term
    pub before : args.prev_log_index ≤ rf.snapshotted_index
    pub beyond : rf.snapshotted_index < args.prev_log_index + length args.log_entries
    pub guarded : 0 < length rf.logs

  abbrev pub replaced : AppendEntriesArgs C → Raft C → List (LogEntry C)
  replaced args rf =
      take 1 rf.logs ++ drop (rf.snapshotted_index - args.prev_log_index) args.log_entries

  append_checked_at_snapshot :
      (args : AppendEntriesArgs C) (rf : Raft C)
      → Overlaps args rf
      → append_checked args rf ≡ done (record rf { logs = replaced args rf }, accepted)
  unfolding append_checked append_at_snapshot
  append_checked_at_snapshot args rf o =
      rw
        (
          le→leb args.prev_log_index rf.snapshotted_index o.before,
          lt→ltb rf.snapshotted_index (args.prev_log_index + length args.log_entries) o.beyond,
          le→leb 1 (length rf.logs) o.guarded,
          le→leb (rf.snapshotted_index - args.prev_log_index) (length args.log_entries)
              (omega (arith, o.beyond)),
        )
        refl

  later-Overlaps :
      (args : AppendEntriesArgs C) {rf later : Raft C}
      → SameLog rf later
      → later.current_term ≡ args.term
      → Overlaps args rf
      → Overlaps args later
  later-Overlaps args s same o = record {
    term = omega arith;
    before = rw s.snapshotted_index o.before;
    beyond = rw s.snapshotted_index o.beyond;
    guarded = rw s.logs o.guarded;
  }

  length-replaced :
      (args : AppendEntriesArgs C) (rf : Raft C)
      → Overlaps args rf
      → length (replaced args rf) + rf.snapshotted_index
        ≡ args.prev_log_index + length args.log_entries + 1
  length-replaced args rf o =
      let start = rf.snapshotted_index - args.prev_log_index in
      omega (
        arith,
        length-append (take 1 rf.logs) (drop start args.log_entries),
        length-take 1 rf.logs,
        length-drop start args.log_entries,
      )

module _ {C : Type 0} (gob : Gob C) where
  -- A request that starts at or before the snapshot and reaches behind it succeeds and replaces the
  -- whole log behind the guard by the request's entries, without comparing terms: the last index
  -- becomes that of the last entry sent, also where it was larger before, and the commit index stays.
  pub append_entries-replaces :
      (args : AppendEntriesArgs C) (rf : Raft C)
      → Overlaps args rf
      → (rf' : Raft C) × (append_entries gob args rf ≡ done (rf', accepted))
        × (rf'.logs ≡ replaced args rf)
        × (rf'.snapshotted_index ≡ rf.snapshotted_index)
        × (rf'.commit_index ≡ rf.commit_index)
        × (length rf'.logs + rf.snapshotted_index
            ≡ args.prev_log_index + length args.log_entries + 1)
  unfolding append_entries persist
  append_entries-replaces args rf o =
      let s = joined-SameLog args.term rf in
      let later = joined args.term rf in
      let ready = later-Overlaps args s (joined-term args.term rf o.term) o in
      let same : replaced args later ≡ replaced args rf = rw (s.logs, s.snapshotted_index) refl in
      (
        persist gob (record later { logs = replaced args later }),
        rw (le→ltb args.term rf.current_term o.term, append_checked_at_snapshot args later ready)
            refl,
        same,
        s.snapshotted_index,
        s.commit_index,
        rw same (length-replaced args rf o),
      )
