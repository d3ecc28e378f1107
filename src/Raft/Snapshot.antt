-- ===== src/Raft/Snapshot.antt =====
-- raft/raft.go: log compaction, the InstallSnapshot handler, and the goroutine that sends snapshots.
pub mod Compaction
pub mod Installation
use distribution_system.Prelude.{
  ℕ, zero, suc, ◌+◌, Bool, false, not, ◌&&◌, Option, none, some, List, [], ◌∷◌, done, ◌>>=◌, ltb,
  leb, ◌==◌, ◌||◌, if◌then◌else◌, length, at, put_at, slice_from, Outcome, get_elem?,
}
use distribution_system.Raft.Persister.{save_state_and_snapshot, read_snapshot}
use distribution_system.Raft.Types.{
  leader, Raft, LogEntry, InstallSnapshotArgs, InstallSnapshotReply, is_state, sync_snapshot_to,
  send_message, apply_snapshot,
}
use distribution_system.Raft.Log.{get_relative_log_index, spawn}
use distribution_system.Raft.Storage.{Gob, persist, encode_raft_state}
use distribution_system.Raft.Roles.{adopt_term, become_follower}

-- `if n < i { n = i }`
abbrev pub raise_to : ℕ → ℕ → ℕ
raise_to i n = if ltb n i then i else n

module _ {C : Type 0} where
  unfoldable pub sync_loop : ℕ → ℕ → Raft C → Raft C
  sync_loop zero i rf = rf
  sync_loop (suc n) i rf =
      sync_loop n (i + 1) (if i == rf.me then rf else spawn (sync_snapshot_to i) rf)

  -- The entry at `LastIncludedIndex` has the term of the snapshot.
  abbrev pub has_term : Option (LogEntry C) → ℕ → Bool
  has_term none term = false
  has_term (some e) term = e.term == term

  -- The log behind the snapshot: the entries that follow it, or the guard alone.
  unfoldable pub log_behind : InstallSnapshotArgs → Raft C → ℕ → Outcome (List (LogEntry C))
  log_behind args rf i =
      if ltb i (length rf.logs) && has_term (get_elem? rf.logs i) args.last_included_term
      then slice_from rf.logs i
      else done (record { command = none; term = args.last_included_term } ∷ [])

module _ {C : Type 0} (gob : Gob C) where
  abbrev pub save_with_snapshot : Option (List ℕ) → Raft C → Raft C
  save_with_snapshot snapshot rf = record rf {
    persister = save_state_and_snapshot (encode_raft_state gob rf) snapshot rf.persister;
  }

  unfoldable pub replace_log_with_snapshot : ℕ → Option (List ℕ) → Raft C → Outcome (Raft C)
  unfolding get_relative_log_index save_state_and_snapshot encode_raft_state
  replace_log_with_snapshot applied_index snapshot rf =
      if leb applied_index rf.snapshotted_index then done rf else do
        from ← get_relative_log_index rf applied_index
        logs ← slice_from rf.logs from
        done (
            sync_loop rf.peers 0 (
              save_with_snapshot snapshot
                (record rf { logs = logs; snapshotted_index = applied_index })))

  -- The handler behind the term checks.
  unfoldable pub install : InstallSnapshotArgs → Raft C → Outcome (Raft C)
  unfolding log_behind get_relative_log_index save_state_and_snapshot encode_raft_state
      read_snapshot
  install args rf = do
    i ← get_relative_log_index rf args.last_included_index
    logs ← log_behind args rf i
    let installed = save_with_snapshot args.snapshot (record rf {
      logs = logs;
      snapshotted_index = args.last_included_index;
      commit_index = raise_to args.last_included_index rf.commit_index;
      last_applied = raise_to args.last_included_index rf.last_applied;
    })
    if ltb args.last_included_index installed.last_applied
        then done installed
        else done (
            spawn
              (send_message
                (apply_snapshot (read_snapshot installed.persister) args.last_included_index))
              installed)

  unfoldable pub install_snapshot :
      InstallSnapshotArgs → Raft C → Outcome (Raft C × InstallSnapshotReply)
  unfolding adopt_term
  install_snapshot args rf =
      if ltb args.term rf.current_term || ltb args.last_included_index rf.snapshotted_index
      then done (rf, record { term = rf.current_term })
      else do
        installed ← install args (adopt_term args.term rf)
        done (installed, record { term = rf.current_term })

  -- syncSnapshotWith up to its RPC: `none` if this peer leads no more.
  unfoldable pub snapshot_args : Raft C → Outcome (Option InstallSnapshotArgs)
  unfolding read_snapshot
  snapshot_args rf = if not (is_state rf.state leader) then done none else do
    guard ← at rf.logs 0
    done (
        some (record {
          term = rf.current_term;
          leader_id = rf.me;
          last_included_index = rf.snapshotted_index;
          last_included_term = guard.term;
          snapshot = read_snapshot rf.persister;
        }))

  -- syncSnapshotWith behind its RPC.
  unfoldable pub handle_snapshot_reply :
      ℕ → InstallSnapshotArgs → InstallSnapshotReply → Raft C → Outcome (Raft C)
  unfolding become_follower persist
  handle_snapshot_reply server args reply rf =
      if ltb rf.current_term reply.term
      then done (persist gob (become_follower (record rf { current_term = reply.term })))
      else do
        known ← at rf.match_index server
        let reached = raise_to args.last_included_index known
        match_index ← put_at rf.match_index server reached
        next_index ← put_at rf.next_index server (reached + 1)
        done (record rf { match_index = match_index; next_index = next_index })
