-- ===== src/Raft/Append.antt =====
-- raft/raft.go: the AppendEntries handler. Relative indexes count from the guard entry.
pub mod Reconcile
pub mod Replication
pub mod Conflicts
pub mod AtSnapshot
use distribution_system.Prelude.{
  ◌>>=◌, ℕ, zero, suc, ◌+◌, ◌-◌, Bool, true, false, not, Option, none, some, List, [], ◌∷◌, ◌++◌,
  Outcome, done, panic, ltb, leb, ◌==◌, if◌then◌else◌, length, at, slice_from, slice_to,
}
use distribution_system.Raft.Types.{Raft, LogEntry, AppendEntriesArgs, AppendEntriesReply}
use distribution_system.Raft.Log.{get_relative_log_index, get_absolute_log_index, set_commit_index}
use distribution_system.Raft.Storage.{Gob, persist}
use distribution_system.Raft.Roles.{reset_election_timer, adopt_term}

abbrev pub append_reply : ℕ → Bool → Option ℕ → ℕ → AppendEntriesReply
append_reply term success conflict_term conflict_index = record {
  term = term;
  success = success;
  conflict_term = conflict_term;
  conflict_index = conflict_index;
}

-- A reply in which only `Success` was set: the other fields are Go's zero values.
abbrev pub accepted : AppendEntriesReply
accepted = append_reply 0 true (some 0) 0

module _ {C : Type 0} where
  -- The `for` that looks for the first entry of `ConflictTerm`. The argument is `conflictIndex`, made
  -- relative; it stops at 1, and an index below the guard panics.
  unfoldable pub first_of_term : List (LogEntry C) → ℕ → ℕ → Outcome ℕ
  first_of_term logs term zero = panic
  first_of_term logs term (suc k) =
      let rest = first_of_term logs term k in
      do e ← at logs k; if e.term == term then (if k == 1 then done k else rest) else done (suc k)

  -- The `for idx := range args.LogEntries`: the first entry that `logs` lacks from `start` on.
  unfoldable pub find_unmatch : List (LogEntry C) → ℕ → List (LogEntry C) → ℕ → Outcome (Option ℕ)
  find_unmatch logs start [] idx = done none
  find_unmatch logs start (e ∷ entries) idx =
      let rest = find_unmatch logs start entries (idx + 1) in
      if ltb (length logs) (start + 1 + idx) then done (some idx) else do
        own ← at logs (start + idx)
        if not (own.term == e.term) then done (some idx) else rest

  -- Truncate the entries that do not match, and append the leader's.
  unfoldable pub replace_from :
      List (LogEntry C) → ℕ → List (LogEntry C) → Option ℕ → Outcome (List (LogEntry C))
  replace_from logs start entries none = done logs
  replace_from logs start entries (some idx) = do
    kept ← slice_to logs (start + idx)
    added ← slice_from entries idx
    done (kept ++ added)

  -- `if args.LeaderCommit > rf.commitIndex { … }`
  unfoldable pub follow_commit : ℕ → Raft C → Outcome (Raft C)
  unfolding get_absolute_log_index
  follow_commit leader_commit rf =
      if ltb rf.commit_index leader_commit
      then (let last = get_absolute_log_index rf (length rf.logs - 1) in
          set_commit_index (if leb leader_commit last then leader_commit else last) rf)
      else done rf

  -- `args.PrevLogIndex <= rf.snapshottedIndex`
  unfoldable pub append_at_snapshot : AppendEntriesArgs C → Raft C → Outcome (Raft C)
  append_at_snapshot args rf =
      if ltb rf.snapshotted_index (args.prev_log_index + length args.log_entries)
      then (do
        guard ← slice_to rf.logs 1
        added ← slice_from args.log_entries (rf.snapshotted_index - args.prev_log_index)
        done (record rf { logs = guard ++ added }))
      else done rf

  -- The entry at `PrevLogIndex` matches.
  unfoldable pub append_matching : AppendEntriesArgs C → Raft C → Outcome (Raft C)
  unfolding get_relative_log_index
  append_matching args rf = do
    start ← get_relative_log_index rf (args.prev_log_index + 1)
    unmatch_idx ← find_unmatch rf.logs start args.log_entries 0
    logs ← replace_from rf.logs start args.log_entries unmatch_idx
    follow_commit args.leader_commit (record rf { logs = logs })

  -- The entry at `PrevLogIndex` has another term, `term`.
  unfoldable pub append_conflict :
      AppendEntriesArgs C → ℕ → ℕ → Raft C → Outcome (Raft C × AppendEntriesReply)
  append_conflict args prev term rf = do
    conflict ← first_of_term rf.logs term prev
    done (rf, append_reply rf.current_term false (some term) (conflict + rf.snapshotted_index))

  abbrev succeed : Outcome (Raft C) → Outcome (Raft C × AppendEntriesReply)
  succeed m = do rf ← m; done (rf, accepted)

  -- The handler from `args.PrevLogIndex <= rf.snapshottedIndex` on. As `PrevLogIndex` is beyond the
  -- snapshot, the second test reads `len(logs) - 1 + snapshottedIndex < PrevLogIndex`.
  unfoldable pub append_checked :
      AppendEntriesArgs C → Raft C → Outcome (Raft C × AppendEntriesReply)
  unfolding get_relative_log_index get_absolute_log_index
  append_checked args rf =
      if leb args.prev_log_index rf.snapshotted_index
      then succeed (append_at_snapshot args rf)
      else if leb (get_absolute_log_index rf (length rf.logs)) args.prev_log_index
      then done
          (rf, append_reply rf.current_term false none (get_absolute_log_index rf (length rf.logs)))
      else do
        prev ← get_relative_log_index rf args.prev_log_index
        own ← at rf.logs prev
        if not (own.term == args.prev_log_term)
            then append_conflict args prev own.term rf
            else succeed (append_matching args rf)

module _ {C : Type 0} (gob : Gob C) where
  unfoldable pub append_entries :
      AppendEntriesArgs C → Raft C → Outcome (Raft C × AppendEntriesReply)
  unfolding adopt_term reset_election_timer persist
  append_entries args rf =
      if ltb args.term rf.current_term
      then done (persist gob rf, append_reply rf.current_term false (some 0) 0)
      else do
        (rf', reply) ← append_checked args (reset_election_timer (adopt_term args.term rf))
        done (persist gob rf', reply)
