-- ===== src/Raft/Heartbeat.antt =====
-- raft/raft.go: the goroutine that `broadcastHeartbeat` starts for each follower. `heartbeat` is its
-- first critical section, `handle_append_reply` the one behind the RPC.
pub mod Commit
use distribution_system.Prelude.{
  ℕ, zero, suc, ◌+◌, ◌-◌, ◌/◌, not, Option, none, some, List, [], ◌∷◌, done, ◌>>=◌, ltb, leb, ◌==◌,
  if◌then◌else◌, length, at, put_at, slice_from, Outcome,
}
use distribution_system.Raft.Types.{
  leader, Raft, LogEntry, AppendEntriesArgs, AppendEntriesReply, is_state,
}
use distribution_system.Raft.Log.{get_relative_log_index, get_absolute_log_index, set_commit_index}
use distribution_system.Raft.Storage.{Gob, persist}
use distribution_system.Raft.Roles.{become_follower}

-- What the goroutine does once it has released the lock.
pub data Sending (C : Type 0) : Type 0 where
  nothing : Sending C
  send_snapshot : Sending C
  send_entries : AppendEntriesArgs C → Sending C

-- How many peers have replicated the entry at `i`.
unfoldable pub count_replicas : List ℕ → ℕ → ℕ
count_replicas [] i = 0
count_replicas (m ∷ ms) i = (if leb i m then 1 else 0) + count_replicas ms i

module _ {C : Type 0} where
  -- `nextIndex[server] - 1 < snapshottedIndex` is `nextIndex[server] <= snapshottedIndex`.
  unfoldable pub heartbeat : ℕ → Raft C → Outcome (Sending C)
  unfolding get_relative_log_index
  heartbeat server rf = if not (is_state rf.state leader) then done nothing else do
    next ← at rf.next_index server
    if leb next rf.snapshotted_index then done send_snapshot else do
      from ← get_relative_log_index rf next
      entries ← slice_from rf.logs from
      prev ← get_relative_log_index rf (next - 1)
      before ← at rf.logs prev
      done (
          send_entries (record {
            term = rf.current_term;
            leader_id = rf.me;
            prev_log_index = next - 1;
            prev_log_term = before.term;
            log_entries = entries;
            leader_commit = rf.commit_index;
          }))

  -- The `for` from the last log index down to the commit index, with the rounds left.
  unfoldable pub commit_scan : ℕ → Raft C → Outcome (Raft C)
  commit_scan zero rf = done rf
  commit_scan (suc n) rf =
      let rest = commit_scan n rf in
      if ltb (rf.peers / 2) (count_replicas rf.match_index (rf.commit_index + suc n))
      then set_commit_index (rf.commit_index + suc n) rf
      else rest

  unfoldable pub advance_commit : Raft C → Outcome (Raft C)
  unfolding get_absolute_log_index
  advance_commit rf =
      commit_scan (get_absolute_log_index rf (length rf.logs) - 1 - rf.commit_index) rf

  -- The `for` over the leader's entries from `PrevLogIndex` down, with the rounds left.
  unfoldable pub last_of_term : List (LogEntry C) → ℕ → ℕ → Outcome (Option ℕ)
  last_of_term logs term zero = done none
  last_of_term logs term (suc n) =
      let rest = last_of_term logs term n in
      do e ← at logs n; if e.term == term then done (some (suc n)) else rest

  -- The index to try next, relative to the snapshot if a term was found.
  unfoldable pub retry_index : Raft C → AppendEntriesArgs C → AppendEntriesReply → Outcome ℕ
  retry_index rf args reply = elim reply.conflict_term [
    | none ↦ done reply.conflict_index
    | some term ↦
        last_of_term rf.logs term (args.prev_log_index - rf.snapshotted_index) >>= λ found.
        elim found [ none ↦ done reply.conflict_index | some n ↦ done (rf.snapshotted_index + n) ]
  ]

  -- `reply.Success`
  unfoldable pub record_success : ℕ → AppendEntriesArgs C → Raft C → Outcome (Raft C)
  record_success server args rf = do
    match_index ← put_at rf.match_index server (args.prev_log_index + length args.log_entries)
    next_index ← put_at rf.next_index server (args.prev_log_index + length args.log_entries + 1)
    advance_commit (record rf { match_index = match_index; next_index = next_index })

  unfoldable pub back_off : ℕ → AppendEntriesArgs C → AppendEntriesReply → Raft C → Outcome (Raft C)
  back_off server args reply rf = do
    next ← retry_index rf args reply
    next_index ← put_at rf.next_index server next
    done (record rf { next_index = next_index })

module _ {C : Type 0} (gob : Gob C) where
  unfoldable pub handle_append_reply :
      ℕ → AppendEntriesArgs C → AppendEntriesReply → Raft C → Outcome (Raft C)
  unfolding become_follower persist
  handle_append_reply server args reply rf =
      if not (is_state rf.state leader)
      then done rf
      else if reply.success
      then record_success server args rf
      else if ltb rf.current_term reply.term
      then done (persist gob (become_follower (record rf { current_term = reply.term })))
      else back_off server args reply rf
