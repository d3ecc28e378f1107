-- ===== src/Raft/Agreement.antt =====
-- A leader's heartbeat against the follower that takes it: the two logs agree afterwards.
use distribution_system.Prelude.{ℕ, ◌+◌, ◌-◌, ◌≤◌, ◌<◌, ◌≡◌, Option, some, drop, get_elem?}
use distribution_system.Raft.Types.{Raft, LogEntry, AppendEntriesArgs}
use distribution_system.Raft.Append.Replication.{Matches}

module _ {C : Type 0} where
  -- What a heartbeat sends: the leader's entries behind `PrevLogIndex`.
  record Sends (ld : Raft C) (args : AppendEntriesArgs C) : Type 0 where
    behind : ld.snapshotted_index ≤ args.prev_log_index
    entries : args.log_entries ≡ drop (args.prev_log_index + 1 - ld.snapshotted_index) ld.logs

  -- The entry at an absolute index.
  abbrev pub entry_at : Raft C → ℕ → Option (LogEntry C)
  entry_at rf i = get_elem? rf.logs (i - rf.snapshotted_index)

  -- Behind `prev` the logs agree on terms, and the follower's log up to `prev` is its old one.
  pub record Agree (prev : ℕ) (ld fl fl' : Raft C) : Type 0 where
    pub snapshotted : fl'.snapshotted_index ≡ fl.snapshotted_index
    pub behind :
        (i : ℕ) (e : LogEntry C)
        → prev < i
        → entry_at ld i ≡ some e
        → (o : LogEntry C) × (entry_at fl' i ≡ some o) × (o.term ≡ e.term)
    pub before : (i : ℕ) → i ≤ prev → entry_at fl' i ≡ entry_at fl i

  module _ (args : AppendEntriesArgs C) (ld fl : Raft C) (sent : Sends ld args)
      (match : Matches args fl) where
    offset : ℕ
    offset = args.prev_log_index + 1 - fl.snapshotted_index
