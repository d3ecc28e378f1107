-- ===== src/Raft/Types.antt =====
-- The data of raft/raft.go: roles, log entries, RPC messages, and the state of one peer.
-- Terms, indexes and peers are naturals: Go's 64-bit `int` is not run to its limit. The sentinel -1
-- of `votedFor` and `ConflictTerm` is `none`.
use distribution_system.Prelude.{ℕ, Bool, true, false, Option, List}
use distribution_system.Raft.Persister.{Persister}

-- NodeState: Follower = 1, Candidate = 2, Leader = 3
pub data NodeState : Type 0 where
  follower candidate leader : NodeState

pub data Timer : Type 0 where
  stopped running : Timer

-- `command` is the nil interface in the guard entry at the head of a log.
pub record LogEntry (C : Type 0) : Type 0 where
  pub command : Option C
  pub term : ℕ

-- The messages on `applyCh`: a committed command, or a snapshot for the service.
pub data ApplyMsg (C : Type 0) : Type 0 where
  apply_command : Option C → ℕ → ApplyMsg C
  apply_snapshot : Option (List ℕ) → ℕ → ApplyMsg C

pub record RequestVoteArgs : Type 0 where
  pub term : ℕ
  pub candidate_id : ℕ
  pub last_log_index : ℕ
  pub last_log_term : ℕ

pub record RequestVoteReply : Type 0 where
  pub term : ℕ
  pub vote_granted : Bool

pub record AppendEntriesArgs (C : Type 0) : Type 0 where
  pub term : ℕ
  pub leader_id : ℕ
  pub prev_log_index : ℕ
  pub prev_log_term : ℕ
  pub log_entries : List (LogEntry C)
  pub leader_commit : ℕ

pub record AppendEntriesReply : Type 0 where
  pub term : ℕ
  pub success : Bool
  pub conflict_term : Option ℕ
  pub conflict_index : ℕ

pub record InstallSnapshotArgs : Type 0 where
  pub term : ℕ
  pub leader_id : ℕ
  pub last_included_index : ℕ
  pub last_included_term : ℕ
  pub snapshot : Option (List ℕ)

pub record InstallSnapshotReply : Type 0 where
  pub term : ℕ

-- A goroutine that a handler starts, with what it captures. The vote counter that the goroutines of
-- one election share is a cell of `vote_counts`.
pub data Task (C : Type 0) : Type 0 where
  heartbeat_to : ℕ → Task C
  ask_vote : ℕ → RequestVoteArgs → ℕ → Task C
  sync_snapshot_to : ℕ → Task C
  apply_entries : ℕ → List (LogEntry C) → Task C
  send_message : ApplyMsg C → Task C

pub record Raft (C : Type 0) : Type 0 where
  pub peers : ℕ
  pub persister : Persister
  pub me : ℕ
  pub current_term : ℕ
  pub voted_for : Option ℕ
  pub election_timer : Timer
  pub heartbeat_timer : Timer
  pub state : NodeState
  pub logs : List (LogEntry C)
  pub commit_index : ℕ
  pub last_applied : ℕ
  pub next_index : List ℕ
  pub match_index : List ℕ
  pub snapshotted_index : ℕ
  pub vote_counts : List ℕ
  pub tasks : List (Task C)

abbrev pub is_state : NodeState → NodeState → Bool
is_state follower follower = true
is_state candidate candidate = true
is_state leader leader = true
is_state _ _ = false
