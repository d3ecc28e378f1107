-- ===== src/Raft/Lifecycle.antt =====
-- raft/raft.go: Make, Start, GetState, the timer loop, and the goroutine that applies entries.
use distribution_system.Prelude.{
  ℕ, ◌+◌, Bool, Option, none, some, List, [], ◌∷◌, ◌++◌, done, ◌>>=◌, ltb, if◌then◌else◌, length,
  put_at, Outcome, replicate,
}
use distribution_system.Raft.Persister.{Persister, read_raft_state}
use distribution_system.Raft.Types.{
  follower, candidate, leader, running, stopped, Raft, LogEntry, ApplyMsg, apply_command, is_state,
}
use distribution_system.Raft.Log.{get_absolute_log_index}
use distribution_system.Raft.Storage.{Gob, persist, read_persist}
use distribution_system.Raft.Roles.{broadcast_heartbeat, convert_to, start_election}

module _ {C : Type 0} where
  unfoldable pub get_state : Raft C → ℕ × Bool
  get_state rf = (rf.current_term, is_state rf.state leader)

  -- A peer before `readPersist`.
  abbrev pub fresh : ℕ → ℕ → Persister → Raft C
  fresh peers me persister = record {
    peers = peers;
    persister = persister;
    me = me;
    current_term = 0;
    voted_for = none;
    election_timer = running;
    heartbeat_timer = running;
    state = follower;
    logs = record { command = none; term = 0 } ∷ [];
    commit_index = 0;
    last_applied = 0;
    next_index = [];
    match_index = [];
    snapshotted_index = 0;
    vote_counts = [];
    tasks = [];
  }

  abbrev with_indexes : Raft C → Raft C
  with_indexes rf = record rf {
    next_index = replicate rf.peers (length rf.logs);
    match_index = replicate rf.peers 0;
  }

  -- The messages that the goroutine of `setCommitIndex` sends on `applyCh`, in order.
  unfoldable pub apply_messages : ℕ → List (LogEntry C) → List (ApplyMsg C)
  apply_messages start [] = []
  apply_messages start (e ∷ entries) =
      apply_command e.command start ∷ apply_messages (start + 1) entries

  -- What that goroutine writes back after each message.
  unfoldable pub note_applied : ℕ → Raft C → Raft C
  note_applied index rf =
      if ltb rf.last_applied index then record rf { last_applied = index } else rf

  -- `case <-node.heartbeatTimer.C`: a timer that has fired is stopped.
  unfoldable pub on_heartbeat_timer : Raft C → Raft C
  on_heartbeat_timer rf =
      if is_state rf.state leader
      then (let sent = broadcast_heartbeat rf in record sent { heartbeat_timer = running })
      else record rf { heartbeat_timer = stopped }

module _ {C : Type 0} (gob : Gob C) where
  unfoldable pub make : ℕ → ℕ → Persister → Raft C
  unfolding read_persist read_raft_state
  make peers me persister =
      with_indexes (read_persist gob (read_raft_state persister) (fresh peers me persister))

  -- The part of `Start` behind GetState, for the term that GetState returned.
  unfoldable pub append_command : ℕ → C → Raft C → Outcome (Raft C)
  unfolding get_absolute_log_index persist
  append_command term command rf = do
    let index = get_absolute_log_index rf (length rf.logs)
    match_index ← put_at rf.match_index rf.me index
    next_index ← put_at rf.next_index rf.me (index + 1)
    done (
        broadcast_heartbeat (
          persist gob (record rf {
            logs = rf.logs ++ record { command = some command; term = term } ∷ [];
            match_index = match_index;
            next_index = next_index;
          })))

  -- Start with nothing between its two critical sections. An index of -1 is `none`.
  unfoldable pub start : C → Raft C → Outcome (Raft C × Option ℕ × ℕ × Bool)
  unfolding get_state
  start command rf =
      let (term, is_leader) = get_state rf in
      if is_leader
      then (do
        rf' ← append_command term command rf
        done (rf', some (get_absolute_log_index rf (length rf.logs)), term, is_leader))
      else done (rf, none, term, is_leader)

  -- `case <-node.electionTimer.C`
  unfoldable pub on_election_timer : Raft C → Outcome (Raft C)
  unfolding convert_to
  on_election_timer rf =
      let reset = record rf { election_timer = running } in
      if is_state rf.state follower
      then convert_to gob candidate reset
      else start_election gob reset
