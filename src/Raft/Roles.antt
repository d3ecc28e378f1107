-- ===== src/Raft/Roles.antt =====
-- raft/raft.go: convertTo, startElection, broadcastHeartbeat and the timers. How long a timer runs
-- is not modelled, only whether it runs; `rand_time_duration` gives the range.
use distribution_system.Prelude.{
  ◌>>=◌, ℕ, zero, suc, ◌+◌, ◌-◌, none, some, [], ◌∷◌, ◌++◌, map, Outcome, done, ltb, ◌==◌,
  if◌then◌else◌, length, at, get_elem?, set,
}
use distribution_system.Raft.Types.{
  NodeState, follower, candidate, leader, running, stopped, RequestVoteArgs, Raft, LogEntry,
  heartbeat_to, ask_vote, is_state,
}
use distribution_system.Raft.Log.{get_absolute_log_index, spawn}
use distribution_system.Raft.Storage.{Gob, persist}

-- `drawn` is what rand.Int63n(upper - lower) returned.
unfoldable pub rand_time_duration : ℕ → ℕ → ℕ → ℕ
rand_time_duration lower upper drawn = drawn + lower

module _ {C : Type 0} where
  -- A goroutine for every other peer.
  unfoldable pub heartbeat_loop : ℕ → ℕ → Raft C → Raft C
  heartbeat_loop zero i rf = rf
  heartbeat_loop (suc n) i rf =
      heartbeat_loop n (i + 1) (if i == rf.me then rf else spawn (heartbeat_to i) rf)

  unfoldable pub broadcast_heartbeat : Raft C → Raft C
  broadcast_heartbeat rf = heartbeat_loop rf.peers 0 rf

  unfoldable pub reset_election_timer : Raft C → Raft C
  reset_election_timer rf = record rf { election_timer = running }

  -- convertTo(Follower)
  unfoldable pub become_follower : Raft C → Raft C
  become_follower rf = if is_state rf.state follower then rf else record rf {
    state = follower;
    heartbeat_timer = stopped;
    election_timer = running;
    voted_for = none;
  }

  -- convertTo(Leader)
  unfoldable pub become_leader : Raft C → Raft C
  unfolding broadcast_heartbeat get_absolute_log_index
  become_leader rf =
      if is_state rf.state leader
      then rf
      else let started = broadcast_heartbeat (record rf {
        state = leader;
        next_index = map (λ _. get_absolute_log_index rf (length rf.logs)) rf.next_index;
        match_index = map (λ _. rf.snapshotted_index) rf.match_index;
        election_timer = stopped;
      }) in
        record started { heartbeat_timer = running }

  -- `if term > rf.currentTerm { rf.currentTerm = term; rf.convertTo(Follower) }`
  unfoldable pub adopt_term : ℕ → Raft C → Raft C
  unfolding become_follower
  adopt_term term rf =
      if ltb rf.current_term term then become_follower (record rf { current_term = term }) else rf

  -- The vote counter of an election: its cell of `vote_counts`.
  abbrev pub votes_of : ℕ → Raft C → ℕ
  votes_of election rf = elim (get_elem? rf.vote_counts election) [ none ↦ 0 | some n ↦ n ]

  -- atomic.AddInt32(&voteCount, 1)
  abbrev pub add_vote : ℕ → Raft C → Raft C
  add_vote election rf = record rf {
    vote_counts = set rf.vote_counts election (votes_of election rf + 1);
  }

  unfoldable pub election_loop : ℕ → ℕ → RequestVoteArgs → ℕ → Raft C → Raft C
  election_loop zero i args election rf = rf
  election_loop (suc n) i args election rf = election_loop n (i + 1) args election (
      if i == rf.me
      then add_vote election (record rf { voted_for = some rf.me })
      else spawn (ask_vote i args election) rf)

  unfoldable pub vote_request : Raft C → ℕ → LogEntry C → RequestVoteArgs
  vote_request rf term last = record {
    term = term;
    candidate_id = rf.me;
    last_log_index = get_absolute_log_index rf (length rf.logs - 1);
    last_log_term = last.term;
  }

module _ {C : Type 0} (gob : Gob C) where
  unfoldable pub start_election : Raft C → Outcome (Raft C)
  unfolding vote_request persist
  start_election rf = do
    last ← at rf.logs (length rf.logs - 1)
    let term = rf.current_term + 1
    let args = vote_request rf term last
    done (
        persist gob (
          election_loop rf.peers 0 args (length rf.vote_counts)
            (record rf { current_term = term; vote_counts = rf.vote_counts ++ 0 ∷ [] })))

  unfoldable pub convert_to : NodeState → Raft C → Outcome (Raft C)
  unfolding become_follower
  convert_to follower rf = done (become_follower rf)
  convert_to candidate rf =
      if is_state rf.state candidate
      then done rf
      else start_election (record rf { state = candidate })
  convert_to leader rf = done (become_leader rf)
