-- ===== src/Raft/Vote.antt =====
-- raft/raft.go: the RequestVote handler, and what an election's goroutine does with the reply.
pub mod Grants
pub mod Election
use distribution_system.Prelude.{
  ◌>>=◌, ℕ, ◌-◌, ◌/◌, Bool, true, false, ◌&&◌, ◌||◌, Option, none, some, Outcome, done, ltb, ◌==◌,
  if◌then◌else◌, length, at, not,
}
use distribution_system.Raft.Types.{
  candidate, Raft, LogEntry, RequestVoteArgs, RequestVoteReply, is_state,
}
use distribution_system.Raft.Log.{get_absolute_log_index}
use distribution_system.Raft.Storage.{Gob, persist}
use distribution_system.Raft.Roles.{
  reset_election_timer, adopt_term, become_follower, become_leader, add_vote, votes_of,
}

-- `rf.votedFor != -1 && rf.votedFor != candidateId`
abbrev pub voted_for_other : Option ℕ → ℕ → Bool
voted_for_other none candidate_id = false
voted_for_other (some v) candidate_id = not (v == candidate_id)

module _ {C : Type 0} where
  unfoldable pub refuse_vote : RequestVoteArgs → Raft C → Bool
  refuse_vote args rf =
      ltb args.term rf.current_term
      || (args.term == rf.current_term && voted_for_other rf.voted_for args.candidate_id)

  -- The receiver's log is more up-to-date than the candidate's.
  unfoldable pub more_up_to_date : RequestVoteArgs → Raft C → LogEntry C → Bool
  unfolding get_absolute_log_index
  more_up_to_date args rf last =
      ltb args.last_log_term last.term
      || (args.last_log_term == last.term
          && ltb args.last_log_index (get_absolute_log_index rf (length rf.logs - 1)))

  abbrev pub vote_reply : Raft C → Bool → RequestVoteReply
  vote_reply rf granted = record { term = rf.current_term; vote_granted = granted }

  unfoldable pub grant : RequestVoteArgs → Raft C → Raft C
  unfolding reset_election_timer
  grant args rf = reset_election_timer (record rf { voted_for = some args.candidate_id })

  -- The part of the handler behind the term checks.
  unfoldable pub consider_vote : RequestVoteArgs → Raft C → Outcome (Raft C × RequestVoteReply)
  unfolding more_up_to_date grant
  consider_vote args rf = do
    last ← at rf.logs (length rf.logs - 1)
    if more_up_to_date args rf last
        then done (rf, vote_reply rf false)
        else done (grant args rf, vote_reply rf true)

module _ {C : Type 0} (gob : Gob C) where
  unfoldable pub request_vote : RequestVoteArgs → Raft C → Outcome (Raft C × RequestVoteReply)
  unfolding adopt_term persist
  request_vote args rf =
      if refuse_vote args rf then done (persist gob rf, vote_reply rf false) else do
        (rf', reply) ← consider_vote args (adopt_term args.term rf)
        done (persist gob rf', reply)

  -- The goroutine of `startElection`, once its RPC has been answered.
  unfoldable pub handle_vote_reply : ℕ → RequestVoteReply → Raft C → Raft C
  unfolding become_follower persist
  handle_vote_reply election reply rf =
      if reply.vote_granted && is_state rf.state candidate
      then (let counted = add_vote election rf in
          if ltb (rf.peers / 2) (votes_of election counted) then become_leader counted else counted)
      else if ltb rf.current_term reply.term
      then persist gob (become_follower (record rf { current_term = reply.term }))
      else rf
