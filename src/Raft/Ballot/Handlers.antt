-- ===== src/Raft/Ballot/Handlers.antt =====
-- Each handler keeps the vote of its term and stores what it changes.
use distribution_system.Prelude.{ℕ, ◌≡◌, Option, List, done, arith}
use distribution_system.Raft.Types.{
  running, candidate, Raft, RequestVoteArgs, RequestVoteReply, AppendEntriesArgs,
  AppendEntriesReply, InstallSnapshotArgs, InstallSnapshotReply,
}
use distribution_system.Raft.Storage.{Gob}
use distribution_system.Raft.Roles.{start_election, add_vote}
use distribution_system.Raft.Lifecycle.{
  on_election_timer, on_heartbeat_timer, note_applied, append_command,
}
use distribution_system.Raft.Frame.{
  Same, set_commit_index-Same, sync_loop-tasks, record_success-Same, back_off-Same,
  election_loop-Campaigns, become_leader-Same, broadcast_heartbeat-Same,
}
use distribution_system.Raft.Append.{
  append_entries, append_checked, append_at_snapshot, append_matching, append_conflict,
  follow_commit,
}
use distribution_system.Raft.Vote.{request_vote, handle_vote_reply, consider_vote, refuse_vote}
use distribution_system.Raft.Heartbeat.{handle_append_reply}
use distribution_system.Raft.Snapshot.{
  replace_log_with_snapshot, install, install_snapshot, handle_snapshot_reply,
}
use distribution_system.Raft.Ballot.{Follows}

module _ {C : Type 0} (gob : Gob C) where
  pub request_vote-Follows :
      (args : RequestVoteArgs) (reply : RequestVoteReply) (rf rf' : Raft C)
      → request_vote gob args rf ≡ done (rf', reply)
      → Follows gob rf rf'
  unfolding request_vote refuse_vote consider_vote
  request_vote-Follows args reply rf rf' h = ground arith

  pub handle_vote_reply-Follows :
      (election : ℕ) (reply : RequestVoteReply) (rf : Raft C)
      → Follows gob rf (handle_vote_reply gob election reply rf)
  unfolding handle_vote_reply
  handle_vote_reply-Follows election reply rf =
      ground (arith, become_leader-Same (add_vote election rf))

  pub handle_append_reply-Follows :
      (server : ℕ) (args : AppendEntriesArgs C) (reply : AppendEntriesReply) (rf rf' : Raft C)
      → handle_append_reply gob server args reply rf ≡ done rf'
      → Follows gob rf rf'
  unfolding handle_append_reply
  handle_append_reply-Follows server args reply rf rf' h =
      ground (arith, record_success-Same server args rf rf', back_off-Same server args reply rf rf')

  pub handle_snapshot_reply-Follows :
      (server : ℕ) (args : InstallSnapshotArgs) (reply : InstallSnapshotReply) (rf rf' : Raft C)
      → handle_snapshot_reply gob server args reply rf ≡ done rf'
      → Follows gob rf rf'
  unfolding handle_snapshot_reply
  handle_snapshot_reply-Follows server args reply rf rf' h = ground arith

  pub install_snapshot-Follows :
      (args : InstallSnapshotArgs) (reply : InstallSnapshotReply) (rf rf' : Raft C)
      → install_snapshot gob args rf ≡ done (rf', reply)
      → Follows gob rf rf'
  unfolding install_snapshot install
  install_snapshot-Follows args reply rf rf' h = ground arith

  pub append_command-Follows :
      (term : ℕ) (command : C) (rf rf' : Raft C)
      → append_command gob term command rf ≡ done rf'
      → Follows gob rf rf'
  unfolding append_command
  append_command-Follows term command rf rf' h = grind (arith, broadcast_heartbeat-Same)

  pub replace_log_with_snapshot-Follows :
      (applied_index : ℕ) (snapshot : Option (List ℕ)) (rf rf' : Raft C)
      → replace_log_with_snapshot gob applied_index snapshot rf ≡ done rf'
      → Follows gob rf rf'
  unfolding replace_log_with_snapshot
  replace_log_with_snapshot-Follows applied_index snapshot rf rf' h = grind (arith, sync_loop-tasks)

  pub start_election-Follows :
      (rf rf' : Raft C) → start_election gob rf ≡ done rf' → Follows gob rf rf'
  unfolding start_election
  start_election-Follows rf rf' h = grind (arith, election_loop-Campaigns)

  pub on_election_timer-Follows :
      (rf rf' : Raft C) → on_election_timer gob rf ≡ done rf' → Follows gob rf rf'
  unfolding on_election_timer
  on_election_timer-Follows rf rf' h = ground (
    arith,
    start_election-Follows (record rf { election_timer = running }) rf',
    start_election-Follows (record rf { election_timer = running; state = candidate }) rf',
  )

  pub on_heartbeat_timer-Follows : (rf : Raft C) → Follows gob rf (on_heartbeat_timer rf)
  unfolding on_heartbeat_timer
  on_heartbeat_timer-Follows rf = ground (arith, broadcast_heartbeat-Same rf)

  pub note_applied-Follows : (index : ℕ) (rf : Raft C) → Follows gob rf (note_applied index rf)
  unfolding note_applied
  note_applied-Follows index rf = ground arith

  follow_commit-Same : (c : ℕ) (rf rf' : Raft C) → follow_commit c rf ≡ done rf' → Same rf rf'
  unfolding follow_commit
  follow_commit-Same c rf rf' h = grind (arith, set_commit_index-Same)

  -- All but the log is left alone.
  record SameVote (rf rf' : Raft C) : Type 0 where
    current_term : rf'.current_term ≡ rf.current_term
    voted_for : rf'.voted_for ≡ rf.voted_for

  append_matching-SameVote :
      (args : AppendEntriesArgs C) (rf rf' : Raft C)
      → append_matching args rf ≡ done rf'
      → SameVote rf rf'
  unfolding append_matching
  append_matching-SameVote args rf rf' h = grind (arith, follow_commit-Same)

  append_at_snapshot-SameVote :
      (args : AppendEntriesArgs C) (rf rf' : Raft C)
      → append_at_snapshot args rf ≡ done rf'
      → SameVote rf rf'
  unfolding append_at_snapshot
  append_at_snapshot-SameVote args rf rf' h = ground arith

  append_checked-SameVote :
      (args : AppendEntriesArgs C) (rf : Raft C) (r : Raft C × AppendEntriesReply)
      → append_checked args rf ≡ done r
      → SameVote rf r.0
  unfolding append_checked append_conflict
  append_checked-SameVote args rf (rf', reply) h =
      ground (arith, append_at_snapshot-SameVote args rf rf', append_matching-SameVote args rf rf')

  pub append_entries-Follows :
      (args : AppendEntriesArgs C) (reply : AppendEntriesReply) (rf rf' : Raft C)
      → append_entries gob args rf ≡ done (rf', reply)
      → Follows gob rf rf'
  unfolding append_entries
  append_entries-Follows args reply rf rf' h = grind (arith, append_checked-SameVote)
