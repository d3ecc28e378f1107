-- ===== src/Raft/Steps.antt =====
-- The life of one peer as a sequence of atomic steps: its RPC handlers, the critical sections of its
-- goroutines, its timers, the calls of its service, and a crash with a restart from the persister.
use distribution_system.Prelude.{ℕ, Option, List, ◌≡◌, done}
use distribution_system.Raft.Types.{
  running, Raft, RequestVoteArgs, RequestVoteReply, AppendEntriesArgs, AppendEntriesReply,
  InstallSnapshotArgs, InstallSnapshotReply,
}
use distribution_system.Raft.Storage.{Gob}
use distribution_system.Raft.Vote.{request_vote, handle_vote_reply}
use distribution_system.Raft.Append.{append_entries}
use distribution_system.Raft.Heartbeat.{handle_append_reply}
use distribution_system.Raft.Snapshot.{
  replace_log_with_snapshot, install_snapshot, handle_snapshot_reply,
}
use distribution_system.Raft.Lifecycle.{
  make, append_command, note_applied, on_election_timer, on_heartbeat_timer,
}

-- The environment chooses the step and its arguments; replies may be late, lost or repeated.
pub data Step {C : Type 0} (gob : Gob C) (rf rf' : Raft C) : Type 0 where
  vote_requested :
      (args : RequestVoteArgs) (reply : RequestVoteReply)
      → request_vote gob args rf ≡ done (rf', reply)
      → Step gob rf rf'
  vote_answered :
      (election : ℕ) (reply : RequestVoteReply)
      → rf' ≡ handle_vote_reply gob election reply rf
      → Step gob rf rf'
  append_requested :
      (args : AppendEntriesArgs C) (reply : AppendEntriesReply)
      → append_entries gob args rf ≡ done (rf', reply)
      → Step gob rf rf'
  append_answered :
      (server : ℕ) (args : AppendEntriesArgs C) (reply : AppendEntriesReply)
      → handle_append_reply gob server args reply rf ≡ done rf'
      → Step gob rf rf'
  snapshot_requested :
      (args : InstallSnapshotArgs) (reply : InstallSnapshotReply)
      → install_snapshot gob args rf ≡ done (rf', reply)
      → Step gob rf rf'
  snapshot_answered :
      (server : ℕ) (args : InstallSnapshotArgs) (reply : InstallSnapshotReply)
      → handle_snapshot_reply gob server args reply rf ≡ done rf'
      → Step gob rf rf'
  command_started :
      (term : ℕ) (command : C) → append_command gob term command rf ≡ done rf' → Step gob rf rf'
  log_replaced :
      (applied_index : ℕ) (snapshot : Option (List ℕ))
      → replace_log_with_snapshot gob applied_index snapshot rf ≡ done rf'
      → Step gob rf rf'
  entry_applied : (index : ℕ) → rf' ≡ note_applied index rf → Step gob rf rf'
  election_timed_out :
      rf.election_timer ≡ running → on_election_timer gob rf ≡ done rf' → Step gob rf rf'
  heartbeat_timed_out : rf.heartbeat_timer ≡ running → rf' ≡ on_heartbeat_timer rf → Step gob rf rf'
  restarted : rf' ≡ make gob rf.peers rf.me rf.persister → Step gob rf rf'

pub data Steps {C : Type 0} (gob : Gob C) (rf : Raft C) : Raft C → Type 0 where
  here : Steps gob rf rf
  next : {rf' rf'' : Raft C} → Steps gob rf rf' → Step gob rf' rf'' → Steps gob rf rf''
