-- ===== src/Raft/Frame.antt =====
-- What the internal routines of a peer leave alone: everything that the peer persists.
use distribution_system.Prelude.{
  ℕ, zero, suc, ◌+◌, ◌≡◌, refl, done, arith, Bool-cases, inl, inr, ◌==◌, map, some, length,
}
use distribution_system.Raft.Types.{
  leader, stopped, ask_vote, Raft, RequestVoteArgs, AppendEntriesArgs, AppendEntriesReply,
}
use distribution_system.Raft.Log.{set_commit_index, spawn, get_absolute_log_index}
use distribution_system.Raft.Roles.{
  heartbeat_loop, broadcast_heartbeat, election_loop, become_leader, add_vote,
}
use distribution_system.Raft.Snapshot.{sync_loop}
use distribution_system.Raft.Heartbeat.{commit_scan, advance_commit, record_success, back_off}

-- The parts of a peer that outlive a crash, with its identity.
pub record Same {C : Type 0} (rf rf' : Raft C) : Type 0 where
  pub peers : rf'.peers ≡ rf.peers
  pub me : rf'.me ≡ rf.me
  pub current_term : rf'.current_term ≡ rf.current_term
  pub voted_for : rf'.voted_for ≡ rf.voted_for
  pub snapshotted_index : rf'.snapshotted_index ≡ rf.snapshotted_index
  pub logs : rf'.logs ≡ rf.logs
  pub persister : rf'.persister ≡ rf.persister

module _ {C : Type 0} where
  pub heartbeat_loop-tasks :
      (n i : ℕ) (rf : Raft C)
      → heartbeat_loop n i rf ≡ record rf { tasks = (heartbeat_loop n i rf).tasks }
  unfolding heartbeat_loop
  heartbeat_loop-tasks zero i rf = refl
  heartbeat_loop-tasks (suc n) i rf = elim (Bool-cases (i == rf.me)) [
    | inl e ↦ rw (e, heartbeat_loop) (heartbeat_loop-tasks n (i + 1) rf)
    | inr e ↦ rw (e, heartbeat_loop) (heartbeat_loop-tasks n (i + 1) _)
  ]

  pub sync_loop-tasks :
      (n i : ℕ) (rf : Raft C) → sync_loop n i rf ≡ record rf { tasks = (sync_loop n i rf).tasks }
  unfolding sync_loop
  sync_loop-tasks zero i rf = refl
  sync_loop-tasks (suc n) i rf = elim (Bool-cases (i == rf.me)) [
    | inl e ↦ rw (e, sync_loop) (sync_loop-tasks n (i + 1) rf)
    | inr e ↦ rw (e, sync_loop) (sync_loop-tasks n (i + 1) _)
  ]

  pub set_commit_index-Same :
      (c : ℕ) (rf rf' : Raft C) → set_commit_index c rf ≡ done rf' → Same rf rf'
  unfolding set_commit_index
  set_commit_index-Same c rf rf' h = ground arith

  pub commit_scan-Same : (n : ℕ) (rf rf' : Raft C) → commit_scan n rf ≡ done rf' → Same rf rf'
  unfolding commit_scan
  commit_scan-Same zero rf rf' h = ground arith
  commit_scan-Same (suc n) rf rf' h =
      ground
        (arith, commit_scan-Same n rf rf', set_commit_index-Same (rf.commit_index + suc n) rf rf')

  pub broadcast_heartbeat-Same : (rf : Raft C) → Same rf (broadcast_heartbeat rf)
  unfolding broadcast_heartbeat
  broadcast_heartbeat-Same rf = rw (heartbeat_loop-tasks rf.peers 0 rf) (ground arith)

  pub become_leader-Same : (rf : Raft C) → Same rf (become_leader rf)
  unfolding become_leader
  become_leader-Same rf = ground (
    arith,
    broadcast_heartbeat-Same (record rf {
      state = leader;
      next_index = map (λ _. get_absolute_log_index rf (length rf.logs)) rf.next_index;
      match_index = map (λ _. rf.snapshotted_index) rf.match_index;
      election_timer = stopped;
    }),
  )

  pub advance_commit-Same : (rf rf' : Raft C) → advance_commit rf ≡ done rf' → Same rf rf'
  unfolding advance_commit
  advance_commit-Same rf rf' h = commit_scan-Same _ rf rf' h

  pub record_success-Same :
      (server : ℕ) (args : AppendEntriesArgs C) (rf rf' : Raft C)
      → record_success server args rf ≡ done rf'
      → Same rf rf'
  unfolding record_success
  record_success-Same server args rf rf' h = grind (arith, advance_commit-Same)

  pub back_off-Same :
      (server : ℕ) (args : AppendEntriesArgs C) (reply : AppendEntriesReply) (rf rf' : Raft C)
      → back_off server args reply rf ≡ done rf'
      → Same rf rf'
  unfolding back_off
  back_off-Same server args reply rf rf' h = ground arith

  -- What starting an election persists: the next term, and the peer's own vote or the old one.
  pub record Campaigns (rf rf' : Raft C) : Type 0 where
    pub peers : rf'.peers ≡ rf.peers
    pub me : rf'.me ≡ rf.me
    pub current_term : rf'.current_term ≡ rf.current_term
    pub snapshotted_index : rf'.snapshotted_index ≡ rf.snapshotted_index
    pub logs : rf'.logs ≡ rf.logs
    pub persister : rf'.persister ≡ rf.persister
    pub state : rf'.state ≡ rf.state

  pub election_loop-Campaigns :
      (n i : ℕ) (args : RequestVoteArgs) (election : ℕ) (rf : Raft C)
      → Campaigns rf (election_loop n i args election rf)
  unfolding election_loop
  election_loop-Campaigns zero i args election rf = ground arith
  election_loop-Campaigns (suc n) i args election rf = elim (Bool-cases (i == rf.me)) [
    | inl e ↦ rw e (
        ground (
          arith,
          election_loop-Campaigns n (i + 1) args election
              (add_vote election (record rf { voted_for = some rf.me })),
        ))
    | inr e ↦ rw e (
        ground (
          arith,
          election_loop-Campaigns n (i + 1) args election (spawn (ask_vote i args election) rf),
        ))
  ]
