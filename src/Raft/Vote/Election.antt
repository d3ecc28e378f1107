-- ===== src/Raft/Vote/Election.antt =====
-- Elections: what a peer does when its election timer fires, and when it becomes the leader.
use distribution_system.Prelude.{
  ℕ, zero, suc, ◌+◌, ◌/◌, ◌<◌, ◌≡◌, sym, subst, ◌↔◌, some, List, [], ◌∷◌, ◌++◌, map, arith, true,
  length, get_elem?-set_self, ◌==◌, if◌then◌else◌,
}
use distribution_system.Raft.Types.{
  candidate, leader, running, stopped, Raft, LogEntry, RequestVoteReply, ask_vote,
}
use distribution_system.Raft.Log.{get_absolute_log_index}
use distribution_system.Raft.Storage.{Gob, saved}
use distribution_system.Raft.Roles.{
  broadcast_heartbeat, become_leader, votes_of, add_vote, vote_request,
}
use distribution_system.Raft.Frame.{heartbeat_loop-tasks}
use distribution_system.Raft.Vote.{handle_vote_reply}

-- The peers from `i` on, `n` of them, but `me`.
abbrev pub others : ℕ → ℕ → ℕ → List ℕ
others me zero i = []
others me (suc n) i = let rest = others me n (i + 1) in if i == me then rest else i ∷ rest

module _ {C : Type 0} where
  -- A leader at the start of its rule: it expects every log to end where its own does.
  pub record Elected (rf rf' : Raft C) : Type 0 where
    pub state : rf'.state ≡ leader
    pub current_term : rf'.current_term ≡ rf.current_term
    pub logs : rf'.logs ≡ rf.logs
    pub next_index : rf'.next_index ≡ map (λ _. length rf.logs + rf.snapshotted_index) rf.next_index
    pub match_index : rf'.match_index ≡ map (λ _. rf.snapshotted_index) rf.match_index
    pub election_timer : rf'.election_timer ≡ stopped
    pub heartbeat_timer : rf'.heartbeat_timer ≡ running

  become_leader-Elected : (rf : Raft C) → rf.state ≡ candidate → Elected rf (become_leader rf)
  unfolding become_leader broadcast_heartbeat get_absolute_log_index
  become_leader-Elected rf role = ground (
    arith,
    heartbeat_loop-tasks rf.peers 0 (record rf {
      state = leader;
      next_index = map (λ _. length rf.logs + rf.snapshotted_index) rf.next_index;
      match_index = map (λ _. rf.snapshotted_index) rf.match_index;
      election_timer = stopped;
    }),
  )

  become_leader-vote_counts : (rf : Raft C) → (become_leader rf).vote_counts ≡ rf.vote_counts
  unfolding become_leader broadcast_heartbeat get_absolute_log_index
  become_leader-vote_counts rf = ground (
    arith,
    heartbeat_loop-tasks rf.peers 0 (record rf {
      state = leader;
      next_index = map (λ _. length rf.logs + rf.snapshotted_index) rf.next_index;
      match_index = map (λ _. rf.snapshotted_index) rf.match_index;
      election_timer = stopped;
    }),
  )

  of_counted :
      (election : ℕ) {rf rf' : Raft C} → Elected (add_vote election rf) rf' → Elected rf rf'
  of_counted election e = record {
    state = e.state;
    current_term = e.current_term;
    logs = e.logs;
    next_index = e.next_index;
    match_index = e.match_index;
    election_timer = e.election_timer;
    heartbeat_timer = e.heartbeat_timer;
  }

module _ {C : Type 0} (gob : Gob C) where
  -- Behind a granted vote, a candidate that knows the election it came for has one vote more in that
  -- election. It becomes the leader of its current term exactly if the votes of the election are
  -- then more than half of the peers; the terms of the reply and of the election are not
  -- compared with the current one.
  pub handle_vote_reply_counts :
      (election : ℕ) (reply : RequestVoteReply) (rf : Raft C)
      → reply.vote_granted ≡ true
      → rf.state ≡ candidate
      → election < length rf.vote_counts
      → (((handle_vote_reply gob election reply rf).state ≡ leader)
          ↔ (rf.peers / 2 < votes_of election rf + 1))
        × ((handle_vote_reply gob election reply rf).current_term ≡ rf.current_term)
        × (votes_of election (handle_vote_reply gob election reply rf) ≡ votes_of election rf + 1)
        × (rf.peers / 2 < votes_of election rf + 1
            → Elected rf (handle_vote_reply gob election reply rf))
  unfolding handle_vote_reply
  handle_vote_reply_counts election reply rf yea role known =
      let counted = add_vote election rf in
      let elected = become_leader-Elected counted role in
      let kept = become_leader-vote_counts counted in
      let cell = get_elem?-set_self rf.vote_counts election (votes_of election rf + 1) known in
      (
        (λ won. ground (arith, elected.state, cell), λ most. ground (arith, elected.state, cell)),
        ground (arith, elected.current_term, kept, cell),
        ground (arith, kept, cell),
        λ most.
            let handled : handle_vote_reply gob election reply rf ≡ become_leader counted =
              ground (arith, cell) in
            subst (Elected rf) (sym handled) (of_counted election elected),
      )

  -- A peer that runs for the next term: its vote is its own and stored, and it asks every other
  -- peer once, with the end of its log.
  pub record Runs (rf rf' : Raft C) (last : LogEntry C) : Type 0 where
    pub current_term : rf'.current_term ≡ rf.current_term + 1
    pub voted_for : rf'.voted_for ≡ some rf.me
    pub logs : rf'.logs ≡ rf.logs
    pub raftstate : rf'.persister.raftstate ≡ some (gob.encode (saved rf'))
    pub tasks :
        rf'.tasks
        ≡ rf.tasks
          ++ map
              (λ j. ask_vote j (vote_request rf (rf.current_term + 1) last) (length rf.vote_counts))
              (others rf.me rf.peers 0)
