-- ===== src/Raft/Ballot/Votes.antt =====
-- One vote per term: over any run of a peer, with crashes, it does not grant two candidates its
-- vote in one term.
use distribution_system.Prelude.{ℕ, ◌≤◌, ◌≡◌, refl, ◌⊎◌, inl, inr, some, done, arith, true, some}
use distribution_system.Raft.Types.{Raft, RequestVoteArgs, RequestVoteReply}
use distribution_system.Raft.Persister.{Persister}
use distribution_system.Raft.Storage.{Gob, IsGob, saved}
use distribution_system.Raft.Lifecycle.{make}
use distribution_system.Raft.Vote.{request_vote, consider_vote, refuse_vote}
use distribution_system.Raft.Steps.{
  Step, vote_requested, vote_answered, append_requested, append_answered, snapshot_requested,
  snapshot_answered, command_started, log_replaced, entry_applied, election_timed_out,
  heartbeat_timed_out, restarted, Steps, here, next,
}
use distribution_system.Raft.Ballot.{
  IsDurable, KeepsVote, KeepsVote-trans, Follows, Stores-IsDurable,
}
use distribution_system.Raft.Ballot.Handlers.{
  request_vote-Follows, handle_vote_reply-Follows, append_entries-Follows,
  handle_append_reply-Follows, install_snapshot-Follows, handle_snapshot_reply-Follows,
  append_command-Follows, replace_log_with_snapshot-Follows, note_applied-Follows,
  on_election_timer-Follows, on_heartbeat_timer-Follows,
}

module _ {C : Type 0} {gob : Gob C} where
  -- A step either follows the peer's state or is a restart.
  Step-cases :
      {rf rf' : Raft C}
      → Step gob rf rf'
      → Follows gob rf rf' ⊎ (rf' ≡ make gob rf.peers rf.me rf.persister)
  Step-cases (vote_requested args reply h) = inl (request_vote-Follows gob args reply _ _ h)
  Step-cases {rf} (vote_answered election reply h) =
      inl (rw h (handle_vote_reply-Follows gob election reply rf))
  Step-cases (append_requested args reply h) = inl (append_entries-Follows gob args reply _ _ h)
  Step-cases (append_answered server args reply h) =
      inl (handle_append_reply-Follows gob server args reply _ _ h)
  Step-cases (snapshot_requested args reply h) = inl (install_snapshot-Follows gob args reply _ _ h)
  Step-cases (snapshot_answered server args reply h) =
      inl (handle_snapshot_reply-Follows gob server args reply _ _ h)
  Step-cases (command_started term command h) = inl (append_command-Follows gob term command _ _ h)
  Step-cases (log_replaced applied_index snapshot h) =
      inl (replace_log_with_snapshot-Follows gob applied_index snapshot _ _ h)
  Step-cases {rf} (entry_applied index h) = inl (rw h (note_applied-Follows gob index rf))
  Step-cases (election_timed_out armed h) = inl (on_election_timer-Follows gob _ _ h)
  Step-cases {rf} (heartbeat_timed_out armed h) = inl (rw h (on_heartbeat_timer-Follows gob rf))
  Step-cases (restarted h) = inr h

-- A restarted peer is the same peer over the same persister.
record IsBooted {C : Type 0} (peers me : ℕ) (persister : Persister) (rf : Raft C) : Type 0 where
  peers_eq : rf.peers ≡ peers
  me_eq : rf.me ≡ me
  persister_eq : rf.persister ≡ persister

module _ {C : Type 0} (gob : Gob C) (peers me : ℕ) (persister : Persister) where
  make-IsBooted : IsBooted peers me persister (make gob peers me persister)
  unfolding make
  make-IsBooted = ground arith

  make-IsDurable : IsDurable gob (make gob peers me persister)
  make-IsDurable = let b = make-IsBooted in rw (b.peers_eq, b.me_eq, b.persister_eq) refl

module _ {C : Type 0} where
  saved-KeepsVote : {rf rf' : Raft C} → saved rf' ≡ saved rf → KeepsVote rf rf'
  saved-KeepsVote e = ground (arith, e)

module _ {C : Type 0} {gob : Gob C} (law : IsGob gob) where
  pub Step-IsDurable : {rf rf' : Raft C} → Step gob rf rf' → IsDurable gob rf → IsDurable gob rf'
  Step-IsDurable {rf} {rf'} st d = elim (Step-cases st) [
    | inl f ↦ Stores-IsDurable law f.stores d
    | inr e ↦ rw e (make-IsDurable gob rf.peers rf.me rf.persister)
  ]

  pub Step-KeepsVote : {rf rf' : Raft C} → Step gob rf rf' → IsDurable gob rf → KeepsVote rf rf'
  Step-KeepsVote st d = elim (Step-cases st) [ inl f ↦ f.keeps | inr e ↦ rw e (saved-KeepsVote d) ]

  pub Steps-IsDurable : {rf rf' : Raft C} → Steps gob rf rf' → IsDurable gob rf → IsDurable gob rf'
  Steps-IsDurable here d = d
  Steps-IsDurable (next sts st) d = Step-IsDurable st (Steps-IsDurable sts d)

  pub Steps-KeepsVote : {rf rf' : Raft C} → Steps gob rf rf' → IsDurable gob rf → KeepsVote rf rf'
  Steps-KeepsVote here d = record { term_le = omega arith; vote_kept = λ e. inr refl }
  Steps-KeepsVote (next sts st) d =
      KeepsVote-trans (Steps-KeepsVote sts d) (Step-KeepsVote st (Steps-IsDurable sts d))

  -- Whatever a peer has done since its first start, with any number of crashes, a restart from its
  -- persister gives back its term, its vote, its snapshot index and its log.
  pub restart_recovers :
      (peers me : ℕ) (persister : Persister) (rf : Raft C)
      → Steps gob (make gob peers me persister) rf
      → saved (make gob rf.peers rf.me rf.persister) ≡ saved rf
  restart_recovers peers me persister rf run =
      Steps-IsDurable run (make-IsDurable gob peers me persister)

  -- The term of a peer never falls, also across crashes.
  pub current_term_mono :
      (peers me : ℕ) (persister : Persister) (rf rf' : Raft C)
      → Steps gob (make gob peers me persister) rf
      → Steps gob rf rf'
      → rf.current_term ≤ rf'.current_term
  current_term_mono peers me persister rf rf' run more =
      (Steps-KeepsVote more (Steps-IsDurable run (make-IsDurable gob peers me persister))).term_le

  granted :
      (args : RequestVoteArgs) (reply : RequestVoteReply) (rf rf' : Raft C)
      → request_vote gob args rf ≡ done (rf', reply)
      → reply.vote_granted ≡ true
      → (rf'.current_term ≡ args.term) × (rf'.voted_for ≡ some args.candidate_id)
  unfolding request_vote refuse_vote consider_vote
  granted args reply rf rf' h g = ground arith

  -- If a peer, started in any way, grants its vote twice in a term, then to the same candidate,
  -- whatever happens in between: other requests, its own elections, crashes and restarts.
  pub one_vote_per_term :
      (peers me : ℕ) (persister : Persister) (rf rf' rf'' rf''' : Raft C)
      (first second : RequestVoteArgs) (reply reply' : RequestVoteReply)
      → Steps gob (make gob peers me persister) rf
      → request_vote gob first rf ≡ done (rf', reply)
      → reply.vote_granted ≡ true
      → Steps gob rf' rf''
      → request_vote gob second rf'' ≡ done (rf''', reply')
      → reply'.vote_granted ≡ true
      → first.term ≡ second.term
      → first.candidate_id ≡ second.candidate_id
  one_vote_per_term peers me persister rf rf' rf'' rf''' first second reply reply' run h g more h'
        g' e =
      let d' =
        Steps-IsDurable (next run (vote_requested first reply h))
          (make-IsDurable gob peers me persister) in
      let kept = Steps-KeepsVote (next more (vote_requested second reply' h')) d' in
      ground (
        arith,
        granted first reply rf rf' h g,
        granted second reply' rf'' rf''' h' g',
        kept.vote_kept,
      )
