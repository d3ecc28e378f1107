-- ===== src/Raft/Tests.antt =====
-- Runs of the peer's handlers on small inputs, and the theorems about them at such inputs.
use distribution_system.Prelude.{
  ℕ, ◌+◌, ◌≤◌, ◌<◌, ◌/◌, ◌≡◌, refl, ◌↔◌, some, List, [], ◌∷◌, done, panic, Outcome, arith, length,
  true, false, max,
}
use distribution_system.Raft.Persister.{make_persister}
use distribution_system.Raft.Types.{
  candidate, leader, Raft, LogEntry, RequestVoteArgs, RequestVoteReply, AppendEntriesArgs,
  InstallSnapshotArgs,
}
use distribution_system.Raft.Log.{get_absolute_log_index}
use distribution_system.Raft.Storage.{saved}
use distribution_system.Raft.Roles.{votes_of}
use distribution_system.Raft.Vote.{
  request_vote, handle_vote_reply, vote_reply, consider_vote, refuse_vote,
}
use distribution_system.Raft.Vote.Grants.{
  IsFree, IsUpToDate, AreRefused, request_vote_decides, request_vote-keeps_old_vote,
}
use distribution_system.Raft.Vote.Election.{Elected, handle_vote_reply_counts}
use distribution_system.Raft.Append.{accepted, append_reply, append_entries}
use distribution_system.Raft.Append.Replication.{Replicated, append_entries-replicates}
use distribution_system.Raft.Append.Conflicts.{
  RunStart, append_entries-conflict, append_entries-panics,
}
use distribution_system.Raft.Append.AtSnapshot.{replaced, append_entries-replaces}
use distribution_system.Raft.Snapshot.{replace_log_with_snapshot}
use distribution_system.Raft.Snapshot.Compaction.{Compacted, replace_log_with_snapshot-Compacted}
use distribution_system.Raft.Lifecycle.{make}
use distribution_system.Raft.Steps.{here, next, vote_requested, restarted}
use distribution_system.Raft.Ballot.Votes.{restart_recovers, current_term_mono, one_vote_per_term}
use distribution_system.Raft.Samples.{numbers, numbers-IsGob, entry, guard_of, peer}

abbrev ask : ℕ → ℕ → RequestVoteArgs
ask term candidate_id = record {
  term = term;
  candidate_id = candidate_id;
  last_log_index = 2;
  last_log_term = 2;
}

abbrev booted : Raft ℕ
booted = make numbers 3 1 make_persister

-- The peer in a result, or `peer` itself where there is none.
abbrev peer_of : {R : Type 0} → Outcome (Raft ℕ × R) → Raft ℕ
peer_of (done (rf, reply)) = rf
peer_of panic = peer

abbrev voted : Raft ℕ
voted = peer_of (request_vote numbers (ask 4 2) booted)

abbrev recovered : Raft ℕ
recovered = make numbers voted.peers voted.me voted.persister

abbrev voted_again : Raft ℕ
voted_again = peer_of (request_vote numbers (ask 4 2) recovered)

votes : request_vote numbers (ask 4 2) booted ≡ done (voted, vote_reply voted true)
unfolding request_vote consider_vote refuse_vote make make_persister
votes = refl

votes_after_crash :
    request_vote numbers (ask 4 2) recovered ≡ done (voted_again, vote_reply voted_again true)
unfolding request_vote consider_vote refuse_vote make make_persister
votes_after_crash = refl

other_refused :
    request_vote numbers (ask 4 0) recovered
    ≡ done (peer_of (request_vote numbers (ask 4 0) recovered), vote_reply recovered false)
unfolding request_vote consider_vote refuse_vote make make_persister
other_refused = refl

one_vote_per_term_example : (ask 4 2).candidate_id ≡ (ask 4 2).candidate_id
one_vote_per_term_example =
    one_vote_per_term numbers-IsGob 3 1 make_persister booted voted recovered voted_again (ask 4 2)
      (ask 4 2) (vote_reply voted true) (vote_reply voted_again true) here votes refl
      (next here (restarted refl)) votes_after_crash refl refl

restart_recovers_example : saved (make numbers voted.peers voted.me voted.persister) ≡ saved voted
restart_recovers_example =
    restart_recovers numbers-IsGob 3 1 make_persister voted
      (next here (vote_requested (ask 4 2) (vote_reply voted true) votes))

current_term_mono_example : booted.current_term ≤ recovered.current_term
current_term_mono_example =
    current_term_mono numbers-IsGob 3 1 make_persister booted recovered here
      (next (next here (vote_requested (ask 4 2) (vote_reply voted true) votes)) (restarted refl))

request_vote_decides_example :
    (rf' : Raft ℕ) × (reply : RequestVoteReply) × (request_vote numbers (ask 4 2) peer
      ≡ done (rf', reply))
    × (reply.term ≡ max 3 4)
    × ((reply.vote_granted ≡ true) ↔ (
        IsFree (ask 4 2) peer × IsUpToDate (ask 4 2) (entry 20 2) (get_absolute_log_index peer 2)))
request_vote_decides_example = request_vote_decides numbers (ask 4 2) peer (entry 20 2) refl

-- A follower that has voted for peer 0 in term 3.
abbrev loyal : Raft ℕ
loyal = record peer { voted_for = some 0 }

abbrev stale_ask : RequestVoteArgs
stale_ask = record { term = 5; candidate_id = 2; last_log_index = 9; last_log_term = 1 }

request_vote-keeps_old_vote_example :
    (rf' : Raft ℕ) × (request_vote numbers stale_ask loyal ≡ done (rf', vote_reply rf' false))
    × (rf'.voted_for ≡ some 0)
    × (rf'.current_term ≡ 5)
    × AreRefused numbers 0 5 (ask 5 2 ∷ ask 5 1 ∷ []) rf'
request_vote-keeps_old_vote_example =
    request_vote-keeps_old_vote numbers stale_ask (ask 5 2 ∷ ask 5 1 ∷ []) loyal (entry 20 2) 0 refl
      refl refl (omega arith) (λ h. ground arith)
      (refl, (λ q. absurd (omega arith)), (refl, (λ q. absurd (omega arith)), tt))

-- A candidate of term 6 with one vote in each of two elections: that of term 5, and its own.
abbrev running_twice : Raft ℕ
running_twice = record peer {
  current_term = 6;
  voted_for = some 1;
  state = candidate;
  vote_counts = 1 ∷ 1 ∷ [];
}

abbrev late_vote : RequestVoteReply
late_vote = record { term = 5; vote_granted = true }

handle_vote_reply_counts_example :
    (((handle_vote_reply numbers 0 late_vote running_twice).state ≡ leader)
      ↔ (3 / 2 < votes_of 0 running_twice + 1))
    × ((handle_vote_reply numbers 0 late_vote running_twice).current_term ≡ 6)
    × (votes_of 0 (handle_vote_reply numbers 0 late_vote running_twice) ≡ 2)
    × (3 / 2 < votes_of 0 running_twice + 1
        → Elected running_twice (handle_vote_reply numbers 0 late_vote running_twice))
handle_vote_reply_counts_example =
    handle_vote_reply_counts numbers 0 late_vote running_twice refl refl (omega arith)

abbrev request : ℕ → ℕ → ℕ → List (LogEntry ℕ) → ℕ → AppendEntriesArgs ℕ
request term prev prev_term entries commit = record {
  term = term;
  leader_id = 0;
  prev_log_index = prev;
  prev_log_term = prev_term;
  log_entries = entries;
  leader_commit = commit;
}

-- The entry at 2 gives way to the leader's, and 3 is new.
abbrev overwriting : AppendEntriesArgs ℕ
overwriting = request 3 1 1 (entry 30 3 ∷ entry 40 3 ∷ []) 2

append_entries-replicates_example :
    (rf' : Raft ℕ) × (append_entries numbers overwriting peer ≡ done (rf', accepted))
    × Replicated overwriting peer rf'
append_entries-replicates_example = append_entries-replicates numbers overwriting peer (record {
  term = omega arith;
  behind = omega arith;
  own = entry 10 1;
  read = refl;
  own_term = refl;
  applied = omega arith;
})

-- A leader of term 3 that has sent the entry at 1 already.
abbrev leading : Raft ℕ
leading = record peer {
  me = 0;
  state = leader;
  logs = guard_of 0 ∷ entry 10 1 ∷ entry 30 3 ∷ entry 40 3 ∷ [];
  commit_index = 2;
  next_index = 4 ∷ 2 ∷ 4 ∷ [];
  match_index = 3 ∷ 1 ∷ 3 ∷ [];
}

-- The entry at 2 is of term 2, and the leader expects term 3 there.
abbrev conflicting : AppendEntriesArgs ℕ
conflicting = request 3 2 3 [] 2

append_entries-conflict_example :
    (i : ℕ) × (rf' : Raft ℕ) × (append_entries numbers conflicting peer
      ≡ done (rf', append_reply 3 false (some 2) (i + 0)))
    × (rf'.logs ≡ peer.logs)
    × RunStart peer.logs 2 2 i
append_entries-conflict_example =
    append_entries-conflict numbers conflicting peer
      (record {
        term = omega arith;
        behind = omega arith;
        own = entry 20 2;
        read = refl;
        own_term = omega arith;
      })
      (λ first. absurd (omega arith))

-- A follower with a snapshot up to 5, of term 2, and one entry of that term behind it.
abbrev snapshotted : Raft ℕ
snapshotted = record peer {
  logs = entry 10 2 ∷ entry 20 2 ∷ [];
  snapshotted_index = 5;
  commit_index = 5;
  last_applied = 5;
}

append_entries-panics_example : append_entries numbers (request 3 6 3 [] 5) snapshotted ≡ panic
append_entries-panics_example =
    append_entries-panics numbers (request 3 6 3 [] 5) snapshotted
      (record {
        term = omega arith;
        behind = omega arith;
        own = entry 20 2;
        read = refl;
        own_term = omega arith;
      })
      (entry 10 2) refl refl refl

-- A late request with the first entry only, to a peer that has committed two.
abbrev late : AppendEntriesArgs ℕ
late = request 3 0 0 (entry 10 1 ∷ []) 0

abbrev ahead : Raft ℕ
ahead = record peer { commit_index = 2 }

append_entries-replaces_example :
    (rf' : Raft ℕ) × (append_entries numbers late ahead ≡ done (rf', accepted))
    × (rf'.logs ≡ replaced late ahead)
    × (rf'.snapshotted_index ≡ 0)
    × (rf'.commit_index ≡ 2)
    × (length rf'.logs + 0 ≡ 0 + 1 + 1)
append_entries-replaces_example = append_entries-replaces numbers late ahead (record {
  term = omega arith;
  before = omega arith;
  beyond = omega arith;
  guarded = omega arith;
})

replace_log_with_snapshot-Compacted_example :
    (rf' : Raft ℕ) × (replace_log_with_snapshot numbers 1 (some (7 ∷ [])) peer ≡ done rf')
    × Compacted numbers 1 (some (7 ∷ [])) peer rf'
replace_log_with_snapshot-Compacted_example =
    replace_log_with_snapshot-Compacted numbers 1 (some (7 ∷ [])) peer (omega arith) (omega arith)

abbrev sent_snapshot : InstallSnapshotArgs
sent_snapshot = record {
  term = 4;
  leader_id = 0;
  last_included_index = 2;
  last_included_term = 2;
  snapshot = some (7 ∷ []);
}
