-- ===== src/Raft/Append/Replication.antt =====
-- AppendEntries where the entry at `PrevLogIndex` matches: what the follower's log becomes.
use distribution_system.Prelude.{
  ℕ, ◌+◌, ◌-◌, ◌≤◌, ◌<◌, ◌≡◌, refl, ◌∙◌, ◌≢◌, some, List, ◌++◌, done, panic, ◌>>=◌, arith, min, ltb,
  if◌then◌else◌, length, take, drop, get_elem?, result_of, le→ltb, >>=-eq-done, lt_of_get_elem?,
  le→leb, length-append, length-take,
}
use distribution_system.Raft.Types.{Raft, LogEntry, AppendEntriesArgs}
use distribution_system.Raft.Log.{set_commit_index}
use distribution_system.Raft.Storage.{Gob, persist}
use distribution_system.Raft.Roles.{adopt_term, reset_election_timer}
use distribution_system.Raft.Append.{
  accepted, append_matching, append_checked, append_entries, follow_commit, find_unmatch,
  replace_from,
}
use distribution_system.Raft.Append.Reconcile.{reconcile, replace_unmatched}

module _ {C : Type 0} where
  pub set_commit_index-ne-panic :
      (c : ℕ) (rf : Raft C)
      → rf.snapshotted_index ≤ rf.last_applied + 1
      → c < length rf.logs + rf.snapshotted_index
      → set_commit_index c rf ≢ panic
  unfolding set_commit_index
  set_commit_index-ne-panic c rf h k = ground arith

  follow_commit-ne-panic :
      (c : ℕ) (rf : Raft C)
      → rf.snapshotted_index ≤ rf.last_applied + 1
      → 0 < length rf.logs
      → follow_commit c rf ≢ panic
  unfolding follow_commit
  follow_commit-ne-panic c rf h k = ground (
    arith,
    set_commit_index-ne-panic c rf,
    set_commit_index-ne-panic (length rf.logs - 1 + rf.snapshotted_index) rf,
  )

  -- The follower commits what the leader has committed, as far as its log goes.
  pub record FollowsCommit (c : ℕ) (rf rf' : Raft C) : Type 0 where
    pub logs : rf'.logs ≡ rf.logs
    pub snapshotted_index : rf'.snapshotted_index ≡ rf.snapshotted_index
    pub commit_index : rf'.commit_index ≡ (
        if ltb rf.commit_index c
        then min c (length rf.logs - 1 + rf.snapshotted_index)
        else rf.commit_index)

  follow_commit_lem :
      (c : ℕ) (rf rf' : Raft C) → follow_commit c rf ≡ done rf' → FollowsCommit c rf rf'
  unfolding follow_commit set_commit_index
  follow_commit_lem c rf rf' h = ground arith

  -- The follower's log behind a matching request.
  abbrev pub replicated : AppendEntriesArgs C → Raft C → List (LogEntry C)
  replicated args rf =
      let start = args.prev_log_index + 1 - rf.snapshotted_index in
      take start rf.logs ++ reconcile (drop start rf.logs) args.log_entries

  -- The request is not of an old term, reaches behind the snapshot, and finds its previous entry;
  -- what was applied reaches up to the snapshot.
  pub record Matches (args : AppendEntriesArgs C) (rf : Raft C) : Type 0 where
    pub term : rf.current_term ≤ args.term
    pub behind : rf.snapshotted_index < args.prev_log_index
    pub own : LogEntry C
    pub read : get_elem? rf.logs (args.prev_log_index - rf.snapshotted_index) ≡ some own
    pub own_term : own.term ≡ args.prev_log_term
    pub applied : rf.snapshotted_index ≤ rf.last_applied + 1

  append_matching_lem :
      (args : AppendEntriesArgs C) (rf : Raft C)
      → Matches args rf
      → append_matching args rf
        ≡ follow_commit args.leader_commit (record rf { logs = replicated args rf })
  unfolding append_matching
  append_matching_lem args rf m =
      let start = args.prev_log_index + 1 - rf.snapshotted_index in
      let fits = lt_of_get_elem? rf.logs _ m.read in
      let (u, found, replaced) =
        >>=-eq-done (find_unmatch rf.logs start args.log_entries 0)
          (replace_from rf.logs start args.log_entries)
          (replace_unmatched rf.logs start args.log_entries (omega (arith, m.behind))) in
      rw
        (
          le→leb rf.snapshotted_index (args.prev_log_index + 1) (omega (arith, m.behind)),
          found,
          replaced,
        )
        refl

  pub record SameLog (rf rf' : Raft C) : Type 0 where
    pub logs : rf'.logs ≡ rf.logs
    pub snapshotted_index : rf'.snapshotted_index ≡ rf.snapshotted_index
    pub commit_index : rf'.commit_index ≡ rf.commit_index
    pub last_applied : rf'.last_applied ≡ rf.last_applied

  -- The handler's state behind the term check.
  abbrev pub joined : ℕ → Raft C → Raft C
  joined term rf = reset_election_timer (adopt_term term rf)

  pub joined-SameLog : (term : ℕ) (rf : Raft C) → SameLog rf (joined term rf)
  unfolding adopt_term reset_election_timer
  joined-SameLog term rf = ground arith

  pub joined-term :
      (term : ℕ) (rf : Raft C) → rf.current_term ≤ term → (joined term rf).current_term ≡ term
  unfolding adopt_term reset_election_timer
  joined-term term rf h = ground arith

  joined-Matches :
      (args : AppendEntriesArgs C) (rf : Raft C)
      → Matches args rf
      → Matches args (joined args.term rf)
  unfolding adopt_term reset_election_timer
  joined-Matches args rf m =
      let s = joined-SameLog args.term rf in
      record {
        term = ground (arith, m.term);
        behind = rw s.snapshotted_index m.behind;
        own = m.own;
        read = rw (s.logs, s.snapshotted_index) m.read;
        own_term = m.own_term;
        applied = rw (s.snapshotted_index, s.last_applied) m.applied;
      }

  append_checked_matching :
      (args : AppendEntriesArgs C) (rf : Raft C)
      → Matches args rf
      → append_checked args rf ≡ (append_matching args rf >>= λ rf'. done (rf', accepted))
  unfolding append_checked
  append_checked_matching args rf m =
      ground (arith, m.read, m.own_term, m.behind, lt_of_get_elem? rf.logs _ m.read)

  -- What the request leaves in the follower.
  pub record Replicated (args : AppendEntriesArgs C) (rf rf' : Raft C) : Type 0 where
    pub logs : rf'.logs ≡ replicated args rf
    pub snapshotted_index : rf'.snapshotted_index ≡ rf.snapshotted_index
    pub commit_index : rf'.commit_index ≡ (
        if ltb rf.commit_index args.leader_commit
        then min args.leader_commit (length (replicated args rf) - 1 + rf.snapshotted_index)
        else rf.commit_index)

  replicated_nonempty :
      (args : AppendEntriesArgs C) (rf : Raft C) → Matches args rf → 0 < length (replicated args rf)
  replicated_nonempty args rf m =
      let start = args.prev_log_index + 1 - rf.snapshotted_index in
      omega (
        arith,
        m.behind,
        lt_of_get_elem? rf.logs _ m.read,
        length-append (take start rf.logs) (reconcile (drop start rf.logs) args.log_entries),
        length-take start rf.logs,
      )

  append_checked-Replicated :
      (args : AppendEntriesArgs C) (rf : Raft C)
      → Matches args rf
      → (rf' : Raft C) × (append_checked args rf ≡ done (rf', accepted)) × Replicated args rf rf'
  append_checked-Replicated args rf m =
      let behind : Raft C = record rf { logs = replicated args rf } in
      let (rf', e) = result_of (follow_commit args.leader_commit behind) (
        follow_commit-ne-panic args.leader_commit behind m.applied
          (replicated_nonempty args rf m)) in
      let f = follow_commit_lem args.leader_commit behind rf' e in
      (
        rf',
        rw (append_checked_matching args rf m, append_matching_lem args rf m, e) refl,
        record {
          logs = f.logs;
          snapshotted_index = f.snapshotted_index;
          commit_index = f.commit_index;
        },
      )

  SameLog-Replicated :
      (args : AppendEntriesArgs C) {rf joined' rf' : Raft C}
      → SameLog rf joined'
      → Replicated args joined' rf'
      → Replicated args rf rf'
  SameLog-Replicated args s r = record {
    logs = rw (← s.logs, ← s.snapshotted_index) r.logs;
    snapshotted_index = r.snapshotted_index ∙ s.snapshotted_index;
    commit_index = rw (← s.logs, ← s.snapshotted_index, ← s.commit_index) r.commit_index;
  }

module _ {C : Type 0} (gob : Gob C) where
  -- A request of the current term or a later one, whose previous entry lies behind the follower's snapshot
  -- and is in its log with the term that was sent, where the snapshot ends at most one index behind
  -- lastApplied, succeeds without a panic: the follower keeps its log up to that entry, then
  -- its own entries as long as their terms agree with the leader's, then the leader's; and it
  -- commits what the leader has committed, as far as that log goes.
  pub append_entries-replicates :
      (args : AppendEntriesArgs C) (rf : Raft C)
      → Matches args rf
      → (rf' : Raft C) × (append_entries gob args rf ≡ done (rf', accepted))
        × Replicated args rf rf'
  unfolding append_entries
  append_entries-replicates args rf m =
      let (rf', e, r) =
        append_checked-Replicated args (joined args.term rf) (joined-Matches args rf m) in
      (
        persist gob rf',
        rw (le→ltb args.term rf.current_term m.term, e) refl,
        persisted (SameLog-Replicated args (joined-SameLog args.term rf) r),
      )
    where
      persisted : {rf' : Raft C} → Replicated args rf rf' → Replicated args rf (persist gob rf')
      persisted r = record {
        logs = r.logs;
        snapshotted_index = r.snapshotted_index;
        commit_index = r.commit_index;
      }
