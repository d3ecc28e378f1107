-- ===== src/Raft/Append/Conflicts.antt =====
-- AppendEntries where the entry at `PrevLogIndex` has another term: the loop that looks for the
-- first entry of that term, its result, and where it runs off the log.
use distribution_system.Prelude.{
  ℕ, zero, suc, ◌+◌, ◌-◌, ◌≤◌, ◌<◌, ◌≡◌, refl, ◌∙◌, ◌≢◌, ◌⊎◌, inl, inr, some, List, ◌>>=◌, done,
  panic, arith, ◌==◌, length, Bool-cases, false, get_elem?, get_elem?_lt, lt_of_get_elem?, le→ltb,
}
use distribution_system.Raft.Types.{Raft, LogEntry, AppendEntriesArgs}
use distribution_system.Raft.Storage.{Gob, persist}
use distribution_system.Raft.Roles.{reset_election_timer}
use distribution_system.Raft.Append.{
  append_reply, first_of_term, append_conflict, append_checked, append_entries,
}
use distribution_system.Raft.Append.Replication.{SameLog, joined, joined-SameLog, joined-term}

module _ {C : Type 0} where
  -- `i` is where the run of entries of the term that ends at `p` begins, or 1.
  pub record RunStart (logs : List (LogEntry C)) (term p i : ℕ) : Type 0 where
    pub low : 1 ≤ i
    pub high : i ≤ p
    pub run :
        (j : ℕ) → i ≤ j → j < p → (e : LogEntry C) × (get_elem? logs j ≡ some e) × (e.term ≡ term)
    pub first : (i ≡ 1) ⊎ ((e : LogEntry C) × (get_elem? logs (i - 1) ≡ some e) × (e.term ≢ term))

  RunStart-suc :
      {logs : List (LogEntry C)} {term k i : ℕ} (e : LogEntry C)
      → get_elem? logs k ≡ some e
      → e.term ≡ term
      → RunStart logs term k i
      → RunStart logs term (suc k) i
  RunStart-suc {logs} {term} {k} {i} e read same r = record {
    low = r.low;
    high = omega (arith, r.high);
    run = λ j above below. elim (Bool-cases (j == k)) [
      | inl last ↦ (e, ground (arith, read, last), same)
      | inr earlier ↦ r.run j above (ground (arith, below, earlier))
    ];
    first = r.first;
  }

  abbrev Ends : List (LogEntry C) → ℕ → ℕ → Type 0
  Ends logs term p = (i : ℕ) × (first_of_term logs term p ≡ done i) × RunStart logs term p i

  Ends-at_once :
      (logs : List (LogEntry C)) (term k : ℕ) (e : LogEntry C)
      → get_elem? logs k ≡ some e
      → (e.term == term) ≡ false
      → Ends logs term (suc k)
  unfolding first_of_term
  Ends-at_once logs term k e read other =
      let back : suc k - 1 ≡ k = omega arith in
      (
        suc k,
        rw (read, other) refl,
        record {
          low = omega arith;
          high = omega arith;
          run = λ j above below. absurd (omega arith);
          first = inr (e, rw back read, ground (arith, other));
        },
      )

  -- The loop ends within the log, unless it starts at 1 and the guard has the term too.
  first_of_term_total :
      (logs : List (LogEntry C)) (term p : ℕ)
      → 1 ≤ p
      → p < length logs
      → (p ≡ 1 → (g : LogEntry C) → get_elem? logs 0 ≡ some g → g.term ≢ term)
      → Ends logs term p
  unfolding first_of_term
  first_of_term_total logs term zero low high guard = absurd (omega arith)
  first_of_term_total logs term (suc zero) low high guard =
      let (e, read) = get_elem?_lt logs 0 (omega arith) in
      elim (Bool-cases (e.term == term)) [
        | inr other ↦ Ends-at_once logs term 0 e read other
        | inl same ↦ absurd (guard refl e read (ground (arith, same)))
      ]
  first_of_term_total logs term (suc (suc m)) low high guard =
      let (e, read) = get_elem?_lt logs (suc m) (omega arith) in
      elim (Bool-cases (e.term == term)) [
        | inr other ↦ Ends-at_once logs term (suc m) e read other
        | inl same ↦ elim (Bool-cases (suc m == 1)) [
          | inl one ↦ (
            suc m,
            rw (read, same, one) refl,
            RunStart-suc e read (ground (arith, same)) (record {
              low = omega arith;
              high = omega arith;
              run = λ j above below. absurd (omega arith);
              first = inl (ground (arith, one));
            }),
          )
          | inr more ↦
              let (i, ends, r) =
                first_of_term_total logs term (suc m) (omega arith) (omega arith)
                  (λ one. absurd (ground (arith, more, one))) in
              (i, rw (read, same, more) ends, RunStart-suc e read (ground (arith, same)) r)
        ]
      ]

  -- The follower has an entry at `PrevLogIndex`, behind its snapshot, of another term.
  pub record Conflicts (args : AppendEntriesArgs C) (rf : Raft C) : Type 0 where
    pub term : rf.current_term ≤ args.term
    pub behind : rf.snapshotted_index < args.prev_log_index
    pub own : LogEntry C
    pub read : get_elem? rf.logs (args.prev_log_index - rf.snapshotted_index) ≡ some own
    pub own_term : own.term ≢ args.prev_log_term

  append_checked_conflict :
      (args : AppendEntriesArgs C) (rf : Raft C) (c : Conflicts args rf)
      → append_checked args rf
        ≡ append_conflict args (args.prev_log_index - rf.snapshotted_index) c.own.term rf
  unfolding append_checked
  append_checked_conflict args rf c =
      ground (arith, c.read, c.own_term, c.behind, lt_of_get_elem? rf.logs _ c.read)

  joined-Conflicts :
      (args : AppendEntriesArgs C) {rf later : Raft C}
      → SameLog rf later
      → later.current_term ≡ args.term
      → Conflicts args rf
      → Conflicts args later
  joined-Conflicts args s same c = record {
    term = omega arith;
    behind = rw s.snapshotted_index c.behind;
    own = c.own;
    read = rw (s.logs, s.snapshotted_index) c.read;
    own_term = c.own_term;
  }

module _ {C : Type 0} (gob : Gob C) where
  -- The handler behind the term check, on a request that conflicts.
  append_entries_conflict :
      (args : AppendEntriesArgs C) (rf : Raft C) (c : Conflicts args rf)
      → append_entries gob args rf ≡ (
          append_conflict args
            (args.prev_log_index - rf.snapshotted_index)
            c.own.term
            (joined args.term rf)
          >>= λ r. done (persist gob r.0, r.1))
  unfolding append_entries joined-Conflicts
  append_entries_conflict args rf c =
      let s = joined-SameLog args.term rf in
      let c' = joined-Conflicts args s (joined-term args.term rf c.term) c in
      rw
        (
          le→ltb args.term rf.current_term c.term,
          append_checked_conflict args (joined args.term rf) c',
          s.snapshotted_index,
        )
        refl

  -- A request of the current term or a later one whose previous entry, behind the snapshot, has another
  -- term in the follower's log is refused with that term and the first index, behind the snapshot,
  -- of the run of entries of that term that ends there; the log stays. If the previous entry is
  -- the one right behind the guard, the guard must not have that term.
  pub append_entries-conflict :
      (args : AppendEntriesArgs C) (rf : Raft C) (c : Conflicts args rf)
      → (args.prev_log_index ≡ rf.snapshotted_index + 1
          → (g : LogEntry C) → get_elem? rf.logs 0 ≡ some g
          → g.term ≢ c.own.term)
      → (i : ℕ) × (rf' : Raft C) × (append_entries gob args rf
          ≡ done (rf', append_reply args.term false (some c.own.term) (i + rf.snapshotted_index)))
        × (rf'.logs ≡ rf.logs)
        × RunStart rf.logs c.own.term (args.prev_log_index - rf.snapshotted_index) i
  unfolding append_conflict persist reset_election_timer
  append_entries-conflict args rf c guard =
      let s = joined-SameLog args.term rf in
      let (i, ends, start) =
        first_of_term_total rf.logs c.own.term (args.prev_log_index - rf.snapshotted_index)
          (omega (arith, c.behind)) (lt_of_get_elem? rf.logs _ c.read)
          (λ one. guard (omega (arith, one, c.behind))) in
      (
        i,
        persist gob (joined args.term rf),
        append_entries_conflict args rf c
            ∙ rw (s.logs, s.snapshotted_index, ends, joined-term args.term rf c.term) refl,
        s.logs,
        start,
      )

  -- If the entry before `PrevLogIndex` is the guard of the snapshot and has the term of the entry that
  -- conflicts, the loop passes the guard and reads `logs[-1]`: the peer panics.
  pub append_entries-panics :
      (args : AppendEntriesArgs C) (rf : Raft C) (c : Conflicts args rf) (g : LogEntry C)
      → args.prev_log_index ≡ rf.snapshotted_index + 1
      → get_elem? rf.logs 0 ≡ some g
      → g.term ≡ c.own.term
      → append_entries gob args rf ≡ panic
  unfolding append_conflict first_of_term
  append_entries-panics args rf c g first read same =
      let s = joined-SameLog args.term rf in
      let one : args.prev_log_index - rf.snapshotted_index ≡ suc 0 = omega arith in
      append_entries_conflict args rf c ∙ rw (s.logs, one, read) (ground (arith, same))
