-- ===== src/Raft/Log.antt =====
-- raft/raft.go: absolute and relative log indexes, and setCommitIndex. `rf.logs[0]` is a guard that
-- stands for the last snapshotted entry.
use distribution_system.Prelude.{
  ◌>>=◌, ℕ, ◌+◌, ◌-◌, [], ◌∷◌, ◌++◌, Outcome, done, panic, ltb, leb, if◌then◌else◌, slice,
}
use distribution_system.Raft.Types.{Raft, Task, apply_entries}

module _ {C : Type 0} where
  -- A negative result is used by the source only as an index or a slice bound, which panics.
  unfoldable pub get_relative_log_index : Raft C → ℕ → Outcome ℕ
  get_relative_log_index rf index =
      if leb rf.snapshotted_index index then done (index - rf.snapshotted_index) else panic

  unfoldable pub get_absolute_log_index : Raft C → ℕ → ℕ
  get_absolute_log_index rf index = index + rf.snapshotted_index

  -- `go f(…)`: the goroutines are recorded in the order in which they are started.
  abbrev pub spawn : Task C → Raft C → Raft C
  spawn t rf = record rf { tasks = rf.tasks ++ t ∷ [] }

  unfoldable pub set_commit_index : ℕ → Raft C → Outcome (Raft C)
  unfolding get_relative_log_index
  set_commit_index commit_index rf =
      if ltb rf.last_applied commit_index
      then (do
        lo ← get_relative_log_index rf (rf.last_applied + 1)
        hi ← get_relative_log_index rf (commit_index + 1)
        entries ← slice rf.logs lo hi
        done (
            spawn (apply_entries (rf.last_applied + 1) entries)
              (record rf { commit_index = commit_index })))
      else done (record rf { commit_index = commit_index })
