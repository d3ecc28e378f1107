-- ===== src/Linearizability/Checks.antt =====
-- linearizability/linearizability.go: CheckOperations. The goroutines send their answers in the order of
-- `arrive`, which reorders the partitions. Nobody sets the kill flag before the verdict.
pub mod Verdicts
mod SortedEntries
mod Tests
use distribution_system.Prelude.{
  ℕ, Bool, Option, none, some, List, [], ◌∷◌, map, length, Outcome, done, ◌>>=◌, or_panic,
}
use distribution_system.Linearizability.Model.{Operation, Model, no_partition, fill_default}
use distribution_system.Linearizability.Entries.{Entry, make_entries}
use distribution_system.Linearizability.Nodes.{make_linked_entries}
use distribution_system.Linearizability.Checker.{check_single, result, collect_results}
use distribution_system.Linearizability.Checker.Explore.{never}

abbrev pub add_answer : Option Bool → Option (List Bool) → Option (List Bool)
add_answer none bs = none
add_answer (some b) none = none
add_answer (some b) (some bs) = some (b ∷ bs)

module _ {I O S : Type 0} (sort_by_time : List (Entry I O) → List (Entry I O))
    (model : Model I O S) where
  -- The goroutine of a partition.
  unfoldable pub check_partition : (S → S → Bool) → ℕ → List (Operation I O) → Outcome (Option Bool)
  check_partition equal rounds subhistory =
      let l = make_linked_entries (make_entries sort_by_time subhistory) in
      check_single model equal never rounds l.root l.store

  unfoldable pub check_partitions :
      (S → S → Bool) → ℕ → List (List (Operation I O)) → Outcome (Option (List Bool))
  unfolding check_partition
  check_partitions equal rounds [] = done (some [])
  check_partitions equal rounds (subhistory ∷ rest) = do
    b ← check_partition equal rounds subhistory
    bs ← check_partitions equal rounds rest
    done (add_answer b bs)

-- The loop over the answers of `n` partitions.
abbrev pub verdict_of : ℕ → Option (List Bool) → Option Bool
verdict_of n none = none
verdict_of n (some bs) = collect_results n 0 (map result bs)

-- The functions of the model, or the default ones.
abbrev pub partition_of :
    {I O S : Type 0} → Model I O S → List (Operation I O) → List (List (Operation I O))
partition_of model = elim model.partition [ none ↦ no_partition | some p ↦ p ]

abbrev pub equal_of : {I O S : Type 0} → (S → S → Bool) → Model I O S → S → S → Bool
equal_of shallow_equal model = elim model.equal [ none ↦ shallow_equal | some e ↦ e ]

module _ {I O S : Type 0} where
  -- CheckOperations, with the rounds left to each goroutine.
  unfoldable pub check_operations :
      (List (Entry I O) → List (Entry I O))
      → (S → S → Bool)
      → (List (List (Operation I O)) → List (List (Operation I O)))
      → ℕ
      → Model I O S
      → List (Operation I O)
      → Outcome (Option Bool)
  unfolding check_partitions fill_default
  check_operations sort_by_time shallow_equal arrive rounds model history = do
    let filled = fill_default shallow_equal model
    partition ← or_panic filled.partition
    equal ← or_panic filled.equal
    let partitions = partition history
    answers ← check_partitions sort_by_time filled equal rounds (arrive partitions)
    done (verdict_of (length partitions) answers)
