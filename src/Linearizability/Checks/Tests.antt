-- ===== src/Linearizability/Checks/Tests.antt =====
-- A history of the key-value model, with operations on two keys, of which two overlap.
use Prim.Native.String.{String}
use distribution_system.Prelude.{
  ℕ, ◌+◌, ◌≡◌, refl, Bool, true, some, List, [], ◌∷◌, length, arith, done,
}
use distribution_system.Prelude.Dict.{lookup, insert}
use distribution_system.Linearizability.Model.{fill_default}
use distribution_system.Linearizability.KvModel.{
  KvOperation, kv_model, partition, partition_from, step, equal,
}
use distribution_system.Linearizability.Bitset.{
  set_bit, clear_bit, bitset_index, clone, new_bitset, hash, xor_all, popcnt, popcnt_word, equals,
  equal_words,
}
use distribution_system.Linearizability.Entries.{
  make_entries, entries_from, by_time_less, time_less,
}
use distribution_system.Linearizability.Nodes.{
  make_linked_entries, push_node, insert_before, length_of, length_from, lift, unlift,
}
use distribution_system.Linearizability.Checker.{
  check_single, search, start_search, round, try_call, cache_contains, contains, push_call,
  pop_call, add_to_cache, collect_results,
}
use distribution_system.Linearizability.Checker.Linearizable.{AcceptsAll}
use distribution_system.Linearizability.Reordering.{Reorders, empty, keeps}
use distribution_system.Linearizability.Checks.{
  check_partition, check_partitions, partition_of, check_operations,
}
use distribution_system.Linearizability.Checks.SortedEntries.{
  insert_entry, sort_entries, sort_entries-Reorders, sort_entries-IsSorted,
}
use distribution_system.Linearizability.Checks.Verdicts.{
  AreLinearizable, check_operations-AreLinearizable, check_operations-ends,
}

abbrev operation : ℕ → String → String → String → ℕ → ℕ → KvOperation
operation op key value output call_time return_at = record {
  input = record { op = op; key = key; value = value };
  call = call_time;
  output = record { value = output };
  return_time = return_at;
}

-- put x 1, and during it get x; then append y 2. The entries are not sorted.
abbrev history : List KvOperation
history = operation 2 "y" "2" "" 6 7 ∷ operation 1 "x" "1" "" 0 5 ∷ operation 0 "x" "" "1" 2 3 ∷ []

abbrev as_it_is : {A : Type 0} → List A → List A
as_it_is l = l

Reorders-refl : {A : Type 0} (l : List A) → Reorders l l
Reorders-refl [] = empty
Reorders-refl (x ∷ l) = keeps x l l (Reorders-refl l)

kv_model-AcceptsAll : AcceptsAll kv_model
unfolding kv_model
kv_model-AcceptsAll s inp out = ((step s inp out).0, (step s inp out).1, refl)

history-true : check_operations sort_entries equal as_it_is 20 kv_model history ≡ done (some true)
unfolding check_operations check_partitions check_partition fill_default partition partition_from
    make_entries entries_from check_single search start_search make_linked_entries push_node
    insert_before round lookup insert try_call kv_model step set_bit bitset_index clone new_bitset
    length_of length_from cache_contains contains push_call pop_call lift unlift add_to_cache
    sort_entries insert_entry by_time_less time_less clear_bit hash xor_all popcnt popcnt_word
    equals equal_words equal collect_results
history-true = refl

check_operations-AreLinearizable_example :
    AreLinearizable (fill_default equal kv_model) (partition_of kv_model history)
check_operations-AreLinearizable_example =
    check_operations-AreLinearizable sort_entries equal as_it_is kv_model sort_entries-Reorders
      Reorders-refl kv_model-AcceptsAll 20 history sort_entries-IsSorted history-true

two_partitions : length (partition_of kv_model history) ≡ 2
unfolding kv_model partition partition_from lookup insert
two_partitions = refl

check_operations-ends_example :
    (verdict : Bool) × (k : ℕ) × ((more : ℕ)
      → check_operations sort_entries equal as_it_is (more + k) kv_model history
        ≡ done (some verdict))
check_operations-ends_example =
    check_operations-ends sort_entries equal as_it_is kv_model sort_entries-Reorders Reorders-refl
      kv_model-AcceptsAll history (omega (arith, two_partitions))
