-- ===== src/Linearizability/Checker/Tests.antt =====
-- Histories of the key-value model that checkSingle runs on.
use Prim.Native.String.{String}
use distribution_system.Prelude.{
  ℕ, ◌+◌, ◌≡◌, refl, ◌<◌, Bool, true, false, some, inl, inr, List, [], ◌∷◌, arith, done,
}
use distribution_system.Prelude.Dict.{lookup, insert}
use distribution_system.Linearizability.Bitset.{
  set_bit, clear_bit, bitset_index, clone, new_bitset, hash, xor_all, popcnt, popcnt_word, equals,
  equal_words,
}
use distribution_system.Linearizability.KvModel.{KvInput, KvOutput, kv_model, step, equal}
use distribution_system.Linearizability.Entries.{call_entry, return_entry, Entry}
use distribution_system.Linearizability.Nodes.{
  make_linked_entries, push_node, insert_before, length_of, length_from, lift, unlift,
}
use distribution_system.Linearizability.Nodes.History.{HasCall, IsHistory}
use distribution_system.Linearizability.Checker.{
  result, timed_out, collect_results, check_single, search, start_search, round, try_call,
  cache_contains, contains, push_call, pop_call, add_to_cache,
}
use distribution_system.Linearizability.Checker.Explore.{never}
use distribution_system.Linearizability.Checker.Linearizable.{IsLinearizable, AcceptsAll}
use distribution_system.Linearizability.Checker.Later.{check_single-ends, check_single-linearizes}
use distribution_system.Linearizability.Checker.Results.{collect_results-all_true}

abbrev called : ℕ → ℕ → String → Entry KvInput KvOutput
called id op value = record {
  kind = call_entry;
  value = inl (record { op = op; key = "x"; value = value });
  id = id;
  time = some 0;
}

abbrev returned : ℕ → String → Entry KvInput KvOutput
returned id value = record {
  kind = return_entry;
  value = inr (record { value = value });
  id = id;
  time = some 1;
}

-- A put and a get overlap, and the get still reads the old value.
abbrev overlapping : List (Entry KvInput KvOutput)
overlapping = called 0 1 "1" ∷ called 1 0 "" ∷ returned 0 "" ∷ returned 1 "" ∷ []

-- The get starts when the put has returned, and reads the old value.
abbrev stale : List (Entry KvInput KvOutput)
stale = called 0 1 "1" ∷ returned 0 "" ∷ called 1 0 "" ∷ returned 1 "" ∷ []

called_on :
    (n id op : ℕ) (value : String) (entries : List (Entry KvInput KvOutput))
    → ¬ HasCall entries id
    → id < n
    → IsHistory n entries
    → IsHistory n (called id op value ∷ entries)
called_on n id op value entries new lt h =
    ((λ q. ((record { op = op; key = "x"; value = value }, refl), new)), (λ q. absurd (cc)), lt, h)

returned_on :
    (n id : ℕ) (value : String) (entries : List (Entry KvInput KvOutput))
    → id < n
    → IsHistory n entries
    → IsHistory n (returned id value ∷ entries)
returned_on n id value entries lt h =
    ((λ q. absurd (cc)), (λ q. (record { value = value }, refl)), lt, h)

not_called :
    (id id' : ℕ) (value : String) (entries : List (Entry KvInput KvOutput))
    → ¬ HasCall entries id
    → ¬ HasCall (returned id' value ∷ entries) id
not_called id id' value entries h (inl (q, r)) = absurd (cc)
not_called id id' value entries h (inr p) = h p

overlapping-IsHistory : IsHistory 2 overlapping
overlapping-IsHistory =
    let two =
      returned_on 2 0 "" (returned 1 "" ∷ []) (omega arith)
        (returned_on 2 1 "" [] (omega arith) tt) in
    let none_called =
      λ (id : ℕ). not_called id 0 "" (returned 1 "" ∷ []) (not_called id 1 "" [] (λ h. h)) in
    called_on 2 0 1 "1" (called 1 0 "" ∷ returned 0 "" ∷ returned 1 "" ∷ [])
      (other_called (none_called 0)) (omega arith)
      (called_on 2 1 0 "" (returned 0 "" ∷ returned 1 "" ∷ []) (none_called 1) (omega arith) two)
  where
    other_called :
        ¬ HasCall (returned 0 "" ∷ returned 1 "" ∷ []) 0
        → ¬ HasCall (called 1 0 "" ∷ returned 0 "" ∷ returned 1 "" ∷ []) 0
    other_called h (inl (q, r)) = omega arith
    other_called h (inr p) = h p

kv_accepts : AcceptsAll kv_model
unfolding kv_model
kv_accepts s inp out = ((step s inp out).0, (step s inp out).1, refl)

overlapping-true :
    check_single kv_model equal never 20
      (make_linked_entries overlapping).root
      (make_linked_entries overlapping).store
    ≡ done (some true)
unfolding check_single search start_search make_linked_entries push_node insert_before round lookup
    insert try_call kv_model step set_bit bitset_index clone new_bitset length_of length_from
    cache_contains contains push_call pop_call lift unlift add_to_cache clear_bit hash xor_all
    popcnt popcnt_word equals equal_words equal
overlapping-true = refl

stale-false :
    check_single kv_model equal never 20
      (make_linked_entries stale).root
      (make_linked_entries stale).store
    ≡ done (some false)
unfolding check_single search start_search make_linked_entries push_node insert_before round lookup
    insert try_call kv_model step set_bit bitset_index clone new_bitset length_of length_from
    cache_contains contains push_call pop_call lift unlift add_to_cache clear_bit hash xor_all
    popcnt popcnt_word equals equal_words equal
stale-false = refl

check_single-ends_example :
    (answer : Bool) × (k : ℕ) × ((more : ℕ)
      → check_single kv_model equal never
          (more + k)
          (make_linked_entries overlapping).root
          (make_linked_entries overlapping).store
        ≡ done (some answer))
check_single-ends_example =
    check_single-ends kv_model equal overlapping overlapping-IsHistory kv_accepts

check_single-linearizes_example : IsLinearizable overlapping kv_model
check_single-linearizes_example =
    check_single-linearizes kv_model equal overlapping overlapping-IsHistory kv_accepts 20
      overlapping-true

collect_results-all_true_example :
    (collect_results 2 0 (result true ∷ result false ∷ []) ≡ some false)
    × (collect_results 3 0 (result true ∷ result false ∷ timed_out ∷ []) ≡ some false)
collect_results-all_true_example = collect_results-all_true true (false ∷ []) 3 [] (omega arith)
