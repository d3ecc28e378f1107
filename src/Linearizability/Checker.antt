-- ===== src/Linearizability/Checker.antt =====
-- linearizability/linearizability.go: checkSingle, and the checks of whole histories.
pub mod Trail
pub mod Lifted
pub mod Fits
pub mod Reads
pub mod Rounds
pub mod Explore
pub mod Verdict
pub mod Linearizable
pub mod Later
pub mod Results
mod Tests
use distribution_system.Prelude.{
  ℕ, zero, suc, ◌+◌, ◌-◌, ◌^◌, ◌/◌, leb, Bool, true, false, ◌&&◌, not, ◌⊎◌, inl, inr, Option, none,
  some, List, [], ◌∷◌, ◌++◌, if◌then◌else◌, Outcome, done, panic, ◌>>=◌, or_panic,
}
use distribution_system.Prelude.Dict.{Dict, lookup, insert, nat_eq}
use distribution_system.Linearizability.Model.{Model}
use distribution_system.Linearizability.Bitset.{
  Bitset, new_bitset, clone, set_bit, clear_bit, hash, equals,
}
use distribution_system.Linearizability.Nodes.{
  Info, Store, new_node, insert_before, length_of, lift, unlift,
}

pub record CacheEntry (S : Type 0) : Type 0 where
  pub linearized : Bitset
  pub state : S

pub record CallsEntry (S : Type 0) : Type 0 where
  pub entry : ℕ
  pub state : S

-- The variables of checkSingle. `calls` has the last call first.
pub record Search (I O S : Type 0) : Type 0 where
  pub store : Store I O
  pub head_entry : ℕ
  pub entry : Option ℕ
  pub state : S
  pub linearized : Bitset
  pub cache : Dict ℕ (List (CacheEntry S))
  pub calls : List (CallsEntry S)

-- A round of the loop goes on, or the function returns.
pub data Round (I O S : Type 0) : Type 0 where
  goes_on : Search I O S → Round I O S
  answers : Bool → Round I O S

-- An interface value as the input, or the output, that Step takes it for.
abbrev pub as_input : {I O : Type 0} → Option (I ⊎ O) → Outcome I
as_input (some (inl i)) = done i
as_input (some (inr o)) = panic
as_input none = panic

abbrev pub as_output : {I O : Type 0} → Option (I ⊎ O) → Outcome O
as_output (some (inr o)) = done o
as_output (some (inl i)) = panic
as_output none = panic

-- cache[h], nil where there is none
abbrev pub cached_at : {S : Type 0} → ℕ → Dict ℕ (List (CacheEntry S)) → List (CacheEntry S)
cached_at h cache = elim (lookup h cache) [ none ↦ [] | some elems ↦ elems ]

module _ {S : Type 0} (equal : S → S → Bool) where
  unfoldable pub contains : List (CacheEntry S) → CacheEntry S → Bool
  contains [] entry = false
  contains (elem ∷ elems) entry =
      if equals entry.linearized elem.linearized && equal entry.state elem.state
      then true
      else contains elems entry

  unfoldable pub cache_contains : Dict ℕ (List (CacheEntry S)) → CacheEntry S → Bool
  unfolding contains
  cache_contains cache entry = contains (cached_at (hash entry.linearized) cache) entry

-- cache[hash] = append(cache[hash], newCacheEntry)
unfoldable pub add_to_cache :
    {S : Type 0} → CacheEntry S → Dict ℕ (List (CacheEntry S)) → Dict ℕ (List (CacheEntry S))
add_to_cache entry cache =
    let h = hash entry.linearized in insert h (cached_at h cache ++ entry ∷ []) cache

module _ {I O S : Type 0} where
  -- entry = entry.next, at `e`
  abbrev pub go_next : ℕ → Search I O S → Round I O S
  go_next e c = goes_on (record c { entry = c.store.next e })

  -- The call at `e` is taken as the next one.
  unfoldable pub push_call : ℕ → ℕ → ℕ → S → CacheEntry S → Search I O S → Outcome (Round I O S)
  unfolding add_to_cache
  push_call e m id new_state entry c = do
    linearized ← set_bit id c.linearized
    store ← lift e m c.store
    done (
        goes_on (record c {
          store = store;
          entry = store.next c.head_entry;
          state = new_state;
          linearized = linearized;
          cache = add_to_cache entry c.cache;
          calls = record { entry = e; state = c.state } ∷ c.calls;
        }))

  unfoldable pub pop_call :
      CallsEntry S → List (CallsEntry S) → Search I O S → Outcome (Round I O S)
  pop_call top calls c = do
    i ← or_panic (c.store.info top.entry)
    linearized ← clear_bit i.id c.linearized
    m ← or_panic i.match
    store ← unlift top.entry m c.store
    done (
        goes_on (record c {
          store = store;
          entry = store.next top.entry;
          state = top.state;
          linearized = linearized;
          calls = calls;
        }))

  module _ (model : Model I O S) (equal : S → S → Bool) where
    -- `entry.match != nil`
    unfoldable pub try_call : ℕ → Info I O → ℕ → Search I O S → Outcome (Round I O S)
    try_call e i m c = do
      matching ← or_panic (c.store.info m)
      inp ← as_input i.value
      out ← as_output matching.value
      (ok, new_state) ← model.step c.state inp out
      if not ok then done (go_next e c) else (do
        new_linearized ← set_bit i.id (clone c.linearized)
        let entry : CacheEntry S = record { linearized = new_linearized; state = new_state }
        if cache_contains equal c.cache entry
            then done (go_next e c)
            else push_call e m i.id new_state entry c)

    -- One round of the loop, behind the test of `kill`.
    unfoldable pub round : Search I O S → Outcome (Round I O S)
    round c = do
      e ← or_panic c.entry
      i ← or_panic (c.store.info e)
      elim i.match [
        | some m ↦ try_call e i m c
        | none ↦ elim c.calls [ [] ↦ done (answers false) | top ∷ calls ↦ pop_call top calls c ]
      ]

    -- The loop, with the rounds left, and what `kill` is in each of them.
    unfoldable pub search : (ℕ → Bool) → ℕ → Search I O S → Outcome (Option Bool)
    search kill zero c = done none
    search kill (suc rounds) c = elim (c.store.next c.head_entry) [
      | none ↦ done (some true)
      | some first ↦ elim (kill rounds) [
        | true ↦ done (some false)
        | false ↦ round c >>= λ r. elim r [
          | answers b ↦ done (some b)
          | goes_on c' ↦ search kill rounds c'
        ]
      ]
    ]

    unfoldable pub start_search : Option ℕ → Store I O → Search I O S
    unfolding insert_before
    start_search subhistory h = record {
      store =
          insert_before h.size subhistory
            (new_node (record { value = none; match = none; id = 2 ^ 64 - 1 }) h);
      head_entry = h.size;
      entry = subhistory;
      state = model.init;
      linearized = new_bitset (length_of subhistory h / 2);
      cache = [];
      calls = [];
    }

    unfoldable pub check_single : (ℕ → Bool) → ℕ → Option ℕ → Store I O → Outcome (Option Bool)
    check_single kill rounds subhistory h = search kill rounds (start_search subhistory h)

-- What the loop over the results receives.
pub data Received : Type 0 where
  result : Bool → Received
  timed_out : Received

-- The loop over the results of `n` partitions, `count` of which have come: `none` while it waits.
unfoldable pub collect_results : ℕ → ℕ → List Received → Option Bool
collect_results n count [] = none
collect_results n count (timed_out ∷ events) = some true
collect_results n count (result b ∷ events) =
    let rest = collect_results n (count + 1) events in
    if not b then some false else if leb n (count + 1) then some true else rest
