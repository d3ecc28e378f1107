-- ===== src/Linearizability/Entries.antt =====
-- linearizability/linearizability.go: the entries of a history.
use distribution_system.Prelude.{
  ℕ, ◌+◌, ltb, Bool, true, false, ◌⊎◌, inl, inr, Option, none, some, List, [], ◌∷◌, map,
}
use distribution_system.Prelude.Dict.{Dict, lookup, insert, nat_eq}
use distribution_system.Linearizability.Model.{
  Operation, EventKind, call_event, return_event, Event,
}

pub data EntryKind : Type 0 where
  call_entry return_entry : EntryKind

-- `time` is `none` for -1.
pub record Entry (I O : Type 0) : Type 0 where
  pub kind : EntryKind
  pub value : I ⊎ O
  pub id : ℕ
  pub time : Option ℕ

-- The comparison of two times
unfoldable pub time_less : Option ℕ → Option ℕ → Bool
time_less none none = false
time_less none (some t) = true
time_less (some s) none = false
time_less (some s) (some t) = ltb s t

-- byTime.Less, on two entries
unfoldable pub by_time_less : {I O : Type 0} → Entry I O → Entry I O → Bool
unfolding time_less
by_time_less a b = time_less a.time b.time

unfoldable pub entry_kind : EventKind → EntryKind
entry_kind call_event = call_entry
entry_kind return_event = return_entry

module _ {I O : Type 0} where
  -- The loop of makeEntries, from the operation with number `id` on.
  unfoldable pub entries_from : ℕ → List (Operation I O) → List (Entry I O)
  entries_from id [] = []
  entries_from id (elem ∷ history) =
      record { kind = call_entry; value = inl elem.input; id = id; time = some elem.call }
      ∷ record {
        kind = return_entry;
        value = inr elem.output;
        id = id;
        time = some elem.return_time;
      }
      ∷ entries_from (id + 1) history

  -- `sort_by_time` is sort.Sort on byTime.
  unfoldable pub make_entries :
      (List (Entry I O) → List (Entry I O)) → List (Operation I O) → List (Entry I O)
  unfolding entries_from
  make_entries sort_by_time history = sort_by_time (entries_from 0 history)

  -- The loop of renumber, with the map and the next number.
  unfoldable pub renumber_from : Dict ℕ ℕ → ℕ → List (Event I O) → List (Event I O)
  renumber_from m id [] = []
  renumber_from m id (v ∷ events) = elim (lookup v.id m) [
    | some r ↦ record v { id = r } ∷ renumber_from m id events
    | none ↦ record v { id = id } ∷ renumber_from (insert v.id id m) (id + 1) events
  ]

  unfoldable pub renumber : List (Event I O) → List (Event I O)
  unfolding renumber_from
  renumber events = renumber_from [] 0 events

  unfoldable pub convert_entries : List (Event I O) → List (Entry I O)
  unfolding entry_kind
  convert_entries events =
      map
        (λ elem. record {
          kind = entry_kind elem.kind;
          value = elem.value;
          id = elem.id;
          time = none;
        })
        events
