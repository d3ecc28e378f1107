-- ===== src/Linearizability/Checks/SortedEntries.antt =====
-- A sort by time, in place of sort.Sort.
use distribution_system.Prelude.{
  ℕ, ◌≡◌, refl, true, false, Bool-cases, inl, inr, Option, none, some, List, [], ◌∷◌, if◌then◌else◌,
  arith,
}
use distribution_system.Linearizability.Entries.{Entry, time_less, by_time_less}
use distribution_system.Linearizability.Sorted.{AreNotLess, IsSorted}
use distribution_system.Linearizability.Reordering.{Reorders, empty, keeps, swaps, chains}

time_less_asym : (s t : Option ℕ) → time_less s t ≡ true → time_less t s ≡ false
unfolding time_less
time_less_asym none none h = refl
time_less_asym none (some t) h = refl
time_less_asym (some s) none h = absurd (cc)
time_less_asym (some s) (some t) h = ground arith

time_less_trans :
    (s t u : Option ℕ) → time_less s t ≡ false → time_less t u ≡ false → time_less s u ≡ false
unfolding time_less
time_less_trans none none u h k = k
time_less_trans none (some t) u h k = absurd (cc)
time_less_trans (some s) none none h k = refl
time_less_trans (some s) none (some u) h k = absurd (cc)
time_less_trans (some s) (some t) none h k = refl
time_less_trans (some s) (some t) (some u) h k = ground arith

module _ {I O : Type 0} where
  unfoldable pub insert_entry : Entry I O → List (Entry I O) → List (Entry I O)
  insert_entry x [] = x ∷ []
  insert_entry x (y ∷ l) =
      let rest = insert_entry x l in if by_time_less y x then y ∷ rest else x ∷ y ∷ l

  unfoldable pub sort_entries : List (Entry I O) → List (Entry I O)
  sort_entries [] = []
  sort_entries (x ∷ l) = insert_entry x (sort_entries l)

  Reorders-refl : (l : List (Entry I O)) → Reorders l l
  Reorders-refl [] = empty
  Reorders-refl (x ∷ l) = keeps x l l (Reorders-refl l)

  insert_entry-Reorders :
      (x : Entry I O) (l : List (Entry I O)) → Reorders (x ∷ l) (insert_entry x l)
  unfolding insert_entry
  insert_entry-Reorders x [] = Reorders-refl (x ∷ [])
  insert_entry-Reorders x (y ∷ l) = elim (Bool-cases (by_time_less y x)) [
    | inl less ↦
        rw (insert_entry, less)
          (chains (x ∷ y ∷ l) (y ∷ x ∷ l) (y ∷ insert_entry x l) (swaps x y l)
            (keeps y (x ∷ l) (insert_entry x l) (insert_entry-Reorders x l)))
    | inr not_less ↦ rw (insert_entry, not_less) (Reorders-refl (x ∷ y ∷ l))
  ]

  pub sort_entries-Reorders : (l : List (Entry I O)) → Reorders l (sort_entries l)
  unfolding sort_entries
  sort_entries-Reorders [] = empty
  sort_entries-Reorders (x ∷ l) =
      chains (x ∷ l) (x ∷ sort_entries l) (insert_entry x (sort_entries l))
        (keeps x l (sort_entries l) (sort_entries-Reorders l))
        (insert_entry-Reorders x (sort_entries l))

  insert_entry-AreNotLess :
      (first x : Entry I O) (l : List (Entry I O))
      → by_time_less x first ≡ false
      → AreNotLess first l
      → AreNotLess first (insert_entry x l)
  unfolding insert_entry
  insert_entry-AreNotLess first x [] h all = (h, tt)
  insert_entry-AreNotLess first x (y ∷ l) h all = elim (Bool-cases (by_time_less y x)) [
    | inl less ↦ rw (insert_entry, less) (all.0, insert_entry-AreNotLess first x l h all.1)
    | inr not_less ↦ rw (insert_entry, not_less) (h, (all.0, all.1))
  ]

  AreNotLess-trans :
      (x y : Entry I O) (l : List (Entry I O))
      → by_time_less y x ≡ false
      → AreNotLess y l
      → AreNotLess x l
  unfolding by_time_less
  AreNotLess-trans x y [] h all = tt
  AreNotLess-trans x y (z ∷ l) h all =
      (time_less_trans z.time y.time x.time all.0 h, AreNotLess-trans x y l h all.1)

  insert_entry-IsSorted :
      (x : Entry I O) (l : List (Entry I O)) → IsSorted l → IsSorted (insert_entry x l)
  unfolding insert_entry by_time_less
  insert_entry-IsSorted x [] h = (tt, tt)
  insert_entry-IsSorted x (y ∷ l) h = elim (Bool-cases (by_time_less y x)) [
    | inl less ↦
        rw (insert_entry, less)
          (
            insert_entry-AreNotLess y x l (time_less_asym y.time x.time less) h.0,
            insert_entry-IsSorted x l h.1,
          )
    | inr not_less ↦
        rw (insert_entry, not_less) ((not_less, AreNotLess-trans x y l not_less h.0), (h.0, h.1))
  ]

  pub sort_entries-IsSorted : (l : List (Entry I O)) → IsSorted (sort_entries l)
  unfolding sort_entries
  sort_entries-IsSorted [] = tt
  sort_entries-IsSorted (x ∷ l) = insert_entry-IsSorted x (sort_entries l) (sort_entries-IsSorted l)
