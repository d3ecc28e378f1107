-- ===== src/Linearizability/Sorted.antt =====
-- linearizability/linearizability.go: entries sorted by time.
use distribution_system.Prelude.{
  ℕ, ◌≤◌, ◌<◌, ◌≡◌, refl, sym, ◌∙◌, ◌==◌, false, ltb, Bool-cases, inl, inr, some, List, [], ◌∷◌, ap,
  length, arith, some_injective,
}
use distribution_system.Linearizability.Entries.{Entry, time_less, by_time_less}
use distribution_system.Linearizability.Nodes.History.{entry_at}

module _ {I O : Type 0} where
  -- No entry of the list is less than the first one.
  abbrev pub AreNotLess : Entry I O → List (Entry I O) → Type 0
  AreNotLess first [] = Unit
  AreNotLess first (elem ∷ entries) = (by_time_less elem first ≡ false) × AreNotLess first entries

  -- No entry is less than one before it.
  abbrev pub IsSorted : List (Entry I O) → Type 0
  IsSorted [] = Unit
  IsSorted (elem ∷ entries) = AreNotLess elem entries × IsSorted entries

  entry_at-AreNotLess :
      (first : Entry I O) (entries : List (Entry I O)) (p : ℕ) (x : Entry I O)
      → AreNotLess first entries
      → entry_at entries p ≡ some x
      → by_time_less x first ≡ false
  unfolding entry_at
  entry_at-AreNotLess first [] p x all h = absurd (cc)
  entry_at-AreNotLess first (elem ∷ entries) p x all h = elim (Bool-cases (p == length entries)) [
    | inl here ↦
        let now : entry_at (elem ∷ entries) p ≡ some elem = rw (entry_at, here) refl in
        let q = some_injective elem x (sym now ∙ h) in rw (sym q) all.0
    | inr further ↦
        let now : entry_at (elem ∷ entries) p ≡ entry_at entries p = rw (entry_at, further) refl in
        entry_at-AreNotLess first entries p x all.1 (sym now ∙ h)
  ]

  pub entry_at-lt :
      (entries : List (Entry I O)) (p : ℕ) (x : Entry I O)
      → entry_at entries p ≡ some x
      → p < length entries
  unfolding entry_at
  entry_at-lt [] p x h = absurd (cc)
  entry_at-lt (elem ∷ entries) p x h = elim (Bool-cases (p == length entries)) [
    | inl here ↦ ground arith
    | inr further ↦
        let now : entry_at (elem ∷ entries) p ≡ entry_at entries p = rw (entry_at, further) refl in
        let lt = entry_at-lt entries p x (sym now ∙ h) in omega arith
  ]

  -- In a sorted list, an entry is not less than one with more entries behind it.
  pub entry_at-IsSorted :
      (entries : List (Entry I O)) (p q : ℕ) (x y : Entry I O)
      → IsSorted entries
      → p < q
      → entry_at entries p ≡ some x
      → entry_at entries q ≡ some y
      → by_time_less x y ≡ false
  unfolding entry_at
  entry_at-IsSorted [] p q x y sorted lt h k = absurd (cc)
  entry_at-IsSorted (elem ∷ entries) p q x y sorted lt h k =
      elim (Bool-cases (q == length entries)) [
        | inl first ↦
            let other : (p == length entries) ≡ false = ground arith in
            let now : entry_at (elem ∷ entries) q ≡ some elem = rw (entry_at, first) refl in
            let there : entry_at (elem ∷ entries) p ≡ entry_at entries p =
              rw (entry_at, other) refl in
            let e = some_injective elem y (sym now ∙ k) in
            rw (sym e) (entry_at-AreNotLess elem entries p x sorted.0 (sym there ∙ h))
        | inr further ↦
            let now : entry_at (elem ∷ entries) q ≡ entry_at entries q =
              rw (entry_at, further) refl in
            let in_rest = entry_at-lt entries q y (sym now ∙ k) in
            let other : (p == length entries) ≡ false = ground arith in
            let there : entry_at (elem ∷ entries) p ≡ entry_at entries p =
              rw (entry_at, other) refl in
            entry_at-IsSorted entries p q x y sorted.1 lt (sym there ∙ h) (sym now ∙ k)
      ]

  pub not_less-le :
      (x y : Entry I O) (s t : ℕ)
      → x.time ≡ some s
      → y.time ≡ some t
      → by_time_less x y ≡ false
      → t ≤ s
  unfolding by_time_less time_less
  not_less-le x y s t p q h =
      let now : ltb s t ≡ false =
        sym (ap (λ a. time_less a y.time) p ∙ ap (time_less (some s)) q) ∙ h in
      ground arith
