-- ===== src/Linearizability/Operations.antt =====
-- linearizability/linearizability.go: what a linearization of the entries of a history says of its
-- operations and their times.
use distribution_system.Prelude.{
  ℕ, zero, suc, ◌+◌, ◌≤◌, ◌<◌, ◌≡◌, refl, sym, ◌∙◌, ap, subst, ◌==◌, true, false, Bool-cases, ◌⊎◌,
  inl, inr, some, List, [], ◌∷◌, length, get_elem?, arith, done, some_injective,
}
use distribution_system.Linearizability.Model.{Operation, Model}
use distribution_system.Linearizability.Entries.{Entry, call_entry, return_entry, entries_from}
use distribution_system.Linearizability.Nodes.History.{entry_at, HasCall}
use distribution_system.Linearizability.Nodes.Members.{◌∈◌}
use distribution_system.Linearizability.Sorted.{entry_at-lt}
use distribution_system.Linearizability.Reordering.{Reorders, empty, keeps, swaps, chains}

module _ {I O S : Type 0} (history : List (Operation I O)) (model : Model I O S) where
  -- Step takes the operations with these numbers, the latest first, from the initial state to `state`.
  abbrev pub AcceptsOperations : List ℕ → S → Type 0
  AcceptsOperations [] state = state ≡ model.init
  AcceptsOperations (i ∷ order) state =
      (before : S) × (o : Operation I O) × (get_elem? history i ≡ some o)
      × (model.step before o.input o.output ≡ done (true, state))
      × AcceptsOperations order before

  -- The operations were called at the time or before.
  abbrev pub AreCalledBy : List ℕ → ℕ → Type 0
  AreCalledBy [] time = Unit
  AreCalledBy (i ∷ order) time =
      ((o : Operation I O) × (get_elem? history i ≡ some o) × (o.call ≤ time))
      × AreCalledBy order time

  -- Every operation is taken once, and none behind one that was called after its own return.
  abbrev pub KeepsTimes : List ℕ → Type 0
  KeepsTimes [] = Unit
  KeepsTimes (i ∷ order) =
      ((o : Operation I O) × (get_elem? history i ≡ some o) × AreCalledBy order o.return_time)
      × ¬ (i ∈ order)
      × KeepsTimes order

  -- All the operations of a history in an order that the model accepts and that keeps to their times.
  pub record Linearizes : Type 0 where
    pub order : List ℕ
    pub state : S
    pub accepts : AcceptsOperations order state
    pub ordered : KeepsTimes order
    pub complete : (i : ℕ) → i < length history → i ∈ order

module _ {I O : Type 0} where
  abbrev pub All : (Entry I O → Type 0) → List (Entry I O) → Type 0
  All P [] = Unit
  All P (elem ∷ entries) = P elem × All P entries

  pub All-Reorders :
      (P : Entry I O → Type 0) (l1 l2 : List (Entry I O)) → Reorders l1 l2 → All P l1 → All P l2
  All-Reorders P _ _ empty h = h
  All-Reorders P _ _ (keeps x l1 l2 p) h = (h.0, All-Reorders P l1 l2 p h.1)
  All-Reorders P _ _ (swaps x y l) h = (h.1.0, (h.0, h.1.1))
  All-Reorders P _ _ (chains l1 l2 l3 p q) h = All-Reorders P l2 l3 q (All-Reorders P l1 l2 p h)

  pub All-entry_at :
      (P : Entry I O → Type 0) (entries : List (Entry I O)) (p : ℕ) (x : Entry I O)
      → All P entries
      → entry_at entries p ≡ some x
      → P x
  unfolding entry_at
  All-entry_at P [] p x all h = absurd (cc)
  All-entry_at P (elem ∷ entries) p x all h = elim (Bool-cases (p == length entries)) [
    | inl here ↦
        let now : entry_at (elem ∷ entries) p ≡ some elem = rw (entry_at, here) refl in
        subst P (some_injective elem x (sym now ∙ h)) all.0
    | inr further ↦
        let now : entry_at (elem ∷ entries) p ≡ entry_at entries p = rw (entry_at, further) refl in
        All-entry_at P entries p x all.1 (sym now ∙ h)
  ]

  -- The call or the return of an operation of the history, whose first number is `id`.
  abbrev pub Comes : ℕ → List (Operation I O) → Entry I O → Type 0
  Comes id history x =
      (i : ℕ) × (o : Operation I O) × (get_elem? history i ≡ some o)
      × (x.id ≡ id + i)
      × (((x.kind ≡ call_entry) × (x.value ≡ inl o.input) × (x.time ≡ some o.call))
          ⊎ ((x.kind ≡ return_entry) × (x.value ≡ inr o.output) × (x.time ≡ some o.return_time)))

  All-later :
      (id : ℕ) (first : Operation I O) (history : List (Operation I O)) (l : List (Entry I O))
      → All (Comes (id + 1) history) l
      → All (Comes id (first ∷ history)) l
  All-later id first history [] h = tt
  All-later id first history (x ∷ l) ((i, o, g, q, c), h) =
      ((suc i, o, g, omega (arith, q), c), All-later id first history l h)

  pub entries_from-Comes :
      (id : ℕ) (history : List (Operation I O)) → All (Comes id history) (entries_from id history)
  unfolding entries_from
  entries_from-Comes id [] = tt
  entries_from-Comes id (o ∷ history) = (
    (0, o, refl, omega arith, inl (refl, refl, refl)),
    (
      (0, o, refl, omega arith, inr (refl, refl, refl)),
      All-later id o history (entries_from (id + 1) history) (entries_from-Comes (id + 1) history),
    ),
  )

  pub entries_from-HasCall :
      (id i : ℕ) (history : List (Operation I O))
      → i < length history
      → HasCall (entries_from id history) (id + i)
  unfolding entries_from
  entries_from-HasCall id i [] lt = absurd (omega arith)
  entries_from-HasCall id zero (o ∷ history) lt = inl (refl, omega arith)
  entries_from-HasCall id (suc i) (o ∷ history) lt =
      let q : id + suc i ≡ (id + 1) + i = omega arith in
      inr (inr (rw q (entries_from-HasCall (id + 1) i history (omega arith))))

  pub HasCall-entry_at :
      (entries : List (Entry I O)) (id : ℕ)
      → HasCall entries id
      → (p : ℕ) × (x : Entry I O) × (entry_at entries p ≡ some x)
        × (x.kind ≡ call_entry)
        × (x.id ≡ id)
  unfolding entry_at
  HasCall-entry_at [] id h = absurd h
  HasCall-entry_at (elem ∷ entries) id (inl (k, q)) =
      let here : (length entries == length entries) ≡ true = ground arith in
      (length entries, elem, rw (entry_at, here) refl, k, q)
  HasCall-entry_at (elem ∷ entries) id (inr h) =
      let (p, x, e, k, q) = HasCall-entry_at entries id h in
      let lt = entry_at-lt entries p x e in
      let other : (p == length entries) ≡ false = ground arith in
      (p, x, rw (entry_at, other) e, k, q)

  pub entry_at-HasCall :
      (entries : List (Entry I O)) (p : ℕ) (x : Entry I O)
      → entry_at entries p ≡ some x
      → x.kind ≡ call_entry
      → HasCall entries x.id
  unfolding entry_at
  entry_at-HasCall [] p x h k = absurd (cc)
  entry_at-HasCall (elem ∷ entries) p x h k = elim (Bool-cases (p == length entries)) [
    | inl here ↦
        let now : entry_at (elem ∷ entries) p ≡ some elem = rw (entry_at, here) refl in
        let q = some_injective elem x (sym now ∙ h) in
        inl (ap (λ y. y.kind) q ∙ k, ap (λ y. y.id) q)
    | inr further ↦
        let now : entry_at (elem ∷ entries) p ≡ entry_at entries p = rw (entry_at, further) refl in
        inr (entry_at-HasCall entries p x (sym now ∙ h) k)
  ]
