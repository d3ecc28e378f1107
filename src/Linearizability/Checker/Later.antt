-- ===== src/Linearizability/Checker/Later.antt =====
-- linearizability/linearizability.go: checkSingle ends, and its answers stand for linearizations.
use distribution_system.Prelude.{
  ℕ, zero, suc, ◌+◌, ◌/◌, ◌≡◌, refl, sym, ◌∙◌, Bool, true, ◌⊎◌, inl, inr, some, Option-cases, List,
  length, arith, Outcome, done, panic,
}
use distribution_system.Linearizability.Model.{Model}
use distribution_system.Linearizability.Entries.{Entry}
use distribution_system.Linearizability.Nodes.{make_linked_entries}
use distribution_system.Linearizability.Nodes.History.{IsHistory}
use distribution_system.Linearizability.Checker.{
  Search, Round, goes_on, answers, round, search, start_search, check_single,
}
use distribution_system.Linearizability.Checker.Explore.{never}
use distribution_system.Linearizability.Checker.Linearizable.{
  IsLinearizable, AcceptsAll, history-Decides,
}

round_cases :
    {I O S : Type 0} (r : Outcome (Round I O S))
    → (r ≡ panic)
      ⊎ (((b : Bool) × (r ≡ done (answers b))) ⊎ ((c : Search I O S) × (r ≡ done (goes_on c))))
round_cases panic = inl refl
round_cases (done (answers b)) = inr (inl (b, refl))
round_cases (done (goes_on c)) = inr (inr (c, refl))

done_some_injective : {A : Type 0} (x y : A) → done (some x) ≡ done (some y) → x ≡ y
done_some_injective x y h = cc

module _ {I O S : Type 0} (model : Model I O S) (equal : S → S → Bool) where
  search_goes_on :
      (rounds : ℕ) (c c' : Search I O S) (x : ℕ)
      → c.store.next c.head_entry ≡ some x
      → round model equal c ≡ done (goes_on c')
      → search model equal never (suc rounds) c ≡ search model equal never rounds c'
  unfolding search
  search_goes_on rounds c c' x q p = rw (search, q, p) refl

  -- An answer stays with one more round, and with any number of them.
  search_once_more :
      (rounds : ℕ) (c : Search I O S) (b : Bool)
      → search model equal never rounds c ≡ done (some b)
      → search model equal never (suc rounds) c ≡ done (some b)
  unfolding search
  search_once_more zero c b h = absurd (cc)
  search_once_more (suc rounds) c b h = elim (Option-cases (c.store.next c.head_entry)) [
    | inl q ↦
        let now : search model equal never (suc rounds) c ≡ done (some true) =
          rw (search, q) refl in
        let then_too : search model equal never (suc (suc rounds)) c ≡ done (some true) =
          rw (search, q) refl in
        then_too ∙ sym now ∙ h
    | inr (x, q) ↦ elim (round_cases (round model equal c)) [
      | inl p ↦
          let now : search model equal never (suc rounds) c ≡ panic = rw (search, q, p) refl in
          absurd (cc)
      | inr (inl (b', p)) ↦
          let now : search model equal never (suc rounds) c ≡ done (some b') =
            rw (search, q, p) refl in
          let then_too : search model equal never (suc (suc rounds)) c ≡ done (some b') =
            rw (search, q, p) refl in
          then_too ∙ sym now ∙ h
      | inr (inr (c', p)) ↦
          let now = search_goes_on rounds c c' x q p in
          search_goes_on (suc rounds) c c' x q p ∙ search_once_more rounds c' b (sym now ∙ h)
    ]
  ]

  search_more :
      (n rounds : ℕ) (c : Search I O S) (b : Bool)
      → search model equal never rounds c ≡ done (some b)
      → search model equal never (n + rounds) c ≡ done (some b)
  search_more zero rounds c b h = let q : 0 + rounds ≡ rounds = omega arith in rw (q) h
  search_more (suc n) rounds c b h =
      let q : suc n + rounds ≡ suc (n + rounds) = omega arith in
      rw (q) (search_once_more (n + rounds) c b (search_more n rounds c b h))

  -- checkSingle, on the nodes that makeLinkedEntries builds of a history, with a model whose Step does
  -- not panic and while nobody sets the kill flag, comes to an answer, and any larger number of rounds
  -- has the same one.
  pub check_single-ends :
      (entries : List (Entry I O))
      → IsHistory (length entries / 2) entries
      → AcceptsAll model
      → (answer : Bool) × (k : ℕ) × ((more : ℕ)
          → check_single model equal never
              (more + k)
              (make_linked_entries entries).root
              (make_linked_entries entries).store
            ≡ done (some answer))
  check_single-ends entries h total =
      let (answer, k, ends, _) = history-Decides model equal entries h total in
      (answer, k, λ more. ends (more + k) (omega arith))

  -- When checkSingle, on the nodes that makeLinkedEntries builds of a history of calls and returns, with a
  -- model whose Step does not panic and while nobody sets the kill flag, answers true after some number of
  -- rounds, the operations have an order, each once, in which the model accepts the calls with their
  -- returns one after the other, and in which no operation comes before one that returned when it was
  -- called.
  pub check_single-linearizes :
      (entries : List (Entry I O))
      → IsHistory (length entries / 2) entries
      → AcceptsAll model
      → (rounds : ℕ)
      → check_single model equal never rounds
          (make_linked_entries entries).root
          (make_linked_entries entries).store
        ≡ done (some true)
      → IsLinearizable entries model
  unfolding check_single
  check_single-linearizes entries h total rounds yes_path =
      let (answer, k, ends, sound) = history-Decides model equal entries h total in
      let start =
        start_search model equal (make_linked_entries entries).root
          (make_linked_entries entries).store in
      let here = search_more k rounds start true yes_path in
      let there = ends (k + rounds) (omega arith) in
      sound (done_some_injective answer true (sym there ∙ here))
