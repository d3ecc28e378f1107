-- ===== src/Linearizability/Checks/Verdicts.antt =====
-- linearizability/linearizability.go: what the verdict of CheckOperations says.
use distribution_system.Prelude.{
  ℕ, suc, ◌+◌, ◌≤◌, ◌≡◌, refl, sym, ◌∙◌, ap, Bool, true, false, ◌&&◌, Option, none, some, List, [],
  ◌∷◌, map, length, arith, Outcome, done, panic, ◌>>=◌,
}
use distribution_system.Linearizability.Model.{Operation, Model, fill_default}
use distribution_system.Linearizability.Entries.{Entry, make_entries, entries_from}
use distribution_system.Linearizability.Checker.{result, collect_results}
use distribution_system.Linearizability.Checker.Linearizable.{AcceptsAll}
use distribution_system.Linearizability.Sorted.{IsSorted}
use distribution_system.Linearizability.Operations.{Linearizes}
use distribution_system.Linearizability.RealTime.{IsLinearizable-Linearizes}
use distribution_system.Linearizability.Checker.Later.{check_single-ends, check_single-linearizes}
use distribution_system.Linearizability.Checker.Results.{all_true, results_all}
use distribution_system.Linearizability.Reordering.{
  Reorders, empty, keeps, swaps, chains, length-Reorders, make_entries-IsHistory,
}
use distribution_system.Linearizability.Checks.{
  add_answer, check_partition, check_partitions, partition_of, equal_of, verdict_of,
  check_operations,
}

-- All answers are there only if each is.
joined :
    (o : Outcome (Option Bool)) (os : Outcome (Option (List Bool))) (bs : List Bool)
    → (o >>= λ b. os >>= λ xs. done (add_answer b xs)) ≡ done (some bs)
    → (b : Bool) × (xs : List Bool) × (o ≡ done (some b)) × (os ≡ done (some xs)) × (b ∷ xs ≡ bs)
joined panic os bs h = absurd (cc)
joined (done none) panic bs h = absurd (cc)
joined (done none) (done none) bs h = absurd (cc)
joined (done none) (done (some xs)) bs h = absurd (cc)
joined (done (some b)) panic bs h = absurd (cc)
joined (done (some b)) (done none) bs h = absurd (cc)
joined (done (some b)) (done (some xs)) bs h = (b, xs, refl, refl, some_injective (b ∷ xs) bs h)
  where
    some_injective : (x y : List Bool) → done (some x) ≡ done (some y) → x ≡ y
    some_injective x y h = cc

both_true : (a b : Bool) → (a && b) ≡ true → (a ≡ true) × (b ≡ true)
both_true true b h = (refl, h)
both_true false b h = absurd (cc)

module _ {I O S : Type 0} (model : Model I O S) where
  -- Every partition has a linearization.
  abbrev pub AreLinearizable : List (List (Operation I O)) → Type 0
  AreLinearizable [] = Unit
  AreLinearizable (subhistory ∷ rest) = Linearizes subhistory model × AreLinearizable rest

  AreLinearizable-Reorders :
      (l1 l2 : List (List (Operation I O)))
      → Reorders l1 l2
      → AreLinearizable l2
      → AreLinearizable l1
  AreLinearizable-Reorders _ _ empty h = h
  AreLinearizable-Reorders _ _ (keeps x l1 l2 p) h = (h.0, AreLinearizable-Reorders l1 l2 p h.1)
  AreLinearizable-Reorders _ _ (swaps x y l) h = (h.1.0, (h.0, h.1.1))
  AreLinearizable-Reorders _ _ (chains l1 l2 l3 p q) h =
      AreLinearizable-Reorders l1 l2 p (AreLinearizable-Reorders l2 l3 q h)

module _ {I O S : Type 0} (sort_by_time : List (Entry I O) → List (Entry I O)) (model : Model I O S)
    (sorts : (l : List (Entry I O)) → Reorders l (sort_by_time l)) (total : AcceptsAll model) where
  -- One partition: an end, and what true means.
  check_partition-ends :
      (equal : S → S → Bool) (subhistory : List (Operation I O))
      → (b : Bool) × (k : ℕ) × ((more : ℕ)
          → check_partition sort_by_time model equal (more + k) subhistory ≡ done (some b))
  unfolding check_partition
  check_partition-ends equal subhistory =
      check_single-ends model equal (make_entries sort_by_time subhistory)
        (make_entries-IsHistory sort_by_time sorts subhistory) total

  check_partition-linearizes :
      (equal : S → S → Bool) (rounds : ℕ) (subhistory : List (Operation I O))
      → check_partition sort_by_time model equal rounds subhistory ≡ done (some true)
      → ((l : List (Entry I O)) → IsSorted (sort_by_time l))
      → Linearizes subhistory model
  unfolding check_partition make_entries
  check_partition-linearizes equal rounds subhistory h sorted =
      let entries = make_entries sort_by_time subhistory in
      let is_history = make_entries-IsHistory sort_by_time sorts subhistory in
      IsLinearizable-Linearizes model subhistory entries (sorts (entries_from 0 subhistory))
        is_history (sorted (entries_from 0 subhistory))
        (check_single-linearizes model equal entries is_history total rounds h)

  check_partitions-end :
      (equal : S → S → Bool) (l : List (List (Operation I O)))
      → (bs : List Bool) × (length bs ≡ length l)
        × (k : ℕ) × ((more : ℕ)
            → check_partitions sort_by_time model equal (more + k) l ≡ done (some bs))
  unfolding check_partitions
  check_partitions-end equal [] = ([], refl, 0, λ more. refl)
  check_partitions-end equal (subhistory ∷ rest) =
      let (b, k, f) = check_partition-ends equal subhistory in
      let (bs, q, k', g) = check_partitions-end equal rest in
      (
        b ∷ bs,
        ap suc q,
        k + k',
        λ more.
            let e : more + (k + k') ≡ (more + k') + k = omega arith in
            let e' : more + (k + k') ≡ (more + k) + k' = omega arith in
            let one : check_partition sort_by_time model equal (more + (k + k')) subhistory
                ≡ done (some b) =
              rw e (f (more + k')) in
            let others : check_partitions sort_by_time model equal (more + (k + k')) rest
                ≡ done (some bs) =
              rw e' (g (more + k)) in
            rw (check_partitions, one, others) refl,
      )

  check_partitions-linearize :
      (equal : S → S → Bool) (rounds : ℕ) (l : List (List (Operation I O))) (bs : List Bool)
      → check_partitions sort_by_time model equal rounds l ≡ done (some bs)
      → ((l : List (Entry I O)) → IsSorted (sort_by_time l))
      → (length bs ≡ length l) × (all_true bs ≡ true → AreLinearizable model l)
  unfolding check_partitions
  check_partitions-linearize equal rounds [] bs h sorted = (ap length (sym (nothing bs h)), λ q. tt)
    where
      nothing : (bs : List Bool) → done (some []) ≡ done (some bs) → [] ≡ bs
      nothing bs h = cc
  check_partitions-linearize equal rounds (subhistory ∷ rest) bs h sorted =
      let (b, xs, q, r, e) =
        joined (check_partition sort_by_time model equal rounds subhistory)
          (check_partitions sort_by_time model equal rounds rest) bs h in
      let (l, sound) = check_partitions-linearize equal rounds rest xs r sorted in
      (
        ap length (sym e) ∙ ap suc l,
        λ t.
            let (bt, xt) = both_true b (all_true xs) (ap all_true e ∙ t) in
            (
              check_partition-linearizes equal rounds subhistory (q ∙ ap (λ x. done (some x)) bt)
                  sorted,
              sound xt,
            ),
      )

-- A verdict on as many answers as there are partitions, one at least, tells whether they all are true.
verdict_all :
    (n : ℕ) (bs : List Bool) (v : Bool)
    → length bs ≡ n
    → collect_results n 0 (map result bs) ≡ some v
    → all_true bs ≡ v
unfolding collect_results
verdict_all n [] v q h = absurd (cc)
verdict_all n (b ∷ bs) v q h =
    let r = results_all n 0 b bs (omega arith) in
    let e : some (all_true (b ∷ bs)) ≡ some v = sym r ∙ h in cc

all_answers :
    (n : ℕ) (bs : List Bool)
    → length bs ≡ n
    → 1 ≤ n
    → collect_results n 0 (map result bs) ≡ some (all_true bs)
all_answers n [] q le = absurd (omega arith)
all_answers n (b ∷ bs) q le = results_all n 0 b bs (omega arith)

fill_default-AcceptsAll :
    {I O S : Type 0} (shallow_equal : S → S → Bool) (model : Model I O S)
    → AcceptsAll model
    → AcceptsAll (fill_default shallow_equal model)
unfolding fill_default
fill_default-AcceptsAll shallow_equal model total = total

-- A verdict comes from answers.
judged :
    (n : ℕ) (o : Outcome (Option (List Bool))) (v : Bool)
    → (o >>= λ answers. done (verdict_of n answers)) ≡ done (some v)
    → (bs : List Bool) × (o ≡ done (some bs)) × (collect_results n 0 (map result bs) ≡ some v)
judged n panic v h = absurd (cc)
judged n (done none) v h = absurd (cc)
judged n (done (some bs)) v h =
    (bs, refl, done_injective (collect_results n 0 (map result bs)) (some v) h)
  where
    done_injective : (x y : Option Bool) → done x ≡ done y → x ≡ y
    done_injective x y h = cc

module _ {I O S : Type 0} (sort_by_time : List (Entry I O) → List (Entry I O))
    (shallow_equal : S → S → Bool)
    (arrive : List (List (Operation I O)) → List (List (Operation I O))) (model : Model I O S)
    (sorts : (l : List (Entry I O)) → Reorders l (sort_by_time l))
    (arrives : (l : List (List (Operation I O))) → Reorders l (arrive l))
    (total : AcceptsAll model) where
  check_operations_verdict :
      (rounds : ℕ) (history : List (Operation I O))
      → check_operations sort_by_time shallow_equal arrive rounds model history ≡ (
          check_partitions sort_by_time
            (fill_default shallow_equal model)
            (equal_of shallow_equal model)
            rounds
            (arrive (partition_of model history))
          >>= λ answers. done (verdict_of (length (partition_of model history)) answers))
  unfolding check_operations fill_default
  check_operations_verdict rounds history = refl

  -- Where sort.Sort sorts the entries by time, the answers come in some order, and Step does not panic: when
  -- CheckOperations returns true, the operations of every partition of the history have an order, each
  -- once, in which Step takes their inputs and outputs from the initial state, and in which no
  -- operation comes behind one that was called after it had returned.
  pub check_operations-AreLinearizable :
      (rounds : ℕ) (history : List (Operation I O))
      → ((l : List (Entry I O)) → IsSorted (sort_by_time l))
      → check_operations sort_by_time shallow_equal arrive rounds model history ≡ done (some true)
      → AreLinearizable (fill_default shallow_equal model) (partition_of model history)
  unfolding fill_default
  check_operations-AreLinearizable rounds history sorted h =
      let filled = fill_default shallow_equal model in
      let parts = partition_of model history in
      let (bs, q, v) =
        judged (length parts)
          (check_partitions sort_by_time filled (equal_of shallow_equal model) rounds
            (arrive parts))
          true (sym (check_operations_verdict rounds history) ∙ h) in
      let (l, sound) =
        check_partitions-linearize sort_by_time filled sorts
          (fill_default-AcceptsAll shallow_equal model total) (equal_of shallow_equal model) rounds
          (arrive parts) bs q sorted in
      AreLinearizable-Reorders filled parts (arrive parts) (arrives parts) (
        sound (
          verdict_all (length parts) bs true
            (l ∙ sym (length-Reorders parts (arrive parts) (arrives parts))) v))

  -- Where sort.Sort reorders the entries, the answers come in some order, and Step does not panic: on a
  -- history with one partition at least, CheckOperations comes to a verdict after some number of rounds of
  -- each goroutine, and any larger number has the same one.
  pub check_operations-ends :
      (history : List (Operation I O))
      → 1 ≤ length (partition_of model history)
      → (verdict : Bool) × (k : ℕ) × ((more : ℕ)
          → check_operations sort_by_time shallow_equal arrive (more + k) model history
            ≡ done (some verdict))
  unfolding fill_default
  check_operations-ends history le =
      let filled = fill_default shallow_equal model in
      let parts = partition_of model history in
      let (bs, q, k, f) =
        check_partitions-end sort_by_time filled sorts
          (fill_default-AcceptsAll shallow_equal model total) (equal_of shallow_equal model)
          (arrive parts) in
      let q' = q ∙ sym (length-Reorders parts (arrive parts) (arrives parts)) in
      (
        all_true bs,
        k,
        λ more.
            check_operations_verdict (more + k) history
            ∙ ap (λ o. o >>= λ answers. done (verdict_of (length parts) answers)) (f more)
            ∙ ap done (all_answers (length parts) bs q' le),
      )
