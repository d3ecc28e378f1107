-- ===== src/Linearizability/Checker/Results.antt =====
-- linearizability/linearizability.go: what CheckOperations and CheckEvents make of the answers.
use distribution_system.Prelude.{
  ℕ, ◌+◌, ◌<◌, ◌≡◌, refl, ◌∙◌, Bool, true, false, ◌&&◌, some, List, [], ◌∷◌, ◌++◌, map, length,
  if◌then◌else◌, arith,
}
use distribution_system.Linearizability.Checker.{Received, result, timed_out, collect_results}

-- All the answers are true.
abbrev pub all_true : List Bool → Bool
all_true [] = true
all_true (b ∷ bs) = b && all_true bs

collect_on :
    (n count : ℕ) (b : Bool) (events : List Received)
    → count + 1 < n
    → collect_results n count (result b ∷ events)
      ≡ (if b then collect_results n (count + 1) events else some false)
unfolding collect_results
collect_on n count b events h = ground arith

pub results_all :
    (n count : ℕ) (b : Bool) (bs : List Bool)
    → count + length (b ∷ bs) ≡ n
    → collect_results n count (map result (b ∷ bs)) ≡ some (all_true (b ∷ bs))
unfolding collect_results
results_all n count b [] h = ground arith
results_all n count true (b' ∷ bs) h =
    collect_on n count true (map result (b' ∷ bs)) (omega arith)
    ∙ results_all n (count + 1) b' bs (omega arith)
results_all n count false (b' ∷ bs) h =
    collect_on n count false (map result (b' ∷ bs)) (omega arith)

results_until :
    (n count : ℕ) (bs : List Bool) (events : List Received)
    → count + length bs < n
    → collect_results n count (map result bs ++ timed_out ∷ events) ≡ some (all_true bs)
unfolding collect_results
results_until n count [] events h = refl
results_until n count (b ∷ bs) events h =
    ground (arith, results_until n (count + 1) bs events (omega arith))

-- Once the answers of all partitions have come, the verdict is true just when they all are; and when
-- the time is over while some are missing, it is true just when all that came are.
pub collect_results-all_true :
    (b : Bool) (bs : List Bool) (n : ℕ) (events : List Received)
    → length (b ∷ bs) < n
    → (collect_results (length (b ∷ bs)) 0 (map result (b ∷ bs)) ≡ some (all_true (b ∷ bs)))
      × (collect_results n 0 (map result (b ∷ bs) ++ timed_out ∷ events) ≡ some (all_true (b ∷ bs)))
collect_results-all_true b bs n events h = (
  results_all (length (b ∷ bs)) 0 b bs (omega arith),
  results_until n 0 (b ∷ bs) events (omega arith),
)
