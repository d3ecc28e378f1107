-- ===== src/Linearizability/Tests.antt =====
-- A small history, and the theorems about it.
use Prim.Native.String.{String}
use distribution_system.Prelude.{ℕ, ◌≡◌, ◌↔◌, refl, true, List, [], ◌∷◌}
use distribution_system.Linearizability.KvModel.{
  KvOperation, operations_at, partition_from, init, step,
}
use distribution_system.Linearizability.Partition.{accepts, service_accepts, partition_suffices}

abbrev operation : ℕ → String → String → String → KvOperation
operation op key value output = record {
  input = record { op = op; key = key; value = value };
  call = 0;
  output = record { value = output };
  return_time = 1;
}

-- put x 1, append y 2, append x 3, get x
abbrev history : List KvOperation
history =
    operation 1 "x" "1" ""
    ∷ operation 2 "y" "2" ""
    ∷ operation 2 "x" "3" ""
    ∷ operation 0 "x" "" "13"
    ∷ []

history_accepted : service_accepts (λ key. init) history ≡ true
unfolding service_accepts step
history_accepted = refl

partition_suffices_example :
    (service_accepts (λ key. init) history ≡ true)
    ↔ ((key : String) → accepts init (operations_at key (partition_from history [])) ≡ true)
partition_suffices_example = partition_suffices history
