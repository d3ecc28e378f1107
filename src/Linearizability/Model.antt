-- ===== src/Linearizability/Model.antt =====
-- linearizability/model.go. The interface values of a history are inputs of type I and outputs of type
-- O; a field of Model that may be nil is an Option.
use distribution_system.Prelude.{ℕ, Bool, ◌⊎◌, Option, none, some, List, [], ◌∷◌, Outcome}

-- `call` and `return_time` are the times of invocation and response.
pub record Operation (I O : Type 0) : Type 0 where
  pub input : I
  pub call : ℕ
  pub output : O
  pub return_time : ℕ

pub data EventKind : Type 0 where
  call_event return_event : EventKind

pub record Event (I O : Type 0) : Type 0 where
  pub kind : EventKind
  pub value : I ⊎ O
  pub id : ℕ

-- Step may panic, on a value of a type that it does not expect.
pub record Model (I O S : Type 0) : Type 0 where
  pub partition : Option (List (Operation I O) → List (List (Operation I O)))
  pub partition_event : Option (List (Event I O) → List (List (Event I O)))
  pub init : S
  pub step : S → I → O → Outcome (Bool × S)
  pub equal : Option (S → S → Bool)

module _ {I O : Type 0} where
  unfoldable pub no_partition : List (Operation I O) → List (List (Operation I O))
  no_partition history = history ∷ []

  unfoldable pub no_partition_event : List (Event I O) → List (List (Event I O))
  no_partition_event history = history ∷ []

module _ {I O S : Type 0} where
  -- `shallow_equal` is Go's == on states.
  unfoldable pub fill_default : (S → S → Bool) → Model I O S → Model I O S
  fill_default shallow_equal model = record model {
    partition = some (elim model.partition [ none ↦ no_partition | some p ↦ p ]);
    partition_event = some (elim model.partition_event [ none ↦ no_partition_event | some p ↦ p ]);
    equal = some (elim model.equal [ none ↦ shallow_equal | some e ↦ e ]);
  }
