-- ===== src/Linearizability/KvModel.antt =====
-- linearizability/models.go, and ShallowEqual of linearizability/model.go at its states.
use Prim.Native.String.{String, ◌++◌ as concat}
use distribution_system.Prelude.{
  ℕ, ◌==◌, Bool, true, none, some, List, [], ◌∷◌, ◌++◌, map, if◌then◌else◌, done,
}
use distribution_system.Prelude.Dict.{Dict, lookup, insert, string_eq}
use distribution_system.Linearizability.Model.{Operation, Model}
use text.Mathlib.Text.{◌==◌ as str_eq}

pub record KvInput : Type 0 where
  pub op : ℕ
  pub key : String
  pub value : String

pub record KvOutput : Type 0 where
  pub value : String

abbrev pub KvOperation : Type 0
KvOperation = Operation KvInput KvOutput

-- m[key], nil where there is none
abbrev pub operations_at : String → Dict String (List KvOperation) → List KvOperation
operations_at key m = elim (lookup key m) [ none ↦ [] | some operations ↦ operations ]

-- The loop of Partition over the history.
unfoldable pub partition_from :
    List KvOperation → Dict String (List KvOperation) → Dict String (List KvOperation)
partition_from [] m = m
partition_from (v ∷ history) m =
    partition_from history (insert v.input.key (operations_at v.input.key m ++ v ∷ []) m)

unfoldable pub partition : List KvOperation → List (List KvOperation)
unfolding partition_from
partition history = map (λ entry. entry.1) (partition_from history [])

abbrev pub init : String
init = ""

-- Whether the model accepts, and its next state.
unfoldable pub step : String → KvInput → KvOutput → Bool × String
step state inp out =
    if inp.op == 0
    then (str_eq out.value state, state)
    else if inp.op == 1
    then (true, inp.value)
    else (true, concat state inp.value)

-- ShallowEqual on the model's states
unfoldable pub equal : String → String → Bool
equal a b = str_eq a b

unfoldable pub kv_model : Model KvInput KvOutput String
unfolding step
kv_model = record {
  partition = some partition;
  partition_event = none;
  init = init;
  step = λ state inp out. done (step state inp out);
  equal = some equal;
}
