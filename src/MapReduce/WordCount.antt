-- ===== src/MapReduce/WordCount.antt =====
-- main/wc.go.
use Prim.Native.String.{String}
use distribution_system.Prelude.{
  ℕ, ◌+◌, Option, none, some, List, [], ◌∷◌, Outcome, done, panic, ◌>>=◌,
}
use distribution_system.MapReduce.Types.{KeyValue}

-- strings.FieldsFunc for the runes that are no letters, strconv.Itoa, and strconv.Atoi, none on an error.
pub record Text : Type 0 where
  pub fields : String → List String
  pub itoa : ℕ → String
  pub atoi : String → Option ℕ

-- The words, each with the count "1".
unfoldable pub ones : List String → List KeyValue
ones [] = []
ones (word ∷ words) = record { key = word; value = "1" } ∷ ones words

module _ (text : Text) where
  unfoldable pub map_f : String → String → List KeyValue
  unfolding ones
  map_f filename contents = ones (text.fields contents)

  unfoldable pub sum_values : ℕ → List String → Outcome ℕ
  sum_values count [] = done count
  sum_values count (v ∷ values) = elim (text.atoi v) [
    | none ↦ panic
    | some i ↦ sum_values (count + i) values
  ]

  unfoldable pub reduce_f : String → List String → Outcome String
  unfolding sum_values
  reduce_f key values = do count ← sum_values 0 values; done (text.itoa count)
