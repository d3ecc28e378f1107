-- ===== src/MapReduce/Counting.antt =====
-- main/wc.go: the result for a word is the number of its occurrences.
use Prim.Native.String.{String}
use distribution_system.Prelude.{
  ℕ, suc, ◌+◌, ◌≡◌, refl, ◌∙◌, ap, Bool-cases, inl, inr, some, List, [], ◌∷◌, if◌then◌else◌, arith,
  done,
}
use distribution_system.MapReduce.WordCount.{Text, ones, map_f, sum_values, reduce_f}
use distribution_system.MapReduce.Grouping.{values_of}
use text.Mathlib.Text.{◌==◌ as str_eq}

-- How often a word stands in a list.
unfoldable pub occurrences : String → List String → ℕ
occurrences word [] = 0
occurrences word (w ∷ words) =
    let rest = occurrences word words in if str_eq w word then suc rest else rest

module _ (text : Text) (atoi_one : text.atoi "1" ≡ some 1) where
  sum_values-ones :
      (word : String) (words : List String) (count : ℕ)
      → sum_values text count (values_of word (ones words)) ≡ done (count + occurrences word words)
  unfolding sum_values values_of ones occurrences
  sum_values-ones word [] count = let e : count + 0 ≡ count = omega arith in rw e refl
  sum_values-ones word (w ∷ words) count =
      let ih = sum_values-ones word words (count + 1) in
      let e : (count + 1) + occurrences word words ≡ count + suc (occurrences word words) =
        omega arith in
      elim (Bool-cases (str_eq w word)) [
        | inl q ↦ rw (q, atoi_one) (ih ∙ ap done e)
        | inr q ↦ rw q (sum_values-ones word words count)
      ]

  -- Reducing what the map function gives for a file has no error, and gives for each word how often it
  -- stands in the contents, where Atoi reads "1" as 1.
  pub reduce_f_counts :
      (word filename contents : String)
      → reduce_f text word (values_of word (map_f text filename contents))
        ≡ done (text.itoa (occurrences word (text.fields contents)))
  unfolding reduce_f map_f
  reduce_f_counts word filename contents =
      let e : 0 + occurrences word (text.fields contents)
          ≡ occurrences word (text.fields contents) =
        omega arith in
      rw (sum_values-ones word (text.fields contents) 0, e) refl
