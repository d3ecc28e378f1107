-- ===== src/MapReduce/Tests.antt =====
-- Runs of the map and reduce tasks on small inputs, and the theorems about them at such inputs.
use Prim.Native.String.{String}
use distribution_system.Prelude.{
  ℕ, zero, suc, ◌<◌, ◌≡◌, ◌↔◌, refl, some, List, [], ◌∷◌, arith, done, panic, length, get_elem?,
}
use distribution_system.Prelude.Dict.{lookup, eq_refl, string_eq}
use distribution_system.MapReduce.Types.{KeyValue, reduce_phase, DoTaskArgs}
use distribution_system.MapReduce.Host.{Files, reduce_name}
use distribution_system.MapReduce.Tasks.{do_map, do_reduce}
use distribution_system.MapReduce.Master.{schedule}
use distribution_system.MapReduce.WordCount.{Text, map_f, reduce_f}
use distribution_system.MapReduce.Partition.{appended, bucket, do_map_partitions}
use distribution_system.MapReduce.Grouping.{
  values_of, keys_of, all_streams, reduced, do_reduce_groups,
}
use distribution_system.MapReduce.Scheduling.{args_of, schedule_starts_all, schedule_panics_iff}
use distribution_system.MapReduce.Counting.{occurrences, reduce_f_counts}
use distribution_system.MapReduce.Samples.{marks, marks-IsHost, marks-IsJson, input-reduce_name}

abbrev pair : String → String → KeyValue
pair key value = record { key = key; value = value }

-- A map function that ignores its input.
abbrev letters : String → String → List KeyValue
letters filename contents = pair "a" "1" ∷ pair "bb" "2" ∷ pair "a" "3" ∷ []

abbrev disk : Files
disk = ("input", "text") ∷ []

do_map_partitions_example :
    (files : Files) × (do_map marks "job" 0 "input" 2 letters disk ≡ done files)
    × (lookup (reduce_name marks "job" 0 1) files
        ≡ some (appended marks "" (bucket marks 2 1 (letters "input" "text"))))
unfolding lookup
do_map_partitions_example =
    do_map_partitions marks marks-IsHost "job" 0 "input" "text" 1 1 letters disk refl
      input-reduce_name (omega arith)

bucket_runs : bucket marks 2 1 (letters "input" "text") ≡ pair "a" "1" ∷ pair "a" "3" ∷ []
unfolding bucket
bucket_runs = refl

-- One map task's file for reduce task 1.
abbrev mapped : Files
mapped = (reduce_name marks "job" 0 1, appended marks "" (letters "" "")) ∷ []

mapped_files :
    (t : ℕ)
    → t < 1
    → lookup (reduce_name marks "job" t 1) mapped ≡ some (appended marks "" (letters "" ""))
unfolding lookup
mapped_files zero k = rw (eq_refl (reduce_name marks "job" 0 1)) refl
mapped_files (suc t) k = absurd (omega arith)

abbrev first : String → List String → String
first key [] = ""
first key (value ∷ values) = value

do_reduce_groups_example :
    (files : Files) × (do_reduce marks "job" 1 "out" 1 (λ k vs. done (first k vs)) mapped
      ≡ done files)
    × (lookup "out" files
        ≡ some (
            appended marks "" (
              reduced first
                (all_streams (λ t. letters "" "") 0 1)
                (keys_of [] (all_streams (λ t. letters "" "") 0 1)))))
unfolding lookup
do_reduce_groups_example =
    do_reduce_groups marks marks-IsHost marks-IsJson "job" (λ t. letters "" "") 1 1 "out" first
      mapped mapped_files

schedule_starts_all_example :
    (tasks : List DoTaskArgs) × (schedule "job" ("x" ∷ "y" ∷ []) 1 reduce_phase ≡ done tasks)
    × (length tasks ≡ 1)
    × ((i : ℕ)
        → i < 1
        → (file : String) × (get_elem? ("x" ∷ "y" ∷ []) i ≡ some file)
          × (get_elem? tasks i ≡ some (args_of "job" ("x" ∷ "y" ∷ []) reduce_phase 2 i file)))
schedule_starts_all_example =
    schedule_starts_all "job" ("x" ∷ "y" ∷ []) 1 reduce_phase (omega arith)

schedule_panics_iff_example :
    (schedule "job" ("x" ∷ []) 3 reduce_phase ≡ panic) ↔ (length {A = String} ("x" ∷ []) < 3)
schedule_panics_iff_example = schedule_panics_iff "job" ("x" ∷ []) 3

abbrev words : Text
words = record {
  fields = λ contents. "to" ∷ "be" ∷ "or" ∷ "not" ∷ "to" ∷ "be" ∷ [];
  itoa = marks.itoa;
  atoi = λ s. some 1;
}

reduce_f_counts_example :
    reduce_f words "be" (values_of "be" (map_f words "file" "to be or not to be"))
    ≡ done (marks.itoa 2)
unfolding occurrences
reduce_f_counts_example = reduce_f_counts words refl "be" "file" "to be or not to be"
