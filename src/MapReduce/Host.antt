-- ===== src/MapReduce/Host.antt =====
-- The libraries that mapreduce calls, as parameters, and the names of its files.
use Prim.Native.String.{String, ◌++◌ as concat}
use distribution_system.Prelude.{
  ℕ, ◌%◌, ◌^◌, Bool, none, some, List, if◌then◌else◌, Outcome, done, panic, or_panic,
}
use distribution_system.Prelude.Dict.{Dict, lookup, insert, delete, string_eq}
use distribution_system.MapReduce.Types.{KeyValue}

-- strconv.Itoa, the 32-bit FNV-1a sum of hash/fnv, sort.Strings, whether a file can be created, a value
-- as encoding/json writes it, and the values that a json.Decoder reads from a stream, with whether they
-- end in an error.
pub record Host : Type 0 where
  pub itoa : ℕ → String
  pub sum32 : String → ℕ
  pub sort_strings : List String → List String
  pub can_create : String → Bool
  pub encode : KeyValue → String
  pub decode : String → List KeyValue × Bool

-- The shared file system: the contents under each name.
abbrev pub Files : Type 0
Files = Dict String String

-- os.Open, ioutil.ReadFile
abbrev pub read_file : String → Files → Outcome String
read_file name files = or_panic (lookup name files)

-- A write through the file's encoder or writer.
unfoldable pub append_to : String → String → Files → Files
append_to name text files =
    insert name (concat (elim (lookup name files) [ none ↦ "" | some s ↦ s ]) text) files

unfoldable pub remove_file : String → Files → Outcome Files
remove_file name files = elim (lookup name files) [
  | none ↦ panic
  | some contents ↦ done (delete name files)
]

module _ (host : Host) where
  -- `h.Sum32() & 0x7fffffff`
  unfoldable pub ihash : String → ℕ
  ihash s = host.sum32 s % 2 ^ 31

  unfoldable pub reduce_name : String → ℕ → ℕ → String
  reduce_name job_name map_task reduce_task = concat "mrtmp." (
      concat job_name
        (concat "-" (concat (host.itoa map_task) (concat "-" (host.itoa reduce_task)))))

  unfoldable pub merge_name : String → ℕ → String
  merge_name job_name reduce_task =
      concat "mrtmp." (concat job_name (concat "-res-" (host.itoa reduce_task)))

  -- os.Create; log.Fatal ends the process, as a panic does.
  unfoldable pub create : String → Files → Outcome Files
  create name files = if host.can_create name then done (insert name "" files) else panic
