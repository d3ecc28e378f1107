-- ===== src/MapReduce/Tasks.antt =====
-- mapreduce/common_map.go and common_reduce.go: one map task and one reduce task.
use Prim.Native.String.{String}
use distribution_system.Prelude.{
  ℕ, zero, suc, ◌+◌, ◌%◌, none, some, List, [], ◌∷◌, ◌++◌, map, if◌then◌else◌, Outcome, done, panic,
  ◌>>=◌,
}
use distribution_system.Prelude.Dict.{Dict, lookup, insert, string_eq}
use distribution_system.MapReduce.Types.{KeyValue}
use distribution_system.MapReduce.Host.{
  Host, Files, ihash, reduce_name, create, read_file, append_to,
}

-- kvs[k], nil where there is none
abbrev pub values_at : String → Dict String (List String) → List String
values_at key kvs = elim (lookup key kvs) [ none ↦ [] | some values ↦ values ]

-- kvs[kv.Key] = append(kvs[kv.Key], kv.Value), for each value of a stream
unfoldable pub collect : List KeyValue → Dict String (List String) → Dict String (List String)
collect [] kvs = kvs
collect (kv ∷ stream) kvs =
    collect stream (insert kv.key (values_at kv.key kvs ++ kv.value ∷ []) kvs)

module _ (host : Host) where
  -- The loop over the encoders from the `i`-th on, with `n` left.
  unfoldable pub create_all : String → ℕ → ℕ → ℕ → Files → Outcome Files
  create_all job_name map_task i zero files = done files
  create_all job_name map_task i (suc n) files = do
    files' ← create host (reduce_name host job_name map_task i) files
    create_all job_name map_task (i + 1) n files'

  -- `ihash(kv.Key) % nReduce`, which panics for 0
  unfoldable pub bin_of : ℕ → KeyValue → Outcome ℕ
  bin_of zero kv = panic
  bin_of (suc n) kv = done (ihash host kv.key % suc n)

  unfoldable pub write_all : String → ℕ → ℕ → List KeyValue → Files → Outcome Files
  write_all job_name map_task n_reduce [] files = done files
  write_all job_name map_task n_reduce (kv ∷ kvs) files = do
    r ← bin_of n_reduce kv
    write_all job_name map_task n_reduce kvs
        (append_to (reduce_name host job_name map_task r) (host.encode kv) files)

  unfoldable pub do_map :
      String → ℕ → String → ℕ → (String → String → List KeyValue) → Files → Outcome Files
  do_map job_name map_task in_file n_reduce map_f files = do
    files' ← create_all job_name map_task 0 n_reduce files
    contents ← read_file in_file files'
    write_all job_name map_task n_reduce (map_f in_file contents) files'

  -- The loop over the map tasks from `m` on, with `n` left.
  unfoldable pub read_all :
      String → ℕ → ℕ → ℕ → Files → Dict String (List String) → Outcome (Dict String (List String))
  read_all job_name reduce_task m zero files kvs = done kvs
  read_all job_name reduce_task m (suc n) files kvs = do
    contents ← read_file (reduce_name host job_name m reduce_task) files
    let (stream, failed) = host.decode contents in
        if failed then panic else read_all job_name reduce_task (m + 1) n files (collect stream kvs)

  unfoldable pub emit :
      String
      → (String → List String → Outcome String)
      → Dict String (List String)
      → List String
      → Files
      → Outcome Files
  emit out_file reduce_f kvs [] files = done files
  emit out_file reduce_f kvs (k ∷ keys) files = do
    value ← reduce_f k (values_at k kvs)
    emit out_file reduce_f kvs keys
        (append_to out_file (host.encode (record { key = k; value = value })) files)

  -- The keys come out of the map in its order; they are sorted before they are used.
  unfoldable pub do_reduce :
      String → ℕ → String → ℕ → (String → List String → Outcome String) → Files → Outcome Files
  do_reduce job_name reduce_task out_file n_map reduce_f files = do
    kvs ← read_all job_name reduce_task 0 n_map files []
    files' ← create host out_file files
    emit out_file reduce_f kvs (host.sort_strings (map (λ entry. entry.0) kvs)) files'
