-- ===== src/MapReduce/Master.antt =====
-- mapreduce/master.go, master_splitmerge.go and schedule.go.
use Prim.Native.String.{String, ◌++◌ as concat}
use distribution_system.Prelude.{
  ℕ, zero, suc, ◌+◌, Bool, true, false, Option, none, some, List, [], ◌∷◌, ◌++◌, map, if◌then◌else◌,
  length, Outcome, done, panic, ◌>>=◌, at,
}
use distribution_system.Prelude.Dict.{Dict, lookup, insert, string_eq}
use distribution_system.MapReduce.Types.{
  KeyValue, JobPhase, map_phase, reduce_phase, DoTaskArgs, Master,
}
use distribution_system.MapReduce.Host.{
  Host, Files, reduce_name, merge_name, create, read_file, append_to, remove_file,
}
use distribution_system.MapReduce.Tasks.{do_map, do_reduce}

unfoldable pub new_master : String → Master
new_master address = record {
  address = address;
  done_channel = false;
  workers = [];
  job_name = "";
  files = [];
  n_reduce = 0;
  stats = [];
}

unfoldable pub register : String → Master → Master
register worker mr = record mr { workers = mr.workers ++ worker ∷ [] }

-- The registration that `forwardRegistrations` sends next, behind the `i` it has sent.
unfoldable pub forward_registration : ℕ → Master → Option String × ℕ
forward_registration i mr = elim (at mr.workers i) [ done w ↦ (some w, i + 1) | panic ↦ (none, i) ]

-- killWorkers, with the answer of each worker's Shutdown, `none` for an RPC that fails.
unfoldable pub kill_workers : (String → Option ℕ) → List String → List ℕ
kill_workers shutdown [] = []
kill_workers shutdown (w ∷ workers) =
    let rest = kill_workers shutdown workers in
    elim (shutdown w) [ none ↦ rest | some ntasks ↦ ntasks ∷ rest ]

-- The arguments for task `i` of a phase.
unfoldable pub task_args : String → List String → JobPhase → ℕ → ℕ → Outcome DoTaskArgs
task_args job_name map_files phase n_other i = do
  file ← at map_files i
  done (record {
    job_name = job_name;
    file = file;
    phase = phase;
    task_number = i;
    num_other_phase = n_other;
  })

-- The tasks of a phase from `i` on, with `n` left.
unfoldable pub tasks_from : String → List String → JobPhase → ℕ → ℕ → ℕ → Outcome (List DoTaskArgs)
tasks_from job_name map_files phase n_other i zero = done []
tasks_from job_name map_files phase n_other i (suc n) = do
  args ← task_args job_name map_files phase n_other i
  rest ← tasks_from job_name map_files phase n_other (i + 1) n
  done (args ∷ rest)

-- The tasks that `schedule` starts.
unfoldable pub schedule : String → List String → ℕ → JobPhase → Outcome (List DoTaskArgs)
schedule job_name map_files n_reduce map_phase =
    tasks_from job_name map_files map_phase n_reduce 0 (length map_files)
schedule job_name map_files n_reduce reduce_phase =
    tasks_from job_name map_files reduce_phase (length map_files) 0 n_reduce

-- The goroutine of one task, over the workers it receives and the outcomes of its calls: the
-- calls, and the worker that it gives back when one succeeds.
unfoldable pub run_task :
    DoTaskArgs → List (String × Bool) → List (String × DoTaskArgs) × Option String
run_task args [] = ([], none)
run_task args ((worker, ok) ∷ workers) =
    let rest = run_task args workers in
    if ok then ((worker, args) ∷ [], some worker) else ((worker, args) ∷ rest.0, rest.1)

-- kvs[kv.Key] = kv.Value, for each value of a stream
unfoldable pub merge_stream : List KeyValue → Dict String String → Dict String String
merge_stream [] kvs = kvs
merge_stream (kv ∷ stream) kvs = merge_stream stream (insert kv.key kv.value kvs)

-- kvs[k], "" where there is none
abbrev pub entry_at : String → Dict String String → String
entry_at k kvs = elim (lookup k kvs) [ none ↦ "" | some v ↦ v ]

unfoldable pub print_all : String → Dict String String → List String → Files → Files
print_all out_file kvs [] files = files
print_all out_file kvs (k ∷ keys) files =
    print_all out_file kvs keys
      (append_to out_file (concat k (concat ": " (concat (entry_at k kvs) "\n"))) files)

-- removeFile for one name after the other
unfoldable pub remove_all : List String → Files → Outcome Files
remove_all [] files = done files
remove_all (name ∷ names) files = do files' ← remove_file name files; remove_all names files'

-- The numbers from `i` on, `n` of them.
abbrev pub range : ℕ → ℕ → List ℕ
range i zero = []
range i (suc n) = i ∷ range (i + 1) n

module _ (host : Host) where
  -- The loop over the reduce tasks from `i` on, with `n` left. Reading a stream stops at its end and
  -- at an error alike.
  unfoldable pub merge_from :
      String → ℕ → ℕ → Files → Dict String String → Outcome (Dict String String)
  merge_from job_name i zero files kvs = done kvs
  merge_from job_name i (suc n) files kvs = do
    contents ← read_file (merge_name host job_name i) files
    merge_from job_name (i + 1) n files (merge_stream (host.decode contents).0 kvs)

  unfoldable pub merge : Master → Files → Outcome Files
  merge mr files = do
    kvs ← merge_from mr.job_name 0 mr.n_reduce files []
    files' ← create host (concat "mrtmp." mr.job_name) files
    done (
        print_all (concat "mrtmp." mr.job_name) kvs (host.sort_strings (map (λ entry. entry.0) kvs))
          files')

  unfoldable pub intermediate_names : String → List ℕ → ℕ → List String
  intermediate_names job_name [] n_reduce = []
  intermediate_names job_name (i ∷ tasks) n_reduce =
      map (λ j. reduce_name host job_name i j) (range 0 n_reduce)
      ++ intermediate_names job_name tasks n_reduce

  unfoldable pub cleanup_files : Master → Files → Outcome Files
  cleanup_files mr files = do
    files1 ←
        remove_all (intermediate_names mr.job_name (range 0 (length mr.files)) mr.n_reduce) files
    files2 ← remove_all (map (λ i. merge_name host mr.job_name i) (range 0 mr.n_reduce)) files1
    remove_all (concat "mrtmp." mr.job_name ∷ []) files2

  -- The job's fields are set, the phases run, `finish` collects statistics, the results are merged.
  unfoldable pub run :
      String
      → List String
      → ℕ
      → (JobPhase → Master → Files → Outcome Files)
      → (Master → Master)
      → Master
      → Files
      → Outcome (Master × Files)
  run job_name files n_reduce schedule_phase finish mr disk = do
    let mr1 = record mr { job_name = job_name; files = files; n_reduce = n_reduce }
    disk1 ← schedule_phase map_phase mr1 disk
    disk2 ← schedule_phase reduce_phase mr1 disk1
    let mr2 = finish mr1
    disk3 ← merge mr2 disk2
    done (record mr2 { done_channel = true }, disk3)

  module _ (map_f : String → String → List KeyValue)
      (reduce_f : String → List String → Outcome String) where
    unfoldable pub map_all : String → ℕ → ℕ → List String → Files → Outcome Files
    map_all job_name i n_reduce [] disk = done disk
    map_all job_name i n_reduce (f ∷ files) disk = do
      disk' ← do_map host job_name i f n_reduce map_f disk
      map_all job_name (i + 1) n_reduce files disk'

    unfoldable pub reduce_all : String → ℕ → ℕ → ℕ → Files → Outcome Files
    reduce_all job_name n_map i zero disk = done disk
    reduce_all job_name n_map i (suc n) disk = do
      disk' ← do_reduce host job_name i (merge_name host job_name i) n_map reduce_f disk
      reduce_all job_name n_map (i + 1) n disk'

    unfoldable pub run_phase : JobPhase → Master → Files → Outcome Files
    run_phase map_phase mr disk = map_all mr.job_name 0 mr.n_reduce mr.files disk
    run_phase reduce_phase mr disk = reduce_all mr.job_name (length mr.files) 0 mr.n_reduce disk

    unfoldable pub sequential : String → List String → ℕ → Files → Outcome (Master × Files)
    sequential job_name files n_reduce disk =
        run job_name files n_reduce run_phase
          (λ mr. record mr { stats = (length files + n_reduce) ∷ [] }) (new_master "master") disk
