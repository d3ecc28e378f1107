-- ===== src/MapReduce/Scheduling.antt =====
-- mapreduce/schedule.go: the tasks of the two phases.
use Prim.Native.String.{String}
use distribution_system.Prelude.{
  ℕ, zero, suc, ◌+◌, ◌<◌, ◌≤◌, ◌≡◌, ◌↔◌, refl, ap, leb, leb→le, leb→lt, subst, Bool-cases, inl, inr,
  some, List, [], ◌∷◌, length, get_elem?, get_elem?_lt, lt_of_get_elem?, Option-cases, arith, done,
  panic,
}
use distribution_system.MapReduce.Types.{JobPhase, map_phase, reduce_phase, DoTaskArgs}
use distribution_system.MapReduce.Master.{task_args, tasks_from, schedule}

module _ (job_name : String) (map_files : List String) where
  -- The arguments of task `i`, whose number selects the file.
  abbrev pub args_of : JobPhase → ℕ → ℕ → String → DoTaskArgs
  args_of phase n_other i file = record {
    job_name = job_name;
    file = file;
    phase = phase;
    task_number = i;
    num_other_phase = n_other;
  }

  each_task :
      (phase : JobPhase) (n_other i n : ℕ) (file : String) (tasks : List DoTaskArgs)
      → get_elem? map_files i ≡ some file
      → ((j : ℕ)
          → j < n
          → (file : String) × (get_elem? map_files (i + 1 + j) ≡ some file)
            × (get_elem? tasks j ≡ some (args_of phase n_other (i + 1 + j) file)))
      → (j : ℕ) → j < suc n
      → (next : String) × (get_elem? map_files (i + j) ≡ some next)
        × (get_elem? (args_of phase n_other i file ∷ tasks) j
            ≡ some (args_of phase n_other (i + j) next))
  each_task phase n_other i n file tasks e each zero k =
      let q : i + zero ≡ i = omega arith in rw q (file, e, refl)
  each_task phase n_other i n file tasks e each (suc j) k =
      let q : i + suc j ≡ (i + 1) + j = omega arith in rw q (each j (omega arith))

  tasks_from-done :
      (phase : JobPhase) (n_other i n : ℕ)
      → i + n ≤ length map_files
      → (tasks : List DoTaskArgs) × (tasks_from job_name map_files phase n_other i n ≡ done tasks)
        × (length tasks ≡ n)
        × ((j : ℕ)
            → j < n
            → (file : String) × (get_elem? map_files (i + j) ≡ some file)
              × (get_elem? tasks j ≡ some (args_of phase n_other (i + j) file)))
  unfolding tasks_from task_args
  tasks_from-done phase n_other i zero h = ([], refl, refl, λ j k. absurd (omega arith))
  tasks_from-done phase n_other i (suc n) h =
      let (file, e) = get_elem?_lt map_files i (omega arith) in
      let (tasks, r, l, each) = tasks_from-done phase n_other (i + 1) n (omega arith) in
      (
        args_of phase n_other i file ∷ tasks,
        rw (e, r) refl,
        ap suc l,
        each_task phase n_other i n file tasks e each,
      )

  tasks_from-panic :
      (phase : JobPhase) (n_other i n : ℕ)
      → i ≤ length map_files
      → length map_files < i + n
      → tasks_from job_name map_files phase n_other i n ≡ panic
  unfolding tasks_from task_args
  tasks_from-panic phase n_other i zero b h = absurd (omega arith)
  tasks_from-panic phase n_other i (suc n) b h = elim (Option-cases (get_elem? map_files i)) [
    | inl e ↦ rw e refl
    | inr (file, e) ↦
        let k = lt_of_get_elem? map_files i e in
        rw (e, tasks_from-panic phase n_other (i + 1) n (omega arith) (omega arith)) refl
  ]

module _ (job_name : String) (map_files : List String) where
  tasks_from-zero :
      (phase : JobPhase) (n_other n : ℕ)
      → n ≤ length map_files
      → (tasks : List DoTaskArgs) × (tasks_from job_name map_files phase n_other 0 n ≡ done tasks)
        × (length tasks ≡ n)
        × ((i : ℕ)
            → i < n
            → (file : String) × (get_elem? map_files i ≡ some file)
              × (get_elem? tasks i ≡ some (args_of job_name map_files phase n_other i file)))
  tasks_from-zero phase n_other n h =
      let (tasks, r, l, each) =
        tasks_from-done job_name map_files phase n_other 0 n (omega arith) in
      (
        tasks,
        r,
        l,
        λ i k.
            let q : 0 + i ≡ i = omega arith in
            subst
              (λ j.
                (file : String) × (get_elem? map_files j ≡ some file)
                × (get_elem? tasks i ≡ some (args_of job_name map_files phase n_other j file)))
              q (each i k),
      )

-- The number of tasks of a phase.
abbrev pub task_count : List String → ℕ → JobPhase → ℕ
task_count map_files n_reduce map_phase = length map_files
task_count map_files n_reduce reduce_phase = n_reduce

abbrev pub other_count : List String → ℕ → JobPhase → ℕ
other_count map_files n_reduce map_phase = n_reduce
other_count map_files n_reduce reduce_phase = length map_files

-- `schedule` starts every task of a phase, each with its number and the number of the other phase's
-- tasks, if there are no more tasks than input files.
pub schedule_starts_all :
    (job_name : String) (map_files : List String) (n_reduce : ℕ) (phase : JobPhase)
    → task_count map_files n_reduce phase ≤ length map_files
    → (tasks : List DoTaskArgs) × (schedule job_name map_files n_reduce phase ≡ done tasks)
      × (length tasks ≡ task_count map_files n_reduce phase)
      × ((i : ℕ)
          → i < task_count map_files n_reduce phase
          → (file : String) × (get_elem? map_files i ≡ some file)
            × (get_elem? tasks i
                ≡ some (
                    args_of job_name map_files phase
                      (other_count map_files n_reduce phase)
                      i
                      file)))
unfolding schedule
schedule_starts_all job_name map_files n_reduce map_phase h =
    tasks_from-zero job_name map_files map_phase n_reduce (length map_files) h
schedule_starts_all job_name map_files n_reduce reduce_phase h =
    tasks_from-zero job_name map_files reduce_phase (length map_files) n_reduce h

-- The reduce phase ends the process exactly if there are more reduce tasks than input files.
pub schedule_panics_iff :
    (job_name : String) (map_files : List String) (n_reduce : ℕ)
    → (schedule job_name map_files n_reduce reduce_phase ≡ panic) ↔ (length map_files < n_reduce)
unfolding schedule
schedule_panics_iff job_name map_files n_reduce = (
  λ e. elim (Bool-cases (leb n_reduce (length map_files))) [
    | inl le ↦
        let (tasks, r, _, _) =
          tasks_from-zero job_name map_files reduce_phase (length map_files) n_reduce
            (leb→le n_reduce (length map_files) le) in
        absurd (cc)
    | inr gt ↦ leb→lt n_reduce (length map_files) gt
  ],
  λ k.
      tasks_from-panic job_name map_files reduce_phase (length map_files) 0 n_reduce (omega arith)
        (omega arith),
)
