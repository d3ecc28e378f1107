-- ===== src/MapReduce/Worker.antt =====
-- mapreduce/worker.go.
use Prim.Native.String.{String}
use distribution_system.Prelude.{
  ℕ, zero, suc, ◌+◌, ◌-◌, Bool, false, Option, none, some, List, ltb, if◌then◌else◌, Outcome, done,
  panic, ◌>>=◌,
}
use distribution_system.MapReduce.Types.{
  KeyValue, map_phase, reduce_phase, DoTaskArgs, Parallelism, Worker,
}
use distribution_system.MapReduce.Host.{Host, Files, merge_name}
use distribution_system.MapReduce.Tasks.{do_map, do_reduce}

-- DoTask up to the check: a second task at the same time ends the process.
unfoldable pub begin_task : Worker → Outcome Worker
begin_task wk =
    if ltb 1 (wk.concurrent + 1)
    then panic
    else done (record wk { n_tasks = wk.n_tasks + 1; concurrent = wk.concurrent + 1 })

-- The Parallelism of a task that begins, and whether it pauses.
unfoldable pub enter : Option Parallelism → Option Parallelism × Bool
enter none = (none, false)
enter (some p) =
    let max = if ltb p.max (p.now + 1) then p.now + 1 else p.max in
    (some (record { now = p.now + 1; max = max }), ltb max 2)

unfoldable pub end_task : Worker → Worker
end_task wk = record wk { concurrent = wk.concurrent - 1 }

unfoldable pub leave : Option Parallelism → Option Parallelism
leave none = none
leave (some p) = some (record p { now = p.now - 1 })

module _ (host : Host) (map_f : String → String → List KeyValue)
    (reduce_f : String → List String → Outcome String) where
  -- The task itself.
  unfoldable pub perform : DoTaskArgs → Files → Outcome Files
  perform arg disk = elim arg.phase [
    | map_phase ↦ do_map host arg.job_name arg.task_number arg.file arg.num_other_phase map_f disk
    | reduce_phase ↦
        do_reduce host arg.job_name arg.task_number (merge_name host arg.job_name arg.task_number)
          arg.num_other_phase reduce_f disk
  ]

  -- DoTask with no other task between its critical sections.
  unfoldable pub do_task :
      DoTaskArgs
      → Worker
      → Option Parallelism
      → Files
      → Outcome (Worker × Option Parallelism × Files)
  unfolding enter leave end_task
  do_task arg wk parallelism disk = do
    wk' ← begin_task wk
    let (parallelism', pause) = enter parallelism
    disk' ← perform arg disk
    done (end_task wk', leave parallelism', disk')

unfoldable pub shutdown : Worker → Worker × ℕ
shutdown wk = (record wk { n_rpc = some 1 }, wk.n_tasks)

-- A worker before it listens.
unfoldable pub run_worker : String → Option ℕ → Worker
run_worker me n_rpc = record { name = me; n_rpc = n_rpc; n_tasks = 0; concurrent = 0 }

-- One round of the loop that accepts connections: `none` if it ends.
unfoldable pub accept_round : Bool → Worker → Option Worker
accept_round accepted wk = elim wk.n_rpc [
  | some zero ↦ none
  | some (suc n) ↦ if accepted then some (record wk { n_rpc = some n }) else none
  | none ↦ if accepted then some wk else none
]
