-- ===== src/MapReduce/Types.antt =====
-- The types of mapreduce/common.go, common_rpc.go, master.go and worker.go.
use Prim.Native.String.{String}
use distribution_system.Prelude.{ℕ, Bool, Option, List}

pub data JobPhase : Type 0 where
  map_phase reduce_phase : JobPhase

pub record KeyValue : Type 0 where
  pub key : String
  pub value : String

pub record DoTaskArgs : Type 0 where
  pub job_name : String
  pub file : String
  pub phase : JobPhase
  pub task_number : ℕ
  pub num_other_phase : ℕ

-- `done_channel` says that the job is complete.
pub record Master : Type 0 where
  pub address : String
  pub done_channel : Bool
  pub workers : List String
  pub job_name : String
  pub files : List String
  pub n_reduce : ℕ
  pub stats : List ℕ

pub record Parallelism : Type 0 where
  pub now : ℕ
  pub max : ℕ

-- `n_rpc` is `none` below 0. The Parallelism that workers share is passed along with them.
pub record Worker : Type 0 where
  pub name : String
  pub n_rpc : Option ℕ
  pub n_tasks : ℕ
  pub concurrent : ℕ
