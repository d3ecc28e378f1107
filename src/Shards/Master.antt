-- ===== src/Shards/Master.antt =====
-- shardmaster: the configurations, and the clerk. The answers of the network to successive calls are a list,
-- `none` for no answer; the loops over the servers end with the list if none of them is a success.
use Prim.Native.String.{String}
use distribution_system.Prelude.{
  ℕ, zero, suc, ◌+◌, ◌%◌, Bool, Option, none, some, List, [], ◌∷◌, replicate, if◌then◌else◌,
}
use distribution_system.Prelude.Dict.{Dict}

abbrev pub n_shards : ℕ
n_shards = 10

pub record Config : Type 0 where
  pub num : ℕ
  pub shards : List ℕ
  pub groups : Dict ℕ (List String)

-- StartServer makes one configuration, without groups and with all shards in group 0.
abbrev pub first_configs : List Config
first_configs = record { num = 0; shards = replicate n_shards 0; groups = [] } ∷ []

-- The number of a configuration, or -1 for the latest one.
pub data Wanted : Type 0 where
  number : ℕ → Wanted
  latest : Wanted

pub record JoinArgs : Type 0 where
  pub servers : Dict ℕ (List String)

pub record LeaveArgs : Type 0 where
  pub gids : List ℕ

pub record MoveArgs : Type 0 where
  pub shard : ℕ
  pub gid : ℕ

pub record QueryArgs : Type 0 where
  pub num : Wanted

-- JoinReply, LeaveReply and MoveReply
pub record Reply : Type 0 where
  pub wrong_leader : Bool
  pub err : String

pub record QueryReply : Type 0 where
  pub wrong_leader : Bool
  pub err : String
  pub config : Config

-- A call: the index of the server that is asked, and the arguments.
pub data Call (A : Type 0) : Type 0 where
  call : ℕ → A → Call A

-- The loops of the clerk over its servers, one after the other and around again; without servers they call none.
module _ {A R : Type 0} (wrong_leader : R → Bool) where
  unfoldable pub ask : ℕ → A → ℕ → List (Option R) → List (Call A) × Option R
  ask zero args i answers = ([], none)
  ask (suc servers) args i [] = ([], none)
  ask (suc servers) args i (none ∷ answers) =
      let (calls, reply) = ask (suc servers) args ((i + 1) % suc servers) answers in
      (call i args ∷ calls, reply)
  ask (suc servers) args i (some r ∷ answers) =
      let rest = ask (suc servers) args ((i + 1) % suc servers) answers in
      if wrong_leader r then (call i args ∷ rest.0, rest.1) else (call i args ∷ [], some r)

unfoldable pub query : ℕ → Wanted → List (Option QueryReply) → List (Call QueryArgs) × Option Config
unfolding ask
query servers num answers =
    let (calls, reply) = ask (λ r. r.wrong_leader) servers (record { num = num }) 0 answers in
    (calls, elim reply [ none ↦ none | some r ↦ some r.config ])

unfoldable pub join :
    ℕ → Dict ℕ (List String) → List (Option Reply) → List (Call JoinArgs) × Option Reply
unfolding ask
join servers new_groups answers =
    ask (λ r. r.wrong_leader) servers (record { servers = new_groups }) 0 answers

unfoldable pub leave : ℕ → List ℕ → List (Option Reply) → List (Call LeaveArgs) × Option Reply
unfolding ask
leave servers gids answers = ask (λ r. r.wrong_leader) servers (record { gids = gids }) 0 answers

unfoldable pub move : ℕ → ℕ → ℕ → List (Option Reply) → List (Call MoveArgs) × Option Reply
unfolding ask
move servers shard gid answers =
    ask (λ r. r.wrong_leader) servers (record { shard = shard; gid = gid }) 0 answers
