-- ===== src/Shards/Groups.antt =====
-- shardkv: the clerk. Each round of its loop has the answers of the servers of a group, in their order, and then
-- the configuration that the shardmaster gives; the loop ends with the rounds if none of them is a success.
use Prim.Native.String.{String}
use distribution_system.Prelude.{
  ℕ, ◌%◌, Bool, ◌&&◌, ◌||◌, not, Option, none, some, List, [], ◌∷◌, ◌++◌, if◌then◌else◌, Outcome,
  done, ◌>>=◌, at,
}
use distribution_system.Prelude.Dict.{lookup, nat_eq}
use text.Mathlib.Text.{◌==◌ as str_eq}
use distribution_system.Shards.Master.{n_shards, Config}

-- The key as its bytes
unfoldable pub key2shard : List ℕ → ℕ
key2shard [] = 0 % n_shards
key2shard (c ∷ key) = c % n_shards

pub record GetArgs : Type 0 where
  pub key : List ℕ

pub record PutAppendArgs : Type 0 where
  pub key : List ℕ
  pub value : String
  pub op : String

pub record GetReply : Type 0 where
  pub wrong_leader : Bool
  pub err : String
  pub value : String

pub record PutAppendReply : Type 0 where
  pub wrong_leader : Bool
  pub err : String

-- A call: the name of the server that is asked, and the arguments.
pub data Call (A : Type 0) : Type 0 where
  call : String → A → Call A

module _ {A R : Type 0} (accepted wrong_group : R → Bool) where
  -- The loop over the servers of the group, with the answers to come.
  unfoldable pub ask_group : A → List String → List (Option R) → List (Call A) × Option R
  ask_group args [] answers = ([], none)
  ask_group args (server ∷ servers) [] = ([], none)
  ask_group args (server ∷ servers) (none ∷ answers) =
      let (calls, reply) = ask_group args servers answers in (call server args ∷ calls, reply)
  ask_group args (server ∷ servers) (some r ∷ answers) =
      let rest = ask_group args servers answers in
      if accepted r
      then (call server args ∷ [], some r)
      else if wrong_group r
      then (call server args ∷ [], none)
      else (call server args ∷ rest.0, rest.1)

-- The servers of the group that has the key in the configuration.
unfoldable pub servers_for : List ℕ → Config → Outcome (List String)
unfolding key2shard
servers_for key config = do
  gid ← at config.shards (key2shard key)
  done (elim (lookup gid config.groups) [ none ↦ [] | some servers ↦ servers ])

-- A round: the answers of the group, and the configuration that the shardmaster gives behind it.
pub record Turn (R : Type 0) : Type 0 where
  pub answers : List (Option R)
  pub config : Config

-- Behind the servers of a group: the reply, or the rounds to come.
unfoldable pub behind_group :
    {A R : Type 0}
    → List (Call A) × Option R
    → Config
    → Outcome (List (Call A) × Config × Option R)
    → Outcome (List (Call A) × Config × Option R)
behind_group (calls, some r) config rest = done (calls, config, some r)
behind_group (calls, none) config rest = do
  (calls', config', reply') ← rest
  done (calls ++ calls', config', reply')

module _ {A R : Type 0} (accepted wrong_group : R → Bool) where
  -- The loop of Get and of PutAppend: the calls made, the configuration behind the loop, and the reply.
  unfoldable pub retry_groups :
      A → List ℕ → Config → List (Turn R) → Outcome (List (Call A) × Config × Option R)
  unfolding servers_for ask_group behind_group
  retry_groups args key config [] = done ([], config, none)
  retry_groups args key config (turn ∷ turns) = do
    servers ← servers_for key config
    behind_group (ask_group accepted wrong_group args servers turn.answers) config
        (retry_groups args key turn.config turns)

abbrev pub accepts_get : GetReply → Bool
accepts_get r = not r.wrong_leader && (str_eq r.err "OK" || str_eq r.err "ErrNoKey")

abbrev pub accepts_put : PutAppendReply → Bool
accepts_put r = not r.wrong_leader && str_eq r.err "OK"

unfoldable pub get :
    List ℕ → Config → List (Turn GetReply) → Outcome (List (Call GetArgs) × Config × Option String)
unfolding retry_groups
get key config turns = do
  (calls, config', reply) ←
      retry_groups accepts_get (λ r. str_eq r.err "ErrWrongGroup") (record { key = key }) key config
        turns
  done (calls, config', elim reply [ none ↦ none | some r ↦ some r.value ])

unfoldable pub put_append :
    List ℕ
    → String
    → String
    → Config
    → List (Turn PutAppendReply)
    → Outcome (List (Call PutAppendArgs) × Config × Option PutAppendReply)
unfolding retry_groups
put_append key value op config turns =
    retry_groups accepts_put (λ r. str_eq r.err "ErrWrongGroup")
      (record { key = key; value = value; op = op }) key config turns

unfoldable pub put :
    List ℕ
    → String
    → Config
    → List (Turn PutAppendReply)
    → Outcome (List (Call PutAppendArgs) × Config × Option PutAppendReply)
unfolding put_append
put key value config turns = put_append key value "Put" config turns

unfoldable pub append :
    List ℕ
    → String
    → Config
    → List (Turn PutAppendReply)
    → Outcome (List (Call PutAppendArgs) × Config × Option PutAppendReply)
unfolding put_append
append key value config turns = put_append key value "Append" config turns
