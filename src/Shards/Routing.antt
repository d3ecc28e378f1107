-- ===== src/Shards/Routing.antt =====
-- shardkv: where the clerk sends its requests.
use Prim.Native.String.{String}
use distribution_system.Prelude.{
  ℕ, ◌<◌, ◌*◌, ◌+◌, ◌≡◌, get_elem?, Bool, true, ◌⊎◌, Option, none, some, List, [], ◌∷◌, ◌++◌,
  length,
}
use distribution_system.Prelude.Dict.{lookup, nat_eq}
use distribution_system.Shards.Master.{n_shards, Config}
use distribution_system.Shards.Groups.{Call, call, Turn}

abbrev pub IsConfig : Config → Type 0
IsConfig config = length config.shards ≡ n_shards

abbrev pub AreConfigs : {R : Type 0} → List (Turn R) → Type 0
AreConfigs [] = Unit
AreConfigs (turn ∷ turns) = IsConfig turn.config × AreConfigs turns

abbrev pub Includes : List String → String → Type 0
Includes [] server = ⊥
Includes (s ∷ servers) server = (s ≡ server) ⊎ Includes servers server

-- The shard of a key: the last decimal digit of its first byte, or 0 for the empty key.
abbrev pub IsShard : List ℕ → ℕ → Type 0
IsShard [] shard = shard ≡ 0
IsShard (c ∷ key) shard = (shard < 10) × (tens : ℕ) × (c ≡ tens * 10 + shard)

-- The servers of the group to which the configuration gives the shard of the key.
abbrev pub AreResponsible : List ℕ → Config → List String → Type 0
AreResponsible key config servers =
    (shard gid : ℕ) × IsShard key shard
    × (get_elem? config.shards shard ≡ some gid)
    × (lookup gid config.groups ≡ some servers)

module _ {A R : Type 0} (accepted wrong_group : R → Bool) (args : A) where
  -- The last of the calls went to one of the servers, which answered with an accepted reply.
  abbrev pub Answered : List String → List (Call A) → R → Type 0
  Answered servers calls r =
      (server : String) × (earlier : List (Call A)) × (accepted r ≡ true)
      × Includes servers server
      × (calls ≡ earlier ++ call server args ∷ [])

  -- What the loop comes back with: no reply, or one of a server of the responsible group.
  abbrev pub Routed : List ℕ → List (Call A) → Config → Option R → Type 0
  Routed key calls config' reply =
      (reply ≡ none)
      ⊎ ((r : R) × (servers : List String) × (reply ≡ some r)
          × AreResponsible key config' servers
          × Answered servers calls r)
