-- ===== src/Shards/Tests.antt =====
-- A clerk whose first configuration is out of date.
use Prim.Native.String.{String}
use distribution_system.Prelude.{
  ℕ, ◌≡◌, refl, Bool, true, false, some, List, [], ◌∷◌, replicate, done,
}
use distribution_system.Prelude.Dict.{lookup, nat_eq}
use distribution_system.Shards.Master.{Config, n_shards}
use distribution_system.Shards.Groups.{
  key2shard, call, GetReply, ask_group, servers_for, Turn, behind_group, retry_groups, get,
}
use text.Mathlib.Text.{◌==◌ as str_eq}

abbrev config_of : ℕ → Config
config_of gid = record {
  num = gid;
  shards = replicate n_shards gid;
  groups = (1, "a" ∷ "b" ∷ []) ∷ (2, "c" ∷ "d" ∷ []) ∷ [];
}

abbrev reply : Bool → String → String → GetReply
reply wrong err value = record { wrong_leader = wrong; err = err; value = value }

-- Group 1 is the wrong one; then c does not lead, and d answers.
abbrev turns : List (Turn GetReply)
turns =
    record { answers = some (reply false "ErrWrongGroup" "") ∷ []; config = config_of 2 }
    ∷ record {
      answers = some (reply true "" "") ∷ some (reply false "OK" "7") ∷ [];
      config = config_of 2;
    }
    ∷ []

abbrev key : List ℕ
key = 120 ∷ []

got :
    get key (config_of 1) turns
    ≡ done (
      call "a" (record { key = key })
          ∷ call "c" (record { key = key })
          ∷ call "d" (record { key = key })
          ∷ [],
      config_of 2,
      some "7",
    )
unfolding get retry_groups behind_group servers_for key2shard ask_group lookup
got = refl
