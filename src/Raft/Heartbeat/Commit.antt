-- ===== src/Raft/Heartbeat/Commit.antt =====
-- How a leader advances its commit index.
use distribution_system.Prelude.{ℕ, ◌/◌, ◌≤◌, ◌<◌, ◌≡◌}
use distribution_system.Raft.Types.{Raft}
use distribution_system.Raft.Heartbeat.{count_replicas}

module _ {C : Type 0} where
  -- More than half of the peers are known to have the entry at `i`.
  abbrev pub HasMajority : Raft C → ℕ → Type 0
  HasMajority rf i = rf.peers / 2 < count_replicas rf.match_index i

  -- From `low` on, up to `high`, the commit index is now the last entry that a majority has, if any.
  pub data Advanced (rf rf' : Raft C) (high : ℕ) : Type 0 where
    advanced :
        (rf.commit_index < rf'.commit_index)
        → (rf'.commit_index ≤ high)
        → HasMajority rf rf'.commit_index
        → ((i : ℕ) → rf'.commit_index < i → i ≤ high → ¬ HasMajority rf i)
        → Advanced rf rf' high
    unmoved :
        rf' ≡ rf
        → ((i : ℕ) → rf.commit_index < i → i ≤ high → ¬ HasMajority rf i)
        → Advanced rf rf' high
