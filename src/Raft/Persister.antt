-- ===== src/Raft/Persister.antt =====
-- raft/persister.go: the stable storage of one peer. A nil byte slice is `none`.
use distribution_system.Prelude.{ℕ, Option, none, some, List, length}

pub record Persister : Type 0 where
  pub raftstate : Option (List ℕ)
  pub snapshot : Option (List ℕ)

unfoldable pub make_persister : Persister
make_persister = record { raftstate = none; snapshot = none }

unfoldable pub copy : Persister → Persister
copy ps = record { raftstate = ps.raftstate; snapshot = ps.snapshot }

unfoldable pub save_raft_state : List ℕ → Persister → Persister
save_raft_state bytes ps = record ps { raftstate = some bytes }

unfoldable pub read_raft_state : Persister → Option (List ℕ)
read_raft_state ps = ps.raftstate

-- size_of of a slice that may be nil
abbrev size_of : Option (List ℕ) → ℕ
size_of none = 0
size_of (some bytes) = length bytes

unfoldable pub raft_state_size : Persister → ℕ
raft_state_size ps = size_of ps.raftstate

unfoldable pub save_state_and_snapshot : List ℕ → Option (List ℕ) → Persister → Persister
save_state_and_snapshot bytes snapshot ps = record { raftstate = some bytes; snapshot = snapshot }

unfoldable pub read_snapshot : Persister → Option (List ℕ)
read_snapshot ps = ps.snapshot

unfoldable pub snapshot_size : Persister → ℕ
snapshot_size ps = size_of ps.snapshot
