-- ===== src/Raft/Samples.antt =====
-- A byte format for peers whose commands are numbers, and small peers to run the theorems on.
use distribution_system.Prelude.{ℕ, zero, suc, ◌≡◌, refl, Option, none, some, List, [], ◌∷◌, arith}
use distribution_system.Raft.Types.{follower, running, stopped, Raft, LogEntry}
use distribution_system.Raft.Storage.{Saved, Gob, IsGob}

abbrev write_option : Option ℕ → ℕ
write_option none = 0
write_option (some n) = suc n

abbrev read_option : ℕ → Option ℕ
read_option zero = none
read_option (suc n) = some n

abbrev write_entries : List (LogEntry ℕ) → List ℕ
write_entries [] = []
write_entries (e ∷ entries) = write_option e.command ∷ e.term ∷ write_entries entries

abbrev read_entries : List ℕ → List (LogEntry ℕ)
read_entries (c ∷ t ∷ rest) = record { command = read_option c; term = t } ∷ read_entries rest
read_entries _ = []

abbrev write : Saved ℕ → List ℕ
write s = s.current_term ∷ write_option s.voted_for ∷ s.snapshotted_index ∷ write_entries s.logs

abbrev read : List ℕ → Option (Saved ℕ)
read (t ∷ v ∷ i ∷ rest) = some (record {
  current_term = t;
  voted_for = read_option v;
  snapshotted_index = i;
  logs = read_entries rest;
})
read _ = none

abbrev pub numbers : Gob ℕ
numbers = record { encode = write; decode = read }

read-write_option : (o : Option ℕ) → read_option (write_option o) ≡ o
read-write_option none = refl
read-write_option (some n) = refl

read-write_entries : (entries : List (LogEntry ℕ)) → read_entries (write_entries entries) ≡ entries
read-write_entries [] = refl
read-write_entries (e ∷ entries) =
    ground (arith, read-write_option e.command, read-write_entries entries)

pub numbers-IsGob : IsGob numbers
numbers-IsGob = record {
  decode-encode = λ s. ground (arith, read-write_option s.voted_for, read-write_entries s.logs);
  encode_nonempty = λ s. omega arith;
}

abbrev pub entry : ℕ → ℕ → LogEntry ℕ
entry command term = record { command = some command; term = term }

abbrev pub guard_of : ℕ → LogEntry ℕ
guard_of term = record { command = none; term = term }

-- Peer 1 of three: a follower of term 3 whose log is [guard, 10 of term 1, 20 of term 2].
abbrev pub peer : Raft ℕ
peer = record {
  peers = 3;
  persister = record { raftstate = none; snapshot = none };
  me = 1;
  current_term = 3;
  voted_for = none;
  election_timer = running;
  heartbeat_timer = stopped;
  state = follower;
  logs = guard_of 0 ∷ entry 10 1 ∷ entry 20 2 ∷ [];
  commit_index = 1;
  last_applied = 1;
  next_index = 3 ∷ 3 ∷ 3 ∷ [];
  match_index = 0 ∷ 0 ∷ 0 ∷ [];
  snapshotted_index = 0;
  vote_counts = [];
  tasks = [];
}
