-- ===== src/Raft/Storage.antt =====
-- raft/raft.go: what a peer persists, and how it is restored. The byte format is that of the Go
-- package encoding/gob, which is a parameter.
use distribution_system.Prelude.{ℕ, ◌<◌, ◌≡◌, Option, none, some, List, [], ◌∷◌, length}
use distribution_system.Raft.Persister.{save_raft_state, raft_state_size}
use distribution_system.Raft.Types.{Raft, LogEntry}

-- The four values of `encodeRaftState`, in its order.
pub record Saved (C : Type 0) : Type 0 where
  pub current_term : ℕ
  pub voted_for : Option ℕ
  pub snapshotted_index : ℕ
  pub logs : List (LogEntry C)

-- Encoding the four values to one buffer, and decoding four values from it (`none` is an error).
pub record Gob (C : Type 0) : Type 0 where
  pub encode : Saved C → List ℕ
  pub decode : List ℕ → Option (Saved C)

-- What encoding/gob documents: a decoder restores the values encoded, and no encoding is empty.
pub record IsGob {C : Type 0} (gob : Gob C) : Type 0 where
  pub decode-encode : (s : Saved C) → gob.decode (gob.encode s) ≡ some s
  pub encode_nonempty : (s : Saved C) → 0 < length (gob.encode s)

module _ {C : Type 0} where
  abbrev pub saved : Raft C → Saved C
  saved rf = record {
    current_term = rf.current_term;
    voted_for = rf.voted_for;
    snapshotted_index = rf.snapshotted_index;
    logs = rf.logs;
  }

  unfoldable pub get_raft_state_size : Raft C → ℕ
  unfolding raft_state_size
  get_raft_state_size rf = raft_state_size rf.persister

module _ {C : Type 0} (gob : Gob C) where
  unfoldable pub encode_raft_state : Raft C → List ℕ
  encode_raft_state rf = gob.encode (saved rf)

  unfoldable pub persist : Raft C → Raft C
  unfolding encode_raft_state save_raft_state
  persist rf = record rf { persister = save_raft_state (encode_raft_state rf) rf.persister }

  unfoldable pub restore : Option (Saved C) → Raft C → Raft C
  restore none rf = rf
  restore (some s) rf = record rf {
    current_term = s.current_term;
    voted_for = s.voted_for;
    snapshotted_index = s.snapshotted_index;
    logs = s.logs;
    commit_index = s.snapshotted_index;
    last_applied = s.snapshotted_index;
  }

  unfoldable pub read_persist : Option (List ℕ) → Raft C → Raft C
  unfolding restore
  read_persist none rf = rf
  read_persist (some []) rf = rf
  read_persist (some (b ∷ bytes)) rf = restore (gob.decode (b ∷ bytes)) rf
