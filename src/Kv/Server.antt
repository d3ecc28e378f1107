-- ===== src/Kv/Server.antt =====
-- kvraft/server.go: applying what Raft has committed, and the snapshots of the service.
use Prim.Native.String.{String, ◌++◌ as concat}
use distribution_system.Prelude.{
  ℕ, Bool, false, not, Option, none, some, List, [], ◌∷◌, ltb, leb, if◌then◌else◌, get_elem?, set,
  Outcome, done, panic, ◌>>=◌,
}
use distribution_system.Prelude.Dict.{Dict, lookup, insert, nat_eq, string_eq}
use text.Mathlib.Text.{◌==◌ as str_eq}
use distribution_system.Raft.Types.{Raft, ApplyMsg, apply_command, apply_snapshot}
use distribution_system.Raft.Storage.{Gob, get_raft_state_size}
use distribution_system.Raft.Snapshot.{replace_log_with_snapshot}
use distribution_system.Kv.Types.{Op, Notification, KvServer}

-- encoding/gob on the two maps. Decoding into a map adds to what is there.
pub record KvGob : Type 0 where
  pub encode : Dict String String → Dict ℕ ℕ → List ℕ
  pub decode_db : List ℕ → Dict String String → Option (Dict String String × List ℕ)
  pub decode_ids : List ℕ → Dict ℕ ℕ → Option (Dict ℕ ℕ)

unfoldable pub is_duplicate_request : ℕ → ℕ → KvServer → Bool
is_duplicate_request client_id request_id kv = elim (lookup client_id kv.last_applied_request_id) [
  | none ↦ false
  | some applied_request_id ↦ not (ltb applied_request_id request_id)
]

-- kv.db[key], "" where there is none
abbrev pub value_at : String → Dict String String → String
value_at key db = elim (lookup key db) [ none ↦ "" | some v ↦ v ]

unfoldable pub write : Op → Dict String String → Dict String String
write op db =
    if str_eq op.name "Put"
    then insert op.key op.value db
    else if str_eq op.name "Append"
    then insert op.key (concat (value_at op.key db) op.value) db
    else db

-- What happens to a message: it is applied, or the send on a full channel blocks.
pub data Applied : Type 0 where
  applied : KvServer → Applied
  blocked : Applied

-- ch <- notify, on a channel with room for one
abbrev pub send_to : ℕ → Notification → Option (Option Notification) → KvServer → Applied
send_to ch n (some none) kv = applied (record kv { channels = set kv.channels ch (some n) })
send_to ch n _ kv = blocked

abbrev pub notification : Op → Notification
notification op = record { client_id = op.client_id; request_id = op.request_id }

-- `if ch, ok := kv.dispatcher[index]; ok { … }`
unfoldable pub notify : ℕ → Op → KvServer → Applied
notify index op kv = elim (lookup index kv.dispatcher) [
  | none ↦ applied kv
  | some ch ↦ send_to ch (notification op) (get_elem? kv.channels ch) kv
]

unfoldable pub apply_op : ℕ → Op → KvServer → Applied
unfolding is_duplicate_request write
apply_op index op kv =
    if is_duplicate_request op.client_id op.request_id kv
    then applied kv
    else notify index op (record kv {
      db = write op kv.db;
      last_applied_request_id = insert op.client_id op.request_id kv.last_applied_request_id;
      applied_raft_log_index = index;
    })

module _ (gob : KvGob) where
  unfoldable pub install_snapshot : Option (List ℕ) → KvServer → KvServer
  install_snapshot none kv = kv
  install_snapshot (some snapshot) kv = elim (gob.decode_db snapshot kv.db) [
    | none ↦ kv
    | some (db, rest) ↦ elim (gob.decode_ids rest kv.last_applied_request_id) [
      | none ↦ record kv { db = db }
      | some ids ↦ record kv { db = db; last_applied_request_id = ids }
    ]
  ]

  -- One message of `applyCh`. The type assertion on a nil command panics.
  unfoldable pub apply_message : ApplyMsg Op → KvServer → Outcome Applied
  unfolding install_snapshot
  apply_message (apply_snapshot snapshot index) kv = done (applied (install_snapshot snapshot kv))
  apply_message (apply_command none index) kv = panic
  apply_message (apply_command (some op) index) kv = done (apply_op index op kv)

  -- `for msg := range kv.applyCh`, over the messages Raft sends. A send that blocks holds the mutex, and
  -- ends the run.
  unfoldable pub serve : List (ApplyMsg Op) → KvServer → Outcome Applied
  serve [] kv = done (applied kv)
  serve (msg ∷ msgs) kv = do
    result ← apply_message msg kv
    elim result [ applied kv' ↦ serve msgs kv' | blocked ↦ done blocked ]

  unfoldable pub should_take_snapshot : Raft Op → KvServer → Bool
  unfolding get_raft_state_size
  should_take_snapshot rf kv = elim kv.maxraftstate [
    | none ↦ false
    | some limit ↦ leb limit (get_raft_state_size rf)
  ]

  unfoldable pub take_snapshot : Gob Op → KvServer → Raft Op → Outcome (Raft Op)
  take_snapshot raft_gob kv rf =
      replace_log_with_snapshot raft_gob kv.applied_raft_log_index
        (some (gob.encode kv.db kv.last_applied_request_id)) rf

  -- A server before it reads `applyCh`.
  unfoldable pub start_kv_server : Option ℕ → Option (List ℕ) → KvServer
  unfolding install_snapshot
  start_kv_server maxraftstate snapshot = install_snapshot snapshot (record {
    maxraftstate = maxraftstate;
    db = [];
    dispatcher = [];
    last_applied_request_id = [];
    applied_raft_log_index = 0;
    channels = [];
  })
