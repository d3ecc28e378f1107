-- ===== src/Kv/Waiting.antt =====
-- kvraft/server.go: the RPC handlers, in the critical sections between which they wait.
use distribution_system.Prelude.{
  ℕ, Bool, true, false, not, ◌||◌, Option, none, some, [], ◌∷◌, ◌++◌, ◌==◌, if◌then◌else◌,
  get_elem?, set, length, Outcome, done, ◌>>=◌,
}
use distribution_system.Prelude.Dict.{lookup, insert, delete, nat_eq, string_eq}
use distribution_system.Raft.Types.{Raft}
use distribution_system.Raft.Storage.{Gob}
use distribution_system.Raft.Lifecycle.{start}
use distribution_system.Kv.Types.{
  no_error, err_no_key, Op, KvServer, GetArgs, GetReply, PutAppendArgs, PutAppendReply,
}
use distribution_system.Kv.Server.{KvGob, is_duplicate_request, should_take_snapshot, take_snapshot}

-- waitApplying up to the lock: hand the operation to Raft, and compact its log if it has grown.
unfoldable pub propose :
    KvGob → Gob Op → Op → KvServer → Raft Op → Outcome (Raft Op × Option ℕ × Bool)
propose gob raft_gob op kv rf = do
  (rf', index, term, is_leader) ← start raft_gob op rf
  if not is_leader
      then done (rf', none, true)
      else if should_take_snapshot gob rf' kv
      then (do rf'' ← take_snapshot gob raft_gob kv rf'; done (rf'', index, false))
      else done (rf', index, false)

-- `if _, ok := kv.dispatcher[index]; !ok { … }; ch := kv.dispatcher[index]`
unfoldable pub register : ℕ → KvServer → KvServer × ℕ
register index kv = elim (lookup index kv.dispatcher) [
  | some ch ↦ (kv, ch)
  | none ↦ (
    record kv {
      dispatcher = insert index (length kv.channels) kv.dispatcher;
      channels = kv.channels ++ none ∷ [];
    },
    length kv.channels,
  )
]

-- `case notify := <-ch`: the server behind it, and whether the leader was wrong. `none` while the
-- channel is empty.
unfoldable pub receive : Op → ℕ → KvServer → Option (KvServer × Bool)
receive op ch kv = elim (get_elem? kv.channels ch) [
  | some (some n) ↦ some (
    record kv { channels = set kv.channels ch none },
    not (n.client_id == op.client_id) || not (n.request_id == op.request_id),
  )
  | _ ↦ none
]

-- `case <-time.After(timeout)`
unfoldable pub time_out : Op → KvServer → Bool
unfolding is_duplicate_request
time_out op kv = not (is_duplicate_request op.client_id op.request_id kv)

unfoldable pub clean_up : ℕ → KvServer → KvServer
clean_up index kv = record kv { dispatcher = delete index kv.dispatcher }

unfoldable pub get_op : GetArgs → Op
get_op args = record {
  key = args.key;
  value = "";
  name = "Get";
  client_id = args.client_id;
  request_id = args.request_id;
}

unfoldable pub put_append_op : PutAppendArgs → Op
put_append_op args = record {
  key = args.key;
  value = args.value;
  name = args.op;
  client_id = args.client_id;
  request_id = args.request_id;
}

-- Get behind waitApplying.
unfoldable pub get_reply : GetArgs → Bool → KvServer → GetReply
get_reply args true kv = record { wrong_leader = true; err = no_error; value = "" }
get_reply args false kv = elim (lookup args.key kv.db) [
  | some value ↦ record { wrong_leader = false; err = no_error; value = value }
  | none ↦ record { wrong_leader = false; err = err_no_key; value = "" }
]

-- PutAppend behind waitApplying.
unfoldable pub put_append_reply : Bool → PutAppendReply
put_append_reply wrong_leader = record { wrong_leader = wrong_leader; err = no_error }
