-- ===== src/Kv/Tests.antt =====
-- Runs of the key/value service on small inputs, and the theorems about it at such inputs.
use Prim.Native.String.{String}
use distribution_system.Prelude.{
  ℕ, ◌≡◌, refl, Bool, true, false, Option, none, some, List, [], ◌∷◌, arith, done, panic,
}
use distribution_system.Prelude.Dict.{lookup, insert, lookup-insert, nat_eq, string_eq}
use distribution_system.Kv.Types.{Op, KvServer, GetReply, no_error}
use distribution_system.Kv.Server.{
  KvGob, applied, is_duplicate_request, apply_op, apply_message, notify, write, serve,
  start_kv_server,
}
use distribution_system.Kv.Waiting.{register, receive}
use distribution_system.Kv.Clerk.{Clerk, make_clerk, after_call, retry}
use distribution_system.Kv.ExactlyOnce.{superseded, commands, effects, history_of, exactly_once}
use distribution_system.Kv.Replicas.{SameData, retry_has_no_effect, replicas_agree}
use distribution_system.Kv.Notices.{is_other}
use distribution_system.Kv.Waiters.{waiter_learns}
use distribution_system.Kv.Waits.{none_yet, followed_by, registered, never_blocks}
use distribution_system.Kv.Transfer.{IsKvGob, start_kv_server_recovers}
use distribution_system.Kv.Retries.{round_robin, first_success, Behind, tries_in_turn}

-- A format that knows one pair of maps, {a: 1} and {7: 3}.
abbrev single : KvGob
single = record {
  encode = λ db ids. 1 ∷ [];
  decode_db = λ bytes into. some (insert "a" "1" into, bytes);
  decode_ids = λ bytes into. some (insert 7 3 into);
}

abbrev put_a : ℕ → String → Op
put_a request_id value = record {
  key = "a";
  value = value;
  name = "Append";
  client_id = 7;
  request_id = request_id;
}

abbrev server : KvServer
server = record {
  maxraftstate = none;
  db = ("a", "1") ∷ [];
  dispatcher = [];
  last_applied_request_id = (7, 3) ∷ [];
  applied_raft_log_index = 5;
  channels = [];
}

abbrev log : List (ℕ × Op)
log = (1, put_a 1 "x") ∷ (2, put_a 1 "x") ∷ (3, put_a 2 "y") ∷ (4, put_a 1 "x") ∷ []

exactly_once_example :
    (kv : KvServer) × (serve single (commands log) (start_kv_server single none none)
      ≡ done (applied kv))
    × (kv.db ≡ effects (history_of log []))
exactly_once_example = exactly_once single none log

effects_runs : effects (history_of log []) ≡ ("a", "xy") ∷ []
unfolding effects superseded history_of write insert lookup
effects_runs = refl

single-IsKvGob : IsKvGob single server.db server.last_applied_request_id
unfolding lookup insert
single-IsKvGob = record {
  rest = 1 ∷ [];
  decode_db-encode =
      λ into. (insert "a" "1" into, refl, λ key. ground (arith, lookup-insert "a" key "1" into));
  decode_ids-rest = λ into. (insert 7 3 into, refl, λ c. ground (arith, lookup-insert 7 c 3 into));
}

start_kv_server_recovers_example :
    ((key : String)
      → lookup key (start_kv_server single none (some (1 ∷ []))).db ≡ lookup key server.db)
    × ((client_id request_id : ℕ)
        → is_duplicate_request client_id request_id (start_kv_server single none (some (1 ∷ [])))
          ≡ is_duplicate_request client_id request_id server)
start_kv_server_recovers_example = start_kv_server_recovers single server single-IsKvGob none

abbrev later : List (ℕ × Op)
later = (7, record { key = "b"; value = "2"; name = "Put"; client_id = 8; request_id = 1 }) ∷ []

-- `server` behind a request at index 6, and behind `later`.
abbrev appended : KvServer
appended = record server {
  db = ("a", "1y") ∷ [];
  last_applied_request_id = (7, 4) ∷ [];
  applied_raft_log_index = 6;
}

abbrev much_later : KvServer
much_later = record server {
  db = ("a", "1y") ∷ ("b", "2") ∷ [];
  last_applied_request_id = (7, 4) ∷ (8, 1) ∷ [];
  applied_raft_log_index = 7;
}

retry_has_no_effect_example : apply_op 9 (put_a 4 "y") much_later ≡ applied much_later
unfolding apply_op is_duplicate_request write notify serve commands apply_message lookup insert
retry_has_no_effect_example =
    retry_has_no_effect single 6 9 (put_a 4 "y") later server appended much_later refl refl

-- A replica with a handler that waits at index 20.
abbrev watched : KvServer → KvServer
watched kv = record kv { dispatcher = (20, 0) ∷ []; channels = none ∷ [] }

replicas_agree_example : SameData much_later (watched much_later)
unfolding apply_op is_duplicate_request write notify serve commands apply_message lookup insert
replicas_agree_example =
    replicas_agree single later appended (watched appended) much_later (watched much_later)
      (record { db_eq = refl; ids_eq = refl }) refl refl

abbrev reply : Bool → GetReply
reply wrong_leader = record { wrong_leader = wrong_leader; err = no_error; value = "1" }

abbrev answers : List (Option GetReply)
answers = none ∷ some (reply true) ∷ some (reply false) ∷ []

abbrev key_a : String
key_a = "a"

tries_in_turn_example :
    (ck : Clerk) × (retry (λ r. r.wrong_leader) key_a 1 answers (make_clerk 3 9)
      ≡ done (
        round_robin key_a 3 (first_success (λ r. r.wrong_leader) answers).0 0,
        ck,
        (first_success (λ r. r.wrong_leader) answers).1,
      ))
    × Behind 1 (first_success (λ r. r.wrong_leader) answers).1 (make_clerk 3 9) ck
unfolding make_clerk
tries_in_turn_example =
    tries_in_turn (λ r. r.wrong_leader) key_a 1 answers (make_clerk 3 9) (omega arith)

-- Without a server, the first call panics.
no_server : retry (λ r. r.wrong_leader) key_a 1 answers (make_clerk 0 9) ≡ panic
unfolding retry make_clerk after_call
no_server = refl

-- Two handlers wait at index 1.
abbrev waited : KvServer
waited = (register 1 (register 1 (start_kv_server single none none)).0).0

never_blocks_example : (kv : KvServer) × (apply_op 1 (put_a 1 "x") waited ≡ applied kv)
never_blocks_example =
    never_blocks single none none 0 1 (put_a 1 "x") waited
      (followed_by (followed_by none_yet (registered 0 1 (start_kv_server single none none)))
        (registered 0 1 (register 1 (start_kv_server single none none)).0))
      (omega arith)

first_applied : (kv : KvServer) × (apply_op 1 (put_a 1 "x") waited ≡ applied kv)
first_applied =
    never_blocks single none none 0 1 (put_a 1 "x") waited
      (followed_by (followed_by none_yet (registered 0 1 (start_kv_server single none none)))
        (registered 0 1 (register 1 (start_kv_server single none none)).0))
      (omega arith)

-- Before the operation, a second handler comes to the index; behind it, one to the next index.
waiter_learns_example :
    (first_applied.0.db ≡ write (put_a 1 "x") waited.db)
    × (kv : KvServer) × (receive
          (put_a 1 "x")
          (register 1 (start_kv_server single none none)).1
          (register 2 first_applied.0).0
        ≡ some (kv, false))
unfolding is_duplicate_request start_kv_server register lookup insert is_other
waiter_learns_example =
    waiter_learns single none none 0 0 1 1 (put_a 1 "x") (put_a 1 "x")
      (start_kv_server single none none) waited first_applied.0 (register 2 first_applied.0).0
      none_yet
      (followed_by none_yet (registered 0 1 (register 1 (start_kv_server single none none)).0))
      (tt, tt) (omega arith) refl first_applied.1
      (followed_by none_yet (registered 1 2 first_applied.0)) (tt, tt)
