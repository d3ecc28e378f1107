-- ===== src/Labrpc/Tests.antt =====
-- A network with one end point, one server and one method.
use distribution_system.Prelude.{
  ℕ, ◌+◌, ◌<◌, ◌≡◌, refl, true, false, none, some, List, [], ◌∷◌, ◌++◌, arith, done,
}
use distribution_system.Prelude.Dict.{lookup, insert, nat_eq}
use distribution_system.Labrpc.Bytes.{Bytes, bytes_eq, dot, last_dot, split_method}
use distribution_system.Labrpc.Server.{
  Gob, ReplyMsg, Method, Service, Server, make_service, make_server, add_methods, add_service,
  dispatch,
}
use distribution_system.Labrpc.Network.{
  Network, ClientEnd, make_network, add_server, delete_server, read_endname_info, is_server_dead,
}
use distribution_system.Labrpc.Delivery.{
  Wake, replies, tick, Delivered, at_once, delayed, reply_of, no_reply, start_with, start_req,
  wait_reply, finish_req, short_delay, answer_req, process_req, make_req, receive_reply,
}
use distribution_system.Labrpc.Paths.{Alive, Reaches}
use distribution_system.Labrpc.Replies.{Replied, Quiet, process_req-Reaches, process_req_delivers}
use distribution_system.Labrpc.Times.{lateness, process_req_in_time}
use distribution_system.Labrpc.Changes.{
  Changes, unchanged, changed, adds, deleted_server_never_replies,
}
use distribution_system.Labrpc.Calls.{split_method-append, call_returns}

-- End point 1 is enabled and connected to server 2, which is at address 0.
abbrev network : Network ℕ
network = record make_network {
  ends = (1, record { endname = 1 }) ∷ [];
  enabled = (1, true) ∷ [];
  servers = (2, some 0) ∷ [];
  connections = (1, some 2) ∷ [];
}

abbrev draws : ℕ → ℕ
draws n = 0

abbrev answer : ReplyMsg
answer = record { ok = true; reply = 7 ∷ [] }

abbrev one_tick : List (Wake ℕ)
one_tick = tick network ∷ replies answer ∷ []

reached : Reaches 1 2 0 network
unfolding lookup
reached = (refl, (refl, refl))

quiet : (r : ReplyMsg) → Quiet 1 2 0 r (tick network ∷ replies r ∷ [])
quiet r = (reached.1, refl)

answered : process_req draws 1 network one_tick network ≡ some (0, at_once answer)
unfolding process_req answer_req short_delay start_req start_with read_endname_info wait_reply
    finish_req is_server_dead lookup
answered = refl

process_req-Reaches_example :
    (servername : ℕ) × (server : ℕ) × Reaches 1 servername server network
    × Replied answer one_tick
    × Alive 1 servername server network
process_req-Reaches_example =
    process_req-Reaches draws 1 network one_tick network 0 (at_once answer) answered refl

process_req_delivers_example :
    (d : Delivered) × (process_req draws 1 network one_tick network ≡ some (0, d))
    × (reply_of d ≡ answer)
process_req_delivers_example =
    process_req_delivers draws 1 2 0 network answer one_tick network refl reached (quiet answer)
      reached.1

unanswered : process_req (λ n. 6999) 3 network [] network ≡ some (0, delayed 99 no_reply)
unfolding process_req answer_req short_delay start_req start_with read_endname_info lookup
unanswered = refl

-- On a network that is not reliable, with a draw that neither drops the request nor the reply.
slow :
    process_req (λ n. 998) 1 (record network { reliable = false }) one_tick network
    ≡ some (26, at_once answer)
unfolding process_req answer_req short_delay start_req start_with read_endname_info wait_reply
    finish_req is_server_dead lookup
slow = refl

process_req_in_time_example :
    (ms : ℕ) × (d : Delivered) × (process_req
        (λ n. 998)
        1
        (record network { reliable = false })
        one_tick
        network
      ≡ some (ms, d))
    × (ms + lateness d < 2226)
process_req_in_time_example =
    process_req_in_time (λ n. 998) 1 (record network { reliable = false }) answer one_tick network
      refl

-- The server is deleted, and another one gets its name.
restarted : Changes 0 (delete_server 2 network) (add_server 2 5 (delete_server 2 network))
restarted =
    changed (delete_server 2 network) (delete_server 2 network)
      (add_server 2 5 (delete_server 2 network)) (unchanged (delete_server 2 network))
      (adds 2 5 (delete_server 2 network) (λ q. absurd (omega arith)))

silent :
    process_req draws 1 network one_tick (add_server 2 5 (delete_server 2 network))
    ≡ some (0, at_once no_reply)
unfolding process_req answer_req short_delay start_req start_with read_endname_info wait_reply
    finish_req is_server_dead lookup insert add_server delete_server
silent = refl

deleted_server_never_replies_example : false ≡ false
deleted_server_never_replies_example =
    deleted_server_never_replies draws 1 2 0 network network
      (add_server 2 5 (delete_server 2 network)) one_tick 0 (at_once no_reply) reached.0 reached.1.1
      restarted silent

-- "Raft" and "Vote"
abbrev raft_name : Bytes
raft_name = 82 ∷ 97 ∷ 102 ∷ 116 ∷ []

abbrev vote_name : Bytes
vote_name = 86 ∷ 111 ∷ 116 ∷ 101 ∷ []

vote_name_plain : last_dot vote_name ≡ none
unfolding last_dot
vote_name_plain = refl

split_method-append_example :
    split_method (raft_name ++ dot ∷ vote_name) ≡ done (raft_name, vote_name)
split_method-append_example = split_method-append raft_name vote_name vote_name_plain

abbrev client : ClientEnd ℕ
client = record { endname = 1 }

-- Numbers as values, of one type.
abbrev gob : Gob Unit ℕ
gob = record {
  type_of = λ v. tt;
  zero_of = λ t. 0;
  encode = λ v. v ∷ [];
  decode = λ v b. elim b [ [] ↦ (v, false) | x ∷ xs ↦ (x, true) ];
}

abbrev vote : Method ℕ Unit ℕ
vote = record {
  name = vote_name;
  exported = true;
  num_in = 3;
  reply_is_ptr = true;
  num_out = 0;
  args_type = tt;
  reply_type = tt;
  func = λ w args reply. (w + args, w + args);
}

abbrev service : Service ℕ Unit ℕ
service = record { name = raft_name; methods = (vote_name, vote) ∷ [] }

abbrev server : Server ℕ Unit ℕ
server = record { services = (raft_name, service) ∷ []; count = 0 }

service_made : add_service (make_service raft_name (vote ∷ [])) make_server ≡ server
unfolding add_service make_service add_methods insert
service_made = refl

call_returns_example :
    (rs' : Server ℕ Unit ℕ) × (r : ReplyMsg) × (dispatch gob
        (λ s t. true)
        (make_req gob client (raft_name ++ dot ∷ vote_name) 4)
        server
        3
      ≡ done (rs', 7, r))
    × (rs'.count ≡ 1)
    × ((events : List (Wake ℕ))
        → Quiet 1 2 0 r events
        → (d : Delivered) × (process_req draws 1 network events network ≡ some (0, d))
          × (receive_reply gob (some (reply_of d)) 0 ≡ done (true, 7)))
unfolding lookup
call_returns_example =
    call_returns gob (λ s t. true) (λ v. refl) draws client 2 0 network network raft_name vote_name
      4 server service vote 3 vote_name_plain refl refl refl refl refl reached reached.1
