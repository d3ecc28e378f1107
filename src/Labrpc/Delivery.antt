-- ===== src/Labrpc/Delivery.antt =====
-- labrpc/labrpc.go: ProcessReq and Call. What happens while the request waits is a list of events; a
-- number stands for what rand draws.
use distribution_system.Prelude.{
  ℕ, ◌+◌, ◌%◌, ltb, Bool, true, false, ◌&&◌, not, Option, none, some, List, [], ◌∷◌, if◌then◌else◌,
  Outcome, done, panic,
}
use distribution_system.Prelude.Dict.{Eq}
use distribution_system.Labrpc.Bytes.{Bytes}
use distribution_system.Labrpc.Server.{Gob, ReqMsg, ReplyMsg}
use distribution_system.Labrpc.Network.{Network, ClientEnd, read_endname_info, is_server_dead}

-- What ProcessReq does before it calls the handler.
pub data Started (N : Type 0) : Type 0 where
  unreachable dropped : Started N
  running : N → ℕ → Bool → Bool → Started N

-- While it waits, the handler returns, or 100 ms pass on the network as it is then.
pub data Wake (N : Type 0) : Type 0 where
  replies : ReplyMsg → Wake N
  tick : Network N → Wake N

-- A reply on the channel of the request, at once or after some ms.
pub data Delivered : Type 0 where
  at_once : ReplyMsg → Delivered
  delayed : ℕ → ReplyMsg → Delivered

abbrev pub reply_of : Delivered → ReplyMsg
reply_of (at_once r) = r
reply_of (delayed ms r) = r

abbrev pub no_reply : ReplyMsg
no_reply = record { ok = false; reply = [] }

-- The conditions on what ReadEndnameInfo returns, and on a draw.
unfoldable pub start_with : {N : Type 0} → ℕ → Bool → Option N → Option ℕ → Bool → Bool → Started N
start_with draw enabled none server reliable longreordering = unreachable
start_with draw enabled (some servername) none reliable longreordering = unreachable
start_with draw false (some servername) (some server) reliable longreordering = unreachable
start_with draw true (some servername) (some server) reliable longreordering =
    if not reliable && ltb (draw % 1000) 100
    then dropped
    else running servername server reliable longreordering

-- The short delay of a network that is not reliable, before it drops the request or calls the handler.
unfoldable pub short_delay : {N : Type 0} → ℕ → Started N → ℕ
short_delay draw unreachable = 0
short_delay draw dropped = draw % 27
short_delay draw (running servername server reliable longreordering) =
    if reliable then 0 else draw % 27

abbrev pub behind_delay : ℕ → Option Delivered → Option (ℕ × Delivered)
behind_delay ms none = none
behind_delay ms (some d) = some (ms, d)

module _ {N : Type 0} ⦃e : Eq N⦄ where
  unfoldable pub start_req : ℕ → N → Network N → Started N
  unfolding start_with
  start_req draw endname rn =
      let i = read_endname_info endname rn in
      start_with draw i.enabled i.servername i.server i.reliable i.longreordering

  -- The loop that waits: nothing while it goes on, then the reply, if the server was not found dead.
  unfoldable pub wait_reply : N → N → ℕ → List (Wake N) → Option (Option ReplyMsg)
  wait_reply endname servername server [] = none
  wait_reply endname servername server (replies r ∷ events) = some (some r)
  wait_reply endname servername server (tick rn ∷ events) =
      let rest = wait_reply endname servername server events in
      if is_server_dead endname servername server rn then some none else rest

  -- Behind the loop.
  unfoldable pub finish_req :
      (ℕ → ℕ) → N → N → ℕ → Bool → Bool → Option ReplyMsg → Network N → Delivered
  finish_req draws endname servername server reliable longreordering none rn = at_once no_reply
  finish_req draws endname servername server reliable longreordering (some r) rn =
      if is_server_dead endname servername server rn
      then at_once no_reply
      else if not reliable && ltb (draws 1 % 1000) 100
      then at_once no_reply
      else if longreordering && ltb (draws 2 % 900) 600
      then delayed (200 + draws 4 % (1 + draws 3 % 2000)) r
      else at_once r

  -- The answer, on the network as it is at the start and as it is behind the loop.
  unfoldable pub answer_req : (ℕ → ℕ) → N → Network N → List (Wake N) → Network N → Option Delivered
  answer_req draws endname rn events rn' = elim (start_req (draws 0) endname rn) [
    | unreachable ↦
        some (delayed (if rn.long_delays then draws 5 % 7000 else draws 5 % 100) no_reply)
    | dropped ↦ some (at_once no_reply)
    | running servername server reliable longreordering ↦
        elim (wait_reply endname servername server events) [
          | none ↦ none
          | some r ↦ some (finish_req draws endname servername server reliable longreordering r rn')
        ]
  ]

  -- The ms for which ProcessReq sleeps before the handler, and the answer.
  unfoldable pub process_req :
      (ℕ → ℕ) → N → Network N → List (Wake N) → Network N → Option (ℕ × Delivered)
  unfolding answer_req start_req
  process_req draws endname rn events rn' =
      behind_delay (short_delay (draws 6) (start_req (draws 0) endname rn))
        (answer_req draws endname rn events rn')

module _ {N T V : Type 0} (gob : Gob T V) where
  -- The request that Call sends.
  unfoldable pub make_req : ClientEnd N → Bytes → V → ReqMsg N T
  make_req end_point svc_meth args = record {
    endname = end_point.endname;
    svc_meth = svc_meth;
    args_type = gob.type_of args;
    args = gob.encode args;
  }

module _ {T V : Type 0} (gob : Gob T V) where
  -- What Call returns, with the value that `reply` points to, on the answer to its request: `none` when
  -- the network was cleaned up before it took the request. A reply that does not decode ends the process.
  unfoldable pub receive_reply : Option ReplyMsg → V → Outcome (Bool × V)
  receive_reply none reply = done (false, reply)
  receive_reply (some rep) reply =
      if rep.ok
      then (let (v, no_error) = gob.decode reply rep.reply in
          if no_error then done (true, v) else panic)
      else done (false, reply)
