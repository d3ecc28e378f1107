-- ===== src/Labrpc/Times.antt =====
-- labrpc/labrpc.go: how long ProcessReq itself holds an answer back.
use distribution_system.Prelude.{
  ℕ, ◌+◌, ◌%◌, ltb, Bool, true, false, ◌&&◌, not, Bool-cases, ◌≡◌, ◌<◌, refl, inl, inr, Option,
  none, some, List, [], ◌∷◌, if◌then◌else◌, arith,
}
use native.Mathlib.Nat.{mod-lt}
use distribution_system.Prelude.Dict.{Eq}
use distribution_system.Labrpc.Server.{ReplyMsg}
use distribution_system.Labrpc.Network.{Network, is_server_dead}
use distribution_system.Labrpc.Delivery.{
  Started, unreachable, dropped, running, Wake, replies, tick, Delivered, at_once, delayed,
  no_reply, start_req, wait_reply, finish_req, answer_req, process_req, short_delay,
}
use distribution_system.Labrpc.Replies.{Replied, started_cases}

-- The ms between the end of the wait and the answer.
abbrev pub lateness : Delivered → ℕ
lateness (at_once r) = 0
lateness (delayed ms r) = ms

waits : (long : Bool) (n : ℕ) → (if long then n % 7000 else n % 100) < (if long then 7000 else 100)
waits true n = omega arith
waits false n = omega arith

reordered : (m n : ℕ) → 200 + n % (1 + m % 2000) < 2200
reordered m n =
    let positive : 0 < 1 + m % 2000 = omega arith in let lt = mod-lt n positive in omega arith

late :
    (dead lost slow : Bool) (ms : ℕ) (r : ReplyMsg)
    → ms < 2200
    → lateness (
        if dead
        then at_once no_reply
        else if lost
        then at_once no_reply
        else if slow
        then delayed ms r
        else at_once r)
      < 2200
late true lost slow ms r lt = omega arith
late false true slow ms r lt = omega arith
late false false true ms r lt = lt
late false false false ms r lt = omega arith

module _ {N : Type 0} ⦃e : Eq N⦄ where
  finish_req-lateness :
      (draws : ℕ → ℕ) (endname servername : N) (server : ℕ) (reliable longreordering : Bool)
      (reply : Option ReplyMsg) (rn : Network N)
      → lateness (finish_req draws endname servername server reliable longreordering reply rn)
        < 2200
  unfolding finish_req
  finish_req-lateness draws endname n p reliable longreordering none rn = omega arith
  finish_req-lateness draws endname n p reliable longreordering (some r) rn =
      late (is_server_dead endname n p rn) (not reliable && ltb (draws 1 % 1000) 100)
        (longreordering && ltb (draws 2 % 900) 600) (200 + draws 4 % (1 + draws 3 % 2000)) r
        (reordered (draws 3) (draws 4))

  -- The wait is over when the handler replies, or before.
  wait_reply_ends :
      (endname servername : N) (server : ℕ) (r : ReplyMsg) (events : List (Wake N))
      → Replied r events
      → (reply : Option ReplyMsg) × (wait_reply endname servername server events ≡ some reply)
  unfolding wait_reply
  wait_reply_ends endname servername server r [] h = absurd h
  wait_reply_ends endname servername server r (replies r' ∷ events) h = (some r', refl)
  wait_reply_ends endname servername server r (tick rn ∷ events) h =
      let (reply, q) = wait_reply_ends endname servername server r events h in
      elim (Bool-cases (is_server_dead endname servername server rn)) [
        | inl dead ↦ (none, rw (wait_reply, dead) refl)
        | inr alive ↦ (reply, rw (wait_reply, alive, q) refl)
      ]

  -- How late an answer can be behind the wait: less than 7 s or 100 ms at an end point that reaches no
  -- server, by the switch of long delays, and less than 2200 ms otherwise.
  abbrev bound_of : Bool → Started N → ℕ
  bound_of long_delays unreachable = if long_delays then 7000 else 100
  bound_of long_delays dropped = 1
  bound_of long_delays (running servername server reliable longreordering) = 2200

  answer_req_ends :
      (draws : ℕ → ℕ) (endname : N) (rn : Network N) (r : ReplyMsg) (events : List (Wake N))
      (rn' : Network N)
      → Replied r events
      → (d : Delivered) × (answer_req draws endname rn events rn' ≡ some d)
        × (lateness d < bound_of rn.long_delays (start_req (draws 0) endname rn))
  unfolding answer_req
  answer_req_ends draws endname rn r events rn' h =
      elim (started_cases (start_req (draws 0) endname rn)) [
        | inl s ↦ (
          delayed (if rn.long_delays then draws 5 % 7000 else draws 5 % 100) no_reply,
          rw (answer_req, s) refl,
          rw s (waits rn.long_delays (draws 5)),
        )
        | inr (inl s) ↦ (at_once no_reply, rw (answer_req, s) refl, rw s (omega arith))
        | inr (inr (n, p, reliable, longreordering, s)) ↦
            let (q, w) = wait_reply_ends endname n p r events h in
            (
              finish_req draws endname n p reliable longreordering q rn',
              rw (answer_req, s, w) refl,
              rw s (finish_req-lateness draws endname n p reliable longreordering q rn'),
            )
      ]

  held :
      (long_delays : Bool) (draw l : ℕ) (started : Started N)
      → l < bound_of long_delays started
      → short_delay draw started + l < (if long_delays then 7000 else 2226)
  unfolding short_delay
  held true draw l unreachable lt = omega arith
  held false draw l unreachable lt = omega arith
  held true draw l dropped lt = omega arith
  held false draw l dropped lt = omega arith
  held true draw l (running servername server true longreordering) lt = omega arith
  held false draw l (running servername server true longreordering) lt = omega arith
  held true draw l (running servername server false longreordering) lt = omega arith
  held false draw l (running servername server false longreordering) lt = omega arith

  -- A request whose handler replies gets an answer from ProcessReq, whatever else happens on the network.
  -- Besides the wait for the handler, which may be long, ProcessReq holds the answer back for less
  -- than 2226 ms in all, by its sleep and its timer, or for less than 7 s with long delays.
  pub process_req_in_time :
      (draws : ℕ → ℕ) (endname : N) (rn : Network N) (r : ReplyMsg) (events : List (Wake N))
      (rn' : Network N)
      → Replied r events
      → (ms : ℕ) × (d : Delivered) × (process_req draws endname rn events rn' ≡ some (ms, d))
        × (ms + lateness d < (if rn.long_delays then 7000 else 2226))
  unfolding process_req
  process_req_in_time draws endname rn r events rn' h =
      let started = start_req (draws 0) endname rn in
      let (d, p, lt) = answer_req_ends draws endname rn r events rn' h in
      (
        short_delay (draws 6) started,
        d,
        rw (process_req, p) refl,
        held rn.long_delays (draws 6) (lateness d) started lt,
      )
