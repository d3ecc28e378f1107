-- ===== src/Labrpc/Replies.antt =====
-- labrpc/labrpc.go: what ProcessReq answers.
use distribution_system.Prelude.{
  some_injective, ℕ, ◌+◌, ◌%◌, ltb, Bool, true, false, ◌&&◌, not, Bool-cases, ◌≡◌, refl, sym, ◌∙◌,
  ap, ◌⊎◌, inl, inr, Option, none, some, Option-cases, List, [], ◌∷◌, if◌then◌else◌,
}
use distribution_system.Prelude.Dict.{Eq}
use distribution_system.Labrpc.Server.{ReplyMsg}
use distribution_system.Labrpc.Network.{Network, is_server_dead}
use distribution_system.Labrpc.Delivery.{
  Started, unreachable, dropped, running, Wake, replies, tick, Delivered, at_once, delayed,
  reply_of, no_reply, start_req, wait_reply, finish_req, answer_req, process_req, short_delay,
  behind_delay,
}
use distribution_system.Labrpc.Paths.{
  Alive, Reaches, is_server_dead-Alive, Alive-is_server_dead, start_req_runs, start_req-Reaches,
}

-- The handler replies with `r`.
abbrev pub Replied : {N : Type 0} → ReplyMsg → List (Wake N) → Type 0
Replied r [] = ⊥
Replied r (replies r' ∷ events) = r ≡ r'
Replied r (tick rn ∷ events) = Replied r events

pub started_cases :
    {N : Type 0} (s : Started N)
    → (s ≡ unreachable)
      ⊎ ((s ≡ dropped)
          ⊎ ((n : N) × (p : ℕ) × (reliable longreordering : Bool) × (s
                ≡ running n p reliable longreordering)))
started_cases unreachable = inl refl
started_cases dropped = inr (inl refl)
started_cases (running n p r l) = inr (inr (n, p, r, l, refl))

-- A choice of deliveries that has the reply of the handler when it is ok.
chosen :
    (dead lost late : Bool) (ms : ℕ) (r : ReplyMsg) (d : Delivered)
    → (if dead
        then at_once no_reply
        else if lost
        then at_once no_reply
        else if late
        then delayed ms r
        else at_once r)
      ≡ d
    → (reply_of d).ok ≡ true
    → (dead ≡ false) × (reply_of d ≡ r)
chosen true lost late ms r d h k = absurd (refused d h k)
  where
    refused : (d : Delivered) → at_once no_reply ≡ d → (reply_of d).ok ≡ true → ⊥
    refused d h k = let q : false ≡ true = ap (λ x. (reply_of x).ok) h ∙ k in absurd (cc)
chosen false true late ms r d h k =
    let q : false ≡ true = ap (λ x. (reply_of x).ok) h ∙ k in absurd (cc)
chosen false false true ms r d h k = (refl, sym (ap reply_of h))
chosen false false false ms r d h k = (refl, sym (ap reply_of h))

module _ {N : Type 0} ⦃e : Eq N⦄ where
  wait_reply-Replied :
      (endname servername : N) (server : ℕ) (events : List (Wake N)) (r : ReplyMsg)
      → wait_reply endname servername server events ≡ some (some r)
      → Replied r events
  unfolding wait_reply
  wait_reply-Replied endname servername server [] r h = absurd (cc)
  wait_reply-Replied endname servername server (replies r' ∷ events) r h = cc
  wait_reply-Replied endname servername server (tick rn ∷ events) r h =
      elim (Bool-cases (is_server_dead endname servername server rn)) [
        | inl d ↦
            let now : wait_reply endname servername server (tick rn ∷ events) ≡ some none =
              rw (wait_reply, d) refl in
            absurd (cc)
        | inr d ↦
            let now : wait_reply endname servername server (tick rn ∷ events)
                ≡ wait_reply endname servername server events =
              rw (wait_reply, d) refl in
            wait_reply-Replied endname servername server events r (sym now ∙ h)
      ]

  finish_req-Alive :
      (draws : ℕ → ℕ) (endname servername : N) (server : ℕ) (reliable longreordering : Bool)
      (r : Option ReplyMsg) (rn : Network N) (d : Delivered)
      → finish_req draws endname servername server reliable longreordering r rn ≡ d
      → (reply_of d).ok ≡ true
      → (r ≡ some (reply_of d)) × Alive endname servername server rn
  unfolding finish_req
  finish_req-Alive draws endname servername server reliable longreordering none rn d h k =
      let q : false ≡ true = ap (λ x. (reply_of x).ok) h ∙ k in absurd (cc)
  finish_req-Alive draws endname servername server reliable longreordering (some r) rn d h k =
      let (dead, q) =
        chosen (is_server_dead endname servername server rn)
          (not reliable && ltb (draws 1 % 1000) 100) (longreordering && ltb (draws 2 % 900) 600)
          (200 + draws 4 % (1 + draws 3 % 2000)) r d h k in
      (ap some (sym q), is_server_dead-Alive endname servername server rn dead)

  answer_req-Reaches :
      (draws : ℕ → ℕ) (endname : N) (rn : Network N) (events : List (Wake N)) (rn' : Network N)
      (d : Delivered)
      → answer_req draws endname rn events rn' ≡ some d
      → (reply_of d).ok ≡ true
      → (servername : N) × (server : ℕ) × Reaches endname servername server rn
        × Replied (reply_of d) events
        × Alive endname servername server rn'
  unfolding answer_req
  answer_req-Reaches draws endname rn events rn' d h k =
      elim (started_cases (start_req (draws 0) endname rn)) [
        | inl s ↦
            let ms = if rn.long_delays then draws 5 % 7000 else draws 5 % 100 in
            let now : answer_req draws endname rn events rn' ≡ some (delayed ms no_reply) =
              rw (answer_req, s) refl in
            absurd (not_ok (delayed ms no_reply) d (sym now ∙ h) refl k)
        | inr (inl s) ↦
            let now : answer_req draws endname rn events rn' ≡ some (at_once no_reply) =
              rw (answer_req, s) refl in
            absurd (not_ok (at_once no_reply) d (sym now ∙ h) refl k)
        | inr (inr (n, p, reliable, longreordering, s)) ↦
            elim (Option-cases (wait_reply endname n p events)) [
              | inl w ↦
                  let now : answer_req draws endname rn events rn' ≡ none =
                    rw (answer_req, s, w) refl in
                  absurd (cc)
              | inr (r, w) ↦
                  let now : answer_req draws endname rn events rn'
                      ≡ some (finish_req draws endname n p reliable longreordering r rn') =
                    rw (answer_req, s, w) refl in
                  let f =
                    some_injective (finish_req draws endname n p reliable longreordering r rn') d
                      (sym now ∙ h) in
                  let (q, alive) =
                    finish_req-Alive draws endname n p reliable longreordering r rn' d f k in
                  (
                    n,
                    p,
                    start_req-Reaches (draws 0) endname n p reliable longreordering rn s,
                    wait_reply-Replied endname n p events (reply_of d) (w ∙ ap some q),
                    alive,
                  )
            ]
      ]
    where
      not_ok :
          (a b : Delivered) → some a ≡ some b → (reply_of a).ok ≡ false → (reply_of b).ok ≡ true → ⊥
      not_ok a b h k l =
          let q = some_injective a b h in
          let z : false ≡ true = sym k ∙ ap (λ x. (reply_of x).ok) q ∙ l in absurd (cc)

-- While the request waits, nothing happens that makes the server dead, up to the reply.
abbrev pub Quiet : {N : Type 0} → ⦃e : Eq N⦄ → N → N → ℕ → ReplyMsg → List (Wake N) → Type 0
Quiet endname servername server r [] = ⊥
Quiet endname servername server r (replies r' ∷ events) = r' ≡ r
Quiet endname servername server r (tick rn ∷ events) =
    Alive endname servername server rn × Quiet endname servername server r events

module _ {N : Type 0} ⦃e : Eq N⦄ where
  wait_reply-Quiet :
      (endname servername : N) (server : ℕ) (r : ReplyMsg) (events : List (Wake N))
      → Quiet endname servername server r events
      → wait_reply endname servername server events ≡ some (some r)
  unfolding wait_reply
  wait_reply-Quiet endname servername server r [] q = absurd q
  wait_reply-Quiet endname servername server r (replies r' ∷ events) q = ap (λ x. some (some x)) q
  wait_reply-Quiet endname servername server r (tick rn ∷ events) (a, q) =
      rw (wait_reply, Alive-is_server_dead endname servername server rn a)
        (wait_reply-Quiet endname servername server r events q)

  answer_req_delivers :
      (draws : ℕ → ℕ) (endname servername : N) (server : ℕ) (rn : Network N) (r : ReplyMsg)
      (events : List (Wake N)) (rn' : Network N)
      → rn.reliable ≡ true
      → Reaches endname servername server rn
      → Quiet endname servername server r events
      → Alive endname servername server rn'
      → (d : Delivered) × (answer_req draws endname rn events rn' ≡ some d) × (reply_of d ≡ r)
  unfolding answer_req finish_req
  answer_req_delivers draws endname servername server rn r events rn' on reach quiet alive =
      let s = start_req_runs (draws 0) endname servername server rn reach on in
      let w = wait_reply-Quiet endname servername server r events quiet in
      let a = Alive-is_server_dead endname servername server rn' alive in
      let late = rn.long_reordering && ltb (draws 2 % 900) 600 in
      let ms = 200 + draws 4 % (1 + draws 3 % 2000) in
      (
        if late then delayed ms r else at_once r,
        rw (answer_req, s, w, finish_req, a) refl,
        either late ms r,
      )
    where
      either :
          (late : Bool) (ms : ℕ) (r : ReplyMsg)
          → reply_of (if late then delayed ms r else at_once r) ≡ r
      either true ms r = refl
      either false ms r = refl

-- The sleep before the handler leaves the answer as it is.
pub behind_delay-answer :
    (ms ms' : ℕ) (answer : Option Delivered) (d : Delivered)
    → behind_delay ms' answer ≡ some (ms, d)
    → answer ≡ some d
behind_delay-answer ms ms' none d h = absurd (cc)
behind_delay-answer ms ms' (some d') d h = ap some (same_answer ms' ms d' d h)
  where
    same_answer : (a b : ℕ) (x y : Delivered) → behind_delay a (some x) ≡ some (b, y) → x ≡ y
    same_answer a b x y h = cc

module _ {N : Type 0} ⦃e : Eq N⦄ where
  -- When ProcessReq answers with a reply that is ok, the end point was enabled and connected to the name of
  -- a server when the request came; the handler has replied so; and behind the wait the end point is enabled
  -- and the same server still has that name.
  pub process_req-Reaches :
      (draws : ℕ → ℕ) (endname : N) (rn : Network N) (events : List (Wake N)) (rn' : Network N)
      (ms : ℕ) (d : Delivered)
      → process_req draws endname rn events rn' ≡ some (ms, d)
      → (reply_of d).ok ≡ true
      → (servername : N) × (server : ℕ) × Reaches endname servername server rn
        × Replied (reply_of d) events
        × Alive endname servername server rn'
  unfolding process_req
  process_req-Reaches draws endname rn events rn' ms d h k =
      answer_req-Reaches draws endname rn events rn' d
        (behind_delay-answer ms (short_delay (draws 6) (start_req (draws 0) endname rn))
          (answer_req draws endname rn events rn') d h)
        k

  -- On a reliable network, to an end point that reaches a server which stays alive until the handler has
  -- replied, ProcessReq does not sleep and answers with the reply of the handler.
  pub process_req_delivers :
      (draws : ℕ → ℕ) (endname servername : N) (server : ℕ) (rn : Network N) (r : ReplyMsg)
      (events : List (Wake N)) (rn' : Network N)
      → rn.reliable ≡ true
      → Reaches endname servername server rn
      → Quiet endname servername server r events
      → Alive endname servername server rn'
      → (d : Delivered) × (process_req draws endname rn events rn' ≡ some (0, d)) × (reply_of d ≡ r)
  unfolding process_req short_delay
  process_req_delivers draws endname servername server rn r events rn' on reach quiet alive =
      let s = start_req_runs (draws 0) endname servername server rn reach on in
      let (d, p, q) =
        answer_req_delivers draws endname servername server rn r events rn' on reach quiet alive in
      (d, rw (process_req, p, s, short_delay) refl, q)
