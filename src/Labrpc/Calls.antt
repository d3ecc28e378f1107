-- ===== src/Labrpc/Calls.antt =====
-- labrpc/labrpc.go: a call, from the client end to the handler and back.
use distribution_system.Prelude.{
  Bool, ℕ, suc, ◌+◌, true, ◌≡◌, refl, sym, ◌∙◌, ap, subst, none, some, List, [], ◌∷◌, ◌++◌, length,
  length-append, take, drop, leb, arith, done,
}
use distribution_system.Prelude.Dict.{Eq, lookup}
use distribution_system.Labrpc.Bytes.{Bytes, bytes_eq, dot, last_dot, split_method}
use distribution_system.Labrpc.Server.{
  Gob, ReqMsg, ReplyMsg, Method, Service, Server, call_method, dispatch_method, dispatch_to,
  dispatch,
}
use distribution_system.Labrpc.Network.{Network, ClientEnd}
use distribution_system.Labrpc.Delivery.{
  Wake, Delivered, reply_of, process_req, make_req, receive_reply,
}
use distribution_system.Labrpc.Paths.{Alive, Reaches}
use distribution_system.Labrpc.Replies.{Quiet, process_req_delivers}

last_dot-append : (s m : Bytes) → last_dot m ≡ none → last_dot (s ++ dot ∷ m) ≡ some (length s)
unfolding last_dot
last_dot-append [] m h = rw (last_dot, h) refl
last_dot-append (c ∷ s) m h = rw (last_dot, last_dot-append s m h) refl

take-append : (s t : Bytes) → take (length s) (s ++ t) ≡ s
take-append [] t = refl
take-append (c ∷ s) t = ap (◌∷◌ c) (take-append s t)

drop-append : (c : ℕ) (s m : Bytes) → drop (length s + 1) (s ++ c ∷ m) ≡ m
drop-append c [] m = refl
drop-append c (x ∷ s) m =
    let q : suc (length s) + 1 ≡ suc (length s + 1) = omega arith in rw (q) (drop-append c s m)

-- The name of a service and that of a method without a dot, joined by a dot, are split into the two.
pub split_method-append :
    (s m : Bytes) → last_dot m ≡ none → split_method (s ++ dot ∷ m) ≡ done (s, m)
unfolding split_method
split_method-append s m h =
    let l = length-append s (dot ∷ m) in
    let a : leb (length s) (length (s ++ dot ∷ m)) ≡ true = ground (arith, l) in
    let b : leb (length s + 1) (length (s ++ dot ∷ m)) ≡ true = ground (arith, l) in
    rw (split_method, last_dot-append s m h, a, b, take-append s (dot ∷ m), drop-append dot s m)
      refl

module _ {N W T V : Type 0} ⦃e : Eq N⦄ (gob : Gob T V) (assignable : T → T → Bool)
    -- What was encoded is decoded, without an error, into a new value of its type.
    (gob_decodes : (v : V)
      → gob.decode (gob.zero_of (gob.type_of v)) (gob.encode v) ≡ (v, true)) where
  dispatched :
      (rs : Server W T V) (svc : Service W T V) (method_name : Bytes) (req : ReqMsg N T) (w : W)
      (out : W × ReplyMsg)
      → call_method gob assignable (lookup method_name svc.methods) req w ≡ done out
      → dispatch_to gob assignable (some svc) method_name req rs w ≡ done (rs, out.0, out.1)
  unfolding dispatch_to dispatch_method
  dispatched rs svc method_name req w out h = rw (dispatch_to, dispatch_method, h) refl

  dispatch_runs :
      (end_point : ClientEnd N) (service_name method_name : Bytes) (args : V) (rs : Server W T V)
      (svc : Service W T V) (method : Method W T V) (w : W)
      → last_dot method_name ≡ none
      → lookup service_name rs.services ≡ some svc
      → lookup method_name svc.methods ≡ some method
      → assignable (gob.type_of args) method.args_type ≡ true
      → let out = method.func w args (gob.zero_of method.reply_type) in
        dispatch gob assignable
          (make_req gob end_point (service_name ++ dot ∷ method_name) args)
          rs
          w
        ≡ done (
          record rs { count = rs.count + 1 },
          out.0,
          record { ok = true; reply = gob.encode out.1 },
        )
  unfolding dispatch call_method make_req
  dispatch_runs end_point service_name method_name args rs svc method w h s m fits =
      let req = make_req gob end_point (service_name ++ dot ∷ method_name) args in
      let rs' : Server W T V = record rs { count = rs.count + 1 } in
      let out : W × ReplyMsg = (
        (method.func w args (gob.zero_of method.reply_type)).0,
        record {
          ok = true;
          reply = gob.encode (method.func w args (gob.zero_of method.reply_type)).1;
        },
      ) in
      rw (dispatch, split_method-append service_name method_name h)
        (ap (λ o. dispatch_to gob assignable o method_name req rs' w) s
          ∙ dispatched rs' svc method_name req w out
              (ap (λ x. call_method gob assignable x req w) m ∙ called))
    where
      called :
          call_method gob assignable
            (some method)
            (make_req gob end_point (service_name ++ dot ∷ method_name) args)
            w
          ≡ done (
            (method.func w args (gob.zero_of method.reply_type)).0,
            record {
              ok = true;
              reply = gob.encode (method.func w args (gob.zero_of method.reply_type)).1;
            },
          )
      called = rw (call_method, gob_decodes args, fits) refl

  -- Where labgob decodes what it encoded: on a reliable network, to an end point that reaches a server
  -- which stays alive until the handler has replied, for a method that the server has under the two names,
  -- that takes arguments of this type, and that keeps the type of its reply, Call runs the handler once on the arguments and comes back with
  -- true and the handler's reply, and the server counts one request more.
  pub call_returns :
      (draws : ℕ → ℕ) (end_point : ClientEnd N) (servername : N) (server : ℕ) (rn rn' : Network N)
      (service_name method_name : Bytes) (args : V) (rs : Server W T V) (svc : Service W T V)
      (method : Method W T V) (w : W)
      → last_dot method_name ≡ none
      → lookup service_name rs.services ≡ some svc
      → lookup method_name svc.methods ≡ some method
      → assignable (gob.type_of args) method.args_type ≡ true
      → gob.type_of (method.func w args (gob.zero_of method.reply_type)).1 ≡ method.reply_type
      → rn.reliable ≡ true
      → Reaches end_point.endname servername server rn
      → Alive end_point.endname servername server rn'
      → (rs' : Server W T V) × (r : ReplyMsg) × (dispatch gob assignable
            (make_req gob end_point (service_name ++ dot ∷ method_name) args)
            rs
            w
          ≡ done (rs', (method.func w args (gob.zero_of method.reply_type)).0, r))
        × (rs'.count ≡ rs.count + 1)
        × ((events : List (Wake N))
            → Quiet end_point.endname servername server r events
            → (d : Delivered) × (process_req draws end_point.endname rn events rn' ≡ some (0, d))
              × (receive_reply gob (some (reply_of d)) (gob.zero_of method.reply_type)
                  ≡ done (true, (method.func w args (gob.zero_of method.reply_type)).1)))
  unfolding receive_reply
  call_returns draws end_point servername server rn rn' service_name method_name args rs svc method
        w h s m fits same on reach alive =
      let out = (method.func w args (gob.zero_of method.reply_type)).1 in
      let r : ReplyMsg = record { ok = true; reply = gob.encode out } in
      let decoded : gob.decode (gob.zero_of method.reply_type) (gob.encode out) ≡ (out, true) =
        subst (λ t. gob.decode (gob.zero_of t) (gob.encode out) ≡ (out, true)) same
          (gob_decodes out) in
      let received : receive_reply gob (some r) (gob.zero_of method.reply_type) ≡ done (true, out) =
        rw (receive_reply, decoded) refl in
      (
        record rs { count = rs.count + 1 },
        r,
        dispatch_runs end_point service_name method_name args rs svc method w h s m fits,
        refl,
        λ events quiet.
            let (d, p, q) =
              process_req_delivers draws end_point.endname servername server rn r events rn' on
                reach quiet alive in
            (
              d,
              p,
              subst
                  (λ x.
                    receive_reply gob (some x) (gob.zero_of method.reply_type) ≡ done (true, out))
                  (sym q) received,
            ),
      )
