-- ===== src/Labrpc/Server.antt =====
-- labrpc/labrpc.go: services, servers, and the dispatch of a request to a handler. A handler works on the
-- state W of all receivers, on values V of types T.
use distribution_system.Prelude.{
  ℕ, ◌+◌, ◌==◌, Bool, true, ◌||◌, not, Option, none, some, List, [], ◌∷◌, if◌then◌else◌, Outcome,
  done, panic, ◌>>=◌,
}
use distribution_system.Prelude.Dict.{Dict, lookup, insert}
use distribution_system.Labrpc.Bytes.{Bytes, bytes_eq, split_method}

-- labgob, on the values of RPCs: decoding writes into a value, and says whether there was no error.
pub record Gob (T V : Type 0) : Type 0 where
  pub type_of : V → T
  pub zero_of : T → V
  pub encode : V → Bytes
  pub decode : V → Bytes → V × Bool

-- The request, without the channel for the reply.
pub record ReqMsg (N T : Type 0) : Type 0 where
  pub endname : N
  pub svc_meth : Bytes
  pub args_type : T
  pub args : Bytes

pub record ReplyMsg : Type 0 where
  pub ok : Bool
  pub reply : Bytes

-- What reflection says of a method: its numbers of arguments, with the receiver, and of results.
pub record Method (W T V : Type 0) : Type 0 where
  pub name : Bytes
  pub exported : Bool
  pub num_in : ℕ
  pub reply_is_ptr : Bool
  pub num_out : ℕ
  pub args_type : T
  pub reply_type : T
  pub func : W → V → V → W × V

pub record Service (W T V : Type 0) : Type 0 where
  pub name : Bytes
  pub methods : Dict Bytes (Method W T V)

pub record Server (W T V : Type 0) : Type 0 where
  pub services : Dict Bytes (Service W T V)
  pub count : ℕ

module _ {W T V : Type 0} where
  -- The loop of MakeService over the methods of the receiver.
  unfoldable pub add_methods :
      List (Method W T V) → Dict Bytes (Method W T V) → Dict Bytes (Method W T V)
  add_methods [] methods = methods
  add_methods (method ∷ rest) methods =
      let unfit =
        not method.exported
        || (not (method.num_in == 3) || (not method.reply_is_ptr || not (method.num_out == 0))) in
      add_methods rest (if unfit then methods else insert method.name method methods)

  unfoldable pub make_service : Bytes → List (Method W T V) → Service W T V
  unfolding add_methods
  make_service name methods = record { name = name; methods = add_methods methods [] }

  abbrev pub make_server : Server W T V
  make_server = record { services = []; count = 0 }

  unfoldable pub add_service : Service W T V → Server W T V → Server W T V
  add_service svc rs = record rs { services = insert svc.name svc rs.services }

  -- `assignable` is reflection's test of a value's type for the type of a parameter.
  module _ {N : Type 0} (gob : Gob T V) (assignable : T → T → Bool) where
    -- An unknown method ends the process, and so does an argument that the method does not take.
    unfoldable pub call_method : Option (Method W T V) → ReqMsg N T → W → Outcome (W × ReplyMsg)
    call_method none req w = panic
    call_method (some method) req w =
        let args = (gob.decode (gob.zero_of req.args_type) req.args).0 in
        let (w', replyv) = method.func w args (gob.zero_of method.reply_type) in
        if assignable req.args_type method.args_type
        then done (w', record { ok = true; reply = gob.encode replyv })
        else panic

    -- Service.dispatch
    unfoldable pub dispatch_method : Bytes → ReqMsg N T → Service W T V → W → Outcome (W × ReplyMsg)
    unfolding call_method
    dispatch_method methname req svc w = call_method (lookup methname svc.methods) req w

    -- An unknown service ends the process.
    unfoldable pub dispatch_to :
        Option (Service W T V)
        → Bytes
        → ReqMsg N T
        → Server W T V
        → W
        → Outcome (Server W T V × W × ReplyMsg)
    unfolding dispatch_method
    dispatch_to none method_name req rs w = panic
    dispatch_to (some service) method_name req rs w = do
      (w', reply) ← dispatch_method method_name req service w
      done (rs, w', reply)

    -- Server.dispatch
    unfoldable pub dispatch : ReqMsg N T → Server W T V → W → Outcome (Server W T V × W × ReplyMsg)
    unfolding dispatch_to
    dispatch req rs w = do
      (service_name, method_name) ← split_method req.svc_meth
      dispatch_to (lookup service_name rs.services) method_name req
          (record rs { count = rs.count + 1 }) w
