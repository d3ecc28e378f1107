-- ===== src/Kv/Clerk.antt =====
-- kvraft/client.go. The answers of the network to successive calls are a list, `none` for no answer;
-- the loop ends with the list if none of them is a success.
use Prim.Native.String.{String}
use distribution_system.Prelude.{
  ℕ, ◌+◌, ◌%◌, Bool, Option, none, some, List, [], ◌∷◌, if◌then◌else◌, ltb, not, Outcome, done,
  panic, ◌>>=◌,
}
use distribution_system.Kv.Types.{GetArgs, GetReply, PutAppendArgs, PutAppendReply}

pub record Clerk : Type 0 where
  pub servers : ℕ
  pub leader_id : ℕ
  pub client_id : ℕ
  pub last_request_id : ℕ

unfoldable pub make_clerk : ℕ → ℕ → Clerk
make_clerk servers client_id = record {
  servers = servers;
  leader_id = 0;
  client_id = client_id;
  last_request_id = 0;
}

unfoldable pub next_leader : Clerk → Clerk
next_leader ck = record ck { leader_id = (ck.leader_id + 1) % ck.servers }

-- A call: the server that is asked, and the arguments.
pub data Call (A : Type 0) : Type 0 where
  call : ℕ → A → Call A

-- A call, and then the calls of the rounds behind it.
unfoldable pub after_call :
    {A R : Type 0}
    → Call A
    → Outcome (List (Call A) × Clerk × Option R)
    → Outcome (List (Call A) × Clerk × Option R)
after_call c panic = panic
after_call c (done (calls, ck, reply)) = done (c ∷ calls, ck, reply)

-- The loop of Get and of PutAppend: the calls made, the clerk behind the loop, and the answer. A round
-- panics if no server has the number of the leader.
module _ {A R : Type 0} (wrong_leader : R → Bool) where
  unfoldable pub retry :
      A → ℕ → List (Option R) → Clerk → Outcome (List (Call A) × Clerk × Option R)
  unfolding next_leader after_call
  retry args request_id [] ck = done ([], ck, none)
  retry args request_id (none ∷ answers) ck =
      let rest = retry args request_id answers (next_leader ck) in
      if ltb ck.leader_id ck.servers then after_call (call ck.leader_id args) rest else panic
  retry args request_id (some reply ∷ answers) ck =
      let rest = retry args request_id answers (next_leader ck) in
      if not (ltb ck.leader_id ck.servers)
      then panic
      else if wrong_leader reply
      then after_call (call ck.leader_id args) rest
      else done
          (call ck.leader_id args ∷ [], record ck { last_request_id = request_id }, some reply)

unfoldable pub get_args : String → Clerk → GetArgs
get_args key ck = record {
  key = key;
  client_id = ck.client_id;
  request_id = ck.last_request_id + 1;
}

unfoldable pub get :
    String → List (Option GetReply) → Clerk → Outcome (List (Call GetArgs) × Clerk × Option String)
unfolding retry get_args
get key answers ck = do
  (calls, ck', reply) ←
      retry (λ r. r.wrong_leader) (get_args key ck) (ck.last_request_id + 1) answers ck
  done (calls, ck', elim reply [ none ↦ none | some r ↦ some r.value ])

unfoldable pub put_append_args : String → String → String → Clerk → PutAppendArgs
put_append_args key value op ck = record {
  key = key;
  value = value;
  op = op;
  client_id = ck.client_id;
  request_id = ck.last_request_id + 1;
}

unfoldable pub put_append :
    String
    → String
    → String
    → List (Option PutAppendReply)
    → Clerk
    → Outcome (List (Call PutAppendArgs) × Clerk × Option PutAppendReply)
unfolding retry put_append_args
put_append key value op answers ck =
    retry (λ r. r.wrong_leader) (put_append_args key value op ck) (ck.last_request_id + 1) answers
      ck

unfoldable pub put :
    String
    → String
    → List (Option PutAppendReply)
    → Clerk
    → Outcome (List (Call PutAppendArgs) × Clerk × Option PutAppendReply)
unfolding put_append
put key value = put_append key value "Put"

unfoldable pub append :
    String
    → String
    → List (Option PutAppendReply)
    → Clerk
    → Outcome (List (Call PutAppendArgs) × Clerk × Option PutAppendReply)
unfolding put_append
append key value = put_append key value "Append"
