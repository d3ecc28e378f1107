-- ===== src/Kv/Retries.antt =====
-- kvraft/client.go: the loop that tries the servers one after the other.
use distribution_system.Prelude.{
  ℕ, ◌≡◌, refl, Bool, Option, none, some, List, [], ◌∷◌, ◌+◌, ◌%◌, suc, zero, if◌then◌else◌,
  Bool-cases, inl, inr, ◌<◌, true, ltb, arith, Outcome, done,
}
use native.Mathlib.Nat.{mod-lt}
use distribution_system.Kv.Clerk.{Clerk, Call, call, next_leader, after_call, retry}

-- The calls of one request: the same arguments to one server after the other, from `leader_id` on.
unfoldable pub round_robin : {A : Type 0} → A → ℕ → ℕ → ℕ → List (Call A)
round_robin args servers zero leader_id = []
round_robin args servers (suc n) leader_id =
    call leader_id args ∷ round_robin args servers n ((leader_id + 1) % servers)

-- The first answer that comes from a leader, and the number of calls up to it.
unfoldable pub first_success : {R : Type 0} → (R → Bool) → List (Option R) → ℕ × Option R
first_success wrong_leader [] = (0, none)
first_success wrong_leader (none ∷ answers) =
    let (n, reply) = first_success wrong_leader answers in (suc n, reply)
first_success wrong_leader (some reply ∷ answers) =
    let rest = first_success wrong_leader answers in
    if wrong_leader reply then (suc rest.0, rest.1) else (1, some reply)

-- The number of the last request that a leader has confirmed.
abbrev pub confirmed : {R : Type 0} → ℕ → ℕ → Option R → ℕ
confirmed request_id last_request_id none = last_request_id
confirmed request_id last_request_id (some reply) = request_id

-- The clerk has a server with the number of its leader, as MakeClerk leaves it for one server at least.
abbrev pub HasLeader : Clerk → Type 0
HasLeader ck = ck.leader_id < ck.servers

next_leader-HasLeader : (ck : Clerk) → HasLeader ck → HasLeader (next_leader ck)
unfolding next_leader
next_leader-HasLeader ck has =
    mod-lt (ck.leader_id + 1) (let positive : 0 < ck.servers = omega arith in positive)

-- A clerk behind the loop of a request with some outcome.
pub record Behind {R : Type 0} (request_id : ℕ) (reply : Option R) (ck ck' : Clerk) : Type 0 where
  pub last_request_id : ck'.last_request_id ≡ confirmed request_id ck.last_request_id reply
  pub client_id : ck'.client_id ≡ ck.client_id
  pub servers : ck'.servers ≡ ck.servers
  pub has_leader : HasLeader ck'

of_next :
    {R : Type 0} (request_id : ℕ) (reply : Option R) (ck ck' : Clerk)
    → Behind request_id reply (next_leader ck) ck'
    → Behind request_id reply ck ck'
unfolding next_leader
of_next request_id reply ck ck' b = record {
  last_request_id = b.last_request_id;
  client_id = b.client_id;
  servers = b.servers;
  has_leader = b.has_leader;
}

module _ {A R : Type 0} (wrong_leader : R → Bool) where
  go_on :
      (args : A) (request_id : ℕ) (ck ck' : Clerk) (n : ℕ) (reply : Option R)
      (rest : Outcome (List (Call A) × Clerk × Option R))
      → rest ≡ done (round_robin args ck.servers n ((ck.leader_id + 1) % ck.servers), ck', reply)
      → after_call (call ck.leader_id args) rest
        ≡ done (round_robin args ck.servers (suc n) ck.leader_id, ck', reply)
  unfolding round_robin after_call
  go_on args request_id ck ck' n reply rest h = rw h refl

  -- A clerk whose leader is one of its servers sends the same request to one server after the
  -- other, gives back the first answer of a leader, makes no call after it, and counts the
  -- request only then. It does not panic, and its leader is one of the same servers again.
  pub tries_in_turn :
      (args : A) (request_id : ℕ) (answers : List (Option R)) (ck : Clerk)
      → HasLeader ck
      → (ck' : Clerk) × (retry wrong_leader args request_id answers ck
          ≡ done (
            round_robin args ck.servers (first_success wrong_leader answers).0 ck.leader_id,
            ck',
            (first_success wrong_leader answers).1,
          ))
        × Behind request_id (first_success wrong_leader answers).1 ck ck'
  unfolding retry next_leader round_robin first_success
  tries_in_turn args request_id [] ck has = (
    ck,
    refl,
    record { last_request_id = refl; client_id = refl; servers = refl; has_leader = has },
  )
  tries_in_turn args request_id (none ∷ answers) ck has =
      let (ck', e, b) =
        tries_in_turn args request_id answers (next_leader ck) (next_leader-HasLeader ck has) in
      let in_range : ltb ck.leader_id ck.servers ≡ true = ground arith in
      (
        ck',
        rw in_range (go_on args request_id ck ck' _ _ _ e),
        of_next request_id (first_success wrong_leader answers).1 ck ck' b,
      )
  tries_in_turn args request_id (some reply ∷ answers) ck has =
      let (ck', e, b) =
        tries_in_turn args request_id answers (next_leader ck) (next_leader-HasLeader ck has) in
      let in_range : ltb ck.leader_id ck.servers ≡ true = ground arith in
      elim (Bool-cases (wrong_leader reply)) [
        | inl w ↦ (
          ck',
          rw (in_range, w) (go_on args request_id ck ck' _ _ _ e),
          rw w (of_next request_id (first_success wrong_leader answers).1 ck ck' b),
        )
        | inr w ↦ (
          record ck { last_request_id = request_id },
          rw (in_range, w) refl,
          rw w (record {
            last_request_id = refl;
            client_id = refl;
            servers = refl;
            has_leader = has;
          }),
        )
      ]
