-- ===== src/Kv/ExactlyOnce.antt =====
-- kvraft/server.go: retried requests take effect once.
use Prim.Native.String.{String}
use distribution_system.Prelude.{
  ℕ, ◌≡◌, refl, Bool, true, false, ◌&&◌, ◌||◌, none, some, List, [], ◌∷◌, leb, ◌==◌, ==_iff,
  if◌then◌else◌, Bool-cases, ◌⊎◌, inl, inr, arith, done, Option, ap, ◌∙◌, sym,
}
use distribution_system.Prelude.Dict.{Dict, lookup, insert, lookup-insert, nat_eq}
use distribution_system.Raft.Types.{ApplyMsg, apply_command}
use distribution_system.Kv.Types.{Op, KvServer}
use distribution_system.Kv.Server.{
  KvGob, is_duplicate_request, write, apply_op, notify, Applied, applied, blocked, apply_message,
  serve, install_snapshot, start_kv_server,
}

-- Some operation of the history is of this client, and its number is not below this one.
unfoldable pub superseded : ℕ → ℕ → List Op → Bool
superseded client_id request_id [] = false
superseded client_id request_id (op ∷ earlier) =
    (op.client_id == client_id) && leb request_id op.request_id
    || superseded client_id request_id earlier

-- The database that a history, the latest operation first, stands for: an operation counts if none
-- before it supersedes it.
unfoldable pub effects : List Op → Dict String String
unfolding superseded
effects [] = []
effects (op ∷ earlier) =
    let db = effects earlier in
    if superseded op.client_id op.request_id earlier then db else write op db

-- The server has the state of the history.
record Holds (history : List Op) (kv : KvServer) : Type 0 where
  db_eq : kv.db ≡ effects history
  duplicates_eq :
      (client_id request_id : ℕ)
      → is_duplicate_request client_id request_id kv ≡ superseded client_id request_id history

-- What a duplicate leaves, and what a new request records.
duplicate_covers :
    (op : Op) (c r : ℕ) (kv : KvServer)
    → is_duplicate_request op.client_id op.request_id kv ≡ true
    → is_duplicate_request c r kv
      ≡ ((op.client_id == c) && leb r op.request_id || is_duplicate_request c r kv)
unfolding is_duplicate_request
duplicate_covers op c r kv h = ground (arith, ==_iff op.client_id c)

new_covers :
    (op : Op) (c r : ℕ) (kv kv' : KvServer)
    → is_duplicate_request op.client_id op.request_id kv ≡ false
    → kv'.last_applied_request_id ≡ insert op.client_id op.request_id kv.last_applied_request_id
    → is_duplicate_request c r kv'
      ≡ ((op.client_id == c) && leb r op.request_id || is_duplicate_request c r kv)
unfolding is_duplicate_request
new_covers op c r kv kv' h e =
    let l : lookup c kv'.last_applied_request_id
        ≡ (if op.client_id == c then some op.request_id else lookup c kv.last_applied_request_id) =
      rw e (lookup-insert op.client_id c op.request_id kv.last_applied_request_id) in
    ground (arith, ==_iff op.client_id c)

-- What a notification leaves alone.
notify_keeps :
    (index : ℕ) (op : Op) (kv : KvServer) {kv' : KvServer}
    → notify index op kv ≡ applied kv'
    → (kv'.db ≡ kv.db) × (kv'.last_applied_request_id ≡ kv.last_applied_request_id)
unfolding notify
notify_keeps index op kv h = ground arith

-- The two branches of applying an operation.
pub apply_op-duplicate :
    (index : ℕ) (op : Op) (kv : KvServer)
    → is_duplicate_request op.client_id op.request_id kv ≡ true
    → apply_op index op kv ≡ applied kv
unfolding apply_op
apply_op-duplicate index op kv d = ground arith

pub apply_op-new :
    (index : ℕ) (op : Op) (kv : KvServer) {kv' : KvServer}
    → is_duplicate_request op.client_id op.request_id kv ≡ false
    → apply_op index op kv ≡ applied kv'
    → (kv'.db ≡ write op kv.db)
      × (kv'.last_applied_request_id ≡ insert op.client_id op.request_id kv.last_applied_request_id)
unfolding apply_op
apply_op-new index op kv {kv'} d h =
    let k =
      notify_keeps index op
        (record kv {
          db = write op kv.db;
          last_applied_request_id = insert op.client_id op.request_id kv.last_applied_request_id;
          applied_raft_log_index = index;
        })
        {kv' = kv'} in
    ground arith

apply_op-Holds :
    (index : ℕ) (op : Op) (kv kv' : KvServer) (history : List Op)
    → apply_op index op kv ≡ applied kv'
    → Holds history kv
    → Holds (op ∷ history) kv'
unfolding superseded effects
apply_op-Holds index op kv kv' history h holds =
    elim (Bool-cases (is_duplicate_request op.client_id op.request_id kv)) [
      | inl d ↦
          let e : kv ≡ kv' = ground (arith, apply_op-duplicate index op kv) in
          let q : superseded op.client_id op.request_id history ≡ true =
            sym (holds.duplicates_eq op.client_id op.request_id) ∙ d in
          record {
            db_eq = rw (sym e, q) holds.db_eq;
            duplicates_eq =
                λ c r. rw (sym e, sym (holds.duplicates_eq c r)) (duplicate_covers op c r kv d);
          }
      | inr d ↦
          let n = apply_op-new index op kv d h in
          let q : superseded op.client_id op.request_id history ≡ false =
            sym (holds.duplicates_eq op.client_id op.request_id) ∙ d in
          record {
            db_eq = rw (q) (n.0 ∙ ap (write op) holds.db_eq);
            duplicates_eq =
                λ c r. rw (sym (holds.duplicates_eq c r)) (new_covers op c r kv kv' d n.1);
          }
    ]

-- A request that has been applied stays a duplicate.
pub apply_op-covers :
    (index : ℕ) (op : Op) (kv kv' : KvServer) (c r : ℕ)
    → apply_op index op kv ≡ applied kv'
    → is_duplicate_request c r kv'
      ≡ ((op.client_id == c) && leb r op.request_id || is_duplicate_request c r kv)
apply_op-covers index op kv kv' c r h =
    elim (Bool-cases (is_duplicate_request op.client_id op.request_id kv)) [
      | inl d ↦
          let e : kv ≡ kv' = ground (arith, apply_op-duplicate index op kv) in
          rw (sym e) (duplicate_covers op c r kv d)
      | inr d ↦ let n = apply_op-new index op kv d h in new_covers op c r kv kv' d n.1
    ]

Applied-cases : (a : Applied) → ((kv : KvServer) × (a ≡ applied kv)) ⊎ (a ≡ blocked)
Applied-cases (applied kv) = inl (kv, refl)
Applied-cases blocked = inr refl

-- The messages for the commands at these indexes of the log.
unfoldable pub commands : List (ℕ × Op) → List (ApplyMsg Op)
commands [] = []
commands ((index, op) ∷ log) = apply_command (some op) index ∷ commands log

-- The operations in front of a history, the latest first.
unfoldable pub history_of : List (ℕ × Op) → List Op → List Op
history_of [] history = history
history_of ((index, op) ∷ log) history = history_of log (op ∷ history)

module _ (gob : KvGob) where
  pub serve-command :
      (index : ℕ) (op : Op) (msgs : List (ApplyMsg Op)) (kv : KvServer) {kv' : KvServer}
      → serve gob (apply_command (some op) index ∷ msgs) kv ≡ done (applied kv')
      → (kv1 : KvServer) × (apply_op index op kv ≡ applied kv1)
        × (serve gob msgs kv1 ≡ done (applied kv'))
  unfolding serve apply_message
  serve-command index op msgs kv {kv'} h = elim (Applied-cases (apply_op index op kv)) [
    | inl (kv1, e) ↦ (kv1, e, ground arith)
    | inr e ↦ absurd (ground arith)
  ]

  unwatched :
      (index : ℕ) (op : Op) (kv : KvServer)
      → kv.dispatcher ≡ []
      → (kv' : KvServer) × (apply_op index op kv ≡ applied kv') × (kv'.dispatcher ≡ [])
  unfolding apply_op notify lookup
  unwatched index op kv h = elim (Bool-cases (is_duplicate_request op.client_id op.request_id kv)) [
    | inl d ↦ (kv, rw d refl, h)
    | inr d ↦ (
      record kv {
        db = write op kv.db;
        last_applied_request_id = insert op.client_id op.request_id kv.last_applied_request_id;
        applied_raft_log_index = index;
      },
      rw (d, h) refl,
      h,
    )
  ]

  serve-Holds :
      (log : List (ℕ × Op)) (history : List Op) (kv : KvServer)
      → kv.dispatcher ≡ []
      → Holds history kv
      → (kv' : KvServer) × (serve gob (commands log) kv ≡ done (applied kv'))
        × Holds (history_of log history) kv'
  unfolding commands history_of serve apply_message
  serve-Holds [] history kv e holds = (kv, refl, holds)
  serve-Holds ((index, op) ∷ log) history kv e holds =
      let (kv1, a, e1) = unwatched index op kv e in
      let (kv', r, holds') =
        serve-Holds log (op ∷ history) kv1 e1 (apply_op-Holds index op kv kv1 history a holds) in
      (kv', rw a r, holds')

  start_Holds : (maxraftstate : Option ℕ) → Holds [] (start_kv_server gob maxraftstate none)
  unfolding start_kv_server install_snapshot effects superseded is_duplicate_request lookup
  start_Holds maxraftstate = record { db_eq = refl; duplicates_eq = λ c r. refl }

  -- A server that starts without a snapshot serves every log of commands to its end, and has the
  -- database of the history then, in which a request counts unless an earlier one of its client
  -- has its number or a higher one.
  pub exactly_once :
      (maxraftstate : Option ℕ) (log : List (ℕ × Op))
      → (kv : KvServer) × (serve gob (commands log) (start_kv_server gob maxraftstate none)
          ≡ done (applied kv))
        × (kv.db ≡ effects (history_of log []))
  unfolding start_kv_server install_snapshot
  exactly_once maxraftstate log =
      let (kv, r, holds) =
        serve-Holds log [] (start_kv_server gob maxraftstate none) refl
          (start_Holds maxraftstate) in
      (kv, r, holds.db_eq)
