-- ===== src/Kv/Channels.antt =====
-- kvraft/server.go: what each critical section does to the dispatcher and its channels.
use distribution_system.Prelude.{
  ℕ, ◌≡◌, refl, sym, ◌∙◌, ap, ==_iff, Bool, Bool-cases, Option-cases, ◌⊎◌, inl, inr, Option, none,
  some, List, arith, length, get_elem?, set,
}
use distribution_system.Prelude.Dict.{lookup, insert, lookup-insert, nat_eq, eq_refl}
use distribution_system.Kv.Types.{Op, KvServer, Notification}
use distribution_system.Kv.Server.{
  KvGob, is_duplicate_request, write, apply_op, applied, notify, send_to, notification,
  install_snapshot,
}
use distribution_system.Kv.Waiting.{register, receive}
use distribution_system.Kv.Notices.{register_fresh}
use distribution_system.Kv.Waits.{register_known}

-- What a notice does to the channels: at most the channel of its index gets it.
notify-channels :
    (j : ℕ) (op : Op) (kv kv' : KvServer)
    → notify j op kv ≡ applied kv'
    → (kv'.dispatcher ≡ kv.dispatcher)
      × ((kv'.channels ≡ kv.channels)
          ⊎ ((k : ℕ) × (lookup j kv.dispatcher ≡ some k)
              × (kv'.channels ≡ set kv.channels k (some (notification op)))))
unfolding notify
notify-channels j op kv kv' h = elim (Option-cases (lookup j kv.dispatcher)) [
  | inl e ↦
      let now : notify j op kv ≡ applied kv = rw (notify, e) refl in
      let q = applied_injective kv kv' (sym now ∙ h) in
      (sym (ap (λ x. x.dispatcher) q), inl (sym (ap (λ x. x.channels) q)))
  | inr (k, e) ↦
      let now : notify j op kv ≡ send_to k (notification op) (get_elem? kv.channels k) kv =
        rw (notify, e) refl in
      let (d, c) = sent k (notification op) (get_elem? kv.channels k) kv kv' (sym now ∙ h) in
      (d, inr (k, e, c))
]
  where
    applied_injective : (a b : KvServer) → applied a ≡ applied b → a ≡ b
    applied_injective a b h = cc

    sent :
        (k : ℕ) (n : Notification) (cell : Option (Option Notification)) (kv kv' : KvServer)
        → send_to k n cell kv ≡ applied kv'
        → (kv'.dispatcher ≡ kv.dispatcher) × (kv'.channels ≡ set kv.channels k (some n))
    sent k n none kv kv' h = absurd (cc)
    sent k n (some (some x)) kv kv' h = absurd (cc)
    sent k n (some none) kv kv' h =
        let q = applied_injective (record kv { channels = set kv.channels k (some n) }) kv' h in
        (sym (ap (λ x. x.dispatcher) q), sym (ap (λ x. x.channels) q))

pub apply_op-channels :
    (j : ℕ) (op : Op) (kv kv' : KvServer)
    → apply_op j op kv ≡ applied kv'
    → (kv'.dispatcher ≡ kv.dispatcher)
      × ((kv'.channels ≡ kv.channels)
          ⊎ ((k : ℕ) × (lookup j kv.dispatcher ≡ some k)
              × (kv'.channels ≡ set kv.channels k (some (notification op)))))
unfolding apply_op
apply_op-channels j op kv kv' h =
    elim (Bool-cases (is_duplicate_request op.client_id op.request_id kv)) [
      | inl d ↦
          let now : apply_op j op kv ≡ applied kv = rw (apply_op, d) refl in
          let q = applied_injective kv kv' (sym now ∙ h) in
          (sym (ap (λ x. x.dispatcher) q), inl (sym (ap (λ x. x.channels) q)))
      | inr d ↦
          let kv1 : KvServer = record kv {
            db = write op kv.db;
            last_applied_request_id = insert op.client_id op.request_id kv.last_applied_request_id;
            applied_raft_log_index = j;
          } in
          let now : apply_op j op kv ≡ notify j op kv1 = rw (apply_op, d) refl in
          notify-channels j op kv1 kv' (sym now ∙ h)
    ]
  where
    applied_injective : (a b : KvServer) → applied a ≡ applied b → a ≡ b
    applied_injective a b h = cc

pub install_snapshot-channels :
    (gob : KvGob) (snapshot : Option (List ℕ)) (kv : KvServer)
    → ((install_snapshot gob snapshot kv).dispatcher ≡ kv.dispatcher)
      × ((install_snapshot gob snapshot kv).channels ≡ kv.channels)
unfolding install_snapshot
install_snapshot-channels gob snapshot kv = (ground arith, ground arith)

pub receive-channels :
    (ch : ℕ) (op : Op) (kv kv' : KvServer) (wrong_leader : Bool)
    → receive op ch kv ≡ some (kv', wrong_leader)
    → (kv'.dispatcher ≡ kv.dispatcher) × (kv'.channels ≡ set kv.channels ch none)
unfolding receive
receive-channels ch op kv kv' wrong_leader h = (ground arith, ground arith)

-- The channel that the handlers at the index wait on.
pub register-waits :
    (index : ℕ) (kv : KvServer)
    → lookup index (register index kv).0.dispatcher ≡ some (register index kv).1
register-waits index kv = elim (Option-cases (lookup index kv.dispatcher)) [
  | inr (ch, e) ↦ rw (register_known index ch kv e) e
  | inl e ↦
      rw (register_fresh index kv e)
        (lookup-insert index index (length kv.channels) kv.dispatcher ∙ rw (eq_refl index) refl)
]

-- A handler at any index leaves the channels that the dispatcher has.
pub register-keeps :
    (j index ch : ℕ) (kv : KvServer)
    → lookup index kv.dispatcher ≡ some ch
    → lookup index (register j kv).0.dispatcher ≡ some ch
register-keeps j index ch kv h = elim (Option-cases (lookup j kv.dispatcher)) [
  | inr (k, e) ↦ rw (register_known j k kv e) h
  | inl e ↦ rw (register_fresh j kv e) (
      let l = lookup-insert j index (length kv.channels) kv.dispatcher in
      ground (arith, l, ==_iff j index))
]
