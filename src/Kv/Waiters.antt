-- ===== src/Kv/Waiters.antt =====
-- kvraft/server.go: what a waiting handler learns, whatever the other handlers do meanwhile.
use distribution_system.Prelude.{
  ℕ, ◌≤◌, ◌<◌, ◌≡◌, ◌≢◌, refl, sym, ◌∙◌, ap, ◌==◌, ==_iff, false, not, ◌||◌, Option-cases, inl, inr,
  Option, none, some, List, [], ◌∷◌, arith, length, get_elem?, set, get_elem?-set_self,
  get_elem?-set_ne, get_elem?-append_left, lt_of_get_elem?,
}
use distribution_system.Prelude.Dict.{lookup, insert, lookup-insert, lookup-delete, nat_eq}
use distribution_system.Kv.Types.{Op, KvServer, Notification}
use distribution_system.Kv.Server.{
  KvGob, is_duplicate_request, write, apply_op, applied, notification, start_kv_server,
}
use distribution_system.Kv.Waiting.{register, receive, clean_up}
use distribution_system.Kv.Notices.{is_other, register_fresh, notify_sends}
use distribution_system.Kv.Waits.{
  Section, registered, received, cleaned, commanded, installed, Sections, none_yet, followed_by,
  IsReady, register_known, register-IsReady, Sections-IsReady, start_kv_server-IsReady,
}
use distribution_system.Kv.Channels.{
  apply_op-channels, install_snapshot-channels, receive-channels, register-waits, register-keeps,
}

module _ (gob : KvGob) where
  -- The section does not remove the channel of the index.
  abbrev pub KeepsWaiter : ℕ → {s t : ℕ × KvServer} → Section gob s t → Type 0
  KeepsWaiter index (registered n j kv) = Unit
  KeepsWaiter index (received n ch op kv kv' wrong_leader h) = Unit
  KeepsWaiter index (cleaned n j kv) = j ≢ index
  KeepsWaiter index (commanded n j op kv kv' lt h) = Unit
  KeepsWaiter index (installed n snapshot kv) = Unit

  -- The section does not take a notice from the channel.
  abbrev pub KeepsNotice : ℕ → {s t : ℕ × KvServer} → Section gob s t → Type 0
  KeepsNotice ch (registered n j kv) = Unit
  KeepsNotice ch (received n k op kv kv' wrong_leader h) = k ≢ ch
  KeepsNotice ch (cleaned n j kv) = Unit
  KeepsNotice ch (commanded n j op kv kv' lt h) = Unit
  KeepsNotice ch (installed n snapshot kv) = Unit

  abbrev pub KeepWaiter : ℕ → {s t : ℕ × KvServer} → Sections gob s t → Type 0
  KeepWaiter index none_yet = Unit
  KeepWaiter index (followed_by run step) = KeepWaiter index run × KeepsWaiter index step

  abbrev pub KeepNotice : ℕ → {s t : ℕ × KvServer} → Sections gob s t → Type 0
  KeepNotice ch none_yet = Unit
  KeepNotice ch (followed_by run step) = KeepNotice ch run × KeepsNotice ch step

  Section-waits :
      (index ch : ℕ) {s t : ℕ × KvServer} (step : Section gob s t)
      → KeepsWaiter index step
      → lookup index s.1.dispatcher ≡ some ch
      → lookup index t.1.dispatcher ≡ some ch
  unfolding clean_up
  Section-waits index ch (registered n j kv) keeps h = register-keeps j index ch kv h
  Section-waits index ch (received n k op kv kv' wrong_leader r) keeps h =
      rw (receive-channels k op kv kv' wrong_leader r).0 h
  Section-waits index ch (cleaned n j kv) keeps h =
      let l = lookup-delete j index kv.dispatcher in ground (arith, l, ==_iff j index)
  Section-waits index ch (commanded n j op kv kv' lt a) keeps h =
      rw (apply_op-channels j op kv kv' a).0 h
  Section-waits index ch (installed n snapshot kv) keeps h =
      rw (install_snapshot-channels gob snapshot kv).0 h

  Sections-wait :
      (index ch : ℕ) {s t : ℕ × KvServer} (run : Sections gob s t)
      → KeepWaiter index run
      → lookup index s.1.dispatcher ≡ some ch
      → lookup index t.1.dispatcher ≡ some ch
  Sections-wait index ch none_yet keeps h = h
  Sections-wait index ch (followed_by run step) keeps h =
      Section-waits index ch step keeps.1 (Sections-wait index ch run keeps.0 h)

  -- The notice is on the channel, and no later command will use the channel.
  record HasNotice (index ch : ℕ) (notice : Notification) (n : ℕ) (kv : KvServer) : Type 0 where
    filled : get_elem? kv.channels ch ≡ some (some notice)
    only : (i : ℕ) → lookup i kv.dispatcher ≡ some ch → i ≡ index
    past : index ≤ n

  Section-HasNotice :
      (index ch : ℕ) (notice : Notification) {s t : ℕ × KvServer} (step : Section gob s t)
      → KeepsNotice ch step
      → HasNotice index ch notice s.0 s.1
      → HasNotice index ch notice t.0 t.1
  unfolding clean_up
  Section-HasNotice index ch notice (registered n j kv) keeps has =
      elim (Option-cases (lookup j kv.dispatcher)) [
        | inr (k, e) ↦ rw (register_known j k kv e) has
        | inl e ↦
            let lt = lt_of_get_elem? kv.channels ch has.filled in
            rw (register_fresh j kv e) (record {
              filled = get_elem?-append_left kv.channels (none ∷ []) ch lt ∙ has.filled;
              only = λ i q.
                  let l = lookup-insert j i (length kv.channels) kv.dispatcher in
                  ground (arith, l, has.only i);
              past = has.past;
            })
      ]
  Section-HasNotice index ch notice (received n k op kv kv' wrong_leader r) keeps has =
      let (d, c) = receive-channels k op kv kv' wrong_leader r in
      record {
        filled = rw c (get_elem?-set_ne kv.channels none keeps ∙ has.filled);
        only = λ i q. has.only i (ap (lookup i) (sym d) ∙ q);
        past = has.past;
      }
  Section-HasNotice index ch notice (cleaned n j kv) keeps has = record {
    filled = has.filled;
    only = λ i q. let l = lookup-delete j i kv.dispatcher in ground (arith, l, has.only i);
    past = has.past;
  }
  Section-HasNotice index ch notice (commanded n j op kv kv' lt a) keeps has =
      let (d, c) = apply_op-channels j op kv kv' a in
      record {
        filled = elim c [
          | inl same ↦ ap (λ x. get_elem? x ch) same ∙ has.filled
          | inr (k, l, changed) ↦
              ap (λ x. get_elem? x ch) changed
              ∙ get_elem?-set_ne kv.channels (some (notification op)) (λ q.
                let e = has.only j (l ∙ ap some q) in let p = has.past in absurd (omega arith))
              ∙ has.filled
        ];
        only = λ i q. has.only i (ap (lookup i) (sym d) ∙ q);
        past = let p = has.past in omega arith;
      }
  Section-HasNotice index ch notice (installed n snapshot kv) keeps has =
      let (d, c) = install_snapshot-channels gob snapshot kv in
      record {
        filled = ap (λ x. get_elem? x ch) c ∙ has.filled;
        only = λ i q. has.only i (ap (lookup i) (sym d) ∙ q);
        past = has.past;
      }

  Sections-HaveNotice :
      (index ch : ℕ) (notice : Notification) {s t : ℕ × KvServer} (run : Sections gob s t)
      → KeepNotice ch run
      → HasNotice index ch notice s.0 s.1
      → HasNotice index ch notice t.0 t.1
  Sections-HaveNotice index ch notice none_yet keeps has = has
  Sections-HaveNotice index ch notice (followed_by run step) keeps has =
      Section-HasNotice index ch notice step keeps.1
        (Sections-HaveNotice index ch notice run keeps.0 has)

  -- A new operation that is applied at an index with an empty channel leaves its notice there.
  apply_op-HasNotice :
      (index ch m : ℕ) (winner : Op) (kv kv' : KvServer)
      → IsReady m kv
      → m < index
      → lookup index kv.dispatcher ≡ some ch
      → is_duplicate_request winner.client_id winner.request_id kv ≡ false
      → apply_op index winner kv ≡ applied kv'
      → (kv'.db ≡ write winner kv.db) × HasNotice index ch (notification winner) index kv'
  unfolding apply_op
  apply_op-HasNotice index ch m winner kv kv' ready lt l new h =
      let g = ready.empty index ch l lt in
      let kv1 : KvServer = record kv {
        db = write winner kv.db;
        last_applied_request_id =
            insert winner.client_id winner.request_id kv.last_applied_request_id;
        applied_raft_log_index = index;
      } in
      let now : apply_op index winner kv
          ≡ applied (record kv1 { channels = set kv.channels ch (some (notification winner)) }) =
        rw (apply_op, new) (notify_sends index ch winner kv1 l g) in
      let q =
        applied_injective
          (record kv1 { channels = set kv.channels ch (some (notification winner)) }) kv'
          (sym now ∙ h) in
      (
        sym (ap (λ x. x.db) q),
        record {
          filled =
              ap (λ x. get_elem? x.channels ch) (sym q)
              ∙ get_elem?-set_self kv.channels ch (some (notification winner))
                  (lt_of_get_elem? kv.channels ch g);
          only = λ i e. ready.distinct i index ch (ap (λ x. lookup i x.dispatcher) q ∙ e) l;
          past = omega arith;
        },
      )
    where
      applied_injective : (a b : KvServer) → applied a ≡ applied b → a ≡ b
      applied_injective a b h = cc

  receive-HasNotice :
      (index ch n : ℕ) (op winner : Op) (kv : KvServer)
      → HasNotice index ch (notification winner) n kv
      → (kv' : KvServer) × (receive op ch kv ≡ some (kv', is_other op winner))
  unfolding receive is_other
  receive-HasNotice index ch n op winner kv has =
      let b : (not (winner.client_id == op.client_id) || not (winner.request_id == op.request_id))
          ≡ is_other op winner =
        ground arith in
      (record kv { channels = set kv.channels ch none }, rw (receive, has.filled, b) refl)

  -- A handler registers at an index behind all commands applied since the start. Meanwhile any sections run,
  -- but none removes the channel of the index, and no command comes at the index or behind it. Then
  -- a new operation is applied at the index: it is in the database. Again any sections run, but
  -- none takes a notice from that channel. Then the handler receives a notice, and takes the
  -- leader for wrong exactly if the applied operation is not its own.
  pub waiter_learns :
      (maxraftstate : Option ℕ) (snapshot : Option (List ℕ)) (n m last index : ℕ) (op winner : Op)
      (kv kv1 kv2 kv3 : KvServer)
      → Sections gob (0, start_kv_server gob maxraftstate snapshot) (n, kv)
      → (before : Sections gob (n, (register index kv).0) (m, kv1)) → KeepWaiter index before
      → m < index
      → is_duplicate_request winner.client_id winner.request_id kv1 ≡ false
      → apply_op index winner kv1 ≡ applied kv2
      → (behind : Sections gob (index, kv2) (last, kv3)) → KeepNotice (register index kv).1 behind
      → (kv2.db ≡ write winner kv1.db)
        × (kv4 : KvServer) × (receive op (register index kv).1 kv3 ≡ some (kv4, is_other op winner))
  waiter_learns maxraftstate snapshot n m last index op winner kv kv1 kv2 kv3 run before waits lt
        new applies behind keeps =
      let ready0 = Sections-IsReady gob run (start_kv_server-IsReady gob maxraftstate snapshot) in
      let ready = Sections-IsReady gob before (register-IsReady n index kv ready0) in
      let l = Sections-wait index (register index kv).1 before waits (register-waits index kv) in
      let (written, has) =
        apply_op-HasNotice index (register index kv).1 m winner kv1 kv2 ready lt l new applies in
      let has' =
        Sections-HaveNotice index (register index kv).1 (notification winner) behind keeps has in
      let (kv4, r) = receive-HasNotice index (register index kv).1 last op winner kv3 has' in
      (written, kv4, r)
