-- ===== src/Kv/Waits.antt =====
-- kvraft/server.go: the dispatcher, under any interleaving of the handlers' critical sections with
-- the messages of Raft.
use distribution_system.Prelude.{
  ℕ, ◌+◌, ◌<◌, ◌≡◌, refl, sym, ◌∙◌, ◌==◌, ==_iff, Bool, Bool-cases, Option-cases, inl, inr, Option,
  none, some, List, [], ◌∷◌, ◌++◌, if◌then◌else◌, arith, length, get_elem?, set, length-append,
  length-set, get_elem?-set_self, get_elem?-set_ne, get_elem?-append_left, lt_of_get_elem?,
}
use distribution_system.Prelude.Dict.{lookup, insert, delete, lookup-insert, lookup-delete, nat_eq}
use distribution_system.Kv.Types.{Op, KvServer, Notification}
use distribution_system.Kv.Server.{
  KvGob, apply_op, applied, notify, notification, is_duplicate_request, write, install_snapshot,
  start_kv_server,
}
use distribution_system.Kv.Waiting.{register, receive, clean_up}
use distribution_system.Kv.Notices.{get_elem?-last, notify_sends, register_fresh}

-- One critical section, or one message of Raft. The first component is the index of the last
-- command; a command comes only at a higher index. The sections that only read are left out.
pub data Section (gob : KvGob) : ℕ × KvServer → ℕ × KvServer → Type 0 where
  registered : (n index : ℕ) (kv : KvServer) → Section gob (n, kv) (n, (register index kv).0)
  received :
      (n ch : ℕ) (op : Op) (kv kv' : KvServer) (wrong_leader : Bool)
      → receive op ch kv ≡ some (kv', wrong_leader)
      → Section gob (n, kv) (n, kv')
  cleaned : (n index : ℕ) (kv : KvServer) → Section gob (n, kv) (n, clean_up index kv)
  commanded :
      (n index : ℕ) (op : Op) (kv kv' : KvServer)
      → n < index
      → apply_op index op kv ≡ applied kv'
      → Section gob (n, kv) (index, kv')
  installed :
      (n : ℕ) (snapshot : Option (List ℕ)) (kv : KvServer)
      → Section gob (n, kv) (n, install_snapshot gob snapshot kv)

pub data Sections (gob : KvGob) (from : ℕ × KvServer) : ℕ × KvServer → Type 0 where
  none_yet : Sections gob from from
  followed_by :
      {mid to : ℕ × KvServer} → Sections gob from mid → Section gob mid to → Sections gob from to

-- Every index has its own channel, which is empty until a command was applied there.
pub record IsReady (n : ℕ) (kv : KvServer) : Type 0 where
  pub bounded : (i ch : ℕ) → lookup i kv.dispatcher ≡ some ch → ch < length kv.channels
  pub distinct :
      (i j ch : ℕ) → lookup i kv.dispatcher ≡ some ch → lookup j kv.dispatcher ≡ some ch → i ≡ j
  pub empty :
      (i ch : ℕ) → lookup i kv.dispatcher ≡ some ch → n < i → get_elem? kv.channels ch ≡ some none

clean_up-IsReady : (n index : ℕ) (kv : KvServer) → IsReady n kv → IsReady n (clean_up index kv)
unfolding clean_up
clean_up-IsReady n index kv ready =
    let old : (i ch : ℕ)
        → lookup i (delete index kv.dispatcher) ≡ some ch
        → lookup i kv.dispatcher ≡ some ch =
      λ i ch h. ground (arith, lookup-delete index i kv.dispatcher) in
    record {
      bounded = λ i ch h. ready.bounded i ch (old i ch h);
      distinct = λ i j ch h k. ready.distinct i j ch (old i ch h) (old j ch k);
      empty = λ i ch h lt. ready.empty i ch (old i ch h) lt;
    }

-- Emptying a channel leaves an empty one empty.
set_empty :
    (chs : List (Option Notification)) (ch k : ℕ)
    → get_elem? chs k ≡ some none
    → get_elem? (set chs ch none) k ≡ some none
set_empty chs ch k h = elim (Bool-cases (ch == k)) [
  | inl e ↦
      let p : ch ≡ k = (==_iff ch k).0 e in
      rw p (get_elem?-set_self chs k none (lt_of_get_elem? chs k h))
  | inr e ↦ get_elem?-set_ne chs none (λ p. absurd (ground (arith, ==_iff ch k))) ∙ h
]

receive-IsReady :
    (n ch : ℕ) (op : Op) (kv kv' : KvServer) (wrong_leader : Bool)
    → receive op ch kv ≡ some (kv', wrong_leader)
    → IsReady n kv
    → IsReady n kv'
unfolding receive
receive-IsReady n ch op kv kv' wrong_leader h ready =
    let d : kv'.dispatcher ≡ kv.dispatcher = ground arith in
    let c : kv'.channels ≡ set kv.channels ch none = ground arith in
    record {
      bounded = λ i k e. rw (c, length-set kv.channels ch none) (ready.bounded i k (rw (sym d) e));
      distinct = λ i j k e f. ready.distinct i j k (rw (sym d) e) (rw (sym d) f);
      empty = λ i k e lt. rw c (set_empty kv.channels ch k (ready.empty i k (rw (sym d) e) lt));
    }

pub register_known :
    (index ch : ℕ) (kv : KvServer)
    → lookup index kv.dispatcher ≡ some ch
    → register index kv ≡ (kv, ch)
unfolding register
register_known index ch kv h = ground arith

pub register-IsReady :
    (n index : ℕ) (kv : KvServer) → IsReady n kv → IsReady n (register index kv).0
register-IsReady n index kv ready = elim (Option-cases (lookup index kv.dispatcher)) [
  | inr (ch, e) ↦ rw (register_known index ch kv e) ready
  | inl e ↦
      let l : (i : ℕ)
          → lookup i (insert index (length kv.channels) kv.dispatcher)
            ≡ (if index == i then some (length kv.channels) else lookup i kv.dispatcher) =
        λ i. lookup-insert index i (length kv.channels) kv.dispatcher in
      let more : length (kv.channels ++ none ∷ []) ≡ length kv.channels + 1 =
        length-append kv.channels (none ∷ []) in
      rw (register_fresh index kv e) (record {
        bounded = λ i ch h. ground (arith, l i, more, ready.bounded i ch);
        distinct = λ i j ch h k. ground (
          arith,
          l i,
          l j,
          ready.bounded i ch,
          ready.bounded j ch,
          ready.distinct i j ch,
          ==_iff index i,
          ==_iff index j,
        );
        empty = λ i ch h lt. ground (
          arith,
          l i,
          ready.empty i ch,
          ready.bounded i ch,
          get_elem?-append_left kv.channels (none ∷ []) ch,
          get_elem?-last kv.channels,
        );
      })
]

later-IsReady : {n m : ℕ} (kv : KvServer) → n < m → IsReady n kv → IsReady m kv
later-IsReady kv lt ready = record {
  bounded = ready.bounded;
  distinct = ready.distinct;
  empty = λ i ch h k. ready.empty i ch h (omega arith);
}

notify-IsReady :
    (n index : ℕ) (op : Op) (kv : KvServer)
    → n < index
    → IsReady n kv
    → (kv' : KvServer) × (notify index op kv ≡ applied kv') × IsReady index kv'
unfolding notify
notify-IsReady n index op kv lt ready = elim (Option-cases (lookup index kv.dispatcher)) [
  | inl e ↦ (kv, rw (notify, e) refl, later-IsReady kv lt ready)
  | inr (ch, e) ↦ (
    record kv { channels = set kv.channels ch (some (notification op)) },
    notify_sends index ch op kv e (ready.empty index ch e lt),
    record {
      bounded =
          λ i k h. rw (length-set kv.channels ch (some (notification op))) (ready.bounded i k h);
      distinct = ready.distinct;
      empty = λ i k h after.
          get_elem?-set_ne kv.channels (some (notification op)) (λ same.
            let p : index ≡ i = ready.distinct index i k (rw (sym same) e) h in omega arith)
          ∙ ready.empty i k h (omega arith);
    },
  )
]

-- Applying a command at a new index does not block, and uses up the channel of that index only.
pub apply_op-IsReady :
    (n index : ℕ) (op : Op) (kv : KvServer)
    → n < index
    → IsReady n kv
    → (kv' : KvServer) × (apply_op index op kv ≡ applied kv') × IsReady index kv'
unfolding apply_op
apply_op-IsReady n index op kv lt ready =
    elim (Bool-cases (is_duplicate_request op.client_id op.request_id kv)) [
      | inl d ↦ (kv, rw d refl, later-IsReady kv lt ready)
      | inr d ↦
          let (kv', e, ready') =
            notify-IsReady n index op
              (record kv {
                db = write op kv.db;
                last_applied_request_id =
                    insert op.client_id op.request_id kv.last_applied_request_id;
                applied_raft_log_index = index;
              })
              lt
              (record {
                bounded = ready.bounded;
                distinct = ready.distinct;
                empty = ready.empty;
              }) in
          (kv', rw d e, ready')
    ]

install_snapshot-IsReady :
    (gob : KvGob) (n : ℕ) (snapshot : Option (List ℕ)) (kv : KvServer)
    → IsReady n kv
    → IsReady n (install_snapshot gob snapshot kv)
unfolding install_snapshot
install_snapshot-IsReady gob n snapshot kv ready =
    let d : (install_snapshot gob snapshot kv).dispatcher ≡ kv.dispatcher = ground arith in
    let c : (install_snapshot gob snapshot kv).channels ≡ kv.channels = ground arith in
    record {
      bounded = λ i k e. rw c (ready.bounded i k (rw (sym d) e));
      distinct = λ i j k e f. ready.distinct i j k (rw (sym d) e) (rw (sym d) f);
      empty = λ i k e lt. rw c (ready.empty i k (rw (sym d) e) lt);
    }

module _ (gob : KvGob) where
  pub Section-IsReady : {s t : ℕ × KvServer} → Section gob s t → IsReady s.0 s.1 → IsReady t.0 t.1
  Section-IsReady (registered n index kv) ready = register-IsReady n index kv ready
  Section-IsReady (received n ch op kv kv' wrong_leader h) ready =
      receive-IsReady n ch op kv kv' wrong_leader h ready
  Section-IsReady (cleaned n index kv) ready = clean_up-IsReady n index kv ready
  Section-IsReady (commanded n index op kv kv' lt h) ready =
      let (kv1, e, ready1) = apply_op-IsReady n index op kv lt ready in
      let p : kv1 ≡ kv' = ground arith in rw (sym p) ready1
  Section-IsReady (installed n snapshot kv) ready = install_snapshot-IsReady gob n snapshot kv ready

  pub Sections-IsReady : {s t : ℕ × KvServer} → Sections gob s t → IsReady s.0 s.1 → IsReady t.0 t.1
  Sections-IsReady none_yet ready = ready
  Sections-IsReady (followed_by run step) ready = Section-IsReady step (Sections-IsReady run ready)

  pub start_kv_server-IsReady :
      (maxraftstate : Option ℕ) (snapshot : Option (List ℕ))
      → IsReady 0 (start_kv_server gob maxraftstate snapshot)
  unfolding start_kv_server lookup
  start_kv_server-IsReady maxraftstate snapshot =
      install_snapshot-IsReady gob 0 snapshot
        (record {
          maxraftstate = maxraftstate;
          db = [];
          dispatcher = [];
          last_applied_request_id = [];
          applied_raft_log_index = 0;
          channels = [];
        })
        (record {
          bounded = λ i ch h. absurd (cc);
          distinct = λ i j ch h k. absurd (cc);
          empty = λ i ch h lt. absurd (cc);
        })

  -- Before any command at an index above all earlier ones, whatever the handlers have
  -- done since the start, the send to the channel of that index does not block: the
  -- command is applied.
  pub never_blocks :
      (maxraftstate : Option ℕ) (snapshot : Option (List ℕ)) (n index : ℕ) (op : Op) (kv : KvServer)
      → Sections gob (0, start_kv_server gob maxraftstate snapshot) (n, kv)
      → n < index
      → (kv' : KvServer) × (apply_op index op kv ≡ applied kv')
  never_blocks maxraftstate snapshot n index op kv run lt =
      let ready = Sections-IsReady run (start_kv_server-IsReady maxraftstate snapshot) in
      let (kv', e, _) = apply_op-IsReady n index op kv lt ready in (kv', e)
