-- ===== src/Linearizability/Nodes.antt =====
-- linearizability/linearizability.go: the doubly linked list of entries. The store keeps each field of
-- the nodes by itself; an address is a number below `size`, and nil is `none`.
pub mod Chain
pub mod Members
pub mod Lifting
pub mod History
pub mod Built
pub mod Held
use distribution_system.Prelude.{
  ℕ, zero, suc, ◌==◌, ◌⊎◌, Option, none, some, List, [], ◌∷◌, if◌then◌else◌, Outcome, done, ◌>>=◌,
  or_panic,
}
use distribution_system.Prelude.Dict.{Dict, lookup, insert, nat_eq}
use distribution_system.Linearizability.Entries.{call_entry, return_entry, Entry}

-- The fields of a node that never change: `value` is `none` for nil.
pub record Info (I O : Type 0) : Type 0 where
  pub value : Option (I ⊎ O)
  pub match : Option ℕ
  pub id : ℕ

pub record Store (I O : Type 0) : Type 0 where
  pub size : ℕ
  pub info : ℕ → Option (Info I O)
  pub next : ℕ → Option ℕ
  pub prev : ℕ → Option ℕ

abbrev pub update {ℓ} : {A : Type ℓ} → (ℕ → A) → ℕ → A → ℕ → A
update f p v q = if p == q then v else f q

module _ {I O : Type 0} where
  abbrev pub empty_store : Store I O
  empty_store = record { size = 0; info = λ p. none; next = λ p. none; prev = λ p. none }

  abbrev pub set_next : ℕ → Option ℕ → Store I O → Store I O
  set_next p v h = record h { next = update h.next p v }

  abbrev pub set_prev : ℕ → Option ℕ → Store I O → Store I O
  set_prev p v h = record h { prev = update h.prev p v }

  -- if p != nil { p.prev = v }
  abbrev pub set_prev_of : Option ℕ → Option ℕ → Store I O → Store I O
  set_prev_of none v h = h
  set_prev_of (some p) v h = set_prev p v h

  -- &node{…}, at the address `h.size`
  abbrev pub new_node : Info I O → Store I O → Store I O
  new_node i h = record {
    size = suc h.size;
    info = update h.info h.size (some i);
    next = update h.next h.size none;
    prev = update h.prev h.size none;
  }

  unfoldable pub insert_before : ℕ → Option ℕ → Store I O → Store I O
  insert_before n none h = h
  insert_before n (some mark) h =
      let h' = set_next n (some mark) (set_prev mark (some n) h) in
      elim (h.prev mark) [
        | none ↦ h'
        | some before ↦ set_next before (some n) (set_prev n (some before) h')
      ]

  -- length, with the rounds left.
  unfoldable pub length_from : ℕ → Option ℕ → Store I O → ℕ
  length_from zero n h = 0
  length_from (suc rounds) none h = 0
  length_from (suc rounds) (some n) h = suc (length_from rounds (h.next n) h)

  -- A list has no more nodes than the store.
  unfoldable pub length_of : Option ℕ → Store I O → ℕ
  unfolding length_from
  length_of n h = length_from h.size n h

  unfoldable pub lift : ℕ → ℕ → Store I O → Outcome (Store I O)
  lift entry match h = do
    p ← or_panic (h.prev entry)
    let h1 = set_next p (h.next entry) h
    n ← or_panic (h1.next entry)
    let h2 = set_prev n (h1.prev entry) h1
    q ← or_panic (h2.prev match)
    let h3 = set_next q (h2.next match) h2
    done (set_prev_of (h3.next match) (h3.prev match) h3)

  unfoldable pub unlift : ℕ → ℕ → Store I O → Outcome (Store I O)
  unlift entry match h = do
    q ← or_panic (h.prev match)
    let h1 = set_next q (some match) h
    let h2 = set_prev_of (h1.next match) (some match) h1
    p ← or_panic (h2.prev entry)
    let h3 = set_next p (some entry) h2
    n ← or_panic (h3.next entry)
    done (set_prev n (some entry) h3)

-- The variables of makeLinkedEntries.
pub record Linked (I O : Type 0) : Type 0 where
  pub store : Store I O
  pub root : Option ℕ
  pub match : Dict ℕ ℕ

module _ {I O : Type 0} where
  -- A new node in front of the others.
  unfoldable pub push_node : Info I O → Linked I O → Linked I O
  unfolding insert_before
  push_node i l = record l {
    store = insert_before l.store.size l.root (new_node i l.store);
    root = some l.store.size;
  }

  -- The loop goes from the last entry to the first.
  unfoldable pub make_linked_entries : List (Entry I O) → Linked I O
  make_linked_entries [] = record { store = empty_store; root = none; match = [] }
  make_linked_entries (elem ∷ entries) =
      let l = make_linked_entries entries in
      elim elem.kind [
        | return_entry ↦
            record (push_node (record { value = some elem.value; match = none; id = elem.id }) l) {
              match = insert elem.id l.store.size l.match;
            }
        | call_entry ↦
            push_node
              (record { value = some elem.value; match = lookup elem.id l.match; id = elem.id }) l
      ]
