-- ===== src/Linearizability/Nodes/Held.antt =====
-- linearizability/linearizability.go: the nodes that makeLinkedEntries builds hold the entries.
use distribution_system.Prelude.{
  some_injective, ℕ, ◌<◌, ◌≡◌, ◌≢◌, refl, sym, subst, ◌∙◌, ap, ◌==◌, ==_iff, Bool-cases, ◌⊎◌, inl,
  inr, Option, none, some, List, [], ◌∷◌, length, if◌then◌else◌, arith,
}
use distribution_system.Prelude.Dict.{Dict, lookup, insert, lookup-insert, nat_eq}
use distribution_system.Linearizability.Entries.{EntryKind, call_entry, return_entry, Entry}
use distribution_system.Linearizability.Nodes.{
  Info, update, new_node, insert_before, Linked, push_node, make_linked_entries,
}
use distribution_system.Linearizability.Nodes.Chain.{below, first_of, update_self, update_ne}
use distribution_system.Linearizability.Nodes.Built.{Rooted, Front, insert_before-Front}
use distribution_system.Linearizability.Nodes.History.{
  HasCall, IsHistory, entry_at_first, Returns, Calls, Returns-grow, Calls-grow,
}

kind_cases : (k : EntryKind) → (k ≡ call_entry) ⊎ (k ≡ return_entry)
kind_cases call_entry = inl refl
kind_cases return_entry = inr refl

insert_cases :
    (k id v x : ℕ) (m : Dict ℕ ℕ)
    → lookup id (insert k v m) ≡ some x
    → ((id ≡ k) × (x ≡ v)) ⊎ (lookup id m ≡ some x)
insert_cases k id v x m h =
    let q = sym (lookup-insert k id v m) ∙ h in
    elim (Bool-cases (k == id)) [
      | inl e ↦
          let u : (if k == id then some v else lookup id m) ≡ some v = rw e refl in
          inl (sym ((==_iff k id).0 e), sym (some_injective v x (sym u ∙ q)))
      | inr e ↦
          let u : (if k == id then some v else lookup id m) ≡ lookup id m = rw e refl in
          inr (sym u ∙ q)
    ]

module _ {I O : Type 0} where
  -- What a new write shows of a node.
  pub update_cases :
      (info : ℕ → Option (Info I O)) (n p : ℕ) (new i : Info I O)
      → update info n (some new) p ≡ some i
      → ((p ≡ n) × (new ≡ i)) ⊎ ((n ≢ p) × (info p ≡ some i))
  update_cases info n p new i h = elim (Bool-cases (n == p)) [
    | inl e ↦
        let q = (==_iff n p).0 e in
        let u : update info n (some new) p ≡ some new = rw e refl in
        inl (sym q, some_injective new i (sym u ∙ h))
    | inr e ↦ let ne : n ≢ p = ground arith in inr (ne, sym (update_ne info n p (some new) ne) ∙ h)
  ]

  -- Each node holds an entry, and calls point to their returns.
  pub record Held (n : ℕ) (entries : List (Entry I O)) (info : ℕ → Option (Info I O)) : Type 0 where
    pub known : (p : ℕ) → p < length entries → (i : Info I O) × (info p ≡ some i)
    pub bounded : (p : ℕ) (i : Info I O) → info p ≡ some i → p < length entries
    pub small : (p : ℕ) (i : Info I O) → info p ≡ some i → i.id < n
    pub calls :
        (e m : ℕ) (i : Info I O) → info e ≡ some i → i.match ≡ some m → Calls entries info i e m
    pub unique :
        (e e' m m' : ℕ) (i i' : Info I O)
        → info e ≡ some i
        → info e' ≡ some i'
        → i.match ≡ some m
        → i'.match ≡ some m'
        → i.id ≡ i'.id
        → e ≡ e'

  Held-push :
      (n : ℕ) (elem : Entry I O) (entries : List (Entry I O)) (info : ℕ → Option (Info I O))
      (new : Info I O)
      → Held n entries info
      → new.id < n
      → ((m : ℕ)
          → new.match ≡ some m
          → Calls (elem ∷ entries) (update info (length entries) (some new)) new (length entries) m
            × ¬ HasCall entries new.id)
      → Held n (elem ∷ entries) (update info (length entries) (some new))
  Held-push n elem entries info new held small_id fresh =
      let l = length entries in
      record {
        known = λ p lt. elim (Bool-cases (l == p)) [
          | inl e ↦ (new, rw e refl)
          | inr e ↦
              let ne : l ≢ p = ground (arith) in
              let (i, h) = held.known p (omega arith) in (i, update_ne info l p (some new) ne ∙ h)
        ];
        bounded = λ p i h. elim (update_cases info l p new i h) [
          | inl (q, _) ↦ omega arith
          | inr (_, old) ↦ let b = held.bounded p i old in omega arith
        ];
        small = λ p i h. elim (update_cases info l p new i h) [
          | inl (_, q) ↦ subst (λ x. x.id < n) q small_id
          | inr (_, old) ↦ held.small p i old
        ];
        calls = λ e m i h im. elim (update_cases info l e new i h) [
          | inl (q, q') ↦
              subst (λ x. Calls (elem ∷ entries) (update info l (some new)) i x m) (sym q)
                (subst (λ x. Calls (elem ∷ entries) (update info l (some new)) x l m) q'
                  (fresh m (ap (λ x. x.match) q' ∙ im)).0)
          | inr (_, old) ↦ Calls-grow elem entries info new i e m (held.calls e m i old im)
        ];
        unique = λ e e' m m' i i' h h' im im' same. elim (update_cases info l e new i h) [
          | inl (q, q') ↦ elim (update_cases info l e' new i' h') [
            | inl (r, r') ↦ q ∙ sym r
            | inr (_, old) ↦ absurd (
                (fresh m (ap (λ x. x.match) q' ∙ im)).1 (
                  subst (λ x. HasCall entries x) (sym same ∙ sym (ap (λ x. x.id) q'))
                    (held.calls e' m' i' old im').listed))
          ]
          | inr (_, old) ↦ elim (update_cases info l e' new i' h') [
            | inl (r, r') ↦ absurd (
                (fresh m' (ap (λ x. x.match) r' ∙ im')).1 (
                  subst (λ x. HasCall entries x) (same ∙ sym (ap (λ x. x.id) r'))
                    (held.calls e m i old im).listed))
            | inr (_, old') ↦ held.unique e e' m m' i i' old old' im im' same
          ]
        ];
      }

  -- The list that is built of the entries.
  pub record Built (n : ℕ) (entries : List (Entry I O)) (l : Linked I O) : Type 0 where
    pub size_eq : l.store.size ≡ length entries
    pub root_eq : l.root ≡ first_of (below (length entries))
    pub rooted : Rooted l.store.next l.store.prev (below (length entries))
    pub held : Held n entries l.store.info
    pub matches : (id m : ℕ) → lookup id l.match ≡ some m → Returns entries l.store.info id m

  Linked-push :
      (n : ℕ) (elem : Entry I O) (entries : List (Entry I O)) (l : Linked I O) (new : Info I O)
      → Built n entries l
      → new.id < n
      → ((m : ℕ)
          → new.match ≡ some m
          → Calls
              (elem ∷ entries)
              (update l.store.info (length entries) (some new))
              new
              (length entries)
              m
            × ¬ HasCall entries new.id)
      → (match' : Dict ℕ ℕ)
      → ((id m : ℕ)
          → lookup id match' ≡ some m
          → Returns (elem ∷ entries) (update l.store.info (length entries) (some new)) id m)
      → Built n (elem ∷ entries) (record (push_node new l) { match = match' })
  unfolding push_node
  Linked-push n elem entries l new b small_id fresh match' matches =
      let f : Front new l.store (insert_before l.store.size l.root (new_node new l.store))
          (length entries) =
        subst
          (λ r.
            Front new l.store (insert_before l.store.size r (new_node new l.store))
              (length entries))
          (sym b.root_eq) (insert_before-Front (length entries) new l.store b.size_eq b.rooted) in
      record {
        size_eq = f.size_eq;
        root_eq = ap some b.size_eq;
        rooted = (f.first, f.links);
        held =
            subst (λ x. Held n (elem ∷ entries) x) (sym f.info_eq)
              (Held-push n elem entries l.store.info new b.held small_id fresh);
        matches =
            λ id m h. subst (λ x. Returns (elem ∷ entries) x id m) (sym f.info_eq) (matches id m h);
      }

  push_call-Built :
      (n : ℕ) (elem : Entry I O) (entries : List (Entry I O)) (l : Linked I O)
      → Built n entries l
      → elem.kind ≡ call_entry
      → elem.id < n
      → (inp : I) → elem.value ≡ inl inp
      → ¬ HasCall entries elem.id
      → Built n (elem ∷ entries) (
          push_node
            (record { value = some elem.value; match = lookup elem.id l.match; id = elem.id })
            l)
  unfolding push_node
  push_call-Built n elem entries l b kind lt inp value fresh =
      let new : Info I O = record {
        value = some elem.value;
        match = lookup elem.id l.match;
        id = elem.id;
      } in
      let info' = update l.store.info (length entries) (some new) in
      Linked-push n elem entries l new b lt
        (λ m h.
          let r = b.matches elem.id m h in
          (
            record {
              elem = elem;
              inp = inp;
              bound = omega arith;
              behind = r.bound;
              value_eq = ap some value;
              at_eq = entry_at_first elem entries;
              kind_eq = kind;
              id_eq = refl;
              elem_value = value;
              listed = inl (kind, refl);
              returns = Returns-grow elem entries l.store.info new elem.id m r;
            },
            fresh,
          ))
        l.match (λ id m h. Returns-grow elem entries l.store.info new id m (b.matches id m h))

  push_return-Built :
      (n : ℕ) (elem : Entry I O) (entries : List (Entry I O)) (l : Linked I O)
      → Built n entries l
      → elem.kind ≡ return_entry
      → elem.id < n
      → (out : O) → elem.value ≡ inr out
      → Built n
          (elem ∷ entries)
          (record (push_node (record { value = some elem.value; match = none; id = elem.id }) l) {
            match = insert elem.id l.store.size l.match;
          })
  unfolding push_node
  push_return-Built n elem entries l b kind lt out value =
      let new : Info I O = record { value = some elem.value; match = none; id = elem.id } in
      let info' = update l.store.info (length entries) (some new) in
      Linked-push n elem entries l new b lt (λ m h. absurd (cc))
        (insert elem.id l.store.size l.match)
        (λ id m h. elim (insert_cases elem.id id l.store.size m l.match h) [
          | inl (q, q') ↦
              subst (λ x. Returns (elem ∷ entries) info' x m) (sym q)
                (subst (λ x. Returns (elem ∷ entries) info' elem.id x) (sym (q' ∙ b.size_eq))
                  (record {
                    node = new;
                    elem = elem;
                    out = out;
                    bound = omega arith;
                    info_eq = update_self l.store.info (length entries) (some new);
                    match_eq = refl;
                    value_eq = ap some value;
                    at_eq = entry_at_first elem entries;
                    kind_eq = kind;
                    id_eq = refl;
                    node_id = refl;
                    elem_value = value;
                  }))
          | inr old ↦ Returns-grow elem entries l.store.info new id m (b.matches id m old)
        ])

  make_call :
      (elem : Entry I O) (entries : List (Entry I O))
      → elem.kind ≡ call_entry
      → make_linked_entries (elem ∷ entries)
        ≡ push_node
            (record {
              value = some elem.value;
              match = lookup elem.id (make_linked_entries entries).match;
              id = elem.id;
            })
            (make_linked_entries entries)
  unfolding make_linked_entries
  make_call elem entries k = rw (make_linked_entries, k) refl

  make_return :
      (elem : Entry I O) (entries : List (Entry I O))
      → elem.kind ≡ return_entry
      → make_linked_entries (elem ∷ entries)
        ≡ record (push_node
            (record { value = some elem.value; match = none; id = elem.id })
            (make_linked_entries entries)) {
              match =
                  insert elem.id
                    (make_linked_entries entries).store.size
                    (make_linked_entries entries).match;
            }
  unfolding make_linked_entries
  make_return elem entries k = rw (make_linked_entries, k) refl

  pub make_linked_entries-Built :
      (n : ℕ) (entries : List (Entry I O))
      → IsHistory n entries
      → Built n entries (make_linked_entries entries)
  unfolding make_linked_entries lookup
  make_linked_entries-Built n [] h = record {
    size_eq = refl;
    root_eq = refl;
    rooted = tt;
    held = record {
      known = λ p lt. absurd (omega arith);
      bounded = λ p i q. absurd (cc);
      small = λ p i q. absurd (cc);
      calls = λ e m i q. absurd (cc);
      unique = λ e e' m m' i i' q. absurd (cc);
    };
    matches = λ id m q. absurd (cc);
  }
  make_linked_entries-Built n (elem ∷ entries) h =
      let b = make_linked_entries-Built n entries h.3 in
      elim (kind_cases elem.kind) [
        | inl call ↦
            let ((inp, value), fresh) = h.0 call in
            subst (λ x. Built n (elem ∷ entries) x) (sym (make_call elem entries call))
              (push_call-Built n elem entries (make_linked_entries entries) b call h.2 inp value
                fresh)
        | inr ret ↦
            let (out, value) = h.1 ret in
            subst (λ x. Built n (elem ∷ entries) x) (sym (make_return elem entries ret))
              (push_return-Built n elem entries (make_linked_entries entries) b ret h.2 out value)
      ]
