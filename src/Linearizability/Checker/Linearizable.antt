-- ===== src/Linearizability/Checker/Linearizable.antt =====
-- linearizability/linearizability.go: checkSingle on the entries of a history.
use distribution_system.Prelude.{
  some_injective, ℕ, zero, suc, ◌+◌, ◌/◌, ◌%◌, ◌==◌, ==_iff, Bool-cases, if◌then◌else◌, ◌≤◌, ◌<◌,
  ◌≡◌, ◌^◌, ◌-◌, refl, sym, subst, ◌∙◌, ap, Bool, true, inl, inr, Option, none, some, List, [], ◌∷◌,
  length, length-replicate, arith, done,
}
use distribution_system.Linearizability.Model.{Model}
use distribution_system.Linearizability.Bitset.{new_bitset}
use distribution_system.Linearizability.Entries.{call_entry, return_entry, Entry}
use distribution_system.Linearizability.Nodes.{
  Info, Linked, empty_store, update, new_node, insert_before, make_linked_entries, length_of,
}
use distribution_system.Linearizability.Nodes.Chain.{below, update_ne}
use distribution_system.Linearizability.Nodes.Built.{Front, insert_before-Front, length_of-Rooted}
use distribution_system.Linearizability.Nodes.History.{entry_at, IsHistory}
use distribution_system.Linearizability.Nodes.Held.{
  Held, Built, make_linked_entries-Built, update_cases,
}
use distribution_system.Linearizability.Checker.{
  as_input, as_output, search, start_search, check_single,
}
use distribution_system.Linearizability.Checker.Lifted.{IsPaired}
use distribution_system.Linearizability.Checker.Fits.{At, IsTotal}
use distribution_system.Linearizability.Checker.Explore.{never}
use distribution_system.Linearizability.Checker.Verdict.{Uses, IsOrder, Runs, search-Verdict}

module _ {I O S : Type 0} (entries : List (Entry I O)) (model : Model I O S) where
  -- Step takes the calls, each with its return, one after the other from the initial state.
  abbrev pub Accepts : List (ℕ × ℕ) → S → Type 0
  Accepts [] state = state ≡ model.init
  Accepts ((e, m) ∷ order) state =
      (before : S) × (call ret : Entry I O) × (inp : I) × (out : O) × (entry_at entries e
        ≡ some call)
      × (entry_at entries m ≡ some ret)
      × (call.kind ≡ call_entry)
      × (ret.kind ≡ return_entry)
      × (call.id ≡ ret.id)
      × (call.value ≡ inl inp)
      × (ret.value ≡ inr out)
      × (model.step before inp out ≡ done (true, state))
      × Accepts order before

  -- All the calls with their returns in an order that the model accepts and that keeps to the order of the
  -- entries: none is taken behind one whose call stands behind its return.
  pub record IsLinearizable : Type 0 where
    pub order : List (ℕ × ℕ)
    pub state : S
    pub accepts : Accepts order state
    pub ordered : IsOrder order
    pub complete : (p : ℕ) → p < length entries → Uses order p

done_injective : {A : Type 0} (x y : A) → done x ≡ done y → x ≡ y
done_injective x y h = cc

-- Step panics on nothing.
abbrev pub AcceptsAll : {I O S : Type 0} → Model I O S → Type 0
AcceptsAll {I} {O} {S} model =
    (s : S) (inp : I) (out : O)
    → (ok : Bool) × (next_state : S) × (model.step s inp out ≡ done (ok, next_state))

-- The words hold every position below `bits`.
pub new_bitset_holds : (bits pos : ℕ) → pos < bits → pos / 64 < length (new_bitset bits)
unfolding new_bitset
new_bitset_holds bits pos lt = elim (Bool-cases (bits % 64 == 0)) [
  | inl e ↦
      let q : bits % 64 ≡ 0 = (==_iff (bits % 64) 0).0 e in
      rw (length-replicate {A = ℕ} (bits / 64 + (if bits % 64 == 0 then 0 else 1)) 0, e)
        (omega arith)
  | inr e ↦
      rw (length-replicate {A = ℕ} (bits / 64 + (if bits % 64 == 0 then 0 else 1)) 0, e)
        (omega arith)
]

module _ {I O : Type 0} (n : ℕ) (entries : List (Entry I O)) (info : ℕ → Option (Info I O))
    (held : Held n entries info) (head : Info I O) (head_match : head.match ≡ none) where
  old_node :
      (p m : ℕ) (i : Info I O)
      → update info (length entries) (some head) p ≡ some i
      → i.match ≡ some m
      → info p ≡ some i
  old_node p m i h im = elim (update_cases info (length entries) p head i h) [
    | inl (_, q) ↦ let u = sym (ap (λ x. x.match) q) ∙ head_match in absurd (cc)
    | inr (_, old) ↦ old
  ]

  held-IsPaired : IsPaired (update info (length entries) (some head)) (length entries)
  held-IsPaired = record {
    known = λ p lt.
        let (i, h) = held.known p lt in
        (i, update_ne info (length entries) p (some head) (λ q. omega arith) ∙ h);
    behind = λ e m pair.
        let (i, ie, im) = pair in
        let c = held.calls e m i (old_node e m i ie im) im in
        let r = c.returns in
        (
          c.behind,
          (
            r.node,
            update_ne info (length entries) m (some head) (λ q. let b = r.bound in omega arith)
                ∙ r.info_eq,
            r.match_eq,
          ),
        );
    injective = λ e e' m pair pair'.
        let (i, ie, im) = pair in
        let (i', ie', im') = pair' in
        let c = held.calls e m i (old_node e m i ie im) im in
        let c' = held.calls e' m i' (old_node e' m i' ie' im') im' in
        let q : c.returns.node ≡ c'.returns.node =
          some_injective c.returns.node c'.returns.node
            (sym c.returns.info_eq ∙ c'.returns.info_eq) in
        held.unique e e' m m i i' (old_node e m i ie im) (old_node e' m i' ie' im') im im'
          (sym c.returns.node_id ∙ ap (λ x. x.id) q ∙ c'.returns.node_id);
  }

  held-IsTotal :
      {S : Type 0} (words : ℕ) (model : Model I O S)
      → ((id : ℕ) → id < n → id / 64 < words)
      → AcceptsAll model
      → IsTotal (update info (length entries) (some head)) (length entries) words model
  held-IsTotal words model fits total = record {
    total = total;
    typed = λ e m i j ie im jm.
        let c = held.calls e m i (old_node e m i ie im) im in
        let r = c.returns in
        let jm' : update info (length entries) (some head) m ≡ some r.node =
          update_ne info (length entries) m (some head) (λ q. let b = r.bound in omega arith)
          ∙ r.info_eq in
        let q : r.node ≡ j = some_injective r.node j (sym jm' ∙ jm) in
        (
          c.inp,
          r.out,
          ap as_input c.value_eq,
          ap as_output (sym (ap (λ x. x.value) q) ∙ r.value_eq),
        );
    small = λ e m i ie im. fits i.id (held.small e i (old_node e m i ie im));
  }

  held-Accepts :
      {S : Type 0} (model : Model I O S) (order : List (ℕ × ℕ)) (state : S)
      → Runs (update info (length entries) (some head)) (length entries) model order state
      → Accepts entries model order state
  held-Accepts model [] state r = r
  held-Accepts model ((e, m) ∷ order) state (before, i, j, inp, out, ie, im, jm, ai, ao, st, runs) =
      let c = held.calls e m i (old_node e m i ie im) im in
      let r = c.returns in
      let jm' : update info (length entries) (some head) m ≡ some r.node =
        update_ne info (length entries) m (some head) (λ q. let b = r.bound in omega arith)
        ∙ r.info_eq in
      let q : r.node ≡ j = some_injective r.node j (sym jm' ∙ jm) in
      let a : done inp ≡ done c.inp = sym ai ∙ ap as_input c.value_eq in
      let b : done out ≡ done r.out =
        sym ao ∙ ap as_output (sym (ap (λ x. x.value) q) ∙ r.value_eq) in
      (
        before,
        c.elem,
        r.elem,
        c.inp,
        r.out,
        c.at_eq,
        r.at_eq,
        c.kind_eq,
        r.kind_eq,
        c.id_eq ∙ sym r.id_eq,
        c.elem_value,
        r.elem_value,
        subst (λ x. model.step before x r.out ≡ done (true, state)) (done_injective inp c.inp a)
            (subst (λ x. model.step before inp x ≡ done (true, state)) (done_injective out r.out b)
              st),
        held-Accepts model order before runs,
      )

module _ {I O S : Type 0} (model : Model I O S) (equal : S → S → Bool) where
  -- checkSingle comes to an end, and true stands for a linearization.
  abbrev pub Decides : List (Entry I O) → Type 0
  Decides entries =
      let l = make_linked_entries entries in
      (answer : Bool) × (k : ℕ) × ((rounds : ℕ)
        → k ≤ rounds
        → check_single model equal never rounds l.root l.store ≡ done (some answer))
      × (answer ≡ true → IsLinearizable entries model)

  empty_ends :
      (rounds : ℕ)
      → 1 ≤ rounds
      → check_single model equal never rounds none (empty_store) ≡ done (some true)
  unfolding check_single start_search search insert_before
  empty_ends zero h = absurd (omega arith)
  empty_ends (suc rounds) h = refl

  Decides-empty : Decides []
  unfolding make_linked_entries
  Decides-empty = (
    true,
    1,
    empty_ends,
    λ q. record {
      order = [];
      state = model.init;
      accepts = refl;
      ordered = tt;
      complete = λ p lt. absurd (omega arith);
    },
  )

  -- The first search looks at the first of the nodes.
  start_search-At :
      (n : ℕ) (elem : Entry I O) (entries : List (Entry I O)) (l : Linked I O)
      → Built n (elem ∷ entries) l
      → At
          (update l.store.info
            (suc (length entries))
            (some (record { value = none; match = none; id = 2 ^ 64 - 1 })))
          (suc (length entries))
          (length (new_bitset (length_of l.root l.store / 2)))
          model
          (start_search model equal l.root l.store)
          []
          []
          (length entries)
          (below (length entries))
  unfolding start_search
  start_search-At n elem entries l b =
      let head : Info I O = record { value = none; match = none; id = 2 ^ 64 - 1 } in
      let f : Front head l.store (insert_before l.store.size l.root (new_node head l.store))
          (suc (length entries)) =
        subst
          (λ r.
            Front head l.store (insert_before l.store.size r (new_node head l.store))
              (suc (length entries)))
          (sym b.root_eq)
          (insert_before-Front (suc (length entries)) head l.store b.size_eq b.rooted) in
      record {
        fits = record {
          head_eq = b.size_eq;
          info_eq = f.info_eq;
          words_eq = refl;
          calls_eq = refl;
          links = f.links;
          lifted = refl;
        };
        entry_eq = b.root_eq;
        left_eq = refl;
        passed = tt;
      }

  Decides-first :
      (elem : Entry I O) (entries : List (Entry I O))
      → IsHistory (length (elem ∷ entries) / 2) (elem ∷ entries)
      → AcceptsAll model
      → Decides (elem ∷ entries)
  unfolding check_single
  Decides-first elem entries h total =
      let top = suc (length entries) in
      let l = make_linked_entries (elem ∷ entries) in
      let b = make_linked_entries-Built (top / 2) (elem ∷ entries) h in
      let head : Info I O = record { value = none; match = none; id = 2 ^ 64 - 1 } in
      let info = update l.store.info top (some head) in
      let words = length (new_bitset (length_of l.root l.store / 2)) in
      let len : length_of l.root l.store ≡ top =
        ap (λ r. length_of r l.store) b.root_eq ∙ length_of-Rooted top l.store b.size_eq b.rooted in
      let t =
        held-IsTotal (top / 2) (elem ∷ entries) l.store.info b.held head refl words model
          (λ id lt. new_bitset_holds (length_of l.root l.store / 2) id (rw len lt)) total in
      let (answer, k, ends, sound) =
        search-Verdict info top words model equal
          (held-IsPaired (top / 2) (elem ∷ entries) l.store.info b.held head refl) t
          (start_search model equal l.root l.store) (length entries) (below (length entries))
          (start_search-At (top / 2) elem entries l b) in
      (
        answer,
        k,
        λ rounds le. let q : rounds ≡ k + (rounds - k) = omega arith in rw (q) (ends (rounds - k)),
        λ yes_path.
            let s = sound yes_path in
            record {
              order = s.order;
              state = s.state;
              accepts =
                  held-Accepts (top / 2) (elem ∷ entries) l.store.info b.held head refl model
                    s.order s.state s.runs;
              ordered = s.ordered;
              complete = s.complete;
            },
      )

  pub history-Decides :
      (entries : List (Entry I O))
      → IsHistory (length entries / 2) entries
      → AcceptsAll model
      → Decides entries
  history-Decides [] h total = Decides-empty
  history-Decides (elem ∷ entries) h total = Decides-first elem entries h total
