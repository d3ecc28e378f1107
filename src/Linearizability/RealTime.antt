-- ===== src/Linearizability/RealTime.antt =====
-- linearizability/linearizability.go: from the positions of entries to operations and their times.
use distribution_system.Prelude.{
  ℕ, ◌+◌, ◌/◌, ◌≡◌, refl, sym, ◌∙◌, ap, subst, ◌==◌, true, Bool-cases, ◌⊎◌, inl, inr, none, some,
  List, [], ◌∷◌, length, get_elem?, arith, done, some_injective,
}
use distribution_system.Linearizability.Model.{Operation, Model}
use distribution_system.Linearizability.Entries.{Entry, call_entry, return_entry, entries_from}
use distribution_system.Linearizability.Nodes.History.{entry_at, HasCall, IsHistory}
use distribution_system.Linearizability.Nodes.Members.{◌∈◌}
use distribution_system.Linearizability.Sorted.{
  IsSorted, entry_at-lt, entry_at-IsSorted, not_less-le,
}
use distribution_system.Linearizability.Reordering.{Reorders, Reorders-sym, HasCall-Reorders}
use distribution_system.Linearizability.Operations.{
  AcceptsOperations, AreCalledBy, KeepsTimes, Linearizes, Comes, All-Reorders, All-entry_at,
  entries_from-Comes, entries_from-HasCall, HasCall-entry_at, entry_at-HasCall,
}
use distribution_system.Linearizability.Checker.Verdict.{Uses, Precede, IsOrder}
use distribution_system.Linearizability.Checker.Linearizable.{Accepts, IsLinearizable}

module _ {I O : Type 0} where
  -- Two calls of the same operation stand at the same place.
  same_call :
      (n : ℕ) (entries : List (Entry I O)) (p q : ℕ) (x y : Entry I O)
      → IsHistory n entries
      → entry_at entries p ≡ some x
      → entry_at entries q ≡ some y
      → x.kind ≡ call_entry
      → y.kind ≡ call_entry
      → x.id ≡ y.id
      → p ≡ q
  unfolding entry_at
  same_call n [] p q x y h a b k l same = absurd (cc)
  same_call n (elem ∷ entries) p q x y (calls, _, _, h) a b k l same =
      elim (Bool-cases (p == length entries)) [
        | inl p_first ↦
            let px : entry_at (elem ∷ entries) p ≡ some elem = rw (entry_at, p_first) refl in
            let ex = some_injective elem x (sym px ∙ a) in
            elim (Bool-cases (q == length entries)) [
              | inl q_first ↦ ground arith
              | inr q_later ↦
                  let qy : entry_at (elem ∷ entries) q ≡ entry_at entries q =
                    rw (entry_at, q_later) refl in
                  let c = entry_at-HasCall entries q y (sym qy ∙ b) l in
                  let i : y.id ≡ elem.id = sym same ∙ sym (ap (λ z. z.id) ex) in
                  absurd ((calls (ap (λ z. z.kind) ex ∙ k)).1 (subst (λ j. HasCall entries j) i c))
            ]
        | inr p_later ↦
            let px : entry_at (elem ∷ entries) p ≡ entry_at entries p =
              rw (entry_at, p_later) refl in
            elim (Bool-cases (q == length entries)) [
              | inl q_first ↦
                  let qy : entry_at (elem ∷ entries) q ≡ some elem = rw (entry_at, q_first) refl in
                  let ey = some_injective elem y (sym qy ∙ b) in
                  let c = entry_at-HasCall entries p x (sym px ∙ a) k in
                  let i : x.id ≡ elem.id = same ∙ sym (ap (λ z. z.id) ey) in
                  absurd ((calls (ap (λ z. z.kind) ey ∙ l)).1 (subst (λ j. HasCall entries j) i c))
              | inr q_later ↦
                  let qy : entry_at (elem ∷ entries) q ≡ entry_at entries q =
                    rw (entry_at, q_later) refl in
                  same_call n entries p q x y h (sym px ∙ a) (sym qy ∙ b) k l same
            ]
      ]

  -- The number of the operation whose entry has `p` others behind it.
  abbrev id_at : List (Entry I O) → ℕ → ℕ
  id_at entries p = elim (entry_at entries p) [ none ↦ 0 | some x ↦ x.id ]

  abbrev ids : List (Entry I O) → List (ℕ × ℕ) → List ℕ
  ids entries [] = []
  ids entries ((e, m) ∷ order) = id_at entries e ∷ ids entries order

  id_at-some :
      (entries : List (Entry I O)) (p : ℕ) (x : Entry I O)
      → entry_at entries p ≡ some x
      → id_at entries p ≡ x.id
  id_at-some entries p x h = rw (id_at, h) refl

module _ {I O S : Type 0} (model : Model I O S) (history : List (Operation I O))
    (entries : List (Entry I O)) (reorders : Reorders (entries_from 0 history) entries)
    (is_history : IsHistory (length entries / 2) entries) (sorted : IsSorted entries) where
  comes : (p : ℕ) (x : Entry I O) → entry_at entries p ≡ some x → Comes 0 history x
  comes p x h =
      All-entry_at (Comes 0 history) entries p x
        (All-Reorders (Comes 0 history) (entries_from 0 history) entries reorders
          (entries_from-Comes 0 history))
        h

  call_of :
      (p : ℕ) (x : Entry I O)
      → entry_at entries p ≡ some x
      → x.kind ≡ call_entry
      → (o : Operation I O) × (get_elem? history x.id ≡ some o)
        × (x.value ≡ inl o.input)
        × (x.time ≡ some o.call)
  call_of p x h k =
      let (i, o, g, q, c) = comes p x h in
      let e : i ≡ x.id = omega (arith, q) in
      elim c [
        | inl (_, v, t) ↦ (o, ap (get_elem? history) (sym e) ∙ g, v, t)
        | inr (r, _, _) ↦ absurd (cc)
      ]

  return_of :
      (p : ℕ) (x : Entry I O)
      → entry_at entries p ≡ some x
      → x.kind ≡ return_entry
      → (o : Operation I O) × (get_elem? history x.id ≡ some o)
        × (x.value ≡ inr o.output)
        × (x.time ≡ some o.return_time)
  return_of p x h k =
      let (i, o, g, q, c) = comes p x h in
      let e : i ≡ x.id = omega (arith, q) in
      elim c [
        | inl (r, _, _) ↦ absurd (cc)
        | inr (_, v, t) ↦ (o, ap (get_elem? history) (sym e) ∙ g, v, t)
      ]

  Accepts-operations :
      (order : List (ℕ × ℕ)) (state : S)
      → Accepts entries model order state
      → AcceptsOperations history model (ids entries order) state
  Accepts-operations [] state h = h
  Accepts-operations ((e, m) ∷ order) state
        (before, call, ret, inp, out, ae, am, ck, rk, same, cv, rv, st, rest) =
      let (o, g, v, _) = call_of e call ae ck in
      let (o', g', v', _) = return_of m ret am rk in
      let q : o ≡ o' = some_injective o o' (sym g ∙ ap (get_elem? history) same ∙ g') in
      let i = inl_injective inp o.input (sym cv ∙ v) in
      let j = inr_injective out o.output (sym rv ∙ v' ∙ ap (λ z. inr z.output) (sym q)) in
      (
        before,
        o,
        ap (get_elem? history) (id_at-some entries e call ae) ∙ g,
        subst (λ z. model.step before z o.output ≡ done (true, state)) i
            (subst (λ z. model.step before inp z ≡ done (true, state)) j st),
        Accepts-operations order before rest,
      )
    where
      as_call : I → I ⊎ O
      as_call a = inl a

      as_return : O → I ⊎ O
      as_return a = inr a

      inl_injective : (a b : I) → as_call a ≡ as_call b → a ≡ b
      inl_injective a b h = cc

      inr_injective : (a b : O) → as_return a ≡ as_return b → a ≡ b
      inr_injective a b h = cc

  Accepts-called :
      (m : ℕ) (ret : Entry I O) (time : ℕ) (order : List (ℕ × ℕ)) (state : S)
      → entry_at entries m ≡ some ret
      → ret.time ≡ some time
      → Accepts entries model order state
      → Precede order m
      → AreCalledBy history model (ids entries order) time
  Accepts-called m ret time [] state am t h p = tt
  Accepts-called m ret time ((e, m') ∷ order) state am t
        (before, call, ret', inp, out, ae, am', ck, rk, same, cv, rv, st, rest) (lt, p) =
      let (o, g, _, t') = call_of e call ae ck in
      (
        (
          o,
          ap (get_elem? history) (id_at-some entries e call ae) ∙ g,
          not_less-le ret call time o.call t t'
              (entry_at-IsSorted entries m e ret call sorted lt am ae),
        ),
        Accepts-called m ret time order before am t rest p,
      )

  -- Another call of an operation is not among the others.
  Accepts-once :
      (e : ℕ) (call : Entry I O) (order : List (ℕ × ℕ)) (state : S)
      → entry_at entries e ≡ some call
      → call.kind ≡ call_entry
      → Accepts entries model order state
      → call.id ∈ ids entries order
      → Uses order e
  Accepts-once e call [] state ae ck h k = k
  Accepts-once e call ((e', m') ∷ order) state ae ck
        (before, call', ret', inp, out, ae', am', ck', rk, same, cv, rv, st, rest) (inl q) =
      inl (
        inl (
          same_call (length entries / 2) entries e e' call call' is_history ae ae' ck ck'
            (q ∙ id_at-some entries e' call' ae')))
  Accepts-once e call ((e', m') ∷ order) state ae ck
        (before, call', ret', inp, out, ae', am', ck', rk, same, cv, rv, st, rest) (inr q) =
      inr (Accepts-once e call order before ae ck rest q)

  Accepts-KeepsTimes :
      (order : List (ℕ × ℕ)) (state : S)
      → Accepts entries model order state
      → IsOrder order
      → KeepsTimes history model (ids entries order)
  Accepts-KeepsTimes [] state h ordered = tt
  Accepts-KeepsTimes ((e, m) ∷ order) state
        (before, call, ret, inp, out, ae, am, ck, rk, same, cv, rv, st, rest)
        (fresh, _, precede, ordered) =
      let (o, g, _, t) = return_of m ret am rk in
      let q = id_at-some entries e call ae in
      (
        (
          o,
          ap (get_elem? history) (q ∙ same) ∙ g,
          Accepts-called m ret o.return_time order before am t rest precede,
        ),
        (λ k.
            fresh (
              Accepts-once e call order before ae ck rest
                (subst (λ z. z ∈ ids entries order) q k))),
        Accepts-KeepsTimes order before rest ordered,
      )

  Uses-ids :
      (p : ℕ) (x : Entry I O) (order : List (ℕ × ℕ)) (state : S)
      → entry_at entries p ≡ some x
      → x.kind ≡ call_entry
      → Accepts entries model order state
      → Uses order p
      → x.id ∈ ids entries order
  Uses-ids p x [] state a k h u = u
  Uses-ids p x ((e, m) ∷ order) state a k h (inl (inl q)) =
      inl (sym (ap (id_at entries) (sym q) ∙ id_at-some entries p x a))
  Uses-ids p x ((e, m) ∷ order) state a k
        (before, call, ret, inp, out, ae, am, ck, rk, same, cv, rv, st, rest) (inl (inr q)) =
      let s = some_injective x ret (sym a ∙ ap (entry_at entries) q ∙ am) in
      let z : call_entry ≡ return_entry = sym k ∙ ap (λ y. y.kind) s ∙ rk in absurd (cc)
  Uses-ids p x ((e, m) ∷ order) state a k
        (before, call, ret, inp, out, ae, am, ck, rk, same, cv, rv, st, rest) (inr u) =
      inr (Uses-ids p x order before a k rest u)

  -- A linearization of the sorted entries of a history is one of its operations.
  pub IsLinearizable-Linearizes : IsLinearizable entries model → Linearizes history model
  IsLinearizable-Linearizes l = record {
    order = ids entries l.order;
    state = l.state;
    accepts = Accepts-operations l.order l.state l.accepts;
    ordered = Accepts-KeepsTimes l.order l.state l.accepts l.ordered;
    complete = λ i lt.
        let called =
          HasCall-Reorders entries (entries_from 0 history) i
            (Reorders-sym (entries_from 0 history) entries reorders)
            (let z : 0 + i ≡ i = omega arith in
              subst (λ j. HasCall (entries_from 0 history) j) z
                (entries_from-HasCall 0 i history lt)) in
        let (p, x, a, k, q) = HasCall-entry_at entries i called in
        subst (λ j. j ∈ ids entries l.order) q
          (Uses-ids p x l.order l.state a k l.accepts (l.complete p (entry_at-lt entries p x a)));
  }
