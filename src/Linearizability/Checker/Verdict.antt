-- ===== src/Linearizability/Checker/Verdict.antt =====
-- linearizability/linearizability.go: what the answer of checkSingle says of the nodes.
use distribution_system.Prelude.{
  ℕ, suc, ◌+◌, ◌<◌, ◌≡◌, refl, sym, subst, ◌∙◌, Bool, true, false, ◌⊎◌, inl, inr, Option, some,
  List, [], ◌∷◌, ◌++◌, length, arith, done,
}
use distribution_system.Linearizability.Model.{Model}
use distribution_system.Linearizability.Nodes.{Info}
use distribution_system.Linearizability.Nodes.Chain.{Falls-behind}
use distribution_system.Linearizability.Nodes.Members.{◌∈◌, mem-left, mem-right, mem-split}
use distribution_system.Linearizability.Checker.{Search, as_input, as_output, search}
use distribution_system.Linearizability.Checker.Trail.{
  mem-below, lt_of_mem, Frame, rest_of, mem-rest_of, mem-full_of, ret_out, call_out,
}
use distribution_system.Linearizability.Checker.Lifted.{IsReturn, AreCalls, IsPaired, left, Lifted}
use distribution_system.Linearizability.Checker.Fits.{At, IsTotal}
use distribution_system.Linearizability.Checker.Rounds.{round-fails}
use distribution_system.Linearizability.Checker.Explore.{
  never, Leads, Complete, Won, Lost, head_next, explore,
}

-- The calls of a trail with their returns, the latest first.
abbrev pub order_of : {S : Type 0} → List (Frame S) → List (ℕ × ℕ)
order_of [] = []
order_of (f ∷ trail) = (f.call, f.ret) ∷ order_of trail

-- The node is one of those of the calls.
abbrev pub Uses : List (ℕ × ℕ) → ℕ → Type 0
Uses [] p = ⊥
Uses ((e, m) ∷ order) p = ((p ≡ e) ⊎ (p ≡ m)) ⊎ Uses order p

-- The calls return behind `e`'s start: an address falls with time.
abbrev pub Precede : List (ℕ × ℕ) → ℕ → Type 0
Precede [] m = Unit
Precede ((e, m') ∷ order) m = (m < e) × Precede order m

-- Every call is taken once, and none is taken after a call that starts when it has returned.
abbrev pub IsOrder : List (ℕ × ℕ) → Type 0
IsOrder [] = Unit
IsOrder ((e, m) ∷ order) = ¬ Uses order e × ¬ Uses order m × Precede order m × IsOrder order

module _ {I O S : Type 0} (info : ℕ → Option (Info I O)) (top : ℕ) (model : Model I O S) where
  -- Step takes the calls one after the other, from the initial state to `state`.
  abbrev pub Runs : List (ℕ × ℕ) → S → Type 0
  Runs [] state = state ≡ model.init
  Runs ((e, m) ∷ order) state =
      (before : S) × (i j : Info I O) × (inp : I) × (out : O) × (info e ≡ some i)
      × (i.match ≡ some m)
      × (info m ≡ some j)
      × (as_input i.value ≡ done inp)
      × (as_output j.value ≡ done out)
      × (model.step before inp out ≡ done (true, state))
      × Runs order before

  -- The calls in an order in which the model takes them.
  pub record NodesLinearizable : Type 0 where
    pub order : List (ℕ × ℕ)
    pub state : S
    pub runs : Runs order state
    pub ordered : IsOrder order
    pub complete : (p : ℕ) → p < top → Uses order p

  order_of-Runs :
      (next prev : ℕ → Option ℕ) (state : S) (trail : List (Frame S))
      → Lifted info top model next prev state trail
      → Runs (order_of trail) state
  order_of-Runs next prev state [] l = l
  order_of-Runs next prev state (f ∷ trail) l =
      let (i, j, inp, out, a, b, c, d, e, g) = l.0 in
      (f.state, i, j, inp, out, a, b, c, d, e, g, order_of-Runs next prev f.state trail l.5)

  -- A node is in the list, or one of a call that is taken.
  left_or_used :
      (next prev : ℕ → Option ℕ) (state : S) (trail : List (Frame S)) (p : ℕ)
      → Lifted info top model next prev state trail
      → p < top
      → (p ∈ left info top model trail) ⊎ Uses (order_of trail) p
  left_or_used next prev state [] p l lt = inl (mem-below top p lt)
  left_or_used next prev state (f ∷ trail) p l lt =
      elim (left_or_used next prev f.state trail p l.5 lt) [
        | inr u ↦ inr (inr u)
        | inl inside ↦ elim (mem-full_of p f (subst (λ xs. p ∈ xs) (sym l.4) inside)) [
          | inl r ↦ inl r
          | inr (inl e) ↦ inr (inl (inl e))
          | inr (inr m) ↦ inr (inl (inr m))
        ]
      ]

  -- And not both.
  used_out :
      (next prev : ℕ → Option ℕ) (state : S) (trail : List (Frame S)) (p : ℕ)
      → Lifted info top model next prev state trail
      → p ∈ left info top model trail
      → ¬ Uses (order_of trail) p
  used_out next prev state [] p l h u = u
  used_out next prev state (f ∷ trail) p l h (inl (inl e)) =
      call_out top f l.2 (inr (subst (λ x. x ∈ rest_of f) e h))
  used_out next prev state (f ∷ trail) p l h (inl (inr e)) =
      ret_out top f l.2 (inr (subst (λ x. x ∈ rest_of f) e h))
  used_out next prev state (f ∷ trail) p l h (inr u) =
      used_out next prev f.state trail p l.5 (subst (λ xs. p ∈ xs) l.4 (mem-rest_of p f h)) u

  calls_not-IsReturn : (xs : List ℕ) (m : ℕ) → AreCalls info top xs → m ∈ xs → ¬ IsReturn info top m
  calls_not-IsReturn [] m h p r = p
  calls_not-IsReturn (x ∷ xs) m h (inl q) (j, jm, jn) =
      let (_, (i, ie, im)) = h.0 in let same : i ≡ j = cc in absurd (cc)
  calls_not-IsReturn (x ∷ xs) m h (inr p) r = calls_not-IsReturn xs m h.1 p r

  ret_behind :
      (next prev : ℕ → Option ℕ) (state : S) (trail : List (Frame S)) (m : ℕ)
      → Lifted info top model next prev state trail
      → m ∈ left info top model trail
      → IsReturn info top m
      → Precede (order_of trail) m
  ret_behind next prev state [] m l h r = tt
  ret_behind next prev state (f ∷ trail) m l h r = (
    elim (mem-split m f.before (f.between ++ f.behind) h) [
      | inl p ↦ absurd (calls_not-IsReturn f.before m l.1 p r)
      | inr p ↦
          let (_, falls) = Falls-behind top f.call f.before (f.between ++ f.ret ∷ f.behind) l.2 in
          lt_of_mem f.call m (f.between ++ f.ret ∷ f.behind) falls
            (elim (mem-split m f.between f.behind p) [
              | inl q ↦ mem-left m f.between (f.ret ∷ f.behind) q
              | inr q ↦ mem-right m f.between (f.ret ∷ f.behind) (inr q)
            ])
    ],
    ret_behind next prev f.state trail m l.5 (subst (λ xs. m ∈ xs) l.4 (mem-rest_of m f h)) r,
  )

  order_of-IsOrder :
      IsPaired info top
      → (next prev : ℕ → Option ℕ) (state : S) (trail : List (Frame S))
      → Lifted info top model next prev state trail
      → IsOrder (order_of trail)
  order_of-IsOrder paired next prev state [] l = tt
  order_of-IsOrder paired next prev state (f ∷ trail) l =
      let (i, _, _, _, a, b, _, _, _, _) = l.0 in
      let call_in : f.call ∈ left info top model trail =
        subst (λ xs. f.call ∈ xs) l.4
          (mem-right f.call f.before (f.call ∷ (f.between ++ f.ret ∷ f.behind)) (inl refl)) in
      let ret_in : f.ret ∈ left info top model trail =
        subst (λ xs. f.ret ∈ xs) l.4
          (mem-right f.ret f.before (f.call ∷ (f.between ++ f.ret ∷ f.behind))
            (inr (mem-right f.ret f.between (f.ret ∷ f.behind) (inl refl)))) in
      (
        used_out next prev f.state trail f.call l.5 call_in,
        used_out next prev f.state trail f.ret l.5 ret_in,
        ret_behind next prev f.state trail f.ret l.5 ret_in
            (paired.behind f.call f.ret (i, a, b)).1,
        order_of-IsOrder paired next prev f.state trail l.5,
      )

  pub Complete-NodesLinearizable : IsPaired info top → Complete info top model → NodesLinearizable
  Complete-NodesLinearizable paired c = record {
    order = order_of c.trail;
    state = c.state;
    runs = order_of-Runs c.next c.prev c.state c.trail c.lifted;
    ordered = order_of-IsOrder paired c.next c.prev c.state c.trail c.lifted;
    complete = λ p lt. elim (left_or_used c.next c.prev c.state c.trail p c.lifted lt) [
      | inl inside ↦ absurd (subst (λ xs. p ∈ xs) c.all inside)
      | inr used ↦ used
    ];
  }

module _ {I O S : Type 0} (info : ℕ → Option (Info I O)) (top words : ℕ) (model : Model I O S)
    (equal : S → S → Bool) (paired : IsPaired info top) (total : IsTotal info top words model) where
  -- The search comes to an end, and true stands for an order of the calls.
  abbrev pub Verdict : Search I O S → Type 0
  Verdict c =
      (answer : Bool) × (k : ℕ) × ((n : ℕ)
        → search model equal never (k + n) c ≡ done (some answer))
      × (answer ≡ true → NodesLinearizable info top model)

  Won-Verdict : (c : Search I O S) → Won info top words model equal paired total c → Verdict c
  unfolding Won Leads search
  Won-Verdict c (c', (k, f), h, complete) = (
    true,
    k + 1,
    λ n. f (suc n) (k + 1 + n) (omega arith) ∙ rw (search, h) refl,
    λ yes. Complete-NodesLinearizable info top model paired complete,
  )

  Lost-Verdict : (c : Search I O S) → Lost info top words model equal paired total c [] → Verdict c
  unfolding Lost Leads search
  Lost-Verdict c (c', pre, e, post, (k, f), at, r) =
      let (x, h) = head_next info top words model equal paired total c' [] pre e post at in
      (
        false,
        k + 1,
        λ n.
            f (suc n) (k + 1 + n) (omega arith)
            ∙ rw (search, h, round-fails info top words model equal paired total c' pre e post at r)
                refl,
        λ q. absurd (cc),
      )

  pub search-Verdict :
      (c : Search I O S) (e : ℕ) (post : List ℕ)
      → At info top words model c [] [] e post
      → Verdict c
  search-Verdict c e post at =
      elim (explore info top words model equal paired total (length (left info top model [])) post c
        [] [] e at (omega arith)) [ inl won ↦ Won-Verdict c won | inr lost ↦ Lost-Verdict c lost ]
