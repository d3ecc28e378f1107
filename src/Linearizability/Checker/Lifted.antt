-- ===== src/Linearizability/Checker/Lifted.antt =====
-- linearizability/linearizability.go: the invariant of the calls that checkSingle has taken.
use distribution_system.Prelude.{
  ℕ, ◌<◌, ◌≡◌, sym, subst, ◌∙◌, true, inl, inr, Option, none, some, List, [], ◌∷◌, ◌++◌, done,
}
use distribution_system.Linearizability.Model.{Model}
use distribution_system.Linearizability.Nodes.{Info}
use distribution_system.Linearizability.Nodes.Chain.{below, Falls-below, Falls}
use distribution_system.Linearizability.Nodes.Members.{◌∈◌}
use distribution_system.Linearizability.Nodes.Lifting.{Hangs}
use distribution_system.Linearizability.Checker.{as_input, as_output}
use distribution_system.Linearizability.Checker.Trail.{
  mem-below, Frame, full_of, rest_of, mem-rest_of, mem-full_of, Falls-rest_of, ret_out, call_out,
}

module _ {I O : Type 0} (info : ℕ → Option (Info I O)) (top : ℕ) where
  -- The node at `e` is a call whose return is the node at `m`.
  abbrev pub IsPair : ℕ → ℕ → Type 0
  IsPair e m = (i : Info I O) × (info e ≡ some i) × (i.match ≡ some m)

  abbrev pub IsReturn : ℕ → Type 0
  IsReturn m = (i : Info I O) × (info m ≡ some i) × (i.match ≡ none)

  -- All the addresses are those of calls.
  abbrev pub AreCalls : List ℕ → Type 0
  AreCalls [] = Unit
  AreCalls (x ∷ xs) = ((m : ℕ) × IsPair x m) × AreCalls xs

  -- Every node below `top` is known; a call has its return behind it; no two share one.
  pub record IsPaired : Type 0 where
    pub known : (p : ℕ) → p < top → (i : Info I O) × (info p ≡ some i)
    pub behind : (e m : ℕ) → IsPair e m → (m < e) × IsReturn m
    pub injective : (e e' m : ℕ) → IsPair e m → IsPair e' m → e ≡ e'

pub AreCalls-append :
    {I O : Type 0} (info : ℕ → Option (Info I O)) (top : ℕ) (xs : List ℕ) (e m : ℕ)
    → AreCalls info top xs
    → IsPair info top e m
    → AreCalls info top (xs ++ e ∷ [])
AreCalls-append info top [] e m h p = ((m, p), tt)
AreCalls-append info top (x ∷ xs) e m h p = (h.0, AreCalls-append info top xs e m h.1 p)

module _ {I O S : Type 0} (info : ℕ → Option (Info I O)) (top : ℕ) (model : Model I O S) where
  -- Step takes the call of the frame, with its return, from the frame's state to the next one.
  abbrev pub Steps : Frame S → S → Type 0
  Steps f next_state =
      (i j : Info I O) × (inp : I) × (out : O) × (info f.call ≡ some i)
      × (i.match ≡ some f.ret)
      × (info f.ret ≡ some j)
      × (as_input i.value ≡ done inp)
      × (as_output j.value ≡ done out)
      × (model.step f.state inp out ≡ done (true, next_state))

  -- The addresses still in the list.
  abbrev pub left : List (Frame S) → List ℕ
  left [] = below top
  left (f ∷ trail) = rest_of f

  -- From the initial state the calls of the trail, the latest first, lead to the state; each was
  -- taken when only calls stood before it; and its nodes point to where they were.
  abbrev pub Lifted : (ℕ → Option ℕ) → (ℕ → Option ℕ) → S → List (Frame S) → Type 0
  Lifted next prev state [] = state ≡ model.init
  Lifted next prev state (f ∷ trail) =
      Steps f state
      × AreCalls info top f.before
      × Falls top (full_of f)
      × Hangs top f.call f.ret f.before f.between f.behind next prev
      × (full_of f ≡ left trail)
      × Lifted next prev f.state trail

  pub Lifted-Falls :
      (next prev : ℕ → Option ℕ) (state : S) (trail : List (Frame S))
      → Lifted next prev state trail
      → Falls top (left trail)
  Lifted-Falls next prev state [] l = Falls-below top
  Lifted-Falls next prev state (f ∷ trail) l = Falls-rest_of top f l.2

  -- Nodes that are taken out keep their pointers as long as the writes go to others.
  pub Lifted-frame :
      (next prev next' prev' : ℕ → Option ℕ) (state : S) (trail : List (Frame S))
      → ((r : ℕ) → ¬ (r ∈ (top ∷ left trail)) → (next' r ≡ next r) × (prev' r ≡ prev r))
      → Lifted next prev state trail
      → Lifted next' prev' state trail
  Lifted-frame next prev next' prev' state [] keeps l = l
  Lifted-frame next prev next' prev' state (f ∷ trail) keeps l =
      let e = keeps f.call (call_out top f l.2) in
      let m = keeps f.ret (ret_out top f l.2) in
      (
        l.0,
        l.1,
        l.2,
        (e.1 ∙ l.3.0, e.0 ∙ l.3.1, m.1 ∙ l.3.2, m.0 ∙ l.3.3),
        l.4,
        Lifted-frame next prev next' prev' f.state trail
            (λ r out. keeps r (λ p. out (subst (λ xs. r ∈ (top ∷ xs)) l.4 (in_full r f p)))) l.5,
      )
    where
      in_full : (r : ℕ) (f : Frame S) → r ∈ (top ∷ rest_of f) → r ∈ (top ∷ full_of f)
      in_full r f (inl p) = inl p
      in_full r f (inr p) = inr (mem-rest_of r f p)

  -- The return of a call that is in the list is in the list too.
  pub return_left :
      IsPaired info top
      → (next prev : ℕ → Option ℕ) (state : S) (trail : List (Frame S)) (e m : ℕ)
      → Lifted next prev state trail
      → e ∈ left trail
      → IsPair info top e m
      → m < top
      → m ∈ left trail
  return_left paired next prev state [] e m l h p lt = mem-below top m lt
  return_left paired next prev state (f ∷ trail) e m l h p lt =
      let inside =
        return_left paired next prev f.state trail e m l.5
          (subst (λ xs. e ∈ xs) l.4 (mem-rest_of e f h)) p lt in
      elim (mem-full_of m f (subst (λ xs. m ∈ xs) (sym l.4) inside)) [
        | inl there ↦ there
        | inr (inl q) ↦
            let (i, a, b) = (paired.behind e m p).1 in
            let (i', _, _, _, a', b', _, _, _, _) = l.0 in let same : i ≡ i' = cc in absurd (cc)
        | inr (inr q) ↦
            let (i', _, _, _, a', b', _, _, _, _) = l.0 in
            let pair : IsPair info top f.call m = (i', a', rw q b') in
            let same = paired.injective e f.call m p pair in
            absurd (call_out top f l.2 (inr (subst (λ x. x ∈ rest_of f) same h)))
      ]
