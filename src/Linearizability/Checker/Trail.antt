-- ===== src/Linearizability/Checker/Trail.antt =====
-- linearizability/linearizability.go: what holds of the list and of the calls taken out of it.
use distribution_system.Prelude.{
  ℕ, zero, suc, ◌<◌, ◌≡◌, refl, sym, ap, ◌⊎◌, inl, inr, List, [], ◌∷◌, ◌++◌, arith,
}
use mathlib.Core.List.{append_assoc}
use distribution_system.Linearizability.Nodes.Chain.{below, Falls, Falls-drop}
use distribution_system.Linearizability.Nodes.Members.{◌∈◌, mem-left, mem-right, mem-split}

pub mem-below : (n q : ℕ) → q < n → q ∈ below n
mem-below zero q h = absurd (omega arith)
mem-below (suc n) q h = ground (arith, mem-below n q)

pub lt_of_mem : (p q : ℕ) (xs : List ℕ) → Falls p xs → q ∈ xs → q < p
lt_of_mem p q [] f h = absurd h
lt_of_mem p q (x ∷ xs) f (inl h) = omega arith
lt_of_mem p q (x ∷ xs) f (inr h) = let lt = lt_of_mem x q xs f.1 h in omega arith

-- An address stands in a list once.
not-mem : (p q : ℕ) (a c : List ℕ) → Falls p (a ++ q ∷ c) → ¬ (q ∈ (p ∷ (a ++ c)))
not-mem p q [] c f (inl h) = omega arith
not-mem p q [] c f (inr h) = let lt = lt_of_mem q q c f.1 h in omega arith
not-mem p q (y ∷ a) c f (inl h) =
    let lt = lt_of_mem y q (a ++ q ∷ c) f.1 (mem-right q a (q ∷ c) (inl refl)) in omega arith
not-mem p q (y ∷ a) c f (inr h) = not-mem y q a c f.1 h

pub mem_splits : (q : ℕ) (xs : List ℕ) → q ∈ xs → (b c : List ℕ) × (xs ≡ b ++ q ∷ c)
mem_splits q [] h = absurd h
mem_splits q (x ∷ xs) (inl h) = ([], xs, ap (λ y. y ∷ xs) (sym h))
mem_splits q (x ∷ xs) (inr h) = let (b, c, e) = mem_splits q xs h in (x ∷ b, c, ap (◌∷◌ x) e)

-- A call taken out of the list: the state before it, and what stood before it, between it and its
-- return, and behind that.
pub record Frame (S : Type 0) : Type 0 where
  pub before : List ℕ
  pub call : ℕ
  pub between : List ℕ
  pub ret : ℕ
  pub behind : List ℕ
  pub state : S

abbrev pub full_of : {S : Type 0} → Frame S → List ℕ
full_of f = f.before ++ f.call ∷ (f.between ++ f.ret ∷ f.behind)

abbrev pub rest_of : {S : Type 0} → Frame S → List ℕ
rest_of f = f.before ++ (f.between ++ f.behind)

pub mem-rest_of : {S : Type 0} (q : ℕ) (f : Frame S) → q ∈ rest_of f → q ∈ full_of f
mem-rest_of q f p = elim (mem-split q f.before (f.between ++ f.behind) p) [
  | inl l ↦ mem-left q f.before (f.call ∷ (f.between ++ f.ret ∷ f.behind)) l
  | inr r ↦ mem-right q f.before (f.call ∷ (f.between ++ f.ret ∷ f.behind)) (
      inr (elim (mem-split q f.between f.behind r) [
        | inl l ↦ mem-left q f.between (f.ret ∷ f.behind) l
        | inr r' ↦ mem-right q f.between (f.ret ∷ f.behind) (inr r')
      ]))
]

pub mem-full_of :
    {S : Type 0} (q : ℕ) (f : Frame S)
    → q ∈ full_of f
    → (q ∈ rest_of f) ⊎ ((q ≡ f.call) ⊎ (q ≡ f.ret))
mem-full_of q f p = elim (mem-split q f.before (f.call ∷ (f.between ++ f.ret ∷ f.behind)) p) [
  | inl l ↦ inl (mem-left q f.before (f.between ++ f.behind) l)
  | inr (inl e) ↦ inr (inl e)
  | inr (inr r) ↦ elim (mem-split q f.between (f.ret ∷ f.behind) r) [
    | inl l ↦ inl (mem-right q f.before (f.between ++ f.behind) (mem-left q f.between f.behind l))
    | inr (inl e) ↦ inr (inr e)
    | inr (inr b) ↦
        inl (mem-right q f.before (f.between ++ f.behind) (mem-right q f.between f.behind b))
  ]
]

module _ {S : Type 0} (top : ℕ) (f : Frame S) (falls : Falls top (full_of f)) where
  ret-Falls : Falls top ((f.before ++ f.between) ++ f.ret ∷ f.behind)
  ret-Falls =
      rw (append_assoc f.before f.between (f.ret ∷ f.behind))
        (Falls-drop top f.call f.before (f.between ++ f.ret ∷ f.behind) falls)

  pub Falls-rest_of : Falls top (rest_of f)
  Falls-rest_of =
      rw (sym (append_assoc f.before f.between f.behind))
        (Falls-drop top f.ret (f.before ++ f.between) f.behind ret-Falls)

  pub ret_out : ¬ (f.ret ∈ (top ∷ rest_of f))
  ret_out =
      rw (sym (append_assoc f.before f.between f.behind))
        (not-mem top f.ret (f.before ++ f.between) f.behind ret-Falls)

  pub call_out : ¬ (f.call ∈ (top ∷ rest_of f))
  call_out (inl h) = not-mem top f.call f.before (f.between ++ f.ret ∷ f.behind) falls (inl h)
  call_out (inr h) =
      let p : f.call ∈ (f.before ++ (f.between ++ f.ret ∷ f.behind)) =
        elim (mem-split f.call f.before (f.between ++ f.behind) h) [
          | inl l ↦ mem-left f.call f.before (f.between ++ f.ret ∷ f.behind) l
          | inr r ↦
              mem-right f.call f.before (f.between ++ f.ret ∷ f.behind)
                (elim (mem-split f.call f.between f.behind r) [
                  | inl l ↦ mem-left f.call f.between (f.ret ∷ f.behind) l
                  | inr r' ↦ mem-right f.call f.between (f.ret ∷ f.behind) (inr r')
                ])
        ] in
      not-mem top f.call f.before (f.between ++ f.ret ∷ f.behind) falls (inr p)
