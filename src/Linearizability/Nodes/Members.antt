-- ===== src/Linearizability/Nodes/Members.antt =====
-- linearizability/linearizability.go: the addresses in a list.
use distribution_system.Prelude.{ℕ, ◌≡◌, ◌⊎◌, inl, inr, List, [], ◌∷◌, ◌++◌}

infix 50 ◌∈◌
abbrev pub ◌∈◌ : ℕ → List ℕ → Type 0
q ∈ [] = ⊥
q ∈ (x ∷ xs) = (q ≡ x) ⊎ q ∈ xs

pub mem-left : (q : ℕ) (xs ys : List ℕ) → q ∈ xs → q ∈ (xs ++ ys)
mem-left q [] ys h = absurd h
mem-left q (x ∷ xs) ys (inl h) = inl h
mem-left q (x ∷ xs) ys (inr h) = inr (mem-left q xs ys h)

pub mem-right : (q : ℕ) (xs ys : List ℕ) → q ∈ ys → q ∈ (xs ++ ys)
mem-right q [] ys h = h
mem-right q (x ∷ xs) ys h = inr (mem-right q xs ys h)

pub mem-split : (q : ℕ) (xs ys : List ℕ) → q ∈ (xs ++ ys) → (q ∈ xs) ⊎ (q ∈ ys)
mem-split q [] ys h = inr h
mem-split q (x ∷ xs) ys (inl h) = inl (inl h)
mem-split q (x ∷ xs) ys (inr h) = elim (mem-split q xs ys h) [ inl l ↦ inl (inr l) | inr r ↦ inr r ]
