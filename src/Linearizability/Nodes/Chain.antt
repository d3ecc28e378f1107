-- ===== src/Linearizability/Nodes/Chain.antt =====
-- linearizability/linearizability.go: taking a node out of a doubly linked list, and putting it back.
-- A node that was made later has the larger address and stands in front.
use distribution_system.Prelude.{
  ℕ, zero, suc, ◌≤◌, ◌<◌, ◌≡◌, ◌≢◌, refl, ◌∙◌, Option, none, some, List, [], ◌∷◌, ◌++◌, arith,
}
use distribution_system.Linearizability.Nodes.{update}

-- Addresses that fall from `p`, which stands in front of them.
abbrev pub Falls : ℕ → List ℕ → Type 0
Falls p [] = Unit
Falls p (x ∷ xs) = (x < p) × Falls x xs

-- The addresses below `n`, the largest first.
abbrev pub below : ℕ → List ℕ
below zero = []
below (suc n) = n ∷ below n

pub Falls-below : (n : ℕ) → Falls n (below n)
Falls-below zero = tt
Falls-below (suc n) = (omega arith, Falls-below n)

-- The last of the addresses behind `p`, or `p`, and the first of them.
abbrev pub end_of : ℕ → List ℕ → ℕ
end_of p [] = p
end_of p (x ∷ xs) = end_of x xs

abbrev pub first_of : List ℕ → Option ℕ
first_of [] = none
first_of (x ∷ xs) = some x

-- The fields link `p` and the addresses behind it in both directions.
abbrev pub Links : (ℕ → Option ℕ) → (ℕ → Option ℕ) → ℕ → List ℕ → Type 0
Links next prev p [] = next p ≡ none
Links next prev p (x ∷ xs) = (next p ≡ some x) × (prev x ≡ some p) × Links next prev x xs

-- A write to the field of the node that a pointer points to, if it is not nil.
abbrev pub update_at : (ℕ → Option ℕ) → Option ℕ → Option ℕ → ℕ → Option ℕ
update_at f none v = f
update_at f (some k) v = update f k v

pub update_self {ℓ} : {A : Type ℓ} (f : ℕ → A) (p : ℕ) (v : A) → update f p v p ≡ v
update_self f p v = ground arith

pub update_ne {ℓ} : {A : Type ℓ} (f : ℕ → A) (p q : ℕ) (v : A) → p ≢ q → update f p v q ≡ f q
update_ne f p q v h = ground arith

pub end_of-le : (p : ℕ) (xs : List ℕ) → Falls p xs → end_of p xs ≤ p
end_of-le p [] f = omega arith
end_of-le p (x ∷ xs) f = omega (arith, end_of-le x xs f.1)

pub Links-frame :
    (next prev next' prev' : ℕ → Option ℕ) (p : ℕ) (xs : List ℕ)
    → Falls p xs
    → ((r : ℕ) → r ≤ p → next' r ≡ next r)
    → ((r : ℕ) → r < p → prev' r ≡ prev r)
    → Links next prev p xs
    → Links next' prev' p xs
Links-frame next prev next' prev' p [] f n q l = n p (omega arith) ∙ l
Links-frame next prev next' prev' p (x ∷ xs) f n q l = (
  n p (omega arith) ∙ l.0,
  q x f.0 ∙ l.1,
  Links-frame next prev next' prev' x xs f.1 (λ r h. n r (omega arith)) (λ r h. q r (omega arith))
      l.2,
)

pub Falls-drop : (p q : ℕ) (a c : List ℕ) → Falls p (a ++ q ∷ c) → Falls p (a ++ c)
Falls-drop p q [] [] f = tt
Falls-drop p q [] (x ∷ c) f = (omega arith, f.1.1)
Falls-drop p q (y ∷ a) c f = (f.0, Falls-drop y q a c f.1)

pub Falls-front : (p : ℕ) (a c : List ℕ) → Falls p (a ++ c) → Falls p a
Falls-front p [] c f = tt
Falls-front p (y ∷ a) c f = (f.0, Falls-front y a c f.1)

-- Behind a list, everything is smaller.
pub Falls-behind : (p q : ℕ) (a c : List ℕ) → Falls p (a ++ q ∷ c) → (q < end_of p a) × Falls q c
Falls-behind p q [] c f = f
Falls-behind p q (y ∷ a) c f = Falls-behind y q a c f.1

-- The first address behind `q` is none of those from `q` on.
pub update_at_ne :
    (f : ℕ → Option ℕ) (q r : ℕ) (c : List ℕ) (v : Option ℕ)
    → Falls q c
    → q ≤ r
    → update_at f (first_of c) v r ≡ f r
update_at_ne f q r [] v h le = refl
update_at_ne f q r (x ∷ c) v h le = update_ne f x r v (λ e. absurd (omega arith))

-- Reading the fields of a node in the list.
pub next-Links :
    (next prev : ℕ → Option ℕ) (p q : ℕ) (a c : List ℕ)
    → Links next prev p (a ++ q ∷ c)
    → next q ≡ first_of c
next-Links next prev p q [] [] l = l.2
next-Links next prev p q [] (x ∷ c) l = l.2.0
next-Links next prev p q (y ∷ a) c l = next-Links next prev y q a c l.2

pub prev-Links :
    (next prev : ℕ → Option ℕ) (p q : ℕ) (a c : List ℕ)
    → Links next prev p (a ++ q ∷ c)
    → prev q ≡ some (end_of p a)
prev-Links next prev p q [] c l = l.1
prev-Links next prev p q (y ∷ a) c l = prev-Links next prev y q a c l.2

module _ (next prev : ℕ → Option ℕ) where
  -- p.next = q.next; if q.next != nil { q.next.prev = p }
  cut-Links_here :
      (p q : ℕ) (c : List ℕ)
      → Falls p (q ∷ c)
      → Links next prev p (q ∷ c)
      → Links (update next p (first_of c)) (update_at prev (first_of c) (some p)) p c
  cut-Links_here p q [] f l = update_self next p none
  cut-Links_here p q (x ∷ c) f l = (
    update_self next p (some x),
    update_self prev x (some p),
    Links-frame next prev (update next p (some x)) (update prev x (some p)) x c f.1.1
        (λ r h. update_ne next p r (some x) (λ e. absurd (omega arith)))
        (λ r h. update_ne prev x r (some p) (λ e. absurd (omega arith))) l.2.2,
  )

module _ (next prev : ℕ → Option ℕ) where
  pub cut-Links :
      (p q : ℕ) (a c : List ℕ)
      → Falls p (a ++ q ∷ c)
      → Links next prev p (a ++ q ∷ c)
      → Links
          (update next (end_of p a) (first_of c))
          (update_at prev (first_of c) (some (end_of p a)))
          p
          (a ++ c)
  cut-Links p q [] c f l = cut-Links_here next prev p q c f l
  cut-Links p q (y ∷ a) c f l =
      let le = end_of-le y a (Falls-front y a (q ∷ c) f.1) in
      let (lt, g) = Falls-behind y q a c f.1 in
      (
        update_ne next (end_of y a) p (first_of c) (λ e. absurd (omega arith)) ∙ l.0,
        update_at_ne prev q y c (some (end_of y a)) g (omega arith) ∙ l.1,
        cut-Links y q a c f.1 l.2,
      )

  -- p.next = q; if q.next != nil { q.next.prev = q }
  join-Links_here :
      (p q : ℕ) (c : List ℕ)
      → Falls p (q ∷ c)
      → next q ≡ first_of c
      → prev q ≡ some p
      → Links next prev p c
      → Links (update next p (some q)) (update_at prev (first_of c) (some q)) p (q ∷ c)
  join-Links_here p q [] f n b l =
      (update_self next p (some q), b, update_ne next p q (some q) (λ e. absurd (omega arith)) ∙ n)
  join-Links_here p q (x ∷ c) f n b l = (
    update_self next p (some q),
    update_ne prev x q (some q) (λ e. absurd (omega arith)) ∙ b,
    (
      update_ne next p q (some q) (λ e. absurd (omega arith)) ∙ n,
      update_self prev x (some q),
      Links-frame next prev (update next p (some q)) (update prev x (some q)) x c f.1.1
          (λ r h. update_ne next p r (some q) (λ e. absurd (omega arith)))
          (λ r h. update_ne prev x r (some q) (λ e. absurd (omega arith))) l.2,
    ),
  )

  pub join-Links :
      (p q : ℕ) (a c : List ℕ)
      → Falls p (a ++ q ∷ c)
      → next q ≡ first_of c
      → prev q ≡ some (end_of p a)
      → Links next prev p (a ++ c)
      → Links
          (update next (end_of p a) (some q))
          (update_at prev (first_of c) (some q))
          p
          (a ++ q ∷ c)
  join-Links p q [] c f n b l = join-Links_here p q c f n b l
  join-Links p q (y ∷ a) c f n b l =
      let le = end_of-le y a (Falls-front y a (q ∷ c) f.1) in
      let (lt, g) = Falls-behind y q a c f.1 in
      (
        update_ne next (end_of y a) p (some q) (λ e. absurd (omega arith)) ∙ l.0,
        update_at_ne prev q y c (some q) g (omega arith) ∙ l.1,
        join-Links y q a c f.1 n b l.2,
      )
