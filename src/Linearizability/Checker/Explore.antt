-- ===== src/Linearizability/Checker/Explore.antt =====
-- linearizability/linearizability.go: the loop of checkSingle ends, with true only behind a trail that
-- has all calls.
use distribution_system.Prelude.{
  ℕ, zero, suc, ◌+◌, ◌≤◌, ◌≡◌, refl, sym, subst, ◌∙◌, ap, Bool, false, ◌⊎◌, inl, inr, Option, none,
  some, Option-cases, List, [], ◌∷◌, ◌++◌, length, length-append, arith, done,
}
use distribution_system.Linearizability.Model.{Model}
use distribution_system.Linearizability.Nodes.{Info}
use distribution_system.Linearizability.Nodes.Chain.{Falls, first_of, Links}
use distribution_system.Linearizability.Nodes.Members.{mem-right}
use distribution_system.Linearizability.Checker.{Search, goes_on, round, search}
use distribution_system.Linearizability.Checker.Trail.{Frame, full_of, rest_of, lt_of_mem}
use distribution_system.Linearizability.Checker.Lifted.{
  IsReturn, IsPaired, left, Lifted, Lifted-Falls,
}
use distribution_system.Linearizability.Checker.Fits.{Fits, At, IsTotal, uncons_at}
use distribution_system.Linearizability.Checker.Rounds.{round-pops, round-calls}

-- Nobody sets the kill flag.
abbrev pub never : ℕ → Bool
never rounds = false

next-first :
    (next prev : ℕ → Option ℕ) (p : ℕ) (xs : List ℕ) → Links next prev p xs → next p ≡ first_of xs
next-first next prev p [] l = l
next-first next prev p (x ∷ xs) l = l.0

length-rest_of : {S : Type 0} (f : Frame S) → length (rest_of f) + 2 ≡ length (full_of f)
length-rest_of f = omega (
  arith,
  length-append f.before (f.between ++ f.behind),
  length-append f.between f.behind,
  length-append f.before (f.call ∷ (f.between ++ f.ret ∷ f.behind)),
  length-append f.between (f.ret ∷ f.behind),
)

cons_injective : {A : Type 0} (x y : A) (xs ys : List A) → x ∷ xs ≡ y ∷ ys → (x ≡ y) × (xs ≡ ys)
cons_injective x y xs ys h = (cc, cc)

list_cases : {A : Type 0} (xs : List A) → (xs ≡ []) ⊎ ((x : A) × (ys : List A) × (xs ≡ x ∷ ys))
list_cases [] = inl refl
list_cases (x ∷ xs) = inr (x, xs, refl)

module _ {I O S : Type 0} (model : Model I O S) (equal : S → S → Bool) where
  -- Some rounds lead from one search to another.
  unfoldable pub Leads : Search I O S → Search I O S → Type 0
  Leads c c' =
      (k : ℕ) × ((n m : ℕ)
        → m ≡ k + n
        → search model equal never m c ≡ search model equal never n c')

  here : (c : Search I O S) → Leads c c
  unfolding Leads
  here c = (0, λ n m e. let q : m ≡ n = omega arith in ap (λ x. search model equal never x c) q)

  Leads-on : (c c' c'' : Search I O S) → Leads c c' → Leads c' c'' → Leads c c''
  unfolding Leads
  Leads-on c c' c'' (k, f) (l, g) = (k + l, λ n m e. f (l + n) m (omega arith) ∙ g n (l + n) refl)

  Leads-once :
      (c c' : Search I O S) (x : ℕ)
      → c.store.next c.head_entry ≡ some x
      → round model equal c ≡ done (goes_on c')
      → Leads c c'
  unfolding Leads search
  Leads-once c c' x h r =
      (1, λ n m e. let q : m ≡ suc n = omega arith in rw (q) (rw (search, h, r) refl))

-- A trail that has all calls.
pub record Complete {I O S : Type 0} (info : ℕ → Option (Info I O)) (top : ℕ) (model : Model I O S)
    : Type 0 where
  pub trail : List (Frame S)
  pub next : ℕ → Option ℕ
  pub prev : ℕ → Option ℕ
  pub state : S
  pub lifted : Lifted info top model next prev state trail
  pub all : left info top model trail ≡ []

module _ {I O S : Type 0} (info : ℕ → Option (Info I O)) (top words : ℕ) (model : Model I O S)
    (equal : S → S → Bool) (paired : IsPaired info top) (total : IsTotal info top words model) where
  -- The search answers with true.
  unfoldable pub Won : Search I O S → Type 0
  Won c =
      (c' : Search I O S) × Leads model equal c c'
      × (c'.store.next c'.head_entry ≡ none)
      × Complete info top model

  -- The search comes back to a return with the same calls.
  unfoldable pub Lost : Search I O S → List (Frame S) → Type 0
  Lost c trail =
      (c' : Search I O S) × (pre : List ℕ) × (e : ℕ) × (post : List ℕ) × Leads model equal c c'
      × At info top words model c' trail pre e post
      × IsReturn info top e

  pub head_next :
      (c : Search I O S) (trail : List (Frame S)) (pre : List ℕ) (e : ℕ) (post : List ℕ)
      → At info top words model c trail pre e post
      → (x : ℕ) × (c.store.next c.head_entry ≡ some x)
  head_next c trail pre e post at =
      let (x, xs, s) = uncons_at pre post e in
      (
        x,
        ap c.store.next at.fits.head_eq
            ∙ next-first c.store.next c.store.prev top (left info top model trail) at.fits.links
            ∙ ap first_of (at.left_eq ∙ s),
      )

  Won-Leads : (c c' : Search I O S) → Leads model equal c c' → Won c' → Won c
  unfolding Won
  Won-Leads c c' l (c'', l', n, w) = (c'', Leads-on model equal c c' c'' l l', n, w)

  Lost-Leads :
      (c c' : Search I O S) (trail : List (Frame S))
      → Leads model equal c c'
      → Lost c' trail
      → Lost c trail
  unfolding Lost
  Lost-Leads c c' trail l (c'', pre, e, post, l', a, r) =
      (c'', pre, e, post, Leads-on model equal c c' c'' l l', a, r)

  -- What is known of the searches behind the call that `f` takes.
  abbrev Deeper : List (Frame S) → Type 0
  Deeper trail =
      (c' : Search I O S) (f : Frame S) (x : ℕ) (post' : List ℕ)
      → At info top words model c' (f ∷ trail) [] x post'
      → length (left info top model (f ∷ trail)) + 2 ≡ length (left info top model trail)
      → Won c' ⊎ Lost c' (f ∷ trail)

  -- What is known of the searches that go on at the first address of `post`.
  abbrev Onward : List (Frame S) → List ℕ → Type 0
  Onward trail post =
      (c' : Search I O S) (pre' : List ℕ) (x : ℕ) (post' : List ℕ)
      → post ≡ x ∷ post'
      → At info top words model c' trail pre' x post'
      → Won c' ⊎ Lost c' trail

  explore-Leads :
      (c c' : Search I O S) (trail : List (Frame S))
      → Leads model equal c c'
      → Won c' ⊎ Lost c' trail
      → Won c ⊎ Lost c trail
  explore-Leads c c' trail l (inl w) = inl (Won-Leads c c' l w)
  explore-Leads c c' trail l (inr w) = inr (Lost-Leads c c' trail l w)

  -- A call is taken: the rest is searched, and if that fails the call is put back.
  explore_taken :
      (c' : Search I O S) (f : Frame S) (trail : List (Frame S)) (post : List ℕ)
      → Fits info top words model c' (f ∷ trail)
      → c'.entry ≡ c'.store.next c'.head_entry
      → post ≡ f.between ++ f.ret ∷ f.behind
      → Deeper trail
      → Onward trail post
      → Won c' ⊎ Lost c' trail
  unfolding Won Lost
  explore_taken c' f trail post fits entry_eq post_eq deeper onward =
      let first =
        ap c'.store.next fits.head_eq
        ∙ next-first c'.store.next c'.store.prev top (rest_of f) fits.links in
      elim (list_cases (rest_of f)) [
        | inl q ↦ inl (
          c',
          here model equal c',
          first ∙ ap first_of q,
          record {
            trail = f ∷ trail;
            next = c'.store.next;
            prev = c'.store.prev;
            state = c'.state;
            lifted = fits.lifted;
            all = q;
          },
        )
        | inr (x, r, q) ↦
            let at' : At info top words model c' (f ∷ trail) [] x r = record {
              fits = fits;
              entry_eq = entry_eq ∙ first ∙ ap first_of q;
              left_eq = q;
              passed = tt;
            } in
            elim (deeper c' f x r at' (length-rest_of f ∙ ap length fits.lifted.4)) [
              | inl w ↦ inl w
              | inr (c2, pre2, e2, post2, l2, at2, ret2) ↦
                  let (x2, h2) = head_next c2 (f ∷ trail) pre2 e2 post2 at2 in
                  let (c3, y, post3, run, q3, at3) =
                    round-pops info top words model equal paired total c2 f trail pre2 e2 post2 at2
                      ret2 in
                  explore-Leads c' c3 trail
                    (Leads-on model equal c' c2 c3 l2 (Leads-once model equal c2 c3 x2 h2 run))
                    (onward c3 (f.before ++ f.call ∷ []) y post3 (post_eq ∙ q3) at3)
            ]
      ]

  explore_one :
      (c : Search I O S) (trail : List (Frame S)) (pre : List ℕ) (e : ℕ) (post : List ℕ)
      → At info top words model c trail pre e post
      → Deeper trail
      → Onward trail post
      → Won c ⊎ Lost c trail
  unfolding Lost
  explore_one c trail pre e post at deeper onward =
      let falls =
        subst (Falls top) at.left_eq
          (Lifted-Falls info top model c.store.next c.store.prev c.state trail at.fits.lifted) in
      let (i, ie) =
        paired.known e
          (lt_of_mem top e (pre ++ e ∷ post) falls (mem-right e pre (e ∷ post) (inl refl))) in
      elim (Option-cases i.match) [
        | inl im ↦ inr (c, pre, e, post, here model equal c, at, (i, ie, im))
        | inr (m, im) ↦
            let (c', run, ends) =
              round-calls info top words model equal paired total c trail pre e post m at
                (i, ie, im) in
            let (x, h) = head_next c trail pre e post at in
            explore-Leads c c' trail (Leads-once model equal c c' x h run) (elim ends [
              | inl (y, post', q, at') ↦ onward c' (pre ++ e ∷ []) y post' q at'
              | inr (f, fits, entry_eq, q1, q2, q3) ↦
                  explore_taken c' f trail post fits entry_eq q3 deeper onward
            ])
      ]

  At-same :
      (c : Search I O S) (trail : List (Frame S)) (pre : List ℕ) (x y : ℕ) (r post : List ℕ)
      → y ∷ post ≡ x ∷ r
      → At info top words model c trail pre x r
      → At info top words model c trail pre x post
  At-same c trail pre x y r post q at =
      subst (λ xs. At info top words model c trail pre x xs) (sym (cons_injective y x post r q).1)
        at

  pub explore :
      (n : ℕ) (post : List ℕ) (c : Search I O S) (trail : List (Frame S)) (pre : List ℕ) (e : ℕ)
      → At info top words model c trail pre e post
      → length (left info top model trail) ≤ n
      → Won c ⊎ Lost c trail
  explore zero [] c trail pre e at le =
      explore_one c trail pre e [] at (λ c' f x r at' q. absurd (omega arith))
        (λ c' pre' x r q at'. absurd (cc))
  explore (suc n) [] c trail pre e at le =
      explore_one c trail pre e [] at
        (λ c' f x r at' q. explore n r c' (f ∷ trail) [] x at' (omega arith))
        (λ c' pre' x r q at'. absurd (cc))
  explore zero (y ∷ post) c trail pre e at le =
      explore_one c trail pre e (y ∷ post) at (λ c' f x r at' q. absurd (omega arith))
        (λ c' pre' x r q at'.
          explore zero post c' trail pre' x (At-same c' trail pre' x y r post q at') le)
  explore (suc n) (y ∷ post) c trail pre e at le =
      explore_one c trail pre e (y ∷ post) at
        (λ c' f x r at' q. explore n r c' (f ∷ trail) [] x at' (omega arith))
        (λ c' pre' x r q at'.
          explore (suc n) post c' trail pre' x (At-same c' trail pre' x y r post q at') le)
