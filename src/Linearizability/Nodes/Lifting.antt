-- ===== src/Linearizability/Nodes/Lifting.antt =====
-- linearizability/linearizability.go: lift takes a call and its return out of the list, and unlift puts
-- them back.
use distribution_system.Prelude.{
  ℕ, ◌≡◌, ◌≢◌, refl, sym, subst, ◌∙◌, ap, ◌==◌, inl, inr, Option, none, some, List, [], ◌∷◌, ◌++◌,
  if◌then◌else◌, arith, done,
}
use mathlib.Core.List.{append_assoc}
use distribution_system.Linearizability.Nodes.{Store, update, set_prev_of, lift, unlift}
use distribution_system.Linearizability.Nodes.Chain.{
  Falls, end_of, first_of, Links, update_at, update_ne, update_at_ne, cut-Links, join-Links,
  next-Links, prev-Links, Falls-drop, Falls-behind, Falls-front, end_of-le,
}
use distribution_system.Linearizability.Nodes.Members.{◌∈◌, mem-left, mem-right, mem-split}

module _ {I O : Type 0} where
  set_prev_of-eq :
      (k v : Option ℕ) (h : Store I O)
      → set_prev_of k v h ≡ record h { prev = update_at h.prev k v }
  set_prev_of-eq none v h = refl
  set_prev_of-eq (some p) v h = refl

  -- What lift does, from what it reads.
  lift_reads :
      (e m w n z : ℕ) (k : Option ℕ) (h : Store I O)
      → h.prev e ≡ some w
      → h.next e ≡ some n
      → w ≢ e
      → update h.prev n (some w) m ≡ some z
      → update h.next w (some n) m ≡ k
      → z ≢ m
      → lift e m h
        ≡ done (record h {
          next = update (update h.next w (some n)) z k;
          prev = update_at (update h.prev n (some w)) k (some z);
        })
  unfolding lift
  lift_reads e m w n z k h pe ne we pm nm zm =
      let r1 = update_ne h.next w e (h.next e) we in
      let r2 : (if z == m then k else k) ≡ k = ground arith in
      rw (pe, r1, ne, pm, nm, r2)
        (ap done (
          set_prev_of-eq k (some z) (record h {
            next = update (update h.next w (some n)) z k;
            prev = update h.prev n (some w);
          })))

  unlift_reads :
      (e m w n z : ℕ) (k : Option ℕ) (h : Store I O)
      → h.prev m ≡ some z
      → update h.next z (some m) m ≡ k
      → update_at h.prev k (some m) e ≡ some w
      → update (update h.next z (some m)) w (some e) e ≡ some n
      → unlift e m h
        ≡ done (record h {
          next = update (update h.next z (some m)) w (some e);
          prev = update (update_at h.prev k (some m)) n (some e);
        })
  unfolding unlift
  unlift_reads e m w n z k h pm nm pe ne = rw (pm, nm, set_prev_of-eq k (some m), pe, ne) refl

append_cons : {A : Type 0} (xs ys zs : List A) → ((xs ++ ys) ++ zs) ≡ (xs ++ (ys ++ zs))
append_cons xs ys zs = append_assoc xs ys zs

end_of-append : (p : ℕ) (a b : List ℕ) → end_of p (a ++ b) ≡ end_of (end_of p a) b
end_of-append p [] b = refl
end_of-append p (x ∷ a) b = end_of-append x a b

-- The end of `a ++ b` is none of what stands between and behind.
end_of-ne : (p e : ℕ) (a b d : List ℕ) → Falls p (a ++ e ∷ (b ++ d)) → end_of p (a ++ b) ≢ e
end_of-ne p e a [] d f q =
    let lt = (Falls-behind p e a d f).0 in let s = end_of-append p a [] in omega arith
end_of-ne p e a (x ∷ b) d f q =
    let g = (Falls-behind p e a (x ∷ (b ++ d)) f).1 in
    let le = end_of-le x b (Falls-front x b d g.1) in
    let s = end_of-append p a (x ∷ b) in omega arith

end_of-mem : (p : ℕ) (xs : List ℕ) → end_of p xs ∈ (p ∷ xs)
end_of-mem p [] = inl refl
end_of-mem p (x ∷ xs) = inr (end_of-mem x xs)

update_at_out :
    (f : ℕ → Option ℕ) (xs : List ℕ) (r : ℕ) (v : Option ℕ)
    → ¬ (r ∈ xs)
    → update_at f (first_of xs) v r ≡ f r
update_at_out f [] r v out = refl
update_at_out f (x ∷ xs) r v out = update_ne f x r v (λ e. absurd (out (inl (sym e))))

-- There is a first address, at `m` or before.
first_of-append : (b c : List ℕ) (m : ℕ) → (n : ℕ) × (first_of (b ++ m ∷ c) ≡ some n)
first_of-append [] c m = (m, refl)
first_of-append (x ∷ b) c m = (x, refl)

-- What a call at `e` and its return at `m` point to while they are out of the list.
abbrev pub Hangs : ℕ → ℕ → ℕ → List ℕ → List ℕ → List ℕ → (ℕ → Option ℕ) → (ℕ → Option ℕ) → Type 0
Hangs top e m a b c next prev =
    (prev e ≡ some (end_of top a))
    × (next e ≡ first_of (b ++ m ∷ c))
    × (prev m ≡ some (end_of top (a ++ b)))
    × (next m ≡ first_of c)

module _ {I O : Type 0} (h : Store I O) (top e m : ℕ) (a b c : List ℕ) where
  -- The list with the call at `e` and its return at `m`, and without them.
  abbrev full : List ℕ
  full = a ++ e ∷ (b ++ m ∷ c)

  abbrev rest : List ℕ
  rest = a ++ (b ++ c)

  abbrev cut_next : ℕ → Option ℕ
  cut_next = update h.next (end_of top a) (first_of (b ++ m ∷ c))

  abbrev cut_prev : ℕ → Option ℕ
  cut_prev = update_at h.prev (first_of (b ++ m ∷ c)) (some (end_of top a))

  abbrev lifted_next : ℕ → Option ℕ
  lifted_next = update cut_next (end_of top (a ++ b)) (first_of c)

  abbrev lifted_prev : ℕ → Option ℕ
  lifted_prev = update_at cut_prev (first_of c) (some (end_of top (a ++ b)))

  -- What is left is part of the list.
  mem-inner : (q : ℕ) → q ∈ (top ∷ (a ++ b)) → q ∈ (top ∷ full)
  mem-inner q (inl p) = inl p
  mem-inner q (inr p) = elim (mem-split q a b p) [
    | inl l ↦ inr (mem-left q a (e ∷ (b ++ m ∷ c)) l)
    | inr r ↦ inr (mem-right q a (e ∷ (b ++ m ∷ c)) (inr (mem-left q b (m ∷ c) r)))
  ]

  mem-rest : (q : ℕ) → q ∈ rest → q ∈ full
  mem-rest q p = elim (mem-split q a (b ++ c) p) [
    | inl l ↦ mem-left q a (e ∷ (b ++ m ∷ c)) l
    | inr r ↦ mem-right q a (e ∷ (b ++ m ∷ c)) (
        inr (elim (mem-split q b c r) [
          | inl l ↦ mem-left q b (m ∷ c) l
          | inr r' ↦ mem-right q b (m ∷ c) (inr r')
        ]))
  ]

  module _ (falls : Falls top full) (links : Links h.next h.prev top full) where
    -- The list between the two cuts.
    between : Links cut_next cut_prev top ((a ++ b) ++ m ∷ c)
    between =
        rw (append_cons a b (m ∷ c)) (cut-Links h.next h.prev top e a (b ++ m ∷ c) falls links)

    between-Falls : Falls top ((a ++ b) ++ m ∷ c)
    between-Falls = rw (append_cons a b (m ∷ c)) (Falls-drop top e a (b ++ m ∷ c) falls)

    lifted-Links : Links lifted_next lifted_prev top rest
    lifted-Links =
        rw (sym (append_cons a b c))
          (cut-Links cut_next cut_prev top m (a ++ b) c between-Falls between)

    lift-eq : lift e m h ≡ done (record h { next = lifted_next; prev = lifted_prev })
    lift-eq =
        let (n, en) = first_of-append b c m in
        let ne = next-Links h.next h.prev top e a (b ++ m ∷ c) links in
        let pe = prev-Links h.next h.prev top e a (b ++ m ∷ c) links in
        let we = (Falls-behind top e a (b ++ m ∷ c) falls).0 in
        let zm = (Falls-behind top m (a ++ b) c between-Falls).0 in
        let pm = prev-Links cut_next cut_prev top m (a ++ b) c between in
        let nm = next-Links cut_next cut_prev top m (a ++ b) c between in
        rw en (
          lift_reads e m (end_of top a) n (end_of top (a ++ b)) (first_of c) h pe (ne ∙ en)
            (λ q. absurd (omega arith)) (rw en at pm) (rw en at nm) (λ q. absurd (omega arith)))

    lifted-Hangs : Hangs top e m a b c lifted_next lifted_prev
    lifted-Hangs =
        let ne = next-Links h.next h.prev top e a (b ++ m ∷ c) links in
        let pe = prev-Links h.next h.prev top e a (b ++ m ∷ c) links in
        let (we, de) = Falls-behind top e a (b ++ m ∷ c) falls in
        let (zm, cm) = Falls-behind top m (a ++ b) c between-Falls in
        let (me, _) = Falls-behind e m b c de in
        let le = end_of-le e b (Falls-front e b (m ∷ c) de) in
        (
          update_at_ne cut_prev m e c _ cm (omega arith)
              ∙ update_at_ne h.prev e e (b ++ m ∷ c) _ de (omega arith)
              ∙ pe,
          update_ne cut_next (end_of top (a ++ b)) e _ (end_of-ne top e a b (m ∷ c) falls)
              ∙ update_ne h.next (end_of top a) e _ (λ q. absurd (omega arith))
              ∙ ne,
          update_at_ne cut_prev m m c _ cm (omega arith)
              ∙ prev-Links cut_next cut_prev top m (a ++ b) c between,
          update_ne cut_next (end_of top (a ++ b)) m _ (λ q. absurd (omega arith))
              ∙ next-Links cut_next cut_prev top m (a ++ b) c between,
        )

    -- Nodes outside of the list keep their pointers.
    lifted_keeps :
        (r : ℕ) → ¬ (r ∈ (top ∷ full)) → (lifted_next r ≡ h.next r) × (lifted_prev r ≡ h.prev r)
    lifted_keeps r out = (
      update_ne cut_next (end_of top (a ++ b)) r _
            (λ q. out (subst (λ x. x ∈ (top ∷ full)) q (mem-inner _ (end_of-mem top (a ++ b)))))
          ∙ update_ne h.next (end_of top a) r _ (λ q. out (
              subst (λ x. x ∈ (top ∷ full)) q
                (mem-left _ (top ∷ a) (e ∷ (b ++ m ∷ c)) (end_of-mem top a)))),
      update_at_out cut_prev c r _ (λ q.
            out (mem-right r (top ∷ a) (e ∷ (b ++ m ∷ c)) (inr (mem-right r b (m ∷ c) (inr q)))))
          ∙ update_at_out h.prev (b ++ m ∷ c) r _
              (λ q. out (mem-right r (top ∷ a) (e ∷ (b ++ m ∷ c)) (inr q))),
    )

module _ {I O : Type 0} (h : Store I O) (top e m : ℕ) (a b c : List ℕ) where
  abbrev joined_next : ℕ → Option ℕ
  joined_next = update h.next (end_of top (a ++ b)) (some m)

  abbrev joined_prev : ℕ → Option ℕ
  joined_prev = update_at h.prev (first_of c) (some m)

  abbrev restored_next : ℕ → Option ℕ
  restored_next = update joined_next (end_of top a) (some e)

  abbrev restored_prev : ℕ → Option ℕ
  restored_prev = update_at joined_prev (first_of (b ++ m ∷ c)) (some e)

  module _ (falls : Falls top (full h top e m a b c))
      (links : Links h.next h.prev top (rest h top e m a b c))
      (hangs : Hangs top e m a b c h.next h.prev) where
    inner-Falls : Falls top ((a ++ b) ++ m ∷ c)
    inner-Falls = rw (append_cons a b (m ∷ c)) (Falls-drop top e a (b ++ m ∷ c) falls)

    joined_m : joined_next m ≡ first_of c
    joined_m =
        let zm = (Falls-behind top m (a ++ b) c inner-Falls).0 in
        update_ne h.next (end_of top (a ++ b)) m _ (λ q. absurd (omega arith)) ∙ hangs.3

    joined-Links : Links joined_next joined_prev top (a ++ (b ++ m ∷ c))
    joined-Links = rw (sym (append_cons a b (m ∷ c))) (
        join-Links h.next h.prev top m (a ++ b) c inner-Falls hangs.3 hangs.2
          (rw (append_cons a b c) links))

    joined_next_e : joined_next e ≡ first_of (b ++ m ∷ c)
    joined_next_e =
        update_ne h.next (end_of top (a ++ b)) e _ (end_of-ne top e a b (m ∷ c) falls) ∙ hangs.1

    joined_prev_e : joined_prev e ≡ some (end_of top a)
    joined_prev_e =
        let (_, de) = Falls-behind top e a (b ++ m ∷ c) falls in
        let (me, cm) = Falls-behind e m b c de in
        let le = end_of-le e b (Falls-front e b (m ∷ c) de) in
        update_at_ne h.prev m e c _ cm (omega arith) ∙ hangs.0

    restored-Links : Links restored_next restored_prev top (full h top e m a b c)
    restored-Links =
        join-Links joined_next joined_prev top e a (b ++ m ∷ c) falls joined_next_e joined_prev_e
          joined-Links

    unlift-eq : unlift e m h ≡ done (record h { next = restored_next; prev = restored_prev })
    unlift-eq =
        let (n, en) = first_of-append b c m in
        let we = (Falls-behind top e a (b ++ m ∷ c) falls).0 in
        let ne : restored_next e ≡ some n =
          update_ne joined_next (end_of top a) e _ (λ q. absurd (omega arith))
          ∙ joined_next_e
          ∙ en in
        rw en (
          unlift_reads e m (end_of top a) n (end_of top (a ++ b)) (first_of c) h hangs.2 joined_m
            joined_prev_e ne)

    restored_keeps :
        (r : ℕ)
        → ¬ (r ∈ (top ∷ full h top e m a b c))
        → (restored_next r ≡ h.next r) × (restored_prev r ≡ h.prev r)
    restored_keeps r out = (
      update_ne joined_next (end_of top a) r _ (λ q. out (
            subst (λ x. x ∈ (top ∷ full h top e m a b c)) q
              (mem-left _ (top ∷ a) (e ∷ (b ++ m ∷ c)) (end_of-mem top a))))
          ∙ update_ne h.next (end_of top (a ++ b)) r _ (λ q. out (
              subst (λ x. x ∈ (top ∷ full h top e m a b c)) q
                (mem-inner h top e m a b c _ (end_of-mem top (a ++ b))))),
      update_at_out joined_prev (b ++ m ∷ c) r _
            (λ q. out (mem-right r (top ∷ a) (e ∷ (b ++ m ∷ c)) (inr q)))
          ∙ update_at_out h.prev c r _ (λ q.
            out (mem-right r (top ∷ a) (e ∷ (b ++ m ∷ c)) (inr (mem-right r b (m ∷ c) (inr q))))),
    )

-- A store that has the same nodes, and in which all but the listed ones point where they did.
pub record Agrees {I O : Type 0} (xs : List ℕ) (h h' : Store I O) : Type 0 where
  pub info_eq : h'.info ≡ h.info
  pub keeps : (r : ℕ) → ¬ (r ∈ xs) → (h'.next r ≡ h.next r) × (h'.prev r ≡ h.prev r)

-- Taking out a call and its return leaves the rest linked, and unlift finds what it needs.
pub lift-Links :
    {I O : Type 0} (h : Store I O) (top e m : ℕ) (a b c : List ℕ)
    → Falls top (a ++ e ∷ (b ++ m ∷ c))
    → Links h.next h.prev top (a ++ e ∷ (b ++ m ∷ c))
    → (h' : Store I O) × (lift e m h ≡ done h')
      × Links h'.next h'.prev top (a ++ (b ++ c))
      × Hangs top e m a b c h'.next h'.prev
      × Agrees (top ∷ (a ++ e ∷ (b ++ m ∷ c))) h h'
lift-Links h top e m a b c falls links = (
  record h { next = lifted_next h top e m a b c; prev = lifted_prev h top e m a b c },
  lift-eq h top e m a b c falls links,
  lifted-Links h top e m a b c falls links,
  lifted-Hangs h top e m a b c falls links,
  record { info_eq = refl; keeps = lifted_keeps h top e m a b c falls links },
)

-- Unlift undoes it.
pub unlift-Links :
    {I O : Type 0} (h : Store I O) (top e m : ℕ) (a b c : List ℕ)
    → Falls top (a ++ e ∷ (b ++ m ∷ c))
    → Links h.next h.prev top (a ++ (b ++ c))
    → Hangs top e m a b c h.next h.prev
    → (h' : Store I O) × (unlift e m h ≡ done h')
      × Links h'.next h'.prev top (a ++ e ∷ (b ++ m ∷ c))
      × Agrees (top ∷ (a ++ e ∷ (b ++ m ∷ c))) h h'
unlift-Links h top e m a b c falls links hangs = (
  record h { next = restored_next h top e m a b c; prev = restored_prev h top e m a b c },
  unlift-eq h top e m a b c falls links hangs,
  restored-Links h top e m a b c falls links hangs,
  record { info_eq = refl; keeps = restored_keeps h top e m a b c falls links hangs },
)
