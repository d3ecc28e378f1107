-- ===== src/Raft/Append/Reconcile.antt =====
-- The loop of AppendEntries against a direct description: own entries stay while their terms agree
-- with the leader's, and from the first difference on the leader's entries stand.
use distribution_system.Prelude.{
  ℕ, zero, suc, ◌+◌, ◌≤◌, ◌≡◌, refl, sym, ap, inl, inr, Option, none, some, List, [], ◌∷◌, ◌++◌,
  Outcome, done, not, true, ◌>>=◌, arith, ltb, ◌==◌, if◌then◌else◌, length, take, drop, get_elem?,
  drop_lt, drop_ge, take-add, take-append-drop, Bool-cases, ltb→lt, ltb→le, le→leb, length-drop,
}
use mathlib.Core.List.{append_assoc}
use distribution_system.Raft.Types.{LogEntry}
use distribution_system.Raft.Append.{find_unmatch, replace_from}

module _ {C : Type 0} where
  abbrev pub reconcile : List (LogEntry C) → List (LogEntry C) → List (LogEntry C)
  reconcile own [] = own
  reconcile [] (e ∷ entries) = e ∷ entries
  reconcile (o ∷ own) (e ∷ entries) =
      if o.term == e.term then o ∷ reconcile own entries else e ∷ entries

  -- The index of the first difference, from `idx` on.
  abbrev unmatch : List (LogEntry C) → List (LogEntry C) → ℕ → Option ℕ
  unmatch own [] idx = none
  unmatch [] (e ∷ entries) idx = some idx
  unmatch (o ∷ own) (e ∷ entries) idx =
      if o.term == e.term then unmatch own entries (idx + 1) else some idx

  find_unmatch-eq-unmatch :
      (logs : List (LogEntry C)) (start : ℕ) (entries : List (LogEntry C)) (idx : ℕ)
      → find_unmatch logs start entries idx ≡ done (unmatch (drop (start + idx) logs) entries idx)
  unfolding find_unmatch
  find_unmatch-eq-unmatch logs start [] idx = refl
  find_unmatch-eq-unmatch logs start (e ∷ entries) idx =
      elim (Bool-cases (ltb (length logs) (start + 1 + idx))) [
        | inl short ↦ rw (short, drop_ge (start + idx) logs (omega (arith, ltb→lt _ _ short))) refl
        | inr long ↦
            let (o, read, split) = drop_lt (start + idx) logs (omega (arith, ltb→le _ _ long)) in
            rw (long, read, split)
              (differs o (next (find_unmatch-eq-unmatch logs start entries (idx + 1))))
      ]
    where
      next :
          {m : Outcome (Option ℕ)}
          → m ≡ done (unmatch (drop (start + (idx + 1)) logs) entries (idx + 1))
          → m ≡ done (unmatch (drop (suc (start + idx)) logs) entries (idx + 1))
      next h = let q : start + (idx + 1) ≡ suc (start + idx) = omega arith in rw (← q) h

      differs :
          (o : LogEntry C) {m : Outcome (Option ℕ)}
          → m ≡ done (unmatch (drop (suc (start + idx)) logs) entries (idx + 1))
          → (if not (o.term == e.term) then done (some idx) else m)
            ≡ done (unmatch (o ∷ drop (suc (start + idx)) logs) (e ∷ entries) idx)
      differs o h = ground (arith, h)

  -- Cutting at the first difference gives the reconciled list.
  abbrev IsCut : List (LogEntry C) → List (LogEntry C) → ℕ → Option ℕ → Type 0
  IsCut own entries idx none = reconcile own entries ≡ own
  IsCut own entries idx (some k) =
      (n : ℕ) × (k ≡ idx + n)
      × (n ≤ length own)
      × (n ≤ length entries)
      × (reconcile own entries ≡ take n own ++ drop n entries)

  IsCut-cons :
      (o e : LogEntry C) (own entries : List (LogEntry C)) (idx : ℕ) (u : Option ℕ)
      → (o.term == e.term) ≡ true
      → IsCut own entries (idx + 1) u
      → IsCut (o ∷ own) (e ∷ entries) idx u
  IsCut-cons o e own entries idx none same h = rw same (ap (◌∷◌ o) h)
  IsCut-cons o e own entries idx (some k) same (n, at, fits, fits', h) =
      (suc n, omega arith, omega arith, omega arith, rw same (ap (◌∷◌ o) h))

  cut :
      (own entries : List (LogEntry C)) (idx : ℕ) → IsCut own entries idx (unmatch own entries idx)
  cut own [] idx = refl
  cut [] (e ∷ entries) idx = (0, omega arith, omega arith, omega arith, refl)
  cut (o ∷ own) (e ∷ entries) idx = elim (Bool-cases (o.term == e.term)) [
    | inl same ↦ rw same (IsCut-cons o e own entries idx _ same (cut own entries (idx + 1)))
    | inr other ↦ rw other (0, omega arith, omega arith, omega arith, rw other refl)
  ]

  replace_from-IsCut :
      (logs : List (LogEntry C)) (start : ℕ) (entries : List (LogEntry C)) (u : Option ℕ)
      → start ≤ length logs
      → IsCut (drop start logs) entries 0 u
      → replace_from logs start entries u
        ≡ done (take start logs ++ reconcile (drop start logs) entries)
  unfolding replace_from
  replace_from-IsCut logs start entries none fits h =
      rw h (ap done (sym (take-append-drop start logs)))
  replace_from-IsCut logs start entries (some k) fits (n, at, short, short', h) =
      let e : k ≡ n = omega arith in
      rw
        (
          h,
          e,
          le→leb (start + n) (length logs) (omega (arith, length-drop start logs)),
          le→leb n (length entries) short',
          take-add start n logs,
          append_assoc,
        )
        refl

  -- The two loops of the handler compute the reconciled log.
  pub replace_unmatched :
      (logs : List (LogEntry C)) (start : ℕ) (entries : List (LogEntry C))
      → start ≤ length logs
      → (find_unmatch logs start entries 0 >>= replace_from logs start entries)
        ≡ done (take start logs ++ reconcile (drop start logs) entries)
  replace_unmatched logs start entries fits =
      let e : start + 0 ≡ start = omega arith in
      rw (find_unmatch-eq-unmatch logs start entries 0, e)
        (replace_from-IsCut logs start entries _ fits (cut (drop start logs) entries 0))

  -- Behind the leader's entries every term is the leader's.
  pub reconcile_terms :
      (own entries : List (LogEntry C)) (k : ℕ) (e : LogEntry C)
      → get_elem? entries k ≡ some e
      → (o : LogEntry C) × (get_elem? (reconcile own entries) k ≡ some o) × (o.term ≡ e.term)
  reconcile_terms own [] k e h = absurd (cc)
  reconcile_terms [] (e' ∷ entries) k e h = (e, h, refl)
  reconcile_terms (o ∷ own) (e' ∷ entries) zero e h = elim (Bool-cases (o.term == e'.term)) [
    | inl same ↦ rw same (o, refl, ground arith)
    | inr other ↦ rw other (e, h, refl)
  ]
  reconcile_terms (o ∷ own) (e' ∷ entries) (suc k) e h = elim (Bool-cases (o.term == e'.term)) [
    | inl same ↦ rw same (reconcile_terms own entries k e h)
    | inr other ↦ rw other (e, h, refl)
  ]
