-- ===== src/Linearizability/Reordering.antt =====
-- linearizability/linearizability.go: a history of operations is one of entries, in whatever order
-- makeEntries sorts them.
use distribution_system.Prelude.{
  ℕ, suc, ◌+◌, ◌*◌, ◌/◌, ◌≤◌, ◌≡◌, refl, sym, ◌∙◌, ap, inl, inr, List, [], ◌∷◌, length, arith,
}
use distribution_system.Linearizability.Model.{Operation}
use distribution_system.Linearizability.Entries.{Entry, entries_from, make_entries}
use distribution_system.Linearizability.Nodes.History.{HasCall, IsHistory}

-- The same elements in another order.
pub data Reorders {A : Type 0} : List A → List A → Type 0 where
  empty : Reorders [] []
  keeps : (x : A) (l1 l2 : List A) → Reorders l1 l2 → Reorders (x ∷ l1) (x ∷ l2)
  swaps : (x y : A) (l : List A) → Reorders (x ∷ y ∷ l) (y ∷ x ∷ l)
  chains : (l1 l2 l3 : List A) → Reorders l1 l2 → Reorders l2 l3 → Reorders l1 l3

pub length-Reorders : {A : Type 0} (l1 l2 : List A) → Reorders l1 l2 → length l1 ≡ length l2
length-Reorders _ _ empty = refl
length-Reorders _ _ (keeps a l1 l2 p) = ap suc (length-Reorders l1 l2 p)
length-Reorders _ _ (swaps a b l) = refl
length-Reorders _ _ (chains l1 l2 l3 p q) = length-Reorders l1 l2 p ∙ length-Reorders l2 l3 q

pub Reorders-sym : {A : Type 0} (l1 l2 : List A) → Reorders l1 l2 → Reorders l2 l1
Reorders-sym _ _ empty = empty
Reorders-sym _ _ (keeps x l1 l2 p) = keeps x l2 l1 (Reorders-sym l1 l2 p)
Reorders-sym _ _ (swaps x y l) = swaps y x l
Reorders-sym _ _ (chains l1 l2 l3 p q) =
    chains l3 l2 l1 (Reorders-sym l2 l3 q) (Reorders-sym l1 l2 p)

module _ {I O : Type 0} where
  HasCall-swap :
      (a b : Entry I O) (l : List (Entry I O)) (id : ℕ)
      → HasCall (b ∷ a ∷ l) id
      → HasCall (a ∷ b ∷ l) id
  HasCall-swap a b l id (inl h) = inr (inl h)
  HasCall-swap a b l id (inr (inl h)) = inl h
  HasCall-swap a b l id (inr (inr h)) = inr (inr h)

  pub HasCall-Reorders :
      (l1 l2 : List (Entry I O)) (id : ℕ) → Reorders l1 l2 → HasCall l2 id → HasCall l1 id
  HasCall-Reorders _ _ id empty h = h
  HasCall-Reorders _ _ id (keeps a l1 l2 p) (inl q) = inl q
  HasCall-Reorders _ _ id (keeps a l1 l2 p) (inr q) = inr (HasCall-Reorders l1 l2 id p q)
  HasCall-Reorders _ _ id (swaps a b l) h = HasCall-swap a b l id h
  HasCall-Reorders _ _ id (chains l1 l2 l3 p q) h =
      HasCall-Reorders l1 l2 id p (HasCall-Reorders l2 l3 id q h)

  IsHistory-swap :
      (n : ℕ) (a b : Entry I O) (l : List (Entry I O))
      → IsHistory n (a ∷ b ∷ l)
      → IsHistory n (b ∷ a ∷ l)
  IsHistory-swap n a b l (ca, ra, la, (cb, rb, lb, h)) = (
    (λ k.
        ((cb k).0, λ c. elim c [ inl (k', q) ↦ (ca k').1 (inl (k, sym q)) | inr p ↦ (cb k).1 p ])),
    rb,
    lb,
    ((λ k. ((ca k).0, λ c. (ca k).1 (inr c))), ra, la, h),
  )

  IsHistory-Reorders :
      (n : ℕ) (l1 l2 : List (Entry I O)) → Reorders l1 l2 → IsHistory n l1 → IsHistory n l2
  IsHistory-Reorders n _ _ empty h = h
  IsHistory-Reorders n _ _ (keeps a l1 l2 p) (c, r, lt, h) = (
    (λ k. ((c k).0, λ q. (c k).1 (HasCall-Reorders l1 l2 a.id p q))),
    r,
    lt,
    IsHistory-Reorders n l1 l2 p h,
  )
  IsHistory-Reorders n _ _ (swaps a b l) h = IsHistory-swap n a b l h
  IsHistory-Reorders n _ _ (chains l1 l2 l3 p q) h =
      IsHistory-Reorders n l2 l3 q (IsHistory-Reorders n l1 l2 p h)

  -- The entries have the numbers from `id` on.
  HasCall-entries_from :
      (id k : ℕ) (history : List (Operation I O)) → HasCall (entries_from id history) k → id ≤ k
  unfolding entries_from
  HasCall-entries_from id k [] h = absurd h
  HasCall-entries_from id k (elem ∷ history) (inl (_, q)) = omega arith
  HasCall-entries_from id k (elem ∷ history) (inr (inl (q, _))) = absurd (cc)
  HasCall-entries_from id k (elem ∷ history) (inr (inr h)) =
      let le = HasCall-entries_from (id + 1) k history h in omega arith

  pub entries_from-IsHistory :
      (n id : ℕ) (history : List (Operation I O))
      → id + length history ≤ n
      → IsHistory n (entries_from id history)
  unfolding entries_from
  entries_from-IsHistory n id [] le = tt
  entries_from-IsHistory n id (elem ∷ history) le = (
    (λ k. (
      (elem.input, refl),
      λ c. elim c [
        | inl (q, _) ↦ absurd (cc)
        | inr h ↦ let lt = HasCall-entries_from (id + 1) id history h in absurd (omega arith)
      ],
    )),
    (λ k. absurd (cc)),
    omega arith,
    (
      (λ k. absurd (cc)),
      (λ k. (elem.output, refl)),
      omega arith,
      entries_from-IsHistory n (id + 1) history (omega arith),
    ),
  )

  length-entries_from :
      (id : ℕ) (history : List (Operation I O))
      → length (entries_from id history) ≡ 2 * length history
  unfolding entries_from
  length-entries_from id [] = refl
  length-entries_from id (elem ∷ history) = omega (arith, length-entries_from (id + 1) history)

  pub make_entries-IsHistory :
      (sort_by_time : List (Entry I O) → List (Entry I O))
      → ((l : List (Entry I O)) → Reorders l (sort_by_time l))
      → (history : List (Operation I O))
      → IsHistory
          (length (make_entries sort_by_time history) / 2)
          (make_entries sort_by_time history)
  unfolding make_entries
  make_entries-IsHistory sort_by_time sorts history =
      let l = entries_from 0 history in
      let q = length-Reorders l (sort_by_time l) (sorts l) in
      let r = length-entries_from 0 history in
      let half : length (sort_by_time l) / 2 ≡ length history = omega arith in
      rw half (
        IsHistory-Reorders (length history) l (sort_by_time l) (sorts l)
          (entries_from-IsHistory (length history) 0 history (omega arith)))
