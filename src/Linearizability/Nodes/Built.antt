-- ===== src/Linearizability/Nodes/Built.antt =====
-- linearizability/linearizability.go: what makeLinkedEntries builds.
use distribution_system.Prelude.{
  ℕ, zero, suc, ◌<◌, ◌≡◌, refl, sym, subst, ◌∙◌, ap, Option, none, some, List, [], ◌∷◌, length,
  arith,
}
use distribution_system.Prelude.Dict.{nat_eq}
use distribution_system.Linearizability.Nodes.{
  Info, Store, update, set_next, set_prev, new_node, insert_before, length_from, length_of,
}
use distribution_system.Linearizability.Nodes.Chain.{
  below, Falls-below, first_of, Links, Links-frame, update_self, update_ne,
}

pub length-below : (n : ℕ) → length (below n) ≡ n
length-below zero = refl
length-below (suc n) = ap suc (length-below n)

-- The list of the addresses, with nothing in front of it.
abbrev pub Rooted : (ℕ → Option ℕ) → (ℕ → Option ℕ) → List ℕ → Type 0
Rooted next prev [] = Unit
Rooted next prev (x ∷ xs) = (prev x ≡ none) × Links next prev x xs

module _ {I O : Type 0} where
  insert_before_runs :
      (h : Store I O) (n k : ℕ)
      → h.prev k ≡ none
      → insert_before n (some k) h ≡ set_next n (some k) (set_prev k (some n) h)
  unfolding insert_before
  insert_before_runs h n k q = rw (insert_before, q) refl

  -- A new node stands in front of the list.
  pub record Front (i : Info I O) (h h' : Store I O) (n : ℕ) : Type 0 where
    pub size_eq : h'.size ≡ suc n
    pub info_eq : h'.info ≡ update h.info n (some i)
    pub links : Links h'.next h'.prev n (below n)
    pub first : h'.prev n ≡ none

  Front-nil :
      (i : Info I O) (h : Store I O)
      → h.size ≡ 0
      → Front i h (insert_before h.size none (new_node i h)) 0
  unfolding insert_before
  Front-nil i h s = record {
    size_eq = ap suc s;
    info_eq = rw s refl;
    links = rw s (update_self h.next 0 none);
    first = rw s (update_self h.prev 0 none);
  }

  Front-some :
      (i : Info I O) (h : Store I O) (k : ℕ)
      → h.size ≡ suc k
      → h.prev k ≡ none
      → Links h.next h.prev k (below k)
      → Front i h (insert_before h.size (some k) (new_node i h)) (suc k)
  Front-some i h k s p l =
      let n : ℕ = suc k in
      let q : update h.prev h.size none k ≡ none =
        update_ne h.prev h.size k none (λ e. omega arith) ∙ p in
      let run = insert_before_runs (new_node i h) h.size k q in
      subst (λ x. Front i h x (suc k)) (sym run)
        (record {
          size_eq = ap suc s;
          info_eq = rw s refl;
          links = (
            rw s (update_self (update h.next n none) n (some k)),
            rw s (update_self (update h.prev n none) k (some n)),
            Links-frame h.next h.prev (update (update h.next h.size none) h.size (some k))
                (update (update h.prev h.size none) k (some h.size)) k (below k) (Falls-below k)
                (λ r le.
                  update_ne (update h.next h.size none) h.size r (some k) (λ e. omega arith)
                  ∙ update_ne h.next h.size r none (λ e. omega arith))
                (λ r lt.
                  update_ne (update h.prev h.size none) k r (some h.size) (λ e. omega arith)
                  ∙ update_ne h.prev h.size r none (λ e. omega arith))
                l,
          );
          first = rw s (
              update_ne (update h.prev n none) k n (some n) (λ e. omega arith)
              ∙ update_self h.prev n none);
        })

  pub insert_before-Front :
      (n : ℕ) (i : Info I O) (h : Store I O)
      → h.size ≡ n
      → Rooted h.next h.prev (below n)
      → Front i h (insert_before h.size (first_of (below n)) (new_node i h)) n
  insert_before-Front zero i h s r = Front-nil i h s
  insert_before-Front (suc k) i h s r = Front-some i h k s r.0 r.1

  length_from-Links :
      (rounds p : ℕ) (xs : List ℕ) (h : Store I O)
      → length xs < rounds
      → Links h.next h.prev p xs
      → length_from rounds (some p) h ≡ suc (length xs)
  unfolding length_from
  length_from-Links zero p xs h le l = absurd (omega arith)
  length_from-Links (suc zero) p [] h le l = refl
  length_from-Links (suc (suc rounds)) p [] h le l = rw (length_from, l) refl
  length_from-Links (suc rounds) p (x ∷ xs) h le l =
      rw (length_from, l.0) (ap suc (length_from-Links rounds x xs h (omega arith) l.2))

  pub length_of-Rooted :
      (n : ℕ) (h : Store I O)
      → h.size ≡ n
      → Rooted h.next h.prev (below n)
      → length_of (first_of (below n)) h ≡ n
  unfolding length_of length_from
  length_of-Rooted zero h s r = rw (s) refl
  length_of-Rooted (suc n) h s r =
      length_from-Links h.size n (below n) h (omega (arith, length-below n)) r.1
      ∙ ap suc (length-below n)
