-- ===== src/Linearizability/Checker/Fits.antt =====
-- linearizability/linearizability.go: the invariant of checkSingle's loop.
use distribution_system.Prelude.{
  ℕ, ◌/◌, ◌<◌, ◌≡◌, refl, Bool, inl, inr, Option, some, List, [], ◌∷◌, ◌++◌, arith, length, done,
}
use distribution_system.Linearizability.Model.{Model}
use distribution_system.Linearizability.Nodes.{Info}
use distribution_system.Linearizability.Nodes.Chain.{Falls, Links}
use distribution_system.Linearizability.Nodes.Members.{◌∈◌, mem-right}
use distribution_system.Linearizability.Checker.{CallsEntry, Search, as_input, as_output}
use distribution_system.Linearizability.Checker.Trail.{Frame, lt_of_mem}
use distribution_system.Linearizability.Checker.Lifted.{AreCalls, left, Lifted}

abbrev pub calls_of : {S : Type 0} → List (Frame S) → List (CallsEntry S)
calls_of [] = []
calls_of (f ∷ trail) = record { entry = f.call; state = f.state } ∷ calls_of trail

-- What is smaller than an address stands behind it.
pub mem_behind :
    (p e m : ℕ) (pre post : List ℕ)
    → Falls p (pre ++ e ∷ post)
    → m ∈ (pre ++ e ∷ post)
    → m < e
    → m ∈ post
mem_behind p e m [] post f (inl h) lt = absurd (omega arith)
mem_behind p e m [] post f (inr h) lt = h
mem_behind p e m (y ∷ pre) post f (inl h) lt =
    let b = lt_of_mem y e (pre ++ e ∷ post) f.1 (mem-right e pre (e ∷ post) (inl refl)) in
    absurd (omega arith)
mem_behind p e m (y ∷ pre) post f (inr h) lt = mem_behind y e m pre post f.1 h lt

-- A list with a member has a first one.
pub uncons_at : (b c : List ℕ) (m : ℕ) → (x : ℕ) × (xs : List ℕ) × (b ++ m ∷ c ≡ x ∷ xs)
uncons_at [] c m = (m, c, refl)
uncons_at (x ∷ b) c m = (x, b ++ m ∷ c, refl)

module _ {I O S : Type 0} (info : ℕ → Option (Info I O)) (top words : ℕ) (model : Model I O S) where
  -- The search stands where the trail says.
  pub record Fits (c : Search I O S) (trail : List (Frame S)) : Type 0 where
    pub head_eq : c.head_entry ≡ top
    pub info_eq : c.store.info ≡ info
    pub words_eq : length c.linearized ≡ words
    pub calls_eq : c.calls ≡ calls_of trail
    pub links : Links c.store.next c.store.prev top (left info top model trail)
    pub lifted : Lifted info top model c.store.next c.store.prev c.state trail

  -- And it looks at `e`, behind calls only.
  pub record At (c : Search I O S) (trail : List (Frame S)) (pre : List ℕ) (e : ℕ) (post : List ℕ)
      : Type 0 where
    pub fits : Fits c trail
    pub entry_eq : c.entry ≡ some e
    pub left_eq : left info top model trail ≡ pre ++ e ∷ post
    pub passed : AreCalls info top pre

  -- Nothing that checkSingle calls panics on these nodes.
  pub record IsTotal : Type 0 where
    pub total :
        (s : S) (inp : I) (out : O)
        → (ok : Bool) × (next_state : S) × (model.step s inp out ≡ done (ok, next_state))
    pub typed :
        (e m : ℕ) (i j : Info I O)
        → info e ≡ some i
        → i.match ≡ some m
        → info m ≡ some j
        → (inp : I) × (out : O) × (as_input i.value ≡ done inp) × (as_output j.value ≡ done out)
    pub small : (e m : ℕ) (i : Info I O) → info e ≡ some i → i.match ≡ some m → i.id / 64 < words
