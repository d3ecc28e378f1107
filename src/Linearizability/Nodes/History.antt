-- ===== src/Linearizability/Nodes/History.antt =====
-- linearizability/linearizability.go: histories of entries, and the nodes that hold their entries.
use distribution_system.Prelude.{
  ℕ, ◌<◌, ◌≡◌, ◌∙◌, ◌==◌, ◌⊎◌, inl, inr, Option, none, some, List, [], ◌∷◌, length, if◌then◌else◌,
  arith,
}
use distribution_system.Linearizability.Entries.{call_entry, return_entry, Entry}
use distribution_system.Linearizability.Nodes.{Info, update}
use distribution_system.Linearizability.Nodes.Chain.{update_ne}

module _ {I O : Type 0} where
  -- The entry with `p` others behind it.
  unfoldable pub entry_at : List (Entry I O) → ℕ → Option (Entry I O)
  entry_at [] p = none
  entry_at (elem ∷ entries) p = if p == length entries then some elem else entry_at entries p

  -- A call of operation `id` is among the entries.
  abbrev pub HasCall : List (Entry I O) → ℕ → Type 0
  HasCall [] id = ⊥
  HasCall (elem ∷ entries) id = ((elem.kind ≡ call_entry) × (elem.id ≡ id)) ⊎ HasCall entries id

  abbrev pub IsInput : I ⊎ O → Type 0
  IsInput v = (inp : I) × (v ≡ inl inp)

  abbrev pub IsOutput : I ⊎ O → Type 0
  IsOutput v = (out : O) × (v ≡ inr out)

  -- Calls hold inputs and returns outputs, an operation is called once, and its number is below `n`.
  abbrev pub IsHistory : ℕ → List (Entry I O) → Type 0
  IsHistory n [] = Unit
  IsHistory n (elem ∷ entries) =
      ((elem.kind ≡ call_entry) → IsInput elem.value × ¬ HasCall entries elem.id)
      × ((elem.kind ≡ return_entry) → IsOutput elem.value)
      × (elem.id < n)
      × IsHistory n entries

  pub entry_at_first :
      (elem : Entry I O) (entries : List (Entry I O))
      → entry_at (elem ∷ entries) (length entries) ≡ some elem
  unfolding entry_at
  entry_at_first elem entries = ground arith

  pub entry_at_behind :
      (elem : Entry I O) (entries : List (Entry I O)) (p : ℕ)
      → p < length entries
      → entry_at (elem ∷ entries) p ≡ entry_at entries p
  unfolding entry_at
  entry_at_behind elem entries p h = ground arith

-- The node at `m` holds the return of operation `id`.
pub record Returns {I O : Type 0} (entries : List (Entry I O)) (info : ℕ → Option (Info I O))
    (id m : ℕ) : Type 0 where
  pub node : Info I O
  pub elem : Entry I O
  pub out : O
  pub bound : m < length entries
  pub info_eq : info m ≡ some node
  pub match_eq : node.match ≡ none
  pub value_eq : node.value ≡ some (inr out)
  pub at_eq : entry_at entries m ≡ some elem
  pub kind_eq : elem.kind ≡ return_entry
  pub id_eq : elem.id ≡ id
  pub node_id : node.id ≡ id
  pub elem_value : elem.value ≡ inr out

-- The node at `e` holds a call of operation `id`, with its return at `m`.
pub record Calls {I O : Type 0} (entries : List (Entry I O)) (info : ℕ → Option (Info I O))
    (node : Info I O) (e m : ℕ) : Type 0 where
  pub elem : Entry I O
  pub inp : I
  pub bound : e < length entries
  pub behind : m < e
  pub value_eq : node.value ≡ some (inl inp)
  pub at_eq : entry_at entries e ≡ some elem
  pub kind_eq : elem.kind ≡ call_entry
  pub id_eq : elem.id ≡ node.id
  pub elem_value : elem.value ≡ inl inp
  pub listed : HasCall entries node.id
  pub returns : Returns entries info node.id m

module _ {I O : Type 0} (elem : Entry I O) (entries : List (Entry I O))
    (info : ℕ → Option (Info I O)) (new : Info I O) where
  pub Returns-grow :
      (id m : ℕ)
      → Returns entries info id m
      → Returns (elem ∷ entries) (update info (length entries) (some new)) id m
  Returns-grow id m r = record {
    node = r.node;
    elem = r.elem;
    out = r.out;
    bound = omega (arith, r.bound);
    info_eq =
        update_ne info (length entries) m (some new) (λ q. let b = r.bound in omega arith)
        ∙ r.info_eq;
    match_eq = r.match_eq;
    value_eq = r.value_eq;
    at_eq = entry_at_behind elem entries m r.bound ∙ r.at_eq;
    kind_eq = r.kind_eq;
    id_eq = r.id_eq;
    node_id = r.node_id;
    elem_value = r.elem_value;
  }

  pub Calls-grow :
      (node : Info I O) (e m : ℕ)
      → Calls entries info node e m
      → Calls (elem ∷ entries) (update info (length entries) (some new)) node e m
  Calls-grow node e m c = record {
    elem = c.elem;
    inp = c.inp;
    bound = omega (arith, c.bound);
    behind = c.behind;
    value_eq = c.value_eq;
    at_eq = entry_at_behind elem entries e c.bound ∙ c.at_eq;
    kind_eq = c.kind_eq;
    id_eq = c.id_eq;
    elem_value = c.elem_value;
    listed = inr c.listed;
    returns = Returns-grow node.id m c.returns;
  }
