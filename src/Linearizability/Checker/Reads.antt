-- ===== src/Linearizability/Checker/Reads.antt =====
-- linearizability/linearizability.go: a round of checkSingle, from what it reads.
use distribution_system.Prelude.{
  ℕ, ◌≡◌, refl, Bool, not, none, some, List, ◌∷◌, done, if◌then◌else◌,
}
use distribution_system.Linearizability.Model.{Model}
use distribution_system.Linearizability.Bitset.{Bitset, clone, set_bit, clear_bit}
use distribution_system.Linearizability.Nodes.{Info, Store, lift, unlift}
use distribution_system.Linearizability.Checker.{
  CacheEntry, CallsEntry, Search, goes_on, as_input, as_output, cache_contains, add_to_cache,
  push_call, pop_call, try_call, round,
}

-- The round, from what it reads.
module _ {I O S : Type 0} (model : Model I O S) (equal : S → S → Bool) (c : Search I O S) where
  pub pop_call_runs :
      (last : CallsEntry S) (calls : List (CallsEntry S)) (i : Info I O) (m : ℕ) (bits : Bitset)
      (h : Store I O)
      → c.store.info last.entry ≡ some i
      → clear_bit i.id c.linearized ≡ done bits
      → i.match ≡ some m
      → unlift last.entry m c.store ≡ done h
      → pop_call last calls c
        ≡ done (
            goes_on (record c {
              store = h;
              entry = h.next last.entry;
              state = last.state;
              linearized = bits;
              calls = calls;
            }))
  unfolding pop_call
  pop_call_runs last calls i m bits h a b d u = rw (a, b, d, u) refl

  pub round-pop :
      (e : ℕ) (i : Info I O) (last : CallsEntry S) (calls : List (CallsEntry S))
      → c.entry ≡ some e
      → c.store.info e ≡ some i
      → i.match ≡ none
      → c.calls ≡ last ∷ calls
      → round model equal c ≡ pop_call last calls c
  unfolding round pop_call
  round-pop e i last calls a b d u = rw (a, b, d, u) refl

  pub round-call :
      (e m : ℕ) (i : Info I O)
      → c.entry ≡ some e
      → c.store.info e ≡ some i
      → i.match ≡ some m
      → round model equal c ≡ try_call model equal e i m c
  unfolding round try_call push_call
  round-call e m i a b d = rw (a, b, d) refl

  pub push_call_runs :
      (e m id : ℕ) (new_state : S) (entry : CacheEntry S) (bits : Bitset) (h : Store I O)
      → set_bit id c.linearized ≡ done bits
      → lift e m c.store ≡ done h
      → push_call e m id new_state entry c
        ≡ done (
            goes_on (record c {
              store = h;
              entry = h.next c.head_entry;
              state = new_state;
              linearized = bits;
              cache = add_to_cache entry c.cache;
              calls = record { entry = e; state = c.state } ∷ c.calls;
            }))
  unfolding push_call
  push_call_runs e m id new_state entry bits h a b = rw (a, b) refl

  -- A call that Step accepts, in a state that has not been seen.
  abbrev new_entry : Bitset → S → CacheEntry S
  new_entry bits state = record { linearized = bits; state = state }

  pub try_call_runs :
      (e m : ℕ) (i j : Info I O) (inp : I) (out : O) (ok : Bool) (new_state : S) (bits : Bitset)
      → c.store.info m ≡ some j
      → as_input i.value ≡ done inp
      → as_output j.value ≡ done out
      → model.step c.state inp out ≡ done (ok, new_state)
      → set_bit i.id c.linearized ≡ done bits
      → try_call model equal e i m c ≡ (
          if not ok
          then done (goes_on (record c { entry = c.store.next e }))
          else if cache_contains equal c.cache (new_entry bits new_state)
          then done (goes_on (record c { entry = c.store.next e }))
          else push_call e m i.id new_state (new_entry bits new_state) c)
  unfolding try_call clone
  try_call_runs e m i j inp out ok new_state bits a b d s t = rw (a, b, d, s, t) refl
