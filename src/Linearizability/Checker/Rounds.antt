-- ===== src/Linearizability/Checker/Rounds.antt =====
-- linearizability/linearizability.go: what a round of checkSingle does to the invariant.
use distribution_system.Prelude.{
  ℕ, ◌≡◌, refl, sym, subst, ◌∙◌, ap, Bool, true, false, Bool-cases, ◌⊎◌, inl, inr, Option, some,
  List, [], ◌∷◌, ◌++◌, arith, length, done,
}
use mathlib.Core.List.{append_assoc}
use distribution_system.Linearizability.Model.{Model}
use distribution_system.Linearizability.Bitset.{Bitset, set_bit}
use distribution_system.Linearizability.Bitset.Widths.{set_bit_runs, clear_bit_runs}
use distribution_system.Linearizability.Nodes.{Info}
use distribution_system.Linearizability.Nodes.Chain.{Falls, first_of, Links, next-Links}
use distribution_system.Linearizability.Nodes.Members.{◌∈◌, mem-right}
use distribution_system.Linearizability.Nodes.Lifting.{lift-Links, unlift-Links}
use distribution_system.Linearizability.Checker.{
  CacheEntry, Search, goes_on, answers, as_input, as_output, cache_contains, add_to_cache,
  push_call, round,
}
use distribution_system.Linearizability.Checker.Trail.{Frame, mem_splits, lt_of_mem}
use distribution_system.Linearizability.Checker.Lifted.{
  IsPair, IsReturn, IsPaired, AreCalls-append, left, Lifted-Falls, Lifted-frame, return_left,
}
use distribution_system.Linearizability.Checker.Fits.{
  calls_of, mem_behind, uncons_at, Fits, At, IsTotal,
}
use distribution_system.Linearizability.Checker.Reads.{
  pop_call_runs, round-pop, round-call, push_call_runs, try_call_runs,
}

module _ {I O S : Type 0} (info : ℕ → Option (Info I O)) (top words : ℕ) (model : Model I O S)
    (equal : S → S → Bool) (paired : IsPaired info top) (total : IsTotal info top words model) where
  abbrev FitsHere : Search I O S → List (Frame S) → Type 0
  FitsHere = Fits info top words model

  abbrev AtHere : Search I O S → List (Frame S) → List ℕ → ℕ → List ℕ → Type 0
  AtHere = At info top words model

  -- Where a call is, its return is behind it.
  return_behind :
      (c : Search I O S) (trail : List (Frame S)) (pre : List ℕ) (e : ℕ) (post : List ℕ) (m : ℕ)
      → AtHere c trail pre e post
      → IsPair info top e m
      → m ∈ post
  return_behind c trail pre e post m at pair =
      let falls =
        Lifted-Falls info top model c.store.next c.store.prev c.state trail at.fits.lifted in
      let here : e ∈ left info top model trail =
        subst (λ xs. e ∈ xs) (sym at.left_eq) (mem-right e pre (e ∷ post) (inl refl)) in
      let lt = (paired.behind e m pair).0 in
      let low = lt_of_mem top e (left info top model trail) falls here in
      let inside =
        return_left info top model paired c.store.next c.store.prev c.state trail e m at.fits.lifted
          here pair (omega arith) in
      mem_behind top e m pre post (subst (Falls top) at.left_eq falls)
        (subst (λ xs. m ∈ xs) at.left_eq inside) lt

  go_next-At :
      (c : Search I O S) (trail : List (Frame S)) (pre : List ℕ) (e : ℕ) (post : List ℕ) (m : ℕ)
      → AtHere c trail pre e post
      → IsPair info top e m
      → (x : ℕ) × (post' : List ℕ) × (post ≡ x ∷ post')
        × AtHere (record c { entry = c.store.next e }) trail (pre ++ e ∷ []) x post'
  go_next-At c trail pre e post m at pair =
      let (b, d, s) = mem_splits m post (return_behind c trail pre e post m at pair) in
      let (x, post', s') = uncons_at b d m in
      let q : post ≡ x ∷ post' = s ∙ s' in
      let n =
        next-Links c.store.next c.store.prev top e pre post
          (subst (Links c.store.next c.store.prev top) at.left_eq at.fits.links) in
      (
        x,
        post',
        q,
        record {
          fits = record {
            head_eq = at.fits.head_eq;
            info_eq = at.fits.info_eq;
            words_eq = at.fits.words_eq;
            calls_eq = at.fits.calls_eq;
            links = at.fits.links;
            lifted = at.fits.lifted;
          };
          entry_eq = n ∙ ap first_of q;
          left_eq =
              at.left_eq ∙ ap (λ xs. pre ++ e ∷ xs) q ∙ sym (append_assoc pre (e ∷ []) (x ∷ post'));
          passed = AreCalls-append info top pre e m at.passed pair;
        },
      )

  info_of :
      (c : Search I O S) (trail : List (Frame S)) (p : ℕ) {i : Info I O}
      → FitsHere c trail
      → info p ≡ some i
      → c.store.info p ≡ some i
  info_of c trail p fits h = ap (λ g. g p) fits.info_eq ∙ h

  -- At a return, without a call to take back.
  pub round-fails :
      (c : Search I O S) (pre : List ℕ) (e : ℕ) (post : List ℕ)
      → AtHere c [] pre e post
      → IsReturn info top e
      → round model equal c ≡ done (answers false)
  unfolding round
  round-fails c pre e post at (i, ie, im) =
      let s = info_of c [] e at.fits ie in rw (at.entry_eq, s, im, at.fits.calls_eq) refl

  -- At a return, the last call is taken back, and the search goes on behind it.
  pub round-pops :
      (c : Search I O S) (f : Frame S) (trail : List (Frame S)) (pre : List ℕ) (e : ℕ)
      (post : List ℕ)
      → AtHere c (f ∷ trail) pre e post
      → IsReturn info top e
      → (c' : Search I O S) × (x : ℕ) × (post' : List ℕ) × (round model equal c ≡ done (goes_on c'))
        × (f.between ++ f.ret ∷ f.behind ≡ x ∷ post')
        × AtHere c' trail (f.before ++ f.call ∷ []) x post'
  round-pops c f trail pre e post at (i, ie, im) =
      let l = at.fits.lifted in
      let (i1, j1, inp, out, ic, mc, ir, _, _, _) = l.0 in
      let (bits, be, bl) =
        clear_bit_runs i1.id c.linearized
          (rw (at.fits.words_eq) (total.small f.call f.ret i1 ic mc)) in
      let (h, he, hl, agrees) =
        unlift-Links c.store top f.call f.ret f.before f.between f.behind l.2 at.fits.links l.3 in
      let (x, post', s) = uncons_at f.between f.behind f.ret in
      let n = next-Links h.next h.prev top f.call f.before (f.between ++ f.ret ∷ f.behind) hl in
      let c' : Search I O S = record c {
        store = h;
        entry = h.next f.call;
        state = f.state;
        linearized = bits;
        calls = calls_of trail;
      } in
      (
        c',
        x,
        post',
        round-pop model equal c e i (record { entry = f.call; state = f.state }) (calls_of trail)
              at.entry_eq (info_of c (f ∷ trail) e at.fits ie) im at.fits.calls_eq
            ∙ pop_call_runs model equal c (record { entry = f.call; state = f.state })
                (calls_of trail) i1 f.ret bits h (info_of c (f ∷ trail) f.call at.fits ic) be mc he,
        s,
        record {
          fits = record {
            head_eq = at.fits.head_eq;
            info_eq = agrees.info_eq ∙ at.fits.info_eq;
            words_eq = bl ∙ at.fits.words_eq;
            calls_eq = refl;
            links = subst (Links h.next h.prev top) l.4 hl;
            lifted =
                Lifted-frame info top model c.store.next c.store.prev h.next h.prev f.state trail
                  (λ r away. agrees.keeps r (subst (λ xs. ¬ (r ∈ (top ∷ xs))) (sym l.4) away)) l.5;
          };
          entry_eq = n ∙ ap first_of s;
          left_eq =
              sym l.4
              ∙ ap (λ xs. f.before ++ f.call ∷ xs) s
              ∙ sym (append_assoc f.before (f.call ∷ []) (x ∷ post'));
          passed = AreCalls-append info top f.before f.call f.ret l.1 (i1, ic, mc);
        },
      )

  -- The search behind a call that Step accepts in a new state.
  push-Fits :
      (c : Search I O S) (trail : List (Frame S)) (pre : List ℕ) (e : ℕ) (post : List ℕ)
      → AtHere c trail pre e post
      → (m : ℕ) (i j : Info I O) (inp : I) (out : O) (new_state : S) (bits : Bitset)
        (cache_entry : CacheEntry S)
      → info e ≡ some i
      → i.match ≡ some m
      → info m ≡ some j
      → as_input i.value ≡ done inp
      → as_output j.value ≡ done out
      → model.step c.state inp out ≡ done (true, new_state)
      → set_bit i.id c.linearized ≡ done bits
      → length bits ≡ length c.linearized
      → (c' : Search I O S) × (f : Frame S) × (push_call e m i.id new_state cache_entry c
          ≡ done (goes_on c'))
        × FitsHere c' (f ∷ trail)
        × (c'.entry ≡ c'.store.next c'.head_entry)
        × (f.before ≡ pre)
        × (f.call ≡ e)
        × (post ≡ f.between ++ f.ret ∷ f.behind)
  push-Fits c trail pre e post at m i j inp out new_state bits cache_entry ie mi jm ai ao st sb sl =
      let (b, d, s) = mem_splits m post (return_behind c trail pre e post m at (i, ie, mi)) in
      let q : left info top model trail ≡ pre ++ e ∷ (b ++ m ∷ d) =
        at.left_eq ∙ ap (λ xs. pre ++ e ∷ xs) s in
      let falls =
        subst (Falls top) q
          (Lifted-Falls info top model c.store.next c.store.prev c.state trail at.fits.lifted) in
      let (h, he, hl, hangs, agrees) =
        lift-Links c.store top e m pre b d falls
          (subst (Links c.store.next c.store.prev top) q at.fits.links) in
      let f : Frame S = record {
        before = pre;
        call = e;
        between = b;
        ret = m;
        behind = d;
        state = c.state;
      } in
      (
        record c {
          store = h;
          entry = h.next c.head_entry;
          state = new_state;
          linearized = bits;
          cache = add_to_cache cache_entry c.cache;
          calls = record { entry = e; state = c.state } ∷ c.calls;
        },
        f,
        push_call_runs model equal c e m i.id new_state cache_entry bits h sb he,
        record {
          head_eq = at.fits.head_eq;
          info_eq = agrees.info_eq ∙ at.fits.info_eq;
          words_eq = sl ∙ at.fits.words_eq;
          calls_eq = ap (◌∷◌ (record { entry = e; state = c.state })) at.fits.calls_eq;
          links = hl;
          lifted = (
            (i, j, inp, out, ie, mi, jm, ai, ao, st),
            at.passed,
            falls,
            hangs,
            sym q,
            Lifted-frame info top model c.store.next c.store.prev h.next h.prev c.state trail
                (λ r away. agrees.keeps r (subst (λ xs. ¬ (r ∈ (top ∷ xs))) q away)) at.fits.lifted,
          );
        },
        refl,
        refl,
        refl,
        s,
      )

  -- At a call, the search goes on behind it, or takes it.
  pub round-calls :
      (c : Search I O S) (trail : List (Frame S)) (pre : List ℕ) (e : ℕ) (post : List ℕ) (m : ℕ)
      → AtHere c trail pre e post
      → IsPair info top e m
      → (c' : Search I O S) × (round model equal c ≡ done (goes_on c'))
        × (((x : ℕ) × (post' : List ℕ) × (post ≡ x ∷ post')
              × AtHere c' trail (pre ++ e ∷ []) x post')
            ⊎ ((f : Frame S) × FitsHere c' (f ∷ trail)
                × (c'.entry ≡ c'.store.next c'.head_entry)
                × (f.before ≡ pre)
                × (f.call ≡ e)
                × (post ≡ f.between ++ f.ret ∷ f.behind)))
  round-calls c trail pre e post m at (i, ie, mi) =
      let (j, jm, _) = (paired.behind e m (i, ie, mi)).1 in
      let (inp, out, ai, ao) = total.typed e m i j ie mi jm in
      let (ok, new_state, st) = total.total c.state inp out in
      let (bits, sb, sl) =
        set_bit_runs i.id c.linearized (rw (at.fits.words_eq) (total.small e m i ie mi)) in
      let step =
        round-call model equal c e m i at.entry_eq (info_of c trail e at.fits ie) mi
        ∙ try_call_runs model equal c e m i j inp out ok new_state bits
            (info_of c trail m at.fits jm) ai ao st sb in
      let ahead = go_next-At c trail pre e post m at (i, ie, mi) in
      elim (Bool-cases ok) [
        | inr refused ↦ (record c { entry = c.store.next e }, step ∙ rw refused refl, inl ahead)
        | inl taken ↦
            elim (Bool-cases
              (cache_contains equal c.cache (record { linearized = bits; state = new_state }))) [
                | inl seen ↦
                    (record c { entry = c.store.next e }, step ∙ rw (taken, seen) refl, inl ahead)
                | inr new ↦
                    let (c', f, p, r1, r2, r3, r4, r5) =
                      push-Fits c trail pre e post at m i j inp out new_state bits
                        (record { linearized = bits; state = new_state }) ie mi jm ai ao
                        (rw (sym taken) st) sb sl in
                    (c', step ∙ rw (taken, new) p, inr (f, r1, r2, r3, r4, r5))
              ]
      ]
