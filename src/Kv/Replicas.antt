-- ===== src/Kv/Replicas.antt =====
-- kvraft/server.go: retries at any later point, and replicas that apply the same log.
use distribution_system.Prelude.{
  ℕ, ◌≡◌, refl, true, List, [], ◌∷◌, ==_iff, Bool-cases, inl, inr, ap, sym, ◌∙◌, arith, done,
}
use distribution_system.Prelude.Dict.{insert, nat_eq}
use distribution_system.Kv.Types.{Op, KvServer}
use distribution_system.Kv.Server.{KvGob, is_duplicate_request, write, apply_op, applied, serve}
use distribution_system.Kv.ExactlyOnce.{
  commands, serve-command, apply_op-covers, apply_op-duplicate, apply_op-new,
}

-- The state that Raft replicates.
pub record SameData (kv kv' : KvServer) : Type 0 where
  pub db_eq : kv.db ≡ kv'.db
  pub ids_eq : kv.last_applied_request_id ≡ kv'.last_applied_request_id

apply_op-SameData :
    (i j : ℕ) (op : Op) (kv kv' kv1 kv1' : KvServer)
    → SameData kv kv'
    → apply_op i op kv ≡ applied kv1
    → apply_op j op kv' ≡ applied kv1'
    → SameData kv1 kv1'
unfolding is_duplicate_request
apply_op-SameData i j op kv kv' kv1 kv1' s h h' =
    let q : is_duplicate_request op.client_id op.request_id kv'
        ≡ is_duplicate_request op.client_id op.request_id kv =
      rw (s.ids_eq) refl in
    elim (Bool-cases (is_duplicate_request op.client_id op.request_id kv)) [
      | inl d ↦
          let e : kv ≡ kv1 = ground (arith, apply_op-duplicate i op kv d) in
          let e' : kv' ≡ kv1' = ground (arith, apply_op-duplicate j op kv' (q ∙ d)) in
          rw (sym e, sym e') s
      | inr d ↦
          let n = apply_op-new i op kv d h in
          let n' = apply_op-new j op kv' (q ∙ d) h' in
          record {
            db_eq = n.0 ∙ ap (write op) s.db_eq ∙ sym n'.0;
            ids_eq = n.1 ∙ ap (insert op.client_id op.request_id) s.ids_eq ∙ sym n'.1;
          }
    ]

stays_duplicate :
    (gob : KvGob) (log : List (ℕ × Op)) (c r : ℕ) (kv kv' : KvServer)
    → is_duplicate_request c r kv ≡ true
    → serve gob (commands log) kv ≡ done (applied kv')
    → is_duplicate_request c r kv' ≡ true
unfolding commands serve
stays_duplicate gob [] c r kv kv' d h = let e : kv ≡ kv' = ground arith in rw (sym e) d
stays_duplicate gob ((index, op) ∷ log) c r kv kv' d h =
    let (kv1, a, h1) = serve-command gob index op (commands log) kv h in
    let d1 : is_duplicate_request c r kv1 ≡ true =
      ground (arith, apply_op-covers index op kv kv1 c r a) in
    stays_duplicate gob log c r kv1 kv' d1 h1

module _ (gob : KvGob) where
  -- Once a request has been applied, a copy of it behind any further commands that were
  -- applied changes nothing.
  pub retry_has_no_effect :
      (i j : ℕ) (op : Op) (log : List (ℕ × Op)) (kv kv1 kv2 : KvServer)
      → apply_op i op kv ≡ applied kv1
      → serve gob (commands log) kv1 ≡ done (applied kv2)
      → apply_op j op kv2 ≡ applied kv2
  retry_has_no_effect i j op log kv kv1 kv2 a h =
      let d : is_duplicate_request op.client_id op.request_id kv1 ≡ true = ground (
        arith,
        apply_op-covers i op kv kv1 op.client_id op.request_id a,
        ==_iff op.client_id op.client_id,
      ) in
      apply_op-duplicate j op kv2 (stays_duplicate gob log op.client_id op.request_id kv1 kv2 d h)

  -- Two servers with the same database and request numbers, which have applied the same log to its
  -- end, have the same database and request numbers then, whatever handlers wait on them.
  pub replicas_agree :
      (log : List (ℕ × Op)) (kv kv' end end' : KvServer)
      → SameData kv kv'
      → serve gob (commands log) kv ≡ done (applied end)
      → serve gob (commands log) kv' ≡ done (applied end')
      → SameData end end'
  unfolding commands serve
  replicas_agree [] kv kv' end end' s h h' =
      let e : kv ≡ end = ground arith in let e' : kv' ≡ end' = ground arith in rw (sym e, sym e') s
  replicas_agree ((index, op) ∷ log) kv kv' end end' s h h' =
      let (kv1, a, h1) = serve-command gob index op (commands log) kv h in
      let (kv1', a', h1') = serve-command gob index op (commands log) kv' h' in
      replicas_agree log kv1 kv1' end end' (apply_op-SameData index index op kv kv' kv1 kv1' s a a')
        h1 h1'
