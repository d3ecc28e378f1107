-- ===== src/Linearizability/Partition.antt =====
-- linearizability/models.go: why a history may be checked key by key.
use Prim.Native.String.{String}
use distribution_system.Prelude.{
  ◌≡◌, ◌↔◌, refl, sym, ◌∙◌, ap, Bool, true, ◌&&◌, Bool-cases, inl, inr, some, List, [], ◌∷◌, ◌++◌,
  if◌then◌else◌, arith,
}
use distribution_system.Prelude.Dict.{Dict, lookup, insert, lookup-insert, eq_refl, string_eq}
use mathlib.Core.List.{append_assoc, append-nil}
use text.Mathlib.Text.{◌==◌ as str_eq}
use text.Mathlib.TextEquality.{eq_iff}
use distribution_system.Linearizability.KvModel.{
  KvOperation, operations_at, partition_from, init, step,
}

-- The model accepts the operations one after the other, as they are listed.
unfoldable pub accepts : String → List KvOperation → Bool
unfolding step
accepts state [] = true
accepts state (o ∷ operations) =
    let (ok, state') = step state o.input o.output in ok && accepts state' operations

-- The same for the whole service, whose state has a value for every key.
unfoldable pub service_accepts : (String → String) → List KvOperation → Bool
unfolding step
service_accepts store [] = true
service_accepts store (o ∷ operations) =
    let (ok, value) = step (store o.input.key) o.input o.output in
    ok && service_accepts (λ key. if str_eq o.input.key key then value else store key) operations

-- The operations on a key, in order.
unfoldable pub on_key : String → List KvOperation → List KvOperation
on_key key [] = []
on_key key (o ∷ operations) =
    let rest = on_key key operations in if str_eq o.input.key key then o ∷ rest else rest

and_true : (a b : Bool) → (a && b) ≡ true → (a ≡ true) × (b ≡ true)
and_true a b h = ground arith

true_and : (a b : Bool) → a ≡ true → b ≡ true → (a && b) ≡ true
true_and a b h k = ground arith

-- The store behind an operation.
abbrev after : KvOperation → (String → String) → String → String
after o store key =
    if str_eq o.input.key key then (step (store o.input.key) o.input o.output).1 else store key

service-keys :
    (operations : List KvOperation) (store : String → String)
    → service_accepts store operations ≡ true
    → (key : String) → accepts (store key) (on_key key operations) ≡ true
unfolding service_accepts accepts on_key
service-keys [] store h key = refl
service-keys (o ∷ operations) store h key =
    let (ok, rest) =
      and_true (step (store o.input.key) o.input o.output).0
        (service_accepts (after o store) operations) h in
    let ih = service-keys operations (after o store) rest key in
    elim (Bool-cases (str_eq o.input.key key)) [
      | inl e ↦
          let p : o.input.key ≡ key = (eq_iff o.input.key key).0 e in
          let q : after o store key ≡ (step (store key) o.input o.output).1 = rw (e, p) refl in
          rw e (
            true_and (step (store key) o.input o.output).0
              (accepts (step (store key) o.input o.output).1 (on_key key operations))
              (rw (sym p) ok) (rw (sym q) ih))
      | inr e ↦ let q : after o store key ≡ store key = rw e refl in rw (e, sym q) ih
    ]

keys-service :
    (operations : List KvOperation) (store : String → String)
    → ((key : String) → accepts (store key) (on_key key operations) ≡ true)
    → service_accepts store operations ≡ true
unfolding service_accepts accepts on_key
keys-service [] store h = refl
keys-service (o ∷ operations) store h =
    let k = o.input.key in
    let own =
      and_true (step (store k) o.input o.output).0
        (accepts (step (store k) o.input o.output).1 (on_key k operations))
        (rw (eq_refl k) at (h k)) in
    true_and (step (store k) o.input o.output).0 (service_accepts (after o store) operations) own.0
      (keys-service operations (after o store) (λ key. elim (Bool-cases (str_eq k key)) [
        | inl e ↦
            let p : k ≡ key = (eq_iff k key).0 e in
            let q : after o store key ≡ (step (store k) o.input o.output).1 = rw e refl in
            rw (q, sym p) own.1
        | inr e ↦ let q : after o store key ≡ store key = rw e refl in rw q (rw e at (h key))
      ]))

operations_at-insert :
    (j k : String) (os : List KvOperation) (m : Dict String (List KvOperation))
    → operations_at k (insert j os m) ≡ (if str_eq j k then os else operations_at k m)
operations_at-insert j k os m =
    let l = lookup-insert j k os m in
    elim (Bool-cases (str_eq j k)) [
      | inl e ↦
          let l' : lookup k (insert j os m) ≡ some os = l ∙ rw e refl in
          rw (operations_at, l', e) refl
      | inr e ↦
          let l' : lookup k (insert j os m) ≡ lookup k m = l ∙ rw e refl in
          rw (operations_at, l', e) refl
    ]

partition_from-on_key :
    (k : String) (history : List KvOperation) (m : Dict String (List KvOperation))
    → operations_at k (partition_from history m) ≡ operations_at k m ++ on_key k history
unfolding partition_from on_key
partition_from-on_key k [] m = sym (append-nil (operations_at k m))
partition_from-on_key k (o ∷ history) m =
    let j = o.input.key in
    let m1 = insert j (operations_at j m ++ o ∷ []) m in
    let ih = partition_from-on_key k history m1 in
    let v = operations_at-insert j k (operations_at j m ++ o ∷ []) m in
    elim (Bool-cases (str_eq j k)) [
      | inl e ↦
          let p : j ≡ k = (eq_iff j k).0 e in
          let v' : operations_at k m1 ≡ operations_at j m ++ o ∷ [] = v ∙ rw e refl in
          ih
          ∙ ap (λ os. os ++ on_key k history) v'
          ∙ append_assoc (operations_at j m) (o ∷ []) (on_key k history)
          ∙ rw (e, p) refl
      | inr e ↦
          let v' : operations_at k m1 ≡ operations_at k m = v ∙ rw e refl in
          ih ∙ ap (λ os. os ++ on_key k history) v' ∙ rw e refl
    ]

-- The service accepts a sequence of operations from its empty state exactly if the model accepts,
-- from its initial state, the group that Partition makes of them for every key.
pub partition_suffices :
    (history : List KvOperation)
    → (service_accepts (λ key. init) history ≡ true)
      ↔ ((key : String) → accepts init (operations_at key (partition_from history [])) ≡ true)
unfolding lookup
partition_suffices history = (
  λ h key. rw (partition_from-on_key key history []) (service-keys history (λ key. init) h key),
  λ h.
      keys-service history (λ key. init)
        (λ key. rw (sym (partition_from-on_key key history [])) (h key)),
)
