-- ===== src/Labrpc/Bytes.antt =====
-- labrpc/labrpc.go: names of services and methods, as the bytes of Go's strings.
use distribution_system.Prelude.{
  ℕ, suc, ◌+◌, ◌==◌, ==_iff, ◌≡◌, refl, subst, ◌↔◌, Bool, true, false, ◌&&◌, Option, none, some,
  List, [], ◌∷◌, if◌then◌else◌, arith, Outcome, done, ◌>>=◌, or_panic, slice_to, slice_from,
}
use distribution_system.Prelude.Dict.{Eq}

abbrev pub Bytes : Type 0
Bytes = List ℕ

abbrev pub equal_bytes : Bytes → Bytes → Bool
equal_bytes [] [] = true
equal_bytes [] (y ∷ ys) = false
equal_bytes (x ∷ xs) [] = false
equal_bytes (x ∷ xs) (y ∷ ys) = (x == y) && equal_bytes xs ys

equal_bytes_path : (xs ys : Bytes) → equal_bytes xs ys ≡ true → xs ≡ ys
equal_bytes_path [] [] h = refl
equal_bytes_path [] (y ∷ ys) h = absurd (cc)
equal_bytes_path (x ∷ xs) [] h = absurd (cc)
equal_bytes_path (x ∷ xs) (y ∷ ys) h =
    let e : (x == y) ≡ true = ground arith in
    let r : equal_bytes xs ys ≡ true = ground arith in
    let p = (==_iff x y).0 e in let q = equal_bytes_path xs ys r in cc

equal_bytes_refl : (xs : Bytes) → equal_bytes xs xs ≡ true
equal_bytes_refl [] = refl
equal_bytes_refl (x ∷ xs) = ground (arith, equal_bytes_refl xs)

pub equal_bytes_iff : (xs ys : Bytes) → (equal_bytes xs ys ≡ true) ↔ (xs ≡ ys)
equal_bytes_iff xs ys =
    (equal_bytes_path xs ys, λ p. subst (λ z. equal_bytes xs z ≡ true) p (equal_bytes_refl xs))

instance abbrev pub bytes_eq : Eq Bytes
bytes_eq = record { eq = equal_bytes; eq_iff_path = equal_bytes_iff }

-- The byte "."
abbrev pub dot : ℕ
dot = 46

-- strings.LastIndex(s, "."), none for -1
unfoldable pub last_dot : Bytes → Option ℕ
last_dot [] = none
last_dot (c ∷ s) = elim (last_dot s) [
  | some i ↦ some (suc i)
  | none ↦ if c == dot then some 0 else none
]

-- The name of the service and that of the method: a slice to -1 panics.
unfoldable pub split_method : Bytes → Outcome (Bytes × Bytes)
unfolding last_dot
split_method svc_meth = do
  i ← or_panic (last_dot svc_meth)
  service_name ← slice_to svc_meth i
  method_name ← slice_from svc_meth (i + 1)
  done (service_name, method_name)
