-- ===== src/Prelude/Panics.antt =====
-- A Go computation that may panic: an index or a slice bound out of range ends the process.
use Prim.Native.Nat.{ℕ}
use mathlib.Core.Path.{◌≡◌, refl, subst}
use mathlib.Core.Bool.{Bool, true, false, ◌&&◌}
use mathlib.Core.Option.{Option, none, some}
use mathlib.Core.List.{List}
use distribution_system.Prelude.Tests.{ltb, leb, if◌then◌else◌}
use distribution_system.Prelude.Lists.{length, get_elem?, set, take, drop}

pub data Outcome {ℓ} (A : Type ℓ) : Type ℓ where
  done : A → Outcome A
  panic : Outcome A

infixl 5 ◌>>=◌
abbrev pub ◌>>=◌ {ℓ κ} : {A : Type ℓ} {B : Type κ} → Outcome A → (A → Outcome B) → Outcome B
done a >>= f = f a
panic >>= f = panic

module _ {ℓ} {A : Type ℓ} where
  abbrev pub or_panic : Option A → Outcome A
  or_panic none = panic
  or_panic (some a) = done a

  -- xs[i]
  abbrev pub at : List A → ℕ → Outcome A
  at xs i = or_panic (get_elem? xs i)

  -- xs[i] = v
  abbrev pub put_at : List A → ℕ → A → Outcome (List A)
  put_at xs i v = if ltb i (length xs) then done (set xs i v) else panic

  -- xs[lo:]
  abbrev pub slice_from : List A → ℕ → Outcome (List A)
  slice_from xs lo = if leb lo (length xs) then done (drop lo xs) else panic

  -- xs[:hi] (the callers never reach past the length into the capacity)
  abbrev pub slice_to : List A → ℕ → Outcome (List A)
  slice_to xs hi = if leb hi (length xs) then done (take hi xs) else panic

  -- xs[lo:hi]
  abbrev pub slice : List A → ℕ → ℕ → Outcome (List A)
  slice xs lo hi = if leb lo hi && leb hi (length xs) then done (drop lo (take hi xs)) else panic

-- `P` holds of the result, if there is one.
pub data Always {ℓ κ} {A : Type ℓ} (P : A → Type κ) : Outcome A → Type (ℓ ⊔ κ) where
  at_done : (a : A) → P a → Always P (done a)
  at_panic : Always P panic

-- There is a result, and `P` holds of it.
pub data Returns {ℓ κ} {A : Type ℓ} (P : A → Type κ) : Outcome A → Type (ℓ ⊔ κ) where
  returns : (a : A) → P a → Returns P (done a)

module _ {ℓ κ} {A : Type ℓ} {P : A → Type κ} where
  pub Always-if :
      (b : Bool) (m n : Outcome A)
      → (b ≡ true → Always P m)
      → (b ≡ false → Always P n)
      → Always P (if b then m else n)
  Always-if true m n hm hn = hm refl
  Always-if false m n hm hn = hn refl

  pub Always-at : (m : Outcome A) → Always P m → {a : A} → m ≡ done a → P a
  Always-at (done b) (at_done _ p) {a} e = let q : b ≡ a = cc in subst P q p
  Always-at panic h e = absurd (cc)

  pub Always-of : (m : Outcome A) → ((a : A) → m ≡ done a → P a) → Always P m
  Always-of (done a) h = at_done a (h a refl)
  Always-of panic h = at_panic

  pub Returns-at : (m : Outcome A) → Returns P m → (a : A) × (m ≡ done a) × P a
  Returns-at (done a) (returns _ p) = (a, refl, p)
  Returns-at panic r = elim r [ ]

  pub Returns-Always : (m : Outcome A) → Returns P m → Always P m
  Returns-Always (done a) (returns _ p) = at_done a p
  Returns-Always panic r = elim r [ ]

module _ {ℓ κ μ ν} {A : Type ℓ} {B : Type κ} {P : A → Type μ} {Q : B → Type ν} where
  pub Always-bind :
      (m : Outcome A) (f : A → Outcome B)
      → Always P m
      → ((a : A) → P a → Always Q (f a))
      → Always Q (m >>= f)
  Always-bind (done a) f (at_done _ p) h = h a p
  Always-bind panic f at_panic h = at_panic

  pub Returns-bind :
      (m : Outcome A) (f : A → Outcome B)
      → Returns P m
      → ((a : A) → P a → Returns Q (f a))
      → Returns Q (m >>= f)
  Returns-bind (done a) f (returns _ p) h = h a p
  Returns-bind panic f r h = elim r [ ]

module _ {ℓ} {A : Type ℓ} where
  -- What does not panic has a result.
  pub result_of : (m : Outcome A) → ¬ (m ≡ panic) → (a : A) × (m ≡ done a)
  result_of (done a) h = (a, refl)
  result_of panic h = absurd (h refl)

module _ {ℓ κ} {A : Type ℓ} {B : Type κ} where
  pub >>=-eq-done :
      (m : Outcome A) (f : A → Outcome B) {b : B}
      → (m >>= f) ≡ done b
      → (a : A) × (m ≡ done a) × (f a ≡ done b)
  >>=-eq-done (done a) f h = (a, refl, h)
  >>=-eq-done panic f h = cc
