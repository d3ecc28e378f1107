-- ===== src/Linearizability/Bitset/Widths.antt =====
-- linearizability/bitset.go: a position in range can be set and cleared, and the number of words stays.
use Prim.Native.Nat.{bit_and, bit_or}
use distribution_system.Prelude.{
  ℕ, ◌-◌, ◌/◌, ◌%◌, ◌^◌, ◌<◌, ◌≡◌, refl, lt→ltb, length, set, length-set, get_elem?_lt, done,
}
use distribution_system.Linearizability.Bitset.{Bitset, set_bit, clear_bit}

pub set_bit_runs :
    (pos : ℕ) (b : Bitset)
    → pos / 64 < length b
    → (b' : Bitset) × (set_bit pos b ≡ done b') × (length b' ≡ length b)
unfolding set_bit
set_bit_runs pos b h =
    let (w, e) = get_elem?_lt b (pos / 64) h in
    (
      set b (pos / 64) (bit_or w (2 ^ (pos % 64))),
      rw (e, lt→ltb (pos / 64) (length b) h) refl,
      length-set b (pos / 64) (bit_or w (2 ^ (pos % 64))),
    )

pub clear_bit_runs :
    (pos : ℕ) (b : Bitset)
    → pos / 64 < length b
    → (b' : Bitset) × (clear_bit pos b ≡ done b') × (length b' ≡ length b)
unfolding clear_bit
clear_bit_runs pos b h =
    let (w, e) = get_elem?_lt b (pos / 64) h in
    (
      set b (pos / 64) (w - bit_and w (2 ^ (pos % 64))),
      rw (e, lt→ltb (pos / 64) (length b) h) refl,
      length-set b (pos / 64) (w - bit_and w (2 ^ (pos % 64))),
    )
