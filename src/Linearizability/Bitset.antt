-- ===== src/Linearizability/Bitset.antt =====
-- linearizability/bitset.go, on words of 64 bits.
pub mod Widths
use Prim.Native.Nat.{bit_and, bit_or, bit_xor}
use distribution_system.Prelude.{
  ℕ, ◌+◌, ◌-◌, ◌*◌, ◌/◌, ◌%◌, ◌^◌, ◌==◌, not, Bool, true, false, List, [], ◌∷◌, if◌then◌else◌,
  length, replicate, Outcome, done, ◌>>=◌, at, put_at,
}

abbrev pub Bitset : Type 0
Bitset = List ℕ

unfoldable pub new_bitset : ℕ → Bitset
new_bitset bits = let extra = if bits % 64 == 0 then 0 else 1 in replicate (bits / 64 + extra) 0

-- A copy: the model's lists are not shared.
unfoldable pub clone : Bitset → Bitset
clone b = b

unfoldable pub bitset_index : ℕ → ℕ × ℕ
bitset_index pos = (pos / 64, pos % 64)

-- b[major] |= 1 << minor
unfoldable pub set_bit : ℕ → Bitset → Outcome Bitset
unfolding bitset_index
set_bit pos b = do
  word ← at b (bitset_index pos).0
  put_at b (bitset_index pos).0 (bit_or word (2 ^ (bitset_index pos).1))

-- b[major] &^= 1 << minor
unfoldable pub clear_bit : ℕ → Bitset → Outcome Bitset
unfolding bitset_index
clear_bit pos b = do
  word ← at b (bitset_index pos).0
  put_at b (bitset_index pos).0 (word - bit_and word (2 ^ (bitset_index pos).1))

unfoldable pub get_bit : ℕ → Bitset → Outcome Bool
unfolding bitset_index
get_bit pos b = do
  word ← at b (bitset_index pos).0
  done (not (bit_and word (2 ^ (bitset_index pos).1) == 0))

-- The number of ones in a word, by sums in fields of 2, 4 and 8 bits.
unfoldable pub popcnt_word : ℕ → ℕ
popcnt_word v0 =
    let v1 = (bit_and v0 0x5555555555555555 + bit_and v0 0xAAAAAAAAAAAAAAAA / 2) % 2 ^ 64 in
    let v2 = (bit_and v1 0x3333333333333333 + bit_and v1 0xCCCCCCCCCCCCCCCC / 4) % 2 ^ 64 in
    let v3 = (bit_and v2 0x0F0F0F0F0F0F0F0F + bit_and v2 0xF0F0F0F0F0F0F0F0 / 16) % 2 ^ 64 in
    let v4 = (v3 * 0x0101010101010101) % 2 ^ 64 in bit_and (v4 / 2 ^ 56) 0xFF

unfoldable pub popcnt : Bitset → ℕ
unfolding popcnt_word
popcnt [] = 0
popcnt (v ∷ b) = (popcnt_word v + popcnt b) % 2 ^ 64

unfoldable pub xor_all : ℕ → Bitset → ℕ
xor_all hash [] = hash
xor_all hash (v ∷ b) = xor_all (bit_xor hash v) b

unfoldable pub hash : Bitset → ℕ
unfolding popcnt xor_all
hash b = xor_all (popcnt b) b

-- The loop over two bitsets of one length.
unfoldable pub equal_words : Bitset → Bitset → Bool
equal_words [] b2 = true
equal_words (v ∷ b) [] = true
equal_words (v ∷ b) (w ∷ b2) = if v == w then equal_words b b2 else false

unfoldable pub equals : Bitset → Bitset → Bool
unfolding equal_words
equals b b2 = if length b == length b2 then equal_words b b2 else false
