-- ===== src/Difficulty.antt =====
-- src/utils/difficulty.utils.ts, the part over 256-bit integers: targets as 32 bytes, lowest first.
-- The part over floating-point difficulties is not modelled.
pub mod Targets
pub mod Compact
use lido.Base.{
  ℕ, zero, suc, ◌+◌, ◌-◌, ◌*◌, ◌/◌, ◌%◌, ◌^◌, Bool, true, false, ◌&&◌, ◌||◌, not, Option, none,
  some, List, [], ◌∷◌, ◌++◌, ltb, leb, ◌==◌, if◌then◌else◌, length, replicate, get_or, set, Bytes,
  le_bytes,
}
use lido.Outcome.{Result, ok, err, bad_argument}

-- left[i] - right[i] by its sign.
pub data Sign : Type 0 where
  negative zero_sign positive : Sign

-- compareLe256 from byte i - 1 down to byte 0, the first difference deciding.
unfoldable pub compare_from : ℕ → Bytes → Bytes → Sign
compare_from zero left right = zero_sign
compare_from (suc i) left right =
    let rest = compare_from i left right in
    if ltb (get_or left i 0) (get_or right i 0)
    then negative
    else if ltb (get_or right i 0) (get_or left i 0)
    then positive
    else rest

unfoldable pub compare_le256 : Bytes → Bytes → Sign
compare_le256 left right = compare_from 32 left right

abbrev pub not_positive : Sign → Bool
not_positive negative = true
not_positive zero_sign = true
not_positive positive = false

unfoldable pub meets_target : Bytes → Bytes → Result Bool
meets_target hash_buffer target =
    if not (length hash_buffer == 32) || not (length target == 32)
    then err bad_argument
    else ok (not_positive (compare_le256 hash_buffer target))

-- The loop of bigIntToLe256 over 32 bytes; what does not fit is dropped.
unfoldable pub big_int_to_le256 : ℕ → Bytes
big_int_to_le256 value = le_bytes 32 value

unfoldable pub is_zero_target : Bytes → Bool
is_zero_target [] = true
is_zero_target (b ∷ bs) = b == 0 && is_zero_target bs

-- `nBits >>> 24`
abbrev pub compact_size : ℕ → ℕ
compact_size n_bits = n_bits / 2 ^ 24

-- `nBits & 0x007fffff`, shifted right by the bytes that do not fit if size is below 3.
abbrev pub compact_word : ℕ → ℕ
compact_word n_bits =
    let word = n_bits % 2 ^ 23 in
    if leb (compact_size n_bits) 3 then word / 256 ^ (3 - compact_size n_bits) else word

-- The loop that stores the word's three bytes at `offset`, as far as the target reaches.
unfoldable pub store_word : ℕ → ℕ → ℕ → Bytes → Bytes
store_word zero offset word target = target
store_word (suc n) offset word target =
    store_word n (offset + 1) (word / 256) (set target offset (word % 256))

-- The word's sign bit, which makes a number other than zero negative.
abbrev pub is_negative : ℕ → Bool
is_negative n_bits = not (compact_word n_bits == 0) && not (n_bits / 2 ^ 23 % 2 == 0)

abbrev pub overflows : ℕ → Bool
overflows n_bits =
    let size = compact_size n_bits in
    let word = compact_word n_bits in
    not (word == 0)
    && (ltb 34 size || ((ltb 0xff word && ltb 33 size) || (ltb 0xffff word && ltb 32 size)))

-- A natural number is an integer and not negative, which leaves the test of its 32 bits.
unfoldable pub compact_to_target : ℕ → Option Bytes
compact_to_target n_bits =
    let size = compact_size n_bits in
    let word = compact_word n_bits in
    if ltb 0xffffffff n_bits || (word == 0 || (is_negative n_bits || overflows n_bits))
    then none
    else some (store_word 3 (if leb size 3 then 0 else size - 3) word (replicate 32 0))

unfoldable pub meets_compact_target : Bytes → ℕ → Result Bool
meets_compact_target hash_buffer n_bits =
    if not (length hash_buffer == 32) then err bad_argument else elim (compact_to_target n_bits) [
      | none ↦ ok false
      | some target ↦ meets_target hash_buffer target
    ]
