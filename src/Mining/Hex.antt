-- ===== src/Mining/Hex.antt =====
-- Hexadecimal texts: buffer.toString('hex'), Buffer.from(text, 'hex') and parseInt(text, 16).
use lido.Base.{
  ℕ, ◌+◌, ◌-◌, ◌*◌, ◌/◌, ◌%◌, ◌<◌, ◌≡◌, refl, Bool, true, false, ◌&&◌, ◌||◌, Option, none, some, [],
  ◌∷◌, ◌++◌, length, ltb, leb, ◌==◌, if◌then◌else◌, All, Bytes, IsByte, arith,
}
use lido.Client.{Units}

unfoldable pub digit : ℕ → ℕ
digit n = if ltb n 10 then n + 48 else n + 87

unfoldable pub hex_value : ℕ → Option ℕ
hex_value c =
    if leb 48 c && leb c 57
    then some (c - 48)
    else if leb 97 c && leb c 102
    then some (c - 87)
    else if leb 65 c && leb c 70
    then some (c - 55)
    else none

unfoldable pub to_hex : Bytes → Units
to_hex [] = []
to_hex (b ∷ bs) = digit (b / 16) ∷ digit (b % 16) ∷ to_hex bs

-- The byte of two digits before the rest, or the end at a character that is no digit.
unfoldable pub hex_pair : Option ℕ → Option ℕ → Bytes → Bytes
hex_pair (some h) (some l) rest = (h * 16 + l) ∷ rest
hex_pair (some h) none rest = []
hex_pair none l rest = []

unfoldable pub of_hex : Units → Bytes
of_hex [] = []
of_hex (c ∷ []) = []
of_hex (c ∷ d ∷ cs) = hex_pair (hex_value c) (hex_value d) (of_hex cs)

hex_value-digit : (n : ℕ) → n < 16 → hex_value (digit n) ≡ some n
unfolding hex_value digit
hex_value-digit n h = ground arith

pub of_hex-to_hex :
    (bs : Bytes) (u : Units) → All IsByte bs → of_hex (to_hex bs ++ u) ≡ bs ++ of_hex u
unfolding of_hex to_hex hex_pair
of_hex-to_hex [] u h = refl
of_hex-to_hex (b ∷ bs) u h =
    let high = hex_value-digit (b / 16) (omega (arith, h.0)) in
    let low = hex_value-digit (b % 16) (omega arith) in
    let whole : b / 16 * 16 + b % 16 ≡ b = omega arith in
    rw (high, low, whole, of_hex-to_hex bs u h.1)

pub to_hex-append : (xs ys : Bytes) → to_hex (xs ++ ys) ≡ to_hex xs ++ to_hex ys
unfolding to_hex
to_hex-append [] ys = refl
to_hex-append (x ∷ xs) ys = rw (to_hex-append xs ys)

pub length-to_hex : (bs : Bytes) → length (to_hex bs) ≡ 2 * length bs
unfolding to_hex
length-to_hex [] = refl
length-to_hex (b ∷ bs) = omega (arith, length-to_hex bs)

-- What parseInt gives: NaN, or a sign and an absolute value.
pub data Parsed : Type 0 where
  nan : Parsed
  integer : Bool → ℕ → Parsed

unfoldable pub is_white : ℕ → Bool
is_white c =
    (leb 9 c && leb c 13)
    || c == 32
    || c == 160
    || c == 5760
    || (leb 8192 c && leb c 8202)
    || c == 8232
    || c == 8233
    || c == 8239
    || c == 8287
    || c == 12288
    || c == 65279

unfoldable pub skip_white : Units → Units
skip_white [] = []
skip_white (c ∷ cs) = let rest = skip_white cs in if is_white c then rest else c ∷ cs

abbrev pub or_nothing : Option ℕ → ℕ
or_nothing none = 0
or_nothing (some n) = n

unfoldable pub if_digit : Option ℕ → Option ℕ → (ℕ → Option ℕ) → Option ℕ
if_digit none read f = read
if_digit (some d) read f = f d

-- The value of the digits at the front behind those that were read, of which `none` is none.
unfoldable pub read_digits : Option ℕ → Units → Option ℕ
read_digits read [] = read
read_digits read (c ∷ cs) =
    if_digit (hex_value c) read (λ d. read_digits (some (or_nothing read * 16 + d)) cs)

-- Behind `0x`, or the text itself.
unfoldable pub skip_prefix : Units → Units
skip_prefix [] = []
skip_prefix (c ∷ []) = c ∷ []
skip_prefix (c ∷ d ∷ cs) = if c == 48 && (d == 120 || d == 88) then cs else c ∷ d ∷ cs

unfoldable pub parsed : Bool → Option ℕ → Parsed
parsed negative none = nan
parsed negative (some n) = integer negative n

unfoldable pub parse_signed : Units → Parsed
parse_signed [] = nan
parse_signed (c ∷ cs) =
    if c == 45
    then parsed true (read_digits none (skip_prefix cs))
    else parsed false (read_digits none (skip_prefix (if c == 43 then cs else c ∷ cs)))

unfoldable pub parse_hex : Units → Parsed
parse_hex text = parse_signed (skip_white text)

pub read_digits-digit :
    (read : Option ℕ) (n : ℕ) (text : Units)
    → n < 16
    → read_digits read (digit n ∷ text) ≡ read_digits (some (or_nothing read * 16 + n)) text
unfolding read_digits if_digit
read_digits-digit read n text h = rw (hex_value-digit n h)
