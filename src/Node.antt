-- ===== src/Node.antt =====
-- What the program takes from Node.js and the language, where its values are no numbers or bytes:
-- texts and their UTF-8, floating-point numbers as four bytes, and memory that is not initialised.
use lido.Base.{ℕ, ◌≡◌, length, All, Bytes, IsByte}

pub record Node : Type 1 where
  -- A JavaScript string, and the strings with no lone surrogate, which UTF-8 can carry.
  pub Text : Type 0
  pub IsWellFormed : Text → Type 0
  -- Buffer.from(text, 'utf8') and buffer.toString('utf8').
  pub utf8 : Text → Bytes
  pub of_utf8 : Bytes → Text
  pub utf8-IsByte : (t : Text) → All IsByte (utf8 t)
  pub of_utf8-utf8 : (t : Text) → IsWellFormed t → of_utf8 (utf8 t) ≡ t
  -- A JavaScript number as writeFloatLE and readFloatLE take and give it; `fround` is Math.fround.
  pub Float : Type 0
  pub fround : Float → Float
  pub float_le : Float → Bytes
  pub of_float_le : Bytes → Float
  pub length-float_le : (x : Float) → length (float_le x) ≡ 4
  pub float_le-IsByte : (x : Float) → All IsByte (float_le x)
  pub of_float_le-float_le : (x : Float) → of_float_le (float_le x) ≡ fround x
  -- Buffer.allocUnsafe(n): n bytes of unknown content.
  pub alloc_unsafe : ℕ → Bytes
  pub length-alloc_unsafe : (n : ℕ) → length (alloc_unsafe n) ≡ n
