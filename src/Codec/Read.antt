-- ===== src/Codec/Read.antt =====
-- BufferReader of src/models/sv2/sv2-binary-codec.ts. A Buffer is a list of bytes.
use lido.Base.{
  ℕ, zero, suc, ◌+◌, ◌-◌, Bool, true, false, not, Option, none, some, List, [], ◌∷◌, ltb, leb, ◌==◌,
  if◌then◌else◌, length, take, drop, Bytes, le_value,
}
use lido.Outcome.{M, ok, err, range_error, pure, guard, ◌>>=◌, ◌>>◌}
use lido.Node.{Node}

pub record Reader : Type 0 where
  pub buf : Bytes
  pub offset : ℕ

-- new BufferReader(buf)
abbrev pub new_reader : Bytes → Reader
new_reader buf = record { buf = buf; offset = 0 }

-- `offset` never passes the length (Codec/Reading.antt), so the subtraction is exact.
pub remaining : Reader → ℕ
remaining r = length r.buf - r.offset

pub position : Reader → ℕ
position r = r.offset

unfoldable pub ensure : ℕ → M Reader (Unit {0})
ensure n r = if ltb (length r.buf) (r.offset + n) then err range_error else ok (tt, r)

-- buf.subarray(offset, offset + n), or the bytes that readUInt16LE and its like look at.
abbrev pub slice : ℕ → Reader → Bytes
slice n r = take n (drop r.offset r.buf)

abbrev pub advance : ℕ → Reader → Reader
advance n r = record r { offset = r.offset + n }

unfoldable pub read_bytes : ℕ → M Reader Bytes
read_bytes n = do ensure n; λ r. ok (slice n r, advance n r)

-- The number in the next n bytes: `buf[offset++]`, readUInt16LE, the three bytes joined by `|` and
-- `<<` (which share no bits), readUInt32LE and readBigUInt64LE.
unfoldable pub read_le : ℕ → M Reader ℕ
read_le n = do ensure n; λ r. ok (le_value (slice n r), advance n r)

unfoldable pub read_u8 : M Reader ℕ
read_u8 = read_le 1

unfoldable pub read_u16 : M Reader ℕ
read_u16 = read_le 2

unfoldable pub read_u24 : M Reader ℕ
read_u24 = read_le 3

unfoldable pub read_u32 : M Reader ℕ
read_u32 = read_le 4

unfoldable pub read_u64 : M Reader ℕ
read_u64 = read_le 8

unfoldable pub read_bool : M Reader Bool
read_bool = do b ← read_le 1; pure (not (b == 0))

unfoldable pub read_u256 : M Reader Bytes
read_u256 = read_bytes 32

-- The flag, and four more bytes unless it is 0.
unfoldable pub read_option_u32 : M Reader (Option ℕ)
read_option_u32 = do
  flag ← read_le 1
  elim (flag == 0) [ true ↦ pure none | false ↦ (do v ← read_le 4; pure (some v)) ]

unfoldable pub read_b0_32 : M Reader Bytes
read_b0_32 = do len ← read_u8; guard (leb len 32) range_error; read_bytes len

unfoldable pub read_b0_255 : M Reader Bytes
read_b0_255 = do len ← read_u8; read_bytes len

unfoldable pub read_b0_64k : M Reader Bytes
read_b0_64k = do len ← read_u16; read_bytes len

unfoldable pub read_b0_16m : M Reader Bytes
read_b0_16m = do len ← read_u24; read_bytes len

-- The loop of readSeq0_255 and readSeq0_64K: `count` calls of the element's reader.
unfoldable pub read_times : {A : Type 0} → ℕ → M Reader A → M Reader (List A)
read_times zero read_fn = pure []
read_times (suc n) read_fn = do x ← read_fn; xs ← read_times n read_fn; pure (x ∷ xs)

unfoldable pub read_seq0_255 : {A : Type 0} → M Reader A → M Reader (List A)
read_seq0_255 read_fn = do count ← read_u8; read_times count read_fn

unfoldable pub read_seq0_64k : {A : Type 0} → M Reader A → M Reader (List A)
read_seq0_64k read_fn = do count ← read_u16; read_times count read_fn

module _ ⦃node : Node⦄ where
  open node use {Text, of_utf8, Float, of_float_le}

  unfoldable pub read_f32 : M Reader Float
  read_f32 = do b ← read_bytes 4; pure (of_float_le b)

  unfoldable pub read_str0_255 : M Reader Text
  read_str0_255 = do len ← read_u8; payload ← read_bytes len; pure (of_utf8 payload)
