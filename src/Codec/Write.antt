-- ===== src/Codec/Write.antt =====
-- BufferWriter of src/models/sv2/sv2-binary-codec.ts. `buf` is the memory, `offset` of it is written.
use lido.Base.{
  ℕ, zero, suc, ◌+◌, ◌-◌, ◌*◌, ◌%◌, ◌^◌, Bool, Option, none, some, List, [], ◌∷◌, ◌++◌, ltb, leb,
  ◌==◌, if◌then◌else◌, length, take, drop, Bytes, le_bytes,
}
use lido.Outcome.{M, Result, ok, err, range_error, stuck, pure, guard, ◌>>◌}
use lido.Node.{Node}

pub record Writer : Type 0 where
  pub buf : Bytes
  pub offset : ℕ

abbrev pub Write : Type 0
Write = M Writer (Unit {0})

-- buf.copy(target, at): the bytes land in the target, and what does not fit is left out.
abbrev pub copy : Bytes → Bytes → ℕ → Bytes
copy source target at =
    take at target ++ (take (length target - at) source ++ drop (length source) (drop at target))

-- `while (newSize < needed) newSize *= 2`. The fuel `needed` is enough from any positive size.
unfoldable pub double_until : ℕ → ℕ → ℕ → Result ℕ
double_until zero new_size needed = if ltb new_size needed then err stuck else ok new_size
double_until (suc fuel) new_size needed =
    let more = double_until fuel (new_size * 2) needed in
    if ltb new_size needed then more else ok new_size

-- toBuffer: the bytes written so far.
unfoldable pub to_buffer : Writer → Bytes
to_buffer w = take w.offset w.buf

-- The bytes are put at `offset`, and `offset` moves past them.
unfoldable pub store : Bytes → Write
store v w = ok (tt, record { buf = copy v w.buf w.offset; offset = w.offset + length v })

module _ ⦃node : Node⦄ where
  open node use {Text, utf8, Float, float_le, alloc_unsafe}

  -- new BufferWriter(initialSize)
  unfoldable pub new_writer : ℕ → Writer
  new_writer initial_size = record { buf = alloc_unsafe initial_size; offset = 0 }

  -- The content moves to a new buffer of new_size bytes.
  unfoldable pub move_to : Writer → ℕ → Writer
  move_to w new_size = record w { buf = copy (take w.offset w.buf) (alloc_unsafe new_size) 0 }

  -- The body of ensureCapacity's `if`.
  unfoldable pub grow : ℕ → Write
  grow needed w = elim (double_until needed (length w.buf * 2) needed) [
    | ok new_size ↦ ok (tt, move_to w new_size)
    | err e ↦ err e
  ]

  unfoldable pub ensure_capacity : ℕ → Write
  ensure_capacity n w =
      if ltb (length w.buf) (w.offset + n) then grow (w.offset + n) w else ok (tt, w)

  -- ensureCapacity, the bytes stored at `offset`, and `offset` moved past them.
  unfoldable pub write_bytes : Bytes → Write
  write_bytes v = do ensure_capacity (length v); store v

  -- `v & 0xff` keeps the lowest byte.
  unfoldable pub write_u8 : ℕ → Write
  write_u8 v = write_bytes (le_bytes 1 v)

  unfoldable pub write_bool : Bool → Write
  write_bool v = write_bytes ((if v then 1 else 0) ∷ [])

  -- writeUInt16LE refuses what does not fit 16 bits.
  unfoldable pub write_u16 : ℕ → Write
  write_u16 v = do ensure_capacity 2; guard (ltb v (2 ^ 16)) range_error; store (le_bytes 2 v)

  unfoldable pub write_u24 : ℕ → Write
  write_u24 v = write_bytes (le_bytes 3 v)

  -- `v >>> 0` is v modulo 2 ^ 32.
  unfoldable pub write_u32 : ℕ → Write
  write_u32 v = write_bytes (le_bytes 4 (v % 2 ^ 32))

  -- writeBigUInt64LE refuses what does not fit 64 bits.
  unfoldable pub write_u64 : ℕ → Write
  write_u64 v = do ensure_capacity 8; guard (ltb v (2 ^ 64)) range_error; store (le_bytes 8 v)

  unfoldable pub write_option_u32 : Option ℕ → Write
  write_option_u32 none = write_u8 0
  write_option_u32 (some v) = do write_u8 1; write_u32 v

  unfoldable pub write_u256 : Bytes → Write
  write_u256 v = do guard (length v == 32) range_error; write_bytes v

  unfoldable pub write_f32 : Float → Write
  write_f32 v = write_bytes (float_le v)

  unfoldable pub write_b0_32 : Bytes → Write
  write_b0_32 v = do guard (leb (length v) 32) range_error; write_u8 (length v); write_bytes v

  unfoldable pub write_b0_255 : Bytes → Write
  write_b0_255 v = do guard (leb (length v) 255) range_error; write_u8 (length v); write_bytes v

  unfoldable pub write_str0_255 : Text → Write
  write_str0_255 v = do
    guard (leb (length (utf8 v)) 255) range_error
    write_u8 (length (utf8 v))
    write_bytes (utf8 v)

  unfoldable pub write_b0_64k : Bytes → Write
  write_b0_64k v = do guard (leb (length v) 65535) range_error; write_u16 (length v); write_bytes v

  unfoldable pub write_b0_16m : Bytes → Write
  write_b0_16m v = do
    guard (leb (length v) 16777215) range_error
    write_u24 (length v)
    write_bytes v

  -- `for (const item of items) writeFn(this, item)`
  unfoldable pub write_each : {A : Type 0} → (A → Write) → List A → Write
  write_each write_fn [] = pure tt
  write_each write_fn (x ∷ xs) = do write_fn x; write_each write_fn xs

  unfoldable pub write_seq0_255 : {A : Type 0} → List A → (A → Write) → Write
  write_seq0_255 items write_fn = do
    guard (leb (length items) 255) range_error
    write_u8 (length items)
    write_each write_fn items

  unfoldable pub write_seq0_64k : {A : Type 0} → List A → (A → Write) → Write
  write_seq0_64k items write_fn = do
    guard (leb (length items) 65535) range_error
    write_u16 (length items)
    write_each write_fn items

  -- `const w = new BufferWriter(); ...; return w.toBuffer()`, the shape of every serializer.
  unfoldable pub serialized : Write → Result Bytes
  serialized m = elim (m (new_writer 256)) [ ok (_, w) ↦ ok (to_buffer w) | err e ↦ err e ]
