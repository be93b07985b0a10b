-- ===== src/Codec/RoundTrip.antt =====
-- From the rules of src/models/sv2/sv2-binary-codec.ts to whole payloads, and the wire types.
use lido.Base.{
  ℕ, ◌^◌, ◌≤◌, ◌<◌, ◌≡◌, refl, sym, ap, subst, ◌∙◌, arith, length, append-nil, All, All-map, Bytes,
  IsByte, List, [], ◌++◌,
}
use native.Mathlib.Nat.{zero-add}
use lido.Outcome.{M, Result, ok}
use lido.Node.{Node}
use lido.Codec.Read.{
  Reader, new_reader, read_u32, read_u256, read_f32, read_seq0_255, read_seq0_64k,
}
use lido.Codec.Write.{
  Write, new_writer, to_buffer, serialized, write_u32, write_u256, write_f32, write_seq0_255,
  write_seq0_64k,
}
use lido.Codec.Writing.{IsWriter}
use lido.Codec.Codes.{Codes, Codes-u32, Codes-u256, Codes-f32, Codes-seq0_255, Codes-seq0_64k}

-- A payload comes out, made of bytes, and a new reader over it gives the value and is at its end.
abbrev pub RoundTrips : {A : Type 0} → Result Bytes → M Reader A → A → Type 0
RoundTrips s m v =
    (payload : Bytes) × (s ≡ ok payload)
    × All IsByte payload
    × (m (new_reader payload) ≡ ok (v, record { buf = payload; offset = length payload }))

abbrev pub IsU8 : ℕ → Type 0
IsU8 v = v < 2 ^ 8

abbrev pub IsU16 : ℕ → Type 0
IsU16 v = v < 2 ^ 16

abbrev pub IsU32 : ℕ → Type 0
IsU32 v = v < 2 ^ 32

abbrev pub IsU64 : ℕ → Type 0
IsU64 v = v < 2 ^ 64

abbrev pub IsU256 : Bytes → Type 0
IsU256 v = All IsByte v × (length v ≡ 32)

abbrev pub IsB0_32 : Bytes → Type 0
IsB0_32 v = All IsByte v × (length v ≤ 32)

abbrev pub IsB0_64K : Bytes → Type 0
IsB0_64K v = All IsByte v × (length v ≤ 65535)

abbrev pub IsSeq0_255u256 : List Bytes → Type 0
IsSeq0_255u256 xs = All IsU256 xs × (length xs ≤ 255)

abbrev pub IsSeq0_64Ku32 : List ℕ → Type 0
IsSeq0_64Ku32 xs = All IsU32 xs × (length xs ≤ 65535)

module _ ⦃node : Node⦄ where
  open node use {Float, fround, length-alloc_unsafe}

  -- A number that 32 bits hold exactly.
  abbrev pub IsF32 : Float → Type 0
  IsF32 x = fround x ≡ x

  pub Codes-f32_exact : (x : Float) → IsF32 x → Codes (write_f32 x) read_f32 x
  Codes-f32_exact x h = subst (Codes (write_f32 x) read_f32) h (Codes-f32 x)

  pub Codes-seq0_255_u256 :
      (xs : List Bytes)
      → IsSeq0_255u256 xs
      → Codes (write_seq0_255 xs write_u256) (read_seq0_255 read_u256) xs
  Codes-seq0_255_u256 xs h =
      Codes-seq0_255 write_u256 read_u256 xs (All-map (λ x p. Codes-u256 x p.0 p.1) xs h.0) h.1

  pub Codes-seq0_64k_u32 :
      (xs : List ℕ)
      → IsSeq0_64Ku32 xs
      → Codes (write_seq0_64k xs write_u32) (read_seq0_64k read_u32) xs
  Codes-seq0_64k_u32 xs h =
      Codes-seq0_64k write_u32 read_u32 xs (All-map (λ x p. Codes-u32 x p) xs h.0) h.1

  pub new_writer-IsWriter : (n : ℕ) → 0 < n → IsWriter (new_writer n)
  unfolding new_writer
  new_writer-IsWriter n h = record {
    capacity = omega (arith, length-alloc_unsafe n);
    within = omega arith;
  }

  to_buffer-new_writer : (n : ℕ) → to_buffer (new_writer n) ≡ []
  unfolding new_writer to_buffer
  to_buffer-new_writer n = refl

  pub RoundTrips-Codes :
      {A : Type 0} {w : Write} {m : M Reader A} {v : A}
      → Codes w m v
      → RoundTrips (serialized w) m v
  unfolding serialized
  RoundTrips-Codes {w} {v = v} c =
      let (w', e, _, t) = c.writes.run (new_writer 256) (new_writer-IsWriter 256 (omega arith)) in
      let t' : to_buffer w' ≡ c.bytes = t ∙ ap (λ x. x ++ c.bytes) (to_buffer-new_writer 256) in
      (
        c.bytes,
        rw (e, serialized) (ap ok t'),
        c.are_bytes,
        c.reads.run (new_reader c.bytes) [] (sym (append-nil c.bytes)) (omega arith)
            ∙ ap (λ n. ok (v, record { buf = c.bytes; offset = n })) (zero-add (length c.bytes)),
      )
