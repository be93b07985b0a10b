-- ===== src/Codec/Codes.antt =====
-- A writer and a reader of src/models/sv2/sv2-binary-codec.ts that fit together at a value: rules
-- for each pair of methods, and for the chains of them that messages are made of.
use lido.Base.{
  ℕ, ◌%◌, ◌^◌, ◌≤◌, ◌<◌, ◌≡◌, refl, sym, subst, ◌++◌, arith, length, append-nil, All, All-append,
  Bytes, IsByte, le_bytes, length-le_bytes, le_bytes-IsByte, le_value-le_bytes, le→leb, lt→ltb,
  List, [], ◌∷◌, Option, none, some, Bool, true, false, ◌==◌, ==_iff, not,
}
use lido.Outcome.{M, pure, guard, guard-true, range_error, ◌>>=◌, ◌>>◌}
use lido.Node.{Node}
use lido.Codec.Read.{
  Reader, read_bytes, read_le, read_u8, read_u16, read_u24, read_u32, read_u64, read_bool,
  read_u256, read_option_u32, read_b0_32, read_b0_255, read_b0_64k, read_b0_16m, read_times,
  read_seq0_255, read_seq0_64k, read_f32, read_str0_255,
}
use lido.Codec.Write.{
  Write, store, ensure_capacity, write_bytes, write_u8, write_bool, write_u16, write_u24, write_u32,
  write_u64, write_option_u32, write_u256, write_f32, write_b0_32, write_b0_255, write_str0_255,
  write_b0_64k, write_b0_16m, write_each, write_seq0_255, write_seq0_64k,
}
use lido.Codec.Reading.{Reads, Reads-bytes, Reads-le, Reads-pure, Reads-bind}
use lido.Codec.Writing.{Writes, Writes-pure, Writes-seq, Writes-store, Writes-bytes}

-- The writer appends some bytes, and where these come next the reader returns `v` and takes them.
pub record Codes {A : Type 0} (w : Write) (m : M Reader A) (v : A) : Type 0 where
  pub bytes : Bytes
  pub are_bytes : All IsByte bytes
  pub writes : Writes w bytes
  pub reads : Reads m bytes v

pub Codes-pure : {A : Type 0} (v : A) → Codes (pure tt) (pure v) v
Codes-pure v = record { bytes = []; are_bytes = tt; writes = Writes-pure; reads = Reads-pure v }

-- One field, and what follows it.
pub Codes-seq :
    {A B : Type 0} (w x : Write) (m : M Reader A) (f : A → M Reader B) (v : A) (u : B)
    → Codes w m v
    → Codes x (f v) u
    → Codes (w >> x) (m >>= f) u
Codes-seq w x m f v u p q = record {
  bytes = p.bytes ++ q.bytes;
  are_bytes = All-append IsByte p.bytes q.bytes p.are_bytes q.are_bytes;
  writes = Writes-seq w x p.bytes q.bytes p.writes q.writes;
  reads = Reads-bind m f p.bytes q.bytes v u p.reads q.reads;
}

-- The last field, and the rest of the reader, which takes no more bytes.
pub Codes-end :
    {A B : Type 0} (w : Write) (m : M Reader A) (f : A → M Reader B) (v : A) (u : B)
    → Codes w m v
    → Reads (f v) [] u
    → Codes w (m >>= f) u
Codes-end w m f v u p q = record {
  bytes = p.bytes;
  are_bytes = p.are_bytes;
  writes = p.writes;
  reads =
      subst (λ bs. Reads (m >>= f) bs u) (append-nil p.bytes)
        (Reads-bind m f p.bytes [] v u p.reads q);
}

pub Codes-last :
    {A B : Type 0} (w : Write) (m : M Reader A) (g : A → B) (v : A)
    → Codes w m v
    → Codes w (m >>= λ x. pure (g x)) (g v)
Codes-last w m g v p = Codes-end w m (λ x. pure (g x)) v (g v) p (Reads-pure (g v))

-- A length check that passes, before the writer and before the reader.
Codes-guard :
    {A : Type 0} (b : Bool) (w : Write) (m : M Reader A) (v : A)
    → b ≡ true
    → Codes w m v
    → Codes (guard b range_error >> w) m v
Codes-guard b w m v h p = subst (λ x. Codes x m v) (sym (guard-true b range_error w h)) p

Codes-read_guard :
    {A : Type 0} (b : Bool) (w : Write) (m : M Reader A) (v : A)
    → b ≡ true
    → Codes w m v
    → Codes w (guard b range_error >> m) v
Codes-read_guard b w m v h p = subst (λ x. Codes w x v) (sym (guard-true b range_error m h)) p

Reads-le_bytes : (n v : ℕ) → v < 256 ^ n → Reads (read_le n) (le_bytes n v) v
Reads-le_bytes n v h =
    subst (Reads (read_le n) (le_bytes n v)) (le_value-le_bytes n v h)
      (Reads-le n (le_bytes n v) (length-le_bytes n v))

abbrev pub IsOptionU32 : Option ℕ → Type 0
IsOptionU32 none = Unit {0}
IsOptionU32 (some v) = v < 2 ^ 32

module _ ⦃node : Node⦄ where
  open node use {Text, utf8, of_utf8, IsWellFormed, utf8-IsByte, of_utf8-utf8}
  open node use {Float, fround, float_le, of_float_le}
  open node use {length-float_le, float_le-IsByte, of_float_le-float_le}

  Codes-le :
      (n v : ℕ) (m : M Reader ℕ)
      → v < 256 ^ n
      → m ≡ read_le n
      → Codes (write_bytes (le_bytes n v)) m v
  Codes-le n v m h e = record {
    bytes = le_bytes n v;
    are_bytes = le_bytes-IsByte n v;
    writes = Writes-bytes (le_bytes n v);
    reads = subst (λ x. Reads x (le_bytes n v) v) (sym e) (Reads-le_bytes n v h);
  }

  pub Codes-bytes :
      (v : Bytes) (n : ℕ) → All IsByte v → length v ≡ n → Codes (write_bytes v) (read_bytes n) v
  Codes-bytes v n h l = record {
    bytes = v;
    are_bytes = h;
    writes = Writes-bytes v;
    reads = subst (λ k. Reads (read_bytes k) v v) l (Reads-bytes v);
  }

  pub Codes-u8 : (v : ℕ) → v < 2 ^ 8 → Codes (write_u8 v) read_u8 v
  unfolding write_u8 read_u8
  Codes-u8 v h = Codes-le 1 v _ h refl

  pub Codes-u24 : (v : ℕ) → v < 2 ^ 24 → Codes (write_u24 v) read_u24 v
  unfolding write_u24 read_u24
  Codes-u24 v h = Codes-le 3 v _ h refl

  -- writeU32 keeps its argument modulo 2 ^ 32.
  pub Codes-u32 : (v : ℕ) → v < 2 ^ 32 → Codes (write_u32 v) read_u32 v
  unfolding write_u32 read_u32
  Codes-u32 v h =
      let e : v % 2 ^ 32 ≡ v = omega arith in
      subst (λ x. Codes (write_bytes (le_bytes 4 x)) (read_le 4) v) (sym e) (Codes-le 4 v _ h refl)

  -- A write into room made before its range check.
  Codes-checked :
      (n v : ℕ) (b : Bool) (m : M Reader ℕ)
      → b ≡ true
      → v < 256 ^ n
      → m ≡ read_le n
      → Codes (ensure_capacity n >> (guard b range_error >> store (le_bytes n v))) m v
  Codes-checked n v b m hb h e = record {
    bytes = le_bytes n v;
    are_bytes = le_bytes-IsByte n v;
    writes =
        subst (λ x. Writes (ensure_capacity n >> x) (le_bytes n v))
          (sym (guard-true b range_error (store (le_bytes n v)) hb))
          (Writes-store n (le_bytes n v) (length-le_bytes n v));
    reads = subst (λ x. Reads x (le_bytes n v) v) (sym e) (Reads-le_bytes n v h);
  }

  pub Codes-u16 : (v : ℕ) → v < 2 ^ 16 → Codes (write_u16 v) read_u16 v
  unfolding write_u16 read_u16
  Codes-u16 v h = Codes-checked 2 v _ _ (lt→ltb _ _ h) h refl

  pub Codes-u64 : (v : ℕ) → v < 2 ^ 64 → Codes (write_u64 v) read_u64 v
  unfolding write_u64 read_u64
  Codes-u64 v h = Codes-checked 8 v _ _ (lt→ltb _ _ h) h refl

  pub Codes-bool : (v : Bool) → Codes (write_bool v) read_bool v
  unfolding write_bool read_bool
  Codes-bool true =
      Codes-last (write_bytes (1 ∷ [])) (read_le 1) (λ b. not (b == 0)) 1
        (Codes-le 1 1 _ (omega arith) refl)
  Codes-bool false =
      Codes-last (write_bytes (0 ∷ [])) (read_le 1) (λ b. not (b == 0)) 0
        (Codes-le 1 0 _ (omega arith) refl)

  pub Codes-u256 : (v : Bytes) → All IsByte v → length v ≡ 32 → Codes (write_u256 v) read_u256 v
  unfolding write_u256 read_u256
  Codes-u256 v h l =
      Codes-guard (length v == 32) _ _ _ ((==_iff (length v) 32).1 l) (Codes-bytes v 32 h l)

  pub Codes-option_u32 :
      (v : Option ℕ) → IsOptionU32 v → Codes (write_option_u32 v) read_option_u32 v
  unfolding write_option_u32 read_option_u32 write_u8 read_u32
  Codes-option_u32 none h =
      Codes-end _ _ _ 0 none (Codes-le 1 0 _ (omega arith) refl) (Reads-pure none)
  Codes-option_u32 (some v) h =
      Codes-seq _ _ _ _ 1 (some v) (Codes-le 1 1 _ (omega arith) refl)
        (Codes-last _ _ some v (Codes-u32 v h))

  pub Codes-b0_32 : (v : Bytes) → All IsByte v → length v ≤ 32 → Codes (write_b0_32 v) read_b0_32 v
  unfolding write_b0_32 read_b0_32
  Codes-b0_32 v h l = Codes-guard _ _ _ _ (le→leb _ _ l) (
      Codes-seq _ _ _ _ _ _ (Codes-u8 (length v) (omega arith))
        (Codes-read_guard _ _ _ _ (le→leb _ _ l) (Codes-bytes v _ h refl)))

  pub Codes-b0_255 :
      (v : Bytes) → All IsByte v → length v ≤ 255 → Codes (write_b0_255 v) read_b0_255 v
  unfolding write_b0_255 read_b0_255
  Codes-b0_255 v h l =
      Codes-guard _ _ _ _ (le→leb _ _ l)
        (Codes-seq _ _ _ _ _ _ (Codes-u8 (length v) (omega arith)) (Codes-bytes v _ h refl))

  pub Codes-b0_64k :
      (v : Bytes) → All IsByte v → length v ≤ 65535 → Codes (write_b0_64k v) read_b0_64k v
  unfolding write_b0_64k read_b0_64k
  Codes-b0_64k v h l =
      Codes-guard _ _ _ _ (le→leb _ _ l)
        (Codes-seq _ _ _ _ _ _ (Codes-u16 (length v) (omega arith)) (Codes-bytes v _ h refl))

  pub Codes-b0_16m :
      (v : Bytes) → All IsByte v → length v ≤ 16777215 → Codes (write_b0_16m v) read_b0_16m v
  unfolding write_b0_16m read_b0_16m
  Codes-b0_16m v h l =
      Codes-guard _ _ _ _ (le→leb _ _ l)
        (Codes-seq _ _ _ _ _ _ (Codes-u24 (length v) (omega arith)) (Codes-bytes v _ h refl))

  -- A text of at most 255 bytes that UTF-8 can carry.
  pub record IsStr0_255 (t : Text) : Type 0 where
    pub well_formed : IsWellFormed t
    pub short : length (utf8 t) ≤ 255

  pub Codes-str0_255 : (t : Text) → IsStr0_255 t → Codes (write_str0_255 t) read_str0_255 t
  unfolding write_str0_255 read_str0_255
  Codes-str0_255 t h = Codes-guard _ _ _ _ (le→leb _ _ h.short) (
      Codes-seq _ _ _ _ _ _ (Codes-u8 (length (utf8 t)) (omega (arith, h.short))) (
        subst (Codes _ _) (of_utf8-utf8 t h.well_formed)
          (Codes-last _ _ of_utf8 (utf8 t) (Codes-bytes (utf8 t) _ (utf8-IsByte t) refl))))

  -- The float that comes back is the nearest one of 32 bits.
  pub Codes-f32 : (x : Float) → Codes (write_f32 x) read_f32 (fround x)
  unfolding write_f32 read_f32
  Codes-f32 x = subst (Codes _ _) (of_float_le-float_le x) (
      Codes-last _ _ of_float_le (float_le x)
        (Codes-bytes (float_le x) 4 (float_le-IsByte x) (length-float_le x)))

  module _ {A : Type 0} (w : A → Write) (m : M Reader A) where
    Codes-each :
        (xs : List A)
        → All (λ x. Codes (w x) m x) xs
        → Codes (write_each w xs) (read_times (length xs) m) xs
    unfolding write_each read_times
    Codes-each [] h = Codes-pure []
    Codes-each (x ∷ xs) h =
        Codes-seq _ _ _ _ x _ h.0 (Codes-last _ _ (◌∷◌ x) xs (Codes-each xs h.1))

    pub Codes-seq0_255 :
        (xs : List A)
        → All (λ x. Codes (w x) m x) xs
        → length xs ≤ 255
        → Codes (write_seq0_255 xs w) (read_seq0_255 m) xs
    unfolding write_seq0_255 read_seq0_255
    Codes-seq0_255 xs h l =
        Codes-guard _ _ _ _ (le→leb _ _ l)
          (Codes-seq _ _ _ _ _ _ (Codes-u8 (length xs) (omega arith)) (Codes-each xs h))

    pub Codes-seq0_64k :
        (xs : List A)
        → All (λ x. Codes (w x) m x) xs
        → length xs ≤ 65535
        → Codes (write_seq0_64k xs w) (read_seq0_64k m) xs
    unfolding write_seq0_64k read_seq0_64k
    Codes-seq0_64k xs h l =
        Codes-guard _ _ _ _ (le→leb _ _ l)
          (Codes-seq _ _ _ _ _ _ (Codes-u16 (length xs) (omega arith)) (Codes-each xs h))
