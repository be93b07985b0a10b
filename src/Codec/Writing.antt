-- ===== src/Codec/Writing.antt =====
-- Rules for the writers of src/models/sv2/sv2-binary-codec.ts: what each appends to the output.
use lido.Base.{
  ℕ, zero, suc, ◌+◌, ◌-◌, ◌*◌, ◌≤◌, ◌<◌, ◌≡◌, refl, sym, ap, ◌∙◌, ◌++◌, append_assoc, arith, length,
  take, drop, length-append, length-take, length-drop, take-append_self, take-all, Bytes, le→ltb,
  ltb, Bool-cases, inl, inr, append-nil, [], ltb→lt, ◌⊎◌,
}
use lido.Outcome.{ok, pure, ◌>>◌, >>_ok}
use lido.Node.{Node}
use lido.Codec.Write.{
  Writer, Write, copy, double_until, move_to, grow, ensure_capacity, store, write_bytes, to_buffer,
}

pub record IsWriter (w : Writer) : Type 0 where
  pub capacity : 0 < length w.buf
  pub within : w.offset ≤ length w.buf

-- From every writer, `m` returns and has appended `bs` to what was written.
pub record Writes (m : Write) (bs : Bytes) : Type 0 where
  pub run :
      (w : Writer)
      → IsWriter w
      → (w' : Writer) × (m w ≡ ok (tt, w')) × IsWriter w' × (to_buffer w' ≡ to_buffer w ++ bs)

-- From a size above 0, with fuel for what is missing, the loop of ensureCapacity ends at a size that is
-- enough, and that is no larger than the size at first or less than twice what is needed.
pub double_until_lem :
    (fuel new_size needed : ℕ)
    → 0 < new_size
    → needed ≤ new_size + fuel
    → (n : ℕ) × (double_until fuel new_size needed ≡ ok n)
      × (needed ≤ n)
      × ((n ≤ new_size) ⊎ (n < 2 * needed))
unfolding double_until
double_until_lem zero new_size needed p h =
    (new_size, rw (le→ltb new_size needed (omega arith)), omega arith, omega arith)
double_until_lem (suc fuel) new_size needed p h = elim (Bool-cases (ltb new_size needed)) [
  | inl more ↦
      let lt : new_size < needed = ltb→lt new_size needed more in
      let (n, e, enough, bound) =
        double_until_lem fuel (new_size * 2) needed (omega arith) (omega arith) in
      (n, rw more e, enough, omega arith)
  | inr done ↦ (new_size, rw done, ground arith, omega arith)
]

pub store_lem :
    (v : Bytes) (w : Writer)
    → IsWriter w
    → w.offset + length v ≤ length w.buf
    → (w' : Writer) × (store v w ≡ ok (tt, w')) × IsWriter w' × (to_buffer w' ≡ to_buffer w ++ v)
unfolding store to_buffer
store_lem v w i h = (
  record { buf = copy v w.buf w.offset; offset = w.offset + length v },
  refl,
  record { capacity = omega (arith, size, i.capacity); within = omega (arith, size) },
  ap (take (w.offset + length v)) shape ∙ take-append_self _ _ _ (omega (arith, front)),
)
  where
    tail : Bytes
    tail = drop (length v) (drop w.offset w.buf)

    front : length (take w.offset w.buf ++ v) ≡ w.offset + length v
    front =
        omega (arith, length-append (take w.offset w.buf) v, length-take w.offset w.buf, i.within)

    shape : copy v w.buf w.offset ≡ (take w.offset w.buf ++ v) ++ tail
    shape =
        ap (λ x. take w.offset w.buf ++ (x ++ tail))
          (take-all (length w.buf - w.offset) v (omega arith))
        ∙ sym (append_assoc (take w.offset w.buf) v tail)

    size : length (copy v w.buf w.offset) ≡ length w.buf
    size = omega (
      arith,
      ap length shape,
      length-append (take w.offset w.buf ++ v) tail,
      length-drop (length v) (drop w.offset w.buf),
      length-drop w.offset w.buf,
      front,
    )

pub Writes-pure : Writes (pure tt) []
unfolding pure
Writes-pure = record { run = λ w i. (w, refl, i, sym (append-nil _)) }

pub Writes-seq :
    (m n : Write) (bs cs : Bytes) → Writes m bs → Writes n cs → Writes (m >> n) (bs ++ cs)
Writes-seq m n bs cs p q = record {
  run = λ w i.
      let (u, e, j, t) = p.run w i in
      let (v, e', k, t') = q.run u j in
      (v, >>_ok m n w e ∙ e', k, t' ∙ ap (λ x. x ++ cs) t ∙ append_assoc (to_buffer w) bs cs);
}

module _ ⦃node : Node⦄ where
  open node use {alloc_unsafe, length-alloc_unsafe}

  -- Moving to a larger buffer keeps what was written.
  move_to_lem :
      (w : Writer) (n : ℕ)
      → w.offset ≤ length w.buf
      → w.offset ≤ n
      → (to_buffer (move_to w n) ≡ to_buffer w)
        × (length (move_to w n).buf ≡ n)
        × ((move_to w n).offset ≡ w.offset)
  unfolding move_to to_buffer
  move_to_lem w n within room = (
    ap (λ x. take w.offset (x ++ drop (length old) (alloc_unsafe n))) whole
        ∙ take-append_self w.offset old _ (sym size),
    omega (
      arith,
      ap length whole,
      length-append (take (length (alloc_unsafe n) - 0) old) (drop (length old) (alloc_unsafe n)),
      length-drop (length old) (alloc_unsafe n),
      length-alloc_unsafe n,
      size,
    ),
    refl,
  )
    where
      old : Bytes
      old = take w.offset w.buf

      size : length old ≡ w.offset
      size = omega (arith, length-take w.offset w.buf)

      whole : take (length (alloc_unsafe n) - 0) old ≡ old
      whole = take-all _ old (omega (arith, size, length-alloc_unsafe n))

  -- What ensureCapacity promises for n more bytes.
  abbrev pub Room : ℕ → Writer → Writer → Type 0
  Room n w w' =
      IsWriter w'
      × (to_buffer w' ≡ to_buffer w)
      × (w'.offset ≡ w.offset)
      × (w.offset + n ≤ length w'.buf)

  grow_lem :
      (n : ℕ) (w : Writer)
      → IsWriter w
      → length w.buf < w.offset + n
      → (w' : Writer) × (grow (w.offset + n) w ≡ ok (tt, w')) × Room n w w'
  grow_lem n w i small =
      let (size, e, enough, _) =
        double_until_lem (w.offset + n) (length w.buf * 2) (w.offset + n)
          (omega (arith, i.capacity)) (omega arith) in
      let (same, len, at) = move_to_lem w size i.within (omega arith) in
      (
        move_to w size,
        unfold grow in rw (e, grow),
        (
          record { capacity = omega (arith, i.capacity); within = omega (arith, i.within) },
          same,
          at,
          omega arith,
        ),
      )

  -- On a well-formed writer ensureCapacity returns, and the writer is well formed, has room for n more
  -- bytes and keeps what was written.
  pub ensure_capacity_lem :
      (n : ℕ) (w : Writer)
      → IsWriter w
      → (w' : Writer) × (ensure_capacity n w ≡ ok (tt, w')) × Room n w w'
  unfolding ensure_capacity
  ensure_capacity_lem n w i = elim (Bool-cases (ltb (length w.buf) (w.offset + n))) [
    | inr fits ↦ (w, rw fits, (i, refl, refl, ground arith))
    | inl more ↦ let (w', e, room) = grow_lem n w i (ltb→lt _ _ more) in (w', rw more e, room)
  ]

  -- A write is refused or appends: ensureCapacity first, then the bytes.
  pub Writes-store : (n : ℕ) (v : Bytes) → length v ≡ n → Writes (ensure_capacity n >> store v) v
  Writes-store n v l = record {
    run = λ w i.
        let (u, e, (j, same, at, room)) = ensure_capacity_lem n w i in
        let (w', e', k, t) = store_lem v u j (omega arith) in
        (w', >>_ok (ensure_capacity n) (store v) w e ∙ e', k, t ∙ ap (λ x. x ++ v) same);
  }

  pub Writes-bytes : (v : Bytes) → Writes (write_bytes v) v
  unfolding write_bytes
  Writes-bytes v = Writes-store (length v) v refl
