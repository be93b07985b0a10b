-- ===== src/Codec/Reading.antt =====
-- Rules for the readers of src/models/sv2/sv2-binary-codec.ts: what each takes from the input.
use lido.Base.{
  ℕ, ◌+◌, ◌≤◌, ◌≡◌, refl, sym, ap, ◌∙◌, ◌++◌, append_assoc, arith, length, take, drop,
  length-append, length-drop, take-append_self, drop-append_self, drop-drop, Bytes, le_value,
  le→ltb, [],
}
use lido.Outcome.{M, ok, pure, ◌>>=◌, >>=_ok, >>_ok}
use lido.Codec.Read.{Reader, ensure, slice, advance, read_bytes, read_le}

-- Where the unread input begins with `bs`, the reader `m` returns `v` and moves past `bs`.
pub record Reads {A : Type 0} (m : M Reader A) (bs : Bytes) (v : A) : Type 0 where
  pub run :
      (r : Reader) (rest : Bytes)
      → drop r.offset r.buf ≡ bs ++ rest
      → r.offset ≤ length r.buf
      → m r ≡ ok (v, advance (length bs) r)

pub drop-advance :
    (r : Reader) (bs rest : Bytes)
    → drop r.offset r.buf ≡ bs ++ rest
    → drop (r.offset + length bs) r.buf ≡ rest
drop-advance r bs rest e =
    sym (drop-drop r.offset (length bs) (r.offset + length bs) r.buf refl)
    ∙ ap (drop (length bs)) e
    ∙ drop-append_self (length bs) bs rest refl

pub advance_within :
    (r : Reader) (bs rest : Bytes)
    → drop r.offset r.buf ≡ bs ++ rest
    → r.offset ≤ length r.buf
    → r.offset + length bs ≤ length r.buf
advance_within r bs rest e h =
    omega (arith, ap length e, length-drop r.offset r.buf, length-append bs rest)

ensure_lem : (n : ℕ) (r : Reader) → r.offset + n ≤ length r.buf → ensure n r ≡ ok (tt, r)
unfolding ensure
ensure_lem n r h = rw (le→ltb (length r.buf) (r.offset + n) h)

slice_lem :
    (r : Reader) (bs rest : Bytes) → drop r.offset r.buf ≡ bs ++ rest → slice (length bs) r ≡ bs
slice_lem r bs rest e = ap (take (length bs)) e ∙ take-append_self (length bs) bs rest refl

pub Reads-bytes : (bs : Bytes) → Reads (read_bytes (length bs)) bs bs
unfolding read_bytes
Reads-bytes bs = record {
  run = λ r rest e h.
      >>_ok (ensure (length bs)) _ r (ensure_lem (length bs) r (advance_within r bs rest e h))
      ∙ ap (λ x. ok (x, advance (length bs) r)) (slice_lem r bs rest e);
}

pub Reads-le : (n : ℕ) (bs : Bytes) → length bs ≡ n → Reads (read_le n) bs (le_value bs)
unfolding read_le
Reads-le n bs l = record {
  run = λ r rest e h. rw (← l) (
      >>_ok (ensure (length bs)) _ r (ensure_lem (length bs) r (advance_within r bs rest e h))
      ∙ ap (λ x. ok (le_value x, advance (length bs) r)) (slice_lem r bs rest e));
}

pub Reads-pure : {A : Type 0} (v : A) → Reads (pure v) [] v
unfolding pure
Reads-pure v = record {
  run = λ r rest e h.
      let z : r.offset ≡ r.offset + 0 = omega arith in
      ap (λ o. ok (v, record { buf = r.buf; offset = o })) z;
}

pub Reads-bind :
    {A B : Type 0} (m : M Reader A) (f : A → M Reader B) (bs cs : Bytes) (v : A) (u : B)
    → Reads m bs v
    → Reads (f v) cs u
    → Reads (m >>= f) (bs ++ cs) u
Reads-bind m f bs cs v u p q = record {
  run = λ r rest e h.
      let e' : drop r.offset r.buf ≡ bs ++ (cs ++ rest) = e ∙ append_assoc bs cs rest in
      let o : r.offset + length bs + length cs ≡ r.offset + length (bs ++ cs) =
        omega (arith, length-append bs cs) in
      >>=_ok m f r (p.run r (cs ++ rest) e' h)
      ∙ q.run (advance (length bs) r) rest (drop-advance r bs (cs ++ rest) e')
          (advance_within r bs (cs ++ rest) e' h)
      ∙ ap (λ x. ok (u, record { buf = r.buf; offset = x })) o;
}
