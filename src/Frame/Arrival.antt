-- ===== src/Frame/Arrival.antt =====
-- A pass of the loop in Sv2FrameReader.feed of src/models/sv2/sv2-frame.ts, as more bytes arrive.
use lido.Base.{
  ℕ, ◌≤◌, ◌≡◌, refl, ap, ◌∙◌, inl, inr, false, Option, none, some, ◌++◌, ltb, le→ltb, Bool-cases,
  arith, length, length-append, take-append_of_le, drop-append_of_le, Bytes,
}
use lido.Outcome.{Result, ok, err}
use lido.Frame.{FrameHeader, decode_frame_header}
use lido.Frame.Reader.{
  ReaderState, reading_header, reading_payload, Decrypt, FrameReader, Pass, breaks, pushes,
  expected_header_size, open_header, payload_wire_length, open_payload, payload_phase, take_header,
  header_phase, pass, push_opened, header_taken, header_opened, enter_payload,
}

module _ {S : Type 0} where
  -- More bytes arrive behind the buffered ones.
  abbrev pub arrive : FrameReader S → Bytes → FrameReader S
  arrive r more = record r { buf = r.buf ++ more }

  open_header-append :
      (d : Option (Decrypt S)) (buf more : Bytes)
      → expected_header_size d ≤ length buf
      → open_header d (buf ++ more) ≡ open_header d buf
  unfolding open_header expected_header_size
  open_header-append none buf more h = rw (take-append_of_le 6 buf more h)
  open_header-append (some f) buf more h = rw (take-append_of_le 22 buf more h)

  open_payload-append :
      (d : Option (Decrypt S)) (n : ℕ) (buf more : Bytes)
      → n ≤ length buf
      → open_payload d n (buf ++ more) ≡ open_payload d n buf
  unfolding open_payload
  open_payload-append none n buf more h = rw (take-append_of_le n buf more h)
  open_payload-append (some f) n buf more h = rw (take-append_of_le n buf more h)

  -- What a pass comes to when more bytes arrive behind those that it had.
  abbrev pub resume : Bytes → Result (Pass S) → Result (Pass S)
  resume more (err e) = err e
  resume more (ok (breaks r)) = pass r.state (arrive r more)
  resume more (ok (pushes f r)) = ok (pushes f (arrive r more))

  push_opened-arrive :
      (h : FrameHeader) (n : ℕ) (r : FrameReader S) (more : Bytes) (o : Result (Bytes × S))
      → n ≤ length r.buf
      → push_opened h n (arrive r more) o ≡ resume more (push_opened h n r o)
  unfolding push_opened
  push_opened-arrive h n r more (err e) l = refl
  push_opened-arrive h n r more (ok (payload, session)) l = rw (drop-append_of_le n r.buf more l)

  payload_phase-arrive :
      (h : FrameHeader) (r : FrameReader S) (more : Bytes)
      → r.state ≡ reading_payload h
      → payload_phase h (arrive r more) ≡ resume more (payload_phase h r)
  unfolding payload_phase
  payload_phase-arrive h r more st =
      let n = payload_wire_length r.decrypt_fn h in
      elim (Bool-cases (ltb (length r.buf) n)) [
        | inl short ↦ rw short (rw st (unfold pass payload_phase in refl))
        | inr full ↦
            let l : n ≤ length r.buf = ground arith in
            let l' : ltb (length (r.buf ++ more)) n ≡ false =
              le→ltb _ _ (omega (arith, length-append r.buf more)) in
            rw (full, l', open_payload-append r.decrypt_fn n r.buf more l)
              (push_opened-arrive h n r more (open_payload r.decrypt_fn n r.buf r.session) l)
      ]

  -- The header that was taken, and more bytes behind the rest.
  abbrev arrive_taken :
      Bytes → Result (FrameHeader × FrameReader S) → Result (FrameHeader × FrameReader S)
  arrive_taken more (err e) = err e
  arrive_taken more (ok (h, r)) = ok (h, arrive r more)

  header_taken-arrive :
      (r : FrameReader S) (more : Bytes) (session : S) (d : Result FrameHeader)
      → expected_header_size r.decrypt_fn ≤ length r.buf
      → header_taken (arrive r more) session d ≡ arrive_taken more (header_taken r session d)
  unfolding header_taken
  header_taken-arrive r more session (err e) l = refl
  header_taken-arrive r more session (ok h) l = rw (drop-append_of_le _ r.buf more l)

  header_opened-arrive :
      (r : FrameReader S) (more : Bytes) (o : Result (Bytes × S))
      → expected_header_size r.decrypt_fn ≤ length r.buf
      → header_opened (arrive r more) o ≡ arrive_taken more (header_opened r o)
  unfolding header_opened
  header_opened-arrive r more (err e) l = refl
  header_opened-arrive r more (ok (b, session)) l =
      header_taken-arrive r more session (decode_frame_header b) l

  enter_payload-arrive :
      (r : FrameReader S) (more : Bytes) (o : Result (Bytes × S))
      → enter_payload (arrive_taken more (header_opened r o))
        ≡ resume more (enter_payload (header_opened r o))
  unfolding header_opened
  enter_payload-arrive r more (err e) = unfold enter_payload in refl
  enter_payload-arrive r more (ok (b, session)) = go (decode_frame_header b)
    where
      go :
          (d : Result FrameHeader)
          → enter_payload (arrive_taken more (header_taken r session d))
            ≡ resume more (enter_payload (header_taken r session d))
      go (err e) = unfold enter_payload header_taken in refl
      go (ok h) = unfold enter_payload header_taken in payload_phase-arrive h _ more refl

  header_phase-arrive :
      (r : FrameReader S) (more : Bytes)
      → r.state ≡ reading_header
      → header_phase (arrive r more) ≡ resume more (header_phase r)
  unfolding header_phase take_header
  header_phase-arrive r more st =
      let n = expected_header_size r.decrypt_fn in
      elim (Bool-cases (ltb (length r.buf) n)) [
        | inl short ↦ rw short (rw st (unfold pass header_phase take_header in refl))
        | inr full ↦
            let l : n ≤ length r.buf = ground arith in
            let l' : ltb (length (r.buf ++ more)) n ≡ false =
              le→ltb _ _ (omega (arith, length-append r.buf more)) in
            rw (full, l', open_header-append r.decrypt_fn r.buf more l)
              (ap enter_payload (header_opened-arrive r more _ l)
                ∙ enter_payload-arrive r more (open_header r.decrypt_fn r.buf r.session))
      ]

  -- A pass over more bytes goes on from where the pass over fewer bytes stopped.
  pub pass-arrive :
      (st : ReaderState) (r : FrameReader S) (more : Bytes)
      → r.state ≡ st
      → pass st (arrive r more) ≡ resume more (pass st r)
  unfolding pass
  pass-arrive reading_header r more e = header_phase-arrive r more e
  pass-arrive (reading_payload h) r more e = payload_phase-arrive h r more e
