-- ===== src/Frame/Passes.antt =====
-- The loop of Sv2FrameReader.feed of src/models/sv2/sv2-frame.ts ends: each frame that it pushes
-- leaves less to read.
use lido.Base.{
  ℕ, zero, suc, ◌+◌, ◌≤◌, ◌<◌, ◌≡◌, refl, ap, subst, inl, inr, Option, none, some, List, [], ◌∷◌,
  ◌++◌, ltb, Bool-cases, arith, length, length-drop, Bytes,
}
use lido.Outcome.{Result, ok, err}
use lido.Frame.{FrameHeader, decode_frame_header}
use lido.Frame.Reader.{
  ParsedFrame, ReaderState, reading_header, reading_payload, Decrypt, FrameReader, Pass, breaks,
  pushes, expected_header_size, payload_wire_length, payload_phase, take_header, header_phase, pass,
  feed_loop, push_opened, header_taken, header_opened, enter_payload, Fed, after_pass,
}

abbrev pub waiting : ReaderState → ℕ
waiting reading_header = 0
waiting (reading_payload h) = 1

pub waiting_le : (st : ReaderState) → waiting st ≤ 1
waiting_le reading_header = omega arith
waiting_le (reading_payload h) = omega arith

module _ {S : Type 0} where
  -- The passes that are left at most.
  abbrev pub pending : FrameReader S → ℕ
  pending r = length r.buf + waiting r.state

  -- If the pass pushes a frame, fewer than k passes are left.
  abbrev Leaves : ℕ → Result (Pass S) → Type 0
  Leaves k (err e) = Unit {0}
  Leaves k (ok (breaks r)) = Unit {0}
  Leaves k (ok (pushes f r)) = pending r < k

  Leaves-mono : (k l : ℕ) (p : Result (Pass S)) → k ≤ l → Leaves k p → Leaves l p
  Leaves-mono k l (err e) h v = tt
  Leaves-mono k l (ok (breaks r)) h v = tt
  Leaves-mono k l (ok (pushes f r)) h v = omega arith

  push_opened-Leaves :
      (h : FrameHeader) (n : ℕ) (r : FrameReader S) (o : Result (Bytes × S))
      → Leaves (length r.buf + 1) (push_opened h n r o)
  unfolding push_opened
  push_opened-Leaves h n r (err e) = tt
  push_opened-Leaves h n r (ok (payload, session)) = omega (arith, length-drop n r.buf)

  payload_phase-Leaves :
      (h : FrameHeader) (r : FrameReader S) → Leaves (length r.buf + 1) (payload_phase h r)
  unfolding payload_phase
  payload_phase-Leaves h r =
      let n = payload_wire_length r.decrypt_fn h in
      elim (Bool-cases (ltb (length r.buf) n)) [
        | inl short ↦ rw short tt
        | inr full ↦ rw full (push_opened-Leaves h n r _)
      ]

  header_taken-Leaves :
      (r : FrameReader S) (session : S) (d : Result FrameHeader)
      → 0 < expected_header_size r.decrypt_fn
      → expected_header_size r.decrypt_fn ≤ length r.buf
      → Leaves (length r.buf) (enter_payload (header_taken r session d))
  unfolding enter_payload header_taken
  header_taken-Leaves r session (err e) z l = tt
  header_taken-Leaves r session (ok h) z l =
      Leaves-mono _ _ (payload_phase h _)
        (omega (arith, length-drop (expected_header_size r.decrypt_fn) r.buf))
        (payload_phase-Leaves h _)

  header_opened-Leaves :
      (r : FrameReader S) (o : Result (Bytes × S))
      → 0 < expected_header_size r.decrypt_fn
      → expected_header_size r.decrypt_fn ≤ length r.buf
      → Leaves (length r.buf) (enter_payload (header_opened r o))
  unfolding header_opened
  header_opened-Leaves r (err e) z l = unfold enter_payload in tt
  header_opened-Leaves r (ok (b, session)) z l =
      header_taken-Leaves r session (decode_frame_header b) z l

  expected_header_size-pos : (d : Option (Decrypt S)) → 0 < expected_header_size d
  unfolding expected_header_size
  expected_header_size-pos none = omega arith
  expected_header_size-pos (some f) = omega arith

  header_phase-Leaves : (r : FrameReader S) → Leaves (length r.buf) (header_phase r)
  unfolding header_phase take_header
  header_phase-Leaves r =
      let n = expected_header_size r.decrypt_fn in
      elim (Bool-cases (ltb (length r.buf) n)) [
        | inl short ↦ rw short tt
        | inr full ↦
            rw full
              (header_opened-Leaves r _ (expected_header_size-pos r.decrypt_fn) (ground arith))
      ]

  -- A pass that pushes a frame leaves fewer passes.
  pass-Leaves :
      (st : ReaderState) (r : FrameReader S) → r.state ≡ st → Leaves (pending r) (pass st r)
  unfolding pass
  pass-Leaves reading_header r e =
      Leaves-mono (length r.buf) _ (header_phase r) (omega arith) (header_phase-Leaves r)
  pass-Leaves (reading_payload h) r e =
      Leaves-mono (length r.buf + 1) _ (payload_phase h r) (omega (arith, ap waiting e))
        (payload_phase-Leaves h r)

  pub pass-shrinks :
      (r : FrameReader S) (f : ParsedFrame) (r' : FrameReader S)
      → pass r.state r ≡ ok (pushes f r')
      → pending r' < pending r
  pass-shrinks r f r' p = subst (Leaves (pending r)) p (pass-Leaves r.state r refl)

  pub after_pass-congr :
      (k l : List ParsedFrame → FrameReader S → Fed S) (frames : List ParsedFrame)
      (p : Result (Pass S))
      → ((f : ParsedFrame) (r : FrameReader S)
          → p ≡ ok (pushes f r)
          → k (frames ++ (f ∷ [])) r ≡ l (frames ++ (f ∷ [])) r)
      → after_pass k frames p ≡ after_pass l frames p
  unfolding after_pass
  after_pass-congr k l frames (err e) h = refl
  after_pass-congr k l frames (ok (breaks r)) h = refl
  after_pass-congr k l frames (ok (pushes f r)) h = h f r refl

  pub feed_loop_step :
      (n : ℕ) (frames : List ParsedFrame) (r : FrameReader S)
      → feed_loop (suc n) frames r ≡ after_pass (feed_loop n) frames (pass r.state r)
  unfolding feed_loop
  feed_loop_step n frames r = refl

  -- With enough fuel the amount does not matter.
  pub feed_loop-fuel :
      (m n : ℕ) (frames : List ParsedFrame) (r : FrameReader S)
      → pending r < m
      → pending r < n
      → feed_loop m frames r ≡ feed_loop n frames r
  unfolding feed_loop
  feed_loop-fuel zero n frames r h k = absurd (omega arith)
  feed_loop-fuel (suc m) zero frames r h k = absurd (omega arith)
  feed_loop-fuel (suc m) (suc n) frames r h k =
      after_pass-congr _ _ frames (pass r.state r) λ f r' p.
        let s : pending r' < pending r = pass-shrinks r f r' p in
        feed_loop-fuel m n (frames ++ (f ∷ [])) r' (omega arith) (omega arith)
