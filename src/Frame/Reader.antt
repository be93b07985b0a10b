-- ===== src/Frame/Reader.antt =====
-- Sv2FrameReader of src/models/sv2/sv2-frame.ts: TCP reassembly and decryption.
-- `decryptFn` is a closure over the Noise session; that session's state has the type S.
use lido.Base.{
  ℕ, zero, suc, ◌+◌, Option, none, some, List, [], ◌∷◌, ◌++◌, ltb, if◌then◌else◌, length, take,
  drop, Bytes, min,
}
use lido.Outcome.{M, Result, ok, err, stuck, pure, ◌>>=◌}
use lido.Frame.{
  FrameHeader, header_size, encrypted_header_size, mac_size, max_plaintext_chunk,
  decode_frame_header, plaintext_to_ciphertext_length,
}

pub record ParsedFrame : Type 0 where
  pub header : FrameHeader
  pub payload : Bytes

-- `currentHeader` is set exactly in the state READING_PAYLOAD, so that state carries it.
pub data ReaderState : Type 0 where
  reading_header : ReaderState
  reading_payload : FrameHeader → ReaderState

abbrev pub Decrypt : Type 0 → Type 0
Decrypt S = Bytes → M S Bytes

pub record FrameReader (S : Type 0) : Type 0 where
  pub decrypt_fn : Option (Decrypt S)
  pub session : S
  pub buf : Bytes
  pub state : ReaderState

-- One pass of the loop of feed either breaks or pushes a frame.
pub data Pass (S : Type 0) : Type 0 where
  breaks : FrameReader S → Pass S
  pushes : ParsedFrame → FrameReader S → Pass S

-- What feed returns or throws, with the reader as it is then.
abbrev pub Fed : Type 0 → Type 0
Fed S = Result (List ParsedFrame × FrameReader S)

abbrev pub chunk_size : ℕ
chunk_size = max_plaintext_chunk + mac_size

module _ {S : Type 0} where
  -- new Sv2FrameReader(decryptFn)
  abbrev pub new_frame_reader : Option (Decrypt S) → S → FrameReader S
  new_frame_reader decrypt_fn session = record {
    decrypt_fn = decrypt_fn;
    session = session;
    buf = [];
    state = reading_header;
  }

  pub set_decrypt_fn : Decrypt S → FrameReader S → FrameReader S
  set_decrypt_fn fn r = record r { decrypt_fn = some fn }

  unfoldable pub expected_header_size : Option (Decrypt S) → ℕ
  expected_header_size none = header_size
  expected_header_size (some d) = encrypted_header_size

  -- The loop of decryptPayloadChunks over what lies behind `offset`. Each round takes a byte at
  -- least, so the length is fuel enough.
  unfoldable pub decrypt_chunks : Decrypt S → ℕ → Bytes → M S Bytes
  decrypt_chunks decrypt fuel [] = pure []
  decrypt_chunks decrypt zero (b ∷ bs) = λ s. err stuck
  decrypt_chunks decrypt (suc fuel) (b ∷ bs) = do
    part ← decrypt (take (min (length (b ∷ bs)) chunk_size) (b ∷ bs))
    parts ← decrypt_chunks decrypt fuel (drop (min (length (b ∷ bs)) chunk_size) (b ∷ bs))
    pure (part ++ parts)

  unfoldable pub decrypt_payload_chunks : Decrypt S → Bytes → M S Bytes
  decrypt_payload_chunks decrypt ciphertext = decrypt_chunks decrypt (length ciphertext) ciphertext

  unfoldable pub open_header : Option (Decrypt S) → Bytes → M S Bytes
  open_header none buf = pure (take header_size buf)
  open_header (some decrypt) buf = decrypt (take encrypted_header_size buf)

  unfoldable pub payload_wire_length : Option (Decrypt S) → FrameHeader → ℕ
  payload_wire_length none h = h.msg_length
  payload_wire_length (some decrypt) h = plaintext_to_ciphertext_length h.msg_length

  unfoldable pub open_payload : Option (Decrypt S) → ℕ → Bytes → M S Bytes
  open_payload none wire_len buf = pure (take wire_len buf)
  open_payload (some decrypt) wire_len buf =
      if ltb 0 wire_len
      then decrypt_payload_chunks decrypt (take wire_len buf)
      else pure (take wire_len buf)

  -- The frame is pushed, and the payload taken from the buffer.
  unfoldable pub push_opened :
      FrameHeader → ℕ → FrameReader S → Result (Bytes × S) → Result (Pass S)
  push_opened h wire_len r (err e) = err e
  push_opened h wire_len r (ok (payload, session)) = ok (
      pushes (record { header = h; payload = payload })
        (record r { session = session; buf = drop wire_len r.buf; state = reading_header }))

  -- The part of the loop's body in the state READING_PAYLOAD.
  unfoldable pub payload_phase : FrameHeader → FrameReader S → Result (Pass S)
  payload_phase h r =
      let wire_len = payload_wire_length r.decrypt_fn h in
      if ltb (length r.buf) wire_len
      then ok (breaks r)
      else push_opened h wire_len r (open_payload r.decrypt_fn wire_len r.buf r.session)

  -- The header is decoded and taken from the buffer.
  unfoldable pub header_taken :
      FrameReader S → S → Result FrameHeader → Result (FrameHeader × FrameReader S)
  header_taken r session (err e) = err e
  header_taken r session (ok h) = ok (
    h,
    record r {
      session = session;
      buf = drop (expected_header_size r.decrypt_fn) r.buf;
      state = reading_payload h;
    },
  )

  unfoldable pub header_opened :
      FrameReader S → Result (Bytes × S) → Result (FrameHeader × FrameReader S)
  header_opened r (err e) = err e
  header_opened r (ok (header_bytes, session)) =
      header_taken r session (decode_frame_header header_bytes)

  unfoldable pub take_header : FrameReader S → Result (FrameHeader × FrameReader S)
  take_header r = header_opened r (open_header r.decrypt_fn r.buf r.session)

  -- From READING_HEADER the body goes on in READING_PAYLOAD.
  unfoldable pub enter_payload : Result (FrameHeader × FrameReader S) → Result (Pass S)
  enter_payload (err e) = err e
  enter_payload (ok (h, r)) = payload_phase h r

  unfoldable pub header_phase : FrameReader S → Result (Pass S)
  header_phase r =
      if ltb (length r.buf) (expected_header_size r.decrypt_fn)
      then ok (breaks r)
      else enter_payload (take_header r)

  -- One pass of `while (true)`.
  unfoldable pub pass : ReaderState → FrameReader S → Result (Pass S)
  pass reading_header r = header_phase r
  pass (reading_payload h) r = payload_phase h r

  -- What follows a pass: `break` returns the frames, a pushed frame goes into the next pass.
  unfoldable pub after_pass :
      (List ParsedFrame → FrameReader S → Fed S) → List ParsedFrame → Result (Pass S) → Fed S
  after_pass again frames (err e) = err e
  after_pass again frames (ok (breaks r)) = ok (frames, r)
  after_pass again frames (ok (pushes frame r)) = again (frames ++ (frame ∷ [])) r

  unfoldable pub feed_loop : ℕ → List ParsedFrame → FrameReader S → Fed S
  feed_loop zero frames r = err stuck
  feed_loop (suc fuel) frames r = after_pass (feed_loop fuel) frames (pass r.state r)

  -- A frame takes a byte at least, but for one that has no payload and whose header was read
  -- before, so two passes more than there are bytes are enough.
  unfoldable pub feed : Bytes → FrameReader S → Fed S
  feed data_in r =
      feed_loop (suc (suc (length (r.buf ++ data_in)))) [] (record r { buf = r.buf ++ data_in })
