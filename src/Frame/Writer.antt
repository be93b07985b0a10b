-- ===== src/Frame/Writer.antt =====
-- Sv2FrameWriter of src/models/sv2/sv2-frame.ts: framing and encryption.
use lido.Base.{ℕ, zero, suc, Option, none, some, [], ◌∷◌, ◌++◌, length, take, drop, Bytes, min}
use lido.Outcome.{M, Result, ok, err, stuck, pure, ◌>>=◌}
use lido.Frame.{FrameHeader, max_plaintext_chunk, encode_frame_header}

abbrev pub Encrypt : Type 0 → Type 0
Encrypt S = Bytes → M S Bytes

pub record FrameWriter (S : Type 0) : Type 0 where
  pub encrypt_fn : Option (Encrypt S)
  pub session : S

module _ {S : Type 0} where
  pub set_encrypt_fn : Encrypt S → FrameWriter S → FrameWriter S
  set_encrypt_fn fn w = record w { encrypt_fn = some fn }

  -- The chunk loop of writeFrame over what lies behind `offset`.
  unfoldable pub encrypt_chunks : Encrypt S → ℕ → Bytes → M S Bytes
  encrypt_chunks encrypt fuel [] = pure []
  encrypt_chunks encrypt zero (b ∷ bs) = λ s. err stuck
  encrypt_chunks encrypt (suc fuel) (b ∷ bs) = do
    part ← encrypt (take (min (length (b ∷ bs)) max_plaintext_chunk) (b ∷ bs))
    parts ← encrypt_chunks encrypt fuel (drop (min (length (b ∷ bs)) max_plaintext_chunk) (b ∷ bs))
    pure (part ++ parts)

  -- A throw of encodeFrameHeader inside a method of the session.
  abbrev pub lift : Result Bytes → M S Bytes
  lift (ok b) s = ok (b, s)
  lift (err e) s = err e

  unfoldable pub frame_bytes : Option (Encrypt S) → FrameHeader → Bytes → M S Bytes
  frame_bytes none header payload = do
    header_buf ← lift (encode_frame_header header)
    pure (header_buf ++ payload)
  frame_bytes (some encrypt) header payload = do
    header_buf ← lift (encode_frame_header header)
    enc_header ← encrypt header_buf
    parts ← encrypt_chunks encrypt (length payload) payload
    pure (enc_header ++ parts)

  abbrev pub sent : FrameWriter S → Result (Bytes × S) → Result (Bytes × FrameWriter S)
  sent w (err e) = err e
  sent w (ok (wire, session)) = ok (wire, record w { session = session })

  -- The frame for the wire, and the writer with the session as encryption leaves it.
  unfoldable pub write_frame : FrameHeader → Bytes → M (FrameWriter S) Bytes
  write_frame header payload w = sent w (frame_bytes w.encrypt_fn header payload w.session)
