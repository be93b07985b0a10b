-- ===== src/Frame/RoundTrip.antt =====
-- What writeFrame of src/models/sv2/sv2-frame.ts sends, feed returns: one frame, and a whole stream
-- of encrypted frames cut anyhow.
use lido.Base.{
  suc, ◌+◌, ◌-◌, ℕ, ◌≤◌, ◌≡◌, refl, sym, ap, ◌∙◌, [], ◌∷◌, ◌++◌, arith, length, length-append, take,
  take-append_self, drop-append_self, drop-all, take-all, Bytes, ltb, le→ltb, lt→ltb, append-nil,
  Option, none, some, if◌then◌else◌,
}
use lido.Outcome.{Result, ok, pure, >>=_ok}
use lido.Frame.{
  FrameHeader, encode_frame_header, plaintext_to_ciphertext_length, decode_frame_header,
}
use lido.Frame.Sizes.{IsHeader, header_bytes, encode_frame_header_lem, decode-header_bytes}
use lido.Frame.Reader.{
  FrameReader, Decrypt, Pass, breaks, pushes, reading_header, reading_payload, new_frame_reader,
  feed, feed_loop, after_pass, pass, header_phase, take_header, header_opened, header_taken,
  enter_payload, payload_phase, push_opened, open_header, open_payload, payload_wire_length,
  expected_header_size, decrypt_payload_chunks, decrypt_chunks,
}
use lido.Frame.Writer.{Encrypt, frame_bytes, write_frame, encrypt_chunks, lift, sent}
use lido.Frame.Secure.{Session, chunk_count, carries_chunks}

module _ {S : Type 0} where
  payload_only :
      (d : Option (Decrypt S)) (s1 s2 : S) (body payload : Bytes) (h : FrameHeader)
      → payload_wire_length d h ≡ length body
      → open_payload d (length body) body s1 ≡ ok (payload, s2)
      → payload_phase h
          (record { decrypt_fn = d; session = s1; buf = body; state = reading_payload h })
        ≡ ok (pushes (record { header = h; payload = payload }) (new_frame_reader d s2))
  unfolding payload_phase push_opened
  payload_only d s1 s2 body payload h lw op =
      let r : FrameReader S = record {
        decrypt_fn = d;
        session = s1;
        buf = body;
        state = reading_payload h;
      } in
      let body_of : ℕ → Result (Pass S) = λ n.
        if ltb (length body) n
        then ok (breaks r)
        else push_opened h n r (open_payload d n body s1) in
      ap body_of lw
      ∙ rw (le→ltb (length body) (length body) (omega arith)) (
          ap (push_opened h (length body) r) op
          ∙ ap
              (λ rest. ok (
                pushes (record { header = h; payload = payload })
                  (record { decrypt_fn = d; session = s2; buf = rest; state = reading_header })))
              (drop-all (length body) body (omega arith)))

  header_taken_lem :
      (d : Option (Decrypt S)) (s s1 : S) (head body : Bytes) (h : FrameHeader)
      → length head ≡ expected_header_size d
      → open_header d (head ++ body) s ≡ ok (header_bytes h, s1)
      → IsHeader h
      → take_header (record (new_frame_reader d s) { buf = head ++ body })
        ≡ ok (h, record { decrypt_fn = d; session = s1; buf = body; state = reading_payload h })
  unfolding take_header header_opened header_taken
  header_taken_lem d s s1 head body h lh oh v =
      let r : FrameReader S = record (new_frame_reader d s) { buf = head ++ body } in
      let decoded : decode_frame_header (header_bytes h) ≡ ok h =
        ap decode_frame_header (sym (append-nil (header_bytes h))) ∙ decode-header_bytes h [] v in
      ap (header_opened r) oh
      ∙ ap (header_taken r s1) decoded
      ∙ ap
          (λ rest.
            ok (h, record { decrypt_fn = d; session = s1; buf = rest; state = reading_payload h }))
          (drop-append_self (expected_header_size d) head body (sym lh))

  -- The first pass over a header and its payload, from what the reader's parts return.
  one_frame :
      (d : Option (Decrypt S)) (s s1 s2 : S) (head body payload : Bytes) (h : FrameHeader)
      → length head ≡ expected_header_size d
      → open_header d (head ++ body) s ≡ ok (header_bytes h, s1)
      → IsHeader h
      → payload_wire_length d h ≡ length body
      → open_payload d (length body) body s1 ≡ ok (payload, s2)
      → pass reading_header (record (new_frame_reader d s) { buf = head ++ body })
        ≡ ok (pushes (record { header = h; payload = payload }) (new_frame_reader d s2))
  unfolding pass header_phase
  one_frame d s s1 s2 head body payload h lh oh v lw op =
      rw
        (le→ltb (length (head ++ body)) (expected_header_size d)
          (omega (arith, length-append head body)))
        (ap enter_payload (header_taken_lem d s s1 head body h lh oh v)
          ∙ unfold enter_payload in payload_only d s1 s2 body payload h lw op)

  -- A fresh reader with nothing buffered breaks at once.
  pub no_frame :
      (d : Option (Decrypt S)) (s : S)
      → pass reading_header (new_frame_reader d s) ≡ ok (breaks (new_frame_reader d s))
  unfolding pass header_phase expected_header_size
  no_frame none s = refl
  no_frame (some f) s = refl

  pub feed_one :
      (d : Option (Decrypt S)) (s s1 s2 : S) (head body payload : Bytes) (h : FrameHeader)
      → length head ≡ expected_header_size d
      → open_header d (head ++ body) s ≡ ok (header_bytes h, s1)
      → IsHeader h
      → payload_wire_length d h ≡ length body
      → open_payload d (length body) body s1 ≡ ok (payload, s2)
      → feed (head ++ body) (new_frame_reader d s)
        ≡ ok (record { header = h; payload = payload } ∷ [], new_frame_reader d s2)
  unfolding feed feed_loop after_pass
  feed_one d s s1 s2 head body payload h lh oh v lw op =
      rw (one_frame d s s1 s2 head body payload h lh oh v lw op) (rw (no_frame d s2))

module _ {S : Type 0} where
  write_frame_plain :
      (s : S) (h : FrameHeader) (payload : Bytes)
      → IsHeader h
      → frame_bytes none h payload s ≡ ok (header_bytes h ++ payload, s)
  unfolding frame_bytes pure
  write_frame_plain s h payload v =
      >>=_ok (lift (encode_frame_header h)) _ s (ap (λ x. lift x s) (encode_frame_header_lem h v))

  write_frame_secure :
      (encrypt : Encrypt S) (s s1 s2 : S) (h : FrameHeader) (payload c cs : Bytes)
      → IsHeader h
      → encrypt (header_bytes h) s ≡ ok (c, s1)
      → encrypt_chunks encrypt (length payload) payload s1 ≡ ok (cs, s2)
      → frame_bytes (some encrypt) h payload s ≡ ok (c ++ cs, s2)
  unfolding frame_bytes pure
  write_frame_secure encrypt s s1 s2 h payload c cs v e e' =
      >>=_ok (lift (encode_frame_header h)) _ s (ap (λ x. lift x s) (encode_frame_header_lem h v))
      ∙ >>=_ok (encrypt (header_bytes h)) _ s e
      ∙ >>=_ok (encrypt_chunks encrypt (length payload) payload) _ s1 e'

  open_header_secure :
      (decrypt : Decrypt S) (c cs plain : Bytes) (t t1 : S)
      → length c ≡ 22
      → decrypt c t ≡ ok (plain, t1)
      → open_header (some decrypt) (c ++ cs) t ≡ ok (plain, t1)
  unfolding open_header
  open_header_secure decrypt c cs plain t t1 l d =
      ap (λ x. decrypt x t) (take-append_self 22 c cs (sym l)) ∙ d

  -- The guard `payloadWireLen > 0` makes no difference.
  open_payload_secure :
      (decrypt : Decrypt S) (cs payload : Bytes) (t t2 : S)
      → ((g : ℕ) → length cs ≤ g → decrypt_chunks decrypt g cs t ≡ ok (payload, t2))
      → open_payload (some decrypt) (length cs) cs t ≡ ok (payload, t2)
  unfolding open_payload decrypt_payload_chunks
  open_payload_secure decrypt [] payload t t2 d =
      let empty : pure [] t ≡ decrypt_chunks decrypt 0 [] t = unfold decrypt_chunks in refl in
      empty ∙ d 0 (omega arith)
  open_payload_secure decrypt (b ∷ bs) payload t t2 d =
      let cs : Bytes = b ∷ bs in
      let whole : take (length cs) cs ≡ cs = take-all (length cs) cs (omega arith) in
      rw (lt→ltb 0 (length cs) (omega arith))
        (ap (λ x. decrypt_chunks decrypt (length x) x t) whole ∙ d (length cs) (omega arith))

-- A frame that writeFrame sends without a cipher is fed back as itself, if its header fits and
-- announces the payload's length, and nothing is left over.
pub feed-write_frame_plain :
    {S T : Type 0} (s : S) (t : T) (h : FrameHeader) (payload : Bytes)
    → IsHeader h
    → length payload ≡ h.msg_length
    → (wire : Bytes) × (write_frame h payload (record { encrypt_fn = none; session = s })
        ≡ ok (wire, record { encrypt_fn = none; session = s }))
      × (feed wire (new_frame_reader none t)
          ≡ ok (record { header = h; payload = payload } ∷ [], new_frame_reader none t))
feed-write_frame_plain s t h payload v l = (
  header_bytes h ++ payload,
  unfold write_frame in
      ap (sent (record { encrypt_fn = none; session = s })) (write_frame_plain s h payload v),
  feed_one none t t t (header_bytes h) payload payload h (unfold expected_header_size in refl)
      (unfold open_header pure in refl) v (unfold payload_wire_length in sym l)
      (unfold open_payload pure in rw (take-all (length payload) payload (omega arith))),
)

module _ {S T : Type 0} {encrypt : Encrypt S} {decrypt : Decrypt T}
    (session : Session encrypt decrypt) where
  -- A frame that writeFrame sends over a session whose two ends are in step is fed back as itself, if
  -- its header fits and announces the payload's length; nothing is left over. It takes a message
  -- for the header and one for each chunk of the payload, and the ends are in step for the rest.
  pub feed-write_frame :
      (left k : ℕ) (s : S) (t : T) (h : FrameHeader) (payload : Bytes)
      → session.InStep left s t
      → suc (chunk_count (length payload)) + k ≤ left
      → IsHeader h
      → length payload ≡ h.msg_length
      → (wire : Bytes) × (s' : S) × (t' : T) × (write_frame h payload
            (record { encrypt_fn = some encrypt; session = s })
          ≡ ok (wire, record { encrypt_fn = some encrypt; session = s' }))
        × (feed wire (new_frame_reader (some decrypt) t)
            ≡ ok
                (record { header = h; payload = payload } ∷ [], new_frame_reader (some decrypt) t'))
        × session.InStep k s' t'
  feed-write_frame left k s t h payload y few v l =
      let (c, s1, t1, e, lc, d, y1) =
        session.carries (header_bytes h) (left - 1) s t
          (session.weaken (suc (left - 1)) left s t (omega arith) y) (omega arith) in
      let (cs, s2, t2, e', l', d', y2) =
        carries_chunks encrypt decrypt session (length payload) payload (left - 1) k s1 t1 y1
          (omega arith) (omega arith) in
      (
        c ++ cs,
        s2,
        t2,
        unfold write_frame in
            ap (sent (record { encrypt_fn = some encrypt; session = s }))
              (write_frame_secure encrypt s s1 s2 h payload c cs v e e'),
        feed_one (some decrypt) t t1 t2 c cs payload h (unfold expected_header_size in lc)
            (open_header_secure decrypt c cs (header_bytes h) t t1 lc d) v
            (unfold payload_wire_length in ap plaintext_to_ciphertext_length (sym l) ∙ sym l')
            (open_payload_secure decrypt cs payload t1 t2 d'),
        y2,
      )
