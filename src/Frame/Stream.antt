-- ===== src/Frame/Stream.antt =====
-- A stream of frames between the two ends of src/models/sv2/sv2-frame.ts, over a TCP connection
-- that delivers the bytes in chunks of any size.
use lido.Base.{
  ◌≤◌, suc, ◌+◌, arith, take-append-drop, take, drop, ℕ, ◌≡◌, refl, sym, ap, ◌∙◌, some, List, [],
  ◌∷◌, ◌++◌, All, append-nil, Bytes, concat, length,
}
use lido.Outcome.{Result, ok, err}
use lido.Frame.Sizes.{IsHeader}
use lido.Frame.Reader.{
  ParsedFrame, FrameReader, Decrypt, Fed, new_frame_reader, feed, feed_loop, after_pass,
}
use lido.Frame.Writer.{Encrypt, FrameWriter, write_frame}
use lido.Frame.Secure.{Session, chunk_count}
use lido.Frame.Reassembly.{prepend, feed_next, feed-append}
use lido.Frame.RoundTrip.{no_frame, feed-write_frame}

-- The stream cut into chunks of the given sizes, and the rest. Every cut is one of these.
unfoldable pub cut : List ℕ → Bytes → List Bytes
cut [] wire = wire ∷ []
cut (n ∷ ns) wire = take n wire ∷ cut ns (drop n wire)

cut-concat :
    (sizes : List ℕ) (wire : Bytes)
    → (c : Bytes) × (cs : List Bytes) × (cut sizes wire ≡ c ∷ cs) × (concat (c ∷ cs) ≡ wire)
unfolding cut
cut-concat [] wire = (wire, [], refl, append-nil wire)
cut-concat (n ∷ ns) wire =
    let (c, cs, e, whole) = cut-concat ns (drop n wire) in
    (
      take n wire,
      c ∷ cs,
      ap (◌∷◌ (take n wire)) e,
      ap (◌++◌ (take n wire)) whole ∙ take-append-drop n wire,
    )

module _ {S : Type 0} where
  -- One `data` event after the other.
  abbrev pub feed_chunks : List Bytes → FrameReader S → Fed S
  feed_chunks [] r = ok ([], r)
  feed_chunks (c ∷ cs) r = elim (feed c r) [
    | err x ↦ err x
    | ok (frames, r') ↦ prepend frames (feed_chunks cs r')
  ]

  -- The wire of several frames, sent one after the other.
  abbrev pub write_frames : List ParsedFrame → FrameWriter S → Result (Bytes × FrameWriter S)
  write_frames [] w = ok ([], w)
  write_frames (f ∷ fs) w = elim (write_frame f.header f.payload w) [
    | err x ↦ err x
    | ok (wire, w') ↦ elim (write_frames fs w') [
      | err x ↦ err x
      | ok (more, w'') ↦ ok (wire ++ more, w'')
    ]
  ]

  feed_chunks-concat :
      (c : Bytes) (cs : List Bytes) (r : FrameReader S)
      → feed_chunks (c ∷ cs) r ≡ feed (concat (c ∷ cs)) r
  feed_chunks-concat c [] r = go (feed c r) ∙ ap (λ b. feed b r) (sym (append-nil c))
    where
      go :
          (fed : Fed S)
          → (elim fed [ err x ↦ err x | ok (frames, r') ↦ prepend frames (feed_chunks [] r') ])
            ≡ fed
      go (err x) = refl
      go (ok (frames, r')) = ap (λ fs. ok (fs, r')) (append-nil frames)
  feed_chunks-concat c (d ∷ cs) r =
      go (feed_chunks-concat d cs) (feed c r) ∙ sym (feed-append c (concat (d ∷ cs)) r)
    where
      go :
          ((q : FrameReader S) → feed_chunks (d ∷ cs) q ≡ feed (concat (d ∷ cs)) q)
          → (fed : Fed S)
          → (elim fed [
            | err x ↦ err x
            | ok (frames, r') ↦ prepend frames (feed_chunks (d ∷ cs) r')
          ])
            ≡ feed_next (concat (d ∷ cs)) fed
      go ih (err x) = refl
      go ih (ok (frames, r')) = ap (prepend frames) (ih r')

-- The messages of the session that the frames take: one for each header, one for each chunk.
abbrev pub messages : List ParsedFrame → ℕ
messages [] = 0
messages (f ∷ fs) = suc (chunk_count (length f.payload)) + messages fs

-- A frame that the header can announce.
pub record IsFrame (f : ParsedFrame) : Type 0 where
  pub header : IsHeader f.header
  pub announced : length f.payload ≡ f.header.msg_length

module _ {S T : Type 0} {encrypt : Encrypt S} {decrypt : Decrypt T}
    (session : Session encrypt decrypt) where
  feed-write_frames :
      (fs : List ParsedFrame) (left k : ℕ) (s : S) (t : T)
      → session.InStep left s t
      → messages fs + k ≤ left
      → All IsFrame fs
      → (wire : Bytes) × (s' : S) × (t' : T) × (write_frames fs
            (record { encrypt_fn = some encrypt; session = s })
          ≡ ok (wire, record { encrypt_fn = some encrypt; session = s' }))
        × (feed wire (new_frame_reader (some decrypt) t)
            ≡ ok (fs, new_frame_reader (some decrypt) t'))
        × session.InStep k s' t'
  feed-write_frames [] left k s t y few v = (
    [],
    s,
    t,
    refl,
    unfold feed feed_loop after_pass in rw (no_frame (some decrypt) t),
    session.weaken k left s t (omega arith) y,
  )
  feed-write_frames (f ∷ fs) left k s t y few v =
      let (wire, s1, t1, e, d, y1) =
        feed-write_frame session left (messages fs + k) s t f.header f.payload y (omega arith)
          v.0.header v.0.announced in
      let (more, s2, t2, e', d', y2) =
        feed-write_frames fs (messages fs + k) k s1 t1 y1 (omega arith) v.1 in
      (
        wire ++ more,
        s2,
        t2,
        rw (e, write_frames) (rw e'),
        feed-append wire more (new_frame_reader (some decrypt) t)
            ∙ ap (feed_next more) d
            ∙ ap (prepend (f ∷ [])) d',
        y2,
      )

  -- Any list of frames whose headers fit and announce their payloads' lengths, sent by writeFrame over a
  -- session in step for that many messages, arrives complete, in order and unchanged, whatever the sizes
  -- of the chunks in which TCP delivers the bytes, and the ends are in step for the rest.
  pub feed_chunks-write_frames :
      (fs : List ParsedFrame) (sizes : List ℕ) (left k : ℕ) (s : S) (t : T)
      → session.InStep left s t
      → messages fs + k ≤ left
      → All IsFrame fs
      → (wire : Bytes) × (s' : S) × (t' : T) × (write_frames fs
            (record { encrypt_fn = some encrypt; session = s })
          ≡ ok (wire, record { encrypt_fn = some encrypt; session = s' }))
        × (feed_chunks (cut sizes wire) (new_frame_reader (some decrypt) t)
            ≡ ok (fs, new_frame_reader (some decrypt) t'))
        × session.InStep k s' t'
  feed_chunks-write_frames fs sizes left k s t y few v =
      let (wire, s', t', e, d, y') = feed-write_frames fs left k s t y few v in
      let (c, cs, chunks, whole) = cut-concat sizes wire in
      (
        wire,
        s',
        t',
        e,
        ap (λ l. feed_chunks l (new_frame_reader (some decrypt) t)) chunks
            ∙ feed_chunks-concat c cs _
            ∙ ap (λ b. feed b (new_frame_reader (some decrypt) t)) whole
            ∙ d,
        y',
      )
