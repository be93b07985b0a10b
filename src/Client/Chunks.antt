-- ===== src/Client/Chunks.antt =====
-- The chunks that a session of src/models/StratumV2Client.ts receives one after the other.
use lido.Base.{
  ◌≤◌, ◌≡◌, refl, sym, ap, subst, ◌∙◌, ◌⊎◌, Bool, true, false, Bool-cases, inl, inr, some, List, [],
  ◌∷◌, ◌++◌, append_assoc, ltb, le→ltb, lt→ltb, arith, length, length-append, take, drop,
  take-append_of_le, drop-append_of_le, Bytes,
}
use lido.Outcome.{Result, ok, err}
use lido.Frame.Reader.{ParsedFrame, FrameReader, Fed, feed, feed_loop, after_pass}
use lido.Frame.Reassembly.{prepend, feed_next, feed-append}
use lido.Frame.RoundTrip.{no_frame}
use lido.Noise.{Crypto, Keypair}
use lido.Noise.Handshake.{NoiseSession, process_act1, decrypt}
use lido.Client.Inbound.{
  Inbound, handshaking, transporting, Rest, Connection, caught, unless_thrown, handle_frames,
  settle, deliver, handle_encrypted_data, encrypted_reader, start_transport, shake,
  handle_handshake_data, handle_open, handle_socket_data,
}

module _ {W : Type 0} (rest : Rest W) where
  -- The same connection, or two that are both at their end.
  abbrev pub Same : Connection W → Connection W → Type 0
  Same c d = (c ≡ d) ⊎ ((rest.is_destroyed c.world ≡ true) × (rest.is_destroyed d.world ≡ true))

  abbrev pub IsOpen : Connection W → Type 0
  IsOpen c = rest.is_destroyed c.world ≡ false

  Same-along : {c c' d d' : Connection W} → c' ≡ c → d' ≡ d → Same c d → Same c' d'
  Same-along {c = c} {d' = d'} p q same =
      subst (λ x. Same x d') (sym p) (subst (λ y. Same c y) (sym q) same)

  not_caught : (inbound : Inbound) (w : W) → IsOpen (caught rest inbound w) → ⊥
  not_caught inbound w h = cc (h, rest.close_socket-destroyed w)

  handle_frames-append :
      (fs gs : List ParsedFrame) (w : W)
      → handle_frames rest (fs ++ gs) w
        ≡ unless_thrown rest (handle_frames rest gs) (handle_frames rest fs w)
  unfolding handle_frames
  handle_frames-append [] gs w = refl
  handle_frames-append (f ∷ fs) gs w = go (handle_frames-append fs gs) (rest.handle_frame f w)
    where
      go :
          ((v : W)
            → handle_frames rest (fs ++ gs) v
              ≡ unless_thrown rest (handle_frames rest gs) (handle_frames rest fs v))
          → (x : W × Bool)
          → unless_thrown rest (handle_frames rest (fs ++ gs)) x
            ≡ unless_thrown rest
                (handle_frames rest gs)
                (unless_thrown rest (handle_frames rest fs) x)
      go ih (v, true) = refl
      go ih (v, false) = ih v

module _ (crypto : Crypto) {W : Type 0} (rest : Rest W) (ephemeral : Keypair) where
  open_next :
      (back : Bytes) (r : FrameReader NoiseSession) (w : W)
      → rest.is_destroyed w ≡ false
      → handle_socket_data crypto rest ephemeral back
          (record { inbound = transporting r; world = w })
        ≡ deliver rest r w (feed back r)
  unfolding handle_socket_data handle_open handle_encrypted_data
  open_next back r w h = rw h refl

  read_next :
      (r q : FrameReader NoiseSession) (w : W) (back : Bytes) (frames : List ParsedFrame)
      (x : W × Bool)
      → handle_frames rest frames w ≡ x
      → IsOpen rest (settle rest (transporting q) x)
      → (g : Fed NoiseSession) → feed back q ≡ g
      → Same rest
          (deliver rest r w (prepend frames g))
          (handle_socket_data crypto rest ephemeral back (settle rest (transporting q) x))
  read_next r q w back frames (v, true) e h g at = absurd (not_caught rest (transporting q) v h)
  read_next r q w back frames (v, false) e h (err x) at = inr (
    rest.close_socket-destroyed w,
    ap (λ c. rest.is_destroyed c.world) (open_next back q v h ∙ ap (deliver rest q v) at)
        ∙ rest.close_socket-destroyed v,
  )
  read_next r q w back frames (v, false) e h (ok (more, q')) at = inl (
      ap (settle rest (transporting q')) (
        handle_frames-append rest frames more w
        ∙ ap (unless_thrown rest (handle_frames rest more)) e)
      ∙ sym (open_next back q v h ∙ ap (deliver rest q v) at))

  -- The next chunk behind the handshake.
  encrypted_next :
      (front back : Bytes) (r : FrameReader NoiseSession) (w : W)
      → IsOpen rest (handle_encrypted_data rest front r w)
      → Same rest
          (handle_encrypted_data rest (front ++ back) r w)
          (handle_socket_data crypto rest ephemeral back (handle_encrypted_data rest front r w))
  unfolding handle_encrypted_data
  encrypted_next front back r w h =
      subst
        (λ f.
          Same rest (deliver rest r w f)
            (handle_socket_data crypto rest ephemeral back (deliver rest r w (feed front r))))
        (sym (feed-append front back r)) (go (feed front r) h)
    where
      go :
          (fed : Fed NoiseSession)
          → IsOpen rest (deliver rest r w fed)
          → Same rest
              (deliver rest r w (feed_next back fed))
              (handle_socket_data crypto rest ephemeral back (deliver rest r w fed))
      go (err x) h = absurd (not_caught rest (transporting r) w h)
      go (ok (frames, q)) h =
          read_next r q w back frames (handle_frames rest frames w) refl h (feed back q) refl

  -- An empty remainder gives no frames either way.
  start_feeds :
      (before : Inbound) (remainder act2 : Bytes) (noise : NoiseSession) (w : W)
      → start_transport crypto rest before remainder w (ok (act2, noise))
        ≡ handle_encrypted_data rest remainder
            (encrypted_reader crypto noise)
            (rest.write_raw act2 w)
  unfolding start_transport
  start_feeds before [] act2 noise w =
      unfold handle_encrypted_data feed feed_loop after_pass handle_frames in
      rw (no_frame (some (decrypt crypto)) noise)
  start_feeds before (b ∷ bs) act2 noise w = rw (lt→ltb 0 (length (b ∷ bs)) (omega arith))

  start_next :
      (before : Inbound) (remainder back : Bytes) (w : W) (answered : Result (Bytes × NoiseSession))
      → IsOpen rest (start_transport crypto rest before remainder w answered)
      → Same rest (start_transport crypto rest before (remainder ++ back) w answered) (
          handle_socket_data crypto rest ephemeral back
            (start_transport crypto rest before remainder w answered))
  start_next before remainder back w (err x) h =
      absurd (not_caught rest before w (unfold start_transport in h))
  start_next before remainder back w (ok (act2, noise)) h =
      let first = start_feeds before remainder act2 noise w in
      Same-along rest (start_feeds before (remainder ++ back) act2 noise w)
        (ap (handle_socket_data crypto rest ephemeral back) first)
        (encrypted_next remainder back (encrypted_reader crypto noise) (rest.write_raw act2 w)
          (ap (λ c. rest.is_destroyed c.world) (sym first) ∙ h))

  socket_open :
      (back : Bytes) (c : Connection W)
      → IsOpen rest c
      → handle_socket_data crypto rest ephemeral back c
        ≡ handle_open crypto rest ephemeral back c.inbound c.world
  unfolding handle_socket_data
  socket_open back c h = rw h refl

  socket_over :
      (chunk : Bytes) (c : Connection W)
      → rest.is_destroyed c.world ≡ true
      → handle_socket_data crypto rest ephemeral chunk c ≡ c
  unfolding handle_socket_data
  socket_over chunk c h = rw h refl

  shaken :
      (buffer : Bytes) (noise : NoiseSession) (w : W)
      → ltb (length buffer) 64 ≡ false
      → handle_handshake_data crypto rest ephemeral buffer noise w
        ≡ start_transport crypto rest
            (handshaking [] noise)
            (drop 64 buffer)
            w
            (process_act1 crypto ephemeral (take 64 buffer) noise)
  unfolding handle_handshake_data shake
  shaken buffer noise w long = rw long refl

  -- Act 1 is there, so the next chunk follows the remainder.
  long_next :
      (buffer back : Bytes) (noise : NoiseSession) (w : W)
      → ltb (length buffer) 64 ≡ false
      → handle_handshake_data crypto rest ephemeral (buffer ++ back) noise w
        ≡ start_transport crypto rest
            (handshaking [] noise)
            (drop 64 buffer ++ back)
            w
            (process_act1 crypto ephemeral (take 64 buffer) noise)
  long_next buffer back noise w long =
      let enough : 64 ≤ length buffer = ground arith in
      let still : ltb (length (buffer ++ back)) 64 ≡ false =
        le→ltb _ 64 (omega (arith, length-append buffer back, enough)) in
      shaken (buffer ++ back) noise w still
      ∙ ap
          (λ remainder.
            start_transport crypto rest (handshaking [] noise) remainder w
              (process_act1 crypto ephemeral (take 64 (buffer ++ back)) noise))
          (drop-append_of_le 64 buffer back enough)
      ∙ ap
          (λ act1.
            start_transport crypto rest (handshaking [] noise) (drop 64 buffer ++ back) w
              (process_act1 crypto ephemeral act1 noise))
          (take-append_of_le 64 buffer back enough)

  shaken_next :
      (buffer back : Bytes) (noise : NoiseSession) (w : W)
      → IsOpen rest (handle_handshake_data crypto rest ephemeral buffer noise w)
      → Same rest (handle_handshake_data crypto rest ephemeral (buffer ++ back) noise w) (
          handle_socket_data crypto rest ephemeral back
            (handle_handshake_data crypto rest ephemeral buffer noise w))
  shaken_next buffer back noise w h = elim (Bool-cases (ltb (length buffer) 64)) [
    | inl short ↦
        let waits : handle_handshake_data crypto rest ephemeral buffer noise w
            ≡ record { inbound = handshaking buffer noise; world = w } =
          unfold handle_handshake_data shake in
          ap (shake crypto rest ephemeral buffer noise w) short in
        inl (
          sym (
            ap (handle_socket_data crypto rest ephemeral back) waits
            ∙ socket_open back (record { inbound = handshaking buffer noise; world = w })
                (sym (ap (λ c. rest.is_destroyed c.world) waits) ∙ h)
            ∙ unfold handle_open in refl))
    | inr long ↦
        let first = shaken buffer noise w long in
        Same-along rest (long_next buffer back noise w long)
          (ap (handle_socket_data crypto rest ephemeral back) first)
          (start_next (handshaking [] noise) (drop 64 buffer) back w
            (process_act1 crypto ephemeral (take 64 buffer) noise)
            (sym (ap (λ c. rest.is_destroyed c.world) first) ∙ h))
  ]

  opened_next :
      (front back : Bytes) (inbound : Inbound) (w : W)
      → IsOpen rest (handle_open crypto rest ephemeral front inbound w)
      → Same rest (handle_open crypto rest ephemeral (front ++ back) inbound w) (
          handle_socket_data crypto rest ephemeral back
            (handle_open crypto rest ephemeral front inbound w))
  unfolding handle_open
  opened_next front back (transporting r) w h = encrypted_next front back r w h
  opened_next front back (handshaking buffer noise) w h =
      Same-along rest
        (ap (λ b. handle_handshake_data crypto rest ephemeral b noise w)
          (sym (append_assoc buffer front back)))
        refl (shaken_next (buffer ++ front) back noise w h)

  -- While the first of two chunks leaves the session alive, both give what they give as one chunk,
  -- wherever the stream is cut, in Act 1, behind it or in a frame: the same bytes written back, the same
  -- frames handled in the same order on the same state, and what is buffered. Otherwise both ways end
  -- with the session destroyed, though frames of the first chunk may have been handled in one of them.
  pub handle_socket_data-append :
      (front back : Bytes) (c : Connection W)
      → IsOpen rest (handle_socket_data crypto rest ephemeral front c)
      → Same rest (handle_socket_data crypto rest ephemeral (front ++ back) c) (
          handle_socket_data crypto rest ephemeral back
            (handle_socket_data crypto rest ephemeral front c))
  handle_socket_data-append front back c h = elim (Bool-cases (rest.is_destroyed c.world)) [
    | inl over ↦
        absurd (cc (over, h, ap (λ d. rest.is_destroyed d.world) (socket_over front c over)))
    | inr alive ↦
        let first = socket_open front c alive in
        Same-along rest (socket_open (front ++ back) c alive)
          (ap (handle_socket_data crypto rest ephemeral back) first)
          (opened_next front back c.inbound c.world
            (sym (ap (λ d. rest.is_destroyed d.world) first) ∙ h))
  ]
