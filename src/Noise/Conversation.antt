-- ===== src/Noise/Conversation.antt =====
-- A whole connection of src/models/sv2/sv2-noise.ts and src/models/sv2/sv2-frame.ts: the handshake, and
-- then frames in both directions in any order.
use lido.Base.{ℕ, ◌+◌, ◌^◌, ◌≤◌, ◌≡◌, refl, ap, ◌∙◌, some, List, [], ◌∷◌, All, Bytes, arith}
use lido.Outcome.{Result, ok, err}
use lido.Frame.Reader.{ParsedFrame, new_frame_reader, Fed}
use lido.Frame.Writer.{FrameWriter}
use lido.Frame.Stream.{cut, write_frames, feed_chunks, messages, IsFrame, feed_chunks-write_frames}
use lido.Noise.{Crypto, Keypair, Algorithm}
use lido.Noise.Certificate.{SignatureNoiseMessage, IsCertificate}
use lido.Noise.Handshake.{
  NoiseSession, NoiseInitiator, new_noise_session, new_noise_initiator, generate_act1, process_act1,
  process_act2, encrypt, decrypt, initiator_encrypt, initiator_decrypt,
}
use lido.Noise.Agreement.{Linked, handshake_agrees}
use lido.Noise.Transport.{Linked-weaken, pool_to_miner, miner_to_pool}

-- One end sends frames, and TCP delivers all of them in chunks of these sizes.
pub data Turn : Type 0 where
  pool_sends miner_sends : List ParsedFrame → List ℕ → Turn

abbrev pub frames_of : Turn → List ParsedFrame
frames_of (pool_sends fs sizes) = fs
frames_of (miner_sends fs sizes) = fs

abbrev pub all_frames : List Turn → List (List ParsedFrame)
all_frames [] = []
all_frames (turn ∷ turns) = frames_of turn ∷ all_frames turns

abbrev pub sent_down : List Turn → ℕ
sent_down [] = 0
sent_down (pool_sends fs sizes ∷ turns) = messages fs + sent_down turns
sent_down (miner_sends fs sizes ∷ turns) = sent_down turns

abbrev pub sent_up : List Turn → ℕ
sent_up [] = 0
sent_up (pool_sends fs sizes ∷ turns) = sent_up turns
sent_up (miner_sends fs sizes ∷ turns) = messages fs + sent_up turns

abbrev pub IsTurn : Turn → Type 0
IsTurn turn = All IsFrame (frames_of turn)

abbrev pub Ends : Type 0
Ends = NoiseSession × NoiseInitiator

module _ (crypto : Crypto) where
  abbrev then_up : NoiseSession → Fed NoiseInitiator → Result (List ParsedFrame × Ends)
  then_up s (err x) = err x
  then_up s (ok (fs, r)) = ok (fs, (s, r.session))

  abbrev then_down : NoiseInitiator → Fed NoiseSession → Result (List ParsedFrame × Ends)
  then_down t (err x) = err x
  then_down t (ok (fs, r)) = ok (fs, (r.session, t))

  abbrev read_by_miner :
      List ℕ
      → NoiseInitiator
      → Result (Bytes × FrameWriter NoiseSession)
      → Result (List ParsedFrame × Ends)
  read_by_miner sizes t (err x) = err x
  read_by_miner sizes t (ok (wire, w)) =
      then_up w.session
        (feed_chunks (cut sizes wire) (new_frame_reader (some (initiator_decrypt crypto)) t))

  abbrev read_by_pool :
      List ℕ
      → NoiseSession
      → Result (Bytes × FrameWriter NoiseInitiator)
      → Result (List ParsedFrame × Ends)
  read_by_pool sizes s (err x) = err x
  read_by_pool sizes s (ok (wire, w)) =
      then_down w.session
        (feed_chunks (cut sizes wire) (new_frame_reader (some (decrypt crypto)) s))

  -- One end writes the frames, the other reads what TCP delivers.
  unfoldable pub take_turn : Turn → Ends → Result (List ParsedFrame × Ends)
  take_turn (pool_sends fs sizes) (s, t) =
      read_by_miner sizes t
        (write_frames fs (record { encrypt_fn = some (encrypt crypto); session = s }))
  take_turn (miner_sends fs sizes) (s, t) =
      read_by_pool sizes s
        (write_frames fs (record { encrypt_fn = some (initiator_encrypt crypto); session = t }))

  abbrev more :
      List ParsedFrame
      → Result (List (List ParsedFrame) × Ends)
      → Result (List (List ParsedFrame) × Ends)
  more fs (err x) = err x
  more fs (ok (fss, ends)) = ok (fs ∷ fss, ends)

  -- What the readers get in each turn.
  abbrev pub converse : List Turn → Ends → Result (List (List ParsedFrame) × Ends)
  converse [] ends = ok ([], ends)
  converse (turn ∷ turns) ends = elim (take_turn turn ends) [
    | err x ↦ err x
    | ok (fs, ends') ↦ more fs (converse turns ends')
  ]

  take_turn_lem :
      (turn : Turn) (turns : List Turn) (s : NoiseSession) (t : NoiseInitiator)
      → Linked (sent_down (turn ∷ turns)) (sent_up (turn ∷ turns)) s t
      → IsTurn turn
      → (s' : NoiseSession) × (t' : NoiseInitiator) × (take_turn turn (s, t)
          ≡ ok (frames_of turn, (s', t')))
        × Linked (sent_down turns) (sent_up turns) s' t'
  unfolding take_turn
  take_turn_lem (pool_sends fs sizes) turns s t y v =
      let down = sent_down turns in
      let (wire, s', t', e, d, y') =
        feed_chunks-write_frames (pool_to_miner crypto (sent_up turns)) fs sizes
          (messages fs + down) down s t y (omega arith) v in
      (s', t', ap (read_by_miner sizes t) e ∙ ap (then_up s') d, y')
  take_turn_lem (miner_sends fs sizes) turns s t y v =
      let up = sent_up turns in
      let (wire, t', s', e, d, y') =
        feed_chunks-write_frames (miner_to_pool crypto (sent_down turns)) fs sizes
          (messages fs + up) up t s y (omega arith) v in
      (s', t', ap (read_by_pool sizes s) e ∙ ap (then_down t') d, y')

  -- Two ends that are linked for the messages of a conversation: whatever frames they send turn
  -- after turn, and in whatever chunks a turn is delivered before the next one, the other end reads
  -- exactly these frames.
  pub converse_lem :
      (turns : List Turn) (s : NoiseSession) (t : NoiseInitiator)
      → Linked (sent_down turns) (sent_up turns) s t
      → All IsTurn turns
      → (s' : NoiseSession) × (t' : NoiseInitiator) × (converse turns (s, t)
          ≡ ok (all_frames turns, (s', t')))
  converse_lem [] s t y v = (s, t, refl)
  converse_lem (turn ∷ turns) s t y v =
      let (s1, t1, e, y1) = take_turn_lem turn turns s t y v.0 in
      let (s2, t2, e2) = converse_lem turns s1 t1 y1 v.1 in
      (s2, t2, rw (e, converse) (ap (more (frames_of turn)) e2))

  -- A pool and a miner with the same algorithm and prologue, key pairs that keygen can give and a
  -- certificate whose fields fit: they complete the handshake. Then the ends send frames that fit in
  -- any order of turns, each turn delivered whole before the next one begins, in chunks of any sizes;
  -- while the headers and payload chunks of each direction are at most 2^64 together, every frame
  -- arrives unchanged and in order.
  pub handshake-converse :
      (e se ss : Keypair) (cert : SignatureNoiseMessage) (algorithm : Algorithm) (prologue : Bytes)
      (turns : List Turn)
      → crypto.IsKeypair e
      → crypto.IsKeypair se
      → crypto.IsKeypair ss
      → IsCertificate cert
      → sent_down turns ≤ 2 ^ 64
      → sent_up turns ≤ 2 ^ 64
      → All IsTurn turns
      → let (act1, t0) = generate_act1 crypto e (new_noise_initiator crypto algorithm prologue) in
        (act2 : Bytes) × (s : NoiseSession) × (t : NoiseInitiator) × (ends : Ends) × (process_act1
            crypto se act1
            (new_noise_session crypto ss cert algorithm prologue)
          ≡ ok (act2, s))
        × (process_act2 crypto act2 t0 ≡ ok ((ss.public_key, cert), t))
        × (converse turns (s, t) ≡ ok (all_frames turns, ends))
  handshake-converse e se ss cert algorithm prologue turns he hse hss hc down up v =
      let (act2, s, t, answered, l, accepted, y) =
        handshake_agrees crypto e se ss cert algorithm prologue he hse hss hc in
      let y' : Linked (sent_down turns) (sent_up turns) s t = Linked-weaken down up y in
      let (s', t', e') = converse_lem turns s t y' v in
      (act2, s, t, (s', t'), answered, accepted, e')
