-- ===== src/Client/Inbound.antt =====
-- The bytes that a session of src/models/StratumV2Client.ts receives: handleSocketData with
-- handleHandshakeData and handleEncryptedData, over any handleFrame. The chunks of one session are
-- handled one after the other, so processingHandshake is never set at the start.
use lido.Base.{
  ℕ, ◌≡◌, Bool, true, false, some, List, [], ◌∷◌, ◌++◌, if◌then◌else◌, ltb, length, take, drop,
  Bytes,
}
use lido.Outcome.{Result, ok, err}
use lido.Frame.Reader.{ParsedFrame, FrameReader, Fed, new_frame_reader, feed}
use lido.Noise.{Crypto, Keypair}
use lido.Noise.Handshake.{NoiseSession, process_act1, decrypt}

-- SV2_NOISE_ACT1_SIZE
abbrev pub noise_act1_size : ℕ
noise_act1_size = 64

-- While handshakeComplete is not set: handshakeBuffer and the Noise session, with a frame reader that
-- nothing has been fed. Afterwards: the frame reader, whose decryption has the Noise session.
pub data Inbound : Type 0 where
  handshaking : Bytes → NoiseSession → Inbound
  transporting : FrameReader NoiseSession → Inbound

-- The rest of the client, in W: its flag, closeSocket, which sets the flag at once, writeRaw, and
-- handleFrame, whose answer tells whether it throws. What handleFrame sends is taken before its
-- encryption.
pub record Rest (W : Type 0) : Type 0 where
  pub is_destroyed : W → Bool
  pub close_socket : W → W
  pub write_raw : Bytes → W → W
  pub handle_frame : ParsedFrame → W → W × Bool
  pub close_socket-destroyed : (w : W) → is_destroyed (close_socket w) ≡ true

pub record Connection (W : Type 0) : Type 0 where
  pub inbound : Inbound
  pub world : W

module _ {W : Type 0} (rest : Rest W) where
  -- The catch of handleSocketData. The reader stays as it was: a session that is destroyed reads no more.
  abbrev pub caught : Inbound → W → Connection W
  caught inbound w = record { inbound = inbound; world = rest.close_socket w }

  abbrev pub unless_thrown : (W → W × Bool) → W × Bool → W × Bool
  unless_thrown next (w, true) = (w, true)
  unless_thrown next (w, false) = next w

  -- The loop of handleEncryptedData, and whether a handler throws.
  unfoldable pub handle_frames : List ParsedFrame → W → W × Bool
  handle_frames [] w = (w, false)
  handle_frames (frame ∷ frames) w =
      unless_thrown (handle_frames frames) (rest.handle_frame frame w)

  abbrev pub settle : Inbound → W × Bool → Connection W
  settle inbound (w, true) = caught inbound w
  settle inbound (w, false) = record { inbound = inbound; world = w }

  -- The frames of a chunk are read before the first one is handled.
  abbrev pub deliver : FrameReader NoiseSession → W → Fed NoiseSession → Connection W
  deliver r w (err x) = caught (transporting r) w
  deliver r w (ok (frames, r')) = settle (transporting r') (handle_frames frames w)

  unfoldable pub handle_encrypted_data : Bytes → FrameReader NoiseSession → W → Connection W
  handle_encrypted_data chunk r w = deliver r w (feed chunk r)

abbrev pub encrypted_reader : Crypto → NoiseSession → FrameReader NoiseSession
encrypted_reader crypto noise = new_frame_reader (some (decrypt crypto)) noise

module _ (crypto : Crypto) {W : Type 0} (rest : Rest W) where
  -- `if (remainder.length > 0)`
  abbrev pub after_act2 : Bytes → FrameReader NoiseSession → W → Connection W
  after_act2 remainder r w =
      if ltb 0 (length remainder)
      then handle_encrypted_data rest remainder r w
      else record { inbound = transporting r; world = w }

  -- From the answer of processAct1 on; the first argument is what an exception leaves.
  unfoldable pub start_transport :
      Inbound → Bytes → W → Result (Bytes × NoiseSession) → Connection W
  start_transport before remainder w (err x) = caught rest before w
  start_transport before remainder w (ok (act2, noise)) =
      after_act2 remainder (encrypted_reader crypto noise) (rest.write_raw act2 w)

  -- The flag is whether bytes of Act 1 are missing.
  unfoldable pub shake : Keypair → Bytes → NoiseSession → W → Bool → Connection W
  shake ephemeral buffer noise w true = record { inbound = handshaking buffer noise; world = w }
  shake ephemeral buffer noise w false =
      start_transport (handshaking [] noise) (drop noise_act1_size buffer) w
        (process_act1 crypto ephemeral (take noise_act1_size buffer) noise)

  unfoldable pub handle_handshake_data : Keypair → Bytes → NoiseSession → W → Connection W
  handle_handshake_data ephemeral buffer noise w =
      shake ephemeral buffer noise w (ltb (length buffer) noise_act1_size)

  unfoldable pub handle_open : Keypair → Bytes → Inbound → W → Connection W
  handle_open ephemeral chunk (handshaking buffer noise) w =
      handle_handshake_data ephemeral (buffer ++ chunk) noise w
  handle_open ephemeral chunk (transporting r) w = handle_encrypted_data rest chunk r w

  -- The key pair is the one that keygen will draw in the handshake.
  unfoldable pub handle_socket_data : Keypair → Bytes → Connection W → Connection W
  handle_socket_data ephemeral chunk c =
      if rest.is_destroyed c.world then c else handle_open ephemeral chunk c.inbound c.world
