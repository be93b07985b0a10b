-- ===== src/Tests/Noise.antt =====
-- The Noise handshake in a setting where the assumptions on its cryptography hold: keys that agree by
-- addition, and tags and signatures of one repeated number. None of it is secure.
use lido.Base.{
  ℕ, Bool, false, List, ◌+◌, ◌-◌, ◌^◌, ◌≡◌, refl, sym, ap, ◌∙◌, true, none, some, Option, [], ◌∷◌,
  ◌++◌, ◌==◌, ==_iff, if◌then◌else◌, arith, length, length-append, take, drop, take-append_self,
  drop-append_self, get_or, replicate, Bytes,
}
use lido.Outcome.{ok}
use lido.Frame.{mac_size}
use lido.Noise.{Crypto, Keypair, chacha20_poly1305, aes_256_gcm}
use lido.Noise.Certificate.{
  signed_hash, write_terms, SignatureNoiseMessage, IsCertificate, create_signature_noise_message,
  validate_signature_noise_message, certificate_round_trip, validate-create,
  serialize_signature_noise_message, deserialize_signature_noise_message, signature_noise_msg_size,
}
use lido.Noise.Handshake.{
  NoiseSession, NoiseInitiator, new_noise_session, new_noise_initiator, generate_act1, process_act1,
  process_act2,
}
use lido.Noise.Agreement.{Linked, handshake_agrees}
use lido.Tests.Frames.{setup_frame, share_frame, setup_frame-IsFrame, share_frame-IsFrame}
use lido.Frame.Reader.{ParsedFrame}
use lido.Client.Inbound.{
  Rest, Connection, handshaking, shake, handle_handshake_data, handle_open, handle_socket_data,
}
use lido.Client.Chunks.{Same, handle_socket_data-append}
use lido.Noise.Conversation.{
  all_frames, Turn, pool_sends, miner_sends, Ends, converse, handshake-converse,
}

abbrev first : Bytes → ℕ
first b = get_or b 0 0

abbrev open_sealed : ℕ → Bytes → Bytes → Option Bytes
open_sealed tag text found = if first found == tag then some text else none

open-seal :
    (tag : ℕ) (p : Bytes)
    → let c = p ++ replicate 16 tag in
      open_sealed tag (take (length c - mac_size) c) (drop (length c - mac_size) c) ≡ some p
open-seal tag p =
    let c = p ++ replicate 16 tag in
    let here : length c - mac_size ≡ length p = omega (arith, length-append p (replicate 16 tag)) in
    ap (λ n. open_sealed tag (take n c) (drop n c)) here
    ∙ ap (λ d. open_sealed tag d (drop (length p) c))
        (take-append_self (length p) p (replicate 16 tag) refl)
    ∙ ap (open_sealed tag p) (drop-append_self (length p) p (replicate 16 tag) refl)
    ∙ ap (λ b. if b then some p else none) ((==_iff tag tag).1 refl)

abbrev or_64 : Option Bytes → ℕ
or_64 none = 64
or_64 (some b) = length b

abbrev or_first : ℕ → Option Bytes → ℕ
or_first n none = n
or_first n (some b) = first b

abbrev toy_crypto : Crypto
toy_crypto = record {
  hmac = λ k d. replicate 32 (first k + length d);
  sha256 = λ d. take 32 (d ++ replicate 32 0);
  aead_encrypt = λ a k n ad p. p ++ replicate 16 (first k + first (drop 4 n));
  aead_decrypt = λ a k n ad text tag. open_sealed (first k + first (drop 4 n)) text tag;
  shared_secret =
      λ private_key remote own initiator. replicate 32 (first private_key + first remote);
  sign_schnorr = λ h key. some (replicate 64 (first h + first key));
  verify_schnorr = λ h point signature. first signature == first h + first point;
  x_only = λ key. some key;
  nonce_le = true;
  length-hmac = λ k d. refl;
  length-aead_encrypt = λ a k n ad p. length-append p (replicate 16 (first k + first (drop 4 n)));
  decrypt-encrypt = λ a k n ad p. open-seal (first k + first (drop 4 n)) p;
  length-sign_schnorr = λ h key signature e. sym (ap or_64 e);
  verify-sign_schnorr = λ h key point signature e f.
      let signed : first signature ≡ first h + first key = sym (ap (or_first 0) e) in
      let same : first key ≡ first point = ap (or_first 0) f in
      (==_iff (first signature) (first h + first point)).1 (omega (arith, signed, same));
  IsKeypair = λ p. (length p.public_key ≡ 64) × (first p.public_key ≡ first p.private_key);
  length-public_key = λ p h. h.0;
  secret_agrees = λ ours theirs h h'. ap (replicate 32) (
      let a : first ours.public_key ≡ first ours.private_key = h.1 in
      let b : first theirs.public_key ≡ first theirs.private_key = h'.1 in omega (arith, a, b));
}

abbrev toy_keys : ℕ → Keypair
toy_keys n = record { private_key = replicate 32 n; public_key = replicate 64 n }

abbrev toy_certificate : SignatureNoiseMessage
toy_certificate = record {
  version = 0;
  valid_from = 1700000000;
  not_valid_after = 1800000000;
  signature = replicate 64 5;
}

toy_certificate-IsCertificate : IsCertificate toy_certificate
toy_certificate-IsCertificate = record {
  version = omega arith;
  valid_from = omega arith;
  not_valid_after = omega arith;
  signature = refl;
}

certificate_round_trip_example :
    (buf : Bytes) × (serialize_signature_noise_message toy_certificate ≡ ok buf)
    × (length buf ≡ signature_noise_msg_size)
    × (deserialize_signature_noise_message buf ≡ ok toy_certificate)
certificate_round_trip_example =
    certificate_round_trip toy_certificate toy_certificate-IsCertificate

abbrev issued : SignatureNoiseMessage
issued = record {
  version = 0;
  valid_from = 1700000000;
  not_valid_after = 1800000000;
  signature = replicate 64 8;
}

issued_lem :
    create_signature_noise_message toy_crypto
      (replicate 32 8)
      (replicate 32 3)
      1700000000
      1800000000
    ≡ ok issued
unfolding create_signature_noise_message signed_hash write_terms
issued_lem = refl

validate-create_example :
    (validate_signature_noise_message toy_crypto issued (replicate 32 8) (replicate 32 3) ≡ ok true)
    × IsCertificate issued
    × (issued.valid_from ≡ 1700000000)
    × (issued.not_valid_after ≡ 1800000000)
validate-create_example =
    validate-create toy_crypto (replicate 32 8) (replicate 32 8) (replicate 32 3) 1700000000
      1800000000 issued issued_lem refl

handshake_agrees_example :
    let (act1, t) =
      generate_act1 toy_crypto (toy_keys 3) (new_noise_initiator toy_crypto aes_256_gcm []) in
    (act2 : Bytes) × (s' : NoiseSession) × (t' : NoiseInitiator) × (process_act1 toy_crypto
        (toy_keys 4)
        act1
        (new_noise_session toy_crypto (toy_keys 5) toy_certificate aes_256_gcm [])
      ≡ ok (act2, s'))
    × (length act2 ≡ 234)
    × (process_act2 toy_crypto act2 t ≡ ok (((toy_keys 5).public_key, toy_certificate), t'))
    × Linked (2 ^ 64) (2 ^ 64) s' t'
handshake_agrees_example =
    handshake_agrees toy_crypto (toy_keys 3) (toy_keys 4) (toy_keys 5) toy_certificate aes_256_gcm
      [] (refl, refl) (refl, refl) (refl, refl) toy_certificate-IsCertificate

-- The miner opens the connection, the pool answers twice, the miner sends again.
abbrev turns : List Turn
turns =
    miner_sends (setup_frame ∷ []) (2 ∷ 7 ∷ [])
    ∷ pool_sends (share_frame ∷ setup_frame ∷ []) (30 ∷ [])
    ∷ pool_sends (setup_frame ∷ []) []
    ∷ miner_sends (share_frame ∷ share_frame ∷ []) (1 ∷ 1 ∷ 1 ∷ [])
    ∷ []

handshake-converse_example :
    let (act1, t0) =
      generate_act1 toy_crypto (toy_keys 3) (new_noise_initiator toy_crypto chacha20_poly1305 []) in
    (act2 : Bytes) × (s : NoiseSession) × (t : NoiseInitiator) × (ends : Ends) × (process_act1
        toy_crypto
        (toy_keys 4)
        act1
        (new_noise_session toy_crypto (toy_keys 5) toy_certificate chacha20_poly1305 [])
      ≡ ok (act2, s))
    × (process_act2 toy_crypto act2 t0 ≡ ok (((toy_keys 5).public_key, toy_certificate), t))
    × (converse toy_crypto turns (s, t) ≡ ok (all_frames turns, ends))
handshake-converse_example =
    handshake-converse toy_crypto (toy_keys 3) (toy_keys 4) (toy_keys 5) toy_certificate
      chacha20_poly1305 [] turns (refl, refl) (refl, refl) (refl, refl)
      toy_certificate-IsCertificate (omega arith) (omega arith)
      (
        (setup_frame-IsFrame, tt),
        (
          (share_frame-IsFrame, (setup_frame-IsFrame, tt)),
          ((setup_frame-IsFrame, tt), ((share_frame-IsFrame, (share_frame-IsFrame, tt)), tt)),
        ),
      )

-- What was written back, the frames that were handled, and the flag. An empty frame ends the session.
abbrev World : Type 0
World = Bytes × List ParsedFrame × Bool

abbrev record_frame : ParsedFrame → World → World × Bool
record_frame frame (written, frames, destroyed) =
    ((written, frames ++ (frame ∷ []), length frame.payload == 0), false)

abbrev rest : Rest World
rest = record {
  is_destroyed = λ w. w.2;
  close_socket = λ w. (w.0, w.1, true);
  write_raw = λ b w. (w.0 ++ b, w.1, w.2);
  handle_frame = record_frame;
  close_socket-destroyed = λ w. refl;
}

abbrev waiting : Connection World
waiting = record {
  inbound =
      handshaking []
        (new_noise_session toy_crypto (toy_keys 5) toy_certificate chacha20_poly1305 []);
  world = ([], [], false);
}

alive :
    rest.is_destroyed
      (handle_socket_data toy_crypto rest (toy_keys 4) (replicate 60 3) waiting).world
    ≡ false
unfolding handle_socket_data handle_open handle_handshake_data shake
alive = refl

-- The first chunk ends within Act 1, and the second one has a byte of the first frame.
handle_socket_data-append_example :
    Same rest
      (handle_socket_data toy_crypto rest
        (toy_keys 4)
        (replicate 60 3 ++ (replicate 4 3 ++ (7 ∷ [])))
        waiting)
      (handle_socket_data toy_crypto rest
        (toy_keys 4)
        (replicate 4 3 ++ (7 ∷ []))
        (handle_socket_data toy_crypto rest (toy_keys 4) (replicate 60 3) waiting))
handle_socket_data-append_example =
    handle_socket_data-append toy_crypto rest (toy_keys 4) (replicate 60 3)
      (replicate 4 3 ++ (7 ∷ [])) waiting alive
