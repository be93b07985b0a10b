-- ===== src/Noise/Handshake.antt =====
-- Sv2NoiseSession and Sv2NoiseInitiator of src/models/sv2/sv2-noise.ts. The key pairs that keygen
-- draws are arguments, and so are the acts that the other end sends.
use lido.Base.{
  Bool, true, false, Option, none, some, [], ◌∷◌, ◌++◌, leb, ◌==◌, if◌then◌else◌, length, take,
  drop, replicate, Bytes,
}
use lido.Outcome.{M, Result, ok, err, bad_argument, pure, ◌>>=◌, ◌>>◌}
use lido.Noise.{
  Crypto, Keypair, Algorithm, chacha20_poly1305, aes_256_gcm, CipherState, new_cipher,
  initialize_key, Symmetric, hkdf2, mix_hash, mix_key, encrypt_and_hash, decrypt_and_hash,
  encrypt_with_ad, decrypt_with_ad,
}
use lido.Noise.Certificate.{
  SignatureNoiseMessage, serialize_signature_noise_message, deserialize_signature_noise_message,
}

-- The ASCII codes of SV2_NOISE_PROTOCOL_NAME and SV2_NOISE_PROTOCOL_NAME_AESGCM.
abbrev pub protocol_name : Algorithm → Bytes
protocol_name chacha20_poly1305 =
    78 ∷ 111 ∷ 105 ∷ 115 ∷ 101 ∷ 95 ∷ 78 ∷ 88 ∷ 95 ∷ 83 ∷ 101 ∷ 99 ∷ 112 ∷ 50 ∷ 53 ∷ 54 ∷ 107 ∷ 49
    ∷ 43 ∷ 69 ∷ 108 ∷ 108 ∷ 83 ∷ 119 ∷ 105 ∷ 102 ∷ 116 ∷ 95 ∷ 67 ∷ 104 ∷ 97 ∷ 67 ∷ 104 ∷ 97 ∷ 80
    ∷ 111 ∷ 108 ∷ 121 ∷ 95 ∷ 83 ∷ 72 ∷ 65 ∷ 50 ∷ 53 ∷ 54 ∷ []
protocol_name aes_256_gcm =
    78 ∷ 111 ∷ 105 ∷ 115 ∷ 101 ∷ 95 ∷ 78 ∷ 88 ∷ 95 ∷ 83 ∷ 101 ∷ 99 ∷ 112 ∷ 50 ∷ 53 ∷ 54 ∷ 107 ∷ 49
    ∷ 43 ∷ 69 ∷ 108 ∷ 108 ∷ 83 ∷ 119 ∷ 105 ∷ 102 ∷ 116 ∷ 95 ∷ 65 ∷ 69 ∷ 83 ∷ 71 ∷ 67 ∷ 77 ∷ 95 ∷ 83
    ∷ 72 ∷ 65 ∷ 50 ∷ 53 ∷ 54 ∷ []

pub record NoiseSession : Type 0 where
  pub symmetric : Symmetric
  pub send_cipher : CipherState
  pub recv_cipher : CipherState
  pub handshake_complete : Bool
  pub server_ephemeral : Option Keypair
  pub static_keypair : Keypair
  pub certificate_message : SignatureNoiseMessage

pub record NoiseInitiator : Type 0 where
  pub symmetric : Symmetric
  pub send_cipher : CipherState
  pub recv_cipher : CipherState
  pub handshake_complete : Bool
  pub ephemeral : Option Keypair

abbrev pub modify : (Symmetric → Symmetric) → M Symmetric (Unit {0})
modify f y = ok (tt, f y)

abbrev pub done : Result Symmetric → Result (Unit {0} × Symmetric)
done (err e) = err e
done (ok y) = ok (tt, y)

unfoldable pub attempt : (Symmetric → Result Symmetric) → M Symmetric (Unit {0})
attempt f y = done (f y)

abbrev pub lift : {A : Type 0} → Result A → M Symmetric A
lift (err e) y = err e
lift (ok a) y = ok (a, y)

abbrev pub both : Result CipherState → Result CipherState → Result (CipherState × CipherState)
both (err e) d = err e
both (ok c) (err e) = err e
both (ok c) (ok d) = ok (c, d)

module _ (crypto : Crypto) where
  open crypto use {sha256, shared_secret}

  -- The constructors' start of h and ck.
  abbrev pub first_hash : Algorithm → Bytes
  first_hash algorithm =
      if leb (length (protocol_name algorithm)) 32
      then take 32 (protocol_name algorithm ++ replicate 32 0)
      else sha256 (protocol_name algorithm)

  unfoldable pub new_symmetric : Algorithm → Bytes → Symmetric
  new_symmetric algorithm prologue = record {
    h = sha256 (first_hash algorithm ++ prologue);
    ck = first_hash algorithm;
    temp_cipher = new_cipher algorithm;
    cipher_algorithm = algorithm;
  }

  abbrev pub new_noise_session : Keypair → SignatureNoiseMessage → Algorithm → Bytes → NoiseSession
  new_noise_session static_keypair certificate_message algorithm prologue = record {
    symmetric = new_symmetric algorithm prologue;
    send_cipher = new_cipher algorithm;
    recv_cipher = new_cipher algorithm;
    handshake_complete = false;
    server_ephemeral = none;
    static_keypair = static_keypair;
    certificate_message = certificate_message;
  }

  abbrev pub new_noise_initiator : Algorithm → Bytes → NoiseInitiator
  new_noise_initiator algorithm prologue = record {
    symmetric = new_symmetric algorithm prologue;
    send_cipher = new_cipher algorithm;
    recv_cipher = new_cipher algorithm;
    handshake_complete = false;
    ephemeral = none;
  }

  unfoldable pub ecdh : Keypair → Bytes → Bool → Bytes
  ecdh ours remote_pub we_are_initiator =
      shared_secret ours.private_key remote_pub ours.public_key we_are_initiator

  -- processAct1 on the hash state, up to the last message of Act 2.
  unfoldable pub act2_of : Keypair → Keypair → SignatureNoiseMessage → Bytes → M Symmetric Bytes
  act2_of ephemeral static certificate act1 = do
    modify (mix_hash crypto act1)
    _ ← decrypt_and_hash crypto []
    modify (mix_hash crypto ephemeral.public_key)
    attempt (mix_key crypto (ecdh ephemeral act1 false))
    encrypted_static ← encrypt_and_hash crypto static.public_key
    attempt (mix_key crypto (ecdh static act1 false))
    cert_payload ← lift (serialize_signature_noise_message certificate)
    encrypted_cert ← encrypt_and_hash crypto cert_payload
    pure (ephemeral.public_key ++ (encrypted_static ++ encrypted_cert))

  -- The keys of the two directions.
  unfoldable pub split : Symmetric → CipherState → CipherState → Result (CipherState × CipherState)
  split y first second =
      let (k1, k2) = hkdf2 crypto y.ck [] in
      both (initialize_key k1 first) (initialize_key k2 second)

  abbrev pub complete_session :
      NoiseSession
      → Keypair
      → Bytes
      → Symmetric
      → Result (CipherState × CipherState)
      → Result (Bytes × NoiseSession)
  complete_session s ephemeral act2 y (err e) = err e
  complete_session s ephemeral act2 y (ok (recv, send)) = ok (
    act2,
    record s {
      symmetric = y;
      recv_cipher = recv;
      send_cipher = send;
      handshake_complete = true;
      server_ephemeral = some ephemeral;
    },
  )

  abbrev pub finish_act1 :
      NoiseSession → Keypair → Result (Bytes × Symmetric) → Result (Bytes × NoiseSession)
  finish_act1 s ephemeral (err e) = err e
  finish_act1 s ephemeral (ok (act2, y)) =
      complete_session s ephemeral act2 y (split y s.recv_cipher s.send_cipher)

  unfoldable pub process_act1 : Keypair → Bytes → M NoiseSession Bytes
  process_act1 ephemeral act1 s =
      if length act1 == 64
      then finish_act1 s ephemeral
          (act2_of ephemeral s.static_keypair s.certificate_message act1 s.symmetric)
      else err bad_argument

  unfoldable pub generate_act1 : Keypair → NoiseInitiator → Bytes × NoiseInitiator
  generate_act1 keypair t = (
    keypair.public_key,
    record t {
      symmetric = mix_hash crypto [] (mix_hash crypto keypair.public_key t.symmetric);
      ephemeral = some keypair;
    },
  )

  -- processAct2 on the hash state; the arguments are the three parts of Act 2.
  unfoldable pub open_act2 :
      Keypair → Bytes → Bytes → Bytes → M Symmetric (Bytes × SignatureNoiseMessage)
  open_act2 ephemeral server_ephemeral encrypted_static encrypted_cert = do
    modify (mix_hash crypto server_ephemeral)
    attempt (mix_key crypto (ecdh ephemeral server_ephemeral true))
    server_static_key ← decrypt_and_hash crypto encrypted_static
    attempt (mix_key crypto (ecdh ephemeral server_static_key true))
    cert_payload ← decrypt_and_hash crypto encrypted_cert
    certificate ← lift (deserialize_signature_noise_message cert_payload)
    pure (server_static_key, certificate)

  abbrev pub complete_initiator :
      NoiseInitiator
      → Bytes × SignatureNoiseMessage
      → Symmetric
      → Result (CipherState × CipherState)
      → Result ((Bytes × SignatureNoiseMessage) × NoiseInitiator)
  complete_initiator t found y (err e) = err e
  complete_initiator t found y (ok (send, recv)) = ok (
    found,
    record t { symmetric = y; send_cipher = send; recv_cipher = recv; handshake_complete = true },
  )

  abbrev pub finish_act2 :
      NoiseInitiator
      → Result ((Bytes × SignatureNoiseMessage) × Symmetric)
      → Result ((Bytes × SignatureNoiseMessage) × NoiseInitiator)
  finish_act2 t (err e) = err e
  finish_act2 t (ok (found, y)) = complete_initiator t found y (split y t.send_cipher t.recv_cipher)

  -- EllSwift refuses the empty keys of an initiator that has sent no Act 1.
  abbrev pub act2_with : Option Keypair → Bytes → M NoiseInitiator (Bytes × SignatureNoiseMessage)
  act2_with none act2 t = err bad_argument
  act2_with (some ephemeral) act2 t = finish_act2 t (
      open_act2 ephemeral (take 64 act2) (take 80 (drop 64 act2)) (take 90 (drop 144 act2))
        t.symmetric)

  unfoldable pub process_act2 : Bytes → M NoiseInitiator (Bytes × SignatureNoiseMessage)
  process_act2 act2 t =
      if length act2 == 234 then act2_with t.ephemeral act2 t else err bad_argument

  -- encrypt and decrypt of the session, and of the initiator.
  abbrev pub sent : NoiseSession → Result (Bytes × CipherState) → Result (Bytes × NoiseSession)
  sent s (err e) = err e
  sent s (ok (text, c)) = ok (text, record s { send_cipher = c })

  abbrev pub received : NoiseSession → Result (Bytes × CipherState) → Result (Bytes × NoiseSession)
  received s (err e) = err e
  received s (ok (text, c)) = ok (text, record s { recv_cipher = c })

  unfoldable pub encrypt : Bytes → M NoiseSession Bytes
  encrypt plaintext s =
      if s.handshake_complete
      then sent s (encrypt_with_ad crypto [] plaintext s.send_cipher)
      else err bad_argument

  unfoldable pub decrypt : Bytes → M NoiseSession Bytes
  decrypt ciphertext s =
      if s.handshake_complete
      then received s (decrypt_with_ad crypto [] ciphertext s.recv_cipher)
      else err bad_argument

  abbrev pub initiator_sent :
      NoiseInitiator → Result (Bytes × CipherState) → Result (Bytes × NoiseInitiator)
  initiator_sent t (err e) = err e
  initiator_sent t (ok (text, c)) = ok (text, record t { send_cipher = c })

  abbrev pub initiator_received :
      NoiseInitiator → Result (Bytes × CipherState) → Result (Bytes × NoiseInitiator)
  initiator_received t (err e) = err e
  initiator_received t (ok (text, c)) = ok (text, record t { recv_cipher = c })

  unfoldable pub initiator_encrypt : Bytes → M NoiseInitiator Bytes
  initiator_encrypt plaintext t =
      if t.handshake_complete
      then initiator_sent t (encrypt_with_ad crypto [] plaintext t.send_cipher)
      else err bad_argument

  unfoldable pub initiator_decrypt : Bytes → M NoiseInitiator Bytes
  initiator_decrypt ciphertext t =
      if t.handshake_complete
      then initiator_received t (decrypt_with_ad crypto [] ciphertext t.recv_cipher)
      else err bad_argument
