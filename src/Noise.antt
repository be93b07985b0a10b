-- ===== src/Noise.antt =====
-- src/models/sv2/sv2-noise.ts: the hash state that both ends of the handshake keep, and the cipher
-- states. Handshake and Certificate are the children of the same names.
pub mod Ciphers
pub mod Certificate
pub mod Handshake
pub mod Agreement
pub mod Transport
pub mod Conversation
use mathlib.Core.List.{reverse}
use lido.Base.{
  ℕ, suc, ◌+◌, ◌-◌, ◌^◌, ◌<◌, ◌≡◌, Bool, true, false, ◌&&◌, not, Option, none, some, [], ◌∷◌, ◌++◌,
  ltb, ◌==◌, if◌then◌else◌, length, take, drop, replicate, Bytes, le_bytes,
}
use lido.Outcome.{M, Result, ok, err, range_error, cipher_failure, bad_argument, pure, ◌>>=◌, ◌>>◌}
use lido.Frame.{mac_size}

pub data Algorithm : Type 0 where
  chacha20_poly1305 aes_256_gcm : Algorithm

pub record Keypair : Type 0 where
  pub private_key : Bytes
  pub public_key : Bytes

-- The cryptography of Node.js, tiny-secp256k1 and EllSwift. A ciphertext comes with its tag behind it.
-- `nonce_le` is whether the environment sets SV2_NONCE_LE.
pub record Crypto : Type 1 where
  pub hmac : Bytes → Bytes → Bytes
  pub sha256 : Bytes → Bytes
  pub aead_encrypt : Algorithm → Bytes → Bytes → Bytes → Bytes → Bytes
  -- `none` is a tag that does not verify; the arguments are key, nonce, ad, data and tag.
  pub aead_decrypt : Algorithm → Bytes → Bytes → Bytes → Bytes → Bytes → Option Bytes
  -- Private key, remote public key, own public key, and whether this end is the initiator.
  pub shared_secret : Bytes → Bytes → Bytes → Bool → Bytes
  pub sign_schnorr : Bytes → Bytes → Option Bytes
  pub verify_schnorr : Bytes → Bytes → Bytes → Bool
  -- xOnlyPointFromScalar
  pub x_only : Bytes → Option Bytes
  pub nonce_le : Bool
  pub length-hmac : (k d : Bytes) → length (hmac k d) ≡ 32
  pub length-aead_encrypt :
      (a : Algorithm) (k n ad p : Bytes) → length (aead_encrypt a k n ad p) ≡ length p + mac_size
  -- What was encrypted is decrypted again.
  pub decrypt-encrypt :
      (a : Algorithm) (k n ad p : Bytes)
      → let c = aead_encrypt a k n ad p in
        aead_decrypt a k n ad (take (length c - mac_size) c) (drop (length c - mac_size) c) ≡ some p
  pub length-sign_schnorr :
      (h key signature : Bytes) → sign_schnorr h key ≡ some signature → length signature ≡ 64
  pub verify-sign_schnorr :
      (h key point signature : Bytes)
      → sign_schnorr h key ≡ some signature
      → x_only key ≡ some point
      → verify_schnorr h point signature ≡ true
  -- A pair that keygen can give; the two ends of a key exchange compute one secret.
  pub IsKeypair : Keypair → Type 0
  pub length-public_key : (p : Keypair) → IsKeypair p → length p.public_key ≡ 64
  pub secret_agrees :
      (ours theirs : Keypair)
      → IsKeypair ours
      → IsKeypair theirs
      → shared_secret ours.private_key theirs.public_key ours.public_key true
        ≡ shared_secret theirs.private_key ours.public_key theirs.public_key false

pub record CipherState : Type 0 where
  pub k : Option Bytes
  pub n : ℕ
  pub algorithm : Algorithm

-- new Sv2CipherState(algorithm)
abbrev pub new_cipher : Algorithm → CipherState
new_cipher algorithm = record { k = none; n = 0; algorithm = algorithm }

unfoldable pub initialize_key : Bytes → CipherState → Result CipherState
initialize_key key c =
    if length key == 32 then ok (record c { k = some key; n = 0 }) else err bad_argument

abbrev pub is_aes : Algorithm → Bool
is_aes chacha20_poly1305 = false
is_aes aes_256_gcm = true

-- The state after a message.
abbrev pub next : CipherState → CipherState
next c = record c { n = c.n + 1 }

-- What both handshake classes keep: the fields h, ck, tempCipher and cipherAlgorithm.
pub record Symmetric : Type 0 where
  pub h : Bytes
  pub ck : Bytes
  pub temp_cipher : CipherState
  pub cipher_algorithm : Algorithm

module _ (crypto : Crypto) where
  open crypto use {hmac, sha256, aead_encrypt, aead_decrypt, nonce_le}

  unfoldable pub hkdf2 : Bytes → Bytes → Bytes × Bytes
  hkdf2 chaining_key ikm =
      let temp_key = hmac chaining_key ikm in
      let out1 = hmac temp_key (1 ∷ []) in (out1, hmac temp_key (out1 ++ (2 ∷ [])))

  -- writeBigUInt64 refuses a number of more than 64 bits.
  unfoldable pub encode_nonce : ℕ → Algorithm → Result Bytes
  encode_nonce n algorithm =
      if ltb n (2 ^ 64)
      then ok (
          replicate 4 0
          ++ (if is_aes algorithm && not nonce_le then reverse (le_bytes 8 n) else le_bytes 8 n))
      else err range_error

  unfoldable pub encrypt_keyed :
      CipherState → Bytes → Bytes → Bytes → Result Bytes → Result (Bytes × CipherState)
  encrypt_keyed c key ad plaintext (err e) = err e
  encrypt_keyed c key ad plaintext (ok nonce) =
      ok (aead_encrypt c.algorithm key nonce ad plaintext, next c)

  unfoldable pub encrypt_by : Option Bytes → Bytes → Bytes → M CipherState Bytes
  encrypt_by none ad plaintext c = ok (plaintext, c)
  encrypt_by (some key) ad plaintext c =
      encrypt_keyed c key ad plaintext (encode_nonce c.n c.algorithm)

  unfoldable pub encrypt_with_ad : Bytes → Bytes → M CipherState Bytes
  encrypt_with_ad ad plaintext c = encrypt_by c.k ad plaintext c

  unfoldable pub decrypted : CipherState → Option Bytes → Result (Bytes × CipherState)
  decrypted c none = err cipher_failure
  decrypted c (some plaintext) = ok (plaintext, next c)

  unfoldable pub decrypt_keyed :
      CipherState → Bytes → Bytes → Bytes → Result Bytes → Result (Bytes × CipherState)
  decrypt_keyed c key ad ciphertext (err e) = err e
  decrypt_keyed c key ad ciphertext (ok nonce) = decrypted c (
      aead_decrypt c.algorithm key nonce ad (take (length ciphertext - mac_size) ciphertext)
        (drop (length ciphertext - mac_size) ciphertext))

  unfoldable pub decrypt_by : Option Bytes → Bytes → Bytes → M CipherState Bytes
  decrypt_by none ad ciphertext c = ok (ciphertext, c)
  decrypt_by (some key) ad ciphertext c =
      if ltb (length ciphertext) mac_size
      then err bad_argument
      else decrypt_keyed c key ad ciphertext (encode_nonce c.n c.algorithm)

  unfoldable pub decrypt_with_ad : Bytes → Bytes → M CipherState Bytes
  decrypt_with_ad ad ciphertext c = decrypt_by c.k ad ciphertext c

  unfoldable pub mix_hash : Bytes → Symmetric → Symmetric
  mix_hash bytes y = record y { h = sha256 (y.h ++ bytes) }

  abbrev pub with_temp_cipher : Symmetric → Bytes → Result CipherState → Result Symmetric
  with_temp_cipher y ck (err e) = err e
  with_temp_cipher y ck (ok c) = ok (record y { ck = ck; temp_cipher = c })

  unfoldable pub mix_key : Bytes → Symmetric → Result Symmetric
  mix_key ikm y =
      let (new_ck, temp_k) = hkdf2 y.ck ikm in
      with_temp_cipher y new_ck (initialize_key temp_k (new_cipher y.cipher_algorithm))

  -- The text is returned, and the ciphertext mixed into the hash.
  abbrev pub hashed : Symmetric → Bytes → Bytes → CipherState → Bytes × Symmetric
  hashed y text ciphertext c = (text, mix_hash ciphertext (record y { temp_cipher = c }))

  unfoldable pub encrypt_and_hash : Bytes → M Symmetric Bytes
  encrypt_and_hash plaintext y = elim (encrypt_with_ad y.h plaintext y.temp_cipher) [
    | err e ↦ err e
    | ok (ciphertext, c) ↦ ok (hashed y ciphertext ciphertext c)
  ]

  unfoldable pub decrypt_and_hash : Bytes → M Symmetric Bytes
  decrypt_and_hash ciphertext y = elim (decrypt_with_ad y.h ciphertext y.temp_cipher) [
    | err e ↦ err e
    | ok (plaintext, c) ↦ ok (hashed y plaintext ciphertext c)
  ]
