-- ===== src/Noise/Ciphers.antt =====
-- Sv2CipherState of src/models/sv2/sv2-noise.ts: a state decrypts what an equal state encrypted.
use lido.Base.{
  ℕ, ◌+◌, ◌^◌, false, not, ◌&&◌, if◌then◌else◌, ◌++◌, replicate, le_bytes, ◌<◌, ◌≡◌, refl, ap, ◌∙◌,
  some, length, Bytes, arith, ltb, lt→ltb, le→ltb,
}
use mathlib.Core.List.{reverse}
use lido.Outcome.{ok}
use lido.Frame.{mac_size}
use lido.Noise.{
  is_aes, Crypto, CipherState, Algorithm, Symmetric, initialize_key, new_cipher, hkdf2,
  encode_nonce, next, encrypt_keyed, encrypt_by, encrypt_with_ad, decrypted, decrypt_keyed,
  decrypt_by, decrypt_with_ad, mix_hash, mix_key, with_temp_cipher, encrypt_and_hash,
  decrypt_and_hash,
}

-- A cipher with a key and a nonce that 64 bits hold.
pub record IsReady (c : CipherState) : Type 0 where
  pub key : Bytes
  pub keyed : c.k ≡ some key
  pub nonce : c.n < 2 ^ 64

pub initialize_key_lem :
    (key : Bytes) (c : CipherState)
    → length key ≡ 32
    → initialize_key key c ≡ ok (record c { k = some key; n = 0 })
unfolding initialize_key
initialize_key_lem key c l = ground arith

module _ (crypto : Crypto) where
  open crypto use {aead_encrypt, length-aead_encrypt, decrypt-encrypt, length-hmac}

  encode_nonce_lem :
      (n : ℕ) (a : Algorithm) → n < 2 ^ 64 → (nonce : Bytes) × (encode_nonce crypto n a ≡ ok nonce)
  unfolding encode_nonce
  encode_nonce_lem n a h = (
    replicate 4 0
        ++ (if is_aes a && not crypto.nonce_le then reverse (le_bytes 8 n) else le_bytes 8 n),
    rw (lt→ltb _ _ h),
  )

  pub decrypt-encrypt_with_ad :
      (ad p : Bytes) (c : CipherState)
      → IsReady c
      → (ciphertext : Bytes) × (encrypt_with_ad crypto ad p c ≡ ok (ciphertext, next c))
        × (length ciphertext ≡ length p + mac_size)
        × (decrypt_with_ad crypto ad ciphertext c ≡ ok (p, next c))
  unfolding encrypt_with_ad decrypt_with_ad encrypt_by decrypt_by encrypt_keyed decrypt_keyed
      decrypted
  decrypt-encrypt_with_ad ad p c r =
      let (nonce, e) = encode_nonce_lem c.n c.algorithm r.nonce in
      let text : Bytes = aead_encrypt c.algorithm r.key nonce ad p in
      let long : length text ≡ length p + mac_size =
        length-aead_encrypt c.algorithm r.key nonce ad p in
      let tagged : ltb (length text) mac_size ≡ false = le→ltb _ _ (omega arith) in
      let opened : decrypt_by crypto (some r.key) ad text c ≡ ok (p, next c) = rw tagged (
        ap (decrypt_keyed crypto c r.key ad text) e
        ∙ ap (decrypted crypto c) (decrypt-encrypt c.algorithm r.key nonce ad p)) in
      (
        text,
        ap (λ o. encrypt_by crypto o ad p c) r.keyed ∙ ap (encrypt_keyed crypto c r.key ad p) e,
        long,
        ap (λ o. decrypt_by crypto o ad text c) r.keyed ∙ opened,
      )

  pub length-hkdf2 :
      (ck ikm : Bytes)
      → (length (hkdf2 crypto ck ikm).0 ≡ 32) × (length (hkdf2 crypto ck ikm).1 ≡ 32)
  unfolding hkdf2
  length-hkdf2 ck ikm = (length-hmac _ _, length-hmac _ _)

  -- A key that is mixed in leaves a cipher that is ready.
  pub mix_key_lem :
      (ikm : Bytes) (y : Symmetric)
      → (z : Symmetric) × (mix_key crypto ikm y ≡ ok z) × IsReady z.temp_cipher
  unfolding mix_key
  mix_key_lem ikm y =
      let temp_k = (hkdf2 crypto y.ck ikm).1 in
      let e = initialize_key_lem temp_k (new_cipher y.cipher_algorithm) (length-hkdf2 y.ck ikm).1 in
      (
        record y {
          ck = (hkdf2 crypto y.ck ikm).0;
          temp_cipher = record (new_cipher y.cipher_algorithm) { k = some temp_k; n = 0 };
        },
        ap (with_temp_cipher crypto y (hkdf2 crypto y.ck ikm).0) e,
        record { key = temp_k; keyed = refl; nonce = omega arith },
      )

  -- What one end encrypts and hashes, the other end decrypts and hashes, to the same state.
  pub decrypt-encrypt_and_hash :
      (p : Bytes) (y : Symmetric)
      → IsReady y.temp_cipher
      → (ciphertext : Bytes) × (z : Symmetric) × (encrypt_and_hash crypto p y ≡ ok (ciphertext, z))
        × (length ciphertext ≡ length p + mac_size)
        × (decrypt_and_hash crypto ciphertext y ≡ ok (p, z))
  unfolding encrypt_and_hash decrypt_and_hash
  decrypt-encrypt_and_hash p y r =
      let (text, e, long, d) = decrypt-encrypt_with_ad y.h p y.temp_cipher r in
      (
        text,
        mix_hash crypto text (record y { temp_cipher = next y.temp_cipher }),
        rw (e, encrypt_and_hash),
        long,
        rw (d, decrypt_and_hash),
      )
