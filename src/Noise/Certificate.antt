-- ===== src/Noise/Certificate.antt =====
-- The certificate of src/models/sv2/sv2-noise.ts: SignatureNoiseMessage.
use lido.Base.{
  le→ltb, subst, inl, inr, Option-cases, false, ℕ, ◌^◌, ◌<◌, ◌≡◌, refl, sym, ap, ◌∙◌, Bool, true,
  Option, some, none, [], ◌++◌, ◌&&◌, ltb, if◌then◌else◌, length, take, drop, replicate, Bytes,
  le_bytes, le_value, le_value-le_bytes, arith, lt→ltb, take-all, take-append_self,
}
use lido.Outcome.{
  Result-cases, ok-injective, err≢ok, Result, ok, err, range_error, bad_argument, cipher_failure,
}
use lido.Noise.{Crypto}

abbrev pub signature_noise_msg_size : ℕ
signature_noise_msg_size = 74

pub record SignatureNoiseMessage : Type 0 where
  pub version : ℕ
  pub valid_from : ℕ
  pub not_valid_after : ℕ
  pub signature : Bytes

-- The three numbers; writeUInt16LE and writeUInt32LE refuse numbers that do not fit.
unfoldable pub write_terms : SignatureNoiseMessage → Result Bytes
write_terms msg =
    if ltb msg.version (2 ^ 16) && (ltb msg.valid_from (2 ^ 32) && ltb msg.not_valid_after (2 ^ 32))
    then ok
        (le_bytes 2 msg.version ++ (le_bytes 4 msg.valid_from ++ le_bytes 4 msg.not_valid_after))
    else err range_error

-- `source.copy(buf, 10)` where n zero bytes stand: what is longer is cut.
abbrev pub copied : ℕ → Bytes → Bytes
copied n source = take n (source ++ replicate n 0)

abbrev pub followed_by : Bytes → Result Bytes → Result Bytes
followed_by rest (err e) = err e
followed_by rest (ok terms) = ok (terms ++ rest)

unfoldable pub serialize_signature_noise_message : SignatureNoiseMessage → Result Bytes
serialize_signature_noise_message msg = followed_by (copied 64 msg.signature) (write_terms msg)

unfoldable pub deserialize_signature_noise_message : Bytes → Result SignatureNoiseMessage
deserialize_signature_noise_message buf =
    if ltb (length buf) signature_noise_msg_size
    then err bad_argument
    else ok (record {
      version = le_value (take 2 buf);
      valid_from = le_value (take 4 (drop 2 buf));
      not_valid_after = le_value (take 4 (drop 6 buf));
      signature = take 64 (drop 10 buf);
    })

-- The fields fit, and the signature has its 64 bytes.
pub record IsCertificate (msg : SignatureNoiseMessage) : Type 0 where
  pub version : msg.version < 2 ^ 16
  pub valid_from : msg.valid_from < 2 ^ 32
  pub not_valid_after : msg.not_valid_after < 2 ^ 32
  pub signature : length msg.signature ≡ 64

write_terms_lem :
    (msg : SignatureNoiseMessage)
    → IsCertificate msg
    → write_terms msg
      ≡ ok (le_bytes 2 msg.version ++ (le_bytes 4 msg.valid_from ++ le_bytes 4 msg.not_valid_after))
unfolding write_terms
write_terms_lem msg v =
    rw (lt→ltb _ _ v.version, lt→ltb _ _ v.valid_from, lt→ltb _ _ v.not_valid_after)

-- Terms that are written fit their fields.
write_terms_fit :
    (msg : SignatureNoiseMessage) (bytes : Bytes)
    → write_terms msg ≡ ok bytes
    → (msg.version < 2 ^ 16) × (msg.valid_from < 2 ^ 32) × (msg.not_valid_after < 2 ^ 32)
unfolding write_terms
write_terms_fit msg bytes h = ground arith

copied-all : (bytes : Bytes) → length bytes ≡ 64 → copied 64 bytes ≡ bytes
copied-all bytes l = take-append_self 64 bytes _ (sym l)

-- A certificate whose numbers fit and whose signature has 64 bytes is serialized to 74 bytes, which
-- are deserialized to it.
pub certificate_round_trip :
    (msg : SignatureNoiseMessage)
    → IsCertificate msg
    → (buf : Bytes) × (serialize_signature_noise_message msg ≡ ok buf)
      × (length buf ≡ signature_noise_msg_size)
      × (deserialize_signature_noise_message buf ≡ ok msg)
unfolding serialize_signature_noise_message deserialize_signature_noise_message write_terms
certificate_round_trip msg v =
    let terms =
      le_bytes 2 msg.version ++ (le_bytes 4 msg.valid_from ++ le_bytes 4 msg.not_valid_after) in
    let written = write_terms_lem msg v in
    let whole = copied-all msg.signature v.signature in
    let l : length msg.signature ≡ 64 = v.signature in
    let long : ltb (length (terms ++ msg.signature)) signature_noise_msg_size ≡ false =
      le→ltb _ _ (omega (arith, l)) in
    (
      terms ++ msg.signature,
      ap (followed_by (copied 64 msg.signature)) written ∙ ap (λ sig. ok (terms ++ sig)) whole,
      omega (arith, l),
      rw (
        long,
        le_value-le_bytes 2 msg.version v.version,
        le_value-le_bytes 4 msg.valid_from v.valid_from,
        le_value-le_bytes 4 msg.not_valid_after v.not_valid_after,
        take-all 64 msg.signature (omega (arith, l)),
      ),
    )

module _ (crypto : Crypto) where
  open crypto use {
    sha256, sign_schnorr, verify_schnorr, x_only, verify-sign_schnorr, length-sign_schnorr,
  }

  abbrev pub hash_of : Result Bytes → Result Bytes
  hash_of (err e) = err e
  hash_of (ok buf) = ok (sha256 buf)

  -- The hash that is signed: the terms and the static key.
  unfoldable pub signed_hash : SignatureNoiseMessage → Bytes → Result Bytes
  signed_hash msg static_pub_key_x_only =
      hash_of (followed_by (copied 32 static_pub_key_x_only) (write_terms msg))

  abbrev pub signed : SignatureNoiseMessage → Option Bytes → Result SignatureNoiseMessage
  signed terms none = err cipher_failure
  signed terms (some signature) = ok (record terms { signature = signature })

  abbrev pub signed_with :
      SignatureNoiseMessage → Bytes → Result Bytes → Result SignatureNoiseMessage
  signed_with terms key (err e) = err e
  signed_with terms key (ok msg_hash) = signed terms (sign_schnorr msg_hash key)

  unfoldable pub create_signature_noise_message :
      Bytes → Bytes → ℕ → ℕ → Result SignatureNoiseMessage
  create_signature_noise_message authority_priv_key static_pub_key_x_only valid_from
        not_valid_after =
      let terms : SignatureNoiseMessage = record {
        version = 0;
        valid_from = valid_from;
        not_valid_after = not_valid_after;
        signature = [];
      } in
      signed_with terms authority_priv_key (signed_hash terms static_pub_key_x_only)

  abbrev pub verified : SignatureNoiseMessage → Bytes → Result Bytes → Result Bool
  verified msg key (err e) = err e
  verified msg key (ok msg_hash) = ok (verify_schnorr msg_hash key msg.signature)

  unfoldable pub validate_signature_noise_message :
      SignatureNoiseMessage → Bytes → Bytes → Result Bool
  validate_signature_noise_message msg authority_pub_key_x_only static_pub_key_x_only =
      verified msg authority_pub_key_x_only (signed_hash msg static_pub_key_x_only)

  -- What is hashed has terms that fit.
  signed_hash_fit :
      (msg : SignatureNoiseMessage) (key hash : Bytes)
      → signed_hash msg key ≡ ok hash
      → (msg.version < 2 ^ 16) × (msg.valid_from < 2 ^ 32) × (msg.not_valid_after < 2 ^ 32)
  unfolding signed_hash
  signed_hash_fit msg key hash h = elim (Result-cases (write_terms msg)) [
    | inl (bytes, q) ↦ write_terms_fit msg bytes q
    | inr (x, q) ↦ absurd (err≢ok (sym (ap hash_of (ap (followed_by (copied 32 key)) q)) ∙ h))
  ]

  -- A certificate that the authority creates is valid under the authority's public key for the same
  -- static key, its terms fit the wire, and it has the dates that were asked for.
  pub validate-create :
      (authority point static_key : Bytes) (valid_from not_valid_after : ℕ)
      (msg : SignatureNoiseMessage)
      → create_signature_noise_message authority static_key valid_from not_valid_after ≡ ok msg
      → x_only authority ≡ some point
      → (validate_signature_noise_message msg point static_key ≡ ok true)
        × IsCertificate msg
        × (msg.valid_from ≡ valid_from)
        × (msg.not_valid_after ≡ not_valid_after)
  unfolding create_signature_noise_message validate_signature_noise_message signed_hash write_terms
  validate-create authority point static_key from until msg h e =
      let terms : SignatureNoiseMessage = record {
        version = 0;
        valid_from = from;
        not_valid_after = until;
        signature = [];
      } in
      elim (Result-cases (signed_hash terms static_key)) [
        | inr (x, q) ↦ absurd (err≢ok (sym (ap (signed_with terms authority) q) ∙ h))
        | inl (hash, q) ↦ elim (Option-cases (sign_schnorr hash authority)) [
          | inl w ↦
              absurd (err≢ok (sym (ap (signed_with terms authority) q ∙ ap (signed terms) w) ∙ h))
          | inr (signature, w) ↦
              let made : SignatureNoiseMessage = record terms { signature = signature } in
              let g : made ≡ msg =
                ok-injective (sym (ap (signed_with terms authority) q ∙ ap (signed terms) w) ∙ h) in
              subst
                (λ m.
                  (validate_signature_noise_message m point static_key ≡ ok true)
                  × IsCertificate m
                  × (m.valid_from ≡ from)
                  × (m.not_valid_after ≡ until))
                g
                (
                  ap (verified made point) q
                      ∙ ap ok (verify-sign_schnorr hash authority point signature w e),
                  record {
                    version = omega arith;
                    valid_from = (signed_hash_fit terms static_key hash q).1;
                    not_valid_after = (signed_hash_fit terms static_key hash q).2;
                    signature = length-sign_schnorr hash authority signature w;
                  },
                  refl,
                  refl,
                )
        ]
      ]
