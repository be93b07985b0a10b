-- ===== src/Noise/Agreement.antt =====
-- The handshake of src/models/sv2/sv2-noise.ts between an Sv2NoiseSession and an Sv2NoiseInitiator.
use lido.Base.{
  if◌then◌else◌, ℕ, ◌+◌, ◌^◌, ◌≤◌, ◌≡◌, refl, sym, ap, ◌∙◌, true, false, some, none, [], ◌++◌,
  length, length-append, take, drop, Bytes, arith, take-append_self, drop-append_self, drop-drop,
  take-all, ◌==◌,
}
use lido.Outcome.{pure, bad_argument, ok, err, >>_ok, >>=_ok}
use lido.Noise.{
  Crypto, Keypair, Algorithm, CipherState, Symmetric, mix_hash, mix_key, hkdf2, decrypt_and_hash,
  decrypt_with_ad, decrypt_by, initialize_key,
}
use lido.Noise.Ciphers.{initialize_key_lem, length-hkdf2, mix_key_lem, decrypt-encrypt_and_hash}
use lido.Noise.Certificate.{SignatureNoiseMessage, IsCertificate, certificate_round_trip}
use lido.Noise.Handshake.{
  NoiseSession, NoiseInitiator, new_noise_session, new_noise_initiator, new_symmetric, attempt,
  done, lift, ecdh, act2_of, open_act2, split, process_act1, generate_act1, process_act2,
  complete_session, complete_initiator, finish_act2, act2_with, finish_act1, both,
}

module _ (crypto : Crypto) where
  open crypto use {IsKeypair, length-public_key, secret_agrees}

  -- No key is set yet, and what is read is the empty message.
  decrypt_and_hash-nil :
      (y : Symmetric)
      → y.temp_cipher.k ≡ none
      → decrypt_and_hash crypto [] y ≡ ok ([], mix_hash crypto [] y)
  unfolding decrypt_and_hash decrypt_with_ad decrypt_by
  decrypt_and_hash-nil y h =
      let read : decrypt_with_ad crypto y.h [] y.temp_cipher ≡ ok ([], y.temp_cipher) =
        ap (λ o. decrypt_by crypto o y.h [] y.temp_cipher) h in
      rw (read, decrypt_and_hash)

  -- What the pool answers to an Act 1, the miner opens, and both have one hash state then.
  act2_agrees :
      (e se ss : Keypair) (cert : SignatureNoiseMessage) (y : Symmetric)
      → IsKeypair e
      → IsKeypair se
      → IsKeypair ss
      → IsCertificate cert
      → y.temp_cipher.k ≡ none
      → (enc_static enc_cert : Bytes) × (z : Symmetric) × (act2_of crypto se ss cert e.public_key y
          ≡ ok (se.public_key ++ (enc_static ++ enc_cert), z))
        × (length enc_static ≡ 80)
        × (length enc_cert ≡ 90)
        × (open_act2 crypto e se.public_key enc_static enc_cert
              (mix_hash crypto [] (mix_hash crypto e.public_key y))
            ≡ ok ((ss.public_key, cert), z))
  unfolding act2_of open_act2 attempt ecdh pure mix_hash
  act2_agrees e se ss cert y he hse hss hc h =
      let y0 = mix_hash crypto e.public_key y in
      let y1 = mix_hash crypto se.public_key (mix_hash crypto [] y0) in
      let (y2, m2, r2) = mix_key_lem crypto (ecdh crypto se e.public_key false) y1 in
      let (c1, y3, e1, l1, d1) = decrypt-encrypt_and_hash crypto ss.public_key y2 r2 in
      let (y4, m4, r4) = mix_key_lem crypto (ecdh crypto ss e.public_key false) y3 in
      let (buf, written, lb, found) = certificate_round_trip cert hc in
      let (c2, y5, e2, l2, d2) = decrypt-encrypt_and_hash crypto buf y4 r4 in
      let ls = length-public_key ss hss in
      (
        c1,
        c2,
        y5,
        >>_ok _ _ y refl
            ∙ >>=_ok _ _ y0 (decrypt_and_hash-nil y0 h)
            ∙ >>_ok _ _ (mix_hash crypto [] y0) refl
            ∙ >>_ok _ _ y1 (ap done m2)
            ∙ >>=_ok _ _ y2 e1
            ∙ >>_ok _ _ y3 (ap done m4)
            ∙ >>=_ok _ _ y4 (ap (λ r. lift r y4) written)
            ∙ >>=_ok _ _ y4 e2,
        omega (arith, l1, ls),
        omega (arith, l2, lb),
        >>_ok _ _ (mix_hash crypto [] y0) refl
            ∙ >>_ok _ _ y1
                (ap (λ x. done (mix_key crypto x y1)) (secret_agrees e se he hse) ∙ ap done m2)
            ∙ >>=_ok _ _ y2 d1
            ∙ >>_ok _ _ y3
                (ap (λ x. done (mix_key crypto x y3)) (secret_agrees e ss he hss) ∙ ap done m4)
            ∙ >>=_ok _ _ y4 d2
            ∙ >>=_ok _ _ y5 (ap (λ r. lift r y5) found),
      )

  split_lem :
      (y : Symmetric) (c d : CipherState)
      → split crypto y c d
        ≡ ok (
          record c { k = some (hkdf2 crypto y.ck []).0; n = 0 },
          record d { k = some (hkdf2 crypto y.ck []).1; n = 0 },
        )
  unfolding split
  split_lem y c d =
      let l = length-hkdf2 crypto y.ck [] in
      let k2 = (hkdf2 crypto y.ck []).1 in
      let k1 = (hkdf2 crypto y.ck []).0 in
      let first : CipherState = record c { k = some k1; n = 0 } in
      ap (λ r. both r (initialize_key k2 d)) (initialize_key_lem k1 c l.0)
      ∙ ap (both (ok first)) (initialize_key_lem k2 d l.1)

-- A cipher state of each end: the same key and nonce, and nonces left for so many messages.
pub record Paired (left : ℕ) (c d : CipherState) : Type 0 where
  pub same : c ≡ d
  pub key : Bytes
  pub keyed : d.k ≡ some key
  pub room : d.n + left ≤ 2 ^ 64

-- Both ends completed the handshake, and so many messages can go down to the miner, and up.
pub record Linked (down up : ℕ) (s : NoiseSession) (t : NoiseInitiator) : Type 0 where
  pub completed : (s.handshake_complete ≡ true) × (t.handshake_complete ≡ true)
  pub downward : Paired down s.send_cipher t.recv_cipher
  pub upward : Paired up t.send_cipher s.recv_cipher

part_of_act2 :
    (a b c : Bytes)
    → length a ≡ 64
    → length b ≡ 80
    → length c ≡ 90
    → (length (a ++ (b ++ c)) ≡ 234)
      × (take 64 (a ++ (b ++ c)) ≡ a)
      × (take 80 (drop 64 (a ++ (b ++ c))) ≡ b)
      × (take 90 (drop 144 (a ++ (b ++ c))) ≡ c)
part_of_act2 a b c la lb lc =
    let whole = length-append a (b ++ c) in
    let rest = length-append b c in
    let first : drop 64 (a ++ (b ++ c)) ≡ b ++ c =
      drop-append_self 64 a (b ++ c) (omega (arith, la)) in
    let second : drop 144 (a ++ (b ++ c)) ≡ c =
      sym (drop-drop 64 80 144 (a ++ (b ++ c)) refl)
      ∙ ap (drop 80) first
      ∙ drop-append_self 80 b c (omega (arith, lb)) in
    (
      omega (arith, whole, rest, la, lb, lc),
      take-append_self 64 a (b ++ c) (omega (arith, la)),
      ap (take 80) first ∙ take-append_self 80 b c (omega (arith, lb)),
      ap (take 90) second ∙ take-all 90 c (omega (arith, lc)),
    )

module _ (crypto : Crypto) where
  open crypto use {IsKeypair, length-public_key}

  -- A pool with a certificate whose fields fit and a miner with the same algorithm and prologue, with
  -- key pairs that keygen can give: Act 1 is accepted and answered by 234 bytes, these are accepted,
  -- the miner then has the pool's static key and certificate, and both ends have the same keys.
  pub handshake_agrees :
      (e se ss : Keypair) (cert : SignatureNoiseMessage) (algorithm : Algorithm) (prologue : Bytes)
      → IsKeypair e
      → IsKeypair se
      → IsKeypair ss
      → IsCertificate cert
      → let (act1, t) = generate_act1 crypto e (new_noise_initiator crypto algorithm prologue) in
        (act2 : Bytes) × (s' : NoiseSession) × (t' : NoiseInitiator) × (process_act1 crypto se act1
            (new_noise_session crypto ss cert algorithm prologue)
          ≡ ok (act2, s'))
        × (length act2 ≡ 234)
        × (process_act2 crypto act2 t ≡ ok ((ss.public_key, cert), t'))
        × Linked (2 ^ 64) (2 ^ 64) s' t'
  unfolding process_act1 generate_act1 process_act2 new_symmetric
  handshake_agrees e se ss cert algorithm prologue he hse hss hc =
      let y = new_symmetric crypto algorithm prologue in
      let s = new_noise_session crypto ss cert algorithm prologue in
      let t = (generate_act1 crypto e (new_noise_initiator crypto algorithm prologue)).1 in
      let (c1, c2, z, answered, l1, l2, opened) =
        act2_agrees crypto e se ss cert y he hse hss hc refl in
      let y' = mix_hash crypto [] (mix_hash crypto e.public_key y) in
      let act2 = se.public_key ++ (c1 ++ c2) in
      let (l, p0, p1, p2) = part_of_act2 se.public_key c1 c2 (length-public_key se hse) l1 l2 in
      let k1 = (hkdf2 crypto z.ck []).0 in
      let k2 = (hkdf2 crypto z.ck []).1 in
      let up = record s.recv_cipher { k = some k1; n = 0 } in
      let down = record s.send_cipher { k = some k2; n = 0 } in
      (
        act2,
        record s {
          symmetric = z;
          recv_cipher = up;
          send_cipher = down;
          handshake_complete = true;
          server_ephemeral = some se;
        },
        record t { symmetric = z; send_cipher = up; recv_cipher = down; handshake_complete = true },
        ap
              (λ b.
                if b
                then finish_act1 crypto s se (act2_of crypto se ss cert e.public_key y)
                else err bad_argument)
              (ap (λ n. n == 64) (length-public_key e he))
            ∙ ap (finish_act1 crypto s se) answered
            ∙ ap (complete_session crypto s se act2 z)
                (split_lem crypto z s.recv_cipher s.send_cipher),
        l,
        ap (λ b. if b then act2_with crypto (some e) act2 t else err bad_argument)
              (ap (λ n. n == 234) l)
            ∙ ap (finish_act2 crypto t) (
                ap (λ a. open_act2 crypto e a (take 80 (drop 64 act2)) (take 90 (drop 144 act2)) y')
                  p0
                ∙ ap (λ b. open_act2 crypto e se.public_key b (take 90 (drop 144 act2)) y') p1
                ∙ ap (λ c. open_act2 crypto e se.public_key c1 c y') p2
                ∙ opened)
            ∙ ap (complete_initiator crypto t (ss.public_key, cert) z)
                (split_lem crypto z t.send_cipher t.recv_cipher),
        record {
          completed = (refl, refl);
          downward = record { same = refl; key = k2; keyed = refl; room = omega arith };
          upward = record { same = refl; key = k1; keyed = refl; room = omega arith };
        },
      )
