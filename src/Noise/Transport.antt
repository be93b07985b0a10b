-- ===== src/Noise/Transport.antt =====
-- The transport after the handshake: encrypt and decrypt of src/models/sv2/sv2-noise.ts under the
-- framing of src/models/sv2/sv2-frame.ts, in both directions of one connection.
use lido.Base.{ℕ, suc, ◌+◌, ◌^◌, ◌≤◌, ◌≡◌, sym, ap, ◌∙◌, [], length, Bytes, arith, if◌then◌else◌}
use lido.Outcome.{ok, err, bad_argument}
use lido.Frame.{mac_size, max_plaintext_chunk}
use lido.Frame.Secure.{Session}
use lido.Noise.{Crypto, CipherState, next, encrypt_with_ad, decrypt_with_ad}
use lido.Noise.Ciphers.{decrypt-encrypt_with_ad}
use lido.Noise.Handshake.{
  NoiseSession, NoiseInitiator, encrypt, decrypt, initiator_encrypt, initiator_decrypt, sent,
  received, initiator_sent, initiator_received,
}
use lido.Noise.Agreement.{Paired, Linked}

pub Paired-weaken : {k m : ℕ} {c d : CipherState} → k ≤ m → Paired m c d → Paired k c d
Paired-weaken h p = record {
  same = p.same;
  key = p.key;
  keyed = p.keyed;
  room = omega (arith, p.room);
}

pub reflexive : (n : ℕ) → n ≤ n
reflexive n = omega arith

pub Linked-weaken :
    {k m i j : ℕ} {s : NoiseSession} {t : NoiseInitiator}
    → k ≤ m
    → i ≤ j
    → Linked m j s t
    → Linked k i s t
Linked-weaken h h' y = record {
  completed = y.completed;
  downward = Paired-weaken h y.downward;
  upward = Paired-weaken h' y.upward;
}

next-Paired :
    (crypto : Crypto) (p : Bytes) (k : ℕ) (c d : CipherState)
    → Paired (suc k) c d
    → (ciphertext : Bytes) × (encrypt_with_ad crypto [] p c ≡ ok (ciphertext, next c))
      × (length ciphertext ≡ length p + mac_size)
      × (decrypt_with_ad crypto [] ciphertext d ≡ ok (p, next d))
      × Paired k (next c) (next d)
next-Paired crypto p k c d y =
    let room : d.n + suc k ≤ 2 ^ 64 = y.room in
    let (text, e, l, d') =
      decrypt-encrypt_with_ad crypto [] p d
        (record { key = y.key; keyed = y.keyed; nonce = omega (arith, room) }) in
    (
      text,
      ap (encrypt_with_ad crypto [] p) y.same ∙ e ∙ ap (λ x. ok (text, next x)) (sym y.same),
      l,
      d',
      record { same = ap next y.same; key = y.key; keyed = y.keyed; room = omega (arith, room) },
    )

module _ (crypto : Crypto) where
  pub down_carries :
      (up : ℕ) (message : Bytes) (k : ℕ) (s : NoiseSession) (t : NoiseInitiator)
      → Linked (suc k) up s t
      → length message ≤ max_plaintext_chunk
      → (ciphertext : Bytes) × (s' : NoiseSession) × (t' : NoiseInitiator) × (encrypt crypto message
            s
          ≡ ok (ciphertext, s'))
        × (length ciphertext ≡ length message + mac_size)
        × (initiator_decrypt crypto ciphertext t ≡ ok (message, t'))
        × Linked k up s' t'
  unfolding encrypt initiator_decrypt
  down_carries up message k s t y h =
      let (text, e, l, d, p) =
        next-Paired crypto message k s.send_cipher t.recv_cipher y.downward in
      (
        text,
        record s { send_cipher = next s.send_cipher },
        record t { recv_cipher = next t.recv_cipher },
        ap
              (λ b.
                if b
                then sent crypto s (encrypt_with_ad crypto [] message s.send_cipher)
                else err bad_argument)
              y.completed.0
            ∙ ap (sent crypto s) e,
        l,
        ap
              (λ b.
                if b
                then initiator_received crypto t (decrypt_with_ad crypto [] text t.recv_cipher)
                else err bad_argument)
              y.completed.1
            ∙ ap (initiator_received crypto t) d,
        record { completed = y.completed; downward = p; upward = y.upward },
      )

  pub up_carries :
      (down : ℕ) (message : Bytes) (k : ℕ) (t : NoiseInitiator) (s : NoiseSession)
      → Linked down (suc k) s t
      → length message ≤ max_plaintext_chunk
      → (ciphertext : Bytes) × (t' : NoiseInitiator) × (s' : NoiseSession) × (initiator_encrypt
            crypto message t
          ≡ ok (ciphertext, t'))
        × (length ciphertext ≡ length message + mac_size)
        × (decrypt crypto ciphertext s ≡ ok (message, s'))
        × Linked down k s' t'
  unfolding decrypt initiator_encrypt
  up_carries down message k t s y h =
      let (text, e, l, d, p) = next-Paired crypto message k t.send_cipher s.recv_cipher y.upward in
      (
        text,
        record t { send_cipher = next t.send_cipher },
        record s { recv_cipher = next s.recv_cipher },
        ap
              (λ b.
                if b
                then initiator_sent crypto t (encrypt_with_ad crypto [] message t.send_cipher)
                else err bad_argument)
              y.completed.1
            ∙ ap (initiator_sent crypto t) e,
        l,
        ap
              (λ b.
                if b
                then received crypto s (decrypt_with_ad crypto [] text s.recv_cipher)
                else err bad_argument)
              y.completed.0
            ∙ ap (received crypto s) d,
        record { completed = y.completed; downward = y.downward; upward = p },
      )

  -- The contract of the framing, met in each direction while the other one stands still.
  abbrev pub pool_to_miner : ℕ → Session (encrypt crypto) (initiator_decrypt crypto)
  pool_to_miner up = record {
    InStep = λ k s t. Linked k up s t;
    weaken = λ k m s t h y. Linked-weaken h (reflexive up) y;
    carries = down_carries up;
  }

  abbrev pub miner_to_pool : ℕ → Session (initiator_encrypt crypto) (decrypt crypto)
  miner_to_pool down = record {
    InStep = λ k t s. Linked down k s t;
    weaken = λ k m t s h y. Linked-weaken (reflexive down) h y;
    carries = up_carries down;
  }
