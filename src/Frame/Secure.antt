-- ===== src/Frame/Secure.antt =====
-- The chunk loops of src/models/sv2/sv2-frame.ts over a Noise session: what writeFrame's loop
-- encrypts, decryptPayloadChunks decrypts.
use lido.Base.{
  ℕ, zero, suc, ◌+◌, ◌-◌, ◌/◌, ◌≤◌, ◌<◌, ◌≡◌, refl, ap, ◌∙◌, [], ◌∷◌, ◌++◌, arith, length,
  length-append, length-take, length-drop, take, drop, take-append_self, drop-append_self,
  take-append-drop, Bytes, min,
}
use lido.Outcome.{M, ok, pure, ◌>>=◌, >>=_ok}
use lido.Frame.{mac_size, max_plaintext_chunk, plaintext_to_ciphertext_length}
use lido.Frame.Reader.{Decrypt, chunk_size, decrypt_chunks}
use lido.Frame.Writer.{Encrypt, encrypt_chunks}

-- What the two ends of a Noise session promise: while they are in step for one more message, a
-- message of at most one chunk is encrypted to itself and a MAC, is decrypted again, and leaves them
-- in step for the rest. The nonces of a session are finite, and so are the messages.
pub record Session {S T : Type 0} (encrypt : Encrypt S) (decrypt : Decrypt T) : Type 1 where
  pub InStep : ℕ → S → T → Type 0
  pub weaken : (k m : ℕ) (s : S) (t : T) → k ≤ m → InStep m s t → InStep k s t
  pub carries :
      (message : Bytes) (k : ℕ) (s : S) (t : T)
      → InStep (suc k) s t
      → length message ≤ max_plaintext_chunk
      → (ciphertext : Bytes) × (s' : S) × (t' : T) × (encrypt message s ≡ ok (ciphertext, s'))
        × (length ciphertext ≡ length message + mac_size)
        × (decrypt ciphertext t ≡ ok (message, t'))
        × InStep k s' t'

-- How many messages the chunk loop makes of so many bytes: one for each chunk of 65519, the last one
-- shorter.
abbrev pub chunk_count : ℕ → ℕ
chunk_count n = (n + 65518) / 65519

ciphertext_length_step :
    (n : ℕ)
    → 0 < n
    → plaintext_to_ciphertext_length n
      ≡ min n max_plaintext_chunk
        + mac_size
        + plaintext_to_ciphertext_length (n - min n max_plaintext_chunk)
unfolding plaintext_to_ciphertext_length
ciphertext_length_step n h = ground arith

-- After a full chunk the reader cuts at 65535 bytes; after a short one nothing follows.
cut_here :
    (n c cs : ℕ)
    → c ≡ min n max_plaintext_chunk + mac_size
    → cs ≡ plaintext_to_ciphertext_length (n - min n max_plaintext_chunk)
    → c ≡ min (c + cs) chunk_size
unfolding plaintext_to_ciphertext_length
cut_here n c cs h k = ground arith

module _ {S T : Type 0} (encrypt : Encrypt S) (decrypt : Decrypt T) where
  encrypt_chunks_step :
      (fuel : ℕ) (p : Bytes)
      → 0 < length p
      → encrypt_chunks encrypt (suc fuel) p ≡ (do
        part ← encrypt (take (min (length p) max_plaintext_chunk) p)
        parts ← encrypt_chunks encrypt fuel (drop (min (length p) max_plaintext_chunk) p)
        pure (part ++ parts))
  unfolding encrypt_chunks
  encrypt_chunks_step fuel [] h = absurd (omega arith)
  encrypt_chunks_step fuel (b ∷ bs) h = refl

  decrypt_chunks_step :
      (fuel : ℕ) (c : Bytes)
      → 0 < length c
      → decrypt_chunks decrypt (suc fuel) c ≡ (do
        part ← decrypt (take (min (length c) chunk_size) c)
        parts ← decrypt_chunks decrypt fuel (drop (min (length c) chunk_size) c)
        pure (part ++ parts))
  unfolding decrypt_chunks
  decrypt_chunks_step fuel [] h = absurd (omega arith)
  decrypt_chunks_step fuel (b ∷ bs) h = refl

  -- The first chunk of a ciphertext is cut off where the writer put it.
  decrypt_first :
      (g : ℕ) (c rest front back : Bytes) (t u v : T)
      → length c ≡ min (length c + length rest) chunk_size
      → 0 < length c
      → decrypt c t ≡ ok (front, u)
      → decrypt_chunks decrypt g rest u ≡ ok (back, v)
      → decrypt_chunks decrypt (suc g) (c ++ rest) t ≡ ok (front ++ back, v)
  unfolding pure
  decrypt_first g c rest front back t u v cut pos first more =
      let k : ℕ = min (length (c ++ rest)) chunk_size in
      let here : k ≡ length c = omega (arith, length-append c rest) in
      let at_c : take k (c ++ rest) ≡ c = take-append_self k c rest here in
      let at_rest : drop k (c ++ rest) ≡ rest = drop-append_self k c rest here in
      ap (λ (m : M T Bytes). m t)
        (decrypt_chunks_step g (c ++ rest) (omega (arith, length-append c rest)))
      ∙ >>=_ok (decrypt (take k (c ++ rest))) _ t (ap (λ x. decrypt x t) at_c ∙ first)
      ∙ >>=_ok (decrypt_chunks decrypt g (drop k (c ++ rest))) _ u
          (ap (λ x. decrypt_chunks decrypt g x u) at_rest ∙ more)

  encrypted :
      (fuel : ℕ) (p : Bytes) (s s1 s2 : S) (c cs : Bytes)
      → 0 < length p
      → encrypt (take (min (length p) max_plaintext_chunk) p) s ≡ ok (c, s1)
      → encrypt_chunks encrypt fuel (drop (min (length p) max_plaintext_chunk) p) s1 ≡ ok (cs, s2)
      → encrypt_chunks encrypt (suc fuel) p s ≡ ok (c ++ cs, s2)
  unfolding pure
  encrypted fuel p s s1 s2 c cs h e e' =
      ap (λ (m : M S Bytes). m s) (encrypt_chunks_step fuel p h)
      ∙ >>=_ok (encrypt (take (min (length p) max_plaintext_chunk) p)) _ s e
      ∙ >>=_ok (encrypt_chunks encrypt fuel (drop (min (length p) max_plaintext_chunk) p)) _ s1 e'

  decrypted :
      (g : ℕ) (c cs p : Bytes) (n : ℕ) (t t1 t2 : T)
      → 0 < length c
      → length c ≡ min (length c + length cs) chunk_size
      → length (c ++ cs) ≤ g
      → decrypt c t ≡ ok (take n p, t1)
      → ((k : ℕ) → length cs ≤ k → decrypt_chunks decrypt k cs t1 ≡ ok (drop n p, t2))
      → decrypt_chunks decrypt g (c ++ cs) t ≡ ok (p, t2)
  decrypted zero c cs p n t t1 t2 pos cut le d d' = absurd (omega (arith, length-append c cs))
  decrypted (suc g) c cs p n t t1 t2 pos cut le d d' =
      decrypt_first g c cs (take n p) (drop n p) t t1 t2 cut pos d
        (d' g (omega (arith, length-append c cs)))
      ∙ ap (λ x. ok (x, t2)) (take-append-drop n p)

  -- The loops agree on a payload of any length.
  pub carries_chunks :
      (session : Session encrypt decrypt) (fuel : ℕ) (p : Bytes) (left k : ℕ) (s : S) (t : T)
      → session.InStep left s t
      → chunk_count (length p) + k ≤ left
      → length p ≤ fuel
      → (c : Bytes) × (s' : S) × (t' : T) × (encrypt_chunks encrypt fuel p s ≡ ok (c, s'))
        × (length c ≡ plaintext_to_ciphertext_length (length p))
        × ((g : ℕ) → length c ≤ g → decrypt_chunks decrypt g c t ≡ ok (p, t'))
        × session.InStep k s' t'
  carries_chunks session fuel [] left k s t y few h = (
    [],
    s,
    t,
    unfold encrypt_chunks pure in refl,
    unfold plaintext_to_ciphertext_length in refl,
    λ g l. unfold decrypt_chunks pure in refl,
    session.weaken k left s t (omega arith) y,
  )
  carries_chunks session zero (b ∷ bs) left k s t y few h = absurd (omega arith)
  carries_chunks session (suc fuel) (b ∷ bs) left k s t y few h =
      let p : Bytes = b ∷ bs in
      let n = min (length p) max_plaintext_chunk in
      let front : length (take n p) ≡ n = omega (arith, length-take n p) in
      let (c, s1, t1, e, l, d, y1) =
        session.carries (take n p) (left - 1) s t
          (session.weaken (suc (left - 1)) left s t (omega arith) y) (omega arith) in
      let (cs, s2, t2, e', l', d', y2) =
        carries_chunks session fuel (drop n p) (left - 1) k s1 t1 y1
          (omega (arith, length-drop n p)) (omega (arith, length-drop n p)) in
      let whole : length cs ≡ plaintext_to_ciphertext_length (length p - n) =
        l' ∙ ap plaintext_to_ciphertext_length (length-drop n p) in
      (
        c ++ cs,
        s2,
        t2,
        encrypted fuel p s s1 s2 c cs (omega arith) e e',
        omega (arith, length-append c cs, ciphertext_length_step (length p), whole),
        λ g le.
            decrypted g c cs p n t t1 t2 (omega arith)
              (cut_here (length p) (length c) (length cs) (omega arith) whole) le d d',
        y2,
      )
