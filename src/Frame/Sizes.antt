-- ===== src/Frame/Sizes.antt =====
-- The header and the size calculations of src/models/sv2/sv2-frame.ts.
use Prim.Native.Nat.{bit_and}
use mathlib.Core.Logic.{ite}
use native.Mathlib.Decide.{ℕ_discrete}
use lido.Base.{
  ℕ, zero, suc, ◌*◌, ◌/◌, ◌^◌, ◌≤◌, ◌<◌, ◌≡◌, ◌≢◌, refl, sym, ap, ◌∙◌, inl, inr, ◌↔◌, ◌++◌, arith,
  Bool, true, false, lt→ltb, length, All, All-append, Bytes, IsByte, le_bytes, le_bytes-IsByte,
  le_value-le_bytes,
}
use lido.Outcome.{Exception, ok, err, range_error, Result-cases, err≢ok}
use lido.Frame.{
  FrameHeader, header_size, channel_msg_flag, encode_frame_header, decode_frame_header,
  is_channel_message, plaintext_to_ciphertext_length, ciphertext_to_plaintext_length,
}

-- The fields fit the 16, 8 and 24 bits of the header.
pub record IsHeader (h : FrameHeader) : Type 0 where
  pub extension_type : h.extension_type < 2 ^ 16
  pub msg_type : h.msg_type < 2 ^ 8
  pub msg_length : h.msg_length < 2 ^ 24

abbrev pub header_bytes : FrameHeader → Bytes
header_bytes h = le_bytes 2 h.extension_type ++ (le_bytes 1 h.msg_type ++ le_bytes 3 h.msg_length)

pub encode_frame_header_lem :
    (h : FrameHeader) → IsHeader h → encode_frame_header h ≡ ok (header_bytes h)
unfolding encode_frame_header
encode_frame_header_lem h v = rw (lt→ltb _ _ v.extension_type)

pub length-header_bytes : (h : FrameHeader) → length (header_bytes h) ≡ 6
length-header_bytes h = refl

-- Bytes that follow the header are not looked at.
pub decode-header_bytes :
    (h : FrameHeader) (rest : Bytes)
    → IsHeader h
    → decode_frame_header (header_bytes h ++ rest) ≡ ok h
unfolding decode_frame_header
decode-header_bytes h rest v = ground (
  arith,
  le_value-le_bytes 2 h.extension_type v.extension_type,
  le_value-le_bytes 1 h.msg_type v.msg_type,
  le_value-le_bytes 3 h.msg_length v.msg_length,
)

-- A header whose fields fit is encoded in six bytes, and decoding these gives the header back,
-- whatever bytes follow them.
pub decode-encode_frame_header :
    (h : FrameHeader) (rest : Bytes)
    → IsHeader h
    → (buf : Bytes) × (encode_frame_header h ≡ ok buf)
      × All IsByte buf
      × (length buf ≡ header_size)
      × (decode_frame_header (buf ++ rest) ≡ ok h)
decode-encode_frame_header h rest v = (
  header_bytes h,
  encode_frame_header_lem h v,
  All-append IsByte (le_bytes 2 h.extension_type) (le_bytes 1 h.msg_type ++ le_bytes 3 h.msg_length)
      (le_bytes-IsByte 2 h.extension_type)
      (All-append IsByte (le_bytes 1 h.msg_type) (le_bytes 3 h.msg_length)
        (le_bytes-IsByte 1 h.msg_type) (le_bytes-IsByte 3 h.msg_length)),
  refl,
  decode-header_bytes h rest v,
)

-- Every plaintext length is found again from the length of its ciphertext.
pub plaintext-ciphertext_length :
    (n : ℕ) → ciphertext_to_plaintext_length (plaintext_to_ciphertext_length n) ≡ ok n
unfolding ciphertext_to_plaintext_length plaintext_to_ciphertext_length
plaintext-ciphertext_length n = ground arith

-- A ciphertext length that is accepted is the ciphertext length of the result.
pub ciphertext-plaintext_length :
    (c n : ℕ) → ciphertext_to_plaintext_length c ≡ ok n → plaintext_to_ciphertext_length n ≡ c
unfolding ciphertext_to_plaintext_length plaintext_to_ciphertext_length
ciphertext-plaintext_length c n e = ground arith

only_range : (c : ℕ) (x : Exception) → ciphertext_to_plaintext_length c ≡ err x → range_error ≡ x
unfolding ciphertext_to_plaintext_length
only_range c x e = ground arith

-- A length is the ciphertext length of exactly the plaintext length that it gives, and it is refused
-- as out of range exactly when it is the ciphertext length of none.
pub ciphertext_length_refused :
    (c n : ℕ)
    → ((ciphertext_to_plaintext_length c ≡ ok n) ↔ (plaintext_to_ciphertext_length n ≡ c))
      × ((ciphertext_to_plaintext_length c ≡ err range_error)
          ↔ ((m : ℕ) → plaintext_to_ciphertext_length m ≢ c))
ciphertext_length_refused c n = (
  (
    ciphertext-plaintext_length c n,
    λ e. sym (ap ciphertext_to_plaintext_length e) ∙ plaintext-ciphertext_length n,
  ),
  (
    λ e m f.
        err≢ok (sym e ∙ sym (ap ciphertext_to_plaintext_length f) ∙ plaintext-ciphertext_length m),
    λ none_fits. elim (Result-cases (ciphertext_to_plaintext_length c)) [
      | inl (m, e) ↦ absurd (none_fits m (ciphertext-plaintext_length c m e))
      | inr (x, e) ↦ e ∙ sym (ap err (only_range c x e))
    ],
  ),
)

agree_below : (ℕ → ℕ) → (ℕ → ℕ) → ℕ → Bool
unfolding ℕ_discrete
agree_below f g zero = true
agree_below f g (suc n) = ite (ℕ_discrete (f n) (g n)) (agree_below f g n) false

agree_below→eq : (f g : ℕ → ℕ) (n : ℕ) → agree_below f g n ≡ true → (i : ℕ) → i < n → f i ≡ g i
unfolding agree_below
agree_below→eq f g zero e i h = absurd (omega arith)
agree_below→eq f g (suc n) e i h = ground (arith, agree_below→eq f g n (ground arith) i)

channel_bit : (e : ℕ) → e < 65536 → bit_and e 0x8000 ≡ e / 32768 * 32768
unfolding agree_below
channel_bit = agree_below→eq _ _ 65536 refl

-- Of the 16-bit extension types, the upper half marks channel messages.
pub is_channel_message_iff :
    (h : FrameHeader)
    → IsHeader h
    → (is_channel_message h ≡ true) ↔ (channel_msg_flag ≤ h.extension_type)
unfolding is_channel_message
is_channel_message_iff h v = ground (arith, channel_bit h.extension_type v.extension_type)
