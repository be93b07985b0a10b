-- ===== src/Frame.antt =====
-- src/models/sv2/sv2-frame.ts: frame headers and sizes. Its classes Sv2FrameReader and
-- Sv2FrameWriter are the children Reader and Writer.
pub mod Sizes
pub mod Reader
pub mod Writer
pub mod Arrival
pub mod Passes
pub mod Reassembly
pub mod Secure
pub mod RoundTrip
pub mod Stream
use Prim.Native.Nat.{bit_and}
use lido.Base.{
  ℕ, zero, suc, ◌+◌, ◌-◌, ◌*◌, ◌/◌, ◌%◌, ◌^◌, ◌++◌, Bool, not, ltb, leb, ◌==◌, if◌then◌else◌,
  length, take, drop, Bytes, le_value, le_bytes,
}
use lido.Outcome.{Result, ok, err, range_error}

-- The constants of src/models/sv2/sv2-constants.ts.
abbrev pub header_size : ℕ
header_size = 6

abbrev pub mac_size : ℕ
mac_size = 16

abbrev pub encrypted_header_size : ℕ
encrypted_header_size = header_size + mac_size

abbrev pub max_plaintext_chunk : ℕ
max_plaintext_chunk = 65519

abbrev pub channel_msg_flag : ℕ
channel_msg_flag = 0x8000

pub record FrameHeader : Type 0 where
  pub extension_type : ℕ
  pub msg_type : ℕ
  pub msg_length : ℕ

-- writeUInt16LE refuses an extension type of more than 16 bits; `& 0xff` keeps the low bytes.
unfoldable pub encode_frame_header : FrameHeader → Result Bytes
encode_frame_header h =
    if ltb h.extension_type (2 ^ 16)
    then ok (le_bytes 2 h.extension_type ++ (le_bytes 1 h.msg_type ++ le_bytes 3 h.msg_length))
    else err range_error

-- The three bytes of the length share no bits once shifted, so `|` adds them.
unfoldable pub decode_frame_header : Bytes → Result FrameHeader
decode_frame_header buf =
    if ltb (length buf) header_size
    then err range_error
    else ok (record {
      extension_type = le_value (take 2 buf);
      msg_type = le_value (take 1 (drop 2 buf));
      msg_length = le_value (take 3 (drop 3 buf));
    })

unfoldable pub is_channel_message : FrameHeader → Bool
is_channel_message h = not (bit_and h.extension_type channel_msg_flag == 0)

unfoldable pub plaintext_to_ciphertext_length : ℕ → ℕ
plaintext_to_ciphertext_length n =
    if n == 0
    then 0
    else let full_chunks = n / max_plaintext_chunk in
      let remainder = n % max_plaintext_chunk in
      let len = full_chunks * (max_plaintext_chunk + mac_size) in
      if ltb 0 remainder then len + (remainder + mac_size) else len

unfoldable pub ciphertext_to_plaintext_length : ℕ → Result ℕ
ciphertext_to_plaintext_length n =
    if n == 0
    then ok 0
    else let chunk_size = max_plaintext_chunk + mac_size in
      let full_chunks = n / chunk_size in
      let remainder = n % chunk_size in
      let len = full_chunks * max_plaintext_chunk in
      if ltb 0 remainder
      then (if leb remainder mac_size then err range_error else ok (len + (remainder - mac_size)))
      else ok len
