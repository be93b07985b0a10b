-- ===== src/Tests/Frames.antt =====
-- Frames: runs of src/models/sv2/sv2-frame.ts.
use lido.Base.{
  ℕ, ◌≡◌, refl, none, some, List, [], ◌∷◌, ◌++◌, All, IsByte, Bytes, length, arith, ◌↔◌, ◌≢◌,
}
use lido.Outcome.{ok, err, range_error, pure}
use lido.Frame.{
  FrameHeader, encode_frame_header, decode_frame_header, header_size,
  plaintext_to_ciphertext_length, ciphertext_to_plaintext_length,
}
use lido.Frame.Sizes.{IsHeader, decode-encode_frame_header, ciphertext_length_refused}
use lido.Frame.Reader.{
  ParsedFrame, FrameReader, new_frame_reader, feed, feed_loop, after_pass, pass, header_phase,
  take_header, header_opened, header_taken, enter_payload, payload_phase, push_opened,
  expected_header_size, open_header, open_payload, payload_wire_length,
}
use lido.Frame.Writer.{FrameWriter}
use lido.Frame.Reassembly.{feed_next, feed-append}
use lido.Frame.Stream.{write_frames, feed_chunks, cut, IsFrame, feed_chunks-write_frames}
use lido.Tests.Setting.{seal, unseal, counting_session}

abbrev pub setup_header : FrameHeader
setup_header = record { extension_type = 0; msg_type = 0; msg_length = 3 }

pub setup_header-IsHeader : IsHeader setup_header
setup_header-IsHeader = record {
  extension_type = omega arith;
  msg_type = omega arith;
  msg_length = omega arith;
}

abbrev pub setup_frame : ParsedFrame
setup_frame = record { header = setup_header; payload = 1 ∷ 2 ∷ 3 ∷ [] }

abbrev pub share_frame : ParsedFrame
share_frame = record {
  header = record { extension_type = 0x8000; msg_type = 0x1a; msg_length = 0 };
  payload = [];
}

pub share_frame-IsFrame : IsFrame share_frame
share_frame-IsFrame = record {
  header = record {
    extension_type = omega arith;
    msg_type = omega arith;
    msg_length = omega arith;
  };
  announced = refl;
}

pub setup_frame-IsFrame : IsFrame setup_frame
setup_frame-IsFrame = record { header = setup_header-IsHeader; announced = refl }

abbrev frames : List ParsedFrame
frames = setup_frame ∷ share_frame ∷ []

feed_chunks-write_frames_example :
    (wire : Bytes) × (s' : ℕ) × (t' : ℕ) × (write_frames frames
        (record { encrypt_fn = some seal; session = 7 })
      ≡ ok (wire, record { encrypt_fn = some seal; session = s' }))
    × (feed_chunks (cut (1 ∷ 30 ∷ []) wire) (new_frame_reader (some unseal) 7)
        ≡ ok (frames, new_frame_reader (some unseal) t'))
    × (s' ≡ t')
feed_chunks-write_frames_example =
    feed_chunks-write_frames counting_session frames (1 ∷ 30 ∷ []) 9 2 7 7 refl (omega arith)
      (setup_frame-IsFrame, (share_frame-IsFrame, tt))

abbrev plain_reader : FrameReader ℕ
plain_reader = new_frame_reader none 0

abbrev plain_writer : FrameWriter ℕ
plain_writer = record { encrypt_fn = none; session = 0 }

feed-append_example :
    feed ((0 ∷ 0 ∷ 0 ∷ 3 ∷ []) ++ (0 ∷ 0 ∷ 1 ∷ 2 ∷ 3 ∷ 9 ∷ [])) plain_reader
    ≡ feed_next (0 ∷ 0 ∷ 1 ∷ 2 ∷ 3 ∷ 9 ∷ []) (feed (0 ∷ 0 ∷ 0 ∷ 3 ∷ []) plain_reader)
feed-append_example = feed-append (0 ∷ 0 ∷ 0 ∷ 3 ∷ []) (0 ∷ 0 ∷ 1 ∷ 2 ∷ 3 ∷ 9 ∷ []) plain_reader

-- The nine bytes of a frame and the first one of the next.
fed :
    feed (0 ∷ 0 ∷ 0 ∷ 3 ∷ 0 ∷ 0 ∷ 1 ∷ 2 ∷ 3 ∷ 9 ∷ []) plain_reader
    ≡ ok (setup_frame ∷ [], record plain_reader { buf = 9 ∷ [] })
unfolding feed feed_loop after_pass pass header_phase take_header header_opened header_taken
    enter_payload payload_phase push_opened expected_header_size open_header open_payload
    payload_wire_length decode_frame_header pure
fed = refl

decode-encode_frame_header_example :
    (buf : Bytes) × (encode_frame_header setup_header ≡ ok buf)
    × All IsByte buf
    × (length buf ≡ header_size)
    × (decode_frame_header (buf ++ (1 ∷ 2 ∷ 3 ∷ [])) ≡ ok setup_header)
decode-encode_frame_header_example =
    decode-encode_frame_header setup_header (1 ∷ 2 ∷ 3 ∷ []) setup_header-IsHeader

ciphertext_length_refused_example :
    ((ciphertext_to_plaintext_length 65540 ≡ ok 65518)
      ↔ (plaintext_to_ciphertext_length 65518 ≡ 65540))
    × ((ciphertext_to_plaintext_length 65540 ≡ err range_error)
        ↔ ((m : ℕ) → plaintext_to_ciphertext_length m ≢ 65540))
ciphertext_length_refused_example = ciphertext_length_refused 65540 65518
