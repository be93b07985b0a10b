-- ===== src/Tests/Sessions.antt =====
-- src/models/StratumV1Client.ts at concrete inputs.
use lido.Base.{
  ℕ, ◌≡◌, refl, true, false, ◌⊎◌, inl, none, some, [], ◌∷◌, ◌++◌, replicate, ◌==◌, ltb, leb, ap,
  Bytes, if◌then◌else◌, arith,
}
use lido.Client.{Units, has_key, same_key}
use lido.Mining.Hex.{
  parse_hex, parse_signed, parsed, skip_white, skip_prefix, is_white, read_digits, if_digit,
  hex_value, of_hex, hex_pair,
}
use lido.Outcome.{ok, and_then}
use lido.Mining.{calculate_merkle_root_hash, merkle_rounds, set_bytes}
use lido.Mining.Submission.{
  build_header_buffer, build_coinbase_merkle_root, header_of, write_uint32_le, masked_version,
  mask_word,
}
use lido.Jobs.{find, get_job_by_id, get_job_template_by_id}
use lido.Statistics.{new_statistics}
use lido.Session.{Session, Socket, remember_submission, reset_submission_hashes_if_new_block}
use lido.Session.Credit.{Turn, reject}
use lido.Session.Submission.{
  handle_mining_submission, submission_hash, solution_of, calculate_difficulty,
}
use lido.Session.Handlers.{Surroundings, handle_lines}
use lido.Session.Lines.{Inbox, Decoding, receive}
use lido.Session.Cuts.{receive-append}
use lido.Session.Messages.{
  MiningSubmitMessage, Request, malformed, subscribe, authorize, valid, duplicate_share,
}
use lido.Session.Duplicates.{Route, submission_once, replay_keeps}
use lido.Session.Rewriting.{IsRewriting, accepted, same_header_again}
use lido.Session.Waiting.{IsReady}
use lido.Session.Ready.{handle_lines-IsReady}
use lido.Tests.Mining.{whole_numbers, bitcoin, template, job, or_empty}
use lido.Tests.Work.{service}

abbrev socket : Socket ℕ
socket = record {
  wire = λ n. record { writable_length = 0; delivered = true };
  byte_length = λ r. 100;
}

abbrev parse_line : Units → Request ℕ
parse_line [] = malformed
parse_line (c ∷ cs) =
    if c == 115
    then subscribe (valid (record { id = []; user_agent = 99 ∷ [] }))
    else if c == 97
    then authorize
        (valid (record { id = []; address = 98 ∷ []; worker = 119 ∷ []; starting_diff = none }))
    else malformed

abbrev around : Surroundings ℕ
around = record {
  socket = socket;
  is_blocked_user_agent = λ u. false;
  random_hex = replicate 8 49;
  parse = parse_line;
}

abbrev turn : Turn ℕ
turn = record {
  now = 5000;
  later = 5001;
  returning_worker = false;
  block_accepted = true;
  already_recorded = false;
  address_best = true;
  external_minimum = none;
}

abbrev fresh : Session ℕ ℕ
fresh = record {
  subscription = none;
  configuration = none;
  authorization = none;
  suggested = none;
  job_stream = false;
  background_work = 0;
  statistics = none;
  stratum_initialized = false;
  used_suggested_difficulty = false;
  idle_struggle_notified = false;
  session_difficulty = 100000;
  entity = none;
  extra_nonce = none;
  no_fee = false;
  hash_rate = 0;
  connection_closed = false;
  destroyed = false;
  socket_destroyed = false;
  writable_ended = false;
  last_sent_mining_job_timestamp = none;
  submission_hashes = [];
  submission_hash_reset_height = none;
  writes = 0;
  log = [];
}

handle_lines-IsReady_example : IsReady (
    handle_lines ⦃numbers = whole_numbers⦄ around bitcoin turn service
      ((115 ∷ []) ∷ (97 ∷ []) ∷ [])
      fresh)
handle_lines-IsReady_example =
    handle_lines-IsReady ⦃numbers = whole_numbers⦄ around bitcoin turn service
      ((115 ∷ []) ∷ (97 ∷ []) ∷ []) fresh (inl refl)

abbrev inbox : Inbox ℕ ℕ
inbox = record { buffer = []; session = fresh }

-- A reading that knows no characters beside ASCII.
abbrev ascii_text : Bytes → Units
ascii_text [] = []
ascii_text (b ∷ bs) = (if ltb b 128 then b else 65533) ∷ ascii_text bs

ascii_text-append : (a b : Bytes) → ascii_text (a ++ b) ≡ ascii_text a ++ ascii_text b
ascii_text-append [] b = refl
ascii_text-append (c ∷ cs) b = ap (◌∷◌ (if ltb c 128 then c else 65533)) (ascii_text-append cs b)

abbrev ascii : Decoding
ascii = record {
  to_text = ascii_text;
  to_text-append = λ front b back h. ascii_text-append front (b ∷ back);
}

-- The first line is cut in two.
receive-append_example :
    (receive ⦃numbers = whole_numbers⦄ around bitcoin ascii turn service
      ((115 ∷ []) ++ (116 ∷ 10 ∷ 97 ∷ 10 ∷ []))
      inbox).session
    ≡ (receive ⦃numbers = whole_numbers⦄ around bitcoin ascii turn service
        (116 ∷ 10 ∷ 97 ∷ 10 ∷ [])
        (receive ⦃numbers = whole_numbers⦄ around bitcoin ascii turn service
          (115 ∷ [])
          inbox)).session
receive-append_example =
    receive-append ⦃numbers = whole_numbers⦄ around bitcoin turn service ascii (115 ∷ []) 116
      (10 ∷ 97 ∷ 10 ∷ []) inbox refl (omega arith)

abbrev working : Session ℕ ℕ
working = record fresh {
  subscription = some (record { id = []; user_agent = 99 ∷ [] });
  authorization =
      some (record { id = []; address = 98 ∷ []; worker = 119 ∷ []; starting_diff = none });
  statistics = some (new_statistics ⦃numbers = whole_numbers⦄ 1000);
  stratum_initialized = true;
  extra_nonce = some (replicate 8 49);
}

-- The nonce is written `a` and `0a`, the extranonce ends in `a` and in `A`.
abbrev submission : MiningSubmitMessage
submission = record {
  id = [];
  job_id = 49 ∷ [];
  extra_nonce2 = replicate 15 50 ++ (97 ∷ []);
  ntime = 54 ∷ [];
  nonce = 97 ∷ [];
  version_mask = 48 ∷ [];
}

abbrev rewritten : MiningSubmitMessage
rewritten = record submission { nonce = 48 ∷ 97 ∷ []; extra_nonce2 = replicate 15 50 ++ (65 ∷ []) }

route : Route submission service job template
unfolding get_job_by_id get_job_template_by_id find same_key
route = (refl, refl)

abbrev after : Session ℕ ℕ
after =
    handle_mining_submission ⦃numbers = whole_numbers⦄ bitcoin socket turn service submission
      working

submission_once_example :
    (handle_mining_submission ⦃numbers = whole_numbers⦄ bitcoin socket turn service submission after
      ≡ reject ⦃numbers = whole_numbers⦄ socket turn [] duplicate_share after)
    ⊎ (after.destroyed ≡ true)
submission_once_example =
    submission_once ⦃numbers = whole_numbers⦄ bitcoin socket turn turn service submission job
      template working route

replay_keeps_example :
    has_key
      (reset_submission_hashes_if_new_block template (
        remember_submission
          (submission_hash submission)
          (reset_submission_hashes_if_new_block template working))).submission_hashes
      (submission_hash submission)
    ≡ true
replay_keeps_example = replay_keeps template template (submission_hash submission) working refl refl

abbrev header : Bytes
header = or_empty (
    build_header_buffer bitcoin ⦃numbers = whole_numbers⦄ job template
      (solution_of (replicate 8 49) submission))

made :
    build_header_buffer bitcoin ⦃numbers = whole_numbers⦄ job template
      (solution_of (replicate 8 49) submission)
    ≡ ok header
unfolding build_header_buffer build_coinbase_merkle_root header_of write_uint32_le
    calculate_merkle_root_hash and_then set_bytes merkle_rounds parse_hex parse_signed skip_white
    is_white parsed read_digits skip_prefix if_digit hex_value of_hex hex_pair masked_version
    mask_word
made = refl

abbrev easy : Session ℕ ℕ
easy = record working { session_difficulty = 0 }

submission-IsRewriting : IsRewriting (replicate 8 49) submission rewritten
unfolding parse_hex parse_signed parsed skip_white skip_prefix is_white read_digits if_digit
    hex_value of_hex hex_pair
submission-IsRewriting = record {
  job_id = refl;
  version_mask = refl;
  nonce = refl;
  ntime = refl;
  extra_nonce2 = refl;
}

differ : same_key (submission_hash submission) (submission_hash rewritten) ≡ false
unfolding same_key
differ = refl

new : has_key easy.submission_hashes (submission_hash rewritten) ≡ false
unfolding has_key
new = refl

new_first : has_key easy.submission_hashes (submission_hash submission) ≡ false
unfolding has_key
new_first = refl

enough :
    whole_numbers.at_least (calculate_difficulty bitcoin ⦃numbers = whole_numbers⦄ header) 0 ≡ true
enough = go (calculate_difficulty bitcoin ⦃numbers = whole_numbers⦄ header)
  where
    go : (n : ℕ) → leb 0 n ≡ true
    go n = ground arith

same_header_again_example :
    let first =
      handle_mining_submission ⦃numbers = whole_numbers⦄ bitcoin socket turn service submission
        easy in
    (first
      ≡ accepted ⦃numbers = whole_numbers⦄ bitcoin socket turn submission job template
          (replicate 8 49)
          header
          easy)
    × ((handle_mining_submission ⦃numbers = whole_numbers⦄ bitcoin socket turn service rewritten
            first
          ≡ accepted ⦃numbers = whole_numbers⦄ bitcoin socket turn rewritten job template
              (replicate 8 49)
              header
              first)
        ⊎ (first.destroyed ≡ true))
same_header_again_example =
    same_header_again ⦃numbers = whole_numbers⦄ bitcoin socket turn turn service submission
      rewritten job template easy header route submission-IsRewriting new_first new differ made
      enough
