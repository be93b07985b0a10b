-- ===== src/Session/Lines.antt =====
-- The buffer of lines of src/models/StratumV1Client.ts, which makes messages of the chunks of a stream.
use lido.Base.{
  ℕ, ◌≡◌, Bool, true, false, ◌||◌, ◌&&◌, leb, Bytes, List, [], ◌∷◌, ◌++◌, length, ltb, ◌==◌,
  if◌then◌else◌,
}
use lido.Client.{Units}
use lido.Numbers.{Numbers}
use lido.Mining.{Bitcoin}
use lido.Jobs.{JobsService}
use lido.Session.{Session, close_socket, is_given, max_inbound_buffer_chars}
use lido.Session.Credit.{Turn}
use lido.Session.Handlers.{Surroundings, handle_lines}

-- The complete lines of a text, and what stands behind the last of them.
abbrev pub Split : Type 0
Split = List Units × Units

unfoldable pub in_front : ℕ → Split → Split
in_front c ([], rest) = ([], c ∷ rest)
in_front c (line ∷ lines, rest) = ((c ∷ line) ∷ lines, rest)

unfoldable pub break_line : Bool → ℕ → Split → Split
break_line true c (lines, rest) = ([] ∷ lines, rest)
break_line false c split = in_front c split

-- text.split('\n'), with the last part apart.
unfoldable pub split_lines : Units → Split
split_lines [] = ([], [])
split_lines (c ∷ cs) = break_line (c == 10) c (split_lines cs)

unfoldable pub given_lines : List Units → List Units
given_lines [] = []
given_lines (line ∷ lines) =
    let rest = given_lines lines in if is_given line then line ∷ rest else rest

-- A byte of the form 10xxxxxx, which goes on with a character of UTF-8.
abbrev pub continues : ℕ → Bool
continues b = leb 128 b && ltb b 192

-- `data.toString()` of a Buffer: its bytes read as UTF-8, with U+FFFD for what is none. Bytes in front
-- of one that does not continue a character are read as if nothing followed them.
pub record Decoding : Type 0 where
  pub to_text : Bytes → Units
  pub to_text-append :
      (front : Bytes) (b : ℕ) (back : Bytes)
      → continues b ≡ false
      → to_text (front ++ (b ∷ back)) ≡ to_text front ++ to_text (b ∷ back)

pub record Inbox (N T : Type 0) : Type 0 where
  pub buffer : Units
  pub session : Session N T

module _ ⦃numbers : Numbers⦄ {T : Type 0} (around : Surroundings numbers.Number)
    (bitcoin : Bitcoin T) where
  unfoldable pub take_lines :
      Turn numbers.Number
      → JobsService numbers.Number T
      → Split
      → Session numbers.Number T
      → Inbox numbers.Number T
  take_lines turn service (lines, rest) s = record {
    buffer = rest;
    session = handle_lines around bitcoin turn service (given_lines lines) s;
  }

  -- The flags are whether the session is closed, and the buffer too long.
  unfoldable pub receive_if :
      Bool
      → Bool
      → Turn numbers.Number
      → JobsService numbers.Number T
      → Units
      → Inbox numbers.Number T
      → Inbox numbers.Number T
  receive_if true full turn service text inbox = inbox
  receive_if false true turn service text inbox = record {
    buffer = inbox.buffer ++ text;
    session = close_socket inbox.session;
  }
  receive_if false false turn service text inbox =
      take_lines turn service (split_lines (inbox.buffer ++ text)) inbox.session

  -- The listener of 'data' behind `data.toString()`.
  unfoldable pub receive_text :
      Turn numbers.Number
      → JobsService numbers.Number T
      → Units
      → Inbox numbers.Number T
      → Inbox numbers.Number T
  receive_text turn service text inbox =
      receive_if (inbox.session.connection_closed || inbox.session.destroyed)
        (ltb max_inbound_buffer_chars (length (inbox.buffer ++ text))) turn service text inbox

  -- The listener of 'data', on a chunk that comes when the messages of the one before are handled.
  unfoldable pub receive :
      Decoding
      → Turn numbers.Number
      → JobsService numbers.Number T
      → Bytes
      → Inbox numbers.Number T
      → Inbox numbers.Number T
  receive decoding turn service chunk inbox =
      receive_text turn service (decoding.to_text chunk) inbox
