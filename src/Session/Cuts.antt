-- ===== src/Session/Cuts.antt =====
-- The inbound buffer of src/models/StratumV1Client.ts under cuts of the stream into chunks.
use lido.Base.{
  ℕ, suc, ◌+◌, ◌≤◌, ◌≡◌, refl, sym, ap, ◌∙◌, Bool, true, false, ◌||◌, Bytes, Bool-cases, inl, inr,
  List, [], ◌∷◌, ◌++◌, append_assoc, length, length-append, ltb, ◌==◌, arith,
}
use lido.Client.{Units}
use lido.Numbers.{Numbers}
use lido.Mining.{Bitcoin}
use lido.Jobs.{JobsService}
use lido.Session.{Session, is_closed, is_given, max_inbound_buffer_chars}
use lido.Session.Credit.{Turn}
use lido.Session.Handlers.{Surroundings, handle_message, handle_lines}
use lido.Session.Lines.{
  Split, in_front, break_line, split_lines, given_lines, Inbox, take_lines, receive_if,
  receive_text, receive, continues, Decoding,
}

abbrev joined : List Units → Split → Split
joined lines (more, rest) = (lines ++ more, rest)

in_front-joined :
    (c : ℕ) (line : Units) (lines : List Units) (s : Split)
    → in_front c (joined (line ∷ lines) s) ≡ joined ((c ∷ line) ∷ lines) s
unfolding in_front
in_front-joined c line lines (more, rest) = refl

break_line-joined :
    (b : Bool) (c : ℕ) (s t : Split) (y : Units)
    → split_lines (s.1 ++ y) ≡ t
    → (b ≡ (c == 10))
    → break_line b c (joined s.0 t)
      ≡ joined (break_line b c s).0 (split_lines ((break_line b c s).1 ++ y))
unfolding break_line split_lines in_front
break_line-joined true c (lines, rest) (more, last) y e at = rw e
break_line-joined false c ([], rest) (more, last) y e at = rw (sym at, e)
break_line-joined false c (line ∷ lines, rest) (more, last) y e at = rw e

split_lines-append :
    (x y : Units)
    → split_lines (x ++ y) ≡ joined (split_lines x).0 (split_lines ((split_lines x).1 ++ y))
unfolding split_lines
split_lines-append [] y = refl
split_lines-append (c ∷ x) y =
    ap (break_line (c == 10) c) (split_lines-append x y)
    ∙ break_line-joined (c == 10) c (split_lines x) (split_lines ((split_lines x).1 ++ y)) y refl
        refl

given_lines-append :
    (xs ys : List Units) → given_lines (xs ++ ys) ≡ given_lines xs ++ given_lines ys
unfolding given_lines
given_lines-append [] ys = refl
given_lines-append (x ∷ xs) ys = elim (Bool-cases (is_given x)) [
  | inl e ↦ rw (e, given_lines-append xs ys)
  | inr e ↦ rw (e, given_lines-append xs ys)
]

length-break_line : (b : Bool) (c : ℕ) (s : Split) → length (break_line b c s).1 ≤ suc (length s.1)
unfolding break_line in_front
length-break_line true c (lines, rest) = omega arith
length-break_line false c ([], rest) = omega arith
length-break_line false c (line ∷ lines, rest) = omega arith

length-split_lines : (x : Units) → length (split_lines x).1 ≤ length x
unfolding split_lines
length-split_lines [] = omega arith
length-split_lines (c ∷ x) =
    omega (arith, length-break_line (c == 10) c (split_lines x), length-split_lines x)

module _ ⦃numbers : Numbers⦄ {T : Type 0} (around : Surroundings numbers.Number)
    (bitcoin : Bitcoin T) (turn : Turn numbers.Number)
    (service : JobsService numbers.Number T) where
  handle_lines_closed :
      (lines : List Units) (s : Session numbers.Number T)
      → is_closed s ≡ true
      → handle_lines around bitcoin turn service lines s ≡ s
  unfolding handle_lines
  handle_lines_closed [] s h = refl
  handle_lines_closed (line ∷ lines) s h = rw h

  handle_lines-append :
      (xs ys : List Units) (s : Session numbers.Number T)
      → handle_lines around bitcoin turn service (xs ++ ys) s
        ≡ handle_lines around bitcoin turn service ys
            (handle_lines around bitcoin turn service xs s)
  unfolding handle_lines
  handle_lines-append [] ys s = refl
  handle_lines-append (x ∷ xs) ys s = elim (Bool-cases (is_closed s)) [
    | inl e ↦ rw e (sym (handle_lines_closed ys s e))
    | inr e ↦ rw e (handle_lines-append xs ys (handle_message around bitcoin turn service x s))
  ]

  closed_of :
      (s : Session numbers.Number T)
      → s.connection_closed || s.destroyed ≡ true
      → is_closed s ≡ true
  closed_of s h = ground (arith, h)

  lines_after :
      (x y : Units) (s : Session numbers.Number T)
      → handle_lines around bitcoin turn service (given_lines (split_lines (x ++ y)).0) s
        ≡ handle_lines around bitcoin turn service
            (given_lines (split_lines ((split_lines x).1 ++ y)).0)
            (handle_lines around bitcoin turn service (given_lines (split_lines x).0) s)
  lines_after x y s =
      ap (λ z. handle_lines around bitcoin turn service (given_lines z.0) s)
        (split_lines-append x y)
      ∙ ap (λ z. handle_lines around bitcoin turn service z s)
          (given_lines-append (split_lines x).0 (split_lines ((split_lines x).1 ++ y)).0)
      ∙ handle_lines-append (given_lines (split_lines x).0)
          (given_lines (split_lines ((split_lines x).1 ++ y)).0) s

  take_receive :
      (x y : Units) (b : Bool) (s : Session numbers.Number T)
      → let first = take_lines around bitcoin turn service (split_lines x) s in
        first.session.connection_closed || first.session.destroyed ≡ b
        → (take_lines around bitcoin turn service (split_lines (x ++ y)) s).session
          ≡ (receive_if around bitcoin b false turn service y first).session
  unfolding receive_if take_lines
  take_receive x y true s h =
      let first = handle_lines around bitcoin turn service (given_lines (split_lines x).0) s in
      lines_after x y s
      ∙ handle_lines_closed (given_lines (split_lines ((split_lines x).1 ++ y)).0) first
          (closed_of first h)
  take_receive x y false s h = lines_after x y s

  abbrev is_shut : Inbox numbers.Number T → Bool
  is_shut inbox = inbox.session.connection_closed || inbox.session.destroyed

  receive_shut :
      (text : Units) (inbox : Inbox numbers.Number T)
      → is_shut inbox ≡ true
      → receive_text around bitcoin turn service text inbox ≡ inbox
  unfolding receive_text receive_if
  receive_shut text inbox h = rw h

  roomy :
      (text : Units)
      → length text ≤ max_inbound_buffer_chars
      → ltb max_inbound_buffer_chars (length text) ≡ false
  roomy text h = ground arith

  receive_open :
      (text : Units) (inbox : Inbox numbers.Number T)
      → is_shut inbox ≡ false
      → length (inbox.buffer ++ text) ≤ max_inbound_buffer_chars
      → receive_text around bitcoin turn service text inbox
        ≡ take_lines around bitcoin turn service (split_lines (inbox.buffer ++ text)) inbox.session
  unfolding receive_text receive_if
  receive_open text inbox h fits = rw (h, roomy (inbox.buffer ++ text) fits)

  receive_roomy :
      (text : Units) (inbox : Inbox numbers.Number T)
      → ltb max_inbound_buffer_chars (length (inbox.buffer ++ text)) ≡ false
      → receive_text around bitcoin turn service text inbox
        ≡ receive_if around bitcoin (is_shut inbox) false turn service text inbox
  unfolding receive_text
  receive_roomy text inbox h =
      ap (λ full. receive_if around bitcoin (is_shut inbox) full turn service text inbox) h

  receive_text-append :
      (a b : Units) (inbox : Inbox numbers.Number T)
      → length inbox.buffer + length a + length b ≤ max_inbound_buffer_chars
      → (receive_text around bitcoin turn service (a ++ b) inbox).session
        ≡ (receive_text around bitcoin turn service b
            (receive_text around bitcoin turn service a inbox)).session
  unfolding take_lines
  receive_text-append a b inbox fits = elim (Bool-cases (is_shut inbox)) [
    | inl e ↦
        ap (λ i. i.session) (receive_shut (a ++ b) inbox e ∙ sym (receive_shut b inbox e))
        ∙ ap (λ i. (receive_text around bitcoin turn service b i).session)
            (sym (receive_shut a inbox e))
    | inr e ↦
        let x = inbox.buffer ++ a in
        let first = take_lines around bitcoin turn service (split_lines x) inbox.session in
        let whole =
          receive_open (a ++ b) inbox e
            (omega (arith, length-append inbox.buffer (a ++ b), length-append a b)) in
        let one = receive_open a inbox e (omega (arith, length-append inbox.buffer a)) in
        let room = roomy ((split_lines x).1 ++ b) (
          omega (
            arith,
            length-append inbox.buffer a,
            length-append (split_lines x).1 b,
            length-split_lines x,
          )) in
        ap (λ i. i.session) whole
        ∙ ap (λ z. (take_lines around bitcoin turn service (split_lines z) inbox.session).session)
            (sym (append_assoc inbox.buffer a b))
        ∙ take_receive x b (is_shut first) inbox.session refl
        ∙ ap (λ i. i.session) (sym (receive_roomy b first room))
        ∙ ap (λ i. (receive_text around bitcoin turn service b i).session) (sym one)
  ]

  -- Two chunks, of which the second one begins with a byte that does not continue a character of UTF-8,
  -- leave the session that they leave as one chunk, if their texts fit into the buffer together and the
  -- second one comes when the messages of the first one are handled.
  pub receive-append :
      (decoding : Decoding) (front : Bytes) (b : ℕ) (back : Bytes) (inbox : Inbox numbers.Number T)
      → continues b ≡ false
      → length inbox.buffer + length (decoding.to_text front) + length (decoding.to_text (b ∷ back))
        ≤ max_inbound_buffer_chars
      → (receive around bitcoin decoding turn service (front ++ (b ∷ back)) inbox).session
        ≡ (receive around bitcoin decoding turn service
            (b ∷ back)
            (receive around bitcoin decoding turn service front inbox)).session
  unfolding receive
  receive-append decoding front b back inbox begins fits =
      ap (λ text. (receive_text around bitcoin turn service text inbox).session)
        (decoding.to_text-append front b back begins)
      ∙ receive_text-append (decoding.to_text front) (decoding.to_text (b ∷ back)) inbox fits
