-- ===== src/Frame/Reassembly.antt =====
-- Sv2FrameReader.feed of src/models/sv2/sv2-frame.ts does not depend on how TCP cuts the stream.
use mathlib.Core.List.{append_assoc}
use lido.Base.{
  ℕ, zero, suc, ◌<◌, ◌≡◌, refl, sym, ap, ◌∙◌, List, [], ◌∷◌, ◌++◌, arith, length, Bytes, append-nil,
}
use lido.Outcome.{Result, ok, err}
use lido.Frame.Reader.{
  ParsedFrame, FrameReader, Pass, breaks, pushes, pass, feed_loop, feed, Fed, after_pass,
}
use lido.Frame.Arrival.{arrive, resume, pass-arrive}
use lido.Frame.Passes.{
  waiting_le, pending, pass-shrinks, after_pass-congr, feed_loop_step, feed_loop-fuel,
}

module _ {S : Type 0} where
  -- What feeding more bytes makes of a run of the loop.
  abbrev go_on : Bytes → Fed S → Fed S
  go_on more (err e) = err e
  go_on more (ok (frames, r)) =
      feed_loop (suc (suc (length (r.buf ++ more)))) frames (arrive r more)

  feed_loop-arrive :
      (m n : ℕ) (frames : List ParsedFrame) (r : FrameReader S) (more : Bytes)
      → pending r < m
      → pending (arrive r more) < n
      → feed_loop n frames (arrive r more) ≡ go_on more (feed_loop m frames r)
  feed_loop-arrive zero n frames r more h k = absurd (omega arith)
  feed_loop-arrive (suc m) zero frames r more h k = absurd (omega arith)
  feed_loop-arrive (suc m) (suc n) frames r more h k =
      feed_loop_step n frames (arrive r more)
      ∙ ap (after_pass (feed_loop n) frames) (pass-arrive r.state r more refl)
      ∙ go (feed_loop-arrive m n) (pass r.state r) refl
      ∙ sym (ap (go_on more) (feed_loop_step m frames r))
    where
      go :
          ((fs : List ParsedFrame) (q : FrameReader S) (b : Bytes)
            → pending q < m
            → pending (arrive q b) < n
            → feed_loop n fs (arrive q b) ≡ go_on b (feed_loop m fs q))
          → (p : Result (Pass S)) → pass r.state r ≡ p
          → after_pass (feed_loop n) frames (resume more p)
            ≡ go_on more (after_pass (feed_loop m) frames p)
      go ih (err e) q = unfold after_pass in refl
      go ih (ok (breaks r')) q =
          unfold after_pass feed_loop in
          after_pass-congr (feed_loop n) (feed_loop (suc (length (r'.buf ++ more)))) frames
            (pass r'.state (arrive r' more))
            λ f r'' p.
              let full : pending r'' < pending (arrive r more) =
                pass-shrinks (arrive r more) f r''
                  (pass-arrive r.state r more refl ∙ ap (resume more) q ∙ p) in
              feed_loop-fuel n (suc (length (r'.buf ++ more))) (frames ++ (f ∷ [])) r''
                (omega arith)
                (omega (arith, pass-shrinks (arrive r' more) f r'' p, waiting_le r'.state))
      go ih (ok (pushes f r')) q =
          unfold after_pass in
          ih (frames ++ (f ∷ [])) r' more (omega (arith, pass-shrinks r f r' q)) (
            omega (
              arith,
              pass-shrinks (arrive r more) f (arrive r' more)
                  (pass-arrive r.state r more refl ∙ ap (resume more) q),
            ))

  -- Frames that were pushed before stand before those that a run pushes.
  abbrev pub prepend : List ParsedFrame → Fed S → Fed S
  prepend frames (err e) = err e
  prepend frames (ok (more, r)) = ok (frames ++ more, r)

  feed_loop-prepend :
      (m : ℕ) (frames before : List ParsedFrame) (r : FrameReader S)
      → feed_loop m (before ++ frames) r ≡ prepend before (feed_loop m frames r)
  unfolding feed_loop
  feed_loop-prepend zero frames before r = refl
  feed_loop-prepend (suc m) frames before r = go (feed_loop-prepend m) (pass r.state r)
    where
      go :
          ((fs bs : List ParsedFrame) (q : FrameReader S)
            → feed_loop m (bs ++ fs) q ≡ prepend bs (feed_loop m fs q))
          → (p : Result (Pass S))
          → after_pass (feed_loop m) (before ++ frames) p
            ≡ prepend before (after_pass (feed_loop m) frames p)
      go ih (err e) = unfold after_pass in refl
      go ih (ok (breaks r')) = unfold after_pass in refl
      go ih (ok (pushes f r')) =
          unfold after_pass in
          ap (λ fs. feed_loop m fs r') (append_assoc before frames (f ∷ []))
          ∙ ih (frames ++ (f ∷ [])) before r'

  -- Feed the next chunk, and put its frames behind those of the chunks before.
  abbrev pub feed_next : Bytes → Fed S → Fed S
  feed_next chunk (err e) = err e
  feed_next chunk (ok (frames, r)) = prepend frames (feed chunk r)

  go_on-feed_next : (back : Bytes) (fed : Fed S) → go_on back fed ≡ feed_next back fed
  unfolding feed
  go_on-feed_next back (err e) = refl
  go_on-feed_next back (ok (frames, r)) =
      let n = suc (suc (length (r.buf ++ back))) in
      ap (λ fs. feed_loop n fs (arrive r back)) (sym (append-nil frames))
      ∙ feed_loop-prepend n [] frames (arrive r back)

  -- Feeding two chunks one after the other is feeding them at once: the same frames in the same
  -- order, the same reader, and the same exception if one is thrown. It holds in every state of the
  -- reader, plain or encrypted, wherever the stream is cut.
  pub feed-append :
      (front back : Bytes) (r : FrameReader S)
      → feed (front ++ back) r ≡ feed_next back (feed front r)
  unfolding feed
  feed-append front back r =
      ap (λ bs. feed_loop (suc (suc (length bs))) [] (record r { buf = bs }))
        (sym (append_assoc r.buf front back))
      ∙ feed_loop-arrive (suc (suc (length (r.buf ++ front))))
          (suc (suc (length ((r.buf ++ front) ++ back)))) [] (arrive r front) back
          (omega (arith, waiting_le r.state)) (omega (arith, waiting_le r.state))
      ∙ go_on-feed_next back _
