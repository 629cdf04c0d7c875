-- ===== src/Incoming/Cut.antt =====
-- `_handleMessage` of rfb.js over a stream that arrives in parts.
use warpyard.Base.{
  ℕ, zero, suc, ◌+◌, ◌<◌, Bool, true, false, Option, List, [], ◌∷◌, ◌++◌, append-nil, append_assoc,
  ◌≡◌, refl, sym, ap, subst, ◌∙◌, ◌⊎◌, inl, inr, arith, length, length-append, All,
}
use warpyard.Stream.{Stream}
use warpyard.Decoders.Feed.{join}
use warpyard.Inflator.{Pako}
use warpyard.Incoming.{
  Client, Effect, Handled, Reply, returns, closes, breaks, spins, Decoders, after, starve,
}
use warpyard.Incoming.Kept.{IsCalm}
use warpyard.Incoming.Messages.{next_message}
use warpyard.Incoming.GoesOn.{Follows, after-after}
use warpyard.Incoming.TypeGoes.{message-Goes}
use warpyard.Incoming.MessageGoes.{busy, busy_le}
use warpyard.Incoming.Turns.{
  some_or_none, Calm, Calm-after_left, Calm-after_right, next_message-goes, next_message-stops,
  next_message-after, handle, run, message_of, MessageGoes, run-turn, handle-run, next-handle,
}

module _ {D : Type 0} (decoders : Decoders D) {Z : Type 0} (pako : Pako Z)
    (deflate : List ℕ → Option (List ℕ)) where
  abbrev go : Client D → Stream → Reply D
  go = handle decoders pako deflate

  abbrev turns : ℕ → Client D → Stream → Reply D
  turns = run decoders pako deflate

  abbrev one_message : Client D → Stream → Reply D
  one_message = message_of decoders pako deflate

  -- More bytes after a return.
  abbrev pub resume : Reply D → Stream → Reply D
  resume (returns r) more = after r.effects (go r.client (r.rest ++ more))
  resume closes more = closes
  resume breaks more = breaks
  resume spins more = spins

  resume-after :
      (es : List Effect) (o : Reply D) (more : Stream)
      → resume (after es o) more ≡ after es (resume o more)
  resume-after es (returns r) more = sym (after-after es r.effects (go r.client (r.rest ++ more)))
  resume-after es closes more = refl
  resume-after es breaks more = refl
  resume-after es spins more = refl

  -- A message that is over, with bytes left: the loop takes the next one.
  next-resume_goes :
      (f : ℕ) (r : Handled D) (more : Stream) (out : Reply D)
      → out ≡ returns (record r { rest = r.rest ++ more })
      → r.finished ≡ true
      → 0 < length r.rest
      → turns f r.client (r.rest ++ more) ≡ resume (turns f r.client r.rest) more
      → next_message (turns f) out ≡ resume (next_message (turns f) (returns r)) more
  next-resume_goes f r more out same t some_left resumes =
      ap (next_message (turns f)) same
      ∙ next_message-goes (turns f) (record r { rest = r.rest ++ more }) t
          (omega (arith, length-append r.rest more, some_left))
      ∙ ap (after r.effects) resumes
      ∙ sym (resume-after r.effects (turns f r.client r.rest) more)
      ∙ ap (λ o. resume o more) (sym (next_message-goes (turns f) r t some_left))

  -- A message that waits for bytes: the handler is called again when they arrive.
  next-resume_waits :
      (f : ℕ) (r : Handled D) (more : Stream) (out : Reply D)
      → out ≡ after r.effects (one_message r.client (r.rest ++ more))
      → r.finished ≡ false
      → r.client.flushing ≡ false
      → r.client.failed ≡ false
      → 0 < length more
      → busy r.client + length (r.rest ++ more) < suc f
      → next_message (turns f) out ≡ resume (next_message (turns f) (returns r)) more
  next-resume_waits f r more out same unfinished idle well some_more f_lt =
      ap (next_message (turns f)) same
      ∙ next_message-after (turns f) r.effects (one_message r.client (r.rest ++ more))
      ∙ ap (after r.effects) (sym (run-turn decoders pako deflate f r.client (r.rest ++ more) idle))
      ∙ ap (after r.effects) (
          sym (
            handle-run decoders pako deflate (suc f) r.client (r.rest ++ more) idle well
              (omega (arith, length-append r.rest more)) f_lt))
      ∙ ap (λ o. resume o more) (sym (next_message-stops (turns f) r (inl unfinished)))

  -- What follows a message goes on where it stopped, where the loop does.
  next-resume :
      (f : ℕ) (c : Client D) (q more : Stream)
      → c.flushing ≡ false
      → c.failed ≡ false
      → 0 < length more
      → busy c + length (q ++ more) < suc f
      → ((c' : Client D) (q' : Stream)
          → c'.flushing ≡ false
          → c'.failed ≡ false
          → busy c' + length (q' ++ more) < f
          → Calm (turns f c' q')
          → turns f c' (q' ++ more) ≡ resume (turns f c' q') more)
      → (o out : Reply D) → MessageGoes decoders pako deflate c q more o out
      → Calm (next_message (turns f) o)
      → next_message (turns f) out ≡ resume (next_message (turns f) o) more
  next-resume f c q more idle well some_more f_lt run_resumes (returns r) out turn calm =
      by_goes r.finished refl turn.follows (some_or_none (length r.rest))
    where
      by_goes :
          (b : Bool)
          → r.finished ≡ b
          → Follows one_message b r more out
          → (0 < length r.rest) ⊎ (length r.rest ≡ 0)
          → next_message (turns f) out ≡ resume (next_message (turns f) (returns r)) more
      by_goes true t same (inl some_left) =
          let calm' : Calm (after r.effects (turns f r.client r.rest)) =
            subst Calm (next_message-goes (turns f) r t some_left) calm in
          next-resume_goes f r more out same t some_left (
            run_resumes r.client r.rest (turn.flushing ∙ idle)
              (turn.failed (Calm-after_left r.effects (turns f r.client r.rest) calm') ∙ well)
              (omega (arith, turn.said.0 t, length-append r.rest more, length-append q more))
              (Calm-after_right r.effects (turns f r.client r.rest) calm'))
      by_goes true t same (inr none_left) =
          let e : next_message (turns f) (returns r) ≡ starve r.client r.rest r.effects =
            next_message-stops (turns f) r (inr none_left) in
          let calm' : All IsCalm r.effects = subst Calm e calm in
          ap (next_message (turns f)) same
          ∙ next-handle decoders pako deflate f (record r { rest = r.rest ++ more }) t
              (turn.flushing ∙ idle) (turn.failed calm' ∙ well)
              (omega (arith, length-append r.rest more))
              (omega (arith, turn.said.0 t, length-append r.rest more, length-append q more))
          ∙ ap (λ o. resume o more) (sym e)
      by_goes false f' same e =
          let calm' : All IsCalm r.effects =
            subst Calm (next_message-stops (turns f) r (inl f')) calm in
          next-resume_waits f r more out (same calm') f' (turn.flushing ∙ idle)
            (turn.failed calm' ∙ well) some_more
            (omega (arith, turn.said.1, length-append r.rest more, length-append q more))
  next-resume f c q more idle well some_more f_lt run_resumes closes out turn calm = absurd calm
  next-resume f c q more idle well some_more f_lt run_resumes breaks out turn calm = absurd calm
  next-resume f c q more idle well some_more f_lt run_resumes spins out turn calm = absurd calm

  -- The loop goes on where it stopped.
  run-resume :
      (f : ℕ) (c : Client D) (q more : Stream)
      → c.flushing ≡ false
      → c.failed ≡ false
      → 0 < length more
      → busy c + length (q ++ more) < f
      → Calm (turns f c q)
      → turns f c (q ++ more) ≡ resume (turns f c q) more
  run-resume zero c q more idle well some_more f_lt calm = absurd (omega (arith, f_lt))
  run-resume (suc f) c q more idle well some_more f_lt calm =
      run-turn decoders pako deflate f c (q ++ more) idle
      ∙ next-resume f c q more idle well some_more f_lt
          (λ c' q' idle' well' lt calm'. run-resume f c' q' more idle' well' some_more lt calm')
          (one_message c q) (one_message c (q ++ more))
          (message-Goes decoders pako deflate c q more)
          (subst Calm (run-turn decoders pako deflate f c q idle) calm)
      ∙ ap (λ o. resume o more) (sym (run-turn decoders pako deflate f c q idle))

  -- `_handleMessage` goes on where it stopped.
  handle-resume :
      (c : Client D) (q more : Stream)
      → c.flushing ≡ false
      → c.failed ≡ false
      → 0 < length q
      → 0 < length more
      → Calm (go c q)
      → go c (q ++ more) ≡ resume (go c q) more
  handle-resume c q more idle well some_there some_more calm =
      let f = length (q ++ more) + 2 in
      let lt : busy c + length (q ++ more) < f = omega (arith, busy_le c) in
      let lt' : busy c + length q < f = omega (arith, busy_le c, length-append q more) in
      let first : go c q ≡ turns f c q =
        handle-run decoders pako deflate f c q idle well some_there lt' in
      handle-run decoders pako deflate f c (q ++ more) idle well
        (omega (arith, length-append q more)) lt
      ∙ run-resume f c q more idle well some_more lt (subst Calm first calm)
      ∙ ap (λ o. resume o more) (sym first)

  -- The parts as they arrive, after a first return.
  abbrev pub feed : Reply D → List Stream → Reply D
  feed o [] = o
  feed o (q ∷ qs) = feed (resume o q) qs

  Calm-first : (o : Reply D) (qs : List Stream) → Calm (feed o qs) → Calm o
  Calm-first o [] calm = calm
  Calm-first o (q ∷ qs) calm = before o (Calm-first (resume o q) qs calm)
    where
      before : (o : Reply D) → Calm (resume o q) → Calm o
      before (returns r) calm = Calm-after_left r.effects (go r.client (r.rest ++ q)) calm
      before closes calm = absurd calm
      before breaks calm = absurd calm
      before spins calm = absurd calm

  -- However the bytes of a server are cut into parts that are not empty, `_handleMessage`, called for each
  -- part as it arrives, comes to the same state, the same bytes left and the same effects in the same order
  -- as one call with all the bytes. It holds for a client that does not wait for the display and has not
  -- failed, with a display that has no queue, where the calls for the parts end without a failure, a
  -- cursor of a type that is not supported, an error or a read past what has arrived.
  pub handle_message_join :
      (c : Client D) (q : Stream) (qs : List Stream)
      → c.flushing ≡ false
      → c.failed ≡ false
      → 0 < length q
      → All (λ p. 0 < length p) qs
      → Calm (feed (go c q) qs)
      → feed (go c q) qs ≡ go c (q ++ join qs)
  handle_message_join c q [] idle well some_there full calm = ap (go c) (sym (append-nil q))
  handle_message_join c q (p ∷ qs) idle well some_there full calm =
      let more : go c (q ++ p) ≡ resume (go c q) p =
        handle-resume c q p idle well some_there full.0 (Calm-first (go c q) (p ∷ qs) calm) in
      ap (λ o. feed o qs) (sym more)
      ∙ handle_message_join c (q ++ p) qs idle well (omega (arith, length-append q p, some_there))
          full.1 (subst (λ o. Calm (feed o qs)) (sym more) calm)
      ∙ ap (go c) (append_assoc q p (join qs))
