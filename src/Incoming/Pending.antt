-- ===== src/Incoming/Pending.antt =====
-- A client of rfb.js that waits for a display with a queue, and goes on when it is flushed.
use warpyard.Base.{
  ℕ, zero, suc, ◌+◌, ◌<◌, Bool, true, false, Option, List, [], ◌++◌, ◌≡◌, refl, sym, ap, subst, ◌∙◌,
  ◌⊎◌, inl, inr, arith, length, length-drop, drop, ◌==◌, if◌then◌else◌, Bool-cases,
}
use warpyard.Stream.{Stream}
use warpyard.Inflator.{Pako}
use warpyard.Incoming.{
  Client, Effect, Reply, returns, closes, breaks, spins, Decoders, after, starve,
}
use warpyard.Incoming.Rects.{update_rects}
use warpyard.Incoming.Messages.{next_message, messages, handle_message, flushed, ask_update}
use warpyard.Incoming.GoesOn.{after-nil, after-after}
use warpyard.Incoming.TypeGoes.{message-Goes}
use warpyard.Incoming.MessageGoes.{busy, busy_le, in_update}
use warpyard.Incoming.Turns.{
  some_or_none, Calm, Calm-after_left, Calm-after_right, next_message-goes, next_message-stops,
  handle, run, MessageGoes, run-turn, handle-run,
}
use warpyard.Incoming.Defers.{Deferred, Defers, defers, pending_message, one_message}

module _ {D : Type 0} (decoders : Decoders D) {Z : Type 0} (pako : Pako Z)
    (deflate : List ℕ → Option (List ℕ)) where
  abbrev pub pending_one : Client D → Stream → Reply D
  pending_one = pending_message decoders pako deflate

  abbrev one : Client D → Stream → Reply D
  one = one_message decoders pako deflate

  abbrev pub pending_handle : Client D → Stream → Reply D
  pending_handle = handle_message decoders pako deflate true

  abbrev pub pending_run : ℕ → Client D → Stream → Reply D
  pending_run fuel = messages decoders pako deflate fuel true

  -- The display is flushed, and has no queue from then on.
  abbrev pub go_on_flushed : Reply D → Reply D
  go_on_flushed (returns r) =
      if r.client.flushing
      then after r.effects (flushed decoders pako deflate r.client r.rest)
      else returns r
  go_on_flushed closes = closes
  go_on_flushed breaks = breaks
  go_on_flushed spins = spins

  -- Where it waits for the display, it does so for rectangles, and has bytes to go on with.
  abbrev pub Ready : Reply D → Type 0
  Ready (returns r) = r.client.flushing ≡ true → (0 < r.client.rects) × (0 < length r.rest)
  Ready closes = Unit {0}
  Ready breaks = Unit {0}
  Ready spins = Unit {0}

  go_on_flushed-after :
      (es : List Effect) (o : Reply D) → go_on_flushed (after es o) ≡ after es (go_on_flushed o)
  go_on_flushed-after es (returns r) = by_flushing r.client.flushing
    where
      by_flushing :
          (b : Bool)
          → (if b
              then after (es ++ r.effects) (flushed decoders pako deflate r.client r.rest)
              else returns (record r { effects = es ++ r.effects }))
            ≡ after es (
                if b
                then after r.effects (flushed decoders pako deflate r.client r.rest)
                else returns r)
      by_flushing true =
          sym (after-after es r.effects (flushed decoders pako deflate r.client r.rest))
      by_flushing false = refl
  go_on_flushed-after es closes = refl
  go_on_flushed-after es breaks = refl
  go_on_flushed-after es spins = refl

  Ready-after : (es : List Effect) (o : Reply D) → Ready (after es o) → Ready o
  Ready-after es (returns r) ready = ready
  Ready-after es closes ready = tt
  Ready-after es breaks ready = tt
  Ready-after es spins ready = tt

  pub pending_run-turn :
      (f : ℕ) (c : Client D) (q : Stream)
      → c.flushing ≡ false
      → pending_run (suc f) c q ≡ next_message (pending_run f) (pending_one c q)
  unfolding messages
  pending_run-turn f c q idle =
      ap (λ b. if b then starve c q [] else next_message (pending_run f) (pending_one c q)) idle

  idle-go_on :
      (c : Client D) (q : Stream) (es : List Effect)
      → c.flushing ≡ false
      → go_on_flushed (starve c q es) ≡ starve c q es
  idle-go_on c q es idle =
      ap (λ b. if b then after es (flushed decoders pako deflate c q) else starve c q es) idle

  -- A message that does not wait for the display, and those that follow.
  next-go_on :
      (f : ℕ) (c : Client D) (q : Stream)
      → c.flushing ≡ false
      → c.failed ≡ false
      → busy c + length q < suc f
      → ((c' : Client D) (q' : Stream)
          → c'.flushing ≡ false
          → c'.failed ≡ false
          → busy c' + length q' < f
          → Calm (pending_run f c' q')
          → Ready (pending_run f c' q')
          → go_on_flushed (pending_run f c' q') ≡ run decoders pako deflate f c' q')
      → (o out : Reply D) → MessageGoes decoders pako deflate c q [] o out
      → Calm (next_message (pending_run f) o)
      → Ready (next_message (pending_run f) o)
      → go_on_flushed (next_message (pending_run f) o)
        ≡ next_message (run decoders pako deflate f) o
  next-go_on f c q idle well f_lt rest_goes (returns r) out turn calm ready =
      by_goes (Bool-cases r.finished) (some_or_none (length r.rest))
    where
      stops :
          (r.finished ≡ false) ⊎ (length r.rest ≡ 0)
          → go_on_flushed (next_message (pending_run f) (returns r))
            ≡ next_message (run decoders pako deflate f) (returns r)
      stops stop =
          ap go_on_flushed (next_message-stops (pending_run f) r stop)
          ∙ idle-go_on r.client r.rest r.effects (turn.flushing ∙ idle)
          ∙ sym (next_message-stops (run decoders pako deflate f) r stop)

      by_goes :
          (r.finished ≡ true) ⊎ (r.finished ≡ false)
          → (0 < length r.rest) ⊎ (length r.rest ≡ 0)
          → go_on_flushed (next_message (pending_run f) (returns r))
            ≡ next_message (run decoders pako deflate f) (returns r)
      by_goes (inr unfinished) e = stops (inl unfinished)
      by_goes (inl t) (inr none_left) = stops (inr none_left)
      by_goes (inl t) (inl some_left) =
          let e : next_message (pending_run f) (returns r)
              ≡ after r.effects (pending_run f r.client r.rest) =
            next_message-goes (pending_run f) r t some_left in
          let calm' : Calm (after r.effects (pending_run f r.client r.rest)) = subst Calm e calm in
          ap go_on_flushed e
          ∙ go_on_flushed-after r.effects (pending_run f r.client r.rest)
          ∙ ap (after r.effects) (
              rest_goes r.client r.rest (turn.flushing ∙ idle)
                (turn.failed (Calm-after_left r.effects (pending_run f r.client r.rest) calm')
                  ∙ well)
                (omega (arith, turn.said.0 t))
                (Calm-after_right r.effects (pending_run f r.client r.rest) calm')
                (Ready-after r.effects (pending_run f r.client r.rest) (subst Ready e ready)))
          ∙ sym (next_message-goes (run decoders pako deflate f) r t some_left)
  next-go_on f c q idle well f_lt rest_goes closes out turn calm ready = refl
  next-go_on f c q idle well f_lt rest_goes breaks out turn calm ready = refl
  next-go_on f c q idle well f_lt rest_goes spins out turn calm ready = refl

  -- An update that waits for the display.
  Deferred-go_on :
      (f : ℕ) (c : Client D) (q : Stream) (d : Deferred decoders pako deflate c q)
      → c.flushing ≡ false
      → c.failed ≡ false
      → busy c + length q < suc f
      → Ready (next_message (pending_run f) (pending_one c q))
      → go_on_flushed (next_message (pending_run f) (pending_one c q))
        ≡ next_message (run decoders pako deflate f) (one c q)
  unfolding flushed
  Deferred-go_on f c q d idle well f_lt ready =
      let c1 = record c { rects = d.count; flushing = true } in
      let c2 = record c { rects = d.count; flushing = false } in
      let rest = drop d.taken q in
      let e : next_message (pending_run f) (pending_one c q) ≡ starve c1 rest [] =
        ap (next_message (pending_run f)) d.waits_for_display in
      let is_ready : (0 < d.count) × (0 < length rest) = subst Ready e ready refl in
      let nonempty : (length rest == 0) ≡ false = ground (arith, is_ready.1) in
      ap go_on_flushed e
      ∙ after-nil (flushed decoders pako deflate c1 rest)
      ∙ ap (λ b. if b then starve c2 rest [] else handle decoders pako deflate c2 rest) nonempty
      ∙ handle-run decoders pako deflate (suc f) c2 rest refl well is_ready.1
          (omega (arith, busy_le c2, length-drop d.taken q, d.some_taken, d.there, f_lt))
      ∙ run-turn decoders pako deflate f c2 rest refl
      ∙ ap (next_message (run decoders pako deflate f)) (
          in_update decoders pako deflate c2 rest is_ready.0
          ∙ ap
              (λ b.
                ask_update
                  (update_rects decoders d.count (record c { rects = d.count; flushing = b }) rest))
              (sym idle)
          ∙ sym d.otherwise)

  turn-go_on :
      (f : ℕ) (c : Client D) (q : Stream)
      → c.flushing ≡ false
      → c.failed ≡ false
      → busy c + length q < suc f
      → ((c' : Client D) (q' : Stream)
          → c'.flushing ≡ false
          → c'.failed ≡ false
          → busy c' + length q' < f
          → Calm (pending_run f c' q')
          → Ready (pending_run f c' q')
          → go_on_flushed (pending_run f c' q') ≡ run decoders pako deflate f c' q')
      → Defers decoders pako deflate c q
      → Calm (next_message (pending_run f) (pending_one c q))
      → Ready (next_message (pending_run f) (pending_one c q))
      → go_on_flushed (next_message (pending_run f) (pending_one c q))
        ≡ next_message (run decoders pako deflate f) (one c q)
  turn-go_on f c q idle well f_lt rest_goes (inr d) calm ready =
      Deferred-go_on f c q d idle well f_lt ready
  turn-go_on f c q idle well f_lt rest_goes (inl same) calm ready =
      ap (λ o. go_on_flushed (next_message (pending_run f) o)) same
      ∙ next-go_on f c q idle well f_lt rest_goes (one c q) (one c (q ++ []))
          (message-Goes decoders pako deflate c q [])
          (subst (λ o. Calm (next_message (pending_run f) o)) same calm)
          (subst (λ o. Ready (next_message (pending_run f) o)) same ready)

  pub run-go_on :
      (f : ℕ) (c : Client D) (q : Stream)
      → c.flushing ≡ false
      → c.failed ≡ false
      → busy c + length q < f
      → Calm (pending_run f c q)
      → Ready (pending_run f c q)
      → go_on_flushed (pending_run f c q) ≡ run decoders pako deflate f c q
  run-go_on zero c q idle well f_lt calm ready = absurd (omega (arith, f_lt))
  run-go_on (suc f) c q idle well f_lt calm ready =
      let e : pending_run (suc f) c q ≡ next_message (pending_run f) (pending_one c q) =
        pending_run-turn f c q idle in
      ap go_on_flushed e
      ∙ turn-go_on f c q idle well f_lt (λ c' q'. run-go_on f c' q')
          (defers decoders pako deflate c q) (subst Calm e calm) (subst Ready e ready)
      ∙ sym (run-turn decoders pako deflate f c q idle)
