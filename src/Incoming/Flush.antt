-- ===== src/Incoming/Flush.antt =====
-- `_framebufferUpdate` of rfb.js waits for a display that has a queue, and goes on when it is flushed.
use warpyard.Base.{
  ℕ, suc, ◌+◌, ◌<◌, true, false, not, none, Option, List, [], ◌∷◌, append-nil, ◌≡◌, refl, sym, ap,
  subst, ◌∙◌, arith, length, ◌==◌, if◌then◌else◌,
}
use warpyard.Stream.{Stream}
use warpyard.Stream.Handler.{got, ◌>>=◌, ◌>>◌, give, rq_wait, read16, skip}
use warpyard.Stream.Handler.Resumes.{>>=-got, rq_wait-got, skip-got, read-got}
use warpyard.Messages.Wire.{update_request}
use warpyard.Inflator.{Pako}
use warpyard.Incoming.{Client, Effect, flips, sends, Decoders, finish, starve, after}
use warpyard.Incoming.Rects.{update_rects}
use warpyard.Incoming.Messages.{
  handle_message, flushed, read_update, begin_update, ask_update, next_message,
}
use warpyard.Incoming.GoesOn.{after-nil}
use warpyard.Incoming.MessageGoes.{busy, busy_le}
use warpyard.Incoming.Turns.{Calm, handle, handle-run, run, run-turn, next-handle, message_of}
use warpyard.Incoming.Defers.{of_update, pending_message}
use warpyard.Incoming.Pending.{
  pending_handle, pending_run, pending_run-turn, go_on_flushed, Ready, run-go_on,
}

module _ {D : Type 0} (decoders : Decoders D) {Z : Type 0} (pako : Pako Z)
    (deflate : List ℕ → Option (List ℕ)) where
  pending_handle-run :
      (c : Client D) (q : Stream)
      → c.failed ≡ false
      → 0 < length q
      → pending_handle decoders pako deflate c q
        ≡ pending_run decoders pako deflate (length q + 2) c q
  unfolding handle_message
  pending_handle-run c q well some_there =
      let turns = pending_run decoders pako deflate (length q + 2) c q in
      let nonempty : (length q == 0) ≡ false = ground (arith, some_there) in
      ap (λ b. if b then starve c q [] else if c.failed then starve c q [] else turns) nonempty
      ∙ ap (λ b. if b then starve c q [] else turns) well

  -- Where `_framebufferUpdate` finds a queue in the display, it reads the header of the update and stops;
  -- once the display is flushed, the resumed client comes to the reply it would have come to had there been
  -- no queue. It holds for a client that has not failed and does not wait already, with a message in the
  -- queue, where its call with the display pending ends without a failure, a cursor of a type that is
  -- not supported, an error or a read past what has arrived, and, if it waits for the display, does so for
  -- at least one rectangle with bytes behind the header.
  pub flushed-handle_message :
      (c : Client D) (q : Stream)
      → c.flushing ≡ false
      → c.failed ≡ false
      → 0 < length q
      → Calm (pending_handle decoders pako deflate c q)
      → Ready decoders pako deflate (pending_handle decoders pako deflate c q)
      → go_on_flushed decoders pako deflate (pending_handle decoders pako deflate c q)
        ≡ handle decoders pako deflate c q
  flushed-handle_message c q idle well some_there calm ready =
      let f = length q + 2 in
      let lt : busy c + length q < f = omega (arith, busy_le c) in
      let e : pending_handle decoders pako deflate c q ≡ pending_run decoders pako deflate f c q =
        pending_handle-run c q well some_there in
      ap (go_on_flushed decoders pako deflate) e
      ∙ run-go_on decoders pako deflate f c q idle well lt (subst Calm e calm)
          (subst (Ready decoders pako deflate) e ready)
      ∙ sym (handle-run decoders pako deflate f c q idle well some_there lt)

  -- What follows a message that is over.
  behind_update :
      (f : ℕ) (c : Client D) (more : Stream) (es : List Effect)
      → c.flushing ≡ false
      → c.failed ≡ false
      → busy c + length more < f
      → next_message (run decoders pako deflate f) (finish c more es)
        ≡ after es (handle decoders pako deflate c more)
  unfolding handle_message
  behind_update f c [] es idle well f_lt = ap (starve c []) (sym (append-nil es))
  behind_update f c (b ∷ more) es idle well f_lt =
      next-handle decoders pako deflate f
        (record { finished = true; client = c; rest = b ∷ more; effects = es }) refl idle well
        (omega arith) f_lt

  flushed_lem :
      (c : Client D) (more : Stream)
      → c.rects ≡ 0
      → c.flushing ≡ false
      → go_on_flushed decoders pako deflate
          (starve (record c { rects = 0; flushing = true }) more [])
        ≡ handle decoders pako deflate c more
  unfolding flushed
  flushed_lem c [] n idle =
      ap (λ r. starve (record c { rects = r; flushing = false }) [] []) (sym n)
      ∙ ap (λ b. starve (record c { flushing = b }) [] []) (sym idle)
  flushed_lem c (b ∷ more) n idle =
      let go = λ (d : Client D). handle decoders pako deflate d (b ∷ more) in
      let c' = record c { rects = 0; flushing = false } in
      let nonempty : (length (b ∷ more) == 0) ≡ false = ground arith in
      after-nil (flushed decoders pako deflate (record c { rects = 0; flushing = true }) (b ∷ more))
      ∙ ap (λ t. if t then starve c' (b ∷ more) [] else go c') nonempty
      ∙ ap (λ r. go (record c { rects = r; flushing = false })) (sym n)
      ∙ ap (λ t. go (record c { flushing = t })) (sym idle)

  header_lem : (padding : ℕ) (more : Stream) → read_update (0 ∷ padding ∷ 0 ∷ 0 ∷ more) 1 ≡ got 0 4
  unfolding read_update
  header_lem padding more =
      let q = 0 ∷ padding ∷ 0 ∷ 0 ∷ more in
      >>=-got (rq_wait 3 1) (λ _. skip 1 >> (read16 >>= give)) (rq_wait-got 3 1 1 q (omega arith))
      ∙ >>=-got (skip 1) (λ _. read16 >>= give) (skip-got 1 1 q (omega arith))
      ∙ >>=-got read16 give (read-got 2 2 q (omega arith))

  -- An update of no rectangles, with the display pending and with no queue.
  empty_pending :
      (c : Client D) (padding : ℕ) (more : Stream)
      → c.rects ≡ 0
      → pending_message decoders pako deflate c (0 ∷ padding ∷ 0 ∷ 0 ∷ more)
        ≡ starve (record c { rects = 0; flushing = true }) more []
  empty_pending c padding more n =
      of_update decoders pako deflate true 0 c (padding ∷ 0 ∷ 0 ∷ more) n refl
      ∙ ap
          (λ a.
            ask_update (begin_update decoders pako deflate true c (0 ∷ padding ∷ 0 ∷ 0 ∷ more) a))
          (header_lem padding more)

  empty_update :
      (c : Client D) (padding : ℕ) (more : Stream)
      → c.rects ≡ 0
      → c.encoding ≡ none
      → c.enabled_continuous_updates ≡ false
      → message_of decoders pako deflate c (0 ∷ padding ∷ 0 ∷ 0 ∷ more)
        ≡ finish c more (flips ∷ sends (update_request true 0 0 c.fb_width c.fb_height) ∷ [])
  unfolding update_rects
  empty_update c padding more n begun off =
      of_update decoders pako deflate false 0 c (padding ∷ 0 ∷ 0 ∷ more) n refl
      ∙ ap
          (λ a.
            ask_update (begin_update decoders pako deflate false c (0 ∷ padding ∷ 0 ∷ 0 ∷ more) a))
          (header_lem padding more)
      ∙ ap (λ r. ask_update (finish (record c { rects = r; encoding = none }) more (flips ∷ [])))
          (sym n)
      ∙ ap (λ e. ask_update (finish (record c { encoding = e }) more (flips ∷ []))) (sym begun)
      ∙ ap
          (λ b. finish c more (
            flips
            ∷ (if not b then sends (update_request true 0 0 c.fb_width c.fb_height) ∷ [] else [])))
          off

  -- With the display pending, an update of no rectangles is forgotten. A client between updates, which has
  -- not failed, does not wait and has no continuous updates, does for the update and the bytes behind it,
  -- once it is flushed, what it does for those bytes alone: it comes to the same reply, with no request for
  -- the update. With a display that has no queue it flips and asks for the next update before that.
  pub empty_update-unasked :
      (c : Client D) (padding : ℕ) (more : Stream)
      → c.rects ≡ 0
      → c.encoding ≡ none
      → c.flushing ≡ false
      → c.failed ≡ false
      → c.enabled_continuous_updates ≡ false
      → let q = 0 ∷ padding ∷ 0 ∷ 0 ∷ more in
        (go_on_flushed decoders pako deflate (pending_handle decoders pako deflate c q)
          ≡ handle decoders pako deflate c more)
        × (handle decoders pako deflate c q
            ≡ after
                (flips ∷ sends (update_request true 0 0 c.fb_width c.fb_height) ∷ [])
                (handle decoders pako deflate c more))
  empty_update-unasked c padding more n begun idle well off = (
    ap (go_on_flushed decoders pako deflate) (
          pending_handle-run c (0 ∷ padding ∷ 0 ∷ 0 ∷ more) well (omega arith)
          ∙ ap (λ f. pending_run decoders pako deflate f c (0 ∷ padding ∷ 0 ∷ 0 ∷ more))
              {y = suc (length more + 5)} (omega arith)
          ∙ pending_run-turn decoders pako deflate (length more + 5) c _ idle
          ∙ ap (next_message (pending_run decoders pako deflate (length more + 5)))
              (empty_pending c padding more n))
        ∙ flushed_lem c more n idle,
    handle-run decoders pako deflate (length more + 6) c (0 ∷ padding ∷ 0 ∷ 0 ∷ more) idle well
          (omega arith) (omega (arith, busy_le c))
        ∙ ap (λ f. run decoders pako deflate f c (0 ∷ padding ∷ 0 ∷ 0 ∷ more))
            {y = suc (length more + 5)} (omega arith)
        ∙ run-turn decoders pako deflate (length more + 5) c _ idle
        ∙ ap (next_message (run decoders pako deflate (length more + 5)))
            (empty_update c padding more n begun off)
        ∙ behind_update (length more + 5) c more
            (flips ∷ sends (update_request true 0 0 c.fb_width c.fb_height) ∷ []) idle well
            (omega (arith, busy_le c)),
  )
