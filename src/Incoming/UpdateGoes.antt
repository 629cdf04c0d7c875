-- ===== src/Incoming/UpdateGoes.antt =====
-- The loop of `_framebufferUpdate` of rfb.js called again, in a rectangle or before one.
use warpyard.Base.{
  ℕ, zero, suc, ◌+◌, ◌≤◌, ◌<◌, Bool, true, false, Option, none, some, [], ◌++◌, ◌≡◌, refl, sym, ap,
  subst, ◌∙◌, arith, length, length-append, length-drop, drop, drop-append_le, All, ltb, ◌==◌,
  if◌then◌else◌,
}
use warpyard.Stream.{Stream}
use warpyard.Stream.Handler.{Answer, waits, fault, got}
use warpyard.Stream.Handler.Resumes.{Same}
use warpyard.Decoders.{Rect}
use warpyard.Incoming.{
  Client, Handled, Reply, returns, closes, breaks, spins, Decoders, after, starve,
}
use warpyard.Incoming.Kept.{IsCalm}
use warpyard.Incoming.Handlers.{read_rect-Resumes}
use warpyard.Incoming.Rects.{handle_rect, end_update, next_rect, opened, turn, update_rects}
use warpyard.Incoming.Pseudo.{read_rect, last_rect}
use warpyard.Incoming.GoesOn.{Goes, Follows, Stays, after-Goes, same-Goes, after-nil}
use warpyard.Incoming.NextRect.{then_on, next_rect-finished, next_rect-unfinished, next_rect-after}
use warpyard.Incoming.RectGoes.{handle_rect-Goes}

module _ {D : Type 0} (decoders : Decoders D) where
  -- With as many rectangles to come as the state says.
  abbrev pub go_on_update : Client D → Stream → Reply D
  go_on_update c q = update_rects decoders c.rects c q

  -- There are rectangles to come until the update is finished.
  abbrev pub Counts : Handled D → Type 0
  Counts r = (r.finished ≡ true → r.client.rects ≡ 0) × (r.finished ≡ false → 0 < r.client.rects)

  abbrev UpdateGoes : Client D → Stream → Stream → Reply D → Reply D → Type 0
  UpdateGoes c q more a out = Goes Counts go_on_update 0 c q more a out

  -- In the middle of a rectangle.
  in_rect :
      (c : Client D) (q : Stream) (left e : ℕ)
      → c.rects ≡ suc left
      → c.encoding ≡ some e
      → go_on_update c q
        ≡ next_rect (update_rects decoders left) e left (handle_rect decoders e c q)
  unfolding update_rects
  in_rect c q left e n k =
      ap (λ m. update_rects decoders m c q) n
      ∙ ap (turn decoders (update_rects decoders left) left c q) k

  end-Goes :
      (c : Client D) (q more : Stream)
      → UpdateGoes c q more (end_update c q) (end_update c (q ++ more))
  end-Goes c q more = record {
    follows = refl;
    flushing = refl;
    failed = λ calm. refl;
    shorter = λ t. omega arith;
    left = omega arith;
    said = (λ t. refl, λ t. absurd (cc t));
  }

  module _ (left : ℕ) (more : Stream)
      (rest_goes : (c : Client D) (q : Stream)
        → c.rects ≡ left
        → UpdateGoes c q more
            (update_rects decoders left c q)
            (update_rects decoders left c (q ++ more))) where
    -- From the end of a rectangle on.
    then_on-Goes :
        (e : ℕ) (c : Client D) (q : Stream) (r : Handled D)
        → r.client.flushing ≡ c.flushing
        → (All IsCalm r.effects → r.client.failed ≡ c.failed)
        → length r.rest + 0 ≤ length q
        → UpdateGoes c q more
            (after r.effects (then_on (update_rects decoders left) e left r.client r.rest))
            (after r.effects
              (then_on (update_rects decoders left) e left r.client (r.rest ++ more)))
    then_on-Goes e c q r f x le = by_last (e == last_rect)
      where
        by_last :
            (b : Bool)
            → UpdateGoes c q more
                (after r.effects (
                  if b
                  then end_update r.client r.rest
                  else update_rects decoders left
                      (record r.client { rects = left; encoding = none })
                      r.rest))
                (after r.effects (
                  if b
                  then end_update r.client (r.rest ++ more)
                  else update_rects decoders left
                      (record r.client { rects = left; encoding = none })
                      (r.rest ++ more)))
        by_last true =
            after-Goes Counts go_on_update 0 0 c r.client q r.rest more r.effects
              (end_update r.client r.rest) (end_update r.client (r.rest ++ more)) (λ s said. said) f
              x le (end-Goes r.client r.rest more)
        by_last false =
            after-Goes Counts go_on_update 0 0 c (record r.client { rects = left; encoding = none })
              q r.rest more r.effects
              (update_rects decoders left (record r.client { rects = left; encoding = none })
                r.rest)
              (update_rects decoders left (record r.client { rects = left; encoding = none })
                (r.rest ++ more))
              (λ s said. said) f x le
              (rest_goes (record r.client { rects = left; encoding = none }) r.rest refl)

    -- A rectangle and those that follow it.
    next_rect-Goes :
        (e : ℕ) (c : Client D) (q : Stream) (a out : Reply D)
        → c.rects ≡ suc left
        → c.encoding ≡ some e
        → Goes (Stays c) (handle_rect decoders e) 0 c q more a out
        → UpdateGoes c q more
            (next_rect (update_rects decoders left) e left a)
            (next_rect (update_rects decoders left) e left out)
    next_rect-Goes e c q (returns r) out n k g = by_finished r.finished refl g.follows
      where
        by_finished :
            (b : Bool)
            → r.finished ≡ b
            → Follows (handle_rect decoders e) b r more out
            → UpdateGoes c q more
                (next_rect (update_rects decoders left) e left (returns r))
                (next_rect (update_rects decoders left) e left out)
        by_finished true t same =
            same-Goes Counts go_on_update 0 c q more
              (next_rect-finished (update_rects decoders left) e left r t)
              (ap (next_rect (update_rects decoders left) e left) same
                ∙ next_rect-finished (update_rects decoders left) e left
                    (record r { rest = r.rest ++ more }) t)
              (then_on-Goes e c q r g.flushing g.failed (g.shorter t))
        by_finished false f same =
            same-Goes Counts go_on_update 0 c q more
              (next_rect-unfinished (update_rects decoders left) e left r f) refl
              record {
                follows =
                    subst
                      (λ b.
                        Follows go_on_update b r more
                          (next_rect (update_rects decoders left) e left out))
                      (sym f)
                      (λ calm.
                        ap (next_rect (update_rects decoders left) e left) (same calm)
                        ∙ next_rect-after (update_rects decoders left) e left r.effects _
                        ∙ ap (after r.effects) (
                            sym (
                              in_rect r.client (r.rest ++ more) left e (g.said.0 ∙ n)
                                (g.said.1 ∙ k))));
                flushing = g.flushing;
                failed = g.failed;
                shorter = λ t. absurd (cc (t, f));
                left = g.left;
                said = (λ t. absurd (cc (t, f)), λ _. omega (arith, g.said.0, n));
              }
    next_rect-Goes e c q closes out n k g = rw g refl
    next_rect-Goes e c q breaks out n k g = tt
    next_rect-Goes e c q spins out n k g = absurd g

    -- Before a rectangle, with its header.
    opened-Goes :
        (c : Client D) (q : Stream) (a out : Answer (Rect × ℕ))
        → c.rects ≡ suc left
        → Same ⊥ (λ (header : Rect × ℕ). Unit {0}) 0 q a out
        → UpdateGoes c q more
            (opened decoders (update_rects decoders left) left c q a)
            (opened decoders (update_rects decoders left) left c (q ++ more) out)
    opened-Goes c q (waits p) out n s = tt
    opened-Goes c q fault out n s = absurd s
    opened-Goes c q (got (rect, e) i) out n s =
        let c' = record c { rect = rect; encoding = some e } in
        let next = next_rect (update_rects decoders left) e left in
        same-Goes Counts go_on_update 0 c q more
          (sym (after-nil (next (handle_rect decoders e c' (drop i q)))))
          (ap (opened decoders (update_rects decoders left) left c (q ++ more)) s.0
            ∙ ap (λ l. next (handle_rect decoders e c' l)) (drop-append_le i q more s.2)
            ∙ sym (after-nil (next (handle_rect decoders e c' (drop i q ++ more)))))
          (after-Goes Counts go_on_update 0 0 c c' q (drop i q) more []
            (next (handle_rect decoders e c' (drop i q)))
            (next (handle_rect decoders e c' (drop i q ++ more))) (λ r said. said) refl
            (λ calm. refl) (omega (arith, length-drop i q))
            (next_rect-Goes e c' (drop i q) (handle_rect decoders e c' (drop i q))
              (handle_rect decoders e c' (drop i q ++ more)) n refl
              (handle_rect-Goes decoders c' (drop i q) more e)))

    before_rect :
        (c : Client D) (q : Stream)
        → c.rects ≡ suc left
        → c.encoding ≡ none
        → go_on_update c q ≡ turn decoders (update_rects decoders left) left c q none
    unfolding update_rects
    before_rect c q n k =
        ap (λ m. update_rects decoders m c q) n
        ∙ ap (turn decoders (update_rects decoders left) left c q) k

    header-Goes :
        (c : Client D) (q : Stream)
        → c.rects ≡ suc left
        → c.encoding ≡ none
        → UpdateGoes c q more
            (turn decoders (update_rects decoders left) left c q none)
            (turn decoders (update_rects decoders left) left c (q ++ more) none)
    header-Goes c q n k = by_length (ltb (length q) 12) refl
      where
        by_length :
            (b : Bool)
            → ltb (length q) 12 ≡ b
            → UpdateGoes c q more
                (if b
                  then starve c q []
                  else opened decoders (update_rects decoders left) left c q (read_rect q 0))
                (turn decoders (update_rects decoders left) left c (q ++ more) none)
        by_length true t = record {
          follows = λ calm.
              sym (before_rect c (q ++ more) n k) ∙ sym (after-nil (go_on_update c (q ++ more)));
          flushing = refl;
          failed = λ calm. refl;
          shorter = λ u. absurd (cc u);
          left = omega arith;
          said = (λ u. absurd (cc u), λ u. omega (arith, n));
        }
        by_length false f =
            let open_at : Stream → Reply D =
              λ l. opened decoders (update_rects decoders left) left c l (read_rect l 0) in
            let enough : ltb (length (q ++ more)) 12 ≡ false =
              ground (arith, length-append q more) in
            same-Goes Counts go_on_update 0 c q more refl
              (ap (λ b. if b then starve c (q ++ more) [] else open_at (q ++ more)) enough)
              (opened-Goes c q (read_rect q 0) (read_rect (q ++ more) 0) n
                (read_rect-Resumes.same q more (ground arith)))

    turn-Goes :
        (c : Client D) (q : Stream)
        → c.rects ≡ suc left
        → UpdateGoes c q more
            (turn decoders (update_rects decoders left) left c q c.encoding)
            (turn decoders (update_rects decoders left) left c (q ++ more) c.encoding)
    turn-Goes c q n = by_encoding c.encoding refl
      where
        by_encoding :
            (o : Option ℕ)
            → c.encoding ≡ o
            → UpdateGoes c q more
                (turn decoders (update_rects decoders left) left c q o)
                (turn decoders (update_rects decoders left) left c (q ++ more) o)
        by_encoding none k = header-Goes c q n k
        by_encoding (some e) k =
            next_rect-Goes e c q (handle_rect decoders e c q) (handle_rect decoders e c (q ++ more))
              n k (handle_rect-Goes decoders c q more e)

  -- The rectangles that are to come go on where they stopped.
  pub update_rects-Goes :
      (n : ℕ) (c : Client D) (q more : Stream)
      → c.rects ≡ n
      → Goes Counts go_on_update 0 c q more
          (update_rects decoders n c q)
          (update_rects decoders n c (q ++ more))
  unfolding update_rects
  update_rects-Goes zero c q more n = end-Goes c q more
  update_rects-Goes (suc left) c q more n =
      turn-Goes left more (λ c' q' e. update_rects-Goes left c' q' more e) c q n
