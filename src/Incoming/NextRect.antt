-- ===== src/Incoming/NextRect.antt =====
-- What follows a rectangle in the loop of `_framebufferUpdate` of rfb.js.
use warpyard.Base.{
  ℕ, true, false, none, List, ◌++◌, ◌==◌, if◌then◌else◌, Bool-cases, inl, inr, ◌≡◌, refl, sym, ap,
  ◌∙◌,
}
use warpyard.Stream.{Stream}
use warpyard.Incoming.{Client, Effect, Handled, Reply, returns, closes, breaks, spins, after}
use warpyard.Incoming.Rects.{end_update, next_rect}
use warpyard.Incoming.Pseudo.{last_rect}
use warpyard.Incoming.GoesOn.{after-after}

module _ {D : Type 0} where
  -- What follows a rectangle that is done with.
  abbrev pub then_on : (Client D → Stream → Reply D) → ℕ → ℕ → Client D → Stream → Reply D
  then_on loop e left c q =
      if e == last_rect then end_update c q else loop (record c { rects = left; encoding = none }) q

  pub next_rect-finished :
      (loop : Client D → Stream → Reply D) (e left : ℕ) (r : Handled D)
      → r.finished ≡ true
      → next_rect loop e left (returns r) ≡ after r.effects (then_on loop e left r.client r.rest)
  next_rect-finished loop e left r t =
      ap (λ b. if b then after r.effects (then_on loop e left r.client r.rest) else returns r) t

  pub next_rect-unfinished :
      (loop : Client D → Stream → Reply D) (e left : ℕ) (r : Handled D)
      → r.finished ≡ false
      → next_rect loop e left (returns r) ≡ returns r
  next_rect-unfinished loop e left r f =
      ap (λ b. if b then after r.effects (then_on loop e left r.client r.rest) else returns r) f

  pub next_rect-after :
      (loop : Client D → Stream → Reply D) (e left : ℕ) (es : List Effect) (o : Reply D)
      → next_rect loop e left (after es o) ≡ after es (next_rect loop e left o)
  next_rect-after loop e left es (returns r) = elim (Bool-cases r.finished) [
    | inl t ↦
        next_rect-finished loop e left (record r { effects = es ++ r.effects }) t
        ∙ sym (after-after es r.effects (then_on loop e left r.client r.rest))
        ∙ ap (after es) (sym (next_rect-finished loop e left r t))
    | inr f ↦
        next_rect-unfinished loop e left (record r { effects = es ++ r.effects }) f
        ∙ ap (after es) (sym (next_rect-unfinished loop e left r f))
  ]
  next_rect-after loop e left es closes = refl
  next_rect-after loop e left es breaks = refl
  next_rect-after loop e left es spins = refl
