-- ===== src/Incoming/MessageGoes.antt =====
-- `_framebufferUpdate` and `_normalMsg` of rfb.js called again, while the display has no queue.
use warpyard.Base.{
  ℕ, suc, ◌+◌, ◌≤◌, ◌<◌, Bool, true, false, not, ◌&&◌, Option, List, [], ◌∷◌, ◌++◌, append-nil,
  append_assoc, length, ltb, ◌==◌, if◌then◌else◌, ◌≡◌, refl, sym, ap, ◌∙◌, arith,
}
use warpyard.Stream.{Stream}
use warpyard.Stream.Handler.{Handler}
use warpyard.Stream.Handler.Resumes.{Resumes}
use warpyard.Messages.Wire.{update_request}
use warpyard.Inflator.{Pako}
use warpyard.Incoming.{
  Client, Effect, sends, Done, Handled, Reply, returns, closes, breaks, spins, Decoders, after,
  reply,
}
use warpyard.Incoming.Kept.{Proper}
use warpyard.Incoming.Rects.{update_rects}
use warpyard.Incoming.Messages.{
  asked, ask_update, begin_update, framebuffer_update, by_type, normal_msg, read_update, typed,
}
use warpyard.Incoming.GoesOn.{Goes, Follows, Stays, reply-Goes, said-Goes, IsCalm-left}
use warpyard.Incoming.UpdateGoes.{go_on_update, Counts}

module _ {D : Type 0} where
  -- One more turn is to come for an update that is not finished.
  abbrev pub busy : Client D → ℕ
  busy c = if c.rects == 0 then 0 else 1

  -- What a message takes of the turns that are enough for what is in the queue.
  abbrev pub Turn : Client D → Stream → Handled D → Type 0
  Turn c q r =
      (r.finished ≡ true → busy r.client + (length r.rest + 1) ≤ busy c + length q)
      × (busy r.client + length r.rest ≤ busy c + length q)
      × (r.finished ≡ true → r.client.rects ≡ 0)

  pub busy_zero : (c : Client D) → c.rects ≡ 0 → busy c ≡ 0
  busy_zero c e = ap (λ (n : ℕ). if n == 0 then 0 else 1) e

  pub busy_one : (c : Client D) (left : ℕ) → c.rects ≡ suc left → busy c ≡ 1
  busy_one c left e = ground (arith, e)

  pub busy_le : (c : Client D) → busy c ≤ 1
  busy_le c = ground arith

  pub ask_update-after :
      (es : List Effect) (o : Reply D) → ask_update (after es o) ≡ after es (ask_update o)
  ask_update-after es (returns r) =
      ap (λ l. returns (record r { effects = l })) (append_assoc es r.effects (asked r))
  ask_update-after es closes = refl
  ask_update-after es breaks = refl
  ask_update-after es spins = refl

  pub asked_nothing : (r : Handled D) → r.finished ≡ false → r.effects ++ asked r ≡ r.effects
  asked_nothing r f =
      ap
        (λ b.
          r.effects
          ++ (if b && not r.client.enabled_continuous_updates
              then sends (update_request true 0 0 r.client.fb_width r.client.fb_height) ∷ []
              else []))
        f
      ∙ append-nil r.effects

module _ {D : Type 0} (decoders : Decoders D) {Z : Type 0} (pako : Pako Z)
    (deflate : List ℕ → Option (List ℕ)) where
  -- A message, while the display has no queue.
  abbrev pub message : Client D → Stream → Reply D
  message = normal_msg decoders pako deflate false

  abbrev of_type : ℕ → Client D → Stream → Reply D
  of_type = by_type decoders pako deflate false

  abbrev pub MessageGoes : Client D → Stream → Stream → Reply D → Reply D → Type 0
  MessageGoes c q more a out = Goes (Turn c q) message 0 c q more a out

  pub in_update :
      (c : Client D) (q : Stream)
      → 0 < c.rects
      → message c q ≡ ask_update (go_on_update decoders c q)
  unfolding normal_msg by_type framebuffer_update
  in_update c q some_left =
      let first : ltb 0 c.rects ≡ true = ground arith in
      let second : (c.rects == 0) ≡ false = ground arith in
      ap (λ b. if b then of_type 0 c q else typed of_type c q) first
      ∙ ap
          (λ b. ask_update (
            if b
            then begin_update decoders pako deflate false c q (read_update q 1)
            else update_rects decoders c.rects c q))
          second

  -- An update, from its first rectangle or from where it stopped, in a message that began at `q`.
  pub ask-Goes :
      (c c' : Client D) (q q' more : Stream) (a out : Reply D)
      → c'.flushing ≡ c.flushing
      → c'.failed ≡ c.failed
      → 1 + length q' ≤ busy c + length q
      → length q' ≤ length q
      → Goes (Counts decoders) (go_on_update decoders) 0 c' q' more a out
      → MessageGoes c q more (ask_update a) (ask_update out)
  ask-Goes c c' q q' more (returns r) out f x turn le g = record {
    follows = asked-Follows r.finished refl g.follows;
    flushing = g.flushing ∙ f;
    failed = λ calm. g.failed (IsCalm-left r.effects (asked r) calm) ∙ x;
    shorter = λ t. omega (arith, g.left);
    left = omega (arith, g.left);
    said = (
      λ t. omega (arith, busy_zero r.client (g.said.0 t), g.left),
      omega (arith, busy_le r.client, g.left),
      g.said.0,
    );
  }
    where
      asked-Follows :
          (b : Bool)
          → r.finished ≡ b
          → Follows (go_on_update decoders) b r more out
          → Follows message b (record r { effects = r.effects ++ asked r }) more (ask_update out)
      asked-Follows true t same = ap ask_update same
      asked-Follows false f same = λ calm.
          ap ask_update (same (IsCalm-left r.effects (asked r) calm))
          ∙ ask_update-after r.effects (go_on_update decoders r.client (r.rest ++ more))
          ∙ ap (after r.effects) (sym (in_update r.client (r.rest ++ more) (g.said.1 f)))
          ∙ ap (λ es. after es (message r.client (r.rest ++ more))) (sym (asked_nothing r f))
  ask-Goes c c' q q' more closes out f x turn le g = rw g refl
  ask-Goes c c' q q' more breaks out f x turn le g = tt
  ask-Goes c c' q q' more spins out f x turn le g = absurd g

  -- A message of its own.
  pub reply-Turn :
      (handler : Client D → Handler (Done D)) (c : Client D) (q more : Stream)
      → c.rects ≡ 0
      → Resumes (Unit {0}) (Proper c) (handler c) 1 0
      → 1 ≤ length q
      → message c (q ++ more) ≡ reply c (q ++ more) (handler c (q ++ more) 1)
      → MessageGoes c q more
          (reply c q (handler c q 1))
          (reply c (q ++ more) (handler c (q ++ more) 1))
  reply-Turn handler c q more n r there e =
      said-Goes (Stays c) (Turn c q) message 1 c q more (reply c q (handler c q 1))
        (reply c (q ++ more) (handler c (q ++ more) 1))
        (λ d shorter left same. (
          λ t. omega (arith, busy_zero d.client (same.0 ∙ n), shorter t),
          omega (arith, busy_zero d.client (same.0 ∙ n), left),
          λ t. same.0 ∙ n,
        ))
        (reply-Goes message c q more 1 (handler c q 1) (handler c (q ++ more) 1)
          (r.same q more (omega (arith, there))) e)
