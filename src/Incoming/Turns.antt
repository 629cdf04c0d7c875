-- ===== src/Incoming/Turns.antt =====
-- The loop of `_handleMessage` of rfb.js and its turns.
use warpyard.Base.{
  ℕ, zero, suc, ◌+◌, ◌≤◌, ◌<◌, Bool, true, false, not, ◌&&◌, Option, List, [], ◌++◌, length, All,
  ◌==◌, if◌then◌else◌, Bool-cases, inl, inr, ◌⊎◌, ◌≡◌, refl, sym, ap, subst, ◌∙◌, arith,
}
use warpyard.Stream.{Stream}
use warpyard.Inflator.{Pako}
use warpyard.Incoming.{
  Client, Effect, Handled, Reply, returns, closes, breaks, spins, Decoders, after, starve,
}
use warpyard.Incoming.Kept.{IsCalm}
use warpyard.Incoming.Messages.{next_message, messages, handle_message}
use warpyard.Incoming.GoesOn.{Goes, after-after, IsCalm-left, IsCalm-right}
use warpyard.Incoming.TypeGoes.{message-Goes}
use warpyard.Incoming.MessageGoes.{busy, Turn, busy_le, message}

pub some_or_none : (n : ℕ) → (0 < n) ⊎ (n ≡ 0)
some_or_none zero = inr refl
some_or_none (suc n) = inl (omega arith)

module _ {D : Type 0} where
  -- No failure, no cursor of a type that is not supported and no error.
  abbrev pub Calm : Reply D → Type 0
  Calm (returns r) = All IsCalm r.effects
  Calm closes = ⊥
  Calm breaks = ⊥
  Calm spins = ⊥

  -- The loop did not run out of its fuel.
  abbrev pub Ends : Reply D → Type 0
  Ends spins = ⊥
  Ends _ = Unit {0}

  Ends-after : (es : List Effect) (o : Reply D) → Ends o → Ends (after es o)
  Ends-after es (returns r) ends = tt
  Ends-after es closes ends = tt
  Ends-after es breaks ends = tt
  Ends-after es spins ends = ends

  pub Calm-after_left : (es : List Effect) (o : Reply D) → Calm (after es o) → All IsCalm es
  Calm-after_left es (returns r) calm = IsCalm-left es r.effects calm
  Calm-after_left es closes calm = absurd calm
  Calm-after_left es breaks calm = absurd calm
  Calm-after_left es spins calm = absurd calm

  pub Calm-after_right : (es : List Effect) (o : Reply D) → Calm (after es o) → Calm o
  Calm-after_right es (returns r) calm = IsCalm-right es r.effects calm
  Calm-after_right es closes calm = absurd calm
  Calm-after_right es breaks calm = absurd calm
  Calm-after_right es spins calm = absurd calm

  pub next_message-goes :
      (loop : Client D → Stream → Reply D) (r : Handled D)
      → r.finished ≡ true
      → 0 < length r.rest
      → next_message loop (returns r) ≡ after r.effects (loop r.client r.rest)
  next_message-goes loop r t some_left =
      let nonempty : (length r.rest == 0) ≡ false = ground (arith, some_left) in
      ap
        (λ b.
          if b && not (length r.rest == 0)
          then after r.effects (loop r.client r.rest)
          else starve r.client r.rest r.effects)
        t
      ∙ ap
          (λ b.
            if not b
            then after r.effects (loop r.client r.rest)
            else starve r.client r.rest r.effects)
          nonempty

  pub next_message-stops :
      (loop : Client D → Stream → Reply D) (r : Handled D)
      → (r.finished ≡ false) ⊎ (length r.rest ≡ 0)
      → next_message loop (returns r) ≡ starve r.client r.rest r.effects
  next_message-stops loop r stop = by_both r.finished (length r.rest == 0) (empty stop)
    where
      empty :
          (r.finished ≡ false) ⊎ (length r.rest ≡ 0)
          → (r.finished ≡ false) ⊎ ((length r.rest == 0) ≡ true)
      empty (inl f) = inl f
      empty (inr e) = inr (ground (arith, e))

      by_both :
          (a b : Bool)
          → (a ≡ false) ⊎ (b ≡ true)
          → (if a && not b
              then after r.effects (loop r.client r.rest)
              else starve r.client r.rest r.effects)
            ≡ starve r.client r.rest r.effects
      by_both false b s = refl
      by_both true true s = refl
      by_both true false (inl f) = absurd (cc f)
      by_both true false (inr t) = absurd (cc t)

  pub next_message-after :
      (loop : Client D → Stream → Reply D) (es : List Effect) (o : Reply D)
      → next_message loop (after es o) ≡ after es (next_message loop o)
  next_message-after loop es (returns r) = by_goes (r.finished && not (length r.rest == 0))
    where
      by_goes :
          (b : Bool)
          → (if b
              then after (es ++ r.effects) (loop r.client r.rest)
              else starve r.client r.rest (es ++ r.effects))
            ≡ after es (
                if b
                then after r.effects (loop r.client r.rest)
                else starve r.client r.rest r.effects)
      by_goes true = sym (after-after es r.effects (loop r.client r.rest))
      by_goes false = refl
  next_message-after loop es closes = refl
  next_message-after loop es breaks = refl
  next_message-after loop es spins = refl

module _ {D : Type 0} (decoders : Decoders D) {Z : Type 0} (pako : Pako Z)
    (deflate : List ℕ → Option (List ℕ)) where
  abbrev pub handle : Client D → Stream → Reply D
  handle = handle_message decoders pako deflate false

  -- The loop with so many turns.
  abbrev pub run : ℕ → Client D → Stream → Reply D
  run fuel = messages decoders pako deflate fuel false

  abbrev pub message_of : Client D → Stream → Reply D
  message_of = message decoders pako deflate

  abbrev pub MessageGoes : Client D → Stream → Stream → Reply D → Reply D → Type 0
  MessageGoes c q more a out = Goes (Turn c q) message_of 0 c q more a out

  pub run-turn :
      (f : ℕ) (c : Client D) (q : Stream)
      → c.flushing ≡ false
      → run (suc f) c q ≡ next_message (run f) (message_of c q)
  unfolding messages
  run-turn f c q idle =
      ap (λ b. if b then starve c q [] else next_message (run f) (message_of c q)) idle

  -- Two loops that do the same with what a message leaves.
  same_next :
      (loop loop' : Client D → Stream → Reply D) (c : Client D) (q : Stream)
      → ((c' : Client D) (q' : Stream)
          → c'.flushing ≡ c.flushing
          → busy c' + (length q' + 1) ≤ busy c + length q
          → loop c' q' ≡ loop' c' q')
      → (o out : Reply D) → MessageGoes c q [] o out
      → next_message loop o ≡ next_message loop' o
  same_next loop loop' c q same (returns r) out turn =
      by_goes (Bool-cases r.finished) (some_or_none (length r.rest))
    where
      by_goes :
          (r.finished ≡ true) ⊎ (r.finished ≡ false)
          → (0 < length r.rest) ⊎ (length r.rest ≡ 0)
          → next_message loop (returns r) ≡ next_message loop' (returns r)
      by_goes (inl t) (inl some_left) =
          next_message-goes loop r t some_left
          ∙ ap (after r.effects) (same r.client r.rest turn.flushing (turn.said.0 t))
          ∙ sym (next_message-goes loop' r t some_left)
      by_goes (inl t) (inr e) =
          next_message-stops loop r (inr e) ∙ sym (next_message-stops loop' r (inr e))
      by_goes (inr f) e =
          next_message-stops loop r (inl f) ∙ sym (next_message-stops loop' r (inl f))
  same_next loop loop' c q same closes out turn = refl
  same_next loop loop' c q same breaks out turn = refl
  same_next loop loop' c q same spins out turn = refl

  turns_same :
      (f g : ℕ) (c : Client D) (q : Stream)
      → c.flushing ≡ false
      → busy c + length q < f
      → busy c + length q < g
      → run f c q ≡ run g c q
  turns_same zero g c q idle f_lt g_lt = absurd (omega (arith, f_lt))
  turns_same (suc f) zero c q idle f_lt g_lt = absurd (omega (arith, g_lt))
  turns_same (suc f) (suc g) c q idle f_lt g_lt =
      run-turn f c q idle
      ∙ same_next (run f) (run g) c q
          (λ c' q' e le. turns_same f g c' q' (e ∙ idle) (omega (arith, le)) (omega (arith, le)))
          (message_of c q) (message_of c (q ++ [])) (message-Goes decoders pako deflate c q [])
      ∙ sym (run-turn g c q idle)

  next_message-Ends :
      (loop : Client D → Stream → Reply D) (c : Client D) (q : Stream)
      → ((c' : Client D) (q' : Stream)
          → c'.flushing ≡ c.flushing
          → busy c' + (length q' + 1) ≤ busy c + length q
          → Ends (loop c' q'))
      → (o out : Reply D) → MessageGoes c q [] o out
      → Ends (next_message loop o)
  next_message-Ends loop c q ends (returns r) out turn =
      by_goes (Bool-cases r.finished) (some_or_none (length r.rest))
    where
      by_goes :
          (r.finished ≡ true) ⊎ (r.finished ≡ false)
          → (0 < length r.rest) ⊎ (length r.rest ≡ 0)
          → Ends (next_message loop (returns r))
      by_goes (inl t) (inl some_left) = subst Ends (sym (next_message-goes loop r t some_left)) (
          Ends-after r.effects (loop r.client r.rest)
            (ends r.client r.rest turn.flushing (turn.said.0 t)))
      by_goes (inl t) (inr e) = subst Ends (sym (next_message-stops loop r (inr e))) tt
      by_goes (inr f) e = subst Ends (sym (next_message-stops loop r (inl f))) tt
  next_message-Ends loop c q ends closes out turn = tt
  next_message-Ends loop c q ends breaks out turn = tt
  next_message-Ends loop c q ends spins out turn = turn

  run-Ends :
      (f : ℕ) (c : Client D) (q : Stream)
      → c.flushing ≡ false
      → busy c + length q < f
      → Ends (run f c q)
  run-Ends zero c q idle f_lt = absurd (omega (arith, f_lt))
  run-Ends (suc f) c q idle f_lt = subst Ends (sym (run-turn f c q idle)) (
      next_message-Ends (run f) c q (λ c' q' e le. run-Ends f c' q' (e ∙ idle) (omega (arith, le)))
        (message_of c q) (message_of c (q ++ [])) (message-Goes decoders pako deflate c q []))

  -- The loop of `_handleMessage` ends by itself: with more turns than there are bytes in the queue, and
  -- one more inside an update, it does not run out of turns, and the reply does not depend on how many
  -- more there are. It holds for a client that does not wait for the display, with a display that has no
  -- queue.
  pub enough_turns :
      (f g : ℕ) (c : Client D) (q : Stream)
      → c.flushing ≡ false
      → busy c + length q < f
      → busy c + length q < g
      → Ends (run f c q) × (run f c q ≡ run g c q)
  enough_turns f g c q idle f_lt g_lt =
      (run-Ends f c q idle f_lt, turns_same f g c q idle f_lt g_lt)

  -- `_handleMessage` is the loop, where it gets to it.
  pub handle-run :
      (f : ℕ) (c : Client D) (q : Stream)
      → c.flushing ≡ false
      → c.failed ≡ false
      → 0 < length q
      → busy c + length q < f
      → handle c q ≡ run f c q
  unfolding handle_message
  handle-run f c q idle well some_left f_lt =
      let nonempty : (length q == 0) ≡ false = ground (arith, some_left) in
      ap
        (λ b.
          if b then starve c q [] else if c.failed then starve c q [] else run (length q + 2) c q)
        nonempty
      ∙ ap (λ b. if b then starve c q [] else run (length q + 2) c q) well
      ∙ turns_same (length q + 2) f c q idle (omega (arith, busy_le c)) f_lt

  -- After a message the loop does what a call of its own would.
  pub next-handle :
      (f : ℕ) (r : Handled D)
      → r.finished ≡ true
      → r.client.flushing ≡ false
      → r.client.failed ≡ false
      → 0 < length r.rest
      → busy r.client + length r.rest < f
      → next_message (run f) (returns r) ≡ after r.effects (handle r.client r.rest)
  next-handle f r t idle well some_left f_lt =
      next_message-goes (run f) r t some_left
      ∙ ap (after r.effects) (sym (handle-run f r.client r.rest idle well some_left f_lt))
