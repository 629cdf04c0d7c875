-- ===== src/Incoming/GoesOn.antt =====
-- A part of `_normalMsg` of rfb.js called again when more bytes have arrived: what is said of it,
-- and how the parts are put together.
use warpyard.Base.{
  ℕ, ◌+◌, ◌≤◌, Bool, true, false, List, [], ◌∷◌, ◌++◌, append_assoc, ◌≡◌, refl, sym, ap, subst, ◌∙◌,
  arith, length, length-drop, drop, drop-append_le, All,
}
use warpyard.Stream.{Stream}
use warpyard.Stream.Handler.{Answer, waits, fault, got}
use warpyard.Stream.Handler.Resumes.{Same}
use warpyard.Incoming.{
  Client, Effect, Done, Handled, Reply, returns, closes, breaks, spins, reply, after,
}
use warpyard.Incoming.Kept.{IsCalm, Proper}

pub after-nil : {D : Type 0} (o : Reply D) → after [] o ≡ o
after-nil (returns r) = refl
after-nil closes = refl
after-nil breaks = refl
after-nil spins = refl

pub after-after :
    {D : Type 0} (es fs : List Effect) (o : Reply D) → after es (after fs o) ≡ after (es ++ fs) o
after-after es fs (returns r) =
    ap (λ l. returns (record r { effects = l })) (sym (append_assoc es fs r.effects))
after-after es fs closes = refl
after-after es fs breaks = refl
after-after es fs spins = refl

-- Of the effects together and of each part.
pub IsCalm-left : (es fs : List Effect) → All IsCalm (es ++ fs) → All IsCalm es
IsCalm-left [] fs h = tt
IsCalm-left (e ∷ es) fs h = (h.0, IsCalm-left es fs h.1)

pub IsCalm-right : (es fs : List Effect) → All IsCalm (es ++ fs) → All IsCalm fs
IsCalm-right [] fs h = h
IsCalm-right (e ∷ es) fs h = IsCalm-right es fs h.1

module _ {D : Type 0} where
  -- `out` is what comes with more bytes: the same if it was finished; or else, unless there was a failure,
  -- what follows from where it stopped.
  abbrev pub Follows : (Client D → Stream → Reply D) → Bool → Handled D → Stream → Reply D → Type 0
  Follows h true r more out = out ≡ returns (record r { rest = r.rest ++ more })
  Follows h false r more out =
      All IsCalm r.effects → out ≡ after r.effects (h r.client (r.rest ++ more))

  -- `taken` bytes at least are taken by a part that is finished; `T` is what else is said of a return.
  pub record GoesOn (T : Handled D → Type 0) (h : Client D → Stream → Reply D) (taken : ℕ)
      (c : Client D) (q more : Stream) (r : Handled D) (out : Reply D) : Type 0 where
    pub follows : Follows h r.finished r more out
    pub flushing : r.client.flushing ≡ c.flushing
    pub failed : All IsCalm r.effects → r.client.failed ≡ c.failed
    pub shorter : r.finished ≡ true → length r.rest + taken ≤ length q
    pub left : length r.rest ≤ length q
    pub said : T r

  abbrev pub Goes :
      (Handled D → Type 0)
      → (Client D → Stream → Reply D)
      → ℕ
      → Client D
      → Stream
      → Stream
      → Reply D
      → Reply D
      → Type 0
  Goes T h taken c q more (returns r) out = GoesOn T h taken c q more r out
  Goes T h taken c q more closes out = out ≡ closes
  Goes T h taken c q more breaks out = Unit {0}
  Goes T h taken c q more spins out = ⊥

  -- The rectangle that was begun stays the one to go on with.
  abbrev pub Stays : Client D → Handled D → Type 0
  Stays c r = (r.client.rects ≡ c.rects) × (r.client.encoding ≡ c.encoding)

  unfinished-Follows :
      (h : Client D → Stream → Reply D) (r : Handled D) (more : Stream) (out : Reply D) (b : Bool)
      → r.finished ≡ b
      → (b ≡ true → out ≡ returns (record r { rest = r.rest ++ more }))
      → (b ≡ false → All IsCalm r.effects → out ≡ after r.effects (h r.client (r.rest ++ more)))
      → Follows h b r more out
  unfinished-Follows h r more out true e t f = t refl
  unfinished-Follows h r more out false e t f = f refl

  -- A handler's answers, at the place `i` of its queue, with `h` what goes on from there.
  pub reply-Goes :
      (h : Client D → Stream → Reply D) (c : Client D) (q more : Stream) (i : ℕ)
      (a out : Answer (Done D))
      → Same (Unit {0}) (Proper c) i q a out
      → h c (q ++ more) ≡ reply c (q ++ more) out
      → Goes (Stays c) h i c q more (reply c q a) (reply c (q ++ more) out)
  reply-Goes h c q more i (waits p) out s e = record {
    follows =
        λ calm. sym e ∙ sym (after-nil _) ∙ ap (λ l. after [] (h c (l ++ more))) (all_back p s);
    flushing = refl;
    failed = λ calm. refl;
    shorter = λ t. absurd (cc t);
    left = omega (arith, length-drop p q);
    said = (refl, refl);
  }
    where
      all_back : (p : ℕ) → p ≡ 0 → q ≡ drop p q
      all_back p z = rw z refl
  reply-Goes h c q more i fault out s e = tt
  reply-Goes h c q more i (got d j) out s e = record {
    follows =
        unfinished-Follows h _ more _ d.finished refl
          (λ t.
            ap (reply c (q ++ more)) s.0
            ∙ ap
                (λ l. returns (record {
                  finished = d.finished;
                  client = d.client;
                  rest = l;
                  effects = d.effects;
                }))
                (drop-append_le j q more s.2))
          (λ f calm. absurd (s.3.unfinished f calm));
    flushing = s.3.flushing;
    failed = s.3.failed;
    shorter = λ t. omega (arith, length-drop j q, s.1, s.2);
    left = omega (arith, length-drop j q);
    said = (s.3.rects, s.3.encoding);
  }

  -- A part that starts at a later place, with other parts' work in the state.
  pub after-Goes :
      (T : Handled D → Type 0) (h : Client D → Stream → Reply D) (m n : ℕ) (c c' : Client D)
      (q q' more : Stream) (es : List Effect) (o out : Reply D)
      → ((r : Handled D) → T r → T (record r { effects = es ++ r.effects }))
      → c'.flushing ≡ c.flushing
      → (All IsCalm es → c'.failed ≡ c.failed)
      → length q' + n ≤ length q
      → Goes T h m c' q' more o out
      → Goes T h (m + n) c q more (after es o) (after es out)
  after-Goes T h m n c c' q q' more es (returns r) out keep same_flushing same_failed le g =
      record {
        follows = after-Follows r.finished g.follows;
        flushing = g.flushing ∙ same_flushing;
        failed = λ calm.
            g.failed (IsCalm-right es r.effects calm) ∙ same_failed (IsCalm-left es r.effects calm);
        shorter = λ t. omega (arith, g.shorter t);
        left = omega (arith, g.left);
        said = keep r g.said;
      }
    where
      after-Follows :
          (b : Bool)
          → Follows h b r more out
          → Follows h b (record r { effects = es ++ r.effects }) more (after es out)
      after-Follows true e = rw e refl
      after-Follows false f =
          λ calm. ap (after es) (f (IsCalm-right es r.effects calm)) ∙ after-after es r.effects _
  after-Goes T h m n c c' q q' more es closes out keep f x le g = rw g refl
  after-Goes T h m n c c' q q' more es breaks out keep f x le g = tt
  after-Goes T h m n c c' q q' more es spins out keep f x le g = absurd g

  -- What is said of a return may come from what it takes.
  pub said-Goes :
      (T U : Handled D → Type 0) (h : Client D → Stream → Reply D) (m : ℕ) (c : Client D)
      (q more : Stream) (a out : Reply D)
      → ((r : Handled D)
          → (r.finished ≡ true → length r.rest + m ≤ length q)
          → length r.rest ≤ length q
          → T r
          → U r)
      → Goes T h m c q more a out
      → Goes U h 0 c q more a out
  said-Goes T U h m c q more (returns r) out say g = record {
    follows = g.follows;
    flushing = g.flushing;
    failed = g.failed;
    shorter = λ t. omega (arith, g.shorter t);
    left = g.left;
    said = say r g.shorter g.left g.said;
  }
  said-Goes T U h m c q more closes out say g = g
  said-Goes T U h m c q more breaks out say g = g
  said-Goes T U h m c q more spins out say g = g

  pub same-Goes :
      (T : Handled D → Type 0) (h : Client D → Stream → Reply D) (m : ℕ) (c : Client D)
      (q more : Stream) {a a' out out' : Reply D}
      → a ≡ a'
      → out ≡ out'
      → Goes T h m c q more a' out'
      → Goes T h m c q more a out
  same-Goes T h m c q more {a} {a'} {out} {out'} e e' g =
      subst (λ o. Goes T h m c q more a o) (sym e')
        (subst (λ o. Goes T h m c q more o out') (sym e) g)
