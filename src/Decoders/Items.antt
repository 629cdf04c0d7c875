-- ===== src/Decoders/Items.antt =====
-- A decoder that draws one item after another, of a number that it counts down (hextile.js, raw.js and
-- others), and waits at an item that has not arrived whole.
use warpyard.Base.{
  ℕ, zero, suc, ◌≤◌, false, List, [], ◌++◌, ◌≡◌, refl, sym, ap, ◌∙◌, arith, length, ◌==◌,
  if◌then◌else◌,
}
use warpyard.Stream.{Stream}
use warpyard.Decoders.{Call, Outcome, underflow, throws, finish, starve, after}
use warpyard.Decoders.Feed.{go_on, go_on-after, after-nil, Shrinks, after-Shrinks, if-Shrinks}

pub data Item (S : Type 0) : Type 0 where
  -- it has not arrived whole
  missing : Item S
  -- an error is thrown
  bad : Item S
  -- a read past what has arrived
  short : Item S
  got : S → List Call → Stream → Item S

-- What more bytes make of an item: nothing else, once it is there.
abbrev pub Extends : {S : Type 0} → Item S → Stream → Item S → Type 0
Extends missing more out = Unit {0}
Extends bad more out = out ≡ bad
Extends short more out = ⊥
Extends (got s cs rest) more out = out ≡ got s cs (rest ++ more)

-- An item leaves no more than so many bytes.
abbrev pub ItemLeaves : {S : Type 0} → Item S → ℕ → Type 0
ItemLeaves missing n = Unit
ItemLeaves bad n = Unit
ItemLeaves short n = Unit
ItemLeaves (got s cs rest) n = length rest ≤ n

module _ {S : Type 0} (item : ℕ → S → Stream → Item S) (total : ℕ) where
  -- The loop, with so many items to go.
  unfoldable pub loop : ℕ → S → Stream → Outcome (ℕ × S)
  loop zero s q = finish (0, s) q []
  loop (suc n) s q = elim (item (suc n) s q) [
    | missing ↦ starve (suc n, s) q []
    | bad ↦ throws
    | short ↦ underflow
    | got s' cs rest ↦ after cs (loop n s' rest)
  ]

  unfoldable pub decode : ℕ × S → Stream → Outcome (ℕ × S)
  unfolding loop
  decode (n, s) q = if n == 0 then loop total s q else loop n s q

  module _
      (stable : (n : ℕ) (s : S) (q more : Stream)
        → Extends (item n s q) more (item n s (q ++ more))) where
    resume : (n : ℕ) (s : S) (q : Stream) → decode (suc n, s) q ≡ loop (suc n) s q
    unfolding decode
    resume n s q = let nz : (suc n == 0) ≡ false = ground arith in rw nz

    abbrev one : ℕ → S → Stream → Item S → Outcome (ℕ × S)
    one n s q missing = starve (suc n, s) q []
    one n s q bad = throws
    one n s q short = underflow
    one n s q (got s' cs rest) = after cs (loop n s' rest)

    loop-one :
        (n : ℕ) (s : S) (q : Stream) (i : Item S)
        → item (suc n) s q ≡ i
        → loop (suc n) s q ≡ one n s q i
    unfolding loop
    loop-one n s q missing e = rw (loop, e)
    loop-one n s q bad e = rw (loop, e)
    loop-one n s q short e = rw (loop, e)
    loop-one n s q (got s' cs rest) e = rw (loop, e)

    item_resumes :
        (n : ℕ) (s : S) (q more : Stream) (i : Item S)
        → ((s' : S) (rest : Stream) → loop n s' (rest ++ more) ≡ go_on decode (loop n s' rest) more)
        → Extends i more (item (suc n) s (q ++ more))
        → loop (suc n) s (q ++ more) ≡ go_on decode (one n s q i) more
    item_resumes n s q more missing ih x = sym (resume n s (q ++ more)) ∙ sym (after-nil _)
    item_resumes n s q more bad ih x = loop-one n s (q ++ more) _ x
    item_resumes n s q more short ih x = absurd x
    item_resumes n s q more (got s' cs rest) ih x =
        loop-one n s (q ++ more) _ x
        ∙ ap (after cs) (ih s' rest)
        ∙ sym (go_on-after decode cs (loop n s' rest) more)

    loop_resumes :
        (n : ℕ) (s : S) (q more : Stream) → loop n s (q ++ more) ≡ go_on decode (loop n s q) more
    loop_resumes zero s q more = unfold loop in refl
    loop_resumes (suc n) s q more =
        item_resumes n s q more (item (suc n) s q) (λ s' rest. loop_resumes n s' rest more)
          (stable (suc n) s q more)
        ∙ ap (λ o. go_on decode o more) (sym (loop-one n s q (item (suc n) s q) refl))

    pub decode_resumes :
        (s : ℕ × S) (q more : Stream) → decode s (q ++ more) ≡ go_on decode (decode s q) more
    decode_resumes (zero, s) q more =
        starts (q ++ more)
        ∙ loop_resumes total s q more
        ∙ ap (λ o. go_on decode o more) (sym (starts q))
      where
        starts : (p : Stream) → decode (zero, s) p ≡ loop total s p
        starts p = unfold decode in refl
    decode_resumes (suc n, s) q more =
        resume n s (q ++ more)
        ∙ loop_resumes (suc n) s q more
        ∙ ap (λ o. go_on decode o more) (sym (resume n s q))

  module _ (eats : (n : ℕ) (s : S) (q : Stream) → ItemLeaves (item n s q) (length q)) where
    loop-Shrinks : (n : ℕ) (s : S) (q : Stream) → Shrinks (loop n s q) (length q)
    unfolding loop
    loop-Shrinks zero s q = omega arith
    loop-Shrinks (suc n) s q = with_item (item (suc n) s q) (eats (suc n) s q) (loop-Shrinks n)
      where
        with_item :
            (i : Item S)
            → ItemLeaves i (length q)
            → ((s' : S) (rest : Stream) → Shrinks (loop n s' rest) (length rest))
            → Shrinks
                (elim i as (λ _. Outcome (ℕ × S)) [
                  | missing ↦ starve (suc n, s) q []
                  | bad ↦ throws
                  | short ↦ underflow
                  | got s' cs rest ↦ after cs (loop n s' rest)
                ])
                (length q)
        with_item missing h ih = omega arith
        with_item bad h ih = tt
        with_item short h ih = tt
        with_item (got s' cs rest) h ih =
            after-Shrinks cs (loop n s' rest) (length rest) (length q) h (ih s' rest)

    pub decode-Shrinks : (s : ℕ × S) (q : Stream) → Shrinks (decode s q) (length q)
    unfolding decode
    decode-Shrinks (n, s) q =
        if-Shrinks (n == 0) (loop total s q) (loop n s q) (length q) (loop-Shrinks total s q)
          (loop-Shrinks n s q)
