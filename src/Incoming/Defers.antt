-- ===== src/Incoming/Defers.antt =====
-- A message of rfb.js with the display pending, against one with a display that has no queue.
use warpyard.Base.{
  ℕ, ◌≤◌, ◌<◌, Bool, true, false, Option, List, [], ◌∷◌, ◌++◌, length, drop, ltb, ◌==◌, Bool-cases,
  inl, inr, ◌⊎◌, ◌≡◌, refl, sym, ◌∙◌, arith,
}
use warpyard.Stream.{Stream}
use warpyard.Stream.Handler.{Answer, waits, fault, got}
use warpyard.Stream.Handler.Resumes.{Same}
use warpyard.Inflator.{Pako}
use warpyard.Incoming.{Client, Reply, Decoders, starve}
use warpyard.Incoming.Handlers.{read_update-Resumes}
use warpyard.Incoming.Rects.{update_rects}
use warpyard.Incoming.Messages.{
  normal_msg, read_update, begin_update, framebuffer_update, by_type, ask_update,
}
use warpyard.Incoming.Turns.{some_or_none, message_of}

module _ {D : Type 0} (decoders : Decoders D) {Z : Type 0} (pako : Pako Z)
    (deflate : List ℕ → Option (List ℕ)) where
  abbrev pub pending_message : Client D → Stream → Reply D
  pending_message = normal_msg decoders pako deflate true

  abbrev pub one_message : Client D → Stream → Reply D
  one_message = message_of decoders pako deflate

  -- The header of an update of `count` rectangles, of which nothing was read.
  pub record Deferred (c : Client D) (q : Stream) : Type 0 where
    pub count : ℕ
    pub taken : ℕ
    pub some_taken : 1 ≤ taken
    pub there : taken ≤ length q
    pub waits_for_display :
        pending_message c q ≡ starve (record c { rects = count; flushing = true }) (drop taken q) []
    pub otherwise :
        one_message c q
        ≡ ask_update (update_rects decoders count (record c { rects = count }) (drop taken q))

  abbrev pub Defers : Client D → Stream → Type 0
  Defers c q = (pending_message c q ≡ one_message c q) ⊎ Deferred c q

  -- The first part of an update.
  begin-Defers :
      (c : Client D) (q : Stream) (a out : Answer ℕ)
      → pending_message c q ≡ ask_update (begin_update decoders pako deflate true c q a)
      → one_message c q ≡ ask_update (begin_update decoders pako deflate false c q a)
      → Same ⊥ (λ (n : ℕ). Unit {0}) 1 q a out
      → Defers c q
  begin-Defers c q (waits p) out e e' s = inl (e ∙ sym e')
  begin-Defers c q fault out e e' s = inl (e ∙ sym e')
  begin-Defers c q (got n i) out e e' s = inr record {
    count = n;
    taken = i;
    some_taken = s.1;
    there = s.2;
    waits_for_display = e;
    otherwise = e';
  }

  pub of_update :
      (pending : Bool) (b : ℕ) (c : Client D) (q : Stream)
      → c.rects ≡ 0
      → (b == 0) ≡ true
      → normal_msg decoders pako deflate pending c (b ∷ q)
        ≡ ask_update (begin_update decoders pako deflate pending c (b ∷ q) (read_update (b ∷ q) 1))
  unfolding normal_msg by_type framebuffer_update
  of_update pending b c q n e =
      let none_left : ltb 0 c.rects ≡ false = ground (arith, n) in
      let none_left' : (c.rects == 0) ≡ true = ground (arith, n) in
      rw none_left (rw e (rw none_left' refl))

  of_other :
      (b : ℕ) (c : Client D) (q : Stream)
      → c.rects ≡ 0
      → (b == 0) ≡ false
      → pending_message c (b ∷ q) ≡ one_message c (b ∷ q)
  unfolding normal_msg by_type
  of_other b c q n e =
      let none_left : ltb 0 c.rects ≡ false = ground (arith, n) in rw none_left (rw e refl)

  in_rects : (c : Client D) (q : Stream) → 0 < c.rects → pending_message c q ≡ one_message c q
  unfolding normal_msg by_type framebuffer_update
  in_rects c q some_left =
      let some : ltb 0 c.rects ≡ true = ground (arith, some_left) in
      let some' : (c.rects == 0) ≡ false = ground (arith, some_left) in rw some (rw some' refl)

  pub defers : (c : Client D) (q : Stream) → Defers c q
  unfolding normal_msg
  defers c q = by_rects (some_or_none c.rects) q
    where
      by_rects : (0 < c.rects) ⊎ (c.rects ≡ 0) → (q : Stream) → Defers c q
      by_rects (inl some_left) q = inl (in_rects c q some_left)
      by_rects (inr n) [] = inl (nothing n)
        where
          nothing : c.rects ≡ 0 → pending_message c [] ≡ one_message c []
          nothing n = let none_left : ltb 0 c.rects ≡ false = ground (arith, n) in rw none_left refl
      by_rects (inr n) (b ∷ q) = elim (Bool-cases (b == 0)) [
        | inl e ↦
            begin-Defers c (b ∷ q) (read_update (b ∷ q) 1) (read_update ((b ∷ q) ++ []) 1)
              (of_update true b c q n e) (of_update false b c q n e)
              (read_update-Resumes.same (b ∷ q) [] (omega arith))
        | inr e ↦ inl (of_other b c q n e)
      ]
