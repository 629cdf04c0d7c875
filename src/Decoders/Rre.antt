-- ===== src/Decoders/Rre.antt =====
-- decoders/rre.js: a background and filled rectangles on it.
use warpyard.Base.{
  ℕ, zero, suc, ◌+◌, ◌≤◌, true, false, none, some, List, [], ◌∷◌, ◌++◌, ◌≡◌, refl, sym, ap, ◌∙◌,
  inl, inr, arith, length, drop, ◌==◌, if◌then◌else◌, Bool-cases,
}
use warpyard.Stream.{Stream, wait, shift16, shift32, shift_bytes}
use warpyard.Stream.More.{wait-append}
use warpyard.Stream.Reader.{
  Reader, ◌>>=◌, give, IsExact, shift_bytes-IsExact, shift-IsExact, give-IsExact, >>=-IsExact,
}
use warpyard.Stream.Eats.{Eats, give-Eats, shift_bytes-Eats, shift-Eats, >>=-Eats}
use warpyard.Decoders.{Rect, Call, fill_rect, Outcome, underflow, finish, starve, after}
use warpyard.Decoders.Feed.{
  go_on, feed, join, Shrinks, after-Shrinks, read-Shrinks, if-Shrinks, feed-join, go_on-after,
  Decoder, after-nil,
}

-- The four bytes of a colour and four numbers: a rectangle.
unfoldable pub read_subrect : Rect → Reader Call
read_subrect r = do
  color ← shift_bytes 4
  sx ← shift16
  sy ← shift16
  swidth ← shift16
  sheight ← shift16
  give (fill_rect (r.x + sx) (r.y + sy) swidth sheight color)

-- The number of rectangles, and the call that fills the background.
unfoldable pub read_header : Rect → Reader (ℕ × Call)
read_header r = do
  subrects ← shift32
  color ← shift_bytes 4
  give (subrects, fill_rect r.x r.y r.width r.height color)

module _ (r : Rect) where
  -- The loop on `_subrects`, the rectangles still to come.
  unfoldable pub decode_subrects : ℕ → Stream → Outcome ℕ
  decode_subrects zero q = finish 0 q []
  decode_subrects (suc subrects) q =
      if wait q (4 + 8) then starve (suc subrects) q [] else elim (read_subrect r q) [
        | none ↦ underflow
        | some (call, q') ↦ after (call ∷ []) (decode_subrects subrects q')
      ]

  unfoldable pub decode_rect : ℕ → Stream → Outcome ℕ
  decode_rect subrects q =
      if subrects == 0
      then if wait q (4 + 4) then starve 0 q [] else elim (read_header r q) [
        | none ↦ underflow
        | some (head, q') ↦ after (head.1 ∷ []) (decode_subrects head.0 q')
      ]
      else decode_subrects subrects q

  subrect-IsExact : IsExact 12 (read_subrect r)
  unfolding read_subrect
  subrect-IsExact = >>=-IsExact 4 8 (shift_bytes-IsExact 4) λ color.
      >>=-IsExact 2 6 (shift-IsExact 2) λ sx. >>=-IsExact 2 4 (shift-IsExact 2) λ sy.
        >>=-IsExact 2 2 (shift-IsExact 2)
          λ swidth. >>=-IsExact 2 0 (shift-IsExact 2) λ sheight. give-IsExact _

  header-IsExact : IsExact 8 (read_header r)
  unfolding read_header
  header-IsExact =
      >>=-IsExact 4 4 (shift-IsExact 4)
        λ subrects. >>=-IsExact 4 0 (shift_bytes-IsExact 4) λ color. give-IsExact _

  resume_subrects : (n : ℕ) (q : Stream) → decode_rect (suc n) q ≡ decode_subrects (suc n) q
  unfolding decode_rect
  resume_subrects n q = let nz : (suc n == 0) ≡ false = ground arith in rw nz

  decode_subrects_resumes :
      (n : ℕ) (q more : Stream)
      → decode_subrects n (q ++ more) ≡ go_on decode_rect (decode_subrects n q) more
  decode_subrects_resumes zero q more = unfold decode_subrects in refl
  decode_subrects_resumes (suc n) q more = elim (Bool-cases (wait q 12)) [
    | inl e ↦
        rw (missing e)
          (sym (resume_subrects n (q ++ more)) ∙ sym (after-nil (decode_rect (suc n) (q ++ more))))
    | inr e ↦
        rw (arrived q e, arrived_more e, go_on-after, decode_subrects_resumes n (drop 12 q) more)
  ]
    where
      missing : wait q 12 ≡ true → decode_subrects (suc n) q ≡ starve (suc n) q []
      missing e = unfold decode_subrects in rw e

      arrived :
          (p : Stream) (e : wait p 12 ≡ false)
          → decode_subrects (suc n) p
            ≡ after (subrect-IsExact.value p e ∷ []) (decode_subrects n (drop 12 p))
      arrived p e = unfold decode_subrects in rw (e, subrect-IsExact.reads p e)

      arrived_more :
          (e : wait q 12 ≡ false)
          → decode_subrects (suc n) (q ++ more)
            ≡ after (subrect-IsExact.value q e ∷ []) (decode_subrects n (drop 12 q ++ more))
      arrived_more e =
          unfold decode_subrects in rw (wait-append q more 12 e, subrect-IsExact.stable q more e)

  pub decode_rect_resumes :
      (n : ℕ) (q more : Stream)
      → decode_rect n (q ++ more) ≡ go_on decode_rect (decode_rect n q) more
  decode_rect_resumes (suc n) q more =
      resume_subrects n (q ++ more)
      ∙ decode_subrects_resumes (suc n) q more
      ∙ ap (λ o. go_on decode_rect o more) (sym (resume_subrects n q))
  decode_rect_resumes zero q more = elim (Bool-cases (wait q 8)) [
    | inl e ↦ rw (missing e) (sym (after-nil (decode_rect 0 (q ++ more))))
    | inr e ↦ rw (
      arrived e,
      arrived_more e,
      go_on-after,
      decode_subrects_resumes (header-IsExact.value q e).0 (drop 8 q) more,
    )
  ]
    where
      missing : wait q 8 ≡ true → decode_rect 0 q ≡ starve 0 q []
      missing e = unfold decode_rect in rw e

      arrived :
          (e : wait q 8 ≡ false)
          → decode_rect 0 q
            ≡ after
                ((header-IsExact.value q e).1 ∷ [])
                (decode_subrects (header-IsExact.value q e).0 (drop 8 q))
      arrived e = unfold decode_rect in rw (e, header-IsExact.reads q e)

      arrived_more :
          (e : wait q 8 ≡ false)
          → decode_rect 0 (q ++ more)
            ≡ after
                ((header-IsExact.value q e).1 ∷ [])
                (decode_subrects (header-IsExact.value q e).0 (drop 8 q ++ more))
      arrived_more e =
          unfold decode_rect in rw (wait-append q more 8 e, header-IsExact.stable q more e)

  subrect-Eats : Eats (read_subrect r)
  unfolding read_subrect
  subrect-Eats = >>=-Eats _ _ (shift_bytes-Eats 4) λ color. >>=-Eats _ _ (shift-Eats 2) λ sx.
      >>=-Eats _ _ (shift-Eats 2) λ sy. >>=-Eats _ _ (shift-Eats 2) λ swidth.
        >>=-Eats _ _ (shift-Eats 2)
          λ sheight. give-Eats Call (fill_rect (r.x + sx) (r.y + sy) swidth sheight color)

  header-Eats : Eats (read_header r)
  unfolding read_header
  header-Eats = >>=-Eats _ _ (shift-Eats 4) λ n.
      >>=-Eats _ _ (shift_bytes-Eats 4)
        λ color. give-Eats (ℕ × Call) (n, fill_rect r.x r.y r.width r.height color)

  decode_subrects-Shrinks : (n : ℕ) (q : Stream) → Shrinks (decode_subrects n q) (length q)
  unfolding decode_subrects
  decode_subrects-Shrinks zero q = omega arith
  decode_subrects-Shrinks (suc n) q =
      let draw : Call → Stream → Outcome ℕ = λ call q'. after (call ∷ []) (decode_subrects n q') in
      let draw_shrinks : (call : Call) (q' : Stream)
          → length q' ≤ length q
          → Shrinks (draw call q') (length q) =
        λ call q' h.
          after-Shrinks (call ∷ []) (decode_subrects n q') (length q') (length q) h
            (decode_subrects-Shrinks n q') in
      if-Shrinks (wait q 12) (starve (suc n) q []) _ (length q) (omega arith)
        (read-Shrinks (length q) (read_subrect r q) draw (subrect-Eats q) draw_shrinks)

  pub decode_rect-Shrinks : (n : ℕ) (q : Stream) → Shrinks (decode_rect n q) (length q)
  unfolding decode_rect
  decode_rect-Shrinks n q =
      let draw : ℕ × Call → Stream → Outcome ℕ =
        λ head q'. after (head.1 ∷ []) (decode_subrects head.0 q') in
      let draw_shrinks : (head : ℕ × Call) (q' : Stream)
          → length q' ≤ length q
          → Shrinks (draw head q') (length q) =
        λ head q' h.
          after-Shrinks (head.1 ∷ []) (decode_subrects head.0 q') (length q') (length q) h
            (decode_subrects-Shrinks head.0 q') in
      if-Shrinks (n == 0) _ (decode_subrects n q) (length q)
        (if-Shrinks (wait q 8) (starve 0 q []) _ (length q) (omega arith)
          (read-Shrinks (length q) (read_header r q) draw (header-Eats q) draw_shrinks))
        (decode_subrects-Shrinks n q)

  abbrev pub decoder : Decoder ℕ
  decoder = record {
    decode = decode_rect;
    resumes = decode_rect_resumes;
    shrinks = decode_rect-Shrinks;
  }

  -- `RREDecoder` fed in parts, cut at whatever bytes, with `decodeRect` called again for each part, makes
  -- the calls of the display and gives the answer or error, and leaves the state and the bytes, that
  -- one call with all the bytes does.
  pub rre_join :
      (s : ℕ) (q : Stream) (qs : List Stream)
      → feed decoder (decode_rect s q) qs ≡ decode_rect s (q ++ join qs)
  rre_join = feed-join decoder
