-- ===== src/Decoders/CopyRect.antt =====
-- decoders/copyrect.js: a rectangle copied from elsewhere on the screen.
use warpyard.Base.{
  true, false, ◌||◌, none, some, List, [], ◌∷◌, ◌++◌, ◌≡◌, sym, inl, inr, arith, length,
  length-drop, take, drop, ◌==◌, if◌then◌else◌, Bool-cases,
}
use warpyard.Stream.{Stream, wait, shift16, big_endian}
use warpyard.Stream.More.{wait-append, shift-some, take-more, drop-more, wait-drop, wait-le}
use warpyard.Decoders.{Rect, copy_image, Outcome, underflow, finish, starve}
use warpyard.Decoders.Feed.{go_on, feed, join, feed-join, Shrinks, Decoder, after-nil}

module _ (r : Rect) where
  unfoldable pub decode_rect : Unit {0} → Stream → Outcome (Unit {0})
  decode_rect u q = if wait q 4 then starve u q [] else elim (shift16 q) [
    | none ↦ underflow
    | some (delta_x, q1) ↦ elim (shift16 q1) [
      | none ↦ underflow
      | some (delta_y, q2) ↦
          if r.width == 0 || r.height == 0
          then finish u q2 []
          else finish u q2 (copy_image delta_x delta_y r.x r.y r.width r.height ∷ [])
    ]
  ]

  -- With the four bytes there the rectangle is finished by one call.
  pub copy_rect_complete :
      (u : Unit {0}) (q : Stream)
      → wait q 4 ≡ false
      → decode_rect u q
        ≡ finish u (drop 2 (drop 2 q)) (
            if r.width == 0 || r.height == 0
            then []
            else copy_image
                (big_endian (take 2 q))
                (big_endian (take 2 (drop 2 q)))
                r.x
                r.y
                r.width
                r.height
              ∷ [])
  unfolding decode_rect
  copy_rect_complete u q h =
      rw
        (
          h,
          shift-some 2 q (wait-le 2 4 q (omega arith) h),
          shift-some 2 (drop 2 q) (wait-drop 2 2 q h),
        )
        (ground arith)

  pub decode_rect_resumes :
      (u : Unit {0}) (q more : Stream)
      → decode_rect u (q ++ more) ≡ go_on decode_rect (decode_rect u q) more
  decode_rect_resumes u q more = elim (Bool-cases (wait q 4)) [
    | inl e ↦ rw (starved e) (sym (after-nil (decode_rect u (q ++ more))))
    | inr e ↦ rw (
      copy_rect_complete u q e,
      copy_rect_complete u (q ++ more) (wait-append q more 4 e),
      take-more 2 q more (wait-le 2 4 q (omega arith) e),
      drop-more 2 q more (wait-le 2 4 q (omega arith) e),
      take-more 2 (drop 2 q) more (wait-drop 2 2 q e),
      drop-more 2 (drop 2 q) more (wait-drop 2 2 q e),
    )
  ]
    where
      starved : wait q 4 ≡ true → decode_rect u q ≡ starve u q []
      starved e = unfold decode_rect in rw e

  pub decode_rect-Shrinks : (u : Unit {0}) (q : Stream) → Shrinks (decode_rect u q) (length q)
  unfolding decode_rect
  decode_rect-Shrinks u q = elim (Bool-cases (wait q 4)) [
    | inl e ↦ rw e (omega arith)
    | inr e ↦
        rw (copy_rect_complete u q e) (omega (arith, length-drop 2 q, length-drop 2 (drop 2 q)))
  ]

  abbrev pub decoder : Decoder (Unit {0})
  decoder = record {
    decode = decode_rect;
    resumes = decode_rect_resumes;
    shrinks = decode_rect-Shrinks;
  }

  -- `CopyRectDecoder` fed in parts, cut at whatever bytes, with `decodeRect` called again for each part, makes
  -- the calls of the display and gives the answer or error, and leaves the state and the bytes, that
  -- one call with all the bytes does.
  pub copy_rect_join :
      (s : Unit {0}) (q : Stream) (qs : List Stream)
      → feed decoder (decode_rect s q) qs ≡ decode_rect s (q ++ join qs)
  copy_rect_join = feed-join decoder
