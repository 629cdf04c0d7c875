-- ===== src/Decoders/Raw.antt =====
-- decoders/raw.js: rows of pixels as they are.
use warpyard.Base.{
  ℕ, zero, suc, ◌+◌, ◌-◌, ◌*◌, ◌/◌, ◌%◌, ◌^◌, ◌≤◌, ◌<◌, bit_and, true, false, ◌&&◌, ◌||◌, none,
  some, List, [], ◌∷◌, ◌++◌, ◌≡◌, refl, sym, ap, subst, ◌∙◌, ◌≢◌, inl, inr, arith, length,
  length-drop, set, get_or, take, drop, drop-drop, ltb, leb, length-set, get_or-set, ◌==◌,
  if◌then◌else◌, Bool-cases,
}
use warpyard.Stream.{Stream, wait, shift_bytes}
use warpyard.Stream.More.{wait-append, shift_bytes-some, take-more, drop-more, wait-le, wait-drop}
use warpyard.Decoders.{Rect, Call, blit_image, Outcome, underflow, finish, starve, after}
use warpyard.Decoders.Feed.{
  go_on, feed, join, feed-join, go_on-after, after-nil, Shrinks, after-Shrinks, if-Shrinks, Decoder,
}

mul-suc_left : (n b : ℕ) → suc n * b ≡ b + n * b
mul-suc_left n b = grind arith

-- The three two-bit channels of an 8-bit pixel, spread to four bytes.
unfoldable pub convert_8bit : List ℕ → List ℕ
convert_8bit [] = []
convert_8bit (b ∷ bs) =
    bit_and (b / 2 ^ 0) 0x3 * 255 / 3
    ∷ bit_and (b / 2 ^ 2) 0x3 * 255 / 3
    ∷ bit_and (b / 2 ^ 4) 0x3 * 255 / 3
    ∷ 255
    ∷ convert_8bit bs

-- "Max sure the image is fully opaque": the loop at pixel `i`, with `left` to go.
unfoldable pub make_opaque : ℕ → ℕ → List ℕ → List ℕ
make_opaque zero i pixels = pixels
make_opaque (suc left) i pixels = make_opaque left (i + 1) (set pixels (i * 4 + 3) 255)

-- One row, as it is given to the display.
unfoldable pub row : ℕ → ℕ → List ℕ → List ℕ
unfolding convert_8bit make_opaque
row width depth bytes = make_opaque width 0 (if depth == 8 then convert_8bit bytes else bytes)

abbrev pub bytes_per_line : Rect → ℕ → ℕ
bytes_per_line r depth = r.width * (if depth == 8 then 1 else 4)

module _ (r : Rect) (depth : ℕ) where
  -- The loop on `_lines`, the rows still to come.
  unfoldable pub decode_lines : ℕ → Stream → Outcome ℕ
  decode_lines zero q = finish 0 q []
  decode_lines (suc lines) q =
      if wait q (bytes_per_line r depth)
      then starve (suc lines) q []
      else elim (shift_bytes (bytes_per_line r depth) q) [
        | none ↦ underflow
        | some (bytes, q') ↦
            let cur_y = r.y + (r.height - suc lines) in
            let call = blit_image r.x cur_y r.width 1 (row r.width depth bytes) in
            after (call ∷ []) (decode_lines lines q')
      ]

  unfoldable pub decode_rect : ℕ → Stream → Outcome ℕ
  decode_rect lines q =
      if r.width == 0 || r.height == 0
      then finish lines q []
      else decode_lines (if lines == 0 then r.height else lines) q

  -- A row that has arrived is drawn, whatever follows it.
  line_arrived :
      (lines : ℕ) (q : Stream)
      → wait q (bytes_per_line r depth) ≡ false
      → decode_lines (suc lines) q
        ≡ after
            (blit_image r.x
                (r.y + (r.height - suc lines))
                r.width
                1
                (row r.width depth (take (bytes_per_line r depth) q))
              ∷ [])
            (decode_lines lines (drop (bytes_per_line r depth) q))
  unfolding decode_lines
  line_arrived lines q h = rw (h, shift_bytes-some (bytes_per_line r depth) q h)

  line_missing :
      (lines : ℕ) (q : Stream)
      → wait q (bytes_per_line r depth) ≡ true
      → decode_lines (suc lines) q ≡ starve (suc lines) q []
  unfolding decode_lines
  line_missing lines q h = rw h

  -- On a rectangle that is not empty a call with rows left goes into the loop.
  resume_lines :
      (lines : ℕ) (q : Stream)
      → (r.width == 0 || r.height == 0) ≡ false
      → decode_rect (suc lines) q ≡ decode_lines (suc lines) q
  unfolding decode_rect
  resume_lines lines q h = let nz : (suc lines == 0) ≡ false = ground arith in rw (h, nz)

  decode_lines_resumes :
      (lines : ℕ) (q more : Stream)
      → (r.width == 0 || r.height == 0) ≡ false
      → decode_lines lines (q ++ more) ≡ go_on decode_rect (decode_lines lines q) more
  decode_lines_resumes zero q more h = unfold decode_lines in refl
  decode_lines_resumes (suc lines) q more h = elim (Bool-cases (wait q (bytes_per_line r depth))) [
    | inl e ↦ rw (line_missing lines q e) (
        sym (resume_lines lines (q ++ more) h)
        ∙ sym (after-nil (decode_rect (suc lines) (q ++ more))))
    | inr e ↦ rw (
      line_arrived lines q e,
      line_arrived lines (q ++ more) (wait-append q more _ e),
      take-more _ q more e,
      drop-more _ q more e,
      go_on-after,
      decode_lines_resumes lines (drop (bytes_per_line r depth) q) more h,
    )
  ]

  pub decode_rect_resumes :
      (lines : ℕ) (q more : Stream)
      → decode_rect lines (q ++ more) ≡ go_on decode_rect (decode_rect lines q) more
  decode_rect_resumes lines q more = elim (Bool-cases (r.width == 0 || r.height == 0)) [
    | inl e ↦ unfold decode_rect in rw e
    | inr e ↦
        opened (q ++ more) e
        ∙ decode_lines_resumes _ q more e
        ∙ ap (λ o. go_on decode_rect o more) (sym (opened q e))
  ]
    where
      opened :
          (p : Stream)
          → (r.width == 0 || r.height == 0) ≡ false
          → decode_rect lines p ≡ decode_lines (if lines == 0 then r.height else lines) p
      opened p e = unfold decode_rect in rw e

  decode_lines-Shrinks : (lines : ℕ) (q : Stream) → Shrinks (decode_lines lines q) (length q)
  unfolding decode_lines
  decode_lines-Shrinks zero q = omega arith
  decode_lines-Shrinks (suc lines) q =
      let bytes = bytes_per_line r depth in
      elim (Bool-cases (wait q bytes)) [
        | inl e ↦ rw e (omega arith)
        | inr e ↦ rw (line_arrived lines q e) (
            after-Shrinks
              (blit_image r.x (r.y + (r.height - suc lines)) r.width 1
                  (row r.width depth (take bytes q))
                ∷ [])
              (decode_lines lines (drop bytes q)) (length (drop bytes q)) (length q)
              (omega (arith, length-drop bytes q)) (decode_lines-Shrinks lines (drop bytes q)))
      ]

  pub decode_rect-Shrinks : (lines : ℕ) (q : Stream) → Shrinks (decode_rect lines q) (length q)
  unfolding decode_rect
  decode_rect-Shrinks lines q =
      if-Shrinks (r.width == 0 || r.height == 0) (finish lines q []) _ (length q) (omega arith)
        (decode_lines-Shrinks (if lines == 0 then r.height else lines) q)

  abbrev pub decoder : Decoder ℕ
  decoder = record {
    decode = decode_rect;
    resumes = decode_rect_resumes;
    shrinks = decode_rect-Shrinks;
  }

  -- `RawDecoder` fed in parts, cut at whatever bytes, with `decodeRect` called again for each part, makes
  -- the calls of the display and gives the answer or error, and leaves the state and the bytes, that
  -- one call with all the bytes does.
  pub raw_join :
      (s : ℕ) (q : Stream) (qs : List Stream)
      → feed decoder (decode_rect s q) qs ≡ decode_rect s (q ++ join qs)
  raw_join = feed-join decoder

  -- The rows of a rectangle from its `lines`-th last on.
  abbrev row_calls : ℕ → Stream → List Call
  row_calls zero q = []
  row_calls (suc lines) q =
      blit_image r.x (r.y + (r.height - suc lines)) r.width 1
        (row r.width depth (take (bytes_per_line r depth) q))
      ∷ row_calls lines (drop (bytes_per_line r depth) q)

  decode_lines_lem :
      (lines : ℕ) (q : Stream)
      → wait q (lines * bytes_per_line r depth) ≡ false
      → decode_lines lines q
        ≡ finish 0 (drop (lines * bytes_per_line r depth) q) (row_calls lines q)
  decode_lines_lem zero q h =
      let z : 0 * bytes_per_line r depth ≡ 0 = omega arith in rw z (unfold decode_lines in refl)
  decode_lines_lem (suc lines) q h =
      let b = bytes_per_line r depth in
      let e : suc lines * b ≡ b + lines * b = mul-suc_left lines b in
      let h' : wait q (b + lines * b) ≡ false = subst (λ n. wait q n ≡ false) e h in
      let one = wait-le b (b + lines * b) q (omega arith) h' in
      rw (
        line_arrived lines q one,
        decode_lines_lem lines (drop b q) (wait-drop b (lines * b) q h'),
        drop-drop (lines * b) b q,
        e,
      )

  -- A rectangle that is not empty and has all its bytes there is drawn row by row from the top, each
  -- row from its own bytes, and exactly those bytes are taken.
  pub raw_complete :
      (q : Stream)
      → (r.width == 0 || r.height == 0) ≡ false
      → r.height * bytes_per_line r depth ≤ length q
      → decode_rect 0 q
        ≡ finish 0 (drop (r.height * bytes_per_line r depth) q) (row_calls r.height q)
  unfolding decode_rect
  raw_complete q h enough = rw h (decode_lines_lem r.height q (ground arith))

-- The bytes of a row before and after `make_opaque`.
make_opaque_lem :
    (left i k : ℕ) (p : List ℕ)
    → (i + left) * 4 ≤ length p
    → get_or (make_opaque left i p) k 0
      ≡ (if (k % 4 == 3) && (leb i (k / 4) && ltb (k / 4) (i + left)) then 255 else get_or p k 0)
unfolding make_opaque
make_opaque_lem zero i k p h = ground arith
make_opaque_lem (suc left) i k p h =
    let p' : List ℕ = set p (i * 4 + 3) 255 in
    let wide : (i + 1 + left) * 4 ≤ length p' = omega (arith, length-set p (i * 4 + 3) 255) in
    make_opaque_lem left (i + 1) k p' wide
    ∙ ground (arith, get_or-set p (i * 4 + 3) k 255 0 (omega arith))

-- A row of `width` pixels of four bytes, at a depth other than 8, as it is drawn: the fourth byte of
-- each pixel is 255, and the others are as they arrived.
pub row-get_or :
    (width depth k : ℕ) (bytes : List ℕ)
    → depth ≢ 8
    → width * 4 ≤ length bytes
    → k < width * 4
    → get_or (row width depth bytes) k 0 ≡ (if k % 4 == 3 then 255 else get_or bytes k 0)
unfolding row
row-get_or width depth k bytes ne long h =
    let raw : (depth == 8) ≡ false = ground arith in
    rw raw (make_opaque_lem width 0 k bytes (omega arith) ∙ ground arith)
