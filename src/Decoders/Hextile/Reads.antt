-- ===== src/Decoders/Hextile/Reads.antt =====
-- The reads of a Hextile tile (hextile.js), with and without its bytes there.
use warpyard.Base.{
  ℕ, zero, suc, ◌+◌, ◌*◌, Bool, true, false, none, some, [], ◌∷◌, ◌++◌, ◌≡◌, subst, ◌∙◌, arith,
  take, drop, get_or, if◌then◌else◌,
}
use warpyard.Stream.{Stream, wait, shift8, big_endian}
use warpyard.Stream.More.{wait-append, wait-drop, wait-le, take-more, drop-more, shift-some}
use warpyard.Stream.Reader.{
  Reader, ◌>>=◌, give, IsExact, shift_bytes-IsExact, shift-IsExact, give-IsExact, >>=-some,
  >>=-IsExact,
}
use warpyard.Decoders.Hextile.{Color, Hextile, flag, tile_bytes, read_color, read_subrects, drawn}

-- A read that succeeds at `q`, and does so whatever follows.
pub record ReadsAt {A : Type 0} (read : Reader A) (q : Stream) : Type 0 where
  pub value : A
  pub rest : Stream
  pub reads : read q ≡ some (value, rest)
  pub stable : (more : Stream) → read (q ++ more) ≡ some (value, rest ++ more)

abbrev pub exact-ReadsAt :
    {A : Type 0} (n : ℕ) (read : Reader A) (q : Stream)
    → IsExact n read
    → wait q n ≡ false
    → ReadsAt read q
exact-ReadsAt n read q e h = record {
  value = e.value q h;
  rest = drop n q;
  reads = e.reads q h;
  stable = λ more. e.stable q more h;
}

bind-ReadsAt :
    {A B : Type 0} (read : Reader A) (k : A → Reader B) (q : Stream) (p : ReadsAt read q)
    → ReadsAt (k p.value) p.rest
    → ReadsAt (read >>= k) q
bind-ReadsAt read k q p r = record {
  value = r.value;
  rest = r.rest;
  reads = >>=-some read k p.reads ∙ r.reads;
  stable = λ more. >>=-some read k (p.stable more) ∙ r.stable more;
}

abbrev pub color_bytes : Bool → ℕ
color_bytes b = if b then 4 else 0

read_color-IsExact : (b : Bool) (old : Color) → IsExact (color_bytes b) (read_color b old)
unfolding read_color
read_color-IsExact true old =
    >>=-IsExact 4 0 (shift_bytes-IsExact 4) λ color. give-IsExact (some color)
read_color-IsExact false old = give-IsExact old

abbrev pub subrect_bytes : Bool → ℕ
subrect_bytes b = if b then 6 else 2

subrect_size :
    (b : Bool) (n : ℕ)
    → color_bytes b + (1 + (1 + (n * subrect_bytes b + 0))) ≡ suc n * subrect_bytes b
subrect_size true n = omega arith
subrect_size false n = omega arith

read_subrects-IsExact : (b : Bool) (n : ℕ) → IsExact (n * subrect_bytes b) (read_subrects b n)
unfolding read_subrects
read_subrects-IsExact b zero =
    let none_left : 0 ≡ 0 * subrect_bytes b = omega arith in
    subst (λ k. IsExact k (read_subrects b 0)) none_left (give-IsExact [])
read_subrects-IsExact b (suc n) =
    let e : color_bytes b + (1 + (1 + (n * subrect_bytes b + 0))) ≡ suc n * subrect_bytes b =
      subrect_size b n in
    subst (λ k. IsExact k (read_subrects b (suc n))) e
      (>>=-IsExact (color_bytes b) (1 + (1 + (n * subrect_bytes b + 0))) (read_color-IsExact b none)
        λ color. >>=-IsExact 1 (1 + (n * subrect_bytes b + 0)) (shift-IsExact 1) λ xy.
          >>=-IsExact 1 (n * subrect_bytes b + 0) (shift-IsExact 1) λ wh.
            >>=-IsExact (n * subrect_bytes b) 0 (read_subrects-IsExact b n) λ rest. give-IsExact _)

big_endian-byte : (q : Stream) → wait q 1 ≡ false → big_endian (take 1 q) ≡ get_or q 0 0
big_endian-byte [] h = ground arith
big_endian-byte (b ∷ q) h = omega arith

abbrev shift8-ReadsAt : (q : Stream) → wait q 1 ≡ false → ReadsAt shift8 q
shift8-ReadsAt q h = record {
  value = big_endian (take 1 q);
  rest = drop 1 q;
  reads = shift-some 1 q h;
  stable = λ more. rw (
    shift-some 1 (q ++ more) (wait-append q more 1 h),
    take-more 1 q more h,
    drop-more 1 q more h,
  );
}

-- The rectangles, where the bytes for their count and then for them are there.
pub count-ReadsAt :
    (coloured : Bool) (q : Stream)
    → wait q 1 ≡ false
    → wait q (1 + get_or q 0 0 * subrect_bytes coloured) ≡ false
    → ReadsAt (shift8 >>= read_subrects coloured) q
count-ReadsAt coloured q h all =
    bind-ReadsAt shift8 (read_subrects coloured) q (shift8-ReadsAt q h) (
      exact-ReadsAt (big_endian (take 1 q) * subrect_bytes coloured)
        (read_subrects coloured (big_endian (take 1 q))) (drop 1 q)
        (read_subrects-IsExact coloured (big_endian (take 1 q)))
        (rw (big_endian-byte q h) (wait-drop 1 (get_or q 0 0 * subrect_bytes coloured) q all)))

abbrev pub IsEnough : ℕ → ℕ → Stream → Type 0
IsEnough sub pixels q = wait (sub ∷ q) (tile_bytes sub pixels (sub ∷ q)) ≡ false

pub colors-ReadsAt :
    (sub : ℕ) (h : Hextile) (q : Stream)
    → wait q (color_bytes (flag sub 0x02) + color_bytes (flag sub 0x04)) ≡ false
    → ReadsAt
        (if flag sub 0x08 then shift8 >>= read_subrects (flag sub 0x10) else give [])
        (drop (color_bytes (flag sub 0x04)) (drop (color_bytes (flag sub 0x02)) q))
    → ReadsAt
        (do
          background ← read_color (flag sub 0x02) h.background
          foreground ← read_color (flag sub 0x04) h.foreground
          subrects ← if flag sub 0x08 then shift8 >>= read_subrects (flag sub 0x10) else give []
          give (drawn background foreground subrects))
        q
colors-ReadsAt sub h q colors subs =
    let one = color_bytes (flag sub 0x02) in
    let two = color_bytes (flag sub 0x04) in
    let p =
      exact-ReadsAt one (read_color (flag sub 0x02) h.background) q
        (read_color-IsExact (flag sub 0x02) h.background)
        (wait-le one (one + two) q (omega arith) colors) in
    let r =
      exact-ReadsAt two (read_color (flag sub 0x04) h.foreground) (drop one q)
        (read_color-IsExact (flag sub 0x04) h.foreground) (wait-drop one two q colors) in
    bind-ReadsAt (read_color (flag sub 0x02) h.background) _ q p (
      bind-ReadsAt (read_color (flag sub 0x04) h.foreground) _ (drop one q) r (
        bind-ReadsAt _ (λ subrects. give (drawn p.value r.value subrects)) (drop two (drop one q))
          subs
          (exact-ReadsAt 0 (give (drawn p.value r.value subs.value)) subs.rest (give-IsExact _)
            (ground arith))))
