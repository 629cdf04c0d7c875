-- ===== src/Display/Viewport.antt =====
-- The viewport of app/static/novnc/core/display.js: `viewportChangePos`, `viewportChangeSize`,
-- `resize` and the setter of `clipViewport`. Pixel counts are integers, as the source's `Math.floor`
-- makes them; the damage that these report is left to `Damage`.
use warpyard.Base.{
  Bool, true, false, not, ◌&&◌, Option, none, some, ◌≡◌, refl, inl, inr, arith, if◌then◌else◌,
  Bool-cases,
}
use warpyard.Base.Int.{ℤ, pos, ◌+ℤ◌, ◌-ℤ◌, ◌≤ℤ◌, ltb_ℤ, int_laws, +ℤ_parts}

-- `_viewportLoc` with the size of the frame buffer and the flag.
pub record View : Type 0 where
  pub x : ℤ
  pub y : ℤ
  pub w : ℤ
  pub h : ℤ
  pub fb_width : ℤ
  pub fb_height : ℤ
  pub clip_viewport : Bool

abbrev pub geb_ℤ : ℤ → ℤ → Bool
geb_ℤ a b = not (ltb_ℤ a b)

-- "Position change" on one axis, where the viewport has its start `v` and its size `w`. The test
-- `deltaX < 0` is made for x alone.
unfoldable pub clamp_low : Bool → ℤ → ℤ → ℤ
clamp_low negative v delta = if negative && ltb_ℤ (v +ℤ delta) (pos 0) then pos 0 -ℤ v else delta

unfoldable pub clamp_high : ℤ → ℤ → ℤ → ℤ → ℤ
clamp_high v w fb delta =
    let v2 = v +ℤ w -ℤ pos 1 in
    if geb_ℤ (v2 +ℤ delta) fb then delta -ℤ (v2 +ℤ delta -ℤ fb +ℤ pos 1) else delta

unfoldable pub viewport_change_pos : ℤ → ℤ → View → View
unfolding clamp_low clamp_high
viewport_change_pos delta_x delta_y vp =
    let dx = if vp.clip_viewport then delta_x else pos 0 -ℤ vp.w in
    let dy = if vp.clip_viewport then delta_y else pos 0 -ℤ vp.h in
    let dx' = clamp_high vp.x vp.w vp.fb_width (clamp_low (ltb_ℤ dx (pos 0)) vp.x dx) in
    let dy' = clamp_high vp.y vp.h vp.fb_height (clamp_low true vp.y dy) in
    record vp { x = vp.x +ℤ dx'; y = vp.y +ℤ dy' }

abbrev pub eqb_ℤ : ℤ → ℤ → Bool
eqb_ℤ a b = not (ltb_ℤ a b) && not (ltb_ℤ b a)

unfoldable pub at_most : ℤ → ℤ → ℤ
at_most a b = if ltb_ℤ b a then b else a

-- The size asked for is `none` where an argument is undefined; it is cut to that of the frame buffer.
unfoldable pub new_size : Option (ℤ × ℤ) → View → ℤ × ℤ
unfolding at_most
new_size size vp =
    let wanted : ℤ × ℤ =
      if vp.clip_viewport
      then elim size [ some s ↦ s | none ↦ (vp.fb_width, vp.fb_height) ]
      else (vp.fb_width, vp.fb_height) in
    (at_most wanted.0 vp.fb_width, at_most wanted.1 vp.fb_height)

unfoldable pub viewport_change_size : Option (ℤ × ℤ) → View → View
unfolding viewport_change_pos new_size
viewport_change_size size vp =
    let (width, height) = new_size size vp in
    if eqb_ℤ vp.w width && eqb_ℤ vp.h height
    then vp
    else viewport_change_pos (pos 0) (pos 0) (record vp { w = width; h = height })

unfoldable pub resize : ℤ → ℤ → View → View
unfolding viewport_change_size
resize width height vp =
    viewport_change_pos (pos 0) (pos 0) (
      viewport_change_size (some (vp.w, vp.h)) (record vp { fb_width = width; fb_height = height }))

unfoldable pub set_clip_viewport : Bool → View → View
unfolding viewport_change_size
set_clip_viewport viewport vp =
    viewport_change_pos (pos 0) (pos 0)
      (viewport_change_size (some (vp.w, vp.h)) (record vp { clip_viewport = viewport }))

-- The viewport lies in the frame buffer.
pub record IsInside (vp : View) : Type 0 where
  pub left : pos 0 ≤ℤ vp.x
  pub top : pos 0 ≤ℤ vp.y
  pub right : vp.x +ℤ vp.w ≤ℤ vp.fb_width
  pub bottom : vp.y +ℤ vp.h ≤ℤ vp.fb_height

-- Its size alone fits, and its corner is not before the first pixel.
pub record FitsBuffer (vp : View) : Type 0 where
  pub left : pos 0 ≤ℤ vp.x
  pub top : pos 0 ≤ℤ vp.y
  pub wide : vp.w ≤ℤ vp.fb_width
  pub high : vp.h ≤ℤ vp.fb_height

clamp_low_lem :
    (v delta : ℤ) (negative : Bool)
    → pos 0 ≤ℤ v
    → (negative ≡ false → pos 0 ≤ℤ delta)
    → pos 0 ≤ℤ v +ℤ clamp_low negative v delta
unfolding clamp_low
clamp_low_lem v delta negative h n = elim (Bool-cases (negative && ltb_ℤ (v +ℤ delta) (pos 0))) [
  | inl e ↦ rw e (omega int_laws)
  | inr e ↦ rw e (ground (arith, +ℤ_parts v delta, n))
]

geb_ℤ-false : (a b : ℤ) → geb_ℤ a b ≡ false → a +ℤ pos 1 ≤ℤ b
geb_ℤ-false a b h = ground (arith, +ℤ_parts a (pos 1))

ltb_ℤ-false : (a b : ℤ) → ltb_ℤ a b ≡ false → b ≤ℤ a
ltb_ℤ-false a b h = ground arith

clamp_high_lem :
    (v w fb delta : ℤ)
    → pos 0 ≤ℤ v +ℤ delta
    → w ≤ℤ fb
    → (pos 0 ≤ℤ v +ℤ clamp_high v w fb delta) × (v +ℤ clamp_high v w fb delta +ℤ w ≤ℤ fb)
unfolding clamp_high
clamp_high_lem v w fb delta h fits = elim (Bool-cases (geb_ℤ (v +ℤ w -ℤ pos 1 +ℤ delta) fb)) [
  | inl e ↦ rw e (omega int_laws, omega int_laws)
  | inr e ↦ rw e (h, (let below = geb_ℤ-false (v +ℤ w -ℤ pos 1 +ℤ delta) fb e in omega int_laws))
]

-- A move: inside the frame buffer, with all but the place unchanged.
pub record IsMoved (vp out : View) : Type 0 where
  pub inside : IsInside out
  pub same_w : out.w ≡ vp.w
  pub same_h : out.h ≡ vp.h
  pub same_fb_width : out.fb_width ≡ vp.fb_width
  pub same_fb_height : out.fb_height ≡ vp.fb_height
  pub same_clip : out.clip_viewport ≡ vp.clip_viewport

-- Whatever the distance asked for, a viewport whose size fits is moved to a place inside the frame
-- buffer, and its size, the frame buffer's and the flag stay.
pub viewport_change_pos-IsMoved :
    (delta_x delta_y : ℤ) (vp : View)
    → FitsBuffer vp
    → IsMoved vp (viewport_change_pos delta_x delta_y vp)
unfolding viewport_change_pos
viewport_change_pos-IsMoved delta_x delta_y vp f = record {
  inside = record { left = hx.0; top = hy.0; right = hx.1; bottom = hy.1 };
  same_w = refl;
  same_h = refl;
  same_fb_width = refl;
  same_fb_height = refl;
  same_clip = refl;
}
  where
    dx : ℤ
    dx = if vp.clip_viewport then delta_x else pos 0 -ℤ vp.w

    dy : ℤ
    dy = if vp.clip_viewport then delta_y else pos 0 -ℤ vp.h

    lx : ℤ
    lx = clamp_low (ltb_ℤ dx (pos 0)) vp.x dx

    ly : ℤ
    ly = clamp_low true vp.y dy

    hx :
        (pos 0 ≤ℤ vp.x +ℤ clamp_high vp.x vp.w vp.fb_width lx)
        × (vp.x +ℤ clamp_high vp.x vp.w vp.fb_width lx +ℤ vp.w ≤ℤ vp.fb_width)
    hx =
        clamp_high_lem vp.x vp.w vp.fb_width lx
          (clamp_low_lem vp.x dx (ltb_ℤ dx (pos 0)) f.left (λ e. ltb_ℤ-false dx (pos 0) e)) f.wide

    hy :
        (pos 0 ≤ℤ vp.y +ℤ clamp_high vp.y vp.h vp.fb_height ly)
        × (vp.y +ℤ clamp_high vp.y vp.h vp.fb_height ly +ℤ vp.h ≤ℤ vp.fb_height)
    hy =
        clamp_high_lem vp.y vp.h vp.fb_height ly
          (clamp_low_lem vp.y dy true f.top (λ e. absurd (cc e))) f.high

pub ≤ℤ_trans : (a b c : ℤ) → a ≤ℤ b → b ≤ℤ c → a ≤ℤ c
≤ℤ_trans a b c p q = omega arith
