-- ===== src/Display/Resize.antt =====
-- The size of the viewport of display.js: `viewportChangeSize` and `resize`.
use warpyard.Base.{Bool, true, false, ◌&&◌, Option, some, ◌≡◌, inl, inr, arith, Bool-cases}
use warpyard.Base.Int.{ℤ, pos, ◌≤ℤ◌}
use warpyard.Display.Viewport.{
  FitsBuffer, IsInside, IsMoved, View, at_most, eqb_ℤ, new_size, resize, set_clip_viewport,
  viewport_change_pos, viewport_change_pos-IsMoved, viewport_change_size, ≤ℤ_trans,
}

at_most-le : (a b : ℤ) → at_most a b ≤ℤ b
unfolding at_most
at_most-le a b = ground arith

eqb_ℤ-le : (a b : ℤ) → eqb_ℤ a b ≡ true → a ≤ℤ b
eqb_ℤ-le a b h = ground arith

new_size-le :
    (size : Option (ℤ × ℤ)) (vp : View)
    → ((new_size size vp).0 ≤ℤ vp.fb_width) × ((new_size size vp).1 ≤ℤ vp.fb_height)
unfolding new_size
new_size-le size vp = (at_most-le _ vp.fb_width, at_most-le _ vp.fb_height)

viewport_change_size-FitsBuffer :
    (size : Option (ℤ × ℤ)) (vp : View)
    → pos 0 ≤ℤ vp.x
    → pos 0 ≤ℤ vp.y
    → FitsBuffer (viewport_change_size size vp)
viewport_change_size-FitsBuffer size vp hx hy =
    elim (Bool-cases (eqb_ℤ vp.w s.0 && eqb_ℤ vp.h s.1)) [
      | inl e ↦ rw (same e) (record {
        left = hx;
        top = hy;
        wide = ≤ℤ_trans vp.w s.0 vp.fb_width (eqb_ℤ-le vp.w s.0 (ground arith)) le.0;
        high = ≤ℤ_trans vp.h s.1 vp.fb_height (eqb_ℤ-le vp.h s.1 (ground arith)) le.1;
      })
      | inr e ↦ rw (moved e) (record {
        left = m.inside.left;
        top = m.inside.top;
        wide = rw (m.same_w, m.same_fb_width) le.0;
        high = rw (m.same_h, m.same_fb_height) le.1;
      })
    ]
  where
    s : ℤ × ℤ
    s = new_size size vp

    le : (s.0 ≤ℤ vp.fb_width) × (s.1 ≤ℤ vp.fb_height)
    le = new_size-le size vp

    same : (eqb_ℤ vp.w s.0 && eqb_ℤ vp.h s.1) ≡ true → viewport_change_size size vp ≡ vp
    same e = unfold viewport_change_size in rw e

    resized : View
    resized = record vp { w = s.0; h = s.1 }

    moved :
        (eqb_ℤ vp.w s.0 && eqb_ℤ vp.h s.1) ≡ false
        → viewport_change_size size vp ≡ viewport_change_pos (pos 0) (pos 0) resized
    moved e = unfold viewport_change_size in rw e

    m : IsMoved resized (viewport_change_pos (pos 0) (pos 0) resized)
    m =
        viewport_change_pos-IsMoved (pos 0) (pos 0) resized
          (record { left = hx; top = hy; wide = le.0; high = le.1 })

-- A resize of the frame buffer and a change of the flag put any viewport that does not start before
-- the first pixel inside the frame buffer, whatever its size was.
pub resize-IsInside :
    (width height : ℤ) (viewport : Bool) (vp : View)
    → pos 0 ≤ℤ vp.x
    → pos 0 ≤ℤ vp.y
    → IsInside (resize width height vp) × IsInside (set_clip_viewport viewport vp)
unfolding resize set_clip_viewport
resize-IsInside width height viewport vp hx hy = (
  (viewport_change_pos-IsMoved (pos 0) (pos 0) _ (
      viewport_change_size-FitsBuffer (some (vp.w, vp.h))
        (record vp { fb_width = width; fb_height = height }) hx hy)).inside,
  (viewport_change_pos-IsMoved (pos 0) (pos 0) _ (
      viewport_change_size-FitsBuffer (some (vp.w, vp.h)) (record vp { clip_viewport = viewport })
        hx hy)).inside,
)
