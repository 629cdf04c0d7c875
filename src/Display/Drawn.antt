-- ===== src/Display/Drawn.antt =====
-- Areas that are drawn between two calls of flip, of display.js.
use warpyard.Base.{List, [], ◌∷◌, ◌++◌, arith}
use warpyard.Base.Int.{ℤ, ◌+ℤ◌, ◌≤ℤ◌}
use warpyard.Display.Viewport.{View}
use warpyard.Display.Damage.{
  Area, Between, Bounds, InArea, InCopy, IsDamaged, IsVisible, damage, flip_copy, flip_copy-exact,
  higher, lower, no_damage,
}

abbrev pub damage_all : List Area → Bounds → Bounds
damage_all [] b = b
damage_all (a ∷ areas) b = damage_all areas (damage a b)

lower-le : (a b : ℤ) → (lower a b ≤ℤ a) × (lower a b ≤ℤ b)
lower-le a b = ground arith

higher-le : (a b : ℤ) → (a ≤ℤ higher a b) × (b ≤ℤ higher a b)
higher-le a b = ground arith

Between-wider : (lo hi lo' hi' p : ℤ) → Between lo hi p → lo' ≤ℤ lo → hi ≤ℤ hi' → Between lo' hi' p
Between-wider lo hi lo' hi' p h l r = omega arith

damage-keeps :
    (a : Area) (b : Bounds) (px py : ℤ) → IsDamaged b px py → IsDamaged (damage a b) px py
unfolding damage
damage-keeps a b px py h = (
  Between-wider b.left b.right _ _ px h.0 (lower-le a.x b.left).1
      (higher-le (a.x +ℤ a.w) b.right).1,
  Between-wider b.top b.bottom _ _ py h.1 (lower-le a.y b.top).1
      (higher-le (a.y +ℤ a.h) b.bottom).1,
)

damage-adds : (a : Area) (b : Bounds) (px py : ℤ) → InArea a px py → IsDamaged (damage a b) px py
unfolding damage
damage-adds a b px py h = (
  Between-wider a.x (a.x +ℤ a.w) _ _ px h.0 (lower-le a.x b.left).0
      (higher-le (a.x +ℤ a.w) b.right).0,
  Between-wider a.y (a.y +ℤ a.h) _ _ py h.1 (lower-le a.y b.top).0
      (higher-le (a.y +ℤ a.h) b.bottom).0,
)

damage_all-keeps :
    (areas : List Area) (b : Bounds) (px py : ℤ)
    → IsDamaged b px py
    → IsDamaged (damage_all areas b) px py
damage_all-keeps [] b px py h = h
damage_all-keeps (a ∷ areas) b px py h =
    damage_all-keeps areas (damage a b) px py (damage-keeps a b px py h)

-- Whatever else is drawn before and after it, every visible pixel of an area that was drawn since the
-- last flip is copied to the visible canvas by the next.
pub flip_copy_complete :
    (vp : View) (before : List Area) (a : Area) (later : List Area) (px py : ℤ)
    → InArea a px py
    → IsVisible vp px py
    → InCopy (flip_copy vp (damage_all (before ++ (a ∷ later)) no_damage)) px py
flip_copy_complete vp before a later px py h visible =
    ((flip_copy-exact vp (damage_all (before ++ (a ∷ later)) no_damage)).0 px py).1
      (found before no_damage, visible)
  where
    found : (ds : List Area) (b : Bounds) → IsDamaged (damage_all (ds ++ (a ∷ later)) b) px py
    found [] b = damage_all-keeps later (damage a b) px py (damage-adds a b px py h)
    found (d ∷ ds) b = found ds (damage d b)
