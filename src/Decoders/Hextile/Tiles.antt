-- ===== src/Decoders/Hextile/Tiles.antt =====
-- Where the tiles of hextile.js lie.
use warpyard.Base.{ℕ, zero, suc, ◌+◌, ◌-◌, ◌*◌, ◌/◌, ◌%◌, ◌≤◌, ◌<◌, ◌≡◌, subst, arith}
use native.Mathlib.Nat.{div-lt_iff_lt-mul}
use warpyard.Decoders.{Rect}
use warpyard.Decoders.Hextile.{ceil16, total_tiles, tile_rect}

-- A tile that lies in the rectangle and is not empty, and no larger than 16 by 16 pixels.
pub record IsTile (r t : Rect) : Type 0 where
  pub left : r.x ≤ t.x
  pub top : r.y ≤ t.y
  pub right : t.x + t.width ≤ r.x + r.width
  pub bottom : t.y + t.height ≤ r.y + r.height
  pub wide : (0 < t.width) × (t.width ≤ 16)
  pub high : (0 < t.height) × (t.height ≤ 16)

mod-lt : (a b : ℕ) → 0 < b → a % b < b
mod-lt a b h = grind arith

positive_left : (a b : ℕ) → 0 < a * b → 0 < a
positive_left zero b h = absurd (omega arith)
positive_left (suc a) b h = omega arith

mul_swap : (a b : ℕ) → a * b ≡ b * a
mul_swap a b = grind arith

-- Every tile that the loop comes to, with from one to all of the tiles to go, lies in the rectangle,
-- is not empty, and is at most 16 pixels wide and high.
pub tile_rect-IsTile :
    (r : Rect) (tiles : ℕ) → 0 < tiles → tiles ≤ total_tiles r → IsTile r (tile_rect r tiles)
unfolding tile_rect
tile_rect-IsTile r tiles pos le = record {
  left = omega arith;
  top = omega arith;
  right = omega (arith, column);
  bottom = omega (arith, row);
  wide = omega (arith, column);
  high = omega (arith, row);
}
  where
    curr : ℕ
    curr = total_tiles r - tiles

    some_columns : 0 < ceil16 r.width
    some_columns = positive_left (ceil16 r.width) (ceil16 r.height) (omega arith)

    column : curr % ceil16 r.width < ceil16 r.width
    column = mod-lt curr (ceil16 r.width) some_columns

    below : curr < ceil16 r.height * ceil16 r.width
    below = subst (λ n. curr < n) (mul_swap (ceil16 r.width) (ceil16 r.height)) (omega arith)

    row : curr / ceil16 r.width < ceil16 r.height
    row = (div-lt_iff_lt-mul some_columns).1 below
