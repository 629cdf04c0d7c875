-- ===== src/Decoders/Hextile/Eats.antt =====
-- How many bytes the reads of a Hextile tile (hextile.js) leave.
use warpyard.Base.{ℕ, zero, suc, ◌*◌, Bool, true, false, some, List, [], ◌∷◌, ◌==◌, if◌then◌else◌}
use warpyard.Stream.Reader.{Reader}
use warpyard.Stream.Eats.{Eats, give-Eats, shift_bytes-Eats, shift-Eats, >>=-Eats}
use warpyard.Decoders.Hextile.{
  Color, Hextile, Subrect, Body, blank, raw, drawn, flag, read_color, read_subrects, read_body,
}

if-Eats :
    {A : Type 0} (b : Bool) (read other : Reader A)
    → Eats read
    → Eats other
    → Eats (if b then read else other)
if-Eats true read other h k = h
if-Eats false read other h k = k

read_color-Eats : (b : Bool) (old : Color) → Eats (read_color b old)
unfolding read_color
read_color-Eats true old = >>=-Eats _ _ (shift_bytes-Eats 4) λ color. give-Eats Color (some color)
read_color-Eats false old = give-Eats Color old

read_subrects-Eats : (b : Bool) (n : ℕ) → Eats (read_subrects b n)
unfolding read_subrects
read_subrects-Eats b zero = give-Eats (List Subrect) []
read_subrects-Eats b (suc n) = >>=-Eats _ _ (read_color-Eats b _) λ color.
    >>=-Eats _ _ (shift-Eats 1) λ xy. >>=-Eats _ _ (shift-Eats 1) λ wh.
      >>=-Eats _ _ (read_subrects-Eats b n)
        λ rest. give-Eats (List Subrect) (record { color = color; xy = xy; wh = wh } ∷ rest)

pub read_body-Eats : (sub pixels : ℕ) (h : Hextile) → Eats (read_body sub pixels h)
unfolding read_body
read_body-Eats sub pixels h = if-Eats (sub == 0) _ _ (give-Eats Body blank) (
    if-Eats (flag sub 0x01) _ _
      (>>=-Eats _ _ (shift_bytes-Eats (pixels * 4)) λ bytes. give-Eats Body (raw bytes))
      (>>=-Eats _ _ (read_color-Eats (flag sub 0x02) h.background) λ background.
        >>=-Eats _ _ (read_color-Eats (flag sub 0x04) h.foreground) λ foreground.
          >>=-Eats _ _
            (if-Eats (flag sub 0x08) _ _
              (>>=-Eats _ _ (shift-Eats 1) λ n. read_subrects-Eats (flag sub 0x10) n)
              (give-Eats (List Subrect) []))
            λ subrects. give-Eats Body (drawn background foreground subrects)))
