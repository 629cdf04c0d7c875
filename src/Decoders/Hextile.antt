-- ===== src/Decoders/Hextile.antt =====
-- decoders/hextile.js: tiles of 16 by 16 pixels, each raw, blank, or a background with rectangles.
pub mod Arrives
pub mod Reads
mod Eats
pub mod Resume
pub mod Tiles
use warpyard.Base.{
  ℕ, zero, suc, ◌+◌, ◌-◌, ◌*◌, ◌/◌, ◌%◌, ◌^◌, min, bit_and, Bool, true, false, not, Option, none,
  some, List, [], ◌∷◌, ◌++◌, length, get_or, set, replicate, take, ltb, leb, ◌==◌, if◌then◌else◌,
}
use warpyard.Stream.{Stream, wait, shift8, shift_bytes}
use warpyard.Stream.Reader.{Reader, ◌>>=◌, give}
use warpyard.Decoders.{Rect, Call, fill_rect, blit_image, Outcome}
use warpyard.Decoders.Items.{Item, missing, bad, short, got, decode}
use warpyard.Decoders.Raw.{make_opaque}

-- `undefined` is `none`.
abbrev pub Color : Type 0
Color = Option (List ℕ)

pub record Hextile : Type 0 where
  pub last_subencoding : ℕ
  pub background : Color
  pub foreground : Color
  pub tile_buffer : List ℕ

unfoldable pub new : Hextile
new = record {
  last_subencoding = 0;
  background = none;
  foreground = none;
  tile_buffer = replicate (16 * 16 * 4) 0;
}

-- `Math.ceil(n / 16)`
abbrev pub ceil16 : ℕ → ℕ
ceil16 n = (n + 15) / 16

abbrev pub total_tiles : Rect → ℕ
total_tiles r = ceil16 r.width * ceil16 r.height

-- The tile with `tiles` to go, itself among them.
unfoldable pub tile_rect : Rect → ℕ → Rect
tile_rect r tiles =
    let curr = total_tiles r - tiles in
    let tx = r.x + curr % ceil16 r.width * 16 in
    let ty = r.y + curr / ceil16 r.width * 16 in
    record {
      x = tx;
      y = ty;
      width = min 16 (r.x + r.width - tx);
      height = min 16 (r.y + r.height - ty);
    }

abbrev pub flag : ℕ → ℕ → Bool
flag sub bit = not (bit_and sub bit == 0)

-- "Figure out how much we are expecting": `bytes` at the test that waits, with `pixels` in the tile.
-- Where the count of rectangles has not arrived, that is the test that waits for it.
unfoldable pub tile_bytes : ℕ → ℕ → Stream → ℕ
tile_bytes sub pixels q =
    let head = 1 + (if flag sub 0x02 then 4 else 0) + (if flag sub 0x04 then 4 else 0) in
    if flag sub 0x01
    then 1 + pixels * 4
    else if flag sub 0x08
    then if wait q (head + 1)
      then head + 1
      else head + 1 + get_or q head 0 * (if flag sub 0x10 then 6 else 2)
    else head

-- Four bytes of the buffer from `p` on.
abbrev pub set_pixel : ℕ → List ℕ → List ℕ → List ℕ
set_pixel p color pixels =
    set
      (set (set (set pixels p (get_or color 0 0)) (p + 1) (get_or color 1 0)) (p + 2)
        (get_or color 2 0))
      (p + 3) 255

-- `left` pixels of a row, or of the whole tile, from the pixel `i` on.
unfoldable pub set_pixels : ℕ → ℕ → List ℕ → List ℕ → List ℕ
set_pixels zero i color pixels = pixels
set_pixels (suc left) i color pixels =
    set_pixels left (i + 1) color (set_pixel (i * 4) color pixels)

unfoldable pub start_tile : Rect → List ℕ → List ℕ → List ℕ
unfolding set_pixels
start_tile t color pixels = set_pixels (t.width * t.height) 0 color pixels

-- The rows of `_subTile` from `j` on, in a tile that is `width` wide.
unfoldable pub sub_tile_rows : (rows j x w width : ℕ) (color pixels : List ℕ) → List ℕ
unfolding set_pixels
sub_tile_rows zero j x w width color pixels = pixels
sub_tile_rows (suc rows) j x w width color pixels =
    sub_tile_rows rows (j + 1) x w width color (set_pixels w (x + j * width) color pixels)

-- A rectangle as it is read: its own colour, and the two bytes of its place and size.
pub record Subrect : Type 0 where
  pub color : Color
  pub xy : ℕ
  pub wh : ℕ

-- `_subTile`; `none` is the error of a colour that is undefined.
unfoldable pub sub_tile : Rect → Color → Subrect → List ℕ → Option (List ℕ)
unfolding sub_tile_rows
sub_tile t none s pixels = none
sub_tile t (some color) s pixels = some (
    sub_tile_rows (bit_and s.wh 0x0f + 1) (bit_and s.xy 0x0f) (s.xy / 2 ^ 4) (s.wh / 2 ^ 4 + 1)
      t.width color pixels)

unfoldable pub sub_tiles : Rect → Bool → Color → List Subrect → List ℕ → Option (List ℕ)
unfolding sub_tile
sub_tiles t coloured foreground [] pixels = some pixels
sub_tiles t coloured foreground (s ∷ ss) pixels =
    elim (sub_tile t (if coloured then s.color else foreground) s pixels) [
      | none ↦ none
      | some pixels' ↦ sub_tiles t coloured foreground ss pixels'
    ]

-- A colour that is there only if the bit is set, or else as it was.
unfoldable pub read_color : Bool → Color → Reader Color
read_color true old = shift_bytes 4 >>= λ color. give (some color)
read_color false old = give old

unfoldable pub read_subrects : Bool → ℕ → Reader (List Subrect)
read_subrects coloured zero = give []
read_subrects coloured (suc subrects) = do
  color ← read_color coloured none
  xy ← shift8
  wh ← shift8
  rest ← read_subrects coloured subrects
  give (record { color = color; xy = xy; wh = wh } ∷ rest)

-- What is read of a tile behind its subencoding.
pub data Body : Type 0 where
  blank : Body
  raw : List ℕ → Body
  drawn : (background foreground : Color) → List Subrect → Body

unfoldable pub read_body : ℕ → ℕ → Hextile → Reader Body
unfolding read_color read_subrects
read_body sub pixels h =
    if sub == 0
    then give blank
    else if flag sub 0x01
    then shift_bytes (pixels * 4) >>= (λ bytes. give (raw bytes))
    else (do
      background ← read_color (flag sub 0x02) h.background
      foreground ← read_color (flag sub 0x04) h.foreground
      subrects ← if flag sub 0x08 then shift8 >>= read_subrects (flag sub 0x10) else give []
      give (drawn background foreground subrects))

-- The drawing: the new state and the calls, `none` for the error of a colour that is undefined.
unfoldable pub draw_body : Rect → ℕ → Hextile → Body → Option (Hextile × List Call)
unfolding start_tile sub_tiles
draw_body t sub h blank =
    let next = record h { last_subencoding = sub } in
    if flag h.last_subencoding 0x01 then some (next, []) else elim (h.background) [
      | none ↦ none
      | some color ↦ some (next, fill_rect t.x t.y t.width t.height color ∷ [])
    ]
draw_body t sub h (raw bytes) = some (
  record h { last_subencoding = sub },
  blit_image t.x t.y t.width t.height (make_opaque (t.width * t.height) 0 bytes) ∷ [],
)
draw_body t sub h (drawn background foreground subrects) = elim background [
  | none ↦ none
  | some color ↦
      elim (sub_tiles t (flag sub 0x10) foreground subrects (start_tile t color h.tile_buffer)) [
        | none ↦ none
        | some buffer ↦ some (
          record {
            last_subencoding = sub;
            background = some color;
            foreground = foreground;
            tile_buffer = buffer;
          },
          blit_image t.x t.y t.width t.height buffer ∷ [],
        )
      ]
]

abbrev pub drawn_item : Stream → Option (Hextile × List Call) → Item Hextile
drawn_item rest none = bad
drawn_item rest (some (h, calls)) = got h calls rest

abbrev pub read_item : Rect → ℕ → Hextile → Option (Body × Stream) → Item Hextile
read_item t sub h none = short
read_item t sub h (some (body, rest)) = drawn_item rest (draw_body t sub h body)

-- One round of the loop on `_tiles`.
unfoldable pub tile : Rect → ℕ → Hextile → Stream → Item Hextile
unfolding tile_rect tile_bytes read_body draw_body
tile r tiles h [] = missing
tile r tiles h (sub ∷ q) =
    let t = tile_rect r tiles in
    if ltb 30 sub
    then bad
    else if wait (sub ∷ q) (tile_bytes sub (t.width * t.height) (sub ∷ q))
    then missing
    else read_item t sub h (read_body sub (t.width * t.height) h q)

-- `decodeRect` on `_tiles` and the other fields.
abbrev pub decode_rect : Rect → ℕ × Hextile → Stream → Outcome (ℕ × Hextile)
decode_rect r = decode (tile r) (total_tiles r)
