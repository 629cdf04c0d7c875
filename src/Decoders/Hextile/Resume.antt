-- ===== src/Decoders/Hextile/Resume.antt =====
-- The Hextile decoder (hextile.js) called again when more bytes have arrived, at whatever byte the
-- data was cut.
use warpyard.Base.{ℕ, Option, none, some, List, [], ◌∷◌, ◌++◌, ◌≡◌, refl, arith, length}
use warpyard.Base.{ltb, Bool-cases, inl, inr}
use warpyard.Stream.{Stream, wait}
use warpyard.Decoders.{Rect, Call}
use warpyard.Decoders.Feed.{go_on, feed, join, feed-join, Decoder}
use warpyard.Decoders.Items.{Extends, ItemLeaves, decode_resumes, decode-Shrinks}
use warpyard.Stream.Eats.{Leaves, Leaves-le}
use warpyard.Decoders.Hextile.Eats.{read_body-Eats}
use warpyard.Decoders.Hextile.{
  Hextile, total_tiles, tile_rect, tile_bytes, Body, read_body, draw_body, drawn_item, read_item,
  tile, decode_rect,
}
use warpyard.Decoders.Hextile.Arrives.{
  IsEnough-more, body-ReadsAt, pixels_of, tile_illegal, tile_missing, tile_read,
}

drawn-Extends :
    (rest more : Stream) (o : Option (Hextile × List Call))
    → Extends (drawn_item rest o) more (drawn_item (rest ++ more) o)
drawn-Extends rest more none = refl
drawn-Extends rest more (some (h, calls)) = refl

tile-Extends :
    (r : Rect) (tiles : ℕ) (h : Hextile) (q more : Stream)
    → Extends (tile r tiles h q) more (tile r tiles h (q ++ more))
tile-Extends r tiles h [] more = unfold tile in _
tile-Extends r tiles h (sub ∷ q) more = elim (Bool-cases (ltb 30 sub)) [
  | inl e ↦ rw (tile_illegal r tiles h sub q e) (tile_illegal r tiles h sub (q ++ more) e)
  | inr legal ↦ elim (Bool-cases (wait (sub ∷ q) (tile_bytes sub (pixels_of r tiles) (sub ∷ q)))) [
    | inl w ↦ rw (tile_missing r tiles h sub q legal w) _
    | inr all ↦
        let pixels = pixels_of r tiles in
        let t = tile_rect r tiles in
        let p = body-ReadsAt sub pixels h q all in
        rw
          (
            tile_read r tiles h sub q legal all,
            tile_read r tiles h sub (q ++ more) legal (IsEnough-more sub pixels q more all),
            p.reads,
            p.stable more,
          )
          (drawn-Extends p.rest more (draw_body t sub h p.value))
  ]
]

pub hextile_resumes :
    (r : Rect) (s : ℕ × Hextile) (q more : Stream)
    → decode_rect r s (q ++ more) ≡ go_on (decode_rect r) (decode_rect r s q) more
hextile_resumes r = decode_resumes (tile r) (total_tiles r) (tile-Extends r)

read_item-ItemLeaves :
    (t : Rect) (sub : ℕ) (h : Hextile) (o : Option (Body × Stream)) (n : ℕ)
    → Leaves o n
    → ItemLeaves (read_item t sub h o) n
read_item-ItemLeaves t sub h none n le = tt
read_item-ItemLeaves t sub h (some (body, rest)) n le = drawn (draw_body t sub h body)
  where
    drawn : (o : Option (Hextile × List Call)) → ItemLeaves (drawn_item rest o) n
    drawn none = tt
    drawn (some (h', calls)) = le

pub tile-ItemLeaves :
    (r : Rect) (tiles : ℕ) (h : Hextile) (q : Stream) → ItemLeaves (tile r tiles h q) (length q)
tile-ItemLeaves r tiles h [] = unfold tile in tt
tile-ItemLeaves r tiles h (sub ∷ q) = elim (Bool-cases (ltb 30 sub)) [
  | inl e ↦ rw (tile_illegal r tiles h sub q e) tt
  | inr legal ↦ elim (Bool-cases (wait (sub ∷ q) (tile_bytes sub (pixels_of r tiles) (sub ∷ q)))) [
    | inl w ↦ rw (tile_missing r tiles h sub q legal w) tt
    | inr all ↦ rw (tile_read r tiles h sub q legal all) (
        read_item-ItemLeaves (tile_rect r tiles) sub h (read_body sub (pixels_of r tiles) h q)
          (length (sub ∷ q))
          (Leaves-le _ (length q) (length (sub ∷ q)) (omega arith)
            (read_body-Eats sub (pixels_of r tiles) h q)))
  ]
]

abbrev pub decoder : Rect → Decoder (ℕ × Hextile)
decoder r = record {
  decode = decode_rect r;
  resumes = hextile_resumes r;
  shrinks = decode-Shrinks (tile r) (total_tiles r) (tile-ItemLeaves r);
}

-- `HextileDecoder` fed in parts, cut at whatever bytes, with `decodeRect` called again for each part,
-- makes the calls of the display and gives the answer or error, and leaves the state and the bytes,
-- that one call with all the bytes does.
pub hextile_join :
    (r : Rect) (s : ℕ × Hextile) (q : Stream) (qs : List Stream)
    → feed (decoder r) (decode_rect r s q) qs ≡ decode_rect r s (q ++ join qs)
hextile_join r = feed-join (decoder r)
