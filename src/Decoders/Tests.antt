-- ===== src/Decoders/Tests.antt =====
-- Runs of the decoders.
use warpyard.Base.{[], ◌∷◌, ◌++◌, ◌≡◌, refl, arith}
use warpyard.Stream.{Stream}
use warpyard.Decoders.{Rect, copy_image, blit_image, finish}
use warpyard.Decoders.Feed.{feed, join}
use warpyard.Decoders.Raw
use warpyard.Decoders.CopyRect
use warpyard.Decoders.Rre
use warpyard.Decoders.Hextile
use warpyard.Decoders.Hextile.Resume.{decoder, hextile_join}
use warpyard.Decoders.Hextile.Tiles.{IsTile, tile_rect-IsTile}

-- Two pixels in two rows.
abbrev column : Rect
column = record { x = 5; y = 7; width = 1; height = 2 }

abbrev wide : Rect
wide = record { x = 5; y = 7; width = 20; height = 3 }

abbrev first_part : Stream
first_part = 1 ∷ 2 ∷ 3 ∷ 4 ∷ 5 ∷ []

abbrev second_part : Stream
second_part = 6 ∷ 7 ∷ 8 ∷ 9 ∷ []

raw_join_example :
    feed
      (Raw.decoder column 24)
      (Raw.decode_rect column 24 0 first_part)
      (second_part ∷ [] ∷ second_part ∷ [])
    ≡ Raw.decode_rect column 24 0 (first_part ++ join (second_part ∷ [] ∷ second_part ∷ []))
raw_join_example = Raw.raw_join column 24 0 first_part (second_part ∷ [] ∷ second_part ∷ [])

rre_join_example :
    feed (Rre.decoder column) (Rre.decode_rect column 0 first_part) (second_part ∷ second_part ∷ [])
    ≡ Rre.decode_rect column 0 (first_part ++ join (second_part ∷ second_part ∷ []))
rre_join_example = Rre.rre_join column 0 first_part (second_part ∷ second_part ∷ [])

raw_complete_example :
    Raw.decode_rect column 24 0 (first_part ++ second_part)
    ≡ finish 0
        (9 ∷ [])
        (blit_image 5 7 1 1 (1 ∷ 2 ∷ 3 ∷ 255 ∷ []) ∷ blit_image 5 8 1 1 (5 ∷ 6 ∷ 7 ∷ 255 ∷ []) ∷ [])
unfolding Raw.row Raw.make_opaque
raw_complete_example = Raw.raw_complete column 24 (first_part ++ second_part) refl (omega arith)

copy_rect_complete_example :
    CopyRect.decode_rect column _ first_part ≡ finish _ (5 ∷ []) (copy_image 258 772 5 7 1 2 ∷ [])
copy_rect_complete_example = CopyRect.copy_rect_complete column _ first_part refl

-- Two tiles: a background with one coloured rectangle, cut in its middle, and a blank one.
hextile_join_example :
    feed
      (decoder wide)
      (Hextile.decode_rect wide (0, Hextile.new) (0x1a ∷ 1 ∷ 2 ∷ 3 ∷ 0 ∷ 1 ∷ 9 ∷ []))
      ((8 ∷ 7 ∷ 0 ∷ 0x11 ∷ 0x11 ∷ 0 ∷ []) ∷ [])
    ≡ Hextile.decode_rect wide
        (0, Hextile.new)
        ((0x1a ∷ 1 ∷ 2 ∷ 3 ∷ 0 ∷ 1 ∷ 9 ∷ []) ++ join ((8 ∷ 7 ∷ 0 ∷ 0x11 ∷ 0x11 ∷ 0 ∷ []) ∷ []))
hextile_join_example =
    hextile_join wide (0, Hextile.new) (0x1a ∷ 1 ∷ 2 ∷ 3 ∷ 0 ∷ 1 ∷ 9 ∷ [])
      ((8 ∷ 7 ∷ 0 ∷ 0x11 ∷ 0x11 ∷ 0 ∷ []) ∷ [])

tile_rect-IsTile_example : IsTile wide (Hextile.tile_rect wide 1)
tile_rect-IsTile_example = tile_rect-IsTile wide 1 (omega arith) (omega arith)
