-- ===== src/Incoming/Cursor.antt =====
-- `_handleCursor` and `_handleVMwareCursor` of rfb.js: the pixels of a cursor.
use warpyard.Base.{
  ℕ, zero, suc, ◌+◌, ◌-◌, ◌*◌, ◌/◌, ◌%◌, ◌^◌, List, [], ◌∷◌, ◌++◌, get_or, ◌==◌, if◌then◌else◌,
}

-- The bit of a pixel in the mask, as its alpha.
unfoldable pub mask_alpha : (w : ℕ) → List ℕ → (x y : ℕ) → ℕ
mask_alpha w mask x y =
    if get_or mask (y * ((w + 7) / 8) + x / 8) 0 * 2 ^ (x % 8) / 2 ^ 7 % 2 == 1 then 255 else 0

-- The loop on `x`, with so many pixels of the row to come: BGRX becomes RGBA.
unfoldable pub cursor_row : (w : ℕ) (pixels mask : List ℕ) (y left : ℕ) → List ℕ
unfolding mask_alpha
cursor_row w pixels mask y zero = []
cursor_row w pixels mask y (suc left) =
    let x = w - suc left in
    let pix_idx = (y * w + x) * 4 in
    get_or pixels (pix_idx + 2) 0
    ∷ get_or pixels (pix_idx + 1) 0
    ∷ get_or pixels pix_idx 0
    ∷ mask_alpha w mask x y
    ∷ cursor_row w pixels mask y left

-- The loop on `y`.
unfoldable pub cursor_rows : (w h : ℕ) (pixels mask : List ℕ) (left : ℕ) → List ℕ
unfolding cursor_row
cursor_rows w h pixels mask zero = []
cursor_rows w h pixels mask (suc left) =
    cursor_row w pixels mask (h - suc left) w ++ cursor_rows w h pixels mask left

-- A pixel of a classic VMware cursor, from its 32 bits of both masks. Of `& PIXEL_MASK` against
-- `PIXEL_MASK` it matters that the upper 24 bits are all set.
unfoldable pub classic_pixel : (and_mask xor_mask : ℕ) → List ℕ
classic_pixel and_mask xor_mask =
    if and_mask == 0
    then xor_mask / 2 ^ 8 % 2 ^ 8
      ∷ xor_mask / 2 ^ 16 % 2 ^ 8
      ∷ xor_mask / 2 ^ 24 % 2 ^ 8
      ∷ 0xff
      ∷ []
    else if and_mask / 2 ^ 8 == 0xffffff
    then if xor_mask == 0 then 0 ∷ 0 ∷ 0 ∷ 0 ∷ [] else 0 ∷ 0 ∷ 0 ∷ 0xff ∷ []
    else 0 ∷ 0 ∷ 0 ∷ 0xff ∷ []

unfoldable pub classic_pixels : (and_masks xor_masks : List ℕ) → List ℕ
unfolding classic_pixel
classic_pixels [] xor_masks = []
classic_pixels (a ∷ and_masks) [] = []
classic_pixels (a ∷ and_masks) (x ∷ xor_masks) =
    classic_pixel a x ++ classic_pixels and_masks xor_masks

unfoldable pub alpha_pixels : List ℕ → List ℕ
alpha_pixels [] = []
alpha_pixels (word ∷ words) =
    word / 2 ^ 24 % 2 ^ 8
    ∷ word / 2 ^ 16 % 2 ^ 8
    ∷ word / 2 ^ 8 % 2 ^ 8
    ∷ word % 2 ^ 8
    ∷ alpha_pixels words
