-- ===== src/Decoders/Hextile/Arrives.antt =====
-- A tile of hextile.js whose bytes are there, and what more bytes make of it.
use warpyard.Base.{
  ℕ, suc, ◌+◌, ◌*◌, true, false, List, [], ◌∷◌, ◌++◌, ◌≡◌, sym, ap, subst, ◌∙◌, inl, inr, arith,
  drop, get_or, get_or-drop, get_or-append_left, ltb, ◌==◌, if_intro, Bool-cases,
}
use warpyard.Stream.{Stream, wait, shift_bytes}
use warpyard.Stream.More.{wait-append, wait-drop}
use warpyard.Stream.Reader.{Reader, ◌>>=◌, give, shift_bytes-IsExact, give-IsExact, >>=-IsExact}
use warpyard.Decoders.{Rect}
use warpyard.Decoders.Items.{missing, bad}
use warpyard.Decoders.Hextile.{
  Hextile, tile_rect, flag, tile_bytes, Subrect, Body, blank, raw, read_body, read_item, tile,
}
use warpyard.Decoders.Hextile.Reads.{
  ReadsAt, color_bytes, colors-ReadsAt, count-ReadsAt, IsEnough, exact-ReadsAt, subrect_bytes,
}

-- `tile_bytes` in its four cases.
raw_arrived :
    (sub pixels : ℕ) (q : Stream)
    → flag sub 0x01 ≡ true
    → IsEnough sub pixels q
    → wait q (pixels * 4 + 0) ≡ false
raw_arrived sub pixels q f all =
    let bytes : tile_bytes sub pixels (sub ∷ q) ≡ 1 + pixels * 4 = unfold tile_bytes in rw f in
    let w : wait (sub ∷ q) (1 + pixels * 4) ≡ false =
      subst (λ k. wait (sub ∷ q) k ≡ false) bytes all in
    ground arith

abbrev head_bytes : ℕ → ℕ
head_bytes sub = 1 + color_bytes (flag sub 0x02) + color_bytes (flag sub 0x04)

-- Where the rectangles are counted, the count is there, and so are they.
record IsCounted (sub : ℕ) (q : Stream) : Type 0 where
  count : wait (sub ∷ q) (head_bytes sub + 1) ≡ false
  all :
      wait
        (sub ∷ q)
        (head_bytes sub + 1 + get_or (sub ∷ q) (head_bytes sub) 0 * subrect_bytes (flag sub 0x10))
      ≡ false

counted :
    (sub pixels : ℕ) (q : Stream)
    → flag sub 0x01 ≡ false
    → flag sub 0x08 ≡ true
    → IsEnough sub pixels q
    → IsCounted sub q
counted sub pixels q f e all = elim (Bool-cases (wait (sub ∷ q) (head_bytes sub + 1))) [
  | inl w ↦
      let bytes : tile_bytes sub pixels (sub ∷ q) ≡ head_bytes sub + 1 =
        unfold tile_bytes in rw (f, e, w) in
      absurd (cc (sym w ∙ subst (λ k. wait (sub ∷ q) k ≡ false) bytes all))
  | inr w ↦
      let bytes : tile_bytes sub pixels (sub ∷ q)
          ≡ head_bytes sub
            + 1
            + get_or (sub ∷ q) (head_bytes sub) 0 * subrect_bytes (flag sub 0x10) =
        unfold tile_bytes in rw (f, e, w) in
      record { count = w; all = subst (λ k. wait (sub ∷ q) k ≡ false) bytes all }
]

colors_arrived :
    (sub pixels : ℕ) (q : Stream)
    → flag sub 0x01 ≡ false
    → IsEnough sub pixels q
    → wait q (color_bytes (flag sub 0x02) + color_bytes (flag sub 0x04)) ≡ false
colors_arrived sub pixels q f all = elim (Bool-cases (flag sub 0x08)) [
  | inl e ↦ let w = (counted sub pixels q f e all).count in ground (arith, w)
  | inr e ↦
      let bytes : tile_bytes sub pixels (sub ∷ q) ≡ head_bytes sub =
        unfold tile_bytes in rw (f, e) in
      let w : wait (sub ∷ q) (head_bytes sub) ≡ false =
        subst (λ k. wait (sub ∷ q) k ≡ false) bytes all in
      ground (arith, w)
]

abbrev behind_colors : ℕ → Stream → Stream
behind_colors sub q = drop (color_bytes (flag sub 0x04)) (drop (color_bytes (flag sub 0x02)) q)

wait-behind :
    (m n k : ℕ) (b : ℕ) (q : Stream)
    → wait (b ∷ q) (1 + m + n + k) ≡ false
    → wait (drop n (drop m q)) k ≡ false
wait-behind m n k b q h = wait-drop n k (drop m q) (wait-drop m (n + k) q (ground arith))

get_or-behind :
    (m n b : ℕ) (q : Stream) → get_or (drop n (drop m q)) 0 0 ≡ get_or (b ∷ q) (1 + m + n) 0
get_or-behind m n b q =
    get_or-drop n 0 (drop m q) 0
    ∙ get_or-drop m (n + 0) q 0
    ∙ ap (λ k. get_or (b ∷ q) k 0) {x = suc (m + (n + 0))} (omega arith)

count_arrived :
    (sub pixels : ℕ) (q : Stream)
    → flag sub 0x01 ≡ false
    → flag sub 0x08 ≡ true
    → IsEnough sub pixels q
    → (wait (behind_colors sub q) 1 ≡ false)
      × (wait
            (behind_colors sub q)
            (1 + get_or (behind_colors sub q) 0 0 * subrect_bytes (flag sub 0x10))
          ≡ false)
count_arrived sub pixels q f e all =
    let c = counted sub pixels q f e all in
    let m = color_bytes (flag sub 0x02) in
    let n = color_bytes (flag sub 0x04) in
    (
      wait-behind m n 1 sub q c.count,
      rw (get_or-behind m n sub q) (
          wait-behind m n (1 + get_or (sub ∷ q) (head_bytes sub) 0 * subrect_bytes (flag sub 0x10))
            sub q (subst (λ k. wait (sub ∷ q) k ≡ false) (omega arith) c.all)),
    )

pub body-ReadsAt :
    (sub pixels : ℕ) (h : Hextile) (q : Stream)
    → IsEnough sub pixels q
    → ReadsAt (read_body sub pixels h) q
unfolding read_body
body-ReadsAt sub pixels h q all =
    if_intro {A = Reader Body} (λ r. ReadsAt r q) (sub == 0)
      (λ z. exact-ReadsAt 0 (give blank) q (give-IsExact blank) (ground arith))
      (λ z.
        if_intro {A = Reader Body} (λ r. ReadsAt r q) (flag sub 0x01)
          (λ f.
            exact-ReadsAt (pixels * 4 + 0)
              (shift_bytes (pixels * 4) >>= (λ bytes. give (raw bytes))) q
              (>>=-IsExact (pixels * 4) 0 (shift_bytes-IsExact (pixels * 4))
                λ bytes. give-IsExact (raw bytes))
              (raw_arrived sub pixels q f all))
          (λ f. colors-ReadsAt sub h q (colors_arrived sub pixels q f all) (
            if_intro {A = Reader (List Subrect)} (λ r. ReadsAt r (behind_colors sub q))
              (flag sub 0x08)
              (λ e.
                let c = count_arrived sub pixels q f e all in
                count-ReadsAt (flag sub 0x10) (behind_colors sub q) c.0 c.1)
              (λ e.
                exact-ReadsAt 0 (give []) (behind_colors sub q) (give-IsExact []) (ground arith)))))

get_or-more :
    (q more : Stream) (i : ℕ) → wait q (i + 1) ≡ false → get_or (q ++ more) i 0 ≡ get_or q i 0
get_or-more q more i h = get_or-append_left q more i 0 (ground arith)

-- More bytes do not change how many the tile takes.
tile_bytes_more :
    (sub pixels : ℕ) (q more : Stream)
    → IsEnough sub pixels q
    → tile_bytes sub pixels (sub ∷ (q ++ more)) ≡ tile_bytes sub pixels (sub ∷ q)
unfolding tile_bytes
tile_bytes_more sub pixels q more all = elim (Bool-cases (flag sub 0x01)) [
  | inl f ↦ rw f
  | inr f ↦ elim (Bool-cases (flag sub 0x08)) [
    | inl e ↦
        let c = (counted sub pixels q f e all).count in
        rw (
          f,
          e,
          c,
          wait-append (sub ∷ q) more (head_bytes sub + 1) c,
          get_or-more (sub ∷ q) more (head_bytes sub) c,
        )
    | inr e ↦ rw (f, e)
  ]
]

abbrev pub pixels_of : Rect → ℕ → ℕ
pixels_of r tiles = (tile_rect r tiles).width * (tile_rect r tiles).height

pub tile_read :
    (r : Rect) (tiles : ℕ) (h : Hextile) (sub : ℕ) (q : Stream)
    → ltb 30 sub ≡ false
    → IsEnough sub (pixels_of r tiles) q
    → tile r tiles h (sub ∷ q)
      ≡ read_item (tile_rect r tiles) sub h (read_body sub (pixels_of r tiles) h q)
unfolding tile
tile_read r tiles h sub q legal all = rw (legal, all)

pub tile_illegal :
    (r : Rect) (tiles : ℕ) (h : Hextile) (sub : ℕ) (q : Stream)
    → ltb 30 sub ≡ true
    → tile r tiles h (sub ∷ q) ≡ bad
unfolding tile
tile_illegal r tiles h sub q e = rw e

pub tile_missing :
    (r : Rect) (tiles : ℕ) (h : Hextile) (sub : ℕ) (q : Stream)
    → ltb 30 sub ≡ false
    → wait (sub ∷ q) (tile_bytes sub (pixels_of r tiles) (sub ∷ q)) ≡ true
    → tile r tiles h (sub ∷ q) ≡ missing
unfolding tile
tile_missing r tiles h sub q legal w = rw (legal, w)

pub IsEnough-more :
    (sub pixels : ℕ) (q more : Stream) → IsEnough sub pixels q → IsEnough sub pixels (q ++ more)
IsEnough-more sub pixels q more all =
    rw (tile_bytes_more sub pixels q more all)
      (wait-append (sub ∷ q) more (tile_bytes sub pixels (sub ∷ q)) all)
