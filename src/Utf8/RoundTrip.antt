-- ===== src/Utf8/RoundTrip.antt =====
-- Decoding after encoding, of strings.js.
use warpyard.Base.{
  ℕ, suc, ◌+◌, ◌-◌, ◌*◌, ◌/◌, ◌%◌, ◌≤◌, ◌<◌, Bool, true, Option, none, some, List, [], ◌∷◌, ◌++◌,
  ltb, leb, ◌≡◌, refl, sym, ap, ◌∙◌, arith, if_intro,
}
use warpyard.Utf8.{
  is_scalar, put_char, encode_char, encode_utf8, open_char, is_continuation, cons_char, decode_from,
  decode_utf8,
}

one_byte :
    (c : ℕ) (bs : List ℕ)
    → c < 0x80
    → decode_from 0 0 0 (c ∷ bs) ≡ cons_char c (decode_from 0 0 0 bs)
unfolding decode_from
one_byte c bs h =
    let opened : open_char c ≡ some (0, c, 0) = unfold open_char in ground arith in
    rw (opened, decode_from)

-- A last byte.
last_byte :
    (acc least b : ℕ) (bs : List ℕ)
    → b < 64
    → least ≤ acc * 64 + b
    → is_scalar (acc * 64 + b) ≡ true
    → decode_from 1 acc least ((0x80 + b) ∷ bs) ≡ cons_char (acc * 64 + b) (decode_from 0 0 0 bs)
unfolding decode_from
last_byte acc least b bs h enough scalar =
    let cont : is_continuation (0x80 + b) ≡ true = unfold is_continuation in ground arith in
    let low : 0x80 + b - 0x80 ≡ b = omega arith in
    let wide : leb least (acc * 64 + b) ≡ true = ground arith in rw (cont, low, wide, scalar)

next_byte :
    (more acc least b : ℕ) (bs : List ℕ)
    → b < 64
    → decode_from (suc (suc more)) acc least ((0x80 + b) ∷ bs)
      ≡ decode_from (suc more) (acc * 64 + b) least bs
unfolding decode_from
next_byte more acc least b bs h =
    let cont : is_continuation (0x80 + b) ≡ true = unfold is_continuation in ground arith in
    let low : 0x80 + b - 0x80 ≡ b = omega arith in rw (cont, low)

first_byte :
    (b n c l : ℕ) (bs : List ℕ)
    → open_char b ≡ some (suc n, c, l)
    → decode_from 0 0 0 (b ∷ bs) ≡ decode_from (suc n) c l bs
unfolding decode_from
first_byte b n c l bs h = rw (h, decode_from)

module _ (c : ℕ) (bs : List ℕ) (h : is_scalar c ≡ true) where
  -- The code point that the last byte completes.
  last :
      (acc least : ℕ)
      → acc * 64 + c % 64 ≡ c
      → least ≤ c
      → decode_from 1 acc least ((0x80 + c % 64) ∷ bs) ≡ cons_char c (decode_from 0 0 0 bs)
  last acc least whole enough =
      last_byte acc least (c % 64) bs (omega arith) (omega arith) (ap is_scalar whole ∙ h)
      ∙ ap (λ x. cons_char x (decode_from 0 0 0 bs)) whole

  two :
      0x80 ≤ c
      → c < 0x800
      → decode_from 0 0 0 ((0xc0 + c / 64) ∷ (0x80 + c % 64) ∷ bs)
        ≡ cons_char c (decode_from 0 0 0 bs)
  two low high =
      let opened : open_char (0xc0 + c / 64) ≡ some (1, 0xc0 + c / 64 - 0xc0, 0x80) =
        unfold open_char in ground arith in
      first_byte _ 0 _ _ _ opened ∙ last _ 0x80 (omega arith) low

  three :
      0x800 ≤ c
      → c < 0x10000
      → decode_from 0 0 0 ((0xe0 + c / 4096) ∷ (0x80 + c / 64 % 64) ∷ (0x80 + c % 64) ∷ bs)
        ≡ cons_char c (decode_from 0 0 0 bs)
  three low high =
      let opened : open_char (0xe0 + c / 4096) ≡ some (2, 0xe0 + c / 4096 - 0xe0, 0x800) =
        unfold open_char in ground arith in
      first_byte _ 1 _ _ _ opened
      ∙ next_byte 0 _ 0x800 (c / 64 % 64) _ (omega arith)
      ∙ last _ 0x800 (omega arith) low

  four :
      0x10000 ≤ c
      → c < 0x110000
      → decode_from 0 0 0 (
          (0xf0 + c / 262144)
          ∷ (0x80 + c / 4096 % 64)
          ∷ (0x80 + c / 64 % 64)
          ∷ (0x80 + c % 64)
          ∷ bs)
        ≡ cons_char c (decode_from 0 0 0 bs)
  four low high =
      let opened : open_char (0xf0 + c / 262144) ≡ some (3, 0xf0 + c / 262144 - 0xf0, 0x10000) =
        unfold open_char in ground arith in
      first_byte _ 2 _ _ _ opened
      ∙ next_byte 1 _ 0x10000 (c / 4096 % 64) _ (omega arith)
      ∙ next_byte 0 _ 0x10000 (c / 64 % 64) _ (omega arith)
      ∙ last _ 0x10000 (omega arith) low

  below_last : c < 0x110000
  unfolding is_scalar
  below_last = ground (arith, h)

  decode_char : decode_from 0 0 0 (encode_char c ++ bs) ≡ cons_char c (decode_from 0 0 0 bs)
  unfolding encode_char
  decode_char =
      if_intro (λ x. decode_from 0 0 0 (x ++ bs) ≡ cons_char c (decode_from 0 0 0 bs)) (ltb c 0x80)
        (λ a. one_byte c bs (ground arith))
        (λ a.
          if_intro (λ x. decode_from 0 0 0 (x ++ bs) ≡ cons_char c (decode_from 0 0 0 bs))
            (ltb c 0x800) (λ b. two (ground arith) (ground arith))
            (λ b.
              if_intro (λ x. decode_from 0 0 0 (x ++ bs) ≡ cons_char c (decode_from 0 0 0 bs))
                (ltb c 0x10000) (λ d. three (ground arith) (ground arith))
                (λ d. four (ground arith) below_last)))

put_char-some :
    (c : ℕ) (o : Option (List ℕ)) (text : List ℕ)
    → put_char c o ≡ some text
    → (bs : List ℕ) × (o ≡ some bs) × (is_scalar c ≡ true) × (encode_char c ++ bs ≡ text)
unfolding put_char
put_char-some c none text e = absurd (cc e)
put_char-some c (some bs) text e = (bs, refl, ground (arith, e), ground (arith, e))

encoded :
    (cs : List ℕ) (text : List ℕ) → encode_utf8 cs ≡ some text → decode_from 0 0 0 text ≡ some cs
unfolding encode_utf8
encoded [] text e = let empty : [] ≡ text = cc e in rw (← empty) (unfold decode_from in refl)
encoded (c ∷ cs) text e =
    let (bs, behind, scalar, whole) = put_char-some c (encode_utf8 cs) text e in
    ap (decode_from 0 0 0) (sym whole)
    ∙ decode_char c bs scalar
    ∙ ap (cons_char c) (encoded cs bs behind)

-- Every text that can be encoded, so that has no half of a surrogate pair on its own, is decoded from its
-- bytes again, whether or not Latin-1 is allowed.
pub decode_utf8-encode_utf8 :
    (cs text : List ℕ) (allow_latin1 : Bool)
    → encode_utf8 cs ≡ some text
    → decode_utf8 text allow_latin1 ≡ some cs
unfolding decode_utf8
decode_utf8-encode_utf8 cs text allow_latin1 e = rw (encoded cs text e, decode_utf8)
