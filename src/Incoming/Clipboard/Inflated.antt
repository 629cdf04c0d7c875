-- ===== src/Incoming/Clipboard/Inflated.antt =====
-- What `_handleServerCutText` of rfb.js inflates of what was provided: the chunk of the text.
use warpyard.Base.{
  ℕ, ◌/◌, ◌%◌, ◌^◌, ◌≤◌, ◌<◌, true, false, Option, none, some, List, [], ◌∷◌, length, length-take,
  take, take_all, drop, ltb, leb, ◌==◌, if◌then◌else◌, ◌≡◌, refl, ap, ◌∙◌, arith,
}
use warpyard.Stream.{big_endian}
use warpyard.Inflator.{Pako, Inflate, Decompresses, inflate, set_input, new}
use warpyard.Incoming.Clipboard.{inflate_chunk, inflate_chunks}

-- The size and the bytes.
abbrev pub chunk_of : List ℕ → List ℕ
chunk_of bytes =
    length bytes / 2 ^ 24 % 2 ^ 8
    ∷ length bytes / 2 ^ 16 % 2 ^ 8
    ∷ length bytes / 2 ^ 8 % 2 ^ 8
    ∷ length bytes % 2 ^ 8
    ∷ bytes

big_endian-size :
    (n : ℕ)
    → n < 2 ^ 32
    → big_endian (n / 2 ^ 24 % 2 ^ 8 ∷ n / 2 ^ 16 % 2 ^ 8 ∷ n / 2 ^ 8 % 2 ^ 8 ∷ n % 2 ^ 8 ∷ []) ≡ n
big_endian-size n h = omega arith

module _ {Z : Type 0} (pako : Pako Z) {Holds : Z → List ℕ → List ℕ → Type 0}
    (zlib : Decompresses pako Holds) where
  inflate-some :
      (n : ℕ) (plain : List ℕ) (s : Inflate Z)
      → Holds s.state s.input plain
      → 0 < n
      → n ≤ length plain
      → (s' : Inflate Z) × (inflate pako n s ≡ some (take n plain, s'))
        × Holds s'.state s'.input (drop n plain)
  unfolding inflate
  inflate-some n plain s h room le =
      let ran = pako.run s.state s.input n in
      let fine = zlib.ok s.state s.input plain n h room le in
      let written = zlib.writes s.state s.input plain n h room le in
      let whole : (length ran.output == n) ≡ true = ground (arith, written, length-take n plain) in
      (
        record {
          state = ran.state;
          input = ran.rest;
          chunk_size = if ltb s.chunk_size n then n else s.chunk_size;
        },
        rw (fine, whole, written) refl,
        zlib.goes_on s.state s.input plain n h room le,
      )

  -- What follows the size of a chunk.
  abbrev of_size : ℕ → Inflate Z → Option (List ℕ × Inflate Z)
  of_size n s = if leb (2 ^ 31) n then none else inflate pako n s

  abbrev behind_size : Option (List ℕ × Inflate Z) → Option (List ℕ × Inflate Z)
  behind_size none = none
  behind_size (some (size, s)) = of_size (big_endian size) s

  size_first : (s : Inflate Z) → inflate_chunk pako s ≡ behind_size (inflate pako 4 s)
  unfolding inflate_chunk
  size_first s = by_size (inflate pako 4 s)
    where
      by_size :
          (o : Option (List ℕ × Inflate Z))
          → elim o as (λ _. Option (List ℕ × Inflate Z)) [
            | none ↦ none
            | some (size, s') ↦ of_size (big_endian size) s'
          ]
            ≡ behind_size o
      by_size none = refl
      by_size (some (size, s')) = refl

  inflate_chunk-some :
      (bytes : List ℕ) (s : Inflate Z)
      → Holds s.state s.input (chunk_of bytes)
      → 0 < length bytes
      → length bytes < 2 ^ 31
      → (s' : Inflate Z) × (inflate_chunk pako s ≡ some (bytes, s'))
  inflate_chunk-some bytes s h some_bytes small =
      let (s1, one, behind) = inflate-some 4 (chunk_of bytes) s h (omega arith) (omega arith) in
      let (s2, two, _) = inflate-some (length bytes) bytes s1 behind some_bytes (omega arith) in
      let fits : leb (2 ^ 31) (length bytes) ≡ false = ground arith in
      (
        s2,
        size_first s
            ∙ ap behind_size one
            ∙ ap (λ n. of_size n s1) (big_endian-size (length bytes) (omega arith))
            ∙ ap (λ b. if b then none else inflate pako (length bytes) s1) fits
            ∙ two
            ∙ ap (λ l. some (l, s2)) (take_all (length bytes) bytes (omega arith)),
      )

  -- No format but the text.
  no_more : (text : Option (List ℕ)) (s : Inflate Z) → inflate_chunks pako 15 1 text s ≡ some text
  unfolding inflate_chunks
  no_more text s = refl

  -- What follows the first chunk, which is the text.
  abbrev behind_text : Option (List ℕ × Inflate Z) → Option (Option (List ℕ))
  behind_text none = none
  behind_text (some (chunk, s')) = inflate_chunks pako 15 1 (some chunk) s'

  first_chunk :
      (s : Inflate Z) → inflate_chunks pako 16 1 none s ≡ behind_text (inflate_chunk pako s)
  unfolding inflate_chunks
  first_chunk s = by_chunk (inflate_chunk pako s)
    where
      by_chunk :
          (o : Option (List ℕ × Inflate Z))
          → elim o as (λ _. Option (Option (List ℕ))) [
            | none ↦ none
            | some (chunk, s') ↦ inflate_chunks pako 15 1 (some chunk) s'
          ]
            ≡ behind_text o
      by_chunk none = refl
      by_chunk (some (chunk, s')) = refl

  inflate_chunks-text :
      (bytes : List ℕ) (s : Inflate Z)
      → Holds s.state s.input (chunk_of bytes)
      → 0 < length bytes
      → length bytes < 2 ^ 31
      → inflate_chunks pako 16 1 none s ≡ some (some bytes)
  inflate_chunks-text bytes s h some_bytes small =
      let (s', e) = inflate_chunk-some bytes s h some_bytes small in
      first_chunk s ∙ ap behind_text e ∙ no_more (some bytes) s'

  -- With a new inflator.
  pub from_start :
      (z bytes : List ℕ)
      → Holds pako.start z (chunk_of bytes)
      → 0 < length bytes
      → length bytes < 2 ^ 31
      → inflate_chunks pako 16 1 none (set_input (some z) (new pako)) ≡ some (some bytes)
  from_start z bytes h some_bytes small =
      inflate_chunks-text bytes (set_input (some z) (new pako)) (unfold set_input new in h)
        some_bytes small
