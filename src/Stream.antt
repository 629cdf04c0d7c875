-- ===== src/Stream.antt =====
-- What a reader of a `Websock` sees of its receive queue (app/static/novnc/core/websock.js): the
-- bytes that have arrived and are not yet read, first byte first. A read past them is `none`.
pub mod More
pub mod Reader
pub mod Eats
pub mod Handler
use warpyard.Base.{
  ℕ, ◌+◌, ◌*◌, Bool, Option, none, some, List, [], ◌∷◌, length, take, drop, ltb, leb, if◌then◌else◌,
}

abbrev pub Stream : Type 0
Stream = List ℕ

-- Are there fewer than `num` bytes?
abbrev pub wait : Stream → ℕ → Bool
wait q num = ltb (length q) num

abbrev pub big_endian_from : ℕ → List ℕ → ℕ
big_endian_from acc [] = acc
big_endian_from acc (b ∷ bs) = big_endian_from (acc * 256 + b) bs

-- The number whose bytes, the highest first, are given.
abbrev pub big_endian : List ℕ → ℕ
big_endian bs = big_endian_from 0 bs

-- The next `len` bytes.
unfoldable pub shift_bytes : ℕ → Stream → Option (List ℕ × Stream)
shift_bytes len q = if leb len (length q) then some (take len q, drop len q) else none

-- The next `n` bytes as a number.
unfoldable pub shift : ℕ → Stream → Option (ℕ × Stream)
shift n q = if leb n (length q) then some (big_endian (take n q), drop n q) else none

abbrev pub shift8 : Stream → Option (ℕ × Stream)
shift8 = shift 1

abbrev pub shift16 : Stream → Option (ℕ × Stream)
shift16 = shift 2

abbrev pub shift32 : Stream → Option (ℕ × Stream)
shift32 = shift 4

-- The first byte, not taken.
unfoldable pub peek8 : Stream → Option ℕ
peek8 [] = none
peek8 (b ∷ q) = some b

-- The first `len` bytes, not taken.
unfoldable pub peek_bytes : ℕ → Stream → Option (List ℕ)
peek_bytes len q = if leb len (length q) then some (take len q) else none
