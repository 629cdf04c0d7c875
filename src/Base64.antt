-- ===== src/Base64.antt =====
-- app/static/novnc/core/base64.js. Strings are lists of character codes.
pub mod Digits
pub mod RoundTrip
mod Tests
use Prim.Native.Nat.{ℕ, zero, suc, ◌+◌, ◌-◌, ◌*◌, ◌/◌, ◌%◌, ◌^◌, bit_and, bit_or}
use mathlib.Core.Bool.{Bool, true, false}
use mathlib.Core.Option.{Option, none, some, map}
use mathlib.Core.List.{List, [], ◌∷◌, ◌++◌}
use warpyard.Base.{length, get_or, drop, ltb, leb, ◌==◌, if◌then◌else◌}

-- 'ABC...Zabc...z012...9+/='
abbrev pub to_base64_table : List ℕ
to_base64_table =
    65 ∷ 66 ∷ 67 ∷ 68 ∷ 69 ∷ 70 ∷ 71 ∷ 72 ∷ 73 ∷ 74 ∷ 75 ∷ 76 ∷ 77 ∷ 78 ∷ 79 ∷ 80 ∷ 81 ∷ 82 ∷ 83
    ∷ 84 ∷ 85 ∷ 86 ∷ 87 ∷ 88 ∷ 89 ∷ 90 ∷ 97 ∷ 98 ∷ 99 ∷ 100 ∷ 101 ∷ 102 ∷ 103 ∷ 104 ∷ 105 ∷ 106
    ∷ 107 ∷ 108 ∷ 109 ∷ 110 ∷ 111 ∷ 112 ∷ 113 ∷ 114 ∷ 115 ∷ 116 ∷ 117 ∷ 118 ∷ 119 ∷ 120 ∷ 121 ∷ 122
    ∷ 48 ∷ 49 ∷ 50 ∷ 51 ∷ 52 ∷ 53 ∷ 54 ∷ 55 ∷ 56 ∷ 57 ∷ 43 ∷ 47 ∷ 61 ∷ []

abbrev pub base64_pad : ℕ
base64_pad = 61

-- `none` is -1.
abbrev pub to_binary_table : List (Option ℕ)
to_binary_table =
    none
    ∷ none
    ∷ none
    ∷ none
    ∷ none
    ∷ none
    ∷ none
    ∷ none
    ∷ none
    ∷ none
    ∷ none
    ∷ none
    ∷ none
    ∷ none
    ∷ none
    ∷ none
    ∷ none
    ∷ none
    ∷ none
    ∷ none
    ∷ none
    ∷ none
    ∷ none
    ∷ none
    ∷ none
    ∷ none
    ∷ none
    ∷ none
    ∷ none
    ∷ none
    ∷ none
    ∷ none
    ∷ none
    ∷ none
    ∷ none
    ∷ none
    ∷ none
    ∷ none
    ∷ none
    ∷ none
    ∷ none
    ∷ none
    ∷ none
    ∷ some 62
    ∷ none
    ∷ none
    ∷ none
    ∷ some 63
    ∷ some 52
    ∷ some 53
    ∷ some 54
    ∷ some 55
    ∷ some 56
    ∷ some 57
    ∷ some 58
    ∷ some 59
    ∷ some 60
    ∷ some 61
    ∷ none
    ∷ none
    ∷ none
    ∷ some 0
    ∷ none
    ∷ none
    ∷ none
    ∷ some 0
    ∷ some 1
    ∷ some 2
    ∷ some 3
    ∷ some 4
    ∷ some 5
    ∷ some 6
    ∷ some 7
    ∷ some 8
    ∷ some 9
    ∷ some 10
    ∷ some 11
    ∷ some 12
    ∷ some 13
    ∷ some 14
    ∷ some 15
    ∷ some 16
    ∷ some 17
    ∷ some 18
    ∷ some 19
    ∷ some 20
    ∷ some 21
    ∷ some 22
    ∷ some 23
    ∷ some 24
    ∷ some 25
    ∷ none
    ∷ none
    ∷ none
    ∷ none
    ∷ none
    ∷ none
    ∷ some 26
    ∷ some 27
    ∷ some 28
    ∷ some 29
    ∷ some 30
    ∷ some 31
    ∷ some 32
    ∷ some 33
    ∷ some 34
    ∷ some 35
    ∷ some 36
    ∷ some 37
    ∷ some 38
    ∷ some 39
    ∷ some 40
    ∷ some 41
    ∷ some 42
    ∷ some 43
    ∷ some 44
    ∷ some 45
    ∷ some 46
    ∷ some 47
    ∷ some 48
    ∷ some 49
    ∷ some 50
    ∷ some 51
    ∷ none
    ∷ none
    ∷ none
    ∷ none
    ∷ none
    ∷ []

unfoldable pub digit : ℕ → ℕ
digit i = get_or to_base64_table i 0

-- Every three bytes to four characters, and the remaining one or two padded.
unfoldable pub encode : List ℕ → List ℕ
encode [] = []
encode (a ∷ []) = digit (a / 2 ^ 2) ∷ digit (bit_and a 0x03 * 2 ^ 4) ∷ digit 64 ∷ digit 64 ∷ []
encode (a ∷ b ∷ []) =
    digit (a / 2 ^ 2)
    ∷ digit (bit_and a 0x03 * 2 ^ 4 + b / 2 ^ 4)
    ∷ digit (bit_and b 0x0f * 2 ^ 2)
    ∷ digit 64
    ∷ []
encode (a ∷ b ∷ c ∷ rest) =
    digit (a / 2 ^ 2)
    ∷ digit (bit_and a 0x03 * 2 ^ 4 + b / 2 ^ 4)
    ∷ digit (bit_and b 0x0f * 2 ^ 2 + c / 2 ^ 6)
    ∷ digit (bit_and c 0x3f)
    ∷ encode rest

abbrev pub index_of : ℕ → List ℕ → Option ℕ
index_of c [] = none
index_of c (x ∷ xs) = if x == c then some 0 else map suc (index_of c xs)

-- The end of the data: the padding, if it is there and not before the offset.
abbrev pub data_end : Option ℕ → (len offset : ℕ) → ℕ
data_end none len offset = len - offset
data_end (some i) len offset = if ltb i offset then len - offset else i - offset

unfoldable pub data_length : List ℕ → ℕ → ℕ
data_length text offset = data_end (index_of base64_pad text) (length text) offset

-- `Math.floor((dataLength % 4) / 1.5)` is two thirds.
unfoldable pub result_length : ℕ → ℕ
result_length len = len / 2 ^ 2 * 3 + len % 4 * 2 / 3

-- The value of a character, `none` where it is illegal.
unfoldable pub to_binary : ℕ → Option ℕ
to_binary ch = get_or to_binary_table (bit_and ch 0x7f) none

-- The loop of `decode`: the bytes appended, `none` for the error of bits that are left.
unfoldable pub decode_from : List ℕ → (leftbits leftdata : ℕ) → Option (List ℕ)
decode_from [] leftbits leftdata = if leftbits == 0 then some [] else none
decode_from (ch ∷ text) leftbits leftdata = elim (to_binary ch) [
  | none ↦ decode_from text leftbits leftdata
  | some c ↦
      let collected = bit_or (leftdata * 2 ^ 6) c in
      let bits = leftbits + 6 - 8 in
      let rest = decode_from text bits (bit_and collected (2 ^ bits - 1)) in
      let short = decode_from text (leftbits + 6) collected in
      if leb 8 (leftbits + 6)
      then if ch == base64_pad
        then rest
        else map (λ bytes. bit_and (collected / 2 ^ bits) 0xff ∷ bytes) rest
      else short
]

-- An array of that length at least, with the bytes in front; a place without one is `none`.
abbrev pub fill : ℕ → List ℕ → List (Option ℕ)
fill zero [] = []
fill (suc n) [] = none ∷ fill n []
fill zero (b ∷ bytes) = some b ∷ fill zero bytes
fill (suc n) (b ∷ bytes) = some b ∷ fill n bytes

unfoldable pub decode : List ℕ → ℕ → Option (List (Option ℕ))
unfolding data_length result_length decode_from
decode text offset =
    map (fill (result_length (data_length text offset))) (decode_from (drop offset text) 0 0)
