-- ===== src/Utf8.antt =====
-- app/static/novnc/core/util/strings.js, with the `escape`, `decodeURIComponent` and their inverses that
-- it composes. A string is the list of its code points; a string of bytes is one whose are below 256.
pub mod RoundTrip
pub mod Latin1
mod Tests
use warpyard.Base.{
  ℕ, zero, suc, ◌+◌, ◌-◌, ◌*◌, ◌/◌, ◌%◌, Bool, true, false, not, ◌&&◌, ◌||◌, Option, none, some,
  List, [], ◌∷◌, ◌++◌, ltb, leb, ◌==◌, if◌then◌else◌,
}
use mathlib.Core.Option

-- A surrogate half, or past the last code point.
unfoldable pub is_scalar : ℕ → Bool
is_scalar c = ltb c 0xd800 || (leb 0xe000 c && ltb c 0x110000)

-- The bytes of a code point.
unfoldable pub encode_char : ℕ → List ℕ
encode_char c =
    if ltb c 0x80
    then c ∷ []
    else if ltb c 0x800
    then (0xc0 + c / 64) ∷ (0x80 + c % 64) ∷ []
    else if ltb c 0x10000
    then (0xe0 + c / 4096) ∷ (0x80 + c / 64 % 64) ∷ (0x80 + c % 64) ∷ []
    else (0xf0 + c / 262144) ∷ (0x80 + c / 4096 % 64) ∷ (0x80 + c / 64 % 64) ∷ (0x80 + c % 64) ∷ []

-- In front of the bytes of the characters behind it. `none` is the error for half a surrogate pair.
unfoldable pub put_char : ℕ → Option (List ℕ) → Option (List ℕ)
unfolding encode_char is_scalar
put_char c none = none
put_char c (some bs) = if is_scalar c then some (encode_char c ++ bs) else none

-- `encodeUTF8`
unfoldable pub encode_utf8 : List ℕ → Option (List ℕ)
unfolding put_char
encode_utf8 [] = some []
encode_utf8 (c ∷ cs) = put_char c (encode_utf8 cs)

-- What a first byte opens: how many bytes follow, its own bits, and the least code point of that length.
unfoldable pub open_char : ℕ → Option (ℕ × ℕ × ℕ)
open_char b =
    if ltb b 0x80
    then some (0, b, 0)
    else if ltb b 0xc0
    then none
    else if ltb b 0xe0
    then some (1, b - 0xc0, 0x80)
    else if ltb b 0xf0
    then some (2, b - 0xe0, 0x800)
    else if ltb b 0xf8
    then some (3, b - 0xf0, 0x10000)
    else none

-- A byte that goes on a code point has the bits 10 in front.
unfoldable pub is_continuation : ℕ → Bool
is_continuation b = leb 0x80 b && ltb b 0xc0

abbrev pub cons_char : ℕ → Option (List ℕ) → Option (List ℕ)
cons_char c none = none
cons_char c (some cs) = some (c ∷ cs)

-- `decodeURIComponent` behind `more` bytes that are still to come of a code point. `none` is a URIError.
unfoldable pub decode_from : (more acc least : ℕ) → List ℕ → Option (List ℕ)
unfolding open_char is_continuation is_scalar
decode_from zero acc least [] = some []
decode_from (suc more) acc least [] = none
decode_from zero acc least (b ∷ bs) = elim (open_char b) [
  | none ↦ none
  | some (zero, c, _) ↦ cons_char c (decode_from 0 0 0 bs)
  | some (suc n, c, l) ↦ decode_from (suc n) c l bs
]
decode_from (suc zero) acc least (b ∷ bs) =
    let c = acc * 64 + (b - 0x80) in
    let rest = cons_char c (decode_from 0 0 0 bs) in
    if is_continuation b && (leb least c && is_scalar c) then rest else none
decode_from (suc (suc more)) acc least (b ∷ bs) =
    let rest = decode_from (suc more) (acc * 64 + (b - 0x80)) least bs in
    if is_continuation b then rest else none

-- `decodeUTF8`: where Latin-1 is allowed, a string that cannot be decoded is left as it is. `none` is the
-- URIError that goes on to the caller.
unfoldable pub decode_utf8 : List ℕ → Bool → Option (List ℕ)
unfolding decode_from
decode_utf8 utf8string allow_latin1 = elim (decode_from 0 0 0 utf8string) [
  | none ↦ if allow_latin1 then some utf8string else none
  | some text ↦ some text
]
