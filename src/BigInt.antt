-- ===== src/BigInt.antt =====
-- app/static/novnc/core/crypto/bigint.js. A BigInt that is never negative is a number, and a string of
-- hexadecimal digits is the list of their values.
pub mod Hex
pub mod Power
pub mod Bytes
use warpyard.Base.{
  ℕ, zero, suc, ◌+◌, ◌-◌, ◌*◌, ◌/◌, ◌%◌, bit_and, Option, none, some, List, [], ◌∷◌, ◌++◌, length,
  ◌==◌, if◌then◌else◌,
}

-- The loop of `modPow`; it ends, so each turn takes one of `fuel`.
unfoldable pub mod_pow_loop : ℕ → ℕ → ℕ → ℕ → ℕ → ℕ
mod_pow_loop zero r b e m = r
mod_pow_loop (suc fuel) r b zero m = r
mod_pow_loop (suc fuel) r b (suc e) m =
    mod_pow_loop fuel (if bit_and (suc e) 1 == 1 then r * b % m else r) (b * b % m) (suc e / 2) m

-- A division by 0n throws.
unfoldable pub mod_pow : ℕ → ℕ → ℕ → Option ℕ
mod_pow b e zero = none
mod_pow b e (suc m) = some (mod_pow_loop e 1 (b % suc m) e (suc m))

-- `toString(16)`, in front of the digits `tail`.
unfoldable pub to_string_from : ℕ → ℕ → List ℕ → List ℕ
to_string_from fuel zero tail = tail
to_string_from zero (suc n) tail = tail
to_string_from (suc fuel) (suc n) tail = to_string_from fuel (suc n / 16) (suc n % 16 ∷ tail)

unfoldable pub to_string16 : ℕ → List ℕ
to_string16 zero = 0 ∷ []
to_string16 (suc n) = to_string_from (suc n) (suc n) []

-- `padStart` with the digit 0.
unfoldable pub zeros : ℕ → List ℕ → List ℕ
zeros zero hex = hex
zeros (suc n) hex = 0 ∷ zeros n hex

unfoldable pub pad_start : ℕ → List ℕ → List ℕ
pad_start width hex = zeros (width - length hex) hex

-- A byte for each two digits. The write for a single digit left over is behind the array's end.
unfoldable pub from_pairs : List ℕ → List ℕ
from_pairs [] = []
from_pairs (h ∷ []) = []
from_pairs (h ∷ l ∷ hex) = (h * 16 + l) ∷ from_pairs hex

unfoldable pub big_int_to_u8_array : ℕ → ℕ → List ℕ
big_int_to_u8_array bigint pad_length =
    let hex = to_string16 bigint in
    let pad = if pad_length == 0 then (length hex + 1) / 2 else pad_length in
    from_pairs (pad_start (pad * 2) hex)

-- `BigInt('0x…')`, which throws where there is no digit.
unfoldable pub parse_digits : ℕ → List ℕ → ℕ
parse_digits n [] = n
parse_digits n (d ∷ hex) = parse_digits (n * 16 + d) hex

unfoldable pub parse_big_int : List ℕ → Option ℕ
parse_big_int [] = none
parse_big_int (d ∷ hex) = some (parse_digits 0 (d ∷ hex))

unfoldable pub to_hex : List ℕ → List ℕ
to_hex [] = []
to_hex (b ∷ arr) = pad_start 2 (to_string16 b) ++ to_hex arr

unfoldable pub u8_array_to_big_int : List ℕ → Option ℕ
u8_array_to_big_int arr = parse_big_int (to_hex arr)
