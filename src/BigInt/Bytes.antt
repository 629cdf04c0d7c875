-- ===== src/BigInt/Bytes.antt =====
-- The byte arrays of bigint.js.
use warpyard.Base.{
  ℕ, zero, suc, ◌+◌, ◌*◌, ◌/◌, ◌%◌, ◌^◌, ◌<◌, some, List, [], ◌∷◌, ◌++◌, append-nil, append_assoc,
  false, ◌==◌, if◌then◌else◌, length, length-append, All, All-append, ◌≡◌, refl, sym, ap, ap₂, ◌∙◌,
  arith,
}
use mathlib.Core.Option
use native.Mathlib.Nat.{pow-suc, pow-zero}
use warpyard.BigInt.{
  to_string16, pad_start, from_pairs, big_int_to_u8_array, parse_digits, parse_big_int, to_hex,
  u8_array_to_big_int,
}
use warpyard.BigInt.Hex.{
  bytes_of, fixed, from_pairs_lem, parse_digits_lem, to_string16_lem, value, value_bound,
}

pub value-below : (bs : List ℕ) → All (λ b. b < 256) bs → value 0 bs < 256 ^ length bs
value-below bs h = omega (arith, value_bound 0 bs h)

value-append : (acc : ℕ) (bs cs : List ℕ) → value acc (bs ++ cs) ≡ value (value acc bs) cs
unfolding value
value-append acc [] cs = refl
value-append acc (b ∷ bs) cs = value-append (acc * 256 + b) bs cs

bytes_of-value :
    (j acc : ℕ) (bs : List ℕ)
    → All (λ b. b < 256) bs
    → bytes_of (j + length bs) (value acc bs) ≡ bytes_of j acc ++ bs
unfolding bytes_of value
bytes_of-value j acc [] h =
    let same : j + 0 ≡ j = omega arith in
    ap (λ n. bytes_of n acc) same ∙ sym (append-nil (bytes_of j acc))
bytes_of-value j acc (b ∷ bs) h =
    let same : j + suc (length bs) ≡ suc j + length bs = omega arith in
    let high : (acc * 256 + b) / 256 ≡ acc = omega (arith, h.0) in
    let low : (acc * 256 + b) % 256 ≡ b = omega (arith, h.0) in
    ap (λ n. bytes_of n (value (acc * 256 + b) bs)) same
    ∙ bytes_of-value (suc j) (acc * 256 + b) bs h.1
    ∙ ap₂ (λ x y. (bytes_of j x ++ (y ∷ [])) ++ bs) high low
    ∙ append_assoc (bytes_of j acc) (b ∷ []) bs

pub value-bytes_of : (k n : ℕ) → n < 256 ^ k → value 0 (bytes_of k n) ≡ n
unfolding bytes_of value
value-bytes_of zero n below = omega (arith, pow-zero 256)
value-bytes_of (suc k) n below =
    value-append 0 (bytes_of k (n / 256)) (n % 256 ∷ [])
    ∙ ap (λ x. x * 256 + n % 256) (value-bytes_of k (n / 256) (omega (arith, pow-suc 256 k)))
    ∙ omega arith

pub length-bytes_of : (k n : ℕ) → length (bytes_of k n) ≡ k
unfolding bytes_of
length-bytes_of zero n = refl
length-bytes_of (suc k) n =
    omega (arith, length-append (bytes_of k (n / 256)) (n % 256 ∷ []), length-bytes_of k (n / 256))

bytes_of-All : (k n : ℕ) → All (λ b. b < 256) (bytes_of k n)
unfolding bytes_of
bytes_of-All zero n = tt
bytes_of-All (suc k) n =
    let below : n % 256 < 256 = omega arith in
    All-append (λ b. b < 256) (bytes_of k (n / 256)) (n % 256 ∷ []) (bytes_of-All k (n / 256))
      (below, tt)

sixteens : (k : ℕ) → 16 ^ (k * 2) ≡ 256 ^ k
sixteens zero = pow-zero 16 ∙ sym (pow-zero 256)
sixteens (suc k) =
    let twice : suc k * 2 ≡ suc (suc (k * 2)) = omega arith in
    ap (λ x. 16 ^ x) twice
    ∙ omega (arith, sixteens k, pow-suc 256 k, pow-suc 16 (k * 2), pow-suc 16 (suc (k * 2)))

pub big_int_to_u8_array_lem :
    (k n : ℕ) → 0 < k → n < 256 ^ k → big_int_to_u8_array n k ≡ bytes_of k n
unfolding big_int_to_u8_array from_pairs
big_int_to_u8_array_lem zero n some_byte below = absurd (omega arith)
big_int_to_u8_array_lem (suc k) n some_byte below =
    let twice : suc k * 2 ≡ suc (suc (k * 2)) = omega arith in
    let fits : n < 16 ^ suc (suc (k * 2)) =
      omega (arith, ap (λ x. 16 ^ x) twice, sixteens (suc k)) in
    let hex = to_string16 n in
    let padded : (suc k == 0) ≡ false = ground arith in
    ap (λ t. from_pairs (pad_start ((if t then (length hex + 1) / 2 else suc k) * 2) hex)) padded
    ∙ ap (λ w. from_pairs (pad_start w hex)) twice
    ∙ ap from_pairs (to_string16_lem (suc (k * 2)) n fits ∙ sym (ap (λ w. fixed w n) twice))
    ∙ sym (ap from_pairs (append-nil (fixed (suc k * 2) n)))
    ∙ from_pairs_lem (suc k) n []
    ∙ append-nil (bytes_of (suc k) n)

pub u8_array_to_big_int_lem :
    (arr : List ℕ)
    → 0 < length arr
    → All (λ b. b < 256) arr
    → u8_array_to_big_int arr ≡ some (value 0 arr)
unfolding u8_array_to_big_int parse_big_int to_hex fixed
u8_array_to_big_int_lem [] some_byte h = absurd (omega arith)
u8_array_to_big_int_lem (b ∷ bs) some_byte h =
    let digits : pad_start 2 (to_string16 b) ≡ b / 16 % 16 ∷ b % 16 ∷ [] =
      to_string16_lem 1 b h.0 in
    ap (λ x. parse_big_int (x ++ to_hex bs)) digits
    ∙ sym (ap (λ x. some (parse_digits 0 (x ++ to_hex bs))) digits)
    ∙ ap some (parse_digits_lem 0 (b ∷ bs) h)

big_int_to_u8_array-value :
    (arr : List ℕ)
    → 0 < length arr
    → All (λ b. b < 256) arr
    → big_int_to_u8_array (value 0 arr) (length arr) ≡ arr
unfolding bytes_of
big_int_to_u8_array-value [] some_byte h = absurd (omega arith)
big_int_to_u8_array-value (b ∷ bs) some_byte h =
    let same : suc (length bs) ≡ 0 + length (b ∷ bs) = omega arith in
    big_int_to_u8_array_lem (length (b ∷ bs)) (value 0 (b ∷ bs)) some_byte (value-below (b ∷ bs) h)
    ∙ ap (λ j. bytes_of j (value 0 (b ∷ bs))) same
    ∙ bytes_of-value 0 0 (b ∷ bs) h

-- An array of bytes that is not empty becomes a number and, padded to the same length, the array again.
pub u8_array-round_trip :
    (arr : List ℕ)
    → 0 < length arr
    → All (λ b. b < 256) arr
    → Option.map (λ n. big_int_to_u8_array n (length arr)) (u8_array_to_big_int arr) ≡ some arr
u8_array-round_trip arr some_byte h =
    ap (Option.map (λ n. big_int_to_u8_array n (length arr)))
      (u8_array_to_big_int_lem arr some_byte h)
    ∙ ap some (big_int_to_u8_array-value arr some_byte h)

-- A number that fits in the array's length becomes an array and the number again.
pub big_int-round_trip :
    (k n : ℕ) → 0 < k → n < 256 ^ k → u8_array_to_big_int (big_int_to_u8_array n k) ≡ some n
big_int-round_trip k n some_byte below =
    ap u8_array_to_big_int (big_int_to_u8_array_lem k n some_byte below)
    ∙ u8_array_to_big_int_lem (bytes_of k n) (omega (arith, length-bytes_of k n)) (bytes_of-All k n)
    ∙ ap some (value-bytes_of k n below)
