-- ===== src/BigInt/Hex.antt =====
-- Hexadecimal digits, by which bigint.js converts.
use warpyard.Base.{
  ℕ, zero, suc, ◌+◌, ◌*◌, ◌/◌, ◌%◌, ◌^◌, ◌≤◌, ◌<◌, List, [], ◌∷◌, ◌++◌, append-nil, append_assoc,
  length, All, ◌≡◌, refl, sym, ap, ap₂, ◌∙◌, arith,
}
use native.Mathlib.Nat.{pow-suc, pow-zero, mul_assoc, mul_comm, mul-le-mul_right}
use warpyard.BigInt.{
  to_string_from, to_string16, zeros, pad_start, from_pairs, parse_digits, to_hex,
}

-- A fixed number of digits, and of bytes.
unfoldable pub fixed : ℕ → ℕ → List ℕ
fixed zero n = []
fixed (suc k) n = fixed k (n / 16) ++ (n % 16 ∷ [])

unfoldable pub bytes_of : ℕ → ℕ → List ℕ
bytes_of zero n = []
bytes_of (suc k) n = bytes_of k (n / 256) ++ (n % 256 ∷ [])

-- The number that bytes spell behind `acc`.
unfoldable pub value : ℕ → List ℕ → ℕ
value acc [] = acc
value acc (b ∷ bs) = value (acc * 256 + b) bs

zeros_behind : (k : ℕ) (hex : List ℕ) → zeros k (0 ∷ hex) ≡ 0 ∷ zeros k hex
unfolding zeros
zeros_behind zero hex = refl
zeros_behind (suc k) hex = ap (λ x. 0 ∷ x) (zeros_behind k hex)

fixed_zero : (k : ℕ) (hex : List ℕ) → fixed k 0 ++ hex ≡ zeros k hex
unfolding fixed zeros
fixed_zero zero hex = refl
fixed_zero (suc k) hex =
    append_assoc (fixed k 0) (0 ∷ []) hex ∙ fixed_zero k (0 ∷ hex) ∙ zeros_behind k hex

pad_start_exact : (k : ℕ) (hex : List ℕ) → pad_start (k + length hex) hex ≡ zeros k hex
unfolding pad_start
pad_start_exact k hex = ap (λ n. zeros n hex) (omega arith)

to_string_from_lem :
    (k fuel n : ℕ) (tail : List ℕ)
    → n ≤ fuel
    → n < 16 ^ k
    → pad_start (k + length tail) (to_string_from fuel n tail) ≡ fixed k n ++ tail
unfolding to_string_from fixed
to_string_from_lem k fuel zero tail h below = pad_start_exact k tail ∙ sym (fixed_zero k tail)
to_string_from_lem k zero (suc n) tail h below = absurd (omega arith)
to_string_from_lem zero (suc fuel) (suc n) tail h below = absurd (omega (arith, pow-zero 16))
to_string_from_lem (suc k) (suc fuel) (suc n) tail h below =
    let rest = to_string_from fuel (suc n / 16) (suc n % 16 ∷ tail) in
    let same : suc k + length tail ≡ k + suc (length tail) = omega arith in
    ap (λ w. pad_start w rest) same
    ∙ to_string_from_lem k fuel (suc n / 16) (suc n % 16 ∷ tail) (omega arith)
        (omega (arith, pow-suc 16 k))
    ∙ sym (append_assoc (fixed k (suc n / 16)) (suc n % 16 ∷ []) tail)

pub to_string16_lem :
    (k n : ℕ) → n < 16 ^ suc k → pad_start (suc k) (to_string16 n) ≡ fixed (suc k) n
unfolding to_string16 fixed
to_string16_lem k zero below =
    let same : suc k ≡ k + 1 = omega arith in
    ap (λ w. pad_start w (0 ∷ [])) same ∙ pad_start_exact k (0 ∷ []) ∙ sym (fixed_zero k (0 ∷ []))
to_string16_lem k (suc n) below =
    let same : suc k ≡ suc k + 0 = omega arith in
    let rest = to_string_from (suc n) (suc n) [] in
    ap (λ w. pad_start w rest) same
    ∙ to_string_from_lem (suc k) (suc n) (suc n) [] (omega arith) below
    ∙ append-nil (fixed (suc k) (suc n))

pub from_pairs_lem :
    (k n : ℕ) (hex : List ℕ) → from_pairs (fixed (k * 2) n ++ hex) ≡ bytes_of k n ++ from_pairs hex
unfolding from_pairs fixed bytes_of
from_pairs_lem zero n hex = refl
from_pairs_lem (suc k) n hex =
    let high = n / 16 % 16 in
    let low = n % 16 in
    let byte : high * 16 + low ≡ n % 256 = omega arith in
    let rest : n / 16 / 16 ≡ n / 256 = omega arith in
    let digits : fixed (suc k * 2) n ++ hex ≡ fixed (k * 2) (n / 16 / 16) ++ (high ∷ low ∷ hex) =
      let twice : suc k * 2 ≡ suc (suc (k * 2)) = omega arith in
      ap (λ w. fixed w n ++ hex) twice
      ∙ append_assoc (fixed (suc (k * 2)) (n / 16)) (low ∷ []) hex
      ∙ append_assoc (fixed (k * 2) (n / 16 / 16)) (high ∷ []) (low ∷ hex) in
    ap from_pairs digits
    ∙ from_pairs_lem k (n / 16 / 16) (high ∷ low ∷ hex)
    ∙ ap₂ (λ m b. bytes_of k m ++ (b ∷ from_pairs hex)) rest byte
    ∙ sym (append_assoc (bytes_of k (n / 256)) (n % 256 ∷ []) (from_pairs hex))

pub parse_digits_lem :
    (acc : ℕ) (bs : List ℕ) → All (λ b. b < 256) bs → parse_digits acc (to_hex bs) ≡ value acc bs
unfolding parse_digits to_hex value fixed
parse_digits_lem acc [] h = refl
parse_digits_lem acc (b ∷ bs) h =
    let digits : pad_start 2 (to_string16 b) ≡ b / 16 % 16 ∷ b % 16 ∷ [] =
      to_string16_lem 1 b h.0 in
    let byte : (acc * 16 + b / 16 % 16) * 16 + b % 16 ≡ acc * 256 + b = omega (arith, h.0) in
    ap (λ x. parse_digits acc (x ++ to_hex bs)) digits
    ∙ ap (λ x. parse_digits x (to_hex bs)) byte
    ∙ parse_digits_lem (acc * 256 + b) bs h.1

pub value_bound :
    (acc : ℕ) (bs : List ℕ) → All (λ b. b < 256) bs → suc (value acc bs) ≤ suc acc * 256 ^ length bs
unfolding value
value_bound acc [] h = omega (arith, ap (λ x. suc acc * x) (pow-zero 256))
value_bound acc (b ∷ bs) h =
    let power = 256 ^ length bs in
    let more : suc (acc * 256 + b) ≤ suc acc * 256 = omega (arith, h.0) in
    let regroup : suc acc * 256 * power ≡ suc acc * (power * 256) =
      mul_assoc (suc acc) 256 power ∙ ap (λ x. suc acc * x) (mul_comm 256 power) in
    omega (
      arith,
      value_bound (acc * 256 + b) bs h.1,
      mul-le-mul_right power more,
      regroup,
      ap (λ x. suc acc * x) (pow-suc 256 (length bs)),
    )
