-- ===== src/Base64/Digits.antt =====
-- The digits of base64.js, and each group of them.
use Prim.Native.Nat.{ℕ, ◌+◌, ◌-◌, ◌*◌, ◌/◌, ◌%◌, ◌^◌, ◌≤◌, ◌<◌, bit_and}
use mathlib.Core.Path.{◌≡◌, refl, ap, ap₂, ◌∙◌}
use mathlib.Core.Bool.{Bool, true, false, ◌&&◌, not}
use mathlib.Core.Option
use mathlib.Core.Option.{Option, none, some}
use mathlib.Core.List.{List, [], ◌∷◌, ◌++◌}
use native.Mathlib.Omega.{arith}
use warpyard.Base.{leb, ◌==◌, ==_iff}
use warpyard.Base.Bits.{
  all_below, all_below_sound, bit_and-zero, zero-bit_and, and_3, and_15, and_255, or_fields,
}
use warpyard.Base64.{digit, base64_pad, to_binary, decode_from}

abbrev is_value : ℕ → Option ℕ → Bool
is_value i none = false
is_value i (some v) = v == i

-- Each of the 64 digits has its own value, and is not the padding.
digit_table :
    all_below 64 (λ i. is_value i (to_binary (digit i)) && not (digit i == base64_pad)) ≡ true
unfolding all_below digit to_binary
digit_table = refl

value_lem : (i : ℕ) (o : Option ℕ) → is_value i o ≡ true → o ≡ some i
value_lem i none h = absurd (cc h)
value_lem i (some v) h = ap some ((==_iff v i).0 h)

pub digit_lem :
    (i : ℕ) → i < 64 → (to_binary (digit i) ≡ some i) × ((digit i == base64_pad) ≡ false)
digit_lem i h =
    let t =
      all_below_sound 64 (λ j. is_value j (to_binary (digit j)) && not (digit j == base64_pad)) i
        digit_table h in
    (value_lem i (to_binary (digit i)) ground (arith, t), ground (arith, t))

-- A digit with too few bits for a byte, and one that ends a byte.
collect_lem :
    (i : ℕ) (text : List ℕ) (leftbits leftdata : ℕ)
    → i < 64
    → leftbits + 6 < 8
    → decode_from (digit i ∷ text) leftbits leftdata
      ≡ decode_from text (leftbits + 6) (leftdata * 64 + i)
unfolding decode_from
collect_lem i text leftbits leftdata h few =
    let d = digit_lem i h in
    let no_byte : leb 8 (leftbits + 6) ≡ false = ground arith in
    rw (decode_from, d.0, no_byte, or_fields 6 leftdata i (leftdata * 2 ^ 6) refl h)

byte_lem :
    (i : ℕ) (text : List ℕ) (leftbits leftdata : ℕ)
    → i < 64
    → 8 ≤ leftbits + 6
    → decode_from (digit i ∷ text) leftbits leftdata
      ≡ Option.map
          (λ bytes. (leftdata * 64 + i) / 2 ^ (leftbits + 6 - 8) % 256 ∷ bytes)
          (decode_from text
            (leftbits + 6 - 8)
            (bit_and (leftdata * 64 + i) (2 ^ (leftbits + 6 - 8) - 1)))
unfolding decode_from
byte_lem i text leftbits leftdata h many =
    let d = digit_lem i h in
    let byte : leb 8 (leftbits + 6) ≡ true = ground arith in
    rw (decode_from, d.0, byte, d.1, or_fields 6 leftdata i (leftdata * 2 ^ 6) refl h, and_255)

abbrev pub cons_all : List ℕ → Option (List ℕ) → Option (List ℕ)
cons_all front o = Option.map (λ bytes. front ++ bytes) o

-- The bytes that the second, the third and the fourth digit of a group end.
pub first_byte :
    (a i : ℕ) (text : List ℕ)
    → a < 256
    → i < 64
    → i / 16 ≡ a % 4
    → decode_from (digit (a / 2 ^ 2) ∷ digit i ∷ text) 0 0
      ≡ cons_all (a ∷ []) (decode_from text 4 (i % 16))
first_byte a i text ha hi h =
    collect_lem (a / 2 ^ 2) (digit i ∷ text) 0 0 (omega arith) (omega arith)
    ∙ byte_lem i text 6 (0 * 64 + a / 2 ^ 2) hi (omega arith)
    ∙ ap₂ (λ (b ld : ℕ). cons_all (b ∷ []) (decode_from text 4 ld))
        {x = ((0 * 64 + a / 2 ^ 2) * 64 + i) / 2 ^ 4 % 256} {y = a}
        {u = bit_and ((0 * 64 + a / 2 ^ 2) * 64 + i) 15} {v = i % 16} (omega arith)
        (and_15 ((0 * 64 + a / 2 ^ 2) * 64 + i) ∙ omega arith)

pub second_byte :
    (b i : ℕ) (text : List ℕ)
    → b < 256
    → i < 64
    → i / 4 ≡ b % 16
    → decode_from (digit i ∷ text) 4 (b / 16) ≡ cons_all (b ∷ []) (decode_from text 2 (i % 4))
second_byte b i text hb hi h =
    byte_lem i text 4 (b / 16) hi (omega arith)
    ∙ ap₂ (λ (x ld : ℕ). cons_all (x ∷ []) (decode_from text 2 ld))
        {x = (b / 16 * 64 + i) / 2 ^ 2 % 256} {y = b} {u = bit_and (b / 16 * 64 + i) 3} {v = i % 4}
        (omega arith) (and_3 (b / 16 * 64 + i) ∙ omega arith)

pub third_byte :
    (c i : ℕ) (text : List ℕ)
    → c < 256
    → i ≡ c % 64
    → decode_from (digit i ∷ text) 2 (c / 64) ≡ cons_all (c ∷ []) (decode_from text 0 0)
third_byte c i text hc h =
    byte_lem i text 2 (c / 64) (omega arith) (omega arith)
    ∙ ap₂ (λ (x ld : ℕ). cons_all (x ∷ []) (decode_from text 0 ld))
        {x = (c / 64 * 64 + i) / 2 ^ 0 % 256} {y = c} {u = bit_and (c / 64 * 64 + i) 0} {v = 0}
        (omega arith) (bit_and-zero (c / 64 * 64 + i))

padding : (to_binary (digit 64) ≡ some 0) × ((digit 64 == base64_pad) ≡ true)
unfolding to_binary digit
padding = (refl, refl)

pub pad_lem :
    (text : List ℕ) (leftbits : ℕ)
    → 8 ≤ leftbits + 6
    → decode_from (digit 64 ∷ text) leftbits 0 ≡ decode_from text (leftbits + 6 - 8) 0
unfolding decode_from
pad_lem text leftbits many =
    let byte : leb 8 (leftbits + 6) ≡ true = ground arith in
    rw (decode_from, padding.0, byte, padding.1, zero-bit_and (2 ^ (leftbits + 6 - 8) - 1))

pub ended : decode_from [] 0 0 ≡ some []
unfolding decode_from
ended = refl
