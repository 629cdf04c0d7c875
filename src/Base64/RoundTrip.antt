-- ===== src/Base64/RoundTrip.antt =====
-- Decoding after encoding, of base64.js.
use Prim.Native.Nat.{ℕ, suc, ◌+◌, ◌*◌, ◌/◌, ◌%◌, ◌^◌, ◌<◌}
use mathlib.Core.Path.{◌≡◌, refl, ap, ◌∙◌}
use mathlib.Core.Option
use mathlib.Core.Option.{Option, none, some}
use mathlib.Core.List.{List, [], ◌∷◌, map}
use native.Mathlib.Omega.{arith}
use warpyard.Base.{length, All}
use warpyard.Base.Bits.{and_3, and_15, and_63}
use warpyard.Base64.{
  digit, encode, base64_pad, index_of, data_end, data_length, result_length, decode_from, fill,
  decode,
}
use warpyard.Base64.Digits.{
  cons_all, digit_lem, ended, first_byte, pad_lem, second_byte, third_byte,
}

abbrev pub IsBytes : List ℕ → Type 0
IsBytes bs = All (λ b. b < 256) bs

-- Decoding takes each group of an encoded text to its bytes.
decode_from-encode : (bs : List ℕ) → IsBytes bs → decode_from (encode bs) 0 0 ≡ some bs
unfolding encode
decode_from-encode [] h = ended
decode_from-encode (a ∷ []) h = rw (and_3 a) (
    first_byte a (a % 4 * 2 ^ 4) (digit 64 ∷ digit 64 ∷ []) h.0 (omega arith) (omega arith)
    ∙ ap (λ ld. cons_all (a ∷ []) (decode_from (digit 64 ∷ digit 64 ∷ []) 4 ld)) {y = 0}
        (omega arith)
    ∙ ap (cons_all (a ∷ []))
        (pad_lem (digit 64 ∷ []) 4 (omega arith) ∙ pad_lem [] 2 (omega arith) ∙ ended))
decode_from-encode (a ∷ b ∷ []) h =
    let i : ℕ = a % 4 * 2 ^ 4 + b / 2 ^ 4 in
    let j : ℕ = b % 16 * 2 ^ 2 in
    rw (and_3 a, and_15 b)
      (first_byte a i (digit j ∷ digit 64 ∷ []) h.0 (omega (arith, h.1.0)) (omega (arith, h.1.0))
        ∙ ap (λ ld. cons_all (a ∷ []) (decode_from (digit j ∷ digit 64 ∷ []) 4 ld)) {y = b / 16}
            (omega (arith, h.1.0))
        ∙ ap (cons_all (a ∷ [])) (second_byte b j (digit 64 ∷ []) h.1.0 (omega arith) (omega arith))
        ∙ ap (λ ld. cons_all (a ∷ []) (cons_all (b ∷ []) (decode_from (digit 64 ∷ []) 2 ld)))
            {y = 0} (omega arith)
        ∙ ap (λ o. cons_all (a ∷ []) (cons_all (b ∷ []) o)) (pad_lem [] 2 (omega arith) ∙ ended))
decode_from-encode (a ∷ b ∷ c ∷ rest) h =
    let i : ℕ = a % 4 * 2 ^ 4 + b / 2 ^ 4 in
    let j : ℕ = b % 16 * 2 ^ 2 + c / 2 ^ 6 in
    let k : ℕ = c % 64 in
    let hb : b < 256 = h.1.0 in
    let hc : c < 256 = h.1.1.0 in
    rw (and_3 a, and_15 b, and_63 c)
      (first_byte a i (digit j ∷ digit k ∷ encode rest) h.0 (omega arith) (omega arith)
        ∙ ap (λ ld. cons_all (a ∷ []) (decode_from (digit j ∷ digit k ∷ encode rest) 4 ld))
            {y = b / 16} (omega arith)
        ∙ ap (cons_all (a ∷ []))
            (second_byte b j (digit k ∷ encode rest) hb (omega arith) (omega arith))
        ∙ ap
            (λ ld. cons_all (a ∷ []) (cons_all (b ∷ []) (decode_from (digit k ∷ encode rest) 2 ld)))
            {y = c / 64} (omega arith)
        ∙ ap (λ o. cons_all (a ∷ []) (cons_all (b ∷ []) o)) (third_byte c k (encode rest) hc refl)
        ∙ ap (λ o. cons_all (a ∷ []) (cons_all (b ∷ []) (cons_all (c ∷ []) o)))
            (decode_from-encode rest h.1.1.1))

-- A digit counts as one character of data, and the padding ends the data.
data_length-digit :
    (i : ℕ) (text : List ℕ) → i < 64 → data_length (digit i ∷ text) 0 ≡ suc (data_length text 0)
unfolding data_length
data_length-digit i text h =
    ap (λ o. data_end o (suc (length text)) 0) found ∙ one (index_of base64_pad text) (length text)
  where
    found : index_of base64_pad (digit i ∷ text) ≡ Option.map suc (index_of base64_pad text)
    found = let d = (digit_lem i h).1 in rw d

    one :
        (o : Option ℕ) (len : ℕ) → data_end (Option.map suc o) (suc len) 0 ≡ suc (data_end o len 0)
    one none len = omega arith
    one (some k) len = ground arith

data_length-padding : (text : List ℕ) → data_length (digit 64 ∷ text) 0 ≡ 0
unfolding data_length digit
data_length-padding text = refl

abbrev data_count : List ℕ → ℕ
data_count [] = 0
data_count (a ∷ []) = 2
data_count (a ∷ b ∷ []) = 3
data_count (a ∷ b ∷ c ∷ rest) = suc (suc (suc (suc (data_count rest))))

data_length-encode : (bs : List ℕ) → IsBytes bs → data_length (encode bs) 0 ≡ data_count bs
unfolding encode
data_length-encode [] h = unfold data_length in refl
data_length-encode (a ∷ []) h = rw (and_3 a) (
    data_length-digit (a / 2 ^ 2) _ (omega (arith, h))
    ∙ ap suc (data_length-digit (a % 4 * 2 ^ 4) _ (omega arith) ∙ ap suc (data_length-padding _)))
data_length-encode (a ∷ b ∷ []) h =
    rw (and_3 a, and_15 b)
      (data_length-digit (a / 2 ^ 2) _ (omega (arith, h))
        ∙ ap suc (
            data_length-digit (a % 4 * 2 ^ 4 + b / 2 ^ 4) _ (omega (arith, h))
            ∙ ap suc (
                data_length-digit (b % 16 * 2 ^ 2) _ (omega arith)
                ∙ ap suc (data_length-padding _))))
data_length-encode (a ∷ b ∷ c ∷ rest) h =
    rw (and_3 a, and_15 b, and_63 c)
      (data_length-digit (a / 2 ^ 2) _ (omega (arith, h))
        ∙ ap suc (
            data_length-digit (a % 4 * 2 ^ 4 + b / 2 ^ 4) _ (omega (arith, h))
            ∙ ap suc (
                data_length-digit (b % 16 * 2 ^ 2 + c / 2 ^ 6) _ (omega (arith, h))
                ∙ ap suc (
                    data_length-digit (c % 64) _ (omega arith)
                    ∙ ap suc (data_length-encode rest h.1.1.1)))))

counted : (bs : List ℕ) → result_length (data_count bs) ≡ length bs
unfolding result_length
counted [] = refl
counted (a ∷ []) = refl
counted (a ∷ b ∷ []) = refl
counted (a ∷ b ∷ c ∷ rest) = omega (arith, counted rest)

filled : (bs : List ℕ) → fill (length bs) bs ≡ map some bs
filled [] = refl
filled (b ∷ bs) = ap (λ l. some b ∷ l) (filled bs)

-- Every list of bytes, encoded and decoded again, comes back: the decoder finds no illegal character
-- and no bits left, and the array that it allocates has a byte in every place.
pub decode-encode : (bs : List ℕ) → IsBytes bs → decode (encode bs) 0 ≡ some (map some bs)
unfolding decode
decode-encode bs h = rw (decode_from-encode bs h, data_length-encode bs h, counted bs, filled bs)
