-- ===== src/Dh/Tests.antt =====
-- Runs of DHCipher and of the conversions, with 23 and 5 as modulus and generator.
use warpyard.Base.{ℕ, zero, suc, ◌*◌, ◌^◌, ◌%◌, ◌<◌, some, List, [], ◌∷◌, ◌≡◌, refl, arith}
use warpyard.BigInt.{big_int_to_u8_array, u8_array_to_big_int}
use warpyard.BigInt.Bytes.{u8_array-round_trip}
use warpyard.BigInt.Hex.{bytes_of, value}
use warpyard.Dh.{secret_length}
use warpyard.Dh.Agreement.{IsRandom, exchange, exchange-agrees}
use mathlib.Core.Option

abbrev alice : ℕ → List ℕ
alice zero = []
alice (suc n) = 6 ∷ alice n

abbrev bob : ℕ → List ℕ
bob zero = []
bob (suc n) = 15 ∷ bob n

alice-IsRandom : IsRandom alice
alice-IsRandom zero = (refl, tt)
alice-IsRandom (suc n) =
    let rest = alice-IsRandom n in (omega (arith, rest.0), (omega arith, rest.1))

bob-IsRandom : IsRandom bob
bob-IsRandom zero = (refl, tt)
bob-IsRandom (suc n) = let rest = bob-IsRandom n in (omega (arith, rest.0), (omega arith, rest.1))

modulus_lem : 1 < value 0 (23 ∷ [])
unfolding value
modulus_lem = omega arith

exchange-agrees_example :
    let secret =
      bytes_of
        (secret_length 1 16)
        (value 0 (5 ∷ []) ^ (value 0 (alice 1) * value 0 (bob 1)) % value 0 (23 ∷ [])) in
    (exchange (5 ∷ []) (23 ∷ []) alice bob 16 ≡ some secret)
    × (exchange (5 ∷ []) (23 ∷ []) bob alice 16 ≡ some secret)
exchange-agrees_example =
    exchange-agrees (5 ∷ []) (23 ∷ []) (omega arith) (omega arith, tt) (omega arith, tt) modulus_lem
      alice bob 16 alice-IsRandom bob-IsRandom

u8_array-round_trip_example :
    Option.map (λ n. big_int_to_u8_array n 3) (u8_array_to_big_int (0 ∷ 7 ∷ 255 ∷ []))
    ≡ some (0 ∷ 7 ∷ 255 ∷ [])
u8_array-round_trip_example =
    u8_array-round_trip (0 ∷ 7 ∷ 255 ∷ []) (omega arith)
      (omega arith, (omega arith, (omega arith, tt)))
