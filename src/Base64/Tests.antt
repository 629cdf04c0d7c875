-- ===== src/Base64/Tests.antt =====
-- Runs of base64.js.
use Prim.Native.Nat.{ℕ}
use mathlib.Core.Path.{◌≡◌}
use mathlib.Core.Option.{some}
use mathlib.Core.List.{List, [], ◌∷◌}
use native.Mathlib.Omega.{arith}
use warpyard.Base64.{encode, decode}
use warpyard.Base64.RoundTrip.{IsBytes, decode-encode}

abbrev bytes : List ℕ
bytes = 77 ∷ 97 ∷ 110 ∷ 255 ∷ 0 ∷ []

bytes-IsBytes : IsBytes bytes
bytes-IsBytes = omega arith

decode-encode_example :
    decode (encode bytes) 0 ≡ some (some 77 ∷ some 97 ∷ some 110 ∷ some 255 ∷ some 0 ∷ [])
decode-encode_example = decode-encode bytes bytes-IsBytes
