-- ===== src/Utf8/Tests.antt =====
-- Runs of the encodings of text.
use warpyard.Base.{ℕ, false, some, List, [], ◌∷◌, ◌≡◌, refl}
use warpyard.Utf8.{encode_utf8, decode_utf8}
use warpyard.Utf8.RoundTrip.{decode_utf8-encode_utf8}

-- A letter, an umlaut, the sign of the euro and a smiley.
abbrev mixed : List ℕ
mixed = 0x41 ∷ 0xe4 ∷ 0x20ac ∷ 0x1f600 ∷ []

abbrev mixed_bytes : List ℕ
mixed_bytes = 0x41 ∷ 0xc3 ∷ 0xa4 ∷ 0xe2 ∷ 0x82 ∷ 0xac ∷ 0xf0 ∷ 0x9f ∷ 0x98 ∷ 0x80 ∷ []

mixed-encoded : encode_utf8 mixed ≡ some mixed_bytes
unfolding encode_utf8
mixed-encoded = refl

decode_utf8-encode_utf8_example : decode_utf8 mixed_bytes false ≡ some mixed
decode_utf8-encode_utf8_example = decode_utf8-encode_utf8 mixed mixed_bytes false mixed-encoded
