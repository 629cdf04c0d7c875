-- ===== src/Dh/Agreement.antt =====
-- The secrets that the two ends of DHCipher (dh.js) derive.
use warpyard.Base.{
  ℕ, ◌+◌, ◌*◌, ◌/◌, ◌%◌, ◌^◌, ◌≤◌, ◌<◌, Option, some, List, [], ◌∷◌, length, take, take_all, All,
  ltb, if_intro, ltb→lt, ◌≡◌, ap, ◌∙◌, arith,
}
use native.Mathlib.Nat.{mul_comm, mod-lt, mod-mod, pow-le-pow_right}
use warpyard.BigInt.{big_int_to_u8_array}
use warpyard.BigInt.Power.{mod_pow_lem, pow-Same, pow_mul}
use warpyard.BigInt.Bytes.{
  value-below, length-bytes_of, big_int_to_u8_array_lem, u8_array_to_big_int_lem,
  big_int-round_trip,
}
use warpyard.BigInt.Hex.{bytes_of, value}
use warpyard.Dh.{DhCipher, generate_key, derive_bits, secret_length, ◌>>=◌}

-- The source of random bytes fills the array it is given.
abbrev pub IsRandom : (ℕ → List ℕ) → Type 0
IsRandom random = (n : ℕ) → (length (random n) ≡ n) × All (λ b. b < 256) (random n)

-- One end makes its key, then derives from the other end's public key.
unfoldable pub exchange : List ℕ → List ℕ → (ℕ → List ℕ) → (ℕ → List ℕ) → ℕ → Option (List ℕ)
exchange g p mine theirs length =
    generate_key g p mine
    >>= (λ own. generate_key g p theirs >>= (λ other. derive_bits own other.public_key length))

-- The secret is at least as long as the key.
secret_length-key : (key_bytes bits : ℕ) → key_bytes ≤ secret_length key_bytes bits
unfolding secret_length
secret_length-key key_bytes bits =
    if_intro (λ x. key_bytes ≤ x) (ltb key_bytes ((bits + 7) / 8))
      (λ t. omega (arith, ltb→lt key_bytes ((bits + 7) / 8) t)) (λ _. omega arith)

has_byte : (p : List ℕ) → 1 < value 0 p → 0 < length p
unfolding value
has_byte [] h = absurd (omega arith)
has_byte (b ∷ bs) h = omega arith

whole_secret :
    (len secret : ℕ)
    → 0 < len
    → secret < 256 ^ len
    → take len (big_int_to_u8_array secret len) ≡ bytes_of len secret
whole_secret len secret some_byte below =
    ap (take len) (big_int_to_u8_array_lem len secret some_byte below)
    ∙ take_all len (bytes_of len secret) (omega (arith, length-bytes_of len secret))

below_secret : (k len n : ℕ) → k ≤ len → n < 256 ^ k → n < 256 ^ len
below_secret k len n longer below =
    let positive : 0 < 256 = omega arith in omega (arith, pow-le-pow_right positive longer)

module _ (g p : List ℕ) (some_g : 0 < length g) (g_bytes : All (λ b. b < 256) g)
    (p_bytes : All (λ b. b < 256) p) (modulus : 1 < value 0 p) where
  unfoldable private_value : (ℕ → List ℕ) → ℕ
  private_value random = value 0 (random (length p))

  unfoldable end : (ℕ → List ℕ) → DhCipher
  end random = record {
    key_bytes = length p;
    g_big_int = value 0 g;
    p_big_int = value 0 p;
    private_key = random (length p);
    private_key_big_int = private_value random;
    public_key = big_int_to_u8_array (value 0 g ^ private_value random % value 0 p) (length p);
  }

  below_key : (n : ℕ) → n % value 0 p < 256 ^ length p
  below_key n =
      let positive : 0 < value 0 p = omega arith in
      omega (arith, mod-lt n positive, value-below p p_bytes)

  generate_key_lem :
      (random : ℕ → List ℕ) → IsRandom random → generate_key g p random ≡ some (end random)
  unfolding generate_key private_value end
  generate_key_lem random h =
      let key = random (length p) in
      let size = h (length p) in
      let some_p = has_byte p modulus in
      rw (u8_array_to_big_int_lem g some_g g_bytes, u8_array_to_big_int_lem p some_p p_bytes)
        (rw (u8_array_to_big_int_lem key (omega (arith, size.0, some_p)) size.1)
          (rw (mod_pow_lem (value 0 g) (value 0 key) (value 0 p) modulus)))

  derive_bits_lem :
      (mine theirs : ℕ → List ℕ) (bits : ℕ)
      → derive_bits (end mine) (end theirs).public_key bits
        ≡ some (
            bytes_of
              (secret_length (length p) bits)
              (value 0 g ^ (private_value theirs * private_value mine) % value 0 p))
  unfolding derive_bits private_value end
  derive_bits_lem mine theirs bits =
      let m = value 0 p in
      let x = private_value mine in
      let y = private_value theirs in
      let public = value 0 g ^ y % m in
      let len = secret_length (length p) bits in
      let secret = value 0 g ^ (y * x) % m in
      let long = secret_length-key (length p) bits in
      let some_p = has_byte p modulus in
      let power : public ^ x % m ≡ secret =
        pow-Same public (value 0 g ^ y) m x (mod-mod (value 0 g ^ y) m)
        ∙ ap (λ n. n % m) (pow_mul (value 0 g) y x) in
      rw (big_int-round_trip (length p) public some_p (below_key (value 0 g ^ y))) (
        rw (mod_pow_lem public x m modulus, power)
          (ap some (
            whole_secret len secret (omega (arith, long, some_p))
              (below_secret (length p) len secret long (below_key (value 0 g ^ (y * x)))))))

  exchange_lem :
      (mine theirs : ℕ → List ℕ) (bits : ℕ)
      → IsRandom mine
      → IsRandom theirs
      → exchange g p mine theirs bits
        ≡ some (
            bytes_of
              (secret_length (length p) bits)
              (value 0 g ^ (private_value theirs * private_value mine) % value 0 p))
  unfolding exchange
  exchange_lem mine theirs bits h k =
      rw (generate_key_lem mine h)
        (rw (generate_key_lem theirs k) (derive_bits_lem mine theirs bits))

-- Two ends with the same generator and modulus, the modulus two or more, each from random bytes of its own,
-- derive the same secret for every length asked for: the bytes of the generator to the product of both private
-- keys, by the modulus, as many as are asked for and at least as many as the modulus has.
pub exchange-agrees :
    (g p : List ℕ)
    → 0 < length g
    → All (λ b. b < 256) g
    → All (λ b. b < 256) p
    → 1 < value 0 p
    → (mine theirs : ℕ → List ℕ) (bits : ℕ) → IsRandom mine
    → IsRandom theirs
    → let secret =
        bytes_of
          (secret_length (length p) bits)
          (value 0 g ^ (value 0 (mine (length p)) * value 0 (theirs (length p))) % value 0 p) in
      (exchange g p mine theirs bits ≡ some secret) × (exchange g p theirs mine bits ≡ some secret)
unfolding private_value
exchange-agrees g p some_g g_bytes p_bytes modulus mine theirs bits h k =
    let x = value 0 (mine (length p)) in
    let y = value 0 (theirs (length p)) in
    let turned =
      ap (λ n. some (bytes_of (secret_length (length p) bits) (value 0 g ^ n % value 0 p)))
        (mul_comm y x) in
    (
      exchange_lem g p some_g g_bytes p_bytes modulus mine theirs bits h k ∙ turned,
      exchange_lem g p some_g g_bytes p_bytes modulus theirs mine bits k h,
    )
