-- ===== src/Dh.antt =====
-- app/static/novnc/core/crypto/dh.js: DHCipher. `none` is an exception; the platform's source of random
-- bytes, `window.crypto.getRandomValues`, is the argument `random`, a function of the array's length.
pub mod Agreement
mod Tests
use warpyard.Base.{ℕ, ◌+◌, ◌/◌, Option, none, some, List, length, take, ltb, if◌then◌else◌}
use warpyard.BigInt.{mod_pow, big_int_to_u8_array, u8_array_to_big_int}

-- What follows an exception is not run.
infixl 5 ◌>>=◌
abbrev pub ◌>>=◌ : {A B : Type 0} → Option A → (A → Option B) → Option B
none >>= k = none
some a >>= k = k a

pub record DhCipher : Type 0 where
  pub key_bytes : ℕ
  pub g_big_int : ℕ
  pub p_big_int : ℕ
  pub private_key : List ℕ
  pub private_key_big_int : ℕ
  pub public_key : List ℕ

-- `generateKey`.
unfoldable pub generate_key : List ℕ → List ℕ → (ℕ → List ℕ) → Option DhCipher
generate_key g p random = do
  g_value ← u8_array_to_big_int g
  p_value ← u8_array_to_big_int p
  let key = random (length p)
  key_value ← u8_array_to_big_int key
  power ← mod_pow g_value key_value p_value
  some (record {
    key_bytes = length p;
    g_big_int = g_value;
    p_big_int = p_value;
    private_key = key;
    private_key_big_int = key_value;
    public_key = big_int_to_u8_array power (length p);
  })

-- `Math.ceil(length / 8)`, and at least the key's length.
unfoldable pub secret_length : ℕ → ℕ → ℕ
secret_length key_bytes length =
    let bytes = (length + 7) / 8 in if ltb key_bytes bytes then bytes else key_bytes

unfoldable pub derive_bits : DhCipher → List ℕ → ℕ → Option (List ℕ)
derive_bits cipher public length = do
  let len = secret_length cipher.key_bytes length
  pkey ← u8_array_to_big_int public
  secret ← mod_pow pkey cipher.private_key_big_int cipher.p_big_int
  some (take len (big_int_to_u8_array secret len))
