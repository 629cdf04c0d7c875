-- ===== src/BigInt/Power.antt =====
-- `modPow` of bigint.js against powers.
use warpyard.Base.{
  ℕ, zero, suc, ◌+◌, ◌*◌, ◌/◌, ◌%◌, ◌^◌, ◌≤◌, ◌<◌, bit_and, some, ◌==◌, if◌then◌else◌, if_intro,
  ◌≡◌, sym, ap, ◌∙◌, arith,
}
use native.Mathlib.Nat.{
  mul_comm, mul_assoc, mul_right_comm, pow-suc, mul-mul-mul_comm, pow-zero, add-mul-mod_self_left,
  div-add-mod, mod-lt, mod-eq_of_lt, mod-mod, add-mul,
}
use warpyard.Base.Bits.{and_1}
use warpyard.BigInt.{mod_pow, mod_pow_loop}

mod-mul : (a b m : ℕ) → a % m * b % m ≡ a * b % m
mod-mul a b m =
    let whole : a * b ≡ a % m * b + m * (a / m * b) =
      ap (λ x. x * b) (sym (div-add-mod a m))
      ∙ add-mul (m * (a / m)) (a % m) b
      ∙ omega (arith, mul_assoc m (a / m) b) in
    sym (add-mul-mod_self_left (a % m * b) m (a / m * b)) ∙ ap (λ x. x % m) (sym whole)

mul-mod : (a b m : ℕ) → a * (b % m) % m ≡ a * b % m
mul-mod a b m =
    ap (λ x. x % m) (mul_comm a (b % m)) ∙ mod-mul b a m ∙ ap (λ x. x % m) (mul_comm b a)

-- A product whose factors were reduced.
mul-Same : (a b c d m : ℕ) → a % m ≡ b % m → c % m ≡ d % m → a * c % m ≡ b * d % m
mul-Same a b c d m p q =
    sym (mod-mul a c m)
    ∙ ap (λ x. x * c % m) p
    ∙ mod-mul b c m
    ∙ sym (mul-mod b c m)
    ∙ ap (λ x. b * x % m) q
    ∙ mul-mod b d m

pub pow-Same : (a b m e : ℕ) → a % m ≡ b % m → a ^ e % m ≡ b ^ e % m
pow-Same a b m zero p = rw (pow-zero a, pow-zero b)
pow-Same a b m (suc e) p =
    rw (pow-suc a e, pow-suc b e, mul-Same (a ^ e) (b ^ e) a b m (pow-Same a b m e p) p)

pow_add : (b i j : ℕ) → b ^ (i + j) ≡ b ^ i * b ^ j
pow_add b zero j =
    let one : b ^ j ≡ 1 * b ^ j = omega arith in
    let same : 0 + j ≡ j = omega arith in
    ap (λ x. b ^ x) same ∙ one ∙ sym (ap (λ x. x * b ^ j) (pow-zero b))
pow_add b (suc i) j =
    let same : suc i + j ≡ suc (i + j) = omega arith in
    rw (same, pow-suc b i, pow-suc b (i + j), pow_add b i j, mul_right_comm (b ^ i) b (b ^ j))

pow_square : (b k : ℕ) → (b * b) ^ k ≡ b ^ k * b ^ k
pow_square b zero = rw (pow-zero b, pow-zero (b * b))
pow_square b (suc k) =
    rw (pow-suc (b * b) k, pow-suc b k, pow_square b k, mul-mul-mul_comm (b ^ k) (b ^ k) b b)

pub pow_mul : (b i j : ℕ) → (b ^ i) ^ j ≡ b ^ (i * j)
pow_mul b i zero = let empty : i * 0 ≡ 0 = omega arith in rw (empty, pow-zero b, pow-zero (b ^ i))
pow_mul b i (suc j) =
    let more : i * suc j ≡ i * j + i = omega arith in
    pow-suc (b ^ i) j
    ∙ ap (λ x. x * b ^ i) (pow_mul b i j)
    ∙ sym (pow_add b (i * j) i)
    ∙ ap (λ x. b ^ x) (sym more)

-- One turn of the loop takes the lowest bit of the exponent.
halves : (b e : ℕ) → b ^ e ≡ b ^ (e % 2) * (b * b) ^ (e / 2)
halves b e =
    let split : e ≡ e % 2 + (e / 2 + e / 2) = omega arith in
    ap (λ x. b ^ x) split
    ∙ pow_add b (e % 2) (e / 2 + e / 2)
    ∙ ap (λ x. b ^ (e % 2) * x) (pow_add b (e / 2) (e / 2) ∙ sym (pow_square b (e / 2)))

no_turn : (r b m : ℕ) → r % m ≡ r * b ^ 0 % m
no_turn r b m =
    let one : r * b ^ 0 ≡ r = ap (λ x. r * x) (pow-zero b) ∙ omega arith in
    sym (ap (λ x. x % m) one)

take_bit : (r b m bit : ℕ) → bit < 2 → (if bit == 1 then r * b % m else r) % m ≡ r * b ^ bit % m
take_bit r b m zero h = no_turn r b m
take_bit r b m (suc zero) h =
    let one : r * b ^ 1 ≡ r * b =
      ap (λ x. r * x) (pow-suc b 0 ∙ ap (λ x. x * b) (pow-zero b) ∙ omega arith) in
    mod-mod (r * b) m ∙ sym (ap (λ x. x % m) one)
take_bit r b m (suc (suc bit)) h = absurd (omega arith)

pub mod_pow_loop_lem : (fuel r b e m : ℕ) → e ≤ fuel → mod_pow_loop fuel r b e m % m ≡ r * b ^ e % m
unfolding mod_pow_loop
mod_pow_loop_lem zero r b zero m h = no_turn r b m
mod_pow_loop_lem zero r b (suc e) m h = absurd (omega arith)
mod_pow_loop_lem (suc fuel) r b zero m h = no_turn r b m
mod_pow_loop_lem (suc fuel) r b (suc e) m h =
    let next = if bit_and (suc e) 1 == 1 then r * b % m else r in
    let bit : next % m ≡ r * b ^ (suc e % 2) % m =
      rw (and_1 (suc e), take_bit r b m (suc e % 2) (omega arith)) in
    mod_pow_loop_lem fuel next (b * b % m) (suc e / 2) m (omega arith)
    ∙ mul-Same next (r * b ^ (suc e % 2)) ((b * b % m) ^ (suc e / 2)) ((b * b) ^ (suc e / 2)) m bit
        (pow-Same (b * b % m) (b * b) m (suc e / 2) (mod-mod (b * b) m))
    ∙ ap (λ x. x % m) (mul_assoc r (b ^ (suc e % 2)) ((b * b) ^ (suc e / 2)))
    ∙ ap (λ x. r * x % m) (sym (halves b (suc e)))

pub mod_pow_loop-below : (fuel r b e m : ℕ) → 0 < m → r < m → mod_pow_loop fuel r b e m < m
unfolding mod_pow_loop
mod_pow_loop-below zero r b e m pos h = h
mod_pow_loop-below (suc fuel) r b zero m pos h = h
mod_pow_loop-below (suc fuel) r b (suc e) m pos h =
    mod_pow_loop-below fuel _ (b * b % m) (suc e / 2) m pos
      (if_intro (λ x. x < m) (bit_and (suc e) 1 == 1) (λ _. mod-lt (r * b) pos) (λ _. h))

-- Below a modulus of two or more, the result is the power's remainder, whatever the exponent.
pub mod_pow_lem : (b e m : ℕ) → 1 < m → mod_pow b e m ≡ some (b ^ e % m)
unfolding mod_pow
mod_pow_lem b e zero h = absurd (omega arith)
mod_pow_lem b e (suc m) h =
    let result = mod_pow_loop e 1 (b % suc m) e (suc m) in
    let small : result % suc m ≡ result =
      mod-eq_of_lt (mod_pow_loop-below e 1 (b % suc m) e (suc m) (omega arith) h) in
    let one : 1 * (b % suc m) ^ e ≡ (b % suc m) ^ e = omega arith in
    ap some (
      sym small
      ∙ mod_pow_loop_lem e 1 (b % suc m) e (suc m) (omega arith)
      ∙ ap (λ x. x % suc m) one
      ∙ pow-Same (b % suc m) b (suc m) e (mod-mod b (suc m)))
