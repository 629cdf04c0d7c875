-- ===== src/Base/Arrays.antt =====
-- Typed arrays of bytes as lists: a copy of a part, an overwrite of a part.
use Prim.Native.Nat.{ℕ, ◌+◌, ◌-◌, ◌≤◌}
use mathlib.Core.Path.{◌≡◌}
use mathlib.Core.List.{List, ◌++◌, append_assoc}
use native.Mathlib.Omega.{arith}
use warpyard.Base.Lists.{
  length, take, drop, length-append, length-take, length-drop, take-append, drop-take,
  drop-append_le,
}

module _ {ℓ} {A : Type ℓ} where
  -- `a.slice(from, to)` and `a.subarray(from, to)`, both ends in range.
  abbrev pub slice : List A → ℕ → ℕ → List A
  slice xs from to = take (to - from) (drop from xs)

  -- `a.set(src, offset)` where the source fits.
  abbrev pub splice : List A → ℕ → List A → List A
  splice xs offset src = take offset xs ++ (src ++ drop (offset + length src) xs)

  pub length-splice :
      (xs : List A) (offset : ℕ) (src : List A)
      → offset + length src ≤ length xs
      → length (splice xs offset src) ≡ length xs
  length-splice xs offset src h = omega (
    arith,
    length-append (take offset xs) (src ++ drop (offset + length src) xs),
    length-append src (drop (offset + length src) xs),
    length-take offset xs,
    length-drop (offset + length src) xs,
  )

  -- What stands before the end of an overwrite.
  pub take-splice :
      (xs : List A) (offset : ℕ) (src : List A)
      → offset + length src ≤ length xs
      → take (offset + length src) (splice xs offset src) ≡ take offset xs ++ src
  take-splice xs offset src h =
      let before : List A = take offset xs ++ src in
      let n : length before ≡ offset + length src =
        omega (arith, length-append (take offset xs) src, length-take offset xs) in
      rw (← append_assoc (take offset xs) src (drop (offset + length src) xs), ← n)
        (take-append before (drop (length before) xs))

  pub slice-splice :
      (xs : List A) (from offset : ℕ) (src : List A)
      → from ≤ offset
      → offset + length src ≤ length xs
      → slice (splice xs offset src) from (offset + length src) ≡ slice xs from offset ++ src
  slice-splice xs from offset src le h =
      let tail : List A = drop (offset + length src) xs in
      let window : List A = slice xs from offset in
      let n : length window ≡ offset - from =
        omega (arith, length-take (offset - from) (drop from xs), length-drop from xs) in
      let k : length (window ++ src) ≡ offset + length src - from =
        omega (arith, length-append window src) in
      rw
        (
          drop-append_le from (take offset xs) (src ++ tail) (omega (arith, length-take offset xs)),
          drop-take from offset xs,
          ← append_assoc window src tail,
          ← k,
        )
        (take-append (window ++ src) tail)

  -- A copy to the front, as `copyWithin(0, from, to)` makes it.
  pub slice-splice_front :
      (xs src : List A) (n : ℕ) → length src ≡ n → slice (splice xs 0 src) 0 n ≡ src
  slice-splice_front xs src n e =
      let z : n - 0 ≡ length src = omega arith in rw z (take-append src (drop (0 + length src) xs))
