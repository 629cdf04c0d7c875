-- ===== src/Stream/Eats.antt =====
-- How many bytes a reader leaves.
use warpyard.Base.{
  ℕ, ◌≤◌, Option, none, some, inl, inr, arith, length, leb, length-drop, Bool-cases,
}
use warpyard.Stream.{Stream, shift, shift_bytes}
use warpyard.Stream.Reader.{Reader, ◌>>=◌, give}

-- What is left is no longer than `n`.
abbrev pub Leaves : {A : Type 0} → Option (A × Stream) → ℕ → Type 0
Leaves none n = Unit
Leaves (some (a, q)) n = length q ≤ n

abbrev pub Eats : {A : Type 0} → Reader A → Type 0
Eats read = (q : Stream) → Leaves (read q) (length q)

pub Leaves-le : {A : Type 0} (o : Option (A × Stream)) (m n : ℕ) → m ≤ n → Leaves o m → Leaves o n
Leaves-le none m n le h = tt
Leaves-le (some (a, q)) m n le h = omega (arith, h)

pub give-Eats : (A : Type 0) (a : A) → Eats (give a)
give-Eats A a q = omega arith

pub shift_bytes-Eats : (n : ℕ) → Eats (shift_bytes n)
unfolding shift_bytes
shift_bytes-Eats n q = elim (Bool-cases (leb n (length q))) [
  | inl e ↦ rw e (omega (arith, length-drop n q))
  | inr e ↦ rw e tt
]

pub shift-Eats : (n : ℕ) → Eats (shift n)
unfolding shift
shift-Eats n q = elim (Bool-cases (leb n (length q))) [
  | inl e ↦ rw e (omega (arith, length-drop n q))
  | inr e ↦ rw e tt
]

pub >>=-Eats :
    {A B : Type 0} (read : Reader A) (k : A → Reader B)
    → Eats read
    → ((a : A) → Eats (k a))
    → Eats (read >>= k)
>>=-Eats {A} {B} read k first next q = with_result (read q) (first q)
  where
    with_result :
        (o : Option (A × Stream))
        → Leaves o (length q)
        → Leaves
            (elim o as (λ _. Option (B × Stream)) [ none ↦ none | some (a, q') ↦ k a q' ])
            (length q)
    with_result none h = tt
    with_result (some (a, q')) h = Leaves-le (k a q') (length q') (length q) h (next a q')
