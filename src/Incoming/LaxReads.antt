-- ===== src/Incoming/LaxReads.antt =====
-- Reads of rfb.js past what was waited for.
use warpyard.Base.{
  ℕ, zero, suc, ◌+◌, ◌-◌, ◌*◌, ◌≤◌, ◌<◌, Bool, true, false, ◌||◌, [], ◌++◌, length, ltb, ◌==◌, ◌≡◌,
  refl, ◌∙◌, arith, Bool-cases, inl, inr, ◌⊎◌,
}
use native.Mathlib.Decide.{dec_le}
use warpyard.Stream.{Stream}
use warpyard.Stream.Handler.{Handler, waits, fault, got}
use warpyard.Stream.Handler.Resumes.{>>=-got, >>=-fault, read-fault}
use warpyard.Stream.Handler.Lax.{Gets, give-Gets, read-Gets, >>=-Gets}
use warpyard.Incoming.Pseudo.{read_words, read_padding}
use warpyard.Incoming.Clipboard.{read_size, read_sizes, has_bit}

pub read_words-Gets : (n k : ℕ) → n * 4 ≡ k → Gets (read_words n) k (λ ws. Unit {0})
unfolding read_words
read_words-Gets zero k e = let empty : 0 ≡ k = omega (arith, e) in rw (← empty) (give-Gets _ [] tt)
read_words-Gets (suc n) k e =
    let whole : 4 + (n * 4 + 0) ≡ k = omega (arith, e) in
    rw (← whole) (
      >>=-Gets 4 (n * 4 + 0) _ (read-Gets 4)
        λ word _. >>=-Gets (n * 4) 0 _ (read_words-Gets n (n * 4) refl) λ words _. give-Gets _ _ tt)

pub padding_got : (t : ℕ) (q : Stream) → 2 ≤ length q → read_padding t q 1 ≡ got tt 2
unfolding read_padding
padding_got t q h = let there : ltb (length q) 2 ≡ false = ground arith in rw there

pub padding_few :
    (t : ℕ) (q : Stream)
    → length q < 2
    → (read_padding t q 1 ≡ waits 0) ⊎ (read_padding t q 1 ≡ fault)
unfolding read_padding
padding_few t q h =
    let few : ltb (length q) 2 ≡ true = ground arith in
    elim (Bool-cases (t == 0 || t == 1)) [ inl e ↦ inl (rw (few, e)) | inr e ↦ inr (rw (few, e)) ]

-- A handler that has its bytes, whatever follows them, or faults.
abbrev GotOrFault : {A : Type 0} → Handler A → Stream → Stream → ℕ → Type 0
GotOrFault {A} h q more i =
    (h q i ≡ fault)
    ⊎ ((a : A) × (j : ℕ) × (i ≤ j)
        × (j ≤ length q)
        × (h q i ≡ got a j)
        × (h (q ++ more) i ≡ got a j))

read_size_lem :
    (b : Bool) (q more : Stream) (i : ℕ) → i ≤ length q → GotOrFault (read_size b) q more i
unfolding read_size
read_size_lem false q more i h = inr (0, i, omega arith, h, refl, refl)
read_size_lem true q more i h = elim (dec_le (i + 4) (length q)) [
  | yes there ↦
      let (b, one, one_more, _) = (read-Gets 4).gets q more i there in
      inr (b, i + 4, omega arith, there, one, one_more)
  | no few ↦ inl (read-fault 4 i q (omega arith))
]

-- The sizes are read, whatever follows them, or are not all there.
pub read_sizes_lem :
    (left formats : ℕ) (q more : Stream) (i : ℕ)
    → i ≤ length q
    → GotOrFault (read_sizes left formats) q more i
unfolding read_sizes
read_sizes_lem zero formats q more i h = inr (tt, i, omega arith, h, refl, refl)
read_sizes_lem (suc left) formats q more i h =
    let size = read_size (has_bit formats (16 - suc left)) in
    let sizes = λ (b : ℕ). read_sizes left formats in
    elim (read_size_lem (has_bit formats (16 - suc left)) q more i h) [
      | inl e ↦ inl (>>=-fault size sizes e)
      | inr (b, j, le, end, one, one_more) ↦ elim (read_sizes_lem left formats q more j end) [
        | inl e ↦ inl (>>=-got size sizes one ∙ e)
        | inr (u, k, le', end', two, two_more) ↦ inr (
          u,
          k,
          omega arith,
          end',
          >>=-got size sizes one ∙ two,
          >>=-got size sizes one_more ∙ two_more,
        )
      ]
    ]
