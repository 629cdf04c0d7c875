-- ===== src/Stream/Reader.antt =====
-- Reads in sequence, as the decoders make them.
use warpyard.Base.{
  ℕ, ◌+◌, false, Option, none, some, ◌++◌, ◌≡◌, refl, ap, ◌∙◌, arith, take, drop, drop-drop,
}
use warpyard.Stream.{Stream, wait, shift, shift_bytes, big_endian}
use warpyard.Stream.More.{
  shift-some, shift_bytes-some, take-more, drop-more, wait-drop, wait-le, wait-append,
}

abbrev pub Reader : Type 0 → Type 0
Reader A = Stream → Option (A × Stream)

infixl 5 ◌>>=◌
abbrev pub ◌>>=◌ : {A B : Type 0} → Reader A → (A → Reader B) → Reader B
◌>>=◌ m k q = elim (m q) [ none ↦ none | some (a, q') ↦ k a q' ]

abbrev pub give : {A : Type 0} → A → Reader A
give a q = some (a, q)

-- A read that succeeds on `n` bytes, takes these, and does not look at what follows.
pub record IsExact {A : Type 0} (n : ℕ) (read : Reader A) : Type 0 where
  pub value : (q : Stream) → wait q n ≡ false → A
  pub reads : (q : Stream) (h : wait q n ≡ false) → read q ≡ some (value q h, drop n q)
  pub stable :
      (q more : Stream) (h : wait q n ≡ false)
      → read (q ++ more) ≡ some (value q h, drop n q ++ more)

pub shift_bytes-IsExact : (n : ℕ) → IsExact n (shift_bytes n)
shift_bytes-IsExact n = record {
  value = λ q h. take n q;
  reads = λ q h. shift_bytes-some n q h;
  stable = λ q more h. rw (
    shift_bytes-some n (q ++ more) (wait-append q more n h),
    take-more n q more h,
    drop-more n q more h,
  );
}

pub shift-IsExact : (n : ℕ) → IsExact n (shift n)
shift-IsExact n = record {
  value = λ q h. big_endian (take n q);
  reads = λ q h. shift-some n q h;
  stable = λ q more h. rw (
    shift-some n (q ++ more) (wait-append q more n h),
    take-more n q more h,
    drop-more n q more h,
  );
}

pub give-IsExact : {A : Type 0} (a : A) → IsExact 0 (give a)
give-IsExact a = record { value = λ q h. a; reads = λ q h. refl; stable = λ q more h. refl }

pub >>=-some :
    {A B : Type 0} (read : Reader A) (k : A → Reader B) {q q' : Stream} {a : A}
    → read q ≡ some (a, q')
    → (read >>= k) q ≡ k a q'
>>=-some read k e = rw (e, ◌>>=◌)

pub >>=-IsExact :
    {A B : Type 0} (m n : ℕ) {read : Reader A} {k : A → Reader B}
    → IsExact m read
    → ((a : A) → IsExact n (k a))
    → IsExact (m + n) (read >>= k)
>>=-IsExact {B} m n {read} {k} p next = record {
  value = result;
  reads = λ q h.
      >>=-some read k (p.reads q (first q h))
      ∙ (next (p.value q (first q h))).reads (drop m q) (second q h)
      ∙ ap (λ l. some (result q h, l)) (drop-drop n m q);
  stable = λ q more h.
      >>=-some read k (p.stable q more (first q h))
      ∙ (next (p.value q (first q h))).stable (drop m q) more (second q h)
      ∙ ap (λ l. some (result q h, l ++ more)) (drop-drop n m q);
}
  where
    first : (q : Stream) → wait q (m + n) ≡ false → wait q m ≡ false
    first q h = wait-le m (m + n) q (omega arith) h

    second : (q : Stream) → wait q (m + n) ≡ false → wait (drop m q) n ≡ false
    second q h = wait-drop m n q h

    result : (q : Stream) → wait q (m + n) ≡ false → B
    result q h = (next (p.value q (first q h))).value (drop m q) (second q h)
