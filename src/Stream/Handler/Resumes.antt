-- ===== src/Stream/Handler/Resumes.antt =====
-- Handlers of rfb.js called again when more bytes have arrived: rules by which a handler is taken
-- apart.
use warpyard.Base.{
  ℕ, ◌+◌, ◌-◌, ◌≤◌, ◌<◌, Bool, true, false, List, ◌++◌, ◌≡◌, refl, sym, ap, subst, ◌∙◌, arith,
  length, length-append, length-drop, take, drop, take-append_le, drop-append_le, ltb, leb,
  if◌then◌else◌,
}
use native.Mathlib.Decide.{dec_le}
use warpyard.Stream.{Stream, big_endian}
use warpyard.Stream.Handler.{
  Answer, waits, fault, got, Handler, ◌>>=◌, give, rq_wait, read, read_bytes, skip, peek,
}

-- What more bytes make of an answer that was got from place `i` on: nothing else, once the message is
-- there; until then the handler has put back all it took. `F` is what is said of a fault: `⊥` of a handler
-- that makes none. `P` holds of what is got.
abbrev pub Same : {A : Type 0} → Type 0 → (A → Type 0) → ℕ → Stream → Answer A → Answer A → Type 0
Same F P i q (waits p) out = p ≡ 0
Same F P i q fault out = F
Same F P i q (got a j) out = (out ≡ got a j) × (i ≤ j) × (j ≤ length q) × P a

-- From place `i` on, with `m` more bytes known to be there.
pub record Resumes {A : Type 0} (F : Type 0) (P : A → Type 0) (h : Handler A) (i m : ℕ)
    : Type 0 where
  pub same : (q more : Stream) → i + m ≤ length q → Same F P i q (h q i) (h (q ++ more) i)

pub give-Resumes :
    {A : Type 0} (F : Type 0) (P : A → Type 0) (a : A) (i m : ℕ) → P a → Resumes F P (give a) i m
give-Resumes F P a i m good = record { same = λ q more h. (refl, omega arith, omega arith, good) }

Same-le :
    {A : Type 0} (F : Type 0) (P : A → Type 0) (i j : ℕ) (q : Stream) (a out : Answer A)
    → i ≤ j
    → Same F P j q a out
    → Same F P i q a out
Same-le F P i j q (waits p) out h s = s
Same-le F P i j q fault out h s = s
Same-le F P i j q (got a k) out h s = (s.0, omega (arith, s.1), s.2, s.3)

pub take-drop_more :
    (i n : ℕ) (q more : Stream) → i + n ≤ length q → take n (drop i (q ++ more)) ≡ take n (drop i q)
take-drop_more i n q more h =
    ap (take n) (drop-append_le i q more (omega arith))
    ∙ take-append_le n (drop i q) more (omega (arith, length-drop i q))

-- The reads, where the bytes are there.
pub read-got :
    (n i : ℕ) (q : Stream)
    → i + n ≤ length q
    → read n q i ≡ got (big_endian (take n (drop i q))) (i + n)
unfolding read
read-got n i q h = let there : leb (i + n) (length q) ≡ true = ground arith in rw there

pub read_bytes-got :
    (n i : ℕ) (q : Stream) → i + n ≤ length q → read_bytes n q i ≡ got (take n (drop i q)) (i + n)
unfolding read_bytes
read_bytes-got n i q h = let there : leb (i + n) (length q) ≡ true = ground arith in rw there

pub skip-got : (n i : ℕ) (q : Stream) → i + n ≤ length q → skip n q i ≡ got tt (i + n)
unfolding skip
skip-got n i q h = let there : leb (i + n) (length q) ≡ true = ground arith in rw there

peek-got :
    (i : ℕ) (q : Stream) → i + 1 ≤ length q → peek q i ≡ got (big_endian (take 1 (drop i q))) i
unfolding peek
peek-got i q h = let there : leb (i + 1) (length q) ≡ true = ground arith in rw there

pub rq_wait-got :
    (num goback i : ℕ) (q : Stream) → i + num ≤ length q → rq_wait num goback q i ≡ got tt i
unfolding rq_wait
rq_wait-got num goback i q h =
    let there : ltb (length q) (i + num) ≡ false = ground arith in rw there

rq_wait-waits : (num i : ℕ) (q : Stream) → length q < i + num → rq_wait num i q i ≡ waits (i - i)
unfolding rq_wait
rq_wait-waits num i q h =
    let few : ltb (length q) (i + num) ≡ true = ground arith in
    let back : ltb i i ≡ false = ground arith in rw (few, back)

pub read-fault : (n i : ℕ) (q : Stream) → length q < i + n → read n q i ≡ fault
unfolding read
read-fault n i q h = let past : leb (i + n) (length q) ≡ false = ground arith in rw past

pub read_bytes-fault : (n i : ℕ) (q : Stream) → length q < i + n → read_bytes n q i ≡ fault
unfolding read_bytes
read_bytes-fault n i q h = let past : leb (i + n) (length q) ≡ false = ground arith in rw past

pub >>=-fault :
    {A B : Type 0} (m : Handler A) (k : A → Handler B) {q : Stream} {i : ℕ}
    → m q i ≡ fault
    → (m >>= k) q i ≡ fault
>>=-fault m k e = rw (e, ◌>>=◌)

pub >>=-got :
    {A B : Type 0} (m : Handler A) (k : A → Handler B) {q : Stream} {i j : ℕ} {a : A}
    → m q i ≡ got a j
    → (m >>= k) q i ≡ k a q j
>>=-got m k e = rw (e, ◌>>=◌)

pub >>=-waits :
    {A B : Type 0} (m : Handler A) (k : A → Handler B) {q : Stream} {i p : ℕ}
    → m q i ≡ waits p
    → (m >>= k) q i ≡ waits p
>>=-waits m k e = rw (e, ◌>>=◌)

-- A first step that more bytes do not change.
pub step-Same :
    {A B : Type 0} (F : Type 0) (P : B → Type 0) (m : Handler A) (k : A → Handler B)
    (q more : Stream) {i j : ℕ} {a : A}
    → m q i ≡ got a j
    → m (q ++ more) i ≡ got a j
    → i ≤ j
    → Same F P j q (k a q j) (k a (q ++ more) j)
    → Same F P i q ((m >>= k) q i) ((m >>= k) (q ++ more) i)
step-Same F P m k q more {i} {j} {a} e e' le s =
    subst (λ x. Same F P i q x ((m >>= k) (q ++ more) i)) (sym (>>=-got m k e))
      (subst (λ x. Same F P i q (k a q j) x) (sym (>>=-got m k e')) (Same-le F P i j q _ _ le s))

pub longer : (n : ℕ) (q more : Stream) → n ≤ length q → n ≤ length (q ++ more)
longer n q more h = omega (arith, length-append q more)

module _ {A : Type 0} (F : Type 0) (P : A → Type 0) where
  -- A wait that puts back all that was taken.
  pub rq_wait-Resumes :
      (num i m : ℕ) (k : Unit {0} → Handler A)
      → Resumes F P (k tt) i num
      → Resumes F P (rq_wait num i >>= k) i m
  rq_wait-Resumes num i m k next = record {
    same = λ q more h. elim (dec_le (i + num) (length q)) [
      | yes there ↦
          step-Same F P (rq_wait num i) k q more (rq_wait-got num i i q there)
            (rq_wait-got num i i (q ++ more) (longer (i + num) q more there)) (omega arith)
            (next.same q more there)
      | no few ↦
          subst (λ x. Same F P i q x ((rq_wait num i >>= k) (q ++ more) i))
            (sym (>>=-waits (rq_wait num i) k (rq_wait-waits num i q (omega arith)))) (omega arith)
    ];
  }

  pub read-Resumes :
      (n m i : ℕ) (k : ℕ → Handler A)
      → n ≤ m
      → ((b : ℕ) → Resumes F P (k b) (i + n) (m - n))
      → Resumes F P (read n >>= k) i m
  read-Resumes n m i k le next = record {
    same = λ q more h.
        let there : i + n ≤ length q = omega arith in
        let value = ap (λ bs. got (big_endian bs) (i + n)) (take-drop_more i n q more there) in
        step-Same F P (read n) k q more (read-got n i q there)
          (read-got n i (q ++ more) (longer (i + n) q more there) ∙ value) (omega arith)
          ((next _).same q more (omega arith));
  }

  pub read_bytes-Resumes :
      (n m i : ℕ) (k : List ℕ → Handler A)
      → n ≤ m
      → ((bs : List ℕ) → Resumes F P (k bs) (i + n) (m - n))
      → Resumes F P (read_bytes n >>= k) i m
  read_bytes-Resumes n m i k le next = record {
    same = λ q more h.
        let there : i + n ≤ length q = omega arith in
        let value = ap (λ bs. got bs (i + n)) (take-drop_more i n q more there) in
        step-Same F P (read_bytes n) k q more (read_bytes-got n i q there)
          (read_bytes-got n i (q ++ more) (longer (i + n) q more there) ∙ value) (omega arith)
          ((next _).same q more (omega arith));
  }

  pub skip-Resumes :
      (n m i : ℕ) (k : Unit {0} → Handler A)
      → n ≤ m
      → Resumes F P (k tt) (i + n) (m - n)
      → Resumes F P (skip n >>= k) i m
  skip-Resumes n m i k le next = record {
    same = λ q more h.
        let there : i + n ≤ length q = omega arith in
        step-Same F P (skip n) k q more (skip-got n i q there)
          (skip-got n i (q ++ more) (longer (i + n) q more there)) (omega arith)
          (next.same q more (omega arith));
  }

  pub peek-Resumes :
      (m i : ℕ) (k : ℕ → Handler A)
      → 1 ≤ m
      → ((b : ℕ) → Resumes F P (k b) i m)
      → Resumes F P (peek >>= k) i m
  peek-Resumes m i k le next = record {
    same = λ q more h.
        let there : i + 1 ≤ length q = omega arith in
        let value = ap (λ bs. got (big_endian bs) i) (take-drop_more i 1 q more there) in
        step-Same F P peek k q more (peek-got i q there)
          (peek-got i (q ++ more) (longer (i + 1) q more there) ∙ value) (omega arith)
          ((next _).same q more h);
  }

  -- Fewer bytes are known than there are.
  pub Resumes-le : (h : Handler A) (i m n : ℕ) → m ≤ n → Resumes F P h i m → Resumes F P h i n
  Resumes-le h i m n le r = record { same = λ q more there. r.same q more (omega arith) }

  pub Resumes-if :
      (b : Bool) (h k : Handler A) (i m : ℕ)
      → (b ≡ true → Resumes F P h i m)
      → (b ≡ false → Resumes F P k i m)
      → Resumes F P (if b then h else k) i m
  Resumes-if true h k i m p r = p refl
  Resumes-if false h k i m p r = r refl
