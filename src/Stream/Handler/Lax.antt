-- ===== src/Stream/Handler/Lax.antt =====
-- Handlers that may read past what has arrived, and those that read a number of bytes whatever they are.
use warpyard.Base.{
  ℕ, ◌+◌, ◌-◌, ◌≤◌, Bool, true, false, List, ◌++◌, ◌≡◌, sym, ap, subst, ◌∙◌, arith, length, take,
  drop, if◌then◌else◌,
}
use native.Mathlib.Decide.{dec_le}
use warpyard.Stream.{Stream, big_endian}
use warpyard.Stream.Handler.{
  Answer, waits, fault, got, Handler, ◌>>=◌, give, read, read_bytes, skip,
}
use warpyard.Stream.Handler.Resumes.{
  Same, Resumes, read-got, read-fault, >>=-fault, >>=-got, step-Same, read-Resumes,
  read_bytes-Resumes, Resumes-le, longer, read_bytes-fault, take-drop_more, skip-got,
}

-- A handler that takes `n` bytes, and waits for nothing: where the bytes are there it gets the same whatever
-- follows them, and `Q` holds of it.
pub record Gets {A : Type 0} (h : Handler A) (n : ℕ) (Q : A → Type 0) : Type 0 where
  pub gets :
      (q more : Stream) (i : ℕ)
      → i + n ≤ length q
      → (a : A) × (h q i ≡ got a (i + n)) × (h (q ++ more) i ≡ got a (i + n)) × Q a

pub give-Gets : {A : Type 0} (Q : A → Type 0) (a : A) → Q a → Gets (give a) 0 Q
give-Gets Q a h = record {
  gets =
      λ q more i le. let same : i ≡ i + 0 = omega arith in (a, ap (got a) same, ap (got a) same, h);
}

pub read-Gets : (n : ℕ) → Gets (read n) n (λ b. Unit {0})
read-Gets n = record {
  gets = λ q more i le. (
    big_endian (take n (drop i q)),
    read-got n i q le,
    read-got n i (q ++ more) (longer (i + n) q more le)
        ∙ ap (λ bs. got (big_endian bs) (i + n)) (take-drop_more i n q more le),
    tt,
  );
}

pub skip-Gets : (n : ℕ) → Gets (skip n) n (λ u. Unit {0})
skip-Gets n = record {
  gets = λ q more i le.
      (tt, skip-got n i q le, skip-got n i (q ++ more) (longer (i + n) q more le), tt);
}

pub >>=-Gets :
    {A B : Type 0} (m n : ℕ) {h : Handler A} {k : A → Handler B} {Q : A → Type 0} (R : B → Type 0)
    → Gets h m Q
    → ((a : A) → Q a → Gets (k a) n R)
    → Gets (h >>= k) (m + n) R
>>=-Gets m n {h} {k} R first next = record {
  gets = λ q more i le.
      let (a, one, one_more, holds) = first.gets q more i (omega arith) in
      let (b, two, two_more, holds') = (next a holds).gets q more (i + m) (omega arith) in
      let same : i + m + n ≡ i + (m + n) = omega arith in
      (
        b,
        >>=-got h k one ∙ two ∙ ap (got b) same,
        >>=-got h k one_more ∙ two_more ∙ ap (got b) same,
        holds',
      );
}

pub if-Gets :
    {A : Type 0} (b : Bool) (h k : Handler A) (n : ℕ) (Q : A → Type 0)
    → Gets h n Q
    → Gets k n Q
    → Gets (if b then h else k) n Q
if-Gets true h k n Q g e = g
if-Gets false h k n Q g e = e

pub Gets-Resumes :
    {A B : Type 0} (F : Type 0) (P : B → Type 0) (n m i : ℕ) {h : Handler A} {Q : A → Type 0}
    (k : A → Handler B)
    → n ≤ m
    → Gets h n Q
    → ((a : A) → Q a → Resumes F P (k a) (i + n) (m - n))
    → Resumes F P (h >>= k) i m
Gets-Resumes F P n m i {h} k le g next = record {
  same = λ q more there.
      let (a, one, one_more, holds) = g.gets q more i (omega arith) in
      step-Same F P h k q more one one_more (omega arith)
        ((next a holds).same q more (omega arith));
}

-- Where it is not known that the bytes are there, a fault is let pass.
module _ {A : Type 0} (P : A → Type 0) where
  pub read-Lax :
      (n i : ℕ) (k : ℕ → Handler A)
      → ((b : ℕ) → Resumes (Unit {0}) P (k b) (i + n) 0)
      → Resumes (Unit {0}) P (read n >>= k) i 0
  read-Lax n i k next = record {
    same = λ q more h. elim (dec_le (i + n) (length q)) [
      | yes there ↦
          (read-Resumes (Unit {0}) P n n i k (omega arith)
              (λ b. Resumes-le (Unit {0}) P (k b) (i + n) 0 (n - n) (omega arith) (next b))).same
            q more (omega arith)
      | no few ↦
          subst (λ x. Same (Unit {0}) P i q x ((read n >>= k) (q ++ more) i))
            (sym (>>=-fault (read n) k (read-fault n i q (omega arith)))) tt
    ];
  }

  pub read_bytes-Lax :
      (n i : ℕ) (k : List ℕ → Handler A)
      → ((bs : List ℕ) → Resumes (Unit {0}) P (k bs) (i + n) 0)
      → Resumes (Unit {0}) P (read_bytes n >>= k) i 0
  read_bytes-Lax n i k next = record {
    same = λ q more h. elim (dec_le (i + n) (length q)) [
      | yes there ↦
          (read_bytes-Resumes (Unit {0}) P n n i k (omega arith)
              (λ b. Resumes-le (Unit {0}) P (k b) (i + n) 0 (n - n) (omega arith) (next b))).same
            q more (omega arith)
      | no few ↦
          subst (λ x. Same (Unit {0}) P i q x ((read_bytes n >>= k) (q ++ more) i))
            (sym (>>=-fault (read_bytes n) k (read_bytes-fault n i q (omega arith)))) tt
    ];
  }

  -- A handler that gets its answer where it stands, or faults.
  pub fault-Lax : (i m : ℕ) → Resumes (Unit {0}) P (λ q j. fault) i m
  fault-Lax i m = record { same = λ q more there. tt }

  pub strict-Lax : (h : Handler A) (i m : ℕ) → Resumes ⊥ P h i m → Resumes (Unit {0}) P h i m
  strict-Lax h i m r = record { same = λ q more there. weaken q (h q i) _ (r.same q more there) }
    where
      weaken : (q : Stream) (a out : Answer A) → Same ⊥ P i q a out → Same (Unit {0}) P i q a out
      weaken q (waits p) out s = s
      weaken q fault out s = absurd s
      weaken q (got a j) out s = s
