-- ===== src/Handshake/Always.antt =====
-- What holds of whatever a handler gets.
use warpyard.Base.{
  leb, take, drop, ◌≡◌, refl, ℕ, ◌+◌, ◌-◌, length, Bool, true, false, ltb, if◌then◌else◌,
}
use warpyard.Stream.{Stream, big_endian}
use warpyard.Stream.Handler.{Answer, waits, fault, got, Handler, ◌>>=◌, give, rq_wait, read}
use warpyard.Handshake.{rq_wait_after}

abbrev pub Holds : {A : Type 0} → (A → Type 0) → Answer A → Type 0
Holds P (waits p) = Unit {0}
Holds P fault = Unit {0}
Holds P (got a j) = P a

pub record Always {A : Type 0} (P : A → Type 0) (h : Handler A) : Type 0 where
  pub holds : (q : Stream) (i : ℕ) → Holds P (h q i)

module _ {A : Type 0} (P : A → Type 0) where
  pub give-Always : (a : A) → P a → Always P (give a)
  give-Always a p = record { holds = λ q i. p }

  pub fault-Always : Always P (λ q i. fault)
  fault-Always = record { holds = λ q i. tt }

  pub if-Always :
      (b : Bool) (h k : Handler A) → Always P h → Always P k → Always P (if b then h else k)
  if-Always true h k p r = p
  if-Always false h k p r = r

  pub bind-Always :
      {B : Type 0} (m : Handler B) (k : B → Handler A)
      → ((b : B) → Always P (k b))
      → Always P (m >>= k)
  bind-Always {B} m k next = record { holds = λ q i. after q (m q i) }
    where
      after :
          (q : Stream) (a : Answer B)
          → Holds P
              (elim a as (λ _. Answer A) [ waits p ↦ waits p | fault ↦ fault | got b j ↦ k b q j ])
      after q (waits p) = tt
      after q fault = tt
      after q (got b j) = (next b).holds q j

  pub then-Always :
      {B : Type 0} (Q : B → Type 0) (m : Handler B) (k : B → Handler A)
      → Always Q m
      → ((b : B) → Q b → Always P (k b))
      → Always P (m >>= k)
  then-Always {B} Q m k first next = record { holds = λ q i. after q (m q i) (first.holds q i) }
    where
      after :
          (q : Stream) (a : Answer B)
          → Holds Q a
          → Holds P
              (elim a as (λ _. Answer A) [ waits p ↦ waits p | fault ↦ fault | got b j ↦ k b q j ])
      after q (waits p) h = tt
      after q fault h = tt
      after q (got b j) h = (next b h).holds q j

  pub rq_wait_after-Always :
      (num goback : ℕ) (stopped : A) (next : Handler A)
      → P stopped
      → Always P next
      → Always P (rq_wait_after num goback stopped next)
  unfolding rq_wait_after
  rq_wait_after-Always num goback stopped next p r = record {
    holds = λ q i.
        by_tests (ltb (length q) (i + num)) (ltb i goback) (i - goback) (next q i) (r.holds q i);
  }
    where
      by_tests :
          (b b' : Bool) (p' : ℕ) (a : Answer A)
          → Holds P a
          → Holds P (if b then (if b' then fault else got stopped p') else a)
      by_tests true true p' a h = tt
      by_tests true false p' a h = p
      by_tests false b' p' a h = h

  -- At one place of one queue.
  pub bind-Holds :
      {B : Type 0} (m : Handler B) (k : B → Handler A) (q : Stream) (i : ℕ)
      → ((b : B) (j : ℕ) → m q i ≡ got b j → Holds P (k b q j))
      → Holds P ((m >>= k) q i)
  bind-Holds {B} m k q i next = after (m q i) refl
    where
      after :
          (a : Answer B)
          → m q i ≡ a
          → Holds P
              (elim a as (λ _. Answer A) [ waits p ↦ waits p | fault ↦ fault | got b j ↦ k b q j ])
      after (waits p) e = tt
      after fault e = tt
      after (got b j) e = next b j e

pub rq_wait-got :
    (num goback : ℕ) (q : Stream) (i : ℕ) (u : Unit {0}) (j : ℕ)
    → rq_wait num goback q i ≡ got u j
    → i ≡ j
unfolding rq_wait
rq_wait-got num goback q i u j e = by_tests (ltb (length q) (i + num)) (ltb i goback) e
  where
    by_tests :
        (b b' : Bool)
        → (if b then (if b' then fault else waits (i - goback)) else got tt i) ≡ got u j
        → i ≡ j
    by_tests true true e = absurd (cc e)
    by_tests true false e = absurd (cc e)
    by_tests false b' e = cc e

pub read-got :
    (n : ℕ) (q : Stream) (i w j : ℕ) → read n q i ≡ got w j → big_endian (take n (drop i q)) ≡ w
unfolding read
read-got n q i w j e = by_test (leb (i + n) (length q)) e
  where
    by_test :
        (b : Bool)
        → (if b then got (big_endian (take n (drop i q))) (i + n) else fault) ≡ got w j
        → big_endian (take n (drop i q)) ≡ w
    by_test true e = cc e
    by_test false e = absurd (cc e)
