-- ===== src/Stream/Handler.antt =====
-- A handler of rfb.js as it reads one message: the queue from the first byte of the message on, and how
-- many of its bytes are taken (`_rQi`). `rQwait` may put bytes back.
pub mod Resumes
pub mod Lax
use warpyard.Base.{
  ℕ, ◌+◌, ◌-◌, ◌≤◌, ◌<◌, Bool, true, false, List, [], ◌++◌, ◌≡◌, refl, sym, ap, subst, ◌∙◌, arith,
  length, length-append, length-drop, take, drop, take-append_le, drop-append_le, ltb, leb,
  if◌then◌else◌,
}
use native.Mathlib.Decide.{dec_le}
use warpyard.Stream.{Stream, big_endian}

pub data Answer (A : Type 0) : Type 0 where
  -- `rQwait` finds too few bytes; so many bytes of the message stay taken
  waits : ℕ → Answer A
  -- a read past what has arrived, or bytes put back that were not taken
  fault : Answer A
  got : A → ℕ → Answer A

abbrev pub Handler : Type 0 → Type 0
Handler A = Stream → ℕ → Answer A

infixl 5 ◌>>=◌ ◌>>◌
abbrev pub ◌>>=◌ : {A B : Type 0} → Handler A → (A → Handler B) → Handler B
◌>>=◌ m k q i = elim (m q i) [ waits p ↦ waits p | fault ↦ fault | got a j ↦ k a q j ]

abbrev pub ◌>>◌ : {B : Type 0} → Handler (Unit {0}) → Handler B → Handler B
m >> k = m >>= λ _. k

abbrev pub give : {A : Type 0} → A → Handler A
give a q i = got a i

-- `rQwait`, which returns from the handler if it has to wait.
unfoldable pub rq_wait : (num goback : ℕ) → Handler (Unit {0})
rq_wait num goback q i =
    if ltb (length q) (i + num)
    then if ltb i goback then fault else waits (i - goback)
    else got tt i

-- `rQshift8`, `rQshift16` and `rQshift32`
unfoldable pub read : ℕ → Handler ℕ
read n q i = if leb (i + n) (length q) then got (big_endian (take n (drop i q))) (i + n) else fault

abbrev pub read8 : Handler ℕ
read8 = read 1

abbrev pub read16 : Handler ℕ
read16 = read 2

abbrev pub read32 : Handler ℕ
read32 = read 4

-- `rQshiftBytes` and `rQshiftStr`
unfoldable pub read_bytes : ℕ → Handler (List ℕ)
read_bytes n q i = if leb (i + n) (length q) then got (take n (drop i q)) (i + n) else fault

-- `rQskipBytes`
unfoldable pub skip : ℕ → Handler (Unit {0})
skip n q i = if leb (i + n) (length q) then got tt (i + n) else fault

-- `rQpeek8`
unfoldable pub peek : Handler ℕ
peek q i = if leb (i + 1) (length q) then got (big_endian (take 1 (drop i q))) i else fault
