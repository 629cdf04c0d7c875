-- ===== src/Inflator.antt =====
-- app/static/novnc/core/inflator.js: Inflate. Of the library that it calls, pako, the state and the
-- functions are the parameter `Pako`; the output buffer is the list of the bytes written into it.
use warpyard.Base.{
  ℕ, ◌*◌, ◌≤◌, ◌<◌, Bool, false, Option, none, some, List, [], length, take, drop, ltb, ◌==◌,
  if◌then◌else◌, ◌≡◌,
}

-- A call of pako's `inflate`: whether its result is negative, what it wrote from `next_out` on, and the
-- input that it left.
pub record Ran (Z : Type 0) : Type 0 where
  pub negative : Bool
  pub output : List ℕ
  pub rest : List ℕ
  pub state : Z

-- `inflateInit`, `inflate` on an input and so many free bytes of output, and `inflateReset`.
pub record Pako (Z : Type 0) : Type 0 where
  pub start : Z
  pub run : Z → List ℕ → ℕ → Ran Z
  pub again : Z → Z

-- `strm` with its input from `next_in` on, and `chunkSize`.
pub record Inflate (Z : Type 0) : Type 0 where
  pub state : Z
  pub input : List ℕ
  pub chunk_size : ℕ

module _ {Z : Type 0} where
  unfoldable pub set_input : Option (List ℕ) → Inflate Z → Inflate Z
  set_input none s = record s { input = [] }
  set_input (some bytes) s = record s { input = bytes }

  module _ (pako : Pako Z) where
    unfoldable pub new : Inflate Z
    new = record { state = pako.start; input = []; chunk_size = 1024 * 10 * 10 }

    -- `none` is an error that is thrown.
    unfoldable pub inflate : ℕ → Inflate Z → Option (List ℕ × Inflate Z)
    inflate expected s =
        let chunk = if ltb s.chunk_size expected then expected else s.chunk_size in
        let ran = pako.run s.state s.input expected in
        if ran.negative
        then none
        else if length ran.output == expected
        then some (ran.output, record { state = ran.state; input = ran.rest; chunk_size = chunk })
        else none

    unfoldable pub reset : Inflate Z → Inflate Z
    reset s = record s { state = pako.again s.state }

    -- What zlib promises: where a state and an input decompress to some bytes, a call with room for at least
    -- one of these and no more than there are writes as many of them as there is room for, without an
    -- error, and goes on behind them. Of a call that can make no progress it says nothing.
    pub record Decompresses (Holds : Z → List ℕ → List ℕ → Type 0) : Type 0 where
      pub ok :
          (z : Z) (input plain : List ℕ) (n : ℕ)
          → Holds z input plain
          → 0 < n
          → n ≤ length plain
          → (pako.run z input n).negative ≡ false
      pub writes :
          (z : Z) (input plain : List ℕ) (n : ℕ)
          → Holds z input plain
          → 0 < n
          → n ≤ length plain
          → (pako.run z input n).output ≡ take n plain
      pub goes_on :
          (z : Z) (input plain : List ℕ) (n : ℕ)
          → Holds z input plain
          → 0 < n
          → n ≤ length plain
          → Holds (pako.run z input n).state (pako.run z input n).rest (drop n plain)
