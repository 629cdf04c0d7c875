-- ===== src/Deflator.antt =====
-- app/static/novnc/core/deflator.js: Deflator. Of the library that it calls, pako, the state and the
-- functions are the parameter `Deflating`; an output buffer is the list of the bytes written into it, all
-- of which the caller copies before the next call.
use warpyard.Base.{
  ℕ, zero, suc, ◌+◌, ◌*◌, ◌≤◌, ◌<◌, false, Option, none, some, List, [], ◌++◌, length, ltb,
  if◌then◌else◌, Bool-cases, inl, inr, ◌⊎◌, ◌≡◌, refl, arith,
}
use mathlib.Core.Option
use warpyard.Inflator.{Ran}

-- `deflateInit`, and `deflate` with a full flush on an input and so many free bytes of output.
pub record Deflating (Z : Type 0) : Type 0 where
  pub start : Z
  pub run : Z → List ℕ → ℕ → Ran Z

-- `strm` with its input from `next_in` on.
pub record Deflator (Z : Type 0) : Type 0 where
  pub state : Z
  pub input : List ℕ

abbrev pub chunk_size : ℕ
chunk_size = 1024 * 10 * 10

module _ {Z : Type 0} (pako : Deflating Z) where
  unfoldable pub new : Deflator Z
  new = record { state = pako.start; input = [] }

  -- "Read chunks until done": the loop, on fuel, behind the output so far. `none` is an error that is
  -- thrown, or a loop that has not ended.
  unfoldable pub read_chunks : ℕ → List ℕ → Deflator Z → Option (List ℕ × Deflator Z)
  read_chunks zero chunks s = none
  read_chunks (suc fuel) chunks s =
      let ran = pako.run s.state s.input chunk_size in
      let rest =
        read_chunks fuel (chunks ++ ran.output) (record { state = ran.state; input = ran.rest }) in
      if ran.negative
      then none
      else if ltb 0 (length ran.rest)
      then rest
      else some (chunks ++ ran.output, record { state = ran.state; input = [] })

  unfoldable pub deflate : ℕ → List ℕ → Deflator Z → Option (List ℕ × Deflator Z)
  unfolding read_chunks
  deflate fuel in_data s =
      let ran = pako.run s.state in_data chunk_size in
      if ran.negative
      then none
      else if ltb 0 (length ran.rest)
      then read_chunks fuel ran.output (record { state = ran.state; input = ran.rest })
      else some (ran.output, record { state = ran.state; input = [] })

  -- What a new Deflator makes of its data.
  unfoldable pub deflated : ℕ → List ℕ → Option (List ℕ)
  unfolding deflate new
  deflated fuel in_data = Option.map (λ out. out.0) (deflate fuel in_data new)

  -- What zlib promises of `deflate` with a full flush, from the states that calls of it lead to (`Live`), on
  -- an input that is not empty, with more than six bytes of room: it has no error, and it stops at the end
  -- of the input or of the room. `to_come` bounds what is still to be written while there is input, as
  -- `deflateBound` does. Where a first call leaves room, the flush is complete, and what it wrote is the
  -- whole input (`Holds`). Of a call that has no input, and may make no progress, it says nothing.
  pub record Compresses (Live : Z → Type 0) (to_come : Z → List ℕ → ℕ)
      (Holds : List ℕ → List ℕ → Type 0) : Type 0 where
    pub starts : Live pako.start
    pub lives :
        (z : Z) (input : List ℕ) (n : ℕ)
        → Live z
        → 0 < length input
        → 6 < n
        → Live (pako.run z input n).state
    pub ok :
        (z : Z) (input : List ℕ) (n : ℕ)
        → Live z
        → 0 < length input
        → 6 < n
        → (pako.run z input n).negative ≡ false
    pub stops :
        (z : Z) (input : List ℕ) (n : ℕ)
        → Live z
        → 0 < length input
        → 6 < n
        → (length (pako.run z input n).rest ≡ 0) ⊎ (length (pako.run z input n).output ≡ n)
    pub bounded :
        (z : Z) (input : List ℕ) (n : ℕ)
        → Live z
        → 0 < length input
        → 6 < n
        → length (pako.run z input n).output
            + to_come (pako.run z input n).state (pako.run z input n).rest
          ≤ to_come z input
    pub flushed :
        (input : List ℕ) (n : ℕ)
        → 0 < length input
        → 6 < n
        → length (pako.run pako.start input n).output < n
        → Holds (pako.run pako.start input n).output input

  module _ {Live : Z → Type 0} {to_come : Z → List ℕ → ℕ} {Holds : List ℕ → List ℕ → Type 0}
      (zlib : Compresses Live to_come Holds) where
    -- With as much fuel as there are bytes to come, the loop ends.
    read_chunks_lem :
        (fuel : ℕ) (chunks : List ℕ) (s : Deflator Z)
        → Live s.state
        → 0 < length s.input
        → to_come s.state s.input < fuel
        → (out : List ℕ × Deflator Z) × (read_chunks fuel chunks s ≡ some out)
    unfolding read_chunks
    read_chunks_lem zero chunks s live some_left h = absurd (omega (arith, h))
    read_chunks_lem (suc fuel) chunks s live some_left h =
        let ran = pako.run s.state s.input chunk_size in
        let room : 6 < chunk_size = omega arith in
        let fine = zlib.ok s.state s.input chunk_size live some_left room in
        elim (Bool-cases (ltb 0 (length ran.rest))) [
          | inl more ↦
              let less : to_come ran.state ran.rest < fuel = ground (
                arith,
                zlib.bounded s.state s.input chunk_size live some_left room,
                zlib.stops s.state s.input chunk_size live some_left room,
              ) in
              let (out, e) =
                read_chunks_lem fuel (chunks ++ ran.output)
                  (record { state = ran.state; input = ran.rest })
                  (zlib.lives s.state s.input chunk_size live some_left room) (ground (arith, more))
                  less in
              (out, rw (fine, more) e)
          | inr ended ↦ (
            (chunks ++ ran.output, record { state = ran.state; input = [] }),
            rw (fine, ended) refl,
          )
        ]

    -- So does a call.
    pub deflate-returns :
        (fuel : ℕ) (in_data : List ℕ) (s : Deflator Z)
        → Live s.state
        → 0 < length in_data
        → to_come s.state in_data < fuel
        → (out : List ℕ × Deflator Z) × (deflate fuel in_data s ≡ some out)
    unfolding deflate
    deflate-returns fuel in_data s live some_data h =
        let ran = pako.run s.state in_data chunk_size in
        let room : 6 < chunk_size = omega arith in
        let fine = zlib.ok s.state in_data chunk_size live some_data room in
        elim (Bool-cases (ltb 0 (length ran.rest))) [
          | inl more ↦
              let (out, e) =
                read_chunks_lem fuel ran.output (record { state = ran.state; input = ran.rest })
                  (zlib.lives s.state in_data chunk_size live some_data room) (ground (arith, more))
                  (omega (arith, zlib.bounded s.state in_data chunk_size live some_data room)) in
              (out, rw (fine, more) e)
          | inr ended ↦
              ((ran.output, record { state = ran.state; input = [] }), rw (fine, ended) refl)
        ]

    -- Data that do not fill the first buffer are deflated as a whole.
    pub deflated-Holds :
        (fuel : ℕ) (in_data : List ℕ)
        → 0 < length in_data
        → length (pako.run pako.start in_data chunk_size).output < chunk_size
        → (deflated fuel in_data ≡ some (pako.run pako.start in_data chunk_size).output)
          × Holds (pako.run pako.start in_data chunk_size).output in_data
    unfolding deflated
    deflated-Holds fuel in_data some_data h =
        let ran = pako.run pako.start in_data chunk_size in
        let room : 6 < chunk_size = omega arith in
        let fine = zlib.ok pako.start in_data chunk_size zlib.starts some_data room in
        let ended : ltb 0 (length ran.rest) ≡ false =
          ground (arith, zlib.stops pako.start in_data chunk_size zlib.starts some_data room) in
        (rw (fine, ended) refl, zlib.flushed in_data chunk_size some_data room h)
