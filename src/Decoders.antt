-- ===== src/Decoders.antt =====
-- The decoders of app/static/novnc/core/decoders/: what they have in common. `decodeRect` reads the
-- receive queue and calls the display. It returns whether the rectangle is finished, and keeps in the
-- decoder what it needs to go on when more bytes have arrived.
pub mod Feed
pub mod Raw
pub mod CopyRect
pub mod Rre
pub mod Items
pub mod Hextile
mod Tests
use warpyard.Base.{ℕ, Bool, true, false, List, [], ◌∷◌, ◌++◌}
use warpyard.Stream.{Stream}

pub record Rect : Type 0 where
  pub x : ℕ
  pub y : ℕ
  pub width : ℕ
  pub height : ℕ

-- A call of a drawing method of `Display`, with its arguments.
pub data Call : Type 0 where
  fill_rect : (x y width height : ℕ) (color : List ℕ) → Call
  copy_image : (old_x old_y new_x new_y width height : ℕ) → Call
  blit_image : (x y width height : ℕ) (arr : List ℕ) → Call
  image_rect : (x y width height : ℕ) (arr : List ℕ) → Call

-- A return of `decodeRect`.
pub record Step (S : Type 0) : Type 0 where
  pub finished : Bool
  pub state : S
  pub rest : Stream
  pub calls : List Call

pub data Outcome (S : Type 0) : Type 0 where
  returns : Step S → Outcome S
  -- a read of bytes that have not arrived
  underflow : Outcome S
  -- an error that `decodeRect` throws
  throws : Outcome S

module _ {S : Type 0} where
  -- It returns true.
  abbrev pub finish : S → Stream → List Call → Outcome S
  finish s q cs = returns (record { finished = true; state = s; rest = q; calls = cs })

  -- It returns false: there are not enough bytes yet.
  abbrev pub starve : S → Stream → List Call → Outcome S
  starve s q cs = returns (record { finished = false; state = s; rest = q; calls = cs })

  -- Calls made before.
  abbrev pub after : List Call → Outcome S → Outcome S
  after cs (returns r) = returns (record r { calls = cs ++ r.calls })
  after cs underflow = underflow
  after cs throws = throws
