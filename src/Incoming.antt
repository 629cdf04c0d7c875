-- ===== src/Incoming.antt =====
-- The connected phase of app/static/novnc/core/rfb.js: the messages that the server sends. What the client
-- does in answer is a list of effects. A string is the list of its character codes, and an encoding is the
-- 32-bit pattern that arrives.
pub mod Pseudo
pub mod LaxReads
pub mod Cursor
pub mod Kept
pub mod Handlers
pub mod Sizes
pub mod Lax
pub mod GoesOn
pub mod RectGoes
pub mod NextRect
pub mod UpdateGoes
pub mod MessageGoes
pub mod TypeGoes
pub mod Turns
pub mod Cut
pub mod Defers
pub mod Pending
pub mod Flush
pub mod Installed
mod Tests
pub mod Rects
pub mod Clipboard
pub mod Messages
use warpyard.Base.{
  ℕ, ◌+◌, ◌-◌, ◌*◌, ◌^◌, Bool, true, false, Option, none, some, List, [], ◌∷◌, ◌++◌, map, drop,
  if◌then◌else◌,
}
use warpyard.Stream.{Stream}
use warpyard.Stream.Handler.{Answer, waits, fault, got}
use warpyard.Decoders.{Rect, Call}
use warpyard.Decoders.Feed.{Decoder}
use warpyard.Messages.Wire.{ClientMessage, continuous_updates}

pub data Effect : Type 0 where
  -- a drawing method of the display, and `flip`
  draws : Call → Effect
  flips : Effect
  sends : ClientMessage → Effect
  -- `_resize`: the display and all that follows from its size; `_requestRemoteResize`
  resizes : (width height : ℕ) → Effect
  requests_resize : Effect
  -- `_refreshCursor`
  shows_cursor : (rgba : List ℕ) (hotx hoty w h : ℕ) → Effect
  -- events for the page
  names_desktop : List ℕ → Effect
  rings : Effect
  copies : List ℕ → Effect
  allows_power : Effect
  -- the warning that the type of a cursor is not supported
  warns : Effect
  -- `_fail`
  fails : Effect

-- The decoders: for an encoding, its `decodeRect`, a rectangle and a depth. `D` is the state of all.
abbrev pub Decoders : Type 0 → Type 0
Decoders D = ℕ → Option (Rect → ℕ → Decoder D)

pub record Client (D : Type 0) : Type 0 where
  -- `_FBU`
  pub rects : ℕ
  pub rect : Rect
  pub encoding : Option ℕ
  pub decoders : D
  pub fb_width : ℕ
  pub fb_height : ℕ
  pub fb_depth : ℕ
  pub fb_name : List ℕ
  pub view_only : Bool
  pub flushing : Bool
  -- `_fail` was called
  pub failed : Bool
  pub supports_fence : Bool
  pub supports_continuous_updates : Bool
  pub enabled_continuous_updates : Bool
  pub supports_set_desktop_size : Bool
  pub screen_id : ℕ
  pub screen_flags : ℕ
  pub qemu_ext_key_event_supported : Bool
  pub remote_caps_lock : Option Bool
  pub remote_num_lock : Option Bool
  pub rfb_xvp_ver : ℕ
  pub clipboard_text : Option (List ℕ)
  -- what the server can do with the clipboard: the lowest bits of its formats and, moved down by 24, actions
  pub server_formats : ℕ
  pub server_actions : ℕ

-- What a handler comes to when it has its message: what it returns, the new state, what it did.
pub record Done (D : Type 0) : Type 0 where
  pub finished : Bool
  pub client : Client D
  pub effects : List Effect

-- A return of `_normalMsg` or of a part of it, with the queue that is left.
pub record Handled (D : Type 0) : Type 0 where
  pub finished : Bool
  pub client : Client D
  pub rest : Stream
  pub effects : List Effect

pub data Reply (D : Type 0) : Type 0 where
  returns : Handled D → Reply D
  -- it returns false, after an error that closes the connection; what was drawn before is forgotten
  closes : Reply D
  -- a read past what has arrived, or an error that nothing catches
  breaks : Reply D
  -- a loop that has not ended by the end of its fuel, which stands for one that never ends
  spins : Reply D

module _ {D : Type 0} where
  abbrev pub done : Client D → List Effect → Done D
  done c es = record { finished = true; client = c; effects = es }

  -- `_fail`, which returns false.
  abbrev pub fail : Client D → Done D
  fail c = record { finished = false; client = record c { failed = true }; effects = fails ∷ [] }

  abbrev pub finish : Client D → Stream → List Effect → Reply D
  finish c q es = returns (record { finished = true; client = c; rest = q; effects = es })

  abbrev pub starve : Client D → Stream → List Effect → Reply D
  starve c q es = returns (record { finished = false; client = c; rest = q; effects = es })

  -- Effects before.
  abbrev pub after : List Effect → Reply D → Reply D
  after es (returns r) = returns (record r { effects = es ++ r.effects })
  after es closes = closes
  after es breaks = breaks
  after es spins = spins

  -- A handler's answer. While it waits nothing is changed.
  abbrev pub reply : Client D → Stream → Answer (Done D) → Reply D
  reply c q (waits p) = starve c (drop p q) []
  reply c q fault = breaks
  reply c q (got d i) =
      returns
        (record { finished = d.finished; client = d.client; rest = drop i q; effects = d.effects })

  -- `_updateContinuousUpdates`
  unfoldable pub update_continuous_updates : Client D → List Effect
  update_continuous_updates c =
      if c.enabled_continuous_updates
      then sends (continuous_updates 1 0 0 c.fb_width c.fb_height) ∷ []
      else []

  -- `_resize`
  unfoldable pub resize : ℕ → ℕ → Client D → Client D × List Effect
  unfolding update_continuous_updates
  resize width height c =
      let resized = record c { fb_width = width; fb_height = height } in
      (resized, resizes width height ∷ update_continuous_updates resized)
