-- ===== src/Messages.antt =====
-- `RFB.messages` of app/static/novnc/core/rfb.js: the messages to the server. Each takes the socket
-- and pushes its fields, then flushes. A signed number is its 32-bit pattern.
pub mod Unparse
pub mod Clipboard
pub mod Wire
pub mod Emits
pub mod Sent
pub mod Parse
pub mod Session
mod Tests
use warpyard.Base.{
  ℕ, ◌+◌, ◌-◌, ◌*◌, ◌/◌, ◌%◌, ◌^◌, bit_and, bit_or, Bool, true, false, ◌&&◌, Option, none, some,
  List, [], ◌∷◌, ◌++◌, length, ltb, ◌==◌, if◌then◌else◌,
}
use mathlib.Core.Option
use warpyard.Websock.{Websock}
use warpyard.Websock.SendQueue.{
  flush, s_qpush8, s_qpush16, s_qpush32, s_qpush_bytes, s_qpush_string,
}

-- One statement after another.
infixl 5 ◌>>◌
abbrev pub ◌>>◌ : (Websock → Websock) → (Websock → Websock) → Websock → Websock
◌>>◌ f g sock = g (f sock)

unfoldable pub key_event : ℕ → ℕ → Websock → Websock
key_event keysym down = do s_qpush8 4; s_qpush8 down; s_qpush16 0; s_qpush32 keysym; flush

-- `getRFBkeycode`. The shift takes the lowest 32 bits; where the highest of these is set the upper byte is
-- negative in the code, and large here.
unfoldable pub get_rfb_keycode : ℕ → ℕ
get_rfb_keycode keycode =
    let upper_byte = keycode % 2 ^ 32 / 2 ^ 8 in
    let lower_byte = bit_and keycode 0xff in
    if upper_byte == 0xe0 && ltb lower_byte 0x7f then bit_or lower_byte 0x80 else keycode

unfoldable pub qemu_extended_key_event : ℕ → ℕ → ℕ → Websock → Websock
unfolding get_rfb_keycode
qemu_extended_key_event keysym down keycode = do
  s_qpush8 255
  s_qpush8 0
  s_qpush16 down
  s_qpush32 keysym
  s_qpush32 (get_rfb_keycode keycode)
  flush

unfoldable pub pointer_event : ℕ → ℕ → ℕ → Websock → Websock
pointer_event x y mask = do s_qpush8 5; s_qpush8 mask; s_qpush16 x; s_qpush16 y; flush

-- The header of `clientCutText`; an extended message has its length negated.
unfoldable pub cut_text_header : ℕ → Bool → Websock → Websock
cut_text_header len extended = do
  s_qpush8 6
  s_qpush8 0
  s_qpush8 0
  s_qpush8 0
  s_qpush32 (if extended then (2 ^ 32 - len % 2 ^ 32) % 2 ^ 32 else len)

unfoldable pub client_cut_text : List ℕ → Bool → Websock → Option Websock
unfolding cut_text_header
client_cut_text text extended sock =
    Option.map flush (s_qpush_bytes text (cut_text_header (length text) extended sock))

unfoldable pub set_desktop_size : ℕ → ℕ → ℕ → ℕ → Websock → Websock
set_desktop_size width height id flags = do
  s_qpush8 251
  s_qpush8 0
  s_qpush16 width
  s_qpush16 height
  s_qpush8 1
  s_qpush8 0
  s_qpush32 id
  s_qpush16 0
  s_qpush16 0
  s_qpush16 width
  s_qpush16 height
  s_qpush32 flags
  flush

unfoldable pub fence_header : ℕ → ℕ → Websock → Websock
fence_header flags len = do
  s_qpush8 248
  s_qpush8 0
  s_qpush8 0
  s_qpush8 0
  s_qpush32 flags
  s_qpush8 len

unfoldable pub client_fence : ℕ → List ℕ → Websock → Option Websock
unfolding fence_header
client_fence flags payload sock =
    Option.map flush (s_qpush_string payload (fence_header flags (length payload) sock))

unfoldable pub enable_continuous_updates : ℕ → ℕ → ℕ → ℕ → ℕ → Websock → Websock
enable_continuous_updates enable x y width height = do
  s_qpush8 150
  s_qpush8 enable
  s_qpush16 x
  s_qpush16 y
  s_qpush16 width
  s_qpush16 height
  flush

unfoldable pub bits_per_pixel : ℕ → ℕ
bits_per_pixel depth = if ltb 16 depth then 32 else if ltb 8 depth then 16 else 8

-- `1 << bits` shifts by the lowest five bits of `bits`, and no more than the lowest 32 bits of what follows
-- from it are sent.
unfoldable pub pixel_format : ℕ → Bool → Websock → Websock
unfolding bits_per_pixel
pixel_format depth true_color =
    let bits = depth / 3 in
    do
      s_qpush8 0
      s_qpush8 0
      s_qpush8 0
      s_qpush8 0
      s_qpush8 (bits_per_pixel depth)
      s_qpush8 depth
      s_qpush8 0
      s_qpush8 (if true_color then 1 else 0)
      s_qpush16 (2 ^ (bits % 32) - 1)
      s_qpush16 (2 ^ (bits % 32) - 1)
      s_qpush16 (2 ^ (bits % 32) - 1)
      s_qpush8 (bits * 0)
      s_qpush8 (bits * 1)
      s_qpush8 (bits * 2)
      s_qpush8 0
      s_qpush8 0
      s_qpush8 0
      flush

-- The loop of `clientEncodings`.
unfoldable pub push_encodings : List ℕ → Websock → Websock
push_encodings [] sock = sock
push_encodings (e ∷ es) sock = push_encodings es (s_qpush32 e sock)

unfoldable pub client_encodings : List ℕ → Websock → Websock
unfolding push_encodings
client_encodings encodings = do
  s_qpush8 2
  s_qpush8 0
  s_qpush16 (length encodings)
  push_encodings encodings
  flush

unfoldable pub fb_update_request : Bool → ℕ → ℕ → ℕ → ℕ → Websock → Websock
fb_update_request incremental x y w h = do
  s_qpush8 3
  s_qpush8 (if incremental then 1 else 0)
  s_qpush16 x
  s_qpush16 y
  s_qpush16 w
  s_qpush16 h
  flush

unfoldable pub xvp_op : ℕ → ℕ → Websock → Websock
xvp_op ver op = do s_qpush8 250; s_qpush8 0; s_qpush8 ver; s_qpush8 op; flush
