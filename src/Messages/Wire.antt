-- ===== src/Messages/Wire.antt =====
-- The client messages of the RFB protocol as data, and the bytes that the protocol gives them.
use warpyard.Base.{
  ℕ, ◌+◌, ◌-◌, ◌*◌, ◌/◌, ◌%◌, ◌^◌, ◌≤◌, Bool, Option, some, List, [], ◌∷◌, ◌++◌, length, leb, ltb,
  ◌&&◌, if◌then◌else◌,
}
use warpyard.Websock.{Websock}
use warpyard.Websock.SendQueue.{to_bytes}
use warpyard.Websock.Send.{bytes16, bytes32}
use warpyard.Messages

-- Each function of `RFB.messages` with its arguments.
pub data ClientMessage : Type 0 where
  key : (keysym down : ℕ) → ClientMessage
  qemu_key : (keysym down keycode : ℕ) → ClientMessage
  pointer : (x y mask : ℕ) → ClientMessage
  cut_text : (text : List ℕ) (extended : Bool) → ClientMessage
  desktop_size : (width height id flags : ℕ) → ClientMessage
  fence : (flags : ℕ) (payload : List ℕ) → ClientMessage
  continuous_updates : (enable x y width height : ℕ) → ClientMessage
  format : (depth : ℕ) (true_color : Bool) → ClientMessage
  encodings : List ℕ → ClientMessage
  update_request : (incremental : Bool) (x y w h : ℕ) → ClientMessage
  xvp : (ver op : ℕ) → ClientMessage

-- The call that sends it.
unfoldable pub send : ClientMessage → Websock → Option Websock
send (key keysym down) sock = some (Messages.key_event keysym down sock)
send (qemu_key keysym down keycode) sock =
    some (Messages.qemu_extended_key_event keysym down keycode sock)
send (pointer x y mask) sock = some (Messages.pointer_event x y mask sock)
send (cut_text text extended) sock = Messages.client_cut_text text extended sock
send (desktop_size width height id flags) sock =
    some (Messages.set_desktop_size width height id flags sock)
send (fence flags payload) sock = Messages.client_fence flags payload sock
send (continuous_updates enable x y width height) sock =
    some (Messages.enable_continuous_updates enable x y width height sock)
send (format depth true_color) sock = some (Messages.pixel_format depth true_color sock)
send (encodings es) sock = some (Messages.client_encodings es sock)
send (update_request incremental x y w h) sock =
    some (Messages.fb_update_request incremental x y w h sock)
send (xvp ver op) sock = some (Messages.xvp_op ver op sock)

abbrev pub encodings_bytes : List ℕ → List ℕ
encodings_bytes [] = []
encodings_bytes (e ∷ es) = bytes32 e ++ encodings_bytes es

abbrev pub cut_text_length : ℕ → Bool → ℕ
cut_text_length len extended = if extended then (2 ^ 32 - len % 2 ^ 32) % 2 ^ 32 else len

-- A scan code of the extended set, 0xe0 before a code below 0x7f, has the highest bit of its byte set instead.
abbrev pub rfb_keycode : ℕ → ℕ
rfb_keycode keycode =
    let scan_code = keycode % 2 ^ 32 in
    if leb 0xe000 scan_code && ltb scan_code 0xe07f then scan_code - 0xe000 + 0x80 else keycode

-- The bits of a pixel: the first of 8, 16 and 32 that has room for the depth, or 32.
abbrev pub pixel_size : ℕ → ℕ
pixel_size depth = if leb depth 8 then 8 else if leb depth 16 then 16 else 32

-- The bytes of a message. The largest value of a colour is that of a third of the depth in bits; from a
-- depth of 96 on these are counted modulo 32.
abbrev pub wire : ClientMessage → List ℕ
wire (key keysym down) = 4 ∷ down % 256 ∷ 0 ∷ 0 ∷ bytes32 keysym
wire (qemu_key keysym down keycode) =
    255 ∷ 0 ∷ (bytes16 down ++ (bytes32 keysym ++ bytes32 (rfb_keycode keycode)))
wire (pointer x y mask) = 5 ∷ mask % 256 ∷ (bytes16 x ++ bytes16 y)
wire (cut_text text extended) =
    6 ∷ 0 ∷ 0 ∷ 0 ∷ (bytes32 (cut_text_length (length text) extended) ++ text)
wire (desktop_size width height id flags) =
    251
    ∷ 0
    ∷ (bytes16 width
        ++ (bytes16 height
            ++ (1
                ∷ 0
                ∷ (bytes32 id
                    ++ (0 ∷ 0 ∷ 0 ∷ 0 ∷ (bytes16 width ++ (bytes16 height ++ bytes32 flags)))))))
wire (fence flags payload) =
    248 ∷ 0 ∷ 0 ∷ 0 ∷ (bytes32 flags ++ (length payload % 256 ∷ to_bytes payload))
wire (continuous_updates enable x y width height) =
    150 ∷ enable % 256 ∷ (bytes16 x ++ (bytes16 y ++ (bytes16 width ++ bytes16 height)))
wire (format depth true_color) =
    let top = 2 ^ (depth / 3 % 32) - 1 in
    0
    ∷ 0
    ∷ 0
    ∷ 0
    ∷ pixel_size depth
    ∷ depth % 256
    ∷ 0
    ∷ (if true_color then 1 else 0) % 256
    ∷ (bytes16 top
        ++ (bytes16 top
            ++ (bytes16 top
                ++ (depth / 3 * 0 % 256
                    ∷ depth / 3 * 1 % 256
                    ∷ depth / 3 * 2 % 256
                    ∷ 0
                    ∷ 0
                    ∷ 0
                    ∷ []))))
wire (encodings es) = 2 ∷ 0 ∷ (bytes16 (length es) ++ encodings_bytes es)
wire (update_request incremental x y w h) =
    3
    ∷ (if incremental then 1 else 0) % 256
    ∷ (bytes16 x ++ (bytes16 y ++ (bytes16 w ++ bytes16 h)))
wire (xvp ver op) = 250 ∷ 0 ∷ ver % 256 ∷ op % 256 ∷ []

-- A text that the send queue takes whole, behind the header of its message.
abbrev pub Fits : ℕ → ClientMessage → Type 0
Fits size (cut_text text extended) = 8 + length text ≤ size
Fits size (fence flags payload) = 9 + length payload ≤ size
Fits size _ = Unit {0}
