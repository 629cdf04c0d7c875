-- ===== src/Messages/Sent.antt =====
-- What a message puts on the channel.
use warpyard.Base.{
  ℕ, ◌*◌, ◌/◌, ◌+◌, ◌<◌, ◌%◌, bit_or, ==_iff, ◌==◌, arith, Bool, some, List, append-nil, ◌≡◌, refl,
  length,
}
use warpyard.Base.Bits.{and_255, all_below, all_below_sound}
use warpyard.Websock.{Websock}
use warpyard.Websock.SendQueue.{s_qpush_string, to_bytes}
use warpyard.Websock.Valid.{CanSend, IsOpen}
use warpyard.Websock.Send.{s_qpush8_lem, s_qpush16_lem, s_qpush32_lem}
use warpyard.Messages
use warpyard.Messages.{◌>>◌}
use warpyard.Messages.Wire.{
  ClientMessage, key, qemu_key, pointer, cut_text, desktop_size, fence, continuous_updates, format,
  encodings, update_request, xvp, send, wire, encodings_bytes, Fits, rfb_keycode, pixel_size,
}
use warpyard.Messages.Emits.{
  Sends, Emits, flush-Emits, push_encodings_lem, cut_text_header_lem, fence_header_lem,
  behind_header, length-to_bytes, ◌▸◌,
}

key_event_lem : (keysym down : ℕ) → Emits (wire (key keysym down)) (Messages.key_event keysym down)
unfolding Messages.key_event
key_event_lem keysym down =
    s_qpush8_lem 4 ▸ s_qpush8_lem down ▸ s_qpush16_lem 0 ▸ s_qpush32_lem keysym ▸ flush-Emits

set_top_bit : (x : ℕ) → x < 0x7f → bit_or x 0x80 ≡ x + 0x80
unfolding all_below
set_top_bit x h = (==_iff _ _).0 (all_below_sound 0x7f (λ y. bit_or y 0x80 == y + 0x80) x refl h)

get_rfb_keycode_lem : (keycode : ℕ) → Messages.get_rfb_keycode keycode ≡ rfb_keycode keycode
unfolding Messages.get_rfb_keycode
get_rfb_keycode_lem keycode = ground (arith, and_255 keycode, set_top_bit (keycode % 256))

bits_per_pixel_lem : (depth : ℕ) → Messages.bits_per_pixel depth % 256 ≡ pixel_size depth
unfolding Messages.bits_per_pixel
bits_per_pixel_lem depth = ground arith

qemu_lem :
    (keysym down keycode : ℕ)
    → Emits
        (wire (qemu_key keysym down keycode))
        (Messages.qemu_extended_key_event keysym down keycode)
unfolding Messages.qemu_extended_key_event
qemu_lem keysym down keycode = rw (← get_rfb_keycode_lem keycode) (
    s_qpush8_lem 255
    ▸ s_qpush8_lem 0
    ▸ s_qpush16_lem down
    ▸ s_qpush32_lem keysym
    ▸ s_qpush32_lem _
    ▸ flush-Emits)

pointer_event_lem :
    (x y mask : ℕ) → Emits (wire (pointer x y mask)) (Messages.pointer_event x y mask)
unfolding Messages.pointer_event
pointer_event_lem x y mask =
    s_qpush8_lem 5 ▸ s_qpush8_lem mask ▸ s_qpush16_lem x ▸ s_qpush16_lem y ▸ flush-Emits

set_desktop_size_lem :
    (width height id flags : ℕ)
    → Emits
        (wire (desktop_size width height id flags))
        (Messages.set_desktop_size width height id flags)
unfolding Messages.set_desktop_size
set_desktop_size_lem width height id flags =
    s_qpush8_lem 251
    ▸ s_qpush8_lem 0
    ▸ s_qpush16_lem width
    ▸ s_qpush16_lem height
    ▸ s_qpush8_lem 1
    ▸ s_qpush8_lem 0
    ▸ s_qpush32_lem id
    ▸ s_qpush16_lem 0
    ▸ s_qpush16_lem 0
    ▸ s_qpush16_lem width
    ▸ s_qpush16_lem height
    ▸ s_qpush32_lem flags
    ▸ flush-Emits

continuous_updates_lem :
    (enable x y width height : ℕ)
    → Emits
        (wire (continuous_updates enable x y width height))
        (Messages.enable_continuous_updates enable x y width height)
unfolding Messages.enable_continuous_updates
continuous_updates_lem enable x y width height =
    s_qpush8_lem 150
    ▸ s_qpush8_lem enable
    ▸ s_qpush16_lem x
    ▸ s_qpush16_lem y
    ▸ s_qpush16_lem width
    ▸ s_qpush16_lem height
    ▸ flush-Emits

pixel_format_lem :
    (depth : ℕ) (true_color : Bool)
    → Emits (wire (format depth true_color)) (Messages.pixel_format depth true_color)
unfolding Messages.pixel_format
pixel_format_lem depth true_color = rw (← bits_per_pixel_lem depth) (
    s_qpush8_lem 0
    ▸ s_qpush8_lem 0
    ▸ s_qpush8_lem 0
    ▸ s_qpush8_lem 0
    ▸ s_qpush8_lem (Messages.bits_per_pixel depth)
    ▸ s_qpush8_lem depth
    ▸ s_qpush8_lem 0
    ▸ s_qpush8_lem _
    ▸ s_qpush16_lem _
    ▸ s_qpush16_lem _
    ▸ s_qpush16_lem _
    ▸ s_qpush8_lem (depth / 3 * 0)
    ▸ s_qpush8_lem (depth / 3 * 1)
    ▸ s_qpush8_lem (depth / 3 * 2)
    ▸ s_qpush8_lem 0
    ▸ s_qpush8_lem 0
    ▸ s_qpush8_lem 0
    ▸ flush-Emits)

update_request_lem :
    (incremental : Bool) (x y w h : ℕ)
    → Emits
        (wire (update_request incremental x y w h))
        (Messages.fb_update_request incremental x y w h)
unfolding Messages.fb_update_request
update_request_lem incremental x y w h =
    s_qpush8_lem 3
    ▸ s_qpush8_lem _
    ▸ s_qpush16_lem x
    ▸ s_qpush16_lem y
    ▸ s_qpush16_lem w
    ▸ s_qpush16_lem h
    ▸ flush-Emits

xvp_lem : (ver op : ℕ) → Emits (wire (xvp ver op)) (Messages.xvp_op ver op)
unfolding Messages.xvp_op
xvp_lem ver op =
    s_qpush8_lem 250 ▸ s_qpush8_lem 0 ▸ s_qpush8_lem ver ▸ s_qpush8_lem op ▸ flush-Emits

client_encodings_lem : (es : List ℕ) → Emits (wire (encodings es)) (Messages.client_encodings es)
unfolding Messages.client_encodings
client_encodings_lem es = rw (← append-nil (encodings_bytes es)) (
    s_qpush8_lem 2
    ▸ s_qpush8_lem 0
    ▸ s_qpush16_lem (length es)
    ▸ push_encodings_lem es
    ▸ flush-Emits)

emitted :
    {bs : List ℕ} {f : Websock → Websock}
    → Emits bs f
    → (ws : Websock) → CanSend ws
    → IsOpen ws
    → (out : Websock) × (some (f ws) ≡ some out) × Sends bs ws out
emitted {f} p ws c o = (f ws, refl, p ws c o)

-- Every message, sent from an open socket with an empty send queue that its text fits, is put on the
-- channel byte for byte in the layout of the protocol, with each field in the bits that it has there and
-- the largest value of a colour by a shift of 32-bit numbers, and leaves the send queue empty.
pub send-Sends :
    (m : ClientMessage) (ws : Websock)
    → CanSend ws
    → IsOpen ws
    → ws.s_qlen ≡ 0
    → Fits ws.s_qbuffer_size m
    → (out : Websock) × (send m ws ≡ some out) × Sends (wire m) ws out
unfolding send
send-Sends (key k d) ws c o z fits = emitted (key_event_lem k d) ws c o
send-Sends (qemu_key k d code) ws c o z fits = emitted (qemu_lem k d code) ws c o
send-Sends (pointer x y mask) ws c o z fits = emitted (pointer_event_lem x y mask) ws c o
send-Sends (cut_text text extended) ws c o z fits =
    unfold Messages.client_cut_text in
    behind_header text (cut_text_header_lem (length text) extended) ws c o z fits
send-Sends (desktop_size w h id flags) ws c o z fits =
    emitted (set_desktop_size_lem w h id flags) ws c o
send-Sends (fence flags payload) ws c o z fits =
    unfold Messages.client_fence s_qpush_string in
    behind_header (to_bytes payload) (fence_header_lem flags (length payload)) ws c o z
      (rw (length-to_bytes payload) fits)
send-Sends (continuous_updates e x y w h) ws c o z fits =
    emitted (continuous_updates_lem e x y w h) ws c o
send-Sends (format depth true_color) ws c o z fits =
    emitted (pixel_format_lem depth true_color) ws c o
send-Sends (encodings es) ws c o z fits = emitted (client_encodings_lem es) ws c o
send-Sends (update_request i x y w h) ws c o z fits = emitted (update_request_lem i x y w h) ws c o
send-Sends (xvp ver op) ws c o z fits = emitted (xvp_lem ver op) ws c o
