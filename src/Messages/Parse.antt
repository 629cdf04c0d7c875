-- ===== src/Messages/Parse.antt =====
-- The server's side: a parser of the client messages of the RFB protocol, written from the layout of
-- each message, and what it makes of the bytes that the client sends.
use warpyard.Base.{
  ℕ, zero, suc, ◌+◌, ◌-◌, ◌*◌, ◌^◌, ◌<◌, Bool, true, false, not, Option, none, some, List, [], ◌∷◌,
  length, if◌then◌else◌, take, drop, All, ltb, leb, ◌==◌,
}
use mathlib.Core.Option
use warpyard.Messages.Wire.{
  ClientMessage, key, qemu_key, pointer, cut_text, desktop_size, fence, continuous_updates, format,
  encodings, update_request, xvp, rfb_keycode,
}

abbrev Parser : Type 0
Parser = List ℕ → Option (ClientMessage × List ℕ)

abbrev pub be16 : ℕ → ℕ → ℕ
be16 a b = a * 256 + b

abbrev pub be32 : ℕ → ℕ → ℕ → ℕ → ℕ
be32 a b c d = ((a * 256 + b) * 256 + c) * 256 + d

-- Behind each message type, the rest of its layout.
unfoldable pub parse_key : Parser
parse_key (down ∷ _ ∷ _ ∷ k3 ∷ k2 ∷ k1 ∷ k0 ∷ rest) = some (key (be32 k3 k2 k1 k0) down, rest)
parse_key _ = none

unfoldable pub parse_qemu : Parser
parse_qemu (_ ∷ d1 ∷ d0 ∷ k3 ∷ k2 ∷ k1 ∷ k0 ∷ c3 ∷ c2 ∷ c1 ∷ c0 ∷ rest) =
    some (qemu_key (be32 k3 k2 k1 k0) (be16 d1 d0) (be32 c3 c2 c1 c0), rest)
parse_qemu _ = none

unfoldable pub parse_pointer : Parser
parse_pointer (mask ∷ x1 ∷ x0 ∷ y1 ∷ y0 ∷ rest) =
    some (pointer (be16 x1 x0) (be16 y1 y0) mask, rest)
parse_pointer _ = none

-- A text of `len` bytes; a negative length marks an extended message.
unfoldable pub cut_text_body : ℕ → Bool → Parser
cut_text_body len extended q =
    if leb len (length q) then some (cut_text (take len q) extended, drop len q) else none

unfoldable pub parse_cut_text : Parser
unfolding cut_text_body
parse_cut_text (_ ∷ _ ∷ _ ∷ l3 ∷ l2 ∷ l1 ∷ l0 ∷ q) =
    let len = be32 l3 l2 l1 l0 in
    if ltb len (2 ^ 31) then cut_text_body len false q else cut_text_body (2 ^ 32 - len) true q
parse_cut_text _ = none

unfoldable pub parse_desktop_size : Parser
parse_desktop_size
      (_ ∷ w1 ∷ w0 ∷ h1 ∷ h0 ∷ _ ∷ _ ∷ i3 ∷ i2 ∷ i1 ∷ i0 ∷ _ ∷ _ ∷ _ ∷ _ ∷ _ ∷ _ ∷ _ ∷ _ ∷ f3 ∷ f2
        ∷ f1 ∷ f0 ∷ rest) =
    some (desktop_size (be16 w1 w0) (be16 h1 h0) (be32 i3 i2 i1 i0) (be32 f3 f2 f1 f0), rest)
parse_desktop_size _ = none

unfoldable pub fence_body : ℕ → ℕ → Parser
fence_body flags len q =
    if leb len (length q) then some (fence flags (take len q), drop len q) else none

unfoldable pub parse_fence : Parser
unfolding fence_body
parse_fence (_ ∷ _ ∷ _ ∷ f3 ∷ f2 ∷ f1 ∷ f0 ∷ len ∷ q) = fence_body (be32 f3 f2 f1 f0) len q
parse_fence _ = none

unfoldable pub parse_continuous_updates : Parser
parse_continuous_updates (e ∷ x1 ∷ x0 ∷ y1 ∷ y0 ∷ w1 ∷ w0 ∷ h1 ∷ h0 ∷ rest) =
    some (continuous_updates e (be16 x1 x0) (be16 y1 y0) (be16 w1 w0) (be16 h1 h0), rest)
parse_continuous_updates _ = none

-- Depth and kind of colour; the other fields follow from these.
unfoldable pub parse_format : Parser
parse_format
      (_ ∷ _ ∷ _ ∷ _ ∷ depth ∷ _ ∷ colour ∷ _ ∷ _ ∷ _ ∷ _ ∷ _ ∷ _ ∷ _ ∷ _ ∷ _ ∷ _ ∷ _ ∷ _ ∷ rest) =
    some (format depth (not (colour == 0)), rest)
parse_format _ = none

unfoldable pub parse_list : ℕ → List ℕ → Option (List ℕ × List ℕ)
parse_list zero q = some ([], q)
parse_list (suc n) (e3 ∷ e2 ∷ e1 ∷ e0 ∷ q) =
    Option.map (λ r. (be32 e3 e2 e1 e0 ∷ r.0, r.1)) (parse_list n q)
parse_list (suc n) _ = none

unfoldable pub parse_encodings : Parser
unfolding parse_list
parse_encodings (_ ∷ n1 ∷ n0 ∷ q) =
    Option.map (λ r. (encodings r.0, r.1)) (parse_list (be16 n1 n0) q)
parse_encodings _ = none

unfoldable pub parse_update_request : Parser
parse_update_request (i ∷ x1 ∷ x0 ∷ y1 ∷ y0 ∷ w1 ∷ w0 ∷ h1 ∷ h0 ∷ rest) =
    some (update_request (not (i == 0)) (be16 x1 x0) (be16 y1 y0) (be16 w1 w0) (be16 h1 h0), rest)
parse_update_request _ = none

unfoldable pub parse_xvp : Parser
parse_xvp (_ ∷ ver ∷ op ∷ rest) = some (xvp ver op, rest)
parse_xvp _ = none

by_type : ℕ → Parser
by_type t q =
    if t == 0
    then parse_format q
    else if t == 2
    then parse_encodings q
    else if t == 3
    then parse_update_request q
    else if t == 4
    then parse_key q
    else if t == 5
    then parse_pointer q
    else if t == 6
    then parse_cut_text q
    else if t == 150
    then parse_continuous_updates q
    else if t == 248
    then parse_fence q
    else if t == 250
    then parse_xvp q
    else if t == 251
    then parse_desktop_size q
    else if t == 255
    then parse_qemu q
    else none

-- One message, and what follows it.
unfoldable pub parse : Parser
unfolding by_type
parse [] = none
parse (t ∷ q) = by_type t q

-- What the server is told: a scan code stands for its RFB key code.
abbrev pub received : ClientMessage → ClientMessage
received (qemu_key keysym down keycode) = qemu_key keysym down (rfb_keycode keycode)
received m = m

abbrev pub IsByte : ℕ → Type 0
IsByte n = n < 2 ^ 8

abbrev pub Is16 : ℕ → Type 0
Is16 n = n < 2 ^ 16

abbrev pub Is32 : ℕ → Type 0
Is32 n = n < 2 ^ 32

-- Every field is a number of the width that it is sent with.
abbrev pub InRange : ClientMessage → Type 0
InRange (key keysym down) = Is32 keysym × IsByte down
InRange (qemu_key keysym down keycode) = Is32 keysym × Is16 down × Is16 keycode
InRange (pointer x y mask) = Is16 x × Is16 y × IsByte mask
InRange (cut_text text extended) =
    (length text < 2 ^ 31) × (if extended then 0 < length text else Unit {0})
InRange (desktop_size width height id flags) = Is16 width × Is16 height × Is32 id × Is32 flags
InRange (fence flags payload) = Is32 flags × (length payload < 256) × All IsByte payload
InRange (continuous_updates e x y w h) = IsByte e × Is16 x × Is16 y × Is16 w × Is16 h
InRange (format depth true_color) = IsByte depth
InRange (encodings es) = Is16 (length es) × All Is32 es
InRange (update_request i x y w h) = Is16 x × Is16 y × Is16 w × Is16 h
InRange (xvp ver op) = IsByte ver × IsByte op
