-- ===== src/Messages/Unparse.antt =====
-- The parser of the protocol on the layout of each message of rfb.js.
use warpyard.Base.{
  ℕ, ◌-◌, ◌/◌, ◌%◌, ◌^◌, Bool, true, false, none, some, List, [], ◌∷◌, ◌++◌, ◌≡◌, refl, ap₂, arith,
  length, length-append, All, ltb, leb, take-append, drop-append,
}
use warpyard.Websock.SendQueue.{to_bytes}
use warpyard.Messages.Wire.{
  ClientMessage, key, qemu_key, pointer, cut_text, desktop_size, fence, continuous_updates, format,
  encodings, update_request, xvp, wire, rfb_keycode, encodings_bytes, cut_text_length,
}
use warpyard.Messages.Parse.{
  InRange, Is16, Is32, IsByte, be16, be32, cut_text_body, fence_body, parse,
  parse_continuous_updates, parse_cut_text, parse_desktop_size, parse_encodings, parse_fence,
  parse_format, parse_key, parse_list, parse_pointer, parse_qemu, parse_update_request, parse_xvp,
  received,
}

parse_list_lem :
    (es rest : List ℕ)
    → All Is32 es
    → parse_list (length es) (encodings_bytes es ++ rest) ≡ some (es, rest)
unfolding parse_list
parse_list_lem [] rest h = refl
parse_list_lem (e ∷ es) rest h = rw (parse_list_lem es rest h.1) (ground (arith, h.0))

to_bytes_lem : (cs : List ℕ) → All IsByte cs → to_bytes cs ≡ cs
to_bytes_lem [] h = refl
to_bytes_lem (c ∷ cs) h = ap₂ ◌∷◌ (omega (arith, h.0)) (to_bytes_lem cs h.1)

be32_bytes :
    (n : ℕ) → Is32 n → be32 (n / 2 ^ 24 % 256) (n / 2 ^ 16 % 256) (n / 2 ^ 8 % 256) (n % 256) ≡ n
be32_bytes n h = omega arith

be16_bytes : (n : ℕ) → Is16 n → be16 (n / 2 ^ 8 % 256) (n % 256) ≡ n
be16_bytes n h = omega arith

cut_text_body_lem :
    (text rest : List ℕ) (extended : Bool)
    → cut_text_body (length text) extended (text ++ rest) ≡ some (cut_text text extended, rest)
unfolding cut_text_body
cut_text_body_lem text rest extended =
    let enough : leb (length text) (length (text ++ rest)) ≡ true =
      ground (arith, length-append text rest) in
    rw (enough, take-append text rest, drop-append text rest)

fence_body_lem :
    (flags : ℕ) (payload rest : List ℕ)
    → fence_body flags (length payload) (payload ++ rest) ≡ some (fence flags payload, rest)
unfolding fence_body
fence_body_lem flags payload rest =
    let enough : leb (length payload) (length (payload ++ rest)) ≡ true =
      ground (arith, length-append payload rest) in
    rw (enough, take-append payload rest, drop-append payload rest)

rfb_keycode-lt : (keycode : ℕ) → Is16 keycode → Is32 (rfb_keycode keycode)
rfb_keycode-lt keycode h = ground (arith, h)

-- Whatever follows, the parser takes the message that was sent off the front.
pub parse-wire :
    (m : ClientMessage) (rest : List ℕ)
    → InRange m
    → parse (wire m ++ rest) ≡ some (received m, rest)
unfolding parse
parse-wire (key k d) rest h = unfold parse_key in ground (arith, h)
parse-wire (qemu_key k d c) rest h = unfold parse_qemu in ground (arith, h, rfb_keycode-lt c)
parse-wire (pointer x y mask) rest h = unfold parse_pointer in ground (arith, h)
parse-wire (cut_text text false) rest h =
    unfold parse_cut_text in
    let small : ltb (length text) (2 ^ 31) ≡ true = ground (arith, h) in
    rw (be32_bytes (length text) (omega (arith, h)), small) (cut_text_body_lem text rest false)
parse-wire (cut_text text true) rest h =
    unfold parse_cut_text in
    let n : ℕ = cut_text_length (length text) true in
    let big : ltb n (2 ^ 31) ≡ false = ground (arith, h) in
    let back : 2 ^ 32 - n ≡ length text = omega (arith, h) in
    rw (be32_bytes n (omega arith), big, back) (cut_text_body_lem text rest true)
parse-wire (desktop_size w x id flags) rest h = unfold parse_desktop_size in ground (arith, h)
parse-wire (fence flags payload) rest h =
    unfold parse_fence in
    let len : length payload % 256 ≡ length payload = omega (arith, h) in
    rw (be32_bytes flags h.0, len, to_bytes_lem payload h.2) (fence_body_lem flags payload rest)
parse-wire (continuous_updates e x y w z) rest h =
    unfold parse_continuous_updates in ground (arith, h)
parse-wire (format depth true) rest h = unfold parse_format in ground (arith, h)
parse-wire (format depth false) rest h = unfold parse_format in ground (arith, h)
parse-wire (encodings es) rest h =
    unfold parse_encodings in rw (be16_bytes (length es) h.0, parse_list_lem es rest h.1)
parse-wire (update_request true x y w z) rest h = unfold parse_update_request in ground (arith, h)
parse-wire (update_request false x y w z) rest h = unfold parse_update_request in ground (arith, h)
parse-wire (xvp ver op) rest h = unfold parse_xvp in ground (arith, h)

pub parse-nil : parse [] ≡ none
unfolding parse
parse-nil = refl
