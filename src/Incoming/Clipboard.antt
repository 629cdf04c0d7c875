-- ===== src/Incoming/Clipboard.antt =====
-- `_handleServerCutText` of rfb.js, with the extended clipboard. `deflate` is what a new Deflator makes of
-- its data (Deflator, `deflated`), and `pako` is the library below inflator.js.
pub mod Text
pub mod Inflated
pub mod RoundTrip
mod Tests
use warpyard.Base.{
  ℕ, zero, suc, ◌+◌, ◌-◌, ◌/◌, ◌%◌, ◌^◌, Bool, true, false, not, ◌&&◌, ◌||◌, Option, none, some,
  List, [], ◌∷◌, ◌++◌, map, length, ltb, leb, ◌==◌, if◌then◌else◌,
}
use mathlib.Core.Option
use warpyard.Stream.{big_endian}
use warpyard.Stream.Handler.{
  fault, got, Handler, ◌>>=◌, ◌>>◌, give, rq_wait, read32, read_bytes, skip,
}
use warpyard.Messages.Clipboard.{build_extended_clipboard_flags, caps_data, provide_data}
use warpyard.Messages.Wire.{cut_text}
use warpyard.Utf8.{encode_utf8, decode_utf8}
use warpyard.Inflator.{Pako, Inflate, new, set_input, inflate}
use warpyard.Incoming.{Effect, sends, copies, Client, Done, done, fail}

-- The bit of an action, and of a format, in flags of 32 bits.
abbrev pub has_bit : ℕ → ℕ → Bool
has_bit flags bit = flags / 2 ^ bit % 2 == 1

abbrev pub caps_bit : ℕ
caps_bit = 0

abbrev pub request_bit : ℕ
request_bit = 1

abbrev pub peek_bit : ℕ
peek_bit = 2

abbrev pub notify_bit : ℕ
notify_bit = 3

abbrev pub provide_bit : ℕ
provide_bit = 4

-- `extendedClipboardNotify`, `extendedClipboardRequest` and others, with the bytes of the actions and formats.
abbrev pub extended : List ℕ → Effect
extended bytes = sends (cut_text bytes true)

abbrev pub flags_of : (bit : ℕ) → List ℕ → List ℕ
flags_of bit formats = build_extended_clipboard_flags (2 ^ (24 + bit) ∷ []) formats

-- `extendedClipboardCaps` with the actions of the client and the format text, of which it wants none
-- unasked. The key of the format is the name `extendedClipboardFormatText`, by which 1 is shifted by 0.
unfoldable pub caps_bytes : List ℕ
unfolding caps_data
caps_bytes =
    caps_data
      (map (λ bit. 2 ^ (24 + bit))
        (caps_bit ∷ request_bit ∷ peek_bit ∷ notify_bit ∷ provide_bit ∷ []))
      ((0, 0) ∷ [])

abbrev pub starts_with : ℕ → List ℕ → Bool
starts_with c [] = false
starts_with c (d ∷ text) = d == c

-- `replaceAll("\r\n", "\n")`
unfoldable pub to_lf : List ℕ → List ℕ
to_lf [] = []
to_lf (c ∷ text) = (if c == 13 && starts_with 10 text then [] else c ∷ []) ++ to_lf text

-- The end of a text without its "\0".
unfoldable pub strip_nul : List ℕ → List ℕ
strip_nul [] = []
strip_nul (c ∷ []) = if c == 0 then [] else c ∷ []
strip_nul (c ∷ d ∷ text) = c ∷ strip_nul (d ∷ text)

-- The text that a server sent.
unfoldable pub received : List ℕ → Option (List ℕ)
unfolding to_lf strip_nul
received bytes = Option.map (λ text. to_lf (strip_nul text)) (decode_utf8 bytes false)

-- The sizes of the formats that a server has, of those with so many bits to come.
unfoldable pub read_size : Bool → Handler ℕ
read_size true = read32
read_size false = give 0

unfoldable pub read_sizes : (left formats : ℕ) → Handler (Unit {0})
read_sizes zero formats = give tt
read_sizes (suc left) formats = do
  _ ← read_size (has_bit formats (16 - suc left))
  read_sizes left formats

-- A length of 2^31 or more is negative: its message is an extended one.
abbrev pub abs_length : ℕ → ℕ
abs_length len = if leb (2 ^ 31) len then 2 ^ 32 - len else len

-- A read of fewer than no bytes, which moves the index back.
abbrev pub put_back : {A : Type 0} → Handler A
put_back q i = fault

module _ {Z : Type 0} (pako : Pako Z) where
  -- A chunk: its size, then its bytes. A size of 2^31 or more is negative and no output has it.
  unfoldable pub inflate_chunk : Inflate Z → Option (List ℕ × Inflate Z)
  inflate_chunk s = elim (inflate pako 4 s) [
    | none ↦ none
    | some (size_array, s') ↦
        if leb (2 ^ 31) (big_endian size_array)
        then none
        else inflate pako (big_endian size_array) s'
  ]

  -- The chunks of the formats with so many bits to come; the text is the first.
  unfoldable pub inflate_chunks :
      (left formats : ℕ) → Option (List ℕ) → Inflate Z → Option (Option (List ℕ))
  unfolding inflate_chunk
  inflate_chunks zero formats text s = some text
  inflate_chunks (suc left) formats text s =
      let skipped = inflate_chunks left formats text s in
      let read = elim (inflate_chunk s) as (λ _. Option (Option (List ℕ))) [
        | none ↦ none
        | some (chunk, s') ↦
            inflate_chunks left formats (if suc left == 16 then some chunk else text) s'
      ] in
      if has_bit formats (16 - suc left) then read else skipped

module _ {D Z : Type 0} (pako : Pako Z) (deflate : List ℕ → Option (List ℕ)) where
  abbrev pub announced : Client D → Option (List ℕ) → Handler (Done D)
  announced c none = λ q i. fault
  announced c (some text) = give (done c (copies text ∷ []))

  -- The event for the page, if there is a text. `none` is an error that is thrown.
  abbrev pub copied : Client D → Option (Option (List ℕ)) → Handler (Done D)
  copied c none = λ q i. fault
  copied c (some none) = give (done c [])
  copied c (some (some bytes)) = announced c (received bytes)

  abbrev pub provide : Client D → Option (List ℕ) → Handler (Done D)
  provide c none q i = fault
  provide c (some bytes) q i = got (done c (extended bytes ∷ [])) i

  -- The answer to a request: the text, if there is one and the server can take it.
  abbrev pub answer_request : Client D → Bool → Option (List ℕ) → Handler (Done D)
  answer_request c wanted none = give (done c [])
  answer_request c wanted (some text) =
      if has_bit c.server_actions provide_bit && wanted
      then provide c (provide_data deflate (1 ∷ []) (text ∷ []))
      else give (done c [])

  -- The actions other than the one that tells the abilities, from the bits of actions and formats.
  unfoldable pub handle_action : (len actions formats : ℕ) → Client D → Handler (Done D)
  unfolding inflate_chunks received provide_data
  handle_action len actions formats c =
      let is_text = has_bit formats 0 in
      if actions == 2 ^ request_bit
      then if c.view_only then give (done c []) else answer_request c is_text c.clipboard_text
      else if actions == 2 ^ peek_bit
      then give (
          done c (
            if not c.view_only && has_bit c.server_actions notify_bit
            then extended
                (flags_of notify_bit (elim (c.clipboard_text) [ none ↦ [] | some _ ↦ 1 ∷ [] ]))
              ∷ []
            else []))
      else if actions == 2 ^ notify_bit
      then give (
          done c (
            if not c.view_only && (has_bit c.server_actions request_bit && is_text)
            then extended (flags_of request_bit (1 ∷ [])) ∷ []
            else []))
      else if actions == 2 ^ provide_bit
      then if c.view_only || not is_text
        then give (done c [])
        else if ltb len 4
        then put_back
        else (do
          zlib_stream ← read_bytes (len - 4)
          copied (record c { clipboard_text = none })
              (inflate_chunks pako 16 formats none (set_input (some zlib_stream) (new pako))))
      else give (fail c)

  unfoldable pub handle_flags : (len formats actions : ℕ) → Client D → Handler (Done D)
  unfolding handle_action read_sizes caps_bytes
  handle_flags len formats actions c =
      if has_bit actions caps_bit
      then (do
        read_sizes 16 formats
        give (
            done (record c { server_formats = formats; server_actions = actions })
              (extended caps_bytes ∷ [])))
      else handle_action len actions formats c

  unfoldable pub handle_extended : ℕ → Client D → Handler (Done D)
  unfolding handle_flags
  handle_extended len c = do flags ← read32; handle_flags len (flags % 2 ^ 16) (flags / 2 ^ 24) c

  unfoldable pub handle_server_cut_text : Client D → Handler (Done D)
  unfolding handle_extended
  handle_server_cut_text c = do
    rq_wait 7 1
    skip 3
    len ← read32
    rq_wait (abs_length len) 8
    if leb (2 ^ 31) len then handle_extended (abs_length len) c else (do
      text ← read_bytes len
      give (done c (if c.view_only then [] else copies text ∷ [])))
