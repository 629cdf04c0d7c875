-- ===== src/Messages/Clipboard.antt =====
-- The extended clipboard in `RFB.messages` of rfb.js. `deflate` is what a new Deflator makes of its data.
use warpyard.Base.{
  ℕ, ◌/◌, ◌%◌, ◌^◌, bit_or, Bool, true, false, not, Option, none, some, List, [], ◌∷◌, ◌++◌, length,
  ◌==◌, if◌then◌else◌,
}
use mathlib.Core.Option
use warpyard.Utf8.{encode_utf8}
use warpyard.Websock.{Websock}
use warpyard.Messages.{client_cut_text}

abbrev pub or_all : List ℕ → ℕ → ℕ
or_all [] acc = acc
or_all (a ∷ rest) acc = or_all rest (bit_or acc a)

-- `_buildExtendedClipboardFlags`: the flags of actions above, those of formats below.
unfoldable pub build_extended_clipboard_flags : List ℕ → List ℕ → List ℕ
build_extended_clipboard_flags actions formats =
    let format_flag = or_all formats 0 in
    let action_flag = or_all actions 0 in
    action_flag / 2 ^ 24 % 2 ^ 8 ∷ 0 ∷ 0 ∷ format_flag % 2 ^ 8 ∷ []

abbrev pub extended_clipboard_format_text : ℕ
extended_clipboard_format_text = 1

abbrev pub extended_clipboard_action_request : ℕ
extended_clipboard_action_request = 2 ^ 25

abbrev pub extended_clipboard_action_notify : ℕ
extended_clipboard_action_notify = 2 ^ 27

unfoldable pub extended_clipboard_notify : List ℕ → Websock → Option Websock
unfolding client_cut_text build_extended_clipboard_flags
extended_clipboard_notify formats =
    client_cut_text (build_extended_clipboard_flags (extended_clipboard_action_notify ∷ []) formats)
      true

unfoldable pub extended_clipboard_request : List ℕ → Websock → Option Websock
unfolding client_cut_text build_extended_clipboard_flags
extended_clipboard_request formats =
    client_cut_text
      (build_extended_clipboard_flags (extended_clipboard_action_request ∷ []) formats) true

abbrev pub extended_clipboard_action_provide : ℕ
extended_clipboard_action_provide = 2 ^ 28

-- The formats of `extendedClipboardCaps` in the order of their keys, each as the number of bits that its
-- key shifts by and the size.
abbrev pub Formats : Type 0
Formats = List (ℕ × ℕ)

abbrev pub format_flags : Formats → ℕ → ℕ
format_flags [] acc = acc
format_flags ((bit, size) ∷ formats) acc = format_flags formats (bit_or acc (2 ^ bit) % 2 ^ 8)

abbrev pub format_sizes : Formats → List ℕ
format_sizes [] = []
format_sizes ((bit, size) ∷ formats) =
    size / 2 ^ 24 % 2 ^ 8
    ∷ size / 2 ^ 16 % 2 ^ 8
    ∷ size / 2 ^ 8 % 2 ^ 8
    ∷ size % 2 ^ 8
    ∷ format_sizes formats

unfoldable pub caps_data : (actions : List ℕ) → Formats → List ℕ
caps_data actions formats =
    or_all actions 0 / 2 ^ 24 % 2 ^ 8 ∷ 0 ∷ 0 ∷ format_flags formats 0 ∷ format_sizes formats

unfoldable pub extended_clipboard_caps : List ℕ → Formats → Websock → Option Websock
unfolding client_cut_text caps_data
extended_clipboard_caps actions formats = client_cut_text (caps_data actions formats) true

-- "Change lone \r or \n into \r\n": `replace(/\r\n|\r|\n/gm, "\r\n")`, behind a \r or not.
unfoldable pub to_crlf : Bool → List ℕ → List ℕ
to_crlf behind [] = []
to_crlf behind (c ∷ text) =
    (if c == 13
      then 13 ∷ 10 ∷ []
      else if not (c == 10)
      then c ∷ []
      else if behind
      then []
      else 13 ∷ 10 ∷ [])
    ++ to_crlf (c == 13) text

-- What is deflated for a text: its size and its bytes. `none` is the error of `encodeUTF8`.
unfoldable pub provided : List ℕ → Option (List ℕ)
unfolding to_crlf
provided text =
    Option.map
      (λ bytes.
        length bytes / 2 ^ 24 % 2 ^ 8
        ∷ length bytes / 2 ^ 16 % 2 ^ 8
        ∷ length bytes / 2 ^ 8 % 2 ^ 8
        ∷ length bytes % 2 ^ 8
        ∷ bytes)
      (encode_utf8 (to_crlf false text ++ 0 ∷ []))

-- What is deflated for all the texts: only the format text has one, and no text may be missing.
unfoldable pub data_to_deflate : (formats : List ℕ) → List (List ℕ) → Option (List ℕ)
unfolding provided
data_to_deflate [] texts = some []
data_to_deflate (format ∷ formats) [] = none
data_to_deflate (format ∷ formats) (text ∷ texts) =
    let rest = data_to_deflate formats texts in
    if format == extended_clipboard_format_text
    then elim (provided text) [ none ↦ none | some bytes ↦ Option.map (λ l. bytes ++ l) rest ]
    else none

-- The data of `extendedClipboardProvide`. `none` is an error that is thrown.
unfoldable pub provide_data :
    (List ℕ → Option (List ℕ)) → (formats : List ℕ) → List (List ℕ) → Option (List ℕ)
unfolding data_to_deflate build_extended_clipboard_flags
provide_data deflate formats texts = elim (data_to_deflate formats texts) [
  | none ↦ none
  | some plain ↦
      Option.map
        (λ l. build_extended_clipboard_flags (extended_clipboard_action_provide ∷ []) formats ++ l)
        (deflate plain)
]

unfoldable pub extended_clipboard_provide :
    (List ℕ → Option (List ℕ)) → List ℕ → List (List ℕ) → Websock → Option Websock
unfolding client_cut_text provide_data
extended_clipboard_provide deflate formats texts sock = elim (provide_data deflate formats texts) [
  | none ↦ none
  | some bytes ↦ client_cut_text bytes true sock
]
