-- ===== src/Incoming/Clipboard/Text.antt =====
-- What becomes of the line breaks and of the end of a text on its way through the extended clipboard.
use warpyard.Base.{
  ℕ, Bool, true, false, ◌&&◌, some, List, [], ◌∷◌, ◌++◌, ◌==◌, ==_iff, if◌then◌else◌, Bool-cases,
  ◌<◌, length, ◌≢◌, arith, inl, inr, ◌≡◌, refl, ap, ◌∙◌,
}
use mathlib.Core.Option
use warpyard.Utf8.{encode_utf8, decode_utf8}
use warpyard.Utf8.RoundTrip.{decode_utf8-encode_utf8}
use warpyard.Messages.Clipboard.{to_crlf}
use warpyard.Incoming.Clipboard.{to_lf, strip_nul, received}

-- A text in which each line break, a "\r\n", a "\r" or a "\n", is a "\n"; behind a "\r" or not.
unfoldable pub unix_lines : Bool → List ℕ → List ℕ
unix_lines behind [] = []
unix_lines behind (c ∷ text) =
    let rest = unix_lines (c == 13) text in
    if c == 13 then 10 ∷ rest else if c == 10 && behind then rest else c ∷ rest

to_lf-crlf : (text : List ℕ) → to_lf (13 ∷ 10 ∷ text) ≡ 10 ∷ to_lf text
unfolding to_lf
to_lf-crlf text = refl

to_lf-plain : (c : ℕ) (text : List ℕ) → (c == 13) ≡ false → to_lf (c ∷ text) ≡ c ∷ to_lf text
unfolding to_lf
to_lf-plain c text e = rw e refl

-- A "\n", behind a "\r" or not.
line_feed :
    (behind : Bool) (c : ℕ) (text : List ℕ)
    → c ≡ 10
    → to_lf (to_crlf false text) ≡ unix_lines false text
    → to_lf ((if behind then [] else 13 ∷ 10 ∷ []) ++ to_crlf false text)
      ≡ (if behind then unix_lines false text else c ∷ unix_lines false text)
line_feed true c text e same = same
line_feed false c text e same = rw e (to_lf-crlf (to_crlf false text) ∙ ap (λ l. 10 ∷ l) same)

pub to_lf-to_crlf :
    (behind : Bool) (text : List ℕ) → to_lf (to_crlf behind text) ≡ unix_lines behind text
unfolding to_crlf unix_lines
to_lf-to_crlf behind [] = unfold to_lf in refl
to_lf-to_crlf behind (c ∷ text) = elim (Bool-cases (c == 13)) [
  | inl cr ↦ rw cr (to_lf-crlf (to_crlf true text) ∙ ap (λ l. 10 ∷ l) (to_lf-to_crlf true text))
  | inr other ↦ elim (Bool-cases (c == 10)) [
    | inl lf ↦
        rw (other, lf) (line_feed behind c text ((==_iff c 10).0 lf) (to_lf-to_crlf false text))
    | inr plain ↦
        rw (other, plain)
          (to_lf-plain c (to_crlf false text) other ∙ ap (λ l. c ∷ l) (to_lf-to_crlf false text))
  ]
]

strip_nul-nul : (text : List ℕ) → strip_nul (text ++ 0 ∷ []) ≡ text
unfolding strip_nul
strip_nul-nul [] = refl
strip_nul-nul (c ∷ []) = refl
strip_nul-nul (c ∷ d ∷ text) = ap (λ l. c ∷ l) (strip_nul-nul (d ∷ text))

-- The text that a server gets which decodes what was provided.
pub received_lem :
    (text bytes : List ℕ)
    → encode_utf8 (to_crlf false text ++ 0 ∷ []) ≡ some bytes
    → received bytes ≡ some (unix_lines false text)
unfolding received
received_lem text bytes e =
    ap (Option.map (λ l. to_lf (strip_nul l)))
      (decode_utf8-encode_utf8 (to_crlf false text ++ 0 ∷ []) bytes false e)
    ∙ ap (λ l. some (to_lf l)) (strip_nul-nul (to_crlf false text))
    ∙ ap some (to_lf-to_crlf false text)

-- What is provided ends in a "\0", so there are bytes of it.
pub nul_first-some :
    (text bytes : List ℕ) → encode_utf8 (text ++ 0 ∷ []) ≡ some bytes → 0 < length bytes
nul_first-some text [] e = absurd (no_text text decoded)
  where
    decoded : some [] ≡ some (text ++ 0 ∷ [])
    decoded = unfold decode_utf8 in decode_utf8-encode_utf8 (text ++ 0 ∷ []) [] false e

    no_text : (l : List ℕ) → (some [] ≢ some (l ++ 0 ∷ []))
    no_text [] h = cc h
    no_text (c ∷ l) h = cc h
nul_first-some text (b ∷ bytes) e = omega arith
