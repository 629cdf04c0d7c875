-- ===== src/Incoming/Clipboard/RoundTrip.antt =====
-- From `extendedClipboardProvide` to `_handleServerCutText` of rfb.js.
use warpyard.Base.{
  ℕ, ◌+◌, ◌-◌, ◌/◌, ◌%◌, ◌^◌, ◌≤◌, ◌<◌, Bool, true, false, not, ◌||◌, Option, none, some, List, [],
  ◌∷◌, ◌++◌, length, length-append, append-nil, take-append, take, drop, ltb, leb, if◌then◌else◌,
  ◌≡◌, refl, ap, ◌∙◌, arith,
}
use mathlib.Core.Option
use warpyard.Stream.{Stream, big_endian}
use warpyard.Utf8.{encode_utf8}
use warpyard.Inflator.{Pako, Decompresses, set_input, new}
use warpyard.Deflator.{Deflating, Compresses, chunk_size, deflated, deflated-Holds}
use warpyard.Messages.Clipboard.{
  to_crlf, provided, data_to_deflate, provide_data, build_extended_clipboard_flags,
}
use warpyard.Messages.Wire.{wire, cut_text}
use warpyard.Stream.Handler.{Handler, got, ◌>>=◌, ◌>>◌, give, rq_wait, read32, read_bytes, skip}
use warpyard.Stream.Handler.Resumes.{>>=-got, rq_wait-got, skip-got, read-got, read_bytes-got}
use warpyard.Incoming.{Client, Done, done, copies}
use warpyard.Incoming.Clipboard.Inflated.{chunk_of, from_start}
use warpyard.Incoming.Clipboard.Text.{unix_lines, received_lem, nul_first-some}
use warpyard.Incoming.Clipboard.{
  inflate_chunks, handle_server_cut_text, handle_extended, handle_flags, handle_action, received,
  announced, copied, put_back, has_bit, abs_length,
}

module _ {D Z : Type 0} (pako : Pako Z) (deflate : List ℕ → Option (List ℕ)) (c : Client D) where
  -- What follows the length of a message.
  abbrev standard : ℕ → Handler (Done D)
  standard len = do
    text ← read_bytes len
    give (done c (if c.view_only then [] else copies text ∷ []))

  abbrev by_kind : Bool → (abs len : ℕ) → Handler (Done D)
  by_kind b abs len = if b then handle_extended pako deflate abs c else standard len

  abbrev content : ℕ → Handler (Done D)
  content len = rq_wait (abs_length len) 8 >> by_kind (leb (2 ^ 31) len) (abs_length len) len

  -- The header of an extended message, with so many bytes.
  extended_header :
      (q : Stream) (len : ℕ)
      → big_endian (take 4 (drop 4 q)) ≡ 2 ^ 32 - len
      → 1 ≤ len
      → len ≤ 2 ^ 31
      → 8 + len ≤ length q
      → handle_server_cut_text pako deflate c q 1 ≡ handle_extended pako deflate len c q 8
  unfolding handle_server_cut_text
  extended_header q len header positive small there =
      let minus = 2 ^ 32 - len in
      let extended : leb (2 ^ 31) minus ≡ true = ground arith in
      let negated : abs_length minus ≡ len = ground arith in
      >>=-got (rq_wait 7 1) (λ _. skip 3 >> (read32 >>= content))
        (rq_wait-got 7 1 1 q (omega arith))
      ∙ >>=-got (skip 3) (λ _. read32 >>= content) (skip-got 3 1 q (omega arith))
      ∙ >>=-got read32 content (read-got 4 4 q (omega arith) ∙ ap (λ v. got v 8) header)
      ∙ ap (λ abs. (rq_wait abs 8 >> by_kind (leb (2 ^ 31) minus) abs minus) q 8) negated
      ∙ >>=-got (rq_wait len 8) (λ _. by_kind (leb (2 ^ 31) minus) len minus)
          (rq_wait-got len 8 8 q there)
      ∙ ap (λ b. by_kind b len minus q 8) extended

  -- Its flags, for what is provided of the format text.
  provide_flags :
      (q : Stream) (len : ℕ)
      → big_endian (take 4 (drop 8 q)) ≡ 2 ^ 28 + 1
      → 12 ≤ length q
      → handle_extended pako deflate len c q 8 ≡ handle_action pako deflate len 16 1 c q 12
  unfolding handle_extended handle_flags
  provide_flags q len flags there =
      >>=-got read32 (λ f. handle_flags pako deflate len (f % 2 ^ 16) (f / 2 ^ 24) c)
        (read-got 4 8 q there ∙ ap (λ v. got v 12) flags)

  abbrev emptied : Client D
  emptied = record c { clipboard_text = none }

  abbrev inflated : List ℕ → Handler (Done D)
  inflated z =
      copied pako deflate emptied (inflate_chunks pako 16 1 none (set_input (some z) (new pako)))

  abbrev provision : (idle few : Bool) → ℕ → Handler (Done D)
  provision idle few n =
      if idle then give (done c []) else if few then put_back else (read_bytes n >>= inflated)

  -- The text.
  text_provided :
      (q : Stream) (z bytes text : List ℕ)
      → c.view_only ≡ false
      → take (length z) (drop 12 q) ≡ z
      → 12 + length z ≤ length q
      → inflate_chunks pako 16 1 none (set_input (some z) (new pako)) ≡ some (some bytes)
      → received bytes ≡ some text
      → handle_action pako deflate (4 + length z) 16 1 c q 12
        ≡ got (done (record c { clipboard_text = none }) (copies text ∷ [])) (12 + length z)
  unfolding handle_action
  text_provided q z bytes text active all there chunks text_of =
      let few : ltb (4 + length z) 4 ≡ false = ground arith in
      let idle : c.view_only || not (has_bit 1 0) ≡ false = rw active refl in
      let taken : 4 + length z - 4 ≡ length z = omega arith in
      ap (λ b. provision b (ltb (4 + length z) 4) (4 + length z - 4) q 12) idle
      ∙ ap (λ b. provision false b (4 + length z - 4) q 12) few
      ∙ ap (λ n. provision false false n q 12) taken
      ∙ >>=-got (read_bytes (length z)) inflated
          (read_bytes-got (length z) 12 q there ∙ ap (λ l. got l (12 + length z)) all)
      ∙ ap (λ o. copied pako deflate emptied o q (12 + length z)) chunks
      ∙ ap (λ o. announced pako deflate emptied o q (12 + length z)) text_of

plain_lem :
    (text bytes : List ℕ)
    → encode_utf8 (to_crlf false text ++ 0 ∷ []) ≡ some bytes
    → data_to_deflate (1 ∷ []) (text ∷ []) ≡ some (chunk_of bytes)
unfolding data_to_deflate provided
plain_lem text bytes e = rw e (ap (λ l. some l) (append-nil (chunk_of bytes)))

provide_data-some :
    (deflate : List ℕ → Option (List ℕ)) (formats : List ℕ) (texts : List (List ℕ))
    (plain z : List ℕ)
    → data_to_deflate formats texts ≡ some plain
    → deflate plain ≡ some z
    → provide_data deflate formats texts
      ≡ some (build_extended_clipboard_flags (2 ^ 28 ∷ []) formats ++ z)
unfolding provide_data
provide_data-some deflate formats texts plain z e e' =
    deflate_then (data_to_deflate formats texts) e
  where
    flags : List ℕ
    flags = build_extended_clipboard_flags (2 ^ 28 ∷ []) formats

    deflate_then :
        (o : Option (List ℕ))
        → o ≡ some plain
        → elim o as (λ _. Option (List ℕ)) [
          | none ↦ none
          | some p ↦ Option.map (λ l. flags ++ l) (deflate p)
        ]
          ≡ some (flags ++ z)
    deflate_then none h = absurd (cc h)
    deflate_then (some p) h =
        let same : p ≡ plain = cc h in ap (Option.map (λ l. flags ++ l)) (ap deflate same ∙ e')

text_flags : build_extended_clipboard_flags (2 ^ 28 ∷ []) (1 ∷ []) ≡ 16 ∷ 0 ∷ 0 ∷ 1 ∷ []
unfolding build_extended_clipboard_flags
text_flags = refl

module _ {D Y Z : Type 0} (deflating : Deflating Y) (pako : Pako Z) {Live : Y → Type 0}
    {to_come : Y → List ℕ → ℕ} {Holds : Z → List ℕ → List ℕ → Type 0}
    (compresses : Compresses deflating Live to_come (Holds pako.start))
    (decompresses : Decompresses pako Holds) where
  -- A text that can be encoded, in less than 2^31 bytes, and whose compressed form leaves room in the first
  -- buffer of the Deflator, is provided; and a client that is not view-only and gets the message which
  -- `extendedClipboardProvide` makes of it, from a server, whatever follows, takes exactly that message and
  -- copies the text, with each "\r\n" and each lone "\r" or "\n" as a "\n", and forgets its own text. It is
  -- assumed of zlib that it inflates what it deflates, and, of its calls that have something to do and room
  -- to do it, what `Compresses` and `Decompresses` list.
  pub provide-received :
      (fuel : ℕ) (text bytes : List ℕ) (c : Client D) (more : Stream)
      → encode_utf8 (to_crlf false text ++ 0 ∷ []) ≡ some bytes
      → length bytes < 2 ^ 31
      → length (deflating.run deflating.start (chunk_of bytes) chunk_size).output < chunk_size
      → c.view_only ≡ false
      → (sent : List ℕ) × (provide_data (deflated deflating fuel) (1 ∷ []) (text ∷ []) ≡ some sent)
        × (handle_server_cut_text pako
              (deflated deflating fuel)
              c
              (3 ∷ drop 1 (wire (cut_text sent true)) ++ more)
              1
            ≡ got
                (done (record c { clipboard_text = none }) (copies (unix_lines false text) ∷ []))
                (8 + length sent))
  provide-received fuel text bytes c more e small room active =
      let z = (deflating.run deflating.start (chunk_of bytes) chunk_size).output in
      let deflate = deflated deflating fuel in
      let q = 3 ∷ drop 1 (wire (cut_text (16 ∷ 0 ∷ 0 ∷ 1 ∷ z) true)) ++ more in
      let (deflates, holds) =
        deflated-Holds deflating compresses fuel (chunk_of bytes) (omega arith) room in
      let there : 12 + length z ≤ length q = omega (arith, length-append z more) in
      (
        16 ∷ 0 ∷ 0 ∷ 1 ∷ z,
        provide_data-some deflate (1 ∷ []) (text ∷ []) (chunk_of bytes) z (plain_lem text bytes e)
              deflates
            ∙ ap (λ l. some (l ++ z)) text_flags,
        extended_header pako deflate c q (4 + length z) (omega arith) (omega arith) (omega arith)
              (omega arith)
            ∙ provide_flags pako deflate c q (4 + length z) refl (omega arith)
            ∙ text_provided pako deflate c q z bytes (unix_lines false text) active
                (take-append z more) there
                (from_start pako decompresses z bytes holds
                  (nul_first-some (to_crlf false text) bytes e) small)
                (received_lem text bytes e)
            ∙ ap
                (got
                  (done (record c { clipboard_text = none }) (copies (unix_lines false text) ∷ [])))
                (omega arith),
      )
