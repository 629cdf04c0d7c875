-- ===== src/Incoming/Clipboard/Tests.antt =====
-- A run of the extended clipboard.
use warpyard.Base.{
  ℕ, ◌+◌, ◌<◌, true, false, some, List, [], ◌∷◌, ◌++◌, length, take, drop, length-take, length-drop,
  take_all, false, ◌==◌, ◌≡◌, refl, inl, inr, arith,
}
use native.Mathlib.Decide.{dec_le}
use warpyard.Utf8.{encode_utf8}
use warpyard.Stream.Handler.{got}
use warpyard.Inflator.{Pako, Decompresses}
use warpyard.Deflator.{Deflating, Compresses, deflated}
use warpyard.Messages.Wire.{wire, cut_text}
use warpyard.Messages.Clipboard.{to_crlf, provide_data}
use warpyard.Incoming.{done, copies}
use warpyard.Incoming.Clipboard.{handle_server_cut_text}
use warpyard.Incoming.Clipboard.Text.{unix_lines}
use warpyard.Incoming.Clipboard.RoundTrip.{provide-received}
use warpyard.Incoming.Tests.{connected}

-- A library that stores its input as it is. A call that makes no progress is an error.
abbrev storing : Deflating (Unit {0})
storing = record {
  start = tt;
  run = λ z input n. record {
    negative = length (take n input) == 0;
    output = take n input;
    rest = drop n input;
    state = z;
  };
}

abbrev storing_back : Pako (Unit {0})
storing_back = record {
  start = tt;
  run = λ z input n. record {
    negative = length (take n input) == 0;
    output = take n input;
    rest = drop n input;
    state = z;
  };
  again = λ z. z;
}

-- `input` is what `plain` is stored as.
abbrev Stores : Unit {0} → List ℕ → List ℕ → Type 0
Stores z input plain = input ≡ plain

some_progress :
    (n : ℕ) (input : List ℕ) → 0 < length input → 0 < n → (length (take n input) == 0) ≡ false
some_progress n input h room = ground (arith, length-take n input)

storing-Compresses : Compresses storing (λ z. Unit {0}) (λ z input. length input) (Stores tt)
storing-Compresses = record {
  starts = tt;
  lives = λ z input n live h room. tt;
  ok = λ z input n live h room. some_progress n input h (omega arith);
  stops = λ z input n live h room. elim (dec_le (length input) n) [
    | yes all ↦ inl (omega (arith, length-drop n input, all))
    | no more ↦ inr (omega (arith, length-take n input, more))
  ];
  bounded = λ z input n live h room. omega (arith, length-take n input, length-drop n input);
  flushed = λ input n some_data room h. take_all n input (omega (arith, length-take n input, h));
}

storing_back-Decompresses : Decompresses storing_back Stores
storing_back-Decompresses = record {
  ok = λ z input plain n h room le. some_progress n input (rw h (omega arith)) room;
  writes = λ z input plain n h room le. rw h refl;
  goes_on = λ z input plain n h room le. rw h refl;
}

-- "a\r\nb\nc\r" in the clipboard.
abbrev text : List ℕ
text = 97 ∷ 13 ∷ 10 ∷ 98 ∷ 10 ∷ 0x20ac ∷ 13 ∷ []

encoded_text :
    encode_utf8 (to_crlf false text ++ 0 ∷ [])
    ≡ some (97 ∷ 13 ∷ 10 ∷ 98 ∷ 13 ∷ 10 ∷ 0xe2 ∷ 0x82 ∷ 0xac ∷ 13 ∷ 10 ∷ 0 ∷ [])
unfolding to_crlf encode_utf8
encoded_text = refl

room :
    length {A = ℕ} (
      take 102400
        (0 ∷ 0 ∷ 0 ∷ 12 ∷ 97 ∷ 13 ∷ 10 ∷ 98 ∷ 13 ∷ 10 ∷ 0xe2 ∷ 0x82 ∷ 0xac ∷ 13 ∷ 10 ∷ 0 ∷ []))
    < 102400
room = omega arith

-- A server that sends the message of a client back to it, with a byte of the next one.
provide-received_example :
    (sent : List ℕ) × (provide_data (deflated storing 1) (1 ∷ []) (text ∷ []) ≡ some sent)
    × (handle_server_cut_text storing_back
          (deflated storing 1)
          connected
          (3 ∷ drop 1 (wire (cut_text sent true)) ++ 2 ∷ [])
          1
        ≡ got
            (done connected (copies (97 ∷ 10 ∷ 98 ∷ 10 ∷ 0x20ac ∷ 10 ∷ []) ∷ []))
            (8 + length sent))
unfolding unix_lines
provide-received_example =
    provide-received storing storing_back storing-Compresses storing_back-Decompresses 1 text
      (97 ∷ 13 ∷ 10 ∷ 98 ∷ 13 ∷ 10 ∷ 0xe2 ∷ 0x82 ∷ 0xac ∷ 13 ∷ 10 ∷ 0 ∷ []) connected (2 ∷ [])
      encoded_text (omega arith) room refl
