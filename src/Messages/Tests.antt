-- ===== src/Messages/Tests.antt =====
-- Runs of the client messages.
use warpyard.Base.{
  ℕ, true, some, List, [], ◌∷◌, map, ◌≡◌, refl, arith, All, replicate, length-replicate,
}
use mathlib.Core.List.{flatten}
use warpyard.Websock.{Websock, new, raw_open, ready_state}
use warpyard.Websock.Valid.{CanSend, IsOpen}
use warpyard.Messages.Wire.{ClientMessage, key, qemu_key, cut_text, fence, encodings, send, Fits}
use warpyard.Messages.Emits.{Sends}
use warpyard.Messages.Sent.{send-Sends}
use warpyard.Messages.Parse.{parse, received, InRange}
use warpyard.Messages.Unparse.{parse-wire}
use warpyard.Messages.Session.{send_all, parse_all, send_all-parsed}

-- Just attached, with a send queue of sixteen bytes.
abbrev socket : Websock
socket = record {
  channel = some raw_open;
  r_q = [];
  r_qi = 0;
  r_qlen = 0;
  r_qbuffer_size = 0;
  s_q = replicate 16 0;
  s_qlen = 0;
  s_qbuffer_size = 16;
  sent = [];
  closes = 0;
  listening = true;
  event_handlers = new.event_handlers;
}

socket-CanSend : CanSend socket
socket-CanSend = record {
  room = omega arith;
  array = length-replicate {A = ℕ} 16 0;
  wide = omega arith;
}

socket-IsOpen : IsOpen socket
unfolding ready_state
socket-IsOpen = refl

abbrev session : List ClientMessage
session =
    key 65 1
    ∷ qemu_key 65363 0 0xe04d
    ∷ fence 3 (1 ∷ 2 ∷ [])
    ∷ cut_text (104 ∷ 105 ∷ []) true
    ∷ encodings (7 ∷ 1 ∷ 0 ∷ [])
    ∷ []

session-InRange : All InRange session
session-InRange = omega arith

session-Fits : All (Fits 16) session
session-Fits = omega arith

send_all-parsed_example :
    (out : Websock) × (send_all session socket ≡ some out)
    × (parse_all 6 (flatten out.sent) ≡ some (map received session))
send_all-parsed_example =
    send_all-parsed session socket socket-CanSend socket-IsOpen refl refl session-Fits
      session-InRange

send-Sends_example :
    (out : Websock) × (send (cut_text (104 ∷ 105 ∷ []) true) socket ≡ some out)
    × Sends (6 ∷ 0 ∷ 0 ∷ 0 ∷ 255 ∷ 255 ∷ 255 ∷ 254 ∷ 104 ∷ 105 ∷ []) socket out
send-Sends_example =
    send-Sends (cut_text (104 ∷ 105 ∷ []) true) socket socket-CanSend socket-IsOpen refl
      (omega arith)

parse-wire_example : parse (4 ∷ 1 ∷ 0 ∷ 0 ∷ 0 ∷ 0 ∷ 0 ∷ 65 ∷ 99 ∷ []) ≡ some (key 65 1, 99 ∷ [])
parse-wire_example = parse-wire (key 65 1) (99 ∷ []) (omega arith)
