-- ===== src/Websock/Tests.antt =====
-- Runs of websock.js on small queues.
use warpyard.Base.{
  ℕ, ◌+◌, ◌≤◌, ◌<◌, true, none, some, List, [], ◌∷◌, ◌≡◌, refl, ◌≢◌, arith, length, replicate,
  length-replicate,
}
use warpyard.Stream
use warpyard.Stream.{Stream}
use warpyard.Websock.{
  Websock, raw_open, raw_closing, open_state, ready_state, max_rq_grow_size, new, recv_message,
  exceeded, notified, range_error, r_qshift8, r_qshift16, r_qshift32, r_qshift_bytes, r_qpeek_bytes,
  r_qskip_bytes, r_qshift_to, r_qpeek8,
}
use warpyard.Websock.SendQueue.{s_qpush_bytes, push_bytes_from}
use warpyard.Websock.Valid.{IsValid, CanSend, IsOpen, contents, output}
use warpyard.Websock.Receive.{Stored, recv_message-Stored}
use warpyard.Websock.Exceeded.{recv_message-exceeded, recv_after_exceeded}
use warpyard.Websock.Reads.{Reads, IsBytes, r_qshift_bytes-Reads, r_qshift-Reads, r_qpeek8_lem}
use warpyard.Websock.Send.{Appends}
use warpyard.Websock.Chunks.{s_qpush_bytes_fits}
use warpyard.Websock.Overflow.{s_qpush_bytes_repeats, s_qpush_bytes_hangs}

-- Five bytes are unread, the send queue of four bytes is empty.
abbrev pub socket : Websock
socket = record {
  channel = some raw_open;
  r_q = 9 ∷ 1 ∷ 2 ∷ 3 ∷ 4 ∷ 5 ∷ 0 ∷ 0 ∷ [];
  r_qi = 1;
  r_qlen = 6;
  r_qbuffer_size = 8;
  s_q = 0 ∷ 0 ∷ 0 ∷ 0 ∷ [];
  s_qlen = 0;
  s_qbuffer_size = 4;
  sent = [];
  closes = 0;
  listening = true;
  event_handlers = new.event_handlers;
}

-- Two bytes wait in its send queue.
abbrev half_full : Websock
half_full = record socket { s_q = 7 ∷ 8 ∷ 0 ∷ 0 ∷ []; s_qlen = 2 }

abbrev shut_and_full : Websock
shut_and_full = record socket { channel = some raw_closing; s_qlen = 4 }

pub socket-IsValid : IsValid socket
socket-IsValid = record {
  index_le = omega arith;
  len_le = omega arith;
  allocated = refl;
  bounded = omega arith;
}

socket-CanSend : CanSend socket
socket-CanSend = record { room = omega arith; array = refl; wide = omega arith }

half_full-CanSend : CanSend half_full
half_full-CanSend = record { room = omega arith; array = refl; wide = omega arith }

socket-IsOpen : IsOpen socket
unfolding ready_state
socket-IsOpen = refl

half_full-IsOpen : IsOpen half_full
unfolding ready_state
half_full-IsOpen = refl

new-size : new.r_qbuffer_size ≤ max_rq_grow_size
unfolding new
new-size = omega arith

new-empty : new.r_qlen ≡ 0
unfolding new
new-empty = refl

recv_message-Stored_example : Stored (6 ∷ 7 ∷ 8 ∷ []) socket (recv_message (6 ∷ 7 ∷ 8 ∷ []) socket)
recv_message-Stored_example =
    recv_message-Stored (6 ∷ 7 ∷ 8 ∷ []) socket socket-IsValid (omega arith)

abbrev big : List ℕ
big = replicate max_rq_grow_size 0

big-long : max_rq_grow_size < 5 + length big
big-long = omega (arith, length-replicate {A = ℕ} max_rq_grow_size 0)

recv_message-exceeded_example :
    let (outcome, out) = recv_message big socket in
    (outcome ≡ exceeded)
    × (contents out ≡ 1 ∷ 2 ∷ 3 ∷ 4 ∷ 5 ∷ [])
    × (length out.r_q ≡ 8)
    × (out.r_qbuffer_size ≡ max_rq_grow_size)
recv_message-exceeded_example = recv_message-exceeded big socket socket-IsValid big-long

recv_after_exceeded_example :
    ((recv_message (6 ∷ 7 ∷ 8 ∷ []) socket).0 ≡ notified)
    × ((recv_message (6 ∷ 7 ∷ 8 ∷ []) (recv_message big socket).1).0 ≡ range_error)
recv_after_exceeded_example =
    recv_after_exceeded big (6 ∷ 7 ∷ 8 ∷ []) socket socket-IsValid (omega arith) big-long
      (omega arith) (omega arith)

two_shifted : Stream.shift_bytes 2 (contents socket) ≡ some (1 ∷ 2 ∷ [], 3 ∷ 4 ∷ 5 ∷ [])
unfolding Stream.shift_bytes
two_shifted = refl

r_qshift_bytes-Reads_example :
    Reads (1 ∷ 2 ∷ []) (3 ∷ 4 ∷ 5 ∷ []) (r_qshift_bytes 2 socket)
    × (r_qpeek_bytes 2 socket ≡ 1 ∷ 2 ∷ [])
    × (contents (r_qskip_bytes 2 socket) ≡ 3 ∷ 4 ∷ 5 ∷ [])
    × (r_qshift_to (0 ∷ 0 ∷ 7 ∷ []) 2 socket ≡ some (1 ∷ 2 ∷ 7 ∷ [], r_qskip_bytes 2 socket))
r_qshift_bytes-Reads_example =
    r_qshift_bytes-Reads 2 socket (0 ∷ 0 ∷ 7 ∷ []) socket-IsValid (omega arith) two_shifted

socket-IsBytes : IsBytes (contents socket)
socket-IsBytes = omega arith

r_qshift-Reads_example :
    (Stream.shift8 (contents socket) ≡ some (258, 3 ∷ 4 ∷ 5 ∷ [])
      → Reads 258 (3 ∷ 4 ∷ 5 ∷ []) (r_qshift8 socket))
    × (Stream.shift16 (contents socket) ≡ some (258, 3 ∷ 4 ∷ 5 ∷ [])
        → Reads 258 (3 ∷ 4 ∷ 5 ∷ []) (r_qshift16 socket))
    × (Stream.shift32 (contents socket) ≡ some (258, 3 ∷ 4 ∷ 5 ∷ [])
        → Reads 258 (3 ∷ 4 ∷ 5 ∷ []) (r_qshift32 socket))
r_qshift-Reads_example =
    r_qshift-Reads socket {n = 258} {rest = 3 ∷ 4 ∷ 5 ∷ []} socket-IsValid socket-IsBytes

-- Its middle part is not empty.
r_qshift16_example : Reads 258 (3 ∷ 4 ∷ 5 ∷ []) (r_qshift16 socket)
r_qshift16_example = r_qshift-Reads_example.1 (unfold Stream.shift in refl)

r_qpeek8_lem_example : r_qpeek8 socket ≡ 1
r_qpeek8_lem_example = r_qpeek8_lem socket socket-IsValid (unfold Stream.peek8 in refl)

s_qpush_bytes_fits_example :
    (out : Websock) × (s_qpush_bytes (1 ∷ 2 ∷ []) half_full ≡ some out)
    × Appends (1 ∷ 2 ∷ []) half_full out
s_qpush_bytes_fits_example =
    s_qpush_bytes_fits (1 ∷ 2 ∷ []) half_full half_full-CanSend half_full-IsOpen (omega arith)

-- Six bytes through a queue of four: the fifth and sixth are the first and second again.
s_qpush_bytes_repeats_example :
    (out : Websock) × (s_qpush_bytes (1 ∷ 2 ∷ 3 ∷ 4 ∷ 5 ∷ 6 ∷ []) socket ≡ some out)
    × (output out ≡ 1 ∷ 2 ∷ 3 ∷ 4 ∷ 1 ∷ 2 ∷ [])
unfolding mathlib.Core.List.flatten
s_qpush_bytes_repeats_example =
    s_qpush_bytes_repeats (1 ∷ 2 ∷ 3 ∷ 4 ∷ 5 ∷ 6 ∷ []) socket socket-CanSend socket-IsOpen refl
      (omega arith) (omega arith)

shut_and_full-shut : ready_state shut_and_full ≢ open_state
unfolding ready_state
shut_and_full-shut e = cc e

s_qpush_bytes_hangs_example : push_bytes_from 1000 (1 ∷ []) 0 shut_and_full ≡ none
s_qpush_bytes_hangs_example =
    s_qpush_bytes_hangs 1000 (1 ∷ []) 0 shut_and_full refl shut_and_full-shut (omega arith)
