-- ===== src/Websock/SendQueue.antt =====
-- The send queue of websock.js.
use warpyard.Base.{
  ℕ, zero, suc, ◌+◌, ◌-◌, ◌/◌, ◌%◌, ◌^◌, bit_and, ◌&&◌, Option, none, some, List, [], ◌∷◌, ◌++◌,
  length, set, take, slice, splice, ltb, if◌then◌else◌,
}
use warpyard.Websock.{Websock, is_open, ready_state}

unfoldable pub flush : Websock → Websock
unfolding ready_state
flush ws =
    if ltb 0 ws.s_qlen && is_open (ready_state ws)
    then record ws { sent = ws.sent ++ (take ws.s_qlen ws.s_q ∷ []); s_qlen = 0 }
    else ws

unfoldable pub s_qensure_space : ℕ → Websock → Websock
unfolding flush
s_qensure_space bytes ws = if ltb ws.s_qbuffer_size (ws.s_qlen + bytes) then flush ws else ws

-- `_sQ[_sQlen++] = num`: the byte is cut to 8 bits, and a write past the end is lost.
unfoldable pub s_qstore : ℕ → Websock → Websock
s_qstore num ws = record ws { s_q = set ws.s_q ws.s_qlen (num % 2 ^ 8); s_qlen = ws.s_qlen + 1 }

unfoldable pub s_qpush8 : ℕ → Websock → Websock
unfolding s_qensure_space s_qstore
s_qpush8 num ws = s_qstore num (s_qensure_space 1 ws)

unfoldable pub s_qpush16 : ℕ → Websock → Websock
unfolding s_qensure_space s_qstore
s_qpush16 num ws =
    s_qstore (bit_and num 0xff) (s_qstore (bit_and (num / 2 ^ 8) 0xff) (s_qensure_space 2 ws))

unfoldable pub s_qpush32 : ℕ → Websock → Websock
unfolding s_qensure_space s_qstore
s_qpush32 num ws = s_qstore (bit_and num 0xff) (
    s_qstore (bit_and (num / 2 ^ 8) 0xff) (
      s_qstore (bit_and (num / 2 ^ 16) 0xff)
        (s_qstore (bit_and (num / 2 ^ 24) 0xff) (s_qensure_space 4 ws))))

-- One round of the loop of `sQpushBytes` at `offset`: the new offset and queue. The source's
-- `bytes.subarray(offset, chunkSize)` ends at `chunkSize`, not at `offset + chunkSize`. A queue that
-- lost pushes have left overfull (`_sQlen` above the size) counts here as full.
unfoldable pub push_round : List ℕ → ℕ → Websock → ℕ × Websock
unfolding s_qensure_space
push_round bytes offset ws =
    let ws1 = s_qensure_space 1 ws in
    let space = ws1.s_qbuffer_size - ws1.s_qlen in
    let chunk_size = if ltb (length bytes - offset) space then length bytes - offset else space in
    (
      offset + chunk_size,
      record ws1 {
        s_q = splice ws1.s_q ws1.s_qlen (slice bytes offset chunk_size);
        s_qlen = ws1.s_qlen + chunk_size;
      },
    )

-- The loop, on fuel; `none` is a loop that has not ended.
unfoldable pub push_bytes_from : ℕ → List ℕ → ℕ → Websock → Option Websock
push_bytes_from zero bytes offset ws = none
push_bytes_from (suc fuel) bytes offset ws =
    let (offset', ws') = push_round bytes offset ws in
    let rest = push_bytes_from fuel bytes offset' ws' in
    if ltb offset (length bytes) then rest else some ws

-- A round moves at least one byte, or leaves the queue full for good.
unfoldable pub s_qpush_bytes : List ℕ → Websock → Option Websock
s_qpush_bytes bytes ws = push_bytes_from (length bytes + 1) bytes 0 ws

-- The character codes, each cut to 8 bits by the typed array.
abbrev pub to_bytes : List ℕ → List ℕ
to_bytes [] = []
to_bytes (c ∷ cs) = c % 2 ^ 8 ∷ to_bytes cs

unfoldable pub s_qpush_string : List ℕ → Websock → Option Websock
unfolding s_qpush_bytes
s_qpush_string str ws = s_qpush_bytes (to_bytes str) ws
