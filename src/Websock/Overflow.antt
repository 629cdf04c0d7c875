-- ===== src/Websock/Overflow.antt =====
-- `sQpushBytes` where the bytes do not fit the send queue, or the channel is shut.
use warpyard.Base.{
  ℕ, zero, suc, ◌+◌, ◌-◌, ◌*◌, ◌≤◌, ◌<◌, true, false, ◌&&◌, none, some, List, [], ◌∷◌, ◌++◌,
  append-nil, append_assoc, ◌≡◌, refl, ap, ◌∙◌, ◌≢◌, inl, inr, arith, flatten-append, length, take,
  splice, length-take, take-take, drop_all, ltb, if◌then◌else◌, Bool-cases,
}
use mathlib.Core.List.{flatten}
use warpyard.Websock.{Websock, ReadyState, is_open, ready_state, open_state}
use warpyard.Websock.SendQueue.{flush, push_round, push_bytes_from, s_qpush_bytes}
use warpyard.Websock.Valid.{CanSend, IsOpen, output}
use warpyard.Websock.Chunks.{loop_round, loop_ends}

-- A round at an empty queue that the bytes more than fill.
round_fills :
    (bytes : List ℕ) (ws : Websock)
    → CanSend ws
    → ws.s_qlen ≡ 0
    → ws.s_qbuffer_size < length bytes
    → push_round bytes 0 ws ≡ (
      ws.s_qbuffer_size,
      record ws { s_q = take ws.s_qbuffer_size bytes; s_qlen = ws.s_qbuffer_size },
    )
unfolding push_round
round_fills bytes ws c empty big =
    let size = ws.s_qbuffer_size in
    let no_flush : ltb size (ws.s_qlen + 1) ≡ false = ground arith in
    let chunk : (if ltb (length bytes - 0) (size - ws.s_qlen)
          then length bytes - 0
          else size - ws.s_qlen)
        ≡ size =
      ground arith in
    let z : size - 0 ≡ size = omega arith in
    rw (no_flush, chunk, z)
      (λ i. (
        (let e : 0 + size ≡ size = omega arith in e) i,
        record ws {
          s_q = written i;
          s_qlen = (let e : ws.s_qlen + size ≡ size = omega arith in e) i;
        },
      ))
  where
    written : splice ws.s_q ws.s_qlen (take ws.s_qbuffer_size bytes) ≡ take ws.s_qbuffer_size bytes
    written =
        ap (λ k. splice ws.s_q k (take ws.s_qbuffer_size bytes)) empty
        ∙ ap (λ l. take ws.s_qbuffer_size bytes ++ l)
            (drop_all (0 + length (take ws.s_qbuffer_size bytes)) ws.s_q
              (omega (arith, c.array, length-take ws.s_qbuffer_size bytes)))
        ∙ append-nil _

-- A round at a full queue, at an offset past the bytes that are left to push.
round_past :
    (bytes : List ℕ) (offset : ℕ) (ws : Websock)
    → CanSend ws
    → IsOpen ws
    → ws.s_qlen ≡ ws.s_qbuffer_size
    → length bytes ≤ offset + ws.s_qbuffer_size
    → length bytes ≤ offset + offset
    → offset ≤ length bytes
    → push_round bytes offset ws ≡ (
      length bytes,
      record ws { sent = ws.sent ++ (take ws.s_qlen ws.s_q ∷ []); s_qlen = length bytes - offset },
    )
unfolding push_round flush
round_past bytes offset ws c o full fits past le =
    let size = ws.s_qbuffer_size in
    let flushes : ltb size (ws.s_qlen + 1) ≡ true = ground arith in
    let some_waiting : ltb 0 ws.s_qlen ≡ true = ground (arith, c.wide) in
    let chunk : (if ltb (length bytes - offset) (size - 0) then length bytes - offset else size - 0)
        ≡ length bytes - offset =
      ground arith in
    let nothing : length bytes - offset - offset ≡ 0 = omega arith in
    rw (flushes, some_waiting, o, chunk, nothing)
      (λ i. (
        (let e : offset + (length bytes - offset) ≡ length bytes = omega arith in e) i,
        record ws {
          sent = ws.sent ++ (take ws.s_qlen ws.s_q ∷ []);
          s_q = ws.s_q;
          s_qlen =
              (let e : 0 + (length bytes - offset) ≡ length bytes - offset = omega arith in e) i;
        },
      ))

-- `sQpushBytes` on an open channel with an empty queue, for bytes longer than the queue and at most
-- twice as long: what follows the first chunk is not pushed. The beginning of the first chunk
-- takes its place, as many bytes as are left.
pub s_qpush_bytes_repeats :
    (bytes : List ℕ) (ws : Websock)
    → CanSend ws
    → IsOpen ws
    → ws.s_qlen ≡ 0
    → ws.s_qbuffer_size < length bytes
    → length bytes ≤ 2 * ws.s_qbuffer_size
    → (out : Websock) × (s_qpush_bytes bytes ws ≡ some out)
      × (output out
          ≡ output ws
            ++ (take ws.s_qbuffer_size bytes ++ take (length bytes - ws.s_qbuffer_size) bytes))
unfolding s_qpush_bytes
s_qpush_bytes_repeats bytes ws c o empty big le = (second, returned, output_lem)
  where
    size : ℕ
    size = ws.s_qbuffer_size

    left : ℕ
    left = length bytes - size

    prefix : List ℕ
    prefix = take size bytes

    length-prefix : length prefix ≡ size
    length-prefix = omega (arith, length-take size bytes)

    first : Websock
    first = record ws { s_q = prefix; s_qlen = size }

    first-CanSend : CanSend first
    first-CanSend = omega (arith, length-prefix)

    second : Websock
    second = record first { sent = ws.sent ++ (take size prefix ∷ []); s_qlen = left }

    round2 : push_round bytes size first ≡ (length bytes, second)
    round2 =
        round_past bytes size first first-CanSend (unfold ready_state in o) refl (omega arith)
          (omega arith) (omega arith)

    returned : push_bytes_from (length bytes + 1) bytes 0 ws ≡ some second
    returned =
        ap (λ n. push_bytes_from n bytes 0 ws) {y = suc (suc (suc (length bytes - 2)))}
          (omega arith)
        ∙ loop_round (suc (suc (length bytes - 2))) bytes 0 ws (omega arith)
        ∙ ap (λ (r : ℕ × Websock). push_bytes_from (suc (suc (length bytes - 2))) bytes r.0 r.1)
            (round_fills bytes ws c empty big)
        ∙ loop_round (suc (length bytes - 2)) bytes size first big
        ∙ ap (λ (r : ℕ × Websock). push_bytes_from (suc (length bytes - 2)) bytes r.0 r.1) round2
        ∙ loop_ends (length bytes - 2) bytes (length bytes) second (omega arith)

    output_lem : output second ≡ output ws ++ (prefix ++ take left bytes)
    output_lem =
        rw
          (
            flatten-append,
            take-take size size bytes (omega arith),
            take-take left size bytes (omega arith),
            empty,
            append-nil,
          )
          (unfold flatten in
            append_assoc (flatten ws.sent) (prefix ++ []) (take left bytes)
            ∙ ap (λ l. flatten ws.sent ++ (l ++ take left bytes)) (append-nil prefix))

is_open_iff : (r : ReadyState) → is_open r ≡ true → r ≡ open_state
is_open_iff r h = ground arith

-- A round at a full queue on a channel that is not open moves nothing.
record IsStalled (offset : ℕ) (ws : Websock) (round : ℕ × Websock) : Type 0 where
  at : round.0 ≡ offset
  full : round.1.s_qlen ≡ round.1.s_qbuffer_size
  shut : ready_state round.1 ≢ open_state

round_stalls :
    (bytes : List ℕ) (offset : ℕ) (ws : Websock)
    → ws.s_qlen ≡ ws.s_qbuffer_size
    → ready_state ws ≢ open_state
    → IsStalled offset ws (push_round bytes offset ws)
unfolding push_round flush
round_stalls bytes offset ws full shut =
    let flushes : ltb ws.s_qbuffer_size (ws.s_qlen + 1) ≡ true = ground arith in
    let no_space : (if ltb (length bytes - offset) (ws.s_qbuffer_size - ws.s_qlen)
          then length bytes - offset
          else ws.s_qbuffer_size - ws.s_qlen)
        ≡ 0 =
      ground arith in
    elim (Bool-cases (ltb 0 ws.s_qlen && is_open (ready_state ws))) [
      | inl e ↦ absurd (shut (is_open_iff (ready_state ws) (ground arith)))
      | inr e ↦
          rw (flushes, e, no_space) (record { at = omega arith; full = omega arith; shut = shut })
    ]

-- `sQpushBytes` at a full queue on a channel that is not open never ends: no fuel is enough.
pub s_qpush_bytes_hangs :
    (fuel : ℕ) (bytes : List ℕ) (offset : ℕ) (ws : Websock)
    → ws.s_qlen ≡ ws.s_qbuffer_size
    → ready_state ws ≢ open_state
    → offset < length bytes
    → push_bytes_from fuel bytes offset ws ≡ none
s_qpush_bytes_hangs zero bytes offset ws full shut h = unfold push_bytes_from in refl
s_qpush_bytes_hangs (suc fuel) bytes offset ws full shut h =
    let s = round_stalls bytes offset ws full shut in
    let round = push_round bytes offset ws in
    loop_round fuel bytes offset ws h
    ∙ s_qpush_bytes_hangs fuel bytes round.0 round.1 s.full s.shut (omega (arith, s.at))
