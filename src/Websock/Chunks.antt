-- ===== src/Websock/Chunks.antt =====
-- `sQpushBytes`, which cuts what it pushes into chunks.
use warpyard.Base.{
  ℕ, suc, ◌+◌, ◌-◌, ◌≤◌, ◌<◌, true, false, some, List, [], ◌∷◌, ◌++◌, append-nil, append_assoc, ◌≡◌,
  refl, sym, ap, ◌∙◌, arith, length, take, length-splice, take-splice, take_all, ltb, if◌then◌else◌,
}
use mathlib.Core.List.{flatten}
use warpyard.Websock.{Websock, ready_state}
use warpyard.Websock.SendQueue.{push_round, push_bytes_from, s_qpush_bytes}
use warpyard.Websock.Valid.{CanSend, IsOpen}
use warpyard.Websock.Send.{Appends}

-- One round that has room for all the bytes that are left, from the first byte on.
round_fits :
    (bytes : List ℕ) (ws : Websock)
    → CanSend ws
    → IsOpen ws
    → 0 < length bytes
    → ws.s_qlen + length bytes ≤ ws.s_qbuffer_size
    → ((push_round bytes 0 ws).0 ≡ length bytes) × Appends bytes ws (push_round bytes 0 ws).1
unfolding push_round ready_state
round_fits bytes ws c o pos h =
    let no_flush : ltb ws.s_qbuffer_size (ws.s_qlen + 1) ≡ false = ground arith in
    let all : (if ltb (length bytes - 0) (ws.s_qbuffer_size - ws.s_qlen)
          then length bytes - 0
          else ws.s_qbuffer_size - ws.s_qlen)
        ≡ length bytes =
      ground arith in
    let whole : take (length bytes - 0) bytes ≡ bytes = take_all _ bytes (omega arith) in
    rw (no_flush, all, whole)
      (
        omega arith,
        record {
          handed =
              ap (λ l. flatten ws.sent ++ l) (take-splice ws.s_q ws.s_qlen bytes (omega arith))
              ∙ sym (append_assoc (flatten ws.sent) (take ws.s_qlen ws.s_q) bytes);
          can = omega (arith, length-splice ws.s_q ws.s_qlen bytes);
          still_open = o;
          grows = omega arith;
          same_size = refl;
        },
      )

-- The loop goes round while bytes are left.
pub loop_round :
    (fuel : ℕ) (bytes : List ℕ) (offset : ℕ) (ws : Websock)
    → offset < length bytes
    → push_bytes_from (suc fuel) bytes offset ws
      ≡ push_bytes_from fuel bytes (push_round bytes offset ws).0 (push_round bytes offset ws).1
unfolding push_bytes_from
loop_round fuel bytes offset ws h =
    let more : ltb offset (length bytes) ≡ true = ground arith in rw more

pub loop_ends :
    (fuel : ℕ) (bytes : List ℕ) (offset : ℕ) (ws : Websock)
    → length bytes ≤ offset
    → push_bytes_from (suc fuel) bytes offset ws ≡ some ws
unfolding push_bytes_from
loop_ends fuel bytes offset ws h =
    let done : ltb offset (length bytes) ≡ false = ground arith in rw done

-- `sQpushBytes` on an open channel: bytes that fit beside those waiting are all handed over.
pub s_qpush_bytes_fits :
    (bytes : List ℕ) (ws : Websock)
    → CanSend ws
    → IsOpen ws
    → ws.s_qlen + length bytes ≤ ws.s_qbuffer_size
    → (out : Websock) × (s_qpush_bytes bytes ws ≡ some out) × Appends bytes ws out
unfolding s_qpush_bytes
s_qpush_bytes_fits [] ws c o h = (
  ws,
  loop_ends 0 [] 0 ws (omega arith),
  record {
    handed = sym (append-nil _);
    can = c;
    still_open = o;
    grows = omega arith;
    same_size = refl;
  },
)
s_qpush_bytes_fits (b ∷ bs) ws c o h =
    ((push_round (b ∷ bs) 0 ws).1, returned, (round_fits (b ∷ bs) ws c o (omega arith) h).1)
  where
    returned :
        push_bytes_from (length (b ∷ bs) + 1) (b ∷ bs) 0 ws ≡ some (push_round (b ∷ bs) 0 ws).1
    returned =
        ap (λ n. push_bytes_from n (b ∷ bs) 0 ws) {y = suc (suc (length bs))} (omega arith)
        ∙ loop_round (suc (length bs)) (b ∷ bs) 0 ws (omega arith)
        ∙ loop_ends (length bs) (b ∷ bs) (push_round (b ∷ bs) 0 ws).0 (push_round (b ∷ bs) 0 ws).1
            (omega (arith, (round_fits (b ∷ bs) ws c o (omega arith) h).0))
