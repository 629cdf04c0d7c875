-- ===== src/Websock/Exceeded.antt =====
-- A message that websock.js has no room for, and those after it.
use warpyard.Base.{ℕ, ◌+◌, ◌-◌, ◌≤◌, ◌<◌, true, false, List, ◌≡◌, refl, ap, ◌∙◌, arith, length, ltb}
use warpyard.Websock.{
  Websock, max_rq_grow_size, expand_compact_rq, recv_store, recv_reset, recv_message, notified,
  exceeded, range_error,
}
use warpyard.Websock.Valid.{IsValid, contents}
use warpyard.Websock.Receive.{
  Stored, contents-recv_reset, length-contents, recv_message-Stored, recv_reset-IsValid,
}

recv_message_refused :
    (u8 : List ℕ) (ws : Websock)
    → IsValid ws
    → max_rq_grow_size < length (contents ws) + length u8
    → recv_message u8 ws ≡ (exceeded, record (recv_reset ws) { r_qbuffer_size = max_rq_grow_size })
unfolding recv_message
recv_message_refused u8 ws v h = rw (full, refused)
  where
    ws1 : Websock
    ws1 = recv_reset ws

    v1 : IsValid ws1
    v1 = recv_reset-IsValid ws v

    too_much : max_rq_grow_size < ws1.r_qlen - ws1.r_qi + length u8
    too_much = omega (arith, h, ap length (contents-recv_reset ws v), length-contents ws1 v1)

    full : ltb ws1.r_qbuffer_size (ws1.r_qlen + length u8) ≡ true
    full = ground (arith, too_much)

    refused :
        expand_compact_rq (length u8) ws1
        ≡ (false, record ws1 { r_qbuffer_size = max_rq_grow_size })
    refused = unfold expand_compact_rq in ground (arith, too_much)

-- `_recvMessage` on a valid object: a message that does not fit under the limit beside what is
-- unread is refused by the error, what is unread stays, and the array keeps its length while the
-- recorded size becomes the limit.
pub recv_message-exceeded :
    (u8 : List ℕ) (ws : Websock)
    → IsValid ws
    → max_rq_grow_size < length (contents ws) + length u8
    → let (outcome, out) = recv_message u8 ws in
      (outcome ≡ exceeded)
      × (contents out ≡ contents ws)
      × (length out.r_q ≡ length ws.r_q)
      × (out.r_qbuffer_size ≡ max_rq_grow_size)
recv_message-exceeded u8 ws v h =
    rw (recv_message_refused u8 ws v h) (refl, contents-recv_reset ws v, kept, refl)
  where
    kept : length (recv_reset ws).r_q ≡ length ws.r_q
    kept = unfold recv_reset in ground arith

-- After an error of `_recvMessage` for a message beyond the limit, on a valid object with unread bytes in
-- the queue, a next message that would have been stored without it is lost to a RangeError, if it
-- reaches past the end of the old array and stays within the limit.
pub recv_after_exceeded :
    (big next : List ℕ) (ws : Websock)
    → IsValid ws
    → ws.r_qi < ws.r_qlen
    → max_rq_grow_size < length (contents ws) + length big
    → length ws.r_q < ws.r_qlen + length next
    → ws.r_qlen + length next ≤ max_rq_grow_size
    → ((recv_message next ws).0 ≡ notified)
      × ((recv_message next (recv_message big ws).1).0 ≡ range_error)
recv_after_exceeded big next ws v unread h past fits = (
  stored.outcome ∙ ground (arith, length-contents ws v),
  rw failed (unfold recv_message recv_store in rw kept (ground (arith, past, fits))),
)
  where
    stored : Stored next ws (recv_message next ws)
    stored = recv_message-Stored next ws v (omega (arith, length-contents ws v))

    same : recv_reset ws ≡ ws
    same = unfold recv_reset in ground arith

    failed : (recv_message big ws).1 ≡ record ws { r_qbuffer_size = max_rq_grow_size }
    failed = rw (recv_message_refused big ws v h, same)

    kept :
        recv_reset (record ws { r_qbuffer_size = max_rq_grow_size })
        ≡ record ws { r_qbuffer_size = max_rq_grow_size }
    kept = unfold recv_reset in ground arith
