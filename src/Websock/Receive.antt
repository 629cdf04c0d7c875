-- ===== src/Websock/Receive.antt =====
-- `_recvMessage` and `_expandCompactRQ` of websock.js, where there is room.
use warpyard.Base.{
  ℕ, ◌+◌, ◌-◌, ◌≤◌, Bool, true, false, List, ◌++◌, ◌≡◌, refl, ap, ◌∙◌, inl, inr, arith, length,
  drop, replicate, length-replicate, length-take, length-drop, length-splice, slice-splice,
  slice-splice_front, ltb, if◌then◌else◌, Bool-cases,
}
use warpyard.Websock.{
  Websock, max_rq_grow_size, required_buffer_size, grown_size, limited_size, move_unread,
  expand_compact_rq, recv_store, recv_reset, recv_message, Received, notified, ignored,
}
use warpyard.Websock.Valid.{IsValid, contents}

pub length-contents : (ws : Websock) → IsValid ws → length (contents ws) ≡ ws.r_qlen - ws.r_qi
length-contents ws v =
    omega
      (arith, length-take (ws.r_qlen - ws.r_qi) (drop ws.r_qi ws.r_q), length-drop ws.r_qi ws.r_q)

pub recv_reset-IsValid : (ws : Websock) → IsValid ws → IsValid (recv_reset ws)
unfolding recv_reset
recv_reset-IsValid ws v = ground arith

pub contents-recv_reset : (ws : Websock) → IsValid ws → contents (recv_reset ws) ≡ contents ws
unfolding recv_reset
contents-recv_reset ws v = ground arith

-- The size chosen: within the limit, no smaller than before, and with room wherever the limit has it.
new_size_lem :
    (n : ℕ) (ws : Websock)
    → IsValid ws
    → let size = limited_size (grown_size n ws) in
      (size ≤ max_rq_grow_size)
      × (ws.r_qbuffer_size ≤ size)
      × (ltb ws.r_qbuffer_size (required_buffer_size n ws) ≡ false → size ≡ ws.r_qbuffer_size)
      × (ws.r_qlen - ws.r_qi + n ≤ max_rq_grow_size → ws.r_qlen - ws.r_qi + n ≤ size)
unfolding limited_size grown_size
new_size_lem n ws v = (ground arith, ground arith, ground arith, ground arith)

-- A move of what is unread keeps it, in any array that holds it.
record IsMoved (size : ℕ) (ws out : Websock) : Type 0 where
  same : contents out ≡ contents ws
  start : out.r_qi ≡ 0
  end : out.r_qlen ≡ ws.r_qlen - ws.r_qi
  capacity : out.r_qbuffer_size ≡ size
  array : length out.r_q ≡ size

move_unread-IsMoved :
    (size : ℕ) (resize_needed : Bool) (ws : Websock)
    → IsValid ws
    → ws.r_qbuffer_size ≤ size
    → (resize_needed ≡ false → size ≡ ws.r_qbuffer_size)
    → IsMoved size ws (move_unread size resize_needed ws)
unfolding move_unread
move_unread-IsMoved size resize_needed ws v le keeps = record {
  same = slice-splice_front target (contents ws) (ws.r_qlen - ws.r_qi) (length-contents ws v);
  start = refl;
  end = refl;
  capacity = refl;
  array = length-splice target 0 (contents ws) (omega (arith, enough)) ∙ target_length;
}
  where
    target : List ℕ
    target = if resize_needed then replicate size 0 else ws.r_q

    target_length : length target ≡ size
    target_length = elim (Bool-cases resize_needed) [
      | inl e ↦ rw e (length-replicate size 0)
      | inr e ↦ rw e (omega (arith, keeps e))
    ]

    enough : length (contents ws) ≤ length target
    enough = omega (arith, target_length, length-contents ws v)

-- Expanding keeps what is unread, and makes room for `n` bytes where the limit allows it.
record Expanded (n : ℕ) (ws : Websock) (out : Bool × Websock) : Type 0 where
  returned : out.0 ≡ true
  valid : IsValid out.1
  same : contents out.1 ≡ contents ws
  fits : out.1.r_qlen + n ≤ out.1.r_qbuffer_size

expand_compact_rq-Expanded :
    (n : ℕ) (ws : Websock)
    → IsValid ws
    → ws.r_qlen - ws.r_qi + n ≤ max_rq_grow_size
    → Expanded n ws (expand_compact_rq n ws)
expand_compact_rq-Expanded n ws v h =
    let size = limited_size (grown_size n ws) in
    let resize = ltb ws.r_qbuffer_size (required_buffer_size n ws) in
    let facts = new_size_lem n ws v in
    let moved : IsMoved size ws (move_unread size resize ws) =
      move_unread-IsMoved size resize ws v facts.1 facts.2 in
    let out : expand_compact_rq n ws ≡ (true, move_unread size resize ws) =
      unfold expand_compact_rq in ground (arith, facts.3 h) in
    rw out (record {
      returned = refl;
      valid = omega (arith, moved.start, moved.end, moved.capacity, moved.array, facts.0, facts.1);
      same = moved.same;
      fits = omega (arith, moved.end, moved.capacity, facts.3 h);
    })

-- Storing a message that fits appends it to what is unread.
pub record Stored (u8 : List ℕ) (ws : Websock) (out : Received × Websock) : Type 0 where
  pub outcome : out.0 ≡ (if ltb 0 (length (contents ws) + length u8) then notified else ignored)
  pub valid : IsValid out.1
  pub appended : contents out.1 ≡ contents ws ++ u8

recv_store-Stored :
    (u8 : List ℕ) (ws : Websock)
    → IsValid ws
    → ws.r_qlen + length u8 ≤ ws.r_qbuffer_size
    → Stored u8 ws (recv_store u8 ws)
unfolding recv_store
recv_store-Stored u8 ws v h =
    let inside : ltb (length ws.r_q) (ws.r_qlen + length u8) ≡ false = ground arith in
    rw inside (record {
      outcome = ground (arith, length-contents ws v);
      valid = omega (arith, length-splice ws.r_q ws.r_qlen u8);
      appended = slice-splice ws.r_q ws.r_qi ws.r_qlen u8 (omega arith) (omega arith);
    })

Stored-of_same :
    (u8 : List ℕ) (ws ws' : Websock) (out : Received × Websock)
    → contents ws' ≡ contents ws
    → Stored u8 ws' out
    → Stored u8 ws out
Stored-of_same u8 ws ws' out e s = record {
  outcome = rw (← e) s.outcome;
  valid = s.valid;
  appended = rw (← e) s.appended;
}

-- `_recvMessage` on a valid object: a message that fits under the limit beside what is unread is
-- appended to it, the object stays valid, and the handler is called unless nothing is unread then.
pub recv_message-Stored :
    (u8 : List ℕ) (ws : Websock)
    → IsValid ws
    → length (contents ws) + length u8 ≤ max_rq_grow_size
    → Stored u8 ws (recv_message u8 ws)
unfolding recv_message
recv_message-Stored u8 ws v h =
    elim (Bool-cases (ltb ws1.r_qbuffer_size (ws1.r_qlen + length u8))) [
      | inl e ↦
          rw (e, grown.returned)
            (Stored-of_same u8 ws ws2 (recv_store u8 ws2) (grown.same ∙ unread)
              (recv_store-Stored u8 ws2 grown.valid grown.fits))
      | inr e ↦ rw e (
          Stored-of_same u8 ws ws1 (recv_store u8 ws1) unread
            (recv_store-Stored u8 ws1 v1 (ground arith)))
    ]
  where
    ws1 : Websock
    ws1 = recv_reset ws

    ws2 : Websock
    ws2 = (expand_compact_rq (length u8) ws1).1

    v1 : IsValid ws1
    v1 = recv_reset-IsValid ws v

    unread : contents ws1 ≡ contents ws
    unread = contents-recv_reset ws v

    grown : Expanded (length u8) ws1 (expand_compact_rq (length u8) ws1)
    grown =
        expand_compact_rq-Expanded (length u8) ws1 v1
          (omega (arith, h, ap length unread, length-contents ws1 v1))
