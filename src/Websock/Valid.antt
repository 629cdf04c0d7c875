-- ===== src/Websock/Valid.antt =====
-- What holds of a `Websock` between two calls, and what its queues hold.
use warpyard.Base.{ℕ, ◌≤◌, List, ◌++◌, ◌≡◌, arith, length, take, slice, length-replicate}
use mathlib.Core.List.{flatten}
use warpyard.Websock.{Websock, RawState, max_rq_grow_size, attach, ready_state, open_state}

-- The receive queue: the indices are in order and inside the array, which is not too large.
pub record IsValid (ws : Websock) : Type 0 where
  pub index_le : ws.r_qi ≤ ws.r_qlen
  pub len_le : ws.r_qlen ≤ ws.r_qbuffer_size
  pub allocated : length ws.r_q ≡ ws.r_qbuffer_size
  pub bounded : ws.r_qbuffer_size ≤ max_rq_grow_size

-- The send queue: there is an array that holds at least one of the longest numbers.
pub record CanSend (ws : Websock) : Type 0 where
  pub room : ws.s_qlen ≤ ws.s_qbuffer_size
  pub array : length ws.s_q ≡ ws.s_qbuffer_size
  pub wide : 4 ≤ ws.s_qbuffer_size

abbrev pub IsOpen : Websock → Type 0
IsOpen ws = ready_state ws ≡ open_state

-- The bytes that have arrived and are not yet read.
abbrev pub contents : Websock → List ℕ
contents ws = slice ws.r_q ws.r_qi ws.r_qlen

-- The bytes handed over, those on the channel and those waiting in the queue.
abbrev pub output : Websock → List ℕ
output ws = flatten ws.sent ++ take ws.s_qlen ws.s_q

-- A channel attached to an object whose receive queue is empty, and whose buffer size is within the
-- limit, gives one with a valid receive queue.
pub attach-IsValid :
    (raw : RawState) (ws : Websock)
    → ws.r_qlen ≡ 0
    → ws.r_qbuffer_size ≤ max_rq_grow_size
    → IsValid (attach raw ws)
unfolding attach
attach-IsValid raw ws e h = ground (arith, length-replicate {A = ℕ} ws.r_qbuffer_size 0)
