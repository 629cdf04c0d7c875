-- ===== src/Websock.antt =====
-- The class `Websock` of app/static/novnc/core/websock.js. A method that changes `this` returns the
-- new record; a typed array is a list of bytes, of the length that it was allocated with.
pub mod Exceeded
pub mod SendQueue
pub mod Valid
pub mod Receive
pub mod Reads
pub mod Send
pub mod Chunks
pub mod Overflow
mod Tests
use warpyard.Base.{
  ℕ, zero, suc, ◌+◌, ◌-◌, ◌*◌, ◌/◌, ◌%◌, ◌^◌, max, bit_and, Bool, true, false, ◌&&◌, ◌||◌, Option,
  none, some, List, [], ◌∷◌, ◌++◌, length, get_or, set, take, replicate, slice, splice, ltb, leb,
  ◌==◌, if◌then◌else◌,
}

-- `readyState` of the raw channel, a WebSocket or an RTCDataChannel.
pub data RawState : Type 0 where
  raw_connecting raw_open raw_closing raw_closed raw_other : RawState

-- What the getter `readyState` returns.
pub data ReadyState : Type 0 where
  unused connecting open_state closing closed unknown : ReadyState

-- `_eventHandlers`: a handler is a number, and 0 is the one that does nothing.
pub record EventHandlers : Type 0 where
  pub message_handler : ℕ
  pub open_handler : ℕ
  pub close_handler : ℕ
  pub error_handler : ℕ

pub data EventName : Type 0 where
  message_event open_event close_event error_event : EventName

pub record Websock : Type 0 where
  pub channel : Option RawState
  pub r_q : List ℕ
  pub r_qi : ℕ
  pub r_qlen : ℕ
  pub r_qbuffer_size : ℕ
  pub s_q : List ℕ
  pub s_qlen : ℕ
  pub s_qbuffer_size : ℕ
  -- the arguments of the calls of `send` on the channel, the oldest first
  pub sent : List (List ℕ)
  -- how often `close` was called on the channel
  pub closes : ℕ
  -- `onmessage` of the channel is `_recvMessage`, and not the empty handler
  pub listening : Bool
  pub event_handlers : EventHandlers

abbrev pub max_rq_grow_size : ℕ
max_rq_grow_size = 40 * 1024 * 1024

-- `new Websock()`; the queues are not allocated yet.
unfoldable pub new : Websock
new = record {
  channel = none;
  r_q = [];
  r_qi = 0;
  r_qlen = 0;
  r_qbuffer_size = 1024 * 1024 * 4;
  s_q = [];
  s_qlen = 0;
  s_qbuffer_size = 1024 * 10;
  sent = [];
  closes = 0;
  listening = false;
  event_handlers = record {
    message_handler = 0;
    open_handler = 0;
    close_handler = 0;
    error_handler = 0;
  };
}

unfoldable pub ready_state : Websock → ReadyState
ready_state ws = elim (ws.channel) [
  | none ↦ unused
  | some raw_connecting ↦ connecting
  | some raw_open ↦ open_state
  | some raw_closing ↦ closing
  | some raw_closed ↦ closed
  | some raw_other ↦ unknown
]

abbrev pub is_open : ReadyState → Bool
is_open open_state = true
is_open _ = false

abbrev pub is_connecting : ReadyState → Bool
is_connecting connecting = true
is_connecting _ = false

-- `init` allocates both queues; `_rQlen` and `_sQlen` are left as they are.
unfoldable pub init : Websock → Websock
init ws = record ws {
  r_q = replicate ws.r_qbuffer_size 0;
  s_q = replicate ws.s_qbuffer_size 0;
  r_qi = 0;
  channel = none;
  listening = false;
}

-- `attach`, for a channel that has every property that it must have; nothing was sent on it.
unfoldable pub attach : RawState → Websock → Websock
unfolding init
attach raw ws = record (init ws) { channel = some raw; sent = []; closes = 0; listening = true }

-- `open`: the browser's new channel is connecting.
unfoldable pub open_channel : Websock → Websock
unfolding attach
open_channel ws = attach raw_connecting ws

unfoldable pub on : EventName → ℕ → Websock → Websock
on message_event handler ws = record ws {
  event_handlers = record ws.event_handlers { message_handler = handler };
}
on open_event handler ws = record ws {
  event_handlers = record ws.event_handlers { open_handler = handler };
}
on close_event handler ws = record ws {
  event_handlers = record ws.event_handlers { close_handler = handler };
}
on error_event handler ws = record ws {
  event_handlers = record ws.event_handlers { error_handler = handler };
}

unfoldable pub off : EventName → Websock → Websock
unfolding on
off evt ws = on evt 0 ws

unfoldable pub close : Websock → Websock
unfolding ready_state
close ws =
    if is_connecting (ready_state ws) || is_open (ready_state ws)
    then record ws { closes = ws.closes + 1; listening = false }
    else record ws { listening = false }

-- A read out of range is `undefined`, which a shift takes for 0.
unfoldable pub r_qpeek8 : Websock → ℕ
r_qpeek8 ws = get_or ws.r_q ws.r_qi 0

unfoldable pub r_qskip_bytes : ℕ → Websock → Websock
r_qskip_bytes bytes ws = record ws { r_qi = ws.r_qi + bytes }

-- The loop of `_rQshift` with `left` bytes to go. Signed and unsigned 32-bit values are told apart
-- by no more than a multiple of 2 ^ 32, which the final `>>> 0` takes away.
unfoldable pub r_qshift_from : ℕ → ℕ → Websock → ℕ × Websock
r_qshift_from zero res ws = (res % 2 ^ 32, ws)
r_qshift_from (suc byte) res ws =
    r_qshift_from byte (res + get_or ws.r_q ws.r_qi 0 * 2 ^ (byte * 8) % 2 ^ 32)
      (record ws { r_qi = ws.r_qi + 1 })

unfoldable pub r_qshift : ℕ → Websock → ℕ × Websock
unfolding r_qshift_from
r_qshift bytes ws = r_qshift_from bytes 0 ws

unfoldable pub r_qshift8 : Websock → ℕ × Websock
unfolding r_qshift
r_qshift8 = r_qshift 1

unfoldable pub r_qshift16 : Websock → ℕ × Websock
unfolding r_qshift
r_qshift16 = r_qshift 2

unfoldable pub r_qshift32 : Websock → ℕ × Websock
unfolding r_qshift
r_qshift32 = r_qshift 4

-- The bytes returned are a copy or a view; a view is of bytes that are read already.
unfoldable pub r_qshift_bytes : ℕ → Websock → List ℕ × Websock
r_qshift_bytes len ws = (slice ws.r_q ws.r_qi (ws.r_qi + len), record ws { r_qi = ws.r_qi + len })

-- The loop of `rQshiftStr`, on fuel: the string so far, and the rounds of at most 4096 characters.
unfoldable pub r_qshift_str_from : ℕ → ℕ → ℕ → List ℕ → Websock → List ℕ × Websock
unfolding r_qshift_bytes
r_qshift_str_from zero len i str ws = (str, ws)
r_qshift_str_from (suc fuel) len i str ws =
    let (part, ws') = r_qshift_bytes (if leb 4096 (len - i) then 4096 else len - i) ws in
    let rest = r_qshift_str_from fuel len (i + 4096) (str ++ part) ws' in
    if ltb i len then rest else (str, ws)

-- One round for each 4096 characters begun, and one that ends the loop.
unfoldable pub r_qshift_str : ℕ → Websock → List ℕ × Websock
unfolding r_qshift_str_from
r_qshift_str len ws = r_qshift_str_from (len + 1) len 0 [] ws

-- The target with the bytes at its front. `none` is a RangeError: of the view on the array, whose bytes
-- need not have been received, or of the target.
unfoldable pub r_qshift_to : List ℕ → ℕ → Websock → Option (List ℕ × Websock)
r_qshift_to target len ws =
    if leb (ws.r_qi + len) (length ws.r_q) && leb len (length target)
    then some
        (splice target 0 (slice ws.r_q ws.r_qi (ws.r_qi + len)), record ws { r_qi = ws.r_qi + len })
    else none

unfoldable pub r_qpeek_bytes : ℕ → Websock → List ℕ
r_qpeek_bytes len ws = slice ws.r_q ws.r_qi (ws.r_qi + len)

pub data Waiting : Type 0 where
  -- the Boolean that `rQwait` returns
  waits : Bool → Waiting
  cannot_backup : Waiting

unfoldable pub r_qwait : ℕ → ℕ → Websock → Waiting × Websock
r_qwait num goback ws =
    if ltb ws.r_qlen (ws.r_qi + num)
    then if goback == 0
      then (waits true, ws)
      else if ltb ws.r_qi goback
      then (cannot_backup, ws)
      else (waits true, record ws { r_qi = ws.r_qi - goback })
    else (waits false, ws)

-- `requiredBufferSize` of `_expandCompactRQ`
abbrev pub required_buffer_size : ℕ → Websock → ℕ
required_buffer_size min_fit ws = (ws.r_qlen - ws.r_qi + min_fit) * 8

-- "Make sure we always *at least* double the buffer size"
unfoldable pub grown_size : ℕ → Websock → ℕ
grown_size min_fit ws =
    if ltb ws.r_qbuffer_size (required_buffer_size min_fit ws)
    then max (ws.r_qbuffer_size * 2) (required_buffer_size min_fit ws)
    else ws.r_qbuffer_size

-- "we don't want to grow unboundedly"
unfoldable pub limited_size : ℕ → ℕ
limited_size size = if ltb max_rq_grow_size size then max_rq_grow_size else size

-- The unread bytes moved to the front of a new array of that size, or of the old one.
unfoldable pub move_unread : ℕ → Bool → Websock → Websock
move_unread size resize_needed ws =
    let unread = slice ws.r_q ws.r_qi ws.r_qlen in
    let target = if resize_needed then replicate size 0 else ws.r_q in
    record ws {
      r_q = splice target 0 unread;
      r_qi = 0;
      r_qlen = ws.r_qlen - ws.r_qi;
      r_qbuffer_size = size;
    }

-- Whether `_expandCompactRQ` returned; `false` is its error, which leaves the new size behind.
unfoldable pub expand_compact_rq : ℕ → Websock → Bool × Websock
unfolding grown_size limited_size move_unread
expand_compact_rq min_fit ws =
    let grown = grown_size min_fit ws in
    let size = limited_size grown in
    if ltb max_rq_grow_size grown && ltb size (ws.r_qlen - ws.r_qi + min_fit)
    then (false, record ws { r_qbuffer_size = size })
    else (true, move_unread size (ltb ws.r_qbuffer_size (required_buffer_size min_fit ws)) ws)

pub data Received : Type 0 where
  -- `message_handler` was called
  notified : Received
  -- "Ignoring empty message"
  ignored : Received
  -- the error of `_expandCompactRQ`
  exceeded : Received
  -- the error of a `set` past the end of the array
  range_error : Received

-- `_rQ.set(u8, _rQlen)` and the lines below it.
unfoldable pub recv_store : List ℕ → Websock → Received × Websock
recv_store u8 ws = if ltb (length ws.r_q) (ws.r_qlen + length u8) then (range_error, ws) else (
  if ltb ws.r_qi (ws.r_qlen + length u8) then notified else ignored,
  record ws { r_q = splice ws.r_q ws.r_qlen u8; r_qlen = ws.r_qlen + length u8 },
)

-- "All data has now been processed, this means we can reset the receive queue."
unfoldable pub recv_reset : Websock → Websock
recv_reset ws = if ws.r_qlen == ws.r_qi then record ws { r_qi = 0; r_qlen = 0 } else ws

unfoldable pub recv_message : List ℕ → Websock → Received × Websock
unfolding recv_reset recv_store expand_compact_rq
recv_message u8 ws =
    let ws1 = recv_reset ws in
    let (fits, ws2) = expand_compact_rq (length u8) ws1 in
    if ltb ws1.r_qbuffer_size (ws1.r_qlen + length u8)
    then if fits then recv_store u8 ws2 else (exceeded, ws2)
    else recv_store u8 ws1
