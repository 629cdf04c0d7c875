-- ===== src/Connection.antt =====
-- The life of a connection in app/static/novnc/core/rfb.js: `_updateConnectionState`, `_fail`, and what
-- calls them. Messages that are logged are left out, and of the page only what the states touch.
pub mod Leads
pub mod Order
pub mod End
mod Tests
use warpyard.Base.{
  ℕ, ◌+◌, Bool, true, false, not, ◌&&◌, ◌||◌, Option, none, some, List, [], ◌∷◌, ◌++◌,
  if◌then◌else◌,
}
use warpyard.Websock.{RawState, raw_open, raw_closed, raw_connecting, raw_closing, raw_other}

-- `_rfbConnectionState`; `initial` is the empty string.
pub data ConnectionState : Type 0 where
  initial connecting connected disconnecting disconnected : ConnectionState

-- `_rfbInitState`, of which only the first step is taken here.
pub data InitState : Type 0 where
  not_started protocol_version : InitState

-- The events that the page is told.
pub data Notice : Type 0 where
  connect : Notice
  -- with `clean`
  disconnect : Bool → Notice

-- What `_connect` is given: a URL, or a channel in some state.
pub data Target : Type 0 where
  url : Target
  raw_channel : RawState → Target

pub record Rfb : Type 0 where
  pub target : Target
  -- `_rfbConnectionState`, and the values that it had before, the last one first
  pub connection_state : ConnectionState
  pub visited : List ConnectionState
  pub init_state : InitState
  pub clean_disconnect : Bool
  -- `_disconnTimer` is running
  pub disconn_timer : Bool
  -- `_sock` has `_socketClose` for its close event
  pub on_close : Bool
  -- and `_socketOpen` for its open event
  pub on_open : Bool
  pub notices : List Notice
  -- how often the page was attached and detached, and whether `_connect` threw its error
  pub attached : ℕ
  pub detached : ℕ
  pub threw : Bool

abbrev pub new : Target → Rfb
new target = record {
  target = target;
  connection_state = initial;
  visited = [];
  init_state = not_started;
  clean_disconnect = true;
  disconn_timer = false;
  on_close = true;
  on_open = true;
  notices = [];
  attached = 0;
  detached = 0;
  threw = false;
}

-- "Ensure proper transitions before doing anything", and the two tests above it.
unfoldable pub is_proper : ConnectionState → ConnectionState → Bool
is_proper connecting connected = true
is_proper disconnecting disconnected = true
is_proper initial connecting = true
is_proper connected disconnecting = true
is_proper connecting disconnecting = true
is_proper _ _ = false

-- `this._rfbConnectionState = state`
abbrev pub enter : ConnectionState → Rfb → Rfb
enter state r = record r { connection_state = state; visited = r.connection_state ∷ r.visited }

-- "Clearing disconnect timer"
unfoldable pub clear_timer : Rfb → Rfb
clear_timer r = if r.disconn_timer then record r { disconn_timer = false; on_close = false } else r

-- `dispatchEvent`
abbrev pub notify : Notice → Rfb → Rfb
notify n r = record r { notices = r.notices ++ (n ∷ []) }

-- `_disconnect`
unfoldable pub detach : Rfb → Rfb
detach r = record r { detached = r.detached + 1 }

-- `_updateConnectionState('disconnecting')`
unfoldable pub to_disconnecting : Rfb → Rfb
unfolding is_proper detach
to_disconnecting r =
    if is_proper r.connection_state disconnecting
    then record (enter disconnecting (detach r)) { disconn_timer = true }
    else r

-- `_updateConnectionState('disconnected')`
unfoldable pub to_disconnected : Rfb → Rfb
unfolding is_proper clear_timer
to_disconnected r =
    if is_proper r.connection_state disconnected
    then notify (disconnect r.clean_disconnect) (clear_timer (enter disconnected r))
    else r

-- `_updateConnectionState('connected')`
unfoldable pub to_connected : Rfb → Rfb
unfolding is_proper clear_timer
to_connected r =
    if is_proper r.connection_state connected
    then notify (connect) (clear_timer (enter connected r))
    else r

unfoldable pub fail : Rfb → Rfb
unfolding to_disconnected to_disconnecting
fail r = to_disconnected (to_disconnecting (record r { clean_disconnect = false }))

unfoldable pub socket_open : Rfb → Rfb
unfolding fail
socket_open r = elim (r.connection_state) [
  | connecting ↦ elim (r.init_state) [
    | not_started ↦ record r { init_state = protocol_version }
    | protocol_version ↦ fail r
  ]
  | initial ↦ fail r
  | connected ↦ fail r
  | disconnecting ↦ fail r
  | disconnected ↦ fail r
]

abbrev attach_page : Rfb → Rfb
attach_page r = record r { attached = r.attached + 1 }

-- `_connect`
unfoldable pub connect_to : Rfb → Rfb
unfolding socket_open
connect_to r = elim (r.target) [
  | url ↦ attach_page r
  | raw_channel raw_closed ↦ record r { threw = true }
  | raw_channel raw_open ↦ attach_page (socket_open r)
  | raw_channel raw_connecting ↦ attach_page r
  | raw_channel raw_closing ↦ attach_page r
  | raw_channel raw_other ↦ attach_page r
]

-- `_updateConnectionState('connecting')`
unfoldable pub to_connecting : Rfb → Rfb
unfolding is_proper clear_timer connect_to
to_connecting r =
    if is_proper r.connection_state connecting
    then connect_to (clear_timer (enter connecting r))
    else r

unfoldable pub update_connection_state : ConnectionState → Rfb → Rfb
unfolding to_connecting to_connected to_disconnecting to_disconnected
update_connection_state connecting r = to_connecting r
update_connection_state connected r = to_connected r
update_connection_state disconnecting r = to_disconnecting r
update_connection_state disconnected r = to_disconnected r
update_connection_state initial r = r

unfoldable pub socket_close : Rfb → Rfb
unfolding fail
socket_close r =
    let closed : Rfb = elim (r.connection_state) [
      | connecting ↦ fail r
      | connected ↦ to_disconnected (to_disconnecting r)
      | disconnecting ↦ to_disconnected r
      | disconnected ↦ fail r
      | initial ↦ fail r
    ] in
    record closed { on_close = false }

-- `disconnect`, the method of the page
unfoldable pub ask_disconnect : Rfb → Rfb
unfolding to_disconnecting
ask_disconnect r = record (to_disconnecting r) { on_open = false }

-- What happens to a connection.
pub data Event : Type 0 where
  -- the constructor goes on; the handshake is finished
  start negotiated : Event
  -- the socket opens, and closes
  opened closed : Event
  -- a handler finds an error
  failed : Event
  -- the page asks for it; the timer runs out
  asked timed_out : Event

unfoldable pub step : Event → Rfb → Rfb
unfolding update_connection_state socket_open socket_close fail ask_disconnect
step start r = update_connection_state connecting r
step negotiated r = update_connection_state connected r
step opened r = if r.on_open then socket_open r else r
step closed r = if r.on_close then socket_close r else r
step failed r = fail r
step asked r = ask_disconnect r
step timed_out r = if r.disconn_timer then update_connection_state disconnected r else r

unfoldable pub run : List Event → Rfb → Rfb
unfolding step
run [] r = r
run (e ∷ es) r = run es (step e r)
