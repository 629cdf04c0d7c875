-- ===== src/Keyboard.antt =====
-- The class `Keyboard` of app/static/novnc/core/input/keyboard.js. A key code, a string, is a number
-- that identifies it; the calls of `onkeyevent` are listed, the oldest first.
pub mod Events
pub mod Accepts
pub mod Server
pub mod Handlers
pub mod Release
pub mod Blur
mod Tests
use warpyard.Base.{
  ℕ, ◌-◌, Bool, true, false, not, ◌&&◌, ◌||◌, Option, none, some, List, [], ◌∷◌, ◌++◌, ltb, ◌==◌,
  if◌then◌else◌,
}

abbrev pub Code : Type 0
Code = ℕ

-- `null` is `none`.
abbrev pub Keysym : Type 0
Keysym = Option ℕ

abbrev pub unidentified : Code
unidentified = 0

abbrev pub control_left : Code
control_left = 1

abbrev pub alt_right : Code
alt_right = 2

abbrev pub shift_left : Code
shift_left = 3

abbrev pub shift_right : Code
shift_right = 4

abbrev pub meta_left : Code
meta_left = 5

abbrev pub meta_right : Code
meta_right = 6

abbrev pub caps_lock : Code
caps_lock = 7

-- `KeyTable`
abbrev pub xk_control_l : Keysym
xk_control_l = some 0xffe3

abbrev pub xk_caps_lock : Keysym
xk_caps_lock = some 0xffe5

abbrev pub xk_iso_level3_shift : Keysym
xk_iso_level3_shift = some 0xfe03

-- What the browser says of itself: macOS or iOS, and Windows.
pub record Browser : Type 0 where
  pub mac : Bool
  pub windows : Bool

-- A DOM event, with what `_getKeyCode` and `getKeysym` make of it.
pub record DomEvent : Type 0 where
  pub code : Code
  pub keysym : Keysym
  pub numlock : Bool
  pub capslock : Bool
  pub meta_key : Bool
  pub time_stamp : ℕ

-- The arguments of `onkeyevent`.
pub record KeyEvent : Type 0 where
  pub keysym : Keysym
  pub code : Code
  pub down : Bool
  pub numlock : Option Bool
  pub capslock : Option Bool

-- `_keyDownList`, in the order in which its properties were added.
abbrev pub KeyList : Type 0
KeyList = List (Code × Keysym)

-- `keys[code]`, `none` where the property is missing.
abbrev pub get : KeyList → Code → Option Keysym
get [] code = none
get ((c, k) ∷ keys) code = if c == code then some k else get keys code

abbrev pub put : KeyList → Code → Keysym → KeyList
put [] code keysym = (code, keysym) ∷ []
put ((c, k) ∷ keys) code keysym =
    if c == code then (c, keysym) ∷ keys else (c, k) ∷ put keys code keysym

abbrev pub delete : KeyList → Code → KeyList
delete [] code = []
delete ((c, k) ∷ keys) code = if c == code then delete keys code else (c, k) ∷ delete keys code

abbrev pub is_some : {A : Type 0} → Option A → Bool
is_some none = false
is_some (some a) = true

pub record Keyboard : Type 0 where
  pub key_down_list : KeyList
  pub alt_gr_armed : Bool
  pub alt_gr_ctrl_time : ℕ
  -- the timer of `_altGrTimeout` is running
  pub timer : Bool
  pub sent : List KeyEvent

abbrev pub new : Keyboard
new = record {
  key_down_list = [];
  alt_gr_armed = false;
  alt_gr_ctrl_time = 0;
  timer = false;
  sent = [];
}

abbrev emit : KeyEvent → KeyList → Keyboard → Keyboard
emit e keys kb = record kb { key_down_list = keys; sent = kb.sent ++ (e ∷ []) }

unfoldable pub send_key_event :
    Keysym → Code → Bool → Option Bool → Option Bool → Keyboard → Keyboard
send_key_event keysym code down numlock capslock kb =
    let e : KeyEvent = record {
      keysym = keysym;
      code = code;
      down = down;
      numlock = numlock;
      capslock = capslock;
    } in
    if down
    then emit e (put kb.key_down_list code keysym) kb
    else if is_some (get kb.key_down_list code)
    then emit e (delete kb.key_down_list code) kb
    else kb

-- A press and, right after it, a release.
unfoldable pub press_and_release : Keysym → Code → Option Bool → Option Bool → Keyboard → Keyboard
unfolding send_key_event
press_and_release keysym code numlock capslock kb =
    send_key_event keysym code false numlock capslock
      (send_key_event keysym code true numlock capslock kb)
