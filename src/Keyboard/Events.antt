-- ===== src/Keyboard/Events.antt =====
-- The handlers of keyboard.js, and runs of them.
use warpyard.Base.{
  ◌-◌, Bool, true, false, not, ◌&&◌, ◌||◌, Option, none, some, List, [], ◌∷◌, ltb, ◌==◌,
  if◌then◌else◌,
}
use warpyard.Keyboard.{
  Browser, Code, DomEvent, KeyList, Keyboard, Keysym, alt_right, caps_lock, control_left, get,
  is_some, meta_left, meta_right, press_and_release, send_key_event, shift_left, shift_right,
  unidentified, xk_caps_lock, xk_control_l, xk_iso_level3_shift,
}

-- "so shuffle the keys around a bit"
unfoldable pub shuffle : Keysym → Keysym
shuffle none = none
shuffle (some k) =
    if k == 0xffeb
    then some 0xffe9
    else if k == 0xffec
    then some 0xffeb
    else if k == 0xffe9
    then some 0xff7e
    else if k == 0xffea
    then some 0xfe03
    else some k

unfoldable pub is_jp_bad_key : Keysym → Bool
is_jp_bad_key none = false
is_jp_bad_key (some k) =
    k == 0xff2a || (k == 0xff30 || (k == 0xff26 || (k == 0xff25 || k == 0xff24)))

-- The end of a possible AltGr sequence: the keysym to go on with.
unfoldable pub end_alt_gr : DomEvent → Option Bool → Option Bool → Keyboard → Keysym × Keyboard
unfolding send_key_event
end_alt_gr e numlock capslock kb =
    let disarmed = record kb { alt_gr_armed = false; timer = false } in
    if kb.alt_gr_armed
    then if e.code == alt_right && ltb (e.time_stamp - kb.alt_gr_ctrl_time) 50
      then (xk_iso_level3_shift, disarmed)
      else (e.keysym, send_key_event xk_control_l control_left true numlock capslock disarmed)
    else (e.keysym, kb)

-- The keysym that the key was pressed with, if it is held.
abbrev pub held_or : KeyList → Code → Keysym → Keysym
held_or keys code keysym = elim (get keys code) [ none ↦ keysym | some k ↦ k ]

-- What is below the test for 'Unidentified', at the keysym that the key has by then.
unfoldable pub press : Browser → DomEvent → Keysym → Option Bool → Option Bool → Keyboard → Keyboard
unfolding press_and_release is_jp_bad_key send_key_event
press b e keysym numlock capslock kb =
    if b.mac && (e.meta_key && (not (e.code == meta_left) && not (e.code == meta_right)))
    then press_and_release keysym e.code numlock capslock kb
    else if b.mac && e.code == caps_lock
    then press_and_release xk_caps_lock caps_lock numlock capslock kb
    else if b.windows && is_jp_bad_key keysym
    then press_and_release keysym e.code numlock capslock kb
    else if e.code == control_left
        && (b.windows && not (is_some (get kb.key_down_list control_left)))
    then record kb { alt_gr_armed = true; timer = true; alt_gr_ctrl_time = e.time_stamp }
    else send_key_event keysym e.code true numlock capslock kb

unfoldable pub handle_key_down : Browser → DomEvent → Keyboard → Keyboard
unfolding end_alt_gr press_and_release shuffle press
handle_key_down b e kb0 =
    let numlock = if b.mac then none else some e.numlock in
    let capslock = some e.capslock in
    let (keysym, kb) = end_alt_gr e numlock capslock kb0 in
    if e.code == unidentified
    then if is_some keysym then press_and_release keysym e.code numlock capslock kb else kb
    else press b e (held_or kb.key_down_list e.code (if b.mac then shuffle keysym else keysym))
        numlock capslock kb

-- A release of a key with the keysym that it was pressed with; `undefined` is `none`.
unfoldable pub release : Code → Keyboard → Keyboard
unfolding send_key_event
release code kb = send_key_event (held_or kb.key_down_list code none) code false none none kb

unfoldable pub handle_alt_gr_timeout : Keyboard → Keyboard
unfolding send_key_event
handle_alt_gr_timeout kb =
    send_key_event xk_control_l control_left true none none
      (record kb { alt_gr_armed = false; timer = false })

-- "Windows has a rather nasty bug"
unfoldable pub release_shifts : Browser → Code → Keyboard → Keyboard
unfolding release
release_shifts b code kb =
    if b.windows && (code == shift_left || code == shift_right)
    then release shift_left (release shift_right kb)
    else kb

unfoldable pub handle_key_up : Browser → DomEvent → Keyboard → Keyboard
unfolding handle_alt_gr_timeout press_and_release release release_shifts
handle_key_up b e kb0 =
    let kb = if kb0.alt_gr_armed then handle_alt_gr_timeout kb0 else kb0 in
    if b.mac && e.code == caps_lock
    then press_and_release xk_caps_lock caps_lock none none kb
    else release_shifts b e.code (release e.code kb)

-- The loop of `_allKeysUp` over the codes that are in the list when it begins.
unfoldable pub release_each : KeyList → Keyboard → Keyboard
unfolding release
release_each [] kb = kb
release_each ((code, k) ∷ keys) kb = release_each keys (release code kb)

unfoldable pub all_keys_up : Keyboard → Keyboard
unfolding release_each
all_keys_up kb = release_each kb.key_down_list kb

-- What happens to a keyboard.
pub data Event : Type 0 where
  keydown keyup : DomEvent → Event
  -- the timer has run out
  timeout : Event
  -- the window has lost the focus, or `ungrab` is called
  blur : Event

unfoldable pub step : Browser → Event → Keyboard → Keyboard
unfolding handle_key_down handle_key_up handle_alt_gr_timeout all_keys_up
step b (keydown e) kb = handle_key_down b e kb
step b (keyup e) kb = handle_key_up b e kb
step b timeout kb = if kb.timer then handle_alt_gr_timeout kb else kb
step b blur kb = all_keys_up kb

unfoldable pub run : Browser → List Event → Keyboard → Keyboard
unfolding step
run b [] kb = kb
run b (e ∷ es) kb = run b es (step b e kb)
