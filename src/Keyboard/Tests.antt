-- ===== src/Keyboard/Tests.antt =====
-- Runs of keyboard.js.
use warpyard.Base.{ℕ, true, false, none, some, List, [], ◌∷◌, ◌++◌, ◌≡◌, refl}
use warpyard.Keyboard.{
  Code, Keysym, control_left, alt_right, xk_control_l, xk_iso_level3_shift, Browser, DomEvent, get,
  Keyboard, new,
}
use warpyard.Keyboard.Events.{all_keys_up, Event, keydown, keyup, timeout, blur, run}
use warpyard.Keyboard.Server.{accept_all}
use warpyard.Keyboard.Handlers.{run-held}
use warpyard.Keyboard.Blur.{up, all_keys_up-releases}
use warpyard.Keyboard.Release.{timeout_after_blur, alt_gr_merged}

abbrev windows : Browser
windows = record { mac = false; windows = true }

abbrev key : Code → Keysym → ℕ → DomEvent
key code keysym time = record {
  code = code;
  keysym = keysym;
  numlock = false;
  capslock = false;
  meta_key = false;
  time_stamp = time;
}

abbrev events : List Event
events =
    keydown (key 40 (some 97) 0)
    ∷ keydown (key control_left xk_control_l 5)
    ∷ keydown (key alt_right (some 0xffea) 20)
    ∷ keyup (key 40 (some 65) 30)
    ∷ keydown (key control_left xk_control_l 200)
    ∷ timeout
    ∷ blur
    ∷ []

run-held_example :
    accept_all (some []) (run windows events new).sent ≡ some (run windows events new).key_down_list
run-held_example = run-held windows events

abbrev two_held : Keyboard
two_held = record new {
  key_down_list = (40, some 97) ∷ (41, some 98) ∷ [];
  alt_gr_armed = true;
  timer = true;
}

abbrev typing : List Event
typing = keydown (key 40 (some 97) 0) ∷ keydown (key 41 (some 98) 3) ∷ []

all_keys_up-releases_example :
    let kb = run windows typing new in
    ((all_keys_up kb).sent ≡ kb.sent ++ (up (40, some 97) ∷ up (41, some 98) ∷ []))
    × ((all_keys_up kb).key_down_list ≡ [])
unfolding run
all_keys_up-releases_example = all_keys_up-releases windows typing

timeout_after_blur_example :
    (run windows (blur ∷ timeout ∷ []) two_held).key_down_list ≡ (control_left, xk_control_l) ∷ []
timeout_after_blur_example = timeout_after_blur windows two_held refl

alt_gr_merged_example :
    let out =
      run windows
        (keydown (key control_left xk_control_l 5) ∷ keydown (key alt_right (some 0xffea) 20) ∷ [])
        new in
    (out.sent
      ≡ record {
        keysym = xk_iso_level3_shift;
        code = alt_right;
        down = true;
        numlock = some false;
        capslock = some false;
      }
        ∷ [])
    × (get out.key_down_list control_left ≡ none)
alt_gr_merged_example =
    alt_gr_merged (key control_left xk_control_l 5) (key alt_right (some 0xffea) 20) new refl refl
      refl refl refl refl refl
