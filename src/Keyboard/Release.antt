-- ===== src/Keyboard/Release.antt =====
-- Losing the focus in keyboard.js, and the fake Control key of AltGr on Windows.
use warpyard.Base.{
  ◌-◌, true, false, Option, none, some, [], ◌∷◌, ◌++◌, ◌≡◌, refl, sym, ap, ◌∙◌, inl, inr, arith,
  ltb, ◌==◌, ==_iff, if◌then◌else◌, Bool-cases,
}
use warpyard.Keyboard.{
  Code, Keysym, control_left, alt_right, xk_control_l, xk_iso_level3_shift, Browser, DomEvent,
  KeyList, get, put, is_some, Keyboard, send_key_event,
}
use warpyard.Keyboard.Events.{
  is_jp_bad_key, held_or, end_alt_gr, press, handle_key_down, release, handle_alt_gr_timeout,
  release_each, all_keys_up, keydown, timeout, blur, run,
}
use warpyard.Keyboard.Server.{get-put, get-delete}
use warpyard.Keyboard.Accepts.{send_same}

get-release :
    (code c : Code) (kb : Keyboard)
    → get (release code kb).key_down_list c ≡ (if code == c then none else get kb.key_down_list c)
unfolding release send_key_event
get-release code c kb = elim (Bool-cases (is_some (get kb.key_down_list code))) [
  | inl e ↦ rw e (get-delete kb.key_down_list code c)
  | inr e ↦ rw e (elim (Bool-cases (code == c)) [
    | inl k ↦ rw k (
        missing (get kb.key_down_list c)
          (ap (λ d. is_some (get kb.key_down_list d)) (sym ((==_iff code c).0 k)) ∙ e))
    | inr k ↦ rw k
  ])
]
  where
    missing : (o : Option Keysym) → is_some o ≡ false → o ≡ none
    missing none h = refl
    missing (some j) h = absurd (cc h)

get-release_each :
    (keys : KeyList) (c : Code) (kb : Keyboard)
    → (get keys c ≡ none → get kb.key_down_list c ≡ none)
    → get (release_each keys kb).key_down_list c ≡ none
unfolding release_each
get-release_each [] c kb h = h refl
get-release_each ((code, k) ∷ keys) c kb h =
    get-release_each keys c (release code kb) (λ rest. get-release code c kb ∙ one rest)
  where
    one : get keys c ≡ none → (if code == c then none else get kb.key_down_list c) ≡ none
    one rest = elim (Bool-cases (code == c)) [ inl e ↦ rw e | inr e ↦ rw e (h (rw e rest)) ]

empty_list : (keys : KeyList) → ((c : Code) → get keys c ≡ none) → keys ≡ []
empty_list [] h = refl
empty_list ((code, k) ∷ keys) h =
    let same : (code == code) ≡ true = ground arith in
    absurd (cc (ap (λ b. if b then some k else get keys code) (sym same) ∙ h code))

all_keys_up-nil : (kb : Keyboard) → (all_keys_up kb).key_down_list ≡ []
unfolding all_keys_up
all_keys_up-nil kb =
    empty_list (release_each kb.key_down_list kb).key_down_list
      (λ c. get-release_each kb.key_down_list c kb (λ h. h))

release_each-same :
    (keys : KeyList) (kb : Keyboard)
    → ((release_each keys kb).timer ≡ kb.timer)
      × ((release_each keys kb).alt_gr_armed ≡ kb.alt_gr_armed)
unfolding release_each release
release_each-same [] kb = (refl, refl)
release_each-same ((code, k) ∷ keys) kb =
    let keysym = held_or kb.key_down_list code none in
    let one = send_same kb keysym code false none none in
    let rest = release_each-same keys (release code kb) in (rest.0 ∙ one.0, rest.1 ∙ one.1)

-- The window loses the focus, or the keyboard is ungrabbed, while a press of the left Control key is
-- held back: all keys are released, and then the timer presses the Control key. It stays down.
pub timeout_after_blur :
    (b : Browser) (kb : Keyboard)
    → kb.timer ≡ true
    → (run b (blur ∷ timeout ∷ []) kb).key_down_list ≡ (control_left, xk_control_l) ∷ []
unfolding run
timeout_after_blur b kb t = rw timed (unfold handle_alt_gr_timeout in rw (all_keys_up-nil kb))
  where
    timed : (all_keys_up kb).timer ≡ true
    timed = unfold all_keys_up in (release_each-same kb.key_down_list kb).0 ∙ t

abbrev windows_only : Browser
windows_only = record { mac = false; windows = true }

ctrl_armed :
    (ctrl : DomEvent) (kb : Keyboard)
    → kb.alt_gr_armed ≡ false
    → get kb.key_down_list control_left ≡ none
    → ctrl.code ≡ control_left
    → ctrl.keysym ≡ xk_control_l
    → handle_key_down windows_only ctrl kb
      ≡ record kb { alt_gr_armed = true; timer = true; alt_gr_ctrl_time = ctrl.time_stamp }
unfolding handle_key_down end_alt_gr press is_jp_bad_key
ctrl_armed ctrl kb off free c ck = simp (off, c, ck, free)

alt_sent :
    (alt : DomEvent) (kb : Keyboard)
    → kb.alt_gr_armed ≡ true
    → get kb.key_down_list alt_right ≡ none
    → alt.code ≡ alt_right
    → ltb (alt.time_stamp - kb.alt_gr_ctrl_time) 50 ≡ true
    → handle_key_down windows_only alt kb
      ≡ send_key_event xk_iso_level3_shift alt_right true
          (some alt.numlock)
          (some alt.capslock)
          (record kb { alt_gr_armed = false; timer = false })
unfolding handle_key_down end_alt_gr press is_jp_bad_key
alt_sent alt kb on free a soon = rw (on, a, soon, free)

-- AltGr on Windows: a left Control key that was not held, and less than 50 ms later the right Alt key,
-- with nothing held back before, are sent as one press of AltGr, and the Control key is not sent.
pub alt_gr_merged :
    (ctrl alt : DomEvent) (kb : Keyboard)
    → kb.alt_gr_armed ≡ false
    → get kb.key_down_list control_left ≡ none
    → get kb.key_down_list alt_right ≡ none
    → ctrl.code ≡ control_left
    → ctrl.keysym ≡ xk_control_l
    → alt.code ≡ alt_right
    → ltb (alt.time_stamp - ctrl.time_stamp) 50 ≡ true
    → let out = run (record { mac = false; windows = true }) (keydown ctrl ∷ keydown alt ∷ []) kb in
      (out.sent
        ≡ kb.sent
          ++ (record {
            keysym = xk_iso_level3_shift;
            code = alt_right;
            down = true;
            numlock = some alt.numlock;
            capslock = some alt.capslock;
          }
              ∷ []))
      × (get out.key_down_list control_left ≡ none)
unfolding run
alt_gr_merged ctrl alt kb off free_ctrl free_alt c ck a soon =
    rw (ctrl_armed ctrl kb off free_ctrl c ck, alt_sent alt held_back refl free_alt a soon)
      (unfold send_key_event in (refl, free_after))
  where
    held_back : Keyboard
    held_back = record kb { alt_gr_armed = true; timer = true; alt_gr_ctrl_time = ctrl.time_stamp }

    free_after : get (put kb.key_down_list alt_right xk_iso_level3_shift) control_left ≡ none
    free_after = get-put kb.key_down_list alt_right control_left xk_iso_level3_shift ∙ free_ctrl
