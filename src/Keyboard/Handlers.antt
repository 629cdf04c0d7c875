-- ===== src/Keyboard/Handlers.antt =====
-- Every handler of keyboard.js against the keys that the server holds.
use warpyard.Base.{
  ℕ, ◌-◌, Bool, true, false, not, ◌&&◌, ◌||◌, Option, none, some, List, [], ◌∷◌, ◌≡◌, refl, sym,
  subst, ◌∙◌, ◌⊎◌, inl, inr, arith, ltb, ◌==◌, ==_iff, if◌then◌else◌, Bool-cases, if_intro,
}
use warpyard.Keyboard.{
  Code, Keysym, unidentified, control_left, alt_right, shift_left, shift_right, caps_lock,
  meta_left, meta_right, xk_control_l, xk_caps_lock, Browser, DomEvent, KeyList, get, is_some,
  Keyboard, new, send_key_event,
}
use warpyard.Keyboard.Events.{
  is_jp_bad_key, end_alt_gr, press, handle_key_down, release, release_shifts, handle_alt_gr_timeout,
  handle_key_up, release_each, all_keys_up, Event, keydown, keyup, timeout, blur, step, run,
  shuffle,
}
use warpyard.Keyboard.Server.{accept_all, is_transient, IsGood, held_or_cases}
use warpyard.Keyboard.Accepts.{
  send_down-IsGood, press_and_release-IsGood, release-IsGood, send_same,
}

abbrev disarm : Keyboard → Keyboard
disarm kb = record kb { alt_gr_armed = false; timer = false }

transient_less :
    (b : Browser) (armed : Bool) (c : Code)
    → is_transient b false c ≡ true
    → is_transient b armed c ≡ true
transient_less b armed c h = ground arith

disarm-IsGood : (b : Browser) (kb : Keyboard) → IsGood b kb → IsGood b (disarm kb)
disarm-IsGood b kb g = record {
  held = g.held;
  free = λ c h. g.free c (transient_less b kb.alt_gr_armed c h);
  timed = refl;
}

-- While the detection is on, the left Control key is not held.
control_free :
    (b : Browser) (kb : Keyboard)
    → IsGood b kb
    → kb.alt_gr_armed ≡ true
    → get kb.key_down_list control_left ≡ none
control_free b kb g h = g.free control_left (rw h (ground arith))

control_down-IsGood :
    (b : Browser) (kb : Keyboard) (nl cl : Option Bool)
    → IsGood b kb
    → kb.alt_gr_armed ≡ true
    → IsGood b (send_key_event xk_control_l control_left true nl cl (disarm kb))
control_down-IsGood b kb nl cl g h =
    send_down-IsGood b (disarm kb) xk_control_l control_left nl cl (disarm-IsGood b kb g)
      (ground arith) (inl (control_free b kb g h))

timeout-IsGood :
    (b : Browser) (kb : Keyboard)
    → IsGood b kb
    → kb.alt_gr_armed ≡ true
    → IsGood b (handle_alt_gr_timeout kb)
unfolding handle_alt_gr_timeout
timeout-IsGood b kb g h = control_down-IsGood b kb none none g h

record Ended (b : Browser) (out : Keysym × Keyboard) : Type 0 where
  good : IsGood b out.1
  off : out.1.alt_gr_armed ≡ false

end_alt_gr-Ended :
    (b : Browser) (e : DomEvent) (nl cl : Option Bool) (kb : Keyboard)
    → IsGood b kb
    → Ended b (end_alt_gr e nl cl kb)
unfolding end_alt_gr
end_alt_gr-Ended b e nl cl kb g =
    if_intro (Ended b) kb.alt_gr_armed
      (λ a.
        if_intro (Ended b) (e.code == alt_right && ltb (e.time_stamp - kb.alt_gr_ctrl_time) 50)
          (λ k. record { good = disarm-IsGood b kb g; off = refl })
          (λ k. record {
            good = control_down-IsGood b kb nl cl g a;
            off = (send_same (disarm kb) xk_control_l control_left true nl cl).1;
          }))
      (λ a. record { good = g; off = a })

arm-IsGood :
    (b : Browser) (kb : Keyboard) (time : ℕ)
    → IsGood b kb
    → get kb.key_down_list control_left ≡ none
    → IsGood b (record kb { alt_gr_armed = true; timer = true; alt_gr_ctrl_time = time })
arm-IsGood b kb time g h = record {
  held = g.held;
  free = λ c t. elim (Bool-cases (c == control_left)) [
    | inl k ↦ subst (λ d. get kb.key_down_list d ≡ none) (sym ((==_iff c control_left).0 k)) h
    | inr k ↦ g.free c (ground arith)
  ];
  timed = refl;
}

press-IsGood :
    (b : Browser) (e : DomEvent) (keysym : Keysym) (nl cl : Option Bool) (kb : Keyboard)
    → IsGood b kb
    → kb.alt_gr_armed ≡ false
    → (e.code == unidentified) ≡ false
    → (get kb.key_down_list e.code ≡ none) ⊎ (get kb.key_down_list e.code ≡ some keysym)
    → IsGood b (press b e keysym nl cl kb)
unfolding press
press-IsGood b e keysym nl cl kb g off known k =
    if_intro (IsGood b)
      (b.mac && (e.meta_key && (not (e.code == meta_left) && not (e.code == meta_right))))
      (λ t. press_and_release-IsGood b kb keysym e.code nl cl g k)
      (λ t.
        if_intro (IsGood b) (b.mac && e.code == caps_lock)
          (λ c.
            press_and_release-IsGood b kb xk_caps_lock caps_lock nl cl g
              (inl (g.free caps_lock (ground (arith, c)))))
          (λ c.
            if_intro (IsGood b) (b.windows && is_jp_bad_key keysym)
              (λ j. press_and_release-IsGood b kb keysym e.code nl cl g k)
              (λ j.
                if_intro (IsGood b)
                  (e.code == control_left
                    && (b.windows && not (is_some (get kb.key_down_list control_left))))
                  (λ a.
                    arm-IsGood b kb e.time_stamp g
                      (not_held (get kb.key_down_list control_left) (ground arith)))
                  (λ a. send_down-IsGood b kb keysym e.code nl cl g (rw off (ground arith)) k))))
  where
    not_held : (o : Option Keysym) → is_some o ≡ false → o ≡ none
    not_held none h = refl
    not_held (some j) h = absurd (cc h)

handle_key_down-IsGood :
    (b : Browser) (e : DomEvent) (kb : Keyboard) → IsGood b kb → IsGood b (handle_key_down b e kb)
unfolding handle_key_down
handle_key_down-IsGood b e kb g =
    if_intro (IsGood b) (e.code == unidentified)
      (λ u.
        if_intro (IsGood b) (is_some ended.0)
          (λ s.
            press_and_release-IsGood b ended.1 ended.0 e.code nl cl done.good
              (inl (done.good.free e.code (ground arith))))
          (λ s. done.good))
      (λ u.
        press-IsGood b e _ nl cl ended.1 done.good done.off u
          (held_or_cases ended.1.key_down_list e.code (if b.mac then shuffle ended.0 else ended.0)))
  where
    nl : Option Bool
    nl = if b.mac then none else some e.numlock

    cl : Option Bool
    cl = some e.capslock

    ended : Keysym × Keyboard
    ended = end_alt_gr e nl cl kb

    done : Ended b ended
    done = end_alt_gr-Ended b e nl cl kb g

release_shifts-IsGood :
    (b : Browser) (code : Code) (kb : Keyboard) → IsGood b kb → IsGood b (release_shifts b code kb)
unfolding release_shifts
release_shifts-IsGood b code kb g =
    if_intro (IsGood b) (b.windows && (code == shift_left || code == shift_right))
      (λ h.
        release-IsGood b shift_left (release shift_right kb) (release-IsGood b shift_right kb g))
      (λ h. g)

handle_key_up-IsGood :
    (b : Browser) (e : DomEvent) (kb : Keyboard) → IsGood b kb → IsGood b (handle_key_up b e kb)
unfolding handle_key_up
handle_key_up-IsGood b e kb0 g =
    if_intro (IsGood b) (b.mac && e.code == caps_lock)
      (λ c.
        press_and_release-IsGood b kb xk_caps_lock caps_lock none none good
          (inl (good.free caps_lock (ground (arith, c)))))
      (λ c. release_shifts-IsGood b e.code (release e.code kb) (release-IsGood b e.code kb good))
  where
    kb : Keyboard
    kb = if kb0.alt_gr_armed then handle_alt_gr_timeout kb0 else kb0

    good : IsGood b kb
    good = if_intro (IsGood b) kb0.alt_gr_armed (λ a. timeout-IsGood b kb0 g a) (λ a. g)

release_each-IsGood :
    (b : Browser) (keys : KeyList) (kb : Keyboard) → IsGood b kb → IsGood b (release_each keys kb)
unfolding release_each
release_each-IsGood b [] kb g = g
release_each-IsGood b ((code, k) ∷ keys) kb g =
    release_each-IsGood b keys (release code kb) (release-IsGood b code kb g)

step-IsGood : (b : Browser) (e : Event) (kb : Keyboard) → IsGood b kb → IsGood b (step b e kb)
unfolding step
step-IsGood b (keydown e) kb g = handle_key_down-IsGood b e kb g
step-IsGood b (keyup e) kb g = handle_key_up-IsGood b e kb g
step-IsGood b timeout kb g =
    if_intro (IsGood b) kb.timer (λ t. timeout-IsGood b kb g (sym g.timed ∙ t)) (λ t. g)
step-IsGood b blur kb g = unfold all_keys_up in release_each-IsGood b kb.key_down_list kb g

new-IsGood : (b : Browser) → IsGood b new
new-IsGood b = record { held = unfold accept_all in refl; free = λ c h. refl; timed = refl }

run-IsGood : (b : Browser) (es : List Event) (kb : Keyboard) → IsGood b kb → IsGood b (run b es kb)
unfolding run
run-IsGood b [] kb g = g
run-IsGood b (e ∷ es) kb g = run-IsGood b es (step b e kb) (step-IsGood b e kb g)

-- Whatever the browser, and whatever DOM events, timers and losses of focus come in whatever order, the
-- server accepts every key event that the keyboard sends, and holds down exactly the keys of
-- `_keyDownList`, each with the keysym listed: no key is released that was not pressed, and none is
-- pressed twice, or released, with another keysym than it is held with.
pub run-held :
    (b : Browser) (es : List Event)
    → accept_all (some []) (run b es new).sent ≡ some (run b es new).key_down_list
run-held b es = (run-IsGood b es new (new-IsGood b)).held
