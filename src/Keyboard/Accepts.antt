-- ===== src/Keyboard/Accepts.antt =====
-- A press and a release that keyboard.js sends, at the server.
use warpyard.Base.{
  Bool, true, false, Option, none, some, [], ◌≡◌, refl, sym, ap, subst, ◌∙◌, ◌⊎◌, inl, inr, arith,
  ◌==◌, ==_iff, Bool-cases,
}
use warpyard.Keyboard.{
  Code, Keysym, Browser, KeyEvent, KeyList, get, put, delete, is_some, Keyboard, send_key_event,
  press_and_release,
}
use warpyard.Keyboard.Events.{held_or, release}
use warpyard.Keyboard.Server.{
  IsGood, accept, accept_all, accept_all-snoc, get-delete, get-put, held_or_cases, is_transient,
  same_keysym, same_keysym_refl, then_accept,
}

same_held :
    (held : KeyList) (c : Code) (k : Keysym)
    → (get held c ≡ none) ⊎ (get held c ≡ some k)
    → same_keysym (held_or held c k) k ≡ true
same_held held c k (inl h) =
    ap (λ (o : Option Keysym). same_keysym (elim o [ none ↦ k | some j ↦ j ]) k) h
    ∙ same_keysym_refl k
same_held held c k (inr h) =
    ap (λ (o : Option Keysym). same_keysym (elim o [ none ↦ k | some j ↦ j ]) k) h
    ∙ same_keysym_refl k

accept_down :
    (held : KeyList) (e : KeyEvent)
    → e.down ≡ true
    → (get held e.code ≡ none) ⊎ (get held e.code ≡ some e.keysym)
    → accept e held ≡ some (put held e.code e.keysym)
unfolding accept
accept_down held e d h = rw (d, same_held held e.code e.keysym h)

accept_up :
    (held : KeyList) (e : KeyEvent)
    → e.down ≡ false
    → get held e.code ≡ some e.keysym
    → accept e held ≡ some (delete held e.code)
unfolding accept
accept_up held e d h = rw (d, h, same_keysym_refl e.keysym)

-- A press that the server accepts.
down_lem :
    (kb : Keyboard) (keysym : Keysym) (code : Code) (nl cl : Option Bool)
    → accept_all (some []) kb.sent ≡ some kb.key_down_list
    → (get kb.key_down_list code ≡ none) ⊎ (get kb.key_down_list code ≡ some keysym)
    → accept_all (some []) (send_key_event keysym code true nl cl kb).sent
      ≡ some (put kb.key_down_list code keysym)
unfolding send_key_event
down_lem kb keysym code nl cl h k =
    let e : KeyEvent = record {
      keysym = keysym;
      code = code;
      down = true;
      numlock = nl;
      capslock = cl;
    } in
    accept_all-snoc (some []) kb.sent e
    ∙ ap (then_accept e) h
    ∙ accept_down kb.key_down_list e refl k

up_lem :
    (kb : Keyboard) (keysym : Keysym) (code : Code) (nl cl : Option Bool)
    → accept_all (some []) kb.sent ≡ some kb.key_down_list
    → get kb.key_down_list code ≡ some keysym
    → (accept_all (some []) (send_key_event keysym code false nl cl kb).sent
        ≡ some (delete kb.key_down_list code))
      × ((send_key_event keysym code false nl cl kb).key_down_list ≡ delete kb.key_down_list code)
unfolding send_key_event
up_lem kb keysym code nl cl h k =
    let e : KeyEvent = record {
      keysym = keysym;
      code = code;
      down = false;
      numlock = nl;
      capslock = cl;
    } in
    rw k (
      accept_all-snoc (some []) kb.sent e
          ∙ ap (then_accept e) h
          ∙ accept_up kb.key_down_list e refl k,
      refl,
    )

-- Sending does not touch the detection of AltGr.
pub send_same :
    (kb : Keyboard) (keysym : Keysym) (code : Code) (down : Bool) (nl cl : Option Bool)
    → let out = send_key_event keysym code down nl cl kb in
      (out.timer ≡ kb.timer) × (out.alt_gr_armed ≡ kb.alt_gr_armed)
unfolding send_key_event
send_same kb keysym code true nl cl = (refl, refl)
send_same kb keysym code false nl cl = elim (Bool-cases (is_some (get kb.key_down_list code))) [
  | inl e ↦ rw e (refl, refl)
  | inr e ↦ rw e (refl, refl)
]

-- The list after a press, and after a press and a release.
put_free :
    (b : Browser) (kb : Keyboard) (code : Code) (keysym : Keysym)
    → IsGood b kb
    → is_transient b kb.alt_gr_armed code ≡ false
    → (c : Code) → is_transient b kb.alt_gr_armed c ≡ true
    → get (put kb.key_down_list code keysym) c ≡ none
put_free b kb code keysym g t c h = elim (Bool-cases (code == c)) [
  | inl e ↦
      let same : code ≡ c = (==_iff code c).0 e in
      absurd (cc (sym t ∙ ap (is_transient b kb.alt_gr_armed) same ∙ h))
  | inr e ↦ get-put kb.key_down_list code c keysym ∙ rw e (g.free c h)
]

pub send_down-IsGood :
    (b : Browser) (kb : Keyboard) (keysym : Keysym) (code : Code) (nl cl : Option Bool)
    → IsGood b kb
    → is_transient b kb.alt_gr_armed code ≡ false
    → (get kb.key_down_list code ≡ none) ⊎ (get kb.key_down_list code ≡ some keysym)
    → IsGood b (send_key_event keysym code true nl cl kb)
send_down-IsGood b kb keysym code nl cl g t k = record {
  held = down_lem kb keysym code nl cl g.held k ∙ unfold send_key_event in refl;
  free = unfold send_key_event in put_free b kb code keysym g t;
  timed = unfold send_key_event in g.timed;
}

delete_free : (keys : KeyList) (code c : Code) → get keys c ≡ none → get (delete keys code) c ≡ none
delete_free keys code c h = get-delete keys code c ∙ ground (arith, h)

delete-put_free :
    (keys : KeyList) (code c : Code) (k : Keysym)
    → get keys c ≡ none
    → get (delete (put keys code k) code) c ≡ none
delete-put_free keys code c k h =
    get-delete (put keys code k) code c ∙ ground (arith, h, get-put keys code c k)

pub press_and_release-IsGood :
    (b : Browser) (kb : Keyboard) (keysym : Keysym) (code : Code) (nl cl : Option Bool)
    → IsGood b kb
    → (get kb.key_down_list code ≡ none) ⊎ (get kb.key_down_list code ≡ some keysym)
    → IsGood b (press_and_release keysym code nl cl kb)
unfolding press_and_release
press_and_release-IsGood b kb keysym code nl cl g k = record {
  held = up.0 ∙ ap some (sym up.1);
  free = λ c h.
      ap (λ l. get l c) up.1
      ∙ delete-put_free kb.key_down_list code c keysym
          (g.free c (ap (λ armed. is_transient b armed c) (sym (second.1 ∙ first.1)) ∙ h));
  timed = second.0 ∙ first.0 ∙ g.timed ∙ sym (second.1 ∙ first.1);
}
  where
    pressed : Keyboard
    pressed = send_key_event keysym code true nl cl kb

    listed : pressed.key_down_list ≡ put kb.key_down_list code keysym
    listed = unfold send_key_event in refl

    is_held : get pressed.key_down_list code ≡ some keysym
    is_held = ap (λ l. get l code) listed ∙ get-put kb.key_down_list code code keysym ∙ ground arith

    first : (pressed.timer ≡ kb.timer) × (pressed.alt_gr_armed ≡ kb.alt_gr_armed)
    first = send_same kb keysym code true nl cl

    second :
        let out = send_key_event keysym code false nl cl pressed in
        (out.timer ≡ pressed.timer) × (out.alt_gr_armed ≡ pressed.alt_gr_armed)
    second = send_same pressed keysym code false nl cl

    up :
        (accept_all (some []) (send_key_event keysym code false nl cl pressed).sent
          ≡ some (delete pressed.key_down_list code))
        × ((send_key_event keysym code false nl cl pressed).key_down_list
            ≡ delete pressed.key_down_list code)
    up =
        up_lem pressed keysym code nl cl
          (down_lem kb keysym code nl cl g.held k ∙ ap some (sym listed)) is_held

pub release-IsGood :
    (b : Browser) (code : Code) (kb : Keyboard) → IsGood b kb → IsGood b (release code kb)
unfolding release
release-IsGood b code kb g = elim (held_or_cases kb.key_down_list code none) [
  | inl missing ↦ subst (IsGood b) (sym (unchanged missing)) g
  | inr there ↦
      let up = up_lem kb k code none none g.held there in
      let same = send_same kb k code false none none in
      record {
        held = up.0 ∙ ap some (sym up.1);
        free = λ c h.
            ap (λ l. get l c) up.1
            ∙ delete_free kb.key_down_list code c
                (g.free c (ap (λ armed. is_transient b armed c) (sym same.1) ∙ h));
        timed = same.0 ∙ g.timed ∙ sym same.1;
      }
]
  where
    k : Keysym
    k = held_or kb.key_down_list code none

    unchanged : get kb.key_down_list code ≡ none → release code kb ≡ kb
    unchanged h = unfold send_key_event in rw h
