-- ===== src/Keyboard/Blur.antt =====
-- `_allKeysUp` of keyboard.js on a keyboard that has had any events.
use warpyard.Base.{
  Bool, true, false, Option, none, some, List, [], ◌∷◌, ◌++◌, map, append_assoc, append-nil, ◌≡◌,
  refl, sym, ap, subst, ◌∙◌, inl, inr, arith, ◌==◌, if◌then◌else◌, Bool-cases,
}
use warpyard.Keyboard.{
  Code, Keysym, Browser, KeyEvent, KeyList, get, put, delete, Keyboard, new, send_key_event,
}
use warpyard.Keyboard.Events.{held_or, release, release_each, all_keys_up, Event, run}
use warpyard.Keyboard.Server.{accept, accept_all, same_keysym, get-put, get-delete}
use warpyard.Keyboard.Handlers.{run-held}

-- The release of a key that is in the list.
abbrev pub up : Code × Keysym → KeyEvent
up (code, keysym) = record {
  keysym = keysym;
  code = code;
  down = false;
  numlock = none;
  capslock = none;
}

-- No code is listed twice.
abbrev Distinct : KeyList → Type 0
Distinct [] = Unit {0}
Distinct ((c, k) ∷ keys) = (get keys c ≡ none) × Distinct keys

delete_missing : (keys : KeyList) (c : Code) → get keys c ≡ none → delete keys c ≡ keys
delete_missing [] c h = refl
delete_missing ((d, k) ∷ keys) c h = elim (Bool-cases (d == c)) [
  | inl e ↦ absurd (cc (ap (λ b. if b then some k else get keys c) (sym e) ∙ h))
  | inr e ↦ rw e (
      ap (λ l. (d, k) ∷ l)
        (delete_missing keys c (ap (λ b. if b then some k else get keys c) (sym e) ∙ h)))
]

delete-Distinct : (keys : KeyList) (c : Code) → Distinct keys → Distinct (delete keys c)
delete-Distinct [] c h = tt
delete-Distinct ((d, k) ∷ keys) c h = elim (Bool-cases (d == c)) [
  | inl e ↦ rw e (delete-Distinct keys c h.1)
  | inr e ↦ rw e (ground (arith, get-delete keys c d, h.0), delete-Distinct keys c h.1)
]

put-Distinct : (keys : KeyList) (c : Code) (k : Keysym) → Distinct keys → Distinct (put keys c k)
put-Distinct [] c k h = (refl, tt)
put-Distinct ((d, j) ∷ keys) c k h = elim (Bool-cases (d == c)) [
  | inl e ↦ rw e (h.0, h.1)
  | inr e ↦ rw e (ground (arith, get-put keys c d k, h.0), put-Distinct keys c k h.1)
]

if_some : (b : Bool) (keys out : KeyList) → (if b then some keys else none) ≡ some out → keys ≡ out
if_some true keys out e = cc e
if_some false keys out e = absurd (cc e)

accept-Distinct :
    (e : KeyEvent) (keys out : KeyList) → Distinct keys → accept e keys ≡ some out → Distinct out
unfolding accept
accept-Distinct e keys out h a = by_down e.down (get keys e.code) a
  where
    by_down :
        (b : Bool) (o : Option Keysym)
        → (if b
            then if same_keysym (held_or keys e.code e.keysym) e.keysym
              then some (put keys e.code e.keysym)
              else none
            else elim o as (λ _. Option KeyList) [
              | none ↦ none
              | some k ↦ if same_keysym k e.keysym then some (delete keys e.code) else none
            ])
          ≡ some out
        → Distinct out
    by_down true o a = subst Distinct (if_some _ _ out a) (put-Distinct keys e.code e.keysym h)
    by_down false none a = absurd (cc a)
    by_down false (some k) a = subst Distinct (if_some _ _ out a) (delete-Distinct keys e.code h)

accept_all-none : (es : List KeyEvent) → accept_all none es ≡ none
unfolding accept_all
accept_all-none [] = refl
accept_all-none (e ∷ es) = accept_all-none es

then-Distinct :
    (e : KeyEvent) (es : List KeyEvent) (keys out : KeyList)
    → Distinct keys
    → ((mid : KeyList) → Distinct mid → accept_all (some mid) es ≡ some out → Distinct out)
    → (o : Option KeyList) → accept e keys ≡ o
    → accept_all o es ≡ some out
    → Distinct out
then-Distinct e es keys out h rest none first a = absurd (cc (sym (accept_all-none es) ∙ a))
then-Distinct e es keys out h rest (some mid) first a =
    rest mid (accept-Distinct e keys mid h first) a

accept_all-Distinct :
    (es : List KeyEvent) (keys out : KeyList)
    → Distinct keys
    → accept_all (some keys) es ≡ some out
    → Distinct out
unfolding accept_all
accept_all-Distinct [] keys out h a = let same : keys ≡ out = cc a in subst Distinct same h
accept_all-Distinct (e ∷ es) keys out h a =
    then-Distinct e es keys out h (λ mid. accept_all-Distinct es mid out) (accept e keys) refl a

release_first :
    (code : Code) (k : Keysym) (keys : KeyList) (kb : Keyboard)
    → get keys code ≡ none
    → release code (record kb { key_down_list = (code, k) ∷ keys })
      ≡ record kb { key_down_list = keys; sent = kb.sent ++ (up (code, k) ∷ []) }
unfolding release send_key_event
release_first code k keys kb h =
    let same : (code == code) ≡ true = ground arith in
    let held : held_or ((code, k) ∷ keys) code none ≡ k =
      ap (λ (o : Option Keysym). elim o [ none ↦ none | some j ↦ j ])
        (ap (λ b. if b then some k else get keys code) same) in
    rw (same, delete_missing keys code h, held)

-- Each key of the list is released once, in the order of the list.
release_each-releases :
    (keys : KeyList) (kb : Keyboard)
    → Distinct keys
    → kb.key_down_list ≡ keys
    → ((release_each keys kb).key_down_list ≡ [])
      × ((release_each keys kb).sent ≡ kb.sent ++ map up keys)
unfolding release_each
release_each-releases [] kb h e = (e, sym (append-nil kb.sent))
release_each-releases ((code, k) ∷ keys) kb h e =
    let kb' : Keyboard = record kb {
      key_down_list = keys;
      sent = kb.sent ++ (up (code, k) ∷ []);
    } in
    let rest = release_each-releases keys kb' h.1 refl in
    let first : release code kb ≡ kb' =
      ap (λ l. release code (record kb { key_down_list = l })) e
      ∙ release_first code k keys kb h.0 in
    (
      ap (λ r. (release_each keys r).key_down_list) first ∙ rest.0,
      ap (λ r. (release_each keys r).sent) first
          ∙ rest.1
          ∙ append_assoc kb.sent (up (code, k) ∷ []) (map up keys),
    )

-- When a keyboard that has had any events loses the focus, or is ungrabbed, each key of `_keyDownList` is
-- released: exactly one release is sent for it, with its code and the keysym that it was pressed with, in
-- the order of the list, and nothing else; and the list is empty.
pub all_keys_up-releases :
    (b : Browser) (es : List Event)
    → let kb = run b es new in
      ((all_keys_up kb).sent ≡ kb.sent ++ map up kb.key_down_list)
      × ((all_keys_up kb).key_down_list ≡ [])
unfolding all_keys_up
all_keys_up-releases b es =
    let kb = run b es new in
    let distinct = accept_all-Distinct kb.sent [] kb.key_down_list tt (run-held b es) in
    let released = release_each-releases kb.key_down_list kb distinct refl in
    (released.1, released.0)
