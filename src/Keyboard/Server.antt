-- ===== src/Keyboard/Server.antt =====
-- What the server makes of the key events of keyboard.js: the keys that it holds down.
use warpyard.Base.{
  Bool, true, false, ◌&&◌, ◌||◌, Option, none, some, List, [], ◌∷◌, ◌++◌, ◌≡◌, refl, ◌⊎◌, inl, inr,
  arith, ◌==◌, if◌then◌else◌,
}
use warpyard.Keyboard.{
  Code, Keysym, unidentified, control_left, caps_lock, Browser, KeyEvent, KeyList, get, put, delete,
  Keyboard,
}
use warpyard.Keyboard.Events.{held_or}

abbrev pub same_keysym : Keysym → Keysym → Bool
same_keysym none none = true
same_keysym (some j) (some k) = j == k
same_keysym none (some k) = false
same_keysym (some j) none = false

-- One event: a key that is held may be pressed again, with the same keysym, and only a key that is held
-- may be released, with the keysym that it was pressed with. Anything else confuses the server.
unfoldable pub accept : KeyEvent → KeyList → Option KeyList
accept e held =
    if e.down
    then if same_keysym (held_or held e.code e.keysym) e.keysym
      then some (put held e.code e.keysym)
      else none
    else elim (get held e.code) [
      | none ↦ none
      | some k ↦ if same_keysym k e.keysym then some (delete held e.code) else none
    ]

abbrev pub then_accept : KeyEvent → Option KeyList → Option KeyList
then_accept e none = none
then_accept e (some held) = accept e held

-- All of them, from what the server holds; `none` is a server that is confused.
unfoldable pub accept_all : Option KeyList → List KeyEvent → Option KeyList
accept_all held [] = held
accept_all held (e ∷ es) = accept_all (then_accept e held) es

pub accept_all-snoc :
    (held : Option KeyList) (es : List KeyEvent) (e : KeyEvent)
    → accept_all held (es ++ (e ∷ [])) ≡ then_accept e (accept_all held es)
unfolding accept_all
accept_all-snoc held [] e = refl
accept_all-snoc held (x ∷ es) e = accept_all-snoc (then_accept x held) es e

pub same_keysym_refl : (k : Keysym) → same_keysym k k ≡ true
same_keysym_refl none = refl
same_keysym_refl (some k) = ground arith

pub get-put :
    (keys : KeyList) (c d : Code) (k : Keysym)
    → get (put keys c k) d ≡ (if c == d then some k else get keys d)
get-put [] c d k = refl
get-put ((x, y) ∷ keys) c d k = ground (arith, get-put keys c d k)

pub get-delete :
    (keys : KeyList) (c d : Code) → get (delete keys c) d ≡ (if c == d then none else get keys d)
get-delete [] c d = ground arith
get-delete ((x, y) ∷ keys) c d = ground (arith, get-delete keys c d)

pub held_or_cases :
    (keys : KeyList) (c : Code) (k : Keysym)
    → (get keys c ≡ none) ⊎ (get keys c ≡ some (held_or keys c k))
held_or_cases keys c k = cases (get keys c)
  where
    cases : (o : Option Keysym) → (o ≡ none) ⊎ (o ≡ some (elim o [ none ↦ k | some j ↦ j ]))
    cases none = inl refl
    cases (some j) = inr refl

-- The codes that are never held: a key without a code, CapsLock on macOS, and the left Control key
-- while a press of it is held back.
abbrev pub is_transient : Browser → Bool → Code → Bool
is_transient b armed c =
    c == unidentified || (b.mac && c == caps_lock || armed && c == control_left)

-- The server holds what the keyboard has listed.
pub record IsGood (b : Browser) (kb : Keyboard) : Type 0 where
  pub held : accept_all (some []) kb.sent ≡ some kb.key_down_list
  pub free : (c : Code) → is_transient b kb.alt_gr_armed c ≡ true → get kb.key_down_list c ≡ none
  pub timed : kb.timer ≡ kb.alt_gr_armed
