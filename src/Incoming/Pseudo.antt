-- ===== src/Incoming/Pseudo.antt =====
-- The header of a rectangle and the handlers of the pseudo-encodings of rfb.js, with the numbers of
-- encodings.js.
use warpyard.Base.{
  ℕ, zero, suc, ◌+◌, ◌-◌, ◌*◌, ◌/◌, ◌%◌, ◌^◌, true, false, not, ◌&&◌, ◌||◌, Option, none, some,
  List, [], ◌∷◌, ◌++◌, length, ltb, ◌==◌, if◌then◌else◌,
}
use warpyard.Stream.Handler.{
  waits, fault, got, Handler, ◌>>=◌, ◌>>◌, give, rq_wait, read8, read16, read32, read_bytes, skip,
  peek,
}
use warpyard.Decoders.{Rect}
use warpyard.Utf8.{decode_utf8}
use warpyard.Incoming.Cursor.{cursor_rows, classic_pixels, alpha_pixels}
use warpyard.Incoming.{
  Effect, requests_resize, shows_cursor, names_desktop, warns, Client, Done, done, resize,
}

abbrev pub last_rect : ℕ
last_rect = 2 ^ 32 - 224

abbrev pub cursor : ℕ
cursor = 2 ^ 32 - 239

abbrev pub vmware_cursor : ℕ
vmware_cursor = 0x574d5664

abbrev pub qemu_extended_key_event : ℕ
qemu_extended_key_event = 2 ^ 32 - 258

abbrev pub desktop_name : ℕ
desktop_name = 2 ^ 32 - 307

abbrev pub desktop_size : ℕ
desktop_size = 2 ^ 32 - 223

abbrev pub extended_desktop_size : ℕ
extended_desktop_size = 2 ^ 32 - 308

abbrev pub qemu_led_event : ℕ
qemu_led_event = 2 ^ 32 - 261

-- So many numbers of 32 bits.
unfoldable pub read_words : ℕ → Handler (List ℕ)
read_words zero = give []
read_words (suc n) = do word ← read32; words ← read_words n; give (word ∷ words)

-- The second byte is read although only one was waited for. Where it has not arrived, the queue is behind
-- its end until the next wait puts it back; nothing does for a type that is not known.
unfoldable pub read_padding : ℕ → Handler (Unit {0})
read_padding cursor_type q i =
    if ltb (length q) (i + 1)
    then if cursor_type == 0 || cursor_type == 1 then waits 0 else fault
    else got tt (i + 1)

-- The header of a rectangle.
unfoldable pub read_rect : Handler (Rect × ℕ)
read_rect = do
  x ← read16
  y ← read16
  width ← read16
  height ← read16
  encoding ← read32
  give (record { x = x; y = y; width = width; height = height }, encoding)

module _ {D : Type 0} where
  -- `_updateCursor`
  abbrev pub update_cursor : Client D → List ℕ → Done D
  update_cursor c rgba =
      done c (shows_cursor rgba c.rect.x c.rect.y c.rect.width c.rect.height ∷ [])

  unfoldable pub handle_cursor : Client D → Handler (Done D)
  unfolding cursor_rows
  handle_cursor c =
      let w = c.rect.width in
      let h = c.rect.height in
      let pixelslength = w * h * 4 in
      let masklength = (w + 7) / 8 * h in
      do
        rq_wait (pixelslength + masklength) 0
        pixels ← read_bytes pixelslength
        mask ← read_bytes masklength
        give (update_cursor c (cursor_rows w h pixels mask h))

  unfoldable pub handle_vmware_cursor : Client D → Handler (Done D)
  unfolding classic_pixels alpha_pixels read_words read_padding
  handle_vmware_cursor c =
      let pixels = c.rect.width * c.rect.height in
      do
        rq_wait 1 0
        cursor_type ← read8
        read_padding cursor_type
        if cursor_type == 0
            then (do
              rq_wait (pixels * 4 * 2) 2
              and_masks ← read_words pixels
              xor_masks ← read_words pixels
              give (update_cursor c (classic_pixels and_masks xor_masks)))
            else if cursor_type == 1
            then (do
              rq_wait (pixels * 4) 2
              words ← read_words pixels
              give (update_cursor c (alpha_pixels words)))
            else give (record { finished = false; client = c; effects = warns ∷ [] })

  -- `_setDesktopName`. With Latin-1 allowed the decoding does not fail.
  abbrev pub set_desktop_name : Client D → Option (List ℕ) → Handler (Done D)
  set_desktop_name c none q i = fault
  set_desktop_name c (some name) q i =
      got (done (record c { fb_name = name }) (names_desktop name ∷ [])) i

  unfoldable pub handle_desktop_name : Client D → Handler (Done D)
  handle_desktop_name c = do
    rq_wait 4 0
    len ← read32
    rq_wait len 4
    name ← read_bytes len
    set_desktop_name c (decode_utf8 name true)

  unfoldable pub handle_led_event : Client D → Handler (Done D)
  handle_led_event c = do
    rq_wait 1 0
    status ← read8
    give (
        done
          (record c {
            remote_caps_lock = some (status / 4 % 2 == 1);
            remote_num_lock = some (status / 2 % 2 == 1);
          })
          [])

  -- The loop on the screens, with so many to come, of which the first is kept.
  unfoldable pub read_screens : (number left : ℕ) → Client D → Handler (Client D)
  read_screens number zero c = give c
  read_screens number (suc left) c =
      if suc left == number
      then (do
        id ← read32
        skip 2
        skip 2
        skip 2
        skip 2
        flags ← read32
        read_screens number left (record c { screen_id = id; screen_flags = flags }))
      else (do skip 16; read_screens number left c)

  -- The resize, unless it is the refusal of one that this client asked for.
  unfoldable pub apply_desktop_size : Client D → Client D × List Effect
  unfolding resize
  apply_desktop_size c =
      if c.rect.x == 1 && not (c.rect.y == 0) then (c, []) else resize c.rect.width c.rect.height c

  unfoldable pub handle_extended_desktop_size : Client D → Handler (Done D)
  unfolding read_screens apply_desktop_size
  handle_extended_desktop_size c =
      let first_update = not c.supports_set_desktop_size in
      do
        rq_wait 4 0
        number ← peek
        rq_wait (4 + number * 16) 0
        skip 1
        skip 3
        c' ← read_screens number number (record c { supports_set_desktop_size = true })
        give (
            let (resized, effects) = apply_desktop_size c' in
            done resized (effects ++ (if first_update then requests_resize ∷ [] else [])))
