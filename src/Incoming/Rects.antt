-- ===== src/Incoming/Rects.antt =====
-- `_framebufferUpdate`, `_handleRect` and `_handleDataRect` of rfb.js.
use warpyard.Base.{
  ℕ, zero, suc, true, Option, none, some, [], ◌∷◌, map, length, drop, ltb, ◌==◌, if◌then◌else◌,
}
use warpyard.Stream.{Stream}
use warpyard.Stream.Handler.{Answer, waits, fault, got, Handler}
use warpyard.Decoders
use warpyard.Decoders.{Rect, Outcome}
use warpyard.Decoders.Feed.{Decoder}
use warpyard.Incoming.{
  draws, flips, fails, Decoders, Client, Done, Reply, returns, closes, breaks, spins, finish,
  starve, after, reply, resize,
}
use warpyard.Incoming.Pseudo.{
  cursor, desktop_name, desktop_size, extended_desktop_size, handle_cursor, handle_desktop_name,
  handle_extended_desktop_size, handle_led_event, handle_vmware_cursor, last_rect,
  qemu_extended_key_event, qemu_led_event, read_rect, vmware_cursor,
}

module _ {D : Type 0} where
  -- What `_handleDataRect` makes of a return of `decodeRect`. An error of the decoder is
  -- caught and closes the connection.
  abbrev pub drawn : Client D → Outcome D → Reply D
  drawn c (Decoders.returns r) = returns (record {
    finished = r.finished;
    client = record c { decoders = r.state };
    rest = r.rest;
    effects = map draws r.calls;
  })
  drawn c Decoders.underflow = breaks
  drawn c Decoders.throws = closes

  abbrev pub decode_with : Client D → Option (Rect → ℕ → Decoder D) → Stream → Reply D
  decode_with c none q = starve (record c { failed = true }) q (fails ∷ [])
  decode_with c (some decoder) q = drawn c ((decoder c.rect c.fb_depth).decode c.decoders q)

  -- A reply to a handler that has taken nothing before.
  abbrev pub answer : Client D → Stream → Handler (Done D) → Reply D
  answer c q handler = reply c q (handler q 0)

  -- "We finished this FBU"
  abbrev pub end_update : Client D → Stream → Reply D
  end_update c q = finish (record c { rects = 0; encoding = none }) q (flips ∷ [])

  -- What follows a rectangle, by the loop on those left: the last one may have said so itself.
  abbrev pub next_rect : (Client D → Stream → Reply D) → (encoding left : ℕ) → Reply D → Reply D
  next_rect loop encoding left breaks = breaks
  next_rect loop encoding left spins = spins
  next_rect loop encoding left closes = closes
  next_rect loop encoding left (returns r) =
      if r.finished
      then after r.effects (
          if encoding == last_rect
          then end_update r.client r.rest
          else loop (record r.client { rects = left; encoding = none }) r.rest)
      else returns r

  module _ (decoders : Decoders D) where
    unfoldable pub handle_data_rect : ℕ → Client D → Stream → Reply D
    handle_data_rect encoding c q = decode_with c (decoders encoding) q

    unfoldable pub handle_rect : ℕ → Client D → Stream → Reply D
    unfolding handle_cursor handle_vmware_cursor handle_desktop_name handle_led_event
        handle_extended_desktop_size handle_data_rect resize
    handle_rect encoding c q =
        if encoding == last_rect
        then finish c q []
        else if encoding == vmware_cursor
        then answer c q (handle_vmware_cursor c)
        else if encoding == cursor
        then answer c q (handle_cursor c)
        else if encoding == qemu_extended_key_event
        then finish (record c { qemu_ext_key_event_supported = true }) q []
        else if encoding == desktop_name
        then answer c q (handle_desktop_name c)
        else if encoding == desktop_size
        then (let (resized, effects) = resize c.rect.width c.rect.height c in
            finish resized q effects)
        else if encoding == extended_desktop_size
        then answer c q (handle_extended_desktop_size c)
        else if encoding == qemu_led_event
        then answer c q (handle_led_event c)
        else handle_data_rect encoding c q

    -- With the header of a rectangle read, or while it is waited for.
    abbrev pub opened :
        (Client D → Stream → Reply D) → ℕ → Client D → Stream → Answer (Rect × ℕ) → Reply D
    opened loop left c q (waits p) = breaks
    opened loop left c q fault = breaks
    opened loop left c q (got (rect, encoding) i) =
        next_rect loop encoding left
          (handle_rect encoding (record c { rect = rect; encoding = some encoding }) (drop i q))

    -- One turn of the loop: the rectangle whose header was read before, or the next one.
    abbrev pub turn : (Client D → Stream → Reply D) → ℕ → Client D → Stream → Option ℕ → Reply D
    turn loop left c q (some encoding) = next_rect loop encoding left (handle_rect encoding c q)
    turn loop left c q none =
        if ltb (length q) 12 then starve c q [] else opened loop left c q (read_rect q 0)

    -- The loop of `_framebufferUpdate`, with so many rectangles to come.
    unfoldable pub update_rects : ℕ → Client D → Stream → Reply D
    unfolding handle_rect read_rect
    update_rects zero c q = end_update c q
    update_rects (suc left) c q = turn (update_rects left) left c q c.encoding
