-- ===== src/Incoming/Messages.antt =====
-- `_normalMsg` and `_handleMessage` of rfb.js, in the connected phase.
use warpyard.Base.{
  ℕ, zero, suc, ◌+◌, ◌/◌, ◌%◌, ◌^◌, Bool, true, false, not, ◌&&◌, Option, List, [], ◌∷◌, ◌++◌,
  length, drop, ltb, ◌==◌, if◌then◌else◌,
}
use warpyard.Stream.{Stream}
use warpyard.Stream.Handler.{
  Answer, waits, fault, got, Handler, ◌>>=◌, ◌>>◌, give, rq_wait, read8, read16, read32, read_bytes,
  skip,
}
use warpyard.Messages.Wire.{fence, update_request}
use warpyard.Inflator.{Pako}
use warpyard.Incoming.Clipboard.{handle_server_cut_text}
use warpyard.Incoming.Rects.{update_rects}
use warpyard.Incoming.{
  Effect, sends, rings, allows_power, fails, Decoders, Client, Done, Handled, Reply, returns,
  closes, breaks, spins, done, fail, starve, after, reply, update_continuous_updates,
}

-- The header of an update.
unfoldable pub read_update : Handler ℕ
read_update = do rq_wait 3 1; skip 1; rects ← read16; give rects

module _ {D : Type 0} where
  -- A fence that is no request is refused; of the flags only the two blocks are known.
  unfoldable pub fence_answer : (flags : ℕ) (payload : List ℕ) → Client D → Done D
  fence_answer flags payload c =
      if flags / 2 ^ 31 % 2 == 1 then done c (sends (fence (flags % 4) payload) ∷ []) else fail c

  -- A payload of more than 64 bytes is waited for, and 64 bytes of it are taken.
  unfoldable pub handle_server_fence : Client D → Handler (Done D)
  unfolding fence_answer
  handle_server_fence c = do
    rq_wait 8 1
    skip 3
    flags ← read32
    len ← read8
    rq_wait len 9
    payload ← read_bytes (if ltb 64 len then 64 else len)
    give (fence_answer flags payload (record c { supports_fence = true }))

  unfoldable pub xvp_answer : (xvp_ver xvp_msg : ℕ) → Client D → Done D
  xvp_answer xvp_ver xvp_msg c =
      if xvp_msg == 0
      then done c []
      else if xvp_msg == 1
      then done (record c { rfb_xvp_ver = xvp_ver }) (allows_power ∷ [])
      else done (record c { failed = true }) (fails ∷ [])

  unfoldable pub handle_xvp : Client D → Handler (Done D)
  unfolding xvp_answer
  handle_xvp c = do
    rq_wait 3 1
    skip 1
    xvp_ver ← read8
    xvp_msg ← read8
    give (xvp_answer xvp_ver xvp_msg c)

  unfoldable pub end_of_continuous_updates : Client D → Done D
  unfolding update_continuous_updates
  end_of_continuous_updates c =
      if c.supports_continuous_updates
      then done (record c { enabled_continuous_updates = false }) []
      else (let c' = record c {
        supports_continuous_updates = true;
        enabled_continuous_updates = true;
      } in
          done c' (update_continuous_updates c'))

  -- The next update is asked for, unless the server sends them by itself.
  abbrev pub asked : Handled D → List Effect
  asked r =
      if r.finished && not r.client.enabled_continuous_updates
      then sends (update_request true 0 0 r.client.fb_width r.client.fb_height) ∷ []
      else []

  abbrev pub ask_update : Reply D → Reply D
  ask_update breaks = breaks
  ask_update spins = spins
  ask_update closes = closes
  ask_update (returns r) = returns (record r { effects = r.effects ++ asked r })

  -- A message that begins with its type.
  abbrev pub typed : (ℕ → Client D → Stream → Reply D) → Client D → Stream → Reply D
  typed handle c [] = breaks
  typed handle c (b ∷ q) = handle b c (b ∷ q)

  -- What follows a return of `_normalMsg` in the loop of `_handleMessage`.
  abbrev pub next_message : (Client D → Stream → Reply D) → Reply D → Reply D
  next_message loop breaks = breaks
  next_message loop spins = spins
  next_message loop closes = closes
  next_message loop (returns r) =
      if r.finished && not (length r.rest == 0)
      then after r.effects (loop r.client r.rest)
      else starve r.client r.rest r.effects

  module _ (decoders : Decoders D) {Z : Type 0} (pako : Pako Z)
      (deflate : List ℕ → Option (List ℕ)) where
    -- With the header read. `pending` is what the display says of its queue. A display with a queue is flushed first, and what follows has to wait.
    abbrev pub begin_update : Bool → Client D → Stream → Answer ℕ → Reply D
    begin_update pending c q (waits p) = starve c (drop p q) []
    begin_update pending c q fault = breaks
    begin_update pending c q (got rects i) =
        if pending
        then starve (record c { rects = rects; flushing = true }) (drop i q) []
        else update_rects decoders rects (record c { rects = rects }) (drop i q)

    -- `_framebufferUpdate`, behind the type of the message where there is one.
    unfoldable pub framebuffer_update : Bool → Client D → Stream → Reply D
    unfolding update_rects read_update
    framebuffer_update pending c q =
        if c.rects == 0
        then begin_update pending c q (read_update q 1)
        else update_rects decoders c.rects c q

    -- By the type of the message, with the queue from the type on.
    unfoldable pub by_type : Bool → ℕ → Client D → Stream → Reply D
    unfolding framebuffer_update handle_server_fence handle_xvp end_of_continuous_updates
    by_type pending msg_type c q =
        if msg_type == 0
        then ask_update (framebuffer_update pending c q)
        else if msg_type == 1
        then reply c q (got (fail c) 1)
        else if msg_type == 2
        then reply c q (got (done c (rings ∷ [])) 1)
        else if msg_type == 3
        then reply c q (handle_server_cut_text pako deflate c q 1)
        else if msg_type == 150
        then reply c q (got (end_of_continuous_updates c) 1)
        else if msg_type == 248
        then reply c q (handle_server_fence c q 1)
        else if msg_type == 250
        then reply c q (handle_xvp c q 1)
        else reply c q (got (done (record c { failed = true }) (fails ∷ [])) 1)

    -- `_normalMsg`
    unfoldable pub normal_msg : Bool → Client D → Stream → Reply D
    unfolding by_type
    normal_msg pending c q =
        if ltb 0 c.rects then by_type pending 0 c q else typed (by_type pending) c q

    -- The loop, which takes a turn of its fuel for each message, and spins where the fuel does not do.
    unfoldable pub messages : ℕ → Bool → Client D → Stream → Reply D
    unfolding normal_msg
    messages zero pending c q = spins
    messages (suc fuel) pending c q =
        if c.flushing
        then starve c q []
        else next_message (messages fuel pending) (normal_msg pending c q)

    -- `_handleMessage`. After `_fail` the state is another one and nothing is read.
    unfoldable pub handle_message : Bool → Client D → Stream → Reply D
    unfolding messages
    handle_message pending c q =
        if length q == 0
        then starve c q []
        else if c.failed
        then starve c q []
        else messages (length q + 2) pending c q

    -- What `_framebufferUpdate` has left for when the display is flushed.
    unfoldable pub flushed : Client D → Stream → Reply D
    unfolding handle_message
    flushed c q =
        let c' = record c { flushing = false } in
        if length q == 0 then starve c' q [] else handle_message false c' q
