-- ===== src/Incoming/Tests.antt =====
-- Runs of the incoming messages.
use warpyard.Base.{ℕ, true, false, Option, none, some, List, [], ◌∷◌, ◌++◌, ◌≡◌, refl, arith}
use warpyard.Stream.{Stream, shift_bytes}
use warpyard.Stream.Handler
use warpyard.Decoders.Raw
use warpyard.Decoders.{blit_image}
use warpyard.Decoders.Feed.{join}
use warpyard.Inflator.{Pako}
use warpyard.Messages.Wire.{update_request}
use warpyard.Incoming.{Client, Reply, Decoders, after, starve, rings, draws, flips, sends}
use warpyard.Incoming.Installed.{States, installed, first_states}
use warpyard.Incoming.Messages.{handle_message}
use warpyard.Incoming.Turns.{Calm, Ends, handle, run, enough_turns}
use warpyard.Incoming.Pending.{pending_handle, go_on_flushed, Ready}
use warpyard.Incoming.Flush.{flushed-handle_message, empty_update-unasked}
use warpyard.Incoming.Cut.{feed, handle_message_join}

-- A library that copies.
abbrev copying : Pako (Unit {0})
copying = record {
  start = tt;
  run = λ z input n. record { negative = false; output = input; rest = []; state = z };
  again = λ z. z;
}

abbrev pub connected : Client (States (Unit {0}))
connected = record {
  rects = 0;
  rect = record { x = 0; y = 0; width = 0; height = 0 };
  encoding = none;
  decoders = first_states tt;
  fb_width = 4;
  fb_height = 4;
  fb_depth = 24;
  fb_name = [];
  view_only = false;
  flushing = false;
  failed = false;
  supports_fence = false;
  supports_continuous_updates = false;
  enabled_continuous_updates = false;
  supports_set_desktop_size = false;
  screen_id = 0;
  screen_flags = 0;
  qemu_ext_key_event_supported = false;
  remote_caps_lock = none;
  remote_num_lock = none;
  rfb_xvp_ver = 0;
  clipboard_text = none;
  server_formats = 0;
  server_actions = 0;
}

-- A bell, and an update of one rectangle, of one pixel, cut in its header and in its pixel.
abbrev part1 : Stream
part1 = 2 ∷ 0 ∷ 0 ∷ 0 ∷ []

abbrev part2 : Stream
part2 = 1 ∷ 0 ∷ 1 ∷ 0 ∷ 2 ∷ 0 ∷ 1 ∷ 0 ∷ 1 ∷ 0 ∷ 0 ∷ 0 ∷ 0 ∷ 7 ∷ 8 ∷ []

abbrev part3 : Stream
part3 = 9 ∷ 0 ∷ 2 ∷ []

abbrev all_of_it : Reply (States (Unit {0}))
all_of_it =
    starve (record connected { rect = record { x = 1; y = 2; width = 1; height = 1 } }) []
      (rings
        ∷ draws (blit_image 1 2 1 1 (7 ∷ 8 ∷ 9 ∷ 255 ∷ []))
        ∷ flips
        ∷ sends (update_request true 0 0 4 4)
        ∷ rings
        ∷ [])

-- No decoders but those of this library.
abbrev decoders : Decoders (States (Unit {0}))
decoders = installed (λ encoding. none)

abbrev deflate : List ℕ → Option (List ℕ)
deflate l = some l

abbrev go : Client (States (Unit {0})) → Stream → Reply (States (Unit {0}))
go = handle_message decoders copying deflate false

whole : go connected (part1 ++ join (part2 ∷ part3 ∷ [])) ≡ all_of_it
unfolding handle_message installed Handler.rq_wait Handler.skip Handler.read Raw.decode_rect
    Raw.decode_lines shift_bytes Raw.row
whole = refl

parts-Calm : Calm (feed decoders copying deflate (go connected part1) (part2 ∷ part3 ∷ []))
unfolding handle_message installed Handler.rq_wait Handler.skip Handler.read Raw.decode_rect
    Raw.decode_lines shift_bytes Raw.row
parts-Calm = (tt, (tt, (tt, (tt, (tt, tt)))))

handle_message_join_example :
    feed decoders copying deflate (go connected part1) (part2 ∷ part3 ∷ [])
    ≡ go connected (part1 ++ join (part2 ∷ part3 ∷ []))
handle_message_join_example =
    handle_message_join decoders copying deflate connected part1 (part2 ∷ part3 ∷ []) refl refl
      (omega arith) (omega arith, (omega arith, tt)) parts-Calm

-- A bell, and the header of an update with a part of its rectangle.
abbrev bell_and_header : Stream
bell_and_header = 2 ∷ 0 ∷ 0 ∷ 0 ∷ 1 ∷ 0 ∷ 1 ∷ []

pending-Calm : Calm (pending_handle decoders copying deflate connected bell_and_header)
unfolding handle_message Handler.rq_wait Handler.skip Handler.read
pending-Calm = (tt, tt)

pending-Ready :
    Ready decoders copying deflate
      (pending_handle decoders copying deflate connected bell_and_header)
unfolding handle_message Handler.rq_wait Handler.skip Handler.read
pending-Ready waits = (omega arith, omega arith)

flushed-handle_message_example :
    go_on_flushed decoders copying deflate
      (pending_handle decoders copying deflate connected bell_and_header)
    ≡ handle decoders copying deflate connected bell_and_header
flushed-handle_message_example =
    flushed-handle_message decoders copying deflate connected bell_and_header refl refl
      (omega arith) pending-Calm pending-Ready

-- With a bell behind it.
empty_update-unasked_example :
    (go_on_flushed decoders copying deflate
        (pending_handle decoders copying deflate connected (0 ∷ 0 ∷ 0 ∷ 0 ∷ 2 ∷ []))
      ≡ handle decoders copying deflate connected (2 ∷ []))
    × (handle decoders copying deflate connected (0 ∷ 0 ∷ 0 ∷ 0 ∷ 2 ∷ [])
        ≡ after
            (flips ∷ sends (update_request true 0 0 4 4) ∷ [])
            (handle decoders copying deflate connected (2 ∷ [])))
empty_update-unasked_example =
    empty_update-unasked decoders copying deflate connected 0 (2 ∷ []) refl refl refl refl refl

enough_turns_example :
    Ends (run decoders copying deflate 20 connected part2)
    × (run decoders copying deflate 20 connected part2
        ≡ run decoders copying deflate 99 connected part2)
enough_turns_example =
    enough_turns decoders copying deflate 20 99 connected part2 refl (omega arith) (omega arith)
