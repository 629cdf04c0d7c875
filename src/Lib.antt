-- ===== src/Lib.antt =====
-- The browser console client of warpyard, the noVNC core under app/static/novnc/core/.
--
-- A page opens a WebSocket to the console of a virtual machine. `Websock` (websock.js) keeps the
-- bytes that arrive in a receive queue and the bytes to send in a send queue; `RFB` (rfb.js) speaks
-- the protocol over it: it pushes client messages (`RFB.messages`), reads server messages, and
-- hands each rectangle of a frame buffer update to a decoder (decoders/), which reads the receive
-- queue and calls the drawing methods of `Display` (display.js).
--
--   Base       lists and arrays over the native numbers, Boolean tests, bit fields, signed integers
--   Stream     the receive queue as its readers see it, a list of the unread bytes (rQshift8 and so
--              on). Handler: a handler of rfb.js, whose rQwait may put bytes back
--   Websock    websock.js: the record is `this`, `sent` the calls of the channel's `send`. Valid:
--              the invariant. Receive, Exceeded: _recvMessage and _expandCompactRQ. Reads: the rQ
--              methods keep the contract of Stream. SendQueue: the sQ methods and flush. Send,
--              Chunks, Overflow: what they do
--   Messages   rfb.js, RFB.messages. Clipboard: those of the extended clipboard. Wire: the layout of
--              each message. Emits, Sent: what a call puts on the channel. Parse: a parser of the
--              protocol, which Unparse shows to undo the layout. Session: many messages, sent and
--              read back
--   Decoders   decoders/raw.js, copyrect.js, rre.js and hextile.js: decodeRect on the state of the
--              decoder and the unread bytes. Feed: a decoder called again whenever more bytes
--              arrive. Items: a decoder that draws a number of items one by one
--   Display    display.js. Viewport: viewportChangePos, viewportChangeSize, resize, clipViewport.
--              Resize: those that change a size. Damage: _damage and the arithmetic of flip. Drawn:
--              the areas drawn between two calls of it. Queue: the drawing methods and the render
--              queue. Settled, Order, Drain, Stuck: order, draining and blocking of that queue
--   Keyboard   input/keyboard.js. Events: the handlers of keydown, keyup, the AltGr timer and blur.
--              Server: what a server holds. Accepts: it accepts a press and a release. Handlers: it
--              holds what the keyboard lists. Release: blur and AltGr. Blur: what is released then
--   Connection rfb.js: _updateConnectionState, _fail, _connect, _disconnect, _socketOpen,
--              _socketClose. `visited` logs the values of _rfbConnectionState. Leads: the
--              transitions as a relation. Order: each step is some, and what the page is told.
--              End: the last state
--   BigInt     crypto/bigint.js. Power: modPow. Hex, Bytes: the conversions
--   Dh         crypto/dh.js, DHCipher; the random bytes are a parameter. Agreement: its two ends
--   Base64     base64.js, both directions. Digits, RoundTrip: one undoes the other
--   Utf8       util/strings.js, on code points
--   Inflator   inflator.js, with pako as a parameter
--   Deflator   deflator.js, with pako as a parameter; the loop on the chunks is on fuel
--   Incoming   rfb.js, from _handleMessage of a connected client down: its record is the part of
--              `this` that the server's messages change. Messages: _normalMsg and the loop. Rects:
--              _framebufferUpdate and _handleRect. Pseudo: the pseudo-encodings. Cursor: the pixels
--              of cursors. Clipboard: _handleServerCutText; its Text, Inflated and RoundTrip: a text
--              that is provided. Installed: the decoders of this library, each with its own state.
--              Kept, Handlers, Sizes, LaxReads, Lax, GoesOn, RectGoes, NextRect, UpdateGoes,
--              MessageGoes, TypeGoes: each part goes on where it stopped. Turns: the loop ends. Cut:
--              messages in parts. Defers, Pending, Flush: a pending display
--   Handshake  rfb.js, _initMsg down to each scheme of authentication. Version, Security, Schemes,
--              Authentication, Tight and Joining: the handlers. Always, Kept, Passes, Moves, Order,
--              Steps: where a step may lead. Run: runs of steps, with credentials set between.
--              Choice: the security types. ServerInit: the last message
--
-- Numbers. Bytes and lengths are natural numbers with the wrap of the typed arrays written out;
-- places on a canvas are integers. Loops over a count or a queue are structural. The loop of
-- sQpushBytes runs on fuel, one more than the number of bytes, since each round with bytes left
-- moves at least one unless the queue is full and the channel not open. rQshiftStr has fuel for
-- every round of 4096 characters. The loop of the Deflator ends with as much fuel as bytes are
-- still to be written (Deflator, deflate-returns), since zlib, given input and room, stops at a full
-- buffer or at the end of the input. The loop of modPow and toString(16) have as much fuel as the number they halve or
-- divide by 16 in each round. The loop of _handleMessage has two turns more than there are bytes;
-- each message takes a byte at least, but for the end of an update that was begun before. A loop
-- that runs out of turns replies `spins`, and no other code does.
--
-- Not modelled: logging, the DOM, cursors and gestures, the decoders that inflate, the ciphers with
-- RSA-AES, the user interface in rfb.js, and the control plane in Python. The canvas is the list of
-- the calls made on it.
pub mod Base
pub mod Stream
pub mod Websock
pub mod Messages
pub mod Decoders
pub mod Display
pub mod Keyboard
pub mod Connection
pub mod Base64
pub mod BigInt
pub mod Dh
pub mod Utf8
pub mod Inflator
pub mod Deflator
pub mod Incoming
pub mod Handshake
