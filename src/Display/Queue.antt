-- ===== src/Display/Queue.antt =====
-- The drawing methods of app/static/novnc/core/display.js and its render queue. What the two canvases
-- show is the list of the calls made on their contexts, the oldest first.
use warpyard.Base.{
  ℕ, ◌+◌, ◌*◌, Bool, true, false, ◌&&◌, ◌||◌, Option, none, some, List, [], ◌∷◌, ◌++◌, length,
  slice, leb, ◌==◌, if◌then◌else◌,
}
use warpyard.Base.Int.{ℤ, pos}
use warpyard.Display.Viewport.{View, eqb_ℤ}
use warpyard.Display.Damage.{Bounds, Area, Copy, damage, no_damage, flip_copy}

-- A call on a context.
pub data Paint : Type 0 where
  fill : Area → List ℕ → Paint
  copy : (old_x old_y : ℤ) → Area → Paint
  put : Area → List ℕ → Paint
  -- an image, by its number
  draw : ℕ → (x y : ℤ) → Paint
  -- the back buffer on the visible canvas
  show : Copy → Paint

-- An entry of `_renderQ`.
pub data Action : Type 0 where
  flip_action : Action
  fill_action : Area → List ℕ → Action
  copy_action : (old_x old_y : ℤ) → Area → Action
  blit_action : Area → List ℕ → Action
  img_action : ℕ → Area → Action

-- What an image object says of itself: `none` until `complete`, then its width and height.
abbrev pub Images : Type 0
Images = ℕ → Option (ℤ × ℤ)

pub record Screen : Type 0 where
  pub view : View
  pub bounds : Bounds
  pub paints : List Paint

pub record Display : Type 0 where
  pub screen : Screen
  pub render_q : List Action
  -- the image whose `load` event resumes the queue
  pub waiting_for : Option ℕ
  -- `_flushPromise` is there, and how many such promises were resolved
  pub flush_promise : Bool
  pub resolved : ℕ

-- A call on the back buffer and the damage that it does.
abbrev pub paint : Paint → Area → Screen → Screen
paint p a s = record s { paints = s.paints ++ (p ∷ []); bounds = damage a s.bounds }

-- `flip(true)`
unfoldable pub flip_now : Screen → Screen
flip_now s = record s {
  paints = elim (flip_copy s.view s.bounds) [
    | none ↦ s.paints
    | some c ↦ s.paints ++ (show c ∷ [])
  ];
  bounds = no_damage;
}

-- `drawImage`: the damage has the size of the image.
abbrev pub draw_image : ℕ → ℤ → ℤ → (ℤ × ℤ) → Screen → Screen
draw_image img x y size s = paint (draw img x y) (record { x = x; y = y; w = size.0; h = size.1 }) s

-- The methods with `fromQueue`; an image is given with its size.
unfoldable pub perform : Action → (ℤ × ℤ) → Screen → Screen
unfolding flip_now
perform flip_action size s = flip_now s
perform (fill_action a color) size s = paint (fill a color) a s
perform (copy_action old_x old_y a) size s = paint (copy old_x old_y a) a s
perform (blit_action a pixels) size s = paint (put a pixels) a s
perform (img_action img a) size s = draw_image img a.x a.y size s

pub data Readiness : Type 0 where
  ready : (ℤ × ℤ) → Readiness
  -- the image is not complete
  not_loaded : ℕ → Readiness
  -- "Decoded image has incorrect dimensions."
  wrong_size : Readiness

abbrev pub image_readiness : Area → ℕ → Option (ℤ × ℤ) → Readiness
image_readiness a img none = not_loaded img
image_readiness a img (some (width, height)) =
    if eqb_ℤ width a.w && eqb_ℤ height a.h then ready (width, height) else wrong_size

unfoldable pub readiness : Images → Action → Readiness
readiness images (img_action img a) = image_readiness a img (images img)
readiness images flip_action = ready (pos 0, pos 0)
readiness images (fill_action a color) = ready (pos 0, pos 0)
readiness images (copy_action old_x old_y a) = ready (pos 0, pos 0)
readiness images (blit_action a pixels) = ready (pos 0, pos 0)

-- The loop of `_scanRenderQ`: what is left of the queue, and the image to wait for.
unfoldable pub scan_from : Images → List Action → Screen → List Action × Screen × Option ℕ
unfolding readiness perform
scan_from images [] s = ([], s, none)
scan_from images (a ∷ q) s = elim (readiness images a) [
  | ready size ↦ scan_from images q (perform a size s)
  | not_loaded img ↦ (a ∷ q, s, some img)
  | wrong_size ↦ (a ∷ q, s, none)
]

abbrev pub is_empty : List Action → Bool
is_empty [] = true
is_empty (a ∷ q) = false

-- A listener that was added before stays.
abbrev pub listener : Option ℕ → Option ℕ → Option ℕ
listener before none = before
listener before (some img) = some img

unfoldable pub scan_render_q : Images → Display → Display
unfolding scan_from
scan_render_q images d =
    let (q, s, waiting) = scan_from images d.render_q d.screen in
    let drained = is_empty q && d.flush_promise in
    record {
      screen = s;
      render_q = q;
      waiting_for = listener d.waiting_for waiting;
      flush_promise = if drained then false else d.flush_promise;
      resolved = if drained then d.resolved + 1 else d.resolved;
    }

unfoldable pub render_q_push : Images → Action → Display → Display
unfolding scan_render_q
render_q_push images a d =
    let pushed = record d { render_q = d.render_q ++ (a ∷ []) } in
    if length pushed.render_q == 1 then scan_render_q images pushed else pushed

-- `_resumeRenderQ`, the listener of the `load` event, which takes itself away first.
unfoldable pub resume_render_q : Images → Display → Display
unfolding scan_render_q
resume_render_q images d = scan_render_q images (record d { waiting_for = none })

-- A method called without `fromQueue`, except for `imageRect` and `blitImage`.
unfoldable pub now_or_later : Images → Action → Display → Display
unfolding render_q_push perform
now_or_later images a d =
    if is_empty d.render_q
    then record d { screen = perform a (pos 0, pos 0) d.screen }
    else render_q_push images a d

-- A typed array: its buffer, and where in it the array begins.
pub record View8 : Type 0 where
  pub buffer : List ℕ
  pub byte_offset : ℕ

-- `blitImage` of a width and height that are numbers of pixels; `none` is the RangeError of a buffer
-- that is too short. The queue takes the bytes from the start of the buffer.
unfoldable pub blit_image : Images → ℤ → ℤ → ℕ → ℕ → View8 → ℕ → Display → Option Display
unfolding render_q_push perform
blit_image images x y width height arr offset d =
    let size = width * height * 4 in
    let area : Area = record { x = x; y = y; w = pos width; h = pos height } in
    let start = arr.byte_offset + offset in
    if is_empty d.render_q
    then if leb (start + size) (length arr.buffer)
      then some (record d {
        screen =
            perform (blit_action area (slice arr.buffer start (start + size))) (pos 0, pos 0)
              d.screen;
      })
      else none
    else if leb size (length arr.buffer)
    then some (render_q_push images (blit_action area (slice arr.buffer 0 size)) d)
    else none

-- `imageRect`, with the number of its new image.
unfoldable pub image_rect : Images → ℕ → Area → Display → Display
unfolding render_q_push
image_rect images img a d =
    if eqb_ℤ a.w (pos 0) || eqb_ℤ a.h (pos 0) then d else render_q_push images (img_action img a) d

abbrev pub pending : Display → Bool
pending d = if is_empty d.render_q then false else true

-- `flush`: whether the promise returned is resolved at once.
unfoldable pub flush : Display → Bool × Display
flush d = if is_empty d.render_q then (true, d) else (false, record d { flush_promise = true })

-- What happens to a display.
pub data Event : Type 0 where
  -- one of the methods `flip`, `fillRect` and `copyImage`, by the entry that it makes
  call : Action → Event
  image : ℕ → Area → Event
  blit : (x y : ℤ) (width height : ℕ) → View8 → (offset : ℕ) → Event
  flushed : Event
  -- the image is complete, with this size
  loaded : ℕ → (ℤ × ℤ) → Event

pub record Page : Type 0 where
  pub images : Images
  pub display : Display

abbrev pub is_for : ℕ → Option ℕ → Bool
is_for img none = false
is_for img (some i) = i == img

abbrev pub complete : ℕ → (ℤ × ℤ) → Images → Images
complete img size images i = if i == img then some size else images i

unfoldable pub step : Event → Page → Option Page
unfolding now_or_later image_rect blit_image flush resume_render_q
step (call a) p = some (record p { display = now_or_later p.images a p.display })
step (image img a) p = some (record p { display = image_rect p.images img a p.display })
step (blit x y width height arr offset) p =
    elim (blit_image p.images x y width height arr offset p.display) [
      | none ↦ none
      | some d ↦ some (record p { display = d })
    ]
step flushed p = some (record p { display = (flush p.display).1 })
step (loaded img size) p =
    let images = complete img size p.images in
    some (record {
      images = images;
      display =
          if is_for img p.display.waiting_for then resume_render_q images p.display else p.display;
    })

unfoldable pub run : List Event → Page → Option Page
unfolding step
run [] p = some p
run (e ∷ es) p = elim (step e p) [ none ↦ none | some p' ↦ run es p' ]
