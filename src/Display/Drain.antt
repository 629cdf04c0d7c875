-- ===== src/Display/Drain.antt =====
-- When the render queue of display.js drains, and what a queued blit shows.
use warpyard.Base.{
  ℕ, ◌+◌, ◌*◌, ◌≤◌, true, false, none, some, List, [], ◌∷◌, ◌≡◌, refl, ◌∙◌, arith, length, slice,
  leb, if◌then◌else◌, All,
}
use warpyard.Base.Int.{ℤ, pos}
use warpyard.Display.Damage.{Area}
use warpyard.Display.Queue.{
  Action, blit_action, Images, Screen, Display, perform, ready, readiness, scan_from, is_empty,
  render_q_push, resume_render_q, View8, blit_image, pending,
}
use warpyard.Display.Settled.{
  Sizes, size_of, perform_all, Agrees, settled, render_q_push-settled, scan-ready,
}

-- An entry that the loop performs: its image is complete and of the size that was asked for.
abbrev pub IsLoaded : Sizes → Images → Action → Type 0
IsLoaded sizes images a = readiness images a ≡ ready (size_of sizes a)

scan_from-drains :
    (sizes : Sizes) (images : Images) (q : List Action) (s : Screen)
    → All (IsLoaded sizes images) q
    → scan_from images q s ≡ ([], perform_all sizes q s, none)
scan_from-drains sizes images [] s h = unfold scan_from in refl
scan_from-drains sizes images (a ∷ q) s h =
    scan-ready images a q s (size_of sizes a) h.0
    ∙ scan_from-drains sizes images q (perform a (size_of sizes a) s) h.1

-- A `load` event with every image of the queue complete and of the size that was asked for empties
-- the queue, draws all of it in order, and resolves the promise that `flush` gave out, if it did.
pub resume_render_q-drains :
    (sizes : Sizes) (images : Images) (d : Display)
    → All (IsLoaded sizes images) d.render_q
    → let out = resume_render_q images d in
      (out.render_q ≡ [])
      × (out.screen ≡ settled sizes d)
      × (out.flush_promise ≡ false)
      × (out.resolved ≡ (if d.flush_promise then d.resolved + 1 else d.resolved))
unfolding resume_render_q
resume_render_q-drains sizes images d h =
    let e = scan_from-drains sizes images d.render_q d.screen h in
    rw e (refl, refl, ground arith, ground arith)

-- `blitImage` behind a pending entry: whatever part of its buffer the array is, what the canvases show
-- in the end has the bytes from the beginning of the buffer.
pub blit_image-from_start :
    (sizes : Sizes) (images : Images) (x y : ℤ) (width height : ℕ) (arr : View8) (offset : ℕ)
    → (d : Display) → Agrees sizes images
    → arr.byte_offset + offset + width * height * 4 ≤ length arr.buffer
    → pending d ≡ true
    → let area : Area = record { x = x; y = y; w = pos width; h = pos height } in
      (out : Display) × (blit_image images x y width height arr offset d ≡ some out)
      × (settled sizes out
          ≡ perform
              (blit_action area (slice arr.buffer 0 (width * height * 4)))
              (pos 0, pos 0)
              (settled sizes d))
unfolding blit_image
blit_image-from_start sizes images x y width height arr offset d agrees h p =
    let e : is_empty d.render_q ≡ false = ground arith in
    let fits : leb (width * height * 4) (length arr.buffer) ≡ true = ground (arith, h) in
    let b : Action =
      blit_action (record { x = x; y = y; w = pos width; h = pos height })
        (slice arr.buffer 0 (width * height * 4)) in
    (render_q_push images b d, rw (e, fits), render_q_push-settled sizes images agrees b d)
