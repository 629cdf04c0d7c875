-- ===== src/Display/Order.antt =====
-- The render queue of display.js against a display that draws every call at once.
use warpyard.Base.{
  ℕ, ◌+◌, ◌*◌, ◌≤◌, true, false, ◌||◌, Option, none, some, List, [], ◌∷◌, ◌++◌, ◌≡◌, refl, sym, ap,
  subst, ◌⊎◌, ◌∙◌, inl, inr, arith, length, slice, leb, ◌==◌, if◌then◌else◌, Bool-cases,
}
use warpyard.Base.Int.{ℤ, pos}
use warpyard.Display.Viewport.{eqb_ℤ}
use warpyard.Display.Queue.{
  Action, flip_action, fill_action, copy_action, blit_action, img_action, Images, Display, perform,
  is_empty, render_q_push, resume_render_q, now_or_later, View8, blit_image, image_rect, flush,
  Event, call, image, blit, flushed, loaded, Page, is_for, complete, step, run,
}
use warpyard.Display.Settled.{
  Sizes, size_of, perform_all, perform_all-append, Agrees, settled, scan_render_q-settled,
  render_q_push-settled, is_empty-true,
}

-- The entries that a call asks for.
abbrev pub asked : Event → List Action
asked (call a) = a ∷ []
asked (image img a) = if eqb_ℤ a.w (pos 0) || eqb_ℤ a.h (pos 0) then [] else img_action img a ∷ []
asked (blit x y width height arr offset) =
    blit_action (record { x = x; y = y; w = pos width; h = pos height })
      (slice arr.buffer (arr.byte_offset + offset) (arr.byte_offset + offset + width * height * 4))
    ∷ []
asked _ = []

abbrev pub all_asked : List Event → List Action
all_asked [] = []
all_asked (e ∷ es) = asked e ++ all_asked es

-- A call that the display may take: images come by `imageRect`, an array is long enough and, where the call
-- is queued, starts where its buffer does, and an image gets the size that it has.
abbrev pub IsProper : Sizes → Display → Event → Type 0
IsProper sizes d (call (img_action img a)) = ⊥
IsProper sizes d (blit x y width height arr offset) =
    ((is_empty d.render_q ≡ true) ⊎ (arr.byte_offset + offset ≡ 0))
    × (arr.byte_offset + offset + width * height * 4 ≤ length arr.buffer)
IsProper sizes d (loaded img size) = size ≡ sizes img
IsProper sizes d _ = Unit {0}

abbrev Behind : (Page → Type 0) → Option Page → Type 0
Behind rest none = Unit {0}
Behind rest (some p) = rest p

-- Each of them on the display that the ones before have left.
abbrev pub AreProper : Sizes → List Event → Page → Type 0
AreProper sizes [] p = Unit {0}
AreProper sizes (e ∷ es) p =
    IsProper sizes p.display e × Behind (λ next. AreProper sizes es next) (step e p)

record IsStep (sizes : Sizes) (e : Event) (p : Page) (out : Option Page) : Type 0 where
  next : Page
  returned : out ≡ some next
  agrees : Agrees sizes next.images
  same : settled sizes next.display ≡ perform_all sizes (asked e) (settled sizes p.display)

pub complete-Agrees :
    (sizes : Sizes) (img : ℕ) (size : ℤ × ℤ) (images : Images)
    → Agrees sizes images
    → size ≡ sizes img
    → Agrees sizes (complete img size images)
complete-Agrees sizes img size images agrees h i found e = elim (Bool-cases (i == img)) [
  | inl k ↦ ground (arith, h)
  | inr k ↦ ground (arith, agrees i found)
]

plain_size :
    (sizes : Sizes) (d : Display) (a : Action)
    → IsProper sizes d (call a)
    → size_of sizes a ≡ (pos 0, pos 0)
plain_size sizes d (img_action img a) h = absurd h
plain_size sizes d flip_action h = refl
plain_size sizes d (fill_action a c) h = refl
plain_size sizes d (copy_action x y a) h = refl
plain_size sizes d (blit_action a c) h = refl

now_or_later-settled :
    (sizes : Sizes) (images : Images) (a : Action) (d : Display)
    → Agrees sizes images
    → IsProper sizes d (call a)
    → settled sizes (now_or_later images a d) ≡ perform a (size_of sizes a) (settled sizes d)
now_or_later-settled sizes images a d agrees h = elim (Bool-cases (is_empty d.render_q)) [
  | inl e ↦ ap (settled sizes) (at_once e) ∙ rw (is_empty-true d.render_q e, plain_size sizes d a h)
  | inr e ↦ ap (settled sizes) (queued e) ∙ render_q_push-settled sizes images agrees a d
]
  where
    at_once :
        is_empty d.render_q ≡ true
        → now_or_later images a d ≡ record d { screen = perform a (pos 0, pos 0) d.screen }
    at_once e = unfold now_or_later in rw e

    queued : is_empty d.render_q ≡ false → now_or_later images a d ≡ render_q_push images a d
    queued e = unfold now_or_later in rw e

blit_image-settled :
    (sizes : Sizes) (images : Images) (x y : ℤ) (width height : ℕ) (arr : View8) (offset : ℕ)
    → (d : Display) → Agrees sizes images
    → IsProper sizes d (blit x y width height arr offset)
    → (out : Display) × (blit_image images x y width height arr offset d ≡ some out)
      × (settled sizes out
          ≡ perform_all sizes (asked (blit x y width height arr offset)) (settled sizes d))
blit_image-settled sizes images x y width height arr offset d agrees h =
    elim (Bool-cases (is_empty d.render_q)) [
      | inl e ↦ (
        record d { screen = perform a (pos 0, pos 0) d.screen },
        at_once e,
        rw (is_empty-true d.render_q e),
      )
      | inr e ↦ (
        render_q_push images a d,
        queued e (at_start e h.0),
        render_q_push-settled sizes images agrees a d,
      )
    ]
  where
    size : ℕ
    size = width * height * 4

    start : ℕ
    start = arr.byte_offset + offset

    a : Action
    a =
        blit_action (record { x = x; y = y; w = pos width; h = pos height })
          (slice arr.buffer start (start + size))

    at_once :
        is_empty d.render_q ≡ true
        → blit_image images x y width height arr offset d
          ≡ some (record d { screen = perform a (pos 0, pos 0) d.screen })
    at_once e =
        let fits : leb (start + size) (length arr.buffer) ≡ true = ground (arith, h.1) in
        unfold blit_image in rw (e, fits)

    at_start : is_empty d.render_q ≡ false → (is_empty d.render_q ≡ true) ⊎ (start ≡ 0) → start ≡ 0
    at_start e (inl empty) = absurd (cc (e, empty))
    at_start e (inr z) = z

    bytes : start ≡ 0 → slice arr.buffer 0 size ≡ slice arr.buffer start (start + size)
    bytes z =
        ap (λ k. slice arr.buffer 0 k) {y = 0 + size} (omega arith)
        ∙ ap (λ k. slice arr.buffer k (k + size)) {y = start} (sym z)

    queued :
        is_empty d.render_q ≡ false
        → start ≡ 0
        → blit_image images x y width height arr offset d ≡ some (render_q_push images a d)
    queued e z =
        let fits : leb size (length arr.buffer) ≡ true = ground (arith, h.1) in
        unfold blit_image in rw (e, fits, bytes z)

step-IsStep :
    (sizes : Sizes) (e : Event) (p : Page)
    → Agrees sizes p.images
    → IsProper sizes p.display e
    → IsStep sizes e p (step e p)
unfolding step
step-IsStep sizes (call a) p agrees h = record {
  next = record p { display = now_or_later p.images a p.display };
  returned = refl;
  agrees = agrees;
  same = now_or_later-settled sizes p.images a p.display agrees h;
}
step-IsStep sizes (image img a) p agrees h = record {
  next = record p { display = image_rect p.images img a p.display };
  returned = refl;
  agrees = agrees;
  same =
      unfold image_rect in
      elim (Bool-cases (eqb_ℤ a.w (pos 0) || eqb_ℤ a.h (pos 0))) [
        | inl e ↦ rw e
        | inr e ↦ rw e (render_q_push-settled sizes p.images agrees (img_action img a) p.display)
      ];
}
step-IsStep sizes (blit x y width height arr offset) p agrees h =
    let (out, e, same) =
      blit_image-settled sizes p.images x y width height arr offset p.display agrees h in
    record {
      next = record p { display = out };
      returned = rw (step, e);
      agrees = agrees;
      same = same;
    }
step-IsStep sizes flushed p agrees h = record {
  next = record p { display = (flush p.display).1 };
  returned = refl;
  agrees = agrees;
  same =
      unfold flush in
      elim (Bool-cases (is_empty p.display.render_q)) [ inl e ↦ rw e | inr e ↦ rw e ];
}
step-IsStep sizes (loaded img size) p agrees h =
    let images = complete img size p.images in
    let agrees' : Agrees sizes images = complete-Agrees sizes img size p.images agrees h in
    record {
      next = record {
        images = images;
        display =
            if is_for img p.display.waiting_for
            then resume_render_q images p.display
            else p.display;
      };
      returned = refl;
      agrees = agrees';
      same =
          unfold resume_render_q in
          elim (Bool-cases (is_for img p.display.waiting_for)) [
            | inl e ↦ rw e (
                scan_render_q-settled sizes images agrees'
                  (record p.display { waiting_for = none }))
            | inr e ↦ rw e
          ];
    }

pub run-some :
    (e : Event) (es : List Event) (p next : Page)
    → step e p ≡ some next
    → run (e ∷ es) p ≡ run es next
unfolding run
run-some e es p next h = rw (run, h)

-- For any sequence of proper calls and of images that become complete, whatever the order in which these do,
-- no call fails, and what the canvases show when the rest of the queue is drawn is what they would show if
-- every call had drawn at once: no drawing is lost, repeated or moved before another. A call is proper if
-- images come by `imageRect` and get the sizes that they have, and the array of a blit is long enough and,
-- where the blit finds a queue, starts where its buffer does.
pub run-settled :
    (sizes : Sizes) (es : List Event) (p : Page)
    → Agrees sizes p.images
    → AreProper sizes es p
    → (out : Page) × (run es p ≡ some out)
      × (settled sizes out.display ≡ perform_all sizes (all_asked es) (settled sizes p.display))
run-settled sizes [] p agrees h = (p, unfold run in refl, refl)
run-settled sizes (e ∷ es) p agrees h =
    let s = step-IsStep sizes e p agrees h.0 in
    let (out, returned, same) =
      run-settled sizes es s.next s.agrees
        (subst (Behind (λ next. AreProper sizes es next)) s.returned h.1) in
    (
      out,
      run-some e es p s.next s.returned ∙ returned,
      same
          ∙ ap (perform_all sizes (all_asked es)) s.same
          ∙ sym (perform_all-append sizes (asked e) (all_asked es) (settled sizes p.display)),
    )
