-- ===== src/Display/Stuck.antt =====
-- The render queue of display.js behind an image of a wrong size.
use warpyard.Base.{
  ℕ, suc, ◌*◌, ◌≤◌, true, false, ◌||◌, Option, none, some, List, [], ◌∷◌, ◌++◌, ◌≡◌, refl, sym, ap,
  subst, ◌∙◌, inl, inr, arith, length, slice, leb, ◌==◌, Bool-cases, All,
}
use warpyard.Base.Int.{ℤ, pos}
use warpyard.Display.Viewport.{eqb_ℤ}
use warpyard.Display.Damage.{Area}
use warpyard.Display.Queue.{
  Action, View8, blit_action, img_action, Images, Display, wrong_size, readiness, image_readiness,
  scan_from, is_empty, render_q_push, resume_render_q, now_or_later, blit_image, image_rect, flush,
  Event, call, image, blit, flushed, loaded, Page, is_for, complete, step, run, pending,
}
use warpyard.Display.Settled.{Sizes, Agrees, scan-wrong_size}
use warpyard.Display.Order.{complete-Agrees, run-some}

-- A queue that begins with an image of a wrong size.
abbrev pub IsStuck : Page → Type 0
IsStuck p =
    (img : ℕ) × (a : Area) × (q : List Action) × (p.display.render_q ≡ img_action img a ∷ q)
    × (readiness p.images (img_action img a) ≡ wrong_size)

-- The size of an image that is complete does not change, and no array is too short.
abbrev pub IsSound : Sizes → Event → Type 0
IsSound sizes (blit x y width height arr offset) = width * height * 4 ≤ length arr.buffer
IsSound sizes (loaded img size) = size ≡ sizes img
IsSound sizes _ = Unit {0}

record StaysStuck (sizes : Sizes) (p : Page) (out : Option Page) : Type 0 where
  next : Page
  returned : out ≡ some next
  stuck : IsStuck next
  unpainted : next.display.screen ≡ p.display.screen
  agrees : Agrees sizes next.images

push-stuck :
    (images : Images) (b : Action) (d : Display) (a : Action) (q : List Action)
    → d.render_q ≡ a ∷ q
    → render_q_push images b d ≡ record d { render_q = a ∷ (q ++ (b ∷ [])) }
unfolding render_q_push
push-stuck images b d a q h =
    let more : (length (d.render_q ++ (b ∷ [])) == 1) ≡ false =
      ap (λ r. length (r ++ (b ∷ [])) == 1) h ∙ longer q in
    rw (more, h)
  where
    longer : (r : List Action) → (suc (length (r ++ (b ∷ []))) == 1) ≡ false
    longer [] = refl
    longer (c ∷ r) = ground arith

push-StaysStuck :
    (sizes : Sizes) (p : Page) (b : Action)
    → IsStuck p
    → Agrees sizes p.images
    → StaysStuck sizes p (some (record p { display = render_q_push p.images b p.display }))
push-StaysStuck sizes p b (img, a, q, e, w) agrees =
    let pushed = push-stuck p.images b p.display (img_action img a) q e in
    record {
      next = record p { display = render_q_push p.images b p.display };
      returned = refl;
      stuck = (img, a, q ++ (b ∷ []), ap (λ (d : Display). d.render_q) pushed, w);
      unpainted = ap (λ (d : Display). d.screen) pushed;
      agrees = agrees;
    }

same-StaysStuck :
    (sizes : Sizes) (p : Page) → IsStuck p → Agrees sizes p.images → StaysStuck sizes p (some p)
same-StaysStuck sizes p s agrees = record {
  next = p;
  returned = refl;
  stuck = s;
  unpainted = refl;
  agrees = agrees;
}

not_empty : (p : Page) → IsStuck p → is_empty p.display.render_q ≡ false
not_empty p (img, a, q, e, w) = ap is_empty e

wrong_size-some :
    (a : Area) (img : ℕ) (o : Option (ℤ × ℤ))
    → image_readiness a img o ≡ wrong_size
    → (s : ℤ × ℤ) × (o ≡ some s)
wrong_size-some a img none h = absurd (cc h)
wrong_size-some a img (some s) h = (s, refl)

complete-known :
    (sizes : Sizes) (images : Images) (i : ℕ) (size : ℤ × ℤ) (img : ℕ) (s : ℤ × ℤ)
    → Agrees sizes images
    → size ≡ sizes i
    → images img ≡ some s
    → complete i size images img ≡ some s
complete-known sizes images i size img s agrees same known = elim (Bool-cases (img == i)) [
  | inl e ↦ ground (arith, agrees img s known)
  | inr e ↦ ground arith
]

-- An image of a wrong size is complete, so that a later event does not change what it is.
wrong_size-kept :
    (sizes : Sizes) (images : Images) (i : ℕ) (size : ℤ × ℤ) (img : ℕ) (a : Area)
    → Agrees sizes images
    → size ≡ sizes i
    → readiness images (img_action img a) ≡ wrong_size
    → readiness (complete i size images) (img_action img a) ≡ wrong_size
unfolding readiness
wrong_size-kept sizes images i size img a agrees same w =
    let (s, known) = wrong_size-some a img (images img) w in
    ap (image_readiness a img)
      (complete-known sizes images i size img s agrees same known ∙ sym known)
    ∙ w

scan-StaysStuck :
    (images : Images) (d : Display) (img : ℕ) (a : Area) (q : List Action)
    → d.render_q ≡ img_action img a ∷ q
    → readiness images (img_action img a) ≡ wrong_size
    → ((resume_render_q images d).render_q ≡ img_action img a ∷ q)
      × ((resume_render_q images d).screen ≡ d.screen)
unfolding resume_render_q
scan-StaysStuck images d img a q e w =
    let r : scan_from images d.render_q d.screen ≡ (img_action img a ∷ q, d.screen, none) =
      ap (λ l. scan_from images l d.screen) e
      ∙ scan-wrong_size images (img_action img a) q d.screen w in
    rw r (refl, refl)

blit-StaysStuck :
    (sizes : Sizes) (x y : ℤ) (width height : ℕ) (arr : View8) (offset : ℕ) (p : Page)
    → IsStuck p
    → Agrees sizes p.images
    → width * height * 4 ≤ length arr.buffer
    → StaysStuck sizes p (step (blit x y width height arr offset) p)
unfolding step
blit-StaysStuck sizes x y width height arr offset p s agrees h =
    subst
      (λ o. StaysStuck sizes p (elim o [ none ↦ none | some d ↦ some (record p { display = d }) ]))
      (sym later) (push-StaysStuck sizes p b s agrees)
  where
    b : Action
    b =
        blit_action (record { x = x; y = y; w = pos width; h = pos height })
          (slice arr.buffer 0 (width * height * 4))

    later :
        blit_image p.images x y width height arr offset p.display
        ≡ some (render_q_push p.images b p.display)
    later =
        let fits : leb (width * height * 4) (length arr.buffer) ≡ true = ground (arith, h) in
        unfold blit_image in rw (not_empty p s, fits)

loaded-StaysStuck :
    (sizes : Sizes) (i : ℕ) (size : ℤ × ℤ) (p : Page)
    → IsStuck p
    → Agrees sizes p.images
    → size ≡ sizes i
    → StaysStuck sizes p (step (loaded i size) p)
unfolding step
loaded-StaysStuck sizes i size p (img, a, q, e, w) agrees h =
    let images = complete i size p.images in
    let wrong : readiness images (img_action img a) ≡ wrong_size =
      wrong_size-kept sizes p.images i size img a agrees h w in
    let agrees' : Agrees sizes images = complete-Agrees sizes i size p.images agrees h in
    elim (Bool-cases (is_for i p.display.waiting_for)) [
      | inl k ↦
          let scanned = scan-StaysStuck images p.display img a q e wrong in
          rw k (record {
            next = record { images = images; display = resume_render_q images p.display };
            returned = refl;
            stuck = (img, a, q, scanned.0, wrong);
            unpainted = scanned.1;
            agrees = agrees';
          })
      | inr k ↦ rw k (record {
        next = record { images = images; display = p.display };
        returned = refl;
        stuck = (img, a, q, e, wrong);
        unpainted = refl;
        agrees = agrees';
      })
    ]

step-StaysStuck :
    (sizes : Sizes) (e : Event) (p : Page)
    → IsStuck p
    → Agrees sizes p.images
    → IsSound sizes e
    → StaysStuck sizes p (step e p)
unfolding step
step-StaysStuck sizes (call b) p s agrees h =
    subst (λ d. StaysStuck sizes p (some (record p { display = d }))) (sym later)
      (push-StaysStuck sizes p b s agrees)
  where
    later : now_or_later p.images b p.display ≡ render_q_push p.images b p.display
    later = unfold now_or_later in rw (not_empty p s)
step-StaysStuck sizes (image img a) p s agrees h =
    unfold image_rect in
    elim (Bool-cases (eqb_ℤ a.w (pos 0) || eqb_ℤ a.h (pos 0))) [
      | inl e ↦ rw e (same-StaysStuck sizes p s agrees)
      | inr e ↦ rw e (push-StaysStuck sizes p (img_action img a) s agrees)
    ]
step-StaysStuck sizes (blit x y width height arr offset) p s agrees h =
    blit-StaysStuck sizes x y width height arr offset p s agrees h
step-StaysStuck sizes flushed p s agrees h =
    unfold flush in
    rw (not_empty p s) (record {
      next = record p { display = record p.display { flush_promise = true } };
      returned = refl;
      stuck = s;
      unpainted = refl;
      agrees = agrees;
    })
step-StaysStuck sizes (loaded i size) p s agrees h = loaded-StaysStuck sizes i size p s agrees h

-- Once an image of a wrong size is first in the queue, nothing is ever drawn again: whatever calls
-- and images follow, the queue stays pending and both canvases stay as they are.
pub run-stuck :
    (sizes : Sizes) (es : List Event) (p : Page)
    → IsStuck p
    → Agrees sizes p.images
    → All (IsSound sizes) es
    → (out : Page) × (run es p ≡ some out)
      × (pending out.display ≡ true)
      × (out.display.screen ≡ p.display.screen)
run-stuck sizes [] p s agrees h = (p, unfold run in refl, let e = not_empty p s in rw e, refl)
run-stuck sizes (e ∷ es) p s agrees h =
    let r = step-StaysStuck sizes e p s agrees h.0 in
    let (out, returned, waits, same) = run-stuck sizes es r.next r.stuck r.agrees h.1 in
    (out, run-some e es p r.next r.returned ∙ returned, waits, same ∙ r.unpainted)
