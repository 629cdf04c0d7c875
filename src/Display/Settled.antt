-- ===== src/Display/Settled.antt =====
-- What the canvases will show once the render queue of display.js is drained.
use warpyard.Base.{
  ℕ, true, ◌&&◌, Option, none, some, List, [], ◌∷◌, ◌++◌, ◌≡◌, refl, ap, ◌∙◌, ◌⊎◌, inl, inr, arith,
  length, ◌==◌, Bool-cases,
}
use warpyard.Base.Int.{ℤ, pos}
use warpyard.Display.Viewport.{eqb_ℤ}
use warpyard.Display.Damage.{Area}
use warpyard.Display.Queue.{
  Action, flip_action, fill_action, copy_action, blit_action, img_action, Images, Screen, Display,
  perform, Readiness, ready, not_loaded, wrong_size, readiness, image_readiness, scan_from,
  is_empty, scan_render_q, render_q_push,
}

-- The sizes that the images have once they are complete.
abbrev pub Sizes : Type 0
Sizes = ℕ → ℤ × ℤ

abbrev pub size_of : Sizes → Action → ℤ × ℤ
size_of sizes (img_action img a) = sizes img
size_of sizes _ = (pos 0, pos 0)

-- Every action performed at once, in order.
abbrev pub perform_all : Sizes → List Action → Screen → Screen
perform_all sizes [] s = s
perform_all sizes (a ∷ q) s = perform_all sizes q (perform a (size_of sizes a) s)

pub perform_all-append :
    (sizes : Sizes) (p q : List Action) (s : Screen)
    → perform_all sizes (p ++ q) s ≡ perform_all sizes q (perform_all sizes p s)
perform_all-append sizes [] q s = refl
perform_all-append sizes (a ∷ p) q s = perform_all-append sizes p q (perform a (size_of sizes a) s)

abbrev pub Agrees : Sizes → Images → Type 0
Agrees sizes images = (img : ℕ) (size : ℤ × ℤ) → images img ≡ some size → size ≡ sizes img

-- What the canvases will show when the queue is drained.
abbrev pub settled : Sizes → Display → Screen
settled sizes d = perform_all sizes d.render_q d.screen

pub readiness_cases :
    (r : Readiness)
    → ((size : ℤ × ℤ) × (r ≡ ready size)) ⊎ (((img : ℕ) × (r ≡ not_loaded img)) ⊎ (r ≡ wrong_size))
readiness_cases (ready size) = inl (size, refl)
readiness_cases (not_loaded img) = inr (inl (img, refl))
readiness_cases wrong_size = inr (inr refl)

pub scan-ready :
    (images : Images) (a : Action) (q : List Action) (s : Screen) (size : ℤ × ℤ)
    → readiness images a ≡ ready size
    → scan_from images (a ∷ q) s ≡ scan_from images q (perform a size s)
unfolding scan_from
scan-ready images a q s size e = rw (scan_from, e)

pub scan-not_loaded :
    (images : Images) (a : Action) (q : List Action) (s : Screen) (img : ℕ)
    → readiness images a ≡ not_loaded img
    → scan_from images (a ∷ q) s ≡ (a ∷ q, s, some img)
unfolding scan_from
scan-not_loaded images a q s img e = rw (scan_from, e)

pub scan-wrong_size :
    (images : Images) (a : Action) (q : List Action) (s : Screen)
    → readiness images a ≡ wrong_size
    → scan_from images (a ∷ q) s ≡ (a ∷ q, s, none)
unfolding scan_from
scan-wrong_size images a q s e = rw (scan_from, e)

pub is_empty-true : (q : List Action) → is_empty q ≡ true → q ≡ []
is_empty-true [] h = refl
is_empty-true (a ∷ q) h = absurd (cc h)

module _ (sizes : Sizes) (images : Images) (agrees : Agrees sizes images) where
  image_size :
      (a : Area) (img : ℕ) (o : Option (ℤ × ℤ)) (size : ℤ × ℤ)
      → images img ≡ o
      → image_readiness a img o ≡ ready size
      → size ≡ sizes img
  image_size a img none size e p = absurd (cc p)
  image_size a img (some s) size e p = elim (Bool-cases (eqb_ℤ s.0 a.w && eqb_ℤ s.1 a.h)) [
    | inl k ↦ ground (arith, agrees img s e)
    | inr k ↦ ground arith
  ]

  ready_size :
      (a : Action) (size : ℤ × ℤ) → readiness images a ≡ ready size → size ≡ size_of sizes a
  unfolding readiness
  ready_size (img_action img a) size h = image_size a img (images img) size refl h
  ready_size flip_action size h = cc h
  ready_size (fill_action a c) size h = cc h
  ready_size (copy_action x y a) size h = cc h
  ready_size (blit_action a c) size h = cc h

  abbrev left_to_do : List Action × Screen × Option ℕ → Screen
  left_to_do r = perform_all sizes r.0 r.1

  -- A scan performs what it takes from the queue.
  pub scan_from-perform_all :
      (q : List Action) (s : Screen)
      → perform_all sizes (scan_from images q s).0 (scan_from images q s).1 ≡ perform_all sizes q s
  unfolding scan_from
  scan_from-perform_all [] s = refl
  scan_from-perform_all (a ∷ q) s = elim (readiness_cases (readiness images a)) [
    | inl (size, e) ↦
        ap left_to_do (scan-ready images a q s size e)
        ∙ scan_from-perform_all q (perform a size s)
        ∙ ap (λ k. perform_all sizes q (perform a k s)) (ready_size a size e)
    | inr (inl (img, e)) ↦ ap left_to_do (scan-not_loaded images a q s img e)
    | inr (inr e) ↦ ap left_to_do (scan-wrong_size images a q s e)
  ]

  pub scan_render_q-settled :
      (d : Display) → settled sizes (scan_render_q images d) ≡ settled sizes d
  unfolding scan_render_q
  scan_render_q-settled d = scan_from-perform_all d.render_q d.screen

  pub render_q_push-settled :
      (a : Action) (d : Display)
      → settled sizes (render_q_push images a d) ≡ perform a (size_of sizes a) (settled sizes d)
  unfolding render_q_push
  render_q_push-settled a d = elim (Bool-cases (length (d.render_q ++ (a ∷ [])) == 1)) [
    | inl e ↦
        rw e (scan_render_q-settled pushed ∙ perform_all-append sizes d.render_q (a ∷ []) d.screen)
    | inr e ↦ rw e (perform_all-append sizes d.render_q (a ∷ []) d.screen)
  ]
    where
      pushed : Display
      pushed = record d { render_q = d.render_q ++ (a ∷ []) }
