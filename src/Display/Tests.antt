-- ===== src/Display/Tests.antt =====
-- Runs of display.js.
use warpyard.Base.{true, false, none, some, List, [], ◌∷◌, ◌≡◌, inr, inl, refl, ◌↔◌, arith, All}
use warpyard.Base.Int.{ℤ, pos, negsuc, ◌+ℤ◌}
use warpyard.Display.Viewport.{
  View, FitsBuffer, IsMoved, IsInside, viewport_change_pos, viewport_change_pos-IsMoved, resize,
  set_clip_viewport,
}
use warpyard.Display.Resize.{resize-IsInside}
use warpyard.Display.Damage.{
  Area, no_damage, flip_copy, InCopy, IsDamaged, IsVisible, IsPlaced, flip_copy-exact, InArea,
}
use warpyard.Display.Drawn.{damage_all, flip_copy_complete}
use warpyard.Display.Queue.{
  flip_action, img_action, Images, Display, readiness, resume_render_q, Event, call, image, blit,
  flushed, loaded, Page, pending, run, View8,
}
use warpyard.Display.Settled.{Sizes, perform_all, Agrees, settled}
use warpyard.Display.Order.{all_asked, AreProper, run-settled}
use warpyard.Display.Drain.{IsLoaded, resume_render_q-drains}
use warpyard.Display.Stuck.{IsStuck, IsSound, run-stuck}

abbrev view : View
view = record {
  x = pos 10;
  y = pos 0;
  w = pos 50;
  h = pos 40;
  fb_width = pos 100;
  fb_height = pos 80;
  clip_viewport = true;
}

view-FitsBuffer : FitsBuffer view
view-FitsBuffer = record {
  left = omega arith;
  top = omega arith;
  wide = omega arith;
  high = omega arith;
}

viewport_change_pos-IsMoved_example : IsMoved view (viewport_change_pos (pos 900) (negsuc 7) view)
viewport_change_pos-IsMoved_example =
    viewport_change_pos-IsMoved (pos 900) (negsuc 7) view view-FitsBuffer

resize-IsInside_example :
    IsInside (resize (pos 30) (pos 90) view) × IsInside (set_clip_viewport false view)
resize-IsInside_example = resize-IsInside (pos 30) (pos 90) false view (omega arith) (omega arith)

abbrev square : Area
square = record { x = pos 12; y = pos 3; w = pos 2; h = pos 2 }

abbrev far : Area
far = record { x = pos 90; y = pos 70; w = pos 5; h = pos 5 }

flip_copy-exact_example :
    ((px py : ℤ)
      → InCopy (flip_copy view (damage_all (far ∷ square ∷ []) no_damage)) px py
        ↔ (IsDamaged (damage_all (far ∷ square ∷ []) no_damage) px py × IsVisible view px py))
    × IsPlaced view (flip_copy view (damage_all (far ∷ square ∷ []) no_damage))
flip_copy-exact_example = flip_copy-exact view (damage_all (far ∷ square ∷ []) no_damage)

in_square : InArea square (pos 13) (pos 4)
unfolding ◌+ℤ◌
in_square = omega arith

in_view : IsVisible view (pos 13) (pos 4)
unfolding ◌+ℤ◌
in_view = omega arith

flip_copy_complete_example :
    InCopy (flip_copy view (damage_all (far ∷ square ∷ far ∷ []) no_damage)) (pos 13) (pos 4)
flip_copy_complete_example =
    flip_copy_complete view (far ∷ []) square (far ∷ []) (pos 13) (pos 4) in_square in_view

abbrev no_images : Images
no_images img = none

abbrev sizes : Sizes
sizes img = (pos 2, pos 2)

abbrev fresh : Display
fresh = record {
  screen = record { view = view; bounds = no_damage; paints = [] };
  render_q = [];
  waiting_for = none;
  flush_promise = false;
  resolved = 0;
}

no_images-Agrees : Agrees sizes no_images
no_images-Agrees img size h = absurd (cc h)

abbrev arr : View8
arr = record { buffer = 1 ∷ 2 ∷ 3 ∷ 4 ∷ 5 ∷ 6 ∷ 7 ∷ 8 ∷ []; byte_offset = 0 }

-- A view that does not start where its buffer does, drawn at once, and an image with two calls that wait
-- for it.
abbrev events : List Event
events =
    blit (pos 0) (pos 0) 1 1 (record arr { byte_offset = 2 }) 1
    ∷ image 7 square
    ∷ blit (pos 0) (pos 0) 1 1 arr 0
    ∷ call flip_action
    ∷ flushed
    ∷ loaded 7 (pos 2, pos 2)
    ∷ []

abbrev first_page : Page
first_page = record { images = no_images; display = fresh }

events-AreProper : AreProper sizes events first_page
unfolding run
events-AreProper = ((inl refl, omega arith), (_, ((inr refl, omega arith), (_, (_, (refl, _))))))

run-settled_example :
    (out : Page) × (run events first_page ≡ some out)
    × (settled sizes out.display ≡ perform_all sizes (all_asked events) (settled sizes fresh))
run-settled_example = run-settled sizes events first_page no_images-Agrees events-AreProper

abbrev two_by_two : Images
two_by_two img = some (pos 2, pos 2)

abbrev queued : Display
queued = record fresh { render_q = img_action 7 square ∷ flip_action ∷ []; flush_promise = true }

queued-IsLoaded : All (IsLoaded sizes two_by_two) queued.render_q
unfolding readiness
queued-IsLoaded = (refl, (refl, _))

resume_render_q-drains_example :
    let out = resume_render_q two_by_two queued in
    (out.render_q ≡ [])
    × (out.screen ≡ settled sizes queued)
    × (out.flush_promise ≡ false)
    × (out.resolved ≡ 1)
resume_render_q-drains_example = resume_render_q-drains sizes two_by_two queued queued-IsLoaded

abbrev bad_page : Page
bad_page = record {
  images = two_by_two;
  display = record fresh { render_q = img_action 7 far ∷ [] };
}

bad_page-IsStuck : IsStuck bad_page
unfolding readiness
bad_page-IsStuck = (7, far, [], refl, refl)

two_by_two-Agrees : Agrees sizes two_by_two
two_by_two-Agrees img size h = cc h

events-IsSound : All (IsSound sizes) events
events-IsSound = (omega arith, (_, (omega arith, (_, (_, (refl, _))))))

run-stuck_example :
    (out : Page) × (run events bad_page ≡ some out)
    × (pending out.display ≡ true)
    × (out.display.screen ≡ fresh.screen)
run-stuck_example =
    run-stuck sizes events bad_page bad_page-IsStuck two_by_two-Agrees events-IsSound
