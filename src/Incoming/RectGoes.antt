-- ===== src/Incoming/RectGoes.antt =====
-- `_handleRect` of rfb.js called again when more bytes have arrived.
use warpyard.Base.{
  ℕ, Bool, true, false, Option, none, some, List, [], ◌++◌, map, ◌≡◌, refl, sym, ap, subst, ◌∙◌,
  arith, length, ◌==◌, if◌then◌else◌,
}
use mathlib.Core.List.{map-append}
use warpyard.Stream.{Stream}
use warpyard.Stream.Handler.{Handler}
use warpyard.Stream.Handler.Resumes.{Resumes}
use warpyard.Stream.Handler.Lax.{strict-Lax}
use warpyard.Decoders
use warpyard.Decoders.{Rect, Outcome, Call}
use warpyard.Decoders.Feed.{Decoder, go_on, Shrinks}
use warpyard.Incoming.{Client, Effect, Done, Reply, returns, Decoders, after, finish, resize, draws}
use warpyard.Incoming.Kept.{Proper}
use warpyard.Incoming.Handlers.{
  handle_cursor-Resumes, handle_led_event-Resumes, handle_desktop_name-Resumes,
}
use warpyard.Incoming.Sizes.{handle_extended_desktop_size-Resumes}
use warpyard.Incoming.Lax.{handle_vmware_cursor-Resumes}
use warpyard.Incoming.Rects.{handle_rect, handle_data_rect, decode_with, drawn, answer}
use warpyard.Incoming.Pseudo.{
  handle_cursor, handle_vmware_cursor, handle_led_event, handle_desktop_name,
  handle_extended_desktop_size, last_rect, vmware_cursor, cursor, qemu_extended_key_event,
  desktop_name, desktop_size, extended_desktop_size, qemu_led_event,
}
use warpyard.Incoming.GoesOn.{Goes, Follows, Stays, reply-Goes}

drawn-after :
    {D : Type 0} (c : Client D) (calls : List Call) (o : Outcome D)
    → drawn c (Decoders.after calls o) ≡ after (map draws calls) (drawn c o)
drawn-after c calls (Decoders.returns r) =
    ap
      (λ l. returns (record {
        finished = r.finished;
        client = record c { decoders = r.state };
        rest = r.rest;
        effects = l;
      }))
      (map-append draws calls r.calls)
drawn-after c calls Decoders.underflow = refl
drawn-after c calls Decoders.throws = refl

drawn-decoders :
    {D : Type 0} (c : Client D) (s : D) (o : Outcome D)
    → drawn (record c { decoders = s }) o ≡ drawn c o
drawn-decoders c s (Decoders.returns r) = refl
drawn-decoders c s Decoders.underflow = refl
drawn-decoders c s Decoders.throws = refl

module _ {D : Type 0} (h : Client D → Stream → Reply D) (c : Client D) (q more : Stream) where
  -- A branch of `h`, where `h` is this branch.
  abbrev Branch : (Client D → Stream → Reply D) → Type 0
  Branch f =
      ((c' : Client D) (q' : Stream) → h c' q' ≡ f c' q')
      → Goes (Stays c) h 0 c q more (f c q) (f c (q ++ more))

  if-Branch :
      (b : Bool) (f g : Client D → Stream → Reply D)
      → Branch f
      → Branch g
      → Branch (λ c' q'. if b then f c' q' else g c' q')
  if-Branch true f g p r = p
  if-Branch false f g p r = r

  handler-Branch :
      (handler : Client D → Handler (Done D))
      → Resumes (Unit {0}) (Proper c) (handler c) 0 0
      → Branch (λ c' q'. answer c' q' (handler c'))
  handler-Branch handler r same =
      reply-Goes h c q more 0 (handler c q 0) (handler c (q ++ more) 0)
        (r.same q more (omega arith)) (same c (q ++ more))

  strict-Branch :
      (handler : Client D → Handler (Done D))
      → Resumes ⊥ (Proper c) (handler c) 0 0
      → Branch (λ c' q'. answer c' q' (handler c'))
  strict-Branch handler r = handler-Branch handler (strict-Lax (Proper c) (handler c) 0 0 r)

  -- A part that reads nothing.
  finish-Branch :
      (f : Client D → Client D) (es : Client D → List Effect)
      → (f c).rects ≡ c.rects
      → (f c).encoding ≡ c.encoding
      → (f c).flushing ≡ c.flushing
      → (f c).failed ≡ c.failed
      → Branch (λ c' q'. finish (f c') q' (es c'))
  finish-Branch f es n e p r same = record {
    follows = refl;
    flushing = p;
    failed = λ calm. r;
    shorter = λ t. omega arith;
    left = omega arith;
    said = (n, e);
  }

  outcome-Follows :
      (d : Decoder D) (o : Outcome D) (r : Decoders.Step D) (b : Bool)
      → ((c' : Client D) (q' : Stream)
          → c'.rect ≡ c.rect
          → c'.fb_depth ≡ c.fb_depth
          → h c' q' ≡ drawn c' (d.decode c'.decoders q'))
      → r.finished ≡ b
      → Follows h b
          (record {
            finished = r.finished;
            client = record c { decoders = r.state };
            rest = r.rest;
            effects = map draws r.calls;
          })
          more
          (drawn c (
            if b
            then Decoders.returns (record r { rest = r.rest ++ more })
            else Decoders.after r.calls (d.decode r.state (r.rest ++ more))))
  outcome-Follows d o r true same e = refl
  outcome-Follows d o r false same e = λ calm.
      drawn-after c r.calls (d.decode r.state (r.rest ++ more))
      ∙ ap (after (map draws r.calls)) (
          sym (
            same (record c { decoders = r.state }) (r.rest ++ more) refl refl
            ∙ drawn-decoders c r.state (d.decode r.state (r.rest ++ more))))

  -- A decoder's outcome, with more bytes.
  outcome-Goes :
      (d : Decoder D) (o : Outcome D)
      → ((c' : Client D) (q' : Stream)
          → c'.rect ≡ c.rect
          → c'.fb_depth ≡ c.fb_depth
          → h c' q' ≡ drawn c' (d.decode c'.decoders q'))
      → Shrinks o (length q)
      → Goes (Stays c) h 0 c q more (drawn c o) (drawn c (go_on d.decode o more))
  outcome-Goes d (Decoders.returns r) same le = record {
    follows = outcome-Follows d (Decoders.returns r) r r.finished same refl;
    flushing = refl;
    failed = λ calm. refl;
    shorter = λ t. omega (arith, le);
    left = le;
    said = (refl, refl);
  }
  outcome-Goes d Decoders.underflow same le = tt
  outcome-Goes d Decoders.throws same le = refl

  same_decoder :
      (decoder : Rect → ℕ → Decoder D) (c' : Client D) (q' : Stream)
      → c'.rect ≡ c.rect
      → c'.fb_depth ≡ c.fb_depth
      → drawn c' ((decoder c'.rect c'.fb_depth).decode c'.decoders q')
        ≡ drawn c' ((decoder c.rect c.fb_depth).decode c'.decoders q')
  same_decoder decoder c' q' r e = rw r (rw e refl)

  data-Branch :
      (decoder : Option (Rect → ℕ → Decoder D)) → Branch (λ c' q'. decode_with c' decoder q')
  data-Branch none same = record {
    follows = λ calm. absurd calm.0;
    flushing = refl;
    failed = λ calm. absurd calm.0;
    shorter = λ t. absurd (cc t);
    left = omega arith;
    said = (refl, refl);
  }
  data-Branch (some decoder) same =
      let d = decoder c.rect c.fb_depth in
      subst (λ o. Goes (Stays c) h 0 c q more (drawn c (d.decode c.decoders q)) (drawn c o))
        (sym (d.resumes c.decoders q more))
        (outcome-Goes d (d.decode c.decoders q)
          (λ c' q' r e. same c' q' ∙ same_decoder decoder c' q' r e) (d.shrinks c.decoders q))

module _ {D : Type 0} (decoders : Decoders D) (c : Client D) (q more : Stream) where
  -- A rectangle goes on where it stopped.
  pub handle_rect-Goes :
      (e : ℕ)
      → Goes
          (Stays c)
          (handle_rect decoders e)
          0
          c
          q
          more
          (handle_rect decoders e c q)
          (handle_rect decoders e c (q ++ more))
  unfolding handle_rect handle_data_rect resize
  handle_rect-Goes e =
      let branch = if-Branch (handle_rect decoders e) c q more in
      let finished = finish-Branch (handle_rect decoders e) c q more in
      let handled = strict-Branch (handle_rect decoders e) c q more in
      branch (e == last_rect) _ _ (finished (λ c'. c') (λ c'. []) refl refl refl refl)
        (branch (e == vmware_cursor) _ _
          (handler-Branch (handle_rect decoders e) c q more handle_vmware_cursor
            (handle_vmware_cursor-Resumes c))
          (branch (e == cursor) _ _ (handled handle_cursor (handle_cursor-Resumes c)) (
            branch (e == qemu_extended_key_event) _ _
              (finished (λ c'. record c' { qemu_ext_key_event_supported = true }) (λ c'. []) refl
                refl refl refl)
              (branch (e == desktop_name) _ _
                (handled handle_desktop_name (handle_desktop_name-Resumes c))
                (branch (e == desktop_size) _ _
                  (finished (λ c'. (resize c'.rect.width c'.rect.height c').0)
                    (λ c'. (resize c'.rect.width c'.rect.height c').1) refl refl refl refl)
                  (branch (e == extended_desktop_size) _ _
                    (handled handle_extended_desktop_size (handle_extended_desktop_size-Resumes c))
                    (branch (e == qemu_led_event) _ _
                      (handled handle_led_event (handle_led_event-Resumes c))
                      (data-Branch (handle_rect decoders e) c q more (decoders e)))))))))
        (λ c' q'. refl)
