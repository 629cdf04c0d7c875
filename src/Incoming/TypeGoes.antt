-- ===== src/Incoming/TypeGoes.antt =====
-- The messages of rfb.js by their type, called again when more bytes have arrived.
use warpyard.Base.{
  ℕ, zero, suc, ◌≤◌, ◌<◌, Bool, true, false, Option, List, [], ◌∷◌, ◌++◌, length, length-drop, drop,
  drop-append_le, ltb, ◌==◌, if◌then◌else◌, ◌≡◌, refl, sym, ap, ◌∙◌, arith,
}
use warpyard.Stream.{Stream}
use warpyard.Stream.Handler.{Answer, waits, fault, got, Handler, give}
use warpyard.Stream.Handler.Resumes.{Same, Resumes, give-Resumes}
use warpyard.Stream.Handler.Lax.{strict-Lax}
use warpyard.Inflator.{Pako}
use warpyard.Incoming.{
  Client, rings, fails, Done, Reply, breaks, Decoders, after, reply, done, fail,
  update_continuous_updates,
}
use warpyard.Incoming.Kept.{Proper, done-Proper, failed-Proper, if-Proper}
use warpyard.Incoming.Handlers.{
  handle_server_fence-Resumes, handle_xvp-Resumes, read_update-Resumes,
}
use warpyard.Incoming.Lax.{handle_server_cut_text-Resumes}
use warpyard.Incoming.Clipboard.{handle_server_cut_text}
use warpyard.Incoming.Rects.{update_rects}
use warpyard.Incoming.Messages.{
  handle_server_fence, handle_xvp, end_of_continuous_updates, ask_update, begin_update,
  framebuffer_update, by_type, normal_msg, read_update,
}
use warpyard.Incoming.GoesOn.{Goes, same-Goes, after-nil}
use warpyard.Incoming.UpdateGoes.{go_on_update, update_rects-Goes}
use warpyard.Incoming.MessageGoes.{
  busy, Turn, busy_one, message, MessageGoes, in_update, ask-Goes, reply-Turn,
}

module _ {D : Type 0} (decoders : Decoders D) {Z : Type 0} (pako : Pako Z)
    (deflate : List ℕ → Option (List ℕ)) where
  abbrev one : Client D → Stream → Reply D
  one = message decoders pako deflate

  abbrev of_type : ℕ → Client D → Stream → Reply D
  of_type = by_type decoders pako deflate false

  abbrev OneGoes : Client D → Stream → Stream → Reply D → Reply D → Type 0
  OneGoes = MessageGoes decoders pako deflate

  -- The header of an update.
  begin-Goes :
      (c : Client D) (q more : Stream) (a out : Answer ℕ)
      → Same ⊥ (λ (n : ℕ). Unit {0}) 1 q a out
      → one c (q ++ more) ≡ ask_update (begin_update decoders pako deflate false c (q ++ more) out)
      → OneGoes c q more
          (ask_update (begin_update decoders pako deflate false c q a))
          (ask_update (begin_update decoders pako deflate false c (q ++ more) out))
  begin-Goes c q more (waits p) out s e = record {
    follows = λ calm.
        sym e
        ∙ sym (after-nil (one c (q ++ more)))
        ∙ ap (λ l. after [] (one c (l ++ more))) (all_back p s);
    flushing = refl;
    failed = λ calm. refl;
    shorter = λ t. absurd (cc t);
    left = omega (arith, length-drop p q);
    said = (λ t. absurd (cc t), omega (arith, length-drop p q), λ t. absurd (cc t));
  }
    where
      all_back : (p : ℕ) → p ≡ 0 → q ≡ drop p q
      all_back p z = rw z refl
  begin-Goes c q more fault out s e = absurd s
  begin-Goes c q more (got n i) out s e =
      let c' = record c { rects = n } in
      same-Goes (Turn c q) one 0 c q more refl
        (ap (λ o. ask_update (begin_update decoders pako deflate false c (q ++ more) o)) s.0
          ∙ ap (λ l. ask_update (update_rects decoders n c' l)) (drop-append_le i q more s.2))
        (ask-Goes decoders pako deflate c c' q (drop i q) more
          (update_rects decoders n c' (drop i q)) (update_rects decoders n c' (drop i q ++ more))
          refl refl (omega (arith, length-drop i q, s.1, s.2)) (omega (arith, length-drop i q))
          (update_rects-Goes decoders n c' (drop i q) more refl))

  -- A branch by the type of the message.
  if-Goes :
      (c : Client D) (q more : Stream) (b : Bool) (a a' out out' : Reply D)
      → (one c (q ++ more) ≡ out → OneGoes c q more a out)
      → (one c (q ++ more) ≡ out' → OneGoes c q more a' out')
      → one c (q ++ more) ≡ (if b then out else out')
      → OneGoes c q more (if b then a else a') (if b then out else out')
  if-Goes c q more true a a' out out' h k = h
  if-Goes c q more false a a' out out' h k = k

  give-Turn :
      (answer : Client D → Done D) (c : Client D) (q more : Stream)
      → c.rects ≡ 0
      → 1 ≤ length q
      → Proper c (answer c)
      → one c (q ++ more) ≡ reply c (q ++ more) (got (answer c) 1)
      → OneGoes c q more (reply c q (got (answer c) 1)) (reply c (q ++ more) (got (answer c) 1))
  give-Turn answer c q more n there p =
      reply-Turn decoders pako deflate (λ c'. give (answer c')) c q more n
        (give-Resumes (Unit {0}) (Proper c) (answer c) 1 0 p) there

  end_of_continuous_updates-Proper : (c : Client D) → Proper c (end_of_continuous_updates c)
  unfolding end_of_continuous_updates update_continuous_updates
  end_of_continuous_updates-Proper c =
      if-Proper c c.supports_continuous_updates _ _ (done-Proper c _ _ refl refl refl refl)
        (done-Proper c _ _ refl refl refl refl)

  pub first_update :
      (c : Client D) (q : Stream)
      → c.rects ≡ 0
      → ask_update (framebuffer_update decoders pako deflate false c q)
        ≡ ask_update (begin_update decoders pako deflate false c q (read_update q 1))
  unfolding framebuffer_update
  first_update c q n =
      let none_left : (c.rects == 0) ≡ true = ground (arith, n) in
      ap
        (λ b. ask_update (
          if b
          then begin_update decoders pako deflate false c q (read_update q 1)
          else update_rects decoders c.rects c q))
        none_left

  first_update-Goes :
      (c : Client D) (q more : Stream)
      → c.rects ≡ 0
      → 1 ≤ length q
      → one c (q ++ more)
        ≡ ask_update (framebuffer_update decoders pako deflate false c (q ++ more))
      → OneGoes c q more
          (ask_update (framebuffer_update decoders pako deflate false c q))
          (ask_update (framebuffer_update decoders pako deflate false c (q ++ more)))
  first_update-Goes c q more n there e =
      same-Goes (Turn c q) one 0 c q more (first_update c q n) (first_update c (q ++ more) n) (
        begin-Goes c q more (read_update q 1) (read_update (q ++ more) 1)
          (read_update-Resumes.same q more there) (e ∙ first_update c (q ++ more) n))

  -- By the type of the message.
  by_type-Goes :
      (e : ℕ) (c : Client D) (q more : Stream)
      → c.rects ≡ 0
      → 1 ≤ length q
      → one c (q ++ more) ≡ of_type e c (q ++ more)
      → OneGoes c q more (of_type e c q) (of_type e c (q ++ more))
  unfolding by_type
  by_type-Goes e c q more n there =
      let by = if-Goes c q more in
      let strict : (h : Handler (Done D))
          → Resumes ⊥ (Proper c) h 1 0
          → Resumes (Unit {0}) (Proper c) h 1 0 =
        λ h. strict-Lax (Proper c) h 1 0 in
      by (e == 0) _ _ _ _ (first_update-Goes c q more n there) (
        by (e == 1) _ _ _ _
          (give-Turn fail c q more n there (failed-Proper c _ false refl refl refl))
          (by (e == 2) _ _ _ _
            (give-Turn (λ c'. done c' (rings ∷ [])) c q more n there
              (done-Proper c c _ refl refl refl refl))
            (by (e == 3) _ _ _ _
              (reply-Turn decoders pako deflate (handle_server_cut_text pako deflate) c q more n
                (handle_server_cut_text-Resumes c pako deflate) there)
              (by (e == 150) _ _ _ _
                (give-Turn end_of_continuous_updates c q more n there
                  (end_of_continuous_updates-Proper c))
                (by (e == 248) _ _ _ _
                  (reply-Turn decoders pako deflate handle_server_fence c q more n
                    (strict _ (handle_server_fence-Resumes c)) there)
                  (by (e == 250) _ _ _ _
                    (reply-Turn decoders pako deflate handle_xvp c q more n
                      (strict _ (handle_xvp-Resumes c)) there)
                    (give-Turn (λ c'. done (record c' { failed = true }) (fails ∷ [])) c q more n
                      there (failed-Proper c _ true refl refl refl))))))))

  at_start : (b : ℕ) (c : Client D) (q : Stream) → c.rects ≡ 0 → one c (b ∷ q) ≡ of_type b c (b ∷ q)
  unfolding normal_msg
  at_start b c q n =
      let none_left : ltb 0 c.rects ≡ false = ground (arith, n) in
      ap (λ t. if t then of_type 0 c (b ∷ q) else of_type b c (b ∷ q)) none_left

  start-Goes :
      (c : Client D) (q more : Stream)
      → c.rects ≡ 0
      → OneGoes c q more (one c q) (one c (q ++ more))
  unfolding normal_msg
  start-Goes c [] more n =
      let none_left : ltb 0 c.rects ≡ false = ground (arith, n) in
      same-Goes (Turn c []) one 0 c [] more {a' = breaks}
        (ap (λ t. if t then of_type 0 c [] else breaks) none_left) refl tt
  start-Goes c (b ∷ q) more n =
      same-Goes (Turn c (b ∷ q)) one 0 c (b ∷ q) more (at_start b c q n)
        (at_start b c (q ++ more) n)
        (by_type-Goes b c (b ∷ q) more n (omega arith) (at_start b c (q ++ more) n))

  -- A message goes on where it stopped.
  pub message-Goes :
      (c : Client D) (q more : Stream)
      → Goes (Turn c q) one 0 c q more (one c q) (one c (q ++ more))
  message-Goes c q more = by_rects c.rects refl
    where
      by_rects :
          (n : ℕ) → c.rects ≡ n → Goes (Turn c q) one 0 c q more (one c q) (one c (q ++ more))
      by_rects zero n = start-Goes c q more n
      by_rects (suc left) n =
          let some_left : 0 < c.rects = omega (arith, n) in
          let is_one : busy c ≡ 1 = busy_one c left n in
          same-Goes (Turn c q) one 0 c q more (in_update decoders pako deflate c q some_left)
            (in_update decoders pako deflate c (q ++ more) some_left)
            (ask-Goes decoders pako deflate c c q q more (go_on_update decoders c q)
              (go_on_update decoders c (q ++ more)) refl refl (omega (arith, is_one)) (omega arith)
              (update_rects-Goes decoders c.rects c q more refl))
