-- ===== src/Incoming/Sizes.antt =====
-- The handlers of rfb.js for the size of the desktop and for cursors, where they wait.
use warpyard.Base.{
  ℕ, zero, suc, ◌+◌, ◌*◌, Bool, true, not, ◌&&◌, [], ◌∷◌, ◌++◌, ◌==◌, if◌then◌else◌, ◌≡◌, refl,
  arith, Bool-cases, inl, inr,
}
use warpyard.Stream.Handler.{Handler, ◌>>=◌, ◌>>◌, read, skip}
use warpyard.Stream.Handler.Resumes.{
  Resumes, give-Resumes, rq_wait-Resumes, skip-Resumes, peek-Resumes,
}
use warpyard.Stream.Handler.Lax.{
  Gets, Gets-Resumes, give-Gets, read-Gets, skip-Gets, >>=-Gets, if-Gets,
}
use warpyard.Incoming.{Client, done, resize, requests_resize}
use warpyard.Incoming.Kept.{Proper, done-Proper}
use warpyard.Incoming.Pseudo.{read_screens, apply_desktop_size, handle_extended_desktop_size}

module _ {D : Type 0} where
  -- The screens change no field but their own.
  pub record KeepsRest (c c' : Client D) : Type 0 where
    pub rects : c'.rects ≡ c.rects
    pub encoding : c'.encoding ≡ c.encoding
    pub flushing : c'.flushing ≡ c.flushing
    pub failed : c'.failed ≡ c.failed

  same : (c : Client D) → KeepsRest c c
  same c = record { rects = refl; encoding = refl; flushing = refl; failed = refl }

  -- The screen that is kept, in front of what follows.
  first_screen :
      (left n : ℕ) (c c' : Client D) {k : Client D → Handler (Client D)}
      → KeepsRest c c'
      → ((c'' : Client D) → KeepsRest c c'' → Gets (k c'') n (KeepsRest c))
      → Gets
          (do
            id ← read 4
            skip 2
            skip 2
            skip 2
            skip 2
            flags ← read 4
            k (record c' { screen_id = id; screen_flags = flags }))
          (16 + n)
          (KeepsRest c)
  first_screen left n c c' {k} s next =
      let whole : 4 + (2 + (2 + (2 + (2 + (4 + n))))) ≡ 16 + n = omega arith in
      rw (← whole) (
        >>=-Gets 4 _ (KeepsRest c) (read-Gets 4) λ id _.
          >>=-Gets 2 _ (KeepsRest c) (skip-Gets 2) λ u1 _.
            >>=-Gets 2 _ (KeepsRest c) (skip-Gets 2) λ u2 _.
              >>=-Gets 2 _ (KeepsRest c) (skip-Gets 2) λ u3 _.
                >>=-Gets 2 _ (KeepsRest c) (skip-Gets 2) λ u4 _.
                  >>=-Gets 4 n (KeepsRest c) (read-Gets 4) λ flags _. next _ (screen_kept id flags))
    where
      screen_kept :
          (id flags : ℕ) → KeepsRest c (record c' { screen_id = id; screen_flags = flags })
      screen_kept id flags = record {
        rects = s.rects;
        encoding = s.encoding;
        flushing = s.flushing;
        failed = s.failed;
      }

  read_screens-Gets :
      (number left n : ℕ) (c c' : Client D)
      → left * 16 ≡ n
      → KeepsRest c c'
      → Gets (read_screens number left c') n (KeepsRest c)
  unfolding read_screens
  read_screens-Gets number zero n c c' e s =
      let none_left : 0 ≡ n = omega (arith, e) in rw (← none_left) (give-Gets (KeepsRest c) c' s)
  read_screens-Gets number (suc left) n c c' e s =
      let more : 16 + left * 16 ≡ n = omega (arith, e) in
      rw (← more) (
        if-Gets (suc left == number) _ _ (16 + left * 16) (KeepsRest c)
          (first_screen left (left * 16) c c' s
            (λ c'' t. read_screens-Gets number left (left * 16) c c'' refl t))
          (>>=-Gets 16 (left * 16) (KeepsRest c) (skip-Gets 16)
            λ u _. read_screens-Gets number left (left * 16) c c' refl s))

  resized-Proper :
      (c c' : Client D) (first : Bool)
      → KeepsRest c c'
      → Proper c (
          done
            (apply_desktop_size c').0
            ((apply_desktop_size c').1 ++ (if first then requests_resize ∷ [] else [])))
  unfolding apply_desktop_size resize
  resized-Proper c c' first s = elim (Bool-cases (c'.rect.x == 1 && not (c'.rect.y == 0))) [
    | inl e ↦ rw e (done-Proper c _ _ s.rects s.encoding s.flushing s.failed)
    | inr e ↦ rw e (done-Proper c _ _ s.rects s.encoding s.flushing s.failed)
  ]

  pub handle_extended_desktop_size-Resumes :
      (c : Client D) → Resumes ⊥ (Proper c) (handle_extended_desktop_size c) 0 0
  unfolding handle_extended_desktop_size
  handle_extended_desktop_size-Resumes c =
      let c1 = record c { supports_set_desktop_size = true } in
      rq_wait-Resumes ⊥ (Proper c) 4 0 0 _ (
        peek-Resumes ⊥ (Proper c) 4 0 _ (omega arith) λ number.
          rq_wait-Resumes ⊥ (Proper c) (4 + number * 16) 0 4 _ (
            skip-Resumes ⊥ (Proper c) 1 _ 0 _ (omega arith) (
              skip-Resumes ⊥ (Proper c) 3 _ 1 _ (omega arith) (
                Gets-Resumes ⊥ (Proper c) (number * 16) _ 4 _ (omega arith)
                  (read_screens-Gets number number (number * 16) c c1 refl (first_kept c))
                  λ c2 s.
                    give-Resumes ⊥ (Proper c) _ _ _
                      (resized-Proper c c2 (not c.supports_set_desktop_size) s)))))
    where
      first_kept : (c : Client D) → KeepsRest c (record c { supports_set_desktop_size = true })
      first_kept c = record { rects = refl; encoding = refl; flushing = refl; failed = refl }
