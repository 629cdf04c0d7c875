-- ===== src/Incoming/Handlers.antt =====
-- Where the handlers of rfb.js for one message or pseudo-encoding wait, and what they have taken
-- then.
use warpyard.Base.{
  ℕ, ◌+◌, ◌-◌, ◌*◌, ◌/◌, ◌%◌, ◌^◌, ◌≤◌, true, false, some, List, ltb, ◌==◌, if◌then◌else◌, ◌≡◌,
  refl, ◌∙◌, arith, Option-cases, inl, inr,
}
use warpyard.Stream.Handler.Resumes.{
  Resumes, give-Resumes, rq_wait-Resumes, read-Resumes, read_bytes-Resumes, skip-Resumes,
}
use warpyard.Incoming.{Client, Done}
use warpyard.Decoders.{Rect}
use warpyard.Utf8.{decode_from, decode_utf8}
use warpyard.Utf8.Latin1.{decode_utf8_latin1, decode_utf8-some}
use warpyard.Incoming.Kept.{Proper, done-Proper, failed-Proper, if-Proper}
use warpyard.Incoming.Pseudo.{
  handle_cursor, handle_led_event, handle_desktop_name, set_desktop_name, read_rect,
}
use warpyard.Incoming.Messages.{
  xvp_answer, fence_answer, handle_server_fence, handle_xvp, read_update,
}

module _ {D : Type 0} (c : Client D) where
  abbrev P : Done D → Type 0
  P = Proper c

  pub handle_cursor-Resumes : Resumes ⊥ (Proper c) (handle_cursor c) 0 0
  unfolding handle_cursor
  handle_cursor-Resumes =
      let pixels = c.rect.width * c.rect.height * 4 in
      let mask = (c.rect.width + 7) / 8 * c.rect.height in
      rq_wait-Resumes ⊥ P (pixels + mask) 0 0 _ (
        read_bytes-Resumes ⊥ P pixels (pixels + mask) 0 _ (omega arith) λ ps.
          read_bytes-Resumes ⊥ P mask (pixels + mask - pixels) (0 + pixels) _ (omega arith)
            λ ms. give-Resumes ⊥ P _ _ _ (done-Proper c _ _ refl refl refl refl))

  pub handle_led_event-Resumes : Resumes ⊥ (Proper c) (handle_led_event c) 0 0
  unfolding handle_led_event
  handle_led_event-Resumes = rq_wait-Resumes ⊥ P 1 0 0 _ (
      read-Resumes ⊥ P 1 1 0 _ (omega arith)
        λ b. give-Resumes ⊥ P _ _ _ (done-Proper c _ _ refl refl refl refl))

  xvp_answer-Proper : (ver msg : ℕ) → Proper c (xvp_answer ver msg c)
  unfolding xvp_answer
  xvp_answer-Proper ver msg = if-Proper c (msg == 0) _ _ (done-Proper c _ _ refl refl refl refl) (
      if-Proper c (msg == 1) _ _ (done-Proper c _ _ refl refl refl refl)
        (failed-Proper c _ true refl refl refl))

  pub handle_xvp-Resumes : Resumes ⊥ (Proper c) (handle_xvp c) 1 0
  unfolding handle_xvp
  handle_xvp-Resumes = rq_wait-Resumes ⊥ P 3 1 0 _ (
      skip-Resumes ⊥ P 1 3 1 _ (omega arith) (
        read-Resumes ⊥ P 1 2 2 _ (omega arith) λ ver.
          read-Resumes ⊥ P 1 1 3 _ (omega arith)
            λ msg. give-Resumes ⊥ P _ _ _ (xvp_answer-Proper ver msg)))

  fence_answer-Proper :
      (flags : ℕ) (payload : List ℕ)
      → Proper c (fence_answer flags payload (record c { supports_fence = true }))
  unfolding fence_answer
  fence_answer-Proper flags payload =
      if-Proper c (flags / 2 ^ 31 % 2 == 1) _ _ (done-Proper c _ _ refl refl refl refl)
        (failed-Proper c _ false refl refl refl)

  pub handle_server_fence-Resumes : Resumes ⊥ (Proper c) (handle_server_fence c) 1 0
  unfolding handle_server_fence
  handle_server_fence-Resumes = rq_wait-Resumes ⊥ P 8 1 0 _ (
      skip-Resumes ⊥ P 3 8 1 _ (omega arith) (
        read-Resumes ⊥ P 4 5 4 _ (omega arith) λ flags.
          read-Resumes ⊥ P 1 1 8 _ (omega arith) λ len. rq_wait-Resumes ⊥ P len 9 0 _ (
            read_bytes-Resumes ⊥ P _ len 9 _ (payload_le len)
              λ payload. give-Resumes ⊥ P _ _ _ (fence_answer-Proper flags payload))))
    where
      payload_le : (len : ℕ) → (if ltb 64 len then 64 else len) ≤ len
      payload_le len = ground arith

  set_desktop_name-Resumes :
      (name : List ℕ) (i m : ℕ) → Resumes ⊥ P (set_desktop_name c (decode_utf8 name true)) i m
  set_desktop_name-Resumes name i m = elim (Option-cases (decode_from 0 0 0 name)) [
    | inl e ↦
        let kept : decode_utf8 name true ≡ some name = decode_utf8_latin1 name true e ∙ refl in
        rw kept (give-Resumes ⊥ P _ i m (done-Proper c _ _ refl refl refl refl))
    | inr (text, e) ↦
        rw (decode_utf8-some name text true e)
          (give-Resumes ⊥ P _ i m (done-Proper c _ _ refl refl refl refl))
  ]

  pub handle_desktop_name-Resumes : Resumes ⊥ (Proper c) (handle_desktop_name c) 0 0
  unfolding handle_desktop_name
  handle_desktop_name-Resumes = rq_wait-Resumes ⊥ P 4 0 0 _ (
      read-Resumes ⊥ P 4 4 0 _ (omega arith) λ len. rq_wait-Resumes ⊥ P len 4 0 _ (
        read_bytes-Resumes ⊥ P len len 4 _ (omega arith)
          λ name. set_desktop_name-Resumes name (4 + len) (len - len)))

pub read_update-Resumes : Resumes ⊥ (λ (rects : ℕ). Unit {0}) read_update 1 0
unfolding read_update
read_update-Resumes = rq_wait-Resumes ⊥ _ 3 1 0 _ (
    skip-Resumes ⊥ _ 1 3 1 _ (omega arith)
      (read-Resumes ⊥ _ 2 2 2 _ (omega arith) λ n. give-Resumes ⊥ _ _ _ _ tt))

pub read_rect-Resumes : Resumes ⊥ (λ (header : Rect × ℕ). Unit {0}) read_rect 0 12
unfolding read_rect
read_rect-Resumes = read-Resumes ⊥ _ 2 12 0 _ (omega arith) λ x.
    read-Resumes ⊥ _ 2 10 2 _ (omega arith) λ y. read-Resumes ⊥ _ 2 8 4 _ (omega arith) λ width.
      read-Resumes ⊥ _ 2 6 6 _ (omega arith)
        λ height. read-Resumes ⊥ _ 4 4 8 _ (omega arith) λ encoding. give-Resumes ⊥ _ _ _ _ tt
