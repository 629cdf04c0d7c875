-- ===== src/Incoming/Lax.antt =====
-- The handlers of rfb.js that may read past what has arrived, for a cursor of VMware and the
-- clipboard.
use warpyard.Base.{
  ℕ, ◌+◌, ◌-◌, ◌*◌, ◌/◌, ◌%◌, ◌^◌, ◌≤◌, Bool, false, not, ◌&&◌, ◌||◌, Option, none, some, List, [],
  ◌∷◌, ◌++◌, ◌≡◌, refl, sym, subst, inl, inr, arith, length, length-append, ltb, leb, ◌==◌,
}
use native.Mathlib.Decide.{dec_le}
use warpyard.Stream.Handler.{Handler, ◌>>=◌, give}
use warpyard.Stream.Handler.Resumes.{
  Same, step-Same, >>=-waits, >>=-fault, Resumes, give-Resumes, rq_wait-Resumes, read-Resumes,
  read_bytes-Resumes, skip-Resumes, Resumes-if, Resumes-le,
}
use warpyard.Stream.Handler.Lax.{Gets-Resumes, read-Lax, read_bytes-Lax, fault-Lax}
use warpyard.Inflator.{Pako}
use warpyard.Messages.Clipboard.{provide_data}
use warpyard.Incoming.{Client, Done, done, warns}
use warpyard.Incoming.Kept.{Proper, done-Proper, failed-Proper}
use warpyard.Incoming.Sizes.{KeepsRest}
use warpyard.Incoming.Pseudo.{read_padding, handle_vmware_cursor}
use warpyard.Incoming.Clipboard.{
  read_sizes, has_bit, handle_action, handle_flags, handle_extended, handle_server_cut_text, copied,
  announced, provide, received, answer_request, abs_length, caps_bit, request_bit, peek_bit,
  notify_bit, provide_bit, put_back,
}
use warpyard.Incoming.LaxReads.{padding_few, padding_got, read_sizes_lem, read_words-Gets}

module _ {D : Type 0} (c : Client D) where
  abbrev P : Done D → Type 0
  P = Proper c

  -- The padding of a cursor, behind its type.
  read_padding-Resumes :
      (t : ℕ) (k : Unit {0} → Handler (Done D))
      → Resumes (Unit {0}) P (k tt) 2 0
      → Resumes (Unit {0}) P (read_padding t >>= k) 1 0
  read_padding-Resumes t k next = record {
    same = λ q more there. elim (dec_le 2 (length q)) [
      | yes enough ↦
          step-Same (Unit {0}) P (read_padding t) k q more (padding_got t q enough)
            (padding_got t (q ++ more) (omega (arith, length-append q more))) (omega arith)
            (next.same q more enough)
      | no few ↦ elim (padding_few t q (omega arith)) [
        | inl e ↦
            subst (λ x. Same (Unit {0}) P 1 q x ((read_padding t >>= k) (q ++ more) 1))
              (sym (>>=-waits (read_padding t) k e)) refl
        | inr e ↦
            subst (λ x. Same (Unit {0}) P 1 q x ((read_padding t >>= k) (q ++ more) 1))
              (sym (>>=-fault (read_padding t) k e)) tt
      ]
    ];
  }

  pub handle_vmware_cursor-Resumes : Resumes (Unit {0}) (Proper c) (handle_vmware_cursor c) 0 0
  unfolding handle_vmware_cursor
  handle_vmware_cursor-Resumes =
      let F = Unit {0} in
      let pixels = c.rect.width * c.rect.height in
      rq_wait-Resumes F P 1 0 0 _ (
        read-Resumes F P 1 1 0 _ (omega arith) λ t. read_padding-Resumes t _ (
          Resumes-if F P (t == 0) _ _ 2 0
            (λ _. rq_wait-Resumes F P (pixels * 4 * 2) 2 0 _ (
              Gets-Resumes F P (pixels * 4) _ 2 _ (omega arith) (read_words-Gets pixels _ refl)
                λ ands _.
                  Gets-Resumes F P (pixels * 4) _ _ _ (omega arith) (read_words-Gets pixels _ refl)
                    λ xors _. give-Resumes F P _ _ _ (done-Proper c _ _ refl refl refl refl)))
            (λ _.
              Resumes-if F P (t == 1) _ _ 2 0
                (λ _. rq_wait-Resumes F P (pixels * 4) 2 0 _ (
                  Gets-Resumes F P (pixels * 4) _ 2 _ (omega arith) (read_words-Gets pixels _ refl)
                    λ words _. give-Resumes F P _ _ _ (done-Proper c _ _ refl refl refl refl)))
                (λ _. give-Resumes F P _ _ _ warned-Proper))))
    where
      warned-Proper : Proper c (record { finished = false; client = c; effects = warns ∷ [] })
      warned-Proper = record {
        rects = refl;
        encoding = refl;
        flushing = refl;
        failed = λ calm. refl;
        unfinished = λ e calm. calm.0;
      }

  read_sizes-Resumes :
      (left formats i m : ℕ) (k : Unit {0} → Handler (Done D))
      → ((j : ℕ) → Resumes (Unit {0}) P (k tt) j 0)
      → Resumes (Unit {0}) P (read_sizes left formats >>= k) i m
  read_sizes-Resumes left formats i m k next = record {
    same = λ q more there. elim (read_sizes_lem left formats q more i (omega arith)) [
      | inl e ↦
          subst (λ x. Same (Unit {0}) P i q x ((read_sizes left formats >>= k) (q ++ more) i))
            (sym (>>=-fault (read_sizes left formats) k e)) tt
      | inr (_, j, le, end, one, one_more) ↦
          step-Same (Unit {0}) P (read_sizes left formats) k q more one one_more le
            ((next j).same q more (omega arith))
    ];
  }

  module _ {Z : Type 0} (pako : Pako Z) (deflate : List ℕ → Option (List ℕ)) where
    provide-Resumes :
        (o : Option (List ℕ)) (i m : ℕ) → Resumes (Unit {0}) P (provide pako deflate c o) i m
    provide-Resumes none i m = fault-Lax P i m
    provide-Resumes (some bytes) i m =
        give-Resumes (Unit {0}) P _ i m (done-Proper c _ _ refl refl refl refl)

    announced-Resumes :
        (c' : Client D) (o : Option (List ℕ)) (i m : ℕ)
        → KeepsRest c c'
        → Resumes (Unit {0}) P (announced pako deflate c' o) i m
    announced-Resumes c' none i m s = fault-Lax P i m
    announced-Resumes c' (some text) i m s =
        give-Resumes (Unit {0}) P _ i m (done-Proper c _ _ s.rects s.encoding s.flushing s.failed)

    copied-Resumes :
        (c' : Client D) (o : Option (Option (List ℕ))) (i m : ℕ)
        → KeepsRest c c'
        → Resumes (Unit {0}) P (copied pako deflate c' o) i m
    copied-Resumes c' none i m s = fault-Lax P i m
    copied-Resumes c' (some none) i m s =
        give-Resumes (Unit {0}) P _ i m (done-Proper c _ _ s.rects s.encoding s.flushing s.failed)
    copied-Resumes c' (some (some bytes)) i m s = announced-Resumes c' (received bytes) i m s

    answer_request-Resumes :
        (wanted : Bool) (o : Option (List ℕ)) (i m : ℕ)
        → Resumes (Unit {0}) P (answer_request pako deflate c wanted o) i m
    answer_request-Resumes wanted none i m =
        give-Resumes (Unit {0}) P _ i m (done-Proper c _ _ refl refl refl refl)
    answer_request-Resumes wanted (some text) i m =
        Resumes-if (Unit {0}) P (has_bit c.server_actions provide_bit && wanted)
          (provide pako deflate c (provide_data deflate (1 ∷ []) (text ∷ []))) (give (done c [])) i
          m (λ _. provide-Resumes (provide_data deflate (1 ∷ []) (text ∷ [])) i m)
          (λ _. give-Resumes (Unit {0}) P (done c []) i m (done-Proper c c [] refl refl refl refl))

    handle_action-Resumes :
        (len actions formats i : ℕ)
        → Resumes (Unit {0}) P (handle_action pako deflate len actions formats c) i 0
    unfolding handle_action
    handle_action-Resumes len actions formats i =
        Resumes-if F P (actions == 2 ^ request_bit) _ _ i 0
          (λ _.
            Resumes-if F P c.view_only (give (done c [])) _ i 0 (λ _. nothing)
              (λ _. answer_request-Resumes (has_bit formats 0) c.clipboard_text i 0))
          (λ _.
            Resumes-if F P (actions == 2 ^ peek_bit) _ _ i 0
              (λ _. give-Resumes F P _ i 0 (done-Proper c _ _ refl refl refl refl))
              (λ _.
                Resumes-if F P (actions == 2 ^ notify_bit) _ _ i 0
                  (λ _. give-Resumes F P _ i 0 (done-Proper c _ _ refl refl refl refl))
                  (λ _.
                    Resumes-if F P (actions == 2 ^ provide_bit) _ _ i 0
                      (λ _.
                        Resumes-if F P (c.view_only || not (has_bit formats 0)) (give (done c [])) _
                          i 0 (λ _. nothing)
                          (λ _.
                            Resumes-if F P (ltb len 4) put_back _ i 0 (λ _. fault-Lax P i 0)
                              (λ _.
                                read_bytes-Lax P (len - 4) i _
                                  λ bytes. copied-Resumes _ _ _ 0 emptied)))
                      (λ _. give-Resumes F P _ i 0 (failed-Proper c _ false refl refl refl)))))
      where
        F : Type 0
        F = Unit {0}

        nothing : Resumes (Unit {0}) P (give (done c [])) i 0
        nothing = give-Resumes (Unit {0}) P (done c []) i 0 (done-Proper c c [] refl refl refl refl)

        emptied : KeepsRest c (record c { clipboard_text = none })
        emptied = record { rects = refl; encoding = refl; flushing = refl; failed = refl }

    pub handle_server_cut_text-Resumes :
        Resumes (Unit {0}) (Proper c) (handle_server_cut_text pako deflate c) 1 0
    unfolding handle_server_cut_text handle_extended handle_flags
    handle_server_cut_text-Resumes = rq_wait-Resumes F P 7 1 0 _ (
        skip-Resumes F P 3 7 1 _ (omega arith) (
          read-Resumes F P 4 4 4 _ (omega arith) λ len. rq_wait-Resumes F P (abs_length len) 8 0 _ (
            Resumes-if F P (leb (2 ^ 31) len) _ _ 8 (abs_length len)
              (λ _. Resumes-le F P _ 8 0 (abs_length len) (omega arith) (
                read-Lax P 4 8 _ λ flags.
                  Resumes-if F P (has_bit (flags / 2 ^ 24) caps_bit) _ _ (8 + 4) 0
                    (λ _.
                      read_sizes-Resumes 16 _ (8 + 4) 0 _
                        λ j. give-Resumes F P _ j 0 (done-Proper c _ _ refl refl refl refl))
                    (λ _.
                      handle_action-Resumes (abs_length len) (flags / 2 ^ 24) (flags % 2 ^ 16)
                        (8 + 4))))
              (λ standard.
                read_bytes-Resumes F P len (abs_length len) 8 _ (standard_le len standard)
                  λ text. give-Resumes F P _ _ _ (done-Proper c _ _ refl refl refl refl)))))
      where
        F : Type 0
        F = Unit {0}

        standard_le : (len : ℕ) → leb (2 ^ 31) len ≡ false → len ≤ abs_length len
        standard_le len e = rw e (omega arith)
