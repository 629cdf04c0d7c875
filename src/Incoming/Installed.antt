-- ===== src/Incoming/Installed.antt =====
-- The decoders that the constructor of RFB installs, of those whose code is in this library: each keeps its own
-- state.
use warpyard.Base.{
  ℕ, Bool, true, false, some, List, ◌++◌, length, ◌==◌, if◌then◌else◌, ◌≡◌, refl, sym, ap, ◌∙◌,
}
use mathlib.Core.Option
use warpyard.Stream.{Stream}
use warpyard.Decoders.{Outcome, Call, returns, underflow, throws, after}
use warpyard.Decoders.Feed.{Decoder, go_on, Shrinks}
use warpyard.Decoders.Raw
use warpyard.Decoders.CopyRect
use warpyard.Decoders.Rre
use warpyard.Decoders.Hextile
use warpyard.Decoders.Hextile.{Hextile}
use warpyard.Decoders.Hextile.Resume
use warpyard.Incoming.{Decoders}

-- A place of its own among the states of all decoders.
pub record Place (S D : Type 0) : Type 0 where
  pub get : D → S
  pub put : S → D → D
  pub get-put : (s : S) (d : D) → get (put s d) ≡ s
  pub put-put : (s s' : S) (d : D) → put s (put s' d) ≡ put s d

module _ {S D : Type 0} where
  -- With the state put where it belongs.
  abbrev restate : (S → D) → Outcome S → Outcome D
  restate f (returns r) =
      returns (record { finished = r.finished; state = f r.state; rest = r.rest; calls = r.calls })
  restate f underflow = underflow
  restate f throws = throws

  restate-after :
      (f : S → D) (cs : List Call) (o : Outcome S) → restate f (after cs o) ≡ after cs (restate f o)
  restate-after f cs (returns r) = refl
  restate-after f cs underflow = refl
  restate-after f cs throws = refl

  pub restate-Shrinks : (f : S → D) (o : Outcome S) (n : ℕ) → Shrinks o n → Shrinks (restate f o) n
  restate-Shrinks f (returns r) n h = h
  restate-Shrinks f underflow n h = h
  restate-Shrinks f throws n h = h

  module _ (p : Place S D) (decoder : Decoder S) where
    abbrev placed : D → Stream → Outcome D
    placed d q = restate (λ s. p.put s d) (decoder.decode (p.get d) q)

    -- From a state that was put.
    placed-put :
        (s : S) (d : D) (q : Stream)
        → placed (p.put s d) q ≡ restate (λ s'. p.put s' d) (decoder.decode s q)
    placed-put s d q =
        ap (λ s'. restate (λ s''. p.put s'' (p.put s d)) (decoder.decode s' q)) (p.get-put s d)
        ∙ over (decoder.decode s q)
      where
        over :
            (o : Outcome S)
            → restate (λ s''. p.put s'' (p.put s d)) o ≡ restate (λ s'. p.put s' d) o
        over (returns r) =
            ap
              (λ d'.
                returns
                  (record { finished = r.finished; state = d'; rest = r.rest; calls = r.calls }))
              (p.put-put r.state s d)
        over underflow = refl
        over throws = refl

    pub placed-go_on :
        (d : D) (o : Outcome S) (more : Stream)
        → restate (λ s. p.put s d) (go_on decoder.decode o more)
          ≡ go_on placed (restate (λ s. p.put s d) o) more
    placed-go_on d (returns r) more = by_finished r.finished
      where
        by_finished :
            (b : Bool)
            → restate
                (λ s. p.put s d)
                (if b
                  then returns (record r { rest = r.rest ++ more })
                  else after r.calls (decoder.decode r.state (r.rest ++ more)))
              ≡ (if b
                  then returns (record {
                    finished = r.finished;
                    state = p.put r.state d;
                    rest = r.rest ++ more;
                    calls = r.calls;
                  })
                  else after r.calls (placed (p.put r.state d) (r.rest ++ more)))
        by_finished true = refl
        by_finished false =
            restate-after (λ s. p.put s d) r.calls (decoder.decode r.state (r.rest ++ more))
            ∙ ap (after r.calls) (sym (placed-put r.state d (r.rest ++ more)))
    placed-go_on d underflow more = refl
    placed-go_on d throws more = refl

    -- A decoder on its own part of the state of all.
    unfoldable at : Decoder D
    at = record {
      decode = placed;
      resumes = λ d q more.
          ap (restate (λ s. p.put s d)) (decoder.resumes (p.get d) q more)
          ∙ placed-go_on d (decoder.decode (p.get d) q) more;
      shrinks = λ d q.
          restate-Shrinks (λ s. p.put s d) (decoder.decode (p.get d) q) (length q)
            (decoder.shrinks (p.get d) q);
    }

-- The states of all; `E` is that of the decoders of Tight, TightPNG, ZRLE and JPEG.
pub record States (E : Type 0) : Type 0 where
  pub raw : ℕ
  pub rre : ℕ
  pub hextile : ℕ × Hextile
  pub others : E

module _ {E : Type 0} where
  abbrev pub raw_place : Place ℕ (States E)
  raw_place = record {
    get = λ d. d.raw;
    put = λ n d. record d { raw = n };
    get-put = λ n d. refl;
    put-put = λ n m d. refl;
  }

  abbrev pub rre_place : Place ℕ (States E)
  rre_place = record {
    get = λ d. d.rre;
    put = λ n d. record d { rre = n };
    get-put = λ n d. refl;
    put-put = λ n m d. refl;
  }

  abbrev pub hextile_place : Place (ℕ × Hextile) (States E)
  hextile_place = record {
    get = λ d. d.hextile;
    put = λ h d. record d { hextile = h };
    get-put = λ h d. refl;
    put-put = λ h k d. refl;
  }

  abbrev pub others_place : Place E (States E)
  others_place = record {
    get = λ d. d.others;
    put = λ e d. record d { others = e };
    get-put = λ e d. refl;
    put-put = λ e k d. refl;
  }

  -- CopyRect keeps no state.
  abbrev pub copy_rect_place : Place (Unit {0}) (States E)
  copy_rect_place = record {
    get = λ d. tt;
    put = λ u d. d;
    get-put = λ u d. refl;
    put-put = λ u v d. refl;
  }

  -- With the other decoders as they are.
  unfoldable pub installed : Decoders E → Decoders (States E)
  unfolding at
  installed others encoding =
      if encoding == 0
      then some (λ r depth. at raw_place (Raw.decoder r depth))
      else if encoding == 1
      then some (λ r depth. at copy_rect_place (CopyRect.decoder r))
      else if encoding == 2
      then some (λ r depth. at rre_place (Rre.decoder r))
      else if encoding == 5
      then some (λ r depth. at hextile_place (Resume.decoder r))
      else Option.map (λ decoder r depth. at others_place (decoder r depth)) (others encoding)

  abbrev pub first_states : E → States E
  first_states others = record { raw = 0; rre = 0; hextile = (0, Hextile.new); others = others }
