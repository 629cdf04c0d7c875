-- ===== src/Incoming/Kept.antt =====
-- What the handlers of rfb.js leave alone.
use warpyard.Base.{Bool, true, false, List, [], ◌∷◌, All, if◌then◌else◌, ◌≡◌}
use warpyard.Incoming.{Effect, warns, fails, Client, Done, done}

-- All but a failure, and a cursor of a type that is not supported.
abbrev pub IsCalm : Effect → Type 0
IsCalm warns = ⊥
IsCalm fails = ⊥
IsCalm _ = Unit {0}

module _ {D : Type 0} where
  -- What an answer leaves alone; it is false for a failure only, or for such a cursor.
  pub record Proper (c : Client D) (d : Done D) : Type 0 where
    pub rects : d.client.rects ≡ c.rects
    pub encoding : d.client.encoding ≡ c.encoding
    pub flushing : d.client.flushing ≡ c.flushing
    pub failed : All IsCalm d.effects → d.client.failed ≡ c.failed
    pub unfinished : d.finished ≡ false → All IsCalm d.effects → ⊥

  -- An answer that changes none of these.
  pub done-Proper :
      (c c' : Client D) (es : List Effect)
      → c'.rects ≡ c.rects
      → c'.encoding ≡ c.encoding
      → c'.flushing ≡ c.flushing
      → c'.failed ≡ c.failed
      → Proper c (done c' es)
  done-Proper c c' es r e f x = record {
    rects = r;
    encoding = e;
    flushing = f;
    failed = λ _. x;
    unfinished = λ t calm. absurd (cc t);
  }

  -- A failure, whatever is returned.
  pub failed-Proper :
      (c c' : Client D) (finished : Bool)
      → c'.rects ≡ c.rects
      → c'.encoding ≡ c.encoding
      → c'.flushing ≡ c.flushing
      → Proper c (record { finished = finished; client = c'; effects = fails ∷ [] })
  failed-Proper c c' finished r e f = record {
    rects = r;
    encoding = e;
    flushing = f;
    failed = λ calm. absurd calm.0;
    unfinished = λ t calm. calm.0;
  }

  pub if-Proper :
      (c : Client D) (b : Bool) (d d' : Done D)
      → Proper c d
      → Proper c d'
      → Proper c (if b then d else d')
  if-Proper c true d d' h k = h
  if-Proper c false d d' h k = k
