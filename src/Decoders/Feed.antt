-- ===== src/Decoders/Feed.antt =====
-- How a decoder is fed: `decodeRect` is called again, with what is left, whenever more has arrived.
-- If it goes on where it stopped, the cuts between the parts that arrive make no difference.
use warpyard.Base.{
  ℕ, ◌≤◌, Bool, true, false, Option, none, some, List, [], ◌∷◌, ◌++◌, append-nil, append_assoc, ◌≡◌,
  refl, sym, ap, ◌∙◌, inl, inr, arith, length, if◌then◌else◌, Bool-cases,
}
use warpyard.Stream.{Stream}
use warpyard.Stream.Eats.{Leaves}
use warpyard.Decoders.{Call, Outcome, returns, underflow, throws, after}

module _ {S : Type 0} (decode : S → Stream → Outcome S) where
  -- More bytes after a return.
  abbrev pub go_on : Outcome S → Stream → Outcome S
  go_on (returns r) more =
      if r.finished
      then returns (record r { rest = r.rest ++ more })
      else after r.calls (decode r.state (r.rest ++ more))
  go_on underflow more = underflow
  go_on throws more = throws

-- No more than so many bytes are left.
abbrev pub Shrinks : {S : Type 0} → Outcome S → ℕ → Type 0
Shrinks (returns r) n = length r.rest ≤ n
Shrinks underflow n = Unit
Shrinks throws n = Unit

-- A decoder that goes on where it stopped, and gives back no bytes.
pub record Decoder (S : Type 0) : Type 0 where
  pub decode : S → Stream → Outcome S
  pub resumes : (s : S) (q more : Stream) → decode s (q ++ more) ≡ go_on decode (decode s q) more
  pub shrinks : (s : S) (q : Stream) → Shrinks (decode s q) (length q)

pub if-Shrinks :
    {S : Type 0} (b : Bool) (o p : Outcome S) (n : ℕ)
    → Shrinks o n
    → Shrinks p n
    → Shrinks (if b then o else p) n
if-Shrinks true o p n h k = h
if-Shrinks false o p n h k = k

-- What is made of a read.
pub read-Shrinks :
    {A S : Type 0} (n : ℕ) (o : Option (A × Stream)) (k : A → Stream → Outcome S)
    → Leaves o n
    → ((a : A) (q : Stream) → length q ≤ n → Shrinks (k a q) n)
    → Shrinks (elim o as (λ _. Outcome S) [ none ↦ underflow | some (a, q) ↦ k a q ]) n
read-Shrinks n none k h next = tt
read-Shrinks n (some (a, q)) k h next = next a q h

pub after-Shrinks :
    {S : Type 0} (cs : List Call) (o : Outcome S) (m n : ℕ)
    → m ≤ n
    → Shrinks o m
    → Shrinks (after cs o) n
after-Shrinks cs (returns r) m n le h = omega (arith, h)
after-Shrinks cs underflow m n le h = tt
after-Shrinks cs throws m n le h = tt

abbrev pub join : List Stream → Stream
join [] = []
join (q ∷ qs) = q ++ join qs

pub after-after :
    {S : Type 0} (cs ds : List Call) (o : Outcome S) → after cs (after ds o) ≡ after (cs ++ ds) o
after-after cs ds (returns r) =
    ap (λ l. returns (record r { calls = l })) (sym (append_assoc cs ds r.calls))
after-after cs ds underflow = refl
after-after cs ds throws = refl

-- Calls made before are made before whatever follows.
pub go_on-after :
    {S : Type 0} (decode : S → Stream → Outcome S) (cs : List Call) (o : Outcome S) (more : Stream)
    → go_on decode (after cs o) more ≡ after cs (go_on decode o more)
go_on-after decode cs (returns r) more = elim (Bool-cases r.finished) [
  | inl e ↦ rw e
  | inr e ↦ rw e (sym (after-after cs r.calls (decode r.state (r.rest ++ more))))
]
go_on-after decode cs underflow more = refl
go_on-after decode cs throws more = refl

pub after-nil : {S : Type 0} (o : Outcome S) → after [] o ≡ o
after-nil (returns r) = refl
after-nil underflow = refl
after-nil throws = refl

module _ {S : Type 0} (d : Decoder S) where
  open d use {decode, resumes}

  -- The parts as they arrive, after a first return.
  abbrev pub feed : Outcome S → List Stream → Outcome S
  feed o [] = o
  feed o (q ∷ qs) = feed (go_on decode o q) qs

  -- Whatever the cuts, the parts lead to what one call makes of all of them: the same calls of the
  -- display in the same order, the same bytes left, the same answer or error.
  pub feed-join :
      (s : S) (q : Stream) (qs : List Stream) → feed (decode s q) qs ≡ decode s (q ++ join qs)
  feed-join s q [] = ap (decode s) (sym (append-nil q))
  feed-join s q (a ∷ qs) =
      ap (λ o. feed o qs) (sym (resumes s q a))
      ∙ feed-join s (q ++ a) qs
      ∙ ap (decode s) (append_assoc q a (join qs))
