-- ===== src/Messages/Emits.antt =====
-- How the pushes of a message of rfb.js add up to what is put on the channel.
use warpyard.Base.{
  ℕ, suc, ◌+◌, ◌%◌, ◌≤◌, Bool, some, List, [], ◌∷◌, ◌++◌, append-nil, append_assoc, ◌≡◌, refl, sym,
  ap, ◌∙◌, arith, length, take,
}
use mathlib.Core.Option
use mathlib.Core.List.{flatten}
use warpyard.Websock.{Websock}
use warpyard.Websock.SendQueue.{flush, s_qpush_bytes, to_bytes}
use warpyard.Websock.Valid.{CanSend, IsOpen, output}
use warpyard.Websock.Send.{Appends, Appends-trans, s_qpush8_lem, s_qpush32_lem, flush_lem, bytes32}
use warpyard.Websock.Chunks.{s_qpush_bytes_fits}
use warpyard.Messages
use warpyard.Messages.{◌>>◌}
use warpyard.Messages.Wire.{encodings_bytes, cut_text_length}

-- `f` hands over these bytes, from any socket that can send.
abbrev Hands : List ℕ → (Websock → Websock) → Type 0
Hands bs f = (ws : Websock) → CanSend ws → IsOpen ws → Appends bs ws (f ws)

-- All that was handed over is on the channel.
pub record Sends (bs : List ℕ) (ws out : Websock) : Type 0 where
  pub on_channel : flatten out.sent ≡ output ws ++ bs
  pub emptied : out.s_qlen ≡ 0
  pub can : CanSend out
  pub still_open : IsOpen out
  pub same_size : out.s_qbuffer_size ≡ ws.s_qbuffer_size

finish_lem : {bs : List ℕ} {ws mid : Websock} → Appends bs ws mid → Sends bs ws (flush mid)
finish_lem {bs} {ws} {mid} a =
    let (f, empty) = flush_lem mid a.can a.still_open in
    record {
      on_channel =
          sym (append-nil _)
          ∙ ap (λ n. flatten (flush mid).sent ++ take n (flush mid).s_q) (sym empty)
          ∙ f.handed
          ∙ append-nil (output mid)
          ∙ a.handed;
      emptied = empty;
      can = f.can;
      still_open = f.still_open;
      same_size = f.same_size ∙ a.same_size;
    }

-- `f` hands over these bytes and flushes.
abbrev pub Emits : List ℕ → (Websock → Websock) → Type 0
Emits bs f = (ws : Websock) → CanSend ws → IsOpen ws → Sends bs ws (f ws)

pub flush-Emits : Emits [] flush
flush-Emits ws c o = finish_lem (record {
  handed = sym (append-nil _);
  can = c;
  still_open = o;
  grows = omega arith;
  same_size = refl;
})

Sends-after :
    {bs cs : List ℕ} {ws mid out : Websock}
    → Appends bs ws mid
    → Sends cs mid out
    → Sends (bs ++ cs) ws out
Sends-after {bs} {cs} {ws} {mid} a s = record {
  on_channel = s.on_channel ∙ ap (λ l. l ++ cs) a.handed ∙ append_assoc (output ws) bs cs;
  emptied = s.emptied;
  can = s.can;
  still_open = s.still_open;
  same_size = s.same_size ∙ a.same_size;
}

-- A push before the rest of a message, and before the rest of a header.
infixr 5 ◌▸◌ ◌▹◌
pub ◌▸◌ :
    {bs cs : List ℕ} {f g : Websock → Websock} → Hands bs f → Emits cs g → Emits (bs ++ cs) (f >> g)
◌▸◌ {f} p q ws c o = let a = p ws c o in Sends-after a (q (f ws) a.can a.still_open)

◌▹◌ :
    {bs cs : List ℕ} {f g : Websock → Websock} → Hands bs f → Hands cs g → Hands (bs ++ cs) (f >> g)
◌▹◌ {f} p q ws c o = let a = p ws c o in Appends-trans a (q (f ws) a.can a.still_open)

pub push_encodings_lem : (es : List ℕ) → Hands (encodings_bytes es) (Messages.push_encodings es)
unfolding Messages.push_encodings
push_encodings_lem [] ws c o = record {
  handed = sym (append-nil _);
  can = c;
  still_open = o;
  grows = omega arith;
  same_size = refl;
}
push_encodings_lem (e ∷ es) ws c o = (s_qpush32_lem e ▹ push_encodings_lem es) ws c o

pub cut_text_header_lem :
    (len : ℕ) (extended : Bool)
    → Hands
        (6 ∷ 0 ∷ 0 ∷ 0 ∷ bytes32 (cut_text_length len extended))
        (Messages.cut_text_header len extended)
unfolding Messages.cut_text_header
cut_text_header_lem len extended =
    s_qpush8_lem 6 ▹ s_qpush8_lem 0 ▹ s_qpush8_lem 0 ▹ s_qpush8_lem 0 ▹ s_qpush32_lem _

pub fence_header_lem :
    (flags len : ℕ)
    → Hands
        (248 ∷ 0 ∷ 0 ∷ 0 ∷ (bytes32 flags ++ (len % 256 ∷ [])))
        (Messages.fence_header flags len)
unfolding Messages.fence_header
fence_header_lem flags len =
    s_qpush8_lem 248
    ▹ s_qpush8_lem 0
    ▹ s_qpush8_lem 0
    ▹ s_qpush8_lem 0
    ▹ s_qpush32_lem flags
    ▹ s_qpush8_lem len

-- A header, and bytes that fit behind it.
pub behind_header :
    {head : List ℕ} (bytes : List ℕ) {f : Websock → Websock}
    → Hands head f
    → (ws : Websock) → CanSend ws
    → IsOpen ws
    → ws.s_qlen ≡ 0
    → length head + length bytes ≤ ws.s_qbuffer_size
    → (out : Websock) × (Option.map flush (s_qpush_bytes bytes (f ws)) ≡ some out)
      × Sends (head ++ bytes) ws out
behind_header {head} bytes {f} p ws c o empty fits =
    let a = p ws c o in
    let (mid, e, b) =
      s_qpush_bytes_fits bytes (f ws) a.can a.still_open (omega (arith, a.grows, a.same_size)) in
    (flush mid, ap (Option.map flush) e, finish_lem (Appends-trans a b))

pub length-to_bytes : (cs : List ℕ) → length (to_bytes cs) ≡ length cs
length-to_bytes [] = refl
length-to_bytes (c ∷ cs) = ap suc (length-to_bytes cs)
