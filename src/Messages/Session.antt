-- ===== src/Messages/Session.antt =====
-- A whole session of client messages, and what the server reads of it.
use warpyard.Base.{
  ℕ, zero, suc, Option, none, some, List, [], ◌∷◌, ◌++◌, map, append-nil, append_assoc, ◌≡◌, refl,
  sym, ap, subst, ◌∙◌, length, take, All,
}
use mathlib.Core.Option
use mathlib.Core.List.{flatten}
use warpyard.Websock.{Websock}
use warpyard.Websock.Valid.{CanSend, IsOpen, output}
use warpyard.Messages.Wire.{ClientMessage, send, wire, Fits}
use warpyard.Messages.Emits.{Sends}
use warpyard.Messages.Sent.{send-Sends}
use warpyard.Messages.Parse.{parse, received, InRange}
use warpyard.Messages.Unparse.{parse-wire, parse-nil}

-- A session: the messages in order, each from the socket that the one before left.
pub send_all : List ClientMessage → Websock → Option Websock
send_all [] ws = some ws
send_all (m ∷ ms) ws = elim (send m ws) [ none ↦ none | some ws' ↦ send_all ms ws' ]

-- The server's loop over what arrives, on fuel.
pub parse_all : ℕ → List ℕ → Option (List ClientMessage)
parse_all zero q = none
parse_all (suc fuel) [] = some []
parse_all (suc fuel) (b ∷ q) = elim (parse (b ∷ q)) [
  | none ↦ none
  | some (m, rest) ↦ Option.map (λ ms. m ∷ ms) (parse_all fuel rest)
]

parse_all-some :
    (fuel : ℕ) (q : List ℕ) {m : ClientMessage} {rest : List ℕ}
    → parse q ≡ some (m, rest)
    → parse_all (suc fuel) q ≡ Option.map (λ ms. m ∷ ms) (parse_all fuel rest)
unfolding parse_all
parse_all-some fuel [] h = absurd (cc (sym parse-nil ∙ h))
parse_all-some fuel (b ∷ q) h = rw (h, parse_all)

abbrev wires : List ClientMessage → List ℕ
wires [] = []
wires (m ∷ ms) = wire m ++ wires ms

parse_all_lem :
    (ms : List ClientMessage)
    → All InRange ms
    → parse_all (suc (length ms)) (wires ms) ≡ some (map received ms)
unfolding parse_all
parse_all_lem [] h = refl
parse_all_lem (m ∷ ms) h =
    parse_all-some (suc (length ms)) (wire m ++ wires ms) (parse-wire m (wires ms) h.0)
    ∙ ap (Option.map (λ ms. received m ∷ ms)) (parse_all_lem ms h.1)

Sends-trans :
    {bs cs : List ℕ} {a b c : Websock} → Sends bs a b → Sends cs b c → Sends (bs ++ cs) a c
Sends-trans {bs} {cs} {a} {b} {c} p q = record {
  on_channel = q.on_channel ∙ ap (λ l. l ++ cs) handed ∙ append_assoc (output a) bs cs;
  emptied = q.emptied;
  can = q.can;
  still_open = q.still_open;
  same_size = q.same_size ∙ p.same_size;
}
  where
    handed : output b ≡ output a ++ bs
    handed = ap (λ n. flatten b.sent ++ take n b.s_q) p.emptied ∙ append-nil _ ∙ p.on_channel

send_all_lem :
    (ms : List ClientMessage) (ws : Websock)
    → CanSend ws
    → IsOpen ws
    → ws.s_qlen ≡ 0
    → All (Fits ws.s_qbuffer_size) ms
    → (out : Websock) × (send_all ms ws ≡ some out) × Sends (wires ms) ws out
unfolding send_all
send_all_lem [] ws c o z h = (
  ws,
  refl,
  record {
    on_channel =
        sym (append-nil _)
        ∙ ap (λ n. flatten ws.sent ++ take n ws.s_q) (sym z)
        ∙ sym (append-nil _);
    emptied = z;
    can = c;
    still_open = o;
    same_size = refl;
  },
)
send_all_lem (m ∷ ms) ws c o z h =
    let (mid, e, s) = send-Sends m ws c o z h.0 in
    let (out, e', s') =
      send_all_lem ms mid s.can s.still_open s.emptied
        (subst (λ n. All (Fits n) ms) (sym s.same_size) h.1) in
    (out, rw (e, send_all) e', Sends-trans s s')

-- A session on a channel just attached, with nothing sent and an empty send queue: if every message is
-- in range and its text fits the send queue, every call returns, and the bytes on the channel, parsed
-- by the server, are those messages in that order.
pub send_all-parsed :
    (ms : List ClientMessage) (ws : Websock)
    → CanSend ws
    → IsOpen ws
    → ws.s_qlen ≡ 0
    → ws.sent ≡ []
    → All (Fits ws.s_qbuffer_size) ms
    → All InRange ms
    → (out : Websock) × (send_all ms ws ≡ some out)
      × (parse_all (suc (length ms)) (flatten out.sent) ≡ some (map received ms))
unfolding flatten
send_all-parsed ms ws c o z nothing fits range =
    let (out, e, s) = send_all_lem ms ws c o z fits in
    let start : output ws ≡ [] = rw (z, nothing) in
    (out, e, rw (s.on_channel, start) (parse_all_lem ms range))
