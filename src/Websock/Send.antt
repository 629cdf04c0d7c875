-- ===== src/Websock/Send.antt =====
-- The sQ methods and `flush` of websock.js: what they hand over.
use warpyard.Base.{
  ℕ, zero, suc, ◌+◌, ◌/◌, ◌%◌, ◌^◌, ◌≤◌, ◌<◌, bit_and, List, [], ◌∷◌, ◌++◌, append-nil,
  append_assoc, ◌≡◌, refl, sym, ap, ◌∙◌, inl, inr, arith, flatten-append, length, take, set,
  length-set, length-append, ltb, Bool-cases,
}
use mathlib.Core.List.{flatten}
use warpyard.Base.Bits.{and_255}
use warpyard.Websock.{Websock, ready_state}
use warpyard.Websock.SendQueue.{flush, s_qensure_space, s_qstore, s_qpush8, s_qpush16, s_qpush32}
use warpyard.Websock.Valid.{CanSend, IsOpen, output}

-- `f` hands over the bytes `bs` from any object that can send, and leaves one that can.
pub record Appends (bs : List ℕ) (ws out : Websock) : Type 0 where
  pub handed : output out ≡ output ws ++ bs
  pub can : CanSend out
  pub still_open : IsOpen out
  pub grows : out.s_qlen ≤ ws.s_qlen + length bs
  pub same_size : out.s_qbuffer_size ≡ ws.s_qbuffer_size

take-set :
    (i : ℕ) (xs : List ℕ) (v : ℕ)
    → i < length xs
    → take (i + 1) (set xs i v) ≡ take i xs ++ (v ∷ [])
take-set zero [] v h = absurd (omega arith)
take-set zero (x ∷ xs) v h = refl
take-set (suc i) [] v h = absurd (omega arith)
take-set (suc i) (x ∷ xs) v h =
    ap (λ k. take k (x ∷ set xs i v)) {y = suc (i + 1)} (omega arith)
    ∙ ap (λ l. x ∷ l) (take-set i xs v (omega arith))

-- `flush` on an open channel sends all that is waiting, so what is handed over stays the same.
pub flush_lem :
    (ws : Websock) → CanSend ws → IsOpen ws → Appends [] ws (flush ws) × ((flush ws).s_qlen ≡ 0)
unfolding flush flatten
flush_lem ws c o = elim (Bool-cases (ltb 0 ws.s_qlen)) [
  | inl e ↦
      rw (e, o)
        (
          record {
            handed = append-nil _ ∙ sent_lem ∙ sym (append-nil _);
            can = omega arith;
            still_open = o;
            grows = omega arith;
            same_size = refl;
          },
          refl,
        )
  | inr e ↦ rw e (
    record {
      handed = sym (append-nil _);
      can = c;
      still_open = o;
      grows = omega arith;
      same_size = refl;
    },
    ground arith,
  )
]
  where
    sent_lem : flatten (ws.sent ++ (take ws.s_qlen ws.s_q ∷ [])) ≡ output ws
    sent_lem = rw flatten-append (ap (λ l. flatten ws.sent ++ l) (append-nil _))

s_qensure_space_lem :
    (n : ℕ) (ws : Websock)
    → CanSend ws
    → IsOpen ws
    → n ≤ 4
    → Appends [] ws (s_qensure_space n ws)
      × ((s_qensure_space n ws).s_qlen + n ≤ (s_qensure_space n ws).s_qbuffer_size)
unfolding s_qensure_space
s_qensure_space_lem n ws c o le =
    let flushed = flush_lem ws c o in
    elim (Bool-cases (ltb ws.s_qbuffer_size (ws.s_qlen + n))) [
      | inl e ↦ rw e (flushed.0, omega (arith, flushed.1, flushed.0.can.wide))
      | inr e ↦ rw e (
        record {
          handed = sym (append-nil _);
          can = c;
          still_open = o;
          grows = omega arith;
          same_size = refl;
        },
        ground arith,
      )
    ]

s_qstore_lem :
    (num : ℕ) (ws : Websock)
    → CanSend ws
    → IsOpen ws
    → ws.s_qlen + 1 ≤ ws.s_qbuffer_size
    → Appends (num % 2 ^ 8 ∷ []) ws (s_qstore num ws)
unfolding s_qstore ready_state
s_qstore_lem num ws c o h = record {
  handed =
      ap (λ l. flatten ws.sent ++ l) (take-set ws.s_qlen ws.s_q (num % 2 ^ 8) (omega arith))
      ∙ sym (append_assoc (flatten ws.sent) (take ws.s_qlen ws.s_q) (num % 2 ^ 8 ∷ []));
  can = omega (arith, length-set ws.s_q ws.s_qlen (num % 2 ^ 8));
  still_open = o;
  grows = omega arith;
  same_size = refl;
}

pub Appends-trans :
    {bs cs : List ℕ} {a b c : Websock} → Appends bs a b → Appends cs b c → Appends (bs ++ cs) a c
Appends-trans {bs} {cs} {a} {b} {c} p q = record {
  handed = q.handed ∙ ap (λ l. l ++ cs) p.handed ∙ append_assoc (output a) bs cs;
  can = q.can;
  still_open = q.still_open;
  grows = omega (arith, p.grows, q.grows, length-append bs cs);
  same_size = q.same_size ∙ p.same_size;
}

-- The bytes of a 16-bit and of a 32-bit number, the highest first.
abbrev pub bytes16 : ℕ → List ℕ
bytes16 n = n / 2 ^ 8 % 256 ∷ n % 256 ∷ []

abbrev pub bytes32 : ℕ → List ℕ
bytes32 n = n / 2 ^ 24 % 256 ∷ n / 2 ^ 16 % 256 ∷ n / 2 ^ 8 % 256 ∷ n % 256 ∷ []

-- `sQpush8` hands over the byte that is the number's remainder by 256.
pub s_qpush8_lem :
    (num : ℕ) (ws : Websock)
    → CanSend ws
    → IsOpen ws
    → Appends (num % 256 ∷ []) ws (s_qpush8 num ws)
unfolding s_qpush8
s_qpush8_lem num ws c o =
    let (p, h) = s_qensure_space_lem 1 ws c o (omega arith) in
    Appends-trans p (s_qstore_lem num (s_qensure_space 1 ws) p.can p.still_open h)

s_qlen-s_qstore :
    (num : ℕ) (ws : Websock)
    → ((s_qstore num ws).s_qlen ≡ ws.s_qlen + 1)
      × ((s_qstore num ws).s_qbuffer_size ≡ ws.s_qbuffer_size)
unfolding s_qstore
s_qlen-s_qstore num ws = (refl, refl)

low_byte : (n : ℕ) → bit_and n 0xff % 2 ^ 8 ≡ n % 256
low_byte n = omega (arith, and_255 n)

-- `sQpush16` hands over the two low bytes of the number, the higher first.
pub s_qpush16_lem :
    (num : ℕ) (ws : Websock) → CanSend ws → IsOpen ws → Appends (bytes16 num) ws (s_qpush16 num ws)
unfolding s_qpush16
s_qpush16_lem num ws c o =
    let (p, h) = s_qensure_space_lem 2 ws c o (omega arith) in
    let w0 = s_qensure_space 2 ws in
    let b1 = bit_and (num / 2 ^ 8) 0xff in
    let w1 = s_qstore b1 w0 in
    let l1 = s_qlen-s_qstore b1 w0 in
    let p1 = s_qstore_lem b1 w0 p.can p.still_open (omega arith) in
    let p2 = s_qstore_lem (bit_and num 0xff) w1 p1.can p1.still_open (omega (arith, l1.0, l1.1)) in
    rw (← low_byte num, ← low_byte (num / 2 ^ 8)) (Appends-trans p (Appends-trans p1 p2))

-- `sQpush32` hands over the four low bytes of the number, the highest first.
pub s_qpush32_lem :
    (num : ℕ) (ws : Websock) → CanSend ws → IsOpen ws → Appends (bytes32 num) ws (s_qpush32 num ws)
unfolding s_qpush32
s_qpush32_lem num ws c o =
    let (p, h) = s_qensure_space_lem 4 ws c o (omega arith) in
    let w0 = s_qensure_space 4 ws in
    let b1 = bit_and (num / 2 ^ 24) 0xff in
    let b2 = bit_and (num / 2 ^ 16) 0xff in
    let b3 = bit_and (num / 2 ^ 8) 0xff in
    let w1 = s_qstore b1 w0 in
    let w2 = s_qstore b2 w1 in
    let w3 = s_qstore b3 w2 in
    let l1 = s_qlen-s_qstore b1 w0 in
    let l2 = s_qlen-s_qstore b2 w1 in
    let l3 = s_qlen-s_qstore b3 w2 in
    let p1 = s_qstore_lem b1 w0 p.can p.still_open (omega arith) in
    let p2 = s_qstore_lem b2 w1 p1.can p1.still_open (omega (arith, l1)) in
    let p3 = s_qstore_lem b3 w2 p2.can p2.still_open (omega (arith, l1, l2)) in
    let p4 = s_qstore_lem (bit_and num 0xff) w3 p3.can p3.still_open (omega (arith, l1, l2, l3)) in
    rw
      (
        ← low_byte num,
        ← low_byte (num / 2 ^ 8),
        ← low_byte (num / 2 ^ 16),
        ← low_byte (num / 2 ^ 24),
      )
      (Appends-trans p (Appends-trans p1 (Appends-trans p2 (Appends-trans p3 p4))))
