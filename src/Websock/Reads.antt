-- ===== src/Websock/Reads.antt =====
-- The rQ methods of websock.js against `Stream`, a list of bytes.
use warpyard.Base.{
  ℕ, zero, suc, ◌+◌, ◌-◌, ◌*◌, ◌%◌, ◌^◌, ◌≤◌, ◌<◌, true, false, ◌&&◌, some, List, [], ◌∷◌, ◌≡◌,
  refl, sym, ap, ap₂, subst, ◌∙◌, inl, inr, arith, length, take, drop, get_or, slice, All,
  drop-take, drop-drop, drop-cons, take-take, get_or-take, get_or-drop, splice, ltb, leb, ◌==◌,
  Bool-cases, if◌then◌else◌,
}
use warpyard.Stream
use warpyard.Stream.{Stream}
use warpyard.Websock.{
  Websock, r_qpeek8, r_qskip_bytes, r_qshift_from, r_qshift, r_qshift8, r_qshift16, r_qshift32,
  r_qshift_bytes, r_qshift_to, r_qpeek_bytes, r_qwait, waits,
}
use warpyard.Websock.Valid.{IsValid, contents}
use warpyard.Websock.Receive.{length-contents}

-- `out` read `v` and left the stream `rest`.
pub record Reads {ℓ} {A : Type ℓ} (v : A) (rest : Stream) (out : A × Websock) : Type ℓ where
  pub value : out.0 ≡ v
  pub left : contents out.1 ≡ rest
  pub valid : IsValid out.1

abbrev skip : ℕ → Websock → Websock
skip n ws = record ws { r_qi = ws.r_qi + n }

skip-IsValid : (n : ℕ) (ws : Websock) → IsValid ws → n ≤ length (contents ws) → IsValid (skip n ws)
skip-IsValid n ws v h = omega (arith, length-contents ws v)

contents-skip : (n : ℕ) (ws : Websock) → contents (skip n ws) ≡ drop n (contents ws)
contents-skip n ws =
    let e : ws.r_qlen - (ws.r_qi + n) ≡ ws.r_qlen - ws.r_qi - n = omega arith in
    rw (e, drop-take n (ws.r_qlen - ws.r_qi) (drop ws.r_qi ws.r_q), drop-drop n ws.r_qi ws.r_q)

slice-contents :
    (n : ℕ) (ws : Websock)
    → IsValid ws
    → n ≤ length (contents ws)
    → slice ws.r_q ws.r_qi (ws.r_qi + n) ≡ take n (contents ws)
slice-contents n ws v h =
    let e : ws.r_qi + n - ws.r_qi ≡ n = omega arith in
    rw (
      e,
      take-take n (ws.r_qlen - ws.r_qi) (drop ws.r_qi ws.r_q) (omega (arith, length-contents ws v)),
    )

-- `rQshiftBytes`, `rQpeekBytes`, `rQskipBytes` and `rQshiftTo` on a valid object: where the stream of
-- unread bytes has what is asked for, they return what the stream returns, or put it at the front of a
-- target that is long enough, and leave what the stream leaves.
pub r_qshift_bytes-Reads :
    (n : ℕ) (ws : Websock) (target : List ℕ) {bs : List ℕ} {rest : Stream}
    → IsValid ws
    → n ≤ length target
    → Stream.shift_bytes n (contents ws) ≡ some (bs, rest)
    → Reads bs rest (r_qshift_bytes n ws)
      × (r_qpeek_bytes n ws ≡ bs)
      × (contents (r_qskip_bytes n ws) ≡ rest)
      × (r_qshift_to target n ws ≡ some (splice target 0 bs, r_qskip_bytes n ws))
unfolding Stream.shift_bytes r_qshift_bytes r_qpeek_bytes r_qskip_bytes r_qshift_to
r_qshift_bytes-Reads n ws target {bs} {rest} v room h =
    let le : n ≤ length (contents ws) = ground arith in
    let bytes : slice ws.r_q ws.r_qi (ws.r_qi + n) ≡ bs = slice-contents n ws v le ∙ ground arith in
    let left : contents (skip n ws) ≡ rest = contents-skip n ws ∙ ground arith in
    let inside : ws.r_qi + n ≤ length ws.r_q =
      omega (arith, length-contents ws v, v.index_le, v.len_le, v.allocated, le) in
    let there : leb (ws.r_qi + n) (length ws.r_q) && leb n (length target) ≡ true = ground arith in
    (
      record { value = bytes; left = left; valid = skip-IsValid n ws v le },
      bytes,
      left,
      rw (there, bytes) refl,
    )

shift_state : (k res : ℕ) (ws : Websock) → (r_qshift_from k res ws).1 ≡ skip k ws
unfolding r_qshift_from
shift_state zero res ws = ap (λ i. record ws { r_qi = i }) {x = ws.r_qi} (omega arith)
shift_state (suc k) res ws =
    shift_state k (res + get_or ws.r_q ws.r_qi 0 * 2 ^ (k * 8) % 2 ^ 32) (skip 1 ws)
    ∙ ap (λ i. record ws { r_qi = i }) (omega arith)

contents-cons :
    (ws : Websock)
    → IsValid ws
    → 0 < length (contents ws)
    → contents ws ≡ get_or ws.r_q ws.r_qi 0 ∷ contents (skip 1 ws)
contents-cons ws v h = drop-cons 0 (contents ws) 0 h ∙ ap₂ ◌∷◌ first (sym (contents-skip 1 ws))
  where
    first : get_or (contents ws) 0 0 ≡ get_or ws.r_q ws.r_qi 0
    first =
        get_or-take (ws.r_qlen - ws.r_qi) 0 (drop ws.r_qi ws.r_q) 0
          (omega (arith, length-contents ws v))
        ∙ get_or-drop ws.r_qi 0 ws.r_q 0
        ∙ ap (λ i. get_or ws.r_q i 0) (omega arith)

abbrev pub IsBytes : List ℕ → Type 0
IsBytes bs = All (λ b. b < 256) bs

-- The weight of a first byte before `k` more, by the number of those.
weight :
    (k x res : ℕ) (c : List ℕ)
    → k ≤ 3
    → k ≤ length c
    → x < 256
    → (res + x * 2 ^ (k * 8) % 2 ^ 32 + Stream.big_endian (take k c)) % 2 ^ 32
      ≡ (res + Stream.big_endian (x ∷ take k c)) % 2 ^ 32
weight zero x res c le h b = omega arith
weight (suc zero) x res (c0 ∷ c) le h b = omega arith
weight (suc (suc zero)) x res (c0 ∷ c1 ∷ c) le h b = omega arith
weight (suc (suc (suc zero))) x res (c0 ∷ c1 ∷ c2 ∷ c) le h b = omega arith
weight (suc k) x res [] le h b = absurd (omega arith)
weight (suc (suc k)) x res (c0 ∷ []) le h b = absurd (omega arith)
weight (suc (suc (suc k))) x res (c0 ∷ c1 ∷ []) le h b = absurd (omega arith)
weight (suc (suc (suc (suc k)))) x res c le h b = absurd (omega arith)

-- The number so far, and what is still to come.
shift_value :
    (k res : ℕ) (ws : Websock)
    → IsValid ws
    → IsBytes (contents ws)
    → k ≤ length (contents ws)
    → k ≤ 4
    → (r_qshift_from k res ws).0 ≡ (res + Stream.big_endian (take k (contents ws))) % 2 ^ 32
unfolding r_qshift_from
shift_value zero res ws v b h le = omega arith
shift_value (suc k) res ws v b h le =
    let x : ℕ = get_or ws.r_q ws.r_qi 0 in
    let rest : List ℕ = contents (skip 1 ws) in
    let head : contents ws ≡ x ∷ rest = contents-cons ws v (omega arith) in
    let bytes : IsBytes (x ∷ rest) = subst IsBytes head b in
    let more : k ≤ length rest = omega (arith, ap length head) in
    shift_value k (res + x * 2 ^ (k * 8) % 2 ^ 32) (skip 1 ws) (skip-IsValid 1 ws v (omega arith))
      bytes.1 more (omega arith)
    ∙ rw head (weight k x res rest (omega arith) more bytes.0)

big_endian-lt : (k : ℕ) (bs : List ℕ) → IsBytes bs → k ≤ 4 → Stream.big_endian (take k bs) < 2 ^ 32
big_endian-lt zero bs b le = omega arith
big_endian-lt (suc k) [] b le = omega arith
big_endian-lt (suc zero) (x ∷ bs) b le = omega arith
big_endian-lt (suc (suc zero)) (x ∷ []) b le = omega arith
big_endian-lt (suc (suc zero)) (x ∷ y ∷ bs) b le = omega arith
big_endian-lt (suc (suc (suc k))) (x ∷ []) b le = omega arith
big_endian-lt (suc (suc (suc k))) (x ∷ y ∷ []) b le = omega arith
big_endian-lt (suc (suc (suc zero))) (x ∷ y ∷ z ∷ bs) b le = omega arith
big_endian-lt (suc (suc (suc (suc zero)))) (x ∷ y ∷ z ∷ []) b le = omega arith
big_endian-lt (suc (suc (suc (suc zero)))) (x ∷ y ∷ z ∷ w ∷ bs) b le = omega arith
big_endian-lt (suc (suc (suc (suc (suc k))))) bs b le = absurd (omega arith)

shift-Reads :
    (k : ℕ) (ws : Websock) {n : ℕ} {rest : Stream}
    → IsValid ws
    → IsBytes (contents ws)
    → k ≤ 4
    → Stream.shift k (contents ws) ≡ some (n, rest)
    → Reads n rest (r_qshift k ws)
unfolding Stream.shift r_qshift
shift-Reads k ws {n} {rest} v b le h =
    let enough : k ≤ length (contents ws) = ground arith in
    let state = shift_state k 0 ws in
    record {
      value =
          shift_value k 0 ws v b enough le
          ∙ omega (arith, big_endian-lt k (contents ws) b le)
          ∙ (let e : Stream.big_endian (take k (contents ws)) ≡ n = ground arith in e);
      left = ap contents state ∙ contents-skip k ws ∙ ground arith;
      valid = subst IsValid (sym state) (skip-IsValid k ws v enough);
    }

-- `rQshift8`, `rQshift16` and `rQshift32` on a valid object whose unread bytes are bytes: where the
-- stream has the bytes, they return their number, the highest byte first, and leave the others.
pub r_qshift-Reads :
    (ws : Websock) {n : ℕ} {rest : Stream}
    → IsValid ws
    → IsBytes (contents ws)
    → (Stream.shift8 (contents ws) ≡ some (n, rest) → Reads n rest (r_qshift8 ws))
      × (Stream.shift16 (contents ws) ≡ some (n, rest) → Reads n rest (r_qshift16 ws))
      × (Stream.shift32 (contents ws) ≡ some (n, rest) → Reads n rest (r_qshift32 ws))
unfolding r_qshift8 r_qshift16 r_qshift32
r_qshift-Reads ws v b = (
  shift-Reads 1 ws v b (omega arith),
  shift-Reads 2 ws v b (omega arith),
  shift-Reads 4 ws v b (omega arith),
)

-- `rQwait` on a valid object waits exactly where the stream is short, and, asked to go back over
-- bytes that were read just before, puts them back in front of what is unread.
pub r_qwait_lem :
    (num goback : ℕ) (ws : Websock)
    → IsValid ws
    → goback ≤ length (contents ws)
    → let after = (r_qshift_bytes goback ws).1 in
      (r_qwait num 0 ws ≡ (waits (Stream.wait (contents ws) num), ws))
      × (r_qwait num goback after ≡ (
        waits (Stream.wait (contents after) num),
        if Stream.wait (contents after) num then ws else after,
      ))
unfolding r_qwait r_qshift_bytes
r_qwait_lem num goback ws v h = (
  ground (arith, length-contents ws v),
  rw short (elim (Bool-cases (ltb ws.r_qlen (ws.r_qi + goback + num))) [
    | inl e ↦ rw e (elim (Bool-cases (goback == 0)) [
      | inl z ↦ rw z (ap (λ i. (waits true, record ws { r_qi = i })) (ground arith))
      | inr nz ↦ rw (nz, in_range) (ap (λ i. (waits true, record ws { r_qi = i })) (omega arith))
    ])
    | inr e ↦ rw e
  ]),
)
  where
    short : Stream.wait (contents (skip goback ws)) num ≡ ltb ws.r_qlen (ws.r_qi + goback + num)
    short =
        ground (
          arith,
          length-contents ws v,
          length-contents (skip goback ws) (skip-IsValid goback ws v h),
        )

    in_range : ltb (ws.r_qi + goback) goback ≡ false
    in_range = ground arith

-- `rQpeek8` on a valid object returns the first unread byte.
pub r_qpeek8_lem :
    (ws : Websock) {b : ℕ} → IsValid ws → Stream.peek8 (contents ws) ≡ some b → r_qpeek8 ws ≡ b
unfolding r_qpeek8 Stream.peek8
r_qpeek8_lem ws {b} v h =
    cc (sym (ap Stream.peek8 (contents-cons ws v (more (contents ws) refl h))) ∙ h)
  where
    more : (c : Stream) → contents ws ≡ c → Stream.peek8 c ≡ some b → 0 < length (contents ws)
    more [] e p = absurd (cc p)
    more (x ∷ c) e p = omega (arith, ap length e)
