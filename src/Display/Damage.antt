-- ===== src/Display/Damage.antt =====
-- `_damage` and `flip` of app/static/novnc/core/display.js: which part of the back buffer is copied to
-- the visible canvas.
use warpyard.Base.{
  true, false, ◌&&◌, Option, none, some, ◌≡◌, refl, ◌↔◌, inl, inr, arith, if◌then◌else◌, Bool-cases,
}
use warpyard.Base.Int.{ℤ, pos, ◌+ℤ◌, ◌-ℤ◌, ◌≤ℤ◌, ltb_ℤ, int_laws, +ℤ_parts}
use warpyard.Display.Viewport.{View}

-- `_damageBounds`
pub record Bounds : Type 0 where
  pub left : ℤ
  pub top : ℤ
  pub right : ℤ
  pub bottom : ℤ

pub record Area : Type 0 where
  pub x : ℤ
  pub y : ℤ
  pub w : ℤ
  pub h : ℤ

abbrev pub lower : ℤ → ℤ → ℤ
lower a b = if ltb_ℤ a b then a else b

abbrev pub higher : ℤ → ℤ → ℤ
higher a b = if ltb_ℤ b a then a else b

unfoldable pub damage : Area → Bounds → Bounds
damage a b = record {
  left = lower a.x b.left;
  top = lower a.y b.top;
  right = higher (a.x +ℤ a.w) b.right;
  bottom = higher (a.y +ℤ a.h) b.bottom;
}

-- What `flip` leaves.
abbrev pub no_damage : Bounds
no_damage = record { left = pos 65535; top = pos 65535; right = pos 0; bottom = pos 0 }

-- Start and size of what is copied, and where it is copied to.
pub record Span : Type 0 where
  pub start : ℤ
  pub size : ℤ
  pub target : ℤ

-- The computation of `flip` on one axis: the damage from `lo` to `hi`, the viewport from `v` on.
unfoldable pub flip_span : ℤ → ℤ → ℤ → ℤ → Span
flip_span lo hi v v_size =
    let size = hi -ℤ lo in
    let target = lo -ℤ v in
    let cut : Span =
      if ltb_ℤ target (pos 0)
      then record { start = lo -ℤ target; size = size +ℤ target; target = pos 0 }
      else record { start = lo; size = size; target = target } in
    if ltb_ℤ v_size (cut.target +ℤ cut.size)
    then record cut { size = v_size -ℤ cut.target }
    else cut

-- The call of `drawImage` on the visible canvas, one span for each axis.
pub record Copy : Type 0 where
  pub across : Span
  pub down : Span

unfoldable pub flip_copy : View → Bounds → Option Copy
flip_copy vp b =
    let across = flip_span b.left b.right vp.x vp.w in
    let down = flip_span b.top b.bottom vp.y vp.h in
    if ltb_ℤ (pos 0) across.size && ltb_ℤ (pos 0) down.size
    then some (record { across = across; down = down })
    else none

-- A place on one axis, from `lo` up to but not at `hi`.
abbrev pub Between : ℤ → ℤ → ℤ → Type 0
Between lo hi p = (lo ≤ℤ p) × (p +ℤ pos 1 ≤ℤ hi)

abbrev pub InSpan : Span → ℤ → Type 0
InSpan s p = Between s.start (s.start +ℤ s.size) p

abbrev pub InCopy : Option Copy → ℤ → ℤ → Type 0
InCopy none px py = ⊥
InCopy (some c) px py = InSpan c.across px × InSpan c.down py

abbrev pub IsDamaged : Bounds → ℤ → ℤ → Type 0
IsDamaged b px py = Between b.left b.right px × Between b.top b.bottom py

abbrev pub InArea : Area → ℤ → ℤ → Type 0
InArea a px py = Between a.x (a.x +ℤ a.w) px × Between a.y (a.y +ℤ a.h) py

abbrev pub IsVisible : View → ℤ → ℤ → Type 0
IsVisible vp px py = Between vp.x (vp.x +ℤ vp.w) px × Between vp.y (vp.y +ℤ vp.h) py

ltb_ℤ-true : (a b : ℤ) → ltb_ℤ a b ≡ true → a +ℤ pos 1 ≤ℤ b
ltb_ℤ-true a b h = ground (arith, +ℤ_parts a (pos 1))

ltb_ℤ-false : (a b : ℤ) → ltb_ℤ a b ≡ false → b ≤ℤ a
ltb_ℤ-false a b h = ground arith

-- The two cuts: what is left is what is damaged and visible, and it goes to its own place.
record IsCut (lo hi v v_size : ℤ) (s : Span) : Type 0 where
  inside : (p : ℤ) → InSpan s p ↔ (Between lo hi p × Between v (v +ℤ v_size) p)
  at : s.target ≡ s.start -ℤ v

flip_span-IsCut : (lo hi v v_size : ℤ) → IsCut lo hi v v_size (flip_span lo hi v v_size)
unfolding flip_span
flip_span-IsCut lo hi v v_size = elim (Bool-cases (ltb_ℤ (lo -ℤ v) (pos 0))) [
  | inl e ↦
      let before : lo -ℤ v +ℤ pos 1 ≤ℤ pos 0 = ltb_ℤ-true (lo -ℤ v) (pos 0) e in
      rw e (elim (Bool-cases (ltb_ℤ v_size (pos 0 +ℤ (hi -ℤ lo +ℤ (lo -ℤ v))))) [
        | inl k ↦
            let over : v_size +ℤ pos 1 ≤ℤ pos 0 +ℤ (hi -ℤ lo +ℤ (lo -ℤ v)) =
              ltb_ℤ-true v_size (pos 0 +ℤ (hi -ℤ lo +ℤ (lo -ℤ v))) k in
            rw k (record {
              inside = λ p. (λ h. omega int_laws, λ h. omega int_laws);
              at = omega int_laws;
            })
        | inr k ↦
            let within : pos 0 +ℤ (hi -ℤ lo +ℤ (lo -ℤ v)) ≤ℤ v_size =
              ltb_ℤ-false v_size (pos 0 +ℤ (hi -ℤ lo +ℤ (lo -ℤ v))) k in
            rw k (record {
              inside = λ p. (λ h. omega int_laws, λ h. omega int_laws);
              at = omega int_laws;
            })
      ])
  | inr e ↦
      let behind : pos 0 ≤ℤ lo -ℤ v = ltb_ℤ-false (lo -ℤ v) (pos 0) e in
      rw e (elim (Bool-cases (ltb_ℤ v_size (lo -ℤ v +ℤ (hi -ℤ lo)))) [
        | inl k ↦
            let over : v_size +ℤ pos 1 ≤ℤ lo -ℤ v +ℤ (hi -ℤ lo) =
              ltb_ℤ-true v_size (lo -ℤ v +ℤ (hi -ℤ lo)) k in
            rw k (record { inside = λ p. (λ h. omega int_laws, λ h. omega int_laws); at = refl })
        | inr k ↦
            let within : lo -ℤ v +ℤ (hi -ℤ lo) ≤ℤ v_size =
              ltb_ℤ-false v_size (lo -ℤ v +ℤ (hi -ℤ lo)) k in
            rw k (record { inside = λ p. (λ h. omega int_laws, λ h. omega int_laws); at = refl })
      ])
]

none_drawn :
    (across down : Span) (px py : ℤ)
    → (ltb_ℤ (pos 0) across.size && ltb_ℤ (pos 0) down.size) ≡ false
    → InSpan across px × InSpan down py
    → ⊥
none_drawn across down px py e h = elim (Bool-cases (ltb_ℤ (pos 0) across.size)) [
  | inl k ↦
      let low : down.size ≤ℤ pos 0 = ltb_ℤ-false (pos 0) down.size (ground arith) in omega int_laws
  | inr k ↦ let low : across.size ≤ℤ pos 0 = ltb_ℤ-false (pos 0) across.size k in omega int_laws
]

-- Where a copied pixel goes on the visible canvas: its place in the viewport.
abbrev pub IsPlaced : View → Option Copy → Type 0
IsPlaced vp none = Unit {0}
IsPlaced vp (some c) =
    (c.across.target ≡ c.across.start -ℤ vp.x) × (c.down.target ≡ c.down.start -ℤ vp.y)

-- `flip` copies exactly the pixels that are both damaged and visible, each to its place in the
-- viewport.
pub flip_copy-exact :
    (vp : View) (b : Bounds)
    → ((px py : ℤ) → InCopy (flip_copy vp b) px py ↔ (IsDamaged b px py × IsVisible vp px py))
      × IsPlaced vp (flip_copy vp b)
unfolding flip_copy
flip_copy-exact vp b = elim (Bool-cases (ltb_ℤ (pos 0) across.size && ltb_ℤ (pos 0) down.size)) [
  | inl e ↦ rw e ((λ px py. (λ h. both px py h, λ h. back px py h)), (cut_x.at, cut_y.at))
  | inr e ↦ rw e ((λ px py. (λ h. absurd h, λ h. none_drawn across down px py e (back px py h))), _)
]
  where
    across : Span
    across = flip_span b.left b.right vp.x vp.w

    down : Span
    down = flip_span b.top b.bottom vp.y vp.h

    cut_x : IsCut b.left b.right vp.x vp.w across
    cut_x = flip_span-IsCut b.left b.right vp.x vp.w

    cut_y : IsCut b.top b.bottom vp.y vp.h down
    cut_y = flip_span-IsCut b.top b.bottom vp.y vp.h

    both : (px py : ℤ) → InSpan across px × InSpan down py → IsDamaged b px py × IsVisible vp px py
    both px py h =
        let x = (cut_x.inside px).0 h.0 in
        let y = (cut_y.inside py).0 h.1 in ((x.0, y.0), (x.1, y.1))

    back : (px py : ℤ) → IsDamaged b px py × IsVisible vp px py → InSpan across px × InSpan down py
    back px py h = ((cut_x.inside px).1 (h.0.0, h.1.0), (cut_y.inside py).1 (h.0.1, h.1.1))

-- The damage of several areas, the first reported first.
