-- ===== src/Present/Drawn.antt =====
-- What the blits of ExecutePresentDisplayOnly in viogpu/viogpudo/viogpudo.cpp draw lies in the rectangle of the
-- updates.
use graphics_drivers_wip.Base.{
  ℕ, ◌^◌, ◌≤◌, ◌<◌, ◌≡◌, ◌⊎◌, inl, inr, refl, ◌∙◌, some, none, List, [], ◌∷◌, ◌++◌, Option, arith,
}
use graphics_drivers_wip.Blit.{Memory, Rect, Rotation, BltInfo, blt_bits}
use graphics_drivers_wip.Blit.Geometry.{IsSurface}
use graphics_drivers_wip.Blit.Equivalence.{IsWithin}
use graphics_drivers_wip.Blit.Frame.{InRect, blt_bits_frame}
use graphics_drivers_wip.Bdd.{BddMode}
use graphics_drivers_wip.Present.{bias, extend, extend_all, find_update_rect, blt_each, update_rect}
use graphics_drivers_wip.Present.Update.{
  Covers, CoversAll, IsAround, find_update_rect_lem, around-CoversAll,
}

abbrev pub AllIn : BltInfo → List Rect → Type 0
AllIn b [] = Unit {0}
AllIn b (r ∷ rs) = IsWithin b r × AllIn b rs

-- Every side is a 32-bit pattern.
abbrev IsLong : Rect → Type 0
IsLong r = (r.left < 2 ^ 32) × (r.top < 2 ^ 32) × (r.right < 2 ^ 32) × (r.bottom < 2 ^ 32)

IsWithin-IsLong : (b : BltInfo) (r : Rect) → IsWithin b r → IsLong r
IsWithin-IsLong b r w = omega (arith, w)

extend-IsLong :
    (o : Option Rect) (r t : Rect)
    → ((u : Rect) → o ≡ some u → IsLong u)
    → IsLong r
    → extend o r ≡ some t
    → IsLong t
unfolding extend
extend-IsLong none r t h k e = ground arith
extend-IsLong (some u) r t h k e = ground (arith, h u)

extend_all-IsLong :
    (b : BltInfo) (rs : List Rect) (o : Option Rect) (t : Rect)
    → ((u : Rect) → o ≡ some u → IsLong u)
    → AllIn b rs
    → extend_all o rs ≡ some t
    → IsLong t
unfolding extend_all
extend_all-IsLong b [] o t h a e = h t e
extend_all-IsLong b (r ∷ rs) o t h a e =
    extend_all-IsLong b rs (extend o r) t (λ u d. extend-IsLong o r u h (IsWithin-IsLong b r a.0) d)
      a.1 e

-- Every byte that is drawn lies in some rectangle of the list.
abbrev InSome : BltInfo → List Rect → ℕ → Type 0
InSome b [] q = ⊥
InSome b (r ∷ rs) q = InRect b r q ⊎ InSome b rs q

InSome-append :
    (b : BltInfo) (rs ss : List Rect) (q : ℕ)
    → InSome b rs q ⊎ InSome b ss q
    → InSome b (rs ++ ss) q
InSome-append b [] ss q (inl h) = absurd h
InSome-append b [] ss q (inr h) = h
InSome-append b (r ∷ rs) ss q (inl (inl h)) = inl h
InSome-append b (r ∷ rs) ss q (inl (inr h)) = inr (InSome-append b rs ss q (inl h))
InSome-append b (r ∷ rs) ss q (inr h) = inr (InSome-append b rs ss q (inr h))

AllIn-append : (b : BltInfo) (rs ss : List Rect) → AllIn b rs → AllIn b ss → AllIn b (rs ++ ss)
AllIn-append b [] ss h k = k
AllIn-append b (r ∷ rs) ss h k = (h.0, AllIn-append b rs ss h.1 k)

bias-le : (a c : ℕ) → bias a ≤ bias c → a < 2 ^ 32 → c < 2 ^ 31 → (a ≤ c) ⊎ (2 ^ 31 ≤ a)
bias-le a c h k l = ground arith

-- A drawn byte of a rectangle lies in every rectangle around it that has no negative side.
InRect-Covers :
    (b : BltInfo) (u r : Rect) (q : ℕ)
    → (u.left < 2 ^ 31) × (u.top < 2 ^ 31)
    → (u.right < 2 ^ 31) × (u.bottom < 2 ^ 31)
    → (r.right < 2 ^ 31) × (r.bottom < 2 ^ 31)
    → r.left ≤ r.right
    → Covers u r
    → InRect b r q
    → InRect b u q
InRect-Covers b u r q hu hv hr o c (y, lo, hi, a, z) =
    (y, omega (arith, c), omega (arith, c), omega (arith, c), omega (arith, c))

-- The whole surface, as a rectangle.
abbrev whole : BltInfo → Rect
whole b = record { left = 0; top = 0; right = b.width; bottom = b.height }

whole-CoversAll :
    (b : BltInfo) (rs : List Rect)
    → IsSurface b
    → b.offset_x ≡ 0
    → b.offset_y ≡ 0
    → AllIn b rs
    → CoversAll (whole b) rs
whole-CoversAll b [] f x y a = tt
whole-CoversAll b (r ∷ rs) f x y a = (omega (arith, a.0, f), whole-CoversAll b rs f x y a.1)

InSome-Covers :
    (b : BltInfo) (u : Rect) (rs : List Rect) (q : ℕ)
    → IsSurface b
    → b.offset_x ≡ 0
    → b.offset_y ≡ 0
    → (u.left < 2 ^ 31) × (u.top < 2 ^ 31)
    → (u.right < 2 ^ 31) × (u.bottom < 2 ^ 31)
    → AllIn b rs
    → CoversAll u rs
    → InSome b rs q
    → InRect b u q
InSome-Covers b u [] q f x y h k a c i = absurd i
InSome-Covers b u (r ∷ rs) q f x y h k a c (inl i) =
    InRect-Covers b u r q h k (omega (arith, a.0, f), omega (arith, a.0, f)) a.0.ordered_x c.0 i
InSome-Covers b u (r ∷ rs) q f x y h k a c (inr i) = InSome-Covers b u rs q f x y h k a.1 c.1 i

-- The right and the bottom are inside the surface.
abbrev pub InFrame : BltInfo → Rect → Type 0
InFrame b u = (u.right ≤ b.width) × (u.bottom ≤ b.height)

InSome-around :
    (b : BltInfo) (rs : List Rect) (o : Option Rect) (q : ℕ)
    → IsSurface b
    → b.offset_x ≡ 0
    → b.offset_y ≡ 0
    → AllIn b rs
    → IsAround o rs
    → ((t : Rect) → o ≡ some t → IsLong t)
    → InSome b rs q
    → (u : Rect) × (o ≡ some u) × InFrame b u × InRect b u q
InSome-around b [] o q f x y a n l i = absurd i
InSome-around b (r ∷ rs) o q f x y a (u, e, k) l i =
    let inside = (k (whole b)).1 (whole-CoversAll b (r ∷ rs) f x y a) in
    let around = around-CoversAll o (r ∷ rs) u (u, e, k) e in
    let long = l u e in
    (
      u,
      e,
      (
        omega (arith, inside, long, around.0, a.0, f),
        omega (arith, inside, long, around.0, a.0, f),
      ),
      InSome-Covers b u (r ∷ rs) q f x y (omega (arith, inside, long), omega (arith, inside, long))
          (
            omega (arith, inside, long, around.0, a.0, f),
            omega (arith, inside, long, around.0, a.0, f),
          )
          a around i,
    )

module _ (dst src : BltInfo) (ox : dst.offset_x ≡ 0) (oy : dst.offset_y ≡ 0)
    (td : dst.rotation ≡ Rotation.identity) (ts : src.rotation ≡ Rotation.identity)
    (bd : dst.bits_per_pel ≡ 32) (bs : src.bits_per_pel ≡ 32) (fd : IsSurface dst) where
  blt_each_frame :
      (rs : List Rect) (m : Memory) (q : ℕ)
      → AllIn dst rs
      → (blt_each dst src rs m q ≡ m q) ⊎ InSome dst rs q
  unfolding blt_each
  blt_each_frame [] m q a = inl refl
  blt_each_frame (r ∷ rs) m q a = elim (blt_each_frame rs (blt_bits dst src (r ∷ []) m) q a.1) [
    | inr further ↦ inr (inr further)
    | inl same ↦ elim (blt_bits_frame dst src ox oy td ts bd bs fd r m q a.0) [
      | inl here ↦ inl (same ∙ here)
      | inr inside ↦ inr (inl inside)
    ]
  ]

  -- All that is drawn lies in the rectangle of the updates.
  pub drawn_in_update :
      (moves dirty : List Rect) (cur : BddMode) (m : Memory) (q : ℕ)
      → AllIn dst moves
      → AllIn dst dirty
      → (blt_each dst src dirty (blt_each dst src moves m) q ≡ m q)
        ⊎ (InFrame dst (update_rect moves dirty cur) × InRect dst (update_rect moves dirty cur) q)
  unfolding update_rect find_update_rect
  drawn_in_update moves dirty cur m q am ad =
      let all = AllIn-append dst moves dirty am ad in
      let long : (t : Rect) → find_update_rect moves dirty ≡ some t → IsLong t = λ t e.
        extend_all-IsLong dst dirty (extend_all none moves) t
          (λ u d. extend_all-IsLong dst moves none u (λ v z. cc) am d) ad e in
      let within : InSome dst (moves ++ dirty) q
          → InFrame dst (update_rect moves dirty cur) × InRect dst (update_rect moves dirty cur) q =
        λ i.
          let (u, e, g, h) =
            InSome-around dst (moves ++ dirty) (find_update_rect moves dirty) q fd ox oy all
              (find_update_rect_lem moves dirty) long i in
          rw (e, update_rect) (g, h) in
      elim (blt_each_frame dirty (blt_each dst src moves m) q ad) [
        | inr i ↦ inr (within (InSome-append dst moves dirty q (inr i)))
        | inl same ↦ elim (blt_each_frame moves m q am) [
          | inl before ↦ inl (same ∙ before)
          | inr i ↦ inr (within (InSome-append dst moves dirty q (inl i)))
        ]
      ]
