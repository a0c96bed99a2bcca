-- ===== src/Present/Update.antt =====
-- FindUpdateRect of viogpu/viogpudo/viogpudo.cpp against the least rectangle around a list of rectangles.
use graphics_drivers_wip.Base.{
  ◌≤◌, subst, ◌≡◌, ◌↔◌, refl, Option, none, some, List, [], ◌∷◌, ◌++◌, arith,
}
use graphics_drivers_wip.Blit.{Rect}
use graphics_drivers_wip.Present.{bias, extend, extend_all, find_update_rect}

-- The rectangle `v` reaches at least as far as `r` on each side, by the order of LONGs.
pub record Covers (v r : Rect) : Type 0 where
  pub to_left : bias v.left ≤ bias r.left
  pub to_top : bias v.top ≤ bias r.top
  pub to_right : bias r.right ≤ bias v.right
  pub to_bottom : bias r.bottom ≤ bias v.bottom

abbrev pub CoversAll : Rect → List Rect → Type 0
CoversAll v [] = Unit {0}
CoversAll v (r ∷ rs) = Covers v r × CoversAll v rs

-- The least rectangle around the given ones, and none if there are none.
abbrev pub IsAround : Option Rect → List Rect → Type 0
IsAround o [] = o ≡ none
IsAround o (r ∷ rs) = (u : Rect) × (o ≡ some u) × ((v : Rect) → Covers v u ↔ CoversAll v (r ∷ rs))

-- One more rectangle.
extend_lem :
    (u r : Rect)
    → (t : Rect) × (extend (some u) r ≡ some t)
      × ((v : Rect) → Covers v t ↔ (Covers v u × Covers v r))
unfolding extend
extend_lem u r = (_, refl, λ v. (λ c. ground arith, λ c. ground arith))

extend_all-some :
    (u : Rect) (rs : List Rect)
    → (t : Rect) × (extend_all (some u) rs ≡ some t)
      × ((v : Rect) → Covers v t ↔ (Covers v u × CoversAll v rs))
unfolding extend_all
extend_all-some u [] = (u, refl, λ v. (λ c. (c, tt), λ c. c.0))
extend_all-some u (r ∷ rs) =
    let (t, e, f) = extend_lem u r in
    let (s, d, g) = extend_all-some t rs in
    (
      s,
      rw e d,
      λ v. (
        λ c. let a = (g v).0 c in let b = (f v).0 a.0 in (b.0, (b.1, a.1)),
        λ c. (g v).1 ((f v).1 (c.0, c.1.0), c.1.1),
      ),
    )

extend_all-append :
    (o : Option Rect) (rs ss : List Rect)
    → extend_all (extend_all o rs) ss ≡ extend_all o (rs ++ ss)
unfolding extend_all
extend_all-append o [] ss = refl
extend_all-append o (r ∷ rs) ss = extend_all-append (extend o r) rs ss

extend_all-IsAround : (rs : List Rect) → IsAround (extend_all none rs) rs
unfolding extend_all extend
extend_all-IsAround [] = refl
extend_all-IsAround (r ∷ rs) = extend_all-some r rs

-- FindUpdateRect finds the least rectangle around the destinations of all moves and all dirty
-- rectangles, by the order of signed numbers: another rectangle reaches around it if and only if
-- it reaches around each of them. It finds none if and only if there are none of them.
pub find_update_rect_lem :
    (moves dirty : List Rect) → IsAround (find_update_rect moves dirty) (moves ++ dirty)
unfolding find_update_rect
find_update_rect_lem moves dirty =
    rw (extend_all-append none moves dirty) (extend_all-IsAround (moves ++ dirty))

-- The rectangle found reaches around each of them.
pub around-CoversAll :
    (o : Option Rect) (rs : List Rect) (u : Rect) → IsAround o rs → o ≡ some u → CoversAll u rs
around-CoversAll o [] u a e = tt
around-CoversAll o (r ∷ rs) u (t, d, f) e =
    let same : t ≡ u = cc in subst (λ z. CoversAll z (r ∷ rs)) same ((f t).0 (omega arith))
