-- ===== src/Blit/Geometry.antt =====
-- Where CopyBitsGeneric of viogpu/common/bitops.cpp reads and writes: GetRowStart and GetPitches
-- against a rotation of coordinates.
use graphics_drivers_wip.Base.{
  ℕ, zero, suc, ◌+◌, ◌-◌, ◌*◌, ◌/◌, ◌^◌, ◌≤◌, ◌<◌, ◌≡◌, refl, ap, ◌∙◌, arith, u32, sub32, neg32,
  add_long, add_uint,
}
use graphics_drivers_wip.Blit.{BltInfo, Rect, Rotation, get_pitches, get_row_start, long_div8}

-- `n` steps of a pointer by a pitch, as the loops of CopyBitsGeneric make them.
pub walk : ℕ → ℕ → ℕ → ℕ
walk zero k p = p
walk (suc n) k p = walk n k (add_long p k)

-- The address that CopyBitsGeneric uses for the pixel in column `x` and row `y` of a rectangle.
pub pixel_address : BltInfo → Rect → ℕ → ℕ → ℕ
unfolding walk
pixel_address b r x y = walk x (get_pitches b).0 (walk y (get_pitches b).1 (get_row_start b r))

walk-forward : (n k p : ℕ) → k < 2 ^ 31 → p + n * k < 2 ^ 64 → walk n k p ≡ p + n * k
unfolding walk
walk-forward zero k p hk hp = omega arith
walk-forward (suc n) k p hk hp =
    let step : add_long p k ≡ p + k = ground arith in
    ap (walk n k) step ∙ (walk-forward n k (p + k) hk (omega arith) ∙ omega arith)

walk-back : (n k p : ℕ) → k < 2 ^ 31 → n * k ≤ p → p < 2 ^ 64 → walk n (neg32 k) p ≡ p - n * k
unfolding walk
walk-back zero k p hk hn hp = omega arith
walk-back (suc n) k p hk hn hp =
    let step : add_long p (neg32 k) ≡ p - k = ground arith in
    ap (walk n (neg32 k)) step
    ∙ (walk-back n k (p - k) hk (omega arith) (omega arith) ∙ omega arith)

pub add_mul : (a c p : ℕ) → (a + c) * p ≡ a * p + c * p
add_mul a c p = omega arith

pub row-fits : (a h p : ℕ) → a < h → a * p + p ≤ h * p
row-fits a h p q = grind arith

-- The column and the row of the unrotated image that a rotation takes a point to.
abbrev pub column : Rotation → ℕ → ℕ → ℕ → ℕ → ℕ
column Rotation.identity w h px py = px
column Rotation.rotate90 w h px py = py
column Rotation.rotate180 w h px py = w - 1 - px
column Rotation.rotate270 w h px py = w - 1 - py
column _ w h px py = 0

abbrev pub row : Rotation → ℕ → ℕ → ℕ → ℕ → ℕ
row Rotation.identity w h px py = py
row Rotation.rotate90 w h px py = h - 1 - px
row Rotation.rotate180 w h px py = h - 1 - py
row Rotation.rotate270 w h px py = px
row _ w h px py = 0

-- The point lies in the image as it is seen after the rotation; no other rotation has points.
abbrev pub Inside : Rotation → ℕ → ℕ → ℕ → ℕ → Type 0
Inside Rotation.identity w h px py = (px < w) × (py < h)
Inside Rotation.rotate90 w h px py = (px < h) × (py < w)
Inside Rotation.rotate180 w h px py = (px < w) × (py < h)
Inside Rotation.rotate270 w h px py = (px < h) × (py < w)
Inside _ w h px py = ⊥

-- A surface: its rows lie within the pitch and in one piece of memory, and the sizes are such that
-- no 32-bit product of the code wraps.
pub record IsSurface (b : BltInfo) : Type 0 where
  pub rows_fit : b.width * (b.bits_per_pel / 8) ≤ b.pitch
  pub small_pitch : b.pitch < 2 ^ 31
  pub small_depth : b.bits_per_pel < 2 ^ 31
  pub small_size : b.height * b.pitch < 2 ^ 31
  pub small_width : b.width < 2 ^ 31
  pub small_height : b.height < 2 ^ 31
  pub in_memory : b.bits + b.height * b.pitch < 2 ^ 64

-- The two ways in which GetRowStart adds a row offset and a column offset.
place_long :
    (base p d i j I J : ℕ)
    → I ≡ i
    → J ≡ j
    → i * p < 2 ^ 31
    → j * d < 2 ^ 31
    → base + i * p + j * d < 2 ^ 64
    → add_long (add_uint base (u32 (I * p))) (u32 (J * d)) ≡ base + i * p + j * d
place_long base p d i j I J ei ej hi hj h = rw (ei, ej) (ground arith)

place_uint :
    (base p d i j I J : ℕ)
    → I ≡ i
    → J ≡ j
    → i * p < 2 ^ 31
    → j * d < 2 ^ 31
    → base + i * p + j * d < 2 ^ 64
    → add_uint (add_uint base (u32 (I * p))) (u32 (J * d)) ≡ base + i * p + j * d
place_uint base p d i j I J ei ej hi hj h = rw (ei, ej) (omega arith)

module _ (b : BltInfo) (r : Rect) (x y : ℕ) (s : IsSurface b) where
  px : ℕ
  px = u32 (r.left + b.offset_x) + x

  py : ℕ
  py = u32 (r.top + b.offset_y) + y

  identity_lem :
      b.rotation ≡ Rotation.identity
      → px < b.width
      → py < b.height
      → pixel_address b r x y ≡ b.bits + py * b.pitch + px * (b.bits_per_pel / 8)
  unfolding pixel_address get_pitches get_row_start px py
  identity_lem e hx hy =
      let d = b.bits_per_pel / 8 in
      let col = row-fits px b.width d hx in
      let line = row-fits py b.height b.pitch hy in
      let start =
        place_long b.bits b.pitch d (u32 (r.top + b.offset_y)) (u32 (r.left + b.offset_x))
          (u32 (r.top + b.offset_y)) (u32 (r.left + b.offset_x)) (omega arith) (omega arith)
          (omega arith) (omega arith) (omega arith) in
      let down =
        walk-forward y b.pitch
          (b.bits + u32 (r.top + b.offset_y) * b.pitch + u32 (r.left + b.offset_x) * d)
          (omega arith) (omega arith) in
      let across =
        walk-forward x d
          (b.bits
            + u32 (r.top + b.offset_y) * b.pitch
            + u32 (r.left + b.offset_x) * d
            + y * b.pitch)
          (omega arith) (omega arith) in
      rw (e, get_pitches, get_row_start, start, down, across) (omega arith)

  rotate90_lem :
      b.rotation ≡ Rotation.rotate90
      → px < b.height
      → py < b.width
      → pixel_address b r x y ≡ b.bits + (b.height - 1 - px) * b.pitch + py * (b.bits_per_pel / 8)
  unfolding pixel_address get_pitches get_row_start px py
  rotate90_lem e hx hy =
      let d = b.bits_per_pel / 8 in
      let ol = u32 (r.left + b.offset_x) in
      let ot = u32 (r.top + b.offset_y) in
      let i = b.height - 1 - ol in
      let k = b.height - 1 - px in
      let split : i * b.pitch ≡ k * b.pitch + x * b.pitch =
        ap (λ t. t * b.pitch) (omega arith) ∙ add_mul k x b.pitch in
      let col = row-fits py b.width d hy in
      let line = row-fits i b.height b.pitch (omega arith) in
      let start =
        place_long b.bits b.pitch d i ot (sub32 (sub32 b.height 1) ol) ot (omega arith)
          (omega arith) (omega arith) (omega arith) (omega arith) in
      let down = walk-forward y d (b.bits + i * b.pitch + ot * d) (omega arith) (omega arith) in
      let across =
        walk-back x b.pitch (b.bits + i * b.pitch + ot * d + y * d) (omega arith) (omega arith)
          (omega arith) in
      rw (e, get_pitches, get_row_start, start, down, across) (omega arith)

  rotate180_lem :
      b.rotation ≡ Rotation.rotate180
      → px < b.width
      → py < b.height
      → pixel_address b r x y
        ≡ b.bits + (b.height - 1 - py) * b.pitch + (b.width - 1 - px) * (b.bits_per_pel / 8)
  unfolding pixel_address get_pitches get_row_start px py
  rotate180_lem e hx hy =
      let d = b.bits_per_pel / 8 in
      let ol = u32 (r.left + b.offset_x) in
      let ot = u32 (r.top + b.offset_y) in
      let i = b.height - 1 - ot in
      let j = b.width - 1 - ol in
      let k = b.height - 1 - py in
      let l = b.width - 1 - px in
      let depth : long_div8 b.bits_per_pel ≡ d = ground arith in
      let split : i * b.pitch ≡ k * b.pitch + y * b.pitch =
        ap (λ t. t * b.pitch) (omega arith) ∙ add_mul k y b.pitch in
      let split' : j * d ≡ l * d + x * d = ap (λ t. t * d) (omega arith) ∙ add_mul l x d in
      let col = row-fits j b.width d (omega arith) in
      let line = row-fits i b.height b.pitch (omega arith) in
      let start =
        place_uint b.bits b.pitch d i j (sub32 (sub32 b.height 1) ot) (sub32 (sub32 b.width 1) ol)
          (omega arith) (omega arith) (omega arith) (omega arith) (omega arith) in
      let down =
        walk-back y b.pitch (b.bits + i * b.pitch + j * d) (omega arith) (omega arith)
          (omega arith) in
      let across =
        walk-back x d (b.bits + i * b.pitch + j * d - y * b.pitch) (omega arith) (omega arith)
          (omega arith) in
      rw (e, get_pitches, get_row_start, depth, start, down, across) (omega arith)

  rotate270_lem :
      b.rotation ≡ Rotation.rotate270
      → px < b.height
      → py < b.width
      → pixel_address b r x y ≡ b.bits + px * b.pitch + (b.width - 1 - py) * (b.bits_per_pel / 8)
  unfolding pixel_address get_pitches get_row_start px py
  rotate270_lem e hx hy =
      let d = b.bits_per_pel / 8 in
      let ol = u32 (r.left + b.offset_x) in
      let ot = u32 (r.top + b.offset_y) in
      let j = b.width - 1 - ot in
      let l = b.width - 1 - py in
      let depth : long_div8 b.bits_per_pel ≡ d = ground arith in
      let split' : j * d ≡ l * d + y * d = ap (λ t. t * d) (omega arith) ∙ add_mul l y d in
      let col = row-fits j b.width d (omega arith) in
      let line = row-fits px b.height b.pitch hx in
      let start =
        place_uint b.bits b.pitch d ol j ol (sub32 (sub32 b.width 1) ot) (omega arith) (omega arith)
          (omega arith) (omega arith) (omega arith) in
      let down =
        walk-back y d (b.bits + ol * b.pitch + j * d) (omega arith) (omega arith) (omega arith) in
      let across =
        walk-forward x b.pitch (b.bits + ol * b.pitch + j * d - y * d) (omega arith)
          (omega arith) in
      rw (e, get_pitches, get_row_start, depth, start, down, across) (omega arith)

abbrev pub spot : BltInfo → ℕ → ℕ → ℕ
spot b px py =
    b.bits
    + row b.rotation b.width b.height px py * b.pitch
    + column b.rotation b.width b.height px py * (b.bits_per_pel / 8)

address_by_rotation :
    (b : BltInfo) (r : Rect) (x y : ℕ) (ρ : Rotation)
    → IsSurface b
    → b.rotation ≡ ρ
    → Inside ρ b.width b.height (u32 (r.left + b.offset_x) + x) (u32 (r.top + b.offset_y) + y)
    → pixel_address b r x y
      ≡ b.bits
        + row ρ b.width b.height (u32 (r.left + b.offset_x) + x) (u32 (r.top + b.offset_y) + y)
          * b.pitch
        + column ρ b.width b.height (u32 (r.left + b.offset_x) + x) (u32 (r.top + b.offset_y) + y)
          * (b.bits_per_pel / 8)
unfolding px py
address_by_rotation b r x y Rotation.identity s e h = identity_lem b r x y s e h.0 h.1
address_by_rotation b r x y Rotation.rotate90 s e h = rotate90_lem b r x y s e h.0 h.1
address_by_rotation b r x y Rotation.rotate180 s e h = rotate180_lem b r x y s e h.0 h.1
address_by_rotation b r x y Rotation.rotate270 s e h = rotate270_lem b r x y s e h.0 h.1
address_by_rotation b r x y _ s e h = absurd h

in_image :
    (ρ : Rotation) (w h px py : ℕ)
    → Inside ρ w h px py
    → (row ρ w h px py < h) × (column ρ w h px py < w)
in_image Rotation.identity w h px py i = omega arith
in_image Rotation.rotate90 w h px py i = omega arith
in_image Rotation.rotate180 w h px py i = omega arith
in_image Rotation.rotate270 w h px py i = omega arith
in_image _ w h px py i = absurd i

-- On a surface, for a point that is inside it after the rotation, the loops of CopyBitsGeneric
-- reach exactly the pixel that the rotation takes the point to, and the pixel's bytes lie in the
-- memory of the surface.
pub pixel_address_lem :
    (b : BltInfo) (r : Rect) (x y : ℕ)
    → IsSurface b
    → Inside b.rotation b.width b.height
        (u32 (r.left + b.offset_x) + x)
        (u32 (r.top + b.offset_y) + y)
    → (pixel_address b r x y
        ≡ spot b (u32 (r.left + b.offset_x) + x) (u32 (r.top + b.offset_y) + y))
      × (b.bits ≤ pixel_address b r x y)
      × (pixel_address b r x y + b.bits_per_pel / 8 ≤ b.bits + b.height * b.pitch)
pixel_address_lem b r x y s h =
    let px = u32 (r.left + b.offset_x) + x in
    let py = u32 (r.top + b.offset_y) + y in
    let e = address_by_rotation b r x y b.rotation s refl h in
    let i = in_image b.rotation b.width b.height px py h in
    let a = row b.rotation b.width b.height px py in
    let c = column b.rotation b.width b.height px py in
    let line = row-fits a b.height b.pitch i.0 in
    let col = row-fits c b.width (b.bits_per_pel / 8) i.1 in (e, omega arith, omega arith)
