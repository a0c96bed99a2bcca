-- ===== src/Blit/Frame.antt =====
-- Which bytes the fast path of viogpu/common/bitops.cpp writes, for one rectangle.
use graphics_drivers_wip.Base.{
  ℕ, zero, suc, ◌+◌, ◌-◌, ◌*◌, ◌^◌, ◌≤◌, ◌<◌, ◌≡◌, ◌⊎◌, inl, inr, refl, ap, ◌∙◌, List, [], ◌∷◌,
  ◌&&◌, ltb, leb, Bool-cases, u32, sub32, add_uint, arith,
}
use graphics_drivers_wip.Blit.{
  Memory, Rect, Rotation, BltInfo, copy_memory, copy_lines, copy_bits_32_32, start_32, blt_bits,
}
use graphics_drivers_wip.Blit.Geometry.{IsSurface}
use graphics_drivers_wip.Blit.Equivalence.{IsWithin, start-eq, columns-fit, region}

-- The byte lies in one of `n` rows of `bytes` bytes, `pitch` apart, the first of them at `d`.
abbrev pub InRows : ℕ → ℕ → ℕ → ℕ → ℕ → Type 0
InRows n bytes pitch d q = (i : ℕ) × (i < n) × (d + i * pitch ≤ q) × (q < d + i * pitch + bytes)

copy_memory_frame :
    (d s n : ℕ) (m : Memory) (q : ℕ) → (copy_memory d s n m q ≡ m q) ⊎ ((d ≤ q) × (q < d + n))
copy_memory_frame d s n m q = elim (Bool-cases (leb d q && ltb q (d + n))) [
  | inl e ↦ inr (ground arith)
  | inr e ↦ inl (rw e refl)
]

-- A line that is behind the first.
later :
    (n bytes pitch d q : ℕ) → InRows n bytes pitch (d + pitch) q → InRows (suc n) bytes pitch d q
later n bytes pitch d q (i, l, lo, hi) = (suc i, omega arith, omega arith, omega arith)

copy_lines_frame :
    (n bytes : ℕ) (dst src : BltInfo) (d c e s : ℕ) (m : Memory) (q : ℕ)
    → d + n * dst.pitch ≤ e
    → c + bytes ≤ dst.pitch
    → e < 2 ^ 64
    → (copy_lines n bytes dst src (d + c) s m q ≡ m q) ⊎ InRows n bytes dst.pitch (d + c) q
unfolding copy_lines
copy_lines_frame zero bytes dst src d c e s m q h k w = inl refl
copy_lines_frame (suc zero) bytes dst src d c e s m q h k w =
    elim (copy_memory_frame (d + c) s bytes m q) [
      | inl same ↦ inl same
      | inr (lo, hi) ↦ inr (0, omega arith, omega arith, omega arith)
    ]
copy_lines_frame (suc (suc n)) bytes dst src d c e s m q h k w =
    let next : add_uint (d + c) dst.pitch ≡ d + dst.pitch + c = omega arith in
    let swap : d + dst.pitch + c ≡ d + c + dst.pitch = omega arith in
    let m' = copy_memory (d + c) s bytes m in
    let s' = add_uint s src.pitch in
    elim (copy_memory_frame (d + c) s bytes m q) [
      | inr (lo, hi) ↦ inr (0, omega arith, omega arith, omega arith)
      | inl same ↦
          rw next
            (elim (copy_lines_frame (suc n) bytes dst src (d + dst.pitch) c e s' m' q (omega arith)
              k w) [
                | inl rest ↦ inl (rest ∙ same)
                | inr rows ↦ inr (
                    later (suc n) bytes dst.pitch (d + c) q
                      (let (i, l, lo, hi) = rows in (i, l, omega arith, omega arith)))
              ])
    ]

-- The bytes of the rectangle's rows on the surface.
abbrev pub InRect : BltInfo → Rect → ℕ → Type 0
InRect b r q =
    (y : ℕ) × (r.top ≤ y)
    × (y < r.bottom)
    × (b.bits + y * b.pitch + r.left * 4 ≤ q)
    × (q < b.bits + y * b.pitch + r.right * 4)

module _ (dst src : BltInfo) (ox : dst.offset_x ≡ 0) (oy : dst.offset_y ≡ 0)
    (td : dst.rotation ≡ Rotation.identity) (ts : src.rotation ≡ Rotation.identity)
    (bd : dst.bits_per_pel ≡ 32) (bs : src.bits_per_pel ≡ 32) (fd : IsSurface dst) where
  rect_rows :
      (r : Rect) (n : ℕ) (m : Memory) (q : ℕ)
      → n ≡ r.bottom - r.top
      → IsWithin dst r
      → (copy_lines n ((r.right - r.left) * 4) dst src (start_32 dst r) (start_32 src r) m q ≡ m q)
        ⊎ InRect dst r q
  unfolding copy_lines
  rect_rows r zero m q e w = inl refl
  rect_rows r (suc n) m q e w =
      let start = start-eq dst r bd fd w (omega arith) in
      let top : u32 (r.top + dst.offset_y) ≡ r.top = omega (arith, oy, w) in
      let left : u32 (r.left + dst.offset_x) ≡ r.left = omega (arith, ox, w) in
      let at : start_32 dst r ≡ dst.bits + r.top * dst.pitch + r.left * 4 =
        start
        ∙ (ap (λ (t : ℕ). dst.bits + t * dst.pitch + u32 (r.left + dst.offset_x) * 4) top
            ∙ ap (λ (t : ℕ). dst.bits + r.top * dst.pitch + t * 4) left) in
      let fits = rw (left) at (columns-fit dst r bd fd w) in
      let down = region (suc n) r.top dst.height dst.pitch (omega (arith, w.rows, top)) in
      elim (copy_lines_frame (suc n) ((r.right - r.left) * 4) dst src (dst.bits + r.top * dst.pitch)
        (r.left * 4) (dst.bits + dst.height * dst.pitch) (start_32 src r) m q (omega arith) fits
        fd.in_memory) [
          | inl same ↦ inl (rw at same)
          | inr (i, l, lo, hi) ↦
              inr (r.top + i, omega arith, omega arith, omega arith, omega (arith, w.ordered_x))
        ]

  is_fast : (rs : List Rect) (m : Memory) → blt_bits dst src rs m ≡ copy_bits_32_32 dst src rs m
  unfolding blt_bits
  is_fast rs m = simp (bd, bs, td, ts) refl

  -- What one call of BltBits for one rectangle leaves alone.
  pub blt_bits_frame :
      (r : Rect) (m : Memory) (q : ℕ)
      → IsWithin dst r
      → (blt_bits dst src (r ∷ []) m q ≡ m q) ⊎ InRect dst r q
  unfolding copy_bits_32_32
  blt_bits_frame r m q w =
      let columns : sub32 r.right r.left ≡ r.right - r.left = omega (arith, w) in
      let lines : sub32 r.bottom r.top ≡ r.bottom - r.top = omega (arith, w) in
      let wide = columns-fit dst r bd fd w in
      let bytes : u32 ((r.right - r.left) * 4) ≡ (r.right - r.left) * 4 =
        omega (arith, wide, fd.small_pitch) in
      rw (is_fast (r ∷ []) m, columns, lines, bytes) (rect_rows r (r.bottom - r.top) m q refl w)
