-- ===== src/Blit/Equivalence.antt =====
-- CopyBits32_32 of viogpu/common/bitops.cpp, the fast path, against CopyBitsGeneric.
use graphics_drivers_wip.Base.{
  ℕ, zero, suc, ◌+◌, ◌-◌, ◌*◌, ◌/◌, ◌^◌, ◌≤◌, ◌<◌, ◌≡◌, ◌⊎◌, refl, fun_ext, ◌∙◌, arith, true, ◌&&◌,
  List, [], ◌∷◌, ◌==◌, Bool-cases, inl, inr, u32, sub32, add_long, add_uint,
}
use graphics_drivers_wip.Blit.Geometry.{IsSurface, row-fits, add_mul}
use graphics_drivers_wip.Blit.{
  BltInfo, Rect, Rotation, Memory, copy_word, copy_memory, get_pitches, get_row_start, copy_pixel,
  copy_row, copy_rows, copy_bits_generic, copy_lines, copy_bits_32_32, start_32, blt_bits,
  is_identity,
}

-- Two runs of `n` bytes that neither wrap nor overlap.
abbrev pub Apart : ℕ → ℕ → ℕ → Type 0
Apart n d s = (d + n < 2 ^ 64) × (s + n < 2 ^ 64) × ((d + n ≤ s) ⊎ (s + n ≤ d))

copy_word-eq :
    (d s : ℕ) (m : Memory) (q : ℕ)
    → d + 4 < 2 ^ 64
    → s + 4 < 2 ^ 64
    → copy_word d s m q ≡ copy_memory d s 4 m q
copy_word-eq d s m q hd hs = ground arith

-- Copying one word and then the words behind it is one copy.
copy_memory-split :
    (n d s : ℕ) (m : Memory) (q : ℕ)
    → Apart (4 + n) d s
    → copy_memory (d + 4) (s + 4) n (copy_memory d s 4 m) q ≡ copy_memory d s (4 + n) m q
copy_memory-split n d s m q a = ground arith

-- A row of 32-bit pixels.
copy_row-words :
    (n d s : ℕ) (m : Memory) (q : ℕ)
    → Apart (n * 4) d s
    → copy_row n 32 32 4 4 d s m q ≡ copy_memory d s (n * 4) m q
unfolding copy_row copy_pixel
copy_row-words zero d s m q a = ground arith
copy_row-words (suc n) d s m q a =
    let ed : add_long d 4 ≡ d + 4 = ground arith in
    let es : add_long s 4 ≡ s + 4 = ground arith in
    let word : copy_word d s m ≡ copy_memory d s 4 m =
      fun_ext (λ p. copy_word-eq d s m p (omega arith) (omega arith)) in
    let size : suc n * 4 ≡ 4 + n * 4 = omega arith in
    rw (ed, es, word, size)
      (copy_row-words n (d + 4) (s + 4) (copy_memory d s 4 m) q (ground arith)
        ∙ copy_memory-split (n * 4) d s m q (ground arith))

-- Every row of a rectangle, in both images.
RowsApart : ℕ → ℕ → ℕ → ℕ → ℕ → ℕ → Type 0
RowsApart zero bytes dp sp d s = Unit {0}
RowsApart (suc n) bytes dp sp d s =
    Apart bytes d s × RowsApart n bytes dp sp (add_uint d dp) (add_uint s sp)

pitch_step : (p k : ℕ) → k < 2 ^ 31 → add_long p k ≡ add_uint p k
pitch_step p k h = ground arith

pub depth : (b : BltInfo) → b.bits_per_pel ≡ 32 → b.bits_per_pel / 8 ≡ 4
depth b e = omega arith

module _ (dst src : BltInfo) (td : dst.rotation ≡ Rotation.identity)
    (ts : src.rotation ≡ Rotation.identity) (bd : dst.bits_per_pel ≡ 32)
    (bs : src.bits_per_pel ≡ 32) (pd : dst.pitch < 2 ^ 31) (ps : src.pitch < 2 ^ 31) where
  pitches-dst : get_pitches dst ≡ (4, dst.pitch)
  unfolding get_pitches
  pitches-dst = rw (td, get_pitches) (ground arith)

  pitches-src : get_pitches src ≡ (4, src.pitch)
  unfolding get_pitches
  pitches-src = rw (ts, get_pitches) (ground arith)

  copy_rows-lines :
      (n pixels d s : ℕ) (m : Memory)
      → RowsApart n (pixels * 4) dst.pitch src.pitch d s
      → copy_rows n pixels dst src d s m ≡ copy_lines n (pixels * 4) dst src d s m
  unfolding copy_rows copy_lines RowsApart
  copy_rows-lines zero pixels d s m a = refl
  copy_rows-lines (suc n) pixels d s m a =
      let line : copy_row pixels dst.bits_per_pel src.bits_per_pel 4 4 d s m
          ≡ copy_memory d s (pixels * 4) m =
        simp (bd, bs) (fun_ext (λ q. copy_row-words pixels d s m q a.0)) in
      rw (pitches-dst, pitches-src, line, pitch_step d dst.pitch pd, pitch_step s src.pitch ps)
        (copy_rows-lines n pixels (add_uint d dst.pitch) (add_uint s src.pitch)
          (copy_memory d s (pixels * 4) m) a.1)

  start_dst : (r : Rect) → get_row_start dst r ≡ start_32 dst r
  unfolding get_row_start
  start_dst r = rw (td, get_row_start) (cc (depth dst bd))

  start_src : (r : Rect) → get_row_start src r ≡ start_32 src r
  unfolding get_row_start
  start_src r = rw (ts, get_row_start) (cc (depth src bs))

  RectApart : Rect → Type 0
  RectApart r =
      (sub32 r.right r.left * 4 < 2 ^ 32)
      × RowsApart (sub32 r.bottom r.top) (sub32 r.right r.left * 4) dst.pitch src.pitch
          (start_32 dst r) (start_32 src r)

  RectsApart : List Rect → Type 0
  RectsApart [] = Unit {0}
  RectsApart (r ∷ rs) = RectApart r × RectsApart rs

  copy_bits-eq :
      (rs : List Rect) (m : Memory)
      → RectsApart rs
      → copy_bits_32_32 dst src rs m ≡ copy_bits_generic dst src rs m
  unfolding copy_bits_32_32 copy_bits_generic RectsApart RectApart
  copy_bits-eq [] m a = refl
  copy_bits-eq (r ∷ rs) m a =
      let bytes : u32 (sub32 r.right r.left * 4) ≡ sub32 r.right r.left * 4 = omega (arith, a.0) in
      rw
        (
          start_dst r,
          start_src r,
          bytes,
          copy_rows-lines (sub32 r.bottom r.top) (sub32 r.right r.left) (start_32 dst r)
              (start_32 src r) m a.0.1,
        )
        (copy_bits-eq rs _ a.1)

-- The rectangle lies in the image, with the offset of the image added to it.
pub record IsWithin (b : BltInfo) (r : Rect) : Type 0 where
  pub columns : u32 (r.left + b.offset_x) + (r.right - r.left) ≤ b.width
  pub rows : u32 (r.top + b.offset_y) + (r.bottom - r.top) ≤ b.height
  pub ordered_x : r.left ≤ r.right
  pub ordered_y : r.top ≤ r.bottom
  pub long_x : r.right < 2 ^ 32
  pub long_y : r.bottom < 2 ^ 32

-- The rows stay in two regions of memory, which are apart.
rows-apart :
    (n bytes dp sp d dc s sc de se : ℕ)
    → d + n * dp ≤ de
    → s + n * sp ≤ se
    → dc + bytes ≤ dp
    → sc + bytes ≤ sp
    → de < 2 ^ 64
    → se < 2 ^ 64
    → ((de ≤ s) ⊎ (se ≤ d))
    → RowsApart n bytes dp sp (d + dc) (s + sc)
unfolding RowsApart
rows-apart zero bytes dp sp d dc s sc de se hd hs bd bs nd ns h = tt
rows-apart (suc zero) bytes dp sp d dc s sc de se hd hs bd bs nd ns h = (omega arith, tt)
rows-apart (suc (suc n)) bytes dp sp d dc s sc de se hd hs bd bs nd ns h =
    let ed : add_uint (d + dc) dp ≡ d + dp + dc = omega arith in
    let es : add_uint (s + sc) sp ≡ s + sp + sc = omega arith in
    (
      omega arith,
      rw (ed, es)
          (rows-apart (suc n) bytes dp sp (d + dp) dc (s + sp) sc de se (omega arith) (omega arith)
            bd bs nd ns (omega arith)),
    )

pub start-eq :
    (b : BltInfo) (r : Rect)
    → b.bits_per_pel ≡ 32
    → IsSurface b
    → IsWithin b r
    → 0 < r.bottom - r.top
    → start_32 b r ≡ b.bits + u32 (r.top + b.offset_y) * b.pitch + u32 (r.left + b.offset_x) * 4
start-eq b r e f w hy =
    let d = depth b e in
    let line = row-fits (u32 (r.top + b.offset_y)) b.height b.pitch (omega (arith, w)) in
    ground (arith, f.rows_fit, f.small_pitch, f.small_size, f.in_memory)

pub mul_mono : (a h p : ℕ) → a ≤ h → a * p ≤ h * p
mul_mono a h p k = grind arith

pub region : (n a h p : ℕ) → a + n ≤ h → a * p + n * p ≤ h * p
region n a h p k = let m = mul_mono (a + n) h p k in omega (arith, add_mul a n p)

pub columns-fit :
    (b : BltInfo) (r : Rect)
    → b.bits_per_pel ≡ 32
    → IsSurface b
    → IsWithin b r
    → u32 (r.left + b.offset_x) * 4 + (r.right - r.left) * 4 ≤ b.pitch
columns-fit b r e f w =
    let wide : b.width * 4 ≤ b.pitch = rw (depth b e) at f.rows_fit in omega (arith, w.columns)

apart_further :
    {de s se d s' d' : ℕ} → ((de ≤ s) ⊎ (se ≤ d)) → s ≤ s' → d ≤ d' → (de ≤ s') ⊎ (se ≤ d')
apart_further (inl h) p q = inl (omega arith)
apart_further (inr h) p q = inr (omega arith)

-- The two surfaces share no memory.
abbrev pub SurfacesApart : BltInfo → BltInfo → Type 0
SurfacesApart dst src =
    (dst.bits + dst.height * dst.pitch ≤ src.bits) ⊎ (src.bits + src.height * src.pitch ≤ dst.bits)

abbrev pub AllWithin : BltInfo → BltInfo → List Rect → Type 0
AllWithin dst src [] = Unit {0}
AllWithin dst src (r ∷ rs) = IsWithin dst r × IsWithin src r × AllWithin dst src rs

module _ (dst src : BltInfo) (td : dst.rotation ≡ Rotation.identity)
    (ts : src.rotation ≡ Rotation.identity) (bd : dst.bits_per_pel ≡ 32)
    (bs : src.bits_per_pel ≡ 32) (fd : IsSurface dst) (fs : IsSurface src)
    (apart : SurfacesApart dst src) where
  rows_of_rect :
      (r : Rect) (n : ℕ)
      → n ≡ r.bottom - r.top
      → IsWithin dst r
      → IsWithin src r
      → RowsApart n ((r.right - r.left) * 4) dst.pitch src.pitch (start_32 dst r) (start_32 src r)
  unfolding RowsApart
  rows_of_rect r zero e wd ws = tt
  rows_of_rect r (suc n) e wd ws =
      let hd = start-eq dst r bd fd wd (omega arith) in
      let hs = start-eq src r bs fs ws (omega arith) in
      let bytes = (r.right - r.left) * 4 in
      let dd = depth dst bd in
      let ds = depth src bs in
      let ed =
        region (suc n) (u32 (r.top + dst.offset_y)) dst.height dst.pitch (omega (arith, wd)) in
      let es =
        region (suc n) (u32 (r.top + src.offset_y)) src.height src.pitch (omega (arith, ws)) in
      rw (hd, hs)
        (rows-apart (suc n) bytes dst.pitch src.pitch
          (dst.bits + u32 (r.top + dst.offset_y) * dst.pitch) (u32 (r.left + dst.offset_x) * 4)
          (src.bits + u32 (r.top + src.offset_y) * src.pitch) (u32 (r.left + src.offset_x) * 4)
          (dst.bits + dst.height * dst.pitch) (src.bits + src.height * src.pitch) (omega arith)
          (omega arith) (columns-fit dst r bd fd wd) (columns-fit src r bs fs ws) (omega arith)
          (omega arith) (apart_further apart (omega arith) (omega arith)))

  rect_apart :
      (r : Rect)
      → IsWithin dst r
      → IsWithin src r
      → RectApart dst src td ts bd bs fd.small_pitch fs.small_pitch r
  unfolding RectApart
  rect_apart r wd ws =
      let columns : sub32 r.right r.left ≡ r.right - r.left = omega (arith, wd) in
      let lines : sub32 r.bottom r.top ≡ r.bottom - r.top = omega (arith, wd) in
      rw (columns, lines)
        (omega (arith, columns-fit dst r bd fd wd), rows_of_rect r (r.bottom - r.top) refl wd ws)

  rects_apart :
      (rs : List Rect)
      → AllWithin dst src rs
      → RectsApart dst src td ts bd bs fd.small_pitch fs.small_pitch rs
  unfolding RectsApart
  rects_apart [] a = tt
  rects_apart (r ∷ rs) a = (rect_apart r a.0 a.1, rects_apart rs a.2)

pub is_identity-eq : (ρ : Rotation) → is_identity ρ ≡ true → ρ ≡ Rotation.identity
is_identity-eq ρ h = ground arith

-- BltBits copies what CopyBitsGeneric copies, also where it takes the fast path for 32-bit images
-- without rotation, if the two surfaces share no memory and each rectangle lies in both images.
pub blt_bits-eq-generic :
    (dst src : BltInfo) (rs : List Rect) (m : Memory)
    → IsSurface dst
    → IsSurface src
    → SurfacesApart dst src
    → AllWithin dst src rs
    → blt_bits dst src rs m ≡ copy_bits_generic dst src rs m
unfolding blt_bits
blt_bits-eq-generic dst src rs m fd fs apart a =
    elim (Bool-cases (
      dst.bits_per_pel == 32
      && src.bits_per_pel == 32
      && is_identity dst.rotation
      && is_identity src.rotation)) [
        | inr slow ↦ rw slow
        | inl fast ↦
            let bd : dst.bits_per_pel ≡ 32 = ground arith in
            let bs : src.bits_per_pel ≡ 32 = ground arith in
            let td : dst.rotation ≡ Rotation.identity =
              is_identity-eq dst.rotation (ground arith) in
            let ts : src.rotation ≡ Rotation.identity =
              is_identity-eq src.rotation (ground arith) in
            rw fast (
              copy_bits-eq dst src td ts bd bs fd.small_pitch fs.small_pitch rs m
                (rects_apart dst src td ts bd bs fd fs apart rs a))
      ]
