-- ===== src/Blit.antt =====
-- viogpu/common/bitops.cpp: the blit routines, over a memory of bytes.
-- A LONG is the number of its 32-bit pattern, a pointer that of its 64-bit pattern.
-- DbgPrint and NT_ASSERT have no effect here; the access violations that BltBits catches do not
-- arise, since every address of the memory can be read and written.
pub mod Color
pub mod Equivalence
pub mod Frame
pub mod Geometry
mod Examples
use graphics_drivers_wip.Base.{
  ℕ, zero, suc, ◌+◌, ◌-◌, ◌*◌, ◌/◌, ◌%◌, ◌^◌, Bool, true, false, ◌&&◌, ◌||◌, List, [], ◌∷◌, ltb,
  leb, ◌==◌, if◌then◌else◌, u32, sub32, neg32, add_long, add_uint,
}
use Color.{convert_16_to_32, convert_32_to_16, convert_32_to_8}

pub data Rotation : Type 0 where
  uninitialized identity rotate90 rotate180 rotate270 unpinned not_specified : Rotation

pub record Rect : Type 0 where
  pub left : ℕ
  pub top : ℕ
  pub right : ℕ
  pub bottom : ℕ

pub record BltInfo : Type 0 where
  pub bits : ℕ
  pub pitch : ℕ
  pub bits_per_pel : ℕ
  pub offset_x : ℕ
  pub offset_y : ℕ
  pub rotation : Rotation
  pub width : ℕ
  pub height : ℕ

abbrev pub Memory : Type 0
Memory = ℕ → ℕ

abbrev pub store : ℕ → ℕ → Memory → Memory
store a v m q = if q == a then v else m q

-- A LONG divided by 8 is rounded towards 0.
abbrev pub long_div8 : ℕ → ℕ
long_div8 n = if ltb n (2 ^ 31) then n / 8 else neg32 (neg32 n / 8)

-- The pixel pitch and the row pitch.
unfoldable pub get_pitches : BltInfo → ℕ × ℕ
get_pitches b = elim b.rotation [
  | Rotation.identity ↦ (b.bits_per_pel / 8, b.pitch)
  | Rotation.rotate90 ↦ (neg32 b.pitch, b.bits_per_pel / 8)
  | Rotation.rotate180 ↦ (neg32 (long_div8 b.bits_per_pel), neg32 b.pitch)
  | Rotation.rotate270 ↦ (b.pitch, neg32 (long_div8 b.bits_per_pel))
  | _ ↦ (0, 0)
]

-- `LONG * UINT` is a UINT, `LONG * LONG` a LONG: the first is zero-extended when it is added to the
-- pointer, the second sign-extended. Another rotation gives the null pointer.
unfoldable pub get_row_start : BltInfo → Rect → ℕ
get_row_start b r =
    let off_left = u32 (r.left + b.offset_x) in
    let off_top = u32 (r.top + b.offset_y) in
    let bpp = b.bits_per_pel / 8 in
    elim b.rotation [
      | Rotation.identity ↦
          add_long (add_uint b.bits (u32 (off_top * b.pitch))) (u32 (off_left * bpp))
      | Rotation.rotate90 ↦
          add_long (add_uint b.bits (u32 (sub32 (sub32 b.height 1) off_left * b.pitch)))
            (u32 (off_top * bpp))
      | Rotation.rotate180 ↦
          add_uint (add_uint b.bits (u32 (sub32 (sub32 b.height 1) off_top * b.pitch)))
            (u32 (sub32 (sub32 b.width 1) off_left * bpp))
      | Rotation.rotate270 ↦
          add_uint (add_uint b.bits (u32 (off_left * b.pitch)))
            (u32 (sub32 (sub32 b.width 1) off_top * bpp))
      | _ ↦ 0
    ]

-- One 32-bit load and one 32-bit store.
abbrev pub copy_word : ℕ → ℕ → Memory → Memory
copy_word d s m = store (add_uint d 3) (m (add_uint s 3)) (
    store (add_uint d 2) (m (add_uint s 2))
      (store (add_uint d 1) (m (add_uint s 1)) (store d (m s) m)))

-- Three loads, each after the store before it.
abbrev pub copy_three : ℕ → ℕ → Memory → Memory
copy_three d s m =
    let m₁ = store d (m s) m in
    let m₂ = store (add_uint d 1) (m₁ (add_uint s 1)) m₁ in
    store (add_uint d 2) (m₂ (add_uint s 2)) m₂

abbrev pub store_16 : ℕ → ℕ → Memory → Memory
store_16 d v m = store (add_uint d 1) (v / 2 ^ 8 % 2 ^ 8) (store d (v % 2 ^ 8) m)

abbrev pub store_32 : ℕ → ℕ → Memory → Memory
store_32 d v m =
    store (add_uint d 3) (v / 2 ^ 24 % 2 ^ 8)
      (store (add_uint d 2) (v / 2 ^ 16 % 2 ^ 8) (store_16 d (v % 2 ^ 16) m))

abbrev pub load_16 : Memory → ℕ → ℕ
load_16 m s = m s + m (add_uint s 1) * 2 ^ 8

-- The body of the innermost loop: one pixel, by the two depths.
pub copy_pixel : ℕ → ℕ → ℕ → ℕ → Memory → Memory
copy_pixel dst_bpp src_bpp d s m =
    if dst_bpp == 24 || src_bpp == 24
    then copy_three d s m
    else (if dst_bpp == 32
        then (if src_bpp == 32
            then copy_word d s m
            else (if src_bpp == 16 then store_32 d (convert_16_to_32 (load_16 m s)) m else m))
        else (if dst_bpp == 16
            then store_16 d (convert_32_to_16 (m s) (m (add_uint s 1)) (m (add_uint s 2))) m
            else (if dst_bpp == 8
                then store d (convert_32_to_8 (m s) (m (add_uint s 1)) (m (add_uint s 2))) m
                else m)))

-- The pixels of one row: how many are left, the two depths, the two pixel pitches, the pointers.
pub copy_row : ℕ → ℕ → ℕ → ℕ → ℕ → ℕ → ℕ → Memory → Memory
copy_row zero dst_bpp src_bpp dst_pitch src_pitch d s m = m
copy_row (suc n) dst_bpp src_bpp dst_pitch src_pitch d s m =
    copy_row n dst_bpp src_bpp dst_pitch src_pitch (add_long d dst_pitch) (add_long s src_pitch)
      (copy_pixel dst_bpp src_bpp d s m)

-- The rows of one rectangle.
pub copy_rows : ℕ → ℕ → BltInfo → BltInfo → ℕ → ℕ → Memory → Memory
copy_rows zero pixels dst src d s m = m
copy_rows (suc n) pixels dst src d s m =
    copy_rows n pixels dst src (add_long d (get_pitches dst).1) (add_long s (get_pitches src).1) (
      copy_row pixels dst.bits_per_pel src.bits_per_pel (get_pitches dst).0 (get_pitches src).0 d s
        m)

pub copy_bits_generic : BltInfo → BltInfo → List Rect → Memory → Memory
copy_bits_generic dst src [] m = m
copy_bits_generic dst src (r ∷ rs) m = copy_bits_generic dst src rs (
    copy_rows (sub32 r.bottom r.top) (sub32 r.right r.left) dst src (get_row_start dst r)
      (get_row_start src r) m)

-- RtlCopyMemory. Its two regions must not overlap; the code calls it for regions that do not wrap.
abbrev pub copy_memory : ℕ → ℕ → ℕ → Memory → Memory
copy_memory d s n m q = if leb d q && ltb q (d + n) then m (s + (q - d)) else m q

pub copy_lines : ℕ → ℕ → BltInfo → BltInfo → ℕ → ℕ → Memory → Memory
copy_lines zero bytes dst src d s m = m
copy_lines (suc n) bytes dst src d s m =
    copy_lines n bytes dst src (add_uint d dst.pitch) (add_uint s src.pitch)
      (copy_memory d s bytes m)

abbrev pub start_32 : BltInfo → Rect → ℕ
start_32 b r =
    add_long (add_uint b.bits (u32 (u32 (r.top + b.offset_y) * b.pitch)))
      (u32 (u32 (r.left + b.offset_x) * 4))

pub copy_bits_32_32 : BltInfo → BltInfo → List Rect → Memory → Memory
copy_bits_32_32 dst src [] m = m
copy_bits_32_32 dst src (r ∷ rs) m = copy_bits_32_32 dst src rs (
    copy_lines (sub32 r.bottom r.top) (u32 (sub32 r.right r.left * 4)) dst src (start_32 dst r)
      (start_32 src r) m)

abbrev pub is_identity : Rotation → Bool
is_identity Rotation.identity = true
is_identity _ = false

unfoldable pub blt_bits : BltInfo → BltInfo → List Rect → Memory → Memory
blt_bits dst src rs m =
    if dst.bits_per_pel == 32
      && src.bits_per_pel == 32
      && is_identity dst.rotation
      && is_identity src.rotation
    then copy_bits_32_32 dst src rs m
    else copy_bits_generic dst src rs m

-- The D3DDDIFORMAT values that the driver names, and any other.
pub data Format : Type 0 where
  unknown a1 p8 r5g6b5 r8g8b8 x8r8g8b8 a8r8g8b8 a8b8g8r8 x8b8g8r8 other_format : Format

unfoldable pub bpp_from_pixel_format : Format → ℕ
bpp_from_pixel_format unknown = 0
bpp_from_pixel_format a1 = 1
bpp_from_pixel_format p8 = 8
bpp_from_pixel_format r5g6b5 = 16
bpp_from_pixel_format r8g8b8 = 24
bpp_from_pixel_format x8r8g8b8 = 32
bpp_from_pixel_format a8r8g8b8 = 32
bpp_from_pixel_format _ = 0
