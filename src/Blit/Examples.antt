-- ===== src/Blit/Examples.antt =====
-- The theorems about viogpu/common/bitops.cpp at small surfaces.
use graphics_drivers_wip.Base.{◌+◌, ◌-◌, ◌*◌, ◌%◌, ◌^◌, ◌≤◌, ◌≡◌, [], ◌∷◌, inl, arith}
use graphics_drivers_wip.Blit.{BltInfo, Rect, Rotation, copy_bits_generic, blt_bits}
use graphics_drivers_wip.Blit.Geometry.{IsSurface, pixel_address, pixel_address_lem}
use graphics_drivers_wip.Blit.Equivalence.{IsWithin, blt_bits-eq-generic}

-- Two images of 4 by 3 pixels, and one rotated by 90 degrees.
abbrev screen : BltInfo
screen = record {
  bits = 0x1000;
  pitch = 16;
  bits_per_pel = 32;
  offset_x = 0;
  offset_y = 0;
  rotation = Rotation.identity;
  width = 4;
  height = 3;
}

abbrev picture : BltInfo
picture = record screen { bits = 0x2000; offset_x = 2 ^ 32 - 1 }

abbrev turned : BltInfo
turned = record screen { rotation = Rotation.rotate90 }

abbrev corner : Rect
corner = record { left = 1; top = 1; right = 3; bottom = 3 }

screen-IsSurface : IsSurface screen
screen-IsSurface = omega arith

picture-IsSurface : IsSurface picture
picture-IsSurface = omega arith

turned-IsSurface : IsSurface turned
turned-IsSurface = omega arith

-- The first pixel of the rectangle goes to column 1 of row 1.
pixel_address_example :
    (pixel_address turned corner 0 0 ≡ 0x1000 + 1 * 16 + 1 * 4)
    × (0x1000 ≤ pixel_address turned corner 0 0)
    × (pixel_address turned corner 0 0 + 4 ≤ 0x1000 + 3 * 16)
pixel_address_example = pixel_address_lem turned corner 0 0 turned-IsSurface (omega arith)

IsWithin-screen : IsWithin screen corner
IsWithin-screen = omega arith

IsWithin-picture : IsWithin picture corner
IsWithin-picture = omega arith

blt_bits_example :
    blt_bits screen picture (corner ∷ []) (λ a. a % 251)
    ≡ copy_bits_generic screen picture (corner ∷ []) (λ a. a % 251)
blt_bits_example =
    blt_bits-eq-generic screen picture (corner ∷ []) (λ a. a % 251) screen-IsSurface
      picture-IsSurface (inl (omega arith)) (IsWithin-screen, IsWithin-picture, tt)
