-- ===== src/Blit/Color.antt =====
-- The colour conversions of viogpu/common/bitops.cpp and its header: the mask tables and macros.
use graphics_drivers_wip.Base.{
  ℕ, zero, suc, ◌+◌, ◌-◌, ◌*◌, ◌/◌, ◌%◌, ◌^◌, ◌<◌, ◌≡◌, refl, Bool, true, bit_and, bit_or, arith,
  ◌==◌, ==_iff, if◌then◌else◌, false, Bool-cases, inl, inr, u8, u16,
}

-- The masks are rMaskTable[5], rMaskTable[4], lMaskTable[2] and lMaskTable[3].
unfoldable pub upper_6_bits : ℕ → ℕ
upper_6_bits c = bit_and c 0xfc / 2 ^ 2

unfoldable pub upper_5_bits : ℕ → ℕ
upper_5_bits c = bit_and c 0xf8 / 2 ^ 3

unfoldable pub lower_6_bits : ℕ → ℕ
lower_6_bits c = bit_and (u8 c) 0x3f

unfoldable pub lower_5_bits : ℕ → ℕ
lower_5_bits c = bit_and (u8 c) 0x1f

-- The bytes of the pixel, blue first; the result is stored as a UINT16.
unfoldable pub convert_32_to_16 : ℕ → ℕ → ℕ → ℕ
unfolding upper_5_bits upper_6_bits
convert_32_to_16 b g r =
    u16 (bit_or (bit_or (upper_5_bits r * 2 ^ (6 + 5)) (upper_6_bits g * 2 ^ 5)) (upper_5_bits b))

unfoldable pub convert_32_to_8 : ℕ → ℕ → ℕ → ℕ
convert_32_to_8 b g r = u8 (r / 43 * 36 + g / 43 * 6 + b / 43)

unfoldable pub convert_16_to_32 : ℕ → ℕ
unfolding lower_5_bits lower_6_bits
convert_16_to_32 p =
    bit_or
      (bit_or (lower_5_bits (p / 2 ^ (6 + 5)) * 2 ^ (8 * 2 + (8 - 5)))
        (lower_6_bits (p / 2 ^ 5) * 2 ^ (8 * 1 + (8 - 6))))
      (lower_5_bits p * 2 ^ (8 * 0 + (8 - 5)))

-- A test that every pixel value before `m` passes.
passes : (ℕ → Bool) → ℕ → Bool
passes test zero = true
passes test (suc m) = if test m then passes test m else false

passes-holds : (test : ℕ → Bool) (m k : ℕ) → passes test m ≡ true → k < m → test k ≡ true
unfolding passes
passes-holds test zero k e h = absurd (omega arith)
passes-holds test (suc m) k e h = elim (Bool-cases (test m)) [
  | inl here ↦ ground (arith, passes-holds test m k)
  | inr fails ↦ ground arith
]

-- A pixel of 16 bits, widened to 32 bits and narrowed again, byte by byte.
abbrev pub through_32 : ℕ → ℕ
through_32 p =
    let w = convert_16_to_32 p in convert_32_to_16 (u8 w) (u8 (w / 2 ^ 8)) (u8 (w / 2 ^ 16))

through_32_table : passes (λ p. through_32 p == p) (2 ^ 16) ≡ true
unfolding passes convert_16_to_32 convert_32_to_16
through_32_table = refl

-- Widening a 16-bit pixel to 32 bits loses nothing: narrowing gives it back.
through_32_lem : (p : ℕ) → p < 2 ^ 16 → through_32 p ≡ p
through_32_lem p h =
    (==_iff _ p).0 (passes-holds (λ q. through_32 q == q) (2 ^ 16) p through_32_table h)

-- The byte stored for 8 bits per pixel is the index of a level (r, g, b) in the palette of six
-- levels for each channel: no wrap, the index below 216, and the levels can be read off it.
convert_32_to_8_levels :
    (b g r : ℕ)
    → b < 256
    → g < 256
    → r < 256
    → (convert_32_to_8 b g r < 216)
      × (convert_32_to_8 b g r / 36 ≡ r / 43)
      × (convert_32_to_8 b g r / 6 % 6 ≡ g / 43)
      × (convert_32_to_8 b g r % 6 ≡ b / 43)
unfolding convert_32_to_8
convert_32_to_8_levels b g r hb hg hr = omega arith
