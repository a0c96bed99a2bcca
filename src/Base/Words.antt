-- ===== src/Base/Words.antt =====
-- Machine words: a 32-bit or 64-bit value is the number of its bit pattern.
use Prim.Native.Nat.{ℕ, ◌+◌, ◌-◌, ◌%◌, ◌^◌}
use graphics_drivers_wip.Base.Tests.{ltb, if◌then◌else◌}

abbrev pub u8 : ℕ → ℕ
u8 n = n % 2 ^ 8

abbrev pub u16 : ℕ → ℕ
u16 n = n % 2 ^ 16

abbrev pub u32 : ℕ → ℕ
u32 n = n % 2 ^ 32

abbrev pub u64 : ℕ → ℕ
u64 n = n % 2 ^ 64

abbrev pub page_size : ℕ
page_size = 4096

-- a - b and -a on 32-bit words; both arguments lie below 2 ^ 32.
abbrev pub sub32 : ℕ → ℕ → ℕ
sub32 a b = (a + 2 ^ 32 - b) % 2 ^ 32

abbrev pub neg32 : ℕ → ℕ
neg32 a = (2 ^ 32 - a) % 2 ^ 32

-- A LONG added to a pointer is sign-extended to 64 bits.
abbrev pub sext32 : ℕ → ℕ
sext32 a = if ltb a (2 ^ 31) then a else a + 2 ^ 64 - 2 ^ 32

-- p + offset, for an offset that is a LONG and one that is a UINT.
abbrev pub add_long : ℕ → ℕ → ℕ
add_long p l = (p + sext32 l) % 2 ^ 64

abbrev pub add_uint : ℕ → ℕ → ℕ
add_uint p n = (p + n) % 2 ^ 64
