-- ===== src/Idr.antt =====
-- viogpu/common/viogpu_idr.cpp: VioGpuIdr, which hands out the ids of host resources from a bitmap.
pub mod Laws
pub mod History
pub mod Samples
mod Examples
use graphics_drivers_wip.Base.{ℕ, ◌*◌, ◌-◌, ◌^◌, Bool, true, false, Option, none, some, page_size}

-- The RTL_BITMAP calls of the Windows kernel.
pub record BitMapApi : Type 1 where
  pub BitMap : Type 0
  -- RtlInitializeBitMap over a fresh buffer; it leaves the bits as the buffer has them.
  pub initialize : ℕ → BitMap
  pub clear_all : BitMap → BitMap
  pub set_bits : BitMap → ℕ → ℕ → BitMap
  pub find_clear_bits_and_set : BitMap → ℕ → ℕ → ℕ × BitMap
  pub are_bits_set : BitMap → ℕ → ℕ → Bool
  pub clear_bits : BitMap → ℕ → ℕ → BitMap

-- CHAR_BIT * PAGE_SIZE
abbrev pub bitmap_size : ℕ
bitmap_size = 8 * page_size

-- What RtlFindClearBitsAndSet returns when no run of clear bits is found.
abbrev pub no_bits : ℕ
no_bits = 2 ^ 32 - 1

module _ (api : BitMapApi) where
  open api use {
    BitMap, initialize, clear_all, set_bits, find_clear_bits_and_set, are_bits_set, clear_bits,
  }

  -- `bit_map` is `none` while m_IdBitMap.Buffer is NULL.
  pub record Idr : Type 0 where
    pub start_index : ℕ
    pub bit_map : Option BitMap

  pub construct : Idr
  construct = record { start_index = 0; bit_map = none }

  -- The first argument says whether `new` gave a buffer. The code does not check it: without a
  -- buffer RtlClearAllBits writes through a null pointer, which is `none` here.
  pub init : Bool → ℕ → Option (Bool × Idr)
  init true start = some (
    true,
    record {
      start_index = start;
      bit_map = some (set_bits (clear_all (initialize bitmap_size)) 0 start);
    },
  )
  init false start = none

  pub get_id : Idr → ℕ × Idr
  get_id idr = elim idr.bit_map [
    | none ↦ (0, idr)
    | some m ↦
        let (id, m') = find_clear_bits_and_set m 1 0 in (id, record idr { bit_map = some m' })
  ]

  -- The second component is the line logged when the bit was not set; it changes nothing.
  pub put_id : ℕ → Idr → Idr × Bool
  put_id id idr = elim idr.bit_map [
    | none ↦ (idr, false)
    | some m ↦ (record idr { bit_map = some (clear_bits m id 1) }, are_bits_set m id 1)
  ]

  -- The buffer, if there is one, is deleted.
  pub close : Idr → Idr
  close idr = record idr { start_index = 0; bit_map = none }
