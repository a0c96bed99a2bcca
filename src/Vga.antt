-- ===== src/Vga.antt =====
-- The frame buffer of VgaDevice in viogpu/viogpudo/viogpudo.cpp, with MapFrameBuffer and UnmapFrameBuffer. The
-- kernel keeps the list of its mappings, each with its address and its length.
pub mod Mapped
mod Examples
use graphics_drivers_wip.Base.{
  ℕ, zero, suc, ◌*◌, ◌&&◌, ◌||◌, Bool, true, false, List, [], ◌∷◌, ◌==◌, if◌then◌else◌, u32,
  Outcome, done,
}
use graphics_drivers_wip.Dod.{PowerState, unspecified, d0, d1, d2, d3}
use graphics_drivers_wip.Bdd.{BddMode, HwDeviceApi}

-- MmMapIoSpace: the address for a physical address, a length and a caching (write combined or not
-- cached), or 0. And the call of the video BIOS that sets a mode or a power state, by its EAX and EBX.
pub record KernelApi : Type 0 where
  pub map_io_space : ℕ → ℕ → Bool → List (ℕ × ℕ) → ℕ
  pub bios_call : ℕ → ℕ → List (ℕ × ℕ) → Bool

-- What the kernel has mapped, the unmappings of what was not mapped, and the calls of the BIOS.
pub record Mappings : Type 0 where
  pub mapped : List (ℕ × ℕ)
  pub stray : List (ℕ × ℕ)
  pub bios : List (ℕ × ℕ)

abbrev pub not_null : ℕ → Bool
not_null zero = false
not_null (suc a) = true

abbrev pub is_mapped : ℕ → ℕ → List (ℕ × ℕ) → Bool
is_mapped a n [] = false
is_mapped a n ((b, k) ∷ l) = (a == b && n == k) || is_mapped a n l

abbrev pub unmapped : ℕ → ℕ → List (ℕ × ℕ) → List (ℕ × ℕ)
unmapped a n [] = []
unmapped a n ((b, k) ∷ l) = if a == b && n == k then l else (b, k) ∷ unmapped a n l

-- MmUnmapIoSpace
abbrev pub unmap_io_space : ℕ → ℕ → Mappings → Mappings
unmap_io_space a n s =
    if is_mapped a n s.mapped
    then record s { mapped = unmapped a n s.mapped }
    else record s { stray = (a, n) ∷ s.stray }

abbrev pub with_mapping : ℕ → ℕ → Mappings → Mappings
with_mapping a n s = record s { mapped = (a, n) ∷ s.mapped }

-- UnmapFrameBuffer
unfoldable pub unmap_frame_buffer : ℕ → ℕ → Mappings → Bool × Mappings
unmap_frame_buffer a n s =
    if a == 0 && n == 0
    then (true, s)
    else if a == 0 || n == 0
    then (false, s)
    else (true, unmap_io_space a n s)

-- VgaDevice::ReleaseFrameBuffer
unfoldable pub release_frame_buffer : BddMode → Mappings → Bool × BddMode × Mappings
unfolding unmap_frame_buffer
release_frame_buffer cur s =
    let (ok, t) =
      unmap_frame_buffer cur.frame_ptr (u32 (cur.disp_info.height * cur.disp_info.pitch)) s in
    (ok, record cur { frame_ptr = 0; frame_buffer_is_active = false }, t)

module _ (kernel : KernelApi) where
  open kernel use {map_io_space, bios_call}

  -- MapFrameBuffer, with the pointer that it leaves in its argument `ptr`.
  unfoldable pub map_frame_buffer : ℕ → ℕ → ℕ → Mappings → Bool × ℕ × Mappings
  map_frame_buffer physical n ptr s =
      if physical == 0 || n == 0
      then (false, ptr, s)
      else (let a = map_io_space physical n true s.mapped in
          let b = map_io_space physical n false s.mapped in
          if not_null a
          then (true, a, with_mapping a n s)
          else if not_null b
          then (true, b, with_mapping b n s)
          else (false, 0, s))

  -- VgaDevice::AcquireFrameBuffer
  unfoldable pub acquire_frame_buffer : BddMode → Mappings → Bool × BddMode × Mappings
  unfolding map_frame_buffer
  acquire_frame_buffer cur s =
      if cur.do_not_map_or_unmap
      then (false, cur, s)
      else (let (ok, ptr, t) =
            map_frame_buffer cur.disp_info.physic_address
              (u32 (cur.disp_info.pitch * cur.disp_info.height)) cur.frame_ptr s in
          (
            ok,
            record cur {
              frame_ptr = ptr;
              frame_buffer_is_active = (if ok then true else cur.frame_buffer_is_active);
            },
            t,
          ))

  -- VgaDevice::SetCurrentMode
  unfoldable pub set_vga_mode : ℕ → BddMode → Mappings → Outcome (Bool × BddMode × Mappings)
  set_vga_mode mode cur s =
      done (bios_call 0x4F02 mode s.bios, cur, record s { bios = (0x4F02, mode) ∷ s.bios })

  -- VgaDevice::SetPowerState: the call of the BIOS by the state.
  abbrev pub power_ebx : PowerState → ℕ
  power_ebx unspecified = 0x1
  power_ebx d0 = 0x1
  power_ebx d1 = 0x400
  power_ebx d2 = 0x400
  power_ebx d3 = 0x400

  unfoldable pub vga_set_power_state : PowerState → Mappings → Bool × Mappings
  vga_set_power_state p s =
      (bios_call 0x4F10 (power_ebx p) s.bios, record s { bios = (0x4F10, power_ebx p) ∷ s.bios })

  abbrev pub vga_device : HwDeviceApi
  vga_device = record {
    Own = Mappings;
    set_current_mode = λ mode table cur s. set_vga_mode mode cur s;
    acquire_frame_buffer = acquire_frame_buffer;
    release_frame_buffer = release_frame_buffer;
  }
