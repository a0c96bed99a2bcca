-- ===== src/Vbe.antt =====
-- GetModeList and SetVideoModeInfo of VgaDevice in viogpu/viogpudo/viogpudo.cpp: the modes that the video BIOS
-- lists. What the BIOS answers is given beforehand.
pub mod Count
pub mod Listing
pub mod Complete
mod Examples
use graphics_drivers_wip.Base.{
  ℕ, zero, suc, ◌+◌, ◌*◌, ◌/◌, ◌&&◌, ◌||◌, not, Bool, true, false, Option, none, some, List, [],
  ◌∷◌, leb, ◌==◌, if◌then◌else◌, u16, Outcome, done, out_of_fuel, bugcheck, ◌>>=◌, replicate,
}
use graphics_drivers_wip.Blit.{bpp_from_pixel_format}
use graphics_drivers_wip.Modes.{Modes, ModeInfo, zero_info, set_at, min_width_size, min_height_size}
use graphics_drivers_wip.Dod.{Status, success, unsuccessful, call_failed, no_memory}
use graphics_drivers_wip.Bdd.{DisplayInfo}

-- VBE_MODEINFO
pub record ModeBlock : Type 0 where
  pub x_resolution : ℕ
  pub y_resolution : ℕ
  pub lin_bytes_per_scan_line : ℕ
  pub number_of_planes : ℕ
  pub bits_per_pixel : ℕ
  pub phys_base_ptr : ℕ

-- The answers of the BIOS and of the two allocations; `segment` is that of the buffer, and each number of the list is read twice, once to
-- count the modes and once to list them; then the mode's block is asked for and read.
pub record VbeApi : Type 0 where
  pub allocate : Bool
  pub segment : ℕ
  pub write_signature : Bool
  pub info_call : Bool
  pub read_info : Bool
  pub is_vesa : Bool
  pub first_number : ℕ → Option ℕ
  pub new_infos : Bool
  pub new_numbers : Bool
  pub second_number : ℕ → Option ℕ
  pub mode_call : ℕ → Bool
  pub mode_block : ℕ → Bool × ModeBlock

abbrev pub vga_bpp : ℕ
vga_bpp = 32

-- What SetVideoModeInfo writes, if it does not divide by zero.
abbrev pub vbe_mode_info : ℕ → ModeBlock → ModeInfo
vbe_mode_info idx b = record {
  mode_index = idx;
  vis_screen_width = b.x_resolution;
  vis_screen_height = b.y_resolution;
  screen_stride = b.lin_bytes_per_scan_line;
  bits_per_plane =
      (if b.bits_per_pixel == 15 && b.number_of_planes == 1
        then 16
        else b.bits_per_pixel / b.number_of_planes);
  x_millimeter = b.x_resolution * 254 / 720;
  y_millimeter = b.y_resolution * 254 / 720;
}

abbrev pub set_vbe_mode_info : ℕ → ModeBlock → Outcome ModeInfo
set_vbe_mode_info idx b = if b.number_of_planes == 0 then bugcheck else done (vbe_mode_info idx b)

abbrev pub is_end : Option ℕ → Bool
is_end none = true
is_end (some m) = m == 0xFFFF || m == 0

-- The loop that counts the modes. The counter is a USHORT.
unfoldable pub count_modes : (ℕ → Option ℕ) → ℕ → ℕ → Outcome ℕ
count_modes read zero i = out_of_fuel
count_modes read (suc n) i =
    let rest = count_modes read n (u16 (i + 1)) in if is_end (read i) then done i else rest

abbrev pub is_listable : ℕ → ℕ → ℕ → ModeBlock → Bool
is_listable width height bits b =
    leb width b.x_resolution
    && leb height b.y_resolution
    && b.bits_per_pixel == bits
    && not (b.phys_base_ptr == 0)

-- How far the loop that lists the modes came: its status, whether it returned, SuitableModeCount.
pub record Listed : Type 0 where
  pub status : Status
  pub returned : Bool
  pub suitable : ℕ
  pub table : Modes

abbrev pub read_status : Bool → Status
read_status true = success
read_status false = call_failed

-- The loop with `n` modes left from CurrentMode on.
unfoldable pub list_vbe_modes : VbeApi → ℕ → ℕ → ℕ → ℕ → ℕ → Status → ℕ → Modes → Outcome Listed
unfolding set_at
list_vbe_modes v width height bits zero current st k t =
    done (record { status = st; returned = false; suitable = k; table = t })
list_vbe_modes v width height bits (suc n) current st k t =
    let (ok, b) = v.mode_block current in
    let skip = list_vbe_modes v width height bits n (suc current) (read_status ok) k t in
    let next = λ (t₁ : Modes).
      list_vbe_modes v width height bits n (suc current) (read_status ok) (suc k) t₁ in
    elim (v.second_number current) [
      | none ↦ done (record { status = call_failed; returned = false; suitable = k; table = t })
      | some number ↦
          if not (v.mode_call current)
          then done (record { status = unsuccessful; returned = true; suitable = k; table = t })
          else if is_listable width height bits b
          then (do
            numbers ← set_at t.mode_numbers k number
            info ← set_vbe_mode_info k b
            infos ← set_at t.mode_info k info
            next (record t {
              mode_numbers = numbers;
              mode_info = infos;
              current_mode =
                  (if b.x_resolution == min_width_size && b.y_resolution == min_height_size
                    then u16 k
                    else t.current_mode);
            }))
          else skip
    ]

-- What the device is left with: the status, whether the flag of IsHardwareInit was set, whether the
-- buffer of the BIOS is still allocated, and the table.
pub record VbeResult : Type 0 where
  pub status : Status
  pub hardware_init : Bool
  pub buffer_held : Bool
  pub table : Modes

-- RtlZeroMemory over the two new arrays.
abbrev pub zeroed_table : ℕ → Modes → Modes
zeroed_table count t = record t {
  mode_info = replicate count zero_info;
  mode_numbers = replicate count 0;
  current_mode = 0;
}

abbrev pub wanted_mode : DisplayInfo → ℕ × ℕ × ℕ
wanted_mode info =
    if info.width == 0
      || info.height == 0
      || not (bpp_from_pixel_format info.color_format == vga_bpp)
    then (min_width_size, min_height_size, vga_bpp)
    else (info.width, info.height, bpp_from_pixel_format info.color_format)

-- From the end of the listing loop on, with the segment of the buffer.
unfoldable pub finish_list : ℕ → Listed → VbeResult
finish_list segment l =
    if l.returned
    then record { status = l.status; hardware_init = true; buffer_held = true; table = l.table }
    else record {
      status = (if l.suitable == 0 then unsuccessful else l.status);
      hardware_init = true;
      buffer_held = segment == 0;
      table = record l.table { mode_count = l.suitable };
    }

-- An allocation failed: the old arrays are freed, and of the new ones only that of the infos may be
-- there.
abbrev pub out_of_memory : List ModeInfo → Modes → VbeResult
out_of_memory infos t = record {
  status = no_memory;
  hardware_init = true;
  buffer_held = true;
  table = record t { mode_info = infos; mode_numbers = [] };
}

-- From the allocations on.
unfoldable pub fill_table : VbeApi → DisplayInfo → ℕ → Modes → Outcome VbeResult
unfolding list_vbe_modes finish_list
fill_table v info count t =
    let (width, height, bits) = wanted_mode info in
    if not v.new_infos
    then done (out_of_memory [] t)
    else if not v.new_numbers
    then done (out_of_memory (replicate count zero_info) t)
    else (do
      l ← list_vbe_modes v width height bits count 0 success 0 (zeroed_table count t)
      done (finish_list v.segment l))

abbrev pub failed : Status → Bool → Modes → VbeResult
failed st held t = record { status = st; hardware_init = false; buffer_held = held; table = t }

-- GetModeList; the number of rounds bounds the loop that counts.
unfoldable pub get_vbe_mode_list : VbeApi → ℕ → DisplayInfo → Modes → Outcome VbeResult
unfolding count_modes fill_table
get_vbe_mode_list v rounds info t =
    if not v.allocate
    then done (failed call_failed false t)
    else if not v.write_signature
    then done (failed call_failed true t)
    else if not v.info_call
    then done (failed unsuccessful true t)
    else if not v.read_info
    then done (failed call_failed true t)
    else if not v.is_vesa
    then done (failed unsuccessful true t)
    else (do count ← count_modes v.first_number rounds 0; fill_table v info count t)
