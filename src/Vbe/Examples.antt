-- ===== src/Vbe/Examples.antt =====
-- VgaDevice on a video BIOS that lists two modes, one of which is large enough.
use graphics_drivers_wip.Base.{
  Bool, false, ◌≢◌, ℕ, ◌≡◌, refl, true, some, Option, ◌==◌, if◌then◌else◌, done, [], arith,
}
use graphics_drivers_wip.Modes.{Modes}
use graphics_drivers_wip.Bdd.{zeroed_info}
use graphics_drivers_wip.Vbe.{ModeBlock, VbeApi, VbeResult, get_vbe_mode_list}
use graphics_drivers_wip.Vbe.Listing.{HasPlanes}
use graphics_drivers_wip.Vbe.Complete.{Usable, get_vbe_mode_list_lem}

abbrev block : ℕ → ℕ → ModeBlock
block w h = record {
  x_resolution = w;
  y_resolution = h;
  lin_bytes_per_scan_line = 4096;
  number_of_planes = 1;
  bits_per_pixel = 32;
  phys_base_ptr = 0xE0000000;
}

abbrev numbers : ℕ → Option ℕ
numbers i = if i == 0 then some 0x112 else if i == 1 then some 0x118 else some 0xFFFF

abbrev bios : VbeApi
bios = record {
  allocate = true;
  segment = 0x2000;
  write_signature = true;
  info_call = true;
  read_info = true;
  is_vesa = true;
  first_number = numbers;
  new_infos = true;
  new_numbers = true;
  second_number = numbers;
  mode_call = λ i. true;
  mode_block = λ i. (true, if i == 0 then block 640 480 else block 1024 768);
}

abbrev no_modes : Modes
no_modes = record {
  mode_info = [];
  mode_numbers = [];
  mode_count = 0;
  current_mode = 0;
  custom_mode = 0;
}

one_plane : (b : Bool) → (if b then block 640 480 else block 1024 768).number_of_planes ≢ 0
one_plane true = omega arith
one_plane false = omega arith

bios-HasPlanes : HasPlanes bios
bios-HasPlanes i = one_plane (i == 0)

get_vbe_mode_list_example :
    (r : VbeResult) × (get_vbe_mode_list bios 3 zeroed_info no_modes ≡ done r)
    × Usable 0x2000 zeroed_info r
get_vbe_mode_list_example =
    get_vbe_mode_list_lem bios 2 zeroed_info no_modes (omega arith) refl bios-HasPlanes
