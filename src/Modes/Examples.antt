-- ===== src/Modes/Examples.antt =====
-- The theorems about the mode list of viogpu/viogpudo/viogpudo.cpp for a display of 1280 x 1024.
use graphics_drivers_wip.Base.{
  ℕ, zero, suc, ◌-◌, ◌<◌, ◌≡◌, ◌≢◌, ◌↔◌, inr, refl, true, some, List, [], ◌∷◌, get_elem?, done,
  arith,
}
use graphics_drivers_wip.Blit.{Format, x8r8g8b8}
use graphics_drivers_wip.Modes.{
  ModeInfo, Modes, Scanout, get_mode_list, set_custom_display, video_mode_info, wanted, Status,
  status_success,
}
use graphics_drivers_wip.Modes.Table.{IsTable, custom_display, set_custom_display_lem}
use graphics_drivers_wip.Modes.Listing.{AllListed}
use graphics_drivers_wip.Modes.Start.{get_mode_list_lem}

abbrev blank : Modes
blank = record {
  mode_info = [];
  mode_numbers = [];
  mode_count = 0;
  current_mode = 0;
  custom_mode = 0;
}

abbrev screens : List Scanout
screens = record { enabled = true; width = 1600; height = 900 } ∷ []

-- Three of the four modes are listed, and the last of the custom modes is that of the display.
widths :
    (t : Modes) × (get_mode_list true true 1280 1024 x8r8g8b8 (some (true, screens)) 1 blank
      ≡ done (status_success, t))
    × (t.mode_count ≡ 5)
    × (t.custom_mode ≡ 4)
unfolding get_mode_list graphics_drivers_wip.Blit.bpp_from_pixel_format
widths = (_, refl, refl, refl)

get_mode_list_example :
    let (w, h) = wanted 1280 1024 x8r8g8b8 in
    (status : Status) × (t : Modes) × (get_mode_list true true 1280 1024 x8r8g8b8
        (some (true, screens))
        1
        blank
      ≡ done (status, t))
    × IsTable t
    × AllListed w h (t.mode_count - 2) t.mode_info
    × ((status ≡ status_success) ↔ (2 < t.mode_count))
get_mode_list_example = get_mode_list_lem 1280 1024 x8r8g8b8 true screens 1 blank (omega arith)

abbrev info : ModeInfo
info = record {
  mode_index = 0;
  vis_screen_width = 0;
  vis_screen_height = 0;
  screen_stride = 0;
  bits_per_plane = 0;
  x_millimeter = 0;
  y_millimeter = 0;
}

abbrev bare : Modes
bare = record {
  mode_info = info ∷ info ∷ info ∷ info ∷ info ∷ info ∷ [];
  mode_numbers = 0 ∷ 1 ∷ 0 ∷ 0 ∷ 0 ∷ 0 ∷ [];
  mode_count = 2;
  current_mode = 0;
  custom_mode = 0;
}

two_numbers : (i : ℕ) → i < 2 → get_elem? bare.mode_numbers i ≡ some i
two_numbers zero h = refl
two_numbers (suc zero) h = refl
two_numbers (suc (suc i)) h = absurd (omega arith)

bare-IsTable : IsTable bare
bare-IsTable = record {
  infos = refl;
  numbers = refl;
  least = omega arith;
  most = omega arith;
  custom = inr refl;
  numbered = two_numbers;
}

set_custom_display_example :
    (t : Modes) × (set_custom_display 1600 600 bare ≡ done t)
    × IsTable t
    × (t.mode_count ≡ bare.mode_count)
    × (t.custom_mode ≢ bare.custom_mode)
    × (get_elem? t.mode_info t.custom_mode
        ≡ some (video_mode_info t.custom_mode (custom_display 1600 600)))
    × ((j : ℕ) → j ≢ t.custom_mode → get_elem? t.mode_info j ≡ get_elem? bare.mode_info j)
set_custom_display_example = set_custom_display_lem 1600 600 bare bare-IsTable
