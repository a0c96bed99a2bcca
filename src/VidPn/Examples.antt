-- ===== src/VidPn/Examples.antt =====
-- Runs of the modes and supports that VioGpuDod offers.
use graphics_drivers_wip.Base.{ℕ, ◌*◌, if◌then◌else◌, ◌≡◌, true, List, [], ◌∷◌, done, ◌==◌, arith}
use graphics_drivers_wip.Modes.{ModeInfo}
use graphics_drivers_wip.Dod.{Status, success}
use graphics_drivers_wip.VidPn.{added, already_in, ModeSet, ModeCall, add_source_modes}
use graphics_drivers_wip.VidPn.Offers.{IsSettled, sizes, missing, add_source_modes_lem}

abbrev mode : ℕ → ℕ → ModeInfo
mode w h = record {
  mode_index = 0;
  vis_screen_width = w;
  vis_screen_height = h;
  screen_stride = w * 4;
  bits_per_plane = 32;
  x_millimeter = 361;
  y_millimeter = 270;
}

abbrev two_modes : List ModeInfo
two_modes = mode 640 480 ∷ mode 1024 768 ∷ []

-- The set has the first mode already.
abbrev mode_set : ModeSet
mode_set = record {
  create = λ i. true;
  add = λ i. if i == 0 then already_in else added;
  release = λ i. true;
}

add_source_modes_example :
    (r : Status × List ModeCall) × (add_source_modes mode_set 2 0 two_modes ≡ done r)
    × IsSettled r.1
    × (r.0 ≡ success → sizes r.1 ≡ missing mode_set 2 0 two_modes)
add_source_modes_example = add_source_modes_lem mode_set 2 0 two_modes (omega arith)
