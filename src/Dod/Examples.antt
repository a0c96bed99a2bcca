-- ===== src/Dod/Examples.antt =====
-- The theorems about VioGpuDod of viogpu/viogpudo/viogpudo.cpp on a path that is rotated by a quarter turn.
use graphics_drivers_wip.Base.{ℕ, suc, ◌≡◌, refl, Bool, true, false, some, [], ◌∷◌, done}
use graphics_drivers_wip.Blit.{a8r8g8b8, rotate90}
use graphics_drivers_wip.Dod.{
  Status, success, scaling_centered, cb_scrgb, PresentPath, SourceMode, is_color_basis_valid,
  is_argb, check_source_mode, check_path, View, update_active_path, is_sideways,
  system_display_enable, PowerState, d0, d3, PowerView,
}
use graphics_drivers_wip.Dod.Power.{run, twice, run-stays}

abbrev view : View
view = record {
  frame_ptr = 0x5000;
  fullscreen_present = false;
  rotation = rotate90;
  width = 1024;
  height = 768;
  color_format = a8r8g8b8;
}

shown : system_display_enable (view ∷ []) ≡ done (some (0, 768, 1024, a8r8g8b8))
unfolding system_display_enable
shown = refl

-- A device that counts how often it is set.
abbrev counter : PowerState → ℕ → Bool × ℕ
counter p n = (true, suc n)

abbrev on : PowerView ℕ
on = record { adapter = d0; device = 0; hidden = 0 }

set_twice : (run counter (d3 ∷ d0 ∷ []) on).device ≡ 4
unfolding run graphics_drivers_wip.Dod.set_power_state
set_twice = refl

run-stays_example :
    let t = run counter (d3 ∷ d0 ∷ []) on in
    (t.adapter ≡ d0) × (t.hidden ≡ 0) × (t.device ≡ twice counter (d3 ∷ d0 ∷ []) 0)
run-stays_example = run-stays counter (d3 ∷ d0 ∷ []) on refl
