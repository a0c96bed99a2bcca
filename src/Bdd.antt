-- ===== src/Bdd.antt =====
-- CURRENT_BDD_MODE of viogpu/viogpudo/viogpudo.h, with the fields of DXGK_DISPLAY_INFORMATION that the driver
-- uses (the ACPI id and the flag IsInternal are never read), and HwDeviceInterface.
use graphics_drivers_wip.Base.{ℕ, Bool, false, Outcome}
use graphics_drivers_wip.Modes.{Modes}
use graphics_drivers_wip.Blit.{Rotation, uninitialized, Format, unknown}
use graphics_drivers_wip.Dod.{Scaling, scaling_uninitialized}

pub record DisplayInfo : Type 0 where
  pub width : ℕ
  pub height : ℕ
  pub pitch : ℕ
  pub color_format : Format
  pub physic_address : ℕ
  pub target_id : ℕ

pub record BddMode : Type 0 where
  pub disp_info : DisplayInfo
  pub rotation : Rotation
  pub scaling : Scaling
  pub src_mode_width : ℕ
  pub src_mode_height : ℕ
  pub source_not_visible : Bool
  pub fullscreen_present : Bool
  pub frame_buffer_is_active : Bool
  pub do_not_map_or_unmap : Bool
  pub zeroed_out_start : ℕ
  pub zeroed_out_end : ℕ
  pub frame_ptr : ℕ

-- RtlZeroMemory of one entry of m_CurrentModes.
abbrev pub zeroed_info : DisplayInfo
zeroed_info = record {
  width = 0;
  height = 0;
  pitch = 0;
  color_format = unknown;
  physic_address = 0;
  target_id = 0;
}

abbrev pub zeroed_mode : BddMode
zeroed_mode = record {
  disp_info = zeroed_info;
  rotation = uninitialized;
  scaling = scaling_uninitialized;
  src_mode_width = 0;
  src_mode_height = 0;
  source_not_visible = false;
  fullscreen_present = false;
  frame_buffer_is_active = false;
  do_not_map_or_unmap = false;
  zeroed_out_start = 0;
  zeroed_out_end = 0;
  frame_ptr = 0;
}

-- The methods of HwDeviceInterface by which a source mode is set, over the state `Own` that a device
-- keeps besides its table of modes. The Boolean is true for a success.
pub record HwDeviceApi : Type 1 where
  pub Own : Type 0
  pub set_current_mode : ℕ → Modes → BddMode → Own → Outcome (Bool × BddMode × Own)
  pub acquire_frame_buffer : BddMode → Own → Bool × BddMode × Own
  pub release_frame_buffer : BddMode → Own → Bool × BddMode × Own
