-- ===== src/Dod.antt =====
-- viogpu/viogpudo/viogpudo.cpp: the parts of VioGpuDod that check a present path and a source mode, change
-- the active path, find the screen for a bugcheck, and change the power state.
pub mod Path
pub mod Power
mod Examples
use graphics_drivers_wip.Base.{
  ℕ, zero, suc, ◌&&◌, ◌||◌, not, Bool, true, false, Option, none, some, List, [], ◌∷◌, ltb, ◌==◌,
  if◌then◌else◌, get_elem?, set, Outcome, done, overrun, ◌>>=◌,
}
use graphics_drivers_wip.Blit.{
  Rotation, uninitialized, identity, rotate90, rotate270, not_specified, Format, a8r8g8b8,
}
use graphics_drivers_wip.Modes.{get_at, set_at}

pub data Status : Type 0 where
  success : Status
  unsuccessful : Status
  invalid_video_present_source : Status
  invalid_video_present_target : Status
  gamma_ramp_not_supported : Status
  vidpn_modality_not_supported : Status
  invalid_video_present_source_mode : Status
  -- The failure that a call of the kernel or of the device returned.
  call_failed : Status
  insufficient_resources : Status
  no_memory : Status
  invalid_parameter : Status
  not_supported : Status

-- MAX_VIEWS and MAX_CHILDREN
abbrev pub max_views : ℕ
max_views = 1

abbrev pub max_children : ℕ
max_children = 1

pub data Scaling : Type 0 where
  scaling_uninitialized scaling_identity scaling_centered scaling_stretched : Scaling
  scaling_aspect_ratio scaling_custom scaling_not_specified : Scaling

pub data ColorBasis : Type 0 where
  cb_uninitialized cb_intensity cb_srgb cb_scrgb cb_ycbcr cb_ypbpr : ColorBasis

pub record PresentPath : Type 0 where
  pub source_id : ℕ
  pub target_id : ℕ
  pub is_default_gamma : Bool
  pub scaling : Scaling
  pub rotation : Rotation
  pub target_color_basis : ColorBasis

pub record SourceMode : Type 0 where
  pub is_graphics : Bool
  pub color_basis : ColorBasis
  pub is_direct : Bool
  pub pixel_format : Format

-- The tests of the code, each on a field.
unfoldable pub is_scaling_valid : Scaling → Bool
is_scaling_valid scaling_identity = true
is_scaling_valid scaling_centered = true
is_scaling_valid scaling_not_specified = true
is_scaling_valid scaling_uninitialized = true
is_scaling_valid _ = false

unfoldable pub is_rotation_valid : Rotation → Bool
is_rotation_valid identity = true
is_rotation_valid rotate90 = true
is_rotation_valid not_specified = true
is_rotation_valid uninitialized = true
is_rotation_valid _ = false

unfoldable pub is_color_basis_valid : ColorBasis → Bool
is_color_basis_valid cb_scrgb = true
is_color_basis_valid cb_uninitialized = true
is_color_basis_valid _ = false

abbrev pub is_argb : Format → Bool
is_argb a8r8g8b8 = true
is_argb _ = false

-- IsVidPnPathFieldsValid
unfoldable pub check_path : PresentPath → Status
check_path p =
    if not (ltb p.source_id max_views)
    then invalid_video_present_source
    else if not (ltb p.target_id max_children)
    then invalid_video_present_target
    else if not p.is_default_gamma
    then gamma_ramp_not_supported
    else if not (is_scaling_valid p.scaling)
    then vidpn_modality_not_supported
    else if not (is_rotation_valid p.rotation)
    then vidpn_modality_not_supported
    else if not (is_color_basis_valid p.target_color_basis)
    then invalid_video_present_source_mode
    else success

-- IsVidPnSourceModeFieldsValid
unfoldable pub check_source_mode : SourceMode → Status
check_source_mode m =
    if not m.is_graphics
    then invalid_video_present_source_mode
    else if not (is_color_basis_valid m.color_basis)
    then invalid_video_present_source_mode
    else if not m.is_direct
    then invalid_video_present_source_mode
    else if is_argb m.pixel_format
    then success
    else invalid_video_present_source_mode

abbrev pub is_success : Status → Bool
is_success success = true
is_success _ = false

-- What m_CurrentModes keeps of a source.
pub record View : Type 0 where
  pub frame_ptr : ℕ
  pub fullscreen_present : Bool
  pub rotation : Rotation
  pub width : ℕ
  pub height : ℕ
  pub color_format : Format

-- UpdateActiveVidPnPresentPath; a source behind the end of m_CurrentModes would be an overrun.
unfoldable pub update_active_path : PresentPath → List View → Outcome (Status × List View)
unfolding check_path get_at set_at
update_active_path p views =
    let status = check_path p in
    if not (is_success status) then done (status, views) else (do
      v ← get_at views p.source_id
      views₁ ←
          set_at views p.source_id (record v { fullscreen_present = true; rotation = p.rotation })
      done (success, views₁))

-- The first source with a mapped frame buffer, from index `i` on.
unfoldable pub find_mapped : List View → ℕ → Option ℕ
find_mapped [] i = none
find_mapped (v ∷ vs) i =
    let rest = find_mapped vs (suc i) in if not (v.frame_ptr == 0) then some i else rest

-- FindSourceForTarget; `none` is D3DDDI_ID_UNINITIALIZED.
unfoldable pub find_source_for_target : Bool → List View → Option ℕ
unfolding find_mapped
find_source_for_target default_to_zero views = elim (find_mapped views 0) [
  | some i ↦ some i
  | none ↦ if default_to_zero then some 0 else none
]

abbrev pub is_sideways : Rotation → Bool
is_sideways rotate90 = true
is_sideways rotate270 = true
is_sideways _ = false

-- SystemDisplayEnable, which looks for a mapped frame buffer whatever the target: the source that it
-- records, and the width, the height and the format, or `none` for STATUS_UNSUCCESSFUL.
unfoldable pub system_display_enable : List View → Outcome (Option (ℕ × ℕ × ℕ × Format))
unfolding find_source_for_target get_at
system_display_enable views = elim (find_source_for_target false views) [
  | none ↦ done none
  | some i ↦ (do
    v ← get_at views i
    done (
        some (
          i,
          if is_sideways v.rotation then v.height else v.width,
          if is_sideways v.rotation then v.width else v.height,
          v.color_format,
        )))
]

pub data PowerState : Type 0 where
  unspecified d0 d1 d2 d3 : PowerState

abbrev pub is_d0 : PowerState → Bool
is_d0 d0 = true
is_d0 _ = false

abbrev pub is_d3 : PowerState → Bool
is_d3 d3 = true
is_d3 _ = false

-- The adapter's recorded state, the device, and how often the sources were made invisible.
pub record PowerView (Device : Type 0) : Type 0 where
  pub adapter : PowerState
  pub device : Device
  pub hidden : ℕ

-- VioGpuDod::SetPowerState on the adapter, where `set_device` is the method of the device.
unfoldable pub set_power_state :
    {Device : Type 0}
    → (PowerState → Device → Bool × Device)
    → PowerState
    → PowerView Device
    → Bool × PowerView Device
set_power_state set_device p v =
    let (ok, dev) = set_device p v.device in
    let (ok₂, dev₂) = set_device p dev in
    (
      ok₂,
      record {
        adapter = (if ok && is_d0 p then p else v.adapter);
        device = dev₂;
        hidden = (if ok && is_d0 p && is_d3 v.adapter then suc v.hidden else v.hidden);
      },
    )
