-- ===== src/Modes.antt =====
-- The video modes of GpuDevice in viogpu/viogpudo/viogpudo.cpp: GetModeList, GetDisplayInfo,
-- SetCustomDisplay and SetVideoModeInfo. A write past the end of an array is an overrun.
pub mod Table
pub mod Listing
pub mod Start
mod Examples
use graphics_drivers_wip.Base.{
  ℕ, zero, suc, ◌+◌, ◌-◌, ◌*◌, ◌/◌, ◌&&◌, not, Bool, true, false, Option, none, some, List, [], ◌∷◌,
  ltb, leb, ◌==◌, if◌then◌else◌, u16, u32, sub32, length, get_elem?, set, Outcome, done,
  null_pointer, overrun, ◌>>=◌,
}
use graphics_drivers_wip.Blit.{Format, bpp_from_pixel_format}

abbrev pub vgpu_bpp : ℕ
vgpu_bpp = 32

abbrev pub min_width_size : ℕ
min_width_size = 1024

abbrev pub min_height_size : ℕ
min_height_size = 768

pub record DispMode : Type 0 where
  pub x_resolution : ℕ
  pub y_resolution : ℕ
  pub bits : ℕ

abbrev pub gpu_disp_modes : List DispMode
gpu_disp_modes =
    record { x_resolution = 1024; y_resolution = 768; bits = vgpu_bpp }
    ∷ record { x_resolution = 1280; y_resolution = 1024; bits = vgpu_bpp }
    ∷ record { x_resolution = 1920; y_resolution = 1080; bits = vgpu_bpp }
    ∷ record { x_resolution = 2560; y_resolution = 1600; bits = vgpu_bpp }
    ∷ []

-- VIDEO_MODE_INFORMATION, with the fields that differ between modes; the others are constants.
pub record ModeInfo : Type 0 where
  pub mode_index : ℕ
  pub vis_screen_width : ℕ
  pub vis_screen_height : ℕ
  pub screen_stride : ℕ
  pub bits_per_plane : ℕ
  pub x_millimeter : ℕ
  pub y_millimeter : ℕ

abbrev pub zero_info : ModeInfo
zero_info = record {
  mode_index = 0;
  vis_screen_width = 0;
  vis_screen_height = 0;
  screen_stride = 0;
  bits_per_plane = 0;
  x_millimeter = 0;
  y_millimeter = 0;
}

pub record Modes : Type 0 where
  pub mode_info : List ModeInfo
  pub mode_numbers : List ℕ
  pub mode_count : ℕ
  pub current_mode : ℕ
  pub custom_mode : ℕ

unfoldable pub set_at {ℓ} : {A : Type ℓ} → List A → ℕ → A → Outcome (List A)
set_at xs i v = if ltb i (length xs) then done (set xs i v) else overrun

unfoldable pub get_at {ℓ} : {A : Type ℓ} → List A → ℕ → Outcome A
get_at xs i = elim (get_elem? xs i) [ none ↦ overrun | some v ↦ done v ]

-- What SetVideoModeInfo writes. The resolutions are USHORTs, the stride a multiple of 4.
unfoldable pub video_mode_info : ℕ → DispMode → ModeInfo
video_mode_info idx m =
    let bytes_pp = (vgpu_bpp + 7) / 8 in
    record {
      mode_index = idx;
      vis_screen_width = m.x_resolution;
      vis_screen_height = m.y_resolution;
      screen_stride = (m.x_resolution * bytes_pp + 3) / 4 * 4;
      bits_per_plane = vgpu_bpp;
      x_millimeter = m.x_resolution * 254 / 720;
      y_millimeter = m.y_resolution * 254 / 720;
    }

unfoldable pub set_video_mode_info : ℕ → DispMode → Modes → Outcome Modes
unfolding set_at video_mode_info
set_video_mode_info idx m s = do
  infos ← set_at s.mode_info idx (video_mode_info idx m)
  done (record s { mode_info = infos })

abbrev pub max : ℕ → ℕ → ℕ
max a b = if ltb b a then a else b

unfoldable pub set_custom_display : ℕ → ℕ → Modes → Outcome Modes
unfolding set_video_mode_info
set_custom_display xres yres s =
    let last = sub32 s.mode_count 1 in
    let custom = u16 (if s.custom_mode == last then sub32 s.mode_count 2 else last) in
    set_video_mode_info custom
      (record {
        x_resolution = max min_width_size xres;
        y_resolution = max min_height_size yres;
        bits = vgpu_bpp;
      })
      (record s { custom_mode = custom })

-- One of the 16 entries of a GPU_RESP_DISP_INFO.
pub record Scanout : Type 0 where
  pub enabled : Bool
  pub width : ℕ
  pub height : ℕ

-- CtrlQueue::GetDisplayInfo: the resolution, changed if the scanout is enabled. `ok` says whether
-- the response has the type VIRTIO_GPU_RESP_OK_DISPLAY_INFO.
unfoldable pub get_display_mode : Bool → List Scanout → ℕ → ℕ × ℕ → Outcome (ℕ × ℕ)
unfolding get_at
get_display_mode false pmodes id res = done res
get_display_mode true pmodes id res = do
  m ← get_at pmodes id
  done (if m.enabled then (m.width, m.height) else res)

-- The loop over the scanouts, from `i` on.
unfoldable pub read_modes : Bool → List Scanout → ℕ → ℕ → ℕ × ℕ → Outcome (ℕ × ℕ)
unfolding get_display_mode
read_modes ok pmodes zero i res = done res
read_modes ok pmodes (suc n) i res = do
  r ← get_display_mode ok pmodes i res
  read_modes ok pmodes n (i + 1) r

-- GpuDevice::GetDisplayInfo on what AskDisplayInfo gives: a buffer with the response, or none, in
-- which case the code reads through a null pointer.
unfoldable pub get_display_info : Option (Bool × List Scanout) → ℕ → Modes → Outcome Modes
unfolding read_modes set_custom_display
get_display_info none num_scanouts s = null_pointer
get_display_info (some (ok, pmodes)) num_scanouts s = do
  (xres, yres) ← read_modes ok pmodes num_scanouts 0 (0, 0)
  if not (xres == 0) && not (yres == 0) then set_custom_display (u16 xres) (u16 yres) s else done s

abbrev pub is_suitable : ℕ → ℕ → DispMode → Bool
is_suitable width height m =
    leb width m.x_resolution && leb height m.y_resolution && m.bits == vgpu_bpp

-- The first loop of GetModeList, with SuitableModeCount.
unfoldable pub list_modes : ℕ → ℕ → List DispMode → ℕ → Modes → Outcome (ℕ × Modes)
unfolding set_at video_mode_info
list_modes width height [] n s = done (n, s)
list_modes width height (m ∷ ms) n s =
    let next = λ (s₁ : Modes). list_modes width height ms (n + 1) s₁ in
    let skip = list_modes width height ms n s in
    if is_suitable width height m
    then (do
      numbers ← set_at s.mode_numbers n n
      infos ← set_at s.mode_info n (video_mode_info n m)
      next (record s {
        mode_numbers = numbers;
        mode_info = infos;
        current_mode =
            (if m.x_resolution == min_width_size && m.y_resolution == min_height_size
              then n
              else s.current_mode);
      }))
    else skip

-- The second loop, which makes the two custom modes copies of the current one.
unfoldable pub copy_mode : ℕ → Modes → Outcome Modes
unfolding set_at get_at
copy_mode i s = do
  numbers ← set_at s.mode_numbers i i
  info ← get_at s.mode_info s.current_mode
  infos ← set_at s.mode_info i info
  done (record s { mode_numbers = numbers; mode_info = infos })

pub data Status : Type 0 where
  status_success : Status
  status_no_memory : Status
  status_unsuccessful : Status

-- RtlZeroMemory over the two arrays of ModeCount elements.
abbrev pub cleared : Modes → Modes
cleared s = record s {
  mode_info = zero_info ∷ zero_info ∷ zero_info ∷ zero_info ∷ zero_info ∷ zero_info ∷ [];
  mode_numbers = 0 ∷ 0 ∷ 0 ∷ 0 ∷ 0 ∷ 0 ∷ [];
  current_mode = 0;
}

-- The mode list before the display information is read.
unfoldable pub make_modes : ℕ → ℕ → Modes → Outcome (Status × Modes)
unfolding list_modes copy_mode
make_modes width height s = do
  (n, s₁) ← list_modes width height gpu_disp_modes 0 (cleared s)
  s₂ ← copy_mode n (record s₁ { custom_mode = n })
  s₃ ← copy_mode (n + 1) s₂
  done (if n == 0 then status_unsuccessful else status_success, record s₃ { mode_count = n + 2 })

abbrev pub wanted : ℕ → ℕ → Format → ℕ × ℕ
wanted width height format =
    if not (width == 0) && not (height == 0) && bpp_from_pixel_format format == vgpu_bpp
    then (width, height)
    else (min_width_size, min_height_size)

-- The first two arguments say whether the arrays were allocated.
unfoldable pub get_mode_list :
    Bool
    → Bool
    → ℕ
    → ℕ
    → Format
    → Option (Bool × List Scanout)
    → ℕ
    → Modes
    → Outcome (Status × Modes)
unfolding make_modes get_display_info
get_mode_list infos numbers width height format reply num_scanouts s =
    let (w, h) = wanted width height format in
    if not infos
    then done (status_no_memory, record s { mode_info = []; mode_numbers = [] })
    else if not numbers
    then done (status_no_memory, record s { mode_info = (cleared s).mode_info; mode_numbers = [] })
    else (do
      (status, s₁) ← make_modes w h s
      s₂ ← get_display_info reply num_scanouts s₁
      done (status, s₂))
