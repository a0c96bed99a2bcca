-- ===== src/Driver.antt =====
-- The life of VioGpuDod of viogpu/viogpudo/viogpudo.cpp: StartDevice with CheckHardware, RegisterHWInfo and the
-- HWInit of the two devices, StopDevice, StopDeviceAndReleasePostDisplayOwnership and CleanUp.
pub mod Registry
pub mod Written
pub mod Start
pub mod Ddi
pub mod Reach
pub mod Calls
pub mod Remove
mod Examples
use graphics_drivers_wip.Base.{
  ℕ, zero, suc, ◌+◌, ◌*◌, ◌/◌, ◌&&◌, ◌||◌, not, Bool, true, false, Option, none, some, List, [],
  ◌∷◌, ltb, ◌==◌, if◌then◌else◌, Outcome, done, null_pointer, ◌>>=◌,
}
use graphics_drivers_wip.Blit.{a8r8g8b8, bpp_from_pixel_format}
use graphics_drivers_wip.Modes.{Modes, max, min_width_size, min_height_size}
use graphics_drivers_wip.Dod.{
  Status, success, unsuccessful, call_failed, no_memory, is_success, max_views, max_children,
}
use graphics_drivers_wip.Bdd.{DisplayInfo, zeroed_info, BddMode, zeroed_mode}
use graphics_drivers_wip.Hardware.{Answers, Hardware, hw_init}
use graphics_drivers_wip.Vbe.{VbeApi, VbeResult, get_vbe_mode_list}
use graphics_drivers_wip.Driver.Registry.{RegistryApi, register_hw_info}

pub data DeviceKind : Type 0 where
  gpu_device vga_device : DeviceKind

-- VioGpuDod, with the state of its device. Its flag of IsHardwareInit is the field of `hardware`.
-- `abandoned` counts the devices that were overwritten, and are never deleted.
pub record Driver : Type 0 where
  pub device : Option DeviceKind
  pub abandoned : ℕ
  pub started : Bool
  pub hardware : Hardware
  pub vga_modes : Modes
  pub mode : BddMode
  pub initial_info : DisplayInfo

-- What the kernel answers in one StartDevice: the device's information, the vendor and the device id of
-- the PCI header, the memory for the device, the answers to its HWInit, those to RegisterHWInfo, and
-- the display of which the driver takes over.
pub record StartApi : Type 0 where
  pub device_information : Bool
  pub pci_ids : Option (ℕ × ℕ)
  pub allocated : Bool
  pub gpu : Answers
  pub vbe : VbeApi
  pub vbe_rounds : ℕ
  pub registry : RegistryApi
  pub post_display : Option DisplayInfo

-- CheckHardware
unfoldable pub check_hardware : Option (ℕ × ℕ) → Bool
check_hardware none = false
check_hardware (some (vendor, device)) = vendor == 0x1AF4 && device == 0x1050

abbrev pub kind_of : Bool → DeviceKind
kind_of true = gpu_device
kind_of false = vga_device

abbrev pub has : Option DeviceKind → ℕ
has none = 0
has (some k) = 1

-- What the mode list of VgaDevice leaves.
abbrev pub after_modes : VbeResult → Driver → Status × Driver
after_modes r d = (
  r.status,
  record d {
    hardware = record d.hardware { hardware_init = r.hardware_init || d.hardware.hardware_init };
    vga_modes = r.table;
  },
)

-- The HWInit of the device. That of VgaDevice is its mode list, with the information of the display,
-- which is still zeroed.
unfoldable pub init_device : StartApi → DeviceKind → Driver → Outcome (Status × Driver)
unfolding hw_init get_vbe_mode_list
init_device a gpu_device d = do
  r ← hw_init a.gpu (record d.hardware { has_thread = false })
  done (r.0, record d { hardware = r.1 })
init_device a vga_device d = do
  r ← get_vbe_mode_list a.vbe a.vbe_rounds d.mode.disp_info d.vga_modes
  done (after_modes r d)

-- From the display information that the driver takes over to its own. The physical address was saved
-- before the display was taken over.
abbrev pub using_info : ℕ → DisplayInfo → DisplayInfo
using_info saved i = record {
  width = max min_width_size i.width;
  height = max min_height_size i.height;
  pitch = bpp_from_pixel_format a8r8g8b8 / 8;
  color_format = a8r8g8b8;
  physic_address = (if saved == 0 then i.physic_address else saved);
  target_id = 0;
}

-- StartDevice from RegisterHWInfo on. The id of either device is 0, so that the display is taken over.
unfoldable pub take_over : StartApi → Driver → Status × Driver
unfolding register_hw_info
take_over a d =
    if not (is_success (register_hw_info a.registry).0)
    then (call_failed, d)
    else elim a.post_display [
      | none ↦ (unsuccessful, d)
      | some i ↦ (
        success,
        record d {
          started = true;
          mode = record d.mode { disp_info = using_info d.mode.disp_info.physic_address i };
          initial_info = i;
        },
      )
    ]

-- D3DDDI_ID_UNINITIALIZED
abbrev pub id_uninitialized : ℕ
id_uninitialized = 0xFFFFFFFF

abbrev pub zeroed_current : BddMode
zeroed_current = record zeroed_mode {
  disp_info = record zeroed_info { target_id = id_uninitialized };
}

-- StartDevice after HWInit.
unfoldable pub after_init : StartApi → Status → Driver → Status × Driver
unfolding take_over
after_init a st d = if is_success st then take_over a d else (st, d)

-- StartDevice. The old device, if there is one, is not deleted.
unfoldable pub start_device : StartApi → Driver → Outcome (Status × Driver)
unfolding check_hardware init_device after_init
start_device a d =
    let d₁ = record d { mode = zeroed_current } in
    let kind = kind_of (check_hardware a.pci_ids) in
    let lost = d.abandoned + has d.device in
    if not a.device_information
    then done (call_failed, d₁)
    else if not a.allocated
    then done (no_memory, record d₁ { device = none; abandoned = lost })
    else (do
      (st, d₂) ← init_device a kind (record d₁ { device = some kind; abandoned = lost })
      done (after_init a st d₂))

-- StopDevice
unfoldable pub stop_device : Driver → Driver
stop_device d = record d { started = false }

-- SetFinalDisplayInfo, with the physical address of the first BAR. That of VgaDevice does nothing.
unfoldable pub set_final_display_info : DeviceKind → Option ℕ → DisplayInfo → DisplayInfo
set_final_display_info gpu_device (some a) i = record i { physic_address = a }
set_final_display_info gpu_device none i = i
set_final_display_info vga_device bar i = i

-- StopDeviceAndReleasePostDisplayOwnership, with the device's BlackOutScreen: the information that is
-- returned. (The monitor's power state never leaves D0.)
unfoldable pub stop_and_release :
    (DeviceKind → BddMode → BddMode) → Option ℕ → Driver → Outcome (DisplayInfo × Driver)
unfolding stop_device set_final_display_info
stop_and_release black_out bar d = elim d.device [
  | none ↦ null_pointer
  | some k ↦ done (
    set_final_display_info k bar d.initial_info,
    stop_device (record d { mode = black_out k d.mode }),
  )
]

-- CleanUp, with the device's ReleaseFrameBuffer.
unfoldable pub clean_up : (DeviceKind → BddMode → BddMode) → Driver → Outcome Driver
clean_up release d = if d.mode.frame_ptr == 0 then done d else elim d.device [
  | none ↦ null_pointer
  | some k ↦ done (record d { mode = release k d.mode })
]

-- The constructor.
abbrev pub new_driver : Hardware → Modes → Driver
new_driver h t = record {
  device = none;
  abandoned = 0;
  started = false;
  hardware = record h { hardware_init = false };
  vga_modes = t;
  mode = zeroed_mode;
  initial_info = zeroed_info;
}
