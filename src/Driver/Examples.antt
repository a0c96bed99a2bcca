-- ===== src/Driver/Examples.antt =====
-- A start of VioGpuDod on the virtio device, a stop, and a second start.
use graphics_drivers_wip.Base.{
  List, ◌∷◌, ◌++◌, false, ◌≡◌, ◌↔◌, refl, true, false, none, some, done, [],
}
use graphics_drivers_wip.Idr.Samples.{bits_api, one}
use graphics_drivers_wip.Queue.Command.{Command}
use graphics_drivers_wip.Device.{
  CtrlQueueApi, Gpu, destroy_cursor, destroy_frame_buffer, drop_object,
}
use graphics_drivers_wip.Vga.{Mappings}
use graphics_drivers_wip.Blit.{a8r8g8b8}
use graphics_drivers_wip.Modes.{Modes}
use graphics_drivers_wip.Dod.{success}
use graphics_drivers_wip.Bdd.{DisplayInfo}
use graphics_drivers_wip.Hardware.{Answers, Hardware, with_thread, hw_start}
use graphics_drivers_wip.Vbe.{ModeBlock, VbeApi}
use graphics_drivers_wip.Driver.Registry.{RegistryApi, register_hw_info}
use graphics_drivers_wip.Driver.Written.{Writes, IsFreed, register_hw_info_lem}
use graphics_drivers_wip.Driver.Start.{IsUp, start_device-IsUp}
use graphics_drivers_wip.Driver.{
  DeviceKind, gpu_device, vga_device, Driver, StartApi, check_hardware, zeroed_current, using_info,
  start_device, stop_device, new_driver,
}
use graphics_drivers_wip.Driver.Reach.{Reaches, creates, starts, stops, IsSound, Reaches-IsSound}
use graphics_drivers_wip.Driver.Remove.{remove_device, CanDestroy, remove_device-Reaches}

abbrev all_well : Answers
all_well = record {
  pci_init = true;
  initialize = true;
  version_1 = true;
  set_features = true;
  find_queues = true;
  ctrl_init = true;
  cursor_init = true;
  buf_init = true;
  idr_init = true;
  create_thread = true;
  mode_memory = true;
  mode_list = true;
}

abbrev block : ModeBlock
block = record {
  x_resolution = 1024;
  y_resolution = 768;
  lin_bytes_per_scan_line = 4096;
  number_of_planes = 1;
  bits_per_pixel = 32;
  phys_base_ptr = 0xE0000000;
}

abbrev no_bios : VbeApi
no_bios = record {
  allocate = false;
  segment = 0;
  write_signature = false;
  info_call = false;
  read_info = false;
  is_vesa = false;
  first_number = λ i. none;
  new_infos = false;
  new_numbers = false;
  second_number = λ i. none;
  mode_call = λ i. false;
  mode_block = λ i. (false, block);
}

abbrev registry : RegistryApi
registry = record {
  open_key = true;
  convert = λ i. true;
  set_string = λ i. true;
  set_memory_size = true;
  set_device_id = true;
}

abbrev shown : DisplayInfo
shown = record {
  width = 800;
  height = 600;
  pitch = 3200;
  color_format = a8r8g8b8;
  physic_address = 0xE0000000;
  target_id = 0;
}

abbrev starting : StartApi
starting = record {
  device_information = true;
  pci_ids = some (0x1AF4, 0x1050);
  allocated = true;
  gpu = all_well;
  vbe = no_bios;
  vbe_rounds = 0;
  registry = registry;
  post_display = some shown;
}

abbrev hardware : Hardware
hardware = record { hardware_init = false; acked = false; has_thread = false; calls = [] }

abbrev no_modes : Modes
no_modes = record {
  mode_info = [];
  mode_numbers = [];
  mode_count = 0;
  current_mode = 0;
  custom_mode = 0;
}

abbrev new : Driver
new = new_driver hardware no_modes

registered : (register_hw_info registry).0 ≡ success
unfolding register_hw_info
registered = refl

-- The driver after that start.
abbrev up : Driver
up = record new {
  device = some gpu_device;
  started = true;
  hardware = with_thread all_well hardware;
  mode = record zeroed_current { disp_info = using_info 0 shown };
  initial_info = shown;
}

start_up : start_device starting new ≡ done (success, up)
unfolding start_device
start_up = refl

start_device-IsUp_example :
    (t : Driver) × (start_device starting new ≡ done (success, t)) × IsUp starting shown new t
unfolding check_hardware
start_device-IsUp_example =
    start_device-IsUp starting shown new refl refl refl refl refl refl refl registered refl

-- The driver's strings are not converted.
abbrev no_strings : RegistryApi
no_strings = record registry { convert = λ i. false }

register_hw_info_example :
    (((register_hw_info no_strings).0 ≡ success)
      ↔ ((true ≡ true) × Writes no_strings 4 0 × (true ≡ true) × (true ≡ true)))
    × IsFreed (register_hw_info no_strings).1
register_hw_info_example = register_hw_info_lem no_strings

up-Reaches : Reaches 1 up
up-Reaches = starts starting success (creates hardware no_modes) refl start_up

-- Stopped and started again, the driver has lost a device.
abbrev again : Driver
again = record up {
  abandoned = 1;
  hardware = with_thread all_well (record up.hardware { has_thread = false });
}

start_again : start_device starting (stop_device up) ≡ done (success, again)
unfolding start_device stop_device
start_again = refl

again-Reaches : Reaches 2 again
unfolding stop_device
again-Reaches = starts starting success (stops up-Reaches) refl start_again

Reaches-IsSound_example : IsSound 2 again
Reaches-IsSound_example = Reaches-IsSound 2 again again-Reaches

-- A device with a frame buffer, on a queue that is the list of its commands.
abbrev log_queue : CtrlQueueApi
log_queue = record { Queue = List Command; post = λ e c q. done (q ++ (c ∷ [])) }

abbrev drawn : Gpu bits_api log_queue
drawn = record {
  idr = one;
  ctrl = [];
  frame_buf = some (record { hw_res = 1; v_addr = 0x1000; elements = [] });
  cursor_buf = none;
  memory = λ a. 0;
}

drawn-CanDestroy : CanDestroy bits_api log_queue drawn
unfolding destroy_cursor destroy_frame_buffer drop_object
drawn-CanDestroy = (_, _, refl, refl)

abbrev no_mappings : Mappings
no_mappings = record { mapped = []; stray = []; bios = [] }

remove_device-Reaches_example :
    (t : Driver) × (remove_device bits_api log_queue no_mappings drawn (some up)
      ≡ done (success, some t))
    × (t.device ≡ none)
    × (some gpu_device ≡ some vga_device → t.mode.frame_ptr ≡ 0)
    × (some gpu_device ≡ some gpu_device → t.mode ≡ up.mode)
    × ((k : DeviceKind) → some gpu_device ≡ some k → t.hardware.hardware_init ≡ false)
unfolding hw_start
remove_device-Reaches_example =
    remove_device-Reaches bits_api log_queue 1 up no_mappings drawn up-Reaches drawn-CanDestroy refl
