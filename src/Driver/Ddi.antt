-- ===== src/Driver/Ddi.antt =====
-- The entry points of viogpu/viogpudo/driver.cpp: what each looks at before it calls the method of VioGpuDod of
-- the same name, and whether that method may go through the pointer to the device.
use graphics_drivers_wip.Base.{
  Bool, true, false, Option, none, some, if◌then◌else◌, Outcome, done, null_pointer,
}
use graphics_drivers_wip.Dod.{Status, success, unsuccessful}
use graphics_drivers_wip.Driver.{DeviceKind, Driver}

-- `when_active` answers a call with a status when the driver is not active; `when_ready` does not act
-- unless IsHardwareInit; and `when_ready_and_there` is InterruptRoutine, which VioGpuDod guards.
pub data Guard : Type 0 where
  always : Guard
  when_active : Status → Guard
  when_ready : Guard
  when_ready_and_there : Guard

-- A guard, and whether the method may go through m_pHWDevice.
pub record Entry : Type 0 where
  pub guard : Guard
  pub uses_device : Bool

pub data PnpDdi : Type 0 where
  stop_device dispatch_io_request set_power_state query_child_relations : PnpDdi
  query_child_status query_device_descriptor : PnpDdi

abbrev pub pnp_entry : PnpDdi → Entry
pnp_entry stop_device = record { guard = always; uses_device = false }
pnp_entry dispatch_io_request = record { guard = when_active unsuccessful; uses_device = false }
pnp_entry set_power_state = record { guard = when_active success; uses_device = true }
pnp_entry query_child_relations = record { guard = always; uses_device = true }
pnp_entry query_child_status = record { guard = always; uses_device = false }
pnp_entry query_device_descriptor = record { guard = when_active unsuccessful; uses_device = false }

pub data DisplayDdi : Type 0 where
  query_adapter_info set_pointer_position set_pointer_shape query_interface : DisplayDdi
  present_display_only stop_device_and_release_post_display_ownership : DisplayDdi

abbrev pub display_entry : DisplayDdi → Entry
display_entry query_adapter_info = record { guard = always; uses_device = true }
display_entry set_pointer_position = record { guard = when_active unsuccessful; uses_device = true }
display_entry set_pointer_shape = record { guard = when_active unsuccessful; uses_device = true }
display_entry query_interface = record { guard = always; uses_device = false }
display_entry present_display_only = record { guard = when_active unsuccessful; uses_device = true }
display_entry stop_device_and_release_post_display_ownership = record {
  guard = always;
  uses_device = true;
}

pub data VidPnDdi : Type 0 where
  is_supported recommend_functional recommend_topology recommend_monitor_modes : VidPnDdi
  enum_cofunc_modality set_source_visibility commit : VidPnDdi
  update_active_present_path query_hw_capability : VidPnDdi

-- All of these look at whether the driver is active.
abbrev pub may_use_device : VidPnDdi → Bool
may_use_device recommend_monitor_modes = true
may_use_device enum_cofunc_modality = true
may_use_device set_source_visibility = true
may_use_device commit = true
may_use_device _ = false

abbrev pub vid_pn_entry : VidPnDdi → Entry
vid_pn_entry e = record { guard = when_active unsuccessful; uses_device = may_use_device e }

pub data NonPagedDdi : Type 0 where
  dpc_routine interrupt_routine reset_device : NonPagedDdi
  system_display_enable system_display_write : NonPagedDdi

abbrev pub non_paged_entry : NonPagedDdi → Entry
non_paged_entry dpc_routine = record { guard = when_ready; uses_device = true }
non_paged_entry interrupt_routine = record { guard = when_ready_and_there; uses_device = true }
non_paged_entry reset_device = record { guard = always; uses_device = true }
non_paged_entry system_display_enable = record { guard = always; uses_device = false }
non_paged_entry system_display_write = record { guard = always; uses_device = false }

-- All the entry points.
pub data Ddi : Type 0 where
  pnp : PnpDdi → Ddi
  display : DisplayDdi → Ddi
  vid_pn : VidPnDdi → Ddi
  non_paged : NonPagedDdi → Ddi

abbrev pub entry_of : Ddi → Entry
entry_of (pnp p) = pnp_entry p
entry_of (display p) = display_entry p
entry_of (vid_pn p) = vid_pn_entry p
entry_of (non_paged p) = non_paged_entry p

-- `refused` is the answer without a call of the method, and `ignored` that of a routine without a
-- status.
pub data Answer : Type 0 where
  refused : Status → Answer
  ignored : Answer
  called : Answer

abbrev pub reach : Bool → Option DeviceKind → Outcome Answer
reach false device = done called
reach true none = null_pointer
reach true (some k) = done called

abbrev pub if_there : Option DeviceKind → Answer
if_there none = ignored
if_there (some k) = called

-- The call of an entry point, up to the first use of the device by the method.
unfoldable pub dispatch : Entry → Driver → Outcome Answer
dispatch e d = elim e.guard [
  | always ↦ reach e.uses_device d.device
  | when_active st ↦ if d.started then reach e.uses_device d.device else done (refused st)
  | when_ready ↦ if d.hardware.hardware_init then reach e.uses_device d.device else done ignored
  | when_ready_and_there ↦
      if d.hardware.hardware_init then done (if_there d.device) else done ignored
]
