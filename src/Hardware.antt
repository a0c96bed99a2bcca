-- ===== src/Hardware.antt =====
-- How GpuDevice of viogpu/viogpudo/viogpudo.cpp brings the virtio device up and down: HWInit, GpuDeviceInit,
-- GpuDeviceClose, SetPowerState and HWClose. The calls of the virtio library are recorded.
pub mod Steps
pub mod Ready
pub mod Power
mod Examples
use graphics_drivers_wip.Base.{
  ◌&&◌, ◌||◌, not, Bool, true, false, List, [], ◌∷◌, ◌++◌, if◌then◌else◌, Outcome, done,
  null_pointer,
}
use graphics_drivers_wip.Dod.{
  Status, success, unsuccessful, call_failed, insufficient_resources, no_memory, is_success,
  PowerState, unspecified, d0, d1, d2, d3,
}

-- What becomes of each step while the device is brought up: whether the PCI resources are complete,
-- virtio_device_initialize succeeds, the device offers VIRTIO_F_VERSION_1, virtio_set_features and
-- virtio_find_queues succeed, the two queues and the buffers and the ids can be initialised, the
-- thread be created, and the modes be listed.
pub record Answers : Type 0 where
  pub pci_init : Bool
  pub initialize : Bool
  pub version_1 : Bool
  pub set_features : Bool
  pub find_queues : Bool
  pub ctrl_init : Bool
  pub cursor_init : Bool
  pub buf_init : Bool
  pub idr_init : Bool
  pub create_thread : Bool
  pub mode_memory : Bool
  pub mode_list : Bool

pub data Call : Type 0 where
  initialized features_set queues_found ctrl_inited cursor_inited bufs_inited idr_inited : Call
  config_read device_ready status_failed thread_created : Call
  device_reset queues_deleted ctrl_closed cursor_closed device_shutdown : Call
  thread_stopped : Call

-- The flag of IsHardwareInit, whether m_u64GuestFeatures has VIRTIO_F_VERSION_1, whether there is a
-- thread, and the calls, the latest last.
pub record Hardware : Type 0 where
  pub hardware_init : Bool
  pub acked : Bool
  pub has_thread : Bool
  pub calls : List Call

abbrev pub logged : List Call → Hardware → Hardware
logged cs h = record h { calls = h.calls ++ cs }

-- AckFeature of VIRTIO_F_VERSION_1
unfoldable pub ack_feature : Bool → Hardware → Bool × Hardware
ack_feature version_1 h = if version_1 then (true, record h { acked = true }) else (false, h)

-- The two calls of CtrlQueue::Init and CrsrQueue::Init; the second is not made when the first fails.
abbrev pub init_queues : Answers → Bool × List Call
init_queues a =
    if a.ctrl_init
    then (a.cursor_init, ctrl_inited ∷ cursor_inited ∷ [])
    else (false, ctrl_inited ∷ [])

-- The do block of GpuDeviceInit from AckFeature on.
unfoldable pub start_queues : Answers → Status × List Call
start_queues a =
    if not a.version_1
    then (unsuccessful, [])
    else if not a.set_features
    then (call_failed, features_set ∷ [])
    else if not a.find_queues
    then (call_failed, features_set ∷ queues_found ∷ [])
    else if not (init_queues a).0
    then (insufficient_resources, features_set ∷ queues_found ∷ (init_queues a).1)
    else (success, features_set ∷ queues_found ∷ ctrl_inited ∷ cursor_inited ∷ config_read ∷ [])

-- The do block of HWInit from AckFeature on.
unfoldable pub start_buffers : Answers → Status × List Call
start_buffers a =
    if not a.version_1
    then (unsuccessful, [])
    else if not a.set_features
    then (call_failed, features_set ∷ [])
    else if not a.find_queues
    then (call_failed, features_set ∷ queues_found ∷ [])
    else if not (init_queues a).0
    then (insufficient_resources, features_set ∷ queues_found ∷ (init_queues a).1)
    else if not a.buf_init
    then (
      insufficient_resources,
      features_set ∷ queues_found ∷ ctrl_inited ∷ cursor_inited ∷ bufs_inited ∷ [],
    )
    else if not a.idr_init
    then (
      insufficient_resources,
      features_set ∷ queues_found ∷ ctrl_inited ∷ cursor_inited ∷ bufs_inited ∷ idr_inited ∷ [],
    )
    else (
      success,
      features_set ∷ queues_found ∷ ctrl_inited ∷ cursor_inited ∷ bufs_inited ∷ idr_inited
          ∷ config_read ∷ [],
    )

-- virtio_device_ready and SetHardwareInit, or virtio_add_status.
unfoldable pub finish : Status × List Call → Hardware → Hardware
finish r h =
    if is_success r.0
    then record (logged (r.1 ++ device_ready ∷ []) h) { hardware_init = true }
    else logged (r.1 ++ status_failed ∷ []) h

unfoldable pub gpu_device_init : Answers → Hardware → Status × Hardware
unfolding start_queues finish ack_feature
gpu_device_init a h =
    let h₁ = logged (initialized ∷ []) h in
    if not a.initialize
    then (call_failed, h₁)
    else ((start_queues a).0, finish (start_queues a) (ack_feature a.version_1 h₁).1)

unfoldable pub gpu_device_close : Hardware → Hardware
gpu_device_close h =
    logged (device_reset ∷ queues_deleted ∷ ctrl_closed ∷ cursor_closed ∷ device_shutdown ∷ [])
      (record h { hardware_init = false })

-- GpuDevice::SetPowerState, which succeeds whatever GpuDeviceInit returns.
unfoldable pub gpu_set_power_state : Answers → PowerState → Hardware → Bool × Hardware
unfolding gpu_device_init gpu_device_close
gpu_set_power_state a unspecified h = (true, (gpu_device_init a h).1)
gpu_set_power_state a d0 h = (true, (gpu_device_init a h).1)
gpu_set_power_state a d1 h = (true, gpu_device_close h)
gpu_set_power_state a d2 h = (true, gpu_device_close h)
gpu_set_power_state a d3 h = (true, gpu_device_close h)

-- HWInit up to the comment FIXME.
unfoldable pub hw_start : Answers → Hardware → Hardware
unfolding start_buffers finish ack_feature
hw_start a h =
    if not a.pci_init
    then finish (insufficient_resources, []) h
    else if not a.initialize
    then finish (call_failed, initialized ∷ []) h
    else finish (start_buffers a) (ack_feature a.version_1 (logged (initialized ∷ []) h)).1

-- The steps of HWInit up to the buffers have succeeded, so that the control queue was given its pool of
-- buffers (SetGpuBuf); the pointer to it is null in a new device.
abbrev pub has_buffers : Answers → Bool
has_buffers a =
    a.pci_init && a.initialize && a.version_1 && a.set_features && a.find_queues && a.ctrl_init
    && a.cursor_init && a.buf_init

abbrev pub with_thread : Answers → Hardware → Hardware
unfolding hw_start
with_thread a h = record (logged (thread_created ∷ []) (hw_start a h)) { has_thread = true }

-- The rest of HWInit, which assigns the status anew: the thread, and GetModeList, which asks for the
-- display through the pool of the control queue.
unfoldable pub hw_init : Answers → Hardware → Outcome (Status × Hardware)
unfolding hw_start
hw_init a h =
    if not a.create_thread
    then done (call_failed, hw_start a h)
    else if not a.mode_memory
    then done (no_memory, with_thread a h)
    else if not (has_buffers a)
    then null_pointer
    else done (if a.mode_list then success else unsuccessful, with_thread a h)

-- HWClose. It waits for the thread, which is a null pointer if there is none.
unfoldable pub hw_close : Hardware → Outcome Hardware
hw_close h =
    if h.has_thread
    then done (logged (thread_stopped ∷ []) (record h { hardware_init = false }))
    else null_pointer
