-- ===== src/Query.antt =====
-- What VioGpuDod of viogpu/viogpudo/viogpudo.cpp answers to the queries of the kernel: QueryChildRelations,
-- QueryChildStatus, QueryDeviceDescriptor, QueryAdapterInfo, QueryInterface and QueryVidPnHWCapability.
pub mod Children
mod Examples
use graphics_drivers_wip.Base.{
  ℕ, zero, suc, not, Bool, true, false, Option, none, some, List, ◌==◌, if◌then◌else◌, sub32,
  Outcome, done, ◌>>=◌,
}
use graphics_drivers_wip.Modes.{set_at}
use graphics_drivers_wip.Dod.{Status, success, invalid_parameter, not_supported, call_failed}

-- DXGK_CHILD_DESCRIPTOR; the other fields are the same for every child.
pub record Child : Type 0 where
  pub is_always_connected : Bool
  pub is_internal : Bool
  pub uid : ℕ

-- The child that is described, by the id of the device.
abbrev pub child : ℕ → ℕ → Child
child device_id i = record {
  is_always_connected = device_id == 0;
  is_internal = device_id == 0;
  uid = i;
}

-- The loop over the children, with `n` left from index `i` on, over an array in which `none` is zeroed.
unfoldable pub describe : ℕ → ℕ → ℕ → List (Option Child) → Outcome (List (Option Child))
unfolding set_at
describe device_id zero i xs = done xs
describe device_id (suc n) i xs = do
  ys ← set_at xs i (some (child device_id i))
  describe device_id n (suc i) ys

-- QueryChildRelations, with the number of descriptors for which the array has room; the last one stays
-- zeroed. The count is a ULONG.
unfoldable pub query_child_relations : ℕ → ℕ → List (Option Child) → Outcome (List (Option Child))
unfolding describe
query_child_relations device_id room xs = describe device_id (sub32 room 1) 0 xs

pub data ChildStatusType : Type 0 where
  status_connection status_rotation status_other : ChildStatusType

-- QueryChildStatus: the status, and whether the child is connected, if that is written.
unfoldable pub query_child_status : Bool → ChildStatusType → Status × Option Bool
query_child_status is_active status_connection = (success, some is_active)
query_child_status is_active status_rotation = (invalid_parameter, none)
query_child_status is_active status_other = (not_supported, none)

-- DXGK_DRIVERCAPS as far as it depends on the device: the size of the pointer, and its colours.
pub record DriverCaps : Type 0 where
  pub max_pointer_width : ℕ
  pub max_pointer_height : ℕ
  pub color : Bool

abbrev pub pointer_size : ℕ
pointer_size = 64

abbrev pub caps_of : Bool → DriverCaps
caps_of true = record {
  max_pointer_width = pointer_size;
  max_pointer_height = pointer_size;
  color = true;
}
caps_of false = record { max_pointer_width = 0; max_pointer_height = 0; color = false }

-- QueryAdapterInfo, by whether the driver's capabilities are asked for, the size of the output, and the
-- device's EnablePointer. A failure STATUS_BUFFER_TOO_SMALL is `call_failed`.
unfoldable pub query_adapter_info : Bool → ℕ → Bool → Status × Option DriverCaps
query_adapter_info is_driver_caps size enable_pointer =
    if not is_driver_caps
    then (not_supported, none)
    else if size == 0
    then (call_failed, none)
    else (success, some (caps_of enable_pointer))
