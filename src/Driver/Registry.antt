-- ===== src/Driver/Registry.antt =====
-- RegisterHWInfo and WriteHWInfoStr of VioGpuDod in viogpu/viogpudo/viogpudo.cpp. The calls of the kernel are
-- recorded.
use graphics_drivers_wip.Base.{ℕ, zero, suc, not, Bool, List, [], ◌∷◌, ◌++◌, if◌then◌else◌}
use graphics_drivers_wip.Dod.{Status, success, call_failed, is_success}

-- Whether the key can be opened, the string with an index be converted and be set, and the memory size
-- and the device id be set.
pub record RegistryApi : Type 0 where
  pub open_key : Bool
  pub convert : ℕ → Bool
  pub set_string : ℕ → Bool
  pub set_memory_size : Bool
  pub set_device_id : Bool

-- `converted` allocates a string, and `freed` frees it.
pub data RegistryCall : Type 0 where
  key_opened converted freed key_closed : RegistryCall
  value_set : RegistryCall

unfoldable pub write_hw_info_str : RegistryApi → ℕ → Status × List RegistryCall
write_hw_info_str a i =
    if not (a.convert i)
    then (call_failed, [])
    else (if a.set_string i then success else call_failed, converted ∷ value_set ∷ freed ∷ [])

-- The strings, with `n` left from the one with index `i` on.
unfoldable pub write_strings : RegistryApi → ℕ → ℕ → Status × List RegistryCall
unfolding write_hw_info_str
write_strings a zero i = (success, [])
write_strings a (suc n) i =
    let rest = write_strings a n (suc i) in
    let (st, cs) = write_hw_info_str a i in
    if is_success st then (rest.0, cs ++ rest.1) else (call_failed, cs)

-- MemorySize and VioGpuDeviceID, after the strings.
unfoldable pub write_numbers : RegistryApi → Status → List RegistryCall → Status × List RegistryCall
write_numbers a st cs =
    if not (is_success st)
    then (st, cs)
    else if not a.set_memory_size
    then (call_failed, cs ++ value_set ∷ [])
    else (if a.set_device_id then success else call_failed, cs ++ value_set ∷ value_set ∷ [])

-- RegisterHWInfo: ChipType, DacType, AdapterString and BiosString, then the numbers. The key is not closed.
unfoldable pub register_hw_info : RegistryApi → Status × List RegistryCall
unfolding write_strings write_numbers
register_hw_info a =
    let (st, cs) = write_strings a 4 0 in
    if a.open_key
    then ((write_numbers a st cs).0, key_opened ∷ (write_numbers a st cs).1)
    else (call_failed, [])
