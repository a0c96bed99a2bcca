-- ===== src/Screen.antt =====
-- BlackOutScreen of the two devices in viogpu/viogpudo/viogpudo.cpp. Physical addresses are not negative, and
-- the comparisons on them are those of numbers.
pub mod Black
mod Examples
use graphics_drivers_wip.Base.{
  ℕ, ◌+◌, ◌-◌, ◌*◌, ◌&&◌, not, Bool, true, false, ltb, leb, ◌==◌, if◌then◌else◌, u32,
}
use graphics_drivers_wip.Blit.{Memory}

-- RtlZeroMemory
abbrev pub zero_memory : ℕ → ℕ → Memory → Memory
zero_memory a n m q = if leb a q && ltb q (a + n) then 0 else m q

-- What CURRENT_BDD_MODE has of the screen: its size and pitch, its physical and its mapped address, and
-- the physical addresses between which it was zeroed last.
pub record Screen : Type 0 where
  pub height : ℕ
  pub pitch : ℕ
  pub physic_address : ℕ
  pub frame_buffer_is_active : Bool
  pub frame_ptr : ℕ
  pub zeroed_out_start : ℕ
  pub zeroed_out_end : ℕ

abbrev pub screen_bytes : Screen → ℕ
screen_bytes s = u32 (s.height * s.pitch)

abbrev pub end_address : Screen → ℕ
end_address s = s.physic_address + screen_bytes s

-- The part at the start that was not zeroed recently.
abbrev pub zero_start : Screen → Memory → Memory
zero_start s m =
    if ltb s.physic_address s.zeroed_out_start
    then (if ltb (end_address s) s.zeroed_out_start
        then zero_memory s.frame_ptr (screen_bytes s) m
        else zero_memory s.frame_ptr (u32 (s.zeroed_out_start - s.physic_address)) m)
    else m

-- The part at the end that was not zeroed recently.
abbrev pub zero_end : Screen → Memory → Memory
zero_end s m =
    if ltb s.zeroed_out_end (end_address s)
    then (if ltb s.zeroed_out_end s.physic_address
        then zero_memory s.frame_ptr (screen_bytes s) m
        else zero_memory s.frame_ptr (u32 (end_address s - s.zeroed_out_end)) m)
    else m

-- VgaDevice::BlackOutScreen
unfoldable pub black_out_screen : Screen → Memory → Screen × Memory
black_out_screen s m = (
  record s { zeroed_out_start = s.physic_address; zeroed_out_end = end_address s },
  if s.frame_buffer_is_active then zero_end s (zero_start s m) else m,
)

-- GpuDevice::BlackOutScreen
unfoldable pub gpu_black_out_screen : Screen → Memory → Memory
gpu_black_out_screen s m =
    if s.frame_buffer_is_active && not (s.frame_ptr == 0)
    then zero_memory s.frame_ptr (screen_bytes s) m
    else m
