-- ===== src/Screen/Black.antt =====
-- When BlackOutScreen of VgaDevice and of GpuDevice in viogpu/viogpudo/viogpudo.cpp leaves the screen black.
use graphics_drivers_wip.Base.{ℕ, ◌+◌, ◌-◌, ◌≤◌, ◌<◌, ◌≡◌, ◌≢◌, ◌⊎◌, refl, true, ==_false, arith}
use graphics_drivers_wip.Blit.{Memory}
use graphics_drivers_wip.Screen.{
  Screen, screen_bytes, end_address, zero_start, zero_end, black_out_screen, gpu_black_out_screen,
}

-- The bytes of the screen that lie between the recorded addresses are zero.
abbrev pub IsRecorded : Screen → Memory → Type 0
IsRecorded s m =
    (i : ℕ)
    → i < screen_bytes s
    → s.zeroed_out_start ≤ s.physic_address + i
    → s.physic_address + i < s.zeroed_out_end
    → m (s.frame_ptr + i) ≡ 0

-- All bytes of the screen are zero.
abbrev pub IsBlack : Screen → Memory → Type 0
IsBlack s m = (i : ℕ) → i < screen_bytes s → m (s.frame_ptr + i) ≡ 0

-- On an active frame buffer whose record of the zeroed bytes is true, VgaDevice::BlackOutScreen leaves
-- the whole screen black and its record true, provided that the recorded addresses reach to
-- the end of the screen or end before its start.
pub black_out_screen_lem :
    (s : Screen) (m : Memory)
    → s.frame_buffer_is_active ≡ true
    → IsRecorded s m
    → (end_address s ≤ s.zeroed_out_end) ⊎ (s.zeroed_out_end < s.physic_address)
    → let (t, n) = black_out_screen s m in IsBlack s n × IsRecorded t n
unfolding black_out_screen
black_out_screen_lem s m active known reach =
    let black : IsBlack s (zero_end s (zero_start s m)) = λ i h. ground (arith, known i h) in
    rw active (black, λ i h _ _. black i h)

-- But if the recorded addresses end inside the screen, and do not start behind its start, the bytes
-- that lie further from the start than the end of the screen is from the recorded end keep their
-- values, and are recorded as zeroed.
pub black_out_screen-misses :
    (s : Screen) (m : Memory)
    → s.frame_buffer_is_active ≡ true
    → s.zeroed_out_start ≤ s.physic_address
    → s.physic_address ≤ s.zeroed_out_end
    → s.zeroed_out_end < end_address s
    → let (t, n) = black_out_screen s m in
      (t.zeroed_out_end ≡ end_address s)
      × ((i : ℕ)
          → end_address s - s.zeroed_out_end ≤ i
          → i < screen_bytes s
          → n (s.frame_ptr + i) ≡ m (s.frame_ptr + i))
unfolding black_out_screen
black_out_screen-misses s m active low mid high = rw active (refl, λ i h k. ground arith)

-- GpuDevice::BlackOutScreen makes the whole of an active and mapped frame buffer black and changes
-- nothing else.
gpu_black_out_screen_lem :
    (s : Screen) (m : Memory)
    → s.frame_buffer_is_active ≡ true
    → s.frame_ptr ≢ 0
    → IsBlack s (gpu_black_out_screen s m)
      × ((q : ℕ)
          → (q < s.frame_ptr) ⊎ (s.frame_ptr + screen_bytes s ≤ q)
          → gpu_black_out_screen s m q ≡ m q)
unfolding gpu_black_out_screen
gpu_black_out_screen_lem s m active n =
    rw (active, ==_false s.frame_ptr 0 n) (λ i h. ground arith, λ q o. ground arith)
