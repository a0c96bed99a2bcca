-- ===== src/Screen/Examples.antt =====
-- The theorems about BlackOutScreen of viogpu/viogpudo/viogpudo.cpp on a screen of 16 bytes.
use graphics_drivers_wip.Base.{ℕ, ◌+◌, ◌-◌, ◌≤◌, ◌<◌, ◌≡◌, refl, true, arith}
use graphics_drivers_wip.Blit.{Memory}
use graphics_drivers_wip.Screen.{Screen, screen_bytes, end_address, black_out_screen}
use graphics_drivers_wip.Screen.Black.{black_out_screen-misses}

abbrev white : Memory
white = λ q. 0xff

-- Nothing is recorded.
abbrev fresh : Screen
fresh = record {
  height = 4;
  pitch = 4;
  physic_address = 0x1000;
  frame_buffer_is_active = true;
  frame_ptr = 0x5000;
  zeroed_out_start = 0;
  zeroed_out_end = 0;
}

-- Half of the screen is recorded.
abbrev half : Screen
half = record fresh { zeroed_out_start = 0x1000; zeroed_out_end = 0x1008 }

half_stays_white : (black_out_screen half white).1 0x500f ≡ 0xff
unfolding black_out_screen
half_stays_white = refl

black_out_screen-misses_example :
    let (t, n) = black_out_screen half white in
    (t.zeroed_out_end ≡ end_address half)
    × ((i : ℕ)
        → end_address half - half.zeroed_out_end ≤ i
        → i < screen_bytes half
        → n (half.frame_ptr + i) ≡ white (half.frame_ptr + i))
black_out_screen-misses_example =
    black_out_screen-misses half white refl (omega arith) (omega arith) (omega arith)
