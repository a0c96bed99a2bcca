-- ===== src/Present/Examples.antt =====
-- The theorems about the presentation of viogpu/viogpudo/viogpudo.cpp on a small screen.
use graphics_drivers_wip.Base.{
  ℕ, ◌%◌, ◌≡◌, ◌⊎◌, refl, true, false, some, none, List, [], ◌∷◌, ◌++◌, sub32, done, arith,
}
use graphics_drivers_wip.Idr.Samples.{bits_api, one}
use graphics_drivers_wip.Blit.{Rect, Memory, identity, a8r8g8b8}
use graphics_drivers_wip.Blit.Geometry.{IsSurface}
use graphics_drivers_wip.Queue.Command.{Command, transfer, show}
use graphics_drivers_wip.Device.{CtrlQueueApi, Gpu, Obj}
use graphics_drivers_wip.Bdd.{BddMode, zeroed_mode, zeroed_info}
use graphics_drivers_wip.Present.{
  Picture, PresentArgs, presented, dst_info, update_rect, update_offset, execute_present,
  find_update_rect, present_display_only, vga_execute_present,
}
use graphics_drivers_wip.Present.Update.{IsAround, find_update_rect_lem}
use graphics_drivers_wip.Present.Drawn.{AllIn}
use graphics_drivers_wip.Present.Region.{Sent, execute_present_lem}
use graphics_drivers_wip.Present.Screen.{present-IsBlack, screen_of}
use graphics_drivers_wip.Screen.{black_out_screen}
use graphics_drivers_wip.Screen.Black.{IsBlack}

abbrev corner : Rect
corner = record { left = 1; top = 1; right = 3; bottom = 2 }

abbrev strip : Rect
strip = record { left = 0; top = 2; right = 2; bottom = 3 }

find_update_rect_example :
    IsAround (find_update_rect (corner ∷ []) (strip ∷ [])) (corner ∷ strip ∷ [])
find_update_rect_example = find_update_rect_lem (corner ∷ []) (strip ∷ [])

-- The rectangle around the two.
find_update_rect_test :
    find_update_rect (corner ∷ []) (strip ∷ [])
    ≡ some (record { left = 0; top = 1; right = 3; bottom = 3 })
unfolding find_update_rect
find_update_rect_test = refl

-- A screen of 5 rows for a source mode of 2 by 4.
abbrev small : BddMode
small = record zeroed_mode {
  disp_info = record zeroed_info {
    width = 4;
    height = 5;
    pitch = 16;
    color_format = a8r8g8b8;
    physic_address = 0x8000;
  };
  src_mode_width = 4;
  src_mode_height = 3;
  frame_buffer_is_active = true;
  frame_ptr = 0x1000;
}

abbrev picture : Picture
picture = record {
  dst_addr = 0x1000;
  dst_bit_per_pixel = 32;
  src_addr = 0x2000;
  src_bytes_per_pixel = 4;
  src_pitch = 16;
  rotation = identity;
}

abbrev log_queue : CtrlQueueApi
log_queue = record { Queue = List Command; post = λ e c q. done (q ++ (c ∷ [])) }

abbrev frame : Obj
frame = record { hw_res = 1; v_addr = 0x1000; elements = [] }

abbrev device : Gpu bits_api log_queue
device = record {
  idr = one;
  ctrl = [];
  frame_buf = some frame;
  cursor_buf = none;
  memory = λ a. a % 251;
}

small-IsSurface : IsSurface (dst_info picture small)
small-IsSurface = omega arith

corner-AllIn : AllIn (dst_info picture small) (corner ∷ [])
corner-AllIn = omega arith

strip-AllIn : AllIn (dst_info picture small) (strip ∷ [])
strip-AllIn = omega arith

-- The two commands that are posted.
abbrev update : Rect
update = update_rect (corner ∷ []) (strip ∷ []) small

abbrev update_width : ℕ
update_width = sub32 update.right update.left

abbrev update_height : ℕ
update_height = sub32 update.bottom update.top

abbrev transferred : List Command
transferred =
    transfer 1 (update_offset picture small update) update_width update_height update.left
      update.top
    ∷ []

abbrev flushed : List Command
flushed = transferred ++ (show 1 update_width update_height update.left update.top ∷ [])

execute_present_example :
    (t : Gpu bits_api log_queue) × (execute_present bits_api log_queue picture
        (corner ∷ [])
        (strip ∷ [])
        small
        device
      ≡ done t)
    × (t.ctrl ≡ flushed)
    × ((q : ℕ)
        → (t.memory q ≡ device.memory q)
          ⊎ Sent 0x1000 (update_offset picture small update) 16 update_width update_height q)
execute_present_example =
    execute_present_lem bits_api log_queue picture (corner ∷ []) (strip ∷ []) small device frame
      transferred flushed refl refl refl refl refl small-IsSurface corner-AllIn strip-AllIn refl
      refl

abbrev args : PresentArgs
args = record {
  source_id = 0;
  source = 0x2000;
  bytes_per_pixel = 4;
  pitch = 16;
  rotate = false;
  moves = [];
  dirty_rects = corner ∷ [];
}

present-IsBlack_example :
    (c : BddMode) × (n : Memory) × (present_display_only
        (λ p moves dirty b k. done (vga_execute_present p moves dirty b k))
        true
        args
        (small ∷ [])
        (λ a. a % 251)
      ≡ done (presented, c ∷ [], n))
    × IsBlack (screen_of c) (black_out_screen (screen_of c) n).1
present-IsBlack_example =
    present-IsBlack args small (λ a. a % 251) refl (omega arith) refl refl (omega arith)
