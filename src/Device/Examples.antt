-- ===== src/Device/Examples.antt =====
-- The theorems about the host resources of GpuDevice in viogpu/viogpudo/viogpudo.cpp on a queue that is the
-- list of its commands.
use graphics_drivers_wip.Base.{
  ◌≢◌, subst, sym, length, ℕ, zero, suc, ◌+◌, ◌<◌, ◌≡◌, inr, refl, u32, ◌*◌, true, false, none,
  some, List, [], ◌∷◌, get_elem?, done, arith,
}
use graphics_drivers_wip.Idr.{get_id}
use graphics_drivers_wip.Idr.Samples.{bits_api, bits_laws, one, one-Represents}
use graphics_drivers_wip.Blit.{x8r8g8b8, identity}
use graphics_drivers_wip.Queue.{Ctrl}
use graphics_drivers_wip.Queue.Command.{Command, attach}
use graphics_drivers_wip.Queue.Samples.{all_valid, shifted, shifted_laws, memory_queue, idle}
use graphics_drivers_wip.Device.Wiring.{
  ctrl_queue, ctrl_laws, FitsData, IsReadable, AllReadable, ctrl_queue-Takes,
}
use graphics_drivers_wip.Modes.{ModeInfo, Modes}
use graphics_drivers_wip.Modes.Table.{IsTable}
use graphics_drivers_wip.Device.{
  CtrlQueueApi, Answers, CurrentMode, PointerShape, Gpu, obj_init, create_frame_buffer,
}
use graphics_drivers_wip.Device.Host.{Host, no_resources, with_resource, QueueLaws, Takes}
use graphics_drivers_wip.Device.Sync.{IsSynced, free_id}
use graphics_drivers_wip.Device.Create.{IsAnswered, made, Attaches, create_frame_buffer-leaks}
use graphics_drivers_wip.Device.Pages.{obj_allocate, obj_close, Frees, obj_close-obj_allocate}
use graphics_drivers_wip.Device.Session.{set_mode, set_pointer, drop_frame, run, run-IsSynced}

-- The control queue of the driver, on a machine whose memory is shifted, with a pool of free buffers.
abbrev pool_queue : CtrlQueueApi
pool_queue = ctrl_queue shifted memory_queue

abbrev pool_laws : QueueLaws pool_queue
pool_laws = ctrl_laws shifted memory_queue

abbrev buffers : List ℕ
buffers =
    0x1000 ∷ 0x2000 ∷ 0x3000 ∷ 0x4000 ∷ 0x5000 ∷ 0x6000 ∷ 0x7000 ∷ 0x9000 ∷ 0xA000 ∷ 0xB000 ∷ 0xC000
    ∷ 0xD000 ∷ 0xE000 ∷ 0xF000 ∷ 0x11000 ∷ 0x12000 ∷ 0x13000 ∷ 0x14000 ∷ 0x15000 ∷ 0x16000 ∷ 0x17000
    ∷ []

readable : (a : ℕ) → a ≢ 0 → IsReadable shifted memory_queue a
readable a n = record { buffer = n; command = refl; response = λ c. refl }

NonZero : List ℕ → Type 0
NonZero [] = Unit {0}
NonZero (a ∷ l) = (a ≢ 0) × NonZero l

all_readable : (l : List ℕ) → NonZero l → AllReadable shifted memory_queue l
unfolding NonZero
all_readable [] n = tt
all_readable (a ∷ l) (n, ns) = (readable a n, all_readable l ns)

buffers-NonZero : NonZero buffers
unfolding NonZero
buffers-NonZero = omega arith

abbrev full : Ctrl shifted memory_queue
full = record idle { pool = record idle.pool { free_bufs = buffers; count = 21 } }

abbrev full_queue : Ctrl shifted memory_queue × List Command
full_queue = (full, [])

abbrev device : Gpu bits_api pool_queue
device = record {
  idr = one;
  ctrl = full_queue;
  frame_buf = none;
  cursor_buf = none;
  memory = λ _. 0;
}

abbrev info : ModeInfo
info = record {
  mode_index = 0;
  vis_screen_width = 1024;
  vis_screen_height = 768;
  screen_stride = 4096;
  bits_per_plane = 32;
  x_millimeter = 361;
  y_millimeter = 270;
}

abbrev modes : Modes
modes = record {
  mode_info = info ∷ info ∷ info ∷ info ∷ info ∷ info ∷ [];
  mode_numbers = 0 ∷ 1 ∷ 0 ∷ 0 ∷ 0 ∷ 0 ∷ [];
  mode_count = 2;
  current_mode = 0;
  custom_mode = 0;
}

two_modes : (i : ℕ) → i < 2 → get_elem? modes.mode_numbers i ≡ some i
two_modes zero h = refl
two_modes (suc zero) h = refl
two_modes (suc (suc i)) h = absurd (omega arith)

modes-IsTable : IsTable modes
modes-IsTable = record {
  infos = refl;
  numbers = refl;
  least = omega arith;
  most = omega arith;
  custom = inr refl;
  numbered = two_modes;
}

abbrev granted : Answers
granted = record {
  v_addr = 0x10000;
  mdl = true;
  locked = true;
  sg_list = true;
  ents = 0x8000;
  is_valid = true;
  get_physical_address = λ a. 0x100000 + a;
}

-- The memory of the resource cannot be had.
abbrev refused : Answers
refused = record granted { v_addr = 0 }

abbrev cur : CurrentMode
cur = record {
  format = x8r8g8b8;
  rotation = identity;
  physic_address = 0;
  frame_ptr = 0;
  frame_buffer_is_active = false;
}

abbrev arrow : PointerShape
arrow = record {
  color = true;
  monochrome = false;
  width = 2;
  height = 2;
  pitch = 8;
  pixels = 0x5000;
}

granted-IsAnswered : IsAnswered granted
granted-IsAnswered = record { sg_list = refl; ents = omega arith; lock = refl }

refused-IsAnswered : IsAnswered refused
refused-IsAnswered = record { sg_list = refl; ents = omega arith; lock = refl }

-- The entries of a frame buffer take up three pages, and those of a cursor one.
frame_pages : length (made granted (u32 (4096 * 768))).elements ≡ 768
frame_pages = refl

cursor_pages : length (made refused (64 * 64 * 4)).elements ≡ 4
cursor_pages = refl

abbrev Fitting : ℕ → ℕ → Type 0
Fitting r n = FitsData shifted memory_queue 0x8000 (attach r n)

fits_frame : (r : ℕ) → Fitting r 768
fits_frame r = record { room = omega arith; aligned = refl; readable = all_valid 3 0x8000 }

fits_cursor : (r : ℕ) → Fitting r 4
fits_cursor r = record { room = omega arith; aligned = refl; readable = all_valid 1 0x8000 }

frame-Attaches :
    (i : ModeInfo)
    → get_elem? modes.mode_info 1 ≡ some i
    → Attaches bits_api bits_laws pool_queue pool_laws granted
        (u32 (i.screen_stride * i.vis_screen_height))
frame-Attaches i e =
    let same : info ≡ i = cc in
    subst
      (λ (x : ModeInfo).
        Attaches bits_api bits_laws pool_queue pool_laws granted
          (u32 (x.screen_stride * x.vis_screen_height)))
      same (λ r. subst (Fitting r) (sym frame_pages) (fits_frame r))

cursor-Attaches : Attaches bits_api bits_laws pool_queue pool_laws refused (64 * 64 * 4)
cursor-Attaches = λ r. subst (Fitting r) (sym cursor_pages) (fits_cursor r)

full-Takes : Takes pool_queue pool_laws 21 full_queue
full-Takes =
    ctrl_queue-Takes shifted memory_queue shifted_laws buffers full_queue refl
      (all_readable buffers buffers-NonZero)

run-IsSynced_example :
    (t : Gpu bits_api pool_queue) × (ids : List ℕ) × (h : Host) × (run bits_api bits_laws pool_queue
        pool_laws modes
        (set_mode 1 granted cur ∷ set_pointer refused arrow cur ∷ drop_frame ∷ [])
        device
      ≡ done t)
    × IsSynced bits_api bits_laws pool_queue pool_laws 0 t ids h
run-IsSynced_example =
    run-IsSynced bits_api bits_laws pool_queue pool_laws modes
      (set_mode 1 granted cur ∷ set_pointer refused arrow cur ∷ drop_frame ∷ []) device
      modes-IsTable (granted-IsAnswered, frame-Attaches, (refused-IsAnswered, cursor-Attaches, tt))
      one-Represents refl refl full-Takes refl refl (omega arith)

device-IsSynced : IsSynced bits_api bits_laws pool_queue pool_laws 21 device [] no_resources
device-IsSynced = record {
  ids_in_use = one-Represents;
  reserved = refl;
  accepted = (refl, full-Takes);
  resources = λ r. refl;
  frame = tt;
  cursor = tt;
  separate = tt;
}

refused-none : obj_init refused (u32 (info.screen_stride * info.vis_screen_height)) ≡ done none
unfolding obj_init
refused-none = refl

create_frame_buffer-leaks_example :
    let r = (get_id bits_api device.idr).0 in
    (t : Gpu bits_api pool_queue) × (create_frame_buffer bits_api pool_queue refused info cur device
      ≡ done (cur, t))
    × IsSynced bits_api bits_laws pool_queue pool_laws 20 t (r ∷ []) (with_resource r no_resources)
    × (t.frame_buf ≡ device.frame_buf)
    × (t.cursor_buf ≡ device.cursor_buf)
create_frame_buffer-leaks_example =
    create_frame_buffer-leaks bits_api bits_laws pool_queue pool_laws 20 refused info cur device []
      no_resources device-IsSynced
      (free_id bits_api bits_laws pool_queue pool_laws 21 device [] no_resources device-IsSynced
        (omega arith))
      refl refused-none

ctrl_queue-Takes_example : Takes pool_queue pool_laws 21 full_queue
ctrl_queue-Takes_example =
    ctrl_queue-Takes shifted memory_queue shifted_laws buffers full_queue refl
      (all_readable buffers buffers-NonZero)

-- The pages of the memory cannot be locked.
abbrev unlocked : Answers
unlocked = record granted { locked = false }

obj_close-obj_allocate_example : Frees 1 (obj_close (obj_allocate unlocked)).calls
obj_close-obj_allocate_example = obj_close-obj_allocate unlocked
