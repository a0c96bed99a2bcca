-- ===== src/Queue/Samples.antt =====
-- A machine whose memory lies shifted by a megabyte, a virtqueue that remembers what it was given, and
-- a control queue of viogpu/common/viogpu_queue.cpp on them with two free buffers.
use graphics_drivers_wip.Base.{ℕ, zero, suc, page_size, ◌+◌, refl, true, none, List, [], ◌∷◌, arith}
use graphics_drivers_wip.Pool.{zero_vbuffer}
use graphics_drivers_wip.Queue.{Sg, MemoryApi, VirtQueueApi, Ctrl}
use graphics_drivers_wip.Queue.Command.{attach}
use graphics_drivers_wip.Queue.Scatter.{MemoryLaws, ValidPages}
use graphics_drivers_wip.Queue.Post.{IsReady}

abbrev pub shifted : MemoryApi
shifted = record { is_address_valid = λ _. true; get_physical_address = λ a. 0x100000 + a }

pub shifted_laws : MemoryLaws shifted
shifted_laws = record { contiguous = λ p o h k. omega arith }

pub all_valid : (n buf : ℕ) → ValidPages shifted n buf
all_valid zero buf = tt
all_valid (suc n) buf = (refl, all_valid n (buf + page_size))

abbrev pub memory_queue : VirtQueueApi
memory_queue = record {
  VirtQueue = List (List Sg × ℕ);
  add_buf = λ l o i token q. (0, (l, token) ∷ q);
  kick_always = λ q. q;
  get_used_buf = λ q. (none, q);
}

abbrev pub idle : Ctrl shifted memory_queue
idle = record {
  pool = record {
    free_bufs = 0x1000 ∷ 0x2000 ∷ [];
    count = 2;
    vbuf = λ _. zero_vbuffer;
    deleted = [];
  };
  vq = [];
  command = λ _. [];
}

pub short-IsReady : IsReady shifted memory_queue 0x1000 0x8000 (attach 3 512)
short-IsReady = record {
  buffer = omega arith;
  command = refl;
  response = refl;
  aligned = refl;
  readable = all_valid 2 0x8000;
}
