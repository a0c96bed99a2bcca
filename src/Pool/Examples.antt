-- ===== src/Pool/Examples.antt =====
-- The theorems about the VioGpuBuf of viogpu/common/viogpu_queue.cpp on a pool of three buffers,
-- of which the second could not be allocated.
use graphics_drivers_wip.Base.{ℕ, ◌≡◌, ◌≢◌, refl, List, [], ◌∷◌, arith}
use graphics_drivers_wip.Pool.{Pool, zero_vbuffer, init, get_buf, free_buf}
use graphics_drivers_wip.Pool.Layout.{owned, free_buf_releases}
use graphics_drivers_wip.Pool.Conservation.{
  Conserves, Request, take, give, step, run, run-init-Conserves,
}

abbrev empty : Pool
empty = record { free_bufs = []; count = 0; vbuf = λ _. zero_vbuffer; deleted = [] }

abbrev allocated : List ℕ
allocated = 0x1000 ∷ 0 ∷ 0x2000 ∷ []

abbrev history : List Request
history = take 40 24 0 ∷ take 24 408 0x9000 ∷ take 40 24 0 ∷ give 0x1000 ∷ []

history_runs : (run ((init allocated empty).1, []) history).1 ≡ 0x2000 ∷ []
unfolding init run step get_buf free_buf
history_runs = refl

run-init-Conserves_example :
    let s = run ((init allocated empty).1, []) history in Conserves (0x1000 ∷ 0x2000 ∷ []) s.0 s.1
run-init-Conserves_example = run-init-Conserves allocated empty history refl (omega arith)

ready : Conserves (0x1000 ∷ 0x2000 ∷ []) (init allocated empty).1 []
unfolding run
ready = run-init-Conserves allocated empty [] refl (omega arith)

-- A buffer in use, with data and a long response.
abbrev busy : Pool
busy = record empty {
  vbuf = λ _. record {
    buf = 0x1048;
    size = 24;
    data_buf = 0x7000;
    data_size = 64;
    resp_buf = 0x9000;
    resp_size = 408;
    event = 0;
  };
}

free_buf_example :
    let q = free_buf 0x1000 busy in
    (q.deleted ≡ 0x7000 ∷ 0x9000 ∷ [])
    × (owned (q.vbuf 0x1000) ≡ [])
    × (q.free_bufs ≡ 0x1000 ∷ [])
    × (q.count ≡ 0)
    × ((b : ℕ) → b ≢ 0x1000 → q.vbuf b ≡ busy.vbuf b)
free_buf_example = free_buf_releases busy 0x1000
