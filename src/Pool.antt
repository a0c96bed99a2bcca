-- ===== src/Pool.antt =====
-- viogpu/common/viogpu_queue.cpp: VioGpuBuf, the pool of command buffers (GPU_VBUFFER).
-- A pointer is its address, 0 the null pointer. The spin lock makes each list operation one step.
-- ASSERT has no effect here.
pub mod Layout
pub mod Conservation
mod Examples
use graphics_drivers_wip.Base.{
  ℕ, ◌+◌, ◌&&◌, not, Bool, List, [], ◌∷◌, ◌++◌, ltb, leb, ◌==◌, if◌then◌else◌, u32, sub32,
}

pub record Vbuffer : Type 0 where
  pub buf : ℕ
  pub size : ℕ
  pub data_buf : ℕ
  pub data_size : ℕ
  pub resp_buf : ℕ
  pub resp_size : ℕ
  pub event : ℕ

abbrev pub zero_vbuffer : Vbuffer
zero_vbuffer = record {
  buf = 0;
  size = 0;
  data_buf = 0;
  data_size = 0;
  resp_buf = 0;
  resp_size = 0;
  event = 0;
}

-- sizeof(struct virtio_gpu_vbuffer) for 64-bit pointers, with the list entry at its end.
abbrev pub sizeof_vbuffer : ℕ
sizeof_vbuffer = 72

abbrev pub max_inline_cmd_size : ℕ
max_inline_cmd_size = 96

abbrev pub max_inline_resp_size : ℕ
max_inline_resp_size = 24

abbrev pub vbuffer_size : ℕ
vbuffer_size = sizeof_vbuffer + max_inline_cmd_size + max_inline_resp_size

-- The free list has its head first. `vbuf` is what stands at a buffer's address, and `deleted` the
-- addresses given to `delete []`, the last one first.
pub record Pool : Type 0 where
  pub free_bufs : List ℕ
  pub count : ℕ
  pub vbuf : ℕ → Vbuffer
  pub deleted : List ℕ

abbrev pub put_vbuf : ℕ → Vbuffer → (ℕ → Vbuffer) → ℕ → Vbuffer
put_vbuf a v f b = if b == a then v else f b

fill : List ℕ → Pool → Pool
fill [] p = p
fill (a ∷ rest) p = fill rest (
    if a == 0
    then p
    else record p { free_bufs = p.free_bufs ++ (a ∷ []); count = u32 (p.count + 1) })

-- The list holds the results of the `cnt` allocations, 0 for one that fails.
unfoldable pub init : List ℕ → Pool → Bool × Pool
unfolding fill
init allocated p = let q = fill allocated (record p { free_bufs = [] }) in (ltb 0 q.count, q)

drain : List ℕ → Pool → Pool
drain [] p = p
drain (a ∷ rest) p =
    drain rest (record p { free_bufs = rest; count = sub32 p.count 1; deleted = a ∷ p.deleted })

unfoldable pub close : Pool → Pool
unfolding drain
close p = drain p.free_bufs p

-- The buffer is cleared, and its response goes behind the command if it is short enough.
abbrev pub prepared : ℕ → ℕ → ℕ → ℕ → Vbuffer
prepared a size resp_size resp_buf = record zero_vbuffer {
  buf = a + sizeof_vbuffer;
  size = size;
  resp_size = resp_size;
  resp_buf = (if leb resp_size max_inline_resp_size then a + sizeof_vbuffer + size else resp_buf);
}

unfoldable take_head : List ℕ → ℕ → ℕ → ℕ → Pool → ℕ × Pool
take_head [] size resp_size resp_buf p = (0, p)
take_head (a ∷ rest) size resp_size resp_buf p = (
  a,
  record p { free_bufs = rest; vbuf = put_vbuf a (prepared a size resp_size resp_buf) p.vbuf },
)

unfoldable pub get_buf : ℕ → ℕ → ℕ → Pool → ℕ × Pool
unfolding take_head
get_buf size resp_size resp_buf p = take_head p.free_bufs size resp_size resp_buf p

delete_resp : ℕ → Pool → Pool
delete_resp a p =
    let v = p.vbuf a in
    if not (v.resp_buf == 0) && ltb max_inline_resp_size v.resp_size
    then record p {
      deleted = v.resp_buf ∷ p.deleted;
      vbuf = put_vbuf a (record v { resp_buf = 0 }) p.vbuf;
    }
    else p

delete_data : ℕ → Pool → Pool
delete_data a p =
    let v = p.vbuf a in
    if not (v.data_buf == 0) && not (v.data_size == 0)
    then record p {
      deleted = v.data_buf ∷ p.deleted;
      vbuf = put_vbuf a (record v { data_buf = 0; data_size = 0 }) p.vbuf;
    }
    else p

unfoldable pub free_buf : ℕ → Pool → Pool
unfolding delete_resp delete_data
free_buf a p =
    let q = delete_data a (delete_resp a p) in record q { free_bufs = q.free_bufs ++ (a ∷ []) }
