-- ===== src/Queue.antt =====
-- viogpu/common/viogpu_queue.cpp: the control queue. QueueBufferLocked describes a buffer of the
-- pool to the device as a scatter-gather list, and the commands are written into such buffers.
-- The spin lock makes each queue operation one step. ASSERT and DbgPrint have no effect here.
pub mod Command
pub mod Scatter
pub mod Delivery
pub mod Post
pub mod Ask
pub mod Samples
mod Examples
use graphics_drivers_wip.Base.{
  ℕ, zero, suc, ◌+◌, ◌-◌, ◌*◌, ◌/◌, ◌&&◌, not, Bool, Option, none, some, List, [], ◌∷◌, ◌++◌, ltb,
  leb, ◌==◌, if◌then◌else◌, page_size, u32, length, Outcome, done, null_pointer, overrun,
  out_of_fuel, ◌>>=◌,
}
use graphics_drivers_wip.Pool.{Pool, Vbuffer, get_buf, put_vbuf}
use Command.{
  create_2d, unref, detach_backing, set_scanout, flush, transfer_to_host_2d, attach_backing,
}

-- VirtIOBufferDescriptor
pub record Sg : Type 0 where
  pub phys_addr : ℕ
  pub len : ℕ

-- MmIsAddressValid and MmGetPhysicalAddress.
pub record MemoryApi : Type 0 where
  pub is_address_valid : ℕ → Bool
  pub get_physical_address : ℕ → ℕ

-- The virtqueue of the VirtIO library. `add_buf` takes the list, the numbers of elements that the
-- device reads and writes, and the token; its result is 0 if the buffer was added.
pub record VirtQueueApi : Type 1 where
  pub VirtQueue : Type 0
  pub add_buf : List Sg → ℕ → ℕ → ℕ → VirtQueue → ℕ × VirtQueue
  pub kick_always : VirtQueue → VirtQueue
  pub get_used_buf : VirtQueue → Option ℕ × VirtQueue

abbrev pub min_page : ℕ → ℕ
min_page n = if ltb n page_size then n else page_size

-- The elements written so far, and how many of them the device reads and writes.
pub record SgList : Type 0 where
  pub elems : List Sg
  pub outcnt : ℕ
  pub incnt : ℕ

-- VirtIOBufferDescriptor sg[16]
abbrev pub sg_size : ℕ
sg_size = 16

module _ (mem : MemoryApi) where
  open mem use {is_address_valid, get_physical_address}

  pub build_sg_element : ℕ → ℕ → Option Sg
  build_sg_element buf size =
      if not (size == 0) && is_address_valid buf
      then some (record { phys_addr = get_physical_address buf; len = min_page size })
      else none

  -- A write to sg[outcnt + incnt], which the code does not check against the end of the array.
  abbrev pub put_out : Sg → SgList → Outcome SgList
  put_out e l =
      if ltb (l.outcnt + l.incnt) sg_size
      then done (record l { elems = l.elems ++ (e ∷ []); outcnt = l.outcnt + 1 })
      else overrun

  abbrev pub put_in : Sg → SgList → Outcome SgList
  put_in e l =
      if ltb (l.outcnt + l.incnt) sg_size
      then done (record l { elems = l.elems ++ (e ∷ []); incnt = l.incnt + 1 })
      else overrun

  pub add_command : ℕ → ℕ → SgList → Outcome SgList
  unfolding build_sg_element
  add_command buf size l = elim (build_sg_element buf size) [ none ↦ done l | some e ↦ put_out e l ]

  pub add_response : ℕ → ℕ → SgList → Outcome SgList
  unfolding build_sg_element
  add_response buf size l =
      if size == 0
      then done l
      else (elim (build_sg_element buf size) [ none ↦ done l | some e ↦ put_in e l ])

  -- `while (data_size)`. An address that is not valid changes neither variable.
  pub add_data : ℕ → ℕ → ℕ → SgList → Outcome SgList
  unfolding build_sg_element
  add_data zero buf size l = out_of_fuel
  add_data (suc fuel) buf size l =
      let next = λ (l' : SgList). add_data fuel (buf + page_size) (size - min_page size) l' in
      let again = add_data fuel buf size l in
      if size == 0
      then done l
      else (elim (build_sg_element buf size) [ none ↦ again | some e ↦ put_out e l >>= next ])

  -- The list that QueueBufferLocked makes of a buffer.
  pub scatter : ℕ → Vbuffer → Outcome SgList
  unfolding add_command add_data add_response
  scatter fuel v = do
    l₁ ← add_command v.buf v.size (record { elems = []; outcnt = 0; incnt = 0 })
    l₂ ← add_data fuel v.data_buf v.data_size l₁
    add_response v.resp_buf v.resp_size l₂

  module _ (api : VirtQueueApi) where
    open api use {VirtQueue, add_buf, kick_always}

    abbrev pub added : ℕ × VirtQueue → ℕ × VirtQueue
    added (ret, vq) = if ret == 0 then (ret, kick_always vq) else (ret, vq)

    pub queue_buffer : ℕ → ℕ → Vbuffer → VirtQueue → Outcome (ℕ × VirtQueue)
    unfolding scatter
    queue_buffer fuel token v vq = do
      l ← scatter fuel v
      done (added (add_buf l.elems l.outcnt l.incnt token vq))

    -- The pool, the queue, and the words of the command that stands in each buffer.
    pub record Ctrl : Type 0 where
      pub pool : Pool
      pub vq : VirtQueue
      pub command : ℕ → List ℕ

    abbrev pub put_command : ℕ → List ℕ → (ℕ → List ℕ) → ℕ → List ℕ
    put_command a w f b = if b == a then w else f b

    -- AllocCmd for a command of these words, clearing and filling it, setting the buffer's data, and
    -- QueueBuffer, whose result is ignored. Without a buffer the code clears memory at the null
    -- pointer. The loop gets the rounds that the data needs.
    pub send : List ℕ → ℕ → ℕ → Ctrl → Outcome Ctrl
    unfolding queue_buffer
    send words data_buf data_size c =
        let (a, p) = get_buf (4 * length words) 24 0 c.pool in
        if a == 0
        then null_pointer
        else (let v = record (p.vbuf a) { data_buf = data_buf; data_size = data_size } in
            queue_buffer (data_size / page_size + 2) a v c.vq >>= λ r. done (record {
              pool = record p { vbuf = put_vbuf a v p.vbuf };
              vq = r.1;
              command = put_command a words c.command;
            }))

    pub create_resource : ℕ → ℕ → ℕ → ℕ → Ctrl → Outcome Ctrl
    unfolding send
    create_resource res_id format width height = send (create_2d res_id format width height) 0 0

    pub unref_resource : ℕ → Ctrl → Outcome Ctrl
    unfolding send
    unref_resource res_id = send (unref res_id) 0 0

    pub inval_backing : ℕ → Ctrl → Outcome Ctrl
    unfolding send
    inval_backing res_id = send (detach_backing res_id) 0 0

    pub queue_set_scanout : ℕ → ℕ → ℕ → ℕ → ℕ → ℕ → Ctrl → Outcome Ctrl
    unfolding send
    queue_set_scanout scan_id res_id width height x y =
        send (set_scanout scan_id res_id width height x y) 0 0

    pub res_flush : ℕ → ℕ → ℕ → ℕ → ℕ → Ctrl → Outcome Ctrl
    unfolding send
    res_flush res_id width height x y = send (flush res_id width height x y) 0 0

    pub queue_transfer_to_host_2d : ℕ → ℕ → ℕ → ℕ → ℕ → ℕ → Ctrl → Outcome Ctrl
    unfolding send
    queue_transfer_to_host_2d res_id offset width height x y =
        send (transfer_to_host_2d res_id offset width height x y) 0 0

    -- `ents` is the address of the entries, 16 bytes each.
    pub queue_attach_backing : ℕ → ℕ → ℕ → Ctrl → Outcome Ctrl
    unfolding send
    queue_attach_backing res_id ents nents =
        send (attach_backing res_id nents) ents (u32 (16 * nents))
