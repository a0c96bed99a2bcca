-- ===== src/Queue/Ask.antt =====
-- AskDisplayInfo of CtrlQueue in viogpu/common/viogpu_queue.cpp, up to its wait for the event.
use graphics_drivers_wip.Base.{
  ==_false, ℕ, ◌+◌, ◌*◌, ◌≡◌, ◌≢◌, refl, Bool, true, false, List, ◌∷◌, if◌then◌else◌, ◌==◌, Outcome,
  done, null_pointer, ◌>>=◌, arith,
}
use graphics_drivers_wip.Pool.{Vbuffer, get_buf, prepared, put_vbuf, sizeof_vbuffer}
use graphics_drivers_wip.Pool.Layout.{get_buf-head}
use graphics_drivers_wip.Queue.{
  SgList, MemoryApi, VirtQueueApi, Ctrl, added, queue_buffer, put_command,
}
use graphics_drivers_wip.Queue.Command.{hdr, cmd_get_display_info}
use graphics_drivers_wip.Queue.Scatter.{MemoryLaws}
use graphics_drivers_wip.Queue.Delivery.{IsSendable, Describes, queue_buffer_delivers}

-- sizeof(GPU_RESP_DISP_INFO): the header and 16 entries of 24 bytes.
abbrev pub disp_info_size : ℕ
disp_info_size = 24 + 16 * 24

module _ (mem : MemoryApi) (api : VirtQueueApi) where
  -- `resp_buf` is the memory for the response, 0 if it cannot be had, and `event` the address of the
  -- event that the caller waits for. The result is what is returned, and the buffer.
  unfoldable pub ask_display_info : ℕ → ℕ → Ctrl mem api → Outcome (Bool × ℕ × Ctrl mem api)
  unfolding queue_buffer
  ask_display_info resp_buf event c =
      let (a, p) = get_buf 24 disp_info_size resp_buf c.pool in
      if resp_buf == 0
      then done (false, 0, c)
      else if a == 0
      then null_pointer
      else (let v = record (p.vbuf a) { event = event } in
          queue_buffer mem api 2 a v c.vq >>= λ r. done (
            true,
            a,
            record {
              pool = record p { vbuf = put_vbuf a v p.vbuf };
              vq = r.1;
              command = put_command mem api a (hdr cmd_get_display_info) c.command;
            },
          ))

  abbrev asking : ℕ → ℕ → ℕ → Vbuffer
  asking a resp_buf event = record (prepared a 24 disp_info_size resp_buf) { event = event }

  asking-IsSendable :
      (a resp_buf event : ℕ)
      → mem.is_address_valid (a + sizeof_vbuffer) ≡ true
      → mem.is_address_valid resp_buf ≡ true
      → IsSendable mem (asking a resp_buf event)
  asking-IsSendable a resp_buf event v w = record {
    has_command = omega arith;
    short_command = omega arith;
    valid_command = v;
    has_response = omega arith;
    short_response = omega arith;
    valid_response = w;
    aligned_data = refl;
    valid_data = tt;
  }

  -- With memory for the response, and a first free buffer and that memory readable, AskDisplayInfo
  -- takes the buffer out of the pool, marks it with the event, and gives the device a list
  -- that describes the command and all 408 bytes of that memory for the response.
  pub ask_display_info_lem :
      (laws : MemoryLaws mem) (a : ℕ) (rest : List ℕ) (resp_buf event : ℕ) (s : Ctrl mem api)
      → s.pool.free_bufs ≡ a ∷ rest
      → a ≢ 0
      → resp_buf ≢ 0
      → mem.is_address_valid (a + sizeof_vbuffer) ≡ true
      → mem.is_address_valid resp_buf ≡ true
      → (t : Ctrl mem api) × (ask_display_info resp_buf event s ≡ done (true, a, t))
        × (t.pool.free_bufs ≡ rest)
        × (t.command a ≡ hdr cmd_get_display_info)
        × ((t.pool.vbuf a).event ≡ event)
        × ((t.pool.vbuf a).resp_buf ≡ resp_buf)
        × ((t.pool.vbuf a).resp_size ≡ 408)
        × ((l : SgList) × (t.vq ≡ (added mem api (api.add_buf l.elems l.outcnt l.incnt a s.vq)).1)
            × Describes mem (t.pool.vbuf a) l)
  unfolding ask_display_info queue_buffer
  ask_display_info_lem laws a rest resp_buf event s e n m v w =
      let same : (a == a) ≡ true = ground arith in
      let (l, q, d) =
        queue_buffer_delivers mem api laws 2 a (asking a resp_buf event) s.vq
          (asking-IsSendable a resp_buf event v w) (omega arith) (omega arith) in
      (
        record {
          pool = record s.pool {
            free_bufs = rest;
            vbuf =
                put_vbuf a (asking a resp_buf event)
                  (put_vbuf a (prepared a 24 disp_info_size resp_buf) s.pool.vbuf);
          };
          vq = (added mem api (api.add_buf l.elems l.outcnt l.incnt a s.vq)).1;
          command = put_command mem api a (hdr cmd_get_display_info) s.command;
        },
        rw
            (
              get_buf-head s.pool a rest 24 disp_info_size resp_buf e,
              ==_false a 0 n,
              ==_false resp_buf 0 m,
              same,
            )
            (rw q refl),
        refl,
        rw same refl,
        rw same refl,
        rw same refl,
        rw same refl,
        (l, refl, rw same d),
      )
