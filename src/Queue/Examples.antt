-- ===== src/Queue/Examples.antt =====
-- The theorems about the control queue of viogpu/common/viogpu_queue.cpp on a machine whose memory
-- lies shifted by a megabyte and a virtqueue that remembers what it was given.
use graphics_drivers_wip.Base.{
  ◌≡◌, refl, false, some, [], ◌∷◌, done, overrun, out_of_fuel, arith, true,
}
use graphics_drivers_wip.Queue.{SgList, MemoryApi, Ctrl, added, add_data}
use graphics_drivers_wip.Queue.Command.{
  create, attach, encode, decode, decode-encode, hdr, cmd_get_display_info,
}
use graphics_drivers_wip.Queue.Scatter.{add_data_hangs}
use graphics_drivers_wip.Queue.Delivery.{Describes}
use graphics_drivers_wip.Queue.Post.{post, IsReady, post_lem, post-overruns}
use graphics_drivers_wip.Queue.Ask.{ask_display_info, ask_display_info_lem}
use graphics_drivers_wip.Queue.Samples.{
  shifted, shifted_laws, all_valid, memory_queue, idle, short-IsReady,
}

decode-encode_example : decode (encode (create 3 1 1024 768)) ≡ some (create 3 1 1024 768)
decode-encode_example = decode-encode (create 3 1 1024 768)

post_example :
    (t : Ctrl shifted memory_queue) × (post shifted memory_queue 0x8000 (attach 3 512) idle
      ≡ done t)
    × (t.pool.free_bufs ≡ 0x2000 ∷ [])
    × (decode (t.command 0x1000) ≡ some (attach 3 512))
    × ((l : SgList) × (t.vq
          ≡ (added shifted memory_queue
              (memory_queue.add_buf l.elems l.outcnt l.incnt 0x1000 idle.vq)).1)
        × Describes shifted (t.pool.vbuf 0x1000) l)
post_example =
    post_lem shifted memory_queue shifted_laws 0x1000 0x8000 (0x2000 ∷ []) (attach 3 512) idle refl
      short-IsReady (omega arith)

-- The backing of a frame buffer of 2560 x 1600 pixels of 32 bits has 4000 pages.
large-IsReady : IsReady shifted memory_queue 0x1000 0x8000 (attach 3 4000)
large-IsReady = record {
  buffer = omega arith;
  command = refl;
  response = refl;
  aligned = refl;
  readable = all_valid 16 0x8000;
}

post-overruns_example : post shifted memory_queue 0x8000 (attach 3 4000) idle ≡ overrun
post-overruns_example =
    post-overruns shifted memory_queue 0x1000 0x8000 (0x2000 ∷ []) (attach 3 4000) idle refl
      large-IsReady (omega arith)

abbrev paged_out : MemoryApi
paged_out = record { is_address_valid = λ _. false; get_physical_address = λ a. a }

add_data_hangs_example :
    add_data paged_out 1000 0x8000 64 (record { elems = []; outcnt = 0; incnt = 0 }) ≡ out_of_fuel
add_data_hangs_example =
    add_data_hangs paged_out 1000 0x8000 64 (record { elems = []; outcnt = 0; incnt = 0 })
      (omega arith) refl

ask_display_info_example :
    (t : Ctrl shifted memory_queue) × (ask_display_info shifted memory_queue 0x9000 0x7000 idle
      ≡ done (true, 0x1000, t))
    × (t.pool.free_bufs ≡ 0x2000 ∷ [])
    × (t.command 0x1000 ≡ hdr cmd_get_display_info)
    × ((t.pool.vbuf 0x1000).event ≡ 0x7000)
    × ((t.pool.vbuf 0x1000).resp_buf ≡ 0x9000)
    × ((t.pool.vbuf 0x1000).resp_size ≡ 408)
    × ((l : SgList) × (t.vq
          ≡ (added shifted memory_queue
              (memory_queue.add_buf l.elems l.outcnt l.incnt 0x1000 idle.vq)).1)
        × Describes shifted (t.pool.vbuf 0x1000) l)
ask_display_info_example =
    ask_display_info_lem shifted memory_queue shifted_laws 0x1000 (0x2000 ∷ []) 0x9000 0x7000 idle
      refl (omega arith) (omega arith) refl refl
