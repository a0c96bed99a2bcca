-- ===== src/Cursor/Examples.antt =====
-- The theorems about the pointer commands of viogpu/viogpudo/viogpudo.cpp on the sample machine.
use graphics_drivers_wip.Base.{◌+◌, ◌≡◌, refl, true, some, [], ◌∷◌, if◌then◌else◌, done, arith}
use graphics_drivers_wip.Pool.{sizeof_vbuffer}
use graphics_drivers_wip.Queue.Scatter.{element}
use graphics_drivers_wip.Queue.Samples.{shifted, memory_queue, idle}
use graphics_drivers_wip.Device.{Obj}
use graphics_drivers_wip.Cursor.{Crsr, cmd_move_cursor, set_pointer_position}
use graphics_drivers_wip.Cursor.Pointer.{read_cursor, is_shown, set_pointer_position_lem}

abbrev crsr : Crsr shifted memory_queue
crsr = record { pool = idle.pool; vq = []; command = λ _. [] }

abbrev arrow : Obj
arrow = record { hw_res = 2; v_addr = 0x9000; elements = [] }

set_pointer_position_example :
    (t : Crsr shifted memory_queue) × (set_pointer_position shifted memory_queue
        (some arrow)
        true
        100
        50
        1024
        768
        crsr
      ≡ done t)
    × (t.pool.free_bufs ≡ 0x2000 ∷ [])
    × (t.vq
        ≡ memory_queue.kick_always
            (memory_queue.add_buf
              (element shifted (0x1000 + sizeof_vbuffer) 56 ∷ [])
              1
              0
              0x1000
              crsr.vq).1)
    × (read_cursor (t.command 0x1000) ≡ record {
      type = cmd_move_cursor;
      x = (if is_shown true 100 50 1024 768 then 100 else 0);
      y = (if is_shown true 100 50 1024 768 then 50 else 0);
      res_id = 2;
    })
set_pointer_position_example =
    set_pointer_position_lem shifted memory_queue 0x1000 (0x2000 ∷ []) arrow true 100 50 1024 768
      crsr refl (omega arith) refl
