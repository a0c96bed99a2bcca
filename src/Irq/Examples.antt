-- ===== src/Irq/Examples.antt =====
-- The theorems about the interrupt handling of viogpu/viogpudo/viogpudo.cpp on queues that are the lists
-- of their used buffers.
use graphics_drivers_wip.Base.{
  ℕ, ◌+◌, ◌≡◌, refl, true, false, Option, none, some, List, [], ◌∷◌, ◌++◌, occurrences, done, ◌==◌,
  if◌then◌else◌, arith,
}
use graphics_drivers_wip.Pool.{zero_vbuffer, free_buf}
use graphics_drivers_wip.Queue.{VirtQueueApi}
use graphics_drivers_wip.Irq.{
  Works, no_works, Shared, interrupt_routine, drain_ctrl, dpc_routine, handle_ctrl,
}
use graphics_drivers_wip.Irq.Drain.{UsedLaws}
use graphics_drivers_wip.Irq.Service.{seen, Ends, dpc_routine_lem}
use graphics_drivers_wip.Irq.Release.{silent, awaited, drain_ctrl_releases}

abbrev pop : List ℕ → Option ℕ × List ℕ
pop [] = (none, [])
pop (a ∷ l) = (some a, l)

abbrev used_queue : VirtQueueApi
used_queue = record {
  VirtQueue = List ℕ;
  add_buf = λ l o i token q. (0, q);
  kick_always = λ q. q;
  get_used_buf = pop;
}

pop-none : (q : List ℕ) → q ≡ [] → (pop q).0 ≡ none
pop-none q e = rw e refl

pop-rest : (q : List ℕ) → q ≡ [] → (pop q).1 ≡ []
pop-rest q e = rw e refl

pop-some : (q : List ℕ) (a : ℕ) (rest : List ℕ) → q ≡ a ∷ rest → (pop q).0 ≡ some a
pop-some q a rest e = rw e refl

pop-later : (q : List ℕ) (a : ℕ) (rest : List ℕ) → q ≡ a ∷ rest → (pop q).1 ≡ rest
pop-later q a rest e = rw e refl

abbrev used_laws : UsedLaws used_queue
used_laws = record {
  used = λ q. q;
  get-none = pop-none;
  used-none = pop-rest;
  get-some = pop-some;
  used-some = pop-later;
}

-- Two commands have come back; a thread waits at event 9 for the second.
abbrev busy : Shared used_queue
busy = record {
  pending = no_works;
  ctrl = 0x1000 ∷ 0x2000 ∷ [];
  crsr = 0x3000 ∷ [];
  pool = record {
    free_bufs = [];
    count = 3;
    vbuf = λ a. record zero_vbuffer { event = if a == 0x2000 then 9 else 0 };
    deleted = [];
  };
  cmd_type = λ a. if a == 0x2000 then 0x0100 else 0x0101;
  events = [];
  config_event = false;
  dpcs = 0;
}

abbrev interrupted : Shared used_queue
interrupted = record busy { pending = record { display = true; cursor = true; change = false } }

change : Works
change = record { display = false; cursor = false; change = true }

busy_dpc :
    (t : Shared used_queue) × (dpc_routine used_queue 3 3 [] (interrupt_routine used_queue 1 busy).1
      ≡ done t)
    × (t.pool.free_bufs ≡ 0x1000 ∷ 0x3000 ∷ [])
    × (t.events ≡ 9 ∷ [])
unfolding interrupt_routine dpc_routine free_buf handle_ctrl
busy_dpc = (_, refl, refl, refl)

dpc_routine_example :
    (t : Shared used_queue) × (dpc_routine used_queue 3 3 (change ∷ []) interrupted ≡ done t)
    × Ends used_queue used_laws
        (seen used_queue used_laws interrupted.pending (change ∷ []))
        interrupted
        t
dpc_routine_example =
    dpc_routine_lem used_queue used_laws (change ∷ []) 3 3 interrupted (omega arith) (omega arith)
      (omega arith)

drain_ctrl_example :
    (t : Shared used_queue) × (drain_ctrl used_queue 3 busy ≡ done t)
    × (t.ctrl ≡ [])
    × (t.pool.free_bufs ≡ busy.pool.free_bufs ++ silent busy.pool.vbuf busy.ctrl)
    × ((e : ℕ)
        → occurrences e t.events
          ≡ occurrences e (awaited busy.pool.vbuf busy.cmd_type busy.ctrl)
            + occurrences e busy.events)
drain_ctrl_example = drain_ctrl_releases used_queue used_laws 3 busy (omega arith)
