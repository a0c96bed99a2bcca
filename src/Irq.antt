-- ===== src/Irq.antt =====
-- viogpu/viogpudo/viogpudo.cpp: InterruptRoutine and DpcRoutine of GpuDevice, and the queue
-- methods that they call. m_PendingWorks is the set of its three bits.
pub mod Drain
pub mod Service
pub mod Release
mod Examples
use graphics_drivers_wip.Base.{
  ℕ, zero, suc, ◌+◌, ◌&&◌, ◌||◌, not, Bool, true, false, Option, none, some, List, [], ◌∷◌, ◌++◌,
  ltb, ◌==◌, if◌then◌else◌, Outcome, done, out_of_fuel, ◌>>=◌,
}
use graphics_drivers_wip.Pool.{Pool, Vbuffer, free_buf}
use graphics_drivers_wip.Queue.{VirtQueueApi}
use graphics_drivers_wip.Queue.Command.{cmd_get_display_info}

-- ISR_REASON_DISPLAY, ISR_REASON_CURSOR and ISR_REASON_CHANGE
pub record Works : Type 0 where
  pub display : Bool
  pub cursor : Bool
  pub change : Bool

abbrev pub no_works : Works
no_works = record { display = false; cursor = false; change = false }

-- InterlockedOr
abbrev pub with_works : Works → Works → Works
with_works w v = record {
  display = w.display || v.display;
  cursor = w.cursor || v.cursor;
  change = w.change || v.change;
}

abbrev pub any_works : Works → Bool
any_works w = w.display || w.cursor || w.change

abbrev pub later : List Works → List Works
later [] = []
later (w ∷ ws) = ws

module _ (api : VirtQueueApi) where
  open api use {VirtQueue, get_used_buf}

  -- `events` holds the events that were set, the last one first, `cmd_type` is the first word at a
  -- buffer's command, and `dpcs` counts the calls of DxgkCbQueueDpc.
  pub record Shared : Type 0 where
    pub pending : Works
    pub ctrl : VirtQueue
    pub crsr : VirtQueue
    pub pool : Pool
    pub cmd_type : ℕ → ℕ
    pub events : List ℕ
    pub config_event : Bool
    pub dpcs : ℕ

  -- The argument is what virtio_read_isr_status gives, which clears the status.
  unfoldable pub interrupt_routine : ℕ → Shared → Bool × Shared
  interrupt_routine isrstat s =
      if isrstat == 1
      then (
        true,
        record s {
          pending = with_works s.pending (record { display = true; cursor = true; change = false });
          dpcs = s.dpcs + 1;
        },
      )
      else if isrstat == 3
      then (
        true,
        record s {
          pending =
              with_works s.pending (record { display = false; cursor = false; change = true });
          dpcs = s.dpcs + 1;
        },
      )
      else (ltb 0 isrstat, s)

  -- What DpcRoutine does with a buffer from the control queue.
  unfoldable pub handle_ctrl : ℕ → Shared → Shared
  handle_ctrl a s =
      let v = s.pool.vbuf a in
      if v.event == 0
      then record s { pool = free_buf a s.pool }
      else if s.cmd_type a == cmd_get_display_info
      then record s { events = v.event ∷ s.events }
      else s

  -- The loop over DequeueBuffer, on fuel.
  unfoldable pub drain_ctrl : ℕ → Shared → Outcome Shared
  unfolding handle_ctrl
  drain_ctrl zero s = out_of_fuel
  drain_ctrl (suc fuel) s =
      let (used, q) = get_used_buf s.ctrl in
      let s₁ = record s { ctrl = q } in
      elim used [ none ↦ done s₁ | some a ↦ drain_ctrl fuel (handle_ctrl a s₁) ]

  -- The loop over DequeueCursor.
  unfoldable pub drain_crsr : ℕ → Shared → Outcome Shared
  drain_crsr zero s = out_of_fuel
  drain_crsr (suc fuel) s =
      let (used, q) = get_used_buf s.crsr in
      let s₁ = record s { crsr = q } in
      elim used [
        | none ↦ done s₁
        | some a ↦ drain_crsr fuel (record s₁ { pool = free_buf a s₁.pool })
      ]

  abbrev pub signal_change : Works → Shared → Shared
  signal_change reason s = if reason.change then record s { config_event = true } else s

  -- The body of the outer loop, for the reasons that were pending.
  unfoldable pub service : ℕ → Works → Shared → Outcome Shared
  unfolding drain_ctrl drain_crsr
  service fuel reason s = do
    s₁ ← if reason.display then drain_ctrl fuel s else done s
    s₂ ← if reason.cursor then drain_crsr fuel s₁ else done s₁
    done (signal_change reason s₂)

  abbrev pub arrive : List Works → Shared → Shared
  arrive [] s = s
  arrive (w ∷ ws) s = record s { pending = with_works s.pending w }

  -- The outer loop. `arrivals` holds what interrupts make pending while each pass runs; the first
  -- argument bounds the passes, the second the rounds of the inner loops.
  unfoldable pub dpc_routine : ℕ → ℕ → List Works → Shared → Outcome Shared
  unfolding service
  dpc_routine zero fuel arrivals s = out_of_fuel
  dpc_routine (suc passes) fuel arrivals s =
      let next = λ (s₁ : Shared). dpc_routine passes fuel (later arrivals) (arrive arrivals s₁) in
      if any_works s.pending
      then service fuel s.pending (record s { pending = no_works }) >>= next
      else done s
