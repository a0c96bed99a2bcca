-- ===== src/Cursor.antt =====
-- The cursor queue: CrsrQueue of viogpu/common/viogpu_queue.cpp, and the commands that SetPointerShape and
-- SetPointerPosition of GpuDevice in viogpu/viogpudo/viogpudo.cpp send through it.
pub mod Pointer
mod Examples
use graphics_drivers_wip.Base.{
  ℕ, ◌*◌, ◌^◌, ◌||◌, not, Bool, Option, none, some, List, [], ◌∷◌, ◌++◌, ltb, leb, ◌==◌,
  if◌then◌else◌, length, Outcome, done, null_pointer,
}
use graphics_drivers_wip.Pool.{Pool, Vbuffer, get_buf}
use graphics_drivers_wip.Queue.{Sg, MemoryApi, VirtQueueApi, build_sg_element}
use graphics_drivers_wip.Queue.Command.{hdr}
use graphics_drivers_wip.Device.{Obj}

abbrev pub cmd_update_cursor : ℕ
cmd_update_cursor = 0x0300

abbrev pub cmd_move_cursor : ℕ
cmd_move_cursor = 0x0301

-- GPU_UPDATE_CURSOR: the position with its scanout, the resource, the hot spot, and padding.
abbrev pub cursor_words : ℕ → ℕ → ℕ → ℕ → ℕ → ℕ → List ℕ
cursor_words type res_id x y hot_x hot_y =
    hdr type ++ (0 ∷ x ∷ y ∷ 0 ∷ res_id ∷ hot_x ∷ hot_y ∷ 0 ∷ [])

abbrev pub elements : Option Sg → List Sg
elements none = []
elements (some e) = e ∷ []

-- An INT is the number of its bits; it is negative from 2 ^ 31 on.
abbrev pub is_outside : ℕ → ℕ → Bool
is_outside x size = ltb size x || leb (2 ^ 31) x

module _ (mem : MemoryApi) (api : VirtQueueApi) where
  open api use {VirtQueue, add_buf, kick_always}

  pub record Crsr : Type 0 where
    pub pool : Pool
    pub vq : VirtQueue
    pub command : ℕ → List ℕ

  -- QueueCursor; its result is 0 whatever AddBuf says, and is not looked at.
  unfoldable pub queue_cursor : ℕ → Vbuffer → VirtQueue → VirtQueue
  queue_cursor token v vq =
      let l = elements (build_sg_element mem v.buf v.size) in
      kick_always (add_buf l (length l) 0 token vq).1

  -- AllocCursor, filling the command, and QueueCursor. The code reads the cursor's id through the
  -- pointer to the object, and clears the command at the pointer that AllocCursor gives.
  unfoldable pub send_cursor : Option Obj → (ℕ → List ℕ) → Crsr → Outcome Crsr
  unfolding queue_cursor
  send_cursor cursor words c =
      let (a, p) = get_buf 56 0 0 c.pool in
      if a == 0 then null_pointer else (elim cursor [
        | none ↦ null_pointer
        | some o ↦ done (record {
          pool = p;
          vq = queue_cursor a (p.vbuf a) c.vq;
          command = λ b. if b == a then words o.hw_res else c.command b;
        })
      ])

  -- The command that SetPointerShape sends for a new cursor.
  unfoldable pub update_pointer : Option Obj → ℕ → ℕ → Crsr → Outcome Crsr
  unfolding send_cursor
  update_pointer cursor x_hot y_hot =
      send_cursor cursor (λ id. cursor_words cmd_update_cursor id 0 0 x_hot y_hot)

  -- SetPointerPosition: whether the pointer is visible, its position, and the size of the mode.
  unfoldable pub set_pointer_position : Option Obj → Bool → ℕ → ℕ → ℕ → ℕ → Crsr → Outcome Crsr
  unfolding send_cursor
  set_pointer_position cursor visible x y width height = send_cursor cursor (λ id.
      if not visible || is_outside x width || is_outside y height
      then cursor_words cmd_move_cursor id 0 0 0 0
      else cursor_words cmd_move_cursor id x y 0 0)
