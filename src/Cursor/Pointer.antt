-- ===== src/Cursor/Pointer.antt =====
-- What the device gets of SetPointerPosition of GpuDevice in viogpu/viogpudo/viogpudo.cpp.
use graphics_drivers_wip.Base.{
  ==_false, ℕ, zero, suc, ◌+◌, ◌^◌, ◌≡◌, ◌≢◌, inl, inr, refl, ◌&&◌, ◌||◌, not, Bool, true,
  Bool-cases, none, some, List, [], ◌∷◌, ltb, leb, ◌==◌, if◌then◌else◌, done, null_pointer, arith,
}
use graphics_drivers_wip.Pool.{get_buf, sizeof_vbuffer}
use graphics_drivers_wip.Pool.Layout.{get_buf-head}
use graphics_drivers_wip.Queue.{MemoryApi, VirtQueueApi}
use graphics_drivers_wip.Queue.Scatter.{build_valid, element}
use graphics_drivers_wip.Device.{Obj}
use graphics_drivers_wip.Cursor.{
  Crsr, cmd_move_cursor, cursor_words, is_outside, queue_cursor, set_pointer_position,
}

-- The fields of a cursor command as the device reads them, by their words.
pub record CursorCommand : Type 0 where
  pub type : ℕ
  pub x : ℕ
  pub y : ℕ
  pub res_id : ℕ

abbrev word : List ℕ → ℕ → ℕ
word [] i = 0
word (w ∷ ws) zero = w
word (w ∷ ws) (suc i) = word ws i

abbrev pub read_cursor : List ℕ → CursorCommand
read_cursor ws = record { type = word ws 0; x = word ws 7; y = word ws 8; res_id = word ws 10 }

-- The pointer can be shown where it is to be.
abbrev pub is_shown : Bool → ℕ → ℕ → ℕ → ℕ → Bool
is_shown visible x y width height =
    visible && leb x width && leb y height && ltb x (2 ^ 31) && ltb y (2 ^ 31)

abbrev move_words : ℕ → Bool → ℕ → ℕ → ℕ → ℕ → List ℕ
move_words id visible x y width height =
    if not visible || is_outside x width || is_outside y height
    then cursor_words cmd_move_cursor id 0 0 0 0
    else cursor_words cmd_move_cursor id x y 0 0

move_words-read :
    (id : ℕ) (visible : Bool) (x y width height : ℕ)
    → read_cursor (move_words id visible x y width height) ≡ record {
      type = cmd_move_cursor;
      x = (if is_shown visible x y width height then x else 0);
      y = (if is_shown visible x y width height then y else 0);
      res_id = id;
    }
move_words-read id visible x y width height = ground arith

-- With a cursor, and a first free buffer whose command can be read, SetPointerPosition takes the
-- buffer and gives it to the device as one readable element, with a command to move the cursor's
-- resource: to the position asked for, if the pointer is visible and the position neither
-- negative nor beyond the mode's size, and else to the origin.
pub set_pointer_position_lem :
    (mem : MemoryApi) (api : VirtQueueApi) (a : ℕ) (rest : List ℕ) (o : Obj) (visible : Bool)
    (x y width height : ℕ) (s : Crsr mem api)
    → s.pool.free_bufs ≡ a ∷ rest
    → a ≢ 0
    → mem.is_address_valid (a + sizeof_vbuffer) ≡ true
    → (t : Crsr mem api) × (set_pointer_position mem api (some o) visible x y width height s
        ≡ done t)
      × (t.pool.free_bufs ≡ rest)
      × (t.vq
          ≡ api.kick_always (api.add_buf (element mem (a + sizeof_vbuffer) 56 ∷ []) 1 0 a s.vq).1)
      × (read_cursor (t.command a) ≡ record {
        type = cmd_move_cursor;
        x = (if is_shown visible x y width height then x else 0);
        y = (if is_shown visible x y width height then y else 0);
        res_id = o.hw_res;
      })
unfolding set_pointer_position queue_cursor
set_pointer_position_lem mem api a rest o visible x y width height s e n v =
    let same : (a == a) ≡ true = ground arith in
    let built = build_valid mem (a + sizeof_vbuffer) 56 (omega arith) v in
    rw (get_buf-head s.pool a rest 56 0 0 e, ==_false a 0 n)
      (
        _,
        refl,
        refl,
        rw (same, queue_cursor, built) refl,
        rw same (move_words-read o.hw_res visible x y width height),
      )

-- Without a cursor, SetPointerPosition reads through a null pointer.
set_pointer_position-null :
    (mem : MemoryApi) (api : VirtQueueApi) (visible : Bool) (x y width height : ℕ)
    (s : Crsr mem api)
    → set_pointer_position mem api none visible x y width height s ≡ null_pointer
unfolding set_pointer_position
set_pointer_position-null mem api visible x y width height s =
    elim (Bool-cases ((get_buf 56 0 0 s.pool).0 == 0)) [ inl z ↦ rw z refl | inr z ↦ rw z refl ]
