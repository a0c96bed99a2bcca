-- ===== src/Device.antt =====
-- The host resources of GpuDevice in viogpu/viogpudo/viogpudo.cpp: the frame buffer and the cursor, from
-- the id and the memory to the commands, with VioGpuObj::Init of viogpu/common/viogpu_queue.cpp.
pub mod Host
pub mod Wiring
pub mod Sync
pub mod Drop
pub mod Create
pub mod Pages
pub mod Session
mod Examples
use graphics_drivers_wip.Base.{
  ℕ, zero, suc, ◌+◌, ◌-◌, ◌*◌, ◌/◌, ◌&&◌, ◌||◌, not, Bool, true, false, Option, none, some, List,
  [], ◌∷◌, ltb, ◌==◌, if◌then◌else◌, u32, page_size, length, Outcome, done, null_pointer, overrun,
  bugcheck, ◌>>=◌,
}
use graphics_drivers_wip.Idr.{BitMapApi, Idr, get_id, put_id}
use graphics_drivers_wip.Blit.{
  Memory, Rect, Rotation, identity, BltInfo, blt_bits, Format, x8r8g8b8, a8r8g8b8, a8b8g8r8,
  x8b8g8r8, a1, bpp_from_pixel_format,
}
use graphics_drivers_wip.Queue.Command.{
  Command, create, release, detach, scanout, show, transfer, attach,
}
use graphics_drivers_wip.Modes.{ModeInfo, Modes, get_at}

-- The control queue as GpuDevice uses it: the method that posts a command, with the address of its
-- entries.
pub record CtrlQueueApi : Type 1 where
  pub Queue : Type 0
  pub post : ℕ → Command → Queue → Outcome Queue

-- What the kernel answers while a resource is made: the addresses of the object's memory and of the
-- entries, 0 for a failed allocation; whether the pages could be described and locked, the list
-- be allocated, and the memory be read; and the physical address of each page.
pub record Answers : Type 0 where
  pub v_addr : ℕ
  pub mdl : Bool
  pub locked : Bool
  pub sg_list : Bool
  pub ents : ℕ
  pub is_valid : Bool
  pub get_physical_address : ℕ → ℕ

-- VioGpuObj, with the addresses of the elements of its list, each a page long.
pub record Obj : Type 0 where
  pub hw_res : ℕ
  pub v_addr : ℕ
  pub elements : List ℕ

-- The loop over the pages, which stops at the physical address 0.
abbrev pub page_list : (ℕ → ℕ) → ℕ → ℕ → List ℕ
page_list pa zero buf = []
page_list pa (suc n) buf =
    let rest = page_list pa n (buf + page_size) in if pa buf == 0 then [] else pa buf ∷ rest

abbrev pub bytes_to_pages : ℕ → ℕ
bytes_to_pages size =
    size / page_size + (if ltb 0 (size - size / page_size * page_size) then 1 else 0)

-- VioGpuObj::Init on a new object; `none` for the result FALSE. The list is written without a check
-- of its allocation.
unfoldable pub obj_init : Answers → ℕ → Outcome (Option Obj)
obj_init a size =
    if a.v_addr == 0 || not a.mdl || not a.locked
    then done none
    else if not a.sg_list
    then null_pointer
    else done (
        some (record {
          hw_res = 0;
          v_addr = a.v_addr;
          elements =
              page_list a.get_physical_address (bytes_to_pages size)
                (a.v_addr / page_size * page_size);
        }))

-- The `delete` of an object whose Init has failed, which destroys it by Close: when the pages could not be
-- locked, the MDL, which Init has freed, is freed again.
unfoldable pub delete_failed {ℓ} : {A : Type ℓ} → Answers → Outcome A → Outcome A
delete_failed a next = if not (a.v_addr == 0) && a.mdl && not a.locked then bugcheck else next

-- VioGpuObj::GetPhysicalAddress
abbrev pub physical_address : Answers → Obj → ℕ
physical_address a o =
    if not (o.v_addr == 0) && a.is_valid then a.get_physical_address o.v_addr else 0

unfoldable pub color_format : Format → ℕ
color_format a8r8g8b8 = 1
color_format x8r8g8b8 = 2
color_format a8b8g8r8 = 67
color_format x8b8g8r8 = 134
color_format _ = 1

abbrev pub pointer_size : ℕ
pointer_size = 64

-- What CURRENT_BDD_MODE keeps of the frame buffer, with the colour format and the rotation.
pub record CurrentMode : Type 0 where
  pub format : Format
  pub rotation : Rotation
  pub physic_address : ℕ
  pub frame_ptr : ℕ
  pub frame_buffer_is_active : Bool

pub record PointerShape : Type 0 where
  pub color : Bool
  pub monochrome : Bool
  pub width : ℕ
  pub height : ℕ
  pub pitch : ℕ
  pub pixels : ℕ

-- The loop of SetCurrentMode over the mode numbers.
unfoldable pub find_mode : ℕ → ℕ → ℕ → List ℕ → Outcome (Option ℕ)
unfolding get_at
find_mode mode zero idx numbers = done none
find_mode mode (suc n) idx numbers =
    let next = find_mode mode n (idx + 1) numbers in
    get_at numbers idx >>= λ k. if mode == k then done (some idx) else next

module _ (api : BitMapApi) (queue : CtrlQueueApi) where
  open queue use {Queue, post}

  pub record Gpu : Type 0 where
    pub idr : Idr api
    pub ctrl : Queue
    pub frame_buf : Option Obj
    pub cursor_buf : Option Obj
    pub memory : Memory

  -- GpuObjectAttach; the first component is its result.
  unfoldable pub gpu_object_attach : Answers → ℕ → Obj → Queue → Outcome (Bool × Obj × Queue)
  gpu_object_attach a res_id o q = if a.ents == 0 then done (false, o, q) else (do
    q₁ ← post a.ents (attach res_id (length o.elements)) q
    done (true, record o { hw_res = res_id }, q₁))

  -- The part that CreateFrameBuffer and CreateCursor have in common: the resource's id, and the
  -- object unless Init failed (it is deleted then), with the result of GpuObjectAttach.
  unfoldable pub new_object :
      Answers → ℕ → ℕ → ℕ → ℕ → Gpu → Outcome (ℕ × Option (Bool × Obj) × Gpu)
  unfolding obj_init gpu_object_attach delete_failed
  new_object a format width height size g =
      let (resid, idr) = get_id api g.idr in
      (do
        q ← post 0 (create resid format width height) g.ctrl
        r ← obj_init a size
        elim r as (λ _. Outcome (ℕ × Option (Bool × Obj) × Gpu)) [
          | none ↦ delete_failed a (done (resid, none, record g { idr = idr; ctrl = q }))
          | some o ↦ gpu_object_attach a resid o q >>= λ t.
              done (resid, some (t.0, t.1), record g { idr = idr; ctrl = t.2 })
        ])

  unfoldable pub create_frame_buffer :
      Answers → ModeInfo → CurrentMode → Gpu → Outcome (CurrentMode × Gpu)
  unfolding new_object color_format
  create_frame_buffer a info cur g = do
    (resid, r, g₁) ←
        new_object a (color_format cur.format) info.vis_screen_width info.vis_screen_height
          (u32 (info.screen_stride * info.vis_screen_height)) g
    elim r as (λ _. Outcome (CurrentMode × Gpu)) [
      | none ↦ done (cur, g₁)
      | some s ↦ (do
        q₁ ← post 0 (scanout 0 resid info.vis_screen_width info.vis_screen_height 0 0) g₁.ctrl
        q₂ ← post 0 (transfer resid 0 info.vis_screen_width info.vis_screen_height 0 0) q₁
        q₃ ← post 0 (show resid info.vis_screen_width info.vis_screen_height 0 0) q₂
        done (
          record cur {
            physic_address = physical_address a s.1;
            frame_ptr = s.1.v_addr;
            frame_buffer_is_active = true;
          },
          record g₁ { ctrl = q₃; frame_buf = some s.1 },
        ))
    ]

  -- The two commands and the id's return, for a resource that is destroyed.
  unfoldable pub drop_object : Obj → Gpu → Outcome Gpu
  drop_object o g = do
    q₁ ← post 0 (detach o.hw_res) g.ctrl
    q₂ ← post 0 (release o.hw_res) q₁
    done (record g { ctrl = q₂; idr = (put_id api o.hw_res g.idr).0 })

  unfoldable pub destroy_frame_buffer : Gpu → Outcome Gpu
  unfolding drop_object
  destroy_frame_buffer g = elim g.frame_buf [
    | none ↦ done g
    | some o ↦ drop_object o (record g { frame_buf = none })
  ]

  unfoldable pub destroy_cursor : Gpu → Outcome Gpu
  unfolding drop_object
  destroy_cursor g = elim g.cursor_buf [
    | none ↦ done g
    | some o ↦ drop_object o (record g { cursor_buf = none })
  ]

  abbrev pub cursor_info : Obj → BltInfo
  cursor_info o = record {
    bits = o.v_addr;
    pitch = pointer_size * 4;
    bits_per_pel = bpp_from_pixel_format a8r8g8b8;
    offset_x = 0;
    offset_y = 0;
    rotation = identity;
    width = pointer_size;
    height = pointer_size;
  }

  abbrev pub shape_info : PointerShape → Format → Rotation → BltInfo
  shape_info p format rotation = record {
    bits = p.pixels;
    pitch = p.pitch;
    bits_per_pel = bpp_from_pixel_format format;
    offset_x = 0;
    offset_y = 0;
    rotation = rotation;
    width = p.width;
    height = p.height;
  }

  abbrev pub shape_rect : PointerShape → Rect
  shape_rect p = record { left = 0; top = 0; right = p.width; bottom = p.height }

  -- The rest of CreateCursor once the object is attached; a shape of neither kind ends it early.
  unfoldable pub draw_cursor : ℕ → Obj → PointerShape → CurrentMode → Gpu → Outcome (Bool × Gpu)
  draw_cursor resid o p cur g = if not p.color && not p.monochrome then done (false, g) else (do
    q ← post 0 (transfer resid 0 p.width p.height 0 0) g.ctrl
    done (
      true,
      record g {
        ctrl = q;
        memory =
            blt_bits (cursor_info o) (shape_info p (if p.color then a8r8g8b8 else a1) cur.rotation)
              (shape_rect p ∷ []) g.memory;
      },
    ))

  unfoldable pub create_cursor : Answers → PointerShape → CurrentMode → Gpu → Outcome (Bool × Gpu)
  unfolding new_object draw_cursor
  create_cursor a p cur g = do
    (resid, r, g₁) ← new_object a 1 pointer_size pointer_size (pointer_size * pointer_size * 4) g
    elim r as (λ _. Outcome (Bool × Gpu)) [
      | none ↦ done (false, g₁)
      | some s ↦
          let drawn = draw_cursor resid s.1 p cur (record g₁ { cursor_buf = some s.1 }) in
          if s.0 then drawn else done (false, g₁)
    ]

  -- SetCurrentMode; the first component says whether the mode was found.
  unfoldable pub set_current_mode :
      ℕ → Modes → Answers → CurrentMode → Gpu → Outcome (Bool × CurrentMode × Gpu)
  unfolding find_mode destroy_frame_buffer create_frame_buffer get_at
  set_current_mode mode m a cur g = do
    found ← find_mode mode m.mode_count 0 m.mode_numbers
    elim found as (λ _. Outcome (Bool × CurrentMode × Gpu)) [
      | none ↦ done (false, cur, g)
      | some idx ↦ (do
        g₁ ← destroy_frame_buffer g
        info ← get_at m.mode_info idx
        (cur₁, g₂) ←
            create_frame_buffer a info
              (record cur { frame_buffer_is_active = false; physic_address = 0 }) g₁
        done (true, cur₁, g₂))
    ]

  -- How SetPointerShape replaces the cursor; the command of the cursor queue that follows is left out.
  unfoldable pub replace_cursor : Answers → PointerShape → CurrentMode → Gpu → Outcome (Bool × Gpu)
  unfolding destroy_cursor create_cursor
  replace_cursor a p cur g = destroy_cursor g >>= create_cursor a p cur
