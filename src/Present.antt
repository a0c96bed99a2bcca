-- ===== src/Present.antt =====
-- The presentation of viogpu/viogpudo/viogpudo.cpp: PresentDisplayOnly and SystemDisplayWrite of VioGpuDod,
-- ExecutePresentDisplayOnly of both devices, and FindUpdateRect. LONG and UINT are 32-bit patterns.
pub mod Update
pub mod Drawn
pub mod Region
pub mod Screen
mod Examples
use graphics_drivers_wip.Base.{
  ℕ, ◌+◌, ◌-◌, ◌*◌, ◌/◌, ◌%◌, ◌^◌, ◌&&◌, ◌||◌, not, Bool, true, false, Option, none, some, List, [],
  ◌∷◌, ltb, ◌==◌, if◌then◌else◌, u32, sub32, neg32, add_long, Outcome, done, null_pointer, ◌>>=◌,
}
use graphics_drivers_wip.Blit.{
  Memory, Rect, Rotation, identity, rotate90, rotate270, BltInfo, blt_bits, bpp_from_pixel_format,
}
use graphics_drivers_wip.Idr.{BitMapApi}
use graphics_drivers_wip.Queue.Command.{transfer, show}
use graphics_drivers_wip.Modes.{get_at, set_at}
use graphics_drivers_wip.Dod.{Status, success, Scaling, scaling_centered, is_sideways}
use graphics_drivers_wip.Device.{CtrlQueueApi, Gpu, Obj}
use graphics_drivers_wip.Bdd.{BddMode}

-- The order of two LONGs is that of their patterns with the sign bit changed.
abbrev pub bias : ℕ → ℕ
bias a = (a + 2 ^ 31) % 2 ^ 32

abbrev pub max_long : ℕ → ℕ → ℕ
max_long a b = if ltb (bias b) (bias a) then a else b

abbrev pub min_long : ℕ → ℕ → ℕ
min_long a b = if ltb (bias a) (bias b) then a else b

-- The body of the loops of FindUpdateRect; `none` is the case that nothing has been updated yet.
unfoldable pub extend : Option Rect → Rect → Option Rect
extend none r = some r
extend (some u) r = some (record {
  left = min_long r.left u.left;
  top = min_long r.top u.top;
  right = max_long r.right u.right;
  bottom = max_long r.bottom u.bottom;
})

unfoldable pub extend_all : Option Rect → List Rect → Option Rect
unfolding extend
extend_all o [] = o
extend_all o (r ∷ rs) = extend_all (extend o r) rs

-- FindUpdateRect, on the destinations of the moves and the dirty rectangles.
unfoldable pub find_update_rect : List Rect → List Rect → Option Rect
unfolding extend_all
find_update_rect moves dirty = extend_all (extend_all none moves) dirty

-- What ExecutePresentDisplayOnly is given, except the rectangles.
pub record Picture : Type 0 where
  pub dst_addr : ℕ
  pub dst_bit_per_pixel : ℕ
  pub src_addr : ℕ
  pub src_bytes_per_pixel : ℕ
  pub src_pitch : ℕ
  pub rotation : Rotation

abbrev pub dst_info : Picture → BddMode → BltInfo
dst_info p cur = record {
  bits = p.dst_addr;
  pitch = cur.disp_info.pitch;
  bits_per_pel = p.dst_bit_per_pixel;
  offset_x = 0;
  offset_y = 0;
  rotation = p.rotation;
  width = cur.src_mode_width;
  height = cur.src_mode_height;
}

abbrev pub src_info : Picture → BddMode → BltInfo
src_info p cur = record {
  bits = p.src_addr;
  pitch = p.src_pitch;
  bits_per_pel = u32 (p.src_bytes_per_pixel * 8);
  offset_x = 0;
  offset_y = 0;
  rotation = identity;
  width = (if is_sideways p.rotation then cur.src_mode_height else cur.src_mode_width);
  height = (if is_sideways p.rotation then cur.src_mode_width else cur.src_mode_height);
}

-- A loop of calls of BltBits, each for one rectangle.
unfoldable pub blt_each : BltInfo → BltInfo → List Rect → Memory → Memory
blt_each dst src [] m = m
blt_each dst src (r ∷ rs) m = blt_each dst src rs (blt_bits dst src (r ∷ []) m)

-- VgaDevice::ExecutePresentDisplayOnly
unfoldable pub vga_execute_present : Picture → List Rect → List Rect → BddMode → Memory → Memory
unfolding blt_each
vga_execute_present p moves dirty cur m =
    blt_each (dst_info p cur) (src_info p cur) dirty
      (blt_each (dst_info p cur) (src_info p cur) moves m)

-- The rectangle that is sent to the host: that of the updates, or the whole source mode.
unfoldable pub update_rect : List Rect → List Rect → BddMode → Rect
unfolding find_update_rect
update_rect moves dirty cur = elim (find_update_rect moves dirty) [
  | some u ↦ u
  | none ↦ record { left = 0; top = 0; right = cur.src_mode_width; bottom = cur.src_mode_height }
]

-- Where the rectangle starts in the memory of the resource.
abbrev pub update_offset : Picture → BddMode → Rect → ℕ
update_offset p cur u =
    u32 (u.top * cur.disp_info.pitch + u.left * ((p.dst_bit_per_pixel + 8 - 1) / 8))

module _ (api : BitMapApi) (queue : CtrlQueueApi) where
  open queue use {post}

  -- GpuDevice::ExecutePresentDisplayOnly, which reads the frame buffer's id without a check.
  unfoldable pub execute_present :
      Picture → List Rect → List Rect → BddMode → Gpu api queue → Outcome (Gpu api queue)
  unfolding blt_each update_rect
  execute_present p moves dirty cur g =
      let drawn =
        blt_each (dst_info p cur) (src_info p cur) dirty
          (blt_each (dst_info p cur) (src_info p cur) moves g.memory) in
      let u = update_rect moves dirty cur in
      let width = sub32 u.right u.left in
      let height = sub32 u.bottom u.top in
      elim g.frame_buf [
        | none ↦ null_pointer
        | some o ↦ (do
          q₁ ← post 0 (transfer o.hw_res (update_offset p cur u) width height u.left u.top) g.ctrl
          q₂ ← post 0 (show o.hw_res width height u.left u.top) q₁
          done (record g { memory = drawn; ctrl = q₂ }))
      ]

-- DXGKARG_PRESENT_DISPLAYONLY
pub record PresentArgs : Type 0 where
  pub source_id : ℕ
  pub source : ℕ
  pub bytes_per_pixel : ℕ
  pub pitch : ℕ
  pub rotate : Bool
  pub moves : List Rect
  pub dirty_rects : List Rect

pub data PresentStatus : Type 0 where
  presented : PresentStatus
  not_visible : PresentStatus
  invalid_parameter : PresentStatus

abbrev pub is_centered : Scaling → Bool
is_centered scaling_centered = true
is_centered _ = false

-- The address in the frame buffer at which a centered picture starts; the shift is a UINT, halved as
-- an int.
unfoldable pub centered : BddMode → ℕ → ℕ
centered cur bpp =
    let rows = u32 (sub32 cur.disp_info.height cur.src_mode_height * cur.disp_info.pitch) in
    let columns = u32 (sub32 cur.disp_info.width cur.src_mode_width * bpp) / 8 in
    let shift = u32 (rows + columns) in
    add_long cur.frame_ptr (if ltb shift (2 ^ 31) then shift / 2 else neg32 (neg32 shift / 2))

-- What PresentDisplayOnly hands on.
abbrev pub picture_of : PresentArgs → BddMode → Picture
picture_of a cur =
    let bpp = bpp_from_pixel_format cur.disp_info.color_format in
    record {
      dst_addr = (if is_centered cur.scaling then centered cur bpp else cur.frame_ptr);
      dst_bit_per_pixel = bpp;
      src_addr = a.source;
      src_bytes_per_pixel = a.bytes_per_pixel;
      src_pitch = a.pitch;
      rotation = (if a.rotate then cur.rotation else identity);
    }

module _ {Device : Type 0}
    (execute : Picture → List Rect → List Rect → BddMode → Device → Outcome Device) where
  -- VioGpuDod::PresentDisplayOnly over the device's ExecutePresentDisplayOnly; the monitor is in its
  -- first state, D0, or not. The source mode is that of source 0, whatever source is presented.
  unfoldable pub present_source :
      ℕ
      → Bool
      → PresentArgs
      → List BddMode
      → Device
      → Outcome (PresentStatus × List BddMode × Device)
  unfolding get_at set_at centered
  present_source source monitor_d0 a modes dev =
      if ltb a.bytes_per_pixel 4 then done (invalid_parameter, modes, dev) else (do
        cur ← get_at modes source
        if not monitor_d0 || cur.source_not_visible then done (not_visible, modes, dev) else (do
          modes₁ ← set_at modes source (record cur { zeroed_out_start = 0; zeroed_out_end = 0 })
          first ← get_at modes₁ 0
          dev₁ ← execute (picture_of a cur) a.moves a.dirty_rects first dev
          done (presented, modes₁, dev₁)))

  unfoldable pub present_display_only :
      Bool → PresentArgs → List BddMode → Device → Outcome (PresentStatus × List BddMode × Device)
  unfolding present_source
  present_display_only monitor_d0 a modes dev = present_source a.source_id monitor_d0 a modes dev

-- SystemDisplayWrite, on the mode of the source that SystemDisplayEnable recorded.
unfoldable pub system_display_write : BddMode → ℕ → ℕ → ℕ → ℕ → ℕ → ℕ → Memory → Memory
system_display_write cur source width height stride position_x position_y m =
    blt_bits
      (record {
        bits = cur.frame_ptr;
        pitch = cur.disp_info.pitch;
        bits_per_pel = bpp_from_pixel_format cur.disp_info.color_format;
        offset_x = 0;
        offset_y = 0;
        rotation = cur.rotation;
        width = cur.disp_info.width;
        height = cur.disp_info.height;
      })
      (record {
        bits = source;
        pitch = stride;
        bits_per_pel = 32;
        offset_x = neg32 position_x;
        offset_y = neg32 position_y;
        rotation = identity;
        width = width;
        height = height;
      })
      ((record {
        left = position_x;
        top = position_y;
        right = u32 (position_x + width);
        bottom = u32 (position_y + height);
      })
        ∷ [])
      m
