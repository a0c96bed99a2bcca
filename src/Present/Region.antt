-- ===== src/Present/Region.antt =====
-- What ExecutePresentDisplayOnly of GpuDevice in viogpu/viogpudo/viogpudo.cpp draws, against what it sends to
-- the host.
use graphics_drivers_wip.Base.{
  ◌+◌, ◌-◌, ◌/◌, ap, sym, subst, ℕ, ◌*◌, ◌≤◌, ◌<◌, ◌≡◌, ◌⊎◌, inl, inr, refl, ◌∙◌, some, List, u32,
  sub32, done, arith,
}
use graphics_drivers_wip.Idr.{BitMapApi}
use graphics_drivers_wip.Blit.{Rect, Rotation}
use graphics_drivers_wip.Blit.Geometry.{IsSurface, add_mul}
use graphics_drivers_wip.Blit.Equivalence.{mul_mono}
use graphics_drivers_wip.Blit.Frame.{InRect}
use graphics_drivers_wip.Queue.Command.{transfer, show}
use graphics_drivers_wip.Device.{CtrlQueueApi, Gpu, Obj}
use graphics_drivers_wip.Bdd.{BddMode}
use graphics_drivers_wip.Present.{
  Picture, dst_info, src_info, blt_each, update_rect, update_offset, execute_present,
}
use graphics_drivers_wip.Present.Drawn.{AllIn, InFrame, drawn_in_update}

-- The bytes that a transfer of `width` pixels by `height` rows takes from memory at `base`, from an offset on,
-- with the rows a pitch apart.
abbrev pub Sent : (base offset pitch width height q : ℕ) → Type 0
Sent base offset pitch width height q =
    (y : ℕ) × (y < height)
    × (base + offset + y * pitch ≤ q)
    × (q < base + offset + y * pitch + width * 4)

rows_down : (a y p : ℕ) → a ≤ y → y * p ≡ a * p + (y - a) * p
rows_down a y p h = ap (λ t. t * p) (omega (arith, h)) ∙ add_mul a (y - a) p

-- The offset that is sent belongs to the rectangle's first pixel.
InRect-Sent :
    (p : Picture) (cur : BddMode) (u : Rect) (q : ℕ)
    → p.dst_bit_per_pixel ≡ 32
    → IsSurface (dst_info p cur)
    → InFrame (dst_info p cur) u
    → InRect (dst_info p cur) u q
    → Sent p.dst_addr
        (update_offset p cur u)
        cur.disp_info.pitch
        (sub32 u.right u.left)
        (sub32 u.bottom u.top)
        q
InRect-Sent p cur u q d f (r, l) (y, a, b, lo, hi) =
    let k = cur.disp_info.pitch in
    let deep : (p.dst_bit_per_pixel + 8 - 1) / 8 ≡ 4 = omega (arith, d) in
    let down = rows_down u.top y k a in
    let deep' : p.dst_bit_per_pixel / 8 ≡ 4 = omega (arith, d) in
    let fits : cur.src_mode_width * 4 ≤ k =
      subst (λ t. cur.src_mode_width * t ≤ k) deep' f.rows_fit in
    let high = mul_mono u.top cur.src_mode_height k (omega (arith, a, b, l)) in
    let offset : update_offset p cur u ≡ u.top * k + u.left * 4 =
      ap (λ t. u32 (u.top * k + u.left * t)) deep
      ∙ omega (arith, high, fits, r, lo, hi, f.small_size, f.small_pitch) in
    (
      y - u.top,
      omega (arith, a, b, l, f.small_height),
      omega (arith, offset, down, lo),
      omega (arith, offset, down, lo, hi, r, f.small_width),
    )

-- On a device with a frame buffer whose memory the picture is drawn to from its start, a present of 32-bit
-- pixels without rotation, of rectangles that lie in a surface, if the queue takes the two commands
-- (which a queue does under the conditions of Queue/Post): it ends; the two commands are a transfer
-- of the rectangle of the updates to the frame buffer's resource and a flush of the same
-- rectangle, and no other is posted; and every byte of memory keeps its value or is one that the
-- transfer takes from the resource's memory, at the offset that it names. So no drawn pixel is
-- withheld from the host.
pub execute_present_lem :
    (api : BitMapApi) (queue : CtrlQueueApi) (p : Picture) (moves dirty : List Rect) (cur : BddMode)
    (g : Gpu api queue) (o : Obj) (q₁ q₂ : queue.Queue)
    → g.frame_buf ≡ some o
    → o.v_addr ≡ p.dst_addr
    → p.rotation ≡ Rotation.identity
    → p.dst_bit_per_pixel ≡ 32
    → p.src_bytes_per_pixel ≡ 4
    → IsSurface (dst_info p cur)
    → AllIn (dst_info p cur) moves
    → AllIn (dst_info p cur) dirty
    → let u = update_rect moves dirty cur in
      let width = sub32 u.right u.left in
      let height = sub32 u.bottom u.top in
      queue.post 0 (transfer o.hw_res (update_offset p cur u) width height u.left u.top) g.ctrl
        ≡ done q₁
      → queue.post 0 (show o.hw_res width height u.left u.top) q₁ ≡ done q₂
      → (t : Gpu api queue) × (execute_present api queue p moves dirty cur g ≡ done t)
        × (t.ctrl ≡ q₂)
        × ((q : ℕ)
            → (t.memory q ≡ g.memory q)
              ⊎ Sent o.v_addr (update_offset p cur u) cur.disp_info.pitch width height q)
unfolding execute_present
execute_present_lem api queue p moves dirty cur g o q₁ q₂ some_frame at ρ db sb f am ad d₁ d₂ =
    let u = update_rect moves dirty cur in
    let width = sub32 u.right u.left in
    let height = sub32 u.bottom u.top in
    let depth : u32 (p.src_bytes_per_pixel * 8) ≡ 32 = omega (arith, sb) in
    let drawn =
      blt_each (dst_info p cur) (src_info p cur) dirty
        (blt_each (dst_info p cur) (src_info p cur) moves g.memory) in
    let sent : (q : ℕ)
        → (drawn q ≡ g.memory q)
          ⊎ Sent o.v_addr (update_offset p cur u) cur.disp_info.pitch width height q =
      λ q.
        elim (drawn_in_update (dst_info p cur) (src_info p cur) refl refl ρ refl db depth f moves
          dirty cur g.memory q am ad) [
            | inl same ↦ inl same
            | inr (inside, here) ↦ inr (
                subst (λ b. Sent b (update_offset p cur u) cur.disp_info.pitch width height q)
                  (sym at) (InRect-Sent p cur u q db f inside here))
          ] in
    (record g { memory = drawn; ctrl = q₂ }, rw (some_frame, d₁, d₂) refl, refl, sent)
