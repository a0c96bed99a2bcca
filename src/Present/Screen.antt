-- ===== src/Present/Screen.antt =====
-- PresentDisplayOnly of viogpu/viogpudo/viogpudo.cpp and the screen: where a centered picture starts, and how
-- a present undoes the record of the bytes known to be zero.
use graphics_drivers_wip.Base.{
  ℕ, ◌+◌, ◌-◌, ◌*◌, ◌/◌, ◌^◌, ◌≤◌, ◌<◌, ◌≡◌, refl, subst, sym, Outcome, inr, true, false, List, [],
  ◌∷◌, sub32, ltb-false, done, arith,
}
use graphics_drivers_wip.Blit.{Memory, Rect}
use graphics_drivers_wip.Modes.{get_at, set_at}
use graphics_drivers_wip.Bdd.{BddMode}
use graphics_drivers_wip.Screen.{Screen, black_out_screen}
use graphics_drivers_wip.Screen.Black.{IsBlack, black_out_screen_lem}
use graphics_drivers_wip.Present.{
  Picture, PresentArgs, presented, picture_of, present_source, centered, present_display_only,
  vga_execute_present,
}

-- A centered picture of 32-bit pixels that fits the screen, whose sizes do not wrap, and whose height
-- differs from the screen's by 2 k + e rows: it starts after k rows and half of what is left, the
-- odd row included. So for an odd difference it starts half a row too far to the right.
centered_lem :
    (cur : BddMode) (k e : ℕ)
    → cur.src_mode_height ≤ cur.disp_info.height
    → cur.src_mode_width ≤ cur.disp_info.width
    → cur.disp_info.height < 2 ^ 31
    → cur.disp_info.width < 2 ^ 27
    → cur.disp_info.height - cur.src_mode_height ≡ 2 * k + e
    → (2 * k + e) * cur.disp_info.pitch + (cur.disp_info.width - cur.src_mode_width) * 4 < 2 ^ 31
    → cur.frame_ptr + 2 ^ 31 < 2 ^ 64
    → centered cur 32
      ≡ cur.frame_ptr
        + k * cur.disp_info.pitch
        + (e * cur.disp_info.pitch + (cur.disp_info.width - cur.src_mode_width) * 4) / 2
unfolding centered
centered_lem cur k e fh fw sh sw split small mem =
    let rows : sub32 cur.disp_info.height cur.src_mode_height ≡ 2 * k + e = omega arith in
    let columns : sub32 cur.disp_info.width cur.src_mode_width
        ≡ cur.disp_info.width - cur.src_mode_width =
      omega arith in
    rw (centered, rows, columns) (ground arith)

abbrev pub screen_of : BddMode → Screen
screen_of cur = record {
  height = cur.disp_info.height;
  pitch = cur.disp_info.pitch;
  physic_address = cur.disp_info.physic_address;
  frame_buffer_is_active = cur.frame_buffer_is_active;
  frame_ptr = cur.frame_ptr;
  zeroed_out_start = cur.zeroed_out_start;
  zeroed_out_end = cur.zeroed_out_end;
}

-- A present of at least four bytes a pixel to a visible source of the VGA device ends; and after it
-- BlackOutScreen makes the whole of an active frame buffer black, whatever was drawn and
-- whatever the view had recorded as zeroed before.
pub present-IsBlack :
    (a : PresentArgs) (cur : BddMode) (m : Memory)
    → a.source_id ≡ 0
    → 4 ≤ a.bytes_per_pixel
    → cur.source_not_visible ≡ false
    → cur.frame_buffer_is_active ≡ true
    → 0 < cur.disp_info.physic_address
    → (c : BddMode) × (n : Memory) × (present_display_only
          (λ p moves dirty b k. done (vga_execute_present p moves dirty b k))
          true
          a
          (cur ∷ [])
          m
        ≡ done (presented, c ∷ [], n))
      × IsBlack (screen_of c) (black_out_screen (screen_of c) n).1
unfolding present_display_only present_source get_at set_at
present-IsBlack a cur m z wide visible active there =
    let enough = ltb-false a.bytes_per_pixel 4 wide in
    subst
      (λ k.
        (c : BddMode) × (n : Memory) × (present_source vga k true a (cur ∷ []) m
          ≡ done (presented, c ∷ [], n))
        × IsBlack (screen_of c) (black_out_screen (screen_of c) n).1)
      (sym z)
      (
        record cur { zeroed_out_start = 0; zeroed_out_end = 0 },
        vga_execute_present (picture_of a cur) a.moves a.dirty_rects
            (record cur { zeroed_out_start = 0; zeroed_out_end = 0 }) m,
        rw (enough, present_source) (simp visible refl),
        (black_out_screen_lem (screen_of (record cur { zeroed_out_start = 0; zeroed_out_end = 0 }))
            _ active (λ i h b c. absurd (omega (arith, c))) (inr there)).0,
      )
  where
    vga : Picture → List Rect → List Rect → BddMode → Memory → Outcome Memory
    vga p moves dirty b k = done (vga_execute_present p moves dirty b k)
