-- ===== src/Visibility/Examples.antt =====
-- A source is made invisible on a device that counts its black-outs.
use graphics_drivers_wip.Base.{ℕ, suc, ◌≡◌, inl, refl, false, true, [], ◌∷◌, done}
use graphics_drivers_wip.Bdd.{BddMode, zeroed_mode}
use graphics_drivers_wip.Present.{PresentArgs, PresentStatus, present_display_only}
use graphics_drivers_wip.Visibility.{set_source_visibility}
use graphics_drivers_wip.Visibility.Hidden.{hidden-present}

abbrev args : PresentArgs
args = record {
  source_id = 0;
  source = 0x1000;
  bytes_per_pixel = 4;
  pitch = 4096;
  rotate = false;
  moves = [];
  dirty_rects = [];
}

abbrev count_black_outs : BddMode → ℕ → BddMode × ℕ
count_black_outs cur k = (cur, suc k)

hidden-present_example :
    (c : BddMode) × (st : PresentStatus) × (set_source_visibility 7 count_black_outs false 0
        (zeroed_mode ∷ [])
        0
      ≡ done (c ∷ [], 1))
    × (present_display_only {Device = ℕ} (λ p m d b k. done k) true args (c ∷ []) 1
        ≡ done (st, c ∷ [], 1))
hidden-present_example =
    hidden-present 7 count_black_outs (λ p m d b k. done k) 0 zeroed_mode 0 args (inl refl) refl
