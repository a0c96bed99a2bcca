-- ===== src/Modes/Table.antt =====
-- A table of modes, and what GpuDevice::SetCustomDisplay of viogpu/viogpudo/viogpudo.cpp changes in
-- it.
use graphics_drivers_wip.Base.{
  ℕ, zero, suc, ◌+◌, ◌-◌, ◌≤◌, ◌<◌, ◌≡◌, ◌≢◌, ◌⊎◌, inl, inr, refl, sym, ◌∙◌, some, List, [], ◌∷◌,
  ◌==◌, ltb_iff, if◌then◌else◌, u16, sub32, length, length-set, get_elem?, get_elem?-set_self,
  get_elem?-set_ne, set, done, arith,
}
use graphics_drivers_wip.Modes.{
  DispMode, Modes, set_at, video_mode_info, set_video_mode_info, set_custom_display, max,
  min_width_size, min_height_size, vgpu_bpp,
}

abbrev pub table_size : ℕ
table_size = 6

-- The first `n` mode numbers are those of their places.
abbrev pub Numbered : ℕ → List ℕ → Type 0
Numbered n numbers = (i : ℕ) → i < n → get_elem? numbers i ≡ some i

pub record IsTable (s : Modes) : Type 0 where
  pub infos : length s.mode_info ≡ table_size
  pub numbers : length s.mode_numbers ≡ table_size
  pub least : 2 ≤ s.mode_count
  pub most : s.mode_count ≤ table_size
  pub custom : (s.custom_mode + 1 ≡ s.mode_count) ⊎ (s.custom_mode + 2 ≡ s.mode_count)
  pub numbered : Numbered s.mode_count s.mode_numbers

pub set_at-in {ℓ} :
    {A : Type ℓ} (xs : List A) (i : ℕ) (v : A) → i < length xs → set_at xs i v ≡ done (set xs i v)
unfolding set_at
set_at-in xs i v h = rw ((ltb_iff i (length xs)).1 h) refl

pub get_elem?-in {ℓ} :
    {A : Type ℓ} (xs : List A) (i : ℕ) → i < length xs → (v : A) × (get_elem? xs i ≡ some v)
get_elem?-in [] i h = absurd (omega arith)
get_elem?-in (x ∷ xs) zero h = (x, refl)
get_elem?-in (x ∷ xs) (suc i) h = get_elem?-in xs i (omega arith)

set_video_mode_info-in :
    (idx : ℕ) (m : DispMode) (s : Modes)
    → idx < length s.mode_info
    → set_video_mode_info idx m s
      ≡ done (record s { mode_info = set s.mode_info idx (video_mode_info idx m) })
unfolding set_video_mode_info
set_video_mode_info-in idx m s h = rw ((ltb_iff idx (length s.mode_info)).1 h) refl

-- The mode of the display's size, enlarged to the least size.
abbrev pub custom_display : ℕ → ℕ → DispMode
custom_display xres yres = record {
  x_resolution = max min_width_size xres;
  y_resolution = max min_height_size yres;
  bits = vgpu_bpp;
}

-- The other one of the two custom modes.
abbrev other_custom : Modes → ℕ
other_custom s =
    u16
      (if s.custom_mode == sub32 s.mode_count 1 then sub32 s.mode_count 2 else sub32 s.mode_count 1)

other_custom-cases :
    (s : Modes)
    → IsTable s
    → ((other_custom s + 1 ≡ s.mode_count) ⊎ (other_custom s + 2 ≡ s.mode_count))
      × (other_custom s ≢ s.custom_mode)
      × (other_custom s < table_size)
other_custom-cases s t =
    let low = t.least in
    let high = t.most in
    elim t.custom [
      | inl last ↦
          let e : other_custom s ≡ s.mode_count - 2 = ground arith in
          (inr (omega (arith, e)), λ h. omega (arith, e, h), omega (arith, e))
      | inr first ↦
          let e : other_custom s ≡ s.mode_count - 1 = ground arith in
          (inl (omega (arith, e)), λ h. omega (arith, e, h), omega (arith, e))
    ]

-- On a table of modes SetCustomDisplay stays inside its arrays and leaves a table with as many
-- modes, in which the custom mode that was not in use has the display's size, or the least size
-- where that is larger, and is in use; every other mode is as it was.
pub set_custom_display_lem :
    (xres yres : ℕ) (s : Modes)
    → IsTable s
    → (t : Modes) × (set_custom_display xres yres s ≡ done t)
      × IsTable t
      × (t.mode_count ≡ s.mode_count)
      × (t.custom_mode ≢ s.custom_mode)
      × (get_elem? t.mode_info t.custom_mode
          ≡ some (video_mode_info t.custom_mode (custom_display xres yres)))
      × ((j : ℕ) → j ≢ t.custom_mode → get_elem? t.mode_info j ≡ get_elem? s.mode_info j)
unfolding set_custom_display
set_custom_display_lem xres yres s w =
    let c = other_custom s in
    let (place, new, inside) = other_custom-cases s w in
    let v = video_mode_info c (custom_display xres yres) in
    let room : c < length s.mode_info = omega (arith, w.infos) in
    (
      record s { custom_mode = c; mode_info = set s.mode_info c v },
      set_video_mode_info-in c (custom_display xres yres) (record s { custom_mode = c }) room,
      record {
        infos = length-set s.mode_info c v ∙ w.infos;
        numbers = w.numbers;
        least = w.least;
        most = w.most;
        custom = place;
        numbered = w.numbered;
      },
      refl,
      new,
      get_elem?-set_self s.mode_info c v room,
      λ j h. get_elem?-set_ne s.mode_info c j v (λ e. h (sym e)),
    )
