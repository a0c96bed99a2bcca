-- ===== src/Dod/Path.antt =====
-- The checks and updates of a present path by VioGpuDod in viogpu/viogpudo/viogpudo.cpp, and its search for
-- the screen of a bugcheck.
use graphics_drivers_wip.Base.{
  ==_iff, ℕ, zero, suc, ◌+◌, ◌<◌, ◌≡◌, ◌≢◌, ◌↔◌, ◌⊎◌, inl, inr, refl, ap, sym, ◌∙◌, true,
  Bool-cases, none, some, List, [], ◌∷◌, ltb_iff, ◌==◌, if◌then◌else◌, length, get_elem?,
  get_elem?-set_self, get_elem?-set_ne, set, done, arith,
}
use graphics_drivers_wip.Modes.{get_at}
use graphics_drivers_wip.Modes.Table.{get_elem?-in, set_at-in}
use graphics_drivers_wip.Dod.{
  Status, success, unsuccessful, invalid_video_present_source, invalid_video_present_target,
  gamma_ramp_not_supported, vidpn_modality_not_supported, invalid_video_present_source_mode,
  call_failed, insufficient_resources, no_memory, invalid_parameter, not_supported, max_views,
  max_children, PresentPath, SourceMode, is_scaling_valid, is_rotation_valid, is_color_basis_valid,
  is_argb, check_path, check_source_mode, is_success, View, update_active_path, find_mapped,
  find_source_for_target, is_sideways, system_display_enable,
}

-- What a path has to be.
pub record IsSupported (p : PresentPath) : Type 0 where
  pub source : p.source_id < max_views
  pub target : p.target_id < max_children
  pub gamma : p.is_default_gamma ≡ true
  pub scaling : is_scaling_valid p.scaling ≡ true
  pub rotation : is_rotation_valid p.rotation ≡ true
  pub basis : is_color_basis_valid p.target_color_basis ≡ true

-- A path passes the check if and only if its source and its target exist, it has the default gamma
-- ramp, and its scaling, its rotation and its colour basis are among those supported.
check_path_lem : (p : PresentPath) → (check_path p ≡ success) ↔ IsSupported p
unfolding check_path
check_path_lem p = (
  λ e. record {
    source = ground arith;
    target = ground arith;
    gamma = ground arith;
    scaling = ground arith;
    rotation = ground arith;
    basis = ground arith;
  },
  λ s.
      rw
        (
          (ltb_iff p.source_id max_views).1 s.source,
          (ltb_iff p.target_id max_children).1 s.target,
          s.gamma,
          s.scaling,
          s.rotation,
          s.basis,
        )
        refl,
)

-- A source mode passes the check if and only if it is a graphics mode with direct pixel values, in a
-- supported colour basis, and with the format A8R8G8B8.
check_source_mode_lem :
    (m : SourceMode)
    → (check_source_mode m ≡ success) ↔ (
        (m.is_graphics ≡ true)
        × (is_color_basis_valid m.color_basis ≡ true)
        × (m.is_direct ≡ true)
        × (is_argb m.pixel_format ≡ true))
unfolding check_source_mode
check_source_mode_lem m = (
  λ e. (ground arith, ground arith, ground arith, ground arith),
  λ (g, b, d, f). rw (g, b, d, f) refl,
)

get_at-is :
    {A : Type 0} (xs : List A) (i : ℕ) (v : A) → get_elem? xs i ≡ some v → get_at xs i ≡ done v
unfolding get_at
get_at-is xs i v e = rw (get_at, e) refl

-- The views after an update for a path that is supported.
abbrev updated : PresentPath → View → List View → List View
updated p v views =
    set views p.source_id (record v { fullscreen_present = true; rotation = p.rotation })

pub is_success_iff : (s : Status) → is_success s ≡ true → s ≡ success
is_success_iff success e = refl
is_success_iff unsuccessful e = cc
is_success_iff invalid_video_present_source e = cc
is_success_iff invalid_video_present_target e = cc
is_success_iff gamma_ramp_not_supported e = cc
is_success_iff vidpn_modality_not_supported e = cc
is_success_iff invalid_video_present_source_mode e = cc
is_success_iff call_failed e = cc
is_success_iff insufficient_resources e = cc
is_success_iff no_memory e = cc
is_success_iff invalid_parameter e = cc
is_success_iff not_supported e = cc

-- With a view for each source, an update of the active path stays inside the views and returns what
-- the check of the path says. It changes the view of the path's source only, and only if the path is
-- supported: then the next present is a full one and the rotation is that of the path.
update_active_path_lem :
    (p : PresentPath) (views : List View)
    → length views ≡ max_views
    → (t : List View) × (update_active_path p views ≡ done (check_path p, t))
      × ((check_path p ≢ success) → t ≡ views)
      × ((check_path p ≡ success)
          → (v : View) × (get_elem? views p.source_id ≡ some v)
            × (get_elem? t p.source_id
                ≡ some (record v { fullscreen_present = true; rotation = p.rotation })))
      × ((j : ℕ) → j ≢ p.source_id → get_elem? t j ≡ get_elem? views j)
unfolding update_active_path
update_active_path_lem p views len = elim (Bool-cases (is_success (check_path p))) [
  | inl ok ↦
      let passed = is_success_iff (check_path p) ok in
      let source = ((check_path_lem p).0 passed).source in
      let inside : p.source_id < length views = omega (arith, source, len) in
      let (v, at) = get_elem?-in views p.source_id inside in
      let w = record v { fullscreen_present = true; rotation = p.rotation } in
      (
        updated p v views,
        rw (passed, get_at-is views p.source_id v at, set_at-in views p.source_id w inside) refl,
        λ n. absurd (n passed),
        λ _. (v, at, get_elem?-set_self views p.source_id w inside),
        λ j n. get_elem?-set_ne views p.source_id j w (λ e. n (sym e)),
      )
  | inr fails ↦ (views, rw fails refl, λ n. refl, λ e. cc, λ j n. refl)
]

-- No view before index `n` has a mapped frame buffer.
abbrev pub NoneMapped : ℕ → List View → Type 0
NoneMapped n views = (j : ℕ) (v : View) → j < n → get_elem? views j ≡ some v → v.frame_ptr ≡ 0

NoneMapped-cons :
    (v : View) (vs : List View) (n : ℕ)
    → v.frame_ptr ≡ 0
    → NoneMapped n vs
    → NoneMapped (suc n) (v ∷ vs)
NoneMapped-cons v vs n z all zero w h e = cc
NoneMapped-cons v vs n z all (suc k) w h e = all k w (omega arith) e

find_mapped_lem :
    (views : List View) (n : ℕ)
    → ((find_mapped views n ≡ none) × ((j : ℕ) → NoneMapped j views))
      ⊎ ((i : ℕ) × (v : View) × (find_mapped views n ≡ some (n + i))
          × (get_elem? views i ≡ some v)
          × (v.frame_ptr ≢ 0)
          × NoneMapped i views)
unfolding find_mapped
find_mapped_lem [] n = inl (refl, λ j k v h e. cc)
find_mapped_lem (v ∷ vs) n = elim (Bool-cases (v.frame_ptr == 0)) [
  | inl z ↦ elim (find_mapped_lem vs (suc n)) [
    | inl (d, all) ↦ inl (
      rw z d,
      λ j k w h e. NoneMapped-cons v vs j ((==_iff v.frame_ptr 0).0 z) (all j) k w (omega arith) e,
    )
    | inr (i, w, d, at, mapped, before) ↦ inr (
      suc i,
      w,
      rw z (d ∙ ap some (omega arith)),
      at,
      mapped,
      NoneMapped-cons v vs i ((==_iff v.frame_ptr 0).0 z) before,
    )
  ]
  | inr m ↦
      inr (
        0,
        v,
        rw m (ap some (omega arith)),
        refl,
        λ e. ground arith,
        λ k u h e. absurd (omega arith),
      )
]

-- SystemDisplayEnable always comes to a result. It fails if and only if no source has a mapped frame
-- buffer; else it gives the first source that has one, with its colour format and its
-- width and height, which change places if the source is rotated by a quarter turn.
system_display_enable_lem :
    (views : List View)
    → ((system_display_enable views ≡ done none) × ((j : ℕ) → NoneMapped j views))
      ⊎ ((i : ℕ) × (v : View) × (get_elem? views i ≡ some v)
          × (v.frame_ptr ≢ 0)
          × NoneMapped i views
          × (system_display_enable views
              ≡ done (
                  some (
                    i,
                    if is_sideways v.rotation then v.height else v.width,
                    if is_sideways v.rotation then v.width else v.height,
                    v.color_format,
                  ))))
unfolding system_display_enable
system_display_enable_lem views = elim (find_mapped_lem views 0) [
  | inl (d, all) ↦ inl (rw (system_display_enable, find_source_for_target, d) refl, all)
  | inr (i, v, d, at, mapped, before) ↦
      let same : 0 + i ≡ i = omega arith in
      inr (
        i,
        v,
        at,
        mapped,
        before,
        rw (system_display_enable, find_source_for_target, d, same, get_at-is views i v at) refl,
      )
]
