-- ===== src/Commit/Laws.antt =====
-- What CommitVidPn of viogpu/viogpudo/viogpudo.cpp relies on in a device and in its table of modes, and what it
-- owes to the kernel.
use graphics_drivers_wip.Base.{
  ℕ, zero, suc, ◌+◌, ◌<◌, ◌≤◌, ◌≡◌, ◌&&◌, not, refl, Bool, true, false, Option, none, some, List,
  [], ◌∷◌, ◌==◌, get_elem?, length, ==_iff, sym, subst, done, Bool-cases, inl, inr, arith,
}
use graphics_drivers_wip.Modes.{Modes, ModeInfo, get_at}
use graphics_drivers_wip.Modes.Table.{get_elem?-in}
use graphics_drivers_wip.Dod.{PresentPath}
use graphics_drivers_wip.Bdd.{BddMode, HwDeviceApi}
use graphics_drivers_wip.Commit.{
  VidPnCall, acquired_set, released_set, acquired_pinned, released_pinned, acquired_path,
  released_path, PinnedMode, with_source_mode, find_size,
}

-- Between two commits a view and the device's state satisfy `Holds`, and without a frame buffer
-- `Empty`.
pub record HwLaws (hw : HwDeviceApi) : Type 1 where
  pub Holds : BddMode → hw.Own → Type 0
  pub Empty : BddMode → hw.Own → Type 0
  pub empties :
      (cur : BddMode) (own : hw.Own)
      → Holds cur own
      → (not (cur.frame_ptr == 0) && not cur.do_not_map_or_unmap) ≡ false
      → Empty cur own
  pub releases :
      (cur : BddMode) (own : hw.Own)
      → Holds cur own
      → (not (cur.frame_ptr == 0) && not cur.do_not_map_or_unmap) ≡ true
      → Empty (hw.release_frame_buffer cur own).1 (hw.release_frame_buffer cur own).2
  pub keeps : (cur : BddMode) (own : hw.Own) → Empty cur own → Holds cur own
  pub refills :
      (m : PinnedMode) (p : PresentPath) (cur : BddMode) (own : hw.Own)
      → Empty cur own
      → Empty (with_source_mode m p cur) own
  pub acquires :
      (cur : BddMode) (own : hw.Own)
      → Empty cur own
      → Holds (hw.acquire_frame_buffer cur own).1 (hw.acquire_frame_buffer cur own).2
  pub presents :
      (cur : BddMode) (own : hw.Own)
      → Holds cur own
      → Holds (record cur { fullscreen_present = true }) own
  pub sets :
      (mode : ℕ) (table : Modes) (cur : BddMode) (own : hw.Own)
      → Holds cur own
      → (r : Bool × BddMode × hw.Own) × (hw.set_current_mode mode table cur own ≡ done r)
        × Holds r.1 r.2

-- The arrays of the table are as long as its count.
pub record IsLongEnough (t : Modes) : Type 0 where
  pub infos : t.mode_count ≤ length t.mode_info
  pub numbers : t.mode_count ≤ length t.mode_numbers

abbrev pub total : (VidPnCall → ℕ) → List VidPnCall → ℕ
total f [] = 0
total f (c ∷ cs) = f c + total f cs

abbrev pub is_acquired_set : VidPnCall → ℕ
is_acquired_set acquired_set = 1
is_acquired_set _ = 0

abbrev pub is_released_set : VidPnCall → ℕ
is_released_set released_set = 1
is_released_set _ = 0

abbrev pub is_acquired_pinned : VidPnCall → ℕ
is_acquired_pinned acquired_pinned = 1
is_acquired_pinned _ = 0

abbrev pub is_released_pinned : VidPnCall → ℕ
is_released_pinned released_pinned = 1
is_released_pinned _ = 0

abbrev pub is_acquired_path : VidPnCall → ℕ
is_acquired_path acquired_path = 1
is_acquired_path _ = 0

abbrev pub is_released_path : VidPnCall → ℕ
is_released_path released_path = 1
is_released_path _ = 0

-- What is acquired is released, as often.
pub record IsBalanced (cs : List VidPnCall) : Type 0 where
  pub source_mode_sets : total is_acquired_set cs ≡ total is_released_set cs
  pub pinned_modes : total is_acquired_pinned cs ≡ total is_released_pinned cs
  pub paths : total is_acquired_path cs ≡ total is_released_path cs

pub get_at_done :
    {A : Type 0} (xs : List A) (i : ℕ)
    → i < length xs
    → (v : A) × (get_elem? xs i ≡ some v) × (get_at xs i ≡ done v)
unfolding get_at
get_at_done xs i h = let (v, e) = get_elem?-in xs i h in (v, e, rw (get_at, e) refl)

-- The search for a size ends. It finds the first mode of the size, from the index on, or there is none.
abbrev pub has_size : ℕ → ℕ → ModeInfo → Bool
has_size w h i = w == i.vis_screen_width && h == i.vis_screen_height

pub record IsFirst (w h idx n : ℕ) (infos : List ModeInfo) (k : ℕ) : Type 0 where
  pub at_least : idx ≤ k
  pub below : k < idx + n
  pub fits : (i : ModeInfo) → get_elem? infos k ≡ some i → has_size w h i ≡ true
  pub first :
      (j : ℕ) (i : ModeInfo) → idx ≤ j → j < k → get_elem? infos j ≡ some i → has_size w h i ≡ false

abbrev pub Finds : ℕ → ℕ → ℕ → ℕ → List ModeInfo → Option ℕ → Type 0
Finds w h idx n infos none =
    (j : ℕ) (i : ModeInfo)
    → idx ≤ j
    → j < idx + n
    → get_elem? infos j ≡ some i
    → has_size w h i ≡ false
Finds w h idx n infos (some k) = IsFirst w h idx n infos k

not_first :
    (w h idx j : ℕ) (infos : List ModeInfo) (v i : ModeInfo)
    → get_elem? infos idx ≡ some v
    → has_size w h v ≡ false
    → (idx == j) ≡ true
    → get_elem? infos j ≡ some i
    → has_size w h i ≡ false
not_first w h idx j infos v i e no_fit same c =
    let k : idx ≡ j = (==_iff idx j).0 same in
    let d : get_elem? infos idx ≡ some i = subst (λ z. get_elem? infos z ≡ some i) (sym k) c in
    let u : v ≡ i = cc in subst (λ z. has_size w h z ≡ false) u no_fit

-- One more mode in front that does not fit.
widen :
    (w h n idx : ℕ) (infos : List ModeInfo) (r : Option ℕ) (v : ModeInfo)
    → get_elem? infos idx ≡ some v
    → has_size w h v ≡ false
    → Finds w h (suc idx) n infos r
    → Finds w h idx (suc n) infos r
widen w h n idx infos none v e no_fit f = λ j i a b c. elim (Bool-cases (idx == j)) [
  | inl same ↦ not_first w h idx j infos v i e no_fit same c
  | inr other ↦ f j i (ground arith) (omega arith) c
]
widen w h n idx infos (some k) v e no_fit f = record {
  at_least = omega (arith, f.at_least);
  below = omega (arith, f.below);
  fits = f.fits;
  first = λ j i a b c. elim (Bool-cases (idx == j)) [
    | inl same ↦ not_first w h idx j infos v i e no_fit same c
    | inr other ↦ f.first j i (ground arith) b c
  ];
}

pub find_size_lem :
    (w h n idx : ℕ) (infos : List ModeInfo)
    → idx + n ≤ length infos
    → (r : Option ℕ) × (find_size w h n idx infos ≡ done r) × Finds w h idx n infos r
unfolding find_size
find_size_lem w h zero idx infos l = (none, refl, λ j i a b e. absurd (omega arith))
find_size_lem w h (suc n) idx infos l =
    let (v, e, d) = get_at_done infos idx (omega arith) in
    elim (Bool-cases (has_size w h v)) [
      | inl fits ↦ (
        some idx,
        rw (d, fits) refl,
        record {
          at_least = omega arith;
          below = omega arith;
          fits = λ i a. let u : v ≡ i = cc in subst (λ z. has_size w h z ≡ true) u fits;
          first = λ j i a b c. absurd (omega arith);
        },
      )
      | inr no_fit ↦
          let (r, q, f) = find_size_lem w h n (suc idx) infos (omega arith) in
          (r, rw (d, no_fit) q, widen w h n idx infos r v e no_fit f)
    ]
