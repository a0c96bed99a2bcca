-- ===== src/Commit.antt =====
-- CommitVidPn and SetSourceModeAndPath of VioGpuDod in viogpu/viogpudo/viogpudo.cpp. What the kernel's VidPn
-- callbacks answer is given beforehand, and their acquiring and releasing calls are recorded.
pub mod Laws
pub mod Fitting
pub mod Paths
pub mod Flow
use graphics_drivers_wip.Base.{
  ℕ, zero, suc, ◌+◌, ◌*◌, ◌/◌, ◌&&◌, ◌||◌, not, Bool, true, false, Option, none, some, List, [],
  ◌∷◌, ◌++◌, ◌==◌, if◌then◌else◌, u32, Outcome, done, ◌>>=◌,
}
use graphics_drivers_wip.Blit.{bpp_from_pixel_format}
use graphics_drivers_wip.Modes.{Modes, ModeInfo, get_at, set_at}
use graphics_drivers_wip.Dod.{
  Status, success, call_failed, PresentPath, SourceMode, check_path, check_source_mode, is_success,
}
use graphics_drivers_wip.Bdd.{BddMode, HwDeviceApi}

-- D3DKMDT_VIDPN_SOURCE_MODE
pub record PinnedMode : Type 0 where
  pub checked : SourceMode
  pub prim_width : ℕ
  pub prim_height : ℕ
  pub visible_width : ℕ
  pub visible_height : ℕ

pub data VidPnCall : Type 0 where
  acquired_set released_set acquired_pinned released_pinned : VidPnCall
  acquired_path released_path refused_path : VidPnCall

-- The kernel's answers in one CommitVidPn; `none` and `false` are failures. The path with an index has
-- a target, is acquired, and is released.
pub record VidPn : Type 0 where
  pub path_powered_off : Bool
  pub query_interface : Bool
  pub get_topology : Bool
  pub num_paths : Option ℕ
  pub acquire_set : Bool
  pub acquire_pinned : Option (Option PinnedMode)
  pub num_paths_from_source : Option ℕ
  pub target_of_path : ℕ → Option ℕ
  pub acquire_path : ℕ → Option PresentPath
  pub release_path : ℕ → Bool

-- The part of CURRENT_BDD_MODE that SetSourceModeAndPath fills.
abbrev pub with_source_mode : PinnedMode → PresentPath → BddMode → BddMode
with_source_mode m p cur = record cur {
  scaling = p.scaling;
  src_mode_width = m.visible_width;
  src_mode_height = m.visible_height;
  rotation = p.rotation;
  disp_info = record cur.disp_info {
    width = m.prim_width;
    height = m.prim_height;
    pitch = u32 (m.prim_width * bpp_from_pixel_format cur.disp_info.color_format) / 8;
  };
}

-- The loop over the table of modes for one of the given size: its index.
unfoldable pub find_size : ℕ → ℕ → ℕ → ℕ → List ModeInfo → Outcome (Option ℕ)
unfolding get_at
find_size width height zero idx infos = done none
find_size width height (suc n) idx infos =
    let rest = find_size width height n (suc idx) infos in
    get_at infos idx >>= λ i.
    if width == i.vis_screen_width && height == i.vis_screen_height then done (some idx) else rest

module _ (hw : HwDeviceApi) where
  open hw use {Own, set_current_mode, acquire_frame_buffer, release_frame_buffer}

  -- The views, the device's table of modes and its own state, and the recorded calls.
  pub record Adapter : Type 0 where
    pub modes : List BddMode
    pub table : Modes
    pub own : Own
    pub calls : List VidPnCall

  abbrev pub called : VidPnCall → Adapter → Adapter
  called c s = record s { calls = s.calls ++ (c ∷ []) }

  abbrev pub called_if : Bool → VidPnCall → Adapter → Adapter
  called_if true c s = called c s
  called_if false c s = s

  -- The mode of the device that fits, once the frame buffer is acquired.
  unfoldable pub set_fitting_mode : ℕ → BddMode → Adapter → Outcome (Status × Adapter)
  unfolding find_size get_at set_at
  set_fitting_mode source cur s = do
    found ←
        find_size cur.disp_info.width cur.disp_info.height s.table.mode_count 0 s.table.mode_info
    elim found as (λ _. Outcome (Status × Adapter)) [
      | none ↦ (do modes₁ ← set_at s.modes source cur; done (success, record s { modes = modes₁ }))
      | some idx ↦ (do
        number ← get_at s.table.mode_numbers idx
        (ok, cur₁, own₁) ← set_current_mode number s.table cur s.own
        modes₁ ← set_at s.modes source cur₁
        done (
          if ok then success else call_failed,
          record s {
            modes = modes₁;
            own = own₁;
            table = (if ok then record s.table { current_mode = idx } else s.table);
          },
        ))
    ]

  -- SetSourceModeAndPath, for the view of the given source.
  unfoldable pub set_source_mode :
      ℕ → PinnedMode → PresentPath → Adapter → Outcome (Status × Adapter)
  unfolding set_fitting_mode get_at set_at
  set_source_mode source m p s = do
    cur ← get_at s.modes source
    let (ok, cur₁, own₁) = acquire_frame_buffer (with_source_mode m p cur) s.own
    if ok
        then set_fitting_mode source (record cur₁ { fullscreen_present = true })
            (record s { own = own₁ })
        else (do
          modes₁ ← set_at s.modes source cur₁
          done (call_failed, record s { modes = modes₁; own = own₁ }))

  unfoldable pub set_source_mode_and_path :
      PinnedMode → PresentPath → Adapter → Outcome (Status × Adapter)
  unfolding set_source_mode
  set_source_mode_and_path m p s = set_source_mode p.source_id m p s

  -- One round of the loop over the paths from the source; the second component says whether the path
  -- is still held.
  unfoldable pub commit_path : VidPn → PinnedMode → ℕ → Adapter → Outcome (Status × Bool × Adapter)
  unfolding set_source_mode_and_path check_path
  commit_path v m i s = elim (v.target_of_path i) [
    | none ↦ done (call_failed, false, s)
    | some target ↦ elim (v.acquire_path i) as (λ _. Outcome (Status × Bool × Adapter)) [
      | none ↦ done (call_failed, false, s)
      | some p ↦
          if not (is_success (check_path p))
          then done (check_path p, true, called acquired_path s)
          else (do
            (status, s₁) ← set_source_mode_and_path m p (called acquired_path s)
            done (
                if not (is_success status)
                then (status, true, s₁)
                else if v.release_path i
                then (success, false, called released_path s₁)
                else (call_failed, true, called refused_path s₁)))
    ]
  ]

  unfoldable pub commit_paths :
      VidPn → PinnedMode → ℕ → ℕ → Adapter → Outcome (Status × Bool × Adapter)
  unfolding commit_path
  commit_paths v m zero i s = done (success, false, s)
  commit_paths v m (suc n) i s = do
    t ← commit_path v m i s
    let rest = commit_paths v m n (suc i) t.2
    if is_success t.0 then rest else done t

  -- The old frame buffer is released, if it is mapped.
  unfoldable pub release_old : BddMode → Own → Bool × BddMode × Own
  release_old cur own =
      if not (cur.frame_ptr == 0) && not cur.do_not_map_or_unmap
      then release_frame_buffer cur own
      else (true, cur, own)

  -- The new mode is none if the source has no paths or no pinned mode.
  unfoldable pub commit_pinned :
      VidPn → Option PinnedMode → Adapter → Outcome (Status × Bool × Adapter)
  unfolding commit_paths check_source_mode
  commit_pinned v none s = done (success, false, s)
  commit_pinned v (some m) s =
      if not (is_success (check_source_mode m.checked))
      then done (check_source_mode m.checked, false, s)
      else elim v.num_paths_from_source [
        | none ↦ done (call_failed, false, s)
        | some n ↦ commit_paths v m n 0 s
      ]

  -- From the release of the old frame buffer on.
  unfoldable pub commit_mode :
      VidPn → ℕ → Option PinnedMode → Adapter → Outcome (Status × Bool × Adapter)
  unfolding get_at set_at release_old commit_pinned
  commit_mode v source pinned s = do
    cur ← get_at s.modes source
    let (ok, cur₁, own₁) = release_old cur s.own
    modes₁ ← set_at s.modes source cur₁
    let s₁ = record s { modes = modes₁; own = own₁ }
    if ok then commit_pinned v pinned s₁ else done (call_failed, false, s₁)

  -- CommitVidPnExit: what is still held is released.
  abbrev pub commit_exit : Bool → Bool → Status × Bool × Adapter → Outcome (Status × Adapter)
  commit_exit pinned set t = done (
    t.0,
    called_if t.1 released_path (called_if set released_set (called_if pinned released_pinned t.2)),
  )

  -- Once the source mode set is acquired.
  unfoldable pub commit_set : VidPn → ℕ → Adapter → Outcome (Status × Adapter)
  unfolding commit_mode
  commit_set v source s = elim v.acquire_pinned [
    | none ↦ commit_exit false true (call_failed, false, s)
    | some none ↦ commit_mode v source none s >>= commit_exit false true
    | some (some m) ↦
        commit_mode v source (some m) (called acquired_pinned s) >>= commit_exit true true
  ]

  -- CommitVidPn
  unfoldable pub commit_vid_pn : VidPn → ℕ → Adapter → Outcome (Status × Adapter)
  unfolding commit_mode commit_set
  commit_vid_pn v source s =
      if v.path_powered_off
      then done (success, s)
      else if not v.query_interface || not v.get_topology
      then done (call_failed, s)
      else elim v.num_paths [
        | none ↦ done (call_failed, s)
        | some zero ↦ commit_mode v source none s >>= commit_exit false false
        | some (suc n) ↦
            if not v.acquire_set
            then done (call_failed, s)
            else commit_set v source (called acquired_set s)
      ]
