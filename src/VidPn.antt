-- ===== src/VidPn.antt =====
-- The modes and the supports that VioGpuDod of viogpu/viogpudo/viogpudo.cpp offers to the display kernel:
-- AddSingleSourceMode, AddSingleTargetMode, AddSingleMonitorMode, IsSupportedVidPn, and the support
-- fields of EnumVidPnCofuncModality. What the kernel's mode sets answer is given beforehand.
pub mod Offers
pub mod Support
mod Examples
use graphics_drivers_wip.Base.{
  ℕ, zero, suc, ◌&&◌, not, Bool, true, false, Option, none, some, List, [], ◌∷◌, ◌++◌, ltb, ◌==◌,
  if◌then◌else◌, Outcome, done, ◌>>=◌,
}
use graphics_drivers_wip.Blit.{Rotation, unpinned}
use graphics_drivers_wip.Modes.{Modes, ModeInfo, get_at}
use graphics_drivers_wip.Dod.{Status, success, call_failed, max_views, max_children}

-- A mode set of the kernel, by the number of the attempt: whether a mode info is created, what becomes
-- of adding it, and whether it is released.
pub data Added : Type 0 where
  added already_in refused : Added

pub record ModeSet : Type 0 where
  pub create : ℕ → Bool
  pub add : ℕ → Added
  pub release : ℕ → Bool

pub data Preference : Type 0 where
  preferred not_preferred : Preference

-- A mode info is created; it is added with a size, or the kernel is asked to release it.
pub data ModeCall : Type 0 where
  created : ModeCall
  put : ℕ → ℕ → Preference → ModeCall
  given_back : ModeCall

abbrev pub status_of : Bool → Status
status_of true = success
status_of false = call_failed

-- The loop of AddSingleSourceMode, with `n` modes left from index `idx` on: the status, and the calls.
unfoldable pub add_source_modes : ModeSet → ℕ → ℕ → List ModeInfo → Outcome (Status × List ModeCall)
unfolding get_at
add_source_modes k zero idx infos = done (success, [])
add_source_modes k (suc n) idx infos =
    let rest = add_source_modes k n (suc idx) infos in
    get_at infos idx >>= λ i.
    let size = put i.vis_screen_width i.vis_screen_height not_preferred in
    if not (k.create idx) then done (call_failed, []) else elim (k.add idx) [
      | added ↦ rest >>= λ r. done (r.0, created ∷ size ∷ r.1)
      | already_in ↦ rest >>= λ r. done (r.0, created ∷ given_back ∷ r.1)
      | refused ↦ done (call_failed, created ∷ given_back ∷ [])
    ]

-- AddSingleTargetMode: the size is that of the mode whose index is the source's id, in every round; and
-- whatever cannot be added is passed over.
unfoldable pub add_target_modes :
    ModeSet → ℕ → ℕ → ℕ → List ModeInfo → Outcome (Status × List ModeCall)
unfolding get_at
add_target_modes k source zero idx infos = done (success, [])
add_target_modes k source (suc n) idx infos =
    let rest = add_target_modes k source n (suc idx) infos in
    get_at infos source >>= λ i.
    let size = put i.vis_screen_width i.vis_screen_height not_preferred in
    if not (k.create idx) then done (call_failed, []) else elim (k.add idx) [
      | added ↦ rest >>= λ r. done (r.0, created ∷ size ∷ r.1)
      | _ ↦ rest >>= λ r. done (r.0, created ∷ given_back ∷ r.1)
    ]

-- The loop of AddSingleMonitorMode; the attempt after the first one has the number `suc idx`. It returns the
-- status of its last call.
unfoldable pub add_monitor_rest :
    ModeSet → Status → ℕ → ℕ → List ModeInfo → Outcome (Status × List ModeCall)
unfolding get_at
add_monitor_rest k last zero idx infos = done (last, [])
add_monitor_rest k last (suc n) idx infos =
    let rest_added = add_monitor_rest k success n (suc idx) infos in
    let rest = add_monitor_rest k (status_of (k.release (suc idx))) n (suc idx) infos in
    get_at infos idx >>= λ i.
    let size = put i.vis_screen_width i.vis_screen_height not_preferred in
    if not (k.create (suc idx)) then done (call_failed, []) else elim (k.add (suc idx)) [
      | added ↦ rest_added >>= λ r. done (r.0, created ∷ size ∷ r.1)
      | _ ↦ rest >>= λ r. done (r.0, created ∷ given_back ∷ r.1)
    ]

-- AddSingleMonitorMode: the current mode is added first.
unfoldable pub add_monitor_modes : ModeSet → Modes → Outcome (Status × List ModeCall)
unfolding add_monitor_rest get_at
add_monitor_modes k m = if not (k.create 0) then done (call_failed, []) else (do
  i ← get_at m.mode_info m.current_mode
  let size = put i.vis_screen_width i.vis_screen_height preferred
  elim (k.add 0) as (λ _. Outcome (Status × List ModeCall)) [
    | added ↦ add_monitor_rest k success m.mode_count 0 m.mode_info >>= λ r.
        done (r.0, created ∷ size ∷ r.1)
    | already_in ↦ done (success, created ∷ given_back ∷ [])
    | refused ↦ done (call_failed, created ∷ given_back ∷ [])
  ])

-- What the kernel says of the paths from a source.
pub data PathCount : Type 0 where
  not_in_topology : PathCount
  count_failed : PathCount
  counted : ℕ → PathCount

-- The loop of IsSupportedVidPn over the sources, from `id` on: the status and IsVidPnSupported.
unfoldable pub check_sources : (ℕ → PathCount) → ℕ → ℕ → Status × Bool
check_sources paths zero id = (success, true)
check_sources paths (suc n) id =
    let rest = check_sources paths n (suc id) in
    elim (paths id) [
      | not_in_topology ↦ rest
      | count_failed ↦ (call_failed, false)
      | counted k ↦ if ltb max_children k then (success, false) else rest
    ]

-- IsSupportedVidPn, by whether the VidPn is null and what the two queries answer.
unfoldable pub is_supported_vid_pn : Bool → Bool → Bool → (ℕ → PathCount) → Status × Bool
unfolding check_sources
is_supported_vid_pn is_null query_interface get_topology paths =
    if is_null
    then (success, true)
    else if not query_interface
    then (call_failed, false)
    else if not get_topology
    then (call_failed, false)
    else check_sources paths max_views 0

-- D3DKMDT_ENUMCOFUNCMODALITY_PIVOT_TYPE
pub data PivotType : Type 0 where
  vid_pn_source vid_pn_target scaling_pivot rotation_pivot no_pivot : PivotType

pub record Pivot : Type 0 where
  pub type : PivotType
  pub source_id : ℕ
  pub target_id : ℕ

abbrev pub is_scaling : PivotType → Bool
is_scaling scaling_pivot = true
is_scaling _ = false

abbrev pub is_rotation : PivotType → Bool
is_rotation rotation_pivot = true
is_rotation _ = false

abbrev pub is_unpinned : Rotation → Bool
is_unpinned unpinned = true
is_unpinned _ = false

-- A present path as the enumeration reads it: its ids, whether its scaling is unpinned, its rotation,
-- and its supports: identity and centered, and the rotations by 0, 90, 180 and 270 degrees.
pub record Supports : Type 0 where
  pub source_id : ℕ
  pub target_id : ℕ
  pub scaling_unpinned : Bool
  pub rotation : Rotation
  pub scaling_support : Bool × Bool
  pub rotation_support : Bool × Bool × Bool × Bool

-- The support fields of a path, and whether they were modified.
unfoldable pub offer_supports : Pivot → Supports → Bool × Supports
offer_supports v p =
    let at_path = v.source_id == p.source_id && v.target_id == p.target_id in
    let scaling = not (is_scaling v.type && at_path) && p.scaling_unpinned in
    let rotation = not (not (is_rotation v.type) && at_path) && is_unpinned p.rotation in
    (
      if scaling then true else rotation,
      record p {
        scaling_support = (if scaling then (true, true) else p.scaling_support);
        rotation_support = (if rotation then (true, true, false, false) else p.rotation_support);
      },
    )
