-- ===== src/VidPn/Offers.antt =====
-- Which modes AddSingleSourceMode, AddSingleTargetMode and AddSingleMonitorMode of
-- viogpu/viogpudo/viogpudo.cpp offer, and what they give back.
use graphics_drivers_wip.Base.{
  ℕ, zero, suc, ◌+◌, ◌≤◌, ◌<◌, ◌≡◌, ◌⊎◌, refl, ap, Bool, true, false, none, some, if◌then◌else◌,
  List, [], ◌∷◌, length, get_elem?, done, Bool-cases, inl, inr, arith,
}
use graphics_drivers_wip.Modes.{Modes, ModeInfo, get_at}
use graphics_drivers_wip.Dod.{Status, success, call_failed}
use graphics_drivers_wip.Commit.Laws.{get_at_done}
use graphics_drivers_wip.VidPn.{
  status_of, Added, added, already_in, refused, ModeSet, ModeCall, created, put, given_back,
  preferred, not_preferred, add_source_modes, add_target_modes, add_monitor_rest, add_monitor_modes,
}

-- Every created mode info is added or given back before the next one is created.
abbrev pub IsSettled : List ModeCall → Type 0
IsSettled [] = Unit {0}
IsSettled (created ∷ put w h f ∷ l) = IsSettled l
IsSettled (created ∷ given_back ∷ l) = IsSettled l
IsSettled (_ ∷ _) = ⊥

-- The sizes that are added.
abbrev pub sizes : List ModeCall → List (ℕ × ℕ)
sizes [] = []
sizes (put w h f ∷ l) = (w, h) ∷ sizes l
sizes (_ ∷ l) = sizes l

abbrev pub is_already_in : Added → Bool
is_already_in already_in = true
is_already_in _ = false

-- The sizes of the modes that the set does not have already, of `n` modes from index `idx` on, in the order of
-- the table. (A mode that the set refuses is one that it does not have.)
unfoldable pub missing : ModeSet → ℕ → ℕ → List ModeInfo → List (ℕ × ℕ)
missing k zero idx infos = []
missing k (suc n) idx infos =
    let rest = missing k n (suc idx) infos in
    elim (get_elem? infos idx) [
      | none ↦ rest
      | some i ↦
          if is_already_in (k.add idx)
          then rest
          else (i.vis_screen_width, i.vis_screen_height) ∷ rest
    ]

Added-cases : (a : Added) → (a ≡ added) ⊎ ((a ≡ already_in) ⊎ (a ≡ refused))
Added-cases added = inl refl
Added-cases already_in = inr (inl refl)
Added-cases refused = inr (inr refl)

-- AddSingleSourceMode on a table whose array is long enough ends. Every mode info that it creates it
-- adds or gives back; and if it succeeds, it has added the sizes of all the table's modes, in order,
-- except those that the set had already, so that no mode was refused.
pub add_source_modes_lem :
    (k : ModeSet) (n idx : ℕ) (infos : List ModeInfo)
    → idx + n ≤ length infos
    → (r : Status × List ModeCall) × (add_source_modes k n idx infos ≡ done r)
      × IsSettled r.1
      × (r.0 ≡ success → sizes r.1 ≡ missing k n idx infos)
unfolding add_source_modes missing
add_source_modes_lem k zero idx infos l = ((success, []), refl, tt, λ _. refl)
add_source_modes_lem k (suc n) idx infos l =
    let (i, e, d) = get_at_done infos idx (omega arith) in
    let (r, q, settled, all) = add_source_modes_lem k n (suc idx) infos (omega arith) in
    elim (Bool-cases (k.create idx)) [
      | inr failed ↦ ((call_failed, []), rw (d, failed) refl, tt, λ z. cc)
      | inl made ↦ elim (Added-cases (k.add idx)) [
        | inl a ↦ (
          (r.0, created ∷ put i.vis_screen_width i.vis_screen_height not_preferred ∷ r.1),
          rw (d, made, a, q) refl,
          settled,
          λ z. rw (missing, e, a) (ap (λ t. (i.vis_screen_width, i.vis_screen_height) ∷ t) (all z)),
        )
        | inr (inl a) ↦ (
          (r.0, created ∷ given_back ∷ r.1),
          rw (d, made, a, q) refl,
          settled,
          λ z. rw (missing, e, a) (all z),
        )
        | inr (inr a) ↦
            ((call_failed, created ∷ given_back ∷ []), rw (d, made, a) refl, tt, λ z. cc)
      ]
    ]

-- Every size in the list is the given one.
abbrev pub AllOf : ℕ → ℕ → List (ℕ × ℕ) → Type 0
AllOf w h [] = Unit {0}
AllOf w h ((x, y) ∷ l) = (x ≡ w) × (y ≡ h) × AllOf w h l

-- AddSingleTargetMode for a source whose id is an index of the table ends, and every mode info that it
-- creates it adds or gives back. But all the modes that it adds have one size, that of the
-- table's mode at the index of the source's id, whatever modes the table has.
add_target_modes_lem :
    (k : ModeSet) (source n idx : ℕ) (infos : List ModeInfo) (m : ModeInfo)
    → get_elem? infos source ≡ some m
    → (r : Status × List ModeCall) × (add_target_modes k source n idx infos ≡ done r)
      × IsSettled r.1
      × AllOf m.vis_screen_width m.vis_screen_height (sizes r.1)
unfolding add_target_modes
add_target_modes_lem k source zero idx infos m e = ((success, []), refl, tt, tt)
add_target_modes_lem k source (suc n) idx infos m e =
    let d : get_at infos source ≡ done m = rw (get_at, e) refl in
    let (r, q, settled, all) = add_target_modes_lem k source n (suc idx) infos m e in
    elim (Bool-cases (k.create idx)) [
      | inr failed ↦ ((call_failed, []), rw (d, failed) refl, tt, tt)
      | inl made ↦ elim (Added-cases (k.add idx)) [
        | inl a ↦ (
          (r.0, created ∷ put m.vis_screen_width m.vis_screen_height not_preferred ∷ r.1),
          rw (d, made, a, q) refl,
          settled,
          (refl, refl, all),
        )
        | inr (inl a) ↦ ((r.0, created ∷ given_back ∷ r.1), rw (d, made, a, q) refl, settled, all)
        | inr (inr a) ↦ ((r.0, created ∷ given_back ∷ r.1), rw (d, made, a, q) refl, settled, all)
      ]
    ]

add_monitor_rest_lem :
    (k : ModeSet) (last : Status) (n idx : ℕ) (infos : List ModeInfo)
    → idx + n ≤ length infos
    → (r : Status × List ModeCall) × (add_monitor_rest k last n idx infos ≡ done r) × IsSettled r.1
unfolding add_monitor_rest
add_monitor_rest_lem k last zero idx infos l = ((last, []), refl, tt)
add_monitor_rest_lem k last (suc n) idx infos l =
    let (i, e, d) = get_at_done infos idx (omega arith) in
    let (r, q, settled) = add_monitor_rest_lem k success n (suc idx) infos (omega arith) in
    let (r', q', settled') =
      add_monitor_rest_lem k (status_of (k.release (suc idx))) n (suc idx) infos (omega arith) in
    elim (Bool-cases (k.create (suc idx))) [
      | inr failed ↦ ((call_failed, []), rw (d, failed) refl, tt)
      | inl made ↦ elim (Added-cases (k.add (suc idx))) [
        | inl a ↦ (
          (r.0, created ∷ put i.vis_screen_width i.vis_screen_height not_preferred ∷ r.1),
          rw (d, made, a, q) refl,
          settled,
        )
        | inr (inl a) ↦ ((r'.0, created ∷ given_back ∷ r'.1), rw (d, made, a, q') refl, settled')
        | inr (inr a) ↦ ((r'.0, created ∷ given_back ∷ r'.1), rw (d, made, a, q') refl, settled')
      ]
    ]

-- AddSingleMonitorMode on a table whose array is long enough, with a current mode that is an index of it,
-- ends, and every mode info that it creates it adds or gives back. If the set refuses the current
-- mode, it fails; and if the set has that mode already, it succeeds without offering any
-- other mode.
add_monitor_modes_lem :
    (k : ModeSet) (m : Modes)
    → m.mode_count ≤ length m.mode_info
    → m.current_mode < length m.mode_info
    → (r : Status × List ModeCall) × (add_monitor_modes k m ≡ done r)
      × IsSettled r.1
      × (k.create 0 ≡ true → k.add 0 ≡ refused → r.0 ≡ call_failed)
      × (k.create 0 ≡ true → k.add 0 ≡ already_in → r ≡ (success, created ∷ given_back ∷ []))
unfolding add_monitor_modes
add_monitor_modes_lem k m l c =
    let (i, e, d) = get_at_done m.mode_info m.current_mode c in
    let (r, q, settled) = add_monitor_rest_lem k success m.mode_count 0 m.mode_info (omega arith) in
    elim (Bool-cases (k.create 0)) [
      | inr failed ↦ ((call_failed, []), rw (failed) refl, tt, λ y z. cc, λ y z. cc)
      | inl made ↦ elim (Added-cases (k.add 0)) [
        | inl a ↦ (
          (r.0, created ∷ put i.vis_screen_width i.vis_screen_height preferred ∷ r.1),
          rw (made, d, a, q) refl,
          settled,
          λ y z. cc,
          λ y z. cc,
        )
        | inr (inl a) ↦
            ((success, created ∷ given_back ∷ []), rw (made, d, a) refl, tt, λ y z. cc, λ y z. refl)
        | inr (inr a) ↦ (
          (call_failed, created ∷ given_back ∷ []),
          rw (made, d, a) refl,
          tt,
          λ y z. refl,
          λ y z. cc,
        )
      ]
    ]
