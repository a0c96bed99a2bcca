-- ===== src/VidPn/Support.antt =====
-- Which VidPns and which transformations of a path viogpu/viogpudo/viogpudo.cpp supports.
use graphics_drivers_wip.Base.{
  ℕ, ◌≤◌, ◌≡◌, ◌↔◌, ◌≢◌, ◌⊎◌, refl, inl, inr, ==_iff, Bool, true, false, arith,
}
use graphics_drivers_wip.Blit.{unpinned}
use graphics_drivers_wip.Dod.{success}
use graphics_drivers_wip.VidPn.{
  PathCount, not_in_topology, count_failed, counted, check_sources, is_rotation, vid_pn_source,
  vid_pn_target, scaling_pivot, no_pivot, is_supported_vid_pn, PivotType, rotation_pivot, Pivot,
  Supports, offer_supports,
}

-- The source is not in the topology, or it has at most one path.
abbrev pub IsAtMostOne : PathCount → Type 0
IsAtMostOne not_in_topology = Unit {0}
IsAtMostOne count_failed = ⊥
IsAtMostOne (counted k) = k ≤ 1

check_sources_lem : (c : PathCount) → (check_sources (λ _. c) 1 0 ≡ (success, true)) ↔ IsAtMostOne c
unfolding check_sources
check_sources_lem not_in_topology = (λ _. tt, λ _. refl)
check_sources_lem count_failed = (λ e. cc, λ z. absurd z)
check_sources_lem (counted k) = (λ e. ground arith, λ l. ground arith)

-- A VidPn is called supported, and with success, if and only if it is null, or the kernel's queries
-- succeed and the only source is not in the topology or has at most one path.
is_supported_vid_pn_lem :
    (is_null query_interface get_topology : Bool) (paths : ℕ → PathCount)
    → (is_supported_vid_pn is_null query_interface get_topology paths ≡ (success, true)) ↔ (
        (is_null ≡ true)
        ⊎ ((query_interface ≡ true) × (get_topology ≡ true) × IsAtMostOne (paths 0)))
unfolding is_supported_vid_pn check_sources
is_supported_vid_pn_lem true q g paths = (λ _. inl refl, λ _. refl)
is_supported_vid_pn_lem false false g paths = (λ e. cc, λ z. ground arith)
is_supported_vid_pn_lem false true false paths = (λ e. cc, λ z. ground arith)
is_supported_vid_pn_lem false true true paths =
    let (a, b) = check_sources_lem (paths 0) in (λ e. inr (refl, refl, a e), λ z. b (ground arith))

not_rotation : (t : PivotType) → t ≢ rotation_pivot → is_rotation t ≡ false
not_rotation vid_pn_source n = refl
not_rotation vid_pn_target n = refl
not_rotation scaling_pivot n = refl
not_rotation rotation_pivot n = absurd (n refl)
not_rotation no_pivot n = refl

-- Where a path's rotation is unpinned, the enumeration offers the rotations by 0 and 90 degrees if the
-- pivot is the rotation of any path, this one included; but not if the pivot is anything else
-- and its ids are those of this path, so that a path with the ids of the pivot is offered
-- rotations exactly when its rotation is the pivot, and is to be left alone.
offer_supports-rotation :
    (v : Pivot) (p : Supports)
    → p.rotation ≡ unpinned
    → v.source_id ≡ p.source_id
    → v.target_id ≡ p.target_id
    → ((v.type ≡ rotation_pivot)
        → (offer_supports v p).1.rotation_support ≡ (true, true, false, false))
      × ((v.type ≢ rotation_pivot) → (offer_supports v p).1.rotation_support ≡ p.rotation_support)
unfolding offer_supports
offer_supports-rotation v p r s t = (
  λ e. rw (e, r) refl,
  λ n.
      rw
        (
          not_rotation v.type n,
          (==_iff v.source_id p.source_id).1 s,
          (==_iff v.target_id p.target_id).1 t,
        )
        refl,
)
