-- ===== src/Driver/Calls.antt =====
-- The entry points of viogpu/viogpudo/driver.cpp on the states that VioGpuDod comes to.
use graphics_drivers_wip.Base.{
  ℕ, ◌≡◌, ◌≢◌, ap, sym, ◌∙◌, refl, subst, Bool, true, false, Bool-cases, inl, inr, some,
  Option-cases, if◌then◌else◌, done, ◌==◌, arith,
}
use graphics_drivers_wip.Bdd.{BddMode}
use graphics_drivers_wip.Driver.{DeviceKind, Driver, clean_up}
use graphics_drivers_wip.Driver.Ddi.{
  Answer, called, dispatch, Ddi, pnp, display, non_paged, entry_of, stop_device,
  query_child_relations, query_child_status, query_adapter_info, query_interface,
  stop_device_and_release_post_display_ownership, dpc_routine, reset_device,
}
use graphics_drivers_wip.Driver.Reach.{Reaches, IsThere, Reaches-IsSound}

-- The entry points that go to the device's pointer whether or not the driver is active, and DpcRoutine, which
-- asks for the flag of IsHardwareInit alone.
abbrev pub is_exposed : Ddi → Bool
is_exposed (pnp query_child_relations) = true
is_exposed (display query_adapter_info) = true
is_exposed (display stop_device_and_release_post_display_ownership) = true
is_exposed (non_paged reset_device) = true
is_exposed (non_paged dpc_routine) = true
is_exposed _ = false

-- The entry points that reach their method in a driver that is not active.
abbrev pub is_open : Ddi → Bool
is_open (pnp stop_device) = true
is_open (pnp query_child_relations) = true
is_open (pnp query_child_status) = true
is_open (display query_adapter_info) = true
is_open (display query_interface) = true
is_open (display stop_device_and_release_post_display_ownership) = true
is_open (non_paged p) = true
is_open _ = false

-- What an entry point that is not exposed comes to.
abbrev pub Replies : Ddi → Driver → Type 0
Replies p d =
    (t : Answer) × (dispatch (entry_of p) d ≡ done t)
    × (d.started ≡ true → is_open p ≡ false → t ≡ called)
    × (d.started ≡ false → is_open p ≡ false → t ≢ called)

same_kind : {j k : DeviceKind} → some j ≡ some k → j ≡ k
same_kind e = cc

-- In any state that VioGpuDod comes to, CleanUp does not go through a null pointer either: it calls the
-- ReleaseFrameBuffer of the device if the current mode has a frame buffer.
pub clean_up-Reaches :
    (n : ℕ) (d : Driver) (release : DeviceKind → BddMode → BddMode)
    → Reaches n d
    → (t : Driver) × (clean_up release d ≡ done t)
      × ((k : DeviceKind)
          → d.device ≡ some k
          → t.mode ≡ (if d.mode.frame_ptr == 0 then d.mode else release k d.mode))
      × (t.device ≡ d.device)
      × (t.hardware ≡ d.hardware)
unfolding clean_up
clean_up-Reaches n d release r = elim (Bool-cases (d.mode.frame_ptr == 0)) [
  | inl z ↦ (d, simp (clean_up, z), λ k f. rw z refl, refl, refl)
  | inr z ↦ elim (Option-cases d.device) [
    | inl f ↦
        let s = Reaches-IsSound n d r in
        absurd (subst (λ x. IsThere x) f (s.mapped (λ q. ground arith)))
    | inr (k, f) ↦ (
      record d { mode = release k d.mode },
      simp (clean_up, z, f),
      λ j e. rw z (ap (λ x. release x d.mode) (same_kind (sym f ∙ e))),
      refl,
      refl,
    )
  ]
]
