-- ===== src/Visibility/Hidden.antt =====
-- What SetVidPnSourceVisibility of viogpu/viogpudo/viogpudo.cpp means for the next present.
use graphics_drivers_wip.Base.{
  ℕ, ◌≡◌, ◌⊎◌, inl, inr, refl, Bool, true, false, Bool-cases, List, [], ◌∷◌, ltb, ◌==◌, ==_iff,
  Outcome, done,
}
use graphics_drivers_wip.Blit.{Rect}
use graphics_drivers_wip.Modes.{get_at, set_at}
use graphics_drivers_wip.Bdd.{BddMode}
use graphics_drivers_wip.Present.{
  Picture, PresentArgs, PresentStatus, not_visible, invalid_parameter, present_display_only,
  present_source,
}
use graphics_drivers_wip.Visibility.{set_one, set_visible, set_source_visibility}

module _ {Device : Type 0} (id_all : ℕ) (black_out : BddMode → Device → BddMode × Device)
    (execute : Picture → List Rect → List Rect → BddMode → Device → Outcome Device) where
  -- Only the view of the one source there is changes, whether it is named or all are.
  pub set_source_visibility_lem :
      (visible : Bool) (source : ℕ) (cur : BddMode) (dev : Device)
      → (source ≡ 0) ⊎ (source ≡ id_all)
      → set_source_visibility id_all black_out visible source (cur ∷ []) dev
        ≡ done (
          (set_one id_all black_out visible cur dev).0 ∷ [],
          (set_one id_all black_out visible cur dev).1,
        )
  unfolding set_source_visibility set_visible get_at set_at
  set_source_visibility_lem visible source cur dev (inl z) = elim (Bool-cases (0 == id_all)) [
    | inl e ↦ rw (set_source_visibility, z, e) refl
    | inr e ↦ rw (set_source_visibility, z, e) refl
  ]
  set_source_visibility_lem visible source cur dev (inr z) =
      rw (set_source_visibility, z, (==_iff id_all id_all).1 refl) refl

  -- A source that is made invisible, by its id or with all the others, is blacked out; and a present to it
  -- then draws nothing: it leaves the view and the device as the black-out left them, whatever is to
  -- be presented.
  pub hidden-present :
      (source : ℕ) (cur : BddMode) (dev : Device) (a : PresentArgs)
      → (source ≡ 0) ⊎ (source ≡ id_all)
      → a.source_id ≡ 0
      → (c : BddMode) × (st : PresentStatus) × (set_source_visibility id_all black_out false source
            (cur ∷ [])
            dev
          ≡ done (c ∷ [], (black_out cur dev).1))
        × (present_display_only execute true a (c ∷ []) (black_out cur dev).1
            ≡ done (st, c ∷ [], (black_out cur dev).1))
  unfolding set_one present_display_only present_source get_at
  hidden-present source cur dev a s z =
      let c = record (black_out cur dev).0 { source_not_visible = true } in
      let hide = set_source_visibility_lem false source cur dev s in
      elim (Bool-cases (ltb a.bytes_per_pixel 4)) [
        | inl narrow ↦
            (c, invalid_parameter, hide, rw (present_display_only, present_source, narrow) refl)
        | inr wide ↦ (c, not_visible, hide, rw (present_display_only, present_source, wide, z) refl)
      ]
