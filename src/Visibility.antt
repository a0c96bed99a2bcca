-- ===== src/Visibility.antt =====
-- SetVidPnSourceVisibility of VioGpuDod in viogpu/viogpudo/viogpudo.cpp.
pub mod Hidden
mod Examples
use graphics_drivers_wip.Base.{
  ℕ, zero, suc, ◌-◌, ◌+◌, not, Bool, true, false, List, ◌==◌, if◌then◌else◌, u32, Outcome, done,
  ◌>>=◌,
}
use graphics_drivers_wip.Modes.{get_at, set_at}
use graphics_drivers_wip.Dod.{max_views}
use graphics_drivers_wip.Bdd.{BddMode}

-- `id_all` is D3DDDI_ID_ALL.
module _ {Device : Type 0} (id_all : ℕ) (black_out : BddMode → Device → BddMode × Device) where
  -- One source, with the device's BlackOutScreen.
  unfoldable pub set_one : Bool → BddMode → Device → BddMode × Device
  set_one visible cur dev =
      let (cur₁, dev₁) =
        if visible then (record cur { fullscreen_present = true }, dev) else black_out cur dev in
      (record cur₁ { source_not_visible = not visible }, dev₁)

  -- The loop over the sources, with `n` left from the one with index `id` on.
  unfoldable pub set_visible :
      Bool → ℕ → ℕ → List BddMode → Device → Outcome (List BddMode × Device)
  unfolding set_one get_at set_at
  set_visible visible zero id modes dev = done (modes, dev)
  set_visible visible (suc n) id modes dev = do
    cur ← get_at modes id
    modes₁ ← set_at modes id (set_one visible cur dev).0
    set_visible visible n (suc id) modes₁ (set_one visible cur dev).1

  -- From the source with the id to the one before the next, or all.
  unfoldable pub set_source_visibility :
      Bool → ℕ → List BddMode → Device → Outcome (List BddMode × Device)
  unfolding set_visible
  set_source_visibility visible source modes dev =
      if source == id_all
      then set_visible visible max_views 0 modes dev
      else set_visible visible (u32 (source + 1) - source) source modes dev
