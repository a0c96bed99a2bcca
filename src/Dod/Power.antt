-- ===== src/Dod/Power.antt =====
-- What becomes of the adapter over calls of VioGpuDod::SetPowerState in viogpu/viogpudo/viogpudo.cpp.
use graphics_drivers_wip.Base.{
  ℕ, suc, ◌≡◌, refl, ◌∙◌, Bool, true, false, ◌&&◌, List, [], ◌∷◌, if◌then◌else◌,
}
use graphics_drivers_wip.Dod.{
  PowerState, unspecified, d0, d1, d2, d3, is_d0, is_d3, PowerView, set_power_state,
}

-- Only D0 is recorded, and the return from D3 is looked for in what is recorded.
keeps_d0 : (b : Bool) (p a : PowerState) → a ≡ d0 → (if b && is_d0 p then p else a) ≡ d0
keeps_d0 false p a e = e
keeps_d0 true d0 a e = refl
keeps_d0 true unspecified a e = e
keeps_d0 true d1 a e = e
keeps_d0 true d2 a e = e
keeps_d0 true d3 a e = e

never : (b : Bool) (p : PowerState) (h : ℕ) → (if b && is_d0 p && false then suc h else h) ≡ h
never false p h = refl
never true d0 h = refl
never true unspecified h = refl
never true d1 h = refl
never true d2 h = refl
never true d3 h = refl

keeps_hidden :
    (b : Bool) (p a : PowerState) (h : ℕ)
    → a ≡ d0
    → (if b && is_d0 p && is_d3 a then suc h else h) ≡ h
keeps_hidden b p a h e = rw e (never b p h)

module _ {Device : Type 0} (set_device : PowerState → Device → Bool × Device) where
  unfoldable pub run : List PowerState → PowerView Device → PowerView Device
  run [] v = v
  run (p ∷ ps) v = run ps (set_power_state set_device p v).1

  -- The device's method alone, called twice for each state.
  abbrev pub twice : List PowerState → Device → Device
  twice [] d = d
  twice (p ∷ ps) d = twice ps (set_device p (set_device p d).1).1

  -- Recorded in D0, as the adapter starts, it never leaves D0, whatever states are set, since only D0 is
  -- recorded: so the return from D3 is never noticed, and the sources are never made invisible.
  -- And the device is put into each state twice.
  pub run-stays :
      (ps : List PowerState) (v : PowerView Device)
      → v.adapter ≡ d0
      → let t = run ps v in
        (t.adapter ≡ d0) × (t.hidden ≡ v.hidden) × (t.device ≡ twice ps v.device)
  unfolding run set_power_state
  run-stays [] v e = (e, refl, refl)
  run-stays (p ∷ ps) v e =
      let (a, h, d) =
        run-stays ps (set_power_state set_device p v).1
          (keeps_d0 (set_device p v.device).0 p v.adapter e) in
      (a, h ∙ keeps_hidden (set_device p v.device).0 p v.adapter v.hidden e, d)
