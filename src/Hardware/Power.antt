-- ===== src/Hardware/Power.antt =====
-- The power states of GpuDevice in viogpu/viogpudo/viogpudo.cpp, alone and under VioGpuDod::SetPowerState.
use graphics_drivers_wip.Base.{
  ◌≡◌, refl, ap, ◌∙◌, ◌&&◌, ◌||◌, Bool, true, false, Bool-cases, inl, inr, List, [], ◌∷◌, ◌++◌,
  if◌then◌else◌, arith,
}
use mathlib.Core.List.{append_assoc}
use graphics_drivers_wip.Dod as Dod
use graphics_drivers_wip.Dod.{Status, success, PowerState, unspecified, d0, d1, d2, d3, PowerView}
use graphics_drivers_wip.Hardware.{
  Answers, Call, initialized, features_set, queues_found, ctrl_inited, cursor_inited, config_read,
  device_ready, Hardware, logged, start_queues, finish, gpu_device_init, gpu_device_close,
  gpu_set_power_state,
}
use graphics_drivers_wip.Hardware.Steps.{
  queues_start, start_queues_lem, after_ack, ack_feature_lem, with_steps,
}

abbrev pub is_low : PowerState → Bool
is_low d1 = true
is_low d2 = true
is_low d3 = true
is_low _ = false

abbrev pub comes_up : Answers → Bool
comes_up a = a.initialize && queues_start a

-- The power states that are set, with what becomes of the steps of each.
unfoldable pub run : List (PowerState × Answers) → Hardware → Hardware
run [] h = h
run ((p, a) ∷ ps) h = run ps (gpu_set_power_state a p h).1

-- The device as a switch.
abbrev pub switch : List (PowerState × Answers) → Bool → Bool
switch [] on = on
switch ((p, a) ∷ ps) on = switch ps (if is_low p then false else (comes_up a || on))

init_flag :
    (a : Answers) (h : Hardware)
    → (gpu_device_init a h).1.hardware_init ≡ (comes_up a || h.hardware_init)
unfolding gpu_device_init
init_flag a h = elim (Bool-cases a.initialize) [
  | inr i ↦ rw (gpu_device_init, i) refl
  | inl i ↦
      rw (gpu_device_init, i)
        (after_ack (queues_start a) (start_queues a) a.version_1 h (start_queues_lem a)).flag
]

state_flag :
    (p : PowerState) (a : Answers) (h : Hardware)
    → (gpu_set_power_state a p h).1.hardware_init
      ≡ (if is_low p then false else (comes_up a || h.hardware_init))
unfolding gpu_set_power_state gpu_device_close
state_flag unspecified a h = init_flag a h
state_flag d0 a h = init_flag a h
state_flag d1 a h = refl
state_flag d2 a h = refl
state_flag d3 a h = refl

-- Whatever power states are set and whatever fails on the way, interrupts are taken (IsHardwareInit) as
-- a switch says that a low state turns off, and that D0 turns on if the device and its queues
-- come up, and leaves alone if they do not.
pub run-hardware_init :
    (ps : List (PowerState × Answers)) (h : Hardware)
    → (run ps h).hardware_init ≡ switch ps h.hardware_init
unfolding run
run-hardware_init [] h = refl
run-hardware_init ((p, a) ∷ ps) h =
    run-hardware_init ps (gpu_set_power_state a p h).1 ∙ ap (λ b. switch ps b) (state_flag p a h)

-- The calls by which the device comes up.
abbrev pub bring_up : List Call
bring_up =
    initialized ∷ features_set ∷ queues_found ∷ ctrl_inited ∷ cursor_inited ∷ config_read
    ∷ device_ready ∷ []

abbrev tail_calls : List Call
tail_calls =
    features_set ∷ queues_found ∷ ctrl_inited ∷ cursor_inited ∷ config_read ∷ device_ready ∷ []

all_queues :
    (a : Answers) (v s f c u : Bool)
    → (v && s && f && c && u) ≡ true
    → start_queues (with_steps a v s f c u a.buf_init a.idr_init)
      ≡ (success, features_set ∷ queues_found ∷ ctrl_inited ∷ cursor_inited ∷ config_read ∷ [])
unfolding start_queues
all_queues a false s f c u e = cc
all_queues a true false f c u e = cc
all_queues a true true false c u e = cc
all_queues a true true true false u e = cc
all_queues a true true true true false e = cc
all_queues a true true true true true e = refl

init_calls :
    (a : Answers) (h : Hardware)
    → comes_up a ≡ true
    → (gpu_device_init a h).1.calls ≡ h.calls ++ bring_up
unfolding gpu_device_init finish
init_calls a h e = elim (Bool-cases a.initialize) [
  | inr i ↦ absurd (ground arith)
  | inl i ↦
      let q =
        all_queues a a.version_1 a.set_features a.find_queues a.ctrl_init a.cursor_init
          (ground arith) in
      let (f, c) = ack_feature_lem a.version_1 (logged (initialized ∷ []) h) in
      rw (gpu_device_init, i, q, finish)
        (ap (λ l. l ++ tail_calls) c ∙ append_assoc h.calls (initialized ∷ []) tail_calls)
]

-- When VioGpuDod sets D0 and the device comes up, it comes up twice: the queues are initialised a second
-- time, without a reset of the device and with the first ones not closed.
wake-twice :
    (a : Answers) (v : PowerView Hardware)
    → comes_up a ≡ true
    → (Dod.set_power_state (gpu_set_power_state a) d0 v).1.device.calls
      ≡ v.device.calls ++ bring_up ++ bring_up
unfolding Dod.set_power_state gpu_set_power_state
wake-twice a v e =
    init_calls a (gpu_device_init a v.device).1 e
    ∙ ap (λ l. l ++ bring_up) (init_calls a v.device e)
