-- ===== src/Hardware/Steps.antt =====
-- The steps by which GpuDevice::HWInit of viogpu/viogpudo/viogpudo.cpp brings the device up.
use graphics_drivers_wip.Base.{
  ◌≡◌, refl, ap, ◌∙◌, ◌&&◌, ◌||◌, Bool, true, false, Bool-cases, inl, inr, List, [], ◌∷◌, ◌++◌,
}
use mathlib.Core.List.{append_assoc}
use graphics_drivers_wip.Dod.{Status, call_failed, insufficient_resources, is_success}
use graphics_drivers_wip.Hardware.{
  Answers, Call, initialized, device_ready, status_failed, Hardware, logged, ack_feature,
  start_queues, start_buffers, finish, hw_start,
}

-- The device was told neither that it is ready nor that it failed.
abbrev pub NoVerdict : List Call → Type 0
NoVerdict [] = Unit {0}
NoVerdict (device_ready ∷ cs) = ⊥
NoVerdict (status_failed ∷ cs) = ⊥
NoVerdict (_ ∷ cs) = NoVerdict cs

abbrev pub verdict : Bool → Call
verdict true = device_ready
verdict false = status_failed

-- The steps of the queues.
abbrev pub queues_start : Answers → Bool
queues_start a = a.version_1 && a.set_features && a.find_queues && a.ctrl_init && a.cursor_init

-- Those of the queues and the buffers, and all the steps.
abbrev pub buffers_start : Answers → Bool
buffers_start a =
    a.version_1 && a.set_features && a.find_queues && a.ctrl_init && a.cursor_init && a.buf_init
    && a.idr_init

abbrev pub all_start : Answers → Bool
all_start a = a.pci_init && a.initialize && buffers_start a

abbrev pub with_steps : Answers → Bool → Bool → Bool → Bool → Bool → Bool → Bool → Answers
with_steps a v s f c u b i = record a {
  version_1 = v;
  set_features = s;
  find_queues = f;
  ctrl_init = c;
  cursor_init = u;
  buf_init = b;
  idr_init = i;
}

abbrev Starts : Bool → Status × List Call → Type 0
Starts ok r = (is_success r.0 ≡ ok) × NoVerdict r.1

buffer_steps :
    (a : Answers) (v s f c u b i : Bool)
    → Starts (v && s && f && c && u && b && i) (start_buffers (with_steps a v s f c u b i))
unfolding start_buffers
buffer_steps a false s f c u b i = (refl, tt)
buffer_steps a true false f c u b i = (refl, tt)
buffer_steps a true true false c u b i = (refl, tt)
buffer_steps a true true true false u b i = (refl, tt)
buffer_steps a true true true true false b i = (refl, tt)
buffer_steps a true true true true true false i = (refl, tt)
buffer_steps a true true true true true true false = (refl, tt)
buffer_steps a true true true true true true true = (refl, tt)

queue_steps :
    (a : Answers) (v s f c u : Bool)
    → Starts (v && s && f && c && u) (start_queues (with_steps a v s f c u a.buf_init a.idr_init))
unfolding start_queues
queue_steps a false s f c u = (refl, tt)
queue_steps a true false f c u = (refl, tt)
queue_steps a true true false c u = (refl, tt)
queue_steps a true true true false u = (refl, tt)
queue_steps a true true true true false = (refl, tt)
queue_steps a true true true true true = (refl, tt)

pub start_queues_lem : (a : Answers) → Starts (queues_start a) (start_queues a)
start_queues_lem a =
    queue_steps a a.version_1 a.set_features a.find_queues a.ctrl_init a.cursor_init

start_buffers_lem : (a : Answers) → Starts (buffers_start a) (start_buffers a)
start_buffers_lem a =
    buffer_steps a a.version_1 a.set_features a.find_queues a.ctrl_init a.cursor_init a.buf_init
      a.idr_init

-- The device is told whether it is ready after the steps, and only then.
pub record Verdict (ok : Bool) (h t : Hardware) : Type 0 where
  pub flag : t.hardware_init ≡ (ok || h.hardware_init)
  pub steps : List Call
  pub told : t.calls ≡ h.calls ++ (steps ++ verdict ok ∷ [])
  pub before : NoVerdict steps

pub finish_lem :
    (ok : Bool) (r : Status × List Call) (h : Hardware) → Starts ok r → Verdict ok h (finish r h)
unfolding finish
finish_lem true (st, cs) h (e, n) =
    rw (finish, e) (record { flag = refl; steps = cs; told = refl; before = n })
finish_lem false (st, cs) h (e, n) =
    rw (finish, e) (record { flag = refl; steps = cs; told = refl; before = n })

pub ack_feature_lem :
    (v : Bool) (h : Hardware)
    → ((ack_feature v h).1.hardware_init ≡ h.hardware_init) × ((ack_feature v h).1.calls ≡ h.calls)
unfolding ack_feature
ack_feature_lem true h = (refl, refl)
ack_feature_lem false h = (refl, refl)

-- The verdict on a device that was initialised and whose features were acknowledged.
pub after_ack :
    (ok : Bool) (r : Status × List Call) (v : Bool) (h : Hardware)
    → Starts ok r
    → Verdict ok h (finish r (ack_feature v (logged (initialized ∷ []) h)).1)
after_ack ok r v h st =
    let (e, c) = ack_feature_lem v (logged (initialized ∷ []) h) in
    let w = finish_lem ok r (ack_feature v (logged (initialized ∷ []) h)).1 st in
    record {
      flag = w.flag ∙ ap (λ b. ok || b) e;
      steps = initialized ∷ w.steps;
      told =
          w.told
          ∙ ap (λ l. l ++ (w.steps ++ verdict ok ∷ [])) c
          ∙ append_assoc h.calls (initialized ∷ []) (w.steps ++ verdict ok ∷ []);
      before = w.before;
    }

pub hw_start_lem : (a : Answers) (h : Hardware) → Verdict (all_start a) h (hw_start a h)
unfolding hw_start
hw_start_lem a h = elim (Bool-cases a.pci_init) [
  | inr p ↦ rw (hw_start, p) (finish_lem false (insufficient_resources, []) h (refl, tt))
  | inl p ↦ elim (Bool-cases a.initialize) [
    | inr i ↦ rw (hw_start, p, i) (finish_lem false (call_failed, initialized ∷ []) h (refl, tt))
    | inl i ↦
        rw (hw_start, p, i)
          (after_ack (buffers_start a) (start_buffers a) a.version_1 h (start_buffers_lem a))
  ]
]
