-- ===== src/Hardware/Ready.antt =====
-- When GpuDevice::HWInit of viogpu/viogpudo/viogpudo.cpp makes the device ready, and what it returns.
use graphics_drivers_wip.Base.{
  Outcome, done, null_pointer, ◌≡◌, ◌↔◌, ap, ◌∙◌, ◌||◌, Bool, true, false, Bool-cases, inl, inr,
  List, [], ◌∷◌, ◌++◌,
}
use graphics_drivers_wip.Dod.{Status, success, call_failed, no_memory, unsuccessful}
use graphics_drivers_wip.Hardware.{
  Answers, Call, thread_created, Hardware, hw_start, hw_init, has_buffers, with_thread,
}
use graphics_drivers_wip.Hardware.Steps.{NoVerdict, verdict, all_start, hw_start_lem}

-- The device was told once, at the end of the steps, whether it is ready.
pub record Told (a : Answers) (h t : Hardware) : Type 0 where
  pub flag : t.hardware_init ≡ (all_start a || h.hardware_init)
  pub steps : List Call
  pub after : List Call
  pub before : NoVerdict steps
  pub rest : NoVerdict after
  pub told : t.calls ≡ h.calls ++ (steps ++ verdict (all_start a) ∷ []) ++ after

with_thread-Told : (a : Answers) (h : Hardware) → Told a h (with_thread a h)
unfolding hw_start
with_thread-Told a h =
    let w = hw_start_lem a h in
    record {
      flag = w.flag;
      steps = w.steps;
      after = thread_created ∷ [];
      before = w.before;
      rest = tt;
      told = ap (λ l. l ++ thread_created ∷ []) w.told;
    }

-- What HWInit comes to.
Comes : (thread memory buffers listed : Bool) → Answers → Hardware → Outcome (Status × Hardware)
Comes false m b l a h = done (call_failed, hw_start a h)
Comes true false b l a h = done (no_memory, with_thread a h)
Comes true true false l a h = null_pointer
Comes true true true true a h = done (success, with_thread a h)
Comes true true true false a h = done (unsuccessful, with_thread a h)

hw_init-Comes :
    (a : Answers) (h : Hardware)
    → hw_init a h ≡ Comes a.create_thread a.mode_memory (has_buffers a) a.mode_list a h
unfolding hw_init Comes
hw_init-Comes a h = elim (Bool-cases a.create_thread) [
  | inr c ↦ simp (hw_init, Comes, c)
  | inl c ↦ elim (Bool-cases a.mode_memory) [
    | inr m ↦ simp (hw_init, Comes, c, m)
    | inl m ↦ elim (Bool-cases (has_buffers a)) [
      | inr b ↦ simp (hw_init, Comes, c, m, b)
      | inl b ↦ elim (Bool-cases a.mode_list) [
        | inr l ↦ simp (hw_init, Comes, c, m, b, l)
        | inl l ↦ simp (hw_init, Comes, c, m, b, l)
      ]
    ]
  ]
]

pub hw_init-success :
    (a : Answers) (h : Hardware)
    → a.create_thread ≡ true
    → a.mode_memory ≡ true
    → has_buffers a ≡ true
    → a.mode_list ≡ true
    → hw_init a h ≡ done (success, with_thread a h)
unfolding Comes
hw_init-success a h c m b l = hw_init-Comes a h ∙ simp (c, m, b, l)

pub with_thread-ready :
    (a : Answers) (h : Hardware)
    → (with_thread a h).hardware_init ≡ (all_start a || h.hardware_init)
with_thread-ready a h = (with_thread-Told a h).flag

-- How HWInit ends, by the four answers.
Ends :
    (thread memory buffers listed : Bool)
    → Answers
    → Hardware
    → Outcome (Status × Hardware)
    → Type 0
Ends c m b l a h o =
    (((t : Hardware) × (o ≡ done (success, t)))
      ↔ ((c ≡ true) × (m ≡ true) × (b ≡ true) × (l ≡ true)))
    × ((o ≡ null_pointer) ↔ ((c ≡ true) × (m ≡ true) × (b ≡ false)))
    × ((st : Status) (t : Hardware) → o ≡ done (st, t) → Told a h t)
