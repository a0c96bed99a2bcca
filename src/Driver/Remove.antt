-- ===== src/Driver/Remove.antt =====
-- VioGpuDodAddDevice and VioGpuDodRemoveDevice of viogpu/viogpudo/driver.cpp, with the destructors of VioGpuDod
-- and of the two devices in viogpu/viogpudo/viogpudo.cpp. (What ~GpuDevice does with its resources of the host is
-- in Device: it destroys the cursor and the frame buffer.)
use graphics_drivers_wip.Base.{
  ◌==◌, ==_iff, Bool-cases, ℕ, ◌≡◌, refl, sym, subst, ◌∙◌, Bool, true, false, inl, inr, Option,
  none, some, Option-cases, not, ◌||◌, [], ◌∷◌, ap, if◌then◌else◌, Outcome, done, ◌>>=◌,
}
use graphics_drivers_wip.Idr.{BitMapApi}
use graphics_drivers_wip.Modes.{Modes}
use graphics_drivers_wip.Device.{CtrlQueueApi, Gpu, destroy_cursor, destroy_frame_buffer}
use graphics_drivers_wip.Vga.{Mappings, release_frame_buffer}
use graphics_drivers_wip.Dod.{Status, success, no_memory, invalid_parameter}
use graphics_drivers_wip.Bdd.{BddMode}
use graphics_drivers_wip.Hardware.{Hardware, logged, thread_stopped, gpu_device_close, hw_close}
use graphics_drivers_wip.Driver.{DeviceKind, gpu_device, vga_device, Driver, clean_up, new_driver}
use graphics_drivers_wip.Driver.Reach.{Reaches}
use graphics_drivers_wip.Driver.Calls.{clean_up-Reaches}

-- VioGpuDodAddDevice, by whether its two arguments are there and the memory is allocated.
unfoldable pub add_device : Bool → Bool → Bool → Hardware → Modes → Status × Option Driver
add_device has_object has_context allocated h t =
    if not has_object || not has_context
    then (invalid_parameter, none)
    else if not allocated
    then (no_memory, none)
    else (success, some (new_driver h t))

-- ReleaseFrameBuffer of the device; that of GpuDevice does nothing.
abbrev pub release_of : Mappings → DeviceKind → BddMode → BddMode
release_of s gpu_device m = m
release_of s vga_device m = (release_frame_buffer m s).1

module _ (api : BitMapApi) (queue : CtrlQueueApi) where
  -- The destructor of the device, with the host resources that a GpuDevice has.
  unfoldable pub delete_device : Gpu api queue → DeviceKind → Hardware → Outcome Hardware
  delete_device g gpu_device h = do
    g₁ ← destroy_cursor api queue g
    g₂ ← destroy_frame_buffer api queue g₁
    hw_close (gpu_device_close h)
  delete_device g vga_device h = done (record h { hardware_init = false })

  -- ~VioGpuDod after CleanUp.
  unfoldable pub delete_rest : Gpu api queue → Driver → Outcome Driver
  unfolding delete_device
  delete_rest g d = elim d.device [
    | none ↦ done d
    | some k ↦ delete_device g k d.hardware >>= λ h. done (record d { device = none; hardware = h })
  ]

  -- ~VioGpuDod, with the mappings that the kernel has.
  unfoldable pub delete_driver : Mappings → Gpu api queue → Driver → Outcome Driver
  unfolding delete_rest
  delete_driver s g d = clean_up (release_of s) d >>= delete_rest g

  -- VioGpuDodRemoveDevice, on a context that may be null: the status, and what is left of the driver.
  unfoldable pub remove_device :
      Mappings → Gpu api queue → Option Driver → Outcome (Status × Option Driver)
  unfolding delete_driver
  remove_device s g none = done (success, none)
  remove_device s g (some d) = delete_driver s g d >>= λ t. done (success, some t)

-- The device has a thread, if it is a GpuDevice.
abbrev pub HasThread : Option DeviceKind → Hardware → Type 0
HasThread (some gpu_device) h = h.has_thread ≡ true
HasThread _ h = Unit {0}

thread_kept : (h : Hardware) → (gpu_device_close h).has_thread ≡ h.has_thread
unfolding gpu_device_close
thread_kept h = refl

not_there : {k : DeviceKind} → none ≡ some k → ⊥
not_there e = cc

released : (s : Mappings) (m : BddMode) → (release_frame_buffer m s).1.frame_ptr ≡ 0
unfolding release_frame_buffer
released s m = refl

null_after :
    (s : Mappings) (m : BddMode)
    → (if m.frame_ptr == 0 then m else (release_frame_buffer m s).1).frame_ptr ≡ 0
null_after s m = elim (Bool-cases (m.frame_ptr == 0)) [
  | inl z ↦ rw z ((==_iff m.frame_ptr 0).0 z)
  | inr z ↦ rw z (released s m)
]

same_either : (b : Bool) (m : BddMode) → (if b then m else m) ≡ m
same_either true m = refl
same_either false m = refl

module _ (api : BitMapApi) (queue : CtrlQueueApi) where
  -- The cursor and the frame buffer of a GpuDevice can be destroyed: the queue takes the commands.
  abbrev pub CanDestroy : Gpu api queue → Type 0
  CanDestroy g =
      (g₁ : Gpu api queue) × (g₂ : Gpu api queue) × (destroy_cursor api queue g ≡ done g₁)
      × (destroy_frame_buffer api queue g₁ ≡ done g₂)

  delete_device_lem :
      (g : Gpu api queue) (k : DeviceKind) (h : Hardware)
      → CanDestroy g
      → HasThread (some k) h
      → (t : Hardware) × (delete_device api queue g k h ≡ done t) × (t.hardware_init ≡ false)
  unfolding delete_device hw_close gpu_device_close
  delete_device_lem g gpu_device h (g₁, g₂, e₁, e₂) e = (
    logged (thread_stopped ∷ []) (record (gpu_device_close h) { hardware_init = false }),
    rw (e₁, e₂, hw_close, thread_kept h ∙ e) refl,
    refl,
  )
  delete_device_lem g vga_device h c e = (record h { hardware_init = false }, refl, refl)

  delete_rest-none :
      (g : Gpu api queue) (d : Driver) → d.device ≡ none → delete_rest api queue g d ≡ done d
  unfolding delete_rest
  delete_rest-none g d e = simp (delete_rest, e)

  delete_rest-some :
      (g : Gpu api queue) (d : Driver) (k : DeviceKind) (h : Hardware)
      → d.device ≡ some k
      → delete_device api queue g k d.hardware ≡ done h
      → delete_rest api queue g d ≡ done (record d { device = none; hardware = h })
  unfolding delete_rest
  delete_rest-some g d k h e f =
      let q : delete_rest api queue g d ≡ (
          delete_device api queue g k d.hardware >>= λ x.
          done (record d { device = none; hardware = x })) =
        simp (delete_rest, e) in
      q ∙ ap (λ o. o >>= λ x. done (record d { device = none; hardware = x })) f

  -- In any state that VioGpuDod comes to, its removal ends, if a GpuDevice has its thread and its queue takes
  -- the commands that destroy its cursor and its frame buffer. Then no device is left, and if
  -- there was one, no interrupt is taken any more. The pointer to the frame buffer of a VgaDevice is
  -- null; that of a GpuDevice is as it was, since its ReleaseFrameBuffer does nothing.
  pub remove_device-Reaches :
      (n : ℕ) (d : Driver) (s : Mappings) (g : Gpu api queue)
      → Reaches n d
      → CanDestroy g
      → HasThread d.device d.hardware
      → (t : Driver) × (remove_device api queue s g (some d) ≡ done (success, some t))
        × (t.device ≡ none)
        × (d.device ≡ some vga_device → t.mode.frame_ptr ≡ 0)
        × (d.device ≡ some gpu_device → t.mode ≡ d.mode)
        × ((k : DeviceKind) → d.device ≡ some k → t.hardware.hardware_init ≡ false)
  unfolding remove_device delete_driver
  remove_device-Reaches n d s g r c th =
      let (t, q, mode, same, hard) = clean_up-Reaches n d (release_of s) r in
      let then_done : Driver → Outcome (Status × Option Driver) = λ x. done (success, some x) in
      let removed : (x : Driver)
          → delete_rest api queue g t ≡ done x
          → remove_device api queue s g (some d) ≡ done (success, some x) =
        λ x e.
          ap (λ o. (o >>= delete_rest api queue g) >>= then_done) q ∙ ap (λ o. o >>= then_done) e in
      let vga : d.device ≡ some vga_device → t.mode.frame_ptr ≡ 0 =
        λ e. ap (λ m. m.frame_ptr) (mode vga_device e) ∙ null_after s d.mode in
      let gpu : d.device ≡ some gpu_device → t.mode ≡ d.mode =
        λ e. mode gpu_device e ∙ same_either (d.mode.frame_ptr == 0) d.mode in
      elim (Option-cases d.device) [
        | inl none_there ↦
            let at : t.device ≡ none = same ∙ none_there in
            (
              t,
              removed t (delete_rest-none g t at),
              at,
              vga,
              gpu,
              λ k e. absurd (not_there (sym none_there ∙ e)),
            )
        | inr (k, there) ↦
            let at : t.device ≡ some k = same ∙ there in
            let th' : HasThread (some k) t.hardware =
              subst (λ h. HasThread (some k) h) (sym hard)
                (subst (λ x. HasThread x d.hardware) there th) in
            let (h, made, off) = delete_device_lem g k t.hardware c th' in
            (
              record t { device = none; hardware = h },
              removed (record t { device = none; hardware = h }) (delete_rest-some g t k h at made),
              refl,
              vga,
              gpu,
              λ j e. off,
            )
      ]
