-- ===== src/Driver/Start.antt =====
-- A start of VioGpuDod in viogpu/viogpudo/viogpudo.cpp on the virtio device.
use graphics_drivers_wip.Base.{
  ℕ, ◌+◌, ◌≤◌, ◌≡◌, refl, ap, ◌∙◌, true, false, some, ◌||◌, done, ◌>>=◌, arith,
}
use graphics_drivers_wip.Blit.{bpp_from_pixel_format}
use graphics_drivers_wip.Modes.{max}
use graphics_drivers_wip.Dod.{Status, success}
use graphics_drivers_wip.Bdd.{DisplayInfo}
use graphics_drivers_wip.Hardware.{Hardware, has_buffers, with_thread}
use graphics_drivers_wip.Hardware.Steps.{all_start}
use graphics_drivers_wip.Hardware.Ready.{hw_init-success, with_thread-ready}
use graphics_drivers_wip.Driver.Registry.{register_hw_info}
use graphics_drivers_wip.Driver.{
  gpu_device, Driver, StartApi, check_hardware, init_device, has, zeroed_current, using_info,
  take_over, after_init, start_device,
}

max-le : (x y : ℕ) → x ≤ max x y
max-le x y = ground arith

after_init-success : (a : StartApi) (d : Driver) → after_init a success d ≡ take_over a d
unfolding after_init
after_init-success a d = refl

-- What an active driver on the virtio device has after its start, from the display that it took over.
pub record IsUp (a : StartApi) (i : DisplayInfo) (d t : Driver) : Type 0 where
  pub started : t.started ≡ true
  pub ready : t.hardware.hardware_init ≡ (all_start a.gpu || d.hardware.hardware_init)
  pub wide : 1024 ≤ t.mode.disp_info.width
  pub high : 768 ≤ t.mode.disp_info.height
  pub pitch : t.mode.disp_info.pitch ≡ 4
  pub address : t.mode.disp_info.physic_address ≡ i.physic_address
  pub initial : t.initial_info ≡ i

-- If the kernel answers each of its calls in StartDevice, the thread is created, the steps up to the buffers succeed, the modes are listed
-- and the registry is written, then a start on the virtio device succeeds and makes the driver active;
-- but whether the hardware is ready is another matter: it is only if every step of the virtio
-- device succeeded, or the flag was set before. The width and the height are at least 1024 and
-- 768, the pitch is the bytes of one pixel, and the physical address is that of the display.
pub start_device-IsUp :
    (a : StartApi) (i : DisplayInfo) (d : Driver)
    → a.device_information ≡ true
    → a.allocated ≡ true
    → check_hardware a.pci_ids ≡ true
    → a.gpu.create_thread ≡ true
    → a.gpu.mode_memory ≡ true
    → has_buffers a.gpu ≡ true
    → a.gpu.mode_list ≡ true
    → (register_hw_info a.registry).0 ≡ success
    → a.post_display ≡ some i
    → (t : Driver) × (start_device a d ≡ done (success, t)) × IsUp a i d t
unfolding start_device init_device bpp_from_pixel_format
start_device-IsUp a i d info alloc hw thread memory buffers modes reg post =
    let d₁ = record d {
      mode = zeroed_current;
      device = some gpu_device;
      abandoned = d.abandoned + has d.device;
    } in
    let h = record d.hardware { has_thread = false } in
    let d₂ = record d₁ { hardware = with_thread a.gpu h } in
    let t = record d₂ {
      started = true;
      mode = record zeroed_current { disp_info = using_info 0 i };
      initial_info = i;
    } in
    let up : take_over a d₂ ≡ (success, t) = simp (take_over, reg, post) in
    let init : init_device a gpu_device d₁ ≡ done (success, d₂) =
      ap (λ o. o >>= λ (r : Status × Hardware). done (r.0, record d₁ { hardware = r.1 }))
        (hw_init-success a.gpu h thread memory buffers modes) in
    let next = λ (r : Status × Driver). done (after_init a r.0 r.1) in
    let all : start_device a d ≡ (init_device a gpu_device d₁ >>= next) =
      simp (start_device, info, alloc, hw) in
    (
      t,
      all ∙ ap (λ o. o >>= next) init ∙ ap (λ r. done r) (after_init-success a d₂ ∙ up),
      record {
        started = refl;
        ready = with_thread-ready a.gpu h;
        wide = max-le 1024 i.width;
        high = max-le 768 i.height;
        pitch = refl;
        address = refl;
        initial = refl;
      },
    )
