-- ===== src/Driver/Reach.antt =====
-- What holds of VioGpuDod in viogpu/viogpudo/viogpudo.cpp and driver.cpp after any starts, stops and commits.
use graphics_drivers_wip.Base.{
  ℕ, ◌+◌, ◌≡◌, ◌≢◌, refl, ap, sym, subst, ◌∙◌, Bool, true, false, Bool-cases, inl, inr, Option,
  none, some, Option-cases, if◌then◌else◌, Outcome, done, null_pointer, overrun, out_of_fuel,
  bugcheck, ◌>>=◌, arith,
}
use graphics_drivers_wip.Modes.{Modes}
use graphics_drivers_wip.Dod.{Status, call_failed, no_memory, is_success}
use graphics_drivers_wip.Bdd.{DisplayInfo, BddMode}
use graphics_drivers_wip.Hardware.{Hardware, hw_init}
use graphics_drivers_wip.Vbe.{get_vbe_mode_list}
use graphics_drivers_wip.Driver.Registry.{register_hw_info}
use graphics_drivers_wip.Driver.{
  DeviceKind, gpu_device, vga_device, Driver, StartApi, has, kind_of, check_hardware, init_device,
  take_over, start_device, set_final_display_info, after_modes, after_init, zeroed_current,
  stop_device, stop_and_release, new_driver,
}

-- The states that VioGpuDod comes to, with the number of devices that were made. `commits` is any change
-- of the current mode by a method that is called when the driver is active. A driver is started again
-- only after it was stopped.
pub data Reaches : ℕ → Driver → Type 0 where
  creates : (h : Hardware) (t : Modes) → Reaches 0 (new_driver h t)
  starts :
      {n : ℕ} {d t : Driver} (a : StartApi) (st : Status)
      → Reaches n d
      → d.started ≡ false
      → start_device a d ≡ done (st, t)
      → Reaches (n + (if a.device_information then (if a.allocated then 1 else 0) else 0)) t
  stops : {n : ℕ} {d : Driver} → Reaches n d → Reaches n (stop_device d)
  releases :
      {n : ℕ} {d t : Driver} (black_out : DeviceKind → BddMode → BddMode) (bar : Option ℕ)
      (i : DisplayInfo)
      → Reaches n d
      → stop_and_release black_out bar d ≡ done (i, t)
      → Reaches n t
  commits :
      {n : ℕ} {d : Driver} (m : BddMode)
      → Reaches n d
      → d.started ≡ true
      → Reaches n (record d { mode = m })

abbrev pub IsThere : Option DeviceKind → Type 0
IsThere none = ⊥
IsThere (some k) = Unit {0}

pub record IsSound (n : ℕ) (d : Driver) : Type 0 where
  pub there : d.started ≡ true → IsThere d.device
  pub mapped : d.mode.frame_ptr ≢ 0 → IsThere d.device
  pub made : d.abandoned + has d.device ≡ n

-- A value was there to be passed on.
bind-done :
    {A B : Type 0} (o : Outcome A) (f : A → Outcome B) (b : B)
    → (o >>= f) ≡ done b
    → (a : A) × (o ≡ done a) × (f a ≡ done b)
bind-done (done a) f b e = (a, refl, e)
bind-done null_pointer f b e = cc
bind-done overrun f b e = cc
bind-done out_of_fuel f b e = cc
bind-done bugcheck f b e = cc

-- What the HWInit of a device leaves alone.
record Keeps (d t : Driver) : Type 0 where
  device : t.device ≡ d.device
  abandoned : t.abandoned ≡ d.abandoned
  mode : t.mode ≡ d.mode
  started : t.started ≡ d.started

done_injective : {A : Type 0} {x y : A} → done x ≡ done y → x ≡ y
done_injective e = cc

second : {A B : Type 0} {x y : A × B} → done x ≡ done y → x.1 ≡ y.1
second e = ap (λ p. p.1) (done_injective e)

same_rest :
    (d t : Driver) {x : Driver}
    → x ≡ t
    → x.device ≡ d.device
    → x.abandoned ≡ d.abandoned
    → x.mode ≡ d.mode
    → x.started ≡ d.started
    → Keeps d t
same_rest d t q v a m s = record {
  device = ap (λ y. y.device) (sym q) ∙ v;
  abandoned = ap (λ y. y.abandoned) (sym q) ∙ a;
  mode = ap (λ y. y.mode) (sym q) ∙ m;
  started = ap (λ y. y.started) (sym q) ∙ s;
}

no_value : {A : Type 0} {x : A} → null_pointer ≡ done x → ⊥
no_value e = cc

adds : {x y z u : ℕ} → x ≡ u → y ≡ 1 → z ≡ 1 → x + y ≡ u + z
adds p q r = omega (arith, p, q, r)

not_both : (b : Bool) → b ≡ false → b ≡ true → ⊥
not_both b n y = cc

init_device-Keeps :
    (a : StartApi) (k : DeviceKind) (d t : Driver) (st : Status)
    → init_device a k d ≡ done (st, t)
    → Keeps d t
unfolding init_device
init_device-Keeps a gpu_device d t st e =
    let (r, o, f) =
      bind-done (hw_init a.gpu (record d.hardware { has_thread = false }))
        (λ r. done (r.0, record d { hardware = r.1 })) (st, t) e in
    same_rest d t (second f) refl refl refl refl
init_device-Keeps a vga_device d t st e =
    let (r, o, f) =
      bind-done (get_vbe_mode_list a.vbe a.vbe_rounds d.mode.disp_info d.vga_modes)
        (λ r. done (after_modes r d)) (st, t) e in
    same_rest d t (second f) refl refl refl refl

-- What StartDevice leaves alone after HWInit; and it maps no frame buffer.
after_init-frame :
    (a : StartApi) (st : Status) (d : Driver)
    → ((after_init a st d).1.device ≡ d.device)
      × ((after_init a st d).1.abandoned ≡ d.abandoned)
      × ((after_init a st d).1.mode.frame_ptr ≡ d.mode.frame_ptr)
unfolding after_init take_over
after_init-frame a st d = elim (Bool-cases (is_success st)) [
  | inr f ↦ rw (after_init, f) (refl, refl, refl)
  | inl s ↦ elim (Bool-cases (is_success (register_hw_info a.registry).0)) [
    | inr f ↦ rw (after_init, take_over, s, f) (refl, refl, refl)
    | inl r ↦ elim (Option-cases a.post_display) [
      | inl n ↦ rw (after_init, take_over, s, r, n) (refl, refl, refl)
      | inr (i, p) ↦ rw (after_init, take_over, s, r, p) (refl, refl, refl)
    ]
  ]
]

-- How a start ends.
record Started (a : StartApi) (d t : Driver) : Type 0 where
  unmapped : t.mode.frame_ptr ≡ 0
  there : d.started ≡ false → t.started ≡ true → IsThere t.device
  made :
      t.abandoned + has t.device
      ≡ d.abandoned
        + has d.device
        + (if a.device_information then (if a.allocated then 1 else 0) else 0)

start_device-Started :
    (a : StartApi) (d t : Driver) (st : Status) → start_device a d ≡ done (st, t) → Started a d t
unfolding start_device
start_device-Started a d t st e =
    let lost = d.abandoned + has d.device in
    let kind = kind_of (check_hardware a.pci_ids) in
    let d₁ = record d { mode = zeroed_current } in
    elim (Bool-cases a.device_information) [
      | inr f ↦
          let q : start_device a d ≡ done (call_failed, d₁) = simp (start_device, f) in
          subst (λ y. Started a d y) (second (sym q ∙ e))
            (record {
              unmapped = refl;
              there = λ n y. absurd (not_both d.started n y);
              made = rw f (omega arith);
            })
      | inl i ↦ elim (Bool-cases a.allocated) [
        | inr f ↦
            let q : start_device a d
                ≡ done (no_memory, record d₁ { device = none; abandoned = lost }) =
              simp (start_device, i, f) in
            subst (λ y. Started a d y) (second (sym q ∙ e))
              (record {
                unmapped = refl;
                there = λ n y. absurd (not_both d.started n y);
                made = rw (i, f) (omega arith);
              })
        | inl l ↦
            let d₂ = record d₁ { device = some kind; abandoned = lost } in
            let next = λ (r : Status × Driver). done (after_init a r.0 r.1) in
            let q : start_device a d ≡ (init_device a kind d₂ >>= next) =
              simp (start_device, i, l) in
            let ((s, d₃), o, g) = bind-done (init_device a kind d₂) next (st, t) (sym q ∙ e) in
            let w = init_device-Keeps a kind d₂ d₃ s o in
            let (v, m, u) = after_init-frame a s d₃ in
            let dev = v ∙ w.device in
            let one : (if a.device_information then (if a.allocated then 1 else 0) else 0) ≡ 1 =
              rw (i, l) refl in
            let sum = adds (m ∙ w.abandoned) (ap has dev) one in
            subst (λ y. Started a d y) (second g)
              (record {
                unmapped = u ∙ ap (λ y. y.frame_ptr) w.mode;
                there = λ n y. subst (λ x. IsThere x) (sym dev) tt;
                made = sum;
              })
      ]
    ]

IsSound-starts :
    (n : ℕ) (a : StartApi) (d t : Driver) (st : Status)
    → IsSound n d
    → d.started ≡ false
    → start_device a d ≡ done (st, t)
    → IsSound (n + (if a.device_information then (if a.allocated then 1 else 0) else 0)) t
IsSound-starts n a d t st s f e =
    let w = start_device-Started a d t st e in
    record {
      there = w.there f;
      mapped = λ z. absurd (z w.unmapped);
      made =
          w.made
          ∙ ap (λ k. k + (if a.device_information then (if a.allocated then 1 else 0) else 0))
              s.made;
    }

IsSound-releases :
    (n : ℕ) (d t : Driver) (black_out : DeviceKind → BddMode → BddMode) (bar : Option ℕ)
    (i : DisplayInfo)
    → IsSound n d
    → stop_and_release black_out bar d ≡ done (i, t)
    → IsSound n t
unfolding stop_and_release stop_device
IsSound-releases n d t black_out bar i s e = elim (Option-cases d.device) [
  | inl f ↦
      let q : stop_and_release black_out bar d ≡ null_pointer = simp (stop_and_release, f) in
      absurd (no_value (sym q ∙ e))
  | inr (k, f) ↦
      let x = stop_device (record d { mode = black_out k d.mode }) in
      let q : stop_and_release black_out bar d
          ≡ done (set_final_display_info k bar d.initial_info, x) =
        simp (stop_and_release, f) in
      let at : IsThere d.device = subst (λ y. IsThere y) (sym f) tt in
      subst (λ y. IsSound n y) (second (sym q ∙ e))
        (record { there = λ z. at; mapped = λ z. at; made = s.made })
]

-- In every state that VioGpuDod comes to, by starts that fail at any point, stops and commits, an active
-- driver has a device, and so has one whose current mode has a frame buffer. And there were made as many
-- devices as there are now, one or none, and as the starts have put another pointer in the place of.
pub Reaches-IsSound : (n : ℕ) (d : Driver) → Reaches n d → IsSound n d
unfolding stop_device
Reaches-IsSound _ _ (creates h t) = record {
  there = λ z. cc;
  mapped = λ z. absurd (z refl);
  made = omega arith;
}
Reaches-IsSound _ d (starts {n = n} {d = e} a st r f q) =
    IsSound-starts n a e d st (Reaches-IsSound n e r) f q
Reaches-IsSound n _ (stops {d = d} r) =
    let s = Reaches-IsSound n d r in record { there = λ z. cc; mapped = s.mapped; made = s.made }
Reaches-IsSound n d (releases {d = e} black_out bar i r q) =
    IsSound-releases n e d black_out bar i (Reaches-IsSound n e r) q
Reaches-IsSound n _ (commits {d = d} m r f) =
    let s = Reaches-IsSound n d r in
    record { there = s.there; mapped = λ z. s.there f; made = s.made }
