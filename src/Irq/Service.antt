-- ===== src/Irq/Service.antt =====
-- GpuDevice::DpcRoutine of viogpu/viogpudo/viogpudo.cpp as a whole: no reason that an interrupt leaves
-- is lost, and the loops end.
use graphics_drivers_wip.Base.{
  ==_false, ℕ, zero, suc, ◌+◌, ◌<◌, ◌≡◌, ◌≢◌, ◌↔◌, refl, ap, sym, subst, ◌∙◌, Bool, true, false,
  ◌||◌, List, [], ◌∷◌, if◌then◌else◌, length, done, Bool-cases, inl, inr, arith,
}
use graphics_drivers_wip.Queue.{VirtQueueApi}
use graphics_drivers_wip.Irq.{
  Works, no_works, with_works, any_works, later, Shared, arrive, signal_change, drain_ctrl,
  drain_crsr, service, dpc_routine, interrupt_routine,
}
use graphics_drivers_wip.Irq.Drain.{
  UsedLaws, handle_all, handle_all-queues, drain_ctrl_lem, drain_crsr_lem, free_all,
}

if-true : {b : Bool} (x y : Works) → b ≡ true → (if b then x else y) ≡ x
if-true x y e = rw e refl

if-false : {b : Bool} (x y : Works) → b ≡ false → (if b then x else y) ≡ y
if-false x y e = rw e refl

module _ (api : VirtQueueApi) (laws : UsedLaws api) where
  -- What a pass for the reasons `w` makes of the state.
  record Serviced (w : Works) (s t : Shared api) : Type 0 where
    pending : t.pending ≡ s.pending
    ctrl : laws.used t.ctrl ≡ (if w.display then [] else laws.used s.ctrl)
    crsr : laws.used t.crsr ≡ (if w.cursor then [] else laws.used s.crsr)
    config : t.config_event ≡ (s.config_event || w.change)

  ctrl_part :
      (fuel : ℕ) (b : Bool) (s : Shared api)
      → length (laws.used s.ctrl) < fuel
      → (t : Shared api) × ((if b then drain_ctrl api fuel s else done s) ≡ done t)
        × (t.pending ≡ s.pending)
        × (laws.used t.ctrl ≡ (if b then [] else laws.used s.ctrl))
        × (t.crsr ≡ s.crsr)
        × (t.config_event ≡ s.config_event)
  ctrl_part fuel false s h = (s, refl, refl, refl, refl, refl)
  ctrl_part fuel true s h =
      let (q, e, u) = drain_ctrl_lem api laws (laws.used s.ctrl) fuel s refl h in
      let (c, p, g) = handle_all-queues api (laws.used s.ctrl) s in
      (record (handle_all api (laws.used s.ctrl) s) { ctrl = q }, e, p, u, c, g)

  crsr_part :
      (fuel : ℕ) (b : Bool) (s : Shared api)
      → length (laws.used s.crsr) < fuel
      → (t : Shared api) × ((if b then drain_crsr api fuel s else done s) ≡ done t)
        × (t.pending ≡ s.pending)
        × (laws.used t.crsr ≡ (if b then [] else laws.used s.crsr))
        × (t.ctrl ≡ s.ctrl)
        × (t.config_event ≡ s.config_event)
  crsr_part fuel false s h = (s, refl, refl, refl, refl, refl)
  crsr_part fuel true s h =
      let (q, e, u) = drain_crsr_lem api laws (laws.used s.crsr) fuel s refl h in
      (record s { crsr = q; pool = free_all api (laws.used s.crsr) s.pool }, e, refl, u, refl, refl)

  signal_change-fields :
      (w : Works) (s : Shared api)
      → ((signal_change api w s).pending ≡ s.pending)
        × ((signal_change api w s).ctrl ≡ s.ctrl)
        × ((signal_change api w s).crsr ≡ s.crsr)
        × ((signal_change api w s).config_event ≡ (s.config_event || w.change))
  signal_change-fields w s = elim (Bool-cases w.change) [
    | inl c ↦ rw c (refl, refl, refl, ground arith)
    | inr c ↦ rw c (refl, refl, refl, ground arith)
  ]

  service_lem :
      (fuel : ℕ) (w : Works) (s : Shared api)
      → length (laws.used s.ctrl) < fuel
      → length (laws.used s.crsr) < fuel
      → (t : Shared api) × (service api fuel w s ≡ done t) × Serviced w s t
  unfolding service
  service_lem fuel w s h k =
      let (s₁, e₁, p₁, u₁, r₁, g₁) = ctrl_part fuel w.display s h in
      let (s₂, e₂, p₂, u₂, r₂, g₂) =
        crsr_part fuel w.cursor s₁ (subst (λ q. length (laws.used q) < fuel) (sym r₁) k) in
      let (p₃, c₃, r₃, g₃) = signal_change-fields w s₂ in
      (
        signal_change api w s₂,
        rw (e₁, e₂) refl,
        record {
          pending = p₃ ∙ p₂ ∙ p₁;
          ctrl = ap laws.used (c₃ ∙ r₂) ∙ u₁;
          crsr = ap laws.used r₃ ∙ u₂ ∙ ap (λ q. if w.cursor then [] else laws.used q) r₁;
          config = g₃ ∙ ap (λ b. b || w.change) (g₂ ∙ g₁);
        },
      )

  -- All that is pending in the passes that run: what is pending first, and what arrives during each
  -- pass as long as it makes for another one.
  abbrev pub seen : Works → List Works → Works
  seen w [] = if any_works w then with_works w no_works else no_works
  seen w (v ∷ vs) = if any_works w then with_works w (seen v vs) else no_works

  -- Nothing is pending; the control queue was drained if a display reason is among the works, and
  -- else has what it had; so with the cursor queue; and the worker is to be woken up if it was
  -- before or a change is among the works.
  abbrev pub Ends : Works → Shared api → Shared api → Type 0
  Ends w s t =
      (any_works t.pending ≡ false)
      × (laws.used t.ctrl ≡ (if w.display then [] else laws.used s.ctrl))
      × (laws.used t.crsr ≡ (if w.cursor then [] else laws.used s.crsr))
      × (t.config_event ≡ (s.config_event || w.change))

  or_false : (b : Bool) → (b || false) ≡ b
  or_false b = ground arith

  or_assoc : (a b c : Bool) → ((a || b) || c) ≡ (a || (b || c))
  or_assoc a b c = ground arith

  if-or :
      (a b : Bool) (l : List ℕ)
      → (if b then [] else (if a then [] else l)) ≡ (if a || b then [] else l)
  if-or true true l = refl
  if-or true false l = refl
  if-or false b l = refl

  if-shorter :
      (b : Bool) (l m : List ℕ) (n : ℕ) → m ≡ (if b then [] else l) → length l < n → length m < n
  if-shorter true l m n e h = rw e (omega arith)
  if-shorter false l m n e h = rw e h

  quiet : (s t : Shared api) → any_works s.pending ≡ false → t ≡ s → Ends no_works s t
  quiet s t q e = rw e (q, refl, refl, sym (or_false s.config_event))

  join :
      (w v : Works) (s s₁ t : Shared api)
      → Serviced w (record s { pending = no_works }) s₁
      → Ends v s₁ t
      → Ends (with_works w v) s t
  join w v s s₁ t p (q, c, r, g) = (
    q,
    c ∙ ap (λ l. if v.display then [] else l) p.ctrl ∙ if-or w.display v.display (laws.used s.ctrl),
    r ∙ ap (λ l. if v.cursor then [] else l) p.crsr ∙ if-or w.cursor v.cursor (laws.used s.crsr),
    g ∙ ap (λ b. b || v.change) p.config ∙ or_assoc s.config_event w.change v.change,
  )

  dpc-quiet :
      (passes fuel : ℕ) (ws : List Works) (s : Shared api)
      → any_works s.pending ≡ false
      → dpc_routine api (suc passes) fuel ws s ≡ done s
  unfolding dpc_routine
  dpc-quiet passes fuel ws s q = rw (dpc_routine, q) refl

  dpc-pass :
      (passes fuel : ℕ) (ws : List Works) (s s₁ : Shared api)
      → any_works s.pending ≡ true
      → service api fuel s.pending (record s { pending = no_works }) ≡ done s₁
      → dpc_routine api (suc passes) fuel ws s
        ≡ dpc_routine api passes fuel (later ws) (arrive api ws s₁)
  unfolding dpc_routine
  dpc-pass passes fuel ws s s₁ a e = rw (dpc_routine, a, e) refl

  seen-quiet : (w : Works) (ws : List Works) → any_works w ≡ false → seen w ws ≡ no_works
  seen-quiet w [] q = if-false _ _ q
  seen-quiet w (v ∷ vs) q = if-false _ _ q

  -- With rounds for all used buffers, and passes for all arrivals and one to find that nothing is
  -- left, DpcRoutine ends, and its final state is as Ends says for all the works that were
  -- pending in some pass: no reason that an interrupt left is lost.
  pub dpc_routine_lem :
      (ws : List Works) (passes fuel : ℕ) (s : Shared api)
      → length ws + 1 < passes
      → length (laws.used s.ctrl) < fuel
      → length (laws.used s.crsr) < fuel
      → (t : Shared api) × (dpc_routine api passes fuel ws s ≡ done t)
        × Ends (seen s.pending ws) s t
  dpc_routine_lem ws zero fuel s h k m = absurd (omega arith)
  dpc_routine_lem [] (suc zero) fuel s h k m = absurd (omega arith)
  dpc_routine_lem [] (suc (suc passes)) fuel s h k m = elim (Bool-cases (any_works s.pending)) [
    | inr q ↦ (
      s,
      dpc-quiet (suc passes) fuel [] s q,
      subst (λ (w : Works). Ends w s s) (sym (seen-quiet s.pending [] q)) (quiet s s q refl),
    )
    | inl a ↦
        let (s₁, e, p) = service_lem fuel s.pending (record s { pending = no_works }) k m in
        let q : any_works s₁.pending ≡ false = ap any_works p.pending in
        (
          s₁,
          dpc-pass (suc passes) fuel [] s s₁ a e ∙ dpc-quiet passes fuel [] s₁ q,
          subst (λ (w : Works). Ends w s s₁) (sym (if-true _ _ a))
              (join s.pending no_works s s₁ s₁ p (quiet s₁ s₁ q refl)),
        )
  ]
  dpc_routine_lem (v ∷ vs) (suc passes) fuel s h k m = elim (Bool-cases (any_works s.pending)) [
    | inr q ↦ (
      s,
      dpc-quiet passes fuel (v ∷ vs) s q,
      subst (λ (w : Works). Ends w s s) (sym (seen-quiet s.pending (v ∷ vs) q)) (quiet s s q refl),
    )
    | inl a ↦
        let (s₁, e, p) = service_lem fuel s.pending (record s { pending = no_works }) k m in
        let k₁ =
          if-shorter s.pending.display (laws.used s.ctrl) (laws.used s₁.ctrl) fuel p.ctrl k in
        let m₁ = if-shorter s.pending.cursor (laws.used s.crsr) (laws.used s₁.crsr) fuel p.crsr m in
        let s₂ = record s₁ { pending = with_works s₁.pending v } in
        let (t, d, ends) = dpc_routine_lem vs passes fuel s₂ (omega arith) k₁ m₁ in
        let next : with_works s₁.pending v ≡ v = ap (λ (w : Works). with_works w v) p.pending in
        (
          t,
          dpc-pass passes fuel (v ∷ vs) s s₁ a e ∙ d,
          subst (λ (w : Works). Ends w s t) (sym (if-true _ _ a))
              (join s.pending (seen v vs) s s₁ t p
                (subst (λ (w : Works). Ends (seen w vs) s₁ t) next ends)),
        )
  ]

-- A status of 1 makes the display and the cursor pending, in addition to what was, and queues a DPC;
-- of 3, a change and nothing else; every other status changes nothing. The interrupt is claimed for
-- every status but 0.
interrupt_routine_lem :
    (api : VirtQueueApi) (isrstat : ℕ) (s : Shared api)
    → let (claimed, t) = interrupt_routine api isrstat s in
      ((claimed ≡ true) ↔ (isrstat ≢ 0))
      × ((isrstat ≡ 1)
          → (t.pending ≡ record { display = true; cursor = true; change = s.pending.change })
            × (t.dpcs ≡ s.dpcs + 1))
      × ((isrstat ≡ 3)
          → (t.pending
              ≡ record { display = s.pending.display; cursor = s.pending.cursor; change = true })
            × (t.dpcs ≡ s.dpcs + 1))
      × (isrstat ≢ 1 → isrstat ≢ 3 → t ≡ s)
unfolding interrupt_routine
interrupt_routine_lem api isrstat s = (
  (λ h. ground arith, λ h. ground arith),
  (λ h. rw h (ground arith, refl)),
  (λ h. rw h (ground arith, refl)),
  λ h k. rw (==_false isrstat 1 h, ==_false isrstat 3 k) refl,
)
