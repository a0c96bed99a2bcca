-- ===== src/Irq/Drain.antt =====
-- What one pass of the loops in GpuDevice::DpcRoutine of viogpu/viogpudo/viogpudo.cpp does with the
-- buffers that the device has used.
use graphics_drivers_wip.Base.{
  ℕ, zero, suc, ◌<◌, ◌≡◌, refl, ap, ◌∙◌, none, some, List, [], ◌∷◌, ◌==◌, length, done, Bool-cases,
  inl, inr, arith,
}
use graphics_drivers_wip.Pool.{Pool, free_buf}
use graphics_drivers_wip.Queue.{VirtQueueApi}
use graphics_drivers_wip.Queue.Command.{cmd_get_display_info}
use graphics_drivers_wip.Irq.{Shared, handle_ctrl, drain_ctrl, drain_crsr}

module _ (api : VirtQueueApi) where
  open api use {VirtQueue, get_used_buf}

  -- The tokens of the buffers that the device has used come out in their order, and null pointers
  -- are not tokens.
  pub record UsedLaws : Type 0 where
    pub used : VirtQueue → List ℕ
    pub get-none : (q : VirtQueue) → used q ≡ [] → (get_used_buf q).0 ≡ none
    pub used-none : (q : VirtQueue) → used q ≡ [] → used (get_used_buf q).1 ≡ []
    pub get-some :
        (q : VirtQueue) (a : ℕ) (rest : List ℕ) → used q ≡ a ∷ rest → (get_used_buf q).0 ≡ some a
    pub used-some :
        (q : VirtQueue) (a : ℕ) (rest : List ℕ) → used q ≡ a ∷ rest → used (get_used_buf q).1 ≡ rest

  -- The state after a list of used buffers is handled.
  abbrev pub handle_all : List ℕ → Shared api → Shared api
  handle_all [] s = s
  handle_all (a ∷ l) s = handle_all l (handle_ctrl api a s)

  abbrev with_ctrl : VirtQueue → Shared api → Shared api
  with_ctrl q s = record s { ctrl = q }

  abbrev pub free_all : List ℕ → Pool → Pool
  free_all [] p = p
  free_all (a ∷ l) p = free_all l (free_buf a p)

  handle_ctrl-queues :
      (a : ℕ) (s : Shared api)
      → ((handle_ctrl api a s).ctrl ≡ s.ctrl)
        × ((handle_ctrl api a s).crsr ≡ s.crsr)
        × ((handle_ctrl api a s).pending ≡ s.pending)
        × ((handle_ctrl api a s).config_event ≡ s.config_event)
  unfolding handle_ctrl
  handle_ctrl-queues a s = elim (Bool-cases ((s.pool.vbuf a).event == 0)) [
    | inl e ↦ rw e (refl, refl, refl, refl)
    | inr e ↦ rw e (elim (Bool-cases (s.cmd_type a == cmd_get_display_info)) [
      | inl d ↦ rw d (refl, refl, refl, refl)
      | inr d ↦ rw d (refl, refl, refl, refl)
    ])
  ]

  pub handle_all-queues :
      (l : List ℕ) (s : Shared api)
      → ((handle_all l s).crsr ≡ s.crsr)
        × ((handle_all l s).pending ≡ s.pending)
        × ((handle_all l s).config_event ≡ s.config_event)
  handle_all-queues [] s = (refl, refl, refl)
  handle_all-queues (a ∷ l) s =
      let (c, r, p, e) = handle_ctrl-queues a s in
      let (r', p', e') = handle_all-queues l (handle_ctrl api a s) in (r' ∙ r, p' ∙ p, e' ∙ e)

  handle_ctrl-ctrl :
      (a : ℕ) (s : Shared api) (q : VirtQueue)
      → handle_ctrl api a (record s { ctrl = q }) ≡ record (handle_ctrl api a s) { ctrl = q }
  unfolding handle_ctrl
  handle_ctrl-ctrl a s q = elim (Bool-cases ((s.pool.vbuf a).event == 0)) [
    | inl e ↦ rw e refl
    | inr e ↦ rw e (elim (Bool-cases (s.cmd_type a == cmd_get_display_info)) [
      | inl d ↦ rw d refl
      | inr d ↦ rw d refl
    ])
  ]

  handle_all-ctrl :
      (l : List ℕ) (s : Shared api) (q : VirtQueue)
      → handle_all l (record s { ctrl = q }) ≡ record (handle_all l s) { ctrl = q }
  handle_all-ctrl [] s q = refl
  handle_all-ctrl (a ∷ l) s q =
      ap (handle_all l) (handle_ctrl-ctrl a s q) ∙ handle_all-ctrl l (handle_ctrl api a s) q

  -- The loop ends within one round more than there are used buffers, having handled each of them.
  pub drain_ctrl_lem :
      (laws : UsedLaws) (l : List ℕ) (fuel : ℕ) (s : Shared api)
      → laws.used s.ctrl ≡ l
      → length l < fuel
      → (q : VirtQueue) × (drain_ctrl api fuel s ≡ done (record (handle_all l s) { ctrl = q }))
        × (laws.used q ≡ [])
  unfolding drain_ctrl
  drain_ctrl_lem laws l zero s u h = absurd (omega arith)
  drain_ctrl_lem laws [] (suc fuel) s u h = (
    (get_used_buf s.ctrl).1,
    rw (drain_ctrl, laws.get-none s.ctrl u) refl,
    laws.used-none s.ctrl u,
  )
  drain_ctrl_lem laws (a ∷ l) (suc fuel) s u h =
      let s₁ = record s { ctrl = (get_used_buf s.ctrl).1 } in
      let same = (handle_ctrl-queues a s₁).0 in
      let (q, e, none_left) =
        drain_ctrl_lem laws l fuel (handle_ctrl api a s₁)
          (ap laws.used same ∙ laws.used-some s.ctrl a l u) (omega arith) in
      (
        q,
        rw (drain_ctrl, laws.get-some s.ctrl a l u)
            (e
              ∙ ap (λ (t : Shared api). done (with_ctrl q (handle_all l t)))
                  (handle_ctrl-ctrl a s (get_used_buf s.ctrl).1)
              ∙ ap (λ (t : Shared api). done (with_ctrl q t))
                  (handle_all-ctrl l (handle_ctrl api a s) (get_used_buf s.ctrl).1)),
        none_left,
      )

  pub drain_crsr_lem :
      (laws : UsedLaws) (l : List ℕ) (fuel : ℕ) (s : Shared api)
      → laws.used s.crsr ≡ l
      → length l < fuel
      → (q : VirtQueue) × (drain_crsr api fuel s
          ≡ done (record s { crsr = q; pool = free_all l s.pool }))
        × (laws.used q ≡ [])
  unfolding drain_crsr
  drain_crsr_lem laws l zero s u h = absurd (omega arith)
  drain_crsr_lem laws [] (suc fuel) s u h = (
    (get_used_buf s.crsr).1,
    rw (drain_crsr, laws.get-none s.crsr u) refl,
    laws.used-none s.crsr u,
  )
  drain_crsr_lem laws (a ∷ l) (suc fuel) s u h =
      let s₁ = record s { crsr = (get_used_buf s.crsr).1; pool = free_buf a s.pool } in
      let (q, e, none_left) =
        drain_crsr_lem laws l fuel s₁ (laws.used-some s.crsr a l u) (omega arith) in
      (q, rw (drain_crsr, laws.get-some s.crsr a l u) e, none_left)
