-- ===== src/Irq/Release.antt =====
-- Which buffers GpuDevice::DpcRoutine of viogpu/viogpudo/viogpudo.cpp gives back to the pool, and which
-- waiting threads it wakes up.
use graphics_drivers_wip.Base.{
  ℕ, ◌+◌, ◌<◌, ◌≡◌, refl, ap, sym, ◌∙◌, not, ◌&&◌, List, [], ◌∷◌, ◌++◌, ◌==◌, if◌then◌else◌, length,
  occurrences, done, Bool-cases, inl, inr, arith,
}
use mathlib.Core.List.{append_assoc, append-nil}
use graphics_drivers_wip.Pool.{Vbuffer}
use graphics_drivers_wip.Pool.Layout.{free_buf-event, free_buf-free}
use graphics_drivers_wip.Queue.{VirtQueueApi}
use graphics_drivers_wip.Queue.Command.{cmd_get_display_info}
use graphics_drivers_wip.Irq.{Shared, handle_ctrl, drain_ctrl}
use graphics_drivers_wip.Irq.Drain.{UsedLaws, handle_all, drain_ctrl_lem}

-- The buffers that nobody waits for.
abbrev pub silent : (ℕ → Vbuffer) → List ℕ → List ℕ
silent vbuf [] = []
silent vbuf (a ∷ l) = if (vbuf a).event == 0 then a ∷ silent vbuf l else silent vbuf l

-- The events of the display information that somebody waits for.
abbrev pub awaited : (ℕ → Vbuffer) → (ℕ → ℕ) → List ℕ → List ℕ
awaited vbuf cmd_type [] = []
awaited vbuf cmd_type (a ∷ l) =
    let rest = awaited vbuf cmd_type l in
    if not ((vbuf a).event == 0) && cmd_type a == cmd_get_display_info
    then (vbuf a).event ∷ rest
    else rest

abbrev SameEvents : (ℕ → Vbuffer) → (ℕ → Vbuffer) → Type 0
SameEvents f g = (b : ℕ) → (f b).event ≡ (g b).event

silent-same : (f g : ℕ → Vbuffer) (l : List ℕ) → SameEvents f g → silent f l ≡ silent g l
silent-same f g [] e = refl
silent-same f g (a ∷ l) e = rw (e a, silent-same f g l e) refl

awaited-same :
    (f g : ℕ → Vbuffer) (c : ℕ → ℕ) (l : List ℕ) → SameEvents f g → awaited f c l ≡ awaited g c l
awaited-same f g c [] e = refl
awaited-same f g c (a ∷ l) e = rw (e a, awaited-same f g c l e) refl

module _ (api : VirtQueueApi) where
  record Handled (a : ℕ) (s t : Shared api) : Type 0 where
    events : SameEvents t.pool.vbuf s.pool.vbuf
    cmds : t.cmd_type ≡ s.cmd_type
    free : t.pool.free_bufs ≡ s.pool.free_bufs ++ silent s.pool.vbuf (a ∷ [])
    woken :
        (e : ℕ)
        → occurrences e t.events
          ≡ occurrences e (awaited s.pool.vbuf s.cmd_type (a ∷ [])) + occurrences e s.events

  handle_ctrl_lem : (a : ℕ) (s : Shared api) → Handled a s (handle_ctrl api a s)
  unfolding handle_ctrl
  handle_ctrl_lem a s = elim (Bool-cases ((s.pool.vbuf a).event == 0)) [
    | inl e ↦ record {
      events = λ b. rw e (free_buf-event a b s.pool);
      cmds = rw e refl;
      free = rw e (free_buf-free a s.pool);
      woken = λ z. rw e (omega arith);
    }
    | inr e ↦ elim (Bool-cases (s.cmd_type a == cmd_get_display_info)) [
      | inl d ↦ record {
        events = λ b. rw (e, d) refl;
        cmds = rw (e, d) refl;
        free = rw (e, d) (sym (append-nil s.pool.free_bufs));
        woken = λ z. rw (e, d) (ground arith);
      }
      | inr d ↦ record {
        events = λ b. rw (e, d) refl;
        cmds = rw (e, d) refl;
        free = rw (e, d) (sym (append-nil s.pool.free_bufs));
        woken = λ z. rw (e, d) (ground arith);
      }
    ]
  ]

  silent-cons :
      (f : ℕ → Vbuffer) (a : ℕ) (l : List ℕ) → silent f (a ∷ l) ≡ silent f (a ∷ []) ++ silent f l
  silent-cons f a l = elim (Bool-cases ((f a).event == 0)) [ inl e ↦ rw e refl | inr e ↦ rw e refl ]

  awaited-cons :
      (f : ℕ → Vbuffer) (c : ℕ → ℕ) (a : ℕ) (l : List ℕ) (z : ℕ)
      → occurrences z (awaited f c (a ∷ l))
        ≡ occurrences z (awaited f c (a ∷ [])) + occurrences z (awaited f c l)
  awaited-cons f c a l z =
      elim (Bool-cases (not ((f a).event == 0) && c a == cmd_get_display_info)) [
        | inl e ↦ rw e (omega arith)
        | inr e ↦ rw e (omega arith)
      ]

  handle_all-free :
      (l : List ℕ) (s : Shared api)
      → (handle_all api l s).pool.free_bufs ≡ s.pool.free_bufs ++ silent s.pool.vbuf l
  handle_all-free [] s = sym (append-nil s.pool.free_bufs)
  handle_all-free (a ∷ l) s =
      let h = handle_ctrl_lem a s in
      let t = handle_ctrl api a s in
      handle_all-free l t
      ∙ ap (λ f. f ++ silent t.pool.vbuf l) h.free
      ∙ append_assoc s.pool.free_bufs (silent s.pool.vbuf (a ∷ [])) (silent t.pool.vbuf l)
      ∙ ap (λ m. s.pool.free_bufs ++ m)
          (ap (λ m. silent s.pool.vbuf (a ∷ []) ++ m)
              (silent-same t.pool.vbuf s.pool.vbuf l h.events)
            ∙ sym (silent-cons s.pool.vbuf a l))

  handle_all-woken :
      (l : List ℕ) (s : Shared api) (z : ℕ)
      → occurrences z (handle_all api l s).events
        ≡ occurrences z (awaited s.pool.vbuf s.cmd_type l) + occurrences z s.events
  handle_all-woken [] s z = omega arith
  handle_all-woken (a ∷ l) s z =
      let h = handle_ctrl_lem a s in
      let t = handle_ctrl api a s in
      let rest =
        ap (λ (c : ℕ → ℕ). occurrences z (awaited t.pool.vbuf c l)) h.cmds
        ∙ ap (occurrences z) (awaited-same t.pool.vbuf s.pool.vbuf s.cmd_type l h.events) in
      omega
        (arith, handle_all-woken l t z, rest, h.woken z, awaited-cons s.pool.vbuf s.cmd_type a l z)

  -- With rounds for all the buffers that the device has used, the loop over the control queue ends
  -- with none left there. It puts behind the free buffers those that nobody waits for, in the
  -- order of their use, and no others; and it sets as often as it is awaited the event of each
  -- display information, and no other event.
  pub drain_ctrl_releases :
      (laws : UsedLaws api) (fuel : ℕ) (s : Shared api)
      → length (laws.used s.ctrl) < fuel
      → (t : Shared api) × (drain_ctrl api fuel s ≡ done t)
        × (laws.used t.ctrl ≡ [])
        × (t.pool.free_bufs ≡ s.pool.free_bufs ++ silent s.pool.vbuf (laws.used s.ctrl))
        × ((e : ℕ)
            → occurrences e t.events
              ≡ occurrences e (awaited s.pool.vbuf s.cmd_type (laws.used s.ctrl))
                + occurrences e s.events)
  drain_ctrl_releases laws fuel s h =
      let l = laws.used s.ctrl in
      let (q, e, u) = drain_ctrl_lem api laws l fuel s refl h in
      (record (handle_all api l s) { ctrl = q }, e, u, handle_all-free l s, handle_all-woken l s)
