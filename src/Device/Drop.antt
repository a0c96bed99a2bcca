-- ===== src/Device/Drop.antt =====
-- DestroyFrameBuffer and DestroyCursor of GpuDevice in viogpu/viogpudo/viogpudo.cpp keep the ids, the
-- host's resources and the objects in step.
use graphics_drivers_wip.Base.{
  suc, ==_false, ℕ, ◌≤◌, ◌≡◌, inl, inr, refl, ap, subst, sym, ◌∙◌, true, false, not, ◌&&◌, Option,
  none, some, Option-cases, List, ◌==◌, without, contains-without, length-without, Distinct, done,
  length, arith,
}
use graphics_drivers_wip.Idr.{BitMapApi, put_id}
use graphics_drivers_wip.Idr.Laws.{BitMapLaws, put_id_lem, start_index-put_id}
use graphics_drivers_wip.Queue.Command.{release, detach}
use graphics_drivers_wip.Device.{
  CtrlQueueApi, Obj, Gpu, drop_object, destroy_frame_buffer, destroy_cursor,
}
use graphics_drivers_wip.Device.Host.{
  Host, without_backing, without_resource, host_step, QueueLaws, post-plain,
}
use graphics_drivers_wip.Device.Sync.{Holds, Separate, IsSynced, IsSynced-less}

module _ (api : BitMapApi) (maps : BitMapLaws api) (queue : CtrlQueueApi)
    (laws : QueueLaws queue) where
  detach-accepted :
      (r : ℕ) (h : Host)
      → h.is_created r ≡ true
      → h.is_backed r ≡ true
      → host_step (detach r) h ≡ some (without_backing r h)
  unfolding host_step
  detach-accepted r h c b = rw (c, b) refl

  release-accepted :
      (r : ℕ) (h : Host)
      → h.is_created r ≡ true
      → host_step (release r) (without_backing r h)
        ≡ some (without_resource r (without_backing r h))
  unfolding host_step
  release-accepted r h c = rw c refl

  -- Another object keeps its id and its memory.
  Holds-without :
      (r : ℕ) (ids : List ℕ) (h : Host) (o : Obj) (p : Option Obj)
      → Distinct ids
      → o.hw_res ≡ r
      → Separate (some o) p
      → Holds ids h p
      → Holds (without r ids) (without_resource r (without_backing r h)) p
  Holds-without r ids h o none d e s k = tt
  Holds-without r ids h o (some p) d e s k =
      let other : (p.hw_res == r) ≡ false = ==_false p.hw_res r (λ q. s (e ∙ sym q)) in
      (contains-without r ids p.hw_res d ∙ rw (other, k.0) refl, rw (other, k.1) refl)

  -- The state with neither the object's id nor its resource.
  record Dropped (o : Obj) (f c : Option Obj) (g t : Gpu api queue) : Type 0 where
    outcome : drop_object api queue o (record g { frame_buf = f; cursor_buf = c }) ≡ done t
    frame_left : t.frame_buf ≡ f
    cursor_left : t.cursor_buf ≡ c

  drop_object_lem :
      (n : ℕ) (o : Obj) (f c : Option Obj) (g : Gpu api queue) (ids : List ℕ) (h : Host)
      → IsSynced api maps queue laws (suc (suc n)) g ids h
      → Holds ids h (some o)
      → Holds ids h f
      → Holds ids h c
      → Separate (some o) f
      → Separate (some o) c
      → Separate f c
      → (t : Gpu api queue) × (h₁ : Host) × Dropped o f c g t
        × IsSynced api maps queue laws n t (without o.hw_res ids) h₁
  unfolding drop_object
  drop_object_lem n o f c g ids h s k kf kc sf sc apart =
      let r = o.hw_res in
      let made : h.is_created r ≡ true = s.resources r ∙ k.0 in
      let (q₁, d₁, a₁) =
        post-plain queue laws (suc n) (detach r) g.ctrl h (without_backing r h) tt s.accepted
          (detach-accepted r h made k.1) in
      let h₂ = without_resource r (without_backing r h) in
      let (q₂, d₂, a₂) =
        post-plain queue laws n (release r) q₁ (without_backing r h) h₂ tt a₁
          (release-accepted r h made) in
      let distinct = s.ids_in_use.distinct in
      (
        record g { frame_buf = f; cursor_buf = c; ctrl = q₂; idr = (put_id api r g.idr).0 },
        h₂,
        record { outcome = rw (d₁, d₂) refl; frame_left = refl; cursor_left = refl },
        record {
          ids_in_use = (put_id_lem api maps g.idr ids r s.ids_in_use k.0).0;
          reserved = start_index-put_id api r g.idr ∙ s.reserved;
          accepted = a₂;
          resources = λ x.
              ap (λ b. not (x == r) && b) (s.resources x) ∙ sym (contains-without r ids x distinct);
          frame = Holds-without r ids h o f distinct refl sf kf;
          cursor = Holds-without r ids h o c distinct refl sc kc;
          separate = apart;
        },
      )

  pub Separate-sym : (o p : Option Obj) → Separate o p → Separate p o
  Separate-sym none none s = tt
  Separate-sym none (some p) s = tt
  Separate-sym (some o) none s = tt
  Separate-sym (some o) (some p) s = λ e. s (sym e)

  pub Separate-none : (o : Option Obj) → Separate o none
  Separate-none none = tt
  Separate-none (some o) = tt

  pub twice_less :
      (n : ℕ) (g : Gpu api queue) (ids : List ℕ) (h : Host)
      → IsSynced api maps queue laws (suc (suc n)) g ids h
      → IsSynced api maps queue laws n g ids h
  twice_less n g ids h s =
      IsSynced-less api maps queue laws n g ids h
        (IsSynced-less api maps queue laws (suc n) g ids h s)

  pub destroy_frame_buffer_lem :
      (n : ℕ) (g : Gpu api queue) (ids : List ℕ) (h : Host)
      → IsSynced api maps queue laws (suc (suc n)) g ids h
      → (t : Gpu api queue) × (ids₁ : List ℕ) × (h₁ : Host) × (destroy_frame_buffer api queue g
          ≡ done t)
        × IsSynced api maps queue laws n t ids₁ h₁
        × (length ids₁ ≤ length ids)
        × (t.frame_buf ≡ none)
        × (t.cursor_buf ≡ g.cursor_buf)
  unfolding destroy_frame_buffer
  destroy_frame_buffer_lem n g ids h s = elim (Option-cases g.frame_buf) [
    | inl e ↦ (g, ids, h, rw e refl, twice_less n g ids h s, omega arith, e, refl)
    | inr (o, e) ↦
        let k : Holds ids h (some o) = subst (λ (p : Option Obj). Holds ids h p) e s.frame in
        let apart : Separate (some o) g.cursor_buf =
          subst (λ (p : Option Obj). Separate p g.cursor_buf) e s.separate in
        let (t, h₁, d, s₁) =
          drop_object_lem n o none g.cursor_buf g ids h s k tt s.cursor tt apart tt in
        (
          t,
          without o.hw_res ids,
          h₁,
          rw e d.outcome,
          s₁,
          omega (arith, length-without o.hw_res ids k.0),
          d.frame_left,
          d.cursor_left,
        )
  ]

  pub destroy_cursor_lem :
      (n : ℕ) (g : Gpu api queue) (ids : List ℕ) (h : Host)
      → IsSynced api maps queue laws (suc (suc n)) g ids h
      → (t : Gpu api queue) × (ids₁ : List ℕ) × (h₁ : Host) × (destroy_cursor api queue g ≡ done t)
        × IsSynced api maps queue laws n t ids₁ h₁
        × (length ids₁ ≤ length ids)
        × (t.frame_buf ≡ g.frame_buf)
        × (t.cursor_buf ≡ none)
  unfolding destroy_cursor
  destroy_cursor_lem n g ids h s = elim (Option-cases g.cursor_buf) [
    | inl e ↦ (g, ids, h, rw e refl, twice_less n g ids h s, omega arith, refl, e)
    | inr (o, e) ↦
        let k : Holds ids h (some o) = subst (λ (p : Option Obj). Holds ids h p) e s.cursor in
        let apart : Separate (some o) g.frame_buf =
          subst (λ (p : Option Obj). Separate p g.frame_buf) e
            (Separate-sym g.frame_buf g.cursor_buf s.separate) in
        let (t, h₁, d, s₁) =
          drop_object_lem n o g.frame_buf none g ids h s k s.frame tt apart tt
            (Separate-none g.frame_buf) in
        (
          t,
          without o.hw_res ids,
          h₁,
          rw e d.outcome,
          s₁,
          omega (arith, length-without o.hw_res ids k.0),
          d.frame_left,
          d.cursor_left,
        )
  ]
