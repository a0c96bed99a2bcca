-- ===== src/Device/Create.antt =====
-- CreateFrameBuffer and CreateCursor of GpuDevice in viogpu/viogpudo/viogpudo.cpp keep the ids, the
-- host's resources and the objects in step, whatever fails on the way.
use graphics_drivers_wip.Base.{
  suc, ℕ, ◌+◌, ◌*◌, ◌≤◌, ◌≡◌, ◌≢◌, ◌⊎◌, inl, inr, refl, true, false, not, ◌&&◌, ◌||◌, Option, none,
  some, List, [], ◌∷◌, ◌==◌, contains, if◌then◌else◌, Bool-cases, u32, page_size, ◌/◌, Outcome,
  done, ◌>>=◌, length, arith,
}
use graphics_drivers_wip.Blit.{Memory, blt_bits, a8r8g8b8, a1}
use graphics_drivers_wip.Idr.{BitMapApi, get_id}
use graphics_drivers_wip.Idr.Laws.{BitMapLaws}
use graphics_drivers_wip.Queue.Command.{attach, scanout, show, transfer}
use graphics_drivers_wip.Modes.{ModeInfo}
use graphics_drivers_wip.Device.{
  CtrlQueueApi, Answers, Obj, CurrentMode, PointerShape, Gpu, page_list, bytes_to_pages, obj_init,
  create_frame_buffer, create_cursor, cursor_info, shape_info, shape_rect, draw_cursor,
  color_format, pointer_size,
}
use graphics_drivers_wip.Device.Host.{
  Host, with_resource, with_backing, host_step, QueueLaws, Reaches, Reaches-less, post-plain,
}
use graphics_drivers_wip.Device.Sync.{
  Holds, Separate, IsSynced, HasFreeId, taken, new_object-fails, new_object-makes,
}
use graphics_drivers_wip.Device.Drop.{Separate-sym, twice_less}

-- What the code does not handle does not occur: the allocations of the list of pages and of the entries are
-- successful, and so is the lock of the pages if the memory is there.
pub record IsAnswered (a : Answers) : Type 0 where
  pub sg_list : a.sg_list ≡ true
  pub ents : a.ents ≢ 0
  pub lock : (not (a.v_addr == 0) && a.mdl && not a.locked) ≡ false

-- The object that Init makes.
abbrev pub made : Answers → ℕ → Obj
made a size = record {
  hw_res = 0;
  v_addr = a.v_addr;
  elements =
      page_list a.get_physical_address (bytes_to_pages size) (a.v_addr / page_size * page_size);
}

obj_init-cases :
    (a : Answers) (size : ℕ)
    → IsAnswered a
    → (obj_init a size ≡ done none) ⊎ (obj_init a size ≡ done (some (made a size)))
unfolding obj_init
obj_init-cases a size w = elim (Bool-cases (a.v_addr == 0 || not a.mdl || not a.locked)) [
  | inl e ↦ inl (rw e refl)
  | inr e ↦ inr (rw (e, w.sg_list) refl)
]

module _ (api : BitMapApi) (maps : BitMapLaws api) (queue : CtrlQueueApi)
    (laws : QueueLaws queue) where
  -- The entries of an object of the given size fit the queue, whichever id it has.
  abbrev pub Attaches : Answers → ℕ → Type 0
  Attaches a size = (r : ℕ) → laws.Fits a.ents (attach r (length (made a size).elements))

  -- A resource with memory that no object has is apart from the objects.
  Separate-new :
      (o : Obj) (ids : List ℕ) (h : Host) (p : Option Obj)
      → contains ids o.hw_res ≡ false
      → Holds ids h p
      → Separate (some o) p
  Separate-new o ids h none u k = tt
  Separate-new o ids h (some p) u k = λ e. cc

  -- The final state is in step, and has at most one id more in use.
  abbrev pub Ends : ℕ → Gpu api queue → List ℕ → Outcome (Gpu api queue) → Type 0
  Ends n g ids r =
      (t : Gpu api queue) × (ids₁ : List ℕ) × (h₁ : Host) × (r ≡ done t)
      × IsSynced api maps queue laws n t ids₁ h₁
      × (length ids₁ ≤ length ids + 1)

  unfoldable pub snd : {A : Type 0} → A × Gpu api queue → Outcome (Gpu api queue)
  snd p = done p.1

  -- The host with a resource that has just got its memory.
  abbrev ready : ℕ → Host → Host
  ready r h = with_backing r (with_resource r h)

  -- A resource with memory can be scanned out, transferred and flushed.
  use_resource :
      (n r w k : ℕ) (q : queue.Queue) (h : Host)
      → Reaches queue laws (suc (suc (suc n))) q (ready r h)
      → (q₁ q₂ q₃ : queue.Queue) × (queue.post 0 (scanout 0 r w k 0 0) q ≡ done q₁)
        × (queue.post 0 (transfer r 0 w k 0 0) q₁ ≡ done q₂)
        × (queue.post 0 (show r w k 0 0) q₂ ≡ done q₃)
        × Reaches queue laws n q₃ (ready r h)
  unfolding host_step
  use_resource n r w k q h acc =
      let same : (r == r) ≡ true = ground arith in
      let (q₁, d₁, a₁) =
        post-plain queue laws (suc (suc n)) (scanout 0 r w k 0 0) q (ready r h) (ready r h) tt acc
          (rw same refl) in
      let (q₂, d₂, a₂) =
        post-plain queue laws (suc n) (transfer r 0 w k 0 0) q₁ (ready r h) (ready r h) tt a₁
          (rw same refl) in
      let (q₃, d₃, a₃) =
        post-plain queue laws n (show r w k 0 0) q₂ (ready r h) (ready r h) tt a₂ (rw same refl) in
      (q₁, q₂, q₃, d₁, d₂, d₃, a₃)

  -- The new resource as the frame buffer.
  frame-IsSynced :
      (i j n : ℕ) (o : Obj) (g : Gpu api queue) (q q₃ : queue.Queue) (ids : List ℕ) (h : Host)
      → IsSynced api maps queue laws i g ids h
      → IsSynced api maps queue laws j
          (taken api maps queue laws g q)
          (o.hw_res ∷ ids)
          (ready o.hw_res h)
      → Reaches queue laws n q₃ (ready o.hw_res h)
      → IsSynced api maps queue laws n
          (record (taken api maps queue laws g q) { ctrl = q₃; frame_buf = some o })
          (o.hw_res ∷ ids)
          (ready o.hw_res h)
  frame-IsSynced i j n o g q q₃ ids h s s₁ acc =
      let same : (o.hw_res == o.hw_res) ≡ true = ground arith in
      record {
        ids_in_use = s₁.ids_in_use;
        reserved = s₁.reserved;
        accepted = acc;
        resources = s₁.resources;
        frame = rw same (refl, refl);
        cursor = s₁.cursor;
        separate = Separate-new o ids h g.cursor_buf s₁.ids_in_use.distinct.0 s.cursor;
      }

  pub create_frame_buffer_lem :
      (n : ℕ) (a : Answers) (info : ModeInfo) (cur : CurrentMode) (g : Gpu api queue) (ids : List ℕ)
      (h : Host)
      → IsAnswered a
      → Attaches a (u32 (info.screen_stride * info.vis_screen_height))
      → IsSynced api maps queue laws (suc (suc (suc (suc (suc n))))) g ids h
      → HasFreeId api maps queue laws g
      → Ends n g ids (create_frame_buffer api queue a info cur g >>= snd)
  unfolding create_frame_buffer snd
  create_frame_buffer_lem n a info cur g ids h w fits s free =
      let size = u32 (info.screen_stride * info.vis_screen_height) in
      let f = color_format cur.format in
      let r = (get_id api g.idr).0 in
      elim (obj_init-cases a size w) [
        | inl fails ↦
            let (q, d, s₁) =
              new_object-fails api maps queue laws (suc (suc (suc (suc n)))) a f
                info.vis_screen_width info.vis_screen_height size g ids h s free w.lock fails in
            let tk = taken api maps queue laws g q in
            let s₂ =
              twice_less api maps queue laws (suc (suc n)) tk (r ∷ ids) (with_resource r h) s₁ in
            (
              taken api maps queue laws g q,
              r ∷ ids,
              with_resource r h,
              rw d refl,
              twice_less api maps queue laws n tk (r ∷ ids) (with_resource r h) s₂,
              omega arith,
            )
        | inr makes ↦
            let o = record (made a size) { hw_res = r } in
            let (q, d, s₁) =
              new_object-makes api maps queue laws (suc (suc (suc n))) a f info.vis_screen_width
                info.vis_screen_height size (made a size) g ids h s free w.ents fits makes in
            let (q₁, q₂, q₃, d₁, d₂, d₃, acc) =
              use_resource n r info.vis_screen_width info.vis_screen_height q h s₁.accepted in
            (
              record (taken api maps queue laws g q) { ctrl = q₃; frame_buf = some o },
              r ∷ ids,
              ready r h,
              rw (d, d₁, d₂, d₃) refl,
              frame-IsSynced (suc (suc (suc (suc (suc n))))) (suc (suc (suc n))) n o g q q₃ ids h s
                  s₁ acc,
              omega arith,
            )
      ]

  -- The new resource as the cursor, with any pixels.
  cursor-IsSynced :
      (i j n : ℕ) (o : Obj) (g : Gpu api queue) (q q₃ : queue.Queue) (m : Memory) (ids : List ℕ)
      (h : Host)
      → IsSynced api maps queue laws i g ids h
      → IsSynced api maps queue laws j
          (taken api maps queue laws g q)
          (o.hw_res ∷ ids)
          (ready o.hw_res h)
      → Reaches queue laws n q₃ (ready o.hw_res h)
      → IsSynced api maps queue laws n
          (record (taken api maps queue laws g q) { ctrl = q₃; cursor_buf = some o; memory = m })
          (o.hw_res ∷ ids)
          (ready o.hw_res h)
  cursor-IsSynced i j n o g q q₃ m ids h s s₁ acc =
      let same : (o.hw_res == o.hw_res) ≡ true = ground arith in
      record {
        ids_in_use = s₁.ids_in_use;
        reserved = s₁.reserved;
        accepted = acc;
        resources = s₁.resources;
        frame = s₁.frame;
        cursor = rw same (refl, refl);
        separate =
            Separate-sym api maps queue laws (some o) g.frame_buf
              (Separate-new o ids h g.frame_buf s₁.ids_in_use.distinct.0 s.frame);
      }

  draw_cursor_lem :
      (n : ℕ) (o : Obj) (p : PointerShape) (cur : CurrentMode) (g : Gpu api queue) (q : queue.Queue)
      (ids : List ℕ) (h : Host)
      → IsSynced api maps queue laws (suc (suc (suc n))) g ids h
      → IsSynced api maps queue laws
          (suc n)
          (taken api maps queue laws g q)
          (o.hw_res ∷ ids)
          (ready o.hw_res h)
      → Ends n g ids (
          draw_cursor api queue o.hw_res o p cur
            (record (taken api maps queue laws g q) { cursor_buf = some o })
          >>= snd)
  unfolding draw_cursor snd host_step
  draw_cursor_lem n o p cur g q ids h s s₁ = elim (Bool-cases (not p.color && not p.monochrome)) [
    | inl e ↦ (
      record (taken api maps queue laws g q) { cursor_buf = some o },
      o.hw_res ∷ ids,
      ready o.hw_res h,
      rw e refl,
      cursor-IsSynced (suc (suc (suc n))) (suc n) n o g q q g.memory ids h s s₁
          (Reaches-less queue laws n q (ready o.hw_res h) s₁.accepted),
      omega arith,
    )
    | inr e ↦
        let same : (o.hw_res == o.hw_res) ≡ true = ground arith in
        let (q₁, d₁, a₁) =
          post-plain queue laws n (transfer o.hw_res 0 p.width p.height 0 0) q (ready o.hw_res h)
            (ready o.hw_res h) tt s₁.accepted (rw same refl) in
        (
          record (taken api maps queue laws g q) {
            ctrl = q₁;
            cursor_buf = some o;
            memory =
                blt_bits (cursor_info api queue o)
                  (shape_info api queue p (if p.color then a8r8g8b8 else a1) cur.rotation)
                  (shape_rect api queue p ∷ []) g.memory;
          },
          o.hw_res ∷ ids,
          ready o.hw_res h,
          rw (e, d₁) refl,
          cursor-IsSynced (suc (suc (suc n))) (suc n) n o g q q₁ _ ids h s s₁ a₁,
          omega arith,
        )
  ]

  pub create_cursor_lem :
      (n : ℕ) (a : Answers) (p : PointerShape) (cur : CurrentMode) (g : Gpu api queue)
      (ids : List ℕ) (h : Host)
      → IsAnswered a
      → Attaches a (pointer_size * pointer_size * 4)
      → IsSynced api maps queue laws (suc (suc (suc n))) g ids h
      → HasFreeId api maps queue laws g
      → Ends n g ids (create_cursor api queue a p cur g >>= snd)
  unfolding create_cursor snd
  create_cursor_lem n a p cur g ids h w fits s free =
      let size = pointer_size * pointer_size * 4 in
      let r = (get_id api g.idr).0 in
      elim (obj_init-cases a size w) [
        | inl fails ↦
            let (q, d, s₁) =
              new_object-fails api maps queue laws (suc (suc n)) a 1 pointer_size pointer_size size
                g ids h s free w.lock fails in
            let tk = taken api maps queue laws g q in
            (
              taken api maps queue laws g q,
              r ∷ ids,
              with_resource r h,
              rw d refl,
              twice_less api maps queue laws n tk (r ∷ ids) (with_resource r h) s₁,
              omega arith,
            )
        | inr makes ↦
            let o = record (made a size) { hw_res = r } in
            let (q, d, s₁) =
              new_object-makes api maps queue laws (suc n) a 1 pointer_size pointer_size size
                (made a size) g ids h s free w.ents fits makes in
            rw d (draw_cursor_lem n o p cur g q ids h s s₁)
      ]

  -- On a device in step with its host, with a free id and a queue that takes the next command: if the object's
  -- memory cannot be had, and its pages are not the reason, CreateFrameBuffer returns with the mode as it
  -- was and the resource left behind: its id stays in use, the host keeps the resource, and no
  -- object holds it.
  pub create_frame_buffer-leaks :
      (n : ℕ) (a : Answers) (info : ModeInfo) (cur : CurrentMode) (g : Gpu api queue) (ids : List ℕ)
      (h : Host)
      → IsSynced api maps queue laws (suc n) g ids h
      → HasFreeId api maps queue laws g
      → (not (a.v_addr == 0) && a.mdl && not a.locked) ≡ false
      → obj_init a (u32 (info.screen_stride * info.vis_screen_height)) ≡ done none
      → let r = (get_id api g.idr).0 in
        (t : Gpu api queue) × (create_frame_buffer api queue a info cur g ≡ done (cur, t))
        × IsSynced api maps queue laws n t (r ∷ ids) (with_resource r h)
        × (t.frame_buf ≡ g.frame_buf)
        × (t.cursor_buf ≡ g.cursor_buf)
  unfolding create_frame_buffer
  create_frame_buffer-leaks n a info cur g ids h s free once fails =
      let (q, d, s₁) =
        new_object-fails api maps queue laws n a (color_format cur.format) info.vis_screen_width
          info.vis_screen_height (u32 (info.screen_stride * info.vis_screen_height)) g ids h s free
          once fails in
      (taken api maps queue laws g q, rw d refl, s₁, refl, refl)
