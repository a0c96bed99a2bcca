-- ===== src/Device/Session.antt =====
-- Whole sessions of GpuDevice in viogpu/viogpudo/viogpudo.cpp: modes are set, and the frame buffer and the
-- cursor replaced and destroyed, in any order and with failures.
use graphics_drivers_wip.Base.{
  ◌*◌, u32, ℕ, zero, suc, ◌+◌, ◌≤◌, ◌<◌, ◌≡◌, ◌⊎◌, inl, inr, refl, ap, sym, Bool, true, false, none,
  some, List, [], ◌∷◌, ◌==◌, ==_iff, Bool-cases, get_elem?, Outcome, null_pointer, overrun,
  bugcheck, out_of_fuel, done, ◌>>=◌, length, arith,
}
use graphics_drivers_wip.Idr.{BitMapApi, bitmap_size}
use graphics_drivers_wip.Idr.Laws.{BitMapLaws, Represents}
use graphics_drivers_wip.Modes.{Modes, ModeInfo, get_at}
use graphics_drivers_wip.Modes.Table.{IsTable, get_elem?-in}
use graphics_drivers_wip.Device.{
  CtrlQueueApi, Answers, CurrentMode, PointerShape, Gpu, pointer_size, find_mode, set_current_mode,
  create_frame_buffer, destroy_frame_buffer, replace_cursor, destroy_cursor,
}
use graphics_drivers_wip.Device.Host.{Host, no_resources, QueueLaws, Takes}
use graphics_drivers_wip.Device.Sync.{IsSynced, IsSynced-less, free_id}
use graphics_drivers_wip.Device.Drop.{twice_less, destroy_frame_buffer_lem, destroy_cursor_lem}
use graphics_drivers_wip.Device.Create.{
  IsAnswered, Attaches, Ends, snd, create_frame_buffer_lem, create_cursor_lem,
}

get_at-some :
    {A : Type 0} (xs : List A) (i : ℕ) (v : A) → get_elem? xs i ≡ some v → get_at xs i ≡ done v
unfolding get_at
get_at-some xs i v e = rw (get_at, e) refl

-- On numbered modes the search ends, and finds a mode only at its own number.
find_mode_lem :
    (mode n idx : ℕ) (numbers : List ℕ)
    → ((i : ℕ) → i < idx + n → get_elem? numbers i ≡ some i)
    → (find_mode mode n idx numbers ≡ done none)
      ⊎ ((find_mode mode n idx numbers ≡ done (some mode)) × (mode < idx + n))
unfolding find_mode
find_mode_lem mode zero idx numbers num = inl refl
find_mode_lem mode (suc n) idx numbers num =
    let at = get_at-some numbers idx idx (num idx (omega arith)) in
    elim (Bool-cases (mode == idx)) [
      | inl e ↦
          let same : mode ≡ idx = (==_iff mode idx).0 e in
          inr (rw (at, e) (ap (λ (z : ℕ). done (some z)) (sym same)), omega (arith, same))
      | inr e ↦ elim (find_mode_lem mode n (idx + 1) numbers (λ i l. num i (omega arith))) [
        | inl d ↦ inl (rw (at, e) d)
        | inr (d, l) ↦ inr (rw (at, e) d, omega arith)
      ]
    ]

pub data Request : Type 0 where
  set_mode : (mode : ℕ) (a : Answers) (cur : CurrentMode) → Request
  set_pointer : (a : Answers) (shape : PointerShape) (cur : CurrentMode) → Request
  drop_frame : Request
  drop_pointer : Request

-- A request posts at most seven commands.
abbrev pub commands : List Request → ℕ
commands [] = 0
commands (r ∷ rs) = suc (suc (suc (suc (suc (suc (suc (commands rs)))))))

module _ (api : BitMapApi) (maps : BitMapLaws api) (queue : CtrlQueueApi)
    (laws : QueueLaws queue) where
  -- For every request, what the code does not handle does not occur, and the entries of the object fit the
  -- queue; for a mode, of any mode of the table.
  abbrev pub AllAnswered : Modes → List Request → Type 0
  AllAnswered m [] = Unit {0}
  AllAnswered m (set_mode mode a cur ∷ l) =
      IsAnswered a
      × ((info : ModeInfo)
          → get_elem? m.mode_info mode ≡ some info
          → Attaches api maps queue laws a (u32 (info.screen_stride * info.vis_screen_height)))
      × AllAnswered m l
  AllAnswered m (set_pointer a shape cur ∷ l) =
      IsAnswered a
      × Attaches api maps queue laws a (pointer_size * pointer_size * 4)
      × AllAnswered m l
  AllAnswered m (drop_frame ∷ l) = AllAnswered m l
  AllAnswered m (drop_pointer ∷ l) = AllAnswered m l

  unfoldable pub step : Modes → Request → Gpu api queue → Outcome (Gpu api queue)
  step m (set_mode mode a cur) g = set_current_mode api queue mode m a cur g >>= λ r. done r.2
  step m (set_pointer a shape cur) g = replace_cursor api queue a shape cur g >>= λ r. done r.1
  step m drop_frame g = destroy_frame_buffer api queue g
  step m drop_pointer g = destroy_cursor api queue g

  unfoldable pub run : Modes → List Request → Gpu api queue → Outcome (Gpu api queue)
  unfolding step
  run m [] g = done g
  run m (r ∷ rs) g = step m r g >>= run m rs

  -- The results that the session does not look at.
  last_part :
      (o : Outcome (CurrentMode × Gpu api queue)) (t : Gpu api queue)
      → (o >>= snd api maps queue laws) ≡ done t
      → ((o >>= λ p. done (true, p.0, p.1)) >>= λ (r : Bool × CurrentMode × Gpu api queue).
          done r.2)
        ≡ done t
  unfolding snd
  last_part (done p) t e = e
  last_part null_pointer t e = cc
  last_part overrun t e = cc
  last_part bugcheck t e = cc
  last_part out_of_fuel t e = cc

  seven_less :
      (n : ℕ) (g : Gpu api queue) (ids : List ℕ) (h : Host)
      → IsSynced api maps queue laws (suc (suc (suc (suc (suc (suc (suc n))))))) g ids h
      → IsSynced api maps queue laws n g ids h
  seven_less n g ids h s = IsSynced-less api maps queue laws n g ids h (
      twice_less api maps queue laws (suc n) g ids h (
        twice_less api maps queue laws (suc (suc (suc n))) g ids h
          (twice_less api maps queue laws (suc (suc (suc (suc (suc n))))) g ids h s)))

  five_less :
      (n : ℕ) (g : Gpu api queue) (ids : List ℕ) (h : Host)
      → IsSynced api maps queue laws (suc (suc (suc (suc (suc n))))) g ids h
      → IsSynced api maps queue laws n g ids h
  five_less n g ids h s = IsSynced-less api maps queue laws n g ids h (
      twice_less api maps queue laws (suc n) g ids h
        (twice_less api maps queue laws (suc (suc (suc n))) g ids h s))

  set_mode-Ends :
      (n : ℕ) (m : Modes) (mode : ℕ) (a : Answers) (cur : CurrentMode) (g : Gpu api queue)
      (ids : List ℕ) (h : Host)
      → IsTable m
      → IsAnswered a
      → ((info : ModeInfo)
          → get_elem? m.mode_info mode ≡ some info
          → Attaches api maps queue laws a (u32 (info.screen_stride * info.vis_screen_height)))
      → IsSynced api maps queue laws (suc (suc (suc (suc (suc (suc (suc n))))))) g ids h
      → length ids + 1 < bitmap_size
      → Ends api maps queue laws n g ids (step m (set_mode mode a cur) g)
  unfolding step set_current_mode snd
  set_mode-Ends n m mode a cur g ids h table w fits s few =
      elim (find_mode_lem mode m.mode_count 0 m.mode_numbers
        (λ i l. table.numbered i (omega arith))) [
          | inl none_found ↦ (g, ids, h, rw none_found refl, seven_less n g ids h s, omega arith)
          | inr (found, l) ↦
              let (info, at) =
                get_elem?-in m.mode_info mode (omega (arith, l, table.infos, table.most)) in
              let (g₁, ids₁, h₁, d₁, s₁, fewer, f₁, c₁) =
                destroy_frame_buffer_lem api maps queue laws (suc (suc (suc (suc (suc n))))) g ids h
                  s in
              let (t, ids₂, h₂, d₂, s₂, more) =
                create_frame_buffer_lem api maps queue laws n a info
                  (record cur { frame_buffer_is_active = false; physic_address = 0 }) g₁ ids₁ h₁ w
                  (fits info at) s₁
                  (free_id api maps queue laws (suc (suc (suc (suc (suc n))))) g₁ ids₁ h₁ s₁
                    (omega arith)) in
              (
                t,
                ids₂,
                h₂,
                rw (found, d₁, get_at-some m.mode_info mode info at)
                    (last_part
                      (create_frame_buffer api queue a info
                        (record cur { frame_buffer_is_active = false; physic_address = 0 }) g₁)
                      t d₂),
                s₂,
                omega arith,
              )
        ]

  set_pointer-Ends :
      (n : ℕ) (m : Modes) (a : Answers) (p : PointerShape) (cur : CurrentMode) (g : Gpu api queue)
      (ids : List ℕ) (h : Host)
      → IsAnswered a
      → Attaches api maps queue laws a (pointer_size * pointer_size * 4)
      → IsSynced api maps queue laws (suc (suc (suc (suc (suc (suc (suc n))))))) g ids h
      → length ids + 1 < bitmap_size
      → Ends api maps queue laws n g ids (step m (set_pointer a p cur) g)
  unfolding step replace_cursor snd
  set_pointer-Ends n m a p cur g ids h w fits s few =
      let (g₁, ids₁, h₁, d₁, s₁, fewer, f₁, c₁) =
        destroy_cursor_lem api maps queue laws (suc (suc (suc n))) g ids h
          (twice_less api maps queue laws (suc (suc (suc (suc (suc n))))) g ids h s) in
      let (t, ids₂, h₂, d₂, s₂, more) =
        create_cursor_lem api maps queue laws n a p cur g₁ ids₁ h₁ w fits s₁
          (free_id api maps queue laws (suc (suc (suc n))) g₁ ids₁ h₁ s₁ (omega arith)) in
      (t, ids₂, h₂, rw d₁ d₂, s₂, omega arith)

  run-from :
      (m : Modes) (rs : List Request) (g : Gpu api queue) (ids : List ℕ) (h : Host)
      → IsTable m
      → AllAnswered m rs
      → IsSynced api maps queue laws (commands rs) g ids h
      → length ids + length rs + 1 < bitmap_size
      → (t : Gpu api queue) × (ids₁ : List ℕ) × (h₁ : Host) × (run m rs g ≡ done t)
        × IsSynced api maps queue laws 0 t ids₁ h₁
        × (length ids₁ ≤ length ids + length rs)
  unfolding run step
  run-from m [] g ids h table w s few = (g, ids, h, refl, s, omega arith)
  run-from m (set_mode mode a cur ∷ rs) g ids h table w s few =
      let (g₁, ids₁, h₁, d₁, s₁, more) =
        set_mode-Ends (commands rs) m mode a cur g ids h table w.0 w.1 s (omega arith) in
      let (t, ids₂, h₂, d₂, s₂, le) = run-from m rs g₁ ids₁ h₁ table w.2 s₁ (omega arith) in
      (t, ids₂, h₂, rw d₁ d₂, s₂, omega arith)
  run-from m (set_pointer a p cur ∷ rs) g ids h table w s few =
      let (g₁, ids₁, h₁, d₁, s₁, more) =
        set_pointer-Ends (commands rs) m a p cur g ids h w.0 w.1 s (omega arith) in
      let (t, ids₂, h₂, d₂, s₂, le) = run-from m rs g₁ ids₁ h₁ table w.2 s₁ (omega arith) in
      (t, ids₂, h₂, rw d₁ d₂, s₂, omega arith)
  run-from m (drop_frame ∷ rs) g ids h table w s few =
      let (g₁, ids₁, h₁, d₁, s₁, more, f₁, c₁) =
        destroy_frame_buffer_lem api maps queue laws (commands rs) g ids h
          (five_less (suc (suc (commands rs))) g ids h s) in
      let (t, ids₂, h₂, d₂, s₂, le) = run-from m rs g₁ ids₁ h₁ table w s₁ (omega arith) in
      (t, ids₂, h₂, rw d₁ d₂, s₂, omega arith)
  run-from m (drop_pointer ∷ rs) g ids h table w s few =
      let (g₁, ids₁, h₁, d₁, s₁, more, f₁, c₁) =
        destroy_cursor_lem api maps queue laws (commands rs) g ids h
          (five_less (suc (suc (commands rs))) g ids h s) in
      let (t, ids₂, h₂, d₂, s₂, le) = run-from m rs g₁ ids₁ h₁ table w s₁ (omega arith) in
      (t, ids₂, h₂, rw d₁ d₂, s₂, omega arith)

  -- From a device without resources whose ids start at 1, with a table of modes, a queue that takes seven
  -- commands for each request, and fewer requests than there are ids: any requests to set a mode, to
  -- replace the cursor and to destroy either end without a fault, also when the memory of a resource
  -- cannot be had, if the list of its pages and the list of its entries can, its pages can be
  -- locked, and the entries fit the queue. The host has accepted every command; it has exactly the
  -- resources whose ids are in use; and the frame buffer and the cursor are two different ones of
  -- them, with memory.
  pub run-IsSynced :
      (m : Modes) (rs : List Request) (g : Gpu api queue)
      → IsTable m
      → AllAnswered m rs
      → Represents api maps g.idr []
      → g.idr.start_index ≡ 1
      → laws.log g.ctrl ≡ []
      → Takes queue laws (commands rs) g.ctrl
      → g.frame_buf ≡ none
      → g.cursor_buf ≡ none
      → length rs + 1 < bitmap_size
      → (t : Gpu api queue) × (ids : List ℕ) × (h : Host) × (run m rs g ≡ done t)
        × IsSynced api maps queue laws 0 t ids h
  run-IsSynced m rs g table w ids start empty takes f c few =
      let s : IsSynced api maps queue laws (commands rs) g [] no_resources = record {
        ids_in_use = ids;
        reserved = start;
        accepted = (rw empty refl, takes);
        resources = λ r. refl;
        frame = rw f tt;
        cursor = rw c tt;
        separate = rw f tt;
      } in
      let (t, ids₁, h₁, d, s₁, le) = run-from m rs g [] no_resources table w s (omega arith) in
      (t, ids₁, h₁, d, s₁)
