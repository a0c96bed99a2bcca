-- ===== src/Modes/Start.antt =====
-- GpuDevice::GetModeList of viogpu/viogpudo/viogpudo.cpp as a whole, with the display information that
-- the device sends.
use graphics_drivers_wip.Base.{
  ℕ, zero, suc, ◌+◌, ◌-◌, ◌≤◌, ◌<◌, ◌≡◌, ◌≢◌, ◌↔◌, inl, inr, refl, subst, sym, ◌∙◌, ◌&&◌, not, Bool,
  true, false, some, List, [], ◌∷◌, ◌==◌, Bool-cases, if◌then◌else◌, u16, length, done, overrun,
  arith,
}
use graphics_drivers_wip.Blit.{Format}
use graphics_drivers_wip.Modes.{
  Modes, Scanout, get_at, get_display_mode, read_modes, get_display_info, get_mode_list, wanted,
  Status, status_success,
}
use graphics_drivers_wip.Modes.Table.{IsTable, set_custom_display_lem}
use graphics_drivers_wip.Modes.Listing.{AllListed, make_modes_lem}

get_at-in {ℓ} :
    {A : Type ℓ} (xs : List A) (i : ℕ) → i < length xs → (v : A) × (get_at xs i ≡ done v)
unfolding get_at
get_at-in [] i h = absurd (omega arith)
get_at-in (x ∷ xs) zero h = (x, refl)
get_at-in (x ∷ xs) (suc i) h = get_at-in xs i (omega arith)

get_at-out {ℓ} : {A : Type ℓ} (xs : List A) (i : ℕ) → length xs ≤ i → get_at xs i ≡ overrun
unfolding get_at
get_at-out [] i h = refl
get_at-out (x ∷ xs) zero h = absurd (omega arith)
get_at-out (x ∷ xs) (suc i) h = get_at-out xs i (omega arith)

read_modes-round :
    (pmodes : List Scanout) (n i : ℕ) (res : ℕ × ℕ) (m : Scanout)
    → get_at pmodes i ≡ done m
    → read_modes true pmodes (suc n) i res
      ≡ read_modes true pmodes n (i + 1) (if m.enabled then (m.width, m.height) else res)
unfolding read_modes
read_modes-round pmodes n i res m e = rw (read_modes, get_display_mode, e) refl

read_modes-in :
    (ok : Bool) (pmodes : List Scanout) (n i : ℕ) (res : ℕ × ℕ)
    → i + n ≤ length pmodes
    → (r : ℕ × ℕ) × (read_modes ok pmodes n i res ≡ done r)
unfolding read_modes
read_modes-in ok pmodes zero i res h = (res, refl)
read_modes-in false pmodes (suc n) i res h = read_modes-in false pmodes n (i + 1) res (omega arith)
read_modes-in true pmodes (suc n) i res h =
    let (m, e) = get_at-in pmodes i (omega arith) in
    let (r, d) =
      read_modes-in true pmodes n (i + 1) (if m.enabled then (m.width, m.height) else res)
        (omega arith) in
    (r, read_modes-round pmodes n i res m e ∙ d)

-- The number of scanouts comes from the device's configuration. If it is larger than the number of
-- entries in the response, the loop over them reads past the end of the response.
read_modes-overruns :
    (pmodes : List Scanout) (n i : ℕ) (res : ℕ × ℕ)
    → i ≤ length pmodes
    → length pmodes < i + n
    → read_modes true pmodes n i res ≡ overrun
unfolding read_modes
read_modes-overruns pmodes zero i res k h = absurd (omega arith)
read_modes-overruns pmodes (suc n) i res k h = elim (Bool-cases (i == length pmodes)) [
  | inl e ↦ rw (read_modes, get_display_mode, get_at-out pmodes i (ground arith)) refl
  | inr e ↦
      let inside : i < length pmodes = ground arith in
      let (m, at) = get_at-in pmodes i inside in
      read_modes-round pmodes n i res m at
      ∙ read_modes-overruns pmodes n (i + 1) (if m.enabled then (m.width, m.height) else res)
          (omega arith) (omega arith)
]

-- The custom modes stand behind the listed ones.
behind : (s : Modes) → IsTable s → s.mode_count - 2 ≤ s.custom_mode
behind s t = elim t.custom [ inl e ↦ omega (arith, e) | inr e ↦ omega (arith, e) ]

get_display_info_lem :
    (w h : ℕ) (ok : Bool) (pmodes : List Scanout) (n : ℕ) (s : Modes)
    → n ≤ length pmodes
    → IsTable s
    → AllListed w h (s.mode_count - 2) s.mode_info
    → (t : Modes) × (get_display_info (some (ok, pmodes)) n s ≡ done t)
      × IsTable t
      × (t.mode_count ≡ s.mode_count)
      × AllListed w h (t.mode_count - 2) t.mode_info
unfolding get_display_info
get_display_info_lem w h ok pmodes n s room table all =
    let (r, d) = read_modes-in ok pmodes n 0 (0, 0) (omega arith) in
    elim (Bool-cases (not (r.0 == 0) && not (r.1 == 0))) [
      | inl e ↦
          let (t, c, table₁, count, new, at, same) =
            set_custom_display_lem (u16 r.0) (u16 r.1) s table in
          (
            t,
            rw (d, e) c,
            table₁,
            count,
            λ i l.
                let far : i ≢ t.custom_mode = λ q. omega (arith, behind t table₁, q) in
                let (info, here, listed) = all i (omega (arith, count)) in
                (info, same i far ∙ here, listed),
          )
      | inr e ↦ (s, rw (d, e) refl, table, refl, all)
    ]

-- With memory for the arrays, and a response that has an entry for every scanout of the device, the
-- mode list is made without a fault, whatever the size asked for: the table is as
-- IsTable says, and its modes before the two custom ones are large enough for the size asked
-- for, or for 1024 x 768 if that size is 0 or not in 32 bits a pixel. The
-- result is a success if there is such a mode.
pub get_mode_list_lem :
    (width height : ℕ) (format : Format) (ok : Bool) (pmodes : List Scanout) (n : ℕ) (s : Modes)
    → n ≤ length pmodes
    → let (w, h) = wanted width height format in
      (status : Status) × (t : Modes) × (get_mode_list true true width height format
          (some (ok, pmodes))
          n
          s
        ≡ done (status, t))
      × IsTable t
      × AllListed w h (t.mode_count - 2) t.mode_info
      × ((status ≡ status_success) ↔ (2 < t.mode_count))
unfolding get_mode_list
get_mode_list_lem width height format ok pmodes n s room =
    let w = (wanted width height format).0 in
    let h = (wanted width height format).1 in
    let (status, s₁, d, table, all, iff) = make_modes_lem w h s in
    let (t, d₁, table₁, count, all₁) = get_display_info_lem w h ok pmodes n s₁ room table all in
    (
      status,
      t,
      rw (d, d₁) refl,
      table₁,
      all₁,
      subst (λ (c : ℕ). (status ≡ status_success) ↔ (2 < c)) (sym count) iff,
    )
