-- ===== src/Modes/Listing.antt =====
-- The loops of GpuDevice::GetModeList in viogpu/viogpudo/viogpudo.cpp, and the table that they make.
use graphics_drivers_wip.Base.{
  ℕ, suc, ◌+◌, ◌-◌, ◌*◌, ◌≤◌, ◌<◌, ◌≡◌, ◌⊎◌, ◌↔◌, inl, inr, refl, ap, subst, ◌∙◌, ◌&&◌, Bool, true,
  false, some, List, [], ◌∷◌, ◌==◌, ltb_iff, ==_iff, Bool-cases, if◌then◌else◌, length, length-set,
  get_elem?, get_elem?-set_self, get_elem?-set_ne, set, done, arith,
}
use graphics_drivers_wip.Modes.{
  DispMode, ModeInfo, Modes, get_at, video_mode_info, is_suitable, list_modes, copy_mode,
  make_modes, cleared, gpu_disp_modes, min_width_size, min_height_size, vgpu_bpp, Status,
  status_success, status_unsuccessful,
}
use graphics_drivers_wip.Modes.Table.{table_size, Numbered, IsTable, get_elem?-in}

-- Place `i` holds a mode that is large enough, with a stride of four bytes a pixel.
pub record IsListed (w h i : ℕ) (info : ModeInfo) : Type 0 where
  pub index : info.mode_index ≡ i
  pub wide : w ≤ info.vis_screen_width
  pub high : h ≤ info.vis_screen_height
  pub stride : info.screen_stride ≡ 4 * info.vis_screen_width
  pub depth : info.bits_per_plane ≡ vgpu_bpp

abbrev pub AllListed : ℕ → ℕ → ℕ → List ModeInfo → Type 0
AllListed w h n infos =
    (i : ℕ) → i < n → (info : ModeInfo) × (get_elem? infos i ≡ some info) × IsListed w h i info

-- What holds after part of the listed modes were looked at, `n` of which are suitable.
record IsPartial (w h n : ℕ) (s : Modes) : Type 0 where
  infos : length s.mode_info ≡ table_size
  numbers : length s.mode_numbers ≡ table_size
  numbered : Numbered n s.mode_numbers
  listed : AllListed w h n s.mode_info
  current : (s.current_mode < n) ⊎ (s.current_mode ≡ 0)

Numbered-suc : (n : ℕ) (l : List ℕ) → n < length l → Numbered n l → Numbered (suc n) (set l n n)
Numbered-suc n l h num i k = elim (Bool-cases (i == n)) [
  | inl e ↦ let same : i ≡ n = (==_iff i n).0 e in rw same (get_elem?-set_self l n n h)
  | inr e ↦ get_elem?-set_ne l n i n (λ q. ground arith) ∙ num i (ground arith)
]

suitable-IsListed :
    (w h n : ℕ) (m : DispMode) → is_suitable w h m ≡ true → IsListed w h n (video_mode_info n m)
unfolding video_mode_info
suitable-IsListed w h n m e = record {
  index = refl;
  wide = ground arith;
  high = ground arith;
  stride = omega arith;
  depth = refl;
}

listed-suc :
    (w h n : ℕ) (m : DispMode) (l : List ModeInfo)
    → n < length l
    → is_suitable w h m ≡ true
    → AllListed w h n l
    → AllListed w h (suc n) (set l n (video_mode_info n m))
listed-suc w h n m l k e all i j = elim (Bool-cases (i == n)) [
  | inl q ↦
      let same : i ≡ n = (==_iff i n).0 q in
      (
        video_mode_info n m,
        rw same (get_elem?-set_self l n (video_mode_info n m) k),
        rw same (suitable-IsListed w h n m e),
      )
  | inr q ↦
      let (info, at, ok) = all i (ground arith) in
      (info, get_elem?-set_ne l n i (video_mode_info n m) (λ z. ground arith) ∙ at, ok)
]

-- The state after a suitable mode is listed.
abbrev with_mode : ℕ → DispMode → Modes → Modes
with_mode n m s = record s {
  mode_numbers = set s.mode_numbers n n;
  mode_info = set s.mode_info n (video_mode_info n m);
  current_mode =
      (if m.x_resolution == min_width_size && m.y_resolution == min_height_size
        then n
        else s.current_mode);
}

list_modes-suitable :
    (w h : ℕ) (m : DispMode) (ms : List DispMode) (n : ℕ) (s : Modes)
    → is_suitable w h m ≡ true
    → n < length s.mode_numbers
    → n < length s.mode_info
    → list_modes w h (m ∷ ms) n s ≡ list_modes w h ms (n + 1) (with_mode n m s)
unfolding list_modes
list_modes-suitable w h m ms n s e k j =
    rw
      (list_modes, e, (ltb_iff n (length s.mode_numbers)).1 k, (ltb_iff n (length s.mode_info)).1 j)
      refl

list_modes-skip :
    (w h : ℕ) (m : DispMode) (ms : List DispMode) (n : ℕ) (s : Modes)
    → is_suitable w h m ≡ false
    → list_modes w h (m ∷ ms) n s ≡ list_modes w h ms n s
unfolding list_modes
list_modes-skip w h m ms n s e = rw (list_modes, e) refl

next-current :
    (n : ℕ) (b : Bool) (c : ℕ)
    → (c < n) ⊎ (c ≡ 0)
    → ((if b then n else c) < n + 1) ⊎ ((if b then n else c) ≡ 0)
next-current n true c o = inl (omega arith)
next-current n false c (inl k) = inl (omega arith)
next-current n false c (inr k) = inr k

IsPartial-next :
    (w h n : ℕ) (m : DispMode) (s : Modes)
    → is_suitable w h m ≡ true
    → n < length s.mode_numbers
    → n < length s.mode_info
    → IsPartial w h n s
    → IsPartial w h (n + 1) (with_mode n m s)
IsPartial-next w h n m s e a b p =
    let one : suc n ≡ n + 1 = omega arith in
    let v = video_mode_info n m in
    record {
      infos = length-set s.mode_info n v ∙ p.infos;
      numbers = length-set s.mode_numbers n n ∙ p.numbers;
      numbered =
          subst (λ (z : ℕ). Numbered z (set s.mode_numbers n n)) one
            (Numbered-suc n s.mode_numbers a p.numbered);
      listed =
          subst (λ (z : ℕ). AllListed w h z (set s.mode_info n v)) one
            (listed-suc w h n m s.mode_info b e p.listed);
      current =
          next-current n (m.x_resolution == min_width_size && m.y_resolution == min_height_size)
            s.current_mode p.current;
    }

list_modes_lem :
    (w h : ℕ) (ms : List DispMode) (n : ℕ) (s : Modes)
    → n + length ms + 2 ≤ table_size
    → IsPartial w h n s
    → (k : ℕ) × (t : Modes) × (list_modes w h ms n s ≡ done (k, t))
      × (k ≤ n + length ms)
      × IsPartial w h k t
unfolding list_modes
list_modes_lem w h [] n s room p = (n, s, refl, omega arith, p)
list_modes_lem w h (m ∷ ms) n s room p = elim (Bool-cases (is_suitable w h m)) [
  | inl e ↦
      let a : n < length s.mode_numbers = omega (arith, p.numbers) in
      let b : n < length s.mode_info = omega (arith, p.infos) in
      let q = IsPartial-next w h n m s e a b p in
      let (k, t, d, le, r) = list_modes_lem w h ms (n + 1) (with_mode n m s) (omega arith) q in
      (k, t, list_modes-suitable w h m ms n s e a b ∙ d, omega arith, r)
  | inr e ↦
      let (k, t, d, le, r) = list_modes_lem w h ms n s (omega arith) p in
      (k, t, list_modes-skip w h m ms n s e ∙ d, omega arith, r)
]

current-in :
    (w h n : ℕ) (s : Modes)
    → n < table_size
    → IsPartial w h n s
    → s.current_mode < length s.mode_info
current-in w h n s j p = elim p.current [
  | inl c ↦ omega (arith, p.infos)
  | inr c ↦ omega (arith, p.infos, c)
]

-- A custom mode behind the `n` listed ones.
copy_mode_lem :
    (w h n i : ℕ) (s : Modes)
    → n ≤ i
    → i < table_size
    → n < table_size
    → IsPartial w h n s
    → Numbered i s.mode_numbers
    → (t : Modes) × (copy_mode i s ≡ done t)
      × IsPartial w h n t
      × Numbered (suc i) t.mode_numbers
      × (t.custom_mode ≡ s.custom_mode)
unfolding copy_mode
copy_mode_lem w h n i s le k j p num =
    let a : i < length s.mode_numbers = omega (arith, p.numbers) in
    let b : i < length s.mode_info = omega (arith, p.infos) in
    let (v, at) = get_elem?-in s.mode_info s.current_mode (current-in w h n s j p) in
    let t = record s { mode_numbers = set s.mode_numbers i i; mode_info = set s.mode_info i v } in
    (
      t,
      rw ((ltb_iff i (length s.mode_numbers)).1 a, get_at, at, (ltb_iff i (length s.mode_info)).1 b)
          refl,
      record {
        infos = length-set s.mode_info i v ∙ p.infos;
        numbers = length-set s.mode_numbers i i ∙ p.numbers;
        numbered = λ z l. Numbered-suc i s.mode_numbers a num z (omega arith);
        listed = λ z l.
            let (info, here, ok) = p.listed z l in
            (info, get_elem?-set_ne s.mode_info i z v (λ q. omega (arith, q)) ∙ here, ok);
        current = p.current;
      },
      Numbered-suc i s.mode_numbers a num,
      refl,
    )

status_iff :
    (n : ℕ)
    → ((if n == 0 then status_unsuccessful else status_success) ≡ status_success) ↔ (2 < n + 2)
status_iff n = ground arith

IsPartial-custom :
    (w h n c : ℕ) (s : Modes) → IsPartial w h n s → IsPartial w h n (record s { custom_mode = c })
IsPartial-custom w h n c s p = record {
  infos = p.infos;
  numbers = p.numbers;
  numbered = p.numbered;
  listed = p.listed;
  current = p.current;
}

-- What GetModeList makes of `n` listed modes.
finish_modes :
    (w h n : ℕ) (s s₁ : Modes)
    → list_modes w h gpu_disp_modes 0 (cleared s) ≡ done (n, s₁)
    → n ≤ 4
    → IsPartial w h n s₁
    → (status : Status) × (t : Modes) × (make_modes w h s ≡ done (status, t))
      × IsTable t
      × AllListed w h (t.mode_count - 2) t.mode_info
      × ((status ≡ status_success) ↔ (2 < t.mode_count))
unfolding make_modes
finish_modes w h n s s₁ d₁ le p₁ =
    let q₁ = IsPartial-custom w h n n s₁ p₁ in
    let (s₂, d₂, p₂, num₂, c₂) =
      copy_mode_lem w h n n (record s₁ { custom_mode = n }) (omega arith) (omega arith)
        (omega arith) q₁ p₁.numbered in
    let (s₃, d₃, p₃, num₃, c₃) =
      copy_mode_lem w h n (n + 1) s₂ (omega arith) (omega arith) (omega arith) p₂
        (λ i l. num₂ i (omega arith)) in
    let back : n + 2 - 2 ≡ n = omega arith in
    (
      if n == 0 then status_unsuccessful else status_success,
      record s₃ { mode_count = n + 2 },
      rw (d₁, d₂, d₃) refl,
      record {
        infos = p₃.infos;
        numbers = p₃.numbers;
        least = omega arith;
        most = omega arith;
        custom = inr (ap (λ (z : ℕ). z + 2) (c₃ ∙ c₂));
        numbered = λ i l. num₃ i (omega arith);
      },
      rw back p₃.listed,
      status_iff n,
    )

-- For every size asked for, the mode list is made inside its arrays, and gives a table whose last two
-- modes are the custom ones, and whose others are listed modes at least as large as was asked
-- for, each with its own index and a stride of four bytes a pixel. The result is a success if
-- there is such a mode.
pub make_modes_lem :
    (w h : ℕ) (s : Modes)
    → (status : Status) × (t : Modes) × (make_modes w h s ≡ done (status, t))
      × IsTable t
      × AllListed w h (t.mode_count - 2) t.mode_info
      × ((status ≡ status_success) ↔ (2 < t.mode_count))
unfolding make_modes
make_modes_lem w h s =
    let start : IsPartial w h 0 (cleared s) = record {
      infos = refl;
      numbers = refl;
      numbered = λ i l. absurd (omega arith);
      listed = λ i l. absurd (omega arith);
      current = inr refl;
    } in
    let (n, s₁, d₁, le, p₁) = list_modes_lem w h gpu_disp_modes 0 (cleared s) (omega arith) start in
    finish_modes w h n s s₁ d₁ le p₁
