-- ===== src/Vbe/Listing.antt =====
-- The table that VgaDevice::GetModeList of viogpu/viogpudo/viogpudo.cpp makes.
use graphics_drivers_wip.Base.{
  ==_false, ◌≢◌, ℕ, zero, suc, ◌+◌, ◌≤◌, ◌<◌, ◌≡◌, refl, sym, ◌∙◌, ◌&&◌, true, false, Bool-cases,
  inl, inr, some, List, replicate, [], ◌==◌, ==_iff, ltb_iff, if◌then◌else◌, u16, length,
  length-set, length-replicate, get_elem?, get_elem?-set_self, get_elem?-set_ne, set, Option-cases,
  done, arith,
}
use graphics_drivers_wip.Modes.{zero_info, Modes, ModeInfo, set_at, min_width_size, min_height_size}
use graphics_drivers_wip.Dod.{Status, success, unsuccessful, call_failed}
use graphics_drivers_wip.Bdd.{DisplayInfo}
use graphics_drivers_wip.Commit.Laws.{IsLongEnough}
use graphics_drivers_wip.Vbe.{
  ModeBlock, VbeApi, vbe_mode_info, set_vbe_mode_info, is_listable, Listed, list_vbe_modes,
  VbeResult, zeroed_table, out_of_memory, wanted_mode, finish_list, fill_table, read_status,
}

-- A mode that is large enough.
pub record IsLarge (width height : ℕ) (i : ModeInfo) : Type 0 where
  pub wide : width ≤ i.vis_screen_width
  pub high : height ≤ i.vis_screen_height

abbrev pub AllLarge : ℕ → ℕ → ℕ → List ModeInfo → Type 0
AllLarge width height k infos =
    (j : ℕ) → j < k → (i : ModeInfo) × (get_elem? infos j ≡ some i) × IsLarge width height i

-- The table while it is filled: `k` of its `count` places are taken.
pub record IsPart (width height count k : ℕ) (t : Modes) : Type 0 where
  pub infos : length t.mode_info ≡ count
  pub numbers : length t.mode_numbers ≡ count
  pub large : AllLarge width height k t.mode_info

abbrev with_mode : ℕ → ℕ → ModeBlock → Modes → Modes
with_mode k number b t = record t {
  mode_numbers = set t.mode_numbers k number;
  mode_info = set t.mode_info k (vbe_mode_info k b);
  current_mode =
      (if b.x_resolution == min_width_size && b.y_resolution == min_height_size
        then u16 k
        else t.current_mode);
}

with_mode-IsPart :
    (width height bits count k number : ℕ) (b : ModeBlock) (t : Modes)
    → is_listable width height bits b ≡ true
    → k < count
    → IsPart width height count k t
    → IsPart width height count (suc k) (with_mode k number b t)
with_mode-IsPart width height bits count k number b t e l p = record {
  infos = length-set t.mode_info k (vbe_mode_info k b) ∙ p.infos;
  numbers = length-set t.mode_numbers k number ∙ p.numbers;
  large = λ j c. elim (Bool-cases (j == k)) [
    | inl q ↦
        let same : j ≡ k = (==_iff j k).0 q in
        (
          vbe_mode_info k b,
          rw same (get_elem?-set_self t.mode_info k (vbe_mode_info k b) (omega (arith, p.infos))),
          record { wide = ground arith; high = ground arith },
        )
    | inr q ↦
        let (i, at, ok) = p.large j (ground arith) in
        (i, get_elem?-set_ne t.mode_info k j (vbe_mode_info k b) (λ z. ground arith) ∙ at, ok)
  ];
}

-- What the listing loop leaves.
pub record IsListing (width height count : ℕ) (l : Listed) : Type 0 where
  pub fits : l.suitable ≤ count
  pub part : IsPart width height count l.suitable l.table
  pub gave_up : l.returned ≡ true → l.status ≡ unsuccessful

-- The BIOS gives each mode a plane, as VBE defines it.
abbrev pub HasPlanes : VbeApi → Type 0
HasPlanes v = (i : ℕ) → (v.mode_block i).1.number_of_planes ≢ 0

set_vbe_mode_info-done :
    (k : ℕ) (b : ModeBlock)
    → b.number_of_planes ≢ 0
    → set_vbe_mode_info k b ≡ done (vbe_mode_info k b)
set_vbe_mode_info-done k b n = rw (==_false b.number_of_planes 0 n) refl

list_vbe_modes_lem :
    (v : VbeApi) (width height bits count n current : ℕ) (st : Status) (k : ℕ) (t : Modes)
    → HasPlanes v
    → k + n ≤ count
    → IsPart width height count k t
    → (l : Listed) × (list_vbe_modes v width height bits n current st k t ≡ done l)
      × IsListing width height count l
unfolding list_vbe_modes set_at
list_vbe_modes_lem v width height bits count zero current st k t m c p = (
  record { status = st; returned = false; suitable = k; table = t },
  refl,
  record { fits = omega arith; part = p; gave_up = λ e. cc },
)
list_vbe_modes_lem v width height bits count (suc n) current st k t m c p =
    let ok = (v.mode_block current).0 in
    let b = (v.mode_block current).1 in
    elim (Option-cases (v.second_number current)) [
      | inl e ↦ (
        record { status = call_failed; returned = false; suitable = k; table = t },
        rw (list_vbe_modes, e) refl,
        record { fits = omega arith; part = p; gave_up = λ z. cc },
      )
      | inr (number, e) ↦ elim (Bool-cases (v.mode_call current)) [
        | inr f ↦ (
          record { status = unsuccessful; returned = true; suitable = k; table = t },
          rw (list_vbe_modes, e, f) refl,
          record { fits = omega arith; part = p; gave_up = λ z. refl },
        )
        | inl y ↦ elim (Bool-cases (is_listable width height bits b)) [
          | inl s ↦
              let (l, q, g) =
                list_vbe_modes_lem v width height bits count n (suc current) (read_status ok)
                  (suc k) (with_mode k number b t) m (omega arith)
                  (with_mode-IsPart width height bits count k number b t s (omega arith) p) in
              (
                l,
                rw
                    (
                      list_vbe_modes,
                      e,
                      y,
                      s,
                      set_vbe_mode_info-done k b (m current),
                      (ltb_iff k (length t.mode_numbers)).1 (omega (arith, p.numbers)),
                      (ltb_iff k (length t.mode_info)).1 (omega (arith, p.infos)),
                    )
                    q,
                g,
              )
          | inr s ↦
              let (l, q, g) =
                list_vbe_modes_lem v width height bits count n (suc current) (read_status ok) k t m
                  (omega arith) p in
              (l, rw (list_vbe_modes, e, y, s) q, g)
        ]
      ]
    ]

-- A table that can be committed from.
pub record IsFilled (width height segment : ℕ) (r : VbeResult) : Type 0 where
  pub long_enough : IsLongEnough r.table
  pub some_mode : 0 < r.table.mode_count
  pub all_large : AllLarge width height r.table.mode_count r.table.mode_info
  pub freed : segment ≢ 0 → r.buffer_held ≡ false

ended : (s : Status) → s ≡ success → s ≡ unsuccessful → ⊥
ended s e f = cc

some_suitable : (k : ℕ) (s : Status) → (if k == 0 then unsuccessful else s) ≡ success → 0 < k
some_suitable k s e = ground arith

finish_list_lem :
    (width height segment count : ℕ) (l : Listed)
    → IsListing width height count l
    → (finish_list segment l).status ≡ success
    → IsFilled width height segment (finish_list segment l)
unfolding finish_list
finish_list_lem width height segment count l g e = elim (Bool-cases l.returned) [
  | inl r ↦
      let d : (finish_list segment l).status ≡ l.status = rw (finish_list, r) refl in
      let gave_up = g.gave_up r in absurd (ended l.status (sym d ∙ e) gave_up)
  | inr r ↦
      let d : (finish_list segment l).status
          ≡ (if l.suitable == 0 then unsuccessful else l.status) =
        rw (finish_list, r) refl in
      let none_left = some_suitable l.suitable l.status (sym d ∙ e) in
      rw (finish_list, r)
        (record {
          long_enough = record {
            infos = omega (arith, g.fits, g.part.infos);
            numbers = omega (arith, g.fits, g.part.numbers);
          };
          some_mode = none_left;
          all_large = g.part.large;
          freed = λ z. ==_false segment 0 z;
        })
]

fill-listing :
    (v : VbeApi) (info : DisplayInfo) (count : ℕ) (t : Modes) (l : Listed)
    → v.new_infos ≡ true
    → v.new_numbers ≡ true
    → list_vbe_modes v
        (wanted_mode info).0
        (wanted_mode info).1
        (wanted_mode info).2
        count
        0
        success
        0
        (zeroed_table count t)
      ≡ done l
    → fill_table v info count t ≡ done (finish_list v.segment l)
unfolding fill_table
fill-listing v info count t l y z q = simp (fill_table, y, z, q)

finish_list-flag : (segment : ℕ) (l : Listed) → (finish_list segment l).hardware_init ≡ true
unfolding finish_list
finish_list-flag segment l = elim (Bool-cases l.returned) [
  | inl r ↦ rw (finish_list, r) refl
  | inr r ↦ rw (finish_list, r) refl
]

-- Once the modes are counted, and each has a plane, VgaDevice's GetModeList writes no further than its arrays,
-- whatever else the BIOS answers. If it succeeds, there is a mode; the arrays are as long as the number of modes, as
-- CommitVidPn wants them; each mode is at least as large as the display, or as 1024 x 768 if the
-- display's information is not usable; and the buffer of the BIOS is freed, if its segment is not 0.
pub fill_table_lem :
    (v : VbeApi) (info : DisplayInfo) (count : ℕ) (t : Modes)
    → HasPlanes v
    → (r : VbeResult) × (fill_table v info count t ≡ done r)
      × (r.hardware_init ≡ true)
      × (r.status ≡ success → IsFilled (wanted_mode info).0 (wanted_mode info).1 v.segment r)
unfolding fill_table
fill_table_lem v info count t m =
    let width = (wanted_mode info).0 in
    let height = (wanted_mode info).1 in
    elim (Bool-cases v.new_infos) [
      | inr n ↦ (out_of_memory [] t, rw (fill_table, n) refl, refl, λ e. cc)
      | inl y ↦ elim (Bool-cases v.new_numbers) [
        | inr n ↦
            (out_of_memory (replicate count zero_info) t, rw (fill_table, y, n) refl, refl, λ e. cc)
        | inl z ↦
            let (l, q, g) =
              list_vbe_modes_lem v width height (wanted_mode info).2 count count 0 success 0
                (zeroed_table count t) m (omega arith)
                (record {
                  infos = length-replicate count zero_info;
                  numbers = length-replicate count 0;
                  large = λ j c. absurd (omega arith);
                }) in
            (
              finish_list v.segment l,
              fill-listing v info count t l y z q,
              finish_list-flag v.segment l,
              finish_list_lem width height v.segment count l g,
            )
      ]
    ]
