-- ===== src/Vbe/Complete.antt =====
-- VgaDevice::GetModeList of viogpu/viogpudo/viogpudo.cpp as a whole.
use graphics_drivers_wip.Base.{
  ℕ, suc, ◌<◌, ◌≡◌, subst, true, false, Bool-cases, inl, inr, done, arith,
}
use graphics_drivers_wip.Modes.{Modes}
use graphics_drivers_wip.Dod.{success, unsuccessful, call_failed}
use graphics_drivers_wip.Bdd.{DisplayInfo}
use graphics_drivers_wip.Vbe.{VbeApi, VbeResult, is_end, wanted_mode, failed, get_vbe_mode_list}
use graphics_drivers_wip.Vbe.Count.{count_modes_lem}
use graphics_drivers_wip.Vbe.Listing.{HasPlanes, IsFilled, fill_table_lem}

-- What the mode list comes to: it succeeds only with a table that can be used.
abbrev pub Usable : ℕ → DisplayInfo → VbeResult → Type 0
Usable segment info r =
    r.status ≡ success → IsFilled (wanted_mode info).0 (wanted_mode info).1 segment r

-- If the BIOS ends its list of mode numbers at an index that fits a USHORT, and gives each mode at least one
-- plane (by which the code divides), then the mode list of VgaDevice ends and writes no further than its arrays, whatever else the BIOS answers. If it succeeds,
-- there is a mode; the arrays are as long as the number of modes, as CommitVidPn wants them; each mode
-- is at least as large as the display, or as 1024 x 768 if the display's information is not usable;
-- and the buffer of the BIOS is freed, if its segment is not 0.
pub get_vbe_mode_list_lem :
    (v : VbeApi) (n : ℕ) (info : DisplayInfo) (t : Modes)
    → n < 0x10000
    → is_end (v.first_number n) ≡ true
    → HasPlanes v
    → (r : VbeResult) × (get_vbe_mode_list v (suc n) info t ≡ done r) × Usable v.segment info r
unfolding get_vbe_mode_list
get_vbe_mode_list_lem v n info t l e m = elim (Bool-cases v.allocate) [
  | inr f ↦ (failed call_failed false t, simp (get_vbe_mode_list, f), λ z. cc)
  | inl a ↦ elim (Bool-cases v.write_signature) [
    | inr f ↦ (failed call_failed true t, simp (get_vbe_mode_list, a, f), λ z. cc)
    | inl b ↦ elim (Bool-cases v.info_call) [
      | inr f ↦ (failed unsuccessful true t, simp (get_vbe_mode_list, a, b, f), λ z. cc)
      | inl c ↦ elim (Bool-cases v.read_info) [
        | inr f ↦ (failed call_failed true t, simp (get_vbe_mode_list, a, b, c, f), λ z. cc)
        | inl d ↦ elim (Bool-cases v.is_vesa) [
          | inr f ↦ (failed unsuccessful true t, simp (get_vbe_mode_list, a, b, c, d, f), λ z. cc)
          | inl g ↦
              let (count, q, at_least, at_most, ends, first) =
                count_modes_lem v.first_number n 0 (omega arith)
                  (subst (λ x. is_end (v.first_number x) ≡ true) (omega arith) e) in
              let (r, made, flag, usable) = fill_table_lem v info count t m in
              (r, simp (get_vbe_mode_list, a, b, c, d, g, q, made), usable)
        ]
      ]
    ]
  ]
]
