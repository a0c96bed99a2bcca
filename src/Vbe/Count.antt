-- ===== src/Vbe/Count.antt =====
-- The loop of VgaDevice::GetModeList in viogpu/viogpudo/viogpudo.cpp that counts the modes.
use graphics_drivers_wip.Base.{
  ℕ, zero, suc, ◌+◌, ◌≤◌, ◌<◌, ◌≡◌, refl, true, false, Bool-cases, inl, inr, Option, ◌==◌, ==_iff,
  subst, u16, done, arith,
}
use graphics_drivers_wip.Vbe.{is_end, count_modes}

-- If the list ends at an index that fits the counter, the loop ends within as many rounds and counts
-- the modes before the first end.
pub count_modes_lem :
    (read : ℕ → Option ℕ) (n i : ℕ)
    → i + n < 0x10000
    → is_end (read (i + n)) ≡ true
    → (j : ℕ) × (count_modes read (suc n) i ≡ done j)
      × (i ≤ j)
      × (j ≤ i + n)
      × (is_end (read j) ≡ true)
      × ((k : ℕ) → i ≤ k → k < j → is_end (read k) ≡ false)
unfolding count_modes
count_modes_lem read zero i l e =
    let z : i + 0 ≡ i = omega arith in
    let e' : is_end (read i) ≡ true = subst (λ x. is_end (read x) ≡ true) z e in
    (i, rw (count_modes, e') refl, omega arith, omega arith, e', λ k a b. absurd (omega arith))
count_modes_lem read (suc n) i l e = elim (Bool-cases (is_end (read i))) [
  | inl y ↦
      (i, rw (count_modes, y) refl, omega arith, omega arith, y, λ k a b. absurd (omega arith))
  | inr more ↦
      let s : i + suc n ≡ (i + 1) + n = omega arith in
      let (j, q, a, b, y, all) =
        count_modes_lem read n (i + 1) (omega arith) (subst (λ x. is_end (read x) ≡ true) s e) in
      let w : u16 (i + 1) ≡ i + 1 = omega arith in
      (
        j,
        rw (count_modes, more, w) q,
        omega arith,
        omega arith,
        y,
        λ k c d. elim (Bool-cases (i == k)) [
          | inl same ↦ subst (λ x. is_end (read x) ≡ false) ((==_iff i k).0 same) more
          | inr other ↦ all k (ground arith) d
        ],
      )
]
