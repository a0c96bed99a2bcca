-- ===== src/Idr/Samples.antt =====
-- A bitmap that meets the laws on the kernel's calls, and a generator on it as GpuDevice starts it.
use graphics_drivers_wip.Base.{
  ℕ, zero, suc, ◌+◌, ◌≤◌, ◌<◌, ◌≡◌, refl, ◌⊎◌, inl, inr, Bool, true, false, not, ◌&&◌, ◌||◌, Option,
  none, some, [], arith, ◌==◌, Bool-cases,
}
use graphics_drivers_wip.Idr.{BitMapApi, bitmap_size, no_bits, Idr, init}
use graphics_drivers_wip.Idr.Laws.{BitMapLaws, Found, Represents, in_run, init-Represents}

pub record Bits : Type 0 where
  pub size : ℕ
  pub at : ℕ → Bool

-- The first clear bit among the `n` bits from `i` on.
unfoldable pub scan : (ℕ → Bool) → ℕ → ℕ → Option ℕ
scan f i zero = none
scan f i (suc n) = elim (f i) [ false ↦ some i | true ↦ scan f (i + 1) n ]

unfoldable pub found_at : Bits → Option ℕ → ℕ × Bits
found_at m none = (no_bits, m)
found_at m (some k) = (k, record m { at = λ j. j == k || m.at j })

abbrev pub bits_api : BitMapApi
bits_api = record {
  BitMap = Bits;
  initialize = λ n. record { size = n; at = λ _. true };
  clear_all = λ m. record m { at = λ _. false };
  set_bits = λ m s c. record m { at = λ i. in_run s c i || m.at i };
  find_clear_bits_and_set = λ m c h. found_at m (scan m.at 0 m.size);
  are_bits_set = λ m s c. m.at s;
  clear_bits = λ m s c. record m { at = λ i. not (in_run s c i) && m.at i };
}

scan_cases :
    (f : ℕ → Bool) (i n : ℕ)
    → ((scan f i n ≡ none) × ((j : ℕ) → i ≤ j → j < i + n → f j ≡ true))
      ⊎ ((k : ℕ) × (scan f i n ≡ some k) × (i ≤ k) × (k < i + n) × (f k ≡ false))
unfolding scan
scan_cases f i zero = inl (refl, λ j p q. absurd (omega arith))
scan_cases f i (suc n) = elim (Bool-cases (f i)) [
  | inr e ↦ inr (i, rw (e, scan), omega arith, omega arith, e)
  | inl e ↦ elim (scan_cases f (i + 1) n) [
    | inl (none_left, all) ↦ inl (
      rw (e, scan) none_left,
      λ j p q. elim (Bool-cases (j == i)) [
        | inl same ↦ ground arith
        | inr other ↦ all j (ground arith) (omega arith)
      ],
    )
    | inr (k, hit, lo, hi, clear) ↦ inr (k, rw (e, scan) hit, omega arith, omega arith, clear)
  ]
]

find_lem :
    (m : Bits) (hint : ℕ)
    → ((found_at m (scan m.at 0 m.size) ≡ (no_bits, m)) × ((i : ℕ) → i < m.size → m.at i ≡ true))
      ⊎ Found bits_api (λ b. b.size) (λ b. b.at) m hint
unfolding found_at
find_lem m hint = elim (scan_cases m.at 0 m.size) [
  | inl (e, all) ↦ inl (rw e, λ i h. all i (omega arith) (omega arith))
  | inr (k, e, lo, hi, clear) ↦ inr (record {
    below = rw e (omega arith);
    was_clear = rw e clear;
    same_size = rw e;
    now_set = λ i. rw e;
  })
]

pub bits_laws : BitMapLaws bits_api
bits_laws = record {
  size = λ m. m.size;
  bit = λ m. m.at;
  size-initialize = λ n. refl;
  size-clear_all = λ m. refl;
  size-set_bits = λ m s c. refl;
  size-clear_bits = λ m s c. refl;
  bit-clear_all = λ m i h. refl;
  bit-set_bits = λ m s c i h. refl;
  bit-clear_bits = λ m s c i h. refl;
  are_bits_set-one = λ m s h. refl;
  find-or_full = find_lem;
}

-- Id 0 is reserved, as GpuDevice::HWInit does it.
abbrev pub one : Idr bits_api
one = record {
  start_index = 1;
  bit_map = some (record { size = bitmap_size; at = λ i. in_run 0 1 i || false });
}

pub one-init : init bits_api true 1 ≡ some (true, one)
unfolding init
one-init = refl

pub one-Represents : Represents bits_api bits_laws one []
one-Represents = (init-Represents bits_api bits_laws 1 one (omega arith) one-init).0
