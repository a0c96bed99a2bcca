-- ===== src/Driver/Written.antt =====
-- What RegisterHWInfo of viogpu/viogpudo/viogpudo.cpp writes, frees and leaves open.
use graphics_drivers_wip.Base.{
  ℕ, zero, suc, ◌+◌, ◌≡◌, ◌↔◌, refl, ap, sym, ◌∙◌, true, false, Bool-cases, inl, inr, List, [], ◌∷◌,
  ◌++◌,
}
use graphics_drivers_wip.Dod.{Status, success, is_success}
use graphics_drivers_wip.Dod.Path.{is_success_iff}
use graphics_drivers_wip.Driver.Registry.{
  RegistryApi, RegistryCall, key_opened, converted, freed, key_closed, value_set, write_hw_info_str,
  write_strings, write_numbers, register_hw_info,
}

abbrev pub converts : List RegistryCall → ℕ
converts [] = 0
converts (converted ∷ cs) = 1 + converts cs
converts (_ ∷ cs) = converts cs

abbrev pub frees : List RegistryCall → ℕ
frees [] = 0
frees (freed ∷ cs) = 1 + frees cs
frees (_ ∷ cs) = frees cs

abbrev pub NeverCloses : List RegistryCall → Type 0
NeverCloses [] = Unit {0}
NeverCloses (key_closed ∷ cs) = ⊥
NeverCloses (_ ∷ cs) = NeverCloses cs

-- The strings that are converted are freed, and the key stays open.
pub record IsFreed (cs : List RegistryCall) : Type 0 where
  pub strings : converts cs ≡ frees cs
  pub key : NeverCloses cs

abbrev pub Writes : RegistryApi → ℕ → ℕ → Type 0
Writes a zero i = Unit {0}
Writes a (suc n) i = ((a.convert i ≡ true) × (a.set_string i ≡ true)) × Writes a n (suc i)

-- The strings are written to the end if and only if each is converted and set.
write_strings_lem :
    (a : RegistryApi) (n i : ℕ)
    → (((write_strings a n i).0 ≡ success) ↔ Writes a n i) × IsFreed (write_strings a n i).1
unfolding write_strings write_hw_info_str
write_strings_lem a zero i = ((λ e. tt, λ w. refl), record { strings = refl; key = tt })
write_strings_lem a (suc n) i =
    let ((f, g), r) = write_strings_lem a n (suc i) in
    elim (Bool-cases (a.convert i)) [
      | inr c ↦
          rw (write_strings, write_hw_info_str, c)
            ((λ e. cc, λ w. cc), record { strings = refl; key = tt })
      | inl c ↦ elim (Bool-cases (a.set_string i)) [
        | inr s ↦
            rw (write_strings, write_hw_info_str, c, s)
              ((λ e. cc, λ w. cc), record { strings = refl; key = tt })
        | inl s ↦
            rw (write_strings, write_hw_info_str, c, s)
              (
                (λ e. ((refl, refl), f e), λ w. g w.1),
                record { strings = ap (λ k. 1 + k) r.strings; key = r.key },
              )
      ]
    ]

converts-values : (cs vs : List RegistryCall) → converts vs ≡ 0 → converts (cs ++ vs) ≡ converts cs
converts-values [] vs e = e
converts-values (key_opened ∷ cs) vs e = converts-values cs vs e
converts-values (converted ∷ cs) vs e = ap (λ k. 1 + k) (converts-values cs vs e)
converts-values (freed ∷ cs) vs e = converts-values cs vs e
converts-values (key_closed ∷ cs) vs e = converts-values cs vs e
converts-values (value_set ∷ cs) vs e = converts-values cs vs e

frees-values : (cs vs : List RegistryCall) → frees vs ≡ 0 → frees (cs ++ vs) ≡ frees cs
frees-values [] vs e = e
frees-values (key_opened ∷ cs) vs e = frees-values cs vs e
frees-values (converted ∷ cs) vs e = frees-values cs vs e
frees-values (freed ∷ cs) vs e = ap (λ k. 1 + k) (frees-values cs vs e)
frees-values (key_closed ∷ cs) vs e = frees-values cs vs e
frees-values (value_set ∷ cs) vs e = frees-values cs vs e

never_closes :
    (cs vs : List RegistryCall) → NeverCloses vs → NeverCloses cs → NeverCloses (cs ++ vs)
never_closes [] vs v n = v
never_closes (key_opened ∷ cs) vs v n = never_closes cs vs v n
never_closes (converted ∷ cs) vs v n = never_closes cs vs v n
never_closes (freed ∷ cs) vs v n = never_closes cs vs v n
never_closes (key_closed ∷ cs) vs v n = absurd n
never_closes (value_set ∷ cs) vs v n = never_closes cs vs v n

not_success : (st : Status) → is_success st ≡ false → st ≡ success → ⊥
not_success st f q = cc

then_values :
    (cs vs : List RegistryCall)
    → converts vs ≡ 0
    → frees vs ≡ 0
    → NeverCloses vs
    → IsFreed cs
    → IsFreed (cs ++ vs)
then_values cs vs c f n r = record {
  strings = converts-values cs vs c ∙ r.strings ∙ sym (frees-values cs vs f);
  key = never_closes cs vs n r.key;
}

write_numbers_lem :
    (a : RegistryApi) (st : Status) (cs : List RegistryCall)
    → IsFreed cs
    → (((write_numbers a st cs).0 ≡ success)
        ↔ ((st ≡ success) × (a.set_memory_size ≡ true) × (a.set_device_id ≡ true)))
      × IsFreed (write_numbers a st cs).1
unfolding write_numbers
write_numbers_lem a st cs r = elim (Bool-cases (is_success st)) [
  | inr f ↦
      let failing : st ≡ success → ⊥ = λ q. not_success st f q in
      rw (write_numbers, f) ((λ e. absurd (failing e), λ w. absurd (failing w.0)), r)
  | inl s ↦
      let won = is_success_iff st s in
      elim (Bool-cases a.set_memory_size) [
        | inr f ↦
            rw (write_numbers, s, f)
              ((λ e. cc, λ w. cc), then_values cs (value_set ∷ []) refl refl tt r)
        | inl m ↦ elim (Bool-cases a.set_device_id) [
          | inr f ↦
              rw (write_numbers, s, m, f)
                ((λ e. cc, λ w. cc), then_values cs (value_set ∷ value_set ∷ []) refl refl tt r)
          | inl d ↦
              rw (write_numbers, s, m, d)
                (
                  (λ e. (won, refl, refl), λ w. refl),
                  then_values cs (value_set ∷ value_set ∷ []) refl refl tt r,
                )
        ]
      ]
]

-- RegisterHWInfo succeeds if and only if the key can be opened, the four strings be converted and set,
-- and the two numbers be set. However it ends, each string that it converts it frees; but the key
-- that it opens it never closes.
pub register_hw_info_lem :
    (a : RegistryApi)
    → (((register_hw_info a).0 ≡ success) ↔ (
        (a.open_key ≡ true) × Writes a 4 0 × (a.set_memory_size ≡ true) × (a.set_device_id ≡ true)))
      × IsFreed (register_hw_info a).1
unfolding register_hw_info
register_hw_info_lem a = elim (Bool-cases a.open_key) [
  | inr k ↦ rw (register_hw_info, k) ((λ e. cc, λ w. cc), record { strings = refl; key = tt })
  | inl k ↦
      let ((f, g), r) = write_strings_lem a 4 0 in
      let ((h, l), q) = write_numbers_lem a (write_strings a 4 0).0 (write_strings a 4 0).1 r in
      rw (register_hw_info, k)
        (
          (λ e. let (x, y, z) = h e in (refl, f x, y, z), λ (x, w, m, d). l (g w, m, d)),
          record { strings = q.strings; key = q.key },
        )
]
