-- ===== src/Cofunc/Released.antt =====
-- What EnumVidPnCofuncModality of viogpu/viogpudo/viogpudo.cpp has released when it returns.
use graphics_drivers_wip.Base.{ℕ, ◌≡◌, Bool, true, ◌⊎◌}
use graphics_drivers_wip.Cofunc.{next_failed, Answers}

-- A path is released once too often only in one way.
abbrev pub OnceMore : Bool → (ℕ → Answers) → ℕ → Type 0
OnceMore k a extra =
    (extra ≡ 0) ⊎ ((extra ≡ 1) × (k ≡ true) × ((i : ℕ) × ((a i).next ≡ next_failed)))
