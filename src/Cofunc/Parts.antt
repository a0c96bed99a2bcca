-- ===== src/Cofunc/Parts.antt =====
-- The parts of a round of EnumVidPnCofuncModality in viogpu/viogpudo/viogpudo.cpp.
use graphics_drivers_wip.Base.{
  List, ◌≡◌, refl, ◌&&◌, not, Bool, true, false, Bool-cases, inl, inr, Option-cases, ◌==◌,
  if◌then◌else◌,
}
use graphics_drivers_wip.VidPn.{Pivot}
use graphics_drivers_wip.Cofunc.{
  Call, Answers, Enum, take_source, give_source, take_target, give_target, give_pinned_source,
  take_pinned_target, give_pinned_target, is_source, is_target, fill_source, source_modes,
  fill_target, leave_target, target_modes, leave_source,
}
use graphics_drivers_wip.Cofunc.Owned.{
  Owns, Mid, Start, Ends, take_source-Owns, give_source-Owns, take_target-Owns, give_target-Owns,
  take_pinned_source-Owns, give_pinned_source-Owns, take_pinned_target-Owns,
  give_pinned_target-Owns,
}

-- What the parts do with the source leaves the rest as it is.
same-Mid :
    (s : Enum) (b c : Bool) (cs : List Call)
    → Mid s
    → Mid (record s { source_set = b; pinned_source = c; calls = cs })
same-Mid s b c cs m = record {
  target_set = m.target_set;
  pinned_target = m.pinned_target;
  path = m.path;
  path_temp = m.path_temp;
}

abbrev again : Enum → Enum
again s = take_source (give_source s)

fill_source-Ends :
    (a : Answers) (s : Enum) → Owns s → Mid s → s.source_set ≡ true → Ends Mid (fill_source a s)
unfolding fill_source
fill_source-Ends a s o m e =
    let o₁ = give_source-Owns s o e in
    let o₂ = take_source-Owns (give_source s) o₁ refl in
    let o₃ = give_source-Owns (again s) o₂ refl in
    elim (Bool-cases a.release_source) [
      | inr f ↦ rw (fill_source, f) (o, λ z. cc)
      | inl r ↦ elim (Bool-cases a.create_source) [
        | inr f ↦ rw (fill_source, r, f) (o₁, λ z. cc)
        | inl c ↦ elim (Bool-cases (a.add_source && a.assign_source)) [
          | inr f ↦ rw (fill_source, r, c, f) (o₂, λ z. cc)
          | inl g ↦ rw (fill_source, r, c, g) (o₃, λ z. same-Mid s _ _ _ m)
        ]
      ]
    ]

pub source_modes-Ends :
    (v : Pivot) (a : Answers) (s : Enum) → Owns s → Start s → Ends Mid (source_modes v a s)
unfolding source_modes
source_modes-Ends v a s o b =
    let m = b.mid in
    let o₁ = take_source-Owns s o b.source_set in
    let m₁ : Mid (take_source s) = same-Mid s _ _ _ m in
    elim (Bool-cases a.acquire_source) [
      | inr f ↦ rw (source_modes, f) (o, λ z. cc)
      | inl q ↦ elim (Option-cases a.pinned_source) [
        | inl n ↦ rw (source_modes, q, n) (o₁, λ z. cc)
        | inr (true, p) ↦
            rw (source_modes, q, p)
              (take_pinned_source-Owns (take_source s) o₁ b.pinned_source, λ z. same-Mid s _ _ _ m)
        | inr (false, p) ↦ elim (Bool-cases (is_source v.type && v.source_id == a.path.source_id)) [
          | inl y ↦ rw (source_modes, q, p, y) (o₁, λ z. m₁)
          | inr y ↦ rw (source_modes, q, p, y) (fill_source-Ends a (take_source s) o₁ m₁ refl)
        ]
      ]
    ]

fill_target-Ends :
    (a : Answers) (s : Enum)
    → Owns s
    → s.target_set ≡ true
    → s.pinned_target ≡ false
    → s.path ≡ true
    → s.path_temp ≡ false
    → Ends Mid (fill_target a s)
unfolding fill_target
fill_target-Ends a s o e n h t =
    let o₁ = give_target-Owns s o e in
    let o₂ = take_target-Owns (give_target s) o₁ refl in
    let o₃ = give_target-Owns (take_target (give_target s)) o₂ refl in
    elim (Bool-cases a.release_target) [
      | inr f ↦ rw (fill_target, f) (o, λ z. cc)
      | inl r ↦ elim (Bool-cases a.create_target) [
        | inr f ↦ rw (fill_target, r, f) (o₁, λ z. cc)
        | inl c ↦ elim (Bool-cases (a.add_target && a.assign_target)) [
          | inr f ↦ rw (fill_target, r, c, f) (o₂, λ z. cc)
          | inl g ↦
              rw (fill_target, r, c, g)
                (o₃, λ z. record { target_set = refl; pinned_target = n; path = h; path_temp = t })
        ]
      ]
    ]

leave_target-Ends :
    (a : Answers) (s : Enum)
    → Owns s
    → s.target_set ≡ true
    → s.pinned_target ≡ true
    → s.path ≡ true
    → s.path_temp ≡ false
    → Ends Mid (leave_target a s)
unfolding leave_target
leave_target-Ends a s o e n h t =
    let o₁ = give_pinned_target-Owns s o n in
    let o₂ = give_target-Owns (give_pinned_target s) o₁ e in
    elim (Bool-cases a.release_pinned_target) [
      | inr f ↦ rw (leave_target, f) (o, λ z. cc)
      | inl r ↦ elim (Bool-cases a.release_target) [
        | inr f ↦ rw (leave_target, r, f) (o₁, λ z. cc)
        | inl c ↦
            rw (leave_target, r, c)
              (o₂, λ z. record { target_set = refl; pinned_target = refl; path = h; path_temp = t })
      ]
    ]

pub target_modes-Ends :
    (v : Pivot) (a : Answers) (s : Enum) → Owns s → Mid s → Ends Mid (target_modes v a s)
unfolding target_modes
target_modes-Ends v a s o m =
    let o₁ = take_target-Owns s o m.target_set in
    elim (Bool-cases (is_target v.type && v.target_id == a.path.target_id)) [
      | inl y ↦ rw (target_modes, y) (o, λ z. m)
      | inr y ↦ elim (Bool-cases a.acquire_target) [
        | inr f ↦ rw (target_modes, y, f) (o, λ z. cc)
        | inl q ↦ elim (Option-cases a.pinned_target) [
          | inl n ↦ rw (target_modes, y, q, n) (o₁, λ z. cc)
          | inr (true, p) ↦
              rw (target_modes, y, q, p)
                (leave_target-Ends a (take_pinned_target (take_target s))
                  (take_pinned_target-Owns (take_target s) o₁ m.pinned_target) refl refl m.path
                  m.path_temp)
          | inr (false, p) ↦
              rw (target_modes, y, q, p)
                (fill_target-Ends a (take_target s) o₁ refl m.pinned_target m.path m.path_temp)
        ]
      ]
    ]

-- The mode set of the source at the end of a round, by whether there is one.
leave_set : Bool → Answers → Enum → Bool × Enum
leave_set b a s =
    if not b
    then (true, s)
    else if not a.release_source_late
    then (false, s)
    else (true, give_source s)

leave_set-Ends :
    (b : Bool) (a : Answers) (s : Enum)
    → s.source_set ≡ b
    → Owns s
    → Mid s
    → s.pinned_source ≡ false
    → Ends Start (leave_set b a s)
unfolding leave_set
leave_set-Ends false a s f o m n = (o, λ z. record { mid = m; source_set = f; pinned_source = n })
leave_set-Ends true a s t o m n = elim (Bool-cases a.release_source_late) [
  | inr f ↦ rw f (o, λ z. cc)
  | inl r ↦ rw r (
    give_source-Owns s o t,
    λ z. record { mid = same-Mid s _ _ _ m; source_set = refl; pinned_source = n },
  )
]

-- The pinned source is released, if there is one.
leave_pinned : Bool → Answers → Enum → Bool × Enum
leave_pinned b a s =
    let s₁ = if b then give_pinned_source s else s in
    if b && not a.release_pinned_source then (false, s) else leave_set s.source_set a s₁

leave_pinned-Ends :
    (b : Bool) (a : Answers) (s : Enum)
    → s.pinned_source ≡ b
    → Owns s
    → Mid s
    → Ends Start (leave_pinned b a s)
unfolding leave_pinned leave_set
leave_pinned-Ends false a s f o m = leave_set-Ends s.source_set a s refl o m f
leave_pinned-Ends true a s t o m = elim (Bool-cases a.release_pinned_source) [
  | inr f ↦ rw f (o, λ z. cc)
  | inl r ↦ simp r (
      leave_set-Ends s.source_set a (give_pinned_source s) refl (give_pinned_source-Owns s o t)
        (same-Mid s _ _ _ m) refl)
]

pub leave_source-Ends : (a : Answers) (s : Enum) → Owns s → Mid s → Ends Start (leave_source a s)
unfolding leave_source leave_pinned leave_set
leave_source-Ends a s o m = leave_pinned-Ends s.pinned_source a s refl o m
