-- ===== src/Cofunc/Rounds.antt =====
-- The rounds of EnumVidPnCofuncModality in viogpu/viogpudo/viogpudo.cpp, and the release after the last one.
use graphics_drivers_wip.Base.{
  ℕ, zero, suc, ◌+◌, ◌≡◌, refl, ap, sym, ◌∙◌, ◌&&◌, not, Bool, true, false, Bool-cases, inl, inr,
  ◌∷◌, if◌then◌else◌, arith, done, ◌⊎◌, ◌<◌, ◌≤◌, ◌≢◌,
}
use graphics_drivers_wip.VidPn.{Pivot, offer_supports}
use graphics_drivers_wip.Cofunc.{
  got_path, put_path, Next, more, no_more, next_failed, Answers, Enum, source_modes, target_modes,
  leave_source, next_path, and_then, enum_path, enum_paths,
}
use graphics_drivers_wip.Cofunc.Owned.{bit, Owns, Mid, Start, Ends}
use graphics_drivers_wip.Cofunc.Parts.{source_modes-Ends, target_modes-Ends, leave_source-Ends}

abbrev hand_path : Enum → Enum
hand_path s = record s { path_temp = true; path = false }

abbrev give_path : Enum → Enum
give_path s = record s { path_temp = false; calls = put_path ∷ s.calls }

abbrev take_path : Enum → Enum
take_path s = record s { path = true; calls = got_path ∷ s.calls }

hand_path-Owns : (s : Enum) → Owns s → s.path ≡ true → s.path_temp ≡ false → Owns (hand_path s)
hand_path-Owns s o h t = record {
  sources = o.sources;
  targets = o.targets;
  pinned_sources = o.pinned_sources;
  pinned_targets = o.pinned_targets;
  none_kept = o.none_kept;
  paths = omega (arith, o.paths, ap bit h, ap bit t);
}

give_path-Owns : (s : Enum) → Owns s → s.path_temp ≡ true → Owns (give_path s)
give_path-Owns s o t = record {
  sources = o.sources;
  targets = o.targets;
  pinned_sources = o.pinned_sources;
  pinned_targets = o.pinned_targets;
  none_kept = o.none_kept;
  paths = omega (arith, o.paths, ap bit t);
}

take_path-Owns : (s : Enum) → Owns s → s.path ≡ false → Owns (take_path s)
take_path-Owns s o h = record {
  sources = o.sources;
  targets = o.targets;
  pinned_sources = o.pinned_sources;
  pinned_targets = o.pinned_targets;
  none_kept = o.none_kept;
  paths = omega (arith, o.paths, ap bit h);
}

-- The next path, by the answers.
step : Bool → Next → Bool → Enum → Bool × Enum
step k n r s = elim n [
  | next_failed ↦ (false, record s { path_temp = true; path = k })
  | no_more ↦
      let t = record s { path_temp = true; path = false } in
      (false, if r then record t { path_temp = false; calls = put_path ∷ t.calls } else t)
  | more ↦
      let t = record s { path_temp = true; path = true; calls = got_path ∷ s.calls } in
      if r then (true, record t { path_temp = false; calls = put_path ∷ t.calls }) else (false, t)
]

-- A call for the next path has failed, and has left the pointer as it was: one path is in both variables.
abbrev pub Doubled : Bool → Next → Enum → Type 0
Doubled k n s = (k ≡ true) × (n ≡ next_failed) × (s.path ≡ true) × Owns (record s { path = false })

-- How a round ends.
abbrev pub Round : Bool → Next → Bool × Enum → Type 0
Round k n r = (Owns r.1 ⊎ Doubled k n r.1) × (r.0 ≡ true → Owns r.1 × Start r.1)

Ends-Round : (k : Bool) (n : Next) (r : Bool × Enum) → Ends Start r → Round k n r
Ends-Round k n r (o, f) = (inl o, λ z. (o, f z))

step-Round :
    (k : Bool) (n : Next) (r : Bool) (s : Enum) → Owns s → Start s → Round k n (step k n r s)
unfolding step
step-Round true next_failed r s o b =
    (inr (refl, refl, refl, hand_path-Owns s o b.mid.path b.mid.path_temp), λ z. cc)
step-Round false next_failed r s o b =
    (inl (hand_path-Owns s o b.mid.path b.mid.path_temp), λ z. cc)
step-Round k no_more true s o b = (
  inl (give_path-Owns (hand_path s) (hand_path-Owns s o b.mid.path b.mid.path_temp) refl),
  λ z. cc,
)
step-Round k no_more false s o b = (inl (hand_path-Owns s o b.mid.path b.mid.path_temp), λ z. cc)
step-Round k more true s o b =
    let t = take_path-Owns (hand_path s) (hand_path-Owns s o b.mid.path b.mid.path_temp) refl in
    let g = give_path-Owns (take_path (hand_path s)) t refl in
    (
      inl g,
      λ z. (
        g,
        record {
          mid = record {
            target_set = b.mid.target_set;
            pinned_target = b.mid.pinned_target;
            path = refl;
            path_temp = refl;
          };
          source_set = b.source_set;
          pinned_source = b.pinned_source;
        },
      ),
    )
step-Round k more false s o b = (
  inl (take_path-Owns (hand_path s) (hand_path-Owns s o b.mid.path b.mid.path_temp) refl),
  λ z. cc,
)

next_path-Round :
    (k : Bool) (a : Answers) (s : Enum) → Owns s → Start s → Round k a.next (next_path k a s)
unfolding next_path step
next_path-Round k a s o b = step-Round k a.next a.release_path s o b

and_then-Ends :
    (P Q : Enum → Type 0) (r : Bool × Enum) (f : Enum → Bool × Enum)
    → Ends P r
    → ((t : Enum) → Owns t → P t → Ends Q (f t))
    → Ends Q (and_then r f)
and_then-Ends P Q (true, s) f (o, p) q = q s o (p refl)
and_then-Ends P Q (false, s) f (o, p) q = (o, λ z. cc)

and_then-Round :
    (k : Bool) (n : Next) (r : Bool × Enum) (f : Enum → Bool × Enum)
    → Ends Start r
    → ((t : Enum) → Owns t → Start t → Round k n (f t))
    → Round k n (and_then r f)
and_then-Round k n (true, s) f (o, p) q = q s o (p refl)
and_then-Round k n (false, s) f (o, p) q = (inl o, λ z. cc)

-- The update of the path, and the next one.
update_path-Round :
    (v : Pivot) (k : Bool) (a : Answers) (s : Enum)
    → Owns s
    → Start s
    → Round k a.next (
        if (offer_supports v a.path).0 && not a.update_supports
        then (false, s)
        else next_path k a s)
update_path-Round v k a s o b =
    elim (Bool-cases ((offer_supports v a.path).0 && not a.update_supports)) [
      | inl y ↦ rw y (inl o, λ z. cc)
      | inr n ↦ rw n (next_path-Round k a s o b)
    ]

enum_path-Round :
    (v : Pivot) (k : Bool) (a : Answers) (s : Enum)
    → Owns s
    → Start s
    → Round k a.next (enum_path v k a s)
unfolding enum_path
enum_path-Round v k a s o b =
    and_then-Round k a.next
      (and_then (and_then (source_modes v a s) (target_modes v a)) (leave_source a)) _
      (and_then-Ends Mid Start (and_then (source_modes v a s) (target_modes v a)) _
        (and_then-Ends Mid Mid (source_modes v a s) _ (source_modes-Ends v a s o b)
          (target_modes-Ends v a))
        (leave_source-Ends a))
      (update_path-Round v k a)

-- A round goes on only if there is a next path.
and_then-next :
    (r : Bool × Enum) (f : Enum → Bool × Enum)
    → ((t : Enum) → (f t).0 ≡ false)
    → (and_then r f).0 ≡ false
and_then-next (true, s) f h = h s
and_then-next (false, s) f h = refl

step-next : (k : Bool) (n : Next) (r : Bool) (s : Enum) → n ≢ more → (step k n r s).0 ≡ false
unfolding step
step-next k next_failed r s h = refl
step-next k no_more r s h = refl
step-next k more r s h = elim (h refl) [ ]

enum_path-next :
    (v : Pivot) (k : Bool) (a : Answers) (s : Enum) → a.next ≢ more → (enum_path v k a s).0 ≡ false
unfolding enum_path next_path step
enum_path-next v k a s h =
    and_then-next (and_then (and_then (source_modes v a s) (target_modes v a)) (leave_source a)) _
      (λ t. elim (Bool-cases ((offer_supports v a.path).0 && not a.update_supports)) [
        | inl y ↦ rw y refl
        | inr n ↦ rw n (step-next k a.next a.release_path t h)
      ])

no_room : (i j : ℕ) → i ≤ j → j < i + 0 → ⊥
no_room i j l g = omega (arith, l, g)

clash : {b : Bool} → b ≡ true → b ≡ false → ⊥
clash t f = cc

later : (i j : ℕ) → i ≤ j → i ≢ j → suc i ≤ j
later i j l n = omega (arith, l, n)

-- The state after the last round.
abbrev pub Over : Bool → (ℕ → Answers) → Enum → Type 0
Over k a t = Owns t ⊎ ((i : ℕ) × Doubled k (a i).next t)

over :
    (k : Bool) (a : ℕ → Answers) (i : ℕ) (t : Enum) → Owns t ⊎ Doubled k (a i).next t → Over k a t
over k a i t (inl o) = inl o
over k a i t (inr d) = inr (i, d)

-- The rounds end by the one that finds no next path.
pub enum_paths-Over :
    (v : Pivot) (k : Bool) (a : ℕ → Answers) (n i j : ℕ) (s : Enum)
    → i ≤ j
    → j < i + n
    → (a j).next ≢ more
    → Owns s
    → Start s
    → (t : Enum) × ((enum_paths v k a n i s ≡ done t) × Over k a t)
unfolding enum_paths
enum_paths-Over v k a zero i j s l g h o b = elim (no_room i j l g) [ ]
enum_paths-Over v k a (suc n) i j s l g h o b =
    let e = enum_path-Round v k (a i) s o b in
    elim (Bool-cases (enum_path v k (a i) s).0) [
      | inr f ↦ ((enum_path v k (a i) s).1, (rw f refl, over k a i (enum_path v k (a i) s).1 e.0))
      | inl c ↦
          let d : i ≢ j =
            λ q. clash c (enum_path-next v k (a i) s (λ m. h (ap (λ x. (a x).next) (sym q) ∙ m))) in
          let w = e.1 c in
          let r =
            enum_paths-Over v k a n (suc i) j (enum_path v k (a i) s).1 (later i j l d)
              (omega (arith, g)) h w.0 w.1 in
          rw c r
    ]
