-- ===== src/Query/Children.antt =====
-- The children that QueryChildRelations of viogpu/viogpudo/viogpudo.cpp describes.
use graphics_drivers_wip.Base.{
  ℕ, zero, suc, ◌+◌, ◌≤◌, ◌<◌, ◌≡◌, inl, inr, refl, ap, sym, ◌∙◌, Bool-cases, Option, some, List,
  length, length-set, get_elem?, get_elem?-set_self, get_elem?-set_ne, set, ltb, ltb_iff, ◌==◌,
  ==_iff, ◌^◌, ◌-◌, sub32, done, overrun, arith,
}
use graphics_drivers_wip.Modes.{set_at}
use graphics_drivers_wip.Query.{Child, child, describe, query_child_relations}

-- The places from `i` to `k` hold their children, and the others what they held before.
pub record IsDescribed (device_id i k : ℕ) (xs ys : List (Option Child)) : Type 0 where
  pub same_length : length ys ≡ length xs
  pub inside : (j : ℕ) → i ≤ j → j < k → get_elem? ys j ≡ some (some (child device_id j))
  pub before : (j : ℕ) → j < i → get_elem? ys j ≡ get_elem? xs j
  pub behind : (j : ℕ) → k ≤ j → get_elem? ys j ≡ get_elem? xs j

describe_lem :
    (device_id n i : ℕ) (xs : List (Option Child))
    → i + n ≤ length xs
    → (ys : List (Option Child)) × (describe device_id n i xs ≡ done ys)
      × IsDescribed device_id i (i + n) xs ys
unfolding describe set_at
describe_lem device_id zero i xs l = (
  xs,
  refl,
  record {
    same_length = refl;
    inside = λ j a b. absurd (omega arith);
    before = λ j a. refl;
    behind = λ j a. refl;
  },
)
describe_lem device_id (suc n) i xs l =
    let c = child device_id i in
    let zs = set xs i (some c) in
    let len = length-set xs i (some c) in
    let (ys, q, d) = describe_lem device_id n (suc i) zs (omega (arith, len)) in
    (
      ys,
      rw (describe, (ltb_iff i (length xs)).1 (omega arith)) q,
      record {
        same_length = d.same_length ∙ len;
        inside = λ j a b. elim (Bool-cases (j == i)) [
          | inl e ↦
              let same : j ≡ i = (==_iff j i).0 e in
              rw same (d.before i (omega arith) ∙ get_elem?-set_self xs i (some c) (omega arith))
          | inr e ↦ d.inside j (ground arith) (omega arith)
        ];
        before = λ j a.
            d.before j (omega arith) ∙ get_elem?-set_ne xs i j (some c) (λ e. omega (arith, e));
        behind = λ j a.
            d.behind j (omega arith) ∙ get_elem?-set_ne xs i j (some c) (λ e. omega (arith, e));
      },
    )

describe-overruns :
    (device_id n i : ℕ) (xs : List (Option Child))
    → i ≤ length xs
    → length xs < i + n
    → describe device_id n i xs ≡ overrun
unfolding describe set_at
describe-overruns device_id zero i xs l h = absurd (omega arith)
describe-overruns device_id (suc n) i xs l h = elim (Bool-cases (ltb i (length xs))) [
  | inr f ↦ rw (describe, f) refl
  | inl t ↦
      let len = length-set xs i (some (child device_id i)) in
      rw (describe, t)
        (describe-overruns device_id n (suc i) (set xs i (some (child device_id i)))
          (ground (arith, len)) (omega (arith, len, h)))
]

-- QueryChildRelations describes a child in each place of the array but the last, which stays as it is, with
-- the index of the place as its id. But with an array that has no room for even one descriptor
-- the count wraps, and it writes past the array.
pub query_child_relations_lem :
    (device_id room : ℕ) (xs : List (Option Child))
    → room ≡ length xs
    → room < 2 ^ 32
    → (0 < room
        → (ys : List (Option Child)) × (query_child_relations device_id room xs ≡ done ys)
          × (length ys ≡ room)
          × ((j : ℕ) → j + 1 < room → get_elem? ys j ≡ some (some (child device_id j)))
          × (get_elem? ys (room - 1) ≡ get_elem? xs (room - 1)))
      × (room ≡ 0 → query_child_relations device_id room xs ≡ overrun)
unfolding query_child_relations
query_child_relations_lem device_id room xs e l = (
  λ some_room.
      let w : sub32 room 1 ≡ room - 1 = omega arith in
      let (ys, q, d) = describe_lem device_id (room - 1) 0 xs (omega arith) in
      (
        ys,
        ap (λ k. describe device_id k 0 xs) w ∙ q,
        d.same_length ∙ sym e,
        λ j h. d.inside j (omega arith) (omega arith),
        d.behind (room - 1) (omega arith),
      ),
  λ empty.
      ap (λ k. describe device_id (sub32 k 1) 0 xs) empty
      ∙ describe-overruns device_id (2 ^ 32 - 1) 0 xs (omega arith) (omega arith),
)
