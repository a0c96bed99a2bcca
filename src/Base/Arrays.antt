-- ===== src/Base/Arrays.antt =====
-- C arrays and lists of addresses, measured and indexed by native numbers.
use Prim.Native.Nat.{ℕ, zero, suc, ◌+◌, ◌<◌}
use mathlib.Core.Path.{◌≡◌, refl, ap}
use mathlib.Core.Logic.{◌≢◌}
use mathlib.Core.Bool.{Bool, true, false, not, ◌&&◌, ◌||◌}
use mathlib.Core.List.{List, [], ◌∷◌, ◌++◌}
use mathlib.Core.Option.{Option, none, some}
use native.Mathlib.Omega.{arith}
use graphics_drivers_wip.Base.Tests.{◌==◌, if◌then◌else◌}

module _ {ℓ} {A : Type ℓ} where
  abbrev pub length : List A → ℕ
  length [] = 0
  length (x ∷ xs) = suc (length xs)

  abbrev pub get_elem? : List A → ℕ → Option A
  get_elem? [] i = none
  get_elem? (x ∷ xs) zero = some x
  get_elem? (x ∷ xs) (suc i) = get_elem? xs i

  -- A write past the end changes nothing; the code that indexes an array checks for it.
  abbrev pub set : List A → ℕ → A → List A
  set [] i v = []
  set (x ∷ xs) zero v = v ∷ xs
  set (x ∷ xs) (suc i) v = x ∷ set xs i v

  abbrev pub replicate : ℕ → A → List A
  replicate zero v = []
  replicate (suc n) v = v ∷ replicate n v

  pub length-replicate : (n : ℕ) (v : A) → length (replicate n v) ≡ n
  length-replicate zero v = refl
  length-replicate (suc n) v = ap suc (length-replicate n v)

  pub length-append : (xs ys : List A) → length (xs ++ ys) ≡ length xs + length ys
  length-append [] ys = omega arith
  length-append (x ∷ xs) ys = omega (arith, length-append xs ys)

  pub length-set : (xs : List A) (i : ℕ) (v : A) → length (set xs i v) ≡ length xs
  length-set [] i v = refl
  length-set (x ∷ xs) zero v = refl
  length-set (x ∷ xs) (suc i) v = ap suc (length-set xs i v)

  pub get_elem?-set_self :
      (xs : List A) (i : ℕ) (v : A) → i < length xs → get_elem? (set xs i v) i ≡ some v
  get_elem?-set_self [] i v h = elim h [ ]
  get_elem?-set_self (x ∷ xs) zero v h = refl
  get_elem?-set_self (x ∷ xs) (suc i) v h = get_elem?-set_self xs i v (omega arith)

  pub get_elem?-set_ne :
      (xs : List A) (i j : ℕ) (v : A) → i ≢ j → get_elem? (set xs i v) j ≡ get_elem? xs j
  get_elem?-set_ne [] i j v h = refl
  get_elem?-set_ne (x ∷ xs) zero zero v h = absurd (h refl)
  get_elem?-set_ne (x ∷ xs) zero (suc j) v h = refl
  get_elem?-set_ne (x ∷ xs) (suc i) zero v h = refl
  get_elem?-set_ne (x ∷ xs) (suc i) (suc j) v h = get_elem?-set_ne xs i j v (λ e. h (ap suc e))

-- Membership in a list of numbers, as a test.
abbrev pub contains : List ℕ → ℕ → Bool
contains [] a = false
contains (x ∷ xs) a = a == x || contains xs a

-- The list without its first occurrence of a number.
abbrev pub without : ℕ → List ℕ → List ℕ
without a [] = []
without a (x ∷ xs) = if a == x then xs else x ∷ without a xs

-- No number stands twice in the list.
abbrev pub Distinct : List ℕ → Type 0
Distinct [] = Unit {0}
Distinct (x ∷ xs) = (contains xs x ≡ false) × Distinct xs

pub contains-without :
    (a : ℕ) (xs : List ℕ) (b : ℕ)
    → Distinct xs
    → contains (without a xs) b ≡ (not (b == a) && contains xs b)
contains-without a [] b d = ground arith
contains-without a (x ∷ xs) b d = ground (arith, contains-without a xs b d.1)

pub without-Distinct : (a : ℕ) (xs : List ℕ) → Distinct xs → Distinct (without a xs)
without-Distinct a [] d = tt
without-Distinct a (x ∷ xs) d =
    ground (arith, without-Distinct a xs d.1, contains-without a xs x d.1)

-- How often a number stands in a list.
abbrev pub occurrences : ℕ → List ℕ → ℕ
occurrences a [] = 0
occurrences a (x ∷ xs) = (if a == x then 1 else 0) + occurrences a xs

pub occurrences-append :
    (a : ℕ) (xs ys : List ℕ) → occurrences a (xs ++ ys) ≡ occurrences a xs + occurrences a ys
occurrences-append a [] ys = omega arith
occurrences-append a (x ∷ xs) ys = omega (arith, occurrences-append a xs ys)

pub occurrences-without :
    (a b : ℕ) (xs : List ℕ)
    → contains xs b ≡ true
    → occurrences a (without b xs) + (if a == b then 1 else 0) ≡ occurrences a xs
occurrences-without a b [] h = cc
occurrences-without a b (x ∷ xs) h = ground (arith, occurrences-without a b xs)

pub length-without :
    (b : ℕ) (xs : List ℕ) → contains xs b ≡ true → length (without b xs) + 1 ≡ length xs
length-without b [] h = cc
length-without b (x ∷ xs) h = ground (arith, length-without b xs)
