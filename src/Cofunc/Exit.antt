-- ===== src/Cofunc/Exit.antt =====
-- The releases at the exit of EnumVidPnCofuncModality of viogpu/viogpudo/viogpudo.cpp.
use graphics_drivers_wip.Base.{
  ℕ, ◌+◌, ◌≡◌, refl, Bool, true, false, Bool-cases, inl, inr, List, if◌then◌else◌, arith,
}
use graphics_drivers_wip.Cofunc.{
  Call, put_source, put_target, put_pinned_source, put_pinned_target, put_path, kept_source,
  kept_target, kept_pinned_source, kept_pinned_target, kept_path, Exits, Enum, put_if, release_all,
}
use graphics_drivers_wip.Cofunc.Owned.{
  total, bit, is_got_source, is_put_source, is_got_target, is_put_target, is_got_pinned_source,
  is_put_pinned_source, is_got_pinned_target, is_put_pinned_target, is_got_path, is_put_path,
  is_kept,
}

-- As many releases as there were acquired, of each kind, but `extra` of paths.
pub record AllReleased (extra : ℕ) (cs : List Call) : Type 0 where
  pub sources : total is_got_source cs ≡ total is_put_source cs
  pub targets : total is_got_target cs ≡ total is_put_target cs
  pub pinned_sources : total is_got_pinned_source cs ≡ total is_put_pinned_source cs
  pub pinned_targets : total is_got_pinned_target cs ≡ total is_put_pinned_target cs
  pub paths : total is_got_path cs + extra ≡ total is_put_path cs

abbrev chosen : Bool → Call → Call → Call
chosen true c d = c
chosen false c d = d

total-put_if :
    (f : Call → Bool) (b ok : Bool) (c d : Call) (cs : List Call)
    → total f (put_if b ok c d cs) ≡ total f cs + (if f (chosen ok c d) then bit b else 0)
total-put_if f false ok c d cs = elim (Bool-cases (f (chosen ok c d))) [
  | inl t ↦ rw t (omega arith)
  | inr n ↦ rw n (omega arith)
]
total-put_if f true true c d cs = elim (Bool-cases (f c)) [
  | inl t ↦ rw t (omega arith)
  | inr n ↦ rw n (omega arith)
]
total-put_if f true false c d cs = elim (Bool-cases (f d)) [
  | inl t ↦ rw t (omega arith)
  | inr n ↦ rw n (omega arith)
]

-- The calls of a kind after the exit, by the answers there.
by_answer : (f : Call → Bool) (b ok : Bool) (c d : Call) → ℕ
by_answer f b ok c d = if f (chosen ok c d) then bit b else 0

total-release_all :
    (f : Call → Bool) (x : Exits) (s : Enum)
    → total f (release_all x s)
      ≡ total f s.calls
        + by_answer f s.pinned_source x.pinned_source put_pinned_source kept_pinned_source
        + by_answer f s.pinned_target x.pinned_target put_pinned_target kept_pinned_target
        + by_answer f s.path x.path put_path kept_path
        + by_answer f s.path_temp x.path_temp put_path kept_path
        + by_answer f s.source_set x.source_set put_source kept_source
        + by_answer f s.target_set x.target_set put_target kept_target
unfolding release_all by_answer
total-release_all f x s = simp (total-put_if f) refl

-- A kind that counts a release whether or not it succeeds.
either :
    (f : Call → Bool) (b ok : Bool) (c d : Call) (w : Bool)
    → f c ≡ w
    → f d ≡ w
    → by_answer f b ok c d ≡ (if w then bit b else 0)
unfolding by_answer
either f b true c d w p q = rw p refl
either f b false c d w p q = rw q refl

-- What a kind of releases comes to.
counted :
    (f : Call → Bool) (x : Exits) (s : Enum) (s₁ t₁ s₂ t₂ p : Bool)
    → (f put_pinned_source ≡ s₁) × (f kept_pinned_source ≡ s₁)
    → (f put_pinned_target ≡ t₁) × (f kept_pinned_target ≡ t₁)
    → (f put_path ≡ p) × (f kept_path ≡ p)
    → (f put_source ≡ s₂) × (f kept_source ≡ s₂)
    → (f put_target ≡ t₂) × (f kept_target ≡ t₂)
    → total f (release_all x s)
      ≡ total f s.calls
        + (if s₁ then bit s.pinned_source else 0)
        + (if t₁ then bit s.pinned_target else 0)
        + (if p then bit s.path else 0)
        + (if p then bit s.path_temp else 0)
        + (if s₂ then bit s.source_set else 0)
        + (if t₂ then bit s.target_set else 0)
counted f x s s₁ t₁ s₂ t₂ p a b c d e = omega (
  arith,
  total-release_all f x s,
  either f s.pinned_source x.pinned_source put_pinned_source kept_pinned_source s₁ a.0 a.1,
  either f s.pinned_target x.pinned_target put_pinned_target kept_pinned_target t₁ b.0 b.1,
  either f s.path x.path put_path kept_path p c.0 c.1,
  either f s.path_temp x.path_temp put_path kept_path p c.0 c.1,
  either f s.source_set x.source_set put_source kept_source s₂ d.0 d.1,
  either f s.target_set x.target_set put_target kept_target t₂ e.0 e.1,
)

-- What EnumVidPnCofuncModality has released when it returns, from what it held before.
pub releases_lem :
    (x : Exits) (s : Enum) (extra : ℕ)
    → total is_got_source s.calls ≡ total is_put_source s.calls + bit s.source_set
    → total is_got_target s.calls ≡ total is_put_target s.calls + bit s.target_set
    → total is_got_pinned_source s.calls ≡ total is_put_pinned_source s.calls + bit s.pinned_source
    → total is_got_pinned_target s.calls ≡ total is_put_pinned_target s.calls + bit s.pinned_target
    → total is_got_path s.calls + extra ≡ total is_put_path s.calls + (bit s.path + bit s.path_temp)
    → AllReleased extra (release_all x s)
releases_lem x s extra sources targets pinned_sources pinned_targets paths = record {
  sources = omega (
    arith,
    sources,
    counted is_got_source x s false false false false false (refl, refl) (refl, refl) (refl, refl)
        (refl, refl) (refl, refl),
    counted is_put_source x s false false true false false (refl, refl) (refl, refl) (refl, refl)
        (refl, refl) (refl, refl),
  );
  targets = omega (
    arith,
    targets,
    counted is_got_target x s false false false false false (refl, refl) (refl, refl) (refl, refl)
        (refl, refl) (refl, refl),
    counted is_put_target x s false false false true false (refl, refl) (refl, refl) (refl, refl)
        (refl, refl) (refl, refl),
  );
  pinned_sources = omega (
    arith,
    pinned_sources,
    counted is_got_pinned_source x s false false false false false (refl, refl) (refl, refl)
        (refl, refl) (refl, refl) (refl, refl),
    counted is_put_pinned_source x s true false false false false (refl, refl) (refl, refl)
        (refl, refl) (refl, refl) (refl, refl),
  );
  pinned_targets = omega (
    arith,
    pinned_targets,
    counted is_got_pinned_target x s false false false false false (refl, refl) (refl, refl)
        (refl, refl) (refl, refl) (refl, refl),
    counted is_put_pinned_target x s false true false false false (refl, refl) (refl, refl)
        (refl, refl) (refl, refl) (refl, refl),
  );
  paths = omega (
    arith,
    paths,
    counted is_got_path x s false false false false false (refl, refl) (refl, refl) (refl, refl)
        (refl, refl) (refl, refl),
    counted is_put_path x s false false false false true (refl, refl) (refl, refl) (refl, refl)
        (refl, refl) (refl, refl),
  );
}

-- Every release at the exit succeeds.
pub record AllSucceed (x : Exits) : Type 0 where
  pub pinned_source : x.pinned_source ≡ true
  pub pinned_target : x.pinned_target ≡ true
  pub path : x.path ≡ true
  pub path_temp : x.path_temp ≡ true
  pub source_set : x.source_set ≡ true
  pub target_set : x.target_set ≡ true

clash : true ≡ true → false ≡ true → ⊥
clash p q = cc

none_of :
    (f : Call → Bool) (b ok : Bool) (c d : Call)
    → ok ≡ true
    → f c ≡ false
    → by_answer f b ok c d ≡ 0
unfolding by_answer
none_of f b true c d e n = rw n refl
none_of f b false c d e n = absurd (clash refl e)

pub none_kept_lem :
    (x : Exits) (s : Enum)
    → AllSucceed x
    → total is_kept s.calls ≡ 0
    → total is_kept (release_all x s) ≡ 0
none_kept_lem x s a n = omega (
  arith,
  n,
  total-release_all is_kept x s,
  none_of is_kept s.pinned_source x.pinned_source put_pinned_source kept_pinned_source
      a.pinned_source refl,
  none_of is_kept s.pinned_target x.pinned_target put_pinned_target kept_pinned_target
      a.pinned_target refl,
  none_of is_kept s.path x.path put_path kept_path a.path refl,
  none_of is_kept s.path_temp x.path_temp put_path kept_path a.path_temp refl,
  none_of is_kept s.source_set x.source_set put_source kept_source a.source_set refl,
  none_of is_kept s.target_set x.target_set put_target kept_target a.target_set refl,
)
