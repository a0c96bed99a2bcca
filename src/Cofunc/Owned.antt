-- ===== src/Cofunc/Owned.antt =====
-- What EnumVidPnCofuncModality of viogpu/viogpudo/viogpudo.cpp holds after each part of a round.
use graphics_drivers_wip.Base.{
  ℕ, suc, ◌+◌, ◌≡◌, ap, Bool, true, false, List, [], ◌∷◌, if◌then◌else◌, arith,
}
use graphics_drivers_wip.Cofunc.{
  kept_source, kept_target, kept_pinned_source, kept_pinned_target, kept_path, Call, got_source,
  put_source, got_target, put_target, got_pinned_source, put_pinned_source, got_pinned_target,
  put_pinned_target, got_path, put_path, Enum, take_source, give_source, take_target, give_target,
  take_pinned_source, give_pinned_source, take_pinned_target, give_pinned_target,
}

-- How many of the calls are of a kind; a release counts also if it fails.
abbrev pub total : (Call → Bool) → List Call → ℕ
total f [] = 0
total f (c ∷ cs) = if f c then suc (total f cs) else total f cs

abbrev pub bit : Bool → ℕ
bit true = 1
bit false = 0

abbrev pub is_got_source : Call → Bool
is_got_source got_source = true
is_got_source _ = false

abbrev pub is_put_source : Call → Bool
is_put_source put_source = true
is_put_source kept_source = true
is_put_source _ = false

abbrev pub is_got_target : Call → Bool
is_got_target got_target = true
is_got_target _ = false

abbrev pub is_put_target : Call → Bool
is_put_target put_target = true
is_put_target kept_target = true
is_put_target _ = false

abbrev pub is_got_pinned_source : Call → Bool
is_got_pinned_source got_pinned_source = true
is_got_pinned_source _ = false

abbrev pub is_put_pinned_source : Call → Bool
is_put_pinned_source put_pinned_source = true
is_put_pinned_source kept_pinned_source = true
is_put_pinned_source _ = false

abbrev pub is_got_pinned_target : Call → Bool
is_got_pinned_target got_pinned_target = true
is_got_pinned_target _ = false

abbrev pub is_put_pinned_target : Call → Bool
is_put_pinned_target put_pinned_target = true
is_put_pinned_target kept_pinned_target = true
is_put_pinned_target _ = false

abbrev pub is_got_path : Call → Bool
is_got_path got_path = true
is_got_path _ = false

abbrev pub is_put_path : Call → Bool
is_put_path put_path = true
is_put_path kept_path = true
is_put_path _ = false

abbrev pub is_kept : Call → Bool
is_kept kept_source = true
is_kept kept_target = true
is_kept kept_pinned_source = true
is_kept kept_pinned_target = true
is_kept kept_path = true
is_kept _ = false

-- What was acquired and not released is what the variables hold.
pub record Owns (s : Enum) : Type 0 where
  pub sources : total is_got_source s.calls ≡ total is_put_source s.calls + bit s.source_set
  pub targets : total is_got_target s.calls ≡ total is_put_target s.calls + bit s.target_set
  pub pinned_sources :
      total is_got_pinned_source s.calls ≡ total is_put_pinned_source s.calls + bit s.pinned_source
  pub pinned_targets :
      total is_got_pinned_target s.calls ≡ total is_put_pinned_target s.calls + bit s.pinned_target
  pub none_kept : total is_kept s.calls ≡ 0
  pub paths : total is_got_path s.calls ≡ total is_put_path s.calls + (bit s.path + bit s.path_temp)

pub take_source-Owns : (s : Enum) → Owns s → s.source_set ≡ false → Owns (take_source s)
take_source-Owns s o e = record {
  sources = omega (arith, o.sources, ap bit e);
  targets = o.targets;
  pinned_sources = o.pinned_sources;
  pinned_targets = o.pinned_targets;
  none_kept = o.none_kept;
  paths = o.paths;
}

pub give_source-Owns : (s : Enum) → Owns s → s.source_set ≡ true → Owns (give_source s)
give_source-Owns s o e = record {
  sources = omega (arith, o.sources, ap bit e);
  targets = o.targets;
  pinned_sources = o.pinned_sources;
  pinned_targets = o.pinned_targets;
  none_kept = o.none_kept;
  paths = o.paths;
}

pub take_target-Owns : (s : Enum) → Owns s → s.target_set ≡ false → Owns (take_target s)
take_target-Owns s o e = record {
  sources = o.sources;
  targets = omega (arith, o.targets, ap bit e);
  pinned_sources = o.pinned_sources;
  pinned_targets = o.pinned_targets;
  none_kept = o.none_kept;
  paths = o.paths;
}

pub give_target-Owns : (s : Enum) → Owns s → s.target_set ≡ true → Owns (give_target s)
give_target-Owns s o e = record {
  sources = o.sources;
  targets = omega (arith, o.targets, ap bit e);
  pinned_sources = o.pinned_sources;
  pinned_targets = o.pinned_targets;
  none_kept = o.none_kept;
  paths = o.paths;
}

pub take_pinned_source-Owns :
    (s : Enum) → Owns s → s.pinned_source ≡ false → Owns (take_pinned_source true s)
take_pinned_source-Owns s o e = record {
  sources = o.sources;
  targets = o.targets;
  pinned_sources = omega (arith, o.pinned_sources, ap bit e);
  pinned_targets = o.pinned_targets;
  none_kept = o.none_kept;
  paths = o.paths;
}

pub give_pinned_source-Owns :
    (s : Enum) → Owns s → s.pinned_source ≡ true → Owns (give_pinned_source s)
give_pinned_source-Owns s o e = record {
  sources = o.sources;
  targets = o.targets;
  pinned_sources = omega (arith, o.pinned_sources, ap bit e);
  pinned_targets = o.pinned_targets;
  none_kept = o.none_kept;
  paths = o.paths;
}

pub take_pinned_target-Owns :
    (s : Enum) → Owns s → s.pinned_target ≡ false → Owns (take_pinned_target s)
take_pinned_target-Owns s o e = record {
  sources = o.sources;
  targets = o.targets;
  pinned_sources = o.pinned_sources;
  pinned_targets = omega (arith, o.pinned_targets, ap bit e);
  none_kept = o.none_kept;
  paths = o.paths;
}

pub give_pinned_target-Owns :
    (s : Enum) → Owns s → s.pinned_target ≡ true → Owns (give_pinned_target s)
give_pinned_target-Owns s o e = record {
  sources = o.sources;
  targets = o.targets;
  pinned_sources = o.pinned_sources;
  pinned_targets = omega (arith, o.pinned_targets, ap bit e);
  none_kept = o.none_kept;
  paths = o.paths;
}

-- Between the parts of a round; and before the first.
pub record Mid (s : Enum) : Type 0 where
  pub target_set : s.target_set ≡ false
  pub pinned_target : s.pinned_target ≡ false
  pub path : s.path ≡ true
  pub path_temp : s.path_temp ≡ false

pub record Start (s : Enum) : Type 0 where
  pub mid : Mid s
  pub source_set : s.source_set ≡ false
  pub pinned_source : s.pinned_source ≡ false

-- How a part ends: it owns what it holds, and if it goes on, the next part can begin.
abbrev pub Ends : (Enum → Type 0) → Bool × Enum → Type 0
Ends P r = Owns r.1 × (r.0 ≡ true → P r.1)
