-- ===== src/Cofunc.antt =====
-- EnumVidPnCofuncModality of VioGpuDod in viogpu/viogpudo/viogpudo.cpp: its loop over the paths, with what it
-- acquires from the kernel and gives back. The answers of the kernel for each path are given beforehand.
pub mod Owned
pub mod Parts
pub mod Rounds
pub mod Exit
pub mod Released
mod Examples
use graphics_drivers_wip.Base.{
  ℕ, zero, suc, ◌+◌, ◌&&◌, ◌||◌, not, Bool, true, false, Option, none, some, List, [], ◌∷◌, ◌==◌,
  if◌then◌else◌, Outcome, done, out_of_fuel, ◌>>=◌,
}
use graphics_drivers_wip.VidPn.{
  Pivot, PivotType, vid_pn_source, vid_pn_target, Supports, offer_supports,
}

-- Creating a set is acquiring it, and assigning it is releasing it. The last five are releases at the exit that
-- fail.
pub data Call : Type 0 where
  got_source put_source got_target put_target : Call
  got_pinned_source put_pinned_source got_pinned_target put_pinned_target : Call
  got_path put_path : Call
  kept_source kept_target kept_pinned_source kept_pinned_target kept_path : Call

-- What becomes of the call for the next path; a call that fails may leave the pointer as it was.
pub data Next : Type 0 where
  more no_more next_failed : Next

-- The kernel's answers for one path. A pinned mode is none if the call fails, and some false if there is
-- no pinned mode.
pub record Answers : Type 0 where
  pub path : Supports
  pub acquire_source : Bool
  pub pinned_source : Option Bool
  pub release_source : Bool
  pub create_source : Bool
  pub add_source : Bool
  pub assign_source : Bool
  pub acquire_target : Bool
  pub pinned_target : Option Bool
  pub release_target : Bool
  pub create_target : Bool
  pub add_target : Bool
  pub assign_target : Bool
  pub release_pinned_target : Bool
  pub release_pinned_source : Bool
  pub release_source_late : Bool
  pub update_supports : Bool
  pub next : Next
  pub release_path : Bool

-- The variables that are not null, and the calls, the latest first.
pub record Enum : Type 0 where
  pub source_set : Bool
  pub target_set : Bool
  pub pinned_source : Bool
  pub pinned_target : Bool
  pub path : Bool
  pub path_temp : Bool
  pub calls : List Call

abbrev pub take_source : Enum → Enum
take_source s = record s { source_set = true; calls = got_source ∷ s.calls }

abbrev pub give_source : Enum → Enum
give_source s = record s { source_set = false; calls = put_source ∷ s.calls }

abbrev pub take_target : Enum → Enum
take_target s = record s { target_set = true; calls = got_target ∷ s.calls }

abbrev pub give_target : Enum → Enum
give_target s = record s { target_set = false; calls = put_target ∷ s.calls }

abbrev pub take_pinned_source : Bool → Enum → Enum
take_pinned_source true s = record s { pinned_source = true; calls = got_pinned_source ∷ s.calls }
take_pinned_source false s = s

abbrev pub give_pinned_source : Enum → Enum
give_pinned_source s = record s { pinned_source = false; calls = put_pinned_source ∷ s.calls }

abbrev pub take_pinned_target : Enum → Enum
take_pinned_target s = record s { pinned_target = true; calls = got_pinned_target ∷ s.calls }

abbrev pub give_pinned_target : Enum → Enum
give_pinned_target s = record s { pinned_target = false; calls = put_pinned_target ∷ s.calls }

abbrev pub is_source : PivotType → Bool
is_source vid_pn_source = true
is_source _ = false

abbrev pub is_target : PivotType → Bool
is_target vid_pn_target = true
is_target _ = false

-- A new source mode set with all the modes, in place of the one that was acquired.
unfoldable pub fill_source : Answers → Enum → Bool × Enum
fill_source a s =
    if not a.release_source
    then (false, s)
    else if not a.create_source
    then (false, give_source s)
    else if not (a.add_source && a.assign_source)
    then (false, take_source (give_source s))
    else (true, give_source (take_source (give_source s)))

-- SOURCE MODES. The Boolean says whether the loop goes on.
unfoldable pub source_modes : Pivot → Answers → Enum → Bool × Enum
unfolding fill_source
source_modes v a s =
    let is_pivot = is_source v.type && v.source_id == a.path.source_id in
    if not a.acquire_source then (false, s) else elim a.pinned_source [
      | none ↦ (false, take_source s)
      | some true ↦ (true, take_pinned_source true (take_source s))
      | some false ↦ if is_pivot then (true, take_source s) else fill_source a (take_source s)
    ]

unfoldable pub fill_target : Answers → Enum → Bool × Enum
fill_target a s =
    if not a.release_target
    then (false, s)
    else if not a.create_target
    then (false, give_target s)
    else if not (a.add_target && a.assign_target)
    then (false, take_target (give_target s))
    else (true, give_target (take_target (give_target s)))

-- The pinned target and its set are not needed.
unfoldable pub leave_target : Answers → Enum → Bool × Enum
leave_target a s =
    if not a.release_pinned_target
    then (false, s)
    else if not a.release_target
    then (false, give_pinned_target s)
    else (true, give_target (give_pinned_target s))

-- TARGET MODES
unfoldable pub target_modes : Pivot → Answers → Enum → Bool × Enum
unfolding fill_target leave_target
target_modes v a s =
    if is_target v.type && v.target_id == a.path.target_id
    then (true, s)
    else if not a.acquire_target
    then (false, s)
    else elim a.pinned_target [
      | none ↦ (false, take_target s)
      | some true ↦ leave_target a (take_pinned_target (take_target s))
      | some false ↦ fill_target a (take_target s)
    ]

-- What is left of the source is released.
unfoldable pub leave_source : Answers → Enum → Bool × Enum
leave_source a s =
    let s₁ = if s.pinned_source then give_pinned_source s else s in
    if s.pinned_source && not a.release_pinned_source
    then (false, s)
    else if not s.source_set
    then (true, s₁)
    else if not a.release_source_late
    then (false, s₁)
    else (true, give_source s₁)

-- The next path is acquired, and the last one released. `keeps` says whether a call that fails leaves the
-- pointer as it was.
unfoldable pub next_path : Bool → Answers → Enum → Bool × Enum
next_path keeps a s = elim a.next [
  | next_failed ↦ (false, record s { path_temp = true; path = keeps })
  | no_more ↦
      let t = record s { path_temp = true; path = false } in
      (
        false,
        if a.release_path then record t { path_temp = false; calls = put_path ∷ t.calls } else t,
      )
  | more ↦
      let t = record s { path_temp = true; path = true; calls = got_path ∷ s.calls } in
      if a.release_path
      then (true, record t { path_temp = false; calls = put_path ∷ t.calls })
      else (false, t)
]

abbrev pub and_then : Bool × Enum → (Enum → Bool × Enum) → Bool × Enum
and_then (true, s) f = f s
and_then (false, s) f = (false, s)

-- One round of the loop.
unfoldable pub enum_path : Pivot → Bool → Answers → Enum → Bool × Enum
unfolding source_modes target_modes leave_source offer_supports next_path
enum_path v keeps a s =
    and_then (and_then (and_then (source_modes v a s) (target_modes v a)) (leave_source a)) (λ t.
      if (offer_supports v a.path).0 && not a.update_supports
      then (false, t)
      else next_path keeps a t)

unfoldable pub enum_paths : Pivot → Bool → (ℕ → Answers) → ℕ → ℕ → Enum → Outcome Enum
unfolding enum_path
enum_paths v keeps a zero i s = out_of_fuel
enum_paths v keeps a (suc n) i s =
    let r = enum_path v keeps (a i) s in
    let rest = enum_paths v keeps a n (suc i) r.1 in if r.0 then rest else done r.1

-- Which of the releases at the exit succeed; the code asserts that they do.
pub record Exits : Type 0 where
  pub pinned_source : Bool
  pub pinned_target : Bool
  pub path : Bool
  pub path_temp : Bool
  pub source_set : Bool
  pub target_set : Bool

-- The release of what is held, if it is.
abbrev pub put_if : (held ok : Bool) → (put kept : Call) → List Call → List Call
put_if false ok c d cs = cs
put_if true true c d cs = c ∷ cs
put_if true false c d cs = d ∷ cs

-- What is still held after the loop is released.
unfoldable pub release_all : Exits → Enum → List Call
release_all x s = put_if s.target_set x.target_set put_target kept_target (
    put_if s.source_set x.source_set put_source kept_source (
      put_if s.path_temp x.path_temp put_path kept_path (
        put_if s.path x.path put_path kept_path (
          put_if s.pinned_target x.pinned_target put_pinned_target kept_pinned_target (
            put_if s.pinned_source x.pinned_source put_pinned_source kept_pinned_source s.calls)))))

-- The first path is acquired.
abbrev pub first_path : Enum
first_path = record {
  source_set = false;
  target_set = false;
  pinned_source = false;
  pinned_target = false;
  path = true;
  path_temp = false;
  calls = got_path ∷ [];
}

-- EnumVidPnCofuncModality once the first path is acquired: the calls, the latest first.
unfoldable pub enum_vid_pn_cofunc_modality :
    Pivot → Bool → Exits → (ℕ → Answers) → ℕ → Outcome (List Call)
unfolding enum_paths release_all
enum_vid_pn_cofunc_modality v keeps x a rounds =
    enum_paths v keeps a rounds 0 first_path >>= λ s. done (release_all x s)
