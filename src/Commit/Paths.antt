-- ===== src/Commit/Paths.antt =====
-- The loop of CommitVidPn of viogpu/viogpudo/viogpudo.cpp over the paths ends, and calls in order.
use graphics_drivers_wip.Base.{
  ℕ, zero, suc, ◌≤◌, ◌≡◌, refl, subst, Bool, true, false, List, [], ◌∷◌, ◌++◌, done, Bool-cases,
  Option-cases, inl, inr, Outcome, arith,
}
use mathlib.Core.List.{append_assoc, append-nil}
use graphics_drivers_wip.Modes.{Modes}
use graphics_drivers_wip.Dod.{Status, success, call_failed, PresentPath, check_path, is_success}
use graphics_drivers_wip.Bdd.{BddMode, HwDeviceApi}
use graphics_drivers_wip.Commit.{
  VidPnCall, acquired_path, released_path, refused_path, PinnedMode, VidPn, Adapter, commit_path,
  commit_paths,
}
use graphics_drivers_wip.Commit.Laws.{HwLaws, IsLongEnough}
use graphics_drivers_wip.Commit.Fitting.{adapter, set_source_mode_and_path_lem}

-- The calls of the loop over at most one path, by whether the path is still held.
pub data PathCalls : Bool → List VidPnCall → Type 0 where
  untouched : PathCalls false []
  given_back : PathCalls false (acquired_path ∷ released_path ∷ [])
  held : PathCalls true (acquired_path ∷ [])
  refused : PathCalls true (acquired_path ∷ refused_path ∷ [])

success-source : (p : PresentPath) → is_success (check_path p) ≡ true → p.source_id ≡ 0
unfolding check_path
success-source p h = ground arith

module _ (hw : HwDeviceApi) (laws : HwLaws hw) where
  open hw use {Own, set_current_mode, acquire_frame_buffer, release_frame_buffer}
  open laws use {Holds, Empty}

  -- The end of the loop over the paths: the calls that it made, and whether it still holds a path.
  pub record Leaves (o : Outcome (Status × Bool × Adapter hw)) (calls : List VidPnCall)
      : Type 0 where
    pub status : Status
    pub holding : Bool
    pub made : List VidPnCall
    pub cur : BddMode
    pub table : Modes
    pub own : Own
    pub ends : o ≡ done (status, holding, adapter hw laws cur table own (calls ++ made))
    pub holds : Holds cur own
    pub long : IsLongEnough table
    pub order : PathCalls holding made
    pub clean : is_success status ≡ true → holding ≡ false

  -- Nothing was called.
  pub stays :
      (status : Status) (cur : BddMode) (table : Modes) (own : Own) (calls : List VidPnCall)
      → Holds cur own
      → IsLongEnough table
      → Leaves (done (status, false, adapter hw laws cur table own calls)) calls
  stays status cur table own calls h l = record {
    status = status;
    holding = false;
    made = [];
    cur = cur;
    table = table;
    own = own;
    ends = rw (append-nil calls) refl;
    holds = h;
    long = l;
    order = untouched;
    clean = λ _. refl;
  }

  commit_path_lem :
      (v : VidPn) (m : PinnedMode) (i : ℕ) (cur : BddMode) (table : Modes) (own : Own)
      (calls : List VidPnCall)
      → Empty cur own
      → IsLongEnough table
      → Leaves (commit_path hw v m i (adapter hw laws cur table own calls)) calls
  unfolding commit_path
  commit_path_lem v m i cur table own calls h l = elim (Option-cases (v.target_of_path i)) [
    | inl e ↦ rw (e, commit_path) (stays call_failed cur table own calls (laws.keeps cur own h) l)
    | inr (target, e) ↦ elim (Option-cases (v.acquire_path i)) [
      | inl d ↦
          rw (e, commit_path, d) (stays call_failed cur table own calls (laws.keeps cur own h) l)
      | inr (p, d) ↦ elim (Bool-cases (is_success (check_path p))) [
        | inr bad ↦
            rw (e, commit_path, d, bad)
              record {
                status = check_path p;
                holding = true;
                made = acquired_path ∷ [];
                cur = cur;
                table = table;
                own = own;
                ends = refl;
                holds = laws.keeps cur own h;
                long = l;
                order = held;
                clean = λ g. cc;
              }
        | inl ok ↦
            let g =
              set_source_mode_and_path_lem hw laws m p cur table own (calls ++ acquired_path ∷ [])
                (success-source p ok) h l in
            let all : (c : VidPnCall)
                → (calls ++ acquired_path ∷ []) ++ c ∷ [] ≡ calls ++ acquired_path ∷ c ∷ [] =
              λ c. append_assoc calls (acquired_path ∷ []) (c ∷ []) in
            rw (e, commit_path, d, ok, g.ends)
              (elim (Bool-cases (is_success g.status)) [
                | inr bad ↦ rw bad record {
                  status = g.status;
                  holding = true;
                  made = acquired_path ∷ [];
                  cur = g.cur;
                  table = g.table;
                  own = g.own;
                  ends = refl;
                  holds = g.holds;
                  long = g.long;
                  order = held;
                  clean = λ g. cc;
                }
                | inl good ↦ elim (Bool-cases (v.release_path i)) [
                  | inl released ↦
                      rw (good, released)
                        record {
                          status = success;
                          holding = false;
                          made = acquired_path ∷ released_path ∷ [];
                          cur = g.cur;
                          table = g.table;
                          own = g.own;
                          ends = rw (all released_path) refl;
                          holds = g.holds;
                          long = g.long;
                          order = given_back;
                          clean = λ _. refl;
                        }
                  | inr not_released ↦
                      rw (good, not_released)
                        record {
                          status = call_failed;
                          holding = true;
                          made = acquired_path ∷ refused_path ∷ [];
                          cur = g.cur;
                          table = g.table;
                          own = g.own;
                          ends = rw (all refused_path) refl;
                          holds = g.holds;
                          long = g.long;
                          order = refused;
                          clean = λ k. cc;
                        }
                ]
              ])
      ]
    ]
  ]

  -- A loop over at most one path.
  pub commit_paths_lem :
      (v : VidPn) (m : PinnedMode) (n : ℕ) (cur : BddMode) (table : Modes) (own : Own)
      (calls : List VidPnCall)
      → n ≤ 1
      → Empty cur own
      → IsLongEnough table
      → Leaves (commit_paths hw v m n 0 (adapter hw laws cur table own calls)) calls
  unfolding commit_paths
  commit_paths_lem v m zero cur table own calls k h l =
      stays success cur table own calls (laws.keeps cur own h) l
  commit_paths_lem v m (suc zero) cur table own calls k h l =
      let g = commit_path_lem v m 0 cur table own calls h l in
      rw g.ends (elim (Bool-cases (is_success g.status)) [
        | inr bad ↦ rw bad record {
          status = g.status;
          holding = g.holding;
          made = g.made;
          cur = g.cur;
          table = g.table;
          own = g.own;
          ends = refl;
          holds = g.holds;
          long = g.long;
          order = g.order;
          clean = g.clean;
        }
        | inl good ↦ rw good record {
          status = success;
          holding = false;
          made = g.made;
          cur = g.cur;
          table = g.table;
          own = g.own;
          ends = refl;
          holds = g.holds;
          long = g.long;
          order = subst (λ b. PathCalls b g.made) (g.clean good) g.order;
          clean = λ _. refl;
        }
      ])
  commit_paths_lem v m (suc (suc n)) cur table own calls k h l = absurd (omega arith)
