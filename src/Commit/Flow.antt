-- ===== src/Commit/Flow.antt =====
-- CommitVidPn of viogpu/viogpudo/viogpudo.cpp ends, keeps what the device relies on, and gives back
-- what it acquired, on every way through it.
use graphics_drivers_wip.Base.{
  ℕ, zero, suc, ◌≤◌, ◌≡◌, ◌&&◌, ◌||◌, not, refl, sym, subst, Bool, true, false, Option, none, some,
  List, [], ◌∷◌, ◌++◌, ◌==◌, done, Bool-cases, Option-cases, inl, inr, ◌>>=◌, Outcome, arith,
}
use mathlib.Core.List.{append_assoc, append-nil}
use graphics_drivers_wip.Modes.{Modes, get_at, set_at}
use graphics_drivers_wip.Dod.{Status, success, call_failed, check_source_mode, is_success}
use graphics_drivers_wip.Bdd.{BddMode, HwDeviceApi}
use graphics_drivers_wip.Commit.{
  VidPnCall, acquired_set, released_set, acquired_pinned, released_pinned, released_path,
  PinnedMode, VidPn, Adapter, release_old, commit_pinned, commit_mode, commit_exit, commit_set,
  commit_vid_pn, called_if,
}
use graphics_drivers_wip.Commit.Laws.{HwLaws, IsLongEnough, IsBalanced}
use graphics_drivers_wip.Commit.Fitting.{adapter}
use graphics_drivers_wip.Commit.Paths.{
  PathCalls, untouched, given_back, held, refused, Leaves, stays, commit_paths_lem,
}

module _ (hw : HwDeviceApi) (laws : HwLaws hw) where
  open hw use {Own, set_current_mode, acquire_frame_buffer, release_frame_buffer}
  open laws use {Holds, Empty}

  commit_pinned_lem :
      (v : VidPn) (pinned : Option PinnedMode) (cur : BddMode) (table : Modes) (own : Own)
      (calls : List VidPnCall)
      → ((n : ℕ) → v.num_paths_from_source ≡ some n → n ≤ 1)
      → Empty cur own
      → IsLongEnough table
      → Leaves hw laws (commit_pinned hw v pinned (adapter hw laws cur table own calls)) calls
  unfolding commit_pinned
  commit_pinned_lem v none cur table own calls few e l =
      stays hw laws success cur table own calls (laws.keeps cur own e) l
  commit_pinned_lem v (some m) cur table own calls few e l =
      elim (Bool-cases (is_success (check_source_mode m.checked))) [
        | inr bad ↦
            rw (bad, commit_pinned)
              (stays hw laws (check_source_mode m.checked) cur table own calls
                (laws.keeps cur own e) l)
        | inl good ↦ elim (Option-cases v.num_paths_from_source) [
          | inl d ↦
              rw (good, d) (stays hw laws call_failed cur table own calls (laws.keeps cur own e) l)
          | inr (n, d) ↦
              rw (good, d) (commit_paths_lem hw laws v m n cur table own calls (few n d) e l)
        ]
      ]

  release_old_lem :
      (cur : BddMode) (own : Own)
      → Holds cur own
      → Empty (release_old hw cur own).1 (release_old hw cur own).2
  unfolding release_old
  release_old_lem cur own h =
      elim (Bool-cases (not (cur.frame_ptr == 0) && not cur.do_not_map_or_unmap)) [
        | inl e ↦ rw e (laws.releases cur own h e)
        | inr e ↦ rw e (laws.empties cur own h e)
      ]

  commit_mode_lem :
      (v : VidPn) (pinned : Option PinnedMode) (cur : BddMode) (table : Modes) (own : Own)
      (calls : List VidPnCall)
      → ((n : ℕ) → v.num_paths_from_source ≡ some n → n ≤ 1)
      → Holds cur own
      → IsLongEnough table
      → Leaves hw laws (commit_mode hw v 0 pinned (adapter hw laws cur table own calls)) calls
  unfolding commit_mode get_at set_at
  commit_mode_lem v pinned cur table own calls few h l =
      let (ok, c, o) = release_old hw cur own in
      let e = release_old_lem cur own h in
      elim (Bool-cases (release_old hw cur own).0) [
        | inl released ↦ rw released (commit_pinned_lem v pinned c table o calls few e l)
        | inr failed ↦ rw failed (stays hw laws call_failed c table o calls (laws.keeps c o e) l)
      ]

  -- What CommitVidPn calls in all.
  abbrev all_calls : Bool → Bool → Bool → List VidPnCall → List VidPnCall
  all_calls false false true made = made ++ released_path ∷ []
  all_calls false false false made = made
  all_calls false true true made = acquired_set ∷ (made ++ released_set ∷ released_path ∷ [])
  all_calls false true false made = acquired_set ∷ (made ++ released_set ∷ [])
  all_calls true set true made =
      acquired_set ∷ acquired_pinned ∷ (made ++ released_pinned ∷ released_set ∷ released_path ∷ [])
  all_calls true set false made =
      acquired_set ∷ acquired_pinned ∷ (made ++ released_pinned ∷ released_set ∷ [])

  all_calls-IsBalanced :
      (pinned set holding : Bool) (made : List VidPnCall)
      → PathCalls holding made
      → IsBalanced (all_calls pinned set holding made)
  all_calls-IsBalanced false false _ _ untouched = omega arith
  all_calls-IsBalanced false false _ _ given_back = omega arith
  all_calls-IsBalanced false false _ _ held = omega arith
  all_calls-IsBalanced false false _ _ refused = omega arith
  all_calls-IsBalanced false true _ _ untouched = omega arith
  all_calls-IsBalanced false true _ _ given_back = omega arith
  all_calls-IsBalanced false true _ _ held = omega arith
  all_calls-IsBalanced false true _ _ refused = omega arith
  all_calls-IsBalanced true set _ _ untouched = omega arith
  all_calls-IsBalanced true set _ _ given_back = omega arith
  all_calls-IsBalanced true set _ _ held = omega arith
  all_calls-IsBalanced true set _ _ refused = omega arith

  -- The end of CommitVidPn: the view and the device are as they may be between commits, and what was
  -- acquired has been released.
  pub record Commits (o : Outcome (Status × Adapter hw)) (calls : List VidPnCall) : Type 0 where
    pub status : Status
    pub cur : BddMode
    pub table : Modes
    pub own : Own
    pub made : List VidPnCall
    pub ends : o ≡ done (status, adapter hw laws cur table own (calls ++ made))
    pub holds : Holds cur own
    pub long : IsLongEnough table
    pub balanced : IsBalanced made

  -- Which calls stand in front.
  abbrev front : Bool → Bool → List VidPnCall
  front false false = []
  front false true = acquired_set ∷ []
  front true set = acquired_set ∷ acquired_pinned ∷ []

  exit_calls :
      (pinned set holding : Bool) (cur : BddMode) (table : Modes) (own : Own)
      (calls made : List VidPnCall)
      → (pinned ≡ true → set ≡ true)
      → called_if hw holding released_path (
          called_if hw set released_set (
            called_if hw pinned released_pinned
              (adapter hw laws cur table own ((calls ++ front pinned set) ++ made))))
        ≡ adapter hw laws cur table own (calls ++ all_calls pinned set holding made)
  exit_calls false false false cur table own calls made i = simp append-nil
  exit_calls false false true cur table own calls made i = simp (append_assoc, append-nil)
  exit_calls false true false cur table own calls made i = simp append_assoc
  exit_calls false true true cur table own calls made i = simp append_assoc
  exit_calls true false holding cur table own calls made i = cc (i refl)
  exit_calls true true false cur table own calls made i = simp append_assoc
  exit_calls true true true cur table own calls made i = simp append_assoc

  exit_lem :
      (pinned set : Bool) (o : Outcome (Status × Bool × Adapter hw)) (calls : List VidPnCall)
      → (pinned ≡ true → set ≡ true)
      → Leaves hw laws o (calls ++ front pinned set)
      → Commits (o >>= commit_exit hw pinned set) calls
  exit_lem pinned set o calls i g = record {
    status = g.status;
    cur = g.cur;
    table = g.table;
    own = g.own;
    made = all_calls pinned set g.holding g.made;
    ends = rw (g.ends, exit_calls pinned set g.holding g.cur g.table g.own calls g.made i) refl;
    holds = g.holds;
    long = g.long;
    balanced = all_calls-IsBalanced pinned set g.holding g.made g.order;
  }

  commit_set_lem :
      (v : VidPn) (cur : BddMode) (table : Modes) (own : Own) (calls : List VidPnCall)
      → ((n : ℕ) → v.num_paths_from_source ≡ some n → n ≤ 1)
      → Holds cur own
      → IsLongEnough table
      → Commits
          (commit_set hw v 0 (adapter hw laws cur table own (calls ++ acquired_set ∷ [])))
          calls
  unfolding commit_set
  commit_set_lem v cur table own calls few h l = elim (Option-cases v.acquire_pinned) [
    | inl e ↦
        rw (e, commit_set)
          (exit_lem false true _ calls (λ _. refl)
            (stays hw laws call_failed cur table own (calls ++ acquired_set ∷ []) h l))
    | inr (pinned, e) ↦ rw (e, commit_set) (with_pinned pinned)
  ]
    where
      with_pinned :
          (pinned : Option PinnedMode)
          → Commits
              (elim pinned [
                | none ↦
                    commit_mode hw v 0 none
                      (adapter hw laws cur table own (calls ++ acquired_set ∷ []))
                    >>= commit_exit hw false true
                | some m ↦
                    commit_mode hw v 0 (some m) (
                      adapter hw laws cur table own
                        ((calls ++ acquired_set ∷ []) ++ acquired_pinned ∷ []))
                    >>= commit_exit hw true true
              ])
              calls
      with_pinned none =
          exit_lem false true _ calls (λ _. refl)
            (commit_mode_lem v none cur table own (calls ++ acquired_set ∷ []) few h l)
      with_pinned (some m) =
          subst
            (λ z.
              Commits
                (commit_mode hw v 0 (some m) (adapter hw laws cur table own z)
                  >>= commit_exit hw true true)
                calls)
            (sym (append_assoc calls (acquired_set ∷ []) (acquired_pinned ∷ [])))
            (exit_lem true true _ calls (λ _. refl)
              (commit_mode_lem v (some m) cur table own
                (calls ++ acquired_set ∷ acquired_pinned ∷ []) few h l))

  -- Nothing happens.
  unchanged :
      (status : Status) (cur : BddMode) (table : Modes) (own : Own) (calls : List VidPnCall)
      → Holds cur own
      → IsLongEnough table
      → Commits (done (status, adapter hw laws cur table own calls)) calls
  unchanged status cur table own calls h l = record {
    status = status;
    cur = cur;
    table = table;
    own = own;
    made = [];
    ends = rw (append-nil calls) refl;
    holds = h;
    long = l;
    balanced = omega arith;
  }

  -- CommitVidPn for the only source, with a table of modes whose arrays are long enough, and at most
  -- one path from the source, as the driver supports: whatever the kernel answers, it ends without
  -- a fault; what holds of the view and of the device between two commits holds again; and each
  -- source mode set, pinned mode and path that it acquired has been released, as often.
  pub commit_vid_pn_lem :
      (v : VidPn) (cur : BddMode) (table : Modes) (own : Own) (calls : List VidPnCall)
      → ((n : ℕ) → v.num_paths_from_source ≡ some n → n ≤ 1)
      → Holds cur own
      → IsLongEnough table
      → Commits (commit_vid_pn hw v 0 (adapter hw laws cur table own calls)) calls
  unfolding commit_vid_pn
  commit_vid_pn_lem v cur table own calls few h l = elim (Bool-cases v.path_powered_off) [
    | inl e ↦ rw (e, commit_vid_pn) (unchanged success cur table own calls h l)
    | inr on ↦ elim (Bool-cases (not v.query_interface || not v.get_topology)) [
      | inl e ↦ rw (on, commit_vid_pn, e) (unchanged call_failed cur table own calls h l)
      | inr asked ↦
          rw (on, commit_vid_pn, asked)
            (elim (Option-cases v.num_paths) [
              | inl e ↦ rw e (unchanged call_failed cur table own calls h l)
              | inr (zero, e) ↦ rw e (
                  exit_lem false false _ calls (λ q. cc)
                    (rw (append-nil calls) (commit_mode_lem v none cur table own calls few h l)))
              | inr (suc n, e) ↦ rw e (elim (Bool-cases v.acquire_set) [
                | inl acquired ↦ rw acquired (commit_set_lem v cur table own calls few h l)
                | inr refused_set ↦ rw refused_set (unchanged call_failed cur table own calls h l)
              ])
            ])
    ]
  ]
