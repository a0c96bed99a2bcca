-- ===== src/Commit/Fitting.antt =====
-- SetSourceModeAndPath of viogpu/viogpudo/viogpudo.cpp ends and keeps what the device relies on.
use graphics_drivers_wip.Base.{
  ℕ, ◌≡◌, refl, sym, subst, Bool, true, false, Option, none, some, List, [], ◌∷◌, if◌then◌else◌,
  done, Bool-cases, inl, inr, ◌>>=◌, Outcome, arith,
}
use graphics_drivers_wip.Modes.{Modes, get_at, set_at}
use graphics_drivers_wip.Dod.{Status, success, call_failed, PresentPath}
use graphics_drivers_wip.Bdd.{BddMode, HwDeviceApi}
use graphics_drivers_wip.Commit.{
  VidPnCall, PinnedMode, Adapter, with_source_mode, set_fitting_mode, set_source_mode,
  set_source_mode_and_path,
}
use graphics_drivers_wip.Commit.Laws.{HwLaws, IsLongEnough, get_at_done, find_size_lem, Finds}

long-if :
    (b : Bool) (k : ℕ) (t : Modes)
    → IsLongEnough t
    → IsLongEnough (if b then record t { current_mode = k } else t)
long-if true k t l = record { infos = l.infos; numbers = l.numbers }
long-if false k t l = l

module _ (hw : HwDeviceApi) (laws : HwLaws hw) where
  open hw use {Own, set_current_mode, acquire_frame_buffer, release_frame_buffer}
  open laws use {Holds, Empty}

  -- The adapter with its one view.
  abbrev pub adapter : BddMode → Modes → Own → List VidPnCall → Adapter hw
  adapter cur table own calls = record { modes = cur ∷ []; table = table; own = own; calls = calls }

  -- The end of a step that returns a status, after which the calls are the given ones.
  pub record Gives (o : Outcome (Status × Adapter hw)) (calls : List VidPnCall) : Type 0 where
    pub status : Status
    pub cur : BddMode
    pub table : Modes
    pub own : Own
    pub ends : o ≡ done (status, adapter cur table own calls)
    pub holds : Holds cur own
    pub long : IsLongEnough table

  set_fitting_mode_lem :
      (cur : BddMode) (table : Modes) (own : Own) (calls : List VidPnCall)
      → Holds cur own
      → IsLongEnough table
      → Gives (set_fitting_mode hw 0 cur (adapter cur table own calls)) calls
  unfolding set_fitting_mode set_at
  set_fitting_mode_lem cur table own calls h l =
      let w = cur.disp_info.width in
      let k = cur.disp_info.height in
      let (r, e, f) =
        find_size_lem w k table.mode_count 0 table.mode_info (omega (arith, l.infos)) in
      rw (e, set_fitting_mode) (chosen r f)
    where
      chosen :
          (r : Option ℕ)
          → Finds cur.disp_info.width cur.disp_info.height 0 table.mode_count table.mode_info r
          → Gives
              (elim r as (λ _. Outcome (Status × Adapter hw)) [
                | none ↦ done (success, adapter cur table own calls)
                | some idx ↦ (do
                  number ← get_at table.mode_numbers idx
                  (ok, cur₁, own₁) ← set_current_mode number table cur own
                  done (
                    if ok then success else call_failed,
                    adapter cur₁
                        (if ok then record table { current_mode = idx } else table)
                        own₁
                        calls,
                  ))
              ])
              calls
      chosen none f = record {
        status = success;
        cur = cur;
        table = table;
        own = own;
        ends = refl;
        holds = h;
        long = l;
      }
      chosen (some idx) f =
          let (number, at, d) = get_at_done table.mode_numbers idx (omega (arith, f.below, l)) in
          let ((ok, cur₁, own₁), q, h₁) = laws.sets number table cur own h in
          record {
            status = (if ok then success else call_failed);
            cur = cur₁;
            table = (if ok then record table { current_mode = idx } else table);
            own = own₁;
            ends = rw (d, q) refl;
            holds = h₁;
            long = long-if ok idx table l;
          }

  set_source_mode_lem :
      (m : PinnedMode) (p : PresentPath) (cur : BddMode) (table : Modes) (own : Own)
      (calls : List VidPnCall)
      → Empty cur own
      → IsLongEnough table
      → Gives (set_source_mode hw 0 m p (adapter cur table own calls)) calls
  unfolding set_source_mode get_at set_at
  set_source_mode_lem m p cur table own calls h l =
      let c = with_source_mode m p cur in
      let h₁ = laws.acquires c own (laws.refills m p cur own h) in
      elim (Bool-cases (acquire_frame_buffer c own).0) [
        | inl ok ↦ rw ok (
            set_fitting_mode_lem
              (record (acquire_frame_buffer c own).1 { fullscreen_present = true }) table
              (acquire_frame_buffer c own).2 calls (laws.presents _ _ h₁) l)
        | inr failed ↦ rw failed record {
          status = call_failed;
          cur = (acquire_frame_buffer c own).1;
          table = table;
          own = (acquire_frame_buffer c own).2;
          ends = refl;
          holds = h₁;
          long = l;
        }
      ]

  pub set_source_mode_and_path_lem :
      (m : PinnedMode) (p : PresentPath) (cur : BddMode) (table : Modes) (own : Own)
      (calls : List VidPnCall)
      → p.source_id ≡ 0
      → Empty cur own
      → IsLongEnough table
      → Gives (set_source_mode_and_path hw m p (adapter cur table own calls)) calls
  unfolding set_source_mode_and_path
  set_source_mode_and_path_lem m p cur table own calls z h l =
      subst (λ k. Gives (set_source_mode hw k m p (adapter cur table own calls)) calls) (sym z)
        (set_source_mode_lem m p cur table own calls h l)
