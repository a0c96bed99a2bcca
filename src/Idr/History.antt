-- ===== src/Idr/History.antt =====
-- Histories of GetId and PutId calls on a VioGpuIdr (viogpu/common/viogpu_idr.cpp). The mutex makes
-- each call one step. A client returns only ids that it was given.
use graphics_drivers_wip.Base.{
  ℕ, ◌≤◌, ◌≡◌, inl, inr, true, some, List, [], ◌∷◌, arith, ◌==◌, if◌then◌else◌, contains, without,
  Bool-cases, ==_false,
}
use graphics_drivers_wip.Idr.{BitMapApi, bitmap_size, no_bits, Idr, init, get_id, put_id}
use graphics_drivers_wip.Idr.Laws.{BitMapLaws, Represents, init-Represents, get_id_lem, put_id_lem}

pub data Request : Type 0 where
  get : Request
  put : ℕ → Request

module _ (api : BitMapApi) where
  abbrev pub Held : Type 0
  Held = Idr api × List ℕ

  -- The failure value of GetId is no id, so the client holds nothing new.
  take_id : ℕ × Idr api → List ℕ → Held
  take_id (id, idr) ids = if id == no_bits then (idr, ids) else (idr, id ∷ ids)

  unfoldable pub step : Held → Request → Held
  unfolding take_id
  step (idr, ids) get = take_id (get_id api idr) ids
  step (idr, ids) (put id) =
      if contains ids id then ((put_id api id idr).0, without id ids) else (idr, ids)

  unfoldable pub run : Held → List Request → Held
  run h [] = h
  run h (r ∷ rs) = run (step h r) rs

module _ (api : BitMapApi) (laws : BitMapLaws api) where
  step-Represents :
      (idr : Idr api) (ids : List ℕ) (r : Request)
      → Represents api laws idr ids
      → Represents api laws (step api (idr, ids) r).0 (step api (idr, ids) r).1
  unfolding step
  step-Represents idr ids get v = elim (get_id_lem api laws idr ids v) [
    | inl (e, _) ↦ rw e v
    | inr v' ↦ rw (==_false (get_id api idr).0 no_bits (λ e. omega (arith, e, v'.in_range))) v'
  ]
  step-Represents idr ids (put id) v = elim (Bool-cases (contains ids id)) [
    | inl e ↦ rw e (put_id_lem api laws idr ids id v e).0
    | inr e ↦ rw e v
  ]

  run-Represents :
      (idr : Idr api) (ids : List ℕ) (rs : List Request)
      → Represents api laws idr ids
      → Represents api laws (run api (idr, ids) rs).0 (run api (idr, ids) rs).1
  unfolding run
  run-Represents idr ids [] v = v
  run-Represents idr ids (r ∷ rs) v =
      run-Represents (step api (idr, ids) r).0 (step api (idr, ids) r).1 rs
        (step-Represents idr ids r v)

  -- After any history on a fresh generator with no more reserved ids than bits, the ids in use are
  -- distinct, none is reserved, all lie in the bitmap, and below the bitmap's size its bits mark
  -- the reserved ids and those in use and no others.
  pub run-init-Represents :
      (start : ℕ) (idr : Idr api) (rs : List Request)
      → start ≤ bitmap_size
      → init api true start ≡ some (true, idr)
      → Represents api laws (run api (idr, []) rs).0 (run api (idr, []) rs).1
  run-init-Represents start idr rs h e =
      run-Represents idr [] rs (init-Represents api laws start idr h e).0
