-- ===== src/Idr/Examples.antt =====
-- The theorems about viogpu/common/viogpu_idr.cpp at work on a concrete bitmap.
use graphics_drivers_wip.Base.{◌≡◌, refl, [], ◌∷◌, arith}
use graphics_drivers_wip.Idr.{get_id, put_id}
use graphics_drivers_wip.Idr.Laws.{Represents}
use graphics_drivers_wip.Idr.History.{get, put, step, run, run-init-Represents}
use graphics_drivers_wip.Idr.Samples.{bits_api, bits_laws, one, one-init, found_at, scan}

ids_in_order : (run bits_api (one, []) (get ∷ get ∷ put 1 ∷ get ∷ get ∷ [])).1 ≡ 3 ∷ 1 ∷ 2 ∷ []
unfolding run step get_id put_id found_at scan
ids_in_order = refl

one_taken : Represents bits_api bits_laws (get_id bits_api one).1 (1 ∷ [])
unfolding run step get_id found_at scan
one_taken = run-init-Represents bits_api bits_laws 1 one (get ∷ []) (omega arith) one-init

run-init-Represents_example :
    let h = run bits_api (one, []) (get ∷ get ∷ put 1 ∷ get ∷ []) in
    Represents bits_api bits_laws h.0 h.1
run-init-Represents_example =
    run-init-Represents bits_api bits_laws 1 one (get ∷ get ∷ put 1 ∷ get ∷ []) (omega arith)
      one-init
