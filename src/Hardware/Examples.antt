-- ===== src/Hardware/Examples.antt =====
-- GpuDevice comes up in full, and without its queues.
use graphics_drivers_wip.Base.{◌≡◌, true, false, [], ◌∷◌}
use graphics_drivers_wip.Dod.{d0, d3}
use graphics_drivers_wip.Hardware.{Answers, Hardware}
use graphics_drivers_wip.Hardware.Power.{run, run-hardware_init}

abbrev all_well : Answers
all_well = record {
  pci_init = true;
  initialize = true;
  version_1 = true;
  set_features = true;
  find_queues = true;
  ctrl_init = true;
  cursor_init = true;
  buf_init = true;
  idr_init = true;
  create_thread = true;
  mode_memory = true;
  mode_list = true;
}

-- The queues are not found.
abbrev no_queues : Answers
no_queues = record all_well { find_queues = false }

abbrev fresh : Hardware
fresh = record { hardware_init = false; acked = false; has_thread = false; calls = [] }

-- The ids cannot be initialised, but the buffers are there, and the modes are listed through them.
abbrev no_ids : Answers
no_ids = record all_well { idr_init = false }

run-hardware_init_example :
    (run ((d3, all_well) ∷ (d0, no_queues) ∷ (d0, all_well) ∷ []) fresh).hardware_init ≡ true
run-hardware_init_example =
    run-hardware_init ((d3, all_well) ∷ (d0, no_queues) ∷ (d0, all_well) ∷ []) fresh
