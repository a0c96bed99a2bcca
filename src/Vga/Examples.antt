-- ===== src/Vga/Examples.antt =====
-- The theorems about CommitVidPn and the frame buffer of VgaDevice in viogpu/viogpudo/viogpudo.cpp on a kernel
-- that maps every frame buffer at the same address.
use graphics_drivers_wip.Base.{
  List, ◌++◌, ℕ, ◌≤◌, ◌≡◌, inl, refl, true, false, some, none, [], ◌∷◌, done, arith,
}
use graphics_drivers_wip.Blit.{identity, a8r8g8b8}
use graphics_drivers_wip.Modes.{Modes, ModeInfo}
use graphics_drivers_wip.Dod.{PresentPath, scaling_identity, cb_scrgb}
use graphics_drivers_wip.Bdd.{BddMode, zeroed_mode, zeroed_info}
use graphics_drivers_wip.Commit.{VidPn, PinnedMode, Adapter, commit_vid_pn, VidPnCall}
use graphics_drivers_wip.Dod.{Status}
use graphics_drivers_wip.Commit.Laws.{IsLongEnough, IsBalanced}
use graphics_drivers_wip.Vga.{KernelApi, Mappings, vga_device}
use graphics_drivers_wip.Vga.Mapped.{
  IsMapped, commit_vid_pn-IsMapped, run_commits, run_commits-IsMapped,
}

abbrev kernel : KernelApi
kernel = record { map_io_space = λ a n wc l. 0xF000; bios_call = λ eax ebx l. true }

abbrev info : ModeInfo
info = record {
  mode_index = 0;
  vis_screen_width = 1024;
  vis_screen_height = 768;
  screen_stride = 4096;
  bits_per_plane = 32;
  x_millimeter = 361;
  y_millimeter = 270;
}

abbrev table : Modes
table = record {
  mode_info = info ∷ [];
  mode_numbers = 0x118 ∷ [];
  mode_count = 1;
  current_mode = 0;
  custom_mode = 0;
}

table-IsLongEnough : IsLongEnough table
table-IsLongEnough = omega arith

abbrev view : BddMode
view = record zeroed_mode {
  disp_info = record zeroed_info { color_format = a8r8g8b8; physic_address = 0xE0000000 };
}

abbrev nothing_mapped : Mappings
nothing_mapped = record { mapped = []; stray = []; bios = [] }

view-IsMapped : IsMapped view nothing_mapped
view-IsMapped = record { may_map = refl; none_stray = refl; only = inl (refl, refl) }

abbrev path : PresentPath
path = record {
  source_id = 0;
  target_id = 0;
  is_default_gamma = true;
  scaling = scaling_identity;
  rotation = identity;
  target_color_basis = cb_scrgb;
}

abbrev pinned : PinnedMode
pinned = record {
  checked = record {
    is_graphics = true;
    color_basis = cb_scrgb;
    is_direct = true;
    pixel_format = a8r8g8b8;
  };
  prim_width = 1024;
  prim_height = 768;
  visible_width = 1024;
  visible_height = 768;
}

abbrev granted : VidPn
granted = record {
  path_powered_off = false;
  query_interface = true;
  get_topology = true;
  num_paths = some 1;
  acquire_set = true;
  acquire_pinned = some (some pinned);
  num_paths_from_source = some 1;
  target_of_path = λ i. some 0;
  acquire_path = λ i. some path;
  release_path = λ i. true;
}

-- The same, but no mode is pinned.
abbrev cleared : VidPn
cleared = record granted { acquire_pinned = some none }

abbrev start : Adapter (vga_device kernel)
start = record { modes = view ∷ []; table = table; own = nothing_mapped; calls = [] }

single : (n : ℕ) → some 1 ≡ some n → n ≤ 1
single n e = ground arith

commit_vid_pn_example :
    (st : Status) × (t : Adapter (vga_device kernel)) × (c : BddMode) × (made : List VidPnCall)
    × (commit_vid_pn (vga_device kernel) granted 0 start ≡ done (st, t))
    × (t.modes ≡ c ∷ [])
    × IsMapped c t.own
    × (t.calls ≡ [] ++ made)
    × IsBalanced made
commit_vid_pn_example =
    commit_vid_pn-IsMapped kernel granted view table nothing_mapped [] single view-IsMapped
      table-IsLongEnough

run_commits_example :
    (t : Adapter (vga_device kernel)) × (c : BddMode) × (run_commits kernel
        (granted ∷ cleared ∷ granted ∷ [])
        start
      ≡ done t)
    × (t.modes ≡ c ∷ [])
    × IsMapped c t.own
run_commits_example =
    run_commits-IsMapped kernel (granted ∷ cleared ∷ granted ∷ []) view table nothing_mapped []
      (single, (single, (single, tt))) table-IsLongEnough view-IsMapped
