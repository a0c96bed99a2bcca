-- ===== src/Cofunc/Examples.antt =====
-- Runs of EnumVidPnCofuncModality of viogpu/viogpudo/viogpudo.cpp over two paths.
use graphics_drivers_wip.Base.{ℕ, zero, suc, true, false, some}
use graphics_drivers_wip.Blit.{unpinned}
use graphics_drivers_wip.VidPn.{Pivot, vid_pn_source}
use graphics_drivers_wip.Cofunc.{more, next_failed, Exits, Answers}

-- The pivot is the source of the first path.
abbrev pivot : Pivot
pivot = record { type = vid_pn_source; source_id = 0; target_id = 0 }

-- The first path has a pinned target, and there is a next one.
abbrev first : Answers
first = record {
  path = record {
    source_id = 0;
    target_id = 0;
    scaling_unpinned = true;
    rotation = unpinned;
    scaling_support = (false, false);
    rotation_support = (false, false, false, false);
  };
  acquire_source = true;
  pinned_source = some true;
  release_source = true;
  create_source = true;
  add_source = true;
  assign_source = true;
  acquire_target = true;
  pinned_target = some true;
  release_target = true;
  create_target = true;
  add_target = true;
  assign_target = true;
  release_pinned_target = true;
  release_pinned_source = true;
  release_source_late = true;
  update_supports = true;
  next = more;
  release_path = true;
}

-- The second has no pinned modes, and the call for the next path fails.
abbrev second : Answers
second = record first {
  path = record first.path { source_id = 1; target_id = 1 };
  pinned_source = some false;
  pinned_target = some false;
  next = next_failed;
}

abbrev answers : ℕ → Answers
answers zero = first
answers (suc n) = second

-- The path that is in both variables can be released only once.
abbrev exits : Exits
exits = record {
  pinned_source = true;
  pinned_target = true;
  path = true;
  path_temp = false;
  source_set = true;
  target_set = true;
}
