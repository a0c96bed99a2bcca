-- ===== src/Vga/Mapped.antt =====
-- The frame buffer of VgaDevice in viogpu/viogpudo/viogpudo.cpp over any history of CommitVidPn.
use graphics_drivers_wip.Base.{
  ℕ, ◌*◌, ◌≤◌, ◌≡◌, ◌≢◌, ◌⊎◌, inl, inr, ◌&&◌, ◌||◌, not, refl, ap, ◌∙◌, if◌then◌else◌, zero, suc,
  true, false, some, List, [], ◌∷◌, ◌++◌, ◌==◌, Bool-cases, u32, Outcome, done, ◌>>=◌, arith,
}
use native.Mathlib.Nat.{mul_comm}
use graphics_drivers_wip.Modes.{Modes}
use graphics_drivers_wip.Bdd.{BddMode}
use graphics_drivers_wip.Commit.{VidPn, VidPnCall, Adapter, commit_vid_pn}
use graphics_drivers_wip.Commit.Laws.{HwLaws, IsLongEnough, IsBalanced}
use graphics_drivers_wip.Dod.{Status}
use graphics_drivers_wip.Commit.Flow.{commit_vid_pn_lem}
use graphics_drivers_wip.Vga.{
  KernelApi, Mappings, vga_device, map_frame_buffer, acquire_frame_buffer, release_frame_buffer,
  set_vga_mode, not_null,
}

abbrev pub frame_bytes : BddMode → ℕ
frame_bytes cur = u32 (cur.disp_info.height * cur.disp_info.pitch)

-- The frame buffer is the only mapping of the kernel, at its address and of its length, or there is
-- none and its address is null; and no other memory was ever unmapped.
pub record IsMapped (cur : BddMode) (s : Mappings) : Type 0 where
  pub may_map : cur.do_not_map_or_unmap ≡ false
  pub none_stray : s.stray ≡ []
  pub only :
      ((cur.frame_ptr ≡ 0) × (s.mapped ≡ []))
      ⊎ ((cur.frame_ptr ≢ 0)
          × (frame_bytes cur ≢ 0)
          × (s.mapped ≡ (cur.frame_ptr, frame_bytes cur) ∷ []))

record IsUnmapped (cur : BddMode) (s : Mappings) : Type 0 where
  may_map : cur.do_not_map_or_unmap ≡ false
  none_stray : s.stray ≡ []
  null : cur.frame_ptr ≡ 0
  none_mapped : s.mapped ≡ []

empties_lem :
    (cur : BddMode) (s : Mappings)
    → IsMapped cur s
    → (not (cur.frame_ptr == 0) && not cur.do_not_map_or_unmap) ≡ false
    → IsUnmapped cur s
empties_lem cur s h e = ground arith

releases_lem :
    (cur : BddMode) (s : Mappings)
    → IsMapped cur s
    → (not (cur.frame_ptr == 0) && not cur.do_not_map_or_unmap) ≡ true
    → IsUnmapped (release_frame_buffer cur s).1 (release_frame_buffer cur s).2
unfolding release_frame_buffer
releases_lem cur s h e = ground arith

keeps_lem : (cur : BddMode) (s : Mappings) → IsUnmapped cur s → IsMapped cur s
keeps_lem cur s u = record {
  may_map = u.may_map;
  none_stray = u.none_stray;
  only = inl (u.null, u.none_mapped);
}

not_null-ne : (a : ℕ) → not_null a ≡ true → a ≢ 0
not_null-ne zero e = cc
not_null-ne (suc a) e = λ z. omega (arith, z)

-- The pointer and the mappings after MapFrameBuffer.
abbrev IsOnly : ℕ → ℕ → Mappings → Mappings → Type 0
IsOnly ptr n s t =
    (t.stray ≡ s.stray)
    × (((ptr ≡ 0) × (t.mapped ≡ s.mapped))
        ⊎ ((ptr ≢ 0) × (n ≢ 0) × (t.mapped ≡ (ptr, n) ∷ s.mapped)))

map_frame_buffer_lem :
    (kernel : KernelApi) (physical n : ℕ) (s : Mappings)
    → IsOnly
        (map_frame_buffer kernel physical n 0 s).1
        n
        s
        (map_frame_buffer kernel physical n 0 s).2
unfolding map_frame_buffer
map_frame_buffer_lem kernel physical n s = elim (Bool-cases (physical == 0 || n == 0)) [
  | inl invalid ↦ rw invalid (refl, inl (refl, refl))
  | inr valid ↦
      let ne : n ≢ 0 = ground arith in
      elim (Bool-cases (not_null (kernel.map_io_space physical n true s.mapped))) [
        | inl a ↦ rw (valid, a) (refl, inr (not_null-ne _ a, ne, refl))
        | inr na ↦ elim (Bool-cases (not_null (kernel.map_io_space physical n false s.mapped))) [
          | inl b ↦ rw (valid, na, b) (refl, inr (not_null-ne _ b, ne, refl))
          | inr nb ↦ rw (valid, na, nb) (refl, inl (refl, refl))
        ]
      ]
]

-- AcquireFrameBuffer on a view that may be mapped and is not.
acquire_frame_buffer-maps :
    (kernel : KernelApi) (cur : BddMode) (s : Mappings)
    → cur.do_not_map_or_unmap ≡ false
    → cur.frame_ptr ≡ 0
    → let n = u32 (cur.disp_info.pitch * cur.disp_info.height) in
      let (ok, ptr, t) = map_frame_buffer kernel cur.disp_info.physic_address n 0 s in
      acquire_frame_buffer kernel cur s ≡ (
        ok,
        record cur {
          frame_ptr = ptr;
          frame_buffer_is_active = (if ok then true else cur.frame_buffer_is_active);
        },
        t,
      )
unfolding acquire_frame_buffer
acquire_frame_buffer-maps kernel cur s may null = simp (may, null) refl

acquires_lem :
    (kernel : KernelApi) (cur : BddMode) (s : Mappings)
    → IsUnmapped cur s
    → IsMapped (acquire_frame_buffer kernel cur s).1 (acquire_frame_buffer kernel cur s).2
acquires_lem kernel cur s u =
    let n = u32 (cur.disp_info.pitch * cur.disp_info.height) in
    let same : n ≡ frame_bytes cur =
      ap (λ (k : ℕ). u32 k) (mul_comm cur.disp_info.pitch cur.disp_info.height) in
    let (stray, only) = map_frame_buffer_lem kernel cur.disp_info.physic_address n s in
    rw (acquire_frame_buffer-maps kernel cur s u.may_map u.null) record {
      may_map = u.may_map;
      none_stray = stray ∙ u.none_stray;
      only = by_only only u.none_mapped same;
    }
  where
    by_only :
        {ptr n k : ℕ} {l m : List (ℕ × ℕ)}
        → ((ptr ≡ 0) × (l ≡ m)) ⊎ ((ptr ≢ 0) × (n ≢ 0) × (l ≡ (ptr, n) ∷ m))
        → m ≡ []
        → n ≡ k
        → ((ptr ≡ 0) × (l ≡ [])) ⊎ ((ptr ≢ 0) × (k ≢ 0) × (l ≡ (ptr, k) ∷ []))
    by_only (inl (z, e)) f q = inl (z, e ∙ f)
    by_only (inr (z, w, e)) f q = inr (z, λ o. w (q ∙ o), cc)

pub vga_laws : (kernel : KernelApi) → HwLaws (vga_device kernel)
unfolding set_vga_mode
vga_laws kernel = record {
  Holds = IsMapped;
  Empty = IsUnmapped;
  empties = empties_lem;
  releases = releases_lem;
  keeps = keeps_lem;
  refills = λ m p cur s u. record {
    may_map = u.may_map;
    none_stray = u.none_stray;
    null = u.null;
    none_mapped = u.none_mapped;
  };
  acquires = acquires_lem kernel;
  presents = λ cur s h. record { may_map = h.may_map; none_stray = h.none_stray; only = h.only };
  sets = λ mode table cur s h.
      (_, refl, record { may_map = h.may_map; none_stray = h.none_stray; only = h.only });
}

pub IsMapped-Holds :
    (kernel : KernelApi) (cur : BddMode) (s : Mappings)
    → IsMapped cur s
    → (vga_laws kernel).Holds cur s
unfolding vga_laws
IsMapped-Holds kernel cur s h = h

-- CommitVidPn for the only source on the VGA device, with a table of modes whose arrays are long enough, and
-- at most one path from the source, as the driver supports: whatever the kernel and the BIOS answer, it
-- ends without a fault; the mapping of the frame buffer and the view agree again; and each
-- source mode set, pinned mode and path that it acquired has been released, as often.
pub commit_vid_pn-IsMapped :
    (kernel : KernelApi) (v : VidPn) (cur : BddMode) (table : Modes) (s : Mappings)
    (calls : List VidPnCall)
    → ((n : ℕ) → v.num_paths_from_source ≡ some n → n ≤ 1)
    → IsMapped cur s
    → IsLongEnough table
    → (st : Status) × (t : Adapter (vga_device kernel)) × (c : BddMode) × (made : List VidPnCall)
      × (commit_vid_pn
            (vga_device kernel)
            v
            0
            (record { modes = cur ∷ []; table = table; own = s; calls = calls })
          ≡ done (st, t))
      × (t.modes ≡ c ∷ [])
      × IsMapped c t.own
      × (t.calls ≡ calls ++ made)
      × IsBalanced made
unfolding vga_laws
commit_vid_pn-IsMapped kernel v cur table s calls few h l =
    let g = commit_vid_pn_lem (vga_device kernel) (vga_laws kernel) v cur table s calls few h l in
    (g.status, _, g.cur, g.made, g.ends, refl, g.holds, refl, g.balanced)

-- A history of commits for the only source.
pub run_commits :
    (kernel : KernelApi)
    → List VidPn
    → Adapter (vga_device kernel)
    → Outcome (Adapter (vga_device kernel))
run_commits kernel [] s = done s
run_commits kernel (v ∷ vs) s =
    commit_vid_pn (vga_device kernel) v 0 s >>= λ r. run_commits kernel vs r.1

-- Each has at most one path from the source.
abbrev pub SinglePaths : List VidPn → Type 0
SinglePaths [] = Unit {0}
SinglePaths (v ∷ vs) = ((n : ℕ) → v.num_paths_from_source ≡ some n → n ≤ 1) × SinglePaths vs

-- After any history of commits on the VGA device, whatever the kernel and the BIOS answer in each, and
-- with at most one path from the source: the frame buffer of the view is the only mapping that the
-- kernel has, of the length of the view's mode, or the kernel has none and the view's pointer is
-- null; and nothing was unmapped that was not mapped so. So no mapping is lost.
pub run_commits-IsMapped :
    (kernel : KernelApi) (vs : List VidPn) (cur : BddMode) (table : Modes) (s : Mappings)
    (calls : List VidPnCall)
    → SinglePaths vs
    → IsLongEnough table
    → IsMapped cur s
    → (t : Adapter (vga_device kernel)) × (c : BddMode) × (run_commits kernel vs
          (record { modes = cur ∷ []; table = table; own = s; calls = calls })
        ≡ done t)
      × (t.modes ≡ c ∷ [])
      × IsMapped c t.own
unfolding run_commits vga_laws
run_commits-IsMapped kernel [] cur table s calls few l h = (_, cur, refl, refl, h)
run_commits-IsMapped kernel (v ∷ vs) cur table s calls few l h =
    let g = commit_vid_pn_lem (vga_device kernel) (vga_laws kernel) v cur table s calls few.0 h l in
    let (t, c, e, m, k) =
      run_commits-IsMapped kernel vs g.cur g.table g.own (calls ++ g.made) few.1 g.long g.holds in
    (t, c, rw g.ends e, m, k)
