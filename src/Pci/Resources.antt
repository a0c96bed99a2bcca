-- ===== src/Pci/Resources.antt =====
-- Which resources CPciResources::Init of viogpu/common/viogpu_pci.cpp finds in the lists that it gets.
use graphics_drivers_wip.Base.{
  ℕ, zero, suc, ◌<◌, ◌≡◌, inl, inr, refl, ap, sym, ◌∙◌, ◌&&◌, ◌||◌, not, Bool, true, false, Option,
  none, some, List, [], ◌∷◌, ◌++◌, ◌==◌, ==_iff, Bool-cases, if◌then◌else◌, length, length-set,
  get_elem?, get_elem?-set_self, get_elem?-set_ne, arith,
}
use graphics_drivers_wip.Pci.{
  PciBar, new_bar, empty_bar, Descriptor, port, interrupt, memory, dma, device_specific, bus_number,
  other, Scan, bar_count, start_scan, put_bar, scan_one, scan_list, scan_all, is_found,
  init_resources,
}

-- The start of a resource that can be a BAR, and the BAR that it makes.
abbrev pub resource : Descriptor → Option (ℕ × PciBar)
resource (port start len is_io) = some (start, new_bar start len true (not is_io))
resource (memory start len) = some (start, new_bar start len false true)
resource _ = none

abbrev pub is_interrupt : Descriptor → Bool
is_interrupt (interrupt flags) = true
is_interrupt _ = false

-- All the descriptors, in their order.
abbrev pub flatten : List (List Descriptor) → List Descriptor
flatten [] = []
flatten (l ∷ ls) = l ++ flatten ls

abbrev pub any_interrupt : List Descriptor → Bool
any_interrupt [] = false
any_interrupt (d ∷ ds) = is_interrupt d || any_interrupt ds

module _ (bar_index : ℕ → Option ℕ) where
  -- The BAR that the descriptor belongs to: `none` for no resource of a BAR, `some none` for one
  -- that is not found in the configuration.
  abbrev pub index_of : Descriptor → Option (Option ℕ)
  index_of d = elim (resource d) [ none ↦ none | some r ↦ some (bar_index r.0) ]

  -- The index of the last of the descriptors that is a resource of a BAR.
  abbrev pub last_index : Option ℕ → List Descriptor → Option ℕ
  last_index first [] = first
  last_index first (d ∷ ds) = elim (index_of d) [
    | none ↦ last_index first ds
    | some i ↦ last_index i ds
  ]

  is_at : Option ℕ → ℕ → Bool
  is_at none b = false
  is_at (some i) b = i == b

  -- What the last descriptor for BAR `b` makes of it.
  unfoldable pub bar_at : ℕ → PciBar → List Descriptor → PciBar
  unfolding is_at
  bar_at b first [] = first
  bar_at b first (d ∷ ds) = elim (resource d) [
    | none ↦ bar_at b first ds
    | some r ↦ bar_at b (if is_at (bar_index r.0) b then r.1 else first) ds
  ]

  scan_list-append :
      (l m : List Descriptor) (s : Scan)
      → scan_list bar_index (l ++ m) s ≡ scan_list bar_index m (scan_list bar_index l s)
  unfolding scan_list
  scan_list-append [] m s = refl
  scan_list-append (d ∷ l) m s = scan_list-append l m (scan_one bar_index d s)

  scan_all-flatten :
      (ls : List (List Descriptor)) (s : Scan)
      → scan_all bar_index ls s ≡ scan_list bar_index (flatten ls) s
  unfolding scan_all scan_list
  scan_all-flatten [] s = refl
  scan_all-flatten (l ∷ ls) s =
      scan_all-flatten ls (scan_list bar_index l s) ∙ sym (scan_list-append l (flatten ls) s)

  -- What one assignment does to the BARs.
  put_bar-at :
      (o : Option ℕ) (v first : PciBar) (b : ℕ) (s : Scan)
      → b < length s.bars
      → get_elem? s.bars b ≡ some first
      → get_elem? (put_bar o v s).bars b ≡ some (if is_at o b then v else first)
  unfolding is_at
  put_bar-at none v first b s h e = e
  put_bar-at (some i) v first b s h e = elim (Bool-cases (i == b)) [
    | inl q ↦
        let same : i ≡ b = (==_iff i b).0 q in rw q (rw same (get_elem?-set_self s.bars b v h))
    | inr q ↦ rw q (get_elem?-set_ne s.bars i b v (λ z. ground arith) ∙ e)
  ]

  length-put_bar :
      (o : Option ℕ) (v : PciBar) (s : Scan) → length (put_bar o v s).bars ≡ length s.bars
  length-put_bar none v s = refl
  length-put_bar (some i) v s = length-set s.bars i v

  found-put_bar :
      (o : Option ℕ) (v : PciBar) (s : Scan) → (put_bar o v s).interrupt_found ≡ s.interrupt_found
  found-put_bar none v s = refl
  found-put_bar (some i) v s = refl

  bar-put_bar : (o : Option ℕ) (v : PciBar) (s : Scan) → (put_bar o v s).bar ≡ o
  bar-put_bar none v s = refl
  bar-put_bar (some i) v s = refl

  -- The scan of a list of descriptors.
  record Scanned (ds : List Descriptor) (s t : Scan) : Type 0 where
    found : t.interrupt_found ≡ (s.interrupt_found || any_interrupt ds)
    index : t.bar ≡ last_index s.bar ds
    at :
        (b : ℕ) (first : PciBar)
        → b < length s.bars
        → get_elem? s.bars b ≡ some first
        → get_elem? t.bars b ≡ some (bar_at b first ds)

  skip :
      (d : Descriptor) (ds : List Descriptor) (s t : Scan)
      → resource d ≡ none
      → is_interrupt d ≡ false
      → Scanned ds s t
      → Scanned (d ∷ ds) s t
  unfolding bar_at
  skip d ds s t e i r = record {
    found = rw i r.found;
    index = rw (last_index, e) r.index;
    at = λ b f h k. rw (bar_at, e) (r.at b f h k);
  }

  scan_list_lem : (ds : List Descriptor) (s : Scan) → Scanned ds s (scan_list bar_index ds s)
  unfolding scan_list scan_one bar_at
  scan_list_lem [] s = record { found = ground arith; index = refl; at = λ b f h e. e }
  scan_list_lem (port start len is_io ∷ ds) s =
      let v = new_bar start len true (not is_io) in
      let r = scan_list_lem ds (put_bar (bar_index start) v s) in
      record {
        found = r.found ∙ ap (λ b. b || any_interrupt ds) (found-put_bar (bar_index start) v s);
        index = r.index ∙ ap (λ o. last_index o ds) (bar-put_bar (bar_index start) v s);
        at = λ b f h e.
            r.at b (if is_at (bar_index start) b then v else f)
              (omega (arith, length-put_bar (bar_index start) v s))
              (put_bar-at (bar_index start) v f b s h e);
      }
  scan_list_lem (interrupt flags ∷ ds) s =
      let r = scan_list_lem ds (record s { interrupt_flags = flags; interrupt_found = true }) in
      record { found = r.found ∙ ground arith; index = r.index; at = r.at }
  scan_list_lem (memory start len ∷ ds) s =
      let v = new_bar start len false true in
      let r = scan_list_lem ds (put_bar (bar_index start) v s) in
      record {
        found = r.found ∙ ap (λ b. b || any_interrupt ds) (found-put_bar (bar_index start) v s);
        index = r.index ∙ ap (λ o. last_index o ds) (bar-put_bar (bar_index start) v s);
        at = λ b f h e.
            r.at b (if is_at (bar_index start) b then v else f)
              (omega (arith, length-put_bar (bar_index start) v s))
              (put_bar-at (bar_index start) v f b s h e);
      }
  scan_list_lem (dma ∷ ds) s =
      skip dma ds s (scan_list bar_index ds s) refl refl (scan_list_lem ds s)
  scan_list_lem (device_specific ∷ ds) s =
      skip device_specific ds s (scan_list bar_index ds s) refl refl (scan_list_lem ds s)
  scan_list_lem (bus_number ∷ ds) s =
      skip bus_number ds s (scan_list bar_index ds s) refl refl (scan_list_lem ds s)
  scan_list_lem (other ∷ ds) s =
      skip other ds s (scan_list bar_index ds s) refl refl (scan_list_lem ds s)

  start-bars : (b : ℕ) → b < bar_count → get_elem? start_scan.bars b ≡ some empty_bar
  start-bars zero h = refl
  start-bars (suc zero) h = refl
  start-bars (suc (suc zero)) h = refl
  start-bars (suc (suc (suc zero))) h = refl
  start-bars (suc (suc (suc (suc zero)))) h = refl
  start-bars (suc (suc (suc (suc (suc zero))))) h = refl
  start-bars (suc (suc (suc (suc (suc (suc b)))))) h = absurd (omega arith)

  -- When the configuration is read in full, Init goes through the descriptors of all the lists, in
  -- their order. Each of the six BARs is then what the last descriptor for it makes of it, or empty;
  -- and Init succeeds if and only if there was an interrupt and the last resource of a BAR, of all
  -- of them, was found in the configuration.
  pub init_resources_lem :
      (lists : List (List Descriptor))
      → let (ok, t) = init_resources bar_index true 64 lists in
        (ok
          ≡ (is_found bar_index (last_index none (flatten lists)) && any_interrupt (flatten lists)))
        × ((b : ℕ) → b < bar_count → get_elem? t.bars b ≡ some (bar_at b empty_bar (flatten lists)))
  unfolding init_resources
  init_resources_lem lists =
      let r = scan_list_lem (flatten lists) start_scan in
      rw (scan_all-flatten lists start_scan, r.index, r.found)
        (refl, λ b h. r.at b empty_bar h (start-bars b h))
