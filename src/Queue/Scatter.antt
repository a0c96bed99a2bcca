-- ===== src/Queue/Scatter.antt =====
-- The scatter-gather list that QueueBufferLocked of viogpu/common/viogpu_queue.cpp makes: what the
-- device reaches through it, when it overruns its array, and when its loop does not end.
use graphics_drivers_wip.Base.{
  ℕ, zero, suc, ◌+◌, ◌-◌, ◌/◌, ◌%◌, ◌≤◌, ◌<◌, ◌≡◌, ◌≢◌, inl, inr, refl, ap, sym, ◌∙◌, true, false,
  Option, none, some, List, [], ◌∷◌, ◌++◌, ltb, ltb-false, ==_false, if◌then◌else◌, Bool-cases,
  page_size, length, done, overrun, out_of_fuel, ◌>>=◌, arith,
}
use mathlib.Core.List.{append_assoc, append-nil}
use graphics_drivers_wip.Queue.{
  Sg, SgList, MemoryApi, sg_size, min_page, build_sg_element, put_out, add_data,
}

-- The pages that a number of bytes takes up.
abbrev pub pages : ℕ → ℕ
pages size = (size + (page_size - 1)) / page_size

-- The physical address of byte `i` of what the list describes, as the device reads it.
abbrev pub dma : List Sg → ℕ → Option ℕ
dma [] i = none
dma (e ∷ es) i = if ltb i e.len then some (e.phys_addr + i) else dma es (i - e.len)

unfoldable pub total : List Sg → ℕ
total [] = 0
total (e ∷ es) = e.len + total es

pub dma-append_left : (es fs : List Sg) (i : ℕ) → i < total es → dma (es ++ fs) i ≡ dma es i
unfolding total
dma-append_left [] fs i h = absurd (omega arith)
dma-append_left (e ∷ es) fs i h = ground (arith, dma-append_left es fs (i - e.len))

pub dma-append_right : (es fs : List Sg) (i : ℕ) → dma (es ++ fs) (total es + i) ≡ dma fs i
unfolding total
dma-append_right [] fs i = ap (dma fs) (omega arith)
dma-append_right (e ∷ es) fs i =
    let back : e.len + total es + i - e.len ≡ total es + i = omega arith in
    rw (ltb-false (e.len + total es + i) e.len (omega arith), back) (dma-append_right es fs i)

pub total-append : (es fs : List Sg) → total (es ++ fs) ≡ total es + total fs
unfolding total
total-append [] fs = omega arith
total-append (e ∷ es) fs = omega (arith, total-append es fs)

-- Addresses are translated page by page.
pub record MemoryLaws (mem : MemoryApi) : Type 0 where
  pub contiguous :
      (p o : ℕ)
      → p % page_size ≡ 0
      → o < page_size
      → mem.get_physical_address (p + o) ≡ mem.get_physical_address p + o

module _ (mem : MemoryApi) where
  -- `n` pages from `buf` on can be read.
  abbrev pub ValidPages : ℕ → ℕ → Type 0
  ValidPages zero buf = Unit {0}
  ValidPages (suc n) buf = (mem.is_address_valid buf ≡ true) × ValidPages n (buf + page_size)

  unfoldable pub data_elems : ℕ → ℕ → ℕ → List Sg
  data_elems zero buf size = []
  data_elems (suc n) buf size =
      record { phys_addr = mem.get_physical_address buf; len = min_page size }
      ∷ data_elems n (buf + page_size) (size - min_page size)

  pub build_valid :
      (buf size : ℕ)
      → size ≢ 0
      → mem.is_address_valid buf ≡ true
      → build_sg_element mem buf size
        ≡ some (record { phys_addr = mem.get_physical_address buf; len = min_page size })
  unfolding build_sg_element
  build_valid buf size h v = rw (==_false size 0 h, v)

  pub length-data_elems : (n buf size : ℕ) → length (data_elems n buf size) ≡ n
  unfolding data_elems
  length-data_elems zero buf size = refl
  length-data_elems (suc n) buf size =
      ap suc (length-data_elems n (buf + page_size) (size - min_page size))

  pub total-data_elems : (n buf size : ℕ) → n ≡ pages size → total (data_elems n buf size) ≡ size
  unfolding data_elems total
  total-data_elems zero buf size e = omega arith
  total-data_elems (suc n) buf size e =
      ground (arith, total-data_elems n (buf + page_size) (size - min_page size))

  build_invalid :
      (buf size : ℕ) → mem.is_address_valid buf ≡ false → build_sg_element mem buf size ≡ none
  unfolding build_sg_element
  build_invalid buf size v = ground arith

  abbrev pub element : ℕ → ℕ → Sg
  element buf size = record { phys_addr = mem.get_physical_address buf; len = min_page size }

  -- The rounds of the loop.
  add_data-end : (fuel buf : ℕ) (l : SgList) → add_data mem (suc fuel) buf 0 l ≡ done l
  unfolding add_data
  add_data-end fuel buf l = refl

  add_data-round :
      (fuel buf size : ℕ) (l : SgList)
      → size ≢ 0
      → mem.is_address_valid buf ≡ true
      → add_data mem (suc fuel) buf size l ≡ (
          put_out mem (element buf size) l >>= λ l'.
          add_data mem fuel (buf + page_size) (size - min_page size) l')
  unfolding add_data
  add_data-round fuel buf size l h v = rw (==_false size 0 h, v)

  add_data-again :
      (fuel buf size : ℕ) (l : SgList)
      → size ≢ 0
      → mem.is_address_valid buf ≡ false
      → add_data mem (suc fuel) buf size l ≡ add_data mem fuel buf size l
  unfolding add_data
  add_data-again fuel buf size l h v = rw (==_false size 0 h, v)

  -- With room in the array and pages that can be read, the loop ends and describes every page.
  pub add_data_fits :
      (n fuel buf size : ℕ) (l : SgList)
      → n ≡ pages size
      → n < fuel
      → l.outcnt + l.incnt + n ≤ sg_size
      → ValidPages n buf
      → add_data mem fuel buf size l
        ≡ done (record l { elems = l.elems ++ data_elems n buf size; outcnt = l.outcnt + n })
  unfolding data_elems
  add_data_fits n zero buf size l e f room v = absurd (omega arith)
  add_data_fits zero (suc fuel) buf size l e f room v =
      let z : size ≡ 0 = omega arith in
      rw z (add_data-end fuel buf l ∙ ground (arith, append-nil l.elems))
  add_data_fits (suc n) (suc fuel) buf size l e f room v =
      let nonzero : size ≢ 0 = omega arith in
      let here : ltb (l.outcnt + l.incnt) sg_size ≡ true = ground arith in
      let rest =
        add_data_fits n fuel (buf + page_size) (size - min_page size)
          (record l { elems = l.elems ++ (element buf size ∷ []); outcnt = l.outcnt + 1 })
          (ground arith) (omega arith) (omega arith) v.1 in
      add_data-round fuel buf size l nonzero v.0
      ∙ rw here (
          rest
          ∙ ground (
            arith,
            append_assoc l.elems (element buf size ∷ [])
                (data_elems n (buf + page_size) (size - min_page size)),
          ))

  -- With more pages than there is room for, the loop writes past the end of the array.
  pub add_data_overruns :
      (n fuel buf size : ℕ) (l : SgList)
      → n ≡ pages size
      → n < fuel
      → l.outcnt + l.incnt ≤ sg_size
      → sg_size < l.outcnt + l.incnt + n
      → ValidPages n buf
      → add_data mem fuel buf size l ≡ overrun
  add_data_overruns n zero buf size l e f room over v = absurd (omega arith)
  add_data_overruns zero (suc fuel) buf size l e f room over v = absurd (omega arith)
  add_data_overruns (suc n) (suc fuel) buf size l e f room over v =
      let nonzero : size ≢ 0 = omega arith in
      add_data-round fuel buf size l nonzero v.0
      ∙ elim (Bool-cases (ltb (l.outcnt + l.incnt) sg_size)) [
        | inl here ↦ rw here (
            add_data_overruns n fuel (buf + page_size) (size - min_page size)
              (record l { elems = l.elems ++ (element buf size ∷ []); outcnt = l.outcnt + 1 })
              (ground arith) (omega arith) (ground arith) (omega arith) v.1)
        | inr full ↦ rw full
      ]

  -- If the data cannot be read at its address, the loop changes nothing, and no number of rounds is
  -- enough for it to end.
  pub add_data_hangs :
      (fuel buf size : ℕ) (l : SgList)
      → size ≢ 0
      → mem.is_address_valid buf ≡ false
      → add_data mem fuel buf size l ≡ out_of_fuel
  unfolding add_data
  add_data_hangs zero buf size l h v = refl
  add_data_hangs (suc fuel) buf size l h v =
      add_data-again fuel buf size l h v ∙ add_data_hangs fuel buf size l h v

  -- Page by page the device reads the bytes of the data, wherever the pages are.
  pub dma-data_elems :
      (laws : MemoryLaws mem) (n buf size i : ℕ)
      → n ≡ pages size
      → buf % page_size ≡ 0
      → i < size
      → dma (data_elems n buf size) i ≡ some (mem.get_physical_address (buf + i))
  unfolding data_elems
  dma-data_elems laws zero buf size i e al h = absurd (omega arith)
  dma-data_elems laws (suc n) buf size i e al h = elim (Bool-cases (ltb i (min_page size))) [
    | inl first ↦ rw first (ap some (sym (laws.contiguous buf i al (ground arith))))
    | inr later ↦
        let at : buf + page_size + (i - min_page size) ≡ buf + i = ground arith in
        rw later (
          dma-data_elems laws n (buf + page_size) (size - min_page size) (i - min_page size)
            (ground arith) (omega arith) (ground arith)
          ∙ ap (λ a. some (mem.get_physical_address a)) at)
  ]
