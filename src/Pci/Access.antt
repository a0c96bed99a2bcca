-- ===== src/Pci/Access.antt =====
-- The addresses that CPciResources of viogpu/common/viogpu_pci.cpp gives for the registers of a BAR, how
-- the registers are then accessed, and what is mapped and unmapped on the way.
use graphics_drivers_wip.Base.{
  ◌∙◌, inl, inr, Bool-cases, ==_false, ℕ, ◌+◌, ◌%◌, ◌^◌, ◌≤◌, ◌<◌, ◌≡◌, ◌≢◌, refl, not, Bool, true,
  false, List, [], ◌∷◌, ◌++◌, ltb_iff, ◌==◌, if◌then◌else◌, arith,
}
use graphics_drivers_wip.Pci.{
  BusApi, is_memory, read_virtio_device_register, write_virtio_device_register,
  read_virtio_device_byte, write_virtio_device_byte, read_virtio_device_word,
  write_virtio_device_word, new_bar, Call, map_memory, unmap_memory, get_va, unmap, unmap_bars,
  PciBar, get_mapped_address,
}

-- How the six functions access an address.
pub record ByPort (api : BusApi) (a : ℕ) : Type 0 where
  pub bytes : (b : api.Bus) → read_virtio_device_byte api a b ≡ api.read_port 1 a b
  pub words : (b : api.Bus) → read_virtio_device_word api a b ≡ api.read_port 2 a b
  pub registers : (b : api.Bus) → read_virtio_device_register api a b ≡ api.read_port 4 a b
  pub put_bytes :
      (v : ℕ) (b : api.Bus) → write_virtio_device_byte api a v b ≡ api.write_port 1 a v b
  pub put_words :
      (v : ℕ) (b : api.Bus) → write_virtio_device_word api a v b ≡ api.write_port 2 a v b
  pub put_registers :
      (v : ℕ) (b : api.Bus) → write_virtio_device_register api a v b ≡ api.write_port 4 a v b

pub record ByMemory (api : BusApi) (a : ℕ) : Type 0 where
  pub bytes : (b : api.Bus) → read_virtio_device_byte api a b ≡ api.read_register 1 a b
  pub words : (b : api.Bus) → read_virtio_device_word api a b ≡ api.read_register 2 a b
  pub registers : (b : api.Bus) → read_virtio_device_register api a b ≡ api.read_register 4 a b
  pub put_bytes :
      (v : ℕ) (b : api.Bus) → write_virtio_device_byte api a v b ≡ api.write_register 1 a v b
  pub put_words :
      (v : ℕ) (b : api.Bus) → write_virtio_device_word api a v b ≡ api.write_register 2 a v b
  pub put_registers :
      (v : ℕ) (b : api.Bus) → write_virtio_device_register api a v b ≡ api.write_register 4 a v b

by_port : (api : BusApi) (a : ℕ) → is_memory a ≡ false → ByPort api a
unfolding read_virtio_device_register write_virtio_device_register read_virtio_device_byte
    write_virtio_device_byte read_virtio_device_word write_virtio_device_word
by_port api a e = record {
  bytes = λ b. rw e refl;
  words = λ b. rw e refl;
  registers = λ b. rw e refl;
  put_bytes = λ v b. rw e refl;
  put_words = λ v b. rw e refl;
  put_registers = λ v b. rw e refl;
}

by_memory : (api : BusApi) (a : ℕ) → is_memory a ≡ true → ByMemory api a
unfolding read_virtio_device_register write_virtio_device_register read_virtio_device_byte
    write_virtio_device_byte read_virtio_device_word write_virtio_device_word
by_memory api a e = record {
  bytes = λ b. rw e refl;
  words = λ b. rw e refl;
  registers = λ b. rw e refl;
  put_bytes = λ v b. rw e refl;
  put_words = λ v b. rw e refl;
  put_registers = λ v b. rw e refl;
}

-- A register of a BAR of ports that is not mapped yet, with its ports among the first 2 ^ 16: its
-- address is that of the port, nothing is mapped, and all accesses are by port instructions.
get_mapped_address-port :
    (api : BusApi) (mapped_at : ℕ → ℕ) (pa size offset : ℕ) (calls : List Call)
    → pa ≢ 0
    → pa + size ≤ 2 ^ 16
    → offset < size
    → let bar = new_bar pa size true false in
      let (a, b, c) = get_mapped_address mapped_at bar offset calls in
      (a ≡ pa + offset) × (c ≡ calls) × ByPort api a
unfolding get_mapped_address
get_mapped_address-port api mapped_at pa size offset calls n fits inside =
    let sum : (pa % 2 ^ 32 + offset) % 2 ^ 64 ≡ pa + offset = omega arith in
    let low : is_memory (pa + offset) ≡ false = ground arith in
    rw ((ltb_iff offset size).1 inside, ==_false pa 0 n, sum)
      (refl, refl, by_port api (pa + offset) low)

-- A register of a BAR of memory that is not mapped yet and that the kernel maps above the first
-- 2 ^ 16 addresses: the BAR is mapped as memory, once, the register's address is that offset
-- there, and all accesses are by memory instructions.
pub get_mapped_address-memory :
    (api : BusApi) (mapped_at : ℕ → ℕ) (pa size offset : ℕ) (calls : List Call)
    → 2 ^ 16 ≤ mapped_at pa
    → mapped_at pa + size ≤ 2 ^ 64
    → offset < size
    → let bar = new_bar pa size false true in
      let (a, b, c) = get_mapped_address mapped_at bar offset calls in
      (a ≡ mapped_at pa + offset)
      × (c ≡ calls ++ (map_memory pa size false ∷ []))
      × ByMemory api a
      × (get_mapped_address mapped_at b offset c ≡ (a, b, c))
unfolding get_mapped_address
get_mapped_address-memory api mapped_at pa size offset calls high fits inside =
    let sum : (mapped_at pa + offset) % 2 ^ 64 ≡ mapped_at pa + offset = omega arith in
    let n : (mapped_at pa == 0) ≡ false = ==_false (mapped_at pa) 0 (λ e. omega (arith, e)) in
    let up : is_memory (mapped_at pa + offset) ≡ true = ground arith in
    rw ((ltb_iff offset size).1 inside, n, sum)
      (
        refl,
        refl,
        by_memory api (mapped_at pa + offset) up,
        rw ((ltb_iff offset size).1 inside, n, n, sum) refl,
      )

-- Unmap after GetVA, on a BAR that is not mapped yet and that the kernel can map, leaves the BAR as
-- it was. But a BAR of memory stays mapped in the kernel, and for a BAR of ports in the I/O
-- space, which GetVA does not map, an address is unmapped that was never mapped.
unmap-get_va :
    (mapped_at : ℕ → ℕ) (pa size : ℕ) (is_port : Bool) (calls : List Call)
    → pa ≢ 0
    → mapped_at pa ≢ 0
    → let bar = new_bar pa size is_port (not is_port) in
      let (b, c) = get_va mapped_at bar calls in
      unmap mapped_at b c ≡ (
        bar,
        if is_port
            then calls ++ (unmap_memory pa ∷ [])
            else calls ++ (map_memory pa size false ∷ []),
      )
unfolding get_va unmap
unmap-get_va mapped_at pa size true calls n m = rw (==_false pa 0 n) refl
unmap-get_va mapped_at pa size false calls n m = rw (==_false (mapped_at pa) 0 m) refl

AllIoMapped : List PciBar → Type 0
AllIoMapped [] = Unit
AllIoMapped (bar ∷ bars) = (bar.is_io_mapped ≡ true) × AllIoMapped bars

unmap-calls :
    (mapped_at : ℕ → ℕ) (bar : PciBar) (calls : List Call)
    → bar.is_io_mapped ≡ true
    → (unmap mapped_at bar calls).1 ≡ calls
unfolding unmap
unmap-calls mapped_at bar calls h = elim (Bool-cases (bar.base_va == 0)) [
  | inl z ↦ rw z refl
  | inr n ↦ rw (n, h) refl
]

-- If every BAR is marked as mapped, as BARs of memory are, the destructor unmaps none of them.
unmap_bars-calls :
    (mapped_at : ℕ → ℕ) (bars : List PciBar) (calls : List Call)
    → AllIoMapped bars
    → (unmap_bars mapped_at bars calls).1 ≡ calls
unfolding unmap_bars AllIoMapped
unmap_bars-calls mapped_at [] calls h = refl
unmap_bars-calls mapped_at (bar ∷ bars) calls (m, h) =
    unmap_bars-calls mapped_at bars (unmap mapped_at bar calls).1 h
    ∙ unmap-calls mapped_at bar calls m
