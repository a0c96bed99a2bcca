-- ===== src/Pci.antt =====
-- viogpu/common/viogpu_pci.cpp: the PCI resources of the device, CPciBar and CPciResources, and the
-- access to its registers. The kernel's calls are recorded in the order of the calls.
pub mod Access
pub mod Resources
mod Examples
use graphics_drivers_wip.Base.{
  ℕ, zero, suc, ◌+◌, ◌/◌, ◌%◌, ◌^◌, ◌&&◌, not, Bool, true, false, Option, none, some, List, [], ◌∷◌,
  ◌++◌, ltb, ◌==◌, if◌then◌else◌, u32, add_uint, set, get_elem?,
}

-- The registers of virtio are reached by READ_PORT and WRITE_PORT, or by READ_REGISTER and
-- WRITE_REGISTER, for 1, 2 or 4 bytes at an address.
pub record BusApi : Type 1 where
  pub Bus : Type 0
  pub read_port : ℕ → ℕ → Bus → ℕ × Bus
  pub write_port : ℕ → ℕ → ℕ → Bus → Bus
  pub read_register : ℕ → ℕ → Bus → ℕ × Bus
  pub write_register : ℕ → ℕ → ℕ → Bus → Bus

-- ulRegister & ~PORT_MASK
abbrev pub is_memory : ℕ → Bool
is_memory register = not (register / 2 ^ 16 == 0)

module _ (api : BusApi) where
  open api use {Bus, read_port, write_port, read_register, write_register}

  unfoldable pub read_virtio_device_register : ℕ → Bus → ℕ × Bus
  read_virtio_device_register a b = if is_memory a then read_register 4 a b else read_port 4 a b

  unfoldable pub write_virtio_device_register : ℕ → ℕ → Bus → Bus
  write_virtio_device_register a v b =
      if is_memory a then write_register 4 a v b else write_port 4 a v b

  unfoldable pub read_virtio_device_byte : ℕ → Bus → ℕ × Bus
  read_virtio_device_byte a b = if is_memory a then read_register 1 a b else read_port 1 a b

  unfoldable pub write_virtio_device_byte : ℕ → ℕ → Bus → Bus
  write_virtio_device_byte a v b =
      if is_memory a then write_register 1 a v b else write_port 1 a v b

  unfoldable pub read_virtio_device_word : ℕ → Bus → ℕ × Bus
  read_virtio_device_word a b = if is_memory a then read_register 2 a b else read_port 2 a b

  unfoldable pub write_virtio_device_word : ℕ → ℕ → Bus → Bus
  write_virtio_device_word a v b =
      if is_memory a then write_register 2 a v b else write_port 2 a v b

-- PCIReadConfig on what DxgkCbReadDeviceSpace answers: whether it succeeded, and the bytes read. The
-- result is 0 for a success; `false` stands for -1.
unfoldable pub pci_read_config : Bool → ℕ → ℕ → Bool
pci_read_config status bytes_read len = if not status then false else bytes_read == len

pub record PciBar : Type 0 where
  pub base_pa : ℕ
  pub size : ℕ
  pub base_va : ℕ
  pub is_port_space : Bool
  pub is_io_mapped : Bool

-- CPciBar(BasePA, uSize, bPortSpace, bIoMapped)
abbrev pub new_bar : ℕ → ℕ → Bool → Bool → PciBar
new_bar pa size port io = record {
  base_pa = pa;
  size = size;
  base_va = 0;
  is_port_space = port;
  is_io_mapped = io;
}

-- DxgkCbMapMemory, for a port or for memory, and DxgkCbUnmapMemory.
pub data Call : Type 0 where
  map_memory : (pa size : ℕ) (in_io_space : Bool) → Call
  unmap_memory : (va : ℕ) → Call

module _ (mapped_at : ℕ → ℕ) where
  -- `mapped_at` gives the address at which the kernel maps a physical address, 0 for a failure.
  unfoldable pub get_va : PciBar → List Call → PciBar × List Call
  get_va bar calls =
      if not (bar.base_va == 0)
      then (bar, calls)
      else if bar.is_port_space && not bar.is_io_mapped
      then (record bar { base_va = bar.base_pa }, calls)
      else (
        record bar { base_va = mapped_at bar.base_pa },
        calls ++ (map_memory bar.base_pa bar.size bar.is_port_space ∷ []),
      )

  unfoldable pub unmap : PciBar → List Call → PciBar × List Call
  unmap bar calls = (
    record bar { base_va = 0 },
    if not (bar.base_va == 0) && not bar.is_io_mapped
        then calls ++ (unmap_memory bar.base_va ∷ [])
        else calls,
  )

  -- ~CPciResources
  unfoldable pub unmap_bars : List PciBar → List Call → List PciBar × List Call
  unfolding unmap
  unmap_bars [] calls = ([], calls)
  unmap_bars (bar ∷ bars) calls =
      let (b, c) = unmap bar calls in let (rest, d) = unmap_bars bars c in (b ∷ rest, d)

  -- CPciResources::GetMappedAddress on one of its BARs, with the BAR as it is left; the address 0 is
  -- a null pointer.
  unfoldable pub get_mapped_address : PciBar → ℕ → List Call → ℕ × PciBar × List Call
  unfolding get_va
  get_mapped_address bar offset calls =
      if ltb offset bar.size
      then (let (b, c) = get_va bar calls in
          if b.base_va == 0
          then (0, b, c)
          else (add_uint (if b.is_port_space then u32 b.base_pa else b.base_va) offset, b, c))
      else (0, bar, calls)

-- CM_PARTIAL_RESOURCE_DESCRIPTOR; for a port, the flag CM_RESOURCE_PORT_IO.
pub data Descriptor : Type 0 where
  port : (start len : ℕ) (is_io : Bool) → Descriptor
  interrupt : (flags : ℕ) → Descriptor
  memory : (start len : ℕ) → Descriptor
  dma device_specific bus_number other : Descriptor

-- What the loops of CPciResources::Init change; `bar` is the local variable, `none` while negative.
pub record Scan : Type 0 where
  pub bars : List PciBar
  pub interrupt_flags : ℕ
  pub interrupt_found : Bool
  pub bar : Option ℕ

-- PCI_TYPE0_ADDRESSES
abbrev pub bar_count : ℕ
bar_count = 6

abbrev pub empty_bar : PciBar
empty_bar = new_bar 0 0 false true

abbrev pub start_scan : Scan
start_scan = record {
  bars = empty_bar ∷ empty_bar ∷ empty_bar ∷ empty_bar ∷ empty_bar ∷ empty_bar ∷ [];
  interrupt_flags = 0;
  interrupt_found = false;
  bar = none;
}

-- An assignment to m_Bars[bar], if the index is not negative.
abbrev pub put_bar : Option ℕ → PciBar → Scan → Scan
put_bar none b s = record s { bar = none }
put_bar (some i) b s = record s { bar = some i; bars = set s.bars i b }

module _ (bar_index : ℕ → Option ℕ) where
  -- `bar_index` is virtio_get_bar_index on the device's configuration.
  unfoldable pub scan_one : Descriptor → Scan → Scan
  scan_one (port start len is_io) s =
      put_bar (bar_index start) (new_bar start len true (not is_io)) s
  scan_one (interrupt flags) s = record s { interrupt_flags = flags; interrupt_found = true }
  scan_one (memory start len) s = put_bar (bar_index start) (new_bar start len false true) s
  scan_one _ s = s

  unfoldable pub scan_list : List Descriptor → Scan → Scan
  unfolding scan_one
  scan_list [] s = s
  scan_list (d ∷ ds) s = scan_list ds (scan_one d s)

  unfoldable pub scan_all : List (List Descriptor) → Scan → Scan
  unfolding scan_list
  scan_all [] s = s
  scan_all (l ∷ ls) s = scan_all ls (scan_list l s)

  abbrev pub is_found : Option ℕ → Bool
  is_found none = false
  is_found (some i) = true

  -- CPciResources::Init, with the answer to DxgkCbReadDeviceSpace; a PCI_COMMON_HEADER has 64 bytes.
  unfoldable pub init_resources : Bool → ℕ → List (List Descriptor) → Bool × Scan
  unfolding scan_all
  init_resources status bytes_read lists =
      if not status
      then (false, start_scan)
      else if not (bytes_read == 64)
      then (false, start_scan)
      else (let s = scan_all lists start_scan in (is_found s.bar && s.interrupt_found, s))
