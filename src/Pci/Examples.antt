-- ===== src/Pci/Examples.antt =====
-- The theorems about viogpu/common/viogpu_pci.cpp on a bus that answers with the address, and a device
-- with a BAR of ports and one of memory.
use graphics_drivers_wip.Base.{
  ℕ, ◌+◌, ◌<◌, ◌≡◌, refl, true, false, ◌&&◌, Option, none, some, List, [], ◌∷◌, ◌++◌, get_elem?,
  if◌then◌else◌, ◌==◌, arith,
}
use graphics_drivers_wip.Pci.{
  BusApi, new_bar, empty_bar, map_memory, get_mapped_address, Descriptor, port, interrupt, memory,
  bar_count, is_found, init_resources,
}
use graphics_drivers_wip.Pci.Access.{ByMemory, get_mapped_address-memory}
use graphics_drivers_wip.Pci.Resources.{
  flatten, any_interrupt, last_index, bar_at, init_resources_lem,
}

abbrev echo_bus : BusApi
echo_bus = record {
  Bus = ℕ;
  read_port = λ w a b. (a, b);
  write_port = λ w a v b. b;
  read_register = λ w a b. (a, b);
  write_register = λ w a v b. b;
}

abbrev high : ℕ → ℕ
high pa = 0x100000000 + pa

get_mapped_address-memory_example :
    let bar = new_bar 0xfe000000 4096 false true in
    let (a, b, c) = get_mapped_address high bar 20 [] in
    (a ≡ high 0xfe000000 + 20)
    × (c ≡ [] ++ (map_memory 0xfe000000 4096 false ∷ []))
    × ByMemory echo_bus a
    × (get_mapped_address high b 20 c ≡ (a, b, c))
get_mapped_address-memory_example =
    get_mapped_address-memory echo_bus high 0xfe000000 4096 20 [] (omega arith) (omega arith)
      (omega arith)

-- The configuration has the ports at BAR 0 and the memory at BAR 4.
abbrev config : ℕ → Option ℕ
config start = if start == 0xc000 then some 0 else if start == 0xfe000000 then some 4 else none

abbrev found : List (List Descriptor)
found = (port 0xc000 64 true ∷ interrupt 0 ∷ []) ∷ (memory 0xfe000000 4096 ∷ []) ∷ []

init_found : (init_resources config true 64 found).0 ≡ true
unfolding init_resources
init_found = refl

-- The same device with a resource that is no BAR at the end.
init_lost :
    (init_resources config true 64 (found ++ ((memory 0xa0000 0x20000 ∷ []) ∷ []))).0 ≡ false
unfolding init_resources
init_lost = refl

init_resources_example :
    let (ok, t) = init_resources config true 64 found in
    (ok
      ≡ (is_found config (last_index config none (flatten found)) && any_interrupt (flatten found)))
    × ((b : ℕ)
        → b < bar_count
        → get_elem? t.bars b ≡ some (bar_at config b empty_bar (flatten found)))
init_resources_example = init_resources_lem config found
