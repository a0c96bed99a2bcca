-- ===== src/Query/Examples.antt =====
-- An array of two descriptors, the second of which stays zeroed.
use graphics_drivers_wip.Base.{
  ℕ, ◌+◌, ◌-◌, ◌<◌, ◌≡◌, refl, none, some, List, [], ◌∷◌, Option, length, get_elem?, done, overrun,
  arith,
}
use graphics_drivers_wip.Query.{Child, child, query_child_relations}
use graphics_drivers_wip.Query.Children.{query_child_relations_lem}

abbrev zeroed : List (Option Child)
zeroed = none ∷ none ∷ []

abbrev room : ℕ
room = 2

query_child_relations_example :
    (0 < room
      → (ys : List (Option Child)) × (query_child_relations 0 room zeroed ≡ done ys)
        × (length ys ≡ room)
        × ((j : ℕ) → j + 1 < room → get_elem? ys j ≡ some (some (child 0 j)))
        × (get_elem? ys (room - 1) ≡ get_elem? zeroed (room - 1)))
    × (room ≡ 0 → query_child_relations 0 room zeroed ≡ overrun)
query_child_relations_example = query_child_relations_lem 0 room zeroed refl (omega arith)
