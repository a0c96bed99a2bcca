-- ===== src/Idr/Laws.antt =====
-- What the kernel documents of the bitmap calls, and what GetId and PutId of
-- viogpu/common/viogpu_idr.cpp do with them: the bitmap stands for a set of ids in use.
use graphics_drivers_wip.Base.{
  Option-cases, ℕ, ◌+◌, ◌≤◌, ◌<◌, ◌≡◌, refl, subst, ◌∙◌, ◌⊎◌, inl, inr, Bool, true, false, not,
  ◌&&◌, ◌||◌, some, List, [], ◌∷◌, arith, ltb, leb, ◌==◌, contains, without, Distinct,
  contains-without, without-Distinct,
}
use graphics_drivers_wip.Idr.{BitMapApi, bitmap_size, no_bits, Idr, init, get_id, put_id}

-- Bit `i` is one of the `count` bits from `start` on.
abbrev pub in_run : ℕ → ℕ → ℕ → Bool
in_run start count i = leb start i && ltb i (start + count)

module _ (api : BitMapApi) where
  open api use {
    BitMap, initialize, clear_all, set_bits, find_clear_bits_and_set, are_bits_set, clear_bits,
  }

  -- RtlFindClearBitsAndSet for one bit: it sets a clear bit and returns its index.
  pub record Found (size : BitMap → ℕ) (bit : BitMap → ℕ → Bool) (m : BitMap) (hint : ℕ)
      : Type 0 where
    pub below : (find_clear_bits_and_set m 1 hint).0 < size m
    pub was_clear : bit m (find_clear_bits_and_set m 1 hint).0 ≡ false
    pub same_size : size (find_clear_bits_and_set m 1 hint).1 ≡ size m
    pub now_set :
        (i : ℕ)
        → bit (find_clear_bits_and_set m 1 hint).1 i
          ≡ (i == (find_clear_bits_and_set m 1 hint).0 || bit m i)

  -- The documented behaviour of the calls, over the size and the bits of an RTL_BITMAP.
  pub record BitMapLaws : Type 0 where
    pub size : BitMap → ℕ
    pub bit : BitMap → ℕ → Bool
    pub size-initialize : (n : ℕ) → size (initialize n) ≡ n
    pub size-clear_all : (m : BitMap) → size (clear_all m) ≡ size m
    pub size-set_bits : (m : BitMap) (s c : ℕ) → size (set_bits m s c) ≡ size m
    pub size-clear_bits : (m : BitMap) (s c : ℕ) → size (clear_bits m s c) ≡ size m
    pub bit-clear_all : (m : BitMap) (i : ℕ) → i < size m → bit (clear_all m) i ≡ false
    pub bit-set_bits :
        (m : BitMap) (s c i : ℕ)
        → s + c ≤ size m
        → bit (set_bits m s c) i ≡ (in_run s c i || bit m i)
    pub bit-clear_bits :
        (m : BitMap) (s c i : ℕ)
        → s + c ≤ size m
        → bit (clear_bits m s c) i ≡ (not (in_run s c i) && bit m i)
    pub are_bits_set-one : (m : BitMap) (s : ℕ) → s < size m → are_bits_set m s 1 ≡ bit m s
    pub find-or_full :
        (m : BitMap) (hint : ℕ)
        → ((find_clear_bits_and_set m 1 hint ≡ (no_bits, m))
            × ((i : ℕ) → i < size m → bit m i ≡ true))
          ⊎ Found size bit m hint

module _ (api : BitMapApi) (laws : BitMapLaws api) where
  open api use {BitMap}
  open laws use {
    size, bit, size-initialize, size-clear_all, size-set_bits, size-clear_bits, bit-clear_all,
    bit-set_bits, bit-clear_bits, are_bits_set-one, find-or_full,
  }

  abbrev pub InRange : ℕ → List ℕ → Type 0
  InRange start [] = Unit {0}
  InRange start (x ∷ xs) = (start ≤ x) × (x < bitmap_size) × InRange start xs

  -- The bitmap marks the reserved ids, those below `start_index`, and the ids of the list, which
  -- are distinct and not reserved.
  pub record Represents (idr : Idr api) (ids : List ℕ) : Type 0 where
    pub map : BitMap
    pub has_map : idr.bit_map ≡ some map
    pub size_map : size map ≡ bitmap_size
    pub bits : (i : ℕ) → i < bitmap_size → bit map i ≡ (ltb i idr.start_index || contains ids i)
    pub distinct : Distinct ids
    pub in_range : InRange idr.start_index ids

  InRange-contains :
      (s i : ℕ) (ids : List ℕ) → InRange s ids → contains ids i ≡ true → (s ≤ i) × (i < bitmap_size)
  InRange-contains s i [] r h = cc
  InRange-contains s i (x ∷ xs) r h = ground (arith, InRange-contains s i xs r.2)

  InRange-without : (s a : ℕ) (ids : List ℕ) → InRange s ids → InRange s (without a ids)
  InRange-without s a [] r = tt
  InRange-without s a (x ∷ xs) r = ground (arith, InRange-without s a xs r.2)

  fresh_map : ℕ → BitMap
  fresh_map start = api.set_bits (api.clear_all (api.initialize bitmap_size)) 0 start

  size-fresh_map : (start : ℕ) → size (fresh_map start) ≡ bitmap_size
  unfolding fresh_map
  size-fresh_map start = rw (size-set_bits, size-clear_all, size-initialize)

  bit-fresh_map :
      (start i : ℕ) → start ≤ bitmap_size → i < bitmap_size → bit (fresh_map start) i ≡ ltb i start
  unfolding fresh_map
  bit-fresh_map start i h k =
      let m = api.clear_all (api.initialize bitmap_size) in
      let e : size m ≡ bitmap_size = size-clear_all _ ∙ size-initialize _ in
      ground (
        arith,
        bit-set_bits m 0 start i (omega (arith, e)),
        bit-clear_all (api.initialize bitmap_size) i (omega (arith, size-initialize bitmap_size)),
      )

  fresh_idr : ℕ → Idr api
  unfolding fresh_map
  fresh_idr start = record { start_index = start; bit_map = some (fresh_map start) }

  fresh_idr-Represents : (start : ℕ) → start ≤ bitmap_size → Represents (fresh_idr start) []
  unfolding fresh_idr
  fresh_idr-Represents start h = record {
    map = fresh_map start;
    has_map = refl;
    size_map = size-fresh_map start;
    bits = λ i k. ground (arith, bit-fresh_map start i h k);
    distinct = tt;
    in_range = tt;
  }

  -- A fresh generator has handed out no id.
  pub init-Represents :
      (start : ℕ) (idr : Idr api)
      → start ≤ bitmap_size
      → init api true start ≡ some (true, idr)
      → Represents idr [] × (idr.start_index ≡ start)
  unfolding init fresh_idr
  init-Represents start idr h e =
      let same : fresh_idr start ≡ idr = cc in
      (subst (λ g. Represents g []) same (fresh_idr-Represents start h), ground arith)

  get_id-some :
      (idr : Idr api) (m : BitMap)
      → idr.bit_map ≡ some m
      → get_id api idr ≡ (
        (api.find_clear_bits_and_set m 1 0).0,
        record idr { bit_map = some (api.find_clear_bits_and_set m 1 0).1 },
      )
  unfolding get_id
  get_id-some idr m e = rw (e, get_id)

  Found-Represents :
      (idr : Idr api) (ids : List ℕ) (r : Represents idr ids)
      → Found api size bit r.map 0
      → let id = (api.find_clear_bits_and_set r.map 1 0).0 in
        Represents
          (record idr { bit_map = some (api.find_clear_bits_and_set r.map 1 0).1 })
          (id ∷ ids)
  Found-Represents idr ids r f =
      let id = (api.find_clear_bits_and_set r.map 1 0).0 in
      record {
        map = (api.find_clear_bits_and_set r.map 1 0).1;
        has_map = refl;
        size_map = f.same_size ∙ r.size_map;
        bits = λ i h. ground (arith, f.now_set i, r.bits i h);
        distinct = ground (arith, f.was_clear, f.below, r.size_map, r.bits id, r.distinct);
        in_range = ground (arith, f.was_clear, f.below, r.size_map, r.bits id, r.in_range);
      }

  -- GetId hands out an id that is not reserved, lies in the bitmap and is not in use, and puts it
  -- in use; or every id is in use, and it returns the failure value and changes nothing.
  pub get_id_lem :
      (idr : Idr api) (ids : List ℕ)
      → Represents idr ids
      → ((get_id api idr ≡ (no_bits, idr))
          × ((i : ℕ) → i < bitmap_size → idr.start_index ≤ i → contains ids i ≡ true))
        ⊎ Represents (get_id api idr).1 ((get_id api idr).0 ∷ ids)
  get_id_lem idr ids r = elim (find-or_full r.map 0) [
    | inl (e, full) ↦ inl (
      get_id-some idr r.map r.has_map ∙ ground (arith, e, r.has_map),
      λ i h k. ground (arith, r.bits i h, full i, r.size_map),
    )
    | inr f ↦ inr (rw (get_id-some idr r.map r.has_map) (Found-Represents idr ids r f))
  ]

  put_id-some :
      (idr : Idr api) (id : ℕ) (m : BitMap)
      → idr.bit_map ≡ some m
      → put_id api id idr
        ≡ (record idr { bit_map = some (api.clear_bits m id 1) }, api.are_bits_set m id 1)
  unfolding put_id
  put_id-some idr id m e = rw (e, put_id)

  cleared-Represents :
      (idr : Idr api) (ids : List ℕ) (id : ℕ) (r : Represents idr ids)
      → contains ids id ≡ true
      → Represents (record idr { bit_map = some (api.clear_bits r.map id 1) }) (without id ids)
  cleared-Represents idr ids id r h =
      let range = InRange-contains idr.start_index id ids r.in_range h in
      record {
        map = api.clear_bits r.map id 1;
        has_map = refl;
        size_map = size-clear_bits r.map id 1 ∙ r.size_map;
        bits = λ i k. ground (
          arith,
          range,
          r.size_map,
          bit-clear_bits r.map id 1 i,
          r.bits i k,
          contains-without id ids i r.distinct,
        );
        distinct = without-Distinct id ids r.distinct;
        in_range = InRange-without idr.start_index id ids r.in_range;
      }

  -- PutId of an id in use takes it out of use, and nothing else; the check that the bit is set
  -- passes.
  pub put_id_lem :
      (idr : Idr api) (ids : List ℕ) (id : ℕ)
      → Represents idr ids
      → contains ids id ≡ true
      → Represents (put_id api id idr).0 (without id ids) × ((put_id api id idr).1 ≡ true)
  put_id_lem idr ids id r h =
      let range = InRange-contains idr.start_index id ids r.in_range h in
      rw (put_id-some idr id r.map r.has_map) (
        cleared-Represents idr ids id r h,
        ground (arith, range, r.size_map, are_bits_set-one r.map id, r.bits id),
      )

pub start_index-get_id :
    (api : BitMapApi) (idr : Idr api) → (get_id api idr).1.start_index ≡ idr.start_index
unfolding get_id
start_index-get_id api idr = elim (Option-cases idr.bit_map) [
  | inl e ↦ rw e refl
  | inr (m, e) ↦ rw e refl
]

pub start_index-put_id :
    (api : BitMapApi) (r : ℕ) (idr : Idr api) → (put_id api r idr).0.start_index ≡ idr.start_index
unfolding put_id
start_index-put_id api r idr = elim (Option-cases idr.bit_map) [
  | inl e ↦ rw e refl
  | inr (m, e) ↦ rw e refl
]
