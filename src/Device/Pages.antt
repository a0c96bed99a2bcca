-- ===== src/Device/Pages.antt =====
-- The memory of a VioGpuObj of viogpu/common/viogpu_queue.cpp: what VioGpuObj::Init allocates, and what
-- VioGpuObj::Close, which the destructor calls, gives back. The calls stand with the latest first.
use graphics_drivers_wip.Base.{
  ℕ, suc, ◌+◌, ◌≡◌, refl, Bool, true, false, Bool-cases, inl, inr, not, ◌&&◌, List, [], ◌∷◌, ◌==◌,
  if◌then◌else◌,
}
use graphics_drivers_wip.Device.{Answers}

pub data ObjCall : Type 0 where
  new_bytes delete_bytes : ObjCall
  allocate_mdl lock_pages unlock_pages free_mdl : ObjCall
  new_list delete_list : ObjCall

-- Which of m_pVAddr, m_pMdl and m_pSGList are not null.
pub record ObjMemory : Type 0 where
  v_addr : Bool
  mdl : Bool
  sg_list : Bool
  pub calls : List ObjCall

-- What Init leaves. When the pages cannot be locked, it frees the MDL, and keeps the pointer. (When
-- m_pSGList cannot be allocated, it goes on to write through the null pointer; its allocations up to there stand
-- here, and the fault is in `obj_init`.)
unfoldable pub obj_allocate : Answers → ObjMemory
obj_allocate a =
    if a.v_addr == 0
    then record { v_addr = false; mdl = false; sg_list = false; calls = [] }
    else if not a.mdl
    then record { v_addr = true; mdl = false; sg_list = false; calls = new_bytes ∷ [] }
    else if not a.locked
    then record {
      v_addr = true;
      mdl = true;
      sg_list = false;
      calls = free_mdl ∷ allocate_mdl ∷ new_bytes ∷ [];
    }
    else record {
      v_addr = true;
      mdl = true;
      sg_list = a.sg_list;
      calls =
          (if a.sg_list
            then new_list ∷ lock_pages ∷ allocate_mdl ∷ new_bytes ∷ []
            else lock_pages ∷ allocate_mdl ∷ new_bytes ∷ []);
    }

-- VioGpuObj::Close
unfoldable pub obj_close : ObjMemory → ObjMemory
obj_close o =
    let c₁ = if o.mdl then free_mdl ∷ unlock_pages ∷ o.calls else o.calls in
    let c₂ = if o.v_addr then delete_bytes ∷ c₁ else c₁ in
    record {
      v_addr = false;
      mdl = false;
      sg_list = false;
      calls = (if o.sg_list then delete_list ∷ c₂ else c₂);
    }

abbrev number : (ObjCall → Bool) → List ObjCall → ℕ
number f [] = 0
number f (c ∷ cs) = if f c then suc (number f cs) else number f cs

abbrev is_new_bytes : ObjCall → Bool
is_new_bytes new_bytes = true
is_new_bytes _ = false

abbrev is_delete_bytes : ObjCall → Bool
is_delete_bytes delete_bytes = true
is_delete_bytes _ = false

abbrev is_allocate_mdl : ObjCall → Bool
is_allocate_mdl allocate_mdl = true
is_allocate_mdl _ = false

abbrev is_free_mdl : ObjCall → Bool
is_free_mdl free_mdl = true
is_free_mdl _ = false

abbrev is_lock : ObjCall → Bool
is_lock lock_pages = true
is_lock _ = false

abbrev is_unlock : ObjCall → Bool
is_unlock unlock_pages = true
is_unlock _ = false

abbrev is_new_list : ObjCall → Bool
is_new_list new_list = true
is_new_list _ = false

abbrev is_delete_list : ObjCall → Bool
is_delete_list delete_list = true
is_delete_list _ = false

-- The calls of a new object that is closed, by how often its MDL is freed, and its pages unlocked, too often.
pub record Frees (n : ℕ) (cs : List ObjCall) : Type 0 where
  bytes : number is_new_bytes cs ≡ number is_delete_bytes cs
  lists : number is_new_list cs ≡ number is_delete_list cs
  mdls : number is_allocate_mdl cs + n ≡ number is_free_mdl cs
  locks : number is_lock cs + n ≡ number is_unlock cs

-- A new object that is closed gives back the memory, the list, the MDL and the lock that it has, once each;
-- but if its pages could not be locked, the MDL is freed twice, and pages are unlocked that were not locked.
pub obj_close-obj_allocate :
    (a : Answers)
    → Frees
        (if not (a.v_addr == 0) && (a.mdl && not a.locked) then 1 else 0)
        (obj_close (obj_allocate a)).calls
unfolding obj_close obj_allocate
obj_close-obj_allocate a = elim (Bool-cases (a.v_addr == 0)) [
  | inl z ↦ simp z (record { bytes = refl; lists = refl; mdls = refl; locks = refl })
  | inr n ↦ elim (Bool-cases a.mdl) [
    | inr m ↦ simp (n, m) (record { bytes = refl; lists = refl; mdls = refl; locks = refl })
    | inl m ↦ elim (Bool-cases a.locked) [
      | inr l ↦ simp (n, m, l) (record { bytes = refl; lists = refl; mdls = refl; locks = refl })
      | inl l ↦ elim (Bool-cases a.sg_list) [
        | inl g ↦
            simp (n, m, l, g) (record { bytes = refl; lists = refl; mdls = refl; locks = refl })
        | inr g ↦
            simp (n, m, l, g) (record { bytes = refl; lists = refl; mdls = refl; locks = refl })
      ]
    ]
  ]
]
