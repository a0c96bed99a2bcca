-- ===== src/Device/Sync.antt =====
-- The ids, the host's resources and the objects of GpuDevice in viogpu/viogpudo/viogpudo.cpp stay in
-- step, whatever fails on the way.
use graphics_drivers_wip.Base.{
  not, ◌&&◌, ==_false, ℕ, ◌+◌, ◌≤◌, ◌<◌, ◌≡◌, ◌≢◌, inl, inr, refl, ap, ◌∙◌, true, false, ◌||◌,
  Option, none, some, List, ◌∷◌, ◌==◌, contains, without, contains-without, without-Distinct,
  length-without, Distinct, zero, suc, done, length, arith,
}
use graphics_drivers_wip.Idr.{BitMapApi, Idr, get_id, no_bits, bitmap_size}
use graphics_drivers_wip.Idr.Laws.{BitMapLaws, Represents, get_id_lem, start_index-get_id}
use graphics_drivers_wip.Queue.Command.{create, attach}
use graphics_drivers_wip.Device.{
  CtrlQueueApi, Answers, Obj, Gpu, obj_init, new_object, delete_failed,
}
use graphics_drivers_wip.Device.Host.{
  Host, with_resource, with_backing, host_step, QueueLaws, Reaches, Reaches-less, post-Reaches,
  post-plain,
}

-- An object's id is in use, and its resource has memory.
abbrev pub Holds : List ℕ → Host → Option Obj → Type 0
Holds ids h none = Unit {0}
Holds ids h (some o) = (contains ids o.hw_res ≡ true) × (h.is_backed o.hw_res ≡ true)

abbrev pub Separate : Option Obj → Option Obj → Type 0
Separate none p = Unit {0}
Separate (some o) none = Unit {0}
Separate (some o) (some p) = o.hw_res ≢ p.hw_res

-- As many distinct numbers from 1 on as stand in a list of distinct numbers are no more than its length.
pigeonhole :
    (n : ℕ) (ids : List ℕ)
    → Distinct ids
    → ((i : ℕ) → 1 ≤ i → i < suc n → contains ids i ≡ true)
    → n ≤ length ids
pigeonhole zero ids d all = omega arith
pigeonhole (suc n) ids d all =
    let here = all (suc n) (omega arith) (omega arith) in
    let rest = pigeonhole n (without (suc n) ids) (without-Distinct (suc n) ids d) (λ i l k.
      contains-without (suc n) ids i d
      ∙ rw (==_false i (suc n) (λ e. omega (arith, e)), all i l (omega arith)) refl) in
    omega (arith, rest, length-without (suc n) ids here)

module _ (api : BitMapApi) (maps : BitMapLaws api) (queue : CtrlQueueApi)
    (laws : QueueLaws queue) where
  -- The host has accepted every command; the resources that it has are those with an id in use;
  -- the frame buffer and the cursor are two of them, with memory; and the queue takes the next `n` commands.
  pub record IsSynced (n : ℕ) (g : Gpu api queue) (ids : List ℕ) (h : Host) : Type 0 where
    pub ids_in_use : Represents api maps g.idr ids
    pub reserved : g.idr.start_index ≡ 1
    pub accepted : Reaches queue laws n g.ctrl h
    pub resources : (r : ℕ) → h.is_created r ≡ contains ids r
    pub frame : Holds ids h g.frame_buf
    pub cursor : Holds ids h g.cursor_buf
    pub separate : Separate g.frame_buf g.cursor_buf

  pub IsSynced-less :
      (n : ℕ) (g : Gpu api queue) (ids : List ℕ) (h : Host)
      → IsSynced (suc n) g ids h
      → IsSynced n g ids h
  IsSynced-less n g ids h s = record {
    ids_in_use = s.ids_in_use;
    reserved = s.reserved;
    accepted = Reaches-less queue laws n g.ctrl h s.accepted;
    resources = s.resources;
    frame = s.frame;
    cursor = s.cursor;
    separate = s.separate;
  }

  -- Some id is free.
  abbrev pub HasFreeId : Gpu api queue → Type 0
  HasFreeId g = (get_id api g.idr).0 ≢ no_bits

  -- With fewer ids in use than there are, one is free.
  pub free_id :
      (n : ℕ) (g : Gpu api queue) (ids : List ℕ) (h : Host)
      → IsSynced n g ids h
      → length ids + 1 < bitmap_size
      → HasFreeId g
  free_id n g ids h s few e = elim (get_id_lem api maps g.idr ids s.ids_in_use) [
    | inl (same, full) ↦
        let most =
          pigeonhole 32767 ids s.ids_in_use.distinct
            (λ i l k. full i (omega arith) (omega (arith, s.reserved))) in
        omega (arith, most, few)
    | inr r ↦ omega (arith, r.in_range.1, e)
  ]

  -- What GetId gives if an id is free.
  record IsFresh (g : Gpu api queue) (ids : List ℕ) (h : Host) (r : ℕ) : Type 0 where
    now_in_use : Represents api maps (get_id api g.idr).1 (r ∷ ids)
    nonzero : r ≢ 0
    unused : contains ids r ≡ false
    unknown : h.is_created r ≡ false
    reserved : (get_id api g.idr).1.start_index ≡ 1

  fresh :
      (n : ℕ) (g : Gpu api queue) (ids : List ℕ) (h : Host)
      → IsSynced n g ids h
      → HasFreeId g
      → IsFresh g ids h (get_id api g.idr).0
  fresh n g ids h s free = elim (get_id_lem api maps g.idr ids s.ids_in_use) [
    | inl (e, full) ↦ absurd (free (ap (λ (p : ℕ × Idr api). p.0) e))
    | inr r ↦ record {
      now_in_use = r;
      nonzero = λ z. omega (arith, z, r.in_range.0, s.reserved, start_index-get_id api g.idr);
      unused = r.distinct.0;
      unknown = s.resources (get_id api g.idr).0 ∙ r.distinct.0;
      reserved = start_index-get_id api g.idr ∙ s.reserved;
    }
  ]

  Holds-created :
      (r : ℕ) (ids : List ℕ) (h : Host) (o : Option Obj)
      → contains ids r ≡ false
      → Holds ids h o
      → Holds (r ∷ ids) (with_resource r h) o
  Holds-created r ids h none u k = tt
  Holds-created r ids h (some o) u k = (ground arith, ground arith)

  Holds-backed :
      (r : ℕ) (ids : List ℕ) (h : Host) (o : Option Obj)
      → Holds ids h o
      → Holds ids (with_backing r h) o
  Holds-backed r ids h none k = tt
  Holds-backed r ids h (some o) k = (k.0, ground arith)

  -- The state once the id and the resource are there.
  abbrev pub taken : Gpu api queue → queue.Queue → Gpu api queue
  taken g q = record g { idr = (get_id api g.idr).1; ctrl = q }

  abbrev new_id : Gpu api queue → ℕ
  new_id g = (get_id api g.idr).0

  taken-IsSynced :
      (n m : ℕ) (g : Gpu api queue) (ids : List ℕ) (h : Host) (q : queue.Queue)
      → IsSynced n g ids h
      → IsFresh g ids h (new_id g)
      → Reaches queue laws m q (with_resource (new_id g) h)
      → IsSynced m (taken g q) (new_id g ∷ ids) (with_resource (new_id g) h)
  taken-IsSynced n m g ids h q s f a = record {
    ids_in_use = f.now_in_use;
    reserved = f.reserved;
    accepted = a;
    resources = λ x. ap (λ b. x == new_id g || b) (s.resources x);
    frame = Holds-created (new_id g) ids h g.frame_buf f.unused s.frame;
    cursor = Holds-created (new_id g) ids h g.cursor_buf f.unused s.cursor;
    separate = s.separate;
  }

  backed-IsSynced :
      (n m r : ℕ) (g : Gpu api queue) (ids : List ℕ) (h : Host) (q : queue.Queue)
      → IsSynced n g ids h
      → Reaches queue laws m q (with_backing r h)
      → IsSynced m (record g { ctrl = q }) ids (with_backing r h)
  backed-IsSynced n m r g ids h q s a = record {
    ids_in_use = s.ids_in_use;
    reserved = s.reserved;
    accepted = a;
    resources = s.resources;
    frame = Holds-backed r ids h g.frame_buf s.frame;
    cursor = Holds-backed r ids h g.cursor_buf s.cursor;
    separate = s.separate;
  }

  create-accepted :
      (g : Gpu api queue) (ids : List ℕ) (h : Host) (f w k : ℕ)
      → IsFresh g ids h (new_id g)
      → host_step (create (new_id g) f w k) h ≡ some (with_resource (new_id g) h)
  unfolding host_step
  create-accepted g ids h f w k fr = rw (==_false (new_id g) 0 fr.nonzero, fr.unknown) refl

  attach-accepted :
      (r n : ℕ) (h : Host)
      → host_step (attach r n) (with_resource r h) ≡ some (with_backing r (with_resource r h))
  unfolding host_step
  attach-accepted r n h = let same : (r == r) ≡ true = ground arith in rw (same) refl

  pub new_object-fails :
      (n : ℕ) (a : Answers) (f w k size : ℕ) (g : Gpu api queue) (ids : List ℕ) (h : Host)
      → IsSynced (suc n) g ids h
      → HasFreeId g
      → (not (a.v_addr == 0) && a.mdl && not a.locked) ≡ false
      → obj_init a size ≡ done none
      → (q : queue.Queue) × (new_object api queue a f w k size g ≡ done (new_id g, none, taken g q))
        × IsSynced n (taken g q) (new_id g ∷ ids) (with_resource (new_id g) h)
  unfolding new_object delete_failed
  new_object-fails n a f w k size g ids h s free once e =
      let fr = fresh (suc n) g ids h s free in
      let (q, d, acc) =
        post-plain queue laws n (create (new_id g) f w k) g.ctrl h (with_resource (new_id g) h) tt
          s.accepted (create-accepted g ids h f w k fr) in
      (q, rw (d, e, once) refl, taken-IsSynced (suc n) n g ids h q s fr acc)

  pub new_object-makes :
      (n : ℕ) (a : Answers) (f w k size : ℕ) (o : Obj) (g : Gpu api queue) (ids : List ℕ) (h : Host)
      → IsSynced (suc (suc n)) g ids h
      → HasFreeId g
      → a.ents ≢ 0
      → ((r : ℕ) → laws.Fits a.ents (attach r (length o.elements)))
      → obj_init a size ≡ done (some o)
      → (q : queue.Queue) × (new_object api queue a f w k size g
          ≡ done (new_id g, some (true, record o { hw_res = new_id g }), taken g q))
        × IsSynced n
            (taken g q)
            (new_id g ∷ ids)
            (with_backing (new_id g) (with_resource (new_id g) h))
  unfolding new_object
  new_object-makes n a f w k size o g ids h s free ne fits e =
      let r = new_id g in
      let fr = fresh (suc (suc n)) g ids h s free in
      let (q, d, acc) =
        post-plain queue laws (suc n) (create r f w k) g.ctrl h (with_resource r h) tt s.accepted
          (create-accepted g ids h f w k fr) in
      let (q₁, d₁, acc₁) =
        post-Reaches queue laws n a.ents (attach r (length o.elements)) q (with_resource r h)
          (with_backing r (with_resource r h)) (fits r) acc
          (attach-accepted r (length o.elements) h) in
      (
        q₁,
        rw (d, e, ==_false a.ents 0 ne, d₁) refl,
        backed-IsSynced (suc n) n r (taken g q) (r ∷ ids) (with_resource r h) q₁
            (taken-IsSynced (suc (suc n)) (suc n) g ids h q s fr acc) acc₁,
      )
