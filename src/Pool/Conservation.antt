-- ===== src/Pool/Conservation.antt =====
-- Where the buffers of a VioGpuBuf (viogpu/common/viogpu_queue.cpp) are: each is in the free list
-- or with a client, from Init to Close.
use graphics_drivers_wip.Base.{
  ℕ, ◌+◌, ◌^◌, ◌≤◌, ◌<◌, ◌≡◌, refl, inl, inr, true, false, ==_false, ap, List, [], ◌∷◌, ◌++◌, arith,
  ◌==◌, if◌then◌else◌, Bool-cases, length, length-append, contains, without, occurrences,
  occurrences-append, occurrences-without, length-without, u32, sub32,
}
use graphics_drivers_wip.Pool.{Pool, fill, drain, init, close, get_buf, free_buf, take_head}
use graphics_drivers_wip.Pool.Layout.{free_buf_releases}

-- The buffers `all` are those of the free list and those with clients.
pub record Conserves (all : List ℕ) (p : Pool) (out : List ℕ) : Type 0 where
  pub balance : (a : ℕ) → occurrences a p.free_bufs + occurrences a out ≡ occurrences a all
  pub no_null : occurrences 0 all ≡ 0
  pub sizes : length p.free_bufs + length out ≡ length all
  pub counted : p.count ≡ length all

-- The allocations that succeeded.
abbrev pub successes : List ℕ → List ℕ
successes [] = []
successes (a ∷ rest) = if a == 0 then successes rest else a ∷ successes rest

fill_lem :
    (l : List ℕ) (p : Pool)
    → p.count + length l < 2 ^ 32
    → let q = fill l p in
      ((a : ℕ)
        → occurrences a q.free_bufs ≡ occurrences a p.free_bufs + occurrences a (successes l))
      × (length q.free_bufs ≡ length p.free_bufs + length (successes l))
      × (q.count ≡ p.count + length (successes l))
unfolding fill
fill_lem [] p h = (λ a. omega arith, omega arith, omega arith)
fill_lem (x ∷ rest) p h = elim (Bool-cases (x == 0)) [
  | inl e ↦ let ih = fill_lem rest p (omega arith) in rw (e, fill) ih
  | inr e ↦
      let q : Pool = record p { free_bufs = p.free_bufs ++ (x ∷ []); count = u32 (p.count + 1) } in
      let ih = fill_lem rest q (omega arith) in
      rw (e, fill)
        (
          λ a. omega (arith, ih.0 a, occurrences-append a p.free_bufs (x ∷ [])),
          omega (arith, ih.1, length-append p.free_bufs (x ∷ [])),
          omega (arith, ih.2),
        )
]

no_null-successes : (l : List ℕ) → occurrences 0 (successes l) ≡ 0
no_null-successes [] = refl
no_null-successes (x ∷ rest) = ground (arith, no_null-successes rest)

-- Init puts every buffer that was allocated in the free list, once.
pub init-Conserves :
    (l : List ℕ) (p : Pool)
    → p.count ≡ 0
    → length l < 2 ^ 32
    → Conserves (successes l) (init l p).1 []
unfolding init
init-Conserves l p z h =
    let f = fill_lem l (record p { free_bufs = [] }) (omega arith) in
    record {
      balance = λ a. omega (arith, f.0 a);
      no_null = no_null-successes l;
      sizes = omega (arith, f.1);
      counted = omega (arith, f.2);
    }

pub data Request : Type 0 where
  take : ℕ → ℕ → ℕ → Request
  give : ℕ → Request

abbrev pub taken : ℕ × Pool → List ℕ → Pool × List ℕ
taken (b, q) out = if b == 0 then (q, out) else (q, b ∷ out)

-- A client gives back only a buffer that it has.
unfoldable pub step : Pool × List ℕ → Request → Pool × List ℕ
step (p, out) (take size resp_size resp_buf) = taken (get_buf size resp_size resp_buf p) out
step (p, out) (give a) = if contains out a then (free_buf a p, without a out) else (p, out)

unfoldable pub run : Pool × List ℕ → List Request → Pool × List ℕ
run s [] = s
run s (r ∷ rs) = run (step s r) rs

take_head-Conserves :
    (all : List ℕ) (p : Pool) (out free : List ℕ) (size resp_size resp_buf : ℕ)
    → p.free_bufs ≡ free
    → Conserves all p out
    → let s = taken (take_head free size resp_size resp_buf p) out in Conserves all s.0 s.1
unfolding take_head
take_head-Conserves all p out [] size resp_size resp_buf e c = c
take_head-Conserves all p out (x ∷ rest) size resp_size resp_buf e c =
    let first : occurrences x (x ∷ rest) ≡ 1 + occurrences x rest = ground arith in
    let nonzero : (x == 0) ≡ false = ==_false x 0 (λ z. ground (arith, c.balance 0, c.no_null)) in
    rw nonzero (record {
      balance = λ a. ground (arith, c.balance a);
      no_null = c.no_null;
      sizes = omega (arith, c.sizes, ap length e);
      counted = c.counted;
    })

give-Conserves :
    (all : List ℕ) (p : Pool) (out : List ℕ) (a : ℕ)
    → contains out a ≡ true
    → Conserves all p out
    → Conserves all (free_buf a p) (without a out)
give-Conserves all p out a h c =
    let f = free_buf_releases p a in
    record {
      balance = λ b. omega (
        arith,
        c.balance b,
        ap (occurrences b) f.2,
        occurrences-append b p.free_bufs (a ∷ []),
        occurrences-without b a out h,
      );
      no_null = c.no_null;
      sizes = omega (
        arith,
        c.sizes,
        ap length f.2,
        length-append p.free_bufs (a ∷ []),
        length-without a out h,
      );
      counted = omega (arith, f.3, c.counted);
    }

step-Conserves :
    (all : List ℕ) (p : Pool) (out : List ℕ) (r : Request)
    → Conserves all p out
    → Conserves all (step (p, out) r).0 (step (p, out) r).1
unfolding step get_buf
step-Conserves all p out (take size resp_size resp_buf) c =
    take_head-Conserves all p out p.free_bufs size resp_size resp_buf refl c
step-Conserves all p out (give a) c = elim (Bool-cases (contains out a)) [
  | inl e ↦ rw e (give-Conserves all p out a e c)
  | inr e ↦ rw e c
]

run-Conserves :
    (all : List ℕ) (p : Pool) (out : List ℕ) (rs : List Request)
    → Conserves all p out
    → Conserves all (run (p, out) rs).0 (run (p, out) rs).1
unfolding run
run-Conserves all p out [] c = c
run-Conserves all p out (r ∷ rs) c =
    run-Conserves all (step (p, out) r).0 (step (p, out) r).1 rs (step-Conserves all p out r c)

-- After Init and any history of GetBuf calls and FreeBuf calls on buffers that the clients have,
-- each allocated buffer stands in the free list or with a client, as often as it was allocated,
-- none is null, and the pool's count is the number of the allocated buffers.
pub run-init-Conserves :
    (l : List ℕ) (p : Pool) (rs : List Request)
    → p.count ≡ 0
    → length l < 2 ^ 32
    → Conserves (successes l) (run ((init l p).1, []) rs).0 (run ((init l p).1, []) rs).1
run-init-Conserves l p rs z h =
    run-Conserves (successes l) (init l p).1 [] rs (init-Conserves l p z h)

drain_lem :
    (l : List ℕ) (p : Pool)
    → p.free_bufs ≡ l
    → length l ≤ p.count
    → p.count < 2 ^ 32
    → let q = drain l p in
      (q.free_bufs ≡ [])
      × (q.count + length l ≡ p.count)
      × ((a : ℕ) → occurrences a q.deleted ≡ occurrences a l + occurrences a p.deleted)
unfolding drain
drain_lem [] p e h k = (e, omega arith, λ a. omega arith)
drain_lem (x ∷ rest) p e h k =
    let q : Pool = record p {
      free_bufs = rest;
      count = sub32 p.count 1;
      deleted = x ∷ p.deleted;
    } in
    let ih = drain_lem rest q refl (omega arith) (omega arith) in
    (ih.0, omega (arith, ih.1), λ a. omega (arith, ih.2 a))

-- Close deletes every buffer of the free list, once, and empties the list. Its count is then the
-- number of the buffers that clients still have: zero, as the code asserts, when they have none.
close_lem :
    (all : List ℕ) (p : Pool) (out : List ℕ)
    → Conserves all p out
    → length all < 2 ^ 32
    → ((close p).free_bufs ≡ [])
      × ((close p).count ≡ length out)
      × ((a : ℕ)
          → occurrences a (close p).deleted + occurrences a out
            ≡ occurrences a all + occurrences a p.deleted)
unfolding close
close_lem all p out c h =
    let d =
      drain_lem p.free_bufs p refl (omega (arith, c.sizes, c.counted)) (omega (arith, c.counted)) in
    (d.0, omega (arith, d.1, c.sizes, c.counted), λ a. omega (arith, d.2 a, c.balance a))
