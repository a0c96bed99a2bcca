-- ===== src/Pool/Layout.antt =====
-- The memory inside a buffer that VioGpuBuf of viogpu/common/viogpu_queue.cpp hands out, and the
-- memory outside it that the buffer owns.
use graphics_drivers_wip.Base.{
  ℕ, ◌+◌, ◌≤◌, ◌<◌, ◌≡◌, ◌≢◌, refl, ◌⊎◌, inl, inr, List, [], ◌∷◌, ◌++◌, arith, ◌==◌, ltb, leb,
  if◌then◌else◌, Bool-cases, not, ◌&&◌,
}
use graphics_drivers_wip.Pool.{
  Pool, Vbuffer, get_buf, take_head, prepared, put_vbuf, free_buf, sizeof_vbuffer, vbuffer_size,
  max_inline_cmd_size, max_inline_resp_size,
}

-- In a buffer at `a`: the command stands behind the header, the response behind the command, and
-- both end inside the allocation.
pub record IsLaidOut (a : ℕ) (v : Vbuffer) : Type 0 where
  pub behind_header : a + sizeof_vbuffer ≤ v.buf
  pub behind_command : v.buf + v.size ≤ v.resp_buf
  pub inside : v.resp_buf + v.resp_size ≤ a + vbuffer_size

-- GetBuf on a pool that is not empty hands out the head of the free list. If the command and the
-- response are no longer than the inline limits, neither runs into the other or out of the buffer;
-- a longer response goes to the caller's memory.
get_buf_layout :
    (p : Pool) (a : ℕ) (rest : List ℕ) (size resp_size resp_buf : ℕ)
    → p.free_bufs ≡ a ∷ rest
    → size ≤ max_inline_cmd_size
    → let (b, q) = get_buf size resp_size resp_buf p in
      (b ≡ a)
      × (q.free_bufs ≡ rest)
      × ((q.vbuf a).size ≡ size)
      × ((q.vbuf a).resp_size ≡ resp_size)
      × ((q.vbuf a).data_size ≡ 0)
      × (((resp_size ≤ max_inline_resp_size) × IsLaidOut a (q.vbuf a))
          ⊎ ((max_inline_resp_size < resp_size) × ((q.vbuf a).resp_buf ≡ resp_buf)))
unfolding get_buf
get_buf_layout p a rest size resp_size resp_buf e h =
    rw (e, get_buf)
      (
        refl,
        refl,
        ground arith,
        ground arith,
        ground arith,
        elim (Bool-cases (leb resp_size max_inline_resp_size)) [
          | inl short ↦ inl (ground arith, ground arith)
          | inr long ↦ inr (ground arith, ground arith)
        ],
      )

-- The memory outside the buffer that is the buffer's to delete: its data and a long response.
abbrev pub owned : Vbuffer → List ℕ
owned v =
    (if not (v.data_buf == 0) && not (v.data_size == 0) then v.data_buf ∷ [] else [])
    ++ (if not (v.resp_buf == 0) && ltb max_inline_resp_size v.resp_size
        then v.resp_buf ∷ []
        else [])

-- FreeBuf deletes exactly the memory that the buffer owns, after which it owns none, so that none
-- is deleted twice; it puts the buffer at the end of the free list, and touches no other buffer.
pub free_buf_releases :
    (p : Pool) (a : ℕ)
    → let q = free_buf a p in
      (q.deleted ≡ owned (p.vbuf a) ++ p.deleted)
      × (owned (q.vbuf a) ≡ [])
      × (q.free_bufs ≡ p.free_bufs ++ (a ∷ []))
      × (q.count ≡ p.count)
      × ((b : ℕ) → b ≢ a → q.vbuf b ≡ p.vbuf b)
unfolding free_buf
free_buf_releases p a =
    (ground arith, ground arith, ground arith, ground arith, λ b h. ground arith)

pub get_buf-head :
    (p : Pool) (a : ℕ) (rest : List ℕ) (size resp_size resp_buf : ℕ)
    → p.free_bufs ≡ a ∷ rest
    → get_buf size resp_size resp_buf p ≡ (
      a,
      record p { free_bufs = rest; vbuf = put_vbuf a (prepared a size resp_size resp_buf) p.vbuf },
    )
unfolding get_buf take_head
get_buf-head p a rest size resp_size resp_buf e = rw e

pub get_buf-none :
    (p : Pool) (size resp_size resp_buf : ℕ)
    → p.free_bufs ≡ []
    → get_buf size resp_size resp_buf p ≡ (0, p)
unfolding get_buf take_head
get_buf-none p size resp_size resp_buf e = rw e

-- FreeBuf keeps the event of every buffer, and puts the buffer behind the free ones.
pub free_buf-event : (a b : ℕ) (p : Pool) → ((free_buf a p).vbuf b).event ≡ (p.vbuf b).event
unfolding free_buf
free_buf-event a b p = ground arith

pub free_buf-free : (a : ℕ) (p : Pool) → (free_buf a p).free_bufs ≡ p.free_bufs ++ (a ∷ [])
unfolding free_buf
free_buf-free a p = ground arith
