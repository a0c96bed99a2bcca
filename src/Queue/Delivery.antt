-- ===== src/Queue/Delivery.antt =====
-- What QueueBufferLocked of viogpu/common/viogpu_queue.cpp gives to the device for a buffer as its
-- callers make it, and for which buffers it writes past its array.
use graphics_drivers_wip.Base.{
  ℕ, ◌+◌, ◌-◌, ◌%◌, ◌≤◌, ◌<◌, ◌≡◌, ◌≢◌, inl, inr, refl, ◌∙◌, true, false, some, [], ◌∷◌, ◌++◌, ltb,
  ltb_iff, ltb-false, ==_false, Bool-cases, page_size, length, length-append, done, overrun, arith,
}
use graphics_drivers_wip.Pool.{Vbuffer}
use graphics_drivers_wip.Queue.{
  SgList, MemoryApi, VirtQueueApi, sg_size, min_page, put_in, add_command, add_response, scatter,
  added, queue_buffer,
}
use graphics_drivers_wip.Queue.Scatter.{
  pages, dma, dma-append_left, dma-append_right, total, MemoryLaws, ValidPages, data_elems, element,
  length-data_elems, total-data_elems, add_data_fits, add_data_overruns, dma-data_elems,
}

module _ (mem : MemoryApi) where
  -- What the callers of QueueBuffer see to: a command and a response of a page at most, at
  -- addresses that can be read, and data that starts at a page.
  pub record IsSendable (v : Vbuffer) : Type 0 where
    pub has_command : v.size ≢ 0
    pub short_command : v.size ≤ page_size
    pub valid_command : mem.is_address_valid v.buf ≡ true
    pub has_response : v.resp_size ≢ 0
    pub short_response : v.resp_size ≤ page_size
    pub valid_response : mem.is_address_valid v.resp_buf ≡ true
    pub aligned_data : v.data_buf % page_size ≡ 0
    pub valid_data : ValidPages mem (pages v.data_size) v.data_buf

  -- The device reads the command and then the data, each byte at its physical address, and
  -- writes the response.
  pub record Describes (v : Vbuffer) (l : SgList) : Type 0 where
    pub readable : l.outcnt ≡ 1 + pages v.data_size
    pub writable : l.incnt ≡ 1
    pub counted : length l.elems ≡ l.outcnt + l.incnt
    pub command : (i : ℕ) → i < v.size → dma l.elems i ≡ some (mem.get_physical_address v.buf + i)
    pub payload :
        (i : ℕ)
        → i < v.data_size
        → dma l.elems (v.size + i) ≡ some (mem.get_physical_address (v.data_buf + i))
    pub response :
        (i : ℕ)
        → i < v.resp_size
        → dma l.elems (v.size + v.data_size + i) ≡ some (mem.get_physical_address v.resp_buf + i)

  abbrev described : Vbuffer → SgList
  described v = record {
    elems =
        (element mem v.buf v.size ∷ data_elems mem (pages v.data_size) v.data_buf v.data_size)
        ++ (element mem v.resp_buf v.resp_size ∷ []);
    outcnt = 1 + pages v.data_size;
    incnt = 1;
  }

  abbrev one_element : Vbuffer → SgList
  one_element v = record { elems = element mem v.buf v.size ∷ []; outcnt = 1; incnt = 0 }

  sub-add : (a b : ℕ) → a + b - a ≡ b
  sub-add a b = omega arith

  add_command-one :
      (v : Vbuffer)
      → IsSendable v
      → add_command mem v.buf v.size (record { elems = []; outcnt = 0; incnt = 0 })
        ≡ done (one_element v)
  unfolding add_command
  add_command-one v s = rw (==_false v.size 0 s.has_command, s.valid_command, add_command)

  add_response-room :
      (v : Vbuffer) (l : SgList)
      → IsSendable v
      → add_response mem v.resp_buf v.resp_size l
        ≡ put_in mem (element mem v.resp_buf v.resp_size) l
  unfolding add_response
  add_response-room v l s = rw (==_false v.resp_size 0 s.has_response, s.valid_response)

  min_page_short : (n : ℕ) → n ≤ page_size → min_page n ≡ n
  min_page_short n h = ground arith

  scatter-described :
      (fuel : ℕ) (v : Vbuffer)
      → IsSendable v
      → pages v.data_size < fuel
      → 2 + pages v.data_size ≤ sg_size
      → scatter mem fuel v ≡ done (described v)
  unfolding scatter
  scatter-described fuel v s f room =
      let fits =
        add_data_fits mem (pages v.data_size) fuel v.data_buf v.data_size (one_element v) refl f
          (omega arith) s.valid_data in
      let here : ltb (1 + pages v.data_size + 0) sg_size ≡ true = ground arith in
      rw (add_command-one v s, fits) (add_response-room v _ s ∙ rw here)

  described-Describes :
      (laws : MemoryLaws mem) (v : Vbuffer) → IsSendable v → Describes v (described v)
  described-Describes laws v s =
      let short = min_page_short v.size s.short_command in
      let back = λ (i : ℕ). sub-add v.size i in
      let n = pages v.data_size in
      let body = data_elems mem n v.data_buf v.data_size in
      let last = element mem v.resp_buf v.resp_size in
      let sum = total-data_elems mem n v.data_buf v.data_size refl in
      record {
        readable = refl;
        writable = refl;
        counted =
            omega (
              arith,
              length-append body (last ∷ []),
              length-data_elems mem n v.data_buf v.data_size,
            );
        command = λ i h. rw (short, (ltb_iff i v.size).1 h);
        payload = λ i h.
            rw (short, ltb-false (v.size + i) v.size (omega arith), back i)
              (dma-append_left body (last ∷ []) i (omega (arith, sum))
                ∙ dma-data_elems mem laws n v.data_buf v.data_size i refl s.aligned_data h);
        response = λ i h.
            let past : v.size + v.data_size + i - v.size ≡ total body + i = omega (arith, sum) in
            rw (short, ltb-false (v.size + v.data_size + i) v.size (omega arith), past)
              (dma-append_right body (last ∷ []) i
                ∙ rw (min_page_short v.resp_size s.short_response, (ltb_iff i v.resp_size).1 h));
      }

  -- The last element of the list is the response, which finds no room after 15 pages of data.
  scatter-overruns :
      (fuel : ℕ) (v : Vbuffer)
      → IsSendable v
      → pages v.data_size < fuel
      → sg_size < 2 + pages v.data_size
      → scatter mem fuel v ≡ overrun
  unfolding scatter
  scatter-overruns fuel v s f over = elim (Bool-cases (ltb sg_size (1 + pages v.data_size))) [
    | inl early ↦
        let fails =
          add_data_overruns mem (pages v.data_size) fuel v.data_buf v.data_size (one_element v) refl
            f (omega arith) ((ltb_iff sg_size (1 + pages v.data_size)).0 early) s.valid_data in
        rw (add_command-one v s, fails)
    | inr late ↦
        let exactly : 1 + pages v.data_size ≡ sg_size = ground arith in
        let fits =
          add_data_fits mem (pages v.data_size) fuel v.data_buf v.data_size (one_element v) refl f
            (omega arith) s.valid_data in
        let full : ltb (1 + pages v.data_size + 0) sg_size ≡ false = ground arith in
        rw (add_command-one v s, fits) (add_response-room v _ s ∙ rw full)
  ]

  module _ (api : VirtQueueApi) where
    pub queue_buffer_delivers :
        (laws : MemoryLaws mem) (fuel token : ℕ) (v : Vbuffer) (vq : api.VirtQueue)
        → IsSendable v
        → pages v.data_size < fuel
        → 2 + pages v.data_size ≤ sg_size
        → (l : SgList) × (queue_buffer mem api fuel token v vq
            ≡ done (added mem api (api.add_buf l.elems l.outcnt l.incnt token vq)))
          × Describes v l
    unfolding queue_buffer
    queue_buffer_delivers laws fuel token v vq s f room =
        (described v, rw (scatter-described fuel v s f room), described-Describes laws v s)

    pub queue_buffer_overruns :
        (fuel token : ℕ) (v : Vbuffer) (vq : api.VirtQueue)
        → IsSendable v
        → pages v.data_size < fuel
        → sg_size < 2 + pages v.data_size
        → queue_buffer mem api fuel token v vq ≡ overrun
    unfolding queue_buffer
    queue_buffer_overruns fuel token v vq s f over = rw (scatter-overruns fuel v s f over)
