-- ===== src/Queue/Post.antt =====
-- The methods of CtrlQueue in viogpu/common/viogpu_queue.cpp that post a command, together: what
-- the device gets of each, and what becomes of the buffer.
use graphics_drivers_wip.Base.{
  ℕ, ◌+◌, ◌*◌, ◌%◌, ◌/◌, ◌≤◌, ◌<◌, ◌≡◌, ◌≢◌, refl, ◌∙◌, true, some, List, [], ◌∷◌, ◌==◌, ==_false,
  page_size, u32, length, Outcome, done, overrun, null_pointer, ◌>>=◌, arith,
}
use graphics_drivers_wip.Pool.{Vbuffer, prepared, put_vbuf, sizeof_vbuffer}
use graphics_drivers_wip.Pool.Layout.{get_buf-head, get_buf-none}
use graphics_drivers_wip.Queue.{
  SgList, MemoryApi, VirtQueueApi, Ctrl, sg_size, send, added, queue_buffer, put_command,
  create_resource, unref_resource, inval_backing, queue_set_scanout, res_flush,
  queue_transfer_to_host_2d, queue_attach_backing,
}
use graphics_drivers_wip.Queue.Command.{
  Command, create, release, detach, scanout, show, transfer, attach, encode, decode, decode-encode,
  encode-short,
}
use graphics_drivers_wip.Queue.Scatter.{pages, MemoryLaws, ValidPages}
use graphics_drivers_wip.Queue.Delivery.{
  IsSendable, Describes, queue_buffer_delivers, queue_buffer_overruns,
}

-- The bytes of data that go with a command: the entries of an attached backing.
abbrev pub data_bytes : Command → ℕ
data_bytes (attach res_id nents) = u32 (16 * nents)
data_bytes _ = 0

abbrev pub data_at : ℕ → Command → ℕ
data_at ents (attach res_id nents) = ents
data_at ents _ = 0

module _ (mem : MemoryApi) (api : VirtQueueApi) where
  -- The method that posts the command; `ents` is used by AttachBacking only.
  abbrev pub post : ℕ → Command → Ctrl mem api → Outcome (Ctrl mem api)
  post ents (create r f w h) = create_resource mem api r f w h
  post ents (release r) = unref_resource mem api r
  post ents (detach r) = inval_backing mem api r
  post ents (scanout s r w h x y) = queue_set_scanout mem api s r w h x y
  post ents (show r w h x y) = res_flush mem api r w h x y
  post ents (transfer r o w h x y) = queue_transfer_to_host_2d mem api r o w h x y
  post ents (attach r n) = queue_attach_backing mem api r ents n

  post-send :
      (ents : ℕ) (c : Command) (s : Ctrl mem api)
      → post ents c s ≡ send mem api (encode c) (data_at ents c) (data_bytes c) s
  unfolding encode create_resource unref_resource inval_backing queue_set_scanout res_flush
      queue_transfer_to_host_2d queue_attach_backing
  post-send ents (create r f w h) s = refl
  post-send ents (release r) s = refl
  post-send ents (detach r) s = refl
  post-send ents (scanout i r w h x y) s = refl
  post-send ents (show r w h x y) s = refl
  post-send ents (transfer r o w h x y) s = refl
  post-send ents (attach r n) s = refl

  -- The buffer as the method fills it.
  abbrev filled : ℕ → ℕ → Command → Vbuffer
  filled a ents c = record (prepared a (4 * length (encode c)) 24 0) {
    data_buf = data_at ents c;
    data_size = data_bytes c;
  }

  -- The first free buffer can be read at its command and at its response, and the entries can be
  -- read page by page from a page's start.
  pub record IsReady (a ents : ℕ) (c : Command) : Type 0 where
    pub buffer : a ≢ 0
    pub command : mem.is_address_valid (a + sizeof_vbuffer) ≡ true
    pub response : mem.is_address_valid (a + sizeof_vbuffer + 4 * length (encode c)) ≡ true
    pub aligned : data_at ents c % page_size ≡ 0
    pub readable : ValidPages mem (pages (data_bytes c)) (data_at ents c)

  sendable : (a ents : ℕ) (c : Command) → IsReady a ents c → IsSendable mem (filled a ents c)
  sendable a ents c r = record {
    has_command = omega (arith, encode-short c);
    short_command = omega (arith, encode-short c);
    valid_command = r.command;
    has_response = omega arith;
    short_response = omega arith;
    valid_response = r.response;
    aligned_data = r.aligned;
    valid_data = r.readable;
  }

  -- The state after a command is posted from the first free buffer `a`.
  abbrev posted : ℕ → List ℕ → ℕ → Command → Ctrl mem api → ℕ × api.VirtQueue → Ctrl mem api
  posted a rest ents c s r = record {
    pool = record s.pool {
      free_bufs = rest;
      vbuf =
          put_vbuf a (filled a ents c)
            (put_vbuf a (prepared a (4 * length (encode c)) 24 0) s.pool.vbuf);
    };
    vq = r.1;
    command = put_command mem api a (encode c) s.command;
  }

  send-queues :
      (a ents : ℕ) (rest : List ℕ) (c : Command) (s : Ctrl mem api)
      → s.pool.free_bufs ≡ a ∷ rest
      → a ≢ 0
      → post ents c s ≡ (
          queue_buffer mem api (data_bytes c / page_size + 2) a (filled a ents c) s.vq >>= λ r.
          done (posted a rest ents c s r))
  unfolding send queue_buffer
  send-queues a ents rest c s e h =
      let same : (a == a) ≡ true = ground arith in
      post-send ents c s
      ∙ rw (get_buf-head s.pool a rest (4 * length (encode c)) 24 0 e, ==_false a 0 h, same) refl

  -- Posting a command from a pool whose first free buffer is ready, with room in the array for the
  -- pages of its data: the buffer leaves the free list and holds words that the device reads as the
  -- command; and the device is given, in one call of the virtqueue with the buffer as its token, a
  -- list that describes the command, its data and its response. This holds whether or not
  -- the virtqueue accepts the list, which the caller is not told.
  pub post_lem :
      (laws : MemoryLaws mem) (a ents : ℕ) (rest : List ℕ) (c : Command) (s : Ctrl mem api)
      → s.pool.free_bufs ≡ a ∷ rest
      → IsReady a ents c
      → 2 + pages (data_bytes c) ≤ sg_size
      → (t : Ctrl mem api) × (post ents c s ≡ done t)
        × (t.pool.free_bufs ≡ rest)
        × (decode (t.command a) ≡ some c)
        × ((l : SgList) × (t.vq ≡ (added mem api (api.add_buf l.elems l.outcnt l.incnt a s.vq)).1)
            × Describes mem (t.pool.vbuf a) l)
  post_lem laws a ents rest c s e r room =
      let same : (a == a) ≡ true = ground arith in
      let (l, q, d) =
        queue_buffer_delivers mem api laws (data_bytes c / page_size + 2) a (filled a ents c) s.vq
          (sendable a ents c r) (omega arith) room in
      (
        posted a rest ents c s (added mem api (api.add_buf l.elems l.outcnt l.incnt a s.vq)),
        send-queues a ents rest c s e r.buffer ∙ rw q,
        refl,
        rw same (decode-encode c),
        (l, refl, rw same d),
      )

  -- An AttachBacking whose entries take up more than 14 pages writes past the end of the array of 16
  -- elements, from a pool whose first free buffer is ready.
  pub post-overruns :
      (a ents : ℕ) (rest : List ℕ) (c : Command) (s : Ctrl mem api)
      → s.pool.free_bufs ≡ a ∷ rest
      → IsReady a ents c
      → sg_size < 2 + pages (data_bytes c)
      → post ents c s ≡ overrun
  post-overruns a ents rest c s e r over =
      send-queues a ents rest c s e r.buffer
      ∙ rw (
          queue_buffer_overruns mem api (data_bytes c / page_size + 2) a (filled a ents c) s.vq
            (sendable a ents c r) (omega arith) over)

  -- With no free buffer the method writes its command at the null pointer.
  post-null :
      (ents : ℕ) (c : Command) (s : Ctrl mem api)
      → s.pool.free_bufs ≡ []
      → post ents c s ≡ null_pointer
  unfolding send
  post-null ents c s e =
      post-send ents c s ∙ rw (get_buf-none s.pool (4 * length (encode c)) 24 0 e)
