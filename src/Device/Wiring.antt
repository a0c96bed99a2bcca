-- ===== src/Device/Wiring.antt =====
-- The control queue of viogpu/common/viogpu_queue.cpp as the queue that GpuDevice in
-- viogpu/viogpudo/viogpudo.cpp posts its commands to, with a record of what the device reads.
use graphics_drivers_wip.Base.{
  ap, ◌∙◌, ℕ, ◌+◌, ◌*◌, ◌%◌, ◌≤◌, ◌≡◌, ◌≢◌, refl, true, Option, none, some, List, [], ◌∷◌, ◌++◌,
  done, ◌>>=◌, length, page_size, arith,
}
use graphics_drivers_wip.Pool.{sizeof_vbuffer}
use graphics_drivers_wip.Queue.{MemoryApi, VirtQueueApi, Ctrl, sg_size}
use graphics_drivers_wip.Queue.Command.{
  Command, create, release, detach, scanout, show, transfer, attach, encode, decode,
}
use graphics_drivers_wip.Queue.Scatter.{MemoryLaws, ValidPages, pages}
use graphics_drivers_wip.Queue.Post.{post, data_at, data_bytes, IsReady, post_lem}
use graphics_drivers_wip.Device.{CtrlQueueApi}
use graphics_drivers_wip.Device.Host.{IsPlain, QueueLaws, Takes}

-- What the device reads in the buffer that was the first free one, after what it has read before.
abbrev pub after : List Command → Option Command → List Command
after log none = log
after log (some c) = log ++ (c ∷ [])

abbrev pub heard : List ℕ → (ℕ → List ℕ) → List Command → List Command
heard [] words log = log
heard (a ∷ rest) words log = after log (decode (words a))

heard-some :
    (free : List ℕ) (a : ℕ) (rest : List ℕ) (words : ℕ → List ℕ) (log : List Command) (c : Command)
    → free ≡ a ∷ rest
    → decode (words a) ≡ some c
    → heard free words log ≡ log ++ (c ∷ [])
heard-some free a rest words log c e d = ap (λ l. heard l words log) e ∙ ap (after log) d

module _ (mem : MemoryApi) (api : VirtQueueApi) where
  abbrev pub ctrl_queue : CtrlQueueApi
  ctrl_queue = record {
    Queue = Ctrl mem api × List Command;
    post = λ ents c s.
        post mem api ents c s.0 >>= λ t. done (t, heard s.0.pool.free_bufs t.command s.1);
  }

  -- The array of the scatter-gather list has room for the pages of the command's data, which can be read page
  -- by page from a page's start.
  pub record FitsData (ents : ℕ) (c : Command) : Type 0 where
    pub room : 2 + pages (data_bytes c) ≤ sg_size
    pub aligned : data_at ents c % page_size ≡ 0
    pub readable : ValidPages mem (pages (data_bytes c)) (data_at ents c)

  pub plain_fits : (c : Command) → IsPlain c → FitsData 0 c
  plain_fits (create r f w h) p = record { room = omega arith; aligned = refl; readable = tt }
  plain_fits (release r) p = record { room = omega arith; aligned = refl; readable = tt }
  plain_fits (detach r) p = record { room = omega arith; aligned = refl; readable = tt }
  plain_fits (scanout i r w h x y) p = record { room = omega arith; aligned = refl; readable = tt }
  plain_fits (show r w h x y) p = record { room = omega arith; aligned = refl; readable = tt }
  plain_fits (transfer r o w h x y) p = record { room = omega arith; aligned = refl; readable = tt }
  plain_fits (attach r n) p = absurd p

  abbrev pub ctrl_laws : QueueLaws ctrl_queue
  ctrl_laws = record { log = λ s. s.1; Fits = FitsData; plain = plain_fits }

  -- A buffer of the pool can be read at its command and at its response, wherever that starts.
  pub record IsReadable (a : ℕ) : Type 0 where
    pub buffer : a ≢ 0
    pub command : mem.is_address_valid (a + sizeof_vbuffer) ≡ true
    pub response :
        (c : Command) → mem.is_address_valid (a + sizeof_vbuffer + 4 * length (encode c)) ≡ true

  abbrev pub AllReadable : List ℕ → Type 0
  AllReadable [] = Unit {0}
  AllReadable (a ∷ l) = IsReadable a × AllReadable l

  is_ready : (a ents : ℕ) (c : Command) → IsReadable a → FitsData ents c → IsReady mem api a ents c
  is_ready a ents c r f = record {
    buffer = r.buffer;
    command = r.command;
    response = r.response c;
    aligned = f.aligned;
    readable = f.readable;
  }

  -- The control queue takes as many commands as it has readable free buffers, one after the other, each of
  -- which fits the array of the scatter-gather list: every post ends without a fault, and the
  -- device reads in the buffer that is handed over the command that was posted, after those before.
  pub ctrl_queue-Takes :
      (laws : MemoryLaws mem) (l : List ℕ) (s : Ctrl mem api × List Command)
      → s.0.pool.free_bufs ≡ l
      → AllReadable l
      → Takes ctrl_queue ctrl_laws (length l) s
  ctrl_queue-Takes laws [] s e r = tt
  ctrl_queue-Takes laws (a ∷ l) s e (r, rs) = λ ents c f.
      let (t, d, left, read, given) =
        post_lem mem api laws a ents l c s.0 e (is_ready a ents c r f) f.room in
      (
        (t, heard s.0.pool.free_bufs t.command s.1),
        rw d refl,
        heard-some s.0.pool.free_bufs a l t.command s.1 c e read,
        ctrl_queue-Takes laws l (t, heard s.0.pool.free_bufs t.command s.1) left rs,
      )
