-- ===== src/Device/Host.antt =====
-- The host's side of the 2D commands, as the virtio-gpu device defines it: which resources exist and
-- which have memory behind them, and the commands that it accepts. This is the protocol that
-- the resources of GpuDevice in viogpu/viogpudo/viogpudo.cpp are to keep to.
use graphics_drivers_wip.Base.{
  zero, suc, ℕ, ◌≡◌, refl, ap, ◌∙◌, Bool, false, not, ◌&&◌, ◌||◌, Option, none, some, List, [], ◌∷◌,
  ◌++◌, ◌==◌, if◌then◌else◌, done,
}
use graphics_drivers_wip.Queue.Command.{
  Command, create, release, detach, scanout, show, transfer, attach,
}
use graphics_drivers_wip.Device.{CtrlQueueApi}

pub record Host : Type 0 where
  pub is_created : ℕ → Bool
  pub is_backed : ℕ → Bool

abbrev pub no_resources : Host
no_resources = record { is_created = λ _. false; is_backed = λ _. false }

abbrev pub with_resource : ℕ → Host → Host
with_resource r h = record {
  is_created = λ x. x == r || h.is_created x;
  is_backed = λ x. not (x == r) && h.is_backed x;
}

abbrev pub with_backing : ℕ → Host → Host
with_backing r h = record h { is_backed = λ x. x == r || h.is_backed x }

abbrev pub without_backing : ℕ → Host → Host
without_backing r h = record h { is_backed = λ x. not (x == r) && h.is_backed x }

abbrev pub without_resource : ℕ → Host → Host
without_resource r h = record {
  is_created = λ x. not (x == r) && h.is_created x;
  is_backed = λ x. not (x == r) && h.is_backed x;
}

-- A resource is created under a new id other than 0; memory is attached to a resource that has
-- none, and detached from one that has some; only such a resource is transferred; and only a
-- resource that exists is scanned out, flushed or released.
unfoldable pub host_step : Command → Host → Option Host
host_step (create r f w hh) h = if r == 0 || h.is_created r then none else some (with_resource r h)
host_step (attach r n) h =
    if h.is_created r && not (h.is_backed r) then some (with_backing r h) else none
host_step (detach r) h =
    if h.is_created r && h.is_backed r then some (without_backing r h) else none
host_step (release r) h = if h.is_created r then some (without_resource r h) else none
host_step (scanout s r w hh x y) h = if h.is_created r then some h else none
host_step (show r w hh x y) h = if h.is_created r then some h else none
host_step (transfer r o w hh x y) h = if h.is_created r && h.is_backed r then some h else none

abbrev pub next : Command → Option Host → Option Host
next c none = none
next c (some h) = host_step c h

-- The host after a list of commands, unless it refuses one of them.
abbrev pub host_run : List Command → Option Host → Option Host
host_run [] o = o
host_run (c ∷ cs) o = host_run cs (next c o)

host_run-append :
    (cs : List Command) (c : Command) (o : Option Host)
    → host_run (cs ++ (c ∷ [])) o ≡ next c (host_run cs o)
host_run-append [] c o = refl
host_run-append (d ∷ cs) c o = host_run-append cs c (next d o)

-- A command without data of its own.
abbrev pub IsPlain : Command → Type 0
IsPlain (attach r n) = ⊥
IsPlain _ = Unit {0}

-- What is asked of a queue: the commands that it has taken, and the entries and commands that fit its
-- buffers; a command without entries does.
pub record QueueLaws (queue : CtrlQueueApi) : Type 1 where
  pub log : queue.Queue → List Command
  pub Fits : ℕ → Command → Type 0
  pub plain : (c : Command) → IsPlain c → Fits 0 c

module _ (queue : CtrlQueueApi) (laws : QueueLaws queue) where
  -- The queue takes the next `n` commands, whichever they are, if they fit.
  abbrev pub Takes : ℕ → queue.Queue → Type 0
  Takes zero q = Unit {0}
  Takes (suc n) q =
      (ents : ℕ) (c : Command)
      → laws.Fits ents c
      → (t : queue.Queue) × (queue.post ents c q ≡ done t)
        × (laws.log t ≡ laws.log q ++ (c ∷ []))
        × Takes n t

  Takes-less : (n : ℕ) (q : queue.Queue) → Takes (suc n) q → Takes n q
  Takes-less zero q k = tt
  Takes-less (suc n) q k = λ ents c f. let (t, d, l, m) = k ents c f in (t, d, l, Takes-less n t m)

  -- The host has accepted all the commands so far, and the queue takes the next `n`.
  abbrev pub Reaches : ℕ → queue.Queue → Host → Type 0
  Reaches n q h = (host_run (laws.log q) (some no_resources) ≡ some h) × Takes n q

  pub Reaches-less : (n : ℕ) (q : queue.Queue) (h : Host) → Reaches (suc n) q h → Reaches n q h
  Reaches-less n q h (r, k) = (r, Takes-less n q k)

  pub post-Reaches :
      (n ents : ℕ) (c : Command) (q : queue.Queue) (h h₁ : Host)
      → laws.Fits ents c
      → Reaches (suc n) q h
      → host_step c h ≡ some h₁
      → (t : queue.Queue) × (queue.post ents c q ≡ done t) × Reaches n t h₁
  post-Reaches n ents c q h h₁ f (r, k) s =
      let (t, e, l, m) = k ents c f in
      (t, e, (rw l (host_run-append (laws.log q) c (some no_resources) ∙ ap (next c) r ∙ s), m))

  pub post-plain :
      (n : ℕ) (c : Command) (q : queue.Queue) (h h₁ : Host)
      → IsPlain c
      → Reaches (suc n) q h
      → host_step c h ≡ some h₁
      → (t : queue.Queue) × (queue.post 0 c q ≡ done t) × Reaches n t h₁
  post-plain n c q h h₁ p r s = post-Reaches n 0 c q h h₁ (laws.plain c p) r s
