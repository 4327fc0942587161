-- ===== src/Drive/Conforms.antt =====
-- What the documentation of the trait `Drive` asks of a driver for entries, completions and memory. That a
-- driver which answers `Poll::Pending` has to register a waker is not part of it.
use ringbahn.Base.{ℕ, ◌≡◌, ◌≤◌, ◌<◌, Option, none, some}
use ringbahn.Cancellation.{Cancellation}
use ringbahn.Machine.{World, returns, Poll}
use ringbahn.Completion.Types.{Waker, IoResult, State, submitted, completed, cancelled}
use ringbahn.Drive.Spares.{Spares}
use ringbahn.Drive.{Context, Offer, offered, refused, Drive}

-- What may happen to a completion while a driver runs: the kernel completes its event.
pub data Evolve : Option State → Option State → Type 0 where
  same : {o : Option State} → Evolve o o
  completes :
      {waker : Waker} {result : IoResult ℕ}
      → Evolve (some (submitted waker)) (some (completed result))
  settles : {callback : Cancellation} → Evolve (some (cancelled callback)) none

pub Evolve-trans : {a b c : Option State} → Evolve a b → Evolve b c → Evolve a c
Evolve-trans same e = e
Evolve-trans completes same = completes
Evolve-trans settles same = settles

pub record Evolves (w v : World) : Type 0 where
  pub completions : (a : ℕ) → Evolve (w.completions a) (v.completions a)
  pub queue : v.queue ≡ w.queue
  pub spares : Spares w v

module _ (D : Drive) where
  open D use {Driver, Sqes, poll_prepare, poll_submit, next_hard_linked, single}

  -- The entries suffice for one event, or for a cancellation and an event.
  pub record Suffices (count : ℕ) (sqs : Sqes) : Type 0 where
    pub one : 1 ≤ count → (rest : Sqes) × (single sqs ≡ some rest)
    pub two :
        2 ≤ count
        → (rest last : Sqes) × (next_hard_linked sqs ≡ some rest) × (single rest ≡ some last)

  -- The driver is ready, with enough entries, or it is not.
  pub data Answers (count : ℕ) : Offer Sqes → Type 0 where
    offers : {sqs : Sqes} → Suffices count sqs → Answers count (offered sqs)
    refuses : Answers count refused

  -- A call of the driver returns; in the meantime the kernel may have completed events. `limit` is how
  -- many entries the submission queue has room for at all, which is enough for a cancelled event and
  -- the one after it.
  pub record Conforms : Type 0 where
    pub limit : ℕ
    pub enough : 2 ≤ limit
    pub small : limit < 4294967296
    pub prepares :
        (ctx : Context) (count : ℕ) (d : Driver) (w : World)
        → count ≤ limit
        → (offer : Offer Sqes) × (d' : Driver) × (v : World) × (poll_prepare ctx count d w
            ≡ returns (offer, d') v)
          × Answers count offer
          × Evolves w v
    pub submits :
        (ctx : Context) (d : Driver) (w : World)
        → (p : Poll (IoResult ℕ)) × (d' : Driver) × (v : World) × (poll_submit ctx d w
            ≡ returns (p, d') v)
          × Evolves w v
