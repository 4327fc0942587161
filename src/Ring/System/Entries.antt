-- ===== src/Ring/System/Entries.antt =====
-- Which entry of the submission queue is that of a ring's event.
use ringbahn.Base.{
  ℕ, ◌≡◌, refl, sym, ◌∙◌, ◌≢◌, ◌⊎◌, inl, inr, Option, none, some, List, [], ◌∷◌, ◌++◌, ap, subst,
  ◌==◌, arith, if◌then◌else◌,
}
use ringbahn.Cancellation.{Cancellation}
use ringbahn.Operation.{Operation, Sqe}
use ringbahn.Machine.{World, Poll, update_self, update_other}
use ringbahn.Completion.{Completion}
use ringbahn.Completion.Types as Kernel
use ringbahn.Completion.Types.{IoResult}
use ringbahn.Ring.{State}
use ringbahn.Ring.Spec.{
  Live, awaited, unread, Owns, Busy, Starts, afresh, over, Transition, stalls, starts, waits,
  finishes, Polled, event_sqe,
}
use ringbahn.Ring.Cancels.{
  Cancels, nothing_under_way, left_to_kernel, completed_before, not-Busy_of_Idle,
}
use ringbahn.Drive.Conforms.{Evolve, same, completes, settles}
use ringbahn.Ring.System.Completes.{Completes, passes, hands_over, cleans_up}
use ringbahn.Ring.System.Sound.{Busy-Live}
use ringbahn.Ring.System.Runs.{Busy-eq, Advances-before, Advances-after, Starts-Idle}

-- The entry that was put on the queue last, among those with this `user_data`.
abbrev pub newest : ℕ → List Sqe → Option Sqe
newest a [] = none
newest a (s ∷ queue) = if s.user_data == a then some s else newest a queue

-- The entry that the kernel was given last under this address is one for this operation.
abbrev pub Entered : Operation → ℕ → World → Type 0
Entered op a w = (a ≢ 0) × (newest a w.queue ≡ some (event_sqe op a))

pub Entered-same :
    (op : Operation) (a : ℕ) (w v : World) → v.queue ≡ w.queue → Entered op a w → Entered op a v
Entered-same op a w v q (nz, entry) = (nz, ap (newest a) q ∙ entry)

-- The completion of an event under way has not been cancelled.
pub not-cancelled_of_Live :
    {o : Option Kernel.State} {callback : Cancellation}
    → Live o
    → o ≡ some (Kernel.cancelled callback)
    → ⊥
not-cancelled_of_Live awaited e = cc
not-cancelled_of_Live unread e = cc

pub some_of_Live : {o : Option Kernel.State} → Live o → (k : Kernel.State) × (o ≡ some k)
some_of_Live awaited = (_, refl)
some_of_Live unread = (_, refl)

-- A completion that has been cancelled was cancelled before the kernel completed others.
pub cancelled_before :
    {o o' : Option Kernel.State} {callback : Cancellation}
    → Evolve o o'
    → o' ≡ some (Kernel.cancelled callback)
    → o ≡ some (Kernel.cancelled callback)
cancelled_before same e = e
cancelled_before completes e = cc
cancelled_before settles e = cc

-- The entries of a poll change nothing for the addresses that are in use.
newest_past :
    {op : Operation} {fresh : ℕ} {w v : World} {s t : State} {p : Poll (IoResult ℕ)}
    {entries : List Sqe} (a : ℕ) (queue : List Sqe)
    → Transition op fresh w s t p entries v
    → a ≢ fresh
    → a ≢ 0
    → newest a (entries ++ queue) ≡ newest a queue
newest_past a queue (stalls idle) ne nz = refl
newest_past a queue (starts afresh at b) ne nz = ground arith
newest_past a queue (starts over at b) ne nz = ground arith
newest_past a queue (waits holds advances) ne nz = refl
newest_past a queue (finishes b holds gone) ne nz = refl

-- The event that a poll starts has the newest entry under its address.
newest_started :
    {op : Operation} {fresh : ℕ} {s : State} {entries : List Sqe} (queue : List Sqe)
    → Starts op fresh s entries
    → newest fresh (entries ++ queue) ≡ some (event_sqe op fresh)
newest_started queue afresh = ground arith
newest_started queue over = ground arith

module _ (op : Operation) (fresh : ℕ) (w : World) (nonnull : fresh ≢ 0)
    (free : w.completions fresh ≡ none) where
  pub Polled-Entered :
      {s t : State} {p : Poll (IoResult ℕ)} {v : World}
      → Polled op fresh w s t p v
      → (op' : Operation) (a : ℕ) (k : Kernel.State) → w.completions a ≡ some k
      → Entered op' a w
      → Entered op' a v
  Polled-Entered polled op' a k holds (nz, entry) =
      let ne : a ≢ fresh = λ q. (let f : ⊥ = cc in f) in
      (nz, ap (newest a) polled.queued ∙ newest_past a w.queue polled.transition ne nz ∙ entry)

  -- The event under way after a poll was under way before, or the poll has made its entry.
  Transition-Busy :
      {s t : State} {p : Poll (IoResult ℕ)} {entries : List Sqe} {v : World}
      → Transition op fresh w s t p entries v
      → v.queue ≡ entries ++ w.queue
      → (c : Completion) → Busy c t
      → Busy c s ⊎ Entered op c.state v
  Transition-Busy (stalls idle) queued c b = inl b
  Transition-Busy {v} (starts {c = c'} start at b') queued c b =
      let q : fresh ≡ c.state = sym (ap (λ x. x.state) (Busy-eq b b') ∙ at) in
      inr (
        subst (λ a. Entered op a v) q
          (nonnull, ap (newest fresh) queued ∙ newest_started w.queue start))
  Transition-Busy (waits holds advances) queued c b = inl (Advances-before advances b)
  Transition-Busy (finishes b' holds gone) queued c b = elim b [ ]

  pub Polled-Busy :
      {s t : State} {p : Poll (IoResult ℕ)} {v : World}
      → Polled op fresh w s t p v
      → (c : Completion) → Busy c t
      → Busy c s ⊎ Entered op c.state v
  Polled-Busy polled = Transition-Busy polled.transition polled.queued

  -- A poll does not cancel the event under way.
  Transition-lets_go :
      {s t : State} {p : Poll (IoResult ℕ)} {entries : List Sqe} {v : World}
      → Transition op fresh w s t p entries v
      → Owns t v
      → (c : Completion) (callback : Cancellation) → Busy c s
      → v.completions c.state ≡ some (Kernel.cancelled callback)
      → ⊥
  Transition-lets_go (stalls idle) o c callback b holds = not-Busy_of_Idle idle b
  Transition-lets_go (starts start at b') o c callback b holds = Starts-Idle start b
  Transition-lets_go {v} (waits h advances) o c callback b holds =
      not-cancelled_of_Live (Busy-Live v (Advances-after advances b) o) holds
  Transition-lets_go (finishes {c = c'} b' h gone) o c callback b holds =
      let q : c ≡ c' = Busy-eq b b' in cc

  pub Polled-lets_go :
      {s t : State} {p : Poll (IoResult ℕ)} {v : World}
      → Polled op fresh w s t p v
      → (c : Completion) (callback : Cancellation) → Busy c s
      → v.completions c.state ≡ some (Kernel.cancelled callback)
      → ⊥
  Polled-lets_go polled = Transition-lets_go polled.transition polled.owns

pub Cancels-queue :
    {callback : Cancellation} {w : World} {s t : State} {v : World}
    → Cancels callback w s t v
    → v.queue ≡ w.queue
Cancels-queue (nothing_under_way idle) = refl
Cancels-queue (left_to_kernel b holds) = refl
Cancels-queue (completed_before b holds) = refl

-- The callback with which a ring is cancelled is the one that its completion is left with.
pub Cancels-callback :
    {callback : Cancellation} {w : World} {s t : State} {v : World}
    → Cancels callback w s t v
    → (c : Completion) (callback' : Cancellation) → Busy c s
    → v.completions c.state ≡ some (Kernel.cancelled callback')
    → callback' ≡ callback
Cancels-callback (nothing_under_way idle) c callback' b holds = absurd (not-Busy_of_Idle idle b)
Cancels-callback {callback} {w} (left_to_kernel {c = c'} b' h) c callback' b holds =
    let q : c' ≡ c = Busy-eq b' b in
    let at = update_self w.completions c'.state (some (Kernel.cancelled callback)) in cc
Cancels-callback {w} (completed_before {c = c'} b' h) c callback' b holds =
    let q : c' ≡ c = Busy-eq b' b in
    let at = update_self w.completions c'.state none in absurd (let f : ⊥ = cc in f)

pub Completes-queue :
    {result : IoResult ℕ} {a : ℕ} {w v : World} → Completes result a w v → v.queue ≡ w.queue
Completes-queue (passes null) = refl
Completes-queue (hands_over holds) = refl
Completes-queue (cleans_up holds) = refl

-- A cancellation makes no completion.
pub Cancels-none :
    {callback : Cancellation} {w : World} {s t : State} {v : World} (a : ℕ)
    → Cancels callback w s t v
    → w.completions a ≡ none
    → v.completions a ≡ none
Cancels-none a (nothing_under_way idle) free = free
Cancels-none {w} a (left_to_kernel {c} b holds) free =
    let ne : c.state ≢ a = λ q. (let f : ⊥ = cc in f) in
    update_other w.completions c.state a _ ne ∙ free
Cancels-none {w} a (completed_before {c} b holds) free =
    let ne : c.state ≢ a = λ q. (let f : ⊥ = cc in f) in
    update_other w.completions c.state a none ne ∙ free
