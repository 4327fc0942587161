-- ===== src/Ring/Busy.antt =====
-- Polls of a ring whose event is under way.
use ringbahn.Base.{ℕ, ◌≡◌, ◌≢◌, refl, List, Option, none, some, [], inl, inr, ◌⊎◌}
use ringbahn.Operation.{Operation}
use ringbahn.Machine.{World, returns, Poll, pending, ready, update, update_self, update_other}
use ringbahn.Machine.Returns.{Returns, returned, Returns-and_then}
use ringbahn.Completion.{Completion}
use ringbahn.Completion.Types as Kernel
use ringbahn.Completion.Types.{Waker, IoResult, will_wake}
use ringbahn.Completion.Branches.{moved, erased, check-submitted, check-completed}
use ringbahn.Drive.{Context, Drive}
use ringbahn.Drive.Conforms.{Evolve, same, completes, settles, Evolve-trans, Evolves, Conforms}
use ringbahn.Drive.Spares.{Spares-trans, Spares-update}
use ringbahn.Ring.{
  State, inert, prepared, submitted, cancelled, lost, Ring, poll_submit, poll_complete,
  poll_prepared,
}
use ringbahn.Ring.Spec.{
  Live, awaited, unread, Owns, Busy, is_prepared, is_submitted, Advances, stays, goes, waits,
  finishes, Polled,
}

pub Live-Evolve : {o o' : Option Kernel.State} → Live o → Evolve o o' → Live o'
Live-Evolve l same = l
Live-Evolve l completes = unread
Live-Evolve l settles = elim l [ ]

none-Evolve : {o o' : Option Kernel.State} → Evolve o o' → o ≡ none → o' ≡ none
none-Evolve same e = e
none-Evolve completes e = cc
none-Evolve settles e = refl

pub Live_cases :
    {o : Option Kernel.State}
    → Live o
    → ((waker : Waker) × (o ≡ some (Kernel.submitted waker)))
      ⊎ ((result : IoResult ℕ) × (o ≡ some (Kernel.completed result)))
Live_cases (awaited {waker}) = inl (waker, refl)
Live_cases (unread {result}) = inr (result, refl)

abbrev pub ring_of : {Driver : Type 0} → State → Driver → Ring Driver
ring_of s d = record { state = s; driver = d }

-- The driver submits the event of a busy ring, or leaves the ring as it is.
pub record Submits (c : Completion) (s : State) (w : World) (t : State) (v : World) : Type 0 where
  pub advances : Advances c s t
  pub evolves : Evolves w v
  pub live : Live (v.completions c.state)

pub Owns-Advances :
    {c : Completion} {s t : State} (v : World)
    → Advances c s t
    → Live (v.completions c.state)
    → Owns t v
Owns-Advances v (stays is_prepared) l = l
Owns-Advances v (stays is_submitted) l = l
Owns-Advances v goes l = l

-- A change at one address leaves the others.
pub kept :
    (w : World) (a b : ℕ) (o : Option Kernel.State)
    → a ≢ b
    → Evolve (w.completions b) (update w.completions a o b)
kept w a b o ne = rw (update_other w.completions a b o ne) same

-- What a poll of a busy ring starts with: the check of its completion.
Live-moved :
    (w : World) (a : ℕ) (waker : Waker) → Live ((moved w a (Kernel.submitted waker)).completions a)
Live-moved w a waker = rw (update_self w.completions a (some (Kernel.submitted waker))) awaited

erased_self : (w : World) (a : ℕ) → (erased w a).completions a ≡ none
erased_self w a = update_self w.completions a none

abbrev pub PolledRing :
    {Driver : Type 0}
    → Context
    → Operation
    → World
    → State
    → Ring Driver × Poll (IoResult ℕ)
    → World
    → Type 0
PolledRing ctx op w s (ring', p) v = Polled op ctx.fresh w s ring'.state p v

module _ (D : Drive) (conforms : Conforms D) (ctx : Context) where
  open D use {Driver, Sqes}

  submit_answered :
      (c : Completion) (s : State) (d : Driver) (w v : World) (p : Poll (IoResult ℕ)) (d' : Driver)
      → D.poll_submit ctx d w ≡ returns (p, d') v
      → Evolves w v
      → Busy c s
      → Live (w.completions c.state)
      → Returns (λ (ring', _) v. Submits c s w ring'.state v) (poll_submit D ctx (ring_of s d) w)
  unfolding poll_submit
  submit_answered c s d w v pending d' eq ev busy live = rw eq (
      returned (record {
        advances = stays busy;
        evolves = ev;
        live = Live-Evolve live (ev.completions c.state);
      }))
  submit_answered c _ d w v (ready r) d' eq ev is_prepared live = rw eq (
      returned (record {
        advances = goes;
        evolves = ev;
        live = Live-Evolve live (ev.completions c.state);
      }))
  submit_answered c _ d w v (ready r) d' eq ev is_submitted live = rw eq (
      returned (record {
        advances = stays is_submitted;
        evolves = ev;
        live = Live-Evolve live (ev.completions c.state);
      }))

  pub poll_submit-Returns :
      (c : Completion) (s : State) (d : Driver) (w : World)
      → Busy c s
      → Live (w.completions c.state)
      → Returns (λ (ring', _) v. Submits c s w ring'.state v) (poll_submit D ctx (ring_of s d) w)
  poll_submit-Returns c s d w busy live =
      let (p, d', v, eq, ev) = conforms.submits ctx d w in
      submit_answered c s d w v p d' eq ev busy live

  pub poll_submitted-Returns :
      (op : Operation) (c : Completion) (d : Driver) (w : World)
      → Live (w.completions c.state)
      → Returns
          (PolledRing ctx op w (submitted c))
          (poll_complete D ctx (ring_of (submitted c) d) w)
  unfolding poll_complete
  poll_submitted-Returns op c d w live = elim (Live_cases live) [
    | inl (old, holds) ↦ rw (check-submitted w c old holds ctx.waker) (
        returned (record {
          entries = [];
          transition = waits holds (stays is_submitted);
          queued = refl;
          owns = Live-moved w c.state _;
          elsewhere = λ a apart _. kept w c.state a _ (apart c is_submitted);
          spares = Spares-update c.state _ refl refl refl λ _. (λ e. cc);
        }))
    | inr (result, holds) ↦ rw (check-completed w c result holds ctx.waker) (
        returned (record {
          entries = [];
          transition = finishes is_submitted holds (erased_self w c.state);
          queued = refl;
          owns = tt;
          elsewhere = λ a apart _. kept w c.state a none (apart c is_submitted);
          spares = Spares-update c.state none refl refl refl λ _. (λ e. cc);
        }))
  ]

  pub poll_prepared-Returns :
      (op : Operation) (c : Completion) (d : Driver) (w : World)
      → Live (w.completions c.state)
      → Returns (PolledRing ctx op w (prepared c)) (poll_prepared D ctx (ring_of (prepared c) d) w)
  unfolding poll_prepared
  poll_prepared-Returns op c d w live = elim (Live_cases live) [
    | inl (old, holds) ↦ rw (check-submitted w c old holds ctx.waker) (
        Returns-and_then
          (poll_submit-Returns c (prepared c) d _ is_prepared (Live-moved w c.state _))
          λ (ring', p) v s. returned (record {
            entries = [];
            transition = waits holds s.advances;
            queued = s.evolves.queue;
            owns = Owns-Advances v s.advances s.live;
            elsewhere = λ a apart _.
                Evolve-trans (kept w c.state a _ (apart c is_prepared)) (s.evolves.completions a);
            spares =
                Spares-trans (Spares-update c.state _ refl refl refl λ _. (λ e. cc))
                  s.evolves.spares;
          }))
    | inr (result, holds) ↦ rw (check-completed w c result holds ctx.waker) (
        returned (record {
          entries = [];
          transition = finishes is_prepared holds (erased_self w c.state);
          queued = refl;
          owns = tt;
          elsewhere = λ a apart _. kept w c.state a none (apart c is_prepared);
          spares = Spares-update c.state none refl refl refl λ _. (λ e. cc);
        }))
  ]

-- What is in the boxes does not matter to a ring.
pub Owns-boxes :
    (s : State) (w : World) (boxes : ℕ → Option (List ℕ))
    → Owns s w
    → Owns s (record w { boxes = boxes })
Owns-boxes inert w boxes o = tt
Owns-boxes (prepared c) w boxes o = o
Owns-boxes (submitted c) w boxes o = o
Owns-boxes (cancelled prev) w boxes o = tt
Owns-boxes lost w boxes o = o
