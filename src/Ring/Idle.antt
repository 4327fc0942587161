-- ===== src/Ring/Idle.antt =====
-- Polls of a ring with no event under way.
use ringbahn.Base.{ℕ, ◌≢◌, ◌+◌, ◌≤◌, ◌≡◌, refl, some, List, [], ◌∷◌, ◌++◌, arith, u32, ap, ◌∙◌}
use ringbahn.Operation.{Operation, Sqe}
use ringbahn.Machine.{World, returns, Cmd, Poll, pending, ready, update, update_self, push_sqe}
use ringbahn.Machine.Returns.{Returns, returned, Returns-and_then}
use ringbahn.Completion
use ringbahn.Completion.{Completion, waiting, done}
use ringbahn.Completion.Types as Kernel
use ringbahn.Completion.Types.{Waker, IoResult, will_wake}
use ringbahn.Drive.{Context, Offer, Drive, single_sqe, new_completion}
use ringbahn.Drive.Conforms.{
  Evolve, Evolve-trans, Evolves, Suffices, Answers, offers, refuses, Conforms,
}
use ringbahn.Drive.Spares.{Spares, Spares-trans, Spares-update}
use ringbahn.Ring.{
  State, inert, prepared, cancelled, answer, prepare_cancel, prepare_event, call_driver,
  poll_started, poll_idle,
}
use ringbahn.Ring.Spec.{
  Live, awaited, Owns, event_sqe, cancel_sqe, Starts, afresh, over, Idle, is_inert, is_cancelled,
  Busy, is_prepared, is_submitted, Advances, stays, goes, stalls, starts,
}
use ringbahn.Ring.Busy.{ring_of, kept, poll_submit-Returns, Owns-Advances, PolledRing}

module _ (D : Drive) (conforms : Conforms D) (ctx : Context) where
  open D use {Driver, Sqes}

  made : Completion
  made = record { state = ctx.fresh }

  -- The memory once the event has been prepared.
  abbrev started : List Sqe → World → World
  started entries w = record w {
    completions = update w.completions ctx.fresh (some (Kernel.submitted ctx.waker));
    queue = entries ++ w.queue;
  }

  prepare_event_lem :
      (op : Operation) (count : ℕ) (sqs : Sqes) (w : World)
      → Suffices D count sqs
      → 1 ≤ count
      → prepare_event D ctx (single_sqe D op) sqs w
        ≡ returns made (started (event_sqe op ctx.fresh ∷ []) w)
  unfolding prepare_event single_sqe new_completion Completion.new Completion.addr push_sqe made
  prepare_event_lem op count sqs w enough h = let (rest, e) = enough.one h in rw e

  prepare_cancel_lem :
      (op : Operation) (prev count : ℕ) (sqs : Sqes) (w : World)
      → Suffices D count sqs
      → 2 ≤ count
      → prepare_cancel D ctx prev (single_sqe D op) sqs w
        ≡ returns made (started (event_sqe op ctx.fresh ∷ cancel_sqe prev ∷ []) w)
  unfolding prepare_cancel single_sqe new_completion Completion.new Completion.addr push_sqe made
  prepare_cancel_lem op prev count sqs w enough h =
      let (rest, last, e, f) = enough.two h in rw (e, f)

  -- The driver was not ready and nothing has changed, or the event has been prepared.
  data Prepares (entries : List Sqe) (s : State) (w : World)
      : State → Poll (Unit {0}) → World → Type 0 where
    held_back : {v : World} → Evolves w v → Prepares entries s w s pending v
    prepares :
        {v : World}
        → v.queue ≡ entries ++ w.queue
        → Live (v.completions ctx.fresh)
        → ((a : ℕ) → ctx.fresh ≢ a → Evolve (w.completions a) (v.completions a))
        → Spares w v
        → Prepares entries s w (prepared made) (ready tt) v

  call_answered :
      (count : ℕ) (callback : Sqes → Cmd Completion) (entries : List Sqe) (s : State) (d : Driver)
      (w v : World) (offer : Offer Sqes) (d' : Driver)
      → ((sqs : Sqes) → Suffices D count sqs → callback sqs v ≡ returns made (started entries v))
      → D.poll_prepare ctx count d w ≡ returns (offer, d') v
      → Answers D count offer
      → Evolves w v
      → Returns
          (λ (ring', p) u. Prepares entries s w ring'.state p u)
          (call_driver D ctx count callback (ring_of s d) w)
  unfolding call_driver answer
  call_answered count callback entries s d w v _ d' does eq refuses ev =
      rw eq (returned (held_back ev))
  call_answered count callback entries s d w v _ d' does eq (offers {sqs} enough) ev =
      rw (eq, does sqs enough)
        (returned (
          prepares (ap (λ q. entries ++ q) ev.queue)
            (rw (update_self v.completions ctx.fresh (some (Kernel.submitted ctx.waker))) awaited)
            (λ a ne. Evolve-trans (ev.completions a) (kept v ctx.fresh a _ ne))
            (Spares-trans ev.spares (Spares-update ctx.fresh _ refl refl refl λ _. (λ e. cc)))))

  call_driver-Returns :
      (count : ℕ) (callback : Sqes → Cmd Completion) (entries : List Sqe) (s : State) (d : Driver)
      (w : World)
      → ((sqs : Sqes) (v : World)
          → Suffices D count sqs
          → callback sqs v ≡ returns made (started entries v))
      → count ≤ conforms.limit
      → Returns
          (λ (ring', p) u. Prepares entries s w ring'.state p u)
          (call_driver D ctx count callback (ring_of s d) w)
  call_driver-Returns count callback entries s d w does fits =
      let (offer, d', v, eq, answers, ev) = conforms.prepares ctx count d w fits in
      call_answered count callback entries s d w v offer d' (λ sqs. does sqs v) eq answers ev

  poll_started-Returns :
      {op : Operation} {entries : List Sqe} {s t : State} {p : Poll (Unit {0})} {v : World}
      (w : World) (d : Driver)
      → Idle s
      → Starts op ctx.fresh s entries
      → Prepares entries s w t p v
      → Returns (PolledRing ctx op w s) (poll_started D ctx (ring_of t d) p v)
  unfolding poll_started made
  poll_started-Returns w d idle start (held_back ev) = returned (record {
    entries = [];
    transition = stalls idle;
    queued = ev.queue;
    owns = Idle-Owns _ idle;
    elsewhere = λ a _ _. ev.completions a;
    spares = ev.spares;
  })
    where
      Idle-Owns : {s : State} (v : World) → Idle s → Owns s v
      Idle-Owns v is_inert = tt
      Idle-Owns v is_cancelled = tt
  poll_started-Returns {entries} w d idle start (prepares queued live others spares) =
      Returns-and_then
        (poll_submit-Returns D conforms ctx made (prepared made) d _ is_prepared live)
        λ (ring', p) v s. returned (record {
          entries = entries;
          transition = starts start refl (Advances-Busy s.advances);
          queued = s.evolves.queue ∙ queued;
          owns = Owns-Advances v s.advances s.live;
          elsewhere = λ a _ apart.
              Evolve-trans (others a (apart made (Advances-Busy s.advances)))
                (s.evolves.completions a);
          spares = Spares-trans spares s.evolves.spares;
        })
    where
      Advances-Busy : {c : Completion} {s t : State} → Advances c s t → Busy c t
      Advances-Busy (stays b) = b
      Advances-Busy goes = is_submitted

  pub poll_idle-Returns :
      (op : Operation) (count : ℕ) (s : State) (d : Driver) (w : World)
      → Idle s
      → 1 ≤ count
      → count + 1 ≤ conforms.limit
      → Returns (PolledRing ctx op w s) (poll_idle D ctx count (single_sqe D op) (ring_of s d) w)
  unfolding poll_idle
  poll_idle-Returns op count _ d w is_inert h k =
      Returns-and_then
        (call_driver-Returns count (prepare_event D ctx (single_sqe D op)) _ inert d w
          (λ sqs v enough. prepare_event_lem op count sqs v enough h) (omega arith))
        λ (ring', p) v. poll_started-Returns w ring'.driver is_inert afresh
  poll_idle-Returns op count _ d w (is_cancelled {prev}) h k =
      let small = conforms.small in
      Returns-and_then
        (call_driver-Returns (u32 (count + 1)) (prepare_cancel D ctx prev (single_sqe D op)) _
          (cancelled prev) d w
          (λ sqs v enough. prepare_cancel_lem op prev (u32 (count + 1)) sqs v enough (omega arith))
          (omega arith))
        λ (ring', p) v. poll_started-Returns w ring'.driver is_cancelled over
