-- ===== src/Submission/System/Runs.antt =====
-- Schedules of several submissions and the kernel.
use ringbahn.Base.{
  ℕ, ◌≡◌, refl, ◌∙◌, ◌≢◌, inl, inr, Option, none, some, List, [], ◌∷◌, ap, subst, Option-cases,
}
use ringbahn.Machine.{World}
use ringbahn.Machine.Returns.{Returns, returned, Returns-and_then, Returns-map, outcome}
use ringbahn.Completion.{Completion}
use ringbahn.Completion.Types as Kernel
use ringbahn.Completion.Types.{IoResult}
use ringbahn.Drive.{Context, Drive}
use ringbahn.Drive.Conforms.{Conforms}
use ringbahn.Event
use ringbahn.Event.{Event, operation}
use ringbahn.Ring
use ringbahn.Ring.{Ring}
use ringbahn.Ring.Spec.{Owns, Busy, is_inert, event_sqe}
use ringbahn.Ring.Cancels.{cancel-Cancels}
use ringbahn.Ring.System.{Next}
use ringbahn.Ring.System.Completes.{complete-Completes}
use ringbahn.Ring.System.Sound.{IsAbandoned, is_abandoned, Held, Busy-Live}
use ringbahn.Ring.System.Runs.{Completes-Evolve}
use ringbahn.Ring.System.Entries.{newest, Entered, some_of_Live, Completes-queue}
use ringbahn.Submission
use ringbahn.Submission.{Submission, cancel_event}
use ringbahn.Submission.Contract.{Gives, poll-Gives}
use ringbahn.Submission.System as System
use ringbahn.Submission.System.{
  Action, submits, polls, replaces, drops, Permitted, Submissions, perform, run, Schedule,
}
use ringbahn.Submission.System.Custody.{
  Custody, Moves, InCustody, nothing, held, left, cancel-Keeper, Custody-Evolve, Custody-update,
}
use ringbahn.Submission.System.Steps.{Gives-Moves, Cancels-Moves, Idle-Moves}

module _ {Driver : Type 0} where
  -- The event in the slot of a submission is the one that the kernel works on.
  event-Entered :
      (subs : ℕ → Submission Driver) (w : World)
      → Custody subs w
      → (i : ℕ) (e : Event) → (subs i).event ≡ some e
      → (c : Completion) → Busy c (subs i).ring.state
      → Entered (operation e) c.state w
  event-Entered subs w custody i e q c b =
      let (e', q', entered) = custody.keeps i c b in
      let same : e' ≡ e = cc in subst (λ x. Entered (operation x) c.state w) same entered

  -- The event in the slot of a submission, if there is one, is cancelled, and another takes its place.
  cancel_event-Moves :
      (subs : ℕ → Submission Driver) (w : World)
      → Custody subs w
      → (i : ℕ) (event next : Option Event) → (subs i).event ≡ event
      → Returns
          (λ ring v. Moves (subs i) (record { ring = ring; event = next }) w v)
          (cancel_event event (subs i).ring w)
  unfolding cancel_event
  cancel_event-Moves subs w custody i none next q =
      let idle = custody.idle i q in returned (Idle-Moves w idle idle)
  cancel_event-Moves subs w custody i (some e) next q =
      Returns-map (cancel-Cancels (Event.cancel e) w (subs i).ring (custody.sound.owns i))
        λ ring v done. Cancels-Moves e w next done (event-Entered subs w custody i e q)

  module _ (subs : ℕ → Submission Driver) (w : World) (custody : Custody subs w) (a : ℕ) where
    left-InCustody :
        {k : Kernel.State} → IsAbandoned k → w.completions a ≡ some k → InCustody a subs w
    left-InCustody (is_abandoned {callback}) holds =
        let (e, q, (nz, entry)) = custody.leaves a callback holds in
        left e (holds ∙ ap (λ x. some (Kernel.cancelled x)) q) entry (cancel-Keeper w.inside e)

    Held-InCustody : Held a (λ i. (subs i).ring) → InCustody a subs w
    Held-InCustody (i, c, b, at) =
        let (e, q, (nz, entry)) = custody.keeps i c b in
        held i c e b at q
          (subst (λ x. newest x w.queue ≡ some (event_sqe (operation e) x)) at entry)

    address-InCustody : InCustody a subs w
    address-InCustody = elim (Option-cases (w.completions a)) [
      | inl free ↦ nothing free
      | inr (k, holds) ↦ elim (custody.sound.known a k holds) [
        | inl h ↦ Held-InCustody h
        | inr gone ↦ left-InCustody gone holds
      ]
    ]

module _ (D : Drive) (conforms : Conforms D) where
  poll_held :
      (ctx : Context) (e : Event) (s : Submission D.Driver) (w : World)
      → Owns s.ring.state w
      → s.event ≡ some e
      → Returns (λ (t, p) v. Gives e ctx.fresh w s.ring.state t p v) (Submission.poll D ctx s w)
  unfolding Submission.poll
  poll_held ctx e s w o q = rw q (poll-Gives D conforms ctx e s.ring w o)

  poll-Moves :
      (ctx : Context) (subs : Submissions D) (w : World)
      → Custody subs w
      → ctx.fresh ≢ 0
      → w.completions ctx.fresh ≡ none
      → (i : ℕ) (e : Event) → (subs i).event ≡ some e
      → Returns (λ (t, _) v. Moves (subs i) t w v) (Submission.poll D ctx (subs i) w)
  poll-Moves ctx subs w custody nonnull free i e q =
      Returns-map (poll_held ctx e (subs i) w (custody.sound.owns i) q) λ (t, p) v gives.
        Gives-Moves e ctx.fresh w nonnull free gives λ c b. (
          event-Entered subs w custody i e q c b,
          some_of_Live (Busy-Live w b (custody.sound.owns i)),
        )

  perform-Custody :
      (x : Action D) (subs : Submissions D) (w : World)
      → Custody subs w
      → Permitted D x subs w
      → Returns (λ subs' v. Custody subs' v) (perform D x subs w)
  unfolding perform Submission.replace_event Submission.drop Submission.new Ring.new
  perform-Custody (submits i e driver) subs w custody empty =
      returned (Custody-update subs w w custody i _ (Idle-Moves w (custody.idle i empty) is_inert))
  perform-Custody (polls i ctx) subs w custody (there, nonnull, free) =
      let (e, q) = there in
      Returns-and_then (poll-Moves ctx subs w custody nonnull free i e q)
        λ (t, _) v moves. returned (Custody-update subs w v custody i t moves)
  perform-Custody (replaces i e) subs w custody _ =
      Returns-and_then
        (Returns-and_then (cancel_event-Moves subs w custody i (subs i).event (some e) refl)
          λ ring v moves. returned moves)
        λ t v moves. returned (Custody-update subs w v custody i t moves)
  perform-Custody (drops i) subs w custody _ =
      Returns-and_then (cancel_event-Moves subs w custody i (subs i).event none refl)
        λ ring v moves. returned (Custody-update subs w v custody i _ moves)
  perform-Custody (System.completes result a) subs w custody permitted =
      Returns-and_then (complete-Completes result a w permitted) λ _ v done.
        returned (Custody-Evolve subs w v custody (Completes-Evolve done) (Completes-queue done))

  run-Custody :
      (xs : List (Action D)) (subs : Submissions D) (w : World)
      → Custody subs w
      → Schedule D xs subs w
      → Returns (λ subs' v. Custody subs' v) (run D xs subs w)
  unfolding run
  run-Custody [] subs w custody schedule = returned custody
  run-Custody (x ∷ xs) subs w custody (permitted, rest) =
      let (subs', v, e, custody') = outcome (perform-Custody x subs w custody permitted) in
      rw e (run-Custody xs subs' v custody' (subst (Next (Schedule D xs)) e rest))

  -- In any permitted schedule of submissions taken, polled, given other events and dropped, and of
  -- completions by the kernel, on a conforming driver, nothing panics and nothing goes through a
  -- dangling pointer. The schedule runs to its end, and there, at each address of a completion, the
  -- event whose entry was queued last under it is held by the submission whose completion it is, or
  -- the completion holds the callback of that event, which gives back, when it runs, all memory that
  -- the entry refers to, unless the event is a static timeout.
  pub run-InCustody :
      (xs : List (Action D)) (subs : Submissions D) (w : World)
      → Custody subs w
      → Schedule D xs subs w
      → Returns (λ subs' v. Custody subs' v × ((a : ℕ) → InCustody a subs' v)) (run D xs subs w)
  run-InCustody xs subs w custody schedule =
      Returns-map (run-Custody xs subs w custody schedule)
        λ subs' v custody'. (custody', address-InCustody subs' v custody')
