-- ===== src/Demo/Contract.antt =====
-- The demo driver and the contract of the trait for entries, completions and memory, where the crates
-- that it uses do their part.
use ringbahn.Base.{ℕ, suc, ◌≤◌, ◌≡◌, refl, ◌∙◌, true, Option, none, some, arith}
use ringbahn.Machine.{World, Poll, pending, ready}
use ringbahn.Machine.Returns.{Returns, returned, Returns-and_then, Returns-map, outcome}
use ringbahn.Completion.Types.{IoResult, ok, err}
use ringbahn.Drive.{Context, Offer}
use ringbahn.Drive.Conforms.{
  Conforms, same, Evolve-trans, Evolves, Suffices, Answers, offers, refuses,
}
use ringbahn.Drive.Spares.{Spares-refl, Spares-trans}
use ringbahn.Demo.{
  Iou, DemoDriver, entries, is_ebusy, wait, submit_answer, submit_after, poll_submit, prepare_again,
  prepare_round, poll_prepare, drive,
}

Evolves-trans : {w v u : World} → Evolves w v → Evolves v u → Evolves w u
Evolves-trans e f = record {
  completions = λ a. Evolve-trans (e.completions a) (f.completions a);
  queue = f.queue ∙ e.queue;
  spares = Spares-trans e.spares f.spares;
}

Evolves-refl : (w : World) → Evolves w w
Evolves-refl w = record { completions = λ a. same; queue = refl; spares = Spares-refl w }

module _ (I : Iou) where
  open I use {Sqes, prepare_sqes, submit, Listener, listen, poll_listener}

  -- The iterator that is made has the entries that were asked for.
  abbrev pub Makes : ℕ → Option Sqes → Type 0
  Makes count none = Unit {0}
  Makes count (some sqs) = Suffices (drive I 0) count sqs

  -- The fuel of the loop is of no matter to the entries.
  Answers-drive :
      {count : ℕ} {o : Offer Sqes} (fuel : ℕ)
      → Answers (drive I 0) count o
      → Answers (drive I fuel) count o
  Answers-drive fuel (offers s) = offers (record { one = s.one; two = s.two })
  Answers-drive fuel refuses = refuses

  -- There is room for as many entries as the queue has at all.
  abbrev pub Room : World → Type 0
  Room v =
      (count : ℕ)
      → count ≤ entries
      → Returns
          (λ r u. ((sqs : Sqes) × (r ≡ some sqs) × Suffices (drive I 0) count sqs) × Evolves v u)
          (prepare_sqes count v)

  -- After a submission that succeeds the queue is empty; one that fails does so with `EBUSY`.
  abbrev pub Submits : IoResult ℕ → World → Type 0
  Submits (ok n) v = Room v
  Submits (err e) v = is_ebusy e ≡ true

  -- What the driver relies on: each call returns, the kernel may complete events in the meantime, and
  -- a listener can be polled, also one that has been ready before.
  pub record Serves : Type 0 where
    pub prepares :
        (count : ℕ) (w : World)
        → Returns (λ r v. Makes count r × Evolves w v) (prepare_sqes count w)
    pub submits : (w : World) → Returns (λ r v. Submits r v × Evolves w v) (submit w)
    pub listens : (w : World) → Returns (λ l v. Evolves w v) (listen w)
    pub wakes :
        (ctx : Context) (l : Listener) (w : World)
        → Returns (λ r v. Evolves w v) (poll_listener ctx l w)

  module _ (serves : Serves) where
    wait-Evolves :
        (ctx : Context) (o : Option Listener) (w : World)
        → Returns (λ r v. Evolves w v) (wait I ctx o w)
    unfolding wait
    wait-Evolves ctx none w = returned (Evolves-refl w)
    wait-Evolves ctx (some l) w = Returns-and_then (serves.wakes ctx l w) λ r v e. returned e

    -- A submission that is not pending has left the queue empty.
    abbrev Submitted : Poll (IoResult ℕ) × DemoDriver I → World → Type 0
    Submitted (pending, d) v = Unit {0}
    Submitted (ready r, d) v = Room v

    submit_answer-Submitted :
        (d : DemoDriver I) (r : IoResult ℕ) (w v : World)
        → Submits r v
        → Evolves w v
        → Returns (λ a u. Submitted a u × Evolves w u) (submit_answer I d r v)
    unfolding submit_answer
    submit_answer-Submitted d (ok n) w v room e = returned (room, e)
    submit_answer-Submitted d (err x) w v busy e =
        rw busy (Returns-and_then (serves.listens v) λ l u e'. returned (tt, Evolves-trans e e'))

    submit_after-Submitted :
        (p : Poll (Unit {0})) (d : DemoDriver I) (w : World)
        → Returns (λ a u. Submitted a u × Evolves w u) (submit_after I p d w)
    unfolding submit_after
    submit_after-Submitted pending d w = returned (tt, Evolves-refl w)
    submit_after-Submitted (ready _) d w =
        Returns-and_then (serves.submits w) λ r v (s, e). submit_answer-Submitted d r w v s e

    poll_submit-Submitted :
        (ctx : Context) (d : DemoDriver I) (w : World)
        → Returns (λ a u. Submitted a u × Evolves w u) (poll_submit I ctx d w)
    unfolding poll_submit
    poll_submit-Submitted ctx d w = Returns-and_then (wait-Evolves ctx d.listener w) λ (p, d') v e.
        Returns-map (submit_after-Submitted p d' v) λ a u (s, f). (s, Evolves-trans e f)

    abbrev Offers : (w : World) → ℕ → Offer Sqes × DemoDriver I → World → Type 0
    Offers w count (o, d) v = Answers (drive I 0) count o × Evolves w v

    -- The round after a submission finds room.
    last_round :
        (fuel count : ℕ) (ctx : Context) (d : DemoDriver I) (w : World)
        → count ≤ entries
        → Room w
        → Returns (λ o v. Offers w count o v) (poll_prepare I (suc fuel) ctx count d w)
    unfolding poll_prepare
    last_round fuel count ctx d w fits room =
        Returns-and_then (room count fits) λ r v ((sqs, e, s), ev). rw e (returned (offers s, ev))

    prepare_again-Offers :
        (fuel count : ℕ) (ctx : Context) (d : DemoDriver I) (p : Poll (IoResult ℕ)) (w v : World)
        → count ≤ entries
        → Submitted (p, d) v
        → Evolves w v
        → Returns
            (λ o u. Offers w count o u)
            (prepare_again I (poll_prepare I (suc fuel) ctx count) d p v)
    unfolding prepare_again
    prepare_again-Offers fuel count ctx d pending w v fits s e = returned (refuses, e)
    prepare_again-Offers fuel count ctx d (ready r) w v fits room e =
        Returns-map (last_round fuel count ctx d v fits room) λ o u (a, f). (a, Evolves-trans e f)

    prepare_round-Offers :
        (fuel count : ℕ) (ctx : Context) (d : DemoDriver I) (r : Option Sqes) (w v : World)
        → count ≤ entries
        → Makes count r
        → Evolves w v
        → Returns
            (λ o u. Offers w count o u)
            (prepare_round I (poll_prepare I (suc fuel) ctx count) ctx d r v)
    unfolding prepare_round
    prepare_round-Offers fuel count ctx d (some sqs) w v fits s e = returned (offers s, e)
    prepare_round-Offers fuel count ctx d none w v fits s e =
        Returns-and_then (poll_submit-Submitted ctx d v) λ (p, d') u (t, f).
          prepare_again-Offers fuel count ctx d' p w u fits t (Evolves-trans e f)

    poll_prepare-Offers :
        (fuel : ℕ) (ctx : Context) (count : ℕ) (d : DemoDriver I) (w : World)
        → count ≤ entries
        → Returns (λ o v. Offers w count o v) (poll_prepare I (suc (suc fuel)) ctx count d w)
    unfolding poll_prepare
    poll_prepare-Offers fuel ctx count d w fits =
        Returns-and_then (serves.prepares count w)
          λ r v (m, e). prepare_round-Offers fuel count ctx d r w v fits m e

    pub drive-Conforms : (fuel : ℕ) → Conforms (drive I (suc (suc fuel)))
    drive-Conforms fuel = record {
      limit = entries;
      enough = omega arith;
      small = omega arith;
      prepares = λ ctx count d w fits.
          let ((o, d'), v, e, (a, ev)) = outcome (poll_prepare-Offers fuel ctx count d w fits) in
          (o, d', v, e, Answers-drive _ a, ev);
      submits = λ ctx d w.
          let ((p, d'), v, e, (s, ev)) = outcome (poll_submit-Submitted ctx d w) in
          (p, d', v, e, ev);
    }
