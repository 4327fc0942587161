-- ===== src/Demo.antt =====
-- src/drive/demo.rs: a driver on one io-uring instance for the whole program.
pub mod Contract
pub mod Spins
pub mod Stale
pub mod Thread
pub mod Defaults
use ringbahn.Base.{ℕ, zero, suc, Bool, false, Option, none, some, ◌==◌, if◌then◌else◌}
use ringbahn.Machine.{World, Cmd, Run, out_of_fuel, pure, ◌>>=◌, Poll, pending, ready}
use ringbahn.Completion.Types.{IoResult, ok, err, Error, os, invalid_input}
use ringbahn.Drive.{Context, Offer, offered, refused, Drive}

-- The crates iou and event_listener: the submission queue of the instance, with its iterators over
-- entries, and the event that the completion thread notifies, with the futures that listen to it.
pub record Iou : Type 1 where
  pub Sqes : Type 0
  pub next_hard_linked : Sqes → Option Sqes
  pub single : Sqes → Option Sqes
  pub prepare_sqes : ℕ → Cmd (Option Sqes)
  pub submit : Cmd (IoResult ℕ)
  pub Listener : Type 0
  pub listen : Cmd Listener
  pub poll_listener : Context → Listener → Cmd (Poll (Unit {0}) × Listener)

-- `ENTRIES`
abbrev pub entries : ℕ
entries = 32

-- `err.raw_os_error().map_or(false, |code| code == libc::EBUSY)`
unfoldable pub is_ebusy : Error → Bool
is_ebusy (os code) = code == 16
is_ebusy invalid_input = false

module _ (I : Iou) where
  open I use {Sqes, prepare_sqes, submit, Listener, listen, poll_listener}

  pub record DemoDriver : Type 0 where
    pub listener : Option Listener

  -- `driver`, with which `Default` and `Clone` answer too
  unfoldable pub driver : DemoDriver
  driver = record { listener = none }

  -- the listener's part of `poll_submit_inner`
  unfoldable pub wait : Context → Option Listener → Cmd (Poll (Unit {0}) × DemoDriver)
  wait ctx none = pure (ready tt, record { listener = none })
  wait ctx (some l) = do (p, l') ← poll_listener ctx l; pure (p, record { listener = some l' })

  -- what `poll_submit_inner` makes of the result of `sq.submit()`
  unfoldable pub submit_answer : DemoDriver → IoResult ℕ → Cmd (Poll (IoResult ℕ) × DemoDriver)
  unfolding is_ebusy
  submit_answer d (ok n) = pure (ready (ok n), d)
  submit_answer d (err e) =
      if is_ebusy e
      then (do l ← listen; pure (pending, record { listener = some l }))
      else pure (ready (err e), d)

  -- `poll_submit_inner`, once the listener has answered
  unfoldable pub submit_after : Poll (Unit {0}) → DemoDriver → Cmd (Poll (IoResult ℕ) × DemoDriver)
  unfolding submit_answer
  submit_after pending d = pure (pending, d)
  submit_after (ready _) d = submit >>= submit_answer d

  -- `poll_submit_inner`, and `poll_submit`. The completion thread, which it starts, acts as part of the
  -- kernel.
  unfoldable pub poll_submit : Context → DemoDriver → Cmd (Poll (IoResult ℕ) × DemoDriver)
  unfolding wait submit_after
  poll_submit ctx d = do (p, d') ← wait ctx d.listener; submit_after p d'

  -- where there was no room for the entries: what `poll_submit_inner` answers, but that it is not ready,
  -- is not looked at. `go_on` is the next round of the loop.
  unfoldable pub prepare_again :
      (go_on : DemoDriver → Cmd (Offer Sqes × DemoDriver))
      → DemoDriver
      → Poll (IoResult ℕ)
      → Cmd (Offer Sqes × DemoDriver)
  prepare_again go_on d pending = pure (refused, d)
  prepare_again go_on d (ready _) = go_on d

  -- a round of the loop of `poll_prepare`
  unfoldable pub prepare_round :
      (go_on : DemoDriver → Cmd (Offer Sqes × DemoDriver))
      → Context
      → DemoDriver
      → Option Sqes
      → Cmd (Offer Sqes × DemoDriver)
  unfolding poll_submit prepare_again
  prepare_round go_on ctx d (some sqs) = pure (offered sqs, d)
  prepare_round go_on ctx d none = do (p, d') ← poll_submit ctx d; prepare_again go_on d' p

  -- `poll_prepare`, with fuel for its loop
  unfoldable pub poll_prepare :
      (fuel : ℕ) → Context → (count : ℕ) → DemoDriver → Cmd (Offer Sqes × DemoDriver)
  unfolding prepare_round
  poll_prepare zero ctx count d = λ w. out_of_fuel
  poll_prepare (suc fuel) ctx count d = do
    sqs ← prepare_sqes count
    prepare_round (poll_prepare fuel ctx count) ctx d sqs

  -- `impl Drive for DemoDriver`
  abbrev pub drive : (fuel : ℕ) → Drive
  drive fuel = record {
    Driver = DemoDriver;
    Sqes = Sqes;
    poll_prepare = poll_prepare fuel;
    poll_submit = poll_submit;
    next_hard_linked = I.next_hard_linked;
    single = I.single;
    clone = λ _. driver;
  }
