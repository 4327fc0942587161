-- ===== src/Io/Print.antt =====
-- src/io.rs: the future that prints. `bytes` is where the bytes are kept, and `idx` how many of them have
-- been written.
pub mod Rounds
use ringbahn.Base.{ℕ, zero, suc, ◌+◌, ◌-◌, Option, none, some, leb, ◌==◌, if◌then◌else◌}
use ringbahn.Operation.{Operation, Slice, BoxedSlice, whole}
use ringbahn.Machine.{Cmd, pure, panic, out_of_range, ◌>>=◌, Poll, pending, ready}
use ringbahn.Completion.Types.{IoResult, ok, err}
use ringbahn.Drive.{Context, Drive, single_sqe}
use ringbahn.Ring
use ringbahn.Ring.{Ring}

pub record Print (Driver : Type 0) : Type 0 where
  pub ring : Ring Driver
  pub fd : ℕ
  pub bytes : BoxedSlice
  pub idx : ℕ

-- `__print` and `__eprint`: the file descriptors 1 and 2
unfoldable pub print : {Driver : Type 0} → Driver → BoxedSlice → Print Driver
print driver bytes = record { ring = Ring.new driver; fd = 1; bytes = bytes; idx = 0 }

unfoldable pub eprint : {Driver : Type 0} → Driver → BoxedSlice → Print Driver
eprint driver bytes = record { ring = Ring.new driver; fd = 2; bytes = bytes; idx = 0 }

-- `&bytes[n..]`
unfoldable pub tail_of : Slice → ℕ → Cmd Slice
tail_of s n =
    if leb n s.len
    then pure (record { address = s.address; start = s.start + n; len = s.len - n })
    else panic out_of_range

module _ (D : Drive) where
  open D use {Driver}

  -- What a round of the loop of `poll` makes of the ring's answer; `slice` is the source's `bytes`, and
  -- `go_on` the loop's next round.
  unfoldable pub round :
      (go_on : Slice → Print Driver → Cmd (Option (Print Driver × Poll (IoResult (Unit {0})))))
      → Slice
      → Print Driver
      → Poll (IoResult ℕ)
      → Cmd (Option (Print Driver × Poll (IoResult (Unit {0}))))
  unfolding tail_of
  round go_on slice p pending = pure (some (p, pending))
  round go_on slice p (ready (err e)) = pure (some (p, ready (err e)))
  round go_on slice p (ready (ok written)) =
      if written == slice.len
      then pure (some (record p { idx = p.idx + written }, ready (ok tt)))
      else do rest ← tail_of slice written; go_on rest (record p { idx = p.idx + written })

  -- The loop of `poll`, with fuel; `none` means that it ran out.
  unfoldable pub poll_loop :
      (fuel : ℕ)
      → Context
      → Slice
      → Print Driver
      → Cmd (Option (Print Driver × Poll (IoResult (Unit {0}))))
  unfolding round
  poll_loop zero ctx slice p = pure none
  poll_loop (suc fuel) ctx slice p = do
    (ring, answer) ← Ring.poll D ctx 1 (single_sqe D (Operation.write p.fd slice 0)) p.ring
    round (poll_loop fuel ctx) slice (record p { ring = ring }) answer

  -- `Future::poll`, where the loop has this much fuel
  unfoldable pub poll :
      (fuel : ℕ) → Context → Print Driver → Cmd (Option (Print Driver × Poll (IoResult (Unit {0}))))
  unfolding tail_of poll_loop
  poll fuel ctx p = do
    slice ← tail_of (whole p.bytes) p.idx
    (if slice.len == 0 then pure (some (p, ready (ok tt))) else poll_loop fuel ctx slice p)
