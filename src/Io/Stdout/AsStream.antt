-- ===== src/Io/Stdout/AsStream.antt =====
-- The standard output behaves as a stream of descriptor 1 that is written to.
use ringbahn.Base.{ℕ, ◌≡◌, refl, List}
use ringbahn.Operation.{Slice}
use ringbahn.Machine.{
  World, Run, returns, panics, faults, out_of_fuel, pure, and_then, ◌>>=◌, Poll, pending, ready,
}
use ringbahn.Completion.Types.{IoResult, ok, err}
use ringbahn.Drive.{Context, Drive}
use ringbahn.Ring.{Ring}
use ringbahn.Buf.{Buffer}
use ringbahn.Stream as Stream
use ringbahn.Stream.{TcpStream}
use ringbahn.Io.Stdout as Stdout
use ringbahn.Io.Stdout.{Stdout, stdout_fileno}

-- the stream with the ring and the buffer of a standard output
abbrev pub as_stream : {Driver : Type 0} → Stdout Driver → TcpStream Driver
as_stream s = record { ring = s.ring; buf = s.buf; active = Stream.write; fd = stdout_fileno }

abbrev pub through : {Driver A : Type 0} → Stdout Driver × A → TcpStream Driver × A
through (s, a) = (as_stream s, a)

module _ (D : Drive) (ctx : Context) where
  open D use {Driver}

  written-as_stream :
      (s : Stdout Driver) (p : Poll (IoResult ℕ))
      → Stream.written D (as_stream s) p ≡ through (Stdout.written D s p)
  unfolding Stream.written Stdout.written
  written-as_stream s pending = refl
  written-as_stream s (ready (err e)) = refl
  written-as_stream s (ready (ok n)) = refl

  -- The two answers, from the run of the ring.
  answers :
      (s : Stdout Driver) (m : Run (Ring Driver × Poll (IoResult ℕ)))
      → and_then m (λ (ring, p). pure (Stream.written D (as_stream (record s { ring = ring })) p))
        ≡ and_then
            (and_then m (λ (ring, p). pure (Stdout.written D (record s { ring = ring }) p)))
            (λ a. pure (through a))
  answers s (returns (ring, p) w) = rw (written-as_stream (record s { ring = ring }) p) refl
  answers s (panics p) = refl
  answers s faults = refl
  answers s out_of_fuel = refl

  write_out-as_stream :
      (s : Stdout Driver) (p : Poll (IoResult Slice)) (w : World)
      → Stream.write_out D ctx (as_stream s) p w
        ≡ and_then (Stdout.write_out D ctx s p w) (λ a. pure (through a))
  unfolding Stream.write_out Stdout.write_out
  write_out-as_stream s pending w = refl
  write_out-as_stream s (ready (err e)) w = refl
  write_out-as_stream s (ready (ok slice)) w = answers s _

  -- from the run of the buffer
  outs :
      (s : Stdout Driver) (m : Run (Unit {0} × Buffer × Poll (IoResult Slice)))
      → and_then m (λ (_, buf, p). Stream.write_out D ctx (as_stream (record s { buf = buf })) p)
        ≡ and_then
            (and_then m (λ (_, buf, p). Stdout.write_out D ctx (record s { buf = buf }) p))
            (λ a. pure (through a))
  outs s (returns (u, buf, p) w) = write_out-as_stream (record s { buf = buf }) p w
  outs s (panics p) = refl
  outs s faults = refl
  outs s out_of_fuel = refl

  -- `poll_write` of the standard output does to its ring, its buffer and the memory what `poll_write` of
  -- a `TcpStream` with the same ring and buffer, the descriptor 1 and a write as its operation does, and
  -- answers the same; it panics where that panics.
  pub poll_write-as_stream :
      (bytes : List ℕ) (s : Stdout Driver) (w : World)
      → Stream.poll_write D ctx bytes (as_stream s) w
        ≡ (Stdout.poll_write D ctx bytes s >>= λ a. pure (through a)) w
  unfolding Stream.poll_write Stdout.poll_write Stream.guard_op Stream.same_op Stream.write_into
      Stdout.write_into
  poll_write-as_stream bytes s w = outs s _
