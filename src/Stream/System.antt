-- ===== src/Stream/System.antt =====
-- A stream and the kernel: what the stream's task and the kernel may do, in any order.
pub mod Custody
pub mod Actions
pub mod Runs
use ringbahn.Base.{ℕ, ◌+◌, ◌<◌, ◌≡◌, ◌≢◌, ◌⊎◌, false, none, List, [], ◌∷◌}
use ringbahn.Machine.{World, Cmd, pure, ◌>>=◌, ◌>>◌}
use ringbahn.Completion
use ringbahn.Completion.Types.{IoResult}
use ringbahn.Drive.{Context, Drive}
use ringbahn.Ring.System.{Owed, Next}
use ringbahn.Stream.{
  closed, same_op, TcpStream, consume, poll_fill_buf, poll_write, poll_flush, poll_close,
}
use ringbahn.Stream.Sound.{KernelBounded}
use ringbahn.Stream.Writing.{Backed}

-- The task reads, consumes what it has read, writes, flushes or closes the stream, or the kernel
-- completes an event. Whether a poll is the first of an operation or goes on with one is up to the
-- stream.
pub data Action : Type 0 where
  fills : Context → Action
  consumes : (amt : ℕ) → Action
  writes : Context → (bytes : List ℕ) → Action
  flushes : Context → Action
  closes : Context → Action
  completes : IoResult ℕ → (user_data : ℕ) → Action

module _ (D : Drive) where
  open D use {Driver}

  -- The stream is open, the kernel has read no more into its box than there is room for, and the
  -- allocator hands out addresses that are not in use, for a completion, not the null one, and for a
  -- box.
  abbrev pub Pollable : Context → TcpStream Driver → World → Type 0
  Pollable ctx s w =
      (same_op s.active closed ≡ false)
      × KernelBounded s.ring.state w
      × (ctx.fresh ≢ 0)
      × (w.completions ctx.fresh ≡ none)
      × (w.boxes ctx.fresh_box ≡ none)

  -- An open stream is polled; the start of the data has 32 bits; the kernel completes what it owes, or the entry of a cancellation, whose address is null.
  abbrev pub Permitted : Action → TcpStream Driver → World → Type 0
  Permitted (fills ctx) s w = Pollable ctx s w
  Permitted (consumes amt) s w = s.buf.pos + amt < 4294967296
  Permitted (writes ctx bytes) s w = Pollable ctx s w
  Permitted (flushes ctx) s w = Pollable ctx s w
  Permitted (closes ctx) s w = Pollable ctx s w
  Permitted (completes result a) s w = (a ≡ 0) ⊎ Owed (w.completions a)

  -- the stream after an action; the answer to its task is left out
  unfoldable pub perform : Action → TcpStream Driver → Cmd (TcpStream Driver)
  perform (fills ctx) s = do (s', _) ← poll_fill_buf D ctx s; pure s'
  perform (consumes amt) s = pure (consume amt s)
  perform (writes ctx bytes) s = do (s', _) ← poll_write D ctx bytes s; pure s'
  perform (flushes ctx) s = do (s', _) ← poll_flush D ctx s; pure s'
  perform (closes ctx) s = do (s', _) ← poll_close D ctx s; pure s'
  perform (completes result a) s = Completion.complete result a >> pure s

  unfoldable pub run : List Action → TcpStream Driver → Cmd (TcpStream Driver)
  unfolding perform
  run [] s = pure s
  run (x ∷ xs) s = do s' ← perform x s; run xs s'

  -- Each action is permitted when its turn comes.
  abbrev pub Schedule : List Action → TcpStream Driver → World → Type 0
  Schedule [] s w = Unit {0}
  Schedule (x ∷ xs) s w = Permitted x s w × Next (Schedule xs) (perform x s w)
