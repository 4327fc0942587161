-- ===== src/File/System.antt =====
-- A file and the kernel: what the file's task and the kernel may do, in any order.
pub mod Custody
pub mod Steps
pub mod Actions
pub mod Runs
use ringbahn.Base.{ℕ, ◌+◌, ◌<◌, ◌≡◌, ◌≢◌, ◌⊎◌, false, none, List, [], ◌∷◌}
use ringbahn.Machine.{World, Cmd, pure, ◌>>=◌, ◌>>◌}
use ringbahn.Completion
use ringbahn.Completion.Types.{IoResult}
use ringbahn.Drive.{Context, Drive}
use ringbahn.Ring.System.{Owed, Next}
use ringbahn.Buf.{Buffer}
use ringbahn.Stream.Sound.{KernelBounded}
use ringbahn.File.Handle.{FileBuf, left, right, File, closed, same_op, consume}
use ringbahn.File.Transfer.{poll_fill_buf, poll_write, poll_close}
use ringbahn.File.Writing.{Holds}

-- The task reads, consumes what it has read, writes, or closes the file, or the kernel completes an
-- event. Whether a poll is the first of an operation or goes on with one is up to the file.
pub data Action : Type 0 where
  fills : Context → Action
  consumes : (amt : ℕ) → Action
  writes : Context → (bytes : List ℕ) → Action
  closes : Context → Action
  completes : IoResult ℕ → (user_data : ℕ) → Action

-- The allocator hands out addresses that are not in use, for a completion, not the null one, and for a box.
abbrev pub Fresh : Context → World → Type 0
Fresh ctx w = (ctx.fresh ≢ 0) × (w.completions ctx.fresh ≡ none) × (w.boxes ctx.fresh_box ≡ none)

-- The start of the data, once so much of it is consumed, has 32 bits.
abbrev pub Consumable : ℕ → FileBuf → Type 0
Consumable amt (left buf) = buf.pos + amt < 4294967296
Consumable amt (right p) = Unit {0}

module _ (D : Drive) where
  open D use {Driver}

  -- The file is polled when it has not been closed and the kernel has read no more into its box than
  -- there is room for; the kernel completes what it owes, or the entry of a
  -- cancellation, whose address is null.
  abbrev pub Permitted : Action → File Driver → World → Type 0
  Permitted (fills ctx) f w =
      (same_op f.active closed ≡ false) × KernelBounded f.ring.state w × Fresh ctx w
  Permitted (consumes amt) f w = Consumable amt f.buf
  Permitted (writes ctx bytes) f w =
      (same_op f.active closed ≡ false) × KernelBounded f.ring.state w × Fresh ctx w
  Permitted (closes ctx) f w =
      (same_op f.active closed ≡ false) × KernelBounded f.ring.state w × Fresh ctx w
  Permitted (completes result a) f w = (a ≡ 0) ⊎ Owed (w.completions a)

  -- the file after an action; the answer to its task is left out
  unfoldable pub perform : Action → File Driver → Cmd (File Driver)
  perform (fills ctx) f = do (f', _) ← poll_fill_buf D ctx f; pure f'
  perform (consumes amt) f = consume amt f
  perform (writes ctx bytes) f = do (f', _) ← poll_write D ctx bytes f; pure f'
  perform (closes ctx) f = do (f', _) ← poll_close D ctx f; pure f'
  perform (completes result a) f = Completion.complete result a >> pure f

  unfoldable pub run : List Action → File Driver → Cmd (File Driver)
  unfolding perform
  run [] f = pure f
  run (x ∷ xs) f = do f' ← perform x f; run xs f'

  -- Each action is permitted when its turn comes.
  abbrev pub Schedule : List Action → File Driver → World → Type 0
  Schedule [] f w = Unit {0}
  Schedule (x ∷ xs) f w = Permitted x f w × Next (Schedule xs) (perform x f w)
