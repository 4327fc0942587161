-- ===== src/File/System/Steps.antt =====
-- What each call on a file does to the custody of its memory.
use ringbahn.Base.{ℕ, ◌≡◌, ◌≢◌, none, subst}
use ringbahn.Operation.{Slice}
use ringbahn.Machine.{World, Poll}
use ringbahn.Completion.Types.{IoResult}
use ringbahn.Ring.{State}
use ringbahn.Ring.System.Boxes as Boxes
use ringbahn.Ring.System.Boxes.{touched, InBox, InCustody}
use ringbahn.Ring.System.Boxes.Steps.{Custody-Cancels}
use ringbahn.Buf.{Buffer}
use ringbahn.Ring.System.Boxes.Safe.{Safe, Safe-Cancels, Cancels-unused}
use ringbahn.Ring.Cancels.{Cancels}
use ringbahn.Cancellation
use ringbahn.Cancellation.Frees.{Frees}
use ringbahn.Drive.{Context}
use ringbahn.Buf.Fits.{Fits}
use ringbahn.Stream.Box.{read-Polled}
use ringbahn.Ring.System.Entries.{Cancels-none}
use ringbahn.File.Handle.{into_cancellation, Op, File}
use ringbahn.File.Sound.{Guarded, continues, interrupts, default-Fits}
use ringbahn.File.Reading.{Reads, held, unready, failed, has_read}
use ringbahn.File.System.Custody.{Custody, into_cancellation-GivesBox, into_cancellation-Frees}

-- What the guard leaves, for the operation that follows.
pub record Left {Driver : Type 0} (ctx : Context) (g : File Driver) (buf : Buffer) (u : World)
    : Type 0 where
  pub fits : Fits buf
  pub ring : Boxes.Custody g.ring.state buf.contents u
  pub free : u.completions ctx.fresh ≡ none
  pub memory : Safe buf.contents u
  pub unused : u.boxes ctx.fresh_box ≡ none

-- A file that is cancelled has no box.
pub Safe-left :
    {Driver : Type 0} {f : File Driver} {w v : World} {t : State}
    → (custody : Custody f w) → Cancels (into_cancellation f.buf) w f.ring.state t v
    → Safe none v
Safe-left {f} custody outcome =
    Safe-Cancels (into_cancellation f.buf) custody.memory
      (λ inside x bytes h.
        into_cancellation-GivesBox custody.buf inside x bytes
          (subst (λ b. Frees (Cancellation.drop inside (into_cancellation b)) x) custody.has h))
      outcome

pub Guarded-Left :
    {Driver : Type 0} {op : Op} {f g : File Driver} {buf : Buffer} {w u : World} (ctx : Context)
    → Guarded op f w g buf u
    → Custody f w
    → w.completions ctx.fresh ≡ none
    → w.boxes ctx.fresh_box ≡ none
    → Left ctx g buf u
Guarded-Left {w} ctx (continues {buf} same has) custody free unused =
    let q : custody.buf ≡ buf = cc (custody.has, has) in
    record {
      fits = subst Fits q custody.fits;
      ring = subst (λ b. Boxes.Custody _ b.contents w) q custody.ring;
      free = free;
      memory = subst (λ b. Safe b.contents w) q custody.memory;
      unused = unused;
    }
Guarded-Left {f} ctx (interrupts {ring} {v} other outcome) custody free unused = record {
  fits = default-Fits;
  ring =
      Custody-Cancels custody.ring outcome
        (λ inside p h. rw custody.has (into_cancellation-Frees custody.buf inside p h)) none;
  free = Cancels-none ctx.fresh outcome free;
  memory = Safe-left custody outcome;
  unused = Cancels-unused ctx.fresh_box outcome unused;
}

pub Reads-Custody :
    {fd fresh fresh_box pos at : ℕ} {buf buf' : Buffer} {w u : World} {s t : State}
    {p : Poll (IoResult Slice)}
    → Reads fd fresh fresh_box pos buf w s t at buf' p u
    → fresh ≢ 0
    → w.completions fresh ≡ none
    → Boxes.Custody s buf.contents w
    → Safe buf.contents w
    → w.boxes fresh_box ≡ none
    → Boxes.Custody t buf'.contents u × Safe buf'.contents u
Reads-Custody (held more) nonnull free custody safe unused = (custody, safe)
Reads-Custody (unready used_up placed polled) nonnull free custody safe unused =
    read-Polled nonnull custody free safe unused placed polled
Reads-Custody (failed used_up placed polled) nonnull free custody safe unused =
    read-Polled nonnull custody free safe unused placed polled
Reads-Custody (has_read used_up placed within polled) nonnull free custody safe unused =
    read-Polled nonnull custody free safe unused placed polled
