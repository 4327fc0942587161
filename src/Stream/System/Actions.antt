-- ===== src/Stream/System/Actions.antt =====
-- Each action keeps the custody of a stream's memory.
use ringbahn.Base.{ℕ, ◌+◌, ◌<◌, ◌≡◌, refl, sym, ◌∙◌, ◌⊎◌, true, false, none, List, [], ap, subst}
use ringbahn.Operation.{Operation}
use ringbahn.Machine.{World, pure, ◌>>◌, Poll, pending, ready, close_fd}
use ringbahn.Machine.Returns.{Returns, returned, Returns-and_then, Returns-map}
use ringbahn.Completion
use ringbahn.Completion.Types.{IoResult, ok, err}
use ringbahn.Drive.{Context, Drive}
use ringbahn.Drive.Conforms.{Conforms}
use ringbahn.Event.Memory.{pointers}
use ringbahn.Ring.{State}
use ringbahn.Ring.Spec.{Idle, is_inert, Polled}
use ringbahn.Ring.Answers.{ready-inert}
use ringbahn.Ring.Cancels.{cancel-Cancels}
use ringbahn.Ring.System.{Owed}
use ringbahn.Ring.System.Completes.{complete-Completes}
use ringbahn.Ring.System.Runs.{Completes-Evolve}
use ringbahn.Ring.System.Entries.{Completes-queue}
use ringbahn.Ring.System.Boxes as Boxes
use ringbahn.Ring.System.Boxes.Safe.{
  Safe, Safe-Idle, Safe-Spares, Safe-Completes, Safe-Backed, Safe-Cancels,
}
use ringbahn.Ring.System.Boxes.{touched}
use ringbahn.Ring.System.Boxes.Steps.{Custody-Evolve, Custody-Polled, Custody-Cancels, Custody-Idle}
use ringbahn.Buf
use ringbahn.Buf.Fits.{consume-Fits}
use ringbahn.Stream
use ringbahn.Stream.{
  Op, read, write, close, nothing, closed, same_op, TcpStream, cancel_ring, drop_active, poll_write,
  poll_flush, to_unit,
}
use ringbahn.Stream.Sound.{KernelBounded, IsSound}
use ringbahn.Stream.Reading.{poll_fill_buf-Fills}
use ringbahn.Stream.Writing.{poll_write-Offers}
use ringbahn.Stream.Closing.{left_as, Guarded-active, poll_close-left_as}
use ringbahn.Stream.Box.{contents-Frees, contents-GivesBox, Offers-Custody}
use ringbahn.Stream.System.{fills, writes, flushes, closes, Pollable, Permitted, perform}
use ringbahn.Stream.System.Custody.{Custody, at_rest, Guarded-Left, Fills-Custody}

module _ {Driver : Type 0} {s : TcpStream Driver} {w : World} (custody : Custody s w) where
  Custody-IsSound : KernelBounded s.ring.state w → IsSound s w
  Custody-IsSound bounded = record {
    fits = custody.fits;
    owns = custody.ring.owns;
    bounded = bounded;
  }

  cancels-Custody :
      Returns (λ s' v. Boxes.Custody s'.ring.state none v × Safe none v) (Stream.cancel s w)
  unfolding Stream.cancel cancel_ring Buf.cancellation
  cancels-Custody = Returns-and_then (cancel-Cancels _ w s.ring custody.ring.owns) λ ring v outcome.
      returned (
        Custody-Cancels custody.ring outcome (contents-Frees s.buf.contents) none,
        Safe-Cancels _ custody.memory (contents-GivesBox s.buf.contents) outcome,
      )

  rests-Custody :
      Idle s.ring.state
      → {v : World} → v ≡ record w { closed = v.closed }
      → Returns (λ s' u. Boxes.Custody s'.ring.state none u × Safe none u) (pure s v)
  rests-Custody idle e = returned (Custody-Idle idle e custody.ring, Safe-Idle e custody.memory)

  drops-Custody :
      (op : Op)
      → s.active ≡ op
      → Returns (λ s' v. Boxes.Custody s'.ring.state none v × Safe none v) (drop_active op s w)
  unfolding drop_active close_fd same_op
  drops-Custody closed e = rests-Custody (custody.rests (rw e refl)) refl
  drops-Custody nothing e = rests-Custody (custody.rests (rw e refl)) refl
  drops-Custody read e = cancels-Custody
  drops-Custody write e = cancels-Custody
  drops-Custody close e = cancels-Custody

  pub drop-Custody :
      Returns (λ s' v. Boxes.Custody s'.ring.state none v × Safe none v) (Stream.drop s w)
  unfolding Stream.drop
  drop-Custody = drops-Custody s.active refl

  pub completes-Custody :
      (result : IoResult ℕ) (a : ℕ)
      → (a ≡ 0) ⊎ Owed (w.completions a)
      → Returns (λ s' v. Custody s' v) ((Completion.complete result a >> pure s) w)
  completes-Custody result a permitted =
      Returns-and_then (complete-Completes result a w permitted) λ _ v done. returned (record {
        fits = custody.fits;
        rests = custody.rests;
        ring = Custody-Evolve custody.ring (Completes-Evolve done) (Completes-queue done);
        memory = Safe-Completes custody.memory done;
      })

  pub consumes-Custody : (amt : ℕ) → s.buf.pos + amt < 4294967296 → Custody (Stream.consume amt s) w
  unfolding Stream.consume
  consumes-Custody amt small =
      let (fits, rest, same_box) = consume-Fits amt s.buf custody.fits small in
      record {
        fits = fits;
        rests = custody.rests;
        ring = subst (λ c. Boxes.Custody s.ring.state c w) (sym same_box) custody.ring;
        memory = subst (λ c. Safe c w) (sym same_box) custody.memory;
      }

busy_op : (op a : Op) → a ≡ op → at_rest op ≡ false → at_rest a ≡ true → ⊥
busy_op op a e busy rests = cc

module _ (D : Drive) (conforms : Conforms D) (ctx : Context) (s : TcpStream D.Driver) (w : World)
    (custody : Custody s w) where
  pub fills-Custody :
      Pollable D ctx s w → Returns (λ s' v. Custody s' v) (perform D (fills ctx) s w)
  unfolding perform same_op
  fills-Custody (open?, bounded, nonnull, free, unused) =
      Returns-and_then
        (poll_fill_buf-Fills D conforms ctx s w (Custody-IsSound custody bounded) open?)
        λ (s', p) v ((fits, owns), (g, u, guarded, shape, outcome, reads)).
          let l = Guarded-Left ctx guarded custody free unused in
          let (ring, memory) = Fills-Custody reads nonnull l.free l.ring l.memory l.unused in
          returned (record {
            fits = fits;
            rests = λ r.
                absurd (
                  busy_op read s'.active (ap (λ x. x.active) shape ∙ Guarded-active guarded) refl
                    r);
            ring = ring;
            memory = memory;
          })

  write-Custody :
      (bytes : List ℕ)
      → Pollable D ctx s w
      → Returns (λ (s', p) v. Custody s' v) (poll_write D ctx bytes s w)
  unfolding same_op
  write-Custody bytes (open?, bounded, nonnull, free, unused) =
      Returns-map
        (poll_write-Offers D conforms ctx bytes s w (Custody-IsSound custody bounded)
          (Safe-Backed custody.memory) open?)
        λ (s', p) x (g, u, guarded, (buf, slice, v, offers, polled, shape)).
          let l = Guarded-Left ctx guarded custody free unused in
          let (fits, ring, memory) =
            Offers-Custody offers polled nonnull l.free l.fits l.ring l.memory l.unused in
          subst (λ t. Custody t x) (sym shape)
            (record {
              fits = fits;
              rests = λ r. absurd (busy_op write g.active (Guarded-active guarded) refl r);
              ring = ring;
              memory = memory;
            })

  pub writes-Custody :
      (bytes : List ℕ)
      → Permitted D (writes ctx bytes) s w
      → Returns (λ s' v. Custody s' v) (perform D (writes ctx bytes) s w)
  unfolding perform
  writes-Custody bytes pollable =
      Returns-and_then (write-Custody bytes pollable) λ (s', p) v custody'. returned custody'

  pub flushes-Custody :
      Permitted D (flushes ctx) s w → Returns (λ s' v. Custody s' v) (perform D (flushes ctx) s w)
  unfolding perform poll_flush
  flushes-Custody pollable =
      Returns-and_then
        (Returns-and_then {P = λ (s', p) v. Custody s' v} (write-Custody [] pollable)
          λ (s', p) v custody'. returned custody')
        λ (s', p) v custody'. returned custody'

  -- A stream is at rest after a poll that closes it only if the kernel has closed it.
  closes_rests :
      {op : Operation} {fresh : ℕ} {w v : World} {s t : State} (answer : Poll (IoResult ℕ))
      → Polled op fresh w s t answer v
      → at_rest (left_as answer) ≡ true
      → Idle t
  unfolding same_op
  closes_rests pending polled r = absurd (let f : ⊥ = cc in f)
  closes_rests (ready (err e)) polled r = absurd (let f : ⊥ = cc in f)
  closes_rests (ready (ok n)) polled r =
      let (rests, _) = ready-inert polled.transition refl in rw rests is_inert

  pub closes-Custody :
      Pollable D ctx s w → Returns (λ s' v. Custody s' v) (perform D (closes ctx) s w)
  unfolding perform touched pointers
  closes-Custody (open?, bounded, nonnull, free, unused) =
      Returns-and_then
        (poll_close-left_as D conforms ctx s w (Custody-IsSound custody bounded) open?)
        λ (s', p) v (g, u, answer, guarded, polled, shape, _).
          let l = Guarded-Left ctx guarded custody free unused in
          returned (
            subst (λ t. Custody t v) (sym shape)
              (record {
                fits = l.fits;
                rests = closes_rests answer polled;
                ring = Custody-Polled l.ring polled nonnull l.free (λ _ h. h) tt;
                memory = Safe-Spares l.memory polled.spares;
              }))
