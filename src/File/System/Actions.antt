-- ===== src/File/System/Actions.antt =====
-- Each action keeps the custody of a file's memory.
use ringbahn.Base.{ℕ, ◌≡◌, refl, sym, ◌∙◌, ◌⊎◌, true, false, none, List, ap, subst}
use ringbahn.Machine.{World, pure, ◌>>◌, Poll, pending, ready, close_fd}
use ringbahn.Completion
use ringbahn.Machine.Returns.{Returns, returned, Returns-and_then}
use ringbahn.Completion.Types.{IoResult, ok, err}
use ringbahn.Operation.{Operation}
use ringbahn.Drive.{Context, Drive}
use ringbahn.Drive.Conforms.{Conforms}
use ringbahn.Event.Memory.{pointers}
use ringbahn.Ring.{State}
use ringbahn.Ring.Spec.{Idle, is_inert, Polled}
use ringbahn.Ring.Answers.{ready-inert}
use ringbahn.Ring.Cancels.{cancel-Cancels}
use ringbahn.Ring.System.{Owed}
use ringbahn.Ring.System.Completes.{complete-Completes}
use ringbahn.Ring.System.Runs.{Completes-Evolve}
use ringbahn.Ring.System.Entries.{Completes-queue}
use ringbahn.Ring.System.Boxes as Boxes
use ringbahn.Ring.System.Boxes.Safe.{Safe, Safe-Idle, Safe-Spares, Safe-Completes, Safe-Backed}
use ringbahn.Ring.System.Boxes.{touched, InBox, InCustody}
use ringbahn.Ring.System.Boxes.Steps.{Custody-Evolve, Custody-Polled, Custody-Cancels, Custody-Idle}
use ringbahn.Buf
use ringbahn.Buf.{Buffer}
use ringbahn.Buf.Fits.{consume-Fits}
use ringbahn.Stream.Sound.{KernelBounded}
use ringbahn.Stream.Writing.{after}
use ringbahn.File.Handle as Handle
use ringbahn.File.Handle.{
  left, Op, read, write, close, nothing, closed, statx, same_op, File, unwrap_left,
  into_cancellation, cancel_ring, drop_active,
}
use ringbahn.File.Sound.{IsSound}
use ringbahn.File.Reading.{poll_fill_buf-Reads}
use ringbahn.File.Writing.{poll_write-behind}
use ringbahn.File.Closing.{left_as, Guarded-active, poll_close-left_as}
use ringbahn.File.System.{fills, consumes, writes, closes, Consumable, Permitted, perform}
use ringbahn.File.System.Custody.{Custody, at_rest, into_cancellation-Frees}
use ringbahn.File.System.Steps.{Guarded-Left, Safe-left, Reads-Custody}
use ringbahn.Stream.Box.{Offers-Custody}

module _ {Driver : Type 0} {f : File Driver} {w : World} (custody : Custody f w) where
  Custody-IsSound : KernelBounded f.ring.state w → IsSound f w
  Custody-IsSound bounded = record {
    shaped = rw custody.has custody.fits;
    owns = custody.ring.owns;
    bounded = bounded;
  }

  cancels-Custody :
      Returns (λ f' v. Boxes.Custody f'.ring.state none v × Safe none v) (Handle.cancel f w)
  unfolding Handle.cancel cancel_ring
  cancels-Custody =
      Returns-and_then (cancel-Cancels (into_cancellation f.buf) w f.ring custody.ring.owns)
        λ ring v outcome. returned (
          Custody-Cancels custody.ring outcome
              (λ inside p h. rw custody.has (into_cancellation-Frees custody.buf inside p h)) none,
          Safe-left custody outcome,
        )

  rests-Custody :
      Idle f.ring.state
      → {v : World} → v ≡ record w { closed = v.closed }
      → Returns (λ f' u. Boxes.Custody f'.ring.state none u × Safe none u) (pure f v)
  rests-Custody idle e = returned (Custody-Idle idle e custody.ring, Safe-Idle e custody.memory)

  drops-Custody :
      (op : Op)
      → f.active ≡ op
      → Returns (λ f' v. Boxes.Custody f'.ring.state none v × Safe none v) (drop_active op f w)
  unfolding drop_active close_fd same_op
  drops-Custody closed e = rests-Custody (custody.rests (rw e refl)) refl
  drops-Custody nothing e = rests-Custody (custody.rests (rw e refl)) refl
  drops-Custody read e = cancels-Custody
  drops-Custody write e = cancels-Custody
  drops-Custody close e = cancels-Custody
  drops-Custody statx e = cancels-Custody

  pub drop-Custody :
      Returns (λ f' v. Boxes.Custody f'.ring.state none v × Safe none v) (Handle.drop f w)
  unfolding Handle.drop
  drop-Custody = drops-Custody f.active refl

  pub completes-Custody :
      (result : IoResult ℕ) (a : ℕ)
      → (a ≡ 0) ⊎ Owed (w.completions a)
      → Returns (λ f' v. Custody f' v) ((Completion.complete result a >> pure f) w)
  completes-Custody result a permitted =
      Returns-and_then (complete-Completes result a w permitted) λ _ v done. returned (record {
        buf = custody.buf;
        has = custody.has;
        fits = custody.fits;
        rests = custody.rests;
        ring = Custody-Evolve custody.ring (Completes-Evolve done) (Completes-queue done);
        memory = Safe-Completes custody.memory done;
      })

busy_op : (op a : Op) → a ≡ op → at_rest op ≡ false → at_rest a ≡ true → ⊥
busy_op op a e busy rests = cc

module _ (D : Drive) (conforms : Conforms D) where
  pub fills-Custody :
      (ctx : Context) (f : File D.Driver) (w : World)
      → Custody f w
      → Permitted D (fills ctx) f w
      → Returns (λ f' v. Custody f' v) (perform D (fills ctx) f w)
  unfolding perform same_op
  fills-Custody ctx f w custody (open?, bounded, (nonnull, free, unused)) =
      Returns-and_then
        (poll_fill_buf-Reads D conforms ctx f w (Custody-IsSound custody bounded) open?)
        λ (f', p) v (g, u, buf, buf', guarded, reads, fits, owns, shape).
          let l = Guarded-Left ctx guarded custody free unused in
          let (ring, memory) = Reads-Custody reads nonnull l.free l.ring l.memory l.unused in
          returned (record {
            buf = buf';
            has = ap (λ x. x.buf) shape;
            fits = fits;
            rests = λ r.
                absurd (
                  busy_op read f'.active (ap (λ x. x.active) shape ∙ Guarded-active guarded) refl
                    r);
            ring = ring;
            memory = memory;
          })

  pub writes-Custody :
      (ctx : Context) (bytes : List ℕ) (f : File D.Driver) (w : World)
      → Custody f w
      → Permitted D (writes ctx bytes) f w
      → Returns (λ f' v. Custody f' v) (perform D (writes ctx bytes) f w)
  unfolding perform same_op
  writes-Custody ctx bytes f w custody (open?, bounded, (nonnull, free, unused)) =
      Returns-and_then
        (poll_write-behind D conforms ctx bytes f w (Custody-IsSound custody bounded)
          (rw custody.has (Safe-Backed custody.memory)) open?)
        λ (f', p) x (g, u, old, guarded, (buf, slice, v, offers, polled, shape)).
          let l = Guarded-Left ctx guarded custody free unused in
          let (fits', ring, memory) =
            Offers-Custody offers polled nonnull l.free l.fits l.ring l.memory l.unused in
          returned (record {
            buf = after p buf;
            has = ap (λ x. x.buf) shape;
            fits = fits';
            rests = λ r. absurd (
                busy_op write f'.active (ap (λ x. x.active) shape ∙ Guarded-active guarded) refl r);
            ring = ring;
            memory = memory;
          })

  -- A file is at rest after a poll that closes it only if the kernel has closed it.
  closes_rests :
      {op : Operation} {fresh : ℕ} {w v : World} {s t : State} (answer : Poll (IoResult ℕ))
      → Polled op fresh w s t answer v
      → at_rest (left_as answer) ≡ true
      → Idle t
  unfolding same_op
  closes_rests pending polled r = absurd (let f : ⊥ = cc in f)
  closes_rests (ready (err e)) polled r = absurd (let f : ⊥ = cc in f)
  closes_rests (ready (ok n)) polled r =
      let (rests, _) = ready-inert polled.transition refl in rw rests is_inert

  pub closes-Custody :
      (ctx : Context) (f : File D.Driver) (w : World)
      → Custody f w
      → Permitted D (closes ctx) f w
      → Returns (λ f' v. Custody f' v) (perform D (closes ctx) f w)
  unfolding perform touched pointers
  closes-Custody ctx f w custody (open?, bounded, (nonnull, free, unused)) =
      Returns-and_then
        (poll_close-left_as D conforms ctx f w (Custody-IsSound custody bounded) open?)
        λ (f', p) v (g, u, answer, r, polled, shape, _).
          let l = Guarded-Left ctx r.guarded custody free unused in
          returned (record {
            buf = r.buf;
            has = ap (λ x. x.buf) shape ∙ r.has;
            fits = l.fits;
            rests = λ h. closes_rests answer polled (sym (ap (λ x. at_rest x.active) shape) ∙ h);
            ring = Custody-Polled l.ring polled nonnull l.free (λ _ h. h) tt;
            memory = Safe-Spares l.memory polled.spares;
          })

  pub consumes-Custody :
      (amt : ℕ) (f : File D.Driver) (w : World)
      → Custody f w
      → Permitted D (consumes amt) f w
      → Returns (λ f' v. Custody f' v) (perform D (consumes amt) f w)
  unfolding perform Handle.consume unwrap_left
  consumes-Custody amt f w custody small =
      let small' = subst (Consumable amt) custody.has small in
      let (fits, rest, same_box) = consume-Fits amt custody.buf custody.fits small' in
      rw custody.has (
        returned (record {
          buf = Buf.consume amt custody.buf;
          has = refl;
          fits = fits;
          rests = custody.rests;
          ring = subst (λ c. Boxes.Custody f.ring.state c w) (sym same_box) custody.ring;
          memory = subst (λ c. Safe c w) (sym same_box) custody.memory;
        }))
