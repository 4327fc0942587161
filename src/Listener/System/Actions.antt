-- ===== src/Listener/System/Actions.antt =====
-- Each action keeps the custody of a listener's memory.
use ringbahn.Base.{ℕ, ◌≡◌, ◌≢◌, refl, sym, ◌∙◌, ◌⊎◌, true, Option, none, some, ap, subst}
use ringbahn.Operation.{Operation, BoxedSlice}
use ringbahn.Machine.{World, Run, pure, ◌>>◌, Poll, pending, ready, close_fd}
use ringbahn.Machine.Returns.{Returns, returned, Returns-and_then}
use ringbahn.Completion
use ringbahn.Completion.Types.{IoResult, ok, err}
use ringbahn.Completion.Branches.{cleaned}
use ringbahn.Cancellation
use ringbahn.Cancellation.{Cancellation}
use ringbahn.Drive.{Context, Drive}
use ringbahn.Drive.Conforms.{Conforms, same}
use ringbahn.Event.Memory.{pointers}
use ringbahn.Ring.{State}
use ringbahn.Stream.{TcpStream}
use ringbahn.Ring.Spec.{Idle, is_inert, Polled}
use ringbahn.Ring.Answers.{ready-inert}
use ringbahn.Ring.Cancels.{cancel-Cancels}
use ringbahn.Ring.Refines.{poll_one-Polled}
use ringbahn.Ring.System.{Owed}
use ringbahn.Ring.System.Completes.{complete-Completes}
use ringbahn.Ring.System.Runs.{Completes-Evolve}
use ringbahn.Ring.System.Entries.{Completes-queue}
use ringbahn.Ring.System.Boxes as Boxes
use ringbahn.Ring.System.Boxes.Safe.{
  Safe, GivesBox, Safe-Idle, Safe-Spares, Safe-Completes, Safe-Backed, Safe-Cancels, Safe-cleaned,
  Safe-Placed,
}
use ringbahn.Ring.System.Boxes.{touched}
use ringbahn.Ring.System.Boxes.Steps.{
  Custody-Evolve, Custody-Polled, Custody-Cancels, Custody-Idle, Custody-boxes,
}
use ringbahn.Listener as Listener
use ringbahn.Listener.{
  Op, nothing, accept, close, closed, same_op, TcpListener, SockAddrs, cancel_active, drop_active,
  accept_no_addr_answer, poll_accept_no_addr,
}
use ringbahn.Listener.Closing.{guard_op-Guarded, Guarded-active, left_as, poll_close-left_as}
use ringbahn.Listener.Accepting.{
  Boxed, Holds, Accepts, unready, failed, unreadable, of_another_family, with_peer,
  poll_accept-Accepts,
}
use ringbahn.Listener.System.{
  accepts, accepts_no_addr, closes, Ends, ended, Ends-and_then, Pollable, perform,
}
use ringbahn.Listener.System.Custody.{
  Custody, Left, as_box, at_rest, addr-Frees, addr-GivesBox, Guarded-Left, Boxed-Placed,
}

-- A ring that is ready needs no box.
ready-Custody :
    {op : Operation} {fresh n : ℕ} {contents : Option BoxedSlice} {w x : World} {s t : State}
    (callback : Cancellation)
    → Polled op fresh w s t (ready (ok n)) x
    → Boxes.Custody t contents x × Safe contents x
    → GivesBox contents callback
    → Boxes.Custody t none (cleaned x callback) × Safe none (cleaned x callback)
ready-Custody {x} callback polled (custody, safe) only =
    let (rests, _) = ready-inert polled.transition refl in
    (
      Custody-Idle {w = cleaned x callback} (subst Idle (sym rests) is_inert) refl
          (Custody-Evolve custody (λ a. same) refl),
      Safe-cleaned callback safe only,
    )

module _ {Driver : Type 0} {l : TcpListener Driver} {w : World} (custody : Custody l w) where
  rests-Custody :
      Idle l.ring.state
      → {v : World} → v ≡ record w { closed = v.closed }
      → Returns (λ l' u. Boxes.Custody l'.ring.state none u × Safe none u) (pure l v)
  rests-Custody idle e = returned (Custody-Idle idle e custody.ring, Safe-Idle e custody.memory)

  drops-Custody :
      (op : Op)
      → l.active ≡ op
      → Returns (λ l' v. Boxes.Custody l'.ring.state none v × Safe none v) (drop_active op l w)
  unfolding drop_active Listener.cancel cancel_active close_fd same_op Cancellation.drop
      Cancellation.new
  drops-Custody closed e = rests-Custody (custody.rests (rw e refl)) refl
  drops-Custody nothing e = rests-Custody (custody.rests (rw e refl)) refl
  drops-Custody accept e = rw e (
      Returns-and_then (cancel-Cancels _ w l.ring custody.ring.owns) λ ring v outcome. returned (
        Custody-Cancels custody.ring outcome (addr-Frees l.addr) none,
        Safe-Cancels _ custody.memory (addr-GivesBox l.addr) outcome,
      ))
  drops-Custody close e = rw e (
      let ring =
        subst (λ a. Boxes.Custody l.ring.state (as_box a) w) (custody.boxless (rw e refl))
          custody.ring in
      Returns-and_then (cancel-Cancels _ w l.ring custody.ring.owns) λ ring' v outcome. returned (
        Custody-Cancels ring outcome (λ inside x h. absurd h) none,
        Safe-Cancels _ custody.memory (λ inside x bytes f. absurd f) outcome,
      ))

  pub drop-Custody :
      Returns (λ l' v. Boxes.Custody l'.ring.state none v × Safe none v) (Listener.drop l w)
  unfolding Listener.drop
  drop-Custody = drops-Custody l.active refl

  pub completes-Custody :
      (result : IoResult ℕ) (a : ℕ)
      → (a ≡ 0) ⊎ Owed (w.completions a)
      → Returns (λ l' v. Custody l' v) ((Completion.complete result a >> pure l) w)
  completes-Custody result a permitted =
      Returns-and_then (complete-Completes result a w permitted) λ _ v done. returned (record {
        boxless = custody.boxless;
        rests = custody.rests;
        ring = Custody-Evolve custody.ring (Completes-Evolve done) (Completes-queue done);
        memory = Safe-Completes custody.memory done;
      })

-- What holds of a listener that accepts, whatever its ring does.
accepting-Custody :
    {Driver : Type 0} {l : TcpListener Driver} {w : World}
    → l.active ≡ accept
    → Boxes.Custody l.ring.state (as_box l.addr) w × Safe (as_box l.addr) w
    → Custody l w
unfolding same_op
accepting-Custody e (ring, memory) = record {
  boxless = λ h. absurd (let f : ⊥ = cc in f);
  rests = λ h. absurd (let f : ⊥ = cc in f);
  ring = ring;
  memory = memory;
}

module _ (S : SockAddrs) (D : Drive) {ctx : Context} {p : ℕ} {g : TcpListener D.Driver}
    {u v : World} (nonnull : ctx.fresh ≢ 0) (left : Left accept ctx g u) (begun : g.active ≡ accept)
    (boxed : Boxed S D ctx.fresh_box u g.addr p v) where
  box-Custody :
      {t : State} {answer : Poll (IoResult ℕ)} {x : World}
      → Polled (Operation.accept g.fd (some p) 0) ctx.fresh v g.ring.state t answer x
      → Boxes.Custody t (as_box (some p)) x × Safe (as_box (some p)) x
  unfolding touched pointers
  box-Custody polled =
      let (placed, widens) = Boxed-Placed D boxed in
      let free = ap (λ w. w.completions ctx.fresh) placed.from ∙ left.free in
      (
        Custody-Polled (Custody-boxes placed.from left.ring) polled nonnull free widens (refl, tt),
        Safe-Spares (Safe-Placed (as_box g.addr) left.memory placed left.unused) polled.spares,
      )

  Accepts-Custody :
      {m : Run (TcpListener D.Driver × Poll (IoResult (TcpStream D.Driver × S.SocketAddr)))}
      → Accepts S D ctx.fresh g p v m
      → Ends S (λ (l, _) w. Custody l w) m
  Accepts-Custody (unready polled) = ended (accepting-Custody begun (box-Custody polled))
  Accepts-Custody (failed polled) = ended (accepting-Custody begun (box-Custody polled))
  Accepts-Custody (unreadable polled there q) = ended (
      accepting-Custody begun
        (ready-Custody _ polled (box-Custody polled) (addr-GivesBox (some p))))
  Accepts-Custody (of_another_family ring {bytes} {a} polled there q foreign) =
      Ends.of_another_family bytes a q foreign
  Accepts-Custody (with_peer polled there q known) = ended (
      accepting-Custody begun
        (ready-Custody _ polled (box-Custody polled) (addr-GivesBox (some p))))

-- The box of a listener is in memory.
Safe-Holds : (addr : Option ℕ) {w : World} → Safe (as_box addr) w → Holds addr w
Safe-Holds none safe = tt
Safe-Holds (some p) safe = Safe-Backed safe

left_by :
    (D : Drive) (l : TcpListener D.Driver) (answer : Poll (IoResult ℕ))
    → (accept_no_addr_answer D l answer).0 ≡ l
unfolding accept_no_addr_answer
left_by D l pending = refl
left_by D l (ready (err e)) = refl
left_by D l (ready (ok fd)) = refl

module _ (S : SockAddrs) (D : Drive) (conforms : Conforms D) (ctx : Context)
    (l : TcpListener D.Driver) (w : World) (custody : Custody l w) where
  pub accepts-Custody :
      Pollable S D ctx l w → Ends S (λ l' v. Custody l' v) (perform S D (accepts ctx) l w)
  unfolding perform
  accepts-Custody (open?, nonnull, free, unused) =
      let (g, u, p, v, guarded, boxed, ends) =
        poll_accept-Accepts S D conforms ctx l w custody.ring.owns
          (Safe-Holds l.addr custody.memory) open? in
      Ends-and_then
        (Accepts-Custody S D nonnull (Guarded-Left ctx guarded custody free unused)
          (Guarded-active guarded) boxed ends)
        λ (l', _) x custody'. ended custody'

  pub accepts_no_addr-Custody :
      Pollable S D ctx l w → Returns (λ l' v. Custody l' v) (perform S D (accepts_no_addr ctx) l w)
  unfolding perform poll_accept_no_addr touched pointers
  accepts_no_addr-Custody (open?, nonnull, free, unused) =
      Returns-and_then {P = λ (l', _) v. Custody l' v}
        (Returns-and_then (guard_op-Guarded accept l w custody.ring.owns open?)
          λ g u (guarded, owns).
            let left = Guarded-Left ctx guarded custody free unused in
            Returns-and_then
              (poll_one-Polled D conforms ctx (Operation.accept g.fd none 0) g.ring u owns)
              λ (ring, answer) v polled. returned (
                subst (λ l'. Custody l' v) (sym (left_by D (record g { ring = ring }) answer))
                  (accepting-Custody (Guarded-active guarded) (
                    Custody-Polled left.ring polled nonnull left.free (λ _ h. h) tt,
                    Safe-Spares left.memory polled.spares,
                  ))))
        λ (l', _) v custody'. returned custody'

  -- A listener is at rest after a poll that closes it only if the kernel has closed it.
  closes_rests :
      {op : Operation} {fresh : ℕ} {w v : World} {s t : State} (answer : Poll (IoResult ℕ))
      → Polled op fresh w s t answer v
      → at_rest (left_as answer) ≡ true
      → Idle t
  unfolding same_op
  closes_rests pending polled r = absurd (let f : ⊥ = cc in f)
  closes_rests (ready (err e)) polled r = absurd (let f : ⊥ = cc in f)
  closes_rests (ready (ok n)) polled r =
      let (rests, _) = ready-inert polled.transition refl in rw rests is_inert

  pub closes-Custody :
      Pollable S D ctx l w → Returns (λ l' v. Custody l' v) (perform S D (closes ctx) l w)
  unfolding perform touched pointers
  closes-Custody (open?, nonnull, free, unused) =
      Returns-and_then (poll_close-left_as D conforms ctx l w custody.ring.owns open?)
        λ (l', p) v (g, u, answer, guarded, polled, shape, _).
          let left = Guarded-Left ctx guarded custody free unused in
          returned (
            subst (λ t. Custody t v) (sym shape)
              (record {
                boxless = λ _. left.boxless refl;
                rests = closes_rests answer polled;
                ring = Custody-Polled left.ring polled nonnull left.free (λ _ h. h) tt;
                memory = Safe-Spares left.memory polled.spares;
              }))
