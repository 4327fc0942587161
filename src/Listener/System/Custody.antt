-- ===== src/Listener/System/Custody.antt =====
-- The memory that the kernel works on for a listener is in the listener's box, or has been left to it, and has
-- not been given back.
use ringbahn.Base.{
  ℕ, ◌≡◌, refl, true, false, Bool, not, ◌&&◌, ◌||◌, Option, none, some, List, [], ◌∷◌, ◌++◌, subst,
}
use ringbahn.Cancellation
use ringbahn.Cancellation.{Allocation, allocation, sized}
use ringbahn.Operation.{BoxedSlice}
use ringbahn.Machine.{World}
use ringbahn.Event
use ringbahn.Cancellation.Frees.{Frees, Frees-only, Frees-last}
use ringbahn.Ring.Spec.{Idle}
use ringbahn.Ring.System.Boxes as Boxes
use ringbahn.Ring.System.Boxes.{InBox}
use ringbahn.Ring.System.Boxes.Safe.{Safe, GivesBox, Safe-Cancels, Cancels-unused}
use ringbahn.Drive.{Context, Drive}
use ringbahn.Buf.Fill.{Placed, Placed-update, Placed-some}
use ringbahn.Ring.System.Boxes.Steps.{Custody-Cancels}
use ringbahn.Ring.System.Entries.{Cancels-none}
use ringbahn.Listener.{Op, nothing, accept, close, closed, same_op, TcpListener, SockAddrs}
use ringbahn.Listener.Closing.{Guarded, continues, interrupts}
use ringbahn.Listener.Accepting.{Boxed, kept, made}

-- The box for the address of the peer, of which only the address counts.
abbrev pub as_box : Option ℕ → Option BoxedSlice
as_box none = none
as_box (some p) = some (record { address = p; len = 0 })

-- No operation has begun, or the listener has been closed.
abbrev pub at_rest : Op → Bool
at_rest op = same_op op nothing || same_op op closed

-- Only a listener that accepts has a box.
pub record Custody {Driver : Type 0} (l : TcpListener Driver) (w : World) : Type 0 where
  pub boxless : same_op l.active accept ≡ false → l.addr ≡ none
  pub rests : at_rest l.active ≡ true → Idle l.ring.state
  pub ring : Boxes.Custody l.ring.state (as_box l.addr) w
  pub memory : Safe (as_box l.addr) w

-- The callback that a listener leaves owns its box.
pub addr-Frees :
    (addr : Option ℕ) (inside : ℕ → List Allocation) (x : ℕ)
    → InBox (as_box addr) x
    → Frees (Cancellation.drop inside (Event.from_maybe_box addr)) x
unfolding Event.from_maybe_box Cancellation.drop Cancellation.new Cancellation.from_option
addr-Frees none inside x h = absurd h
addr-Frees (some p) inside x h =
    subst (Frees (inside p ++ allocation p sized ∷ [])) h (Frees-last (inside p) p sized)

-- It gives back nothing else.
pub addr-GivesBox : (addr : Option ℕ) → GivesBox (as_box addr) (Event.from_maybe_box addr)
unfolding Event.from_maybe_box Cancellation.drop Cancellation.new Cancellation.from_option
addr-GivesBox none inside x bytes f = absurd f
addr-GivesBox (some p) inside x bytes f = Frees-only (inside p) p x sized (bytes p) f

-- What the guard leaves, for the operation that follows.
pub record Left {Driver : Type 0} (op : Op) (ctx : Context) (g : TcpListener Driver) (u : World)
    : Type 0 where
  pub ring : Boxes.Custody g.ring.state (as_box g.addr) u
  pub free : u.completions ctx.fresh ≡ none
  pub memory : Safe (as_box g.addr) u
  pub unused : u.boxes ctx.fresh_box ≡ none
  pub boxless : op ≡ close → g.addr ≡ none

not_accepting :
    (a : Op) → (not (same_op a nothing) && not (same_op a close)) ≡ false → same_op a accept ≡ false
unfolding same_op
not_accepting nothing h = refl
not_accepting accept h = absurd (let f : ⊥ = cc in f)
not_accepting close h = refl
not_accepting closed h = refl

pub Guarded-Left :
    {Driver : Type 0} {op : Op} {l g : TcpListener Driver} {w u : World} (ctx : Context)
    → Guarded op l w g u
    → Custody l w
    → w.completions ctx.fresh ≡ none
    → w.boxes ctx.fresh_box ≡ none
    → Left op ctx g u
Guarded-Left {op} {l} ctx (continues same) custody free unused = record {
  ring = custody.ring;
  free = free;
  memory = custody.memory;
  unused = unused;
  boxless = λ e. custody.boxless (
      not_accepting l.active
        (subst (λ o. (not (same_op l.active nothing) && not (same_op l.active o)) ≡ false) e same));
}
Guarded-Left {l} ctx (interrupts other outcome) custody free unused = record {
  ring = Custody-Cancels custody.ring outcome (addr-Frees l.addr) none;
  free = Cancels-none ctx.fresh outcome free;
  memory = Safe-Cancels _ custody.memory (addr-GivesBox l.addr) outcome;
  unused = Cancels-unused ctx.fresh_box outcome unused;
  boxless = λ e. refl;
}

-- A listener that is given a box keeps the one it has.
pub Boxed-Placed :
    {S : SockAddrs} {fresh p : ℕ} {addr : Option ℕ} {u v : World} (D : Drive)
    → Boxed S D fresh u addr p v
    → Placed fresh (as_box addr) (record { address = p; len = 0 }) u v
      × ((x : ℕ) → InBox (as_box addr) x → InBox (as_box (some p)) x)
Boxed-Placed D kept = (Placed-some _ _, λ x h. h)
Boxed-Placed {S} D made = (Placed-update S.uninit tt (λ _. refl), λ x h. absurd h)
