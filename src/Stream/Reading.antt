-- ===== src/Stream/Reading.antt =====
-- Reading from a stream, on a conforming driver and a kernel that keeps within its buffers.
use ringbahn.Base.{sym, subst, ℕ, ◌≤◌, ◌≡◌, refl, false, List, Option, some, arith}
use ringbahn.Operation.{Operation, BoxedSlice, whole, Sqe}
use ringbahn.Machine.{World, Poll, ready}
use ringbahn.Machine.Returns.{Returns, returned, Returns-and_then, Returns-map}
use ringbahn.Completion.{Completion}
use ringbahn.Completion.Types as Kernel
use ringbahn.Completion.Types.{IoResult, ok, err}
use ringbahn.Drive.{Context, Drive}
use ringbahn.Drive.Conforms.{Conforms}
use ringbahn.Ring.{State, Ring}
use ringbahn.Ring.Spec.{Owns, Busy, Polled, Transition, stalls, starts, waits, finishes}
use ringbahn.Ring.Busy.{Owns-boxes}
use ringbahn.Ring.Refines.{poll_one-Polled}
use ringbahn.Buf.{Buffer, capacity, fill_buf}
use ringbahn.Buf.Fits.{Fits}
use ringbahn.Buf.Fill.{Placed, Filled, Bounded, fill_buf-Filled}
use ringbahn.Stream.{read, closed, same_op, TcpStream, read_into, poll_fill_buf}
use ringbahn.Stream.Sound.{KernelBounded, IsSound, Guarded, guard_op-IsSound}

Bounded-result :
    {C : Type 0} (s : State) (c : Completion) (v u : World) (x : C) (b : BoxedSlice)
    (result : IoResult ℕ)
    → KernelBounded s v
    → Busy c s
    → v.completions c.state ≡ some (Kernel.completed result)
    → b.len ≡ capacity
    → Bounded b (x, ready result) u
Bounded-result s c v u x b (err _) k busy holds e = tt
Bounded-result s c v u x b (ok n) k busy holds e =
    let h : n ≤ capacity = k c n busy holds in (omega arith, omega arith)

pub Transition-Bounded :
    {C : Type 0} {op : Operation} {fresh : ℕ} {v u : World} {s t : State} {p : Poll (IoResult ℕ)}
    {entries : List Sqe} (x : C) (b : BoxedSlice)
    → Transition op fresh v s t p entries u
    → KernelBounded s v
    → b.len ≡ capacity
    → Bounded b (x, p) u
Transition-Bounded x b (stalls idle) k e = tt
Transition-Bounded x b (starts start at busy) k e = tt
Transition-Bounded x b (waits holds advances) k e = tt
Transition-Bounded {v} {u} {s} x b (finishes {c} {result} busy holds gone) k e =
    Bounded-result s c v u x b result k busy holds e

pub in_boxes :
    (s : State) (w v : World)
    → Owns s w
    → KernelBounded s w
    → v ≡ record w { boxes = v.boxes }
    → Owns s v × KernelBounded s v
in_boxes s w v owns bounded from =
    subst (λ u. Owns s u × KernelBounded s u) (sym from) (Owns-boxes s w v.boxes owns, bounded)

-- What a fill makes of the ring and the box: nothing, or the ring is polled for a read into the box,
-- which is that of the buffer, if there was one.
pub data Fills (fd fresh fresh_box : ℕ) (s : State) (contents : Option BoxedSlice) (w : World)
    : State → Option BoxedSlice → World → Type 0 where
  untouched : Fills fd fresh fresh_box s contents w s contents w
  used :
      {b : BoxedSlice} {t : State} {p : Poll (IoResult ℕ)} {v u : World}
      → Placed fresh_box contents b w v
      → Polled (Operation.read fd (whole b) 0) fresh v s t p u
      → Fills fd fresh fresh_box s contents w t (some b) u

module _ (D : Drive) (conforms : Conforms D) (ctx : Context) where
  module _ (fd : ℕ) (ring : Ring D.Driver) (buf : Buffer) (w : World) (owns : Owns ring.state w)
      (bounded : KernelBounded ring.state w) where
    read_into-Fills :
        (b : BoxedSlice) (v : World)
        → b.len ≡ capacity
        → Placed ctx.fresh_box buf.contents b w v
        → Returns
            (λ (ring', p) u.
              Bounded b (ring', p) u
              × (Owns ring'.state u
                  × Fills fd ctx.fresh ctx.fresh_box ring.state buf.contents w ring'.state
                      (some b)
                      u))
            (read_into D ctx fd ring (whole b) v)
    unfolding read_into
    read_into-Fills b v len placed =
        let (owns', bounded') = in_boxes ring.state w v owns bounded placed.from in
        Returns-map (poll_one-Polled D conforms ctx (Operation.read fd (whole b) 0) ring v owns')
          λ (ring', p) u polled. (
            Transition-Bounded ring' b polled.transition bounded' len,
            (polled.owns, used placed polled),
          )

    fill_buf-Fills :
        Fits buf
        → Returns
            (λ (ring', buf', p) v.
              Filled ring buf w ring' buf' p v
              × Fits buf'
              × (Owns ring'.state v
                  × Fills fd ctx.fresh ctx.fresh_box ring.state buf.contents w ring'.state
                      buf'.contents v))
            (fill_buf ctx.fresh_box (read_into D ctx fd) ring buf w)
    fill_buf-Fills fits =
        fill_buf-Filled ring buf w
          (λ ring' contents v.
            Owns ring'.state v
            × Fills fd ctx.fresh ctx.fresh_box ring.state buf.contents w ring'.state contents v)
          ctx.fresh_box (read_into D ctx fd) read_into-Fills fits (owns, untouched)

  pub poll_fill_buf-Fills :
      (s : TcpStream D.Driver) (w : World)
      → IsSound s w
      → same_op s.active closed ≡ false
      → Returns
          (λ (s', p) v.
            (Fits s'.buf × Owns s'.ring.state v)
            × ((g : TcpStream D.Driver) × (u : World) × Guarded read s w g u
                × (s' ≡ record g { ring = s'.ring; buf = s'.buf })
                × Filled g.ring g.buf u s'.ring s'.buf p v
                × Fills g.fd ctx.fresh ctx.fresh_box g.ring.state g.buf.contents u s'.ring.state
                    s'.buf.contents v))
          (poll_fill_buf D ctx s w)
  unfolding poll_fill_buf
  poll_fill_buf-Fills s w sound open? =
      Returns-and_then (guard_op-IsSound s w sound read open?) λ g u (sound', guarded).
        Returns-and_then (fill_buf-Fills g.fd g.ring g.buf u sound'.owns sound'.bounded sound'.fits)
          λ (ring, buf, p) v (outcome, fits, (owns, fills)).
            returned ((fits, owns), (g, u, guarded, refl, outcome, fills))

  -- On a conforming driver, `poll_fill_buf` of a sound stream that has not been closed returns: it
  -- neither panics nor goes through a dangling pointer. An operation other than reading that was under
  -- way is cancelled first; then ring and buffer go through one of the outcomes of `fill_buf`. The
  -- data fits in the buffer and the ring is in a sound state again.
  pub poll_fill_buf-Filled :
      (s : TcpStream D.Driver) (w : World)
      → IsSound s w
      → same_op s.active closed ≡ false
      → Returns
          (λ (s', p) v.
            (Fits s'.buf × Owns s'.ring.state v)
            × ((g : TcpStream D.Driver) × (u : World) × Guarded read s w g u
                × (s' ≡ record g { ring = s'.ring; buf = s'.buf })
                × Filled g.ring g.buf u s'.ring s'.buf p v))
          (poll_fill_buf D ctx s w)
  poll_fill_buf-Filled s w sound open? =
      Returns-map (poll_fill_buf-Fills s w sound open?)
        λ (s', p) v (ends, (g, u, guarded, shape, outcome, _)).
          (ends, (g, u, guarded, shape, outcome))
