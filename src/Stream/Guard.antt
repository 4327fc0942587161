-- ===== src/Stream/Guard.antt =====
-- What the guard of an operation lets through: a closed stream does nothing more, and an operation
-- that interrupts another finds the buffer without its box.
use ringbahn.Base.{ℕ, ◌<◌, ◌≡◌, true, false, List, [], none, take-nil, arith, leb}
use ringbahn.Operation.{Slice}
use ringbahn.Machine.{World, returns, panics, closed_object, Cmd, Poll, ready, load_slice}
use ringbahn.Completion.Types.{IoResult, ok}
use ringbahn.Drive.{Context, Drive}
use ringbahn.Ring
use ringbahn.Ring.{Ring}
use ringbahn.Buf
use ringbahn.Buf.{Buffer, fill_buf, buffered_from_read, empty_slice}
use ringbahn.Stream.{
  Op, read, write, nothing, closed, same_op, TcpStream, cancel_ring, guard_op, consume,
  poll_fill_buf, read_out, poll_read, write_out, poll_write, poll_flush, poll_close,
}

guard_op-closed :
    {Driver : Type 0} (op : Op) (s : TcpStream Driver) (w : World)
    → same_op s.active closed ≡ true
    → guard_op op s w ≡ panics closed_object
unfolding guard_op
guard_op-closed op s w h = rw h

module _ (D : Drive) (ctx : Context) (s : TcpStream D.Driver) (w : World) where
  -- Every operation on a closed stream panics, before it touches the ring, the buffer or the memory.
  closed_refuses :
      (len : ℕ) (bytes : List ℕ)
      → same_op s.active closed ≡ true
      → (poll_read D ctx len s w ≡ panics closed_object)
        × (poll_fill_buf D ctx s w ≡ panics closed_object)
        × (poll_write D ctx bytes s w ≡ panics closed_object)
        × (poll_flush D ctx s w ≡ panics closed_object)
        × (poll_close D ctx s w ≡ panics closed_object)
  unfolding poll_read poll_fill_buf poll_write poll_flush poll_close
  closed_refuses len bytes h = (
    rw (guard_op-closed read s w h),
    rw (guard_op-closed read s w h),
    rw (guard_op-closed write s w h),
    rw (guard_op-closed write s w h),
    rw (guard_op-closed Op.close s w h),
  )

-- An operation begins while another one has left data in the buffer.
pub record Interrupts {Driver : Type 0} (op : Op) (s : TcpStream Driver) : Type 0 where
  pub open_still : same_op s.active closed ≡ false
  pub begun : same_op s.active nothing ≡ false
  pub other : same_op s.active op ≡ false
  pub unread : s.buf.pos < s.buf.cap

-- The stream once the guard has cancelled the other operation.
abbrev pub interrupted : {Driver : Type 0} → Op → TcpStream Driver → Ring Driver → TcpStream Driver
interrupted op s ring = record s {
  ring = ring;
  buf = record s.buf { contents = none };
  active = op;
}

guard_op-interrupted :
    {Driver : Type 0} (op : Op) (s : TcpStream Driver) (w v : World) (ring : Ring Driver)
    → Interrupts op s
    → Ring.cancel s.ring (Buf.cancellation s.buf).1 w ≡ returns ring v
    → guard_op op s w ≡ returns (interrupted op s ring) v
unfolding guard_op cancel_ring Buf.cancellation
guard_op-interrupted op s w v ring i e = rw (i.open_still, i.begun, i.other, e)

fill_buf-taken :
    {C : Type 0} (fresh : ℕ) (fill : C → Slice → Cmd (C × Poll (IoResult ℕ))) (c : C) (pos cap : ℕ)
    (w : World)
    → pos < cap
    → fill_buf fresh fill c (record { contents = none; pos = pos; cap = cap }) w
      ≡ returns (c, record { contents = none; pos = pos; cap = cap }, ready (ok empty_slice)) w
unfolding fill_buf buffered_from_read
fill_buf-taken fresh fill c pos cap w h = let e : leb cap pos ≡ false = ground arith in rw e

module _ (D : Drive) (ctx : Context) (s : TcpStream D.Driver) (w v : World)
    (ring : Ring D.Driver) where
  -- A read that interrupts an operation which left data in the buffer, such as a write that is still
  -- under way, is ready with no bytes, as at the end of the stream: it submits nothing.
  interrupting_read :
      (len : ℕ)
      → Interrupts read s
      → Ring.cancel s.ring (Buf.cancellation s.buf).1 w ≡ returns ring v
      → poll_read D ctx len s w ≡ returns (consume 0 (interrupted read s ring), ready (ok [])) v
  unfolding poll_read poll_fill_buf read_out load_slice
  interrupting_read len i e =
      rw (guard_op-interrupted read s w v ring i e) (
        rw (fill_buf-taken ctx.fresh_box _ ring s.buf.pos s.buf.cap v i.unread) (rw (take-nil len)))

  -- A write that interrupts an operation which left data in the buffer, such as a read that was not
  -- consumed to its end, submits an empty slice in place of the bytes it is given.
  interrupting_write :
      (bytes : List ℕ)
      → Interrupts write s
      → Ring.cancel s.ring (Buf.cancellation s.buf).1 w ≡ returns ring v
      → poll_write D ctx bytes s w
        ≡ write_out D ctx (interrupted write s ring) (ready (ok empty_slice)) v
  unfolding poll_write
  interrupting_write bytes i e =
      rw (guard_op-interrupted write s w v ring i e)
        (rw (fill_buf-taken ctx.fresh_box _ tt s.buf.pos s.buf.cap v i.unread))

module _ (D : Drive) (ctx : Context) (r s : TcpStream D.Driver) (w v x y : World)
    (ring ring' : Ring D.Driver) where
  -- A read that interrupts an operation which left data in the buffer, such as a write that is still
  -- under way, is ready with no bytes, as at the end of the stream, and submits nothing. A write that
  -- interrupts one, such as a read that was not consumed to its end, submits an empty slice in place of
  -- the bytes it is given.
  pub interrupting_operations :
      (len : ℕ) (bytes : List ℕ)
      → Interrupts read r
      → Ring.cancel r.ring (Buf.cancellation r.buf).1 w ≡ returns ring v
      → Interrupts write s
      → Ring.cancel s.ring (Buf.cancellation s.buf).1 x ≡ returns ring' y
      → (poll_read D ctx len r w ≡ returns (consume 0 (interrupted read r ring), ready (ok [])) v)
        × (poll_write D ctx bytes s x
            ≡ write_out D ctx (interrupted write s ring') (ready (ok empty_slice)) y)
  interrupting_operations len bytes i e i' e' =
      (interrupting_read D ctx r w v ring len i e, interrupting_write D ctx s x y ring' bytes i' e')
