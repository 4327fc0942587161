-- ===== src/Stream/Writing.antt =====
-- Writing to a stream, on a conforming driver.
use ringbahn.Base.{
  ℕ, ◌≤◌, ◌<◌, ◌≡◌, refl, false, List, ◌++◌, Option, none, some, inl, inr, arith, ap, leb, min,
  length, take, drop, replicate, Bool-cases,
}
use ringbahn.Operation.{Operation, BoxedSlice, Slice, whole}
use ringbahn.Machine.{World, ◌>>=◌, Poll, pending, ready, update, update_self, copy_into}
use ringbahn.Machine.Returns.{Returns, returned, Returns-and_then}
use ringbahn.Completion.Types.{IoResult, ok, err}
use ringbahn.Drive.{Context, Drive}
use ringbahn.Drive.Conforms.{Conforms}
use ringbahn.Ring.{State}
use ringbahn.Ring.Spec.{Owns, Polled}
use ringbahn.Ring.Refines.{poll_one-Polled}
use ringbahn.Buf
use ringbahn.Buf.{Buffer, capacity, box_in, allocate, filled, refill, fill_buf}
use ringbahn.Buf.Fits.{Fits}
use ringbahn.Buf.Fill.{
  Placed, Placed-update, Placed-some, Placed-written, view, slice_of-some, buffered_from_read-view,
}
use ringbahn.Stream.{write, closed, same_op, TcpStream, write_into, written, write_out, poll_write}
use ringbahn.Stream.Sound.{IsSound, Guarded, continues, interrupts, guard_op-IsSound}
use ringbahn.Ring.Busy.{Owns-boxes}

-- The box of a buffer is in memory.
abbrev pub Backed : Option BoxedSlice → World → Type 0
Backed none w = Unit {0}
Backed (some b) w = (old : List ℕ) × (w.boxes b.address ≡ some old)

-- What is written, as a slice of the buffer: data that the buffer holds already, whatever the bytes; or
-- else as many of the bytes as there is room for, copied to the start of its box.
pub data Offers (fresh : ℕ) (bytes : List ℕ) (buf : Buffer) (w : World)
    : Buffer → Slice → World → Type 0 where
  held_before :
      buf.pos < buf.cap → Offers fresh bytes buf w buf (view buf.contents buf.pos buf.cap) w
  copied :
      {b : BoxedSlice} {n : ℕ} {boxes : ℕ → Option (List ℕ)} (old : List ℕ)
      → buf.cap ≤ buf.pos
      → Placed fresh buf.contents b w (record w { boxes = boxes })
      → b.len ≡ capacity
      → n ≡ min capacity (length bytes)
      → boxes b.address ≡ some (take n bytes ++ drop n old)
      → Offers fresh bytes buf w
          (record { contents = some b; pos = 0; cap = n })
          (view (some b) 0 n)
          (record w { boxes = boxes })

module _ (D : Drive) (bytes : List ℕ) where
  -- filling the buffer, from the box that is filled
  filled-Offers :
      (fresh : ℕ) (buf : Buffer) (b : BoxedSlice) (old : List ℕ) (w : World)
      (boxes : ℕ → Option (List ℕ))
      → buf.cap ≤ buf.pos
      → Placed fresh buf.contents b w (record w { boxes = boxes })
      → b.len ≡ capacity
      → boxes b.address ≡ some old
      → Returns
          (λ (_, buf', p) v.
            (slice : Slice) × (p ≡ ready (ok slice)) × Offers fresh bytes buf w buf' slice v)
          ((write_into D bytes tt (whole b) >>= λ (c, answer).
              filled c (record buf { contents = some b }) answer)
            (record w { boxes = boxes }))
  unfolding write_into copy_into filled
  filled-Offers fresh buf b old w boxes used_up placed len holds =
      let within : min b.len (length bytes) ≤ b.len = ground arith in
      let n : min b.len (length bytes) ≡ min capacity (length bytes) =
        ap (λ k. min k (length bytes)) len in
      rw (holds, slice_of-some b 0 (min b.len (length bytes)) _ (omega arith) within)
        (returned (
          _,
          refl,
          copied _ used_up (Placed-written _ placed) len n (update_self boxes b.address _),
        ))

  refill-Offers :
      (fresh : ℕ) (contents : Option BoxedSlice) (pos cap : ℕ) (w : World)
      → cap ≤ pos
      → Fits (record { contents = contents; pos = pos; cap = cap })
      → Backed contents w
      → Returns
          (λ (_, buf', p) v.
            (slice : Slice) × (p ≡ ready (ok slice))
            × Offers fresh bytes
                (record { contents = contents; pos = pos; cap = cap })
                w
                buf'
                slice
                v)
          (refill fresh
            (write_into D bytes)
            tt
            (record { contents = contents; pos = pos; cap = cap })
            w)
  unfolding refill box_in
  refill-Offers fresh none pos cap w used_up fits backed =
      filled-Offers fresh (record { contents = none; pos = pos; cap = cap })
        (record { address = fresh; len = capacity }) (replicate capacity 0) w
        (update w.boxes fresh (some (replicate capacity 0))) used_up
        (Placed-update (replicate capacity 0) tt (λ _. refl)) refl (update_self w.boxes fresh _)
  refill-Offers fresh (some b) pos cap w used_up fits (old, holds) =
      filled-Offers fresh (record { contents = some b; pos = pos; cap = cap }) b old w w.boxes
        used_up (Placed-some b w) fits.within.1 holds

  pub fill_buf-Offers :
      (fresh : ℕ) (buf : Buffer) (w : World)
      → Fits buf
      → Backed buf.contents w
      → Returns
          (λ (_, buf', p) v.
            (slice : Slice) × (p ≡ ready (ok slice)) × Offers fresh bytes buf w buf' slice v)
          (fill_buf fresh (write_into D bytes) tt buf w)
  unfolding fill_buf
  fill_buf-Offers fresh buf w fits backed = elim (Bool-cases (leb buf.cap buf.pos)) [
    | inl used_up ↦
        rw used_up (refill-Offers fresh buf.contents buf.pos buf.cap w (ground arith) fits backed)
    | inr more ↦
        rw (more, buffered_from_read-view buf w fits)
          (returned (_, refl, held_before (ground arith)))
  ]

-- The buffer is emptied when the kernel has written, and not when it has failed.
abbrev pub after : Poll (IoResult ℕ) → Buffer → Buffer
after pending buf = buf
after (ready (err e)) buf = buf
after (ready (ok n)) buf = record buf { pos = 0; cap = 0 }

pub Offers-Owns :
    {fresh : ℕ} {bytes : List ℕ} {buf buf' : Buffer} {w v : World} {slice : Slice} (s : State)
    → Offers fresh bytes buf w buf' slice v
    → Owns s w
    → Owns s v
Offers-Owns s (held_before more) o = o
Offers-Owns {w} s (copied {boxes} old used_up placed len e holds) o = Owns-boxes s w boxes o

Guarded-Backed :
    {Driver : Type 0} {s g : TcpStream Driver} {w u : World}
    → Guarded write s w g u
    → Backed s.buf.contents w
    → Backed g.buf.contents u
Guarded-Backed (continues same) b = b
Guarded-Backed (interrupts other outcome) b = tt

module _ (D : Drive) (conforms : Conforms D) (ctx : Context) where
  written-after :
      (s : TcpStream D.Driver) (p : Poll (IoResult ℕ))
      → written D s p ≡ (record s { buf = after p s.buf }, p)
  unfolding written Buf.clear
  written-after s pending = refl
  written-after s (ready (err e)) = refl
  written-after s (ready (ok n)) = refl

  -- On a conforming driver, `poll_write` of a sound stream that has not been closed, and whose box is in
  -- memory, returns. An operation other than writing that was under way is cancelled first. Then the
  -- ring makes a transition of its contract for a write of the data that the buffer holds, if there is
  -- any, even if the bytes are others, and otherwise of as many of the bytes as there is room for. The
  -- answer is the ring's. The buffer is emptied if that is a success, and if it is an error the data
  -- stays there, for the next call.
  pub poll_write-Offers :
      (bytes : List ℕ) (s : TcpStream D.Driver) (w : World)
      → IsSound s w
      → Backed s.buf.contents w
      → same_op s.active closed ≡ false
      → Returns
          (λ (s', p) x.
            (g : TcpStream D.Driver) × (u : World) × Guarded write s w g u
            × ((buf : Buffer) × (slice : Slice) × (v : World) × Offers ctx.fresh_box bytes g.buf u
                  buf slice v
                × Polled (Operation.write g.fd slice 0) ctx.fresh v g.ring.state s'.ring.state p x
                × (s' ≡ record g { ring = s'.ring; buf = after p buf })))
          (poll_write D ctx bytes s w)
  unfolding poll_write write_out
  poll_write-Offers bytes s w sound backed open? =
      Returns-and_then (guard_op-IsSound s w sound write open?) λ g u (sound', guarded).
        Returns-and_then
          (fill_buf-Offers D bytes ctx.fresh_box g.buf u sound'.fits
            (Guarded-Backed guarded backed))
          λ (_, buf, p) v (slice, e, offers). rw e (
            Returns-and_then
              (poll_one-Polled D conforms ctx (Operation.write g.fd slice 0) g.ring v
                (Offers-Owns g.ring.state offers sound'.owns))
              λ (ring, answer) x polled.
                rw (written-after (record g { ring = ring; buf = buf }) answer)
                  (returned (g, u, guarded, (buf, slice, v, offers, polled, refl))))
