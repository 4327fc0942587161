-- ===== src/File/Reading.antt =====
-- Reading from a file, on a conforming driver and a kernel that keeps within its buffers.
use ringbahn.Base.{ℕ, ◌+◌, ◌≤◌, ◌<◌, ◌≡◌, refl, false, some, leb, u64, inl, inr, arith, Bool-cases}
use ringbahn.Operation.{Operation, BoxedSlice, Slice, whole}
use ringbahn.Machine.{World, Poll, pending, ready}
use ringbahn.Machine.Returns.{Returns, returned, Returns-and_then}
use ringbahn.Completion.Types.{IoResult, ok, err, Error}
use ringbahn.Drive.{Context, Drive}
use ringbahn.Drive.Conforms.{Conforms}
use ringbahn.Ring.{Ring, State}
use ringbahn.Ring.Spec.{Owns, Polled}
use ringbahn.Ring.Refines.{poll_one-Polled}
use ringbahn.Buf.{Buffer, capacity, filled, refill, fill_buf}
use ringbahn.Buf.Fits.{Fits}
use ringbahn.Buf.Fill.{Placed, view, Bounded, slice_of-some, buffered_from_read-view, box_in-Within}
use ringbahn.Stream.Sound.{KernelBounded}
use ringbahn.Stream.Reading.{Transition-Bounded, in_boxes}
use ringbahn.File.Handle.{left, read, closed, same_op, File, unwrap_left}
use ringbahn.File.Transfer.{count_read, read_into, poll_fill_buf}
use ringbahn.File.Sound.{IsSound, Guarded, guard_op-Ready}

-- What a read does to a file at a position: nothing, where its buffer holds data; otherwise the ring is
-- polled for a read at the position into the whole box (which may be a new one), and when the kernel has
-- read, the buffer holds what it has read, and the position is behind that.
pub data Reads (fd fresh fresh_box pos : ℕ) (buf : Buffer) (w : World) (s : State)
    : State → ℕ → Buffer → Poll (IoResult Slice) → World → Type 0 where
  held :
      buf.pos < buf.cap
      → Reads fd fresh fresh_box pos buf w s s pos buf
          (ready (ok (view buf.contents buf.pos buf.cap)))
          w
  unready :
      {t : State} {b : BoxedSlice} {v u : World}
      → buf.cap ≤ buf.pos
      → Placed fresh_box buf.contents b w v
      → Polled (Operation.read fd (whole b) pos) fresh v s t pending u
      → Reads fd fresh fresh_box pos buf w s t pos (record buf { contents = some b }) pending u
  failed :
      {t : State} {b : BoxedSlice} {e : Error} {v u : World}
      → buf.cap ≤ buf.pos
      → Placed fresh_box buf.contents b w v
      → Polled (Operation.read fd (whole b) pos) fresh v s t (ready (err e)) u
      → Reads fd fresh fresh_box pos buf w s t pos
          (record buf { contents = some b })
          (ready (err e))
          u
  has_read :
      {t : State} {b : BoxedSlice} {n : ℕ} {v u : World}
      → buf.cap ≤ buf.pos
      → Placed fresh_box buf.contents b w v
      → n ≤ b.len
      → Polled (Operation.read fd (whole b) pos) fresh v s t (ready (ok n)) u
      → Reads fd fresh fresh_box pos buf w s t
          (u64 (pos + n))
          (record { contents = some b; pos = 0; cap = n })
          (ready (ok (view (some b) 0 n)))
          u

module _ (D : Drive) (conforms : Conforms D) (ctx : Context) (fd pos : ℕ) (ring : Ring D.Driver)
    (buf : Buffer) (w : World) (owns : Owns ring.state w) (bounded : KernelBounded ring.state w)
    (fits : Fits buf) where
  ReadsFile : (Ring D.Driver × ℕ) × Buffer × Poll (IoResult Slice) → World → Type 0
  ReadsFile ((ring', at), buf', p) u =
      Reads fd ctx.fresh ctx.fresh_box pos buf w ring.state ring'.state at buf' p u
      × Fits buf'
      × Owns ring'.state u

  filled-Reads :
      (b : BoxedSlice) (ring' : Ring D.Driver) (p : Poll (IoResult ℕ)) (v u : World)
      → buf.cap ≤ buf.pos
      → Placed ctx.fresh_box buf.contents b w v
      → buf.cap ≤ b.len
      → b.len ≡ capacity
      → Polled (Operation.read fd (whole b) pos) ctx.fresh v ring.state ring'.state p u
      → Bounded b (ring', p) u
      → Returns ReadsFile (
          filled
            (count_read D ring' pos p).0
            (record buf { contents = some b })
            (count_read D ring' pos p).1
            u)
  unfolding filled count_read ReadsFile
  filled-Reads b ring' pending v u used_up placed within len polled bounded' = returned (
    unready used_up placed polled,
    record { ordered = fits.ordered; within = (within, len); small = fits.small },
    polled.owns,
  )
  filled-Reads b ring' (ready (err e)) v u used_up placed within len polled bounded' = returned (
    failed used_up placed polled,
    record { ordered = fits.ordered; within = (within, len); small = fits.small },
    polled.owns,
  )
  filled-Reads b ring' (ready (ok n)) v u used_up placed within len polled bounded' =
      rw (slice_of-some b 0 n u (omega arith) bounded'.0) (
        returned (
          has_read used_up placed bounded'.0 polled,
          record { ordered = omega arith; within = (bounded'.0, len); small = bounded'.1 },
          polled.owns,
        ))

  refill-Reads :
      buf.cap ≤ buf.pos
      → Returns ReadsFile (refill ctx.fresh_box (read_into D ctx fd) (ring, pos) buf w)
  unfolding refill read_into
  refill-Reads used_up =
      Returns-and_then (box_in-Within ctx.fresh_box buf.cap buf.contents w fits.within)
        λ b v (within, len, placed).
          let (owns', bounded') = in_boxes ring.state w v owns bounded placed.from in
          Returns-and_then
            {P = λ a u.
              (ring' : Ring D.Driver) × (p : Poll (IoResult ℕ)) × (a ≡ count_read D ring' pos p)
              × Polled (Operation.read fd (whole b) pos) ctx.fresh v ring.state ring'.state p u}
            (Returns-and_then
              (poll_one-Polled D conforms ctx (Operation.read fd (whole b) pos) ring v owns')
              λ (ring', p) u polled. returned (ring', p, refl, polled))
            λ a u (ring', p, e, polled). rw e (
              filled-Reads b ring' p v u used_up placed within len polled
                (Transition-Bounded ring' b polled.transition bounded' len))

  fill_buf-Reads : Returns ReadsFile (fill_buf ctx.fresh_box (read_into D ctx fd) (ring, pos) buf w)
  unfolding fill_buf ReadsFile
  fill_buf-Reads = elim (Bool-cases (leb buf.cap buf.pos)) [
    | inl used_up ↦ rw used_up (refill-Reads (ground arith))
    | inr more ↦
        rw (more, buffered_from_read-view buf w fits) (returned (held (ground arith), fits, owns))
  ]

module _ (D : Drive) (conforms : Conforms D) (ctx : Context) where
  -- On a conforming driver, `poll_fill_buf` of a sound file that has not been closed returns: it neither
  -- panics, not even if the last operation has put the result of a `statx` in the place of the buffer,
  -- nor goes through a dangling pointer. Another operation that was under way is cancelled first. Then
  -- the file shows the data that its buffer holds, or its ring is polled for a read at its position,
  -- which moves by as many bytes as the buffer has received, modulo 2^64, and stays where it is as long
  -- as there are none. The data fits in the buffer and the ring is in a sound state again.
  pub poll_fill_buf-Reads :
      (f : File D.Driver) (w : World)
      → IsSound f w
      → same_op f.active closed ≡ false
      → Returns
          (λ (f', p) v.
            (g : File D.Driver) × (u : World) × (buf : Buffer) × (buf' : Buffer) × Guarded read f w
              g buf u
            × Reads g.fd ctx.fresh ctx.fresh_box g.pos buf u g.ring.state f'.ring.state f'.pos buf'
                p v
            × Fits buf'
            × Owns f'.ring.state v
            × (f' ≡ record g { ring = f'.ring; buf = left buf'; pos = f'.pos }))
          (poll_fill_buf D ctx f w)
  unfolding poll_fill_buf unwrap_left same_op ReadsFile
  poll_fill_buf-Reads f w sound open? =
      Returns-and_then (guard_op-Ready read f w sound open? refl) λ g u r. rw r.has (
        Returns-and_then
          (fill_buf-Reads D conforms ctx g.fd g.pos g.ring r.buf u r.owns r.bounded r.fits)
          λ ((ring, at), buf', p) v (reads, fits, owns).
            returned (g, u, r.buf, buf', r.guarded, reads, fits, owns, refl))
