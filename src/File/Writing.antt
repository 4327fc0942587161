-- ===== src/File/Writing.antt =====
-- Writing to a file, on a conforming driver.
use ringbahn.Base.{ℕ, ◌+◌, ◌≡◌, refl, ap, subst, false, List, u64}
use ringbahn.Operation.{Operation, Slice}
use ringbahn.Machine.{World, Poll, pending, ready}
use ringbahn.Machine.Returns.{Returns, returned, Returns-and_then}
use ringbahn.Completion.Types.{IoResult, ok, err}
use ringbahn.Drive.{Context, Drive}
use ringbahn.Drive.Conforms.{Conforms}
use ringbahn.Ring.Spec.{Polled}
use ringbahn.Ring.Refines.{poll_one-Polled}
use ringbahn.Buf
use ringbahn.Buf.{Buffer}
use ringbahn.Buf.Fits.{Fits}
use ringbahn.Stream
use ringbahn.Stream.Writing.{Backed, Offers, fill_buf-Offers, Offers-Owns, after}
use ringbahn.File.Handle.{FileBuf, left, right, write, closed, same_op, File, unwrap_left}
use ringbahn.File.Transfer.{write_into, written, write_out, poll_write}
use ringbahn.File.Sound.{IsSound, Guarded, continues, interrupts, guard_op-Ready}

-- The box of a file's buffer is in memory.
abbrev pub Holds : FileBuf → World → Type 0
Holds (left buf) w = Backed buf.contents w
Holds (right p) w = Unit {0}

-- The position is behind what the kernel has written.
abbrev pub behind : Poll (IoResult ℕ) → ℕ → ℕ
behind pending pos = pos
behind (ready (err e)) pos = pos
behind (ready (ok n)) pos = u64 (pos + n)

Guarded-Backed :
    {Driver : Type 0} {f g : File Driver} {buf : Buffer} {w u : World}
    → Guarded write f w g buf u
    → Holds f.buf w
    → Backed buf.contents u
Guarded-Backed {w} (continues {buf} same has) holds = subst (λ b. Holds b w) has holds
Guarded-Backed (interrupts other outcome) holds = tt

-- The closure of a file's write is that of a stream's.
file_fill_buf-Offers :
    (D : Drive) (bytes : List ℕ) (fresh : ℕ) (buf : Buffer) (w : World)
    → Fits buf
    → Backed buf.contents w
    → Returns
        (λ (_, buf', p) v.
          (slice : Slice) × (p ≡ ready (ok slice)) × Offers fresh bytes buf w buf' slice v)
        (Buf.fill_buf fresh (write_into D bytes) tt buf w)
unfolding write_into Stream.write_into
file_fill_buf-Offers D bytes fresh buf w fits backed =
    fill_buf-Offers D bytes fresh buf w fits backed

module _ (D : Drive) (conforms : Conforms D) (ctx : Context) where
  written-after :
      (f : File D.Driver) (buf : Buffer) (p : Poll (IoResult ℕ))
      → f.buf ≡ left buf
      → written D f buf p ≡ (record f { buf = left (after p buf); pos = behind p f.pos }, p)
  unfolding written Buf.clear
  written-after f buf pending has = ap (λ b. (record f { buf = b }, pending)) has
  written-after f buf (ready (err e)) has = ap (λ b. (record f { buf = b }, ready (err e))) has
  written-after f buf (ready (ok n)) has = refl

  -- On a conforming driver, `poll_write` of a sound file that has not been closed, and whose box is in
  -- memory, returns, also if the last operation has put the result of a `statx` in the place of the
  -- buffer. Another operation that was under way is cancelled first. Then the ring makes a transition of
  -- its contract for a write, at the file's position, of the data that the buffer holds, if there is
  -- any, even if the bytes are others, and otherwise of as many of the bytes as there is room for. The
  -- answer is the ring's. If that is a success, the position moves by as many bytes as the kernel has
  -- written, modulo 2^64, and the buffer is emptied; if not, both stay as they are.
  pub poll_write-behind :
      (bytes : List ℕ) (f : File D.Driver) (w : World)
      → IsSound f w
      → Holds f.buf w
      → same_op f.active closed ≡ false
      → Returns
          (λ (f', p) x.
            (g : File D.Driver) × (u : World) × (old : Buffer) × Guarded write f w g old u
            × ((buf : Buffer) × (slice : Slice) × (v : World) × Offers ctx.fresh_box bytes old u buf
                  slice v
                × Polled
                    (Operation.write g.fd slice g.pos)
                    ctx.fresh
                    v
                    g.ring.state
                    f'.ring.state
                    p
                    x
                × (f'
                    ≡ record g { ring = f'.ring; buf = left (after p buf); pos = behind p g.pos })))
          (poll_write D ctx bytes f w)
  unfolding poll_write unwrap_left write_out
  poll_write-behind bytes f w sound holds open? =
      Returns-and_then (guard_op-Ready write f w sound open? refl) λ g u r. rw r.has (
        Returns-and_then
          (file_fill_buf-Offers D bytes ctx.fresh_box r.buf u r.fits
            (Guarded-Backed r.guarded holds))
          λ (_, buf, p) v (slice, e, offers). rw e (
            Returns-and_then
              (poll_one-Polled D conforms ctx (Operation.write g.fd slice g.pos) g.ring v
                (Offers-Owns g.ring.state offers r.owns))
              λ (ring, answer) x polled.
                rw (written-after (record g { ring = ring; buf = left buf }) buf answer refl)
                  (returned (g, u, r.buf, r.guarded, (buf, slice, v, offers, polled, refl)))))
