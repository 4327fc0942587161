-- ===== src/Stream/Held.antt =====
-- Reading from a stream whose buffer holds data.
use ringbahn.Base.{
  ℕ, ◌-◌, ◌+◌, ◌≤◌, ◌<◌, ◌≡◌, refl, sym, ◌∙◌, false, List, some, leb, ◌==◌, length, take, drop,
  length-take, length-drop, drop-drop, drop-take, drop-length, arith,
}
use ringbahn.Operation.{BoxedSlice, Slice}
use ringbahn.Machine.{World, returns, Cmd, Poll, ready, load_slice}
use ringbahn.Completion.Types.{IoResult, ok}
use ringbahn.Drive.{Context, Drive}
use ringbahn.Ring.{Ring}
use ringbahn.Buf
use ringbahn.Buf.{Buffer, fill_buf}
use ringbahn.Buf.Fits.{Fits}
use ringbahn.Buf.Fill.{view, buffered_from_read-view}
use ringbahn.Stream.{
  read, same_op, TcpStream, guard_op, consume, read_into, poll_fill_buf, read_out, poll_read,
}

-- The bytes from `pos` to `cap` of a box.
abbrev pub between : ℕ → ℕ → List ℕ → List ℕ
between pos cap bytes = take (cap - pos) (drop pos bytes)

-- A stream from which has been read last, with data in its buffer.
abbrev pub holding : {Driver : Type 0} → Ring Driver → ℕ → BoxedSlice → ℕ → ℕ → TcpStream Driver
holding ring fd b pos cap = record {
  ring = ring;
  buf = record { contents = some b; pos = pos; cap = cap };
  active = read;
  fd = fd;
}

module _ (pos cap : ℕ) (bytes : List ℕ) (ordered : pos ≤ cap) (enough : cap ≤ length bytes) where
  length-between : length (between pos cap bytes) ≡ cap - pos
  length-between = omega (arith, length-take (cap - pos) (drop pos bytes), length-drop pos bytes)

  between-drop : (n : ℕ) → between (pos + n) cap bytes ≡ drop n (between pos cap bytes)
  between-drop n =
      let e : cap - (pos + n) ≡ cap - pos - n = omega arith in
      rw (e, sym (drop-drop pos n bytes)) (sym (drop-take n (cap - pos) (drop pos bytes)))

module _ (D : Drive) (ctx : Context) (ring : Ring D.Driver) (fd : ℕ) (b : BoxedSlice) (pos cap : ℕ)
    (w : World) (bytes : List ℕ) (fits : Fits (record { contents = some b; pos = pos; cap = cap }))
    (more : pos < cap) (holds : w.boxes b.address ≡ some bytes)
    (whole_box : length bytes ≡ b.len) where
  ordered : pos ≤ cap
  ordered = fits.ordered

  enough : cap ≤ length bytes
  enough = let h : cap ≤ b.len = fits.within.0 in omega arith

  fill_buf-held :
      {C : Type 0} (c : C) (fill : C → Slice → Cmd (C × Poll (IoResult ℕ)))
      → fill_buf ctx.fresh_box fill c (record { contents = some b; pos = pos; cap = cap }) w
        ≡ returns
            (
              c,
              record { contents = some b; pos = pos; cap = cap },
              ready (ok (view (some b) pos cap)),
            )
            w
  unfolding fill_buf
  fill_buf-held c fill =
      let e : leb cap pos ≡ false = ground arith in
      rw (e, buffered_from_read-view (record { contents = some b; pos = pos; cap = cap }) w fits)
        refl

  load_slice-view : load_slice (view (some b) pos cap) w ≡ returns (between pos cap bytes) w
  unfolding load_slice
  load_slice-view = let e : (cap - pos == 0) ≡ false = ground arith in rw (e, holds) refl

  consumed :
      (len : ℕ)
      → (consume (length (take len (between pos cap bytes))) (holding ring fd b pos cap)).buf.pos
        ≡ pos + length (take len (between pos cap bytes))
  unfolding consume Buf.consume
  consumed len =
      let small : cap < 4294967296 = fits.small in
      omega (
        arith,
        ordered,
        length-between pos cap bytes ordered enough,
        length-take len (between pos cap bytes),
      )

  -- A stream was read from last, and its buffer holds data that was not consumed. `poll_read` is then
  -- ready at once, without a call of the driver, with as much of the data as its caller has room for,
  -- and what it leaves in the buffer is the rest of that data.
  pub poll_read-held :
      (len : ℕ)
      → (s : TcpStream D.Driver) × (poll_read D ctx len (holding ring fd b pos cap) w
          ≡ returns (s, ready (ok (take len (between pos cap bytes)))) w)
        × (s ≡ holding ring fd b s.buf.pos cap)
        × (between s.buf.pos cap bytes ≡ drop len (between pos cap bytes))
  unfolding poll_read poll_fill_buf guard_op same_op read_out consume Buf.consume
  poll_read-held len = (
    consume (length (take len (between pos cap bytes))) (holding ring fd b pos cap),
    rw (fill_buf-held ring (read_into D ctx fd)) (rw load_slice-view refl),
    refl,
    rw (consumed len)
        (between-drop pos cap bytes ordered enough _ ∙ drop-length len (between pos cap bytes)),
  )
