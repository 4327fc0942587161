-- ===== src/File/Stale.antt =====
-- A seek does not discard the data that has been read and not consumed.
use ringbahn.Base.{ℕ, ◌<◌, ◌≡◌, false, arith, leb}
use ringbahn.Machine.{World, returns, ◌>>=◌, ready}
use ringbahn.Completion.Types.{ok}
use ringbahn.Drive.{Context, Drive}
use ringbahn.Ring.{Ring}
use ringbahn.Buf.{Buffer, fill_buf}
use ringbahn.Buf.Fits.{Fits}
use ringbahn.Buf.Fill.{view, buffered_from_read-view}
use ringbahn.File.Handle.{left, read, File}
use ringbahn.File.Transfer.{poll_fill_buf}
use ringbahn.File.Position.{start, Statx, StatxArguments, poll_seek}

-- A file from which has been read last.
abbrev pub reading : {Driver : Type 0} → Ring Driver → ℕ → Buffer → ℕ → File Driver
reading ring fd buf pos = record { ring = ring; fd = fd; active = read; buf = left buf; pos = pos }

module _ (D : Drive) (libc : Statx) (arguments : StatxArguments) (ctx : Context)
    (ring : Ring D.Driver) (fd pos : ℕ) (buf : Buffer) (w : World) where
  -- A file holds data that was read before and not consumed. After a seek to any position the next
  -- read shows that old data all the same, without an operation at the new position.
  pub poll_seek-poll_fill_buf :
      (target : ℕ)
      → Fits buf
      → buf.pos < buf.cap
      → (poll_seek D libc arguments ctx (start target) (reading ring fd buf pos) >>= λ (f, _).
            poll_fill_buf D ctx f)
          w
        ≡ returns (reading ring fd buf target, ready (ok (view buf.contents buf.pos buf.cap))) w
  unfolding poll_seek poll_fill_buf fill_buf
  poll_seek-poll_fill_buf target fits more =
      let e : leb buf.cap buf.pos ≡ false = ground arith in
      rw (e, buffered_from_read-view buf w fits)
