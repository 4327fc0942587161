-- ===== src/File/Seek.antt =====
-- Where `poll_seek` leaves the file.
use ringbahn.Base.{ℕ, ◌<◌, ◌≡◌, refl, arith, ltb, if◌then◌else◌, ℤ, pos, negsuc, plus}
use ringbahn.Machine.{World, returns, ready}
use ringbahn.Completion.Types.{IoResult, ok, err, os, invalid_input}
use ringbahn.Drive.{Context, Drive}
use ringbahn.File.Handle.{File}
use ringbahn.File.Position.{
  current, valid_seek, seek_result, eoverflow, Statx, StatxArguments, poll_seek,
}

-- An integer as a position of 64 bits: no position is negative.
abbrev pub as_position : ℤ → IoResult ℕ
as_position (pos t) = if ltb t 18446744073709551616 then ok t else err (os eoverflow)
as_position (negsuc t) = err invalid_input

-- A file is moved by a seek that succeeds.
abbrev pub moved_to : {Driver : Type 0} → File Driver → IoResult ℕ → File Driver
moved_to f (ok t) = record f { pos = t }
moved_to f (err e) = f

valid_seek-as_position :
    (whence : ℕ) (offset : ℤ)
    → whence < 18446744073709551616
    → valid_seek whence offset ≡ as_position (plus whence offset)
unfolding valid_seek plus
valid_seek-as_position whence (pos n) h = ground arith
valid_seek-as_position whence (negsuc n) h = ground arith

seek_result-moved_to :
    {Driver : Type 0} (f : File Driver) (r : IoResult ℕ) → seek_result f r ≡ (moved_to f r, ready r)
unfolding seek_result
seek_result-moved_to f (ok t) = refl
seek_result-moved_to f (err e) = refl

module _ (D : Drive) (libc : Statx) (arguments : StatxArguments) (ctx : Context) (f : File D.Driver)
    (w : World) where
  -- A seek relative to the current position is ready at once, and moves the file to the sum of the
  -- two, where that is a position of 64 bits. A sum that is too large fails with `EOVERFLOW` and a
  -- negative one with `InvalidInput`; a seek that fails leaves the file as it was.
  pub poll_seek-current :
      (offset : ℤ)
      → f.pos < 18446744073709551616
      → poll_seek D libc arguments ctx (current offset) f w
        ≡ returns
            (moved_to f (as_position (plus f.pos offset)), ready (as_position (plus f.pos offset)))
            w
  unfolding poll_seek
  poll_seek-current offset h =
      rw (valid_seek-as_position f.pos offset h, seek_result-moved_to f) refl
