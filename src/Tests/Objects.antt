-- ===== src/Tests/Objects.antt =====
-- Streams and files, on a driver that is always ready.
use ringbahn.Base.{◌≡◌, refl, some, [], ◌∷◌, arith, negsuc, plus}
use ringbahn.Machine.{World, returns, ◌>>=◌, ready, drop_callback}
use ringbahn.Machine.Returns.{Returns}
use ringbahn.Completion.Types.{ok, err, invalid_input}
use ringbahn.Completion.Branches.{cleaned}
use ringbahn.Ring
use ringbahn.Ring.{Ring, inert}
use ringbahn.Ring.Spec.{Owns}
use ringbahn.Buf
use ringbahn.Buf.{Buffer, empty_slice}
use ringbahn.Buf.Fits.{Fits}
use ringbahn.Buf.Fill.{Filled}
use ringbahn.Stream
use ringbahn.Stream.{TcpStream}
use ringbahn.Stream.Sound.{IsSound, Guarded}
use ringbahn.Stream.Reading.{poll_fill_buf-Filled}
use ringbahn.Stream.Guard.{interrupted, interrupting_operations}
use ringbahn.File.Handle as File
use ringbahn.File.Handle.{File, drop}
use ringbahn.File.Transfer as Transfer
use ringbahn.File.Position.{start, current, Statx, StatxArguments, poll_seek}
use ringbahn.File.Seek.{as_position, moved_to, poll_seek-current}
use ringbahn.File.Drops.{drop-closed}
use ringbahn.File.Stale.{reading, poll_seek-poll_fill_buf}
use ringbahn.Tests.Ready as Ready
use ringbahn.Tests.Ready.{ready_driver, ready_driver-Conforms, ctx}

abbrev idle : Ring (Unit {0})
idle = record { state = inert; driver = tt }

abbrev half_read : Buffer
half_read = record { contents = some (record { address = 4096; len = 8192 }); pos = 4; cap = 10 }

half_read-Fits : Fits half_read
half_read-Fits = record { ordered = omega arith; within = (omega arith, refl); small = omega arith }

abbrev stream : Stream.Op → TcpStream (Unit {0})
stream op = record { ring = idle; buf = half_read; active = op; fd = 3 }

stream-IsSound : (op : Stream.Op) → IsSound (stream op) Ready.start
stream-IsSound op = record { fits = half_read-Fits; owns = tt; bounded = λ c n b. elim b [ ] }

poll_fill_buf-Filled_example :
    Returns
      (λ (s', p) v.
        (Fits s'.buf × Owns s'.ring.state v)
        × ((g : TcpStream (Unit {0})) × (u : World) × Guarded Stream.read
              (stream Stream.write)
              Ready.start
              g
              u
            × (s' ≡ record g { ring = s'.ring; buf = s'.buf })
            × Filled g.ring g.buf u s'.ring s'.buf p v))
      (Stream.poll_fill_buf ready_driver ctx (stream Stream.write) Ready.start)
unfolding Stream.same_op
poll_fill_buf-Filled_example =
    poll_fill_buf-Filled ready_driver ready_driver-Conforms ctx (stream Stream.write) Ready.start
      (stream-IsSound Stream.write) refl

-- The memory once the buffer has been given back.
abbrev after : World
after = cleaned Ready.start (Buf.cancellation half_read).1

interrupting_operations_example :
    (Stream.poll_read ready_driver ctx 8 (stream Stream.write) Ready.start
      ≡ returns
          (Stream.consume 0 (interrupted Stream.read (stream Stream.write) idle), ready (ok []))
          after)
    × (Stream.poll_write ready_driver ctx (1 ∷ 2 ∷ []) (stream Stream.read) Ready.start
        ≡ Stream.write_out ready_driver ctx
            (interrupted Stream.write (stream Stream.read) idle)
            (ready (ok empty_slice))
            after)
unfolding Stream.same_op Ring.cancel drop_callback
interrupting_operations_example =
    interrupting_operations ready_driver ctx (stream Stream.write) (stream Stream.read) Ready.start
      after Ready.start after idle idle 8 (1 ∷ 2 ∷ [])
      (record { open_still = refl; begun = refl; other = refl; unread = omega arith }) refl
      (record { open_still = refl; begun = refl; other = refl; unread = omega arith }) refl

abbrev libc : Statx
libc = record { zeroed = []; stx_size = λ _. 0 }

abbrev arguments : StatxArguments
arguments = record { at_empty_path = 4096; mask_size = 512; empty_path = 16 }

abbrev at_ten : File (Unit {0})
at_ten = reading idle 3 half_read 10

poll_seek-current_example :
    poll_seek ready_driver libc arguments ctx (current (negsuc 2)) at_ten Ready.start
    ≡ returns
        (
          moved_to at_ten (as_position (plus 10 (negsuc 2))),
          ready (as_position (plus 10 (negsuc 2))),
        )
        Ready.start
poll_seek-current_example =
    poll_seek-current ready_driver libc arguments ctx at_ten Ready.start (negsuc 2) (omega arith)

-- the same seek, and one before the start of the file
seven : as_position (plus 10 (negsuc 2)) ≡ ok 7
unfolding plus
seven = refl

before_start : as_position (plus 10 (negsuc 10)) ≡ err invalid_input
unfolding plus
before_start = refl

drop-closed_example : Returns (λ f' v. v.closed ≡ []) (drop at_ten Ready.start)
unfolding File.same_op
drop-closed_example = drop-closed at_ten Ready.start tt

poll_seek-poll_fill_buf_example :
    (poll_seek ready_driver libc arguments ctx (start 0) at_ten >>= λ (f, _).
    Transfer.poll_fill_buf ready_driver ctx f)
      Ready.start
    ≡ returns
        (reading idle 3 half_read 0, ready (ok (record { address = 4096; start = 4; len = 6 })))
        Ready.start
poll_seek-poll_fill_buf_example =
    poll_seek-poll_fill_buf ready_driver libc arguments ctx idle 3 10 half_read Ready.start 0
      half_read-Fits (omega arith)
