-- ===== src/Tests/Writes.antt =====
-- Writing to a stream, and making a listener, where the system refuses the address.
use ringbahn.Base.{ℕ, ◌≡◌, refl, Bool, true, some, none, [], ◌∷◌, arith, replicate}
use ringbahn.Operation.{Operation, Slice}
use ringbahn.Machine.{World, returns, pure, ◌>>=◌, update}
use ringbahn.Machine.Returns.{Returns, returned}
use ringbahn.Completion.Types.{ok, os}
use ringbahn.Ring.{inert}
use ringbahn.Ring.Spec.{Polled}
use ringbahn.Buf.{Buffer}
use ringbahn.Stream
use ringbahn.Stream.{TcpStream, poll_write}
use ringbahn.Stream.Sound.{IsSound, Guarded}
use ringbahn.Stream.Writing.{Offers, after, poll_write-Offers}
use ringbahn.Sockets.{Nix, done, failed}
use ringbahn.Listener.Bind.{bind_on_driver}
use ringbahn.Listener.Bind.Leaks.{Quietly, Binds, bind_on_driver-closed}
use ringbahn.Io.Stdout as Stdout
use ringbahn.Io.Stdout.{Stdout}
use ringbahn.Io.Stdout.AsStream.{as_stream, through, poll_write-as_stream}
use ringbahn.Tests.Ready.{ready_driver, ready_driver-Conforms, start, ctx}

-- A stream whose buffer has been emptied, and keeps its box.
abbrev emptied : TcpStream (Unit {0})
emptied = record {
  ring = record { state = inert; driver = tt };
  buf = record { contents = some (record { address = 4096; len = 8192 }); pos = 0; cap = 0 };
  active = Stream.write;
  fd = 3;
}

abbrev boxed : World
boxed = record start { boxes = update start.boxes 4096 (some (replicate 8192 0)) }

emptied-IsSound : IsSound emptied boxed
emptied-IsSound = record {
  fits = record { ordered = omega arith; within = (omega arith, refl); small = omega arith };
  owns = tt;
  bounded = λ c n b. elim b [ ];
}

poll_write-Offers_example :
    Returns
      (λ (s', p) x.
        (g : TcpStream (Unit {0})) × (u : World) × Guarded Stream.write emptied boxed g u
        × ((buf : Buffer) × (slice : Slice) × (v : World) × Offers 4096
              (1 ∷ 2 ∷ [])
              g.buf
              u
              buf
              slice
              v
            × Polled (Operation.write g.fd slice 0) 64 v g.ring.state s'.ring.state p x
            × (s' ≡ record g { ring = s'.ring; buf = after p buf })))
      (poll_write ready_driver ctx (1 ∷ 2 ∷ []) emptied boxed)
unfolding Stream.same_op
poll_write-Offers_example =
    poll_write-Offers ready_driver ready_driver-Conforms ctx (1 ∷ 2 ∷ []) emptied boxed
      emptied-IsSound (_, refl) refl

-- A system with sockets, on which every address is in use.
abbrev in_use : Nix
in_use = record {
  SocketAddr = Bool;
  SockAddr = Bool;
  FilePath = ℕ;
  is_ipv6 = λ a. a;
  from_std = λ a. a;
  unix_addr = λ p. none;
  bytes = λ a. [];
  socket = λ d. returns (done 5);
  socketpair = returns (done (5, 6));
  last_os_error = returns (os 97);
  set_reuse_addr = λ fd. returns (done tt);
  bind = λ fd a. returns (failed (some 98));
  listen = λ fd n. returns (done tt);
}

in_use-Quietly : Quietly in_use
in_use-Quietly = record {
  sockets = λ d w. returned refl;
  errors = λ w. returned refl;
  options = λ fd w. returned refl;
  binds = λ fd a w. returned refl;
  listens = λ fd n w. returned refl;
}

bind_on_driver-closed_example :
    Returns
      (λ r v. Binds in_use (ok (true ∷ [])) tt start r v × (v.closed ≡ []))
      (bind_on_driver in_use (ok (true ∷ [])) tt start)
bind_on_driver-closed_example =
    bind_on_driver-closed in_use in_use-Quietly (ok (true ∷ [])) tt start

abbrev output : Stdout (Unit {0})
output = record { ring = emptied.ring; buf = emptied.buf }

poll_write-as_stream_example :
    poll_write ready_driver ctx (1 ∷ 2 ∷ []) (as_stream output) boxed
    ≡ (Stdout.poll_write ready_driver ctx (1 ∷ 2 ∷ []) output >>= λ a. pure (through a)) boxed
poll_write-as_stream_example = poll_write-as_stream ready_driver ctx (1 ∷ 2 ∷ []) output boxed
