-- ===== src/Tests/Accepting.antt =====
-- A listener and the kernel, on a driver that is always ready.
use ringbahn.Base.{ℕ, none, some, List, [], ◌∷◌, length}
use ringbahn.Cancellation
use ringbahn.Completion
use ringbahn.Completion.Types.{ok}
use ringbahn.Drive.{Context}
use ringbahn.Event
use ringbahn.Ring
use ringbahn.Listener as Listener
use ringbahn.Listener.{TcpListener, SockAddrs, nothing}
use ringbahn.Listener.System.{Action, accepts, accepts_no_addr, closes, completes}
use ringbahn.Listener.System.Custody.{Custody}
use ringbahn.Tests.Ready.{ctx}

-- An address is a list of bytes, and its length stands for the address of a peer.
abbrev lengths : SockAddrs
lengths = record {
  SockAddr = List ℕ;
  SocketAddr = ℕ;
  uninit = 0 ∷ [];
  as_socket_addr = ok;
  inet = λ bytes. some (length bytes);
}

abbrev listener : TcpListener (Unit {0})
listener = record { ring = Ring.new tt; fd = 3; active = nothing; addr = none }

-- the next address for a completion, and for a box
abbrev later : Context
later = record ctx { fresh = 32; fresh_box = 16384 }

-- A connection is accepted, which is asked for with the address and without. While the next one is waited
-- for the listener is closed: the accept is cancelled, and the kernel completes it before the close.
abbrev actions : List Action
actions =
    accepts ctx
    ∷ accepts_no_addr later
    ∷ completes (ok 5) 64
    ∷ accepts later
    ∷ accepts ctx
    ∷ closes later
    ∷ completes (ok 9) 64
    ∷ completes (ok 0) 32
    ∷ closes ctx
    ∷ []
