-- ===== src/Tests/Listeners.antt =====
-- Listeners, on a driver that is always ready.
use ringbahn.Base.{ℕ, ◌≡◌, refl, Option, none, some, List, [], ◌∷◌, arith}
use ringbahn.Machine.{World, returns, ◌>>=◌, update}
use ringbahn.Completion
use ringbahn.Completion.Types as Kernel
use ringbahn.Completion.Types.{IoResult, ok, err}
use ringbahn.Completion.Branches.{erased, moved, cleaned}
use ringbahn.Event
use ringbahn.Ring.{Ring, inert, submitted, cancelled}
use ringbahn.Ring.Spec.{is_submitted, unread}
use ringbahn.Listener.{Op, same_op, TcpListener, SockAddrs, accepted, poll_accept, drop}
use ringbahn.Listener.Uninit.{accepting, with_box, poll_accept-uninit}
use ringbahn.Cancellation
use ringbahn.Cancellation.{allocation, sized}
use ringbahn.Listener.Drops.{accepting_into, drop-allocation}
use ringbahn.Listener.Accepting.{Boxed, Accepts, poll_accept-Accepts}
use ringbahn.Listener.Closing.{Guarded}
use ringbahn.Tests.Ready.{ready_driver, ready_driver-Conforms, start, task, ctx}

-- An address is a list of bytes, and one that has not been written is no address.
abbrev head : List ℕ → Option ℕ
head [] = none
head (x ∷ xs) = some x

abbrev addresses : SockAddrs
addresses = record {
  SockAddr = List ℕ;
  SocketAddr = ℕ;
  uninit = 0 ∷ [];
  as_socket_addr = ok;
  inet = head;
}

abbrev finished : World
finished = record start {
  completions = update start.completions 64 (some (Kernel.completed (ok 5)));
}

abbrev busy : Ring (Unit {0})
busy = record { state = submitted (record { state = 64 }); driver = tt }

poll_accept-uninit_example :
    poll_accept addresses ready_driver ctx (accepting busy 3) finished
    ≡ accepted addresses ready_driver 5
        (accepting (record { state = inert; driver = tt }) 3)
        (ok (0 ∷ []))
        (cleaned
          (erased (with_box addresses ready_driver ctx busy 3 finished) 64)
          (Event.from_maybe_box (some 4096)))
poll_accept-uninit_example =
    poll_accept-uninit addresses ready_driver ctx busy 3 finished (record { state = 64 }) 5
      is_submitted refl

-- The kernel has accepted a connection, and has written the address of the peer to the listener's box.
abbrev connection : World
connection = record finished { boxes = update start.boxes 8192 (some (7 ∷ [])) }

abbrev addressed : TcpListener (Unit {0})
addressed = record { ring = busy; fd = 3; active = Op.accept; addr = some 8192 }

poll_accept-Accepts_example :
    (g : TcpListener (Unit {0})) × (u : World) × (p : ℕ) × (v : World) × Guarded Op.accept addressed
      connection g u
    × Boxed addresses ready_driver 4096 u g.addr p v
    × Accepts addresses ready_driver 64 g p v
        (poll_accept addresses ready_driver ctx addressed connection)
unfolding same_op
poll_accept-Accepts_example =
    poll_accept-Accepts addresses ready_driver ready_driver-Conforms ctx addressed connection unread
      (7 ∷ [], refl) refl

abbrev waiting : World
waiting = record start { completions = update start.completions 64 (some (Kernel.submitted task)) }

drop-allocation_example :
    (drop (accepting_into busy 3 4096) waiting
      ≡ returns
          (record (accepting_into (record busy { state = cancelled 64 }) 3 4096) {
            active = Op.nothing;
            addr = none;
          })
          (moved waiting 64 (Kernel.cancelled (Event.from_maybe_box (some 4096)))))
    × ((drop (accepting_into busy 3 4096) >>= λ _.
            Completion.complete (ok 5) (Completion.addr (record { state = 64 })))
          waiting
        ≡ returns tt (erased (cleaned waiting (Event.from_maybe_box (some 4096))) 64))
    × (Cancellation.drop (λ _. []) (Event.from_maybe_box (some 4096)) ≡ allocation 4096 sized ∷ [])
drop-allocation_example =
    drop-allocation 3 4096 waiting (record { state = 64 }) task (ok 5) (omega arith) refl busy
      is_submitted
