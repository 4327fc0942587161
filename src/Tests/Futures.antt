-- ===== src/Tests/Futures.antt =====
-- Making sockets, and the futures that connect, open, accept and print, on a driver that is always ready.
use ringbahn.Base.{
  ℕ, ◌≡◌, refl, ◌⊎◌, Bool, true, false, none, some, [], ◌∷◌, arith, pos, ◌↔◌, ◌<◌, ◌≤◌,
}
use ringbahn.Cancellation
use ringbahn.Cancellation.{Object}
use ringbahn.Operation.{Operation, sqe}
use ringbahn.Machine.{World, returns, ◌>>=◌, Poll, update}
use ringbahn.Machine.Returns.{Returns, returned}
use ringbahn.Completion.{Completion}
use ringbahn.Completion.Types as Kernel
use ringbahn.Completion.Types.{IoResult, ok, os, invalid_input}
use ringbahn.Drive.{new_completion, single_sqe}
use ringbahn.Event
use ringbahn.Event.Constructors.{timespec}
use ringbahn.Event.Constructors.Time.{IsNegative, timespec-eq}
use ringbahn.Ring
use ringbahn.Ring.{Ring, submitted, cancel, inert}
use ringbahn.Ring.Spec.{Polled, Busy, is_submitted, unread, event_sqe, cancel_sqe}
use ringbahn.Ring.Reuse.{reused, cancel-cancel_sqe}
use ringbahn.Sockets.{Nix, Domain, inet, inet6, unix, NixResult, done, failed, net_socket}
use ringbahn.Sockets.First.{Answers, First, net_socket-First}
use ringbahn.Connect
use ringbahn.Connect.{connecting}
use ringbahn.Connect.Contract.{Connects, poll-Connects}
use ringbahn.File.Opening.{poll_open, poll_create}
use ringbahn.File.Opening.Contract.{Opens, poll_open-Opens}
use ringbahn.Unix.Listener
use ringbahn.Unix.Listener.{UnixListener, nothing, accept, poll_accept}
use ringbahn.Unix.Listener.Contract.{Guarded, to_stream, poll_accept-to_stream}
use ringbahn.Io.Print
use ringbahn.Io.Print.{Print}
use ringbahn.Io.Print.Rounds.{IsSound, Ends, poll-Ends}
use ringbahn.Tests.Ready.{ready_driver, ready_driver-Conforms, start, task, ctx}

-- A system without sockets of the older family: an address is whether it is of the newer one.
abbrev sockets : Domain → NixResult ℕ
sockets inet = failed (some 97)
sockets inet6 = done 5
sockets unix = done 6

abbrev nix : Nix
nix = record {
  SocketAddr = Bool;
  SockAddr = Bool;
  FilePath = ℕ;
  is_ipv6 = λ a. a;
  from_std = λ a. a;
  unix_addr = λ p. none;
  bytes = λ a. 10 ∷ [];
  socket = λ d. returns (sockets d);
  socketpair = returns (done (5, 6));
  last_os_error = returns (os 97);
  set_reuse_addr = λ fd. returns (done tt);
  bind = λ fd a. returns (done tt);
  listen = λ fd n. returns (done tt);
}

nix-Answers : Answers nix
nix-Answers = record { sockets = λ addr w. returned refl; errors = λ w. returned refl }

net_socket-First_example :
    Returns
      (λ r v. First nix (false ∷ true ∷ []) invalid_input start r v)
      (net_socket nix (ok (false ∷ true ∷ [])) start)
net_socket-First_example = net_socket-First nix nix-Answers (false ∷ true ∷ []) start

completion : Completion
completion = record { state = 32 }

abbrev finished : World
finished = record start {
  completions = update start.completions 32 (some (Kernel.completed (ok 5)));
  boxes = update start.boxes 8192 (some (10 ∷ []));
}

abbrev busy : Ring (Unit {0})
busy = record { state = submitted (record { state = 32 }); driver = tt }

poll-Connects_example :
    Returns
      (λ (t, p) v. Connects 7 8192 64 finished busy.state t p v)
      (Connect.poll ready_driver ctx
        (connecting (record { ring = busy; event = some (Event.connect 7 8192) }))
        finished)
poll-Connects_example =
    poll-Connects ready_driver ready_driver-Conforms ctx 7 8192 busy finished unread

poll_open-Opens_example :
    Returns
      (λ (t, p) v. Opens 8192 100 0 438 64 finished busy.state t p v)
      (poll_open ready_driver ctx
        (record { ring = busy; event = some (Event.open_at 8192 100 0 438) })
        finished)
    × Returns
        (λ (t, p) v. Opens 8192 100 0 438 64 finished busy.state t p v)
        (poll_create ready_driver ctx
          (record { ring = busy; event = some (Event.open_at 8192 100 0 438) })
          finished)
poll_open-Opens_example =
    poll_open-Opens ready_driver ready_driver-Conforms ctx 8192 100 0 438 busy finished unread

abbrev listener : UnixListener (Unit {0})
listener = record { ring = busy; fd = 3; active = accept }

poll_accept-to_stream_example :
    Returns
      (λ (l', p) v.
        (g : UnixListener (Unit {0})) × (u : World) × (answer : Poll (IoResult ℕ)) × Guarded accept
          listener finished g u
        × Polled (Operation.accept g.fd none 0) 64 u g.ring.state l'.ring.state answer v
        × (l' ≡ record g { ring = l'.ring })
        × (p ≡ to_stream l'.ring.driver answer))
      (poll_accept ready_driver ctx listener finished)
unfolding Listener.same_op
poll_accept-to_stream_example =
    poll_accept-to_stream ready_driver ready_driver-Conforms ctx listener finished unread refl

-- The kernel has written five bytes of twelve.
abbrev printing : Print (Unit {0})
printing = record { ring = busy; fd = 1; bytes = record { address = 8192; len = 12 }; idx = 0 }

printing-IsSound : IsSound printing finished
printing-IsSound = record {
  within = omega arith;
  owns = unread;
  bounded = λ c n b holds. wrote c n b holds;
}
  where
    wrote :
        (c : Completion) (n : ℕ)
        → Busy c busy.state
        → finished.completions c.state ≡ some (Kernel.completed (ok n))
        → n ≤ 12
    wrote c n is_submitted holds = ground arith

poll-Ends_example :
    Returns (λ o v. Ends 64 printing finished o v) (Print.poll ready_driver 2 ctx printing finished)
poll-Ends_example =
    poll-Ends ready_driver ready_driver-Conforms ctx 0 printing finished printing-IsSound

-- one second more than the kernel can be told
timespec-eq_example :
    ((timespec (record { secs = 9223372036854775808; subsec_nanos = 0 })
        ≡ record { tv_sec = pos 9223372036854775808; tv_nsec = 0 })
      ↔ (9223372036854775808 < 9223372036854775808))
    × (IsNegative (timespec (record { secs = 9223372036854775808; subsec_nanos = 0 })).tv_sec
        ↔ (9223372036854775808 ≤ 9223372036854775808))
timespec-eq_example = timespec-eq (record { secs = 9223372036854775808; subsec_nanos = 0 })

abbrev syncing : Operation
syncing = Operation.close 3

abbrev closing : Operation
closing = Operation.close 4

cancel-cancel_sqe_example :
    ((reused closing finished
          (record { state = 32 })
          (Cancellation.new Object.unit)
          ctx).completions
        32
      ≡ some (Kernel.submitted task))
    × Returns
        (λ (ring', p) v.
          (v.queue ≡ event_sqe closing 32 ∷ [])
          ⊎ (v.queue ≡ event_sqe syncing 64 ∷ cancel_sqe 32 ∷ event_sqe closing 32 ∷ []))
        ((cancel busy (Cancellation.new Object.unit) >>= λ r.
            new_completion (sqe closing) (record ctx { fresh = 32 }) >>= λ _.
            Ring.poll ready_driver ctx 1 (single_sqe ready_driver syncing) r)
          finished)
cancel-cancel_sqe_example =
    cancel-cancel_sqe ready_driver ready_driver-Conforms syncing closing finished
      (record { state = 32 }) (ok 5) (Cancellation.new Object.unit) ctx ctx busy is_submitted refl
