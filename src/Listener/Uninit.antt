-- ===== src/Listener/Uninit.antt =====
-- An event that was begun without an address may be finished by the function that asks for one.
use ringbahn.Base.{ℕ, ◌≡◌, refl, none, some}
use ringbahn.Operation.{Operation}
use ringbahn.Machine.{World, returns, update, update_self, drop_callback, give_back}
use ringbahn.Completion.{Completion}
use ringbahn.Completion.Types as Kernel
use ringbahn.Completion.Branches.{erased, cleaned}
use ringbahn.Drive.{Context, Drive, single_sqe}
use ringbahn.Event
use ringbahn.Ring.{Ring, inert}
use ringbahn.Ring.Spec.{Busy}
use ringbahn.Ring.Delivery.{poll-completed}
use ringbahn.Listener.{
  accept, same_op, TcpListener, SockAddrs, guard_op, addr_box, load_addr, drop_addr, accept_answer,
  accepted, poll_accept,
}

-- A listener whose `poll_accept_no_addr` has been pending: a connection is being accepted, and there
-- is no box for the peer's address.
abbrev pub accepting : {Driver : Type 0} → Ring Driver → ℕ → TcpListener Driver
accepting ring fd = record { ring = ring; fd = fd; active = accept; addr = none }

module _ (S : SockAddrs) (D : Drive) (ctx : Context) (ring : Ring D.Driver) (fd : ℕ)
    (w : World) where
  open S use {uninit, as_socket_addr}

  -- The memory with a new box, which nothing has been written to.
  abbrev pub with_box : World
  with_box = record w { boxes = update w.boxes ctx.fresh_box (some uninit) }

  load_addr-uninit :
      (a : ℕ)
      → load_addr S ctx.fresh_box (erased with_box a)
        ≡ returns (as_socket_addr uninit) (erased with_box a)
  unfolding load_addr
  load_addr-uninit a = rw (load_addr, update_self w.boxes ctx.fresh_box (some uninit)) refl

  -- `poll_accept_no_addr` has submitted an accept that asks for no address, and the kernel has
  -- completed it. Then `poll_accept` takes its result for that of an accept of its own: it reads the
  -- peer's address from a box that it has just made and that nothing has been written to.
  pub poll_accept-uninit :
      (c : Completion) (new_fd : ℕ)
      → Busy c ring.state
      → w.completions c.state ≡ some (Kernel.completed (Kernel.ok new_fd))
      → poll_accept S D ctx (accepting ring fd) w
        ≡ accepted S D new_fd
            (accepting (record ring { state = inert }) fd)
            (as_socket_addr uninit)
            (cleaned (erased with_box c.state) (Event.from_maybe_box (some ctx.fresh_box)))
  unfolding poll_accept guard_op same_op addr_box accept_answer drop_addr drop_callback give_back
  poll_accept-uninit c new_fd busy holds =
      rw
        (poll-completed D ctx 1 (single_sqe D (Operation.accept fd (some ctx.fresh_box) 0))
          ring.driver with_box (Kernel.ok new_fd) busy holds)
        (rw (load_addr-uninit c.state) refl)
