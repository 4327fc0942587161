-- ===== src/Listener/Accepting.antt =====
-- Accepting a connection with the address of the peer, on a conforming driver.
use ringbahn.Base.{ℕ, ◌≡◌, refl, ◌∙◌, ap, false, Option, none, some, List, Option-cases, inl, inr}
use ringbahn.Operation.{Operation}
use ringbahn.Machine.{
  World, Run, returns, panics, unexpected_family, Poll, pending, ready, update, update_self,
  drop_callback, give_back,
}
use ringbahn.Machine.Returns.{outcome}
use ringbahn.Completion.Types.{IoResult, ok, err, Error}
use ringbahn.Completion.Branches.{cleaned, erased}
use ringbahn.Drive.{Context, Drive, single_sqe}
use ringbahn.Drive.Conforms.{Conforms}
use ringbahn.Event
use ringbahn.Ring
use ringbahn.Ring.{State, Ring}
use ringbahn.Ring.Spec.{Owns, Polled}
use ringbahn.Ring.Answers.{ready-inert}
use ringbahn.Ring.Busy.{Owns-boxes}
use ringbahn.Ring.Delivery.{poll-completed}
use ringbahn.Ring.Refines.{poll_one-Polled}
use ringbahn.Stream
use ringbahn.Stream.{TcpStream}
use ringbahn.Listener.{
  accept, closed, guard_op, same_op, TcpListener, SockAddrs, addr_box, load_addr, drop_addr, to_std,
  accepted, accept_answer, poll_accept,
}
use ringbahn.Listener.Closing.{Guarded, continues, interrupts, guard_op-Guarded}

-- The box that a listener has is in memory.
abbrev pub Holds : Option ℕ → World → Type 0
Holds none w = Unit {0}
Holds (some p) w = (bytes : List ℕ) × (w.boxes p ≡ some bytes)

Guarded-Holds :
    {Driver : Type 0} {l g : TcpListener Driver} {w u : World}
    → Guarded accept l w g u
    → Holds l.addr w
    → Holds g.addr u
Guarded-Holds (continues same) h = h
Guarded-Holds (interrupts other outcome) h = tt

-- A ring that is ready has touched no box.
ready-boxes :
    (D : Drive) (ctx : Context) (op : Operation) (ring ring' : Ring D.Driver) (v x : World)
    (answer : Poll (IoResult ℕ)) (n : ℕ)
    → Ring.poll D ctx 1 (single_sqe D op) ring v ≡ returns (ring', answer) x
    → Polled op ctx.fresh v ring.state ring'.state answer x
    → answer ≡ ready (ok n)
    → x.boxes ≡ v.boxes
ready-boxes D ctx op ring ring' v x answer n e polled q =
    let (rests, (c, busy, holds)) = ready-inert polled.transition q in
    let e' = poll-completed D ctx 1 (single_sqe D op) ring.driver v (ok n) busy holds in
    let same : x ≡ erased v c.state = cc (e, e') in ap (λ w. w.boxes) same

module _ (S : SockAddrs) (D : Drive) where
  open S use {SocketAddr, SockAddr, uninit, as_socket_addr, inet}

  -- The box for the address: the listener's, or a new one.
  pub data Boxed (fresh : ℕ) (w : World) : Option ℕ → ℕ → World → Type 0 where
    kept : {p : ℕ} → Boxed fresh w (some p) p w
    made : Boxed fresh w none fresh (record w { boxes = update w.boxes fresh (some uninit) })

  -- The ring is polled for an accept into the box.
  abbrev pub PolledAccept :
      ℕ → TcpListener D.Driver → ℕ → World → Ring D.Driver → Poll (IoResult ℕ) → World → Type 0
  PolledAccept fresh g p v ring answer x =
      Polled (Operation.accept g.fd (some p) 0) fresh v g.ring.state ring.state answer x

  -- How the call ends, after the guard and with the box at `p`. The kernel is not done, or it reports an
  -- error, and the listener keeps the box; or it gives a descriptor. Then the call panics if the bytes in
  -- the box are the address of another family. If not, the box is given back, and the caller gets a
  -- stream of the descriptor with the address of the peer, or the error of bytes that are no address.
  pub data Accepts (fresh : ℕ) (g : TcpListener D.Driver) (p : ℕ) (v : World)
      : Run (TcpListener D.Driver × Poll (IoResult (TcpStream D.Driver × SocketAddr)))
        → Type 0 where
    unready :
        {ring : Ring D.Driver} {x : World}
        → PolledAccept fresh g p v ring pending x
        → Accepts fresh g p v (returns (record g { ring = ring; addr = some p }, pending) x)
    failed :
        {ring : Ring D.Driver} {x : World} {e : Error}
        → PolledAccept fresh g p v ring (ready (err e)) x
        → Accepts fresh g p v (returns (record g { ring = ring; addr = some p }, ready (err e)) x)
    unreadable :
        {ring : Ring D.Driver} {x : World} {fd : ℕ} {bytes : List ℕ} {e : Error}
        → PolledAccept fresh g p v ring (ready (ok fd)) x
        → v.boxes p ≡ some bytes
        → as_socket_addr bytes ≡ err e
        → Accepts fresh g p v (
            returns
              (record g { ring = ring; addr = none }, ready (err e))
              (cleaned x (Event.from_maybe_box (some p))))
    of_another_family :
        (ring : Ring D.Driver) {x : World} {fd : ℕ} {bytes : List ℕ} {a : SockAddr}
        → PolledAccept fresh g p v ring (ready (ok fd)) x
        → v.boxes p ≡ some bytes
        → as_socket_addr bytes ≡ ok a
        → inet a ≡ none
        → Accepts fresh g p v (panics unexpected_family)
    with_peer :
        {ring : Ring D.Driver} {x : World} {fd : ℕ} {bytes : List ℕ} {a : SockAddr}
        {peer : SocketAddr}
        → PolledAccept fresh g p v ring (ready (ok fd)) x
        → v.boxes p ≡ some bytes
        → as_socket_addr bytes ≡ ok a
        → inet a ≡ some peer
        → Accepts fresh g p v (
            returns
              (
                record g { ring = ring; addr = none },
                ready (ok (Stream.from_fd fd (Ring.clone D ring), peer)),
              )
              (cleaned x (Event.from_maybe_box (some p))))

  addr_box-Boxed :
      (fresh : ℕ) (addr : Option ℕ) (s : State) (w : World)
      → Owns s w
      → Holds addr w
      → (p : ℕ) × (v : World) × (bytes : List ℕ) × (addr_box S fresh addr w ≡ returns p v)
        × Boxed fresh w addr p v
        × Owns s v
        × (v.boxes p ≡ some bytes)
  unfolding addr_box
  addr_box-Boxed fresh none s w owns h =
      (fresh, _, uninit, refl, made, Owns-boxes s w _ owns, update_self w.boxes fresh (some uninit))
  addr_box-Boxed fresh (some p) s w owns (bytes, holds) = (p, w, bytes, refl, kept, owns, holds)

  module _ (fresh : ℕ) (g : TcpListener D.Driver) (p : ℕ) (v x : World) (ring : Ring D.Driver)
      (bytes : List ℕ) (there : v.boxes p ≡ some bytes) where
    accepted-Accepts :
        (fd : ℕ) (result : IoResult SockAddr)
        → PolledAccept fresh g p v ring (ready (ok fd)) x
        → as_socket_addr bytes ≡ result
        → Accepts fresh g p v (
            accepted S D fd
              (record g { ring = ring; addr = none })
              result
              (cleaned x (Event.from_maybe_box (some p))))
    unfolding accepted to_std
    accepted-Accepts fd (err e) polled q = unreadable polled there q
    accepted-Accepts fd (ok a) polled q = elim (Option-cases (inet a)) [
      | inl foreign ↦ rw foreign (of_another_family ring polled there q foreign)
      | inr (peer, known) ↦ rw known (with_peer polled there q known)
    ]

    load_addr-some : x.boxes p ≡ some bytes → load_addr S p x ≡ returns (as_socket_addr bytes) x
    unfolding load_addr
    load_addr-some holds = rw (load_addr, holds) refl

    accept_answer-Accepts :
        (answer : Poll (IoResult ℕ))
        → PolledAccept fresh g p v ring answer x
        → ((fd : ℕ) → answer ≡ ready (ok fd) → x.boxes ≡ v.boxes)
        → Accepts fresh g p v
            (accept_answer S D p (record g { ring = ring; addr = some p }) answer x)
    unfolding accept_answer drop_addr drop_callback give_back
    accept_answer-Accepts pending polled untouched = unready polled
    accept_answer-Accepts (ready (err e)) polled untouched = failed polled
    accept_answer-Accepts (ready (ok fd)) polled untouched =
        let holds : x.boxes p ≡ some bytes = ap (λ b. b p) (untouched fd refl) ∙ there in
        rw (load_addr-some holds) (accepted-Accepts fd (as_socket_addr bytes) polled refl)

  module _ (conforms : Conforms D) (ctx : Context) where
    after_guard-Accepts :
        (l g : TcpListener D.Driver) (w u : World)
        → guard_op accept l w ≡ returns g u
        → Owns g.ring.state u
        → Holds g.addr u
        → (p : ℕ) × (v : World) × Boxed ctx.fresh_box u g.addr p v
          × Accepts ctx.fresh g p v (poll_accept S D ctx l w)
    unfolding poll_accept
    after_guard-Accepts l g w u e owns holds =
        let (p, v, bytes, e', boxed, owns', there) =
          addr_box-Boxed ctx.fresh_box g.addr g.ring.state u owns holds in
        let op = Operation.accept g.fd (some p) 0 in
        let ((ring, answer), x, e'', polled) =
          outcome (poll_one-Polled D conforms ctx op g.ring v owns') in
        (
          p,
          v,
          boxed,
          rw e (
              rw e' (
                rw e'' (
                  accept_answer-Accepts ctx.fresh g p v x ring bytes there answer polled
                    λ fd q. ready-boxes D ctx op g.ring ring v x answer fd e'' polled q))),
        )

    -- On a conforming driver, `poll_accept` of an open listener whose box, if it has one, is in memory does
    -- not go through a dangling pointer, and panics only if the address of the peer is of another family
    -- than the internet's. A close that was under way is cancelled first. Then the ring makes a transition
    -- of its contract for an accept into the listener's box, or into a new one. Until the kernel has given
    -- a descriptor, the listener keeps the box. After that the address is read from the box, which is
    -- given back, and the caller gets a stream of the descriptor, on a clone of the driver, with the
    -- address, or the error of an address that cannot be read.
    pub poll_accept-Accepts :
        (l : TcpListener D.Driver) (w : World)
        → Owns l.ring.state w
        → Holds l.addr w
        → same_op l.active closed ≡ false
        → (g : TcpListener D.Driver) × (u : World) × (p : ℕ) × (v : World) × Guarded accept l w g u
          × Boxed ctx.fresh_box u g.addr p v
          × Accepts ctx.fresh g p v (poll_accept S D ctx l w)
    poll_accept-Accepts l w owns holds open? =
        let (g, u, e, (guarded, owns')) = outcome (guard_op-Guarded accept l w owns open?) in
        let (p, v, boxed, accepts) =
          after_guard-Accepts l g w u e owns' (Guarded-Holds guarded holds) in
        (g, u, p, v, guarded, boxed, accepts)
