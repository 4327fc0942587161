-- ===== src/Sockets/First.antt =====
-- Which of its addresses `net::socket` answers with.
use ringbahn.Base.{ℕ, ◌≡◌, refl, List, [], ◌∷◌, ◌++◌, Option, ap}
use ringbahn.Machine.{World, returns}
use ringbahn.Machine.Returns.{Returns, returned, Returns-and_then, Returns-map}
use ringbahn.Completion.Types.{IoResult, ok, err, Error, invalid_input}
use ringbahn.Sockets.{Nix, NixResult, done, failed, domain, next_socket, first_socket, net_socket}

-- The calls of the system that make a socket, and that read the error, return.
pub record Answers (N : Nix) : Type 0 where
  pub sockets :
      (addr : N.SocketAddr) (w : World)
      → Returns (λ r v. N.socket (domain N addr) w ≡ returns r v) (N.socket (domain N addr) w)
  pub errors : (w : World) → Returns (λ e v. N.last_os_error w ≡ returns e v) (N.last_os_error w)

module _ (N : Nix) where
  open N use {SocketAddr}

  -- There is a socket for none of the addresses, which are tried in turn; the errors are the one
  -- before the first and the one after the last.
  pub data Tried : List SocketAddr → Error → World → Error → World → Type 0 where
    no_more : {e : Error} {w : World} → Tried [] e w e w
    one_more :
        {addr : SocketAddr} {rest : List SocketAddr} {e e' e'' : Error} {w u t v : World}
        {n : Option ℕ}
        → N.socket (domain N addr) w ≡ returns (failed n) u
        → N.last_os_error u ≡ returns e' t
        → Tried rest e' t e'' v
        → Tried (addr ∷ rest) e w e'' v

  -- The answer is a socket for an address, where there is none for any address before it, or it is
  -- the error of the last address, where there is none for any.
  pub data First (addrs : List SocketAddr) (e : Error) (w : World)
      : IoResult (ℕ × SocketAddr) → World → Type 0 where
    opens :
        {before : List SocketAddr} {addr : SocketAddr} {fd : ℕ} {e' : Error} {u v : World}
        (after : List SocketAddr)
        → addrs ≡ before ++ (addr ∷ after)
        → Tried before e w e' u
        → N.socket (domain N addr) u ≡ returns (done fd) v
        → First addrs e w (ok (fd, addr)) v
    exhausts : {e' : Error} {v : World} → Tried addrs e w e' v → First addrs e w (err e') v

  First-one_more :
      {addr : SocketAddr} {rest : List SocketAddr} {e e' : Error} {w u t v : World} {n : Option ℕ}
      {r : IoResult (ℕ × SocketAddr)}
      → N.socket (domain N addr) w ≡ returns (failed n) u
      → N.last_os_error u ≡ returns e' t
      → First rest e' t r v
      → First (addr ∷ rest) e w r v
  First-one_more {addr} h k (opens after s tried o) =
      opens after (ap (λ l. addr ∷ l) s) (one_more h k tried) o
  First-one_more h k (exhausts tried) = exhausts (one_more h k tried)

  module _ (answers : Answers N) where
    -- one round of the loop, from what it makes of its socket
    next_socket-First :
        (addr : SocketAddr) (rest : List SocketAddr) (e : Error) (w u : World) (r : NixResult ℕ)
        → N.socket (domain N addr) w ≡ returns r u
        → ((e' : Error) (t : World)
            → Returns (λ r v. First rest e' t r v) (first_socket N rest e' t))
        → Returns
            (λ r v. First (addr ∷ rest) e w r v)
            (next_socket N addr (first_socket N rest) r u)
    unfolding next_socket
    next_socket-First addr rest e w u (done fd) h next =
        returned (opens {before = []} rest refl no_more h)
    next_socket-First addr rest e w u (failed n) h next =
        Returns-and_then (answers.errors u)
          λ e' t k. Returns-map (next e' t) λ r v f. First-one_more h k f

    first_socket-First :
        (addrs : List SocketAddr) (e : Error) (w : World)
        → Returns (λ r v. First addrs e w r v) (first_socket N addrs e w)
    unfolding first_socket
    first_socket-First [] e w = returned (exhausts no_more)
    first_socket-First (addr ∷ rest) e w =
        Returns-and_then (answers.sockets addr w)
          λ r u h. next_socket-First addr rest e w u r h (first_socket-First rest)

    -- Where the system's calls return, `net::socket` returns, after at most one round for each
    -- address: with a socket for the first address that one can be made for, or, where there is no
    -- such address, with the error of the last, which is `InvalidInput` for no addresses.
    pub net_socket-First :
        (addrs : List SocketAddr) (w : World)
        → Returns (λ r v. First addrs invalid_input w r v) (net_socket N (ok addrs) w)
    unfolding net_socket
    net_socket-First addrs w = first_socket-First addrs invalid_input w
