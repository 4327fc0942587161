-- ===== src/Listener/System.antt =====
-- A listener and the kernel: what the listener's task and the kernel may do, in any order.
pub mod Custody
pub mod Actions
pub mod Runs
use ringbahn.Base.{ℕ, ◌≡◌, ◌≢◌, ◌⊎◌, false, none, some, List, [], ◌∷◌}
use ringbahn.Machine.Returns.{Returns, returned}
use ringbahn.Machine.{
  World, Run, returns, panics, unexpected_family, and_then, Cmd, pure, ◌>>=◌, ◌>>◌,
}
use ringbahn.Completion
use ringbahn.Completion.Types.{IoResult, ok}
use ringbahn.Drive.{Context, Drive}
use ringbahn.Ring.System.{Owed, Next}
use ringbahn.Listener.{
  closed, same_op, TcpListener, SockAddrs, poll_accept, poll_accept_no_addr, poll_close,
}

-- The task accepts a connection, with the address of the peer or without, or closes the listener, or the
-- kernel completes an event. Whether a poll is the first of an operation or goes on with one is up to
-- the listener.
pub data Action : Type 0 where
  accepts : Context → Action
  accepts_no_addr : Context → Action
  closes : Context → Action
  completes : IoResult ℕ → (user_data : ℕ) → Action

-- A run comes to its end, or it panics over an address that has been read from a box and is of another
-- family than the internet's.
pub data Ends (S : SockAddrs) {A : Type 0} (P : A → World → Type 0) : Run A → Type 0 where
  ended : {a : A} {w : World} → P a w → Ends S P (returns a w)
  of_another_family :
      (bytes : List ℕ) (addr : S.SockAddr)
      → S.as_socket_addr bytes ≡ ok addr
      → S.inet addr ≡ none
      → Ends S P (panics unexpected_family)

pub Ends-Returns :
    {S : SockAddrs} {A : Type 0} {P : A → World → Type 0} {m : Run A} → Returns P m → Ends S P m
Ends-Returns (returned p) = ended p

module _ {S : SockAddrs} {A B : Type 0} {P : A → World → Type 0} {Q : B → World → Type 0} where
  pub Ends-and_then :
      {m : Run A} {k : A → Cmd B}
      → Ends S P m
      → ((a : A) (w : World) → P a w → Ends S Q (k a w))
      → Ends S Q (and_then m k)
  Ends-and_then (ended p) next = next _ _ p
  Ends-and_then (of_another_family bytes addr read foreign) next =
      of_another_family bytes addr read foreign

pub Ends-map :
    {S : SockAddrs} {A : Type 0} {P Q : A → World → Type 0} {m : Run A}
    → Ends S P m
    → ((a : A) (w : World) → P a w → Q a w)
    → Ends S Q m
Ends-map (ended p) weaken = ended (weaken _ _ p)
Ends-map (of_another_family bytes addr read foreign) weaken =
    of_another_family bytes addr read foreign

-- What is permitted next is so after a run that comes to its end.
pub Ends-Next :
    {S : SockAddrs} {A B : Type 0} {P N : A → World → Type 0} {Q : B → World → Type 0} {m : Run A}
    {k : A → Cmd B}
    → Ends S P m
    → Next N m
    → ((a : A) (w : World) → P a w → N a w → Ends S Q (k a w))
    → Ends S Q (and_then m k)
Ends-Next (ended p) n next = next _ _ p n
Ends-Next (of_another_family bytes addr read foreign) n next =
    of_another_family bytes addr read foreign

module _ (S : SockAddrs) (D : Drive) where
  open D use {Driver}

  -- The listener is open, and the allocator hands out addresses that are not in use, for a completion, not
  -- the null one, and for a box.
  abbrev pub Pollable : Context → TcpListener Driver → World → Type 0
  Pollable ctx l w =
      (same_op l.active closed ≡ false)
      × (ctx.fresh ≢ 0)
      × (w.completions ctx.fresh ≡ none)
      × (w.boxes ctx.fresh_box ≡ none)

  -- An open listener is polled; the kernel completes what it owes, or the entry of a cancellation, whose
  -- address is null.
  abbrev pub Permitted : Action → TcpListener Driver → World → Type 0
  Permitted (accepts ctx) l w = Pollable ctx l w
  Permitted (accepts_no_addr ctx) l w = Pollable ctx l w
  Permitted (closes ctx) l w = Pollable ctx l w
  Permitted (completes result a) l w = (a ≡ 0) ⊎ Owed (w.completions a)

  -- the listener after an action; the answer to its task is left out
  unfoldable pub perform : Action → TcpListener Driver → Cmd (TcpListener Driver)
  perform (accepts ctx) l = do (l', _) ← poll_accept S D ctx l; pure l'
  perform (accepts_no_addr ctx) l = do (l', _) ← poll_accept_no_addr D ctx l; pure l'
  perform (closes ctx) l = do (l', _) ← poll_close D ctx l; pure l'
  perform (completes result a) l = Completion.complete result a >> pure l

  unfoldable pub run : List Action → TcpListener Driver → Cmd (TcpListener Driver)
  unfolding perform
  run [] l = pure l
  run (x ∷ xs) l = do l' ← perform x l; run xs l'

  -- Each action is permitted when its turn comes.
  abbrev pub Schedule : List Action → TcpListener Driver → World → Type 0
  Schedule [] l w = Unit {0}
  Schedule (x ∷ xs) l w = Permitted x l w × Next (Schedule xs) (perform x l w)
