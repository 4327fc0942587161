-- ===== src/Completion/Types.antt =====
-- src/ring/completion.rs, the type `State`, with what it holds: wakers and results.
use ringbahn.Base.{ℕ, Bool, ◌&&◌, ◌==◌}
use ringbahn.Cancellation.{Cancellation}

-- `std::task::Waker`: a pointer to the task's data and one to the functions that act on it.
pub record Waker : Type 0 where
  pub pointer : ℕ
  pub vtable : ℕ

-- `Waker::will_wake`: both are made of the same parts.
unfoldable pub will_wake : Waker → Waker → Bool
will_wake a b = a.pointer == b.pointer && a.vtable == b.vtable

-- `std::io::Error`: an error number of the system, or a kind.
pub data Error : Type 0 where
  os : ℕ → Error
  invalid_input : Error

pub data IoResult (A : Type 0) : Type 0 where
  ok : A → IoResult A
  err : Error → IoResult A

pub data State : Type 0 where
  submitted : Waker → State
  completed : IoResult ℕ → State
  cancelled : Cancellation → State
  empty : State
