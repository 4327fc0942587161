-- ===== src/Tests/Threads.antt =====
-- The completion thread, on a kernel that completes each entry of the submission queue that it can.
use ringbahn.Base.{
  ℕ, suc, ◌+◌, ◌≡◌, refl, inl, inr, Option, none, some, List, [], ◌∷◌, length, arith, ap,
}
use ringbahn.Operation.{Operation, Sqe}
use ringbahn.Machine.{World, Run, returns, update}
use ringbahn.Machine.Returns.{Returns, returned}
use ringbahn.Completion.Types as Kernel
use ringbahn.Completion.Types.{ok, err, os, IoResult}
use ringbahn.Ring.Spec.{event_sqe, cancel_sqe}
use ringbahn.Ring.System.{awaited, abandoned}
use ringbahn.Demo.Thread.{Cqe, Queue, thread}
use ringbahn.Demo.Thread.Delivers.{Counts, IsOwed, Keeps, Takes, Peeks, Waits, Delivers}
use ringbahn.Demo.Thread.Notifies.{thread-notified}
use ringbahn.Tests.Ready.{start, task}

-- the result of an event that is owed, or the entry of a cancellation
abbrev entry : ℕ → Option Kernel.State → Cqe
entry a (some (Kernel.submitted waker)) = record { result = ok 0; user_data = a }
entry a (some (Kernel.cancelled callback)) = record { result = ok 0; user_data = a }
entry a (some (Kernel.completed result)) = record { result = ok 0; user_data = 0 }
entry a (some Kernel.empty) = record { result = ok 0; user_data = 0 }
entry a none = record { result = ok 0; user_data = 0 }

abbrev after : List Sqe → World → World
after rest w = record w { queue = rest; submitted = suc w.submitted }

abbrev peek : List Sqe → World → Run (Option Cqe)
peek [] w = returns none w
peek (s ∷ rest) w = returns (some (entry s.user_data (w.completions s.user_data))) (after rest w)

abbrev wait : List Sqe → World → Run (IoResult Cqe)
wait [] w = returns (err (os 4)) w
wait (s ∷ rest) w = returns (ok (entry s.user_data (w.completions s.user_data))) (after rest w)

-- the descriptors that are closed stand for the numbers of listeners notified
abbrev queue : Queue
queue = record {
  wait_for_cqe = λ w. wait w.queue w;
  peek_for_cqe = λ w. peek w.queue w;
  ready = λ w. returns (length w.queue) w;
  notify_additional = λ n w. returns tt (record w { closed = n ∷ w.closed });
}

abbrev total : List ℕ → ℕ
total [] = 0
total (n ∷ ns) = total ns + n

abbrev counts : Counts
counts = record {
  waiting = λ w. length w.queue;
  left = λ w. length w.queue;
  taken = λ w. w.submitted;
  notified = λ w. total w.closed;
}

entry-IsOwed :
    (a : ℕ) (o : Option Kernel.State) (w : World) → w.completions a ≡ o → IsOwed (entry a o) w
entry-IsOwed a (some (Kernel.submitted waker)) w e = inr (rw e awaited)
entry-IsOwed a (some (Kernel.cancelled callback)) w e = inr (rw e abandoned)
entry-IsOwed a (some (Kernel.completed result)) w e = inl refl
entry-IsOwed a (some Kernel.empty) w e = inl refl
entry-IsOwed a none w e = inl refl

unchanged : (w : World) → Keeps queue counts w w
unchanged w = record { waits = omega arith; lefts = omega arith; takes = refl; notifies = refl }

Takes-entry :
    (w : World) (s : Sqe) (rest : List Sqe)
    → w.queue ≡ s ∷ rest
    → Takes queue counts (entry s.user_data (w.completions s.user_data)) w (after rest w)
Takes-entry w s rest e =
    let n : length w.queue ≡ suc (length rest) = ap length e in
    record {
      owed = entry-IsOwed s.user_data (w.completions s.user_data) (after rest w) refl;
      waits = omega arith;
      lefts = omega arith;
      takes = refl;
      notifies = refl;
    }

peek-Peeks :
    (w : World) (q : List Sqe) → w.queue ≡ q → Returns (λ r v. Peeks queue counts w r v) (peek q w)
peek-Peeks w [] e = returned (ap length e, unchanged w)
peek-Peeks w (s ∷ rest) e = returned (Takes-entry w s rest e)

wait-Waits :
    (w : World) (q : List Sqe) → w.queue ≡ q → Returns (λ r v. Waits queue counts w r v) (wait q w)
wait-Waits w [] e = returned (unchanged w)
wait-Waits w (s ∷ rest) e = returned (Takes-entry w s rest e)

queue-Delivers : Delivers queue counts
queue-Delivers = record {
  waits = λ w. wait-Waits w w.queue refl;
  peeks = λ w. peek-Peeks w w.queue refl;
  readies = λ w. returned (omega arith, unchanged w, λ e o. o);
  notifies = λ n w. returned (omega arith, omega arith, refl, refl, λ e o. o);
  apart = λ w c b k f. record {
    waits = omega arith;
    lefts = omega arith;
    takes = refl;
    notifies = refl;
  };
}

-- an event, a cancellation, and an event that is not there
abbrev loaded : World
loaded = record start {
  completions = update start.completions 64 (some (Kernel.submitted task));
  queue = event_sqe (Operation.close 3) 64 ∷ cancel_sqe 32 ∷ event_sqe (Operation.close 4) 96 ∷ [];
}

thread-notified_example : Returns (λ _ v. total v.closed ≡ v.submitted) (thread queue 4 6 loaded)
thread-notified_example =
    thread-notified queue counts queue-Delivers 3 5 loaded (omega arith) (omega arith) refl
