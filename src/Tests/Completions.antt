-- ===== src/Tests/Completions.antt =====
-- Completions, cancellations and events.
use ringbahn.Base.{ℕ, ◌≡◌, refl, ◌↔◌, true, false, none, some, [], ◌∷◌, List, arith}
use ringbahn.Cancellation
use ringbahn.Cancellation.{
  Allocation, allocation, slice, sized, nul_terminated, Cancellation, Object, Narrow,
}
use ringbahn.Cancellation.Roundtrip.{owned, drop-new}
use ringbahn.Machine.{World, returns, ◌>>◌, update}
use ringbahn.Completion.{Completion, addr, cancel, complete, check, new}
use ringbahn.Completion.Types.{Waker, will_wake, ok, submitted, completed}
use ringbahn.Completion.Wakeups.{check-complete}
use ringbahn.Completion.Branches.{erased, moved, cleaned}
use ringbahn.Completion.Races.{cancel-complete_race}
use ringbahn.Completion.Ledger.{
  Ledger, unused, IsConsistent, Event, submits, checks, cancels, completes, step,
}
use ringbahn.Completion.Ledger.Runs.{run, run_safe}
use ringbahn.Event as Io
use ringbahn.Event.Memory.{pointers, All, pointers-operation}
use ringbahn.Cancellation.Frees.{Frees}
use ringbahn.Tests.Ready.{start, task}

abbrev buffer : Cancellation
buffer = Cancellation.new (Object.boxed_slice 4096 8192)

abbrev idle : Ledger
idle = record { world = start; held = λ _. false; inflight = λ _. false }

-- Two events, of which the first is cancelled before the kernel completes it.
abbrev schedule : List Event
schedule =
    submits 64 task
    ∷ submits 128 task
    ∷ checks 64 task
    ∷ cancels 64 buffer
    ∷ completes 128 (ok 5)
    ∷ completes 64 (ok 3)
    ∷ checks 128 task
    ∷ []

run_safe_example :
    (t : Ledger) × (run schedule idle ≡ some t)
    × IsConsistent t
    × ((a : ℕ) → (t.world.completions a ≡ none) ↔ ((t.held a ≡ false) × (t.inflight a ≡ false)))
unfolding step new check cancel complete
run_safe_example =
    run_safe schedule idle (refl, λ a. unused)
      ((omega arith, refl), ((omega arith, refl), (refl, (refl, (refl, (refl, (refl, tt)))))))

abbrev waiting : World
waiting = record start { completions = update start.completions 64 (some (submitted task)) }

abbrev completion : Completion
completion = record { state = 64 }

cancel-complete_race_example :
    ((cancel completion buffer >> complete (ok 3) (addr completion)) waiting
      ≡ returns tt (erased (cleaned waiting buffer) 64))
    × ((complete (ok 3) (addr completion) >> cancel completion buffer) waiting
        ≡ returns tt (record (erased (cleaned waiting buffer) 64) { woken = task ∷ [] }))
cancel-complete_race_example =
    cancel-complete_race waiting completion task buffer (ok 3) refl (omega arith)

-- another task than the one that waits
abbrev other : Waker
other = record { pointer = 8; vtable = 1 }

check-complete_example :
    (woken : Waker) × (will_wake woken other ≡ true)
    × ((check completion other >> complete (ok 3) (addr completion)) waiting
        ≡ returns tt (record (moved waiting 64 (completed (ok 3))) { woken = woken ∷ [] }))
check-complete_example = check-complete waiting completion task (ok 3) refl (omega arith) other

drop-new_example :
    Cancellation.drop
      (λ _. [])
      (Cancellation.new (Object.pair (Narrow.boxed 16) (Narrow.c_string 32)))
    ≡ allocation 16 sized ∷ allocation 32 nul_terminated ∷ []
unfolding owned
drop-new_example = drop-new (λ _. []) (Object.pair (Narrow.boxed 16) (Narrow.c_string 32))

pointers-operation_example :
    All
      (Frees (Cancellation.drop (λ _. []) (Io.cancel (Io.Event.statx 3 32 0 1 16))))
      (pointers (Io.operation (Io.Event.statx 3 32 0 1 16)))
pointers-operation_example = pointers-operation (λ _. []) (Io.Event.statx 3 32 0 1 16) (λ s. s)
