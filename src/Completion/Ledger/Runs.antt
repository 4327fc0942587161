-- ===== src/Completion/Ledger/Runs.antt =====
-- Whole schedules of the program and the kernel.
use ringbahn.Base.{ℕ, ◌↔◌, ◌≡◌, refl, Bool, false, Option, none, some, List, [], ◌∷◌}
use ringbahn.Completion.Types.{State}
use ringbahn.Completion.Ledger.{
  Ledger, Agrees, unused, awaited, unread, disowned, IsConsistent, Event, Permits, step, Sound,
}
use ringbahn.Completion.Ledger.Steps.{step-Sound}

run_next : (Ledger → Option Ledger) → Option Ledger → Option Ledger
run_next k none = none
run_next k (some l) = k l

-- A schedule is run step by step, and stops at the first step that panics or faults.
pub run : List Event → Ledger → Option Ledger
unfolding run_next
run [] l = some l
run (e ∷ es) l = run_next (run es) (step e l)

abbrev pub Next : (Ledger → Type 0) → Option Ledger → Type 0
Next P none = Unit {0}
Next P (some t) = P t

-- Each event of the schedule is permitted when its turn comes.
abbrev pub PermitsAll : List Event → Ledger → Type 0
PermitsAll [] l = Unit {0}
PermitsAll (e ∷ es) l = Permits l e × Next (PermitsAll es) (step e l)

run-IsConsistent :
    (es : List Event) (l : Ledger)
    → IsConsistent l
    → PermitsAll es l
    → (t : Ledger) × (run es l ≡ some t) × IsConsistent t
unfolding run
run-IsConsistent [] l c p = (l, refl, c)
run-IsConsistent (e ∷ es) l c p =
    advance (step e l) (step-Sound l c e p.0) p.1 λ t s q. run-IsConsistent es t s q
  where
    advance :
        (o : Option Ledger)
        → Sound o
        → Next (PermitsAll es) o
        → ((t : Ledger)
            → IsConsistent t
            → PermitsAll es t
            → (u : Ledger) × (run es t ≡ some u) × IsConsistent u)
        → (u : Ledger) × (run_next (run es) o ≡ some u) × IsConsistent u
    advance none s q rest = absurd s
    advance (some t) s q rest = rest t s q

allocated_iff :
    {o : Option State} {h f : Bool} → Agrees o h f → (o ≡ none) ↔ ((h ≡ false) × (f ≡ false))
allocated_iff unused = (λ _. (refl, refl), λ _. refl)
allocated_iff awaited = (λ e. cc, λ e. cc (e.0))
allocated_iff unread = (λ e. cc, λ e. cc (e.0))
allocated_iff disowned = (λ e. cc, λ e. cc (e.1))

-- No permitted schedule from a consistent ledger, in whatever order the program and the kernel act,
-- panics or goes through a dangling pointer. It runs to its end, in a consistent ledger, in which
-- the boxes that have been given back are those to which neither of the two refers any more.
pub run_safe :
    (es : List Event) (l : Ledger)
    → IsConsistent l
    → PermitsAll es l
    → (t : Ledger) × (run es l ≡ some t)
      × IsConsistent t
      × ((a : ℕ) → (t.world.completions a ≡ none) ↔ ((t.held a ≡ false) × (t.inflight a ≡ false)))
run_safe es l c p =
    let (t, e, d) = run-IsConsistent es l c p in (t, e, d, λ a. allocated_iff (d.1 a))
