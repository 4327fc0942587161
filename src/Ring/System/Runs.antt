-- ===== src/Ring/System/Runs.antt =====
-- Schedules of several rings and the kernel.
use ringbahn.Base.{
  ℕ, ◌≡◌, refl, ◌∙◌, ap, ◌⊎◌, inl, inr, Option, none, some, List, [], ◌∷◌, ◌==◌, arith, subst,
  Bool-cases,
}
use ringbahn.Cancellation.{Cancellation}
use ringbahn.Operation.{Operation, Sqe}
use ringbahn.Machine.{World, Poll, update, update_self}
use ringbahn.Machine.Returns.{Returns, returned, Returns-and_then, outcome}
use ringbahn.Completion.{Completion}
use ringbahn.Completion.Types as Kernel
use ringbahn.Completion.Types.{IoResult, Waker}
use ringbahn.Drive.{Drive}
use ringbahn.Drive.Conforms.{Evolve, same, completes, settles, Conforms}
use ringbahn.Ring.{State}
use ringbahn.Ring.Spec.{
  Apart, Busy, is_prepared, is_submitted, Advances, stays, goes, Starts, afresh, over, Transition,
  stalls, starts, waits, finishes, Polled,
}
use ringbahn.Ring.Busy.{kept}
use ringbahn.Ring.Refines.{poll_one-Polled}
use ringbahn.Ring.Cancels.{
  Cancels, nothing_under_way, left_to_kernel, completed_before, Cancels-Idle, Idle-Owns,
  not-Busy_of_Idle, cancel-Cancels,
}
use ringbahn.Ring.System as System
use ringbahn.Ring.System.{
  Action, polls, cancels, Owed, awaited, abandoned, Permitted, Rings, perform, run, Schedule, Next,
}
use ringbahn.Ring.System.Completes.{Completes, passes, hands_over, cleans_up, complete-Completes}
use ringbahn.Ring.System.Sound.{
  IsAbandoned, is_abandoned, Sound, Replaces, Sound-Evolve, Sound-update,
}

pub Busy-eq : {c c' : Completion} {s : State} → Busy c s → Busy c' s → c ≡ c'
Busy-eq is_prepared is_prepared = refl
Busy-eq is_submitted is_submitted = refl

pub Advances-before : {c c' : Completion} {s t : State} → Advances c s t → Busy c' t → Busy c' s
Advances-before (stays b) b' = b'
Advances-before goes is_submitted = is_prepared

pub Advances-after : {c c' : Completion} {s t : State} → Advances c s t → Busy c' s → Busy c' t
Advances-after (stays b) b' = b'
Advances-after goes is_prepared = is_submitted

pub Starts-Idle :
    {op : Operation} {fresh : ℕ} {s : State} {c : Completion} {entries : List Sqe}
    → Starts op fresh s entries
    → ¬ Busy c s
Starts-Idle afresh b = elim b [ ]
Starts-Idle over b = elim b [ ]

module _ {op : Operation} {fresh : ℕ} {w : World} where
  Transition-takes :
      {s t : State} {p : Poll (IoResult ℕ)} {entries : List Sqe} {v : World}
      → Transition op fresh w s t p entries v
      → w.completions fresh ≡ none
      → (c : Completion) → Busy c t
      → Busy c s ⊎ (w.completions c.state ≡ none)
  Transition-takes (stalls idle) free c b = inl b
  Transition-takes (starts {c = c'} start at b') free c b =
      inr (ap w.completions (ap (λ x. x.state) (Busy-eq b b') ∙ at) ∙ free)
  Transition-takes (waits holds advances) free c b = inl (Advances-before advances b)
  Transition-takes (finishes b' holds gone) free c b = elim b [ ]

  Transition-leaves :
      {s t : State} {p : Poll (IoResult ℕ)} {entries : List Sqe} {v : World}
      → Transition op fresh w s t p entries v
      → (c : Completion) (k : Kernel.State) → Busy c s
      → v.completions c.state ≡ some k
      → Busy c t ⊎ IsAbandoned k
  Transition-leaves (stalls idle) c k b e = inl b
  Transition-leaves (starts start at b') c k b e = absurd (Starts-Idle start b)
  Transition-leaves (waits holds advances) c k b e = inl (Advances-after advances b)
  Transition-leaves (finishes {c = c'} b' holds gone) c k b e = let q : c ≡ c' = Busy-eq b b' in cc

  pub Polled-Replaces :
      {s t : State} {p : Poll (IoResult ℕ)} {v : World}
      → Polled op fresh w s t p v
      → w.completions fresh ≡ none
      → Replaces s t w v
  Polled-Replaces polled free = record {
    owns = polled.owns;
    elsewhere = polled.elsewhere;
    takes = Transition-takes polled.transition free;
    leaves = Transition-leaves polled.transition;
  }

module _ {callback : Cancellation} {w : World} where
  Cancels-leaves :
      {s t : State} {v : World}
      → Cancels callback w s t v
      → (c : Completion) (k : Kernel.State) → Busy c s
      → v.completions c.state ≡ some k
      → Busy c t ⊎ IsAbandoned k
  Cancels-leaves (nothing_under_way idle) c k b e = inl b
  Cancels-leaves (left_to_kernel {c = c'} b' holds) c k b e =
      let q : c' ≡ c = Busy-eq b' b in
      let at = update_self w.completions c'.state (some (Kernel.cancelled callback)) in
      let q' : Kernel.cancelled callback ≡ k = cc in inr (subst IsAbandoned q' is_abandoned)
  Cancels-leaves (completed_before {c = c'} b' holds) c k b e =
      let q : c' ≡ c = Busy-eq b' b in let at = update_self w.completions c'.state none in cc

  Cancels-elsewhere :
      {s t : State} {v : World}
      → Cancels callback w s t v
      → (a : ℕ) → Apart a s
      → Evolve (w.completions a) (v.completions a)
  Cancels-elsewhere (nothing_under_way idle) a apart = same
  Cancels-elsewhere (left_to_kernel {c} b holds) a apart = kept w c.state a _ (apart c b)
  Cancels-elsewhere (completed_before {c} b holds) a apart = kept w c.state a none (apart c b)

  pub Cancels-Replaces : {s t : State} {v : World} → Cancels callback w s t v → Replaces s t w v
  Cancels-Replaces {v} outcome = record {
    owns = Idle-Owns v (Cancels-Idle outcome);
    elsewhere = λ a apart _. Cancels-elsewhere outcome a apart;
    takes = λ c b. absurd (not-Busy_of_Idle (Cancels-Idle outcome) b);
    leaves = Cancels-leaves outcome;
  }

-- A change at one address that is an evolution there is one everywhere.
evolved :
    (w : World) (a : ℕ) (o : Option Kernel.State)
    → Evolve (w.completions a) o
    → (b : ℕ) → Evolve (w.completions b) (update w.completions a o b)
evolved w a o here b = elim (Bool-cases (b == a)) [
  | inl e ↦ rw e (subst (λ x. Evolve (w.completions x) o) (let q : a ≡ b = ground arith in q) here)
  | inr ne ↦ rw ne same
]

-- What the kernel's completion of what it owes does to the memory.
pub Completes-Evolve :
    {result : IoResult ℕ} {a : ℕ} {w v : World}
    → Completes result a w v
    → (b : ℕ) → Evolve (w.completions b) (v.completions b)
Completes-Evolve (passes null) b = same
Completes-Evolve {result} {a} {w} (hands_over holds) b =
    evolved w a (some (Kernel.completed result)) (rw holds completes) b
Completes-Evolve {result} {a} {w} (cleans_up holds) b = evolved w a none (rw holds settles) b

module _ (D : Drive) (conforms : Conforms D) where
  perform-Sound :
      (x : Action) (rings : Rings D) (w : World)
      → Sound rings w
      → Permitted x w
      → Returns (λ rings' v. Sound rings' v) (perform D x rings w)
  unfolding perform
  perform-Sound (polls i ctx op) rings w sound free =
      Returns-and_then (poll_one-Polled D conforms ctx op (rings i) w (sound.owns i))
        λ (ring, p) v polled.
          returned (Sound-update rings w v sound i ring (Polled-Replaces polled free))
  perform-Sound (cancels i callback) rings w sound _ =
      Returns-and_then (cancel-Cancels callback w (rings i) (sound.owns i))
        λ ring v outcome. returned (Sound-update rings w v sound i ring (Cancels-Replaces outcome))
  perform-Sound (System.completes result a) rings w sound permitted =
      Returns-and_then (complete-Completes result a w permitted)
        λ _ v done. returned (Sound-Evolve rings w v sound (Completes-Evolve done))

  -- No permitted schedule of polls and cancellations of any number of rings on a conforming driver, and
  -- of completions by the kernel, panics or goes through a dangling pointer. It runs to its end, and
  -- there each ring is in a sound state, no two rings have the same completion, and every completion
  -- that has not been given back is a ring's, or waits for the kernel with a callback.
  pub run-Sound :
      (xs : List Action) (rings : Rings D) (w : World)
      → Sound rings w
      → Schedule D xs rings w
      → Returns (λ rings' v. Sound rings' v) (run D xs rings w)
  unfolding run
  run-Sound [] rings w sound schedule = returned sound
  run-Sound (x ∷ xs) rings w sound (permitted, rest) =
      let (rings', v, e, sound') = outcome (perform-Sound x rings w sound permitted) in
      rw e (run-Sound xs rings' v sound' (subst (Next (Schedule D xs)) e rest))
