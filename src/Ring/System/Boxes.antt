-- ===== src/Ring/System/Boxes.antt =====
-- One ring and the box of its buffer: the kernel works on a box only while the buffer has it, or once it
-- has been left to the completion.
pub mod Steps
pub mod Safe
use ringbahn.Base.{
  ℕ, ◌≡◌, sym, ◌∙◌, ◌≢◌, ◌⊎◌, inl, inr, Option, none, some, List, ap, subst, Option-cases, List, [],
  ◌∷◌, ◌==◌, if◌then◌else◌,
}
use ringbahn.Cancellation
use ringbahn.Cancellation.{Allocation, Cancellation}
use ringbahn.Operation.{Operation, BoxedSlice}
use ringbahn.Machine.{World, Poll}
use ringbahn.Completion.{Completion}
use ringbahn.Completion.Types as Kernel
use ringbahn.Completion.Types.{IoResult}
use ringbahn.Drive.Conforms.{Evolve}
use ringbahn.Drive.Spares.{InMemory, Holds, Gives}
use ringbahn.Event.Memory.{All, All-map, pointers}
use ringbahn.Cancellation.Frees.{Frees}
use ringbahn.Ring.{State}
use ringbahn.Ring.Spec.{Owns, Idle, Busy, Apart, Polled}
use ringbahn.Ring.Busy.{Owns-boxes}
use ringbahn.Ring.Cancels.{Cancels, Cancels-Idle, Idle-Owns, not-Busy_of_Idle}
use ringbahn.Ring.System.Sound.{
  IsAbandoned, is_abandoned, Replaces, Apart-cases, Busy-Live, Owns-Evolve, known_before,
}
use ringbahn.Ring.System.Runs.{Polled-Replaces, Cancels-Replaces}
use ringbahn.Ring.System.Entries.{
  Entered, Entered-same, not-cancelled_of_Live, some_of_Live, cancelled_before, Polled-Entered,
  Polled-Busy, Polled-lets_go, Cancels-queue, Cancels-callback,
}

-- The memory that the kernel works on in an operation: none in a write of no bytes.
unfoldable pub touched : Operation → List ℕ
touched (Operation.write fd slice at) = if slice.len == 0 then [] else slice.address ∷ []
touched op = pointers op

-- The memory at the address is the box.
abbrev pub InBox : Option BoxedSlice → ℕ → Type 0
InBox none p = ⊥
InBox (some b) p = b.address ≡ p

-- All memory that the kernel works on for the newest entry under the address is in the box.
abbrev pub Keeps : Option BoxedSlice → ℕ → World → Type 0
Keeps contents a w = (op : Operation) × Entered op a w × All (InBox contents) (touched op)

-- All memory that the kernel works on for the newest entry is given back by the callback.
abbrev pub Leaves : Cancellation → ℕ → World → Type 0
Leaves callback a w =
    (op : Operation) × Entered op a w
    × ((inside : ℕ → List Allocation)
        → All (Frees (Cancellation.drop inside callback)) (touched op))

pub record Custody (s : State) (contents : Option BoxedSlice) (w : World) : Type 0 where
  pub owns : Owns s w
  pub keeps : (c : Completion) → Busy c s → Keeps contents c.state w
  pub leaves :
      (a : ℕ) (callback : Cancellation)
      → w.completions a ≡ some (Kernel.cancelled callback)
      → Leaves callback a w
  pub known :
      (a : ℕ) (k : Kernel.State)
      → w.completions a ≡ some k
      → ((c : Completion) × Busy c s × (c.state ≡ a)) ⊎ IsAbandoned k

-- What a change of the ring and its box may do to the memory.
record Moves (s t : State) (contents : Option BoxedSlice) (w v : World) : Type 0 where
  replaces : Replaces s t w v
  enters :
      (op : Operation) (a : ℕ) (k : Kernel.State)
      → w.completions a ≡ some k
      → Entered op a w
      → Entered op a v
  keeps : (c : Completion) → Busy c t → Keeps contents c.state v
  leaves :
      (c : Completion) (callback : Cancellation)
      → Busy c s
      → v.completions c.state ≡ some (Kernel.cancelled callback)
      → Leaves callback c.state v

module _ {s t : State} {contents contents' : Option BoxedSlice} {w v : World}
    (custody : Custody s contents w) (m : Moves s t contents' w v) where
  Leaves-elsewhere :
      (a : ℕ) (callback : Cancellation)
      → Apart a s
      → Apart a t
      → v.completions a ≡ some (Kernel.cancelled callback)
      → Leaves callback a v
  Leaves-elsewhere a callback before after e =
      let e' = cancelled_before (m.replaces.elsewhere a before after) e in
      let (op, entered, frees) = custody.leaves a callback e' in
      (op, m.enters op a _ e' entered, frees)

  Leaves-after :
      (a : ℕ) (callback : Cancellation)
      → v.completions a ≡ some (Kernel.cancelled callback)
      → Leaves callback a v
  Leaves-after a callback e = elim (Apart-cases a t) [
    | inl (c, b, q) ↦
        absurd (not-cancelled_of_Live (Busy-Live v b m.replaces.owns) (ap v.completions q ∙ e))
    | inr after ↦ elim (Apart-cases a s) [
      | inl (c, b, q) ↦
          subst (λ x. Leaves callback x v) q (m.leaves c callback b (ap v.completions q ∙ e))
      | inr before ↦ Leaves-elsewhere a callback before after e
    ]
  ]

  known_elsewhere :
      (a : ℕ) (k : Kernel.State)
      → Apart a s
      → Apart a t
      → v.completions a ≡ some k
      → ((c : Completion) × Busy c t × (c.state ≡ a)) ⊎ IsAbandoned k
  known_elsewhere a k before after e =
      known_before k (m.replaces.elsewhere a before after)
        (λ l e'. elim (custody.known a l e') [
          | inl (c, b, q) ↦ absurd (before c b q)
          | inr gone ↦ inr gone
        ])
        e

  known_after :
      (a : ℕ) (k : Kernel.State)
      → v.completions a ≡ some k
      → ((c : Completion) × Busy c t × (c.state ≡ a)) ⊎ IsAbandoned k
  known_after a k e = elim (Apart-cases a t) [
    | inl held ↦ inl held
    | inr after ↦ elim (Apart-cases a s) [
      | inl (c, b, q) ↦ elim (m.replaces.leaves c k b (ap v.completions q ∙ e)) [
        | inl b' ↦ absurd (after c b' q)
        | inr gone ↦ inr gone
      ]
      | inr before ↦ known_elsewhere a k before after e
    ]
  ]

  Custody-Moves : Custody t contents' v
  Custody-Moves = record {
    owns = m.replaces.owns;
    keeps = m.keeps;
    leaves = Leaves-after;
    known = known_after;
  }

-- At an address there is no completion; or there is one, and all memory that the kernel works on for the
-- entry which was queued last under the address is in the ring's box, or the completion holds a callback
-- that gives it back. In either case the memory has not been given back.
pub data InCustody (a : ℕ) (s : State) (contents : Option BoxedSlice) (w : World) : Type 0 where
  nothing : w.completions a ≡ none → InCustody a s contents w
  held :
      (c : Completion) (op : Operation)
      → Busy c s
      → c.state ≡ a
      → Entered op a w
      → All (λ x. InBox contents x × InMemory x w) (touched op)
      → InCustody a s contents w
  left :
      (callback : Cancellation) (op : Operation)
      → Holds w a callback
      → Entered op a w
      → All (λ x. Gives w callback x × InMemory x w) (touched op)
      → InCustody a s contents w
