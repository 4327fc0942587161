-- ===== src/Submission/System/Custody.antt =====
-- Each event that the kernel works on is its submission's, or its completion's.
use ringbahn.Base.{
  ℕ, ◌≡◌, refl, sym, ◌∙◌, ◌≢◌, ◌⊎◌, inl, inr, Option, none, some, List, ap, subst, ◌==◌, Bool-cases,
}
use mathlib.Core.Path.{fun_ext}
use ringbahn.Cancellation
use ringbahn.Cancellation.{Allocation, Cancellation}
use ringbahn.Operation.{Operation}
use ringbahn.Machine.{World, update}
use ringbahn.Completion.{Completion}
use ringbahn.Completion.Types as Kernel
use ringbahn.Drive.Conforms.{Evolve}
use ringbahn.Event
use ringbahn.Event.{Event, operation}
use ringbahn.Event.Memory.{IsStatic, All, pointers, pointers-operation}
use ringbahn.Cancellation.Frees.{Frees}
use ringbahn.Ring.Spec.{Idle, Busy, Apart, event_sqe}
use ringbahn.Ring.System.Sound.{
  Sound, Replaces, Sound-Evolve, Sound-update, Apart-cases, Busy-Live, update-cases,
}
use ringbahn.Submission.{Submission}
use ringbahn.Ring.System.Entries.{
  newest, Entered, not-cancelled_of_Live, some_of_Live, cancelled_before,
}

-- The event of a submission.
abbrev pub Keeps : Option Event → ℕ → World → Type 0
Keeps event a w = (e : Event) × (event ≡ some e) × Entered (operation e) a w

-- The event whose callback has been left with a completion.
abbrev pub Leaves : Cancellation → ℕ → World → Type 0
Leaves callback a w = (e : Event) × (callback ≡ Event.cancel e) × Entered (operation e) a w

module _ {Driver : Type 0} where
  pub record Custody (subs : ℕ → Submission Driver) (w : World) : Type 0 where
    pub sound : Sound (λ i. (subs i).ring) w
    pub idle : (i : ℕ) → (subs i).event ≡ none → Idle (subs i).ring.state
    pub keeps :
        (i : ℕ) (c : Completion) → Busy c (subs i).ring.state → Keeps (subs i).event c.state w
    pub leaves :
        (a : ℕ) (callback : Cancellation)
        → w.completions a ≡ some (Kernel.cancelled callback)
        → Leaves callback a w

-- What a change of one submission may do to the memory.
pub record Moves {Driver : Type 0} (s t : Submission Driver) (w v : World) : Type 0 where
  pub replaces : Replaces s.ring.state t.ring.state w v
  pub enters :
      (op : Operation) (a : ℕ) (k : Kernel.State)
      → w.completions a ≡ some k
      → Entered op a w
      → Entered op a v
  pub idle : t.event ≡ none → Idle t.ring.state
  pub keeps : (c : Completion) → Busy c t.ring.state → Keeps t.event c.state v
  pub leaves :
      (c : Completion) (callback : Cancellation)
      → Busy c s.ring.state
      → v.completions c.state ≡ some (Kernel.cancelled callback)
      → Leaves callback c.state v

module _ {Driver : Type 0} (subs : ℕ → Submission Driver) (w v : World)
    (custody : Custody subs w) where
  -- The kernel may complete events at any time.
  pub Custody-Evolve :
      ((a : ℕ) → Evolve (w.completions a) (v.completions a)) → v.queue ≡ w.queue → Custody subs v
  Custody-Evolve evolves queue = record {
    sound = Sound-Evolve (λ i. (subs i).ring) w v custody.sound evolves;
    idle = custody.idle;
    keeps = λ i c b. rw queue (custody.keeps i c b);
    leaves = λ a callback e. rw queue (custody.leaves a callback (cancelled_before (evolves a) e));
  }

  module _ (i : ℕ) (t : Submission Driver) (m : Moves (subs i) t w v) where
    rings_after : (λ j. (update subs i t j).ring) ≡ update (λ j. (subs j).ring) i t.ring
    rings_after = fun_ext λ j. elim (Bool-cases (j == i)) [ inl e ↦ rw e refl | inr e ↦ rw e refl ]

    Leaves-elsewhere :
        (a : ℕ) (callback : Cancellation)
        → Apart a (subs i).ring.state
        → Apart a t.ring.state
        → v.completions a ≡ some (Kernel.cancelled callback)
        → Leaves callback a v
    Leaves-elsewhere a callback before after e =
        let e' = cancelled_before (m.replaces.elsewhere a before after) e in
        let (event, q, entered) = custody.leaves a callback e' in
        (event, q, m.enters (operation event) a _ e' entered)

    Leaves-after :
        (a : ℕ) (callback : Cancellation)
        → v.completions a ≡ some (Kernel.cancelled callback)
        → Leaves callback a v
    Leaves-after a callback e = elim (Apart-cases a t.ring.state) [
      | inl (c, b, q) ↦
          absurd (not-cancelled_of_Live (Busy-Live v b m.replaces.owns) (ap v.completions q ∙ e))
      | inr after ↦ elim (Apart-cases a (subs i).ring.state) [
        | inl (c, b, q) ↦
            subst (λ x. Leaves callback x v) q (m.leaves c callback b (ap v.completions q ∙ e))
        | inr before ↦ Leaves-elsewhere a callback before after e
      ]
    ]

    -- the other submissions keep their events
    Keeps-others :
        (j : ℕ)
        → j ≢ i
        → (c : Completion) → Busy c (subs j).ring.state
        → Keeps (subs j).event c.state v
    Keeps-others j ne c b =
        let (e, q, entered) = custody.keeps j c b in
        let (k, holds) = some_of_Live (Busy-Live w b (custody.sound.owns j)) in
        (e, q, m.enters (operation e) c.state k holds entered)

    pub Custody-update : Custody (update subs i t) v
    Custody-update = record {
      sound =
          subst (λ r. Sound r v) (sym rings_after)
            (Sound-update (λ j. (subs j).ring) w v custody.sound i t.ring m.replaces);
      idle =
          update-cases (λ j s. s.event ≡ none → Idle s.ring.state) subs i t m.idle
            λ j ne. custody.idle j;
      keeps =
          update-cases (λ j s. (c : Completion) → Busy c s.ring.state → Keeps s.event c.state v)
            subs i t m.keeps Keeps-others;
      leaves = Leaves-after;
    }

-- The callback of an event gives back, when it runs, all memory that the entry of the event refers to;
-- that of a static timeout is never given back.
abbrev pub Keeper : (ℕ → List Allocation) → Event → Type 0
Keeper inside e =
    IsStatic e ⊎ All (Frees (Cancellation.drop inside (Event.cancel e))) (pointers (operation e))

IsStatic-cases : (e : Event) → IsStatic e ⊎ (¬ IsStatic e)
IsStatic-cases (Event.static_timeout ts events flags) = inl tt
IsStatic-cases _ = inr λ h. h

pub cancel-Keeper : (inside : ℕ → List Allocation) (e : Event) → Keeper inside e
cancel-Keeper inside e = elim (IsStatic-cases e) [
  | inl static ↦ inl static
  | inr h ↦ inr (pointers-operation inside e h)
]

module _ {Driver : Type 0} where
  -- At an address there is no completion; or there is one, and the event of the entry that was queued
  -- last under the address is held by the submission whose completion it is, or the completion holds
  -- the callback of that event.
  pub data InCustody (a : ℕ) (subs : ℕ → Submission Driver) (w : World) : Type 0 where
    nothing : w.completions a ≡ none → InCustody a subs w
    held :
        (i : ℕ) (c : Completion) (e : Event)
        → Busy c (subs i).ring.state
        → c.state ≡ a
        → (subs i).event ≡ some e
        → newest a w.queue ≡ some (event_sqe (operation e) a)
        → InCustody a subs w
    left :
        (e : Event)
        → w.completions a ≡ some (Kernel.cancelled (Event.cancel e))
        → newest a w.queue ≡ some (event_sqe (operation e) a)
        → Keeper w.inside e
        → InCustody a subs w
