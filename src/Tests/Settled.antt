-- ===== src/Tests/Settled.antt =====
-- What a submission that has been dropped leaves, and the kernel's completion of it.
use ringbahn.Base.{
  ℕ, ◌≡◌, ◌≢◌, refl, sym, subst, ◌⊎◌, inl, inr, none, some, [], ◌∷◌, ◌==◌, arith, Bool-cases,
}
use ringbahn.Machine.{World, update}
use ringbahn.Machine.Returns.{Returns}
use ringbahn.Completion.Types as Kernel
use ringbahn.Completion.Types.{IoResult, ok}
use ringbahn.Event
use ringbahn.Event.{Event, operation}
use ringbahn.Ring.Spec.{is_inert, event_sqe}
use ringbahn.Ring.System.Sound.{IsAbandoned, is_abandoned}
use ringbahn.Ring.System.Entries.{newest}
use ringbahn.Submission.System.Custody.{Custody}
use ringbahn.Submission.System.Settles.{settle, Occurs, GivenBack, settle-GivenBack}
use ringbahn.Tests.Ready.{start}
use ringbahn.Tests.Custody.{submissions, buffer}

-- A submission of a read has been dropped, and the kernel has not completed the read.
abbrev read : Event
read = Event.read 3 buffer 0

abbrev left_behind : World
left_behind = record start {
  completions = update start.completions 64 (some (Kernel.cancelled (Event.cancel read)));
  queue = event_sqe (operation read) 64 ∷ [];
}

at_64 :
    (a : ℕ) (k : Kernel.State)
    → left_behind.completions a ≡ some k
    → (a ≡ 64) × (k ≡ Kernel.cancelled (Event.cancel read))
at_64 a k e = elim (Bool-cases (a == 64)) [
  | inl y ↦
      let there : some (Kernel.cancelled (Event.cancel read)) ≡ some k = rw y at e in
      (ground arith, cc)
  | inr n ↦ let gone : none ≡ some k = rw n at e in absurd (let f : ⊥ = cc in f)
]

left_behind-Custody : Custody submissions left_behind
left_behind-Custody = record {
  sound = record {
    owns = λ i. tt;
    alone = λ i j c ne b. elim b [ ];
    known = λ a k e. let (_, q) = at_64 a k e in inr (subst IsAbandoned (sym q) is_abandoned);
  };
  idle = λ i e. is_inert;
  keeps = λ i c b. elim b [ ];
  leaves = λ a callback e.
      let (q, q') = at_64 a (Kernel.cancelled callback) e in
      let same : callback ≡ Event.cancel read = cc in
      (
        read,
        same,
        subst (λ x. (x ≢ 0) × (newest x left_behind.queue ≡ some (event_sqe (operation read) x)))
            (sym q) (omega arith, refl),
      );
}

only_64 :
    (a : ℕ) → Occurs a ((64, ok 8) ∷ []) → (k : Kernel.State) × (left_behind.completions a ≡ some k)
only_64 a (inl q) = (Kernel.cancelled (Event.cancel read), rw q refl)
only_64 a (inr o) = absurd o

covers_64 : (a : ℕ) → Occurs a ((64, ok 8) ∷ []) ⊎ (left_behind.completions a ≡ none)
covers_64 a = elim (Bool-cases (a == 64)) [
  | inl y ↦ inl (inl (ground arith))
  | inr n ↦ inr (rw n refl)
]

settle-GivenBack_example :
    Returns
      (λ _ v. (a : ℕ) → (v.completions a ≡ none) × GivenBack a left_behind v)
      (settle ((64, ok 8) ∷ []) left_behind)
settle-GivenBack_example =
    settle-GivenBack submissions left_behind left_behind-Custody (λ i. refl) ((64, ok 8) ∷ [])
      ((λ o. o), tt) only_64 covers_64
