-- ===== src/Completion/Ledger/Steps.antt =====
-- One step of the program or of the kernel keeps the ledger consistent.
use ringbahn.Base.{
  ℕ, ◌≡◌, refl, ◌≢◌, ◌⊎◌, inl, inr, Bool, true, false, Option, none, some, arith, ◌==◌, ap, subst,
  Bool-cases,
}
use ringbahn.Cancellation.{Cancellation}
use ringbahn.Machine.{update}
use ringbahn.Completion.Types.{Waker, IoResult, State, submitted, cancelled, completed}
use ringbahn.Completion.{new}
use ringbahn.Completion.Branches.{
  check-submitted, check-completed, cancel-submitted, cancel-completed, complete-submitted,
  complete-cancelled,
}
use ringbahn.Completion.Ledger.{
  Ledger, Agrees, unused, awaited, unread, disowned, IsConsistent, Event, submits, checks, cancels,
  completes, Permits, completion, step, Sound,
}

-- What is stored at one address, with the two references to it, may change to anything that agrees.
Agrees-update :
    (l : Ledger) (a : ℕ) {s : Option State} {h f : Bool} (b : ℕ)
    → Agrees (l.world.completions b) (l.held b) (l.inflight b)
    → Agrees s h f
    → Agrees (update l.world.completions a s b) (update l.held a h b) (update l.inflight a f b)
Agrees-update l a b other here = elim (Bool-cases (b == a)) [
  | inl hit ↦ rw hit here
  | inr miss ↦ rw miss other
]

update_same : (f : ℕ → Bool) (a b : ℕ) {v : Bool} → f a ≡ v → update f a v b ≡ f b
update_same f a b e = ground arith

-- The box of a completion that the program holds.
held_cases :
    {o : Option State} {h f : Bool}
    → Agrees o h f
    → h ≡ true
    → ((waker : Waker) × (o ≡ some (submitted waker)) × (f ≡ true))
      ⊎ ((result : IoResult ℕ) × (o ≡ some (completed result)) × (f ≡ false))
held_cases (awaited {waker}) e = inl (waker, refl, refl)
held_cases (unread {result}) e = inr (result, refl, refl)
held_cases unused e = cc
held_cases disowned e = cc

-- The box of a completion that the kernel has yet to complete.
inflight_cases :
    {o : Option State} {h f : Bool}
    → Agrees o h f
    → f ≡ true
    → ((waker : Waker) × (o ≡ some (submitted waker)) × (h ≡ true))
      ⊎ ((callback : Cancellation) × (o ≡ some (cancelled callback)) × (h ≡ false))
inflight_cases (awaited {waker}) e = inl (waker, refl, refl)
inflight_cases (disowned {callback}) e = inr (callback, refl, refl)
inflight_cases unused e = cc
inflight_cases unread e = cc

none_of_null :
    (l : Ledger) (a : ℕ) {s : State} → IsConsistent l → l.world.completions a ≡ some s → a ≢ 0
none_of_null l a c e z = cc (c.0, e, ap l.world.completions z)

module _ (l : Ledger) (a : ℕ) {s : Option State} {h f : Bool} (c : IsConsistent l) (ne : a ≢ 0)
    (here : Agrees s h f) where
  null_stays : update l.world.completions a s 0 ≡ none
  null_stays = ground (arith, c.0)

  -- The program's reference changes, and the kernel's does not.
  settles_held :
      l.inflight a ≡ f
      → (b : ℕ) → Agrees (update l.world.completions a s b) (update l.held a h b) (l.inflight b)
  settles_held e b =
      subst (λ v. Agrees (update l.world.completions a s b) (update l.held a h b) v)
        (update_same l.inflight a b e) (Agrees-update l a b (c.1 b) here)

  -- The kernel's reference changes, and the program's does not.
  settles_inflight :
      l.held a ≡ h
      → (b : ℕ) → Agrees (update l.world.completions a s b) (l.held b) (update l.inflight a f b)
  settles_inflight e b =
      subst (λ v. Agrees (update l.world.completions a s b) v (update l.inflight a f b))
        (update_same l.held a b e) (Agrees-update l a b (c.1 b) here)

module _ (l : Ledger) (c : IsConsistent l) where
  submits-Sound : (fresh : ℕ) (waker : Waker) → fresh ≢ 0 → Sound (step (submits fresh waker) l)
  unfolding step new
  submits-Sound fresh waker ne =
      (null_stays l fresh c ne awaited, λ b. Agrees-update l fresh b (c.1 b) awaited)

  checks-Sound : (a : ℕ) (waker : Waker) → l.held a ≡ true → Sound (step (checks a waker) l)
  unfolding step
  checks-Sound a waker held = elim (held_cases (c.1 a) held) [
    | inl (old, holds, f) ↦
        let ne = none_of_null l a c holds in
        rw (check-submitted l.world (completion a) old holds waker)
          (null_stays l a c ne awaited, settles_held l a c ne awaited f)
    | inr (result, holds, f) ↦
        let ne = none_of_null l a c holds in
        rw (check-completed l.world (completion a) result holds waker)
          (null_stays l a c ne unused, settles_held l a c ne unused f)
  ]

  cancels-Sound :
      (a : ℕ) (callback : Cancellation) → l.held a ≡ true → Sound (step (cancels a callback) l)
  unfolding step
  cancels-Sound a callback held = elim (held_cases (c.1 a) held) [
    | inl (old, holds, f) ↦
        let ne = none_of_null l a c holds in
        rw (cancel-submitted l.world (completion a) old holds callback)
          (null_stays l a c ne disowned, settles_held l a c ne disowned f)
    | inr (result, holds, f) ↦
        let ne = none_of_null l a c holds in
        rw (cancel-completed l.world (completion a) result holds callback)
          (null_stays l a c ne unused, settles_held l a c ne unused f)
  ]

  completes-Sound :
      (a : ℕ) (result : IoResult ℕ) → l.inflight a ≡ true → Sound (step (completes a result) l)
  unfolding step
  completes-Sound a result inflight = elim (inflight_cases (c.1 a) inflight) [
    | inl (waker, holds, h) ↦
        let ne = none_of_null l a c holds in
        rw (complete-submitted l.world a result ne waker holds)
          (null_stays l a c ne unread, settles_inflight l a c ne unread h)
    | inr (callback, holds, h) ↦
        let ne = none_of_null l a c holds in
        rw (complete-cancelled l.world a result ne callback holds)
          (null_stays l a c ne unused, settles_inflight l a c ne unused h)
  ]

  -- From a consistent ledger a permitted step neither panics nor goes through a dangling pointer,
  -- and it leaves a consistent ledger.
  pub step-Sound : (e : Event) → Permits l e → Sound (step e l)
  step-Sound (submits fresh waker) p = submits-Sound fresh waker p.0
  step-Sound (checks a waker) p = checks-Sound a waker p
  step-Sound (cancels a callback) p = cancels-Sound a callback p
  step-Sound (completes a result) p = completes-Sound a result p
