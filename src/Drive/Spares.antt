-- ===== src/Drive/Spares.antt =====
-- Memory stays in memory, but for what a callback gives back that runs when the kernel is done.
use ringbahn.Base.{
  ℕ, ◌≡◌, ◌≢◌, refl, sym, ◌∙◌, ◌⊎◌, inl, inr, Option, none, some, ap, subst, Bool-cases, ◌==◌,
  if◌then◌else◌,
}
use ringbahn.Cancellation
use ringbahn.Cancellation.{Allocation, Cancellation}
use ringbahn.Cancellation.Frees.{Frees}
use ringbahn.Machine.{World, update}
use ringbahn.Completion.Types.{State, cancelled}

abbrev pub InMemory : ℕ → World → Type 0
InMemory x w = w.boxes x ≢ none

-- A completion holds the callback.
abbrev pub Holds : World → ℕ → Cancellation → Type 0
Holds w a callback = w.completions a ≡ some (cancelled callback)

-- What the callback would give back.
abbrev pub Gives : World → Cancellation → ℕ → Type 0
Gives w callback x = Frees (Cancellation.drop w.inside callback) x

-- A callback that was with a completion has run, and has given back the memory at the address.
abbrev pub Settled : World → World → ℕ → Type 0
Settled w v x =
    (a : ℕ) × (callback : Cancellation) × Holds w a callback
    × (¬ Holds v a callback)
    × Gives w callback x

-- From one memory to a later one: no callback has been left with a completion, and memory is given back
-- only by callbacks that have run.
pub record Spares (w v : World) : Type 0 where
  pub inside : v.inside ≡ w.inside
  pub callbacks : (a : ℕ) (callback : Cancellation) → Holds v a callback → Holds w a callback
  pub boxes : (x : ℕ) → InMemory x w → InMemory x v ⊎ Settled w v x

pub Spares-refl : (w : World) → Spares w w
Spares-refl w = record { inside = refl; callbacks = λ a c h. h; boxes = λ x h. inl h }

pub Spares-trans : {w u v : World} → Spares w u → Spares u v → Spares w v
Spares-trans {w} {u} {v} s t = record {
  inside = t.inside ∙ s.inside;
  callbacks = λ a c h. s.callbacks a c (t.callbacks a c h);
  boxes = λ x there. elim (s.boxes x there) [
    | inr (a, c, h, gone, gives) ↦ inr (a, c, h, (λ k. gone (t.callbacks a c k)), gives)
    | inl there' ↦ elim (t.boxes x there') [
      | inl there'' ↦ inl there''
      | inr (a, c, h, gone, gives) ↦ inr (
        a,
        c,
        s.callbacks a c h,
        gone,
        subst (λ i. Frees (Cancellation.drop i c) x) s.inside gives,
      )
    ]
  ];
}

-- What a changed map holds at an address, if it is not what has been put there, it held before.
pub before_update :
    {A : Type 0} (f : ℕ → A) (a b : ℕ) (o x : A) → update f a o b ≡ x → o ≢ x → f b ≡ x
before_update f a b o x h other = elim (Bool-cases (b == a)) [
  | inl here ↦ absurd (other (subst (λ c. (if c then o else f b) ≡ x) here h))
  | inr elsewhere ↦ subst (λ c. (if c then o else f b) ≡ x) elsewhere h
]

-- A completion changes, and is not one that holds a callback now.
pub Spares-update :
    {w v : World} (a : ℕ) (o : Option State)
    → v.completions ≡ update w.completions a o
    → v.boxes ≡ w.boxes
    → v.inside ≡ w.inside
    → ((callback : Cancellation) → o ≢ some (cancelled callback))
    → Spares w v
Spares-update {w} {v} a o completions boxes inside other = record {
  inside = inside;
  callbacks =
      λ b c h. before_update w.completions a b o _ (ap (λ f. f b) (sym completions) ∙ h) (other c);
  boxes = λ x there. inl (λ e. there (ap (λ f. f x) (sym boxes) ∙ e));
}
