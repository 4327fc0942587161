-- ===== src/Ring/System/Sound.antt =====
-- Each completion belongs to one ring, or has been left to the kernel.
use ringbahn.Base.{
  ℕ, ◌≡◌, refl, sym, ◌∙◌, ◌≢◌, ◌⊎◌, inl, inr, Option, none, some, ◌==◌, arith, Bool-cases, ap,
  subst,
}
use ringbahn.Cancellation.{Cancellation}
use ringbahn.Machine.{World, update, update_self, update_other}
use ringbahn.Completion.{Completion}
use ringbahn.Completion.Types as Kernel
use ringbahn.Drive.Conforms.{Evolve, same, completes, settles}
use ringbahn.Ring.{State, inert, prepared, submitted, cancelled, lost, Ring}
use ringbahn.Ring.Spec.{Live, awaited, unread, Owns, Busy, is_prepared, is_submitted, Apart}
use ringbahn.Ring.Busy.{Live-Evolve}

pub data IsAbandoned : Kernel.State → Type 0 where
  is_abandoned : {callback : Cancellation} → IsAbandoned (Kernel.cancelled callback)

module _ {Driver : Type 0} where
  -- The completion at the address is that of a ring.
  abbrev pub Held : ℕ → (ℕ → Ring Driver) → Type 0
  Held a rings = (i : ℕ) × (c : Completion) × Busy c (rings i).state × (c.state ≡ a)

  -- Each ring is in a sound state, no two rings share a completion, and no completion is forgotten: it
  -- is a ring's, or it waits for the kernel with a callback.
  pub record Sound (rings : ℕ → Ring Driver) (w : World) : Type 0 where
    pub owns : (i : ℕ) → Owns (rings i).state w
    pub alone :
        (i j : ℕ) (c : Completion) → i ≢ j → Busy c (rings i).state → Apart c.state (rings j).state
    pub known : (a : ℕ) (k : Kernel.State) → w.completions a ≡ some k → Held a rings ⊎ IsAbandoned k

-- What replacing the state of one ring may do to the memory.
pub record Replaces (s t : State) (w v : World) : Type 0 where
  pub owns : Owns t v
  pub elsewhere : (a : ℕ) → Apart a s → Apart a t → Evolve (w.completions a) (v.completions a)
  pub takes : (c : Completion) → Busy c t → Busy c s ⊎ (w.completions c.state ≡ none)
  pub leaves :
      (c : Completion) (k : Kernel.State)
      → Busy c s
      → v.completions c.state ≡ some k
      → Busy c t ⊎ IsAbandoned k

pub Busy-Live :
    {c : Completion} {s : State} (w : World) → Busy c s → Owns s w → Live (w.completions c.state)
Busy-Live w is_prepared o = o
Busy-Live w is_submitted o = o

Live-none : {o : Option Kernel.State} → Live o → o ≡ none → ⊥
Live-none awaited e = cc
Live-none unread e = cc

pub Owns-Evolve :
    (s : State) (w v : World)
    → Owns s w
    → ((c : Completion) → Busy c s → Evolve (w.completions c.state) (v.completions c.state))
    → Owns s v
Owns-Evolve inert w v o e = tt
Owns-Evolve (prepared c) w v o e = Live-Evolve o (e c is_prepared)
Owns-Evolve (submitted c) w v o e = Live-Evolve o (e c is_submitted)
Owns-Evolve (cancelled prev) w v o e = tt
Owns-Evolve lost w v o e = o

Apart-prepared : (c : Completion) (a : ℕ) → c.state ≢ a → Apart a (prepared c)
Apart-prepared c a ne _ is_prepared = ne

Apart-submitted : (c : Completion) (a : ℕ) → c.state ≢ a → Apart a (submitted c)
Apart-submitted c a ne _ is_submitted = ne

-- A ring's completion is at the address, or it is not.
pub Apart-cases : (a : ℕ) (s : State) → ((c : Completion) × Busy c s × (c.state ≡ a)) ⊎ Apart a s
Apart-cases a inert = inr λ c b. elim b [ ]
Apart-cases a (prepared c) = elim (Bool-cases (c.state == a)) [
  | inl e ↦ inl (c, is_prepared, ground arith)
  | inr e ↦ inr (Apart-prepared c a (ground arith))
]
Apart-cases a (submitted c) = elim (Bool-cases (c.state == a)) [
  | inl e ↦ inl (c, is_submitted, ground arith)
  | inr e ↦ inr (Apart-submitted c a (ground arith))
]
Apart-cases a (cancelled prev) = inr λ c b. elim b [ ]
Apart-cases a lost = inr λ c b. elim b [ ]

-- A completion that is still there was there before, and has been abandoned if it was then.
pub known_before :
    {A : Type 0} {o o' : Option Kernel.State} (k : Kernel.State)
    → Evolve o o'
    → ((l : Kernel.State) → o ≡ some l → A ⊎ IsAbandoned l)
    → o' ≡ some k
    → A ⊎ IsAbandoned k
known_before k same known e = known k e
known_before k (completes {waker}) known e = elim (known (Kernel.submitted waker) refl) [
  | inl a ↦ inl a
  | inr b ↦ elim b [ ]
]
known_before k settles known e = cc

-- What holds of the new ring, and of each other ring, holds of each ring after the change.
pub update-cases :
    {A : Type 0} (P : ℕ → A → Type 0) (f : ℕ → A) (i : ℕ) (a : A)
    → P i a
    → ((j : ℕ) → j ≢ i → P j (f j))
    → (j : ℕ) → P j (update f i a j)
update-cases P f i a here others j = elim (Bool-cases (j == i)) [
  | inl e ↦ rw e (subst (λ k. P k a) (let e' : i ≡ j = ground arith in e') here)
  | inr ne ↦ rw ne (others j (ground arith))
]

module _ {Driver : Type 0} (rings : ℕ → Ring Driver) (w v : World) (sound : Sound rings w) where
  -- The kernel may complete events at any time.
  pub Sound-Evolve : ((a : ℕ) → Evolve (w.completions a) (v.completions a)) → Sound rings v
  Sound-Evolve evolves = record {
    owns = λ i. Owns-Evolve (rings i).state w v (sound.owns i) λ c b. evolves c.state;
    alone = sound.alone;
    known = λ a k e. known_before k (evolves a) (sound.known a) e;
  }

  module _ (i : ℕ) (ring : Ring Driver) (r : Replaces (rings i).state ring.state w v) where
    -- The new state of the ring takes no other ring's completion.
    others_Apart :
        (j : ℕ) (c : Completion) → j ≢ i → Busy c (rings j).state → Apart c.state ring.state
    others_Apart j c ne b c' b' e = elim (r.takes c' b') [
      | inl was ↦ sound.alone j i c ne b c' was e
      | inr free ↦ Live-none (Busy-Live w b (sound.owns j)) (ap w.completions (sym e) ∙ free)
    ]

    -- the same, the other way round
    Apart-others :
        (j : ℕ) (c : Completion) → j ≢ i → Busy c ring.state → Apart c.state (rings j).state
    Apart-others j c ne b c' b' e = others_Apart j c' ne b' c b (sym e)

    Owns-after : (j : ℕ) → Owns (update rings i ring j).state v
    Owns-after =
        update-cases (λ j ring. Owns ring.state v) rings i ring r.owns
          λ j ne.
            Owns-Evolve (rings j).state w v (sound.owns j)
              λ c b. r.elsewhere c.state (sound.alone j i c ne b) (others_Apart j c ne b)

    alone_after :
        (j k : ℕ) (c : Completion)
        → j ≢ k
        → Busy c (update rings i ring j).state
        → Apart c.state (update rings i ring k).state
    alone_after j k c =
        update-cases
          (λ j ring'. j ≢ k → Busy c ring'.state → Apart c.state (update rings i ring k).state)
          rings i ring
          (λ ne b.
            update-cases (λ k ring'. i ≢ k → Apart c.state ring'.state) rings i ring
              (λ ne'. absurd (ne' refl)) (λ k nk _. Apart-others k c nk b) k ne)
          (λ j nj ne b.
            update-cases (λ k ring'. j ≢ k → Apart c.state ring'.state) rings i ring
              (λ _. others_Apart j c nj b) (λ k nk ne'. sound.alone j k c ne' b) k ne)
          j

    -- The completions of the other rings are still theirs.
    Held-update : (a : ℕ) → Apart a (rings i).state → Held a rings → Held a (update rings i ring)
    Held-update a apart (j, c, b, e) =
        let other : i ≢ j = λ q. apart c (subst (λ k. Busy c (rings k).state) (sym q) b) e in
        (j, c, rw (update_other rings i j ring other) b, e)

    known_elsewhere :
        (a : ℕ) (k : Kernel.State)
        → Apart a (rings i).state
        → Apart a ring.state
        → v.completions a ≡ some k
        → Held a (update rings i ring) ⊎ IsAbandoned k
    known_elsewhere a k before after e =
        known_before k (r.elsewhere a before after)
          (λ l e'. elim (sound.known a l e') [
            | inl held ↦ inl (Held-update a before held)
            | inr gone ↦ inr gone
          ])
          e

    known_after :
        (a : ℕ) (k : Kernel.State)
        → v.completions a ≡ some k
        → Held a (update rings i ring) ⊎ IsAbandoned k
    known_after a k e = elim (Apart-cases a ring.state) [
      | inl (c, b, q) ↦ inl (i, c, rw (update_self rings i ring) b, q)
      | inr after ↦ elim (Apart-cases a (rings i).state) [
        | inl (c, b, q) ↦ elim (r.leaves c k b (ap v.completions q ∙ e)) [
          | inl b' ↦ absurd (after c b' q)
          | inr gone ↦ inr gone
        ]
        | inr before ↦ known_elsewhere a k before after e
      ]
    ]

    pub Sound-update : Sound (update rings i ring) v
    Sound-update = record { owns = Owns-after; alone = alone_after; known = known_after }
