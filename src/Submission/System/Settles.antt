-- ===== src/Submission/System/Settles.antt =====
-- Once all submissions have been dropped, the kernel's completions leave nothing behind.
use ringbahn.Base.{
  ℕ, ◌≡◌, refl, sym, ◌∙◌, ◌≢◌, ◌⊎◌, inl, inr, Option, none, some, List, [], ◌∷◌, ◌++◌, ap, subst,
  arith,
}
use ringbahn.Cancellation
use ringbahn.Cancellation.{Allocation, Cancellation}
use ringbahn.Machine.{World, Cmd, pure, ◌>>◌, update, update_self, update_other}
use ringbahn.Machine.Returns.{Returns, returned, Returns-map}
use ringbahn.Completion
use ringbahn.Completion.Types as Kernel
use ringbahn.Completion.Types.{IoResult}
use ringbahn.Completion.Branches.{erased, cleaned, complete-cancelled}
use ringbahn.Event
use ringbahn.Event.{Event, operation}
use ringbahn.Event.Memory.{IsStatic, All, All-map, pointers}
use ringbahn.Cancellation.Frees.{Frees, Frees-append_left, Frees-append_right}
use ringbahn.Ring.Spec.{event_sqe}
use ringbahn.Ring.Cancels.{not-Busy_of_Idle}
use ringbahn.Ring.System.Sound.{IsAbandoned, is_abandoned}
use ringbahn.Submission.{Submission}
use ringbahn.Ring.System.Entries.{newest}
use ringbahn.Submission.System.Custody.{Custody, cancel-Keeper}

-- The kernel completes the events at these addresses, one after the other.
unfoldable pub settle : List (ℕ × IoResult ℕ) → Cmd (Unit {0})
settle [] = pure tt
settle ((a, result) ∷ rest) = Completion.complete result a >> settle rest

abbrev pub Occurs : ℕ → List (ℕ × IoResult ℕ) → Type 0
Occurs a [] = ⊥
Occurs a ((b, _) ∷ rest) = (a ≡ b) ⊎ Occurs a rest

abbrev pub Distinct : List (ℕ × IoResult ℕ) → Type 0
Distinct [] = Unit {0}
Distinct ((a, _) ∷ rest) = (¬ Occurs a rest) × Distinct rest

-- There was no completion at the address; or there was one, and all memory that the entry of its event
-- refers to has been given back, unless the event is a static timeout.
pub data GivenBack (a : ℕ) (w v : World) : Type 0 where
  nothing : w.completions a ≡ none → GivenBack a w v
  given_back :
      (e : Event)
      → newest a w.queue ≡ some (event_sqe (operation e) a)
      → IsStatic e ⊎ All (Frees v.freed) (pointers (operation e))
      → GivenBack a w v

update-none : (f : ℕ → Option Kernel.State) (a b : ℕ) → f b ≡ none → update f a none b ≡ none
update-none f a b e = ground arith

module _ {a : ℕ} {w u v : World} where
  -- What has been given back stays so when more is.
  GivenBack-more :
      (more : List Allocation) → v.freed ≡ more ++ u.freed → GivenBack a w u → GivenBack a w v
  GivenBack-more more q (nothing free) = nothing free
  GivenBack-more more q (given_back e entry (inl static)) = given_back e entry (inl static)
  GivenBack-more more q (given_back e entry (inr all)) =
      given_back e entry
        (inr (rw q (All-map (pointers (operation e)) (Frees-append_right more u.freed) all)))

module _ {Driver : Type 0} (subs : ℕ → Submission Driver) (w : World) (custody : Custody subs w)
    (dropped : (i : ℕ) → (subs i).event ≡ none) where
  -- What is left of an event is its callback, with the completion.
  abbrev Left : ℕ → Type 0
  Left a =
      (e : Event) × (w.completions a ≡ some (Kernel.cancelled (Event.cancel e)))
      × (a ≢ 0)
      × (newest a w.queue ≡ some (event_sqe (operation e) a))

  Left-abandoned : {a : ℕ} {k : Kernel.State} → IsAbandoned k → w.completions a ≡ some k → Left a
  Left-abandoned {a} (is_abandoned {callback}) holds =
      let (e, q, (nz, entry)) = custody.leaves a callback holds in
      (e, holds ∙ ap (λ x. some (Kernel.cancelled x)) q, nz, entry)

  all-Left : (a : ℕ) (k : Kernel.State) → w.completions a ≡ some k → Left a
  all-Left a k holds = elim (custody.sound.known a k holds) [
    | inl (i, c, b, at) ↦ absurd (not-Busy_of_Idle (custody.idle i (dropped i)) b)
    | inr gone ↦ Left-abandoned gone holds
  ]

  -- Between two completions: what is still to come is as it was, and the rest is done.
  record Between (rest : List (ℕ × IoResult ℕ)) (u : World) : Type 0 where
    to_come : (a : ℕ) → Occurs a rest → u.completions a ≡ w.completions a
    done : (a : ℕ) → Occurs a rest ⊎ ((u.completions a ≡ none) × GivenBack a w u)

  module _ (a : ℕ) (result : IoResult ℕ) (rest : List (ℕ × IoResult ℕ)) (u : World)
      (between : Between ((a, result) ∷ rest) u) (fresh : ¬ Occurs a rest) (e : Event)
      (entry : newest a w.queue ≡ some (event_sqe (operation e) a)) where
    abbrev after : World
    after = erased (cleaned u (Event.cancel e)) a

    given : GivenBack a w after
    given = given_back e entry (elim (cancel-Keeper u.inside e) [
      | inl static ↦ inl static
      | inr all ↦ inr (
          All-map (pointers (operation e))
            (λ p. Frees-append_left (Cancellation.drop u.inside (Event.cancel e)) u.freed p) all)
    ])

    Between-step : Between rest after
    Between-step = record {
      to_come = λ b o.
          let ne : a ≢ b = λ q. fresh (subst (λ x. Occurs x rest) (sym q) o) in
          update_other u.completions a b none ne ∙ between.to_come b (inr o);
      done = λ b. elim (between.done b) [
        | inl (inl q) ↦ inr (
            subst (λ x. (after.completions x ≡ none) × GivenBack x w after) (sym q)
              (update_self u.completions a none, given))
        | inl (inr o) ↦ inl o
        | inr (free, gives) ↦ inr (
          update-none u.completions a b free,
          GivenBack-more (Cancellation.drop u.inside (Event.cancel e)) refl gives,
        )
      ];
    }

  settle-Between :
      (rest : List (ℕ × IoResult ℕ)) (u : World)
      → Distinct rest
      → ((a : ℕ) → Occurs a rest → (k : Kernel.State) × (w.completions a ≡ some k))
      → Between rest u
      → Returns (λ _ v. Between [] v) (settle rest u)
  unfolding settle
  settle-Between [] u distinct holds between = returned between
  settle-Between ((a, result) ∷ rest) u (fresh, distinct) holds between =
      let (k, there) = holds a (inl refl) in
      let (e, left, nz, entry) = all-Left a k there in
      let now = between.to_come a (inl refl) ∙ left in
      rw (complete-cancelled u a result nz (Event.cancel e) now) (
        settle-Between rest (after a result rest u between fresh e entry) distinct
          (λ b o. holds b (inr o)) (Between-step a result rest u between fresh e entry))

  -- Once each submission has been dropped or has handed its event over, the kernel need only complete,
  -- in any order and once each, the events at the addresses where there are completions: no completion
  -- is left then, and all memory that the entry of each of these events refers to has been given back,
  -- unless the event is a static timeout.
  pub settle-GivenBack :
      (addresses : List (ℕ × IoResult ℕ))
      → Distinct addresses
      → ((a : ℕ) → Occurs a addresses → (k : Kernel.State) × (w.completions a ≡ some k))
      → ((a : ℕ) → Occurs a addresses ⊎ (w.completions a ≡ none))
      → Returns (λ _ v. (a : ℕ) → (v.completions a ≡ none) × GivenBack a w v) (settle addresses w)
  settle-GivenBack addresses distinct holds covers =
      Returns-map
        (settle-Between addresses w distinct holds (record {
          to_come = λ a o. refl;
          done = λ a. elim (covers a) [ inl o ↦ inl o | inr free ↦ inr (free, nothing free) ];
        }))
        λ _ v between a. elim (between.done a) [ inl o ↦ absurd o | inr both ↦ both ]
