-- ===== src/Ring/System/Boxes/Safe.antt =====
-- The memory that the kernel works on for a ring has not been given back.
use ringbahn.Base.{
  ℕ, ◌≡◌, ◌≢◌, refl, sym, ◌∙◌, ◌⊎◌, inl, inr, Option, none, some, List, [], ◌∷◌, ap, subst,
  Option-cases, Bool-cases, ◌==◌, if◌then◌else◌, arith,
}
use ringbahn.Cancellation
use ringbahn.Cancellation.{Allocation, Cancellation}
use ringbahn.Cancellation.Frees.{Frees}
use ringbahn.Operation.{BoxedSlice}
use ringbahn.Machine.{World, update, update_other, update_self, without}
use ringbahn.Completion.Types as Kernel
use ringbahn.Completion.Types.{IoResult}
use ringbahn.Completion.Branches.{cleaned, moved}
use ringbahn.Drive.Spares.{
  InMemory, Holds, Gives, Spares, Spares-refl, Spares-update, before_update,
}
use ringbahn.Event.Memory.{All-map}
use ringbahn.Buf.Fill.{Placed, Takes}
use ringbahn.Stream.Writing.{Backed}
use ringbahn.Ring.{State}
use ringbahn.Ring.Cancels.{Cancels, nothing_under_way, left_to_kernel, completed_before}
use ringbahn.Ring.System.Completes.{Completes, passes, hands_over, cleans_up}
use ringbahn.Ring.System.Entries.{Entered}
use ringbahn.Ring.System.Sound.{IsAbandoned, is_abandoned}
use ringbahn.Ring.System.Boxes.{touched, InBox, Custody, InCustody, nothing, held, left}

-- The box is in memory, and so is all that the callbacks give back that are with completions: none of it
-- is in the box, and no two callbacks give back the same. What is in memory are bytes, which own nothing
-- in turn.
pub record Safe (contents : Option BoxedSlice) (w : World) : Type 0 where
  pub backed : (x : ℕ) → InBox contents x → InMemory x w
  pub bytes : (x : ℕ) → w.inside x ≡ []
  pub owned :
      (a : ℕ) (c : Cancellation) (x : ℕ)
      → Holds w a c
      → Gives w c x
      → InMemory x w × (¬ InBox contents x)
  pub once :
      (a b : ℕ) (c d : Cancellation) (x : ℕ)
      → Holds w a c
      → Holds w b d
      → Gives w c x
      → Gives w d x
      → a ≡ b

-- Closing a descriptor is of no matter, and a ring without an event needs no box.
pub Safe-Idle :
    {contents : Option BoxedSlice} {w v : World}
    → v ≡ record w { closed = v.closed }
    → Safe contents w
    → Safe none v
Safe-Idle e safe = subst (Safe none) (sym e) (record {
  backed = λ x h. absurd h;
  bytes = safe.bytes;
  owned = λ a c x h g. ((safe.owned a c x h g).0, λ k. k);
  once = safe.once;
})

module _ {contents : Option BoxedSlice} {w v : World} (safe : Safe contents w)
    (spares : Spares w v) where
  Gives-before : (c : Cancellation) (x : ℕ) → Gives v c x → Gives w c x
  Gives-before c x = subst (λ i. Frees (Cancellation.drop i c) x) spares.inside

  -- Callbacks that have run give back neither the box nor what others would give back.
  pub Safe-Spares : Safe contents v
  Safe-Spares = record {
    backed = λ x h. elim (spares.boxes x (safe.backed x h)) [
      | inl there ↦ there
      | inr (a, c, holds, gone, gives) ↦ absurd ((safe.owned a c x holds gives).1 h)
    ];
    bytes = λ x. ap (λ f. f x) spares.inside ∙ safe.bytes x;
    owned = λ a c x h g.
        let h' = spares.callbacks a c h in
        let g' = Gives-before c x g in
        let (there, apart) = safe.owned a c x h' g' in
        (
          elim (spares.boxes x there) [
            | inl there' ↦ there'
            | inr (b, d, holds, gone, gives) ↦
                let at : b ≡ a = safe.once b a d c x holds h' gives g' in
                absurd (
                  gone (
                    subst (λ e. Holds v e d) (sym at)
                      (let before : Holds w a d = subst (λ e. Holds w e d) at holds in
                        let same : c ≡ d = cc (before, h') in subst (Holds v a) same h)))
          ],
          apart,
        );
    once = λ a b c d x h k g l.
        safe.once a b c d x (spares.callbacks a c h) (spares.callbacks b d k) (Gives-before c x g)
          (Gives-before d x l);
  }

-- The box is written to, or made where there was none, at an address that nothing in memory has.
pub Safe-Placed :
    {fresh : ℕ} (contents : Option BoxedSlice) {b : BoxedSlice} {w v : World}
    → Safe contents w
    → Placed fresh contents b w v
    → w.boxes fresh ≡ none
    → Safe (some b) v
Safe-Placed {fresh} contents {b} {w} {v} safe placed unused =
    subst (Safe (some b)) (sym placed.from) (record {
      backed = λ x h. backed_from contents refl x h;
      bytes = safe.bytes;
      owned = λ a c x h g.
          let (there, apart) = safe.owned a c x h g in
          (placed.kept x there, λ k. outside contents refl x there apart k);
      once = safe.once;
    })
  where
    backed_from : (o : Option BoxedSlice) → contents ≡ o → (x : ℕ) → InBox (some b) x → InMemory x v
    backed_from none e x h =
        let (at, there) = placed.made e in subst (λ y. InMemory y v) (sym at ∙ h) there
    backed_from (some old) e x h =
        let same : old ≡ b = subst (λ o. Takes o b) e placed.takes in
        placed.kept x
          (safe.backed x (subst (λ o. InBox o x) (sym e) (ap (λ y. y.address) same ∙ h)))

    outside :
        (o : Option BoxedSlice)
        → contents ≡ o
        → (x : ℕ) → InMemory x w
        → ¬ InBox contents x
        → ¬ InBox (some b) x
    outside none e x there apart h =
        let (at, _) = placed.made e in there (subst (λ y. w.boxes y ≡ none) (sym at ∙ h) unused)
    outside (some old) e x there apart h =
        let same : old ≡ b = subst (λ o. Takes o b) e placed.takes in
        apart (subst (λ o. InBox o x) (sym e) (ap (λ y. y.address) same ∙ h))

-- Giving memory back leaves the rest.
without-elsewhere :
    (gone : List Allocation) (boxes : ℕ → Option (List ℕ)) (x : ℕ)
    → boxes x ≢ none
    → ¬ Frees gone x
    → without boxes gone x ≢ none
unfolding without
without-elsewhere [] boxes x there other = there
without-elsewhere (a ∷ rest) boxes x there other =
    without-elsewhere rest (update boxes a.address none) x
      (λ e. there (sym (update_other boxes a.address x none (λ q. other (inl q))) ∙ e))
      (λ f. other (inr f))

without-cases :
    (gone : List Allocation) (boxes : ℕ → Option (List ℕ)) (x : ℕ)
    → boxes x ≢ none
    → (without boxes gone x ≢ none) ⊎ Frees gone x
unfolding without
without-cases [] boxes x there = inl there
without-cases (a ∷ rest) boxes x there = elim (Bool-cases (x == a.address)) [
  | inl here ↦ inr (inl (ground arith))
  | inr other ↦
      let ne : a.address ≢ x = ground arith in
      elim (without-cases rest (update boxes a.address none) x
        (λ e. there (sym (update_other boxes a.address x none ne) ∙ e))) [
          | inl there' ↦ inl there'
          | inr f ↦ inr (inr f)
        ]
]

without-none :
    (gone : List Allocation) (boxes : ℕ → Option (List ℕ)) (x : ℕ)
    → boxes x ≡ none
    → without boxes gone x ≡ none
unfolding without
without-none [] boxes x e = e
without-none (a ∷ rest) boxes x e =
    without-none rest (update boxes a.address none) x
      (elim (Bool-cases (x == a.address)) [ inl here ↦ rw here refl | inr other ↦ rw other e ])

-- A cancellation makes no boxes.
pub Cancels-unused :
    {callback : Cancellation} {w : World} {s t : State} {v : World} (x : ℕ)
    → Cancels callback w s t v
    → w.boxes x ≡ none
    → v.boxes x ≡ none
Cancels-unused {callback} {w} x (nothing_under_way idle) e =
    without-none (Cancellation.drop w.inside callback) w.boxes x e
Cancels-unused x (left_to_kernel b holds) e = e
Cancels-unused {callback} {w} x (completed_before b holds) e =
    without-none (Cancellation.drop w.inside callback) w.boxes x e

-- The callback gives back nothing but the box.
abbrev pub GivesBox : Option BoxedSlice → Cancellation → Type 0
GivesBox contents callback =
    (inside : ℕ → List Allocation) (x : ℕ)
    → ((y : ℕ) → inside y ≡ [])
    → Frees (Cancellation.drop inside callback) x
    → InBox contents x

module _ {contents : Option BoxedSlice} {w : World} (callback : Cancellation)
    (safe : Safe contents w) (only : GivesBox contents callback) where
  pub Safe-cleaned : Safe none (cleaned w callback)
  Safe-cleaned = record {
    backed = λ x h. absurd h;
    bytes = safe.bytes;
    owned = λ a c x h g.
        let (there, apart) = safe.owned a c x h g in
        (
          without-elsewhere (Cancellation.drop w.inside callback) w.boxes x there
              (λ f. apart (only w.inside x safe.bytes f)),
          λ k. k,
        );
    once = safe.once;
  }

  -- The callback is left with a completion.
  Holds-moved :
      (k a : ℕ) (c : Cancellation)
      → Holds (moved w k (Kernel.cancelled callback)) a c
      → ((a ≡ k) × (c ≡ callback)) ⊎ Holds w a c
  Holds-moved k a c h = elim (Bool-cases (a == k)) [
    | inl here ↦
        let at : a ≡ k = ground arith in
        let e =
          subst
            (λ t.
              (if t then some (Kernel.cancelled callback) else w.completions a)
              ≡ some (Kernel.cancelled c))
            here h in
        inl (at, cc e)
    | inr elsewhere ↦ inr (
        subst
          (λ t.
            (if t then some (Kernel.cancelled callback) else w.completions a)
            ≡ some (Kernel.cancelled c))
          elsewhere h)
  ]

  in_box : (c : Cancellation) (x : ℕ) → c ≡ callback → Gives w c x → InBox contents x
  in_box c x e g =
      only w.inside x safe.bytes (subst (λ d. Frees (Cancellation.drop w.inside d) x) e g)

  Safe-moved : (k : ℕ) → Safe none (moved w k (Kernel.cancelled callback))
  Safe-moved k = record {
    backed = λ x h. absurd h;
    bytes = safe.bytes;
    owned = λ a c x h g. elim (Holds-moved k a c h) [
      | inl (at, same) ↦ (safe.backed x (in_box c x same g), λ e. e)
      | inr before ↦ ((safe.owned a c x before g).0, λ e. e)
    ];
    once = λ a b c d x h i g j. elim (Holds-moved k a c h) [
      | inl (at, same) ↦ elim (Holds-moved k b d i) [
        | inl (at', same') ↦ at ∙ sym at'
        | inr before ↦ absurd ((safe.owned b d x before j).1 (in_box c x same g))
      ]
      | inr before ↦ elim (Holds-moved k b d i) [
        | inl (at', same') ↦ absurd ((safe.owned a c x before g).1 (in_box d x same' j))
        | inr before' ↦ safe.once a b c d x before before' g j
      ]
    ];
  }

  -- A ring is cancelled with the callback.
  pub Safe-Cancels : {s t : State} {v : World} → Cancels callback w s t v → Safe none v
  Safe-Cancels (nothing_under_way idle) = Safe-cleaned
  Safe-Cancels (completed_before {c} b holds) =
      Safe-Spares Safe-cleaned (Spares-update c.state none refl refl refl λ _. (λ e. cc))
  Safe-Cancels (left_to_kernel {c} b holds) = Safe-moved c.state

-- The kernel completes an event that it owes.
pub Completes-Spares :
    {result : IoResult ℕ} {a : ℕ} {w v : World} → Completes result a w v → Spares w v
Completes-Spares {w} (passes e) = Spares-refl w
Completes-Spares {a} (hands_over {waker} holds) = Spares-update a _ refl refl refl λ c. (λ e. cc)
Completes-Spares {a} {w} (cleans_up {callback} holds) = record {
  inside = refl;
  callbacks = λ b c h. before_update w.completions a b none _ h (λ e. cc);
  boxes = λ x there. elim (without-cases (Cancellation.drop w.inside callback) w.boxes x there) [
    | inl there' ↦ inl there'
    | inr gives ↦ inr (
      a,
      callback,
      holds,
      (λ h. let f : ⊥ = cc (h, update_self w.completions a none) in f),
      gives,
    )
  ];
}

pub Safe-Completes :
    {contents : Option BoxedSlice} {result : IoResult ℕ} {a : ℕ} {w v : World}
    → Safe contents w
    → Completes result a w v
    → Safe contents v
Safe-Completes safe done = Safe-Spares safe (Completes-Spares done)

pub Safe-Backed : {contents : Option BoxedSlice} {w : World} → Safe contents w → Backed contents w
Safe-Backed {contents = none} safe = tt
Safe-Backed {contents = some b} {w} safe = elim (Option-cases (w.boxes b.address)) [
  | inl gone ↦ absurd (safe.backed b.address refl gone)
  | inr (bytes, there) ↦ (bytes, there)
]

-- What is safe in custody has not been given back.
pub Custody-InCustody :
    {s : State} {contents : Option BoxedSlice} {w : World}
    → Custody s contents w
    → Safe contents w
    → (a : ℕ) → InCustody a s contents w
Custody-InCustody {s} {contents} {w} custody safe a = elim (Option-cases (w.completions a)) [
  | inl free ↦ nothing free
  | inr (k, holds) ↦ elim (custody.known a k holds) [
    | inl (c, b, at) ↦
        let (op, entered, all) = custody.keeps c b in
        held c op b at (subst (λ x. Entered op x w) at entered)
          (All-map (touched op) (λ x h. (h, safe.backed x h)) all)
    | inr gone ↦ left-Leaves gone holds
  ]
]
  where
    left-Leaves :
        {k : Kernel.State} → IsAbandoned k → w.completions a ≡ some k → InCustody a s contents w
    left-Leaves (is_abandoned {callback}) holds =
        let (op, entered, frees) = custody.leaves a callback holds in
        left callback op holds entered
          (All-map (touched op) (λ x g. (g, (safe.owned a callback x holds g).0)) (frees w.inside))
