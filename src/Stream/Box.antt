-- ===== src/Stream/Box.antt =====
-- The box of a buffer while its ring is polled for reads and writes, or cancelled.
use ringbahn.Base.{
  Bool-cases, inl, inr, ◌==◌, ◌-◌, ℕ, ◌≡◌, refl, sym, ◌∙◌, ◌≢◌, Option, none, some, List, ap, subst,
  arith, [], ◌∷◌, ◌++◌,
}
use ringbahn.Operation.{Operation, BoxedSlice, Slice, whole}
use ringbahn.Machine.{World, Poll, pending, ready}
use ringbahn.Completion.Types.{IoResult, ok, err}
use ringbahn.Event.Memory.{All, pointers}
use ringbahn.Ring.{State}
use ringbahn.Ring.Spec.{Polled}
use ringbahn.Ring.System.Boxes as Boxes
use ringbahn.Ring.System.Boxes.{touched, InBox, InCustody}
use ringbahn.Ring.System.Boxes.Steps.{Custody-Polled, Custody-boxes}
use ringbahn.Buf
use ringbahn.Buf.{Buffer}
use ringbahn.Buf.Fits.{Within, Fits}
use ringbahn.Ring.System.Boxes.Safe.{Safe, GivesBox, Safe-Spares, Safe-Placed}
use ringbahn.Buf.Fill.{Placed, view, Takes}
use ringbahn.Stream.Writing.{Offers, held_before, copied, after}
use ringbahn.Cancellation
use ringbahn.Cancellation.{Allocation, allocation, slice}
use ringbahn.Cancellation.Frees.{Frees, Frees-only, Frees-last}

-- The callback that a buffer leaves owns its box.
pub contents-Frees :
    (contents : Option BoxedSlice) (inside : ℕ → List Allocation) (p : ℕ)
    → InBox contents p
    → Frees (Cancellation.drop inside (Buf.contents_cancellation contents)) p
unfolding Buf.contents_cancellation Cancellation.drop Cancellation.new Cancellation.from_option
contents-Frees none inside p h = absurd h
contents-Frees (some b) inside p h =
    subst (Frees (inside b.address ++ allocation b.address (slice b.len) ∷ [])) h
      (Frees-last (inside b.address) b.address (slice b.len))

-- It gives back nothing else.
pub contents-GivesBox :
    (contents : Option BoxedSlice) → GivesBox contents (Buf.contents_cancellation contents)
unfolding Buf.contents_cancellation Cancellation.drop Cancellation.new Cancellation.from_option
contents-GivesBox none inside x bytes f = absurd f
contents-GivesBox (some b) inside x bytes f =
    Frees-only (inside b.address) b.address x (slice b.len) (bytes b.address) f

-- A buffer that is given a box keeps the one it has.
Takes-InBox :
    (contents : Option BoxedSlice) (b : BoxedSlice) (p : ℕ)
    → Takes contents b
    → InBox contents p
    → InBox (some b) p
Takes-InBox none b p takes h = absurd h
Takes-InBox (some old) b p takes h = sym (ap (λ x. x.address) takes) ∙ h

module _ (op : Operation) (b : BoxedSlice) (fresh fresh_box : ℕ) (nonnull : fresh ≢ 0)
    (inside : All (InBox (some b)) (touched op)) where
  -- The ring is polled for an operation on the box of the buffer, which may be new.
  box-Polled :
      {contents : Option BoxedSlice} {s t : State} {p : Poll (IoResult ℕ)} {w v u : World}
      → Boxes.Custody s contents w
      → w.completions fresh ≡ none
      → Safe contents w
      → w.boxes fresh_box ≡ none
      → Placed fresh_box contents b w v
      → Polled op fresh v s t p u
      → Boxes.Custody t (some b) u × Safe (some b) u
  box-Polled {contents} custody free safe unused placed polled =
      let free' = ap (λ x. x.completions fresh) placed.from ∙ free in
      (
        Custody-Polled (Custody-boxes placed.from custody) polled nonnull free'
            (λ p. Takes-InBox contents b p placed.takes) inside,
        Safe-Spares (Safe-Placed contents safe placed unused) polled.spares,
      )

read-InBox :
    (fd : ℕ) (b : BoxedSlice) (pos : ℕ)
    → All (InBox (some b)) (touched (Operation.read fd (whole b) pos))
unfolding touched pointers
read-InBox fd b pos = (refl, tt)

pub read-Polled :
    {fd fresh fresh_box pos : ℕ} {b : BoxedSlice} {contents : Option BoxedSlice} {s t : State}
    {p : Poll (IoResult ℕ)} {w v u : World}
    → fresh ≢ 0
    → Boxes.Custody s contents w
    → w.completions fresh ≡ none
    → Safe contents w
    → w.boxes fresh_box ≡ none
    → Placed fresh_box contents b w v
    → Polled (Operation.read fd (whole b) pos) fresh v s t p u
    → Boxes.Custody t (some b) u × Safe (some b) u
read-Polled {fd} {fresh} {fresh_box} {pos} {b} nonnull =
    box-Polled (Operation.read fd (whole b) pos) b fresh fresh_box nonnull (read-InBox fd b pos)

write-InBox :
    (contents : Option BoxedSlice) (fd pos cap at : ℕ)
    → All (InBox contents) (touched (Operation.write fd (view contents pos cap) at))
unfolding touched
write-InBox none fd pos cap at = tt
write-InBox (some b) fd pos cap at = elim (Bool-cases (cap - pos == 0)) [
  | inl nothing ↦ rw nothing tt
  | inr more ↦ rw more (refl, tt)
]

cleared-Within : (cap : ℕ) (contents : Option BoxedSlice) → Within cap contents → Within 0 contents
cleared-Within cap none h = omega arith
cleared-Within cap (some b) h = (omega arith, h.1)

-- A buffer that is emptied, or not, keeps its box.
after-Fits : (p : Poll (IoResult ℕ)) (buf : Buffer) → Fits buf → Fits (after p buf)
after-Fits pending buf fits = fits
after-Fits (ready (err e)) buf fits = fits
after-Fits (ready (ok n)) buf fits = record {
  ordered = omega arith;
  within = cleared-Within buf.cap buf.contents fits.within;
  small = omega arith;
}

contents-after : (p : Poll (IoResult ℕ)) (buf : Buffer) → (after p buf).contents ≡ buf.contents
contents-after pending buf = refl
contents-after (ready (err e)) buf = refl
contents-after (ready (ok n)) buf = refl

pub Offers-Custody :
    {bytes : List ℕ} {fd fresh fresh_box at : ℕ} {old buf : Buffer} {u v x : World} {slice : Slice}
    {s t : State} {p : Poll (IoResult ℕ)}
    → Offers fresh_box bytes old u buf slice v
    → Polled (Operation.write fd slice at) fresh v s t p x
    → fresh ≢ 0
    → u.completions fresh ≡ none
    → Fits old
    → Boxes.Custody s old.contents u
    → Safe old.contents u
    → u.boxes fresh_box ≡ none
    → Fits (after p buf) × Boxes.Custody t (after p buf).contents x × Safe (after p buf).contents x
Offers-Custody {fd} {at} {old} {x} {t} {p} (held_before more) polled nonnull free fits custody safe
      unused =
    (
      after-Fits p old fits,
      subst (λ c. Boxes.Custody t c x) (sym (contents-after p old))
          (Custody-Polled custody polled nonnull free (λ _ h. h)
            (write-InBox old.contents fd old.pos old.cap at)),
      subst (λ c. Safe c x) (sym (contents-after p old)) (Safe-Spares safe polled.spares),
    )
Offers-Custody {fd} {fresh} {fresh_box} {at} {x} {t} {p}
      (copied {b} {n} kept used_up placed len e holds) polled nonnull free fits custody safe
      unused =
    let (custody', safe') =
      box-Polled (Operation.write fd (view (some b) 0 n) at) b fresh fresh_box nonnull
        (write-InBox (some b) fd 0 n at) custody free safe unused placed polled in
    let buf : Buffer = record { contents = some b; pos = 0; cap = n } in
    (
      after-Fits p buf
          (record { ordered = omega arith; within = (ground arith, len); small = ground arith }),
      subst (λ c. Boxes.Custody t c x) (sym (contents-after p buf)) custody',
      subst (λ c. Safe c x) (sym (contents-after p buf)) safe',
    )
