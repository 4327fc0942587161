-- ===== src/Buf/Fill.antt =====
-- What `fill_buf` does with a buffer, on every answer of the closure that reads or copies into it.
use ringbahn.Base.{
  ◌≢◌, subst, replicate, ℕ, ◌-◌, ◌≤◌, ◌<◌, ◌≡◌, refl, Option, none, some, inl, inr, arith, List,
  leb, Bool-cases,
}
use ringbahn.Operation.{BoxedSlice, whole, Slice}
use ringbahn.Drive.Spares.{InMemory, before_update}
use ringbahn.Machine.{update, update_self, World, returns, Cmd, Poll, pending, ready}
use ringbahn.Machine.Returns.{Returns, returned, Returns-and_then, Returns-map}
use ringbahn.Completion.Types.{IoResult, ok, err, Error}
use ringbahn.Buf.{
  Buffer, buffered_from_read, buffered_in, slice_of, empty_slice, capacity, box_in, filled, refill,
  fill_buf,
}
use ringbahn.Buf.Fits.{Within, Fits}

-- The data of a buffer: what lies between `pos` and `cap`, and nothing where there is no box.
abbrev pub view : Option BoxedSlice → ℕ → ℕ → Slice
view none pos cap = empty_slice
view (some b) pos cap = record { address = b.address; start = pos; len = cap - pos }

-- The box that is filled is that of the buffer, if it has one.
abbrev pub Takes : Option BoxedSlice → BoxedSlice → Type 0
Takes none b = Unit {0}
Takes (some old) b = old ≡ b

-- Where the box that is filled comes from: it is the buffer's, or the allocator has made it at the address
-- that it answers with. All that was in memory is there still.
pub record Placed (fresh : ℕ) (contents : Option BoxedSlice) (b : BoxedSlice) (w v : World)
    : Type 0 where
  pub takes : Takes contents b
  pub from : v ≡ record w { boxes = v.boxes }
  pub made : contents ≡ none → (b.address ≡ fresh) × InMemory fresh v
  pub kept : (x : ℕ) → InMemory x w → InMemory x v

-- A closure stays within the slice that it is given.
abbrev pub Bounded : {C : Type 0} → BoxedSlice → C × Poll (IoResult ℕ) → World → Type 0
Bounded b (c, pending) v = Unit {0}
Bounded b (c, ready (err e)) v = Unit {0}
Bounded b (c, ready (ok n)) v = (n ≤ b.len) × (n < 4294967296)

-- The outcomes: the buffer holds data and the closure is not called; the closure is not ready, or it
-- fails, and the buffer is as empty as it was; or its data is what the closure has put in.
pub data Filled {C : Type 0} (c : C) (buf : Buffer) (w : World)
    : C → Buffer → Poll (IoResult Slice) → World → Type 0 where
  held : buf.pos < buf.cap → Filled c buf w c buf (ready (ok (view buf.contents buf.pos buf.cap))) w
  unready :
      {c' : C} {b : BoxedSlice} {v : World}
      → buf.cap ≤ buf.pos
      → Filled c buf w c' (record buf { contents = some b }) pending v
  failed :
      {c' : C} {b : BoxedSlice} {e : Error} {v : World}
      → buf.cap ≤ buf.pos
      → Filled c buf w c' (record buf { contents = some b }) (ready (err e)) v
  refilled :
      {c' : C} {b : BoxedSlice} {n : ℕ} {v : World}
      → buf.cap ≤ buf.pos
      → n ≤ b.len
      → Filled c buf w c'
          (record { contents = some b; pos = 0; cap = n })
          (ready (ok (view (some b) 0 n)))
          v

pub slice_of-some :
    (b : BoxedSlice) (i j : ℕ) (w : World)
    → i ≤ j
    → j ≤ b.len
    → slice_of b i j w ≡ returns (view (some b) i j) w
unfolding slice_of
slice_of-some b i j w h k = ground arith

buffered_in-view :
    (contents : Option BoxedSlice) (pos cap : ℕ) (w : World)
    → pos ≤ cap
    → Within cap contents
    → buffered_in contents pos cap w ≡ returns (view contents pos cap) w
unfolding buffered_in
buffered_in-view none pos cap w h k = refl
buffered_in-view (some b) pos cap w h k = slice_of-some b pos cap w h k.0

-- A buffer whose data fits can be looked at without a panic, and shows its data.
pub buffered_from_read-view :
    (buf : Buffer) (w : World)
    → Fits buf
    → buffered_from_read buf w ≡ returns (view buf.contents buf.pos buf.cap) w
unfolding buffered_from_read
buffered_from_read-view buf w f = buffered_in-view buf.contents buf.pos buf.cap w f.ordered f.within

pub InMemory-update :
    (w : World) (a : ℕ) (bytes : List ℕ) (x : ℕ)
    → InMemory x w
    → InMemory x (record w { boxes = update w.boxes a (some bytes) })
InMemory-update w a bytes x there = λ e. there (before_update w.boxes a x _ none e λ q. cc)

pub Placed-update :
    {fresh : ℕ} {contents : Option BoxedSlice} {b : BoxedSlice} {w : World} (bytes : List ℕ)
    → Takes contents b
    → (contents ≡ none → b.address ≡ fresh)
    → Placed fresh contents b w (record w { boxes = update w.boxes b.address (some bytes) })
Placed-update {fresh} {contents} {b} {w} bytes takes new = record {
  takes = takes;
  from = refl;
  made = λ e. (
    new e,
    subst (λ a. update w.boxes b.address (some bytes) a ≢ none) (new e)
        (λ q. let f : ⊥ = cc (q, update_self w.boxes b.address (some bytes)) in f),
  );
  kept = InMemory-update w b.address bytes;
}

-- The box is written to.
pub Placed-written :
    {fresh : ℕ} {contents : Option BoxedSlice} {b : BoxedSlice} {w : World}
    {boxes : ℕ → Option (List ℕ)} (bytes : List ℕ)
    → Placed fresh contents b w (record w { boxes = boxes })
    → Placed fresh contents b w (record w { boxes = update boxes b.address (some bytes) })
Placed-written {b} {w} {boxes} bytes placed = record {
  takes = placed.takes;
  from = refl;
  made = λ e.
      let (at, there) = placed.made e in
      (at, InMemory-update (record w { boxes = boxes }) b.address bytes _ there);
  kept = λ x h. InMemory-update (record w { boxes = boxes }) b.address bytes x (placed.kept x h);
}

pub Placed-some : {fresh : ℕ} (b : BoxedSlice) (w : World) → Placed fresh (some b) b w w
Placed-some b w = record {
  takes = refl;
  from = refl;
  made = λ e. absurd (let f : ⊥ = cc in f);
  kept = λ x h. h;
}

pub box_in-Within :
    (fresh cap : ℕ) (contents : Option BoxedSlice) (w : World)
    → Within cap contents
    → Returns
        (λ b v. (cap ≤ b.len) × (b.len ≡ capacity) × Placed fresh contents b w v)
        (box_in fresh contents w)
unfolding box_in
box_in-Within fresh cap none w k =
    returned (k, refl, Placed-update (replicate capacity 0) tt (λ _. refl))
box_in-Within fresh cap (some b) w k = returned (k.0, k.1, Placed-some b w)

module _ {C : Type 0} (c : C) (buf : Buffer) (w : World)
    (K : C → Option BoxedSlice → World → Type 0) where
  abbrev FilledTriple : C × Buffer × Poll (IoResult Slice) → World → Type 0
  FilledTriple (c', buf', p) v =
      Filled c buf w c' buf' p v × (Fits buf → Fits buf') × K c' buf'.contents v

  filled-Filled :
      (c' : C) (b : BoxedSlice) (p : Poll (IoResult ℕ)) (v : World)
      → buf.cap ≤ buf.pos
      → buf.cap ≤ b.len
      → b.len ≡ capacity
      → Bounded b (c', p) v
      → K c' (some b) v
      → Returns FilledTriple (filled c' (record buf { contents = some b }) p v)
  unfolding filled buffered_from_read
  filled-Filled c' b pending v h k e bounded kept =
      returned
        (unready h, λ f. record { ordered = f.ordered; within = (k, e); small = f.small }, kept)
  filled-Filled c' b (ready (err _)) v h k e bounded kept =
      returned
        (failed h, λ f. record { ordered = f.ordered; within = (k, e); small = f.small }, kept)
  filled-Filled c' b (ready (ok n)) v h k e bounded kept =
      rw (slice_of-some b 0 n v (omega arith) bounded.0) (
        returned (
          refilled h bounded.0,
          λ f. record { ordered = omega arith; within = (bounded.0, e); small = bounded.1 },
          kept,
        ))

  module _ (fresh : ℕ) (fill : C → Slice → Cmd (C × Poll (IoResult ℕ)))
      (fills : (b : BoxedSlice) (v : World)
        → b.len ≡ capacity
        → Placed fresh buf.contents b w v
        → Returns
            (λ (c', p) v'. Bounded b (c', p) v' × K c' (some b) v')
            (fill c (whole b) v)) where
    refill-Filled :
        buf.cap ≤ buf.pos
        → Within buf.cap buf.contents
        → Returns FilledTriple (refill fresh fill c buf w)
    unfolding refill
    refill-Filled h k =
        Returns-and_then (box_in-Within fresh buf.cap buf.contents w k) λ b u (k', e, placed).
          Returns-and_then (fills b u e placed)
            λ (c', p) v (bounded, kept). filled-Filled c' b p v h k' e bounded kept

    -- Where the closure stays within the slice that it is given, `fill_buf` returns, in one of its
    -- outcomes, and the data fits in the buffer as before. Whatever the closure establishes holds
    -- afterwards; if the closure is not called, what held before still holds.
    pub fill_buf-Filled :
        Fits buf
        → K c buf.contents w
        → Returns
            (λ (c', buf', p) v. Filled c buf w c' buf' p v × Fits buf' × K c' buf'.contents v)
            (fill_buf fresh fill c buf w)
    unfolding fill_buf
    fill_buf-Filled f kept = elim (Bool-cases (leb buf.cap buf.pos)) [
      | inl used_up ↦ rw used_up (
          Returns-map (refill-Filled (ground arith) f.within)
            λ (c', buf', p) v (o, g, k). (o, g f, k))
      | inr more ↦
          rw (more, buffered_in-view buf.contents buf.pos buf.cap w f.ordered f.within)
            (returned (held (ground arith), f, kept))
    ]
