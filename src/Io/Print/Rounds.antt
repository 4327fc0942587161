-- ===== src/Io/Print/Rounds.antt =====
-- The loop of printing ends after two rounds at most.
use ringbahn.Base.{
  ℕ, suc, ◌+◌, ◌-◌, ◌≤◌, ◌<◌, ◌≡◌, refl, true, Option, some, leb, ◌==◌, inl, inr, arith, Bool-cases,
}
use ringbahn.Operation.{Operation, Slice, whole}
use ringbahn.Machine.{World, returns, Poll, pending, ready}
use ringbahn.Machine.Returns.{Returns, returned, Returns-and_then, Returns-map}
use ringbahn.Completion.{Completion}
use ringbahn.Completion.Types as Kernel
use ringbahn.Completion.Types.{IoResult, ok, err, Error}
use ringbahn.Drive.{Context, Drive}
use ringbahn.Drive.Conforms.{Conforms}
use ringbahn.Ring.{Ring, State}
use ringbahn.Ring.Spec.{Owns, Busy, Idle, is_inert, Polled}
use ringbahn.Ring.Refines.{poll_one-Polled}
use ringbahn.Ring.Cancels.{Idle-Owns}
use ringbahn.Ring.Answers.{Idle-pending, ready-inert}
use ringbahn.Io.Print.{Print, tail_of, round, poll_loop, poll}

-- The bytes that have not been written.
abbrev pub unwritten : {Driver : Type 0} → Print Driver → Slice
unwritten p = record { address = p.bytes.address; start = p.idx; len = p.bytes.len - p.idx }

-- The kernel has written no more than it was given.
abbrev pub WritesAtMost : ℕ → State → World → Type 0
WritesAtMost room s w =
    (c : Completion) (n : ℕ)
    → Busy c s
    → w.completions c.state ≡ some (Kernel.completed (ok n))
    → n ≤ room

-- A future between two polls.
pub record IsSound {Driver : Type 0} (p : Print Driver) (w : World) : Type 0 where
  pub within : p.idx ≤ p.bytes.len
  pub owns : Owns p.ring.state w
  pub bounded : WritesAtMost (p.bytes.len - p.idx) p.ring.state w

-- How a poll may end. There is nothing to write; or the write of all that is left, which goes on or is
-- begun, is not done, or has failed, and nothing is counted; or it is done. Then the bytes written are
-- counted, and if they are all, this is the end; if not, the write of exactly the rest is begun.
pub data Prints {Driver : Type 0} (fresh : ℕ) (p : Print Driver) (w : World)
    : Print Driver → Poll (IoResult (Unit {0})) → World → Type 0 where
  nothing_left : p.idx ≡ p.bytes.len → Prints fresh p w p (ready (ok tt)) w
  unfinished :
      {ring : Ring Driver} {v : World}
      → p.idx < p.bytes.len
      → Polled (Operation.write p.fd (unwritten p) 0) fresh w p.ring.state ring.state pending v
      → Prints fresh p w (record p { ring = ring }) pending v
  failed :
      {ring : Ring Driver} {v : World} {e : Error}
      → p.idx < p.bytes.len
      → Polled
          (Operation.write p.fd (unwritten p) 0)
          fresh
          w
          p.ring.state
          ring.state
          (ready (err e))
          v
      → Prints fresh p w (record p { ring = ring }) (ready (err e)) v
  finished :
      {ring : Ring Driver} {v : World} {n : ℕ}
      → Polled
          (Operation.write p.fd (unwritten p) 0)
          fresh
          w
          p.ring.state
          ring.state
          (ready (ok n))
          v
      → p.idx + n ≡ p.bytes.len
      → Prints fresh p w (record p { ring = ring; idx = p.idx + n }) (ready (ok tt)) v
  continued :
      {s : State} {ring : Ring Driver} {u v : World} {n : ℕ}
      → Polled (Operation.write p.fd (unwritten p) 0) fresh w p.ring.state s (ready (ok n)) u
      → p.idx + n < p.bytes.len
      → Polled
          (Operation.write p.fd (unwritten (record p { idx = p.idx + n })) 0)
          fresh
          u
          s
          ring.state
          pending
          v
      → Prints fresh p w (record p { ring = ring; idx = p.idx + n }) pending v

-- A run of the loop that has not run out of fuel.
pub data Ends {Driver : Type 0} (fresh : ℕ) (p : Print Driver) (w : World)
    : Option (Print Driver × Poll (IoResult (Unit {0}))) → World → Type 0 where
  ends :
      {q : Print Driver} {r : Poll (IoResult (Unit {0}))} {v : World}
      → Prints fresh p w q r v
      → Ends fresh p w (some (q, r)) v

tail_of-whole :
    {Driver : Type 0} (p : Print Driver) (w : World)
    → p.idx ≤ p.bytes.len
    → tail_of (whole p.bytes) p.idx w ≡ returns (unwritten p) w
unfolding tail_of
tail_of-whole p w h =
    let e : leb p.idx p.bytes.len ≡ true = ground arith in
    let z : 0 + p.idx ≡ p.idx = omega arith in rw (e, z) refl

tail_of-unwritten :
    {Driver : Type 0} (p : Print Driver) (n : ℕ) (w : World)
    → n ≤ p.bytes.len - p.idx
    → tail_of (unwritten p) n w ≡ returns (unwritten (record p { idx = p.idx + n })) w
unfolding tail_of
tail_of-unwritten p n w h =
    let e : leb n (p.bytes.len - p.idx) ≡ true = ground arith in
    let z : p.bytes.len - p.idx - n ≡ p.bytes.len - (p.idx + n) = omega arith in rw (e, z) refl

module _ (D : Drive) (conforms : Conforms D) (ctx : Context) where
  -- One round more, of a future whose ring is inert, is pending.
  abbrev Pends :
      Print D.Driver → World → Option (Print D.Driver × Poll (IoResult (Unit {0}))) → World → Type 0
  Pends q w o v =
      (ring : Ring D.Driver) × (o ≡ some (record q { ring = ring }, pending))
      × Polled (Operation.write q.fd (unwritten q) 0) ctx.fresh w q.ring.state ring.state pending v

  idle_answer :
      (fuel : ℕ) (q : Print D.Driver) (w v : World) (ring : Ring D.Driver) (a : Poll (IoResult ℕ))
      → a ≡ pending
      → Polled (Operation.write q.fd (unwritten q) 0) ctx.fresh w q.ring.state ring.state a v
      → Returns
          (λ o u. Pends q w o u)
          (round D (poll_loop D fuel ctx) (unwritten q) (record q { ring = ring }) a v)
  unfolding round
  idle_answer fuel q w v ring pending e polled = returned (ring, refl, polled)
  idle_answer fuel q w v ring (ready r) e polled = cc

  poll_loop-Idle :
      (fuel : ℕ) (q : Print D.Driver) (w : World)
      → Idle q.ring.state
      → Returns (λ o v. Pends q w o v) (poll_loop D (suc fuel) ctx (unwritten q) q w)
  unfolding poll_loop
  poll_loop-Idle fuel q w idle =
      Returns-and_then
        (poll_one-Polled D conforms ctx (Operation.write q.fd (unwritten q) 0) q.ring w
          (Idle-Owns w idle))
        λ (ring, a) v polled.
          idle_answer fuel q w v ring a (Idle-pending polled.transition idle) polled

  first_answer :
      (fuel : ℕ) (p : Print D.Driver) (w v : World) (ring : Ring D.Driver) (a : Poll (IoResult ℕ))
      → WritesAtMost (p.bytes.len - p.idx) p.ring.state w
      → p.idx < p.bytes.len
      → Polled (Operation.write p.fd (unwritten p) 0) ctx.fresh w p.ring.state ring.state a v
      → Returns
          (λ o u. Ends ctx.fresh p w o u)
          (round D (poll_loop D (suc fuel) ctx) (unwritten p) (record p { ring = ring }) a v)
  unfolding round
  first_answer fuel p w v ring pending bounded more polled =
      returned (ends (unfinished more polled))
  first_answer fuel p w v ring (ready (err e)) bounded more polled =
      returned (ends (failed more polled))
  first_answer fuel p w v ring (ready (ok n)) bounded more polled =
      let (rests, (c, busy, holds)) = ready-inert polled.transition refl in
      let fits : n ≤ p.bytes.len - p.idx = bounded c n busy holds in
      elim (Bool-cases (n == p.bytes.len - p.idx)) [
        | inl all ↦ rw all (returned (ends (finished polled (ground arith))))
        | inr part ↦
            rw (part, tail_of-unwritten (record p { ring = ring }) n v fits)
              (Returns-map
                (poll_loop-Idle fuel (record p { ring = ring; idx = p.idx + n }) v
                  (rw rests is_inert))
                λ o u (ring', e, polled'). rw e (ends (continued polled (ground arith) polled')))
      ]

  -- On a conforming driver, and where the kernel writes no more than it is given, a poll of a sound
  -- future returns, with two rounds of fuel already, and with any more: the loop never goes through a
  -- third round. If there are bytes left, the ring is polled for the write of exactly those. While that is
  -- pending, and if it fails, nothing is counted. When it is done, the bytes that the kernel has written are
  -- counted, neither more nor less: if they are all, the future is ready, and if not, it is pending, and
  -- the ring has gone on with the write of exactly the rest.
  pub poll-Ends :
      (fuel : ℕ) (p : Print D.Driver) (w : World)
      → IsSound p w
      → Returns (λ o v. Ends ctx.fresh p w o v) (poll D (suc (suc fuel)) ctx p w)
  unfolding poll poll_loop
  poll-Ends fuel p w sound =
      rw (tail_of-whole p w sound.within) (elim (Bool-cases (p.bytes.len - p.idx == 0)) [
        | inl none_left ↦
            let within : p.idx ≤ p.bytes.len = sound.within in
            rw none_left (returned (ends (nothing_left (ground arith))))
        | inr left ↦
            let more : p.idx < p.bytes.len = ground arith in
            rw left (
              Returns-and_then
                (poll_one-Polled D conforms ctx (Operation.write p.fd (unwritten p) 0) p.ring w
                  sound.owns)
                λ (ring, a) v polled. first_answer fuel p w v ring a sound.bounded more polled)
      ])
