-- ===== src/File/Sound.antt =====
-- The guard of an operation leaves a file sound, with a buffer where the operation expects one.
use ringbahn.Base.{◌≡◌, refl, Bool, true, false, not, ◌&&◌, inl, inr, arith, Bool-cases}
use ringbahn.Machine.{World}
use ringbahn.Machine.Returns.{Returns, returned, Returns-and_then}
use ringbahn.Ring.{Ring}
use ringbahn.Ring.Spec.{Owns}
use ringbahn.Ring.Cancels.{Cancels, Cancels-Idle, Idle-Owns, not-Busy_of_Idle, cancel-Cancels}
use ringbahn.Buf
use ringbahn.Buf.{Buffer}
use ringbahn.Buf.Fits.{Fits}
use ringbahn.Stream.Sound.{KernelBounded}
use ringbahn.File.Handle.{
  FileBuf, left, right, Op, nothing, statx, closed, same_op, File, into_cancellation, cancel_ring,
  guard_op,
}

-- There is a buffer, whose data fits, or else the last operation has asked for the file's size.
abbrev pub Shaped : FileBuf → Op → Type 0
Shaped (left buf) op = Fits buf
Shaped (right p) op = same_op op statx ≡ true

-- A file between two operations.
pub record IsSound {Driver : Type 0} (f : File Driver) (w : World) : Type 0 where
  pub shaped : Shaped f.buf f.active
  pub owns : Owns f.ring.state w
  pub bounded : KernelBounded f.ring.state w

-- An operation is under way, or was the last, that is not this one.
abbrev pub other_under_way : {Driver : Type 0} → Op → File Driver → Bool
other_under_way op f = not (same_op f.active nothing) && not (same_op f.active op)

-- What the guard makes of an open file, for an operation that wants a buffer: the file has one and
-- keeps it, or what was under way is cancelled, with what the file held for the callback.
pub data Guarded {Driver : Type 0} (op : Op) (f : File Driver) (w : World)
    : File Driver → Buffer → World → Type 0 where
  continues :
      {buf : Buffer}
      → other_under_way op f ≡ false
      → f.buf ≡ left buf
      → Guarded op f w (record f { active = op }) buf w
  interrupts :
      {ring : Ring Driver} {v : World}
      → other_under_way op f ≡ true
      → Cancels (into_cancellation f.buf) w f.ring.state ring.state v
      → Guarded op f w (record f { ring = ring; buf = left Buf.default; active = op }) Buf.default v

-- What the guard leaves.
pub record Ready {Driver : Type 0} (op : Op) (f : File Driver) (w : World) (g : File Driver)
    (u : World) : Type 0 where
  pub buf : Buffer
  pub has : g.buf ≡ left buf
  pub guarded : Guarded op f w g buf u
  pub fits : Fits buf
  pub owns : Owns g.ring.state u
  pub bounded : KernelBounded g.ring.state u

-- After `poll_file_size`, another operation cancels it.
statx_interrupted :
    {Driver : Type 0} (op : Op) (f : File Driver)
    → same_op f.active statx ≡ true
    → same_op statx op ≡ false
    → other_under_way op f ≡ true
unfolding same_op
statx_interrupted op f e ne = ground arith

pub default-Fits : Fits Buf.default
default-Fits = record { ordered = omega arith; within = omega arith; small = omega arith }

module _ {Driver : Type 0} (op : Op) (f : File Driver) (w : World) (sound : IsSound f w)
    (open? : same_op f.active closed ≡ false) (reads : same_op statx op ≡ false) where
  interrupt :
      other_under_way op f ≡ true
      → Returns (λ g u. Ready op f w (record g { active = op }) u) (cancel_ring f w)
  unfolding cancel_ring
  interrupt other =
      Returns-and_then (cancel-Cancels (into_cancellation f.buf) w f.ring sound.owns)
        λ ring v outcome. returned (record {
          buf = Buf.default;
          has = refl;
          guarded = interrupts other outcome;
          fits = default-Fits;
          owns = Idle-Owns v (Cancels-Idle outcome);
          bounded = λ c n busy. absurd (not-Busy_of_Idle (Cancels-Idle outcome) busy);
        })

  resume :
      (b : FileBuf)
      → f.buf ≡ b
      → Shaped b f.active
      → other_under_way op f ≡ false
      → Ready op f w (record f { active = op }) w
  resume (left buf) e fits same = record {
    buf = buf;
    has = e;
    guarded = continues same e;
    fits = fits;
    owns = sound.owns;
    bounded = sound.bounded;
  }
  resume (right p) e was_statx same =
      absurd (let clash : ⊥ = cc (statx_interrupted op f was_statx reads) in clash)

  pub guard_op-Ready : Returns (λ g u. Ready op f w g u) (guard_op op f w)
  unfolding guard_op
  guard_op-Ready = elim (Bool-cases (other_under_way op f)) [
    | inl other ↦ rw (open?, other) (Returns-and_then (interrupt other) λ g u r. returned r)
    | inr same ↦ rw (open?, same) (returned (resume f.buf refl sound.shaped same))
  ]
