-- ===== src/Event/Constructors/Time.antt =====
-- The time that the kernel is given for a timeout.
use ringbahn.Base.{◌<◌, ◌≤◌, ◌≡◌, refl, ◌↔◌, arith, ℤ, pos, negsuc, inl, inr, Bool-cases, ltb}
use ringbahn.Event.Constructors.{Duration, as_i64, timespec}

-- Where the seconds of a duration do not fit in 63 bits, the kernel is given a negative time.
abbrev pub IsNegative : ℤ → Type 0
IsNegative (pos n) = ⊥
IsNegative (negsuc n) = Unit {0}

-- The kernel is given exactly the duration, seconds and nanoseconds, if and only if the seconds have 63
-- bits, and otherwise a negative time.
pub timespec-eq :
    (d : Duration)
    → ((timespec d ≡ record { tv_sec = pos d.secs; tv_nsec = d.subsec_nanos })
        ↔ (d.secs < 9223372036854775808))
      × (IsNegative (timespec d).tv_sec ↔ (9223372036854775808 ≤ d.secs))
unfolding timespec as_i64
timespec-eq d = elim (Bool-cases (ltb d.secs 9223372036854775808)) [
  | inl small ↦ rw small ((λ e. ground arith, λ h. refl), (λ n. absurd n, λ h. ground arith))
  | inr large ↦ rw large ((λ e. cc, λ h. ground arith), (λ n. ground arith, λ h. tt))
]
