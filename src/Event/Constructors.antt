-- ===== src/Event/Constructors.antt =====
-- src/event/openat.rs, statx.rs and timeout.rs: the functions that make an event, and with it the memory
-- that its operation refers to.
pub mod Time
use ringbahn.Base.{
  ℕ, ◌-◌, Bool, true, false, List, [], ◌∷◌, ◌++◌, Option, none, some, ltb, ◌==◌, ◌||◌,
  if◌then◌else◌, ℤ, pos, negsuc,
}
use ringbahn.Machine.{Cmd, pure, panic, unwrap_none, returns, ◌>>=◌, ◌>>◌, update}
use ringbahn.Event
use ringbahn.Event.{Event}

-- Of the C library: the file descriptor `AT_FDCWD`, the flag `AT_EMPTY_PATH` with its union with other
-- flags, and what a zeroed `statx` and a time of the kernel hold.
pub record Libc : Type 0 where
  pub at_fdcwd : ℕ
  pub with_empty_path : ℕ → ℕ
  pub zeroed_statx : List ℕ
  pub timespec_bytes : ℤ → ℕ → List ℕ

-- `std::time::Duration`: seconds, a `u64`, and nanoseconds, less than a second
pub record Duration : Type 0 where
  pub secs : ℕ
  pub subsec_nanos : ℕ

-- `__kernel_timespec`, whose seconds are an `i64`
pub record Timespec : Type 0 where
  pub tv_sec : ℤ
  pub tv_nsec : ℕ

-- `as i64` of a `u64`
unfoldable pub as_i64 : ℕ → ℤ
as_i64 n = if ltb n 9223372036854775808 then pos n else negsuc (18446744073709551615 - n)

unfoldable pub timespec : Duration → Timespec
unfolding as_i64
timespec d = record { tv_sec = as_i64 d.secs; tv_nsec = d.subsec_nanos }

-- `StaticTimeout`, which the program keeps for its whole life, and `StaticTimeout::new`
pub record StaticTimeout : Type 0 where
  pub ts : Timespec
  pub events : ℕ
  pub flags : ℕ

unfoldable pub new_static_timeout : Duration → (events flags : ℕ) → StaticTimeout
unfolding timespec
new_static_timeout duration events flags = record {
  ts = timespec duration;
  events = events;
  flags = flags;
}

-- `Box::new`, where the allocator answers with `fresh`
unfoldable pub box : (fresh : ℕ) → List ℕ → Cmd ℕ
box fresh bytes w = returns fresh (record w { boxes = update w.boxes fresh (some bytes) })

unfoldable pub has_nul : List ℕ → Bool
has_nul [] = false
has_nul (b ∷ bytes) = b == 0 || has_nul bytes

-- `CString::new(bytes).unwrap()`: a text with a NUL inside is refused.
unfoldable pub c_string : (fresh : ℕ) → List ℕ → Cmd ℕ
unfolding has_nul box
c_string fresh bytes = if has_nul bytes then panic unwrap_none else box fresh (bytes ++ 0 ∷ [])

module _ (libc : Libc) where
  open libc use {at_fdcwd, with_empty_path, zeroed_statx, timespec_bytes}

  -- `OpenAt::without_dir`
  unfoldable pub open_without_dir : (fresh : ℕ) (path : List ℕ) (flags mode : ℕ) → Cmd Event
  unfolding c_string
  open_without_dir fresh path flags mode = do
    p ← c_string fresh path
    pure (Event.open_at p at_fdcwd flags mode)

  -- `Statx::without_dir`; the allocator answers with one address for the path and one for the box.
  unfoldable pub statx_without_dir :
      (fresh_path fresh_statx : ℕ) (path : List ℕ) (flags mask : ℕ) → Cmd Event
  unfolding c_string box
  statx_without_dir fresh_path fresh_statx path flags mask = do
    p ← c_string fresh_path path
    s ← box fresh_statx zeroed_statx
    pure (Event.statx at_fdcwd p flags mask s)

  -- `Statx::without_path`
  unfoldable pub statx_without_path : (fresh_path fresh_statx fd flags mask : ℕ) → Cmd Event
  unfolding c_string box
  statx_without_path fresh_path fresh_statx fd flags mask = do
    p ← c_string fresh_path []
    s ← box fresh_statx zeroed_statx
    pure (Event.statx fd p (with_empty_path flags) mask s)

  -- `Timeout::new`
  unfoldable pub new_timeout : (fresh : ℕ) → Duration → (events flags : ℕ) → Cmd Event
  unfolding box timespec
  new_timeout fresh duration events flags = do
    let ts = timespec duration
    p ← box fresh (timespec_bytes ts.tv_sec ts.tv_nsec)
    pure (Event.timeout p events flags)
