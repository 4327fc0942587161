-- ===== src/Tests/Ready.antt =====
-- A driver that is always ready, in the place of one that users write, and an empty memory.
use ringbahn.Base.{ℕ, zero, suc, refl, Option, none, some, [], arith}
use ringbahn.Machine.{World, returns, ready}
use ringbahn.Completion.Types.{Waker, ok}
use ringbahn.Drive.{Context, Drive, offered}
use ringbahn.Drive.Spares.{Spares-refl}
use ringbahn.Drive.Conforms.{Conforms, Suffices, offers, same}

-- An iterator over queue entries is the number of entries left in it.
abbrev pub next : ℕ → Option ℕ
next zero = none
next (suc n) = some n

abbrev pub ready_driver : Drive
ready_driver = record {
  Driver = Unit {0};
  Sqes = ℕ;
  poll_prepare = λ ctx count d w. returns (offered count, d) w;
  poll_submit = λ ctx d w. returns (ready (ok 0), d) w;
  next_hard_linked = next;
  single = next;
  clone = λ d. d;
}

enough : (count : ℕ) → Suffices ready_driver count count
enough zero = record { one = λ h. absurd (omega arith); two = λ h. absurd (omega arith) }
enough (suc zero) = record { one = λ h. (0, refl); two = λ h. absurd (omega arith) }
enough (suc (suc n)) = record { one = λ h. (suc n, refl); two = λ h. (suc n, n, refl, refl) }

pub ready_driver-Conforms : Conforms ready_driver
ready_driver-Conforms = record {
  limit = 32;
  enough = omega arith;
  small = omega arith;
  prepares = λ ctx count d w fits. (
    offered count,
    d,
    w,
    refl,
    offers (enough count),
    record { completions = λ a. same; queue = refl; spares = Spares-refl _ },
  );
  submits = λ ctx d w. (
    ready (ok 0),
    d,
    w,
    refl,
    record { completions = λ a. same; queue = refl; spares = Spares-refl _ },
  );
}

abbrev pub start : World
start = record {
  completions = λ _. none;
  boxes = λ _. none;
  inside = λ _. [];
  queue = [];
  submitted = 0;
  woken = [];
  freed = [];
  closed = [];
}

abbrev pub task : Waker
task = record { pointer = 7; vtable = 1 }

abbrev pub ctx : Context
ctx = record { waker = task; fresh = 64; fresh_box = 4096 }
