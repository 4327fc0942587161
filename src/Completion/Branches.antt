-- ===== src/Completion/Branches.antt =====
-- What `check`, `cancel` and `complete` do in each state in which the source expects to be called.
use ringbahn.Base.{ℕ, ◌≡◌, ◌≢◌, false, none, some, ◌++◌, ◌∷◌, arith, ap, ◌∙◌, ◌==◌, if◌then◌else◌}
use ringbahn.Cancellation
use ringbahn.Cancellation.{Cancellation}
use ringbahn.Machine.{
  World, returns, update, update-update, update_self, without, drop_callback, give_back, wake,
}
use ringbahn.Completion.Types.{
  Waker, will_wake, IoResult, State, submitted, cancelled, completed, empty,
}
use ringbahn.Completion.{
  Completion, load, store, release, check_state, cancel_state, complete_state, done, waiting, check,
  cancel, complete_completion, complete,
}

-- The completion at `a` is gone.
abbrev pub erased : World → ℕ → World
erased w a = record w { completions = update w.completions a none }

-- The completion at `a` has another state.
abbrev pub moved : World → ℕ → State → World
moved w a s = record w { completions = update w.completions a (some s) }

-- The callback has run.
abbrev pub cleaned : World → Cancellation → World
cleaned w callback = record w {
  boxes = without w.boxes (Cancellation.drop w.inside callback);
  freed = Cancellation.drop w.inside callback ++ w.freed;
}

pub load-some : (w : World) (a : ℕ) (s : State) → w.completions a ≡ some s → load a w ≡ returns s w
unfolding load
load-some w a s h = rw (h, load)

pub store-some :
    (w : World) (a : ℕ) (s t : State)
    → w.completions a ≡ some s
    → store a t w ≡ returns tt (moved w a t)
unfolding store
store-some w a s t h = rw (h, store)

pub release-some :
    (w : World) (a : ℕ) (s : State)
    → w.completions a ≡ some s
    → release a w ≡ returns tt (erased w a)
unfolding release
release-some w a s h = rw (h, release)

module _ (w : World) (a : ℕ) (s : State) where
  moved_self : (moved w a s).completions a ≡ some s
  moved_self = update_self w.completions a (some s)

  -- Once the state has been taken out, what is written next is all that is seen.
  store_taken : (t : State) → store a t (moved w a s) ≡ returns tt (moved w a t)
  store_taken t =
      store-some (moved w a s) a s t moved_self
      ∙ ap (λ f. returns tt (record w { completions = f })) (update-update w.completions a _ _)

  release_taken : release a (moved w a s) ≡ returns tt (erased w a)
  release_taken =
      release-some (moved w a s) a s moved_self
      ∙ ap (λ f. returns tt (record w { completions = f })) (update-update w.completions a _ _)

module _ (w : World) (c : Completion) where
  module _ (old : Waker) (holds : w.completions c.state ≡ some (submitted old)) where
    pub check-submitted :
        (waker : Waker)
        → check c waker w
          ≡ returns
              (waiting c)
              (moved w c.state (submitted (if will_wake old waker then old else waker)))
    unfolding check check_state
    check-submitted waker =
        rw (load-some w c.state _ holds, store-some w c.state _ empty holds)
          (rw
            (store_taken w c.state empty (submitted (if will_wake old waker then old else waker))))

    pub cancel-submitted :
        (callback : Cancellation)
        → cancel c callback w ≡ returns tt (moved w c.state (cancelled callback))
    unfolding cancel cancel_state
    cancel-submitted callback =
        rw (load-some w c.state _ holds) (store-some w c.state _ (cancelled callback) holds)

  module _ (result : IoResult ℕ) (holds : w.completions c.state ≡ some (completed result)) where
    pub check-completed :
        (waker : Waker) → check c waker w ≡ returns (done result) (erased w c.state)
    unfolding check check_state
    check-completed waker =
        rw (load-some w c.state _ holds, store-some w c.state _ empty holds)
          (rw (release_taken w c.state empty))

    pub cancel-completed :
        (callback : Cancellation)
        → cancel c callback w ≡ returns tt (erased (cleaned w callback) c.state)
    unfolding cancel cancel_state drop_callback give_back
    cancel-completed callback =
        rw (load-some w c.state _ holds)
          (release-some (cleaned w callback) c.state (completed result) holds)

module _ (w : World) (a : ℕ) (result : IoResult ℕ) (ne : a ≢ 0) where
  not_null : (a == 0) ≡ false
  not_null = ground arith

  pub complete-submitted :
      (waker : Waker)
      → w.completions a ≡ some (submitted waker)
      → complete result a w
        ≡ returns tt (record (moved w a (completed result)) { woken = waker ∷ w.woken })
  unfolding complete complete_completion complete_state wake
  complete-submitted waker holds =
      rw (not_null, load-some w a _ holds, store-some w a _ empty holds)
        (rw (store_taken w a empty (completed result)))

  pub complete-cancelled :
      (callback : Cancellation)
      → w.completions a ≡ some (cancelled callback)
      → complete result a w ≡ returns tt (erased (cleaned w callback) a)
  unfolding complete complete_completion complete_state drop_callback give_back
  complete-cancelled callback holds =
      rw (not_null, load-some w a _ holds, store-some w a _ empty holds)
        (release_taken (cleaned w callback) a empty)
