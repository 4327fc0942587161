-- ===== src/Machine.antt =====
-- The state that the program shares with the kernel, and the commands over it.
pub mod Returns
use mathlib.Core.Path.{fun_ext}
use ringbahn.Base.{
  min, length, take, drop, ◌≡◌, ◌≢◌, arith, ℕ, List, [], ◌∷◌, ◌++◌, Option, none, some, ◌==◌,
  if◌then◌else◌,
}
use ringbahn.Cancellation
use ringbahn.Cancellation.{Allocation, Cancellation}
use ringbahn.Operation.{Slice, Sqe}
use ringbahn.Completion.Types.{Waker, State}

-- `completions` are the boxes `Box<Mutex<State>>`, by address; `boxes` the byte buffers. `inside`
-- says what a value in memory owns in turn. The lists are histories, newest first: the entries put
-- on the submission queue, the wakers woken, the memory given back and the descriptors closed.
-- `submitted` counts the entries of the queue that the kernel has been given, the oldest first.
pub record World : Type 0 where
  pub completions : ℕ → Option State
  pub boxes : ℕ → Option (List ℕ)
  pub inside : ℕ → List Allocation
  pub queue : List Sqe
  pub submitted : ℕ
  pub woken : List Waker
  pub freed : List Allocation
  pub closed : List ℕ

-- Why a call panics.
pub data Panic : Type 0 where
  unreachable bad_ring_state unwrap_none out_of_range : Panic
  closed_object polled_after_completion unexpected_family debug_assertion : Panic
  printing_failed : Panic

-- A run panics, or it goes through a dangling pointer, or it returns; or a loop has not come to its end
-- when the fuel that it has been given is used up.
pub data Run (A : Type 0) : Type 0 where
  returns : A → World → Run A
  panics : Panic → Run A
  faults : Run A
  out_of_fuel : Run A

abbrev pub Cmd : Type 0 → Type 0
Cmd A = World → Run A

abbrev pub pure : {A : Type 0} → A → Cmd A
pure = returns

abbrev pub panic : {A : Type 0} → Panic → Cmd A
panic p w = panics p

module _ {A B : Type 0} where
  abbrev pub and_then : Run A → (A → Cmd B) → Run B
  and_then (returns a w) k = k a w
  and_then (panics p) k = panics p
  and_then faults k = faults
  and_then out_of_fuel k = out_of_fuel

  infixl 5 ◌>>=◌ ◌>>◌
  abbrev pub ◌>>=◌ : Cmd A → (A → Cmd B) → Cmd B
  m >>= k = λ w. and_then (m w) k

  abbrev pub ◌>>◌ : Cmd A → Cmd B → Cmd B
  m >> n = m >>= λ _. n

pub data Poll (A : Type 0) : Type 0 where
  pending : Poll A
  ready : A → Poll A

-- A map with the value at one address changed.
abbrev pub update {ℓ} : {A : Type ℓ} → (ℕ → A) → ℕ → A → ℕ → A
update f p v q = if q == p then v else f q

pub update-update {ℓ} :
    {A : Type ℓ} (f : ℕ → A) (p : ℕ) (u v : A) → update (update f p u) p v ≡ update f p v
update-update f p u v = fun_ext λ q. ground arith

pub update_self {ℓ} : {A : Type ℓ} (f : ℕ → A) (p : ℕ) (u : A) → update f p u p ≡ u
update_self f p u = ground arith

pub update_other {ℓ} : {A : Type ℓ} (f : ℕ → A) (p q : ℕ) (u : A) → p ≢ q → update f p u q ≡ f q
update_other f p q u ne = ground arith

-- The bytes of a slice, which a slice of no bytes has wherever it points.
unfoldable pub load_slice : Slice → Cmd (List ℕ)
load_slice s w = if s.len == 0 then returns [] w else elim (w.boxes s.address) [
  | none ↦ faults
  | some bytes ↦ returns (take s.len (drop s.start bytes)) w
]

-- `io::Write::write` into a whole box: as many bytes as it has room for; their number is returned.
unfoldable pub copy_into : Slice → List ℕ → Cmd ℕ
copy_into s bytes w = elim (w.boxes s.address) [
  | none ↦ faults
  | some old ↦
      let n = min s.len (length bytes) in
      returns n (record w { boxes = update w.boxes s.address (some (take n bytes ++ drop n old)) })
]

-- `Option::unwrap`
unfoldable pub unwrap : {A : Type 0} → Option A → Cmd A
unwrap none = panic unwrap_none
unwrap (some a) = pure a

-- The boxes at the given addresses are gone.
unfoldable pub without : (ℕ → Option (List ℕ)) → List Allocation → ℕ → Option (List ℕ)
without boxes [] = boxes
without boxes (a ∷ rest) = without (update boxes a.address none) rest

-- Gives memory back to the allocator.
unfoldable pub give_back : List Allocation → Cmd (Unit {0})
unfolding without
give_back gone w = returns tt (record w { boxes = without w.boxes gone; freed = gone ++ w.freed })

-- `drop` of a cancellation callback
unfoldable pub drop_callback : Cancellation → Cmd (Unit {0})
unfolding give_back
drop_callback c w = give_back (Cancellation.drop w.inside c) w

unfoldable pub wake : Waker → Cmd (Unit {0})
wake waker w = returns tt (record w { woken = waker ∷ w.woken })

unfoldable pub push_sqe : Sqe → Cmd (Unit {0})
push_sqe s w = returns tt (record w { queue = s ∷ w.queue })

-- `libc::close`
unfoldable pub close_fd : ℕ → Cmd (Unit {0})
close_fd fd w = returns tt (record w { closed = fd ∷ w.closed })
