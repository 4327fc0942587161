-- ===== src/Event/Memory.antt =====
-- The memory that an event hands to the kernel is kept until its callback runs.
use ringbahn.Base.{ℕ, refl, inl, List, [], ◌∷◌, ◌++◌, Option, none, some}
use ringbahn.Cancellation
use ringbahn.Cancellation.{Allocation, Layout, sized, nul_terminated, allocation}
use ringbahn.Cancellation.Frees.{Frees, Frees-last, Frees-append_left, Frees-append_right}
use ringbahn.Operation.{Operation}
use ringbahn.Event.{Event, operation, cancel}

abbrev from_option : Option ℕ → List ℕ
from_option none = []
from_option (some p) = p ∷ []

-- The addresses of the memory that the kernel reads or writes in an operation; of a list of buffers
-- this is the address of the list, and the buffers are inside it.
unfoldable pub pointers : Operation → List ℕ
pointers (Operation.accept fd addr flags) = from_option addr
pointers (Operation.connect fd addr) = addr ∷ []
pointers (Operation.epoll_ctl epoll_fd op fd event) = from_option event
pointers (Operation.files_update files offset) = files.address ∷ []
pointers (Operation.openat dir_fd path flags mode) = path ∷ []
pointers (Operation.provide_buffers bufs count group index) = bufs.address ∷ []
pointers (Operation.read fd buf offset) = buf.address ∷ []
pointers (Operation.read_vectored fd bufs offset) = bufs.address ∷ []
pointers (Operation.recv fd buf flags) = buf.address ∷ []
pointers (Operation.send fd buf flags) = buf.address ∷ []
pointers (Operation.statx dir_fd path flags mask buf) = path ∷ buf ∷ []
pointers (Operation.timeout ts events flags) = ts ∷ []
pointers (Operation.write fd buf offset) = buf.address ∷ []
pointers (Operation.write_vectored fd bufs offset) = bufs.address ∷ []
pointers _ = []

abbrev pub All : (ℕ → Type 0) → List ℕ → Type 0
All P [] = Unit {0}
All P (x ∷ xs) = P x × All P xs

pub All-map : {P Q : ℕ → Type 0} (xs : List ℕ) → ((x : ℕ) → P x → Q x) → All P xs → All Q xs
All-map [] f all = tt
All-map (x ∷ xs) f (p, all) = (f x p, All-map xs f all)

abbrev pub IsStatic : Event → Type 0
IsStatic (Event.static_timeout ts events flags) = Unit {0}
IsStatic _ = ⊥

module _ (inside : ℕ → List Allocation) where
  -- Whatever memory the operation of an event refers to, the callback of the event gives it back:
  -- so it is owned by the callback, and allocated, as long as the callback has not run. The memory
  -- of a static timeout is never given back, and its callback does nothing.
  pub pointers-operation :
      (e : Event)
      → ¬ IsStatic e
      → All (Frees (Cancellation.drop inside (cancel e))) (pointers (operation e))
  unfolding pointers operation cancel Cancellation.drop Cancellation.new Cancellation.from_option
  pointers-operation (Event.accept none fd flags) h = tt
  pointers-operation (Event.accept (some p) fd flags) h = (Frees-last (inside p) p _, tt)
  pointers-operation (Event.close fd) h = tt
  pointers-operation (Event.connect fd addr) h = (Frees-last (inside addr) addr _, tt)
  pointers-operation (Event.epoll_ctl epoll_fd op fd none) h = tt
  pointers-operation (Event.epoll_ctl epoll_fd op fd (some p)) h = (Frees-last (inside p) p _, tt)
  pointers-operation (Event.fadvise fd offset size flags) h = tt
  pointers-operation (Event.fallocate fd offset size flags) h = tt
  pointers-operation (Event.files_update b offset) h =
      (Frees-last (inside b.address) b.address _, tt)
  pointers-operation (Event.fsync fd flags) h = tt
  pointers-operation (Event.open_at path dir_fd flags mode) h = (inl refl, tt)
  pointers-operation (Event.provide_buffers b count group index) h =
      (Frees-last (inside b.address) b.address _, tt)
  pointers-operation (Event.remove_buffers count group) h = tt
  pointers-operation (Event.read fd b offset) h = (Frees-last (inside b.address) b.address _, tt)
  pointers-operation (Event.read_fixed fd b offset) h =
      (Frees-last (inside b.address) b.address _, tt)
  pointers-operation (Event.read_vectored fd b offset) h =
      (Frees-last (inside b.address) b.address _, tt)
  pointers-operation (Event.recv fd b flags) h = (Frees-last (inside b.address) b.address _, tt)
  pointers-operation (Event.send fd b flags) h = (Frees-last (inside b.address) b.address _, tt)
  pointers-operation (Event.splice fd_in off_in fd_out off_out bytes flags) h = tt
  pointers-operation (Event.statx dir_fd path flags mask buf) h = (
    Frees-append_right (inside buf ++ allocation buf sized ∷ [])
        (allocation path nul_terminated ∷ []) path (inl refl),
    (
      Frees-append_left (inside buf ++ allocation buf sized ∷ [])
          (allocation path nul_terminated ∷ []) buf (Frees-last (inside buf) buf sized),
      tt,
    ),
  )
  pointers-operation (Event.static_timeout ts events flags) h = absurd (h tt)
  pointers-operation (Event.timeout ts events flags) h = (Frees-last (inside ts) ts _, tt)
  pointers-operation (Event.write fd b offset) h = (Frees-last (inside b.address) b.address _, tt)
  pointers-operation (Event.write_fixed fd b offset) h =
      (Frees-last (inside b.address) b.address _, tt)
  pointers-operation (Event.write_vectored fd b offset) h =
      (Frees-last (inside b.address) b.address _, tt)
