-- ===== src/Cancellation.antt =====
-- src/ring/cancellation.rs: the callback that cleans up the resources of a cancelled event.
-- A value that implements `Cancel` is an `Object`, and the implementation's `drop_raw`, to which
-- the callback keeps a function pointer, is named by a `Glue`.
pub mod Roundtrip
pub mod Frees
use ringbahn.Base.{ℕ, List, [], ◌∷◌, ◌++◌, Option, none, some}

-- With what layout a piece of memory was allocated, and has to be given back.
pub data Layout : Type 0 where
  sized : Layout
  slice : ℕ → Layout
  dynamic : ℕ → Layout
  nul_terminated : Layout

pub record Allocation : Type 0 where
  pub address : ℕ
  pub layout : Layout

abbrev pub allocation : ℕ → Layout → Allocation
allocation a l = record { address = a; layout = l }

-- The values that implement `CancelNarrow`: a `Box<T>` and a `CString`, by their addresses.
pub data Narrow : Type 0 where
  boxed : ℕ → Narrow
  c_string : ℕ → Narrow

-- The values that implement `Cancel`: `Box<T>`, `Box<[T]>` with its length, `Box<dyn Any>` with its
-- vtable, a registered buffer (a `Box<[u8]>` inside), `CString`, `()` and a pair of narrow ones.
pub data Object : Type 0 where
  boxed : ℕ → Object
  boxed_slice : ℕ → ℕ → Object
  boxed_any : ℕ → ℕ → Object
  registered_buf : ℕ → ℕ → Object
  c_string : ℕ → Object
  unit : Object
  pair : Narrow → Narrow → Object

-- The implementations of `drop_raw`.
pub data Glue : Type 0 where
  boxed : Glue
  boxed_slice : Glue
  boxed_any : Glue
  registered_buf : Glue
  c_string : Glue
  unit : Glue
  pair : Glue → Glue → Glue

-- `Cancel::into_raw` for the two narrow types.
unfoldable pub narrow_into_raw : Narrow → ℕ × ℕ
narrow_into_raw (Narrow.boxed p) = (p, 0)
narrow_into_raw (Narrow.c_string p) = (p, 0)

unfoldable pub into_raw : Object → ℕ × ℕ
unfolding narrow_into_raw
into_raw (Object.boxed p) = (p, 0)
into_raw (Object.boxed_slice p len) = (p, len)
into_raw (Object.boxed_any p vtable) = (p, vtable)
into_raw (Object.registered_buf p len) = (p, len)
into_raw (Object.c_string p) = (p, 0)
into_raw Object.unit = (0, 0)
into_raw (Object.pair l r) = ((narrow_into_raw l).0, (narrow_into_raw r).0)

-- `Box::<[T]>::drop_raw`, which also serves a registered buffer.
unfoldable pub drop_slice : (inside : ℕ → List Allocation) → ℕ → ℕ → List Allocation
drop_slice inside p len = inside p ++ allocation p (slice len) ∷ []

-- What `drop_raw` gives back to the allocator. `inside a` is what the value that is stored at `a`
-- owns in turn, which its own destructor gives back first.
unfoldable pub drop_raw : (inside : ℕ → List Allocation) → Glue → ℕ → ℕ → List Allocation
unfolding drop_slice
drop_raw inside Glue.boxed p _ = inside p ++ allocation p sized ∷ []
drop_raw inside Glue.boxed_slice p len = drop_slice inside p len
drop_raw inside Glue.boxed_any p vtable = inside p ++ allocation p (dynamic vtable) ∷ []
drop_raw inside Glue.registered_buf p len = drop_slice inside p len
drop_raw inside Glue.c_string p _ = allocation p nul_terminated ∷ []
drop_raw inside Glue.unit _ _ = []
drop_raw inside (Glue.pair t u) p metadata = drop_raw inside t p 0 ++ drop_raw inside u metadata 0

unfoldable pub narrow_glue : Narrow → Glue
narrow_glue (Narrow.boxed p) = Glue.boxed
narrow_glue (Narrow.c_string p) = Glue.c_string

-- The type of a value decides which `drop_raw` its callback holds.
unfoldable pub glue : Object → Glue
unfolding narrow_glue
glue (Object.boxed p) = Glue.boxed
glue (Object.boxed_slice p len) = Glue.boxed_slice
glue (Object.boxed_any p vtable) = Glue.boxed_any
glue (Object.registered_buf p len) = Glue.registered_buf
glue (Object.c_string p) = Glue.c_string
glue Object.unit = Glue.unit
glue (Object.pair l r) = Glue.pair (narrow_glue l) (narrow_glue r)

pub record Cancellation : Type 0 where
  pub pointer : ℕ
  pub metadata : ℕ
  pub callback : Glue

unfoldable pub new : Object → Cancellation
unfolding into_raw glue
new o = record { pointer = (into_raw o).0; metadata = (into_raw o).1; callback = glue o }

-- `From<Option<T>>`: nothing to clean up where there is no value.
unfoldable pub from_option : Option Object → Cancellation
unfolding new
from_option none = new Object.unit
from_option (some o) = new o

-- `Drop`: what running the callback gives back to the allocator.
unfoldable pub drop : (inside : ℕ → List Allocation) → Cancellation → List Allocation
unfolding drop_raw
drop inside c = drop_raw inside c.callback c.pointer c.metadata
