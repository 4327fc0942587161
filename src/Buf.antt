-- ===== src/Buf.antt =====
-- src/buf.rs: the buffer of a file or a stream, of which a part `pos..cap` holds data.
pub mod Fits
pub mod Fill
use ringbahn.Base.{
  ℕ, ◌+◌, ◌-◌, ◌*◌, min, List, Option, none, some, replicate, leb, if◌then◌else◌, u32,
}
use mathlib.Core.Option
use ringbahn.Cancellation
use ringbahn.Cancellation.{Cancellation, Object}
use ringbahn.Operation.{BoxedSlice, whole, Slice}
use ringbahn.Machine.{
  World, Cmd, returns, pure, panic, out_of_range, ◌>>=◌, Poll, pending, ready, update,
}
use ringbahn.Completion.Types.{IoResult, ok, err}

pub record Buffer : Type 0 where
  pub contents : Option BoxedSlice
  pub pos : ℕ
  pub cap : ℕ

-- `Buffer::default()`
abbrev pub default : Buffer
default = record { contents = none; pos = 0; cap = 0 }

-- `&[]`
abbrev pub empty_slice : Slice
empty_slice = record { address = 0; start = 0; len = 0 }

-- `&data[i..j]`
unfoldable pub slice_of : BoxedSlice → ℕ → ℕ → Cmd Slice
slice_of b i j =
    if leb i j
    then (if leb j b.len
        then pure (record { address = b.address; start = i; len = j - i })
        else panic out_of_range)
    else panic out_of_range

-- by cases on `data`
unfoldable pub buffered_in : Option BoxedSlice → ℕ → ℕ → Cmd Slice
unfolding slice_of
buffered_in none pos cap = pure empty_slice
buffered_in (some b) pos cap = slice_of b pos cap

unfoldable pub buffered_from_read : Buffer → Cmd Slice
unfolding buffered_in
buffered_from_read buf = buffered_in buf.contents buf.pos buf.cap

abbrev pub capacity : ℕ
capacity = 4096 * 2

-- `vec![0; CAPACITY].into_boxed_slice()`, where the allocator answers with `fresh`
unfoldable pub allocate : (fresh : ℕ) → Cmd BoxedSlice
allocate fresh w =
    returns (record { address = fresh; len = capacity })
      (record w { boxes = update w.boxes fresh (some (replicate capacity 0)) })

-- the box that is filled: a new one, where there is none
unfoldable pub box_in : (fresh : ℕ) → Option BoxedSlice → Cmd BoxedSlice
unfolding allocate
box_in fresh none = allocate fresh
box_in fresh (some b) = pure b

-- What `fill_buf` makes of the answer of its closure: `ready!` and `?` leave it early. `C` is the
-- state that the closure captures and changes.
unfoldable pub filled :
    {C : Type 0} → C → Buffer → Poll (IoResult ℕ) → Cmd (C × Buffer × Poll (IoResult Slice))
unfolding buffered_from_read
filled c buf pending = pure (c, buf, pending)
filled c buf (ready (err e)) = pure (c, buf, ready (err e))
filled c buf (ready (ok n)) = do
  let buf' = record buf { cap = n; pos = 0 }
  s ← buffered_from_read buf'
  pure (c, buf', ready (ok s))

unfoldable pub refill :
    {C : Type 0}
    → (fresh : ℕ) → (C → Slice → Cmd (C × Poll (IoResult ℕ)))
    → C
    → Buffer
    → Cmd (C × Buffer × Poll (IoResult Slice))
unfolding box_in filled
refill fresh fill c buf = do
  b ← box_in fresh buf.contents
  (c', answer) ← fill c (whole b)
  filled c' (record buf { contents = some b }) answer

unfoldable pub fill_buf :
    {C : Type 0}
    → (fresh : ℕ) → (C → Slice → Cmd (C × Poll (IoResult ℕ)))
    → C
    → Buffer
    → Cmd (C × Buffer × Poll (IoResult Slice))
unfolding refill buffered_from_read
fill_buf fresh fill c buf =
    if leb buf.cap buf.pos
    then refill fresh fill c buf
    else do s ← buffered_from_read buf; pure (c, buf, ready (ok s))

-- `self.pos + amt as u32` wraps where overflow is not checked.
unfoldable pub consume : ℕ → Buffer → Buffer
consume amt buf = record buf { pos = min (u32 (buf.pos + u32 amt)) buf.cap }

unfoldable pub clear : Buffer → Buffer
clear buf = record buf { pos = 0; cap = 0 }

-- `Cancellation::from(Option<Box<[u8]>>)`
unfoldable pub contents_cancellation : Option BoxedSlice → Cancellation
contents_cancellation b =
    Cancellation.from_option (Option.map (λ b. Object.boxed_slice b.address b.len) b)

-- `From<Buffer> for Cancellation`, by `into_boxed_slice`
unfoldable pub into_cancellation : Buffer → Cancellation
unfolding contents_cancellation
into_cancellation buf = contents_cancellation buf.contents

-- `Buffer::cancellation` takes the box out, and leaves `pos` and `cap`.
unfoldable pub cancellation : Buffer → Buffer × Cancellation
unfolding contents_cancellation
cancellation buf = (record buf { contents = none }, contents_cancellation buf.contents)
