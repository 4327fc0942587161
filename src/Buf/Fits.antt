-- ===== src/Buf/Fits.antt =====
-- The data in a buffer lies within its box, and consuming it moves its start.
use ringbahn.Base.{ℕ, ◌+◌, ◌-◌, ◌≤◌, ◌<◌, ◌≡◌, Option, none, some, arith, refl}
use ringbahn.Operation.{BoxedSlice}
use ringbahn.Buf.{Buffer, capacity, consume}

-- The end of the data is within the box, or within the one that is made if there is none; every
-- box has the same capacity.
abbrev pub Within : ℕ → Option BoxedSlice → Type 0
Within cap none = cap ≤ capacity
Within cap (some b) = (cap ≤ b.len) × (b.len ≡ capacity)

pub record Fits (buf : Buffer) : Type 0 where
  pub ordered : buf.pos ≤ buf.cap
  pub within : Within buf.cap buf.contents
  pub small : buf.cap < 4294967296

-- How many bytes have not been consumed.
abbrev pub unread : Buffer → ℕ
unread buf = buf.cap - buf.pos

-- Consuming keeps the data within the box, changes nothing but the start, and leaves as many bytes
-- unread as there were, less those consumed (none, if more are consumed than there are), provided
-- that the count and the new start are numbers of 32 bits.
pub consume-Fits :
    (amt : ℕ) (buf : Buffer)
    → Fits buf
    → buf.pos + amt < 4294967296
    → Fits (consume amt buf)
      × (unread (consume amt buf) ≡ unread buf - amt)
      × ((consume amt buf).contents ≡ buf.contents)
unfolding consume
consume-Fits amt buf f h =
    (record { ordered = omega arith; within = f.within; small = f.small }, omega arith, refl)
