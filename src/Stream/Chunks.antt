-- ===== src/Stream/Chunks.antt =====
-- Reading the data that a stream holds, piece by piece.
use ringbahn.Base.{
  ℕ, ◌-◌, ◌<◌, ◌≡◌, refl, sym, ◌∙◌, ap, subst, List, [], ◌∷◌, ◌++◌, some, flatten, append_assoc,
  length, take, drop, length-take, take-drop, arith,
}
use ringbahn.Operation.{BoxedSlice}
use ringbahn.Machine.{World, Cmd, pure, ◌>>=◌, Poll, pending, ready}
use ringbahn.Machine.Returns.{Returns, returned, Returns-and_then}
use ringbahn.Completion.Types.{IoResult, ok, err}
use ringbahn.Drive.{Context, Drive}
use ringbahn.Ring.{Ring}
use ringbahn.Buf.Fits.{Within}
use ringbahn.Stream.{TcpStream, poll_read}
use ringbahn.Stream.Held.{between, holding, poll_read-held}

-- A task that reads again and again, with room for so many bytes each time, until a read gives none.
unfoldable pub go_on :
    {S : Type 0}
    → (S → Cmd (S × List (List ℕ)))
    → S
    → Poll (IoResult (List ℕ))
    → Cmd (S × List (List ℕ))
go_on next s pending = pure (s, [])
go_on next s (ready (err e)) = pure (s, [])
go_on next s (ready (ok piece)) = do (s', pieces) ← next s; pure (s', piece ∷ pieces)

unfoldable pub reads :
    (D : Drive) → Context → List ℕ → TcpStream D.Driver → Cmd (TcpStream D.Driver × List (List ℕ))
unfolding go_on
reads D ctx [] s = pure (s, [])
reads D ctx (len ∷ lens) s = do (s', p) ← poll_read D ctx len s; go_on (reads D ctx lens) s' p

-- The data cut into pieces of at most these lengths.
abbrev pub chunks : List ℕ → List ℕ → List (List ℕ)
chunks [] bytes = []
chunks (len ∷ lens) bytes = take len bytes ∷ chunks lens (drop len bytes)

-- There is data left before each of the reads.
abbrev pub IsShort : List ℕ → List ℕ → Type 0
IsShort [] bytes = Unit {0}
IsShort (len ∷ lens) bytes = (0 < length bytes) × IsShort lens (drop len bytes)

module _ (D : Drive) (ctx : Context) (ring : Ring D.Driver) (fd : ℕ) (b : BoxedSlice) (cap : ℕ)
    (w : World) (bytes : List ℕ) (within : Within cap (some b)) (small : cap < 4294967296)
    (holds : w.boxes b.address ≡ some bytes) (whole_box : length bytes ≡ b.len) where
  more_of_length : (pos : ℕ) → 0 < length (between pos cap bytes) → pos < cap
  more_of_length pos h = let e = length-take (cap - pos) (drop pos bytes) in ground arith

  -- What a task that reads from a stream with data in its buffer is given, read by read, whatever room it
  -- has each time: the data, cut into pieces as long as there is room for, in order, and the pieces with
  -- what is left in the buffer are the data, so that no byte is lost or given twice. No read calls the
  -- driver or changes the memory.
  pub reads-chunks :
      (pos : ℕ) (lens : List ℕ)
      → IsShort lens (between pos cap bytes)
      → Returns
          (λ (s, pieces) v.
            (v ≡ w)
            × (pieces ≡ chunks lens (between pos cap bytes))
            × (flatten pieces ++ between s.buf.pos cap bytes ≡ between pos cap bytes)
            × (s ≡ holding ring fd b s.buf.pos cap))
          (reads D ctx lens (holding ring fd b pos cap) w)
  unfolding reads flatten
  reads-chunks pos [] short = returned (refl, refl, refl, refl)
  reads-chunks pos (len ∷ lens) (there, short) =
      let more : pos < cap = more_of_length pos there in
      let (s, e, shape, left) =
        poll_read-held D ctx ring fd b pos cap w bytes
          (record { ordered = omega arith; within = within; small = small }) more holds whole_box
          len in
      let rest = between pos cap bytes in
      let next =
        subst
          (λ t.
            Returns
              (λ (s', pieces) v.
                (v ≡ w)
                × (pieces ≡ chunks lens (between s.buf.pos cap bytes))
                × (flatten pieces ++ between s'.buf.pos cap bytes ≡ between s.buf.pos cap bytes)
                × (s' ≡ holding ring fd b s'.buf.pos cap))
              (reads D ctx lens t w))
          (sym shape) (reads-chunks s.buf.pos lens (subst (IsShort lens) (sym left) short)) in
      rw e (
        Returns-and_then next λ (s', pieces) v (same, cut, all, shape'). returned (
          same,
          ap (λ x. take len rest ∷ x) (cut ∙ ap (chunks lens) left),
          append_assoc (take len rest) (flatten pieces) (between s'.buf.pos cap bytes)
              ∙ ap (λ x. take len rest ++ x) (all ∙ left)
              ∙ take-drop len rest,
          shape',
        ))
