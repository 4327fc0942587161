-- ===== src/Tests/Held.antt =====
-- A stream with data in its buffer.
use ringbahn.Base.{
  ℕ, ◌≡◌, refl, some, List, [], ◌∷◌, ◌++◌, flatten, replicate, length, length-replicate, arith,
}
use ringbahn.Operation.{BoxedSlice}
use ringbahn.Machine.{World, update}
use ringbahn.Ring.{Ring, inert}
use ringbahn.Stream.Held.{between, holding}
use ringbahn.Stream.Chunks.{reads, reads-chunks}
use ringbahn.Machine.Returns.{Returns}
use ringbahn.Tests.Ready.{ready_driver, start, ctx}

abbrev idle : Ring (Unit {0})
idle = record { state = inert; driver = tt }

abbrev box : BoxedSlice
box = record { address = 4096; len = 8192 }

-- ten bytes that were read, and the rest of the box
abbrev bytes : List ℕ
bytes = 0 ∷ 1 ∷ 2 ∷ 3 ∷ 4 ∷ 5 ∷ 6 ∷ 7 ∷ 8 ∷ 9 ∷ replicate 8182 0

length-bytes : length bytes ≡ 8192
length-bytes = omega (arith, length-replicate {A = ℕ} 8182 0)

abbrev memory : World
memory = record start { boxes = update start.boxes 4096 (some bytes) }

reads-chunks_example :
    Returns
      (λ (s, pieces) v.
        (v ≡ memory)
        × (pieces ≡ (4 ∷ 5 ∷ 6 ∷ 7 ∷ []) ∷ (8 ∷ []) ∷ (9 ∷ []) ∷ [])
        × (flatten pieces ++ between s.buf.pos 10 bytes ≡ between 4 10 bytes)
        × (s ≡ holding idle 3 box s.buf.pos 10))
      (reads ready_driver ctx (4 ∷ 1 ∷ 100 ∷ []) (holding idle 3 box 4 10) memory)
reads-chunks_example =
    reads-chunks ready_driver ctx idle 3 box 10 memory bytes (omega arith, refl) (omega arith) refl
      length-bytes 4 (4 ∷ 1 ∷ 100 ∷ []) (omega arith, (omega arith, (omega arith, tt)))
