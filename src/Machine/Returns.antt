-- ===== src/Machine/Returns.antt =====
-- Total correctness of a run: it returns, with a result and a memory of which `P` holds.
use mathlib.Core.Path.{◌≡◌, refl}
use ringbahn.Machine.{World, Run, returns, Cmd, and_then}

pub data Returns {A : Type 0} (P : A → World → Type 0) : Run A → Type 0 where
  returned : {a : A} {w : World} → P a w → Returns P (returns a w)

module _ {A : Type 0} {P : A → World → Type 0} where
  pub Returns-and_then :
      {B : Type 0} {Q : B → World → Type 0} {m : Run A} {k : A → Cmd B}
      → Returns P m
      → ((a : A) (w : World) → P a w → Returns Q (k a w))
      → Returns Q (and_then m k)
  Returns-and_then (returned p) next = next _ _ p

  pub Returns-map :
      {Q : A → World → Type 0} {m : Run A}
      → Returns P m
      → ((a : A) (w : World) → P a w → Q a w)
      → Returns Q m
  Returns-map (returned p) weaken = returned (weaken _ _ p)

  -- the result, the memory, and what holds of them
  pub outcome : {m : Run A} → Returns P m → (a : A) × (w : World) × (m ≡ returns a w) × P a w
  outcome (returned {a} {w} p) = (a, w, refl, p)
