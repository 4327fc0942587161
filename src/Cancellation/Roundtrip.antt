-- ===== src/Cancellation/Roundtrip.antt =====
-- A callback gives back what the object that it was made from owns.
use ringbahn.Base.{ℕ, ◌≡◌, refl, List, [], ◌∷◌, ◌++◌}
use ringbahn.Cancellation.{
  Allocation, allocation, sized, slice, dynamic, nul_terminated, Narrow, Object, narrow_into_raw,
  drop_raw, narrow_glue, new, drop,
}

narrow_owned : (ℕ → List Allocation) → Narrow → List Allocation
narrow_owned inside (Narrow.boxed p) = inside p ++ allocation p sized ∷ []
narrow_owned inside (Narrow.c_string p) = allocation p nul_terminated ∷ []

-- The memory that a value owns, without regard to how a callback stores it.
unfoldable pub owned : (inside : ℕ → List Allocation) → Object → List Allocation
unfolding narrow_owned
owned inside (Object.boxed p) = inside p ++ allocation p sized ∷ []
owned inside (Object.boxed_slice p len) = inside p ++ allocation p (slice len) ∷ []
owned inside (Object.boxed_any p vtable) = inside p ++ allocation p (dynamic vtable) ∷ []
owned inside (Object.registered_buf p len) = inside p ++ allocation p (slice len) ∷ []
owned inside (Object.c_string p) = allocation p nul_terminated ∷ []
owned inside Object.unit = []
owned inside (Object.pair l r) = narrow_owned inside l ++ narrow_owned inside r

narrow_lem :
    (inside : ℕ → List Allocation) (n : Narrow)
    → drop_raw inside (narrow_glue n) (narrow_into_raw n).0 0 ≡ narrow_owned inside n
unfolding drop_raw narrow_glue narrow_into_raw narrow_owned
narrow_lem inside (Narrow.boxed p) = refl
narrow_lem inside (Narrow.c_string p) = refl

-- Running the callback made from a value gives back exactly the memory that the value owns, each
-- piece with the layout it was allocated with; a pair loses neither of its parts.
pub drop-new : (inside : ℕ → List Allocation) (o : Object) → drop inside (new o) ≡ owned inside o
unfolding drop new owned
drop-new inside (Object.boxed p) = refl
drop-new inside (Object.boxed_slice p len) = refl
drop-new inside (Object.boxed_any p vtable) = refl
drop-new inside (Object.registered_buf p len) = refl
drop-new inside (Object.c_string p) = refl
drop-new inside Object.unit = refl
drop-new inside (Object.pair l r) = rw (narrow_lem inside l, narrow_lem inside r)
