-- ===== src/Cancellation/Frees.antt =====
-- Which memory a list of allocations gives back.
use ringbahn.Base.{ℕ, ◌≡◌, refl, ◌⊎◌, inl, inr, List, [], ◌∷◌, ◌++◌}
use ringbahn.Cancellation.{Allocation, Layout, allocation}

-- The memory at the address is among what is given back.
abbrev pub Frees : List Allocation → ℕ → Type 0
Frees [] p = ⊥
Frees (a ∷ rest) p = (a.address ≡ p) ⊎ Frees rest p

pub Frees-last : (xs : List Allocation) (p : ℕ) (l : Layout) → Frees (xs ++ allocation p l ∷ []) p
Frees-last [] p l = inl refl
Frees-last (x ∷ xs) p l = inr (Frees-last xs p l)

pub Frees-only :
    (xs : List Allocation) (p x : ℕ) (l : Layout)
    → xs ≡ []
    → Frees (xs ++ allocation p l ∷ []) x
    → p ≡ x
Frees-only [] p x l e (inl q) = q
Frees-only [] p x l e (inr f) = absurd f
Frees-only (y ∷ ys) p x l e f = absurd (let f : ⊥ = cc in f)

pub Frees-append_left : (xs ys : List Allocation) (p : ℕ) → Frees xs p → Frees (xs ++ ys) p
Frees-append_left [] ys p f = absurd f
Frees-append_left (x ∷ xs) ys p (inl e) = inl e
Frees-append_left (x ∷ xs) ys p (inr f) = inr (Frees-append_left xs ys p f)

pub Frees-append_right : (xs ys : List Allocation) (p : ℕ) → Frees ys p → Frees (xs ++ ys) p
Frees-append_right [] ys p f = f
Frees-append_right (x ∷ xs) ys p f = inr (Frees-append_right xs ys p f)
