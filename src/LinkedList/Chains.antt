-- ===== src/LinkedList/Chains.antt =====
-- Chains of addresses along a field of the nodes.
use obelix.Prelude.{
  ◌≡◌, refl, Bool, true, false, ◌||◌, Option, some, List, [], ◌∷◌, ◌++◌, ◌==◌, arith,
}
use obelix.LinkedList.{Ptr}

abbrev pub mem : Ptr → List Ptr → Bool
mem p [] = false
mem p (x ∷ xs) = x == p || mem p xs

-- The last address of `x ∷ xs`.
abbrev pub last_of : Ptr → List Ptr → Ptr
last_of x [] = x
last_of x (y ∷ ys) = last_of y ys

-- From `x` on, `f` leads through `xs`.
unfoldable pub Forward : (Ptr → Option Ptr) → Ptr → List Ptr → Type 0
Forward f x [] = ◌≡◌ {A = Bool} true true
Forward f x (y ∷ ys) = (f x ≡ some y) × Forward f y ys

-- Along `x ∷ xs`, `g` leads back from each address to the one before.
unfoldable pub Backward : (Ptr → Option Ptr) → Ptr → List Ptr → Type 0
Backward g x [] = ◌≡◌ {A = Bool} true true
Backward g x (y ∷ ys) = (g y ≡ some x) × Backward g y ys

-- No address comes twice in `x ∷ xs`.
unfoldable pub Distinct : Ptr → List Ptr → Type 0
Distinct x [] = ◌≡◌ {A = Bool} true true
Distinct x (y ∷ ys) = (mem x (y ∷ ys) ≡ false) × Distinct y ys

pub mem-append : (p : Ptr) (xs ys : List Ptr) → mem p (xs ++ ys) ≡ (mem p xs || mem p ys)
mem-append p [] ys = refl
mem-append p (x ∷ xs) ys = ground (arith, mem-append p xs ys)
