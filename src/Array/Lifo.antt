-- ===== src/Array/Lifo.antt =====
-- lib/array.c used as a stack: a pop undoes a push.
use obelix.Prelude.{
  ℕ, ◌<◌, ℕ, ◌-◌, ◌<◌, ◌≡◌, refl, sym, ap, ◌∙◌, Option, none, List, [], ◌∷◌, ◌++◌, true, false, leb,
  ltb, ◌==◌, arith,
}
use obelix.Array.{Array, push, pop, get, get_at, slot}
use obelix.Prelude.Int.{pos, negsuc}
use obelix.Array.Growth.{IsValid, IsClean, items}
use obelix.Array.Access.{items-push}
use obelix.Array.Removal.{pop_lem}
use obelix.Array.Bulk.{push-IsValid}

module _ {ℓ} {A : Type ℓ} where
  abbrev all_but_last : List (Option A) → List (Option A)
  all_but_last [] = []
  all_but_last (x ∷ []) = []
  all_but_last (x ∷ y ∷ ys) = x ∷ all_but_last (y ∷ ys)

  abbrev last_of : List (Option A) → Option A
  last_of [] = none
  last_of (x ∷ []) = x
  last_of (x ∷ y ∷ ys) = last_of (y ∷ ys)

  all_but_last-snoc : (xs : List (Option A)) (x : Option A) → all_but_last (xs ++ x ∷ []) ≡ xs
  all_but_last-snoc [] x = refl
  all_but_last-snoc (y ∷ []) x = refl
  all_but_last-snoc (y ∷ z ∷ zs) x = ap (λ l. y ∷ l) (all_but_last-snoc (z ∷ zs) x)

  last_of-snoc : (xs : List (Option A)) (x : Option A) → last_of (xs ++ x ∷ []) ≡ x
  last_of-snoc [] x = refl
  last_of-snoc (y ∷ []) x = refl
  last_of-snoc (y ∷ z ∷ zs) x = last_of-snoc (z ∷ zs) x

  pub snoc-injective :
      {xs ys : List (Option A)} {x y : Option A} → xs ++ x ∷ [] ≡ ys ++ y ∷ [] → (xs ≡ ys) × (x ≡ y)
  snoc-injective {xs = xs} {ys = ys} {x = x} {y = y} e = (
    sym (all_but_last-snoc xs x) ∙ ap all_but_last e ∙ all_but_last-snoc ys y,
    sym (last_of-snoc xs x) ∙ ap last_of e ∙ last_of-snoc ys y,
  )

  -- What is pushed is popped, the elements below stay, and nothing is freed.
  pub pop-push :
      (a : Array A) (x : Option A)
      → IsValid a
      → IsClean a
      → ((pop (push a x)).0 ≡ x)
        × (items (pop (push a x)).1 ≡ items a)
        × IsValid (pop (push a x)).1
        × IsClean (pop (push a x)).1
        × ((pop (push a x)).1.size ≡ a.size)
        × ((pop (push a x)).1.freed ≡ a.freed)
  pop-push a x v c =
      let (pv, pc) = push-IsValid a x v c in
      let (reads, bigger, freed) = items-push a x v c in
      let (parts, rv, rc, one_less, kept) = pop_lem (push a x) pv pc (omega arith) in
      let (same, top) = snoc-injective (sym parts ∙ reads) in
      (top, same, rv, rc, omega arith, kept ∙ freed)

  -- `array_get` of -1 reads what `array_pop` takes.
  pub get-pop : (a : Array A) → (a.size == 0) ≡ false → (get a (negsuc 0)).1 ≡ (pop a).0
  unfolding get get_at pop
  get-pop a h =
      let within : leb 1 a.size ≡ true = ground arith in
      let inside : ltb (a.size - 1) a.size ≡ true = ground arith in rw (within, h) (rw inside refl)

  pub get-slot : (a : Array A) (i : ℕ) → i < a.size → (get a (pos i)).1 ≡ slot a.contents i
  unfolding get get_at
  get-slot a i h = let inside : ltb i a.size ≡ true = ground arith in rw inside refl
