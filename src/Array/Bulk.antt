-- ===== src/Array/Bulk.antt =====
-- The operations of lib/array.c that go over all the elements: reduce, add_all, find, clear, slice,
-- and the reference count of `array_copy` and `array_free`.
use obelix.Prelude.{
  ℕ, zero, suc, ◌-◌, ◌≤◌, ◌<◌, ◌≡◌, refl, Bool, true, Option, none, some, List, [], ◌∷◌, ◌++◌, leb,
  if◌then◌else◌, length, take, replicate, get_or-replicate, length-replicate, arith, ap, sym, ◌∙◌,
  append-nil, append_assoc,
}
use obelix.Prelude.Int.{negsuc}
use obelix.Array.{Array, Release, kept, released, slot, push, free_slot}
use obelix.Array.Growth.{IsValid, IsClean, items}
use obelix.Array.Access.{items-push, set-Wrote}

module _ {ℓ κ} {A : Type ℓ} {S : Type κ} where
  -- `for (ix = 0; ix < size; ix++) data = reducer(contents[ix], data)`, by the rounds left.
  reduce_from : ℕ → ℕ → List (Option A) → (Option A → S → S) → S → S
  reduce_from zero ix xs reducer s = s
  reduce_from (suc n) ix xs reducer s = reduce_from n (suc ix) xs reducer (reducer (slot xs ix) s)

  unfoldable pub reduce : Array A → (Option A → S → S) → S → S
  unfolding reduce_from
  reduce a reducer s = reduce_from a.size 0 a.contents reducer s

  -- A fold from the left, in the order of the C callbacks' arguments.
  abbrev pub fold : List (Option A) → (Option A → S → S) → S → S
  fold [] f s = s
  fold (x ∷ xs) f s = fold xs f (f x s)

  reduce_from-cons :
      (n ix : ℕ) (x : Option A) (xs : List (Option A)) (f : Option A → S → S) (s : S)
      → reduce_from n (suc ix) (x ∷ xs) f s ≡ reduce_from n ix xs f s
  unfolding reduce_from
  reduce_from-cons zero ix x xs f s = refl
  reduce_from-cons (suc n) ix x xs f s = reduce_from-cons n (suc ix) x xs f (f (slot xs ix) s)

  reduce_from-fold :
      (xs : List (Option A)) (n : ℕ) (f : Option A → S → S) (s : S)
      → n ≤ length xs
      → reduce_from n 0 xs f s ≡ fold (take n xs) f s
  unfolding reduce_from
  reduce_from-fold xs zero f s h = refl
  reduce_from-fold [] (suc n) f s h = absurd (omega arith)
  reduce_from-fold (x ∷ xs) (suc n) f s h =
      reduce_from-cons n 0 x xs f (f x s) ∙ reduce_from-fold xs n f (f x s) (omega arith)

  -- `array_reduce` hands its callback each element once, in order.
  pub reduce-fold :
      (a : Array A) (f : Option A → S → S) (s : S) → IsValid a → reduce a f s ≡ fold (items a) f s
  unfolding reduce
  reduce-fold a f s v = reduce_from-fold a.contents a.size f s (omega (arith, v.filled, v.fits))

module _ {ℓ} {A : Type ℓ} where
  -- For `other` another array than `a`.
  unfoldable pub add_all : Array A → Array A → Array A
  unfolding reduce
  add_all a other = reduce other (λ x s. push s x) a

  pub push-IsValid :
      (a : Array A) (x : Option A) → IsValid a → IsClean a → IsValid (push a x) × IsClean (push a x)
  unfolding push
  push-IsValid a x v c = let w = set-Wrote a (negsuc 0) x v c in (w.valid, w.clean)

  fold-push :
      (xs : List (Option A)) (a : Array A)
      → IsValid a
      → IsClean a
      → IsValid (fold xs (λ x s. push s x) a)
        × IsClean (fold xs (λ x s. push s x) a)
        × (items (fold xs (λ x s. push s x) a) ≡ items a ++ xs)
  fold-push [] a v c = (v, c, sym (append-nil (items a)))
  fold-push (x ∷ xs) a v c =
      let (pv, pc) = push-IsValid a x v c in
      let (rv, rc, re) = fold-push xs (push a x) pv pc in
      (rv, rc, re ∙ ap (λ ys. ys ++ xs) (items-push a x v c).0 ∙ append_assoc (items a) (x ∷ []) xs)

  -- `array_add_all` appends the other array's elements, in order.
  pub items-add_all :
      (a other : Array A)
      → IsValid a
      → IsClean a
      → IsValid other
      → IsValid (add_all a other)
        × IsClean (add_all a other)
        × (items (add_all a other) ≡ items a ++ items other)
  unfolding add_all
  items-add_all a other v c w =
      rw (reduce-fold other (λ x s. push s x) a w) (fold-push (items other) a v c)

  -- The first element on which the filter returns 0.
  find_from : ℕ → ℕ → List (Option A) → (Option A → Bool) → Option A
  find_from zero ix xs matches = none
  find_from (suc n) ix xs matches =
      if matches (slot xs ix) then slot xs ix else find_from n (suc ix) xs matches

  unfoldable pub find : Array A → (Option A → Bool) → Option A
  unfolding find_from
  find a matches = find_from a.size 0 a.contents matches

  -- `memset` of the slots, after the free function's calls.
  unfoldable pub clear_all : Array A → Array A
  unfolding reduce
  clear_all a = record a {
    contents = replicate a.capacity none;
    size = 0;
    freed = if a.owns then reduce a (free_slot true) a.freed else a.freed;
  }

  unfoldable pub copy : Array A → Array A
  copy a = record a { refs = suc a.refs }

  unfoldable pub free : Array A → Release A
  unfolding clear_all
  free a =
      if leb (a.refs - 1) 0
      then released (clear_all a).freed
      else kept (record a { refs = a.refs - 1 })

  -- The elements that are not NULL, the last one first.
  abbrev pub live : List (Option A) → List A → List A
  live [] log = log
  live (none ∷ xs) log = live xs log
  live (some x ∷ xs) log = live xs (x ∷ log)

  fold-free : (xs : List (Option A)) (log : List A) → fold xs (free_slot true) log ≡ live xs log
  fold-free [] log = refl
  fold-free (none ∷ xs) log = fold-free xs log
  fold-free (some x ∷ xs) log = fold-free xs (x ∷ log)

  -- `array_clear` frees each element that is not NULL once, and leaves a clean, empty array.
  pub clear_all_lem :
      (a : Array A)
      → IsValid a
      → IsValid (clear_all a)
        × IsClean (clear_all a)
        × (items (clear_all a) ≡ [])
        × ((clear_all a).freed ≡ (if a.owns then live (items a) a.freed else a.freed))
  unfolding clear_all
  clear_all_lem a v = (
    record { filled = length-replicate a.capacity none; fits = omega arith },
    λ j h. get_or-replicate a.capacity j none,
    refl,
    ap (λ l. if a.owns then l else a.freed)
        (reduce-fold a (free_slot true) a.freed v ∙ fold-free (items a) a.freed),
  )

  -- A copy takes one more reference, which freeing it gives back.
  pub free-copy : (a : Array A) → 0 < a.refs → free (copy a) ≡ kept a
  unfolding free copy
  free-copy a h = ground arith

  -- The last owner's free releases each element that is not NULL once.
  pub free_last :
      (a : Array A)
      → IsValid a
      → a.refs ≡ 1
      → a.owns ≡ true
      → free a ≡ released (live (items a) a.freed)
  unfolding free
  free_last a v one owns = rw one (ap released ((clear_all_lem a v).3 ∙ rw owns))
