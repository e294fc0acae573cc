-- ===== src/DataStack/Access.antt =====
-- Pushing, popping, peeking, finding and clearing, in lib/datastack.c.
use obelix.Prelude.{
  ℕ, zero, suc, ◌≤◌, ◌<◌, ◌≡◌, refl, sym, ap, ◌∙◌, false, Bool, Option, none, some, List, [], ◌∷◌,
  if◌then◌else◌, ◌==◌, take, get_elem?, length, arith,
}
use mathlib.Core.List.{reverse}
use obelix.Array
use obelix.Array.{Array, Errno, slot}
use obelix.Array.Growth.{items}
use obelix.Array.Access.{get_lem, reported, items-push}
use obelix.Array.Removal.{take-suc}
use obelix.Array.Lifo.{pop-push, get-pop, get-slot}
use obelix.Array.Bulk.{clear_all_lem}
use obelix.DataStack
use obelix.DataStack.{DataStack}
use obelix.DataStack.Rollup.{IsSteady, reverse-snoc}

module _ {ℓ} {A : Type ℓ} where
  -- An element of the stack, NULL where there is none.
  abbrev pub or_null : Option (Option A) → Option A
  or_null none = none
  or_null (some x) = x

  reported-or_null : (o : Option (Option A)) → (reported o).1 ≡ or_null o
  reported-or_null none = refl
  reported-or_null (some x) = refl

  -- `datastack_peek_deep` counts from the top; NULL below the bottom.
  pub peek_deep_lem :
      (s : DataStack A) (n : ℕ)
      → IsSteady s
      → DataStack.peek_deep s n ≡ or_null (get_elem? (reverse (items s.list)) n)
  unfolding DataStack.peek_deep
  peek_deep_lem s n k =
      ap (λ r. r.1) (get_lem s.list n k.valid).1
      ∙ reported-or_null (get_elem? (reverse (items s.list)) n)

  -- The first match.
  abbrev pub first : List (Option A) → (Option A → Bool) → Option A
  first [] matches = none
  first (x ∷ xs) matches = if matches x then x else first xs matches

  find_below-first :
      (n : ℕ) (s : DataStack A) (matches : Option A → Bool)
      → IsSteady s
      → n ≤ s.list.size
      → DataStack.find_below n s matches ≡ first (reverse (take n s.list.contents)) matches
  unfolding DataStack.find_below
  find_below-first zero s matches k h = refl
  find_below-first (suc ix) s matches k h =
      let inside : ix < length s.list.contents = omega (arith, k.valid.filled, k.valid.fits) in
      let read = get-slot s.list ix (omega arith) in
      let back =
        ap reverse (take-suc s.list.contents ix inside)
        ∙ reverse-snoc (take ix s.list.contents) (slot s.list.contents ix) in
      rw (read, find_below-first ix s matches k (omega arith))
        (ap (λ l. first l matches) (sym back))

  -- `datastack_find` answers the match nearest to the top, NULL without one.
  pub find-first :
      (s : DataStack A) (matches : Option A → Bool)
      → IsSteady s
      → DataStack.find s matches ≡ first (reverse (items s.list)) matches
  unfolding DataStack.find
  find-first s matches k = find_below-first s.list.size s matches k (omega arith)

  -- What is pushed is peeked at and popped, and what was below is left.
  pub record Topped (s : DataStack A) (x : Option A) (t : DataStack A) : Type ℓ where
    pub peeks : DataStack.peek t ≡ x
    pub pops : (DataStack.pop t).0 ≡ x
    pub restores : items (DataStack.pop t).1.list ≡ items s.list
    pub steady : IsSteady (DataStack.pop t).1
    pub same_depth : DataStack.depth (DataStack.pop t).1 ≡ DataStack.depth s

  -- `datastack_push` puts an element on top: `datastack_peek` reads it, and `datastack_pop` takes it
  -- off and leaves the stack as it was.
  pub push-Topped : (s : DataStack A) (x : Option A) → IsSteady s → Topped s x (DataStack.push s x)
  unfolding DataStack.push DataStack.pop DataStack.peek DataStack.peek_deep
  push-Topped s x k =
      let (top, below, v, c, d, _) = pop-push s.list x k.valid k.clean in
      let there : ((Array.push s.list x).size == 0) ≡ false =
        ground (arith, (items-push s.list x k.valid k.clean).1) in
      record {
        peeks = get-pop (Array.push s.list x) there ∙ top;
        pops = top;
        restores = below;
        steady = record { valid = v; clean = c };
        same_depth = d;
      }

  -- `datastack_clear` empties the stack.
  pub clear-IsSteady :
      (s : DataStack A)
      → IsSteady s
      → IsSteady (DataStack.clear s) × (items (DataStack.clear s).list ≡ [])
  unfolding DataStack.clear
  clear-IsSteady s k =
      let (v, c, e, _) = clear_all_lem s.list k.valid in (record { valid = v; clean = c }, e)
