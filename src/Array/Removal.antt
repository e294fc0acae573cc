-- ===== src/Array/Removal.antt =====
-- `array_pop` and `array_remove` on the sequence of the elements, and the stale slot that a removal
-- from a full array leaves behind.
use obelix.Prelude.{
  ℕ, zero, suc, ◌-◌, ◌≤◌, ◌<◌, ◌≡◌, inl, inr, refl, Option, none, ◌==◌, List, [], ◌∷◌, ◌++◌, ltb,
  if◌then◌else◌, length, take, set as set_slot, length-set, arith, Bool-cases, ap, sym, ◌∙◌, ◌≢◌,
}
use obelix.Array.{Array, slot, pop, remove_at, shift_down}
use obelix.Array.Growth.{IsValid, IsClean, items}
use obelix.Array.Contents.{erase_at, slot-set}

module _ {ℓ} {A : Type ℓ} where
  slot-past : (xs : List (Option A)) (j : ℕ) → length xs ≤ j → slot xs j ≡ none
  slot-past [] j h = refl
  slot-past (x ∷ xs) zero h = absurd (omega arith)
  slot-past (x ∷ xs) (suc j) h = slot-past xs j (omega arith)

  pub take-suc :
      (xs : List (Option A)) (m : ℕ) → m < length xs → take (suc m) xs ≡ take m xs ++ slot xs m ∷ []
  take-suc [] m h = absurd (omega arith)
  take-suc (x ∷ xs) zero h = refl
  take-suc (x ∷ xs) (suc m) h = ap (λ ys. x ∷ ys) (take-suc xs m (omega arith))

  take-set_past :
      (xs : List (Option A)) (m i : ℕ) (x : Option A) → m ≤ i → take m (set_slot xs i x) ≡ take m xs
  take-set_past xs zero i x h = refl
  take-set_past [] (suc m) i x h = refl
  take-set_past (y ∷ ys) (suc m) zero x h = absurd (omega arith)
  take-set_past (y ∷ ys) (suc m) (suc i) x h =
      ap (λ zs. y ∷ zs) (take-set_past ys m i x (omega arith))

  -- What taking an element away leaves: `rest` are the elements then.
  pub record Took (a : Array A) (rest : List (Option A)) (r : Array A) : Type ℓ where
    pub valid : IsValid r
    pub one_less : suc r.size ≡ a.size
    pub reads : items r ≡ rest
    pub same_freed : r.freed ≡ a.freed
    pub same_owns : r.owns ≡ a.owns

  module _ (a : Array A) (v : IsValid a) where
    pub shortened : (n : ℕ) → a.size ≡ suc n → Array A
    shortened n e = record a { contents = set_slot a.contents n none; size = n }

    pub shortened-Took : (n : ℕ) (e : a.size ≡ suc n) → Took a (take n a.contents) (shortened n e)
    unfolding shortened
    shortened-Took n e = record {
      valid = record {
        filled = length-set a.contents n none ∙ v.filled;
        fits = omega (arith, v.fits);
      };
      one_less = sym e;
      reads = take-set_past a.contents n n none (omega arith);
      same_freed = refl;
      same_owns = refl;
    }

    pub shortened-IsClean : IsClean a → (n : ℕ) (e : a.size ≡ suc n) → IsClean (shortened n e)
    unfolding shortened
    shortened-IsClean c n e j h =
        ground (arith, slot-set a.contents n j none (omega (arith, v.filled, v.fits)), c j)

    pub pop-shortened : (n : ℕ) (e : a.size ≡ suc n) → pop a ≡ (slot a.contents n, shortened n e)
    unfolding pop shortened
    pop-shortened n e = rw e (ground arith)

  -- `array_pop` takes the last element, and keeps the array valid and clean.
  pub pop_lem :
      (a : Array A)
      → IsValid a
      → IsClean a
      → 0 < a.size
      → (items a ≡ items (pop a).1 ++ (pop a).0 ∷ [])
        × IsValid (pop a).1
        × IsClean (pop a).1
        × (suc (pop a).1.size ≡ a.size)
        × ((pop a).1.freed ≡ a.freed)
  pop_lem a v c h =
      let n : ℕ = a.size - 1 in
      let e : a.size ≡ suc n = omega arith in
      let t = shortened-Took a v n e in
      let split = take-suc a.contents n (omega (arith, v.filled, v.fits)) in
      rw (pop-shortened a v n e) (
        ap (λ k. take k a.contents) e
            ∙ split
            ∙ ap (λ ys. ys ++ slot a.contents n ∷ []) (sym t.reads),
        t.valid,
        shortened-IsClean a v c n e,
        t.one_less,
        t.same_freed,
      )

  take-shift_down :
      (xs : List (Option A)) (n i : ℕ)
      → n < length xs
      → i ≤ n
      → take n (shift_down xs i) ≡ erase_at (take (suc n) xs) i
  unfolding shift_down
  take-shift_down [] n i h p = absurd (omega arith)
  take-shift_down (x ∷ []) zero zero h p = refl
  take-shift_down (x ∷ y ∷ ys) zero zero h p = refl
  take-shift_down (x ∷ xs) zero (suc i) h p = absurd (omega arith)
  take-shift_down (x ∷ []) (suc n) i h p = absurd (omega arith)
  take-shift_down (x ∷ y ∷ ys) (suc n) zero h p =
      ap (λ zs. y ∷ zs) (take-shift_down (y ∷ ys) n zero (omega arith) (omega arith))
  take-shift_down (x ∷ y ∷ ys) (suc n) (suc i) h p =
      ap (λ zs. x ∷ zs) (take-shift_down (y ∷ ys) n i (omega arith) (omega arith))

  length-shift_down : (xs : List (Option A)) (i : ℕ) → length (shift_down xs i) ≡ length xs
  unfolding shift_down
  length-shift_down [] i = refl
  length-shift_down (x ∷ []) zero = refl
  length-shift_down (x ∷ y ∷ ys) zero = ap suc (length-shift_down (y ∷ ys) zero)
  length-shift_down (x ∷ xs) (suc i) = ap suc (length-shift_down xs i)

  -- Past the gap a slot reads as its successor, but for the last slot, which the move leaves.
  pub slot-shift_down :
      (xs : List (Option A)) (i j : ℕ)
      → i ≤ j
      → j < length xs
      → slot (shift_down xs i) j ≡ slot xs (if suc j == length xs then j else suc j)
  unfolding shift_down
  slot-shift_down [] i j p h = absurd (omega arith)
  slot-shift_down (x ∷ []) zero zero p h = refl
  slot-shift_down (x ∷ []) zero (suc j) p h = absurd (omega arith)
  slot-shift_down (x ∷ y ∷ ys) zero zero p h = ground arith
  slot-shift_down (x ∷ y ∷ ys) zero (suc j) p h =
      slot-shift_down (y ∷ ys) zero j (omega arith) (omega arith) ∙ ground arith
  slot-shift_down (x ∷ xs) (suc i) zero p h = absurd (omega arith)
  slot-shift_down (x ∷ xs) (suc i) (suc j) p h =
      slot-shift_down xs i j (omega arith) (omega arith) ∙ ground arith

  pub erase_at-take :
      (xs : List (Option A)) (n : ℕ) → n < length xs → erase_at (take (suc n) xs) n ≡ take n xs
  erase_at-take [] n h = absurd (omega arith)
  erase_at-take (x ∷ xs) zero h = refl
  erase_at-take (x ∷ xs) (suc n) h = ap (λ ys. x ∷ ys) (erase_at-take xs n (omega arith))

  module _ (a : Array A) (v : IsValid a) (n i : ℕ) (e : a.size ≡ suc n) (h : i ≤ n) where
    pub within : n < length a.contents
    within = omega (arith, v.filled, v.fits)

    unfoldable pub moved : Array A
    moved = record a { contents = shift_down a.contents i; size = n }

    pub moved-Took : Took a (erase_at (items a) i) moved
    unfolding moved
    moved-Took = record {
      valid = record {
        filled = length-shift_down a.contents i ∙ v.filled;
        fits = omega (arith, v.fits);
      };
      one_less = sym e;
      reads = rw e (take-shift_down a.contents n i within h);
      same_freed = refl;
      same_owns = refl;
    }

    -- With a free slot at the end, or at the last element, no stale pointer stays behind.
    pub moved-IsClean : IsClean a → a.size < a.capacity → IsClean moved
    unfolding moved
    moved-IsClean c room j p = elim (Bool-cases (ltb j (length a.contents))) [
      | inl inside ↦
          slot-shift_down a.contents i j (omega arith) (ground arith)
          ∙ ground (arith, c j, c (suc j), v.filled)
      | inr past ↦
          slot-past (shift_down a.contents i) j (ground (arith, length-shift_down a.contents i))
    ]

    pub remove_at-moved : i ≢ n → remove_at a i ≡ (slot a.contents i, moved)
    unfolding remove_at moved
    remove_at-moved d = rw e (ground arith)

    pub remove_at-pop : i ≡ n → remove_at a i ≡ pop a
    unfolding remove_at
    remove_at-pop d = rw e (ground arith)
