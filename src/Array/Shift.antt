-- ===== src/Array/Shift.antt =====
-- `array_remove` as a whole, on both of its branches, and its effect on the next push.
use obelix.Prelude.{
  ℕ, suc, ◌-◌, ◌≤◌, ◌<◌, ◌≡◌, ◌⊎◌, inl, inr, refl, true, Option, none, ◌==◌, some, ◌∷◌, ltb, arith,
  Bool-cases, ap, sym, ◌∙◌, ◌≢◌,
}
use obelix.Prelude.Int.{ℤ, pos, negsuc}
use obelix.Array.{
  Array, Errno, clear, efault, slot, set, set_at, push, remove, remove_at, free_slot, resize,
}
use obelix.Array.Growth.{IsValid, IsClean, items}
use obelix.Array.Contents.{erase_at, slot-take}
use obelix.Array.Removal.{
  Took, shortened, shortened-Took, shortened-IsClean, pop-shortened, within, moved, moved-Took,
  moved-IsClean, remove_at-moved, remove_at-pop, erase_at-take, slot-shift_down,
}

module _ {ℓ} {A : Type ℓ} where
  -- What `array_remove` returns and leaves for an index `i` within bounds.
  pub record Removed (a : Array A) (i : ℕ) (r : Errno × Option A × Array A) : Type ℓ where
    pub no_error : r.0 ≡ clear
    pub element : r.1 ≡ slot (items a) i
    pub took : Took a (erase_at (items a) i) r.2

  module _ (a : Array A) (v : IsValid a) (n i : ℕ) (e : a.size ≡ suc n) (h : i ≤ n) where
    last_element : i ≡ n → remove_at a i ≡ (slot a.contents i, shortened a v n e)
    last_element d =
        remove_at-pop a v n i e h d
        ∙ pop-shortened a v n e
        ∙ ap (λ k. (slot a.contents k, shortened a v n e)) (sym d)

    element_at : slot a.contents i ≡ slot (items a) i
    element_at = sym (slot-take a.contents a.size i (omega arith))

    shortened-Removed : i ≡ n → Removed a i (clear, slot a.contents i, shortened a v n e)
    shortened-Removed d =
        let t = shortened-Took a v n e in
        record {
          no_error = refl;
          element = element_at;
          took = record {
            valid = t.valid;
            one_less = t.one_less;
            reads = t.reads ∙ sym (rw (d, e) (erase_at-take a.contents n (within a v n i e h)));
            same_freed = t.same_freed;
            same_owns = t.same_owns;
          };
        }

    moved-Removed : i ≢ n → Removed a i (clear, slot a.contents i, moved a v n i e h)
    moved-Removed d = record {
      no_error = refl;
      element = element_at;
      took = moved-Took a v n i e h;
    }

    remove-Removed : Removed a i (remove a (pos i))
    unfolding remove
    remove-Removed =
        let test : ltb i a.size ≡ true = ground arith in
        elim (Bool-cases (i == n)) [
          | inl same ↦ rw (test, last_element (ground arith)) (shortened-Removed (ground arith))
          | inr other ↦
              let d : i ≢ n = ground arith in
              rw (test, remove_at-moved a v n i e h d) (moved-Removed d)
        ]

  -- In bounds, `array_remove` returns the element at the index and takes it out of the sequence.
  pub remove_lem : (a : Array A) (i : ℕ) → IsValid a → i < a.size → Removed a i (remove a (pos i))
  remove_lem a i v h =
      let e : a.size ≡ suc (a.size - 1) = omega arith in
      remove-Removed a v (a.size - 1) i e (omega arith)

  remove-IsClean_at :
      (a : Array A) (n i : ℕ) (v : IsValid a) (e : a.size ≡ suc n)
      → i ≤ n
      → IsClean a
      → (a.size < a.capacity) ⊎ (suc i ≡ a.size)
      → IsClean (remove a (pos i)).2
  unfolding remove
  remove-IsClean_at a n i v e h c room =
      let test : ltb i a.size ≡ true = ground arith in
      elim (Bool-cases (i == n)) [
        | inl same ↦
            rw (test, last_element a v n i e h (ground arith)) (shortened-IsClean a v c n e)
        | inr other ↦
            let d : i ≢ n = ground arith in
            rw (test, remove_at-moved a v n i e h d)
              (moved-IsClean a v n i e h c (omega (arith, d)))
      ]

  -- With room left, or at the last element, the removal leaves no pointer past the end.
  pub remove-IsClean :
      (a : Array A) (i : ℕ)
      → IsValid a
      → IsClean a
      → i < a.size
      → (a.size < a.capacity) ⊎ (suc i ≡ a.size)
      → IsClean (remove a (pos i)).2
  remove-IsClean a i v c h room =
      remove-IsClean_at a (a.size - 1) i v (omega arith) (omega arith) c room

  -- Out of bounds it reports the fault and changes nothing.
  pub remove_fault :
      (a : Array A) (ix : ℤ) → ((i : ℕ) → ix ≡ pos i → a.size ≤ i) → remove a ix ≡ (efault, none, a)
  unfolding remove
  remove_fault a (negsuc n) h = refl
  remove_fault a (pos i) h = ground (arith, h i refl)

  module _ (a : Array A) (v : IsValid a) (n i : ℕ) (e : a.size ≡ suc n) (h : i < n)
      (full : a.size ≡ a.capacity) where
    stale : Array A
    stale = moved a v n i e (omega arith)

    -- The last slot still holds the element that also moved down by one.
    stale-slots :
        (slot stale.contents n ≡ slot a.contents n)
        × (0 < n → slot stale.contents (n - 1) ≡ slot a.contents n)
    unfolding stale moved
    stale-slots =
        let below = within a v n i e (omega arith) in
        (
          slot-shift_down a.contents i n (omega arith) below ∙ ground (arith, v.filled),
          λ p.
              slot-shift_down a.contents i (n - 1) (omega arith) (omega arith)
              ∙ ground (arith, v.filled),
        )

    remove-stale : remove a (pos i) ≡ (clear, slot a.contents i, stale)
    unfolding remove stale
    remove-stale =
        let test : ltb i a.size ≡ true = ground arith in
        rw (test, remove_at-moved a v n i e (omega arith) (omega arith))

    kept_last : 0 < n → slot (items stale) (stale.size - 1) ≡ slot a.contents n
    unfolding stale moved
    kept_last p = slot-take stale.contents n (n - 1) (omega arith) ∙ stale-slots.1 p

    push-stale :
        (x : Option A) → (push stale x).freed ≡ free_slot a.owns (slot stale.contents n) a.freed
    unfolding push set set_at resize stale moved
    push-stale x = ground arith

  -- A removal from a full array that owns its elements, but for the last one, leaves the last
  -- pointer behind the end; the next push frees that element, which is still in the array.
  pub remove_full-push :
      (a : Array A) (i : ℕ) (x : Option A) (y : A)
      → IsValid a
      → a.size ≡ a.capacity
      → a.owns ≡ true
      → suc i < a.size
      → slot (items a) (a.size - 1) ≡ some y
      → let b = (remove a (pos i)).2 in
        (slot (items b) (b.size - 1) ≡ some y) × ((push b x).freed ≡ y ∷ a.freed)
  remove_full-push a i x y v full owns h last =
      let n : ℕ = a.size - 1 in
      let e : a.size ≡ suc n = omega arith in
      let p : i < n = omega arith in
      let held : slot a.contents n ≡ some y =
        sym (slot-take a.contents a.size n (omega arith)) ∙ last in
      let two = stale-slots a v n i e p full in
      rw (remove-stale a v n i e p full) (
        kept_last a v n i e p full (omega arith) ∙ held,
        push-stale a v n i e p full x ∙ rw (two.0, held, owns),
      )
