-- ===== src/Array/Cursor.antt =====
-- The array's own cursor: `array_start`, `array_next` and their kin.
use obelix.Prelude.{
  ℕ, zero, suc, ◌+◌, ◌-◌, ◌≤◌, ◌<◌, ◌≡◌, refl, Bool, true, false, Option, none, ◌==◌, ◌&&◌, List,
  [], ◌∷◌, ◌++◌, ltb, if◌then◌else◌, length, take, drop, arith, ap, sym, ◌∙◌, Bool-cases, inl, inr,
}
use mathlib.Core.List.{reverse, reverse-append}
use obelix.Prelude.Int.{ℤ, pos, negsuc, ltb_ℤ, ◌+ℤ◌, ◌-ℤ◌}
use obelix.Array.{Array, slot}
use obelix.Array.Growth.{IsValid, items}
use obelix.Array.Removal.{take-suc}

module _ {ℓ} {A : Type ℓ} where
  -- A read of `contents[ix]`; `none` also for an index that the guards of the cursor exclude.
  abbrev pub slot_ℤ : List (Option A) → ℤ → Option A
  slot_ℤ xs (pos i) = slot xs i
  slot_ℤ xs (negsuc n) = none

  unfoldable pub start : Array A → Array A
  start a = record a { curix = if a.size == 0 then negsuc 0 else pos 0 }

  unfoldable pub end : Array A → Array A
  unfolding ◌-ℤ◌
  end a = record a { curix = pos a.size -ℤ pos 1 }

  unfoldable pub current : Array A → Option A
  current a = if ltb_ℤ a.curix (pos 0) then none else slot_ℤ a.contents a.curix

  unfoldable pub has_next : Array A → Bool
  has_next a = if ltb_ℤ a.curix (pos 0) then false else ltb_ℤ a.curix (pos a.size)

  unfoldable pub has_prev : Array A → Bool
  has_prev a = ltb_ℤ (pos 0) a.curix && ltb_ℤ a.curix (pos a.size)

  unfoldable pub next : Array A → Option A × Array A
  unfolding ◌+ℤ◌
  next a = (slot_ℤ a.contents a.curix, record a { curix = a.curix +ℤ pos 1 })

  unfoldable pub prev : Array A → Option A × Array A
  unfolding ◌-ℤ◌
  prev a = (slot_ℤ a.contents a.curix, record a { curix = a.curix -ℤ pos 1 })

  -- A client's loop `while (array_has_next(a)) ... array_next(a)`: what it is handed.
  pub walk_next : ℕ → Array A → List (Option A)
  walk_next zero a = []
  walk_next (suc fuel) a =
      let rest = (next a).0 ∷ walk_next fuel (next a).1 in if has_next a then rest else []

  pub walk_prev : ℕ → Array A → List (Option A)
  walk_prev zero a = []
  walk_prev (suc fuel) a =
      let rest = (prev a).0 ∷ walk_prev fuel (prev a).1 in if has_prev a then rest else []

  at_index : Array A → ℕ → Array A
  at_index a i = record a { curix = pos i }

  next-at : (a : Array A) (i : ℕ) → next (at_index a i) ≡ (slot a.contents i, at_index a (suc i))
  unfolding next at_index
  next-at a i = ground arith

  prev-at :
      (a : Array A) (i : ℕ) → prev (at_index a (suc i)) ≡ (slot a.contents (suc i), at_index a i)
  unfolding prev at_index
  prev-at a i = ground arith

  has_next-at : (a : Array A) (i : ℕ) → has_next (at_index a i) ≡ ltb i a.size
  unfolding has_next at_index
  has_next-at a i = ground arith

  has_prev-at : (a : Array A) (i : ℕ) → has_prev (at_index a i) ≡ (ltb 0 i && ltb i a.size)
  unfolding has_prev at_index
  has_prev-at a i = ground arith

  drop-slot :
      (xs : List (Option A)) (n i : ℕ)
      → n ≤ length xs
      → drop i (take n xs) ≡ (if ltb i n then slot xs i ∷ drop (suc i) (take n xs) else [])
  drop-slot xs zero zero h = ground arith
  drop-slot xs zero (suc i) h = ground arith
  drop-slot [] (suc n) i h = absurd (omega arith)
  drop-slot (x ∷ xs) (suc n) zero h = ground arith
  drop-slot (x ∷ xs) (suc n) (suc i) h = drop-slot xs n i (omega arith) ∙ ground arith

  walk_next-from :
      (fuel i : ℕ) (a : Array A)
      → IsValid a
      → a.size < fuel + i
      → walk_next fuel (at_index a i) ≡ drop i (items a)
  unfolding walk_next
  walk_next-from zero i a v h =
      sym (drop-slot a.contents a.size i (omega (arith, v.filled, v.fits)) ∙ ground arith)
  walk_next-from (suc fuel) i a v h =
      let step = drop-slot a.contents a.size i (omega (arith, v.filled, v.fits)) in
      elim (Bool-cases (ltb i a.size)) [
        | inl more ↦
            rw (has_next-at a i, more, next-at a i)
              (ap (λ ys. slot a.contents i ∷ ys) (walk_next-from fuel (suc i) a v (omega arith))
                ∙ sym (step ∙ rw more))
        | inr done ↦ rw (has_next-at a i, done) (sym (step ∙ rw done))
      ]

  walk_next-nowhere : (n : ℕ) (a : Array A) → walk_next (suc n) (record a { curix = negsuc 0 }) ≡ []
  unfolding walk_next has_next
  walk_next-nowhere n a = ground arith

  -- From `array_start` on, `array_next` while `array_has_next` hands out every element in order.
  pub walk_next-start : (a : Array A) → IsValid a → walk_next (suc a.size) (start a) ≡ items a
  unfolding start at_index
  walk_next-start a v = elim (Bool-cases (a.size == 0)) [
    | inl empty ↦
        let z : a.size ≡ 0 = ground arith in
        rw empty (walk_next-nowhere a.size a ∙ sym (ap (λ k. take k a.contents) z))
    | inr more ↦ rw more (walk_next-from (suc a.size) 0 a v (omega arith))
  ]

  drop-take-suc :
      (xs : List (Option A)) (i : ℕ)
      → suc i < length xs
      → drop 1 (take (suc (suc i)) xs) ≡ drop 1 (take (suc i) xs) ++ slot xs (suc i) ∷ []
  drop-take-suc [] i h = absurd (omega arith)
  drop-take-suc (x ∷ xs) i h = take-suc xs i (omega arith)

  drop-take_one : (xs : List (Option A)) → drop 1 (take 1 xs) ≡ []
  drop-take_one [] = refl
  drop-take_one (x ∷ xs) = refl

  -- The elements from index `i` down to 1.
  walk_prev-from :
      (fuel i : ℕ) (a : Array A)
      → IsValid a
      → i < a.size
      → i < fuel
      → walk_prev fuel (at_index a i) ≡ reverse (drop 1 (take (suc i) a.contents))
  unfolding walk_prev
  walk_prev-from zero i a v p h = absurd (omega arith)
  walk_prev-from (suc fuel) zero a v p h = rw (has_prev-at a 0, drop-take_one)
  walk_prev-from (suc fuel) (suc i) a v p h =
      let test : (ltb 0 (suc i) && ltb (suc i) a.size) ≡ true = ground arith in
      let below = walk_prev-from fuel i a v (omega arith) (omega arith) in
      rw (has_prev-at a (suc i), prev-at a i, test, below)
        (sym (
          ap reverse (drop-take-suc a.contents i (omega (arith, v.filled, v.fits)))
          ∙ reverse-append (drop 1 (take (suc i) a.contents)) (slot a.contents (suc i) ∷ [])))

  -- From `array_end` on, `array_prev` while `array_has_prev` hands out the elements backwards, all
  -- but the first one.
  pub walk_prev-end :
      (a : Array A)
      → IsValid a
      → 0 < a.size
      → walk_prev (suc a.size) (end a) ≡ reverse (drop 1 (items a))
  unfolding end at_index
  walk_prev-end a v h =
      let last : pos a.size -ℤ pos 1 ≡ pos (a.size - 1) = unfold ◌-ℤ◌ in ground arith in
      let whole : suc (a.size - 1) ≡ a.size = omega arith in
      rw last (
        walk_prev-from (suc a.size) (a.size - 1) a v (omega arith) (omega arith)
        ∙ ap (λ k. reverse (drop 1 (take k a.contents))) whole)
