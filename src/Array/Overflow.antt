-- ===== src/Array/Overflow.antt =====
-- The `int` arithmetic of `_array_resize` in lib/array.c: where its doubling stays below 2 ^ 31, and
-- what happens where it does not.
use obelix.Prelude.{
  ℕ, zero, suc, ◌+◌, ◌*◌, ◌%◌, ◌^◌, ◌≤◌, ◌<◌, ◌≡◌, true, false, refl, none, some, ltb, leb, ◌==◌,
  arith, Bool-cases, inl, inr,
}
use obelix.Prelude.Int.{ℤ, pos, negsuc}
use obelix.Array.{
  Array, int_below, double_until, double_within, resized_capacity, new_capacity, grow_to, resize,
  min_capacity,
}
use obelix.Array.Growth.{IsValid, Grown, resize-Grown}

-- Up to 2 ^ 30 slots the loop ends, and no doubling wraps around.
double_until-double_within :
    (fuel newcap mincap : ℕ)
    → 0 < newcap
    → newcap < 2 ^ 31
    → mincap ≤ 2 ^ 30
    → mincap ≤ newcap + fuel
    → double_until fuel newcap mincap ≡ some (double_within fuel newcap mincap)
unfolding double_until double_within
double_until-double_within zero newcap mincap own int few fuel =
    let over : int_below newcap mincap ≡ false = ground arith in rw over refl
double_until-double_within (suc n) newcap mincap own int few fuel =
    elim (Bool-cases (ltb newcap mincap)) [
      | inr over ↦
          let stops : int_below newcap mincap ≡ false = ground arith in rw (stops, over) refl
      | inl below ↦
          let goes_on : int_below newcap mincap ≡ true = ground arith in
          let short : newcap < mincap = ground arith in
          let whole : newcap * 2 % 2 ^ 32 ≡ newcap * 2 = omega arith in
          rw (goes_on, below, whole)
            (double_until-double_within n (newcap * 2) mincap (omega arith) (omega arith) few
              (omega arith))
    ]

resized_capacity-new_capacity :
    (cap mincap : ℕ)
    → 0 < mincap
    → cap < mincap
    → mincap ≤ 2 ^ 30
    → resized_capacity mincap cap mincap ≡ some (new_capacity cap mincap)
unfolding resized_capacity new_capacity
resized_capacity-new_capacity zero mincap own short few =
    let test : leb mincap 0 ≡ false = ground arith in
    rw test (double_until-double_within mincap mincap mincap own (omega arith) few (omega arith))
resized_capacity-new_capacity (suc c) mincap own short few =
    let test : leb mincap (suc c) ≡ false = ground arith in
    let not_zero : (suc c == 0) ≡ false = ground arith in
    rw (test, not_zero)
      (double_until-double_within mincap (suc c) mincap (omega arith) (omega arith) few
        (omega arith))

module _ {ℓ} {A : Type ℓ} where
  grow_to-capacity :
      (a : Array A) (m : ℕ)
      → 0 < m
      → m ≤ 2 ^ 30
      → resized_capacity m a.capacity m ≡ some (grow_to a m).capacity
  unfolding grow_to
  grow_to-capacity a m own few = elim (Bool-cases (leb m a.capacity)) [
    | inl enough ↦ rw enough (unfold resized_capacity in rw enough refl)
    | inr short ↦ rw short (resized_capacity-new_capacity a.capacity m own (ground arith) few)
  ]

  resize-capacity :
      (a : Array A) (mincap : ℤ)
      → min_capacity mincap ≤ 2 ^ 30
      → resized_capacity (min_capacity mincap) a.capacity (min_capacity mincap)
        ≡ some (resize a mincap).capacity
  unfolding resize
  resize-capacity a (pos zero) few = grow_to-capacity a 8 (omega arith) few
  resize-capacity a (pos (suc n)) few = grow_to-capacity a (suc n) (omega arith) few
  resize-capacity a (negsuc n) few = grow_to-capacity a 8 (omega arith) few

  -- `_array_resize` of a valid array to at most 2 ^ 30 slots: its loop on `int`s ends, with as many
  -- rounds as slots are asked for, at the capacity that the array then has; there is room for what is
  -- asked, the elements are kept and nothing is freed, and the capacity is below twice the request if
  -- it is not the old one.
  pub resize-within :
      (a : Array A) (mincap : ℤ)
      → IsValid a
      → min_capacity mincap ≤ 2 ^ 30
      → (resized_capacity (min_capacity mincap) a.capacity (min_capacity mincap)
          ≡ some (resize a mincap).capacity)
        × Grown a (min_capacity mincap) (resize a mincap)
  resize-within a mincap v few = (resize-capacity a mincap few, resize-Grown a mincap v)

-- From 0 the loop does not get anywhere.
double_until-zero : (fuel mincap : ℕ) → 0 < mincap → double_until fuel 0 mincap ≡ none
unfolding double_until
double_until-zero zero mincap own =
    let below : int_below 0 mincap ≡ true = ground arith in rw below refl
double_until-zero (suc n) mincap own =
    let below : int_below 0 mincap ≡ true = ground arith in
    rw (below, double_until-zero n mincap own) refl

round_lem :
    (newcap mincap next : ℕ)
    → int_below newcap mincap ≡ true
    → newcap * 2 % 2 ^ 32 ≡ next
    → ((fuel : ℕ) → double_until fuel next mincap ≡ none)
    → (fuel : ℕ) → double_until fuel newcap mincap ≡ none
unfolding double_until
round_lem newcap mincap next below e rest zero = rw below refl
round_lem newcap mincap next below e rest (suc n) = rw (below, e, rest n) refl

-- An array of 2 ^ 30 slots that is asked for more, up to the largest `int`, never gets them where the
-- overflow wraps around: the doubled `int` is negative, then 0, and the loop does not end, with any
-- fuel.
pub resized_capacity-stuck :
    (fuel mincap : ℕ)
    → 2 ^ 30 < mincap
    → mincap < 2 ^ 31
    → resized_capacity fuel (2 ^ 30) mincap ≡ none
unfolding resized_capacity
resized_capacity-stuck fuel mincap more int =
    let short : leb mincap (2 ^ 30) ≡ false = ground arith in
    rw short (
      round_lem (2 ^ 30) mincap (2 ^ 31) (ground arith) (omega arith)
        (round_lem (2 ^ 31) mincap 0 (ground arith) (omega arith)
          (λ n. double_until-zero n mincap (omega arith)))
        fuel)
