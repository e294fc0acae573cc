-- ===== src/Array/Growth.antt =====
-- Storage of the array: the doubling loop of `_array_resize`, and what growing keeps.
use obelix.Prelude.{
  ℕ, zero, suc, ◌+◌, ◌-◌, ◌*◌, ◌≤◌, ◌<◌, ◌≡◌, ◌⊎◌, inl, inr, refl, Option, none, List, [], ◌∷◌,
  ◌++◌, leb, length, take, replicate, length-append, length-replicate, arith, Bool-cases,
}
use obelix.Prelude.Int.{ℤ, pos, negsuc}
use obelix.Array.{Array, double_within, new_capacity, grow_to, resize, slot, min_capacity}

-- Enough fuel: the loop ends at or above `mincap`, and below its double if it ran at all.
pub double_within_bounds :
    (fuel newcap mincap : ℕ)
    → 0 < newcap
    → mincap ≤ newcap + fuel
    → (mincap ≤ double_within fuel newcap mincap)
      × (newcap ≤ double_within fuel newcap mincap)
      × ((double_within fuel newcap mincap ≡ newcap)
          ⊎ (double_within fuel newcap mincap < 2 * mincap))
unfolding double_within
double_within_bounds zero newcap mincap p h = (omega arith, omega arith, inl refl)
double_within_bounds (suc fuel) newcap mincap p h =
    ground (arith, double_within_bounds fuel (newcap * 2) mincap)

-- The capacity that a request for `mincap` slots leads to.
pub new_capacity_bounds :
    (cap mincap : ℕ)
    → cap < mincap
    → (mincap ≤ new_capacity cap mincap) × (new_capacity cap mincap < 2 * mincap)
unfolding new_capacity
new_capacity_bounds zero mincap h = ground (arith, double_within_bounds mincap mincap mincap)
new_capacity_bounds (suc c) mincap h = ground (arith, double_within_bounds mincap (suc c) mincap)

module _ {ℓ} {A : Type ℓ} where
  -- The slots fill the capacity, and the elements fit in the slots.
  pub record IsValid (a : Array A) : Type ℓ where
    pub filled : length a.contents ≡ a.capacity
    pub fits : a.size ≤ a.capacity

  -- The slots past the elements hold NULL.
  abbrev pub IsClean : Array A → Type ℓ
  IsClean a = (j : ℕ) → a.size ≤ j → slot a.contents j ≡ none

  -- The elements, in order: what a client sees.
  abbrev pub items : Array A → List (Option A)
  items a = take a.size a.contents

  pub slot-append_none :
      (xs : List (Option A)) (n j : ℕ) → slot (xs ++ replicate n none) j ≡ slot xs j
  slot-append_none [] zero j = refl
  slot-append_none [] (suc n) zero = refl
  slot-append_none [] (suc n) (suc j) = slot-append_none [] n j
  slot-append_none (x ∷ xs) n zero = refl
  slot-append_none (x ∷ xs) n (suc j) = slot-append_none xs n j

  pub take-append :
      (xs ys : List (Option A)) (n : ℕ) → n ≤ length xs → take n (xs ++ ys) ≡ take n xs
  take-append xs ys zero h = refl
  take-append [] ys (suc n) h = absurd (omega arith)
  take-append (x ∷ xs) ys (suc n) h = ground (arith, take-append xs ys n)

  -- What growing to `m` slots leaves: room for `m`, and the array otherwise as it was.
  pub record Grown (a : Array A) (m : ℕ) (r : Array A) : Type ℓ where
    pub valid : IsValid r
    pub room : m ≤ r.capacity
    pub size : r.size ≡ a.size
    pub owns : r.owns ≡ a.owns
    pub freed : r.freed ≡ a.freed
    pub same_items : items r ≡ items a
    pub same_slots : (j : ℕ) → slot r.contents j ≡ slot a.contents j
    pub amortised : (r.capacity ≡ a.capacity) ⊎ (r.capacity < 2 * m)

  module _ (a : Array A) (m cap : ℕ) (v : IsValid a) where
    widened : Array A
    widened = record a {
      contents = a.contents ++ replicate (cap - a.capacity) none;
      capacity = cap;
    }

    widened-Grown :
        m ≤ cap → a.capacity ≤ cap → (cap ≡ a.capacity) ⊎ (cap < 2 * m) → Grown a m widened
    unfolding widened
    widened-Grown room larger am = record {
      valid = record {
        filled = omega (
          arith,
          length-append a.contents (replicate (cap - a.capacity) none),
          length-replicate {A = Option A} (cap - a.capacity) none,
          v.filled,
        );
        fits = omega arith;
      };
      room = room;
      size = refl;
      owns = refl;
      freed = refl;
      same_items = take-append a.contents _ a.size (omega arith);
      same_slots = slot-append_none a.contents _;
      amortised = am;
    }

  pub grow_to-Grown : (a : Array A) (m : ℕ) → IsValid a → 0 < m → Grown a m (grow_to a m)
  unfolding grow_to new_capacity widened
  grow_to-Grown a m v p = elim (Bool-cases (leb m a.capacity)) [
    | inl enough ↦ rw enough (record {
      valid = v;
      room = ground arith;
      size = refl;
      owns = refl;
      freed = refl;
      same_items = refl;
      same_slots = λ j. refl;
      amortised = inl refl;
    })
    | inr short ↦ rw short (
        let below : a.capacity < m = ground arith in
        let (room, low) = new_capacity_bounds a.capacity m below in
        widened-Grown a m _ v room (omega arith) (inr low))
  ]

  pub resize-Grown :
      (a : Array A) (mincap : ℤ) → IsValid a → Grown a (min_capacity mincap) (resize a mincap)
  unfolding resize
  resize-Grown a (pos zero) v = grow_to-Grown a 8 v (omega arith)
  resize-Grown a (pos (suc n)) v = grow_to-Grown a (suc n) v (omega arith)
  resize-Grown a (negsuc n) v = grow_to-Grown a 8 v (omega arith)
