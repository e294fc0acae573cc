-- ===== src/Array/Slice.antt =====
-- `array_create` and `array_slice` of lib/array.c.
use Prim.Native.Nat.{min}
use obelix.Prelude.{
  ℕ, zero, suc, ◌+◌, ◌-◌, ◌≤◌, ◌<◌, ◌≡◌, ◌⊎◌, inl, inr, refl, Bool, false, Option, List, [], ◌∷◌,
  ◌++◌, if◌then◌else◌, length, take, drop, arith, ap, ap₂, sym, ◌∙◌, append-nil, append_assoc,
}
use obelix.Prelude.Int.{ℤ, pos, negsuc, pos_part, ltb_ℤ, ◌+ℤ◌, ◌-ℤ◌}
use obelix.Array.{Array, slot, set, get, get_at, create, set_free}
use obelix.Array.Growth.{IsValid, IsClean, items, resize-Grown}
use obelix.Array.Contents.{put, put-length, slot-take}
use obelix.Array.Access.{length-items, set-Wrote}

-- The number of elements that a slice takes; it may be negative.
unfoldable pub slice_count : ℕ → ℤ → ℤ → ℤ
unfolding ◌+ℤ◌ ◌-ℤ◌
slice_count size from num =
    let n = if ltb_ℤ (pos 0) num then num else pos size -ℤ from +ℤ num +ℤ pos 1 in
    if ltb_ℤ (pos size) (from +ℤ n) then pos size -ℤ from else n

module _ {ℓ} {A : Type ℓ} where
  -- `for (ix = 0; ix < num; ix++)`, by the rounds left.
  copy_from : ℕ → ℕ → Array A → ℤ → Array A → Array A
  copy_from zero ix src from ret = ret
  copy_from (suc n) ix src from ret =
      copy_from n (suc ix) src from (set ret (pos ix) (get src (from +ℤ pos ix)).1)

  unfoldable pub slice : Array A → ℤ → ℤ → Array A
  unfolding copy_from
  slice a from num =
      let n = slice_count a.size from num in
      copy_from (pos_part n) 0 a from (set_free (create n) false)

  -- A new array is valid and clean, and holds nothing.
  pub create_lem :
      (c : ℤ)
      → IsValid (create {A = A} c)
        × IsClean (create {A = A} c)
        × (items (create {A = A} c) ≡ [])
        × ((create {A = A} c).size ≡ 0)
  unfolding create
  create_lem c =
      let g =
        resize-Grown {A = A}
          (record {
            contents = [];
            capacity = 0;
            size = 0;
            curix = pos 0;
            refs = 1;
            owns = false;
            freed = [];
          })
          c (record { filled = refl; fits = omega arith }) in
      (g.valid, (λ j h. g.same_slots j), g.same_items, g.size)

  pub set_free_lem :
      (a : Array A) (b : Bool)
      → IsValid a
      → IsClean a
      → IsValid (set_free a b)
        × IsClean (set_free a b)
        × (items (set_free a b) ≡ items a)
        × ((set_free a b).size ≡ a.size)
  unfolding set_free
  set_free_lem a b v c = (record { filled = v.filled; fits = v.fits }, c, refl, refl)

  take-drop-suc :
      (xs : List (Option A)) (n m : ℕ)
      → m < length xs
      → take (suc n) (drop m xs) ≡ slot xs m ∷ take n (drop (suc m) xs)
  take-drop-suc [] n m h = absurd (omega arith)
  take-drop-suc (x ∷ xs) n zero h = refl
  take-drop-suc (x ∷ xs) n (suc m) h = take-drop-suc xs n m (omega arith)

  get-pos :
      (a : Array A) (f ix : ℕ)
      → f + ix < a.size
      → (get a (pos f +ℤ pos ix)).1 ≡ slot (items a) (f + ix)
  unfolding get get_at ◌+ℤ◌
  get-pos a f ix h = ground (arith, slot-take a.contents a.size (f + ix) h)

  copy_from-items :
      (n ix f : ℕ) (src ret : Array A)
      → IsValid src
      → f + ix + n ≤ src.size
      → IsValid ret
      → IsClean ret
      → ret.size ≡ ix
      → IsValid (copy_from n ix src (pos f) ret)
        × IsClean (copy_from n ix src (pos f) ret)
        × (items (copy_from n ix src (pos f) ret) ≡ items ret ++ take n (drop (f + ix) (items src)))
  unfolding copy_from
  copy_from-items zero ix f src ret vs h v c e = (v, c, sym (append-nil (items ret)))
  copy_from-items (suc n) ix f src ret vs h v c e =
      let x = (get src (pos f +ℤ pos ix)).1 in
      let w = set-Wrote ret (pos ix) x v c in
      let len : length (items src) ≡ src.size = length-items src vs in
      let grown : items (set ret (pos ix) x) ≡ items ret ++ x ∷ [] =
        w.reads
        ∙ ap (λ k. put (items ret) k x) (sym (length-items ret v ∙ e))
        ∙ put-length (items ret) x in
      let (rv, rc, re) =
        copy_from-items n (suc ix) f src (set ret (pos ix) x) vs (omega arith) w.valid w.clean
          (omega (arith, w.bigger)) in
      let next : f + suc ix ≡ suc (f + ix) = omega arith in
      let one_more : x ∷ take n (drop (f + suc ix) (items src))
          ≡ take (suc n) (drop (f + ix) (items src)) =
        ap₂ (λ y k. y ∷ take n (drop k (items src))) (get-pos src f ix (omega arith)) next
        ∙ sym (take-drop-suc (items src) n (f + ix) (omega arith)) in
      (
        rv,
        rc,
        re
            ∙ ap (λ ys. ys ++ take n (drop (f + suc ix) (items src))) grown
            ∙ append_assoc (items ret) (x ∷ []) (take n (drop (f + suc ix) (items src)))
            ∙ ap (λ ys. items ret ++ ys) one_more,
      )

  -- The elements from index `f` on, as many as the slice counts.
  slice-take :
      (a : Array A) (f : ℕ) (num : ℤ)
      → IsValid a
      → (f + pos_part (slice_count a.size (pos f) num) ≤ a.size)
        ⊎ (pos_part (slice_count a.size (pos f) num) ≡ 0)
      → items (slice a (pos f) num)
        ≡ take (pos_part (slice_count a.size (pos f) num)) (drop f (items a))
  unfolding slice
  slice-take a f num v h =
      let n = slice_count a.size (pos f) num in
      let (v₀, c₀, e₀, s₀) = create_lem n in
      let (v₁, c₁, e₁, s₁) = set_free_lem (create n) false v₀ c₀ in
      elim h [
        | inl room ↦
            (copy_from-items (pos_part n) 0 f a _ v (omega arith) v₁ c₁ (s₁ ∙ s₀)).2
            ∙ ap₂ (λ ys k. ys ++ take (pos_part n) (drop k (items a))) (e₁ ∙ e₀) (omega arith)
        | inr nothing ↦ rw nothing (e₁ ∙ e₀)
      ]

-- How many elements a slice from `f` on is meant to hold.
abbrev pub slice_length : ℕ → ℕ → ℤ → ℕ
slice_length size f (pos zero) = size - f
slice_length size f (pos (suc n)) = min (suc n) (size - f)
slice_length size f (negsuc n) = size - f - n

slice_count-length :
    (size f : ℕ) (num : ℤ)
    → (pos_part (slice_count size (pos f) num) ≡ slice_length size f num)
      × ((f + slice_length size f num ≤ size) ⊎ (slice_length size f num ≡ 0))
unfolding slice_count ◌+ℤ◌ ◌-ℤ◌
slice_count-length size f (pos zero) = ground arith
slice_count-length size f (pos (suc n)) = ground arith
slice_count-length size f (negsuc n) = ground arith

-- A slice of `n` elements from index `f` on stops at the end of the array; without a positive count
-- it runs to the end, or leaves out `n` elements there for the count -(n + 1).
pub slice_lem {ℓ} :
    {A : Type ℓ} (a : Array A) (f : ℕ) (num : ℤ)
    → IsValid a
    → items (slice a (pos f) num) ≡ take (slice_length a.size f num) (drop f (items a))
slice_lem a f num v =
    let (same, room) = slice_count-length a.size f num in
    slice-take a f num v (rw same room) ∙ ap (λ k. take k (drop f (items a))) same

module _ {ℓ} {A : Type ℓ} where
  copy_from-IsValid :
      (n ix : ℕ) (src : Array A) (from : ℤ) (ret : Array A)
      → IsValid ret
      → IsClean ret
      → IsValid (copy_from n ix src from ret)
  unfolding copy_from
  copy_from-IsValid zero ix src from ret v c = v
  copy_from-IsValid (suc n) ix src from ret v c =
      let w = set-Wrote ret (pos ix) (get src (from +ℤ pos ix)).1 v c in
      copy_from-IsValid n (suc ix) src from (set ret (pos ix) (get src (from +ℤ pos ix)).1) w.valid
        w.clean

  pub slice-IsValid : (a : Array A) (from num : ℤ) → IsValid (slice a from num)
  unfolding slice
  slice-IsValid a from num =
      let n = slice_count a.size from num in
      let (v, c, _, _) = create_lem {A = A} n in
      let (v', c', _, _) = set_free_lem (create n) false v c in
      copy_from-IsValid (pos_part n) 0 a from (set_free (create n) false) v' c'
