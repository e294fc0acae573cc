-- ===== src/Array/Contents.antt =====
-- The elements that a client of the array sees, under each operation that writes.
use Prim.Native.Nat.{max}
use obelix.Prelude.{
  ℕ, zero, suc, ◌≤◌, ◌<◌, ◌≡◌, inl, inr, refl, Option, none, List, [], ◌∷◌, ◌++◌, ltb, leb,
  if◌then◌else◌, length, take, get_or-set, set as set_slot, length-set, arith, Bool-cases, ap, ap₂,
  ◌==◌, sym, ◌∙◌,
}
use obelix.Prelude.Int.{pos}
use obelix.Array.{Array, resize, slot, set_at, free_slot}
use obelix.Array.Growth.{IsValid, IsClean, items, Grown, resize-Grown}

module _ {ℓ} {A : Type ℓ} where
  -- A write to a sequence: past its end it is filled up with NULL.
  abbrev pub put : List (Option A) → ℕ → Option A → List (Option A)
  put [] zero x = x ∷ []
  put [] (suc i) x = none ∷ put [] i x
  put (y ∷ ys) zero x = x ∷ ys
  put (y ∷ ys) (suc i) x = y ∷ put ys i x

  -- A sequence without its element at `i`.
  abbrev pub erase_at : List (Option A) → ℕ → List (Option A)
  erase_at [] i = []
  erase_at (y ∷ ys) zero = ys
  erase_at (y ∷ ys) (suc i) = y ∷ erase_at ys i

  pub take-set-put :
      (xs : List (Option A)) (n i m : ℕ) (x : Option A)
      → i < length xs
      → m ≡ max n (suc i)
      → ((j : ℕ) → n ≤ j → slot xs j ≡ none)
      → take m (set_slot xs i x) ≡ put (take n xs) i x
  take-set-put [] n i m x h e c = absurd (omega arith)
  take-set-put (y ∷ ys) n i zero x h e c = absurd (omega arith)
  take-set-put (y ∷ ys) zero zero (suc m) x h e c = let done : m ≡ 0 = omega arith in rw done
  take-set-put (y ∷ ys) zero (suc i) (suc m) x h e c =
      ap₂ ◌∷◌ (c 0 (omega arith))
        (take-set-put ys 0 i m x (omega arith) (omega arith) (λ j p. c (suc j) (omega arith)))
  take-set-put (y ∷ ys) (suc n) zero (suc m) x h e c = let same : m ≡ n = omega arith in rw same
  take-set-put (y ∷ ys) (suc n) (suc i) (suc m) x h e c =
      ap (λ zs. y ∷ zs)
        (take-set-put ys n i m x (omega arith) (omega arith) (λ j p. c (suc j) (omega arith)))

  pub slot-set :
      (xs : List (Option A)) (i j : ℕ) (x : Option A)
      → i < length xs
      → slot (set_slot xs i x) j ≡ (if i == j then x else slot xs j)
  slot-set xs i j x h = get_or-set xs i j x none h

  pub put-length : (xs : List (Option A)) (x : Option A) → put xs (length xs) x ≡ xs ++ x ∷ []
  put-length [] x = refl
  put-length (y ∷ ys) x = ap (λ zs. y ∷ zs) (put-length ys x)

  pub slot-take : (xs : List (Option A)) (n i : ℕ) → i < n → slot (take n xs) i ≡ slot xs i
  slot-take xs zero i h = absurd (omega arith)
  slot-take [] (suc n) i h = refl
  slot-take (x ∷ xs) (suc n) zero h = refl
  slot-take (x ∷ xs) (suc n) (suc i) h = slot-take xs n i (omega arith)

  pub slot-take_past : (xs : List (Option A)) (n i : ℕ) → n ≤ i → slot (take n xs) i ≡ none
  slot-take_past xs zero i h = refl
  slot-take_past [] (suc n) i h = refl
  slot-take_past (x ∷ xs) (suc n) zero h = absurd (omega arith)
  slot-take_past (x ∷ xs) (suc n) (suc i) h = slot-take_past xs n i (omega arith)

  -- In a clean array every slot reads as the sequence of the elements does.
  pub slot-items : (a : Array A) → IsClean a → (i : ℕ) → slot a.contents i ≡ slot (items a) i
  slot-items a c i = elim (Bool-cases (ltb i a.size)) [
    | inl inside ↦ sym (slot-take a.contents a.size i (ground arith))
    | inr past ↦ c i (ground arith) ∙ sym (slot-take_past a.contents a.size i (ground arith))
  ]

  -- A write of `x` at `i`, which frees what stood there if the array owns its elements.
  pub record Wrote (a : Array A) (i : ℕ) (x : Option A) (r : Array A) : Type ℓ where
    pub valid : IsValid r
    pub clean : IsClean r
    pub same_owns : r.owns ≡ a.owns
    pub reads : items r ≡ put (items a) i x
    pub frees : r.freed ≡ free_slot a.owns (slot (items a) i) a.freed
    pub bigger : r.size ≡ max a.size (suc i)

  module _ (a r : Array A) (i : ℕ) (x : Option A) (c : IsClean a) (g : Grown a (suc i) r) where
    stored : Array A
    stored = record r {
      contents = set_slot r.contents i x;
      size = if leb r.size i then suc i else r.size;
      freed = free_slot r.owns (slot r.contents i) r.freed;
    }

    r_clean : (j : ℕ) → r.size ≤ j → slot r.contents j ≡ none
    r_clean j h = g.same_slots j ∙ c j (omega (arith, g.size))

    stored-Wrote : Wrote a i x stored
    unfolding stored
    stored-Wrote =
        let inside : i < length r.contents = omega (arith, g.valid.filled, g.room) in
        let most : (if leb r.size i then suc i else r.size) ≡ max r.size (suc i) = ground arith in
        record {
          valid = record {
            filled = length-set r.contents i x ∙ g.valid.filled;
            fits = ground (arith, g.valid.fits, g.room);
          };
          clean = λ j h. ground (arith, slot-set r.contents i j x inside, r_clean j);
          same_owns = g.owns;
          reads =
              take-set-put r.contents r.size i _ x inside most r_clean
              ∙ ap (λ zs. put zs i x) g.same_items;
          frees = rw (g.owns, g.freed, g.same_slots, slot-items a c i);
          bigger = most ∙ ap (λ n. max n (suc i)) g.size;
        }

  pub set_at-Wrote :
      (a : Array A) (i : ℕ) (x : Option A) → IsValid a → IsClean a → Wrote a i x (set_at a i x)
  unfolding set_at stored
  set_at-Wrote a i x v c =
      stored-Wrote a (resize a (pos (suc i))) i x c (resize-Grown a (pos (suc i)) v)
