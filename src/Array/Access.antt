-- ===== src/Array/Access.antt =====
-- Reads of the array, pushes and pops, on the sequence of its elements.
use obelix.Prelude.{
  ℕ, zero, suc, ◌-◌, ◌≤◌, ◌≡◌, refl, Bool, true, false, Option, none, some, List, [], ◌∷◌, ◌++◌,
  ltb, if◌then◌else◌, length, take, get_elem?, arith, ap, ◌==◌, sym, ◌∙◌, length-take,
  length-append,
}
use mathlib.Core.List.{reverse, reverse-cons}
use obelix.Prelude.Int.{ℤ, pos, negsuc}
use obelix.Array.{Array, Errno, clear, efault, slot, set, push, get, get_at, free_slot}
use obelix.Array.Growth.{IsValid, IsClean, items}
use obelix.Array.Contents.{put, put-length, slot-take_past, Wrote, set_at-Wrote}

module _ {ℓ} {A : Type ℓ} where
  pub length-items : (a : Array A) → IsValid a → length (items a) ≡ a.size
  length-items a v = omega (arith, length-take a.size a.contents, v.filled, v.fits)

  -- The slot that a write with index `ix` goes to.
  abbrev pub write_index : Array A → ℤ → ℕ
  write_index a (pos i) = i
  write_index a (negsuc n) = a.size

  pub set-Wrote :
      (a : Array A) (ix : ℤ) (x : Option A)
      → IsValid a
      → IsClean a
      → Wrote a (write_index a ix) x (set a ix x)
  unfolding set
  set-Wrote a (pos i) x v c = set_at-Wrote a i x v c
  set-Wrote a (negsuc n) x v c = set_at-Wrote a a.size x v c

  pub free_slot-none : (owns : Bool) (log : List A) → free_slot owns none log ≡ log
  free_slot-none true log = refl
  free_slot-none false log = refl

  pub items-push :
      (a : Array A) (x : Option A)
      → IsValid a
      → IsClean a
      → (items (push a x) ≡ items a ++ x ∷ [])
        × ((push a x).size ≡ suc a.size)
        × ((push a x).freed ≡ a.freed)
  unfolding push
  items-push a x v c =
      let w = set-Wrote a (negsuc 0) x v c in
      let len = length-items a v in
      (
        w.reads ∙ ap (λ n. put (items a) n x) (sym len) ∙ put-length (items a) x,
        omega (arith, w.bigger),
        w.frees
            ∙ (rw (slot-take_past a.contents a.size a.size (omega arith))
                (free_slot-none a.owns a.freed)),
      )

  -- What `array_get` reports about an element that is or is not there.
  abbrev pub reported : Option (Option A) → Errno × Option A
  reported none = (efault, none)
  reported (some o) = (clear, o)

  get_elem?-slot :
      (xs : List (Option A)) (n i : ℕ)
      → n ≤ length xs
      → reported (get_elem? (take n xs) i)
        ≡ (if ltb i n then (clear, slot xs i) else (efault, none))
  get_elem?-slot xs zero i h = ground arith
  get_elem?-slot [] (suc n) i h = absurd (omega arith)
  get_elem?-slot (x ∷ xs) (suc n) zero h = ground arith
  get_elem?-slot (x ∷ xs) (suc n) (suc i) h = ground (arith, get_elem?-slot xs n i)

  get_elem?-append :
      (xs : List (Option A)) (y : Option A) (i : ℕ)
      → get_elem? (xs ++ y ∷ []) i
        ≡ (if ltb i (length xs) then get_elem? xs i else if i == length xs then some y else none)
  get_elem?-append [] y zero = refl
  get_elem?-append [] y (suc i) = ground arith
  get_elem?-append (x ∷ xs) y zero = ground arith
  get_elem?-append (x ∷ xs) y (suc i) = ground (arith, get_elem?-append xs y i)

  get_elem?-cons :
      (x : Option A) (xs : List (Option A)) (m : ℕ)
      → get_elem? (x ∷ xs) m ≡ (if m == 0 then some x else get_elem? xs (m - 1))
  get_elem?-cons x xs zero = refl
  get_elem?-cons x xs (suc m) = ground arith

  length-reverse : (xs : List (Option A)) → length (reverse xs) ≡ length xs
  length-reverse [] = refl
  length-reverse (x ∷ xs) =
      rw reverse-cons (omega (arith, length-append (reverse xs) (x ∷ []), length-reverse xs))

  get_elem?-reverse :
      (xs : List (Option A)) (n : ℕ)
      → get_elem? (reverse xs) n
        ≡ (if ltb n (length xs) then get_elem? xs (length xs - suc n) else none)
  get_elem?-reverse [] n = ground arith
  get_elem?-reverse (x ∷ xs) n =
      rw (reverse-cons, get_elem?-append, length-reverse, get_elem?-reverse xs n)
        (ground (arith, get_elem?-cons x xs (length xs - n)))

  -- `array_get` reads from the front, and with a negative index from the back.
  pub get_lem :
      (a : Array A) (n : ℕ)
      → IsValid a
      → (get a (pos n) ≡ reported (get_elem? (items a) n))
        × (get a (negsuc n) ≡ reported (get_elem? (reverse (items a)) n))
  unfolding get get_at
  get_lem a n v =
      let len = length-items a v in
      let fits : a.size ≤ length a.contents = omega (arith, v.filled, v.fits) in
      (
        sym (get_elem?-slot a.contents a.size n fits),
        rw (get_elem?-reverse (items a) n, len)
            (ground (arith, get_elem?-slot a.contents a.size (a.size - suc n) fits)),
      )
