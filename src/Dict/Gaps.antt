-- ===== src/Dict/Gaps.antt =====
-- The entries of one bucket when one is taken out: `_bucket_remove`, and the indices that the
-- entries carry.
use obelix.Prelude.{
  ℕ, zero, suc, ◌+◌, ◌≤◌, ◌≡◌, refl, none, some, List, [], ◌∷◌, ◌++◌, if◌then◌else◌, length,
  get_elem?, arith, ap,
}
use obelix.KeyType.{KeyType, same_congr, same_congr_right}
use obelix.Dict.{Entry, bucket_find_entry, renumber, close_gap}
use obelix.Dict.Chains.{lookup, count, lookup-eq-none}

module _ {ℓ} {K V : Type ℓ} where
  -- The entries carry their positions, counted from `i`.
  abbrev pub IsNumbered : ℕ → List (Entry K V) → Type 0
  IsNumbered i [] = Unit
  IsNumbered i (e ∷ es) = (e.ix ≡ i) × IsNumbered (suc i) es

  pub IsNumbered-append :
      (i : ℕ) (es : List (Entry K V)) (e : Entry K V)
      → IsNumbered i es
      → e.ix ≡ i + length es
      → IsNumbered i (es ++ e ∷ [])
  IsNumbered-append i [] e h p = (omega arith, tt)
  IsNumbered-append i (f ∷ es) e h p = (h.0, IsNumbered-append (suc i) es e h.1 (omega arith))

  IsNumbered-renumber :
      (ix i : ℕ) (es : List (Entry K V)) → ix ≤ i → IsNumbered i (renumber ix i es)
  unfolding renumber
  IsNumbered-renumber ix i [] h = tt
  IsNumbered-renumber ix i (e ∷ es) h =
      (ground arith, IsNumbered-renumber ix (suc i) es (omega arith))

  pub IsNumbered-close_gap :
      (ix i j : ℕ) (es : List (Entry K V))
      → ix ≡ i + j
      → IsNumbered i es
      → IsNumbered i (renumber ix i (close_gap es j))
  unfolding close_gap renumber
  IsNumbered-close_gap ix i j [] p h = tt
  IsNumbered-close_gap ix i zero (e ∷ es) p h = IsNumbered-renumber ix i es (omega arith)
  IsNumbered-close_gap ix i (suc j) (e ∷ es) p h =
      (ground arith, IsNumbered-close_gap ix (suc i) j es (omega arith) h.1)

  pub length-renumber : (ix i : ℕ) (es : List (Entry K V)) → length (renumber ix i es) ≡ length es
  unfolding renumber
  length-renumber ix i [] = refl
  length-renumber ix i (e ∷ es) = ap suc (length-renumber ix (suc i) es)

module _ {ℓ} {K V : Type ℓ} ⦃t : KeyType K⦄ where
  -- The position of the first entry with the key.
  pub first_index : List (Entry K V) → K → ℕ
  first_index [] key = 0
  first_index (e ∷ es) key = if t.same e.key key then 0 else suc (first_index es key)

  pub ix-first_index :
      (i : ℕ) (es : List (Entry K V)) (k : K) (e : Entry K V)
      → IsNumbered i es
      → bucket_find_entry es k ≡ some e
      → e.ix ≡ i + first_index es k
  unfolding first_index bucket_find_entry
  ix-first_index i [] k e h f = ground arith
  ix-first_index i (g ∷ es) k e h f = ground (arith, ix-first_index (suc i) es k e h.1)

  pub get_elem?-first_index :
      (es : List (Entry K V)) (k : K) (e : Entry K V)
      → bucket_find_entry es k ≡ some e
      → get_elem? es (first_index es k) ≡ some e
  unfolding first_index bucket_find_entry
  get_elem?-first_index [] k e f = f
  get_elem?-first_index (g ∷ es) k e f = ground (arith, get_elem?-first_index es k e)

  pub lookup-renumber :
      (ix i : ℕ) (es : List (Entry K V)) (q : K) → lookup (renumber ix i es) q ≡ lookup es q
  unfolding renumber lookup
  lookup-renumber ix i [] q = refl
  lookup-renumber ix i (e ∷ es) q = ground (arith, lookup-renumber ix (suc i) es q)

  pub count-renumber :
      (ix i : ℕ) (es : List (Entry K V)) (q : K) → count q (renumber ix i es) ≡ count q es
  unfolding renumber count
  count-renumber ix i [] q = refl
  count-renumber ix i (e ∷ es) q = ground (arith, count-renumber ix (suc i) es q)

  module _ (k q : K) where
    pub lookup-close_gap :
        (es : List (Entry K V)) (e : Entry K V)
        → bucket_find_entry es k ≡ some e
        → count q es ≤ 1
        → lookup (close_gap es (first_index es k)) q ≡ (if t.same k q then none else lookup es q)
    unfolding lookup close_gap first_index bucket_find_entry count
    lookup-close_gap [] e h c = ground arith
    lookup-close_gap (f ∷ es) e h c = ground (
      arith,
      lookup-close_gap es e,
      lookup-eq-none es q,
      same_congr_right f.key k q,
      same_congr f.key k q,
    )

    pub count-close_gap-le : (es : List (Entry K V)) (j : ℕ) → count q (close_gap es j) ≤ count q es
    unfolding count close_gap
    count-close_gap-le [] j = omega arith
    count-close_gap-le (f ∷ es) zero = omega arith
    count-close_gap-le (f ∷ es) (suc j) = omega (arith, count-close_gap-le es j)

  pub length-close_gap :
      (es : List (Entry K V)) (k : K) (e : Entry K V)
      → bucket_find_entry es k ≡ some e
      → suc (length (close_gap es (first_index es k))) ≡ length es
  unfolding close_gap first_index bucket_find_entry
  length-close_gap [] k e h = ground arith
  length-close_gap (f ∷ es) k e h = ground (arith, length-close_gap es k e)
