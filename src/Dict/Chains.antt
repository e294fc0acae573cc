-- ===== src/Dict/Chains.antt =====
-- The entries of one bucket: what a search finds after each write to it.
use obelix.Prelude.{
  ℕ, ◌+◌, ◌≡◌, refl, Bool, true, false, Option, none, some, List, [], ◌∷◌, ◌++◌, if◌then◌else◌,
  length, arith, ◌∙◌,
}
use obelix.KeyType.{KeyType, same_congr, same_congr_right}
use obelix.Dict.{Entry, bucket_find_entry, overwrite}

abbrev pub one_if : Bool → ℕ
one_if true = 1
one_if false = 0

abbrev pub or_else {ℓ} : {A : Type ℓ} → Option A → Option A → Option A
or_else none o = o
or_else (some v) o = some v

module _ {ℓ} {K V : Type ℓ} ⦃t : KeyType K⦄ where
  -- The value that a search for `q` leads to.
  unfoldable pub lookup : List (Entry K V) → K → Option (Option V)
  lookup [] q = none
  lookup (e ∷ es) q = if t.same e.key q then some e.value else lookup es q

  unfoldable pub count : K → List (Entry K V) → ℕ
  count q [] = 0
  count q (e ∷ es) = one_if (t.same e.key q) + count q es

  pub lookup-append :
      (es fs : List (Entry K V)) (q : K) → lookup (es ++ fs) q ≡ or_else (lookup es q) (lookup fs q)
  unfolding lookup
  lookup-append [] fs q = refl
  lookup-append (e ∷ es) fs q = ground (arith, lookup-append es fs q)

  pub count-append :
      (q : K) (es fs : List (Entry K V)) → count q (es ++ fs) ≡ count q es + count q fs
  unfolding count
  count-append q [] fs = omega arith
  count-append q (e ∷ es) fs = omega (arith, count-append q es fs)

  pub lookup-eq-none : (es : List (Entry K V)) (q : K) → count q es ≡ 0 → lookup es q ≡ none
  unfolding lookup count
  lookup-eq-none [] q h = refl
  lookup-eq-none (e ∷ es) q h = ground (arith, lookup-eq-none es q)

  -- `_bucket_find_entry` finds what the search leads to, at the entry with the key.
  pub find-lookup :
      (es : List (Entry K V)) (q : K)
      → lookup es q ≡ elim (bucket_find_entry es q) [ none ↦ none | some e ↦ some e.value ]
  unfolding lookup bucket_find_entry
  find-lookup [] q = refl
  find-lookup (e ∷ es) q = ground (arith, find-lookup es q)

  pub lookup_found :
      (es : List (Entry K V)) (q : K) (e : Entry K V)
      → bucket_find_entry es q ≡ some e
      → lookup es q ≡ some e.value
  lookup_found es q e h = find-lookup es q ∙ rw h

  pub lookup_absent :
      (es : List (Entry K V)) (q : K) → bucket_find_entry es q ≡ none → lookup es q ≡ none
  lookup_absent es q h = find-lookup es q ∙ rw h

  pub count-eq-zero :
      (es : List (Entry K V)) (k q : K) → lookup es k ≡ none → t.same k q ≡ true → count q es ≡ 0
  unfolding count lookup
  count-eq-zero [] k q h s = refl
  count-eq-zero (e ∷ es) k q h s =
      ground (arith, count-eq-zero es k q, same_congr_right e.key k q s)

  -- Equal keys lead to the same value.
  pub lookup_congr :
      (es : List (Entry K V)) (k q : K) → t.same k q ≡ true → lookup es q ≡ lookup es k
  unfolding lookup
  lookup_congr [] k q s = refl
  lookup_congr (e ∷ es) k q s = ground (arith, lookup_congr es k q, same_congr_right e.key k q s)

  pub lookup-overwrite :
      (es : List (Entry K V)) (k q : K) (v : Option V) (e : Entry K V)
      → bucket_find_entry es k ≡ some e
      → lookup (overwrite es k v) q ≡ (if t.same k q then some v else lookup es q)
  unfolding lookup overwrite bucket_find_entry
  lookup-overwrite [] k q v e h = ground arith
  lookup-overwrite (f ∷ es) k q v e h =
      ground (arith, lookup-overwrite es k q v e, same_congr_right f.key k q, same_congr f.key k q)

  pub count-overwrite :
      (es : List (Entry K V)) (k q : K) (v : Option V) → count q (overwrite es k v) ≡ count q es
  unfolding count overwrite
  count-overwrite [] k q v = refl
  count-overwrite (f ∷ es) k q v = ground (arith, count-overwrite es k q v)

  pub length-overwrite :
      (es : List (Entry K V)) (k : K) (v : Option V) → length (overwrite es k v) ≡ length es
  unfolding overwrite
  length-overwrite [] k v = refl
  length-overwrite (f ∷ es) k v = ground (arith, length-overwrite es k v)
