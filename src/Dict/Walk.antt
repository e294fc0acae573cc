-- ===== src/Dict/Walk.antt =====
-- The operations of lib/dict.c that go over all the entries: reduce, the lists of keys and values,
-- and clear.
use obelix.Prelude.{
  ℕ, zero, suc, ◌+◌, ◌<◌, ◌≡◌, inl, inr, refl, Bool, Option, none, some, List, [], ◌∷◌, ◌++◌, map,
  ◌==◌, if◌then◌else◌, length, length-map, arith, Bool-cases, Option-cases, ap, sym, ◌∙◌,
  append_assoc, append-nil,
}
use obelix.KeyType.{KeyType}
use obelix.Dict.{Entry, Bucket, Dict, empty_bucket, bucket_at, num_buckets, free_entry, log_free}
use obelix.Dict.Chains.{one_if, lookup, count}
use obelix.Dict.Placement.{all_entries, view}
use obelix.Dict.Valid.{IsValid, all_entries-view}
use obelix.Dict.Puts.{found, view-empty}

module _ {ℓ κ} {K V : Type ℓ} {S : Type κ} where
  -- `_bucket_reduce`
  unfoldable pub bucket_reduce : List (Entry K V) → (Entry K V → S → S) → S → S
  bucket_reduce [] reducer s = s
  bucket_reduce (e ∷ es) reducer s = bucket_reduce es reducer (reducer e s)

  unfoldable pub reduce_buckets : List (Bucket K V) → (Entry K V → S → S) → S → S
  unfolding bucket_reduce
  reduce_buckets [] reducer s = s
  reduce_buckets (b ∷ bs) reducer s = reduce_buckets bs reducer (bucket_reduce b.entries reducer s)

  -- `_dict_reduce`, over the entries; for keys or values the callback looks at that part.
  unfoldable pub reduce : Dict K V → (Entry K V → S → S) → S → S
  unfolding reduce_buckets
  reduce d reducer s = reduce_buckets d.buckets reducer s

  bucket_reduce-append :
      (es fs : List (Entry K V)) (f : Entry K V → S → S) (s : S)
      → bucket_reduce (es ++ fs) f s ≡ bucket_reduce fs f (bucket_reduce es f s)
  unfolding bucket_reduce
  bucket_reduce-append [] fs f s = refl
  bucket_reduce-append (e ∷ es) fs f s = bucket_reduce-append es fs f (f e s)

  reduce_buckets-all_entries :
      (bs : List (Bucket K V)) (f : Entry K V → S → S) (s : S)
      → reduce_buckets bs f s ≡ bucket_reduce (all_entries bs) f s
  unfolding reduce_buckets all_entries
  reduce_buckets-all_entries [] f s = refl
  reduce_buckets-all_entries (b ∷ bs) f s =
      reduce_buckets-all_entries bs f (bucket_reduce b.entries f s)
      ∙ sym (bucket_reduce-append b.entries (all_entries bs) f s)

  pub reduce-all_entries :
      (d : Dict K V) (f : Entry K V → S → S) (s : S)
      → reduce d f s ≡ bucket_reduce (all_entries d.buckets) f s
  unfolding reduce
  reduce-all_entries d f s = reduce_buckets-all_entries d.buckets f s

module _ {ℓ} {K V : Type ℓ} where
  -- `dict_keys`, `dict_values`: each is appended to a new list.
  unfoldable pub keys : Dict K V → List K
  unfolding reduce
  keys d = reduce d (λ e ks. ks ++ e.key ∷ []) []

  unfoldable pub values : Dict K V → List (Option V)
  unfolding reduce
  values d = reduce d (λ e vs. vs ++ e.value ∷ []) []

  bucket_reduce-map {κ} :
      {B : Type κ} (es : List (Entry K V)) (part : Entry K V → B) (out : List B)
      → bucket_reduce es (λ e l. l ++ part e ∷ []) out ≡ out ++ map part es
  unfolding bucket_reduce
  bucket_reduce-map [] part out = sym (append-nil out)
  bucket_reduce-map (e ∷ es) part out =
      bucket_reduce-map es part (out ++ part e ∷ []) ∙ append_assoc out (part e ∷ []) (map part es)

  pub keys-map : (d : Dict K V) → keys d ≡ map (λ e. e.key) (all_entries d.buckets)
  unfolding keys
  keys-map d =
      reduce_buckets-all_entries d.buckets (λ e ks. ks ++ e.key ∷ []) []
      ∙ bucket_reduce-map (all_entries d.buckets) (λ e. e.key) []

  pub values-map : (d : Dict K V) → values d ≡ map (λ e. e.value) (all_entries d.buckets)
  unfolding values
  values-map d =
      reduce_buckets-all_entries d.buckets (λ e vs. vs ++ e.value ∷ []) []
      ∙ bucket_reduce-map (all_entries d.buckets) (λ e. e.value) []

  -- `_bucket_clear`: the entries are freed, and the bucket is as it was first.
  unfoldable pub bucket_clear : Bucket K V → Bucket K V
  bucket_clear b = empty_bucket

  unfoldable pub clear_frees : Dict K V → Dict K V
  unfolding reduce free_entry
  clear_frees d = reduce d (λ e r. free_entry r e) d

  unfoldable pub clear : Dict K V → Dict K V
  unfolding clear_frees bucket_clear
  clear d =
      if d.size == 0
      then d
      else record (clear_frees d) { buckets = map bucket_clear d.buckets; size = 0 }

  pub all_entries-clear : (bs : List (Bucket K V)) → all_entries (map bucket_clear bs) ≡ []
  unfolding all_entries bucket_clear
  all_entries-clear [] = refl
  all_entries-clear (b ∷ bs) = all_entries-clear bs

  bucket_at-clear :
      (bs : List (Bucket K V)) (i : ℕ) → bucket_at (map bucket_clear bs) i ≡ empty_bucket
  unfolding bucket_clear
  bucket_at-clear [] i = refl
  bucket_at-clear (b ∷ bs) zero = refl
  bucket_at-clear (b ∷ bs) (suc i) = bucket_at-clear bs i

  -- The values that are freed when all of `es` go, the last one first.
  abbrev pub freed_values : Bool → List (Entry K V) → List V → List V
  freed_values owns [] log = log
  freed_values owns (e ∷ es) log = freed_values owns es (log_free owns e.value log)

  clear_frees-data :
      (es : List (Entry K V)) (d : Dict K V)
      → (bucket_reduce es (λ e r. free_entry r e) d).freed_data
        ≡ freed_values d.owns_data es d.freed_data
  unfolding bucket_reduce
  clear_frees-data [] d = refl
  clear_frees-data (e ∷ es) d = clear_frees-data es (free_entry d e) ∙ (unfold free_entry in refl)

module _ {ℓ} {K : Type ℓ} ⦃t : KeyType K⦄ where
  -- How often a key equal to `q` is listed.
  abbrev pub times : K → List K → ℕ
  times q [] = 0
  times q (k ∷ ks) = one_if (t.same k q) + times q ks

module _ {ℓ} {K V : Type ℓ} ⦃t : KeyType K⦄ where
  times-count : (es : List (Entry K V)) (q : K) → times q (map (λ e. e.key) es) ≡ count q es
  unfolding count
  times-count [] q = refl
  times-count (e ∷ es) q = ap (λ n. one_if (t.same e.key q) + n) (times-count es q)

  count_pos : (es : List (Entry K V)) (q : K) (x : Option V) → lookup es q ≡ some x → 0 < count q es
  unfolding count lookup
  count_pos [] q x h = cc
  count_pos (e ∷ es) q x h = ground (arith, count_pos es q x)

  count_absent : (es : List (Entry K V)) (q : K) → lookup es q ≡ none → count q es ≡ 0
  unfolding count lookup
  count_absent [] q h = refl
  count_absent (e ∷ es) q h = ground (arith, count_absent es q)

  -- `dict_keys` lists each key of the map once and nothing else, and `dict_values` lists the values
  -- of the same entries; both are as long as the dictionary's size.
  pub keys_lem :
      (d : Dict K V) (q : K)
      → IsValid d
      → (times q (keys d) ≡ found (view d.buckets q))
        × (length (keys d) ≡ d.size)
        × (length (values d) ≡ d.size)
  keys_lem d q v =
      let es = all_entries d.buckets in
      let (finds, once) = all_entries-view d.buckets q v.placed in
      let listed : times q (keys d) ≡ count q es = ap (times q) (keys-map d) ∙ times-count es q in
      (
        listed ∙ elim (Option-cases (view d.buckets q)) [
          | inl absent ↦ count_absent es q (finds ∙ absent) ∙ ap found (sym absent)
          | inr (x, there) ↦
              let here = count_pos es q x (finds ∙ there) in
              let single : count q es ≡ 1 = omega arith in single ∙ ap found (sym there)
        ],
        ap length (keys-map d) ∙ length-map es (λ e. e.key) ∙ v.sized,
        ap length (values-map d) ∙ length-map es (λ e. e.value) ∙ v.sized,
      )

  freed_values-nothing :
      (owns : Bool) (es : List (Entry K V)) (log : List V)
      → length es ≡ 0
      → freed_values owns es log ≡ log
  freed_values-nothing owns [] log h = refl
  freed_values-nothing owns (e ∷ es) log h = absurd (omega arith)

  cleared : Dict K V → Dict K V
  cleared d = record (clear_frees d) { buckets = map bucket_clear d.buckets; size = 0 }

  cleared-view : (d : Dict K V) (q : K) → view (cleared d).buckets q ≡ none
  unfolding cleared lookup
  cleared-view d q = rw (bucket_at-clear d.buckets)

  cleared-IsValid : (d : Dict K V) → IsValid d → IsValid (cleared d)
  unfolding cleared count
  cleared-IsValid d v = record {
    sized = ap length (all_entries-clear d.buckets);
    placed = λ q i. rw (bucket_at-clear d.buckets i) (omega arith);
    sound = λ i.
        rw (bucket_at-clear d.buckets i)
          (record { numbered = tt; fits = omega arith; roomy = omega arith });
    loaded = omega arith;
    enough = rw (length-map d.buckets bucket_clear) v.enough;
  }

  -- `dict_clear` leaves a valid, empty dictionary with as many buckets, and frees every value that
  -- the dictionary owns.
  pub clear_lem :
      (d : Dict K V)
      → IsValid d
      → IsValid (clear d)
        × ((q : K) → view (clear d).buckets q ≡ none)
        × ((clear d).size ≡ 0)
        × (num_buckets (clear d) ≡ num_buckets d)
        × ((clear d).freed_data ≡ freed_values d.owns_data (all_entries d.buckets) d.freed_data)
  unfolding clear cleared
  clear_lem d v = elim (Bool-cases (d.size == 0)) [
    | inl empty ↦
        let z : d.size ≡ 0 = ground arith in
        rw empty (
          v,
          λ q. view-empty d q v z,
          z,
          refl,
          sym (freed_values-nothing d.owns_data (all_entries d.buckets) d.freed_data (v.sized ∙ z)),
        )
    | inr some_left ↦ rw some_left (
      cleared-IsValid d v,
      λ q. cleared-view d q,
      refl,
      length-map d.buckets bucket_clear,
      ap (λ (r : Dict K V). r.freed_data) (reduce-all_entries d (λ e r. free_entry r e) d)
          ∙ clear_frees-data (all_entries d.buckets) d,
    )
  ]
