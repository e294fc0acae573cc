-- ===== src/Dict/Valid.antt =====
-- The invariant of a dictionary, and that `_dict_rehash` keeps what it holds.
use obelix.Prelude.{
  ℕ, zero, suc, ◌*◌, ◌≤◌, ◌≡◌, ◌≢◌, ◌⊎◌, inl, refl, none, List, [], ◌∷◌, length, arith, ◌∙◌,
  replicate,
}
use obelix.KeyType.{KeyType}
use obelix.Dict.{
  Bucket, Dict, empty_bucket, bucket_at, home, rehash, num_buckets, init_buckets, wider, create,
}
use obelix.Dict.Chains.{lookup, count, lookup-eq-none, lookup-append, count-append}
use obelix.Dict.Placement.{all_entries, IsSound, IsPlaced, view, Holds}
use obelix.Dict.Rehash.{replicate-Holds, rehash_all-all_entries, rehash_bucket-Holds, or_else-none}

module _ {ℓ} {K V : Type ℓ} ⦃t : KeyType K⦄ where
  -- A key that no bucket holds is nowhere in the table.
  count-nowhere :
      (q : K) (bs : List (Bucket K V))
      → ((i : ℕ) → count q (bucket_at bs i).entries ≡ 0)
      → count q (all_entries bs) ≡ 0
  unfolding all_entries count
  count-nowhere q [] h = refl
  count-nowhere q (b ∷ bs) h =
      omega
        (arith, count-append q b.entries (all_entries bs), h 0, count-nowhere q bs (λ i. h (suc i)))

  -- A key that only bucket `j` may hold is found in the table as it is found there.
  lookup_only :
      (q : K) (bs : List (Bucket K V)) (j : ℕ)
      → ((i : ℕ) → i ≢ j → count q (bucket_at bs i).entries ≡ 0)
      → (lookup (all_entries bs) q ≡ lookup (bucket_at bs j).entries q)
        × (count q (all_entries bs) ≡ count q (bucket_at bs j).entries)
  unfolding all_entries lookup count
  lookup_only q [] j h = (refl, refl)
  lookup_only q (b ∷ bs) zero h =
      let rest = count-nowhere q bs (λ i. h (suc i) (omega arith)) in
      (
        lookup-append b.entries (all_entries bs) q
            ∙ rw (lookup-eq-none (all_entries bs) q rest) (or_else-none (lookup b.entries q)),
        omega (arith, count-append q b.entries (all_entries bs), rest),
      )
  lookup_only q (b ∷ bs) (suc j) h =
      let nothing = h 0 (omega arith) in
      let (found, counted) = lookup_only q bs j (λ i d. h (suc i) (omega (arith, d))) in
      (
        lookup-append b.entries (all_entries bs) q ∙ rw (lookup-eq-none b.entries q nothing) found,
        omega (arith, count-append q b.entries (all_entries bs), nothing, counted),
      )

  -- In a table whose entries are in place a walk over all the buckets finds what the hash leads to,
  -- and meets each key at most once.
  pub all_entries-view :
      (bs : List (Bucket K V)) (q : K)
      → IsPlaced bs
      → (lookup (all_entries bs) q ≡ view bs q) × (count q (all_entries bs) ≤ 1)
  all_entries-view bs q placed =
      let at = home q (length bs) in
      let (found, counted) = lookup_only q bs at (λ i d. ground (arith, placed q i)) in
      (found, ground (arith, placed q at, counted))

  -- The invariant. `loaded` is the bound of 0.75 on entries per bucket.
  pub record IsValid (d : Dict K V) : Type ℓ where
    pub sized : length (all_entries d.buckets) ≡ d.size
    pub placed : IsPlaced d.buckets
    pub sound : (i : ℕ) → IsSound (bucket_at d.buckets i)
    pub loaded : 4 * d.size ≤ 3 * num_buckets d
    pub enough : (num_buckets d ≡ 0) ⊎ (init_buckets ≤ num_buckets d)

  -- A rehash keeps every entry and every lookup, in twice as many buckets.
  pub rehash-Holds :
      (d : Dict K V)
      → IsPlaced d.buckets
      → Holds
          (wider (num_buckets d))
          (length (all_entries d.buckets))
          (view d.buckets)
          (rehash d).buckets
  unfolding rehash
  rehash-Holds d placed =
      let n = wider (num_buckets d) in
      let start = replicate-Holds {K = K} {V = V} n in
      let moved =
        rehash_bucket-Holds (all_entries d.buckets) (replicate n empty_bucket)
          (ground (arith, start.width)) start.sound start.placed
          (λ q. (all_entries-view d.buckets q placed).1) (λ q _. start.reads q) in
      rw (rehash_all-all_entries d.buckets (replicate n empty_bucket)) (record {
        width = moved.width ∙ start.width;
        entries = omega (arith, moved.entries, start.entries);
        placed = moved.placed;
        sound = moved.sound;
        reads = λ q. moved.reads q ∙ rw (start.reads q) (all_entries-view d.buckets q placed).0;
      })

  -- A new dictionary is valid and holds nothing.
  pub create-IsValid :
      IsValid (create {K = K} {V = V}) × ((q : K) → view (create {K = K} {V = V}).buckets q ≡ none)
  unfolding create all_entries count lookup
  create-IsValid = (
    record {
      sized = refl;
      placed = λ q i. omega arith;
      sound = λ i. record { numbered = tt; fits = omega arith; roomy = omega arith };
      loaded = omega arith;
      enough = inl refl;
    },
    λ q. refl,
  )
