-- ===== src/Dict/Placement.antt =====
-- Where the entries of a vector of buckets stand, and what the vector means as a map.
use obelix.Prelude.{
  ℕ, zero, suc, ◌+◌, ◌%◌, ◌≤◌, ◌<◌, ◌≡◌, inl, inr, true, false, Option, List, [], ◌∷◌, ◌++◌, ◌==◌,
  if◌then◌else◌, length, set, arith, Bool-cases, length-append, ap, ◌∙◌, get_or-set, length-set,
}
use obelix.KeyType.{KeyType}
use obelix.Dict.{Entry, Bucket, empty_bucket, bucket_at, home}
use obelix.Dict.Chains.{one_if, lookup, count}
use obelix.Dict.Gaps.{IsNumbered}

module _ {ℓ} {K V : Type ℓ} where
  -- All the entries, bucket after bucket: the order of `_dict_reduce`.
  unfoldable pub all_entries : List (Bucket K V) → List (Entry K V)
  all_entries [] = []
  all_entries (b ∷ bs) = b.entries ++ all_entries bs

  -- A bucket whose entries know their positions and fit its storage.
  pub record IsSound (b : Bucket K V) : Type 0 where
    pub numbered : IsNumbered 0 b.entries
    pub fits : length b.entries ≤ b.capacity
    pub roomy : 0 < b.capacity

  pub length-all_entries-set :
      (bs : List (Bucket K V)) (i : ℕ) (b : Bucket K V)
      → i < length bs
      → length (all_entries (set bs i b)) + length (bucket_at bs i).entries
        ≡ length (all_entries bs) + length b.entries
  unfolding all_entries
  length-all_entries-set [] i b h = absurd (omega arith)
  length-all_entries-set (c ∷ bs) zero b h =
      omega
        (arith, length-append c.entries (all_entries bs), length-append b.entries (all_entries bs))
  length-all_entries-set (c ∷ bs) (suc i) b h = omega (
    arith,
    length-append c.entries (all_entries bs),
    length-append c.entries (all_entries (set bs i b)),
    length-all_entries-set bs i b,
  )

module _ {ℓ} {K : Type ℓ} ⦃t : KeyType K⦄ where
  pub home-lt : (k : K) (n : ℕ) → 0 < n → home k n < n
  home-lt k n h = omega arith

  pub home_congr : (a b : K) (n : ℕ) → t.same a b ≡ true → home a n ≡ home b n
  home_congr a b n e = ap (λ h. h % n) (t.hash-same a b e)

module _ {ℓ} {K V : Type ℓ} ⦃t : KeyType K⦄ where
  -- A key occurs at most once, and only in the bucket that its hash selects.
  abbrev pub IsPlaced : List (Bucket K V) → Type ℓ
  IsPlaced bs =
      (q : K) (i : ℕ) → count q (bucket_at bs i).entries ≤ one_if (home q (length bs) == i)

  -- The abstract map: the value under a key, if the key is there.
  abbrev pub view : List (Bucket K V) → K → Option (Option V)
  view bs q = lookup (bucket_at bs (home q (length bs))).entries q

  -- A vector of `n` buckets that holds `total` entries, all in place, and reads as `f`.
  pub record Holds (n total : ℕ) (f : K → Option (Option V)) (bs : List (Bucket K V)) : Type ℓ where
    pub width : length bs ≡ n
    pub entries : length (all_entries bs) ≡ total
    pub placed : IsPlaced bs
    pub sound : (i : ℕ) → IsSound (bucket_at bs i)
    pub reads : (q : K) → view bs q ≡ f q

  -- The map `f` with `v` under `k`.
  abbrev pub update : (K → Option (Option V)) → K → Option (Option V) → K → Option (Option V)
  update f k v q = if t.same k q then v else f q

  module _ (bs : List (Bucket K V)) (pos : 0 < length bs) (k : K) where
    abbrev pub own : Bucket K V
    own = bucket_at bs (home k (length bs))

    elsewhere : (q : K) → (home k (length bs) == home q (length bs)) ≡ false → t.same k q ≡ false
    elsewhere q other = elim (Bool-cases (t.same k q)) [
      | inl same ↦
          let e : home k (length bs) ≡ home q (length bs) = home_congr k q (length bs) same in
          absurd (ground arith)
      | inr apart ↦ apart
    ]

    replaced :
        (b : Bucket K V) (v : Option (Option V))
        → ((q : K) → lookup b.entries q ≡ (if t.same k q then v else lookup own.entries q))
        → (q : K)
        → lookup
            (if home k (length bs) == home q (length bs)
              then b
              else bucket_at bs (home q (length bs))).entries
            q
          ≡ update (view bs) k v q
    replaced b v finds q = elim (Bool-cases (home k (length bs) == home q (length bs))) [
      | inl here ↦
          let e : home k (length bs) ≡ home q (length bs) = ground arith in
          rw here
            (finds q ∙ ap (λ j. if t.same k q then v else lookup (bucket_at bs j).entries q) e)
      | inr other ↦ rw (other, elsewhere q other)
    ]

    -- Putting a bucket `b` in the place of the one that `k` belongs to.
    pub set-Holds :
        (b : Bucket K V) (v : Option (Option V)) (total : ℕ)
        → ((i : ℕ) → IsSound (bucket_at bs i))
        → IsPlaced bs
        → IsSound b
        → total + length own.entries ≡ length (all_entries bs) + length b.entries
        → ((q : K) → count q b.entries ≤ one_if (home q (length bs) == home k (length bs)))
        → ((q : K) → lookup b.entries q ≡ (if t.same k q then v else lookup own.entries q))
        → Holds (length bs) total (update (view bs) k v) (set bs (home k (length bs)) b)
    set-Holds b v total sound placed sb size few finds =
        let at = home k (length bs) in
        let inside : at < length bs = home-lt k (length bs) pos in
        record {
          width = length-set bs at b;
          entries = omega (arith, length-all_entries-set bs at b inside);
          placed = λ q i.
              rw (length-set, get_or-set bs at i b empty_bucket inside)
                (ground (arith, few q, placed q i));
          sound = λ i. rw (get_or-set bs at i b empty_bucket inside) (ground (arith, sound i));
          reads = λ q.
              rw (length-set, get_or-set bs at (home q (length bs)) b empty_bucket inside)
                (replaced b v finds q);
        }
