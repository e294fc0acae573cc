-- ===== src/Dict/Removal.antt =====
-- `dict_remove`: the invariant kept, and the effect on the abstract map.
use obelix.Prelude.{
  suc, ◌-◌, ◌≤◌, ◌<◌, ◌≡◌, inl, inr, refl, false, Option, none, some, List, [], ◌∷◌, ◌==◌,
  if◌then◌else◌, length, get_elem?, set, arith, Option-cases, ap, ◌∙◌,
}
use obelix.KeyType.{KeyType}
use obelix.Dict.{
  Entry, Bucket, Dict, empty_bucket, bucket_at, home, num_buckets, remove, remove_from_bucket,
  bucket_remove, bucket_position_of, bucket_find_entry, find_in_bucket, get_bucket_bykey, log_free,
  free_entry, renumber, close_gap,
}
use obelix.Dict.Chains.{lookup, count, lookup_found, lookup_absent}
use obelix.Dict.Gaps.{
  IsNumbered, IsNumbered-close_gap, first_index, ix-first_index, get_elem?-first_index,
  length-renumber, length-close_gap, count-renumber, count-close_gap-le, lookup-renumber,
  lookup-close_gap,
}
use obelix.Dict.Placement.{
  IsSound, view, Holds, update, own, set-Holds, length-all_entries-set, home-lt,
}
use obelix.Dict.Valid.{IsValid}

module _ {ℓ} {K V : Type ℓ} ⦃t : KeyType K⦄ where
  module _ (es : List (Entry K V)) (k : K) (e : Entry K V) (numbered : IsNumbered 0 es)
      (there : bucket_find_entry es k ≡ some e) where
    ix_here : e.ix ≡ first_index es k
    ix_here = omega (arith, ix-first_index 0 es k e numbered there)

    pub entry_here : get_elem? es e.ix ≡ some e
    entry_here = ap (get_elem? es) ix_here ∙ get_elem?-first_index es k e there

    abbrev pub without : List (Entry K V)
    without = renumber e.ix 0 (close_gap es e.ix)

    pub length-without : suc (length without) ≡ length es
    length-without =
        ap suc (length-renumber e.ix 0 (close_gap es e.ix))
        ∙ ap (λ i. suc (length (close_gap es i))) ix_here
        ∙ length-close_gap es k e there

    pub IsNumbered-without : IsNumbered 0 without
    IsNumbered-without = IsNumbered-close_gap e.ix 0 e.ix es (omega arith) numbered

    pub count-without-le : (q : K) → count q without ≤ count q es
    count-without-le q =
        rw (count-renumber e.ix 0 (close_gap es e.ix) q) (count-close_gap-le k q es e.ix)

    pub lookup-without :
        (q : K) → count q es ≤ 1 → lookup without q ≡ (if t.same k q then none else lookup es q)
    lookup-without q once =
        lookup-renumber e.ix 0 (close_gap es e.ix) q
        ∙ ap (λ i. lookup (close_gap es i) q) ix_here
        ∙ lookup-close_gap k q es e there once

  -- What taking the entry `e` under `k` out of `d` leaves: the map has nothing under `k` and is
  -- otherwise as it was, and the key and the value are freed if the dictionary owns them.
  pub record Removes (d : Dict K V) (k : K) (e : Entry K V) (r : Dict K V) : Type ℓ where
    pub valid : IsValid r
    pub reads : (q : K) → view r.buckets q ≡ update (view d.buckets) k none q
    pub counted : suc r.size ≡ d.size
    pub freed_key : r.freed_keys ≡ log_free d.owns_keys (some e.key) d.freed_keys
    pub freed_value : r.freed_data ≡ log_free d.owns_data e.value d.freed_data

  module _ (d : Dict K V) (k : K) (e : Entry K V) (v : IsValid d) (pos : 0 < num_buckets d)
      (there : bucket_find_entry (own d.buckets pos k).entries k ≡ some e) where
    old : Bucket K V
    old = own d.buckets pos k

    old-IsSound : IsSound (own d.buckets pos k)
    old-IsSound = v.sound (home k (num_buckets d))

    removed : Dict K V
    removed = record (free_entry d e) {
      buckets = set d.buckets (home k (num_buckets d)) (bucket_remove (own d.buckets pos k) e.ix);
      size = d.size - 1;
    }

    removed-Holds :
        Holds
          (num_buckets d)
          (d.size - 1)
          (update (view d.buckets) k none)
          (set d.buckets (home k (num_buckets d)) (bucket_remove (own d.buckets pos k) e.ix))
    unfolding bucket_remove
    removed-Holds =
        let es = (own d.buckets pos k).entries in
        let shorter = length-without es k e old-IsSound.numbered there in
        let less = λ (q : K). count-without-le es k e old-IsSound.numbered there q in
        set-Holds d.buckets pos k (bucket_remove (own d.buckets pos k) e.ix) none (d.size - 1)
          v.sound v.placed
          (record {
            numbered = IsNumbered-without es k e old-IsSound.numbered there;
            fits = omega (arith, old-IsSound.fits);
            roomy = old-IsSound.roomy;
          })
          (omega (
            arith,
            shorter,
            v.sized,
            length-all_entries-set d.buckets (home k (num_buckets d)) empty_bucket
                (home-lt k (num_buckets d) pos),
          ))
          (λ q. omega (arith, less q, v.placed q (home k (num_buckets d))))
          (λ q.
            lookup-without es k e old-IsSound.numbered there q
              (ground (arith, v.placed q (home k (num_buckets d)))))

    pub not_empty : 0 < d.size
    not_empty = omega (
      arith,
      length-without (own d.buckets pos k).entries k e old-IsSound.numbered there,
      v.sized,
      length-all_entries-set d.buckets (home k (num_buckets d)) empty_bucket
          (home-lt k (num_buckets d) pos),
    )

    removed-Removes : Removes d k e removed
    unfolding removed free_entry
    removed-Removes =
        let h = removed-Holds in
        let some_left = not_empty in
        record {
          valid = record {
            sized = h.entries;
            placed = h.placed;
            sound = h.sound;
            loaded = omega (arith, h.width, v.loaded);
            enough = omega (arith, h.width, v.enough);
          };
          reads = h.reads;
          counted = omega arith;
          freed_key = refl;
          freed_value = refl;
        }

    remove-removed : remove d k ≡ some removed
    unfolding remove remove_from_bucket bucket_position_of get_bucket_bykey removed
    remove-removed =
        let test : (d.size == 0) ≡ false = ground (arith, not_empty) in
        rw (test, there, entry_here (own d.buckets pos k).entries k e old-IsSound.numbered there)

  pub find_some :
      (es : List (Entry K V)) (k : K) (x : Option V)
      → lookup es k ≡ some x
      → (e : Entry K V) × (bucket_find_entry es k ≡ some e) × (e.value ≡ x)
  find_some es k x h = elim (Option-cases (bucket_find_entry es k)) [
    | inl absent ↦ cc (lookup_absent es k absent)
    | inr (e, there) ↦ (e, there, cc (lookup_found es k e there))
  ]

  pub has_buckets :
      (bs : List (Bucket K V)) (k : K) (x : Option V) → view bs k ≡ some x → 0 < length bs
  unfolding lookup
  has_buckets [] k x h = cc
  has_buckets (b ∷ bs) k x h = omega arith

  -- `dict_remove` of a key that is not there returns NULL, and changes nothing.
  pub remove-absent :
      (d : Dict K V) (k : K) → IsValid d → view d.buckets k ≡ none → remove d k ≡ none
  unfolding remove remove_from_bucket bucket_position_of get_bucket_bykey
  remove-absent d k v h =
      let es = (bucket_at d.buckets (home k (num_buckets d))).entries in
      elim (Option-cases (bucket_find_entry es k)) [
        | inl absent ↦ rw absent (ground arith)
        | inr (e, there) ↦ cc (lookup_found es k e there)
      ]

  -- `dict_remove` of a key that is there succeeds: the abstract map has nothing under the key and is
  -- otherwise as it was, the invariant is kept, the size goes down by one, and of the entry that was
  -- found under the key, its stored key and its value are freed if the dictionary owns them.
  pub remove-present :
      (d : Dict K V) (k : K) (x : Option V)
      → IsValid d
      → view d.buckets k ≡ some x
      → (e : Entry K V) × (r : Dict K V) × (remove d k ≡ some r)
        × (find_in_bucket d k ≡ some e)
        × (e.value ≡ x)
        × Removes d k e r
  unfolding find_in_bucket get_bucket_bykey
  remove-present d k x v h =
      let pos = has_buckets d.buckets k x h in
      let (e, there, same) = find_some (own d.buckets pos k).entries k x h in
      (
        e,
        removed d k e v pos there,
        remove-removed d k e v pos there,
        there,
        same,
        removed-Removes d k e v pos there,
      )
