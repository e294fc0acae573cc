-- ===== src/Dict/Puts.antt =====
-- `dict_put` and `dict_get`: the invariant kept, and the effect on the abstract map.
use obelix.Prelude.{
  ℕ, suc, ◌+◌, ◌*◌, ◌≤◌, ◌<◌, ◌≡◌, ◌≢◌, inl, inr, refl, Bool, true, false, Option, none, some, List,
  [], ◌∷◌, ◌==◌, if◌then◌else◌, length, set, arith, Bool-cases, Option-cases, ap, ◌∙◌, sym,
}
use native.Mathlib.Nat.{add-zero}
use native.Mathlib.Numerals.{add-one}
use obelix.KeyType.{KeyType}
use obelix.Dict.{
  Entry, Bucket, Dict, bucket_at, home, rehash, num_buckets, init_buckets, overloaded, put, get,
  checked_find, find_in_bucket, has_key, add_to_bucket, bucket_put, bucket_init_entry, overwrite,
  bucket_find_entry, get_bucket_bykey, log_free,
}
use obelix.Dict.Chains.{lookup, find-lookup, lookup-overwrite, count-overwrite, length-overwrite}
use obelix.Dict.Gaps.{IsNumbered}
use obelix.Dict.Placement.{all_entries, IsSound, IsPlaced, view, Holds, update, own, set-Holds}
use obelix.Dict.Rehash.{append-Holds, init-Added}
use obelix.Dict.Valid.{IsValid, rehash-Holds, all_entries-view}

-- A key that is not there and a value NULL read alike.
abbrev pub value_or_null {ℓ} : {V : Type ℓ} → Option (Option V) → Option V
value_or_null none = none
value_or_null (some v) = v

abbrev pub found {ℓ} : {A : Type ℓ} → Option A → ℕ
found none = 0
found (some v) = 1

abbrev pub is_some {ℓ} : {A : Type ℓ} → Option A → Bool
is_some none = false
is_some (some v) = true

module _ {ℓ} {K V : Type ℓ} ⦃t : KeyType K⦄ where
  pub IsNumbered-overwrite :
      (i : ℕ) (es : List (Entry K V)) (k : K) (v : Option V)
      → IsNumbered i es
      → IsNumbered i (overwrite es k v)
  unfolding overwrite
  IsNumbered-overwrite i [] k v h = tt
  IsNumbered-overwrite i (e ∷ es) k v h = elim (Bool-cases (t.same e.key k)) [
    | inl s ↦ rw s h
    | inr s ↦ rw s (h.0, IsNumbered-overwrite (suc i) es k v h.1)
  ]

  pub overwrite-Holds :
      (bs : List (Bucket K V)) (pos : 0 < length bs) (k : K) (v : Option V) (e : Entry K V)
      → ((i : ℕ) → IsSound (bucket_at bs i))
      → IsPlaced bs
      → bucket_find_entry (own bs pos k).entries k ≡ some e
      → Holds (length bs) (length (all_entries bs)) (update (view bs) k (some v)) (
          set bs
            (home k (length bs))
            (record (own bs pos k) { entries = overwrite (own bs pos k).entries k v }))
  overwrite-Holds bs pos k v e sound placed h =
      let old = own bs pos k in
      let s = sound (home k (length bs)) in
      set-Holds bs pos k (record old { entries = overwrite old.entries k v }) (some v) _ sound
        placed
        (record {
          numbered = IsNumbered-overwrite 0 old.entries k v s.numbered;
          fits = rw (length-overwrite old.entries k v) s.fits;
          roomy = s.roomy;
        })
        (rw (length-overwrite old.entries k v))
        (λ q. rw (count-overwrite old.entries k q v) (placed q (home k (length bs))))
        (λ q. lookup-overwrite old.entries k q v e h)

  pub find-view :
      (bs : List (Bucket K V)) (pos : 0 < length bs) (k : K) (e : Entry K V)
      → bucket_find_entry (own bs pos k).entries k ≡ some e
      → view bs k ≡ some e.value
  find-view bs pos k e h = find-lookup (own bs pos k).entries k ∙ rw h

  pub find_none-view :
      (bs : List (Bucket K V)) (pos : 0 < length bs) (k : K)
      → bucket_find_entry (own bs pos k).entries k ≡ none
      → view bs k ≡ none
  find_none-view bs pos k h = find-lookup (own bs pos k).entries k ∙ rw h

  -- What `_dict_add_to_bucket` does in a table with buckets.
  pub record AddsTo (d : Dict K V) (k : K) (v : Option V) (r : ℕ × Dict K V) : Type ℓ where
    pub added : r.0 + found (view d.buckets k) ≡ 1
    pub same_size : r.1.size ≡ d.size
    pub freed_data :
        r.1.freed_data ≡ log_free d.owns_data (value_or_null (view d.buckets k)) d.freed_data
    pub holds :
        Holds
          (num_buckets d)
          (length (all_entries d.buckets) + r.0)
          (update (view d.buckets) k (some v))
          r.1.buckets

  add_to_bucket-AddsTo :
      (d : Dict K V) (k : K) (v : Option V)
      → 0 < num_buckets d
      → ((i : ℕ) → IsSound (bucket_at d.buckets i))
      → IsPlaced d.buckets
      → AddsTo d k v (add_to_bucket d k v)
  unfolding add_to_bucket bucket_put get_bucket_bykey
  add_to_bucket-AddsTo d k v pos sound placed =
      elim (Option-cases (bucket_find_entry (own d.buckets pos k).entries k)) [
        | inl absent ↦
            let gone = find_none-view d.buckets pos k absent in
            let old = own d.buckets pos k in
            let more = init-Added old k v (sound (home k (num_buckets d))) in
            rw (absent, bucket_put)
              (record {
                added = ap (λ o. 1 + found o) gone;
                same_size = refl;
                freed_data =
                    sym (ap (λ o. log_free d.owns_data (value_or_null o) d.freed_data) gone);
                holds = rw add-one (
                    append-Holds d.buckets pos
                      (record { key = k; value = v; ix = length old.entries })
                      (bucket_init_entry old k v) sound placed more.sound more.appended gone);
              })
        | inr (e, there) ↦
            let here = find-view d.buckets pos k e there in
            rw (there, bucket_put)
              (record {
                added = ap (λ o. 0 + found o) here;
                same_size = refl;
                freed_data =
                    sym (ap (λ o. log_free d.owns_data (value_or_null o) d.freed_data) here);
                holds = rw add-zero (overwrite-Holds d.buckets pos k v e sound placed there);
              })
      ]

  -- The dictionary after the test for a rehash: room for one more entry, the same map.
  record Prepared (d r : Dict K V) : Type ℓ where
    sized : length (all_entries r.buckets) ≡ d.size
    placed : IsPlaced r.buckets
    sound : (i : ℕ) → IsSound (bucket_at r.buckets i)
    same_size : r.size ≡ d.size
    same_owns : r.owns_data ≡ d.owns_data
    same_freed : r.freed_data ≡ d.freed_data
    reads : (q : K) → view r.buckets q ≡ view d.buckets q
    room : 4 * (d.size + 1) ≤ 3 * num_buckets r
    enough : init_buckets ≤ num_buckets r

  rehash-Prepared : (d : Dict K V) → IsValid d → Prepared d (rehash d)
  unfolding rehash
  rehash-Prepared d v =
      let h = rehash-Holds d v.placed in
      record {
        sized = h.entries ∙ v.sized;
        placed = h.placed;
        sound = h.sound;
        same_size = refl;
        same_owns = refl;
        same_freed = refl;
        reads = h.reads;
        room = ground (arith, h.width, v.loaded, v.enough);
        enough = ground (arith, h.width, v.enough);
      }

  abbrev pub prepared : Dict K V → Dict K V
  prepared d = if num_buckets d == 0 then rehash d else if overloaded d then rehash d else d

  prepared-Prepared : (d : Dict K V) → IsValid d → Prepared d (prepared d)
  prepared-Prepared d v = elim (Bool-cases (num_buckets d == 0)) [
    | inl empty ↦ rw empty (rehash-Prepared d v)
    | inr some_buckets ↦ elim (Bool-cases (overloaded d)) [
      | inl full ↦ rw (some_buckets, full) (rehash-Prepared d v)
      | inr free ↦
          let nonempty : num_buckets d ≢ 0 = ground arith in
          rw (some_buckets, free)
            (record {
              sized = v.sized;
              placed = v.placed;
              sound = v.sound;
              same_size = refl;
              same_owns = refl;
              same_freed = refl;
              reads = λ q. refl;
              room = ground arith;
              enough = omega (arith, v.enough, nonempty);
            })
    ]
  ]

  -- What `dict_put` of `v` under `k` makes of `d`: the map reads `v` there and is otherwise as it
  -- was, the size counts a new key, and a value that is replaced is freed if the dictionary owns it.
  pub record Puts (d : Dict K V) (k : K) (v : Option V) (r : Dict K V) : Type ℓ where
    pub valid : IsValid r
    pub reads : (q : K) → view r.buckets q ≡ update (view d.buckets) k (some v) q
    pub counted : r.size + found (view d.buckets k) ≡ d.size + 1
    pub frees : r.freed_data ≡ log_free d.owns_data (value_or_null (view d.buckets k)) d.freed_data

  counted-Puts :
      (d r : Dict K V) (k : K) (v : Option V) (s : ℕ × Dict K V)
      → Prepared d r
      → AddsTo r k v s
      → Puts d k v (record s.1 { size = s.1.size + s.0 })
  counted-Puts d r k v s p a =
      let seen = p.reads k in
      let one : s.0 + found (view d.buckets k) ≡ 1 = ap (λ o. s.0 + found o) (sym seen) ∙ a.added in
      let h = a.holds in
      record {
        valid = record {
          sized = omega (arith, h.entries, p.sized, a.same_size, p.same_size);
          placed = h.placed;
          sound = h.sound;
          loaded = omega (arith, h.width, p.room, a.same_size, p.same_size);
          enough = inr (omega (arith, h.width, p.enough));
        };
        reads = λ q. h.reads q ∙ ap (λ o. if t.same k q then some v else o) (p.reads q);
        counted = omega (arith, a.same_size, p.same_size);
        frees = a.freed_data ∙ rw (p.same_owns, p.same_freed, seen);
      }

  -- `dict_put` keeps the invariant, and has the effect of a put on the abstract map.
  pub put-Puts : (d : Dict K V) (k : K) (v : Option V) → IsValid d → Puts d k v (put d k v)
  unfolding put
  put-Puts d k v valid =
      let p = prepared-Prepared d valid in
      counted-Puts d (prepared d) k v (add_to_bucket (prepared d) k v) p
        (add_to_bucket-AddsTo (prepared d) k v (omega (arith, p.enough)) p.sound p.placed)

  lookup-nothing : (es : List (Entry K V)) (q : K) → length es ≡ 0 → lookup es q ≡ none
  unfolding lookup
  lookup-nothing [] q h = refl
  lookup-nothing (e ∷ es) q h = absurd (omega arith)

  -- In an empty table nothing is found.
  pub view-empty : (d : Dict K V) (q : K) → IsValid d → d.size ≡ 0 → view d.buckets q ≡ none
  view-empty d q v none_left =
      sym (all_entries-view d.buckets q v.placed).0
      ∙ lookup-nothing (all_entries d.buckets) q (v.sized ∙ none_left)

  -- `dict_get` and `dict_has_key` read the abstract map.
  pub get-view :
      (d : Dict K V) (k : K)
      → IsValid d
      → (get d k ≡ some (value_or_null (view d.buckets k)))
        × (has_key d k ≡ is_some (view d.buckets k))
  unfolding get checked_find has_key find_in_bucket get_bucket_bykey
  get-view d k v = elim (Bool-cases (d.size == 0)) [
    | inl empty ↦ rw (empty, view-empty d k v (ground arith)) (refl, refl)
    | inr some_left ↦
        let loaded = v.loaded in
        let not_bare : (num_buckets d == 0) ≡ false = ground arith in
        rw (some_left, not_bare, find-lookup) (ground arith)
  ]

  -- After `dict_put` of a value under a key in a valid dictionary, `dict_get` of that key gives the
  -- value and of every other key what it gave before; on no valid dictionary, an empty one included,
  -- does `dict_get` divide by 0.
  pub get-put :
      (d : Dict K V) (k : K) (x : Option V) (q : K)
      → IsValid d
      → (get (put d k x) q ≡ (if t.same k q then some x else get d q)) × ¬ (get d q ≡ none)
  get-put d k x q v =
      let p = put-Puts d k x v in
      let (now, _) = get-view (put d k x) q p.valid in
      let (before, _) = get-view d q v in
      let reads = p.reads q in
      elim (Bool-cases (t.same k q)) [
        | inl same ↦ rw (now, before, reads, same) (refl, λ e. cc e)
        | inr apart ↦ rw (now, before, reads, apart) (refl, λ e. cc e)
      ]
