-- ===== src/Dict/Rehash.antt =====
-- `_dict_rehash`: every entry moves to its bucket among twice as many, and the map stays as it was.
use obelix.Prelude.{
  ℕ, zero, suc, ◌+◌, ◌≤◌, ◌<◌, ◌≡◌, inl, inr, refl, Option, none, some, List, [], ◌∷◌, ◌++◌, leb,
  length, set, arith, Bool-cases, length-append, ap, ◌∙◌, sym, replicate, length-replicate,
  get_or-replicate,
}
use obelix.KeyType.{KeyType}
use obelix.Dict.{
  Entry, Bucket, empty_bucket, bucket_at, home, bucket_copy_entry, bucket_init_entry, make_room,
  rehash_entry, rehash_bucket, rehash_all,
}
use obelix.Dict.Chains.{
  or_else, lookup, count, lookup_congr, lookup-append, count-append, count-eq-zero,
}
use obelix.Dict.Gaps.{IsNumbered-append}
use obelix.Dict.Placement.{
  all_entries, IsSound, IsPlaced, view, Holds, update, own, set-Holds, home_congr,
}

pub or_else-none {ℓ} : {A : Type ℓ} (o : Option A) → or_else o none ≡ o
or_else-none none = refl
or_else-none (some v) = refl

module _ {ℓ} {K V : Type ℓ} where
  entries-make_room : (b : Bucket K V) → (make_room b).entries ≡ b.entries
  unfolding make_room
  entries-make_room b = elim (Bool-cases (leb b.capacity (length b.entries))) [
    | inl full ↦ rw full
    | inr free ↦ rw free
  ]

  -- Room is made before an entry is appended, so a bucket stays sound.
  IsSound-append :
      (b : Bucket K V) (e : Entry K V)
      → IsSound b
      → e.ix ≡ length b.entries
      → IsSound (record (make_room b) { entries = b.entries ++ e ∷ [] })
  unfolding make_room
  IsSound-append b e s h = record {
    numbered = IsNumbered-append 0 b.entries e s.numbered (omega arith);
    fits = ground (arith, length-append b.entries (e ∷ []), s.fits, s.roomy);
    roomy = ground (arith, s.roomy);
  }

  -- What both ways of adding an entry leave: a sound bucket with the entry at the end.
  pub record Added (b : Bucket K V) (e : Entry K V) (r : Bucket K V) : Type ℓ where
    pub sound : IsSound r
    pub appended : r.entries ≡ b.entries ++ record e { ix = length b.entries } ∷ []

  append-Added :
      (b : Bucket K V) (e : Entry K V)
      → IsSound b
      → Added b e (record (make_room b) {
        entries = (make_room b).entries ++ record e { ix = length (make_room b).entries } ∷ [];
      })
  append-Added b e s = rw (entries-make_room b) (record {
    sound = IsSound-append b (record e { ix = length b.entries }) s refl;
    appended = refl;
  })

  copy-Added : (b : Bucket K V) (e : Entry K V) → IsSound b → Added b e (bucket_copy_entry b e)
  unfolding bucket_copy_entry
  copy-Added b e s = append-Added b e s

  pub init-Added :
      (b : Bucket K V) (k : K) (v : Option V)
      → IsSound b
      → Added b (record { key = k; value = v; ix = 0 }) (bucket_init_entry b k v)
  unfolding bucket_init_entry
  init-Added b k v s = append-Added b (record { key = k; value = v; ix = 0 }) s

  pub all_entries-replicate : (n : ℕ) → all_entries {K = K} {V = V} (replicate n empty_bucket) ≡ []
  unfolding all_entries
  all_entries-replicate zero = refl
  all_entries-replicate (suc n) = all_entries-replicate n

module _ {ℓ} {K V : Type ℓ} ⦃t : KeyType K⦄ where
  -- An entry under a key that is not there, behind the others of its bucket.
  pub append-Holds :
      (bs : List (Bucket K V)) (pos : 0 < length bs) (e : Entry K V) (b : Bucket K V)
      → ((i : ℕ) → IsSound (bucket_at bs i))
      → IsPlaced bs
      → IsSound b
      → b.entries ≡ (own bs pos e.key).entries ++ e ∷ []
      → view bs e.key ≡ none
      → Holds
          (length bs)
          (suc (length (all_entries bs)))
          (update (view bs) e.key (some e.value))
          (set bs (home e.key (length bs)) b)
  unfolding count lookup
  append-Holds bs pos e b sound placed sb same absent =
      let old = (own bs pos e.key).entries in
      set-Holds bs pos e.key b (some e.value) (suc (length (all_entries bs))) sound placed sb
        (rw same (omega (arith, length-append old (e ∷ []))))
        (λ q.
          rw (same, count-append)
            (ground (
              arith,
              placed q (home e.key (length bs)),
              count-eq-zero old e.key q absent,
              home_congr e.key q (length bs),
            )))
        (λ q. rw (same, lookup-append) (ground (arith, lookup_congr old e.key q)))

  pub replicate-Holds : (n : ℕ) → Holds {K = K} {V = V} n 0 (λ _. none) (replicate n empty_bucket)
  unfolding count lookup
  replicate-Holds n = record {
    width = length-replicate n empty_bucket;
    entries = ap length (all_entries-replicate n);
    placed = λ q i. rw get_or-replicate (omega arith);
    sound = λ i.
        rw get_or-replicate (record { numbered = tt; fits = omega arith; roomy = omega arith });
    reads = λ q. rw get_or-replicate;
  }

  -- The nested loops are one loop over all the entries.
  rehash_bucket-append :
      (es fs : List (Entry K V)) (fresh : List (Bucket K V))
      → rehash_bucket fresh (es ++ fs) ≡ rehash_bucket (rehash_bucket fresh es) fs
  unfolding rehash_bucket
  rehash_bucket-append [] fs fresh = refl
  rehash_bucket-append (e ∷ es) fs fresh = rehash_bucket-append es fs (rehash_entry fresh e)

  pub rehash_all-all_entries :
      (bs fresh : List (Bucket K V)) → rehash_all fresh bs ≡ rehash_bucket fresh (all_entries bs)
  unfolding rehash_all all_entries rehash_bucket
  rehash_all-all_entries [] fresh = refl
  rehash_all-all_entries (b ∷ bs) fresh =
      rehash_all-all_entries bs (rehash_bucket fresh b.entries)
      ∙ sym (rehash_bucket-append b.entries (all_entries bs) fresh)

  rehash_entry-Holds :
      (fresh : List (Bucket K V)) (e : Entry K V)
      → 0 < length fresh
      → ((i : ℕ) → IsSound (bucket_at fresh i))
      → IsPlaced fresh
      → view fresh e.key ≡ none
      → Holds
          (length fresh)
          (suc (length (all_entries fresh)))
          (update (view fresh) e.key (some e.value))
          (rehash_entry fresh e)
  unfolding rehash_entry
  rehash_entry-Holds fresh e pos sound placed absent =
      let old = own fresh pos e.key in
      let added = copy-Added old e (sound (home e.key (length fresh))) in
      append-Holds fresh pos (record e { ix = length old.entries }) (bucket_copy_entry old e) sound
        placed added.sound added.appended absent

  module _ (e : Entry K V) (es : List (Entry K V)) (f g : K → Option (Option V))
      (once : (q : K) → count q (e ∷ es) ≤ 1) (apart : (q : K) → 0 < count q (e ∷ es) → f q ≡ none)
      (moved : (q : K) → g q ≡ update f e.key (some e.value) q) where
    still_apart : (q : K) → 0 < count q es → g q ≡ none
    unfolding count
    still_apart q p = elim (Bool-cases (t.same e.key q)) [
      | inl s ↦ absurd (ground (arith, once q))
      | inr s ↦ moved q ∙ rw s (apart q (omega arith))
    ]

    read_on : (q : K) → or_else (g q) (lookup es q) ≡ or_else (f q) (lookup (e ∷ es) q)
    unfolding count lookup
    read_on q = elim (Bool-cases (t.same e.key q)) [
      | inl s ↦ let absent : f q ≡ none = apart q (rw s (omega arith)) in rw (moved q, s, absent)
      | inr s ↦ rw (moved q, s)
    ]

  -- Entries under keys that occur once, none of them in `fresh` yet.
  pub rehash_bucket-Holds :
      (es : List (Entry K V)) (fresh : List (Bucket K V))
      → 0 < length fresh
      → ((i : ℕ) → IsSound (bucket_at fresh i))
      → IsPlaced fresh
      → ((q : K) → count q es ≤ 1)
      → ((q : K) → 0 < count q es → view fresh q ≡ none)
      → Holds
          (length fresh)
          (length (all_entries fresh) + length es)
          (λ q. or_else (view fresh q) (lookup es q))
          (rehash_bucket fresh es)
  unfolding rehash_bucket count lookup
  rehash_bucket-Holds [] fresh pos sound placed once apart = record {
    width = refl;
    entries = omega arith;
    placed = placed;
    sound = sound;
    reads = λ q. sym (or_else-none (view fresh q));
  }
  rehash_bucket-Holds (e ∷ es) fresh pos sound placed once apart =
      let h =
        rehash_entry-Holds fresh e pos sound placed (apart e.key (rw t.same_refl (omega arith))) in
      let r =
        rehash_bucket-Holds es (rehash_entry fresh e) (rw h.width pos) h.sound h.placed
          (λ q. omega (arith, once q))
          (still_apart e es (view fresh) (view (rehash_entry fresh e)) once apart h.reads) in
      record {
        width = r.width ∙ h.width;
        entries = omega (arith, r.entries, h.entries);
        placed = r.placed;
        sound = r.sound;
        reads = λ q.
            r.reads q
            ∙ read_on e es (view fresh) (view (rehash_entry fresh e)) once apart h.reads q;
      }
