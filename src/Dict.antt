-- ===== src/Dict.antt =====
-- The hash table of lib/dict.c: a vector of buckets, each a growable vector of entries.
-- A value is a pointer, `none` for NULL. `freed_keys` and `freed_data` record the calls of the free
-- functions, the latest first.
pub mod Chains
pub mod Gaps
pub mod Placement
pub mod Rehash
pub mod Valid
pub mod Puts
pub mod Removal
pub mod Pop
pub mod Walk
pub mod Iterator
use obelix.Prelude.{
  ℕ, zero, suc, ◌+◌, ◌-◌, ◌*◌, ◌%◌, Bool, true, false, Option, none, some, List, [], ◌∷◌, ◌++◌, ltb,
  leb, ◌==◌, if◌then◌else◌, length, get_or, get_elem?, replicate, set, ◌>>=◌,
}
use obelix.KeyType.{KeyType}

abbrev pub init_buckets : ℕ
init_buckets = 4

abbrev pub init_bucket_size : ℕ
init_bucket_size = 4

-- `dictentry_t`, without the pointer back to its dictionary.
pub record Entry {ℓ} (K V : Type ℓ) : Type ℓ where
  pub key : K
  pub value : Option V
  pub ix : ℕ

-- `bucket_t`; its `size` is the length of `entries`.
pub record Bucket {ℓ} (K V : Type ℓ) : Type ℓ where
  pub capacity : ℕ
  pub entries : List (Entry K V)

-- `dict_t`; its `num_buckets` is the length of `buckets`.
pub record Dict {ℓ} (K V : Type ℓ) : Type ℓ where
  pub buckets : List (Bucket K V)
  pub size : ℕ
  pub owns_keys : Bool
  pub owns_data : Bool
  pub freed_keys : List K
  pub freed_data : List V

-- `_bucket_put` says 0 for a key that was there, 1 for a new one.
pub record Put {ℓ} (K V : Type ℓ) : Type ℓ where
  pub added : ℕ
  pub bucket : Bucket K V
  pub replaced : Option V

-- The number of buckets that a rehash makes out of `old`.
abbrev pub wider : ℕ → ℕ
wider old = if old == 0 then init_buckets else old * 2

-- A call of a free function on what it is due on.
abbrev pub log_free {ℓ} : {A : Type ℓ} → Bool → Option A → List A → List A
log_free true (some x) log = x ∷ log
log_free true none log = log
log_free false o log = log

abbrev pub home {ℓ} : {K : Type ℓ} ⦃t : KeyType K⦄ → K → ℕ → ℕ
home ⦃t⦄ key n = t.hash key % n

module _ {ℓ} {K V : Type ℓ} where
  abbrev pub empty_bucket : Bucket K V
  empty_bucket = record { capacity = init_bucket_size; entries = [] }

  abbrev pub bucket_at : List (Bucket K V) → ℕ → Bucket K V
  bucket_at bs i = get_or bs i empty_bucket

  abbrev pub num_buckets : Dict K V → ℕ
  num_buckets d = length d.buckets

  unfoldable pub create : Dict K V
  create = record {
    buckets = [];
    size = 0;
    owns_keys = false;
    owns_data = false;
    freed_keys = [];
    freed_data = [];
  }

  unfoldable pub bucket_expand : Bucket K V → Bucket K V
  bucket_expand b = record b { capacity = 2 * b.capacity }

  unfoldable pub make_room : Bucket K V → Bucket K V
  unfolding bucket_expand
  make_room b = if leb b.capacity (length b.entries) then bucket_expand b else b

  -- An entry goes behind the others, in a bucket that is expanded first if it is full.
  unfoldable pub bucket_init_entry : Bucket K V → K → Option V → Bucket K V
  unfolding make_room
  bucket_init_entry b key value =
      let r = make_room b in
      record r {
        entries = r.entries ++ record { key = key; value = value; ix = length r.entries } ∷ [];
      }

  unfoldable pub bucket_copy_entry : Bucket K V → Entry K V → Bucket K V
  unfolding make_room
  bucket_copy_entry b entry =
      let r = make_room b in
      record r { entries = r.entries ++ record entry { ix = length r.entries } ∷ [] }

  -- The loop that puts the entries' indices right from `ix` on; `i` is where the list starts.
  unfoldable pub renumber : ℕ → ℕ → List (Entry K V) → List (Entry K V)
  renumber ix i [] = []
  renumber ix i (e ∷ es) = (if leb ix i then record e { ix = i } else e) ∷ renumber ix (suc i) es

  unfoldable pub close_gap : List (Entry K V) → ℕ → List (Entry K V)
  close_gap [] ix = []
  close_gap (e ∷ es) zero = es
  close_gap (e ∷ es) (suc ix) = e ∷ close_gap es ix

  unfoldable pub bucket_remove : Bucket K V → ℕ → Bucket K V
  unfolding renumber close_gap
  bucket_remove b ix = record b { entries = renumber ix 0 (close_gap b.entries ix) }

  -- `_dictentry_free`
  unfoldable pub free_entry : Dict K V → Entry K V → Dict K V
  free_entry d e = record d {
    freed_keys = log_free d.owns_keys (some e.key) d.freed_keys;
    freed_data = log_free d.owns_data e.value d.freed_data;
  }

module _ {ℓ} {K V : Type ℓ} ⦃t : KeyType K⦄ where
  unfoldable pub bucket_find_entry : List (Entry K V) → K → Option (Entry K V)
  bucket_find_entry [] key = none
  bucket_find_entry (e ∷ es) key = if t.same e.key key then some e else bucket_find_entry es key

  -- `none` for -1
  unfoldable pub bucket_position_of : Bucket K V → K → Option ℕ
  unfolding bucket_find_entry
  bucket_position_of b key = elim (bucket_find_entry b.entries key) [
    | none ↦ none
    | some e ↦ some e.ix
  ]

  -- A write through the pointer that `_bucket_find_entry` returns.
  unfoldable pub overwrite : List (Entry K V) → K → Option V → List (Entry K V)
  overwrite [] key value = []
  overwrite (e ∷ es) key value =
      if t.same e.key key then record e { value = value } ∷ es else e ∷ overwrite es key value

  unfoldable pub bucket_put : Bucket K V → K → Option V → Put K V
  unfolding bucket_find_entry overwrite bucket_init_entry
  bucket_put b key value = elim (bucket_find_entry b.entries key) [
    | some e ↦ record {
      added = 0;
      bucket = record b { entries = overwrite b.entries key value };
      replaced = e.value;
    }
    | none ↦ record { added = 1; bucket = bucket_init_entry b key value; replaced = none }
  ]

  unfoldable pub get_bucket_bykey : Dict K V → K → Bucket K V
  get_bucket_bykey d key = bucket_at d.buckets (home key (num_buckets d))

  -- One round of the inner loop of `_dict_rehash`.
  unfoldable pub rehash_entry : List (Bucket K V) → Entry K V → List (Bucket K V)
  unfolding bucket_copy_entry
  rehash_entry fresh e =
      let i = home e.key (length fresh) in set fresh i (bucket_copy_entry (bucket_at fresh i) e)

  unfoldable pub rehash_bucket : List (Bucket K V) → List (Entry K V) → List (Bucket K V)
  unfolding rehash_entry
  rehash_bucket fresh [] = fresh
  rehash_bucket fresh (e ∷ es) = rehash_bucket (rehash_entry fresh e) es

  unfoldable pub rehash_all : List (Bucket K V) → List (Bucket K V) → List (Bucket K V)
  unfolding rehash_bucket
  rehash_all fresh [] = fresh
  rehash_all fresh (b ∷ bs) = rehash_all (rehash_bucket fresh b.entries) bs

  unfoldable pub rehash : Dict K V → Dict K V
  unfolding rehash_all
  rehash d = record d {
    buckets = rehash_all (replicate (wider (num_buckets d)) empty_bucket) d.buckets;
  }

  unfoldable pub add_to_bucket : Dict K V → K → Option V → ℕ × Dict K V
  unfolding bucket_put get_bucket_bykey
  add_to_bucket d key value =
      let p = bucket_put (get_bucket_bykey d key) key value in
      (
        p.added,
        record d {
          buckets = set d.buckets (home key (num_buckets d)) p.bucket;
          freed_data = log_free d.owns_data p.replaced d.freed_data;
        },
      )

  -- (size + 1) / num_buckets > 0.75, which the code computes in single precision: exact as long as
  -- size + 1 is at most 2 ^ 24.
  abbrev pub overloaded : Dict K V → Bool
  overloaded d = ltb (3 * num_buckets d) (4 * (d.size + 1))

  unfoldable pub put : Dict K V → K → Option V → Dict K V
  unfolding rehash add_to_bucket
  put d key value =
      let r = if num_buckets d == 0 then rehash d else if overloaded d then rehash d else d in
      let (added, s) = add_to_bucket r key value in record s { size = s.size + added }

  unfoldable pub find_in_bucket : Dict K V → K → Option (Entry K V)
  unfolding bucket_find_entry get_bucket_bykey
  find_in_bucket d key = bucket_find_entry (get_bucket_bykey d key).entries key

  -- `hash % num_buckets` of a table without buckets divides by 0, which stops the process: `none`.
  unfoldable pub checked_find : Dict K V → K → Option (Option (Entry K V))
  unfolding find_in_bucket
  checked_find d key = if num_buckets d == 0 then none else some (find_in_bucket d key)

  -- An outer `none` is the division by 0 of `checked_find`.
  unfoldable pub get : Dict K V → K → Option (Option V)
  unfolding checked_find
  get d key =
      if d.size == 0
      then some none
      else (checked_find d key >>= λ found. some (elim found [ none ↦ none | some e ↦ e.value ]))

  -- The guard on the size, which `dict_pop` has too, is that of `dict_get`; the search is total here.
  unfoldable pub has_key : Dict K V → K → Bool
  unfolding find_in_bucket
  has_key d key =
      if d.size == 0 then false else elim (find_in_bucket d key) [ none ↦ false | some e ↦ true ]

  -- `none` for NULL: there was no such key, and the dictionary is as it was.
  unfoldable pub remove_from_bucket : Dict K V → K → Option (Dict K V)
  unfolding bucket_position_of bucket_remove free_entry get_bucket_bykey
  remove_from_bucket d key =
      let b = get_bucket_bykey d key in
      elim (bucket_position_of b key) [
        | none ↦ none
        | some ix ↦ elim (get_elem? b.entries ix) [
          | none ↦ none
          | some e ↦ some (record (free_entry d e) {
            buckets = set d.buckets (home key (num_buckets d)) (bucket_remove b ix);
          })
        ]
      ]

  unfoldable pub remove : Dict K V → K → Option (Dict K V)
  unfolding remove_from_bucket
  remove d key = if d.size == 0 then none else elim (remove_from_bucket d key) [
    | none ↦ none
    | some r ↦ some (record r { size = r.size - 1 })
  ]

  -- The entry's value is set to NULL first, so that the removal does not free it.
  unfoldable pub pop : Dict K V → K → Option V × Dict K V
  unfolding find_in_bucket overwrite
  pop d key = if d.size == 0 then (none, d) else elim (find_in_bucket d key) [
    | none ↦ (none, d)
    | some e ↦
        let i = home key (num_buckets d) in
        let b = get_bucket_bykey d key in
        let nulled = record d {
          buckets = set d.buckets i (record b { entries = overwrite b.entries key none });
        } in
        (e.value, elim (remove nulled key) [ none ↦ nulled | some r ↦ r ])
  ]
