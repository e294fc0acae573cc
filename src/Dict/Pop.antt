-- ===== src/Dict/Pop.antt =====
-- `dict_pop`: the invariant kept, the effect on the abstract map, and the value that is not freed.
use obelix.Prelude.{
  suc, ◌<◌, ◌≡◌, inl, inr, refl, Bool, true, false, Option, none, some, List, ◌==◌, set, arith,
  Bool-cases, Option-cases, ap, ◌∙◌,
}
use obelix.KeyType.{KeyType}
use obelix.Dict.{
  Entry, Dict, bucket_at, home, num_buckets, remove, pop, overwrite, find_in_bucket,
  bucket_find_entry, get_bucket_bykey, log_free,
}
use obelix.Dict.Chains.{lookup_found}
use obelix.Dict.Placement.{view, update, own}
use obelix.Dict.Valid.{IsValid}
use obelix.Dict.Puts.{overwrite-Holds}
use obelix.Dict.Removal.{Removes, not_empty, remove-present, find_some, has_buckets}

log_free_null {ℓ} : {V : Type ℓ} (owns : Bool) (log : List V) → log_free owns none log ≡ log
log_free_null true log = refl
log_free_null false log = refl

module _ {ℓ} {K V : Type ℓ} ⦃t : KeyType K⦄ where
  -- The dictionary in which the value under `k` has been set to NULL.
  module _ (d : Dict K V) (k : K) (e : Entry K V) (v : IsValid d) (pos : 0 < num_buckets d)
      (there : bucket_find_entry (own d.buckets pos k).entries k ≡ some e) where
    nulled : Dict K V
    nulled = record d {
      buckets = set d.buckets (home k (num_buckets d)) (record (own d.buckets pos k) {
        entries = overwrite (own d.buckets pos k).entries k none;
      });
    }

    nulled-IsValid : IsValid nulled
    unfolding nulled
    nulled-IsValid =
        let h = overwrite-Holds d.buckets pos k none e v.sound v.placed there in
        record {
          sized = h.entries ∙ v.sized;
          placed = h.placed;
          sound = h.sound;
          loaded = omega (arith, h.width, v.loaded);
          enough = omega (arith, h.width, v.enough);
        }

    nulled-view : (q : K) → view nulled.buckets q ≡ update (view d.buckets) k (some none) q
    unfolding nulled
    nulled-view = (overwrite-Holds d.buckets pos k none e v.sound v.placed there).reads

    pop-nulled : pop d k ≡ (e.value, elim (remove nulled k) [ none ↦ nulled | some r ↦ r ])
    unfolding pop find_in_bucket get_bucket_bykey nulled
    pop-nulled =
        let test : (d.size == 0) ≡ false = ground (arith, not_empty d k e v pos there) in
        rw (test, there)

  -- `dict_pop` of a key that is not there returns NULL and changes nothing.
  pub pop-absent :
      (d : Dict K V) (k : K) → IsValid d → view d.buckets k ≡ none → pop d k ≡ (none, d)
  unfolding pop find_in_bucket get_bucket_bykey
  pop-absent d k v h =
      let es = (bucket_at d.buckets (home k (num_buckets d))).entries in
      elim (Option-cases (bucket_find_entry es k)) [
        | inl absent ↦ rw absent (ground arith)
        | inr (e, there) ↦ cc (lookup_found es k e there)
      ]

  -- Of two writes under one key the later counts.
  update_twice :
      (f g : K → Option (Option V)) (k : K) (a b : Option (Option V))
      → ((q : K) → g q ≡ update f k a q)
      → (q : K) → update g k b q ≡ update f k b q
  update_twice f g k a b h q = elim (Bool-cases (t.same k q)) [
    | inl s ↦ rw s
    | inr s ↦ rw (s, h q, s)
  ]

  -- What `dict_pop` of `k` leaves: as a removal, but the value is not freed.
  pub record Pops (d : Dict K V) (k : K) (r : Dict K V) : Type ℓ where
    pub valid : IsValid r
    pub reads : (q : K) → view r.buckets q ≡ update (view d.buckets) k none q
    pub counted : suc r.size ≡ d.size
    pub kept_value : r.freed_data ≡ d.freed_data

  module _ (d : Dict K V) (k : K) (e : Entry K V) (v : IsValid d) (pos : 0 < num_buckets d)
      (there : bucket_find_entry (own d.buckets pos k).entries k ≡ some e) where
    removed-Pops :
        (f : Entry K V) (r : Dict K V)
        → f.value ≡ none
        → Removes (nulled d k e v pos there) k f r
        → Pops d k r
    removed-Pops f r empty m =
        let d' = nulled d k e v pos there in
        let as_before : (d'.freed_data ≡ d.freed_data) × (d'.size ≡ d.size) =
          unfold nulled in (refl, refl) in
        record {
          valid = m.valid;
          reads = λ q.
              m.reads q
              ∙ update_twice (view d.buckets) (view d'.buckets) k (some none) none
                  (nulled-view d k e v pos there) q;
          counted = m.counted ∙ as_before.1;
          kept_value =
              m.freed_value
              ∙ ap (λ o. log_free d'.owns_data o d'.freed_data) empty
              ∙ log_free_null d'.owns_data d'.freed_data
              ∙ as_before.0;
        }

    nulled-none : view (nulled d k e v pos there).buckets k ≡ some none
    nulled-none = nulled-view d k e v pos there k ∙ rw t.same_refl

  -- `dict_pop` of a key that is there returns its value, and takes the entry out without freeing it.
  pub pop-present :
      (d : Dict K V) (k : K) (x : Option V)
      → IsValid d
      → view d.buckets k ≡ some x
      → ((pop d k).0 ≡ x) × Pops d k (pop d k).1
  pop-present d k x v h =
      let pos = has_buckets d.buckets k x h in
      let (e, there, same) = find_some (own d.buckets pos k).entries k x h in
      let (f, r, run, _, empty, m) =
        remove-present (nulled d k e v pos there) k none (nulled-IsValid d k e v pos there)
          (nulled-none d k e v pos there) in
      rw (pop-nulled d k e v pos there, run) (same, removed-Pops d k e v pos there f r empty m)
