-- ===== src/Set/Members.antt =====
-- The elements of a set, and the operations of lib/set.c on one element.
use obelix.Prelude.{
  ◌≡◌, inl, inr, refl, sym, ap, ◌∙◌, Bool, true, false, not, ◌&&◌, ◌||◌, Option, none, some, List,
  [], ◌∷◌, map, if◌then◌else◌, arith, Bool-cases, Option-cases, subst,
}
use obelix.KeyType.{KeyType, same_congr_right}
use obelix.Dict
use obelix.Dict.{Dict, Entry}
use obelix.Dict.Chains.{lookup}
use obelix.Dict.Placement.{all_entries, view}
use obelix.Dict.Valid.{IsValid, all_entries-view, create-IsValid}
use obelix.Dict.Puts.{put-Puts, get-view, is_some}
use obelix.Dict.Removal.{remove-present}
use obelix.Dict.Walk.{reduce-all_entries, bucket_reduce}
use obelix.Set.{Set, or_self, add, has, remove, remover, reduce, create, find}

is_some-if {κ} :
    {A : Type κ} (b : Bool) (x : A) (o : Option A)
    → is_some (if b then some x else o) ≡ (b || is_some o)
is_some-if true x o = refl
is_some-if false x o = refl

is_some-if_none {κ} :
    {A : Type κ} (b : Bool) (o : Option A) → is_some (if b then none else o) ≡ (is_some o && not b)
is_some-if_none true none = refl
is_some-if_none true (some x) = refl
is_some-if_none false none = refl
is_some-if_none false (some x) = refl

module _ {ℓ} {K : Type ℓ} where
  -- The elements in the order of `set_reduce`.
  unfoldable pub elements : Set K → List K
  elements s = map (λ e. e.key) (all_entries s.dict.buckets)

  -- A callback run over the elements of a list.
  abbrev pub each {κ} : {S : Type κ} → List K → (K → S → S) → S → S
  each [] f x = x
  each (k ∷ ks) f x = each ks f (f k x)

  bucket_reduce-each {κ} :
      {S : Type κ} (es : List (Entry K K)) (f : K → S → S) (x : S)
      → bucket_reduce es (λ e acc. f e.key acc) x ≡ each (map (λ e. e.key) es) f x
  unfolding bucket_reduce
  bucket_reduce-each [] f x = refl
  bucket_reduce-each (e ∷ es) f x = bucket_reduce-each es f (f e.key x)

  pub reduce-each {κ} :
      {S : Type κ} (s : Set K) (f : K → S → S) (x : S) → reduce s f x ≡ each (elements s) f x
  unfolding reduce elements
  reduce-each s f x =
      reduce-all_entries s.dict (λ e acc. f e.key acc) x
      ∙ bucket_reduce-each (all_entries s.dict.buckets) f x

  abbrev pub last_match : List K → (K → Bool) → Option K → Option K
  last_match [] matches hit = hit
  last_match (k ∷ ks) matches hit = last_match ks matches (if matches k then some k else hit)

module _ {ℓ} {K : Type ℓ} ⦃t : KeyType K⦄ where
  -- A list has an element equal to `q`.
  abbrev pub listed : K → List K → Bool
  listed q [] = false
  listed q (k ∷ ks) = t.same k q || listed q ks

  abbrev pub IsProper : Set K → Type ℓ
  IsProper s = IsValid s.dict

  lookup-listed :
      (es : List (Entry K K)) (q : K) → is_some (lookup es q) ≡ listed q (map (λ e. e.key) es)
  unfolding lookup
  lookup-listed [] q = refl
  lookup-listed (e ∷ es) q = ground (arith, lookup-listed es q)

  -- `set_has` finds what `set_reduce` meets.
  pub has-listed : (s : Set K) (q : K) → IsProper s → has s q ≡ listed q (elements s)
  unfolding has elements
  has-listed s q v =
      (get-view s.dict q v).1
      ∙ ap is_some (sym (all_entries-view s.dict.buckets q v.placed).0)
      ∙ lookup-listed (all_entries s.dict.buckets) q

  pub listed_congr : (ks : List K) (a b : K) → t.same a b ≡ true → listed a ks ≡ listed b ks
  listed_congr [] a b e = refl
  listed_congr (k ∷ ks) a b e = rw (same_congr_right k a b e, listed_congr ks a b e) refl

  pub has_congr : (s : Set K) (a b : K) → IsProper s → t.same a b ≡ true → has s a ≡ has s b
  has_congr s a b v e = has-listed s a v ∙ listed_congr (elements s) a b e ∙ sym (has-listed s b v)

  pub create-IsProper : IsProper (create {K = K}) × ((q : K) → has (create {K = K}) q ≡ false)
  unfolding create has lookup
  create-IsProper =
      (create-IsValid.0, λ q. (get-view {V = K} Dict.create q create-IsValid.0).1 ∙ refl)

  has-view : (s : Set K) (q : K) → IsProper s → has s q ≡ is_some (view s.dict.buckets q)
  unfolding has
  has-view s q v = (get-view s.dict q v).1

  -- `set_add` adds its element, and nothing else.
  pub add_lem :
      (s : Set K) (k : K)
      → IsProper s
      → IsProper (add s k) × ((q : K) → has (add s k) q ≡ (t.same k q || has s q))
  unfolding add
  add_lem s k v =
      let p = put-Puts s.dict k none v in
      (
        p.valid,
        λ q.
            has-view (add s k) q p.valid
            ∙ ap is_some (p.reads q)
            ∙ is_some-if (t.same k q) none (view s.dict.buckets q)
            ∙ ap (λ b. t.same k q || b) (sym (has-view s q v)),
      )

  remover-or_self : (s : Set K) (k : K) → remover k s ≡ or_self (remove s k) s
  unfolding remover
  remover-or_self s k = refl

  absent_lem :
      (s : Set K) (k q : K) → IsProper s → has s k ≡ false → has s q ≡ (has s q && not (t.same k q))
  absent_lem s k q v h = elim (Bool-cases (t.same k q)) [
    | inl same ↦ rw (same, sym (has_congr s k q v same), h) refl
    | inr apart ↦ rw apart (ground arith)
  ]

  -- What `set_remove` of `k` does, `r` being its answer.
  record Removing (s : Set K) (k : K) (r : Option (Set K)) : Type ℓ where
    valid : IsProper (or_self r s)
    reads : (q : K) → has (or_self r s) q ≡ (has s q && not (t.same k q))
    answers : is_some r ≡ has s k

  remove-Removing : (s : Set K) (k : K) → IsProper s → Removing s k (remove s k)
  unfolding remove
  remove-Removing s k v = elim (Option-cases (view s.dict.buckets k)) [
    | inl absent ↦
        let h : has s k ≡ false = has-view s k v ∙ ap is_some absent in
        rw h (record { valid = v; reads = λ q. absent_lem s k q v h; answers = sym h })
    | inr (x, there) ↦
        let h : has s k ≡ true = has-view s k v ∙ ap is_some there in
        let (e, r, eq, _, _, done) = remove-present s.dict k x v there in
        rw (h, eq)
          (record {
            valid = done.valid;
            reads = λ q.
                has-view (record { dict = r }) q done.valid
                ∙ ap is_some (done.reads q)
                ∙ is_some-if_none (t.same k q) (view s.dict.buckets q)
                ∙ ap (λ b. b && not (t.same k q)) (sym (has-view s q v));
            answers = sym h;
          })
  ]

  -- `set_remove` takes out the element that is there and nothing else, and answers NULL where there
  -- is none; a caller that goes on with the set has one without that element either way.
  pub remover_lem :
      (s : Set K) (k : K)
      → IsProper s
      → IsProper (remover k s)
        × ((q : K) → has (remover k s) q ≡ (has s q && not (t.same k q)))
        × (is_some (remove s k) ≡ has s k)
  remover_lem s k v =
      let r = remove-Removing s k v in
      let e = remover-or_self s k in
      (subst IsProper (sym e) r.valid, λ q. ap (λ u. has u q) e ∙ r.reads q, r.answers)

module _ {ℓ} {K : Type ℓ} where
  each-last_match :
      (ks : List K) (matches : K → Bool) (hit : Option K)
      → each ks (λ k h. if matches k then some k else h) hit ≡ last_match ks matches hit
  each-last_match [] matches hit = refl
  each-last_match (k ∷ ks) matches hit =
      each-last_match ks matches (if matches k then some k else hit)

  -- `set_find` answers the last match in the order of `set_reduce`, NULL without one.
  pub find-last_match :
      (s : Set K) (matches : K → Bool) → find s matches ≡ last_match (elements s) matches none
  unfolding find
  find-last_match s matches =
      reduce-each s (λ k h. if matches k then some k else h) none
      ∙ each-last_match (elements s) matches none
