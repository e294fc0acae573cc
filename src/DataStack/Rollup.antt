-- ===== src/DataStack/Rollup.antt =====
-- Bookmarks and rollups of lib/datastack.c.
use obelix.Prelude.{
  ℕ, zero, suc, ◌+◌, ◌-◌, ◌≤◌, ◌≡◌, refl, sym, ap, ◌∙◌, true, Option, none, some, List, [], ◌∷◌,
  ◌++◌, map, append_assoc, length, take, drop, replicate, drop-past, take-past, arith, leb,
}
use mathlib.Core.List.{reverse, reverse-cons}
use obelix.Prelude.Int.{ℤ, pos}
use obelix.Array
use obelix.Array.{Array, slot, free_slot}
use obelix.Array.Growth.{IsValid, IsClean, items, take-append}
use obelix.Array.Contents.{put}
use obelix.Array.Access.{length-items, set-Wrote}
use obelix.Array.Removal.{pop_lem}
use obelix.Array.Slice.{create_lem, set_free_lem}
use obelix.Array.Bulk.{live, push-IsValid}
use obelix.DataStack
use obelix.DataStack.{DataStack, Rolled, null, aborted, rolled}

module _ {ℓ} {A : Type ℓ} where
  drop-snoc :
      (xs : List (Option A)) (x : Option A) (k : ℕ)
      → k ≤ length xs
      → drop k (xs ++ x ∷ []) ≡ drop k xs ++ x ∷ []
  drop-snoc xs x zero h = refl
  drop-snoc [] x (suc k) h = absurd (omega arith)
  drop-snoc (y ∷ xs) x (suc k) h = drop-snoc xs x k (omega arith)

  map-snoc :
      (f : Option A → Option A) (xs : List (Option A)) (x : Option A)
      → map f (xs ++ x ∷ []) ≡ map f xs ++ f x ∷ []
  map-snoc f [] x = refl
  map-snoc f (y ∷ xs) x = ap (λ l. f y ∷ l) (map-snoc f xs x)

  pub reverse-snoc : (xs : List (Option A)) (x : Option A) → reverse (xs ++ x ∷ []) ≡ x ∷ reverse xs
  reverse-snoc [] x = refl
  reverse-snoc (y ∷ xs) x =
      reverse-cons y (xs ++ x ∷ [])
      ∙ ap (λ l. l ++ y ∷ []) (reverse-snoc xs x)
      ∙ ap (λ l. x ∷ l) (sym (reverse-cons y xs))

  put-nil : (i : ℕ) (x : Option A) → put [] i x ≡ replicate i none ++ x ∷ []
  put-nil zero x = refl
  put-nil (suc i) x = ap (λ l. none ∷ l) (put-nil i x)

  put-vacant :
      (i : ℕ) (x : Option A) (ys : List (Option A))
      → put (replicate (suc i) none ++ ys) i x ≡ replicate i none ++ x ∷ ys
  put-vacant zero x ys = refl
  put-vacant (suc i) x ys = ap (λ l. none ∷ l) (put-vacant i x ys)

  -- A stack whose array is valid and clean.
  pub record IsSteady (s : DataStack A) : Type ℓ where
    pub valid : IsValid s.list
    pub clean : IsClean s.list

  pub push-IsSteady : (s : DataStack A) (x : Option A) → IsSteady s → IsSteady (DataStack.push s x)
  unfolding DataStack.push
  push-IsSteady s x k =
      let (v, c) = push-IsValid s.list x k.valid k.clean in record { valid = v; clean = c }

  -- `xs` taken off the end of a stack: what stays, what the result holds, and what is released, the
  -- last one first.
  pub record Unloaded (f : Option A → Option A) (s : DataStack A) (mark : ℕ) (ys : List (Option A))
      (ret : Array A) (r : DataStack A) : Type ℓ where
    pub steady : IsSteady r
    pub ret_valid : IsValid ret
    pub ret_clean : IsClean ret
    pub holds : items ret ≡ map f (drop mark (items s.list)) ++ ys
    pub stays : items r.list ≡ take mark (items s.list)
    pub frees : r.released ≡ live (reverse (drop mark (items s.list))) s.released
    pub same_bookmarks : r.bookmarks ≡ s.bookmarks
    pub same_counters : r.counters ≡ s.counters

  live-cons :
      (x : Option A) (xs : List (Option A)) (log : List A)
      → live (x ∷ xs) log ≡ live xs (free_slot true x log)
  live-cons none xs log = refl
  live-cons (some x) xs log = refl

  -- Once the `n` slots that are left are written, `ys` follow them.
  abbrev Awaits : ℕ → Array A → List (Option A) → Type ℓ
  Awaits zero ret ys = items ret ≡ ys
  Awaits (suc i) ret ys = (x : Option A) → put (items ret) i x ≡ replicate i none ++ x ∷ ys

  Awaits-vacant :
      (n : ℕ) (ret : Array A) (ys : List (Option A))
      → items ret ≡ replicate n none ++ ys
      → Awaits n ret ys
  Awaits-vacant zero ret ys e = e
  Awaits-vacant (suc i) ret ys e = λ x. ap (λ l. put l i x) e ∙ put-vacant i x ys

  Awaits-fresh : (n : ℕ) (ret : Array A) → items ret ≡ [] → Awaits n ret []
  Awaits-fresh zero ret e = e
  Awaits-fresh (suc i) ret e = λ x. ap (λ l. put l i x) e ∙ put-nil i x

  unload-Unloaded :
      (f : Option A → Option A) (n m : ℕ) (s : DataStack A) (ret : Array A) (ys : List (Option A))
      → IsSteady s
      → IsValid ret
      → IsClean ret
      → s.list.size ≡ m + n
      → Awaits n ret ys
      → Unloaded f s m ys (DataStack.unload f n s ret).0 (DataStack.unload f n s ret).1
  unfolding DataStack.unload
  unload-Unloaded f zero m s ret ys k v c h e =
      let whole : length (items s.list) ≤ m = omega (arith, length-items s.list k.valid) in
      let none_left = drop-past (items s.list) m whole in
      record {
        steady = k;
        ret_valid = v;
        ret_clean = c;
        holds = e ∙ ap (λ l. map f l ++ ys) (sym none_left);
        stays = sym (take-past (items s.list) m whole);
        frees = ap (λ l. live (reverse l) s.released) (sym none_left);
        same_bookmarks = refl;
        same_counters = refl;
      }
  unload-Unloaded f (suc n) m s ret ys k v c h e =
      let (parts, pv, pc, one_less, _) = pop_lem s.list k.valid k.clean (omega arith) in
      let x = (Array.pop s.list).0 in
      let left = (Array.pop s.list).1 in
      let w = set-Wrote ret (pos n) (f x) v c in
      let short : m ≤ length (items left) = omega (arith, length-items left pv) in
      let cut : drop m (items s.list) ≡ drop m (items left) ++ x ∷ [] =
        ap (drop m) parts ∙ drop-snoc (items left) x m short in
      let u =
        unload-Unloaded f n m (DataStack.release (DataStack.pop s).1 x)
          (Array.set ret (pos n) (f x)) (f x ∷ ys) (record { valid = pv; clean = pc }) w.valid
          w.clean (omega arith)
          (Awaits-vacant n (Array.set ret (pos n) (f x)) (f x ∷ ys) (w.reads ∙ e (f x))) in
      record {
        steady = u.steady;
        ret_valid = u.ret_valid;
        ret_clean = u.ret_clean;
        holds =
            u.holds
            ∙ sym (append_assoc (map f (drop m (items left))) (f x ∷ []) ys)
            ∙ ap (λ l. l ++ ys) (sym (map-snoc f (drop m (items left)) x) ∙ ap (map f) (sym cut));
        stays = u.stays ∙ sym (ap (take m) parts ∙ take-append (items left) (x ∷ []) m short);
        frees =
            u.frees
            ∙ sym (live-cons x (reverse (drop m (items left))) s.released)
            ∙ ap (λ l. live l s.released)
                (sym (reverse-snoc (drop m (items left)) x) ∙ ap reverse (sym cut));
        same_bookmarks = u.same_bookmarks;
        same_counters = u.same_counters;
      }

  pub fresh_lem :
      (n : ℤ)
      → IsValid (DataStack.data_array_create {A = A} n)
        × IsClean (DataStack.data_array_create {A = A} n)
        × (items (DataStack.data_array_create {A = A} n) ≡ [])
  unfolding DataStack.data_array_create
  fresh_lem n =
      let (v, c, e, _) = create_lem {A = A} n in
      let (v', c', e', _) = set_free_lem (Array.create n) true v c in (v', c', e' ∙ e)

  -- A rollup to a mark within the stack.
  pub roll_to-Unloaded :
      (f : Option A → Option A) (mark : ℕ) (s : DataStack A)
      → IsSteady s
      → mark ≤ s.list.size
      → (ret : Array A) × (r : DataStack A) × (DataStack.roll_to f mark s ≡ (rolled ret, r))
        × Unloaded f s mark [] ret r
  unfolding DataStack.roll_to
  roll_to-Unloaded f mark s k h =
      let num = s.list.size - mark in
      let (v, c, e) = fresh_lem (pos num) in
      let within : leb mark s.list.size ≡ true = ground arith in
      (
        _,
        _,
        rw within refl,
        unload-Unloaded f num mark s (DataStack.data_array_create (pos num)) [] k v c (omega arith)
            (Awaits-fresh num (DataStack.data_array_create (pos num)) e),
      )
