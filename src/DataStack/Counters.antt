-- ===== src/DataStack/Counters.antt =====
-- The counters of lib/datastack.c.
use obelix.Prelude.{
  ℕ, zero, suc, ◌+◌, ◌-◌, ◌<◌, ◌≡◌, refl, sym, ap, ◌∙◌, false, Option, none, some, List, [], ◌∷◌,
  length, set as set_slot, length-set, true, subst, get_or-set, arith, ◌==◌,
}
use obelix.Prelude.Int.{ℤ, pos, negsuc}
use obelix.Array
use obelix.Array.{Array, slot}
use obelix.Array.Growth.{IsValid, items}
use obelix.Array.Lifo.{get-pop}
use obelix.Array.Bulk.{push-IsValid}
use obelix.DataStack
use obelix.DataStack.{DataStack, number, made, bump_last}
use obelix.DataStack.Frames.{IsOrderly, Undone, push-Undone}

module _ {ℓ} {A : Type ℓ} where
  set-set : (xs : List A) (i : ℕ) (x y : A) → set_slot (set_slot xs i x) i y ≡ set_slot xs i y
  set-set [] i x y = refl
  set-set (z ∷ xs) zero x y = refl
  set-set (z ∷ xs) (suc i) x y = ap (λ l. z ∷ l) (set-set xs i x y)

module _ (a : Array ℕ) (m : ℕ) (v : IsValid a) (full : (a.size == 0) ≡ false)
    (e : (Array.pop a).0 ≡ some m) where
  last_in : a.size - 1 < length a.contents
  last_in = let bound = v.fits in let filled = v.filled in ground arith

  bump_last-pop :
      ((Array.pop (bump_last a)).0 ≡ some (suc m)) × ((Array.pop (bump_last a)).1 ≡ (Array.pop a).1)
  unfolding bump_last Array.pop
  bump_last-pop =
      let last = a.size - 1 in
      let more = some (suc (number (Array.get a (negsuc 0)).1)) in
      let same : (last == last) ≡ true = ground arith in
      let read = get_or-set a.contents last last more none last_in in
      let next : more ≡ some (suc m) = ap (λ o. some (suc (number o))) (get-pop a full ∙ e) in
      (
        rw full (read ∙ rw same next),
        rw full (
            ap (λ cs. record a { contents = cs; size = last }) (set-set a.contents last more none)),
      )

-- Increments of a counter that are undone all the same.
record Counting (o : Option (Array ℕ)) (n : ℕ) (a : Array ℕ) : Type 0 where
  held : IsValid a
  undone : Undone o n a

bump_last-Counting :
    (o : Option (Array ℕ)) (n : ℕ) (a : Array ℕ) → Counting o n a → Counting o (suc n) (bump_last a)
unfolding bump_last
bump_last-Counting o n a c =
    let u = c.undone in
    let (top, rest) = bump_last-pop a n c.held u.some_there u.top in
    record {
      held = record {
        filled = length-set a.contents (a.size - 1) _ ∙ c.held.filled;
        fits = c.held.fits;
      };
      undone = record {
        some_there = u.some_there;
        top = top;
        below = ap (λ b. items b) rest ∙ u.below;
        orderly = subst (λ b. IsOrderly (some b)) (sym rest) u.orderly;
      };
    }

module _ {ℓ} {A : Type ℓ} where
  -- `datastack_increment` called `n` times; `none` once it answers NULL.
  abbrev pub increments : ℕ → Option (DataStack A) → Option (DataStack A)
  increments zero o = o
  increments (suc n) none = none
  increments (suc n) (some s) = increments n (DataStack.increment s)

  increment_lem :
      (s : DataStack A) (a : Array ℕ)
      → s.counters ≡ some a
      → (a.size == 0) ≡ false
      → DataStack.increment s ≡ some (record s { counters = some (bump_last a) })
  unfolding DataStack.increment
  increment_lem s a e h = rw (e, h) refl

  count_lem :
      (s : DataStack A) (a : Array ℕ)
      → s.counters ≡ some a
      → (a.size == 0) ≡ false
      → DataStack.count s
        ≡ (pos (number (Array.pop a).0), record s { counters = some (Array.pop a).1 })
  unfolding DataStack.count
  count_lem s a e h = rw (e, h) refl

  current_count_lem :
      (s : DataStack A) (a : Array ℕ)
      → s.counters ≡ some a
      → (a.size == 0) ≡ false
      → DataStack.current_count s ≡ pos (number (Array.pop a).0)
  unfolding DataStack.current_count
  current_count_lem s a e h = rw (e, h) (ap (λ o. pos (number o)) (get-pop a h))

  -- What a counter that stands at `n` answers, and what is left when it is taken off.
  pub record Counted (s t : DataStack A) (n : ℕ) : Type ℓ where
    pub current : DataStack.current_count t ≡ pos n
    pub counted : (DataStack.count t).0 ≡ pos n
    pub same_list : (DataStack.count t).1.list ≡ s.list
    pub same_bookmarks : (DataStack.count t).1.bookmarks ≡ s.bookmarks
    pub restores : items (made (DataStack.count t).1.counters) ≡ items (made s.counters)
    pub orderly : IsOrderly (DataStack.count t).1.counters

  increments-Counted :
      (n k : ℕ) (s t : DataStack A) (a : Array ℕ)
      → t.counters ≡ some a
      → t.list ≡ s.list
      → t.bookmarks ≡ s.bookmarks
      → Counting s.counters k a
      → (r : DataStack A) × (increments n (some t) ≡ some r) × Counted s r (k + n)
  unfolding made
  increments-Counted zero k s t a e l b c =
      let u = c.undone in
      let gone = count_lem t a e u.some_there in
      (
        t,
        refl,
        record {
          current =
              current_count_lem t a e u.some_there
              ∙ ap (λ o. pos (number o)) u.top
              ∙ ap pos (omega arith);
          counted = ap (λ r. r.0) gone ∙ ap (λ o. pos (number o)) u.top ∙ ap pos (omega arith);
          same_list = ap (λ (r : ℤ × DataStack A). r.1.list) gone ∙ l;
          same_bookmarks = ap (λ (r : ℤ × DataStack A). r.1.bookmarks) gone ∙ b;
          restores = ap (λ (r : ℤ × DataStack A). items (made r.1.counters)) gone ∙ u.below;
          orderly = subst (λ (r : ℤ × DataStack A). IsOrderly r.1.counters) (sym gone) u.orderly;
        },
      )
  increments-Counted (suc n) k s t a e l b c =
      let step = increment_lem t a e c.undone.some_there in
      let (r, eq, done) =
        increments-Counted n (suc k) s (record t { counters = some (bump_last a) }) (bump_last a)
          refl l b (bump_last-Counting s.counters k a c) in
      let total : suc k + n ≡ k + suc n = omega arith in
      (r, ap (increments n) step ∙ eq, subst (λ m. Counted s r m) total done)

  -- A new counter that is incremented `n` times answers `n`, and `datastack_count` takes it off and
  -- leaves the other counters, the elements and the bookmarks as they were.
  pub count-increments :
      (s : DataStack A) (n : ℕ)
      → IsOrderly s.counters
      → (r : DataStack A) × (increments n (some (DataStack.new_counter s)) ≡ some r) × Counted s r n
  unfolding DataStack.new_counter
  count-increments s n o =
      let a = Array.push (made s.counters) (some 0) in
      let (r, eq, done) =
        increments-Counted n 0 s (DataStack.new_counter s) a refl refl refl (record {
          held = (push-IsValid (made s.counters) (some 0) o.valid o.clean).0;
          undone = push-Undone s.counters 0 o;
        }) in
      let total : 0 + n ≡ n = omega arith in (r, eq, subst (λ m. Counted s r m) total done)
