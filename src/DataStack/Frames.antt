-- ===== src/DataStack/Frames.antt =====
-- A bookmark, what is pushed after it, and the rollup that takes it off, in lib/datastack.c.
use obelix.Prelude.{
  ℕ, zero, suc, ◌≤◌, ◌≡◌, refl, sym, ap, ◌∙◌, false, Option, none, some, List, [], ◌∷◌, ◌++◌, map,
  append_assoc, append-nil, length, take, drop, take-past, length-append, arith, ◌==◌, subst,
}
use obelix.Prelude.Int.{pos}
use obelix.Array
use obelix.Array.{Array}
use obelix.Array.Growth.{IsValid, IsClean, items, take-append}
use obelix.Array.Access.{length-items, items-push}
use obelix.Array.Lifo.{pop-push}
use obelix.DataStack
use obelix.DataStack.{DataStack, Rolled, rolled, number, made, depth}
use obelix.DataStack.Rollup.{IsSteady, push-IsSteady, roll_to-Unloaded, fresh_lem}

-- The numbers of an array of bookmarks or counters are in order, or it is still NULL.
pub record IsOrderly (o : Option (Array ℕ)) : Type 0 where
  pub valid : IsValid (made o)
  pub clean : IsClean (made o)

pub none-IsOrderly : IsOrderly none
unfolding made
none-IsOrderly = let (v, c, _) = fresh_lem {A = ℕ} (pos 4) in record { valid = v; clean = c }

-- What one more number leaves once it is taken off again.
pub record Undone (o : Option (Array ℕ)) (n : ℕ) (a : Array ℕ) : Type 0 where
  pub some_there : (a.size == 0) ≡ false
  pub top : (Array.pop a).0 ≡ some n
  pub below : items (Array.pop a).1 ≡ items (made o)
  pub orderly : IsOrderly (some (Array.pop a).1)

pub push-Undone :
    (o : Option (Array ℕ)) (n : ℕ) → IsOrderly o → Undone o n (Array.push (made o) (some n))
unfolding made
push-Undone o n k =
    let (top, below, v, c, _, _) = pop-push (made o) (some n) k.valid k.clean in
    let bigger = (items-push (made o) (some n) k.valid k.clean).1 in
    record {
      some_there = ground (arith, bigger);
      top = top;
      below = below;
      orderly = record { valid = v; clean = c };
    }

module _ {ℓ} {A : Type ℓ} where
  abbrev pub push_all : List (Option A) → DataStack A → DataStack A
  push_all [] s = s
  push_all (x ∷ xs) s = push_all xs (DataStack.push s x)

  record Pushed (xs : List (Option A)) (s r : DataStack A) : Type ℓ where
    steady : IsSteady r
    reads : items r.list ≡ items s.list ++ xs
    same_bookmarks : r.bookmarks ≡ s.bookmarks

  push_all-Pushed :
      (xs : List (Option A)) (s : DataStack A) → IsSteady s → Pushed xs s (push_all xs s)
  unfolding DataStack.push
  push_all-Pushed [] s k = record {
    steady = k;
    reads = sym (append-nil (items s.list));
    same_bookmarks = refl;
  }
  push_all-Pushed (x ∷ xs) s k =
      let p = push_all-Pushed xs (DataStack.push s x) (push-IsSteady s x k) in
      record {
        steady = p.steady;
        reads =
            p.reads
            ∙ ap (λ l. l ++ xs) (items-push s.list x k.valid k.clean).0
            ∙ append_assoc (items s.list) (x ∷ []) xs;
        same_bookmarks = p.same_bookmarks;
      }

  drop-append : (xs ys : List (Option A)) (n : ℕ) → n ≡ length xs → drop n (xs ++ ys) ≡ ys
  drop-append [] ys zero h = refl
  drop-append [] ys (suc n) h = absurd (omega arith)
  drop-append (x ∷ xs) ys zero h = absurd (omega arith)
  drop-append (x ∷ xs) ys (suc n) h = drop-append xs ys n (omega arith)

  -- What a rollup leaves of the stack `s` that `xs` was put upon.
  pub record Framed (f : Option A → Option A) (s : DataStack A) (xs : List (Option A))
      (ret : Array A) (r : DataStack A) : Type ℓ where
    pub holds : items ret ≡ map f xs
    pub restores : items r.list ≡ items s.list
    pub steady : IsSteady r
    pub unmarks : items (made r.bookmarks) ≡ items (made s.bookmarks)
    pub orderly : IsOrderly r.bookmarks

  rollup_lem :
      (f : Option A → Option A) (s : DataStack A) (marks : Array ℕ)
      → s.bookmarks ≡ some marks
      → (marks.size == 0) ≡ false
      → DataStack.rollup f s
        ≡ DataStack.roll_to f
            (number (Array.pop marks).0)
            (record s { bookmarks = some (Array.pop marks).1 })
  unfolding DataStack.rollup
  rollup_lem f s marks e h = rw (e, h) refl

  -- After a bookmark and any pushes, a rollup succeeds: it hands out what was pushed, in order, each
  -- element deserialized, and leaves the elements and the bookmarks as they were before.
  pub rollup-push_all-bookmark :
      (f : Option A → Option A) (s : DataStack A) (xs : List (Option A))
      → IsSteady s
      → IsOrderly s.bookmarks
      → (ret : Array A) × (r : DataStack A) × (DataStack.rollup f
            (push_all xs (DataStack.bookmark s))
          ≡ (rolled ret, r))
        × Framed f s xs ret r
  unfolding DataStack.bookmark made
  rollup-push_all-bookmark f s xs k o =
      let marks = Array.push (made s.bookmarks) (some (depth s)) in
      let p =
        push_all-Pushed xs (DataStack.bookmark s) (record { valid = k.valid; clean = k.clean }) in
      let t = push_all xs (DataStack.bookmark s) in
      let un = push-Undone s.bookmarks (depth s) o in
      let mark = number (Array.pop marks).0 in
      let at : mark ≡ length (items s.list) =
        ap number un.top ∙ sym (length-items s.list k.valid) in
      let deep : mark ≤ t.list.size = omega (
        arith,
        length-items t.list p.steady.valid,
        ap length p.reads,
        length-append (items s.list) xs,
      ) in
      let (ret, r, eq, u) =
        roll_to-Unloaded f mark (record t { bookmarks = some (Array.pop marks).1 })
          (record { valid = p.steady.valid; clean = p.steady.clean }) deep in
      (
        ret,
        r,
        rollup_lem f t marks p.same_bookmarks un.some_there ∙ eq,
        record {
          holds =
              u.holds
              ∙ append-nil (map f (drop mark (items t.list)))
              ∙ ap (λ l. map f l) (ap (drop mark) p.reads ∙ drop-append (items s.list) xs mark at);
          restores =
              u.stays
              ∙ ap (take mark) p.reads
              ∙ take-append (items s.list) xs mark (omega arith)
              ∙ take-past (items s.list) mark (omega arith);
          steady = u.steady;
          unmarks = ap (λ b. items (made b)) u.same_bookmarks ∙ un.below;
          orderly = subst IsOrderly (sym u.same_bookmarks) un.orderly;
        },
      )
